-- ===== src/Crypto/Many.antt =====
-- Several keys at once, and the key of an owner: `load_many` and `find` of `DataKeyService`
-- (services/platform/src/shaidago/shared/data_keys.py).
use shaidago.Base.{
  ◌⊎◌, ◌∙◌, ℕ, ◌≡◌, refl, false, ◌&&◌, List, [], ◌∷◌, Option, none, some, Result, ok, ◌>>=◌, any,
  ◌==◌, if◌then◌else◌, Text, same_text, bind-ok, Bool-cases, inl, inr, ap, arith,
}
use shaidago.Crypto.{
  Bytes, Aead, Ring, DataKey, KeyRow, CryptoError, Purpose, is_purpose, unwrap_row, load,
}

module _ (aead : Aead) (ring : Ring) where
  -- A key that was destroyed is absent.
  abbrev with_key :
      KeyRow
      → Option (ℕ × Bytes)
      → Result CryptoError (List (ℕ × DataKey))
      → Result CryptoError (List (ℕ × DataKey))
  with_key row none rest = rest
  with_key row (some wrapped) rest = do
    key ← unwrap_row aead ring row (some wrapped)
    keys ← rest
    ok ((row.id, key) ∷ keys)

  unfoldable pub keys_of : List ℕ → List KeyRow → Result CryptoError (List (ℕ × DataKey))
  keys_of wanted [] = ok []
  keys_of wanted (row ∷ rows) =
      let rest = keys_of wanted rows in
      if any (λ i. i == row.id) wanted then with_key row row.wrapped rest else rest

  -- `DataKeyService.load_many`: the keys under their identifiers; that an identifier stands twice
  -- among those asked for changes nothing.
  unfoldable pub load_many : List ℕ → List KeyRow → Result CryptoError (List (ℕ × DataKey))
  unfolding keys_of
  load_many [] rows = ok []
  load_many (i ∷ wanted) rows = keys_of (i ∷ wanted) rows

-- `DataKeyService.find`
unfoldable pub find : Text → ℕ → Purpose → List KeyRow → Option ℕ
find owner_table owner_id purpose [] = none
find owner_table owner_id purpose (row ∷ rows) =
    if same_text row.owner_table owner_table
      && row.owner_id == owner_id
      && is_purpose row.purpose purpose
    then some row.id
    else find owner_table owner_id purpose rows

-- The key under an identifier.
unfoldable pub key_of : ℕ → List (ℕ × DataKey) → Option DataKey
key_of i [] = none
key_of i ((j, k) ∷ keys) = if j == i then some k else key_of i keys

-- Each identifier stands in one row.
abbrev pub IsUnique : List KeyRow → Type 0
IsUnique [] = Unit
IsUnique (row ∷ rows) = (any (λ r. r.id == row.id) rows ≡ false) × IsUnique rows

module _ (aead : Aead) (ring : Ring) (wanted : List ℕ) where
  with_key-cases :
      (row : KeyRow) (wrapped : Option (ℕ × Bytes)) (rest : Result CryptoError (List (ℕ × DataKey)))
      {keys : List (ℕ × DataKey)}
      → with_key aead ring row wrapped rest ≡ ok keys
      → (rest ≡ ok keys)
        ⊎ ((key : DataKey) × (others : List (ℕ × DataKey)) × (unwrap_row aead ring row wrapped
              ≡ ok key)
            × (rest ≡ ok others)
            × ((row.id, key) ∷ others ≡ keys))
  with_key-cases row none rest h = inl h
  with_key-cases row (some wrapped) rest {keys} h =
      bind-ok (unwrap_row aead ring row (some wrapped)) _ h
        λ key e1 h1. bind-ok rest _ h1 λ others e2 h2. inr (key, others, e1, e2, ground arith)

  keys_of-cases :
      (row : KeyRow) (rows : List KeyRow) {keys : List (ℕ × DataKey)}
      → keys_of aead ring wanted (row ∷ rows) ≡ ok keys
      → (keys_of aead ring wanted rows ≡ ok keys)
        ⊎ ((key : DataKey) × (others : List (ℕ × DataKey)) × (unwrap_row aead ring row row.wrapped
              ≡ ok key)
            × (keys_of aead ring wanted rows ≡ ok others)
            × ((row.id, key) ∷ others ≡ keys))
  unfolding keys_of
  keys_of-cases row rows {keys} h = elim (Bool-cases (any (λ i. i == row.id) wanted)) [
    | inl asked ↦ with_key-cases row row.wrapped (keys_of aead ring wanted rows) (rw asked at h)
    | inr passed ↦ inl (rw passed at h)
  ]

  -- No key comes from rows that do not hold its identifier.
  keys_of-missing :
      (i : ℕ) (rows : List KeyRow) {keys : List (ℕ × DataKey)}
      → keys_of aead ring wanted rows ≡ ok keys
      → any (λ row. row.id == i) rows ≡ false
      → key_of i keys ≡ none
  unfolding keys_of key_of
  keys_of-missing i [] {keys} h n = let same : [] ≡ keys = ground arith in rw (← same) refl
  keys_of-missing i (row ∷ rows) {keys} h n = elim (keys_of-cases row rows h) [
    | inl rest ↦ keys_of-missing i rows rest (ground arith)
    | inr (key, others, made, rest, same) ↦
        let other : (row.id == i) ≡ false = ground arith in
        rw (← same, other) (keys_of-missing i rows rest (ground arith))
  ]

  load-keys_of :
      (i : ℕ) (rows : List KeyRow) {keys : List (ℕ × DataKey)} {k : DataKey}
      → IsUnique rows
      → keys_of aead ring wanted rows ≡ ok keys
      → key_of i keys ≡ some k
      → load aead ring i rows ≡ ok k
  unfolding load key_of keys_of
  load-keys_of i [] {keys} p h e =
      let same : [] ≡ keys = ground arith in absurd (ground (arith, rw (← same) at e))
  load-keys_of i (row ∷ rows) {keys} {k} (p, ps) h e = elim (Bool-cases (row.id == i)) [
    | inl here ↦
        let same_id : row.id ≡ i = ground arith in
        let unique : any (λ r. r.id == i) rows ≡ false = rw same_id at p in
        elim (keys_of-cases row rows h) [
          | inl rest ↦
              let missing : key_of i keys ≡ none = keys_of-missing i rows rest unique in
              absurd (ground (arith, missing, e))
          | inr (key, others, made, rest, same) ↦
              let k_same : some key ≡ some k = rw (← same, here) at e in
              let agrees : key ≡ k = ground arith in rw here (made ∙ ap ok agrees)
        ]
    | inr other ↦ elim (keys_of-cases row rows h) [
      | inl rest ↦ rw other (load-keys_of i rows ps rest e)
      | inr (key, others, made, rest, same) ↦
          rw other (load-keys_of i rows ps rest (rw (← same, other) at e))
    ]
  ]

module _ (aead : Aead) (ring : Ring) where
  -- Where each identifier stands in one row of the table, a key that `load_many` returns under an
  -- identifier is the key that `load` returns for that identifier.
  pub load-load_many :
      (wanted : List ℕ) (i : ℕ) (rows : List KeyRow) {keys : List (ℕ × DataKey)} {k : DataKey}
      → IsUnique rows
      → load_many aead ring wanted rows ≡ ok keys
      → key_of i keys ≡ some k
      → load aead ring i rows ≡ ok k
  unfolding load_many key_of
  load-load_many [] i rows {keys} unique h e =
      let same : [] ≡ keys = ground arith in absurd (ground (arith, rw (← same) at e))
  load-load_many (j ∷ wanted) i rows unique h e =
      load-keys_of aead ring (j ∷ wanted) i rows unique h e
