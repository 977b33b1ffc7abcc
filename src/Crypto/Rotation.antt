-- ===== src/Crypto/Rotation.antt =====
-- Rotation of the key-encryption key: `DataKeyService.rotate`
-- (services/platform/src/shaidago/shared/data_keys.py).
use shaidago.Base.{
  ℕ, suc, ◌-◌, ◌≡◌, refl, sym, ap, ◌∙◌, Bool, true, false, ◌&&◌, not, List, [], ◌∷◌, Option, none,
  some, Result, ok, err, ◌>>=◌, ◌==◌, if◌then◌else◌, bind-ok, Option-cases, Bool-cases, inl, inr,
  arith, is_none, ltb, length,
}
use shaidago.Crypto.{
  Bytes, Aead, Ring, KeyRow, CryptoError, key_unavailable, wrap, unwrap, unwrap_row, load,
  dek_context, find_kek, close_envelope,
}
use shaidago.Crypto.Laws.{open_envelope-close_envelope}

pub record RotationResult : Type 0 where
  pub rewrapped : ℕ
  pub unavailable : ℕ
  pub remaining : ℕ

-- `kek_version <> :active`, where the version is not NULL.
abbrev is_older : ℕ → Option (ℕ × Bytes) → Bool
is_older active none = false
is_older active (some (version, wrapped)) = not (version == active)

-- The rows that `_STALE` reads and `_REMAINING` counts.
unfoldable pub is_stale : ℕ → KeyRow → Bool
is_stale active row = is_none row.destroyed_at && is_older active row.wrapped

unfoldable pub count_stale : ℕ → List KeyRow → ℕ
unfolding is_stale
count_stale active [] = 0
count_stale active (row ∷ rows) =
    let n = count_stale active rows in if is_stale active row then suc n else n

module _ (aead : Aead) (ring : Ring) (nonces : ℕ → Bytes) where
  -- A row after its turn, and whether it was rewrapped; `KeyUnavailableError` leaves it as it is.
  abbrev rewrap_row : KeyRow → Result CryptoError Bytes → Result CryptoError (KeyRow × Bool)
  rewrap_row row (err key_unavailable) = ok (row, false)
  rewrap_row row (err e) = err e
  rewrap_row row (ok dek) = do
    wrapped ←
        wrap aead ring (nonces row.id) dek
          (dek_context row.id row.purpose row.owner_table row.owner_id)
    ok (record row { wrapped = some wrapped }, true)

  unfoldable pub rotate_row : KeyRow → Option (ℕ × Bytes) → Result CryptoError (KeyRow × Bool)
  rotate_row row none = ok (row, false)
  rotate_row row (some (version, wrapped)) = rewrap_row row (
      unwrap aead ring version wrapped
        (dek_context row.id row.purpose row.owner_table row.owner_id))

  -- The loop of `rotate` over at most `limit` stale rows of the table, which is in the order of
  -- identifiers: the table after it, how many rows were rewrapped and how many could not be.
  unfoldable pub rotate_rows : ℕ → List KeyRow → Result CryptoError (List KeyRow × ℕ × ℕ)
  unfolding is_stale
  rotate_rows limit [] = ok ([], 0, 0)
  rotate_rows limit (row ∷ rows) =
      let taken = is_stale ring.active row && ltb 0 limit in
      let rest = rotate_rows (if taken then limit - 1 else limit) rows in
      if taken
      then (do
        turn ← rotate_row row row.wrapped
        others ← rest
        ok (
          turn.0 ∷ others.0,
          if turn.1 then suc others.1 else others.1,
          if turn.1 then others.2 else suc others.2,
        ))
      else (do others ← rest; ok (row ∷ others.0, others.1, others.2))

  -- `DataKeyService.rotate`
  unfoldable pub rotate : ℕ → List KeyRow → Result CryptoError (List KeyRow × RotationResult)
  rotate limit rows = do
    done ← rotate_rows limit rows
    ok (
      done.0,
      record {
        rewrapped = done.1;
        unavailable = done.2;
        remaining = count_stale ring.active done.0;
      },
    )

if-same {ℓ} :
    {A : Type ℓ} {b b' : Bool} {x x' y y' : A}
    → b ≡ b'
    → x ≡ x'
    → y ≡ y'
    → (if b then x else y) ≡ (if b' then x' else y')
if-same p q r = rw (p, q, r) refl

module _ (aead : Aead) (ring : Ring) (nonces : ℕ → Bytes) where
  wrap-unwrap :
      (nonce dek context : Bytes) {version : ℕ} {sealed : Bytes}
      → length nonce ≡ 12
      → wrap aead ring nonce dek context ≡ ok (version, sealed)
      → unwrap aead ring version sealed context ≡ ok dek
  unfolding wrap unwrap
  wrap-unwrap nonce dek context {version} {sealed} h e =
      elim (Option-cases (find_kek ring.active ring.keys)) [
        | inl missing ↦ absurd (ground (arith, rw missing at e))
        | inr (kek, found) ↦
            let made : ◌≡◌ {A = Result CryptoError (ℕ × Bytes)}
                (ok (ring.active, close_envelope aead nonce kek dek context))
                (ok (version, sealed)) =
              rw found at e in
            let v : ring.active ≡ version = ground arith in
            let s : close_envelope aead nonce kek dek context ≡ sealed = ground arith in
            rw (← v, ← s, found, open_envelope-close_envelope aead nonce kek dek context h) refl
      ]

  unwrap_row-some :
      (row : KeyRow) (version : ℕ) (sealed : Bytes)
      → unwrap_row aead ring row (some (version, sealed)) ≡ (
          unwrap aead ring version sealed
            (dek_context row.id row.purpose row.owner_table row.owner_id)
          >>= λ dek. ok (record { id = row.id; key = dek }))
  unfolding unwrap_row
  unwrap_row-some row version sealed = refl

  rewrap_row-unwrap :
      (row : KeyRow) (unwrapped : Result CryptoError Bytes) {row' : KeyRow} {b : Bool}
      → ((n : ℕ) → length (nonces n) ≡ 12)
      → unwrap_row aead ring row row.wrapped
        ≡ (unwrapped >>= λ dek. ok (record { id = row.id; key = dek }))
      → rewrap_row aead ring nonces row unwrapped ≡ ok (row', b)
      → (row'.id ≡ row.id)
        × (unwrap_row aead ring row' row'.wrapped ≡ unwrap_row aead ring row row.wrapped)
  unfolding unwrap_row
  rewrap_row-unwrap row (err key_unavailable) {row'} h same e =
      let kept : row ≡ row' = ground arith in rw (← kept) (refl, refl)
  rewrap_row-unwrap row (err _) h same e = absurd (ground arith)
  rewrap_row-unwrap row (ok dek) {row'} {b} h same e =
      let context = dek_context row.id row.purpose row.owner_table row.owner_id in
      bind-ok (wrap aead ring (nonces row.id) dek context) _ e λ wrapped e1 h1.
        let made : record row { wrapped = some wrapped } ≡ row' = ground arith in
        let opens : unwrap aead ring wrapped.0 wrapped.1 context ≡ ok dek =
          wrap-unwrap (nonces row.id) dek context (h row.id) e1 in
        rw (← made) (refl, unwrap_row-some row wrapped.0 wrapped.1 ∙ (rw opens (sym same)))

  -- A row keeps its identifier and its key.
  pub rotate_row-unwrap :
      (row : KeyRow) (wrapped : Option (ℕ × Bytes)) {row' : KeyRow} {b : Bool}
      → ((n : ℕ) → length (nonces n) ≡ 12)
      → row.wrapped ≡ wrapped
      → rotate_row aead ring nonces row wrapped ≡ ok (row', b)
      → (row'.id ≡ row.id)
        × (unwrap_row aead ring row' row'.wrapped ≡ unwrap_row aead ring row row.wrapped)
  unfolding rotate_row
  rotate_row-unwrap row none {row'} h w e =
      let kept : row ≡ row' = ground arith in rw (← kept) (refl, refl)
  rotate_row-unwrap row (some (version, sealed)) h w e =
      rewrap_row-unwrap row _ h
        (ap (unwrap_row aead ring row) w ∙ unwrap_row-some row version sealed) e

  load-cons :
      (row row' : KeyRow) (i : ℕ) (rows rows' : List KeyRow)
      → (row'.id ≡ row.id)
      → (unwrap_row aead ring row' row'.wrapped ≡ unwrap_row aead ring row row.wrapped)
      → load aead ring i rows' ≡ load aead ring i rows
      → load aead ring i (row' ∷ rows') ≡ load aead ring i (row ∷ rows)
  unfolding load
  load-cons row row' i rows rows' a b c = if-same (ap (λ n. n == i) a) b c

  rotate_rows-load :
      (limit i : ℕ) (rows : List KeyRow) {rows' : List KeyRow} {m n : ℕ}
      → ((n : ℕ) → length (nonces n) ≡ 12)
      → rotate_rows aead ring nonces limit rows ≡ ok (rows', m, n)
      → load aead ring i rows' ≡ load aead ring i rows
  unfolding rotate_rows
  rotate_rows-load limit i [] {rows'} h e =
      let same : [] ≡ rows' = ground arith in ap (load aead ring i) (sym same)
  rotate_rows-load limit i (row ∷ rows) {rows'} h e =
      elim (Bool-cases (is_stale ring.active row && ltb 0 limit)) [
        | inl taken ↦
            bind-ok (rotate_row aead ring nonces row row.wrapped) _ (rw taken at e) λ turn e1 h1.
              bind-ok (rotate_rows aead ring nonces (limit - 1) rows) _ h1 λ others e2 h2.
                let same : turn.0 ∷ others.0 ≡ rows' = ground arith in
                rw (← same) (
                  let (id, key) = rotate_row-unwrap row row.wrapped h refl e1 in
                  load-cons row turn.0 i rows others.0 id key
                    (rotate_rows-load (limit - 1) i rows h e2))
        | inr passed ↦
            bind-ok (rotate_rows aead ring nonces limit rows) _ (rw passed at e) λ others e2 h2.
              let same : row ∷ others.0 ≡ rows' = ground arith in
              let tail : load aead ring i others.0 ≡ load aead ring i rows =
                rotate_rows-load limit i rows h e2 in
              rw (← same) (load-cons row row i rows others.0 refl refl tail)
      ]

  -- A batch of rotation changes no data key: whatever is read by an identifier before it, a key or
  -- an error, is read by that identifier after it.
  pub load-rotate :
      (limit i : ℕ) (rows : List KeyRow) {rows' : List KeyRow} {result : RotationResult}
      → ((n : ℕ) → length (nonces n) ≡ 12)
      → rotate aead ring nonces limit rows ≡ ok (rows', result)
      → load aead ring i rows' ≡ load aead ring i rows
  unfolding rotate
  load-rotate limit i rows {rows'} h e =
      bind-ok (rotate_rows aead ring nonces limit rows) _ e λ done e1 h1.
        let same : done.0 ≡ rows' = ground arith in rw (← same) (rotate_rows-load limit i rows h e1)
