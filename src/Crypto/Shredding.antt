-- ===== src/Crypto/Shredding.antt =====
-- What `DataKeyService.destroy` (services/platform/src/shaidago/shared/data_keys.py) leaves for good:
-- no later call on the table brings the key back.
use shaidago.Base.{
  ◌⊎◌, ◌↔◌, ℕ, ◌≡◌, refl, subst, ◌-◌, Bool, true, false, ◌&&◌, List, [], ◌∷◌, Option, none, some,
  ok, err, ◌==◌, ==_iff, if◌then◌else◌, bind-ok, Bool-cases, Option-cases, inl, inr, arith, is_none,
  ltb, length, Text, same_text, same_text_iff, ◌∙◌, ok-injective,
}
use shaidago.Crypto.{
  Bytes, Aead, Ring, KeyRow, DataKey, Draw, Purpose, has_key, is_key_state, is_live_key, is_purpose,
  insert_key, key_row, create, destroy, load, key_destroyed, wrap, dek_context, key_check, is_owned,
}
use shaidago.Crypto.Laws.{is_purpose_iff}
use shaidago.Crypto.Rotation.{
  RotationResult, rotate, rotate_rows, rotate_row, rotate_row-unwrap, is_stale,
}

-- The first row with an identifier.
abbrev pub find_row : ℕ → List KeyRow → Option KeyRow
find_row key_id [] = none
find_row key_id (row ∷ rows) = if row.id == key_id then some row else find_row key_id rows

-- The row of the identifier holds no wrapped key.
abbrev pub is_gone : ℕ → List KeyRow → Bool
is_gone key_id [] = false
is_gone key_id (row ∷ rows) = if row.id == key_id then is_none row.wrapped else is_gone key_id rows

-- Any sequence of calls that change the table: keys created, keys destroyed, batches of rotation
-- with nonces of twelve bytes, each under a key ring of its own.
pub data Later (aead : Aead) (rows : List KeyRow) : List KeyRow → Type 0 where
  here : Later aead rows rows
  creating :
      {rows1 rows2 : List KeyRow} (ring : Ring) (draw : Draw) (now : ℕ) (owner_table : Text)
      (owner_id : ℕ) (purpose : Purpose) (key : DataKey)
      → Later aead rows rows1
      → create aead ring draw now owner_table owner_id purpose rows1 ≡ ok (key, rows2)
      → Later aead rows rows2
  destroying :
      {rows1 : List KeyRow} (now : ℕ) (owner_table : Text) (owner_id : ℕ) (purpose : Purpose)
      → Later aead rows rows1
      → Later aead rows (destroy now owner_table owner_id purpose rows1).0
  rotating :
      {rows1 rows2 : List KeyRow} (ring : Ring) (nonces : ℕ → Bytes) (limit : ℕ)
      (result : RotationResult)
      → Later aead rows rows1
      → ((n : ℕ) → length (nonces n) ≡ 12)
      → rotate aead ring nonces limit rows1 ≡ ok (rows2, result)
      → Later aead rows rows2

is_gone-has_key :
    (i : ℕ) (rows : List KeyRow) → is_gone i rows ≡ true → has_key (some i) rows ≡ true
unfolding has_key
is_gone-has_key i [] h = cc
is_gone-has_key i (row ∷ rows) h = elim (Bool-cases (row.id == i)) [
  | inl here_ ↦ rw here_ refl
  | inr there ↦ rw there (is_gone-has_key i rows (rw there at h))
]

is_gone-cons :
    (i : ℕ) (row : KeyRow) (rows : List KeyRow)
    → has_key (some row.id) rows ≡ false
    → is_gone i rows ≡ true
    → is_gone i (row ∷ rows) ≡ true
is_gone-cons i row rows new h = elim (Bool-cases (row.id == i)) [
  | inl same ↦
      let id : row.id ≡ i = (==_iff row.id i).0 same in
      absurd (
        ground (arith, is_gone-has_key i rows h, subst (λ n. has_key (some n) rows ≡ false) id new))
  | inr other ↦ rw other h
]

insert_key-ok :
    (row : KeyRow) (rows : List KeyRow) {rows' : List KeyRow}
    → insert_key row rows ≡ ok rows'
    → (has_key (some row.id) rows ≡ false) × (row ∷ rows ≡ rows')
unfolding insert_key
insert_key-ok row rows h = elim (Bool-cases (key_check row)) [
  | inr bad ↦ absurd (ground (arith, rw bad at h))
  | inl good ↦ elim (Bool-cases (has_key (some row.id) rows)) [
    | inl old ↦ absurd (ground (arith, rw (good, old) at h))
    | inr new ↦ elim (Bool-cases (is_owned row.owner_table row.owner_id row.purpose rows)) [
      | inl owned ↦ absurd (ground (arith, rw (good, new, owned) at h))
      | inr free ↦ (new, ok-injective (rw (good, new, free) at h))
    ]
  ]
]

create-is_gone :
    (aead : Aead) (ring : Ring) (draw : Draw) (now : ℕ) (owner_table : Text) (owner_id : ℕ)
    (purpose : Purpose) (i : ℕ) (rows : List KeyRow) {key : DataKey} {rows' : List KeyRow}
    → create aead ring draw now owner_table owner_id purpose rows ≡ ok (key, rows')
    → is_gone i rows ≡ true
    → is_gone i rows' ≡ true
unfolding create
create-is_gone aead ring draw now owner_table owner_id purpose i rows {key} {rows'} made h =
    bind-ok (wrap aead ring draw.nonce draw.dek (dek_context draw.id purpose owner_table owner_id))
      _ made
      λ wrapped e1 h1.
        let row = key_row draw now owner_table owner_id purpose wrapped in
        bind-ok (insert_key row rows) _ h1 λ inserted e2 h2.
          let (new, same) = insert_key-ok row rows e2 in
          let out : inserted ≡ rows' = ground arith in
          subst (λ t. is_gone i t ≡ true) (same ∙ out) (is_gone-cons i row rows new h)

module _ (now : ℕ) (owner_table : Text) (owner_id : ℕ) (purpose : Purpose) where
  destroy-is_gone :
      (i : ℕ) (rows : List KeyRow)
      → is_gone i rows ≡ true
      → is_gone i (destroy now owner_table owner_id purpose rows).0 ≡ true
  unfolding destroy
  destroy-is_gone i [] h = h
  destroy-is_gone i (row ∷ rows) h =
      elim (Bool-cases (is_live_key owner_table owner_id purpose row)) [
        | inl live ↦ rw live (ground (arith, destroy-is_gone i rows))
        | inr dead ↦ rw dead (ground (arith, destroy-is_gone i rows))
      ]

rotate_rows-is_gone :
    (aead : Aead) (ring : Ring) (nonces : ℕ → Bytes) (limit i : ℕ) (rows : List KeyRow)
    {rows' : List KeyRow} {m n : ℕ}
    → ((n : ℕ) → length (nonces n) ≡ 12)
    → rotate_rows aead ring nonces limit rows ≡ ok (rows', m, n)
    → is_gone i rows ≡ true
    → is_gone i rows' ≡ true
unfolding rotate_rows is_stale
rotate_rows-is_gone aead ring nonces limit i [] h e gone = cc
rotate_rows-is_gone aead ring nonces limit i (row ∷ rows) {rows'} h e gone =
    elim (Bool-cases (is_stale ring.active row && ltb 0 limit)) [
      | inl taken ↦
          bind-ok (rotate_row aead ring nonces row row.wrapped) _ (rw taken at e) λ turn e1 h1.
            bind-ok (rotate_rows aead ring nonces (limit - 1) rows) _ h1 λ others e2 h2.
              let same : turn.0 ∷ others.0 ≡ rows' = ground arith in
              let (id, _) = rotate_row-unwrap aead ring nonces row row.wrapped h refl e1 in
              rw (← same, id)
                (elim (Bool-cases (row.id == i)) [
                  | inl here_ ↦ absurd (wrapped_still row taken (rw here_ at gone))
                  | inr there ↦ rw there (
                      rotate_rows-is_gone aead ring nonces (limit - 1) i rows h e2
                        (rw there at gone))
                ])
      | inr passed ↦
          bind-ok (rotate_rows aead ring nonces limit rows) _ (rw passed at e) λ others e2 h2.
            let same : row ∷ others.0 ≡ rows' = ground arith in
            rw (← same) (elim (Bool-cases (row.id == i)) [
              | inl here_ ↦ rw here_ (rw here_ at gone)
              | inr there ↦
                  rw there
                    (rotate_rows-is_gone aead ring nonces limit i rows h e2 (rw there at gone))
            ])
    ]
  where
    wrapped_still :
        (r : KeyRow) → (is_stale ring.active r && ltb 0 limit) ≡ true → is_none r.wrapped ≡ true → ⊥
    wrapped_still r t w = elim (Option-cases r.wrapped) [
      | inl none_ ↦ ground arith
      | inr (x, some_) ↦ ground arith
    ]

Later-is_gone :
    (aead : Aead) (i : ℕ) {rows rows' : List KeyRow}
    → Later aead rows rows'
    → is_gone i rows ≡ true
    → is_gone i rows' ≡ true
unfolding rotate
Later-is_gone aead i here h = h
Later-is_gone aead i (creating {rows1} ring draw now owner_table owner_id purpose key before made)
      h =
    create-is_gone aead ring draw now owner_table owner_id purpose i rows1 made
      (Later-is_gone aead i before h)
Later-is_gone aead i (destroying {rows1} now owner_table owner_id purpose before) h =
    destroy-is_gone now owner_table owner_id purpose i rows1 (Later-is_gone aead i before h)
Later-is_gone aead i {rows' = rows2} (rotating {rows1} ring nonces limit result before twelve done)
      h =
    bind-ok (rotate_rows aead ring nonces limit rows1) _ done λ out e1 h1.
      let same : out.0 ≡ rows2 = ground arith in
      subst (λ t. is_gone i t ≡ true) same
        (rotate_rows-is_gone aead ring nonces limit i rows1 twelve e1
          (Later-is_gone aead i before h))

load-is_gone :
    (aead : Aead) (ring : Ring) (i : ℕ) (rows : List KeyRow)
    → is_gone i rows ≡ true
    → load aead ring i rows ≡ err key_destroyed
unfolding load
load-is_gone aead ring i [] h = cc
load-is_gone aead ring i (row ∷ rows) h = elim (Bool-cases (row.id == i)) [
  | inr there ↦ rw there (load-is_gone aead ring i rows (rw there at h))
  | inl here_ ↦ elim (Option-cases row.wrapped) [
    | inl none_ ↦ rw (here_, none_) refl
    | inr (x, some_) ↦ absurd (ground (arith, rw here_ at h))
  ]
]

-- A key of the owner and for the purpose.
abbrev pub IsKeyOf : Text → ℕ → Purpose → KeyRow → Type 0
IsKeyOf owner_table owner_id purpose row =
    (row.owner_table ≡ owner_table) × (row.owner_id ≡ owner_id) × (row.purpose ≡ purpose)

module _ (aead : Aead) (now : ℕ) (owner_table : Text) (owner_id : ℕ) (purpose : Purpose) where
  is_key_of : KeyRow → Bool
  is_key_of row =
      same_text row.owner_table owner_table
      && row.owner_id == owner_id
      && is_purpose row.purpose purpose

  is_key_of_iff : (row : KeyRow) → (is_key_of row ≡ true) ↔ IsKeyOf owner_table owner_id purpose row
  unfolding is_key_of
  is_key_of_iff row =
      ground (arith, same_text_iff row.owner_table owner_table, is_purpose_iff row.purpose purpose)

  destroy-of :
      (i : ℕ) (rows : List KeyRow) {row : KeyRow}
      → find_row i rows ≡ some row
      → is_key_state row.wrapped row.destroyed_at ≡ true
      → is_key_of row ≡ true
      → is_gone i (destroy now owner_table owner_id purpose rows).0 ≡ true
  unfolding destroy is_live_key is_key_of
  destroy-of i [] found state its = cc
  destroy-of i (r ∷ rows) {row} found state its =
      elim (Bool-cases (is_live_key owner_table owner_id purpose r)) [
        | inl live ↦ rw live (ground (arith, destroy-of i rows {row = row}))
        | inr dead ↦ rw dead (ground (arith, destroy-of i rows {row = row}))
      ]

  destroy-other :
      (ring : Ring) (i : ℕ) (rows : List KeyRow) {row : KeyRow}
      → find_row i rows ≡ some row
      → is_key_of row ≡ false
      → load aead ring i (destroy now owner_table owner_id purpose rows).0 ≡ load aead ring i rows
  unfolding load destroy is_live_key is_key_of
  destroy-other ring i [] found other = cc
  destroy-other ring i (r ∷ rows) {row} found other =
      elim (Bool-cases (is_live_key owner_table owner_id purpose r)) [
        | inl live ↦ rw live (ground (arith, destroy-other ring i rows {row = row}))
        | inr dead ↦ rw dead (ground (arith, destroy-other ring i rows {row = row}))
      ]

  -- Destroying the keys of an owner and a purpose makes a key of that owner and purpose unreadable
  -- for good, when its row satisfies the state check of the table: after any later creations,
  -- destructions and rotations, under any key ring, reading it fails because it was destroyed. A key
  -- of another owner table, owner or purpose reads right after the call as before it.
  pub load-destroy :
      (ring : Ring) (key_id : ℕ) (rows later : List KeyRow) {row : KeyRow}
      → find_row key_id rows ≡ some row
      → is_key_state row.wrapped row.destroyed_at ≡ true
      → Later aead (destroy now owner_table owner_id purpose rows).0 later
      → (IsKeyOf owner_table owner_id purpose row
          × (load aead ring key_id later ≡ err key_destroyed))
        ⊎ ((¬ IsKeyOf owner_table owner_id purpose row)
            × (load aead ring key_id (destroy now owner_table owner_id purpose rows).0
                ≡ load aead ring key_id rows))
  load-destroy ring key_id rows later {row} found state steps = elim (Bool-cases (is_key_of row)) [
    | inl its ↦ inl (
      (is_key_of_iff row).0 its,
      load-is_gone aead ring key_id later
          (Later-is_gone aead key_id steps (destroy-of key_id rows found state its)),
    )
    | inr other ↦ inr (
      λ same. absurd (ground (arith, (is_key_of_iff row).1 same)),
      destroy-other ring key_id rows found other,
    )
  ]
