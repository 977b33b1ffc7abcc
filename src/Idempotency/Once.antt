-- ===== src/Idempotency/Once.antt =====
-- A key is claimed once in the time that its record is kept, whatever else happens to the table.
use shaidago.Base.{
  ◌∙◌, subst, ℕ, zero, suc, ◌≤◌, ◌<◌, ◌≡◌, refl, ◌≢◌, true, false, ◌&&◌, List, [], ◌∷◌, none, some,
  arith, leb, Text, same_text_iff, map, Bool-cases, Option-cases, inl, inr, is_some,
}
use shaidago.Crypto.{Bytes}
use shaidago.Idempotency.{
  Row, Claim, claimed, is_for, find_record, claimed_row, renew, update_where, claim, is_open,
  finish, complete_record, scrub, remove, purge,
}
use shaidago.Idempotency.Laws.{
  find_record-map, find_record-claim, live_outcome-claimed, renew-is_for, finish-is_for,
  find_record-is_for,
}

-- One call of the store, by anyone, at a time before the limit.
pub data Step (limit : ℕ) : List Row → List Row → Type 0 where
  claims : {rows : List Row} (c : Claim) → c.now < limit → Step limit rows (claim c rows).1
  completes :
      {rows rows' : List Row} (operation : Text) (key_hash : Bytes) (status : ℕ) (sealed : Bytes)
      → complete_record operation key_hash status sealed rows ≡ some rows'
      → Step limit rows rows'
  purges :
      {rows : List Row} (now batch : ℕ) → now < limit → Step limit rows (purge now batch rows).0

pub data Steps (limit : ℕ) : List Row → List Row → Type 0 where
  stays : {rows : List Row} → Steps limit rows rows
  goes :
      {rows middle rows' : List Row}
      → Step limit rows middle
      → Steps limit middle rows'
      → Steps limit rows rows'

-- The table has a record for the key that is kept until the limit at least.
abbrev Kept : ℕ → Text → Bytes → List Row → Type 0
Kept limit operation key_hash rows =
    (r : Row) × (find_record operation key_hash rows ≡ some r) × (limit ≤ r.expires_at)

module _ (limit : ℕ) (operation : Text) (key_hash : Bytes) where
  -- An update that keeps whom a record is for and when it expires keeps it kept.
  Kept-map :
      (g : Row → Row) (rows : List Row)
      → ((r : Row) → is_for operation key_hash (g r) ≡ is_for operation key_hash r)
      → ((r : Row) → is_for operation key_hash r ≡ true → (g r).expires_at ≡ r.expires_at)
      → Kept limit operation key_hash rows
      → Kept limit operation key_hash (map g rows)
  Kept-map g rows keeps expires (r, found, late) = (
    g r,
    rw (find_record-map operation key_hash g rows keeps, found) refl,
    rw (expires r (find_record-is_for operation key_hash rows found)) late,
  )

  finish-expires :
      (o : Text) (k : Bytes) (status : ℕ) (sealed : Bytes) (r : Row)
      → (update_where (is_open o k) (finish status sealed) r).expires_at ≡ r.expires_at
  finish-expires o k status sealed r = ground arith

  Kept-complete :
      (o : Text) (k : Bytes) (status : ℕ) (sealed : Bytes) (rows : List Row) {rows' : List Row}
      → complete_record o k status sealed rows ≡ some rows'
      → Kept limit operation key_hash rows
      → Kept limit operation key_hash rows'
  unfolding complete_record
  Kept-complete o k status sealed rows {rows'} h kept =
      let done : map (update_where (is_open o k) (finish status sealed)) rows ≡ rows' =
        ground arith in
      subst (Kept limit operation key_hash) done (
        Kept-map (update_where (is_open o k) (finish status sealed)) rows
          (finish-is_for o k status sealed operation key_hash)
          (λ r _. finish-expires o k status sealed r) kept)

  Kept-here :
      (r : Row) (rs : List Row)
      → is_for operation key_hash r ≡ true
      → limit ≤ r.expires_at
      → Kept limit operation key_hash (r ∷ rs)
  unfolding find_record
  Kept-here r rs here late = (r, rw here refl, late)

  Kept-there :
      (r : Row) (rs : List Row)
      → is_for operation key_hash r ≡ false
      → Kept limit operation key_hash rs
      → Kept limit operation key_hash (r ∷ rs)
  unfolding find_record
  Kept-there r rs other (x, found, late) = (x, rw (other, found) refl, late)

  Kept-tail :
      (r : Row) (rs : List Row)
      → is_for operation key_hash r ≡ false
      → Kept limit operation key_hash (r ∷ rs)
      → Kept limit operation key_hash rs
  unfolding find_record
  Kept-tail r rs other (x, found, late) = (x, rw other at found, late)

  Kept-head :
      (r : Row) (rs : List Row)
      → is_for operation key_hash r ≡ true
      → Kept limit operation key_hash (r ∷ rs)
      → limit ≤ r.expires_at
  unfolding find_record
  Kept-head r rs here (x, found, late) =
      let same : some r ≡ some x = rw here at found in
      let expiry : r.expires_at ≡ x.expires_at = ground arith in omega (arith, late, expiry)

  Kept-scrub :
      (batch now : ℕ) (rows : List Row)
      → Kept limit operation key_hash rows
      → Kept limit operation key_hash (scrub batch now rows).0
  unfolding scrub
  Kept-scrub zero now rows kept = kept
  Kept-scrub (suc n) now [] kept = kept
  Kept-scrub (suc n) now (r ∷ rs) kept = elim (Bool-cases (is_for operation key_hash r)) [
    | inl here ↦ elim (Bool-cases (leb r.sealed_until now && is_some r.sealed_response)) [
      | inl over ↦ rw over (
          Kept-here (record r { sealed_response = none }) (scrub n now rs).0 here
            (Kept-head r rs here kept))
      | inr open_ ↦ rw open_ (Kept-here r (scrub (suc n) now rs).0 here (Kept-head r rs here kept))
    ]
    | inr other ↦ elim (Bool-cases (leb r.sealed_until now && is_some r.sealed_response)) [
      | inl over ↦ rw over (
          Kept-there (record r { sealed_response = none }) (scrub n now rs).0 other
            (Kept-scrub n now rs (Kept-tail r rs other kept)))
      | inr open_ ↦ rw open_ (
          Kept-there r (scrub (suc n) now rs).0 other
            (Kept-scrub (suc n) now rs (Kept-tail r rs other kept)))
    ]
  ]

  Kept-remove :
      (batch now : ℕ) (rows : List Row)
      → now < limit
      → Kept limit operation key_hash rows
      → Kept limit operation key_hash (remove batch now rows).0
  unfolding remove
  Kept-remove zero now rows early kept = kept
  Kept-remove (suc n) now [] early kept = kept
  Kept-remove (suc n) now (r ∷ rs) early kept = elim (Bool-cases (is_for operation key_hash r)) [
    | inl here ↦
        let late : leb r.expires_at now ≡ false = ground (arith, Kept-head r rs here kept) in
        rw late (Kept-here r (remove (suc n) now rs).0 here (Kept-head r rs here kept))
    | inr other ↦ elim (Bool-cases (leb r.expires_at now)) [
      | inl over ↦ rw over (Kept-remove n now rs early (Kept-tail r rs other kept))
      | inr live ↦ rw live (
          Kept-there r (remove (suc n) now rs).0 other
            (Kept-remove (suc n) now rs early (Kept-tail r rs other kept)))
    ]
  ]

  same_key :
      (c : Claim) (r : Row)
      → is_for operation key_hash r ≡ true
      → is_for c.operation c.key_hash r ≡ true
      → is_for operation key_hash (claimed_row c) ≡ true
  same_key c r h h2 =
      let o = (same_text_iff r.operation operation).0 (ground (arith, h)) in
      let k = (same_text_iff r.key_hash key_hash).0 (ground (arith, h)) in
      let o2 = (same_text_iff r.operation c.operation).0 (ground (arith, h2)) in
      let k2 = (same_text_iff r.key_hash c.key_hash).0 (ground (arith, h2)) in rw (← o2, ← k2) h

  renew-expires :
      (c : Claim)
      → is_for operation key_hash (claimed_row c) ≡ false
      → (r : Row) → is_for operation key_hash r ≡ true
      → (update_where (is_for c.operation c.key_hash) (renew c) r).expires_at ≡ r.expires_at
  renew-expires c other r h = elim (Bool-cases (is_for c.operation c.key_hash r)) [
    | inl both ↦ absurd (ground (arith, same_key c r h both, other))
    | inr apart ↦ rw apart refl
  ]

  Kept-find :
      (c : Claim) (rows : List Row)
      → is_for operation key_hash (claimed_row c) ≡ true
      → find_record c.operation c.key_hash rows ≡ find_record operation key_hash rows
  Kept-find c rows h =
      let o = (same_text_iff c.operation operation).0 (ground (arith, h)) in
      let k = (same_text_iff c.key_hash key_hash).0 (ground (arith, h)) in rw (o, k) refl

  -- A claim on a kept key fails before the limit, and leaves it kept.
  claim-Kept :
      (c : Claim) (rows : List Row)
      → c.now < limit
      → Kept limit operation key_hash rows
      → Kept limit operation key_hash (claim c rows).1
  unfolding claim
  claim-Kept c rows early kept = elim (Bool-cases (is_for operation key_hash (claimed_row c))) [
    | inl same ↦
        let found : find_record c.operation c.key_hash rows ≡ some kept.0 =
          Kept-find c rows same ∙ kept.1 in
        let live : leb kept.0.expires_at c.now ≡ false = ground (arith, kept.2) in
        rw (found, live) kept
    | inr other ↦ elim (Option-cases (find_record c.operation c.key_hash rows)) [
      | inl new ↦ rw new (Kept-there (claimed_row c) rows other kept)
      | inr (r, found) ↦ elim (Bool-cases (leb r.expires_at c.now)) [
        | inr live ↦ rw (found, live) kept
        | inl expired ↦
            rw (found, expired)
              (Kept-map (update_where (is_for c.operation c.key_hash) (renew c)) rows
                (renew-is_for c operation key_hash) (renew-expires c other) kept)
      ]
    ]
  ]

  pub Kept-claimed :
      (c : Claim) (rows : List Row)
      → c.operation ≡ operation
      → c.key_hash ≡ key_hash
      → c.now < limit
      → Kept limit operation key_hash rows
      → (claim c rows).0 ≢ claimed
  unfolding claim
  Kept-claimed c rows same same_hash early (r, found, late) h =
      let here : find_record c.operation c.key_hash rows ≡ some r = rw (same, same_hash) found in
      let live : leb r.expires_at c.now ≡ false = ground arith in
      live_outcome-claimed c r (rw (here, live) at h)

  Kept-Step :
      {rows rows' : List Row}
      → Step limit rows rows'
      → Kept limit operation key_hash rows
      → Kept limit operation key_hash rows'
  unfolding purge
  Kept-Step {rows} (claims c early) kept = claim-Kept c rows early kept
  Kept-Step {rows} (completes o k status sealed done) kept =
      Kept-complete o k status sealed rows done kept
  Kept-Step {rows} (purges now batch early) kept =
      Kept-remove batch now (scrub batch now rows).0 early (Kept-scrub batch now rows kept)

  pub Kept-Steps :
      {rows rows' : List Row}
      → Steps limit rows rows'
      → Kept limit operation key_hash rows
      → Kept limit operation key_hash rows'
  Kept-Steps stays kept = kept
  Kept-Steps (goes s ss) kept = Kept-Steps ss (Kept-Step s kept)

-- Once a claim succeeds, no claim of the same operation and key succeeds before the record expires,
-- whatever claims, completions and purges happen in between.
pub claim-once :
    (c c2 : Claim) (rows rows2 : List Row) {rows1 : List Row}
    → claim c rows ≡ (claimed, rows1)
    → Steps c.expires_at rows1 rows2
    → c2.operation ≡ c.operation
    → c2.key_hash ≡ c.key_hash
    → c2.now < c.expires_at
    → (claim c2 rows2).0 ≢ claimed
claim-once c c2 rows rows2 h steps same same_hash early =
    Kept-claimed c.expires_at c.operation c.key_hash c2 rows2 same same_hash early (
      Kept-Steps c.expires_at c.operation c.key_hash steps
        (claimed_row c, find_record-claim c rows h, omega arith))
