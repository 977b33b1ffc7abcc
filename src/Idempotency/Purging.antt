-- ===== src/Idempotency/Purging.antt =====
-- One record for each operation and key, and that a purge never shows in what a claim is told.
use shaidago.Base.{
  ◌∙◌, sym, ℕ, zero, suc, ◌≤◌, ◌≡◌, refl, true, false, ◌&&◌, List, [], ◌∷◌, Option, none, some,
  arith, leb, ltb, if◌then◌else◌, Text, same_text_iff, map, Bool-cases, Option-cases, inl, inr,
  is_some,
}
use shaidago.Crypto.{Bytes}
use shaidago.Idempotency.{
  Row, State, in_progress, completed, Claim, ClaimOutcome, claimed, is_for, find_record, renew,
  update_where, claim, is_open, finish, complete_record, scrub, remove, purge, live_outcome,
  finished_outcome,
}
use shaidago.Idempotency.Laws.{find_record-map}
use shaidago.Idempotency.Once.{Step, claims, completes, purges}

-- The unique constraint on the operation and the key's hash.
abbrev pub IsKeyed : List Row → Type 0
IsKeyed [] = Unit
IsKeyed (r ∷ rs) = (find_record r.operation r.key_hash rs ≡ none) × IsKeyed rs

scrub-none :
    (o : Text) (k : Bytes) (batch now : ℕ) (rows : List Row)
    → find_record o k rows ≡ none
    → find_record o k (scrub batch now rows).0 ≡ none
unfolding find_record scrub
scrub-none o k zero now rows h = h
scrub-none o k (suc n) now [] h = refl
scrub-none o k (suc n) now (r ∷ rs) h = elim (Bool-cases (is_for o k r)) [
  | inl here ↦ absurd (ground arith)
  | inr other ↦
      let rest : find_record o k rs ≡ none = rw other at h in
      elim (Bool-cases (leb r.sealed_until now && is_some r.sealed_response)) [
        | inl over ↦ rw (over, other) (scrub-none o k n now rs rest)
        | inr open_ ↦ rw (open_, other) (scrub-none o k (suc n) now rs rest)
      ]
]

remove-none :
    (o : Text) (k : Bytes) (batch now : ℕ) (rows : List Row)
    → find_record o k rows ≡ none
    → find_record o k (remove batch now rows).0 ≡ none
unfolding find_record remove
remove-none o k zero now rows h = h
remove-none o k (suc n) now [] h = refl
remove-none o k (suc n) now (r ∷ rs) h = elim (Bool-cases (is_for o k r)) [
  | inl here ↦ absurd (ground arith)
  | inr other ↦
      let rest : find_record o k rs ≡ none = rw other at h in
      elim (Bool-cases (leb r.expires_at now)) [
        | inl over ↦ rw over (remove-none o k n now rs rest)
        | inr live ↦ rw (live, other) (remove-none o k (suc n) now rs rest)
      ]
]

IsKeyed-scrub : (batch now : ℕ) (rows : List Row) → IsKeyed rows → IsKeyed (scrub batch now rows).0
unfolding scrub
IsKeyed-scrub zero now rows p = p
IsKeyed-scrub (suc n) now [] p = tt
IsKeyed-scrub (suc n) now (r ∷ rs) (p, ps) =
    elim (Bool-cases (leb r.sealed_until now && is_some r.sealed_response)) [
      | inl over ↦ rw over (scrub-none r.operation r.key_hash n now rs p, IsKeyed-scrub n now rs ps)
      | inr open_ ↦
          rw open_
            (scrub-none r.operation r.key_hash (suc n) now rs p, IsKeyed-scrub (suc n) now rs ps)
    ]

IsKeyed-remove :
    (batch now : ℕ) (rows : List Row) → IsKeyed rows → IsKeyed (remove batch now rows).0
unfolding remove
IsKeyed-remove zero now rows p = p
IsKeyed-remove (suc n) now [] p = tt
IsKeyed-remove (suc n) now (r ∷ rs) (p, ps) = elim (Bool-cases (leb r.expires_at now)) [
  | inl over ↦ rw over (IsKeyed-remove n now rs ps)
  | inr live ↦
      rw live
        (remove-none r.operation r.key_hash (suc n) now rs p, IsKeyed-remove (suc n) now rs ps)
]

-- An update that changes no record's operation or key.
IsKeyed-map :
    (g : Row → Row) (rows : List Row)
    → ((r : Row) → ((g r).operation ≡ r.operation) × ((g r).key_hash ≡ r.key_hash))
    → IsKeyed rows
    → IsKeyed (map g rows)
IsKeyed-map g [] same p = tt
IsKeyed-map g (r ∷ rs) same (p, ps) = (
  rw
      (
        (same r).0,
        (same r).1,
        find_record-map r.operation r.key_hash g rs (λ x. rw ((same x).0, (same x).1) refl),
        p,
      )
      refl,
  IsKeyed-map g rs same ps,
)

-- A table with one record for each operation and key keeps this by every call of the store.
pub Step-IsKeyed :
    {limit : ℕ} {rows rows' : List Row} → Step limit rows rows' → IsKeyed rows → IsKeyed rows'
unfolding claim complete_record purge
Step-IsKeyed {rows} (claims c early) p =
    elim (Option-cases (find_record c.operation c.key_hash rows)) [
      | inl new ↦ rw new (new, p)
      | inr (r, found) ↦ elim (Bool-cases (leb r.expires_at c.now)) [
        | inl expired ↦
            rw (found, expired)
              (IsKeyed-map (update_where (is_for c.operation c.key_hash) (renew c)) rows
                (λ x. (ground arith, ground arith)) p)
        | inr live ↦ rw (found, live) p
      ]
    ]
Step-IsKeyed {rows} {rows'} (completes o k status sealed done) p =
    let made : map (update_where (is_open o k) (finish status sealed)) rows ≡ rows' =
      ground (arith, done) in
    rw (← made) (
      IsKeyed-map (update_where (is_open o k) (finish status sealed)) rows
        (λ x. (ground arith, ground arith)) p)
Step-IsKeyed {rows} (purges now batch early) p =
    IsKeyed-remove batch now (scrub batch now rows).0 (IsKeyed-scrub batch now rows p)

-- What a claim is told depends on the record for its key alone.
abbrev outcome : Claim → Option Row → ClaimOutcome
outcome c none = claimed
outcome c (some r) = if leb r.expires_at c.now then claimed else live_outcome c r

claim-outcome :
    (c : Claim) (rows : List Row)
    → (claim c rows).0 ≡ outcome c (find_record c.operation c.key_hash rows)
unfolding claim
claim-outcome c rows = elim (Option-cases (find_record c.operation c.key_hash rows)) [
  | inl new ↦ rw new refl
  | inr (r, found) ↦ elim (Bool-cases (leb r.expires_at c.now)) [
    | inl expired ↦ rw (found, expired) refl
    | inr live ↦ rw (found, live) refl
  ]
]

finished-scrubbed :
    (now : ℕ) (r : Row) (s : State)
    → ltb now r.sealed_until ≡ false
    → finished_outcome now (record r { sealed_response = none }) s ≡ finished_outcome now r s
finished-scrubbed now r in_progress closed = refl
finished-scrubbed now r completed closed = rw closed refl

scrubbed-outcome :
    (c : Claim) (r : Row) (now : ℕ)
    → now ≤ c.now
    → (leb r.sealed_until now && is_some r.sealed_response) ≡ true
    → outcome c (some (record r { sealed_response = none })) ≡ outcome c (some r)
scrubbed-outcome c r now early over =
    let closed : ltb c.now r.sealed_until ≡ false = ground arith in
    rw (finished-scrubbed c.now r r.state closed) refl

scrub-outcome :
    (c : Claim) (batch now : ℕ) (rows : List Row)
    → now ≤ c.now
    → outcome c (find_record c.operation c.key_hash (scrub batch now rows).0)
      ≡ outcome c (find_record c.operation c.key_hash rows)
unfolding scrub find_record
scrub-outcome c zero now rows early = refl
scrub-outcome c (suc n) now [] early = refl
scrub-outcome c (suc n) now (r ∷ rs) early =
    elim (Bool-cases (leb r.sealed_until now && is_some r.sealed_response)) [
      | inl over ↦ elim (Bool-cases (is_for c.operation c.key_hash r)) [
        | inl here ↦ rw (over, here) (scrubbed-outcome c r now early over)
        | inr other ↦ rw (over, other) (scrub-outcome c n now rs early)
      ]
      | inr open_ ↦ elim (Bool-cases (is_for c.operation c.key_hash r)) [
        | inl here ↦ rw (open_, here) refl
        | inr other ↦ rw (open_, other) (scrub-outcome c (suc n) now rs early)
      ]
    ]

only_record :
    (c : Claim) (r : Row) (rs : List Row)
    → is_for c.operation c.key_hash r ≡ true
    → find_record r.operation r.key_hash rs ≡ none
    → find_record c.operation c.key_hash rs ≡ none
only_record c r rs here none_left =
    let o = (same_text_iff r.operation c.operation).0 (ground (arith, here)) in
    let k = (same_text_iff r.key_hash c.key_hash).0 (ground (arith, here)) in
    rw (← o, ← k) none_left

remove-outcome :
    (c : Claim) (batch now : ℕ) (rows : List Row)
    → now ≤ c.now
    → IsKeyed rows
    → outcome c (find_record c.operation c.key_hash (remove batch now rows).0)
      ≡ outcome c (find_record c.operation c.key_hash rows)
unfolding remove find_record
remove-outcome c zero now rows early p = refl
remove-outcome c (suc n) now [] early p = refl
remove-outcome c (suc n) now (r ∷ rs) early (p, ps) = elim (Bool-cases (leb r.expires_at now)) [
  | inl over ↦ elim (Bool-cases (is_for c.operation c.key_hash r)) [
    | inl here ↦
        let expired : leb r.expires_at c.now ≡ true = ground arith in
        rw
          (
            over,
            here,
            remove-none c.operation c.key_hash n now rs (only_record c r rs here p),
            expired,
          )
          refl
    | inr other ↦ rw (over, other) (remove-outcome c n now rs early ps)
  ]
  | inr live ↦ elim (Bool-cases (is_for c.operation c.key_hash r)) [
    | inl here ↦ rw (live, here) refl
    | inr other ↦ rw (live, other) (remove-outcome c (suc n) now rs early ps)
  ]
]

-- With one record for each operation and key, a purge of any batch never changes what a claim at the
-- same time or later is told.
pub claim-purge :
    (c : Claim) (batch now : ℕ) (rows : List Row)
    → now ≤ c.now
    → IsKeyed rows
    → (claim c (purge now batch rows).0).0 ≡ (claim c rows).0
unfolding purge
claim-purge c batch now rows early p =
    claim-outcome c (purge now batch rows).0
    ∙ remove-outcome c batch now (scrub batch now rows).0 early (IsKeyed-scrub batch now rows p)
    ∙ scrub-outcome c batch now rows early
    ∙ sym (claim-outcome c rows)
