-- ===== src/Idempotency/Laws.antt =====
-- Looking a record up after an update, and what a second request with the same key is told.
use shaidago.Base.{
  ◌∙◌, ◌≢◌, ap, subst, ℕ, suc, ◌+◌, ◌<◌, ◌≡◌, refl, true, false, not, List, [], ◌∷◌, ◌++◌, Option,
  some, Result, ok, err, arith, length, length-append, take-append_left, drop-append_left, leb, ltb,
  if◌then◌else◌, Text, same_text, same_text_refl, same_text_iff, map, Bool-cases, Option-cases, inl,
  inr,
}
use mathlib.Core.Option
use shaidago.Crypto.{Bytes, Aead, encode}
use shaidago.Problems.{already_received, idempotency_conflict}
use shaidago.Idempotency.{
  Row, Claim, in_progress, ClaimOutcome, claimed, replay, is_for, find_record, claimed_row, renew,
  update_where, claim, claim_on, live_outcome, is_open, finish, has_open_record, complete_record,
  seal, unseal, begin, begun, replayed_or_fail, complete, claim_of, Begun, BeginError, first_time,
  replayed, problem, sealed_window, retention,
}

-- An update that keeps whom a record is for commutes with looking it up.
pub find_record-map :
    (operation : Text) (key_hash : Bytes) (g : Row → Row) (rows : List Row)
    → ((r : Row) → is_for operation key_hash (g r) ≡ is_for operation key_hash r)
    → find_record operation key_hash (map g rows)
      ≡ Option.map g (find_record operation key_hash rows)
unfolding find_record
find_record-map operation key_hash g [] keeps = refl
find_record-map operation key_hash g (r ∷ rs) keeps =
    elim (Bool-cases (is_for operation key_hash r)) [
      | inl here ↦ rw (keeps r, here) refl
      | inr other ↦ rw (keeps r, other) (find_record-map operation key_hash g rs keeps)
    ]

pub find_record-is_for :
    (operation : Text) (key_hash : Bytes) (rows : List Row) {r : Row}
    → find_record operation key_hash rows ≡ some r
    → is_for operation key_hash r ≡ true
unfolding find_record
find_record-is_for operation key_hash [] h = cc
find_record-is_for operation key_hash (x ∷ rs) {r} h =
    elim (Bool-cases (is_for operation key_hash x)) [
      | inl here ↦
          let same : some x ≡ some r = rw here at h in
          let row : x ≡ r = ground (arith, same) in
          subst (λ y. is_for operation key_hash y ≡ true) row here
      | inr other ↦ find_record-is_for operation key_hash rs {r = r} (rw other at h)
    ]

is_for_self : (c : Claim) → is_for c.operation c.key_hash (claimed_row c) ≡ true
is_for_self c = rw (same_text_refl c.operation, same_text_refl c.key_hash) refl

renewed :
    (c : Claim) (r : Row)
    → is_for c.operation c.key_hash r ≡ true
    → update_where (is_for c.operation c.key_hash) (renew c) r ≡ claimed_row c
renewed c r h =
    let operation : r.operation ≡ c.operation =
      (same_text_iff r.operation c.operation).0 (ground (arith, h)) in
    let key_hash : r.key_hash ≡ c.key_hash =
      (same_text_iff r.key_hash c.key_hash).0 (ground (arith, h)) in
    rw h (simp (operation, key_hash) refl)

pub renew-is_for :
    (c : Claim) (operation : Text) (key_hash : Bytes) (r : Row)
    → is_for operation key_hash (update_where (is_for c.operation c.key_hash) (renew c) r)
      ≡ is_for operation key_hash r
renew-is_for c operation key_hash r = elim (Bool-cases (is_for c.operation c.key_hash r)) [
  | inl here ↦ rw here refl
  | inr other ↦ rw other refl
]

-- A claim on a record that has not expired never succeeds.
pub live_outcome-claimed : (c : Claim) (r : Row) → live_outcome c r ≢ claimed
live_outcome-claimed c r h = ground arith

-- After a claim that succeeds, the record for its key is that of the claim.
pub find_record-claim :
    (c : Claim) (rows : List Row) {rows' : List Row}
    → claim c rows ≡ (claimed, rows')
    → find_record c.operation c.key_hash rows' ≡ some (claimed_row c)
unfolding claim find_record
find_record-claim c rows {rows'} h = elim (Option-cases (find_record c.operation c.key_hash rows)) [
  | inl new ↦
      let left : claimed_row c ∷ rows ≡ rows' = ap (λ p. p.1) (rw new at h) in
      rw (← left, is_for_self c) refl
  | inr (r, found) ↦ elim (Bool-cases (leb r.expires_at c.now)) [
    | inl expired ↦
        let left : map (update_where (is_for c.operation c.key_hash) (renew c)) rows ≡ rows' =
          ap (λ p. p.1) (rw (found, expired) at h) in
        rw
          (
            ← left,
            find_record-map c.operation c.key_hash
                (update_where (is_for c.operation c.key_hash) (renew c)) rows
                (renew-is_for c c.operation c.key_hash),
            found,
          )
          (ap some (renewed c r (find_record-is_for c.operation c.key_hash rows found)))
    | inr live ↦ absurd (live_outcome-claimed c r (ap (λ p. p.0) (rw (found, live) at h)))
  ]
]

seal_back :
    (aead : Aead) (derive : Text → Text → Bytes) (nonce : Bytes) (key : Text) (payload : Bytes)
    (context : Text)
    → length nonce ≡ 12
    → unseal aead derive key (seal aead derive nonce key payload context) context ≡ some payload
unfolding seal unseal
seal_back aead derive nonce key payload context h =
    let sealed = aead.seal (derive key context) nonce payload (encode context) in
    let long : ltb (suc (length (nonce ++ sealed))) 29 ≡ false = ground (
      arith,
      length-append nonce sealed,
      aead.length-seal (derive key context) nonce payload (encode context),
    ) in
    rw (
      long,
      take-append_left 12 nonce sealed h,
      drop-append_left 12 nonce sealed h,
      aead.unseal-seal (derive key context) nonce payload (encode context),
    )

pub finish-is_for :
    (operation : Text) (key_hash : Bytes) (status : ℕ) (sealed : Bytes) (o : Text) (k : Bytes)
    (r : Row)
    → is_for o k (update_where (is_open operation key_hash) (finish status sealed) r) ≡ is_for o k r
finish-is_for operation key_hash status sealed o k r =
    elim (Bool-cases (is_open operation key_hash r)) [
      | inl here ↦ rw here refl
      | inr other ↦ rw other refl
    ]

has_open_record-find :
    (operation : Text) (key_hash : Bytes) (rows : List Row) {r : Row}
    → find_record operation key_hash rows ≡ some r
    → r.state ≡ in_progress
    → has_open_record operation key_hash rows ≡ true
unfolding find_record has_open_record
has_open_record-find operation key_hash [] h e = cc
has_open_record-find operation key_hash (x ∷ rs) {r} h e =
    elim (Bool-cases (is_for operation key_hash x)) [
      | inl here ↦
          let same : some x ≡ some r = rw here at h in
          let state : x.state ≡ r.state = ground (arith, same) in
          let open_ : x.state ≡ in_progress = state ∙ e in rw (here, open_) refl
      | inr other ↦
          ground (arith, has_open_record-find operation key_hash rs {r = r} (rw other at h) e)
    ]

-- Completing a claim leaves its record finished, with the answer.
pub complete_record-find :
    (operation : Text) (key_hash : Bytes) (status : ℕ) (sealed : Bytes) (rows : List Row) {r : Row}
    → find_record operation key_hash rows ≡ some r
    → r.state ≡ in_progress
    → (rows' : List Row) × (complete_record operation key_hash status sealed rows ≡ some rows')
      × (find_record operation key_hash rows' ≡ some (finish status sealed r))
unfolding complete_record
complete_record-find operation key_hash status sealed rows {r} found open_ =
    let done = map (update_where (is_open operation key_hash) (finish status sealed)) rows in
    let here : is_open operation key_hash r ≡ true =
      rw (find_record-is_for operation key_hash rows found, open_) refl in
    (
      done,
      rw (has_open_record-find operation key_hash rows found open_) refl,
      rw
          (
            find_record-map operation key_hash
                (update_where (is_open operation key_hash) (finish status sealed)) rows
                (finish-is_for operation key_hash status sealed operation key_hash),
            found,
            here,
          )
          refl,
    )

claim-found :
    (c : Claim) (rows : List Row) {r : Row}
    → find_record c.operation c.key_hash rows ≡ some r
    → claim c rows ≡ claim_on c rows (some r)
unfolding claim
claim-found c rows found = rw found refl

module _ (aead : Aead) (derive : Text → Text → Bytes) (hash_key : Text → Bytes) where
  begun-first :
      (operation key : Text) (o : ClaimOutcome)
      → begun aead derive operation key o ≡ ok first_time
      → o ≡ claimed
  begun-first operation key claimed h = refl
  begun-first operation key (replay status sealed) h =
      absurd (replayed-first status (unseal aead derive key sealed operation) h)
    where
      replayed-first :
          (status : Option ℕ) (o : Option Bytes)
          → replayed_or_fail aead derive status o ≢ ok first_time
      replayed-first status o h = ground arith
  begun-first operation key _ h = cc

  -- What a request with the same key is told once the first one is answered, by the time that has
  -- passed and by whether it is the same request.
  abbrev pub told : ℕ → ℕ → Bytes → Bytes → ℕ → Bytes → Result BeginError Begun
  told first now fingerprint fingerprint2 status payload =
      if leb (first + retention) now
      then ok first_time
      else if not (same_text fingerprint fingerprint2)
      then err (problem idempotency_conflict)
      else if ltb now (first + sealed_window)
      then ok (replayed status payload)
      else err (problem already_received)

  module _ (operation key : Text) (fingerprint : Bytes) (id now : ℕ) (nonce : Bytes) (status : ℕ)
      (payload : Bytes) (rows : List Row) where
    again :
        (rows2 : List Row) (fingerprint2 : Bytes) (id2 now2 : ℕ)
        → length nonce ≡ 12
        → find_record operation (hash_key key) rows2
          ≡ some (
              finish status
                (seal aead derive nonce key payload operation)
                (claimed_row (claim_of aead derive hash_key operation key fingerprint id now)))
        → ((begin aead derive hash_key operation key fingerprint2 id2 now2 rows2).0
            ≡ told now now2 fingerprint fingerprint2 status payload)
          × (now2 < now + retention
              → (begin aead derive hash_key operation key fingerprint2 id2 now2 rows2).1 ≡ rows2)
    unfolding begin
    again rows2 fingerprint2 id2 now2 n found =
        let met =
          claim-found (claim_of aead derive hash_key operation key fingerprint2 id2 now2) rows2
            found in
        elim (Bool-cases (leb (now + retention) now2)) [
          | inl expired ↦ rw (met, expired) (refl, λ early. absurd (ground arith))
          | inr live ↦ elim (Bool-cases (same_text fingerprint fingerprint2)) [
            | inr other ↦ rw (met, live, other) (refl, λ early. refl)
            | inl same ↦ elim (Bool-cases (ltb now2 (now + sealed_window))) [
              | inr late ↦ rw (met, live, same, late) (refl, λ early. refl)
              | inl soon ↦
                  rw (met, live, same, soon, seal_back aead derive nonce key payload operation n)
                    (refl, λ early. refl)
            ]
          ]
        ]

    -- A request that begins for the first time can be completed; from then on a request with its
    -- key is told the same answer for the sealed window, and later that it was received; a
    -- different request meets a conflict, and after the retention the key is new again. Only the
    -- last of these changes the table.
    pub begin-again :
        {rows1 : List Row}
        → begin aead derive hash_key operation key fingerprint id now rows ≡ (ok first_time, rows1)
        → length nonce ≡ 12
        → (rows2 : List Row) × (complete aead derive hash_key nonce operation key status payload
              rows1
            ≡ some rows2)
          × ((fingerprint2 : Bytes) (id2 now2 : ℕ)
              → ((begin aead derive hash_key operation key fingerprint2 id2 now2 rows2).0
                  ≡ told now now2 fingerprint fingerprint2 status payload)
                × (now2 < now + retention
                    → (begin aead derive hash_key operation key fingerprint2 id2 now2 rows2).1
                      ≡ rows2))
    unfolding begin complete
    begin-again {rows1} h n =
        let c = claim_of aead derive hash_key operation key fingerprint id now in
        let first : claim c rows ≡ (claimed, rows1) =
          cc (begun-first operation key (claim c rows).0 (ap (λ p. p.0) h), ap (λ p. p.1) h) in
        let (rows2, done, found) =
          complete_record-find operation c.key_hash status
            (seal aead derive nonce key payload operation) rows1 (find_record-claim c rows first)
            refl in
        (rows2, done, λ fingerprint2 id2 now2. again rows2 fingerprint2 id2 now2 n found)
