-- ===== src/Handle/Backoff.antt =====
-- Guessing the passphrase of a handle: `authenticate`
-- (services/platform/src/shaidago/reports/handle_store.py) and the backoff of
-- services/platform/migrations/versions/0012_reporter_handles.py.
use shaidago.Base.{
  some-injective, ℕ, suc, ◌+◌, ◌*◌, ◌≤◌, ◌<◌, ◌≡◌, ◌≢◌, inl, inr, refl, sym, ap, subst, ◌∙◌, true,
  false, List, [], ◌∷◌, All, Option, none, some, ltb, ◌==◌, ==_refl, if◌then◌else◌, Text, arith,
  Bool-cases,
}
use shaidago.Handle.{
  HandleRow, Attempt, Verifier, hour, second, delay, is_hour_old, is_later, canonical_or_empty,
  accepted, judged, reporter_handle_get, failed, succeeded, reporter_handle_record_failure,
  reporter_handle_record_success, normalise_handle, authenticate,
}
use shaidago.Handle.Rows.{
  IsKeyed, IsKeyed-update, delay-more, delay-most, get-apart, get-update_handle, on_row,
}

-- A row that stays in backoff until a time, whatever fails from some time on.
record IsClosed (from until : ℕ) (r : HandleRow) : Type 0 where
  t : ℕ
  failed_at : r.last_failure_at ≡ some t
  recent : from ≤ t
  b : ℕ
  closed : r.backoff_until ≡ some b
  open_after : until ≤ b
  many : 4 ≤ r.failure_count
  short : until ≤ from + delay r.failure_count * second

is_hour_old-recent :
    (o : Option ℕ) (t from now : ℕ)
    → o ≡ some t
    → from ≤ t
    → now < from + 900 * second
    → is_hour_old now o ≡ false
is_hour_old-recent none t from now h recent near = absurd (ground arith)
is_hour_old-recent (some u) t from now h recent near = ground arith

failed-IsClosed :
    (from until now : ℕ) (r : HandleRow)
    → IsClosed from until r
    → from ≤ now
    → now < until
    → IsClosed from until (failed now r)
unfolding failed
failed-IsClosed from until now r c after before =
    let most = delay-most r.failure_count in
    let short = c.short in
    let near : now < from + 900 * second = omega arith in
    let again = is_hour_old-recent r.last_failure_at c.t from now c.failed_at c.recent near in
    let longer = delay-more r.failure_count in
    let many = c.many in
    let over : ltb 3 (suc r.failure_count) ≡ true = ground arith in
    record {
      t = now;
      failed_at = refl;
      recent = after;
      b = now + delay (suc r.failure_count) * second;
      closed = rw (again, over) refl;
      open_after = omega arith;
      many = rw again (omega arith);
      short = rw again (omega arith);
    }

module _ (verifier : Verifier) (h : Text) where
  -- A handle that is in backoff.
  record Closed (from until : ℕ) (rows : List HandleRow) : Type 0 where
    row : HandleRow
    found : reporter_handle_get h rows ≡ some row
    is_closed : IsClosed from until row
    keyed : IsKeyed rows

  abbrev handle_of : Attempt → Option Text
  handle_of a = normalise_handle verifier.other_upper verifier.other_lower a.handle

  closed-accepted :
      (a : Attempt) (canonical : Option Text) (from until : ℕ) (r : HandleRow)
      → IsClosed from until r
      → a.now < until
      → accepted verifier a canonical r ≡ false
  closed-accepted a canonical from until r c before =
      let open_after = c.open_after in
      let later : is_later r.backoff_until a.now ≡ true = rw c.closed (ground arith) in
      rw later (ground arith)

  on_row-failed :
      (from until i now : ℕ) (r : HandleRow)
      → IsClosed from until r
      → from ≤ now
      → now < until
      → IsClosed from until (if r.id == i then failed now r else r)
  on_row-failed from until i now r c after before = elim (Bool-cases (r.id == i)) [
    | inl its ↦ rw its (failed-IsClosed from until now r c after before)
    | inr other ↦ rw other c
  ]

  Closed-failure :
      (from until i now : ℕ) (rows : List HandleRow)
      → Closed from until rows
      → from ≤ now
      → now < until
      → Closed from until (reporter_handle_record_failure i now rows)
  unfolding reporter_handle_record_failure failed
  Closed-failure from until i now rows c after before = record {
    row = if c.row.id == i then failed now c.row else c.row;
    found =
        get-update_handle h i (failed now) (λ r. refl) rows ∙ ap (on_row i (failed now)) c.found;
    is_closed = on_row-failed from until i now c.row c.is_closed after before;
    keyed = IsKeyed-update i (failed now) (λ r. refl) rows c.keyed;
  }

  Closed-success :
      (from until i today : ℕ) (rows : List HandleRow)
      → (c : Closed from until rows) → i ≢ c.row.id
      → Closed from until (reporter_handle_record_success i today rows)
  unfolding reporter_handle_record_success succeeded
  Closed-success from until i today rows c other =
      let no_id : (c.row.id == i) ≡ false = ground arith in
      record {
        row = c.row;
        found =
            get-update_handle h i (succeeded today) (λ r. refl) rows
            ∙ ap (on_row i (succeeded today)) c.found
            ∙ rw no_id refl;
        is_closed = c.is_closed;
        keyed = IsKeyed-update i (succeeded today) (λ r. refl) rows c.keyed;
      }

  -- While a handle is closed, an attempt on it is refused, and any attempt leaves it closed.
  judged-Closed :
      (a : Attempt) (canonical : Option Text) (from until : ℕ) (rows : List HandleRow)
      → Closed from until rows
      → from ≤ a.now
      → a.now < until
      → (o : Option HandleRow) → reporter_handle_get (canonical_or_empty canonical) rows ≡ o
      → (canonical ≡ some h → (judged verifier a canonical o rows).0 ≡ none)
        × Closed from until (judged verifier a canonical o rows).1
  judged-Closed a canonical from until rows c after before none found =
      (λ e. refl, Closed-failure from until a.fresh_id a.now rows c after before)
  judged-Closed a canonical from until rows c after before (some r) found =
      elim (Bool-cases (accepted verifier a canonical r)) [
        | inr refused ↦
            rw refused (λ e. refl, Closed-failure from until r.id a.now rows c after before)
        | inl let_in ↦
            let apart : canonical_or_empty canonical ≢ h = λ same.
              let it : r ≡ c.row =
                some-injective (sym found ∙ ap (λ k. reporter_handle_get k rows) same ∙ c.found) in
              let no_entry =
                closed-accepted a canonical from until r
                  (subst (IsClosed from until) (sym it) c.is_closed) before in
              absurd (ground arith) in
            rw let_in (
              λ e. absurd (apart (ap canonical_or_empty e)),
              Closed-success from until r.id a.today rows c (
                  get-apart h (canonical_or_empty canonical) rows c.keyed (λ e. apart (sym e))
                    c.found found),
            )
      ]

  authenticate-Closed :
      (a : Attempt) (from until : ℕ) (rows : List HandleRow)
      → Closed from until rows
      → from ≤ a.now
      → a.now < until
      → (handle_of a ≡ some h → (authenticate verifier a rows).0 ≡ none)
        × Closed from until (authenticate verifier a rows).1
  unfolding authenticate
  authenticate-Closed a from until rows c after before =
      judged-Closed a (handle_of a) from until rows c after before
        (reporter_handle_get (canonical_or_empty (handle_of a)) rows) refl

  -- Attempts one after another: those on the handle are refused.
  abbrev pub AreRefused : List Attempt → List HandleRow → Type 0
  AreRefused [] rows = Unit
  AreRefused (a ∷ attempts) rows =
      (handle_of a ≡ some h → (authenticate verifier a rows).0 ≡ none)
      × AreRefused attempts (authenticate verifier a rows).1

  Closed-AreRefused :
      (from until : ℕ) (attempts : List Attempt) (rows : List HandleRow)
      → Closed from until rows
      → All (λ a. (from ≤ a.now) × (a.now < until)) attempts
      → AreRefused attempts rows
  Closed-AreRefused from until [] rows c within = tt
  Closed-AreRefused from until (a ∷ attempts) rows c ((after, before), within) =
      let (refused, still) = authenticate-Closed a from until rows c after before in
      (refused, Closed-AreRefused from until attempts (authenticate verifier a rows).1 still within)

  refused-failure :
      (a : Attempt) (rows : List HandleRow) (r : HandleRow)
      → handle_of a ≡ some h
      → reporter_handle_get h rows ≡ some r
      → (authenticate verifier a rows).0 ≡ none
      → (authenticate verifier a rows).1 ≡ reporter_handle_record_failure r.id a.now rows
  unfolding authenticate
  refused-failure a rows r its found refused =
      let step : authenticate verifier a rows ≡ judged verifier a (some h) (some r) rows =
        ap (λ c. judged verifier a c (reporter_handle_get (canonical_or_empty c) rows) rows) its
        ∙ ap (λ o. judged verifier a (some h) o rows) found in
      elim (Bool-cases (accepted verifier a (some h) r)) [
        | inl let_in ↦
            let told : (judged verifier a (some h) (some r) rows).0 ≡ some r.id = rw let_in refl in
            let some_none = sym told ∙ ap (λ p. p.0) (sym step) ∙ refused in absurd (ground arith)
        | inr not_in ↦ ap (λ p. p.1) step ∙ rw not_in refl
      ]

  failed-closes :
      (now : ℕ) (r : HandleRow)
      → 3 ≤ r.failure_count
      → is_hour_old now r.last_failure_at ≡ false
      → IsClosed now (now + delay (suc r.failure_count) * second) (failed now r)
  unfolding failed
  failed-closes now r many again =
      let over : ltb 3 (suc r.failure_count) ≡ true = ground arith in
      record {
        t = now;
        failed_at = refl;
        recent = omega arith;
        b = now + delay (suc r.failure_count) * second;
        closed = rw (again, over) refl;
        open_after = omega arith;
        many = rw again (omega arith);
        short = rw again (omega arith);
      }

  failure-Closed :
      (now : ℕ) {until : ℕ} (rows : List HandleRow) (r : HandleRow)
      → IsKeyed rows
      → reporter_handle_get h rows ≡ some r
      → IsClosed now until (failed now r)
      → Closed now until (reporter_handle_record_failure r.id now rows)
  unfolding reporter_handle_record_failure failed
  failure-Closed now rows r keyed found c = record {
    row = failed now r;
    found =
        get-update_handle h r.id (failed now) (λ r. refl) rows
        ∙ ap (on_row r.id (failed now)) found
        ∙ rw (==_refl r.id) refl;
    is_closed = c;
    keyed = IsKeyed-update r.id (failed now) (λ r. refl) rows keyed;
  }

  -- Once an attempt on a handle was refused after three failures or more, the last of them at
  -- most an hour before, the handle is closed for the seconds of the backoff: whatever is tried in
  -- that time, on this handle or on others, every attempt on it is refused, with the right
  -- passphrase too. Identifiers of rows are distinct.
  pub authenticate-closes :
      (a : Attempt) (attempts : List Attempt) (rows : List HandleRow) {r : HandleRow} {t : ℕ}
      → IsKeyed rows
      → handle_of a ≡ some h
      → reporter_handle_get h rows ≡ some r
      → 3 ≤ r.failure_count
      → r.last_failure_at ≡ some t
      → a.now ≤ t + hour
      → (authenticate verifier a rows).0 ≡ none
      → All (λ b. (a.now ≤ b.now) × (b.now < a.now + delay (suc r.failure_count) * second)) attempts
      → AreRefused attempts (authenticate verifier a rows).1
  authenticate-closes a attempts rows {r} {t} keyed its found many failed_at recent refused within =
      let not_old : is_hour_old a.now r.last_failure_at ≡ false = rw failed_at (ground arith) in
      Closed-AreRefused a.now (a.now + delay (suc r.failure_count) * second) attempts
        (authenticate verifier a rows).1
        (subst (Closed a.now (a.now + delay (suc r.failure_count) * second))
          (sym (refused-failure a rows r its found refused))
          (failure-Closed a.now rows r keyed found (failed-closes a.now r many not_old)))
        within
