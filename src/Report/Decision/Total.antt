-- ===== src/Report/Decision/Total.antt =====
-- A decision never fails but by a problem of the catalogue.
use Prim.Native.String.{String}
use shaidago.Base.{
  ◌∙◌, ◌==◌, ==_refl, ap, ◌≢◌, ◌⊎◌, ℕ, ◌≤◌, ◌≡◌, refl, Bool, true, false, List, [], ◌∷◌, Option,
  none, some, Result, ok, err, ◌>>=◌, guard, arith, Text, length, inl, inr, is_none, not, ◌&&◌, map,
  codes,
}
use shaidago.Crypto.{
  Aead, Ring, Bytes, encode, encrypt, find_kek, field_context, review_notes, KeyRow, has_key,
  is_owned, is_table_name,
}
use shaidago.Crypto.Laws.{length-encode, decrypt-encrypt, create-fresh, created, sealed_row}
use shaidago.Problems.{Problem, FieldError}
use shaidago.Report.Machine.{
  Status, reviewer, admin, Command, record_follow_up, request_information, start_review, close,
  resume_review, verify_for_public_update, refer, reopen, Actor, Transition, NotAllowed,
  find_transition, reason_required, ◌is_status◌,
}
use shaidago.Report.Machine.Laws.{find_transition_sound, find_transition-actor}
use shaidago.Report.Tables.{
  Db, Report, select_report, StatusEvent, insert_event, has_event, latest_event_at, set_status,
  project,
}
use shaidago.Report.Tables.Laws.{insert_event-staff, HasReason, select_report-set_self}
use shaidago.Report.Decision.{
  DecisionRequest, Reviewer, Draws, Failure, problem, clean, or_fail, allowed, decide, after,
  default_message, message_or_default, max_reason_chars, max_message_chars, seal_reason, Sealed,
  write_event, apply_transition, decision_event, event_table,
}
use shaidago.Report.Decision.Outcome.{or_fail-ok, allowed-ok}

-- A failure of the catalogue.
abbrev pub IsProblem {ℓ} : {A : Type ℓ} → Result Failure A → Type 0
IsProblem (ok a) = Unit
IsProblem (err (problem p fields)) = Unit
IsProblem (err _) = ⊥

bind-IsProblem {ℓ κ} :
    {A : Type ℓ} {B : Type κ} (m : Result Failure A) (f : A → Result Failure B)
    → IsProblem m
    → ((a : A) → m ≡ ok a → IsProblem (f a))
    → IsProblem (m >>= f)
bind-IsProblem (ok a) f p q = q a refl
bind-IsProblem (err (problem c fields)) f p q = tt
bind-IsProblem (err _) f p q = p

-- Totality: a step that is known to succeed.
then-IsProblem {ℓ κ} :
    {A : Type ℓ} {B : Type κ} (m : Result Failure A) (f : A → Result Failure B) (a : A)
    → m ≡ ok a
    → IsProblem (f a)
    → IsProblem (m >>= f)
then-IsProblem m f a e p = rw e p

default_message-fits :
    (c : Command)
    → c ≢ record_follow_up
    → (s : Text) × (default_message c ≡ some s) × (length s ≤ 500)
unfolding default_message
default_message-fits record_follow_up n = absurd (n refl)
default_message-fits request_information n = (_, refl, omega arith)
default_message-fits start_review n = (_, refl, omega arith)
default_message-fits close n = (_, refl, omega arith)
default_message-fits resume_review n = (_, refl, omega arith)
default_message-fits verify_for_public_update n = (_, refl, omega arith)
default_message-fits refer n = (_, refl, omega arith)
default_message-fits reopen n = (_, refl, omega arith)

-- A text that is cleaned has no more than the characters allowed.
pub clean-bounds :
    (v : Option Text) (field : String) (most : ℕ) {s : Text}
    → clean v field most ≡ ok (some s)
    → (5 ≤ length s) × (length s ≤ most)
unfolding clean
clean-bounds none field most h = cc
clean-bounds (some v) field most h = ground arith

clean-IsProblem : (v : Option Text) (field : String) (most : ℕ) → IsProblem (clean v field most)
unfolding clean
clean-IsProblem none field most = tt
clean-IsProblem (some v) field most = ground arith

-- What a decision shows the reporter always fits the table.
message_or_default-fits :
    (m : Option Text) (c : Command)
    → c ≢ record_follow_up
    → ((s : Text) → m ≡ some s → length s ≤ 300)
    → (s : Text) × (message_or_default m c ≡ ok s) × (length s ≤ 500)
message_or_default-fits none c n h = let (s, e, l) = default_message-fits c n in (s, rw e, l)
message_or_default-fits (some []) c n h = let (s, e, l) = default_message-fits c n in (s, rw e, l)
message_or_default-fits (some (x ∷ s)) c n h = (x ∷ s, refl, omega (arith, h (x ∷ s) refl))

module _ (aead : Aead) (ring : Ring) (draws : Draws) {kek : Bytes} where
  -- A reason of at most a thousand characters is sealed in a ciphertext that the table admits.
  seal_reason-fits :
      (m : Option Text) (rows : List KeyRow)
      → find_kek ring.active ring.keys ≡ some kek
      → length draws.key.nonce ≡ 12
      → length draws.nonce ≡ 12
      → has_key (some draws.key.id) rows ≡ false
      → is_owned event_table draws.event_id review_notes rows ≡ false
      → ((s : Text) → m ≡ some s → length s ≤ 1000)
      → (sealed : Sealed) × (seal_reason aead ring draws m rows ≡ ok sealed)
        × ((reviewer : Reviewer) (i now : ℕ) (p n : Status) (shown : Text)
            → HasReason (decision_event reviewer i draws p n now shown sealed))
        × (has_key sealed.key_id sealed.data_keys ≡ true)
  unfolding seal_reason has_key is_table_name
  seal_reason-fits none rows k n1 n2 new free h = (
    record { ciphertext = none; key_id = none; data_keys = rows },
    refl,
    λ reviewer i now p n shown. inl (refl, refl, refl),
    refl,
  )
  seal_reason-fits (some s) rows k n1 n2 new free h =
      let key = created draws.key in
      let row =
        sealed_row aead ring draws.key draws.key_now event_table draws.event_id review_notes kek in
      let made =
        create-fresh aead ring draws.key draws.key_now event_table draws.event_id review_notes rows
          kek k n1 refl new free in
      let place = field_context event_table draws.event_id (codes "reason") 1 in
      let long = (decrypt-encrypt aead draws.nonce key (encode s) place n2).1 in
      let fits : length (encrypt aead draws.nonce key (encode s) place) ≤ 16384 =
        omega (arith, long, length-encode s, h s refl) in
      let least : 29 ≤ length (encrypt aead draws.nonce key (encode s) place) =
        omega (arith, long) in
      (
        record {
          ciphertext = some (encrypt aead draws.nonce key (encode s) place);
          key_id = some key.id;
          data_keys = row ∷ rows;
        },
        rw made,
        λ reviewer i now p n shown.
            inr (
              encrypt aead draws.nonce key (encode s) place,
              key.id,
              refl,
              refl,
              refl,
              least,
              fits,
            ),
        rw (==_refl draws.key.id) refl,
      )

-- A status event that is inserted leaves the report to be read back.
write_event-total :
    (e : StatusEvent) (db : Db) (r : Report)
    → insert_event e db ≡ ok (record db { events = e ∷ db.events })
    → select_report e.report_id db.reports ≡ some r
    → (current : Report) × (written : Db) × (write_event e db ≡ ok (current, written))
unfolding write_event project
write_event-total e db r i f = (
  set_status e.report_id e.new_status e.occurred_at r,
  record db {
    events = e ∷ db.events;
    reports = map (set_status e.report_id e.new_status e.occurred_at) db.reports;
  },
  rw (i, select_report-set_self e.report_id e.new_status e.occurred_at db.reports {r = r} f),
)

IsProblem-guard :
    (b : Bool) (p : Problem) (fs : List FieldError) → IsProblem (guard b (problem p fs))
IsProblem-guard true p fs = tt
IsProblem-guard false p fs = tt

IsProblem-or_fail :
    (o : Option Report) (p : Problem) (fs : List FieldError) → IsProblem (or_fail (problem p fs) o)
IsProblem-or_fail none p fs = tt
IsProblem-or_fail (some r) p fs = tt

IsProblem-allowed : (r : Result NotAllowed Transition) → IsProblem (allowed r)
IsProblem-allowed (ok u) = tt
IsProblem-allowed (err e) = tt

not_answer :
    (s : Status) (c : Command) (a : Actor) {u : Transition}
    → (a ≡ reviewer) ⊎ (a ≡ admin)
    → find_transition s c a ≡ ok u
    → c ≢ record_follow_up
not_answer s c a staff found = ground (arith, find_transition-actor s c a found)

module _ (aead : Aead) (ring : Ring) (reviewer : Reviewer) (report_id : ℕ) (draws : Draws)
    (request : DecisionRequest) (db : Db) {kek : Bytes} where
  apply_transition-total :
      (reason message : Option Text) (row : Report) (u : Transition)
      → (reviewer.actor_type ≡ Actor.reviewer) ⊎ (reviewer.actor_type ≡ admin)
      → find_kek ring.active ring.keys ≡ some kek
      → length draws.key.nonce ≡ 12
      → length draws.nonce ≡ 12
      → has_event draws.event_id db.events ≡ false
      → has_key (some draws.key.id) db.data_keys ≡ false
      → is_owned event_table draws.event_id review_notes db.data_keys ≡ false
      → ((s : Text) → reason ≡ some s → length s ≤ 1000)
      → ((s : Text) → message ≡ some s → length s ≤ 300)
      → select_report report_id db.reports ≡ some row
      → find_transition row.status request.command reviewer.actor_type ≡ ok u
      → IsProblem
          (apply_transition aead ring reviewer report_id draws request reason message row u db)
  unfolding apply_transition
  apply_transition-total reason message row u staff k n1 n2 new fresh free hr hm found permitted =
      let now = after (latest_event_at report_id db.events) draws.now in
      let (sealed, e1, fits, key) =
        seal_reason-fits aead ring draws {kek = kek} reason db.data_keys k n1 n2 fresh free hr in
      let (shown, e2, short) =
        message_or_default-fits message request.command
          (not_answer row.status request.command reviewer.actor_type staff permitted) hm in
      let event = decision_event reviewer report_id draws row.status u.to_status now shown sealed in
      let legal =
        (find_transition_sound row.status request.command reviewer.actor_type permitted).3 in
      let (current, written, e3) =
        write_event-total event (record db { data_keys = sealed.data_keys }) row
          (insert_event-staff event (record db { data_keys = sealed.data_keys }) row.status row new
            found short staff refl legal (fits reviewer report_id now row.status u.to_status shown)
            key)
          found in
      rw (e1, e2, e3) tt

  -- When a reviewer or an admin decides with new identifiers of the event and of its data key,
  -- no key yet for the notes of that event, nonces of twelve bytes and the active key in the key
  -- ring, the call succeeds or raises a problem of the catalogue: no check, key, foreign key or
  -- trigger of the events, the reports and the data keys refuses, no message is missing, and no key
  -- is unavailable.
  pub decide-IsProblem :
      (reviewer.actor_type ≡ Actor.reviewer) ⊎ (reviewer.actor_type ≡ admin)
      → find_kek ring.active ring.keys ≡ some kek
      → length draws.key.nonce ≡ 12
      → length draws.nonce ≡ 12
      → has_event draws.event_id db.events ≡ false
      → has_key (some draws.key.id) db.data_keys ≡ false
      → is_owned event_table draws.event_id review_notes db.data_keys ≡ false
      → IsProblem (decide aead ring reviewer report_id draws request db)
  unfolding decide
  decide-IsProblem staff k n1 n2 new fresh free =
      bind-IsProblem (clean request.internal_reason _ max_reason_chars) _
        (clean-IsProblem request.internal_reason _ _)
        λ reason e1.
          bind-IsProblem (clean request.reporter_message _ max_message_chars) _
            (clean-IsProblem request.reporter_message _ _)
            λ message e2.
              bind-IsProblem (guard (not (is_none reason && reason_required request.command)) _) _
                (IsProblem-guard _ _ _)
                λ _ _.
                  bind-IsProblem (or_fail _ (select_report report_id db.reports)) _
                    (IsProblem-or_fail _ _ _)
                    λ row e4.
                      bind-IsProblem
                        (guard
                          (row.status is_status request.expected_status
                            && row.version == request.expected_version)
                          _)
                        _ (IsProblem-guard _ _ _)
                        λ _ _.
                          bind-IsProblem
                            (allowed
                              (find_transition row.status request.command reviewer.actor_type))
                            _ (IsProblem-allowed _)
                            λ u e6.
                              apply_transition-total reason message row u staff k n1 n2 new fresh
                                free
                                (λ s e.
                                  (clean-bounds request.internal_reason _ max_reason_chars
                                    (e1 ∙ ap ok e)).1)
                                (λ s e.
                                  (clean-bounds request.reporter_message _ max_message_chars
                                    (e2 ∙ ap ok e)).1)
                                (or_fail-ok _ _ e4) (allowed-ok _ e6)
