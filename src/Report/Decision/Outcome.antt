-- ===== src/Report/Decision/Outcome.antt =====
-- What a decision that succeeds has checked and written.
use shaidago.Base.{
  bind-ok, guard-ok, ◌∙◌, ℕ, suc, ◌<◌, ◌≡◌, refl, true, ◌&&◌, not, List, ◌∷◌, Option, none, some,
  Result, ok, err, guard, arith, Text, ◌==◌, is_none, map,
}
use shaidago.Crypto.{Aead, Ring}
use shaidago.Report.Machine.{
  Status, reason_required, ◌is_status◌, Transition, find_transition, NotAllowed,
}
use shaidago.Report.Machine.Laws.{find_transition_sound}
use shaidago.Report.Tables.{
  Report, StatusEvent, Db, select_report, latest_event_at, insert_event, project, set_status,
}
use shaidago.Report.Tables.Laws.{
  IsLatest, select_report-set_self, select_report-id, set_status-version,
}
use shaidago.Report.Decision.{
  DecisionRequest, Reviewer, DecisionResult, Draws, Failure, clean, or_fail, allowed, stored, after,
  decide, apply_transition, decision_event, Sealed, seal_reason, message_or_default, write_event,
  max_reason_chars, max_message_chars,
}

pub or_fail-ok : {A : Type 0} (e : Failure) (o : Option A) {a : A} → or_fail e o ≡ ok a → o ≡ some a
or_fail-ok e none h = cc
or_fail-ok e (some x) h = cc

pub allowed-ok : (r : Result NotAllowed Transition) {u : Transition} → allowed r ≡ ok u → r ≡ ok u
allowed-ok (ok x) h = cc
allowed-ok (err e) h = cc

is_status-eq : (s t : Status) → (s is_status t) ≡ true → s ≡ t
is_status-eq s t h = ground arith

after-IsLatest : (o : Option ℕ) (now m : ℕ) → o ≡ some m → m < after o now
after-IsLatest none now m h = cc
after-IsLatest (some n) now m h = ground arith

stored_insert-ok :
    (e : StatusEvent) (db : Db) {db' : Db}
    → stored (insert_event e db) ≡ ok db'
    → db' ≡ record db { events = e ∷ db.events }
unfolding insert_event
stored_insert-ok e db h = ground arith

-- The tables after a status event, and the report that is read back.
pub record Written (event : StatusEvent) (db db' : Db) (current : Report) : Type 0 where
  pub appended : db'.events ≡ event ∷ db.events
  pub projected :
      db'.reports ≡ map (set_status event.report_id event.new_status event.occurred_at) db.reports
  pub read_back : select_report event.report_id db'.reports ≡ some current

write_event-Written :
    (event : StatusEvent) (db : Db) {current : Report} {db' : Db}
    → write_event event db ≡ ok (current, db')
    → Written event db db' current
unfolding write_event project
write_event-Written event db {current} {db'} h =
    bind-ok (stored (insert_event event db)) _ h λ inserted e3 h3.
      bind-ok
        (or_fail _ (
          select_report event.report_id
            (project event.report_id event.new_status event.occurred_at inserted).reports))
        _ h3
        λ found e4 h4. written_of inserted (stored_insert-ok event db e3) (or_fail-ok _ _ e4) h4
  where
    written_of :
        (inserted : Db) {found : Report}
        → inserted ≡ record db { events = event ∷ db.events }
        → select_report event.report_id
            (project event.report_id event.new_status event.occurred_at inserted).reports
          ≡ some found
        → ◌≡◌ {A = Result Failure (Report × Db)}
            (ok (found, project event.report_id event.new_status event.occurred_at inserted))
            (ok (current, db'))
        → Written event db db' current
    written_of inserted same read h4 = record {
      appended = ground arith;
      projected = ground arith;
      read_back = ground arith;
    }

-- What a decision has checked, and what it leaves behind.
pub record Decided (reviewer : Reviewer) (report_id : ℕ) (request : DecisionRequest) (db db' : Db)
    (res : DecisionResult) : Type 0 where
  pub row : Report
  pub transition : Transition
  pub event : StatusEvent
  pub current : Report
  pub found : select_report report_id db.reports ≡ some row
  pub expected : (row.status ≡ request.expected_status) × (row.version ≡ request.expected_version)
  pub permitted : find_transition row.status request.command reviewer.actor_type ≡ ok transition
  pub event_of :
      (event.report_id ≡ report_id)
      × (event.previous_status ≡ some row.status)
      × (event.new_status ≡ transition.to_status)
  pub latest : IsLatest event db.events
  pub appended : db'.events ≡ event ∷ db.events
  pub projected :
      db'.reports ≡ map (set_status report_id event.new_status event.occurred_at) db.reports
  pub read_back : select_report report_id db'.reports ≡ some current
  pub moved : (current.status ≡ transition.to_status) × (current.version ≡ suc row.version)
  pub answered :
      (res.previous_status ≡ row.status)
      × (res.status ≡ transition.to_status)
      × (res.version ≡ current.version)
      × (res.occurred_at ≡ event.occurred_at)

set_back :
    (i : ℕ) (new : Status) (now : ℕ) (rs : List Report) (row current : Report)
    → select_report i rs ≡ some row
    → select_report i (map (set_status i new now) rs) ≡ some current
    → current ≡ set_status i new now row
set_back i new now rs row current found read =
    cc (select_report-set_self i new now rs {r = row} found)

module _ (aead : Aead) (ring : Ring) (reviewer : Reviewer) (report_id : ℕ) (draws : Draws)
    (request : DecisionRequest) (db : Db) where
  module _ (row : Report) (u : Transition) {db' : Db} {res : DecisionResult} where
    apply_transition-Decided :
        (reason message : Option Text)
        → select_report report_id db.reports ≡ some row
        → (row.status is_status request.expected_status && row.version == request.expected_version)
          ≡ true
        → find_transition row.status request.command reviewer.actor_type ≡ ok u
        → apply_transition aead ring reviewer report_id draws request reason message row u db
          ≡ ok (res, db')
        → Decided reviewer report_id request db db' res
    unfolding apply_transition
    apply_transition-Decided reason message found fresh permitted h =
        bind-ok (seal_reason aead ring draws reason db.data_keys) _ h λ sealed e1 h1.
          bind-ok (message_or_default message request.command) _ h1 λ shown e2 h2.
            bind-ok
              (write_event (event_with sealed shown) (record db { data_keys = sealed.data_keys })) _
              h2
              λ w e3 h3.
                decided sealed shown w.0 w.1 (write_event-Written _ _ e3) (ground arith)
                  (ground arith)
      where
        now : ℕ
        now = after (latest_event_at report_id db.events) draws.now

        event_with : Sealed → Text → StatusEvent
        event_with sealed shown =
            decision_event reviewer report_id draws row.status u.to_status now shown sealed

        decided :
            (sealed : Sealed) (shown : Text) (current : Report) (written : Db)
            → Written
                (event_with sealed shown)
                (record db { data_keys = sealed.data_keys })
                written
                current
            → (db'.reports ≡ written.reports) × (db'.events ≡ written.events)
            → (res.previous_status ≡ row.status)
              × (res.status ≡ u.to_status)
              × (res.version ≡ current.version)
              × (res.occurred_at ≡ now)
            → Decided reviewer report_id request db db' res
        decided sealed shown current written w same answered =
            let (start, command, moves, legal) =
              find_transition_sound row.status request.command reviewer.actor_type permitted in
            let back =
              set_back report_id u.to_status now db.reports row current found
                (rw (← w.projected) w.read_back) in
            record {
              row = row;
              transition = u;
              event = event_with sealed shown;
              current = current;
              found = found;
              expected = ground arith;
              permitted = permitted;
              event_of = (refl, refl, refl);
              latest = λ m e. after-IsLatest _ draws.now m e;
              appended = same.1 ∙ w.appended;
              projected = same.0 ∙ w.projected;
              read_back = rw (same.0) w.read_back;
              moved = rw back (
                  set_status-version report_id u.to_status now row
                    (select_report-id report_id db.reports row found) moves);
              answered = answered;
            }

  -- A decision that succeeds has found the report in the expected status and version, and a
  -- transition that its actor may take; it appends one status event, later than every event of the
  -- report before it, sets the report to the new status and raises its version by one; other rows
  -- of the table are mapped to themselves, and the answer gives the same status, version and time.
  pub decide-Decided :
      {res : DecisionResult} {db' : Db}
      → decide aead ring reviewer report_id draws request db ≡ ok (res, db')
      → Decided reviewer report_id request db db' res
  unfolding decide
  decide-Decided h = bind-ok (clean request.internal_reason _ max_reason_chars) _ h λ reason e1 h1.
      bind-ok (clean request.reporter_message _ max_message_chars) _ h1 λ message e2 h2.
        bind-ok (guard (not (is_none reason && reason_required request.command)) _) _ h2 λ _ e3 h3.
          bind-ok (or_fail _ (select_report report_id db.reports)) _ h3 λ row e4 h4.
            bind-ok
              (guard
                (row.status is_status request.expected_status
                  && row.version == request.expected_version)
                _)
              _ h4
              λ _ e5 h5.
                bind-ok (allowed (find_transition row.status request.command reviewer.actor_type)) _
                  h5
                  λ u e6 h6.
                    apply_transition-Decided row u reason message (or_fail-ok _ _ e4)
                      (guard-ok _ _ e5) (allowed-ok _ e6) h6
