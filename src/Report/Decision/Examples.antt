-- ===== src/Report/Decision/Examples.antt =====
-- A report received, on which a review starts, and a second reviewer who looks at the old version.
use shaidago.Base.{ℕ, ◌≡◌, ◌≢◌, inl, refl, [], ◌∷◌, none, some, false, ok, codes}
use shaidago.Crypto.{find_kek, has_key, is_owned}
use shaidago.Crypto.Toy.{toy, ring, draw, nonce}
use shaidago.Report.Machine.{
  received, under_review, start_review, close, reviewer, admin, reporter, report_status_changed,
  find_transition,
}
use shaidago.Report.Tables.{
  Report, StatusEvent, Db, standard, select_report, has_event, latest_event_at, newest,
  insert_event, set_status, project, event_check, decision_details,
}
use shaidago.Report.Tables.Laws.{IsProjected}
use shaidago.Report.Decision.{
  DecisionRequest, Reviewer, DecisionResult, Draws, decide, committed, apply_transition, clean,
  seal_reason, write_event, default_message,
}
use shaidago.Report.Decision.Outcome.{Decided, decide-Decided}
use shaidago.Report.Decision.Consistency.{decide-committed, decide-once}
use shaidago.Report.Decision.Total.{IsProblem, decide-IsProblem}

abbrev report : ℕ → Report
report i = record {
  id = i;
  status = received;
  version = 1;
  risk_level = standard;
  reporter_handle_id = none;
  status_updated_at = 10;
  updated_at = 10;
}

abbrev first_event : ℕ → ℕ → StatusEvent
first_event i report_id = record {
  id = i;
  report_id = report_id;
  previous_status = none;
  new_status = received;
  public_message = codes "Received.";
  actor_type = reporter;
  actor_id = none;
  occurred_at = 10;
  reason_ciphertext = none;
  reason_key_id = none;
  reason_schema_version = none;
}

abbrev db : Db
db = record {
  reports = report 1 ∷ report 2 ∷ [];
  events = first_event 51 1 ∷ first_event 52 2 ∷ [];
  data_keys = [];
  audit = [];
}

abbrev request : DecisionRequest
request = record {
  command = start_review;
  expected_status = received;
  expected_version = 1;
  internal_reason = none;
  reporter_message = none;
}

abbrev ann : Reviewer
ann = record { actor_type = reviewer; actor_id = 7; request_id = none }

abbrev bob : Reviewer
bob = record { actor_type = admin; actor_id = 8; request_id = none }

-- The clock stands before the first event.
abbrev draws : Draws
draws = record {
  now = 5;
  event_id = 60;
  key = draw;
  key_now = 5;
  nonce = nonce;
  audit_id = 61;
  audit_now = 6;
}

abbrev result : DecisionResult
result = record {
  report_id = 1;
  event_id = 60;
  previous_status = received;
  status = under_review;
  version = 2;
  occurred_at = 11;
}

abbrev start_event : StatusEvent
start_event = record {
  id = 60;
  report_id = 1;
  previous_status = some received;
  new_status = under_review;
  public_message = codes "A reviewer has started reviewing your report. It remains private.";
  actor_type = reviewer;
  actor_id = some 7;
  occurred_at = 11;
  reason_ciphertext = none;
  reason_key_id = none;
  reason_schema_version = none;
}

abbrev started : Report
started = record {
  id = 1;
  status = under_review;
  version = 2;
  risk_level = standard;
  reporter_handle_id = none;
  status_updated_at = 11;
  updated_at = 11;
}

abbrev written : Db
written = record {
  reports = started ∷ report 2 ∷ [];
  events = start_event ∷ db.events;
  data_keys = [];
  audit =
      record {
        id = 61;
        occurred_at = 6;
        actor_type = reviewer;
        actor_id = some 7;
        event = report_status_changed;
        subject_id = 1;
        request_id = none;
        details = decision_details start_review received under_review 1 2 false;
      }
      ∷ [];
}

decided : decide toy ring ann 1 draws request db ≡ ok (result, written)
unfolding has_key decide apply_transition clean seal_reason write_event default_message
    select_report latest_event_at insert_event has_event event_check project set_status
    find_transition
decided = refl

projected : IsProjected db.events db.reports
unfolding newest
projected = (refl, (refl, tt))

decide-Decided_example : Decided ann 1 request db written result
decide-Decided_example = decide-Decided toy ring ann 1 draws request db decided

decide-committed_example :
    IsProjected written.events written.reports
    × (committed 1 db (decide toy ring ann 1 draws request db) ≡ (ok result, written))
decide-committed_example = decide-committed toy ring ann 1 draws request db projected decided

-- Bob still sees the report as it was received.
decide-once_example :
    decide toy ring bob 1 draws (record request { command = close }) written ≢ ok (result, written)
decide-once_example =
    decide-once toy ring ann 1 draws request db bob draws (record request { command = close })
      result written decided refl

-- With a reason, which is sealed under a data key of its own.
abbrev explained : DecisionRequest
explained = record request { internal_reason = some (codes "Looks credible.") }

decide-IsProblem_example : IsProblem (decide toy ring ann 1 draws explained db)
unfolding find_kek has_event has_key is_owned
decide-IsProblem_example =
    decide-IsProblem toy ring ann 1 draws explained db {kek = 99 ∷ []} (inl refl) refl refl refl
      refl refl refl
