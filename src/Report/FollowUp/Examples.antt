-- ===== src/Report/FollowUp/Examples.antt =====
-- A report that waits for information with one open question, answered by its reporter: with a
-- clock that runs ahead of the report's events, and with one that does not.
use shaidago.Base.{
  ℕ, ◌≡◌, ◌<◌, ◌⊎◌, refl, arith, true, false, [], ◌∷◌, none, some, ok, err, codes, subst,
}
use shaidago.Crypto.{has_key}
use shaidago.Report.Machine.{
  received, needs_information, under_review, reporter, reviewer, report_follow_up_received,
}
use shaidago.Report.Tables.{
  Report, StatusEvent, standard, answer_details, select_report, latest_event_at, newest,
  insert_event, event_check, has_event, project, set_status, projection_holds, check_violation,
}
use shaidago.Report.Tables.Laws.{IsProjected}
use shaidago.Report.FollowUp.{
  Submission, Desk, skipped, unsafe, answer_row, resume_event, received_message, locate,
  find_question, owns, is_answered, has_open, answer_check, has_answer, resume, store_answer,
  follow_up_submit,
}
use shaidago.Report.FollowUp.Laws.{Recorded, follow_up_submit-cases}
use shaidago.Report.FollowUp.Order.{
  here, submitted, follow_up_submit-once, follow_up_submit-IsProjected, follow_up_submit-skewed,
}

abbrev waiting : Report
waiting = record {
  id = 1;
  status = needs_information;
  version = 2;
  risk_level = standard;
  reporter_handle_id = some 5;
  status_updated_at = 20;
  updated_at = 20;
}

abbrev asked : StatusEvent
asked = record {
  id = 52;
  report_id = 1;
  previous_status = some received;
  new_status = needs_information;
  public_message = codes "We need a little more information.";
  actor_type = reviewer;
  actor_id = some 7;
  occurred_at = 20;
  reason_ciphertext = none;
  reason_key_id = none;
  reason_schema_version = none;
}

abbrev desk : Desk
desk = record {
  tables = record { reports = waiting ∷ []; events = asked ∷ []; data_keys = []; audit = [] };
  questions = record { id = 3; report_id = 1; withdrawn_at = none } ∷ [];
  answers = [];
  tracking_keys = [];
}

abbrev skip_at : ℕ → Submission
skip_at now = record {
  question_id = 3;
  digests = (0 ∷ []) ∷ [];
  handle_id = some 5;
  answer_id = 4;
  kind = skipped;
  ciphertext = none;
  key_id = none;
  schema_version = 1;
  now = now;
  event_id = 60;
  audit_id = 61;
  message = received_message;
}

abbrev resumed_at : ℕ → Report
resumed_at now = record waiting {
  status = under_review;
  version = 3;
  status_updated_at = now;
  updated_at = now;
}

abbrev after_skip : ℕ → Desk
after_skip now = record desk {
  answers = answer_row (skip_at now) 1 ∷ [];
  tables = record {
    reports = resumed_at now ∷ [];
    events = resume_event (skip_at now) 1 ∷ asked ∷ [];
    data_keys = [];
    audit =
        record {
          id = 61;
          occurred_at = now;
          actor_type = reporter;
          actor_id = none;
          event = report_follow_up_received;
          subject_id = 1;
          request_id = none;
          details = answer_details "skipped";
        }
        ∷ [];
  };
}

skipping : (now : ℕ) → follow_up_submit (skip_at now) desk ≡ ok (true, after_skip now)
unfolding follow_up_submit locate find_question owns select_report store_answer is_answered has_open
    answer_check has_answer has_key resume insert_event event_check has_event project set_status
skipping now = refl

located_here : (now : ℕ) → locate (skip_at now) desk ≡ some waiting
unfolding locate find_question owns select_report
located_here now = refl

projected : IsProjected desk.tables.events desk.tables.reports
unfolding newest
projected = (refl, tt)

latest : latest_event_at 1 desk.tables.events ≡ some 20
unfolding latest_event_at
latest = refl

follow_up_submit-cases_example :
    ((true ≡ false) × (after_skip 30 ≡ desk))
    ⊎ ((true ≡ true)
        × ((r : Report) × (locate (skip_at 30) desk ≡ some r)
            × Recorded (skip_at 30) r desk (after_skip 30)))
follow_up_submit-cases_example = follow_up_submit-cases (skip_at 30) desk (skipping 30)

-- The second submission and the clock of a third.
skipped_again : follow_up_submit (skip_at 40) (after_skip 30) ≡ ok (false, after_skip 30)
unfolding follow_up_submit locate find_question owns select_report store_answer is_answered
    answer_check
skipped_again = refl

follow_up_submit-once_example :
    (follow_up_submit (record (skip_at 50) { kind = unsafe }) (after_skip 30)
      ≡ ok (false, after_skip 30))
    ⊎ (follow_up_submit (record (skip_at 50) { kind = unsafe }) (after_skip 30)
        ≡ err check_violation)
follow_up_submit-once_example =
    follow_up_submit-once (skip_at 30) desk (record (skip_at 50) { kind = unsafe }) (skipping 30)
      (submitted (skip_at 40) false here skipped_again) refl

ahead :
    (r : Report) (m : ℕ)
    → locate (skip_at 30) desk ≡ some r
    → latest_event_at r.id desk.tables.events ≡ some m
    → m < 30
ahead r m found late =
    let same : waiting.id ≡ r.id = ground (arith, found, located_here 30) in
    let there : latest_event_at r.id desk.tables.events ≡ some 20 =
      subst (λ i. latest_event_at i desk.tables.events ≡ some 20) same latest in
    ground (arith, there, late)

follow_up_submit-IsProjected_example :
    IsProjected (after_skip 30).tables.events (after_skip 30).tables.reports
follow_up_submit-IsProjected_example =
    follow_up_submit-IsProjected (skip_at 30) desk ahead projected (skipping 30)

follow_up_submit-skewed_example : projection_holds 1 (after_skip 15).tables ≡ false
unfolding has_open
follow_up_submit-skewed_example =
    follow_up_submit-skewed (skip_at 15) desk waiting 20 (located_here 15) latest (omega arith)
      projected refl (skipping 15)
