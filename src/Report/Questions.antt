-- ===== src/Report/Questions.antt =====
-- The questions that a reviewer asks of a reporter
-- (services/platform/src/shaidago/review/follow_up_questions.py, on the table of
-- services/platform/migrations/versions/0013_follow_up_answers.py).
pub mod Open
mod Examples
use shaidago.Base.{
  ℕ, suc, ◌+◌, ◌≤◌, ◌≡◌, Bool, true, false, ◌&&◌, ◌||◌, not, List, [], ◌∷◌, Option, none, some,
  Result, ok, err, ◌>>=◌, ◌>>◌, guard, any, leb, ltb, length, ◌==◌, if◌then◌else◌, is_none, Text,
  strip,
}
use shaidago.Problems.{not_found, conflict}
use shaidago.Report.Machine.{Actor, closed, ◌is_status◌}
use shaidago.Report.Tables.{Report, DbError, unique_violation, check_violation, select_report}
use shaidago.Report.Decision.{Reviewer, Failure, problem, database, invalid, or_fail}

abbrev pub min_chars : ℕ
min_chars = 5

abbrev pub max_chars : ℕ
max_chars = 500

abbrev pub max_open_questions : ℕ
max_open_questions = 10

-- A row of app.report_follow_up_questions.
pub record QuestionRow : Type 0 where
  pub id : ℕ
  pub report_id : ℕ
  pub question : Text
  pub asked_by : Option ℕ
  pub asked_at : ℕ
  pub withdrawn_at : Option ℕ

pub data QuestionEvent : Type 0 where
  report_follow_up_question_added report_follow_up_question_withdrawn : QuestionEvent

pub record QuestionAudit : Type 0 where
  pub id : ℕ
  pub occurred_at : ℕ
  pub actor_type : Actor
  pub actor_id : ℕ
  pub event : QuestionEvent
  pub subject_id : ℕ
  pub request_id : Option Text
  pub question_id : ℕ

pub record QuestionDesk : Type 0 where
  pub reports : List Report
  pub questions : List QuestionRow
  pub audit : List QuestionAudit

-- What is drawn from the clock and the source of identifiers.
pub record QuestionDraws : Type 0 where
  pub now : ℕ
  pub question_id : ℕ
  pub audit_id : ℕ
  pub audit_now : ℕ

unfoldable pub valid : Text → Result Failure Text
valid question =
    let cleaned = strip question in
    if not (leb min_chars (length cleaned) && leb (length cleaned) max_chars)
      || any (λ c. ltb c 32 || c == 127) cleaned
    then err (invalid "question" "invalid_text")
    else ok cleaned

abbrev pub is_open_for : ℕ → QuestionRow → Bool
is_open_for report_id q = q.report_id == report_id && is_none q.withdrawn_at

unfoldable pub open_count : ℕ → List QuestionRow → ℕ
open_count report_id [] = 0
open_count report_id (q ∷ questions) =
    let rest = open_count report_id questions in if is_open_for report_id q then suc rest else rest

unfoldable pub has_question : ℕ → List QuestionRow → Bool
has_question i [] = false
has_question i (q ∷ questions) = q.id == i || has_question i questions

unfoldable pub insert_question : QuestionRow → List QuestionRow → Result DbError (List QuestionRow)
unfolding has_question
insert_question q questions =
    if not (leb min_chars (length q.question) && leb (length q.question) max_chars)
    then err check_violation
    else if has_question q.id questions
    then err unique_violation
    else ok (q ∷ questions)

abbrev pub inserted {ℓ} : {A : Type ℓ} → Result DbError A → Result Failure A
inserted (ok a) = ok a
inserted (err e) = err (database e)

abbrev pub question_audit : Reviewer → QuestionDraws → QuestionEvent → ℕ → ℕ → QuestionAudit
question_audit reviewer draws event report_id question_id = record {
  id = draws.audit_id;
  occurred_at = draws.audit_now;
  actor_type = reviewer.actor_type;
  actor_id = reviewer.actor_id;
  event = event;
  subject_id = report_id;
  request_id = reviewer.request_id;
  question_id = question_id;
}

abbrev pub question_row : Reviewer → QuestionDraws → ℕ → Text → QuestionRow
question_row reviewer draws report_id cleaned = record {
  id = draws.question_id;
  report_id = report_id;
  question = cleaned;
  asked_by = some reviewer.actor_id;
  asked_at = draws.now;
  withdrawn_at = none;
}

unfoldable pub ask :
    Reviewer → QuestionDraws → ℕ → Text → QuestionDesk → Result Failure (ℕ × QuestionDesk)
unfolding valid open_count insert_question
ask reviewer draws report_id question d = do
  cleaned ← valid question
  row ← or_fail (problem not_found []) (select_report report_id d.reports)
  guard (not (row.status is_status closed)) (problem conflict [])
  guard (ltb (open_count report_id d.questions) max_open_questions) (problem conflict [])
  questions ← inserted (insert_question (question_row reviewer draws report_id cleaned) d.questions)
  ok (
    draws.question_id,
    record {
      reports = d.reports;
      questions = questions;
      audit =
          question_audit reviewer draws report_follow_up_question_added report_id draws.question_id
          ∷ d.audit;
    },
  )

-- `_WITHDRAW`: the rows afterwards, and how many were updated.
unfoldable pub withdraw_rows : ℕ → ℕ → ℕ → List QuestionRow → List QuestionRow × ℕ
withdraw_rows report_id i now [] = ([], 0)
withdraw_rows report_id i now (q ∷ questions) =
    let (rest, n) = withdraw_rows report_id i now questions in
    if q.id == i && is_open_for report_id q
    then (record q { withdrawn_at = some now } ∷ rest, suc n)
    else (q ∷ rest, n)

unfoldable pub withdraw_question :
    Reviewer → QuestionDraws → ℕ → ℕ → QuestionDesk → Result Failure QuestionDesk
unfolding withdraw_rows
withdraw_question reviewer draws report_id question_id d = do
  let updated = withdraw_rows report_id question_id draws.now d.questions
  guard (leb 1 updated.1) (problem not_found [])
  ok (record {
    reports = d.reports;
    questions = updated.0;
    audit =
        question_audit reviewer draws report_follow_up_question_withdrawn report_id question_id
        ∷ d.audit;
  })
