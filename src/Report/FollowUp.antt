-- ===== src/Report/FollowUp.antt =====
-- The reporter's answer to a follow-up question: `FollowUpSubmitter.submit`
-- (services/platform/src/shaidago/reports/follow_ups.py) and the database function that it calls,
-- app.follow_up_submit (services/platform/migrations/versions/0013_follow_up_answers.py).
pub mod Laws
pub mod Order
mod Examples
use Prim.Native.String.{String}
use shaidago.Base.{
  ℕ, Bool, true, false, ◌&&◌, ◌||◌, not, List, [], ◌∷◌, Option, none, some, Result, ok, err, ◌>>=◌,
  ◌>>◌, guard, length, any, all, leb, ltb, ◌==◌, if◌then◌else◌, is_none, is_some, Text, codes,
  strip, same_text,
}
use shaidago.Crypto.{
  Bytes, Aead, Ring, Draw, CryptoError, create, encrypt, encode, has_key, field_context,
  follow_up_answers,
}
use shaidago.Report.Machine.{
  Status, needs_information, under_review, reporter, report_follow_up_received, ◌is_status◌,
}
use shaidago.Report.Tables.{
  Report, StatusEvent, AuditRow, Db, DbError, check_violation, unique_violation,
  foreign_key_violation, answer_details, select_report, insert_event, project, projection_holds,
}

abbrev pub max_answer_chars : ℕ
max_answer_chars = 2000

abbrev received_message : Text
received_message = codes "Thank you. Your follow-up answer was received and review has resumed."

abbrev owner_table : Text
owner_table = codes "report_follow_up_answers"

pub data AnswerKind : Type 0 where
  answered skipped unsafe : AnswerKind

pub record Question : Type 0 where
  pub id : ℕ
  pub report_id : ℕ
  pub withdrawn_at : Option ℕ

pub record Answer : Type 0 where
  pub id : ℕ
  pub question_id : ℕ
  pub report_id : ℕ
  pub kind : AnswerKind
  pub ciphertext : Option Bytes
  pub data_key_id : Option ℕ
  pub schema_version : ℕ
  pub created_at : ℕ

-- A row of app.report_tracking_keys.
pub record TrackingKey : Type 0 where
  pub report_id : ℕ
  pub lookup_hmac : Bytes

-- The tables of a report with those of its questions, answers and tracking keys.
pub record Desk : Type 0 where
  pub tables : Db
  pub questions : List Question
  pub answers : List Answer
  pub tracking_keys : List TrackingKey

-- The arguments of app.follow_up_submit.
pub record Submission : Type 0 where
  pub question_id : ℕ
  pub digests : List Bytes
  pub handle_id : Option ℕ
  pub answer_id : ℕ
  pub kind : AnswerKind
  pub ciphertext : Option Bytes
  pub key_id : Option ℕ
  pub schema_version : ℕ
  pub now : ℕ
  pub event_id : ℕ
  pub audit_id : ℕ
  pub message : Text

unfoldable pub find_question : ℕ → List Question → Option Question
find_question i [] = none
find_question i (q ∷ qs) = if q.id == i then some q else find_question i qs

abbrev same_handle : Option ℕ → Option ℕ → Bool
same_handle (some h) (some k) = h == k
same_handle _ _ = false

-- `k.lookup_hmac = ANY (p_lookup_hmacs)` for a key of the report.
abbrev opens : ℕ → List Bytes → TrackingKey → Bool
opens report_id digests k = k.report_id == report_id && any (same_text k.lookup_hmac) digests

-- The caller's credential resolves to the report: by a handle or by a digest, eight at most.
unfoldable pub owns : Submission → List TrackingKey → Report → Bool
owns s keys r =
    leb (length s.digests) 8
    && (same_handle s.handle_id r.reporter_handle_id || any (opens r.id s.digests) keys)

-- The open question and the report that the first statement of the function locks.
abbrev pub locate_report : Submission → List TrackingKey → Question → Option Report → Option Report
locate_report s keys q none = none
locate_report s keys q (some r) = if is_none q.withdrawn_at && owns s keys r then some r else none

abbrev locate_in : Submission → Desk → Option Question → Option Report
locate_in s d none = none
locate_in s d (some q) =
    locate_report s d.tracking_keys q (select_report q.report_id d.tables.reports)

unfoldable pub locate : Submission → Desk → Option Report
unfolding find_question
locate s d = locate_in s d (find_question s.question_id d.questions)

unfoldable pub is_answered : ℕ → List Answer → Bool
is_answered i answers = any (λ a. a.question_id == i) answers

-- A question of the report that is neither withdrawn nor answered.
abbrev is_open : ℕ → List Answer → Question → Bool
is_open report_id answers q =
    q.report_id == report_id
    && is_none q.withdrawn_at
    && not (any (λ a. a.question_id == q.id) answers)

unfoldable pub has_open : ℕ → List Answer → List Question → Bool
has_open report_id answers questions = any (is_open report_id answers) questions

abbrev is_kind_answered : AnswerKind → Bool
is_kind_answered answered = true
is_kind_answered _ = false

abbrev fits : Option Bytes → Bool
fits none = false
fits (some c) = leb 29 (length c) && leb (length c) 16384

-- `ck_report_follow_up_answers_content` and the check on the schema version.
unfoldable pub answer_check : Answer → Bool
answer_check a =
    leb 1 a.schema_version
    && (if is_kind_answered a.kind
        then fits a.ciphertext && is_some a.data_key_id
        else is_none a.ciphertext && is_none a.data_key_id)

unfoldable pub has_answer : ℕ → List Answer → Bool
has_answer i answers = any (λ a. a.id == i) answers

abbrev pub answer_row : Submission → ℕ → Answer
answer_row s report_id = record {
  id = s.answer_id;
  question_id = s.question_id;
  report_id = report_id;
  kind = s.kind;
  ciphertext = s.ciphertext;
  data_key_id = s.key_id;
  schema_version = s.schema_version;
  created_at = s.now;
}

-- The event that the last answer writes: the reporter's `record_follow_up`.
abbrev pub resume_event : Submission → ℕ → StatusEvent
resume_event s report_id = record {
  id = s.event_id;
  report_id = report_id;
  previous_status = some needs_information;
  new_status = under_review;
  public_message = s.message;
  actor_type = reporter;
  actor_id = none;
  occurred_at = s.now;
  reason_ciphertext = none;
  reason_key_id = none;
  reason_schema_version = none;
}

-- The status is moved on when no open question is left.
unfoldable pub resume : Submission → Report → Bool → Db → Result DbError Db
resume s r none_open db =
    if r.status is_status needs_information && none_open
    then (do
      inserted ← insert_event (resume_event s r.id) db
      ok (project r.id under_review s.now inserted))
    else ok db

abbrev kind_name : AnswerKind → String
kind_name answered = "answered"
kind_name skipped = "skipped"
kind_name unsafe = "unsafe"

abbrev audit_answer : Submission → ℕ → AuditRow
audit_answer s report_id = record {
  id = s.audit_id;
  occurred_at = s.now;
  actor_type = reporter;
  actor_id = none;
  event = report_follow_up_received;
  subject_id = report_id;
  request_id = none;
  details = answer_details (kind_name s.kind);
}

-- From the located report on: at most one answer to a question, the status, the audit row. The
-- checks of the row come before `ON CONFLICT (question_id) DO NOTHING`, and that before the keys.
unfoldable pub store_answer : Submission → Report → Desk → Result DbError (Bool × Desk)
store_answer s r d =
    if not (answer_check (answer_row s r.id))
    then err check_violation
    else if is_answered s.question_id d.answers
    then ok (false, d)
    else if has_answer s.answer_id d.answers
    then err unique_violation
    else if not (has_key s.key_id d.tables.data_keys)
    then err foreign_key_violation
    else (do
      let answers = answer_row s r.id ∷ d.answers
      moved ← resume s r (not (has_open r.id answers d.questions)) d.tables
      ok (
        true,
        record d {
          answers = answers;
          tables = record moved { audit = audit_answer s r.id ∷ moved.audit };
        },
      ))

abbrev located : Submission → Desk → Option Report → Result DbError (Bool × Desk)
located s d none = ok (false, d)
located s d (some r) = store_answer s r d

unfoldable pub follow_up_submit : Submission → Desk → Result DbError (Bool × Desk)
follow_up_submit s d = located s d (locate s d)

-- What the submitter raises: unusable content, or what lies below it.
pub data SubmitError : Type 0 where
  invalid_answer : SubmitError
  from_database : DbError → SubmitError
  from_crypto : CryptoError → SubmitError

pub record Caller : Type 0 where
  pub digests : List Bytes
  pub handle_id : Option ℕ

-- What one submission draws from the identifiers, the clock and the random source.
pub record SubmitDraws : Type 0 where
  pub answer_id : ℕ
  pub key : Draw
  pub key_now : ℕ
  pub nonce : Bytes
  pub no_digest : Bytes
  pub now : ℕ
  pub event_id : ℕ
  pub audit_id : ℕ

-- `list(caller.digests) or [secrets.token_bytes(32)]`
abbrev digests_or : List Bytes → Bytes → List Bytes
digests_or [] blank = blank ∷ []
digests_or (b ∷ bs) blank = b ∷ bs

-- `answer or ""`, and whether it is empty.
abbrev text_or_empty : Option Text → Text
text_or_empty none = []
text_or_empty (some t) = t

abbrev is_empty : Text → Bool
is_empty [] = true
is_empty (c ∷ s) = false

abbrev lifted {ℓ} : {A : Type ℓ} → Result CryptoError A → Result SubmitError A
lifted (ok a) = ok a
lifted (err e) = err (from_crypto e)

abbrev from_db {ℓ} : {A : Type ℓ} → Result DbError A → Result SubmitError A
from_db (ok a) = ok a
from_db (err e) = err (from_database e)

module _ (aead : Aead) (ring : Ring) (draws : SubmitDraws) where
  -- The ciphertext, its key and the tables with that key, for each kind of answer.
  unfoldable pub prepare :
      AnswerKind → Option Text → Db → Result SubmitError (Option Bytes × Option ℕ × Db)
  prepare answered answer db = do
    let body = strip (text_or_empty answer)
    guard (not (is_empty body) && leb (length body) max_answer_chars) invalid_answer
    (key, rows) ← lifted (
        create aead ring draws.key draws.key_now owner_table draws.answer_id follow_up_answers
          db.data_keys)
    ok (
      some (
          encrypt aead draws.nonce key (encode body)
            (field_context owner_table draws.answer_id (codes "answer") 1)),
      some key.id,
      record db { data_keys = rows },
    )
  prepare _ answer db = do
    guard (is_empty (text_or_empty answer)) invalid_answer
    ok (none, none, db)

  unfoldable pub submit :
      Caller → ℕ → AnswerKind → Option Text → Desk → Result SubmitError (Bool × Desk)
  submit caller question_id kind answer d = do
    (ciphertext, key_id, keyed) ← prepare kind answer d.tables
    from_db (
        follow_up_submit
          (record {
            question_id = question_id;
            digests = digests_or caller.digests draws.no_digest;
            handle_id = caller.handle_id;
            answer_id = draws.answer_id;
            kind = kind;
            ciphertext = ciphertext;
            key_id = key_id;
            schema_version = 1;
            now = draws.now;
            event_id = draws.event_id;
            audit_id = draws.audit_id;
            message = received_message;
          })
          (record d { tables = keyed }))
