-- ===== src/Report/Decision.antt =====
-- A reviewer's decision on a report (services/platform/src/shaidago/review/decisions.py). The clock,
-- the new identifiers and the random bytes that the call draws enter as a record, and the cipher and
-- the key ring as parameters; a failure is a value, and the unit of work drops what it wrote.
pub mod Outcome
pub mod Consistency
pub mod Total
mod Examples
use Prim.Native.String.{String}
use shaidago.Base.{
  ℕ, suc, ◌+◌, Bool, true, false, ◌&&◌, ◌||◌, not, List, [], ◌∷◌, Option, none, some, Result, ok,
  err, ◌>>=◌, ◌>>◌, guard, length, any, leb, ltb, ◌==◌, if◌then◌else◌, is_none, is_some, Text,
  codes, strip,
}
use shaidago.Crypto.{
  Bytes, Aead, Ring, Draw, DataKey, KeyRow, CryptoError, create, encrypt, encode, field_context,
  review_notes,
}
use shaidago.Problems.{
  Problem, FieldError, not_found, report_transition_not_allowed, report_version_conflict,
  validation_failed,
}
use shaidago.Report.Machine.{
  Status, Command, request_information, start_review, close, record_follow_up, resume_review,
  verify_for_public_update, refer, reopen, Actor, Transition, NotAllowed, find_transition,
  reason_required, ◌is_status◌,
}
use shaidago.Report.Tables.{
  Report, StatusEvent, AuditRow, Db, DbError, projection_violation, decision_details, select_report,
  latest_event_at, insert_event, project, projection_holds,
}

abbrev pub schema_version : ℕ
schema_version = 1

abbrev pub event_table : Text
event_table = codes "report_status_events"

abbrev min_text_chars : ℕ
min_text_chars = 5

abbrev pub max_reason_chars : ℕ
max_reason_chars = 1000

abbrev pub max_message_chars : ℕ
max_message_chars = 300

-- `DEFAULT_MESSAGES`; `none` for a command with no entry.
pub default_message : Command → Option Text
default_message request_information =
    some (codes "We need a little more information. Please see the questions below.")
default_message start_review =
    some (codes "A reviewer has started reviewing your report. It remains private.")
default_message close =
    some (codes "Your report has been closed. It remains private and nothing was published.")
default_message resume_review = some (codes "Review of your report has resumed.")
default_message verify_for_public_update =
    some (codes "A reviewer has checked your report. Nothing has been published.")
default_message refer =
    some (codes "Your report has been referred. It remains private and nothing was published.")
default_message reopen = some (codes "Your report has been reopened for review.")
default_message record_follow_up = none

pub record DecisionRequest : Type 0 where
  pub command : Command
  pub expected_status : Status
  pub expected_version : ℕ
  pub internal_reason : Option Text
  pub reporter_message : Option Text

pub record Reviewer : Type 0 where
  pub actor_type : Actor
  pub actor_id : ℕ
  pub request_id : Option Text

pub record DecisionResult : Type 0 where
  pub report_id : ℕ
  pub event_id : ℕ
  pub previous_status : Status
  pub status : Status
  pub version : ℕ
  pub occurred_at : ℕ

-- What the call draws from the clock, the identifiers and the random source, in this order.
pub record Draws : Type 0 where
  pub now : ℕ
  pub event_id : ℕ
  pub key : Draw
  pub key_now : ℕ
  pub nonce : Bytes
  pub audit_id : ℕ
  pub audit_now : ℕ

-- What a call may raise: a problem with its field errors, or a fault that the code does not expect.
pub data Failure : Type 0 where
  problem : Problem → List FieldError → Failure
  database : DbError → Failure
  crypto : CryptoError → Failure
  key_error : Failure

abbrev pub invalid : String → String → Failure
invalid field code = problem validation_failed (record { field = field; code = code } ∷ [])

-- `c < " " and c not in "\n\t"`
abbrev pub is_control : ℕ → Bool
is_control c = ltb c 32 && not (c == 10 || c == 9)

unfoldable pub clean : Option Text → String → ℕ → Result Failure (Option Text)
clean none field maximum = ok none
clean (some value) field maximum =
    let cleaned = strip value in
    if not (leb min_text_chars (length cleaned) && leb (length cleaned) maximum)
      || any is_control cleaned
    then err (invalid field "invalid_text")
    else ok (some cleaned)

abbrev pub or_fail {ℓ} : {A : Type ℓ} → Failure → Option A → Result Failure A
or_fail e none = err e
or_fail e (some a) = ok a

abbrev pub allowed : Result NotAllowed Transition → Result Failure Transition
allowed (ok u) = ok u
allowed (err e) = err (problem report_transition_not_allowed [])

abbrev pub stored {ℓ} : {A : Type ℓ} → Result DbError A → Result Failure A
stored (ok a) = ok a
stored (err e) = err (database e)

abbrev pub keyed {ℓ} : {A : Type ℓ} → Result CryptoError A → Result Failure A
keyed (ok a) = ok a
keyed (err e) = err (crypto e)

-- The projection check orders events by time: a skewed clock never reorders history.
abbrev pub after : Option ℕ → ℕ → ℕ
after none now = now
after (some latest) now = if leb now latest then latest + 1 else now

-- `message or DEFAULT_MESSAGES[command]`
abbrev pub message_or_default : Option Text → Command → Result Failure Text
message_or_default (some (c ∷ s)) command = ok (c ∷ s)
message_or_default _ command = or_fail key_error (default_message command)

-- The ciphertext of the private reason and the identifier of its key, if there is a reason.
pub record Sealed : Type 0 where
  pub ciphertext : Option Bytes
  pub key_id : Option ℕ
  pub data_keys : List KeyRow

module _ (aead : Aead) (ring : Ring) where
  unfoldable pub seal_reason : Draws → Option Text → List KeyRow → Result Failure Sealed
  seal_reason draws none rows = ok (record { ciphertext = none; key_id = none; data_keys = rows })
  seal_reason draws (some reason) rows = do
    (key, rows') ←
        keyed
          (create aead ring draws.key draws.key_now event_table draws.event_id review_notes rows)
    ok (record {
      ciphertext = some (
          encrypt aead draws.nonce key (encode reason)
            (field_context event_table draws.event_id (codes "reason") schema_version));
      key_id = some key.id;
      data_keys = rows';
    })

-- The event that `_EVENT` inserts.
abbrev pub decision_event : Reviewer → ℕ → Draws → Status → Status → ℕ → Text → Sealed → StatusEvent
decision_event reviewer report_id draws previous new now message sealed = record {
  id = draws.event_id;
  report_id = report_id;
  previous_status = some previous;
  new_status = new;
  public_message = message;
  actor_type = reviewer.actor_type;
  actor_id = some reviewer.actor_id;
  occurred_at = now;
  reason_ciphertext = sealed.ciphertext;
  reason_key_id = sealed.key_id;
  reason_schema_version = if is_some sealed.ciphertext then some schema_version else none;
}

-- `_EVENT`, `_PROJECT` and `_VERSION`: the report as it stands afterwards, and the tables.
unfoldable pub write_event : StatusEvent → Db → Result Failure (Report × Db)
write_event event db = do
  inserted ← stored (insert_event event db)
  let projected = project event.report_id event.new_status event.occurred_at inserted
  current ← or_fail key_error (select_report event.report_id projected.reports)
  ok (current, projected)

-- The audit row of a decision.
abbrev audit_row :
    Reviewer → ℕ → Draws → DecisionRequest → Report → Transition → Bool → ℕ → AuditRow
audit_row reviewer report_id draws request row u has_reason version = record {
  id = draws.audit_id;
  occurred_at = draws.audit_now;
  actor_type = reviewer.actor_type;
  actor_id = some reviewer.actor_id;
  event = u.audit_event;
  subject_id = report_id;
  request_id = reviewer.request_id;
  details = decision_details request.command row.status u.to_status row.version version has_reason;
}

abbrev decision_result : ℕ → StatusEvent → Status → ℕ → DecisionResult
decision_result report_id event previous version = record {
  report_id = report_id;
  event_id = event.id;
  previous_status = previous;
  status = event.new_status;
  version = version;
  occurred_at = event.occurred_at;
}

module _ (aead : Aead) (ring : Ring) (reviewer : Reviewer) (report_id : ℕ) (draws : Draws) where
  -- From the transition on: seal the reason, write the event, the projection and the audit row.
  unfoldable pub apply_transition :
      DecisionRequest
      → Option Text
      → Option Text
      → Report
      → Transition
      → Db
      → Result Failure (DecisionResult × Db)
  apply_transition request reason message row u db = do
    let now = after (latest_event_at report_id db.events) draws.now
    sealed ← seal_reason aead ring draws reason db.data_keys
    shown ← message_or_default message request.command
    let event = decision_event reviewer report_id draws row.status u.to_status now shown sealed
    (current, written) ← write_event event (record db { data_keys = sealed.data_keys })
    ok (
      decision_result report_id event row.status current.version,
      record written {
        audit =
            audit_row reviewer report_id draws request row u (is_some reason) current.version
            ∷ written.audit;
      },
    )

  unfoldable pub decide : DecisionRequest → Db → Result Failure (DecisionResult × Db)
  decide request db = do
    reason ← clean request.internal_reason "internal_reason" max_reason_chars
    message ← clean request.reporter_message "reporter_message" max_message_chars
    guard (not (is_none reason && reason_required request.command))
        (invalid "internal_reason" "required")
    row ← or_fail (problem not_found []) (select_report report_id db.reports)
    guard (row.status is_status request.expected_status && row.version == request.expected_version)
        (problem report_version_conflict [])
    u ← allowed (find_transition row.status request.command reviewer.actor_type)
    apply_transition request reason message row u db

-- The unit of work around a call: the deferred trigger runs at commit, and a failure rolls back.
unfoldable pub committed :
    ℕ → Db → Result Failure (DecisionResult × Db) → Result Failure DecisionResult × Db
committed report_id db (err e) = (err e, db)
committed report_id db (ok (result, written)) =
    if projection_holds report_id written
    then (ok result, written)
    else (err (database projection_violation), db)
