-- ===== src/Report/Tables.antt =====
-- The tables of a private report: app.reports and app.report_status_events with their check
-- constraints, the trigger that raises a report's version and the deferred trigger that holds a
-- report's status to its newest status event
-- (services/platform/migrations/versions/0010_private_reports.py, 0014_reviewer_queue.py,
-- 0015_status_event_reason.py), and the audit events (services/platform/src/shaidago/audit/events.py).
-- A table is the list of its rows, the last one inserted first; times are microseconds.
pub mod Laws
use Prim.Native.String.{String}
use shaidago.Base.{
  ℕ, suc, ◌+◌, Bool, true, false, ◌&&◌, ◌||◌, not, List, [], ◌∷◌, Option, none, some, Result, ok,
  err, length, any, leb, ltb, ◌==◌, if◌then◌else◌, is_none, is_some, Text, map,
}
use shaidago.Crypto.{Bytes, KeyRow, has_key}
use shaidago.Report.Machine.{
  Status, received, ◌is_status◌, is_legal, Command, Actor, reviewer, admin, reporter, system,
  worker, AuditEvent,
}

pub data RiskLevel : Type 0 where
  standard elevated high : RiskLevel

abbrev is_risk : RiskLevel → RiskLevel → Bool
is_risk standard standard = true
is_risk elevated elevated = true
is_risk high high = true
is_risk _ _ = false

-- A row of app.reports, less its encrypted description and its fixed subject.
pub record Report : Type 0 where
  pub id : ℕ
  pub status : Status
  pub version : ℕ
  pub risk_level : RiskLevel
  pub reporter_handle_id : Option ℕ
  pub status_updated_at : ℕ
  pub updated_at : ℕ

pub record StatusEvent : Type 0 where
  pub id : ℕ
  pub report_id : ℕ
  pub previous_status : Option Status
  pub new_status : Status
  pub public_message : Text
  pub actor_type : Actor
  pub actor_id : Option ℕ
  pub occurred_at : ℕ
  pub reason_ciphertext : Option Bytes
  pub reason_key_id : Option ℕ
  pub reason_schema_version : Option ℕ

-- The details of an audit event, by the operation that records it.
pub data Details : Type 0 where
  decision_details : Command → Status → Status → ℕ → ℕ → Bool → Details
  answer_details : String → Details

pub record AuditRow : Type 0 where
  pub id : ℕ
  pub occurred_at : ℕ
  pub actor_type : Actor
  pub actor_id : Option ℕ
  pub event : AuditEvent
  pub subject_id : ℕ
  pub request_id : Option Text
  pub details : Details

pub record Db : Type 0 where
  pub reports : List Report
  pub events : List StatusEvent
  pub data_keys : List KeyRow
  pub audit : List AuditRow

-- A constraint that a statement violates, or a trigger that refuses at commit.
pub data DbError : Type 0 where
  unique_violation foreign_key_violation check_violation projection_violation : DbError

-- `SELECT … FROM app.reports WHERE id = :id`
unfoldable pub select_report : ℕ → List Report → Option Report
select_report i [] = none
select_report i (r ∷ rs) = if r.id == i then some r else select_report i rs

-- `max(e.occurred_at) … WHERE e.report_id = r.id`
abbrev pub later : ℕ → Option ℕ → ℕ
later n none = n
later n (some m) = if ltb n m then m else n

unfoldable pub latest_event_at : ℕ → List StatusEvent → Option ℕ
latest_event_at i [] = none
latest_event_at i (e ∷ es) =
    let rest = latest_event_at i es in
    if e.report_id == i then some (later e.occurred_at rest) else rest

-- `ORDER BY occurred_at DESC, id DESC LIMIT 1`
abbrev pub newer : StatusEvent → Option StatusEvent → StatusEvent
newer e none = e
newer e (some f) =
    if ltb e.occurred_at f.occurred_at || (e.occurred_at == f.occurred_at && ltb e.id f.id)
    then f
    else e

unfoldable pub newest : ℕ → List StatusEvent → Option StatusEvent
newest i [] = none
newest i (e ∷ es) = let rest = newest i es in if e.report_id == i then some (newer e rest) else rest

abbrev pub status_of : Option StatusEvent → Option Status
status_of none = none
status_of (some e) = some e.new_status

-- `ck_report_status_events_actor_type`: the machine's workers never write an event.
abbrev event_actor : Actor → Bool
event_actor worker = false
event_actor _ = true

-- `ck_report_status_events_transition`
abbrev transition_check : Option Status → Status → Bool
transition_check none new = new is_status received
transition_check (some previous) new = is_legal previous new

abbrev staff_actor : Actor → Bool
staff_actor reviewer = true
staff_actor admin = true
staff_actor _ = false

abbrev at_least_one : Option ℕ → Bool
at_least_one none = false
at_least_one (some n) = leb 1 n

abbrev ciphertext_check : Option Bytes → Bool
ciphertext_check none = false
ciphertext_check (some b) = leb 29 (length b) && leb (length b) 16384

-- `ck_report_status_events_reason`
abbrev reason_check : StatusEvent → Bool
reason_check e =
    (is_none e.reason_ciphertext && is_none e.reason_key_id && is_none e.reason_schema_version)
    || (ciphertext_check e.reason_ciphertext
        && is_some e.reason_key_id
        && at_least_one e.reason_schema_version
        && staff_actor e.actor_type)

unfoldable pub event_check : StatusEvent → Bool
event_check e =
    leb (length e.public_message) 500
    && event_actor e.actor_type
    && transition_check e.previous_status e.new_status
    && reason_check e

unfoldable pub has_event : ℕ → List StatusEvent → Bool
has_event i [] = false
has_event i (e ∷ es) = e.id == i || has_event i es

-- `INSERT INTO app.report_status_events`
unfoldable pub insert_event : StatusEvent → Db → Result DbError Db
unfolding event_check has_event
insert_event e db =
    if not (event_check e)
    then err check_violation
    else if has_event e.id db.events
    then err unique_violation
    else if is_none (select_report e.report_id db.reports)
        || not (has_key e.reason_key_id db.data_keys)
    then err foreign_key_violation
    else ok (record db { events = e ∷ db.events })

-- The trigger `reports_bump_version`, before the update of a row.
unfoldable pub bump_report_version : Report → Report → Report
bump_report_version old new =
    if old.status is_status new.status && is_risk old.risk_level new.risk_level
    then record new { version = old.version }
    else record new { version = suc old.version }

-- `UPDATE app.reports SET status = …, status_updated_at = …, updated_at = … WHERE id = …`
unfoldable pub set_status : ℕ → Status → ℕ → Report → Report
unfolding bump_report_version
set_status i new now r =
    if r.id == i
    then bump_report_version r
        (record r { status = new; status_updated_at = now; updated_at = now })
    else r

unfoldable pub project : ℕ → Status → ℕ → Db → Db
unfolding set_status
project i new now db = record db { reports = map (set_status i new now) db.reports }

abbrev pub same_status : Option Status → Option Status → Bool
same_status none none = true
same_status (some a) (some b) = a is_status b
same_status _ _ = false

abbrev pub report_status : Option Report → Option Status
report_status none = none
report_status (some r) = some r.status

-- `enforce_report_status_projection` for one report, at the end of a transaction that changed it.
unfoldable pub projection_holds : ℕ → Db → Bool
unfolding newest select_report
projection_holds i db =
    same_status (status_of (newest i db.events)) (report_status (select_report i db.reports))
