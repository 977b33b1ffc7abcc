-- ===== src/Worker/Store.antt =====
-- A run's row and the statements of `RunStore` (services/platform/src/shaidago/worker/store.py), with
-- the trigger of app.discovery_runs (services/platform/migrations/versions/0021_discovery_runs.py).
-- Every statement names the run by its primary key, so the store is the row of that run. Each method
-- is a unit of work of its own: what others do to the row between two of them, and the clock, are
-- given by the number of the unit of work.
pub mod Lease
pub mod Moves
mod Examples
use shaidago.Base.{
  ℕ, suc, ◌+◌, Bool, true, false, ◌&&◌, ◌||◌, not, List, [], ◌∷◌, Option, none, some, Result, ok,
  err, ltb, ◌==◌, if◌then◌else◌, is_none, Text,
}
use shaidago.Report.Machine.{Actor}
use shaidago.Worker.Machine.{
  Status, searching, failed, Command, AuditEvent, Transition, NotAllowed, ◌is_status◌, terminal,
  active, find_transition, guard_allows,
}

-- `LEASE_SECONDS` in microseconds.
abbrev pub lease : ℕ
lease = 300000000

abbrev pub max_attempts : ℕ
max_attempts = 5

-- A row of app.discovery_runs, less the fixed columns, the query and the analysis.
pub record Run : Type 0 where
  pub status : Status
  pub attempts : ℕ
  pub lease_owner : Option ℕ
  pub lease_expires_at : Option ℕ
  pub cancel_requested : Bool
  pub failure_code : Option Text
  pub results_found : ℕ
  pub fetched_count : ℕ
  pub analysed_count : ℕ
  pub version : ℕ
  pub started_at : Option ℕ
  pub finished_at : Option ℕ
  pub updated_at : ℕ

-- The audit event that a transition records, always the worker's.
pub record RunAudit : Type 0 where
  pub occurred_at : ℕ
  pub event : AuditEvent
  pub from_status : Status
  pub to_status : Status
  pub failure_code : Option Text

-- The row, if it is there, the audit events, and how many units of work there were.
pub record World : Type 0 where
  pub row : Option Run
  pub audit : List RunAudit
  pub tick : ℕ

pub record Env : Type 0 where
  pub clock : ℕ → ℕ
  pub others : ℕ → Option Run → Option Run

-- What ends a job early: the exceptions that pass through the code.
pub data Stop : Type 0 where
  not_allowed lost_run refused transient out_of_fuel : Stop
  permanent : Text → Stop

abbrev pub Job {ℓ} : Type ℓ → Type ℓ
Job A = Result Stop A × World

abbrev pub then_do {ℓ κ} : {A : Type ℓ} {B : Type κ} → Job A → (A → World → Job B) → Job B
then_do (ok a, w) f = f a w
then_do (err e, w) f = (err e, w)

-- A new unit of work: others have been at the row since the last one.
abbrev pub arrive : Env → World → World
arrive env w = record w { row = env.others w.tick w.row; tick = suc w.tick }

-- `app.discovery_runs_guard` before an update, and the check that a failed run has a code.
unfoldable pub guard_update : Run → Run → Option Run
guard_update old new =
    if not (old.status is_status new.status) && not (guard_allows old.status new.status)
    then none
    else if terminal old.status
    then none
    else if new.status is_status failed && is_none new.failure_code
    then none
    else some (record new { version = suc old.version })

abbrev pub same_owner : Option ℕ → ℕ → Bool
same_owner none owner = false
same_owner (some o) owner = o == owner

-- `lease_expires_at < :now`, never true of a null.
abbrev pub expired : Option ℕ → ℕ → Bool
expired none now = false
expired (some e) now = ltb e now

-- `_ACQUIRE` on the row: who may take the lease, and the row then.
abbrev pub may_acquire : ℕ → ℕ → Run → Bool
may_acquire owner now r =
    active r.status
    && (is_none r.lease_owner || same_owner r.lease_owner owner || expired r.lease_expires_at now)

abbrev pub leased : ℕ → ℕ → Run → Run
leased owner now r = record r {
  lease_owner = some owner;
  lease_expires_at = some (now + lease);
  attempts = suc r.attempts;
  updated_at = now;
}

unfoldable pub acquire_row : ℕ → ℕ → Option Run → Option Run
acquire_row owner now none = none
acquire_row owner now (some r) =
    if may_acquire owner now r then guard_update r (leased owner now r) else none

abbrev pub attempts_of : Option Run → Option ℕ
attempts_of none = none
attempts_of (some r) = some r.attempts

abbrev pub or_row : Option Run → Option Run → Option Run
or_row none old = old
or_row (some r) old = some r

unfoldable pub acquire : Env → ℕ → World → Option ℕ × World
unfolding acquire_row guard_update
acquire env owner w =
    let here = arrive env w in
    let taken = acquire_row owner (env.clock w.tick) here.row in
    (attempts_of taken, record here { row = or_row taken here.row })

abbrev pub load : Env → World → Option Run × World
load env w = ((arrive env w).row, arrive env w)

abbrev pub or_now : Option ℕ → Bool → ℕ → Option ℕ
or_now (some t) b now = some t
or_now none b now = if b then some now else none

-- The row that `_TRANSITION` writes.
abbrev pub moved : Status → Option Text → ℕ → Run → Run
moved new code now r = record r {
  status = new;
  updated_at = now;
  started_at = or_now r.started_at (new is_status searching) now;
  finished_at = if terminal new then some now else r.finished_at;
  failure_code = code;
  lease_owner = if terminal new then none else r.lease_owner;
  lease_expires_at = if terminal new then none else r.lease_expires_at;
}

abbrev pub allowed : World → Result NotAllowed Transition → Job Transition
allowed w (ok u) = (ok u, w)
allowed w (err e) = (err not_allowed, w)

abbrev pub loaded : Option Run × World → Job Run
loaded (none, w) = (err lost_run, w)
loaded (some r, w) = (ok r, w)

-- The update, refused by the trigger or the check, and the audit event beside it.
abbrev pub written : World → RunAudit → Option Run → Job (Unit {0})
written w event none = (err refused, w)
written w event (some r) = (ok tt, record w { row = some r; audit = event ∷ w.audit })

-- `WHERE id = :id AND status = :old`
abbrev pub update_status :
    World → Status → Status → Option Text → ℕ → RunAudit → Option Run → Job (Unit {0})
update_status w old new code now event none = (err lost_run, w)
update_status w old new code now event (some r) =
    if r.status is_status old
    then written w event (guard_update r (moved new code now r))
    else (err lost_run, w)

abbrev pub transition_event : ℕ → Run → Transition → Option Text → RunAudit
transition_event now view u code = record {
  occurred_at = now;
  event = u.audit_event;
  from_status = view.status;
  to_status = u.to_status;
  failure_code = code;
}

-- `RunStore.transition` of a run as it was read, on behalf of an actor.
unfoldable pub transition : Env → Run → Command → Option Text → Actor → World → Job Run
transition env view command code actor w =
    then_do (allowed w (find_transition view.status command actor)) λ u w0.
      let here = arrive env w0 in
      let now = env.clock w0.tick in
      then_do
        (update_status here view.status u.to_status code now (transition_event now view u code)
          here.row)
        λ _ w1. loaded (load env w1)

-- An update that the trigger may refuse, on the row if it is there.
abbrev pub guarded : World → Run → Option Run → Job (Unit {0})
guarded w r none = (err refused, w)
guarded w r (some r') = (ok tt, record w { row = some r' })

abbrev pub progress_row : World → ℕ → ℕ → ℕ → ℕ → Option Run → Job (Unit {0})
progress_row w found fetched analysed now none = (ok tt, w)
progress_row w found fetched analysed now (some r) = guarded w r (
    guard_update r (record r {
      results_found = found;
      fetched_count = fetched;
      analysed_count = analysed;
      updated_at = now;
    }))

unfoldable pub progress : Env → ℕ → ℕ → ℕ → World → Job (Unit {0})
unfolding guard_update
progress env found fetched analysed w =
    progress_row (arrive env w) found fetched analysed (env.clock w.tick) (arrive env w).row

abbrev pub release_row : World → ℕ → ℕ → Option Run → Job (Unit {0})
release_row w owner now none = (ok tt, w)
release_row w owner now (some r) =
    if same_owner r.lease_owner owner && not (terminal r.status)
    then guarded w r (
        guard_update r (record r { lease_owner = none; lease_expires_at = none; updated_at = now }))
    else (ok tt, w)

unfoldable pub release : Env → ℕ → World → Job (Unit {0})
unfolding guard_update
release env owner w = release_row (arrive env w) owner (env.clock w.tick) (arrive env w).row
