-- ===== src/Worker/Machine.antt =====
-- The status machine of discovery runs (services/platform/src/shaidago/worker/machine.py) and the
-- moves that the database's trigger lets through (app.discovery_runs_guard of
-- services/platform/migrations/versions/0021_discovery_runs.py).
pub mod Laws
mod Examples
use shaidago.Base.{
  ℕ, Bool, true, false, ◌&&◌, ◌||◌, not, List, [], ◌∷◌, Option, none, some, Result, ok, err, any,
}
use shaidago.Report.Machine.{Actor, reviewer, admin, reporter, worker, ◌is_actor◌}

pub data Status : Type 0 where
  queued searching analysing needs_review complete failed cancelled : Status

pub data Command : Type 0 where
  start_search cancel fail start_analysis complete_run require_review approve_completion
        reject_run :
      Command

pub data AuditEvent : Type 0 where
  discovery_search_started discovery_cancelled discovery_failed discovery_analysis_started
        discovery_completed :
      AuditEvent
  discovery_review_required discovery_review_completed : AuditEvent

infix 50 ◌is_status◌ ◌is_command◌
abbrev pub ◌is_status◌ : Status → Status → Bool
queued is_status queued = true
searching is_status searching = true
analysing is_status analysing = true
needs_review is_status needs_review = true
complete is_status complete = true
failed is_status failed = true
cancelled is_status cancelled = true
_ is_status _ = false

abbrev pub ◌is_command◌ : Command → Command → Bool
start_search is_command start_search = true
cancel is_command cancel = true
fail is_command fail = true
start_analysis is_command start_analysis = true
complete_run is_command complete_run = true
require_review is_command require_review = true
approve_completion is_command approve_completion = true
reject_run is_command reject_run = true
_ is_command _ = false

-- `TERMINAL` and `ACTIVE`.
abbrev pub terminal : Status → Bool
terminal complete = true
terminal failed = true
terminal cancelled = true
terminal _ = false

abbrev pub active : Status → Bool
active queued = true
active searching = true
active analysing = true
active _ = false

pub record Transition : Type 0 where
  pub from_status : Status
  pub command : Command
  pub to_status : Status
  pub actors : List Actor
  pub audit_event : AuditEvent

abbrev by_worker : List Actor
by_worker = worker ∷ []

abbrev by_staff : List Actor
by_staff = reviewer ∷ admin ∷ []

abbrev by_canceller : List Actor
by_canceller = reporter ∷ reviewer ∷ admin ∷ []

abbrev move : Status → Command → Status → List Actor → AuditEvent → Transition
move source command target actors event = record {
  from_status = source;
  command = command;
  to_status = target;
  actors = actors;
  audit_event = event;
}

abbrev pub transitions : List Transition
transitions =
    move queued start_search searching by_worker discovery_search_started
    ∷ move queued cancel cancelled by_canceller discovery_cancelled
    ∷ move queued fail failed by_worker discovery_failed
    ∷ move searching start_analysis analysing by_worker discovery_analysis_started
    ∷ move searching cancel cancelled by_canceller discovery_cancelled
    ∷ move searching fail failed by_worker discovery_failed
    ∷ move analysing complete_run complete by_worker discovery_completed
    ∷ move analysing require_review needs_review by_worker discovery_review_required
    ∷ move analysing cancel cancelled by_canceller discovery_cancelled
    ∷ move analysing fail failed by_worker discovery_failed
    ∷ move needs_review approve_completion complete by_staff discovery_review_completed
    ∷ move needs_review reject_run failed by_staff discovery_failed
    ∷ move needs_review cancel cancelled by_staff discovery_cancelled
    ∷ []

-- What `_BY_KEY` holds under a key: a dictionary built from a list keeps the last item of a key.
unfoldable pub by_key : Status → Command → List Transition → Option Transition
by_key status command [] = none
by_key status command (u ∷ us) = elim (by_key status command us) [
  | some later ↦ some later
  | none ↦ elim (u.from_status is_status status && u.command is_command command) [
    | true ↦ some u
    | false ↦ none
  ]
]

pub data NotAllowed : Type 0 where
  discovery_transition_not_allowed : NotAllowed

abbrev permitted : Actor → Option Transition → Result NotAllowed Transition
permitted actor none = err discovery_transition_not_allowed
permitted actor (some u) = elim (any (λ a. a is_actor actor) u.actors) [
  | true ↦ ok u
  | false ↦ err discovery_transition_not_allowed
]

unfoldable pub find_transition : Status → Command → Actor → Result NotAllowed Transition
unfolding by_key
find_transition status command actor = permitted actor (by_key status command transitions)

-- The second test of the trigger: the moves between different statuses that are legal.
unfoldable pub guard_allows : Status → Status → Bool
guard_allows old new =
    (old is_status queued
      && (new is_status searching || new is_status cancelled || new is_status failed))
    || (old is_status searching
        && (new is_status analysing || new is_status cancelled || new is_status failed))
    || (old is_status analysing
        && (new is_status complete
            || new is_status needs_review
            || new is_status cancelled
            || new is_status failed))
    || (old is_status needs_review
        && (new is_status complete || new is_status failed || new is_status cancelled))
