-- ===== src/Report/Machine.antt =====
-- The report status machine (services/platform/src/shaidago/review/state_machine.py), and the pairs
-- of statuses that the database admits (services/platform/migrations/versions/0010_private_reports.py).
pub mod Laws
mod Examples
use Prim.Native.String.{String}
use shaidago.Base.{
  Bool, true, false, ◌&&◌, ◌||◌, List, [], ◌∷◌, Option, none, some, any, Result, ok, err,
}

pub data Status : Type 0 where
  received needs_information under_review verified_for_public_update referred closed : Status

pub data Command : Type 0 where
  request_information start_review close record_follow_up resume_review : Command
  verify_for_public_update refer reopen : Command

pub data Actor : Type 0 where
  reviewer admin reporter system worker : Actor

infix 50 ◌is_status◌ ◌is_command◌ ◌is_actor◌
abbrev pub ◌is_status◌ : Status → Status → Bool
received is_status received = true
needs_information is_status needs_information = true
under_review is_status under_review = true
verified_for_public_update is_status verified_for_public_update = true
referred is_status referred = true
closed is_status closed = true
_ is_status _ = false

abbrev pub ◌is_command◌ : Command → Command → Bool
request_information is_command request_information = true
start_review is_command start_review = true
close is_command close = true
record_follow_up is_command record_follow_up = true
resume_review is_command resume_review = true
verify_for_public_update is_command verify_for_public_update = true
refer is_command refer = true
reopen is_command reopen = true
_ is_command _ = false

abbrev pub ◌is_actor◌ : Actor → Actor → Bool
reviewer is_actor reviewer = true
admin is_actor admin = true
reporter is_actor reporter = true
system is_actor system = true
worker is_actor worker = true
_ is_actor _ = false

pub data AuditEvent : Type 0 where
  report_status_changed report_status_reopened report_follow_up_received : AuditEvent

pub record Transition : Type 0 where
  pub from_status : Status
  pub command : Command
  pub to_status : Status
  pub actors : List Actor
  pub audit_event : AuditEvent

abbrev pub staff : List Actor
staff = reviewer ∷ admin ∷ []

abbrev t : Status → Command → Status → AuditEvent → Transition
t source command target event = record {
  from_status = source;
  command = command;
  to_status = target;
  actors = staff;
  audit_event = event;
}

abbrev pub transitions : List Transition
transitions =
    t received request_information needs_information report_status_changed
    ∷ t received start_review under_review report_status_changed
    ∷ t received close closed report_status_changed
    ∷ record {
      from_status = needs_information;
      command = record_follow_up;
      to_status = under_review;
      actors = reporter ∷ [];
      audit_event = report_follow_up_received;
    }
    ∷ t needs_information resume_review under_review report_status_changed
    ∷ t needs_information close closed report_status_changed
    ∷ t under_review request_information needs_information report_status_changed
    ∷ t under_review verify_for_public_update verified_for_public_update report_status_changed
    ∷ t under_review refer referred report_status_changed
    ∷ t under_review close closed report_status_changed
    ∷ t verified_for_public_update resume_review under_review report_status_reopened
    ∷ t verified_for_public_update refer referred report_status_changed
    ∷ t verified_for_public_update close closed report_status_changed
    ∷ t referred resume_review under_review report_status_reopened
    ∷ t referred close closed report_status_changed
    ∷ t closed reopen under_review report_status_reopened
    ∷ []

-- `REASON_REQUIRED`.
abbrev pub reason_required : Command → Bool
reason_required reopen = true
reason_required _ = false

-- What `_BY_KEY` holds under a key: a dictionary built from a list keeps the last item of a key.
unfoldable pub by_key : Status → Command → List Transition → Option Transition
by_key status command [] = none
by_key status command (u ∷ us) = elim (by_key status command us) [
  | some later ↦ some later
  | none ↦ elim (u.from_status is_status status && u.command is_command command) [
    | true ↦ some u
    | false ↦ none
  ]
]

pub data NotAllowed : Type 0 where
  transition_not_allowed : NotAllowed

abbrev permitted : Actor → Option Transition → Result NotAllowed Transition
permitted actor none = err transition_not_allowed
permitted actor (some u) = elim (any (λ a. a is_actor actor) u.actors) [
  | true ↦ ok u
  | false ↦ err transition_not_allowed
]

-- Deny by default.
unfoldable pub find_transition : Status → Command → Actor → Result NotAllowed Transition
unfolding by_key
find_transition status command actor = permitted actor (by_key status command transitions)

-- `TRANSITIONS` of the migration: every (previous, new) pair that a status event may carry.
abbrev pub legal_pairs : List (Status × Status)
legal_pairs =
    (closed, under_review)
    ∷ (needs_information, closed)
    ∷ (needs_information, under_review)
    ∷ (received, closed)
    ∷ (received, needs_information)
    ∷ (received, under_review)
    ∷ (referred, closed)
    ∷ (referred, under_review)
    ∷ (under_review, closed)
    ∷ (under_review, needs_information)
    ∷ (under_review, referred)
    ∷ (under_review, verified_for_public_update)
    ∷ (verified_for_public_update, closed)
    ∷ (verified_for_public_update, referred)
    ∷ (verified_for_public_update, under_review)
    ∷ []

-- `(previous_status, new_status) IN (…)` of `ck_report_status_events_transition`.
abbrev pub is_legal : Status → Status → Bool
is_legal previous new = any (λ p. p.0 is_status previous && p.1 is_status new) legal_pairs
