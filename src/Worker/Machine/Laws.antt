-- ===== src/Worker/Machine/Laws.antt =====
-- Where a run may go, by whom, and that it only ever goes forward.
use shaidago.Base.{ℕ, ◌<◌, ◌≡◌, refl, ◌≢◌, ◌↔◌, ◌⊎◌, true, false, ok, arith}
use shaidago.Report.Machine.{Actor, reviewer, admin, worker}
use shaidago.Worker.Machine.{
  Status, queued, searching, analysing, needs_review, complete, failed, cancelled, Command,
  start_search, cancel, fail, start_analysis, complete_run, require_review, approve_completion,
  reject_run, Transition, find_transition, guard_allows, terminal,
}

-- How far a run has come.
abbrev pub rank : Status → ℕ
rank queued = 0
rank searching = 1
rank analysing = 2
rank needs_review = 3
rank _ = 4

-- Some actor's command leads from one status to the other.
pub record Leads (s t : Status) : Type 0 where
  pub command : Command
  pub actor : Actor
  pub transition : Transition
  pub found : find_transition s command actor ≡ ok transition
  pub target : transition.to_status ≡ t

module _ (s t : Status) (c : Command) (a : Actor) {u : Transition} where
  lead : find_transition s c a ≡ ok u → u.to_status ≡ t → Leads s t
  lead f e = record { command = c; actor = a; transition = u; found = f; target = e }

-- A transition that is found starts at the status asked for and answers the command; it brings the
-- run forward, from a status that is not terminal, and the trigger of the database lets it through.
pub find_transition_forward :
    (s : Status) (c : Command) (a : Actor) {u : Transition}
    → find_transition s c a ≡ ok u
    → (u.from_status ≡ s)
      × (u.command ≡ c)
      × (rank s < rank u.to_status)
      × (terminal s ≡ false)
      × (guard_allows s u.to_status ≡ true)
unfolding find_transition guard_allows
find_transition_forward queued c a h = ground arith
find_transition_forward _ c a h = ground arith

guard_allows-Leads : (s t : Status) → guard_allows s t ≡ true → Leads s t
unfolding find_transition guard_allows
guard_allows-Leads queued searching h = lead _ _ start_search worker refl refl
guard_allows-Leads queued cancelled h = lead _ _ cancel reviewer refl refl
guard_allows-Leads queued failed h = lead _ _ fail worker refl refl
guard_allows-Leads searching analysing h = lead _ _ start_analysis worker refl refl
guard_allows-Leads searching cancelled h = lead _ _ cancel reviewer refl refl
guard_allows-Leads searching failed h = lead _ _ fail worker refl refl
guard_allows-Leads analysing complete h = lead _ _ complete_run worker refl refl
guard_allows-Leads analysing needs_review h = lead _ _ require_review worker refl refl
guard_allows-Leads analysing cancelled h = lead _ _ cancel reviewer refl refl
guard_allows-Leads analysing failed h = lead _ _ fail worker refl refl
guard_allows-Leads needs_review complete h = lead _ _ approve_completion reviewer refl refl
guard_allows-Leads needs_review failed h = lead _ _ reject_run reviewer refl refl
guard_allows-Leads needs_review cancelled h = lead _ _ cancel reviewer refl refl
guard_allows-Leads _ _ h = cc

Leads-guard_allows : (s t : Status) → Leads s t → guard_allows s t ≡ true
Leads-guard_allows s t l =
    ground (arith, find_transition_forward s l.command l.actor {u = l.transition} l.found)

-- The moves that the database's trigger lets through are exactly those that the machine makes, for
-- some command and actor.
pub guard_allows_iff : (s t : Status) → (guard_allows s t ≡ true) ↔ Leads s t
guard_allows_iff s t = (guard_allows-Leads s t, Leads-guard_allows s t)

-- Only a reviewer or an admin moves a run that needs review, and the worker makes every other move
-- but a cancellation, which it never makes in its own name.
pub find_transition-decider :
    (s : Status) (c : Command) (a : Actor) {u : Transition}
    → find_transition s c a ≡ ok u
    → (s ≡ needs_review → (a ≡ reviewer) ⊎ (a ≡ admin))
      × ((a ≡ worker) ↔ ((s ≢ needs_review) × (c ≢ cancel)))
unfolding find_transition
find_transition-decider queued c a h = ground arith
find_transition-decider _ c a h = ground arith
