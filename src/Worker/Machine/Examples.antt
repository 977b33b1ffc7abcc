-- ===== src/Worker/Machine/Examples.antt =====
-- The machine of runs at work.
use shaidago.Base.{◌≡◌, refl, err}
use shaidago.Report.Machine.{worker}
use shaidago.Worker.Machine.{
  needs_review, approve_completion, find_transition, discovery_transition_not_allowed,
}

worker_may_not_approve :
    find_transition needs_review approve_completion worker ≡ err discovery_transition_not_allowed
unfolding find_transition
worker_may_not_approve = refl
