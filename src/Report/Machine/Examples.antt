-- ===== src/Report/Machine/Examples.antt =====
-- The status machine at work.
use shaidago.Base.{◌≡◌, refl, err}
use shaidago.Report.Machine.{
  received, needs_information, close, record_follow_up, reviewer, system, transition_not_allowed,
  find_transition,
}

reviewer_may_not_answer :
    find_transition needs_information record_follow_up reviewer ≡ err transition_not_allowed
unfolding find_transition
reviewer_may_not_answer = refl

system_may_not_close : find_transition received close system ≡ err transition_not_allowed
unfolding find_transition
system_may_not_close = refl
