-- ===== src/Report/Machine/Laws.antt =====
-- What the status machine of reports allows: who may drive it, where it leads, and that it and the
-- database's list of pairs say the same.
use shaidago.Base.{◌≡◌, refl, ◌≢◌, ◌↔◌, ◌⊎◌, true, sym, ◌∙◌, ok, arith}
use shaidago.Report.Machine.{
  Status, received, needs_information, under_review, verified_for_public_update, referred, closed,
  Command, request_information, start_review, close, record_follow_up, resume_review,
  verify_for_public_update, refer, reopen, Actor, reviewer, admin, reporter, Transition,
  find_transition, is_legal, reason_required,
}

-- A transition that is found starts at the status asked for, answers the command and leads to
-- another status than the one it starts at; the database admits the pair.
pub find_transition_sound :
    (s : Status) (c : Command) (a : Actor) {u : Transition}
    → find_transition s c a ≡ ok u
    → (u.from_status ≡ s) × (u.command ≡ c) × (u.to_status ≢ s) × (is_legal s u.to_status ≡ true)
unfolding find_transition
find_transition_sound received c a h = ground arith
find_transition_sound _ c a h = ground arith

-- Some actor's command leads from one status to the other.
pub record Leads (s t : Status) : Type 0 where
  pub command : Command
  pub actor : Actor
  pub transition : Transition
  pub found : find_transition s command actor ≡ ok transition
  pub target : transition.to_status ≡ t

module _ (s t : Status) (c : Command) {u : Transition} where
  lead : find_transition s c reviewer ≡ ok u → u.to_status ≡ t → Leads s t
  lead f e = record { command = c; actor = reviewer; transition = u; found = f; target = e }

is_legal-Leads : (s t : Status) → is_legal s t ≡ true → Leads s t
unfolding find_transition
is_legal-Leads received needs_information h = lead _ _ request_information refl refl
is_legal-Leads received under_review h = lead _ _ start_review refl refl
is_legal-Leads received closed h = lead _ _ close refl refl
is_legal-Leads needs_information under_review h = lead _ _ resume_review refl refl
is_legal-Leads needs_information closed h = lead _ _ close refl refl
is_legal-Leads under_review needs_information h = lead _ _ request_information refl refl
is_legal-Leads under_review verified_for_public_update h =
    lead _ _ verify_for_public_update refl refl
is_legal-Leads under_review referred h = lead _ _ refer refl refl
is_legal-Leads under_review closed h = lead _ _ close refl refl
is_legal-Leads verified_for_public_update under_review h = lead _ _ resume_review refl refl
is_legal-Leads verified_for_public_update referred h = lead _ _ refer refl refl
is_legal-Leads verified_for_public_update closed h = lead _ _ close refl refl
is_legal-Leads referred under_review h = lead _ _ resume_review refl refl
is_legal-Leads referred closed h = lead _ _ close refl refl
is_legal-Leads closed under_review h = lead _ _ reopen refl refl
is_legal-Leads _ _ h = cc

Leads-is_legal : (s t : Status) → Leads s t → is_legal s t ≡ true
Leads-is_legal s t l =
    ground (arith, find_transition_sound s l.command l.actor {u = l.transition} l.found)

-- The status pairs that the database's check constraint admits are exactly those between which a
-- transition of the machine leads, for some command and actor.
pub is_legal_iff : (s t : Status) → (is_legal s t ≡ true) ↔ Leads s t
is_legal_iff s t = (is_legal-Leads s t, Leads-is_legal s t)

-- Every transition but `record_follow_up` is driven by a reviewer or an admin alone, and
-- `record_follow_up` by the reporter alone, from `needs_information` to `under_review`.
pub find_transition-actor :
    (s : Status) (c : Command) (a : Actor) {u : Transition}
    → find_transition s c a ≡ ok u
    → ((c ≡ record_follow_up)
        × (a ≡ reporter)
        × (s ≡ needs_information)
        × (u.to_status ≡ under_review))
      ⊎ ((c ≢ record_follow_up) × ((a ≡ reviewer) ⊎ (a ≡ admin)))
unfolding find_transition
find_transition-actor received c a h = ground arith
find_transition-actor _ c a h = ground arith

-- A closed report is left by `reopen` alone, to `under_review`, and `reopen` needs a reason and
-- starts nowhere else.
pub reopen_iff :
    (s : Status) (c : Command) (a : Actor) {u : Transition}
    → find_transition s c a ≡ ok u
    → ((s ≡ closed) ↔ (reason_required c ≡ true)) × (s ≡ closed → u.to_status ≡ under_review)
unfolding find_transition
reopen_iff received c a h = ground arith
reopen_iff _ c a h = ground arith

-- The statuses that a reviewer's commands lead to, one after another.
pub data ReviewerReach : Status → Status → Type 0 where
  here : {s : Status} → ReviewerReach s s
  step :
      {s t v : Status} (c : Command) {u : Transition}
      → find_transition s c reviewer ≡ ok u
      → u.to_status ≡ t
      → ReviewerReach t v
      → ReviewerReach s v

to_under_review : (s : Status) → ReviewerReach s under_review
unfolding find_transition
to_under_review received = step start_review refl refl here
to_under_review needs_information = step resume_review refl refl here
to_under_review under_review = here
to_under_review verified_for_public_update = step resume_review refl refl here
to_under_review referred = step resume_review refl refl here
to_under_review closed = step reopen refl refl here

from_under_review : (t : Status) → t ≢ received → ReviewerReach under_review t
unfolding find_transition
from_under_review received h = absurd (h refl)
from_under_review needs_information h = step request_information refl refl here
from_under_review under_review h = here
from_under_review verified_for_public_update h = step verify_for_public_update refl refl here
from_under_review referred h = step refer refl refl here
from_under_review closed h = step close refl refl here

ReviewerReach-trans : {s t v : Status} → ReviewerReach s t → ReviewerReach t v → ReviewerReach s v
ReviewerReach-trans here r = r
ReviewerReach-trans (step c f e q) r = step c f e (ReviewerReach-trans q r)

-- A transition never leads back to `received`.
find_transition-ne_received :
    (s : Status) (c : Command) {u : Transition}
    → find_transition s c reviewer ≡ ok u
    → u.to_status ≢ received
unfolding find_transition
find_transition-ne_received received c h = ground arith
find_transition-ne_received _ c h = ground arith

ReviewerReach-received : {s t : Status} → ReviewerReach s t → t ≡ received → s ≡ received
ReviewerReach-received here e = e
ReviewerReach-received (step {s} {t} c {u} f e r) last =
    let back : t ≡ received = ReviewerReach-received r last in
    absurd (find_transition-ne_received s c f (e ∙ back))

-- A reviewer's commands lead from every status to every other status but `received`, which is left
-- for good: no report is ever stuck, and none becomes new again.
pub ReviewerReach-iff : (s t : Status) → s ≢ t → ReviewerReach s t ↔ (t ≢ received)
ReviewerReach-iff s t n = (
  λ r e. n (ReviewerReach-received r e ∙ sym e),
  λ h. ReviewerReach-trans (to_under_review s) (from_under_review t h),
)
