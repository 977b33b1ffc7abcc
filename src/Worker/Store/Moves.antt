-- ===== src/Worker/Store/Moves.antt =====
-- A transition of a run brings it forward, and meets neither the trigger nor the check.
use shaidago.Base.{
  ℕ, suc, ◌≤◌, ◌≡◌, refl, ◌≢◌, ◌⊎◌, inl, inr, true, false, ◌&&◌, Option, none, some, Result, ok,
  err, arith, is_none, Text, Bool-cases, Result-cases, ap, sym,
}
use shaidago.Report.Machine.{Actor}
use shaidago.Worker.Machine.{
  Status, queued, Command, fail, reject_run, Transition, NotAllowed, terminal, find_transition,
  guard_allows, ◌is_status◌, failed,
}
use shaidago.Worker.Machine.Laws.{rank, find_transition_forward}
use shaidago.Worker.Store.{
  Run, RunAudit, World, Env, Stop, refused, Job, then_do, arrive, guard_update, allowed, loaded,
  load, written, moved, update_status, transition, transition_event,
}

-- Others never bring a run back.
abbrev pub Forward : Env → Type 0
Forward env =
    (n : ℕ) (r r' : Run) → env.others n (some r) ≡ some r' → rank r.status ≤ rank r'.status

module _ {ℓ κ μ} {A : Type ℓ} {B : Type κ} {P : Type μ} where
  pub then_do-ok :
      (m : Job A) (f : A → World → Job B) {b : B} {w' : World}
      → then_do m f ≡ (ok b, w')
      → ((a : A) (w : World) → m ≡ (ok a, w) → f a w ≡ (ok b, w') → P)
      → P
  then_do-ok (ok a, w) f h k = k a w refl h
  then_do-ok (err e, w) f h k = cc

guard_update-status :
    (old new : Run) {r : Run} → guard_update old new ≡ some r → r.status ≡ new.status
unfolding guard_update
guard_update-status old new {r} h = ground arith

allowed-ok :
    (w : World) (r : Result NotAllowed Transition) {u : Transition} {w' : World}
    → allowed w r ≡ (ok u, w')
    → r ≡ ok u
allowed-ok w (ok x) h = cc
allowed-ok w (err e) h = cc

written-ok :
    (w : World) (event : RunAudit) (o : Option Run) {w' : World}
    → written w event o ≡ (ok tt, w')
    → (r : Run) × (o ≡ some r) × (w'.row ≡ some r)
written-ok w event none h = cc
written-ok w event (some r) h = (r, refl, ap (λ p. p.1.row) (sym h))

update_status-ok :
    (w : World) (old new : Status) (code : Option Text) (now : ℕ) (event : RunAudit)
    (o : Option Run) {w' : World}
    → update_status w old new code now event o ≡ (ok tt, w')
    → (r : Run) × (w'.row ≡ some r) × (r.status ≡ new)
update_status-ok w old new code now event none h = cc
update_status-ok w old new code now event (some r) h = elim (Bool-cases (r.status is_status old)) [
  | inr lost ↦ absurd (ground arith)
  | inl here ↦
      let (r', passed, row) =
        written-ok w event (guard_update r (moved new code now r)) (rw here at h) in
      (r', row, guard_update-status r (moved new code now r) passed)
]

loaded-ok :
    (env : Env) (w : World) {r : Run} {w' : World}
    → loaded (load env w) ≡ (ok r, w')
    → env.others w.tick w.row ≡ some r
loaded-ok env w {r} {w'} h = read (env.others w.tick w.row) (arrive env w) h
  where
    read : (o : Option Run) (w2 : World) → loaded (o, w2) ≡ (ok r, w') → o ≡ some r
    read none w2 e = cc
    read (some x) w2 e = cc

-- A transition that succeeds was allowed by the machine, and the run that is read back has come as
-- far as the transition brings it, at least, if others never bring it back.
pub transition-Forward :
    (env : Env) (view : Run) (command : Command) (code : Option Text) (actor : Actor) (w : World)
    {run : Run} {w' : World}
    → Forward env
    → transition env view command code actor w ≡ (ok run, w')
    → (u : Transition) × (find_transition view.status command actor ≡ ok u)
      × (rank u.to_status ≤ rank run.status)
unfolding transition
transition-Forward env view command code actor w {run} forward h =
    then_do-ok (allowed w (find_transition view.status command actor)) _ h λ u w0 e0 h0.
      let here = arrive env w0 in
      let now = env.clock w0.tick in
      then_do-ok
        (update_status here view.status u.to_status code now (transition_event now view u code)
          here.row)
        _ h0
        λ _ w1 e1 h1.
          let (r, row, status) =
            update_status-ok here view.status u.to_status code now
              (transition_event now view u code) here.row e1 in
          let read : env.others w1.tick (some r) ≡ some run = rw (← row) (loaded-ok env w1 h1) in
          (
            u,
            allowed-ok w (find_transition view.status command actor) e0,
            rw (← status) (forward w1.tick r run read),
          )

failing :
    (s : Status) (c : Command) (a : Actor) {u : Transition}
    → find_transition s c a ≡ ok u
    → (u.to_status is_status failed) ≡ true
    → (c ≡ fail) ⊎ (c ≡ reject_run)
unfolding find_transition
failing queued c a h f = ground arith
failing _ c a h f = ground arith

guard_update-passes :
    (old new : Run)
    → guard_allows old.status new.status ≡ true
    → terminal old.status ≡ false
    → (new.status is_status failed && is_none new.failure_code) ≡ false
    → guard_update old new ≡ some (record new { version = suc old.version })
unfolding guard_update
guard_update-passes old new g l c = elim (Bool-cases (old.status is_status new.status)) [
  | inl same ↦ rw (same, l, c) refl
  | inr other ↦ rw (other, g, l, c) refl
]

loaded-refused : (p : Option Run × World) → (loaded p).0 ≢ err refused
loaded-refused (none, w) h = cc
loaded-refused (some r, w) h = cc

pub then_do-refused {ℓ κ} :
    {A : Type ℓ} {B : Type κ} (m : Job A) (f : A → World → Job B) (e : Stop)
    → m.0 ≢ err e
    → ((a : A) (w : World) → (f a w).0 ≢ err e)
    → (then_do m f).0 ≢ err e
then_do-refused (ok a, w) f e p q h = q a w h
then_do-refused (err x, w) f e p q h = let same : x ≡ e = ground arith in p (ap err same)

is_status-eq : (s t : Status) → (s is_status t) ≡ true → s ≡ t
is_status-eq s t h = ground arith

update_status-refused :
    (w : World) (old new : Status) (code : Option Text) (now : ℕ) (event : RunAudit)
    (o : Option Run)
    → guard_allows old new ≡ true
    → terminal old ≡ false
    → (new is_status failed && is_none code) ≡ false
    → (update_status w old new code now event o).0 ≢ err refused
update_status-refused w old new code now event none g l c = λ h. cc
update_status-refused w old new code now event (some r) g l c =
    elim (Bool-cases (r.status is_status old)) [
      | inr lost ↦ rw lost (λ h. cc)
      | inl here ↦
          let same : r.status ≡ old = is_status-eq r.status old here in
          rw (here, guard_update-passes r (moved new code now r) (rw same g) (rw same l) c)
            (λ h. cc)
    ]

-- A transition of a run is never refused by the trigger or by the check on failed runs, however the
-- row has changed since it was read, if a command that fails a run comes with a code.
pub transition-refused :
    (env : Env) (view : Run) (command : Command) (code : Option Text) (actor : Actor) (w : World)
    → ((command ≡ fail) ⊎ (command ≡ reject_run) → is_none code ≡ false)
    → (transition env view command code actor w).0 ≢ err refused
unfolding transition
transition-refused env view command code actor w coded =
    elim (Result-cases (find_transition view.status command actor)) [
      | inr (e, no_) ↦ rw no_ (λ h. cc)
      | inl (u, found) ↦
          let (start, answer, further, lives, guarded_) =
            find_transition_forward view.status command actor found in
          let has_code : (u.to_status is_status failed && is_none code) ≡ false =
            elim (Bool-cases (u.to_status is_status failed)) [
              | inl fails ↦ rw (fails, coded (failing view.status command actor found fails)) refl
              | inr other ↦ rw other refl
            ] in
          rw found (
            then_do-refused
              (update_status (arrive env w) view.status u.to_status code (env.clock w.tick)
                (transition_event (env.clock w.tick) view u code) (arrive env w).row)
              (λ _ w1. loaded (load env w1)) refused
              (update_status-refused (arrive env w) view.status u.to_status code (env.clock w.tick)
                (transition_event (env.clock w.tick) view u code) (arrive env w).row guarded_ lives
                has_code)
              (λ _ w1. loaded-refused (load env w1)))
    ]
