-- ===== src/Worker/Process/Progress.antt =====
-- A job comes to its end, whatever others do to the run in the meantime.
use shaidago.Base.{
  ℕ, zero, suc, ◌+◌, ◌<◌, ◌≤◌, ◌≡◌, refl, ◌≢◌, ◌⊎◌, inl, inr, Bool, true, false, ◌&&◌, not, Option,
  none, some, Result, ok, err, arith, Text, Bool-cases, ap, subst, ltb, codes,
}
use shaidago.Report.Machine.{Actor, reviewer, worker}
use shaidago.Worker.Machine.{
  Status, searching, analysing, Command, start_search, cancel, fail, start_analysis,
  find_transition, Transition, NotAllowed, ◌is_status◌, terminal,
}
use shaidago.Worker.Machine.Laws.{rank, find_transition_forward}
use shaidago.Worker.Store.{
  Run, RunAudit, World, Env, Stop, arrive, allowed, written, moved, update_status, transition_event,
  guard_update, guarded, release_row, same_owner, lost_run, out_of_fuel, permanent, Job, then_do,
  acquire, load, loaded, transition, release, max_attempts,
}
use shaidago.Worker.Store.Moves.{Forward, then_do-ok, then_do-refused, transition-Forward}
use shaidago.Worker.Process.{
  Outcome, StageError, Pipeline, stage, reload, Branch, branch, branch_of, to_cancel, to_search,
  searches, analyses, stops, verdict, turn, advance, handled, or_run, finally_release, attempt,
  acquired, process_run,
}

then_do-fuel {ℓ κ} :
    {A : Type ℓ} {B : Type κ} (m : Job A) (f : A → World → Job B) (e : Stop)
    → m.0 ≢ err e
    → ((a : A) (w : World) → m ≡ (ok a, w) → (f a w).0 ≢ err e)
    → (then_do m f).0 ≢ err e
then_do-fuel (ok a, w) f e p q = q a w refl
then_do-fuel (err x, w) f e p q = λ h. let same : x ≡ e = ground arith in p (ap err same)

allowed-fuel : (w : World) (r : Result NotAllowed Transition) → (allowed w r).0 ≢ err out_of_fuel
allowed-fuel w (ok u) h = cc
allowed-fuel w (err e) h = cc

loaded-fuel : (p : Option Run × World) → (loaded p).0 ≢ err out_of_fuel
loaded-fuel (none, w) h = cc
loaded-fuel (some r, w) h = cc

written-fuel :
    (w : World) (event : RunAudit) (o : Option Run) → (written w event o).0 ≢ err out_of_fuel
written-fuel w event none h = cc
written-fuel w event (some r) h = cc

update_status-fuel :
    (w : World) (old new : Status) (code : Option Text) (now : ℕ) (event : RunAudit)
    (o : Option Run)
    → (update_status w old new code now event o).0 ≢ err out_of_fuel
update_status-fuel w old new code now event none = λ h. cc
update_status-fuel w old new code now event (some r) = elim (Bool-cases (r.status is_status old)) [
  | inr lost ↦ rw lost (λ h. cc)
  | inl here ↦ rw here (written-fuel w event (guard_update r (moved new code now r)))
]

stage-fuel {ℓ} : {A : Type ℓ} (m : Result StageError A × World) → (stage m).0 ≢ err out_of_fuel
stage-fuel (ok a, w) h = cc
stage-fuel (err e, w) h = ground arith

-- Where the commands that end a stage start.
starts_searching :
    (s : Status) {u : Transition} → find_transition s start_analysis worker ≡ ok u → s ≡ searching
unfolding find_transition
starts_searching s h = ground arith

starts_analysing :
    (needs : Bool) (s : Status) {u : Transition}
    → find_transition s (verdict needs) worker ≡ ok u
    → s ≡ analysing
unfolding find_transition
starts_analysing true s h = ground arith
starts_analysing false s h = ground arith

-- A turn that does not stop leaves a run that has come further.
module _ (env : Env) (pipeline : Pipeline) where
  moves-further :
      (view : Run) (command : Command) (code : Option Text) (actor : Actor) (w : World) {run : Run}
      {w' : World}
      → Forward env
      → transition env view command code actor w ≡ (ok run, w')
      → rank view.status < rank run.status
  moves-further view command code actor w forward h =
      let (u, found, far) = transition-Forward env view command code actor w forward h in
      let (start, answer, further, lives, guarded) =
        find_transition_forward view.status command actor found in
      omega (arith, further, far)

  -- The end of a stage: the run is read again, and moved on from the status of the stage.
  stage-further {ℓ} :
      {A : Type ℓ} (m : Job A) (command : A → Command) (s : Status) {next : Run} {w' : World}
      → Forward env
      → ((a : A) (t : Status) (u : Transition)
          → find_transition t (command a) worker ≡ ok u
          → t ≡ s)
      → then_do m (λ a w1.
        then_do (reload env w1) λ latest w2. transition env latest (command a) none worker w2)
        ≡ (ok next, w')
      → rank s < rank next.status
  stage-further m command s {next} forward start h = then_do-ok m _ h λ a w1 e1 h1.
      then_do-ok (reload env w1) _ h1 λ latest w2 e2 h2.
        let (u, found, far) = transition-Forward env latest (command a) none worker w2 forward h2 in
        let here : latest.status ≡ s = start a latest.status u found in
        rw (← here) (moves-further latest (command a) none worker w2 forward h2)

  turn-further :
      (b : Branch) (run : Run) (w : World) {next : Run} {w' : World}
      → Forward env
      → (b ≡ to_cancel) ⊎ (b ≡ branch_of run.status)
      → b ≢ stops
      → turn env pipeline b run w ≡ (ok next, w')
      → rank run.status < rank next.status
  unfolding turn
  turn-further to_cancel run w forward at goes h =
      moves-further run cancel none reviewer w forward h
  turn-further to_search run w forward at goes h =
      moves-further run start_search none worker w forward h
  turn-further searches run w {next} forward at goes h =
      let further =
        stage-further (stage (pipeline.search run w)) (λ _. start_analysis) searching forward
          (λ _ t u f. starts_searching t f) h in
      let here : run.status ≡ searching = ground arith in rw here further
  turn-further analyses run w {next} forward at goes h =
      let further =
        stage-further (stage (pipeline.analyse run w)) verdict analysing forward
          (λ needs t u f. starts_analysing needs t f) h in
      let here : run.status ≡ analysing = ground arith in rw here further
  turn-further stops run w forward at goes h = absurd (goes refl)

  branch-cases : (run : Run) → (branch run ≡ to_cancel) ⊎ (branch run ≡ branch_of run.status)
  branch-cases run = ground arith

  -- No transition and no stage stops for want of fuel.
  transition-fuel :
      (view : Run) (command : Command) (code : Option Text) (actor : Actor) (w : World)
      → (transition env view command code actor w).0 ≢ err out_of_fuel
  unfolding transition
  transition-fuel view command code actor w =
      then_do-refused (allowed w (find_transition view.status command actor)) _ out_of_fuel
        (allowed-fuel w (find_transition view.status command actor))
        λ u w0.
          then_do-refused
            (update_status (arrive env w0) view.status u.to_status code (env.clock w0.tick)
              (transition_event (env.clock w0.tick) view u code) (arrive env w0).row)
            _ out_of_fuel
            (update_status-fuel (arrive env w0) view.status u.to_status code (env.clock w0.tick)
              (transition_event (env.clock w0.tick) view u code) (arrive env w0).row)
            λ _ w1. loaded-fuel (load env w1)

  stage_end-fuel {ℓ} :
      {A : Type ℓ} (m : Result StageError A × World) (command : A → Command)
      → (then_do (stage m) (λ a w1.
          then_do (reload env w1) λ latest w2. transition env latest (command a) none worker w2)).0
        ≢ err out_of_fuel
  stage_end-fuel m command = then_do-refused (stage m) _ out_of_fuel (stage-fuel m) λ a w1.
      then_do-refused (reload env w1) _ out_of_fuel (loaded-fuel (load env w1))
        λ latest w2. transition-fuel latest (command a) none worker w2

  turn-fuel : (b : Branch) (run : Run) (w : World) → (turn env pipeline b run w).0 ≢ err out_of_fuel
  unfolding turn
  turn-fuel to_cancel run w = transition-fuel run cancel none reviewer w
  turn-fuel to_search run w = transition-fuel run start_search none worker w
  turn-fuel searches run w = stage_end-fuel (pipeline.search run w) (λ _. start_analysis)
  turn-fuel analyses run w = stage_end-fuel (pipeline.analyse run w) verdict
  turn-fuel stops run w = λ h. cc

  late-stops : (run : Run) → 3 ≤ rank run.status → branch run ≡ stops
  late-stops run h = ground arith

  early-goes : (run : Run) → branch run ≢ stops → rank run.status < 3
  early-goes run goes = ground arith

  -- One turn of the loop, given that what is left of it has fuel enough.
  goes_on :
      (n : ℕ) (run : Run) (w : World) (b : Branch)
      → Forward env
      → branch run ≡ b
      → b ≢ stops
      → 4 ≤ suc n + rank run.status
      → ((next : Run) (w1 : World)
          → 4 ≤ n + rank next.status
          → 1 ≤ n
          → (advance env pipeline n next w1).0 ≢ err out_of_fuel)
      → (then_do (turn env pipeline b run w) (λ next w1. advance env pipeline n next w1)).0
        ≢ err out_of_fuel
  goes_on n run w b forward at goes enough rest =
      let early : rank run.status < 3 = early-goes run (rw at goes) in
      then_do-fuel (turn env pipeline b run w) _ out_of_fuel (turn-fuel b run w) λ next w1 e.
        let further =
          turn-further b run w forward
            (subst (λ x. (x ≡ to_cancel) ⊎ (x ≡ branch_of run.status)) at (branch-cases run)) goes
            e in
        rest next w1 (omega (arith, further, enough)) (omega (arith, early, enough))

  advance-fuel :
      (n : ℕ) (run : Run) (w : World)
      → Forward env
      → 4 ≤ n + rank run.status
      → 1 ≤ n
      → (advance env pipeline n run w).0 ≢ err out_of_fuel
  unfolding advance
  advance-fuel zero run w forward enough some_ = absurd (omega arith)
  advance-fuel (suc n) run w forward enough some_ =
      go (branch run) refl (λ next w1 e l. advance-fuel n next w1 forward e l)
    where
      go :
          (b : Branch)
          → branch run ≡ b
          → ((next : Run) (w1 : World)
              → 4 ≤ n + rank next.status
              → 1 ≤ n
              → (advance env pipeline n next w1).0 ≢ err out_of_fuel)
          → (advance env pipeline (suc n) run w).0 ≢ err out_of_fuel
      go stops at rest = rw (advance, at) (λ h. cc)
      go to_cancel at rest =
          rw (advance, at) (goes_on n run w to_cancel forward at (λ e. cc) enough rest)
      go to_search at rest =
          rw (advance, at) (goes_on n run w to_search forward at (λ e. cc) enough rest)
      go searches at rest =
          rw (advance, at) (goes_on n run w searches forward at (λ e. cc) enough rest)
      go analyses at rest =
          rw (advance, at) (goes_on n run w analyses forward at (λ e. cc) enough rest)

  guarded-fuel : (w : World) (r : Run) (o : Option Run) → (guarded w r o).0 ≢ err out_of_fuel
  guarded-fuel w r none h = cc
  guarded-fuel w r (some x) h = cc

  release_row-fuel :
      (w : World) (owner now : ℕ) (o : Option Run) → (release_row w owner now o).0 ≢ err out_of_fuel
  release_row-fuel w owner now none = λ h. cc
  release_row-fuel w owner now (some r) =
      elim (Bool-cases (same_owner r.lease_owner owner && not (terminal r.status))) [
        | inl held ↦ rw held (
            guarded-fuel w r (
              guard_update r
                (record r { lease_owner = none; lease_expires_at = none; updated_at = now })))
        | inr free ↦ rw free (λ h. cc)
      ]

  release-fuel : (owner : ℕ) (w : World) → (release env owner w).0 ≢ err out_of_fuel
  unfolding release
  release-fuel owner w = release_row-fuel (arrive env w) owner (env.clock w.tick) (arrive env w).row

  handled-fuel :
      (run : Run) (m : Job Outcome)
      → m.0 ≢ err out_of_fuel
      → (handled env pipeline run m).0 ≢ err out_of_fuel
  handled-fuel run (ok o, w) p = p
  handled-fuel run (err (permanent code), w) p =
      then_do-refused
        (transition env (or_run env pipeline (load env w).0 run) fail (some code) worker
          (load env w).1)
        _ out_of_fuel
        (transition-fuel (or_run env pipeline (load env w).0 run) fail (some code) worker
          (load env w).1)
        (λ _ w2 h. cc)
  handled-fuel run (err lost_run, w) p = λ h. cc
  handled-fuel run (err _, w) p = p

  released-fuel :
      (owner : ℕ) (m : Job Outcome)
      → m.0 ≢ err out_of_fuel
      → (finally_release env pipeline owner m).0 ≢ err out_of_fuel
  released-fuel owner (r, w) p =
      then_do-refused (release env owner w) _ out_of_fuel (release-fuel owner w) (λ _ w1. p)

  attempt-fuel :
      (owner attempts : ℕ) (m : Option Run × World)
      → Forward env
      → (attempt env pipeline owner attempts m).0 ≢ err out_of_fuel
  attempt-fuel owner attempts (none, w) forward = λ h. cc
  attempt-fuel owner attempts (some run, w) forward =
      elim (Bool-cases (ltb max_attempts attempts)) [
        | inl many ↦ rw many (
            then_do-refused (transition env run fail (some (codes "attempts_exhausted")) worker w) _
              out_of_fuel (transition-fuel run fail (some (codes "attempts_exhausted")) worker w)
              (λ _ w1 h. cc))
        | inr few ↦ rw few (
            released-fuel owner (handled env pipeline run (advance env pipeline 4 run w)) (
              handled-fuel run (advance env pipeline 4 run w)
                (advance-fuel 4 run w forward (omega arith) (omega arith))))
      ]

  acquired-fuel :
      (owner : ℕ) (m : Option ℕ × World)
      → Forward env
      → (acquired env pipeline owner m).0 ≢ err out_of_fuel
  acquired-fuel owner (none, w) forward = λ h. cc
  acquired-fuel owner (some attempts, w) forward = attempt-fuel owner attempts (load env w) forward

  -- A job always comes to an end: four turns of its loop are enough, whatever the stages do, and
  -- whatever others do to the row between its units of work, as long as they never bring the run
  -- back.
  pub process_run-ends :
      (owner : ℕ) (w : World) → Forward env → (process_run env pipeline owner w).0 ≢ err out_of_fuel
  unfolding process_run
  process_run-ends owner w forward = acquired-fuel owner (acquire env owner w) forward
