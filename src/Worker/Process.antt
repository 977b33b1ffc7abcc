-- ===== src/Worker/Process.antt =====
-- One discovery job (services/platform/src/shaidago/worker/process.py). The pipeline is the
-- interface that the job is given: its stages may do anything to the row that a unit of work can.
pub mod Progress
pub mod Deliveries
mod Examples
use shaidago.Base.{
  ℕ, zero, suc, Bool, true, false, ◌&&◌, List, [], ◌∷◌, Option, none, some, Result, ok, err, ltb,
  if◌then◌else◌, Text, codes,
}
use shaidago.Report.Machine.{Actor, reviewer, worker}
use shaidago.Worker.Machine.{
  Status, queued, searching, analysing, needs_review, complete, failed, cancelled, Command,
  start_search, cancel, fail, start_analysis, complete_run, require_review, active,
}
use shaidago.Worker.Store.{
  Run, World, Env, Stop, not_allowed, lost_run, refused, transient, out_of_fuel, permanent, Job,
  then_do, acquire, load, loaded, transition, release, max_attempts,
}

pub data Outcome : Type 0 where
  skipped completed for_review was_cancelled has_failed : Outcome

-- `TransientStageError`, `PermanentStageError` and what a stage lets through from the store.
pub data StageError : Type 0 where
  stage_transient stage_lost stage_refused : StageError
  stage_permanent : Text → StageError

-- `DiscoveryPipeline`: `search`, and `analyse` with whether its result needs review.
pub record Pipeline : Type 0 where
  pub search : Run → World → Result StageError (Unit {0}) × World
  pub analyse : Run → World → Result StageError Bool × World

abbrev pub stop_of : StageError → Stop
stop_of stage_transient = transient
stop_of stage_lost = lost_run
stop_of stage_refused = refused
stop_of (stage_permanent code) = permanent code

abbrev pub stage {ℓ} : {A : Type ℓ} → Result StageError A × World → Job A
stage (ok a, w) = (ok a, w)
stage (err e, w) = (err (stop_of e), w)

-- `_reload`
abbrev pub reload : Env → World → Job Run
reload env w = loaded (load env w)

abbrev pub outcome_of : Status → Outcome
outcome_of complete = completed
outcome_of needs_review = for_review
outcome_of cancelled = was_cancelled
outcome_of failed = has_failed
outcome_of _ = skipped

-- Which branch of the loop a run takes.
pub data Branch : Type 0 where
  to_cancel to_search searches analyses stops : Branch

abbrev pub branch_of : Status → Branch
branch_of queued = to_search
branch_of searching = searches
branch_of analysing = analyses
branch_of _ = stops

abbrev pub branch : Run → Branch
branch run = if run.cancel_requested && active run.status then to_cancel else branch_of run.status

abbrev pub verdict : Bool → Command
verdict needs = if needs then require_review else complete_run

module _ (env : Env) (pipeline : Pipeline) where
  -- The body of the loop in `_advance`, up to the next test.
  unfoldable pub turn : Branch → Run → World → Job Run
  turn to_cancel run w = transition env run cancel none reviewer w
  turn to_search run w = transition env run start_search none worker w
  turn searches run w = then_do (stage (pipeline.search run w)) λ _ w1.
      then_do (reload env w1) λ latest w2. transition env latest start_analysis none worker w2
  turn analyses run w = then_do (stage (pipeline.analyse run w)) λ needs w1.
      then_do (reload env w1) λ latest w2. transition env latest (verdict needs) none worker w2
  turn stops run w = (ok run, w)

  -- `_advance`, by fuel.
  unfoldable pub advance : ℕ → Run → World → Job Outcome
  advance zero run w = (err out_of_fuel, w)
  advance (suc n) run w = elim (branch run) [
    | stops ↦ (ok (outcome_of run.status), w)
    | b ↦ then_do (turn b run w) λ next w1. advance n next w1
  ]

  abbrev pub or_run : Option Run → Run → Run
  or_run none run = run
  or_run (some latest) run = latest

  -- The handlers of the inner `try`.
  abbrev pub handled : Run → Job Outcome → Job Outcome
  handled run (err (permanent code), w) =
      let (latest, w1) = load env w in
      then_do (transition env (or_run latest run) fail (some code) worker w1)
        λ _ w2. (ok has_failed, w2)
  handled run (err lost_run, w) = (ok skipped, w)
  handled run (r, w) = (r, w)

  -- `finally: await store.release(run_id, owner)`
  abbrev pub finally_release : ℕ → Job Outcome → Job Outcome
  finally_release owner (r, w) = then_do (release env owner w) λ _ w1. (r, w1)

  -- The number of turns a job can take: at most three moves, and the last test.
  abbrev pub turns : ℕ
  turns = 4

  abbrev pub attempt : ℕ → ℕ → Option Run × World → Job Outcome
  attempt owner attempts (none, w) = (ok skipped, w)
  attempt owner attempts (some run, w) =
      if ltb max_attempts attempts
      then then_do (transition env run fail (some (codes "attempts_exhausted")) worker w)
          (λ _ w1. (ok has_failed, w1))
      else finally_release owner (handled run (advance turns run w))

  abbrev pub acquired : ℕ → Option ℕ × World → Job Outcome
  acquired owner (none, w) = (ok skipped, w)
  acquired owner (some attempts, w) = attempt owner attempts (load env w)

  unfoldable pub process_run : ℕ → World → Job Outcome
  process_run owner w = acquired owner (acquire env owner w)

  abbrev pub exhausted : Text → Option Run × World → Job (Unit {0})
  exhausted code (none, w) = (ok tt, w)
  exhausted code (some run, w) =
      if active run.status
      then then_do (transition env run fail (some code) worker w) (λ _ w1. (ok tt, w1))
      else (ok tt, w)

  unfoldable pub fail_exhausted : Text → World → Job (Unit {0})
  fail_exhausted code w = exhausted code (load env w)
