-- ===== src/Worker/Process/Deliveries.antt =====
-- A delivery that cannot take the lease is ignored, and what a job does that has been tried too often.
use shaidago.Base.{
  ℕ, suc, ◌<◌, ◌≤◌, ◌≡◌, refl, ◌≢◌, ◌⊎◌, inl, inr, true, false, some, ok, err, arith, ltb,
}
use shaidago.Report.Machine.{worker}
use shaidago.Worker.Machine.{
  Status, queued, searching, analysing, fail, active, terminal, find_transition, Transition,
  ◌is_status◌,
}
use shaidago.Worker.Store.{
  Run, World, Env, lost_run, arrive, acquire, acquire_row, may_acquire, transition, max_attempts,
}
use shaidago.Worker.Process.{skipped, Pipeline, process_run}

-- The row is finished, or its lease is another worker's and not over.
abbrev pub OutOfReach : ℕ → ℕ → Run → Type 0
OutOfReach owner now r =
    (terminal r.status ≡ true)
    ⊎ ((o : ℕ) × (e : ℕ) × (r.lease_owner ≡ some o)
        × (o ≢ owner)
        × (r.lease_expires_at ≡ some e)
        × (now ≤ e))

OutOfReach-may_acquire :
    (owner now : ℕ) (r : Run) → OutOfReach owner now r → may_acquire owner now r ≡ false
OutOfReach-may_acquire owner now r (inl finished) = ground arith
OutOfReach-may_acquire owner now r (inr (o, e, holder, other, until, early)) =
    rw (holder, until) (ground arith)

fails : (s : Status) → active s ≡ true → (u : Transition) × (find_transition s fail worker ≡ ok u)
unfolding find_transition
fails queued a = (_, refl)
fails searching a = (_, refl)
fails analysing a = (_, refl)
fails _ a = cc

module _ (env : Env) (pipeline : Pipeline) (owner : ℕ) (w : World) where
  -- A delivery for a run that is finished, or whose lease another worker still holds, is skipped, and
  -- neither the row nor the audit events change.
  pub process_run-skips :
      (r : Run)
      → env.others w.tick w.row ≡ some r
      → OutOfReach owner (env.clock w.tick) r
      → process_run env pipeline owner w ≡ (ok skipped, arrive env w)
  unfolding process_run acquire acquire_row
  process_run-skips r here out =
      rw (here, OutOfReach-may_acquire owner (env.clock w.tick) r out) refl

  -- When a run was tried too often and somebody else moves it between the job's reading it and its
  -- failing it, the job ends with the exception of a lost run, which it lets through.
  pub process_run-escapes :
      (attempts : ℕ) (w1 : World) (run r2 : Run)
      → acquire env owner w ≡ (some attempts, w1)
      → max_attempts < attempts
      → env.others w1.tick w1.row ≡ some run
      → active run.status ≡ true
      → env.others (suc w1.tick) (some run) ≡ some r2
      → (r2.status is_status run.status) ≡ false
      → (process_run env pipeline owner w).0 ≡ err lost_run
  unfolding process_run transition
  process_run-escapes attempts w1 run r2 taken many read lives changed elsewhere =
      let (u, found) = fails run.status lives in
      let over : ltb max_attempts attempts ≡ true = ground arith in
      rw (taken, read, over, found, changed, elsewhere) refl
