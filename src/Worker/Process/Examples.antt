-- ===== src/Worker/Process/Examples.antt =====
-- Jobs for a queued run: with quiet stages, with a lease of another worker, and tried too often.
use shaidago.Base.{
  ◌≡◌, refl, ◌≢◌, inr, arith, false, Option, none, some, ok, err, [], if◌then◌else◌, ◌==◌,
}
use shaidago.Worker.Machine.{queued, cancelled, find_transition, guard_allows}
use shaidago.Worker.Store.{
  Run, World, Env, lost_run, out_of_fuel, arrive, acquire, acquire_row, guard_update, transition,
  release,
}
use shaidago.Worker.Store.Moves.{Forward}
use shaidago.Worker.Process.{Pipeline, skipped, completed, process_run, advance, turn}
use shaidago.Worker.Process.Progress.{process_run-ends}
use shaidago.Worker.Process.Deliveries.{process_run-skips, process_run-escapes}

abbrev run : Run
run = record {
  status = queued;
  attempts = 5;
  lease_owner = none;
  lease_expires_at = none;
  cancel_requested = false;
  failure_code = none;
  results_found = 0;
  fetched_count = 0;
  analysed_count = 0;
  version = 1;
  started_at = none;
  finished_at = none;
  updated_at = 10;
}

abbrev stages : Pipeline
stages = record { search = λ r w. (ok tt, w); analyse = λ r w. (ok false, w) }

abbrev quiet : Env
quiet = record { clock = λ n. n; others = λ n r. r }

quiet-Forward : Forward quiet
quiet-Forward n r r' h = ground arith

abbrev world : Run → World
world r = record { row = some r; audit = []; tick = 0 }

finishes : (process_run quiet stages 1 (world (record run { attempts = 0 }))).0 ≡ ok completed
unfolding process_run acquire acquire_row guard_update transition find_transition guard_allows
    advance turn release
finishes = refl

process_run-ends_example : (process_run quiet stages 1 (world run)).0 ≢ err out_of_fuel
process_run-ends_example = process_run-ends quiet stages 1 (world run) quiet-Forward

abbrev held : Run
held = record run { lease_owner = some 2; lease_expires_at = some 50 }

process_run-skips_example :
    process_run quiet stages 1 (world held) ≡ (ok skipped, arrive quiet (world held))
process_run-skips_example =
    process_run-skips quiet stages 1 (world held) held refl
      (inr (2, 50, refl, ground arith, refl, omega arith))

-- A reviewer cancels the run at the third unit of work.
abbrev cancels : Option Run → Option Run
cancels none = none
cancels (some r) = some (record r { status = cancelled })

abbrev late_cancel : Env
late_cancel = record { clock = λ n. n; others = λ n r. if n == 2 then cancels r else r }

abbrev leased_run : Run
leased_run = record run {
  attempts = 6;
  lease_owner = some 1;
  lease_expires_at = some 300000000;
  version = 2;
  updated_at = 0;
}

process_run-escapes_example : (process_run late_cancel stages 1 (world run)).0 ≡ err lost_run
unfolding acquire acquire_row guard_update guard_allows
process_run-escapes_example =
    process_run-escapes late_cancel stages 1 (world run) 6 (record (world leased_run) { tick = 1 })
      leased_run (record leased_run { status = cancelled }) refl (omega arith) refl refl refl refl
