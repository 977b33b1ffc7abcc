-- ===== src/Worker/Store/Examples.antt =====
-- A queued run, leased by worker 1.
use shaidago.Base.{
  ℕ, suc, ◌+◌, ◌<◌, ◌≡◌, refl, ◌↔◌, ◌⊎◌, arith, false, true, none, some, [], is_some,
}
use shaidago.Worker.Machine.{queued, searching}
use shaidago.Worker.Store.{Run, World, Env, acquire_row, guard_update}
use shaidago.Worker.Store.Lease.{acquire_row-exclusive}
use shaidago.Worker.Store.Moves.{Forward}

abbrev run : Run
run = record {
  status = queued;
  attempts = 0;
  lease_owner = none;
  lease_expires_at = none;
  cancel_requested = false;
  failure_code = none;
  results_found = 0;
  fetched_count = 0;
  analysed_count = 0;
  version = 1;
  started_at = none;
  finished_at = none;
  updated_at = 10;
}

abbrev taken : Run
taken = record run {
  attempts = 1;
  lease_owner = some 1;
  lease_expires_at = some 300000020;
  version = 2;
  updated_at = 20;
}

acquire_row-exclusive_example :
    (1 ≡ suc 0)
    × ((is_some (acquire_row 2 50 (some taken)) ≡ true)
        ↔ ((◌≡◌ {A = ℕ} 2 1) ⊎ (20 + 300000000 < 50)))
unfolding acquire_row guard_update
acquire_row-exclusive_example = acquire_row-exclusive 1 20 run refl 2 50

abbrev quiet : Env
quiet = record { clock = λ n. 100 + n; others = λ n r. r }

abbrev world : World
world = record { row = some run; audit = []; tick = 0 }

quiet-Forward : Forward quiet
quiet-Forward n r r' h = ground arith

abbrev searched : Run
searched = record run { status = searching; started_at = some 100; version = 2; updated_at = 100 }
