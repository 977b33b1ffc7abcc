-- ===== src/Worker.antt =====
-- The discovery worker (services/platform/src/shaidago/worker): the machine of a run, its row in
-- the database, and one job.
pub mod Machine
pub mod Store
pub mod Process
