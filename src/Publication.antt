-- ===== src/Publication.antt =====
-- pipelines: the durable record of weekly publications. `Types` has the rows of run_store.py, `Call`
-- the calls on a caller's open transaction, `Text` the text checks, `Runs` the run history and `Controls` the week rows of
-- run_store.py, and `Lease` the week leases of concurrency.py.
pub mod Types
pub mod Call
pub mod Rules
pub mod Text
pub mod Runs
pub mod Controls
mod Tests
pub mod Lease
