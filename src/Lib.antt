-- ===== src/Lib.antt =====
-- TrackFlow: the inventory ledger, the nightly job runner, the publication of weekly reports with
-- its run history and leases, the relay of inventory events and the durable task queue, as
-- executable models with their proofs.
--
-- Parts of the program and their files:
--
-- * Inventory models services/api/inventory_service.py with the tables of inventory_models.py, the
--   commands of inventory_schemas.py, the outbox insert of inventory_outbox.py, telemetry_utils.py and
--   the writing routes of routes/inventory.py (all under services/api/). The state is `Db`, one list
--   per table in insertion order; `World` adds the captured telemetry, the cache invalidations and the
--   connection: a commit is done, refused, or done without an answer, and the read after it may fail.
--   `Inventory/Tx` has the inserts with the constraints that the tables declare, `transact`, the commit
--   or rollback around a body, and `read_back`, the read after it. `Inventory/Stock` computes stock (get_current_stock,
--   get_current_stocks, _lock_skus), `Inventory/Telemetry` the events and threshold evaluations
--   (_event, _threshold_event, _record_threshold_evaluation), `Inventory/Movements` has
--   create_stock_entry, create_stock_exit and update_sku_threshold, `Inventory/Counts`
--   confirm_inventory_physical_count, `Inventory/Orders` create_commercial_order and
--   append_commercial_order_dispatches, and `Inventory/Requests` the routes. `Env` is what one call is
--   answered from outside: the caller, the clock, the identities that the database assigns, the UUIDs,
--   and whether the telemetry capture succeeds.
--
-- * Publication models pipelines/run_store.py and pipelines/concurrency.py. The state is `Store`, the
--   table of runs and the table of week-control rows. A call runs inside a transaction that its caller
--   opened, so what it wrote before it raised stays in the store beside the error. `Publication/Call`
--   has the statements and the connection checks, `Publication/Text` the text checks,
--   `Publication/Runs` the run history, `Publication/Controls` the week rows and the pointer to the
--   valid publication, and `Publication/Lease` the week leases, which call the run store.
--   `Connection` says how each statement of a call ends and what the server's clock reads.
--
-- * Coordinator models pipelines/coordinator.py on top of Publication, with the staging of
--   pipelines/publication.py in `Coordinator/Staging`. The state is `Database`, the run store and the
--   weekly table. The business transaction's writes stand beside the committed database until its
--   commit; each operational call commits on its own. `Session` says how every statement and commit
--   ends. `Coordinator/Evidence` has the issues that stop a publication, where the codes of the batch's
--   validation and of the quality report are arguments. Counters are natural numbers.
--   `Coordinator/Types` and `Coordinator/Calls` hold its data and its operational calls, and
--   `Coordinator/Recovery` the question whether an uncertain commit took place.
--
-- * Jobs models services/job_runner/service.py over the table and the partial unique indexes of
--   infra/sql/job_runs.sql. The state is `Table`; `Link` says which statements of a transaction fail
--   and whether its commit is confirmed, refused, or done without the client learning it. The table
--   that the second connection of an acquisition reads is an argument, so other sessions may have
--   written in between.
--
-- * Relay models pipelines/outbox_relay.py and the mapping of services/api/telemetry_storage.py: the
--   state is `Databases`, the outbox of one database and the telemetry of another. Each pass of the
--   loop is a `Round`, which says how the destination's transaction ends and whether the pass crashes
--   before the acknowledgement commits. Tags are dictionaries here, while `Inventory` has one
--   constructor for each dictionary that it builds.
--
-- * Tasks models services/task_queue (store.py, relay.py, reconciliation.py and tasks.py) over the tables
--   of infra/sql/reporting_async_tasks.sql. The state is `Registry`, the run store with the tables of
--   tasks, dispatches and dead letters. `Tasks` has the acceptance, which creates runs by the run store,
--   `Tasks/Claims` the guarded updates, `Tasks/Dispatch` the relay to the broker, `Tasks/Reconciliation`
--   the repair from the history of runs, and `Tasks/Worker` the Celery task. `Tasks/Calls` has sequences
--   of committed calls, `Tasks/Diagram` the abstract state machine. A violated CHECK refuses a statement.
--
-- * Common has the names that all parts share, Boolean tests, lists and integers.
--
-- Bounds: the models are structural recursions and use no fuel; the relay's loop takes one round
-- for each pass up to its limit. Identifiers, UUIDs, days and instants are natural numbers, since
-- the code only compares them or adds seconds; a quantity that a schema holds non-negative is a
-- natural number, and computed stock is an integer. Python integers have no bound; the counts of a
-- run keep the check against the largest PostgreSQL integer, a lease its limit of a day, and a job
-- name its limit of 100 characters. No machine-width overflow is modelled for database columns.
--
-- Concurrency: the row and advisory locks of the inventory service make its requests one at a time,
-- and so they are taken here, as a sequence; calls of the run store, the leases and the job runner are
-- taken in any sequence, each on a connection of its own. A call of the task queue is one transaction;
-- in a sequence of them the run store may be replaced at any point by what others made of it.
--
-- Not modelled: the read-only listings (list_orders, latest_run), the
-- response shapes, create_product, sanitize_error_message of the job runner, log messages, statement
-- whitelists, sanitize_message of the task queue (a message comes as it returned it), the
-- validation of weekly batches and their decimal rates, and the remaining services, pipelines and user
-- interfaces.
pub mod Common
pub mod Coordinator
pub mod Inventory
pub mod Jobs
pub mod Publication
pub mod Relay
pub mod Tasks
