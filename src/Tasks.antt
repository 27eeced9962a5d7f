-- ===== src/Tasks.antt =====
-- services/task_queue: durable tasks. Here `accept_async_task` of store.py, and `safe_code` of
-- sanitization.py. `now` is the server's clock at a statement, and identifiers are those that `uuid4`
-- drew. Of two active runs that started at one instant, either could be found; here it is the first.
pub mod Types
pub mod Claims
pub mod Reconciliation
pub mod Dispatch
pub mod Worker
pub mod Calls
pub mod Rows
pub mod Diagram
pub mod Attempts
pub mod Fencing
pub mod Accepts
pub mod Drain
pub mod Stuck
pub mod Execution
mod Tests
use ang553_latam_aie_01_fina.Common.{
  ℕ, ◌+◌, ◌*◌, String, Bool, true, false, not, ◌&&◌, ◌||◌, Option, none, some, List, [], ◌∷◌, ◌++◌,
  str_eq, opt_eq, ◌==◌, ltb, leb, is_some, length, all_of, any_of, first, if◌then◌else◌,
}
use ang553_latam_aie_01_fina.Publication.Types.{
  RunRecord, Store, Connection, pending, running, status_eq,
}
use ang553_latam_aie_01_fina.Publication.Call.{Code, Result, ok, err, raw_integrity}
use ang553_latam_aie_01_fina.Publication.Runs.{NewRun, create_run}
use ang553_latam_aie_01_fina.Publication.Text.{codes}
use ang553_latam_aie_01_fina.Tasks.Types.{
  ExecutionState, accepted, queued, claimed, running as running_state, retry_wait, succeeded,
  reconciliation_required, phase_none, preflight, prefect_started, phase_terminal, dispatch_pending,
  CeleryState, started, retry, success, failure, TaskRow, Payload, DispatchRow, DeadLetter,
  Registry, is_preflight, is_prefect_started, is_claimed, is_running, Reply, done, refused,
  find_task, task_with, update_task, answered, letter_checks, letter_with, put_letter, second,
}

abbrev pub contract_version : ℕ
contract_version = 1

abbrev pub max_failed_executions : ℕ
max_failed_executions = 3

-- `_SAFE_CODE`: a small letter, then at most 127 small letters, digits or underscores.
abbrev pub is_small : ℕ → Bool
is_small c = leb b'a' c && leb c b'z'

abbrev pub is_code_char : ℕ → Bool
is_code_char c = is_small c || (leb b'0' c && leb c b'9') || c == b'_'

unfoldable pub is_safe_code : List ℕ → Bool
is_safe_code [] = false
is_safe_code (c ∷ cs) = is_small c && all_of is_code_char cs && leb (length cs) 127

unfoldable pub safe_code : String → String
safe_code s = if is_safe_code (codes s) then s else "internal_error"

-- `ORDER BY started_at DESC LIMIT 1` over the pending and running runs of a week.
abbrev pub is_active : ℕ → RunRecord → Bool
is_active week r =
    r.target_week_start == week && (status_eq r.status pending || status_eq r.status running)

unfoldable pub latest : RunRecord → Option RunRecord → RunRecord
latest r none = r
latest r (some best) = if ltb r.started_at best.started_at then best else r

unfoldable pub active_run : ℕ → List RunRecord → Option RunRecord
active_run week [] = none
active_run week (r ∷ rows) =
    let rest = active_run week rows in if is_active week r then some (latest r rest) else rest

abbrev pub task_of_run : ℕ → TaskRow → Bool
task_of_run run r = r.run_id == run

abbrev pub accepted_row : ℕ → ℕ → String → ℕ → ℕ → TaskRow
accepted_row task run user week now = record {
  task_id = task;
  run_id = run;
  requested_by_user_id = user;
  task_name = "trackflow.run_weekly_pipeline";
  week_start = week;
  execution_state = accepted;
  dispatch_status = dispatch_pending;
  celery_state = none;
  attempt_count = 0;
  result_summary = none;
  error_code = none;
  error_message = none;
  pipeline_status = none;
  published = none;
  attempt_id = none;
  attempt_number = none;
  claim_token = none;
  execution_epoch = 0;
  execution_phase = phase_none;
  claim_expires_at = none;
  heartbeat_at = none;
  next_attempt_at = none;
  created_at = now;
  updated_at = now;
  finished_at = none;
}

abbrev pub outbox_row : ℕ → ℕ → ℕ → ℕ → DispatchRow
outbox_row task run week now = record {
  task_id = task;
  payload = record { contract_version = contract_version; task = task; run = run; week = week };
  dispatch_status = dispatch_pending;
  publish_attempts = 0;
  next_attempt_at = now;
  relay_owner = none;
  relay_token = none;
  relay_lease_expires_at = none;
  last_error_code = none;
  created_at = now;
  updated_at = now;
  published_at = none;
}

abbrev pub new_run : ℕ → ℕ → NewRun
new_run run week = record {
  run_id = run;
  pipeline_name = "weekly_warehouse_client_performance";
  target_week_start = week;
  trigger_type = "http";
  started_at = none;
  stage_reached = some "accepted";
  prefect_flow_run_id = none;
  prefect_task_run_id = none;
}

-- What an acceptance draws: the identifiers of a run, of a task, and of a task that is only named.
pub record Drawn : Type 0 where
  pub run : ℕ
  pub task : ℕ
  pub unrecorded : ℕ
  pub now : ℕ

abbrev pub Accepted : Type 0
Accepted = Result (ℕ × ℕ × Bool)

abbrev pub task_or : ℕ → Option TaskRow → ℕ
task_or drawn none = drawn
task_or drawn (some t) = t.task_id

-- The two inserts, whose keys are `task_id` and the unique `run_id`.
unfoldable pub insert_task : Drawn → String → ℕ → RunRecord → Registry → Accepted × Registry
insert_task d user week run s =
    if is_some (find_task d.task s.tasks)
      || any_of (task_of_run run.run_id) s.tasks
      || any_of (λ (o : DispatchRow). o.task_id == d.task) s.outbox
    then (err raw_integrity, s)
    else (
      ok (run.run_id, d.task, true),
      record s {
        tasks = s.tasks ++ accepted_row d.task run.run_id user week d.now ∷ [];
        outbox = s.outbox ++ outbox_row d.task run.run_id week d.now ∷ [];
      },
    )

unfoldable pub accept_created :
    Drawn → String → ℕ → Result RunRecord × Store → Registry → Accepted × Registry
accept_created d user week (err c, t) s = (err c, record s { store = t })
accept_created d user week (ok run, t) s = insert_task d user week run (record s { store = t })

unfoldable pub accept_for :
    Connection → Drawn → String → ℕ → Option RunRecord → Registry → Accepted × Registry
accept_for c d user week (some run) s =
    (ok (run.run_id, task_or d.unrecorded (first (task_of_run run.run_id) s.tasks), false), s)
accept_for c d user week none s =
    accept_created d user week (create_run c (new_run d.run week) s.store) s

-- `accept_async_task`, under the week's advisory lock.
unfoldable pub accept_async_task : Connection → Drawn → String → ℕ → Registry → Accepted × Registry
accept_async_task c d user week s = accept_for c d user week (active_run week s.store.runs) s

-- An instant that has come.
abbrev pub due : ℕ → Option ℕ → Bool
due now none = false
due now (some t) = leb t now
