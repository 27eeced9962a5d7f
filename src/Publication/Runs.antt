-- ===== src/Publication/Runs.antt =====
-- pipelines/run_store.py: the history of publication runs and the week-control rows. Each call numbers
-- its statements from 0; `started_at` defaults to the server's clock.
pub mod Transitions
pub mod History
pub mod Replay
pub mod Updated
use ang553_latam_aie_01_fina.Common.{
  ℕ, suc, ℤ, String, Bool, true, false, not, ◌&&◌, ◌||◌, Option, none, some, List, [], ◌∷◌, ◌++◌,
  ltb, ◌==◌, str_eq, or_else, is_some, if◌then◌else◌,
}
use ang553_latam_aie_01_fina.Publication.Types.{
  RunStatus, pending, running, succeeded, succeeded_noop, failed_retryable, blocked_quality,
  superseded, skipped_in_progress, other_status, status_eq, CommitResult, not_attempted,
  uncommitted, uncertain, rolled_back, technically_observed, other_result, RunRecord, WeekControl,
  Store, Connection,
}
use ang553_latam_aie_01_fina.Publication.Call.{
  Code, Result, ok, err, Call, invalid_timestamp, duplicate_run_id, status_conflict, invalid_status,
  invalid_transition, finished_at_required, finished_at_forbidden, block_reason_required,
  error_code_required, invalid_commit_result, run_not_found, control_not_found, week_mismatch,
  write_error, raw_integrity, lease_authority_forbidden, ◌>>=◌, ◌>>◌, pure, raise, raise_if,
  or_raise, lift, require_transaction, execute, week, count, find_run, find_control, read_run,
  read_control, update_run_row, update_control,
}
use ang553_latam_aie_01_fina.Publication.Text.{label, optional_label, optional_text}

-- `status in RUN_STATUSES`
abbrev pub known_status : RunStatus → Bool
known_status (other_status s) = false
known_status _ = true

-- RUN_TRANSITIONS, for a proposed status that is known.
unfoldable pub allowed : RunStatus → RunStatus → Bool
allowed pending running = true
allowed pending skipped_in_progress = true
allowed pending superseded = true
allowed pending blocked_quality = true
allowed pending failed_retryable = true
allowed running succeeded = true
allowed running succeeded_noop = true
allowed running failed_retryable = true
allowed running blocked_quality = true
allowed running superseded = true
allowed _ _ = false

-- TERMINAL_STATUSES: the known statuses with no transition of their own.
unfoldable pub terminal : RunStatus → Bool
terminal pending = false
terminal running = false
terminal (other_status s) = false
terminal _ = true

-- `_transition`
unfoldable pub transition : RunStatus → RunStatus → Call (Unit {0})
unfolding allowed
transition current proposed s =
    if not (known_status proposed)
    then (err invalid_status, s)
    else if not (allowed current proposed)
    then (err invalid_transition, s)
    else (ok tt, s)

-- `_require_run`, whose statement is the n-th.
unfoldable pub require_run : Connection → ℕ → ℕ → Call RunRecord
require_run c n id = do execute c n; found ← read_run id; or_raise found run_not_found

pub record NewRun : Type 0 where
  pub run_id : ℕ
  pub pipeline_name : String
  pub target_week_start : ℕ
  pub trigger_type : String
  pub started_at : Option ℕ
  pub stage_reached : Option String
  pub prefect_flow_run_id : Option String
  pub prefect_task_run_id : Option String

abbrev pub pending_row :
    Connection → NewRun → Option String → Option String → Option String → RunRecord
pending_row c new stage flow task = record {
  run_id = new.run_id;
  pipeline_name = new.pipeline_name;
  target_week_start = new.target_week_start;
  trigger_type = new.trigger_type;
  status = pending;
  started_at = or_else new.started_at (c.clock 0);
  finished_at = none;
  stage_reached = stage;
  records_processed = none;
  aggregates_calculated = none;
  rows_inserted = none;
  rows_updated = none;
  rows_unchanged = none;
  error_code = none;
  error_message = none;
  block_reason = none;
  commit_result = not_attempted;
  prefect_flow_run_id = flow;
  prefect_task_run_id = task;
}

-- The insert: `run_id` is the primary key, and an IntegrityError means that it is taken.
unfoldable pub inserted_run : RunRecord → Result (Unit {0}) → Call RunRecord
inserted_run row (err raw_integrity) s = (err duplicate_run_id, s)
inserted_run row (err e) s = (err e, s)
inserted_run row (ok u) s =
    if is_some (find_run row.run_id s)
    then (err duplicate_run_id, s)
    else (ok row, record s { runs = s.runs ++ row ∷ [] })

unfoldable pub insert_run : Connection → RunRecord → Call RunRecord
unfolding inserted_run execute
insert_run c row s = let (r, t) = execute c 0 s in inserted_run row r t

-- `create_run`; a missing identifier has been drawn by `uuid4`.
unfoldable pub create_run : Connection → NewRun → Call RunRecord
create_run c new = do
  require_transaction c
  day ← week new.target_week_start
  name ← lift (label new.pipeline_name)
  trigger ← lift (label new.trigger_type)
  stage ← lift (optional_label new.stage_reached)
  flow ← lift (optional_label new.prefect_flow_run_id)
  task ← lift (optional_label new.prefect_task_run_id)
  insert_run c (pending_row c new stage flow task)

pub record RunUpdate : Type 0 where
  pub expected_status : RunStatus
  pub status : RunStatus
  pub finished_at : Option ℕ
  pub stage_reached : Option String
  pub records_processed : Option ℤ
  pub aggregates_calculated : Option ℤ
  pub rows_inserted : Option ℤ
  pub rows_updated : Option ℤ
  pub rows_unchanged : Option ℤ
  pub error_code : Option String
  pub error_message : Option String
  pub block_reason : Option String
  pub commit_result : Option CommitResult
  pub prefect_flow_run_id : Option String
  pub prefect_task_run_id : Option String

-- `not text`: null or empty.
abbrev pub missing_text : Option String → Bool
missing_text none = true
missing_text (some s) = str_eq s ""

abbrev pub known_result : CommitResult → Bool
known_result (other_result s) = false
known_result _ = true

abbrev pub before : Option ℕ → ℕ → Bool
before none t = false
before (some f) t = ltb f t

-- The guards of `update_run` on the current row, in the source's order.
unfoldable pub check_update : RunRecord → RunUpdate → Call CommitResult
unfolding transition terminal
check_update current u = do
  raise_if (not (status_eq current.status u.expected_status)) status_conflict
  transition u.expected_status u.status
  raise_if (terminal u.status && not (is_some u.finished_at)) finished_at_required
  raise_if (status_eq u.status running && is_some u.finished_at) finished_at_forbidden
  raise_if (before u.finished_at current.started_at) invalid_timestamp
  raise_if (status_eq u.status blocked_quality && missing_text u.block_reason) block_reason_required
  raise_if (status_eq u.status failed_retryable && missing_text u.error_code) error_code_required
  raise_if (not (known_result (or_else u.commit_result current.commit_result)))
      invalid_commit_result
  pure (or_else u.commit_result current.commit_result)

abbrev pub or_keep : Option String → Option String → Option String
or_keep none old = old
or_keep (some s) old = some s

-- The columns that the statement sets; each text and count has been checked.
unfoldable pub set_columns : RunRecord → RunUpdate → CommitResult → Call (RunRecord → RunRecord)
set_columns current u chosen = do
  stage ← lift (optional_label u.stage_reached)
  processed ← count u.records_processed
  aggregates ← count u.aggregates_calculated
  inserted ← count u.rows_inserted
  updated ← count u.rows_updated
  unchanged ← count u.rows_unchanged
  code ← lift (optional_label u.error_code)
  message ← lift (optional_text u.error_message)
  reason ← lift (optional_text u.block_reason)
  flow ← lift (optional_label u.prefect_flow_run_id)
  task ← lift (optional_label u.prefect_task_run_id)
  pure (λ r. record r {
    status = u.status;
    stage_reached = or_keep stage current.stage_reached;
    finished_at = u.finished_at;
    records_processed = processed;
    aggregates_calculated = aggregates;
    rows_inserted = inserted;
    rows_updated = updated;
    rows_unchanged = unchanged;
    error_code = code;
    error_message = message;
    block_reason = reason;
    commit_result = chosen;
    prefect_flow_run_id = or_keep flow current.prefect_flow_run_id;
    prefect_task_run_id = or_keep task current.prefect_task_run_id;
  })

unfoldable pub update_run : Connection → ℕ → RunUpdate → Call RunRecord
update_run c id u = do
  require_transaction c
  current ← require_run c 0 id
  chosen ← check_update current u
  set ← set_columns current u chosen
  execute c 1
  row ← update_run_row id (λ r. status_eq r.status u.expected_status) set
  or_raise row status_conflict

unfoldable pub correlate_pending_run : Connection → ℕ → String → String → Call RunRecord
correlate_pending_run c id flow_id task_id = do
  require_transaction c
  flow ← lift (label flow_id)
  task ← lift (label task_id)
  execute c 0
  row ←
      update_run_row id (λ r. status_eq r.status pending)
        (λ r. record r {
          prefect_flow_run_id = some flow;
          prefect_task_run_id = some task;
          stage_reached = some "prefect";
        })
  or_raise row status_conflict

-- An observation may not say that the commit succeeded.
abbrev pub unresolved : CommitResult → Bool
unresolved uncertain = true
unresolved uncommitted = true
unresolved rolled_back = true
unresolved _ = false

-- The source checks once more what the returned row says; it is the row that was written.
unfoldable pub record_commit_observation :
    Connection → ℕ → CommitResult → String → String → String → Call RunRecord
record_commit_observation c id result stage code message = do
  require_transaction c
  raise_if (not (unresolved result)) invalid_commit_result
  current ← require_run c 0 id
  raise_if (not (status_eq current.status running)) status_conflict
  at_stage ← lift (label stage)
  with_code ← lift (label code)
  with_message ← lift (optional_text (some message))
  execute c 1
  row ←
      update_run_row id (λ r. status_eq r.status running)
        (λ r. record r {
          commit_result = result;
          stage_reached = some at_stage;
          error_code = some with_code;
          error_message = with_message;
        })
  or_raise row status_conflict

-- `record_fencing_advance` refuses whatever it is asked.
unfoldable pub record_fencing_advance : Connection → ℕ → ℕ → Option ℕ → Call (Unit {0})
record_fencing_advance c start token owner = raise lease_authority_forbidden
