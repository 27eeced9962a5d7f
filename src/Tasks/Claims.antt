-- ===== src/Tasks/Claims.antt =====
-- The claims of services/task_queue/store.py: one statement each, which reads the clock once. A message
-- comes as `sanitize_message` returned it.
use ang553_latam_aie_01_fina.Common.{
  ℕ, ◌+◌, ◌*◌, String, Bool, true, false, ◌&&◌, Option, none, some, List, str_eq, opt_eq, ◌==◌, ltb,
  first, if◌then◌else◌,
}
use ang553_latam_aie_01_fina.Tasks.Types.{
  ExecutionState, accepted, queued, claimed, running, retry_wait, succeeded, dead_lettered,
  failure_pending_dlq, reconciliation_required, phase_none, preflight, prefect_started,
  phase_terminal, CeleryState, started, retry, success, failure, Json, TaskRow, DeadLetter,
  is_preflight, is_prefect_started, is_claimed, is_running, Reply, refused, update_task, answered,
  letter_checks, letter_with, put_letter, second,
}
use ang553_latam_aie_01_fina.Tasks.{due, max_failed_executions, safe_code}

-- `_CLAIM`
abbrev pub is_claimable_state : ℕ → TaskRow → ExecutionState → Bool
is_claimable_state now r accepted = true
is_claimable_state now r queued = true
is_claimable_state now r retry_wait = due now r.next_attempt_at
is_claimable_state now r claimed = is_preflight r.execution_phase && due now r.claim_expires_at
is_claimable_state now r _ = false

abbrev pub is_claimable : ℕ → TaskRow → Bool
is_claimable now r =
    ltb r.attempt_count max_failed_executions && is_claimable_state now r r.execution_state

abbrev pub claim_row : ℕ → ℕ → ℕ → ℕ → TaskRow → TaskRow
claim_row token attempt lease now r = record r {
  execution_state = claimed;
  attempt_count = r.attempt_count + 1;
  attempt_number = some (r.attempt_count + 1);
  attempt_id = some attempt;
  celery_state = some started;
  claim_token = some token;
  execution_epoch = r.execution_epoch + 1;
  execution_phase = preflight;
  claim_expires_at = some (now + lease * second);
  heartbeat_at = some now;
  updated_at = now;
}

-- `claim_execution`; it raises a ValueError, as a refused statement, for a lease below one second.
unfoldable pub claim_execution :
    ℕ → ℕ → ℕ → ℕ → ℕ → List TaskRow → Reply (Option TaskRow) × List TaskRow
claim_execution token attempt lease now id rows =
    if ltb lease 1
    then (refused, rows)
    else update_task id (is_claimable now) (claim_row token attempt lease now) rows

-- The fencing identity of a claim.
abbrev pub holds_claim : ℕ → ℕ → TaskRow → Bool
holds_claim token epoch r = opt_eq r.claim_token (some token) && r.execution_epoch == epoch

abbrev pub in_preflight : TaskRow → Bool
in_preflight r = is_claimed r.execution_state && is_preflight r.execution_phase

abbrev pub in_prefect : TaskRow → Bool
in_prefect r = is_running r.execution_state && is_prefect_started r.execution_phase

abbrev pub expires_later : ℕ → Option ℕ → Bool
expires_later now none = false
expires_later now (some t) = ltb now t

-- `_START_PREFECT`
abbrev pub is_startable : ℕ → ℕ → ℕ → TaskRow → Bool
is_startable now token epoch r =
    in_preflight r && holds_claim token epoch r && expires_later now r.claim_expires_at

abbrev pub started_row : ℕ → ℕ → TaskRow → TaskRow
started_row lease now r = record r {
  execution_state = running;
  execution_phase = prefect_started;
  heartbeat_at = some now;
  claim_expires_at = some (now + lease * second);
  updated_at = now;
}

unfoldable pub start_prefect : ℕ → ℕ → ℕ → ℕ → ℕ → List TaskRow → Reply Bool × List TaskRow
start_prefect token epoch lease now id rows =
    answered (update_task id (is_startable now token epoch) (started_row lease now) rows)

-- `_HEARTBEAT`
abbrev pub is_held : ℕ → ℕ → TaskRow → Bool
is_held token epoch r = in_prefect r && holds_claim token epoch r

abbrev pub heartbeat_row : ℕ → ℕ → TaskRow → TaskRow
heartbeat_row lease now r = record r {
  heartbeat_at = some now;
  claim_expires_at = some (now + lease * second);
  updated_at = now;
}

unfoldable pub heartbeat_execution : ℕ → ℕ → ℕ → ℕ → ℕ → List TaskRow → Reply Bool × List TaskRow
heartbeat_execution token epoch lease now id rows =
    answered (update_task id (is_held token epoch) (heartbeat_row lease now) rows)

-- The arguments of `finish_execution` behind the claim's identity.
pub record TaskEnding : Type 0 where
  pub state : ExecutionState
  pub pipeline_status : String
  pub published : Option Bool
  pub result : Json
  pub error_code : Option String
  pub error_message : Option String

abbrev pub celery_state_of : ExecutionState → String → CeleryState
celery_state_of succeeded status = success
celery_state_of reconciliation_required status =
    if str_eq status "commit_uncertain" then success else failure
celery_state_of _ status = failure

abbrev pub safe_code_of : Option String → Option String
safe_code_of none = none
safe_code_of (some s) = some (safe_code s)

abbrev pub finish_row : TaskEnding → ℕ → TaskRow → TaskRow
finish_row e now r = record r {
  execution_state = e.state;
  execution_phase = phase_terminal;
  celery_state = some (celery_state_of e.state e.pipeline_status);
  pipeline_status = some e.pipeline_status;
  published = e.published;
  result_summary = some e.result;
  error_code = safe_code_of e.error_code;
  error_message = e.error_message;
  finished_at = some now;
  heartbeat_at = some now;
  claim_expires_at = none;
  updated_at = now;
}

unfoldable pub finish_execution :
    ℕ → ℕ → TaskEnding → ℕ → ℕ → List TaskRow → Reply Bool × List TaskRow
finish_execution token epoch e now id rows =
    answered (update_task id (is_held token epoch) (finish_row e now) rows)

-- `_RETRY`
abbrev pub is_prepared : ℕ → ℕ → TaskRow → Bool
is_prepared token epoch r = in_preflight r && holds_claim token epoch r

abbrev pub retry_row : ℕ → String → String → ℕ → TaskRow → TaskRow
retry_row next code message now r = record r {
  execution_state = retry_wait;
  execution_phase = phase_none;
  celery_state = some retry;
  error_code = some (safe_code code);
  error_message = some message;
  next_attempt_at = some next;
  claim_token = none;
  claim_expires_at = none;
  updated_at = now;
}

unfoldable pub schedule_retry :
    ℕ → ℕ → ℕ → String → String → ℕ → ℕ → List TaskRow → Reply Bool × List TaskRow
schedule_retry token epoch next code message now id rows =
    answered (update_task id (is_prepared token epoch) (retry_row next code message now) rows)

-- `fail_claim`
abbrev pub failed_row : ExecutionState → String → String → ℕ → TaskRow → TaskRow
failed_row state code message now r = record r {
  execution_state = state;
  execution_phase = phase_terminal;
  celery_state = some failure;
  published = some false;
  error_code = some (safe_code code);
  error_message = some message;
  claim_expires_at = none;
  finished_at = some now;
  updated_at = now;
}

unfoldable pub fail_claim :
    ℕ → ℕ → ExecutionState → String → String → ℕ → ℕ → List TaskRow → Reply Bool × List TaskRow
fail_claim token epoch state code message now id rows =
    answered (update_task id (is_prepared token epoch) (failed_row state code message now) rows)

-- How a failure ends: a dead letter, or one that is still to be written.
abbrev pub letter_state : Bool → ExecutionState
letter_state inserted = if inserted then dead_lettered else failure_pending_dlq

abbrev pub letter_row : ℕ → ℕ → ℕ → String → String → String → ℕ → DeadLetter
letter_row task run attempt reason code message now = record {
  task_id = task;
  run_id = run;
  attempt_number = attempt;
  terminal_reason = safe_code reason;
  error_code = safe_code code;
  error_message = message;
  failed_at = now;
}

unfoldable pub insert_checked : DeadLetter → List DeadLetter → Reply Bool × List DeadLetter
insert_checked new letters =
    if letter_checks new
    then put_letter new (first (letter_with new.task_id) letters) letters
    else (refused, letters)

unfoldable pub insert_dead_letter :
    ℕ → ℕ → ℕ → String → String → String → ℕ → List DeadLetter → Reply Bool × List DeadLetter
insert_dead_letter task run attempt reason code message now letters =
    insert_checked (letter_row task run attempt reason code message now) letters
