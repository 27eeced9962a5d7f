-- ===== src/Tasks/Types.antt =====
-- The rows of services/task_queue/store.py and the CHECK constraints of infra/sql/reporting_async_tasks.sql.
-- Identifiers and tokens are numbers, days are ordinals, instants are microseconds in UTC.
use ang553_latam_aie_01_fina.Common.{
  ℕ, ℤ, String, Bool, true, false, not, ◌&&◌, ◌||◌, Option, none, some, List, [], ◌∷◌, ◌++◌, str_eq,
  ◌==◌, leb, is_some, length, any_of, first, change_where, if◌then◌else◌,
}
use ang553_latam_aie_01_fina.Publication.Types.{Store}
use ang553_latam_aie_01_fina.Publication.Text.{codes}

pub data ExecutionState : Type 0 where
  accepted queued claimed running retry_wait succeeded failed dead_lettered : ExecutionState
  failure_pending_dlq reconciliation_required : ExecutionState

pub data ExecutionPhase : Type 0 where
  phase_none phase_accepted preflight prefect_started phase_commit phase_terminal : ExecutionPhase

pub data DispatchStatus : Type 0 where
  dispatch_pending publishing dispatch_retry published publication_uncertain : DispatchStatus
  dispatch_reconciliation : DispatchStatus

pub data CeleryState : Type 0 where
  started retry success failure : CeleryState

-- A `jsonb` value, as far as results use it; an object is a chain of fields.
pub data Json : Type 0 where
  text : String → Json
  number : ℤ → Json
  flag : Bool → Json
  texts : List String → Json
  null no_fields : Json
  field : String → Json → Json → Json

pub record TaskRow : Type 0 where
  pub task_id : ℕ
  pub run_id : ℕ
  pub requested_by_user_id : String
  pub task_name : String
  pub week_start : ℕ
  pub execution_state : ExecutionState
  pub dispatch_status : DispatchStatus
  pub celery_state : Option CeleryState
  pub attempt_count : ℕ
  pub result_summary : Option Json
  pub error_code : Option String
  pub error_message : Option String
  pub pipeline_status : Option String
  pub published : Option Bool
  pub attempt_id : Option ℕ
  pub attempt_number : Option ℕ
  pub claim_token : Option ℕ
  pub execution_epoch : ℕ
  pub execution_phase : ExecutionPhase
  pub claim_expires_at : Option ℕ
  pub heartbeat_at : Option ℕ
  pub next_attempt_at : Option ℕ
  pub created_at : ℕ
  pub updated_at : ℕ
  pub finished_at : Option ℕ

-- The payload's keys are the record's own; `contract_version` is CONTRACT_VERSION.
pub record Payload : Type 0 where
  pub contract_version : ℕ
  pub task : ℕ
  pub run : ℕ
  pub week : ℕ

pub record DispatchRow : Type 0 where
  pub task_id : ℕ
  pub payload : Payload
  pub dispatch_status : DispatchStatus
  pub publish_attempts : ℕ
  pub next_attempt_at : ℕ
  pub relay_owner : Option String
  pub relay_token : Option ℕ
  pub relay_lease_expires_at : Option ℕ
  pub last_error_code : Option String
  pub created_at : ℕ
  pub updated_at : ℕ
  pub published_at : Option ℕ

pub record DeadLetter : Type 0 where
  pub task_id : ℕ
  pub run_id : ℕ
  pub attempt_number : ℕ
  pub terminal_reason : String
  pub error_code : String
  pub error_message : String
  pub failed_at : ℕ

-- The reporting database, with the runs and week controls of the run store.
pub record Registry : Type 0 where
  pub store : Store
  pub tasks : List TaskRow
  pub outbox : List DispatchRow
  pub dead_letters : List DeadLetter

abbrev pub is_preflight : ExecutionPhase → Bool
is_preflight preflight = true
is_preflight _ = false

abbrev pub is_prefect_started : ExecutionPhase → Bool
is_prefect_started prefect_started = true
is_prefect_started _ = false

abbrev pub is_claimed : ExecutionState → Bool
is_claimed claimed = true
is_claimed _ = false

abbrev pub is_running : ExecutionState → Bool
is_running running = true
is_running _ = false

abbrev pub within : ℕ → Option String → Bool
within limit none = true
within limit (some s) = leb (length (codes s)) limit

abbrev pub ends_after : ℕ → Option ℕ → Bool
ends_after start none = true
ends_after start (some t) = leb start t

abbrev pub number_within : Option ℕ → Bool
number_within none = true
number_within (some n) = leb 1 n && leb n 3

-- async_tasks_attempts_ck, ..._preflight_claim_ck, ..._running_claim_ck, ..._safe_error_ck and
-- ..._timestamps_ck; the other CHECKs hold by the types.
abbrev pub has_claim : TaskRow → Bool
has_claim r =
    is_some r.attempt_id
    && is_some r.claim_token
    && is_some r.claim_expires_at
    && is_some r.heartbeat_at

unfoldable pub checks : TaskRow → Bool
checks r =
    (leb r.attempt_count 3 && number_within r.attempt_number)
    && (not (is_preflight r.execution_phase) || (is_claimed r.execution_state && has_claim r))
    && (not (is_prefect_started r.execution_phase) || (is_running r.execution_state && has_claim r))
    && (within 128 r.error_code && within 512 r.error_message)
    && ends_after r.created_at r.finished_at

-- A statement's value, or the error of a constraint it violates.
pub data Reply (A : Type 0) : Type 0 where
  done : A → Reply A
  refused : Reply A

abbrev pub task_with : ℕ → TaskRow → Bool
task_with id r = r.task_id == id

abbrev pub find_task : ℕ → List TaskRow → Option TaskRow
find_task id rows = first (task_with id) rows

-- `UPDATE reporting.async_tasks SET ... WHERE task_id = :task_id AND ... RETURNING ...`
unfoldable pub stored_row :
    ℕ → (TaskRow → TaskRow) → TaskRow → List TaskRow → Reply (Option TaskRow) × List TaskRow
stored_row id set new rows =
    if checks new then (done (some new), change_where (task_with id) set rows) else (refused, rows)

unfoldable pub change_task :
    ℕ
    → (TaskRow → Bool)
    → (TaskRow → TaskRow)
    → Option TaskRow
    → List TaskRow
    → Reply (Option TaskRow) × List TaskRow
change_task id cond set none rows = (done none, rows)
change_task id cond set (some r) rows =
    if cond r then stored_row id set (set r) rows else (done none, rows)

unfoldable pub update_task :
    ℕ
    → (TaskRow → Bool)
    → (TaskRow → TaskRow)
    → List TaskRow
    → Reply (Option TaskRow) × List TaskRow
update_task id cond set rows = change_task id cond set (find_task id rows) rows

-- `.first() is not None`
abbrev pub answered : Reply (Option TaskRow) × List TaskRow → Reply Bool × List TaskRow
answered (done o, rows) = (done (is_some o), rows)
answered (refused, rows) = (refused, rows)

-- The CHECKs of task_dead_letters.
unfoldable pub letter_checks : DeadLetter → Bool
letter_checks l =
    (leb 1 l.attempt_number && leb l.attempt_number 3)
    && (str_eq l.terminal_reason "retries_exhausted"
        || str_eq l.terminal_reason "non_retryable"
        || str_eq l.terminal_reason "pipeline_terminal")
    && (leb 1 (length (codes l.error_code)) && leb (length (codes l.error_code)) 128)
    && (leb 1 (length (codes l.error_message)) && leb (length (codes l.error_message)) 512)

abbrev pub letter_with : ℕ → DeadLetter → Bool
letter_with id l = l.task_id == id

-- `INSERT ... ON CONFLICT (task_id) DO UPDATE ... WHERE run_id = EXCLUDED.run_id RETURNING task_id`,
-- where `run_id` is unique too.
unfoldable pub put_letter :
    DeadLetter → Option DeadLetter → List DeadLetter → Reply Bool × List DeadLetter
put_letter new none letters =
    if any_of (λ (l : DeadLetter). l.run_id == new.run_id) letters
    then (refused, letters)
    else (done true, letters ++ new ∷ [])
put_letter new (some l) letters = (done (l.run_id == new.run_id), letters)

abbrev pub second : ℕ
second = 1_000_000
