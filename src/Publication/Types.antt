-- ===== src/Publication/Types.antt =====
-- The rows of pipelines/run_store.py. Run identifiers, instants in UTC and days (as ordinals from
-- 0001-01-01, which is a Monday and has ordinal 1) are numbers.
use ang553_latam_aie_01_fina.Common.{ℕ, ℤ, String, Bool, Option, List, str_eq, ◌==◌}

-- A status text: one of the eight of RUN_STATUSES, or another.
pub data RunStatus : Type 0 where
  pending running succeeded succeeded_noop failed_retryable blocked_quality superseded : RunStatus
  skipped_in_progress : RunStatus
  other_status : String → RunStatus

abbrev pub status_rank : RunStatus → ℕ
status_rank pending = 0
status_rank running = 1
status_rank succeeded = 2
status_rank succeeded_noop = 3
status_rank failed_retryable = 4
status_rank blocked_quality = 5
status_rank superseded = 6
status_rank skipped_in_progress = 7
status_rank (other_status s) = 8

-- Equality of two status texts.
unfoldable pub status_eq : RunStatus → RunStatus → Bool
status_eq (other_status s) (other_status t) = str_eq s t
status_eq a b = status_rank a == status_rank b

-- A commit result: one of the five of COMMIT_RESULTS, or another text.
pub data CommitResult : Type 0 where
  not_attempted uncommitted uncertain rolled_back technically_observed : CommitResult
  other_result : String → CommitResult

pub record RunRecord : Type 0 where
  pub run_id : ℕ
  pub pipeline_name : String
  pub target_week_start : ℕ
  pub trigger_type : String
  pub status : RunStatus
  pub started_at : ℕ
  pub finished_at : Option ℕ
  pub stage_reached : Option String
  pub records_processed : Option ℤ
  pub aggregates_calculated : Option ℤ
  pub rows_inserted : Option ℤ
  pub rows_updated : Option ℤ
  pub rows_unchanged : Option ℤ
  pub error_code : Option String
  pub error_message : Option String
  pub block_reason : Option String
  pub commit_result : CommitResult
  pub prefect_flow_run_id : Option String
  pub prefect_task_run_id : Option String

pub record WeekControl : Type 0 where
  pub week_start : ℕ
  pub owner_run_id : Option ℕ
  pub lease_acquired_at : Option ℕ
  pub lease_expires_at : Option ℕ
  pub fencing_token : ℕ
  pub last_valid_publication_run_id : Option ℕ
  pub last_valid_published_at : Option ℕ
  pub dependency_fingerprint : Option String
  pub published_row_count : Option ℤ
  pub rules_version : Option String

-- The two tables; `run_id` and `week_start` are their primary keys.
pub record Store : Type 0 where
  pub runs : List RunRecord
  pub controls : List WeekControl

-- How the driver can fail a statement: the classes of `_UNCERTAIN`, an integrity error, any other.
pub data Fault : Type 0 where
  uncertain_fault integrity_fault other_fault : Fault

-- The caller's connection, as `_require_transaction` inspects it, with what its n-th statement meets:
-- a fault if there is one, and the server's clock.
pub record Connection : Type 0 where
  pub can_execute : Bool
  pub autocommit : Bool
  pub postgresql : Bool
  pub in_transaction : Bool
  pub fault : ℕ → Option Fault
  pub clock : ℕ → ℕ
