-- ===== src/Tasks/Worker/Session.antt =====
-- What `run_weekly_pipeline_task` of services/task_queue/tasks.py takes, meets and answers, with its
-- `_result_payload` and `parse_closed_week` of pipelines/pipeline.py.
use ang553_latam_aie_01_fina.Common.{
  ℕ, ◌+◌, ◌-◌, ◌%◌, ℤ, String, Bool, true, false, ◌&&◌, ◌||◌, Option, none, some, List, map, str_eq,
  ◌==◌, ltb, if◌then◌else◌,
}
use ang553_latam_aie_01_fina.Tasks.Types.{
  ExecutionState, succeeded, failed, reconciliation_required, Json, text, number, flag, texts, null,
  no_fields, field, TaskRow, DeadLetter, Registry, Reply, done, refused,
}
use ang553_latam_aie_01_fina.Publication.Text.{codes}
use ang553_latam_aie_01_fina.Tasks.{is_safe_code}
use ang553_latam_aie_01_fina.Tasks.Claims.{insert_dead_letter}
use ang553_latam_aie_01_fina.Tasks.Calls.{TaskCall}

-- What a transaction meets: nothing, a failure that rolls it back, or one after its commit.
pub data Link : Type 0 where
  works fails fails_late : Link

pub data Probe : Type 0 where
  answers : Probe
  unavailable : String → String → Probe  -- an OperationalError, with its public code and message
  broken : String → String → Probe

pub record PipelineResult : Type 0 where
  pub run_id : ℕ
  pub week_start : String
  pub status : String
  pub inserted : Option ℤ
  pub updated : Option ℤ
  pub unchanged : Option ℤ
  pub commit_result : String
  pub publication_recorded : Bool
  pub recovered : Bool
  pub evidence_inconclusive : Bool
  pub coverage_source : String
  pub errors : List String
  pub production_certified : Bool

pub data Flow : Type 0 where
  flow_raised : String → String → Flow
  flow_result : PipelineResult → Flow

pub record Worker : Type 0 where
  pub lease_seconds : ℕ
  pub heartbeat_seconds : ℕ
  pub retry_max_backoff : ℕ
  pub today : ℕ
  pub token : ℕ
  pub attempt_id : ℕ
  pub link : ℕ → Link
  pub clock : ℕ → ℕ
  pub worker_clock : ℕ  -- the worker's own reading, from which a retry counts
  pub probe : Probe
  pub retries_left : Bool  -- whether Celery's own count lets `self.retry` retry
  pub flow : Flow
  pub meanwhile : List TaskCall

-- The task's message; a day is none where it is not written YYYY-MM-DD.
pub record Message : Type 0 where
  pub task : ℕ
  pub task_text : String
  pub run : ℕ
  pub run_text : String
  pub day : Option ℕ
  pub version : ℕ

-- How the task ends: with a payload, a Retry, or a TaskExecutionError.
pub data TaskOutcome : Type 0 where
  returned : Json → TaskOutcome
  retried task_failed : TaskOutcome

-- `with engine.begin()`: the value, none if it raised.
unfoldable pub end_transaction :
    {A : Type 0} → Link → Registry → Reply A × Registry → Option A × Registry
end_transaction fails s (_, t) = (none, s)
end_transaction _ s (refused, t) = (none, s)
end_transaction works s (done a, t) = (some a, t)
end_transaction fails_late s (done a, t) = (none, t)

abbrev pub on_tasks :
    {A : Type 0} → (List TaskRow → Reply A × List TaskRow) → Registry → Reply A × Registry
on_tasks f s = let (reply, rows) = f s.tasks in (reply, record s { tasks = rows })

-- The Monday of a day's week; ordinal 1 is a Monday.
abbrev pub monday_of : ℕ → ℕ
monday_of day = day - (day + 6) % 7

-- `parse_closed_week`
unfoldable pub parse_closed_week : ℕ → Option ℕ → Option ℕ
parse_closed_week today none = none
parse_closed_week today (some day) =
    if (day + 6) % 7 == 0 && ltb day (monday_of today) then some day else none

-- `_safe_result_errors` and `_result_payload`
abbrev pub safe_error : String → String
safe_error s = if is_safe_code (codes s) then s else "redacted_diagnostic"

abbrev pub count_json : Option ℤ → Json
count_json none = null
count_json (some n) = number n

unfoldable pub result_payload : Message → PipelineResult → Option Json
result_payload m r =
    if r.run_id == m.run
    then some (
        field "task_id" (text m.task_text) (
          field "run_id" (text m.run_text) (
            field "week_start" (text r.week_start) (
              field "status" (text r.status) (
                field "counts"
                  (field "inserted" (count_json r.inserted) (
                    field "updated" (count_json r.updated)
                      (field "unchanged" (count_json r.unchanged) no_fields)))
                  (field "commit_result" (text r.commit_result) (
                    field "publication_recorded" (flag r.publication_recorded) (
                      field "recovered" (flag r.recovered) (
                        field "evidence_inconclusive" (flag r.evidence_inconclusive) (
                          field "coverage_source" (text r.coverage_source) (
                            field "errors" (texts (map safe_error r.errors)) (
                              field "production_certified" (flag r.production_certified)
                                no_fields))))))))))))
    else none

-- The state and the `published` flag of a result.
unfoldable pub terminal_of : PipelineResult → ExecutionState × Option Bool
terminal_of r =
    if str_eq r.status "commit_uncertain" || str_eq r.commit_result "uncertain"
    then (reconciliation_required, none)
    else if str_eq r.status "blocked_quality"
    then (succeeded, some false)
    else if str_eq r.status "succeeded" || str_eq r.status "succeeded_noop"
    then (succeeded, some r.publication_recorded)
    else (failed, some false)

abbrev pub is_failed : ExecutionState → Bool
is_failed failed = true
is_failed _ = false

-- `_try_dead_letter`: a failure is rolled back to its savepoint.
unfoldable pub letter_saved : Reply Bool × List DeadLetter → Registry → Bool × Registry
letter_saved (refused, letters) s = (false, s)
letter_saved (done b, letters) s = (b, record s { dead_letters = letters })

unfoldable pub try_dead_letter :
    ℕ → ℕ → ℕ → String → String → String → ℕ → Registry → Bool × Registry
try_dead_letter task run attempt reason code message now s =
    letter_saved (insert_dead_letter task run attempt reason code message now s.dead_letters) s

-- The claim that a worker holds.
pub record Claim : Type 0 where
  pub epoch : ℕ
  pub attempt : ℕ
