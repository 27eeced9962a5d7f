-- ===== src/Tasks/Reconciliation.antt =====
-- services/task_queue/reconciliation.py: the repair of tasks from the history of runs. The statements of
-- one repair read one clock.
use ang553_latam_aie_01_fina.Common.{
  ℕ, pos, String, Bool, true, false, ◌&&◌, ◌||◌, Option, none, some, List, [], ◌∷◌, str_eq, ◌==◌,
  ltb, leb, or_else, if◌then◌else◌,
}
use ang553_latam_aie_01_fina.Publication.Types.{
  RunStatus, pending, running, succeeded, succeeded_noop, failed_retryable, blocked_quality,
  superseded, skipped_in_progress, other_status, CommitResult, not_attempted, uncommitted,
  uncertain, rolled_back, technically_observed, other_result, RunRecord,
}
use ang553_latam_aie_01_fina.Publication.Call.{find_run}
use ang553_latam_aie_01_fina.Tasks.Types as Rows
use ang553_latam_aie_01_fina.Tasks.Types.{
  ExecutionState, claimed, failed, dead_lettered, failure_pending_dlq, reconciliation_required,
  phase_terminal, failure, Json, text, number, no_fields, field, TaskRow, DeadLetter, Registry,
  Reply, done, refused, is_claimed, is_running, find_task, update_task,
}
use ang553_latam_aie_01_fina.Tasks.{due, max_failed_executions}
use ang553_latam_aie_01_fina.Tasks.Claims.{in_prefect, insert_dead_letter}

abbrev pub status_text : RunStatus → String
status_text pending = "pending"
status_text running = "running"
status_text succeeded = "succeeded"
status_text succeeded_noop = "succeeded_noop"
status_text failed_retryable = "failed_retryable"
status_text blocked_quality = "blocked_quality"
status_text superseded = "superseded"
status_text skipped_in_progress = "skipped_in_progress"
status_text (other_status s) = s

abbrev pub result_text : CommitResult → String
result_text not_attempted = "not_attempted"
result_text uncommitted = "uncommitted"
result_text uncertain = "uncertain"
result_text rolled_back = "rolled_back"
result_text technically_observed = "technically_observed"
result_text (other_result s) = s

abbrev pub is_pending_dlq : ExecutionState → Bool
is_pending_dlq failure_pending_dlq = true
is_pending_dlq _ = false

-- `{"succeeded", "dead_lettered", "failed", "reconciliation_required"}`
abbrev pub is_settled : ExecutionState → Bool
is_settled Rows.succeeded = true
is_settled dead_lettered = true
is_settled failed = true
is_settled reconciliation_required = true
is_settled _ = false

abbrev pub is_uncertain : CommitResult → Bool
is_uncertain uncertain = true
is_uncertain _ = false

abbrev pub is_observed : CommitResult → Bool
is_observed technically_observed = true
is_observed _ = false

-- The state and the `published` flag that a run's status decides; none where it decides nothing.
unfoldable pub decision_of : RunStatus → Bool → Option (ExecutionState × Option Bool)
decision_of succeeded observed = if observed then some (Rows.succeeded, some true) else none
decision_of succeeded_noop observed = if observed then some (Rows.succeeded, some true) else none
decision_of blocked_quality observed = some (Rows.succeeded, some false)
decision_of superseded observed = some (failed, some false)
decision_of skipped_in_progress observed = some (failed, some false)
decision_of failed_retryable observed = some (failed, some false)
decision_of _ observed = none

unfoldable pub history_decision : RunRecord → Option (ExecutionState × Option Bool)
history_decision run =
    if is_uncertain run.commit_result
    then some (reconciliation_required, none)
    else decision_of run.status (is_observed run.commit_result)

abbrev pub history_result : RunRecord → Json
history_result run = field "pipeline_status" (text (status_text run.status)) (
    field "commit_result" (text (result_text run.commit_result)) (
      field "counts"
        (field "inserted" (number (or_else run.rows_inserted (pos 0))) (
          field "updated" (number (or_else run.rows_updated (pos 0)))
            (field "unchanged" (number (or_else run.rows_unchanged (pos 0))) no_fields)))
        no_fields))

abbrev pub settled_row : ExecutionState → Option Bool → RunRecord → ℕ → TaskRow → TaskRow
settled_row state flag run now r = record r {
  execution_state = state;
  execution_phase = phase_terminal;
  pipeline_status = some (status_text run.status);
  published = flag;
  result_summary = some (history_result run);
  claim_token = none;
  claim_expires_at = none;
  finished_at = some now;
  updated_at = now;
}

abbrev pub abandoned_row : ℕ → TaskRow → TaskRow
abandoned_row now r = record r {
  execution_state = reconciliation_required;
  execution_phase = phase_terminal;
  pipeline_status = some "execution_abandoned";
  published = none;
  error_code = some "execution_abandoned";
  error_message = some "worker heartbeat expired after Prefect started";
  claim_expires_at = none;
  finished_at = some now;
  updated_at = now;
}

abbrev pub dead_row : ℕ → TaskRow → TaskRow
dead_row now r = record r {
  execution_state = dead_lettered;
  celery_state = some failure;
  updated_at = now;
}

-- What a repair answers; the state that it decided comes back as text in the source.
pub data Repair : Type 0 where
  not_found unchanged ambiguous still_pending : Repair
  decided : ExecutionState → Repair

unfoldable pub answer_repair :
    Repair → Reply (Option TaskRow) × List TaskRow → Reply Repair × List TaskRow
answer_repair a (done o, rows) = (done a, rows)
answer_repair a (refused, rows) = (refused, rows)

-- `row["error_code"] or default`
abbrev pub or_text : Option String → String → String
or_text none d = d
or_text (some s) d = if str_eq s "" then d else s

-- The dead letter is written under a savepoint, so that its failure is only a missing confirmation.
unfoldable pub confirmed :
    ℕ
    → ℕ
    → Reply Bool × List DeadLetter
    → List TaskRow
    → Reply Repair × List TaskRow × List DeadLetter
confirmed now id (done true, letters) rows =
    let (reply, rows') =
      answer_repair (decided dead_lettered)
        (update_task id (λ r. is_pending_dlq r.execution_state) (dead_row now) rows) in
    (reply, rows', letters)
confirmed now id (_, letters) rows = (done still_pending, rows, letters)

abbrev pub letter_of : ℕ → TaskRow → List DeadLetter → Reply Bool × List DeadLetter
letter_of now r letters =
    insert_dead_letter r.task_id r.run_id (if ltb r.attempt_count 1 then 1 else r.attempt_count)
      (if leb max_failed_executions r.attempt_count then "retries_exhausted" else "non_retryable")
      (or_text r.error_code "terminal_failure") (or_text r.error_message "terminal task failure")
      now letters

abbrev pub is_abandoned : ℕ → TaskRow → Bool
is_abandoned now r = in_prefect r && due now r.claim_expires_at

unfoldable pub undecided : ℕ → TaskRow → List TaskRow → Reply Repair × List TaskRow
undecided now r rows =
    if is_abandoned now r
    then answer_repair (decided reconciliation_required)
        (update_task r.task_id (is_abandoned now) (abandoned_row now) rows)
    else (done ambiguous, rows)

unfoldable pub decide :
    ℕ
    → TaskRow
    → RunRecord
    → Option (ExecutionState × Option Bool)
    → List TaskRow
    → Reply Repair × List TaskRow
decide now r run none rows = undecided now r rows
decide now r run (some (state, flag)) rows =
    answer_repair (decided state)
      (update_task r.task_id (λ _. true) (settled_row state flag run now) rows)

unfoldable pub repair :
    ℕ
    → TaskRow
    → RunRecord
    → List TaskRow
    → List DeadLetter
    → Reply Repair × List TaskRow × List DeadLetter
repair now r run rows letters =
    if is_pending_dlq r.execution_state
    then confirmed now r.task_id (letter_of now r letters) rows
    else if is_settled r.execution_state
    then (done unchanged, rows, letters)
    else let (reply, rows') = decide now r run (history_decision run) rows in
      (reply, rows', letters)

-- The row joined with its run.
unfoldable pub joined_with : TaskRow → Option RunRecord → Option (TaskRow × RunRecord)
joined_with r none = none
joined_with r (some run) = some (r, run)

unfoldable pub join_run : Option TaskRow → Registry → Option (TaskRow × RunRecord)
join_run none s = none
join_run (some r) s = joined_with r (find_run r.run_id s.store)

unfoldable pub joined : ℕ → Registry → Option (TaskRow × RunRecord)
joined id s = join_run (find_task id s.tasks) s

unfoldable pub reconcile_joined :
    ℕ → Option (TaskRow × RunRecord) → Registry → Reply Repair × Registry
reconcile_joined now none s = (done not_found, s)
reconcile_joined now (some (r, run)) s =
    let (reply, rows, letters) = repair now r run s.tasks s.dead_letters in
    (reply, record s { tasks = rows; dead_letters = letters })

unfoldable pub reconcile_task : ℕ → ℕ → Registry → Reply Repair × Registry
reconcile_task now id s = reconcile_joined now (joined id s) s

-- The statuses of `r.status IN (...)`.
abbrev pub is_ended_run : RunStatus → Bool
is_ended_run pending = false
is_ended_run running = false
is_ended_run (other_status s) = false
is_ended_run _ = true

abbrev pub is_owned : ExecutionState → Bool
is_owned s = is_claimed s || is_running s

abbrev pub needs_repair : ℕ → TaskRow → RunRecord → Bool
needs_repair now r run =
    is_pending_dlq r.execution_state
    || is_abandoned now r
    || (is_owned r.execution_state && due now r.claim_expires_at && is_ended_run run.status)

abbrev pub needs_join : ℕ → TaskRow → Option RunRecord → Bool
needs_join now r none = false
needs_join now r (some run) = needs_repair now r run

abbrev pub is_candidate : ℕ → Registry → TaskRow → Bool
is_candidate now s r = needs_join now r (find_run r.run_id s.store)

-- `ORDER BY t.updated_at, t.task_id LIMIT 1`
abbrev pub updated_before : TaskRow → TaskRow → Bool
updated_before a b =
    ltb a.updated_at b.updated_at || (a.updated_at == b.updated_at && ltb a.task_id b.task_id)

unfoldable pub oldest : TaskRow → Option TaskRow → TaskRow
oldest r none = r
oldest r (some best) = if updated_before best r then best else r

unfoldable pub candidate : (TaskRow → Bool) → List TaskRow → Option TaskRow
candidate p [] = none
candidate p (r ∷ rows) = let rest = candidate p rows in if p r then some (oldest r rest) else rest

-- `reconcile_one`: whether it took a task up; a refused statement raises, and is rolled back.
unfoldable pub committed : Registry → Reply Repair × Registry → Reply Bool × Registry
committed s (done a, t) = (done true, t)
committed s (refused, t) = (refused, s)

unfoldable pub reconcile_found : ℕ → Option TaskRow → Registry → Reply Bool × Registry
reconcile_found now none s = (done false, s)
reconcile_found now (some r) s = committed s (reconcile_task now r.task_id s)

unfoldable pub reconcile_one : ℕ → Registry → Reply Bool × Registry
reconcile_one now s = reconcile_found now (candidate (is_candidate now s) s.tasks) s
