-- ===== src/Tasks/Worker.antt =====
-- services/task_queue/tasks.py: `run_weekly_pipeline_task` on a worker. The environment is an argument:
-- what each transaction meets, the probe of the database, the pipeline's own run, and what others do to
-- the registry in the meantime.
mod Session
unfoldable pub use Session.*
use ang553_latam_aie_01_fina.Common.{
  ℕ, ◌+◌, ◌-◌, ◌*◌, ◌^◌, ◌%◌, ℤ, String, Bool, true, false, ◌&&◌, ◌||◌, Option, none, some, List,
  map, str_eq, ◌==◌, ltb, or_else, if◌then◌else◌,
}
use ang553_latam_aie_01_fina.Tasks.Types.{
  ExecutionState, succeeded, failed, reconciliation_required, Json, text, number, flag, texts, null,
  no_fields, field, TaskRow, DeadLetter, Registry, Reply, done, refused, second,
}
use ang553_latam_aie_01_fina.Publication.Text.{codes}
use ang553_latam_aie_01_fina.Tasks.{contract_version, max_failed_executions, is_safe_code}
use ang553_latam_aie_01_fina.Tasks.Claims.{
  TaskEnding, claim_execution, start_prefect, finish_execution, schedule_retry, fail_claim,
  insert_dead_letter, letter_state,
}
use ang553_latam_aie_01_fina.Tasks.Reconciliation.{reconcile_task, joined}
use ang553_latam_aie_01_fina.Tasks.Dispatch.{smaller}
use ang553_latam_aie_01_fina.Tasks.Calls.{TaskCall, replay}

module _ (w : Worker) (m : Message) where
  open w use {lease_seconds, token, link, clock}

  -- A failure before Prefect that no retry follows.
  unfoldable pub close_after :
      Claim → String → String → Registry → Bool × Registry → TaskOutcome × Registry
  close_after c code message s (inserted, t) = (
    task_failed,
    (end_transaction (link 1) s (
        on_tasks (fail_claim token c.epoch (letter_state inserted) code message (clock 1) m.task)
          t)).1,
  )

  unfoldable pub close_claim : Claim → String → String → String → Registry → TaskOutcome × Registry
  close_claim c reason code message s =
      close_after c code message s
        (try_dead_letter m.task m.run c.attempt reason code message (clock 1) s)

  abbrev pub retry_delay : ℕ → ℕ
  retry_delay attempt = smaller w.retry_max_backoff (2 ^ (attempt - 1))

  unfoldable pub retry_or_fail : Option Bool × Registry → TaskOutcome × Registry
  retry_or_fail (none, s) = (task_failed, s)
  retry_or_fail (some b, s) = (if w.retries_left then retried else task_failed, s)

  unfoldable pub retry_claim : Claim → String → String → Registry → TaskOutcome × Registry
  retry_claim c code message s =
      if ltb c.attempt max_failed_executions
      then retry_or_fail (
          end_transaction (link 1) s (
            on_tasks
              (schedule_retry token c.epoch (w.worker_clock + retry_delay c.attempt * second) code
                message (clock 1) m.task)
              s))
      else close_claim c "retries_exhausted" code message s

  abbrev pub uncertain_ending : String → String → TaskEnding
  uncertain_ending code message = record {
    state = reconciliation_required;
    pipeline_status = "execution_uncertain";
    published = none;
    result = no_fields;
    error_code = some code;
    error_message = some message;
  }

  -- An ending of a claim that runs, in the transaction after the pipeline's run.
  unfoldable pub end_claim : Claim → TaskEnding → Registry → Registry → Option Bool × Registry
  end_claim c e s t =
      end_transaction (link 2) s (on_tasks (finish_execution token c.epoch e (clock 2) m.task) t)

  abbrev pub failed_ending : PipelineResult → Json → Option Bool → Bool → TaskEnding
  failed_ending r payload shown inserted = record {
    state = letter_state inserted;
    pipeline_status = r.status;
    published = shown;
    result = payload;
    error_code = some r.status;
    error_message = some "pipeline returned a terminal failure";
  }

  abbrev pub result_ending : PipelineResult → Json → ExecutionState → Option Bool → TaskEnding
  result_ending r payload state shown = record {
    state = state;
    pipeline_status = r.status;
    published = shown;
    result = payload;
    error_code = none;
    error_message = none;
  }

  unfoldable pub reply_with : Json → Option Bool × Registry → TaskOutcome × Registry
  reply_with payload (some true, s) = (returned payload, s)
  reply_with payload (_, s) = (task_failed, s)

  unfoldable pub record_dead_letter :
      Claim
      → PipelineResult
      → Json
      → Option Bool
      → Registry
      → Bool × Registry
      → TaskOutcome × Registry
  record_dead_letter c r payload shown s (inserted, t) =
      (task_failed, (end_claim c (failed_ending r payload shown inserted) s t).1)

  unfoldable pub record_result :
      Claim
      → PipelineResult
      → Json
      → ExecutionState × Option Bool
      → Registry
      → TaskOutcome × Registry
  record_result c r payload (state, shown) s =
      if is_failed state
      then record_dead_letter c r payload shown s (
          try_dead_letter m.task m.run c.attempt "pipeline_terminal" r.status
            "pipeline returned a terminal failure" (clock 2) s)
      else reply_with payload (end_claim c (result_ending r payload state shown) s s)

  -- After the pipeline's run; a result of another run raises, and leaves the task running.
  unfoldable pub after_result :
      Claim → PipelineResult → Option Json → Registry → TaskOutcome × Registry
  after_result c r none s = (task_failed, s)
  after_result c r (some payload) s = record_result c r payload (terminal_of r) s

  unfoldable pub after_flow : Claim → Flow → Registry → TaskOutcome × Registry
  after_flow c (flow_raised code message) s =
      (task_failed, (end_claim c (uncertain_ending code message) s s).1)
  after_flow c (flow_result r) s = after_result c r (result_payload m r) s

  unfoldable pub run_flow : Claim → Option Bool × Registry → TaskOutcome × Registry
  run_flow c (some true, s) = after_flow c w.flow (replay w.meanwhile s)
  run_flow c (_, s) = (task_failed, s)

  unfoldable pub execute_claim : Claim → Probe → Registry → TaskOutcome × Registry
  execute_claim c (unavailable code message) s = retry_claim c code message s
  execute_claim c (broken code message) s = close_claim c "non_retryable" code message s
  execute_claim c answers s = run_flow c (
      end_transaction (link 1) s
        (on_tasks (start_prefect token c.epoch lease_seconds (clock 1) m.task) s))

  -- No claim: a repair, then the stored result of a task that succeeded.
  abbrev pub is_succeeded : ExecutionState → Bool
  is_succeeded succeeded = true
  is_succeeded _ = false

  unfoldable pub stored_result : Option TaskRow → TaskOutcome
  stored_result none = task_failed
  stored_result (some r) =
      if is_succeeded r.execution_state
      then returned (or_else r.result_summary no_fields)
      else task_failed

  abbrev pub joined_task : Registry → Option TaskRow
  joined_task s = elim (joined m.task s) [ none ↦ none | some (r, run) ↦ some r ]

  unfoldable pub existing_result : Option (Option TaskRow) × Registry → TaskOutcome × Registry
  existing_result (none, s) = (task_failed, s)
  existing_result (some existing, s) = (stored_result existing, s)

  abbrev pub repaired : {A : Type 0} → Reply A × Registry → Reply (Option TaskRow) × Registry
  repaired (done a, t) = (done (joined_task t), t)
  repaired (refused, t) = (refused, t)

  unfoldable pub unclaimed : Registry → TaskOutcome × Registry
  unclaimed s =
      existing_result (end_transaction (link 1) s (repaired (reconcile_task (clock 1) m.task s)))

  unfoldable pub with_claim : ℕ → Option (Option TaskRow) × Registry → TaskOutcome × Registry
  with_claim week (none, s) = (task_failed, s)
  with_claim week (some none, s) = unclaimed s
  with_claim week (some (some r), s) =
      if r.run_id == m.run && r.week_start == week
      then execute_claim (record { epoch = r.execution_epoch; attempt = r.attempt_count }) w.probe s
      else (task_failed, s)

  -- The timing is refused unless 0 < heartbeat < lease and 0 < backoff.
  abbrev pub valid_timing : Bool
  valid_timing =
      ltb 0 lease_seconds
      && ltb 0 w.heartbeat_seconds
      && ltb w.heartbeat_seconds lease_seconds
      && ltb 0 w.retry_max_backoff

  unfoldable pub claim_week : Option ℕ → Registry → TaskOutcome × Registry
  claim_week none s = (task_failed, s)
  claim_week (some week) s =
      if valid_timing
      then with_claim week (
          end_transaction (link 0) s
            (on_tasks (claim_execution token w.attempt_id lease_seconds (clock 0) m.task) s))
      else (task_failed, s)

  unfoldable pub run_weekly_pipeline_task : Registry → TaskOutcome × Registry
  run_weekly_pipeline_task s =
      if m.version == contract_version
      then claim_week (parse_closed_week w.today m.day) s
      else (task_failed, s)
