-- ===== src/Tasks/Tests.antt =====
-- A day of the task queue: one task is accepted, claimed twice, run and finished.
use ang553_latam_aie_01_fina.Common.{
  ◌⊎◌, ℕ, true, false, ◌≡◌, refl, ◌≤◌, ◌+◌, none, some, List, [], ◌∷◌, arith, first, any_of, all_of,
  change_where,
}
use ang553_latam_aie_01_fina.Publication.Types.{Connection, RunRecord, pending, not_attempted}
use ang553_latam_aie_01_fina.Publication.Call.{
  ok, ◌>>=◌, require_transaction, week as monday, execute,
}
use ang553_latam_aie_01_fina.Publication.Text.{checked_text, label, optional_label}
use ang553_latam_aie_01_fina.Publication.Runs.{create_run, insert_run, inserted_run}
use ang553_latam_aie_01_fina.Tasks.Types.{
  Registry, TaskRow, find_task, no_fields, succeeded, update_task, change_task, stored_row, checks,
  done,
}
use ang553_latam_aie_01_fina.Tasks.{
  Drawn, accept_async_task, accept_for, accept_created, insert_task, active_run, accepted_row,
  outbox_row,
}
use ang553_latam_aie_01_fina.Tasks.Claims.{TaskEnding, claim_row, claim_execution}
use ang553_latam_aie_01_fina.Tasks.Calls.{
  TaskCall, claim, start, finish, end_succeeded, perform, replay, by_finish, guarded,
}
use ang553_latam_aie_01_fina.Tasks.Claims.{finish_row, start_prefect, finish_execution}
use ang553_latam_aie_01_fina.Tasks.Calls.{reconcile}
use ang553_latam_aie_01_fina.Tasks.Reconciliation.{reconcile_task, is_candidate, ambiguous}
use ang553_latam_aie_01_fina.Tasks.Dispatch.{
  RelayConfig, RelayTurn, raised, taken, relay_once, claim_one, swept, take_ready, next_ready,
  readier, published_turn, publish_done, publish_failed,
}
use ang553_latam_aie_01_fina.Tasks.Calls.{heartbeat}
use ang553_latam_aie_01_fina.Tasks.Worker
use ang553_latam_aie_01_fina.Tasks.Execution.{
  with_flow, StartConfirmed, run_weekly_pipeline_task-Fenced,
}
use ang553_latam_aie_01_fina.Tasks.Rows.{Evolves}
use ang553_latam_aie_01_fina.Tasks.Diagram.{Moved, end_of_task}
use ang553_latam_aie_01_fina.Tasks.Diagram.Refines.{perform-Moved}
use ang553_latam_aie_01_fina.Tasks.Attempts.{
  starts, starts_task, claims, claims_task, execution_bounds,
}
use ang553_latam_aie_01_fina.Tasks.Fencing.{stale_claim, replay-end_of_task}
use ang553_latam_aie_01_fina.Tasks.Accepts.{accept_again}
use ang553_latam_aie_01_fina.Tasks.Drain.{dispatched, allowance, dispatched-le}
use ang553_latam_aie_01_fina.Tasks.Stuck.{Abandoned-stays}

abbrev online : Connection
online = record {
  can_execute = true;
  autocommit = false;
  postgresql = true;
  in_transaction = true;
  fault = λ n. none;
  clock = λ n. 100;
}

abbrev empty : Registry
empty = record {
  store = record { runs = []; controls = [] };
  tasks = [];
  outbox = [];
  dead_letters = [];
}

abbrev drawn : Drawn
drawn = record { run = 11; task = 21; unrecorded = 99; now = 100 }

abbrev week_8 : ℕ
week_8 = 8

abbrev pending_run : RunRecord
pending_run = record {
  run_id = 11;
  pipeline_name = "weekly_warehouse_client_performance";
  target_week_start = 8;
  trigger_type = "http";
  status = pending;
  started_at = 100;
  finished_at = none;
  stage_reached = some "accepted";
  records_processed = none;
  aggregates_calculated = none;
  rows_inserted = none;
  rows_updated = none;
  rows_unchanged = none;
  error_code = none;
  error_message = none;
  block_reason = none;
  commit_result = not_attempted;
  prefect_flow_run_id = none;
  prefect_task_run_id = none;
}

abbrev task_21 : TaskRow
task_21 = accepted_row 21 11 "u" 8 100

abbrev accepted_world : Registry
accepted_world = record empty {
  store = record { runs = pending_run ∷ []; controls = [] };
  tasks = task_21 ∷ [];
  outbox = outbox_row 21 11 8 100 ∷ [];
}

accepts : accept_async_task online drawn "u" 8 empty ≡ (ok (11, 21, true), accepted_world)
unfolding accept_async_task accept_for accept_created insert_task active_run create_run
    require_transaction monday execute insert_run inserted_run ◌>>=◌ label optional_label
    checked_text any_of first all_of
accepts = refl

abbrev other : Drawn
other = record { run = 12; task = 22; unrecorded = 98; now = 150 }

accept_again_example :
    accept_async_task online other "v" 8 accepted_world ≡ (ok (11, 21, false), accepted_world)
accept_again_example =
    accept_again online drawn "u" 8 empty 11 21 accepted_world accepts online other "v"

abbrev good_ending : TaskEnding
good_ending = record {
  state = succeeded;
  pipeline_status = "succeeded";
  published = some true;
  result = no_fields;
  error_code = none;
  error_message = none;
}

-- The first claim expires before Prefect, the second runs.
abbrev day : List TaskCall
day =
    claim 5 6 60 200 21
    ∷ claim 7 8 60 70_000_000 21
    ∷ start 5 1 60 70_000_001 21
    ∷ start 7 2 60 70_000_002 21
    ∷ finish 7 2 end_succeeded good_ending 70_000_003 21
    ∷ []

perform-Moved_example :
    Evolves Moved accepted_world.tasks (perform (claim 5 6 60 200 21) accepted_world).tasks
perform-Moved_example = perform-Moved (claim 5 6 60 200 21) accepted_world

day_starts : starts 21 day accepted_world ≡ 1
unfolding starts starts_task perform claim_execution start_prefect finish_execution update_task
    change_task stored_row checks first change_where
day_starts = refl

day_claims : claims 21 day accepted_world ≡ 2
unfolding claims claims_task perform claim_execution start_prefect finish_execution update_task
    change_task stored_row checks first change_where
day_claims = refl

execution_bounds_example :
    (0 + claims 21 day accepted_world ≤ 3) × (starts 21 day accepted_world ≤ 1)
unfolding first
execution_bounds_example = execution_bounds 21 day accepted_world task_21 refl (omega arith)

-- The worker of the first claim comes back after the second claim.
abbrev claimed_again : Registry
claimed_again = record accepted_world { tasks = claim_row 5 6 60 200 task_21 ∷ [] }

stale_claim_example :
    let after =
      (replay
        (start 7 2 60 70_000_002 21 ∷ [])
        (perform (claim 7 8 60 70_000_000 21) claimed_again)).tasks in
    guarded 5 1 (by_finish end_succeeded good_ending) 80_000_000 21 after ≡ (done false, after)
unfolding claim_execution update_task change_task stored_row checks first
stale_claim_example =
    stale_claim 7 8 60 70_000_000 21 claimed_again (claim_row 5 6 60 200 task_21) refl refl
      (start 7 2 60 70_000_002 21 ∷ []) 5 1 80_000_000 (by_finish end_succeeded good_ending)
      (omega arith)

abbrev finished_row : TaskRow
finished_row = finish_row good_ending 300 (claim_row 5 6 60 200 task_21)

abbrev finished_world : Registry
finished_world = record accepted_world { tasks = finished_row ∷ [] }

replay-end_of_task_example :
    (r : TaskRow) × (find_task 21
        (replay (reconcile 900 21 ∷ claim 7 8 60 400 21 ∷ []) finished_world).tasks
      ≡ some r)
    × (end_of_task r ≡ end_of_task finished_row)
unfolding first
replay-end_of_task_example =
    replay-end_of_task (reconcile 900 21 ∷ claim 7 8 60 400 21 ∷ []) 21 finished_world finished_row
      refl refl

abbrev third_row : TaskRow
third_row = record (claim_row 5 6 60 200 task_21) { attempt_count = 3; execution_epoch = 3 }

abbrev abandoned_world : Registry
abandoned_world = record accepted_world { tasks = third_row ∷ [] }

Abandoned-stays_example :
    ((claim_execution 7 8 60 900_000_000 21 abandoned_world.tasks).1 ≡ abandoned_world.tasks)
    × (is_candidate 900_000_000 abandoned_world third_row ≡ false)
    × (reconcile_task 900_000_000 21 abandoned_world ≡ (done ambiguous, abandoned_world))
unfolding first
Abandoned-stays_example =
    Abandoned-stays 21 third_row pending_run abandoned_world
      (record {
        found = refl;
        run_found = refl;
        state = refl;
        attempts = refl;
        pending_run = refl;
        untouched = refl;
      })
      7 8 60 900_000_000

abbrev relay_config : RelayConfig
relay_config = record { lease_seconds = 30; max_backoff_seconds = 300; max_publish_attempts = 2 }

abbrev relay_turns : List RelayTurn
relay_turns =
    record { owner = "r"; token = 1; now = 200; later = 210; publication = raised "down" }
    ∷ record { owner = "r"; token = 2; now = 5_000_000; later = 5_000_010; publication = taken }
    ∷ record { owner = "r"; token = 3; now = 9_000_000; later = 9_000_010; publication = taken }
    ∷ []

dispatched-le_example :
    dispatched relay_config relay_turns accepted_world ≤ allowance 2 accepted_world.outbox
dispatched-le_example = dispatched-le relay_config relay_turns accepted_world

relay_turns-dispatched : dispatched relay_config relay_turns accepted_world ≡ 2
unfolding dispatched relay_once claim_one swept take_ready next_ready readier published_turn
    publish_done publish_failed any_of change_where first
relay_turns-dispatched = refl

-- A worker that meets a healthy database and a pipeline that publishes.
abbrev worker : Worker.Worker
worker = record {
  lease_seconds = 60;
  heartbeat_seconds = 20;
  retry_max_backoff = 30;
  today = 16;
  token = 5;
  attempt_id = 6;
  link = λ n. Worker.works;
  clock = λ n. 200 + n;
  worker_clock = 201;
  probe = Worker.answers;
  retries_left = true;
  flow = Worker.flow_result (record {
    run_id = 11;
    week_start = "0001-01-08";
    status = "succeeded";
    inserted = none;
    updated = none;
    unchanged = none;
    commit_result = "technically_observed";
    publication_recorded = true;
    recovered = false;
    evidence_inconclusive = false;
    coverage_source = "evidence";
    errors = [];
    production_certified = false;
  });
  meanwhile = heartbeat 5 1 60 205 21 ∷ [];
}

abbrev message : Worker.Message
message = record {
  task = 21;
  task_text = "21";
  run = 11;
  run_text = "11";
  day = some 8;
  version = 1;
}

run_weekly_pipeline_task-Fenced_example :
    (Worker.run_weekly_pipeline_task
        (with_flow (Worker.flow_raised "error" "error") [] worker)
        message
        accepted_world
      ≡ Worker.run_weekly_pipeline_task worker message accepted_world)
    ⊎ StartConfirmed worker message accepted_world
run_weekly_pipeline_task-Fenced_example =
    run_weekly_pipeline_task-Fenced worker message (Worker.flow_raised "error" "error") []
      accepted_world
