-- ===== src/Publication/Tests.antt =====
-- Runs of pipelines/run_store.py and pipelines/concurrency.py on small tables.
use ang553_latam_aie_01_fina.Common.{
  ℕ, ◌<◌, pos, true, false, ◌≡◌, refl, none, some, List, [], ◌∷◌, ◌⊎◌, first, arith,
}
use ang553_latam_aie_01_fina.Publication.Types.{
  RunStatus, running, succeeded, not_attempted, technically_observed, RunRecord, WeekControl, Store,
  Connection,
}
use ang553_latam_aie_01_fina.Publication.Call.{
  ok, ◌>>=◌, require_transaction, week, find_run, find_control, read_control,
}
use ang553_latam_aie_01_fina.Publication.Runs.{terminal}
use ang553_latam_aie_01_fina.Publication.Controls.{empty_control}
use ang553_latam_aie_01_fina.Common.{any_of, all_of, change_where}
use ang553_latam_aie_01_fina.Publication.Types.{superseded, status_eq}
use ang553_latam_aie_01_fina.Publication.Call.{execute, read_run, count, update_run_row, change_run}
use ang553_latam_aie_01_fina.Publication.Text.{
  optional_label, label, checked_text, is_space, has_secret, contains, starts, lower, optional_text,
}
use ang553_latam_aie_01_fina.Publication.Runs.{
  RunUpdate, update_run, require_run, check_update, transition, allowed, set_columns,
}
use ang553_latam_aie_01_fina.Publication.Runs.Updated.{Updated, update_run-Updated}
use ang553_latam_aie_01_fina.Publication.Lease.{
  occupied, recovered, from_run_store, rethrown, conflict_update, record_lease_run_status,
}
use ang553_latam_aie_01_fina.Publication.Lease.Conflicts.{
  Recorded, record_lease_run_status-Recorded,
}
use ang553_latam_aie_01_fina.Publication.Runs.Replay.{
  RunCall, observe, publish, replay, replay-terminal,
}
use ang553_latam_aie_01_fina.Publication.Lease.{
  checked_token, lease_statement, verify_week_lease, acquire_week_lease,
}
use ang553_latam_aie_01_fina.Publication.Lease.Fencing.{
  acquire, perform_lease, replay_leases, fencing, verifies,
}
use ang553_latam_aie_01_fina.Publication.Lease.Ready.{Ready, row_before}
use ang553_latam_aie_01_fina.Publication.Lease.Grants.{
  Request, acquire_grants, acquire_refuses, acquire-verify,
}

-- A transaction whose statements all reach the server, with its clock.
abbrev online : ℕ → Connection
online now = record {
  can_execute = true;
  autocommit = false;
  postgresql = true;
  in_transaction = true;
  fault = λ n. none;
  clock = λ n. now;
}

abbrev online-Ready : (now : ℕ) → Ready (online now)
online-Ready now = record {
  can_execute = refl;
  autocommit = refl;
  postgresql = refl;
  in_transaction = refl;
  no_fault = λ n. refl;
}

abbrev run_row : ℕ → RunStatus → RunRecord
run_row id status = record {
  run_id = id;
  pipeline_name = "sales";
  target_week_start = 8;
  trigger_type = "schedule";
  status = status;
  started_at = 100;
  finished_at = none;
  stage_reached = none;
  records_processed = none;
  aggregates_calculated = none;
  rows_inserted = none;
  rows_updated = none;
  rows_unchanged = none;
  error_code = none;
  error_message = none;
  block_reason = none;
  commit_result = not_attempted;
  prefect_flow_run_id = none;
  prefect_task_run_id = none;
}

-- Run 1 owns the week under token 4 until 200.
abbrev held_row : WeekControl
held_row = record (empty_control 8) {
  owner_run_id = some 1;
  lease_acquired_at = some 100;
  lease_expires_at = some 200;
  fencing_token = 4;
}

abbrev held_week : Store
held_week = record {
  runs = run_row 1 running ∷ run_row 2 running ∷ run_row 3 succeeded ∷ [];
  controls = held_row ∷ [];
}

succeeded_found : find_run 3 held_week ≡ some (run_row 3 succeeded)
unfolding first
succeeded_found = refl

succeeded-terminal : terminal succeeded ≡ true
unfolding terminal
succeeded-terminal = refl

abbrev run_calls : List (Connection × RunCall)
run_calls =
    (online 110, observe 3 technically_observed "commit" "code" "message")
    ∷ (online 120, publish 8 3 120 (pos 5) none none)
    ∷ []

replay-terminal_example : find_run 3 (replay run_calls held_week) ≡ some (run_row 3 succeeded)
replay-terminal_example =
    replay-terminal run_calls held_week 3 (run_row 3 succeeded) succeeded_found succeeded-terminal

held_found : find_control 8 held_week ≡ some held_row
unfolding first
held_found = refl

request_of_2 : Request 8 2 60 held_week
unfolding first
request_of_2 = record {
  monday = refl;
  positive = omega arith;
  bounded = omega arith;
  run = run_row 2 running;
  found = refl;
  target = refl;
}

held_before : row_before 8 held_week ≡ held_row
unfolding row_before first
held_before = refl

acquire_refuses_example : acquire_week_lease (online 150) 8 2 (pos 60) held_week ≡ (
  ok (record {
    week_start = 8;
    status = occupied;
    run_id = 2;
    owner_run_id = some 1;
    fencing_token = some 4;
    lease_expires_at = some 200;
    lock_held = true;
  }),
  held_week,
)
acquire_refuses_example =
    acquire_refuses (online 150) 8 2 60 1 200 held_week held_row (online-Ready 150) request_of_2
      held_found refl refl (omega arith)

acquire_grants_example :
    (t : Store) × (acquire_week_lease (online 250) 8 2 (pos 60) held_week ≡ (
      ok (record {
        week_start = 8;
        status = recovered;
        run_id = 2;
        owner_run_id = some 2;
        fencing_token = some 5;
        lease_expires_at = some 310;
        lock_held = true;
      }),
      t,
    ))
    × (find_control 8 t
        ≡ some (record held_row {
          owner_run_id = some 2;
          lease_acquired_at = some 250;
          lease_expires_at = some 310;
          fencing_token = 5;
        }))
unfolding row_before first
acquire_grants_example =
    acquire_grants (online 250) 8 2 60 held_week (online-Ready 250) request_of_2 refl (omega arith)

acquire-verify_example :
    verifies (online 260) 8 2 (pos 5) (acquire_week_lease (online 250) 8 2 (pos 60) held_week).1
    ≡ true
unfolding row_before first
acquire-verify_example =
    acquire-verify (online 250) (online 260) 8 2 60 held_week (online-Ready 250) (online-Ready 260)
      request_of_2 refl (omega arith) (omega arith)

first_verified : verifies (online 150) 8 1 (pos 4) held_week ≡ true
unfolding verify_week_lease ◌>>=◌ require_transaction week checked_token lease_statement
    read_control first
first_verified = refl

later_verified :
    verifies
      (online 260)
      8
      2
      (pos 5)
      (replay_leases ((online 250, acquire 8 2 (pos 60)) ∷ []) held_week)
    ≡ true
unfolding replay_leases perform_lease row_before first
later_verified =
    acquire-verify (online 250) (online 260) 8 2 60 held_week (online-Ready 250) (online-Ready 260)
      request_of_2 refl (omega arith) (omega arith)

fencing_example : (4 < 5) ⊎ ((◌≡◌ {A = ℕ} 4 5) × (◌≡◌ {A = ℕ} 1 2))
fencing_example =
    fencing ((online 250, acquire 8 2 (pos 60)) ∷ []) held_week (online 150) (online 260) 8 1 2 4 5
      first_verified later_verified

abbrev superseded_1 : RunRecord
superseded_1 = record (run_row 1 superseded) {
  finished_at = some 150;
  stage_reached = some "lease";
  block_reason = some "newer run";
}

recorded_1 : record_lease_run_status (online 150) 1 superseded 150 "newer run" held_week ≡ (
  ok superseded_1,
  (record_lease_run_status (online 150) 1 superseded 150 "newer run" held_week).1,
)
unfolding record_lease_run_status from_run_store rethrown update_run require_transaction require_run
    execute read_run check_update transition terminal allowed set_columns count optional_label label
    checked_text is_space has_secret contains starts lower any_of all_of optional_text
    update_run_row change_run first change_where status_eq ◌>>=◌
recorded_1 = refl

record_lease_run_status-Recorded_example :
    Recorded 1 superseded 150 held_week superseded_1
      (record_lease_run_status (online 150) 1 superseded 150 "newer run" held_week).1
record_lease_run_status-Recorded_example =
    record_lease_run_status-Recorded (online 150) 1 superseded 150 "newer run" held_week
      superseded_1 _ recorded_1

abbrev updated_1 : RunRecord
updated_1 = record (run_row 1 succeeded) { finished_at = some 160; stage_reached = some "lease" }

abbrev success_update : RunUpdate
success_update = record (conflict_update (run_row 1 running) succeeded 160 "x") {
  block_reason = none;
}

update_accepted :
    update_run (online 160) 1 success_update held_week
    ≡ (ok updated_1, (update_run (online 160) 1 success_update held_week).1)
unfolding update_run require_transaction require_run execute read_run check_update transition
    terminal allowed set_columns count optional_label label checked_text is_space has_secret
    contains starts lower any_of all_of optional_text update_run_row change_run first change_where
    status_eq ◌>>=◌
update_accepted = refl

update_run-Updated_example :
    Updated 1 success_update held_week updated_1
      (update_run (online 160) 1 success_update held_week).1
update_run-Updated_example =
    update_run-Updated (online 160) 1 success_update held_week updated_1 _ update_accepted
