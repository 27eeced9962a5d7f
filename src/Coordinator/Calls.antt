-- ===== src/Coordinator/Calls.antt =====
-- The operational calls of pipelines/coordinator.py, each with its commit.
use ang553_latam_aie_01_fina.Common.{ℕ, pos, String, Bool, true, false, Option, none, some}
use ang553_latam_aie_01_fina.Publication.Types.{
  RunStatus, CommitResult, RunRecord, Store, Connection,
}
use ang553_latam_aie_01_fina.Publication.Call.{
  Result, ok, err, Call, ◌>>◌, require_transaction, execute, read_run,
}
use ang553_latam_aie_01_fina.Publication.Runs.{RunUpdate, update_run, record_commit_observation}
use ang553_latam_aie_01_fina.Coordinator.Types.{
  Database, Link, works, fails, fails_late, CoordinatorResult, PublicationEnding, returned, raised,
}

-- The columns that `_finish_run` sets.
abbrev pub finish_update : RunStatus → RunStatus → ℕ → String → CommitResult → RunUpdate
finish_update expected status now stage result = record {
  expected_status = expected;
  status = status;
  finished_at = some now;
  stage_reached = some stage;
  records_processed = none;
  aggregates_calculated = none;
  rows_inserted = some (pos 0);
  rows_updated = some (pos 0);
  rows_unchanged = some (pos 0);
  error_code = none;
  error_message = none;
  block_reason = none;
  commit_result = some result;
  prefect_flow_run_id = none;
  prefect_task_run_id = none;
}

-- The transaction of an operational call: whether it was confirmed.
unfoldable pub operate : Link → {A : Type 0} → Result A × Store → Database → Bool × Database
operate l (err c, t) w = (false, w)
operate works (ok a, t) w = (true, record w { store = t })
operate fails (ok a, t) w = (false, w)
operate fails_late (ok a, t) w = (false, record w { store = t })

abbrev pub answer_with : CoordinatorResult → Bool × Database → PublicationEnding × Database
answer_with r (true, w) = (returned r, w)
answer_with r (false, w) = (raised, w)

-- `_finish_run`: an update of the run, committed.
abbrev pub finish_and_commit : Link → Connection → ℕ → RunUpdate → Database → Bool × Database
finish_and_commit l c run_id u w = operate l (update_run c run_id u w.store) w

-- `_observe_uncertain`
abbrev pub observe_and_commit : Link → Connection → ℕ → CommitResult → Database → Bool × Database
observe_and_commit l c run_id result w =
    operate l
      (record_commit_observation c run_id result "commit" "commit_uncertain"
        "business commit was not confirmed; writes were not retried" w.store)
      w

-- `get_run`
unfoldable pub get_run : ℕ → Connection → Call (Option RunRecord)
get_run run_id c = do require_transaction c; execute c 0; read_run run_id
