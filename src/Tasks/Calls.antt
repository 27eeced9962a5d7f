-- ===== src/Tasks/Calls.antt =====
-- Sequences of committed calls on the registry of services/task_queue; a call that raises is rolled back.
use ang553_latam_aie_01_fina.Common.{ℕ, String, Bool, List, [], ◌∷◌}
use ang553_latam_aie_01_fina.Publication.Types.{Store, Connection}
use ang553_latam_aie_01_fina.Publication.Call.{ok, err}
use ang553_latam_aie_01_fina.Tasks.Types.{
  ExecutionState, succeeded, dead_lettered, failure_pending_dlq, reconciliation_required, Registry,
  TaskRow, Reply, done, refused,
}
use ang553_latam_aie_01_fina.Tasks.{Drawn, Accepted, accept_async_task}
use ang553_latam_aie_01_fina.Tasks.Claims.{
  TaskEnding, claim_execution, start_prefect, heartbeat_execution, finish_execution, schedule_retry,
  fail_claim, insert_dead_letter,
}
use ang553_latam_aie_01_fina.Tasks.Reconciliation.{Repair, reconcile_task}
use ang553_latam_aie_01_fina.Tasks.Claims.{letter_state}
use ang553_latam_aie_01_fina.Tasks.Dispatch.{RelayConfig, RelayTurn, relay_once}

-- The states that the worker passes to `finish_execution`; `fail_claim` gets those of `letter_state`.
pub data TaskEnd : Type 0 where
  end_succeeded end_uncertain end_dead end_pending : TaskEnd

abbrev pub end_state : TaskEnd → ExecutionState
end_state end_succeeded = succeeded
end_state end_uncertain = reconciliation_required
end_state end_dead = dead_lettered
end_state end_pending = failure_pending_dlq

-- `history`: the run store as others leave it.
pub data TaskCall : Type 0 where
  accept : Connection → Drawn → String → ℕ → TaskCall
  claim : ℕ → ℕ → ℕ → ℕ → ℕ → TaskCall
  start : ℕ → ℕ → ℕ → ℕ → ℕ → TaskCall
  heartbeat : ℕ → ℕ → ℕ → ℕ → ℕ → TaskCall
  finish : ℕ → ℕ → TaskEnd → TaskEnding → ℕ → ℕ → TaskCall
  postpone : ℕ → ℕ → ℕ → String → String → ℕ → ℕ → TaskCall
  fail : ℕ → ℕ → Bool → String → String → ℕ → ℕ → TaskCall
  bury : ℕ → ℕ → ℕ → String → String → String → ℕ → TaskCall
  reconcile : ℕ → ℕ → TaskCall
  relay : RelayConfig → RelayTurn → TaskCall
  history : Store → TaskCall

abbrev pub accepted_or : Registry → Accepted × Registry → Registry
accepted_or s (ok a, t) = t
accepted_or s (err c, t) = s

abbrev pub repaired_or : Registry → Reply Repair × Registry → Registry
repaired_or s (done a, t) = t
repaired_or s (refused, t) = s

abbrev pub with_tasks : Registry → List TaskRow → Registry
with_tasks s rows = record s { tasks = rows }

unfoldable pub perform : TaskCall → Registry → Registry
perform (accept c d user week) s = accepted_or s (accept_async_task c d user week s)
perform (claim token attempt lease now id) s =
    with_tasks s (claim_execution token attempt lease now id s.tasks).1
perform (start token epoch lease now id) s =
    with_tasks s (start_prefect token epoch lease now id s.tasks).1
perform (heartbeat token epoch lease now id) s =
    with_tasks s (heartbeat_execution token epoch lease now id s.tasks).1
perform (finish token epoch e ending now id) s =
    with_tasks s
      (finish_execution token epoch (record ending { state = end_state e }) now id s.tasks).1
perform (postpone token epoch next code message now id) s =
    with_tasks s (schedule_retry token epoch next code message now id s.tasks).1
perform (fail token epoch inserted code message now id) s =
    with_tasks s (fail_claim token epoch (letter_state inserted) code message now id s.tasks).1
perform (bury task run attempt reason code message now) s = record s {
  dead_letters = (insert_dead_letter task run attempt reason code message now s.dead_letters).1;
}
perform (reconcile now id) s = repaired_or s (reconcile_task now id s)
perform (relay c turn) s = (relay_once c turn s).1
perform (history store) s = record s { store = store }

unfoldable pub replay : List TaskCall → Registry → Registry
replay [] s = s
replay (call ∷ calls) s = replay calls (perform call s)

-- The calls that name a claim by its token and epoch.
pub data GuardedCall : Type 0 where
  by_start by_heartbeat : ℕ → GuardedCall
  by_finish : TaskEnd → TaskEnding → GuardedCall
  by_retry : ℕ → String → String → GuardedCall
  by_fail : Bool → String → String → GuardedCall

unfoldable pub guarded : ℕ → ℕ → GuardedCall → ℕ → ℕ → List TaskRow → Reply Bool × List TaskRow
guarded token epoch (by_start lease) now id rows = start_prefect token epoch lease now id rows
guarded token epoch (by_heartbeat lease) now id rows =
    heartbeat_execution token epoch lease now id rows
guarded token epoch (by_finish e ending) now id rows =
    finish_execution token epoch (record ending { state = end_state e }) now id rows
guarded token epoch (by_retry next code message) now id rows =
    schedule_retry token epoch next code message now id rows
guarded token epoch (by_fail inserted code message) now id rows =
    fail_claim token epoch (letter_state inserted) code message now id rows
