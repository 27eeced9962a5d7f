-- ===== src/Tasks/Stuck.antt =====
-- A task of services/task_queue whose third preflight was abandoned.
use ang553_latam_aie_01_fina.Common.{ℕ, false, ◌≡◌, refl, some, arith, ltb, Bool-cases, inl, inr}
use ang553_latam_aie_01_fina.Publication.Types.{RunRecord, pending, not_attempted}
use ang553_latam_aie_01_fina.Publication.Call.{find_run}
use ang553_latam_aie_01_fina.Tasks.Types.{
  TaskRow, Registry, done, find_task, claimed, update_task, change_task,
}
use ang553_latam_aie_01_fina.Tasks.Claims.{claim_execution}
use ang553_latam_aie_01_fina.Tasks.Reconciliation.{
  reconcile_task, reconcile_joined, joined, join_run, joined_with, repair, decide, history_decision,
  decision_of, undecided, ambiguous, is_candidate,
}

-- A claim of the third attempt that never reached Prefect, of a run that is still pending.
pub record Abandoned (id : ℕ) (r : TaskRow) (run : RunRecord) (s : Registry) : Type 0 where
  pub found : find_task id s.tasks ≡ some r
  pub run_found : find_run r.run_id s.store ≡ some run
  pub state : r.execution_state ≡ claimed
  pub attempts : r.attempt_count ≡ 3
  pub pending_run : run.status ≡ pending
  pub untouched : run.commit_result ≡ not_attempted

-- A task whose third claim ended before Prefect, its run still pending, is never claimed again, is no
-- candidate for reconciliation, and is left as it is by a repair, however late.
pub Abandoned-stays :
    (id : ℕ) (r : TaskRow) (run : RunRecord) (s : Registry)
    → Abandoned id r run s
    → (token attempt lease now : ℕ)
    → (claim_execution token attempt lease now id s.tasks).1 ≡ s.tasks
      × (is_candidate now s r ≡ false)
      × (reconcile_task now id s ≡ (done ambiguous, s))
unfolding claim_execution reconcile_task reconcile_joined joined join_run joined_with repair decide
    history_decision decision_of undecided update_task change_task
Abandoned-stays id r run s a token attempt lease now = (
  elim (Bool-cases (ltb lease 1)) [
    | inl short ↦ rw short refl
    | inr long ↦ rw (long, a.found, a.attempts) refl
  ],
  rw (a.run_found, a.state, a.pending_run) (ground arith),
  rw (a.found, a.run_found, a.state, a.pending_run, a.untouched) refl,
)
