-- ===== src/Tasks/Diagram.antt =====
-- The abstract state machine of a task of services/task_queue, with the number of its claims.
pub mod Steps
pub mod Relayed
pub mod Refines
use mathlib.Core.Path.{subst}
use ang553_latam_aie_01_fina.Common.{
  ℕ, ◌+◌, ◌<◌, String, Bool, true, false, ◌≡◌, ◌⊎◌, inl, inr, refl, sym, ap, ◌∙◌, Option, none,
  some, List, [], ◌∷◌, arith,
}
use ang553_latam_aie_01_fina.Tasks.Types.{
  ExecutionState, accepted, queued, claimed, running, retry_wait, succeeded, failed, dead_lettered,
  failure_pending_dlq, reconciliation_required, Json, TaskRow, Registry, is_claimed, is_running,
  find_task,
}
use ang553_latam_aie_01_fina.Tasks.Claims.{
  TaskEnding, is_claimable, is_claimable_state, claim_row, is_startable, started_row, is_held,
  heartbeat_row, finish_row, is_prepared, retry_row, failed_row,
}
use ang553_latam_aie_01_fina.Tasks.Reconciliation.{is_settled, is_pending_dlq}
use ang553_latam_aie_01_fina.Tasks.Claims.{letter_state}
use ang553_latam_aie_01_fina.Tasks.Calls.{
  TaskEnd, end_succeeded, end_uncertain, end_dead, end_pending, end_state,
}

-- What a task is doing, and how many times it has been claimed.
pub data Life : Type 0 where
  waiting preparing executing parked : ℕ → Life
  ended : ExecutionState → ℕ → Life

abbrev pub life_of : ExecutionState → ℕ → Life
life_of accepted n = waiting n
life_of queued n = waiting n
life_of retry_wait n = waiting n
life_of claimed n = preparing n
life_of running n = executing n
life_of failure_pending_dlq n = parked n
life_of e n = ended e n

abbrev pub life : TaskRow → Life
life r = life_of r.execution_state r.attempt_count

-- The verdicts that the history of runs can give.
pub data Verdict : ExecutionState → Type 0 where
  succeeds : Verdict succeeded
  fails : Verdict failed
  unclear : Verdict reconciliation_required

pub data Edge : Life → Life → Type 0 where
  take : {n : ℕ} → n < 3 → Edge (waiting n) (preparing (n + 1))
  retake : {n : ℕ} → n < 3 → Edge (preparing n) (preparing (n + 1))
  postpone : {n : ℕ} → Edge (preparing n) (waiting n)
  begin : {n : ℕ} → Edge (preparing n) (executing n)
  give_up : {n : ℕ} → Edge (preparing n) (ended dead_lettered n)
  park_early : {n : ℕ} → Edge (preparing n) (parked n)
  succeed : {n : ℕ} → Edge (executing n) (ended succeeded n)
  lose : {n : ℕ} → Edge (executing n) (ended reconciliation_required n)
  die : {n : ℕ} → Edge (executing n) (ended dead_lettered n)
  park : {n : ℕ} → Edge (executing n) (parked n)
  settle_waiting : {n : ℕ} {e : ExecutionState} → Verdict e → Edge (waiting n) (ended e n)
  settle_preparing : {n : ℕ} {e : ExecutionState} → Verdict e → Edge (preparing n) (ended e n)
  settle_executing : {n : ℕ} {e : ExecutionState} → Verdict e → Edge (executing n) (ended e n)
  bury : {n : ℕ} → Edge (parked n) (ended dead_lettered n)

ruleset edges = (
  take, retake, postpone, begin, give_up, park_early, succeed, lose, die, park, settle_waiting,
  settle_preparing, settle_executing, bury,
)

-- How a task ended.
pub record EndOfTask : Type 0 where
  pub state : ExecutionState
  pub pipeline_status : Option String
  pub published : Option Bool
  pub result_summary : Option Json
  pub error_code : Option String
  pub error_message : Option String
  pub finished_at : Option ℕ

abbrev pub end_of_task : TaskRow → EndOfTask
end_of_task r = record {
  state = r.execution_state;
  pipeline_status = r.pipeline_status;
  published = r.published;
  result_summary = r.result_summary;
  error_code = r.error_code;
  error_message = r.error_message;
  finished_at = r.finished_at;
}

-- A row and its next version: the same task, at most one edge further; an epoch is a claim; what has
-- ended stays as it ended.
pub record Moved (r r' : TaskRow) : Type 0 where
  pub run_id : r'.run_id ≡ r.run_id
  pub week_start : r'.week_start ≡ r.week_start
  pub life : (life r' ≡ life r) ⊎ Edge (life r) (life r')
  pub drift : r'.execution_epoch + r.attempt_count ≡ r.execution_epoch + r'.attempt_count
  pub kept : is_settled r.execution_state ≡ true → end_of_task r' ≡ end_of_task r

pub Moved-refl : (r : TaskRow) → Moved r r
Moved-refl r = record {
  run_id = refl;
  week_start = refl;
  life = inl refl;
  drift = refl;
  kept = λ h. refl;
}

claims_edge :
    (now : ℕ) (r : TaskRow) (st : ExecutionState) (n : ℕ)
    → is_claimable_state now r st ≡ true
    → n < 3
    → Edge (life_of st n) (preparing (n + 1))
claims_edge now r accepted n h k = take k
claims_edge now r queued n h k = take k
claims_edge now r retry_wait n h k = take k
claims_edge now r claimed n h k = retake k
claims_edge now r _ n h k = ground arith

unsettled_claim :
    (now : ℕ) (r : TaskRow) (st : ExecutionState)
    → is_claimable_state now r st ≡ true
    → is_settled st ≡ false
unsettled_claim now r accepted h = refl
unsettled_claim now r queued h = refl
unsettled_claim now r retry_wait h = refl
unsettled_claim now r claimed h = refl
unsettled_claim now r _ h = ground arith

pub claim_row-Moved :
    (token attempt lease now : ℕ) (r : TaskRow)
    → is_claimable now r ≡ true
    → Moved r (claim_row token attempt lease now r)
claim_row-Moved token attempt lease now r h = record {
  run_id = refl;
  week_start = refl;
  life = inr (claims_edge now r r.execution_state r.attempt_count (ground arith) (ground arith));
  drift = omega arith;
  kept = λ k. absurd (ground (arith, unsettled_claim now r r.execution_state));
}
