-- ===== src/Tasks/Diagram/Steps.antt =====
-- The statements of services/task_queue on one row, as edges of the diagram.
use ang553_latam_aie_01_fina.Common.{
  ℕ, String, Bool, true, false, ◌≡◌, inl, inr, refl, Option, none, some, arith, if◌then◌else◌,
}
use ang553_latam_aie_01_fina.Publication.Types as Runs
use ang553_latam_aie_01_fina.Publication.Types.{RunStatus, RunRecord}
use ang553_latam_aie_01_fina.Tasks.Types.{
  ExecutionState, accepted, queued, claimed, running, retry_wait, dead_lettered,
  failure_pending_dlq, reconciliation_required, TaskRow, is_claimed, is_running,
}
use ang553_latam_aie_01_fina.Tasks.Claims.{
  TaskEnding, is_startable, started_row, is_held, heartbeat_row, finish_row, is_prepared, retry_row,
  failed_row,
}
use ang553_latam_aie_01_fina.Tasks.Reconciliation.{
  is_settled, is_uncertain, is_observed, is_pending_dlq, is_abandoned, settled_row, abandoned_row,
  dead_row, history_decision, decision_of,
}
use ang553_latam_aie_01_fina.Tasks.Claims.{letter_state}
use ang553_latam_aie_01_fina.Tasks.Calls.{
  TaskEnd, end_succeeded, end_uncertain, end_dead, end_pending, end_state,
}
use ang553_latam_aie_01_fina.Tasks.Diagram.{
  Life, life_of, ended, Verdict, succeeds, fails, unclear, Edge, postpone, begin, give_up,
  park_early, succeed, lose, die, park, settle_waiting, settle_preparing, settle_executing, bury,
  Moved,
}

from_claimed :
    (st : ExecutionState) (n : ℕ) (l : Life)
    → is_claimed st ≡ true
    → Edge (life_of claimed n) l
    → Edge (life_of st n) l
from_claimed claimed n l h e = e
from_claimed _ n l h e = ground arith

from_running :
    (st : ExecutionState) (n : ℕ) (l : Life)
    → is_running st ≡ true
    → Edge (life_of running n) l
    → Edge (life_of st n) l
from_running running n l h e = e
from_running _ n l h e = ground arith

claimed-settled : (st : ExecutionState) → is_claimed st ≡ true → is_settled st ≡ false
claimed-settled claimed h = refl
claimed-settled _ h = ground arith

running-settled : (st : ExecutionState) → is_running st ≡ true → is_settled st ≡ false
running-settled running h = refl
running-settled _ h = ground arith

pub started_row-Moved :
    (now token epoch lease : ℕ) (r : TaskRow)
    → is_startable now token epoch r ≡ true
    → Moved r (started_row lease now r)
started_row-Moved now token epoch lease r h = record {
  run_id = refl;
  week_start = refl;
  life = inr (from_claimed r.execution_state r.attempt_count _ (ground arith) begin);
  drift = refl;
  kept = λ k. absurd (ground (arith, claimed-settled r.execution_state));
}

pub heartbeat_row-Moved : (lease now : ℕ) (r : TaskRow) → Moved r (heartbeat_row lease now r)
heartbeat_row-Moved lease now r = record {
  run_id = refl;
  week_start = refl;
  life = inl refl;
  drift = refl;
  kept = λ k. refl;
}

finishes : (n : ℕ) (e : TaskEnd) → Edge (life_of running n) (life_of (end_state e) n)
finishes n end_succeeded = succeed
finishes n end_uncertain = lose
finishes n end_dead = die
finishes n end_pending = park

pub finish_row-Moved :
    (token epoch : ℕ) (e : TaskEnd) (ending : TaskEnding) (now : ℕ) (r : TaskRow)
    → is_held token epoch r ≡ true
    → Moved r (finish_row (record ending { state = end_state e }) now r)
finish_row-Moved token epoch e ending now r h = record {
  run_id = refl;
  week_start = refl;
  life = inr (from_running r.execution_state r.attempt_count _ (ground arith) (finishes _ e));
  drift = refl;
  kept = λ k. absurd (ground (arith, running-settled r.execution_state));
}

pub retry_row-Moved :
    (token epoch next : ℕ) (code message : String) (now : ℕ) (r : TaskRow)
    → is_prepared token epoch r ≡ true
    → Moved r (retry_row next code message now r)
retry_row-Moved token epoch next code message now r h = record {
  run_id = refl;
  week_start = refl;
  life = inr (from_claimed r.execution_state r.attempt_count _ (ground arith) postpone);
  drift = refl;
  kept = λ k. absurd (ground (arith, claimed-settled r.execution_state));
}

gives_up : (n : ℕ) (inserted : Bool) → Edge (life_of claimed n) (life_of (letter_state inserted) n)
gives_up n true = give_up
gives_up n false = park_early

pub failed_row-Moved :
    (token epoch : ℕ) (inserted : Bool) (code message : String) (now : ℕ) (r : TaskRow)
    → is_prepared token epoch r ≡ true
    → Moved r (failed_row (letter_state inserted) code message now r)
failed_row-Moved token epoch inserted code message now r h = record {
  run_id = refl;
  week_start = refl;
  life =
      inr (from_claimed r.execution_state r.attempt_count _ (ground arith) (gives_up _ inserted));
  drift = refl;
  kept = λ k. absurd (ground (arith, claimed-settled r.execution_state));
}

buries :
    (st : ExecutionState) (n : ℕ)
    → is_pending_dlq st ≡ true
    → Edge (life_of st n) (life_of dead_lettered n)
buries failure_pending_dlq n h = bury
buries _ n h = ground arith

pending-settled : (st : ExecutionState) → is_pending_dlq st ≡ true → is_settled st ≡ false
pending-settled failure_pending_dlq h = refl
pending-settled _ h = ground arith

pub dead_row-Moved :
    (now : ℕ) (r : TaskRow) → is_pending_dlq r.execution_state ≡ true → Moved r (dead_row now r)
dead_row-Moved now r h = record {
  run_id = refl;
  week_start = refl;
  life = inr (buries r.execution_state r.attempt_count h);
  drift = refl;
  kept = λ k. absurd (ground (arith, pending-settled r.execution_state));
}

pub abandoned_row-Moved :
    (now : ℕ) (r : TaskRow) → is_abandoned now r ≡ true → Moved r (abandoned_row now r)
abandoned_row-Moved now r h = record {
  run_id = refl;
  week_start = refl;
  life = inr (from_running r.execution_state r.attempt_count _ (ground arith) lose);
  drift = refl;
  kept = λ k. absurd (ground (arith, running-settled r.execution_state));
}

-- A live task may be settled either way.
settles :
    (st e : ExecutionState) (n : ℕ)
    → is_pending_dlq st ≡ false
    → is_settled st ≡ false
    → Verdict e
    → Edge (life_of st n) (ended e n)
settles accepted e n p h v = settle_waiting v
settles queued e n p h v = settle_waiting v
settles retry_wait e n p h v = settle_waiting v
settles claimed e n p h v = settle_preparing v
settles running e n p h v = settle_executing v
settles _ e n p h v = ground arith

-- What the history decides is a verdict.
abbrev pub Decides : Option (ExecutionState × Option Bool) → Type 0
Decides none = Unit
Decides (some (e, shown)) = Verdict e

decision_of-Decides : (status : RunStatus) (observed : Bool) → Decides (decision_of status observed)
unfolding decision_of
decision_of-Decides Runs.succeeded true = succeeds
decision_of-Decides Runs.succeeded false = tt
decision_of-Decides Runs.succeeded_noop true = succeeds
decision_of-Decides Runs.succeeded_noop false = tt
decision_of-Decides Runs.blocked_quality observed = succeeds
decision_of-Decides Runs.superseded observed = fails
decision_of-Decides Runs.skipped_in_progress observed = fails
decision_of-Decides Runs.failed_retryable observed = fails
decision_of-Decides _ observed = tt

pub history_decision-Decides : (run : RunRecord) → Decides (history_decision run)
unfolding history_decision
history_decision-Decides run = go (is_uncertain run.commit_result)
  where
    go :
        (b : Bool)
        → Decides (
            if b
            then some (reconciliation_required, none)
            else decision_of run.status (is_observed run.commit_result))
    go true = unclear
    go false = decision_of-Decides run.status (is_observed run.commit_result)

pub settled_row-Moved :
    (e : ExecutionState) (shown : Option Bool) (run : RunRecord) (now : ℕ) (r : TaskRow)
    → Verdict e
    → is_pending_dlq r.execution_state ≡ false
    → is_settled r.execution_state ≡ false
    → Moved r (settled_row e shown run now r)
settled_row-Moved e shown run now r v p h = record {
  run_id = refl;
  week_start = refl;
  life = inr (as_ended e v (settles r.execution_state e r.attempt_count p h v));
  drift = refl;
  kept = λ k. absurd (ground arith);
}
  where
    as_ended :
        (e : ExecutionState)
        → Verdict e
        → {l : Life} → Edge l (ended e r.attempt_count)
        → Edge l (life_of e r.attempt_count)
    as_ended _ succeeds x = x
    as_ended _ fails x = x
    as_ended _ unclear x = x
