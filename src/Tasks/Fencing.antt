-- ===== src/Tasks/Fencing.antt =====
-- Sequences of calls of services/task_queue: calls under an old claim, and tasks that have ended.
use mathlib.Core.Path.{subst}
use ang553_latam_aie_01_fina.Common.{
  ℕ, ◌≤◌, ◌<◌, Bool, true, false, ◌≡◌, refl, sym, ap, ◌∙◌, some, List, [], ◌∷◌, arith,
}
use ang553_latam_aie_01_fina.Tasks.Types.{
  TaskRow, Registry, done, find_task, update_task, change_task, answered,
}
use ang553_latam_aie_01_fina.Tasks.Claims.{
  holds_claim, is_startable, is_held, is_prepared, claim_execution, claim_row, start_prefect,
  heartbeat_execution, finish_execution, schedule_retry, fail_claim,
}
use ang553_latam_aie_01_fina.Tasks.Reconciliation.{is_settled}
use ang553_latam_aie_01_fina.Tasks.Calls.{
  TaskCall, claim, perform, replay, GuardedCall, by_start, by_heartbeat, by_finish, by_retry,
  by_fail, guarded,
}
use ang553_latam_aie_01_fina.Tasks.Rows.{is_answered}
use ang553_latam_aie_01_fina.Tasks.Diagram.{end_of_task}
use ang553_latam_aie_01_fina.Tasks.Diagram.Refines.{perform-Moved}
use ang553_latam_aie_01_fina.Tasks.Attempts.{Moved-attempts, claim_execution-answered}

-- The epoch of a recorded task never falls.
pub replay-epoch :
    (calls : List TaskCall) (id : ℕ) (s : Registry) (r : TaskRow)
    → find_task id s.tasks ≡ some r
    → (r' : TaskRow) × (find_task id (replay calls s).tasks ≡ some r')
      × (r.execution_epoch ≤ r'.execution_epoch)
unfolding replay
replay-epoch [] id s r p = (r, p, omega arith)
replay-epoch (call ∷ calls) id s r p =
    let (r', q, m) = (perform-Moved call s).at id r p in
    let (r'', q', e) = replay-epoch calls id (perform call s) r' q in
    (r'', q', omega (arith, m.drift, (Moved-attempts r r' m).0, e))

-- A statement whose condition fails on the row found changes nothing.
refuses :
    (id : ℕ) (cond : TaskRow → Bool) (set : TaskRow → TaskRow) (s : List TaskRow) (r : TaskRow)
    → find_task id s ≡ some r
    → cond r ≡ false
    → answered (update_task id cond set s) ≡ (done false, s)
unfolding update_task change_task
refuses id cond set s r p h = rw (p, h) refl

mismatched :
    (token epoch : ℕ) (r : TaskRow) → epoch < r.execution_epoch → holds_claim token epoch r ≡ false
mismatched token epoch r h = ground arith

guarded_stale :
    (token epoch : ℕ) (g : GuardedCall) (now id : ℕ) (s : List TaskRow) (r : TaskRow)
    → find_task id s ≡ some r
    → epoch < r.execution_epoch
    → guarded token epoch g now id s ≡ (done false, s)
unfolding guarded start_prefect heartbeat_execution finish_execution schedule_retry fail_claim
guarded_stale token epoch (by_start lease) now id s r p h =
    refuses id (is_startable now token epoch) _ s r p (ground (arith, mismatched token epoch r h))
guarded_stale token epoch (by_heartbeat lease) now id s r p h =
    refuses id (is_held token epoch) _ s r p (ground (arith, mismatched token epoch r h))
guarded_stale token epoch (by_finish e ending) now id s r p h =
    refuses id (is_held token epoch) _ s r p (ground (arith, mismatched token epoch r h))
guarded_stale token epoch (by_retry next code message) now id s r p h =
    refuses id (is_prepared token epoch) _ s r p (ground (arith, mismatched token epoch r h))
guarded_stale token epoch (by_fail inserted code message) now id s r p h =
    refuses id (is_prepared token epoch) _ s r p (ground (arith, mismatched token epoch r h))

-- Once a task has been claimed, every start, heartbeat, ending, retry or failure under an earlier epoch
-- answers false and changes no task, after any sequence of calls and whatever token it names.
pub stale_claim :
    (token attempt lease now id : ℕ) (s : Registry) (r : TaskRow)
    → find_task id s.tasks ≡ some r
    → is_answered (claim_execution token attempt lease now id s.tasks).0 ≡ true
    → (calls : List TaskCall) (old epoch later : ℕ) (g : GuardedCall) → epoch ≤ r.execution_epoch
    → let after = (replay calls (perform (claim token attempt lease now id) s)).tasks in
      guarded old epoch g later id after ≡ (done false, after)
unfolding perform
stale_claim token attempt lease now id s r p h calls old epoch later g e =
    let (c, q) = claim_execution-answered token attempt lease now id s.tasks r p h in
    let (r', q', up) =
      replay-epoch calls id (perform (claim token attempt lease now id) s)
        (claim_row token attempt lease now r) q in
    guarded_stale old epoch g later id _ r' q' (omega (arith, up, e))

-- A task that succeeded, failed, was dead-lettered or needs reconciliation keeps its state, its result,
-- its error and its end through every later sequence of calls.
pub replay-end_of_task :
    (calls : List TaskCall) (id : ℕ) (s : Registry) (r : TaskRow)
    → find_task id s.tasks ≡ some r
    → is_settled r.execution_state ≡ true
    → (r' : TaskRow) × (find_task id (replay calls s).tasks ≡ some r')
      × (end_of_task r' ≡ end_of_task r)
unfolding replay
replay-end_of_task [] id s r p h = (r, p, refl)
replay-end_of_task (call ∷ calls) id s r p h =
    let (r', q, m) = (perform-Moved call s).at id r p in
    let same = m.kept h in
    let (r'', q', e) =
      replay-end_of_task calls id (perform call s) r' q
        (subst (λ x. is_settled x ≡ true) (sym (ap (λ o. o.state) same)) h) in
    (r'', q', e ∙ same)
