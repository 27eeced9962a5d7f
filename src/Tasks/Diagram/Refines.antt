-- ===== src/Tasks/Diagram/Refines.antt =====
-- The calls of services/task_queue on the registry, as edges of the diagram for every recorded task.
use mathlib.Core.Path.{subst}
use ang553_latam_aie_01_fina.Common.{
  ℕ, String, Bool, true, false, ◌≡◌, refl, Option, none, some, List, [], ◌∷◌, ◌++◌, ==_iff, arith,
  first_passes, sym, ltb, Bool-cases, inl, inr, if◌then◌else◌,
}
use ang553_latam_aie_01_fina.Publication.Types.{RunRecord, Connection, Store}
use ang553_latam_aie_01_fina.Publication.Call.{Result, ok, err, raw_integrity, find_run}
use ang553_latam_aie_01_fina.Publication.Runs.{create_run}
use ang553_latam_aie_01_fina.Tasks.Types.{
  ExecutionState, dead_lettered, reconciliation_required, TaskRow, DeadLetter, Registry, Reply,
  done, refused, find_task, update_task, answered, task_with,
}
use ang553_latam_aie_01_fina.Tasks.{
  accept_async_task, accept_for, accept_created, insert_task, accepted_row, outbox_row, active_run,
  new_run, Drawn,
}
use ang553_latam_aie_01_fina.Tasks.Claims.{
  is_claimable, claim_row, is_startable, started_row, is_held, heartbeat_row, finish_row,
  is_prepared, retry_row, failed_row, claim_execution, start_prefect, heartbeat_execution,
  finish_execution, schedule_retry, fail_claim,
}
use ang553_latam_aie_01_fina.Tasks.Reconciliation.{
  Repair, decided, is_settled, is_pending_dlq, reconcile_task, reconcile_joined, joined, join_run,
  joined_with, repair, confirmed, letter_of, decide, history_decision, undecided, answer_repair,
  is_abandoned, abandoned_row, dead_row, settled_row,
}
use ang553_latam_aie_01_fina.Tasks.Claims.{letter_state}
use ang553_latam_aie_01_fina.Tasks.Calls.{
  TaskCall, accept, claim, start, heartbeat, finish, postpone, fail, bury, reconcile, relay,
  history, end_state, accepted_or, repaired_or, perform,
}
use ang553_latam_aie_01_fina.Tasks.Rows.{
  Evolves, Evolves-refl, Evolves-append, Evolves-update_task, answered_rows,
}
use ang553_latam_aie_01_fina.Tasks.Diagram.{Moved, Moved-refl, claim_row-Moved}
use ang553_latam_aie_01_fina.Tasks.Diagram.Steps.{
  started_row-Moved, heartbeat_row-Moved, finish_row-Moved, retry_row-Moved, failed_row-Moved,
  dead_row-Moved, abandoned_row-Moved, settled_row-Moved, Decides, history_decision-Decides,
}
use ang553_latam_aie_01_fina.Tasks.Diagram.Relayed.{relay_once-Moved}

stays : (s : List TaskRow) → Evolves Moved s s
stays s = Evolves-refl Moved Moved-refl s

updates :
    (id : ℕ) (cond : TaskRow → Bool) (set : TaskRow → TaskRow) (s : List TaskRow)
    → ((r : TaskRow) → (set r).task_id ≡ r.task_id)
    → ((r : TaskRow) → find_task id s ≡ some r → cond r ≡ true → Moved r (set r))
    → Evolves Moved s (update_task id cond set s).1
updates id cond set s keeps f = Evolves-update_task Moved id cond set s Moved-refl keeps f

-- A statement whose answer is whether a row came back.
answers :
    (id : ℕ) (cond : TaskRow → Bool) (set : TaskRow → TaskRow) (s : List TaskRow)
    → ((r : TaskRow) → (set r).task_id ≡ r.task_id)
    → ((r : TaskRow) → cond r ≡ true → Moved r (set r))
    → Evolves Moved s (answered (update_task id cond set s)).1
answers id cond set s keeps f =
    rw (answered_rows (update_task id cond set s)) (updates id cond set s keeps (λ r p. f r))

insert_task-Moved :
    (d : Drawn) (user : String) (week : ℕ) (run : RunRecord) (s : Registry) (t : Store)
    → Evolves Moved s.tasks
        (accepted_or s (insert_task d user week run (record s { store = t }))).tasks
unfolding insert_task
insert_task-Moved d user week run s t = go _
  where
    go :
        (b : Bool)
        → Evolves Moved s.tasks
            (accepted_or s (
              if b then (err raw_integrity, record s { store = t }) else (
                ok (run.run_id, d.task, true),
                record s {
                  store = t;
                  tasks = s.tasks ++ accepted_row d.task run.run_id user week d.now ∷ [];
                  outbox = s.outbox ++ outbox_row d.task run.run_id week d.now ∷ [];
                },
              ))).tasks
    go true = stays s.tasks
    go false = Evolves-append Moved Moved-refl s.tasks _

accept-Moved :
    (c : Connection) (d : Drawn) (user : String) (week : ℕ) (s : Registry)
    → Evolves Moved s.tasks (accepted_or s (accept_async_task c d user week s)).tasks
unfolding accept_async_task accept_for accept_created
accept-Moved c d user week s = go (active_run week s.store.runs)
  where
    created :
        (x : Result RunRecord × Store)
        → Evolves Moved s.tasks (accepted_or s (accept_created d user week x s)).tasks
    created (err e, t) = stays s.tasks
    created (ok run, t) = insert_task-Moved d user week run s t

    go :
        (o : Option RunRecord)
        → Evolves Moved s.tasks (accepted_or s (accept_for c d user week o s)).tasks
    go (some run) = stays s.tasks
    go none = created (create_run c (new_run d.run week) s.store)

claim-Moved :
    (token attempt lease now id : ℕ) (s : List TaskRow)
    → Evolves Moved s (claim_execution token attempt lease now id s).1
unfolding claim_execution
claim-Moved token attempt lease now id s = elim (Bool-cases (ltb lease 1)) [
  | inl short ↦ rw short (stays s)
  | inr long ↦ rw long (
      updates id (is_claimable now) (claim_row token attempt lease now) s (λ r. refl)
        (λ r p h. claim_row-Moved token attempt lease now r h))
]

answer_rows : (a : Repair) (x : Reply (Option TaskRow) × List TaskRow) → (answer_repair a x).1 ≡ x.1
unfolding answer_repair
answer_rows a (done o, rows) = refl
answer_rows a (refused, rows) = refl

undecided-Moved : (now : ℕ) (r : TaskRow) (s : List TaskRow) → Evolves Moved s (undecided now r s).1
unfolding undecided
undecided-Moved now r s = elim (Bool-cases (is_abandoned now r)) [
  | inr kept ↦ rw kept (stays s)
  | inl lost ↦
      rw
        (
          lost,
          answer_rows (decided reconciliation_required)
              (update_task r.task_id (is_abandoned now) (abandoned_row now) s),
        )
        (updates r.task_id (is_abandoned now) (abandoned_row now) s (λ a. refl)
          (λ a p h. abandoned_row-Moved now a h))
]

decide-Moved :
    (now : ℕ) (r : TaskRow) (run : RunRecord) (s : List TaskRow)
    → is_pending_dlq r.execution_state ≡ false
    → is_settled r.execution_state ≡ false
    → find_task r.task_id s ≡ some r
    → Evolves Moved s (decide now r run (history_decision run) s).1
unfolding decide
decide-Moved now r run s p q found = go (history_decision run) (history_decision-Decides run)
  where
    go :
        (o : Option (ExecutionState × Option Bool))
        → Decides o
        → Evolves Moved s (decide now r run o s).1
    go none d = undecided-Moved now r s
    go (some (e, shown)) v =
        rw
          (answer_rows (decided e)
            (update_task r.task_id (λ _. true) (settled_row e shown run now) s))
          (updates r.task_id (λ _. true) (settled_row e shown run now) s (λ a. refl)
            (λ a h t.
              subst (λ x. Moved x (settled_row e shown run now x)) (ground (arith, found, h))
                (settled_row-Moved e shown run now r v p q)))

confirmed-Moved :
    (now id : ℕ) (x : Reply Bool × List DeadLetter) (s : List TaskRow)
    → Evolves Moved s (confirmed now id x s).1
unfolding confirmed
confirmed-Moved now id (done true, letters) s =
    rw
      (answer_rows (decided dead_lettered)
        (update_task id (λ r. is_pending_dlq r.execution_state) (dead_row now) s))
      (updates id _ (dead_row now) s (λ a. refl) (λ a p h. dead_row-Moved now a h))
confirmed-Moved now id (done false, letters) s = stays s
confirmed-Moved now id (refused, letters) s = stays s

repair-Moved :
    (now : ℕ) (r : TaskRow) (run : RunRecord) (s : List TaskRow) (letters : List DeadLetter)
    → find_task r.task_id s ≡ some r
    → Evolves Moved s (repair now r run s letters).1
unfolding repair
repair-Moved now r run s letters found = elim (Bool-cases (is_pending_dlq r.execution_state)) [
  | inl p ↦ rw p (confirmed-Moved now r.task_id (letter_of now r letters) s)
  | inr p ↦ elim (Bool-cases (is_settled r.execution_state)) [
    | inl q ↦ rw (p, q) (stays s)
    | inr q ↦ rw (p, q) (decide-Moved now r run s p q found)
  ]
]

joined-found :
    (id : ℕ) (s : Registry) (r : TaskRow) (run : RunRecord)
    → joined id s ≡ some (r, run)
    → find_task r.task_id s.tasks ≡ some r
unfolding joined join_run joined_with
joined-found id s r run h = go (find_task id s.tasks) refl h
  where
    same : (a : TaskRow) → find_task id s.tasks ≡ some a → find_task a.task_id s.tasks ≡ some a
    same a p =
        subst (λ j. find_task j s.tasks ≡ some a)
          (sym ((==_iff a.task_id id).0 (first_passes (task_with id) s.tasks a p))) p

    with_it :
        (a : TaskRow) (o : Option RunRecord)
        → find_task id s.tasks ≡ some a
        → joined_with a o ≡ some (r, run)
        → find_task r.task_id s.tasks ≡ some r
    with_it a none p e = ground arith
    with_it a (some x) p e =
        subst (λ y. find_task y.task_id s.tasks ≡ some y) (ground (arith, e)) (same a p)

    go :
        (o : Option TaskRow)
        → find_task id s.tasks ≡ o
        → join_run o s ≡ some (r, run)
        → find_task r.task_id s.tasks ≡ some r
    go none p e = ground arith
    go (some a) p e = with_it a (find_run a.run_id s.store) p e

reconcile-Moved :
    (now id : ℕ) (s : Registry)
    → Evolves Moved s.tasks (repaired_or s (reconcile_task now id s)).tasks
unfolding reconcile_task reconcile_joined
reconcile-Moved now id s = go (joined id s) refl
  where
    held :
        (x : Reply Repair × List TaskRow × List DeadLetter)
        → Evolves Moved s.tasks x.1
        → Evolves Moved s.tasks
            (repaired_or s (x.0, record s { tasks = x.1; dead_letters = x.2 })).tasks
    held (done a, rows, letters) h = h
    held (refused, rows, letters) h = stays s.tasks

    go :
        (o : Option (TaskRow × RunRecord))
        → joined id s ≡ o
        → Evolves Moved s.tasks (repaired_or s (reconcile_joined now o s)).tasks
    go none p = stays s.tasks
    go (some (r, run)) p =
        held (repair now r run s.tasks s.dead_letters)
          (repair-Moved now r run s.tasks s.dead_letters (joined-found id s r run p))

-- Every committed call of the task queue keeps every recorded task recorded, with its run and its week,
-- and takes it along at most one edge of the diagram: the epoch grows with the number of claims, and a
-- task that has ended keeps its state, its result and its error.
pub perform-Moved : (call : TaskCall) (s : Registry) → Evolves Moved s.tasks (perform call s).tasks
unfolding perform start_prefect heartbeat_execution finish_execution schedule_retry fail_claim
perform-Moved (accept c d user week) s = accept-Moved c d user week s
perform-Moved (claim token attempt lease now id) s = claim-Moved token attempt lease now id s.tasks
perform-Moved (start token epoch lease now id) s =
    answers id (is_startable now token epoch) (started_row lease now) s.tasks (λ r. refl)
      (λ r h. started_row-Moved now token epoch lease r h)
perform-Moved (heartbeat token epoch lease now id) s =
    answers id (is_held token epoch) (heartbeat_row lease now) s.tasks (λ r. refl)
      (λ r h. heartbeat_row-Moved lease now r)
perform-Moved (finish token epoch e ending now id) s =
    answers id (is_held token epoch) (finish_row (record ending { state = end_state e }) now)
      s.tasks (λ r. refl) (λ r h. finish_row-Moved token epoch e ending now r h)
perform-Moved (postpone token epoch next code message now id) s =
    answers id (is_prepared token epoch) (retry_row next code message now) s.tasks (λ r. refl)
      (λ r h. retry_row-Moved token epoch next code message now r h)
perform-Moved (fail token epoch inserted code message now id) s =
    answers id (is_prepared token epoch) (failed_row (letter_state inserted) code message now)
      s.tasks (λ r. refl) (λ r h. failed_row-Moved token epoch inserted code message now r h)
perform-Moved (bury task run attempt reason code message now) s = stays s.tasks
perform-Moved (reconcile now id) s = reconcile-Moved now id s
perform-Moved (relay c turn) s = relay_once-Moved c turn s
perform-Moved (history store) s = stays s.tasks
