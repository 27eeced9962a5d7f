-- ===== src/Tasks/Accepts.antt =====
-- `accept_async_task` of services/task_queue/store.py when it returns.
use mathlib.Core.Path.{subst}
use ang553_latam_aie_01_fina.Common.{
  ℕ, String, Bool, true, false, ◌||◌, ◌≡◌, inl, inr, refl, sym, Option, none, some, List, [], ◌∷◌,
  ◌++◌, arith, ◌==◌, ==_refl, is_some, any_of, first, first-append_none, absent-first, Bool-cases,
}
use ang553_latam_aie_01_fina.Publication.Types.{RunRecord, pending, Store, Connection, status_eq}
use ang553_latam_aie_01_fina.Publication.Call.{
  Result, ok, err, raw_integrity, execute, Ensures, find_run,
}
use ang553_latam_aie_01_fina.Publication.Rules.{Reads-execute, Ensures-read, read_rules}
use ang553_latam_aie_01_fina.Publication.Runs.{NewRun, create_run, insert_run, inserted_run}
use ang553_latam_aie_01_fina.Tasks.Types.{DispatchRow, Registry, find_task}
use ang553_latam_aie_01_fina.Tasks.{
  Drawn, Accepted, accept_async_task, accept_for, accept_created, insert_task, active_run, latest,
  is_active, new_run, accepted_row, outbox_row, task_of_run, task_or,
}

-- A run that was created is a pending run of its week, after those that were there.
record Created (new : NewRun) (s : Store) (run : RunRecord) (t : Store) : Type 0 where
  runs : t.runs ≡ s.runs ++ run ∷ []
  status : run.status ≡ pending
  week : run.target_week_start ≡ new.target_week_start

abbrev CreatedIf : NewRun → Store → Result RunRecord → Store → Type 0
CreatedIf new s (ok run) t = Created new s run t
CreatedIf new s (err c) t = Unit

inserted_run-Created :
    (new : NewRun) (row : RunRecord) (x : Result (Unit {0})) (s : Store)
    → row.status ≡ pending
    → row.target_week_start ≡ new.target_week_start
    → CreatedIf new s (inserted_run row x s).0 (inserted_run row x s).1
unfolding inserted_run
inserted_run-Created new row (err raw_integrity) s p q = tt
inserted_run-Created new row (err _) s p q = tt
inserted_run-Created new row (ok u) s p q = elim (Bool-cases (is_some (find_run row.run_id s))) [
  | inl hit ↦ rw hit tt
  | inr miss ↦ rw miss (record { runs = refl; status = p; week = q })
]

insert_run-Created :
    (c : Connection) (new : NewRun) (row : RunRecord) (s : Store)
    → row.status ≡ pending
    → row.target_week_start ≡ new.target_week_start
    → Ensures (CreatedIf new s) (insert_run c row s)
unfolding insert_run
insert_run-Created c new row s p q = record { at = go (execute c 0 s) ((Reads-execute c 0).at s) }
  where
    go :
        (x : Result (Unit {0}) × Store)
        → x.1 ≡ s
        → CreatedIf new s (inserted_run row x.0 x.1).0 (inserted_run row x.0 x.1).1
    go (x, t) e =
        subst (λ u. CreatedIf new s (inserted_run row x u).0 (inserted_run row x u).1) (sym e)
          (inserted_run-Created new row x s p q)

created_if :
    (c : Connection) (new : NewRun) (s : Store) → Ensures (CreatedIf new s) (create_run c new s)
unfolding create_run
created_if c new s =
    Ensures-read _ _ s (search read_rules)
      (λ _ _.
        Ensures-read _ _ s (search read_rules)
          (λ _ _.
            Ensures-read _ _ s (search read_rules)
              (λ _ _.
                Ensures-read _ _ s (search read_rules)
                  (λ _ _.
                    Ensures-read _ _ s (search read_rules)
                      (λ _ _.
                        Ensures-read _ _ s (search read_rules)
                          (λ _ _.
                            Ensures-read _ _ s (search read_rules)
                              (λ _ _. insert_run-Created c new _ s refl refl) (λ _. tt))
                          (λ _. tt))
                      (λ _. tt))
                  (λ _. tt))
              (λ _. tt))
          (λ _. tt))
      (λ _. tt)

-- The run that was created is what the call returns.
create_run-Created :
    (c : Connection) (new : NewRun) (s : Store) (run : RunRecord) (t : Store)
    → create_run c new s ≡ (ok run, t)
    → Created new s run t
create_run-Created c new s run t h =
    subst (λ (x : Result RunRecord × Store). CreatedIf new s x.0 x.1) h (created_if c new s).at

-- A new task with its outbox row and its pending run, for a week that had no run pending or running.
pub record Opened (d : Drawn) (user : String) (week : ℕ) (run : ℕ) (s t : Registry) : Type 0 where
  pub free : active_run week s.store.runs ≡ none
  pub stored :
      (r : RunRecord) × (r.run_id ≡ run)
      × (is_active week r ≡ true)
      × (t.store.runs ≡ s.store.runs ++ r ∷ [])
  pub fresh : any_of (task_of_run run) s.tasks ≡ false
  pub tasks : t.tasks ≡ s.tasks ++ accepted_row d.task run user week d.now ∷ []
  pub outbox : t.outbox ≡ s.outbox ++ outbox_row d.task run week d.now ∷ []

-- The week's run that is pending or running, with its task if it has one; nothing changed.
pub record Joined (d : Drawn) (week run answer_repair : ℕ) (s t : Registry) : Type 0 where
  pub active : (r : RunRecord) × (r.run_id ≡ run) × (active_run week s.store.runs ≡ some r)
  pub task : answer_repair ≡ task_or d.unrecorded (first (task_of_run run) s.tasks)
  pub same : t ≡ s

abbrev pub Answered : Drawn → String → ℕ → ℕ → ℕ → Bool → Registry → Registry → Type 0
Answered d user week run task true s t = (task ≡ d.task) × Opened d user week run s t
Answered d user week run task false s t = Joined d week run task s t

abbrev AnsweredIf : Drawn → String → ℕ → Registry → Accepted × Registry → Type 0
AnsweredIf d user week s (ok (run, task, created), t) = Answered d user week run task created s t
AnsweredIf d user week s (err c, t) = Unit

pending_is_active :
    (week : ℕ) (r : RunRecord)
    → r.status ≡ pending
    → r.target_week_start ≡ week
    → is_active week r ≡ true
unfolding status_eq
pending_is_active week r p q = rw (p, q, ==_refl week) refl

insert_task-Answered :
    (c : Connection) (d : Drawn) (user : String) (week : ℕ) (run : RunRecord) (s : Registry)
    (t : Store)
    → active_run week s.store.runs ≡ none
    → Created (new_run d.run week) s.store run t
    → AnsweredIf d user week s (insert_task d user week run (record s { store = t }))
unfolding insert_task
insert_task-Answered c d user week run s t free made = elim (Bool-cases taken) [
  | inl hit ↦ rw hit tt
  | inr miss ↦ rw miss (
    refl,
    record {
      free = free;
      stored = (run, refl, pending_is_active week run made.status made.week, made.runs);
      fresh = ground (arith, miss);
      tasks = refl;
      outbox = refl;
    },
  )
]
  where
    taken : Bool
    taken =
        is_some (find_task d.task s.tasks)
        || any_of (task_of_run run.run_id) s.tasks
        || any_of (λ (o : DispatchRow). o.task_id == d.task) s.outbox

accept_for-Answered :
    (c : Connection) (d : Drawn) (user : String) (week : ℕ) (o : Option RunRecord) (s : Registry)
    → active_run week s.store.runs ≡ o
    → AnsweredIf d user week s (accept_for c d user week o s)
unfolding accept_for accept_created
accept_for-Answered c d user week (some r) s p = record {
  active = (r, refl, p);
  task = refl;
  same = refl;
}
accept_for-Answered c d user week none s p = go (create_run c (new_run d.run week) s.store) refl
  where
    go :
        (x : Result RunRecord × Store)
        → create_run c (new_run d.run week) s.store ≡ x
        → AnsweredIf d user week s (accept_created d user week x s)
    go (err e, t) h = tt
    go (ok run, t) h =
        insert_task-Answered c d user week run s t p
          (create_run-Created c (new_run d.run week) s.store run t h)

pub accept_async_task-Answered :
    (c : Connection) (d : Drawn) (user : String) (week : ℕ) (s : Registry) (run task : ℕ)
    (created : Bool) (t : Registry)
    → accept_async_task c d user week s ≡ (ok (run, task, created), t)
    → Answered d user week run task created s t
unfolding accept_async_task
accept_async_task-Answered c d user week s run task created t h =
    subst (AnsweredIf d user week s) h
      (accept_for-Answered c d user week (active_run week s.store.runs) s refl)

active_run-append :
    (week : ℕ) (rows : List RunRecord) (r : RunRecord)
    → active_run week rows ≡ none
    → is_active week r ≡ true
    → active_run week (rows ++ r ∷ []) ≡ some r
unfolding active_run latest
active_run-append week [] r p q = rw q refl
active_run-append week (a ∷ rows) r p q = ground (arith, active_run-append week rows r, q)

-- A second acceptance of a week, by anyone, answers with the run and the task that the first created,
-- and changes nothing.
pub accept_again :
    (c : Connection) (d : Drawn) (user : String) (week : ℕ) (s : Registry) (run task : ℕ)
    (t : Registry)
    → accept_async_task c d user week s ≡ (ok (run, task, true), t)
    → (c' : Connection) (d' : Drawn) (user' : String)
    → accept_async_task c' d' user' week t ≡ (ok (run, task, false), t)
unfolding accept_async_task accept_for first
accept_again c d user week s run task t h c' d' user' =
    let (e, made) = accept_async_task-Answered c d user week s run task true t h in
    let (r, is_run, active, runs) = made.stored in
    let found : first (task_of_run run) t.tasks ≡ some (accepted_row d.task run user week d.now) =
      rw
        (
          made.tasks,
          first-append_none (task_of_run run) s.tasks (accepted_row d.task run user week d.now ∷ [])
              (absent-first (task_of_run run) s.tasks made.fresh),
          ==_refl run,
        )
        refl in
    rw (runs, active_run-append week s.store.runs r made.free active, is_run, found, e) refl
