-- ===== src/Publication/Runs/History.antt =====
-- The calls of pipelines/run_store.py one by one: what each may do to a stored run.
use ang553_latam_aie_01_fina.Common.{
  ℕ, String, Bool, true, false, ◌≡◌, refl, inl, inr, Option, none, some, [], ◌∷◌, arith, ◌==◌,
  ==_iff, first-append_some, Bool-cases,
}
use mathlib.Core.Path.{subst}
use ang553_latam_aie_01_fina.Publication.Types.{
  RunStatus, pending, running, status_eq, CommitResult, RunRecord, Store, Connection,
}
use ang553_latam_aie_01_fina.Publication.Call.{
  Result, ok, err, Call, ◌>>=◌, find_run, run_with, change_run, update_run_row, Ensures,
  Ensures-bind,
}
use ang553_latam_aie_01_fina.Publication.Rules.{
  Reads, Reads-or_raise, Reads-execute, Ensures-read, Ensures-write, read_rules, first-change_where,
}
use ang553_latam_aie_01_fina.Publication.Runs.{
  terminal, transition, require_run, NewRun, create_run, insert_run, RunUpdate, check_update,
  set_columns, update_run, correlate_pending_run, record_commit_observation,
}
use ang553_latam_aie_01_fina.Publication.Runs.Transitions.{
  RowStep, same, moved, noted, status_eq→eq, check_update-ok,
}

-- Every stored run is still stored, at most one step on.
pub record Evolves (s t : Store) : Type 0 where
  pub at :
      (id : ℕ) (r : RunRecord)
      → find_run id s ≡ some r
      → (r' : RunRecord) × (find_run id t ≡ some r') × RowStep r r'

pub Evolves-refl : (s : Store) → Evolves s s
Evolves-refl s = record { at = λ id r h. (r, h, same refl) }

-- Same rows of runs.
pub Evolves-runs : (s t : Store) → t.runs ≡ s.runs → Evolves s t
Evolves-runs s t e = record { at = λ id r h. (r, rw e h, same refl) }

pub require_run-Reads : (c : Connection) (n id : ℕ) → Reads (require_run c n id)
unfolding require_run
require_run-Reads c n id = search read_rules depth 12

transition-Reads : (a b : RunStatus) → Reads (transition a b)
unfolding transition
transition-Reads a b = record { at = λ s. ground arith }

pub check_update-Reads : (r : RunRecord) (u : RunUpdate) → Reads (check_update r u)
unfolding check_update
check_update-Reads r u = search (read_rules, transition-Reads) depth 20

pub set_columns-Reads :
    (r : RunRecord) (u : RunUpdate) (k : CommitResult) → Reads (set_columns r u k)
unfolding set_columns
set_columns-Reads r u k = search read_rules depth 30

-- What the columns of an update set: the status, and never the identifier.
abbrev Sets : RunUpdate → Result (RunRecord → RunRecord) → Type 0
Sets u (err c) = Unit
Sets u (ok set) =
    (r : RunRecord)
    → ((set r).run_id ≡ r.run_id)
      × ((set r).status ≡ u.status)
      × ((set r).finished_at ≡ u.finished_at)

set_columns-Sets :
    (r : RunRecord) (u : RunUpdate) (k : CommitResult) (s : Store)
    → Ensures (λ x t. Sets u x) (set_columns r u k s)
unfolding set_columns
set_columns-Sets r u k s = bind _ _ _ λ a₁ s₁. bind _ _ _ λ a₂ s₂. bind _ _ _ λ a₃ s₃.
    bind _ _ _ λ a₄ s₄. bind _ _ _ λ a₅ s₅. bind _ _ _ λ a₆ s₆. bind _ _ _ λ a₇ s₇.
      bind _ _ _ λ a₈ s₈.
        bind _ _ _ λ a₉ s₉.
          bind _ _ _ λ a₁₀ s₁₀. bind _ _ _ λ a₁₁ s₁₁. record { at = λ q. (refl, refl, refl) }
  where
    bind :
        {A : Type 0} (m : Call A) (f : A → Call (RunRecord → RunRecord)) (t : Store)
        → ((a : A) (t' : Store) → Ensures (λ x z. Sets u x) (f a t'))
        → Ensures (λ x z. Sets u x) ((m >>= f) t)
    bind m f t g = Ensures-bind m f t (λ a t' h. g a t') (λ c t' h. tt)

-- A keyed update of the runs is a step of the row that it finds, and of no other.
update_run_row-Evolves :
    (id : ℕ) (cond : RunRecord → Bool) (set : RunRecord → RunRecord) (s : Store)
    → ((r : RunRecord) → (set r).run_id ≡ r.run_id)
    → ((r : RunRecord) → find_run id s ≡ some r → cond r ≡ true → RowStep r (set r))
    → Evolves s (update_run_row id cond set s).1
unfolding update_run_row change_run
update_run_row-Evolves id cond set s keeps step = go (find_run id s) refl
  where
    go : (o : Option RunRecord) → find_run id s ≡ o → Evolves s (change_run id cond set o s).1
    go none p = Evolves-refl s
    go (some r) p = elim (Bool-cases (cond r)) [
      | inr no_match ↦ rw no_match (Evolves-refl s)
      | inl hit ↦ rw hit (record {
        at = λ j x h. elim (Bool-cases (j == id)) [
          | inl here ↦
              let e = (==_iff j id).0 here in
              let found : find_run id s ≡ some x = subst (λ k. find_run k s ≡ some x) e h in
              (
                set x,
                rw (first-change_where (λ a. a.run_id) set keeps id j s.runs, h, here),
                step x found (subst (λ y. cond y ≡ true) (ground (arith, p, found)) hit),
              )
          | inr there ↦ (
            x,
            rw (first-change_where (λ a. a.run_id) set keeps id j s.runs, h, there),
            same refl,
          )
        ];
      })
    ]

-- A reading step of a call: an error there leaves every run as it was.
evolve_read :
    {A B : Type 0} (m : Call A) (f : A → Call B) (s : Store)
    → Reads m
    → ((a : A) → m s ≡ (ok a, s) → Ensures (λ x t. Evolves s t) (f a s))
    → Ensures (λ x t. Evolves s t) ((m >>= f) s)
evolve_read m f s rm good = Ensures-read m f s rm good (λ c. Evolves-refl s)

pub set_columns-status :
    (r : RunRecord) (u : RunUpdate) (k : CommitResult) (s : Store) (set : RunRecord → RunRecord)
    → set_columns r u k s ≡ (ok set, s)
    → Sets u (ok set)
set_columns-status r u k s set h =
    subst (λ (x : Result (RunRecord → RunRecord) × Store). Sets u x.0) h
      (set_columns-Sets r u k s).at

pub update_run-Evolves :
    (c : Connection) (id : ℕ) (u : RunUpdate) (s : Store) → Evolves s (update_run c id u s).1
unfolding update_run
update_run-Evolves c id u s =
    (evolve_read _ _ s (search read_rules) λ _ _.
      evolve_read _ _ s (require_run-Reads c 0 id) λ current _.
        evolve_read _ _ s (check_update-Reads current u) λ chosen checked.
          evolve_read _ _ s (set_columns-Reads current u chosen) λ set columns.
            evolve_read _ _ s (Reads-execute c 1) λ _ _.
              Ensures-write _ _ s
                (update_run_row-Evolves id _ set s
                  (λ r. (set_columns-status current u chosen s set columns r).0)
                  (λ r found hit. moved (
                    rw
                      (
                        (set_columns-status current u chosen s set columns r).1,
                        status_eq→eq r.status u.expected_status hit,
                      )
                      (check_update-ok current u s chosen s checked).1)))
                (λ row. Reads-or_raise row _)).at

-- Columns may be noted on a run whose status is matched and is not terminal.
noted_by :
    (expected : RunStatus) (r r' : RunRecord)
    → terminal expected ≡ false
    → r'.status ≡ r.status
    → status_eq r.status expected ≡ true
    → RowStep r r'
noted_by expected r r' open_status kept hit =
    noted (rw (status_eq→eq r.status expected hit) open_status) kept

pub correlate_pending_run-Evolves :
    (c : Connection) (id : ℕ) (flow task : String) (s : Store)
    → Evolves s (correlate_pending_run c id flow task s).1
unfolding correlate_pending_run terminal
correlate_pending_run-Evolves c id flow task s =
    (evolve_read _ _ s (search read_rules) λ _ _. evolve_read _ _ s (search read_rules) λ flow_id _.
      evolve_read _ _ s (search read_rules) λ task_id _.
        evolve_read _ _ s (Reads-execute c 0) λ _ _.
          Ensures-write _ _ s
            (update_run_row-Evolves id _ _ s (λ r. refl)
              (λ r found hit. noted_by pending r _ refl refl hit))
            (λ row. Reads-or_raise row _)).at

pub record_commit_observation-Evolves :
    (c : Connection) (id : ℕ) (result : CommitResult) (stage code message : String) (s : Store)
    → Evolves s (record_commit_observation c id result stage code message s).1
unfolding record_commit_observation terminal
record_commit_observation-Evolves c id result stage code message s =
    (evolve_read _ _ s (search read_rules) λ _ _. evolve_read _ _ s (search read_rules) λ _ _.
      evolve_read _ _ s (require_run-Reads c 0 id) λ current _.
        evolve_read _ _ s (search read_rules) λ _ _. evolve_read _ _ s (search read_rules) λ _ _.
          evolve_read _ _ s (search read_rules) λ _ _. evolve_read _ _ s (search read_rules) λ _ _.
            evolve_read _ _ s (Reads-execute c 1) λ _ _.
              Ensures-write _ _ s
                (update_run_row-Evolves id _ _ s (λ r. refl)
                  (λ r found hit. noted_by running r _ refl refl hit))
                (λ row. Reads-or_raise row _)).at

insert_run-Evolves :
    (c : Connection) (row : RunRecord) (s : Store) → Evolves s (insert_run c row s).1
unfolding insert_run
insert_run-Evolves c row s = record {
  at = λ id r h.
      (r, ground (arith, first-append_some (run_with id) s.runs (row ∷ []) r h), same refl);
}

pub create_run-Evolves :
    (c : Connection) (new : NewRun) (s : Store) → Evolves s (create_run c new s).1
unfolding create_run
create_run-Evolves c new s =
    (evolve_read _ _ s (search read_rules) λ _ _. evolve_read _ _ s (search read_rules) λ _ _.
      evolve_read _ _ s (search read_rules) λ _ _. evolve_read _ _ s (search read_rules) λ _ _.
        evolve_read _ _ s (search read_rules) λ _ _. evolve_read _ _ s (search read_rules) λ _ _.
          evolve_read _ _ s (search read_rules) λ _ _. record { at = insert_run-Evolves c _ s }).at
