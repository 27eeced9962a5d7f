-- ===== src/Jobs/Claims.antt =====
-- Sequences of calls of services/job_runner/service.py.
use mathlib.Core.Path.{subst}
use ang553_latam_aie_01_fina.Common.{
  ℕ, String, Bool, true, false, ◌≡◌, ◌⊎◌, inl, inr, refl, ap, ◌∙◌, Option, some, List, [], ◌∷◌,
  arith, ◌==◌, ==_iff, first, first-change_where, absent-first, if◌then◌else◌, Bool-cases,
}
use ang553_latam_aie_01_fina.Jobs.Types.{
  JobStatus, pending, processing, completed, failed, JobRun, Table, run_with, is_processing,
}
use ang553_latam_aie_01_fina.Jobs.{
  Link, is_valid_status_transition, pending_row, start_row, complete_row, fail_row, acquire_job_run,
  complete_job_run, fail_job_run,
}
use ang553_latam_aie_01_fina.Jobs.Exclusive.{Exclusive, Changed, Changed-Exclusive, fresh-Exclusive}
use ang553_latam_aie_01_fina.Jobs.History.{
  Started, acquire_job_run-table, terminal_transition-table,
}

-- A call of the job runner, with what its transactions meet.
pub data JobCall : Type 0 where
  acquire : Link → Link → Table → ℕ → String → ℕ → ℕ → JobCall
  complete : Link → ℕ → ℕ → JobCall
  fail : Link → ℕ → String → ℕ → JobCall

-- The table after a call, whether it returned or raised.
unfoldable pub perform : JobCall → Table → Table
perform (acquire link second later id name target now) s =
    (acquire_job_run link second later id name target now s).1
perform (complete link id now) s = (complete_job_run link id now s).1
perform (fail link id message now) s = (fail_job_run link id message now s).1

unfoldable pub replay : List JobCall → Table → Table
replay [] s = s
replay (call ∷ rest) s = replay rest (perform call s)

Started-Exclusive :
    (id : ℕ) (name : String) (target now : ℕ) (s : Table) (r : JobRun) (t : Table)
    → Exclusive s
    → Started id name target now s r t
    → Exclusive t
Started-Exclusive id name target now s r t ex st =
    Changed-Exclusive id _ (start_row now) (pending_row id name target now ∷ s) (some r) t
      (λ a. refl) (fresh-Exclusive (pending_row id name target now) s refl st.fresh ex) st.change

pub perform-Exclusive : (call : JobCall) (s : Table) → Exclusive s → Exclusive (perform call s)
unfolding perform
perform-Exclusive (acquire link second later id name target now) s ex =
    acquire_job_run-table Exclusive link second later id name target now s ex
      (λ r t st. Started-Exclusive id name target now s r t ex st)
perform-Exclusive (complete link id now) s ex =
    terminal_transition-table Exclusive link id (complete_row now) s ex
      (λ o t c. Changed-Exclusive id _ (complete_row now) s o t (λ a. refl) ex c)
perform-Exclusive (fail link id message now) s ex =
    terminal_transition-table Exclusive link id (fail_row now message) s ex
      (λ o t c. Changed-Exclusive id _ (fail_row now message) s o t (λ a. refl) ex c)

-- A row and a later version: the same, or one status further along the state machine.
pub record Moved (r r' : JobRun) : Type 0 where
  pub id : r'.id ≡ r.id
  pub job_name : r'.job_name ≡ r.job_name
  pub target_date : r'.target_date ≡ r.target_date
  pub status : is_valid_status_transition r.status r'.status ≡ true

pub record Evolves (s t : Table) : Type 0 where
  pub at :
      (id : ℕ) (r : JobRun)
      → first (run_with id) s ≡ some r
      → (r' : JobRun) × (first (run_with id) t ≡ some r') × ((r' ≡ r) ⊎ Moved r r')

Evolves-refl : (s : Table) → Evolves s s
Evolves-refl s = record { at = λ id r h. (r, h, inl refl) }

pub Changed-first :
    (id : ℕ) (cond : JobRun → Bool) (set : JobRun → JobRun) (s : Table) (o : Option JobRun)
    (t : Table)
    → ((a : JobRun) → (set a).id ≡ a.id)
    → Changed id cond set s o t
    → (j : ℕ) (r : JobRun) → first (run_with j) s ≡ some r
    → first (run_with j) t ≡ some (if j == id then set r else r)
Changed-first id cond set s o t keeps c j r h =
    rw (c.left, first-change_where (λ a. a.id) set keeps id j s, h) refl

Changed-Evolves :
    (id : ℕ) (cond : JobRun → Bool) (set : JobRun → JobRun) (s : Table) (o : Option JobRun)
    (t : Table)
    → ((a : JobRun) → (set a).id ≡ a.id)
    → ((a : JobRun) → cond a ≡ true → Moved a (set a))
    → Changed id cond set s o t
    → Evolves s t
Changed-Evolves id cond set s o t keeps moves c = record {
  at = λ j r h.
      let later = Changed-first id cond set s o t keeps c j r h in
      elim (Bool-cases (j == id)) [
        | inr there ↦ (
          r,
          subst (λ b. first (run_with j) t ≡ some (if b then set r else r)) there later,
          inl refl,
        )
        | inl here ↦
            let same : c.old ≡ r = ground (
              arith,
              c.found,
              subst (λ x. first (run_with x) s ≡ some r) ((==_iff j id).0 here) h,
            ) in
            (
              set r,
              subst (λ b. first (run_with j) t ≡ some (if b then set r else r)) here later,
              inr (moves r (subst (λ x. cond x ≡ true) same c.hit)),
            )
      ];
}

Started-Evolves :
    (id : ℕ) (name : String) (target now : ℕ) (s : Table) (r : JobRun) (t : Table)
    → Started id name target now s r t
    → Evolves s t
unfolding first
Started-Evolves id name target now s r t st = record { at = λ j a h. (a, stays j a h, inl refl) }
  where
    other : (j : ℕ) (a : JobRun) → first (run_with j) s ≡ some a → (j == id) ≡ false
    other j a h = elim (Bool-cases (j == id)) [
      | inr there ↦ there
      | inl here ↦ absurd (
          ground (
            arith,
            absent-first (run_with id) s st.fresh,
            subst (λ x. first (run_with x) s ≡ some a) ((==_iff j id).0 here) h,
          ))
    ]

    stays : (j : ℕ) (a : JobRun) → first (run_with j) s ≡ some a → first (run_with j) t ≡ some a
    stays j a h =
        subst (λ b. first (run_with j) t ≡ some (if b then start_row now a else a)) (other j a h)
          (Changed-first id _ (start_row now) _ (some r) t (λ x. refl) st.change j a
            (ground (arith, h, other j a h)))

perform-Evolves : (call : JobCall) (s : Table) → Evolves s (perform call s)
unfolding perform
perform-Evolves (acquire link second later id name target now) s =
    acquire_job_run-table (Evolves s) link second later id name target now s (Evolves-refl s)
      (λ r t st. Started-Evolves id name target now s r t st)
perform-Evolves (complete link id now) s =
    terminal_transition-table (Evolves s) link id (complete_row now) s (Evolves-refl s)
      (λ o t c. Changed-Evolves id _ (complete_row now) s o t (λ a. refl) completes c)
  where
    finishes :
        (st : JobStatus) → is_processing st ≡ true → is_valid_status_transition st completed ≡ true
    finishes processing h = refl
    finishes pending h = h
    finishes completed h = h
    finishes failed h = h

    completes : (a : JobRun) → is_processing a.status ≡ true → Moved a (complete_row now a)
    completes a h = record {
      id = refl;
      job_name = refl;
      target_date = refl;
      status = finishes a.status h;
    }
perform-Evolves (fail link id message now) s =
    terminal_transition-table (Evolves s) link id (fail_row now message) s (Evolves-refl s)
      (λ o t c. Changed-Evolves id _ (fail_row now message) s o t (λ a. refl) fails c)
  where
    finishes :
        (st : JobStatus) → is_processing st ≡ true → is_valid_status_transition st failed ≡ true
    finishes processing h = refl
    finishes pending h = h
    finishes completed h = h
    finishes failed h = h

    fails : (a : JobRun) → is_processing a.status ≡ true → Moved a (fail_row now message a)
    fails a h = record {
      id = refl;
      job_name = refl;
      target_date = refl;
      status = finishes a.status h;
    }

abbrev pub is_terminal : JobStatus → Bool
is_terminal completed = true
is_terminal failed = true
is_terminal _ = false

no_move : (r r' : JobRun) → is_terminal r.status ≡ true → ¬ (Moved r r')
no_move r r' h m = go r.status r'.status h m.status
  where
    go : (a b : JobStatus) → is_terminal a ≡ true → ¬ (is_valid_status_transition a b ≡ true)
    go completed b h k = ground arith
    go failed b h k = ground arith
    go pending b h k = ground arith
    go processing b h k = ground arith

-- A run that is completed or failed keeps its row as it is through every later sequence of
-- acquisitions, completions and failures.
pub replay_finished :
    (calls : List JobCall) (s : Table) (id : ℕ) (r : JobRun)
    → first (run_with id) s ≡ some r
    → is_terminal r.status ≡ true
    → first (run_with id) (replay calls s) ≡ some r
unfolding replay
replay_finished [] s id r found h = found
replay_finished (call ∷ rest) s id r found h =
    let (r', found', step) = (perform-Evolves call s).at id r found in
    replay_finished rest (perform call s) id r (found' ∙ ap some (same r' step)) h
  where
    same : (r' : JobRun) → (r' ≡ r) ⊎ Moved r r' → r' ≡ r
    same r' (inl e) = e
    same r' (inr m) = absurd (no_move r r' h m)
