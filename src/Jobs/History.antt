-- ===== src/Jobs/History.antt =====
-- The transactions of services/job_runner/service.py: what each call may have done to the table.
use mathlib.Core.Path.{subst}
use ang553_latam_aie_01_fina.Common.{
  ℕ, String, Bool, true, false, ◌≡◌, ◌⊎◌, inl, inr, refl, sym, Option, none, some, ◌∷◌, arith,
  any_of, first, Bool-cases,
}
use ang553_latam_aie_01_fina.Jobs.Types.{
  JobRun, Table, Step, done, violated, broken, run_with, is_pending, is_processing, insert_row,
}
use ang553_latam_aie_01_fina.Jobs.{
  Outcome, returned, raised, Commit, confirmed, refused, unseen, Link, valid_job_name, pending_row,
  start_row, statement, one, start_inserted, acquire_statements, settle, acquisition,
  acquire_job_run, current_answer, terminal_answer, settle_answer, terminal_transition,
}
use ang553_latam_aie_01_fina.Jobs.Exclusive.{Leaves, Changed, update_row-cases}

statement-Leaves :
    {A : Type 0} (P : A → Table → Type 0) (b : Bool) (step : Step (A × Table))
    → Leaves P step
    → Leaves P (statement b step)
unfolding statement
statement-Leaves P true step h = tt
statement-Leaves P false step h = h

one-Leaves :
    (P : JobRun → Table → Type 0) (step : Step (Option JobRun × Table))
    → Leaves (λ o t. (r : JobRun) → o ≡ some r → P r t) step
    → Leaves P (one step)
unfolding one
one-Leaves P (done (none, t)) h = tt
one-Leaves P (done (some r, t)) h = h r refl
one-Leaves P (violated c) h = tt
one-Leaves P broken h = tt

-- An acquisition that gets through inserted a row under a new id and started it.
pub record Started (id : ℕ) (name : String) (target now : ℕ) (s : Table) (r : JobRun) (t : Table)
    : Type 0 where
  pub fresh : any_of (run_with id) s ≡ false
  pub change :
      Changed id
        (λ x. is_pending x.status)
        (start_row now)
        (pending_row id name target now ∷ s)
        (some r)
        t

start_inserted-Leaves :
    (P : JobRun → Table → Type 0) (link : Link) (id now : ℕ) (step : Step (Unit {0} × Table))
    → Leaves
        (λ u t.
          (r : JobRun) (t' : Table)
          → Changed id (λ x. is_pending x.status) (start_row now) t (some r) t'
          → P r t')
        step
    → Leaves P (start_inserted link id now step)
unfolding start_inserted
start_inserted-Leaves P link id now (done (u, t)) h =
    statement-Leaves P (link.fault 2) _
      (one-Leaves P _ (weaken _ (update_row-cases id (λ x. is_pending x.status) (start_row now) t)))
  where
    weaken :
        (step : Step (Option JobRun × Table))
        → Leaves
            (λ o t'.
              ((o ≡ none) × (t' ≡ t))
              ⊎ Changed id (λ x. is_pending x.status) (start_row now) t o t')
            step
        → Leaves (λ o t'. (r : JobRun) → o ≡ some r → P r t') step
    weaken (done (o, t')) (inl (absent, same)) = λ r e. absurd (ground (arith, absent, e))
    weaken (done (o, t')) (inr c) = λ r e.
        h r t' (subst (λ x. Changed id (λ y. is_pending y.status) (start_row now) t x t') e c)
    weaken (violated c) k = tt
    weaken broken k = tt
start_inserted-Leaves P link id now (violated c) h = tt
start_inserted-Leaves P link id now broken h = tt

pub acquire_statements-Started :
    (link : Link) (id : ℕ) (name : String) (target now : ℕ) (s : Table)
    → Leaves (Started id name target now s) (acquire_statements link id name target now s)
unfolding acquire_statements insert_row
acquire_statements-Started link id name target now s = statement-Leaves _ (link.fault 0) _ (
    start_inserted-Leaves _ link id now _ (
      statement-Leaves _ (link.fault 1) _ (elim (Bool-cases (any_of (run_with id) s)) [
        | inl used ↦ rw used tt
        | inr fresh ↦ rw fresh (λ r t c. record { fresh = fresh; change = c })
      ])))

settle-table :
    {A : Type 0} (P : Table → Type 0) (c : Commit) (s : Table) (x : Step (A × Table))
    → P s
    → Leaves (λ a t. P t) x
    → P (settle c s x).1
unfolding settle
settle-table P confirmed s (done (a, t)) p h = h
settle-table P refused s (done (a, t)) p h = p
settle-table P unseen s (done (a, t)) p h = h
settle-table P confirmed s (violated e) p h = p
settle-table P refused s (violated e) p h = p
settle-table P unseen s (violated e) p h = p
settle-table P confirmed s broken p h = p
settle-table P refused s broken p h = p
settle-table P unseen s broken p h = p

settle_answer-table :
    {A : Type 0} (P : Table → Type 0) (c : Commit) (s : Table) (x : Step (Outcome A × Table))
    → P s
    → Leaves (λ a t. P t) x
    → P (settle_answer c s x).1
unfolding settle_answer
settle_answer-table P confirmed s (done (raised e, t)) p h = p
settle_answer-table P refused s (done (raised e, t)) p h = p
settle_answer-table P unseen s (done (raised e, t)) p h = p
settle_answer-table P confirmed s (done (returned a, t)) p h = h
settle_answer-table P refused s (done (returned a, t)) p h = p
settle_answer-table P unseen s (done (returned a, t)) p h = h
settle_answer-table P confirmed s (violated e) p h = p
settle_answer-table P refused s (violated e) p h = p
settle_answer-table P unseen s (violated e) p h = p
settle_answer-table P confirmed s broken p h = p
settle_answer-table P refused s broken p h = p
settle_answer-table P unseen s broken p h = p

acquisition-table :
    (link : Link) (name : String) (target : ℕ) (later : Table) (x : Step JobRun × Table)
    → (acquisition link name target later x).1 ≡ x.1
unfolding acquisition
acquisition-table link name target later (done r, t) = refl
acquisition-table link name target later (violated c, t) = refl
acquisition-table link name target later (broken, t) = refl

pub Leaves-map :
    {A : Type 0} (P Q : A → Table → Type 0) (x : Step (A × Table))
    → ((a : A) (t : Table) → P a t → Q a t)
    → Leaves P x
    → Leaves Q x
Leaves-map P Q (done (a, t)) f h = f a t h
Leaves-map P Q (violated c) f h = tt
Leaves-map P Q broken f h = tt

current_answer-table :
    (P : Table → Type 0) (o : Option JobRun) (t : Table)
    → P t
    → Leaves (λ a u. P u) (current_answer o t)
unfolding current_answer
current_answer-table P none t h = h
current_answer-table P (some r) t h = h

terminal_answer-table :
    (P : Table → Type 0) (link : Link) (id : ℕ) (x : Step (Option JobRun × Table))
    → Leaves (λ o t. P t) x
    → Leaves (λ o t. P t) (terminal_answer link id x)
unfolding terminal_answer
terminal_answer-table P link id (done (some r, t)) h = h
terminal_answer-table P link id (done (none, t)) h =
    statement-Leaves _ (link.fault 2) _ (current_answer-table P (first (run_with id) t) t h)
terminal_answer-table P link id (violated c) h = tt
terminal_answer-table P link id broken h = tt

-- The table after an acquisition is the one before, or the one that its statements made.
pub acquire_job_run-table :
    (P : Table → Type 0) (link second : Link) (later : Table) (id : ℕ) (name : String)
    (target now : ℕ) (s : Table)
    → P s
    → ((r : JobRun) (t : Table) → Started id name target now s r t → P t)
    → P (acquire_job_run link second later id name target now s).1
unfolding acquire_job_run
acquire_job_run-table P link second later id name target now s p step =
    elim (Bool-cases (valid_job_name name)) [
      | inr bad ↦ rw bad p
      | inl good ↦ rw good (
          subst P (sym (acquisition-table second name target later _)) (
            settle-table P link.commit s _ p
              (Leaves-map _ _ _ step (acquire_statements-Started link id name target now s))))
    ]

pub terminal_transition-table :
    (P : Table → Type 0) (link : Link) (id : ℕ) (set : JobRun → JobRun) (s : Table)
    → P s
    → ((o : Option JobRun) (t : Table) → Changed id (λ r. is_processing r.status) set s o t → P t)
    → P (terminal_transition link id set s).1
unfolding terminal_transition
terminal_transition-table P link id set s p step = settle_answer-table P link.commit s _ p (
    statement-Leaves _ (link.fault 0) _ (
      terminal_answer-table P link id _ (
        statement-Leaves _ (link.fault 1) _
          (Leaves-map _ _ _ (λ o t. written o t) (update_row-cases id _ set s)))))
  where
    written :
        (o : Option JobRun) (t : Table)
        → ((o ≡ none) × (t ≡ s)) ⊎ Changed id (λ r. is_processing r.status) set s o t
        → P t
    written o t (inl (e, same)) = subst P (sym same) p
    written o t (inr c) = step o t c
