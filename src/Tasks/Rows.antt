-- ===== src/Tasks/Rows.antt =====
-- Updates of the rows of services/task_queue: what a statement does to every recorded task.
use mathlib.Core.Path.{subst}
use ang553_latam_aie_01_fina.Common.{
  ℕ, Bool, true, false, ◌≡◌, inl, inr, refl, Option, none, some, List, ◌++◌, map, arith, ◌==◌,
  ==_iff, ==_refl, change_where, first-change_where, first-append_some, first-map, Bool-cases,
}
use ang553_latam_aie_01_fina.Tasks.Types.{
  TaskRow, Reply, done, refused, checks, task_with, find_task, update_task, change_task, stored_row,
  answered,
}

-- The rows were left alone, or the row found met the condition and the CHECKs and was changed.
pub data Updated (id : ℕ) (cond : TaskRow → Bool) (set : TaskRow → TaskRow) (s : List TaskRow)
    (o : Reply (Option TaskRow)) (t : List TaskRow) : Type 0 where
  missed : find_task id s ≡ none → o ≡ done none → t ≡ s → Updated id cond set s o t
  unmet :
      (r : TaskRow)
      → find_task id s ≡ some r
      → cond r ≡ false
      → o ≡ done none
      → t ≡ s
      → Updated id cond set s o t
  invalid :
      (r : TaskRow)
      → find_task id s ≡ some r
      → cond r ≡ true
      → checks (set r) ≡ false
      → o ≡ refused
      → t ≡ s
      → Updated id cond set s o t
  changed :
      (r : TaskRow)
      → find_task id s ≡ some r
      → cond r ≡ true
      → checks (set r) ≡ true
      → o ≡ done (some (set r))
      → t ≡ change_where (task_with id) set s
      → Updated id cond set s o t

pub update_task-Updated :
    (id : ℕ) (cond : TaskRow → Bool) (set : TaskRow → TaskRow) (s : List TaskRow)
    → Updated id cond set s (update_task id cond set s).0 (update_task id cond set s).1
unfolding update_task change_task stored_row
update_task-Updated id cond set s = go (find_task id s) refl
  where
    valid :
        (r : TaskRow) (b : Bool)
        → checks (set r) ≡ b
        → find_task id s ≡ some r
        → cond r ≡ true
        → Updated id cond set s (stored_row id set (set r) s).0 (stored_row id set (set r) s).1
    valid r true k p h = changed r p h k (rw k refl) (rw k refl)
    valid r false k p h = invalid r p h k (rw k refl) (rw k refl)

    met :
        (r : TaskRow) (b : Bool)
        → cond r ≡ b
        → find_task id s ≡ some r
        → Updated id cond set s
            (change_task id cond set (some r) s).0
            (change_task id cond set (some r) s).1
    met r true h p = rw h (valid r (checks (set r)) refl p h)
    met r false h p = unmet r p h (rw h refl) (rw h refl)

    go :
        (o : Option TaskRow)
        → find_task id s ≡ o
        → Updated id cond set s (change_task id cond set o s).0 (change_task id cond set o s).1
    go none p = missed p refl refl
    go (some r) p = met r (cond r) refl p

-- Every recorded task is still recorded, and its row is related to the old one.
pub record Evolves (P : TaskRow → TaskRow → Type 0) (s t : List TaskRow) : Type 0 where
  pub at :
      (id : ℕ) (r : TaskRow)
      → find_task id s ≡ some r
      → (r' : TaskRow) × (find_task id t ≡ some r') × P r r'

module _ (P : TaskRow → TaskRow → Type 0) where
  pub Evolves-refl : ((r : TaskRow) → P r r) → (s : List TaskRow) → Evolves P s s
  Evolves-refl re s = record { at = λ id r h. (r, h, re r) }

  pub Evolves-trans :
      ((a b c : TaskRow) → P a b → P b c → P a c)
      → (s t u : List TaskRow) → Evolves P s t
      → Evolves P t u
      → Evolves P s u
  Evolves-trans tr s t u f g = record {
    at = λ id r h.
        let (r', h', p) = f.at id r h in
        let (r'', h'', q) = g.at id r' h' in (r'', h'', tr r r' r'' p q);
  }

  pub Evolves-append : ((r : TaskRow) → P r r) → (s extra : List TaskRow) → Evolves P s (s ++ extra)
  Evolves-append re s extra = record {
    at = λ id r h. (r, first-append_some (task_with id) s extra r h, re r);
  }

  -- An update of the row under a key.
  pub Evolves-change_where :
      (id : ℕ) (set : TaskRow → TaskRow) (s : List TaskRow)
      → ((r : TaskRow) → P r r)
      → ((r : TaskRow) → (set r).task_id ≡ r.task_id)
      → ((r : TaskRow) → find_task id s ≡ some r → P r (set r))
      → Evolves P s (change_where (task_with id) set s)
  Evolves-change_where id set s re keeps f = record {
    at = λ j r h.
        let later = first-change_where (λ (a : TaskRow). a.task_id) set keeps id j s in
        elim (Bool-cases (j == id)) [
          | inl here ↦ (
            set r,
            rw (later, h, here) refl,
            f r (subst (λ x. find_task x s ≡ some r) ((==_iff j id).0 here) h),
          )
          | inr there ↦ (r, rw (later, h, there) refl, re r)
        ];
  }

  -- A statement on one task.
  pub Evolves-update_task :
      (id : ℕ) (cond : TaskRow → Bool) (set : TaskRow → TaskRow) (s : List TaskRow)
      → ((r : TaskRow) → P r r)
      → ((r : TaskRow) → (set r).task_id ≡ r.task_id)
      → ((r : TaskRow) → find_task id s ≡ some r → cond r ≡ true → P r (set r))
      → Evolves P s (update_task id cond set s).1
  Evolves-update_task id cond set s re keeps f = go (update_task-Updated id cond set s)
    where
      go :
          {o : Reply (Option TaskRow)} {t : List TaskRow}
          → Updated id cond set s o t
          → Evolves P s t
      go (missed p a e) = rw e (Evolves-refl re s)
      go (unmet r p c a e) = rw e (Evolves-refl re s)
      go (invalid r p c k a e) = rw e (Evolves-refl re s)
      go (changed r p c k a e) = rw e (
          Evolves-change_where id set s re keeps
            (λ q h. f q h (subst (λ x. cond x ≡ true) (ground (arith, p, h)) c)))

  -- An update of every row.
  pub Evolves-map :
      (f : TaskRow → TaskRow) (s : List TaskRow)
      → ((r : TaskRow) → (f r).task_id ≡ r.task_id)
      → ((r : TaskRow) → P r (f r))
      → Evolves P s (map f s)
  Evolves-map f s keeps h = record {
    at = λ id r p. (f r, rw (first-map (λ (a : TaskRow). a.task_id) f keeps id s, p) refl, h r);
  }

-- The reply tells whether the row was changed.
abbrev pub is_answered : Reply (Option TaskRow) → Bool
is_answered (done (some r)) = true
is_answered _ = false

-- A statement that answered found the row, its condition met, and left the changed row.
pub update_task-answered :
    (id : ℕ) (cond : TaskRow → Bool) (set : TaskRow → TaskRow) (s : List TaskRow) (r : TaskRow)
    → ((a : TaskRow) → (set a).task_id ≡ a.task_id)
    → find_task id s ≡ some r
    → is_answered (update_task id cond set s).0 ≡ true
    → (cond r ≡ true) × (find_task id (update_task id cond set s).1 ≡ some (set r))
update_task-answered id cond set s r keeps found h = go (update_task-Updated id cond set s) h
  where
    go :
        {o : Reply (Option TaskRow)} {t : List TaskRow}
        → Updated id cond set s o t
        → is_answered o ≡ true
        → (cond r ≡ true) × (find_task id t ≡ some (set r))
    go (missed p a e) k = absurd (ground (arith, subst (λ x. is_answered x ≡ true) a k))
    go (unmet q p c a e) k = absurd (ground (arith, subst (λ x. is_answered x ≡ true) a k))
    go (invalid q p c v a e) k = absurd (ground (arith, subst (λ x. is_answered x ≡ true) a k))
    go (changed q p c v a e) k = (
      subst (λ x. cond x ≡ true) (ground (arith, p, found)) c,
      rw (e, first-change_where (λ (x : TaskRow). x.task_id) set keeps id id s, found, ==_refl id)
          refl,
    )

pub answered_rows : (x : Reply (Option TaskRow) × List TaskRow) → (answered x).1 ≡ x.1
answered_rows (done o, rows) = refl
answered_rows (refused, rows) = refl

-- A Boolean reply.
abbrev pub is_yes : Reply Bool → Bool
is_yes (done b) = b
is_yes refused = false

pub is_yes-answered :
    (x : Reply (Option TaskRow) × List TaskRow) → is_yes (answered x).0 ≡ is_answered x.0
is_yes-answered (done none, rows) = refl
is_yes-answered (done (some r), rows) = refl
is_yes-answered (refused, rows) = refl
