-- ===== src/Jobs/Exclusive.antt =====
-- The primary key and the unique indexes of infra/sql/job_runs.sql, as a predicate on the table.
use mathlib.Core.Path.{subst}
use ang553_latam_aie_01_fina.Common.{
  ℕ, String, Bool, true, false, not, ◌&&◌, ◌≡◌, ◌⊎◌, inl, inr, refl, sym, ◌∙◌, Option, none, some,
  List, [], ◌∷◌, arith, str_eq, str_eq_iff, ◌==◌, any_of, first, first_passes, change_where,
  Bool-cases, All,
}
pub use ang553_latam_aie_01_fina.Common.{All-map, All-zip}
use ang553_latam_aie_01_fina.Jobs.Types.{
  JobStatus, pending, processing, completed, failed, JobRun, Table, Constraint, Step, done,
  violated, broken, run_with, is_processing, is_claim, same_processing, same_claim, conflict,
  store_row, update_found, update_row,
}

-- Two rows that no unique key joins.
unfoldable pub apart : JobRun → JobRun → Bool
apart a b = not (a.id == b.id) && not (same_processing a b) && not (same_claim a b)

-- No two rows of the table share an id, a processing job, or a claimed target.
abbrev pub Exclusive : Table → Type 0
Exclusive [] = Unit
Exclusive (a ∷ rows) = All (λ b. apart a b ≡ true) rows × Exclusive rows

module _ {A : Type 0} where
  pub All-any_of : (p : A → Bool) (xs : List A) → any_of p xs ≡ false → All (λ a. p a ≡ false) xs
  unfolding any_of
  All-any_of p [] h = tt
  All-any_of p (x ∷ xs) h = (ground (arith, h), All-any_of p xs (ground (arith, h)))

  pub All-first :
      (P : A → Type 0) (p : A → Bool) (xs : List A) (a : A) → first p xs ≡ some a → All P xs → P a
  unfolding first
  All-first P p [] a h k = absurd (ground (arith, h))
  All-first P p (x ∷ xs) a h (k, ks) = elim (Bool-cases (p x)) [
    | inl hit ↦ subst P (ground (arith, h, hit)) k
    | inr miss ↦ All-first P p xs a (ground (arith, h, miss)) ks
  ]

same_truth : (x y : Bool) → (x ≡ true → y ≡ true) → (y ≡ true → x ≡ true) → x ≡ y
same_truth true y f g = sym (f refl)
same_truth false true f g = g refl
same_truth false false f g = refl

str_eq_sym : (a b : String) → str_eq a b ≡ str_eq b a
str_eq_sym a b =
    same_truth _ _ (λ h. (str_eq_iff b a).1 (sym ((str_eq_iff a b).0 h)))
      (λ h. (str_eq_iff a b).1 (sym ((str_eq_iff b a).0 h)))

pub ==_sym : (a b : ℕ) → (a == b) ≡ (b == a)
==_sym a b = ground arith

pub apart_sym : (a b : JobRun) → apart a b ≡ apart b a
unfolding apart same_processing same_claim
apart_sym a b =
    rw (str_eq_sym a.job_name b.job_name, ==_sym a.id b.id, ==_sym a.target_date b.target_date)
      ground arith

free-apart :
    (new b : JobRun)
    → (new.id == b.id) ≡ false
    → (not (b.id == new.id) && same_processing new b) ≡ false
    → (not (b.id == new.id) && same_claim new b) ≡ false
    → apart new b ≡ true
unfolding apart
free-apart new b d p c = ground (arith, ==_sym b.id new.id, d, p, c)

-- A new version of a row that the indexes accept is apart from every row with another id.
pub conflict-apart :
    (new : JobRun) (rows : Table)
    → conflict new rows ≡ none
    → All (λ b. (new.id == b.id) ≡ false → apart new b ≡ true) rows
unfolding conflict
conflict-apart new rows h =
    All-zip (λ b p c d. free-apart new b d p c) rows (All-any_of _ rows (ground (arith, h)))
      (All-any_of _ rows (ground (arith, h)))

-- A table whose row under an id was changed.
module _ (id : ℕ) (set : JobRun → JobRun) where
  change_where-none :
      (rows : Table)
      → All (λ b. run_with id b ≡ false) rows
      → change_where (run_with id) set rows ≡ rows
  unfolding change_where
  change_where-none [] h = refl
  change_where-none (b ∷ rows) (h, hs) = rw (h, change_where-none rows hs) refl

  -- The other rows of an exclusive table have other ids than its first.
  others :
      (a : JobRun) (rows : Table)
      → (a.id == id) ≡ true
      → All (λ b. apart a b ≡ true) rows
      → All (λ b. run_with id b ≡ false) rows
  unfolding apart
  others a rows here h = All-map (λ b k. ground (arith, here, k)) rows h

  pub All-change_where :
      (P : JobRun → Type 0) (r : JobRun) (rows : Table)
      → Exclusive rows
      → All P rows
      → first (run_with id) rows ≡ some r
      → P (set r)
      → All P (change_where (run_with id) set rows)
  unfolding first change_where
  All-change_where P r [] ex h found p = tt
  All-change_where P r (a ∷ rows) (ap_a, ex) (h, hs) found p = elim (Bool-cases (a.id == id)) [
    | inl here ↦ rw here (
      subst (λ x. P (set x)) (ground (arith, found, here)) p,
      subst (All P) (sym (change_where-none rows (others a rows here ap_a))) hs,
    )
    | inr there ↦ rw there (h, All-change_where P r rows ex hs (ground (arith, found, there)) p)
  ]

  change_where-Exclusive :
      (r : JobRun) (rows : Table)
      → ((a : JobRun) → (set a).id ≡ a.id)
      → Exclusive rows
      → first (run_with id) rows ≡ some r
      → All (λ b. ((set r).id == b.id) ≡ false → apart (set r) b ≡ true) rows
      → Exclusive (change_where (run_with id) set rows)
  unfolding first change_where
  change_where-Exclusive r [] keeps ex found free = tt
  change_where-Exclusive r (a ∷ rows) keeps (ap_a, ex) found (f, fs) =
      elim (Bool-cases (a.id == id)) [
        | inl here ↦
            let same : r ≡ a = ground (arith, found, here) in
            rw here (
              subst (λ z. All (λ b. apart (set a) b ≡ true) z × Exclusive z)
                (sym (change_where-none rows (others a rows here ap_a)))
                (
                  All-zip
                      (λ b g miss.
                        subst (λ x. apart (set x) b ≡ true) same
                          (g (ground (arith, keeps r, same, here, miss, ==_sym b.id id))))
                      rows fs (others a rows here ap_a),
                  ex,
                ))
        | inr there ↦
            let later : first (run_with id) rows ≡ some r = ground (arith, found, there) in
            rw there (
              All-change_where (λ b. apart a b ≡ true) r rows ex ap_a later
                  (apart_sym a (set r)
                    ∙ f (ground (arith, keeps r, first_passes (run_with id) rows r later, there))),
              change_where-Exclusive r rows keeps ex later fs,
            )
      ]

-- What a step leaves, if it ends without an error.
abbrev pub Leaves : {A : Type 0} → (A → Table → Type 0) → Step (A × Table) → Type 0
Leaves P (done (a, t)) = P a t
Leaves P (violated c) = Unit
Leaves P broken = Unit

-- An UPDATE that changed the row it found.
pub record Changed (id : ℕ) (cond : JobRun → Bool) (set : JobRun → JobRun) (rows : Table)
    (o : Option JobRun) (t : Table) : Type 0 where
  pub old : JobRun
  pub found : first (run_with id) rows ≡ some old
  pub hit : cond old ≡ true
  pub accepted : conflict (set old) rows ≡ none
  pub row : o ≡ some (set old)
  pub left : t ≡ change_where (run_with id) set rows

pub update_row-cases :
    (id : ℕ) (cond : JobRun → Bool) (set : JobRun → JobRun) (rows : Table)
    → Leaves
        (λ o t. ((o ≡ none) × (t ≡ rows)) ⊎ Changed id cond set rows o t)
        (update_row id cond set rows)
unfolding update_row update_found store_row
update_row-cases id cond set rows = go (first (run_with id) rows) refl
  where
    stored :
        (r : JobRun) (c : Option Constraint)
        → first (run_with id) rows ≡ some r
        → cond r ≡ true
        → conflict (set r) rows ≡ c
        → Leaves
            (λ o t. ((o ≡ none) × (t ≡ rows)) ⊎ Changed id cond set rows o t)
            (store_row id set (set r) c rows)
    stored r none found hit free =
        inr (record { old = r; found = found; hit = hit; accepted = free; row = refl; left = refl })
    stored r (some c) found hit refused = tt

    go :
        (found : Option JobRun)
        → first (run_with id) rows ≡ found
        → Leaves
            (λ o t. ((o ≡ none) × (t ≡ rows)) ⊎ Changed id cond set rows o t)
            (update_found id cond set found rows)
    go none p = inl (refl, refl)
    go (some r) p = elim (Bool-cases (cond r)) [
      | inl hit ↦ rw hit (stored r (conflict (set r) rows) p hit refl)
      | inr miss ↦ rw miss (inl (refl, refl))
    ]

pub Changed-Exclusive :
    (id : ℕ) (cond : JobRun → Bool) (set : JobRun → JobRun) (rows : Table) (o : Option JobRun)
    (t : Table)
    → ((a : JobRun) → (set a).id ≡ a.id)
    → Exclusive rows
    → Changed id cond set rows o t
    → Exclusive t
Changed-Exclusive id cond set rows o t keeps ex c = subst Exclusive (sym c.left) (
    change_where-Exclusive id set c.old rows keeps ex c.found
      (conflict-apart (set c.old) rows c.accepted))

processing_claims : (st : JobStatus) → is_processing st ≡ true → is_claim st ≡ true
processing_claims pending h = h
processing_claims processing h = refl
processing_claims completed h = refl
processing_claims failed h = h

fresh-apart :
    (new : JobRun)
    → is_claim new.status ≡ false
    → (b : JobRun) → run_with new.id b ≡ false
    → apart new b ≡ true
unfolding apart same_processing same_claim
fresh-apart new no_claim b miss =
    ground (arith, ==_sym b.id new.id, miss, no_claim, processing_claims new.status)

-- An INSERT of a pending row under a new id.
pub fresh-Exclusive :
    (new : JobRun) (rows : Table)
    → is_claim new.status ≡ false
    → any_of (run_with new.id) rows ≡ false
    → Exclusive rows
    → Exclusive (new ∷ rows)
fresh-Exclusive new rows no_claim fresh ex =
    (All-map (fresh-apart new no_claim) rows (All-any_of (run_with new.id) rows fresh), ex)
