-- ===== src/Common/Lists.antt =====
-- Lists: lengths in native numbers, Boolean filters and searches, sums of a column.
use Prim.Native.Nat.{ℕ, suc, ◌+◌}
use mathlib.Core.Path.{◌≡◌, refl}
use mathlib.Core.Bool.{Bool, true, false, ◌&&◌, ◌||◌}
use mathlib.Core.List.{List, [], ◌∷◌, ◌++◌, map}
use mathlib.Core.Option.{Option, none, some}
use native.Mathlib.Omega.{arith}
use ang553_latam_aie_01_fina.Common.Tests.{if◌then◌else◌, ◌==◌, leb}

module _ {ℓ} {A : Type ℓ} where
  abbrev pub length : List A → ℕ
  length [] = 0
  length (x ∷ xs) = suc (length xs)

  -- The rows that pass a test, in order (SQL `WHERE`).
  unfoldable pub select : (A → Bool) → List A → List A
  select p [] = []
  select p (x ∷ xs) = let rest = select p xs in if p x then x ∷ rest else rest

  -- The first row that passes a test (`.first()`).
  unfoldable pub first : (A → Bool) → List A → Option A
  first p [] = none
  first p (x ∷ xs) = let rest = first p xs in if p x then some x else rest

  unfoldable pub any_of : (A → Bool) → List A → Bool
  any_of p [] = false
  any_of p (x ∷ xs) = p x || any_of p xs

  unfoldable pub all_of : (A → Bool) → List A → Bool
  all_of p [] = true
  all_of p (x ∷ xs) = p x && all_of p xs

  -- The sum of a column over the rows that pass a test.
  unfoldable pub sum_where : (A → Bool) → (A → ℕ) → List A → ℕ
  sum_where p f [] = 0
  sum_where p f (x ∷ xs) = (if p x then f x else 0) + sum_where p f xs

  -- A predicate that holds of every element; it computes to a tuple.
  abbrev pub All {κ} : (A → Type κ) → List A → Type κ
  All P [] = Unit
  All P (x ∷ xs) = P x × All P xs

  pub All-map : {P Q : A → Type ℓ} → ((a : A) → P a → Q a) → (xs : List A) → All P xs → All Q xs
  All-map f [] h = tt
  All-map f (x ∷ xs) (h, hs) = (f x h, All-map f xs hs)

  pub All-zip :
      {P Q R : A → Type ℓ}
      → ((a : A) → P a → Q a → R a)
      → (xs : List A) → All P xs
      → All Q xs
      → All R xs
  All-zip f [] h k = tt
  All-zip f (x ∷ xs) (h, hs) (k, ks) = (f x h k, All-zip f xs hs ks)

  pub length-append : (xs ys : List A) → length (xs ++ ys) ≡ length xs + length ys
  length-append [] ys = omega arith
  length-append (x ∷ xs) ys = omega (arith, length-append xs ys)

  pub sum_where-append :
      (p : A → Bool) (f : A → ℕ) (xs ys : List A)
      → sum_where p f (xs ++ ys) ≡ sum_where p f xs + sum_where p f ys
  unfolding sum_where
  sum_where-append p f [] ys = omega arith
  sum_where-append p f (x ∷ xs) ys = omega (arith, sum_where-append p f xs ys)

  pub first-append_some :
      (p : A → Bool) (xs ys : List A) (a : A) → first p xs ≡ some a → first p (xs ++ ys) ≡ some a
  unfolding first
  first-append_some p [] ys a h = ground arith
  first-append_some p (x ∷ xs) ys a h = ground (arith, first-append_some p xs ys a)

  pub first-append_none :
      (p : A → Bool) (xs ys : List A) → first p xs ≡ none → first p (xs ++ ys) ≡ first p ys
  unfolding first
  first-append_none p [] ys h = refl
  first-append_none p (x ∷ xs) ys h = ground (arith, first-append_none p xs ys)

  -- What a search returns passes its test.
  pub first_passes : (p : A → Bool) (xs : List A) (a : A) → first p xs ≡ some a → p a ≡ true
  unfolding first
  first_passes p [] a h = ground arith
  first_passes p (x ∷ xs) a h = ground (arith, first_passes p xs a)

  -- A test that no row passes finds none.
  pub absent-first : (p : A → Bool) (xs : List A) → any_of p xs ≡ false → first p xs ≡ none
  unfolding first any_of
  absent-first p [] h = refl
  absent-first p (x ∷ xs) h = ground (arith, h, absent-first p xs)

-- The row under a key, changed where it meets a condition.
unfoldable pub change_where : {A : Type 0} → (A → Bool) → (A → A) → List A → List A
change_where p f [] = []
change_where p f (x ∷ xs) = (if p x then f x else x) ∷ change_where p f xs

-- What a search finds after the rows under a key were changed, the key kept.
module _ {A : Type 0} (key : A → ℕ) (set : A → A) (keeps : (a : A) → key (set a) ≡ key a) where
  pub first-change_where :
      (i j : ℕ) (rows : List A)
      → first (λ a. key a == j) (change_where (λ a. key a == i) set rows)
        ≡ (elim (first (λ a. key a == j) rows) [
          | none ↦ none
          | some a ↦ some (if j == i then set a else a)
        ])
  unfolding first change_where
  first-change_where i j [] = refl
  first-change_where i j (a ∷ rows) = ground (arith, keeps a, first-change_where i j rows)

  -- What a search by the key finds after every row was changed.
  pub first-map :
      (j : ℕ) (rows : List A)
      → first (λ a. key a == j) (map set rows)
        ≡ (elim (first (λ a. key a == j) rows) [ none ↦ none | some a ↦ some (set a) ])
  unfolding first
  first-map j [] = refl
  first-map j (a ∷ rows) = ground (arith, keeps a, first-map j rows)

-- A dictionary with number keys, as an association list.
abbrev pub Dict {ℓ} : Type ℓ → Type ℓ
Dict V = List (ℕ × V)

module _ {ℓ} {V : Type ℓ} where
  unfoldable pub get : ℕ → Dict V → Option V
  get k [] = none
  get k ((j, v) ∷ d) = let rest = get k d in if k == j then some v else rest

  -- `d[k] = v`
  unfoldable pub put : ℕ → V → Dict V → Dict V
  put k v [] = (k, v) ∷ []
  put k v ((j, w) ∷ d) = let rest = put k v d in if k == j then (k, v) ∷ d else (j, w) ∷ rest

  pub get-put :
      (k j : ℕ) (v : V) (d : Dict V) → get j (put k v d) ≡ (if j == k then some v else get j d)
  unfolding get put
  get-put k j v [] = refl
  get-put k j v ((i, w) ∷ d) = ground (arith, get-put k j v d)

-- `sorted(xs, key=f)`: a stable insertion sort.
module _ {ℓ} {A : Type ℓ} (f : A → ℕ) where
  unfoldable pub insert_by : A → List A → List A
  insert_by a [] = a ∷ []
  insert_by a (x ∷ xs) =
      let rest = insert_by a xs in if leb (f a) (f x) then a ∷ x ∷ xs else x ∷ rest

  unfoldable pub sort_by : List A → List A
  unfolding insert_by
  sort_by [] = []
  sort_by (x ∷ xs) = insert_by x (sort_by xs)

module _ {ℓ} {A : Type ℓ} (f : A → ℕ) (p : A → Bool) (g : A → ℕ) where
  sum_where-insert_by :
      (a : A) (xs : List A) → sum_where p g (insert_by f a xs) ≡ sum_where p g (a ∷ xs)
  unfolding sum_where insert_by
  sum_where-insert_by a [] = refl
  sum_where-insert_by a (x ∷ xs) = ground (arith, sum_where-insert_by a xs)

  -- Sorting changes no sum.
  pub sum_where-sort_by : (xs : List A) → sum_where p g (sort_by f xs) ≡ sum_where p g xs
  unfolding sum_where sort_by
  sum_where-sort_by [] = refl
  sum_where-sort_by (x ∷ xs) =
      ground (arith, sum_where-insert_by x (sort_by f xs), sum_where-sort_by xs)
