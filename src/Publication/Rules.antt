-- ===== src/Publication/Rules.antt =====
-- Calls of pipelines/run_store.py that only read, and keyed updates of its rows.
use mathlib.Core.Path.{subst}
use ang553_latam_aie_01_fina.Common.{
  ℕ, ℤ, Bool, true, false, Option, none, some, ◌≡◌, refl, sym, ap, ◌∙◌, arith,
}
pub use ang553_latam_aie_01_fina.Common.{first-change_where}
use ang553_latam_aie_01_fina.Publication.Types.{Store, Connection}
use ang553_latam_aie_01_fina.Publication.Call.{
  Code, Result, ok, err, Call, ◌>>=◌, continue, raise_if, or_raise, lift, pure, require_transaction,
  execute, week, count, read_run, read_control, Ensures, Ensures-bind,
}

-- The call leaves the tables alone, however it ends.
pub record Reads {A : Type 0} (m : Call A) : Type 0 where
  pub at : (s : Store) → (m s).1 ≡ s

module _ {A : Type 0} where
  pub Reads-lift : (r : Result A) → Reads (lift r)
  Reads-lift r = record { at = λ s. refl }

  pub Reads-pure : (a : A) → Reads (pure a)
  Reads-pure a = record { at = λ s. refl }

  pub Reads-or_raise : (o : Option A) (c : Code) → Reads (or_raise o c)
  Reads-or_raise none c = record { at = λ s. refl }
  Reads-or_raise (some a) c = record { at = λ s. refl }

pub Reads-raise_if : (b : Bool) (c : Code) → Reads (raise_if b c)
Reads-raise_if true c = record { at = λ s. refl }
Reads-raise_if false c = record { at = λ s. refl }

pub Reads-require_transaction : (c : Connection) → Reads (require_transaction c)
unfolding require_transaction
Reads-require_transaction c = record { at = λ s. ground arith }

pub Reads-execute : (c : Connection) (n : ℕ) → Reads (execute c n)
unfolding execute
Reads-execute c n = record { at = λ s. ground arith }

pub Reads-week : (day : ℕ) → Reads (week day)
unfolding week
Reads-week day = record { at = λ s. ground arith }

pub Reads-count : (n : Option ℤ) → Reads (count n)
unfolding count
Reads-count none = record { at = λ s. refl }
Reads-count (some n) = record { at = λ s. ground arith }

pub Reads-read_run : (id : ℕ) → Reads (read_run id)
unfolding read_run
Reads-read_run id = record { at = λ s. refl }

pub Reads-read_control : (day : ℕ) → Reads (read_control day)
unfolding read_control
Reads-read_control day = record { at = λ s. refl }

module _ {A B : Type 0} where
  pub Reads-bind :
      (m : Call A) (f : A → Call B) → Reads m → ((a : A) → Reads (f a)) → Reads (m >>= f)
  unfolding ◌>>=◌
  Reads-bind m f rm rf = record { at = λ s. go s (m s) (rm.at s) }
    where
      go : (s : Store) (x : Result A × Store) → x.1 ≡ s → (continue x.0 f x.1).1 ≡ s
      go s (ok a, t) p = (rf a).at t ∙ p
      go s (err c, t) p = p

  -- A reading step: its rest starts from the same tables.
  pub Ensures-read :
      {Q : Result B → Store → Type 0} (m : Call A) (f : A → Call B) (s : Store)
      → Reads m
      → ((a : A) → m s ≡ (ok a, s) → Ensures Q (f a s))
      → ((c : Code) → Q (err c) s)
      → Ensures Q ((m >>= f) s)
  Ensures-read {Q} m f s rm good bad =
      Ensures-bind m f s
        (λ a t h.
          let e = fst_same a t h in
          subst (λ u. Ensures Q (f a u)) (sym e) (good a (subst (λ u. m s ≡ (ok a, u)) e h)))
        (λ c t h. subst (Q (err c)) (sym (snd_same c t h)) (bad c))
    where
      fst_same : (a : A) (t : Store) → m s ≡ (ok a, t) → t ≡ s
      fst_same a t h = sym (ap (λ (x : Result A × Store). x.1) h) ∙ rm.at s

      snd_same : (c : Code) (t : Store) → m s ≡ (err c, t) → t ≡ s
      snd_same c t h = sym (ap (λ (x : Result A × Store). x.1) h) ∙ rm.at s

pub ruleset read_rules = (
  Reads-lift, Reads-pure, Reads-or_raise, Reads-raise_if, Reads-require_transaction, Reads-execute,
  Reads-week, Reads-count, Reads-read_run, Reads-read_control, Reads-bind,
)

-- A writing step followed by a reading rest: the tables are those that the step left.
pub Ensures-write :
    {A B : Type 0} {P : Store → Type 0} (m : Call A) (f : A → Call B) (s : Store)
    → P (m s).1
    → ((a : A) → Reads (f a))
    → Ensures (λ x t. P t) ((m >>= f) s)
Ensures-write {A} {B} {P} m f s p rf =
    Ensures-bind m f s
      (λ a t h. record { at = subst P (sym ((rf a).at t)) (subst P (left (ok a) t h) p) })
      (λ c t h. subst P (left (err c) t h) p)
  where
    left : (r : Result A) (t : Store) → m s ≡ (r, t) → (m s).1 ≡ t
    left r t h = ap (λ (x : Result A × Store). x.1) h

-- A view of the tables that a call leaves alone, however it ends.
pub record Frames {V A : Type 0} (view : Store → V) (m : Call A) : Type 0 where
  pub at : (s : Store) → view (m s).1 ≡ view s

module _ {V A : Type 0} (view : Store → V) where
  pub Frames-Reads : (m : Call A) → Reads m → Frames view m
  Frames-Reads m rm = record { at = λ s. ap view (rm.at s) }

module _ {V A B : Type 0} (view : Store → V) where
  pub Frames-bind :
      (m : Call A) (f : A → Call B)
      → Frames view m
      → ((a : A) → Frames view (f a))
      → Frames view (m >>= f)
  unfolding ◌>>=◌
  Frames-bind m f fm ff = record { at = λ s. go s (m s) (fm.at s) }
    where
      go :
          (s : Store) (x : Result A × Store)
          → view x.1 ≡ view s
          → view (continue x.0 f x.1).1 ≡ view s
      go s (ok a, t) p = (ff a).at t ∙ p
      go s (err c, t) p = p
