-- ===== src/Inventory/Stock/Sums.antt =====
-- `get_current_stock` of services/api/inventory_service.py as a difference of two plain sums.
use ang553_latam_aie_01_fina.Common.{
  ℕ, ◌+◌, ◌≤◌, pos, sub_ℕ, ◌+ℤ◌, ◌-ℤ◌, String, Bool, ◌≡◌, refl, List, [], ◌∷◌, ◌++◌, map, arith,
  or_else, select, sum_where, sum_where-append, int_laws, if◌then◌else◌,
}
use ang553_latam_aie_01_fina.Inventory.Types.{StockEntry, StockExit, Db}
use ang553_latam_aie_01_fina.Inventory.Stock.{sql_sum, entry_at, exit_at, get_current_stock}

-- The units that came in and went out for a SKU at a warehouse.
abbrev pub entered : ℕ → String → Db → ℕ
entered k wh d = sum_where (entry_at k wh) (λ e. e.quantity) d.entries

abbrev pub exited : ℕ → String → Db → ℕ
exited k wh d = sum_where (exit_at k wh) (λ x. x.quantity) d.exits

pub sql_sum-select :
    {A : Type 0} (p : A → Bool) (f : A → ℕ) (xs : List A)
    → or_else (sql_sum (map f (select p xs))) 0 ≡ sum_where p f xs
unfolding sql_sum select sum_where
sql_sum-select p f [] = refl
sql_sum-select p f (x ∷ xs) = ground (arith, sql_sum-select p f xs)

pub stock-eq-sub :
    (d : Db) (k : ℕ) (wh : String)
    → get_current_stock d k wh ≡ sub_ℕ (entered k wh d) (exited k wh d)
unfolding get_current_stock
stock-eq-sub d k wh = rw (
  sql_sum-select (entry_at k wh) (λ e. e.quantity) d.entries,
  sql_sum-select (exit_at k wh) (λ x. x.quantity) d.exits,
)

-- No stock is negative: nothing left that had not come in.
pub record IsSound (d : Db) : Type 0 where
  pub at : (k : ℕ) (wh : String) → exited k wh d ≤ entered k wh d

pub entered-add :
    (k : ℕ) (wh : String) (rows : List StockEntry) (e : StockEntry)
    → sum_where (entry_at k wh) (λ r. r.quantity) (rows ++ e ∷ [])
      ≡ sum_where (entry_at k wh) (λ r. r.quantity) rows
        + (if entry_at k wh e then e.quantity else 0)
unfolding sum_where
entered-add k wh rows e =
    omega (arith, sum_where-append (entry_at k wh) (λ r. r.quantity) rows (e ∷ []))

pub exited-add :
    (k : ℕ) (wh : String) (rows : List StockExit) (x : StockExit)
    → sum_where (exit_at k wh) (λ r. r.quantity) (rows ++ x ∷ [])
      ≡ sum_where (exit_at k wh) (λ r. r.quantity) rows + (if exit_at k wh x then x.quantity else 0)
unfolding sum_where
exited-add k wh rows x =
    omega (arith, sum_where-append (exit_at k wh) (λ r. r.quantity) rows (x ∷ []))

pub sub-add : (a b q : ℕ) → sub_ℕ (a + q) b ≡ sub_ℕ a b +ℤ pos q
sub-add a b q = omega int_laws

pub sub-sub : (a b q : ℕ) → sub_ℕ a (b + q) ≡ sub_ℕ a b -ℤ pos q
sub-sub a b q = omega int_laws
