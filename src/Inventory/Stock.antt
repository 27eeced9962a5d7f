-- ===== src/Inventory/Stock.antt =====
-- `get_current_stock` and `get_current_stocks` of services/api/inventory_service.py, with the SKU
-- lookups.
pub mod Sums
pub mod Bulk
use ang553_latam_aie_01_fina.Common.{
  ℕ, ◌+◌, ℤ, sub_ℕ, String, Bool, ◌&&◌, Option, none, some, List, [], ◌∷◌, map, str_eq, ◌==◌, ◌≡◌,
  arith, get, or_else, select, first, any_of, if◌then◌else◌,
}
use ang553_latam_aie_01_fina.Inventory.Types.{Sku, StockEntry, StockExit, Db}

-- SQL `SUM`: NULL when no row matches.
unfoldable pub sql_sum : List ℕ → Option ℕ
sql_sum [] = none
sql_sum (q ∷ qs) = some (q + or_else (sql_sum qs) 0)

abbrev pub entry_at : ℕ → String → StockEntry → Bool
entry_at k wh e = e.sku_id == k && str_eq e.warehouse wh

abbrev pub exit_at : ℕ → String → StockExit → Bool
exit_at k wh x = x.sku_id == k && str_eq x.warehouse wh

unfoldable pub get_current_stock : Db → ℕ → String → ℤ
unfolding sql_sum
get_current_stock d sku_id warehouse =
    let entry_sum =
      sql_sum (map (λ e. e.quantity) (select (entry_at sku_id warehouse) d.entries)) in
    let exit_sum = sql_sum (map (λ x. x.quantity) (select (exit_at sku_id warehouse) d.exits)) in
    sub_ℕ (or_else entry_sum 0) (or_else exit_sum 0)

-- A (sku_id, warehouse) pair, the key of the bulk query's dictionaries.
pub record StockKey : Type 0 where
  pub sku_id : ℕ
  pub warehouse : String

abbrev pub key_eq : StockKey → StockKey → Bool
key_eq a b = a.sku_id == b.sku_id && str_eq a.warehouse b.warehouse

module _ {V : Type 0} where
  unfoldable pub get_key : StockKey → List (StockKey × V) → Option V
  get_key k [] = none
  get_key k ((j, v) ∷ m) = let rest = get_key k m in if key_eq j k then some v else rest

-- `GROUP BY sku_id, warehouse` with `SUM(quantity)`: one row for each key that occurs.
unfoldable pub add_to_group : StockKey → ℕ → List (StockKey × ℕ) → List (StockKey × ℕ)
add_to_group k q [] = (k, q) ∷ []
add_to_group k q ((j, s) ∷ m) =
    let rest = add_to_group k q m in if key_eq j k then (j, q + s) ∷ m else (j, s) ∷ rest

unfoldable pub group_sums : List (StockKey × ℕ) → List (StockKey × ℕ)
unfolding add_to_group
group_sums [] = []
group_sums ((k, q) ∷ rows) = add_to_group k q (group_sums rows)

abbrev pub keys : List (StockKey × ℕ) → List StockKey
keys = map (λ p. p.0)

-- The set union of two lists of keys.
unfoldable pub union_keys : List StockKey → List StockKey → List StockKey
union_keys [] ys = ys
union_keys (k ∷ ks) ys =
    let rest = union_keys ks ys in if any_of (λ j. key_eq j k) rest then rest else k ∷ rest

abbrev pub entry_key : StockEntry → StockKey
entry_key e = record { sku_id = e.sku_id; warehouse = e.warehouse }

abbrev pub exit_key : StockExit → StockKey
exit_key x = record { sku_id = x.sku_id; warehouse = x.warehouse }

-- `entry_map` and `exit_map`, filled from the two grouped queries.
unfoldable pub entry_groups : Db → List (StockKey × ℕ)
unfolding group_sums
entry_groups d = group_sums (map (λ e. (entry_key e, e.quantity)) d.entries)

unfoldable pub exit_groups : Db → List (StockKey × ℕ)
unfolding group_sums
exit_groups d = group_sums (map (λ x. (exit_key x, x.quantity)) d.exits)

unfoldable pub get_current_stocks : Db → List (StockKey × ℤ)
get_current_stocks d =
    map
      (λ k.
        (k, sub_ℕ (or_else (get_key k (entry_groups d)) 0) (or_else (get_key k (exit_groups d)) 0)))
      (union_keys (keys (entry_groups d)) (keys (exit_groups d)))

-- `session.get(SKU, sku_id)`, and the locked row that `_lock_skus` returns under an identifier.
unfoldable pub get_sku_or_none : Db → ℕ → Option Sku
get_sku_or_none d sku_id = first (λ s. s.id == sku_id) d.skus

-- `SELECT ... WHERE id IN (ids)`, as a dictionary by identifier.
unfoldable pub lock_skus : Db → List ℕ → List (ℕ × Sku)
lock_skus d ids = map (λ s. (s.id, s)) (select (λ s. any_of (λ k. k == s.id) ids) d.skus)

get-select_id :
    (k : ℕ) (p : Sku → Bool) (rows : List Sku) (s : Sku)
    → get k (map (λ r. (r.id, r)) (select p rows)) ≡ some s
    → k ≡ s.id
unfolding get select
get-select_id k p [] s h = cc
get-select_id k p (r ∷ rows) s h = ground (arith, get-select_id k p rows s)

-- A row found under an identifier has that identifier.
pub get-lock_skus :
    (d : Db) (ids : List ℕ) (k : ℕ) (s : Sku) → get k (lock_skus d ids) ≡ some s → k ≡ s.id
unfolding lock_skus
get-lock_skus d ids k s h = get-select_id k _ d.skus s h
