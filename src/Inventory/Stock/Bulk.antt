-- ===== src/Inventory/Stock/Bulk.antt =====
-- `get_current_stocks` of services/api/inventory_service.py beside `get_current_stock`.
use ang553_latam_aie_01_fina.Common.{
  ℕ, ◌+◌, ℤ, pos, sub_ℕ, String, true, ◌||◌, ◌≡◌, refl, none, some, List, [], ◌∷◌, map, arith,
  str_eq_iff, or_else, is_some, sum_where, any_of, Bool-cases, inl, inr, ap, ◌∙◌, if◌then◌else◌,
}
use mathlib.Core.Path.{ap₂}
use ang553_latam_aie_01_fina.Inventory.Types.{Db}
use ang553_latam_aie_01_fina.Inventory.Stock.{
  StockKey, key_eq, get_key, add_to_group, group_sums, keys, union_keys, entry_key, exit_key,
  entry_groups, exit_groups, get_current_stock, get_current_stocks,
}
use ang553_latam_aie_01_fina.Inventory.Stock.Sums.{stock-eq-sub}

get_key-add_to_group :
    (k j : StockKey) (q : ℕ) (m : List (StockKey × ℕ))
    → or_else (get_key j (add_to_group k q m)) 0
      ≡ or_else (get_key j m) 0 + (if key_eq k j then q else 0)
unfolding get_key add_to_group
get_key-add_to_group k j q [] = ground arith
get_key-add_to_group k j q ((i, s) ∷ m) = ground (
  arith,
  get_key-add_to_group k j q m,
  str_eq_iff k.warehouse j.warehouse,
  str_eq_iff i.warehouse k.warehouse,
  str_eq_iff i.warehouse j.warehouse,
)

get_key-group_sums :
    {A : Type 0} (key : A → StockKey) (f : A → ℕ) (j : StockKey) (rows : List A)
    → or_else (get_key j (group_sums (map (λ r. (key r, f r)) rows))) 0
      ≡ sum_where (λ r. key_eq (key r) j) f rows
unfolding group_sums sum_where get_key
get_key-group_sums key f j [] = refl
get_key-group_sums key f j (r ∷ rows) = omega (
  arith,
  get_key-add_to_group (key r) j (f r) (group_sums (map (λ x. (key x, f x)) rows)),
  get_key-group_sums key f j rows,
)

-- Equal keys have equal fields.
key_eq→eq : (i j : StockKey) → key_eq i j ≡ true → i ≡ j
key_eq→eq i j h = ground (arith, str_eq_iff i.warehouse j.warehouse)

get_key-map :
    (F : StockKey → ℤ) (j : StockKey) (ks : List StockKey)
    → get_key j (map (λ k. (k, F k)) ks)
      ≡ (if any_of (λ i. key_eq i j) ks then some (F j) else none)
unfolding get_key any_of
get_key-map F j [] = refl
get_key-map F j (k ∷ ks) = elim (Bool-cases (key_eq k j)) [
  | inl same ↦ rw (same, ap F (key_eq→eq k j same))
  | inr other ↦ rw other (get_key-map F j ks)
]

any_of-union_keys :
    (j : StockKey) (ks ms : List StockKey)
    → any_of (λ i. key_eq i j) (union_keys ks ms)
      ≡ (any_of (λ i. key_eq i j) ks || any_of (λ i. key_eq i j) ms)
unfolding any_of union_keys
any_of-union_keys j [] ms = refl
any_of-union_keys j (k ∷ ks) ms = elim (Bool-cases (key_eq k j)) [
  | inl same ↦ ground (
    arith,
    any_of-union_keys j ks ms,
    ap (λ (q : StockKey). any_of (λ i. key_eq i q) (union_keys ks ms)) (key_eq→eq k j same),
    same,
  )
  | inr other ↦ ground (arith, any_of-union_keys j ks ms, other)
]

is_some-get_key :
    (j : StockKey) (m : List (StockKey × ℕ))
    → is_some (get_key j m) ≡ any_of (λ i. key_eq i j) (keys m)
unfolding any_of get_key
is_some-get_key j [] = refl
is_some-get_key j ((k, v) ∷ m) = ground (arith, is_some-get_key j m)

-- A key that neither dictionary has counts zero on both sides.
pick :
    (j : StockKey) (es xs : List (StockKey × ℕ))
    → or_else
        (if any_of (λ i. key_eq i j) (keys es) || any_of (λ i. key_eq i j) (keys xs)
          then some (sub_ℕ (or_else (get_key j es) 0) (or_else (get_key j xs) 0))
          else none)
        (pos 0)
      ≡ sub_ℕ (or_else (get_key j es) 0) (or_else (get_key j xs) 0)
unfolding sub_ℕ
pick j es xs = ground (arith, is_some-get_key j es, is_some-get_key j xs)

-- For every SKU and warehouse, the bulk query's entry, or 0 where it has none, is the stock that the
-- single query computes.
pub get_current_stocks-eq :
    (d : Db) (k : ℕ) (wh : String)
    → or_else (get_key (record { sku_id = k; warehouse = wh }) (get_current_stocks d)) (pos 0)
      ≡ get_current_stock d k wh
unfolding get_current_stocks
get_current_stocks-eq d k wh =
    let j : StockKey = record { sku_id = k; warehouse = wh } in
    let es = entry_groups d in
    let xs = exit_groups d in
    rw
      (
        get_key-map (λ q. sub_ℕ (or_else (get_key q es) 0) (or_else (get_key q xs) 0)) j
            (union_keys (keys es) (keys xs)),
        any_of-union_keys j (keys es) (keys xs),
        stock-eq-sub d k wh,
      )
      (pick j es xs
        ∙ ap₂ sub_ℕ
            (unfold entry_groups in get_key-group_sums entry_key (λ e. e.quantity) j d.entries)
            (unfold exit_groups in get_key-group_sums exit_key (λ x. x.quantity) j d.exits))
