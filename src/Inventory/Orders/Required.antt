-- ===== src/Inventory/Orders/Required.antt =====
-- `_validate_order_skus` of services/api/inventory_service.py and the demand of a command.
use ang553_latam_aie_01_fina.Common.{
  ℕ, ◌+◌, ◌≤◌, pos, String, Bool, false, not, ◌||◌, ◌≡◌, some, List, [], ◌∷◌, map, arith, ltb_ℤ,
  ltb_ℤ-false, or_else, is_some, opt_str_eq, str_eq, any_of, sum_where, Dict, get, put, get-put,
  Option-cases, inl, inr, sub_ℕ_parts,
}
use ang553_latam_aie_01_fina.Inventory.Types.{Sku, Db, DispatchCreate}
use ang553_latam_aie_01_fina.Inventory.Tx.{ok}
use ang553_latam_aie_01_fina.Inventory.Stock.{get_current_stock, lock_skus}
use ang553_latam_aie_01_fina.Inventory.Stock.Sums.{entered, exited, stock-eq-sub, IsSound}
use ang553_latam_aie_01_fina.Inventory.Orders.{required_from, validate_order_skus}
use ang553_latam_aie_01_fina.Inventory.Orders.Rows.{demand}

-- The accumulated dictionary holds each SKU's demand.
pub get-required_from :
    (k : ℕ) (acc : Dict ℕ) (items : List DispatchCreate)
    → or_else (get k (required_from acc items)) 0 ≡ or_else (get k acc) 0 + demand k items
unfolding required_from sum_where
get-required_from k acc [] = omega arith
get-required_from k acc (i ∷ is) = ground (
  arith,
  get-required_from k (put i.sku_id (or_else (get i.sku_id acc) 0 + i.quantity) acc) is,
  get-put i.sku_id k (or_else (get i.sku_id acc) 0 + i.quantity) acc,
)

-- A key that a checked dictionary holds has passed the check.
get_passes :
    (p : ℕ × ℕ → Bool) (k q : ℕ) (m : Dict ℕ)
    → any_of p m ≡ false
    → get k m ≡ some q
    → p (k, q) ≡ false
unfolding any_of get
get_passes p k q [] h e = cc
get_passes p k q ((j, v) ∷ m) h e = ground (arith, get_passes p k q m)

-- What a successful validation has checked.
pub validate_order_skus-ok :
    (d : Db) (items : List DispatchCreate) (client wh : String) (skus : Dict Sku)
    → validate_order_skus d items client wh ≡ ok skus
    → (any_of
          (λ k. not (is_some (get k (lock_skus d (map (λ i. i.sku_id) items)))))
          (map (λ i. i.sku_id) items)
        ≡ false)
      × (any_of
            (λ p. not (opt_str_eq p.1.client_id (some client)) || not (str_eq p.1.warehouse wh))
            (lock_skus d (map (λ i. i.sku_id) items))
          ≡ false)
      × (any_of (λ p. ltb_ℤ (get_current_stock d p.0 wh) (pos p.1)) (required_from [] items)
          ≡ false)
      × (skus ≡ lock_skus d (map (λ i. i.sku_id) items))
unfolding validate_order_skus
validate_order_skus-ok d items client wh skus h = ground arith

-- In tables without negative stock, if the validation of an order's dispatches succeeds, then for every
-- SKU what has left its warehouse and what the dispatches together take of it, repeated lines included,
-- is no more than what has entered.
pub validate_order_skus-covers :
    (d : Db) (items : List DispatchCreate) (client wh : String) (skus : Dict Sku)
    → IsSound d
    → validate_order_skus d items client wh ≡ ok skus
    → (k : ℕ) → exited k wh d + demand k items ≤ entered k wh d
unfolding get
validate_order_skus-covers d items client wh skus sound h k =
    elim (Option-cases (get k (required_from [] items))) [
      | inl absent ↦ ground (arith, get-required_from k [] items, sound.at k wh)
      | inr (q, found) ↦
          let (_, _, checked, _) = validate_order_skus-ok d items client wh skus h in
          let enough = ltb_ℤ-false (get_current_stock d k wh) (pos q) (
            get_passes (λ p. ltb_ℤ (get_current_stock d p.0 wh) (pos p.1)) k q
              (required_from [] items) checked found) in
          ground (
            arith,
            get-required_from k [] items,
            sound.at k wh,
            stock-eq-sub d k wh,
            sub_ℕ_parts (entered k wh d) (exited k wh d),
            enough,
          )
    ]
