-- ===== src/Inventory/Orders/Stocks.antt =====
-- `create_commercial_order` of services/api/inventory_service.py and the computed stocks.
use ang553_latam_aie_01_fina.Common.{
  [], ◌∷◌, ◌++◌, ℕ, ◌+◌, pos, ◌-ℤ◌, String, ◌≡◌, refl, ◌⊎◌, inl, inr, List, ap, str_eq, sort_by,
  sum_where-append, sum_where-sort_by, if◌then◌else◌, ◌==◌,
}
use ang553_latam_aie_01_fina.Inventory.Types.{
  Db, World, Env, DispatchCreate, CommercialOrder, CommercialOrderCreate, warehouse_value,
}
use ang553_latam_aie_01_fina.Inventory.Tx.{ok}
use ang553_latam_aie_01_fina.Inventory.Stock.{get_current_stock, exit_at}
use ang553_latam_aie_01_fina.Inventory.Stock.Sums.{stock-eq-sub, sub-sub, exited}
use ang553_latam_aie_01_fina.Inventory.Orders.{Placed, create_commercial_order}
use ang553_latam_aie_01_fina.Inventory.Orders.Rows.{Ordered, demand, exited-Made}
use ang553_latam_aie_01_fina.Inventory.Orders.Accepted.{
  PlacedBefore, create_commercial_order-OrderAccepted,
}

-- Every stock at the warehouse falls by what the dispatches take of its SKU together.
abbrev pub DemandTaken : String → List DispatchCreate → Db → Db → Type 0
DemandTaken at_wh items d d' =
    (k : ℕ) (wh : String)
    → get_current_stock d' k wh
      ≡ get_current_stock d k wh -ℤ pos (if str_eq at_wh wh then demand k items else 0)

exited-Ordered :
    (env : Env) (payload : CommercialOrderCreate) (d d' : Db) (placed : Placed) (k : ℕ)
    (wh : String)
    → Ordered env payload d placed d'
    → exited k wh d'
      ≡ exited k wh d
        + (if str_eq (warehouse_value payload.warehouse) wh then demand k payload.dispatches else 0)
exited-Ordered env payload d d' placed k wh (order, _, exits, _, _, made) =
    rw
      (
        exits,
        sum_where-append (exit_at k wh) (λ x. x.quantity) d.exits placed.1,
        exited-Made env placed.0 k wh (sort_by (λ i. i.dispatch_id) payload.dispatches) placed.1
            made,
        ap (λ (o : CommercialOrder). o.warehouse) order,
        sum_where-sort_by (λ (i : DispatchCreate). i.dispatch_id) (λ i. i.sku_id == k)
            (λ i. i.quantity) payload.dispatches,
      )
      refl

Ordered-DemandTaken :
    (env : Env) (payload : CommercialOrderCreate) (d d' : Db) (placed : Placed)
    → Ordered env payload d placed d'
    → DemandTaken (warehouse_value payload.warehouse) payload.dispatches d d'
Ordered-DemandTaken env payload d d' placed (order, orders, exits, entries, skus, made) k wh =
    rw
      (
        stock-eq-sub d' k wh,
        stock-eq-sub d k wh,
        entries,
        exited-Ordered env payload d d' placed k wh (order, orders, exits, entries, skus, made),
      )
      (sub-sub _ _ _)

-- An accepted order either was placed before, with the same client, warehouse and dispatches, and then it
-- is the answer and nothing has changed, or it is in the table now and lowers the stock of
-- every SKU at its warehouse by what its dispatches take of that SKU together, and changes no stock at
-- another warehouse.
pub create_commercial_order-DemandTaken :
    (env : Env) (payload : CommercialOrderCreate) (w w' : World) (placed : Placed)
    → create_commercial_order env payload w ≡ (ok placed, w')
    → ((w' ≡ w) × PlacedBefore payload w placed)
      ⊎ ((w'.db.orders ≡ w.db.orders ++ placed.0 ∷ [])
          × (placed.0.order_id ≡ payload.order_id)
          × DemandTaken (warehouse_value payload.warehouse) payload.dispatches w.db w'.db)
create_commercial_order-DemandTaken env payload w w' placed h =
    let (distinct, accepted) = create_commercial_order-OrderAccepted env payload w w' placed h in
    elim accepted [
      | inl same ↦ inl same
      | inr (skus, valid, absent, free, rows) ↦ inr (
        rows.1,
        ap (λ (o : CommercialOrder). o.order_id) rows.0,
        Ordered-DemandTaken env payload w.db w'.db placed rows,
      )
    ]
