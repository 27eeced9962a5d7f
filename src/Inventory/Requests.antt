-- ===== src/Inventory/Requests.antt =====
-- The writing routes of services/api/routes/inventory.py, and sequences of requests.
use mathlib.Core.Path.{subst}
use ang553_latam_aie_01_fina.Common.{
  ◌⊎◌, arith, true, ap, sym, ◌∙◌, ℕ, ◌≡◌, refl, not, Option, none, some, List, [], ◌∷◌, ◌==◌,
  if◌then◌else◌, Bool-cases, inl, inr,
}
use ang553_latam_aie_01_fina.Inventory.Types.{
  DatabaseLink, World, Env, StockEntryCreate, StockExitCreate, PhysicalCountCreate,
  CommercialOrderCreate, DispatchAppend,
}
use ang553_latam_aie_01_fina.Inventory.Tx.{Result, ok, err, Error, content_conflict, is_late}
use ang553_latam_aie_01_fina.Inventory.Stock.Sums.{IsSound}
use ang553_latam_aie_01_fina.Inventory.Movements.{
  create_stock_entry, create_stock_exit, update_sku_threshold,
}
use ang553_latam_aie_01_fina.Inventory.Counts.{confirm_inventory_physical_count}
use ang553_latam_aie_01_fina.Inventory.Orders.{
  create_commercial_order, append_commercial_order_dispatches,
}
use ang553_latam_aie_01_fina.Inventory.Atomic.{
  calm_world, IsAtomic, create_stock_entry-IsAtomic, create_stock_exit-IsAtomic,
  update_sku_threshold-IsAtomic, confirm_inventory_physical_count-IsAtomic,
  create_commercial_order-IsAtomic, append_commercial_order_dispatches-IsAtomic,
}
use ang553_latam_aie_01_fina.Inventory.Sound.{
  create_stock_entry-IsSound, create_stock_exit-IsSound, update_sku_threshold-IsSound,
  confirm_inventory_physical_count-IsSound, create_commercial_order-IsSound, append-IsSound,
}

pub data Request : Type 0 where
  create_inbound_order : StockEntryCreate → Request
  create_outbound_order : StockExitCreate → Request
  -- the SKU of the path, and the threshold of the payload
  configure_product_threshold : ℕ → Option ℕ → Request
  confirm_physical_count : PhysicalCountCreate → Request
  create_order_with_dispatches : CommercialOrderCreate → Request
  -- the order id of the path, and the payload
  append_order_dispatches : ℕ → DispatchAppend → Request

-- The error of a request, if it was refused.
abbrev outcome : {A : Type 0} → Result A × World → Option Error × World
outcome (ok a, w) = (none, w)
outcome (err e, w) = (some e, w)

unfoldable pub handle : Env → Request → World → Option Error × World
handle env (create_inbound_order payload) w = outcome (create_stock_entry env payload w)
handle env (create_outbound_order payload) w = outcome (create_stock_exit env payload w)
handle env (configure_product_threshold sku_id threshold) w =
    outcome (update_sku_threshold env sku_id threshold w)
handle env (confirm_physical_count payload) w =
    outcome (confirm_inventory_physical_count env payload w)
handle env (create_order_with_dispatches payload) w =
    outcome (create_commercial_order env payload w)
handle env (append_order_dispatches order_id payload) w =
    if not (order_id == payload.order_id)
    then (some content_conflict, w)
    else outcome (append_commercial_order_dispatches env payload w)

-- Requests one after the other, each with what the environment answers it and its connection.
unfoldable pub serve : List (Env × DatabaseLink × Request) → World → World
serve [] w = w
serve ((env, link, r) ∷ rest) w = serve rest (handle env r (record w { link = link })).1

outcome-IsSound : {A : Type 0} (r : Result A × World) → IsSound r.1.db → IsSound (outcome r).1.db
outcome-IsSound (ok a, w) s = s
outcome-IsSound (err e, w) s = s

pub handle-IsSound :
    (env : Env) (r : Request) (w : World) → IsSound w.db → IsSound (handle env r w).1.db
unfolding handle
handle-IsSound env (create_inbound_order payload) w s =
    outcome-IsSound _ (create_stock_entry-IsSound env payload w s)
handle-IsSound env (create_outbound_order payload) w s =
    outcome-IsSound _ (create_stock_exit-IsSound env payload w s)
handle-IsSound env (configure_product_threshold sku_id threshold) w s =
    outcome-IsSound _ (update_sku_threshold-IsSound env sku_id threshold w s)
handle-IsSound env (confirm_physical_count payload) w s =
    outcome-IsSound _ (confirm_inventory_physical_count-IsSound env payload w s)
handle-IsSound env (create_order_with_dispatches payload) w s =
    outcome-IsSound _ (create_commercial_order-IsSound env payload w s)
handle-IsSound env (append_order_dispatches order_id payload) w s =
    elim (Bool-cases (order_id == payload.order_id)) [
      | inl same ↦ rw same (outcome-IsSound _ (append-IsSound env payload w s))
      | inr other ↦ rw other s
    ]

-- From tables in which no stock is negative, any sequence of the writing requests, accepted or
-- refused, whatever their commits and later reads do, leads to tables in which no stock is negative.
pub serve-IsSound :
    (requests : List (Env × DatabaseLink × Request)) (w : World)
    → IsSound w.db
    → IsSound (serve requests w).db
unfolding serve
serve-IsSound [] w s = s
serve-IsSound ((env, link, r) ∷ rest) w s =
    serve-IsSound rest (handle env r (record w { link = link })).1
      (handle-IsSound env r (record w { link = link }) s)

-- The tables and the cache of before; or, after an error of the commit or of a read after it, the tables
-- that the request leaves when it is accepted on a working connection.
abbrev pub AllOrNothing : Env → Request → World → Error → Type 0
AllOrNothing env r w e =
    (((handle env r w).1.db ≡ w.db) × ((handle env r w).1.invalidations ≡ w.invalidations))
    ⊎ ((is_late e ≡ true)
        × ((handle env r (calm_world w)).0 ≡ none)
        × ((handle env r w).1.db ≡ (handle env r (calm_world w)).1.db))

outcome-AllOrNothing :
    {A : Type 0} (w : World) (calm r : Result A × World) (e : Error)
    → IsAtomic w calm r
    → (outcome r).0 ≡ some e
    → (((outcome r).1.db ≡ w.db) × ((outcome r).1.invalidations ≡ w.invalidations))
      ⊎ ((is_late e ≡ true) × ((outcome calm).0 ≡ none) × ((outcome r).1.db ≡ (outcome calm).1.db))
outcome-AllOrNothing w calm (ok a, w') e at h = cc
outcome-AllOrNothing w calm (err c, w') e (inl same) h = inl same
outcome-AllOrNothing {A} w calm (err c, w') e (inr (late, (a, v, accepted, same))) h = inr (
  subst (λ x. is_late x ≡ true) (ground (arith, h)) late,
  ap (λ (x : Result A × World). (outcome x).0) accepted,
  same ∙ sym (ap (λ (x : Result A × World). (outcome x).1.db) accepted),
)

-- A refused request has changed no table and invalidated no cache; unless its error is one of the commit or
-- of a read after it: then the tables are either so, or those that the same request leaves when it is
-- accepted on a working connection, and never anything between.
pub handle_refused :
    (env : Env) (r : Request) (w : World) (e : Error)
    → (handle env r w).0 ≡ some e
    → AllOrNothing env r w e
unfolding handle
handle_refused env (create_inbound_order payload) w e h =
    outcome-AllOrNothing w _ _ e (create_stock_entry-IsAtomic env payload w) h
handle_refused env (create_outbound_order payload) w e h =
    outcome-AllOrNothing w _ _ e (create_stock_exit-IsAtomic env payload w) h
handle_refused env (configure_product_threshold sku_id threshold) w e h =
    outcome-AllOrNothing w _ _ e (update_sku_threshold-IsAtomic env sku_id threshold w) h
handle_refused env (confirm_physical_count payload) w e h =
    outcome-AllOrNothing w _ _ e (confirm_inventory_physical_count-IsAtomic env payload w) h
handle_refused env (create_order_with_dispatches payload) w e h =
    outcome-AllOrNothing w _ _ e (create_commercial_order-IsAtomic env payload w) h
handle_refused env (append_order_dispatches order_id payload) w e h =
    elim (Bool-cases (order_id == payload.order_id)) [
      | inl same ↦ rw same (
          outcome-AllOrNothing w _ _ e (append_commercial_order_dispatches-IsAtomic env payload w)
            (rw same at h))
      | inr other ↦ rw other (inl (refl, refl))
    ]
