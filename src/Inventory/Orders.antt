-- ===== src/Inventory/Orders.antt =====
-- Commercial orders of services/api/inventory_service.py: `create_commercial_order`,
-- `append_commercial_order_dispatches` and their helpers.
pub mod Rows
pub mod Required
pub mod Accepted
pub mod Stocks
use ang553_latam_aie_01_fina.Common.{
  ℕ, ◌+◌, ℤ, pos, ◌-ℤ◌, String, Bool, false, not, ◌&&◌, ◌||◌, Option, none, some, List, [], ◌∷◌,
  ◌++◌, map, str_eq, ◌==◌, opt_eq, opt_str_eq, is_some, or_else, ltb_ℤ, select, first, any_of,
  all_of, Dict, get, put, sort_by, if◌then◌else◌,
}
use ang553_latam_aie_01_fina.Inventory.Types.{
  Sku, StockExit, CommercialOrder, outbound_tags, TelemetryEvent, Db, World, Env, DispatchCreate,
  CommercialOrderCreate, DispatchAppend, warehouse_value,
}
use ang553_latam_aie_01_fina.Inventory.Tx.{
  Result, ok, err, Tx, insufficient_stock, order_not_found, order_mismatch, content_conflict,
  duplicate_dispatch, data_integrity, no_identity, key_error, add_exit, add_order, transact,
  read_back, pure, or_raise, gets, ◌>>=◌, ◌>>◌,
}
use ang553_latam_aie_01_fina.Inventory.Stock.{get_current_stock, lock_skus}
use ang553_latam_aie_01_fina.Inventory.Telemetry.{
  canonical_telemetry_warehouse, enqueue_inventory_event, make_event, threshold_event,
  record_threshold_evaluation,
}
use ang553_latam_aie_01_fina.Inventory.Movements.{event_list, finish}

unfoldable pub dispatch_matches : StockExit → DispatchCreate → ℕ → Bool
dispatch_matches row payload order_id =
    opt_eq row.commercial_order_id (some order_id)
    && row.sku_id == payload.sku_id
    && row.quantity == payload.quantity
    && str_eq row.exit_type "dispatch"
    && opt_str_eq row.tracking_number (some payload.tracking_number)

-- Exits of an order have a dispatch id, by a constraint.
abbrev pub dispatch_key : StockExit → ℕ
dispatch_key x = or_else x.dispatch_id 0

unfoldable pub order_dispatches : Db → ℕ → List StockExit
order_dispatches d order_pk =
    sort_by dispatch_key (select (λ x. opt_eq x.commercial_order_id (some order_pk)) d.exits)

-- The quantities that a command asks for, summed by SKU.
unfoldable pub required_from : Dict ℕ → List DispatchCreate → Dict ℕ
required_from acc [] = acc
required_from acc (item ∷ rest) =
    required_from (put item.sku_id (or_else (get item.sku_id acc) 0 + item.quantity) acc) rest

unfoldable pub validate_order_skus : Db → List DispatchCreate → String → String → Result (Dict Sku)
validate_order_skus d dispatches client_id warehouse =
    let ids = map (λ item. item.sku_id) dispatches in
    let skus = lock_skus d ids in
    if any_of (λ k. not (is_some (get k skus))) ids
    then err data_integrity
    else if any_of
        (λ p.
          not (opt_str_eq p.1.client_id (some client_id)) || not (str_eq p.1.warehouse warehouse))
        skus
    then err order_mismatch
    else if any_of (λ p. ltb_ℤ (get_current_stock d p.0 warehouse) (pos p.1))
        (required_from [] dispatches)
    then err insufficient_stock
    else ok skus

abbrev pub new_dispatch : Env → CommercialOrder → DispatchCreate → ℕ → StockExit
new_dispatch env order item id = record {
  id = id;
  sku_id = item.sku_id;
  quantity = item.quantity;
  exit_type = "dispatch";
  tracking_number = some item.tracking_number;
  warehouse = order.warehouse;
  created_at = env.now;
  user_uuid = env.user_uuid;
  commercial_order_id = some order.id;
  dispatch_id = some item.dispatch_id;
}

-- The loop over the sorted dispatches: `running` is the stock left of each SKU, and `n` numbers the
-- flush and the UUID of the round. The identity is drawn before the insert that assigns it.
unfoldable pub dispatch_loop :
    Env
    → CommercialOrder
    → Dict Sku
    → ℕ
    → Dict ℤ
    → List DispatchCreate
    → Tx (List StockExit × List TelemetryEvent)
dispatch_loop env order skus n running [] = pure ([], [])
dispatch_loop env order skus n running (item ∷ rest) = do
  before ← or_raise (get item.sku_id running) key_error
  id ← or_raise (env.new_id n) no_identity
  add_exit (new_dispatch env order item id)
  let after = before -ℤ pos item.quantity
  sku ← or_raise (get item.sku_id skus) key_error
  event ← threshold_event env sku (env.new_uuid n) id before after
  record_threshold_evaluation env "stockexit" id sku before after event
  later ← dispatch_loop env order skus (n + 1) (put item.sku_id after running) rest
  pure (new_dispatch env order item id ∷ later.0, event_list event ++ later.1)

unfoldable pub add_order_dispatches :
    Env
    → CommercialOrder
    → List DispatchCreate
    → Dict Sku
    → Tx (List StockExit × List TelemetryEvent)
add_order_dispatches env order dispatches skus = do
  running ← gets (λ d. map (λ p. (p.0, get_current_stock d p.0 order.warehouse)) skus)
  dispatch_loop env order skus 1 running (sort_by (λ item. item.dispatch_id) dispatches)

-- `len(ids) != len(set(ids))`
unfoldable pub has_repeat : List ℕ → Bool
has_repeat [] = false
has_repeat (k ∷ ks) = any_of (λ j. j == k) ks || has_repeat ks

abbrev pub new_order : Env → CommercialOrderCreate → ℕ → CommercialOrder
new_order env payload id = record {
  id = id;
  order_id = payload.order_id;
  client_id = payload.client_id;
  warehouse = warehouse_value payload.warehouse;
  created_at = env.now;
}

abbrev pub Placed : Type 0
Placed = CommercialOrder × List StockExit

-- The `try` body of `create_commercial_order`.
unfoldable pub order_body :
    Env → CommercialOrderCreate → Dict Sku → Tx (Placed × List TelemetryEvent)
order_body env payload skus = do
  id ← or_raise (env.new_id 0) no_identity
  let order = new_order env payload id
  add_order order
  placed ← add_order_dispatches env order payload.dispatches skus
  let tags =
      outbound_tags order.order_id (canonical_telemetry_warehouse order.warehouse) order.client_id
  enqueue_inventory_event (env.new_uuid 0) env.now "commercial_order" id "outbound_order_created"
      tags
  let outbound = make_event env (env.new_uuid 0) "outbound_order_created" tags
  pure ((order, placed.0), outbound ∷ placed.1)

-- `set(persisted) == set(dispatch_ids)`, over the rows and the command.
unfoldable pub same_dispatch_ids : List StockExit → List DispatchCreate → Bool
same_dispatch_ids rows items =
    all_of (λ x. any_of (λ i. opt_eq x.dispatch_id (some i.dispatch_id)) items) rows
    && all_of (λ i. any_of (λ x. opt_eq x.dispatch_id (some i.dispatch_id)) rows) items

-- `item.dispatch_id in persisted and _dispatch_matches(persisted[item.dispatch_id], ...)`
unfoldable pub persisted_matches : List StockExit → ℕ → DispatchCreate → Bool
unfolding dispatch_matches
persisted_matches rows pk item =
    elim (first (λ x. opt_eq x.dispatch_id (some item.dispatch_id)) rows) [
      | none ↦ false
      | some x ↦ dispatch_matches x item pk
    ]

unfoldable pub retry_order : CommercialOrderCreate → World → CommercialOrder → Result Placed × World
retry_order payload w existing =
    let persisted = order_dispatches w.db existing.id in
    if not (str_eq existing.client_id payload.client_id)
      || not (str_eq existing.warehouse (warehouse_value payload.warehouse))
    then (err content_conflict, w)
    else if same_dispatch_ids persisted payload.dispatches
        && all_of (persisted_matches persisted existing.id) payload.dispatches
    then (ok (existing, persisted), w)
    else (err content_conflict, w)

unfoldable pub placed_with :
    Env → CommercialOrderCreate → World → Result (Dict Sku) → Result Placed × World
placed_with env payload w (err e) = (err e, w)
placed_with env payload w (ok skus) =
    finish env (read_back w.link.read_ok (transact (order_body env payload skus) w))

unfoldable pub fresh_order : Env → CommercialOrderCreate → World → Result Placed × World
fresh_order env payload w =
    let ids = map (λ i. i.dispatch_id) payload.dispatches in
    if any_of (λ x. any_of (λ k. opt_eq x.dispatch_id (some k)) ids) w.db.exits
    then (err duplicate_dispatch, w)
    else placed_with env payload w (
        validate_order_skus w.db payload.dispatches payload.client_id
          (warehouse_value payload.warehouse))

unfoldable pub order_or_retry :
    Env → CommercialOrderCreate → World → Option CommercialOrder → Result Placed × World
order_or_retry env payload w (some existing) = retry_order payload w existing
order_or_retry env payload w none = fresh_order env payload w

unfoldable pub create_commercial_order : Env → CommercialOrderCreate → World → Result Placed × World
create_commercial_order env payload w =
    if has_repeat (map (λ i. i.dispatch_id) payload.dispatches)
    then (err duplicate_dispatch, w)
    else order_or_retry env payload w (first (λ o. o.order_id == payload.order_id) w.db.orders)

-- The items that no row has yet, in the command's order; a row that differs is a conflict.
unfoldable pub new_items : List StockExit → ℕ → List DispatchCreate → Result (List DispatchCreate)
unfolding dispatch_matches
new_items rows pk [] = ok []
new_items rows pk (item ∷ rest) =
    let later = new_items rows pk rest in
    elim (first (λ x. opt_eq x.dispatch_id (some item.dispatch_id)) rows) [
      | none ↦ elim later [ err e ↦ err e | ok items ↦ ok (item ∷ items) ]
      | some x ↦ if dispatch_matches x item pk then later else err content_conflict
    ]

unfoldable pub append_body :
    Env → CommercialOrder → List DispatchCreate → Dict Sku → Tx (Placed × List TelemetryEvent)
append_body env order items skus = do
  added ← add_order_dispatches env order items skus
  rows ← gets (λ d. order_dispatches d order.id)
  pure ((order, rows), added.1)

unfoldable pub appended_with :
    Env → CommercialOrder → List DispatchCreate → World → Result (Dict Sku) → Result Placed × World
appended_with env order items w (err e) = (err e, w)
appended_with env order items w (ok skus) =
    read_back w.link.read_ok (finish env (transact (append_body env order items skus) w))

unfoldable pub append_new :
    Env → CommercialOrder → World → Result (List DispatchCreate) → Result Placed × World
append_new env order w (err e) = (err e, w)
append_new env order w (ok []) = (ok (order, order_dispatches w.db order.id), w)
append_new env order w (ok (item ∷ items)) =
    appended_with env order (item ∷ items) w
      (validate_order_skus w.db (item ∷ items) order.client_id order.warehouse)

unfoldable pub append_to :
    Env → DispatchAppend → World → Option CommercialOrder → Result Placed × World
append_to env payload w none = (err order_not_found, w)
append_to env payload w (some order) =
    append_new env order w (new_items w.db.exits order.id payload.dispatches)

unfoldable pub append_commercial_order_dispatches :
    Env → DispatchAppend → World → Result Placed × World
append_commercial_order_dispatches env payload w =
    if has_repeat (map (λ i. i.dispatch_id) payload.dispatches)
    then (err duplicate_dispatch, w)
    else append_to env payload w (first (λ o. o.order_id == payload.order_id) w.db.orders)
