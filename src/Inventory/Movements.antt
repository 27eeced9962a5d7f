-- ===== src/Inventory/Movements.antt =====
-- `create_stock_entry`, `create_stock_exit` and `update_sku_threshold` of
-- services/api/inventory_service.py.
pub mod Rows
pub mod Stocks
use ang553_latam_aie_01_fina.Common.{
  ℕ, ℤ, pos, ◌+ℤ◌, ◌-ℤ◌, String, not, Option, none, some, List, [], ◌∷◌, ◌++◌, map, str_eq, ◌==◌,
  ltb_ℤ, get, if◌then◌else◌,
}
use ang553_latam_aie_01_fina.Inventory.Types.{
  Sku, StockEntry, StockExit, inbound_tags, insufficient_tags, TelemetryEvent, World, Env,
  StockEntryCreate, StockExitCreate, warehouse_value, exit_type_value,
}
use ang553_latam_aie_01_fina.Inventory.Tx.{
  Result, ok, err, Tx, sku_not_found, warehouse_mismatch, insufficient_stock, no_identity,
  add_entry, add_exit, transact, read_back, capture, invalidate_cache, pure, or_raise, modify,
  ◌>>=◌, ◌>>◌,
}
use ang553_latam_aie_01_fina.Inventory.Stock.{get_current_stock, lock_skus}
use ang553_latam_aie_01_fina.Inventory.Telemetry.{
  canonical_telemetry_warehouse, enqueue_inventory_event, make_event, threshold_event,
  record_threshold_evaluation,
}

-- The inbound event, unless the SKU has no client or the warehouse no telemetry name.
unfoldable pub enqueue_inbound :
    Env → Sku → StockEntry → Option String → Option String → Tx (Option TelemetryEvent)
unfolding enqueue_inventory_event
enqueue_inbound env sku entry (some client) (some warehouse) = do
  let tags = inbound_tags warehouse client sku.id sku.category entry.quantity entry.id
  enqueue_inventory_event (env.new_uuid 0) env.now "stockentry" entry.id "inbound_order_created"
      tags
  pure (some (make_event env (env.new_uuid 0) "inbound_order_created" tags))
enqueue_inbound env sku entry _ _ = pure none

abbrev pub new_entry : Env → StockEntryCreate → ℕ → StockEntry
new_entry env payload id = record {
  id = id;
  sku_id = payload.sku_id;
  quantity = payload.quantity;
  reference = payload.reference;
  warehouse = warehouse_value payload.warehouse;
  created_at = env.now;
  user_uuid = env.user_uuid;
}

-- The `try` body of `create_stock_entry`.
unfoldable pub entry_body :
    Env → Sku → StockEntryCreate → ℤ → Tx (StockEntry × Option TelemetryEvent)
entry_body env sku payload before = do
  id ← or_raise (env.new_id 0) no_identity
  let entry = new_entry env payload id
  add_entry entry
  event ←
      enqueue_inbound env sku entry sku.client_id (canonical_telemetry_warehouse entry.warehouse)
  record_threshold_evaluation env "stockentry" id sku before (before +ℤ pos payload.quantity) none
  pure (entry, event)

abbrev pub event_list : Option TelemetryEvent → List TelemetryEvent
event_list none = []
event_list (some e) = e ∷ []

-- After the commit: the capture and the cache. A failure has already rolled the tables back.
unfoldable pub finish :
    {A : Type 0} → Env → Result (A × List TelemetryEvent) × World → Result A × World
unfolding capture invalidate_cache
finish env (err e, w) = (err e, w)
finish env (ok (a, events), w) = (ok a, invalidate_cache (capture env events w))

abbrev pub with_events :
    {A : Type 0}
    → Result (A × Option TelemetryEvent) × World
    → Result (A × List TelemetryEvent) × World
with_events (err e, w) = (err e, w)
with_events (ok (a, o), w) = (ok (a, event_list o), w)

unfoldable pub entry_for : Env → StockEntryCreate → World → Option Sku → Result StockEntry × World
unfolding finish read_back transact entry_body get_current_stock
entry_for env payload w none = (err sku_not_found, w)
entry_for env payload w (some sku) =
    if not (str_eq (warehouse_value payload.warehouse) sku.warehouse)
    then (err warehouse_mismatch, w)
    else let before = get_current_stock w.db payload.sku_id (warehouse_value payload.warehouse) in
      finish env
        (with_events (read_back w.link.read_ok (transact (entry_body env sku payload before) w)))

unfoldable pub create_stock_entry : Env → StockEntryCreate → World → Result StockEntry × World
unfolding entry_for lock_skus
create_stock_entry env payload w =
    entry_for env payload w (get payload.sku_id (lock_skus w.db (payload.sku_id ∷ [])))

-- The telemetry of a refused exit: captured, then stored, both best effort.
unfoldable pub report_insufficient :
    Env → Sku → StockExitCreate → ℤ → Option String → Option String → World → World
report_insufficient env sku payload available (some client) (some warehouse) w =
    let tags = insufficient_tags warehouse client sku.id sku.category payload.quantity available in
    let event = make_event env (env.new_uuid 0) "inventory_stock_insufficient" tags in
    if env.capture_ok
    then record w { captured = w.captured ++ event ∷ []; persisted = w.persisted ++ event ∷ [] }
    else w
report_insufficient env sku payload available _ _ w = w

abbrev pub new_exit : Env → StockExitCreate → ℕ → StockExit
new_exit env payload id = record {
  id = id;
  sku_id = payload.sku_id;
  quantity = payload.quantity;
  exit_type = exit_type_value payload.exit_type;
  tracking_number = payload.tracking_number;
  warehouse = warehouse_value payload.warehouse;
  created_at = env.now;
  user_uuid = env.user_uuid;
  commercial_order_id = none;
  dispatch_id = none;
}

-- The `try` body of `create_stock_exit`.
unfoldable pub exit_body : Env → Sku → StockExitCreate → ℤ → Tx (StockExit × Option TelemetryEvent)
exit_body env sku payload available = do
  id ← or_raise (env.new_id 0) no_identity
  let exit_record = new_exit env payload id
  add_exit exit_record
  let after = available -ℤ pos payload.quantity
  event ← threshold_event env sku (env.new_uuid 0) id available after
  record_threshold_evaluation env "stockexit" id sku available after event
  pure (exit_record, event)

unfoldable pub exit_for : Env → StockExitCreate → World → Option Sku → Result StockExit × World
unfolding finish read_back transact exit_body get_current_stock report_insufficient
exit_for env payload w none = (err sku_not_found, w)
exit_for env payload w (some sku) =
    if not (str_eq (warehouse_value payload.warehouse) sku.warehouse)
    then (err warehouse_mismatch, w)
    else let available = get_current_stock w.db sku.id (warehouse_value payload.warehouse) in
      if ltb_ℤ available (pos payload.quantity)
      then (
        err insufficient_stock,
        report_insufficient env sku payload available sku.client_id
            (canonical_telemetry_warehouse (warehouse_value payload.warehouse)) w,
      )
      else finish env (
          with_events (read_back w.link.read_ok (transact (exit_body env sku payload available) w)))

unfoldable pub create_stock_exit : Env → StockExitCreate → World → Result StockExit × World
unfolding exit_for lock_skus
create_stock_exit env payload w =
    exit_for env payload w (get payload.sku_id (lock_skus w.db (payload.sku_id ∷ [])))

unfoldable pub set_threshold : Option ℕ → Sku → Sku → Sku
set_threshold threshold sku s =
    if s.id == sku.id then record s { minimum_stock_threshold = threshold } else s

unfoldable pub write_threshold : Option ℕ → Sku → Tx Sku
unfolding set_threshold
write_threshold threshold sku = do
  modify (λ d. record d { skus = map (set_threshold threshold sku) d.skus })
  pure (record sku { minimum_stock_threshold = threshold })

unfoldable pub refreshed : {A : Type 0} → Result A × World → Result A × World
unfolding invalidate_cache
refreshed (err e, w) = (err e, w)
refreshed (ok a, w) = (ok a, invalidate_cache w)

unfoldable pub threshold_for : Env → Option ℕ → World → Option Sku → Result Sku × World
unfolding read_back transact write_threshold refreshed
threshold_for env threshold w none = (err sku_not_found, w)
threshold_for env threshold w (some sku) =
    refreshed (read_back w.link.read_ok (transact (write_threshold threshold sku) w))

unfoldable pub update_sku_threshold : Env → ℕ → Option ℕ → World → Result Sku × World
unfolding threshold_for lock_skus
update_sku_threshold env sku_id threshold w =
    threshold_for env threshold w (get sku_id (lock_skus w.db (sku_id ∷ [])))
