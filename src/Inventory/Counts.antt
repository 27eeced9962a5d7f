-- ===== src/Inventory/Counts.antt =====
-- `confirm_inventory_physical_count` of services/api/inventory_service.py.
pub mod Rows
pub mod Retry
use ang553_latam_aie_01_fina.Common.{
  ℕ, ◌+◌, ℤ, pos, pos_part, neg_part, ◌-ℤ◌, String, Bool, not, ◌&&◌, Option, none, some, List, [],
  ◌∷◌, str_eq, ◌==◌, ltb_ℤ, first, get, if◌then◌else◌,
}
use ang553_latam_aie_01_fina.Inventory.Types.{
  Sku, PhysicalCount, discrepancy_tags, TelemetryEvent, World, Env, PhysicalCountCreate,
  warehouse_value,
}
use ang553_latam_aie_01_fina.Inventory.Tx.{
  Result, ok, err, Tx, sku_not_found, warehouse_mismatch, content_conflict, data_integrity,
  no_identity, add_count, transact, read_back, capture, pure, raise, or_raise, ◌>>=◌, ◌>>◌,
}
use ang553_latam_aie_01_fina.Inventory.Stock.{get_current_stock, lock_skus}
use ang553_latam_aie_01_fina.Inventory.Telemetry.{
  canonical_telemetry_warehouse, no_client, enqueue_inventory_event, make_event,
}

abbrev pub new_count : Env → PhysicalCountCreate → String → ℤ → ℕ → PhysicalCount
new_count env payload client expected id = record {
  id = id;
  count_id = payload.count_id;
  sku_id = payload.sku_id;
  client_id = client;
  warehouse = warehouse_value payload.warehouse;
  expected_quantity = expected;
  observed_quantity = payload.observed_quantity;
  confirmed_at = env.now;
  user_uuid = env.user_uuid;
}

abbrev pub magnitude : ℤ → ℕ
magnitude z = pos_part z + neg_part z

unfoldable pub report_discrepancy :
    Env → Sku → String → PhysicalCountCreate → ℤ → ℤ → ℕ → Option String → Tx (List TelemetryEvent)
report_discrepancy env sku client payload expected delta id none = raise data_integrity
report_discrepancy env sku client payload expected delta id (some warehouse) = do
  let tags =
      discrepancy_tags warehouse client sku.id sku.category (magnitude delta) expected
        payload.observed_quantity delta (if ltb_ℤ (pos 0) delta then "surplus" else "shortage")
        payload.count_id
  enqueue_inventory_event (env.new_uuid 0) env.now "inventory_physical_count" id
      "inventory_discrepancy_detected" tags
  pure (make_event env (env.new_uuid 0) "inventory_discrepancy_detected" tags ∷ [])

-- The `try` body: the count, and the event if the delta is not zero.
unfoldable pub count_body :
    Env → Sku → String → PhysicalCountCreate → ℤ → Tx (PhysicalCount × List TelemetryEvent)
count_body env sku client payload expected = do
  id ← or_raise (env.new_id 0) no_identity
  add_count (new_count env payload client expected id)
  let delta = pos payload.observed_quantity -ℤ expected
  events ←
      if magnitude delta == 0
      then pure []
      else report_discrepancy env sku client payload expected delta id
          (canonical_telemetry_warehouse (warehouse_value payload.warehouse))
  pure (new_count env payload client expected id, events)

unfoldable pub captured_count :
    Env → Result (PhysicalCount × List TelemetryEvent) × World → Result PhysicalCount × World
unfolding capture
captured_count env (err e, w) = (err e, w)
captured_count env (ok (c, events), w) = (ok c, capture env events w)

unfoldable pub count_with_client :
    Env → PhysicalCountCreate → World → Sku → Option String → Result PhysicalCount × World
count_with_client env payload w sku none = (err data_integrity, w)
count_with_client env payload w sku (some client) =
    if no_client (some client)
    then (err data_integrity, w)
    else let expected = get_current_stock w.db payload.sku_id (warehouse_value payload.warehouse) in
      captured_count env
        (read_back w.link.read_ok (transact (count_body env sku client payload expected) w))

unfoldable pub count_for :
    Env → PhysicalCountCreate → World → Option Sku → Result PhysicalCount × World
count_for env payload w none = (err sku_not_found, w)
count_for env payload w (some sku) =
    if not (str_eq sku.warehouse (warehouse_value payload.warehouse))
    then (err warehouse_mismatch, w)
    else count_with_client env payload w sku sku.client_id

-- An exact retry of a confirmed count: same SKU, warehouse, quantity and user.
abbrev pub same_count : Env → PhysicalCountCreate → PhysicalCount → Bool
same_count env payload c =
    c.sku_id == payload.sku_id
    && str_eq c.warehouse (warehouse_value payload.warehouse)
    && c.observed_quantity == payload.observed_quantity
    && str_eq c.user_uuid env.user_uuid

unfoldable pub count_or_retry :
    Env → PhysicalCountCreate → World → Option PhysicalCount → Result PhysicalCount × World
count_or_retry env payload w (some c) =
    if same_count env payload c then (ok c, w) else (err content_conflict, w)
count_or_retry env payload w none =
    count_for env payload w (get payload.sku_id (lock_skus w.db (payload.sku_id ∷ [])))

unfoldable pub confirm_inventory_physical_count :
    Env → PhysicalCountCreate → World → Result PhysicalCount × World
confirm_inventory_physical_count env payload w =
    count_or_retry env payload w (first (λ c. c.count_id == payload.count_id) w.db.counts)
