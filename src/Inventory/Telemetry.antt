-- ===== src/Inventory/Telemetry.antt =====
-- services/api/telemetry_utils.py, `enqueue_inventory_event` of inventory_outbox.py, and the
-- threshold events and evaluations of inventory_service.py.
use ang553_latam_aie_01_fina.Common.{
  ℕ, ℤ, pos, String, Bool, true, false, not, ◌&&◌, ◌||◌, Option, none, some, str_eq, ltb, leb_ℤ,
  ltb_ℤ, is_some, if◌then◌else◌,
}
use ang553_latam_aie_01_fina.Inventory.Types.{Sku, Tags, threshold_tags, TelemetryEvent, Env}
use ang553_latam_aie_01_fina.Inventory.Tx.{
  Tx, invalid_event, data_integrity, add_evaluation, add_outbox, authorized_pair, pure, raise,
  raise_if, ◌>>◌,
}

unfoldable pub canonical_telemetry_warehouse : String → Option String
canonical_telemetry_warehouse warehouse =
    if str_eq warehouse "LA"
    then some "los_angeles"
    else if str_eq warehouse "ZGZ"
    then some "zaragoza"
    else if str_eq warehouse "Los Angeles"
    then some "los_angeles"
    else if str_eq warehouse "Zaragoza"
    then some "zaragoza"
    else none

-- `not sku.client_id`: null or empty.
unfoldable pub no_client : Option String → Bool
no_client none = true
no_client (some c) = str_eq c ""

abbrev pub known_source : String → Bool
known_source s =
    str_eq s "stockentry"
    || str_eq s "commercial_order"
    || str_eq s "stockexit"
    || str_eq s "inventory_physical_count"

abbrev pub known_event : String → Bool
known_event s =
    str_eq s "inbound_order_created"
    || str_eq s "outbound_order_created"
    || str_eq s "stock_threshold_triggered"
    || str_eq s "inventory_discrepancy_detected"

-- The event id is a version-4 UUID and the instant is in UTC by their types; the other checks are
-- made in the source's order.
unfoldable pub enqueue_inventory_event : ℕ → ℕ → String → ℕ → String → Tags → Tx (Unit {0})
unfolding authorized_pair add_outbox
enqueue_inventory_event event_id occurred_at source_table source_pk event_type tags = do
  raise_if (not (known_source source_table)) invalid_event
  raise_if (not (ltb 0 source_pk)) invalid_event
  raise_if (not (known_event event_type)) invalid_event
  raise_if (not (authorized_pair source_table event_type)) invalid_event
  add_outbox (record {
    event_id = event_id;
    occurred_at = occurred_at;
    source_table = source_table;
    source_pk = source_pk;
    event_type = event_type;
    tags = tags;
    published_at = none;
    attempt_count = 0;
  })

-- `_event`
abbrev pub make_event : Env → ℕ → String → Tags → TelemetryEvent
make_event env event_id event_type tags = record {
  event_id = event_id;
  timestamp = env.now;
  user_id = env.user_uuid;
  event_type = event_type;
  request_id = env.request_id;
  properties = tags;
}

-- The test `before > threshold and after <= threshold`.
unfoldable pub crosses : Option ℕ → ℤ → ℤ → Bool
crosses none before after = false
crosses (some t) before after = ltb_ℤ (pos t) before && leb_ℤ after (pos t)

unfoldable pub emit_threshold :
    Env → Sku → String → String → ℕ → ℕ → ℕ → ℤ → Tx (Option TelemetryEvent)
unfolding enqueue_inventory_event
emit_threshold env sku warehouse client threshold event_id source_pk after = do
  let tags = threshold_tags warehouse client sku.id sku.category after threshold source_pk
  enqueue_inventory_event event_id env.now "stockexit" source_pk "stock_threshold_triggered" tags
  pure (some (make_event env event_id "stock_threshold_triggered" tags))

-- The warehouse is canonical and the client is there, or the data is inconsistent.
unfoldable pub checked_threshold :
    Env → Sku → Option String → Option String → ℕ → ℕ → ℕ → ℤ → Tx (Option TelemetryEvent)
unfolding emit_threshold no_client
checked_threshold env sku (some warehouse) (some client) threshold event_id source_pk after =
    if no_client (some client)
    then raise data_integrity
    else emit_threshold env sku warehouse client threshold event_id source_pk after
checked_threshold env sku _ _ threshold event_id source_pk after = raise data_integrity

unfoldable pub threshold_when : Env → Sku → Option ℕ → ℕ → ℕ → ℤ → ℤ → Tx (Option TelemetryEvent)
unfolding checked_threshold crosses canonical_telemetry_warehouse
threshold_when env sku none event_id source_pk before after = pure none
threshold_when env sku (some threshold) event_id source_pk before after =
    if crosses (some threshold) before after
    then checked_threshold env sku (canonical_telemetry_warehouse sku.warehouse) sku.client_id
        threshold event_id source_pk after
    else pure none

-- `_threshold_event`; `event_id` is the UUID that the event is given if there is one.
unfoldable pub threshold_event : Env → Sku → ℕ → ℕ → ℤ → ℤ → Tx (Option TelemetryEvent)
unfolding threshold_when
threshold_event env sku event_id source_pk before after =
    threshold_when env sku sku.minimum_stock_threshold event_id source_pk before after

abbrev event_id_of : Option TelemetryEvent → Option ℕ
event_id_of none = none
event_id_of (some e) = some e.event_id

unfoldable pub record_threshold_evaluation :
    Env → String → ℕ → Sku → ℤ → ℤ → Option TelemetryEvent → Tx (Unit {0})
unfolding add_evaluation
record_threshold_evaluation env source_table source_pk sku before after event =
    add_evaluation (record {
      source_table = source_table;
      source_pk = source_pk;
      sku_id = sku.id;
      client_id = sku.client_id;
      warehouse = sku.warehouse;
      before_quantity = before;
      after_quantity = after;
      threshold_quantity = sku.minimum_stock_threshold;
      crossed = is_some event;
      event_id = event_id_of event;
      evaluated_at = env.now;
    })
