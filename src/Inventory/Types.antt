-- ===== src/Inventory/Types.antt =====
-- The tables of services/api/inventory_models.py, the outbox table of inventory_outbox.py and the
-- commands of inventory_schemas.py. Identifiers, instants and 128-bit UUIDs are numbers (they are only
-- compared, and the canonical text of a UUID sorts as its number); quantities that the schemas hold
-- positive or non-negative are numbers, and computed stock is an integer.
use ang553_latam_aie_01_fina.Common.{ℕ, ℤ, String, Bool, Option, List}

pub record Sku : Type 0 where
  pub id : ℕ
  pub name : String
  pub sku : String
  pub client_name : String
  pub category : String
  pub warehouse : String
  pub client_id : Option String
  pub minimum_stock_threshold : Option ℕ

pub record StockEntry : Type 0 where
  pub id : ℕ
  pub sku_id : ℕ
  pub quantity : ℕ
  pub reference : String
  pub warehouse : String
  pub created_at : ℕ
  pub user_uuid : String

pub record StockExit : Type 0 where
  pub id : ℕ
  pub sku_id : ℕ
  pub quantity : ℕ
  pub exit_type : String
  pub tracking_number : Option String
  pub warehouse : String
  pub created_at : ℕ
  pub user_uuid : String
  pub commercial_order_id : Option ℕ
  pub dispatch_id : Option ℕ

pub record CommercialOrder : Type 0 where
  pub id : ℕ
  pub order_id : ℕ
  pub client_id : String
  pub warehouse : String
  pub created_at : ℕ

pub record PhysicalCount : Type 0 where
  pub id : ℕ
  pub count_id : ℕ
  pub sku_id : ℕ
  pub client_id : String
  pub warehouse : String
  pub expected_quantity : ℤ
  pub observed_quantity : ℕ
  pub confirmed_at : ℕ
  pub user_uuid : String

pub record ThresholdEvaluation : Type 0 where
  pub source_table : String
  pub source_pk : ℕ
  pub sku_id : ℕ
  pub client_id : Option String
  pub warehouse : String
  pub before_quantity : ℤ
  pub after_quantity : ℤ
  pub threshold_quantity : Option ℕ
  pub crossed : Bool
  pub event_id : Option ℕ
  pub evaluated_at : ℕ

-- The `tags` of an event, one constructor for each dictionary that the service builds.
-- `str` of a number and of a UUID is injective, so those values stay numbers.
pub data Tags : Type 0 where
  -- warehouse, client, product, category, quantity, movement
  inbound_tags : String → String → ℕ → String → ℕ → ℕ → Tags
  -- warehouse, client, product, category, quantity, threshold, movement
  threshold_tags : String → String → ℕ → String → ℤ → ℕ → ℕ → Tags
  -- warehouse, client, product, category, requested, available
  insufficient_tags : String → String → ℕ → String → ℕ → ℤ → Tags
  -- warehouse, client, product, category, quantity, system, counted, delta, type, count
  discrepancy_tags : String → String → ℕ → String → ℕ → ℤ → ℕ → ℤ → String → ℕ → Tags
  -- order, warehouse, client
  outbound_tags : ℕ → Option String → String → Tags

pub record TelemetryEvent : Type 0 where
  pub event_id : ℕ
  pub timestamp : ℕ
  pub user_id : String
  pub event_type : String
  pub request_id : Option String
  pub properties : Tags

pub record OutboxRow : Type 0 where
  pub event_id : ℕ
  pub occurred_at : ℕ
  pub source_table : String
  pub source_pk : ℕ
  pub event_type : String
  pub tags : Tags
  pub published_at : Option ℕ
  pub attempt_count : ℕ

pub record Db : Type 0 where
  pub skus : List Sku
  pub entries : List StockEntry
  pub exits : List StockExit
  pub orders : List CommercialOrder
  pub counts : List PhysicalCount
  pub evaluations : List ThresholdEvaluation
  pub outbox : List OutboxRow

-- How a commit ends: done, refused, or done without the client learning it.
pub data CommitEnd : Type 0 where
  committed commit_refused commit_unseen : CommitEnd

-- The connection of a request: the end of its commit, and whether the reads after it work
-- (`session.refresh`, or the rows of the answer).
pub record DatabaseLink : Type 0 where
  pub commit : CommitEnd
  pub read_ok : Bool

-- What an operation reads and leaves besides the tables: the telemetry handed to the capture and to
-- its best-effort store, and how often the inventory cache was invalidated.
pub record World : Type 0 where
  pub db : Db
  pub captured : List TelemetryEvent
  pub persisted : List TelemetryEvent
  pub invalidations : ℕ
  pub link : DatabaseLink

-- What the environment answers during one call: the caller, the clock, the identity that the
-- database assigns at the n-th flush, the n-th `uuid4`, and whether the telemetry capture succeeds.
pub record Env : Type 0 where
  pub user_uuid : String
  pub request_id : Option String
  pub now : ℕ
  pub new_id : ℕ → Option ℕ
  pub new_uuid : ℕ → ℕ
  pub capture_ok : Bool

pub data Warehouse : Type 0 where
  la zgz : Warehouse

-- `Warehouse.value`
abbrev pub warehouse_value : Warehouse → String
warehouse_value la = "LA"
warehouse_value zgz = "ZGZ"

pub data ExitType : Type 0 where
  dispatch loss : ExitType

abbrev pub exit_type_value : ExitType → String
exit_type_value dispatch = "dispatch"
exit_type_value loss = "loss"

pub record StockEntryCreate : Type 0 where
  pub sku_id : ℕ
  pub quantity : ℕ
  pub reference : String
  pub warehouse : Warehouse

pub record StockExitCreate : Type 0 where
  pub sku_id : ℕ
  pub quantity : ℕ
  pub exit_type : ExitType
  pub tracking_number : Option String
  pub warehouse : Warehouse

pub record DispatchCreate : Type 0 where
  pub dispatch_id : ℕ
  pub sku_id : ℕ
  pub quantity : ℕ
  pub tracking_number : String

pub record CommercialOrderCreate : Type 0 where
  pub order_id : ℕ
  pub client_id : String
  pub warehouse : Warehouse
  pub dispatches : List DispatchCreate

pub record DispatchAppend : Type 0 where
  pub order_id : ℕ
  pub dispatches : List DispatchCreate

pub record PhysicalCountCreate : Type 0 where
  pub count_id : ℕ
  pub sku_id : ℕ
  pub observed_quantity : ℕ
  pub warehouse : Warehouse
