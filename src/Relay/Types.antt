-- ===== src/Relay/Types.antt =====
-- The rows that the relay moves: the outbox table of services/api/inventory_outbox.py and the telemetry
-- table of services/api/telemetry_storage.py. A tag's value is a text, a number or null.
use ang553_latam_aie_01_fina.Common.{
  ℕ, ℤ, String, Bool, true, false, ◌&&◌, Option, none, some, List, [], ◌∷◌, str_eq, opt_str_eq,
  ◌==◌, leb_ℤ, select, all_of, any_of, if◌then◌else◌,
}

pub data Scalar : Type 0 where
  text : String → Scalar
  number : ℤ → Scalar
  null : Scalar

abbrev pub Tags : Type 0
Tags = List (String × Scalar)

pub record OutboxItem : Type 0 where
  pub event_id : ℕ
  pub occurred_at : ℕ
  pub source_table : String
  pub source_pk : ℕ
  pub event_type : String
  pub tags : Tags
  pub published_at : Option ℕ
  pub attempt_count : ℕ
  pub last_attempt_at : Option ℕ
  pub last_error : Option String
  pub created_at : ℕ

pub record TelemetryRow : Type 0 where
  pub id : ℕ
  pub timestamp : ℕ
  pub service : String
  pub event_type : String
  pub level : Option String
  pub value : Option ℤ
  pub message : Option String
  pub tags : Tags

-- The operational database's outbox and the reporting database's telemetry.
pub record Databases : Type 0 where
  pub source : List OutboxItem
  pub destination : List TelemetryRow

abbrev pub int_eq : ℤ → ℤ → Bool
int_eq a b = leb_ℤ a b && leb_ℤ b a

abbrev pub scalar_eq : Scalar → Scalar → Bool
scalar_eq (text a) (text b) = str_eq a b
scalar_eq (number a) (number b) = int_eq a b
scalar_eq null null = true
scalar_eq _ _ = false

abbrev pub opt_scalar_eq : Option Scalar → Option Scalar → Bool
opt_scalar_eq none none = true
opt_scalar_eq (some a) (some b) = scalar_eq a b
opt_scalar_eq _ _ = false

abbrev pub opt_int_eq : Option ℤ → Option ℤ → Bool
opt_int_eq none none = true
opt_int_eq (some a) (some b) = int_eq a b
opt_int_eq _ _ = false

unfoldable pub tag : String → Tags → Option Scalar
tag k [] = none
tag k ((j, v) ∷ ts) = let rest = tag k ts in if str_eq j k then some v else rest

-- Equality of two dictionaries, whatever their order.
unfoldable pub tags_eq : Tags → Tags → Bool
tags_eq a b =
    all_of (λ p. opt_scalar_eq (tag p.0 a) (tag p.0 b)) a
    && all_of (λ p. opt_scalar_eq (tag p.0 a) (tag p.0 b)) b

-- `_canonical_destination(a) == _canonical_destination(b)`
unfoldable pub canonical_eq : TelemetryRow → TelemetryRow → Bool
canonical_eq a b =
    a.id == b.id
    && a.timestamp == b.timestamp
    && str_eq a.service b.service
    && str_eq a.event_type b.event_type
    && opt_str_eq a.level b.level
    && opt_int_eq a.value b.value
    && opt_str_eq a.message b.message
    && tags_eq a.tags b.tags

-- EVENT_PROPERTY_ALLOWLISTS, for the events of the inventory outbox.
abbrev pub allowlist : String → List String
allowlist t =
    if str_eq t "inbound_order_created"
    then "warehouse" ∷ "client_id" ∷ "product_id" ∷ "product_category" ∷ "quantity" ∷ "movement_id"
      ∷ []
    else if str_eq t "outbound_order_created"
    then "warehouse" ∷ "client_id" ∷ "order_id" ∷ []
    else if str_eq t "stock_threshold_triggered"
    then "warehouse" ∷ "client_id" ∷ "product_id" ∷ "product_category" ∷ "quantity"
      ∷ "threshold_quantity" ∷ "movement_id" ∷ []
    else if str_eq t "inventory_discrepancy_detected"
    then "warehouse" ∷ "client_id" ∷ "product_id" ∷ "product_category" ∷ "quantity"
      ∷ "system_quantity" ∷ "counted_quantity" ∷ "discrepancy_delta" ∷ "discrepancy_type"
      ∷ "count_id" ∷ []
    else []

unfoldable pub filter_tags : String → Tags → Tags
filter_tags event_type tags = select (λ p. any_of (λ k. str_eq k p.0) (allowlist event_type)) tags
