-- ===== src/Relay.antt =====
-- pipelines/outbox_relay.py, with `filter_tags` and `map_outbox_event_to_row` of
-- services/api/telemetry_storage.py: the relay of the inventory outbox to the telemetry database.
pub mod Types
pub mod Rows
pub mod Delivery
pub mod Limits
mod Tests
use ang553_latam_aie_01_fina.Common.{
  ℕ, ◌+◌, ℤ, String, Bool, true, false, not, ◌&&◌, ◌||◌, Option, none, some, List, [], ◌∷◌, ◌++◌,
  str_eq, ◌==◌, ltb, is_some, any_of, first, change_where, if◌then◌else◌,
}
use ang553_latam_aie_01_fina.Relay.Types.{
  Tags, OutboxItem, TelemetryRow, canonical_eq, filter_tags, Databases,
}

-- How the destination's transaction of a round ends: it works, it fails, or it is committed and the
-- client sees a failure all the same. The text is the error code of the exception.
pub data Destination : Type 0 where
  works : Destination
  fails : String → Destination
  fails_late : String → Destination

-- What a round of the loop meets, and the first two readings of its clock. `crashes`: something that
-- follows the destination's transaction raises, so that the source's transaction is rolled back.
pub record Round : Type 0 where
  pub destination : Destination
  pub crashes : Bool
  pub now : ℕ
  pub later : ℕ

-- How a round ends: no row is pending, the row was acknowledged, it failed with a code, or it raised.
pub data Turn : Type 0 where
  idle delivered_one raised : Turn
  failed_with : String → Turn

pub record RelayResult : Type 0 where
  pub delivered : ℕ
  pub failed : ℕ
  pub error_codes : List String

unfoldable pub map_outbox_event_to_row : OutboxItem → TelemetryRow
map_outbox_event_to_row item = record {
  id = item.event_id;
  timestamp = item.occurred_at;
  service = "api";
  event_type = item.event_type;
  level = some "info";
  value = none;
  message = none;
  tags = filter_tags item.event_type item.tags;
}

-- `ORDER BY occurred_at, event_id LIMIT 1` over the pending rows.
abbrev pub is_pending : OutboxItem → Bool
is_pending i = not (is_some i.published_at)

abbrev pub earlier : OutboxItem → OutboxItem → Bool
earlier a b =
    ltb a.occurred_at b.occurred_at || (a.occurred_at == b.occurred_at && ltb a.event_id b.event_id)

unfoldable pub sooner : OutboxItem → Option OutboxItem → OutboxItem
sooner i none = i
sooner i (some best) = if earlier best i then best else i

unfoldable pub next_pending : List OutboxItem → Option OutboxItem
next_pending [] = none
next_pending (i ∷ rows) =
    let rest = next_pending rows in if is_pending i then some (sooner i rest) else rest

abbrev pub item_with : ℕ → OutboxItem → Bool
item_with id i = i.event_id == id

abbrev pub row_with : ℕ → TelemetryRow → Bool
row_with id r = r.id == id

-- `_persist_destination_event`: the rows after it, or none for a conflict.
unfoldable pub persisted :
    TelemetryRow → Option TelemetryRow → List TelemetryRow → Option (List TelemetryRow)
persisted expected none rows = some (rows ++ expected ∷ [])
persisted expected (some actual) rows = if canonical_eq actual expected then some rows else none

unfoldable pub persist_destination_event :
    TelemetryRow → List TelemetryRow → Option (List TelemetryRow)
persist_destination_event expected rows =
    persisted expected (first (row_with expected.id) rows) rows

abbrev pub note_failure : ℕ → String → OutboxItem → OutboxItem
note_failure now code i = record i {
  attempt_count = i.attempt_count + 1;
  last_attempt_at = some now;
  last_error = some code;
}

abbrev pub acknowledge : ℕ → ℕ → OutboxItem → OutboxItem
acknowledge now later i = record i {
  published_at = some now;
  attempt_count = i.attempt_count + 1;
  last_attempt_at = some later;
  last_error = none;
}

abbrev pub record_failure : ℕ → String → ℕ → Databases → Databases
record_failure now code id d = record d {
  source = change_where (item_with id) (note_failure now code) d.source;
}

-- The update of the acknowledgement, of a row that is still pending.
abbrev pub record_success : ℕ → ℕ → ℕ → Databases → Databases
record_success now later id d = record d {
  source = change_where (λ i. item_with id i && is_pending i) (acknowledge now later) d.source;
}

-- After the destination's commit.
unfoldable pub after_commit : Round → OutboxItem → Databases → Turn × Databases
after_commit round item d =
    if round.crashes
    then (raised, d)
    else (delivered_one, record_success round.now round.later item.event_id d)

-- After the destination's failure.
unfoldable pub after_failure : Round → String → OutboxItem → Databases → Turn × Databases
after_failure round code item d =
    if round.crashes
    then (raised, d)
    else (failed_with code, record_failure round.now code item.event_id d)

unfoldable pub deliver :
    Round → OutboxItem → Databases → Destination → Option (List TelemetryRow) → Turn × Databases
deliver round item d (fails code) rows = after_failure round code item d
deliver round item d _ none = after_failure round "destination_event_conflict" item d
deliver round item d works (some rows) = after_commit round item (record d { destination = rows })
deliver round item d (fails_late code) (some rows) =
    after_failure round code item (record d { destination = rows })

unfoldable pub relay_item : Round → Option OutboxItem → Databases → Turn × Databases
relay_item round none d = (idle, d)
relay_item round (some item) d =
    deliver round item d round.destination
      (persist_destination_event (map_outbox_event_to_row item) d.destination)

unfoldable pub relay_round : Round → Databases → Turn × Databases
relay_round round d = relay_item round (next_pending d.source) d

-- The counters of the loop at its start.
abbrev pub no_progress : RelayResult
no_progress = record { delivered = 0; failed = 0; error_codes = [] }

-- A pass of the loop: a missing row and a failure break it, a delivery goes on, an exception leaves no result.
unfoldable pub relay_turn :
    RelayResult
    → (RelayResult → Databases → Option RelayResult × Databases)
    → Turn × Databases
    → Option RelayResult × Databases
relay_turn r rest (idle, d) = (some r, d)
relay_turn r rest (failed_with code, d) =
    (some (record r { failed = r.failed + 1; error_codes = r.error_codes ++ code ∷ [] }), d)
relay_turn r rest (raised, d) = (none, d)
relay_turn r rest (delivered_one, d) = rest (record r { delivered = r.delivered + 1 }) d

unfoldable pub relay_loop : RelayResult → List Round → Databases → Option RelayResult × Databases
relay_loop r [] d = (some r, d)
relay_loop r (round ∷ rounds) d =
    relay_turn r (λ later. relay_loop later rounds) (relay_round round d)

-- `relay_inventory_outbox` with as many rounds as its limit, which is positive.
unfoldable pub relay_inventory_outbox : List Round → Databases → Option RelayResult × Databases
relay_inventory_outbox [] d = (none, d)
relay_inventory_outbox (round ∷ rounds) d = relay_loop no_progress (round ∷ rounds) d
