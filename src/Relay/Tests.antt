-- ===== src/Relay/Tests.antt =====
-- Runs of pipelines/outbox_relay.py over two events.
use ang553_latam_aie_01_fina.Common.{
  ℕ, pos, true, false, ◌≡◌, refl, none, some, List, [], ◌∷◌, arith, first,
}
use ang553_latam_aie_01_fina.Relay.Types.{OutboxItem, Databases, text, number}
use ang553_latam_aie_01_fina.Relay.{
  Round, works, fails, relay_inventory_outbox, map_outbox_event_to_row, persist_destination_event,
  persisted,
}
use ang553_latam_aie_01_fina.Common.{◌+◌, ◌≤◌, change_where}
use ang553_latam_aie_01_fina.Relay.{
  relay_loop, relay_turn, relay_round, relay_item, next_pending, sooner, deliver, after_commit,
  after_failure,
}
use ang553_latam_aie_01_fina.Relay.Limits.{relay_inventory_outbox-limit}
use ang553_latam_aie_01_fina.Relay.Rows.{persist_destination_event-again}
use ang553_latam_aie_01_fina.Relay.Delivery.{IsConsistent, relay_inventory_outbox-IsConsistent}

abbrev item_of : ℕ → OutboxItem
item_of id = record {
  event_id = id;
  occurred_at = 10;
  source_table = "commercial_order";
  source_pk = id;
  event_type = "outbound_order_created";
  tags = ("order_id", text "o") ∷ ("warehouse", text "zaragoza") ∷ ("secret", number (pos 1)) ∷ [];
  published_at = none;
  attempt_count = 0;
  last_attempt_at = none;
  last_error = none;
  created_at = 10;
}

abbrev two_pending : Databases
two_pending = record { source = item_of 2 ∷ item_of 1 ∷ []; destination = [] }

abbrev three_rounds : List Round
three_rounds =
    record { destination = works; crashes = false; now = 20; later = 20 }
    ∷ record { destination = works; crashes = true; now = 30; later = 30 }
    ∷ record { destination = fails "destination_timeout"; crashes = false; now = 40; later = 40 }
    ∷ []

two_pending-IsConsistent : IsConsistent two_pending
two_pending-IsConsistent = record {
  keys = (
    ((λ h. refl), ((λ h. absurd (ground (arith, h))), tt)),
    (((λ h. absurd (ground (arith, h))), ((λ h. refl), tt)), tt),
  );
  acknowledged = ((λ h. absurd (ground (arith, h))), ((λ h. absurd (ground (arith, h))), tt));
}

relay_inventory_outbox-IsConsistent_example :
    IsConsistent (relay_inventory_outbox three_rounds two_pending).1
relay_inventory_outbox-IsConsistent_example =
    relay_inventory_outbox-IsConsistent three_rounds two_pending two_pending-IsConsistent

first_persisted :
    persist_destination_event (map_outbox_event_to_row (item_of 1)) []
    ≡ some (map_outbox_event_to_row (item_of 1) ∷ [])
unfolding persist_destination_event persisted first
first_persisted = refl

persist_destination_event-again_example :
    persist_destination_event
      (map_outbox_event_to_row (item_of 1))
      (map_outbox_event_to_row (item_of 1) ∷ [])
    ≡ some (map_outbox_event_to_row (item_of 1) ∷ [])
persist_destination_event-again_example =
    persist_destination_event-again (item_of 1) [] (map_outbox_event_to_row (item_of 1) ∷ [])
      first_persisted

abbrev two_rounds : List Round
two_rounds =
    record { destination = works; crashes = false; now = 20; later = 20 }
    ∷ record { destination = fails "destination_timeout"; crashes = false; now = 40; later = 41 }
    ∷ []

relay_failed_once :
    (relay_inventory_outbox two_rounds two_pending).0
    ≡ some (record { delivered = 1; failed = 1; error_codes = "destination_timeout" ∷ [] })
unfolding relay_inventory_outbox relay_loop relay_turn relay_round relay_item next_pending sooner
    deliver after_commit after_failure persist_destination_event persisted map_outbox_event_to_row
    first change_where
relay_failed_once = refl

relay_inventory_outbox-limit_example : (1 + 1 ≤ 2) × (1 ≤ 1) × (◌≡◌ {A = ℕ} 1 1)
relay_inventory_outbox-limit_example =
    relay_inventory_outbox-limit two_rounds two_pending
      (record { delivered = 1; failed = 1; error_codes = "destination_timeout" ∷ [] })
      relay_failed_once
