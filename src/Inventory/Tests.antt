-- ===== src/Inventory/Tests.antt =====
-- Runs of services/api/inventory_service.py on a small warehouse.
use ang553_latam_aie_01_fina.Common.{
  ◌++◌, ℕ, pos, ◌+◌, ◌≤◌, ◌≤ℤ◌, ◌+ℤ◌, ◌-ℤ◌, sub_ℕ, true, ◌≡◌, refl, none, some, List, [], ◌∷◌,
  arith, or_else, sum_where, select, first, any_of, get, put, ◌⊎◌, sort_by, insert_by,
}
use ang553_latam_aie_01_fina.Inventory.Types.{
  committed, commit_unseen, DatabaseLink, Sku, World, Env, la, dispatch, StockEntryCreate,
  StockExitCreate, PhysicalCountCreate, DispatchCreate, CommercialOrderCreate,
}
use ang553_latam_aie_01_fina.Inventory.Tx.{
  ok, insufficient_stock, commit_failed, ◌>>=◌, add_entry, exit_allowed, add_exit, add_count,
  evaluation_allowed, add_evaluation, authorized_pair, add_outbox, transact, read_back,
  commit_tables, capture, invalidate_cache, add_order,
}
use ang553_latam_aie_01_fina.Inventory.Stock.{
  get_key, sql_sum, get_current_stock, get_current_stocks, lock_skus,
}
use ang553_latam_aie_01_fina.Inventory.Stock.Sums.{IsSound, entered, exited}
use ang553_latam_aie_01_fina.Inventory.Stock.Bulk.{get_current_stocks-eq}
use ang553_latam_aie_01_fina.Inventory.Telemetry.{
  canonical_telemetry_warehouse, enqueue_inventory_event, crosses, no_client, emit_threshold,
  checked_threshold, threshold_when, threshold_event, record_threshold_evaluation,
}
use ang553_latam_aie_01_fina.Inventory.Movements.{
  new_entry, new_exit, enqueue_inbound, entry_body, exit_body, finish, entry_for, exit_for,
  report_insufficient, create_stock_entry, create_stock_exit,
}
use ang553_latam_aie_01_fina.Inventory.Movements.Stocks.{
  StockAdded, StockTaken, create_stock_entry-StockAdded, create_stock_exit-StockTaken,
}
use ang553_latam_aie_01_fina.Inventory.Counts.{
  new_count, report_discrepancy, count_body, captured_count, count_with_client, count_for,
  count_or_retry, confirm_inventory_physical_count,
}
use ang553_latam_aie_01_fina.Inventory.Counts.Retry.{confirm_idempotent}
use ang553_latam_aie_01_fina.Inventory.Orders.{
  required_from, validate_order_skus, new_order, new_dispatch, Placed, order_body,
  add_order_dispatches, dispatch_loop, has_repeat, placed_with, fresh_order, order_or_retry,
  create_commercial_order,
}
use ang553_latam_aie_01_fina.Inventory.Orders.Accepted.{PlacedBefore}
use ang553_latam_aie_01_fina.Inventory.Orders.Stocks.{
  DemandTaken, create_commercial_order-DemandTaken,
}
use ang553_latam_aie_01_fina.Inventory.Orders.Rows.{demand}
use ang553_latam_aie_01_fina.Inventory.Types.{CommercialOrder, DispatchAppend}
use ang553_latam_aie_01_fina.Inventory.Orders.Required.{validate_order_skus-covers}
use ang553_latam_aie_01_fina.Inventory.Requests.{
  AllOrNothing, Request, create_outbound_order, serve, handle, serve-IsSound, handle_refused,
}

abbrev env_at : ℕ → Env
env_at now = record {
  user_uuid = "u1";
  request_id = none;
  now = now;
  new_id = λ n. some (now + n);
  new_uuid = λ n. now + n;
  capture_ok = true;
}

abbrev box : Sku
box = record {
  id = 1;
  name = "Box";
  sku = "BX";
  client_name = "Acme";
  category = "parcel";
  warehouse = "LA";
  client_id = some "acme";
  minimum_stock_threshold = some 3;
}

abbrev stocked : World
stocked = record {
  db = record {
    skus = box ∷ [];
    entries =
        record {
          id = 1;
          sku_id = 1;
          quantity = 10;
          reference = "r";
          warehouse = "LA";
          created_at = 5;
          user_uuid = "u1";
        }
        ∷ [];
    exits = [];
    orders = [];
    counts = [];
    evaluations = [];
    outbox = [];
  };
  captured = [];
  persisted = [];
  invalidations = 0;
  link = record { commit = committed; read_ok = true };
}

stocked-IsSound : IsSound stocked.db
unfolding sum_where
stocked-IsSound = record { at = λ k wh. omega arith }

abbrev entry_of : ℕ → StockEntryCreate
entry_of q = record { sku_id = 1; quantity = q; reference = "r2"; warehouse = la }

abbrev exit_of : ℕ → StockExitCreate
exit_of q = record {
  sku_id = 1;
  quantity = q;
  exit_type = dispatch;
  tracking_number = none;
  warehouse = la;
}

abbrev count_of : ℕ → PhysicalCountCreate
count_of q = record { count_id = 77; sku_id = 1; observed_quantity = q; warehouse = la }

exit_accepted : create_stock_exit (env_at 20) (exit_of 8) stocked ≡ (
  ok (new_exit (env_at 20) (exit_of 8) 20),
  (create_stock_exit (env_at 20) (exit_of 8) stocked).1,
)
unfolding create_stock_exit exit_for lock_skus select get finish read_back commit_tables transact
    exit_body get_current_stock sql_sum sum_where ◌>>=◌ add_exit exit_allowed any_of threshold_event
    threshold_when checked_threshold crosses emit_threshold no_client enqueue_inventory_event
    canonical_telemetry_warehouse add_outbox authorized_pair record_threshold_evaluation
    add_evaluation evaluation_allowed capture invalidate_cache ◌-ℤ◌ sub_ℕ
exit_accepted = refl

create_stock_exit-StockTaken_example :
    (pos 8 ≤ℤ get_current_stock stocked.db 1 "LA")
    × StockTaken 1 "LA" 8 stocked.db (create_stock_exit (env_at 20) (exit_of 8) stocked).1.db
create_stock_exit-StockTaken_example =
    create_stock_exit-StockTaken (env_at 20) (exit_of 8) stocked _
      (new_exit (env_at 20) (exit_of 8) 20) exit_accepted

entry_accepted : create_stock_entry (env_at 20) (entry_of 4) stocked ≡ (
  ok (new_entry (env_at 20) (entry_of 4) 20),
  (create_stock_entry (env_at 20) (entry_of 4) stocked).1,
)
unfolding create_stock_entry entry_for lock_skus select get finish read_back commit_tables transact
    entry_body get_current_stock sql_sum sum_where ◌>>=◌ add_entry enqueue_inbound any_of
    enqueue_inventory_event canonical_telemetry_warehouse add_outbox authorized_pair
    record_threshold_evaluation add_evaluation evaluation_allowed capture invalidate_cache ◌+ℤ◌
    sub_ℕ
entry_accepted = refl

create_stock_entry-StockAdded_example :
    StockAdded 1 "LA" 4 stocked.db (create_stock_entry (env_at 20) (entry_of 4) stocked).1.db
create_stock_entry-StockAdded_example =
    create_stock_entry-StockAdded (env_at 20) (entry_of 4) stocked _
      (new_entry (env_at 20) (entry_of 4) 20) entry_accepted

exit_refused :
    (handle (env_at 20) (create_outbound_order (exit_of 11)) stocked).0 ≡ some insufficient_stock
unfolding handle create_stock_exit exit_for lock_skus select get get_current_stock sql_sum sum_where
    any_of report_insufficient canonical_telemetry_warehouse sub_ℕ
exit_refused = refl

handle_refused_example :
    AllOrNothing (env_at 20) (create_outbound_order (exit_of 11)) stocked insufficient_stock
handle_refused_example =
    handle_refused (env_at 20) (create_outbound_order (exit_of 11)) stocked insufficient_stock
      exit_refused

abbrev unseen_link : DatabaseLink
unseen_link = record { commit = commit_unseen; read_ok = true }

-- An exit whose commit the client does not learn of.
exit_unseen :
    (handle
      (env_at 20)
      (create_outbound_order (exit_of 8))
      (record stocked { link = unseen_link })).0
    ≡ some commit_failed
unfolding handle create_stock_exit exit_for lock_skus select get finish read_back commit_tables
    transact exit_body get_current_stock sql_sum sum_where ◌>>=◌ add_exit exit_allowed any_of
    threshold_event threshold_when checked_threshold crosses emit_threshold no_client
    enqueue_inventory_event canonical_telemetry_warehouse add_outbox authorized_pair
    record_threshold_evaluation add_evaluation evaluation_allowed ◌-ℤ◌ sub_ℕ
exit_unseen = refl

abbrev two_requests : List (Env × DatabaseLink × Request)
two_requests =
    (env_at 20, unseen_link, create_outbound_order (exit_of 8))
    ∷ (env_at 30, stocked.link, create_outbound_order (exit_of 3))
    ∷ []

serve-IsSound_example : IsSound (serve two_requests stocked).db
serve-IsSound_example = serve-IsSound two_requests stocked stocked-IsSound

count_accepted : confirm_inventory_physical_count (env_at 20) (count_of 9) stocked ≡ (
  ok (new_count (env_at 20) (count_of 9) "acme" (pos 10) 20),
  (confirm_inventory_physical_count (env_at 20) (count_of 9) stocked).1,
)
unfolding confirm_inventory_physical_count count_or_retry count_for count_with_client captured_count
    count_body report_discrepancy lock_skus select get first read_back commit_tables transact
    get_current_stock sql_sum sum_where ◌>>=◌ add_count any_of no_client enqueue_inventory_event
    canonical_telemetry_warehouse add_outbox authorized_pair capture ◌-ℤ◌ sub_ℕ
count_accepted = refl

confirm_idempotent_example :
    confirm_inventory_physical_count
      (env_at 50)
      (count_of 9)
      (confirm_inventory_physical_count (env_at 20) (count_of 9) stocked).1
    ≡ (
      ok (new_count (env_at 20) (count_of 9) "acme" (pos 10) 20),
      (confirm_inventory_physical_count (env_at 20) (count_of 9) stocked).1,
    )
confirm_idempotent_example =
    confirm_idempotent (env_at 20) (env_at 50) (count_of 9) stocked _
      (new_count (env_at 20) (count_of 9) "acme" (pos 10) 20) refl count_accepted

abbrev two_dispatches : List DispatchCreate
two_dispatches =
    record { dispatch_id = 5; sku_id = 1; quantity = 4; tracking_number = "T5" }
    ∷ record { dispatch_id = 6; sku_id = 1; quantity = 6; tracking_number = "T6" }
    ∷ []

dispatches_valid : validate_order_skus stocked.db two_dispatches "acme" "LA" ≡ ok ((1, box) ∷ [])
unfolding validate_order_skus required_from lock_skus select get put any_of get_current_stock
    sql_sum sum_where sub_ℕ
dispatches_valid = refl

validate_order_skus-covers_example :
    exited 1 "LA" stocked.db + demand 1 two_dispatches ≤ entered 1 "LA" stocked.db
validate_order_skus-covers_example =
    validate_order_skus-covers stocked.db two_dispatches "acme" "LA" ((1, box) ∷ []) stocked-IsSound
      dispatches_valid 1

get_current_stocks-eq_example :
    or_else
      (get_key (record { sku_id = 1; warehouse = "LA" }) (get_current_stocks stocked.db))
      (pos 0)
    ≡ get_current_stock stocked.db 1 "LA"
get_current_stocks-eq_example = get_current_stocks-eq stocked.db 1 "LA"

abbrev order_of_two : CommercialOrderCreate
order_of_two = record {
  order_id = 900;
  client_id = "acme";
  warehouse = la;
  dispatches = two_dispatches;
}

abbrev placed_of_two : Placed
placed_of_two =
    let order = new_order (env_at 20) order_of_two 20 in
    (
      order,
      new_dispatch (env_at 20) order
            (record { dispatch_id = 5; sku_id = 1; quantity = 4; tracking_number = "T5" }) 21
          ∷ new_dispatch (env_at 20) order
              (record { dispatch_id = 6; sku_id = 1; quantity = 6; tracking_number = "T6" }) 22
          ∷ [],
    )

order_accepted :
    create_commercial_order (env_at 20) order_of_two stocked
    ≡ (ok placed_of_two, (create_commercial_order (env_at 20) order_of_two stocked).1)
unfolding create_commercial_order order_or_retry fresh_order placed_with order_body
    add_order_dispatches dispatch_loop has_repeat validate_order_skus required_from lock_skus select
    get put first sort_by insert_by finish read_back commit_tables transact get_current_stock
    sql_sum sum_where ◌>>=◌ add_order add_exit exit_allowed any_of threshold_event threshold_when
    checked_threshold crosses emit_threshold no_client enqueue_inventory_event
    canonical_telemetry_warehouse add_outbox authorized_pair record_threshold_evaluation
    add_evaluation evaluation_allowed capture invalidate_cache ◌-ℤ◌ sub_ℕ
order_accepted = refl

create_commercial_order-DemandTaken_example :
    (((create_commercial_order (env_at 20) order_of_two stocked).1 ≡ stocked)
      × PlacedBefore order_of_two stocked placed_of_two)
    ⊎ (((create_commercial_order (env_at 20) order_of_two stocked).1.db.orders
          ≡ stocked.db.orders ++ placed_of_two.0 ∷ [])
        × (placed_of_two.0.order_id ≡ order_of_two.order_id)
        × DemandTaken "LA" two_dispatches stocked.db
            (create_commercial_order (env_at 20) order_of_two stocked).1.db)
create_commercial_order-DemandTaken_example =
    create_commercial_order-DemandTaken (env_at 20) order_of_two stocked _ placed_of_two
      order_accepted

abbrev order_900 : CommercialOrder
order_900 = record { id = 9; order_id = 900; client_id = "acme"; warehouse = "LA"; created_at = 6 }

abbrev with_order : World
with_order = record stocked { db = record stocked.db { orders = order_900 ∷ [] } }

abbrev one_dispatch : List DispatchCreate
one_dispatch = record { dispatch_id = 7; sku_id = 1; quantity = 2; tracking_number = "T7" } ∷ []

abbrev append_of_one : DispatchAppend
append_of_one = record { order_id = 900; dispatches = one_dispatch }

abbrev appended_of_one : Placed
appended_of_one = (
  order_900,
  new_dispatch (env_at 20) order_900
        (record { dispatch_id = 7; sku_id = 1; quantity = 2; tracking_number = "T7" }) 21
      ∷ [],
)
