-- ===== src/Inventory/Atomic.antt =====
-- The errors of services/api/inventory_service.py: the tables after an operation that raises, before its
-- commit, in it, or in the read that follows.
use ang553_latam_aie_01_fina.Common.{
  ◌∙◌, ℤ, any_of, opt_eq, map, sym, Bool, true, false, ◌⊎◌, str_eq, ltb_ℤ, pos, ℕ, ◌≡◌, refl,
  Option, none, some, List, [], ◌∷◌, arith, Bool-cases, inl, inr, Dict, String,
}
use ang553_latam_aie_01_fina.Inventory.Types.{
  CommitEnd, committed, commit_refused, commit_unseen, Db, Sku, World, Env, TelemetryEvent,
  StockEntryCreate, StockExitCreate, PhysicalCountCreate, CommercialOrderCreate, DispatchAppend,
  DispatchCreate, CommercialOrder, PhysicalCount, warehouse_value,
}
use ang553_latam_aie_01_fina.Inventory.Tx.{
  Result, ok, err, Tx, transact, commit_tables, read_back, is_late, capture, invalidate_cache,
}
use ang553_latam_aie_01_fina.Inventory.Telemetry.{no_client}
use ang553_latam_aie_01_fina.Inventory.Stock.{get_current_stock}
use ang553_latam_aie_01_fina.Inventory.Movements.{
  report_insufficient, event_list, finish, with_events, refreshed, entry_for, exit_for,
  threshold_for, entry_body, exit_body, write_threshold, create_stock_entry, create_stock_exit,
  update_sku_threshold,
}
use ang553_latam_aie_01_fina.Inventory.Counts.{
  confirm_inventory_physical_count, captured_count, count_with_client, count_for, count_or_retry,
  same_count,
}
use ang553_latam_aie_01_fina.Inventory.Orders.{
  has_repeat, create_commercial_order, append_commercial_order_dispatches, order_or_retry,
  retry_order, fresh_order, placed_with, append_to, append_new, appended_with, append_body,
  order_body,
}

-- The same world on a connection whose commit and reads work.
abbrev pub calm_world : World → World
calm_world w = record w { link = record { commit = committed; read_ok = true } }

-- An error comes with the tables and the cache of before; or it is an error of the commit or of a read after
-- it, the operation is accepted on a working connection, and the tables are as that leaves them.
abbrev pub IsAtomic : {A : Type 0} → World → Result A × World → Result A × World → Type 0
IsAtomic w calm (ok a, w') = Unit
IsAtomic {A} w calm (err e, w') =
    ((w'.db ≡ w.db) × (w'.invalidations ≡ w.invalidations))
    ⊎ ((is_late e ≡ true) × ((a : A) × (v : World) × (calm ≡ (ok a, v)) × (w'.db ≡ v.db)))

captured-db : (env : Env) (es : List TelemetryEvent) (v : World) → v.db ≡ (capture env es v).db
unfolding capture
captured-db env [] v = refl
captured-db env (e ∷ es) v = ground arith

module _ {A : Type 0} (env : Env) where
  finish-IsAtomic :
      (body : Tx (A × List TelemetryEvent)) (w : World)
      → IsAtomic w
          (finish env (read_back true (transact body (calm_world w))))
          (finish env (read_back w.link.read_ok (transact body w)))
  unfolding finish transact commit_tables read_back invalidate_cache
  finish-IsAtomic body w = go (body w.db) w.link.commit w.link.read_ok
    where
      go :
          (r : Result ((A × List TelemetryEvent) × Db)) (c : CommitEnd) (b : Bool)
          → IsAtomic w
              (finish env (read_back true (commit_tables committed (calm_world w) r)))
              (finish env (read_back b (commit_tables c w r)))
      go (err e) c b = inl (refl, refl)
      go (ok (x, d)) commit_refused b = inl (refl, refl)
      go (ok ((a, es), d)) commit_unseen b = inr (refl, (a, _, refl, captured-db env es _))
      go (ok ((a, es), d)) committed false = inr (refl, (a, _, refl, captured-db env es _))
      go (ok x) committed true = tt

  -- The rows are read after the cache and the capture.
  finish_read-IsAtomic :
      (body : Tx (A × List TelemetryEvent)) (w : World)
      → IsAtomic w
          (read_back true (finish env (transact body (calm_world w))))
          (read_back w.link.read_ok (finish env (transact body w)))
  unfolding finish transact commit_tables read_back invalidate_cache
  finish_read-IsAtomic body w = go (body w.db) w.link.commit w.link.read_ok
    where
      same : (es : List TelemetryEvent) (d : Db) (v : World) → v.db ≡ d → (capture env es v).db ≡ d
      same es d v h = sym (captured-db env es v) ∙ h

      go :
          (r : Result ((A × List TelemetryEvent) × Db)) (c : CommitEnd) (b : Bool)
          → IsAtomic w
              (read_back true (finish env (commit_tables committed (calm_world w) r)))
              (read_back b (finish env (commit_tables c w r)))
      go (err e) c b = inl (refl, refl)
      go (ok (x, d)) commit_refused b = inl (refl, refl)
      go (ok ((a, es), d)) commit_unseen b = inr (refl, (a, _, refl, captured-db env es _))
      go (ok ((a, es), d)) committed false =
          inr (refl, (a, _, refl, same es d _ refl ∙ captured-db env es _))
      go (ok x) committed true = tt

  finish_one-IsAtomic :
      (body : Tx (A × Option TelemetryEvent)) (w : World)
      → IsAtomic w
          (finish env (with_events (read_back true (transact body (calm_world w)))))
          (finish env (with_events (read_back w.link.read_ok (transact body w))))
  unfolding finish transact commit_tables read_back invalidate_cache
  finish_one-IsAtomic body w = go (body w.db) w.link.commit w.link.read_ok
    where
      go :
          (r : Result ((A × Option TelemetryEvent) × Db)) (c : CommitEnd) (b : Bool)
          → IsAtomic w
              (finish env (with_events (read_back true (commit_tables committed (calm_world w) r))))
              (finish env (with_events (read_back b (commit_tables c w r))))
      go (err e) c b = inl (refl, refl)
      go (ok (x, d)) commit_refused b = inl (refl, refl)
      go (ok ((a, o), d)) commit_unseen b =
          inr (refl, (a, _, refl, captured-db env (event_list o) _))
      go (ok ((a, o), d)) committed false =
          inr (refl, (a, _, refl, captured-db env (event_list o) _))
      go (ok x) committed true = tt

refreshed-IsAtomic :
    {A : Type 0} (body : Tx A) (w : World)
    → IsAtomic w
        (refreshed (read_back true (transact body (calm_world w))))
        (refreshed (read_back w.link.read_ok (transact body w)))
unfolding refreshed transact commit_tables read_back invalidate_cache
refreshed-IsAtomic {A} body w = go (body w.db) w.link.commit w.link.read_ok
  where
    go :
        (r : Result (A × Db)) (c : CommitEnd) (b : Bool)
        → IsAtomic w
            (refreshed (read_back true (commit_tables committed (calm_world w) r)))
            (refreshed (read_back b (commit_tables c w r)))
    go (err e) c b = inl (refl, refl)
    go (ok (a, d)) commit_refused b = inl (refl, refl)
    go (ok (a, d)) commit_unseen b = inr (refl, (a, _, refl, refl))
    go (ok (a, d)) committed false = inr (refl, (a, _, refl, refl))
    go (ok (a, d)) committed true = tt

captured_count-IsAtomic :
    (env : Env) (body : Tx (PhysicalCount × List TelemetryEvent)) (w : World)
    → IsAtomic w
        (captured_count env (read_back true (transact body (calm_world w))))
        (captured_count env (read_back w.link.read_ok (transact body w)))
unfolding captured_count transact commit_tables read_back
captured_count-IsAtomic env body w = go (body w.db) w.link.commit w.link.read_ok
  where
    go :
        (r : Result ((PhysicalCount × List TelemetryEvent) × Db)) (c : CommitEnd) (b : Bool)
        → IsAtomic w
            (captured_count env (read_back true (commit_tables committed (calm_world w) r)))
            (captured_count env (read_back b (commit_tables c w r)))
    go (err e) c b = inl (refl, refl)
    go (ok (x, d)) commit_refused b = inl (refl, refl)
    go (ok ((a, es), d)) commit_unseen b = inr (refl, (a, _, refl, captured-db env es _))
    go (ok ((a, es), d)) committed false = inr (refl, (a, _, refl, captured-db env es _))
    go (ok x) committed true = tt

entry_for-IsAtomic :
    (env : Env) (payload : StockEntryCreate) (w : World) (o : Option Sku)
    → IsAtomic w (entry_for env payload (calm_world w) o) (entry_for env payload w o)
unfolding entry_for
entry_for-IsAtomic env payload w none = inl (refl, refl)
entry_for-IsAtomic env payload w (some sku) =
    elim (Bool-cases (str_eq (warehouse_value payload.warehouse) sku.warehouse)) [
      | inr other ↦ rw other (inl (refl, refl))
      | inl same ↦ rw same (finish_one-IsAtomic env (entry_body env sku payload _) w)
    ]

pub create_stock_entry-IsAtomic :
    (env : Env) (payload : StockEntryCreate) (w : World)
    → IsAtomic w (create_stock_entry env payload (calm_world w)) (create_stock_entry env payload w)
unfolding create_stock_entry
create_stock_entry-IsAtomic env payload w = entry_for-IsAtomic env payload w _

reported-db :
    (env : Env) (sku : Sku) (payload : StockExitCreate) (available : ℤ)
    (client at_wh : Option String) (w : World)
    → let v = report_insufficient env sku payload available client at_wh w in
      (v.db ≡ w.db) × (v.invalidations ≡ w.invalidations)
unfolding report_insufficient
reported-db env sku payload available (some c) (some a) w = ground arith
reported-db env sku payload available (some c) none w = (refl, refl)
reported-db env sku payload available none a w = (refl, refl)

exit_for-IsAtomic :
    (env : Env) (payload : StockExitCreate) (w : World) (o : Option Sku)
    → IsAtomic w (exit_for env payload (calm_world w) o) (exit_for env payload w o)
unfolding exit_for
exit_for-IsAtomic env payload w none = inl (refl, refl)
exit_for-IsAtomic env payload w (some sku) =
    let available = get_current_stock w.db sku.id (warehouse_value payload.warehouse) in
    elim (Bool-cases (str_eq (warehouse_value payload.warehouse) sku.warehouse)) [
      | inr other ↦ rw other (inl (refl, refl))
      | inl same ↦ elim (Bool-cases (ltb_ℤ available (pos payload.quantity))) [
        | inl short ↦
            rw (same, short) (inl (reported-db env sku payload available sku.client_id _ w))
        | inr enough ↦
            rw (same, enough) (finish_one-IsAtomic env (exit_body env sku payload available) w)
      ]
    ]

pub create_stock_exit-IsAtomic :
    (env : Env) (payload : StockExitCreate) (w : World)
    → IsAtomic w (create_stock_exit env payload (calm_world w)) (create_stock_exit env payload w)
unfolding create_stock_exit
create_stock_exit-IsAtomic env payload w = exit_for-IsAtomic env payload w _

threshold_for-IsAtomic :
    (env : Env) (threshold : Option ℕ) (w : World) (o : Option Sku)
    → IsAtomic w (threshold_for env threshold (calm_world w) o) (threshold_for env threshold w o)
unfolding threshold_for
threshold_for-IsAtomic env threshold w none = inl (refl, refl)
threshold_for-IsAtomic env threshold w (some sku) =
    refreshed-IsAtomic (write_threshold threshold sku) w

pub update_sku_threshold-IsAtomic :
    (env : Env) (sku_id : ℕ) (threshold : Option ℕ) (w : World)
    → IsAtomic w
        (update_sku_threshold env sku_id threshold (calm_world w))
        (update_sku_threshold env sku_id threshold w)
unfolding update_sku_threshold
update_sku_threshold-IsAtomic env sku_id threshold w = threshold_for-IsAtomic env threshold w _

count_with_client-IsAtomic :
    (env : Env) (payload : PhysicalCountCreate) (w : World) (sku : Sku) (o : Option String)
    → IsAtomic w
        (count_with_client env payload (calm_world w) sku o)
        (count_with_client env payload w sku o)
unfolding count_with_client
count_with_client-IsAtomic env payload w sku none = inl (refl, refl)
count_with_client-IsAtomic env payload w sku (some client) =
    elim (Bool-cases (no_client (some client))) [
      | inl missing ↦ rw missing (inl (refl, refl))
      | inr there ↦ rw there (captured_count-IsAtomic env _ w)
    ]

count_for-IsAtomic :
    (env : Env) (payload : PhysicalCountCreate) (w : World) (o : Option Sku)
    → IsAtomic w (count_for env payload (calm_world w) o) (count_for env payload w o)
unfolding count_for
count_for-IsAtomic env payload w none = inl (refl, refl)
count_for-IsAtomic env payload w (some sku) =
    elim (Bool-cases (str_eq sku.warehouse (warehouse_value payload.warehouse))) [
      | inr other ↦ rw other (inl (refl, refl))
      | inl same ↦ rw same (count_with_client-IsAtomic env payload w sku sku.client_id)
    ]

count_or_retry-IsAtomic :
    (env : Env) (payload : PhysicalCountCreate) (w : World) (o : Option PhysicalCount)
    → IsAtomic w (count_or_retry env payload (calm_world w) o) (count_or_retry env payload w o)
unfolding count_or_retry
count_or_retry-IsAtomic env payload w (some c) = elim (Bool-cases (same_count env payload c)) [
  | inr other ↦ rw other (inl (refl, refl))
  | inl same ↦ rw same tt
]
count_or_retry-IsAtomic env payload w none = count_for-IsAtomic env payload w _

pub confirm_inventory_physical_count-IsAtomic :
    (env : Env) (payload : PhysicalCountCreate) (w : World)
    → IsAtomic w
        (confirm_inventory_physical_count env payload (calm_world w))
        (confirm_inventory_physical_count env payload w)
unfolding confirm_inventory_physical_count
confirm_inventory_physical_count-IsAtomic env payload w = count_or_retry-IsAtomic env payload w _

placed_with-IsAtomic :
    (env : Env) (payload : CommercialOrderCreate) (w : World) (r : Result (Dict Sku))
    → IsAtomic w (placed_with env payload (calm_world w) r) (placed_with env payload w r)
unfolding placed_with
placed_with-IsAtomic env payload w (err e) = inl (refl, refl)
placed_with-IsAtomic env payload w (ok skus) = finish-IsAtomic env (order_body env payload skus) w

retry_order-IsAtomic :
    (payload : CommercialOrderCreate) (w : World) (o : CommercialOrder)
    → IsAtomic w (retry_order payload (calm_world w) o) (retry_order payload w o)
unfolding retry_order
retry_order-IsAtomic payload w o = ground arith

fresh_order-IsAtomic :
    (env : Env) (payload : CommercialOrderCreate) (w : World)
    → IsAtomic w (fresh_order env payload (calm_world w)) (fresh_order env payload w)
unfolding fresh_order
fresh_order-IsAtomic env payload w =
    elim (Bool-cases (
      any_of
        (λ x.
          any_of (λ k. opt_eq x.dispatch_id (some k)) (map (λ i. i.dispatch_id) payload.dispatches))
        w.db.exits)) [
          | inl taken ↦ rw taken (inl (refl, refl))
          | inr free ↦ rw free (placed_with-IsAtomic env payload w _)
        ]

order_or_retry-IsAtomic :
    (env : Env) (payload : CommercialOrderCreate) (w : World) (o : Option CommercialOrder)
    → IsAtomic w (order_or_retry env payload (calm_world w) o) (order_or_retry env payload w o)
unfolding order_or_retry
order_or_retry-IsAtomic env payload w (some existing) = retry_order-IsAtomic payload w existing
order_or_retry-IsAtomic env payload w none = fresh_order-IsAtomic env payload w

pub create_commercial_order-IsAtomic :
    (env : Env) (payload : CommercialOrderCreate) (w : World)
    → IsAtomic w
        (create_commercial_order env payload (calm_world w))
        (create_commercial_order env payload w)
unfolding create_commercial_order
create_commercial_order-IsAtomic env payload w =
    elim (Bool-cases (has_repeat (map (λ i. i.dispatch_id) payload.dispatches))) [
      | inl repeats ↦ rw repeats (inl (refl, refl))
      | inr distinct ↦ rw distinct (order_or_retry-IsAtomic env payload w _)
    ]

appended_with-IsAtomic :
    (env : Env) (order : CommercialOrder) (items : List DispatchCreate) (w : World)
    (r : Result (Dict Sku))
    → IsAtomic w
        (appended_with env order items (calm_world w) r)
        (appended_with env order items w r)
unfolding appended_with
appended_with-IsAtomic env order items w (err e) = inl (refl, refl)
appended_with-IsAtomic env order items w (ok skus) =
    finish_read-IsAtomic env (append_body env order items skus) w

append_new-IsAtomic :
    (env : Env) (order : CommercialOrder) (w : World) (r : Result (List DispatchCreate))
    → IsAtomic w (append_new env order (calm_world w) r) (append_new env order w r)
unfolding append_new
append_new-IsAtomic env order w (err e) = inl (refl, refl)
append_new-IsAtomic env order w (ok []) = tt
append_new-IsAtomic env order w (ok (item ∷ items)) =
    appended_with-IsAtomic env order (item ∷ items) w _

append_to-IsAtomic :
    (env : Env) (payload : DispatchAppend) (w : World) (o : Option CommercialOrder)
    → IsAtomic w (append_to env payload (calm_world w) o) (append_to env payload w o)
unfolding append_to
append_to-IsAtomic env payload w none = inl (refl, refl)
append_to-IsAtomic env payload w (some order) = append_new-IsAtomic env order w _

pub append_commercial_order_dispatches-IsAtomic :
    (env : Env) (payload : DispatchAppend) (w : World)
    → IsAtomic w
        (append_commercial_order_dispatches env payload (calm_world w))
        (append_commercial_order_dispatches env payload w)
unfolding append_commercial_order_dispatches
append_commercial_order_dispatches-IsAtomic env payload w =
    elim (Bool-cases (has_repeat (map (λ i. i.dispatch_id) payload.dispatches))) [
      | inl repeats ↦ rw repeats (inl (refl, refl))
      | inr distinct ↦ rw distinct (append_to-IsAtomic env payload w _)
    ]
