-- ===== src/Inventory/Sound.antt =====
-- The operations of services/api/inventory_service.py one by one, and the sign of the computed
-- stocks.
use ang553_latam_aie_01_fina.Common.{
  Bool, false, none, some, [], ◌∷◌, get, ℕ, ◌+◌, ◌≤◌, pos, ◌≤ℤ◌, ap, str_eq_iff, ◌≡◌, refl, true,
  ◌&&◌, Option, List, ◌++◌, arith, Bool-cases, inl, inr, ◌⊎◌, if◌then◌else◌, Dict, str_eq, String,
  sum_where-append, sum_where-sort_by, sort_by, ◌==◌, sub_ℕ_parts,
}
use ang553_latam_aie_01_fina.Inventory.Types.{
  CommitEnd, committed, commit_refused, commit_unseen, Sku, Db, World, Env, StockExit,
  StockEntryCreate, StockExitCreate, PhysicalCountCreate, PhysicalCount, CommercialOrderCreate,
  DispatchAppend, DispatchCreate, CommercialOrder, warehouse_value,
}
use ang553_latam_aie_01_fina.Inventory.Tx.{
  Result, ok, err, ◌>>=◌, read_back, transact, commit_tables, sku_not_found,
}
use ang553_latam_aie_01_fina.Inventory.Stock.{get_current_stock, exit_at, lock_skus}
use ang553_latam_aie_01_fina.Inventory.Stock.Sums.{
  IsSound, entered, exited, entered-add, exited-add, stock-eq-sub,
}
use ang553_latam_aie_01_fina.Inventory.Movements.{
  threshold_for, refreshed, write_threshold, create_stock_entry, create_stock_exit,
  update_sku_threshold,
}
use ang553_latam_aie_01_fina.Inventory.Movements.Rows.{entry_body-Entered, exit_body-Exited}
use ang553_latam_aie_01_fina.Inventory.Movements.Stocks.{
  create_stock_entry-ok, create_stock_exit-ok, create_stock_exit-StockTaken,
}
use mathlib.Core.Path.{subst, subst₂}
use ang553_latam_aie_01_fina.Inventory.Counts.{confirm_inventory_physical_count}
use ang553_latam_aie_01_fina.Inventory.Counts.Rows.{CountAccepted, confirm-CountAccepted}
use ang553_latam_aie_01_fina.Inventory.Orders.Rows.{Made, exited-Made, demand}
use ang553_latam_aie_01_fina.Inventory.Orders.Required.{validate_order_skus-covers}
use ang553_latam_aie_01_fina.Inventory.Orders.Accepted.{
  PlacedBefore, AppendedBefore, OrderFresh, AppendFresh, create_commercial_order-OrderAccepted,
  append-Accepted,
}
use ang553_latam_aie_01_fina.Inventory.Orders.{
  Placed, validate_order_skus, create_commercial_order, append_commercial_order_dispatches,
}
use ang553_latam_aie_01_fina.Inventory.Atomic.{
  calm_world, update_sku_threshold-IsAtomic, IsAtomic, create_stock_entry-IsAtomic,
  create_stock_exit-IsAtomic, confirm_inventory_physical_count-IsAtomic,
  create_commercial_order-IsAtomic, append_commercial_order_dispatches-IsAtomic,
}

-- An operation that leaves sound tables when it is accepted leaves them sound however it ends.
IsSound-by :
    {A : Type 0} (op : World → Result A × World) (w : World)
    → IsAtomic w (op (calm_world w)) (op w)
    → ((u : World) → IsSound u.db → (a : A) (w' : World) → op u ≡ (ok a, w') → IsSound w'.db)
    → IsSound w.db
    → IsSound (op w).1.db
IsSound-by {A} op w at good s = go (op w) refl at
  where
    go : (r : Result A × World) → op w ≡ r → IsAtomic w (op (calm_world w)) r → IsSound r.1.db
    go (ok a, w') e h = good w s a w' e
    go (err e, w') p (inl (same, _)) = rw same s
    go (err e, w') p (inr (_, (a, v, accepted, same))) =
        rw same (good (calm_world w) s a v accepted)

pub create_stock_entry-IsSound :
    (env : Env) (payload : StockEntryCreate) (w : World)
    → IsSound w.db
    → IsSound (create_stock_entry env payload w).1.db
create_stock_entry-IsSound env payload w s =
    IsSound-by (create_stock_entry env payload) w (create_stock_entry-IsAtomic env payload w)
      (λ u su e w' h.
        let (sku, o, _, _, body) = create_stock_entry-ok env payload u w' e h in
        let (he, hx, _, hr) = (entry_body-Entered env sku payload _ u.db).at (e, o) w'.db body in
        record { at = λ k wh. rw (he, hx, entered-add) (ground (arith, su.at k wh)) })
      s

-- Taking what is there leaves sound tables.
and_key : (i k : ℕ) (a wh : String) → (i == k && str_eq a wh) ≡ true → (i ≡ k) × (a ≡ wh)
and_key i k a wh h = ground (arith, str_eq_iff a wh)

covered :
    (d : Db) (i k q : ℕ) (a wh : String)
    → IsSound d
    → exited i a d + q ≤ entered i a d
    → exited k wh d + (if i == k && str_eq a wh then q else 0) ≤ entered k wh d
covered d i k q a wh s enough = elim (Bool-cases (i == k && str_eq a wh)) [
  | inl same ↦ rw same (
      subst₂ (λ j b. exited j b d + q ≤ entered j b d) (and_key i k a wh same).0
        (and_key i k a wh same).1 enough)
  | inr other ↦ rw other (omega (arith, s.at k wh))
]

enough_units :
    (d : Db) (i q : ℕ) (a : String)
    → pos q ≤ℤ get_current_stock d i a
    → IsSound d
    → exited i a d + q ≤ entered i a d
enough_units d i q a h s =
    ground (arith, stock-eq-sub d i a, sub_ℕ_parts (entered i a d) (exited i a d), s.at i a, h)

pub create_stock_exit-IsSound :
    (env : Env) (payload : StockExitCreate) (w : World)
    → IsSound w.db
    → IsSound (create_stock_exit env payload w).1.db
create_stock_exit-IsSound env payload w s =
    IsSound-by (create_stock_exit env payload) w (create_stock_exit-IsAtomic env payload w)
      (λ u su x w' h.
        let (sku, o, _, _, _, body) = create_stock_exit-ok env payload u w' x h in
        let (hx, he, _, hr) = (exit_body-Exited env sku payload _ u.db).at (x, o) w'.db body in
        let (asked, _) = create_stock_exit-StockTaken env payload u w' x h in
        record {
          at = λ k wh.
              rw (he, hx, exited-add, hr)
                (covered u.db payload.sku_id k payload.quantity (warehouse_value payload.warehouse)
                  wh su (enough_units u.db _ _ _ asked su));
        })
      s

-- The movements of the tables, which counts and thresholds leave alone.
abbrev pub SameMovements : Db → Db → Type 0
SameMovements d d' = (d'.entries ≡ d.entries) × (d'.exits ≡ d.exits)

SameMovements-IsSound : (d d' : Db) → SameMovements d d' → IsSound d → IsSound d'
SameMovements-IsSound d d' (he, hx) s = record { at = λ k wh. rw (he, hx) (s.at k wh) }

CountAccepted-IsSound :
    (env : Env) (payload : PhysicalCountCreate) (w w' : World) (c : PhysicalCount)
    → CountAccepted env payload w c w'
    → IsSound w.db
    → IsSound w'.db
CountAccepted-IsSound env payload w w' c (inl (same, _, _)) s = rw same s
CountAccepted-IsSound env payload w w' c (inr (_, (client, (_, he, hx, _)))) s =
    SameMovements-IsSound w.db w'.db (he, hx) s

pub confirm_inventory_physical_count-IsSound :
    (env : Env) (payload : PhysicalCountCreate) (w : World)
    → IsSound w.db
    → IsSound (confirm_inventory_physical_count env payload w).1.db
confirm_inventory_physical_count-IsSound env payload w s =
    IsSound-by (confirm_inventory_physical_count env payload) w
      (confirm_inventory_physical_count-IsAtomic env payload w)
      (λ u su c w' h.
        CountAccepted-IsSound env payload u w' c (confirm-CountAccepted env payload u w' c h) su)
      s

update_sku_threshold-ok :
    (env : Env) (sku_id : ℕ) (threshold : Option ℕ) (w w' : World) (sku : Sku)
    → update_sku_threshold env sku_id threshold w ≡ (ok sku, w')
    → SameMovements w.db w'.db
unfolding update_sku_threshold threshold_for refreshed read_back transact commit_tables ◌>>=◌
update_sku_threshold-ok env sku_id threshold w w' sku h =
    go (get sku_id (lock_skus w.db (sku_id ∷ []))) w.link.commit w.link.read_ok h
  where
    ended : CommitEnd → Bool → Option Sku → Result Sku × World
    ended c b none = (err sku_not_found, w)
    ended c b (some k) =
        refreshed (read_back b (commit_tables c w (write_threshold threshold k w.db)))

    go :
        (o : Option Sku) (c : CommitEnd) (b : Bool)
        → ended c b o ≡ (ok sku, w')
        → SameMovements w.db w'.db
    go none c b q = cc
    go (some k) commit_refused b q = cc
    go (some k) commit_unseen b q = cc
    go (some k) committed false q = cc
    go (some k) committed true q = ground arith

pub update_sku_threshold-IsSound :
    (env : Env) (sku_id : ℕ) (threshold : Option ℕ) (w : World)
    → IsSound w.db
    → IsSound (update_sku_threshold env sku_id threshold w).1.db
update_sku_threshold-IsSound env sku_id threshold w s =
    IsSound-by (update_sku_threshold env sku_id threshold) w
      (update_sku_threshold-IsAtomic env sku_id threshold w)
      (λ u su sku w' h.
        SameMovements-IsSound u.db w'.db (update_sku_threshold-ok env sku_id threshold u w' sku h)
          su)
      s

-- The exits of validated dispatches, at the order's warehouse, leave sound tables.
dispatched-IsSound :
    (env : Env) (order : CommercialOrder) (items : List DispatchCreate) (client : String)
    (skus : Dict Sku) (d d' : Db) (rows : List StockExit)
    → validate_order_skus d items client order.warehouse ≡ ok skus
    → (d'.exits ≡ d.exits ++ rows) × (d'.entries ≡ d.entries)
    → Made env order (sort_by (λ i. i.dispatch_id) items) rows
    → IsSound d
    → IsSound d'
dispatched-IsSound env order items client skus d d' rows valid (hx, he) made s = record {
  at = λ k wh.
      rw
        (
          he,
          hx,
          sum_where-append (exit_at k wh) (λ x. x.quantity) d.exits rows,
          exited-Made env order k wh (sort_by (λ i. i.dispatch_id) items) rows made,
          sum_where-sort_by (λ i. i.dispatch_id) (λ i. i.sku_id == k) (λ i. i.quantity) items,
        )
        (elim (Bool-cases (str_eq order.warehouse wh)) [
          | inl here ↦ rw here (
              subst (λ b. exited k b d + demand k items ≤ entered k b d)
                ((str_eq_iff order.warehouse wh).0 here)
                (validate_order_skus-covers d items client order.warehouse skus s valid k))
          | inr elsewhere ↦ rw elsewhere (omega (arith, s.at k wh))
        ]);
}

order_accepted-IsSound :
    (env : Env) (payload : CommercialOrderCreate) (w w' : World) (placed : Placed)
    → ((w' ≡ w) × PlacedBefore payload w placed) ⊎ OrderFresh env payload w placed w'
    → IsSound w.db
    → IsSound w'.db
order_accepted-IsSound env payload w w' placed (inl (same, _)) s = rw same s
order_accepted-IsSound env payload w w' placed (inr (skus, valid, _, _, (ho, _, hx, he, _, made)))
      s =
    dispatched-IsSound env placed.0 payload.dispatches payload.client_id skus w.db w'.db placed.1
      (rw (ap (λ (o : CommercialOrder). o.warehouse) ho) valid) (hx, he) made s

pub create_commercial_order-IsSound :
    (env : Env) (payload : CommercialOrderCreate) (w : World)
    → IsSound w.db
    → IsSound (create_commercial_order env payload w).1.db
create_commercial_order-IsSound env payload w s =
    IsSound-by (create_commercial_order env payload) w
      (create_commercial_order-IsAtomic env payload w)
      (λ u su placed w' h.
        order_accepted-IsSound env payload u w' placed
          (create_commercial_order-OrderAccepted env payload u w' placed h).1 su)
      s

append_accepted-IsSound :
    (env : Env) (payload : DispatchAppend) (w w' : World) (placed : Placed)
    → ((w' ≡ w) × AppendedBefore payload w) ⊎ AppendFresh env payload w placed w'
    → IsSound w.db
    → IsSound w'.db
append_accepted-IsSound env payload w w' placed (inl (same, _)) s = rw same s
append_accepted-IsSound env payload w w' placed
      (inr (order, items, skus, _, _, valid, (rows, (hx, he, _, _, made)))) s =
    dispatched-IsSound env order items order.client_id skus w.db w'.db rows valid (hx, he) made s

pub append-IsSound :
    (env : Env) (payload : DispatchAppend) (w : World)
    → IsSound w.db
    → IsSound (append_commercial_order_dispatches env payload w).1.db
append-IsSound env payload w s =
    IsSound-by (append_commercial_order_dispatches env payload) w
      (append_commercial_order_dispatches-IsAtomic env payload w)
      (λ u su placed w' h.
        append_accepted-IsSound env payload u w' placed (append-Accepted env payload u w' placed h)
          su)
      s
