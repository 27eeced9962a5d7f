-- ===== src/Inventory/Orders/Rows.antt =====
-- `_add_order_dispatches` of services/api/inventory_service.py: the rows that its loop leaves.
use ang553_latam_aie_01_fina.Common.{
  ℕ, ◌+◌, ℤ, String, ◌≡◌, List, [], ◌∷◌, ◌++◌, arith, if◌then◌else◌, ◌==◌, str_eq, sum_where,
  sort_by, Dict, put, pos, ◌-ℤ◌,
}
use mathlib.Core.List.{append_assoc, append-nil}
use ang553_latam_aie_01_fina.Inventory.Types.{
  Sku, StockExit, CommercialOrder, Tags, Db, Env, DispatchCreate, CommercialOrderCreate,
}
use ang553_latam_aie_01_fina.Inventory.Tx.{ok, ◌>>=◌, Ensures, Ensures-bind, add_exit, add_order}
use ang553_latam_aie_01_fina.Inventory.Stock.{exit_at}
use ang553_latam_aie_01_fina.Inventory.Telemetry.{enqueue_inventory_event}
use ang553_latam_aie_01_fina.Inventory.Movements.Rows.{
  SameRows, threshold_event-SameRows, evaluation-SameRows,
}
use ang553_latam_aie_01_fina.Inventory.Orders.{
  new_order, new_dispatch, dispatch_loop, add_order_dispatches, order_body, append_body, Placed,
}

-- Each row is its dispatch's, but for the identity that the database gave it.
abbrev pub Made : Env → CommercialOrder → List DispatchCreate → List StockExit → Type 0
Made env order [] [] = Unit
Made env order (i ∷ is) (x ∷ xs) = (x ≡ new_dispatch env order i x.id) × Made env order is xs
Made env order _ _ = ⊥

abbrev pub Dispatched :
    Env → CommercialOrder → List DispatchCreate → Db → List StockExit → Db → Type 0
Dispatched env order items d created d' =
    (d'.exits ≡ d.exits ++ created)
    × (d'.entries ≡ d.entries)
    × (d'.skus ≡ d.skus)
    × (d'.orders ≡ d.orders)
    × Made env order items created

pub dispatch_loop-Dispatched :
    (env : Env) (order : CommercialOrder) (skus : Dict Sku) (n : ℕ) (running : Dict ℤ)
    (items : List DispatchCreate) (d : Db)
    → Ensures
        (λ r d'. Dispatched env order items d r.0 d')
        (dispatch_loop env order skus n running items d)
unfolding dispatch_loop add_exit
dispatch_loop-Dispatched env order skus n running [] d = record {
  at = λ r d' h. ground (arith, append-nil d.exits);
}
dispatch_loop-Dispatched env order skus n running (i ∷ is) d = Ensures-bind _ _ _ λ before d₁ h₁.
    Ensures-bind _ _ _ λ id d₂ h₂. Ensures-bind _ _ _ λ u d₃ h₃. Ensures-bind _ _ _ λ sku d₄ h₄.
      Ensures-bind _ _ _ λ event d₅ h₅. Ensures-bind _ _ _ λ v d₆ h₆.
        Ensures-bind _ _ _ λ later d₇ h₇. record {
          at = λ r d' h. ground (
            arith,
            threshold_event-SameRows _ _ _ _ _ _ _ _ _ h₅,
            evaluation-SameRows _ _ _ _ _ _ _ _ _ _ h₆,
            (dispatch_loop-Dispatched env order skus (n + 1)
                  (put i.sku_id (before -ℤ pos i.quantity) running) is d₆).at
                later d₇ h₇,
            append_assoc d.exits (new_dispatch env order i id ∷ []) later.0,
          );
        }

order-SameOrders :
    (o : CommercialOrder) (d d' : Db) (u : Unit {0})
    → add_order o d ≡ ok (u, d')
    → (d'.exits ≡ d.exits)
      × (d'.entries ≡ d.entries)
      × (d'.skus ≡ d.skus)
      × (d'.orders ≡ d.orders ++ o ∷ [])
unfolding add_order
order-SameOrders o d d' u h = ground arith

outbound-SameRows :
    (i t pk : ℕ) (tags : Tags) (d d' : Db) (u : Unit {0})
    → enqueue_inventory_event i t "commercial_order" pk "outbound_order_created" tags d ≡ ok (u, d')
    → SameRows d d'
unfolding enqueue_inventory_event ◌>>=◌
outbound-SameRows i t pk tags d d' u h = ground arith

pub add_order_dispatches-Dispatched :
    (env : Env) (order : CommercialOrder) (items : List DispatchCreate) (skus : Dict Sku) (d : Db)
    → Ensures
        (λ r d'. Dispatched env order (sort_by (λ i. i.dispatch_id) items) d r.0 d')
        (add_order_dispatches env order items skus d)
unfolding add_order_dispatches
add_order_dispatches-Dispatched env order items skus d = Ensures-bind _ _ _ λ running d₁ h₁.
    record {
      at = λ r d' h. ground (
        arith,
        (dispatch_loop-Dispatched env order skus 1 running (sort_by (λ i. i.dispatch_id) items)
              d₁).at
            r d' h,
      );
    }

-- A new order and its exits, in the order of their dispatch ids.
abbrev pub Ordered : Env → CommercialOrderCreate → Db → Placed → Db → Type 0
Ordered env payload d placed d' =
    (placed.0 ≡ new_order env payload placed.0.id)
    × (d'.orders ≡ d.orders ++ placed.0 ∷ [])
    × (d'.exits ≡ d.exits ++ placed.1)
    × (d'.entries ≡ d.entries)
    × (d'.skus ≡ d.skus)
    × Made env placed.0 (sort_by (λ i. i.dispatch_id) payload.dispatches) placed.1

pub order_body-Ordered :
    (env : Env) (payload : CommercialOrderCreate) (skus : Dict Sku) (d : Db)
    → Ensures (λ r d'. Ordered env payload d r.0 d') (order_body env payload skus d)
unfolding order_body
order_body-Ordered env payload skus d = Ensures-bind _ _ _ λ id d₁ h₁. Ensures-bind _ _ _ λ u d₂ h₂.
    Ensures-bind _ _ _ λ placed d₃ h₃. Ensures-bind _ _ _ λ v d₄ h₄. record {
      at = λ r d' h. ground (
        arith,
        order-SameOrders _ _ _ _ h₂,
        (add_order_dispatches-Dispatched env (new_order env payload id) payload.dispatches skus
              d₂).at
            placed d₃ h₃,
        outbound-SameRows _ _ _ _ _ _ _ h₄,
      );
    }

pub append_body-Dispatched :
    (env : Env) (order : CommercialOrder) (items : List DispatchCreate) (skus : Dict Sku) (d : Db)
    → Ensures
        (λ r d'.
          (created : List StockExit) × Dispatched env order
            (sort_by (λ i. i.dispatch_id) items)
            d
            created
            d')
        (append_body env order items skus d)
unfolding append_body
append_body-Dispatched env order items skus d = Ensures-bind _ _ _ λ added d₁ h₁.
    Ensures-bind _ _ _ λ rows d₂ h₂. record {
      at = λ r d' h. (
        added.0,
        ground (arith, (add_order_dispatches-Dispatched env order items skus d).at added d₁ h₁),
      );
    }

-- The units that a list of dispatches takes of one SKU.
abbrev pub demand : ℕ → List DispatchCreate → ℕ
demand k items = sum_where (λ i. i.sku_id == k) (λ i. i.quantity) items

pub exited-Made :
    (env : Env) (order : CommercialOrder) (k : ℕ) (wh : String) (items : List DispatchCreate)
    (rows : List StockExit)
    → Made env order items rows
    → sum_where (exit_at k wh) (λ x. x.quantity) rows
      ≡ (if str_eq order.warehouse wh then demand k items else 0)
unfolding sum_where
exited-Made env order k wh [] [] m = ground arith
exited-Made env order k wh (i ∷ is) [] m = absurd m
exited-Made env order k wh [] (x ∷ xs) m = absurd m
exited-Made env order k wh (i ∷ is) (x ∷ xs) (e, m) =
    ground (arith, exited-Made env order k wh is xs m)
