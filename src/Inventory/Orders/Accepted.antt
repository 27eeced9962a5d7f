-- ===== src/Inventory/Orders/Accepted.antt =====
-- The two order operations of services/api/inventory_service.py when they return: what they have
-- passed, and the rows they left.
use ang553_latam_aie_01_fina.Common.{
  Bool, sym, ◌∙◌, ℕ, true, String, Option, ap, ==_iff, str_eq_iff, opt_str_eq, all_of, All, false,
  ◌≡◌, refl, ◌⊎◌, inl, inr, none, some, List, [], ◌∷◌, map, arith, ◌==◌, opt_eq, first, any_of,
  Dict, sort_by, Bool-cases, Option-cases,
}
use ang553_latam_aie_01_fina.Inventory.Types.{
  CommitEnd, committed, commit_refused, commit_unseen, Sku, StockExit, CommercialOrder,
  TelemetryEvent, Db, World, Env, DispatchCreate, CommercialOrderCreate, DispatchAppend,
  warehouse_value,
}
use ang553_latam_aie_01_fina.Inventory.Tx.{Result, ok, err, transact, commit_tables, read_back}
use ang553_latam_aie_01_fina.Inventory.Movements.{finish}
use ang553_latam_aie_01_fina.Inventory.Orders.{
  Placed, dispatch_matches, order_dispatches, same_dispatch_ids, persisted_matches, has_repeat,
  order_body, append_body, validate_order_skus, placed_with, fresh_order, retry_order,
  order_or_retry, create_commercial_order, new_items, appended_with, append_new, append_to,
  append_commercial_order_dispatches,
}
use ang553_latam_aie_01_fina.Inventory.Orders.Rows.{
  Ordered, Dispatched, order_body-Ordered, append_body-Dispatched,
}

read_back-ok :
    {A : Type 0} (b : Bool) (x : Result A × World) (a : A) (w' : World)
    → read_back b x ≡ (ok a, w')
    → x ≡ (ok a, w')
unfolding read_back
read_back-ok b (err e, w) a w' h = h
read_back-ok true (ok x, w) a w' h = h
read_back-ok false (ok x, w) a w' h = cc

finish_events-ok :
    {A : Type 0} (env : Env) (body : Db → Result ((A × List TelemetryEvent) × Db)) (b : Bool)
    (w w' : World) (a : A)
    → finish env (read_back b (transact body w)) ≡ (ok a, w')
    → (events : List TelemetryEvent) × (body w.db ≡ ok ((a, events), w'.db))
unfolding finish transact commit_tables read_back
finish_events-ok {A} env body b w w' a h = go (body w.db) w.link.commit b refl h
  where
    go :
        (r : Result ((A × List TelemetryEvent) × Db)) (c : CommitEnd) (b : Bool)
        → body w.db ≡ r
        → finish env (read_back b (commit_tables c w r)) ≡ (ok a, w')
        → (events : List TelemetryEvent) × (body w.db ≡ ok ((a, events), w'.db))
    go (err e) c b p q = cc
    go (ok (x, d)) commit_refused b p q = cc
    go (ok (x, d)) commit_unseen b p q = cc
    go (ok (x, d)) committed false p q = cc
    go (ok ((x, []), d)) committed true p q = ([], ground arith)
    go (ok ((x, event ∷ events), d)) committed true p q = (event ∷ events, ground arith)

unread :
    {A : Type 0} (env : Env) (body : Db → Result ((A × List TelemetryEvent) × Db)) (w : World)
    → finish env (transact body w) ≡ finish env (read_back true (transact body w))
unfolding finish read_back
unread {A} env body w = go (transact body w)
  where
    go :
        (x : Result (A × List TelemetryEvent) × World)
        → finish env x ≡ finish env (read_back true x)
    go (err e, v) = refl
    go (ok y, v) = refl

-- An exit under the item's dispatch id holds what the item asks for, for the order with this key.
pub record Persisted (rows : List StockExit) (order_pk : ℕ) (item : DispatchCreate) : Type 0 where
  pub exit_record : StockExit
  pub found : first (λ x. opt_eq x.dispatch_id (some item.dispatch_id)) rows ≡ some exit_record
  pub order : exit_record.commercial_order_id ≡ some order_pk
  pub sku_id : exit_record.sku_id ≡ item.sku_id
  pub quantity : exit_record.quantity ≡ item.quantity
  pub tracking_number : exit_record.tracking_number ≡ some item.tracking_number

opt_eq-same : (o : Option ℕ) (k : ℕ) → opt_eq o (some k) ≡ true → o ≡ some k
opt_eq-same none k h = absurd (ground (arith, h))
opt_eq-same (some j) k h = ap (λ i. some i) ((==_iff j k).0 h)

opt_str_eq-same : (o : Option String) (t : String) → opt_str_eq o (some t) ≡ true → o ≡ some t
opt_str_eq-same none t h = absurd (ground (arith, h))
opt_str_eq-same (some u) t h = ap (λ v. some v) ((str_eq_iff u t).0 h)

matching-Persisted :
    (rows : List StockExit) (pk : ℕ) (item : DispatchCreate) (x : StockExit)
    → first (λ y. opt_eq y.dispatch_id (some item.dispatch_id)) rows ≡ some x
    → dispatch_matches x item pk ≡ true
    → Persisted rows pk item
unfolding dispatch_matches
matching-Persisted rows pk item x found h = record {
  exit_record = x;
  found = found;
  order = opt_eq-same x.commercial_order_id pk (ground (arith, h));
  sku_id = (==_iff x.sku_id item.sku_id).0 (ground (arith, h));
  quantity = (==_iff x.quantity item.quantity).0 (ground (arith, h));
  tracking_number = opt_str_eq-same x.tracking_number item.tracking_number (ground (arith, h));
}

persisted_matches-Persisted :
    (rows : List StockExit) (pk : ℕ) (item : DispatchCreate)
    → persisted_matches rows pk item ≡ true
    → Persisted rows pk item
unfolding persisted_matches
persisted_matches-Persisted rows pk item h =
    elim (Option-cases (first (λ y. opt_eq y.dispatch_id (some item.dispatch_id)) rows)) [
      | inl absent ↦ let k = rw (absent, persisted_matches) at h in absurd (ground (arith, k))
      | inr (x, found) ↦
          matching-Persisted rows pk item x found (rw (found, persisted_matches) at h)
    ]

all_matching-Persisted :
    (rows : List StockExit) (pk : ℕ) (items : List DispatchCreate)
    → all_of (persisted_matches rows pk) items ≡ true
    → All (Persisted rows pk) items
unfolding all_of
all_matching-Persisted rows pk [] h = tt
all_matching-Persisted rows pk (item ∷ items) h = (
  persisted_matches-Persisted rows pk item (ground (arith, h)),
  all_matching-Persisted rows pk items (ground (arith, h)),
)

new_items-Persisted :
    (rows : List StockExit) (pk : ℕ) (items : List DispatchCreate)
    → new_items rows pk items ≡ ok []
    → All (Persisted rows pk) items
unfolding new_items
new_items-Persisted rows pk [] h = tt
new_items-Persisted rows pk (item ∷ items) h =
    elim (Option-cases (first (λ y. opt_eq y.dispatch_id (some item.dispatch_id)) rows)) [
      | inl absent ↦ let k = rw (absent, new_items) at h in absurd (no_cons _ k)
      | inr (x, found) ↦ elim (Bool-cases (dispatch_matches x item pk)) [
        | inr differs ↦ let k = rw (found, differs, new_items) at h in cc
        | inl same ↦ (
          matching-Persisted rows pk item x found same,
          new_items-Persisted rows pk items (rw (found, same, new_items) at h),
        )
      ]
    ]
  where
    no_cons :
        (r : Result (List DispatchCreate))
        → ¬ (elim r [ err e ↦ err e | ok l ↦ ok (item ∷ l) ] ≡ ok [])
    no_cons (err e) k = cc
    no_cons (ok l) k = ground (arith, k)

-- The command's order was placed before, with the same client, warehouse and dispatches, and is the answer.
pub record PlacedBefore (payload : CommercialOrderCreate) (w : World) (placed : Placed)
    : Type 0 where
  pub existing : CommercialOrder
  pub found : first (λ o. o.order_id == payload.order_id) w.db.orders ≡ some existing
  pub client_id : existing.client_id ≡ payload.client_id
  pub warehouse : existing.warehouse ≡ warehouse_value payload.warehouse
  pub same_ids : same_dispatch_ids (order_dispatches w.db existing.id) payload.dispatches ≡ true
  pub dispatches :
      All (Persisted (order_dispatches w.db existing.id) existing.id) payload.dispatches
  pub answer : placed ≡ (existing, order_dispatches w.db existing.id)

-- A retry, which changes nothing, or a new order whose command was validated.
abbrev pub OrderFresh : Env → CommercialOrderCreate → World → Placed → World → Type 0
OrderFresh env payload w placed w' =
    (skus : Dict Sku) × (validate_order_skus w.db payload.dispatches payload.client_id
        (warehouse_value payload.warehouse)
      ≡ ok skus)
    × (first (λ o. o.order_id == payload.order_id) w.db.orders ≡ none)
    × (any_of
          (λ x.
            any_of (λ k. opt_eq x.dispatch_id (some k))
              (map (λ i. i.dispatch_id) payload.dispatches))
          w.db.exits
        ≡ false)
    × Ordered env payload w.db placed w'.db

abbrev pub OrderAccepted : Env → CommercialOrderCreate → World → Placed → World → Type 0
OrderAccepted env payload w placed w' =
    (has_repeat (map (λ i. i.dispatch_id) payload.dispatches) ≡ false)
    × (((w' ≡ w) × PlacedBefore payload w placed) ⊎ OrderFresh env payload w placed w')

placed_with-ok :
    (env : Env) (payload : CommercialOrderCreate) (w w' : World) (r : Result (Dict Sku))
    (placed : Placed)
    → placed_with env payload w r ≡ (ok placed, w')
    → (skus : Dict Sku) × (r ≡ ok skus) × Ordered env payload w.db placed w'.db
unfolding placed_with
placed_with-ok env payload w w' (err e) placed h = cc
placed_with-ok env payload w w' (ok skus) placed h =
    let (events, r) =
      finish_events-ok env (order_body env payload skus) w.link.read_ok w w' placed h in
    (skus, refl, (order_body-Ordered env payload skus w.db).at (placed, events) w'.db r)

fresh_order-ok :
    (env : Env) (payload : CommercialOrderCreate) (w w' : World) (placed : Placed)
    → first (λ o. o.order_id == payload.order_id) w.db.orders ≡ none
    → fresh_order env payload w ≡ (ok placed, w')
    → OrderFresh env payload w placed w'
unfolding fresh_order
fresh_order-ok env payload w w' placed absent h =
    elim (Bool-cases (
      any_of
        (λ x.
          any_of (λ k. opt_eq x.dispatch_id (some k)) (map (λ i. i.dispatch_id) payload.dispatches))
        w.db.exits)) [
          | inl taken ↦ let g = rw taken at h in cc
          | inr free ↦
              let (skus, valid, rows) = placed_with-ok env payload w w' _ placed (rw free at h) in
              (skus, valid, absent, free, rows)
        ]

retry_order-PlacedBefore :
    (payload : CommercialOrderCreate) (w w' : World) (o : CommercialOrder) (placed : Placed)
    → first (λ r. r.order_id == payload.order_id) w.db.orders ≡ some o
    → retry_order payload w o ≡ (ok placed, w')
    → (w' ≡ w) × PlacedBefore payload w placed
unfolding retry_order
retry_order-PlacedBefore payload w w' o placed found h = (
  ground arith,
  record {
    existing = o;
    found = found;
    client_id = (str_eq_iff o.client_id payload.client_id).0 (ground (arith, h));
    warehouse = (str_eq_iff o.warehouse (warehouse_value payload.warehouse)).0 (ground (arith, h));
    same_ids = ground (arith, h);
    dispatches = all_matching-Persisted _ o.id payload.dispatches (ground (arith, h));
    answer = ground (arith, h);
  },
)

pub create_commercial_order-OrderAccepted :
    (env : Env) (payload : CommercialOrderCreate) (w w' : World) (placed : Placed)
    → create_commercial_order env payload w ≡ (ok placed, w')
    → OrderAccepted env payload w placed w'
unfolding create_commercial_order order_or_retry
create_commercial_order-OrderAccepted env payload w w' placed h =
    elim (Bool-cases (has_repeat (map (λ i. i.dispatch_id) payload.dispatches))) [
      | inl repeats ↦ let g = rw repeats at h in cc
      | inr distinct ↦
          let g = rw distinct at h in
          (
            distinct,
            elim (Option-cases (first (λ o. o.order_id == payload.order_id) w.db.orders)) [
              | inl absent ↦
                  inr (
                    fresh_order-ok env payload w w' placed absent
                      (rw (absent, order_or_retry) at g))
              | inr (o, found) ↦ inl (
                  retry_order-PlacedBefore payload w w' o placed found
                    (rw (found, order_or_retry) at g))
            ],
          )
    ]

-- Every item of the command is an exit of the stored order already.
pub record AppendedBefore (payload : DispatchAppend) (w : World) : Type 0 where
  pub order : CommercialOrder
  pub found : first (λ o. o.order_id == payload.order_id) w.db.orders ≡ some order
  pub dispatches : All (Persisted w.db.exits order.id) payload.dispatches

-- An append that changes nothing, or one whose new items were validated and are new exits.
abbrev pub AppendFresh : Env → DispatchAppend → World → Placed → World → Type 0
AppendFresh env payload w placed w' =
    (order : CommercialOrder) × (items : List DispatchCreate) × (skus : Dict Sku) × (first
        (λ o. o.order_id == payload.order_id) w.db.orders
      ≡ some order)
    × (new_items w.db.exits order.id payload.dispatches ≡ ok items)
    × (validate_order_skus w.db items order.client_id order.warehouse ≡ ok skus)
    × ((created : List StockExit) × Dispatched env order (sort_by (λ i. i.dispatch_id) items) w.db
          created w'.db)

append_new-ok :
    (env : Env) (order : CommercialOrder) (w w' : World) (r : Result (List DispatchCreate))
    (placed : Placed)
    → append_new env order w r ≡ (ok placed, w')
    → ((w' ≡ w) × (r ≡ ok []))
      ⊎ ((items : List DispatchCreate) × (skus : Dict Sku) × (r ≡ ok items)
          × (validate_order_skus w.db items order.client_id order.warehouse ≡ ok skus)
          × ((created : List StockExit) × Dispatched env order
                (sort_by (λ i. i.dispatch_id) items)
                w.db
                created
                w'.db))
unfolding append_new appended_with
append_new-ok env order w w' (err e) placed h = cc
append_new-ok env order w w' (ok []) placed h = inl (ground arith, refl)
append_new-ok env order w w' (ok (i ∷ is)) placed h =
    go (validate_order_skus w.db (i ∷ is) order.client_id order.warehouse) refl h
  where
    go :
        (r : Result (Dict Sku))
        → validate_order_skus w.db (i ∷ is) order.client_id order.warehouse ≡ r
        → appended_with env order (i ∷ is) w r ≡ (ok placed, w')
        → ((w' ≡ w) × (ok (i ∷ is) ≡ ok []))
          ⊎ ((items : List DispatchCreate) × (skus : Dict Sku) × (ok (i ∷ is) ≡ ok items)
              × (validate_order_skus w.db items order.client_id order.warehouse ≡ ok skus)
              × ((created : List StockExit) × Dispatched env order
                    (sort_by (λ j. j.dispatch_id) items)
                    w.db
                    created
                    w'.db))
    go (err e) p q = cc
    go (ok skus) p q =
        let (events, r) =
          finish_events-ok env (append_body env order (i ∷ is) skus) true w w' placed (
            sym (unread env (append_body env order (i ∷ is) skus) w)
            ∙ read_back-ok w.link.read_ok _ placed w' q) in
        inr (
          i ∷ is,
          skus,
          refl,
          p,
          (append_body-Dispatched env order (i ∷ is) skus w.db).at (placed, events) w'.db r,
        )

pub append-Accepted :
    (env : Env) (payload : DispatchAppend) (w w' : World) (placed : Placed)
    → append_commercial_order_dispatches env payload w ≡ (ok placed, w')
    → ((w' ≡ w) × AppendedBefore payload w) ⊎ AppendFresh env payload w placed w'
unfolding append_commercial_order_dispatches append_to
append-Accepted env payload w w' placed h =
    elim (Bool-cases (has_repeat (map (λ i. i.dispatch_id) payload.dispatches))) [
      | inl repeats ↦ let g = rw repeats at h in cc
      | inr distinct ↦
          let g = rw distinct at h in
          elim (Option-cases (first (λ o. o.order_id == payload.order_id) w.db.orders)) [
            | inl absent ↦ let k = rw (absent, append_to) at g in cc
            | inr (order, found) ↦
                elim (append_new-ok env order w w' _ placed (rw (found, append_to) at g)) [
                  | inl (same, none_new) ↦ inl (
                    same,
                    record {
                      order = order;
                      found = found;
                      dispatches =
                          new_items-Persisted w.db.exits order.id payload.dispatches none_new;
                    },
                  )
                  | inr (items, skus, new, valid, rows) ↦
                      inr (order, items, skus, found, new, valid, rows)
                ]
          ]
    ]
