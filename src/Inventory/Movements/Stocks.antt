-- ===== src/Inventory/Movements/Stocks.antt =====
-- `create_stock_entry` and `create_stock_exit` of services/api/inventory_service.py and the
-- computed stocks.
use ang553_latam_aie_01_fina.Common.{
  Bool, false, ℕ, pos, ◌+ℤ◌, ◌-ℤ◌, ◌≤ℤ◌, String, true, ◌&&◌, ◌≡◌, refl, Option, none, some, [], ◌∷◌,
  arith, if◌then◌else◌, ◌==◌, str_eq, get, Bool-cases, inl, inr, ltb_ℤ, ltb_ℤ-false,
}
use ang553_latam_aie_01_fina.Inventory.Types.{
  CommitEnd, committed, commit_refused, commit_unseen, Sku, StockEntry, StockExit, TelemetryEvent,
  Db, World, Env, StockEntryCreate, StockExitCreate, warehouse_value,
}
use ang553_latam_aie_01_fina.Inventory.Tx.{Result, ok, err, transact, commit_tables, read_back}
use ang553_latam_aie_01_fina.Inventory.Stock.{get_current_stock, lock_skus, get-lock_skus}
use ang553_latam_aie_01_fina.Inventory.Stock.Sums.{
  entered-add, exited-add, stock-eq-sub, sub-add, sub-sub,
}
use ang553_latam_aie_01_fina.Inventory.Movements.{
  entry_body, exit_body, finish, with_events, entry_for, exit_for, create_stock_entry,
  create_stock_exit,
}
use ang553_latam_aie_01_fina.Inventory.Movements.Rows.{
  Entered, Exited, entry_body-Entered, exit_body-Exited,
}

-- The tables after an operation, whose state comes back beside its result.
finish-ok :
    {A : Type 0} (env : Env) (body : Db → Result ((A × Option TelemetryEvent) × Db)) (w w' : World)
    (a : A)
    → finish env (with_events (read_back w.link.read_ok (transact body w))) ≡ (ok a, w')
    → (o : Option TelemetryEvent) × (body w.db ≡ ok ((a, o), w'.db))
unfolding finish transact commit_tables read_back
finish-ok {A} env body w w' a h = go (body w.db) w.link.commit w.link.read_ok refl h
  where
    go :
        (r : Result ((A × Option TelemetryEvent) × Db)) (c : CommitEnd) (b : Bool)
        → body w.db ≡ r
        → finish env (with_events (read_back b (commit_tables c w r))) ≡ (ok a, w')
        → (o : Option TelemetryEvent) × (body w.db ≡ ok ((a, o), w'.db))
    go (err e) c b p q = cc
    go (ok (x, d)) commit_refused b p q = cc
    go (ok (x, d)) commit_unseen b p q = cc
    go (ok (x, d)) committed false p q = cc
    go (ok ((x, none), d)) committed true p q = (none, ground arith)
    go (ok ((x, some event), d)) committed true p q = (some event, ground arith)

-- The world after a movement of `q` units in: one stock rises by `q`, every other stays.
abbrev pub StockAdded : ℕ → String → ℕ → Db → Db → Type 0
StockAdded i at_wh q d d' =
    (k : ℕ) (wh : String)
    → get_current_stock d' k wh
      ≡ get_current_stock d k wh +ℤ pos (if i == k && str_eq at_wh wh then q else 0)

abbrev pub StockTaken : ℕ → String → ℕ → Db → Db → Type 0
StockTaken i at_wh q d d' =
    (k : ℕ) (wh : String)
    → get_current_stock d' k wh
      ≡ get_current_stock d k wh -ℤ pos (if i == k && str_eq at_wh wh then q else 0)

pub Entered-StockAdded :
    (env : Env) (payload : StockEntryCreate) (d d' : Db) (e : StockEntry)
    (o : Option TelemetryEvent)
    → Entered env payload d (e, o) d'
    → StockAdded payload.sku_id (warehouse_value payload.warehouse) payload.quantity d d'
Entered-StockAdded env payload d d' e o (he, hx, _, hr) k wh =
    rw (stock-eq-sub d' k wh, stock-eq-sub d k wh, he, hx, hr, entered-add) (sub-add _ _ _)

pub Exited-StockTaken :
    (env : Env) (payload : StockExitCreate) (d d' : Db) (x : StockExit) (o : Option TelemetryEvent)
    → Exited env payload d (x, o) d'
    → StockTaken payload.sku_id (warehouse_value payload.warehouse) payload.quantity d d'
Exited-StockTaken env payload d d' x o (hx, he, _, hr) k wh =
    rw (stock-eq-sub d' k wh, stock-eq-sub d k wh, he, hx, hr, exited-add) (sub-sub _ _ _)

-- What an accepted movement has passed: its SKU exists and is kept in the command's warehouse, and
-- the transaction's body returned the row.
abbrev pub EntryAccepted : Env → StockEntryCreate → World → StockEntry → World → Type 0
EntryAccepted env payload w e w' =
    (sku : Sku) × (o : Option TelemetryEvent) × (get payload.sku_id
        (lock_skus w.db (payload.sku_id ∷ []))
      ≡ some sku)
    × (str_eq (warehouse_value payload.warehouse) sku.warehouse ≡ true)
    × (entry_body env sku payload
          (get_current_stock w.db payload.sku_id (warehouse_value payload.warehouse)) w.db
        ≡ ok ((e, o), w'.db))

pub create_stock_entry-ok :
    (env : Env) (payload : StockEntryCreate) (w w' : World) (e : StockEntry)
    → create_stock_entry env payload w ≡ (ok e, w')
    → EntryAccepted env payload w e w'
unfolding create_stock_entry
create_stock_entry-ok env payload w w' e h =
    go (get payload.sku_id (lock_skus w.db (payload.sku_id ∷ []))) refl h
  where
    go :
        (o : Option Sku)
        → get payload.sku_id (lock_skus w.db (payload.sku_id ∷ [])) ≡ o
        → entry_for env payload w o ≡ (ok e, w')
        → EntryAccepted env payload w e w'
    go none p q = cc
    go (some sku) p q =
        elim (Bool-cases (str_eq (warehouse_value payload.warehouse) sku.warehouse)) [
          | inl same ↦
              let (o, r) =
                finish-ok env
                  (entry_body env sku payload
                    (get_current_stock w.db payload.sku_id (warehouse_value payload.warehouse)))
                  w w' e (rw same at q) in
              (sku, o, p, same, r)
          | inr other ↦ ground arith
        ]

abbrev pub ExitAccepted : Env → StockExitCreate → World → StockExit → World → Type 0
ExitAccepted env payload w x w' =
    (sku : Sku) × (o : Option TelemetryEvent) × (get payload.sku_id
        (lock_skus w.db (payload.sku_id ∷ []))
      ≡ some sku)
    × (str_eq (warehouse_value payload.warehouse) sku.warehouse ≡ true)
    × (pos payload.quantity ≤ℤ get_current_stock w.db sku.id (warehouse_value payload.warehouse))
    × (exit_body env sku payload (get_current_stock w.db sku.id (warehouse_value payload.warehouse))
          w.db
        ≡ ok ((x, o), w'.db))

pub create_stock_exit-ok :
    (env : Env) (payload : StockExitCreate) (w w' : World) (x : StockExit)
    → create_stock_exit env payload w ≡ (ok x, w')
    → ExitAccepted env payload w x w'
unfolding create_stock_exit
create_stock_exit-ok env payload w w' x h =
    go (get payload.sku_id (lock_skus w.db (payload.sku_id ∷ []))) refl h
  where
    go :
        (o : Option Sku)
        → get payload.sku_id (lock_skus w.db (payload.sku_id ∷ [])) ≡ o
        → exit_for env payload w o ≡ (ok x, w')
        → ExitAccepted env payload w x w'
    go none p q = cc
    go (some sku) p q =
        let available = get_current_stock w.db sku.id (warehouse_value payload.warehouse) in
        elim (Bool-cases (str_eq (warehouse_value payload.warehouse) sku.warehouse)) [
          | inl same ↦ elim (Bool-cases (ltb_ℤ available (pos payload.quantity))) [
            | inl short ↦ ground arith
            | inr enough ↦
                let (o, r) =
                  finish-ok env (exit_body env sku payload available) w w' x
                    (rw (same, enough) at q) in
                (sku, o, p, same, ltb_ℤ-false available (pos payload.quantity) enough, r)
          ]
          | inr other ↦ ground arith
        ]

-- An accepted inbound movement raises the stock of its SKU at its warehouse by the quantity, and
-- changes no other stock.
pub create_stock_entry-StockAdded :
    (env : Env) (payload : StockEntryCreate) (w w' : World) (e : StockEntry)
    → create_stock_entry env payload w ≡ (ok e, w')
    → StockAdded payload.sku_id (warehouse_value payload.warehouse) payload.quantity w.db w'.db
create_stock_entry-StockAdded env payload w w' e h =
    let (sku, o, _, _, body) = create_stock_entry-ok env payload w w' e h in
    Entered-StockAdded env payload w.db w'.db e o
      ((entry_body-Entered env sku payload _ w.db).at (e, o) w'.db body)

-- An accepted outbound movement asks for no more than its SKU has at the warehouse, lowers that stock
-- by the quantity, and changes no other stock.
pub create_stock_exit-StockTaken :
    (env : Env) (payload : StockExitCreate) (w w' : World) (x : StockExit)
    → create_stock_exit env payload w ≡ (ok x, w')
    → (pos payload.quantity
        ≤ℤ get_current_stock w.db payload.sku_id (warehouse_value payload.warehouse))
      × StockTaken payload.sku_id (warehouse_value payload.warehouse) payload.quantity w.db w'.db
create_stock_exit-StockTaken env payload w w' x h =
    let (sku, o, found, _, enough, body) = create_stock_exit-ok env payload w w' x h in
    (
      rw (get-lock_skus _ _ _ _ found) enough,
      Exited-StockTaken env payload w.db w'.db x o
          ((exit_body-Exited env sku payload _ w.db).at (x, o) w'.db body),
    )
