-- ===== src/Inventory/Counts/Rows.antt =====
-- `confirm_inventory_physical_count` of services/api/inventory_service.py when it returns: the rows
-- it writes.
use ang553_latam_aie_01_fina.Common.{
  Bool, false, ℕ, ℤ, pos, String, true, ◌≡◌, refl, Option, none, some, List, [], ◌∷◌, ◌++◌, arith,
  ◌==◌, str_eq, first, Bool-cases, inl, inr, ◌⊎◌, ◌-ℤ◌, Option-cases,
}
use ang553_latam_aie_01_fina.Inventory.Types.{
  CommitEnd, committed, commit_refused, commit_unseen, Sku, PhysicalCount, TelemetryEvent, Db,
  World, Env, PhysicalCountCreate, warehouse_value,
}
use ang553_latam_aie_01_fina.Inventory.Tx.{
  Result, ok, err, ◌>>=◌, Ensures, Ensures-bind, add_count, transact, commit_tables, read_back,
}
use ang553_latam_aie_01_fina.Inventory.Stock.{get_current_stock}
use ang553_latam_aie_01_fina.Inventory.Telemetry.{enqueue_inventory_event, no_client}
use ang553_latam_aie_01_fina.Inventory.Movements.Rows.{SameRows}
use ang553_latam_aie_01_fina.Inventory.Counts.{
  new_count, magnitude, report_discrepancy, count_body, captured_count, count_with_client,
  count_for, same_count, count_or_retry, confirm_inventory_physical_count,
}

report-SameRows :
    (env : Env) (sku : Sku) (client : String) (payload : PhysicalCountCreate) (expected delta : ℤ)
    (id : ℕ) (o : Option String) (d d' : Db) (events : List TelemetryEvent)
    → report_discrepancy env sku client payload expected delta id o d ≡ ok (events, d')
    → SameRows d d'
unfolding report_discrepancy enqueue_inventory_event ◌>>=◌
report-SameRows env sku client payload expected delta id none d d' events h = ground arith
report-SameRows env sku client payload expected delta id (some warehouse) d d' events h =
    ground arith

-- One row is added, that of the command, with the stock that the system expected.
abbrev pub Counted : Env → PhysicalCountCreate → String → ℤ → Db → PhysicalCount → Db → Type 0
Counted env payload client expected d c d' =
    (d'.counts ≡ d.counts ++ c ∷ [])
    × (d'.entries ≡ d.entries)
    × (d'.exits ≡ d.exits)
    × (c ≡ new_count env payload client expected c.id)

pub count_body-Counted :
    (env : Env) (sku : Sku) (client : String) (payload : PhysicalCountCreate) (expected : ℤ)
    (d : Db)
    → Ensures
        (λ r d'. Counted env payload client expected d r.0 d')
        (count_body env sku client payload expected d)
unfolding count_body add_count
count_body-Counted env sku client payload expected d = Ensures-bind _ _ _ λ id d₁ h₁.
    Ensures-bind _ _ _ λ u d₂ h₂. Ensures-bind _ _ _ λ events d₃ h₃.
      elim (Bool-cases (magnitude (pos payload.observed_quantity -ℤ expected) == 0)) [
        | inl level ↦ record { at = λ r d' h. let g = rw level at h₃ in ground arith }
        | inr differs ↦ record {
          at = λ r d' h. ground (arith, report-SameRows _ _ _ _ _ _ _ _ _ _ _ (rw differs at h₃));
        }
      ]

-- An exact retry returns the row that is there and changes nothing; else a new row was written.
abbrev pub CountAccepted : Env → PhysicalCountCreate → World → PhysicalCount → World → Type 0
CountAccepted env payload w c w' =
    ((w' ≡ w)
      × (first (λ r. r.count_id == payload.count_id) w.db.counts ≡ some c)
      × (same_count env payload c ≡ true))
    ⊎ ((first (λ r. r.count_id == payload.count_id) w.db.counts ≡ none)
        × ((client : String) × Counted env payload client
              (get_current_stock w.db payload.sku_id (warehouse_value payload.warehouse)) w.db c
              w'.db))

captured_count-ok :
    (env : Env) (body : Db → Result ((PhysicalCount × List TelemetryEvent) × Db)) (w w' : World)
    (c : PhysicalCount)
    → captured_count env (read_back w.link.read_ok (transact body w)) ≡ (ok c, w')
    → (events : List TelemetryEvent) × (body w.db ≡ ok ((c, events), w'.db))
unfolding captured_count transact commit_tables read_back
captured_count-ok env body w w' c h = go (body w.db) w.link.commit w.link.read_ok refl h
  where
    go :
        (r : Result ((PhysicalCount × List TelemetryEvent) × Db)) (e : CommitEnd) (b : Bool)
        → body w.db ≡ r
        → captured_count env (read_back b (commit_tables e w r)) ≡ (ok c, w')
        → (events : List TelemetryEvent) × (body w.db ≡ ok ((c, events), w'.db))
    go (err x) e b p q = cc
    go (ok (x, d)) commit_refused b p q = cc
    go (ok (x, d)) commit_unseen b p q = cc
    go (ok (x, d)) committed false p q = cc
    go (ok ((x, events), d)) committed true p q = (events, ground arith)

count_with_client-ok :
    (env : Env) (payload : PhysicalCountCreate) (w w' : World) (sku : Sku) (o : Option String)
    (c : PhysicalCount)
    → count_with_client env payload w sku o ≡ (ok c, w')
    → (client : String) × Counted env payload client
        (get_current_stock w.db payload.sku_id (warehouse_value payload.warehouse))
        w.db
        c
        w'.db
unfolding count_with_client
count_with_client-ok env payload w w' sku none c h = cc
count_with_client-ok env payload w w' sku (some client) c h =
    let expected = get_current_stock w.db payload.sku_id (warehouse_value payload.warehouse) in
    elim (Bool-cases (no_client (some client))) [
      | inl missing ↦ let g = rw missing at h in cc
      | inr there ↦
          let (events, r) =
            captured_count-ok env (count_body env sku client payload expected) w w' c
              (rw there at h) in
          (client, (count_body-Counted env sku client payload expected w.db).at (c, events) w'.db r)
    ]

count_for-ok :
    (env : Env) (payload : PhysicalCountCreate) (w w' : World) (o : Option Sku) (c : PhysicalCount)
    → count_for env payload w o ≡ (ok c, w')
    → (client : String) × Counted env payload client
        (get_current_stock w.db payload.sku_id (warehouse_value payload.warehouse))
        w.db
        c
        w'.db
unfolding count_for
count_for-ok env payload w w' none c h = cc
count_for-ok env payload w w' (some sku) c h =
    elim (Bool-cases (str_eq sku.warehouse (warehouse_value payload.warehouse))) [
      | inl same ↦ count_with_client-ok env payload w w' sku sku.client_id c (rw same at h)
      | inr other ↦ let g = rw other at h in cc
    ]

pub confirm-CountAccepted :
    (env : Env) (payload : PhysicalCountCreate) (w w' : World) (c : PhysicalCount)
    → confirm_inventory_physical_count env payload w ≡ (ok c, w')
    → CountAccepted env payload w c w'
unfolding confirm_inventory_physical_count count_or_retry
confirm-CountAccepted env payload w w' c h =
    elim (Option-cases (first (λ r. r.count_id == payload.count_id) w.db.counts)) [
      | inl absent ↦
          inr (absent, count_for-ok env payload w w' _ c (rw (absent, count_or_retry) at h))
      | inr (old, found) ↦ inl (ground arith)
    ]
