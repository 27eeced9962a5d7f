-- ===== src/Inventory/Movements/Rows.antt =====
-- `create_stock_entry` and `create_stock_exit` of services/api/inventory_service.py: the rows they
-- write.
use ang553_latam_aie_01_fina.Common.{ℕ, ℤ, String, ◌≡◌, Option, none, some, [], ◌∷◌, ◌++◌, arith}
use ang553_latam_aie_01_fina.Inventory.Types.{
  Sku, StockEntry, StockExit, TelemetryEvent, Db, Env, StockEntryCreate, StockExitCreate,
}
use ang553_latam_aie_01_fina.Inventory.Tx.{ok, add_entry, add_exit, ◌>>=◌, Ensures, Ensures-bind}
use ang553_latam_aie_01_fina.Inventory.Telemetry.{threshold_event, record_threshold_evaluation}
use ang553_latam_aie_01_fina.Inventory.Movements.{
  new_entry, new_exit, enqueue_inbound, entry_body, exit_body,
}

-- Two states of the tables with the same SKUs, movements, orders and counts.
pub record SameRows (d d' : Db) : Type 0 where
  pub skus : d'.skus ≡ d.skus
  pub entries : d'.entries ≡ d.entries
  pub exits : d'.exits ≡ d.exits
  pub orders : d'.orders ≡ d.orders
  pub counts : d'.counts ≡ d.counts

pub threshold_event-SameRows :
    (env : Env) (sku : Sku) (i pk : ℕ) (before after : ℤ) (d d' : Db) (o : Option TelemetryEvent)
    → threshold_event env sku i pk before after d ≡ ok (o, d')
    → SameRows d d'
unfolding threshold_event ◌>>=◌
threshold_event-SameRows env sku i pk before after d d' o h = ground arith

pub evaluation-SameRows :
    (env : Env) (source : String) (pk : ℕ) (sku : Sku) (before after : ℤ)
    (o : Option TelemetryEvent) (d d' : Db) (u : Unit {0})
    → record_threshold_evaluation env source pk sku before after o d ≡ ok (u, d')
    → SameRows d d'
unfolding record_threshold_evaluation
evaluation-SameRows env source pk sku before after o d d' u h = ground arith

pub inbound-SameRows :
    (env : Env) (sku : Sku) (e : StockEntry) (client warehouse : Option String) (d d' : Db)
    (o : Option TelemetryEvent)
    → enqueue_inbound env sku e client warehouse d ≡ ok (o, d')
    → SameRows d d'
unfolding enqueue_inbound ◌>>=◌
inbound-SameRows env sku e none warehouse d d' o h = ground arith
inbound-SameRows env sku e (some client) none d d' o h = ground arith
inbound-SameRows env sku e (some client) (some warehouse) d d' o h = ground arith

-- The rows after an inbound movement, which is new and of the command.
abbrev pub Entered : Env → StockEntryCreate → Db → StockEntry × Option TelemetryEvent → Db → Type 0
Entered env payload d r d' =
    (d'.entries ≡ d.entries ++ r.0 ∷ [])
    × (d'.exits ≡ d.exits)
    × (d'.skus ≡ d.skus)
    × (r.0 ≡ new_entry env payload r.0.id)

pub entry_body-Entered :
    (env : Env) (sku : Sku) (payload : StockEntryCreate) (before : ℤ) (d : Db)
    → Ensures (Entered env payload d) (entry_body env sku payload before d)
unfolding entry_body add_entry
entry_body-Entered env sku payload before d = Ensures-bind _ _ _ λ id d₁ h₁.
    Ensures-bind _ _ _ λ u d₂ h₂. Ensures-bind _ _ _ λ event d₃ h₃. Ensures-bind _ _ _ λ v d₄ h₄.
      record {
        at = λ r d' h. ground (
          arith,
          inbound-SameRows _ _ _ _ _ _ _ _ h₃,
          evaluation-SameRows _ _ _ _ _ _ _ _ _ _ h₄,
        );
      }

abbrev pub Exited : Env → StockExitCreate → Db → StockExit × Option TelemetryEvent → Db → Type 0
Exited env payload d r d' =
    (d'.exits ≡ d.exits ++ r.0 ∷ [])
    × (d'.entries ≡ d.entries)
    × (d'.skus ≡ d.skus)
    × (r.0 ≡ new_exit env payload r.0.id)

pub exit_body-Exited :
    (env : Env) (sku : Sku) (payload : StockExitCreate) (available : ℤ) (d : Db)
    → Ensures (Exited env payload d) (exit_body env sku payload available d)
unfolding exit_body add_exit
exit_body-Exited env sku payload available d = Ensures-bind _ _ _ λ id d₁ h₁.
    Ensures-bind _ _ _ λ u d₂ h₂. Ensures-bind _ _ _ λ event d₃ h₃. Ensures-bind _ _ _ λ v d₄ h₄.
      record {
        at = λ r d' h. ground (
          arith,
          threshold_event-SameRows _ _ _ _ _ _ _ _ _ h₃,
          evaluation-SameRows _ _ _ _ _ _ _ _ _ _ h₄,
        );
      }
