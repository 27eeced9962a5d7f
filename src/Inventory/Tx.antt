-- ===== src/Inventory/Tx.antt =====
-- One database transaction of services/api/inventory_service.py: a step reads and writes the tables
-- or raises. The inserts enforce the constraints that inventory_models.py and inventory_outbox.py
-- declare. `transact` is the `try: ... session.commit() except: session.rollback(); raise` of each
-- operation, and `read_back` the read after it, which is outside the `try`.
use ang553_latam_aie_01_fina.Common.{
  ◌≡◌, refl, ℕ, ◌+◌, pos, String, Bool, true, false, not, ◌&&◌, ◌||◌, Option, none, some, List, [],
  ◌∷◌, ◌++◌, str_eq, ◌==◌, opt_eq, is_some, leb_ℤ, any_of, if◌then◌else◌,
}
use ang553_latam_aie_01_fina.Inventory.Types.{
  StockEntry, StockExit, CommercialOrder, PhysicalCount, ThresholdEvaluation, OutboxRow, Db, World,
  Env, TelemetryEvent, CommitEnd, committed, commit_refused, commit_unseen,
}

-- HTTP errors by status and reason, the integrity error of the service, and what the layers below
-- raise.
pub data Error : Type 0 where
  sku_not_found warehouse_mismatch insufficient_stock : Error
  order_not_found order_mismatch : Error
  content_conflict duplicate_dispatch : Error
  data_integrity : Error
  constraint_violation commit_failed read_failed no_identity invalid_event key_error : Error

pub data Result (A : Type 0) : Type 0 where
  ok : A → Result A
  err : Error → Result A

abbrev pub Tx : Type 0 → Type 0
Tx A = Db → Result (A × Db)

infixl 5 ◌>>=◌ ◌>>◌
unfoldable pub ◌>>=◌ : {A B : Type 0} → Tx A → (A → Tx B) → Tx B
◌>>=◌ m f d = elim (m d) [ err e ↦ err e | ok (a, d') ↦ f a d' ]

abbrev pub ◌>>◌ : {B : Type 0} → Tx (Unit {0}) → Tx B → Tx B
m >> k = m >>= λ _. k

abbrev pub pure : {A : Type 0} → A → Tx A
pure a d = ok (a, d)

abbrev pub raise : {A : Type 0} → Error → Tx A
raise e d = err e

abbrev pub raise_if : Bool → Error → Tx (Unit {0})
raise_if true e d = err e
raise_if false e d = ok (tt, d)

abbrev pub gets : {A : Type 0} → (Db → A) → Tx A
gets f d = ok (f d, d)

abbrev pub or_raise : {A : Type 0} → Option A → Error → Tx A
or_raise none e d = err e
or_raise (some a) e d = ok (a, d)

abbrev pub modify : (Db → Db) → Tx (Unit {0})
modify f d = ok (tt, f d)

-- StockEntry declares no constraint.
unfoldable pub add_entry : StockEntry → Tx (Unit {0})
add_entry e d = ok (tt, record d { entries = d.entries ++ e ∷ [] })

-- The checks of StockExit: only a dispatch belongs to an order, an order's exit has a dispatch id,
-- and dispatch ids are unique (a null is equal to nothing).
abbrev pub same_dispatch : Option ℕ → StockExit → Bool
same_dispatch none x = false
same_dispatch (some k) x = opt_eq x.dispatch_id (some k)

unfoldable pub exit_allowed : StockExit → List StockExit → Bool
exit_allowed x rows =
    (not (is_some x.commercial_order_id) || str_eq x.exit_type "dispatch")
    && (not (is_some x.commercial_order_id) || is_some x.dispatch_id)
    && not (any_of (same_dispatch x.dispatch_id) rows)

unfoldable pub add_exit : StockExit → Tx (Unit {0})
add_exit x d =
    if exit_allowed x d.exits
    then ok (tt, record d { exits = d.exits ++ x ∷ [] })
    else err constraint_violation

unfoldable pub add_order : CommercialOrder → Tx (Unit {0})
add_order o d =
    if any_of (λ r. r.order_id == o.order_id) d.orders
    then err constraint_violation
    else ok (tt, record d { orders = d.orders ++ o ∷ [] })

-- The observed quantity is a number, so only the expected one can break its check.
unfoldable pub add_count : PhysicalCount → Tx (Unit {0})
add_count c d =
    if leb_ℤ (pos 0) c.expected_quantity && not (any_of (λ r. r.count_id == c.count_id) d.counts)
    then ok (tt, record d { counts = d.counts ++ c ∷ [] })
    else err constraint_violation

-- The checks of InventoryThresholdEvaluation, with its unique source.
unfoldable pub evaluation_allowed : ThresholdEvaluation → List ThresholdEvaluation → Bool
evaluation_allowed v rows =
    (str_eq v.source_table "stockentry" || str_eq v.source_table "stockexit")
    && leb_ℤ (pos 0) v.before_quantity
    && leb_ℤ (pos 0) v.after_quantity
    && (if v.crossed then is_some v.event_id else not (is_some v.event_id))
    && not (any_of (λ r. str_eq r.source_table v.source_table && r.source_pk == v.source_pk) rows)

unfoldable pub add_evaluation : ThresholdEvaluation → Tx (Unit {0})
add_evaluation v d =
    if evaluation_allowed v d.evaluations
    then ok (tt, record d { evaluations = d.evaluations ++ v ∷ [] })
    else err constraint_violation

-- The source and type of an event, as the outbox's check pairs them.
unfoldable pub authorized_pair : String → String → Bool
authorized_pair source kind =
    (str_eq source "stockentry" && str_eq kind "inbound_order_created")
    || (str_eq source "commercial_order" && str_eq kind "outbound_order_created")
    || (str_eq source "stockexit" && str_eq kind "stock_threshold_triggered")
    || (str_eq source "inventory_physical_count" && str_eq kind "inventory_discrepancy_detected")

-- The outbox table: its check, its primary key and its unique source event.
unfoldable pub add_outbox : OutboxRow → Tx (Unit {0})
unfolding authorized_pair
add_outbox r d =
    if authorized_pair r.source_table r.event_type
      && not (
          any_of
            (λ x.
              x.event_id == r.event_id
              || (str_eq x.source_table r.source_table
                  && x.source_pk == r.source_pk
                  && str_eq x.event_type r.event_type))
            d.outbox)
    then ok (tt, record d { outbox = d.outbox ++ r ∷ [] })
    else err constraint_violation

-- The commit of the tables that a body left; whatever raised before it rolls them back.
unfoldable pub commit_tables : {A : Type 0} → CommitEnd → World → Result (A × Db) → Result A × World
commit_tables c w (err e) = (err e, w)
commit_tables committed w (ok (a, d)) = (ok a, record w { db = d })
commit_tables commit_refused w (ok (a, d)) = (err commit_failed, w)
commit_tables commit_unseen w (ok (a, d)) = (err commit_failed, record w { db = d })

-- The body of the `try`, then the commit.
unfoldable pub transact : {A : Type 0} → Tx A → World → Result A × World
transact body w = commit_tables w.link.commit w (body w.db)

-- The read that follows the commit.
unfoldable pub read_back : {A : Type 0} → Bool → Result A × World → Result A × World
read_back b (err e, w) = (err e, w)
read_back true (ok a, w) = (ok a, w)
read_back false (ok a, w) = (err read_failed, w)

-- An error of the commit or of what follows it.
abbrev pub is_late : Error → Bool
is_late commit_failed = true
is_late read_failed = true
is_late _ = false

-- The telemetry capture after a commit: its exceptions are logged and swallowed.
unfoldable pub capture : Env → List TelemetryEvent → World → World
capture env [] w = w
capture env (e ∷ es) w =
    if env.capture_ok then record w { captured = w.captured ++ (e ∷ es) } else w

unfoldable pub invalidate_cache : World → World
invalidate_cache w = record w { invalidations = w.invalidations + 1 }

-- `Ensures Q r`: if a step returned, its value and the tables it left are as `Q` says.
pub record Ensures {A : Type 0} (Q : A → Db → Type 0) (r : Result (A × Db)) : Type 0 where
  pub at : (a : A) (d' : Db) → r ≡ ok (a, d') → Q a d'

-- The rest of a block may use what the first step returned.
pub Ensures-bind :
    {A B : Type 0} {Q : B → Db → Type 0} (m : Tx A) (f : A → Tx B) (d : Db)
    → ((a : A) (d' : Db) → m d ≡ ok (a, d') → Ensures Q (f a d'))
    → Ensures Q ((m >>= f) d)
unfolding ◌>>=◌
Ensures-bind {A} {B} {Q} m f d rest = record { at = λ b e h. go (m d) refl b e h }
  where
    go :
        (x : Result (A × Db))
        → m d ≡ x
        → (b : B) (e : Db) → elim x [ err e ↦ err e | ok (a, d') ↦ f a d' ] ≡ ok (b, e)
        → Q b e
    go (err c) p b e q = cc
    go (ok (a, d')) p b e q = (rest a d' p).at b e q

pub bind-err :
    {A B : Type 0} (m : Tx A) (f : A → Tx B) (d : Db) (e : Error)
    → m d ≡ err e
    → (m >>= f) d ≡ err e
unfolding ◌>>=◌
bind-err m f d e h = rw (h, ◌>>=◌)

pub bind-ok :
    {A B : Type 0} (m : Tx A) (f : A → Tx B) (d d' : Db) (a : A)
    → m d ≡ ok (a, d')
    → (m >>= f) d ≡ f a d'
unfolding ◌>>=◌
bind-ok m f d d' a h = rw (h, ◌>>=◌)
