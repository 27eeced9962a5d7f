-- ===== src/Coordinator/Staging.antt =====
-- The staging of a week in pipelines/publication.py, for a batch that its validation accepts. A decimal is
-- its coefficient over a power of ten; counters are natural numbers.
use ang553_latam_aie_01_fina.Common.{
  ℕ, suc, ◌*◌, ◌^◌, String, Bool, true, false, not, ◌&&◌, Option, none, some, List, [], ◌∷◌, str_eq,
  ◌==◌, any_of, first, if◌then◌else◌,
}

pub record Decimal : Type 0 where
  pub coefficient : ℕ
  pub scale : ℕ

abbrev pub decimal_eq : Decimal → Decimal → Bool
decimal_eq a b = a.coefficient * 10 ^ b.scale == b.coefficient * 10 ^ a.scale

pub record WeeklyAggregate : Type 0 where
  pub warehouse : String
  pub client_id : String
  pub week_start : ℕ
  pub inbound_units_count : ℕ
  pub outbound_orders_count : ℕ
  pub stockout_events_count : ℕ
  pub discrepancy_events_count : ℕ
  pub discrepancy_rate : Decimal

-- The rows of the destination, whose key is (warehouse, client_id, week_start).
abbrev pub Table : Type 0
Table = List WeeklyAggregate

unfoldable pub same_key : WeeklyAggregate → WeeklyAggregate → Bool
same_key a b =
    str_eq a.warehouse b.warehouse && str_eq a.client_id b.client_id && a.week_start == b.week_start

unfoldable pub same_kpis : WeeklyAggregate → WeeklyAggregate → Bool
same_kpis a b =
    a.inbound_units_count == b.inbound_units_count
    && a.outbound_orders_count == b.outbound_orders_count
    && a.stockout_events_count == b.stockout_events_count
    && a.discrepancy_events_count == b.discrepancy_events_count
    && decimal_eq a.discrepancy_rate b.discrepancy_rate

-- A published key of the week that the batch does not have.
unfoldable pub has_disappeared : ℕ → List WeeklyAggregate → Table → Bool
has_disappeared week batch rows =
    any_of (λ (r : WeeklyAggregate). r.week_start == week && not (any_of (same_key r) batch)) rows

-- `ON CONFLICT ... DO UPDATE SET ... WHERE ... IS DISTINCT FROM ...`, for one row.
unfoldable pub upsert_row : WeeklyAggregate → Table → Table
upsert_row a [] = a ∷ []
upsert_row a (r ∷ rows) =
    let rest = upsert_row a rows in
    if same_key a r then (if same_kpis a r then r ∷ rows else a ∷ rows) else r ∷ rest

unfoldable pub upsert : List WeeklyAggregate → Table → Table
upsert [] rows = rows
upsert (a ∷ batch) rows = upsert batch (upsert_row a rows)

pub record Counts : Type 0 where
  pub inserted : ℕ
  pub updated : ℕ
  pub unchanged : ℕ

-- `_counts_from_snapshot`, over the rows that were there before.
unfoldable pub counted : WeeklyAggregate → Option WeeklyAggregate → Counts → Counts
counted a none n = record n { inserted = suc n.inserted }
counted a (some r) n =
    if same_kpis a r
    then record n { unchanged = suc n.unchanged }
    else record n { updated = suc n.updated }

unfoldable pub counts_from_snapshot : List WeeklyAggregate → Table → Counts
counts_from_snapshot [] rows = record { inserted = 0; updated = 0; unchanged = 0 }
counts_from_snapshot (a ∷ batch) rows =
    counted a (first (same_key a) rows) (counts_from_snapshot batch rows)

-- What the two statements of the staging meet: the connection is no open transaction of PostgreSQL, a
-- statement fails, with the code of `_database_issue` and its message, or all is well.
pub data StageFault : Type 0 where
  no_fault : StageFault
  unusable select_fails upsert_fails : String → String → StageFault

-- `PublicationOutcome`: the staged table, or the codes and the first message with what is known of the
-- rollback; `blocked` is its status.
pub data Staged : Type 0 where
  staged : Counts → Table → Staged
  not_staged : Bool → String → String → Bool → Staged

abbrev pub is_connection_error : String → Bool
is_connection_error code = str_eq code "connection_error"

unfoldable pub stage_rows : ℕ → List WeeklyAggregate → Table → Staged
stage_rows week batch rows =
    if has_disappeared week batch rows
    then not_staged true "reconciliation_conflict"
        "Published keys are absent from the calculated batch; automatic deletion is not allowed"
        false
    else staged (counts_from_snapshot batch rows) (upsert batch rows)

-- `_stage_weekly_upsert`; the flag says whether a rollback after a failed statement is observed.
unfoldable pub stage_weekly_upsert : StageFault → Bool → ℕ → List WeeklyAggregate → Table → Staged
stage_weekly_upsert (unusable code message) rolled_back week batch rows =
    not_staged (not (is_connection_error code)) code message false
stage_weekly_upsert (select_fails code message) rolled_back week batch rows =
    not_staged (not (is_connection_error code)) code message rolled_back
stage_weekly_upsert (upsert_fails code message) rolled_back week batch rows =
    if has_disappeared week batch rows
    then stage_rows week batch rows
    else not_staged false code message rolled_back
stage_weekly_upsert no_fault rolled_back week batch rows = stage_rows week batch rows
