-- ===== src/Jobs/Types.antt =====
-- The rows of services/job_runner/service.py, and the table and indexes of infra/sql/job_runs.sql.
-- Run identifiers, days and instants in UTC are numbers. SQL leaves a table unordered, so the list's
-- order means nothing: every query that returns one row says which.
use ang553_latam_aie_01_fina.Common.{
  ℕ, String, Bool, true, false, not, ◌&&◌, ◌||◌, Option, none, some, List, [], ◌∷◌, str_eq, ◌==◌,
  ltb, any_of, first, change_where, if◌then◌else◌,
}

pub data JobStatus : Type 0 where
  pending processing completed failed : JobStatus

pub record JobRun : Type 0 where
  pub id : ℕ
  pub job_name : String
  pub target_date : ℕ
  pub status : JobStatus
  pub started_at : Option ℕ
  pub finished_at : Option ℕ
  pub error_message : Option String
  pub created_at : ℕ

abbrev pub Table : Type 0
Table = List JobRun

pub data Constraint : Type 0 where
  primary_key processing_constraint target_constraint : Constraint

-- How a statement ends: an integrity error names its constraint, any other failure does not.
pub data Step (A : Type 0) : Type 0 where
  done : A → Step A
  violated : Constraint → Step A
  broken : Step A

abbrev pub run_with : ℕ → JobRun → Bool
run_with id r = r.id == id

abbrev pub is_processing : JobStatus → Bool
is_processing processing = true
is_processing _ = false

abbrev pub is_completed : JobStatus → Bool
is_completed completed = true
is_completed _ = false

abbrev pub is_pending : JobStatus → Bool
is_pending pending = true
is_pending _ = false

-- The rows of the target index: `status IN ('processing', 'completed')`.
abbrev pub is_claim : JobStatus → Bool
is_claim processing = true
is_claim completed = true
is_claim _ = false

-- Two rows under the same key of the index on (job_name) WHERE status = 'processing'.
unfoldable pub same_processing : JobRun → JobRun → Bool
same_processing a b =
    is_processing a.status && is_processing b.status && str_eq a.job_name b.job_name

-- Two rows under the same key of the index on (job_name, target_date).
unfoldable pub same_claim : JobRun → JobRun → Bool
same_claim a b =
    is_claim a.status
    && is_claim b.status
    && str_eq a.job_name b.job_name
    && a.target_date == b.target_date

-- The unique index that a new version of a row would break.
unfoldable pub conflict : JobRun → Table → Option Constraint
conflict new rows =
    if any_of (λ r. not (r.id == new.id) && same_processing new r) rows
    then some processing_constraint
    else if any_of (λ r. not (r.id == new.id) && same_claim new r) rows
    then some target_constraint
    else none

-- `INSERT` of a pending row, which is in neither partial index.
unfoldable pub insert_row : JobRun → Table → Step (Unit {0} × Table)
insert_row new rows =
    if any_of (run_with new.id) rows then violated primary_key else done (tt, new ∷ rows)

-- The row found was changed, unless an index refuses the new version.
unfoldable pub store_row :
    ℕ → (JobRun → JobRun) → JobRun → Option Constraint → Table → Step (Option JobRun × Table)
store_row id set new none rows = done (some new, change_where (run_with id) set rows)
store_row id set new (some c) rows = violated c

unfoldable pub update_found :
    ℕ → (JobRun → Bool) → (JobRun → JobRun) → Option JobRun → Table → Step (Option JobRun × Table)
update_found id cond set none rows = done (none, rows)
update_found id cond set (some r) rows =
    if cond r then store_row id set (set r) (conflict (set r) rows) rows else done (none, rows)

-- `UPDATE ... WHERE id = :id AND ... RETURNING ...`
unfoldable pub update_row :
    ℕ → (JobRun → Bool) → (JobRun → JobRun) → Table → Step (Option JobRun × Table)
update_row id cond set rows = update_found id cond set (first (run_with id) rows) rows

-- The best row that passes a test (`ORDER BY ... LIMIT 1`).
unfoldable pub better : (JobRun → JobRun → Bool) → JobRun → Option JobRun → JobRun
better before r none = r
better before r (some best) = if before best r then best else r

unfoldable pub best_row : (JobRun → JobRun → Bool) → (JobRun → Bool) → Table → Option JobRun
best_row before p [] = none
best_row before p (r ∷ rows) =
    let rest = best_row before p rows in if p r then some (better before r rest) else rest

-- `ORDER BY created_at DESC, id DESC` and `ORDER BY created_at, id`
abbrev pub newer : JobRun → JobRun → Bool
newer a b = ltb b.created_at a.created_at || (a.created_at == b.created_at && ltb b.id a.id)

abbrev pub older : JobRun → JobRun → Bool
older a b = newer b a
