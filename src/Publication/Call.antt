-- ===== src/Publication/Call.antt =====
-- Calls on the caller's open transaction (pipelines/run_store.py). What a call wrote before it raised
-- stays in the transaction, since only the caller rolls back; so the tables come back beside an error
-- too.
use ang553_latam_aie_01_fina.Common.{
  ℕ, ◌+◌, ◌%◌, ℤ, pos, Bool, true, false, not, Option, none, some, ◌≡◌, refl, ◌==◌, ltb_ℤ, first,
  if◌then◌else◌,
}
pub use ang553_latam_aie_01_fina.Common.{change_where}
use ang553_latam_aie_01_fina.Publication.Types.{
  Store, Connection, Fault, uncertain_fault, integrity_fault, other_fault, RunRecord, WeekControl,
}

-- The codes of RunStoreError and ConcurrencyError, with the fault behind a `write_error`, and the
-- IntegrityError that the run store lets through.
pub data Code : Type 0 where
  transaction_required autocommit_forbidden postgresql_required : Code
  invalid_week_start invalid_text secret_rejected invalid_timestamp invalid_count : Code
  invalid_fencing_token duplicate_run_id status_conflict invalid_status invalid_transition : Code
  finished_at_required finished_at_forbidden block_reason_required error_code_required : Code
  invalid_commit_result run_not_found control_not_found week_mismatch : Code
  lease_authority_forbidden : Code
  write_error : Fault → Code
  raw_integrity : Code
  invalid_lease_ttl transaction_uncertain query_failed integrity_error success_forbidden : Code

pub data Result (A : Type 0) : Type 0 where
  ok : A → Result A
  err : Code → Result A

abbrev pub Call : Type 0 → Type 0
Call A = Store → Result A × Store

abbrev pub continue : {A B : Type 0} → Result A → (A → Call B) → Call B
continue (ok a) f s = f a s
continue (err c) f s = (err c, s)

infixl 5 ◌>>=◌ ◌>>◌
unfoldable pub ◌>>=◌ : {A B : Type 0} → Call A → (A → Call B) → Call B
◌>>=◌ m f s = let (r, s') = m s in continue r f s'

abbrev pub ◌>>◌ : {B : Type 0} → Call (Unit {0}) → Call B → Call B
m >> k = m >>= λ _. k

abbrev pub pure : {A : Type 0} → A → Call A
pure a s = (ok a, s)

abbrev pub raise : {A : Type 0} → Code → Call A
raise c s = (err c, s)

abbrev pub raise_if : Bool → Code → Call (Unit {0})
raise_if true c s = (err c, s)
raise_if false c s = (ok tt, s)

abbrev pub or_raise : {A : Type 0} → Option A → Code → Call A
or_raise none c s = (err c, s)
or_raise (some a) c s = (ok a, s)

abbrev pub lift : {A : Type 0} → Result A → Call A
lift r s = (r, s)

-- `_require_transaction`
unfoldable pub require_transaction : Connection → Call (Unit {0})
require_transaction c s =
    if not c.can_execute
    then (err transaction_required, s)
    else if c.autocommit
    then (err autocommit_forbidden, s)
    else if not c.postgresql
    then (err postgresql_required, s)
    else if not c.in_transaction
    then (err transaction_required, s)
    else (ok tt, s)

-- The n-th statement of a call reaches the server, or raises (`_rows` of run_store.py).
unfoldable pub execute : Connection → ℕ → Call (Unit {0})
execute c n s = elim (c.fault n) [
  | none ↦ (ok tt, s)
  | some f ↦ elim f [
    | integrity_fault ↦ (err raw_integrity, s)
    | uncertain_fault ↦ (err (write_error uncertain_fault), s)
    | other_fault ↦ (err (write_error other_fault), s)
  ]
]

-- A `date` that is a Monday: `iso_week_bounds` refuses any other.
unfoldable pub week : ℕ → Call ℕ
week day s = if (day + 6) % 7 == 0 then (ok day, s) else (err invalid_week_start, s)

abbrev pub postgres_integer_max : ℤ
postgres_integer_max = pos 2147483647

-- `_count`
unfoldable pub count : Option ℤ → Call (Option ℤ)
count none s = (ok none, s)
count (some n) s =
    if ltb_ℤ n (pos 0)
    then (err invalid_count, s)
    else if ltb_ℤ postgres_integer_max n
    then (err invalid_count, s)
    else (ok (some n), s)

abbrev pub run_with : ℕ → RunRecord → Bool
run_with id r = r.run_id == id

abbrev pub control_of : ℕ → WeekControl → Bool
control_of day c = c.week_start == day

-- `SELECT ... WHERE run_id = :run_id`, `WHERE week_start = :week_start`: primary keys.
abbrev pub find_run : ℕ → Store → Option RunRecord
find_run id s = first (run_with id) s.runs

abbrev pub find_control : ℕ → Store → Option WeekControl
find_control day s = first (control_of day) s.controls

unfoldable pub read_run : ℕ → Call (Option RunRecord)
read_run id s = (ok (find_run id s), s)

unfoldable pub read_control : ℕ → Call (Option WeekControl)
read_control day s = (ok (find_control day s), s)

-- `UPDATE runs SET ... WHERE run_id = :run_id AND ... RETURNING ...`
unfoldable pub change_run :
    ℕ → (RunRecord → Bool) → (RunRecord → RunRecord) → Option RunRecord → Call (Option RunRecord)
change_run id cond set none s = (ok none, s)
change_run id cond set (some r) s =
    if cond r
    then (ok (some (set r)), record s { runs = change_where (run_with id) set s.runs })
    else (ok none, s)

unfoldable pub update_run_row :
    ℕ → (RunRecord → Bool) → (RunRecord → RunRecord) → Call (Option RunRecord)
update_run_row id cond set s = change_run id cond set (find_run id s) s

-- `UPDATE controls SET ... WHERE week_start = :week_start AND ... RETURNING ...`
unfoldable pub change_control :
    ℕ
    → (WeekControl → Bool)
    → (WeekControl → WeekControl)
    → Option WeekControl
    → Call (Option WeekControl)
change_control day cond set none s = (ok none, s)
change_control day cond set (some c) s =
    if cond c
    then (ok (some (set c)), record s { controls = change_where (control_of day) set s.controls })
    else (ok none, s)

unfoldable pub update_control :
    ℕ → (WeekControl → Bool) → (WeekControl → WeekControl) → Call (Option WeekControl)
update_control day cond set s = change_control day cond set (find_control day s) s

-- `Ensures Q r`: the tables after a call, and its value if it returned, are as `Q` says.
pub record Ensures {A : Type 0} (Q : Result A → Store → Type 0) (r : Result A × Store)
    : Type 0 where
  pub at : Q r.0 r.1

-- The rest of a block may use what the first step did; a raise is the whole block's.
pub Ensures-bind :
    {A B : Type 0} {Q : Result B → Store → Type 0} (m : Call A) (f : A → Call B) (s : Store)
    → ((a : A) (t : Store) → m s ≡ (ok a, t) → Ensures Q (f a t))
    → ((c : Code) (t : Store) → m s ≡ (err c, t) → Q (err c) t)
    → Ensures Q ((m >>= f) s)
unfolding ◌>>=◌
Ensures-bind {A} {B} {Q} m f s good bad = record { at = go (m s) refl }
  where
    go : (x : Result A × Store) → m s ≡ x → Q (continue x.0 f x.1).0 (continue x.0 f x.1).1
    go (ok a, t) p = (good a t p).at
    go (err c, t) p = bad c t p
