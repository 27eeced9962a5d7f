-- ===== src/Publication/Lease.antt =====
-- pipelines/concurrency.py: week leases with fencing tokens, inside the caller's open transaction. The
-- n-th statement of a call reads the server's clock as `clock n`; a statement's repeated
-- `clock_timestamp()` is one reading. `durable` is always false and is left out.
pub mod Tokens
pub mod Ready
pub mod Grants
pub mod Fencing
pub mod Conflicts
use ang553_latam_aie_01_fina.Common.{
  ℕ, ◌+◌, ◌*◌, suc, ℤ, pos, String, Bool, true, false, not, ◌&&◌, ◌||◌, Option, none, some, ltb,
  leb, ltb_ℤ, ◌==◌, opt_eq, is_some, if◌then◌else◌,
}
use ang553_latam_aie_01_fina.Publication.Types.{
  RunStatus, superseded, skipped_in_progress, RunRecord, WeekControl, Store, Connection, Fault,
  uncertain_fault, integrity_fault, other_fault,
}
use ang553_latam_aie_01_fina.Publication.Call.{
  Code, Result, ok, err, Call, week_mismatch, write_error, invalid_lease_ttl, invalid_fencing_token,
  transaction_uncertain, query_failed, integrity_error, success_forbidden, ◌>>=◌, ◌>>◌, pure, raise,
  raise_if, or_raise, lift, require_transaction, week, read_control, update_control,
}
use ang553_latam_aie_01_fina.Publication.Runs.{require_run, RunUpdate, update_run}
use ang553_latam_aie_01_fina.Publication.Controls.{ensure_week_control}

pub data LeaseStatus : Type 0 where
  acquired recovered occupied already_held verified renewed released rejected : LeaseStatus

pub record LeaseDecision : Type 0 where
  pub week_start : ℕ
  pub status : LeaseStatus
  pub run_id : ℕ
  pub owner_run_id : Option ℕ
  pub fencing_token : Option ℕ
  pub lease_expires_at : Option ℕ
  pub lock_held : Bool

-- `granted`
abbrev pub granted : LeaseDecision → Bool
granted d = elim d.status [ acquired ↦ true | recovered ↦ true | _ ↦ false ]

-- `lease_verified`
abbrev pub lease_verified : LeaseDecision → Bool
lease_verified d = elim d.status [ verified ↦ d.lock_held | _ ↦ false ]

-- `_from_store`: an uncertain fault behind a store error stays uncertain.
abbrev pub from_store : Code → Code
from_store (write_error uncertain_fault) = transaction_uncertain
from_store c = c

-- A call of the run store under `except RunStoreError`.
unfoldable pub rethrown : {A : Type 0} → Result A → Result A
rethrown (ok a) = ok a
rethrown (err c) = err (from_store c)

unfoldable pub from_run_store : {A : Type 0} → Call A → Call A
unfolding rethrown
from_run_store m s = let (r, t) = m s in (rethrown r, t)

-- `_rows` of this module: what a failed statement means for a lease.
unfoldable pub lease_statement : Connection → ℕ → Call (Unit {0})
lease_statement c n s = elim (c.fault n) [
  | none ↦ (ok tt, s)
  | some f ↦ elim f [
    | uncertain_fault ↦ (err transaction_uncertain, s)
    | integrity_fault ↦ (err integrity_error, s)
    | other_fault ↦ (err query_failed, s)
  ]
]

abbrev pub max_lease_seconds : ℕ
max_lease_seconds = 24 * 60 * 60

-- `_lease_seconds` and `_token`, of an integer.
unfoldable pub checked_seconds : ℤ → Call ℕ
checked_seconds (pos n) s =
    if ltb n 1
    then (err invalid_lease_ttl, s)
    else if ltb max_lease_seconds n
    then (err invalid_lease_ttl, s)
    else (ok n, s)
checked_seconds n s = (err invalid_lease_ttl, s)

unfoldable pub checked_token : ℤ → Call ℕ
checked_token (pos n) s = (ok n, s)
checked_token n s = (err invalid_fencing_token, s)

-- `_run_for_week`, whose statement is number 0.
unfoldable pub run_for_week : Connection → ℕ → ℕ → Call (Unit {0})
run_for_week c id day = do
  run ← from_run_store (require_run c 0 id)
  raise_if (not (run.target_week_start == day)) week_mismatch

-- `lease_expires_at IS NOT NULL AND lease_expires_at <= clock_timestamp()`
abbrev pub expired : ℕ → Option ℕ → Bool
expired now none = false
expired now (some t) = leb t now

-- `lease_expires_at IS NOT NULL AND lease_expires_at > clock_timestamp()`
abbrev pub unexpired : ℕ → Option ℕ → Bool
unexpired now none = false
unexpired now (some t) = ltb now t

abbrev pub decision : ℕ → LeaseStatus → ℕ → WeekControl → LeaseDecision
decision day status id row = record {
  week_start = day;
  status = status;
  run_id = id;
  owner_run_id = row.owner_run_id;
  fencing_token = some row.fencing_token;
  lease_expires_at = row.lease_expires_at;
  lock_held = true;
}

abbrev pub rejection : ℕ → ℕ → LeaseDecision
rejection day id = record {
  week_start = day;
  status = rejected;
  run_id = id;
  owner_run_id = none;
  fencing_token = none;
  lease_expires_at = none;
  lock_held = false;
}

-- GRANT_LEASE_SQL: its qualification, and what it sets.
abbrev pub grantable : ℕ → ℕ → WeekControl → Bool
grantable now token k =
    k.fencing_token == token && (not (is_some k.owner_run_id) || expired now k.lease_expires_at)

abbrev pub grant_row : ℕ → ℕ → ℕ → WeekControl → WeekControl
grant_row now id seconds k = record k {
  owner_run_id = some id;
  lease_acquired_at = some now;
  lease_expires_at = some (now + seconds);
  fencing_token = k.fencing_token + 1;
}

abbrev pub held_status : ℕ → WeekControl → LeaseStatus
held_status id k = if opt_eq k.owner_run_id (some id) then already_held else occupied

abbrev pub grant_status : WeekControl → LeaseStatus
grant_status locked = if is_some locked.owner_run_id then recovered else acquired

-- The locked row is free or expired: grant it, or give up if it is no longer so.
unfoldable pub grant_lease : Connection → ℕ → ℕ → ℕ → WeekControl → Call LeaseDecision
grant_lease c day id seconds locked = do
  lease_statement c 4
  row ←
      update_control day (grantable (c.clock 4) locked.fencing_token)
        (grant_row (c.clock 4) id seconds)
  given ← or_raise row transaction_uncertain
  pure (decision day (grant_status locked) id given)

unfoldable pub acquire_week_lease : Connection → ℕ → ℕ → ℤ → Call LeaseDecision
acquire_week_lease c start id lease_seconds = do
  require_transaction c
  day ← week start
  seconds ← checked_seconds lease_seconds
  run_for_week c id day
  control ← from_run_store (ensure_week_control c 1 day)
  lease_statement c 3
  found ← read_control day
  locked ← or_raise found query_failed
  if is_some locked.owner_run_id && not (expired (c.clock 3) locked.lease_expires_at)
      then pure (decision day (held_status id locked) id locked)
      else grant_lease c day id seconds locked

-- The three checks of VERIFY_LEASE_SQL.
abbrev pub holds : ℕ → ℕ → ℕ → WeekControl → Bool
holds now id token k =
    opt_eq k.owner_run_id (some id) && k.fencing_token == token && unexpired now k.lease_expires_at

abbrev pub verify_decision : ℕ → ℕ → ℕ → ℕ → Option WeekControl → LeaseDecision
verify_decision now day id token none = rejection day id
verify_decision now day id token (some k) =
    decision day (if holds now id token k then verified else rejected) id k

unfoldable pub verify_week_lease : Connection → ℕ → ℕ → ℤ → Call LeaseDecision
verify_week_lease c start id fencing_token = do
  require_transaction c
  day ← week start
  token ← checked_token fencing_token
  lease_statement c 0
  found ← read_control day
  pure (verify_decision (c.clock 0) day id token found)

abbrev pub renew_decision : ℕ → ℕ → Option WeekControl → LeaseDecision
renew_decision day id none = rejection day id
renew_decision day id (some k) = decision day renewed id k

unfoldable pub renew_week_lease : Connection → ℕ → ℕ → ℤ → ℤ → Call LeaseDecision
renew_week_lease c start id fencing_token lease_seconds = do
  require_transaction c
  day ← week start
  seconds ← checked_seconds lease_seconds
  token ← checked_token fencing_token
  lease_statement c 0
  row ←
      update_control day (holds (c.clock 0) id token)
        (λ k. record k { lease_expires_at = some (c.clock 0 + seconds) })
  pure (renew_decision day id row)

-- RELEASE_LEASE_SQL matches the owner and the token, not the expiry.
abbrev pub owned : ℕ → ℕ → WeekControl → Bool
owned id token k = opt_eq k.owner_run_id (some id) && k.fencing_token == token

abbrev pub release_decision : ℕ → ℕ → Option WeekControl → LeaseDecision
release_decision day id none = rejection day id
release_decision day id (some k) = record {
  week_start = day;
  status = released;
  run_id = id;
  owner_run_id = none;
  fencing_token = some k.fencing_token;
  lease_expires_at = none;
  lock_held = true;
}

unfoldable pub release_week_lease : Connection → ℕ → ℕ → ℤ → Call LeaseDecision
release_week_lease c start id fencing_token = do
  require_transaction c
  day ← week start
  token ← checked_token fencing_token
  lease_statement c 0
  row ←
      update_control day (owned id token)
        (λ k. record k { owner_run_id = none; lease_acquired_at = none; lease_expires_at = none })
  pure (release_decision day id row)

-- The statuses that a lease conflict may record: never a success.
abbrev pub conflict_status : RunStatus → Bool
conflict_status skipped_in_progress = true
conflict_status superseded = true
conflict_status _ = false

abbrev pub conflict_update : RunRecord → RunStatus → ℕ → String → RunUpdate
conflict_update current status finished_at reason = record {
  expected_status = current.status;
  status = status;
  finished_at = some finished_at;
  stage_reached = some "lease";
  records_processed = none;
  aggregates_calculated = none;
  rows_inserted = none;
  rows_updated = none;
  rows_unchanged = none;
  error_code = none;
  error_message = none;
  block_reason = some reason;
  commit_result = none;
  prefect_flow_run_id = none;
  prefect_task_run_id = none;
}

-- `record_lease_run_status`; the source checks once more that the updated row is no success.
unfoldable pub record_lease_run_status : Connection → ℕ → RunStatus → ℕ → String → Call RunRecord
record_lease_run_status c id status finished_at reason = do
  require_transaction c
  raise_if (not (conflict_status status)) success_forbidden
  current ← from_run_store (require_run c 0 id)
  from_run_store (update_run c id (conflict_update current status finished_at reason))
