-- ===== src/Coordinator.antt =====
-- pipelines/coordinator.py: the publication of one week.
pub mod Types
pub mod Calls
pub mod Evidence
pub mod Staging
pub mod Recorded
pub mod Upserts
pub mod Ends
pub mod Atomic
pub mod Recovery
mod Tests
use ang553_latam_aie_01_fina.Common.{
  ℕ, ◌+◌, ℤ, pos, String, Bool, true, false, not, ◌&&◌, ◌||◌, Option, none, some, List, [], ◌∷◌,
  length, str_eq, ◌==◌, leb_ℤ, if◌then◌else◌,
}
use ang553_latam_aie_01_fina.Publication.Types.{
  RunStatus, pending, running, succeeded, succeeded_noop, failed_retryable, blocked_quality,
  superseded, skipped_in_progress, other_status, status_eq, CommitResult, not_attempted,
  uncommitted, uncertain, rolled_back, technically_observed, RunRecord, Store, Connection,
}
use ang553_latam_aie_01_fina.Publication.Call.{
  Code, transaction_required, autocommit_forbidden, postgresql_required, invalid_week_start, Result,
  ok, err, Call, ◌>>=◌, ◌>>◌, require_transaction, execute, read_run,
}
use ang553_latam_aie_01_fina.Publication.Runs.{RunUpdate, update_run, record_commit_observation}
use ang553_latam_aie_01_fina.Publication.Controls.{record_valid_publication}
use ang553_latam_aie_01_fina.Publication.Lease.{
  LeaseStatus, released, LeaseDecision, lease_verified, verify_week_lease, release_week_lease,
}
use ang553_latam_aie_01_fina.Coordinator.Evidence.{pre_write_issues}
use ang553_latam_aie_01_fina.Coordinator.Staging.{
  WeeklyAggregate, Table, StageFault, Staged, staged, not_staged, stage_weekly_upsert, Counts,
}
use ang553_latam_aie_01_fina.Coordinator.Types.{
  Database, ConfirmedLeaseRight, Link, works, fails, fails_late, BusinessCommit, observed, refused,
  unanswered, PublicationRequest, Session, CoordinatorResult, PublicationEnding, returned, raised,
  failure,
}
use ang553_latam_aie_01_fina.Coordinator.Calls.{
  finish_update, operate, answer_with, finish_and_commit, observe_and_commit, get_run,
}

-- The errors of `_prepared` that come from the run store, which the coordinator does not catch.
abbrev pub is_run_store_error : Code → Bool
is_run_store_error transaction_required = true
is_run_store_error autocommit_forbidden = true
is_run_store_error postgresql_required = true
is_run_store_error invalid_week_start = true
is_run_store_error _ = false

abbrev pub is_released : LeaseDecision → Bool
is_released d = elim d.status [ released ↦ true | _ ↦ false ]

module _ (x : Session) (q : PublicationRequest) where
  open q use {week_start, run_id, now}

  -- `_finish_run` in the n-th operational transaction, and the result that follows it.
  unfoldable pub finish_run :
      ℕ → RunUpdate → CoordinatorResult → Database → PublicationEnding × Database
  finish_run n u r w = answer_with r (finish_and_commit (x.commit n) (x.operational n) run_id u w)

  -- `_durable_claim`
  unfoldable pub durable_claim : Option ConfirmedLeaseRight → Option ℤ
  durable_claim none = none
  durable_claim (some l) =
      if l.acquisition_committed
        && l.week_start == week_start
        && l.run_id == run_id
        && leb_ℤ (pos 0) l.fencing_token
      then some l.fencing_token
      else none

  -- `_lease_rejection_status`
  unfoldable pub lease_rejection_status : LeaseDecision → RunStatus
  lease_rejection_status d = elim d.owner_run_id [
    | none ↦ superseded
    | some owner ↦ if owner == run_id then superseded else skipped_in_progress
  ]

  -- `_abort_staged`; the business transaction is rolled back.
  unfoldable pub abort_staged :
      Bool → String → String → Bool → Database → PublicationEnding × Database
  abort_staged blocked code message rollback_observed w =
      let status : RunStatus = if blocked then blocked_quality else failed_retryable in
      let result : CommitResult = if rollback_observed || blocked then rolled_back else uncertain in
      finish_run 1
        (record (finish_update running status now "publish" result) {
          error_code = if blocked then none else some code;
          error_message = some message;
          block_reason = if blocked then some code else none;
        })
        (failure status (code ∷ []) result) w

  -- The end after an error in the publication's metadata, or a rejected release.
  unfoldable pub abort_publication :
      String → String → String → Database → PublicationEnding × Database
  abort_publication stage code message w =
      finish_run 1
        (record (finish_update running failed_retryable now stage rolled_back) {
          error_code = some code;
          error_message = some message;
        })
        (failure failed_retryable (code ∷ []) rolled_back) w

  -- `_observe_uncertain`
  unfoldable pub observe_uncertain : CommitResult → Counts → Database → PublicationEnding × Database
  observe_uncertain result n w =
      answer_with
        (record (failure (other_status "commit_uncertain") ("commit_uncertain" ∷ []) result) {
          inserted = n.inserted;
          updated = n.updated;
          unchanged = n.unchanged;
        })
        (observe_and_commit (x.commit 1) (x.operational 1) run_id result w)

  abbrev pub final_status : Counts → RunStatus
  final_status n = if n.inserted == 0 && n.updated == 0 then succeeded_noop else succeeded

  abbrev pub success : Counts → CoordinatorResult
  success n = record {
    status = final_status n;
    errors = [];
    inserted = n.inserted;
    updated = n.updated;
    unchanged = n.unchanged;
    commit_result = technically_observed;
    publication_recorded = true;
    recovered = false;
    evidence_inconclusive = false;
  }

  abbrev pub success_update : Counts → RunUpdate
  success_update n =
      record (finish_update running (final_status n) now "committed" technically_observed) {
        records_processed = q.records_processed;
        aggregates_calculated = some (pos (length q.aggregates));
        rows_inserted = some (pos n.inserted);
        rows_updated = some (pos n.updated);
        rows_unchanged = some (pos n.unchanged);
      }

  -- `_commit_business`: what was staged replaces what was there, or does not. The business transaction wrote
  -- the week's control row and table, and no run.
  unfoldable pub commit_business :
      BusinessCommit → Counts → Database → Database → PublicationEnding × Database
  commit_business observed n new w = finish_run 1 (success_update n) (success n) new
  commit_business refused n new w = observe_uncertain rolled_back n w
  commit_business (unanswered true) n new w = observe_uncertain uncertain n new
  commit_business (unanswered false) n new w = observe_uncertain uncertain n w

  unfoldable pub after_release :
      Counts → Table → Result LeaseDecision × Store → Database → PublicationEnding × Database
  after_release n rows (err c, t) w =
      abort_publication "publish" "publication_metadata_failed" (x.message_text c) w
  after_release n rows (ok d, t) w =
      if is_released d
      then commit_business x.business_commit n (record { store = t; table = rows }) w
      else abort_publication "lease" "lease_release_rejected"
          "owner or fencing token no longer matches" w

  unfoldable pub after_record :
      {A : Type 0} → ℤ → Counts → Table → Result A × Store → Database → PublicationEnding × Database
  after_record token n rows (err c, t) w =
      abort_publication "publish" "publication_metadata_failed" (x.message_text c) w
  after_record token n rows (ok a, t) w =
      after_release n rows (release_week_lease x.release_on week_start run_id token t) w

  unfoldable pub publish_staged : ℤ → Staged → Database → PublicationEnding × Database
  publish_staged token (not_staged blocked code message rollback_observed) w =
      abort_staged blocked code message rollback_observed w
  publish_staged token (staged n rows) w =
      after_record token n rows
        (record_valid_publication x.record_on week_start run_id now
          (pos (n.inserted + n.updated + n.unchanged)) q.dependency_fingerprint q.rules_version
          w.store)
        w

  -- `_mark_running`, and the staging.
  unfoldable pub stage_running : ℤ → Bool × Database → PublicationEnding × Database
  stage_running token (false, w) = (raised, w)
  stage_running token (true, w) =
      publish_staged token
        (stage_weekly_upsert x.stage_fault x.stage_rolled_back week_start q.aggregates w.table) w

  abbrev pub running_update : RunUpdate
  running_update = record (finish_update pending running now "publish" uncommitted) {
    finished_at = none;
    rows_inserted = none;
    rows_updated = none;
    rows_unchanged = none;
  }

  unfoldable pub after_verify : ℤ → Result LeaseDecision → Database → PublicationEnding × Database
  after_verify token (err c) w =
      if is_run_store_error c
      then (raised, w)
      else finish_run 0
          (record (finish_update pending failed_retryable now "lease" uncertain) {
            error_code = some (x.code_text c);
            error_message = some (x.message_text c);
          })
          (failure failed_retryable (x.code_text c ∷ []) not_attempted) w
  after_verify token (ok d) w =
      if lease_verified d
      then stage_running token
          (finish_and_commit (x.commit 0) (x.operational 0) run_id running_update w)
      else finish_run 0
          (record (finish_update pending (lease_rejection_status d) now "lease" not_attempted) {
            block_reason = some "lease verification rejected: rejected";
          })
          (failure (lease_rejection_status d) ("lease_rejected" ∷ []) not_attempted) w

  unfoldable pub publish_claimed : Option ℤ → Database → PublicationEnding × Database
  publish_claimed none w =
      finish_run 0
        (record (finish_update pending superseded now "lease" not_attempted) {
          block_reason = some "lease acquisition was not confirmed before publication";
        })
        (failure superseded ("lease_not_durable" ∷ []) not_attempted) w
  publish_claimed (some token) w =
      after_verify token (verify_week_lease x.verify_on week_start run_id token w.store).0 w

  unfoldable pub publish_checked : List String → Database → PublicationEnding × Database
  publish_checked [] w = publish_claimed (durable_claim q.lease) w
  publish_checked (issue ∷ issues) w =
      finish_run 0
        (record (finish_update pending blocked_quality now "quality" not_attempted) {
          block_reason = some issue;
        })
        (failure blocked_quality (issue ∷ issues) not_attempted) w

  -- `_identified_run`: the run's week and status.
  unfoldable pub publish_identified :
      Result (Option RunRecord) → Database → PublicationEnding × Database
  publish_identified (err c) w = (raised, w)
  publish_identified (ok none) w = (raised, w)
  publish_identified (ok (some run)) w =
      if run.target_week_start == week_start && status_eq run.status pending
      then publish_checked (pre_write_issues q) w
      else (raised, w)

  unfoldable pub publish_weekly_business_report : Database → PublicationEnding × Database
  publish_weekly_business_report w =
      if x.separated
      then publish_identified (get_run run_id x.identify_on w.store).0 w
      else (raised, w)
