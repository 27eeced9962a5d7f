-- ===== src/Coordinator/Tests.antt =====
-- A publication of one week, and a week whose table has a key that the batch lacks.
use ang553_latam_aie_01_fina.Common.{
  ℕ, String, Bool, true, false, ◌≡◌, ◌⊎◌, ◌↔◌, ◌≢◌, arith, refl, pos, none, some, List, [], ◌∷◌,
  any_of, all_of, first, change_where,
}
use ang553_latam_aie_01_fina.Publication.Types.{
  Connection, RunRecord, WeekControl, pending, status_eq, not_attempted,
}
use ang553_latam_aie_01_fina.Publication.Controls.{empty_control}
use ang553_latam_aie_01_fina.Coordinator.Evidence.{
  pre_write_issues, unique, without, coverage_issues, repeats_movement, fingerprint_issue, strip,
  drop_spaces, rules_version_missing,
}
use ang553_latam_aie_01_fina.Coordinator.Staging.{
  WeeklyAggregate, Counts, staged, no_fault, stage_weekly_upsert, stage_rows, has_disappeared,
  same_key, same_kpis, upsert, upsert_row, counted, counts_from_snapshot,
}
use ang553_latam_aie_01_fina.Coordinator.{publish_weekly_business_report}
use ang553_latam_aie_01_fina.Coordinator.Types.{
  Database, Session, PublicationRequest, PublicationEnding, returned, works, observed, unanswered,
}
use ang553_latam_aie_01_fina.Coordinator.Upserts.{Distinct, Written, stage_weekly_upsert-Written}
use ang553_latam_aie_01_fina.Coordinator.Ends.{Unpublished, Published, Certified}
use ang553_latam_aie_01_fina.Coordinator.Atomic.{
  publish_weekly_business_report-Published, publish_weekly_business_report-Certified,
}
use ang553_latam_aie_01_fina.Publication.Call.{find_control}
use ang553_latam_aie_01_fina.Publication.Lease.Ready.{Ready}
use ang553_latam_aie_01_fina.Coordinator.Recovery.{
  resolve_uncertain_publication, resolve_read, publication_matches, latest_valid_publication,
  valid_publication, persist_matched, count_agrees,
}
use ang553_latam_aie_01_fina.Coordinator.Recovery.Exact.{
  recognizes, enquiry, resolve_uncertain_publication-Published,
}
use ang553_latam_aie_01_fina.Coordinator.{
  publish_identified, publish_checked, publish_claimed, durable_claim, after_verify, after_record,
  after_release, commit_business, finish_run, publish_staged, stage_running, observe_uncertain,
}
use ang553_latam_aie_01_fina.Coordinator.Calls.{get_run, operate}
use ang553_latam_aie_01_fina.Publication.Call.{
  ◌>>=◌, require_transaction, execute, read_run, week, read_control, change_control, change_run,
  count, update_control, update_run_row,
}
use ang553_latam_aie_01_fina.Publication.Lease.{
  verify_week_lease, checked_token, lease_statement, release_week_lease,
}
use ang553_latam_aie_01_fina.Publication.Controls.{
  ensure_week_control, get_week_control, insert_control, record_valid_publication,
}
use ang553_latam_aie_01_fina.Publication.Runs.{
  allowed, check_update, require_run, set_columns, terminal, transition, update_run,
  record_commit_observation,
}
use ang553_latam_aie_01_fina.Publication.Text.{
  checked_text, contains, has_secret, is_space, label, lower, optional_label, optional_text, starts,
}

abbrev online : Connection
online = record {
  can_execute = true;
  autocommit = false;
  postgresql = true;
  in_transaction = true;
  fault = λ n. none;
  clock = λ n. 150;
}

abbrev run_1 : RunRecord
run_1 = record {
  run_id = 1;
  pipeline_name = "weekly_warehouse_client_performance";
  target_week_start = 8;
  trigger_type = "http";
  status = pending;
  started_at = 100;
  finished_at = none;
  stage_reached = some "accepted";
  records_processed = none;
  aggregates_calculated = none;
  rows_inserted = none;
  rows_updated = none;
  rows_unchanged = none;
  error_code = none;
  error_message = none;
  block_reason = none;
  commit_result = not_attempted;
  prefect_flow_run_id = none;
  prefect_task_run_id = none;
}

abbrev control_8 : WeekControl
control_8 = record (empty_control 8) {
  owner_run_id = some 1;
  lease_acquired_at = some 100;
  lease_expires_at = some 200;
  fencing_token = 4;
}

abbrev figures : String → ℕ → WeeklyAggregate
figures client orders = record {
  warehouse = "zaragoza";
  client_id = client;
  week_start = 8;
  inbound_units_count = 10;
  outbound_orders_count = orders;
  stockout_events_count = 0;
  discrepancy_events_count = 0;
  discrepancy_rate = record { coefficient = 0; scale = 0 };
}

abbrev batch : List WeeklyAggregate
batch = figures "a" 3 ∷ figures "b" 4 ∷ []

abbrev before : Database
before = record {
  store = record { runs = run_1 ∷ []; controls = control_8 ∷ [] };
  table = figures "a" 2 ∷ [];
}

abbrev session : Session
session = record {
  separated = true;
  identify_on = online;
  verify_on = online;
  record_on = online;
  release_on = online;
  operational = λ n. online;
  commit = λ n. works;
  stage_fault = no_fault;
  stage_rolled_back = false;
  business_commit = observed;
  code_text = λ c. "error";
  message_text = λ c. "error";
}

abbrev request : PublicationRequest
request = record {
  week_start = 8;
  run_id = 1;
  aggregates = batch;
  batch_issues = [];
  quality_issues = some [];
  coverage = some (record {
    confirmed_event_types = "stock_threshold_triggered" ∷ "inventory_discrepancy_detected" ∷ [];
    dispatch_order_ids = ("movement_1", "order_1") ∷ ("movement_2", "order_1") ∷ [];
    lookup_complete = true;
    source = "operational_checkpoints";
  });
  dependency_fingerprint = some "telemetry=1;movements=2;stockexit=3;rules=4";
  rules_version = some "r1";
  lease =
      some (record {
        week_start = 8;
        run_id = 1;
        fencing_token = pos 4;
        acquisition_committed = true;
      });
  now = 150;
  records_processed = none;
}

-- A movement that two orders claim.
movement_repeated :
    coverage_issues (
      some (record {
        confirmed_event_types = "inventory_discrepancy_detected" ∷ "stock_threshold_triggered" ∷ [];
        dispatch_order_ids = ("movement_1", "order_1") ∷ ("movement_1", "order_2") ∷ [];
        lookup_complete = true;
        source = "synthetic_fixture";
      }))
    ≡ "dispatch_order_not_unique" ∷ []
unfolding coverage_issues repeats_movement any_of all_of
movement_repeated = refl

publish_weekly_business_report-Published_example :
    Unpublished before (publish_weekly_business_report session request before).1
    ⊎ Published session request before (publish_weekly_business_report session request before).1
publish_weekly_business_report-Published_example =
    publish_weekly_business_report-Published session request before

publish_weekly_business_report-Certified_example :
    Certified session request before (publish_weekly_business_report session request before)
publish_weekly_business_report-Certified_example =
    publish_weekly_business_report-Certified session request before

abbrev counts : Counts
counts = record { inserted = 1; updated = 1; unchanged = 0 }

stages : stage_weekly_upsert no_fault false 8 batch before.table ≡ staged counts batch
unfolding stage_weekly_upsert stage_rows has_disappeared same_key same_kpis upsert upsert_row
    counted counts_from_snapshot any_of first
stages = refl

stage_weekly_upsert-Written_example : Written batch before.table counts batch
unfolding same_key any_of
stage_weekly_upsert-Written_example =
    let rest : Distinct (figures "b" 4 ∷ []) = (refl, tt) in
    stage_weekly_upsert-Written no_fault false 8 batch before.table counts batch (refl, rest) stages

abbrev is_recorded : PublicationEnding → Bool
is_recorded (returned r) = r.publication_recorded
is_recorded _ = false

-- The commit of the business transaction happened, and its answer was lost.
abbrev lost : Session
lost = record session { business_commit = unanswered true }

abbrev lost_week : Database
lost_week = (publish_weekly_business_report lost request before).1

abbrev asked : Bool
asked = recognizes (
    (resolve_uncertain_publication
      (enquiry online request "telemetry=1;movements=2;stockexit=3;rules=4" "r1") lost_week).0)

resolve_uncertain_publication-Published_example :
    (asked ≡ true) ↔ Published lost request before lost_week
unfolding first
resolve_uncertain_publication-Published_example =
    resolve_uncertain_publication-Published lost online request
      "telemetry=1;movements=2;stockexit=3;rules=4" "r1" before online_ready refl refl refl
      not_published
  where
    online_ready : Ready online
    online_ready = record {
      can_execute = refl;
      autocommit = refl;
      postgresql = refl;
      in_transaction = refl;
      no_fault = λ n. refl;
    }

    not_published :
        (k : WeekControl)
        → find_control 8 before.store ≡ some k
        → k.last_valid_publication_run_id ≢ some 1
    not_published k found = λ p. ground (arith, found, p)

session_records :
    (is_recorded (publish_weekly_business_report session request before).0 ≡ true) × (asked ≡ true)
unfolding publish_weekly_business_report publish_identified get_run publish_checked publish_claimed
    durable_claim after_verify after_record after_release commit_business finish_run operate
    publish_staged stage_running ◌>>=◌ require_transaction execute read_run week read_control
    change_control change_run count update_control update_run_row verify_week_lease checked_token
    lease_statement release_week_lease ensure_week_control get_week_control insert_control
    record_valid_publication allowed check_update require_run set_columns terminal transition
    update_run checked_text contains has_secret is_space label lower optional_label optional_text
    starts status_eq first all_of any_of change_where counted counts_from_snapshot has_disappeared
    same_key same_kpis stage_rows stage_weekly_upsert upsert upsert_row observe_uncertain
    record_commit_observation resolve_uncertain_publication resolve_read publication_matches
    latest_valid_publication valid_publication persist_matched count_agrees pre_write_issues unique
    without coverage_issues repeats_movement fingerprint_issue strip drop_spaces
    rules_version_missing
session_records = (refl, refl)
