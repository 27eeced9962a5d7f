-- ===== src/Coordinator/Types.antt =====
-- The data of pipelines/coordinator.py.
use ang553_latam_aie_01_fina.Common.{ℕ, ℤ, String, Bool, false, Option, List}
use ang553_latam_aie_01_fina.Publication.Types.{RunStatus, CommitResult, Store, Connection}
use ang553_latam_aie_01_fina.Publication.Call.{Code}
use ang553_latam_aie_01_fina.Coordinator.Staging.{WeeklyAggregate, Table, StageFault}

-- The database: the run store and the weekly table.
pub record Database : Type 0 where
  pub store : Store
  pub table : Table

pub record ConfirmedLeaseRight : Type 0 where
  pub week_start : ℕ
  pub run_id : ℕ
  pub fencing_token : ℤ
  pub acquisition_committed : Bool

pub record CoverageEvidence : Type 0 where
  pub confirmed_event_types : List String
  pub dispatch_order_ids : List (String × String)
  pub lookup_complete : Bool
  pub source : String

-- How a commit of the operational transaction ends: confirmed, or not, with or without its effect.
pub data Link : Type 0 where
  works fails fails_late : Link

-- The commit of the business transaction: observed, refused by the server, or without an answer, where the
-- server may have committed.
pub data BusinessCommit : Type 0 where
  observed refused : BusinessCommit
  unanswered : Bool → BusinessCommit

pub record PublicationRequest : Type 0 where
  pub week_start : ℕ
  pub run_id : ℕ
  pub aggregates : List WeeklyAggregate
  pub batch_issues : List String
  pub quality_issues : Option (List String)
  pub coverage : Option CoverageEvidence
  pub dependency_fingerprint : Option String
  pub rules_version : Option String
  pub lease : Option ConfirmedLeaseRight
  pub now : ℕ
  pub records_processed : Option ℤ

-- What a publication meets: whether the two transactions are open and distinct, each call's connection
-- (the n-th operational transaction's last), the ends of the commits, and the texts of the exceptions.
pub record Session : Type 0 where
  pub separated : Bool
  pub identify_on : Connection
  pub verify_on : Connection
  pub record_on : Connection
  pub release_on : Connection
  pub operational : ℕ → Connection
  pub commit : ℕ → Link
  pub stage_fault : StageFault
  pub stage_rolled_back : Bool
  pub business_commit : BusinessCommit
  pub code_text : Code → String
  pub message_text : Code → String

pub record CoordinatorResult : Type 0 where
  pub status : RunStatus
  pub errors : List String
  pub inserted : ℕ
  pub updated : ℕ
  pub unchanged : ℕ
  pub commit_result : CommitResult
  pub publication_recorded : Bool
  pub recovered : Bool
  pub evidence_inconclusive : Bool

-- A call returns a result or raises; the database is what has been committed.
pub data PublicationEnding : Type 0 where
  returned : CoordinatorResult → PublicationEnding
  raised : PublicationEnding

abbrev pub failure : RunStatus → List String → CommitResult → CoordinatorResult
failure status errors result = record {
  status = status;
  errors = errors;
  inserted = 0;
  updated = 0;
  unchanged = 0;
  commit_result = result;
  publication_recorded = false;
  recovered = false;
  evidence_inconclusive = false;
}
