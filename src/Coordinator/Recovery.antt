-- ===== src/Coordinator/Recovery.antt =====
-- `resolve_uncertain_publication` of pipelines/coordinator.py, with `latest_valid_publication` of
-- pipelines/run_store.py.
pub mod Exact
use ang553_latam_aie_01_fina.Common.{
  ℕ, ℤ, pos, String, Bool, true, false, not, ◌&&◌, ◌||◌, Option, none, some, [], ◌∷◌, str_eq,
  opt_str_eq, ◌==◌, leb_ℤ, or_else, if◌then◌else◌,
}
use ang553_latam_aie_01_fina.Publication.Types.{
  RunStatus, running, succeeded, succeeded_noop, other_status, status_eq, uncertain,
  technically_observed, CommitResult, RunRecord, WeekControl, Connection,
}
use ang553_latam_aie_01_fina.Publication.Call.{
  Result, ok, err, Call, invalid_timestamp, ◌>>=◌, ◌>>◌, pure, or_raise, require_transaction,
  execute, week, read_control,
}
use ang553_latam_aie_01_fina.Coordinator.Types.{
  Database, Link, CoordinatorResult, PublicationEnding, returned, raised, failure,
}
use ang553_latam_aie_01_fina.Coordinator.Calls.{
  finish_update, finish_and_commit, observe_and_commit, answer_with, get_run,
}

pub record ValidPublication : Type 0 where
  pub week_start : ℕ
  pub run_id : ℕ
  pub published_at : ℕ
  pub published_row_count : ℤ
  pub dependency_fingerprint : Option String
  pub rules_version : Option String
  pub fencing_token : ℕ

-- The row of a week that has a publication. The checks of its count and token repeat the table's.
unfoldable pub valid_publication : Option WeekControl → Call (Option ValidPublication)
valid_publication none = pure none
valid_publication (some k) = elim k.last_valid_publication_run_id [
  | none ↦ pure none
  | some run_id ↦ do
    published_at ← or_raise k.last_valid_published_at invalid_timestamp
    pure (
        some (record {
          week_start = k.week_start;
          run_id = run_id;
          published_at = published_at;
          published_row_count = or_else k.published_row_count (pos 0);
          dependency_fingerprint = k.dependency_fingerprint;
          rules_version = k.rules_version;
          fencing_token = k.fencing_token;
        }))
]

unfoldable pub latest_valid_publication : Connection → ℕ → Call (Option ValidPublication)
latest_valid_publication c start = do
  require_transaction c
  day ← week start
  execute c 0
  control ← read_control day
  valid_publication control

-- The arguments; `operational` gives each operational call its connection, and `commit` is the end of its
-- transaction.
pub record RecoveryRequest : Type 0 where
  pub connection : Connection
  pub week_start : ℕ
  pub run_id : ℕ
  pub dependency_fingerprint : String
  pub rules_version : String
  pub published_row_count : Option ℤ
  pub operational : Option (ℕ → Connection)
  pub commit : Link
  pub now : Option ℕ
  pub persist : Bool

unfoldable pub count_agrees : Option ℤ → ℤ → Bool
count_agrees none m = true
count_agrees (some n) m = leb_ℤ n m && leb_ℤ m n

abbrev pub inconclusive : CoordinatorResult
inconclusive =
    record (failure (other_status "commit_uncertain") ("evidence_inconclusive" ∷ []) uncertain) {
      evidence_inconclusive = true;
    }

abbrev pub recognized : CoordinatorResult
recognized = record (failure succeeded [] technically_observed) {
  publication_recorded = true;
  recovered = true;
}

abbrev is_success : RunStatus → Bool
is_success s = status_eq s succeeded || status_eq s succeeded_noop

abbrev commit_observed : CommitResult → Bool
commit_observed technically_observed = true
commit_observed _ = false

abbrev pub business_publication_valid : CoordinatorResult → Bool
business_publication_valid r =
    r.publication_recorded
    && is_success r.status
    && commit_observed r.commit_result
    && not r.evidence_inconclusive

module _ (q : RecoveryRequest) where
  unfoldable pub publication_matches : Option ValidPublication → Bool
  publication_matches none = false
  publication_matches (some p) =
      p.run_id == q.run_id
      && opt_str_eq p.dependency_fingerprint (some q.dependency_fingerprint)
      && opt_str_eq p.rules_version (some q.rules_version)
      && count_agrees q.published_row_count p.published_row_count

  unfoldable pub persist_unmatched :
      Bool → Option (ℕ → Connection) → Option ℕ → Database → PublicationEnding × Database
  persist_unmatched true (some c) (some now) w =
      answer_with inconclusive (observe_and_commit q.commit (c 1) q.run_id uncertain w)
  persist_unmatched _ _ _ w = (returned inconclusive, w)

  -- A run that is still running is finished as succeeded.
  unfoldable pub persist_current :
      (ℕ → Connection) → ℕ → Result (Option RunRecord) → Database → PublicationEnding × Database
  persist_current c now (err e) w = (raised, w)
  persist_current c now (ok none) w = (returned recognized, w)
  persist_current c now (ok (some run)) w =
      if status_eq run.status running
      then answer_with recognized (
          finish_and_commit q.commit (c 1) q.run_id
            (finish_update running succeeded now "recovered" technically_observed) w)
      else (returned recognized, w)

  unfoldable pub persist_matched :
      Bool → Option (ℕ → Connection) → Option ℕ → Database → PublicationEnding × Database
  persist_matched false _ _ w = (returned recognized, w)
  persist_matched true (some c) (some now) w =
      persist_current c now (get_run q.run_id (c 0) w.store).0 w
  persist_matched true _ _ w = (raised, w)

  unfoldable pub resolve_read :
      Result (Option ValidPublication) → Database → PublicationEnding × Database
  resolve_read (err c) w = (raised, w)
  resolve_read (ok p) w =
      if publication_matches p
      then persist_matched q.persist q.operational q.now w
      else persist_unmatched q.persist q.operational q.now w

  unfoldable pub resolve_uncertain_publication : Database → PublicationEnding × Database
  resolve_uncertain_publication w =
      resolve_read (latest_valid_publication q.connection q.week_start w.store).0 w
