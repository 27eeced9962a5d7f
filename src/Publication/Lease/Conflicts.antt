-- ===== src/Publication/Lease/Conflicts.antt =====
-- `record_lease_run_status` of pipelines/concurrency.py.
use mathlib.Core.Path.{subst}
use ang553_latam_aie_01_fina.Common.{ℕ, String, Bool, true, false, not, ◌≡◌, refl, ap, some, arith}
use ang553_latam_aie_01_fina.Publication.Types.{RunStatus, RunRecord, Store, Connection}
use ang553_latam_aie_01_fina.Publication.Call.{
  Result, ok, err, Code, Call, ◌>>=◌, raise_if, find_run, Ensures, success_forbidden,
}
use ang553_latam_aie_01_fina.Publication.Rules.{Reads, Ensures-read, read_rules}
use ang553_latam_aie_01_fina.Publication.Runs.{allowed, update_run}
use ang553_latam_aie_01_fina.Publication.Runs.Updated.{update_run-Updated}
use ang553_latam_aie_01_fina.Publication.Lease.{
  rethrown, from_run_store, conflict_status, conflict_update, record_lease_run_status,
}
use ang553_latam_aie_01_fina.Publication.Lease.Tokens.{lease_reads}

-- The run went on to a status of a lease conflict.
pub record Recorded (id : ℕ) (recorded : RunStatus) (now : ℕ) (s : Store) (r : RunRecord)
    (t : Store) : Type 0 where
  pub conflict : conflict_status recorded ≡ true
  pub status : r.status ≡ recorded
  pub finished_at : r.finished_at ≡ some now
  pub old : RunRecord
  pub found : find_run id s ≡ some old
  pub moved : allowed old.status r.status ≡ true
  pub stored : find_run id t ≡ some r

raise_if-not-ok : (b : Bool) (e : Code) (s : Store) → raise_if (not b) e s ≡ (ok tt, s) → b ≡ true
raise_if-not-ok true e s h = refl
raise_if-not-ok false e s h = absurd (ground (arith, h))

rethrown-ok : {A : Type 0} (x : Result A × Store) (a : A) → rethrown x.0 ≡ ok a → x ≡ (ok a, x.1)
unfolding rethrown
rethrown-ok (ok b, t) a h = ap (λ r. (r, t)) h
rethrown-ok (err e, t) a h = absurd (ground (arith, h))

record_lease_run_status-Ensures :
    (c : Connection) (id : ℕ) (status : RunStatus) (now : ℕ) (reason : String) (s : Store)
    → Ensures
        (λ x t. (r : RunRecord) → x ≡ ok r → Recorded id status now s r t)
        (record_lease_run_status c id status now reason s)
unfolding record_lease_run_status rethrown from_run_store
record_lease_run_status-Ensures c id status now reason s = step _ _ (search read_rules) λ _ _.
    step _ _ (search read_rules) λ u allowed_status. step _ _ (search lease_reads) λ current _.
      record {
        at = λ r h.
            let updated =
              update_run-Updated c id (conflict_update current status now reason) s r _
                (rethrown-ok (update_run c id (conflict_update current status now reason) s) r h) in
            record {
              conflict =
                  raise_if-not-ok (conflict_status status) success_forbidden s allowed_status;
              status = updated.status;
              finished_at = updated.finished_at;
              old = updated.old;
              found = updated.found;
              moved = updated.moved;
              stored = updated.stored;
            };
      }
  where
    step :
        {A : Type 0} (m : Call A) (f : A → Call RunRecord)
        → Reads m
        → ((a : A)
            → m s ≡ (ok a, s)
            → Ensures (λ x t. (r : RunRecord) → x ≡ ok r → Recorded id status now s r t) (f a s))
        → Ensures (λ x t. (r : RunRecord) → x ≡ ok r → Recorded id status now s r t) ((m >>= f) s)
    step m f rm good = Ensures-read m f s rm good (λ e r k. absurd (ground (arith, k)))

-- A lease conflict that is recorded has moved the stored run, along an allowed transition, to
-- `skipped_in_progress` or `superseded`, as asked, and so never to a success; the row returned is the
-- one stored now, ended at the instant that was given.
pub record_lease_run_status-Recorded :
    (c : Connection) (id : ℕ) (status : RunStatus) (now : ℕ) (reason : String) (s : Store)
    (r : RunRecord) (t : Store)
    → record_lease_run_status c id status now reason s ≡ (ok r, t)
    → Recorded id status now s r t
record_lease_run_status-Recorded c id status now reason s r t h =
    subst (λ z. Recorded id status now s r z) (ap (λ (x : Result RunRecord × Store). x.1) h)
      ((record_lease_run_status-Ensures c id status now reason s).at r
        (ap (λ (x : Result RunRecord × Store). x.0) h))
