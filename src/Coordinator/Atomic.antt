-- ===== src/Coordinator/Atomic.antt =====
-- What `publish_weekly_business_report` of pipelines/coordinator.py leaves committed, step by step.
use mathlib.Core.Path.{subst}
use ang553_latam_aie_01_fina.Common.{
  ℤ, String, Bool, true, false, ◌&&◌, ◌≡◌, ◌⊎◌, inl, inr, refl, ap, ◌∙◌, Option, none, some, List,
  [], ◌∷◌, length, sym, Bool-cases, if◌then◌else◌, ◌==◌, pos, ◌+◌,
}
use ang553_latam_aie_01_fina.Publication.Types.{RunRecord, WeekControl, Store, pending, status_eq}
use ang553_latam_aie_01_fina.Publication.Call.{Result, ok, err}
use ang553_latam_aie_01_fina.Publication.Controls.{record_valid_publication}
use ang553_latam_aie_01_fina.Publication.Lease.{
  LeaseDecision, lease_verified, verify_week_lease, release_week_lease,
}
use ang553_latam_aie_01_fina.Coordinator.Staging.{
  Table, Staged, staged, not_staged, Counts, has_disappeared, upsert, stage_weekly_upsert,
}
use ang553_latam_aie_01_fina.Coordinator.Evidence.{pre_write_issues}
use ang553_latam_aie_01_fina.Coordinator.Evidence.Complete.{
  IsEvidenced, pre_write_issues-IsEvidenced,
}
use ang553_latam_aie_01_fina.Coordinator
use ang553_latam_aie_01_fina.Coordinator.{
  is_released, is_run_store_error, publish_weekly_business_report, durable_claim,
}
use ang553_latam_aie_01_fina.Coordinator.Types.{
  Database, Session, PublicationRequest, raised, Link, works, fails, fails_late,
}
use ang553_latam_aie_01_fina.Coordinator.Calls.{operate}
use ang553_latam_aie_01_fina.Coordinator.Upserts.{staged-upsert, counts_from_snapshot-length}
use ang553_latam_aie_01_fina.Coordinator.Recorded.{
  update_run-Frames, record_valid_publication-Recorded, release_week_lease-Freed,
}
use ang553_latam_aie_01_fina.Coordinator.Ends.{
  Unpublished, Published, Certified, Sound, finish_run-Sound, commit_business-Sound,
}

module _ (x : Session) (q : PublicationRequest) (w : Database) where
  abbrev Claimed : ℤ → Type 0
  Claimed token =
      IsEvidenced q
      × (durable_claim x q q.lease ≡ some token)
      × (d : LeaseDecision) × ((verify_week_lease x.verify_on q.week_start q.run_id token w.store).0
          ≡ ok d)
      × (lease_verified d ≡ true)

  abort_publication-Sound :
      (stage code message : String) (s : Database)
      → Unpublished w s
      → Sound x q w (Coordinator.abort_publication x q stage code message s)
  unfolding Coordinator.abort_publication
  abort_publication-Sound stage code message s u = finish_run-Sound x q w 1 _ _ s refl (inl u)

  after_release-Sound :
      (n : Counts) (rows : Table) (y : Result LeaseDecision × Store) (s : Database)
      → Unpublished w s
      → ((d : LeaseDecision)
          → y.0 ≡ ok d
          → is_released d ≡ true
          → Published x q w (record { store = y.1; table = rows }))
      → Sound x q w (Coordinator.after_release x q n rows y s)
  unfolding Coordinator.after_release
  after_release-Sound n rows (err c, t) s u make = abort_publication-Sound _ _ _ s u
  after_release-Sound n rows (ok d, t) s u make = elim (Bool-cases (is_released d)) [
    | inr kept ↦ rw kept (abort_publication-Sound _ _ _ s u)
    | inl freed ↦
        rw freed (commit_business-Sound x q w x.business_commit n _ s (make d refl freed) (inl u))
  ]

  after_record-Sound :
      (token : ℤ) (n : Counts) (rows : Table) (s : Database)
      → Unpublished w s
      → Claimed token
      → (has_disappeared q.week_start q.aggregates w.table ≡ false)
      → (rows ≡ upsert q.aggregates w.table)
      → (n.inserted + n.updated + n.unchanged ≡ length q.aggregates)
      → (y : Result WeekControl × Store)
      → record_valid_publication x.record_on q.week_start q.run_id q.now
          (pos (n.inserted + n.updated + n.unchanged))
          q.dependency_fingerprint
          q.rules_version
          s.store
        ≡ y
      → Sound x q w (Coordinator.after_record x q token n rows y s)
  unfolding Coordinator.after_record
  after_record-Sound token n rows s u claim complete same total (err c, t) e =
      abort_publication-Sound _ _ _ s u
  after_record-Sound token n rows s u claim complete same total (ok k, t) e =
      let (found, points) =
        record_valid_publication-Recorded x.record_on q.week_start q.run_id q.now _
          q.dependency_fingerprint q.rules_version s.store k t e in
      after_release-Sound n rows (release_week_lease x.release_on q.week_start q.run_id token t) s u
        (λ d p freed. record {
          evidence = claim.0;
          claim = let (z, p', d', e', v) = claim in (token, p', d', e', v);
          complete = complete;
          table = same;
          control = (
            _,
            release_week_lease-Freed x.release_on q.week_start q.run_id token t k d _ found
                (paired d _ p) freed,
            record {
              run_id = points.run_id;
              published_at = points.published_at;
              row_count = points.row_count ∙ ap (λ a. some (pos a)) total;
              fingerprint = points.fingerprint;
              version = points.version;
            },
            refl,
          );
        })
    where
      paired : (d : LeaseDecision) (y : Result LeaseDecision × Store) → y.0 ≡ ok d → y ≡ (ok d, y.1)
      paired d (r, v) p = ap (λ (z : Result LeaseDecision). (z, v)) p

  publish_staged-Sound :
      (token : ℤ) (s : Database)
      → Unpublished w s
      → Claimed token
      → (o : Staged)
      → stage_weekly_upsert x.stage_fault x.stage_rolled_back q.week_start q.aggregates s.table ≡ o
      → Sound x q w (Coordinator.publish_staged x q token o s)
  unfolding Coordinator.publish_staged Coordinator.abort_staged
  publish_staged-Sound token s u claim (not_staged blocked code message seen) e =
      finish_run-Sound x q w 1 _ _ s refl (inl u)
  publish_staged-Sound token s u claim (staged n rows) e =
      let (complete, same, counts) =
        staged-upsert x.stage_fault x.stage_rolled_back q.week_start q.aggregates s.table n rows
          e in
      after_record-Sound token n rows s u claim
        (subst (λ t. has_disappeared q.week_start q.aggregates t ≡ false) u.table complete)
        (same ∙ ap (upsert q.aggregates) u.table)
        (subst (λ m. m.inserted + m.updated + m.unchanged ≡ length q.aggregates) (sym counts)
          (counts_from_snapshot-length q.aggregates s.table))
        _ refl

  stage_running-Sound :
      (token : ℤ) (y : Bool × Database)
      → Unpublished w y.1
      → Claimed token
      → Sound x q w (Coordinator.stage_running x q token y)
  unfolding Coordinator.stage_running
  stage_running-Sound token (false, s) u claim = record { fair = inl u; certified = tt }
  stage_running-Sound token (true, s) u claim = publish_staged-Sound token s u claim _ refl

  operate-Unpublished :
      {A : Type 0} (l : Link) (y : Result A × Store)
      → y.1.controls ≡ w.store.controls
      → Unpublished w (operate l y w).1
  unfolding operate
  operate-Unpublished l (err c, t) p = record { table = refl; controls = refl }
  operate-Unpublished works (ok a, t) p = record { table = refl; controls = p }
  operate-Unpublished fails (ok a, t) p = record { table = refl; controls = refl }
  operate-Unpublished fails_late (ok a, t) p = record { table = refl; controls = p }

  unchanged : Unpublished w w
  unchanged = record { table = refl; controls = refl }

  after_verify-Sound :
      (token : ℤ) (v : Result LeaseDecision)
      → IsEvidenced q
      → durable_claim x q q.lease ≡ some token
      → (verify_week_lease x.verify_on q.week_start q.run_id token w.store).0 ≡ v
      → Sound x q w (Coordinator.after_verify x q token v w)
  unfolding Coordinator.after_verify
  after_verify-Sound token (err c) z p e = elim (Bool-cases (is_run_store_error c)) [
    | inl uncaught ↦ rw uncaught (record { fair = inl unchanged; certified = tt })
    | inr caught ↦ rw caught (finish_run-Sound x q w 0 _ _ w refl (inl unchanged))
  ]
  after_verify-Sound token (ok d) z p e = elim (Bool-cases (lease_verified d)) [
    | inr refusal ↦ rw refusal (finish_run-Sound x q w 0 _ _ w refl (inl unchanged))
    | inl yes_verified ↦ rw yes_verified (
        stage_running-Sound token _
          (operate-Unpublished (x.commit 0) _ (
            (update_run-Frames (x.operational 0) q.run_id (Coordinator.running_update x q)).at
              w.store))
          (z, p, d, e, yes_verified))
  ]

  publish_claimed-Sound :
      (o : Option ℤ)
      → IsEvidenced q
      → durable_claim x q q.lease ≡ o
      → Sound x q w (Coordinator.publish_claimed x q o w)
  unfolding Coordinator.publish_claimed
  publish_claimed-Sound none z p = finish_run-Sound x q w 0 _ _ w refl (inl unchanged)
  publish_claimed-Sound (some token) z p = after_verify-Sound token _ z p refl

  publish_checked-Sound :
      (issues : List String)
      → pre_write_issues q ≡ issues
      → Sound x q w (Coordinator.publish_checked x q issues w)
  unfolding Coordinator.publish_checked
  publish_checked-Sound [] e = publish_claimed-Sound _ (pre_write_issues-IsEvidenced q e) refl
  publish_checked-Sound (issue ∷ issues) e = finish_run-Sound x q w 0 _ _ w refl (inl unchanged)

  refuses : Sound x q w (raised, w)
  refuses = record { fair = inl unchanged; certified = tt }

  publish_identified-Sound :
      (o : Result (Option RunRecord)) → Sound x q w (Coordinator.publish_identified x q o w)
  unfolding Coordinator.publish_identified
  publish_identified-Sound (err c) = refuses
  publish_identified-Sound (ok none) = refuses
  publish_identified-Sound (ok (some run)) =
      elim (Bool-cases (run.target_week_start == q.week_start && status_eq run.status pending)) [
        | inr other ↦ rw other refuses
        | inl ours ↦ rw ours (publish_checked-Sound _ refl)
      ]

  publish-Sound : Sound x q w (publish_weekly_business_report x q w)
  unfolding publish_weekly_business_report
  publish-Sound = guarded x.separated
    where
      guarded :
          (apart : Bool)
          → Sound x q w (
              if apart
              then Coordinator.publish_identified x q
                  (Coordinator.get_run q.run_id x.identify_on w.store).0
                  w
              else (raised, w))
      guarded true = publish_identified-Sound _
      guarded false = refuses

  -- However a publication ends, and whatever fails in it, the weekly table and the control rows are as they
  -- were, or the request had all its evidence and the whole batch and its publication are committed under a
  -- lease that was verified.
  pub publish_weekly_business_report-Published :
      Unpublished w (publish_weekly_business_report x q w).1
      ⊎ Published x q w (publish_weekly_business_report x q w).1
  publish_weekly_business_report-Published = publish-Sound.fair

  -- A publication that returns a result marked as recorded had all its evidence, has committed the batch and
  -- its publication under a verified lease, has observed the commit, and has stored the result's status in
  -- the run.
  pub publish_weekly_business_report-Certified :
      Certified x q w (publish_weekly_business_report x q w)
  publish_weekly_business_report-Certified = publish-Sound.certified
