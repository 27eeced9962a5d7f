-- ===== src/Coordinator/Ends.antt =====
-- The ends of `publish_weekly_business_report` of pipelines/coordinator.py: what may be committed when it
-- returns or raises, and the operational and business commits.
use ang553_latam_aie_01_fina.Common.{
  ℕ, ℤ, Bool, true, false, ◌≡◌, ◌⊎◌, inl, inr, refl, ap, ◌∙◌, none, some, arith, length, first, pos,
}
use ang553_latam_aie_01_fina.Publication.Types.{
  CommitResult, technically_observed, rolled_back, uncertain, RunRecord, WeekControl, Store,
}
use ang553_latam_aie_01_fina.Publication.Call.{Result, ok, err, find_control, find_run, control_of}
use ang553_latam_aie_01_fina.Publication.Runs.{RunUpdate, update_run, record_commit_observation}
use ang553_latam_aie_01_fina.Publication.Runs.Updated.{update_run-Updated}
use ang553_latam_aie_01_fina.Publication.Lease.{LeaseDecision, lease_verified, verify_week_lease}
use ang553_latam_aie_01_fina.Coordinator.Staging.{Counts, has_disappeared, upsert}
use ang553_latam_aie_01_fina.Coordinator.Evidence.Complete.{IsEvidenced}
use ang553_latam_aie_01_fina.Coordinator
use ang553_latam_aie_01_fina.Coordinator.{
  is_released, publish_weekly_business_report, durable_claim,
}
use ang553_latam_aie_01_fina.Coordinator.Types.{
  Database, Session, PublicationRequest, CoordinatorResult, PublicationEnding, returned, raised,
  Link, works, fails, fails_late, observed, refused, unanswered, BusinessCommit,
}
use ang553_latam_aie_01_fina.Coordinator.Calls.{operate, answer_with}
use ang553_latam_aie_01_fina.Coordinator.Recorded.{
  update_run-Frames, record_commit_observation-Frames, PointsTo,
}

-- Nothing of the business transaction was committed.
pub record Unpublished (w t : Database) : Type 0 where
  pub table : t.table ≡ w.table
  pub controls : t.store.controls ≡ w.store.controls

-- The whole business transaction was committed, with all its evidence and under a verified lease: the batch is in the table,
-- no published key of the week being absent from it, and the week's free control row points to the run,
-- with the time, the size, the fingerprint and the rules of this publication.
pub record Published (x : Session) (q : PublicationRequest) (w t : Database) : Type 0 where
  pub evidence : IsEvidenced q
  pub claim :
      (token : ℤ) × (durable_claim x q q.lease ≡ some token)
      × (d : LeaseDecision) × ((verify_week_lease x.verify_on q.week_start q.run_id token w.store).0
          ≡ ok d)
      × (lease_verified d ≡ true)
  pub complete : has_disappeared q.week_start q.aggregates w.table ≡ false
  pub table : t.table ≡ upsert q.aggregates w.table
  pub control :
      (k : WeekControl) × (find_control q.week_start t.store ≡ some k)
      × PointsTo q.run_id q.now
          (pos (length q.aggregates))
          q.dependency_fingerprint
          q.rules_version
          k
      × (k.owner_run_id ≡ none)

-- What a result that says "recorded" promises.
abbrev pub Certified :
    Session → PublicationRequest → Database → PublicationEnding × Database → Type 0
Certified x q w (raised, t) = Unit
Certified x q w (returned r, t) =
    r.publication_recorded ≡ true
    → Published x q w t
      × (r.commit_result ≡ technically_observed)
      × ((run : RunRecord) × (find_run q.run_id t.store ≡ some run) × (run.status ≡ r.status))

pub record Sound (x : Session) (q : PublicationRequest) (w : Database)
    (e : PublicationEnding × Database) : Type 0 where
  pub fair : Unpublished w e.1 ⊎ Published x q w e.1
  pub certified : Certified x q w e

module _ (x : Session) (q : PublicationRequest) (w : Database) where
  abbrev Fair : Database → Type 0
  Fair t = Unpublished w t ⊎ Published x q w t

  -- A change of the runs alone.
  same_business :
      (s t : Database) → t.table ≡ s.table → t.store.controls ≡ s.store.controls → Fair s → Fair t
  same_business s t p c (inl u) = inl (record { table = p ∙ u.table; controls = c ∙ u.controls })
  same_business s t p c (inr u) = inr (record {
    evidence = u.evidence;
    claim = u.claim;
    complete = u.complete;
    table = p ∙ u.table;
    control =
        let (k, found, points, free) = u.control in
        (k, ap (first (control_of q.week_start)) c ∙ found, points, free);
  })

  operate-Fair :
      {A : Type 0} (l : Link) (y : Result A × Store) (s : Database)
      → y.1.controls ≡ s.store.controls
      → Fair s
      → Fair (operate l y s).1
  unfolding operate
  operate-Fair l (err c, t) s p f = f
  operate-Fair works (ok a, t) s p f = same_business s _ refl p f
  operate-Fair fails (ok a, t) s p f = f
  operate-Fair fails_late (ok a, t) s p f = same_business s _ refl p f

  -- An operational call before a result that records nothing.
  answer_with-Sound :
      (r : CoordinatorResult) (y : Bool × Database)
      → r.publication_recorded ≡ false
      → Fair y.1
      → Sound x q w (answer_with r y)
  answer_with-Sound r (true, t) h f = record {
    fair = f;
    certified = λ k. absurd (ground (arith, h, k));
  }
  answer_with-Sound r (false, t) h f = record { fair = f; certified = tt }

  pub finish_run-Sound :
      (n : ℕ) (u : RunUpdate) (r : CoordinatorResult) (s : Database)
      → r.publication_recorded ≡ false
      → Fair s
      → Sound x q w (Coordinator.finish_run x q n u r s)
  unfolding Coordinator.finish_run
  finish_run-Sound n u r s h f = answer_with-Sound r _ h (
      operate-Fair (x.commit n) (update_run (x.operational n) q.run_id u s.store) s
        ((update_run-Frames (x.operational n) q.run_id u).at s.store) f)

  observe_uncertain-Sound :
      (result : CommitResult) (n : Counts) (s : Database)
      → Fair s
      → Sound x q w (Coordinator.observe_uncertain x q result n s)
  unfolding Coordinator.observe_uncertain
  observe_uncertain-Sound result n s f = answer_with-Sound _ _ refl (
      operate-Fair (x.commit 1)
        (record_commit_observation (x.operational 1) q.run_id result _ _ _ s.store) s
        ((record_commit_observation-Frames (x.operational 1) q.run_id result _ _ _).at s.store) f)

  -- The last update of the run, after the business commit.
  success-Sound :
      (n : Counts) (s : Database) (l : Link) (y : Result RunRecord × Store)
      → update_run (x.operational 1) q.run_id (Coordinator.success_update x q n) s.store ≡ y
      → y.1.controls ≡ s.store.controls
      → Published x q w s
      → Sound x q w (answer_with (Coordinator.success x q n) (operate l y s))
  unfolding operate
  success-Sound n s l (err c, t) e p u = record { fair = inr u; certified = tt }
  success-Sound n s fails (ok r, t) e p u = record { fair = inr u; certified = tt }
  success-Sound n s fails_late (ok r, t) e p u = record {
    fair = same_business s _ refl p (inr u);
    certified = tt;
  }
  success-Sound n s works (ok r, t) e p u =
      let updated =
        update_run-Updated (x.operational 1) q.run_id (Coordinator.success_update x q n) s.store r t
          e in
      record {
        fair = same_business s _ refl p (inr u);
        certified = λ h. (
          record {
            evidence = u.evidence;
            claim = u.claim;
            complete = u.complete;
            table = u.table;
            control =
                let (k, found, points, free) = u.control in
                (k, ap (first (control_of q.week_start)) p ∙ found, points, free);
          },
          refl,
          (r, updated.stored, updated.status),
        );
      }

  pub commit_business-Sound :
      (b : BusinessCommit) (n : Counts) (new s : Database)
      → Published x q w new
      → Fair s
      → Sound x q w (Coordinator.commit_business x q b n new s)
  unfolding Coordinator.commit_business Coordinator.finish_run
  commit_business-Sound observed n new s u f =
      success-Sound n new (x.commit 1) _ refl
        ((update_run-Frames (x.operational 1) q.run_id (Coordinator.success_update x q n)).at
          new.store)
        u
  commit_business-Sound refused n new s u f = observe_uncertain-Sound rolled_back n s f
  commit_business-Sound (unanswered true) n new s u f =
      observe_uncertain-Sound uncertain n new (inr u)
  commit_business-Sound (unanswered false) n new s u f = observe_uncertain-Sound uncertain n s f
