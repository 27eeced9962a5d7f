-- ===== src/Coordinator/Recorded.antt =====
-- What the calls of pipelines/coordinator.py write: the control row by a publication and a release, the run
-- rows by the operational calls.
use mathlib.Core.Path.{subst}
use ang553_latam_aie_01_fina.Common.{
  ℕ, ℤ, String, Bool, true, ◌≡◌, refl, sym, Option, none, some, inl, inr, arith, first, ==_refl,
  first-change_where, Bool-cases, ap,
}
use ang553_latam_aie_01_fina.Publication.Types.{
  RunRecord, WeekControl, Store, Connection, CommitResult,
}
use ang553_latam_aie_01_fina.Publication.Call.{
  Result, ok, err, ◌>>=◌, find_control, control_of, continue, change_where, update_control,
  change_control, or_raise, control_not_found, pure, week, update_run_row, change_run, Ensures,
  Ensures-bind, count,
}
use ang553_latam_aie_01_fina.Publication.Text.{optional_text, optional_label, label, checked_text}
use ang553_latam_aie_01_fina.Publication.Rules.{
  Reads-week, Ensures-read, Frames, Frames-Reads, Frames-bind, read_rules,
}
use ang553_latam_aie_01_fina.Publication.Runs.{RunUpdate, update_run, record_commit_observation}
use ang553_latam_aie_01_fina.Publication.Runs.History.{
  require_run-Reads, check_update-Reads, set_columns-Reads,
}
use ang553_latam_aie_01_fina.Publication.Controls.{record_valid_publication}
use ang553_latam_aie_01_fina.Publication.Lease.{
  LeaseDecision, release_week_lease, release_decision, owned,
}
use ang553_latam_aie_01_fina.Publication.Lease.Tokens.{lease_reads}
use ang553_latam_aie_01_fina.Coordinator.{is_released}

update_run_row-Frames :
    (id : ℕ) (cond : RunRecord → Bool) (set : RunRecord → RunRecord)
    → Frames (λ s. s.controls) (update_run_row id cond set)
unfolding update_run_row change_run
update_run_row-Frames id cond set = record { at = λ s. ground arith }

ruleset frame_rules = (
  read_rules, Frames-Reads, Frames-bind, update_run_row-Frames, require_run-Reads,
  check_update-Reads, set_columns-Reads,
)

-- Updates of runs leave the controls alone.
pub update_run-Frames :
    (c : Connection) (id : ℕ) (u : RunUpdate) → Frames (λ s. s.controls) (update_run c id u)
unfolding update_run
update_run-Frames c id u = search frame_rules depth 30

pub record_commit_observation-Frames :
    (c : Connection) (id : ℕ) (result : CommitResult) (stage code message : String)
    → Frames (λ s. s.controls) (record_commit_observation c id result stage code message)
unfolding record_commit_observation
record_commit_observation-Frames c id result stage code message = search frame_rules depth 30

module _ (day : ℕ) (set : WeekControl → WeekControl) (s : Store) (k : WeekControl)
    (keeps : (a : WeekControl) → (set a).week_start ≡ a.week_start)
    (found : find_control day s ≡ some k) where
  after_change :
      first (control_of day) (change_where (control_of day) set s.controls) ≡ some (set k)
  after_change =
      rw
        (
          first-change_where (λ (a : WeekControl). a.week_start) set keeps day day s.controls,
          found,
          ==_refl day,
        )
        refl

  -- A keyed update of a control row whose condition holds.
  control_changed :
      (cond : WeekControl → Bool)
      → cond k ≡ true
      → update_control day cond set s
        ≡ (ok (some (set k)), record s { controls = change_where (control_of day) set s.controls })
  unfolding update_control change_control
  control_changed cond h = rw (found, h) refl

-- The control row holds what a publication recorded.
pub record PointsTo (id at_time : ℕ) (count_of : ℤ) (print rules : Option String) (k : WeekControl)
    : Type 0 where
  pub run_id : k.last_valid_publication_run_id ≡ some id
  pub published_at : k.last_valid_published_at ≡ some at_time
  pub row_count : k.published_row_count ≡ some count_of
  pub fingerprint : k.dependency_fingerprint ≡ print
  pub version : k.rules_version ≡ rules

-- The publication stands in the control row of its week.
abbrev Stands : ℕ → (WeekControl → Type 0) → Result WeekControl → Store → Type 0
Stands day P (err c) t = Unit
Stands day P (ok k) t = (find_control day t ≡ some k) × P k

written-Stands :
    (day start : ℕ) (P : WeekControl → Type 0) (set : WeekControl → WeekControl) (s : Store)
    → day ≡ start
    → ((a : WeekControl) → (set a).week_start ≡ a.week_start)
    → ((a : WeekControl) → P (set a))
    → Ensures
        (Stands start P)
        ((update_control day (λ k. true) set >>= λ row. or_raise row control_not_found) s)
unfolding ◌>>=◌ update_control change_control
written-Stands day start P set s same keeps points = record { at = go (find_control day s) refl }
  where
    Good : Option WeekControl → Type 0
    Good o =
        let (r, t) = change_control day (λ k. true) set o s in
        let (x, u) = continue r (λ row. or_raise row control_not_found) t in Stands start P x u

    go : (o : Option WeekControl) → find_control day s ≡ o → Good o
    go none p = tt
    go (some k) p = (
      subst
          (λ d.
            find_control d (record s { controls = change_where (control_of day) set s.controls })
            ≡ some (set k))
          same (after_change day set s k keeps p),
      points k,
    )

optional_text-same : (o p : Option String) → optional_text o ≡ ok p → p ≡ o
unfolding optional_text checked_text
optional_text-same none p h = ground (arith, h)
optional_text-same (some s) p h = ground (arith, h)

optional_label-same : (o p : Option String) → optional_label o ≡ ok p → p ≡ o
unfolding optional_label label checked_text
optional_label-same none p h = ground (arith, h)
optional_label-same (some s) p h = ground (arith, h)

count-same : (n : ℤ) (o : Option ℤ) (s : Store) → count (some n) s ≡ (ok o, s) → o ≡ some n
unfolding count
count-same n o s h = ground (arith, h)

module _ (c : Connection) (start id at_time : ℕ) (rows : ℤ)
    (fingerprint version : Option String) where
  abbrev Recorded : WeekControl → Type 0
  Recorded = PointsTo id at_time rows fingerprint version

  record_valid_publication-Stands :
      (s : Store)
      → Ensures
          (Stands start Recorded)
          (record_valid_publication c start id at_time rows fingerprint version s)
  unfolding record_valid_publication week
  record_valid_publication-Stands s =
      Ensures-read _ _ s (search read_rules)
        (λ _ _.
          Ensures-read _ _ s (Reads-week start)
            (λ day e.
              Ensures-read _ _ s (require_run-Reads c 0 id)
                (λ run _.
                  Ensures-read _ _ s (search read_rules)
                    (λ _ _.
                      Ensures-bind _ _ s
                        (λ control t _.
                          Ensures-read _ _ t (search read_rules)
                            (λ row_count ec.
                              Ensures-read _ _ t (search read_rules)
                                (λ print ep.
                                  Ensures-read _ _ t (search read_rules)
                                    (λ rules er.
                                      Ensures-read _ _ t (search read_rules)
                                        (λ _ _.
                                          written-Stands day start Recorded _ t (same day s e)
                                            (λ a. refl)
                                            (λ a. record {
                                              run_id = refl;
                                              published_at = refl;
                                              row_count = count-same rows row_count t ec;
                                              fingerprint = optional_text-same fingerprint print (
                                                  ap (λ (x : Result (Option String) × Store). x.0)
                                                    ep);
                                              version = optional_label-same version rules (
                                                  ap (λ (x : Result (Option String) × Store). x.0)
                                                    er);
                                            }))
                                        (λ _. tt))
                                    (λ _. tt))
                                (λ _. tt))
                            (λ _. tt))
                        (λ _ _ _. tt))
                    (λ _. tt))
                (λ _. tt))
            (λ _. tt))
        (λ _. tt)
    where
      same : (day : ℕ) (s : Store) → week start s ≡ (ok day, s) → day ≡ start
      same day s e = ground (arith, e)

  -- A publication that was recorded stands in the week's control row, as it was given.
  pub record_valid_publication-Recorded :
      (s : Store) (k : WeekControl) (t : Store)
      → record_valid_publication c start id at_time rows fingerprint version s ≡ (ok k, t)
      → (find_control start t ≡ some k) × Recorded k
  record_valid_publication-Recorded s k t h =
      subst (λ (x : Result WeekControl × Store). Stands start Recorded x.0 x.1) h
        (record_valid_publication-Stands s).at

-- A release keeps the pointer and frees the row.
abbrev Freed : ℕ → WeekControl → Result LeaseDecision → Store → Type 0
Freed day k (err c) t = Unit
Freed day k (ok d) t =
    is_released d ≡ true
    → (find_control day t
        ≡ some
            (record k { owner_run_id = none; lease_acquired_at = none; lease_expires_at = none }))

release_tail-Freed :
    (day start id token : ℕ) (s : Store) (k : WeekControl)
    → day ≡ start
    → find_control start s ≡ some k
    → Ensures (Freed start k) (
        (update_control day (owned id token) (λ a. record a {
          owner_run_id = none;
          lease_acquired_at = none;
          lease_expires_at = none;
        })
            >>= λ row. pure (release_decision day id row))
          s)
unfolding ◌>>=◌ update_control change_control
release_tail-Freed day start id token s k same found = record {
  at =
      let here : find_control day s ≡ some k =
        subst (λ d. find_control d s ≡ some k) (sym same) found in
      elim (Bool-cases (owned id token k)) [
        | inl mine ↦
            rw (here, mine)
              (λ h.
                subst
                  (λ d.
                    find_control d
                      (record s { controls = change_where (control_of day) free s.controls })
                    ≡ some (free k))
                  same (after_change day free s k (λ a. refl) here))
        | inr other ↦ rw (here, other) (λ h. absurd (ground (arith, h)))
      ];
}
  where
    free : WeekControl → WeekControl
    free a = record a { owner_run_id = none; lease_acquired_at = none; lease_expires_at = none }

module _ (c : Connection) (start id : ℕ) (fencing_token : ℤ) where
  released-Freed :
      (s : Store) (k : WeekControl)
      → find_control start s ≡ some k
      → Ensures (Freed start k) (release_week_lease c start id fencing_token s)
  unfolding release_week_lease week
  released-Freed s k found =
      Ensures-read _ _ s (search lease_reads)
        (λ _ _.
          Ensures-read _ _ s (Reads-week start)
            (λ day e.
              Ensures-read _ _ s (search lease_reads)
                (λ token _.
                  Ensures-read _ _ s (search lease_reads)
                    (λ _ _. release_tail-Freed day start id token s k (ground (arith, e)) found)
                    (λ _. tt))
                (λ _. tt))
            (λ _. tt))
        (λ _. tt)

  -- A release that is confirmed frees the week's row, and leaves its publication.
  pub release_week_lease-Freed :
      (s : Store) (k : WeekControl) (d : LeaseDecision) (t : Store)
      → find_control start s ≡ some k
      → release_week_lease c start id fencing_token s ≡ (ok d, t)
      → is_released d ≡ true
      → find_control start t
        ≡ some (record k { owner_run_id = none; lease_acquired_at = none; lease_expires_at = none })
  release_week_lease-Freed s k d t found h =
      subst (λ (x : Result LeaseDecision × Store). Freed start k x.0 x.1) h
        (released-Freed s k found).at
