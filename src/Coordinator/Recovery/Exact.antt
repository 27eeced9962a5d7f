-- ===== src/Coordinator/Recovery/Exact.antt =====
-- What `resolve_uncertain_publication` of pipelines/coordinator.py finds out about a publication.
use mathlib.Core.Path.{subst}
use ang553_latam_aie_01_fina.Common.{
  ℕ, ◌+◌, ◌%◌, pos, String, Bool, true, false, ◌≡◌, ◌≢◌, ◌↔◌, inl, inr, refl, sym, ap, ◌∙◌, Option,
  none, some, arith, length, first, ==_refl, ==_iff, str_eq_iff, Option-cases, Bool-cases, ◌==◌,
}
use ang553_latam_aie_01_fina.Publication.Types.{WeekControl, Connection, Store, status_eq}
use ang553_latam_aie_01_fina.Publication.Call.{
  Code, ok, err, ◌>>=◌, find_control, control_of, read_control,
}
use ang553_latam_aie_01_fina.Publication.Lease.Ready.{
  Ready, bind_ok, require_transaction-ready, execute-ready, week-monday,
}
use ang553_latam_aie_01_fina.Coordinator.{publish_weekly_business_report}
use ang553_latam_aie_01_fina.Coordinator.Types.{
  Database, Session, PublicationRequest, PublicationEnding, returned, raised, works,
}
use ang553_latam_aie_01_fina.Coordinator.Recorded.{PointsTo}
use ang553_latam_aie_01_fina.Coordinator.Recovery.{
  ValidPublication, valid_publication, latest_valid_publication, RecoveryRequest, count_agrees,
  publication_matches, persist_matched, persist_unmatched, resolve_read,
  resolve_uncertain_publication, business_publication_valid,
}
use ang553_latam_aie_01_fina.Coordinator.Ends.{Published}
use ang553_latam_aie_01_fina.Coordinator.Atomic.{publish_weekly_business_report-Published}

-- A question after the publication, without writing.
abbrev pub enquiry : Connection → PublicationRequest → String → String → RecoveryRequest
enquiry c q fingerprint version = record {
  connection = c;
  week_start = q.week_start;
  run_id = q.run_id;
  dependency_fingerprint = fingerprint;
  rules_version = version;
  published_row_count = some (pos (length q.aggregates));
  operational = none;
  commit = works;
  now = none;
  persist = false;
}

-- The answer is a valid publication.
abbrev pub recognizes : PublicationEnding → Bool
recognizes raised = false
recognizes (returned r) = business_publication_valid r

latest-ready :
    (c : Connection) (day : ℕ) (s : Store)
    → Ready c
    → (day + 6) % 7 ≡ 0
    → latest_valid_publication c day s ≡ valid_publication (find_control day s) s
unfolding latest_valid_publication read_control
latest-ready c day s ready monday = bind_ok _ _ s s tt _ (require_transaction-ready c s ready) (
    bind_ok _ _ s s day _ (week-monday day s monday) (
      bind_ok _ _ s s tt _ (execute-ready c 0 s ready)
        (bind_ok _ _ s s (find_control day s) _ refl refl)))

module _ (q : RecoveryRequest) (w : Database) where
  resolve_raised : (e : Code) → recognizes (resolve_read q (err e) w).0 ≡ false
  unfolding resolve_read
  resolve_raised e = refl

  resolve_no :
      (p : Option ValidPublication)
      → q.persist ≡ false
      → publication_matches q p ≡ false
      → recognizes (resolve_read q (ok p) w).0 ≡ false
  unfolding resolve_read persist_unmatched
  resolve_no p h k = rw (k, h) refl

  resolve_yes :
      (p : Option ValidPublication)
      → q.persist ≡ false
      → publication_matches q p ≡ true
      → recognizes (resolve_read q (ok p) w).0 ≡ true
  unfolding resolve_read persist_matched status_eq
  resolve_yes p h k = rw (k, h) refl

-- The answer for a row that is stored for the week.
abbrev answer_for : RecoveryRequest → Option WeekControl → Database → Bool
answer_for r o w = recognizes (resolve_read r (valid_publication o w.store).0 w).0

count_agrees_refl : (n : ℕ) → count_agrees (some (pos n)) (pos n) ≡ true
unfolding count_agrees
count_agrees_refl n = ground arith

module _ (c : Connection) (q : PublicationRequest) (print rules : String) (w : Database) where
  recorded_yes :
      (k : WeekControl)
      → PointsTo q.run_id q.now (pos (length q.aggregates)) (some print) (some rules) k
      → answer_for (enquiry c q print rules) (some k) w ≡ true
  unfolding valid_publication publication_matches ◌>>=◌
  recorded_yes k points =
      rw (points.run_id, points.published_at, points.row_count, points.fingerprint, points.version)
        (resolve_yes (enquiry c q print rules) w _ refl (
          rw
            (
              ==_refl q.run_id,
              (str_eq_iff print print).1 refl,
              (str_eq_iff rules rules).1 refl,
              count_agrees_refl (length q.aggregates),
            )
            refl))

  other_no :
      (o : Option WeekControl)
      → ((k : WeekControl) → o ≡ some k → k.last_valid_publication_run_id ≢ some q.run_id)
      → answer_for (enquiry c q print rules) o w ≡ false
  unfolding valid_publication publication_matches ◌>>=◌
  other_no none h = resolve_no (enquiry c q print rules) w none refl refl
  other_no (some k) h = elim (Option-cases k.last_valid_publication_run_id) [
    | inl p ↦ rw p (resolve_no (enquiry c q print rules) w none refl refl)
    | inr (id, p) ↦ elim (Option-cases k.last_valid_published_at) [
      | inl missing ↦ rw (p, missing) (resolve_raised (enquiry c q print rules) w _)
      | inr (t, there) ↦
          rw (p, there) (resolve_no (enquiry c q print rules) w _ refl (rw (differs id p) refl))
    ]
  ]
    where
      differs : (id : ℕ) → k.last_valid_publication_run_id ≡ some id → (id == q.run_id) ≡ false
      differs id p = elim (Bool-cases (id == q.run_id)) [
        | inr other ↦ other
        | inl same ↦ absurd (h k refl (p ∙ ap (λ i. some i) ((==_iff id q.run_id).0 same)))
      ]

module _ (x : Session) (c : Connection) (q : PublicationRequest) (print rules : String)
    (w : Database) where
  -- The week as the publication left it.
  abbrev left : Database
  left = (publish_weekly_business_report x q w).1

  -- However a publication ended, its answer lost or its run left running, a later question on a working
  -- connection, with the fingerprint, the rules and the size of the batch, recognizes a valid publication if
  -- and only if the whole business transaction was committed. The week is a Monday, the publication had a
  -- fingerprint and rules, and the run was not the week's valid publication before.
  pub resolve_uncertain_publication-Published :
      Ready c
      → (q.week_start + 6) % 7 ≡ 0
      → q.dependency_fingerprint ≡ some print
      → q.rules_version ≡ some rules
      → ((k : WeekControl)
          → find_control q.week_start w.store ≡ some k
          → k.last_valid_publication_run_id ≢ some q.run_id)
      → (recognizes (resolve_uncertain_publication (enquiry c q print rules) left).0 ≡ true)
        ↔ Published x q w left
  unfolding resolve_uncertain_publication
  resolve_uncertain_publication-Published ready monday print_given rules_given fresh = (
    λ valid. elim (publish_weekly_business_report-Published x q w) [
      | inr u ↦ u
      | inl u ↦ absurd (
          ground (
            arith,
            valid,
            answer,
            other_no c q print rules left (find_control q.week_start left.store) (λ k found.
                fresh k (sym (ap (first (control_of q.week_start)) u.controls) ∙ found)),
          ))
    ],
    λ u.
        let (k, found, points, _) = u.control in
        answer
        ∙ ap (λ o. answer_for (enquiry c q print rules) o left) found
        ∙ recorded_yes c q print rules left k (
            subst (λ a. PointsTo q.run_id q.now (pos (length q.aggregates)) (some print) a k)
              rules_given
              (subst (λ a. PointsTo q.run_id q.now (pos (length q.aggregates)) a q.rules_version k)
                print_given points)),
  )
    where
      answer :
          recognizes (resolve_uncertain_publication (enquiry c q print rules) left).0
          ≡ answer_for (enquiry c q print rules) (find_control q.week_start left.store) left
      answer =
          ap (λ y. recognizes (resolve_read (enquiry c q print rules) y.0 left).0)
            (latest-ready c q.week_start left.store ready monday)
