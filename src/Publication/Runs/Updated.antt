-- ===== src/Publication/Runs/Updated.antt =====
-- `update_run` of pipelines/run_store.py when it returns.
use mathlib.Core.Path.{subst}
use ang553_latam_aie_01_fina.Common.{
  ℕ, Bool, true, ◌≡◌, refl, sym, ap, ◌∙◌, Option, none, some, inl, inr, arith, ==_refl, first,
  first-change_where, is_some, Bool-cases,
}
use ang553_latam_aie_01_fina.Publication.Types.{
  CommitResult, RunRecord, Store, Connection, status_eq,
}
use ang553_latam_aie_01_fina.Publication.Call.{
  Result, ok, Call, ◌>>=◌, find_run, run_with, change_run, update_run_row, or_raise,
  status_conflict, Ensures, Ensures-bind, change_where,
}
use ang553_latam_aie_01_fina.Publication.Rules.{Reads, Reads-execute, Ensures-read, read_rules}
use ang553_latam_aie_01_fina.Publication.Runs.{
  allowed, terminal, RunUpdate, update_run, check_update, set_columns,
}
use ang553_latam_aie_01_fina.Publication.Runs.Transitions.{status_eq→eq, check_update-ok}
use ang553_latam_aie_01_fina.Publication.Runs.History.{
  require_run-Reads, check_update-Reads, set_columns-Reads, set_columns-status,
}

-- The run was stored with a status from which the new one is allowed; the row returned is the one
-- stored now, with the status and the end that were asked for, and what a final status must state.
pub record Updated (id : ℕ) (u : RunUpdate) (s : Store) (r : RunRecord) (t : Store) : Type 0 where
  pub old : RunRecord
  pub found : find_run id s ≡ some old
  pub expected : old.status ≡ u.expected_status
  pub moved : allowed old.status r.status ≡ true
  pub status : r.status ≡ u.status
  pub finished_at : r.finished_at ≡ u.finished_at
  pub ended : terminal u.status ≡ true → is_some r.finished_at ≡ true
  pub stored : find_run id t ≡ some r

-- The row that a keyed update returns.
record Row (id : ℕ) (cond : RunRecord → Bool) (set : RunRecord → RunRecord) (s : Store)
    (r : RunRecord) (t : Store) : Type 0 where
  old : RunRecord
  found : find_run id s ≡ some old
  hit : cond old ≡ true
  row : r ≡ set old
  stored : find_run id t ≡ some r

abbrev given : RunRecord → Result (Option RunRecord) → RunRecord
given d (ok (some r)) = r
given d _ = d

update_run_row-Row :
    (id : ℕ) (cond : RunRecord → Bool) (set : RunRecord → RunRecord) (s : Store) (r : RunRecord)
    (t : Store)
    → ((a : RunRecord) → (set a).run_id ≡ a.run_id)
    → update_run_row id cond set s ≡ (ok (some r), t)
    → Row id cond set s r t
unfolding update_run_row change_run
update_run_row-Row id cond set s r t keeps h = go (find_run id s) refl h
  where
    after :
        (old : RunRecord)
        → find_run id s ≡ some old
        → first (run_with id) (change_where (run_with id) set s.runs) ≡ some (set old)
    after old p = rw (first-change_where (λ a. a.run_id) set keeps id id s.runs, p, ==_refl id) refl

    go :
        (o : Option RunRecord)
        → find_run id s ≡ o
        → change_run id cond set o s ≡ (ok (some r), t)
        → Row id cond set s r t
    go none p q = cc
    go (some old) p q = elim (Bool-cases (cond old)) [
      | inr miss ↦ let q' = rw miss at q in cc
      | inl hit ↦
          let q' = rw hit at q in
          let same : r ≡ set old =
            sym (ap (λ (x : Result (Option RunRecord) × Store). given (set old) x.0) q') in
          record {
            old = old;
            found = p;
            hit = hit;
            row = same;
            stored =
                subst (λ z. find_run id z ≡ some r)
                  (ap (λ (x : Result (Option RunRecord) × Store). x.1) q')
                  (after old p ∙ ap some (sym same));
          }
    ]

Row-Updated :
    (id : ℕ) (current : RunRecord) (u : RunUpdate) (chosen : CommitResult)
    (set : RunRecord → RunRecord) (s : Store) (r : RunRecord) (t : Store)
    → check_update current u s ≡ (ok chosen, s)
    → set_columns current u chosen s ≡ (ok set, s)
    → Row id (λ a. status_eq a.status u.expected_status) set s r t
    → Updated id u s r t
Row-Updated id current u chosen set s r t checked columns row =
    let (_, moved, ended, _, _) = check_update-ok current u s chosen s checked in
    let (_, status, finished_at) = set_columns-status current u chosen s set columns row.old in
    let expected = status_eq→eq row.old.status u.expected_status row.hit in
    let new_status : r.status ≡ u.status = ap (λ (x : RunRecord). x.status) row.row ∙ status in
    let new_end : r.finished_at ≡ u.finished_at =
      ap (λ (x : RunRecord). x.finished_at) row.row ∙ finished_at in
    record {
      old = row.old;
      found = row.found;
      expected = expected;
      moved = rw (expected, new_status) moved;
      status = new_status;
      finished_at = new_end;
      ended = λ e. rw new_end (ended e);
      stored = row.stored;
    }

update_run-Ensures :
    (c : Connection) (id : ℕ) (u : RunUpdate) (s : Store)
    → Ensures (λ x t. (r : RunRecord) → x ≡ ok r → Updated id u s r t) (update_run c id u s)
unfolding update_run
update_run-Ensures c id u s = step _ _ (search read_rules) λ _ _.
    step _ _ (require_run-Reads c 0 id) λ current _.
      step _ _ (check_update-Reads current u) λ chosen checked.
        step _ _ (set_columns-Reads current u chosen) λ set columns.
          step _ _ (Reads-execute c 1) λ _ _.
            Ensures-bind _ _ s (λ o t h. written current chosen set checked columns o t h)
              (λ e t h r k. absurd (ground (arith, k)))
  where
    step :
        {A : Type 0} (m : Call A) (f : A → Call RunRecord)
        → Reads m
        → ((a : A)
            → m s ≡ (ok a, s)
            → Ensures (λ x t. (r : RunRecord) → x ≡ ok r → Updated id u s r t) (f a s))
        → Ensures (λ x t. (r : RunRecord) → x ≡ ok r → Updated id u s r t) ((m >>= f) s)
    step m f rm good = Ensures-read m f s rm good (λ e r k. absurd (ground (arith, k)))

    written :
        (current : RunRecord) (chosen : CommitResult) (set : RunRecord → RunRecord)
        → check_update current u s ≡ (ok chosen, s)
        → set_columns current u chosen s ≡ (ok set, s)
        → (o : Option RunRecord) (t : Store)
        → update_run_row id (λ a. status_eq a.status u.expected_status) set s ≡ (ok o, t)
        → Ensures
            (λ x z. (r : RunRecord) → x ≡ ok r → Updated id u s r z)
            (or_raise o status_conflict t)
    written current chosen set checked columns none t h = record {
      at = λ r k. absurd (ground (arith, k));
    }
    written current chosen set checked columns (some a) t h = record {
      at = λ r k.
          subst (λ x. Updated id u s x t) (ground (arith, k))
            (Row-Updated id current u chosen set s a t checked columns (
              update_run_row-Row id _ set s a t
                (λ x. (set_columns-status current u chosen s set columns x).0) h));
    }

-- An update of a run that returns has found the run under the status that was expected, with the new
-- status allowed after it. The row it returns is the one stored now; it has the status and the end that
-- were asked for, and an end if the status is final.
pub update_run-Updated :
    (c : Connection) (id : ℕ) (u : RunUpdate) (s : Store) (r : RunRecord) (t : Store)
    → update_run c id u s ≡ (ok r, t)
    → Updated id u s r t
update_run-Updated c id u s r t h =
    subst (λ z. Updated id u s r z) (ap (λ (x : Result RunRecord × Store). x.1) h)
      ((update_run-Ensures c id u s).at r (ap (λ (x : Result RunRecord × Store). x.0) h))
