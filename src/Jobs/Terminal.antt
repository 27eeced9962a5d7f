-- ===== src/Jobs/Terminal.antt =====
-- `complete_job_run` and `fail_job_run` of services/job_runner/service.py on each state of a run.
use mathlib.Core.Path.{subst}
use ang553_latam_aie_01_fina.Common.{
  ℕ, String, Bool, true, false, not, ◌&&◌, ◌≡◌, inl, inr, refl, ap, ◌∙◌, none, some, [], ◌∷◌, arith,
  ◌==◌, ==_refl, str_eq, first, change_where, first-change_where, Bool-cases, All,
}
use ang553_latam_aie_01_fina.Jobs.Types.{
  processing, JobRun, Table, run_with, is_processing, is_claim, same_processing, same_claim,
  conflict, update_row, update_found,
}
use ang553_latam_aie_01_fina.Jobs.{
  Outcome, returned, Link, confirmed, complete_row, fail_row, complete_job_run, fail_job_run,
  TransitionResult, terminal_answer, current_answer, settle_answer, terminal_transition, statement,
}
use ang553_latam_aie_01_fina.Jobs.Exclusive.{
  Exclusive, apart, apart_sym, All-map, All-first, ==_sym,
}
use ang553_latam_aie_01_fina.Jobs.Success.{any_of-All, update_row-hit}

-- A row of an exclusive table is apart from every row with another id.
Exclusive-apart :
    (i : ℕ) (r : JobRun) (s : Table)
    → Exclusive s
    → first (run_with i) s ≡ some r
    → All (λ b. (r.id == b.id) ≡ false → apart r b ≡ true) s
unfolding first
Exclusive-apart i r [] ex found = tt
Exclusive-apart i r (a ∷ s) (ap_a, ex) found = elim (Bool-cases (a.id == i)) [
  | inl here ↦
      let same : a ≡ r = ground (arith, found, here) in
      subst (λ x. All (λ b. (x.id == b.id) ≡ false → apart x b ≡ true) (a ∷ s)) same
        ((λ h. absurd (ground (arith, h, ==_refl a.id))), All-map (λ b k h. k) s ap_a)
  | inr there ↦
      let later : first (run_with i) s ≡ some r = ground (arith, found, there) in
      (
        (λ h. apart_sym r a ∙ All-first (λ b. apart a b ≡ true) (run_with i) s r later ap_a),
        Exclusive-apart i r s ex later,
      )
]

-- A terminal version of a processing run joins no index key that the run did not.
not_processing_free :
    (n : Bool) (new b : JobRun)
    → is_processing new.status ≡ false
    → (n && same_processing new b) ≡ false
unfolding same_processing
not_processing_free n new b h = ground (arith, h)

apart-claim :
    (r b : JobRun)
    → r.status ≡ processing
    → apart r b ≡ true
    → (is_claim b.status && str_eq r.job_name b.job_name && r.target_date == b.target_date) ≡ false
unfolding apart same_claim
apart-claim r b was h = ground (arith, h, ap is_claim was)

keeps_claim :
    (r new b : JobRun)
    → r.status ≡ processing
    → new.id ≡ r.id
    → new.job_name ≡ r.job_name
    → new.target_date ≡ r.target_date
    → ((r.id == b.id) ≡ false → apart r b ≡ true)
    → (not (b.id == new.id) && same_claim new b) ≡ false
unfolding same_claim
keeps_claim r new b was id job date h =
    rw (id, job, date, ==_sym b.id r.id)
      (elim (Bool-cases (r.id == b.id)) [
        | inl same ↦ rw same refl
        | inr other ↦ ground (arith, other, apart-claim r b was (h other))
      ])

terminal-conflict :
    (i : ℕ) (r new : JobRun) (s : Table)
    → Exclusive s
    → first (run_with i) s ≡ some r
    → r.status ≡ processing
    → is_processing new.status ≡ false
    → new.id ≡ r.id
    → new.job_name ≡ r.job_name
    → new.target_date ≡ r.target_date
    → conflict new s ≡ none
unfolding conflict
terminal-conflict i r new s ex found was not_processing id job date =
    rw
      (
        any_of-All (λ b. not (b.id == new.id) && same_processing new b) s
            (All-map (λ b k. not_processing_free _ new b not_processing) s
              (Exclusive-apart i r s ex found)),
        any_of-All (λ b. not (b.id == new.id) && same_claim new b) s
            (All-map (λ b k. keeps_claim r new b was id job date k) s
              (Exclusive-apart i r s ex found)),
      )
      refl

-- A transaction whose statements all work, and whose commit is confirmed.
pub record Works (link : Link) : Type 0 where
  pub fault : (n : ℕ) → link.fault n ≡ false
  pub commit : link.commit ≡ confirmed

-- The transition to a terminal status, on each state of the run.
terminal_transition-changed :
    (link : Link) (id : ℕ) (set : JobRun → JobRun) (s : Table) (r : JobRun)
    → Works link
    → first (run_with id) s ≡ some r
    → is_processing r.status ≡ true
    → conflict (set r) s ≡ none
    → terminal_transition link id set s
      ≡ (returned (record { changed = true; run = set r }), change_where (run_with id) set s)
unfolding terminal_transition terminal_answer settle_answer statement
terminal_transition-changed link id set s r w found hit free =
    rw
      (
        w.fault 0,
        w.fault 1,
        update_row-hit id (λ a. is_processing a.status) set r s found hit free,
        w.commit,
      )
      refl

terminal_transition-kept :
    (link : Link) (id : ℕ) (set : JobRun → JobRun) (s : Table) (r : JobRun)
    → Works link
    → first (run_with id) s ≡ some r
    → is_processing r.status ≡ false
    → terminal_transition link id set s ≡ (returned (record { changed = false; run = r }), s)
unfolding terminal_transition terminal_answer settle_answer statement update_row update_found
    current_answer
terminal_transition-kept link id set s r w found miss =
    rw (w.fault 0, w.fault 1, found, miss, w.fault 2, found, w.commit) refl

-- A completion or a failure.
pub data Ending : Type 0 where
  completing : ℕ → Ending
  failing : String → ℕ → Ending

unfoldable pub end_run : Link → Ending → ℕ → Table → Outcome TransitionResult × Table
end_run link (completing now) id s = complete_job_run link id now s
end_run link (failing message now) id s = fail_job_run link id message now s

abbrev pub end_row : Ending → JobRun → JobRun
end_row (completing now) r = complete_row now r
end_row (failing message now) r = fail_row now message r

end_row-conflict :
    (e : Ending) (id : ℕ) (s : Table) (r : JobRun)
    → Exclusive s
    → first (run_with id) s ≡ some r
    → r.status ≡ processing
    → conflict (end_row e r) s ≡ none
end_row-conflict (completing now) id s r ex found was =
    terminal-conflict id r (complete_row now r) s ex found was refl refl refl refl
end_row-conflict (failing message now) id s r ex found was =
    terminal-conflict id r (fail_row now message r) s ex found was refl refl refl refl

end_run-changed :
    (link : Link) (e : Ending) (id : ℕ) (s : Table) (r : JobRun)
    → Works link
    → Exclusive s
    → first (run_with id) s ≡ some r
    → r.status ≡ processing
    → end_run link e id s ≡ (
      returned (record { changed = true; run = end_row e r }),
      change_where (run_with id) (end_row e) s,
    )
unfolding end_run
end_run-changed link (completing now) id s r w ex found was =
    terminal_transition-changed link id (complete_row now) s r w found (ap is_processing was)
      (end_row-conflict (completing now) id s r ex found was)
end_run-changed link (failing message now) id s r w ex found was =
    terminal_transition-changed link id (fail_row now message) s r w found (ap is_processing was)
      (end_row-conflict (failing message now) id s r ex found was)

end_run-kept :
    (link : Link) (e : Ending) (id : ℕ) (s : Table) (r : JobRun)
    → Works link
    → first (run_with id) s ≡ some r
    → is_processing r.status ≡ false
    → end_run link e id s ≡ (returned (record { changed = false; run = r }), s)
unfolding end_run
end_run-kept link (completing now) id s r w found miss =
    terminal_transition-kept link id (complete_row now) s r w found miss
end_run-kept link (failing message now) id s r w found miss =
    terminal_transition-kept link id (fail_row now message) s r w found miss

end_row-ended : (e : Ending) (r : JobRun) → is_processing (end_row e r).status ≡ false
end_row-ended (completing now) r = refl
end_row-ended (failing message now) r = refl

end_row-stored :
    (e : Ending) (id : ℕ) (s : Table) (r : JobRun)
    → first (run_with id) s ≡ some r
    → first (run_with id) (change_where (run_with id) (end_row e) s) ≡ some (end_row e r)
end_row-stored (completing now) id s r found =
    rw (first-change_where (λ a. a.id) (complete_row now) (λ a. refl) id id s, found, ==_refl id)
      refl
end_row-stored (failing message now) id s r found =
    rw
      (first-change_where (λ a. a.id) (fail_row now message) (λ a. refl) id id s, found, ==_refl id)
      refl

-- Of a processing run, the first completion or failure whose transaction works is stored and returned
-- as changed; any completion or failure after it changes nothing and returns what the first stored.
-- The table has no two rows that share an id, a processing job or a claimed target.
pub first_ending_wins :
    (link link' : Link) (e e' : Ending) (id : ℕ) (s : Table) (r : JobRun)
    → Works link
    → Works link'
    → Exclusive s
    → first (run_with id) s ≡ some r
    → r.status ≡ processing
    → ((end_run link e id s).0 ≡ returned (record { changed = true; run = end_row e r }))
      × (end_run link' e' id (end_run link e id s).1
          ≡ (returned (record { changed = false; run = end_row e r }), (end_run link e id s).1))
first_ending_wins link link' e e' id s r w w' ex found was =
    let ended = end_run-changed link e id s r w ex found was in
    let stored = end_row-stored e id s r found in
    (
      ap (λ (x : Outcome TransitionResult × Table). x.0) ended,
      end_run-kept link' e' id _ (end_row e r) w'
          (ap (λ (x : Outcome TransitionResult × Table). first (run_with id) x.1) ended ∙ stored)
          (end_row-ended e r),
    )
