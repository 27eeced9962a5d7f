-- ===== src/Jobs/Owners.antt =====
-- `acquire_job_run` of services/job_runner/service.py: which calls return `acquired`.
use mathlib.Core.Path.{subst}
use ang553_latam_aie_01_fina.Common.{
  ℕ, String, Bool, true, false, ◌≡◌, inl, inr, refl, sym, ap, ◌∙◌, Option, none, some, List, ◌∷◌,
  arith, ==_refl, str_eq, str_eq_iff, first, if◌then◌else◌, Bool-cases, All,
}
use ang553_latam_aie_01_fina.Jobs.Types.{
  processing, completed, JobRun, Table, Constraint, primary_key, processing_constraint,
  target_constraint, Step, done, violated, broken, run_with, same_processing, same_claim, conflict,
}
use ang553_latam_aie_01_fina.Jobs.{
  Outcome, returned, raised, persistence_error, Link, AcquisitionStatus, acquired,
  AcquisitionResult, Commit, confirmed, refused, unseen, pending_row, start_row, acquire_job_run,
  valid_job_name, acquisition, settle, expected_conflict, query, confirm, read_conflict,
}
use ang553_latam_aie_01_fina.Jobs.Exclusive.{
  Leaves, apart, conflict-apart, All-any_of, All-zip, All-first, ==_sym,
}
use ang553_latam_aie_01_fina.Jobs.History.{Started, acquire_statements-Started}
use ang553_latam_aie_01_fina.Jobs.Claims.{
  JobCall, is_terminal, replay, replay_finished, Changed-first,
}

abbrev pub is_acquired : AcquisitionStatus → Bool
is_acquired acquired = true
is_acquired _ = false

-- `AcquisitionResult.acquired`, of a call that returned.
abbrev pub owns : Outcome AcquisitionResult → Bool
owns (returned a) = is_acquired a.status
owns (raised e) = false

query-skips :
    (b : Bool) (o : Option JobRun) (found : JobRun → Outcome AcquisitionResult)
    (absent : Outcome AcquisitionResult)
    → ((r : JobRun) → owns (found r) ≡ false)
    → owns absent ≡ false
    → owns (query b o found absent) ≡ false
unfolding query
query-skips true o found absent f a = refl
query-skips false none found absent f a = a
query-skips false (some r) found absent f a = f r

confirm-skips :
    (c : Commit) (o : Outcome AcquisitionResult) → owns o ≡ false → owns (confirm c o) ≡ false
unfolding confirm
confirm-skips confirmed o h = h
confirm-skips refused o h = refl
confirm-skips unseen o h = refl

if-skips :
    (b : Bool) (o : Outcome AcquisitionResult)
    → owns o ≡ false
    → owns (if b then raised persistence_error else o) ≡ false
if-skips true o h = refl
if-skips false o h = h

read_conflict-skips :
    (link : Link) (name : String) (target : ℕ) (s : Table)
    → owns (read_conflict link name target s) ≡ false
unfolding read_conflict
read_conflict-skips link name target s = confirm-skips link.commit _ (
    if-skips (link.fault 0) _ (
      query-skips (link.fault 1) _ _ _ (λ r. refl)
        (query-skips (link.fault 2) _ _ _ (λ r. refl)
          (query-skips (link.fault 3) _ _ _ (λ r. refl) refl))))

-- What an acquisition did that returned `acquired`.
pub record Owned (id : ℕ) (name : String) (target now : ℕ) (s : Table)
    (x : Outcome AcquisitionResult × Table) : Type 0 where
  pub run : JobRun
  pub answer : x.0 ≡ returned (record { status = acquired; run = run })
  pub start : Started id name target now s run x.1

refused_skips :
    (link : Link) (name : String) (target : ℕ) (later : Table) (c : Constraint)
    → owns (
        if expected_conflict c
        then read_conflict link name target later
        else raised persistence_error)
      ≡ false
refused_skips link name target later primary_key = refl
refused_skips link name target later processing_constraint =
    read_conflict-skips link name target later
refused_skips link name target later target_constraint = read_conflict-skips link name target later

Owned-step :
    (second : Link) (name : String) (target : ℕ) (later : Table) (id now : ℕ) (s : Table)
    (c : Commit) (x : Step (JobRun × Table))
    → Leaves (Started id name target now s) x
    → owns (acquisition second name target later (settle c s x)).0 ≡ true
    → Owned id name target now s (acquisition second name target later (settle c s x))
unfolding acquisition settle
Owned-step second name target later id now s confirmed (done (r, t)) st h = record {
  run = r;
  answer = refl;
  start = st;
}
Owned-step second name target later id now s refused (done (r, t)) st h = absurd (ground arith)
Owned-step second name target later id now s unseen (done (r, t)) st h = absurd (ground arith)
Owned-step second name target later id now s confirmed broken st h = absurd (ground arith)
Owned-step second name target later id now s refused broken st h = absurd (ground arith)
Owned-step second name target later id now s unseen broken st h = absurd (ground arith)
Owned-step second name target later id now s confirmed (violated e) st h =
    absurd (ground (arith, h, refused_skips second name target later e))
Owned-step second name target later id now s refused (violated e) st h =
    absurd (ground (arith, h, refused_skips second name target later e))
Owned-step second name target later id now s unseen (violated e) st h =
    absurd (ground (arith, h, refused_skips second name target later e))

acquire_job_run-Owned :
    (link second : Link) (later : Table) (id : ℕ) (name : String) (target now : ℕ) (s : Table)
    → owns (acquire_job_run link second later id name target now s).0 ≡ true
    → Owned id name target now s (acquire_job_run link second later id name target now s)
unfolding acquire_job_run
acquire_job_run-Owned link second later id name target now s =
    elim (Bool-cases (valid_job_name name)) [
      | inr bad ↦ rw bad (λ h. absurd (ground arith))
      | inl good ↦ rw good (
          Owned-step second name target later id now s link.commit _
            (acquire_statements-Started link id name target now s))
    ]

pub Started-old :
    (id : ℕ) (name : String) (target now : ℕ) (s : Table) (r : JobRun) (t : Table)
    → (st : Started id name target now s r t) → st.change.old ≡ pending_row id name target now
unfolding first
Started-old id name target now s r t st = ground (arith, st.change.found, ==_refl id)

Started-run :
    (id : ℕ) (name : String) (target now : ℕ) (s : Table) (r : JobRun) (t : Table)
    → Started id name target now s r t
    → r ≡ start_row now (pending_row id name target now)
Started-run id name target now s r t st =
    let e : r ≡ start_row now st.change.old = ground (arith, st.change.row) in
    e ∙ ap (start_row now) (Started-old id name target now s r t st)

pub inserted_first : (p : JobRun) (s : Table) → first (run_with p.id) (p ∷ s) ≡ some p
unfolding first
inserted_first p s = rw (==_refl p.id) refl

Started-stored :
    (id : ℕ) (name : String) (target now : ℕ) (s : Table) (r : JobRun) (t : Table)
    → Started id name target now s r t
    → first (run_with id) t ≡ some (start_row now (pending_row id name target now))
Started-stored id name target now s r t st =
    subst
      (λ b.
        first (run_with id) t
        ≡ some (
            if b
            then start_row now (pending_row id name target now)
            else pending_row id name target now))
      (==_refl id)
      (Changed-first id _ (start_row now) _ (some r) t (λ a. refl) st.change id _
        (inserted_first (pending_row id name target now) s))

-- An owner was started from a pending row that the indexes accept beside every other row.
Started-apart :
    (id : ℕ) (name : String) (target now : ℕ) (s : Table) (r : JobRun) (t : Table)
    → Started id name target now s r t
    → All (λ b. apart (start_row now (pending_row id name target now)) b ≡ true) s
unfolding first
Started-apart id name target now s r t st =
    All-zip (λ b f miss. f (ground (arith, ==_sym b.id id, miss))) s
      (conflict-apart (start_row now (pending_row id name target now)) _ (
        subst (λ a. conflict (start_row now a) (pending_row id name target now ∷ s) ≡ none)
          (Started-old id name target now s r t st) st.change.accepted)).1
      (All-any_of (run_with id) s st.fresh)

same_text : (n : String) → str_eq n n ≡ true
same_text n = (str_eq_iff n n).1 refl

processing_clash :
    (new r : JobRun)
    → new.status ≡ processing
    → r.status ≡ processing
    → r.job_name ≡ new.job_name
    → apart new r ≡ false
unfolding apart same_processing
processing_clash new r started status job =
    rw (started, status, job, same_text new.job_name) ground arith

claim_clash :
    (new r : JobRun)
    → new.status ≡ processing
    → r.status ≡ completed
    → r.job_name ≡ new.job_name
    → r.target_date ≡ new.target_date
    → apart new r ≡ false
unfolding apart same_claim
claim_clash new r started status job date =
    rw (started, status, job, date, same_text new.job_name, ==_refl new.target_date) ground arith

-- A row that clashes with the new owner keeps the acquisition from being `acquired`.
clash_skips :
    (link second : Link) (later : Table) (id : ℕ) (name : String) (target now : ℕ) (s : Table)
    (i : ℕ) (r : JobRun)
    → first (run_with i) s ≡ some r
    → apart (start_row now (pending_row id name target now)) r ≡ false
    → owns (acquire_job_run link second later id name target now s).0 ≡ false
clash_skips link second later id name target now s i r found clash =
    elim (Bool-cases (owns (acquire_job_run link second later id name target now s).0)) [
      | inr skips ↦ skips
      | inl got ↦
          let o = acquire_job_run-Owned link second later id name target now s got in
          let free =
            All-first (λ b. apart (start_row now (pending_row id name target now)) b ≡ true)
              (run_with i) s r found (Started-apart id name target now s o.run _ o.start) in
          absurd (ground (arith, clash, free))
    ]

-- While a job has a processing run, no acquisition of the job is `acquired`, for any date.
pub acquire_processing :
    (link second : Link) (later : Table) (id : ℕ) (name : String) (target now : ℕ) (s : Table)
    (i : ℕ) (r : JobRun)
    → first (run_with i) s ≡ some r
    → r.status ≡ processing
    → r.job_name ≡ name
    → owns (acquire_job_run link second later id name target now s).0 ≡ false
acquire_processing link second later id name target now s i r found status job =
    clash_skips link second later id name target now s i r found
      (processing_clash (start_row now (pending_row id name target now)) r refl status job)

-- Once a run of a job and date is completed, no acquisition of that job and date is ever `acquired`
-- again, after any sequence of acquisitions, completions and failures.
pub completed_once :
    (calls : List JobCall) (s : Table) (i : ℕ) (r : JobRun) (link second : Link) (later : Table)
    (id now : ℕ)
    → first (run_with i) s ≡ some r
    → r.status ≡ completed
    → owns (acquire_job_run link second later id r.job_name r.target_date now (replay calls s)).0
      ≡ false
completed_once calls s i r link second later id now found status =
    clash_skips link second later id r.job_name r.target_date now (replay calls s) i r
      (replay_finished calls s i r found (subst (λ st. is_terminal st ≡ true) (sym status) refl))
      (claim_clash (start_row now (pending_row id r.job_name r.target_date now)) r refl status refl
        refl)

-- An acquisition that returns `acquired` leaves the returned run stored under its id, processing,
-- with the job, the date and the start that were asked for.
pub acquire_owns :
    (link second : Link) (later : Table) (id : ℕ) (name : String) (target now : ℕ) (s : Table)
    → owns (acquire_job_run link second later id name target now s).0 ≡ true
    → let run : JobRun = record {
      id = id;
      job_name = name;
      target_date = target;
      status = processing;
      started_at = some now;
      finished_at = none;
      error_message = none;
      created_at = now;
    } in
      (acquire_job_run link second later id name target now s).0
        ≡ returned (record { status = acquired; run = run })
      × (first (run_with id) (acquire_job_run link second later id name target now s).1 ≡ some run)
acquire_owns link second later id name target now s h =
    let o = acquire_job_run-Owned link second later id name target now s h in
    (
      o.answer
          ∙ ap (λ r. returned (record { status = acquired; run = r }))
              (Started-run id name target now s o.run _ o.start),
      Started-stored id name target now s o.run _ o.start,
    )
