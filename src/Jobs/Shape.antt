-- ===== src/Jobs/Shape.antt =====
-- The CHECK constraints of infra/sql/job_runs.sql, which the model's writes do not test.
use mathlib.Core.Path.{subst}
use ang553_latam_aie_01_fina.Common.{
  ℕ, String, Bool, true, not, ◌&&◌, ◌≡◌, refl, sym, Option, none, some, List, [], arith, is_some,
  leb, All, ◌==◌, ◌∷◌, false, length, Bool-cases, inl, inr,
}
use ang553_latam_aie_01_fina.Jobs.Types.{
  JobStatus, pending, processing, completed, failed, JobRun, Table, run_with, is_processing,
}
use ang553_latam_aie_01_fina.Publication.Text.{codes, is_space}
use ang553_latam_aie_01_fina.Jobs.{
  Link, valid_job_name, starts_with_space, ends_with_space, acquire_job_run, pending_row, start_row,
  complete_row, fail_row, greatest,
}
use ang553_latam_aie_01_fina.Jobs.Exclusive.{
  Exclusive, fresh-Exclusive, Changed, All-change_where, All-first,
}
use ang553_latam_aie_01_fina.Jobs.History.{
  Started, acquire_job_run-table, terminal_transition-table,
}
use ang553_latam_aie_01_fina.Jobs.Claims.{
  JobCall, replay, perform-Exclusive, perform, acquire, complete, fail,
}
use ang553_latam_aie_01_fina.Jobs.Owners.{Started-old}

-- `job_runs_finished_after_started` and `job_runs_started_after_created`, of a null or a time.
abbrev pub not_before : Option ℕ → ℕ → Bool
not_before none t = true
not_before (some u) t = leb t u

abbrev pub finished_after : Option ℕ → Option ℕ → Bool
finished_after f none = true
finished_after f (some t) = not_before f t

-- `job_runs_state_shape_valid`
abbrev pub state_shape : JobStatus → Bool → Bool → Bool → Bool
state_shape pending started finished message = not started && not finished && not message
state_shape processing started finished message = started && not finished && not message
state_shape completed started finished message = started && finished && not message
state_shape failed started finished message = started && finished && message

-- `job_runs_job_name_valid`, where `btrim` removes spaces alone.
abbrev pub is_blank : ℕ → Bool
is_blank c = c == b' '

unfoldable pub starts_blank : List ℕ → Bool
starts_blank [] = false
starts_blank (c ∷ cs) = is_blank c

unfoldable pub ends_blank : List ℕ → Bool
ends_blank [] = false
ends_blank (c ∷ []) = is_blank c
ends_blank (c ∷ d ∷ cs) = ends_blank (d ∷ cs)

unfoldable pub job_name_valid : String → Bool
job_name_valid s =
    leb 1 (length (codes s))
    && leb (length (codes s)) 100
    && not (starts_blank (codes s))
    && not (ends_blank (codes s))

unfoldable pub shape_valid : JobRun → Bool
shape_valid r =
    state_shape r.status (is_some r.started_at) (is_some r.finished_at) (is_some r.error_message)
    && not_before r.started_at r.created_at
    && finished_after r.finished_at r.started_at

-- All the CHECK constraints of the table; the type of the status is its own.
unfoldable pub well_shaped : JobRun → Bool
well_shaped r = shape_valid r && job_name_valid r.job_name

not_blank : (c : ℕ) → is_space c ≡ false → is_blank c ≡ false
unfolding is_space
not_blank c h = ground arith

not_starts_blank : (l : List ℕ) → starts_with_space l ≡ false → starts_blank l ≡ false
unfolding starts_with_space starts_blank
not_starts_blank [] h = refl
not_starts_blank (c ∷ cs) h = not_blank c h

not_ends_blank : (l : List ℕ) → ends_with_space l ≡ false → ends_blank l ≡ false
unfolding ends_with_space ends_blank
not_ends_blank [] h = refl
not_ends_blank (c ∷ []) h = not_blank c h
not_ends_blank (c ∷ d ∷ cs) h = not_ends_blank (d ∷ cs) h

-- A name that the service accepts is one that the table accepts.
valid_job_name-valid : (s : String) → valid_job_name s ≡ true → job_name_valid s ≡ true
unfolding valid_job_name job_name_valid
valid_job_name-valid s h = ground (
  arith,
  h,
  not_starts_blank (codes s) (ground (arith, h)),
  not_ends_blank (codes s) (ground (arith, h)),
)

abbrev pub AllWellShaped : Table → Type 0
AllWellShaped s = All (λ r. well_shaped r ≡ true) s

Changed-WellShaped :
    (id : ℕ) (cond : JobRun → Bool) (set : JobRun → JobRun) (s : Table) (o : Option JobRun)
    (t : Table)
    → ((a : JobRun) → cond a ≡ true → well_shaped a ≡ true → well_shaped (set a) ≡ true)
    → Exclusive s
    → AllWellShaped s
    → Changed id cond set s o t
    → AllWellShaped t
Changed-WellShaped id cond set s o t good ex all c = subst AllWellShaped (sym c.left) (
    All-change_where id set (λ r. well_shaped r ≡ true) c.old s ex all c.found
      (good c.old c.hit (All-first (λ r. well_shaped r ≡ true) (run_with id) s c.old c.found all)))

-- A processing run has a start that an end may follow.
ended_lem :
    (st : JobStatus) (started finished : Option ℕ) (message : Option String) (created now : ℕ)
    → is_processing st ≡ true
    → (state_shape st (is_some started) (is_some finished) (is_some message)
        && not_before started created
        && finished_after finished started)
      ≡ true
    → (is_some started
        && true
        && true
        && not_before started created
        && finished_after (some (greatest now started)) started)
      ≡ true
ended_lem processing none f m c now p h = ground (arith, h)
ended_lem processing (some t) f m c now p h = ground (arith, h)
ended_lem pending s f m c now p h = absurd (ground (arith, p))
ended_lem completed s f m c now p h = absurd (ground (arith, p))
ended_lem failed s f m c now p h = absurd (ground (arith, p))

complete_row-WellShaped :
    (now : ℕ) (a : JobRun)
    → is_processing a.status ≡ true
    → well_shaped a ≡ true
    → well_shaped (complete_row now a) ≡ true
unfolding well_shaped shape_valid
complete_row-WellShaped now a was h = ground (
  arith,
  h,
  ended_lem a.status a.started_at a.finished_at a.error_message a.created_at now was
      (ground (arith, h)),
)

fail_row-WellShaped :
    (now : ℕ) (message : String) (a : JobRun)
    → is_processing a.status ≡ true
    → well_shaped a ≡ true
    → well_shaped (fail_row now message a) ≡ true
unfolding well_shaped shape_valid
fail_row-WellShaped now message a was h = ground (
  arith,
  h,
  ended_lem a.status a.started_at a.finished_at a.error_message a.created_at now was
      (ground (arith, h)),
)

started_row-WellShaped :
    (id : ℕ) (name : String) (target now : ℕ)
    → valid_job_name name ≡ true
    → well_shaped (start_row now (pending_row id name target now)) ≡ true
unfolding well_shaped shape_valid
started_row-WellShaped id name target now valid = ground (arith, valid_job_name-valid name valid)

Started-WellShaped :
    (id : ℕ) (name : String) (target now : ℕ) (s : Table) (r : JobRun) (t : Table)
    → valid_job_name name ≡ true
    → Exclusive s
    → AllWellShaped s
    → Started id name target now s r t
    → AllWellShaped t
unfolding well_shaped shape_valid
Started-WellShaped id name target now s r t valid ex all st =
    subst AllWellShaped (sym st.change.left) (
      All-change_where id (start_row now) (λ a. well_shaped a ≡ true) st.change.old
        (pending_row id name target now ∷ s)
        (fresh-Exclusive (pending_row id name target now) s refl st.fresh ex) (pending_valid, all)
        st.change.found
        (subst (λ a. well_shaped (start_row now a) ≡ true)
          (sym (Started-old id name target now s r t st))
          (started_row-WellShaped id name target now valid)))
  where
    pending_valid : well_shaped (pending_row id name target now) ≡ true
    pending_valid = ground (arith, valid_job_name-valid name valid)

acquire_job_run-WellShaped :
    (link second : Link) (later : Table) (id : ℕ) (name : String) (target now : ℕ) (s : Table)
    → Exclusive s
    → AllWellShaped s
    → AllWellShaped (acquire_job_run link second later id name target now s).1
unfolding acquire_job_run
acquire_job_run-WellShaped link second later id name target now s ex all =
    elim (Bool-cases (valid_job_name name)) [
      | inr refused ↦ subst AllWellShaped (sym (refused_table refused)) all
      | inl valid ↦
          acquire_job_run-table AllWellShaped link second later id name target now s all
            (λ r t st. Started-WellShaped id name target now s r t valid ex all st)
    ]
  where
    refused_table :
        valid_job_name name ≡ false → (acquire_job_run link second later id name target now s).1 ≡ s
    refused_table h = rw (acquire_job_run, h) refl

perform-WellShaped :
    (call : JobCall) (s : Table) → Exclusive s → AllWellShaped s → AllWellShaped (perform call s)
unfolding perform
perform-WellShaped (acquire link second later id name target now) s ex all =
    acquire_job_run-WellShaped link second later id name target now s ex all
perform-WellShaped (complete link id now) s ex all =
    terminal_transition-table AllWellShaped link id (complete_row now) s all (λ o t c.
      Changed-WellShaped id _ (complete_row now) s o t (complete_row-WellShaped now) ex all c)
perform-WellShaped (fail link id message now) s ex all =
    terminal_transition-table AllWellShaped link id (fail_row now message) s all (λ o t c.
      Changed-WellShaped id _ (fail_row now message) s o t (fail_row-WellShaped now message) ex all
        c)

-- Sequences of calls never write a row that the CHECK constraints of the table refuse: if every row
-- has a trimmed name of the right length, its status's shape and its times in order, and the unique
-- indexes hold, every later row does.
pub replay-WellShaped :
    (calls : List JobCall) (s : Table)
    → Exclusive s
    → AllWellShaped s
    → AllWellShaped (replay calls s)
unfolding replay
replay-WellShaped [] s ex all = all
replay-WellShaped (call ∷ rest) s ex all =
    replay-WellShaped rest (perform call s) (perform-Exclusive call s ex)
      (perform-WellShaped call s ex all)
