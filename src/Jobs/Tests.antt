-- ===== src/Jobs/Tests.antt =====
-- Runs of services/job_runner/service.py on small tables.
use ang553_latam_aie_01_fina.Common.{
  ℕ, String, true, false, ◌≡◌, refl, Option, none, some, List, [], ◌∷◌, first, any_of,
}
use ang553_latam_aie_01_fina.Publication.Text.{is_space}
use ang553_latam_aie_01_fina.Jobs.Types.{
  JobStatus, processing, completed, JobRun, Table, run_with, same_processing, same_claim,
}
use ang553_latam_aie_01_fina.Jobs.{
  returned, acquired, Link, confirmed, unseen, acquire_job_run, valid_job_name, starts_with_space,
  ends_with_space,
}
use ang553_latam_aie_01_fina.Jobs.Exclusive.{Exclusive, apart}
use ang553_latam_aie_01_fina.Jobs.Claims.{JobCall, acquire, complete, fail, replay, replay_finished}
use ang553_latam_aie_01_fina.Jobs.Owners.{owns, acquire_processing, completed_once, acquire_owns}
use ang553_latam_aie_01_fina.Jobs.Success.{acquire_succeeds}
use ang553_latam_aie_01_fina.Jobs.Terminal.{
  Works, completing, failing, end_run, end_row, first_ending_wins,
}
use ang553_latam_aie_01_fina.Jobs.Shape.{
  AllWellShaped, well_shaped, shape_valid, job_name_valid, starts_blank, ends_blank,
  replay-WellShaped,
}

abbrev healthy : Link
healthy = record { fault = λ n. false; commit = confirmed }

abbrev lost : Link
lost = record { fault = λ n. false; commit = unseen }

abbrev healthy-Works : Works healthy
healthy-Works = record { fault = λ n. refl; commit = refl }

abbrev run_row : ℕ → String → ℕ → JobStatus → Option ℕ → Option ℕ → JobRun
run_row id name target status started finished = record {
  id = id;
  job_name = name;
  target_date = target;
  status = status;
  started_at = started;
  finished_at = finished;
  error_message = none;
  created_at = 100;
}

abbrev active : JobRun
active = run_row 1 "export" 20 processing (some 100) none

abbrev finished : JobRun
finished = run_row 2 "export" 19 completed (some 100) (some 110)

abbrev two_runs : Table
two_runs = active ∷ finished ∷ []

abbrev later_calls : List JobCall
later_calls =
    fail healthy 1 "no stock" 120
    ∷ acquire lost healthy [] 3 "export" 20 130
    ∷ complete healthy 3 140
    ∷ []

two_runs-Exclusive : Exclusive two_runs
unfolding apart same_processing same_claim
two_runs-Exclusive = ((refl, tt), (tt, tt))

finished_found : first (run_with 2) two_runs ≡ some finished
unfolding first
finished_found = refl

active_found : first (run_with 1) two_runs ≡ some active
unfolding first
active_found = refl

replay_finished_example : first (run_with 2) (replay later_calls two_runs) ≡ some finished
replay_finished_example = replay_finished later_calls two_runs 2 finished finished_found refl

completed_once_example :
    owns (acquire_job_run healthy healthy [] 7 "export" 19 150 (replay later_calls two_runs)).0
    ≡ false
completed_once_example =
    completed_once later_calls two_runs 2 finished healthy healthy [] 7 150 finished_found refl

acquire_processing_example :
    owns (acquire_job_run healthy healthy two_runs 7 "export" 21 150 two_runs).0 ≡ false
acquire_processing_example =
    acquire_processing healthy healthy two_runs 7 "export" 21 150 two_runs 1 active active_found
      refl refl

one_finished-works : any_of (run_with 7) (finished ∷ []) ≡ false
unfolding any_of
one_finished-works = refl

valid_export : valid_job_name "export" ≡ true
unfolding valid_job_name starts_with_space ends_with_space is_space
valid_export = refl

acquire_succeeds_example :
    owns (acquire_job_run healthy healthy [] 7 "export" 21 150 (finished ∷ [])).0 ≡ true
unfolding any_of
acquire_succeeds_example =
    acquire_succeeds healthy healthy [] 7 "export" 21 150 (finished ∷ []) valid_export (λ n. refl)
      refl refl refl refl

acquire_owns_example :
    let run : JobRun = record {
      id = 7;
      job_name = "export";
      target_date = 21;
      status = processing;
      started_at = some 150;
      finished_at = none;
      error_message = none;
      created_at = 150;
    } in
    ((acquire_job_run healthy healthy [] 7 "export" 21 150 (finished ∷ [])).0
      ≡ returned (record { status = acquired; run = run }))
    × (first (run_with 7) (acquire_job_run healthy healthy [] 7 "export" 21 150 (finished ∷ [])).1
        ≡ some run)
acquire_owns_example =
    acquire_owns healthy healthy [] 7 "export" 21 150 (finished ∷ []) acquire_succeeds_example

first_ending_wins_example :
    ((end_run healthy (completing 120) 1 two_runs).0
      ≡ returned (record { changed = true; run = end_row (completing 120) active }))
    × (end_run healthy (failing "late" 130) 1 (end_run healthy (completing 120) 1 two_runs).1 ≡ (
      returned (record { changed = false; run = end_row (completing 120) active }),
      (end_run healthy (completing 120) 1 two_runs).1,
    ))
first_ending_wins_example =
    first_ending_wins healthy healthy (completing 120) (failing "late" 130) 1 two_runs active
      healthy-Works healthy-Works two_runs-Exclusive active_found refl

two_runs-WellShaped : AllWellShaped two_runs
unfolding well_shaped shape_valid job_name_valid starts_blank ends_blank
two_runs-WellShaped = (refl, (refl, tt))

replay-WellShaped_example : AllWellShaped (replay later_calls two_runs)
replay-WellShaped_example =
    replay-WellShaped later_calls two_runs two_runs-Exclusive two_runs-WellShaped
