-- ===== src/Jobs.antt =====
-- services/job_runner/service.py: ownership of nightly job runs. Each function is given what its
-- transactions meet; a `now` that is left out is the clock's reading. The message that `fail_job_run`
-- stores is the text that `sanitize_error_message` returned.
pub mod Types
pub mod Exclusive
pub mod History
pub mod Claims
pub mod Owners
pub mod Success
pub mod Terminal
pub mod Shape
mod Tests
use ang553_latam_aie_01_fina.Common.{
  ℕ, String, Bool, true, false, not, ◌&&◌, ◌||◌, Option, none, some, List, [], ◌∷◌, str_eq, ◌==◌,
  ltb, leb, first, length, if◌then◌else◌,
}
use ang553_latam_aie_01_fina.Publication.Text.{codes, is_space}
use ang553_latam_aie_01_fina.Jobs.Types.{
  JobStatus, pending, processing, completed, failed, JobRun, Table, Constraint, primary_key,
  processing_constraint, target_constraint, Step, done, violated, broken, run_with, is_processing,
  is_completed, is_pending, insert_row, update_row, best_row, newer, older,
}

pub data JobError : Type 0 where
  validation_error persistence_error : JobError

pub data Outcome (A : Type 0) : Type 0 where
  returned : A → Outcome A
  raised : JobError → Outcome A

pub data AcquisitionStatus : Type 0 where
  acquired skipped_processing skipped_completed skipped_conflict : AcquisitionStatus

pub record AcquisitionResult : Type 0 where
  pub status : AcquisitionStatus
  pub run : JobRun

pub record TransitionResult : Type 0 where
  pub changed : Bool
  pub run : JobRun

-- How a commit ends: confirmed, refused, or done without the client learning it.
pub data Commit : Type 0 where
  confirmed refused unseen : Commit

-- What a transaction meets: whether its n-th statement fails (opening it is number 0), and its commit.
pub record Link : Type 0 where
  pub fault : ℕ → Bool
  pub commit : Commit

-- `is_valid_status_transition`, of two of the four statuses.
abbrev pub is_valid_status_transition : JobStatus → JobStatus → Bool
is_valid_status_transition pending processing = true
is_valid_status_transition processing completed = true
is_valid_status_transition processing failed = true
is_valid_status_transition _ _ = false

unfoldable pub ends_with_space : List ℕ → Bool
ends_with_space [] = false
ends_with_space (c ∷ []) = is_space c
ends_with_space (c ∷ d ∷ cs) = ends_with_space (d ∷ cs)

unfoldable pub starts_with_space : List ℕ → Bool
starts_with_space [] = false
starts_with_space (c ∷ cs) = is_space c

abbrev pub max_job_name_length : ℕ
max_job_name_length = 100

-- `_job_name`: trimmed, not empty, and no longer than the limit.
unfoldable pub valid_job_name : String → Bool
valid_job_name s =
    not (starts_with_space (codes s))
    && not (ends_with_space (codes s))
    && not (length (codes s) == 0)
    && leb (length (codes s)) max_job_name_length

abbrev pub pending_row : ℕ → String → ℕ → ℕ → JobRun
pending_row id name target now = record {
  id = id;
  job_name = name;
  target_date = target;
  status = pending;
  started_at = none;
  finished_at = none;
  error_message = none;
  created_at = now;
}

-- _START_PROCESSING
abbrev pub start_row : ℕ → JobRun → JobRun
start_row now r = record r { status = processing; started_at = some now }

-- `GREATEST(:finished_at, started_at)`, which ignores a null.
abbrev pub greatest : ℕ → Option ℕ → ℕ
greatest t none = t
greatest t (some u) = if ltb t u then u else t

-- _COMPLETE_RUN and _FAIL_RUN
abbrev pub complete_row : ℕ → JobRun → JobRun
complete_row now r = record r {
  status = completed;
  finished_at = some (greatest now r.started_at);
  error_message = none;
}

abbrev pub fail_row : ℕ → String → JobRun → JobRun
fail_row now message r = record r {
  status = failed;
  finished_at = some (greatest now r.started_at);
  error_message = some message;
}

-- A statement of a transaction, or its failure.
unfoldable pub statement : {A : Type 0} → Bool → Step A → Step A
statement true step = broken
statement false step = step

-- `_one`: no row is an error of the service's own.
unfoldable pub one : Step (Option JobRun × Table) → Step (JobRun × Table)
one (done (none, t)) = broken
one (done (some r, t)) = done (r, t)
one (violated c) = violated c
one broken = broken

unfoldable pub start_inserted : Link → ℕ → ℕ → Step (Unit {0} × Table) → Step (JobRun × Table)
start_inserted link id now (done (u, t)) =
    statement (link.fault 2) (one (update_row id (λ r. is_pending r.status) (start_row now) t))
start_inserted link id now (violated c) = violated c
start_inserted link id now broken = broken

-- The statements of `acquire_job_run`.
unfoldable pub acquire_statements : Link → ℕ → String → ℕ → ℕ → Table → Step (JobRun × Table)
acquire_statements link id name target now s = statement (link.fault 0) (
    start_inserted link id now
      (statement (link.fault 1) (insert_row (pending_row id name target now) s)))

-- The end of a transaction: anything but a commit leaves the table as it was.
unfoldable pub settle : {A : Type 0} → Commit → Table → Step (A × Table) → Step A × Table
settle confirmed s (done (a, t)) = (done a, t)
settle refused s (done (a, t)) = (broken, s)
settle unseen s (done (a, t)) = (broken, t)
settle commit s (violated c) = (violated c, s)
settle commit s broken = (broken, s)

-- `_expected_conflict`
abbrev pub expected_conflict : Constraint → Bool
expected_conflict processing_constraint = true
expected_conflict target_constraint = true
expected_conflict primary_key = false

abbrev pub keyed : String → ℕ → JobRun → Bool
keyed name target r = str_eq r.job_name name && r.target_date == target

abbrev pub skipped : AcquisitionStatus → JobRun → Outcome AcquisitionResult
skipped status run = returned (record { status = status; run = run })

-- A query of a read-only transaction, and its row's way on.
unfoldable pub query :
    Bool
    → Option JobRun
    → (JobRun → Outcome AcquisitionResult)
    → Outcome AcquisitionResult
    → Outcome AcquisitionResult
query true row found absent = raised persistence_error
query false none found absent = absent
query false (some r) found absent = found r

-- A read-only transaction whose commit is not confirmed raises.
unfoldable pub confirm : Commit → Outcome AcquisitionResult → Outcome AcquisitionResult
confirm confirmed answer = answer
confirm _ answer = raised persistence_error

-- `_read_conflict`, on a connection of its own.
unfoldable pub read_conflict : Link → String → ℕ → Table → Outcome AcquisitionResult
read_conflict link name target s = confirm link.commit (
    if link.fault 0
    then raised persistence_error
    else query (link.fault 1) (best_row newer (λ r. keyed name target r && is_completed r.status) s)
        (skipped skipped_completed)
        (query (link.fault 2)
          (best_row older (λ r. str_eq r.job_name name && is_processing r.status) s)
          (skipped skipped_processing)
          (query (link.fault 3) (best_row newer (keyed name target) s) (skipped skipped_conflict)
            (raised persistence_error))))

unfoldable pub acquisition :
    Link → String → ℕ → Table → Step JobRun × Table → Outcome AcquisitionResult × Table
acquisition link name target later (done r, t) =
    (returned (record { status = acquired; run = r }), t)
acquisition link name target later (violated c, t) = (
  if expected_conflict c then read_conflict link name target later else raised persistence_error,
  t,
)
acquisition link name target later (broken, t) = (raised persistence_error, t)

-- `acquire_job_run`. `id` is what `uuid4` returned, and `later` the table that the second connection
-- sees after a conflict, when other sessions may have gone on.
unfoldable pub acquire_job_run :
    Link → Link → Table → ℕ → String → ℕ → ℕ → Table → Outcome AcquisitionResult × Table
acquire_job_run link second later id name target now s =
    if valid_job_name name
    then acquisition second name target later
        (settle link.commit s (acquire_statements link id name target now s))
    else (raised validation_error, s)

-- No row changed: the run as it is, if there is one.
unfoldable pub current_answer : Option JobRun → Table → Step (Outcome TransitionResult × Table)
current_answer none t = done (raised validation_error, t)
current_answer (some r) t = done (returned (record { changed = false; run = r }), t)

-- The answer inside `_terminal_transition`'s transaction: the row changed, or the row as it is.
unfoldable pub terminal_answer :
    Link → ℕ → Step (Option JobRun × Table) → Step (Outcome TransitionResult × Table)
terminal_answer link id (done (some r, t)) = done (returned (record { changed = true; run = r }), t)
terminal_answer link id (done (none, t)) =
    statement (link.fault 2) (current_answer (first (run_with id) t) t)
terminal_answer link id (violated c) = violated c
terminal_answer link id broken = broken

-- `with engine.begin()`: the block's own exception rolls back, a returned answer commits.
unfoldable pub settle_answer :
    {A : Type 0} → Commit → Table → Step (Outcome A × Table) → Outcome A × Table
settle_answer commit s (done (raised e, t)) = (raised e, s)
settle_answer confirmed s (done (returned a, t)) = (returned a, t)
settle_answer refused s (done (returned a, t)) = (raised persistence_error, s)
settle_answer unseen s (done (returned a, t)) = (raised persistence_error, t)
settle_answer commit s (violated c) = (raised persistence_error, s)
settle_answer commit s broken = (raised persistence_error, s)

-- `_terminal_transition`, to the status that `set` writes.
unfoldable pub terminal_transition :
    Link → ℕ → (JobRun → JobRun) → Table → Outcome TransitionResult × Table
terminal_transition link id set s = settle_answer link.commit s (
    statement (link.fault 0) (
      terminal_answer link id
        (statement (link.fault 1) (update_row id (λ r. is_processing r.status) set s))))

abbrev pub complete_job_run : Link → ℕ → ℕ → Table → Outcome TransitionResult × Table
complete_job_run link id now s = terminal_transition link id (complete_row now) s

abbrev pub fail_job_run : Link → ℕ → String → ℕ → Table → Outcome TransitionResult × Table
fail_job_run link id message now s = terminal_transition link id (fail_row now message) s

-- `get_job_run` and `get_latest_job_run`; `fault` is whether the lookup fails.
unfoldable pub get_job_run : Bool → ℕ → Table → Outcome (Option JobRun)
get_job_run true id s = raised persistence_error
get_job_run false id s = returned (first (run_with id) s)

unfoldable pub get_latest_job_run : Bool → String → ℕ → Table → Outcome (Option JobRun)
get_latest_job_run fault name target s =
    if valid_job_name name
    then if fault then raised persistence_error else returned (best_row newer (keyed name target) s)
    else raised validation_error
