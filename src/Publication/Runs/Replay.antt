-- ===== src/Publication/Runs/Replay.antt =====
-- Sequences of calls of pipelines/run_store.py.
use ang553_latam_aie_01_fina.Common.{
  ℕ, ℤ, String, Bool, true, ◌≡◌, Option, some, List, [], ◌∷◌, arith,
}
use ang553_latam_aie_01_fina.Publication.Types.{
  CommitResult, RunRecord, WeekControl, Store, Connection,
}
use ang553_latam_aie_01_fina.Publication.Call.{find_run, update_control, change_control}
use ang553_latam_aie_01_fina.Publication.Rules.{Frames, Frames-Reads, Frames-bind, read_rules}
use ang553_latam_aie_01_fina.Publication.Runs.{
  terminal, NewRun, create_run, RunUpdate, update_run, correlate_pending_run,
  record_commit_observation,
}
use ang553_latam_aie_01_fina.Publication.Controls.{
  record_valid_publication, insert_control, ensure_week_control, get_week_control,
}
use ang553_latam_aie_01_fina.Publication.Runs.Transitions.{RowStep-terminal}
use ang553_latam_aie_01_fina.Publication.Runs.History.{
  Evolves, Evolves-runs, require_run-Reads, create_run-Evolves, update_run-Evolves,
  correlate_pending_run-Evolves, record_commit_observation-Evolves,
}

insert_control-Frames : (day : ℕ) → Frames (λ s. s.runs) (insert_control day)
unfolding insert_control
insert_control-Frames day = record { at = λ s. ground arith }

pub update_control-Frames :
    (day : ℕ) (cond : WeekControl → Bool) (set : WeekControl → WeekControl)
    → Frames (λ s. s.runs) (update_control day cond set)
unfolding update_control change_control
update_control-Frames day cond set = record { at = λ s. ground arith }

ruleset frame_rules = (
  read_rules, Frames-Reads, Frames-bind, insert_control-Frames, update_control-Frames,
  require_run-Reads,
)

get_week_control-Frames :
    (c : Connection) (n day : ℕ) → Frames (λ s. s.runs) (get_week_control c n day)
unfolding get_week_control
get_week_control-Frames c n day = search frame_rules depth 10

pub ensure_week_control-Frames :
    (c : Connection) (n day : ℕ) → Frames (λ s. s.runs) (ensure_week_control c n day)
unfolding ensure_week_control
ensure_week_control-Frames c n day = search (frame_rules, get_week_control-Frames) depth 10

record_valid_publication-Frames :
    (c : Connection) (day id at_time : ℕ) (rows : ℤ) (fingerprint version : Option String)
    → Frames (λ s. s.runs) (record_valid_publication c day id at_time rows fingerprint version)
unfolding record_valid_publication
record_valid_publication-Frames c day id at_time rows fingerprint version =
    search (frame_rules, ensure_week_control-Frames) depth 30

-- A call of the run store, on a connection of its own.
pub data RunCall : Type 0 where
  create : NewRun → RunCall
  update : ℕ → RunUpdate → RunCall
  correlate : ℕ → String → String → RunCall
  observe : ℕ → CommitResult → String → String → String → RunCall
  publish : ℕ → ℕ → ℕ → ℤ → Option String → Option String → RunCall

-- The tables after a call, whether it returned or raised.
unfoldable pub perform : Connection → RunCall → Store → Store
perform c (create new) s = (create_run c new s).1
perform c (update id u) s = (update_run c id u s).1
perform c (correlate id flow task) s = (correlate_pending_run c id flow task s).1
perform c (observe id result stage code message) s =
    (record_commit_observation c id result stage code message s).1
perform c (publish day id at_time rows fingerprint version) s =
    (record_valid_publication c day id at_time rows fingerprint version s).1

unfoldable pub replay : List (Connection × RunCall) → Store → Store
replay [] s = s
replay ((c, call) ∷ rest) s = replay rest (perform c call s)

-- One call of the run store, whether it returns or raises, leaves every stored run under its id: as it
-- was, or moved along a status transition that the table of transitions allows, or with its status
-- kept and columns set while the run is not finished.
pub perform-Evolves : (c : Connection) (call : RunCall) (s : Store) → Evolves s (perform c call s)
unfolding perform
perform-Evolves c (create new) s = create_run-Evolves c new s
perform-Evolves c (update id u) s = update_run-Evolves c id u s
perform-Evolves c (correlate id flow task) s = correlate_pending_run-Evolves c id flow task s
perform-Evolves c (observe id result stage code message) s =
    record_commit_observation-Evolves c id result stage code message s
perform-Evolves c (publish day id at_time rows fingerprint version) s =
    Evolves-runs s _
      ((record_valid_publication-Frames c day id at_time rows fingerprint version).at s)

-- A run that has reached a terminal status is kept exactly as it is by every later sequence of calls
-- of the run store, whatever they ask, whether they return or raise.
pub replay-terminal :
    (calls : List (Connection × RunCall)) (s : Store) (id : ℕ) (r : RunRecord)
    → find_run id s ≡ some r
    → terminal r.status ≡ true
    → find_run id (replay calls s) ≡ some r
unfolding replay
replay-terminal [] s id r found t = found
replay-terminal ((c, call) ∷ rest) s id r found t =
    let (r', found', step) = (perform-Evolves c call s).at id r found in
    replay-terminal rest (perform c call s) id r (rw (← RowStep-terminal r r' t step) found') t
