-- ===== src/Publication/Runs/Transitions.antt =====
-- RUN_TRANSITIONS and the guards of `update_run` in pipelines/run_store.py.
use ang553_latam_aie_01_fina.Common.{true, false, ◌≡◌, arith, str_eq_iff, is_some}
use ang553_latam_aie_01_fina.Publication.Types.{
  RunStatus, failed_retryable, blocked_quality, other_status, status_eq, CommitResult, RunRecord,
  Store,
}
use ang553_latam_aie_01_fina.Publication.Call.{ok, ◌>>=◌}
use ang553_latam_aie_01_fina.Publication.Runs.{
  missing_text, allowed, terminal, RunUpdate, check_update,
}

-- What one call may do to a run that is stored.
pub data RowStep (r r' : RunRecord) : Type 0 where
  -- nothing
  same : r' ≡ r → RowStep r r'
  -- a status change that RUN_TRANSITIONS allows
  moved : allowed r.status r'.status ≡ true → RowStep r r'
  -- columns of a run that is not finished, its status kept
  noted : terminal r.status ≡ false → r'.status ≡ r.status → RowStep r r'

pub status_eq→eq : (a b : RunStatus) → status_eq a b ≡ true → a ≡ b
unfolding status_eq
status_eq→eq (other_status s) (other_status t) h = ground (arith, str_eq_iff s t)
status_eq→eq a b h = ground arith

-- A terminal status has no transition.
pub terminal_no_move : (a b : RunStatus) → terminal a ≡ true → allowed a b ≡ false
unfolding terminal allowed
terminal_no_move a b h = ground arith

pub RowStep-terminal : (r r' : RunRecord) → terminal r.status ≡ true → RowStep r r' → r' ≡ r
RowStep-terminal r r' t (same e) = e
RowStep-terminal r r' t (moved a) = ground (arith, terminal_no_move r.status r'.status t)
RowStep-terminal r r' t (noted n e) = cc

-- What passes the guards of `update_run`: the expected status is the current one, the change is
-- allowed, a finished run has its end and a running one has none.
pub check_update-ok :
    (current : RunRecord) (u : RunUpdate) (s : Store) (chosen : CommitResult) (t : Store)
    → check_update current u s ≡ (ok chosen, t)
    → (status_eq current.status u.expected_status ≡ true)
      × (allowed u.expected_status u.status ≡ true)
      × (terminal u.status ≡ true → is_some u.finished_at ≡ true)
      × (status_eq u.status failed_retryable ≡ true → missing_text u.error_code ≡ false)
      × (status_eq u.status blocked_quality ≡ true → missing_text u.block_reason ≡ false)
unfolding check_update ◌>>=◌
check_update-ok current u s chosen t h = ground arith
