-- ===== src/Jobs/Success.antt =====
-- `acquire_job_run` of services/job_runner/service.py when nothing fails.
use ang553_latam_aie_01_fina.Common.{
  ℕ, String, Bool, true, false, not, ◌&&◌, ◌≡◌, refl, none, some, [], ◌∷◌, arith, ◌==◌, ==_refl,
  str_eq, any_of, first, change_where, All,
}
use ang553_latam_aie_01_fina.Jobs.Types.{
  JobStatus, pending, processing, completed, failed, JobRun, Table, done, run_with, is_pending,
  is_processing, is_completed, is_claim, same_processing, same_claim, conflict, insert_row,
  update_row, update_found, store_row,
}
use ang553_latam_aie_01_fina.Jobs.{
  Link, confirmed, pending_row, start_row, acquire_job_run, acquire_statements, valid_job_name,
  acquisition, settle, statement, start_inserted, one,
}
use ang553_latam_aie_01_fina.Jobs.Exclusive.{All-any_of, All-map, All-zip}
use ang553_latam_aie_01_fina.Jobs.Owners.{owns, inserted_first}

pub any_of-All : (p : JobRun → Bool) (s : Table) → All (λ r. p r ≡ false) s → any_of p s ≡ false
unfolding any_of
any_of-All p [] h = refl
any_of-All p (r ∷ s) (h, hs) = rw (h, any_of-All p s hs) refl

idle_lem : (n a b x : Bool) → (x && b) ≡ false → (n && (a && b && x)) ≡ false
idle_lem n a b x h = ground (arith, h)

-- A claim is processing or completed.
claimed_lem :
    (st : JobStatus) (n a x d : Bool)
    → (x && is_processing st) ≡ false
    → (x && d && is_completed st) ≡ false
    → (n && (a && is_claim st && x && d)) ≡ false
claimed_lem pending n a x d h k = ground arith
claimed_lem processing n a x d h k = ground (arith, h)
claimed_lem completed n a x d h k = ground (arith, k)
claimed_lem failed n a x d h k = ground arith

-- The indexes accept a started run beside rows that neither process its job nor completed its date.
free_processing :
    (new r : JobRun)
    → new.status ≡ processing
    → (str_eq new.job_name r.job_name && is_processing r.status) ≡ false
    → (not (r.id == new.id) && same_processing new r) ≡ false
unfolding same_processing
free_processing new r st idle =
    idle_lem (not (r.id == new.id)) (is_processing new.status) (is_processing r.status) _ idle

free_claim :
    (new r : JobRun)
    → new.status ≡ processing
    → (str_eq new.job_name r.job_name && is_processing r.status) ≡ false
    → (str_eq new.job_name r.job_name && new.target_date == r.target_date && is_completed r.status)
      ≡ false
    → (not (r.id == new.id) && same_claim new r) ≡ false
unfolding same_claim
free_claim new r st idle undone =
    claimed_lem r.status (not (r.id == new.id)) (is_claim new.status)
      (str_eq new.job_name r.job_name) (new.target_date == r.target_date) idle undone

conflict-none :
    (new p : JobRun) (s : Table)
    → new.status ≡ processing
    → p.id ≡ new.id
    → any_of (λ r. str_eq new.job_name r.job_name && is_processing r.status) s ≡ false
    → any_of
        (λ r.
          str_eq new.job_name r.job_name
          && new.target_date == r.target_date
          && is_completed r.status)
        s
      ≡ false
    → conflict new (p ∷ s) ≡ none
unfolding conflict any_of
conflict-none new p s st own idle undone =
    rw
      (
        own,
        ==_refl new.id,
        any_of-All (λ r. not (r.id == new.id) && same_processing new r) s
            (All-map (λ r i. free_processing new r st i) s (All-any_of _ s idle)),
        any_of-All (λ r. not (r.id == new.id) && same_claim new r) s
            (All-zip (λ r i u. free_claim new r st i u) s (All-any_of _ s idle)
              (All-any_of _ s undone)),
      )
      refl

pub update_row-hit :
    (id : ℕ) (cond : JobRun → Bool) (set : JobRun → JobRun) (r : JobRun) (s : Table)
    → first (run_with id) s ≡ some r
    → cond r ≡ true
    → conflict (set r) s ≡ none
    → update_row id cond set s ≡ done (some (set r), change_where (run_with id) set s)
unfolding update_row update_found store_row
update_row-hit id cond set r s found hit free = rw (found, hit, free) refl

-- An acquisition does return `acquired`: under a valid name and a new id, when nothing fails, no run
-- of the job is processing, and none of the job and date is completed.
pub acquire_succeeds :
    (link second : Link) (later : Table) (id : ℕ) (name : String) (target now : ℕ) (s : Table)
    → valid_job_name name ≡ true
    → ((n : ℕ) → link.fault n ≡ false)
    → link.commit ≡ confirmed
    → any_of (run_with id) s ≡ false
    → any_of (λ r. str_eq name r.job_name && is_processing r.status) s ≡ false
    → any_of (λ r. str_eq name r.job_name && target == r.target_date && is_completed r.status) s
      ≡ false
    → owns (acquire_job_run link second later id name target now s).0 ≡ true
unfolding acquire_job_run acquire_statements acquisition settle start_inserted statement one
    insert_row
acquire_succeeds link second later id name target now s valid works commit fresh idle undone =
    rw (valid, works 0, works 1, fresh, works 2, started, commit) refl
  where
    started :
        update_row id
          (λ r. is_pending r.status)
          (start_row now)
          (pending_row id name target now ∷ s)
        ≡ done (
          some (start_row now (pending_row id name target now)),
          change_where (run_with id) (start_row now) (pending_row id name target now ∷ s),
        )
    started =
        update_row-hit id _ (start_row now) (pending_row id name target now) _
          (inserted_first (pending_row id name target now) s) refl
          (conflict-none (start_row now (pending_row id name target now))
            (pending_row id name target now) s refl refl idle undone)
