-- ===== src/Publication/Lease/Ready.antt =====
-- The steps of a lease call of pipelines/concurrency.py on a connection whose statements all work.
use ang553_latam_aie_01_fina.Common.{
  ℕ, ◌+◌, ◌≤◌, pos, Bool, true, false, ◌≡◌, inl, inr, refl, ap, ◌∙◌, none, some, [], ◌∷◌, arith,
  ==_refl, Option-cases, first, first-append_none, ◌%◌, or_else, suc,
}
use ang553_latam_aie_01_fina.Publication.Types.{RunRecord, WeekControl, Store, Connection}
use ang553_latam_aie_01_fina.Publication.Call.{
  Result, ok, Call, ◌>>=◌, continue, require_transaction, execute, week, find_control, find_run,
  read_run, read_control, control_of, change_where, change_control, update_control,
}
use ang553_latam_aie_01_fina.Publication.Rules.{first-change_where}
use ang553_latam_aie_01_fina.Publication.Runs.{require_run}
use ang553_latam_aie_01_fina.Publication.Controls.{
  ensure_week_control, get_week_control, insert_control, empty_control,
}
use ang553_latam_aie_01_fina.Publication.Lease.{
  decision, grant_status, grant_row, grantable, rethrown, from_run_store, lease_statement,
  checked_seconds, run_for_week, grant_lease, max_lease_seconds,
}

-- A connection inside a transaction whose statements all reach the server.
pub record Ready (c : Connection) : Type 0 where
  pub can_execute : c.can_execute ≡ true
  pub autocommit : c.autocommit ≡ false
  pub postgresql : c.postgresql ≡ true
  pub in_transaction : c.in_transaction ≡ true
  pub no_fault : (n : ℕ) → c.fault n ≡ none

pub bind_ok :
    {A B : Type 0} (m : Call A) (f : A → Call B) (s t : Store) (a : A) (r : Result B × Store)
    → m s ≡ (ok a, t)
    → f a t ≡ r
    → (m >>= f) s ≡ r
unfolding ◌>>=◌
bind_ok m f s t a r h k = ap (λ (x : Result _ × Store). continue x.0 f x.1) h ∙ k

pub require_transaction-ready :
    (c : Connection) (s : Store) → Ready c → require_transaction c s ≡ (ok tt, s)
unfolding require_transaction
require_transaction-ready c s r =
    ground (arith, r.can_execute, r.autocommit, r.postgresql, r.in_transaction)

pub execute-ready : (c : Connection) (n : ℕ) (s : Store) → Ready c → execute c n s ≡ (ok tt, s)
unfolding execute
execute-ready c n s r = rw (r.no_fault n, execute) refl

pub lease_statement-ready :
    (c : Connection) (n : ℕ) (s : Store) → Ready c → lease_statement c n s ≡ (ok tt, s)
unfolding lease_statement
lease_statement-ready c n s r = rw (r.no_fault n, lease_statement) refl

pub week-monday : (day : ℕ) (s : Store) → (day + 6) % 7 ≡ 0 → week day s ≡ (ok day, s)
unfolding week
week-monday day s h = ground (arith, h)

pub checked_seconds-ok :
    (n : ℕ) (s : Store) → 1 ≤ n → n ≤ max_lease_seconds → checked_seconds (pos n) s ≡ (ok n, s)
unfolding checked_seconds
checked_seconds-ok n s low high = ground (arith, low, high)

require_run-ready :
    (c : Connection) (n id : ℕ) (run : RunRecord) (s : Store)
    → Ready c
    → find_run id s ≡ some run
    → require_run c n id s ≡ (ok run, s)
unfolding require_run read_run
require_run-ready c n id run s r found =
    bind_ok _ _ s s tt _ (execute-ready c n s r)
      (bind_ok _ _ s s (some run) _ (ap (λ o. (ok o, s)) found) refl)

pub run_for_week-ready :
    (c : Connection) (id : ℕ) (run : RunRecord) (s : Store)
    → Ready c
    → find_run id s ≡ some run
    → run_for_week c id run.target_week_start s ≡ (ok tt, s)
unfolding run_for_week from_run_store rethrown
run_for_week-ready c id run s r found =
    bind_ok _ _ s s run _
      (ap (λ (x : Result RunRecord × Store). (rethrown x.0, x.1))
        (require_run-ready c 0 id run s r found))
      (rw (==_refl run.target_week_start) refl)

-- The control row that an acquisition finds: the stored one, or the empty one it inserts.
unfoldable pub row_before : ℕ → Store → WeekControl
row_before day s = or_else (find_control day s) (empty_control day)

pub insert_control-ok :
    (day : ℕ) (s : Store) → insert_control day s ≡ (ok tt, (insert_control day s).1)
unfolding insert_control
insert_control-ok day s = ground arith

empty_control-found :
    (day : ℕ) → first (control_of day) (empty_control day ∷ []) ≡ some (empty_control day)
unfolding first
empty_control-found day = rw (==_refl day) refl

pub insert_control-row :
    (day : ℕ) (s : Store) → find_control day (insert_control day s).1 ≡ some (row_before day s)
unfolding insert_control row_before
insert_control-row day s = elim (Option-cases (find_control day s)) [
  | inl absent ↦ rw absent (
      first-append_none (control_of day) s.controls (empty_control day ∷ []) absent
      ∙ empty_control-found day)
  | inr (k, found) ↦ rw found found
]

pub ensure_week_control-ready :
    (c : Connection) (n day : ℕ) (s : Store)
    → Ready c
    → (day + 6) % 7 ≡ 0
    → ensure_week_control c n day s ≡ (ok (row_before day s), (insert_control day s).1)
unfolding ensure_week_control get_week_control read_control
ensure_week_control-ready c n day s r monday =
    bind_ok _ _ s s tt _ (require_transaction-ready c s r) (
      bind_ok _ _ s s day _ (week-monday day s monday) (
        bind_ok _ _ s s tt _ (execute-ready c n s r) (
          bind_ok _ _ s t tt _ (insert_control-ok day s) (
            bind_ok _ _ t t (some (row_before day s)) _
              (bind_ok _ _ t t tt _ (require_transaction-ready c t r) (
                bind_ok _ _ t t day _ (week-monday day t monday) (
                  bind_ok _ _ t t tt _ (execute-ready c (suc n) t r)
                    (ap (λ o. (ok o, t)) (insert_control-row day s)))))
              refl))))
  where
    t : Store
    t = (insert_control day s).1

-- The tables after a grant.
abbrev pub grant_store : ℕ → ℕ → ℕ → ℕ → Store → Store
grant_store now day id n s = record s {
  controls = change_where (control_of day) (grant_row now id n) s.controls;
}

pub grant_store-row :
    (now day id n : ℕ) (k : WeekControl) (s : Store)
    → find_control day s ≡ some k
    → find_control day (grant_store now day id n s) ≡ some (grant_row now id n k)
grant_store-row now day id n k s found =
    rw
      (
        first-change_where (λ a. a.week_start) (grant_row now id n) (λ a. refl) day day s.controls,
        found,
        ==_refl day,
      )
      refl

update_control-hit :
    (day : ℕ) (cond : WeekControl → Bool) (set : WeekControl → WeekControl) (k : WeekControl)
    (s : Store)
    → find_control day s ≡ some k
    → cond k ≡ true
    → update_control day cond set s
      ≡ (ok (some (set k)), record s { controls = change_where (control_of day) set s.controls })
unfolding update_control change_control
update_control-hit day cond set k s found hit = rw (found, hit) refl

pub grant_lease-ready :
    (c : Connection) (day id n : ℕ) (k : WeekControl) (s : Store)
    → Ready c
    → find_control day s ≡ some k
    → grantable (c.clock 4) k.fencing_token k ≡ true
    → grant_lease c day id n k s ≡ (
      ok (decision day (grant_status k) id (grant_row (c.clock 4) id n k)),
      grant_store (c.clock 4) day id n s,
    )
unfolding grant_lease
grant_lease-ready c day id n k s r found fits =
    bind_ok _ _ s s tt _ (lease_statement-ready c 4 s r) (
      bind_ok _ _ s t (some row) _ (update_control-hit day _ _ k s found fits)
        (bind_ok _ _ t t row _ refl refl))
  where
    t : Store
    t = grant_store (c.clock 4) day id n s

    row : WeekControl
    row = grant_row (c.clock 4) id n k
