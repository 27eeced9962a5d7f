-- ===== src/Publication/Lease/Grants.antt =====
-- `acquire_week_lease` of pipelines/concurrency.py on each state of the row, and the check of a
-- grant.
use mathlib.Core.Path.{subst}
use ang553_latam_aie_01_fina.Common.{
  ◌==◌, ℕ, ◌+◌, ◌≤◌, ◌<◌, pos, true, false, not, ◌&&◌, ◌||◌, ◌≡◌, refl, ap, ◌∙◌, Option, none, some,
  arith, ==_refl, ltb, is_some, if◌then◌else◌, ◌%◌,
}
use ang553_latam_aie_01_fina.Publication.Types.{RunRecord, WeekControl, Store, Connection}
use ang553_latam_aie_01_fina.Publication.Call.{
  Result, ok, pure, find_control, find_run, read_control,
}
use ang553_latam_aie_01_fina.Publication.Controls.{insert_control}
use ang553_latam_aie_01_fina.Publication.Lease.{
  already_held, occupied, recovered, acquired, LeaseDecision, lease_verified, granted, decision,
  held_status, grant_row, grantable, expired, rethrown, from_run_store, checked_token, run_for_week,
  grant_lease, verify_decision, verify_week_lease, acquire_week_lease, max_lease_seconds,
}
use ang553_latam_aie_01_fina.Publication.Lease.Fencing.{verifies, is_verified}
use ang553_latam_aie_01_fina.Publication.Lease.Ready.{
  Ready, bind_ok, require_transaction-ready, lease_statement-ready, week-monday, checked_seconds-ok,
  run_for_week-ready, row_before, insert_control-row, ensure_week_control-ready, grant_store,
  grant_store-row, grant_lease-ready,
}

-- What the request must meet: a Monday, a lease time in range, and a run recorded for that week.
pub record Request (day id n : ℕ) (s : Store) : Type 0 where
  pub monday : (day + 6) % 7 ≡ 0
  pub positive : 1 ≤ n
  pub bounded : n ≤ max_lease_seconds
  pub run : RunRecord
  pub found : find_run id s ≡ some run
  pub target : run.target_week_start ≡ day

-- Up to the locked row, an acquisition goes the same way.
acquire_week_lease-locked :
    (c : Connection) (day id n : ℕ) (s : Store) (r : Result LeaseDecision × Store)
    → Ready c
    → Request day id n s
    → (let k = row_before day s in
        let t = (insert_control day s).1 in
        (if is_some k.owner_run_id && not (expired (c.clock 3) k.lease_expires_at)
            then pure (decision day (held_status id k) id k)
            else grant_lease c day id n k)
          t
        ≡ r)
    → acquire_week_lease c day id (pos n) s ≡ r
unfolding acquire_week_lease read_control from_run_store rethrown
acquire_week_lease-locked c day id n s r ready q h =
    bind_ok _ _ s s tt _ (require_transaction-ready c s ready) (
      bind_ok _ _ s s day _ (week-monday day s q.monday) (
        bind_ok _ _ s s n _ (checked_seconds-ok n s q.positive q.bounded) (
          bind_ok _ _ s s tt _
            (subst (λ d. run_for_week c id d s ≡ (ok tt, s)) q.target
              (run_for_week-ready c id q.run s ready q.found))
            (bind_ok _ _ s t k _
              (ap (λ (x : Result WeekControl × Store). (rethrown x.0, x.1))
                (ensure_week_control-ready c 1 day s ready q.monday))
              (bind_ok _ _ t t tt _ (lease_statement-ready c 3 t ready) (
                bind_ok _ _ t t (some k) _ (ap (λ o. (ok o, t)) (insert_control-row day s))
                  (bind_ok _ _ t t k _ refl h)))))))
  where
    t : Store
    t = (insert_control day s).1

    k : WeekControl
    k = row_before day s

free_later :
    (o e : Option ℕ) (u v : ℕ)
    → (is_some o && not (expired u e)) ≡ false
    → u ≤ v
    → (not (is_some o) || expired v e) ≡ true
free_later none e u v h le = refl
free_later (some o) none u v h le = ground (arith, h)
free_later (some o) (some e) u v h le = ground (arith, h, le)

still_free :
    (k : WeekControl) (u v : ℕ)
    → (is_some k.owner_run_id && not (expired u k.lease_expires_at)) ≡ false
    → u ≤ v
    → grantable v k.fencing_token k ≡ true
still_free k u v h le =
    rw (==_refl k.fencing_token) (free_later k.owner_run_id k.lease_expires_at u v h le)

-- On a connection whose statements all work, an acquisition of a week whose lease is free or expired,
-- by a run recorded for that week, returns: the answer is a grant to the run under the token after the
-- stored one, `recovered` if the week had an owner and `acquired` if not, until `n` seconds after the
-- clock, and the stored row says the same. A week without a control row counts as free under token 0. The
-- server's clock does not go back between the lock and the grant.
pub acquire_grants :
    (c : Connection) (day id n : ℕ) (s : Store)
    → Ready c
    → Request day id n s
    → (is_some (row_before day s).owner_run_id
        && not (expired (c.clock 3) (row_before day s).lease_expires_at))
      ≡ false
    → c.clock 3 ≤ c.clock 4
    → let k : WeekControl = row_before day s in
      (t : Store) × (acquire_week_lease c day id (pos n) s ≡ (
        ok (record {
          week_start = day;
          status = if is_some k.owner_run_id then recovered else acquired;
          run_id = id;
          owner_run_id = some id;
          fencing_token = some (k.fencing_token + 1);
          lease_expires_at = some (c.clock 4 + n);
          lock_held = true;
        }),
        t,
      ))
      × (find_control day t
          ≡ some (record k {
            owner_run_id = some id;
            lease_acquired_at = some (c.clock 4);
            lease_expires_at = some (c.clock 4 + n);
            fencing_token = k.fencing_token + 1;
          }))
acquire_grants c day id n s ready q free clock = (
  grant_store (c.clock 4) day id n t,
  acquire_week_lease-locked c day id n s _ ready q (
      rw free (
        grant_lease-ready c day id n k t ready (insert_control-row day s)
          (still_free k _ _ free clock))),
  grant_store-row (c.clock 4) day id n k t (insert_control-row day s),
)
  where
    t : Store
    t = (insert_control day s).1

    k : WeekControl
    k = row_before day s

row_before-found :
    (day : ℕ) (s : Store) (k : WeekControl) → find_control day s ≡ some k → row_before day s ≡ k
unfolding row_before
row_before-found day s k found = rw found refl

insert_control-found :
    (day : ℕ) (s : Store) (k : WeekControl)
    → find_control day s ≡ some k
    → (insert_control day s).1 ≡ s
unfolding insert_control
insert_control-found day s k found = rw found refl

held_answer :
    (c : Connection) (day id n : ℕ) (s : Store) (k : WeekControl)
    → Ready c
    → Request day id n s
    → find_control day s ≡ some k
    → (is_some k.owner_run_id && not (expired (c.clock 3) k.lease_expires_at)) ≡ true
    → acquire_week_lease c day id (pos n) s ≡ (ok (decision day (held_status id k) id k), s)
held_answer c day id n s k ready q found held =
    acquire_week_lease-locked c day id n s _ ready q
      (rw (row_before-found day s k found, insert_control-found day s k found, held) refl)

-- On a connection whose statements all work, an acquisition of a stored week with an owner whose lease
-- ends after the clock, by a run recorded for that week, returns the owner, its token and its end and
-- writes nothing; the answer is `already_held` for the owner and `occupied` for any other run.
pub acquire_refuses :
    (c : Connection) (day id n owner end : ℕ) (s : Store) (k : WeekControl)
    → Ready c
    → Request day id n s
    → find_control day s ≡ some k
    → k.owner_run_id ≡ some owner
    → k.lease_expires_at ≡ some end
    → c.clock 3 < end
    → acquire_week_lease c day id (pos n) s ≡ (
      ok (record {
        week_start = day;
        status = if owner == id then already_held else occupied;
        run_id = id;
        owner_run_id = some owner;
        fencing_token = some k.fencing_token;
        lease_expires_at = some end;
        lock_held = true;
      }),
      s,
    )
acquire_refuses c day id n owner end s k ready q found held until later =
    held_answer c day id n s k ready q found (rw (held, until) (ground (arith, later)))
    ∙ rw (held, until) refl

verify_week_lease-ready :
    (c : Connection) (day id n : ℕ) (k : WeekControl) (s : Store)
    → Ready c
    → (day + 6) % 7 ≡ 0
    → find_control day s ≡ some k
    → verify_week_lease c day id (pos n) s ≡ (ok (verify_decision (c.clock 0) day id n (some k)), s)
unfolding verify_week_lease read_control checked_token
verify_week_lease-ready c day id n k s r monday found =
    bind_ok _ _ s s tt _ (require_transaction-ready c s r) (
      bind_ok _ _ s s day _ (week-monday day s monday) (
        bind_ok _ _ s s n _ refl (
          bind_ok _ _ s s tt _ (lease_statement-ready c 0 s r)
            (bind_ok _ _ s s (some k) _ (ap (λ o. (ok o, s)) found) refl))))

ltb-true : (a b : ℕ) → a < b → ltb a b ≡ true
ltb-true a b h = ground (arith, h)

row_verified :
    (k : WeekControl) (now then_at day id n : ℕ)
    → now < then_at + n
    → lease_verified
        (verify_decision now day id (k.fencing_token + 1) (some (grant_row then_at id n k)))
      ≡ true
row_verified k now then_at day id n before =
    rw (==_refl id, ==_refl (k.fencing_token + 1), ltb-true now (then_at + n) before) refl

-- On connections whose statements all work, an acquisition of a week that is free or expired, by a run
-- recorded for that week, leaves a lease that is verified for the run and the next token, as long as
-- the clock has not reached its end. The server's clock does not go back during the acquisition.
pub acquire-verify :
    (c c' : Connection) (day id n : ℕ) (s : Store)
    → Ready c
    → Ready c'
    → Request day id n s
    → (is_some (row_before day s).owner_run_id
        && not (expired (c.clock 3) (row_before day s).lease_expires_at))
      ≡ false
    → c.clock 3 ≤ c.clock 4
    → c'.clock 0 < c.clock 4 + n
    → verifies c' day id
        (pos ((row_before day s).fencing_token + 1))
        (acquire_week_lease c day id (pos n) s).1
      ≡ true
acquire-verify c c' day id n s ready ready' q free clock before =
    let (t, granted, found) = acquire_grants c day id n s ready q free clock in
    ap
      (λ (x : Result LeaseDecision × Store).
        is_verified
          (verify_week_lease c' day id (pos ((row_before day s).fencing_token + 1)) x.1).0)
      granted
    ∙ ap (λ (x : Result LeaseDecision × Store). is_verified x.0)
        (verify_week_lease-ready c' day id _ _ t ready' q.monday found)
    ∙ row_verified (row_before day s) (c'.clock 0) (c.clock 4) day id n before
