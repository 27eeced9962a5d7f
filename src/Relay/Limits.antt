-- ===== src/Relay/Limits.antt =====
-- The result of a run of pipelines/outbox_relay.py.
use ang553_latam_aie_01_fina.Common.{
  ℕ, ◌+◌, ◌≤◌, ◌≡◌, refl, ◌++◌, Option, some, List, [], ◌∷◌, arith, length,
}
use ang553_latam_aie_01_fina.Relay.Types.{Databases}
use ang553_latam_aie_01_fina.Relay.{
  Round, Turn, idle, delivered_one, raised, failed_with, RelayResult, relay_round, relay_turn,
  no_progress, relay_loop, relay_inventory_outbox,
}

-- From counters without a failure: at most one row for each round, and a failure has its code.
record Bounded (n limit : ℕ) (r : RelayResult) : Type 0 where
  counted : n ≤ r.delivered
  limited : r.delivered + r.failed ≤ n + limit
  codes : length r.error_codes ≡ r.failed
  stopped : r.failed ≤ 1

record NoFailure (r : RelayResult) : Type 0 where
  failed : r.failed ≡ 0
  codes : r.error_codes ≡ []

NoFailure-Bounded : (k : ℕ) (r q : RelayResult) → NoFailure r → q ≡ r → Bounded r.delivered k q
NoFailure-Bounded k r q z e =
    rw (e, z.failed, z.codes)
      (record { counted = omega arith; limited = omega arith; codes = refl; stopped = omega arith })

relay_turn-Bounded :
    (k : ℕ) (p : RelayResult) (rest : RelayResult → Databases → Option RelayResult × Databases)
    (x : Turn × Databases) (r : RelayResult)
    → NoFailure p
    → ((c : RelayResult) (d : Databases) (q : RelayResult)
        → NoFailure c
        → (rest c d).0 ≡ some q
        → Bounded c.delivered k q)
    → (relay_turn p rest x).0 ≡ some r
    → Bounded p.delivered (k + 1) r
unfolding relay_turn
relay_turn-Bounded k p rest (idle, d) r z f h = NoFailure-Bounded (k + 1) p r z (ground (arith, h))
relay_turn-Bounded k p rest (failed_with code, d) r z f h =
    let e : r ≡ record p { failed = p.failed + 1; error_codes = p.error_codes ++ code ∷ [] } =
      ground (arith, h) in
    rw e (record {
      counted = omega arith;
      limited = rw z.failed (omega arith);
      codes = rw (z.failed, z.codes) refl;
      stopped = rw z.failed (omega arith);
    })
relay_turn-Bounded k p rest (raised, d) r z f h = absurd (ground (arith, h))
relay_turn-Bounded k p rest (delivered_one, d) r z f h =
    let b =
      f (record p { delivered = p.delivered + 1 }) d r
        (record { failed = z.failed; codes = z.codes }) h in
    record {
      counted = omega (arith, b.counted);
      limited = omega (arith, b.limited);
      codes = b.codes;
      stopped = b.stopped;
    }

relay_loop-Bounded :
    (p : RelayResult) (rounds : List Round) (d : Databases) (r : RelayResult)
    → NoFailure p
    → (relay_loop p rounds d).0 ≡ some r
    → Bounded p.delivered (length rounds) r
unfolding relay_loop
relay_loop-Bounded p [] d r z h = NoFailure-Bounded 0 p r z (ground (arith, h))
relay_loop-Bounded p (round ∷ rounds) d r z h =
    let b =
      relay_turn-Bounded (length rounds) p (λ later. relay_loop later rounds) (relay_round round d)
        r z (λ c e q y g. relay_loop-Bounded c rounds e q y g) h in
    record {
      counted = b.counted;
      limited = omega (arith, b.limited);
      codes = b.codes;
      stopped = b.stopped;
    }

-- A run of the relay that returns has delivered and failed no more rows together than its limit; it
-- has failed at most once, and it returns one code for each failure.
pub relay_inventory_outbox-limit :
    (rounds : List Round) (d : Databases) (r : RelayResult)
    → (relay_inventory_outbox rounds d).0 ≡ some r
    → (r.delivered + r.failed ≤ length rounds) × (r.failed ≤ 1) × (length r.error_codes ≡ r.failed)
unfolding relay_inventory_outbox
relay_inventory_outbox-limit [] d r h = absurd (ground (arith, h))
relay_inventory_outbox-limit (round ∷ rounds) d r h =
    let b =
      relay_loop-Bounded no_progress (round ∷ rounds) d r (record { failed = refl; codes = refl })
        h in
    (omega (arith, b.limited), b.stopped, b.codes)
