-- ===== src/Tasks/Drain.antt =====
-- The turns of services/task_queue/relay.py, and the publications that the outbox still allows.
use mathlib.Core.Path.{subst}
use ang553_latam_aie_01_fina.Common.{
  is_some, ℕ, String, ◌+◌, ◌-◌, ◌≤◌, ◌<◌, Bool, true, false, ◌&&◌, ◌≡◌, inl, inr, refl, ◌∙◌, Option,
  none, some, List, [], ◌∷◌, map, arith, ==_refl, any_of, sum_where, change_where, Bool-cases,
  if◌then◌else◌, ltb,
}
use ang553_latam_aie_01_fina.Tasks.Types.{
  publication_uncertain, dispatch_reconciliation, DispatchRow, Registry,
}
use ang553_latam_aie_01_fina.Tasks.Dispatch.{
  RelayConfig, RelayTurn, Publication, taken, raised, stopped, expire, exhaust, is_ready,
  dispatch_with, take_row, readier, ready_before, next_ready, swept, take_ready, claim_one,
  is_taken, release_row, published_row, publish_failed, publish_done, published_turn, relay_once,
  delay,
}

-- The publications that a row still allows, and those of an outbox.
abbrev pub left_of : ℕ → DispatchRow → ℕ
left_of max o = max - o.publish_attempts

abbrev pub allowance : ℕ → List DispatchRow → ℕ
allowance max rows = sum_where (λ _. true) (left_of max) rows

abbrev one_if : Bool → ℕ
one_if b = if b then 1 else 0

-- The turns of a sequence that took a row up.
unfoldable pub dispatched : RelayConfig → List RelayTurn → Registry → ℕ
dispatched c [] s = 0
dispatched c (turn ∷ turns) s =
    one_if (relay_once c turn s).0 + dispatched c turns (relay_once c turn s).1

module _ (max : ℕ) where
  allowance-map :
      (f : DispatchRow → DispatchRow) (rows : List DispatchRow)
      → ((o : DispatchRow) → (f o).publish_attempts ≡ o.publish_attempts)
      → allowance max (map f rows) ≡ allowance max rows
  unfolding sum_where
  allowance-map f [] h = refl
  allowance-map f (o ∷ rows) h = omega (arith, h o, allowance-map f rows h)

  allowance-change_where :
      (p : DispatchRow → Bool) (f : DispatchRow → DispatchRow) (rows : List DispatchRow)
      → ((o : DispatchRow) → o.publish_attempts ≤ (f o).publish_attempts)
      → allowance max (change_where p f rows) ≤ allowance max rows
  unfolding sum_where change_where
  allowance-change_where p f [] h = omega arith
  allowance-change_where p f (o ∷ rows) h = ground (arith, h o, allowance-change_where p f rows h)

  -- A row that still allows a publication and takes one.
  allowance-take_row :
      (id : ℕ) (owner : String) (token lease now : ℕ) (rows : List DispatchRow)
      → any_of (λ (o : DispatchRow). dispatch_with id o && ltb o.publish_attempts max) rows ≡ true
      → allowance max (change_where (dispatch_with id) (take_row owner token lease now) rows)
        < allowance max rows
  unfolding sum_where change_where any_of
  allowance-take_row id owner token lease now [] h = ground arith
  allowance-take_row id owner token lease now (o ∷ rows) h =
      let grown =
        allowance-change_where (dispatch_with id) (take_row owner token lease now) rows
          (λ x. omega arith) in
      elim (Bool-cases (dispatch_with id o && ltb o.publish_attempts max)) [
        | inl hit ↦ ground (arith, hit, grown)
        | inr miss ↦ ground (arith, h, miss, allowance-take_row id owner token lease now rows)
      ]

  -- Some row of a task still allows a publication.
  abbrev Offers : ℕ → List DispatchRow → Type 0
  Offers id rows =
      any_of (λ (x : DispatchRow). dispatch_with id x && ltb x.publish_attempts max) rows ≡ true

  readier-Offers :
      (x : DispatchRow) (rest : Option DispatchRow) (rows : List DispatchRow) (o : DispatchRow)
      (ready : Bool)
      → (ready ≡ true → x.publish_attempts < max)
      → ((y : DispatchRow) → rest ≡ some y → Offers y.task_id rows)
      → (if ready then some (readier x rest) else rest) ≡ some o
      → Offers o.task_id (x ∷ rows)
  unfolding readier any_of
  readier-Offers x rest rows o false room ih h = ground (arith, ih o h)
  readier-Offers x none rows o true room ih h =
      let same : x ≡ o = ground (arith, h) in
      subst (λ (y : DispatchRow). Offers y.task_id (x ∷ rows)) same
        (ground (arith, ==_refl x.task_id, room refl))
  readier-Offers x (some y) rows o true room ih h =
      let same : (if ready_before y x then y else x) ≡ o = ground (arith, h) in
      subst (λ (z : DispatchRow). Offers z.task_id (x ∷ rows)) same (go (ready_before y x))
    where
      go : (b : Bool) → Offers (if b then y else x).task_id (x ∷ rows)
      go true = ground (arith, ih y refl)
      go false = ground (arith, ==_refl x.task_id, room refl)

  next_ready-Offers :
      (now : ℕ) (rows : List DispatchRow) (o : DispatchRow)
      → next_ready (is_ready max now) rows ≡ some o
      → Offers o.task_id rows
  unfolding next_ready
  next_ready-Offers now [] o h = ground arith
  next_ready-Offers now (x ∷ rows) o h =
      readier-Offers x (next_ready (is_ready max now) rows) rows o (is_ready max now x)
        (λ r. ground arith) (λ y p. next_ready-Offers now rows y p) h

expire-attempts : (now : ℕ) (o : DispatchRow) → (expire now o).publish_attempts ≡ o.publish_attempts
expire-attempts now o = go _
  where
    go :
        (b : Bool)
        → (if b
            then record o {
              dispatch_status = publication_uncertain;
              last_error_code = some "publication_uncertain";
              updated_at = now;
            }
            else o).publish_attempts
          ≡ o.publish_attempts
    go true = refl
    go false = refl

exhaust-attempts :
    (max now : ℕ) (o : DispatchRow) → (exhaust max now o).publish_attempts ≡ o.publish_attempts
exhaust-attempts max now o = go _
  where
    go :
        (b : Bool)
        → (if b
            then record o {
              dispatch_status = dispatch_reconciliation;
              last_error_code = some "publish_attempts_exhausted";
              updated_at = now;
            }
            else o).publish_attempts
          ≡ o.publish_attempts
    go true = refl
    go false = refl

take_ready-allowance :
    (max : ℕ) (owner : String) (token lease now : ℕ) (o : Option DispatchRow) (s : Registry)
    → ((y : DispatchRow) → o ≡ some y → Offers max y.task_id s.outbox)
    → one_if (is_some (take_ready owner token lease now o s).0)
        + allowance max ((take_ready owner token lease now o s).1).outbox
      ≤ allowance max s.outbox
unfolding take_ready
take_ready-allowance max owner token lease now none s h = omega arith
take_ready-allowance max owner token lease now (some y) s h =
    omega (arith, allowance-take_row max y.task_id owner token lease now s.outbox (h y refl))

-- `_claim_one` takes a publication from the allowance, or finds none.
claim_one-allowance :
    (c : RelayConfig) (owner : String) (token now : ℕ) (s : Registry)
    → one_if (is_some (claim_one c owner token now s).0)
        + allowance c.max_publish_attempts ((claim_one c owner token now s).1).outbox
      ≤ allowance c.max_publish_attempts s.outbox
unfolding claim_one swept
claim_one-allowance c owner token now s =
    let max : ℕ = c.max_publish_attempts in
    let sweep : DispatchRow → DispatchRow = λ o. exhaust max now (expire now o) in
    omega (
      arith,
      take_ready-allowance max owner token c.lease_seconds now
          (next_ready (is_ready max now) (map sweep s.outbox)) (swept max now s)
          (λ y p. next_ready-Offers max now (map sweep s.outbox) y p),
      allowance-map max sweep s.outbox
          (λ o. exhaust-attempts max now (expire now o) ∙ expire-attempts now o),
    )

published_turn-allowance :
    (max : ℕ) (c : RelayConfig) (t : RelayTurn) (o : Option DispatchRow) (s : Registry)
    (p : Publication)
    → one_if (published_turn c t (o, s) p).0
        + allowance max ((published_turn c t (o, s) p).1).outbox
      ≤ one_if (is_some o) + allowance max s.outbox
unfolding published_turn publish_done publish_failed
published_turn-allowance max c t none s p = omega arith
published_turn-allowance max c t (some o) s taken = omega (
  arith,
  allowance-change_where max (is_taken o.task_id t.token) (published_row t.later) s.outbox
      (λ x. omega arith),
)
published_turn-allowance max c t (some o) s (raised code) = omega (
  arith,
  allowance-change_where max (is_taken o.task_id t.token)
      (release_row c (delay c.max_backoff_seconds o.publish_attempts) code t.later) s.outbox
      (λ x. omega arith),
)
published_turn-allowance max c t (some o) s stopped = omega arith

-- The turns of the relay that take a row up are at most the publications that the outbox still allows:
-- after as many, whatever fails in them, the relay finds nothing to publish.
pub dispatched-le :
    (c : RelayConfig) (turns : List RelayTurn) (s : Registry)
    → dispatched c turns s ≤ allowance c.max_publish_attempts s.outbox
unfolding dispatched relay_once
dispatched-le c [] s = omega arith
dispatched-le c (turn ∷ turns) s =
    let claimed = claim_one c turn.owner turn.token turn.now s in
    omega (
      arith,
      claim_one-allowance c turn.owner turn.token turn.now s,
      published_turn-allowance c.max_publish_attempts c turn claimed.0 claimed.1 turn.publication,
      dispatched-le c turns (relay_once c turn s).1,
    )
