-- ===== src/Relay/Delivery.antt =====
-- Runs of pipelines/outbox_relay.py: the acknowledgements of the source and the rows of the
-- destination.
use mathlib.Core.Path.{subst}
use ang553_latam_aie_01_fina.Common.{
  ℕ, String, Bool, true, false, ◌&&◌, ◌≡◌, refl, ap, ◌∙◌, Option, none, some, List, [], ◌∷◌, arith,
  ◌==◌, change_where, All, All-map, All-zip, if◌then◌else◌, Bool-cases, inl, inr,
}
use ang553_latam_aie_01_fina.Relay.Types.{OutboxItem, TelemetryRow, Databases}
use ang553_latam_aie_01_fina.Relay.{
  Round, Turn, idle, delivered_one, raised, failed_with, RelayResult, Destination, works, fails,
  fails_late, is_pending, earlier, sooner, next_pending, item_with, note_failure, acknowledge,
  record_failure, record_success, after_commit, after_failure, deliver, relay_item, relay_round,
  relay_turn, relay_loop, no_progress, relay_inventory_outbox, map_outbox_event_to_row,
  persist_destination_event,
}
use ang553_latam_aie_01_fina.Relay.Rows.{Delivered, Grows, Delivered-Grows, persist-Delivered}

module _ {A : Type 0} where
  All-change_where :
      {P : A → Type 0} (Q : A → Type 0) (p : A → Bool) (set : A → A)
      → ((a : A) → P a → Q (if p a then set a else a))
      → (xs : List A) → All P xs
      → All Q (change_where p set xs)
  unfolding change_where
  All-change_where Q p set f [] h = tt
  All-change_where Q p set f (x ∷ xs) (h, hs) = (f x h, All-change_where Q p set f xs hs)

-- The primary key: rows under one event id are the same row.
abbrev pub KeysUnique : List OutboxItem → Type 0
KeysUnique rows = All (λ a. All (λ b. (a.event_id == b.event_id) ≡ true → a ≡ b) rows) rows

-- A row that is acknowledged has been delivered.
abbrev pub Acknowledged : List TelemetryRow → OutboxItem → Type 0
Acknowledged telemetry i = is_pending i ≡ false → Delivered i telemetry

pub record IsConsistent (d : Databases) : Type 0 where
  pub keys : KeysUnique d.source
  pub acknowledged : All (Acknowledged d.destination) d.source

-- The next row is one of the table.
next_pending-All :
    (P : OutboxItem → Type 0) (rows : List OutboxItem) (i : OutboxItem)
    → next_pending rows ≡ some i
    → All P rows
    → P i
unfolding next_pending sooner
next_pending-All P [] i h k = absurd (ground (arith, h))
next_pending-All P (x ∷ rows) i h (k, ks) =
    go (λ e. next_pending-All P rows i e ks) (next_pending rows) refl (is_pending x) h
  where
    go :
        (next_pending rows ≡ some i → P i)
        → (o : Option OutboxItem) → next_pending rows ≡ o
        → (b : Bool) → (if b then some (sooner x o) else o) ≡ some i
        → P i
    go later o p false q = later (p ∙ q)
    go later none p true q = subst P (ground (arith, q)) k
    go later (some best) p true q = elim (Bool-cases (earlier best x)) [
      | inl sooner_best ↦ later (p ∙ rw sooner_best at q)
      | inr not_sooner ↦ subst P (ground (arith, rw not_sooner at q)) k
    ]

-- A change that keeps the event ids keeps the primary key.
KeysUnique-change_where :
    (p : OutboxItem → Bool) (set : OutboxItem → OutboxItem) (rows : List OutboxItem)
    → ((a : OutboxItem) → (set a).event_id ≡ a.event_id)
    → KeysUnique rows
    → KeysUnique (change_where p set rows)
KeysUnique-change_where p set rows keeps keys =
    All-change_where _ p set
      (λ a k.
        All-change_where _ p set (λ b same e. ap (λ x. if p x then set x else x) (same (ids a b e)))
          rows k)
      rows keys
  where
    kept : (a : OutboxItem) → (if p a then set a else a).event_id ≡ a.event_id
    kept a = elim (Bool-cases (p a)) [ inl hit ↦ rw hit (keeps a) | inr miss ↦ rw miss refl ]

    ids :
        (a b : OutboxItem)
        → ((if p a then set a else a).event_id == (if p b then set b else b).event_id) ≡ true
        → (a.event_id == b.event_id) ≡ true
    ids a b e = rw (kept a, kept b) at e

noted-Acknowledged :
    (telemetry : List TelemetryRow) (now : ℕ) (code : String) (id : ℕ) (a : OutboxItem)
    → Acknowledged telemetry a
    → Acknowledged telemetry (if item_with id a then note_failure now code a else a)
unfolding map_outbox_event_to_row
noted-Acknowledged telemetry now code id a k = elim (Bool-cases (item_with id a)) [
  | inr other ↦ rw other k
  | inl here ↦ rw here (λ published.
      let d = k published in record { row = d.row; found = d.found; content = d.content })
]

failure-IsConsistent :
    (now : ℕ) (code : String) (id : ℕ) (d : Databases)
    → IsConsistent d
    → IsConsistent (record_failure now code id d)
failure-IsConsistent now code id d c = record {
  keys = KeysUnique-change_where (item_with id) (note_failure now code) d.source (λ a. refl) c.keys;
  acknowledged =
      All-change_where (Acknowledged d.destination) (item_with id) (note_failure now code)
        (λ a k. noted-Acknowledged d.destination now code id a k) d.source c.acknowledged;
}

Acknowledged-acknowledge :
    (telemetry : List TelemetryRow) (now later : ℕ) (item a : OutboxItem)
    → Delivered item telemetry
    → Acknowledged telemetry a
    → ((item.event_id == a.event_id) ≡ true → item ≡ a)
    → Acknowledged telemetry
        (if item_with item.event_id a && is_pending a then acknowledge now later a else a)
unfolding map_outbox_event_to_row
Acknowledged-acknowledge telemetry now later item a delivered k same =
    elim (Bool-cases (item_with item.event_id a && is_pending a)) [
      | inr other ↦ rw other k
      | inl here ↦
          let e : item ≡ a = same (ground (arith, here)) in
          let d = subst (λ x. Delivered x telemetry) e delivered in
          rw here (λ published. record { row = d.row; found = d.found; content = d.content })
    ]

success-IsConsistent :
    (now later : ℕ) (item : OutboxItem) (d : Databases)
    → Delivered item d.destination
    → All (λ b. (item.event_id == b.event_id) ≡ true → item ≡ b) d.source
    → IsConsistent d
    → IsConsistent (record_success now later item.event_id d)
success-IsConsistent now later item d delivered same c = record {
  keys =
      KeysUnique-change_where (λ i. item_with item.event_id i && is_pending i)
        (acknowledge now later) d.source (λ a. refl) c.keys;
  acknowledged =
      All-change_where (Acknowledged d.destination) (λ i. item_with item.event_id i && is_pending i)
        (acknowledge now later)
        (λ a.
          λ (k : Acknowledged d.destination a × ((item.event_id == a.event_id) ≡ true → item ≡ a)).
            Acknowledged-acknowledge d.destination now later item a delivered k.0 k.1)
        d.source (All-zip (λ a k e. (k, e)) d.source c.acknowledged same);
}

-- More telemetry leaves what is acknowledged delivered.
grown-IsConsistent :
    (rows : List TelemetryRow) (d : Databases)
    → Grows d.destination rows
    → IsConsistent d
    → IsConsistent (record d { destination = rows })
grown-IsConsistent rows d grows c = record {
  keys = c.keys;
  acknowledged =
      All-map (λ a k published. Delivered-Grows a d.destination rows grows (k published)) d.source
        c.acknowledged;
}

after_commit-IsConsistent :
    (round : Round) (item : OutboxItem) (d : Databases)
    → Delivered item d.destination
    → All (λ b. (item.event_id == b.event_id) ≡ true → item ≡ b) d.source
    → IsConsistent d
    → IsConsistent (after_commit round item d).1
unfolding after_commit
after_commit-IsConsistent round item d delivered same c = elim (Bool-cases round.crashes) [
  | inl crash ↦ rw crash c
  | inr on ↦ rw on (success-IsConsistent round.now round.later item d delivered same c)
]

after_failure-IsConsistent :
    (round : Round) (code : String) (item : OutboxItem) (d : Databases)
    → IsConsistent d
    → IsConsistent (after_failure round code item d).1
unfolding after_failure
after_failure-IsConsistent round code item d c = elim (Bool-cases round.crashes) [
  | inl crash ↦ rw crash c
  | inr on ↦ rw on (failure-IsConsistent round.now code item.event_id d c)
]

deliver-IsConsistent :
    (round : Round) (item : OutboxItem) (d : Databases) (destination : Destination)
    (o : Option (List TelemetryRow))
    → persist_destination_event (map_outbox_event_to_row item) d.destination ≡ o
    → All (λ b. (item.event_id == b.event_id) ≡ true → item ≡ b) d.source
    → IsConsistent d
    → IsConsistent (deliver round item d destination o).1
unfolding deliver
deliver-IsConsistent round item d (fails code) o p same c =
    after_failure-IsConsistent round code item d c
deliver-IsConsistent round item d works none p same c =
    after_failure-IsConsistent round "destination_event_conflict" item d c
deliver-IsConsistent round item d (fails_late code) none p same c =
    after_failure-IsConsistent round "destination_event_conflict" item d c
deliver-IsConsistent round item d works (some rows) p same c =
    let (delivered, grows) = persist-Delivered item d.destination rows p in
    after_commit-IsConsistent round item (record d { destination = rows }) delivered same
      (grown-IsConsistent rows d grows c)
deliver-IsConsistent round item d (fails_late code) (some rows) p same c =
    let (delivered, grows) = persist-Delivered item d.destination rows p in
    after_failure-IsConsistent round code item (record d { destination = rows })
      (grown-IsConsistent rows d grows c)

relay_round-IsConsistent :
    (round : Round) (d : Databases) → IsConsistent d → IsConsistent (relay_round round d).1
unfolding relay_round relay_item
relay_round-IsConsistent round d c = go (next_pending d.source) refl
  where
    go : (o : Option OutboxItem) → next_pending d.source ≡ o → IsConsistent (relay_item round o d).1
    go none p = c
    go (some item) p =
        deliver-IsConsistent round item d round.destination _ refl
          (next_pending-All (λ a. All (λ b. (a.event_id == b.event_id) ≡ true → a ≡ b) d.source)
            d.source item p c.keys)
          c

relay_turn-IsConsistent :
    (r : RelayResult) (rest : RelayResult → Databases → Option RelayResult × Databases)
    (x : Turn × Databases)
    → IsConsistent x.1
    → ((q : RelayResult) (d : Databases) → IsConsistent d → IsConsistent (rest q d).1)
    → IsConsistent (relay_turn r rest x).1
unfolding relay_turn
relay_turn-IsConsistent r rest (idle, d) c h = c
relay_turn-IsConsistent r rest (failed_with code, d) c h = c
relay_turn-IsConsistent r rest (raised, d) c h = c
relay_turn-IsConsistent r rest (delivered_one, d) c h = h _ d c

relay_loop-IsConsistent :
    (r : RelayResult) (rounds : List Round) (d : Databases)
    → IsConsistent d
    → IsConsistent (relay_loop r rounds d).1
unfolding relay_loop
relay_loop-IsConsistent r [] d c = c
relay_loop-IsConsistent r (round ∷ rounds) d c =
    relay_turn-IsConsistent r (λ q. relay_loop q rounds) (relay_round round d)
      (relay_round-IsConsistent round d c) (λ q e. relay_loop-IsConsistent q rounds e)

-- If every acknowledged row of the outbox has been delivered, with its content, and event ids are
-- unique, then so it is after a run of the relay, however its rounds end: a destination that fails
-- before or after its commit, a conflict, or a crash between the two commits.
pub relay_inventory_outbox-IsConsistent :
    (rounds : List Round) (d : Databases)
    → IsConsistent d
    → IsConsistent (relay_inventory_outbox rounds d).1
unfolding relay_inventory_outbox
relay_inventory_outbox-IsConsistent [] d c = c
relay_inventory_outbox-IsConsistent (round ∷ rounds) d c =
    relay_loop-IsConsistent no_progress (round ∷ rounds) d c
