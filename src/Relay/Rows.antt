-- ===== src/Relay/Rows.antt =====
-- `_persist_destination_event` and `_canonical_destination` of pipelines/outbox_relay.py.
use mathlib.Core.Path.{subst}
use ang553_latam_aie_01_fina.Common.{
  ℕ, ℤ, pos, negsuc, String, Bool, true, ◌≡◌, refl, ◌∙◌, Option, none, some, List, [], ◌∷◌, arith,
  str_eq, str_eq_iff, opt_str_eq, ==_refl, all_of, first, first-append_some, first-append_none,
  Bool-cases, inl, inr,
}
use ang553_latam_aie_01_fina.Relay.Types.{
  Scalar, text, number, null, Tags, OutboxItem, TelemetryRow, int_eq, opt_scalar_eq, opt_int_eq,
  tag, tags_eq, canonical_eq,
}
use ang553_latam_aie_01_fina.Relay.{
  map_outbox_event_to_row, row_with, persisted, persist_destination_event,
}

str_eq_refl : (a : String) → str_eq a a ≡ true
str_eq_refl a = (str_eq_iff a a).1 refl

int_eq_refl : (a : ℤ) → int_eq a a ≡ true
int_eq_refl (pos n) = ground arith
int_eq_refl (negsuc n) = ground arith

opt_scalar_eq_refl : (o : Option Scalar) → opt_scalar_eq o o ≡ true
opt_scalar_eq_refl none = refl
opt_scalar_eq_refl (some (text a)) = str_eq_refl a
opt_scalar_eq_refl (some (number a)) = int_eq_refl a
opt_scalar_eq_refl (some null) = refl

all_of-always :
    {A : Type 0} (p : A → Bool) (xs : List A) → ((a : A) → p a ≡ true) → all_of p xs ≡ true
unfolding all_of
all_of-always p [] h = refl
all_of-always p (x ∷ xs) h = rw (h x, all_of-always p xs h) refl

tags_eq_refl : (t : Tags) → tags_eq t t ≡ true
unfolding tags_eq
tags_eq_refl t =
    let all =
      all_of-always (λ (p : String × Scalar). opt_scalar_eq (tag p.0 t) (tag p.0 t)) t
        (λ p. opt_scalar_eq_refl (tag p.0 t)) in
    ground (arith, all)

opt_str_eq_refl : (o : Option String) → opt_str_eq o o ≡ true
opt_str_eq_refl none = refl
opt_str_eq_refl (some a) = str_eq_refl a

opt_int_eq_refl : (o : Option ℤ) → opt_int_eq o o ≡ true
opt_int_eq_refl none = refl
opt_int_eq_refl (some a) = int_eq_refl a

pub canonical_eq_refl : (r : TelemetryRow) → canonical_eq r r ≡ true
unfolding canonical_eq
canonical_eq_refl r =
    rw
      (
        ==_refl r.id,
        ==_refl r.timestamp,
        str_eq_refl r.service,
        str_eq_refl r.event_type,
        opt_str_eq_refl r.level,
        opt_int_eq_refl r.value,
        opt_str_eq_refl r.message,
        tags_eq_refl r.tags,
      )
      refl

-- The telemetry has a row under the event's id, with the event's content.
pub record Delivered (item : OutboxItem) (rows : List TelemetryRow) : Type 0 where
  pub row : TelemetryRow
  pub found : first (row_with item.event_id) rows ≡ some row
  pub content : canonical_eq row (map_outbox_event_to_row item) ≡ true

-- Rows found stay found.
pub Grows : List TelemetryRow → List TelemetryRow → Type 0
Grows rows rows' =
    (id : ℕ) (r : TelemetryRow)
    → first (row_with id) rows ≡ some r
    → first (row_with id) rows' ≡ some r

pub Delivered-Grows :
    (item : OutboxItem) (rows rows' : List TelemetryRow)
    → Grows rows rows'
    → Delivered item rows
    → Delivered item rows'
unfolding Grows
Delivered-Grows item rows rows' grows d = record {
  row = d.row;
  found = grows item.event_id d.row d.found;
  content = d.content;
}

pub Grows-refl : (rows : List TelemetryRow) → Grows rows rows
unfolding Grows
Grows-refl rows id r h = h

inserted_last : (r : TelemetryRow) → first (row_with r.id) (r ∷ []) ≡ some r
unfolding first
inserted_last r = rw (==_refl r.id) refl

or_same : (a b : List TelemetryRow) → some a ≡ some b → a ≡ b
or_same a b h = ground (arith, h)

-- What a persisted event leaves: its row, and every row that was there.
pub persist-Delivered :
    (item : OutboxItem) (rows rows' : List TelemetryRow)
    → persist_destination_event (map_outbox_event_to_row item) rows ≡ some rows'
    → Delivered item rows' × Grows rows rows'
unfolding persist_destination_event persisted Grows map_outbox_event_to_row
persist-Delivered item rows rows' h = go (first (row_with item.event_id) rows) refl h
  where
    expected : TelemetryRow
    expected = map_outbox_event_to_row item

    go :
        (o : Option TelemetryRow)
        → first (row_with item.event_id) rows ≡ o
        → persisted expected o rows ≡ some rows'
        → Delivered item rows' × Grows rows rows'
    go none p q =
        subst (λ z. Delivered item z × Grows rows z) (or_same _ _ q)
          (
            record {
              row = expected;
              found =
                  first-append_none (row_with item.event_id) rows (expected ∷ []) p
                  ∙ inserted_last expected;
              content = canonical_eq_refl expected;
            },
            (λ id r k. first-append_some (row_with id) rows (expected ∷ []) r k),
          )
    go (some actual) p q = elim (Bool-cases (canonical_eq actual expected)) [
      | inr other ↦ absurd (ground (arith, rw other at q))
      | inl same ↦
          subst (λ z. Delivered item z × Grows rows z) (or_same _ _ (rw same at q))
            (record { row = actual; found = p; content = same }, (λ id r k. k))
    ]

-- Once an event is persisted in the telemetry, persisting it again succeeds and leaves every row as it
-- is, so a round that crashed after the destination's commit can be tried again.
pub persist_destination_event-again :
    (item : OutboxItem) (rows rows' : List TelemetryRow)
    → persist_destination_event (map_outbox_event_to_row item) rows ≡ some rows'
    → persist_destination_event (map_outbox_event_to_row item) rows' ≡ some rows'
unfolding persist_destination_event persisted
persist_destination_event-again item rows rows' h =
    let (delivered, grows) = persist-Delivered item rows rows' h in
    rw (found delivered, delivered.content) refl
  where
    found :
        (d : Delivered item rows')
        → first (row_with (map_outbox_event_to_row item).id) rows' ≡ some d.row
    found d = unfold map_outbox_event_to_row in d.found
