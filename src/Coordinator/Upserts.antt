-- ===== src/Coordinator/Upserts.antt =====
-- The rows that the staging of pipelines/publication.py leaves.
use mathlib.Core.Path.{subst}
use ang553_latam_aie_01_fina.Common.{
  ℕ, ◌+◌, Bool, true, false, ◌≡◌, inl, inr, refl, sym, ap, ◌∙◌, Option, none, some, List, [], ◌∷◌,
  arith, str_eq_iff, ==_iff, any_of, first, All, length, Bool-cases,
}
use ang553_latam_aie_01_fina.Coordinator.Staging.{
  WeeklyAggregate, Table, Counts, same_key, same_kpis, upsert_row, upsert, counted,
  counts_from_snapshot, staged, has_disappeared, StageFault, no_fault, unusable, select_fails,
  upsert_fails, stage_rows, stage_weekly_upsert,
}

record SameKey (a b : WeeklyAggregate) : Type 0 where
  warehouse : a.warehouse ≡ b.warehouse
  client_id : a.client_id ≡ b.client_id
  week_start : a.week_start ≡ b.week_start

same_key-SameKey : (a b : WeeklyAggregate) → same_key a b ≡ true → SameKey a b
unfolding same_key
same_key-SameKey a b h = record {
  warehouse = (str_eq_iff a.warehouse b.warehouse).0 (ground arith);
  client_id = (str_eq_iff a.client_id b.client_id).0 (ground arith);
  week_start = (==_iff a.week_start b.week_start).0 (ground arith);
}

SameKey-same_key : (a b : WeeklyAggregate) → SameKey a b → same_key a b ≡ true
unfolding same_key
SameKey-same_key a b e = ground (
  arith,
  (str_eq_iff a.warehouse b.warehouse).1 e.warehouse,
  (str_eq_iff a.client_id b.client_id).1 e.client_id,
  (==_iff a.week_start b.week_start).1 e.week_start,
)

same_key_refl : (a : WeeklyAggregate) → same_key a a ≡ true
same_key_refl a =
    SameKey-same_key a a (record { warehouse = refl; client_id = refl; week_start = refl })

-- A row under the key of `a` is not under another key.
same_key_other :
    (a b r : WeeklyAggregate) → same_key a r ≡ true → same_key b a ≡ false → same_key b r ≡ false
same_key_other a b r h k = elim (Bool-cases (same_key b r)) [
  | inr miss ↦ miss
  | inl hit ↦
      let p = same_key-SameKey a r h in
      let e = same_key-SameKey b r hit in
      absurd (
        ground (
          arith,
          k,
          SameKey-same_key b a (record {
            warehouse = e.warehouse ∙ sym p.warehouse;
            client_id = e.client_id ∙ sym p.client_id;
            week_start = e.week_start ∙ sym p.week_start;
          }),
        ))
]

same_kpis_refl : (a : WeeklyAggregate) → same_kpis a a ≡ true
unfolding same_kpis
same_kpis_refl a = ground arith

upsert_row-other :
    (a b : WeeklyAggregate) (rows : Table)
    → same_key b a ≡ false
    → first (same_key b) (upsert_row a rows) ≡ first (same_key b) rows
unfolding upsert_row first
upsert_row-other a b [] h = rw h refl
upsert_row-other a b (r ∷ rows) h = elim (Bool-cases (same_key a r)) [
  | inr miss ↦ rw (miss, upsert_row-other a b rows h) refl
  | inl hit ↦ elim (Bool-cases (same_kpis a r)) [
    | inl kept ↦ rw (hit, kept) refl
    | inr new ↦ rw (hit, new, h, same_key_other a b r hit h) refl
  ]
]

-- The row of an aggregate holds its figures.
abbrev pub Holds : Table → WeeklyAggregate → Type 0
Holds rows a = (r : WeeklyAggregate) × (first (same_key a) rows ≡ some r) × (same_kpis a r ≡ true)

upsert_row-Holds : (a : WeeklyAggregate) (rows : Table) → Holds (upsert_row a rows) a
unfolding upsert_row first
upsert_row-Holds a [] = (a, rw (same_key_refl a) refl, same_kpis_refl a)
upsert_row-Holds a (r ∷ rows) = elim (Bool-cases (same_key a r)) [
  | inr miss ↦ let (s, found, same) = upsert_row-Holds a rows in (s, rw (miss, miss) found, same)
  | inl hit ↦ elim (Bool-cases (same_kpis a r)) [
    | inl kept ↦ (r, rw (hit, kept, hit) refl, kept)
    | inr new ↦ (a, rw (hit, new, same_key_refl a) refl, same_kpis_refl a)
  ]
]

-- No two aggregates of the batch have one key, as its validation asks.
abbrev pub Distinct : List WeeklyAggregate → Type 0
Distinct [] = Unit
Distinct (a ∷ batch) = (any_of (λ b. same_key a b) batch ≡ false) × Distinct batch

upsert-other :
    (b : WeeklyAggregate) (batch : List WeeklyAggregate) (rows : Table)
    → any_of (λ a. same_key b a) batch ≡ false
    → first (same_key b) (upsert batch rows) ≡ first (same_key b) rows
unfolding upsert any_of
upsert-other b [] rows h = refl
upsert-other b (a ∷ batch) rows h =
    upsert-other b batch (upsert_row a rows) (ground arith)
    ∙ upsert_row-other a b rows (ground arith)

upsert-Holds :
    (batch : List WeeklyAggregate) (rows : Table)
    → Distinct batch
    → All (Holds (upsert batch rows)) batch
unfolding upsert
upsert-Holds [] rows h = tt
upsert-Holds (a ∷ batch) rows (fresh, h) =
    let (r, found, same) = upsert_row-Holds a rows in
    (
      (r, upsert-other a batch (upsert_row a rows) fresh ∙ found, same),
      upsert-Holds batch (upsert_row a rows) h,
    )

counted-length :
    (a : WeeklyAggregate) (o : Option WeeklyAggregate) (n : Counts)
    → (counted a o n).inserted + (counted a o n).updated + (counted a o n).unchanged
      ≡ n.inserted + n.updated + n.unchanged + 1
unfolding counted
counted-length a none n = omega arith
counted-length a (some r) n = elim (Bool-cases (same_kpis a r)) [
  | inl kept ↦ rw kept (omega arith)
  | inr new ↦ rw new (omega arith)
]

pub counts_from_snapshot-length :
    (batch : List WeeklyAggregate) (rows : Table)
    → let n = counts_from_snapshot batch rows in n.inserted + n.updated + n.unchanged ≡ length batch
unfolding counts_from_snapshot
counts_from_snapshot-length [] rows = refl
counts_from_snapshot-length (a ∷ batch) rows = omega (
  arith,
  counted-length a (first (same_key a) rows) (counts_from_snapshot batch rows),
  counts_from_snapshot-length batch rows,
)

-- A staged table is the batch written over a table without a key of the week that the batch lacks.
pub staged-upsert :
    (fault : StageFault) (seen : Bool) (week : ℕ) (batch : List WeeklyAggregate) (t : Table)
    (n : Counts) (rows : Table)
    → stage_weekly_upsert fault seen week batch t ≡ staged n rows
    → (has_disappeared week batch t ≡ false)
      × (rows ≡ upsert batch t)
      × (n ≡ counts_from_snapshot batch t)
unfolding stage_weekly_upsert stage_rows
staged-upsert no_fault seen week batch t n rows h = ground (arith, h)
staged-upsert (unusable code message) seen week batch t n rows h = ground (arith, h)
staged-upsert (select_fails code message) seen week batch t n rows h = ground (arith, h)
staged-upsert (upsert_fails code message) seen week batch t n rows h = ground (arith, h)

-- The figures of the batch under each of its keys, every other row as it was, and counts of inserted,
-- updated and unchanged rows that make up the batch.
pub record Written (batch : List WeeklyAggregate) (t : Table) (n : Counts) (rows : Table)
    : Type 0 where
  pub holds : All (Holds rows) batch
  pub others :
      (b : WeeklyAggregate)
      → any_of (λ a. same_key b a) batch ≡ false
      → first (same_key b) rows ≡ first (same_key b) t
  pub total : n.inserted + n.updated + n.unchanged ≡ length batch

-- A batch without two rows of one key that is staged leaves its figures under each of its keys and every
-- other row as it was, and its counts add up to its length.
pub stage_weekly_upsert-Written :
    (fault : StageFault) (seen : Bool) (week : ℕ) (batch : List WeeklyAggregate) (t : Table)
    (n : Counts) (rows : Table)
    → Distinct batch
    → stage_weekly_upsert fault seen week batch t ≡ staged n rows
    → Written batch t n rows
stage_weekly_upsert-Written fault seen week batch t n rows distinct h =
    let (_, same, counts) = staged-upsert fault seen week batch t n rows h in
    record {
      holds = subst (λ z. All (Holds z) batch) (sym same) (upsert-Holds batch t distinct);
      others = λ b fresh. ap (first (same_key b)) same ∙ upsert-other b batch t fresh;
      total =
          subst (λ m. m.inserted + m.updated + m.unchanged ≡ length batch) (sym counts)
            (counts_from_snapshot-length batch t);
    }
