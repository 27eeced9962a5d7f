-- ===== src/Inventory/Counts/Retry.antt =====
-- Retries of `confirm_inventory_physical_count` of services/api/inventory_service.py.
use ang553_latam_aie_01_fina.Common.{
  true, ◌≡◌, some, [], ◌∷◌, arith, ◌==◌, str_eq_iff, first, first-append_none, inl, inr, ap, sym,
  ◌∙◌,
}
use ang553_latam_aie_01_fina.Inventory.Types.{
  PhysicalCount, World, Env, PhysicalCountCreate, warehouse_value,
}
use ang553_latam_aie_01_fina.Inventory.Tx.{ok}
use ang553_latam_aie_01_fina.Inventory.Counts.{
  same_count, count_or_retry, confirm_inventory_physical_count,
}
use ang553_latam_aie_01_fina.Inventory.Counts.Rows.{confirm-CountAccepted}

found_again :
    (env : Env) (payload : PhysicalCountCreate) (w : World) (c : PhysicalCount)
    → first (λ r. r.count_id == payload.count_id) w.db.counts ≡ some c
    → same_count env payload c ≡ true
    → confirm_inventory_physical_count env payload w ≡ (ok c, w)
unfolding confirm_inventory_physical_count count_or_retry
found_again env payload w c found same = rw (found, count_or_retry, same)

new_count-same :
    (env : Env) (payload : PhysicalCountCreate) (count : PhysicalCount)
    → count.sku_id ≡ payload.sku_id
    → count.warehouse ≡ warehouse_value payload.warehouse
    → count.observed_quantity ≡ payload.observed_quantity
    → count.user_uuid ≡ env.user_uuid
    → same_count env payload count ≡ true
new_count-same env payload count a b q u = ground (
  arith,
  str_eq_iff count.warehouse (warehouse_value payload.warehouse),
  str_eq_iff count.user_uuid env.user_uuid,
)

first_one :
    (payload : PhysicalCountCreate) (c : PhysicalCount)
    → c.count_id ≡ payload.count_id
    → first (λ r. r.count_id == payload.count_id) (c ∷ []) ≡ some c
unfolding first
first_one payload c e = ground arith

-- A command that was confirmed can be sent again by its user, at any later time: the second call
-- returns the same row and changes nothing.
pub confirm_idempotent :
    (env again : Env) (payload : PhysicalCountCreate) (w w' : World) (c : PhysicalCount)
    → again.user_uuid ≡ env.user_uuid
    → confirm_inventory_physical_count env payload w ≡ (ok c, w')
    → confirm_inventory_physical_count again payload w' ≡ (ok c, w')
confirm_idempotent env again payload w w' c user h =
    elim (confirm-CountAccepted env payload w w' c h) [
      | inl (unchanged, found, same) ↦
          rw unchanged (found_again again payload w c found (rw user same))
      | inr (absent, (client, (counts, _, _, row))) ↦
          found_again again payload w' c
            (rw counts (
              first-append_none _ w.db.counts (c ∷ []) absent
              ∙ first_one payload c (ap (λ (r : PhysicalCount). r.count_id) row)))
            (new_count-same again payload c (ap (λ (r : PhysicalCount). r.sku_id) row)
              (ap (λ (r : PhysicalCount). r.warehouse) row)
              (ap (λ (r : PhysicalCount). r.observed_quantity) row)
              (ap (λ (r : PhysicalCount). r.user_uuid) row ∙ sym user))
    ]
