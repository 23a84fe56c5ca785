-- ===== src/Schedule/Delete/Capacity.antt =====
-- What a change of the capacity does to a slot (`update_capacity` of
-- src/vrm/schedule/slotted_schedule/slotted_schedule_context.rs).
use vrm_rust.Base.{
  ℕ, false, ap, ◌∙◌, ◌≡◌, refl, List, [], ◌∷◌, arith, inl, inr, Bool-cases, nat_eq, beq_refl,
}
use vrm_rust.Base.Int.{ℤ, pos, ◌≤ℤ◌, ◌<ℤ◌, ltb_ℤ}
use vrm_rust.Base.I64.{IsSmall}
use vrm_rust.Base.HashSet
use vrm_rust.Base.HashSet.{erase, contains, erase_absent}
use vrm_rust.Schedule.Slot
use vrm_rust.Schedule.Slot.{Slot}
use vrm_rust.Schedule.Slot.Accounting
use vrm_rust.Schedule.Slot.Accounting.{IsValid, Nonneg, total}
use vrm_rust.Schedule.Delete.{prune, update_slot_capacity}
use vrm_rust.Store.{Store}
use vrm_rust.Store.Read.{get_reserved_capacity}

-- The slot is valid and has the capacity.
abbrev Fits : Store → ℤ → Slot → Type 0
Fits store capacity s = IsValid (get_reserved_capacity store) s × (s.capacity ≡ capacity)

resize-Fits :
    (store : Store) (capacity : ℤ) (s : Slot)
    → IsSmall capacity
    → IsValid (get_reserved_capacity store) s
    → s.load <ℤ capacity
    → Fits store capacity (record s { capacity = capacity })
resize-Fits store capacity s small v h = ground arith

-- Deleting the first reservation of a slot leaves the others.
delete_head :
    (s : Slot) (id : ℕ) (ids : List ℕ) (taken : ℤ)
    → HashSet.Distinct s.reservation_ids
    → s.reservation_ids ≡ id ∷ ids
    → (Slot.delete_reservation s id taken).0.reservation_ids ≡ ids
unfolding Slot.delete_reservation HashSet.remove contains erase
delete_head s id ids taken d e = ground (arith, beq_refl id, erase_absent id ids)

prune-Fits :
    (store : Store) (capacity : ℤ) (ids : List ℕ) (s : Slot)
    → Nonneg (get_reserved_capacity store)
    → pos 0 <ℤ capacity
    → IsSmall capacity
    → IsValid (get_reserved_capacity store) s
    → s.reservation_ids ≡ ids
    → capacity ≤ℤ s.load
    → Fits store capacity (prune store capacity ids s)
unfolding prune total
prune-Fits store capacity [] s n p small v e h = absurd (ground arith)
prune-Fits store capacity (id ∷ ids) s n p small v e h =
    let taken = get_reserved_capacity store in
    let s' = (Slot.delete_reservation s id (taken id)).0 in
    let v' : IsValid taken s' = Accounting.delete_reservation-IsValid taken s id n v in
    let e' = delete_head s id ids (taken id) v.distinct e in
    elim (Bool-cases (ltb_ℤ s'.load capacity)) [
      | inl below ↦ rw below (resize-Fits store capacity s' small v' (ground arith))
      | inr not_below ↦
          rw not_below (prune-Fits store capacity ids s' n p small v' e' (ground arith))
    ]

-- A change of the capacity to a value above 0 and below 2^62 gives a valid slot the new capacity
-- and keeps it valid: enough reservations leave it, and its load is what the others take. No
-- reservation of the store has a negative capacity or one of 2^62 or more.
pub update_slot_capacity-IsValid :
    (store : Store) (capacity : ℤ) (s : Slot)
    → Nonneg (get_reserved_capacity store)
    → pos 0 <ℤ capacity
    → IsSmall capacity
    → IsValid (get_reserved_capacity store) s
    → IsValid (get_reserved_capacity store) (update_slot_capacity store capacity s)
      × ((update_slot_capacity store capacity s).capacity ≡ capacity)
unfolding update_slot_capacity
update_slot_capacity-IsValid store capacity s n p small v =
    elim (Bool-cases (ltb_ℤ s.load capacity)) [
      | inl below ↦ rw below (resize-Fits store capacity s small v (ground arith))
      | inr not_below ↦
          rw not_below
            (prune-Fits store capacity s.reservation_ids s n p small v refl (ground arith))
    ]

emptied :
    (s : Slot)
    → s.load ≡ pos 0
    → s.reservation_ids ≡ []
    → s ≡ record s { load = pos 0; reservation_ids = [] }
emptied s p q =
    ap (λ (l : ℤ). let t : Slot = record s { load = l } in t) p
    ∙ ap (λ (ids : List ℕ). let t : Slot = record s { load = pos 0; reservation_ids = ids } in t) q

delete_reservation-capacity :
    (s : Slot) (id : ℕ) (taken : ℤ) → (Slot.delete_reservation s id taken).0.capacity ≡ s.capacity
unfolding Slot.delete_reservation
delete_reservation-capacity s id taken = ground arith

prune-zero :
    (store : Store) (ids : List ℕ) (s : Slot)
    → Nonneg (get_reserved_capacity store)
    → IsValid (get_reserved_capacity store) s
    → s.reservation_ids ≡ ids
    → prune store (pos 0) ids s ≡ record s { load = pos 0; reservation_ids = [] }
unfolding prune total
prune-zero store [] s n v e = emptied s (v.accounted ∙ ap (total (get_reserved_capacity store)) e) e
prune-zero store (id ∷ ids) s n v e =
    let taken = get_reserved_capacity store in
    let s' = (Slot.delete_reservation s id (taken id)).0 in
    let v' : IsValid taken s' = Accounting.delete_reservation-IsValid taken s id n v in
    let e' = delete_head s id ids (taken id) v.distinct e in
    let stays : ltb_ℤ s'.load (pos 0) ≡ false = ground (arith, v'.load_nonneg) in
    rw stays (
      prune-zero store ids s' n v' e'
      ∙ ap
          (λ (c : ℤ).
            let t : Slot = record { load = pos 0; capacity = c; reservation_ids = [] } in t)
          (delete_reservation-capacity s id (taken id)))

-- A change of the capacity to 0 empties a valid slot, so that its load is 0, but the slot keeps
-- the capacity that it had, where no reservation of the store has a negative capacity or one of
-- 2^62 or more.
pub update_slot_capacity-zero :
    (store : Store) (s : Slot)
    → Nonneg (get_reserved_capacity store)
    → IsValid (get_reserved_capacity store) s
    → update_slot_capacity store (pos 0) s ≡ record s { load = pos 0; reservation_ids = [] }
unfolding update_slot_capacity
update_slot_capacity-zero store s n v =
    let stays : ltb_ℤ s.load (pos 0) ≡ false = ground (arith, v.load_nonneg) in
    rw stays (prune-zero store s.reservation_ids s n v refl)
