-- ===== src/Schedule/Delete.antt =====
-- How reservations leave a schedule (`delete_reservation`, `update_capacity` and their helpers in
-- src/vrm/schedule/slotted_schedule/slotted_schedule_context.rs).
pub mod Capacity
use vrm_rust.Base.{
  ℕ, Bool, true, false, Option, none, some, List, [], ◌∷◌, if◌then◌else◌, ◌>>=◌, map, not, is_some,
}
use vrm_rust.Base.Int.{ℤ, pos, ltb_ℤ, leb_ℤ, range_inclusive}
use vrm_rust.Base.I64.{◌-i◌}
use vrm_rust.Schedule.Slot
use vrm_rust.Schedule.Slot.{Slot}
use vrm_rust.Schedule.Context.{
  Context, get_slot, put_slot, get_slot_index, get_effective_slot_index,
}
use vrm_rust.Reservation.ActiveReservations
use vrm_rust.Reservation.Fields.{rejected}
use vrm_rust.Store.{Store}
use vrm_rust.Store.Read.{get_assigned_start, get_assigned_end, get_reserved_capacity}
use vrm_rust.Store.Update.{update_state}

module _ {St : Type 0} where
  -- Rejects a reservation that the schedule does not hold.
  unfoldable pub is_reservation_valid_for_deletion : Context St → ℕ → Context St × Bool
  is_reservation_valid_for_deletion c id =
      if ActiveReservations.contains_key c.active_reservations id
      then (c, true)
      else (record c { reservation_store = update_state c.reservation_store id rejected }, false)

  unfoldable pub delete_in : Context St → ℕ → ℤ → ℤ → Option Slot → Context St × Bool
  delete_in c id capacity index none = (c, false)
  delete_in c id capacity index (some slot) =
      let (slot', found) = Slot.delete_reservation slot id capacity in
      (put_slot c index slot', found)

  unfoldable pub delete_reservation_in_slot : Context St → ℕ → ℤ → ℤ → Context St × Bool
  unfolding delete_in
  delete_reservation_in_slot c id capacity index = delete_in c id capacity index (get_slot c index)

  -- The loop over the slots of the reservation. A missing slot ends it, and the flag is `false`.
  unfoldable pub delete_from_slots : Context St → ℕ → ℤ → List ℤ → Context St × Bool
  unfolding delete_in
  delete_from_slots c id capacity [] = (c, true)
  delete_from_slots c id capacity (index ∷ rest) =
      let slot = get_slot c index in
      let done = delete_from_slots (delete_in c id capacity index slot).0 id capacity rest in
      if is_some slot then done else (c, false)

  -- The slots of the window that the reservation occupies, by its assigned times.
  unfoldable pub occupied : Context St → ℤ → ℤ → List ℤ
  occupied c start end_time =
      let first = get_slot_index c start in
      range_inclusive (if ltb_ℤ first c.start_slot_index then c.start_slot_index else first)
        (get_effective_slot_index c (get_slot_index c (end_time -i pos 1)))

  -- The steps of `delete_reservation` behind its test of the time.
  unfoldable pub withdraw : Context St → ℕ → ℤ → ℤ → Context St
  unfolding delete_from_slots occupied
  withdraw c id start end_time =
      let capacity = get_reserved_capacity c.reservation_store id in
      let (store, active, found) =
        ActiveReservations.delete_reservation c.reservation_store c.active_reservations id in
      let c1 = record c { reservation_store = store; active_reservations = active } in
      let (c2, complete) = delete_from_slots c1 id capacity (occupied c1 start end_time) in
      let c3 = record c2 { is_frag_cache_up_to_date = false } in
      if found then (if complete then c3 else c2) else c

  -- `none` is the panic at a reservation that the store does not know.
  unfoldable pub delete_reservation : Context St → ℕ → Option (Context St)
  unfolding withdraw
  delete_reservation c id = do
    end_time ← get_assigned_end c.reservation_store id
    start ← get_assigned_start c.reservation_store id
    some (if leb_ℤ end_time c.system_time then c else withdraw c id start end_time)

-- Takes reservations out of a slot until its load is below the new capacity, which it then gets.
unfoldable pub prune : Store → ℤ → List ℕ → Slot → Slot
prune store new_capacity [] slot = slot
prune store new_capacity (id ∷ ids) slot =
    let slot' = (Slot.delete_reservation slot id (get_reserved_capacity store id)).0 in
    let rest = prune store new_capacity ids slot' in
    if ltb_ℤ slot'.load new_capacity then record slot' { capacity = new_capacity } else rest

unfoldable pub update_slot_capacity : Store → ℤ → Slot → Slot
unfolding prune
update_slot_capacity store new_capacity slot =
    if ltb_ℤ slot.load new_capacity
    then record slot { capacity = new_capacity }
    else prune store new_capacity slot.reservation_ids slot

module _ {St : Type 0} where
  unfoldable pub update_capacity : Context St → ℕ → Context St
  unfolding update_slot_capacity
  update_capacity c capacity = record c {
    slots = map (update_slot_capacity c.reservation_store (pos capacity)) c.slots;
  }
