-- ===== src/Schedule/Slot.antt =====
-- A time slot of the schedule (src/vrm/schedule/slotted_schedule/slot.rs).
pub mod Accounting
use vrm_rust.Base.{ℕ, ◌≡◌, Bool, true, false, List, [], if◌then◌else◌, nat_eq}
use vrm_rust.Base.Int.{ℤ, pos, ltb_ℤ, leb_ℤ}
use vrm_rust.Base.I64.{◌+i◌, ◌-i◌}
use vrm_rust.Base.HashSet

pub record Slot : Type 0 where
  pub load : ℤ
  pub capacity : ℤ
  pub reservation_ids : List ℕ

unfoldable pub new : ℤ → Slot
new capacity = record { load = pos 0; capacity = capacity; reservation_ids = [] }

unfoldable pub get_adjust_requirement : Slot → ℤ → ℤ
get_adjust_requirement s requirements =
    let capacity_left = s.capacity -i s.load in
    if leb_ℤ requirements capacity_left then requirements else capacity_left

unfoldable pub reset : Slot → Slot
reset s = record s { load = pos 0; reservation_ids = [] }

-- The slot after the call, and whether the reservation was inserted.
unfoldable pub insert_reservation : Slot → ℤ → ℕ → Slot × Bool
insert_reservation s requirement id =
    if ltb_ℤ s.capacity (s.load +i requirement)
    then (s, false)
    else let (ids, fresh) = HashSet.insert id s.reservation_ids in
      if fresh
      then (record s { load = s.load +i requirement; reservation_ids = ids }, true)
      else (record s { reservation_ids = ids }, false)

-- The slot after the call, and whether the reservation was there.
unfoldable pub delete_reservation : Slot → ℕ → ℤ → Slot × Bool
delete_reservation s id reserved_capacity =
    let (ids, found) = HashSet.remove id s.reservation_ids in
    if found
    then (record s { load = s.load -i reserved_capacity; reservation_ids = ids }, true)
    else (record s { reservation_ids = ids }, false)
