-- ===== src/Examples/Schedules.antt =====
-- Slots, the load buffer and the scheduling window at concrete inputs.
use vrm_rust.Base.{ℕ, ◌≡◌, refl, some, [], ◌∷◌, ◌++◌, nat_eq, arith, if◌then◌else◌, keep, replicate}
use vrm_rust.Base.HashSet
use vrm_rust.Base.Int.{ℤ, pos, ◌≤ℤ◌, ◌+ℤ◌, eqb_ℤ}
use vrm_rust.Schedule.Slot.{insert_reservation, delete_reservation}
use vrm_rust.Schedule.Slot.Accounting.{
  IsValid, Nonneg, total, insert_reservation-IsValid, delete_reservation-IsValid,
}
use vrm_rust.Schedule.LoadBuffer.{LoadBuffer, add_zeros_intern, slots_to_drop_on_end}
use vrm_rust.Schedule.LoadBuffer.Tail.{add_zeros_intern-Tracks}
use vrm_rust.Schedule.Context.{
  get_slot, put_slot, get_slot_index, get_slot_start_time, get_slot_end_time,
}
use vrm_rust.Schedule.Context.Ring.{IsWindow, get_slot-put_slot}
use vrm_rust.Schedule.Update.Window.{time_in_slot}
use vrm_rust.Schedule.Delete.{update_slot_capacity}
use vrm_rust.Schedule.Delete.Capacity.{update_slot_capacity-IsValid, update_slot_capacity-zero}
use vrm_rust.Store.Read
use vrm_rust.Base.Dict
use vrm_rust.Reservation.Kinds.{get_base}
use vrm_rust.Store.Read.{get_reserved_capacity}
use vrm_rust.Examples.Data.{store, schedule, busy}

-- Every reservation takes 4.
abbrev four : ℕ → ℤ
four id = pos 4

four-Nonneg : Nonneg four
four-Nonneg id = ground arith

busy-IsValid : IsValid four busy
unfolding total HashSet.contains ◌+ℤ◌
busy-IsValid = ground arith

insert_reservation-IsValid_example : IsValid four (insert_reservation busy (pos 4) 7).0
insert_reservation-IsValid_example = insert_reservation-IsValid four busy 7 four-Nonneg busy-IsValid

delete_reservation-IsValid_example : IsValid four (delete_reservation busy 0 (pos 4)).0
delete_reservation-IsValid_example = delete_reservation-IsValid four busy 0 four-Nonneg busy-IsValid

store-Nonneg : Nonneg (get_reserved_capacity store)
unfolding get_reserved_capacity Read.get Dict.get get_base
store-Nonneg id = ground arith

stored-IsValid : IsValid (get_reserved_capacity store) busy
unfolding total HashSet.contains get_reserved_capacity Read.get Dict.get get_base ◌+ℤ◌
stored-IsValid = ground arith

update_slot_capacity-IsValid_example :
    IsValid (get_reserved_capacity store) (update_slot_capacity store (pos 2) busy)
    × ((update_slot_capacity store (pos 2) busy).capacity ≡ pos 2)
update_slot_capacity-IsValid_example =
    update_slot_capacity-IsValid store (pos 2) busy store-Nonneg (ground arith) (ground arith)
      stored-IsValid

update_slot_capacity-zero_example :
    update_slot_capacity store (pos 0) busy ≡ record busy { load = pos 0; reservation_ids = [] }
update_slot_capacity-zero_example = update_slot_capacity-zero store busy store-Nonneg stored-IsValid

abbrev quiet : LoadBuffer
quiet = record (schedule.load_buffer) { tail_buffer = pos 3 ∷ [] }

add_zeros_intern-Tracks_example :
    add_zeros_intern quiet (pos 2)
    ≡ record quiet { tail_buffer = keep slots_to_drop_on_end ((pos 3 ∷ []) ++ replicate 2 (pos 0)) }
add_zeros_intern-Tracks_example = add_zeros_intern-Tracks quiet (pos 3 ∷ []) 2 refl

schedule-IsWindow : IsWindow schedule
schedule-IsWindow = ground arith

get_slot-put_slot_example :
    get_slot (put_slot schedule (pos 2) busy) (pos 1)
    ≡ (if eqb_ℤ (pos 2) (pos 1) then some busy else get_slot schedule (pos 1))
get_slot-put_slot_example =
    get_slot-put_slot schedule (pos 2) (pos 1) busy schedule-IsWindow (ground arith)

time_in_slot_example :
    let i = get_slot_index schedule (pos 37) in
    (get_slot_start_time schedule i ≤ℤ pos 37) × (pos 37 ≤ℤ get_slot_end_time schedule i)
time_in_slot_example = time_in_slot schedule 37 9 refl (ground arith) (ground arith)
