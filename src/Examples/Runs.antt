-- ===== src/Examples/Runs.antt =====
-- Whole operations of a node's schedule at concrete inputs.
use vrm_rust.Base.{
  All, inl, false, zero, suc, ◌≡◌, refl, Bool, Option, some, none, [], ◌∷◌, nat_eq, arith,
  unwrap_or, length,
}
use vrm_rust.Base.Floats.{F64, Floats}
use vrm_rust.Base.Dict
use vrm_rust.Base.HashSet
use vrm_rust.Base.Decimal.{show_usize}
use vrm_rust.Base.I64.{wrap_i64, ◌+i◌, ◌-i◌, ◌*i◌}
use vrm_rust.Base.Int.{
  ℤ, pos, negsuc, ◌≤ℤ◌, ◌<ℤ◌, ◌+ℤ◌, ◌-ℤ◌, ◌*ℤ◌, div_euclid, div_trunc, rem_trunc, range,
  range_inclusive, count_from,
}
use vrm_rust.Schedule.Slot
use vrm_rust.Store.Read
use vrm_rust.Reservation.Trait
use vrm_rust.Store.Update
use vrm_rust.Store.Update.{update_state}
use vrm_rust.Reservation.ProbeReservations
use vrm_rust.Reservation.Kinds.{Reservation, get_base, map_base}
use vrm_rust.Schedule.Fit.{
  calculate_schedule, try_fit_reservation, first_start, fit_loop, fit_slot, shrink,
}
use vrm_rust.Schedule.Context.{
  Context, get_slot_index, get_slot, get_slot_start_time, get_slot_end_time, get_real_slot_index,
  get_effective_slot_index, put_slot, is_time_in_scheduling_window,
}
use vrm_rust.Schedule.Context.Ring.{IsWindow, InWindow}
use vrm_rust.Schedule.Fit.Results.{AllPlaced, calculate_schedule-AllPlaced}
use vrm_rust.Reservation.ProbeReservations.{ProbeReservations}
use vrm_rust.Schedule.NodeStrategy.{
  NodeStrategy, node_strategy, adjust_requirement_to_slot_capacity, adjust_in_slot,
  insert_reservation_into_slot, insert_in_slot, get_capacity,
}
use vrm_rust.Schedule.Update.{update}
use vrm_rust.Schedule.Update.Window.{update-IsWindow}
use vrm_rust.Schedule.Slot.Accounting.{total}
use vrm_rust.Schedule.Sound.{IsSound}
use vrm_rust.Schedule.Sound.Kept.{IsKept}
use vrm_rust.Schedule.Sound.Granting.{node_strategy-IsGranting}
use vrm_rust.Schedule.Sound.Moves.{reserve-IsKept}
use vrm_rust.Schedule.Sound.Room.{HasRoom, try_fit_reservation-HasRoom}
use vrm_rust.Schedule.Sound.Booked.{reserve_without_check-IsHeld}
use vrm_rust.Schedule.Sound.Insertion.{At, IsHeld, Ready}
use vrm_rust.Schedule.Sound.Removal.{delete_reservation-IsKept}
use vrm_rust.Schedule.Fit.Search.{IsTimed, IsGranting}
use vrm_rust.Schedule.Fit.Candidates.{
  IsAttempt, IsFeasible, try_fit_reservation-total, try_fit_reservation-IsFeasible,
}
use vrm_rust.Schedule.Operations
use vrm_rust.Schedule.Delete
use vrm_rust.Schedule.Delete.{is_reservation_valid_for_deletion}
use vrm_rust.Reservation.ActiveReservations
use vrm_rust.Schedule.Operations.{
  reserve, reserve_best, reserve_promoted, booked, reserve_without_check, fill_slots, activate,
  early_stop,
}
use vrm_rust.Examples.Data.{busy, schedule, store, job, base_of, node_of}
use vrm_rust.Reservation.Fields.{open_state}

abbrev pub floats : Floats
floats = record {
  of_i64 = λ z. 0;
  div = λ a b. 0;
  add = λ a b. 0;
  sub = λ a b. 0;
  lt = λ a b. Bool.false;
}

abbrev pub no_fragmentation : Context NodeStrategy → Bool → ℤ → ℤ → F64
no_fragmentation c quadratic first last = 0

abbrev updated : Context NodeStrategy
updated = unwrap_or (update schedule) schedule

update_succeeds : update schedule ≡ some updated
unfolding update range ◌-ℤ◌ ◌+i◌ wrap_i64 ◌+ℤ◌ get_slot_index div_euclid get_slot rem_trunc
update_succeeds = refl

-- The schedule with a second request, which waits to be reserved.
abbrev pub next : Reservation
next = node_of (base_of "next" open_state)

abbrev pub waiting : Context NodeStrategy
waiting = record schedule {
  reservation_store = record store {
    slots = (0, job) ∷ (1, next) ∷ [];
    name_index = ("job", 0) ∷ ("next", 1) ∷ [];
  };
}

abbrev pub reserved : Context NodeStrategy
reserved = (unwrap_or (reserve (node_strategy floats no_fragmentation) waiting 1) (waiting, none)).0

pub reserve_succeeds :
    reserve (node_strategy floats no_fragmentation) waiting 1 ≡ some (reserved, some 1)
unfolding reserve reserve_best reserve_promoted update range range_inclusive count_from ◌-ℤ◌ ◌+i◌
    ◌-i◌ ◌*i◌ ◌*ℤ◌ wrap_i64 ◌+ℤ◌ get_slot_index div_euclid div_trunc get_slot get_slot_start_time
    get_slot_end_time get_real_slot_index get_effective_slot_index put_slot rem_trunc
    calculate_schedule Read.get_reserved_capacity Read.get_task_duration
    Read.get_booking_interval_start Read.get_booking_interval_end Read.get_assigned_start
    Read.get_assigned_end Read.is_moldable Read.get Read.read Dict.get Dict.insert Dict.remove
    Dict.modify HashSet.insert HashSet.remove HashSet.contains HashSet.erase node_strategy
    adjust_requirement_to_slot_capacity adjust_in_slot insert_reservation_into_slot insert_in_slot
    get_capacity Slot.insert_reservation Slot.delete_reservation Slot.get_adjust_requirement
    ProbeReservations.new ProbeReservations.add_reservation ProbeReservations.only_promote_best
    ProbeReservations.get_best_probe_reservation_id ProbeReservations.better
    ProbeReservations.best_from ProbeReservations.is_greater reserve_without_check fill_slots
    activate update_state get_base map_base show_usize try_fit_reservation fit_loop fit_slot shrink
    is_time_in_scheduling_window early_stop Slot.reset Update.set_assigned_end
    Update.set_assigned_start Update.set_booking_interval_end Update.set_booking_interval_start
    Trait.set_state Trait.set_assigned_end Trait.set_assigned_start Trait.set_booking_interval_end
    Trait.set_booking_interval_start
reserve_succeeds = refl

pub waiting-IsKept : IsKept waiting
unfolding IsSound Read.get_reserved_capacity Read.get Dict.get get_base total HashSet.contains ◌+ℤ◌
waiting-IsKept = record { nonneg = λ id. ground arith; sound = ground arith }

reserve-IsKept_example : IsKept reserved
reserve-IsKept_example =
    reserve-IsKept floats no_fragmentation waiting reserved 1 (some 1) waiting-IsKept
      reserve_succeeds

abbrev removed : Context NodeStrategy
removed = unwrap_or (Operations.delete_reservation waiting 0) waiting

removal_succeeds : Operations.delete_reservation waiting 0 ≡ some removed
unfolding Operations.delete_reservation update range range_inclusive count_from ◌-ℤ◌ ◌+i◌ ◌-i◌
    wrap_i64 ◌+ℤ◌ get_slot_index div_euclid get_slot get_real_slot_index put_slot rem_trunc Read.get
    Dict.get get_base is_reservation_valid_for_deletion ActiveReservations.contains_key
    HashSet.contains Delete.delete_reservation Read.get_assigned_end Read.get_assigned_start
removal_succeeds = refl

delete_reservation-IsKept_example : IsKept removed
delete_reservation-IsKept_example =
    delete_reservation-IsKept waiting removed 0 waiting-IsKept removal_succeeds

update-IsWindow_example :
    IsWindow updated
    × (updated.start_slot_index ≡ get_slot_index schedule schedule.system_time)
    × (length updated.slots ≡ 4)
update-IsWindow_example =
    update-IsWindow schedule updated (ground arith) (ground arith) (ground arith) (ground arith)
      update_succeeds

waiting-IsTimed : IsTimed waiting
waiting-IsTimed = ground arith

stored : Read.get waiting.reservation_store 1 ≡ some next
unfolding Read.get Dict.get
stored = refl

promise : IsGranting (node_strategy floats no_fragmentation) waiting 1
promise = node_strategy-IsGranting floats no_fragmentation waiting 1 waiting-IsKept.sound

attempt : IsAttempt waiting (pos 1) next
unfolding get_base first_start get_slot_index div_euclid get_slot_start_time ◌-ℤ◌ ◌+ℤ◌ ◌+i◌ ◌-i◌
    ◌*ℤ◌ ◌*i◌ wrap_i64
attempt = ground arith

try_fit_reservation-total_example :
    (o : Option Reservation) × (try_fit_reservation
        (node_strategy floats no_fragmentation)
        waiting
        1
        (pos 1)
        (pos 100)
      ≡ some o)
try_fit_reservation-total_example =
    try_fit_reservation-total (node_strategy floats no_fragmentation) waiting 1 waiting-IsTimed
      promise (pos 1) (pos 100) next stored attempt

-- The request as it fits from slot 1 on: behind the job in that slot.
abbrev fitted : Reservation
fitted =
    unwrap_or
      (unwrap_or
        (try_fit_reservation (node_strategy floats no_fragmentation) waiting 1 (pos 1) (pos 100))
        none)
      next

fits :
    try_fit_reservation (node_strategy floats no_fragmentation) waiting 1 (pos 1) (pos 100)
    ≡ some (some fitted)
unfolding try_fit_reservation fit_loop fit_slot shrink first_start get_slot_index div_euclid
    get_slot_start_time ◌-ℤ◌ ◌+ℤ◌ ◌+i◌ ◌-i◌ ◌*ℤ◌ ◌*i◌ wrap_i64 node_strategy
    adjust_requirement_to_slot_capacity adjust_in_slot Slot.get_adjust_requirement get_slot
    rem_trunc Read.get Dict.get get_base map_base
fits = refl

try_fit_reservation-IsFeasible_example :
    IsFeasible
      (node_strategy floats no_fragmentation)
      waiting
      1
      waiting-IsTimed
      promise
      (pos 1)
      next
      (get_base fitted)
try_fit_reservation-IsFeasible_example =
    try_fit_reservation-IsFeasible (node_strategy floats no_fragmentation) waiting 1 waiting-IsTimed
      promise (pos 1) (pos 100) next fitted stored attempt fits

fitted-positive : pos 0 <ℤ (get_base fitted).reserved_capacity
unfolding try_fit_reservation fit_loop fit_slot shrink first_start get_slot_index div_euclid
    get_slot_start_time ◌-ℤ◌ ◌+ℤ◌ ◌+i◌ ◌-i◌ ◌*ℤ◌ ◌*i◌ wrap_i64 node_strategy
    adjust_requirement_to_slot_capacity adjust_in_slot Slot.get_adjust_requirement get_slot
    rem_trunc Read.get Dict.get get_base map_base
fitted-positive = ground arith

fitted-last : pos 1 ≤ℤ get_slot_index waiting ((get_base fitted).assigned_end -i pos 1)
unfolding try_fit_reservation fit_loop fit_slot shrink first_start get_slot_index div_euclid
    get_slot_start_time ◌-ℤ◌ ◌+ℤ◌ ◌+i◌ ◌-i◌ ◌*ℤ◌ ◌*i◌ wrap_i64 node_strategy
    adjust_requirement_to_slot_capacity adjust_in_slot Slot.get_adjust_requirement get_slot
    rem_trunc Read.get Dict.get get_base map_base
fitted-last = ground arith

try_fit_reservation-HasRoom_example : HasRoom waiting (pos 1) (get_base fitted).reserved_capacity
try_fit_reservation-HasRoom_example =
    try_fit_reservation-HasRoom floats no_fragmentation waiting 1 (pos 1) (pos 100) next fitted
      (pos 1) waiting-IsTimed waiting-IsKept.sound stored attempt fits fitted-positive
      (ground arith) fitted-last

-- The first attempt ends in range at every slot of the window.
attempts : (i : ℤ) → InWindow waiting i → IsAttempt waiting i next
unfolding get_base first_start get_slot_index div_euclid get_slot_start_time ◌-ℤ◌ ◌+ℤ◌ ◌+i◌ ◌-i◌
    ◌*ℤ◌ ◌*i◌ wrap_i64
attempts (pos zero) h = ground arith
attempts (pos (suc zero)) h = ground arith
attempts (pos (suc (suc zero))) h = ground arith
attempts (pos (suc (suc (suc zero)))) h = ground arith
attempts (pos (suc (suc (suc (suc n))))) h = absurd (omega arith)
attempts (negsuc n) h = absurd (omega arith)

calculate_schedule-AllPlaced_example :
    (q : ProbeReservations) × (calculate_schedule (node_strategy floats no_fragmentation) waiting 1
      ≡ some q)
    × AllPlaced (node_strategy floats no_fragmentation) waiting 1 waiting-IsTimed promise next q
calculate_schedule-AllPlaced_example =
    calculate_schedule-AllPlaced (node_strategy floats no_fragmentation) waiting 1 waiting-IsTimed
      promise next stored (ground arith) attempts

waiting-IsWindow : IsWindow waiting
waiting-IsWindow = ground arith

-- The second request is assigned the seconds 10 to 20, those of the slot in which the job is.
next-Ready :
    All
      (Ready 1 waiting)
      (booked waiting (get_base next).assigned_start (get_base next).assigned_end)
unfolding range_inclusive count_from get_slot_index div_euclid ◌-i◌ ◌-ℤ◌ ◌+ℤ◌ wrap_i64 get_base
    get_slot rem_trunc Read.get_reserved_capacity Read.get Dict.get
next-Ready = ((ground arith, (busy, refl, inl (ground arith))), tt)

not_active : ActiveReservations.contains_key waiting.active_reservations 1 ≡ false
unfolding ActiveReservations.contains_key HashSet.contains
not_active = refl

reserve_without_check-IsHeld_example :
    (c : Context NodeStrategy) × (reserve_without_check
        (node_strategy floats no_fragmentation)
        waiting
        1
      ≡ some c)
    × All
        (At c (IsHeld 1))
        (booked waiting (get_base next).assigned_start (get_base next).assigned_end)
reserve_without_check-IsHeld_example =
    reserve_without_check-IsHeld 1 floats no_fragmentation waiting next waiting-IsWindow
      waiting-IsKept stored not_active next-Ready
