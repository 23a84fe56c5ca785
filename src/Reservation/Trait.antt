-- ===== src/Reservation/Trait.antt =====
-- The methods that `ReservationTrait` gives every kind of reservation. They go through the base
-- alone (src/vrm/reservation/reservation.rs).
use vrm_rust.Base.{Bool, if◌then◌else◌}
use vrm_rust.Base.Floats.{F64}
use vrm_rust.Base.Int.{ℤ, pos, leb_ℤ, eqb_ℤ, div_trunc}
use vrm_rust.Base.I64.{◌*i◌}
use vrm_rust.Reservation.Fields.{ReservationBase, ReservationState}

unfoldable pub set_assigned_start : ReservationBase → ℤ → ReservationBase
set_assigned_start b time = record b { assigned_start = time }

unfoldable pub set_assigned_end : ReservationBase → ℤ → ReservationBase
set_assigned_end b time = record b { assigned_end = time }

unfoldable pub set_state : ReservationBase → ReservationState → ReservationBase
set_state b state = record b { state = state }

unfoldable pub set_task_duration : ReservationBase → ℤ → ReservationBase
set_task_duration b duration = record b {
  task_duration = duration;
  moldable_work = b.reserved_capacity *i duration;
}

unfoldable pub set_reserved_capacity : ReservationBase → ℤ → ReservationBase
set_reserved_capacity b reserved_capacity = record b {
  reserved_capacity = reserved_capacity;
  moldable_work = reserved_capacity *i b.task_duration;
}

unfoldable pub set_booking_interval_start : ReservationBase → ℤ → ReservationBase
set_booking_interval_start b time = record b { booking_interval_start = time }

unfoldable pub set_booking_interval_end : ReservationBase → ℤ → ReservationBase
set_booking_interval_end b time = record b { booking_interval_end = time }

unfoldable pub set_frag_delta : ReservationBase → F64 → ReservationBase
set_frag_delta b delta = record b { frag_delta = delta }

unfoldable pub set_is_moldable : ReservationBase → Bool → ReservationBase
set_is_moldable b moldable = record b { is_moldable = moldable }

divide_work : ReservationBase → ℤ → ReservationBase
unfolding set_task_duration set_reserved_capacity
divide_work b capacity =
    if eqb_ℤ capacity (pos 0)
    then set_reserved_capacity (set_task_duration b b.moldable_work) (pos 1)
    else set_reserved_capacity (set_task_duration b (div_trunc b.moldable_work capacity)) capacity

at_least_one : ReservationBase → ReservationBase
unfolding set_task_duration
at_least_one b = if leb_ℤ b.task_duration (pos 0) then set_task_duration b (pos 1) else b

unfoldable pub adjust_capacity : ReservationBase → ℤ → ReservationBase
unfolding divide_work at_least_one
adjust_capacity b capacity =
    if eqb_ℤ capacity b.reserved_capacity then b else at_least_one (divide_work b capacity)
