-- ===== src/Reservation/Fields.antt =====
-- The data of a reservation: its lifecycle state, the requested action and `ReservationBase` with
-- its own methods (src/vrm/reservation/reservation.rs).
use vrm_rust.Base.{String, Bool, Option, if◌then◌else◌}
use vrm_rust.Base.Floats.{F64}
use vrm_rust.Base.Int.{ℤ, pos, leb_ℤ, eqb_ℤ, div_trunc}

pub data ReservationState : Type 0 where
  rejected deleted open_state probe_answer probe_reservation reserve_probe_reservation :
      ReservationState
  reserve_answer committed finished external : ReservationState

pub data ReservationProceeding : Type 0 where
  probe reserve commit delete ignore : ReservationProceeding

pub data ReservationTyp : Type 0 where
  workflow_typ link_typ node_typ : ReservationTyp

pub record ReservationBase : Type 0 where
  pub name : String
  pub client_id : String
  pub handler_id : Option String
  pub state : ReservationState
  pub request_proceeding : ReservationProceeding
  pub arrival_time : ℤ
  pub booking_interval_start : ℤ
  pub booking_interval_end : ℤ
  pub assigned_start : ℤ
  pub assigned_end : ℤ
  pub task_duration : ℤ
  pub reserved_capacity : ℤ
  pub is_moldable : Bool
  pub moldable_work : ℤ
  pub frag_delta : F64

-- The methods of `ReservationBase` itself. Unlike those of the trait, `set_task_duration` and
-- `set_reserved_capacity` leave `moldable_work` alone.
unfoldable pub set_task_duration : ReservationBase → ℤ → ReservationBase
set_task_duration b duration = record b { task_duration = duration }

unfoldable pub set_reserved_capacity : ReservationBase → ℤ → ReservationBase
set_reserved_capacity b capacity = record b { reserved_capacity = capacity }

-- The first two steps of `adjust_capacity`.
divide_work : ReservationBase → ℤ → ReservationBase
unfolding set_task_duration set_reserved_capacity
divide_work b capacity =
    if eqb_ℤ capacity (pos 0)
    then set_reserved_capacity (set_task_duration b b.moldable_work) (pos 1)
    else set_reserved_capacity (set_task_duration b (div_trunc b.moldable_work capacity)) capacity

-- A duration of 0 or less becomes 1.
at_least_one : ReservationBase → ReservationBase
unfolding set_task_duration
at_least_one b = if leb_ℤ b.task_duration (pos 0) then set_task_duration b (pos 1) else b

unfoldable pub adjust_capacity : ReservationBase → ℤ → ReservationBase
unfolding divide_work at_least_one
adjust_capacity b capacity =
    if eqb_ℤ capacity b.reserved_capacity then b else at_least_one (divide_work b capacity)

-- The part of `adjust_task_duration` after its guards, at a duration of 1 or more.
spread_work : ReservationBase → ℤ → ReservationBase
unfolding set_task_duration set_reserved_capacity
spread_work b duration =
    let b' = record b { reserved_capacity = div_trunc b.moldable_work duration } in
    let b'' = if leb_ℤ b'.reserved_capacity (pos 0) then set_reserved_capacity b' (pos 1) else b' in
    set_task_duration b'' duration

unfoldable pub adjust_task_duration : ReservationBase → ℤ → ReservationBase
unfolding spread_work
adjust_task_duration b duration =
    if eqb_ℤ duration b.task_duration
    then b
    else spread_work b (if leb_ℤ duration (pos 0) then pos 1 else duration)
