-- ===== src/Reservation/Kinds.antt =====
-- The three kinds of reservations (reservation.rs, node_reservation.rs and link_reservation.rs in
-- src/vrm/reservation).
use vrm_rust.Base.{ℕ, String, Bool, Option, none, some, List, if◌then◌else◌}
use vrm_rust.Base.Floats.{F64}
use vrm_rust.Base.Int.{ℤ, pos}
use vrm_rust.Base.I64.{◌*i◌}
use vrm_rust.Reservation.Fields.{
  ReservationBase, ReservationState, ReservationProceeding, ReservationTyp, workflow_typ, link_typ,
  node_typ, probe_answer,
}
use vrm_rust.Reservation.Lifecycle.{state_eq}
use vrm_rust.Workflow.Types.{Workflow}

pub record NodeReservation : Type 0 where
  pub base : ReservationBase
  pub data_dependencies : List ℕ
  pub current_working_directory : Option String
  pub environment : Option (List String)
  pub task_path : String
  pub output_path : Option String
  pub error_path : Option String

pub record LinkReservation : Type 0 where
  pub base : ReservationBase
  pub start_point : Option String
  pub end_point : Option String

pub data Reservation : Type 0 where
  workflow : Workflow → Reservation
  node : NodeReservation → Reservation
  link : LinkReservation → Reservation

unfoldable pub get_base : Reservation → ReservationBase
get_base (workflow w) = w.base
get_base (node n) = n.base
get_base (link l) = l.base

-- A method on `get_base_mut`.
unfoldable pub map_base : (ReservationBase → ReservationBase) → Reservation → Reservation
map_base f (workflow w) = workflow (record w { base = f w.base })
map_base f (node n) = node (record n { base = f n.base })
map_base f (link l) = link (record l { base = f l.base })

unfoldable pub get_type : Reservation → ReservationTyp
get_type (workflow w) = workflow_typ
get_type (node n) = node_typ
get_type (link l) = link_typ

unfoldable pub as_workflow : Reservation → Option Workflow
as_workflow (workflow w) = some w
as_workflow (node n) = none
as_workflow (link l) = none

unfoldable pub as_node : Reservation → Option NodeReservation
as_node (node n) = some n
as_node (workflow w) = none
as_node (link l) = none

unfoldable pub as_link : Reservation → Option LinkReservation
as_link (link l) = some l
as_link (workflow w) = none
as_link (node n) = none

-- Only a probe answer can be renamed.
unfoldable pub set_name : Reservation → String → Reservation
unfolding get_base map_base
set_name r new_name =
    if state_eq (get_base r).state probe_answer
    then map_base (λ b. record b { name = new_name }) r
    else r

-- The base that `NodeReservation::new` makes of its arguments.
unfoldable pub new_base :
    (name client_id : String) (handler_id : Option String) (state : ReservationState)
    (request_proceeding : ReservationProceeding)
    (arrival_time booking_interval_start booking_interval_end task_duration reserved_capacity : ℤ)
    (is_moldable : Bool) (frag_delta : F64)
    → ReservationBase
new_base name client_id handler_id state proceeding arrival start end_time duration capacity
      moldable delta =
    record {
      name = name;
      client_id = client_id;
      handler_id = handler_id;
      state = state;
      request_proceeding = proceeding;
      arrival_time = arrival;
      booking_interval_start = start;
      booking_interval_end = end_time;
      assigned_start = pos 0;
      assigned_end = pos 0;
      task_duration = duration;
      reserved_capacity = capacity;
      is_moldable = moldable;
      moldable_work = capacity *i duration;
      frag_delta = delta;
    }
