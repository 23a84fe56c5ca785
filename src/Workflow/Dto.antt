-- ===== src/Workflow/Dto.antt =====
-- The description of a workflow that the program reads (src/schema/workflow_dto.rs and
-- src/schema/reservation_dto.rs), and how its states become those of a reservation.
use vrm_rust.Base.{String, Bool, Option, List}
use vrm_rust.Base.Int.{ℤ}
use vrm_rust.Reservation.Fields.{ReservationState, ReservationProceeding}

pub data ReservationStateDto : Type 0 where
  rejected deleted open_state probe_answer reserve_answer committed finished : ReservationStateDto

pub data ReservationProceedingDto : Type 0 where
  probe reserve commit delete : ReservationProceedingDto

pub record DataOutDto : Type 0 where
  pub name : String
  pub file : Option String
  pub size : Option ℤ
  pub bandwidth : Option ℤ

pub record DataInDto : Type 0 where
  pub source_reservation : String
  pub source_port : String
  pub file : Option String

pub record DependencyDto : Type 0 where
  pub to_data : List String
  pub to_sync : List String

pub record NodeReservationDto : Type 0 where
  pub current_working_directory : Option String
  pub environment : Option (List String)
  pub task_path : String
  pub output_path : Option String
  pub error_path : Option String
  pub duration : ℤ
  pub cpus : ℤ
  pub is_moldable : Bool
  pub dependencies : DependencyDto
  pub data_out : List DataOutDto
  pub data_in : List DataInDto

-- The links that a task names are read but not used.
pub record TaskDto : Type 0 where
  pub id : String
  pub reservation_state : ReservationStateDto
  pub request_proceeding : ReservationProceedingDto
  pub node_reservation : NodeReservationDto

pub record WorkflowDto : Type 0 where
  pub id : String
  pub arrival_time : ℤ
  pub booking_interval_start : ℤ
  pub booking_interval_end : ℤ
  pub reservation_state : ReservationStateDto
  pub request_proceeding : ReservationProceedingDto
  pub tasks : List TaskDto

unfoldable pub map_reservation_state : ReservationStateDto → ReservationState
map_reservation_state ReservationStateDto.rejected = ReservationState.rejected
map_reservation_state ReservationStateDto.deleted = ReservationState.deleted
map_reservation_state ReservationStateDto.open_state = ReservationState.open_state
map_reservation_state ReservationStateDto.probe_answer = ReservationState.probe_answer
map_reservation_state ReservationStateDto.reserve_answer = ReservationState.reserve_answer
map_reservation_state ReservationStateDto.committed = ReservationState.committed
map_reservation_state ReservationStateDto.finished = ReservationState.finished

unfoldable pub map_reservation_proceeding : ReservationProceedingDto → ReservationProceeding
map_reservation_proceeding ReservationProceedingDto.probe = ReservationProceeding.probe
map_reservation_proceeding ReservationProceedingDto.reserve = ReservationProceeding.reserve
map_reservation_proceeding ReservationProceedingDto.commit = ReservationProceeding.commit
map_reservation_proceeding ReservationProceedingDto.delete = ReservationProceeding.delete
