-- ===== src/Workflow/Build.antt =====
-- Phases 0 to 2 of the construction of a workflow (src/vrm/workflow/workflow.rs): the base, the
-- nodes, and the dependencies, each with its reservation in the store.
pub mod Dependencies
use Prim.Native.String.{◌++◌ as str_append}
use vrm_rust.Base.{
  ℕ, String, Bool, true, false, Option, none, some, List, [], ◌∷◌, if◌then◌else◌, ◌>>=◌, string_eq,
  nat_eq, ◌==◌,
}
use vrm_rust.Base.Floats.{F64}
use vrm_rust.Base.Int.{ℤ, pos}
use vrm_rust.Base.I64.{◌*i◌}
use vrm_rust.Base.Dict
use vrm_rust.Base.Dict.{Dict}
use vrm_rust.Reservation.Fields.{
  ReservationBase, ReservationState, ReservationProceeding, open_state,
}
use vrm_rust.Reservation.Kinds.{Reservation, node, link}
use vrm_rust.Store.{Store, add}
use vrm_rust.Store.Read
use vrm_rust.Workflow.Types.{WorkflowNode, DataDependency, SyncDependency}
use vrm_rust.Workflow.Dto.{
  WorkflowDto, TaskDto, DataOutDto, DataInDto, map_reservation_state, map_reservation_proceeding,
}

-- The bits of `f64::MAX`.
abbrev pub f64_max : F64
f64_max = 9218868437227405311

-- What the bases of a workflow, its nodes and its links have in common.
unfoldable pub fresh_base :
    String
    → String
    → ReservationState
    → ReservationProceeding
    → WorkflowDto
    → ℤ
    → ℤ
    → Bool
    → ℤ
    → ReservationBase
fresh_base name client_id state proceeding dto duration capacity moldable work = record {
  name = name;
  client_id = client_id;
  handler_id = none;
  state = state;
  request_proceeding = proceeding;
  arrival_time = dto.arrival_time;
  booking_interval_start = dto.booking_interval_start;
  booking_interval_end = dto.booking_interval_end;
  assigned_start = pos 0;
  assigned_end = pos 0;
  task_duration = duration;
  reserved_capacity = capacity;
  is_moldable = moldable;
  moldable_work = work;
  frag_delta = f64_max;
}

-- Phase 0.
unfoldable pub build_base_workflow : WorkflowDto → String → ReservationBase
unfolding fresh_base map_reservation_state map_reservation_proceeding
build_base_workflow dto client_id =
    fresh_base dto.id client_id (map_reservation_state dto.reservation_state)
      (map_reservation_proceeding dto.request_proceeding) dto (pos 0) (pos 0) false (pos 0)

-- The reservation of a task.
unfoldable pub task_reservation : WorkflowDto → String → TaskDto → Reservation
unfolding fresh_base map_reservation_state map_reservation_proceeding
task_reservation dto client_id task =
    let r = task.node_reservation in
    node (record {
      base =
          fresh_base task.id client_id (map_reservation_state task.reservation_state)
            (map_reservation_proceeding task.request_proceeding) dto r.duration r.cpus r.is_moldable
            (r.duration *i r.cpus);
      data_dependencies = [];
      current_working_directory = r.current_working_directory;
      environment = r.environment;
      task_path = r.task_path;
      output_path = r.output_path;
      error_path = r.error_path;
    })

unfoldable pub new_node : ℕ → WorkflowNode
new_node id = record {
  reservation_id = id;
  incoming_data = [];
  outgoing_data = [];
  incoming_sync = [];
  outgoing_sync = [];
  co_allocation_key = none;
}

module _ (new_key : Dict ℕ Reservation → ℕ) (dto : WorkflowDto) (client_id : String) where
  -- Phase 1. A task of an id that is there already replaces its node.
  unfoldable pub nodes_of :
      List TaskDto → Dict String WorkflowNode → Store → Dict String WorkflowNode × Store
  unfolding add task_reservation new_node
  nodes_of [] nodes s = (nodes, s)
  nodes_of (task ∷ tasks) nodes s =
      let (s', id) = add new_key s (task_reservation dto client_id task) in
      nodes_of tasks (Dict.insert task.id (new_node id) nodes) s'

  unfoldable pub generate_workflow_nodes : Store → Dict String WorkflowNode × Store
  unfolding nodes_of
  generate_workflow_nodes s = nodes_of dto.tasks [] s
