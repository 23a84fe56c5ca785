-- ===== src/Workflow/Types.antt =====
-- The data of the workflow graph: dependency.rs, workflow_node.rs, co_allocation.rs and the
-- struct of workflow.rs in src/vrm/workflow.
use vrm_rust.Base.{ℕ, String, Bool, Option, List}
use vrm_rust.Base.Floats.{F64}
use vrm_rust.Base.Int.{ℤ}
use vrm_rust.Base.Dict.{Dict}
use vrm_rust.Reservation.Fields.{ReservationBase}

pub record DataDependency : Type 0 where
  pub reservation_id : ℕ
  pub source_node : Option String
  pub target_node : Option String
  pub port_name : String
  pub size : ℤ

pub record SyncDependency : Type 0 where
  pub reservation_id : ℕ
  pub source_node : Option String
  pub target_node : Option String
  pub port_name : String
  pub bandwidth : ℤ

pub record CoAllocationDependency : Type 0 where
  pub id : String
  pub source_group : String
  pub target_group : String
  pub data_dependency : String

pub record WorkflowNode : Type 0 where
  pub reservation_id : ℕ
  pub incoming_data : List String
  pub outgoing_data : List String
  pub incoming_sync : List String
  pub outgoing_sync : List String
  pub co_allocation_key : Option String

pub record CoAllocation : Type 0 where
  pub id : String
  pub representative : Option WorkflowNode
  pub members : List String
  pub sync_dependencies : List SyncDependency
  pub outgoing_co_allocation_dependencies : List CoAllocationDependency
  pub outgoing_data_dependencies : List DataDependency
  pub incoming_co_allocation_dependencies : List CoAllocationDependency
  pub incoming_data_dependencies : List DataDependency
  pub rank_upward : ℤ
  pub rank_downward : ℤ
  pub number_of_nodes_critical_path_downwards : ℤ
  pub number_of_nodes_critical_path_upwards : ℤ
  pub is_in_queue : Bool
  pub unprocessed_predecessor_count : ℤ
  pub unprocessed_successor_count : ℤ
  pub spare_time : ℤ
  pub max_successor_force : F64
  pub max_pred_force : F64
  pub is_discovered : Bool
  pub is_processed : Bool
  pub is_moveable : Bool
  pub is_moveable_interval_start : Bool
  pub is_moveable_interval_end : Bool
  pub start_position : F64
  pub end_position : F64

pub record Workflow : Type 0 where
  pub base : ReservationBase
  pub nodes : Dict String WorkflowNode
  pub data_dependencies : Dict String DataDependency
  pub sync_dependencies : Dict String SyncDependency
  pub co_allocations : Dict String CoAllocation
  pub co_allocation_dependencies : Dict String CoAllocationDependency
  pub entry_nodes : List String
  pub exit_nodes : List String
  pub entry_co_allocation : List String
  pub exit_co_allocation : List String
