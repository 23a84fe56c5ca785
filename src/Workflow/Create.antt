-- ===== src/Workflow/Create.antt =====
-- The construction of a workflow from its description (`create_form_dto` in
-- src/vrm/workflow/workflow.rs), phase after phase, and the writes to the store at its end; and what
-- a workflow takes over from its reservations later. `none` stands for a panic.
use vrm_rust.Base.{
  ℕ, String, Bool, true, false, Option, none, some, List, [], ◌∷◌, ◌++◌, if◌then◌else◌, ◌>>=◌,
  string_eq, nat_eq, ◌==◌, ◌&&◌, ◌||◌, not, map,
}
use vrm_rust.Base.Int.{ltb_ℤ, eqb_ℤ}
use vrm_rust.Base.I64.{i64_min}
use vrm_rust.Base.Dict
use vrm_rust.Base.Dict.{Dict, values}
use vrm_rust.Base.HashSet
use vrm_rust.Reservation.Fields.{workflow_typ, link_typ, node_typ, ReservationTyp}
use vrm_rust.Reservation.Kinds.{Reservation, node, link, workflow}
use vrm_rust.Store.{Store, add}
use vrm_rust.Store.Read
use vrm_rust.Workflow.Types.{Workflow, WorkflowNode, DataDependency, SyncDependency, CoAllocation}
use vrm_rust.Workflow.Dto.{WorkflowDto}
use vrm_rust.Workflow.Build.{build_base_workflow, generate_workflow_nodes}
use vrm_rust.Workflow.Build.Dependencies.{build_all_dependencies}
use vrm_rust.Workflow.Graph.{populate_node_adjacency_lists, find_entry_exit_points}
use vrm_rust.Workflow.Groups.{DisjointSets, build_co_allocations, build_co_allocation_dependencies}

-- The node and the groups with the key of the co-allocation.
pub record Keyed : Type 0 where
  pub nodes : Dict String WorkflowNode
  pub co_allocations : Dict String CoAllocation

-- A representative that stands for the node itself gets the key as well.
unfoldable pub key_representative : ℕ → String → Option WorkflowNode → Option WorkflowNode
key_representative id group none = none
key_representative id group (some rep) =
    if rep.reservation_id == id
    then some (record rep { co_allocation_key = some group })
    else some rep

unfoldable pub key_node : Keyed → String → String → Option WorkflowNode → Keyed
unfolding key_representative
key_node k id group none = k
key_node k id group (some n) = record {
  nodes = Dict.modify id (λ n. record n { co_allocation_key = some group }) k.nodes;
  co_allocations =
      Dict.modify group
        (λ g. record g {
          representative = key_representative n.reservation_id group g.representative;
        })
        k.co_allocations;
}

unfoldable pub key_nodes : Keyed → Dict String String → Keyed
unfolding key_node
key_nodes k [] = k
key_nodes k ((id, group) ∷ groups) = key_nodes (key_node k id group (Dict.get id k.nodes)) groups

-- `as_link_mut().unwrap()` and the two setters, each with an end that is unwrapped.
unfoldable pub set_points : Reservation → Option String → Option String → Option Reservation
set_points (workflow w) source target = none
set_points (node n) source target = none
set_points (link l) none target = none
set_points (link l) (some s) none = none
set_points (link l) (some s) (some t) =
    some (link (record l { start_point = some s; end_point = some t }))

unfoldable pub set_link_points :
    Store → ℕ → Option Reservation → Option String → Option String → Option Store
unfolding set_points
set_link_points s id none source target = some s
set_link_points s id (some r) source target = do
  r' ← set_points r source target
  some (record s { slots = Dict.modify id (λ r. r') s.slots })

-- `as_node_mut().unwrap().data_dependencies.insert(…)`.
unfoldable pub insert_dependency : Store → ℕ → ℕ → Option Reservation → Option Store
insert_dependency s target source none = some s
insert_dependency s target source (some (workflow w)) = none
insert_dependency s target source (some (link l)) = none
insert_dependency s target source (some (node n)) = some (record s {
  slots =
      Dict.modify target
        (λ r. node (record n { data_dependencies = (HashSet.insert source n.data_dependencies).0 }))
        s.slots;
})

unfoldable pub depend_on : Store → Option WorkflowNode → Option WorkflowNode → Option Store
unfolding insert_dependency Read.get
depend_on s none source = some s
depend_on s (some target) none = some s
depend_on s (some target) (some source) =
    insert_dependency s target.reservation_id source.reservation_id
      (Read.get s target.reservation_id)

unfoldable pub node_at : Dict String WorkflowNode → Option String → Option WorkflowNode
node_at nodes none = none
node_at nodes (some id) = Dict.get id nodes

-- A link that the store does not know is passed over.
unfoldable pub store_data_dependency :
    Dict String WorkflowNode → DataDependency → Store → Bool → Option Store
unfolding set_link_points depend_on node_at Read.get
store_data_dependency nodes dep s false = some s
store_data_dependency nodes dep s true = do
  s1 ←
      set_link_points s dep.reservation_id (Read.get s dep.reservation_id) dep.source_node
        dep.target_node
  depend_on s1 (node_at nodes dep.target_node) (node_at nodes dep.source_node)

unfoldable pub store_data_dependencies :
    Dict String WorkflowNode → List DataDependency → Store → Option Store
unfolding store_data_dependency Read.contains
store_data_dependencies nodes [] s = some s
store_data_dependencies nodes (dep ∷ deps) s = do
  s' ← store_data_dependency nodes dep s (Read.contains s dep.reservation_id)
  store_data_dependencies nodes deps s'

unfoldable pub store_sync_dependencies : List SyncDependency → Store → Option Store
unfolding set_link_points Read.get
store_sync_dependencies [] s = some s
store_sync_dependencies (dep ∷ deps) s = do
  s' ←
      set_link_points s dep.reservation_id (Read.get s dep.reservation_id) dep.source_node
        dep.target_node
  store_sync_dependencies deps s'

module _ (new_key : Dict ℕ Reservation → ℕ) (u : DisjointSets) where
  unfoldable pub create_form_dto : WorkflowDto → String → Store → Option (Store × ℕ)
  unfolding build_base_workflow generate_workflow_nodes build_all_dependencies
      populate_node_adjacency_lists build_co_allocations build_co_allocation_dependencies
      find_entry_exit_points key_nodes store_data_dependencies store_sync_dependencies add
  create_form_dto dto client_id s = do
    let (nodes0, s0) = generate_workflow_nodes new_key dto client_id s
    (deps, s1) ← build_all_dependencies new_key dto client_id s0
    let nodes1 = populate_node_adjacency_lists nodes0 deps.data_dependencies deps.sync_dependencies
    (co, groups) ← build_co_allocations u nodes1 deps.sync_dependencies
    let overlay = build_co_allocation_dependencies deps.data_dependencies groups co
    let ends = find_entry_exit_points nodes1 overlay.co_allocations
    let keyed =
        key_nodes (record { nodes = nodes1; co_allocations = overlay.co_allocations }) groups
    s2 ← store_data_dependencies keyed.nodes (values deps.data_dependencies) s1
    s3 ← store_sync_dependencies (values deps.sync_dependencies) s2
    some (
        add new_key s3 (
          workflow (record {
            base = build_base_workflow dto client_id;
            nodes = keyed.nodes;
            data_dependencies = deps.data_dependencies;
            sync_dependencies = deps.sync_dependencies;
            co_allocations = keyed.co_allocations;
            co_allocation_dependencies = overlay.co_allocation_dependencies;
            entry_nodes = ends.entry_nodes;
            exit_nodes = ends.exit_nodes;
            entry_co_allocation = ends.entry_co_allocation;
            exit_co_allocation = ends.exit_co_allocation;
          })))

-- The assigned times of a workflow grow to hold those of its reservations.
unfoldable pub update_workflow_assigned_start_and_end : Workflow → Store → ℕ → Option Workflow
unfolding Read.get_assigned_start Read.get_assigned_end
update_workflow_assigned_start_and_end w s id = do
  start ← Read.get_assigned_start s id
  until ← Read.get_assigned_end s id
  let first = w.base.assigned_start
  let last = w.base.assigned_end
  let first' =
      if eqb_ℤ first i64_min || (ltb_ℤ start first && not (eqb_ℤ start i64_min))
      then start
      else first
  let last' = if eqb_ℤ last i64_min || ltb_ℤ last until then until else last
  some (record w { base = record w.base { assigned_start = first'; assigned_end = last' } })

-- Only a node or a link belongs to a workflow; else nothing changes.
unfoldable pub update_typed : Workflow → Store → ℕ → Option ReservationTyp → Option Workflow
unfolding update_workflow_assigned_start_and_end
update_typed w s id none = some w
update_typed w s id (some workflow_typ) = some w
update_typed w s id (some link_typ) = update_workflow_assigned_start_and_end w s id
update_typed w s id (some node_typ) = update_workflow_assigned_start_and_end w s id

unfoldable pub update_reservation : Workflow → Store → ℕ → Option Workflow
unfolding update_typed Read.get_type_of
update_reservation w s id = update_typed w s id (Read.get_type_of s id)

unfoldable pub get_all_reservation_ids : Workflow → List ℕ
get_all_reservation_ids w =
    map (λ (n : WorkflowNode). n.reservation_id) (values w.nodes)
    ++ (map (λ (d : DataDependency). d.reservation_id) (values w.data_dependencies)
        ++ map (λ (d : SyncDependency). d.reservation_id) (values w.sync_dependencies))
