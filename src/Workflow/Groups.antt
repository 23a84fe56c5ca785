-- ===== src/Workflow/Groups.antt =====
-- Phases 4 and 5 of the construction of a workflow (src/vrm/workflow/workflow.rs): the
-- co-allocations, which are the nodes that synchronous dependencies connect, and the dependencies
-- between them. The disjoint sets are those of the crate `union_find`, a parameter.
pub mod Index
pub mod Sets
pub mod Partition
pub mod Total
use vrm_rust.Base.{
  ℕ, suc, String, Bool, true, false, Option, none, some, List, [], ◌∷◌, ◌++◌, if◌then◌else◌, ◌>>=◌,
  string_eq, ◌==◌, get_elem?, length,
}
use vrm_rust.Base.Int.{pos}
use vrm_rust.Base.Dict
use vrm_rust.Base.Dict.{Dict, keys, values}
use vrm_rust.Workflow.Types.{
  WorkflowNode, DataDependency, SyncDependency, CoAllocation, CoAllocationDependency,
}

-- `QuickUnionUf<UnionBySize>` over the numbers below a size. What `find` compresses inside cannot
-- be seen.
pub record DisjointSets : Type 1 where
  pub Sets : Type 0
  pub new : ℕ → Sets
  pub union : Sets → ℕ → ℕ → Sets
  pub find : Sets → ℕ → ℕ

-- A group of one node. The places of the forces and positions hold the bits of 0.0.
unfoldable pub single_group : String → WorkflowNode → CoAllocation
single_group id node = record {
  id = id;
  representative = some node;
  members = id ∷ [];
  sync_dependencies = [];
  outgoing_co_allocation_dependencies = [];
  outgoing_data_dependencies = [];
  incoming_co_allocation_dependencies = [];
  incoming_data_dependencies = [];
  rank_upward = pos 0;
  rank_downward = pos 0;
  number_of_nodes_critical_path_downwards = pos 0;
  number_of_nodes_critical_path_upwards = pos 0;
  is_in_queue = false;
  unprocessed_predecessor_count = pos 0;
  unprocessed_successor_count = pos 0;
  spare_time = pos 0;
  max_successor_force = 0;
  max_pred_force = 0;
  is_discovered = false;
  is_processed = false;
  is_moveable = true;
  is_moveable_interval_start = true;
  is_moveable_interval_end = true;
  start_position = 0;
  end_position = 0;
}

-- `node_id_to_index`: the position of every key.
unfoldable pub index_from : ℕ → List String → Dict String ℕ → Dict String ℕ
index_from n [] index = index
index_from n (id ∷ ids) index = index_from (suc n) ids (Dict.insert id n index)

unfoldable pub preliminary_groups :
    Dict String WorkflowNode → Dict String CoAllocation → Dict String CoAllocation
unfolding single_group
preliminary_groups [] groups = groups
preliminary_groups ((id, node) ∷ nodes) groups =
    preliminary_groups nodes (Dict.insert id (single_group id node) groups)

-- The loop's variables: the groups that are not merged yet, and those that are.
pub record Merging : Type 0 where
  pub preliminary : Dict String CoAllocation
  pub merged : Dict String CoAllocation
  pub node_to_co_allocation : Dict String String

-- The first member of a set makes its group, which is the one of the representative.
unfoldable pub open_group : Merging → String → Option CoAllocation → Option CoAllocation → Merging
open_group m rep (some known) found = m
open_group m rep none none = m
open_group m rep none (some base_group) = record m {
  preliminary = Dict.remove rep m.preliminary;
  merged = Dict.insert rep (record base_group { id = rep }) m.merged;
}

unfoldable pub join_group : Merging → String → String → Option CoAllocation → Merging
join_group m id rep none = m
join_group m id rep (some own_group) = record m {
  preliminary = Dict.remove id m.preliminary;
  merged = Dict.modify rep (λ g. record g { members = g.members ++ own_group.members }) m.merged;
}

unfoldable pub merge_node : Merging → String → String → Merging
unfolding open_group join_group
merge_node m id rep =
    let m1 = record m { node_to_co_allocation = Dict.insert id rep m.node_to_co_allocation } in
    let m2 = open_group m1 rep (Dict.get rep m1.merged) (Dict.get rep m1.preliminary) in
    if id == rep then m2 else join_group m2 id rep (Dict.get id m2.preliminary)

-- Each group under its own id.
unfoldable pub by_group_id :
    Dict String CoAllocation → Dict String CoAllocation → Dict String CoAllocation
by_group_id [] co = co
by_group_id ((rep, g) ∷ merged) co = by_group_id merged (Dict.insert g.id g co)

-- Step 5: `none` is the panic at a source that is no node of the workflow.
unfoldable pub add_sync_to_group :
    Dict String String
    → SyncDependency
    → Option String
    → Dict String CoAllocation
    → Option (Dict String CoAllocation)
add_sync_to_group groups dep none co = some co
add_sync_to_group groups dep (some source) co = do
  id ← Dict.get source groups
  some (Dict.modify id (λ g. record g { sync_dependencies = g.sync_dependencies ++ (dep ∷ []) }) co)

unfoldable pub add_syncs_to_groups :
    Dict String String
    → List SyncDependency
    → Dict String CoAllocation
    → Option (Dict String CoAllocation)
unfolding add_sync_to_group
add_syncs_to_groups groups [] co = some co
add_syncs_to_groups groups (dep ∷ deps) co = do
  co' ← add_sync_to_group groups dep dep.source_node co
  add_syncs_to_groups groups deps co'

module _ (u : DisjointSets) where
  -- Two ends that are nodes are put into one set.
  unfoldable pub union_found : Option ℕ → Option ℕ → u.Sets → u.Sets
  union_found none target sets = sets
  union_found (some i) none sets = sets
  union_found (some i) (some j) sets = u.union sets i j

  unfoldable pub union_ends : Dict String ℕ → Option String → Option String → u.Sets → u.Sets
  unfolding union_found
  union_ends index none target sets = sets
  union_ends index (some source) none sets = sets
  union_ends index (some source) (some target) sets =
      union_found (Dict.get source index) (Dict.get target index) sets

  unfoldable pub union_all : Dict String ℕ → List SyncDependency → u.Sets → u.Sets
  unfolding union_ends
  union_all index [] sets = sets
  union_all index (dep ∷ deps) sets =
      union_all index deps (union_ends index dep.source_node dep.target_node sets)

  -- The node that stands for the set of a node.
  unfoldable pub representative_of : u.Sets → Dict String ℕ → List String → String → Option String
  representative_of sets index ids id = do i ← Dict.get id index; get_elem? ids (u.find sets i)

  unfoldable pub merge_nodes :
      u.Sets → Dict String ℕ → List String → List String → Merging → Option Merging
  unfolding merge_node representative_of
  merge_nodes sets index all [] m = some m
  merge_nodes sets index all (id ∷ ids) m = do
    rep ← representative_of sets index all id
    merge_nodes sets index all ids (merge_node m id rep)

  -- Phase 4. `none` stands for a panic.
  unfoldable pub build_co_allocations :
      Dict String WorkflowNode
      → Dict String SyncDependency
      → Option (Dict String CoAllocation × Dict String String)
  unfolding index_from preliminary_groups union_all merge_nodes by_group_id add_syncs_to_groups
  build_co_allocations nodes sync_deps = do
    let ids = keys nodes
    let index = index_from 0 ids []
    let sets = union_all index (values sync_deps) (u.new (length ids))
    m ← merge_nodes sets index ids ids (record {
      preliminary = preliminary_groups nodes [];
      merged = [];
      node_to_co_allocation = [];
    })
    co ← add_syncs_to_groups m.node_to_co_allocation (values sync_deps) (by_group_id m.merged [])
    some (co, m.node_to_co_allocation)

-- Phase 5: a data dependency between nodes of two groups is one between the groups.
pub record Overlay : Type 0 where
  pub co_allocations : Dict String CoAllocation
  pub co_allocation_dependencies : Dict String CoAllocationDependency

unfoldable pub link_groups : String → DataDependency → String → String → Overlay → Overlay
link_groups id dep source target o =
    let edge : CoAllocationDependency = record {
      id = id;
      source_group = source;
      target_group = target;
      data_dependency = id;
    } in
    record {
      co_allocation_dependencies = Dict.insert id edge o.co_allocation_dependencies;
      co_allocations =
          Dict.modify target
            (λ g. record g {
              incoming_co_allocation_dependencies =
                  g.incoming_co_allocation_dependencies ++ (edge ∷ []);
              incoming_data_dependencies = g.incoming_data_dependencies ++ (dep ∷ []);
            })
            (Dict.modify source
              (λ g. record g {
                outgoing_co_allocation_dependencies =
                    g.outgoing_co_allocation_dependencies ++ (edge ∷ []);
                outgoing_data_dependencies = g.outgoing_data_dependencies ++ (dep ∷ []);
              })
              o.co_allocations);
    }

-- An end that is in no group is passed over.
unfoldable pub overlay_found :
    String → DataDependency → Option String → Option String → Overlay → Overlay
unfolding link_groups
overlay_found id dep none target o = o
overlay_found id dep (some source) none o = o
overlay_found id dep (some source) (some target) o =
    if source == target then o else link_groups id dep source target o

unfoldable pub overlay_edge :
    Dict String String → String → DataDependency → Option String → Option String → Overlay → Overlay
unfolding overlay_found
overlay_edge groups id dep none target o = o
overlay_edge groups id dep (some source) none o = o
overlay_edge groups id dep (some source) (some target) o =
    overlay_found id dep (Dict.get source groups) (Dict.get target groups) o

unfoldable pub overlay_all : Dict String String → Dict String DataDependency → Overlay → Overlay
unfolding overlay_edge
overlay_all groups [] o = o
overlay_all groups ((id, dep) ∷ deps) o =
    overlay_all groups deps (overlay_edge groups id dep dep.source_node dep.target_node o)

unfoldable pub build_co_allocation_dependencies :
    Dict String DataDependency → Dict String String → Dict String CoAllocation → Overlay
unfolding overlay_all
build_co_allocation_dependencies data_deps groups co =
    overlay_all groups data_deps (record { co_allocations = co; co_allocation_dependencies = [] })
