-- ===== src/Workflow/Graph.antt =====
-- Phases 3 and 6 of the construction of a workflow (src/vrm/workflow/workflow.rs): the adjacency
-- lists of the nodes, and where the two graphs begin and end.
use vrm_rust.Base.{
  String, Bool, true, false, Option, none, some, List, [], ◌∷◌, ◌++◌, if◌then◌else◌, string_eq,
  ◌&&◌,
}
use vrm_rust.Base.Dict
use vrm_rust.Base.Dict.{Dict}
use vrm_rust.Workflow.Types.{WorkflowNode, DataDependency, SyncDependency, CoAllocation}

-- A missing end, or one that is no node, changes nothing.
unfoldable pub at_node :
    Option String
    → (WorkflowNode → WorkflowNode)
    → Dict String WorkflowNode
    → Dict String WorkflowNode
at_node none f nodes = nodes
at_node (some id) f nodes = Dict.modify id f nodes

unfoldable pub add_data_edge :
    String → DataDependency → Dict String WorkflowNode → Dict String WorkflowNode
unfolding at_node
add_data_edge id dep nodes =
    at_node dep.target_node (λ n. record n { incoming_data = n.incoming_data ++ (id ∷ []) })
      (at_node dep.source_node (λ n. record n { outgoing_data = n.outgoing_data ++ (id ∷ []) })
        nodes)

unfoldable pub add_sync_edge :
    String → SyncDependency → Dict String WorkflowNode → Dict String WorkflowNode
unfolding at_node
add_sync_edge id dep nodes =
    at_node dep.target_node (λ n. record n { incoming_sync = n.incoming_sync ++ (id ∷ []) })
      (at_node dep.source_node (λ n. record n { outgoing_sync = n.outgoing_sync ++ (id ∷ []) })
        nodes)

unfoldable pub add_data_edges :
    Dict String DataDependency → Dict String WorkflowNode → Dict String WorkflowNode
unfolding add_data_edge
add_data_edges [] nodes = nodes
add_data_edges ((id, dep) ∷ deps) nodes = add_data_edges deps (add_data_edge id dep nodes)

unfoldable pub add_sync_edges :
    Dict String SyncDependency → Dict String WorkflowNode → Dict String WorkflowNode
unfolding add_sync_edge
add_sync_edges [] nodes = nodes
add_sync_edges ((id, dep) ∷ deps) nodes = add_sync_edges deps (add_sync_edge id dep nodes)

-- Phase 3.
unfoldable pub populate_node_adjacency_lists :
    Dict String WorkflowNode
    → Dict String DataDependency
    → Dict String SyncDependency
    → Dict String WorkflowNode
unfolding add_data_edges add_sync_edges
populate_node_adjacency_lists nodes data_deps sync_deps =
    add_sync_edges sync_deps (add_data_edges data_deps nodes)

unfoldable pub is_empty {ℓ} : {A : Type ℓ} → List A → Bool
is_empty [] = true
is_empty (x ∷ xs) = false

-- `iter().filter(test).map(name).collect()`.
unfoldable pub select {ℓ} : {A : Type ℓ} → (A → Bool) → (A → String) → List A → List String
select test name [] = []
select test name (x ∷ xs) = let rest = select test name xs in if test x then name x ∷ rest else rest

pub record EntryExit : Type 0 where
  pub entry_nodes : List String
  pub exit_nodes : List String
  pub entry_co_allocation : List String
  pub exit_co_allocation : List String

-- Phase 6.
unfoldable pub find_entry_exit_points :
    Dict String WorkflowNode → Dict String CoAllocation → EntryExit
unfolding is_empty select
find_entry_exit_points nodes co = record {
  entry_nodes =
      select (λ e. is_empty e.1.incoming_data && is_empty e.1.incoming_sync) (λ e. e.0) nodes;
  exit_nodes =
      select (λ e. is_empty e.1.outgoing_data && is_empty e.1.outgoing_sync) (λ e. e.0) nodes;
  entry_co_allocation =
      select (λ e. is_empty e.1.incoming_co_allocation_dependencies) (λ e. e.1.id) co;
  exit_co_allocation =
      select (λ e. is_empty e.1.outgoing_co_allocation_dependencies) (λ e. e.1.id) co;
}
