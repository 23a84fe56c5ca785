-- ===== src/Workflow/Groups/Total.antt =====
-- The construction of the co-allocations as a whole (build_co_allocations of
-- src/vrm/workflow/workflow.rs).
use vrm_rust.Base.{
  ℕ, ◌+◌, ◌<◌, String, Bool, true, Option, none, some, List, [], ◌∷◌, string_eq, ◌≡◌, refl, ap, sym,
  ◌∙◌, ◌++◌, ◌↔◌, arith, get_elem?, get_elem?-some, length, bind-value, ◌>>=◌, All, All-map, ◌==◌,
  Bool-cases, ◌||◌, inl, inr, ◌⊎◌,
}
use vrm_rust.Base.Dict
use vrm_rust.Base.Dict.{Dict, keys, values}
use vrm_rust.Base.HashSet
use vrm_rust.Base.HashSet.{Distinct}
use vrm_rust.Workflow.Types.{WorkflowNode, SyncDependency, CoAllocation}
use vrm_rust.Workflow.Groups.{
  DisjointSets, Merging, merge_node, merge_nodes, representative_of, index_from, union_all,
  preliminary_groups, by_group_id, add_sync_to_group, add_syncs_to_groups, build_co_allocations,
}
use vrm_rust.Workflow.Groups.Index.{index_from-total}
use vrm_rust.Workflow.Groups.Sets.{IsDisjointSets, Linked, merged_sets-over}
use vrm_rust.Workflow.Groups.Partition.{IsTask, below, inj, merge_nodes-Mapped, one_group}

-- A dependency starts at one of the nodes, if it has a start.
abbrev pub StartsAt : (String → Type 0) → SyncDependency → Type 0
StartsAt P dep = (a : String) → dep.source_node ≡ some a → P a

module _ (groups : Dict String String) where
  abbrev InGroup : String → Type 0
  InGroup a = (g : String) × (Dict.get a groups ≡ some g)

  add_sync-total :
      (dep : SyncDependency) (o : Option String) (co : Dict String CoAllocation)
      → ((a : String) → o ≡ some a → InGroup a)
      → (co' : Dict String CoAllocation) × (add_sync_to_group groups dep o co ≡ some co')
  unfolding add_sync_to_group
  add_sync-total dep none co h = (co, refl)
  add_sync-total dep (some a) co h =
      let (g, e) = h a refl in
      (
        Dict.modify g (λ x. record x { sync_dependencies = x.sync_dependencies ++ (dep ∷ []) }) co,
        bind-value
            (λ id. some (
              Dict.modify id
                (λ x. record x { sync_dependencies = x.sync_dependencies ++ (dep ∷ []) }) co))
            e,
      )

  add_syncs-total :
      (deps : List SyncDependency) (co : Dict String CoAllocation)
      → All (StartsAt InGroup) deps
      → (co' : Dict String CoAllocation) × (add_syncs_to_groups groups deps co ≡ some co')
  unfolding add_syncs_to_groups
  add_syncs-total [] co h = (co, refl)
  add_syncs-total (dep ∷ deps) co h =
      let (co1, e1) = add_sync-total dep dep.source_node co h.0 in
      let (co2, e2) = add_syncs-total deps co1 h.1 in
      (co2, bind-value (λ co. add_syncs_to_groups groups deps co) e1 ∙ e2)

module _ (u : DisjointSets) (sets : u.Sets) (index : Dict String ℕ) (all : List String)
    (known : (a : String)
      → HashSet.contains a all ≡ true
      → (r : String) × (representative_of u sets index all a ≡ some r)) where
  merge_nodes-total :
      (ids : List String) (m : Merging)
      → ((a : String) → HashSet.contains a ids ≡ true → HashSet.contains a all ≡ true)
      → (m' : Merging) × (merge_nodes u sets index all ids m ≡ some m')
  unfolding merge_nodes HashSet.contains
  merge_nodes-total [] m sub = (m, refl)
  merge_nodes-total (id ∷ ids) m sub =
      let (r, e) = known id (sub id (rw (vrm_rust.Base.beq_refl id) refl)) in
      let (m', e') = merge_nodes-total ids (merge_node m id r) (λ a h. sub a (ground (arith, h))) in
      (m', bind-value (λ r. merge_nodes u sets index all ids (merge_node m id r)) e ∙ e')

module _ (u : DisjointSets) (laws : IsDisjointSets u) (nodes : Dict String WorkflowNode)
    (sync_deps : Dict String SyncDependency) (distinct : Distinct (keys nodes)) where
  abbrev ids : List String
  ids = keys nodes

  abbrev index : Dict String ℕ
  index = index_from 0 ids []

  abbrev sets : u.Sets
  sets = union_all u index (values sync_deps) (u.new (length ids))

  has_representative :
      (a : String)
      → HashSet.contains a ids ≡ true
      → (r : String) × (representative_of u sets index ids a ≡ some r)
  unfolding representative_of
  has_representative a h =
      let (i, e) = index_from-total 0 ids [] a h in
      let over =
        merged_sets-over u laws (length ids) index (below nodes) (inj nodes) (values sync_deps) in
      let (r, er) =
        get_elem?-some ids (u.find sets i)
          (laws.find_lt (length ids) i sets over (below nodes a i e)) in
      (r, bind-value (λ i. get_elem? ids (u.find sets i)) e ∙ er)

  -- The co-allocation groups are the connected components of the synchronisation dependencies: the
  -- construction comes to a result, and two tasks are put in the same group exactly when
  -- dependencies connect them, over other tasks and in either direction. Its conditions: the
  -- disjoint sets keep their documented laws, no two tasks share an id, and every synchronisation
  -- dependency with a source starts at a task.
  pub build_co_allocations-Linked :
      All (StartsAt (IsTask nodes)) (values sync_deps)
      → (co : Dict String CoAllocation) × (groups : Dict String String) × (build_co_allocations u
            nodes sync_deps
          ≡ some (co, groups))
        × ((a b : String)
            → IsTask nodes a
            → IsTask nodes b
            → (Dict.get a groups ≡ Dict.get b groups)
              ↔ Linked (IsTask nodes) (values sync_deps) a b)
  unfolding build_co_allocations Dict.get
  build_co_allocations-Linked starts =
      let begin : Merging = record {
        preliminary = preliminary_groups nodes [];
        merged = [];
        node_to_co_allocation = [];
      } in
      let (m, em) = merge_nodes-total u sets index ids has_representative ids begin (λ a h. h) in
      let covered =
        merge_nodes-Mapped u sets index ids ids begin m em (λ a g e. absurd (ground arith)) in
      let (co, ec) =
        add_syncs-total m.node_to_co_allocation (values sync_deps) (by_group_id m.merged []) (
          All-map (StartsAt (IsTask nodes)) (StartsAt (InGroup m.node_to_co_allocation))
            (values sync_deps) (λ dep h a e. covered.covers a (h a e)) starts) in
      let built : build_co_allocations u nodes sync_deps ≡ some (co, m.node_to_co_allocation) =
        bind-value
          (λ m.
            add_syncs_to_groups m.node_to_co_allocation (values sync_deps) (by_group_id m.merged [])
            >>= λ co. some (co, m.node_to_co_allocation))
          em
        ∙ bind-value (λ co. some (co, m.node_to_co_allocation)) ec in
      (
        co,
        m.node_to_co_allocation,
        built,
        one_group u laws nodes sync_deps distinct co m.node_to_co_allocation built,
      )
