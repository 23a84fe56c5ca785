-- ===== src/Workflow/Groups/Partition.antt =====
-- The groups of the nodes and the sets that synchronous dependencies connect (build_co_allocations
-- of src/vrm/workflow/workflow.rs).
use vrm_rust.Base.{
  ℕ, ◌+◌, ◌<◌, String, Bool, true, false, Option, none, some, List, [], ◌∷◌, string_eq, ◌==◌,
  if◌then◌else◌, ◌>>=◌, ◌≡◌, refl, ap, sym, subst, ◌∙◌, ◌⊎◌, inl, inr, ◌↔◌, arith, get_elem?,
  get_elem?-lt, length, bind-some, Bool-cases,
}
use vrm_rust.Base.Dict
use vrm_rust.Base.Dict.{Dict, keys, values}
use vrm_rust.Base.HashSet
use vrm_rust.Base.HashSet.{Distinct}
use vrm_rust.Workflow.Types.{WorkflowNode, SyncDependency, CoAllocation}
use vrm_rust.Workflow.Groups.{
  DisjointSets, Merging, merge_node, open_group, join_group, merge_nodes, representative_of,
  index_from, union_all, preliminary_groups, by_group_id, add_syncs_to_groups, build_co_allocations,
}
use vrm_rust.Workflow.Groups.Index.{
  index_from-IsIndex, index_from-total, contains-get_elem?, get_elem?_inj,
}
use vrm_rust.Workflow.Groups.Sets.{
  IsDisjointSets, Linked, Linked-map, Linked-Together, Together-Linked,
}

-- Only the map of a merging knows which group a node is in.
open_keeps :
    (m : Merging) (rep : String) (o p : Option CoAllocation)
    → (open_group m rep o p).node_to_co_allocation ≡ m.node_to_co_allocation
unfolding open_group
open_keeps m rep (some g) p = refl
open_keeps m rep none none = refl
open_keeps m rep none (some g) = refl

join_keeps :
    (m : Merging) (id rep : String) (o : Option CoAllocation)
    → (join_group m id rep o).node_to_co_allocation ≡ m.node_to_co_allocation
unfolding join_group
join_keeps m id rep none = refl
join_keeps m id rep (some g) = refl

merge_node_map :
    (m : Merging) (id rep : String)
    → (merge_node m id rep).node_to_co_allocation ≡ Dict.insert id rep m.node_to_co_allocation
unfolding merge_node
merge_node_map m id rep =
    let m1 = record m { node_to_co_allocation = Dict.insert id rep m.node_to_co_allocation } in
    let m2 = open_group m1 rep (Dict.get rep m1.merged) (Dict.get rep m1.preliminary) in
    elim (Bool-cases (id == rep)) [
      | inl e ↦ rw e (open_keeps m1 rep (Dict.get rep m1.merged) (Dict.get rep m1.preliminary))
      | inr e ↦ rw e (
          join_keeps m2 id rep (Dict.get id m2.preliminary)
          ∙ open_keeps m1 rep (Dict.get rep m1.merged) (Dict.get rep m1.preliminary))
    ]

module _ (u : DisjointSets) (sets : u.Sets) (index : Dict String ℕ) (all : List String) where
  abbrev pub rep : String → Option String
  rep a = representative_of u sets index all a

  -- A node that has a group has that of its representative.
  abbrev pub IsMap : Dict String String → Type 0
  IsMap groups = (a g : String) → Dict.get a groups ≡ some g → rep a ≡ some g

  insert_map :
      (groups : Dict String String) (id g0 a g : String) (b : Bool)
      → IsMap groups
      → rep id ≡ some g0
      → (id == a) ≡ b
      → (if b then some g0 else Dict.get a groups) ≡ some g
      → rep a ≡ some g
  insert_map groups id g0 a g true h e eb h' =
      let same : id ≡ a = (string_eq.same_iff id a).0 eb in ap rep (sym same) ∙ e ∙ h'
  insert_map groups id g0 a g false h e eb h' = h a g h'

  insert_known :
      (groups : Dict String String) (id g0 a : String) (b : Bool)
      → (id == a) ≡ b
      → (b ≡ true) ⊎ ((g : String) × (Dict.get a groups ≡ some g))
      → (g : String) × (Dict.get a (Dict.insert id g0 groups) ≡ some g)
  insert_known groups id g0 a true eb h = (g0, Dict.get-insert id a g0 groups ∙ rw eb refl)
  insert_known groups id g0 a false eb (inl e) = absurd (cc)
  insert_known groups id g0 a false eb (inr (g, e)) = (g, Dict.get-insert id a g0 groups ∙ rw eb e)

  pub record Mapped (ids : List String) (m m' : Merging) : Type 0 where
    pub is_map : IsMap m'.node_to_co_allocation
    pub keeps :
        (a : String)
        → (g : String) × (Dict.get a m.node_to_co_allocation ≡ some g)
        → (g : String) × (Dict.get a m'.node_to_co_allocation ≡ some g)
    pub covers :
        (a : String)
        → HashSet.contains a ids ≡ true
        → (g : String) × (Dict.get a m'.node_to_co_allocation ≡ some g)

  pub merge_nodes-Mapped :
      (ids : List String) (m m' : Merging)
      → merge_nodes u sets index all ids m ≡ some m'
      → IsMap m.node_to_co_allocation
      → Mapped ids m m'
  unfolding merge_nodes HashSet.contains
  merge_nodes-Mapped [] m m' e h =
      let p : m ≡ m' = cc in
      record {
        is_map = subst (λ (m : Merging). IsMap m.node_to_co_allocation) p h;
        keeps = λ a k.
            subst (λ (m : Merging). (g : String) × (Dict.get a m.node_to_co_allocation ≡ some g)) p
              k;
        covers = λ a k. absurd (cc);
      }
  merge_nodes-Mapped (id ∷ ids) m m' e h =
      let (g0, e1, e2) =
        bind-some (representative_of u sets index all id)
          (λ rep. merge_nodes u sets index all ids (merge_node m id rep)) m' e in
      let m1 = merge_node m id g0 in
      let made = merge_node_map m id g0 in
      let later = merge_nodes-Mapped ids m1 m' e2 (λ a g eg.
        insert_map m.node_to_co_allocation id g0 a g (id == a) h e1 refl (
          sym (Dict.get-insert id a g0 m.node_to_co_allocation)
          ∙ ap (Dict.get a) (sym made)
          ∙ eg)) in
      record {
        is_map = later.is_map;
        keeps = λ a k. later.keeps a (
            let (g, eg) = insert_known m.node_to_co_allocation id g0 a (id == a) refl (inr k) in
            (g, ap (Dict.get a) made ∙ eg));
        covers = λ a k. elim (Bool-cases (id == a)) [
          | inl eq ↦ later.keeps a (
              let (g, eg) = insert_known m.node_to_co_allocation id g0 a (id == a) refl (inl eq) in
              (g, ap (Dict.get a) made ∙ eg))
          | inr ne ↦ later.covers a (rw ne at k)
        ];
      }

-- The nodes and their index.
module _ (nodes : Dict String WorkflowNode) where
  abbrev pub ids : List String
  ids = keys nodes

  abbrev pub index : Dict String ℕ
  index = index_from 0 ids []

  -- A node of the workflow.
  abbrev pub IsTask : String → Type 0
  IsTask a = HashSet.contains a (keys nodes) ≡ true

  leads_back : (a : String) (i : ℕ) → Dict.get a index ≡ some i → get_elem? ids i ≡ some a
  unfolding Dict.get
  leads_back =
      index_from-IsIndex ids 0 ids [] (λ i. let e : i ≡ 0 + i = omega arith in ap (get_elem? ids) e)
        (λ a i h. absurd (ground arith))

  pub below : (a : String) (i : ℕ) → Dict.get a index ≡ some i → i < length ids
  below a i e = get_elem?-lt ids i a (leads_back a i e)

  pub inj : (a b : String) (i : ℕ) → Dict.get a index ≡ some i → Dict.get b index ≡ some i → a ≡ b
  inj a b i ea eb = cc (leads_back a i ea, leads_back b i eb)

  abbrev HasIndex : String → Type 0
  HasIndex a = (i : ℕ) × (Dict.get a index ≡ some i)

  to_task : (a : String) → HasIndex a → IsTask a
  to_task a (i, e) = contains-get_elem? ids i a (leads_back a i e)

  of_task : (a : String) → IsTask a → HasIndex a
  of_task a t = index_from-total 0 ids [] a t

-- The groups of the nodes, as `build_co_allocations` gives them.
module _ (u : DisjointSets) (laws : IsDisjointSets u) (nodes : Dict String WorkflowNode)
    (sync_deps : Dict String SyncDependency) (distinct : Distinct (keys nodes))
    (co : Dict String CoAllocation) (groups : Dict String String)
    (built : build_co_allocations u nodes sync_deps ≡ some (co, groups)) where
  abbrev sets : u.Sets
  sets = union_all u (index nodes) (values sync_deps) (u.new (length (ids nodes)))

  abbrev start : Merging
  start = record {
    preliminary = preliminary_groups nodes [];
    merged = [];
    node_to_co_allocation = [];
  }

  mapped :
      (m : Merging) × (m.node_to_co_allocation ≡ groups)
      × Mapped u sets (index nodes) (ids nodes) (ids nodes) start m
  unfolding build_co_allocations Dict.get
  mapped =
      let (m, em, er) =
        bind-some (merge_nodes u sets (index nodes) (ids nodes) (ids nodes) start)
          (λ m.
            add_syncs_to_groups m.node_to_co_allocation (values sync_deps) (by_group_id m.merged [])
            >>= λ co. some (co, m.node_to_co_allocation))
          (co, groups) built in
      let (co', ec, ep) =
        bind-some
          (add_syncs_to_groups m.node_to_co_allocation (values sync_deps) (by_group_id m.merged []))
          (λ co. some (co, m.node_to_co_allocation)) (co, groups) er in
      (
        m,
        cc,
        merge_nodes-Mapped u sets (index nodes) (ids nodes) (ids nodes) start m em
            (λ a g e. absurd (ground arith)),
      )

  -- Every node is in a group.
  pub group_of : (a : String) → (IsTask nodes) a → (g : String) × (Dict.get a groups ≡ some g)
  group_of a t =
      let (m, same, h) = mapped in let (g, e) = h.covers a t in (g, ap (Dict.get a) (sym same) ∙ e)

  by_rep :
      (a g : String)
      → Dict.get a groups ≡ some g
      → (i : ℕ) × (Dict.get a (index nodes) ≡ some i)
        × (get_elem? (ids nodes) (u.find sets i) ≡ some g)
  unfolding representative_of
  by_rep a g e =
      let (m, same, h) = mapped in
      let r = h.is_map a g (ap (Dict.get a) same ∙ e) in
      bind-some (Dict.get a (index nodes)) (λ i. get_elem? (ids nodes) (u.find sets i)) g r

  -- Two nodes are in one group exactly if dependencies connect them.
  pub one_group :
      (a b : String)
      → (IsTask nodes) a
      → (IsTask nodes) b
      → (Dict.get a groups ≡ Dict.get b groups) ↔ Linked (IsTask nodes) (values sync_deps) a b
  one_group a b ta tb =
      let (g, eg) = group_of a ta in
      let (h, eh) = group_of b tb in
      let (i, ei, ri) = by_rep a g eg in
      let (j, ej, rj) = by_rep b h eh in
      (
        λ same. Linked-map (HasIndex nodes) (IsTask nodes) (to_task nodes) (values sync_deps) a b (
            Together-Linked u laws (length (ids nodes)) (index nodes) (below nodes) (inj nodes)
              (values sync_deps) a b i j ei ej
              (get_elem?_inj (ids nodes) (u.find sets i) (u.find sets j) g distinct ri
                (rj ∙ sym eh ∙ sym same ∙ eg))),
        λ linked.
            let t =
              (Linked-Together u laws (length (ids nodes)) (index nodes) (below nodes) (inj nodes)
                (values sync_deps) a b
                (Linked-map (IsTask nodes) (HasIndex nodes) (of_task nodes) (values sync_deps) a b
                  linked)
                (inl (i, ei))).1 in
            eg ∙ sym ri ∙ ap (get_elem? (ids nodes)) (t i j ei ej) ∙ rj ∙ sym eh,
      )
