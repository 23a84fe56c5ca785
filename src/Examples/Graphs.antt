-- ===== src/Examples/Graphs.antt =====
-- A workflow of three tasks: "a" and "b" run together, and "c" waits for a file of "b".
use vrm_rust.Base.{
  ℕ, ◌<◌, String, true, none, some, List, [], ◌∷◌, string_eq, nat_eq, ◌==◌, nat_beq, if◌then◌else◌,
  ◌≡◌, refl, subst, ◌↔◌, ◌⊎◌, inl, inr, arith, map, Bool-cases,
}
use text.Mathlib.TextEquality.{eq_iff}
use vrm_rust.Base.Int.{pos}
use vrm_rust.Base.Dict
use vrm_rust.Base.Dict.{Dict, keys, values}
use vrm_rust.Base.HashSet
use vrm_rust.Reservation.Kinds.{get_base}
use vrm_rust.Reservation.Fields.{open_state}
use vrm_rust.Store.Read
use vrm_rust.Workflow.Types.{
  Workflow, WorkflowNode, CoAllocation, CoAllocationDependency, DataDependency, SyncDependency,
}
use vrm_rust.Workflow.CoAllocation.{get_co_allocation_duration, longest_of, longer}
use vrm_rust.Workflow.Groups.{DisjointSets, single_group, build_co_allocations}
use vrm_rust.Workflow.Groups.Sets.{IsDisjointSets, Linked}
use vrm_rust.Workflow.Groups.Partition.{IsTask}
use vrm_rust.Workflow.Groups.Total.{build_co_allocations-Linked}
use vrm_rust.Workflow.Rank.{upward, downward, calculate_upward_rank, calculate_downward_rank}
use vrm_rust.Workflow.Rank.Result.{
  IsRankable, AllRankable, IsRanking, besides_upward, besides_downward, AllNamed,
  calculate_upward_rank-IsRanking, calculate_downward_rank-IsRanking,
}
use vrm_rust.Examples.Data.{store, base_of}

-- Disjoint sets by a function to the number of the set.
abbrev relabel : (ℕ → ℕ) → ℕ → ℕ → ℕ → ℕ
relabel s i j = λ a. if nat_beq (s a) (s i) then s j else s a

abbrev sets : DisjointSets
sets = record { Sets = ℕ → ℕ; new = λ n a. a; union = relabel; find = λ s. s }

relabel_lt :
    (n i j : ℕ) (s : ℕ → ℕ)
    → ((a : ℕ) → a < n → s a < n)
    → i < n
    → j < n
    → (a : ℕ) → a < n
    → relabel s i j a < n
relabel_lt n i j s h il jl a al = ground (arith, h j, h a)

relabel_idem :
    (n i j : ℕ) (s : ℕ → ℕ)
    → ((a : ℕ) → a < n → s (s a) ≡ s a)
    → i < n
    → j < n
    → (a : ℕ) → a < n
    → relabel s i j (relabel s i j a) ≡ relabel s i j a
relabel_idem n i j s h il jl a al = elim (Bool-cases (nat_beq (s a) (s i))) [
  | inl e ↦ rw e (ground (arith, h j jl))
  | inr e ↦ rw e (ground (arith, h a al))
]

sets-IsDisjointSets : IsDisjointSets sets
sets-IsDisjointSets = record {
  IsOver = λ n s. ((a : ℕ) → a < n → s a < n) × ((a : ℕ) → a < n → s (s a) ≡ s a);
  new_over = λ n. (λ a h. h, λ a h. refl);
  union_over = λ n i j s h il jl. (relabel_lt n i j s h.0 il jl, relabel_idem n i j s h.1 il jl);
  find_lt = λ n i s h il. h.0 i il;
  find_find = λ n i s h il. h.1 i il;
  find_new = λ n i j il jl e. e;
  union_joins = λ n i j s h il jl. ground arith;
  union_keeps = λ n i j a b s h il jl al bl e. ground arith;
  union_only = λ n i j a b s h il jl al bl e. ground arith;
}

abbrev node_at : ℕ → WorkflowNode
node_at id = record {
  reservation_id = id;
  incoming_data = [];
  outgoing_data = [];
  incoming_sync = [];
  outgoing_sync = [];
  co_allocation_key = none;
}

abbrev nodes : Dict String WorkflowNode
nodes = ("a", node_at 0) ∷ ("b", node_at 0) ∷ ("c", node_at 0) ∷ []

abbrev stream : SyncDependency
stream = record {
  reservation_id = 1;
  source_node = some "a";
  target_node = some "b";
  port_name = "port";
  bandwidth = pos 5;
}

abbrev syncs : Dict String SyncDependency
syncs = ("a.b", stream) ∷ []

stream_starts : (a : String) → some "a" ≡ some a → IsTask nodes a
unfolding HashSet.contains
stream_starts a e =
    let p : "a" ≡ a = cc in subst (λ a. HashSet.contains a (keys nodes) ≡ true) p refl

build_co_allocations-Linked_example :
    (co : Dict String CoAllocation) × (groups : Dict String String) × (build_co_allocations sets
        nodes syncs
      ≡ some (co, groups))
    × ((a b : String)
        → IsTask nodes a
        → IsTask nodes b
        → (Dict.get a groups ≡ Dict.get b groups) ↔ Linked (IsTask nodes) (values syncs) a b)
unfolding HashSet.contains
build_co_allocations-Linked_example =
    build_co_allocations-Linked sets sets-IsDisjointSets nodes syncs (refl, (refl, (refl, tt)))
      (stream_starts, tt)

abbrev transfer : CoAllocationDependency
transfer = record { id = "b.c"; source_group = "b"; target_group = "c"; data_dependency = "b.c" }

abbrev data_file : DataDependency
data_file = record {
  reservation_id = 2;
  source_node = some "b";
  target_node = some "c";
  port_name = "port";
  size = pos 100;
}

abbrev first_group : CoAllocation
first_group = record (single_group "b" (node_at 0)) {
  members = "b" ∷ "a" ∷ [];
  outgoing_co_allocation_dependencies = transfer ∷ [];
}

abbrev last_group : CoAllocation
last_group = record (single_group "c" (node_at 0)) {
  incoming_co_allocation_dependencies = transfer ∷ [];
}

abbrev groups_of : Dict String CoAllocation
groups_of = ("b", first_group) ∷ ("c", last_group) ∷ []

abbrev flow : Workflow
flow = record {
  base = base_of "flow" open_state;
  nodes = nodes;
  data_dependencies = ("b.c", data_file) ∷ [];
  sync_dependencies = syncs;
  co_allocations = groups_of;
  co_allocation_dependencies = ("b.c", transfer) ∷ [];
  entry_nodes = "a" ∷ "b" ∷ [];
  exit_nodes = "a" ∷ "c" ∷ [];
  entry_co_allocation = "b" ∷ [];
  exit_co_allocation = "c" ∷ [];
}

-- The first group comes before the last one.
abbrev level_up : String → ℕ
level_up k = if k == "b" then 1 else 0

abbrev level_down : String → ℕ
level_down k = if k == "c" then 1 else 0

group_cases :
    (k : String) (g : CoAllocation)
    → Dict.get k groups_of ≡ some g
    → (("b" ≡ k) × (first_group ≡ g)) ⊎ (("c" ≡ k) × (last_group ≡ g))
unfolding Dict.get single_group
group_cases k g e = elim (Bool-cases ("b" == k)) [
  | inl b ↦ inl ((eq_iff "b" k).0 b, cc (rw b at e))
  | inr nb ↦ elim (Bool-cases ("c" == k)) [
    | inl c ↦ inr ((eq_iff "c" k).0 c, cc (rw (nb, c) at e))
    | inr nc ↦ let no_group = rw (nb, nc) at e in absurd (cc)
  ]
]

up_first : IsRankable upward flow store level_up "b" first_group
unfolding upward single_group get_co_allocation_duration longest_of longer Read.get_task_duration
    Read.read Read.get Dict.get get_base
up_first = record {
  duration = (pos 10, refl);
  lower = (record { lower = λ g e. omega arith; transfer = (data_file, refl) }, tt);
  below = omega arith;
}

up_last : IsRankable upward flow store level_up "c" last_group
unfolding upward single_group get_co_allocation_duration longest_of longer Read.get_task_duration
    Read.read Read.get Dict.get get_base
up_last = record { duration = (pos 10, refl); lower = tt; below = omega arith }

flow-AllRankable_up : AllRankable upward flow store level_up
flow-AllRankable_up k g e = elim (group_cases k g e) [
  | inl (a, b) ↦
      subst (λ k. IsRankable upward flow store level_up k g) a
        (subst (IsRankable upward flow store level_up "b") b up_first)
  | inr (a, b) ↦
      subst (λ k. IsRankable upward flow store level_up k g) a
        (subst (IsRankable upward flow store level_up "c") b up_last)
]

flow-AllNamed : AllNamed flow
unfolding single_group
flow-AllNamed k g e = elim (group_cases k g e) [
  | inl (a, b) ↦
      subst (λ (g : CoAllocation). (n : WorkflowNode) × (g.representative ≡ some n)) b
        (node_at 0, refl)
  | inr (a, b) ↦
      subst (λ (g : CoAllocation). (n : WorkflowNode) × (g.representative ≡ some n)) b
        (node_at 0, refl)
]

calculate_upward_rank-IsRanking_example :
    (w' : Workflow) × (nodes : List WorkflowNode) × (groups : List CoAllocation)
    × (calculate_upward_rank flow (pos 20) store ≡ some (w', nodes))
    × (map some nodes ≡ map (λ (g : CoAllocation). g.representative) groups)
    × (w' ≡ record flow { co_allocations = w'.co_allocations })
    × IsRanking upward besides_upward flow (pos 20) store ("b" ∷ []) w'.co_allocations groups
calculate_upward_rank-IsRanking_example =
    calculate_upward_rank-IsRanking flow (pos 20) store level_up flow-AllRankable_up flow-AllNamed

down_first : IsRankable downward flow store level_down "b" first_group
unfolding downward single_group get_co_allocation_duration longest_of longer Read.get_task_duration
    Read.read Read.get Dict.get get_base
down_first = record { duration = (pos 10, refl); lower = tt; below = omega arith }

down_last : IsRankable downward flow store level_down "c" last_group
unfolding downward single_group get_co_allocation_duration longest_of longer Read.get_task_duration
    Read.read Read.get Dict.get get_base
down_last = record {
  duration = (pos 10, refl);
  lower = (record { lower = λ g e. omega arith; transfer = (data_file, refl) }, tt);
  below = omega arith;
}

flow-AllRankable_down : AllRankable downward flow store level_down
flow-AllRankable_down k g e = elim (group_cases k g e) [
  | inl (a, b) ↦
      subst (λ k. IsRankable downward flow store level_down k g) a
        (subst (IsRankable downward flow store level_down "b") b down_first)
  | inr (a, b) ↦
      subst (λ k. IsRankable downward flow store level_down k g) a
        (subst (IsRankable downward flow store level_down "c") b down_last)
]

calculate_downward_rank-IsRanking_example :
    (co : Dict String CoAllocation) × (groups : List CoAllocation) × (calculate_downward_rank flow
        (pos 20)
        store
      ≡ some (map (λ (g : CoAllocation). g.representative) groups))
    × IsRanking downward besides_downward flow (pos 20) store ("c" ∷ []) co groups
calculate_downward_rank-IsRanking_example =
    calculate_downward_rank-IsRanking flow (pos 20) store level_down flow-AllRankable_down
