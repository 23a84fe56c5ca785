-- ===== src/Workflow/Rank.antt =====
-- The upward and the downward rank of the co-allocations of a workflow, and the order in which they
-- are scheduled (src/vrm/workflow/workflow.rs). The two functions of the source are the same but
-- for the direction in which they follow the dependencies, which is a record here.
-- `none` stands for a panic, or for a loop that does not end on its fuel.
pub mod Longest
pub mod Growth
pub mod Scanning
pub mod Ends
pub mod Ranked
pub mod Order
pub mod Start
pub mod Result
use vrm_rust.Base.{
  ℕ, zero, suc, ◌+◌, ◌*◌, String, Bool, true, false, Option, none, some, List, [], ◌∷◌, ◌++◌, map,
  if◌then◌else◌, ◌>>=◌, string_eq, length,
}
use vrm_rust.Base.Int.{ℤ, pos, ltb_ℤ, div_trunc}
use vrm_rust.Base.I64.{◌+i◌}
use vrm_rust.Base.Dict
use vrm_rust.Base.Dict.{Dict}
use vrm_rust.Store.{Store}
use vrm_rust.Workflow.Types.{
  Workflow, WorkflowNode, CoAllocation, CoAllocationDependency, DataDependency,
}
use vrm_rust.Workflow.CoAllocation.{get_co_allocation_duration}

pub record Direction : Type 0 where
  pub edges : CoAllocation → List CoAllocationDependency
  pub next : CoAllocationDependency → String
  pub rank : CoAllocation → ℤ
  pub number : CoAllocation → ℤ
  -- Sets the rank and the number, and marks the group as processed.
  pub finish : CoAllocation → ℤ → ℤ → CoAllocation

unfoldable pub upward : Direction
upward = record {
  edges = λ g. g.outgoing_co_allocation_dependencies;
  next = λ dep. dep.target_group;
  rank = λ g. g.rank_upward;
  number = λ g. g.number_of_nodes_critical_path_upwards;
  finish = λ g rank number. record g {
    rank_upward = rank;
    number_of_nodes_critical_path_upwards = number;
    is_processed = true;
  };
}

unfoldable pub downward : Direction
downward = record {
  edges = λ g. g.incoming_co_allocation_dependencies;
  next = λ dep. dep.source_group;
  rank = λ g. g.rank_downward;
  number = λ g. g.number_of_nodes_critical_path_downwards;
  finish = λ g rank number. record g {
    rank_downward = rank;
    number_of_nodes_critical_path_downwards = number;
    is_processed = true;
  };
}

-- The variables of the `for` loop over the dependencies. The head of `queue` is the end of the
-- `Vec`, where the source pushes and pops.
pub record Scan : Type 0 where
  pub rank : ℤ
  pub number : ℤ
  pub waiting : Bool
  pub queue : List String

-- The variables of the `while` loop.
pub record Ranking : Type 0 where
  pub co_allocations : Dict String CoAllocation
  pub queue : List String
  pub finished : List String

-- The average time of a transfer.
unfoldable pub communication_time : ℤ → ℤ → ℤ
communication_time speed size = if ltb_ℤ (pos 0) speed then div_trunc size speed else pos 0

module _ (d : Direction) where
  -- The length of the path that goes on over a neighbour.
  unfoldable pub through : ℤ → ℤ → DataDependency → CoAllocation → ℤ
  unfolding communication_time
  through speed duration dep g = duration +i communication_time speed dep.size +i d.rank g

  unfoldable pub improve : Scan → ℤ → CoAllocation → Scan
  improve sc possible g =
      if ltb_ℤ sc.rank possible
      then record sc { rank = possible; number = d.number g +i pos 1 }
      else sc

  unfoldable pub scan_ranked : ℤ → ℤ → Scan → CoAllocation → Option DataDependency → Option Scan
  unfolding improve through
  scan_ranked speed duration sc g none = none
  scan_ranked speed duration sc g (some dep) = some (improve sc (through speed duration dep g) g)

module _ (d : Direction) (w : Workflow) (speed : ℤ) where
  -- The test of `is_processed` of a neighbour. One that is not processed is pushed.
  unfoldable pub scan_neighbour :
      ℤ → Scan → CoAllocationDependency → CoAllocation → Bool → Option Scan
  unfolding scan_ranked
  scan_neighbour duration sc dep g true =
      scan_ranked d speed duration sc g (Dict.get dep.data_dependency w.data_dependencies)
  scan_neighbour duration sc dep g false =
      some (record sc { waiting = true; queue = d.next dep ∷ sc.queue })

  -- A neighbour that is no group is passed over.
  unfoldable pub scan_group : ℤ → Scan → CoAllocationDependency → Option CoAllocation → Option Scan
  unfolding scan_neighbour
  scan_group duration sc dep none = some sc
  scan_group duration sc dep (some g) = scan_neighbour duration sc dep g g.is_processed

  unfoldable pub scan_deps :
      Dict String CoAllocation → ℤ → Scan → List CoAllocationDependency → Option Scan
  unfolding scan_group
  scan_deps co duration sc [] = some sc
  scan_deps co duration sc (dep ∷ deps) = do
    sc' ← scan_group duration sc dep (Dict.get (d.next dep) co)
    scan_deps co duration sc' deps

  -- The end of a round: the group has its rank when no neighbour has to go first.
  unfoldable pub settle : Ranking → String → List String → Scan → Bool → Ranking
  settle r key rest sc true = record r { queue = sc.queue }
  settle r key rest sc false = record {
    co_allocations = Dict.modify key (λ g. d.finish g sc.rank sc.number) r.co_allocations;
    queue = rest;
    finished = r.finished ++ (key ∷ []);
  }

module _ (d : Direction) (w : Workflow) (speed : ℤ) (s : Store) where
  -- The test of `is_processed` of the group at the end of the queue.
  unfoldable pub rank_known : Ranking → String → List String → CoAllocation → Bool → Option Ranking
  unfolding settle scan_deps
  rank_known r key rest g true = some (record r { queue = rest })
  rank_known r key rest g false = do
    duration ← get_co_allocation_duration g w.nodes s
    sc ←
        scan_deps d w speed r.co_allocations duration
          (record { rank = duration; number = pos 1; waiting = false; queue = key ∷ rest })
          (d.edges g)
    some (settle d w speed r key rest sc sc.waiting)

  unfoldable pub rank_group : Ranking → String → List String → Option CoAllocation → Option Ranking
  unfolding rank_known
  rank_group r key rest none = none
  rank_group r key rest (some g) = rank_known r key rest g g.is_processed

  unfoldable pub rank_round : Ranking → String → List String → Option Ranking
  unfolding rank_group
  rank_round r key rest = rank_group r key rest (Dict.get key r.co_allocations)

  unfoldable pub rank_loop : ℕ → Ranking → List String → Option Ranking
  unfolding rank_round
  rank_loop fuel r [] = some r
  rank_loop zero r (key ∷ rest) = none
  rank_loop (suc fuel) r (key ∷ rest) = do r' ← rank_round r key rest; rank_loop fuel r' r'.queue

-- Step 1: no group is marked.
unfoldable pub unmark : CoAllocation → CoAllocation
unmark g = record g { is_discovered = false; is_processed = false }

unfoldable pub clear_marks : Dict String CoAllocation → Dict String CoAllocation
unfolding unmark
clear_marks [] = []
clear_marks ((key, g) ∷ co) = (key, unmark g) ∷ clear_marks co

unfoldable pub mark_discovered : CoAllocation → CoAllocation
mark_discovered g = record g { is_discovered = true }

unfoldable pub discover : Ranking → String → Option CoAllocation → Ranking
unfolding mark_discovered
discover r key none = r
discover r key (some g) = record r {
  co_allocations = Dict.modify key mark_discovered r.co_allocations;
  queue = key ∷ r.queue;
}

-- Step 2: the groups without a neighbour on the other side start.
unfoldable pub enqueue : Ranking → List String → Ranking
unfolding discover
enqueue r [] = r
enqueue r (key ∷ keys) = enqueue (discover r key (Dict.get key r.co_allocations)) keys

-- Step 6: a stable sort, the largest rank first.
module _ (d : Direction) where
  unfoldable pub put_in_order : CoAllocation → List CoAllocation → List CoAllocation
  put_in_order g [] = g ∷ []
  put_in_order g (h ∷ hs) =
      let later = h ∷ put_in_order g hs in if ltb_ℤ (d.rank g) (d.rank h) then later else g ∷ h ∷ hs

  unfoldable pub sort_by_rank : List CoAllocation → List CoAllocation
  unfolding put_in_order
  sort_by_rank [] = []
  sort_by_rank (g ∷ gs) = put_in_order g (sort_by_rank gs)

-- `self.co_allocations.get(key).unwrap()` for each key.
unfoldable pub look_up : Dict String CoAllocation → List String → Option (List CoAllocation)
look_up co [] = some []
look_up co (key ∷ keys) = do g ← Dict.get key co; gs ← look_up co keys; some (g ∷ gs)

unfoldable pub unwrap_all : List (Option WorkflowNode) → Option (List WorkflowNode)
unwrap_all [] = some []
unwrap_all (o ∷ os) = do node ← o; nodes ← unwrap_all os; some (node ∷ nodes)

-- A visit to a group at a distance of `l` from the end takes this many rounds at most.
unfoldable pub visit_cost : ℕ → ℕ → ℕ
visit_cost most zero = 0
visit_cost most (suc l) = 2 + most * visit_cost most l

unfoldable pub count_edges : Direction → Dict String CoAllocation → ℕ
count_edges d [] = 0
count_edges d ((key, g) ∷ co) = length (d.edges g) + count_edges d co

unfoldable pub rank_fuel : Direction → Workflow → List String → ℕ
unfolding visit_cost count_edges
rank_fuel d w queue =
    length queue * visit_cost (count_edges d w.co_allocations) (length w.co_allocations)

module _ (d : Direction) (w : Workflow) (speed : ℤ) (s : Store) where
  -- Steps 1 to 6: the workflow with its ranks, and the groups in their order.
  unfoldable pub rank_all : List String → Option (Dict String CoAllocation × List CoAllocation)
  unfolding rank_loop clear_marks enqueue sort_by_rank look_up rank_fuel
  rank_all starts = do
    let r =
        enqueue
          (record { co_allocations = clear_marks w.co_allocations; queue = []; finished = [] })
          starts
    r' ← rank_loop d w speed s (rank_fuel d w r.queue) r r.queue
    groups ← look_up r'.co_allocations r'.finished
    some (r'.co_allocations, sort_by_rank d groups)

unfoldable pub calculate_upward_rank : Workflow → ℤ → Store → Option (Workflow × List WorkflowNode)
unfolding rank_all unwrap_all upward
calculate_upward_rank w speed s = do
  (co, groups) ← rank_all upward w speed s w.entry_co_allocation
  nodes ← unwrap_all (map (λ g. g.representative) groups)
  some (record w { co_allocations = co }, nodes)

-- The workflow is dropped at the end, and a missing representative is no panic.
unfoldable pub calculate_downward_rank : Workflow → ℤ → Store → Option (List (Option WorkflowNode))
unfolding rank_all downward
calculate_downward_rank w speed s = do
  (co, groups) ← rank_all downward w speed s w.exit_co_allocation
  some (map (λ g. g.representative) groups)
