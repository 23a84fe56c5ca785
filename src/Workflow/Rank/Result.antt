-- ===== src/Workflow/Rank/Result.antt =====
-- The two rankings as a whole, where the co-allocation graph has no cycle.
use vrm_rust.Base.{
  ℕ, zero, suc, ◌+◌, ◌-◌, ◌*◌, ◌<◌, String, true, false, some, List, [], string_eq, ◌≡◌, refl, ap,
  sym, subst, ◌∙◌, arith, All, All-map, Any, length, bind-value, map, ◌>>=◌,
}
use mathlib.Core.List.{append-nil}
use vrm_rust.Base.Int.{ℤ, pos}
use vrm_rust.Base.Dict
use vrm_rust.Base.Dict.{Dict}
use vrm_rust.Store.{Store}
use vrm_rust.Workflow.Types.{Workflow, WorkflowNode, CoAllocation}
use vrm_rust.Workflow.CoAllocation.{get_co_allocation_duration}
use vrm_rust.Workflow.Rank.{
  Direction, Ranking, upward, downward, clear_marks, enqueue, rank_loop, rank_fuel, rank_all,
  visit_cost, count_edges, look_up, sort_by_rank, unwrap_all, calculate_upward_rank,
  calculate_downward_rank,
}
use vrm_rust.Workflow.Rank.Growth.{
  Likes, Grows, Grows-Likes, IsLike-trans, bare, IsGroup, IsSettled, IsDirection,
  upward-IsDirection, downward-IsDirection,
}
use vrm_rust.Workflow.Rank.Scanning.{IsLower, IsPushed}
use vrm_rust.Workflow.Rank.Ends.{AllReady, AllReady-Likes, Reaches}
use vrm_rust.Workflow.Rank.Ends.Visits.{visit, visit_all}
use vrm_rust.Workflow.Rank.Ranked.{IsRanked, IsRight, rank_loop-IsRight}
use vrm_rust.Workflow.Rank.Order.{
  IsSorted, sort_by_rank-All, sort_by_rank-Any, sort_by_rank-IsSorted, IsIn, look_up-LookedUp,
  unwrap_all-total,
}
use vrm_rust.Workflow.Rank.Start.{
  clear_marks-Likes, clear_marks-AllOpen, clear_marks-IsGroup, enqueue-Enqueued, length-edges-le,
}

-- What a ranking asks of a group: a level below the number of groups that goes down along every
-- dependency, transfers that are in the workflow, and members that the store knows.
pub record IsRankable (d : Direction) (w : Workflow) (s : Store) (level : String → ℕ) (k : String)
    (g : CoAllocation) : Type 0 where
  pub duration : (v : ℤ) × (get_co_allocation_duration g w.nodes s ≡ some v)
  pub lower : All (IsLower d w level w.co_allocations (level k)) (d.edges g)
  pub below : level k < length w.co_allocations

abbrev pub AllRankable : Direction → Workflow → Store → (String → ℕ) → Type 0
AllRankable d w s level =
    (k : String) (g : CoAllocation)
    → Dict.get k w.co_allocations ≡ some g
    → IsRankable d w s level k g

-- A group but for what the ranking of a direction may change in it: the two marks, the rank and the
-- number.
abbrev pub besides_upward : CoAllocation → CoAllocation
besides_upward g = record g {
  rank_upward = pos 0;
  number_of_nodes_critical_path_upwards = pos 0;
  is_discovered = false;
  is_processed = false;
}

abbrev pub besides_downward : CoAllocation → CoAllocation
besides_downward g = record g {
  rank_downward = pos 0;
  number_of_nodes_critical_path_downwards = pos 0;
  is_discovered = false;
  is_processed = false;
}

-- What a ranking gives: the groups `co` with their ranks, and `groups` in their order.
pub record IsRanking (d : Direction) (besides : CoAllocation → CoAllocation) (w : Workflow)
    (speed : ℤ) (s : Store) (starts : List String) (co : Dict String CoAllocation)
    (groups : List CoAllocation) : Type 0 where
  -- Every start has its rank, and a group with a rank has the length of its longest path.
  pub started : All (IsSettled co) starts
  pub ranked :
      (k : String) (g : CoAllocation)
      → Dict.get k co ≡ some g
      → g.is_processed ≡ true
      → IsRanked d w speed s co g × Any (λ h. h ≡ g) groups
  -- Only groups that have their rank are in the list, and the largest rank comes first.
  pub groups_in : All (IsIn co) groups
  pub sorted : IsSorted d groups
  -- Every group of the workflow is there, and no other, and it is as before but for what a ranking
  -- changes.
  pub stays : (k : String) → IsGroup w.co_allocations k → IsGroup co k
  pub like :
      (k : String) (g' : CoAllocation)
      → Dict.get k co ≡ some g'
      → (g : CoAllocation) × (Dict.get k w.co_allocations ≡ some g) × (besides g' ≡ besides g)

module _ (d : Direction) (laws : IsDirection d) (w : Workflow) (speed : ℤ) (s : Store)
    (level : String → ℕ) (ready : AllRankable d w s level) where
  abbrev most : ℕ
  most = count_edges d w.co_allocations

  abbrev depth : ℕ
  depth = length w.co_allocations

  all_ready : AllReady d laws w speed s level most w.co_allocations
  all_ready k g e =
      let r = ready k g e in
      record {
        duration = r.duration;
        lower = r.lower;
        few = length-edges-le d laws k w.co_allocations g e;
      }

  loop_ends :
      (r r' : Ranking) (n : ℕ)
      → Reaches d laws w speed s level most r r.queue r' [] n
      → rank_loop d w speed s n r r.queue ≡ some r'
  unfolding rank_loop
  loop_ends r r' n run =
      let e : n ≡ run.used + (n - run.used) = omega (arith, run.within) in
      ap (λ n. rank_loop d w speed s n r r.queue) e
      ∙ run.runs (n - run.used)
      ∙ at_end (n - run.used)
    where
      at_end : (f : ℕ) → rank_loop d w speed s f r' [] ≡ some r'
      at_end zero = refl
      at_end (suc f) = refl

  module _ (starts : List String) where
    abbrev first : Ranking
    first = record { co_allocations = clear_marks w.co_allocations; queue = []; finished = [] }

    abbrev begun : Ranking
    begun = enqueue first starts

    begun-Likes : Likes d w.co_allocations begun.co_allocations
    begun-Likes k g e =
        let (g1, e1, l1) = (enqueue-Enqueued d laws starts first).likes k g e in
        let (g0, e0, l0) = clear_marks-Likes d laws w.co_allocations k g1 e1 in
        (g0, e0, IsLike-trans d g0 g1 g l0 l1)

    begun-IsGroup : (k : String) → IsGroup w.co_allocations k → IsGroup begun.co_allocations k
    begun-IsGroup k h =
        (enqueue-Enqueued d laws starts first).kept k (clear_marks-IsGroup w.co_allocations k h)

    below_depth :
        (k : String)
        → IsGroup begun.co_allocations k
        → IsPushed d w level begun.co_allocations depth k
    below_depth k (g, e) = let (g0, e0, like) = begun-Likes k g e in ((g, e), (ready k g0 e0).below)

    loop_returns :
        (r' : Ranking) × (rank_loop d w speed s (rank_fuel d w begun.queue) begun begun.queue
          ≡ some r')
        × Grows d begun.co_allocations r'.co_allocations
        × All (IsSettled r'.co_allocations) begun.queue
    unfolding rank_fuel
    loop_returns =
        let start = enqueue-Enqueued d laws starts first in
        let (r', run, settled) =
          visit_all d laws w speed s level most depth (visit d laws w speed s level most depth)
            begun.queue begun [] (sym (append-nil begun.queue))
            (AllReady-Likes d laws w speed s level most w.co_allocations begun.co_allocations
              begun-Likes all_ready)
            (All-map (IsGroup begun.co_allocations) (IsPushed d w level begun.co_allocations depth)
              begun.queue below_depth (start.queued tt)) in
        (
          r',
          loop_ends begun r' (length begun.queue * visit_cost most depth) (
              subst
                (λ q.
                  Reaches d laws w speed s level most begun q r' []
                    (length begun.queue * visit_cost most depth))
                (append-nil begun.queue) run),
          run.grows,
          settled,
        )

    begun-IsRight : IsRight d w speed s begun.co_allocations begun.finished
    begun-IsRight =
        let start = enqueue-Enqueued d laws starts first in
        let unranked = start.open_kept (clear_marks-AllOpen d laws w.co_allocations) in
        record {
          ranked = λ k g e p. let no = unranked k g e in absurd (cc);
          listed = λ k g e p. let no = unranked k g e in absurd (cc);
          known = rw start.finished tt;
        }

    -- The ranking comes to a result, and leaves what `besides` reads of a group.
    pub rank_all-IsRanking :
        (besides : CoAllocation → CoAllocation)
        → ((g : CoAllocation) → besides (bare d g) ≡ besides g)
        → (co : Dict String CoAllocation) × (groups : List CoAllocation) × (rank_all d w speed s
              starts
            ≡ some (co, groups))
          × IsRanking d besides w speed s starts co groups
    unfolding rank_all
    rank_all-IsRanking besides rest =
        let (r', e, grows, settled) = loop_returns in
        let start = enqueue-Enqueued d laws starts first in
        let likes = Grows-Likes d begun.co_allocations r'.co_allocations grows in
        let right =
          rank_loop-IsRight d laws w speed s (rank_fuel d w begun.queue) begun r' begun.queue e
            begun-IsRight in
        let (gs, found) = look_up-LookedUp r'.co_allocations r'.finished right.known in
        (
          r'.co_allocations,
          sort_by_rank d gs,
          bind-value
                (λ r'. look_up r'.co_allocations r'.finished >>= λ groups.
                  some (r'.co_allocations, sort_by_rank d groups))
                e
              ∙ bind-value (λ groups. some (r'.co_allocations, sort_by_rank d groups)) found.found,
          record {
            started = (start.settled r'.co_allocations likes settled).0;
            ranked = λ k g eg p. (
              right.ranked k g eg p,
              sort_by_rank-Any d (λ h. h ≡ g) gs (found.complete k g eg (right.listed k g eg p)),
            );
            groups_in = sort_by_rank-All d (IsIn r'.co_allocations) gs found.groups;
            sorted = sort_by_rank-IsSorted d gs;
            stays = λ k h. let (g, eg) = begun-IsGroup k h in grows.forth k g eg;
            like = λ k g eg.
                let (g1, e1, l1) = likes k g eg in
                let (g0, e0, l0) = begun-Likes k g1 e1 in
                (g0, e0, sym (rest g) ∙ ap besides (l1.kept ∙ l0.kept) ∙ rest g0);
          },
        )

-- Every group has a node that stands for it.
abbrev pub AllNamed : Workflow → Type 0
AllNamed w =
    (k : String) (g : CoAllocation)
    → Dict.get k w.co_allocations ≡ some g
    → (node : WorkflowNode) × (g.representative ≡ some node)

module _ (w : Workflow) (speed : ℤ) (s : Store) (level : String → ℕ) where
  -- The upward ranking comes to a result. At its end every entry group has its rank; the rank of
  -- each group that has one is the larger of its own duration and the length of its longest path
  -- over a dependency (its duration, the transfer's time and the rank of the group behind it), and
  -- its number is that of the groups on such a path. The list has the representatives of the
  -- groups that have their rank and of no other, the largest rank first. The groups of the
  -- workflow are all there and no other, each with all of its fields as before but the two marks,
  -- the upward rank and the upward number, and so is all else of the workflow. Its conditions:
  -- every group has a duration, a representative and a level below the number of groups that falls
  -- along every dependency to a group, and the transfer of each such dependency is known.
  pub calculate_upward_rank-IsRanking :
      AllRankable upward w s level
      → AllNamed w
      → (w' : Workflow) × (nodes : List WorkflowNode) × (groups : List CoAllocation)
        × (calculate_upward_rank w speed s ≡ some (w', nodes))
        × (map some nodes ≡ map (λ (g : CoAllocation). g.representative) groups)
        × (w' ≡ record w { co_allocations = w'.co_allocations })
        × IsRanking upward besides_upward w speed s w.entry_co_allocation w'.co_allocations groups
  unfolding calculate_upward_rank bare upward
  calculate_upward_rank-IsRanking ready named =
      let (co, groups, e, ranking) =
        rank_all-IsRanking upward upward-IsDirection w speed s level ready w.entry_co_allocation
          besides_upward (λ g. refl) in
      let (nodes, en, same) = unwrap_all-total groups (
        All-map (IsIn co) (λ g. (node : WorkflowNode) × (g.representative ≡ some node)) groups
          (λ g h.
            let (g0, e0, like) = ranking.like h.0 g h.1 in
            let (node, er) = named h.0 g0 e0 in
            (node, ap (λ (g : CoAllocation). g.representative) like ∙ er))
          ranking.groups_in) in
      (
        record w { co_allocations = co },
        nodes,
        groups,
        bind-value
              (λ p. unwrap_all (map (λ (g : CoAllocation). g.representative) p.1) >>= λ nodes.
                some (record w { co_allocations = p.0 }, nodes))
              e
            ∙ bind-value (λ nodes. some (record w { co_allocations = co }, nodes)) en,
        same,
        refl,
        ranking,
      )

  -- The downward ranking comes to a result. At its end every exit group has its rank; the rank of
  -- each group that has one is the larger of its own duration and the length of its longest path
  -- over a dependency to the group that it comes from (its own duration, the transfer's time and
  -- that group's rank), so that its own duration always counts, and its number is that of the
  -- groups on such a path. The list has the representatives of the groups that have their rank and
  -- of no other, the largest rank first. The ranked groups are those of the workflow, all of them
  -- and no other, with all fields as before but the two marks, the downward rank and the downward
  -- number. Its conditions: every group has a duration and a level below the number of groups that
  -- falls along every dependency to the group it comes from, and the transfer of each such
  -- dependency is known.
  pub calculate_downward_rank-IsRanking :
      AllRankable downward w s level
      → (co : Dict String CoAllocation) × (groups : List CoAllocation) × (calculate_downward_rank w
            speed s
          ≡ some (map (λ (g : CoAllocation). g.representative) groups))
        × IsRanking downward besides_downward w speed s w.exit_co_allocation co groups
  unfolding calculate_downward_rank bare downward
  calculate_downward_rank-IsRanking ready =
      let (co, groups, e, ranking) =
        rank_all-IsRanking downward downward-IsDirection w speed s level ready w.exit_co_allocation
          besides_downward (λ g. refl) in
      (
        co,
        groups,
        bind-value (λ p. some (map (λ (g : CoAllocation). g.representative) p.1)) e,
        ranking,
      )
