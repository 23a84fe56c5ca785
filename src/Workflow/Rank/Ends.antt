-- ===== src/Workflow/Rank/Ends.antt =====
-- The rounds of the `while` loop over the queue (calculate_upward_rank of
-- src/vrm/workflow/workflow.rs), where the groups have levels that go down along every dependency.
pub mod Rounds
pub mod Visits
use vrm_rust.Base.{
  ℕ, zero, suc, ◌+◌, ◌*◌, ◌≤◌, ◌<◌, String, Bool, true, false, Option, none, some, List, [], ◌∷◌,
  ◌++◌, string_eq, ◌≡◌, refl, ap, sym, subst, ◌∙◌, arith, All, All-map, length, bind-value, ◌>>=◌,
}
use vrm_rust.Base.Int.{ℤ, pos}
use vrm_rust.Base.Dict
use vrm_rust.Base.Dict.{Dict}
use vrm_rust.Store.{Store}
use vrm_rust.Workflow.Types.{Workflow, CoAllocation, CoAllocationDependency, DataDependency}
use vrm_rust.Workflow.CoAllocation.{get_co_allocation_duration}
use vrm_rust.Workflow.Rank.{
  Direction, Scan, Ranking, scan_deps, settle, rank_known, rank_group, rank_round, rank_loop,
  visit_cost,
}
use vrm_rust.Workflow.Rank.Growth.{
  Likes, Grows, Grows-Likes, Grows-refl, Grows-trans, modify-Grows, IsLike, IsSettled, IsGroup,
  IsSettled-Grows, IsDirection,
}
use vrm_rust.Workflow.Rank.Scanning.{IsLower, IsPushed, Scanned, scan_deps-Scanned}

module _ (d : Direction) (laws : IsDirection d) (w : Workflow) (speed : ℤ) (s : Store)
    (level : String → ℕ) (most : ℕ) where
  -- What a group needs: the store knows its members, its dependencies lead to groups of a lower
  -- level by known transfers, and there are no more of them than `most`.
  pub record IsReady (co : Dict String CoAllocation) (k : String) (g : CoAllocation) : Type 0 where
    pub duration : (v : ℤ) × (get_co_allocation_duration g w.nodes s ≡ some v)
    pub lower : All (IsLower d w level co (level k)) (d.edges g)
    pub few : length (d.edges g) ≤ most

  abbrev pub AllReady : Dict String CoAllocation → Type 0
  AllReady co = (k : String) (g : CoAllocation) → Dict.get k co ≡ some g → IsReady co k g

  pub duration_like :
      (g g' : CoAllocation)
      → IsLike d g g'
      → get_co_allocation_duration g' w.nodes s ≡ get_co_allocation_duration g w.nodes s
  unfolding get_co_allocation_duration
  duration_like g g' like =
      ap (λ ms. vrm_rust.Workflow.CoAllocation.longest_of s w.nodes (pos 0) ms) like.members

  pub AllReady-Likes :
      (co co' : Dict String CoAllocation) → Likes d co co' → AllReady co → AllReady co'
  AllReady-Likes co co' gr ready k g' e' =
      let (g, e, like) = gr k g' e' in
      let (v, ev) = (ready k g e).duration in
      record {
        duration = (v, duration_like g g' like ∙ ev);
        lower =
            subst (λ deps. All (IsLower d w level co' (level k)) deps) (sym like.edges)
              (All-map (IsLower d w level co (level k)) (IsLower d w level co' (level k))
                (d.edges g)
                (λ dep h. record {
                  lower = λ x ex. let (y, ey, l) = gr (d.next dep) x ex in h.lower y ey;
                  transfer = h.transfer;
                })
                (ready k g e).lower);
        few = subst (λ deps. length deps ≤ most) (sym like.edges) (ready k g e).few;
      }

  pub AllReady-Grows :
      (co co' : Dict String CoAllocation) → Grows d co co' → AllReady co → AllReady co'
  AllReady-Grows co co' gr ready = AllReady-Likes co co' (Grows-Likes d co co' gr) ready

  -- From `queue` the loop comes to `rest` in at most `bound` rounds.
  pub record Reaches (r : Ranking) (queue : List String) (r' : Ranking) (rest : List String)
      (bound : ℕ) : Type 0 where
    pub queued : r'.queue ≡ rest
    pub used : ℕ
    pub within : used ≤ bound
    pub runs : (f : ℕ) → rank_loop d w speed s (used + f) r queue ≡ rank_loop d w speed s f r' rest
    pub grows : Grows d r.co_allocations r'.co_allocations

  pub one_round :
      (r r' : Ranking) (key : String) (rest rest' : List String)
      → rank_round d w speed s r key rest ≡ some r'
      → r'.queue ≡ rest'
      → (f : ℕ) → rank_loop d w speed s (1 + f) r (key ∷ rest) ≡ rank_loop d w speed s f r' rest'
  unfolding rank_loop
  one_round r r' key rest rest' e q f =
      let n : 1 + f ≡ suc f = omega arith in
      ap (λ n. rank_loop d w speed s n r (key ∷ rest)) n
      ∙ bind-value (λ r. rank_loop d w speed s f r r.queue) e
      ∙ ap (rank_loop d w speed s f r') q

  pub by_round :
      (r r' : Ranking) (key : String) (rest rest' : List String)
      → rank_round d w speed s r key rest ≡ some r'
      → r'.queue ≡ rest'
      → Grows d r.co_allocations r'.co_allocations
      → Reaches r (key ∷ rest) r' rest' 1
  by_round r r' key rest rest' e q gr = record {
    queued = q;
    used = 1;
    within = omega arith;
    runs = one_round r r' key rest rest' e q;
    grows = gr;
  }

  pub Reaches-trans :
      (a b c : Ranking) (p q t : List String) (m n : ℕ)
      → Reaches a p b q m
      → Reaches b q c t n
      → Reaches a p c t (m + n)
  Reaches-trans a b c p q t m n x y = record {
    queued = y.queued;
    used = x.used + y.used;
    within = omega (arith, x.within, y.within);
    runs = λ f.
        let e : x.used + y.used + f ≡ x.used + (y.used + f) = omega arith in
        ap (λ n. rank_loop d w speed s n a p) e ∙ x.runs (y.used + f) ∙ y.runs f;
    grows = Grows-trans d a.co_allocations b.co_allocations c.co_allocations x.grows y.grows;
  }

  pub Reaches-weaken :
      (a b : Ranking) (p q : List String) (m n : ℕ) → m ≤ n → Reaches a p b q m → Reaches a p b q n
  Reaches-weaken a b p q m n le x = record {
    queued = x.queued;
    used = x.used;
    within = omega (arith, x.within);
    runs = x.runs;
    grows = x.grows;
  }
