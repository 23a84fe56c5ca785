-- ===== src/Workflow/Rank/Ranked.antt =====
-- The ranks of the groups in each round of the `while` loop (calculate_upward_rank of
-- src/vrm/workflow/workflow.rs).
use vrm_rust.Base.{
  ℕ, zero, suc, String, Bool, true, false, Option, none, some, List, [], ◌∷◌, ◌++◌, string_eq, ◌==◌,
  if◌then◌else◌, map_option, ◌≡◌, refl, ap, sym, subst, ◌∙◌, ◌⊎◌, inl, inr, arith, All, All-map,
  All-append, Any, beq_refl, bind-some, ◌>>=◌,
}
use vrm_rust.Base.Int.{ℤ, pos, ◌≤ℤ◌}
use vrm_rust.Base.Dict
use vrm_rust.Base.Dict.{Dict}
use vrm_rust.Store.{Store}
use vrm_rust.Workflow.Types.{Workflow, CoAllocation, CoAllocationDependency, DataDependency}
use vrm_rust.Workflow.CoAllocation.{get_co_allocation_duration, longest_of}
use vrm_rust.Workflow.Rank.{
  Direction, Scan, Ranking, through, scan_deps, settle, rank_known, rank_group, rank_round,
  rank_loop,
}
use vrm_rust.Workflow.Rank.Growth.{
  Grows, modify-Grows, IsLike, IsRankedGroup, IsRankedGroup-Grows, IsDirection,
}
use vrm_rust.Workflow.Rank.Longest.{IsPath, Bounded, Attained, IsLongest, scan_deps-IsLongest}

module _ (d : Direction) (w : Workflow) (speed : ℤ) where
  -- A path over a ranked neighbour stays one.
  IsPath-Grows :
      (co co' : Dict String CoAllocation)
      → Grows d co co'
      → (dep : CoAllocationDependency) (g : CoAllocation) (t : DataDependency)
      → IsPath d w co dep g t
      → IsPath d w co' dep g t
  IsPath-Grows co co' gr dep g t path =
      let (g', e') = gr.forth (d.next dep) g path.group in
      let (g0, e0, like, keep) = gr.back (d.next dep) g' e' in
      let p : g0 ≡ g = cc (e0, path.group) in
      let q : g' ≡ g =
        keep (subst (λ (g : CoAllocation). g.is_processed ≡ true) (sym p) path.ranked) ∙ p in
      record { group = e' ∙ ap some q; ranked = path.ranked; transfer = path.transfer }

  Bounded-Grows :
      (co co' : Dict String CoAllocation) (duration rank : ℤ)
      → Grows d co co'
      → (dep : CoAllocationDependency) → Bounded d w speed co duration rank dep
      → Bounded d w speed co' duration rank dep
  Bounded-Grows co co' duration rank gr dep h g' e' =
      let (g, e, like, keep) = gr.back (d.next dep) g' e' in
      let (t, path, le) = h g e in
      let p : g ≡ g' = sym (keep path.ranked) in
      subst
        (λ g.
          (t : DataDependency) × IsPath d w co' dep g t × (through d speed duration t g ≤ℤ rank))
        p (t, IsPath-Grows co co' gr dep g t path, le)

  Any-Grows :
      (co co' : Dict String CoAllocation) (duration rank number : ℤ)
      → Grows d co co'
      → (deps : List CoAllocationDependency) → Any (Attained d w speed co duration rank number) deps
      → Any (Attained d w speed co' duration rank number) deps
  Any-Grows co co' duration rank number gr [] h = h
  Any-Grows co co' duration rank number gr (dep ∷ deps) (inl (g, t, path, a, b)) =
      inl (g, t, IsPath-Grows co co' gr dep g t path, a, b)
  Any-Grows co co' duration rank number gr (dep ∷ deps) (inr h) =
      inr (Any-Grows co co' duration rank number gr deps h)

  IsLongest-Grows :
      (co co' : Dict String CoAllocation) (duration rank number : ℤ)
      → Grows d co co'
      → (deps : List CoAllocationDependency) → IsLongest d w speed co duration deps rank number
      → IsLongest d w speed co' duration deps rank number
  IsLongest-Grows co co' duration rank number gr deps h = record {
    least = h.least;
    bounded =
        All-map (Bounded d w speed co duration rank) (Bounded d w speed co' duration rank) deps
          (Bounded-Grows co co' duration rank gr) h.bounded;
    attained = elim h.attained [
      | inl own ↦ inl own
      | inr over ↦ inr (Any-Grows co co' duration rank number gr deps over)
    ];
  }

module _ (d : Direction) (w : Workflow) (speed : ℤ) (s : Store) where
  -- The rank of a group is the length of its longest path.
  abbrev pub IsRanked : Dict String CoAllocation → CoAllocation → Type 0
  IsRanked co g =
      (v : ℤ) × (get_co_allocation_duration g w.nodes s ≡ some v)
      × IsLongest d w speed co v (d.edges g) (d.rank g) (d.number g)

  pub record IsRight (co : Dict String CoAllocation) (finished : List String) : Type 0 where
    pub ranked :
        (k : String) (g : CoAllocation)
        → Dict.get k co ≡ some g
        → g.is_processed ≡ true
        → IsRanked co g
    pub listed :
        (k : String) (g : CoAllocation)
        → Dict.get k co ≡ some g
        → g.is_processed ≡ true
        → Any (λ j. j ≡ k) finished
    pub known : All (IsRankedGroup co) finished

module _ (d : Direction) (laws : IsDirection d) (w : Workflow) (speed : ℤ) (s : Store) where
  duration_like :
      (g g' : CoAllocation)
      → IsLike d g g'
      → get_co_allocation_duration g' w.nodes s ≡ get_co_allocation_duration g w.nodes s
  unfolding get_co_allocation_duration
  duration_like g g' like = ap (λ ms. longest_of s w.nodes (pos 0) ms) like.members

  Any-append_left :
      (k : String) (xs ys : List String) → Any (λ j. j ≡ k) xs → Any (λ j. j ≡ k) (xs ++ ys)
  Any-append_left k [] ys h = elim h [ ]
  Any-append_left k (x ∷ xs) ys (inl e) = inl e
  Any-append_left k (x ∷ xs) ys (inr h) = inr (Any-append_left k xs ys h)

  Any-append_last : (k : String) (xs : List String) → Any (λ j. j ≡ k) (xs ++ (k ∷ []))
  Any-append_last k [] = inl refl
  Any-append_last k (x ∷ xs) = inr (Any-append_last k xs)

  -- The group that a round ranks.
  module _ (r : Ranking) (key : String) (rest : List String) (g0 : CoAllocation) (v : ℤ) (sc : Scan)
      (e0 : Dict.get key r.co_allocations ≡ some g0) (p0 : g0.is_processed ≡ false)
      (ev : get_co_allocation_duration g0 w.nodes s ≡ some v)
      (long : IsLongest d w speed r.co_allocations v (d.edges g0) sc.rank sc.number)
      (right : IsRight d w speed s r.co_allocations r.finished) where
    abbrev after : Dict String CoAllocation
    after = Dict.modify key (λ g. d.finish g sc.rank sc.number) r.co_allocations

    finish-IsLike : (g : CoAllocation) → IsLike d g (d.finish g sc.rank sc.number)
    finish-IsLike g = record {
      edges = laws.edges_kept g sc.rank sc.number;
      members = laws.members_kept g sc.rank sc.number;
      node = laws.node_kept g sc.rank sc.number;
      kept = laws.bare_finish g sc.rank sc.number;
    }

    grows : Grows d r.co_allocations after
    grows =
        modify-Grows d r.co_allocations key (λ g. d.finish g sc.rank sc.number) finish-IsLike
          (λ g e.
            let p : g0 ≡ g = cc (e0, e) in
            subst (λ (g : CoAllocation). g.is_processed ≡ false) p p0)

    get-after :
        (k : String) (g : CoAllocation) (b : Bool)
        → (key == k) ≡ b
        → Dict.get k after ≡ some g
        → (if b
            then map_option (λ g. d.finish g sc.rank sc.number) (Dict.get k r.co_allocations)
            else Dict.get k r.co_allocations)
          ≡ some g
    get-after k g b eb e =
        ap
          (λ b.
            if b
            then map_option (λ g. d.finish g sc.rank sc.number) (Dict.get k r.co_allocations)
            else Dict.get k r.co_allocations)
          (sym eb)
        ∙ sym (Dict.get-modify key k (λ g. d.finish g sc.rank sc.number) r.co_allocations)
        ∙ e

    own : IsRanked d w speed s after (d.finish g0 sc.rank sc.number)
    own = (
      v,
      duration_like g0 (d.finish g0 sc.rank sc.number) (finish-IsLike g0) ∙ ev,
      rw
          (
            laws.edges_kept g0 sc.rank sc.number,
            laws.rank_set g0 sc.rank sc.number,
            laws.number_set g0 sc.rank sc.number,
          )
          (IsLongest-Grows d w speed r.co_allocations after v sc.rank sc.number grows (d.edges g0)
            long),
    )

    get_own : Dict.get key after ≡ some (d.finish g0 sc.rank sc.number)
    get_own =
        Dict.get-modify key key (λ g. d.finish g sc.rank sc.number) r.co_allocations
        ∙ rw (beq_refl key) (rw e0 refl)

    -- Either the group is the new one, or it was there before.
    split :
        (k : String) (g : CoAllocation) (b : Bool)
        → (key == k) ≡ b
        → Dict.get k after ≡ some g
        → ((key ≡ k) × (d.finish g0 sc.rank sc.number ≡ g)) ⊎ (Dict.get k r.co_allocations ≡ some g)
    split k g true eb e =
        let same : key ≡ k = (string_eq.same_iff key k).0 eb in
        let ek : Dict.get k r.co_allocations ≡ some g0 =
          ap (λ k. Dict.get k r.co_allocations) (sym same) ∙ e0 in
        let e' = get-after k g true eb e in
        inl (same, cc (ap (map_option (λ g. d.finish g sc.rank sc.number)) ek, e'))
    split k g false eb e = inr (get-after k g false eb e)

    pub settle-IsRight : IsRight d w speed s after (r.finished ++ (key ∷ []))
    settle-IsRight = record {
      ranked = λ k g e p. elim (split k g (key == k) refl e) [
        | inl (same, q) ↦ subst (IsRanked d w speed s after) q own
        | inr old ↦
            let (v', ev', l) = right.ranked k g old p in
            (
              v',
              ev',
              IsLongest-Grows d w speed r.co_allocations after v' (d.rank g) (d.number g) grows
                  (d.edges g) l,
            )
      ];
      listed = λ k g e p. elim (split k g (key == k) refl e) [
        | inl (same, q) ↦
            subst (λ k. Any (λ j. j ≡ k) (r.finished ++ (key ∷ []))) same
              (Any-append_last key r.finished)
        | inr old ↦ Any-append_left k r.finished (key ∷ []) (right.listed k g old p)
      ];
      known =
          All-append (IsRankedGroup after) r.finished (key ∷ [])
            (All-map (IsRankedGroup r.co_allocations) (IsRankedGroup after) r.finished
              (IsRankedGroup-Grows d r.co_allocations after grows) right.known)
            ((d.finish g0 sc.rank sc.number, get_own, laws.marked g0 sc.rank sc.number), tt);
    }

  settle_case :
      (r : Ranking) (key : String) (rest : List String) (g0 : CoAllocation) (v : ℤ) (sc : Scan)
      (b : Bool)
      → Dict.get key r.co_allocations ≡ some g0
      → g0.is_processed ≡ false
      → get_co_allocation_duration g0 w.nodes s ≡ some v
      → (sc.waiting ≡ false → IsLongest d w speed r.co_allocations v (d.edges g0) sc.rank sc.number)
      → sc.waiting ≡ b
      → IsRight d w speed s r.co_allocations r.finished
      → IsRight d w speed s
          (settle d w speed r key rest sc b).co_allocations
          (settle d w speed r key rest sc b).finished
  unfolding settle
  settle_case r key rest g0 v sc true e0 p0 ev long eb right = right
  settle_case r key rest g0 v sc false e0 p0 ev long eb right =
      settle-IsRight r key rest g0 v sc e0 p0 ev (long eb) right

  abbrev Holds : Ranking → Type 0
  Holds r = IsRight d w speed s r.co_allocations r.finished

  known_case :
      (r r' : Ranking) (key : String) (rest : List String) (g : CoAllocation) (b : Bool)
      → Dict.get key r.co_allocations ≡ some g
      → g.is_processed ≡ b
      → rank_known d w speed s r key rest g b ≡ some r'
      → Holds r
      → Holds r'
  unfolding rank_known
  known_case r r' key rest g true e p er right =
      let q : record r { queue = rest } ≡ r' = cc in subst Holds q right
  known_case r r' key rest g false e p er right =
      let start = λ (v : ℤ).
        let t : Scan = record { rank = v; number = pos 1; waiting = false; queue = key ∷ rest } in
        t in
      let (v, ev, er1) =
        bind-some (get_co_allocation_duration g w.nodes s)
          (λ v. scan_deps d w speed r.co_allocations v (start v) (d.edges g) >>= λ sc.
            some (settle d w speed r key rest sc sc.waiting))
          r' er in
      let (sc, es, er2) =
        bind-some (scan_deps d w speed r.co_allocations v (start v) (d.edges g))
          (λ sc. some (settle d w speed r key rest sc sc.waiting)) r' er1 in
      let q : settle d w speed r key rest sc sc.waiting ≡ r' = cc in
      subst Holds q (
        settle_case r key rest g v sc sc.waiting e p ev
          (scan_deps-IsLongest d w speed r.co_allocations v (d.edges g) (key ∷ rest) sc es) refl
          right)

  group_case :
      (r r' : Ranking) (key : String) (rest : List String) (o : Option CoAllocation)
      → Dict.get key r.co_allocations ≡ o
      → rank_group d w speed s r key rest o ≡ some r'
      → Holds r
      → Holds r'
  unfolding rank_group
  group_case r r' key rest none e er right = absurd (ground arith)
  group_case r r' key rest (some g) e er right =
      known_case r r' key rest g g.is_processed e refl er right

  pub rank_loop-IsRight :
      (fuel : ℕ) (r r' : Ranking) (queue : List String)
      → rank_loop d w speed s fuel r queue ≡ some r'
      → Holds r
      → Holds r'
  unfolding rank_loop rank_round
  rank_loop-IsRight zero r r' [] e right = let q : r ≡ r' = cc in subst Holds q right
  rank_loop-IsRight (suc fuel) r r' [] e right = let q : r ≡ r' = cc in subst Holds q right
  rank_loop-IsRight zero r r' (key ∷ rest) e right = absurd (ground arith)
  rank_loop-IsRight (suc fuel) r r' (key ∷ rest) e right =
      let (r1, e1, e2) =
        bind-some (rank_round d w speed s r key rest) (λ r1. rank_loop d w speed s fuel r1 r1.queue)
          r' e in
      rank_loop-IsRight fuel r1 r' r1.queue e2
        (group_case r r1 key rest (Dict.get key r.co_allocations) refl e1 right)
