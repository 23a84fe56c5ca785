-- ===== src/Workflow/Rank/Ends/Rounds.antt =====
-- A visit to a group whose neighbours have their rank (calculate_upward_rank of
-- src/vrm/workflow/workflow.rs).
use vrm_rust.Base.{
  ℕ, zero, suc, ◌+◌, ◌*◌, ◌≤◌, ◌<◌, String, Bool, true, false, Option, none, some, List, [], ◌∷◌,
  ◌++◌, string_eq, ◌≡◌, refl, ap, sym, subst, ◌∙◌, arith, All, All-map, length, bind-value, ◌>>=◌,
}
use vrm_rust.Base.Int.{ℤ, pos}
use vrm_rust.Base.Dict
use vrm_rust.Base.Dict.{Dict}
use vrm_rust.Store.{Store}
use vrm_rust.Workflow.Types.{Workflow, CoAllocation}
use vrm_rust.Workflow.CoAllocation.{get_co_allocation_duration}
use vrm_rust.Workflow.Rank.{
  Direction, Scan, Ranking, scan_deps, settle, rank_known, rank_group, rank_round,
}
use vrm_rust.Workflow.Rank.Growth.{Grows, Grows-refl, modify-Grows, IsLike, IsSettled, IsDirection}
use vrm_rust.Workflow.Rank.Scanning.{scan_deps-Scanned}
use vrm_rust.Workflow.Rank.Ends.{IsReady, Reaches, by_round}

module _ (d : Direction) (laws : IsDirection d) (w : Workflow) (speed : ℤ) (s : Store)
    (level : String → ℕ) (most : ℕ) where
  -- The state after a visit to a group.
  abbrev pub Visited : Ranking → List String → String → List String → ℕ → Type 0
  Visited r queue key rest bound =
      (r' : Ranking) × (Reaches d laws w speed s level most) r queue r' rest bound
      × IsSettled r'.co_allocations key

  pub visit_settled :
      (r : Ranking) (key : String) (rest : List String) (g : CoAllocation)
      → Dict.get key r.co_allocations ≡ some g
      → g.is_processed ≡ true
      → Visited r (key ∷ rest) key rest 1
  unfolding rank_round rank_group rank_known
  visit_settled r key rest g e p = (
    record r { queue = rest },
    (by_round d laws w speed s level most) r (record r { queue = rest }) key rest rest
        (ap (rank_group d w speed s r key rest) e ∙ ap (rank_known d w speed s r key rest g) p) refl
        (Grows-refl d r.co_allocations),
    λ g' e'. let q : g ≡ g' = cc in subst (λ (g : CoAllocation). g.is_processed ≡ true) q p,
  )

  -- What a round computes at a group that has no rank yet.
  abbrev pub start : ℤ → List String → Scan
  start v queue = record { rank = v; number = pos 1; waiting = false; queue = queue }

  pub round_open :
      (r : Ranking) (key : String) (rest : List String) (g : CoAllocation) (v : ℤ) (sc : Scan)
      (b : Bool)
      → Dict.get key r.co_allocations ≡ some g
      → g.is_processed ≡ false
      → get_co_allocation_duration g w.nodes s ≡ some v
      → scan_deps d w speed r.co_allocations v (start v (key ∷ rest)) (d.edges g) ≡ some sc
      → sc.waiting ≡ b
      → rank_round d w speed s r key rest ≡ some (settle d w speed r key rest sc b)
  unfolding rank_round rank_group rank_known
  round_open r key rest g v sc b e p ev es eb =
      ap (rank_group d w speed s r key rest) e
      ∙ ap (rank_known d w speed s r key rest g) p
      ∙ bind-value
          (λ v. scan_deps d w speed r.co_allocations v (start v (key ∷ rest)) (d.edges g) >>= λ sc.
            some (settle d w speed r key rest sc sc.waiting))
          ev
      ∙ bind-value (λ sc. some (settle d w speed r key rest sc sc.waiting)) es
      ∙ ap (λ b. some (settle d w speed r key rest sc b)) eb

  pub finish-IsLike : (a b : ℤ) (g : CoAllocation) → IsLike d g (d.finish g a b)
  finish-IsLike a b g = record {
    edges = laws.edges_kept g a b;
    members = laws.members_kept g a b;
    node = laws.node_kept g a b;
    kept = laws.bare_finish g a b;
  }

  pub settle-Grows :
      (r : Ranking) (key : String) (rest : List String) (g : CoAllocation) (sc : Scan)
      → Dict.get key r.co_allocations ≡ some g
      → g.is_processed ≡ false
      → Grows d r.co_allocations (settle d w speed r key rest sc false).co_allocations
  unfolding settle
  settle-Grows r key rest g sc e p =
      modify-Grows d r.co_allocations key (λ g. d.finish g sc.rank sc.number)
        (finish-IsLike sc.rank sc.number)
        (λ g' e'. let q : g ≡ g' = cc in subst (λ (g : CoAllocation). g.is_processed ≡ false) q p)

  pub get-settle :
      (r : Ranking) (key : String) (rest : List String) (g : CoAllocation) (sc : Scan)
      → Dict.get key r.co_allocations ≡ some g
      → Dict.get key (settle d w speed r key rest sc false).co_allocations
        ≡ some (d.finish g sc.rank sc.number)
  unfolding settle
  get-settle r key rest g sc e =
      Dict.get-modify key key (λ g. d.finish g sc.rank sc.number) r.co_allocations
      ∙ rw (vrm_rust.Base.beq_refl key) (rw e refl)

  pub visit_ranked :
      (r : Ranking) (key : String) (rest : List String) (g : CoAllocation) (v : ℤ) (sc : Scan)
      → Dict.get key r.co_allocations ≡ some g
      → g.is_processed ≡ false
      → get_co_allocation_duration g w.nodes s ≡ some v
      → scan_deps d w speed r.co_allocations v (start v (key ∷ rest)) (d.edges g) ≡ some sc
      → sc.waiting ≡ false
      → Visited r (key ∷ rest) key rest 1
  visit_ranked r key rest g v sc e p ev es eb =
      let r' = settle d w speed r key rest sc false in
      (
        r',
        (by_round d laws w speed s level most) r r' key rest rest
            (round_open r key rest g v sc false e p ev es eb) (unfold settle in refl)
            (settle-Grows r key rest g sc e p),
        λ g' e'.
            let q : d.finish g sc.rank sc.number ≡ g' = cc (get-settle r key rest g sc e, e') in
            subst (λ (g : CoAllocation). g.is_processed ≡ true) q (laws.marked g sc.rank sc.number),
      )

  -- A group all of whose neighbours have their rank gets its own.
  pub visit_last :
      (r : Ranking) (key : String) (rest : List String) (g : CoAllocation) (b : Bool)
      → g.is_processed ≡ b
      → Dict.get key r.co_allocations ≡ some g
      → (IsReady d laws w speed s level most) r.co_allocations key g
      → All (λ dep. IsSettled r.co_allocations (d.next dep)) (d.edges g)
      → Visited r (key ∷ rest) key rest 1
  visit_last r key rest g true p e ready settled = visit_settled r key rest g e p
  visit_last r key rest g false p e ready settled =
      let (v, ev) = ready.duration in
      let (sc, pushes, es, scanned) =
        scan_deps-Scanned d w speed level r.co_allocations v (level key) (d.edges g)
          (start v (key ∷ rest)) ready.lower in
      visit_ranked r key rest g v sc e p ev es (scanned.quiet settled refl)
