-- ===== src/Workflow/Rank/Ends/Visits.antt =====
-- A visit to a group, which visits the neighbours that have to go first (calculate_upward_rank of
-- src/vrm/workflow/workflow.rs).
use vrm_rust.Base.{
  ℕ, zero, suc, ◌+◌, ◌*◌, ◌≤◌, ◌<◌, String, Bool, true, false, some, List, [], ◌∷◌, ◌++◌, string_eq,
  ◌≡◌, refl, ap, sym, subst, ◌∙◌, arith, All, All-map, length,
}
use vrm_rust.Base.Int.{ℤ}
use vrm_rust.Base.Dict
use vrm_rust.Base.Dict.{Dict}
use vrm_rust.Store.{Store}
use vrm_rust.Workflow.Types.{Workflow, CoAllocation}
use vrm_rust.Workflow.CoAllocation.{get_co_allocation_duration}
use vrm_rust.Workflow.Rank.{Direction, Scan, Ranking, scan_deps, settle, rank_loop, visit_cost}
use vrm_rust.Workflow.Rank.Growth.{
  Grows, Grows-refl, IsSettled, IsGroup, IsSettled-Grows, IsDirection,
}
use vrm_rust.Workflow.Rank.Scanning.{IsLower, IsPushed, Scanned, scan_deps-Scanned}
use vrm_rust.Workflow.Rank.Ends.{
  AllReady, AllReady-Grows, Reaches, by_round, Reaches-trans, Reaches-weaken,
}
use vrm_rust.Workflow.Rank.Ends.Rounds.{
  Visited, visit_settled, start, round_open, visit_ranked, visit_last,
}

module _ (d : Direction) (laws : IsDirection d) (w : Workflow) (speed : ℤ) (s : Store)
    (level : String → ℕ) (most : ℕ) where
  -- Visits to all keys of a list, for a way to visit one.
  abbrev pub Visit : ℕ → Type 0
  Visit l =
      (r : Ranking) (key : String) (rest : List String)
      → (AllReady d laws w speed s level most) r.co_allocations
      → IsGroup r.co_allocations key
      → level key < l
      → (Visited d laws w speed s level most) r (key ∷ rest) key rest (visit_cost most l)

  abbrev pub AllVisited : Ranking → List String → List String → ℕ → Type 0
  AllVisited r keys rest bound =
      (r' : Ranking) × (Reaches d laws w speed s level most) r (keys ++ rest) r' rest bound
      × All (IsSettled r'.co_allocations) keys

  pub visit_all :
      (l : ℕ) (visit : Visit l) (keys : List String) (r : Ranking) (rest : List String)
      → r.queue ≡ keys ++ rest
      → (AllReady d laws w speed s level most) r.co_allocations
      → All (IsPushed d w level r.co_allocations l) keys
      → AllVisited r keys rest (length keys * visit_cost most l)
  visit_all l visit [] r rest q ready pushed = (
    r,
    record {
      queued = q;
      used = 0;
      within = omega arith;
      runs = λ f. let e : 0 + f ≡ f = omega arith in ap (λ n. rank_loop d w speed s n r rest) e;
      grows = Grows-refl d r.co_allocations;
    },
    tt,
  )
  visit_all l visit (key ∷ keys) r rest q ready pushed =
      let (r1, run1, settled1) = visit r key (keys ++ rest) ready pushed.0.0 pushed.0.1 in
      let (r2, run2, settled2) =
        visit_all l visit keys r1 rest run1.queued
          ((AllReady-Grows d laws w speed s level most) r.co_allocations r1.co_allocations
            run1.grows ready)
          (All-map (IsPushed d w level r.co_allocations l) (IsPushed d w level r1.co_allocations l)
            keys (λ k h. (let (g, e) = h.0 in run1.grows.forth k g e, h.1)) pushed.1) in
      (
        r2,
        (Reaches-weaken d laws w speed s level most) r r2 (key ∷ keys ++ rest) rest
            (visit_cost most l + length keys * visit_cost most l)
            (suc (length keys) * visit_cost most l) (grind arith)
            ((Reaches-trans d laws w speed s level most) r r1 r2 (key ∷ keys ++ rest) (keys ++ rest)
              rest (visit_cost most l) (length keys * visit_cost most l) run1 run2),
        (IsSettled-Grows d r1.co_allocations r2.co_allocations key run2.grows settled1, settled2),
      )

  pub cost_fits : (p n c : ℕ) → p ≤ n → n ≤ most → 1 + p * c + 1 ≤ 2 + most * c
  cost_fits p n c h k = grind arith

  -- The second visit, after those to the neighbours.
  pub visit_again :
      (r r2 : Ranking) (key : String) (rest : List String) (g : CoAllocation)
      → (AllReady d laws w speed s level most) r.co_allocations
      → Dict.get key r.co_allocations ≡ some g
      → Grows d r.co_allocations r2.co_allocations
      → All (λ dep. IsSettled r2.co_allocations (d.next dep)) (d.edges g)
      → (Visited d laws w speed s level most) r2 (key ∷ rest) key rest 1
  visit_again r r2 key rest g ready e gr settled =
      let (g2, e2) = gr.forth key g e in
      let (g0, e0, like, keep) = gr.back key g2 e2 in
      let same_g : g0 ≡ g = cc in
      (visit_last d laws w speed s level most) r2 key rest g2 g2.is_processed refl e2
        ((AllReady-Grows d laws w speed s level most) r.co_allocations r2.co_allocations gr ready
          key g2 e2)
        (subst (λ deps. All (λ dep. IsSettled r2.co_allocations (d.next dep)) deps)
          (sym (like.edges ∙ ap d.edges same_g)) settled)

  -- The visits to the neighbours and the second one, from the state `r1` after the first round.
  pub visit_rest :
      (l : ℕ) (visit : Visit l) (r r1 : Ranking) (key : String) (rest pushes : List String)
      (g : CoAllocation)
      → (AllReady d laws w speed s level most) r.co_allocations
      → Dict.get key r.co_allocations ≡ some g
      → length pushes ≤ length (d.edges g)
      → All (IsPushed d w level r1.co_allocations l) pushes
      → ((co' : Dict String CoAllocation)
          → Grows d r.co_allocations co'
          → All (IsSettled co') pushes
          → All (λ dep. IsSettled co' (d.next dep)) (d.edges g))
      → (Reaches d laws w speed s level most) r (key ∷ rest) r1 (pushes ++ key ∷ rest) 1
      → (Visited d laws w speed s level most) r (key ∷ rest) key rest (2 + most * visit_cost most l)
  visit_rest l visit r r1 key rest pushes g ready e few pushed settles run1 =
      let (r2, run2, settled2) =
        visit_all l visit pushes r1 (key ∷ rest) run1.queued
          ((AllReady-Grows d laws w speed s level most) r.co_allocations r1.co_allocations
            run1.grows ready)
          pushed in
      let run12 =
        (Reaches-trans d laws w speed s level most) r r1 r2 (key ∷ rest) (pushes ++ key ∷ rest)
          (key ∷ rest) 1 (length pushes * visit_cost most l) run1 run2 in
      let (r3, run3, settled3) =
        visit_again r r2 key rest g ready e run12.grows
          (settles r2.co_allocations run12.grows settled2) in
      (
        r3,
        (Reaches-weaken d laws w speed s level most) r r3 (key ∷ rest) rest
            (1 + length pushes * visit_cost most l + 1) (2 + most * visit_cost most l)
            (cost_fits (length pushes) (length (d.edges g)) (visit_cost most l) few
              (ready key g e).few)
            ((Reaches-trans d laws w speed s level most) r r2 r3 (key ∷ rest) (key ∷ rest) rest
              (1 + length pushes * visit_cost most l) 1 run12 run3),
        settled3,
      )

  -- The first round has pushed the neighbours that have to go first.
  pub visit_waiting :
      (l : ℕ) (visit : Visit l) (r : Ranking) (key : String) (rest : List String) (g : CoAllocation)
      (v : ℤ) (sc : Scan) (pushes : List String)
      → (AllReady d laws w speed s level most) r.co_allocations
      → Dict.get key r.co_allocations ≡ some g
      → g.is_processed ≡ false
      → get_co_allocation_duration g w.nodes s ≡ some v
      → scan_deps d w speed r.co_allocations v
          ((start d laws w speed s level most) v (key ∷ rest))
          (d.edges g)
        ≡ some sc
      → sc.waiting ≡ true
      → Scanned d w level r.co_allocations l
          ((start d laws w speed s level most) v (key ∷ rest))
          sc
          pushes
          (d.edges g)
      → (Visited d laws w speed s level most) r (key ∷ rest) key rest (2 + most * visit_cost most l)
  visit_waiting l visit r key rest g v sc pushes ready e p ev es eb scanned =
      visit_rest l visit r (record r { queue = sc.queue }) key rest pushes g ready e scanned.few
        scanned.pushed scanned.settled
        ((by_round d laws w speed s level most) r (record r { queue = sc.queue }) key rest
          (pushes ++ key ∷ rest)
          ((round_open d laws w speed s level most) r key rest g v sc true e p ev es eb
            ∙ unfold settle in refl)
          scanned.queue (Grows-refl d r.co_allocations))

  pub visit_open :
      (l : ℕ) (visit : Visit l) (r : Ranking) (key : String) (rest : List String) (g : CoAllocation)
      (v : ℤ) (sc : Scan) (pushes : List String) (b : Bool)
      → sc.waiting ≡ b
      → (AllReady d laws w speed s level most) r.co_allocations
      → Dict.get key r.co_allocations ≡ some g
      → g.is_processed ≡ false
      → get_co_allocation_duration g w.nodes s ≡ some v
      → scan_deps d w speed r.co_allocations v
          ((start d laws w speed s level most) v (key ∷ rest))
          (d.edges g)
        ≡ some sc
      → Scanned d w level r.co_allocations l
          ((start d laws w speed s level most) v (key ∷ rest))
          sc
          pushes
          (d.edges g)
      → (Visited d laws w speed s level most) r (key ∷ rest) key rest (visit_cost most (suc l))
  unfolding visit_cost
  visit_open l visit r key rest g v sc pushes true eb ready e p ev es scanned =
      visit_waiting l visit r key rest g v sc pushes ready e p ev es eb scanned
  visit_open l visit r key rest g v sc pushes false eb ready e p ev es scanned =
      let (r', run, settled) =
        (visit_ranked d laws w speed s level most) r key rest g v sc e p ev es eb in
      (
        r',
        (Reaches-weaken d laws w speed s level most) r r' (key ∷ rest) rest 1
            (2 + most * visit_cost most l) (omega arith) run,
        settled,
      )

  pub visit_key :
      (l : ℕ) (visit : Visit l) (r : Ranking) (key : String) (rest : List String) (g : CoAllocation)
      (b : Bool)
      → g.is_processed ≡ b
      → (AllReady d laws w speed s level most) r.co_allocations
      → Dict.get key r.co_allocations ≡ some g
      → level key < suc l
      → (Visited d laws w speed s level most) r (key ∷ rest) key rest (visit_cost most (suc l))
  unfolding visit_cost
  visit_key l visit r key rest g true p ready e le =
      let (r', run, settled) = (visit_settled d laws w speed s level most) r key rest g e p in
      (
        r',
        (Reaches-weaken d laws w speed s level most) r r' (key ∷ rest) rest 1
            (2 + most * visit_cost most l) (omega arith) run,
        settled,
      )
  visit_key l visit r key rest g false p ready e le =
      let (v, ev) = (ready key g e).duration in
      let (sc, pushes, es, scanned) =
        scan_deps-Scanned d w speed level r.co_allocations v l (d.edges g)
          ((start d laws w speed s level most) v (key ∷ rest))
          (All-map (IsLower d w level r.co_allocations (level key))
            (IsLower d w level r.co_allocations l) (d.edges g)
            (λ dep h. record { lower = λ x ex. omega (arith, h.lower x ex); transfer = h.transfer })
            (ready key g e).lower) in
      visit_open l visit r key rest g v sc pushes sc.waiting refl ready e p ev es scanned

  pub visit : (l : ℕ) → Visit l
  visit zero r key rest ready group le = absurd (omega arith)
  visit (suc l) r key rest ready group le =
      visit_key l (visit l) r key rest group.0 group.0.is_processed refl ready group.1 le
