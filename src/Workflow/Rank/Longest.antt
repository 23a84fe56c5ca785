-- ===== src/Workflow/Rank/Longest.antt =====
-- What the `for` loop over the dependencies of a group computes: the longest of the paths that go on
-- over its neighbours, when none of these has to go first.
use vrm_rust.Base.{
  String, Bool, true, false, Option, none, some, List, [], ◌∷◌, string_eq, ◌≡◌, refl, sym, subst,
  ◌∙◌, ◌⊎◌, inl, inr, arith, All, All-map, Any, All-Any, bind-some, Bool-cases,
}
use vrm_rust.Base.Int.{ℤ, pos, ◌≤ℤ◌, ltb_ℤ}
use vrm_rust.Base.I64.{◌+i◌}
use vrm_rust.Base.Dict
use vrm_rust.Base.Dict.{Dict}
use vrm_rust.Workflow.Types.{Workflow, CoAllocation, CoAllocationDependency, DataDependency}
use vrm_rust.Workflow.Rank.{
  Direction, Scan, through, improve, scan_ranked, scan_neighbour, scan_group, scan_deps,
}

module _ (d : Direction) (w : Workflow) (co : Dict String CoAllocation) where
  -- The path over a neighbour, `g` as a group and `data` as the transfer.
  pub record IsPath (dep : CoAllocationDependency) (g : CoAllocation) (data_dep : DataDependency)
      : Type 0 where
    pub group : Dict.get (d.next dep) co ≡ some g
    pub ranked : g.is_processed ≡ true
    pub transfer : Dict.get dep.data_dependency w.data_dependencies ≡ some data_dep

module _ (d : Direction) (w : Workflow) (speed : ℤ) (co : Dict String CoAllocation)
    (duration : ℤ) where
  -- A neighbour that is a group has its rank, and the path over it is no longer than `rank`.
  abbrev pub Bounded : ℤ → CoAllocationDependency → Type 0
  Bounded rank dep =
      (g : CoAllocation)
      → Dict.get (d.next dep) co ≡ some g
      → (t : DataDependency) × IsPath d w co dep g t × (through d speed duration t g ≤ℤ rank)

  abbrev pub Attained : ℤ → ℤ → CoAllocationDependency → Type 0
  Attained rank number dep =
      (g : CoAllocation) × (t : DataDependency) × IsPath d w co dep g t
      × (rank ≡ through d speed duration t g)
      × (number ≡ d.number g +i pos 1)

  -- The rank is the length of the longest path, and `number` counts the groups on it.
  pub record IsLongest (deps : List CoAllocationDependency) (rank number : ℤ) : Type 0 where
    pub least : duration ≤ℤ rank
    pub bounded : All (Bounded rank) deps
    pub attained : ((rank ≡ duration) × (number ≡ pos 1)) ⊎ Any (Attained rank number) deps

  improve-bounds :
      (sc : Scan) (possible : ℤ) (g : CoAllocation)
      → (sc.rank ≤ℤ (improve d sc possible g).rank)
        × (possible ≤ℤ (improve d sc possible g).rank)
        × ((improve d sc possible g).waiting ≡ sc.waiting)
  unfolding improve
  improve-bounds sc possible g = ground arith

  scan_ranked-bounded :
      (sc sc' : Scan) (dep : CoAllocationDependency) (g : CoAllocation) (o : Option DataDependency)
      → Dict.get (d.next dep) co ≡ some g
      → g.is_processed ≡ true
      → Dict.get dep.data_dependency w.data_dependencies ≡ o
      → scan_ranked d speed duration sc g o ≡ some sc'
      → (sc'.waiting ≡ sc.waiting)
        × (sc.rank ≤ℤ sc'.rank)
        × ((t : DataDependency) × IsPath d w co dep g t
            × (through d speed duration t g ≤ℤ sc'.rank))
  unfolding scan_ranked
  scan_ranked-bounded sc sc' dep g none eg eb ed e = absurd (ground arith)
  scan_ranked-bounded sc sc' dep g (some t) eg eb ed e =
      let h = improve-bounds sc (through d speed duration t g) g in
      let p : improve d sc (through d speed duration t g) g ≡ sc' = cc in
      subst
        (λ sc'.
          (sc'.waiting ≡ sc.waiting)
          × (sc.rank ≤ℤ sc'.rank)
          × ((t : DataDependency) × IsPath d w co dep g t
              × (through d speed duration t g ≤ℤ sc'.rank)))
        p (h.2, h.0, (t, record { group = eg; ranked = eb; transfer = ed }, h.1))

  scan_found-bounded :
      (sc sc' : Scan) (dep : CoAllocationDependency) (g : CoAllocation) (b : Bool)
      → g.is_processed ≡ b
      → Dict.get (d.next dep) co ≡ some g
      → scan_neighbour d w speed duration sc dep g b ≡ some sc'
      → sc'.waiting ≡ false
      → (sc.waiting ≡ false)
        × (sc.rank ≤ℤ sc'.rank)
        × ((t : DataDependency) × IsPath d w co dep g t
            × (through d speed duration t g ≤ℤ sc'.rank))
  unfolding scan_neighbour
  scan_found-bounded sc sc' dep g true eb eg e nw =
      let h =
        scan_ranked-bounded sc sc' dep g (Dict.get dep.data_dependency w.data_dependencies) eg eb
          refl e in
      (sym h.0 ∙ nw, h.1, h.2)
  scan_found-bounded sc sc' dep g false eb eg e nw = absurd (ground arith)

  scan_group-Bounded :
      (sc sc' : Scan) (dep : CoAllocationDependency) (o : Option CoAllocation)
      → Dict.get (d.next dep) co ≡ o
      → scan_group d w speed duration sc dep o ≡ some sc'
      → sc'.waiting ≡ false
      → (sc.waiting ≡ false) × (sc.rank ≤ℤ sc'.rank) × Bounded sc'.rank dep
  unfolding scan_group
  scan_group-Bounded sc sc' dep none eo e nw = (ground arith, ground arith, λ g eg. absurd (cc))
  scan_group-Bounded sc sc' dep (some g) eo e nw =
      let h = scan_found-bounded sc sc' dep g g.is_processed refl eo e nw in
      (
        h.0,
        h.1,
        λ g' eg'.
            let p : g ≡ g' = cc in
            subst
              (λ g.
                (t : DataDependency) × IsPath d w co dep g t
                × (through d speed duration t g ≤ℤ sc'.rank))
              p h.2,
      )

  Bounded-mono : (m n : ℤ) → m ≤ℤ n → (dep : CoAllocationDependency) → Bounded m dep → Bounded n dep
  Bounded-mono m n le dep h g eg = let (t, path, q) = h g eg in (t, path, omega arith)

  pub scan_deps-Bounded :
      (deps : List CoAllocationDependency) (sc sc' : Scan)
      → scan_deps d w speed co duration sc deps ≡ some sc'
      → sc'.waiting ≡ false
      → (sc.waiting ≡ false) × (sc.rank ≤ℤ sc'.rank) × All (Bounded sc'.rank) deps
  unfolding scan_deps
  scan_deps-Bounded [] sc sc' e nw = (ground arith, ground arith, tt)
  scan_deps-Bounded (dep ∷ deps) sc sc' e nw =
      let (sc1, e1, e2) =
        bind-some (scan_group d w speed duration sc dep (Dict.get (d.next dep) co))
          (λ s. scan_deps d w speed co duration s deps) sc' e in
      let (nw1, le1, bs) = scan_deps-Bounded deps sc1 sc' e2 nw in
      let (nw0, le0, b) = scan_group-Bounded sc sc1 dep (Dict.get (d.next dep) co) refl e1 nw1 in
      (nw0, omega arith, (Bounded-mono sc1.rank sc'.rank le1 dep b, bs))

  -- A property of a rank and a number that every path over a neighbour has.
  module _ (P : ℤ → ℤ → Type 0) where
    abbrev Gives : CoAllocationDependency → Type 0
    Gives dep =
        (g : CoAllocation) (t : DataDependency)
        → IsPath d w co dep g t
        → P (through d speed duration t g) (d.number g +i pos 1)

    improve-keeps :
        (sc : Scan) (possible : ℤ) (g : CoAllocation)
        → P possible (d.number g +i pos 1)
        → P sc.rank sc.number
        → P (improve d sc possible g).rank (improve d sc possible g).number
    unfolding improve
    improve-keeps sc possible g new old = elim (Bool-cases (ltb_ℤ sc.rank possible)) [
      | inl e ↦ rw e new
      | inr e ↦ rw e old
    ]

    scan_ranked-keeps :
        (sc sc' : Scan) (dep : CoAllocationDependency) (g : CoAllocation)
        (o : Option DataDependency)
        → Dict.get (d.next dep) co ≡ some g
        → g.is_processed ≡ true
        → Dict.get dep.data_dependency w.data_dependencies ≡ o
        → Gives dep
        → P sc.rank sc.number
        → scan_ranked d speed duration sc g o ≡ some sc'
        → P sc'.rank sc'.number
    unfolding scan_ranked
    scan_ranked-keeps sc sc' dep g none eg eb ed gives old e = absurd (ground arith)
    scan_ranked-keeps sc sc' dep g (some t) eg eb ed gives old e =
        let p : improve d sc (through d speed duration t g) g ≡ sc' = cc in
        subst (λ sc. P sc.rank sc.number) p
          (improve-keeps sc (through d speed duration t g) g
            (gives g t (record { group = eg; ranked = eb; transfer = ed })) old)

    scan_found-keeps :
        (sc sc' : Scan) (dep : CoAllocationDependency) (g : CoAllocation) (b : Bool)
        → g.is_processed ≡ b
        → Dict.get (d.next dep) co ≡ some g
        → Gives dep
        → P sc.rank sc.number
        → scan_neighbour d w speed duration sc dep g b ≡ some sc'
        → P sc'.rank sc'.number
    unfolding scan_neighbour
    scan_found-keeps sc sc' dep g true eb eg gives old e =
        scan_ranked-keeps sc sc' dep g (Dict.get dep.data_dependency w.data_dependencies) eg eb refl
          gives old e
    scan_found-keeps sc sc' dep g false eb eg gives old e =
        let p : record sc { waiting = true; queue = d.next dep ∷ sc.queue } ≡ sc' = cc in
        subst (λ sc. P sc.rank sc.number) p old

    scan_group-keeps :
        (sc sc' : Scan) (dep : CoAllocationDependency) (o : Option CoAllocation)
        → Dict.get (d.next dep) co ≡ o
        → Gives dep
        → P sc.rank sc.number
        → scan_group d w speed duration sc dep o ≡ some sc'
        → P sc'.rank sc'.number
    unfolding scan_group
    scan_group-keeps sc sc' dep none eo gives old e =
        let p : sc ≡ sc' = cc in subst (λ sc. P sc.rank sc.number) p old
    scan_group-keeps sc sc' dep (some g) eo gives old e =
        scan_found-keeps sc sc' dep g g.is_processed refl eo gives old e

    scan_deps-keeps :
        (deps : List CoAllocationDependency) (sc sc' : Scan)
        → All Gives deps
        → P sc.rank sc.number
        → scan_deps d w speed co duration sc deps ≡ some sc'
        → P sc'.rank sc'.number
    unfolding scan_deps
    scan_deps-keeps [] sc sc' gives old e =
        let p : sc ≡ sc' = cc in subst (λ sc. P sc.rank sc.number) p old
    scan_deps-keeps (dep ∷ deps) sc sc' gives old e =
        let (sc1, e1, e2) =
          bind-some (scan_group d w speed duration sc dep (Dict.get (d.next dep) co))
            (λ s. scan_deps d w speed co duration s deps) sc' e in
        scan_deps-keeps deps sc1 sc' gives.1
          (scan_group-keeps sc sc1 dep (Dict.get (d.next dep) co) refl gives.0 old e1) e2

  gives :
      (deps : List CoAllocationDependency)
      → All
          (Gives (λ rank number.
            ((rank ≡ duration) × (number ≡ pos 1)) ⊎ Any (Attained rank number) deps))
          deps
  gives deps =
      All-map (λ dep. (P : CoAllocationDependency → Type 0) → P dep → Any P deps)
        (Gives
          (λ rank number. ((rank ≡ duration) × (number ≡ pos 1)) ⊎ Any (Attained rank number) deps))
        deps
        (λ dep f g t path. inr (
          f (Attained (through d speed duration t g) (d.number g +i pos 1))
            (g, t, path, refl, refl)))
        (All-Any deps)

  -- When no neighbour has to go first, the loop gives the longest path.
  pub scan_deps-IsLongest :
      (deps : List CoAllocationDependency) (queue : List String) (sc : Scan)
      → scan_deps d w speed co duration
          (record { rank = duration; number = pos 1; waiting = false; queue = queue })
          deps
        ≡ some sc
      → sc.waiting ≡ false
      → IsLongest deps sc.rank sc.number
  scan_deps-IsLongest deps queue sc e nw =
      let start : Scan = record {
        rank = duration;
        number = pos 1;
        waiting = false;
        queue = queue;
      } in
      let bounds = scan_deps-Bounded deps start sc e nw in
      record {
        least = bounds.1;
        bounded = bounds.2;
        attained =
            scan_deps-keeps
              (λ rank number.
                ((rank ≡ duration) × (number ≡ pos 1)) ⊎ Any (Attained rank number) deps)
              deps start sc (gives deps) (inl (refl, refl)) e;
      }
