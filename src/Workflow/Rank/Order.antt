-- ===== src/Workflow/Rank/Order.antt =====
-- The end of the ranking: the look-up of the groups, their order, and their representatives.
use vrm_rust.Base.{
  String, some, List, [], ◌∷◌, true, string_eq, ◌≡◌, refl, ap, ◌∙◌, ◌⊎◌, inl, inr, arith, All,
  All-map, Any, bind-value, Bool-cases, map, ◌>>=◌,
}
use vrm_rust.Base.Int.{◌≤ℤ◌, ltb_ℤ}
use vrm_rust.Base.Dict
use vrm_rust.Base.Dict.{Dict}
use vrm_rust.Workflow.Types.{WorkflowNode, CoAllocation}
use vrm_rust.Workflow.Rank.{Direction, put_in_order, sort_by_rank, look_up, unwrap_all}
use vrm_rust.Workflow.Rank.Growth.{IsRankedGroup}

module _ (d : Direction) where
  -- The largest rank comes first.
  abbrev pub IsSorted : List CoAllocation → Type 0
  IsSorted [] = Unit {0}
  IsSorted (g ∷ gs) = All (λ h. d.rank h ≤ℤ d.rank g) gs × IsSorted gs

  module _ (P : CoAllocation → Type 0) where
    put_in_order-All :
        (g : CoAllocation) (gs : List CoAllocation) → P g → All P gs → All P (put_in_order d g gs)
    unfolding put_in_order
    put_in_order-All g [] p ps = (p, tt)
    put_in_order-All g (h ∷ hs) p ps = elim (Bool-cases (ltb_ℤ (d.rank g) (d.rank h))) [
      | inl e ↦ rw e (ps.0, put_in_order-All g hs p ps.1)
      | inr e ↦ rw e (p, ps)
    ]

    pub sort_by_rank-All : (gs : List CoAllocation) → All P gs → All P (sort_by_rank d gs)
    unfolding sort_by_rank
    sort_by_rank-All [] ps = tt
    sort_by_rank-All (g ∷ gs) ps =
        put_in_order-All g (sort_by_rank d gs) ps.0 (sort_by_rank-All gs ps.1)

    put_in_order-Any :
        (g : CoAllocation) (gs : List CoAllocation) → P g ⊎ Any P gs → Any P (put_in_order d g gs)
    unfolding put_in_order
    put_in_order-Any g [] (inl p) = inl p
    put_in_order-Any g [] (inr p) = inr p
    put_in_order-Any g (h ∷ hs) (inl p) = elim (Bool-cases (ltb_ℤ (d.rank g) (d.rank h))) [
      | inl e ↦ rw e (inr (put_in_order-Any g hs (inl p)))
      | inr e ↦ rw e (inl p)
    ]
    put_in_order-Any g (h ∷ hs) (inr (inl p)) = elim (Bool-cases (ltb_ℤ (d.rank g) (d.rank h))) [
      | inl e ↦ rw e (inl p)
      | inr e ↦ rw e (inr (inl p))
    ]
    put_in_order-Any g (h ∷ hs) (inr (inr p)) = elim (Bool-cases (ltb_ℤ (d.rank g) (d.rank h))) [
      | inl e ↦ rw e (inr (put_in_order-Any g hs (inr p)))
      | inr e ↦ rw e (inr (inr p))
    ]

    pub sort_by_rank-Any : (gs : List CoAllocation) → Any P gs → Any P (sort_by_rank d gs)
    unfolding sort_by_rank
    sort_by_rank-Any [] h = elim h [ ]
    sort_by_rank-Any (g ∷ gs) (inl p) = put_in_order-Any g (sort_by_rank d gs) (inl p)
    sort_by_rank-Any (g ∷ gs) (inr p) =
        put_in_order-Any g (sort_by_rank d gs) (inr (sort_by_rank-Any gs p))

  put_in_order-IsSorted :
      (g : CoAllocation) (gs : List CoAllocation) → IsSorted gs → IsSorted (put_in_order d g gs)
  unfolding put_in_order
  put_in_order-IsSorted g [] h = (tt, tt)
  put_in_order-IsSorted g (x ∷ xs) h = elim (Bool-cases (ltb_ℤ (d.rank g) (d.rank x))) [
    | inl e ↦ rw e (
      put_in_order-All (λ y. d.rank y ≤ℤ d.rank x) g xs (ground arith) h.0,
      put_in_order-IsSorted g xs h.1,
    )
    | inr e ↦
        let le : d.rank x ≤ℤ d.rank g = ground arith in
        rw e (
          (
            le,
            All-map (λ y. d.rank y ≤ℤ d.rank x) (λ y. d.rank y ≤ℤ d.rank g) xs (λ y p. omega arith)
                h.0,
          ),
          h,
        )
  ]

  pub sort_by_rank-IsSorted : (gs : List CoAllocation) → IsSorted (sort_by_rank d gs)
  unfolding sort_by_rank
  sort_by_rank-IsSorted [] = tt
  sort_by_rank-IsSorted (g ∷ gs) =
      put_in_order-IsSorted g (sort_by_rank d gs) (sort_by_rank-IsSorted gs)

-- Every key of a group that has its rank is found.
module _ (co : Dict String CoAllocation) where
  abbrev pub IsIn : CoAllocation → Type 0
  IsIn g = (k : String) × (Dict.get k co ≡ some g) × (g.is_processed ≡ true)

  pub record LookedUp (keys : List String) (gs : List CoAllocation) : Type 0 where
    pub found : look_up co keys ≡ some gs
    pub groups : All IsIn gs
    pub complete :
        (k : String) (g : CoAllocation)
        → Dict.get k co ≡ some g
        → Any (λ j. j ≡ k) keys
        → Any (λ h. h ≡ g) gs

  pub look_up-LookedUp :
      (keys : List String)
      → All (IsRankedGroup co) keys
      → (gs : List CoAllocation) × LookedUp keys gs
  unfolding look_up
  look_up-LookedUp [] h =
      ([], record { found = refl; groups = tt; complete = λ k g e a. elim a [ ] })
  look_up-LookedUp (key ∷ keys) h =
      let (g, e, p) = h.0 in
      let (gs, rest) = look_up-LookedUp keys h.1 in
      (
        g ∷ gs,
        record {
          found =
              bind-value (λ g. look_up co keys >>= λ gs. some (g ∷ gs)) e
              ∙ bind-value (λ gs. some (g ∷ gs)) rest.found;
          groups = ((key, e, p), rest.groups);
          complete = λ k x ex a. elim a [
            | inl same ↦ inl (cc (ap (λ k. Dict.get k co) same, e, ex))
            | inr later ↦ inr (rest.complete k x ex later)
          ];
        },
      )

pub unwrap_all-total :
    (gs : List CoAllocation)
    → All (λ g. (node : WorkflowNode) × (g.representative ≡ some node)) gs
    → (nodes : List WorkflowNode) × (unwrap_all (map (λ (g : CoAllocation). g.representative) gs)
        ≡ some nodes)
      × (map some nodes ≡ map (λ (g : CoAllocation). g.representative) gs)
unfolding unwrap_all
unwrap_all-total [] h = ([], refl, refl)
unwrap_all-total (g ∷ gs) h =
    let (node, e) = h.0 in
    let (nodes, es, same) = unwrap_all-total gs h.1 in
    (
      node ∷ nodes,
      bind-value
            (λ node. unwrap_all (map (λ (g : CoAllocation). g.representative) gs) >>= λ nodes.
              some (node ∷ nodes))
            e
          ∙ bind-value (λ nodes. some (node ∷ nodes)) es,
      cc,
    )
