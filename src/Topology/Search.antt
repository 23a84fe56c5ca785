-- ===== src/Topology/Search.antt =====
-- The search for the shortest paths (calc_k_shortest_paths of topology.rs): what a round of its loop
-- does with a path.
pub mod Found
use vrm_rust.Base.{
  ℕ, zero, suc, ◌+◌, ◌*◌, ◌-◌, ◌≤◌, ◌<◌, String, Bool, true, false, Option, none, some, List, [],
  ◌∷◌, ◌++◌, string_eq, nat_eq, ◌==◌, if◌then◌else◌, ◌>>=◌, ◌≡◌, refl, ap, subst, ◌∙◌, inl, inr,
  arith, All, All-map, All-append, length, length-append, bind-value, Bool-cases, leb, nat_beq,
  unwrap_or,
}
use vrm_rust.Base.Dict
use vrm_rust.Base.Dict.{Dict}
use vrm_rust.Base.HashSet
use vrm_rust.Base.HashSet.{Distinct}
use vrm_rust.Resource
use vrm_rust.Resource.{ResourceStore, LinkPath}
use vrm_rust.Topology.{
  NetworkTopology, k_number_of_paths, visits, extend, expand, end_of, search_paths, first_paths,
  path_cost, path_fuel, find_paths,
}
use vrm_rust.Topology.Paths.{
  Walk, In, Walk-append_one, last-Walk, visits-total, fresh_link, Distinct-append_one,
  length-le_of_Distinct,
}

-- What the construction of the network makes sure of: a router's links leave it, and the store knows
-- every link.
pub record IsNetwork (s : ResourceStore) (link_ids : List ℕ) (adjacency : Dict String (List ℕ))
    : Type 0 where
  pub leaves :
      (r : String) (outs : List ℕ)
      → Dict.get r adjacency ≡ some outs
      → Distinct outs × All (λ l. In link_ids l × (Resource.get_source s l ≡ some r)) outs
  pub known : (l : ℕ) → In link_ids l → (t : String) × (Resource.get_target s l ≡ some t)

-- A path from `a` to `b` that has a link, and none twice.
pub record IsRoute (s : ResourceStore) (link_ids : List ℕ) (a b : String) (path : LinkPath)
    : Type 0 where
  pub walk : Walk s a path b
  pub distinct : Distinct path
  pub inside : All (In link_ids) path
  pub not_empty : 0 < length path

module _ (s : ResourceStore) (link_ids : List ℕ) (adjacency : Dict String (List ℕ))
    (net : IsNetwork s link_ids adjacency) (a : String) where
  abbrev pub Leads : LinkPath → Type 0
  Leads path = (b : String) × IsRoute s link_ids a b path

  -- The new paths are a link longer, and no more than the links that leave the router.
  record Extended (path : LinkPath) (outs : List ℕ) (new_paths : List LinkPath) : Type 0 where
    leads : All Leads new_paths
    longer : All (λ p. length p ≡ suc (length path)) new_paths
    few : length new_paths ≤ length outs

  IsRoute-on :
      (b t : String) (path : LinkPath) (l : ℕ)
      → IsRoute s link_ids a b path
      → In link_ids l
      → Resource.get_source s l ≡ some b
      → Resource.get_target s l ≡ some t
      → visits s t path ≡ some false
      → IsRoute s link_ids a t (path ++ (l ∷ []))
  IsRoute-on b t path l r i es et no_loop = record {
    walk = Walk-append_one s a b t path l r.walk es et;
    distinct =
        Distinct-append_one l path r.distinct (fresh_link s l a b t path r.walk es et no_loop);
    inside = All-append (In link_ids) path (l ∷ []) r.inside (i, tt);
    not_empty = omega (arith, length-append path (l ∷ []));
  }

  extend_one :
      (b t : String) (path : LinkPath) (l : ℕ) (outs : List ℕ) (rest : List LinkPath) (v : Bool)
      → IsRoute s link_ids a b path
      → In link_ids l
      → Resource.get_source s l ≡ some b
      → Resource.get_target s l ≡ some t
      → visits s t path ≡ some v
      → Extended path outs rest
      → Extended path (l ∷ outs) (if v then rest else (path ++ (l ∷ [])) ∷ rest)
  extend_one b t path l outs rest true r i es et ev x = record {
    leads = x.leads;
    longer = x.longer;
    few = omega (arith, x.few);
  }
  extend_one b t path l outs rest false r i es et ev x = record {
    leads = ((t, IsRoute-on b t path l r i es et ev), x.leads);
    longer = (omega (arith, length-append path (l ∷ [])), x.longer);
    few = omega (arith, x.few);
  }

  extend-Extended :
      (b : String) (path : LinkPath) (outs : List ℕ)
      → IsRoute s link_ids a b path
      → All (λ l. In link_ids l × (Resource.get_source s l ≡ some b)) outs
      → (new_paths : List LinkPath) × (extend s path outs ≡ some new_paths)
        × Extended path outs new_paths
  unfolding extend
  extend-Extended b path [] r h = ([], refl, record { leads = tt; longer = tt; few = omega arith })
  extend-Extended b path (l ∷ outs) r h =
      let (t, et) = net.known l h.0.0 in
      let (v, ev) = visits-total s t a b path r.walk in
      let (rest, er, x) = extend-Extended b path outs r h.1 in
      (
        if v then rest else (path ++ (l ∷ [])) ∷ rest,
        bind-value
              (λ t. visits s t path >>= λ is_loop. extend s path outs >>= λ rest.
                some (if is_loop then rest else (path ++ (l ∷ [])) ∷ rest))
              et
            ∙ bind-value
                (λ is_loop. extend s path outs >>= λ rest.
                  some (if is_loop then rest else (path ++ (l ∷ [])) ∷ rest))
                ev
            ∙ bind-value (λ rest. some (if v then rest else (path ++ (l ∷ [])) ∷ rest)) er,
        extend_one b t path l outs rest v r h.0.0 h.0.1 et ev x,
      )

  abbrev pub links : ℕ
  links = length link_ids

  -- What a path is worth in rounds.
  abbrev pub weight : LinkPath → ℕ
  weight path = path_cost links (suc links - length path)

  pub work : List LinkPath → ℕ
  work [] = 0
  work (p ∷ ps) = weight p + work ps

  pub work-append : (ps qs : List LinkPath) → work (ps ++ qs) ≡ work ps + work qs
  unfolding work
  work-append [] qs = omega arith
  work-append (p ∷ ps) qs = omega (arith, work-append ps qs)

  work_longer :
      (n : ℕ) (ps : List LinkPath)
      → All (λ p. length p ≡ n) ps
      → work ps ≡ length ps * path_cost links (suc links - n)
  unfolding work
  work_longer n [] h = omega arith
  work_longer n (p ∷ ps) h =
      let e : weight p ≡ path_cost links (suc links - n) =
        ap (λ n. path_cost links (suc links - n)) h.0 in
      let ih = work_longer n ps h.1 in grind (arith, e, ih)

  cost_step :
      (n : ℕ)
      → n < suc links
      → path_cost links (suc links - n) ≡ 1 + links * path_cost links (suc links - suc n)
  unfolding path_cost
  cost_step n h = let e : suc links - n ≡ suc (suc links - suc n) = omega arith in rw e refl

  route_short : (b : String) (path : LinkPath) → IsRoute s link_ids a b path → length path ≤ links
  route_short b path r = length-le_of_Distinct path link_ids r.distinct r.inside

  pub weight_pos : (path : LinkPath) → 0 < weight path
  weight_pos path = cost_pos (suc links - length path)
    where
      cost_pos : (n : ℕ) → 0 < path_cost links n
      cost_pos zero = unfold path_cost in omega arith
      cost_pos (suc n) = unfold path_cost in omega arith

  -- A path that goes on is worth one round more than its extensions.
  work_falls :
      (b : String) (path : LinkPath) (outs : List ℕ) (new_paths : List LinkPath)
      → IsRoute s link_ids a b path
      → length outs ≤ links
      → Extended path outs new_paths
      → suc (work new_paths) ≤ weight path
  work_falls b path outs new_paths r few x =
      let short = route_short b path r in
      let step = cost_step (length path) (omega arith) in
      let total = work_longer (suc (length path)) new_paths x.longer in
      times (length new_paths) links (path_cost links (suc links - suc (length path)))
        (work new_paths) (weight path) (omega (arith, x.few)) total step
    where
      times : (n m c k w : ℕ) → n ≤ m → k ≡ n * c → w ≡ 1 + m * c → suc k ≤ w
      times n m c k w h ek ew = grind (arith, ek, ew, h)

  All-In :
      (xs : List ℕ) (x : ℕ)
      → All (In link_ids) xs
      → HashSet.contains x xs ≡ true
      → HashSet.contains x link_ids ≡ true
  unfolding HashSet.contains
  All-In [] x h m = absurd (cc)
  All-In (y ∷ ys) x h m = elim (Bool-cases (nat_beq y x)) [
    | inl e ↦ let p : x ≡ y = ground arith in ap (λ x. HashSet.contains x link_ids) p ∙ h.0
    | inr e ↦ All-In ys x h.1 (ground (arith, m))
  ]

  pub end_of-route :
      (goal b : String) (path : LinkPath)
      → IsRoute s link_ids a b path
      → end_of s link_ids adjacency goal path ≡ some b
  unfolding end_of
  end_of-route goal b [] r = absurd (omega (arith, r.not_empty))
  end_of-route goal b (l ∷ ls) r =
      let (x, ex, et, member) = last-Walk s a b l ls r.walk in
      bind-value (λ id. if HashSet.contains id link_ids then Resource.get_target s id else none) ex
      ∙ rw (All-In (l ∷ ls) x r.inside member) et

  -- What a router's outgoing links add to the queue.
  abbrev Expanded : LinkPath → Option (List LinkPath) → Type 0
  Expanded path o =
      (new_paths : List LinkPath) × (o ≡ some new_paths)
      × All Leads new_paths
      × (suc (work new_paths) ≤ weight path)

  pub expand-Expanded :
      (goal b : String) (path : LinkPath) (o : Option (List ℕ))
      → IsRoute s link_ids a b path
      → Dict.get b adjacency ≡ o
      → Expanded path (expand s link_ids adjacency goal path b o)
  unfolding expand work
  expand-Expanded goal b path none r e = ([], refl, tt, omega (arith, weight_pos path))
  expand-Expanded goal b path (some outs) r e =
      let (distinct, out) = net.leaves b outs e in
      let (new_paths, en, x) = extend-Extended b path outs r out in
      let few = length-le_of_Distinct outs link_ids distinct (
        All-map (λ l. In link_ids l × (Resource.get_source s l ≡ some b)) (In link_ids) outs
          (λ l h. h.0) out) in
      (new_paths, en, x.leads, work_falls b path outs new_paths r few x)
