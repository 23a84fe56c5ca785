-- ===== src/Topology/Search/Found.antt =====
-- The loop of the search for the shortest paths (calc_k_shortest_paths of topology.rs).
use vrm_rust.Base.{
  ℕ, zero, suc, ◌*◌, ◌-◌, ◌≤◌, ◌<◌, String, Bool, true, false, Option, none, some, List, [], ◌∷◌,
  ◌++◌, string_eq, nat_eq, ◌==◌, if◌then◌else◌, ◌>>=◌, ◌≡◌, refl, ap, subst, ◌∙◌, inl, inr, arith,
  All, All-append, length, length-append, bind-value, Bool-cases, leb, unwrap_or,
}
use vrm_rust.Base.Dict
use vrm_rust.Base.Dict.{Dict}
use vrm_rust.Base.HashSet
use vrm_rust.Base.HashSet.{Distinct}
use vrm_rust.Resource
use vrm_rust.Resource.{ResourceStore, LinkPath}
use vrm_rust.Topology.{
  NetworkTopology, k_number_of_paths, expand, search_paths, first_paths, path_cost, path_fuel,
  find_paths,
}
use vrm_rust.Topology.Paths.{In}
use vrm_rust.Topology.Search.{
  IsNetwork, IsRoute, Leads, weight, work, work-append, weight_pos, end_of-route, expand-Expanded,
}

module _ (s : ResourceStore) (link_ids : List ℕ) (adjacency : Dict String (List ℕ))
    (net : IsNetwork s link_ids adjacency) (a : String) where
  -- What the search gives.
  abbrev pub Found : String → Option (List LinkPath) → Type 0
  Found goal o =
      (paths : List LinkPath) × (o ≡ some paths)
      × All (IsRoute s link_ids a goal) paths
      × (length paths ≤ k_number_of_paths)

  round_goal :
      (goal : String) (fuel : ℕ) (path : LinkPath) (queue found : List LinkPath) (b : Bool)
      → leb k_number_of_paths (length (found ++ (path ∷ []))) ≡ b
      → IsRoute s link_ids a goal path
      → All (IsRoute s link_ids a goal) found
      → length found < k_number_of_paths
      → (length (found ++ (path ∷ [])) < k_number_of_paths
          → Found goal (search_paths s link_ids adjacency goal fuel queue (found ++ (path ∷ []))))
      → Found goal (
          if b
          then some (found ++ (path ∷ []))
          else search_paths s link_ids adjacency goal fuel queue (found ++ (path ∷ [])))
  round_goal goal fuel path queue found true eb r h lt later = (
    found ++ (path ∷ []),
    refl,
    All-append (IsRoute s link_ids a goal) found (path ∷ []) h (r, tt),
    omega (arith, length-append found (path ∷ [])),
  )
  round_goal goal fuel path queue found false eb r h lt later = later (ground (arith, eb))

  search_paths-Found :
      (goal : String) (fuel : ℕ) (queue found : List LinkPath)
      → All (Leads s link_ids adjacency net a) queue
      → All (IsRoute s link_ids a goal) found
      → length found < k_number_of_paths
      → (work s link_ids adjacency net a) queue ≤ fuel
      → Found goal (search_paths s link_ids adjacency goal fuel queue found)
  unfolding search_paths work
  search_paths-Found goal zero [] found hq hf lt le = (found, refl, hf, omega arith)
  search_paths-Found goal (suc fuel) [] found hq hf lt le = (found, refl, hf, omega arith)
  search_paths-Found goal zero (path ∷ queue) found hq hf lt le =
      absurd (omega (arith, (weight_pos s link_ids adjacency net a) path))
  search_paths-Found goal (suc fuel) (path ∷ queue) found hq hf lt le =
      let (b, r) = hq.0 in
      let (new_paths, en, leads, falls) =
        (expand-Expanded s link_ids adjacency net a) goal b path (Dict.get b adjacency) r refl in
      let round = λ (t : String).
        if t == goal
        then (if leb k_number_of_paths (length (found ++ (path ∷ [])))
            then some (found ++ (path ∷ []))
            else search_paths s link_ids adjacency goal fuel queue (found ++ (path ∷ [])))
        else (expand s link_ids adjacency goal path t (Dict.get t adjacency) >>= λ new_paths.
            search_paths s link_ids adjacency goal fuel (queue ++ new_paths) found) in
      let start = bind-value round ((end_of-route s link_ids adjacency net a) goal b path r) in
      elim (Bool-cases (b == goal)) [
        | inl t ↦
            let same : b ≡ goal = (string_eq.same_iff b goal).0 t in
            let (paths, e, routes, ten) =
              round_goal goal fuel path queue found
                (leb k_number_of_paths (length (found ++ (path ∷ [])))) refl
                (subst (λ b. IsRoute s link_ids a b path) same r) hf lt
                (λ more.
                  search_paths-Found goal fuel queue (found ++ (path ∷ [])) hq.1
                    (All-append (IsRoute s link_ids a goal) found (path ∷ []) hf
                      (subst (λ b. IsRoute s link_ids a b path) same r, tt))
                    more (omega (arith, (weight_pos s link_ids adjacency net a) path))) in
            (paths, start ∙ rw t e, routes, ten)
        | inr f ↦
            let (paths, e, routes, ten) =
              search_paths-Found goal fuel (queue ++ new_paths) found
                (All-append (Leads s link_ids adjacency net a) queue new_paths hq.1 leads) hf lt
                (omega (arith, (work-append s link_ids adjacency net a) queue new_paths, falls)) in
            (
              paths,
              start
                  ∙ rw f (
                      bind-value
                        (λ new_paths.
                          search_paths s link_ids adjacency goal fuel (queue ++ new_paths) found)
                        en
                      ∙ e),
              routes,
              ten,
            )
      ]

  first-Leads :
      (outs : List ℕ)
      → All (λ l. In link_ids l × (Resource.get_source s l ≡ some a)) outs
      → All (Leads s link_ids adjacency net a) (first_paths link_ids outs)
        × ((work s link_ids adjacency net a) (first_paths link_ids outs)
            ≡ length (first_paths link_ids outs) * path_cost (length link_ids) (length link_ids))
  unfolding first_paths work HashSet.contains
  first-Leads [] h = (tt, omega arith)
  first-Leads (l ∷ ls) h =
      let (t, et) = net.known l h.0.0 in
      let (leads, total) = first-Leads ls h.1 in
      let one : suc (length link_ids) - 1 ≡ length link_ids = omega arith in
      let e : (weight s link_ids adjacency net a) (l ∷ [])
          ≡ path_cost (length link_ids) (length link_ids) =
        ap (path_cost (length link_ids)) one in
      rw h.0.0 (
        (
          (
            t,
            record {
              walk = (h.0.1, (t, et, refl));
              distinct = (refl, tt);
              inside = (h.0.0, tt);
              not_empty = omega arith;
            },
          ),
          leads,
        ),
        grind (arith, e, total),
      )

  first_all :
      (o : Option (List ℕ))
      → Dict.get a adjacency ≡ o
      → All (λ l. In link_ids l × (Resource.get_source s l ≡ some a)) (unwrap_or o [])
  first_all none e = tt
  first_all (some outs) e = (net.leaves a outs e).1

-- The search for paths ends on the fuel that it gets and finds at most ten, each a path of links
-- from the source to the target without a link twice, where every router's adjacency list has only
-- known links that leave that router, each once, and the store knows where every link leads.
pub find_paths-IsRoute :
    (s : ResourceStore) (t : NetworkTopology) (source target : String)
    → IsNetwork s t.link_ids t.adjacency
    → (paths : List LinkPath) × (find_paths s t source target ≡ some paths)
      × All (IsRoute s t.link_ids source target) paths
      × (length paths ≤ k_number_of_paths)
unfolding find_paths path_fuel
find_paths-IsRoute s t source target net =
    let outs = unwrap_or (Dict.get source t.adjacency) [] in
    let (leads, total) =
      first-Leads s t.link_ids t.adjacency net source outs
        (first_all s t.link_ids t.adjacency net source (Dict.get source t.adjacency) refl) in
    search_paths-Found s t.link_ids t.adjacency net source target
      (length (first_paths t.link_ids outs) * path_cost (length t.link_ids) (length t.link_ids))
      (first_paths t.link_ids outs) [] leads tt (omega arith) (omega (arith, total))
