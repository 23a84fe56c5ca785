-- ===== src/Topology/Adjacency.antt =====
-- The construction of the adjacency lists (setup_adjacency_matrix of topology.rs).
use vrm_rust.Base.{
  ℕ, String, Bool, true, false, Option, none, some, List, [], ◌∷◌, string_eq, nat_eq, ◌==◌, ◌||◌,
  if◌then◌else◌, ◌>>=◌, ◌≡◌, refl, ap, sym, subst, ◌∙◌, inl, inr, arith, All, All-map, bind-some,
  bind-value, Bool-cases, nat_beq, is_some, unwrap_or,
}
use vrm_rust.Base.Dict
use vrm_rust.Base.Dict.{Dict}
use vrm_rust.Base.HashSet
use vrm_rust.Base.HashSet.{Distinct, insert-Distinct}
use vrm_rust.Resource
use vrm_rust.Resource.{ResourceStore}
use vrm_rust.Topology.{Router, setup_adjacency_matrix}
use vrm_rust.Topology.Paths.{In}
use vrm_rust.Topology.Search.{IsNetwork}

All-In_self : (xs : List ℕ) → All (In xs) xs
unfolding HashSet.contains
All-In_self [] = tt
All-In_self (x ∷ xs) = (
  rw (vrm_rust.Base.beq_refl x) refl,
  All-map (In xs) (In (x ∷ xs)) xs (λ y h. ground (arith, h)) (All-In_self xs),
)

module _ (s : ResourceStore) (link_ids : List ℕ) where
  abbrev Leaves : String → ℕ → Type 0
  Leaves r l = In link_ids l × (Resource.get_source s l ≡ some r)

  abbrev IsLeft : Dict String (List ℕ) → Type 0
  IsLeft adjacency =
      (r : String) (outs : List ℕ)
      → Dict.get r adjacency ≡ some outs
      → Distinct outs × All (Leaves r) outs

  insert-All :
      (P : ℕ → Type 0) (x : ℕ) (xs : List ℕ) → P x → All P xs → All P (HashSet.insert x xs).0
  unfolding HashSet.insert
  insert-All P x xs p h = elim (Bool-cases (HashSet.contains x xs)) [
    | inl e ↦ rw e h
    | inr e ↦ rw e (p, h)
  ]

  old_outs :
      (adjacency : Dict String (List ℕ)) (r : String) (o : Option (List ℕ))
      → IsLeft adjacency
      → Dict.get r adjacency ≡ o
      → Distinct (unwrap_or o []) × All (Leaves r) (unwrap_or o [])
  old_outs adjacency r none h e = (tt, tt)
  old_outs adjacency r (some outs) h e = h r outs e

  insert_at :
      (adjacency : Dict String (List ℕ)) (source r : String) (l : ℕ) (outs : List ℕ) (b : Bool)
      → IsLeft adjacency
      → Leaves source l
      → (source == r) ≡ b
      → (if b
          then some (HashSet.insert l (unwrap_or (Dict.get source adjacency) [])).0
          else Dict.get r adjacency)
        ≡ some outs
      → Distinct outs × All (Leaves r) outs
  insert_at adjacency source r l outs true h new_link eb e =
      let same : source ≡ r = (string_eq.same_iff source r).0 eb in
      let old = old_outs adjacency source (Dict.get source adjacency) h refl in
      let before = unwrap_or (Dict.get source adjacency) [] in
      let q : (HashSet.insert l before).0 ≡ outs = cc in
      subst (λ outs. Distinct outs × All (Leaves r) outs) q
        (
          insert-Distinct l before old.0,
          subst (λ r. All (Leaves r) (HashSet.insert l before).0) same
              (insert-All (Leaves source) l before new_link old.1),
        )
  insert_at adjacency source r l outs false h new_link eb e = h r outs e

  step-IsLeft :
      (adjacency : Dict String (List ℕ)) (source : String) (l : ℕ) (b : Bool)
      → IsLeft adjacency
      → Leaves source l
      → IsLeft (
          if b
          then Dict.insert source
              (HashSet.insert l (unwrap_or (Dict.get source adjacency) [])).0
              adjacency
          else adjacency)
  step-IsLeft adjacency source l true h new_link r outs e =
      insert_at adjacency source r l outs (source == r) h new_link refl (
        sym (
          Dict.get-insert source r (HashSet.insert l (unwrap_or (Dict.get source adjacency) [])).0
            adjacency)
        ∙ e)
  step-IsLeft adjacency source l false h new_link r outs e = h r outs e

  abbrev Known : ℕ → Type 0
  Known l = (t : String) × (Resource.get_target s l ≡ some t)

  setup-IsLeft :
      (ids : List ℕ) (routers : Dict String Router) (adjacency result : Dict String (List ℕ))
      → All (In link_ids) ids
      → IsLeft adjacency
      → setup_adjacency_matrix s ids routers adjacency ≡ some result
      → IsLeft result × All Known ids
  unfolding setup_adjacency_matrix
  setup-IsLeft [] routers adjacency result i h e =
      let p : adjacency ≡ result = cc in (subst IsLeft p h, tt)
  setup-IsLeft (l ∷ ls) routers adjacency result i h e =
      let next = λ (source : String).
        let d : Dict String (List ℕ) =
          if is_some (Dict.get source routers)
          then Dict.insert source (HashSet.insert l (unwrap_or (Dict.get source adjacency) [])).0
              adjacency
          else adjacency in
        d in
      let (source, es, e1) =
        bind-some (Resource.get_source s l)
          (λ source.
            Resource.get_target s l >>= λ target. setup_adjacency_matrix s ls routers (next source))
          result e in
      let (target, et, e2) =
        bind-some (Resource.get_target s l)
          (λ target. setup_adjacency_matrix s ls routers (next source)) result e1 in
      let (left, known) =
        setup-IsLeft ls routers (next source) result i.1
          (step-IsLeft adjacency source l (is_some (Dict.get source routers)) h (i.0, es)) e2 in
      (left, ((target, et), known))

  Known-in : (ids : List ℕ) (l : ℕ) → All Known ids → HashSet.contains l ids ≡ true → Known l
  unfolding HashSet.contains
  Known-in [] l h m = absurd (cc)
  Known-in (x ∷ xs) l h m = elim (Bool-cases (nat_beq x l)) [
    | inl e ↦ let p : x ≡ l = ground arith in subst Known p h.0
    | inr e ↦ Known-in xs l h.1 (ground (arith, m))
  ]

-- If the construction of the adjacency lists comes to a result, every list has only known links
-- that leave its router, each once, and the store knows where every link leads, which is what the
-- search for paths asks for.
pub setup_adjacency_matrix-IsNetwork :
    (s : ResourceStore) (link_ids : List ℕ) (routers : Dict String Router)
    (adjacency : Dict String (List ℕ))
    → setup_adjacency_matrix s link_ids routers [] ≡ some adjacency
    → IsNetwork s link_ids adjacency
unfolding Dict.get
setup_adjacency_matrix-IsNetwork s link_ids routers adjacency e =
    let (left, known) =
      setup-IsLeft s link_ids link_ids routers [] adjacency (All-In_self link_ids)
        (λ r outs h. absurd (ground arith)) e in
    record { leaves = left; known = λ l m. Known-in s link_ids link_ids l known m }
