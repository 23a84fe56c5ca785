-- ===== src/Workflow/Groups/Sets.antt =====
-- The disjoint sets of the nodes, and what connects them (step 3 of build_co_allocations of
-- src/vrm/workflow/workflow.rs).
use vrm_rust.Base.{
  ℕ, ◌<◌, String, Bool, true, Option, none, some, List, [], ◌∷◌, string_eq, ◌≡◌, refl, ap, sym, ◌∙◌,
  ◌⊎◌, inl, inr, arith, All, All-map, Any, All-Any,
}
use vrm_rust.Base.Dict
use vrm_rust.Base.Dict.{Dict}
use vrm_rust.Workflow.Types.{SyncDependency}
use vrm_rust.Workflow.Groups.{DisjointSets, union_found, union_ends, union_all}

-- What the crate documents: `find` gives one number of each set; at first every number is alone, and
-- a union puts two sets together and leaves the others. `IsOver` is the size of the structure.
pub record IsDisjointSets (u : DisjointSets) : Type 1 where
  pub IsOver : ℕ → u.Sets → Type 0
  pub new_over : (n : ℕ) → IsOver n (u.new n)
  pub union_over : (n i j : ℕ) (s : u.Sets) → IsOver n s → i < n → j < n → IsOver n (u.union s i j)
  pub find_lt : (n i : ℕ) (s : u.Sets) → IsOver n s → i < n → u.find s i < n
  pub find_find : (n i : ℕ) (s : u.Sets) → IsOver n s → i < n → u.find s (u.find s i) ≡ u.find s i
  pub find_new : (n i j : ℕ) → i < n → j < n → u.find (u.new n) i ≡ u.find (u.new n) j → i ≡ j
  pub union_joins :
      (n i j : ℕ) (s : u.Sets)
      → IsOver n s
      → i < n
      → j < n
      → u.find (u.union s i j) i ≡ u.find (u.union s i j) j
  pub union_keeps :
      (n i j a b : ℕ) (s : u.Sets)
      → IsOver n s
      → i < n
      → j < n
      → a < n
      → b < n
      → u.find s a ≡ u.find s b
      → u.find (u.union s i j) a ≡ u.find (u.union s i j) b
  pub union_only :
      (n i j a b : ℕ) (s : u.Sets)
      → IsOver n s
      → i < n
      → j < n
      → a < n
      → b < n
      → u.find (u.union s i j) a ≡ u.find (u.union s i j) b
      → (u.find s a ≡ u.find s b)
        ⊎ ((u.find s a ≡ u.find s i) × (u.find s b ≡ u.find s j))
        ⊎ ((u.find s a ≡ u.find s j) × (u.find s b ≡ u.find s i))

-- A dependency from `a` to `b`.
pub record Joins (a b : String) (dep : SyncDependency) : Type 0 where
  pub source : dep.source_node ≡ some a
  pub target : dep.target_node ≡ some b

-- Connected by dependencies between nodes, directly or over others and in either direction.
pub data Linked (IsNode : String → Type 0) (deps : List SyncDependency)
    : String → String → Type 0 where
  same : (a : String) → Linked IsNode deps a a
  edge : (a b : String) → IsNode a → IsNode b → Any (Joins a b) deps → Linked IsNode deps a b
  back : (a b : String) → Linked IsNode deps a b → Linked IsNode deps b a
  chain :
      (a b c : String) → Linked IsNode deps a b → Linked IsNode deps b c → Linked IsNode deps a c

pub Linked-map :
    (P Q : String → Type 0) (f : (a : String) → P a → Q a) (deps : List SyncDependency)
    (a b : String)
    → Linked P deps a b
    → Linked Q deps a b
Linked-map P Q f deps _ _ (Linked.same a) = Linked.same a
Linked-map P Q f deps _ _ (Linked.edge a b na nb h) = Linked.edge a b (f a na) (f b nb) h
Linked-map P Q f deps _ _ (Linked.back a b l) = Linked.back a b (Linked-map P Q f deps a b l)
Linked-map P Q f deps _ _ (Linked.chain a b c l m) =
    Linked.chain a b c (Linked-map P Q f deps a b l) (Linked-map P Q f deps b c m)

module _ (u : DisjointSets) (laws : IsDisjointSets u) (n : ℕ) (index : Dict String ℕ)
    (below : (a : String) (i : ℕ) → Dict.get a index ≡ some i → i < n)
    (inj : (a b : String) (i : ℕ)
      → Dict.get a index ≡ some i
      → Dict.get b index ≡ some i
      → a ≡ b) where
  abbrev pub IsNode : String → Type 0
  IsNode a = (i : ℕ) × (Dict.get a index ≡ some i)

  -- Two nodes stand in one set.
  abbrev pub Together : u.Sets → String → String → Type 0
  Together s a b =
      (i j : ℕ) → Dict.get a index ≡ some i → Dict.get b index ≡ some j → u.find s i ≡ u.find s j

  -- What every step of the loop gives, for the dependencies `deps` that it takes.
  record Steps (all deps : List SyncDependency) (s s' : u.Sets) : Type 0 where
    over : laws.IsOver n s'
    keeps : (a b : String) → Together s a b → Together s' a b
    joins : (a b : String) → IsNode a → IsNode b → Any (Joins a b) deps → Together s' a b
    only :
        ((a b : String) (i j : ℕ)
          → Dict.get a index ≡ some i
          → Dict.get b index ≡ some j
          → u.find s i ≡ u.find s j
          → Linked IsNode all a b)
        → (a b : String) (i j : ℕ) → Dict.get a index ≡ some i
        → Dict.get b index ≡ some j
        → u.find s' i ≡ u.find s' j
        → Linked IsNode all a b

  -- A dependency with an end that is missing or no node changes nothing.
  idle :
      (all : List SyncDependency) (dep : SyncDependency) (s : u.Sets)
      → laws.IsOver n s
      → ((a b : String) → IsNode a → IsNode b → Joins a b dep → ⊥)
      → Steps all (dep ∷ []) s s
  idle all dep s over never = record {
    over = over;
    keeps = λ a b h. h;
    joins = λ a b na nb h. elim h [ inl j ↦ absurd (never a b na nb j) | inr e ↦ elim e [ ] ];
    only = λ h. h;
  }

  busy :
      (all : List SyncDependency) (dep : SyncDependency) (s : u.Sets) (x y : String) (i j : ℕ)
      → laws.IsOver n s
      → dep.source_node ≡ some x
      → dep.target_node ≡ some y
      → Dict.get x index ≡ some i
      → Dict.get y index ≡ some j
      → Linked IsNode all x y
      → Steps all (dep ∷ []) s (u.union s i j)
  busy all dep s x y i j over es et ex ey linked =
      let il = below x i ex in
      let jl = below y j ey in
      record {
        over = laws.union_over n i j s over il jl;
        keeps = λ a b h p q ea eb.
            laws.union_keeps n i j p q s over il jl (below a p ea) (below b q eb) (h p q ea eb);
        joins = λ a b na nb h p q ea eb. elim h [
          | inl jn ↦
              let ax : a ≡ x = cc (jn.source, es) in
              let by : b ≡ y = cc (jn.target, et) in
              let pi : p ≡ i = cc (ap (λ a. Dict.get a index) ax, ea, ex) in
              let qj : q ≡ j = cc (ap (λ a. Dict.get a index) by, eb, ey) in
              ap (u.find (u.union s i j)) pi
              ∙ laws.union_joins n i j s over il jl
              ∙ ap (u.find (u.union s i j)) (sym qj)
          | inr e ↦ elim e [ ]
        ];
        only = λ h a b p q ea eb e.
            elim (laws.union_only n i j p q s over il jl (below a p ea) (below b q eb) e) [
              | inl old ↦ h a b p q ea eb old
              | inr (inl (pa, qb)) ↦
                  Linked.chain a x b (h a x p i ea ex pa)
                    (Linked.chain x y b linked (Linked.back b y (h b y q j eb ey qb)))
              | inr (inr (pa, qb)) ↦ Linked.chain a y b (h a y p j ea ey pa) (
                  Linked.chain y x b (Linked.back x y linked)
                    (Linked.back b x (h b x q i eb ex qb)))
            ];
      }

  -- What a dependency gives when it is one of `all`.
  abbrev Gives : List SyncDependency → SyncDependency → Type 0
  Gives all dep = (a b : String) → IsNode a → IsNode b → Joins a b dep → Linked IsNode all a b

  found_step :
      (all : List SyncDependency) (dep : SyncDependency) (s : u.Sets) (x y : String)
      (ox oy : Option ℕ)
      → laws.IsOver n s
      → Gives all dep
      → dep.source_node ≡ some x
      → dep.target_node ≡ some y
      → Dict.get x index ≡ ox
      → Dict.get y index ≡ oy
      → Steps all (dep ∷ []) s (union_found u ox oy s)
  unfolding union_found
  found_step all dep s x y none oy over gives es et ex ey = idle all dep s over (λ a b na nb jn.
      let ax : a ≡ x = cc (jn.source, es) in
      let (i, ea) = na in absurd (cc (ap (λ a. Dict.get a index) ax, ea, ex)))
  found_step all dep s x y (some i) none over gives es et ex ey =
      idle all dep s over (λ a b na nb jn.
        let by : b ≡ y = cc (jn.target, et) in
        let (i, eb) = nb in absurd (cc (ap (λ a. Dict.get a index) by, eb, ey)))
  found_step all dep s x y (some i) (some j) over gives es et ex ey =
      busy all dep s x y i j over es et ex ey
        (gives x y (i, ex) (j, ey) (record { source = es; target = et }))

  ends_step :
      (all : List SyncDependency) (dep : SyncDependency) (s : u.Sets) (os ot : Option String)
      → laws.IsOver n s
      → Gives all dep
      → dep.source_node ≡ os
      → dep.target_node ≡ ot
      → Steps all (dep ∷ []) s (union_ends u index os ot s)
  unfolding union_ends
  ends_step all dep s none ot over gives es et =
      idle all dep s over (λ a b na nb jn. absurd (cc (jn.source, es)))
  ends_step all dep s (some x) none over gives es et =
      idle all dep s over (λ a b na nb jn. absurd (cc (jn.target, et)))
  ends_step all dep s (some x) (some y) over gives es et =
      found_step all dep s x y (Dict.get x index) (Dict.get y index) over gives es et refl refl

  union_all-Steps :
      (all deps : List SyncDependency) (s : u.Sets)
      → laws.IsOver n s
      → All (Gives all) deps
      → Steps all deps s (union_all u index deps s)
  unfolding union_all
  union_all-Steps all [] s over gives = record {
    over = over;
    keeps = λ a b h. h;
    joins = λ a b na nb h. elim h [ ];
    only = λ h. h;
  }
  union_all-Steps all (dep ∷ deps) s over gives =
      let s1 = union_ends u index dep.source_node dep.target_node s in
      let first = ends_step all dep s dep.source_node dep.target_node over gives.0 refl refl in
      let later = union_all-Steps all deps s1 first.over gives.1 in
      record {
        over = later.over;
        keeps = λ a b h. later.keeps a b (first.keeps a b h);
        joins = λ a b na nb h. elim h [
          | inl here ↦ later.keeps a b (first.joins a b na nb (inl here))
          | inr there ↦ later.joins a b na nb there
        ];
        only = λ h. later.only (first.only h);
      }

  Gives-all : (all : List SyncDependency) → All (Gives all) all
  Gives-all all =
      All-map (λ dep. (P : SyncDependency → Type 0) → P dep → Any P all) (Gives all) all
        (λ dep f a b na nb jn. Linked.edge a b na nb (f (Joins a b) jn)) (All-Any all)

  abbrev pub merged_sets : List SyncDependency → u.Sets
  merged_sets deps = union_all u index deps (u.new n)

  pub merged_sets-over : (deps : List SyncDependency) → laws.IsOver n (merged_sets deps)
  merged_sets-over deps =
      (union_all-Steps deps deps (u.new n) (laws.new_over n) (Gives-all deps)).over

  pub Linked-Together :
      (deps : List SyncDependency) (a b : String)
      → Linked IsNode deps a b
      → IsNode a ⊎ IsNode b
      → (IsNode a × IsNode b) × Together (merged_sets deps) a b
  Linked-Together deps _ _ (Linked.same a) (inl na) =
      ((na, na), λ i j ei ej. let p : i ≡ j = cc in ap (u.find (merged_sets deps)) p)
  Linked-Together deps _ _ (Linked.same a) (inr na) =
      ((na, na), λ i j ei ej. let p : i ≡ j = cc in ap (u.find (merged_sets deps)) p)
  Linked-Together deps _ _ (Linked.edge a b na nb h) or = (
    (na, nb),
    (union_all-Steps deps deps (u.new n) (laws.new_over n) (Gives-all deps)).joins a b na nb h,
  )
  Linked-Together deps _ _ (Linked.back a b l) (inl nb) =
      let (ns, t) = Linked-Together deps a b l (inr nb) in
      ((ns.1, ns.0), λ i j ei ej. sym (t j i ej ei))
  Linked-Together deps _ _ (Linked.back a b l) (inr na) =
      let (ns, t) = Linked-Together deps a b l (inl na) in
      ((ns.1, ns.0), λ i j ei ej. sym (t j i ej ei))
  Linked-Together deps _ _ (Linked.chain a b c l m) (inl na) =
      let (ns, t) = Linked-Together deps a b l (inl na) in
      let (ms, v) = Linked-Together deps b c m (inl ns.1) in
      ((ns.0, ms.1), λ i j ei ej. t i ns.1.0 ei ns.1.1 ∙ v ns.1.0 j ns.1.1 ej)
  Linked-Together deps _ _ (Linked.chain a b c l m) (inr nc) =
      let (ms, v) = Linked-Together deps b c m (inr nc) in
      let (ns, t) = Linked-Together deps a b l (inr ms.0) in
      ((ns.0, ms.1), λ i j ei ej. t i ns.1.0 ei ns.1.1 ∙ v ns.1.0 j ns.1.1 ej)

  pub Together-Linked :
      (deps : List SyncDependency) (a b : String) (i j : ℕ)
      → Dict.get a index ≡ some i
      → Dict.get b index ≡ some j
      → u.find (merged_sets deps) i ≡ u.find (merged_sets deps) j
      → Linked IsNode deps a b
  Together-Linked deps =
      (union_all-Steps deps deps (u.new n) (laws.new_over n) (Gives-all deps)).only
        (λ a b i j ea eb e.
          let p = laws.find_new n i j (below a i ea) (below b j eb) e in
          let q = inj a b i ea (eb ∙ ap some (sym p)) in
          vrm_rust.Base.subst (Linked IsNode deps a) q (Linked.same a))
