-- ===== src/Topology/Paths.antt =====
-- Paths through the network, from link to link (topology.rs).
use vrm_rust.Base.{
  ℕ, suc, ◌≤◌, String, Bool, true, false, some, List, [], ◌∷◌, ◌++◌, string_eq, nat_eq, ◌==◌, ◌||◌,
  if◌then◌else◌, ◌≡◌, refl, ap, sym, ◌∙◌, inl, inr, arith, All, length, bind-value, Bool-cases,
  nat_beq,
}
use vrm_rust.Base.HashSet
use vrm_rust.Base.HashSet.{Distinct}
use vrm_rust.Resource
use vrm_rust.Resource.{ResourceStore, LinkPath}
use vrm_rust.Topology.{last, visits}

contains-append_one :
    (x k : ℕ) (xs : List ℕ)
    → HashSet.contains k (xs ++ (x ∷ [])) ≡ (HashSet.contains k xs || nat_beq x k)
unfolding HashSet.contains
contains-append_one x k [] = ground arith
contains-append_one x k (y ∷ ys) = ground (arith, contains-append_one x k ys)

pub Distinct-append_one :
    (x : ℕ) (xs : List ℕ) → Distinct xs → HashSet.contains x xs ≡ false → Distinct (xs ++ (x ∷ []))
unfolding HashSet.contains
Distinct-append_one x [] d h = (refl, tt)
Distinct-append_one x (y ∷ ys) d h = (
  ground (arith, contains-append_one x y ys, d.0, h),
  Distinct-append_one x ys d.1 (ground (arith, h)),
)

length-erase :
    (k : ℕ) (ys : List ℕ)
    → (length (HashSet.erase k ys) ≤ length ys)
      × (HashSet.contains k ys ≡ true → suc (length (HashSet.erase k ys)) ≤ length ys)
unfolding HashSet.erase HashSet.contains
length-erase k [] = ground arith
length-erase k (y ∷ ys) = ground (arith, length-erase k ys)

abbrev pub In : List ℕ → ℕ → Type 0
In ys k = HashSet.contains k ys ≡ true

In-erase :
    (x : ℕ) (xs ys : List ℕ)
    → HashSet.contains x xs ≡ false
    → All (In ys) xs
    → All (In (HashSet.erase x ys)) xs
unfolding HashSet.contains
In-erase x [] ys n h = tt
In-erase x (y ∷ xs) ys n h = (
  ground (arith, HashSet.contains-erase x y ys, n, h.0),
  In-erase x xs ys (ground (arith, n)) h.1,
)

-- Distinct elements of a list are no more than it has.
pub length-le_of_Distinct : (xs ys : List ℕ) → Distinct xs → All (In ys) xs → length xs ≤ length ys
length-le_of_Distinct [] ys d h = omega arith
length-le_of_Distinct (x ∷ xs) ys d h = omega (
  arith,
  (length-erase x ys).1 h.0,
  length-le_of_Distinct xs (HashSet.erase x ys) d.1 (In-erase x xs ys d.0 h.1),
)

module _ (s : ResourceStore) where
  -- The links lead from `a` to `b`, each from where the one before it ends.
  abbrev pub Walk : String → List ℕ → String → Type 0
  Walk a [] b = a ≡ b
  Walk a (l ∷ ls) b =
      (Resource.get_source s l ≡ some a)
      × ((c : String) × (Resource.get_target s l ≡ some c) × Walk c ls b)

  pub Walk-append_one :
      (a b c : String) (ls : List ℕ) (l : ℕ)
      → Walk a ls b
      → Resource.get_source s l ≡ some b
      → Resource.get_target s l ≡ some c
      → Walk a (ls ++ (l ∷ [])) c
  Walk-append_one a b c [] l w es et = (es ∙ ap some (sym w), (c, et, refl))
  Walk-append_one a b c (x ∷ xs) l w es et =
      let (e, (d, ed, rest)) = w in (e, (d, ed, Walk-append_one d b c xs l rest es et))

  -- Where a walk ends is where its last link leads.
  pub last-Walk :
      (a b : String) (l : ℕ) (ls : List ℕ)
      → Walk a (l ∷ ls) b
      → (x : ℕ) × (last (l ∷ ls) ≡ some x)
        × (Resource.get_target s x ≡ some b)
        × (HashSet.contains x (l ∷ ls) ≡ true)
  unfolding last HashSet.contains
  last-Walk a b l [] w = let (e, (c, ec, same)) = w in (l, refl, ec ∙ ap some same, ground arith)
  last-Walk a b l (m ∷ ms) w =
      let (e, (c, ec, rest)) = w in
      let (x, ex, et, member) = last-Walk c b m ms rest in (x, ex, et, ground (arith, member))

  -- The test for a loop comes to an answer where every link is known.
  pub visits-total :
      (router a b : String) (ls : List ℕ) → Walk a ls b → (v : Bool) × (visits s router ls ≡ some v)
  unfolding visits
  visits-total router a b [] w = (false, refl)
  visits-total router a b (l ∷ ls) w =
      let (e, (c, ec, rest)) = w in
      let (v, ev) = visits-total router c b ls rest in
      elim (Bool-cases (a == router)) [
        | inl t ↦ (
          true,
          bind-value (λ source. if source == router then some true else visits s router ls) e
              ∙ rw t refl,
        )
        | inr f ↦ (
          v,
          bind-value (λ source. if source == router then some true else visits s router ls) e
              ∙ rw f ev,
        )
      ]

  visits_here :
      (router a : String) (l : ℕ) (ls : List ℕ)
      → Resource.get_source s l ≡ some a
      → a ≡ router
      → visits s router (l ∷ ls) ≡ some true
  unfolding visits
  visits_here router a l ls e same =
      bind-value (λ source. if source == router then some true else visits s router ls) e
      ∙ rw ((string_eq.same_iff a router).1 same) refl

  visits_later :
      (router a : String) (l : ℕ) (ls : List ℕ)
      → Resource.get_source s l ≡ some a
      → visits s router ls ≡ some true
      → visits s router (l ∷ ls) ≡ some true
  unfolding visits
  visits_later router a l ls e h = elim (Bool-cases (a == router)) [
    | inl t ↦
        bind-value (λ source. if source == router then some true else visits s router ls) e
        ∙ rw t refl
    | inr f ↦
        bind-value (λ source. if source == router then some true else visits s router ls) e ∙ rw f h
  ]

  -- The next link after the first one of a walk starts where that ends.
  next_visits :
      (l : ℕ) (b c t : String) (ls : List ℕ)
      → Resource.get_target s l ≡ some c
      → Resource.get_target s l ≡ some t
      → Walk c ls b
      → Resource.get_source s l ≡ some b
      → visits s t (l ∷ ls) ≡ some true
  next_visits l b c t [] ec et w es = visits_here t b l [] es (let p : c ≡ t = cc in sym w ∙ p)
  next_visits l b c t (m ∷ ms) ec et w es =
      visits_later t b l (m ∷ ms) es (visits_here t c m ms w.0 (let p : c ≡ t = cc in p))

  -- A link that the walk has and that goes on from its end leads back onto the walk.
  used_visits :
      (l : ℕ) (a b t : String) (ls : List ℕ)
      → Walk a ls b
      → HashSet.contains l ls ≡ true
      → Resource.get_source s l ≡ some b
      → Resource.get_target s l ≡ some t
      → visits s t ls ≡ some true
  unfolding HashSet.contains
  used_visits l a b t [] w h es et = absurd (cc)
  used_visits l a b t (m ∷ ms) w h es et =
      let (e, (c, ec, rest)) = w in
      elim (Bool-cases (nat_beq m l)) [
        | inl same ↦
            let p : l ≡ m = ground arith in
            next_visits m b c t ms ec (ap (Resource.get_target s) (sym p) ∙ et) rest
              (ap (Resource.get_source s) (sym p) ∙ es)
        | inr other ↦
            visits_later t a m ms e (used_visits l c b t ms rest (ground (arith, h)) es et)
      ]

  -- A link that passes the test for a loop is new on the path.
  pub fresh_link :
      (l : ℕ) (a b t : String) (ls : List ℕ)
      → Walk a ls b
      → Resource.get_source s l ≡ some b
      → Resource.get_target s l ≡ some t
      → visits s t ls ≡ some false
      → HashSet.contains l ls ≡ false
  fresh_link l a b t ls w es et h = elim (Bool-cases (HashSet.contains l ls)) [
    | inl used ↦ let v = used_visits l a b t ls w used es et in absurd (cc)
    | inr fresh ↦ fresh
  ]
