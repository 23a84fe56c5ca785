-- ===== src/Workflow/Groups/Index.antt =====
-- The index of the nodes, by which they stand in the disjoint sets.
use vrm_rust.Base.{
  ℕ, zero, suc, ◌+◌, String, Bool, true, false, some, List, [], ◌∷◌, string_eq, ◌==◌, if◌then◌else◌,
  ◌≡◌, refl, ap, sym, ◌∙◌, arith, get_elem?, Bool-cases, inl, inr,
}
use vrm_rust.Base.Dict
use vrm_rust.Base.Dict.{Dict}
use vrm_rust.Base.HashSet
use vrm_rust.Base.HashSet.{Distinct}
use vrm_rust.Workflow.Groups.{index_from}

-- An index leads back to its name.
abbrev pub IsIndex : List String → Dict String ℕ → Type 0
IsIndex all index = (a : String) (i : ℕ) → Dict.get a index ≡ some i → get_elem? all i ≡ some a

insert_at :
    (all : List String) (index : Dict String ℕ) (id a : String) (n i : ℕ) (b : Bool)
    → IsIndex all index
    → get_elem? all n ≡ some id
    → (id == a) ≡ b
    → (if b then some n else Dict.get a index) ≡ some i
    → get_elem? all i ≡ some a
insert_at all index id a n i true ix e eb h =
    let same : id ≡ a = (string_eq.same_iff id a).0 eb in
    let ni : n ≡ i = cc in ap (get_elem? all) (sym ni) ∙ e ∙ ap some same
insert_at all index id a n i false ix e eb h = ix a i h

pub index_from-IsIndex :
    (all : List String) (n : ℕ) (ids : List String) (index : Dict String ℕ)
    → ((i : ℕ) → get_elem? ids i ≡ get_elem? all (n + i))
    → IsIndex all index
    → IsIndex all (index_from n ids index)
unfolding index_from
index_from-IsIndex all n [] index rest ix = ix
index_from-IsIndex all n (id ∷ ids) index rest ix =
    let at_n : n + 0 ≡ n = omega arith in
    let here : get_elem? all n ≡ some id = ap (get_elem? all) (sym at_n) ∙ sym (rest 0) in
    index_from-IsIndex all (suc n) ids (Dict.insert id n index)
      (λ i. let e : n + suc i ≡ suc n + i = omega arith in rest (suc i) ∙ ap (get_elem? all) e)
      (λ a i h.
        insert_at all index id a n i (id == a) ix here refl
          (sym (Dict.get-insert id a n index) ∙ h))

abbrev HasIndex : Dict String ℕ → String → Type 0
HasIndex index a = (i : ℕ) × (Dict.get a index ≡ some i)

insert_has :
    (index : Dict String ℕ) (id a : String) (n : ℕ) (b : Bool)
    → (id == a) ≡ b
    → HasIndex index a
    → HasIndex (Dict.insert id n index) a
insert_has index id a n true eb h = (n, Dict.get-insert id a n index ∙ rw eb refl)
insert_has index id a n false eb (i, h) = (i, Dict.get-insert id a n index ∙ rw eb h)

index_from-keeps :
    (n : ℕ) (ids : List String) (index : Dict String ℕ) (a : String)
    → HasIndex index a
    → HasIndex (index_from n ids index) a
unfolding index_from
index_from-keeps n [] index a h = h
index_from-keeps n (id ∷ ids) index a h =
    index_from-keeps (suc n) ids (Dict.insert id n index) a
      (insert_has index id a n (id == a) refl h)

-- Every name has an index.
pub index_from-total :
    (n : ℕ) (ids : List String) (index : Dict String ℕ) (a : String)
    → HashSet.contains a ids ≡ true
    → (i : ℕ) × (Dict.get a (index_from n ids index) ≡ some i)
unfolding index_from HashSet.contains
index_from-total n [] index a h = absurd (cc)
index_from-total n (id ∷ ids) index a h = elim (Bool-cases (id == a)) [
  | inl e ↦
      index_from-keeps (suc n) ids (Dict.insert id n index) a
        (n, Dict.get-insert id a n index ∙ rw e refl)
  | inr e ↦ index_from-total (suc n) ids (Dict.insert id n index) a (rw e at h)
]

pub contains-get_elem? :
    (xs : List String) (i : ℕ) (a : String) → get_elem? xs i ≡ some a → HashSet.contains a xs ≡ true
unfolding HashSet.contains
contains-get_elem? [] i a h = absurd (ground arith)
contains-get_elem? (x ∷ xs) zero a h = let e : x ≡ a = cc in rw ((string_eq.same_iff x a).1 e) refl
contains-get_elem? (x ∷ xs) (suc i) a h = ground (arith, contains-get_elem? xs i a h)

-- In a list without repetition a name stands once.
pub get_elem?_inj :
    (xs : List String) (i j : ℕ) (a : String)
    → Distinct xs
    → get_elem? xs i ≡ some a
    → get_elem? xs j ≡ some a
    → i ≡ j
get_elem?_inj [] i j a d h k = absurd (ground arith)
get_elem?_inj (x ∷ xs) zero zero a d h k = refl
get_elem?_inj (x ∷ xs) zero (suc j) a d h k =
    let e : x ≡ a = cc in
    let c : HashSet.contains x xs ≡ true = rw e (contains-get_elem? xs j a k) in
    absurd (cc (c, d.0))
get_elem?_inj (x ∷ xs) (suc i) zero a d h k =
    let e : x ≡ a = cc in
    let c : HashSet.contains x xs ≡ true = rw e (contains-get_elem? xs i a h) in
    absurd (cc (c, d.0))
get_elem?_inj (x ∷ xs) (suc i) (suc j) a d h k = ap suc (get_elem?_inj xs i j a d.1 h k)
