-- ===== src/Base/Dict.antt =====
-- Rust's `HashMap` as an association list. The order of the entries stands for the iteration
-- order, of which nothing is assumed.
use mathlib.Core.Path.{◌≡◌, refl, ap}
use mathlib.Core.Logic.{inl, inr}
use mathlib.Core.Option.{Option, none, some}
use mathlib.Core.List.{List, [], ◌∷◌, map}
use native.Mathlib.Omega.{arith}
use vrm_rust.Base.Tests.{Bool-cases, PartialEq, ◌==◌, if◌then◌else◌, map_option, beq_refl}

abbrev pub Dict {ℓ κ} : Type ℓ → Type κ → Type (ℓ ⊔ κ)
Dict K V = List (K × V)

abbrev pub keys {ℓ κ} : {K : Type ℓ} {V : Type κ} → Dict K V → List K
keys m = map (λ e. e.0) m

abbrev pub values {ℓ κ} : {K : Type ℓ} {V : Type κ} → Dict K V → List V
values m = map (λ e. e.1) m

module _ {ℓ κ} {K : Type ℓ} {V : Type κ} ⦃e : PartialEq K⦄ where
  unfoldable pub get : K → Dict K V → Option V
  get k [] = none
  get k ((j, v) ∷ m) = if j == k then some v else get k m

  -- An entry of the key is replaced in place; a new one is put last.
  unfoldable pub insert : K → V → Dict K V → Dict K V
  insert k v [] = (k, v) ∷ []
  insert k v ((j, w) ∷ m) = if j == k then (k, v) ∷ m else (j, w) ∷ insert k v m

  unfoldable pub remove : K → Dict K V → Dict K V
  remove k [] = []
  remove k ((j, w) ∷ m) = let rest = remove k m in if j == k then rest else (j, w) ∷ rest

  -- `get_mut` followed by an assignment: a missing key changes nothing.
  unfoldable pub modify : K → (V → V) → Dict K V → Dict K V
  modify k f [] = []
  modify k f ((j, w) ∷ m) = if j == k then (j, f w) ∷ m else (j, w) ∷ modify k f m

  pub get-insert :
      (k j : K) (v : V) (m : Dict K V) → get j (insert k v m) ≡ (if k == j then some v else get j m)
  unfolding get insert
  get-insert k j v [] = refl
  get-insert k j v ((i, w) ∷ m) =
      ground (arith, e.same_iff k j, e.same_iff i k, e.same_iff i j, get-insert k j v m)

  pub get-remove :
      (k j : K) (m : Dict K V) → get j (remove k m) ≡ (if k == j then none else get j m)
  unfolding get remove
  get-remove k j [] = ground arith
  get-remove k j ((i, w) ∷ m) =
      ground (arith, e.same_iff k j, e.same_iff i k, e.same_iff i j, get-remove k j m)

  pub get-modify :
      (k j : K) (f : V → V) (m : Dict K V)
      → get j (modify k f m) ≡ (if k == j then map_option f (get j m) else get j m)
  unfolding get modify
  get-modify k j f [] = ground arith
  get-modify k j f ((i, w) ∷ m) =
      ground (arith, e.same_iff k j, e.same_iff i k, e.same_iff i j, get-modify k j f m)

  pub remove-insert : (k : K) (v : V) (m : Dict K V) → remove k (insert k v m) ≡ remove k m
  unfolding insert remove
  remove-insert k v [] = rw (beq_refl k) refl
  remove-insert k v ((j, w) ∷ m) = elim (Bool-cases (j == k)) [
    | inl e ↦ rw (e, beq_refl k) refl
    | inr e ↦ rw e (rw e (ap (λ (rest : Dict K V). (j, w) ∷ rest) (remove-insert k v m)))
  ]

  pub remove_absent : (k : K) (m : Dict K V) → get k m ≡ none → remove k m ≡ m
  unfolding get remove
  remove_absent k [] h = refl
  remove_absent k ((j, w) ∷ m) h = elim (Bool-cases (j == k)) [
    | inl e ↦ absurd (ground (arith, e, h))
    | inr e ↦
        rw e (ap (λ (rest : Dict K V). (j, w) ∷ rest) (remove_absent k m (ground (arith, e, h))))
  ]

  -- A change of every value.
  unfoldable pub map_values : (V → V) → Dict K V → Dict K V
  map_values f [] = []
  map_values f ((j, v) ∷ m) = (j, f v) ∷ map_values f m

  pub get-map_values :
      (k : K) (f : V → V) (m : Dict K V) → get k (map_values f m) ≡ map_option f (get k m)
  unfolding get map_values
  get-map_values k f [] = refl
  get-map_values k f ((j, v) ∷ m) = elim (Bool-cases (j == k)) [
    | inl e ↦ rw e refl
    | inr e ↦ rw e (get-map_values k f m)
  ]

  pub remove-map_values :
      (k : K) (f : V → V) (m : Dict K V) → remove k (map_values f m) ≡ map_values f (remove k m)
  unfolding remove map_values
  remove-map_values k f [] = refl
  remove-map_values k f ((j, v) ∷ m) = elim (Bool-cases (j == k)) [
    | inl e ↦ rw e (remove-map_values k f m)
    | inr e ↦ rw e (ap (λ (rest : Dict K V). (j, f v) ∷ rest) (remove-map_values k f m))
  ]

pub ruleset dict_laws = (get-insert, get-remove, get-modify, beq_refl)
