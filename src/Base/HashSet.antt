-- ===== src/Base/HashSet.antt =====
-- Rust's `HashSet` as a list. The order of the elements stands for the iteration order, of which
-- nothing is assumed.
use mathlib.Core.Path.{◌≡◌, refl}
use mathlib.Core.Bool.{Bool, true, false, ◌||◌}
use mathlib.Core.List.{List, [], ◌∷◌}
use native.Mathlib.Omega.{arith}
use vrm_rust.Base.Tests.{PartialEq, ◌==◌, if◌then◌else◌}

module _ {ℓ} {K : Type ℓ} ⦃e : PartialEq K⦄ where
  unfoldable pub contains : K → List K → Bool
  contains k [] = false
  contains k (x ∷ xs) = x == k || contains k xs

  -- `insert` says whether the element is new.
  unfoldable pub insert : K → List K → List K × Bool
  unfolding contains
  insert k xs = if contains k xs then (xs, false) else (k ∷ xs, true)

  unfoldable pub erase : K → List K → List K
  erase k [] = []
  erase k (x ∷ xs) = let rest = erase k xs in if x == k then rest else x ∷ rest

  -- `remove` says whether the element was there.
  unfoldable pub remove : K → List K → List K × Bool
  unfolding contains erase
  remove k xs = (erase k xs, contains k xs)

  pub contains-erase :
      (k j : K) (xs : List K) → contains j (erase k xs) ≡ (if k == j then false else contains j xs)
  unfolding contains erase
  contains-erase k j [] = ground arith
  contains-erase k j (x ∷ xs) =
      ground (arith, e.same_iff k j, e.same_iff x k, e.same_iff x j, contains-erase k j xs)

  pub contains-insert :
      (k j : K) (xs : List K) → contains j (insert k xs).0 ≡ (k == j || contains j xs)
  unfolding insert
  contains-insert k j xs = ground (arith, e.same_iff k j)

  -- No element twice, which a `HashSet` guarantees.
  abbrev pub Distinct : List K → Type 0
  Distinct [] = Unit {0}
  Distinct (x ∷ xs) = (contains x xs ≡ false) × Distinct xs

  pub insert-Distinct : (k : K) (xs : List K) → Distinct xs → Distinct (insert k xs).0
  unfolding insert
  insert-Distinct k xs d = ground arith

  pub erase-Distinct : (k : K) (xs : List K) → Distinct xs → Distinct (erase k xs)
  unfolding erase contains
  erase-Distinct k [] d = d
  erase-Distinct k (x ∷ xs) d =
      ground (arith, erase-Distinct k xs d.1, contains-erase k x xs, e.same_iff k x)

  -- To erase what is not there changes nothing.
  pub erase_absent : (k : K) (xs : List K) → contains k xs ≡ false → erase k xs ≡ xs
  unfolding erase contains
  erase_absent k [] h = refl
  erase_absent k (x ∷ xs) h = ground (arith, erase_absent k xs)
