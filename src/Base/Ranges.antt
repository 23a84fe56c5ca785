-- ===== src/Base/Ranges.antt =====
-- What holds for every value of a map and every integer of a range.
use Prim.Native.Nat.{ℕ, zero, suc}
use Prim.Native.String.{String}
use mathlib.Core.Logic.{inl, inr}
use mathlib.Core.List.{[], ◌∷◌}
use native.Mathlib.Omega.{arith}
use vrm_rust.Base.Tests.{◌==◌, string_eq, Bool-cases}
use vrm_rust.Base.Lists.{All}
use vrm_rust.Base.Dict
use vrm_rust.Base.Dict.{Dict}
use vrm_rust.Base.Int.{
  ℤ, pos, pos_part, ◌≤ℤ◌, ◌<ℤ◌, ◌+ℤ◌, ◌-ℤ◌, +ℤ_parts, -ℤ_parts, parts_split, count_from,
  range_inclusive,
}

-- What holds for all values of a map and for a new one holds for all after the insertion.
pub All-insert :
    {V : Type 0} (P : V → Type 0) (k : String) (v : V) (m : Dict String V)
    → All (λ e. P e.1) m
    → P v
    → All (λ e. P e.1) (Dict.insert k v m)
unfolding Dict.insert
All-insert P k v [] h p = (p, tt)
All-insert P k v ((j, w) ∷ m) h p = elim (Bool-cases (j == k)) [
  | inl same ↦ rw same (p, h.1)
  | inr other ↦ rw other (h.0, All-insert P k v m h.1 p)
]

All-count_from :
    (P : ℤ → Type 0) (n : ℕ) (a b : ℤ)
    → ((i : ℤ) → a ≤ℤ i → i <ℤ a +ℤ pos n → P i)
    → All P (count_from n a)
unfolding count_from
All-count_from P zero a b h = tt
All-count_from P (suc n) a b h = (
  h a (omega arith) (omega (arith, +ℤ_parts a (pos (suc n)))),
  All-count_from P n (a +ℤ pos 1) b (λ i low high. h i (omega (arith, low, +ℤ_parts a (pos 1))) (
      omega (
        arith,
        high,
        +ℤ_parts a (pos 1),
        +ℤ_parts (a +ℤ pos 1) (pos n),
        +ℤ_parts a (pos (suc n)),
      ))),
)

pub All-range_inclusive :
    (P : ℤ → Type 0) (a b : ℤ) → ((i : ℤ) → a ≤ℤ i → i ≤ℤ b → P i) → All P (range_inclusive a b)
unfolding range_inclusive
All-range_inclusive P a b h =
    let n = pos_part (b +ℤ pos 1 -ℤ a) in
    All-count_from P n a b (λ i low high. h i low (
      ground (
        arith,
        +ℤ_parts a (pos n),
        +ℤ_parts b (pos 1),
        -ℤ_parts (b +ℤ pos 1) a,
        parts_split (b +ℤ pos 1 -ℤ a),
      )))
