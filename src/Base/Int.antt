-- ===== src/Base/Int.antt =====
-- Signed integers over the native numbers, under the library's names.
-- Sums and orders go through the two parts of an integer, which are numbers that `omega` reads.
use Prim.Native.Nat.{ℕ, zero, suc, ◌+◌, ◌-◌, ◌*◌, ◌/◌, ◌%◌, ◌≤◌, ◌<◌}
use mathlib.Core.Path.{◌≡◌}
use mathlib.Core.Logic.{◌↔◌, ◌⊎◌}
use mathlib.Core.Bool.{Bool, true}
use mathlib.Core.List.{List, [], ◌∷◌}
use native.Mathlib.Omega.{arith}
use vrm_rust.Base.Tests.{ltb, leb, if◌then◌else◌, nat_beq, PartialEq}

-- `negsuc n` is -(n + 1).
pub data ℤ : Type 0 where
  pos : ℕ → ℤ
  negsuc : ℕ → ℤ

abbrev pub pos_part : ℤ → ℕ
pos_part (pos n) = n
pos_part (negsuc n) = 0

abbrev pub neg_part : ℤ → ℕ
neg_part (pos n) = 0
neg_part (negsuc n) = suc n

-- a - b, as an integer.
abbrev pub sub_ℕ : ℕ → ℕ → ℤ
sub_ℕ a b = if leb b a then pos (a - b) else negsuc (b - a - 1)

infixl 65 ◌+ℤ◌ ◌-ℤ◌
infixl 70 ◌*ℤ◌
infix 50 ◌≤ℤ◌ ◌<ℤ◌
unfoldable pub ◌+ℤ◌ : ℤ → ℤ → ℤ
a +ℤ b = sub_ℕ (pos_part a + pos_part b) (neg_part a + neg_part b)

unfoldable pub ◌-ℤ◌ : ℤ → ℤ → ℤ
a -ℤ b = sub_ℕ (pos_part a + neg_part b) (neg_part a + pos_part b)

unfoldable pub ◌*ℤ◌ : ℤ → ℤ → ℤ
a *ℤ b =
    sub_ℕ (pos_part a * pos_part b + neg_part a * neg_part b)
      (pos_part a * neg_part b + neg_part a * pos_part b)

abbrev pub ◌≤ℤ◌ : ℤ → ℤ → Type 0
a ≤ℤ b = pos_part a + neg_part b ≤ pos_part b + neg_part a

abbrev pub ◌<ℤ◌ : ℤ → ℤ → Type 0
a <ℤ b = pos_part a + neg_part b < pos_part b + neg_part a

abbrev pub ltb_ℤ : ℤ → ℤ → Bool
ltb_ℤ a b = ltb (pos_part a + neg_part b) (pos_part b + neg_part a)

abbrev pub leb_ℤ : ℤ → ℤ → Bool
leb_ℤ a b = leb (pos_part a + neg_part b) (pos_part b + neg_part a)

abbrev pub eqb_ℤ : ℤ → ℤ → Bool
eqb_ℤ a b = nat_beq (pos_part a + neg_part b) (pos_part b + neg_part a)

-- One lemma for each operation lets `omega` work with the operations shut, at any depth.
pub +ℤ_parts :
    (a b : ℤ)
    → pos_part (a +ℤ b) + neg_part a + neg_part b ≡ neg_part (a +ℤ b) + pos_part a + pos_part b
unfolding ◌+ℤ◌
+ℤ_parts a b = ground arith

pub -ℤ_parts :
    (a b : ℤ)
    → pos_part (a -ℤ b) + neg_part a + pos_part b ≡ neg_part (a -ℤ b) + pos_part a + neg_part b
unfolding ◌-ℤ◌
-ℤ_parts a b = ground arith

pub *ℤ-pos : (a b : ℕ) → pos a *ℤ pos b ≡ pos (a * b)
unfolding ◌*ℤ◌
*ℤ-pos a b = ground arith

pub eq_of_parts : (a b : ℤ) → pos_part a + neg_part b ≡ pos_part b + neg_part a → a ≡ b
eq_of_parts a b h = ground arith

-- One of the two parts is 0.
pub parts_split : (a : ℤ) → (pos_part a ≡ 0) ⊎ (neg_part a ≡ 0)
parts_split a = ground arith

pub eqb_ℤ_iff : (a b : ℤ) → (eqb_ℤ a b ≡ true) ↔ (a ≡ b)
eqb_ℤ_iff a b = ground arith

-- Keys of the paths that a reservation has in each slot.
instance abbrev pub int_eq : PartialEq ℤ
int_eq = record { same = eqb_ℤ; same_iff = eqb_ℤ_iff }

pub ruleset int_laws = (arith, +ℤ_parts, -ℤ_parts, eq_of_parts)

pub +ℤ_left_comm : (a b c : ℤ) → a +ℤ (b +ℤ c) ≡ b +ℤ (a +ℤ c)
+ℤ_left_comm a b c = omega int_laws

pub +ℤ_comm : (a b : ℤ) → a +ℤ b ≡ b +ℤ a
+ℤ_comm a b = omega int_laws

-- The integers a, a + 1, …, n of them.
unfoldable pub count_from : ℕ → ℤ → List ℤ
count_from zero a = []
count_from (suc n) a = a ∷ count_from n (a +ℤ pos 1)

-- `a..b` and `a..=b`.
unfoldable pub range : ℤ → ℤ → List ℤ
unfolding count_from
range a b = count_from (pos_part (b -ℤ a)) a

unfoldable pub range_inclusive : ℤ → ℤ → List ℤ
unfolding count_from
range_inclusive a b = count_from (pos_part (b +ℤ pos 1 -ℤ a)) a

-- Rust's `/`, `%` and `div_euclid` at a divisor that is not 0, at which all of them panic.
unfoldable pub div_trunc : ℤ → ℤ → ℤ
div_trunc (pos n) (pos m) = pos (n / m)
div_trunc (pos n) (negsuc m) = sub_ℕ 0 (n / suc m)
div_trunc (negsuc n) (pos m) = sub_ℕ 0 (suc n / m)
div_trunc (negsuc n) (negsuc m) = pos (suc n / suc m)

unfoldable pub rem_trunc : ℤ → ℤ → ℤ
rem_trunc (pos n) b = pos (n % (pos_part b + neg_part b))
rem_trunc (negsuc n) b = sub_ℕ 0 (suc n % (pos_part b + neg_part b))

unfoldable pub div_euclid : ℤ → ℤ → ℤ
div_euclid (pos n) (pos m) = pos (n / m)
div_euclid (pos n) (negsuc m) = sub_ℕ 0 (n / suc m)
div_euclid (negsuc n) (pos m) = negsuc (n / m)
div_euclid (negsuc n) (negsuc m) = pos (suc (n / suc m))
