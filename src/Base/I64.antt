-- ===== src/Base/I64.antt =====
-- Rust's `i64` in a release build: a result out of range wraps modulo 2^64.
use Prim.Native.Nat.{ℕ, ◌+◌, ◌%◌, ◌≤◌, ◌<◌}
use mathlib.Core.Path.{◌≡◌, refl}
use native.Mathlib.Omega.{arith}
use vrm_rust.Base.Int.{ℤ, pos, negsuc, pos_part, neg_part, sub_ℕ, ◌+ℤ◌, ◌-ℤ◌, ◌*ℤ◌}

abbrev pub i64_max : ℤ
i64_max = pos 9223372036854775807

abbrev pub i64_min : ℤ
i64_min = negsuc 9223372036854775807

-- The value lies in the range of `i64`.
abbrev pub InI64 : ℤ → Type 0
InI64 z = (pos_part z < 9223372036854775808) × (neg_part z ≤ 9223372036854775808)

-- The value of the bits of `n` modulo 2^64, read in two's complement.
fold_i64 : ℕ → ℤ
fold_i64 n = sub_ℕ ((n + 9223372036854775808) % 18446744073709551616) 9223372036854775808

-- `!z`, that is -z - 1.
flip_bits : ℤ → ℤ
flip_bits (pos n) = negsuc n
flip_bits (negsuc n) = pos n

unfoldable pub wrap_i64 : ℤ → ℤ
unfolding fold_i64 flip_bits
wrap_i64 (pos n) = fold_i64 n
wrap_i64 (negsuc n) = flip_bits (fold_i64 n)

fold_i64_small : (n : ℕ) → n < 9223372036854775808 → fold_i64 n ≡ pos n
unfolding fold_i64
fold_i64_small n h = ground arith

-- In range nothing wraps.
pub wrap_i64_id : (z : ℤ) → InI64 z → wrap_i64 z ≡ z
unfolding wrap_i64
wrap_i64_id (pos n) h = fold_i64_small n h.0
wrap_i64_id (negsuc n) h = rw (fold_i64_small n (omega arith))

-- A wrapped value is in range.
pub wrap_i64_range : (z : ℤ) → InI64 (wrap_i64 z)
unfolding wrap_i64
wrap_i64_range (pos n) = ground arith
wrap_i64_range (negsuc n) = ground arith

infixl 65 ◌+i◌ ◌-i◌
infixl 70 ◌*i◌
unfoldable pub ◌+i◌ : ℤ → ℤ → ℤ
a +i b = wrap_i64 (a +ℤ b)

unfoldable pub ◌-i◌ : ℤ → ℤ → ℤ
a -i b = wrap_i64 (a -ℤ b)

unfoldable pub ◌*i◌ : ℤ → ℤ → ℤ
a *i b = wrap_i64 (a *ℤ b)

pub +i-eq : (a b : ℤ) → InI64 (a +ℤ b) → a +i b ≡ a +ℤ b
unfolding ◌+i◌
+i-eq a b h = wrap_i64_id _ h

pub -i-eq : (a b : ℤ) → InI64 (a -ℤ b) → a -i b ≡ a -ℤ b
unfolding ◌-i◌
-i-eq a b h = wrap_i64_id _ h

pub *i-eq : (a b : ℤ) → InI64 (a *ℤ b) → a *i b ≡ a *ℤ b
unfolding ◌*i◌
*i-eq a b h = wrap_i64_id _ h

-- Sums and differences of two values of this range do not wrap.
abbrev pub IsSmall : ℤ → Type 0
IsSmall z = (pos_part z < 4611686018427387904) × (neg_part z < 4611686018427387904)

pub +i-small : (a b : ℤ) → IsSmall a → IsSmall b → a +i b ≡ a +ℤ b
+i-small a b h k = +i-eq a b (unfold ◌+ℤ◌ in ground arith)

pub -i-small : (a b : ℤ) → IsSmall a → IsSmall b → a -i b ≡ a -ℤ b
-i-small a b h k = -i-eq a b (unfold ◌-ℤ◌ in ground arith)

wraps : i64_max +i pos 1 ≡ i64_min
unfolding ◌+i◌ ◌+ℤ◌ wrap_i64
wraps = refl
