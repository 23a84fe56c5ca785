-- ===== src/Base/Decimal.antt =====
-- `format!("{}", n)` of an unsigned number.
use Prim.Native.String.{String, ◌++◌}
use vrm_rust.Base.Tests.{ltb, if◌then◌else◌, unwrap_or}
use vrm_rust.Base.Lists.{get_elem?}
use Prim.Native.Nat.{ℕ, zero, suc, ◌/◌, ◌%◌}
use mathlib.Core.List.{List, [], ◌∷◌}
use mathlib.Core.Path.{◌≡◌, refl}

abbrev digits : List String
digits = "0" ∷ "1" ∷ "2" ∷ "3" ∷ "4" ∷ "5" ∷ "6" ∷ "7" ∷ "8" ∷ "9" ∷ []

digit : ℕ → String
digit n = unwrap_or (get_elem? digits (n % 10)) ""

-- The digits of `n` in front of `acc`.
show_from : ℕ → ℕ → String → String
unfolding digit
show_from zero n acc = acc
show_from (suc fuel) n acc =
    let rest = show_from fuel (n / 10) (digit n ++ acc) in if ltb n 10 then digit n ++ acc else rest

-- A number has fewer digits than `n + 1`.
unfoldable pub show_usize : ℕ → String
unfolding show_from
show_usize n = show_from (suc n) n ""

shows : show_usize 2040 ≡ "2040"
unfolding show_usize
shows = refl
