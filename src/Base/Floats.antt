-- ===== src/Base/Floats.antt =====
-- `f64` is carried as its 64 bits. Its arithmetic is the processor's: a parameter.
use Prim.Native.Nat.{ℕ}
use mathlib.Core.Bool.{Bool}
use vrm_rust.Base.Int.{ℤ}

abbrev pub F64 : Type 0
F64 = ℕ

pub record Floats : Type 0 where
  pub of_i64 : ℤ → F64
  pub div : F64 → F64 → F64
  pub add : F64 → F64 → F64
  pub sub : F64 → F64 → F64
  pub lt : F64 → F64 → Bool
