-- ===== src/Schedule/Strategy.antt =====
-- The trait that a schedule's resource implements
-- (src/vrm/schedule/slotted_schedule/strategy/strategy_trait.rs). `none` stands for a panic.
use vrm_rust.Base.{ℕ, Option}
use vrm_rust.Base.Floats.{F64}
use vrm_rust.Base.Int.{ℤ}
use vrm_rust.Schedule.Context.{Context}

pub record Strategy (St : Type 0) : Type 0 where
  pub adjust_requirement_to_slot_capacity : Context St → ℤ → ℤ → ℕ → Option ℤ
  pub insert_reservation_into_slot : Context St → ℤ → ℤ → ℕ → Option (Context St)
  pub on_clear : Context St → Option (Context St)
  pub get_system_fragmentation : Context St → Option (Context St × F64)
  pub get_capacity : Context St → ℤ
