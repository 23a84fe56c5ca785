-- ===== src/Reservation/Moldable.antt =====
-- What the adjustments of a moldable reservation do to its capacity, duration and work
-- (`adjust_capacity` and `adjust_task_duration` of src/vrm/reservation/reservation.rs).
use vrm_rust.Base.{ℕ, ◌≡◌, ◌≢◌, ◌*◌, ◌/◌, suc, arith}
use Prim.Native.Nat.{max}
use native.Mathlib.Nat.{mul-div_cancel_left}
use vrm_rust.Base.Int.{ℤ, pos, div_trunc, eqb_ℤ_iff}
use vrm_rust.Base.I64.{◌*i◌}
use vrm_rust.Reservation.Fields.{ReservationBase}
use vrm_rust.Reservation.Fields
use vrm_rust.Reservation.Trait

-- The work is the product of capacity and duration, as every constructor of a reservation sets it.
abbrev pub HasWork : ReservationBase → Type 0
HasWork b = b.moldable_work ≡ b.reserved_capacity *i b.task_duration

-- The trait's change of the capacity keeps the work the product of capacity and duration.
pub adjust_capacity-HasWork :
    (b : ReservationBase) (capacity : ℤ) → HasWork b → HasWork (Trait.adjust_capacity b capacity)
unfolding Trait.adjust_capacity
adjust_capacity-HasWork b capacity h = ground arith

-- The trait's change of the capacity to a new value above 0 sets that capacity, and as the
-- duration the work divided by it, rounded down, but at least 1, where the work is not negative.
trait_adjust_capacity_lem :
    (b : ReservationBase) (c w : ℕ)
    → pos (suc c) ≢ b.reserved_capacity
    → b.moldable_work ≡ pos w
    → let b' = Trait.adjust_capacity b (pos (suc c)) in
      (b'.reserved_capacity ≡ pos (suc c)) × (b'.task_duration ≡ pos (max 1 (w / suc c)))
unfolding Trait.adjust_capacity div_trunc
trait_adjust_capacity_lem b c w h e = ground (arith, eqb_ℤ_iff (pos (suc c)) b.reserved_capacity)

-- A change of the duration to a new value above 0 sets that duration, keeps the work, and sets as
-- the capacity the work divided by the duration, rounded down, but at least 1, where the work is
-- not negative.
adjust_task_duration_lem :
    (b : ReservationBase) (d w : ℕ)
    → pos (suc d) ≢ b.task_duration
    → b.moldable_work ≡ pos w
    → let b' = Fields.adjust_task_duration b (pos (suc d)) in
      (b'.task_duration ≡ pos (suc d))
      × (b'.reserved_capacity ≡ pos (max 1 (w / suc d)))
      × (b'.moldable_work ≡ b.moldable_work)
unfolding Fields.adjust_task_duration div_trunc
adjust_task_duration_lem b d w h e = ground arith

-- The base's own change of the capacity can be undone: a change to any capacity above 0 and back
-- gives the same reservation, where its capacity and duration are above 0 and its work is their
-- product.
pub adjust_capacity_undo :
    (b : ReservationBase) (c k d : ℕ)
    → b.reserved_capacity ≡ pos (suc k)
    → b.task_duration ≡ pos (suc d)
    → b.moldable_work ≡ pos (suc k * suc d)
    → Fields.adjust_capacity (Fields.adjust_capacity b (pos (suc c))) (pos (suc k)) ≡ b
unfolding Fields.adjust_capacity div_trunc
adjust_capacity_undo b c k d hc hd hw =
    ground (arith, mul-div_cancel_left (suc d) {n = suc k} (omega arith))
