-- ===== src/Schedule/Sound.antt =====
-- No slot of a schedule is overbooked: its load is what its reservations take, and is within its
-- capacity (src/vrm/schedule/slotted_schedule).
pub mod Granting
pub mod Kept
pub mod Moves
pub mod Removal
pub mod Room
pub mod Insertion
pub mod Booked
pub mod Complete
use vrm_rust.Base.{
  ℕ, Bool, get_elem?, ◌≡◌, Option, none, some, List, All, All-set, All-get, arith, if◌then◌else◌,
}
use vrm_rust.Base.Int.{ℤ, pos, pos_part}
use vrm_rust.Schedule.Slot.{Slot}
use vrm_rust.Schedule.Slot.Accounting.{IsValid, Nonneg}
use vrm_rust.Schedule.Context.{Context, get_slot, put_slot, get_real_slot_index}
use vrm_rust.Schedule.Context.Ring.{All-get_slot}
use vrm_rust.Store.{Store}
use vrm_rust.Store.Read.{get_reserved_capacity}

module _ {St : Type 0} where
  -- Every slot is valid for the capacities that the store knows.
  unfoldable pub IsSound : Context St → Type 0
  IsSound c = All (IsValid (get_reserved_capacity c.reservation_store)) c.slots

  pub get_slot-IsValid :
      (c : Context St) (i : ℤ) (s : Slot)
      → IsSound c
      → get_slot c i ≡ some s
      → IsValid (get_reserved_capacity c.reservation_store) s
  unfolding IsSound
  get_slot-IsValid c i s h e =
      All-get_slot (IsValid (get_reserved_capacity c.reservation_store)) c i s h e

  pub put_slot-IsSound :
      (c : Context St) (i : ℤ) (s : Slot)
      → IsSound c
      → IsValid (get_reserved_capacity c.reservation_store) s
      → IsSound (put_slot c i s)
  unfolding put_slot IsSound
  put_slot-IsSound c i s h v =
      All-set (IsValid (get_reserved_capacity c.reservation_store)) c.slots _ s h v
