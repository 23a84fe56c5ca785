-- ===== src/Schedule/Context.antt =====
-- The state of a slotted schedule and its index arithmetic
-- (src/vrm/schedule/slotted_schedule/slotted_schedule_context.rs).
pub mod Ring
use vrm_rust.Base.{
  ℕ, zero, suc, ◌+◌, ◌-◌, String, Bool, true, false, Option, none, some, List, [], ◌∷◌,
  if◌then◌else◌, length, get_elem?, set, ◌||◌, map, replicate,
}
use vrm_rust.Base.Floats.{F64}
use vrm_rust.Base.Int.{ℤ, pos, negsuc, pos_part, ltb_ℤ, leb_ℤ, rem_trunc, div_euclid}
use vrm_rust.Base.I64.{◌+i◌, ◌-i◌, ◌*i◌}
use vrm_rust.Schedule.Slot
use vrm_rust.Schedule.Slot.{Slot}
use vrm_rust.Schedule.LoadBuffer.{LoadBuffer}
use vrm_rust.Reservation.ActiveReservations
use vrm_rust.Reservation.ActiveReservations.{Reservations}
use vrm_rust.Store.{Store}

-- `system_time` is what the clock of the field `simulator` reads during the call at hand.
pub record Context (St : Type 0) : Type 0 where
  pub strategy : St
  pub id : String
  pub slots : List Slot
  pub slot_width : ℤ
  pub start_slot_index : ℤ
  pub end_slot_index : ℤ
  pub scheduling_window_start_time : ℤ
  pub scheduling_window_end_time : ℤ
  pub load_buffer : LoadBuffer
  pub active_reservations : Reservations
  pub is_frag_cache_up_to_date : Bool
  pub fragmentation_cache : F64
  pub use_quadratic_mean_fragmentation : Bool
  pub is_frag_needed : Bool
  pub reservation_store : Store
  pub system_time : ℤ

module _ {St : Type 0} where
  unfoldable pub clear : Context St → Context St
  clear c = record c {
    slots = map Slot.reset c.slots;
    active_reservations = ActiveReservations.clear c.active_reservations;
  }

  unfoldable pub get_real_slot_index : Context St → ℤ → ℤ
  get_real_slot_index c index = rem_trunc index (pos (length c.slots))

  -- `get_slot` and `get_mut_slot`. Where there is no slot at all, the source panics at the remainder
  -- by 0 for an index in the window, and the model gives `none`.
  unfoldable pub get_slot : Context St → ℤ → Option Slot
  unfolding get_real_slot_index
  get_slot c index =
      if ltb_ℤ index (pos 0)
      then none
      else if ltb_ℤ index c.start_slot_index || ltb_ℤ c.end_slot_index index
      then none
      else get_elem? c.slots (pos_part (get_real_slot_index c index))

  -- The assignment through the reference that `get_mut_slot` gave.
  unfoldable pub put_slot : Context St → ℤ → Slot → Context St
  unfolding get_real_slot_index
  put_slot c index slot = record c {
    slots = set c.slots (pos_part (get_real_slot_index c index)) slot;
  }

  -- The source panics at a slot width of 0, which `IsWindow` of `Ring` excludes.
  unfoldable pub get_slot_index : Context St → ℤ → ℤ
  get_slot_index c time =
      let index = div_euclid time c.slot_width in if ltb_ℤ index (pos 0) then pos 0 else index

  unfoldable pub get_slot_start_time : Context St → ℤ → ℤ
  get_slot_start_time c index = index *i c.slot_width

  unfoldable pub get_slot_end_time : Context St → ℤ → ℤ
  get_slot_end_time c index = index *i c.slot_width +i c.slot_width -i pos 1

  unfoldable pub get_effective_slot_index : Context St → ℤ → ℤ
  get_effective_slot_index c slot_index =
      let from_start =
        if ltb_ℤ slot_index c.start_slot_index then c.start_slot_index else slot_index in
      if ltb_ℤ c.end_slot_index from_start then c.end_slot_index else from_start

  unfoldable pub is_time_in_scheduling_window : Context St → ℤ → Bool
  is_time_in_scheduling_window c time =
      if ltb_ℤ c.scheduling_window_end_time time || ltb_ℤ time c.scheduling_window_start_time
      then false
      else true

  unfoldable pub get_slot_load : Context St → ℤ → ℤ
  unfolding get_slot
  get_slot_load c index = elim (get_slot c index) [ none ↦ pos 0 | some slot ↦ slot.load ]
