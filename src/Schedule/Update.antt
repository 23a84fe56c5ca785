-- ===== src/Schedule/Update.antt =====
-- How the scheduling window moves with the clock, and how a schedule is made (`update` and `new` of
-- src/vrm/schedule/slotted_schedule/slotted_schedule_context.rs).
pub mod Window
pub mod Total
use vrm_rust.Base.{
  ℕ, zero, suc, ◌+◌, String, Bool, true, false, Option, none, some, List, [], ◌∷◌, if◌then◌else◌,
  length, ◌>>=◌, nat_eq, unwrap_or, replicate,
}
use vrm_rust.Base.Int.{ℤ, pos, pos_part, ltb_ℤ, eqb_ℤ, range, ◌+ℤ◌}
use vrm_rust.Base.I64.{◌+i◌, ◌-i◌, ◌*i◌}
use vrm_rust.Base.HashSet
use vrm_rust.Schedule.Slot
use vrm_rust.Schedule.Slot.{Slot}
use vrm_rust.Schedule.LoadBuffer
use vrm_rust.Schedule.Context.{
  Context, get_slot, put_slot, get_slot_index, get_slot_start_time, get_slot_end_time,
  get_slot_load,
}
use vrm_rust.Reservation.ActiveReservations
use vrm_rust.Store.{Store}
use vrm_rust.Store.Read.{get_assigned_end}

abbrev pub min_ℤ : ℤ → ℤ → ℤ
min_ℤ a b = if ltb_ℤ b a then b else a

module _ {St : Type 0} where
  -- The reservations of one slot whose last slot it is, added to the set. `none` is the panic at a
  -- reservation that the store does not know.
  unfoldable pub expired_in : Context St → ℤ → List ℕ → List ℕ → Option (List ℕ)
  expired_in c index [] ids = some ids
  expired_in c index (id ∷ rest) ids = elim (get_assigned_end c.reservation_store id) [
    | none ↦ none
    | some time ↦
        expired_in c index rest (
          if eqb_ℤ (get_slot_index c (time -i pos 1)) index then (HashSet.insert id ids).0 else ids)
  ]

  unfoldable pub expired : Context St → List ℤ → List ℕ → Option (List ℕ)
  unfolding expired_in
  expired c [] ids = some ids
  expired c (index ∷ rest) ids = elim (get_slot c index) [
    | none ↦ expired c rest ids
    | some slot ↦ elim (expired_in c index slot.reservation_ids ids) [
      | none ↦ none
      | some ids' ↦ expired c rest ids'
    ]
  ]

  unfoldable pub delete_all : Context St → List ℕ → Context St
  delete_all c [] = c
  delete_all c (id ∷ ids) =
      let (store, active, found) =
        ActiveReservations.delete_reservation c.reservation_store c.active_reservations id in
      delete_all (record c { reservation_store = store; active_reservations = active }) ids

  unfoldable pub reset_slot : Context St → ℤ → Option Slot → Context St
  reset_slot c index none = c
  reset_slot c index (some slot) = put_slot c index (Slot.reset slot)

  -- One round of the second loop: the load goes to the buffer, and the slot is reset.
  unfoldable pub retire : Context St → ℤ → Context St
  unfolding reset_slot
  retire c index =
      let c' = record c {
        load_buffer = LoadBuffer.add c.load_buffer (get_slot_load c index) index;
      } in
      reset_slot c' index (get_slot c' index)

  unfoldable pub retire_all : Context St → List ℤ → Context St
  unfolding retire
  retire_all c [] = c
  retire_all c (index ∷ rest) = retire_all (retire c index) rest

  -- The window of as many slots as the schedule has, from the given index on.
  unfoldable pub move_window : Context St → ℤ → Context St
  move_window c new_start =
      let new_end = new_start +i pos (length c.slots) -i pos 1 in
      record c {
        start_slot_index = new_start;
        end_slot_index = new_end;
        scheduling_window_start_time = get_slot_start_time c new_start;
        scheduling_window_end_time = get_slot_end_time c new_end;
      }

  -- The rest of `update` once the expired reservations are known.
  unfoldable pub advance : Context St → ℤ → Option (List ℕ) → Option (Context St)
  unfolding delete_all retire_all move_window
  advance c new_start none = none
  advance c new_start (some ids) =
      some
        (move_window (retire_all (delete_all c ids) (range c.start_slot_index new_start)) new_start)

  unfoldable pub update : Context St → Option (Context St)
  unfolding expired advance
  update c =
      let new_start = get_slot_index c c.system_time in
      let cleanup_end = min_ℤ new_start (c.end_slot_index +i pos 1) in
      let c1 = record c {
        is_frag_cache_up_to_date =
            if ltb_ℤ c.start_slot_index new_start then false else c.is_frag_cache_up_to_date;
      } in
      advance c1 new_start (expired c1 (range c1.start_slot_index cleanup_end) [])

  unfoldable pub new :
      (id : String) (number_of_real_slots slot_width capacity : ℤ)
      (use_quadratic_mean_fragmentation : Bool) (strategy : St) (reservation_store : Store)
      (system_time : ℤ) (zero_f64 : ℕ)
      → Option (Context St)
  unfolding update
  new id number_of_real_slots slot_width capacity use_quadratic strategy store time zero_f64 =
      update (record {
        strategy = strategy;
        id = id;
        slots = replicate (pos_part number_of_real_slots) (Slot.new capacity);
        slot_width = slot_width;
        start_slot_index = time;
        end_slot_index = number_of_real_slots;
        scheduling_window_start_time = time;
        scheduling_window_end_time = number_of_real_slots *i slot_width -i pos 1;
        load_buffer = LoadBuffer.new LoadBuffer.new_context;
        active_reservations = [];
        is_frag_cache_up_to_date = true;
        fragmentation_cache = zero_f64;
        use_quadratic_mean_fragmentation = use_quadratic;
        is_frag_needed = false;
        reservation_store = store;
        system_time = time;
      })
