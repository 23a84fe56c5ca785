-- ===== src/Schedule/Update/Window.antt =====
-- Where the scheduling window stands after an update, and how times and slots correspond
-- (src/vrm/schedule/slotted_schedule/slotted_schedule_context.rs).
use native.Mathlib.Nat.{div-mul-le_self, lt-div-mul-add, div-le_self}
use vrm_rust.Base.{
  ℕ, suc, ◌*◌, ◌/◌, ◌<◌, ◌≡◌, refl, sym, ap, ◌∙◌, subst, Option, none, some, List, [], ◌∷◌, arith,
  length, length-set, unwrap_or,
}
use vrm_rust.Base.Int.{
  ℤ, pos, negsuc, pos_part, ◌≤ℤ◌, ◌<ℤ◌, ◌+ℤ◌, *ℤ-pos, div_euclid, +ℤ_parts, -ℤ_parts, range,
}
use vrm_rust.Base.I64.{IsSmall, InI64, ◌*i◌, +i-small, *i-eq, -i-eq}
use vrm_rust.Reservation.ActiveReservations
use vrm_rust.Schedule.Slot
use vrm_rust.Schedule.Slot.{Slot}
use vrm_rust.Schedule.Context.{
  Context, put_slot, get_slot_index, get_slot_start_time, get_slot_end_time,
}
use vrm_rust.Schedule.Context.Ring.{IsWindow}
use vrm_rust.Schedule.Update.{
  update, advance, reset_slot, delete_all, retire, retire_all, move_window,
}

module _ {St : Type 0} where
  get_slot_index_pos :
      (c : Context St) (t w : ℕ) → c.slot_width ≡ pos w → get_slot_index c (pos t) ≡ pos (t / w)
  unfolding get_slot_index div_euclid
  get_slot_index_pos c t w e = ground arith

  pub get_slot_index-nonneg : (c : Context St) (t : ℤ) → pos 0 ≤ℤ get_slot_index c t
  unfolding get_slot_index
  get_slot_index-nonneg c t = ground arith

  pub get_slot_index-IsSmall :
      (c : Context St) (t : ℤ) → pos 0 <ℤ c.slot_width → IsSmall t → IsSmall (get_slot_index c t)
  unfolding get_slot_index div_euclid
  get_slot_index-IsSmall c (pos t) h s = ground (arith, div-le_self t (pos_part c.slot_width))
  get_slot_index-IsSmall c (negsuc t) h s = ground arith

  -- A time that is not negative lies between the start and the end of the slot of its index, where
  -- the time and the slot width are below 2^62 and the width is above 0.
  pub time_in_slot :
      (c : Context St) (t w : ℕ)
      → c.slot_width ≡ pos (suc w)
      → IsSmall (pos t)
      → IsSmall (pos (suc w))
      → let i = get_slot_index c (pos t) in
        (get_slot_start_time c i ≤ℤ pos t) × (pos t ≤ℤ get_slot_end_time c i)
  unfolding get_slot_start_time get_slot_end_time
  time_in_slot c t w e small small_width =
      let q = t / suc w in
      let e1 = get_slot_index_pos c t (suc w) e in
      let e2 : pos q *i pos (suc w) ≡ pos (q * suc w) =
        *i-eq (pos q) (pos (suc w))
          (subst InI64 (sym (*ℤ-pos q (suc w))) (omega (arith, div-mul-le_self t (suc w))))
        ∙ *ℤ-pos q (suc w) in
      ground (
        arith,
        div-mul-le_self t (suc w),
        lt-div-mul-add {a = t} {b = suc w},
        +i-small (pos (q * suc w)) (pos (suc w)),
        +ℤ_parts (pos (q * suc w)) (pos (suc w)),
        -i-eq (pos (q * suc w) +ℤ pos (suc w)) (pos 1),
        -ℤ_parts (pos (q * suc w) +ℤ pos (suc w)) (pos 1),
      )

  -- Removing reservations from the active ones leaves the rest of the schedule.
  delete_all-slots :
      (c : Context St) (ids : List ℕ)
      → ((delete_all c ids).slots ≡ c.slots) × ((delete_all c ids).slot_width ≡ c.slot_width)
  unfolding delete_all
  delete_all-slots c [] = (refl, refl)
  delete_all-slots c (id ∷ ids) =
      let r = ActiveReservations.delete_reservation c.reservation_store c.active_reservations id in
      delete_all-slots (record c { reservation_store = r.0; active_reservations = r.1 }) ids

  reset_slot-length :
      (c : Context St) (i : ℤ) (o : Option Slot)
      → (length (reset_slot c i o).slots ≡ length c.slots)
        × ((reset_slot c i o).slot_width ≡ c.slot_width)
  unfolding reset_slot put_slot
  reset_slot-length c i none = (refl, refl)
  reset_slot-length c i (some slot) = (length-set c.slots _ (Slot.reset slot), refl)

  retire-length :
      (c : Context St) (i : ℤ)
      → (length (retire c i).slots ≡ length c.slots) × ((retire c i).slot_width ≡ c.slot_width)
  unfolding retire
  retire-length c i = reset_slot-length _ i _

  retire_all-length :
      (c : Context St) (is : List ℤ)
      → (length (retire_all c is).slots ≡ length c.slots)
        × ((retire_all c is).slot_width ≡ c.slot_width)
  unfolding retire_all
  retire_all-length c [] = (refl, refl)
  retire_all-length c (i ∷ is) =
      let (a, b) = retire_all-length (retire c i) is in
      let (a', b') = retire-length c i in (a ∙ a', b ∙ b')

  move_window-IsWindow :
      (c : Context St) (i : ℤ)
      → pos 0 <ℤ c.slot_width
      → 0 < length c.slots
      → IsSmall (pos (length c.slots))
      → pos 0 ≤ℤ i
      → IsSmall i
      → IsWindow (move_window c i)
  unfolding move_window
  move_window-IsWindow c i w n s h k =
      let L = pos (length c.slots) in
      ground (arith, +i-small i L, +ℤ_parts i L, -i-eq (i +ℤ L) (pos 1), -ℤ_parts (i +ℤ L) (pos 1))

  advance-IsWindow :
      (c c' : Context St) (i : ℤ) (o : Option (List ℕ))
      → pos 0 <ℤ c.slot_width
      → 0 < length c.slots
      → IsSmall (pos (length c.slots))
      → pos 0 ≤ℤ i
      → IsSmall i
      → advance c i o ≡ some c'
      → IsWindow c' × (c'.start_slot_index ≡ i) × (length c'.slots ≡ length c.slots)
  unfolding advance move_window
  advance-IsWindow c c' i none w n s h k e = absurd (ground arith)
  advance-IsWindow c c' i (some ids) w n s h k e =
      let before = retire_all (delete_all c ids) (range c.start_slot_index i) in
      let (l1, w1) = retire_all-length (delete_all c ids) (range c.start_slot_index i) in
      let (l2, w2) = delete_all-slots c ids in
      let same : length before.slots ≡ length c.slots = l1 ∙ ap length l2 in
      let width : before.slot_width ≡ c.slot_width = w1 ∙ w2 in
      let found : move_window before i ≡ c' = ap (λ o. unwrap_or o (move_window before i)) e in
      let shape : IsWindow (move_window before i)
          × ((move_window before i).start_slot_index ≡ i)
          × (length (move_window before i).slots ≡ length c.slots) =
        (
          move_window-IsWindow before i (subst (λ (x : ℤ). pos 0 <ℤ x) (sym width) w)
              (subst (λ (x : ℕ). 0 < x) (sym same) n)
              (subst (λ (x : ℕ). IsSmall (pos x)) (sym same) s) h k,
          refl,
          same,
        ) in
      subst
        (λ (x : Context St).
          IsWindow x × (x.start_slot_index ≡ i) × (length x.slots ≡ length c.slots))
        found shape

  -- An update that does not panic moves the window to the slot of the current time: it starts
  -- there, spans exactly as many indices as there are slots, and no slot is lost, where the slot
  -- width is above 0, there is a slot, and the time and the number of slots are below 2^62.
  pub update-IsWindow :
      (c c' : Context St)
      → pos 0 <ℤ c.slot_width
      → 0 < length c.slots
      → IsSmall (pos (length c.slots))
      → IsSmall c.system_time
      → update c ≡ some c'
      → IsWindow c'
        × (c'.start_slot_index ≡ get_slot_index c c.system_time)
        × (length c'.slots ≡ length c.slots)
  unfolding update
  update-IsWindow c c' w n s t e =
      advance-IsWindow _ c' (get_slot_index c c.system_time) _ w n s
        (get_slot_index-nonneg c c.system_time) (get_slot_index-IsSmall c c.system_time w t) e
