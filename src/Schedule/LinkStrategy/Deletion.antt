-- ===== src/Schedule/LinkStrategy/Deletion.antt =====
-- What the deletion of a reservation leaves of the strategy of its schedule (delete_reservation of
-- schedule_base.rs with the functions that it calls).
use vrm_rust.Base.{
  ℕ, Bool, true, false, Option, none, some, List, [], ◌∷◌, if◌then◌else◌, ◌>>=◌, ◌≡◌, refl, ap, sym,
  ◌∙◌, inl, inr, Bool-cases, bind-some, is_some,
}
use vrm_rust.Base.Int.{ℤ, ltb_ℤ, leb_ℤ, range, pos}
use vrm_rust.Reservation.ActiveReservations
use vrm_rust.Base.I64.{◌+i◌}
use vrm_rust.Schedule.LoadBuffer
use vrm_rust.Schedule.Context.{Context, get_slot, put_slot, get_slot_index, get_slot_load}
use vrm_rust.Schedule.Slot.{Slot}
use vrm_rust.Schedule.Update.{
  update, advance, delete_all, retire, retire_all, reset_slot, move_window, expired, min_ℤ,
}
use vrm_rust.Schedule.Delete
use vrm_rust.Schedule.Delete.{
  delete_in, delete_from_slots, withdraw, is_reservation_valid_for_deletion, occupied,
}
use vrm_rust.Schedule.LinkStrategy.{LinkStrategy}
use vrm_rust.Schedule.Operations
use vrm_rust.Store.Read.{get_assigned_start, get_assigned_end, get_reserved_capacity}

module _ {St : Type 0} where
  abbrev Same : Context St → Context St → Type 0
  Same c c' = c'.strategy ≡ c.strategy

  Same-delete_in :
      (c : Context St) (id : ℕ) (capacity index : ℤ) (slot : Option Slot)
      → Same c (delete_in c id capacity index slot).0
  unfolding delete_in put_slot
  Same-delete_in c id capacity index none = refl
  Same-delete_in c id capacity index (some slot) = refl

  Same-delete_from_slots :
      (c : Context St) (id : ℕ) (capacity : ℤ) (indices : List ℤ)
      → Same c (delete_from_slots c id capacity indices).0
  unfolding delete_from_slots
  Same-delete_from_slots c id capacity [] = refl
  Same-delete_from_slots c id capacity (index ∷ rest) =
      elim (Bool-cases (is_some (get_slot c index))) [
        | inl e ↦ rw e (
            Same-delete_from_slots (delete_in c id capacity index (get_slot c index)).0 id capacity
              rest
            ∙ Same-delete_in c id capacity index (get_slot c index))
        | inr e ↦ rw e refl
      ]

  Same-if :
      (c c2 : Context St) (found complete : Bool)
      → Same c c2
      → Same c (
          if found
          then (if complete then record c2 { is_frag_cache_up_to_date = false } else c2)
          else c)
  Same-if c c2 true true h = h
  Same-if c c2 true false h = h
  Same-if c c2 false complete h = refl

  Same-withdraw :
      (c : Context St) (id : ℕ) (start end_time : ℤ) → Same c (withdraw c id start end_time)
  unfolding withdraw
  Same-withdraw c id start end_time =
      let capacity = get_reserved_capacity c.reservation_store id in
      let (store, active, found) =
        ActiveReservations.delete_reservation c.reservation_store c.active_reservations id in
      let c1 = record c { reservation_store = store; active_reservations = active } in
      let (c2, complete) = delete_from_slots c1 id capacity (occupied c1 start end_time) in
      Same-if c c2 found complete
        (Same-delete_from_slots c1 id capacity (occupied c1 start end_time))

  Same-reset_slot :
      (c : Context St) (index : ℤ) (slot : Option Slot) → Same c (reset_slot c index slot)
  unfolding reset_slot put_slot
  Same-reset_slot c index none = refl
  Same-reset_slot c index (some slot) = refl

  Same-retire : (c : Context St) (index : ℤ) → Same c (retire c index)
  unfolding retire
  Same-retire c index =
      let c' = record c {
        load_buffer = LoadBuffer.add c.load_buffer (get_slot_load c index) index;
      } in
      Same-reset_slot c' index (get_slot c' index)

  Same-retire_all : (c : Context St) (indices : List ℤ) → Same c (retire_all c indices)
  unfolding retire_all
  Same-retire_all c [] = refl
  Same-retire_all c (index ∷ rest) = Same-retire_all (retire c index) rest ∙ Same-retire c index

  Same-delete_all : (c : Context St) (ids : List ℕ) → Same c (delete_all c ids)
  unfolding delete_all
  Same-delete_all c [] = refl
  Same-delete_all c (id ∷ ids) =
      let (store, active, found) =
        ActiveReservations.delete_reservation c.reservation_store c.active_reservations id in
      Same-delete_all (record c { reservation_store = store; active_reservations = active }) ids

  Same-advance :
      (c c' : Context St) (new_start : ℤ) (ids : Option (List ℕ))
      → advance c new_start ids ≡ some c'
      → Same c c'
  unfolding advance move_window
  Same-advance c c' new_start none e = absurd (cc)
  Same-advance c c' new_start (some ids) e =
      let all = retire_all (delete_all c ids) (range c.start_slot_index new_start) in
      let q : move_window all new_start ≡ c' = cc in
      sym (ap (λ (c : Context St). c.strategy) q)
      ∙ Same-retire_all (delete_all c ids) (range c.start_slot_index new_start)
      ∙ Same-delete_all c ids

  Same-update : (c c' : Context St) → update c ≡ some c' → Same c c'
  unfolding update
  Same-update c c' e =
      let new_start = get_slot_index c c.system_time in
      let c1 = record c {
        is_frag_cache_up_to_date =
            if ltb_ℤ c.start_slot_index new_start then false else c.is_frag_cache_up_to_date;
      } in
      Same-advance c1 c' new_start
        (expired c1 (range c1.start_slot_index (min_ℤ new_start (c.end_slot_index +i pos 1))) []) e

  Same-decided :
      (c : Context St) (id : ℕ) (start end_time : ℤ) (over : Bool)
      → Same c (if over then c else withdraw c id start end_time)
  Same-decided c id start end_time true = refl
  Same-decided c id start end_time false = Same-withdraw c id start end_time

  Same-delete : (c c' : Context St) (id : ℕ) → Delete.delete_reservation c id ≡ some c' → Same c c'
  unfolding Delete.delete_reservation
  Same-delete c c' id e =
      let (end_time, ee, e1) =
        bind-some (get_assigned_end c.reservation_store id)
          (λ end_time. get_assigned_start c.reservation_store id >>= λ start.
            some (if leb_ℤ end_time c.system_time then c else withdraw c id start end_time))
          c' e in
      let (start, es, e2) =
        bind-some (get_assigned_start c.reservation_store id)
          (λ start. some (if leb_ℤ end_time c.system_time then c else withdraw c id start end_time))
          c' e1 in
      let q : (if leb_ℤ end_time c.system_time then c else withdraw c id start end_time) ≡ c' =
        cc in
      sym (ap (λ (c : Context St). c.strategy) q)
      ∙ Same-decided c id start end_time (leb_ℤ end_time c.system_time)

  Same-valid : (c : Context St) (id : ℕ) → Same c (is_reservation_valid_for_deletion c id).0
  unfolding is_reservation_valid_for_deletion
  Same-valid c id = elim (Bool-cases (ActiveReservations.contains_key c.active_reservations id)) [
    | inl e ↦ rw e refl
    | inr e ↦ rw e refl
  ]

  Same-delete_valid :
      (c c1 c' : Context St) (id : ℕ) (valid : Bool)
      → Same c c1
      → (if valid then (update c1 >>= λ c2. Delete.delete_reservation c2 id) else some c1) ≡ some c'
      → Same c c'
  Same-delete_valid c c1 c' id true h e =
      let (c2, eu, ed) = bind-some (update c1) (λ c2. Delete.delete_reservation c2 id) c' e in
      Same-delete c2 c' id ed ∙ Same-update c1 c2 eu ∙ h
  Same-delete_valid c c1 c' id false h e =
      let q : c1 ≡ c' = cc in sym (ap (λ (c : Context St). c.strategy) q) ∙ h

  pub Same-delete_reservation :
      (c c' : Context St) (id : ℕ) → Operations.delete_reservation c id ≡ some c' → Same c c'
  unfolding Operations.delete_reservation
  Same-delete_reservation c c' id e =
      let (c1, valid) = is_reservation_valid_for_deletion c id in
      Same-delete_valid c c1 c' id valid (Same-valid c id) e

-- A deletion on the schedule of a network, if it comes to a result, changes neither the store of
-- the resources, which has the schedules of the links, nor the remembered paths: what the
-- reservation takes on the links stays taken.
pub delete_reservation-strategy :
    (c c' : Context LinkStrategy) (id : ℕ)
    → Operations.delete_reservation c id ≡ some c'
    → (c'.strategy.resource_store ≡ c.strategy.resource_store)
      × (c'.strategy.reserved_paths ≡ c.strategy.reserved_paths)
delete_reservation-strategy c c' id e =
    let same = Same-delete_reservation c c' id e in
    (
      ap (λ (s : LinkStrategy). s.resource_store) same,
      ap (λ (s : LinkStrategy). s.reserved_paths) same,
    )
