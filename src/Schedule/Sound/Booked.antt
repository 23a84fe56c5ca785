-- ===== src/Schedule/Sound/Booked.antt =====
-- What `reserve_without_check` books: every slot of the reservation holds it, where there is room
-- (src/vrm/schedule/slotted_schedule/schedule_base.rs).
use vrm_rust.Base.{
  All-map, map_option, bind-value, ◌>>=◌, ℕ, ◌≡◌, refl, sym, ap, ◌∙◌, subst, Bool, true, false,
  Option, some, List, [], ◌∷◌, arith, All, nat_eq,
}
use vrm_rust.Base.Floats.{F64, Floats}
use vrm_rust.Base.HashSet
use vrm_rust.Base.HashSet.{contains}
use vrm_rust.Base.Int.{ℤ}
use vrm_rust.Schedule.Slot.{Slot}
use vrm_rust.Schedule.Context.{Context, get_slot, get_real_slot_index}
use vrm_rust.Schedule.Context.Ring.{IsWindow}
use vrm_rust.Schedule.NodeStrategy.{NodeStrategy, node_strategy, insert_reservation_into_slot}
use vrm_rust.Schedule.Operations.{
  fill_slots, activate, set_state, early_stop, booked, free_slots, reserve_without_check,
}
use vrm_rust.Reservation.Fields.{reserve_answer, rejected}
use vrm_rust.Reservation.Kinds.{Reservation, get_base}
use vrm_rust.Reservation.ActiveReservations
use vrm_rust.Schedule.Sound.Kept.{IsKept, insert_reservation_into_slot-IsKept}
use vrm_rust.Store.Read.{get, read, get_reserved_capacity, get_assigned_start, get_assigned_end}
use vrm_rust.Schedule.Sound.Insertion.{
  IsHeld, At, Ready, inserted, inserted-shape, inserted-IsHeld, Ready-inserted, inserted-IsWindow,
  At-inserted, chosen, passed, not_negative,
}

module _ (id : ℕ) where
  inserted-active :
      (c : Context NodeStrategy) (i : ℤ)
      → (inserted id c i).active_reservations ≡ c.active_reservations
  unfolding inserted insert_reservation_into_slot
  inserted-active c i =
      (inserted-shape id c i (get_slot c i) (get_reserved_capacity c.reservation_store id)).3

  fill_slots-IsHeld :
      (fl : Floats) (fragmentation : Context NodeStrategy → Bool → ℤ → ℤ → F64)
      (c : Context NodeStrategy) (slots : List ℤ)
      → IsWindow c
      → IsKept c
      → All (Ready id c) slots
      → (c' : Context NodeStrategy) × (fill_slots (node_strategy fl fragmentation) c id slots
          ≡ some c')
        × All (At c' (IsHeld id)) slots
        × ((j : ℤ) → At c (IsHeld id) j → At c' (IsHeld id) j)
        × (c'.active_reservations ≡ c.active_reservations)
  unfolding fill_slots node_strategy inserted
  fill_slots-IsHeld fl fragmentation c [] w k r = (c, refl, tt, λ j h. h, refl)
  fill_slots-IsHeld fl fragmentation c (i ∷ rest) w k r =
      let d = inserted id c i in
      let kept = insert_reservation_into_slot-IsKept c i id k in
      let (c', e, all, keeps, active) =
        fill_slots-IsHeld fl fragmentation d rest (inserted-IsWindow id c i w) kept
          (All-map (Ready id c) (Ready id d) rest (Ready-inserted id c i w k r.0) r.1) in
      (
        c',
        e,
        (keeps i (inserted-IsHeld id c i w k r.0), all),
        λ j h. keeps j (At-inserted id c i j (IsHeld id) w k r.0 h (λ s x. x)),
        active ∙ inserted-active c i,
      )

  -- The state and the set of active reservations do not touch the slots.
  activate-slots :
      (c : Context NodeStrategy) (slots : List ℤ) (P : Slot → Type 0) (j : ℤ)
      → ActiveReservations.contains_key c.active_reservations id ≡ false
      → At c P j
      → At (activate c id slots) P j
  unfolding activate set_state ActiveReservations.insert ActiveReservations.contains_key
      HashSet.insert get_slot get_real_slot_index
  activate-slots c slots P j new (s, e, p) =
      let r = ActiveReservations.insert c.active_reservations id in
      let fresh : r.1 ≡ true = ground (arith, new) in
      let c1 = record c { active_reservations = r.0 } in
      (
        s,
        ap (λ d. get_slot (set_state d id reserve_answer) j)
              (chosen fresh c1 (free_slots c1 id slots))
            ∙ e,
        p,
      )

  -- On a node whose slots are valid, reserve_without_check comes to a result for a known
  -- reservation that is not active, and afterwards every slot of its assigned times holds it,
  -- where each of these slots lies in the window and has room for its capacity or holds it
  -- already. The window spans as many indices as there are slots, of which there is one, and its
  -- slots are wider than 0.
  pub reserve_without_check-IsHeld :
      (fl : Floats) (fragmentation : Context NodeStrategy → Bool → ℤ → ℤ → F64)
      (c : Context NodeStrategy) (r : Reservation)
      → IsWindow c
      → IsKept c
      → get c.reservation_store id ≡ some r
      → ActiveReservations.contains_key c.active_reservations id ≡ false
      → All (Ready id c) (booked c (get_base r).assigned_start (get_base r).assigned_end)
      → (c' : Context NodeStrategy) × (reserve_without_check (node_strategy fl fragmentation) c id
          ≡ some c')
        × All (At c' (IsHeld id)) (booked c (get_base r).assigned_start (get_base r).assigned_end)
  unfolding reserve_without_check early_stop get_assigned_start get_assigned_end read
  reserve_without_check-IsHeld fl fragmentation c r w k known new ready =
      let start = (get_base r).assigned_start in
      let end_time = (get_base r).assigned_end in
      let slots = booked c start end_time in
      let (filled, e, all, keeps, active) = fill_slots-IsHeld fl fragmentation c slots w k ready in
      let e1 : get_assigned_start c.reservation_store id ≡ some start =
        ap (map_option (λ x. (get_base x).assigned_start)) known in
      let e2 : get_assigned_end c.reservation_store id ≡ some end_time =
        ap (map_option (λ x. (get_base x).assigned_end)) known in
      let going : early_stop c id ≡ c =
        passed (not_negative (get_reserved_capacity c.reservation_store id) (k.nonneg id).0)
          (set_state c id rejected) c in
      let book : ℤ → ℤ → Context NodeStrategy → Option (Context NodeStrategy) = λ s t d.
        fill_slots (node_strategy fl fragmentation) d id (booked d s t) >>= λ x.
        some (activate x id (booked d s t)) in
      let new' = subst (λ a. ActiveReservations.contains_key a id ≡ false) (sym active) new in
      (
        activate filled id slots,
        bind-value
              (λ s. get_assigned_end c.reservation_store id >>= λ t. book s t (early_stop c id)) e1
            ∙ bind-value (λ t. book start t (early_stop c id)) e2
            ∙ ap (book start end_time) going
            ∙ bind-value (λ x. some (activate x id slots)) e,
        All-map (At filled (IsHeld id)) (At (activate filled id slots) (IsHeld id)) slots
            (λ j h. activate-slots filled slots (IsHeld id) j new' h) all,
      )
