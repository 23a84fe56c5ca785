-- ===== src/Schedule/Sound/Removal.antt =====
-- The removal of a reservation leaves no slot overbooked (`delete_reservation` of
-- src/vrm/schedule/slotted_schedule/schedule_base.rs and slotted_schedule_context.rs).
use vrm_rust.Base.{
  ℕ, ◌≡◌, refl, ap, ◌∙◌, subst, Bool, true, false, some, List, [], ◌∷◌, arith, inl, inr, Bool-cases,
  bind-some, ◌>>=◌, nat_eq, if◌then◌else◌, is_some,
}
use vrm_rust.Base.Int.{ℤ, leb_ℤ}
use vrm_rust.Schedule.Context.{Context, get_slot}
use vrm_rust.Schedule.NodeStrategy.{NodeStrategy}
use vrm_rust.Schedule.Update.{update}
use vrm_rust.Schedule.Delete
use vrm_rust.Schedule.Delete.{
  delete_in, delete_from_slots, withdraw, occupied, is_reservation_valid_for_deletion,
}
use vrm_rust.Schedule.Operations
use vrm_rust.Schedule.Operations.{set_state}
use vrm_rust.Schedule.Sound.Kept.{IsKept, delete_in-IsKept, choose-IsKept, set_state-IsKept}
use vrm_rust.Schedule.Sound.Moves.{moved-IsKept, capacities-delete_reservation, update-IsKept}
use vrm_rust.Reservation.ActiveReservations
use vrm_rust.Reservation.Fields.{rejected}
use vrm_rust.Store.Read.{get_reserved_capacity, get_assigned_start, get_assigned_end}

choose_first-IsKept :
    (b : Bool) (p q : Context NodeStrategy × Bool)
    → IsKept p.0
    → IsKept q.0
    → IsKept (if b then p else q).0
choose_first-IsKept true p q k l = k
choose_first-IsKept false p q k l = l

delete_from_slots-IsKept :
    (c : Context NodeStrategy) (id : ℕ) (capacity : ℤ) (is : List ℤ)
    → get_reserved_capacity c.reservation_store id ≡ capacity
    → IsKept c
    → IsKept (delete_from_slots c id capacity is).0
unfolding delete_from_slots
delete_from_slots-IsKept c id capacity [] e k = k
delete_from_slots-IsKept c id capacity (i ∷ is) e k =
    let slot = get_slot c i in
    let d = (delete_in c id capacity i slot).0 in
    let (kept, store) =
      subst
        (λ x.
          IsKept (delete_in c id x i slot).0
          × ((delete_in c id x i slot).0.reservation_store ≡ c.reservation_store))
        e (delete_in-IsKept c id i slot k refl) in
    let e' = ap (λ s. get_reserved_capacity s id) store ∙ e in
    choose_first-IsKept (is_some slot) (delete_from_slots d id capacity is) (c, false)
      (delete_from_slots-IsKept d id capacity is e' kept) k

withdraw-IsKept :
    (c : Context NodeStrategy) (id : ℕ) (start end_time : ℤ)
    → IsKept c
    → IsKept (withdraw c id start end_time)
unfolding withdraw
withdraw-IsKept c id start end_time k =
    let r = ActiveReservations.delete_reservation c.reservation_store c.active_reservations id in
    let taken = capacities-delete_reservation c.reservation_store c.active_reservations id in
    let c1 = record c { reservation_store = r.0; active_reservations = r.1 } in
    let capacity = get_reserved_capacity c.reservation_store id in
    let p = delete_from_slots c1 id capacity (occupied c1 start end_time) in
    let k2 =
      delete_from_slots-IsKept c1 id capacity (occupied c1 start end_time) (ap (λ t. t id) taken)
        (moved-IsKept c c1 refl taken k) in
    let c3 = record (p.0) { is_frag_cache_up_to_date = false } in
    choose-IsKept r.2 (if p.1 then c3 else p.0) c
      (choose-IsKept p.1 c3 p.0 (moved-IsKept p.0 c3 refl refl k2) k2) k

delete-IsKept :
    (c c' : Context NodeStrategy) (id : ℕ)
    → IsKept c
    → Delete.delete_reservation c id ≡ some c'
    → IsKept c'
unfolding Delete.delete_reservation
delete-IsKept c c' id k e =
    let (end_time, e1, f1) = bind-some (get_assigned_end c.reservation_store id) _ c' e in
    let (start, e2, f2) = bind-some (get_assigned_start c.reservation_store id) _ c' f1 in
    let b = leb_ℤ end_time c.system_time in
    let same : (if b then c else withdraw c id start end_time) ≡ c' = cc in
    subst IsKept same
      (choose-IsKept b c (withdraw c id start end_time) k (withdraw-IsKept c id start end_time k))

-- The removal of a reservation from a node leaves every slot valid, whether the schedule holds the
-- reservation or not, where all slots were valid before, no reservation of the store has a
-- negative capacity, and the removal does not panic.
pub delete_reservation-IsKept :
    (c c' : Context NodeStrategy) (id : ℕ)
    → IsKept c
    → Operations.delete_reservation c id ≡ some c'
    → IsKept c'
unfolding Operations.delete_reservation is_reservation_valid_for_deletion
delete_reservation-IsKept c c' id k e =
    elim (Bool-cases (ActiveReservations.contains_key c.active_reservations id)) [
      | inl held ↦
          let f : (update c >>= λ d. Delete.delete_reservation d id) ≡ some c' =
            ground (arith, held, e) in
          let (d, e1, f1) = bind-some (update c) _ c' f in
          delete-IsKept d c' id (update-IsKept c d k e1) f1
      | inr absent ↦
          let same : set_state c id rejected ≡ c' = unfold set_state in ground (arith, absent, e) in
          subst IsKept same (set_state-IsKept c id rejected k)
    ]
