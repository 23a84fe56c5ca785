-- ===== src/Schedule/Sound/Complete.antt =====
-- A request to reserve comes to a result on a node (`reserve` of
-- src/vrm/schedule/slotted_schedule/schedule_base.rs).
use vrm_rust.Base.{
  String, string_eq, nat_eq, if◌then◌else◌, nat_beq, ℕ, ◌≡◌, refl, ap, ◌∙◌, Bool, true, false,
  Option, none, some, List, [], ◌∷◌, arith, bind-value, ◌>>=◌, map_option,
}
use vrm_rust.Base.Dict
use vrm_rust.Base.Floats.{F64, Floats}
use vrm_rust.Base.Int.{ℤ, ◌≤ℤ◌}
use vrm_rust.Schedule.Context.{Context}
use vrm_rust.Schedule.Context.Ring.{InWindow}
use vrm_rust.Schedule.NodeStrategy.{NodeStrategy, node_strategy, insert_reservation_into_slot}
use vrm_rust.Schedule.Update.{update}
use vrm_rust.Schedule.Fit.{calculate_schedule}
use vrm_rust.Schedule.Fit.Search.{IsTimed}
use vrm_rust.Schedule.Fit.Candidates.{IsAttempt}
use vrm_rust.Schedule.Fit.Results.{calculate_schedule-AllPlaced}
use vrm_rust.Schedule.Operations.{
  is_empty, fill_slots, activate, booked, early_stop, reserve, reserve_best, reserve_promoted,
  reserve_without_check,
}
use vrm_rust.Schedule.Sound.Kept.{IsKept, early_stop-IsKept}
use vrm_rust.Schedule.Sound.Granting.{node_strategy-IsGranting}
use vrm_rust.Schedule.Sound.Moves.{update-IsKept, reserve-IsKept}
use vrm_rust.Reservation.Kinds.{Reservation, get_base, map_base}
use vrm_rust.Reservation.ProbeReservations.{
  ProbeReservations, promote_found, promote_best, only_promote_best, get_best_probe_reservation_id,
  est_reservation_compare,
}
use vrm_rust.Reservation.ProbeReservations.Best.{get-promote, take_over}
use vrm_rust.Store.{Store}
use vrm_rust.Store.Read.{get, read, get_reserved_capacity, get_assigned_start, get_assigned_end}

module _ (fl : Floats) (fragmentation : Context NodeStrategy → Bool → ℤ → ℤ → F64) (id : ℕ) where
  fill_slots-total :
      (c : Context NodeStrategy) (slots : List ℤ)
      → (c' : Context NodeStrategy) × (fill_slots (node_strategy fl fragmentation) c id slots
          ≡ some c')
  unfolding fill_slots node_strategy
  fill_slots-total c [] = (c, refl)
  fill_slots-total c (i ∷ rest) =
      fill_slots-total
        (insert_reservation_into_slot c (get_reserved_capacity c.reservation_store id) i id) rest

  reserve_without_check-total :
      (c : Context NodeStrategy) (r : Reservation)
      → get c.reservation_store id ≡ some r
      → (c' : Context NodeStrategy) × (reserve_without_check (node_strategy fl fragmentation) c id
          ≡ some c')
  unfolding reserve_without_check get_assigned_start get_assigned_end read
  reserve_without_check-total c r known =
      let start = (get_base r).assigned_start in
      let end_time = (get_base r).assigned_end in
      let c1 = early_stop c id in
      let slots = booked c1 start end_time in
      let (filled, e) = fill_slots-total c1 slots in
      let e1 : get_assigned_start c.reservation_store id ≡ some start =
        ap (map_option (λ x. (get_base x).assigned_start)) known in
      let e2 : get_assigned_end c.reservation_store id ≡ some end_time =
        ap (map_option (λ x. (get_base x).assigned_end)) known in
      let book : ℤ → ℤ → Option (Context NodeStrategy) = λ s t.
        fill_slots (node_strategy fl fragmentation) c1 id (booked c1 s t) >>= λ x.
        some (activate x id (booked c1 s t)) in
      (
        activate filled id slots,
        bind-value (λ s. get_assigned_end c.reservation_store id >>= λ t. book s t) e1
            ∙ bind-value (λ t. book start t) e2
            ∙ bind-value (λ x. some (activate x id slots)) e,
      )

  reserve_promoted-total :
      (c : Context NodeStrategy) (empty : Bool) (promotion : Store × ProbeReservations × Bool)
      (r : Reservation)
      → get promotion.0 id ≡ some r
      → (out : Context NodeStrategy × Option ℕ) × (reserve_promoted
            (node_strategy fl fragmentation)
            c
            id
            empty
            promotion
          ≡ some out)
  unfolding reserve_promoted
  reserve_promoted-total c true promotion r known = (_, refl)
  reserve_promoted-total c false (store, rest, true) r known =
      let c1 = record c { reservation_store = store; is_frag_cache_up_to_date = false } in
      let (d, e) = reserve_without_check-total c1 r known in
      ((d, some id), bind-value (λ x. some (x, some id)) e)
  reserve_promoted-total c false (store, rest, false) r known = (_, refl)

  at_itself : (x y : Option Reservation) → (if nat_beq id id then x else y) ≡ x
  at_itself x y = ground arith

  -- A promotion removes no reservation.
  known-promote_best :
      (s : Store) (p : ProbeReservations) (best : Option String) (r : Reservation)
      → get s id ≡ some r
      → (q : Reservation) × (get (promote_best s p id best).0 id ≡ some q)
  unfolding promote_best
  known-promote_best s p none r known = (r, known)
  known-promote_best s p (some best_id) r known = found (Dict.get best_id p.local_reservation_store)
    where
      found :
          (o : Option Reservation)
          → (q : Reservation) × (get (promote_found s p id best_id o).0 id ≡ some q)
      found none = (r, known)
      found (some x) = (
        map_base (take_over (get_base x)) r,
        get-promote s id id (get_base x)
            ∙ at_itself (map_option (map_base (take_over (get_base x))) (get s id)) (get s id)
            ∙ ap (map_option (map_base (take_over (get_base x)))) known,
      )

  -- A request to reserve on a node whose slots are valid comes to a result, granted or refused,
  -- and leaves every slot valid: each slot's load is the sum of what its reservations take, within
  -- the capacity. Its conditions: no reservation of the store has a negative capacity, the update
  -- of the window at its start succeeds, and after it the window's times are those of its slots,
  -- the request is known, and its first attempt at every slot of the window ends in range.
  pub reserve-total :
      (c c1 : Context NodeStrategy) (request : Reservation)
      → IsKept c
      → update (early_stop c id) ≡ some c1
      → IsTimed c1
      → c1.start_slot_index ≤ℤ c1.end_slot_index
      → get c1.reservation_store id ≡ some request
      → ((i : ℤ) → InWindow c1 i → IsAttempt c1 i request)
      → (c' : Context NodeStrategy) × (r : Option ℕ) × (reserve
            (node_strategy fl fragmentation)
            c
            id
          ≡ some (c', r))
        × IsKept c'
  unfolding reserve reserve_best only_promote_best
  reserve-total c c1 request k e1 timed w known v =
      let k1 = update-IsKept (early_stop c id) c1 (early_stop-IsKept c id k) e1 in
      let promise = node_strategy-IsGranting fl fragmentation c1 id k1.sound in
      let (found, e2, placed) =
        calculate_schedule-AllPlaced (node_strategy fl fragmentation) c1 id timed promise request
          known w v in
      let best = get_best_probe_reservation_id found id est_reservation_compare in
      let (q, still) = known-promote_best c1.reservation_store found best request known in
      let ((c', r), e3) =
        reserve_promoted-total c1 (is_empty found.local_reservation_store)
          (promote_best c1.reservation_store found id best) q still in
      let all =
        bind-value
          (λ d. calculate_schedule (node_strategy fl fragmentation) d id >>= λ p.
            reserve_best (node_strategy fl fragmentation) d id p)
          e1
        ∙ bind-value (λ p. reserve_best (node_strategy fl fragmentation) c1 id p) e2
        ∙ e3 in
      (c', r, all, reserve-IsKept fl fragmentation c c' id r k all)
