-- ===== src/Schedule/Operations.antt =====
-- The operations of a slotted schedule (src/vrm/schedule/slotted_schedule/schedule_base.rs).
-- `none` stands for a panic.
use vrm_rust.Base.{
  ℕ, String, Bool, true, false, Option, none, some, List, [], ◌∷◌, if◌then◌else◌, ◌>>=◌,
}
use vrm_rust.Base.Dict.{Dict}
use vrm_rust.Base.Floats.{F64, Floats}
use vrm_rust.Base.Int.{ℤ, pos, ltb_ℤ, range_inclusive}
use vrm_rust.Base.I64.{◌-i◌}
use vrm_rust.Schedule.Context
use vrm_rust.Schedule.Context.{Context, get_slot_index}
use vrm_rust.Schedule.Strategy.{Strategy}
use vrm_rust.Schedule.Update.{update}
use vrm_rust.Schedule.Delete
use vrm_rust.Schedule.Delete.{is_reservation_valid_for_deletion, delete_reservation_in_slot}
use vrm_rust.Schedule.Fit.{calculate_schedule}
use vrm_rust.Reservation.ActiveReservations
use vrm_rust.Reservation.Fields.{ReservationState, rejected, probe_answer, reserve_answer}
use vrm_rust.Reservation.Trait
use vrm_rust.Reservation.Kinds.{Reservation, map_base}
use vrm_rust.Reservation.ProbeReservations
use vrm_rust.Reservation.ProbeReservations.{
  ProbeReservations, ProbeReservationComparator, est_reservation_compare, only_promote_best,
  create_new_probe_reservation_with_best_probe,
}
use vrm_rust.Store.{Store}
use vrm_rust.Store.Read.{get_reserved_capacity, get_assigned_start, get_assigned_end}
use vrm_rust.Store.Update.{update_state}
use vrm_rust.Store.Lifetime.{add_probe_reservation, delete_probe_reservation}

abbrev pub is_empty {ℓ} : {A : Type ℓ} → List A → Bool
is_empty [] = true
is_empty (x ∷ xs) = false

module _ {St : Type 0} where
  -- `reservation_store.update_state` on the store of the schedule.
  unfoldable pub set_state : Context St → ℕ → ReservationState → Context St
  set_state c id state = record c { reservation_store = update_state c.reservation_store id state }

  -- The step that each operation calls an early stop: a negative capacity rejects the reservation,
  -- and the operation goes on.
  unfoldable pub early_stop : Context St → ℕ → Context St
  unfolding set_state
  early_stop c id =
      if ltb_ℤ (get_reserved_capacity c.reservation_store id) (pos 0)
      then set_state c id rejected
      else c

  -- The clean-up after a reservation that was already active.
  unfoldable pub free_slots : Context St → ℕ → List ℤ → Context St
  free_slots c id [] = c
  free_slots c id (index ∷ rest) =
      free_slots
        (delete_reservation_in_slot c id (get_reserved_capacity c.reservation_store id) index).0 id
        rest

  unfoldable pub delete_reservation : Context St → ℕ → Option (Context St)
  delete_reservation c id =
      let (c1, valid) = is_reservation_valid_for_deletion c id in
      if valid then (do c2 ← update c1; Delete.delete_reservation c2 id) else some c1

  -- The slots of a reservation by its assigned times.
  abbrev pub booked : Context St → ℤ → ℤ → List ℤ
  booked c start end_time =
      range_inclusive (get_slot_index c start) (get_slot_index c (end_time -i pos 1))

  unfoldable pub activate : Context St → ℕ → List ℤ → Context St
  unfolding set_state free_slots
  activate c id slots =
      let (active, fresh) = ActiveReservations.insert c.active_reservations id in
      let c1 = record c { active_reservations = active } in
      set_state (if fresh then c1 else free_slots c1 id slots) id reserve_answer

module _ {St : Type 0} (strategy : Strategy St) where
  unfoldable pub clear : Context St → Option (Context St)
  clear c = do c' ← strategy.on_clear c; update (Context.clear c')

  unfoldable pub fill_slots : Context St → ℕ → List ℤ → Option (Context St)
  fill_slots c id [] = some c
  fill_slots c id (index ∷ rest) =
      elim (strategy.insert_reservation_into_slot c (get_reserved_capacity c.reservation_store id)
        index id) [ none ↦ none | some c' ↦ fill_slots c' id rest ]

  unfoldable pub reserve_without_check : Context St → ℕ → Option (Context St)
  unfolding early_stop fill_slots activate
  reserve_without_check c id = do
    start ← get_assigned_start c.reservation_store id
    end_time ← get_assigned_end c.reservation_store id
    let c1 = early_stop c id
    filled ← fill_slots c1 id (booked c1 start end_time)
    some (activate filled id (booked c1 start end_time))

  -- The steps of `reserve` behind the promotion: whether there was no candidate, the store, the
  -- candidates left, and whether one was promoted.
  unfoldable pub reserve_promoted :
      Context St → ℕ → Bool → Store × ProbeReservations × Bool → Option (Context St × Option ℕ)
  unfolding set_state reserve_without_check
  reserve_promoted c id true promotion = some (set_state c id rejected, none)
  reserve_promoted c id false (store, rest, true) = do
    c' ←
        reserve_without_check
          (record c { reservation_store = store; is_frag_cache_up_to_date = false }) id
    some (c', some id)
  reserve_promoted c id false (store, rest, false) =
      some (set_state (record c { reservation_store = store }) id rejected, none)

  unfoldable pub reserve_best : Context St → ℕ → ProbeReservations → Option (Context St × Option ℕ)
  unfolding reserve_promoted
  reserve_best c id found =
      reserve_promoted c id (is_empty found.local_reservation_store)
        (only_promote_best c.reservation_store found id est_reservation_compare)

  unfoldable pub reserve : Context St → ℕ → Option (Context St × Option ℕ)
  unfolding early_stop reserve_best
  reserve c id = do
    c1 ← update (early_stop c id)
    found ← calculate_schedule strategy c1 id
    reserve_best c1 id found

module _ {St : Type 0} (strategy : Strategy St) (fl : Floats)
    (new_key : Dict ℕ Reservation → ℕ) where
  -- Reserves a candidate, takes the fragmentation, and takes the candidate out again.
  measure : Context St → F64 → Reservation → Option (Context St × Reservation)
  measure c before r = do
    let (store, id) = add_probe_reservation new_key c.reservation_store r
    c1 ←
        reserve_without_check strategy
          (record c { reservation_store = store; is_frag_cache_up_to_date = false }) id
    (c2, after) ← strategy.get_system_fragmentation c1
    c3 ← Delete.delete_reservation c2 id
    some (
      record c3 { reservation_store = delete_probe_reservation c3.reservation_store id },
      map_base (λ b. Trait.set_frag_delta b (fl.sub after before)) r,
    )

  measure_all :
      Context St → F64 → Dict String Reservation → Option (Context St × Dict String Reservation)
  unfolding measure
  measure_all c before [] = some (c, [])
  measure_all c before ((key, r) ∷ rest) = elim (measure c before r) [
    | none ↦ none
    | some (c', r') ↦ elim (measure_all c' before rest) [
      | none ↦ none
      | some (c'', rest') ↦ some (c'', (key, r') ∷ rest')
    ]
  ]

  -- The steps of `probe` behind the search.
  measure_candidates : Context St → ProbeReservations → Option (Context St × ProbeReservations)
  unfolding measure_all
  measure_candidates c found = do
    (c1, before) ← strategy.get_system_fragmentation c
    (c2, measured) ←
        (if c1.is_frag_needed
          then measure_all c1 before found.local_reservation_store
          else some (c1, found.local_reservation_store))
    some (c2, record found { local_reservation_store = measured })

  unfoldable pub probe : Context St → ℕ → Option (Context St × ProbeReservations)
  unfolding early_stop measure_candidates set_state
  probe c id = do
    c1 ← update (early_stop c id)
    found ← calculate_schedule strategy c1 id
    let c2 = set_state c1 id probe_answer
    if is_empty found.local_reservation_store then some (c2, found) else measure_candidates c2 found

  -- The steps of `probe_best` behind its early stop.
  best_of :
      Context St
      → ℕ
      → ProbeReservationComparator
      → ProbeReservations
      → Option (Context St × ProbeReservations)
  unfolding set_state
  best_of c id comparator found =
      let c' = set_state c id probe_answer in
      if is_empty found.local_reservation_store then some (c', found) else (do
        best ← create_new_probe_reservation_with_best_probe c.reservation_store found id comparator
        some (c', best))

  unfoldable pub probe_best :
      Context St → ℕ → ProbeReservationComparator → Option (Context St × ProbeReservations)
  unfolding probe best_of set_state
  probe_best c id comparator =
      if ltb_ℤ (get_reserved_capacity c.reservation_store id) (pos 0)
      then (do
        empty ← ProbeReservations.new (update_state c.reservation_store id rejected) id
        some (set_state c id rejected, empty))
      else (do (c1, found) ← probe c id; best_of c1 id comparator found)
