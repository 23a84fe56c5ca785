-- ===== src/Schedule/Fit/Results.antt =====
-- What the search over all start slots returns (`calculate_schedule` of
-- src/vrm/schedule/slotted_schedule/slotted_schedule_context.rs).
use vrm_rust.Base.{
  ℕ, ◌+◌, ◌≡◌, refl, sym, ap, ◌∙◌, subst, String, Bool, true, false, Option, none, some, List, [],
  ◌∷◌, arith, All, Bool-cases, inl, inr, string_eq, if◌then◌else◌, ◌||◌, is_some, map_option,
}
use vrm_rust.Base.Ranges.{All-insert, All-range_inclusive}
use vrm_rust.Base.Dict
use vrm_rust.Base.Dict.{Dict}
use vrm_rust.Base.Int.{ℤ, pos, ◌≤ℤ◌, ltb_ℤ}
use vrm_rust.Schedule.Context.{Context, get_effective_slot_index}
use vrm_rust.Schedule.Context.Ring.{InWindow}
use vrm_rust.Schedule.Strategy.{Strategy}
use vrm_rust.Schedule.Fit.{
  fit_all, add_candidate, start_slots, search_from, calculate_schedule, too_large, start_boundary,
  end_boundary,
}
use vrm_rust.Schedule.Fit.Search.{IsTimed, IsGranting}
use vrm_rust.Schedule.Fit.Candidates.{
  IsAttempt, IsFeasible, try_fit_reservation-IsFeasible, try_fit_reservation-total,
}
use vrm_rust.Reservation.Kinds.{Reservation, get_base}
use vrm_rust.Reservation.ProbeReservations
use vrm_rust.Reservation.ProbeReservations.{ProbeReservations, probe_id}
use vrm_rust.Store.{Store}
use vrm_rust.Reservation.Fields.{ReservationBase}
use vrm_rust.Store.Read.{
  get, read, get_booking_interval_start, get_booking_interval_end, get_task_duration,
}

-- A known reservation can be read, and a new set of candidates for it is empty.
known_value :
    {A : Type 0} (s : Store) (id : ℕ) (request : Reservation) (f : ReservationBase → A)
    → get s id ≡ some request
    → (a : A) × (read s id f ≡ some a)
unfolding read
known_value s id request f known =
    (f (get_base request), ap (map_option (λ r. f (get_base r))) known)

new_empty :
    (s : Store) (id : ℕ) (request : Reservation)
    → get s id ≡ some request
    → (p : ProbeReservations) × (ProbeReservations.new s id ≡ some p)
      × (p.local_reservation_store ≡ [])
unfolding ProbeReservations.new
new_empty s id request known =
    let fresh : Reservation → ProbeReservations = λ r. record {
      original_reservation_id = id;
      local_reservation_store = [];
      original_reservation = r;
      reservation_idx = 0;
      probe_meta_data = [];
    } in
    (fresh request, ap (map_option fresh) known, refl)

module _ {St : Type 0} (strategy : Strategy St) (c : Context St) (id : ℕ) (timed : IsTimed c)
    (promise : IsGranting strategy c id) where
  -- The reservation is feasible from some slot of the window on.
  unfoldable pub IsPlaced : Reservation → Reservation → Type 0
  IsPlaced request r =
      (slot : ℤ) × InWindow c slot
      × IsFeasible strategy c id timed promise slot request (get_base r)

  unfoldable pub AllPlaced : Reservation → ProbeReservations → Type 0
  AllPlaced request p = All (λ e. IsPlaced request e.1) p.local_reservation_store

  -- The candidates with a new one, whether its name was new or not.
  either_store :
      (P : Dict String Reservation → Type 0) (b : Bool) (m : Dict String Reservation)
      (p q : ProbeReservations × Bool)
      → P m
      → p.0.local_reservation_store ≡ m
      → q.0.local_reservation_store ≡ m
      → P (if b then p else q).0.local_reservation_store
  either_store P true m p q h e f = subst P (sym e) h
  either_store P false m p q h e f = subst P (sym f) h

  add_candidate-AllPlaced :
      (request : Reservation) (o : Option Reservation) (p : ProbeReservations)
      → AllPlaced request p
      → ((r : Reservation) → o ≡ some r → IsPlaced request r)
      → AllPlaced request (add_candidate o p)
  unfolding add_candidate AllPlaced ProbeReservations.add_reservation
  add_candidate-AllPlaced request none p h new = h
  add_candidate-AllPlaced request (some r) p h new =
      let id = probe_id r p.reservation_idx in
      let m = Dict.insert id r p.local_reservation_store in
      either_store (All (λ e. IsPlaced request e.1))
        (is_some (Dict.get id p.local_reservation_store)) m
        (record p { local_reservation_store = m }, false)
        (record p { local_reservation_store = m; reservation_idx = p.reservation_idx + 1 }, true)
        (All-insert (IsPlaced request) id r p.local_reservation_store h (new r refl)) refl refl

  fit_all-AllPlaced :
      (request : Reservation) (request_end : ℤ) (slots : List ℤ) (p q : ProbeReservations)
      → get c.reservation_store id ≡ some request
      → All (λ i. InWindow c i × IsAttempt c i request) slots
      → AllPlaced request p
      → fit_all strategy c id request_end slots p ≡ some q
      → AllPlaced request q
  unfolding fit_all IsPlaced
  fit_all-AllPlaced request request_end [] p q known v h e =
      let same : p ≡ q = cc in subst (AllPlaced request) same h
  fit_all-AllPlaced request request_end (i ∷ rest) p q known v h e =
      let (o, found) =
        try_fit_reservation-total strategy c id timed promise i request_end request known v.0.1 in
      fit_all-AllPlaced request request_end rest (add_candidate o p) q known v.1
        (add_candidate-AllPlaced request o p h (λ r same. (
          i,
          v.0.0,
          try_fit_reservation-IsFeasible strategy c id timed promise i request_end request r known
              v.0.1 (found ∙ ap some same),
        )))
        (ground (arith, found, e))

  fit_all-total :
      (request : Reservation) (request_end : ℤ) (slots : List ℤ) (p : ProbeReservations)
      → get c.reservation_store id ≡ some request
      → All (λ i. InWindow c i × IsAttempt c i request) slots
      → (q : ProbeReservations) × (fit_all strategy c id request_end slots p ≡ some q)
  unfolding fit_all
  fit_all-total request request_end [] p known v = (p, refl)
  fit_all-total request request_end (i ∷ rest) p known v =
      let (o, found) =
        try_fit_reservation-total strategy c id timed promise i request_end request known v.0.1 in
      let (q, e) = fit_all-total request request_end rest (add_candidate o p) known v.1 in
      (q, ground (arith, found, e))

  start_slots-InWindow :
      (request : Reservation) (request_start request_end duration : ℤ)
      → c.start_slot_index ≤ℤ c.end_slot_index
      → ((i : ℤ) → InWindow c i → IsAttempt c i request)
      → All
          (λ i. InWindow c i × IsAttempt c i request)
          (start_slots c request_start request_end duration)
  unfolding start_slots get_effective_slot_index
  start_slots-InWindow request request_start request_end duration w v =
      All-range_inclusive (λ i. InWindow c i × IsAttempt c i request) _ _
        (λ i low high. let inside : InWindow c i = ground arith in (inside, v i inside))

  search_from-AllPlaced :
      (request : Reservation) (request_start request_end duration : ℤ) (p : ProbeReservations)
      → get c.reservation_store id ≡ some request
      → All
          (λ i. InWindow c i × IsAttempt c i request)
          (start_slots c request_start request_end duration)
      → AllPlaced request p
      → (q : ProbeReservations) × (search_from strategy c id request_start request_end duration p
          ≡ some q)
        × AllPlaced request q
  unfolding search_from
  search_from-AllPlaced request request_start request_end duration p known v h =
      elim (Bool-cases (ltb_ℤ request_end request_start || ltb_ℤ request_start (pos 0))) [
        | inl wrong ↦ (p, ground (arith, wrong), h)
        | inr right ↦ elim (Bool-cases (too_large strategy c id)) [
          | inl large ↦ (p, ground (arith, right, large), h)
          | inr fitting ↦
              let slots = start_slots c request_start request_end duration in
              let (q, e) = fit_all-total request request_end slots p known v in
              (
                q,
                ground (arith, right, fitting, e),
                fit_all-AllPlaced request request_end slots p q known v h e,
              )
        ]
      ]

  -- The search over all start slots comes to a result for every strategy that keeps its promises
  -- and a known request whose first attempt at every slot of the window ends in range, and every
  -- candidate in the result is feasible from some slot of the window on: it is granted its
  -- capacity in every slot from there to that of its last second. The window is not empty, and the
  -- request asks for no negative capacity. The window ends with its last slot, its slots are wider
  -- than 0, and its times are not negative and below 2^62.
  pub calculate_schedule-AllPlaced :
      (request : Reservation)
      → get c.reservation_store id ≡ some request
      → c.start_slot_index ≤ℤ c.end_slot_index
      → ((i : ℤ) → InWindow c i → IsAttempt c i request)
      → (q : ProbeReservations) × (calculate_schedule strategy c id ≡ some q) × AllPlaced request q
  unfolding calculate_schedule get_booking_interval_start get_booking_interval_end get_task_duration
      AllPlaced
  calculate_schedule-AllPlaced request known w v =
      let s = c.reservation_store in
      let (start, e1) = known_value s id request (λ b. b.booking_interval_start) known in
      let (end_time, e2) = known_value s id request (λ b. b.booking_interval_end) known in
      let (duration, e3) = known_value s id request (λ b. b.task_duration) known in
      let (p, e4, empty) = new_empty s id request known in
      let (q, e5, placed) =
        search_from-AllPlaced request (start_boundary start) (end_boundary end_time) duration p
          known
          (start_slots-InWindow request (start_boundary start) (end_boundary end_time) duration w v)
          (subst (All (λ e. IsPlaced request e.1)) (sym empty) tt) in
      (q, ground (arith, e1, e2, e3, e4, e5), placed)
