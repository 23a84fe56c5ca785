-- ===== src/Schedule/Fit/Candidates.antt =====
-- What `try_fit_reservation` returns, for every strategy that keeps its promises
-- (src/vrm/schedule/slotted_schedule/slotted_schedule_context.rs).
use vrm_rust.Base.{ℕ, ◌≡◌, refl, sym, ap, ◌∙◌, subst, Option, none, some, arith}
use vrm_rust.Base.Int.{ℤ, pos, ◌≤ℤ◌, ◌<ℤ◌}
use vrm_rust.Base.I64.{IsSmall, ◌+i◌, ◌-i◌}
use vrm_rust.Schedule.Context.{Context, get_slot_index}
use vrm_rust.Schedule.Strategy.{Strategy}
use vrm_rust.Schedule.Fit.{
  Fit, fit_loop, fit_fuel, first_fit, first_start, assign, assigned, fit_candidate,
  try_fit_reservation,
}
use vrm_rust.Schedule.Fit.Search.{IsTimed, IsGranting, IsFit, get_base-map_base}
use vrm_rust.Schedule.Fit.Loop.{IsFound, fit_loop-IsFound, fit_loop-fuel}
use vrm_rust.Reservation.Kinds.{Reservation, get_base}
use vrm_rust.Reservation.Fields.{ReservationBase, probe_reservation}
use vrm_rust.Store.Read.{get}

abbrev at_times : ℤ → Fit → ReservationBase → ReservationBase
at_times start_time g b = record b {
  booking_interval_start = start_time;
  booking_interval_end = g.end_time;
  assigned_start = start_time;
  assigned_end = g.end_time;
  state = probe_reservation;
}

before_end : (last slot i : ℤ) {e : ℤ} → last ≡ e → i ≤ℤ e → last <ℤ slot → i <ℤ slot
before_end last slot i {e} same h k =
    let h' : i ≤ℤ last = subst (λ x. i ≤ℤ x) (sym same) h in omega (arith, h', k)

module _ {St : Type 0} (c : Context St) where
  -- The request asks for no negative capacity, and its first attempt at the slot ends in range.
  pub record IsAttempt (slot : ℤ) (request : Reservation) : Type 0 where
    pub capacity_nonneg : pos 0 ≤ℤ (get_base request).reserved_capacity
    pub slot_nonneg : pos 0 ≤ℤ slot
    pub in_range :
        IsSmall (
          get_slot_index c
            (first_start c request slot +i (get_base request).task_duration -i pos 1))

module _ {St : Type 0} (strategy : Strategy St) (c : Context St) (id : ℕ) (timed : IsTimed c)
    (promise : IsGranting strategy c id) where
  -- The reservation has its capacity in every slot from the given one to the one of its last
  -- second, ends when its duration is over, and takes no more than was asked for.
  pub record IsFeasible (slot : ℤ) (request : Reservation) (b : ReservationBase) : Type 0 where
    pub starts : b.assigned_start ≡ first_start c request slot
    pub ends : b.assigned_end ≡ b.assigned_start +i b.task_duration
    pub granted :
        (i : ℤ)
        → slot ≤ℤ i
        → i ≤ℤ get_slot_index c (b.assigned_end -i pos 1)
        → promise.grant i b.reserved_capacity ≡ b.reserved_capacity
    pub no_more : b.reserved_capacity ≤ℤ (get_base request).reserved_capacity

  start_fit : ℤ → Reservation → Fit
  start_fit slot request =
      first_fit c request (get_base request).reserved_capacity (get_base request).task_duration slot
        (first_start c request slot)

  start-IsFit :
      (slot : ℤ) (request : Reservation)
      → IsAttempt c slot request
      → IsFit c (first_start c request slot) (start_fit slot request)
  unfolding start_fit first_fit
  start-IsFit slot request v = record {
    required_nonneg = v.capacity_nonneg;
    capacity = refl;
    ends = refl;
    last = refl;
    last_small = v.in_range;
    slot_nonneg = v.slot_nonneg;
  }

  found-IsFeasible :
      (slot : ℤ) (request : Reservation) (g : Fit)
      → IsFound strategy c id timed promise (first_start c request slot) (start_fit slot request) g
      → IsFeasible slot request (get_base (assign (first_start c request slot) g))
  unfolding start_fit first_fit assign
  found-IsFeasible slot request g found =
      let start_time = first_start c request slot in
      subst (IsFeasible slot request) (sym (get_base-map_base (at_times start_time g) g.candidate))
        (record {
          starts = refl;
          ends = found.fits.ends;
          granted = λ i low high.
              subst (λ x. promise.grant i x ≡ x) (sym found.fits.capacity)
                (found.granted i low
                  (before_end g.end_slot g.slot i found.fits.last high found.finished));
          no_more =
              subst (λ x. x ≤ℤ (get_base request).reserved_capacity) (sym found.fits.capacity)
                found.less;
        })

  search_result :
      (start_time : ℤ) (o : Option (Option Fit)) (r : Reservation)
      → assigned start_time o ≡ some (some r)
      → (g : Fit) × (o ≡ some (some g)) × (assign start_time g ≡ r)
  unfolding assigned
  search_result start_time none r e = absurd (ground arith)
  search_result start_time (some none) r e = absurd (ground arith)
  search_result start_time (some (some g)) r e = (g, refl, cc)

  assigned-some :
      (start_time : ℤ) (o : Option Fit)
      → (r : Option Reservation) × (assigned start_time (some o) ≡ some r)
  unfolding assigned
  assigned-some start_time none = (none, refl)
  assigned-some start_time (some g) = (some (assign start_time g), refl)

  -- A candidate that the search finds from a slot on, for a strategy that keeps its promises,
  -- starts at the slot's start or at the start of the requested interval, whichever is later, ends
  -- when its duration is over, takes no more than was requested, and is granted its capacity in
  -- every slot from there to the slot of its last second. The reservation is known, asks for no
  -- negative capacity, and its first attempt ends in range. The window ends with its last slot,
  -- its slots are wider than 0, and its times are not negative and below 2^62.
  pub try_fit_reservation-IsFeasible :
      (slot request_end : ℤ) (request r : Reservation)
      → get c.reservation_store id ≡ some request
      → IsAttempt c slot request
      → try_fit_reservation strategy c id slot request_end ≡ some (some r)
      → IsFeasible slot request (get_base r)
  unfolding try_fit_reservation fit_candidate start_fit
  try_fit_reservation-IsFeasible slot request_end request r known v e =
      let start_time = first_start c request slot in
      let f = start_fit slot request in
      let (g, found, same) =
        search_result start_time (fit_loop strategy c id start_time request_end (fit_fuel c f) f) r
          (ap (fit_candidate strategy c id slot request_end) (sym known) ∙ e) in
      subst (λ x. IsFeasible slot request (get_base x)) same
        (found-IsFeasible slot request g (
          fit_loop-IsFound strategy c id timed promise start_time request_end (fit_fuel c f) f g
            (start-IsFit slot request v) found))

  -- The search from a slot comes to a result for every strategy that keeps its promises, where the
  -- reservation is known, asks for no negative capacity and its first attempt ends in range: the
  -- loop over the slots ends on the fuel that it gets, although each round may move the last slot.
  -- The window ends with its last slot, its slots are wider than 0, and its times are not negative
  -- and below 2^62.
  pub try_fit_reservation-total :
      (slot request_end : ℤ) (request : Reservation)
      → get c.reservation_store id ≡ some request
      → IsAttempt c slot request
      → (o : Option Reservation) × (try_fit_reservation strategy c id slot request_end ≡ some o)
  unfolding try_fit_reservation fit_candidate start_fit
  try_fit_reservation-total slot request_end request known v =
      let start_time = first_start c request slot in
      let f = start_fit slot request in
      let (o, found) =
        fit_loop-fuel strategy c id timed promise start_time request_end f
          (start-IsFit slot request v) in
      let (r, same) = assigned-some start_time o in
      (
        r,
        ap (fit_candidate strategy c id slot request_end) known
            ∙ ap (assigned start_time) found
            ∙ same,
      )
