-- ===== src/Schedule/Fit.antt =====
-- The search for feasible start slots (`calculate_schedule` and `try_fit_reservation` of
-- src/vrm/schedule/slotted_schedule/slotted_schedule_context.rs). An outer `none` stands for a
-- panic, or for the fuel of the search loop running out.
pub mod Search
pub mod Loop
pub mod Candidates
pub mod Results
use vrm_rust.Base.{
  ℕ, zero, suc, ◌+◌, Bool, true, false, Option, none, some, List, [], ◌∷◌, if◌then◌else◌, ◌>>=◌,
  not, ◌&&◌, ◌||◌,
}
use vrm_rust.Base.Int.{ℤ, pos, negsuc, pos_part, ltb_ℤ, leb_ℤ, eqb_ℤ, range_inclusive, ◌-ℤ◌}
use vrm_rust.Base.I64.{◌+i◌, ◌-i◌, i64_min, i64_max}
use vrm_rust.Schedule.Context.{
  Context, get_slot_index, get_slot_start_time, get_effective_slot_index,
  is_time_in_scheduling_window,
}
use vrm_rust.Schedule.Strategy.{Strategy}
use vrm_rust.Reservation.Fields.{ReservationBase, probe_reservation}
use vrm_rust.Reservation.Trait
use vrm_rust.Reservation.Kinds.{Reservation, get_base, map_base}
use vrm_rust.Reservation.ProbeReservations
use vrm_rust.Reservation.ProbeReservations.{ProbeReservations}
use vrm_rust.Store.Read.{
  get, get_booking_interval_start, get_booking_interval_end, get_task_duration,
  get_reserved_capacity, is_moldable,
}

-- The variables of the search loop.
pub record Fit : Type 0 where
  pub candidate : Reservation
  pub required : ℤ
  pub end_time : ℤ
  pub end_slot : ℤ
  pub slot : ℤ

abbrev max_ℤ : ℤ → ℤ → ℤ
max_ℤ a b = if ltb_ℤ a b then b else a

unfoldable pub next_slot : Option Fit → Option Fit
next_slot none = none
next_slot (some f) = some (record f { slot = f.slot +i pos 1 })

-- The candidate at its times.
unfoldable pub assign : ℤ → Fit → Reservation
assign start_time f =
    map_base
      (λ b. record b {
        booking_interval_start = start_time;
        booking_interval_end = f.end_time;
        assigned_start = start_time;
        assigned_end = f.end_time;
        state = probe_reservation;
      })
      f.candidate

module _ {St : Type 0} where
  -- The candidate with the capacity that the slot has left, over the time that it then takes;
  -- `none` if that ends behind the window or the request.
  unfoldable pub shrink : Context St → ℤ → ℤ → ℤ → Fit → Option Fit
  shrink c start_time request_end available f =
      let candidate = map_base (λ b. Trait.adjust_capacity b available) f.candidate in
      let end_time = start_time +i (get_base candidate).task_duration in
      if not (is_time_in_scheduling_window c end_time) || ltb_ℤ request_end end_time
      then none
      else some (record {
        candidate = candidate;
        required = available;
        end_time = end_time;
        end_slot = get_slot_index c (end_time -i pos 1);
        slot = f.slot;
      })

  -- One round of the loop for a slot with the given capacity left; `none` if the slot refuses.
  unfoldable pub fit_slot : Context St → ℤ → ℤ → ℤ → Fit → Option Fit
  unfolding shrink next_slot
  fit_slot c start_time request_end available f =
      if eqb_ℤ available (pos 0) && not (eqb_ℤ f.required (pos 0))
      then none
      else if not (get_base f.candidate).is_moldable && not (eqb_ℤ available f.required)
      then none
      else if ltb_ℤ available f.required
      then next_slot (shrink c start_time request_end available f)
      else next_slot (some f)

  -- The slots up to the end of the candidate or of the window, whichever is later, and two more.
  abbrev pub fit_fuel : Context St → Fit → ℕ
  fit_fuel c f = pos_part (max_ℤ f.end_slot c.end_slot_index -ℤ f.slot) + 2

  unfoldable pub first_fit : Context St → Reservation → ℤ → ℤ → ℤ → ℤ → Fit
  first_fit c candidate capacity duration slot start_time =
      let end_time = start_time +i duration in
      record {
        candidate = candidate;
        required = capacity;
        end_time = end_time;
        end_slot = get_slot_index c (end_time -i pos 1);
        slot = slot;
      }

  -- No slot starts before the reservation's own interval.
  unfoldable pub first_start : Context St → Reservation → ℤ → ℤ
  first_start c candidate slot =
      let start = get_slot_start_time c slot in
      let earliest = (get_base candidate).booking_interval_start in
      if ltb_ℤ start earliest then earliest else start

  -- The slots at which a candidate may start.
  unfoldable pub start_slots : Context St → ℤ → ℤ → ℤ → List ℤ
  start_slots c request_start request_end duration =
      range_inclusive (get_effective_slot_index c (get_slot_index c request_start))
        (get_effective_slot_index c (get_slot_index c (request_end -i duration)))

unfoldable pub assigned : ℤ → Option (Option Fit) → Option (Option Reservation)
unfolding assign
assigned start_time none = none
assigned start_time (some none) = some none
assigned start_time (some (some f)) = some (some (assign start_time f))

unfoldable pub add_candidate : Option Reservation → ProbeReservations → ProbeReservations
add_candidate none p = p
add_candidate (some r) p = (ProbeReservations.add_reservation p r).0

-- An unset boundary reads as no restriction.
abbrev pub start_boundary : ℤ → ℤ
start_boundary time = if eqb_ℤ time i64_min then pos 0 else time

abbrev pub end_boundary : ℤ → ℤ
end_boundary time = if eqb_ℤ time i64_min then i64_max else time

module _ {St : Type 0} (strategy : Strategy St) where
  unfoldable pub fit_loop : Context St → ℕ → ℤ → ℤ → ℕ → Fit → Option (Option Fit)
  unfolding fit_slot
  fit_loop c id start_time request_end zero f = none
  fit_loop c id start_time request_end (suc fuel) f = elim (leb_ℤ f.slot f.end_slot) [
    | false ↦ some (some f)
    | true ↦ elim (strategy.adjust_requirement_to_slot_capacity c f.slot f.required id) [
      | none ↦ none
      | some available ↦ elim (fit_slot c start_time request_end available f) [
        | none ↦ some none
        | some f' ↦ fit_loop c id start_time request_end fuel f'
      ]
    ]
  ]

  unfoldable pub fit_candidate :
      Context St → ℕ → ℤ → ℤ → Option Reservation → Option (Option Reservation)
  unfolding fit_loop first_fit first_start assigned
  fit_candidate c id slot request_end none = some none
  fit_candidate c id slot request_end (some candidate) =
      let start_time = first_start c candidate slot in
      let f =
        first_fit c candidate (get_base candidate).reserved_capacity
          (get_base candidate).task_duration slot start_time in
      assigned start_time (fit_loop c id start_time request_end (fit_fuel c f) f)

  unfoldable pub try_fit_reservation : Context St → ℕ → ℤ → ℤ → Option (Option Reservation)
  unfolding fit_candidate
  try_fit_reservation c id slot request_end =
      fit_candidate c id slot request_end (get c.reservation_store id)

  -- The loop over the start slots.
  unfoldable pub fit_all :
      Context St → ℕ → ℤ → List ℤ → ProbeReservations → Option ProbeReservations
  unfolding try_fit_reservation add_candidate
  fit_all c id request_end [] p = some p
  fit_all c id request_end (slot ∷ rest) p = elim (try_fit_reservation c id slot request_end) [
    | none ↦ none
    | some found ↦ fit_all c id request_end rest (add_candidate found p)
  ]

  -- A fixed capacity above that of the resource fits nowhere.
  unfoldable pub too_large : Context St → ℕ → Bool
  too_large c id =
      not (is_moldable c.reservation_store id)
      && ltb_ℤ (pos 0) (strategy.get_capacity c)
      && ltb_ℤ (strategy.get_capacity c) (get_reserved_capacity c.reservation_store id)

  unfoldable pub search_from :
      Context St → ℕ → ℤ → ℤ → ℤ → ProbeReservations → Option ProbeReservations
  unfolding fit_all too_large start_slots
  search_from c id request_start request_end duration p =
      if ltb_ℤ request_end request_start || ltb_ℤ request_start (pos 0)
      then some p
      else if too_large c id
      then some p
      else fit_all c id request_end (start_slots c request_start request_end duration) p

  unfoldable pub calculate_schedule : Context St → ℕ → Option ProbeReservations
  unfolding search_from
  calculate_schedule c id = do
    interval_start ← get_booking_interval_start c.reservation_store id
    interval_end ← get_booking_interval_end c.reservation_store id
    duration ← get_task_duration c.reservation_store id
    found ← ProbeReservations.new c.reservation_store id
    search_from c id (start_boundary interval_start) (end_boundary interval_end) duration found
