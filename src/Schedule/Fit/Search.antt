-- ===== src/Schedule/Fit/Search.antt =====
-- What the search loop of `try_fit_reservation` finds, for every strategy that keeps its promises
-- (src/vrm/schedule/slotted_schedule/slotted_schedule_context.rs).
use native.Mathlib.Nat.{div-lt_iff_lt-mul, mul-le-mul_left}
use vrm_rust.Base.{
  ℕ, ◌+◌, ◌*◌, ◌≤◌, ◌≡◌, ◌≢◌, ◌⊎◌, refl, sym, ap, ◌∙◌, subst, true, some, arith, inl, inr,
}
use vrm_rust.Base.Int.{
  ℤ, pos, pos_part, ◌≤ℤ◌, ◌<ℤ◌, ◌+ℤ◌, eqb_ℤ_iff, div_euclid, +ℤ_parts, -ℤ_parts, eq_of_parts,
}
use vrm_rust.Base.I64.{IsSmall, ◌+i◌, ◌-i◌, +i-small, -i-small}
use vrm_rust.Schedule.Context.{Context, get_slot_index, is_time_in_scheduling_window}
use vrm_rust.Schedule.Update.Window.{get_slot_index-nonneg}
use vrm_rust.Schedule.Strategy.{Strategy}
use vrm_rust.Schedule.Fit.{Fit, shrink, fit_slot, next_slot}
use vrm_rust.Reservation.Fields.{ReservationBase}
use vrm_rust.Reservation.Kinds.{Reservation, get_base, map_base}
use vrm_rust.Reservation.Trait

module _ {St : Type 0} where
  -- The times of the scheduling window are those of its first and last slot.
  pub record IsTimed (c : Context St) : Type 0 where
    pub width_pos : pos 0 <ℤ c.slot_width
    pub start_nonneg : pos 0 ≤ℤ c.scheduling_window_start_time
    pub end_small : IsSmall c.scheduling_window_end_time
    pub end_index_nonneg : pos 0 ≤ℤ c.end_slot_index
    pub end_last :
        pos_part c.scheduling_window_end_time + 1
        ≡ (pos_part c.end_slot_index + 1) * pos_part c.slot_width

-- What a strategy promises: within a schedule it grants at most what is asked for, never less than
-- nothing, and what it grants it grants again when it is asked for no more.
pub record IsGranting {St : Type 0} (strategy : Strategy St) (c : Context St) (id : ℕ)
    : Type 0 where
  pub grant : ℤ → ℤ → ℤ
  pub grants : (i r : ℤ) → strategy.adjust_requirement_to_slot_capacity c i r id ≡ some (grant i r)
  pub at_most : (i r : ℤ) → pos 0 ≤ℤ r → grant i r ≤ℤ r
  pub nonneg : (i r : ℤ) → pos 0 ≤ℤ r → pos 0 ≤ℤ grant i r
  pub again : (i r q : ℤ) → pos 0 ≤ℤ r → pos 0 ≤ℤ q → q ≤ℤ grant i r → grant i q ≡ q

module _ {St : Type 0} where
  get_slot_index-window :
      (c : Context St) (t : ℤ)
      → IsTimed c
      → is_time_in_scheduling_window c t ≡ true
      → get_slot_index c (t -i pos 1) ≤ℤ c.end_slot_index
  unfolding get_slot_index is_time_in_scheduling_window div_euclid
  get_slot_index-window c t w h =
      let t1 = t -i pos 1 in
      ground (
        arith,
        w.width_pos,
        w.start_nonneg,
        w.end_small,
        w.end_index_nonneg,
        w.end_last,
        -i-small t (pos 1),
        -ℤ_parts t (pos 1),
        div-lt_iff_lt-mul {k = pos_part c.slot_width} {x = pos_part t1}
            {y = pos_part c.end_slot_index + 1} (omega (arith, w.width_pos)),
      )

pub between-IsSmall : (a b : ℤ) → pos 0 ≤ℤ a → a ≤ℤ b → IsSmall b → IsSmall a
between-IsSmall a b h k s = ground arith

step_nonneg : (i : ℤ) → pos 0 ≤ℤ i → IsSmall i → pos 0 ≤ℤ i +i pos 1
step_nonneg i h s = ground (arith, +i-small i (pos 1), +ℤ_parts i (pos 1))

reserved_capacity-adjust :
    (b : ReservationBase) (a : ℤ) → a ≢ pos 0 → (Trait.adjust_capacity b a).reserved_capacity ≡ a
unfolding Trait.adjust_capacity
reserved_capacity-adjust b a h =
    ground (arith, eqb_ℤ_iff a (pos 0), eqb_ℤ_iff a b.reserved_capacity)

pub get_base-map_base :
    (f : ReservationBase → ReservationBase) (r : Reservation)
    → get_base (map_base f r) ≡ f (get_base r)
unfolding get_base map_base
get_base-map_base f (Reservation.workflow w) = refl
get_base-map_base f (Reservation.node n) = refl
get_base-map_base f (Reservation.link l) = refl

module _ {St : Type 0} where
  -- The search stands at a slot, with a candidate of the required capacity over a time that ends
  -- in the last slot.
  pub record IsFit (c : Context St) (start_time : ℤ) (f : Fit) : Type 0 where
    pub required_nonneg : pos 0 ≤ℤ f.required
    pub capacity : (get_base f.candidate).reserved_capacity ≡ f.required
    pub ends : f.end_time ≡ start_time +i (get_base f.candidate).task_duration
    pub last : f.end_slot ≡ get_slot_index c (f.end_time -i pos 1)
    pub last_small : IsSmall f.end_slot
    pub slot_nonneg : pos 0 ≤ℤ f.slot

  -- A round that goes on stands one slot further and requires what the slot grants.
  pub record IsNext (c : Context St) (granted : ℤ) (f g : Fit) : Type 0 where
    pub one_further : g.slot ≡ f.slot +ℤ pos 1
    pub granted_all : g.required ≡ granted
    pub last_bound : (g.end_slot ≤ℤ f.end_slot) ⊎ (g.end_slot ≤ℤ c.end_slot_index)

  shrunk : Context St → ℤ → ℤ → Fit → Fit
  shrunk c start_time available f =
      let candidate = map_base (λ b. Trait.adjust_capacity b available) f.candidate in
      let end_time = start_time +i (get_base candidate).task_duration in
      record {
        candidate = candidate;
        required = available;
        end_time = end_time;
        end_slot = get_slot_index c (end_time -i pos 1);
        slot = f.slot +i pos 1;
      }

  -- A round that goes on leaves all but the slot, or shrinks the candidate to what is granted,
  -- which then ends in the window.
  fit_slot_cases :
      (c : Context St) (start_time request_end a : ℤ) (f g : Fit)
      → fit_slot c start_time request_end a f ≡ some g
      → a ≤ℤ f.required
      → ((a ≡ f.required) × (g ≡ record f { slot = f.slot +i pos 1 }))
        ⊎ ((a ≢ pos 0)
            × (g ≡ shrunk c start_time a f)
            × (is_time_in_scheduling_window c g.end_time ≡ true))
  unfolding fit_slot shrink next_slot shrunk
  fit_slot_cases c start_time request_end a f g e h = ground (
    arith,
    eqb_ℤ_iff a (pos 0),
    eqb_ℤ_iff f.required (pos 0),
    eqb_ℤ_iff a f.required,
    eq_of_parts a f.required,
  )

  end_slot_index-IsSmall : (c : Context St) → IsTimed c → IsSmall c.end_slot_index
  end_slot_index-IsSmall c w =
      let k = pos_part c.end_slot_index + 1 in
      let width : 1 ≤ pos_part c.slot_width = omega (arith, w.width_pos) in
      omega (arith, w.end_small, w.end_index_nonneg, w.end_last, mul-le-mul_left k width)

  shrunk-IsFit :
      (c : Context St) (start_time a : ℤ) (f : Fit)
      → IsTimed c
      → IsFit c start_time f
      → pos 0 ≤ℤ a
      → a ≢ pos 0
      → IsSmall f.slot
      → is_time_in_scheduling_window c (shrunk c start_time a f).end_time ≡ true
      → IsFit c start_time (shrunk c start_time a f) × IsNext c a f (shrunk c start_time a f)
  unfolding shrunk
  shrunk-IsFit c start_time a f w v n z s h =
      let g = shrunk c start_time a f in
      let bound = get_slot_index-window c g.end_time w h in
      let low = get_slot_index-nonneg c (g.end_time -i pos 1) in
      let next = +i-small f.slot (pos 1) s (omega arith) in
      (
        record {
          required_nonneg = n;
          capacity =
              ap (λ b. b.reserved_capacity)
                (get_base-map_base (λ b. Trait.adjust_capacity b a) f.candidate)
              ∙ reserved_capacity-adjust (get_base f.candidate) a z;
          ends = refl;
          last = refl;
          last_small =
              between-IsSmall g.end_slot c.end_slot_index low bound (end_slot_index-IsSmall c w);
          slot_nonneg = step_nonneg f.slot v.slot_nonneg s;
        },
        record { one_further = next; granted_all = refl; last_bound = inr bound },
      )

  step_on-IsFit :
      (c : Context St) (start_time : ℤ) (f : Fit)
      → IsFit c start_time f
      → IsSmall f.slot
      → IsFit c start_time (record f { slot = f.slot +i pos 1 })
        × IsNext c f.required f (record f { slot = f.slot +i pos 1 })
  step_on-IsFit c start_time f v s =
      let next = +i-small f.slot (pos 1) s (omega arith) in
      (
        record {
          required_nonneg = v.required_nonneg;
          capacity = v.capacity;
          ends = v.ends;
          last = v.last;
          last_small = v.last_small;
          slot_nonneg = step_nonneg f.slot v.slot_nonneg s;
        },
        record { one_further = next; granted_all = refl; last_bound = inl (omega arith) },
      )

  pub fit_slot-IsFit :
      (c : Context St) (start_time request_end a : ℤ) (f g : Fit)
      → IsTimed c
      → IsFit c start_time f
      → IsSmall f.slot
      → pos 0 ≤ℤ a
      → a ≤ℤ f.required
      → fit_slot c start_time request_end a f ≡ some g
      → IsFit c start_time g × IsNext c a f g
  fit_slot-IsFit c start_time request_end a f g w v s n h e =
      elim (fit_slot_cases c start_time request_end a f g e h) [
        | inl (same, step) ↦
            subst (λ x. IsFit c start_time x × IsNext c a f x) (sym step)
              (subst
                (λ x.
                  IsFit c start_time (record f { slot = f.slot +i pos 1 })
                  × IsNext c x f (record f { slot = f.slot +i pos 1 }))
                (sym same) (step_on-IsFit c start_time f v s))
        | inr (z, step, inside) ↦
            subst (λ x. IsFit c start_time x × IsNext c a f x) (sym step)
              (shrunk-IsFit c start_time a f w v n z s
                (subst (λ x. is_time_in_scheduling_window c x.end_time ≡ true) step inside))
      ]
