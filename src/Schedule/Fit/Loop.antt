-- ===== src/Schedule/Fit/Loop.antt =====
-- The search loop of `try_fit_reservation` ends, and a candidate that it finds has its capacity
-- in every slot that it takes (src/vrm/schedule/slotted_schedule/slotted_schedule_context.rs).
use native.Mathlib.Decide.{dec_lt}
use vrm_rust.Base.{
  ℕ, zero, suc, ◌+◌, ◌<◌, ◌≡◌, ◌⊎◌, sym, ap, subst, Option, none, some, arith, Bool-cases,
  Option-cases, inl, inr, if◌then◌else◌,
}
use vrm_rust.Base.Int.{
  ℤ, pos, pos_part, neg_part, ◌≤ℤ◌, ◌<ℤ◌, ◌+ℤ◌, leb_ℤ, ltb_ℤ, +ℤ_parts, -ℤ_parts, parts_split,
  eq_of_parts,
}
use vrm_rust.Schedule.Context.{Context}
use vrm_rust.Schedule.Strategy.{Strategy}
use vrm_rust.Schedule.Fit.{Fit, fit_slot, fit_loop, fit_fuel}
use vrm_rust.Schedule.Fit.Search.{
  IsTimed, IsGranting, IsFit, IsNext, fit_slot-IsFit, between-IsSmall,
}

module _ {St : Type 0} (strategy : Strategy St) (c : Context St) (id : ℕ) (timed : IsTimed c)
    (promise : IsGranting strategy c id) where
  -- From a state of the search to the state in which it stops.
  pub record IsFound (start_time : ℤ) (f g : Fit) : Type 0 where
    pub fits : IsFit c start_time g
    pub finished : g.end_slot <ℤ g.slot
    pub granted : (i : ℤ) → f.slot ≤ℤ i → i <ℤ g.slot → promise.grant i g.required ≡ g.required
    pub less : g.required ≤ℤ f.required
    pub further : f.slot ≤ℤ g.slot

  -- The loop stops behind the last slot, or makes a round and goes on.
  fit_loop_cases :
      (start_time request_end : ℤ) (fuel : ℕ) (f : Fit) (r : Option Fit)
      → fit_loop strategy c id start_time request_end (suc fuel) f ≡ some r
      → ((f.end_slot <ℤ f.slot) × (r ≡ some f))
        ⊎ ((f.slot ≤ℤ f.end_slot) × (r ≡ none))
        ⊎ ((f.slot ≤ℤ f.end_slot)
            × ((h : Fit) × (fit_slot c start_time request_end (promise.grant f.slot f.required) f
                  ≡ some h)
                × (fit_loop strategy c id start_time request_end fuel h ≡ some r)))
  unfolding fit_loop
  fit_loop_cases start_time request_end fuel f r e =
      let a = promise.grant f.slot f.required in
      let given = promise.grants f.slot f.required in
      elim (Bool-cases (leb_ℤ f.slot f.end_slot)) [
        | inr stop ↦ inl (ground arith)
        | inl go ↦ elim (Option-cases (fit_slot c start_time request_end a f)) [
          | inl refused ↦ inr (inl (ground (arith, given)))
          | inr (h, found) ↦ inr (inr (ground arith, (h, found, ground (arith, given))))
        ]
      ]

  stopped :
      (start_time : ℤ) (f : Fit)
      → IsFit c start_time f
      → f.end_slot <ℤ f.slot
      → IsFound start_time f f
  stopped start_time f v h = record {
    fits = v;
    finished = h;
    granted = λ i low high. absurd (omega arith);
    less = omega arith;
    further = omega arith;
  }

  -- A round before a search that finds is a search that finds.
  extend :
      (start_time : ℤ) (f h g : Fit)
      → IsFit c start_time f
      → IsNext c (promise.grant f.slot f.required) f h
      → IsFound start_time h g
      → IsFound start_time f g
  extend start_time f h g v n found =
      let a = promise.grant f.slot f.required in
      let parts = +ℤ_parts f.slot (pos 1) in
      let enough : g.required ≤ℤ a = subst (λ x. g.required ≤ℤ x) n.granted_all found.less in
      let later : f.slot <ℤ h.slot =
        subst (λ x. f.slot <ℤ x) (sym n.one_further) (omega (arith, parts)) in
      record {
        fits = found.fits;
        finished = found.finished;
        granted = λ i low high.
            elim (dec_lt (pos_part i + neg_part h.slot) (pos_part h.slot + neg_part i)) [
              | yes before ↦
                  let here : f.slot ≡ i = eq_of_parts f.slot i (
                    let before' : i <ℤ f.slot +ℤ pos 1 = subst (λ x. i <ℤ x) n.one_further before in
                    omega (arith, before', parts)) in
                  subst (λ x. promise.grant x g.required ≡ g.required) here
                    (promise.again f.slot f.required g.required v.required_nonneg
                      found.fits.required_nonneg enough)
              | no behind ↦ found.granted i (omega arith) high
            ];
        less = omega (arith, enough, promise.at_most f.slot f.required v.required_nonneg);
        further = omega (arith, later, found.further);
      }

  -- What the loop finds has its capacity in every slot from the start to behind the last.
  pub fit_loop-IsFound :
      (start_time request_end : ℤ) (fuel : ℕ) (f g : Fit)
      → IsFit c start_time f
      → fit_loop strategy c id start_time request_end fuel f ≡ some (some g)
      → IsFound start_time f g
  unfolding fit_loop
  fit_loop-IsFound start_time request_end zero f g v e = absurd (ground arith)
  fit_loop-IsFound start_time request_end (suc fuel) f g v e =
      elim (fit_loop_cases start_time request_end fuel f (some g) e) [
        | inl (stop, same) ↦
            let here : f ≡ g = cc in
            subst (λ x. IsFound start_time f x) here (stopped start_time f v stop)
        | inr (inl (go, refused)) ↦ absurd (ground arith)
        | inr (inr (go, (h, round, rest))) ↦
            let near = between-IsSmall f.slot f.end_slot v.slot_nonneg go v.last_small in
            let (vh, n) =
              fit_slot-IsFit c start_time request_end (promise.grant f.slot f.required) f h timed v
                near (promise.nonneg f.slot f.required v.required_nonneg)
                (promise.at_most f.slot f.required v.required_nonneg) round in
            extend start_time f h g v n (fit_loop-IsFound start_time request_end fuel h g vh rest)
      ]

  -- The fuel reaches behind the last slot of the candidate and of the window.
  Reaches : ℕ → Fit → Type 0
  Reaches fuel f =
      (0 < fuel)
      × (pos_part f.end_slot + 1 < fuel + pos_part f.slot)
      × (pos_part c.end_slot_index + 1 < fuel + pos_part f.slot)

  later-Reaches :
      (start_time : ℤ) (fuel : ℕ) (f h : Fit) (a : ℤ)
      → IsFit c start_time f
      → IsFit c start_time h
      → IsNext c a f h
      → f.slot ≤ℤ f.end_slot
      → Reaches (suc fuel) f
      → Reaches fuel h
  unfolding Reaches
  later-Reaches start_time fuel f h a v vh n go reach =
      let next : pos_part h.slot ≡ pos_part (f.slot +ℤ pos 1) = ap pos_part n.one_further in
      omega (
        arith,
        next,
        +ℤ_parts f.slot (pos 1),
        v.slot_nonneg,
        vh.slot_nonneg,
        n.last_bound,
        timed.end_index_nonneg,
        parts_split f.slot,
        parts_split h.slot,
        parts_split f.end_slot,
        parts_split h.end_slot,
        parts_split c.end_slot_index,
      )

  fit_loop-total :
      (start_time request_end : ℤ) (fuel : ℕ) (f : Fit)
      → IsFit c start_time f
      → Reaches fuel f
      → (r : Option Fit) × (fit_loop strategy c id start_time request_end fuel f ≡ some r)
  unfolding fit_loop Reaches
  fit_loop-total start_time request_end zero f v h = absurd (omega arith)
  fit_loop-total start_time request_end (suc fuel) f v reach =
      let a = promise.grant f.slot f.required in
      let given = promise.grants f.slot f.required in
      elim (Bool-cases (leb_ℤ f.slot f.end_slot)) [
        | inr stop ↦ (some f, ground arith)
        | inl go ↦ elim (Option-cases (fit_slot c start_time request_end a f)) [
          | inl refused ↦ (none, ground (arith, given))
          | inr (h, round) ↦
              let in_range : f.slot ≤ℤ f.end_slot = ground arith in
              let near = between-IsSmall f.slot f.end_slot v.slot_nonneg in_range v.last_small in
              let (vh, n) =
                fit_slot-IsFit c start_time request_end a f h timed v near
                  (promise.nonneg f.slot f.required v.required_nonneg)
                  (promise.at_most f.slot f.required v.required_nonneg) round in
              let (r, rest) =
                fit_loop-total start_time request_end fuel h vh
                  (later-Reaches start_time fuel f h a v vh n in_range reach) in
              (r, ground (arith, given, rest))
        ]
      ]

  -- The search loop ends on the fuel that it gets.
  pub fit_loop-fuel :
      (start_time request_end : ℤ) (f : Fit)
      → IsFit c start_time f
      → (r : Option Fit) × (fit_loop strategy c id start_time request_end (fit_fuel c f) f ≡ some r)
  unfolding Reaches
  fit_loop-fuel start_time request_end f v =
      fit_loop-total start_time request_end (fit_fuel c f) f v enough
    where
      top : ℤ
      top = if ltb_ℤ f.end_slot c.end_slot_index then c.end_slot_index else f.end_slot

      enough : Reaches (fit_fuel c f) f
      enough = ground (arith, -ℤ_parts top f.slot, v.slot_nonneg)
