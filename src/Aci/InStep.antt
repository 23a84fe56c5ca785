-- ===== src/Aci/InStep.antt =====
-- The shadow schedules of a component and those of its simulated resource management system (aci.rs
-- and rms_node_network_trait.rs).
use vrm_rust.Base.{
  String, Bool, true, false, none, some, string_eq, ◌≡◌, refl, ap, sym, ◌∙◌, subst, ℕ, is_some,
  Bool-cases, inl, inr, beq_refl, ◌||◌,
}
use vrm_rust.Base.Dict
use vrm_rust.Base.Dict.{Dict}
use vrm_rust.Base.Floats.{F64, Floats}
use vrm_rust.Base.Int.{ℤ}
use vrm_rust.Reservation.Kinds.{Reservation}
use vrm_rust.Rms.Simulator
use vrm_rust.Rms.Simulator.Interface.{rms_simulator}
use vrm_rust.Rms.Simulator.{RmsSimulator, has_shadow, remove_shadow}
use vrm_rust.Schedule.Context.{Context}
use vrm_rust.Schedule.NodeStrategy.{NodeStrategy}
use vrm_rust.Aci
use vrm_rust.Aci.{Aci, in_step}
use vrm_rust.Aci.Shadows
use vrm_rust.Aci.Shadows.{ShadowScheduleReservations, ReservationContainer}
use vrm_rust.Rms.{AdvanceReservationRms}
use vrm_rust.Aci.Tracking.{insert_known, in_step-true}

-- Both maps have a copy.
abbrev HasBoth : RmsSimulator → String → Type 0
HasBoth r shadow =
    (is_some (Dict.get shadow r.network_shadow_schedule) ≡ true)
    × (is_some (Dict.get shadow r.node_shadow_schedule) ≡ true)

create-HasBoth :
    (r : RmsSimulator) (shadow : String)
    → (Simulator.create_shadow_schedule r shadow).1 ≡ true
    → HasBoth (Simulator.create_shadow_schedule r shadow).0 shadow
unfolding Simulator.create_shadow_schedule has_shadow
create-HasBoth r shadow e =
    elim (Bool-cases (
      is_some (Dict.get shadow r.network_shadow_schedule)
      || is_some (Dict.get shadow r.node_shadow_schedule))) [
        | inl known ↦ absurd (let p = rw known at e in cc)
        | inr fresh ↦ rw fresh (
          rw
              (
                Dict.get-insert shadow shadow r.network_schedule r.network_shadow_schedule,
                beq_refl shadow,
              )
              refl,
          rw (Dict.get-insert shadow shadow r.node_schedule r.node_shadow_schedule, beq_refl shadow)
              refl,
        )
      ]

-- A deletion takes both copies away, and reports that it did not.
delete-HasBoth :
    (r : RmsSimulator) (shadow : String)
    → HasBoth r shadow
    → Simulator.delete_shadow_schedule r shadow ≡ (remove_shadow r shadow, false)
unfolding Simulator.delete_shadow_schedule has_shadow
delete-HasBoth r shadow e = rw (e.0, e.1) refl

insert_twice :
    (m : ShadowScheduleReservations) (shadow : String) (containers : Dict ℕ ReservationContainer)
    → is_some (Dict.get shadow m) ≡ true
    → (Shadows.insert m shadow containers).1 ≡ false
unfolding Shadows.insert
insert_twice m shadow containers e = rw e refl

create-remove_shadow :
    (r : RmsSimulator) (shadow : String)
    → (Simulator.create_shadow_schedule (remove_shadow r shadow) shadow).1 ≡ true
unfolding Simulator.create_shadow_schedule has_shadow remove_shadow
create-remove_shadow r shadow =
    rw
      (
        Dict.get-remove shadow shadow r.node_shadow_schedule,
        Dict.get-remove shadow shadow r.network_shadow_schedule,
        beq_refl shadow,
      )
      refl

module _ {R : Type 0} (rms : AdvanceReservationRms R) where
  in_step-answer :
      (a a1 : Aci R) (answer : R × Bool) (change : ShadowScheduleReservations × Bool)
      → in_step rms a answer change ≡ some (a1, true)
      → (answer.1 ≡ true) × (a1.rms_system ≡ answer.0)
  unfolding in_step
  in_step-answer a a1 (r, false) change e = absurd (cc)
  in_step-answer a a1 (r, true) (shadows, false) e = absurd (cc)
  in_step-answer a a1 (r, true) (shadows, true) e =
      let p : record a { rms_system = r; shadow_schedule_reservations = shadows } ≡ a1 = cc in
      (refl, ap (λ (a : Aci R). a.rms_system) (sym p))

  in_step-none :
      (a : Aci R) (answer : R × Bool) (change : ShadowScheduleReservations × Bool)
      → answer.1 ≡ true
      → change.1 ≡ false
      → in_step rms a answer change ≡ none
  unfolding in_step
  in_step-none a (r, false) change e f = absurd (cc)
  in_step-none a (r, true) (shadows, false) e f = refl
  in_step-none a (r, true) (shadows, true) e f = absurd (cc)

module _ (fl : Floats) (fragmentation : Context NodeStrategy → Bool → ℤ → ℤ → F64)
    (new_key : Dict ℕ Reservation → ℕ) where
  -- Over the simulated resource management system, after a shadow schedule was created, its
  -- deletion reports a failure, and creating it again panics.
  pub create_shadow_schedule-delete_shadow_schedule :
      (a a1 : Aci RmsSimulator) (shadow : String)
      → Aci.create_shadow_schedule (rms_simulator fl fragmentation new_key) a shadow
        ≡ some (a1, true)
      → (a2 : Aci RmsSimulator) × (Aci.delete_shadow_schedule
            (rms_simulator fl fragmentation new_key)
            a1
            shadow
          ≡ some (a2, false))
        × (Aci.create_shadow_schedule (rms_simulator fl fragmentation new_key) a2 shadow ≡ none)
  unfolding Aci.create_shadow_schedule Aci.delete_shadow_schedule in_step
  create_shadow_schedule-delete_shadow_schedule a a1 shadow created =
      let r1 = Simulator.create_shadow_schedule a.rms_system shadow in
      let change = Shadows.insert a.shadow_schedule_reservations shadow a.committed_reservations in
      let sim = rms_simulator fl fragmentation new_key in
      let (done, same) = in_step-answer sim a a1 r1 change created in
      let (fresh, shadows) = in_step-true sim a a1 r1 change created in
      let both =
        subst (λ r. HasBoth r shadow) (sym same) (create-HasBoth a.rms_system shadow done) in
      let known =
        ap (λ m. is_some (Dict.get shadow m)) shadows
        ∙ insert_known a.shadow_schedule_reservations shadow a.committed_reservations fresh in
      let a2 : Aci RmsSimulator = record a1 { rms_system = remove_shadow a1.rms_system shadow } in
      (
        a2,
        ap
            (λ answer.
              in_step sim a1 answer
                (Shadows.delete_shadow_schedule a1.shadow_schedule_reservations shadow))
            (delete-HasBoth a1.rms_system shadow both),
        in_step-none sim a2
            (Simulator.create_shadow_schedule (remove_shadow a1.rms_system shadow) shadow)
            (Shadows.insert a1.shadow_schedule_reservations shadow a1.committed_reservations)
            (create-remove_shadow a1.rms_system shadow)
            (insert_twice a1.shadow_schedule_reservations shadow a1.committed_reservations known),
      )
