-- ===== src/Aci.antt =====
-- The interface of a component to its resource management system
-- (src/vrm/vrm_component/aci.rs). The store of the reservations and the time of the clock are
-- passed beside it. `none` stands for a panic.
pub mod Shadows
pub mod Tracking
pub mod InStep
pub mod Requests
use vrm_rust.Base.{
  ℕ, String, Bool, true, false, Option, none, some, [], ◌∷◌, string_eq, nat_eq, if◌then◌else◌,
  ◌>>=◌, is_some, unwrap_or, map_option,
}
use vrm_rust.Base.Dict
use vrm_rust.Base.Dict.{Dict}
use vrm_rust.Base.Floats.{F64}
use vrm_rust.Base.Int.{ℤ}
use vrm_rust.Base.I64.{◌+i◌, i64_max}
use vrm_rust.Reservation.Fields.{rejected, reserve_answer}
use vrm_rust.Reservation.Kinds.{Reservation}
use vrm_rust.Reservation.Lifecycle.{state_eq}
use vrm_rust.Reservation.ProbeReservations
use vrm_rust.Reservation.ProbeReservations.{
  ProbeReservations, ProbeReservationComparator, add_probe_meta_data,
}
use vrm_rust.Rms.{AdvanceReservationRms, RmsLoadMetric}
use vrm_rust.Aci.Shadows
use vrm_rust.Aci.Shadows.{ShadowScheduleReservations, ReservationContainer}
use vrm_rust.Store.{Store}
use vrm_rust.Store.Read
use vrm_rust.Store.Update.{update_state}

pub record Aci (R : Type 0) : Type 0 where
  pub id : String
  pub adc_id : String
  pub commit_timeout : ℤ
  pub rms_system : R
  pub shadow_schedule_reservations : ShadowScheduleReservations
  pub committed_reservations : Dict ℕ ReservationContainer
  pub not_committed_reservations : Dict ℕ ReservationContainer
  pub open_probe_reservations : Dict ℕ (Option String)

-- A component at its start.
unfoldable pub new : {R : Type 0} → String → String → ℤ → R → Aci R
new id adc_id commit_timeout rms_system = record {
  id = id;
  adc_id = adc_id;
  commit_timeout = commit_timeout;
  rms_system = rms_system;
  shadow_schedule_reservations = [];
  committed_reservations = [];
  not_committed_reservations = [];
  open_probe_reservations = [];
}

module _ {R : Type 0} (rms : AdvanceReservationRms R) where
  unfoldable pub get_total_capacity : Aci R → ℤ
  get_total_capacity a = rms.get_total_capacity a.rms_system

  unfoldable pub get_total_link_capacity : Aci R → ℤ
  get_total_link_capacity a = rms.get_total_link_capacity a.rms_system

  unfoldable pub get_total_node_capacity : Aci R → ℤ
  get_total_node_capacity a = rms.get_total_node_capacity a.rms_system

  unfoldable pub get_link_resource_count : Aci R → ℕ
  get_link_resource_count a = rms.get_link_resource_count a.rms_system

  -- The state of the RMS after a measure of it.
  unfoldable pub measured : {A : Type 0} → Aci R → R × Store × A → Aci R × Store × A
  measured a (r, s, value) = (record a { rms_system = r }, s, value)

  unfoldable pub get_load_metric : Aci R → Store → ℤ → ℤ → Option String → Option RmsLoadMetric
  get_load_metric a s start end_time shadow =
      rms.get_load_metric a.rms_system s start end_time shadow

  unfoldable pub get_load_metric_up_to_date :
      Aci R → Store → ℤ → ℤ → ℤ → Option String → Option (Aci R × Store × RmsLoadMetric)
  unfolding measured
  get_load_metric_up_to_date a s now start end_time shadow =
      map_option (measured a)
        (rms.get_load_metric_up_to_date a.rms_system s now start end_time shadow)

  unfoldable pub get_satisfaction :
      Aci R → Store → ℤ → ℤ → ℤ → Option String → Option (Aci R × Store × F64)
  unfolding measured
  get_satisfaction a s now start end_time shadow =
      map_option (measured a) (rms.get_fragmentation a.rms_system s now start end_time shadow)

  unfoldable pub get_system_satisfaction :
      Aci R → Store → ℤ → Option String → Option (Aci R × Store × F64)
  unfolding measured
  get_system_satisfaction a s now shadow =
      map_option (measured a) (rms.get_system_fragmentation a.rms_system s now shadow)

  unfoldable pub get_simulation_load_metric : Aci R → Option String → Option (Aci R × RmsLoadMetric)
  get_simulation_load_metric a shadow = do
    (r, metric) ← rms.get_simulation_load_metric a.rms_system shadow
    some (record a { rms_system = r }, metric)

  unfoldable pub can_handel : Aci R → Reservation → Bool
  can_handel a r = rms.can_handle_adc_request a.rms_system r

  -- The end of `commit`, for the reservation and its container.
  unfoldable pub commit_container : Aci R → Store → ℕ → ReservationContainer → Aci R × Store × Bool
  commit_container a s id container =
      if state_eq (Read.get_state s id) reserve_answer
      then (
        record a { committed_reservations = Dict.insert id container a.committed_reservations },
        rms.commit a.rms_system s id,
        true,
      )
      else (a, update_state s id rejected, false)

  -- A commit without a reserve reserves first.
  unfoldable pub commit_reserved : Aci R → Store → ℕ → Bool → Option (Aci R × Store × Bool)
  unfolding commit_container
  commit_reserved a s got false = some (a, s, false)
  commit_reserved a s got true = do
    owner ← Read.get_client_id s got
    assigned_end ← Read.get_assigned_end s got
    some (
        commit_container a s got
          (record { owner = owner; commit_deadline = i64_max; execution_deadline = assigned_end }))

  unfoldable pub commit_new : Aci R → Store → ℤ → ℕ → Bool → Option (Aci R × Store × Bool)
  unfolding commit_reserved
  commit_new a s now id false = some (a, update_state s id rejected, false)
  commit_new a s now id true = do
    (r, s', answer) ← rms.reserve a.rms_system s now id none
    let got = unwrap_or answer id
    commit_reserved (record a { rms_system = r }) s' got
        (Read.is_reservation_state_at_least s' got reserve_answer)

  unfoldable pub commit_known :
      Aci R → Store → ℤ → ℕ → Option ReservationContainer → Option (Aci R × Store × Bool)
  unfolding commit_container commit_new
  commit_known a s now id (some container) = some (
      commit_container
        (record a { not_committed_reservations = Dict.remove id a.not_committed_reservations }) s id
        container)
  commit_known a s now id none = do
    can_handle ← rms.can_handle_aci_request a.rms_system s id
    commit_new a s now id can_handle

  unfoldable pub commit : Aci R → Store → ℤ → ℕ → Option (Aci R × Store × Bool)
  unfolding commit_known
  commit a s now id = commit_known a s now id (Dict.get id a.not_committed_reservations)

  unfoldable pub promoted :
      Aci R → String → Dict ℕ ReservationContainer → R × Bool → Option (Aci R × Bool)
  promoted a shadow containers (r, false) = none
  promoted a shadow containers (r, true) =
      let (shadows, done) = Shadows.delete_shadow_schedule a.shadow_schedule_reservations shadow in
      some (
        record a {
          rms_system = r;
          committed_reservations = containers;
          shadow_schedule_reservations = shadows;
        },
        done,
      )

  unfoldable pub commit_shadow_schedule : Aci R → String → Option (Aci R × Bool)
  unfolding promoted
  commit_shadow_schedule a shadow = do
    containers ← Dict.get shadow a.shadow_schedule_reservations
    promoted a shadow containers (rms.commit_shadow_schedule a.rms_system shadow)

  -- What follows the answer of the RMS: `none` is the panic when the two are no longer in step.
  unfoldable pub in_step :
      Aci R → R × Bool → ShadowScheduleReservations × Bool → Option (Aci R × Bool)
  in_step a (r, false) change = some (record a { rms_system = r }, false)
  in_step a (r, true) (shadows, false) = none
  in_step a (r, true) (shadows, true) =
      some (record a { rms_system = r; shadow_schedule_reservations = shadows }, true)

  unfoldable pub create_shadow_schedule : Aci R → String → Option (Aci R × Bool)
  unfolding in_step Shadows.insert
  create_shadow_schedule a shadow =
      in_step a (rms.create_shadow_schedule a.rms_system shadow)
        (Shadows.insert a.shadow_schedule_reservations shadow a.committed_reservations)

  unfoldable pub delete_shadow_schedule : Aci R → String → Option (Aci R × Bool)
  unfolding in_step Shadows.delete_shadow_schedule
  delete_shadow_schedule a shadow =
      in_step a (rms.delete_shadow_schedule a.rms_system shadow)
        (Shadows.delete_shadow_schedule a.shadow_schedule_reservations shadow)

  -- The container leaves the map of the shadow schedule, or that of the reservations not committed.
  unfoldable pub take_container : Aci R → ℕ → Option String → Aci R × Option ReservationContainer
  unfolding Shadows.delete_reservation_container
  take_container a id none = (
    record a { not_committed_reservations = Dict.remove id a.not_committed_reservations },
    Dict.get id a.not_committed_reservations,
  )
  take_container a id (some shadow) =
      let (shadows, container) =
        Shadows.delete_reservation_container a.shadow_schedule_reservations id shadow in
      (record a { shadow_schedule_reservations = shadows }, container)

  unfoldable pub delete_taken :
      Store
      → ℤ
      → ℕ
      → Option String
      → Aci R × Option ReservationContainer
      → Option (Aci R × Store × ℕ)
  delete_taken s now id shadow (a, none) = some (a, update_state s id rejected, id)
  delete_taken s now id shadow (a, some container) = do
    (r, s') ← rms.delete_task a.rms_system s now id shadow
    some (record a { rms_system = r }, s', id)

  unfoldable pub delete : Aci R → Store → ℤ → ℕ → Option String → Option (Aci R × Store × ℕ)
  unfolding take_container delete_taken
  delete a s now id shadow = delete_taken s now id shadow (take_container a id shadow)
