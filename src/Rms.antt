-- ===== src/Rms.antt =====
-- The resource management system of a component (src/vrm/rms/rms.rs and
-- advance_reservation_trait.rs): what a component asks of it. The store of the reservations and the
-- time of the clock are passed beside it. `none` stands for a panic.
pub mod Simulator
use vrm_rust.Base.{ℕ, String, Bool, Option}
use vrm_rust.Base.Floats.{F64}
use vrm_rust.Base.Int.{ℤ}
use vrm_rust.Reservation.Fields.{committed, finished}
use vrm_rust.Reservation.Kinds.{Reservation}
use vrm_rust.Reservation.ProbeReservations.{ProbeReservations, ProbeReservationComparator}
use vrm_rust.Resource.{ResourceStore}
use vrm_rust.Schedule.LoadBuffer.{LoadMetric}
use vrm_rust.Store.{Store}
use vrm_rust.Store.Update.{update_state}

pub record RmsBase : Type 0 where
  pub id : String
  pub resource_store : ResourceStore

pub record RmsLoadMetric : Type 0 where
  pub node_load_metric : Option LoadMetric
  pub link_load_metric : Option LoadMetric

pub record AdvanceReservationRms (R : Type 0) : Type 0 where
  pub get_total_capacity : R → ℤ
  pub get_total_link_capacity : R → ℤ
  pub get_total_node_capacity : R → ℤ
  pub get_link_resource_count : R → ℕ
  pub can_handle_adc_request : R → Reservation → Bool
  pub can_handle_aci_request : R → Store → ℕ → Option Bool
  pub probe : R → Store → ℤ → ℕ → Option String → Option (R × Store × ProbeReservations)
  pub probe_best :
      R
      → Store
      → ℤ
      → ℕ
      → ProbeReservationComparator
      → Option String
      → Option (R × Store × ProbeReservations)
  pub reserve : R → Store → ℤ → ℕ → Option String → Option (R × Store × Option ℕ)
  pub commit : R → Store → ℕ → Store
  pub delete_task : R → Store → ℤ → ℕ → Option String → Option (R × Store)
  pub create_shadow_schedule : R → String → R × Bool
  pub commit_shadow_schedule : R → String → R × Bool
  pub delete_shadow_schedule : R → String → R × Bool
  pub get_fragmentation : R → Store → ℤ → ℤ → ℤ → Option String → Option (R × Store × F64)
  pub get_system_fragmentation : R → Store → ℤ → Option String → Option (R × Store × F64)
  pub get_load_metric : R → Store → ℤ → ℤ → Option String → Option RmsLoadMetric
  pub get_load_metric_up_to_date :
      R → Store → ℤ → ℤ → ℤ → Option String → Option (R × Store × RmsLoadMetric)
  pub get_simulation_load_metric : R → Option String → Option (R × RmsLoadMetric)

-- The trait's own `commit`: a simulated reservation is finished as soon as it is committed.
unfoldable pub commit : Store → ℕ → Store
commit s id = update_state (update_state s id committed) id finished
