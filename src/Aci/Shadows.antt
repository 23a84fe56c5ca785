-- ===== src/Aci/Shadows.antt =====
-- The reservations of the shadow schedules of a component (src/vrm/vrm_component/aci.rs).
use vrm_rust.Base.{
  ℕ, String, Bool, true, false, Option, string_eq, nat_eq, if◌then◌else◌, ◌>>=◌, is_some,
}
use vrm_rust.Base.Dict
use vrm_rust.Base.Dict.{Dict}
use vrm_rust.Base.Int.{ℤ}

pub record ReservationContainer : Type 0 where
  pub owner : String
  pub commit_deadline : ℤ
  pub execution_deadline : ℤ

abbrev pub ShadowScheduleReservations : Type 0
ShadowScheduleReservations = Dict String (Dict ℕ ReservationContainer)

-- The map, and whether the id was new.
unfoldable pub insert :
    ShadowScheduleReservations
    → String
    → Dict ℕ ReservationContainer
    → ShadowScheduleReservations × Bool
insert m shadow containers =
    if is_some (Dict.get shadow m) then (m, false) else (Dict.insert shadow containers m, true)

unfoldable pub delete_shadow_schedule :
    ShadowScheduleReservations → String → ShadowScheduleReservations × Bool
delete_shadow_schedule m shadow = (Dict.remove shadow m, is_some (Dict.get shadow m))

unfoldable pub delete_reservation_container :
    ShadowScheduleReservations
    → ℕ
    → String
    → ShadowScheduleReservations × Option ReservationContainer
delete_reservation_container m id shadow = (
  Dict.modify shadow (Dict.remove id) m,
  Dict.get shadow m >>= λ containers. Dict.get id containers,
)
