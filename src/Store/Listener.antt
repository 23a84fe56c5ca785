-- ===== src/Store/Listener.antt =====
-- The listener that keeps the set of open reservations
-- (src/vrm/reservation/vrm_state_listener.rs).
use vrm_rust.Base.{ℕ, ◌≡◌, Bool, true, false, List, [], nat_eq, if◌then◌else◌, arith, ◌==◌}
use vrm_rust.Base.HashSet
use vrm_rust.Reservation.Fields.{ReservationState, rejected, deleted, finished, commit}
use vrm_rust.Reservation.Lifecycle.{is_reservation_at_cycle_end}

pub record VrmStateListener : Type 0 where
  pub open_reservations : List ℕ

unfoldable pub new_empty : VrmStateListener
new_empty = record { open_reservations = [] }

unfoldable pub add : VrmStateListener → ℕ → VrmStateListener × Bool
add l id =
    let (ids, fresh) = HashSet.insert id l.open_reservations in
    (record l { open_reservations = ids }, fresh)

abbrev closes : ReservationState → Bool
closes deleted = true
closes rejected = true
closes finished = true
closes _ = false

unfoldable pub on_reservation_change : VrmStateListener → ℕ → ReservationState → VrmStateListener
on_reservation_change l id new_state =
    if closes new_state
    then record l { open_reservations = (HashSet.remove id l.open_reservations).0 }
    else l

-- A notification takes exactly the named reservation out of the set of open reservations, and only
-- if its new state ends the commit cycle.
pub contains-on_reservation_change :
    (l : VrmStateListener) (id j : ℕ) (s : ReservationState)
    → HashSet.contains j (on_reservation_change l id s).open_reservations ≡ (
        if is_reservation_at_cycle_end s commit
        then if id == j then false else HashSet.contains j l.open_reservations
        else HashSet.contains j l.open_reservations)
unfolding on_reservation_change is_reservation_at_cycle_end HashSet.remove
contains-on_reservation_change l id j s =
    ground (arith, HashSet.contains-erase id j l.open_reservations)
