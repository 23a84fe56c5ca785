-- ===== src/Reservation/ActiveReservations.antt =====
-- The set of reservations that a schedule keeps (`Reservations` of
-- src/vrm/reservation/reservations.rs). The shared store is passed beside the set.
use vrm_rust.Base.{ℕ, Bool, true, false, Option, none, some, List, [], ◌∷◌, nat_eq, if◌then◌else◌}
use vrm_rust.Base.Int.{ℤ, ltb_ℤ}
use vrm_rust.Base.I64.{i64_max}
use vrm_rust.Base.HashSet
use vrm_rust.Reservation.Fields.{deleted}
use vrm_rust.Store.{Store}
use vrm_rust.Store.Read.{get_assigned_start}
use vrm_rust.Store.Update.{update_state}

abbrev pub Reservations : Type 0
Reservations = List ℕ

unfoldable pub clear : Reservations → Reservations
clear rs = []

-- The set, and whether the reservation is new.
unfoldable pub insert : Reservations → ℕ → Reservations × Bool
insert rs id = HashSet.insert id rs

-- Takes the reservation out, and marks it as deleted in the store if it was there.
unfoldable pub delete_reservation : Store → Reservations → ℕ → Store × Reservations × Bool
delete_reservation s rs id =
    let (rs', found) = HashSet.remove id rs in
    if found then (update_state s id deleted, rs', true) else (s, rs', false)

unfoldable pub contains_key : Reservations → ℕ → Bool
contains_key rs id = HashSet.contains id rs

-- The loop of `get_id_with_first_start_slot`, with the earliest start found so far.
first_start_from : Store → ℤ → Option ℕ → List ℕ → Option (Option ℕ)
first_start_from s earliest best [] = some best
first_start_from s earliest best (id ∷ ids) = elim (get_assigned_start s id) [
  | none ↦ none
  | some start ↦
      first_start_from s (if ltb_ℤ start earliest then start else earliest)
        (if ltb_ℤ start earliest then some id else best) ids
]

-- The outer `none` is the panic at a reservation that the store does not know.
unfoldable pub get_id_with_first_start_slot : Store → Reservations → Option (Option ℕ)
unfolding first_start_from
get_id_with_first_start_slot s rs = first_start_from s i64_max none rs
