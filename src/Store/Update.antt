-- ===== src/Store/Update.antt =====
-- The store's updates of one reservation (src/vrm/reservation/reservation_store.rs). On an unknown
-- reservation each logs an error and changes nothing.
use vrm_rust.Base.{ℕ, ◌≡◌, Bool, map, nat_eq, if◌then◌else◌, arith, is_some, ◌==◌, ◌&&◌, map_option}
use vrm_rust.Base.Floats.{F64}
use vrm_rust.Base.Int.{ℤ}
use vrm_rust.Base.Dict
use vrm_rust.Reservation.Fields
use vrm_rust.Reservation.Fields.{ReservationBase, ReservationState}
use vrm_rust.Reservation.Trait
use vrm_rust.Reservation.Kinds.{map_base, get_base}
use vrm_rust.Store.{Store}
use vrm_rust.Store.Listener.{on_reservation_change}
use vrm_rust.Store.Read.{get, get_state}

-- `handle.write()` and a method of the reservation's base.
unfoldable pub write : Store → ℕ → (ReservationBase → ReservationBase) → Store
unfolding map_base
write s id f = record s { slots = Dict.modify id (map_base f) s.slots }

unfoldable pub set_frag_delta : Store → ℕ → F64 → Store
unfolding write
set_frag_delta s id delta = write s id (λ b. Trait.set_frag_delta b delta)

unfoldable pub set_booking_interval_start : Store → ℕ → ℤ → Store
unfolding write
set_booking_interval_start s id time = write s id (λ b. Trait.set_booking_interval_start b time)

unfoldable pub set_booking_interval_end : Store → ℕ → ℤ → Store
unfolding write
set_booking_interval_end s id time = write s id (λ b. Trait.set_booking_interval_end b time)

unfoldable pub set_assigned_start : Store → ℕ → ℤ → Store
unfolding write
set_assigned_start s id time = write s id (λ b. Trait.set_assigned_start b time)

unfoldable pub set_assigned_end : Store → ℕ → ℤ → Store
unfolding write
set_assigned_end s id time = write s id (λ b. Trait.set_assigned_end b time)

unfoldable pub set_reserved_capacity : Store → ℕ → ℤ → Store
unfolding write
set_reserved_capacity s id capacity = write s id (λ b. Trait.set_reserved_capacity b capacity)

unfoldable pub set_task_duration : Store → ℕ → ℤ → Store
unfolding write
set_task_duration s id duration = write s id (λ b. Trait.set_task_duration b duration)

unfoldable pub set_is_moldable : Store → ℕ → Bool → Store
unfolding write
set_is_moldable s id moldable = write s id (λ b. Trait.set_is_moldable b moldable)

unfoldable pub adjust_capacity : Store → ℕ → ℤ → Store
unfolding write
adjust_capacity s id capacity = write s id (λ b. Trait.adjust_capacity b capacity)

unfoldable pub adjust_task_duration : Store → ℕ → ℤ → Store
unfolding write
adjust_task_duration s id duration = write s id (λ b. Fields.adjust_task_duration b duration)

-- Sets the state and tells every listener; an unknown reservation is no change and no news.
unfoldable pub update_state : Store → ℕ → ReservationState → Store
unfolding write
update_state s id new_state =
    if is_some (Dict.get id s.slots)
    then record (write s id (λ b. Trait.set_state b new_state)) {
      listeners = map (λ l. on_reservation_change l id new_state) s.listeners;
    }
    else s

-- The base that a write leaves in the store: the written one at its reservation, the old one at
-- every other.
pub get-write :
    (s : Store) (id j : ℕ) (f : ReservationBase → ReservationBase)
    → get (write s id f) j ≡ (if id == j then map_option (map_base f) (get s j) else get s j)
unfolding write get
get-write s id j f = Dict.get-modify id j (map_base f) s.slots

-- After a change of the state a known reservation reads with the new state, an unknown one as
-- before, and so does every other reservation.
pub get_state-update_state :
    (s : Store) (id j : ℕ) (new_state : ReservationState)
    → get_state (update_state s id new_state) j
      ≡ (if id == j && is_some (get s id) then new_state else get_state s j)
unfolding update_state get_state get get_base Trait.set_state
get_state-update_state s id j new_state =
    ground (arith, Dict.get-modify id j (map_base (λ b. Trait.set_state b new_state)) s.slots)
