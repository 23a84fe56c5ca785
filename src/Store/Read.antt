-- ===== src/Store/Read.antt =====
-- The store's queries (src/vrm/reservation/reservation_store.rs). `none` as the result of a query
-- stands for its panic, where the source panics on an unknown reservation.
use vrm_rust.Base.{
  ℕ, String, Bool, true, false, Option, none, some, List, [], ◌∷◌, map_option, unwrap_or, is_some,
  nat_eq, string_eq, ◌&&◌, ◌||◌, if◌then◌else◌, ◌>>=◌,
}
use vrm_rust.Base.Int.{ℤ, pos}
use vrm_rust.Base.Dict
use vrm_rust.Reservation.Fields.{
  ReservationBase, ReservationState, rejected, finished, open_state, reserve_answer,
  ReservationProceeding, delete, commit, ReservationTyp, workflow_typ, link_typ, node_typ,
}
use vrm_rust.Reservation.Lifecycle
use vrm_rust.Reservation.Lifecycle.{state_eq, at_least}
use vrm_rust.Reservation.Kinds.{
  Reservation, workflow, node, link, get_base, get_type, as_link, LinkReservation,
}
use vrm_rust.Store.{Store}

-- `get` and `get_reservation_snapshot`.
unfoldable pub get : Store → ℕ → Option Reservation
get s id = Dict.get id s.slots

unfoldable pub contains : Store → ℕ → Bool
unfolding get
contains s id = is_some (get s id)

unfoldable pub contains_reservations : Store → List ℕ → Bool
unfolding contains
contains_reservations s [] = true
contains_reservations s (id ∷ ids) = contains s id && contains_reservations s ids

-- A query of the base of a reservation.
unfoldable pub read {ℓ} : {A : Type ℓ} → Store → ℕ → (ReservationBase → A) → Option A
unfolding get get_base
read s id f = map_option (λ r. f (get_base r)) (get s id)

unfoldable pub get_by_name : Store → String → Option Reservation
get_by_name s name = do key ← Dict.get name s.name_index; Dict.get key s.slots

unfoldable pub get_name_for_key : Store → ℕ → Option String
unfolding read
get_name_for_key s id = read s id (λ b. b.name)

unfoldable pub get_key_for_name : Store → String → Option ℕ
get_key_for_name s name = Dict.get name s.name_index

unfoldable pub get_client_reservations : Store → String → List ℕ
get_client_reservations s client = unwrap_or (Dict.get client s.client_index) []

unfoldable pub get_managed_reservations : Store → String → List ℕ
get_managed_reservations s component = unwrap_or (Dict.get component s.handler_index) []

unfoldable pub get_reserved_capacity : Store → ℕ → ℤ
unfolding read
get_reserved_capacity s id = unwrap_or (read s id (λ b. b.reserved_capacity)) (pos 0)

abbrev start_of : Option LinkReservation → Option (Option String)
start_of none = none
start_of (some l) = some l.start_point

abbrev end_of : Option LinkReservation → Option (Option String)
end_of none = none
end_of (some l) = some l.end_point

-- The outer `none` is the panic of `unwrap` at a reservation that is no link.
unfoldable pub get_start_point : Store → ℕ → Option (Option String)
unfolding get as_link
get_start_point s id = elim (get s id) [ none ↦ some none | some r ↦ start_of (as_link r) ]

unfoldable pub get_end_point : Store → ℕ → Option (Option String)
unfolding get as_link
get_end_point s id = elim (get s id) [ none ↦ some none | some r ↦ end_of (as_link r) ]

unfoldable pub get_client_id : Store → ℕ → Option String
unfolding read
get_client_id s id = read s id (λ b. b.client_id)

unfoldable pub get_handler_id : Store → ℕ → Option (Option String)
unfolding read
get_handler_id s id = read s id (λ b. b.handler_id)

unfoldable pub get_assigned_start : Store → ℕ → Option ℤ
unfolding read
get_assigned_start s id = read s id (λ b. b.assigned_start)

unfoldable pub get_assigned_end : Store → ℕ → Option ℤ
unfolding read
get_assigned_end s id = read s id (λ b. b.assigned_end)

-- An unknown reservation counts as rejected.
unfoldable pub get_state : Store → ℕ → ReservationState
unfolding read
get_state s id = unwrap_or (read s id (λ b. b.state)) rejected

unfoldable pub get_task_duration : Store → ℕ → Option ℤ
unfolding read
get_task_duration s id = read s id (λ b. b.task_duration)

unfoldable pub get_reservation_proceeding : Store → ℕ → ReservationProceeding
unfolding read
get_reservation_proceeding s id = unwrap_or (read s id (λ b. b.request_proceeding)) delete

unfoldable pub get_booking_interval_start : Store → ℕ → Option ℤ
unfolding read
get_booking_interval_start s id = read s id (λ b. b.booking_interval_start)

unfoldable pub get_booking_interval_end : Store → ℕ → Option ℤ
unfolding read
get_booking_interval_end s id = read s id (λ b. b.booking_interval_end)

unfoldable pub is_moldable : Store → ℕ → Bool
unfolding read
is_moldable s id = unwrap_or (read s id (λ b. b.is_moldable)) false

abbrev typ_eq : ReservationTyp → ReservationTyp → Bool
typ_eq workflow_typ workflow_typ = true
typ_eq link_typ link_typ = true
typ_eq node_typ node_typ = true
typ_eq _ _ = false

unfoldable pub get_type_of : Store → ℕ → Option ReservationTyp
unfolding get get_type
get_type_of s id = map_option get_type (get s id)

unfoldable pub is_workflow : Store → ℕ → Bool
unfolding get_type_of
is_workflow s id = elim (get_type_of s id) [ none ↦ false | some t ↦ typ_eq t workflow_typ ]

unfoldable pub is_link : Store → ℕ → Bool
unfolding get_type_of
is_link s id = elim (get_type_of s id) [ none ↦ false | some t ↦ typ_eq t link_typ ]

unfoldable pub is_node : Store → ℕ → Bool
unfolding get_type_of
is_node s id = elim (get_type_of s id) [ none ↦ false | some t ↦ typ_eq t node_typ ]

abbrev proceeding_rank : ReservationProceeding → ℕ
proceeding_rank ReservationProceeding.probe = 0
proceeding_rank ReservationProceeding.reserve = 1
proceeding_rank ReservationProceeding.commit = 2
proceeding_rank ReservationProceeding.delete = 3
proceeding_rank ReservationProceeding.ignore = 4

unfoldable pub is_reservation_proceeding : Store → ℕ → ReservationProceeding → Bool
unfolding read
is_reservation_proceeding s id p =
    unwrap_or
      (read s id
        (λ b. vrm_rust.Base.nat_beq (proceeding_rank b.request_proceeding) (proceeding_rank p)))
      false

unfoldable pub is_reserve_request_valid : Store → ℕ → Bool
unfolding read Lifecycle.is_reserve_request_valid
is_reserve_request_valid s id =
    unwrap_or (read s id (λ b. Lifecycle.is_reserve_request_valid b.state)) false

unfoldable pub is_reservation_at_cycle_end : Store → ℕ → Bool
unfolding read Lifecycle.is_reservation_at_cycle_end
is_reservation_at_cycle_end s id =
    unwrap_or (read s id (λ b. Lifecycle.is_reservation_at_cycle_end b.state b.request_proceeding))
      false

unfoldable pub is_reservation_state_at_least : Store → ℕ → ReservationState → Bool
unfolding read
is_reservation_state_at_least s id state = unwrap_or (read s id (λ b. at_least b.state state)) false

all_finished : Store → List ℕ → Bool
unfolding get_state
all_finished s [] = true
all_finished s (id ∷ ids) = state_eq (get_state s id) finished && all_finished s ids

-- The last match of `is_res_commit_ready`.
dependencies_finished : Store → Reservation → Bool
unfolding all_finished
dependencies_finished s (node n) = all_finished s n.data_dependencies
dependencies_finished s (link l) = true
dependencies_finished s (workflow w) = true

unfoldable pub is_res_commit_ready : Store → ℕ → Bool
unfolding get get_state is_reservation_proceeding dependencies_finished
is_res_commit_ready s id = elim (get s id) [
  | none ↦ false
  | some r ↦
      is_reservation_proceeding s id commit
      && (state_eq (get_state s id) open_state || state_eq (get_state s id) reserve_answer)
      && dependencies_finished s r
]
