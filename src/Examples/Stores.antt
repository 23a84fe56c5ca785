-- ===== src/Examples/Stores.antt =====
-- The store at a concrete reservation.
use vrm_rust.Base.{
  ◌==◌, string_eq, ◌≡◌, refl, none, [], nat_eq, arith, if◌then◌else◌, unwrap_or, ◌||◌, nat_beq,
  zero, suc, false, ◌&&◌, is_some,
}
use text.Mathlib.TextEquality.{eq_iff}
use vrm_rust.Base.Dict
use vrm_rust.Base.HashSet
use vrm_rust.Reservation.Fields.{finished, commit}
use vrm_rust.Reservation.Kinds.{get_base}
use vrm_rust.Reservation.Lifecycle.{is_reservation_at_cycle_end}
use vrm_rust.Store.{add}
use vrm_rust.Store.Read.{
  get, get_client_reservations, get_managed_reservations, get_state, get_name_for_key,
  get_key_for_name,
}
use vrm_rust.Store.Update.{update_state, get_state-update_state}
use vrm_rust.Store.Lifetime.{remove, add_probe_reservation, delete_probe_reservation}
use vrm_rust.Store.Listener.{on_reservation_change, contains-on_reservation_change}
use vrm_rust.Store.Owners.{get_client_reservations-add, get_client_reservations-remove}
use vrm_rust.Store.Index.{IsIndexed, add-IsIndexed, remove-IsIndexed, get-remove, probe_cycle}
use vrm_rust.Examples.Data.{job, candidate, store, listener, next_key, next_key-IsFresh}

store-IsIndexed : IsIndexed store
unfolding get_name_for_key get Dict.get get_base
store-IsIndexed n zero e = ground (arith, eq_iff "job" n)
store-IsIndexed n (suc k) e = ground arith

add-IsIndexed_example : IsIndexed (add next_key store job).0
add-IsIndexed_example = add-IsIndexed next_key next_key-IsFresh store job store-IsIndexed

remove-IsIndexed_example : IsIndexed (remove store 0)
remove-IsIndexed_example = remove-IsIndexed store 0 store-IsIndexed

get-remove_example : get (remove store 0) 0 ≡ (
    if nat_beq 0 0 || HashSet.contains 0 (unwrap_or (Dict.get 0 store.original_to_virtual) [])
    then none
    else get store 0)
get-remove_example = get-remove store 0 0

probe_cycle_example :
    let (s', p) = add_probe_reservation next_key store candidate in
    let s'' = delete_probe_reservation s' p in
    (get s'' 0 ≡ get store 0) × (get_key_for_name s'' (get_base candidate).name ≡ none)
unfolding get_base
probe_cycle_example = probe_cycle next_key next_key-IsFresh store candidate 0 refl

get_state-update_state_example :
    get_state (update_state store 0 finished) 0
    ≡ (if nat_beq 0 0 && is_some (get store 0) then finished else get_state store 0)
get_state-update_state_example = get_state-update_state store 0 0 finished

contains-on_reservation_change_example :
    HashSet.contains 1 (on_reservation_change listener 0 finished).open_reservations ≡ (
      if is_reservation_at_cycle_end finished commit
      then if nat_beq 0 1 then false else HashSet.contains 1 listener.open_reservations
      else HashSet.contains 1 listener.open_reservations)
contains-on_reservation_change_example = contains-on_reservation_change listener 0 1 finished

get_client_reservations-add_example :
    HashSet.contains 1 (get_client_reservations (add next_key store job).0 "client") ≡ (
      ((get_base job).client_id == "client" && nat_beq (add next_key store job).1 1)
      || HashSet.contains 1 (get_client_reservations store "client"))
get_client_reservations-add_example = get_client_reservations-add next_key store job "client" 1

get_client_reservations-remove_example :
    (get_client_reservations (remove store 0) "client" ≡ get_client_reservations store "client")
    × (get_managed_reservations (remove store 0) "aci" ≡ get_managed_reservations store "aci")
get_client_reservations-remove_example = get_client_reservations-remove store 0 "client" "aci"
