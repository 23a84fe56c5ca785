-- ===== src/Store/Lifetime.antt =====
-- How reservations enter and leave the store beside `add`: virtual and probe reservations, and
-- removal (src/vrm/reservation/reservation_store.rs).
use Prim.Native.String.{◌++◌ as str_append}
use vrm_rust.Base.{
  ℕ, String, Option, none, some, List, [], ◌∷◌, nat_eq, string_eq, unwrap_or, if◌then◌else◌,
}
use vrm_rust.Base.Dict
use vrm_rust.Base.Dict.{Dict}
use vrm_rust.Base.HashSet
use vrm_rust.Reservation.Fields.{probe_reservation}
use vrm_rust.Reservation.Lifecycle.{state_eq}
use vrm_rust.Reservation.Kinds.{Reservation, workflow, node, link, LinkReservation, get_base}
use vrm_rust.Store.{Store, add}
use vrm_rust.Store.Read.{get, get_name_for_key, get_state}

-- Takes the slot and the entry of its name out, if the reservation is there.
unfoldable pub take_out : Store → ℕ → Store
unfolding get_name_for_key
take_out s id = elim (get_name_for_key s id) [
  | none ↦ s
  | some name ↦ record s {
    name_index = Dict.remove name s.name_index;
    slots = Dict.remove id s.slots;
  }
]

unfoldable pub take_out_all : Store → List ℕ → Store
unfolding take_out
take_out_all s [] = s
take_out_all s (id ∷ ids) = take_out_all (take_out s id) ids

unfoldable pub cascade_delete_virtual_reservations : Store → ℕ → Store
unfolding take_out_all
cascade_delete_virtual_reservations s original =
    let s' = take_out_all s (unwrap_or (Dict.get original s.original_to_virtual) []) in
    record s' { original_to_virtual = Dict.remove original s'.original_to_virtual }

unfoldable pub remove : Store → ℕ → Store
unfolding cascade_delete_virtual_reservations take_out
remove s id = take_out (cascade_delete_virtual_reservations s id) id

-- The entry of an original without one of its virtual reservations; an empty entry goes.
untrack : ℕ → ℕ → Dict ℕ (List ℕ) → Dict ℕ (List ℕ)
untrack original virtual m = elim (Dict.get original m) [
  | none ↦ m
  | some ids ↦ elim (HashSet.erase virtual ids) [
    | [] ↦ Dict.remove original m
    | x ∷ xs ↦ Dict.insert original (x ∷ xs) m
  ]
]

unfoldable pub remove_virtual_reservation : Store → ℕ → ℕ → Store
unfolding take_out untrack
remove_virtual_reservation s original virtual =
    let s' = take_out s virtual in
    record s' { original_to_virtual = untrack original virtual s'.original_to_virtual }

unfoldable pub delete_probe_reservation : Store → ℕ → Store
unfolding get_state take_out
delete_probe_reservation s id =
    if state_eq (get_state s id) probe_reservation then take_out s id else s

-- The name under which a probe reservation is indexed.
abbrev pub probe_name : String → String
probe_name name = str_append name "-ProbeReservation"

-- `debug_str` is the text that `{:?}` makes of a string.
module _ (new_key : Dict ℕ Reservation → ℕ) (debug_str : String → String) where
  -- `{:?}` of an `Option<ReservationName>`.
  debug_name : Option String → String
  debug_name none = "None"
  debug_name (some n) = str_append "Some(ReservationId: " (str_append (debug_str n) ")")

  -- The name of a virtual reservation, by the end of the link that it changes.
  virtual_name : Option String → String → String → String
  unfolding debug_name
  virtual_name name side router =
      str_append "Original-Res: " (
        str_append (debug_name name) (str_append side (str_append "RouterId: " (debug_str router))))

  -- Adds the changed link and tracks it under its original.
  add_virtual : Store → ℕ → LinkReservation → Store × Option ℕ
  unfolding add
  add_virtual s original l =
      let (s', key) = add new_key s (link l) in
      let ids = unwrap_or (Dict.get original s'.original_to_virtual) [] in
      (
        record s' {
          original_to_virtual =
              Dict.insert original (mathlib.Core.List.◌++◌ ids (key ∷ [])) s'.original_to_virtual;
        },
        some key,
      )

  change_start : Store → ℕ → String → Option Reservation → Store × Option ℕ
  unfolding add_virtual virtual_name get_name_for_key
  change_start s original start none = (s, none)
  change_start s original start (some (workflow w)) = (s, none)
  change_start s original start (some (node n)) = (s, none)
  change_start s original start (some (link l)) =
      let name = virtual_name (get_name_for_key s original) " | Start: " start in
      add_virtual s original
        (record l { base = record (l.base) { name = name }; start_point = some start })

  unfoldable pub add_virtual_reservation_diff_start : Store → ℕ → String → Store × Option ℕ
  unfolding change_start get
  add_virtual_reservation_diff_start s original start =
      change_start s original start (get s original)

  change_end : Store → ℕ → String → Option Reservation → Store × Option ℕ
  unfolding add_virtual virtual_name get_name_for_key
  change_end s original end_point none = (s, none)
  change_end s original end_point (some (workflow w)) = (s, none)
  change_end s original end_point (some (node n)) = (s, none)
  change_end s original end_point (some (link l)) =
      let name = virtual_name (get_name_for_key s original) " | End: " end_point in
      add_virtual s original
        (record l { base = record (l.base) { name = name }; end_point = some end_point })

  unfoldable pub add_virtual_reservation_diff_end : Store → ℕ → String → Store × Option ℕ
  unfolding change_end get
  add_virtual_reservation_diff_end s original end_point =
      change_end s original end_point (get s original)

module _ (new_key : Dict ℕ Reservation → ℕ) where
  unfoldable pub add_probe_reservation : Store → Reservation → Store × ℕ
  add_probe_reservation s reservation =
      let key = new_key s.slots in
      (
        record s {
          slots = Dict.insert key reservation s.slots;
          name_index = Dict.insert (probe_name (get_base reservation).name) key s.name_index;
        },
        key,
      )
