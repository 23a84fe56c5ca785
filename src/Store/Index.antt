-- ===== src/Store/Index.antt =====
-- The name index of the store agrees with its slots, and removal is complete.
use vrm_rust.Base.{
  ℕ, String, ◌≡◌, refl, none, some, List, [], ◌∷◌, nat_eq, string_eq, arith, if◌then◌else◌,
  unwrap_or, ◌==◌, ◌||◌, beq_refl, inl, inr, Option-cases,
}
use text.Mathlib.TextEquality.{eq_iff}
use vrm_rust.Base.Dict
use vrm_rust.Base.HashSet
use vrm_rust.Base.Dict.{Dict}
use vrm_rust.Reservation.Fields.{probe_reservation}
use vrm_rust.Reservation.Kinds.{Reservation, get_base}
use vrm_rust.Store.{Store, add}
use vrm_rust.Store.Read.{get, get_name_for_key, get_state, get_key_for_name}
use vrm_rust.Store.Lifetime.{
  take_out, take_out_all, remove, cascade_delete_virtual_reservations, add_probe_reservation,
  delete_probe_reservation, probe_name,
}

-- Every name in the index leads to a stored reservation of that name.
abbrev pub IsIndexed : Store → Type 0
IsIndexed s =
    (n : String) (k : ℕ) → Dict.get n s.name_index ≡ some k → get_name_for_key s k ≡ some n

-- The key that the slot map gives is not in use.
abbrev pub IsFresh : (Dict ℕ Reservation → ℕ) → Type 0
IsFresh new_key = (m : Dict ℕ Reservation) → Dict.get (new_key m) m ≡ none

pub take_out-IsIndexed : (s : Store) (id : ℕ) → IsIndexed s → IsIndexed (take_out s id)
unfolding take_out get_name_for_key get
take_out-IsIndexed s id h n k e = elim (Option-cases (Dict.get id s.slots)) [
  | inl gone ↦ ground (arith, h n k)
  | inr (r, found) ↦ ground (
    arith,
    h n k,
    Dict.get-remove id k s.slots,
    Dict.get-remove (get_base r).name n s.name_index,
    eq_iff (get_base r).name n,
  )
]

pub get-take_out :
    (s : Store) (id j : ℕ) → get (take_out s id) j ≡ (if id == j then none else get s j)
unfolding take_out get_name_for_key get
get-take_out s id j = ground (arith, Dict.get-remove id j s.slots)

module _ (new_key : Dict ℕ Reservation → ℕ) (fresh : IsFresh new_key) where
  -- A reservation that enters the store keeps the name index sound, where the slot map gives it a
  -- key that is not in use.
  pub add-IsIndexed : (s : Store) (r : Reservation) → IsIndexed s → IsIndexed (add new_key s r).0
  unfolding add get_name_for_key get
  add-IsIndexed s r h n k e = ground (
    arith,
    h n k,
    fresh s.slots,
    Dict.get-insert (new_key s.slots) k r s.slots,
    Dict.get-insert (get_base r).name n (new_key s.slots) s.name_index,
    eq_iff (get_base r).name n,
  )

take_out_all-IsIndexed : (s : Store) (ids : List ℕ) → IsIndexed s → IsIndexed (take_out_all s ids)
unfolding take_out_all
take_out_all-IsIndexed s [] h = h
take_out_all-IsIndexed s (id ∷ ids) h =
    take_out_all-IsIndexed (take_out s id) ids (take_out-IsIndexed s id h)

-- The removal of a reservation and of its virtual reservations keeps the name index sound: every
-- name that is in the index leads to a stored reservation of that name.
pub remove-IsIndexed : (s : Store) (id : ℕ) → IsIndexed s → IsIndexed (remove s id)
unfolding remove cascade_delete_virtual_reservations
remove-IsIndexed s id h =
    take_out-IsIndexed (cascade_delete_virtual_reservations s id) id
      (take_out_all-IsIndexed s (unwrap_or (Dict.get id s.original_to_virtual) []) h)

get-take_out_all :
    (s : Store) (ids : List ℕ) (j : ℕ)
    → get (take_out_all s ids) j ≡ (if HashSet.contains j ids then none else get s j)
unfolding take_out_all HashSet.contains
get-take_out_all s [] j = refl
get-take_out_all s (id ∷ ids) j =
    ground (arith, get-take_out_all (take_out s id) ids j, get-take_out s id j)

get_cascade :
    (s : Store) (id j : ℕ)
    → get (cascade_delete_virtual_reservations s id) j
      ≡ get (take_out_all s (unwrap_or (Dict.get id s.original_to_virtual) [])) j
unfolding cascade_delete_virtual_reservations get
get_cascade s id j = refl

-- After the removal of a reservation it and every virtual reservation that is tracked under it are
-- gone, and every other reservation is as before.
pub get-remove :
    (s : Store) (id j : ℕ)
    → get (remove s id) j ≡ (
        if id == j || HashSet.contains j (unwrap_or (Dict.get id s.original_to_virtual) [])
        then none
        else get s j)
unfolding remove cascade_delete_virtual_reservations
get-remove s id j = ground (
  arith,
  get-take_out (cascade_delete_virtual_reservations s id) id j,
  get-take_out_all s (unwrap_or (Dict.get id s.original_to_virtual) []) j,
  get_cascade s id j,
)

-- A probe that is added and deleted again leaves the slots as they were, but the name of the
-- reservation that was probed is no longer indexed.
module _ (new_key : Dict ℕ Reservation → ℕ) (fresh : IsFresh new_key) where
  -- A probe reservation that is added and deleted again leaves the reservations as they were, but
  -- the name of the reservation that was probed is no longer in the index, where the slot map
  -- gives a key that is not in use.
  pub probe_cycle :
      (s : Store) (r : Reservation) (j : ℕ)
      → (get_base r).state ≡ probe_reservation
      → let (s', p) = add_probe_reservation new_key s r in
        let s'' = delete_probe_reservation s' p in
        (get s'' j ≡ get s j) × (get_key_for_name s'' (get_base r).name ≡ none)
  unfolding add_probe_reservation delete_probe_reservation get get_state get_key_for_name take_out
  probe_cycle s r j e =
      let key = new_key s.slots in
      let slots' = Dict.insert key r s.slots in
      let name = (get_base r).name in
      ground (
        arith,
        fresh s.slots,
        Dict.get-insert key key r s.slots,
        Dict.get-insert key j r s.slots,
        Dict.get-remove key j slots',
        Dict.get-remove name name (Dict.insert (probe_name name) key s.name_index),
        beq_refl name,
      )
