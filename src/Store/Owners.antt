-- ===== src/Store/Owners.antt =====
-- The indexes of the store by client and by handler
-- (src/vrm/reservation/reservation_store.rs).
use vrm_rust.Base.{
  ℕ, String, ◌≡◌, refl, ap, ◌∙◌, ◌∷◌, Bool, false, Option, none, some, List, [], nat_eq, string_eq,
  arith, ◌==◌, ◌||◌, ◌&&◌, unwrap_or,
}
use text.Mathlib.TextEquality.{eq_iff}
use vrm_rust.Base.Dict
use vrm_rust.Base.HashSet
use vrm_rust.Base.Dict.{Dict}
use vrm_rust.Reservation.Kinds.{Reservation, get_base}
use vrm_rust.Store.{Store, add, index_key, index_handler}
use vrm_rust.Store.Read.{get_client_reservations, get_managed_reservations}
use vrm_rust.Store.Lifetime.{take_out, take_out_all, remove, cascade_delete_virtual_reservations}

-- The keys under `n` after the key was put under `k`.
contains-index_key :
    (k n : String) (key j : ℕ) (m : Dict String (List ℕ))
    → HashSet.contains j (unwrap_or (Dict.get n (index_key k key m)) [])
      ≡ ((k == n && key == j) || HashSet.contains j (unwrap_or (Dict.get n m) []))
unfolding index_key
contains-index_key k n key j m = ground (
  arith,
  eq_iff k n,
  Dict.get-insert k n (HashSet.insert key (unwrap_or (Dict.get k m) [])).0 m,
  HashSet.contains-insert key j (unwrap_or (Dict.get k m) []),
)

abbrev pub is_handled_by : Option String → String → Bool
is_handled_by none n = false
is_handled_by (some h) n = h == n

module _ (new_key : Dict ℕ Reservation → ℕ) where
  -- After a reservation enters the store, the reservations of its client are those from before and
  -- the new one, and those of every other client are as before.
  pub get_client_reservations-add :
      (s : Store) (r : Reservation) (client : String) (j : ℕ)
      → HashSet.contains j (get_client_reservations (add new_key s r).0 client) ≡ (
          ((get_base r).client_id == client && (add new_key s r).1 == j)
          || HashSet.contains j (get_client_reservations s client))
  unfolding add get_client_reservations
  get_client_reservations-add s r client j =
      contains-index_key (get_base r).client_id client (new_key s.slots) j s.client_index

  index_handler_lem :
      (o : Option String) (component : String) (key j : ℕ) (m : Dict String (List ℕ))
      → HashSet.contains j (unwrap_or (Dict.get component (index_handler o key m)) []) ≡ (
          (is_handled_by o component && key == j)
          || HashSet.contains j (unwrap_or (Dict.get component m) []))
  index_handler_lem none component key j m = refl
  index_handler_lem (some h) component key j m = contains-index_key h component key j m

  -- After a reservation enters the store, the reservations that its handler manages are those from
  -- before and the new one, and those of every other component are as before, as are all if it has
  -- no handler.
  get_managed_reservations-add :
      (s : Store) (r : Reservation) (component : String) (j : ℕ)
      → HashSet.contains j (get_managed_reservations (add new_key s r).0 component) ≡ (
          (is_handled_by (get_base r).handler_id component && (add new_key s r).1 == j)
          || HashSet.contains j (get_managed_reservations s component))
  unfolding add get_managed_reservations
  get_managed_reservations-add s r component j =
      index_handler_lem (get_base r).handler_id component (new_key s.slots) j s.handler_index

take_out-owners :
    (s : Store) (id : ℕ)
    → ((take_out s id).client_index ≡ s.client_index)
      × ((take_out s id).handler_index ≡ s.handler_index)
unfolding take_out
take_out-owners s id = ground arith

take_out_all-owners :
    (s : Store) (ids : List ℕ)
    → ((take_out_all s ids).client_index ≡ s.client_index)
      × ((take_out_all s ids).handler_index ≡ s.handler_index)
unfolding take_out_all
take_out_all-owners s [] = (refl, refl)
take_out_all-owners s (id ∷ ids) =
    let (a, b) = take_out-owners s id in
    let (a', b') = take_out_all-owners (take_out s id) ids in (a' ∙ a, b' ∙ b)

-- The removal of a reservation leaves the lists of reservations by client and by handler as they
-- are: its key stays in them.
pub get_client_reservations-remove :
    (s : Store) (id : ℕ) (client component : String)
    → (get_client_reservations (remove s id) client ≡ get_client_reservations s client)
      × (get_managed_reservations (remove s id) component ≡ get_managed_reservations s component)
unfolding remove cascade_delete_virtual_reservations get_client_reservations
    get_managed_reservations
get_client_reservations-remove s id client component =
    let ids = unwrap_or (Dict.get id s.original_to_virtual) [] in
    let (a, b) = take_out-owners (cascade_delete_virtual_reservations s id) id in
    let (a', b') = take_out_all-owners s ids in
    (
      ap (λ m. unwrap_or (Dict.get client m) []) (a ∙ a'),
      ap (λ m. unwrap_or (Dict.get component m) []) (b ∙ b'),
    )
