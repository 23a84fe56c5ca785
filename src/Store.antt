-- ===== src/Store.antt =====
-- The reservation store (src/vrm/reservation/reservation_store.rs): the data and the ways to make
-- it. The lock is held for the whole of each call, so a call is one step on `Store`.
pub mod Listener
pub mod Read
pub mod Update
pub mod Lifetime
pub mod Index
pub mod Owners
use vrm_rust.Base.{ℕ, String, Option, none, some, List, [], ◌∷◌, ◌++◌, nat_eq, string_eq, unwrap_or}
use vrm_rust.Base.Dict
use vrm_rust.Base.Dict.{Dict}
use vrm_rust.Base.HashSet
use vrm_rust.Reservation.Kinds.{Reservation, get_base}
use Listener.{VrmStateListener}

-- `StoreInner`. A key of the slot map is a number; removed keys are not given again.
pub record Store : Type 0 where
  pub slots : Dict ℕ Reservation
  pub name_index : Dict String ℕ
  pub client_index : Dict String (List ℕ)
  pub handler_index : Dict String (List ℕ)
  pub original_to_virtual : Dict ℕ (List ℕ)
  pub listeners : List VrmStateListener

unfoldable pub new : Store
new = record {
  slots = [];
  name_index = [];
  client_index = [];
  handler_index = [];
  original_to_virtual = [];
  listeners = [];
}

unfoldable pub add_listener : Store → VrmStateListener → Store
add_listener s listener = record s { listeners = s.listeners ++ (listener ∷ []) }

-- `entry(k).or_default().insert(key)` of an index of key sets.
unfoldable pub index_key : String → ℕ → Dict String (List ℕ) → Dict String (List ℕ)
index_key k key index = Dict.insert k (HashSet.insert key (unwrap_or (Dict.get k index) [])).0 index

abbrev pub index_handler : Option String → ℕ → Dict String (List ℕ) → Dict String (List ℕ)
index_handler none key index = index
index_handler (some h) key index = index_key h key index

-- `SlotMap::insert` picks the key of the new entry, in a way that the program does not see.
module _ (new_key : Dict ℕ Reservation → ℕ) where
  unfoldable pub add : Store → Reservation → Store × ℕ
  unfolding index_key
  add s reservation =
      let base = get_base reservation in
      let key = new_key s.slots in
      (
        record s {
          slots = Dict.insert key reservation s.slots;
          name_index = Dict.insert base.name key s.name_index;
          client_index = index_key base.client_id key s.client_index;
          handler_index = index_handler base.handler_id key s.handler_index;
        },
        key,
      )
