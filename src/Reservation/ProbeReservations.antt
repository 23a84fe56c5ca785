-- ===== src/Reservation/ProbeReservations.antt =====
-- The candidates that a probe request finds (src/vrm/reservation/probe_reservations.rs). The
-- shared store is passed beside the object.
pub mod Best
use Prim.Native.String.{◌++◌ as str_append}
use vrm_rust.Base.{
  ℕ, suc, ◌+◌, String, Bool, true, false, Option, none, some, List, [], ◌∷◌, nat_eq, string_eq,
  if◌then◌else◌, ◌==◌, ◌>>=◌, ltb, nat_beq, is_some, map_option, not,
}
use vrm_rust.Base.Int.{ℤ, ltb_ℤ}
use vrm_rust.Base.Dict
use vrm_rust.Base.Dict.{Dict}
use vrm_rust.Base.Decimal.{show_usize}
use vrm_rust.Reservation.Fields.{ReservationBase}
use vrm_rust.Reservation.Kinds.{Reservation, get_base}
use vrm_rust.Store.{Store}
use vrm_rust.Store.Read.{get}
use vrm_rust.Store.Update

pub data ProbeReservationComparator : Type 0 where
  eft_reservation_compare est_reservation_compare : ProbeReservationComparator

-- What a comparator compares.
abbrev pub compare_key : ProbeReservationComparator → Reservation → ℤ
compare_key eft_reservation_compare r = (get_base r).assigned_end
compare_key est_reservation_compare r = (get_base r).assigned_start

-- `compare(a, b) == Ordering::Greater`.
unfoldable pub is_greater : ProbeReservationComparator → Reservation → Reservation → Bool
is_greater c a b = ltb_ℤ (compare_key c b) (compare_key c a)

pub record ProbeReservations : Type 0 where
  pub original_reservation_id : ℕ
  pub local_reservation_store : Dict String Reservation
  pub original_reservation : Reservation
  pub reservation_idx : ℕ
  pub probe_meta_data : Dict String (String × Option String)

-- `none` is the panic at an unknown reservation.
unfoldable pub new : Store → ℕ → Option ProbeReservations
unfolding get
new s id =
    map_option
      (λ r. record {
        original_reservation_id = id;
        local_reservation_store = [];
        original_reservation = r;
        reservation_idx = 0;
        probe_meta_data = [];
      })
      (get s id)

-- `format!("{}-{}", reservation.get_name(), self.reservation_idx)`.
unfoldable pub probe_id : Reservation → ℕ → String
unfolding get_base
probe_id r idx = str_append (get_base r).name (str_append "-" (show_usize idx))

-- The object, and whether the result is `Ok`. A duplicate is overwritten.
unfoldable pub add_reservation : ProbeReservations → Reservation → ProbeReservations × Bool
unfolding probe_id
add_reservation p r =
    let id = probe_id r p.reservation_idx in
    let stored = Dict.insert id r p.local_reservation_store in
    if is_some (Dict.get id p.local_reservation_store)
    then (record p { local_reservation_store = stored }, false)
    else (
      record p { local_reservation_store = stored; reservation_idx = p.reservation_idx + 1 },
      true,
    )

move_meta :
    Option (String × Option String)
    → String
    → Dict String (String × Option String)
    → Dict String (String × Option String)
move_meta none id m = m
move_meta (some meta) id m = Dict.insert id meta m

-- The loop of `add_probe_reservations` over the drained candidates of the other object: the
-- candidate keeps its old id, its metadata gets a new one.
drain_into :
    ProbeReservations
    → Dict String (String × Option String)
    → Dict String Reservation
    → ProbeReservations
unfolding probe_id move_meta
drain_into p metas [] = p
drain_into p metas ((old_id, r) ∷ rest) =
    drain_into
      (record p {
        local_reservation_store = Dict.insert old_id r p.local_reservation_store;
        probe_meta_data =
            move_meta (Dict.get old_id metas) (probe_id r p.reservation_idx) p.probe_meta_data;
        reservation_idx = p.reservation_idx + 1;
      })
      (Dict.remove old_id metas) rest

unfoldable pub add_probe_reservations : ProbeReservations → ProbeReservations → ProbeReservations
unfolding drain_into
add_probe_reservations p other =
    if p.original_reservation_id == other.original_reservation_id
    then drain_into p other.probe_meta_data other.local_reservation_store
    else p

-- The five updates that `demote`, `prompt_best` and `only_promote_best` make of the store.
unfoldable pub promote : Store → ℕ → ReservationBase → Store
promote s id b =
    let s1 = Update.set_booking_interval_start s id b.booking_interval_start in
    let s2 = Update.set_booking_interval_end s1 id b.booking_interval_end in
    let s3 = Update.set_assigned_start s2 id b.assigned_start in
    let s4 = Update.set_assigned_end s3 id b.assigned_end in Update.update_state s4 id b.state

unfoldable pub demote : Store → ProbeReservations → Store
unfolding get_base promote
demote s p = promote s p.original_reservation_id (get_base p.original_reservation)

-- One round of the search for the best candidate.
unfoldable pub better :
    ProbeReservationComparator → String × Reservation → String × Reservation → String × Reservation
unfolding is_greater
better c best x = if is_greater c best.1 x.1 then x else best

-- The loop over the candidates after the first.
unfoldable pub best_from :
    ProbeReservationComparator
    → String × Reservation
    → Dict String Reservation
    → String × Reservation
unfolding better
best_from c best [] = best
best_from c best (x ∷ rest) = best_from c (better c best x) rest

best_entry : ProbeReservationComparator → Dict String Reservation → Option (String × Reservation)
unfolding best_from
best_entry c [] = none
best_entry c (x ∷ rest) = some (best_from c x rest)

unfoldable pub get_best_probe_reservation_id :
    ProbeReservations → ℕ → ProbeReservationComparator → Option String
unfolding best_entry
get_best_probe_reservation_id p id c =
    if nat_beq id p.original_reservation_id
    then map_option (λ e. e.0) (best_entry c p.local_reservation_store)
    else none

unfoldable pub promote_found :
    Store → ProbeReservations → ℕ → String → Option Reservation → Store × ProbeReservations × Bool
unfolding get_base promote
promote_found s p id best_id none = (s, p, false)
promote_found s p id best_id (some r) = (
  promote s id (get_base r),
  record p { local_reservation_store = Dict.remove best_id p.local_reservation_store },
  true,
)

unfoldable pub promote_best :
    Store → ProbeReservations → ℕ → Option String → Store × ProbeReservations × Bool
unfolding promote_found
promote_best s p id none = (s, p, false)
promote_best s p id (some best_id) =
    promote_found s p id best_id (Dict.get best_id p.local_reservation_store)

-- The store and the object after the call, and whether a candidate was promoted.
unfoldable pub only_promote_best :
    Store → ProbeReservations → ℕ → ProbeReservationComparator → Store × ProbeReservations × Bool
unfolding get_best_probe_reservation_id promote_best
only_promote_best s p id c = promote_best s p id (get_best_probe_reservation_id p id c)

promote_with :
    Store
    → ℕ
    → Option Reservation
    → Option (String × Option String)
    → Store × Option (String × Option String)
unfolding get_base promote
promote_with s id none meta = (s, none)
promote_with s id (some r) none = (s, none)
promote_with s id (some r) (some meta) = (promote s id (get_base r), some meta)

-- The best candidate leaves the object also when its metadata is missing.
unfoldable pub prompt_best :
    Store
    → ProbeReservations
    → ℕ
    → ProbeReservationComparator
    → Store × ProbeReservations × Option (String × Option String)
unfolding get_best_probe_reservation_id promote_with
prompt_best s p id c = elim (get_best_probe_reservation_id p id c) [
  | none ↦ (s, p, none)
  | some best_id ↦
      let (s', result) =
        promote_with s id (Dict.get best_id p.local_reservation_store)
          (Dict.get best_id p.probe_meta_data) in
      (
        s',
        record p {
          local_reservation_store = Dict.remove best_id p.local_reservation_store;
          probe_meta_data = Dict.remove best_id p.probe_meta_data;
        },
        result,
      )
]

tag_all :
    Dict String Reservation
    → String × Option String
    → Dict String (String × Option String)
    → Dict String (String × Option String)
tag_all [] meta m = m
tag_all ((id, r) ∷ rest) meta m = tag_all rest meta (Dict.insert id meta m)

unfoldable pub add_probe_meta_data : ProbeReservations → String → Option String → ProbeReservations
unfolding tag_all
add_probe_meta_data p component_id shadow_id = record p {
  probe_meta_data = tag_all p.local_reservation_store (component_id, shadow_id) p.probe_meta_data;
}

copy_meta : Option (String × Option String) → ProbeReservations → ProbeReservations
unfolding add_probe_meta_data
copy_meta none p = p
copy_meta (some (component_id, shadow_id)) p = add_probe_meta_data p component_id shadow_id

copy_best : ProbeReservations → ProbeReservations → Option String → ProbeReservations
unfolding add_reservation copy_meta
copy_best p fresh none = fresh
copy_best p fresh (some best_id) = elim (Dict.get best_id p.local_reservation_store) [
  | none ↦ fresh
  | some r ↦ copy_meta (Dict.get best_id p.probe_meta_data) (add_reservation fresh r).0
]

-- A new object with the best candidate alone. `none` is the panic of `new`: the source never
-- returns `None`.
unfoldable pub create_new_probe_reservation_with_best_probe :
    Store → ProbeReservations → ℕ → ProbeReservationComparator → Option ProbeReservations
unfolding new copy_best get_best_probe_reservation_id
create_new_probe_reservation_with_best_probe s p id c = do
  fresh ← new s id
  some (copy_best p fresh (get_best_probe_reservation_id p id c))
