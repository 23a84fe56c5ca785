-- ===== src/Schedule/Sound/Moves.antt =====
-- The update of the window, the removal and the search leave no slot overbooked either, so a
-- whole reservation request does not (src/vrm/schedule/slotted_schedule).
use mathlib.Core.Path.{fun_ext}
use vrm_rust.Base.{
  ℕ, ◌≡◌, refl, sym, ap, ◌∙◌, subst, String, Bool, true, false, Option, none, some, List, [], ◌∷◌,
  arith, inl, inr, Bool-cases, bind-some, nat_eq, string_eq, All, if◌then◌else◌, map_option,
  unwrap_or,
}
use vrm_rust.Base.Floats.{F64, Floats}
use vrm_rust.Base.Int.{ℤ, pos, range}
use vrm_rust.Base.Dict
use vrm_rust.Base.HashSet
use vrm_rust.Schedule.Slot.{Slot}
use vrm_rust.Schedule.Slot.Accounting.{IsValid, Nonneg, reset-IsValid}
use vrm_rust.Schedule.LoadBuffer
use vrm_rust.Schedule.Context.{Context, get_slot, put_slot, get_slot_load}
use vrm_rust.Schedule.NodeStrategy.{NodeStrategy, node_strategy}
use vrm_rust.Schedule.Update.{
  update, advance, delete_all, reset_slot, retire, retire_all, move_window,
}
use vrm_rust.Schedule.Fit.{calculate_schedule}
use vrm_rust.Schedule.Operations.{
  set_state, early_stop, reserve, reserve_best, reserve_promoted, reserve_without_check,
}
use vrm_rust.Schedule.Sound.{IsSound, get_slot-IsValid, put_slot-IsSound}
use vrm_rust.Schedule.Sound.Kept.{
  IsKept, set_state-IsKept, early_stop-IsKept, capacities-update_state,
  reserve_without_check-IsKept,
}
use vrm_rust.Reservation.ActiveReservations
use vrm_rust.Reservation.Fields.{ReservationBase, deleted, rejected}
use vrm_rust.Reservation.Kinds.{Reservation, map_base, get_base}
use vrm_rust.Reservation.ProbeReservations.{
  ProbeReservations, promote, promote_found, promote_best, only_promote_best,
  get_best_probe_reservation_id, est_reservation_compare,
}
use vrm_rust.Reservation.ProbeReservations.Best.{get-promote, take_over}
use vrm_rust.Store.{Store}
use vrm_rust.Store.Read
use vrm_rust.Store.Read.{get_reserved_capacity}

-- A schedule with the same slots and the same capacities in its store.
pub moved-IsKept :
    (c d : Context NodeStrategy)
    → d.slots ≡ c.slots
    → get_reserved_capacity d.reservation_store ≡ get_reserved_capacity c.reservation_store
    → IsKept c
    → IsKept d
unfolding IsSound
moved-IsKept c d slots taken k = record {
  nonneg = subst Nonneg (sym taken) k.nonneg;
  sound =
      subst (λ t. All (IsValid t) d.slots) (sym taken)
        (subst (All (IsValid (get_reserved_capacity c.reservation_store))) (sym slots) k.sound);
}

pub capacities-delete_reservation :
    (s : Store) (rs : ActiveReservations.Reservations) (id : ℕ)
    → get_reserved_capacity (ActiveReservations.delete_reservation s rs id).0
      ≡ get_reserved_capacity s
unfolding ActiveReservations.delete_reservation
capacities-delete_reservation s rs id = elim (Bool-cases (HashSet.remove id rs).1) [
  | inl there ↦ rw there (capacities-update_state s id deleted)
  | inr absent ↦ rw absent
]

delete_all-IsKept : (c : Context NodeStrategy) (ids : List ℕ) → IsKept c → IsKept (delete_all c ids)
unfolding delete_all
delete_all-IsKept c [] k = k
delete_all-IsKept c (id ∷ ids) k =
    let r = ActiveReservations.delete_reservation c.reservation_store c.active_reservations id in
    let d = record c { reservation_store = r.0; active_reservations = r.1 } in
    delete_all-IsKept d ids (
      moved-IsKept c d refl
        (capacities-delete_reservation c.reservation_store c.active_reservations id) k)

reset_slot-IsKept :
    (c : Context NodeStrategy) (i : ℤ) (o : Option Slot)
    → IsKept c
    → get_slot c i ≡ o
    → IsKept (reset_slot c i o)
unfolding reset_slot put_slot
reset_slot-IsKept c i none k e = k
reset_slot-IsKept c i (some s) k e = record {
  nonneg = k.nonneg;
  sound = put_slot-IsSound c i _ k.sound (
      reset-IsValid (get_reserved_capacity c.reservation_store) s
        (get_slot-IsValid c i s k.sound e));
}

retire-IsKept : (c : Context NodeStrategy) (i : ℤ) → IsKept c → IsKept (retire c i)
unfolding retire
retire-IsKept c i k =
    let d = record c { load_buffer = LoadBuffer.add c.load_buffer (get_slot_load c i) i } in
    reset_slot-IsKept d i _ (moved-IsKept c d refl refl k) refl

retire_all-IsKept : (c : Context NodeStrategy) (is : List ℤ) → IsKept c → IsKept (retire_all c is)
unfolding retire_all
retire_all-IsKept c [] k = k
retire_all-IsKept c (i ∷ is) k = retire_all-IsKept (retire c i) is (retire-IsKept c i k)

advance-IsKept :
    (c c' : Context NodeStrategy) (i : ℤ) (o : Option (List ℕ))
    → IsKept c
    → advance c i o ≡ some c'
    → IsKept c'
unfolding advance move_window
advance-IsKept c c' i none k e = absurd (ground arith)
advance-IsKept c c' i (some ids) k e =
    let before = retire_all (delete_all c ids) (range c.start_slot_index i) in
    let same : move_window before i ≡ c' = cc in
    subst IsKept same (
      moved-IsKept before (move_window before i) refl refl (
        retire_all-IsKept (delete_all c ids) (range c.start_slot_index i)
          (delete_all-IsKept c ids k)))

-- The update of the window overbooks no slot.
pub update-IsKept : (c c' : Context NodeStrategy) → IsKept c → update c ≡ some c' → IsKept c'
unfolding update
update-IsKept c c' k e = advance-IsKept _ c' _ _ (moved-IsKept c _ refl refl k) e

capacity_of : Option Reservation → ℤ
capacity_of o = unwrap_or (map_option (λ r. (get_base r).reserved_capacity) o) (pos 0)

capacity-take_over :
    (b : ReservationBase) (same : Bool) (o : Option Reservation)
    → capacity_of (if same then map_option (map_base (take_over b)) o else o) ≡ capacity_of o
unfolding capacity_of get_base map_base
capacity-take_over b false o = refl
capacity-take_over b true none = refl
capacity-take_over b true (some (Reservation.workflow w)) = refl
capacity-take_over b true (some (Reservation.node n)) = refl
capacity-take_over b true (some (Reservation.link l)) = refl

capacity-promote :
    (s : Store) (id j : ℕ) (b : ReservationBase)
    → get_reserved_capacity (promote s id b) j ≡ get_reserved_capacity s j
unfolding get_reserved_capacity capacity_of
capacity-promote s id j b =
    ap capacity_of (get-promote s id j b) ∙ capacity-take_over b _ (Read.get s j)

capacities-promote_best :
    (s : Store) (p : ProbeReservations) (id : ℕ) (best : Option String)
    → get_reserved_capacity (promote_best s p id best).0 ≡ get_reserved_capacity s
unfolding promote_best
capacities-promote_best s p id none = refl
capacities-promote_best s p id (some best_id) = found (Dict.get best_id p.local_reservation_store)
  where
    found :
        (o : Option Reservation)
        → get_reserved_capacity (promote_found s p id best_id o).0 ≡ get_reserved_capacity s
    found none = refl
    found (some r) = fun_ext (λ j. capacity-promote s id j (get_base r))

module _ (fl : Floats) (fragmentation : Context NodeStrategy → Bool → ℤ → ℤ → F64) where
  reserve_promoted-IsKept :
      (c c' : Context NodeStrategy) (id : ℕ) (empty : Bool)
      (promotion : Store × ProbeReservations × Bool) (r : Option ℕ)
      → get_reserved_capacity promotion.0 ≡ get_reserved_capacity c.reservation_store
      → IsKept c
      → reserve_promoted (node_strategy fl fragmentation) c id empty promotion ≡ some (c', r)
      → IsKept c'
  unfolding reserve_promoted
  reserve_promoted-IsKept c c' id true promotion r t k e =
      let same : set_state c id rejected ≡ c' = cc in
      subst IsKept same (set_state-IsKept c id rejected k)
  reserve_promoted-IsKept c c' id false (store, rest, true) r t k e =
      let c1 = record c { reservation_store = store; is_frag_cache_up_to_date = false } in
      let (d, e1, f1) =
        bind-some (reserve_without_check (node_strategy fl fragmentation) c1 id) _ (c', r) e in
      let same : d ≡ c' = cc in
      subst IsKept same
        (reserve_without_check-IsKept fl fragmentation c1 d id (moved-IsKept c c1 refl t k) e1)
  reserve_promoted-IsKept c c' id false (store, rest, false) r t k e =
      let c1 = record c { reservation_store = store } in
      let same : set_state c1 id rejected ≡ c' = cc in
      subst IsKept same (set_state-IsKept c1 id rejected (moved-IsKept c c1 refl t k))

  -- A request to reserve on a node leaves every slot valid, whether it is granted or refused: if
  -- before it each slot's load is the sum of what its reservations take, within the capacity, and
  -- no reservation of the store has a negative capacity, and it does not panic, then the same
  -- holds after it.
  pub reserve-IsKept :
      (c c' : Context NodeStrategy) (id : ℕ) (r : Option ℕ)
      → IsKept c
      → reserve (node_strategy fl fragmentation) c id ≡ some (c', r)
      → IsKept c'
  unfolding reserve reserve_best only_promote_best
  reserve-IsKept c c' id r k e =
      let (c1, e1, f1) = bind-some (update (early_stop c id)) _ (c', r) e in
      let (found, e2, f2) =
        bind-some (calculate_schedule (node_strategy fl fragmentation) c1 id) _ (c', r) f1 in
      let best = get_best_probe_reservation_id found id est_reservation_compare in
      reserve_promoted-IsKept c1 c' id _ (promote_best c1.reservation_store found id best) r
        (capacities-promote_best c1.reservation_store found id best)
        (update-IsKept (early_stop c id) c1 (early_stop-IsKept c id k) e1) f2
