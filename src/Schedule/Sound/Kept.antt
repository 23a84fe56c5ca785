-- ===== src/Schedule/Sound/Kept.antt =====
-- The operations of a node's schedule never overbook a slot
-- (src/vrm/schedule/slotted_schedule/schedule_base.rs and slotted_schedule_context.rs).
use mathlib.Core.Path.{fun_ext}
use vrm_rust.Base.{
  ℕ, ◌≡◌, refl, sym, subst, Bool, true, false, Option, none, some, List, [], ◌∷◌, arith, inl, inr,
  Bool-cases, bind-some, nat_eq, All, if◌then◌else◌,
}
use vrm_rust.Base.Floats.{F64, Floats}
use vrm_rust.Base.Int.{ℤ, pos, ltb_ℤ}
use vrm_rust.Base.Dict
use vrm_rust.Schedule.Slot
use vrm_rust.Schedule.Slot.{Slot}
use vrm_rust.Schedule.Slot.Accounting.{
  IsValid, Nonneg, insert_reservation-IsValid, delete_reservation-IsValid,
}
use vrm_rust.Schedule.Context.{Context, get_slot, put_slot}
use vrm_rust.Schedule.NodeStrategy.{
  NodeStrategy, node_strategy, insert_in_slot, insert_reservation_into_slot,
}
use vrm_rust.Schedule.Delete.{delete_in, delete_reservation_in_slot}
use vrm_rust.Schedule.Operations.{
  fill_slots, activate, free_slots, reserve_without_check, early_stop, set_state, booked,
}
use vrm_rust.Schedule.Sound.{IsSound, get_slot-IsValid, put_slot-IsSound}
use vrm_rust.Reservation.Fields.{ReservationState, rejected, reserve_answer}
use vrm_rust.Reservation.ActiveReservations
use vrm_rust.Reservation.Trait
use vrm_rust.Reservation.Kinds.{map_base, get_base}
use vrm_rust.Store.{Store}
use vrm_rust.Store.Read
use vrm_rust.Store.Read.{get_reserved_capacity, get_assigned_start, get_assigned_end}
use vrm_rust.Store.Update.{update_state}

-- A change of the state leaves every capacity.
get_reserved_capacity-update_state :
    (s : Store) (id j : ℕ) (x : ReservationState)
    → get_reserved_capacity (update_state s id x) j ≡ get_reserved_capacity s j
unfolding update_state get_reserved_capacity Read.get Trait.set_state get_base
get_reserved_capacity-update_state s id j x =
    ground (arith, Dict.get-modify id j (map_base (λ b. Trait.set_state b x)) s.slots)

pub capacities-update_state :
    (s : Store) (id : ℕ) (x : ReservationState)
    → get_reserved_capacity (update_state s id x) ≡ get_reserved_capacity s
capacities-update_state s id x = fun_ext (λ j. get_reserved_capacity-update_state s id j x)

set_state-IsSound :
    {St : Type 0} (c : Context St) (id : ℕ) (x : ReservationState)
    → IsSound c
    → IsSound (set_state c id x)
unfolding set_state IsSound
set_state-IsSound c id x h =
    subst (λ taken. All (IsValid taken) c.slots)
      (sym (capacities-update_state c.reservation_store id x)) h

put_slot-store :
    {St : Type 0} (c : Context St) (i : ℤ) (s : Slot)
    → (put_slot c i s).reservation_store ≡ c.reservation_store
unfolding put_slot
put_slot-store c i s = refl

-- No reservation of the store has a negative capacity.
abbrev pub IsNonneg : {St : Type 0} → Context St → Type 0
IsNonneg c = Nonneg (get_reserved_capacity c.reservation_store)

insert_in_slot-IsSound :
    (c : Context NodeStrategy) (i : ℤ) (id : ℕ) (o : Option Slot)
    → IsNonneg c
    → IsSound c
    → get_slot c i ≡ o
    → IsSound (insert_in_slot c (get_reserved_capacity c.reservation_store id) i id o)
unfolding insert_in_slot
insert_in_slot-IsSound c i id none n h e = h
insert_in_slot-IsSound c i id (some s) n h e = put_slot-IsSound c i _ h (
    insert_reservation-IsValid (get_reserved_capacity c.reservation_store) s id n
      (get_slot-IsValid c i s h e))

insert_in_slot-store :
    (c : Context NodeStrategy) (r i : ℤ) (id : ℕ) (o : Option Slot)
    → (insert_in_slot c r i id o).reservation_store ≡ c.reservation_store
unfolding insert_in_slot put_slot
insert_in_slot-store c r i id none = refl
insert_in_slot-store c r i id (some s) = refl

-- What every operation of a node's schedule keeps.
pub record IsKept (c : Context NodeStrategy) : Type 0 where
  pub nonneg : IsNonneg c
  pub sound : IsSound c

same_store :
    (c d : Context NodeStrategy)
    → IsNonneg c
    → IsSound d
    → d.reservation_store ≡ c.reservation_store
    → IsKept d
same_store c d n h e = record {
  nonneg = subst (λ s. Nonneg (get_reserved_capacity s)) (sym e) n;
  sound = h;
}

pub insert_reservation_into_slot-IsKept :
    (c : Context NodeStrategy) (i : ℤ) (id : ℕ)
    → IsKept c
    → IsKept (insert_reservation_into_slot c (get_reserved_capacity c.reservation_store id) i id)
unfolding insert_reservation_into_slot
insert_reservation_into_slot-IsKept c i id k =
    same_store c _ k.nonneg (insert_in_slot-IsSound c i id _ k.nonneg k.sound refl)
      (insert_in_slot-store c _ i id (get_slot c i))

pub set_state-IsKept :
    (c : Context NodeStrategy) (id : ℕ) (x : ReservationState)
    → IsKept c
    → IsKept (set_state c id x)
unfolding set_state
set_state-IsKept c id x k = record {
  nonneg = subst Nonneg (sym (capacities-update_state c.reservation_store id x)) k.nonneg;
  sound = set_state-IsSound c id x k.sound;
}

pub delete_in-IsKept :
    (c : Context NodeStrategy) (id : ℕ) (i : ℤ) (o : Option Slot)
    → IsKept c
    → get_slot c i ≡ o
    → IsKept (delete_in c id (get_reserved_capacity c.reservation_store id) i o).0
      × ((delete_in c id (get_reserved_capacity c.reservation_store id) i o).0.reservation_store
          ≡ c.reservation_store)
unfolding delete_in
delete_in-IsKept c id i none k e = (k, refl)
delete_in-IsKept c id i (some s) k e =
    let taken = get_reserved_capacity c.reservation_store in
    let d = put_slot c i (Slot.delete_reservation s id (taken id)).0 in
    let same = put_slot-store c i (Slot.delete_reservation s id (taken id)).0 in
    (
      same_store c d k.nonneg
          (put_slot-IsSound c i _ k.sound
            (delete_reservation-IsValid taken s id k.nonneg (get_slot-IsValid c i s k.sound e)))
          same,
      same,
    )

free_slots-IsKept :
    (c : Context NodeStrategy) (id : ℕ) (slots : List ℤ) → IsKept c → IsKept (free_slots c id slots)
unfolding free_slots delete_reservation_in_slot
free_slots-IsKept c id [] k = k
free_slots-IsKept c id (i ∷ rest) k =
    free_slots-IsKept
      (delete_in c id (get_reserved_capacity c.reservation_store id) i (get_slot c i)).0 id rest
      (delete_in-IsKept c id i _ k refl).0

pub early_stop-IsKept : (c : Context NodeStrategy) (id : ℕ) → IsKept c → IsKept (early_stop c id)
unfolding early_stop
early_stop-IsKept c id k =
    elim (Bool-cases (ltb_ℤ (get_reserved_capacity c.reservation_store id) (pos 0))) [
      | inl negative ↦ rw negative (set_state-IsKept c id rejected k)
      | inr right ↦ rw right k
    ]

with_active : Context NodeStrategy → List ℕ → Context NodeStrategy
with_active c ids = record c { active_reservations = ids }

with_active-IsKept :
    (c : Context NodeStrategy) (ids : List ℕ) → IsKept c → IsKept (with_active c ids)
unfolding with_active IsSound
with_active-IsKept c ids k = record { nonneg = k.nonneg; sound = k.sound }

pub choose-IsKept :
    (b : Bool) (c d : Context NodeStrategy) → IsKept c → IsKept d → IsKept (if b then c else d)
choose-IsKept true c d k l = k
choose-IsKept false c d k l = l

activate-IsKept :
    (c : Context NodeStrategy) (id : ℕ) (slots : List ℤ) → IsKept c → IsKept (activate c id slots)
unfolding activate with_active
activate-IsKept c id slots k =
    let r = ActiveReservations.insert c.active_reservations id in
    let k' = with_active-IsKept c r.0 k in
    set_state-IsKept _ id reserve_answer (
      choose-IsKept r.1 (with_active c r.0) (free_slots (with_active c r.0) id slots) k'
        (free_slots-IsKept (with_active c r.0) id slots k'))

module _ (fl : Floats) (fragmentation : Context NodeStrategy → Bool → ℤ → ℤ → F64) where
  fill_slots-IsKept :
      (c c' : Context NodeStrategy) (id : ℕ) (slots : List ℤ)
      → IsKept c
      → fill_slots (node_strategy fl fragmentation) c id slots ≡ some c'
      → IsKept c'
  unfolding fill_slots node_strategy
  fill_slots-IsKept c c' id [] k e = let same : c ≡ c' = cc in subst IsKept same k
  fill_slots-IsKept c c' id (i ∷ rest) k e =
      fill_slots-IsKept
        (insert_reservation_into_slot c (get_reserved_capacity c.reservation_store id) i id) c' id
        rest (insert_reservation_into_slot-IsKept c i id k) e

  -- A reservation without a check overbooks no slot.
  pub reserve_without_check-IsKept :
      (c c' : Context NodeStrategy) (id : ℕ)
      → IsKept c
      → reserve_without_check (node_strategy fl fragmentation) c id ≡ some c'
      → IsKept c'
  unfolding reserve_without_check
  reserve_without_check-IsKept c c' id k e =
      let (start, e1, f1) = bind-some (get_assigned_start c.reservation_store id) _ c' e in
      let (end_time, e2, f2) = bind-some (get_assigned_end c.reservation_store id) _ c' f1 in
      let c1 = early_stop c id in
      let slots = booked c1 start end_time in
      let (filled, e3, f3) =
        bind-some (fill_slots (node_strategy fl fragmentation) c1 id slots) _ c' f2 in
      let same : activate filled id slots ≡ c' = cc in
      subst IsKept same (
        activate-IsKept filled id slots
          (fill_slots-IsKept c1 filled id slots (early_stop-IsKept c id k) e3))
