-- ===== src/Schedule/Sound/Insertion.antt =====
-- What one insertion into a slot of a node's schedule does to all slots
-- (src/vrm/schedule/slotted_schedule/strategy/node/node_strategy.rs).
use vrm_rust.Base.{
  ℕ, ◌≡◌, refl, sym, ap, ◌∙◌, subst, ◌⊎◌, inl, inr, Bool, true, false, Option, none, some, arith,
  Bool-cases, nat_eq, if◌then◌else◌,
}
use vrm_rust.Base.HashSet
use vrm_rust.Base.HashSet.{contains}
use vrm_rust.Base.Int.{ℤ, pos, ◌≤ℤ◌, ◌+ℤ◌, +ℤ_parts, ltb_ℤ, eqb_ℤ, eqb_ℤ_iff}
use vrm_rust.Base.I64.{IsSmall, +i-small}
use vrm_rust.Schedule.Slot
use vrm_rust.Schedule.Slot.{Slot}
use vrm_rust.Schedule.Slot.Accounting.{IsValid}
use vrm_rust.Schedule.Context.{Context, get_slot, put_slot}
use vrm_rust.Schedule.Context.Ring.{IsWindow, InWindow, get_slot-put_slot, put_slot-IsWindow}
use vrm_rust.Schedule.NodeStrategy.{NodeStrategy, insert_in_slot, insert_reservation_into_slot}
use vrm_rust.Schedule.Sound.{get_slot-IsValid}
use vrm_rust.Schedule.Sound.Kept.{IsKept}
use vrm_rust.Store.Read.{get_reserved_capacity}

-- The slot has room for the capacity, or it holds the reservation already.
abbrev pub IsOpen : ℕ → ℤ → Slot → Type 0
IsOpen id capacity s = (s.load +ℤ capacity ≤ℤ s.capacity) ⊎ (contains id s.reservation_ids ≡ true)

abbrev pub IsHeld : ℕ → Slot → Type 0
IsHeld id s = contains id s.reservation_ids ≡ true

-- An insertion into an open slot leaves the reservation in it.
insert_reservation-IsHeld :
    (taken : ℕ → ℤ) (s : Slot) (id : ℕ) (capacity : ℤ)
    → IsValid taken s
    → IsSmall capacity
    → IsOpen id capacity s
    → IsHeld id (Slot.insert_reservation s capacity id).0
unfolding Slot.insert_reservation HashSet.insert contains
insert_reservation-IsHeld taken s id capacity v small ready = ground (
  arith,
  v.small,
  v.within,
  v.load_nonneg,
  +i-small s.load capacity,
  +ℤ_parts s.load capacity,
  nat_eq.same_iff id id,
)

pub chosen : {A : Type 0} {b : Bool} → b ≡ true → (x y : A) → (if b then x else y) ≡ x
chosen {b = true} e x y = refl
chosen {b = false} e x y = absurd (ground arith)

pub passed : {A : Type 0} {b : Bool} → b ≡ false → (x y : A) → (if b then x else y) ≡ y
passed {b = false} e x y = refl
passed {b = true} e x y = absurd (ground arith)

pub not_negative : (z : ℤ) → pos 0 ≤ℤ z → ltb_ℤ z (pos 0) ≡ false
not_negative z h = ground arith

-- There is a slot at the index, and the predicate holds of it.
abbrev pub At : Context NodeStrategy → (Slot → Type 0) → ℤ → Type 0
At c P i = (s : Slot) × (get_slot c i ≡ some s) × P s

module _ (id : ℕ) where
  -- The insertion into the slot at one index.
  unfoldable pub inserted : Context NodeStrategy → ℤ → Context NodeStrategy
  inserted c i = insert_reservation_into_slot c (get_reserved_capacity c.reservation_store id) i id

  -- The slot can take the reservation, by the capacity that the store knows.
  abbrev pub Ready : Context NodeStrategy → ℤ → Type 0
  Ready c i = InWindow c i × At c (IsOpen id (get_reserved_capacity c.reservation_store id)) i

  pub inserted-shape :
      (c : Context NodeStrategy) (i : ℤ) (o : Option Slot) (capacity : ℤ)
      → let d = insert_in_slot c capacity i id o in
        (IsWindow c → IsWindow d)
        × ((j : ℤ) → InWindow c j → InWindow d j)
        × (d.reservation_store ≡ c.reservation_store)
        × (d.active_reservations ≡ c.active_reservations)
  unfolding insert_in_slot put_slot
  inserted-shape c i none capacity = (λ w. w, λ j h. h, refl, refl)
  inserted-shape c i (some s) capacity =
      (put_slot-IsWindow c i (Slot.insert_reservation s capacity id).0, λ j h. h, refl, refl)

  get_slot-inserted :
      (c : Context NodeStrategy) (i j : ℤ) (s : Slot)
      → IsWindow c
      → InWindow c i
      → get_slot c i ≡ some s
      → get_slot (inserted c i) j ≡ (
          if eqb_ℤ i j
          then some (Slot.insert_reservation s (get_reserved_capacity c.reservation_store id) id).0
          else get_slot c j)
  unfolding inserted insert_reservation_into_slot insert_in_slot
  get_slot-inserted c i j s w h e =
      let capacity = get_reserved_capacity c.reservation_store id in
      ap (λ o. get_slot (insert_in_slot c capacity i id o) j) e
      ∙ get_slot-put_slot c i j (Slot.insert_reservation s capacity id).0 w h

  -- After the insertion the slot at the index holds the reservation, and every other is as before.
  pub At-inserted :
      (c : Context NodeStrategy) (i j : ℤ) (P : Slot → Type 0)
      → IsWindow c
      → IsKept c
      → Ready c i
      → At c P j
      → ((s : Slot) → IsHeld id s → P s)
      → At (inserted c i) P j
  At-inserted c i j P w k (h, (s, e, ready)) (t, f, p) held =
      let taken = get_reserved_capacity c.reservation_store in
      let s' = (Slot.insert_reservation s (taken id) id).0 in
      let holds =
        insert_reservation-IsHeld taken s id (taken id) (get_slot-IsValid c i s k.sound e)
          (k.nonneg id).1 ready in
      elim (Bool-cases (eqb_ℤ i j)) [
        | inl same ↦ (
          s',
          get_slot-inserted c i j s w h e ∙ chosen same (some s') (get_slot c j),
          held s' holds,
        )
        | inr other ↦
            (t, get_slot-inserted c i j s w h e ∙ passed other (some s') (get_slot c j) ∙ f, p)
      ]

  pub inserted-IsHeld :
      (c : Context NodeStrategy) (i : ℤ)
      → IsWindow c
      → IsKept c
      → Ready c i
      → At (inserted c i) (IsHeld id) i
  inserted-IsHeld c i w k (h, (s, e, ready)) =
      let taken = get_reserved_capacity c.reservation_store in
      let s' = (Slot.insert_reservation s (taken id) id).0 in
      (
        s',
        get_slot-inserted c i i s w h e ∙ chosen ((eqb_ℤ_iff i i).1 refl) (some s') (get_slot c i),
        insert_reservation-IsHeld taken s id (taken id) (get_slot-IsValid c i s k.sound e)
            (k.nonneg id).1 ready,
      )

  pub Ready-inserted :
      (c : Context NodeStrategy) (i : ℤ)
      → IsWindow c
      → IsKept c
      → Ready c i
      → (j : ℤ) → Ready c j
      → Ready (inserted c i) j
  unfolding inserted insert_reservation_into_slot
  Ready-inserted c i w k r j (h, q) =
      let taken = get_reserved_capacity c.reservation_store in
      let shape = inserted-shape c i (get_slot c i) (taken id) in
      (
        shape.1 j h,
        subst (λ st. At (inserted c i) (IsOpen id (get_reserved_capacity st id)) j) (sym shape.2)
            (At-inserted c i j (IsOpen id (taken id)) w k r q (λ s x. inr x)),
      )

  pub inserted-IsWindow : (c : Context NodeStrategy) (i : ℤ) → IsWindow c → IsWindow (inserted c i)
  unfolding inserted insert_reservation_into_slot
  inserted-IsWindow c i w =
      (inserted-shape c i (get_slot c i) (get_reserved_capacity c.reservation_store id)).0 w
