-- ===== src/Schedule/Slot/Accounting.antt =====
-- A slot's load is the sum of what its reservations take, and does not pass its capacity.
use vrm_rust.Base.{ℕ, ◌≡◌, refl, true, List, [], ◌∷◌, arith, nat_eq}
use vrm_rust.Base.Int.{
  ℤ, pos, ◌+ℤ◌, ◌-ℤ◌, ◌≤ℤ◌, +ℤ_parts, -ℤ_parts, eq_of_parts, +ℤ_left_comm, +ℤ_comm,
}
use vrm_rust.Base.I64.{IsSmall, +i-small, -i-small}
use vrm_rust.Base.HashSet
use vrm_rust.Base.HashSet.{contains, erase, Distinct, erase_absent, erase-Distinct}
use vrm_rust.Schedule.Slot.{Slot, new, reset, insert_reservation, delete_reservation}

-- What the reservations of the list take together, by a table of their capacities.
unfoldable pub total : (ℕ → ℤ) → List ℕ → ℤ
total taken [] = pos 0
total taken (x ∷ xs) = taken x +ℤ total taken xs

-- The slot is within its capacity, holds no reservation twice, and its load is what its
-- reservations take.
pub record IsValid (taken : ℕ → ℤ) (s : Slot) : Type 0 where
  pub load_nonneg : pos 0 ≤ℤ s.load
  pub within : s.load ≤ℤ s.capacity
  pub small : IsSmall s.capacity
  pub distinct : Distinct s.reservation_ids
  pub accounted : s.load ≡ total taken s.reservation_ids

-- `taken` gives no reservation a negative capacity.
abbrev pub Nonneg : (ℕ → ℤ) → Type 0
Nonneg taken = (id : ℕ) → (pos 0 ≤ℤ taken id) × IsSmall (taken id)

total-nonneg : (taken : ℕ → ℤ) (xs : List ℕ) → Nonneg taken → pos 0 ≤ℤ total taken xs
unfolding total
total-nonneg taken [] h = omega arith
total-nonneg taken (x ∷ xs) h =
    omega (arith, (h x).0, total-nonneg taken xs h, +ℤ_parts (taken x) (total taken xs))

-- Erasing a present reservation from a list without duplicates gives back what it takes.
total-erase :
    (taken : ℕ → ℤ) (id : ℕ) (xs : List ℕ)
    → Distinct xs
    → contains id xs ≡ true
    → total taken xs ≡ taken id +ℤ total taken (erase id xs)
unfolding total erase contains
total-erase taken id [] d h = cc
total-erase taken id (x ∷ xs) d h = ground (
  arith,
  erase_absent id xs,
  total-erase taken id xs d.1,
  +ℤ_left_comm (taken id) (taken x) (total taken (erase id xs)),
)

pub new-IsValid :
    (taken : ℕ → ℤ) (capacity : ℤ)
    → pos 0 ≤ℤ capacity
    → IsSmall capacity
    → IsValid taken (new capacity)
unfolding new total
new-IsValid taken capacity h r = ground arith

pub reset-IsValid : (taken : ℕ → ℤ) (s : Slot) → IsValid taken s → IsValid taken (reset s)
unfolding reset total
reset-IsValid taken s v = record {
  load_nonneg = omega arith;
  within = omega (arith, v.load_nonneg, v.within);
  small = v.small;
  distinct = tt;
  accounted = refl;
}

-- An insertion keeps a slot valid, whether it is refused or not: the load stays the sum of what
-- its reservations take, within the capacity, and no reservation is held twice, where the
-- capacities are not negative and below 2^62.
pub insert_reservation-IsValid :
    (taken : ℕ → ℤ) (s : Slot) (id : ℕ)
    → Nonneg taken
    → IsValid taken s
    → IsValid taken (insert_reservation s (taken id) id).0
unfolding insert_reservation total HashSet.insert
insert_reservation-IsValid taken s id n v =
    ground (
      arith,
      n id,
      +i-small s.load (taken id),
      +ℤ_parts s.load (taken id),
      +ℤ_comm (taken id) s.load,
    )

-- A deletion keeps a slot valid, whether the reservation is there or not: the load stays the sum
-- of what its reservations take, where the deletion names the capacity that the reservation was
-- inserted with and capacities are not negative and below 2^62.
pub delete_reservation-IsValid :
    (taken : ℕ → ℤ) (s : Slot) (id : ℕ)
    → Nonneg taken
    → IsValid taken s
    → IsValid taken (delete_reservation s id (taken id)).0
unfolding delete_reservation HashSet.remove
delete_reservation-IsValid taken s id n v = ground (
  arith,
  n id,
  -i-small s.load (taken id),
  -ℤ_parts s.load (taken id),
  +ℤ_parts (taken id) (total taken (erase id s.reservation_ids)),
  total-nonneg taken (erase id s.reservation_ids) n,
  total-erase taken id s.reservation_ids v.distinct,
  erase_absent id s.reservation_ids,
  erase-Distinct id s.reservation_ids v.distinct,
  eq_of_parts (s.load -ℤ taken id) (total taken (erase id s.reservation_ids)),
)
