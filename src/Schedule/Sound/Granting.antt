-- ===== src/Schedule/Sound/Granting.antt =====
-- The node strategy keeps the promises that the search relies on
-- (src/vrm/schedule/slotted_schedule/strategy/node/node_strategy.rs).
use vrm_rust.Base.{ℕ, ◌≡◌, refl, Bool, Option, none, some, arith}
use vrm_rust.Base.Floats.{F64, Floats}
use vrm_rust.Base.Int.{ℤ, pos, ◌≤ℤ◌, -ℤ_parts, eq_of_parts}
use vrm_rust.Base.I64.{◌-i◌, -i-small}
use vrm_rust.Schedule.Slot.{Slot, get_adjust_requirement}
use vrm_rust.Schedule.Slot.Accounting.{IsValid}
use vrm_rust.Schedule.Context.{Context, get_slot}
use vrm_rust.Schedule.NodeStrategy.{
  NodeStrategy, node_strategy, adjust_in_slot, adjust_requirement_to_slot_capacity,
}
use vrm_rust.Schedule.Fit.Search.{IsGranting}
use vrm_rust.Schedule.Sound.{IsSound, get_slot-IsValid}

-- A valid slot grants the smaller of what is asked for and what is left.
get_adjust_requirement_lem :
    (taken : ℕ → ℤ) (s : Slot) (r q : ℤ)
    → IsValid taken s
    → pos 0 ≤ℤ r
    → (get_adjust_requirement s r ≤ℤ r)
      × (pos 0 ≤ℤ get_adjust_requirement s r)
      × (q ≤ℤ get_adjust_requirement s r → get_adjust_requirement s q ≡ q)
unfolding get_adjust_requirement
get_adjust_requirement_lem taken s r q v h =
    let left = s.capacity -i s.load in
    let room : pos 0 ≤ℤ left = ground (
      arith,
      v.load_nonneg,
      v.within,
      v.small,
      -i-small s.capacity s.load,
      -ℤ_parts s.capacity s.load,
    ) in
    ground (arith, eq_of_parts r q, eq_of_parts left q)

-- Within the schedule or outside.
adjust_in_slot_lem :
    (c : Context NodeStrategy) (i r q : ℤ) (o : Option Slot)
    → IsSound c
    → get_slot c i ≡ o
    → pos 0 ≤ℤ r
    → pos 0 ≤ℤ q
    → (adjust_in_slot r o ≤ℤ r)
      × (pos 0 ≤ℤ adjust_in_slot r o)
      × (q ≤ℤ adjust_in_slot r o → adjust_in_slot q o ≡ q)
unfolding adjust_in_slot
adjust_in_slot_lem c i r q none h e n m = (n, omega arith, λ k. eq_of_parts (pos 0) q (omega arith))
adjust_in_slot_lem c i r q (some s) h e n m =
    get_adjust_requirement_lem _ s r q (get_slot-IsValid c i s h e) n

-- A schedule without an overbooked slot keeps the promises that the search relies on.
pub node_strategy-IsGranting :
    (fl : Floats) (fragmentation : Context NodeStrategy → Bool → ℤ → ℤ → F64)
    (c : Context NodeStrategy) (id : ℕ)
    → IsSound c
    → IsGranting (node_strategy fl fragmentation) c id
unfolding node_strategy adjust_requirement_to_slot_capacity
node_strategy-IsGranting fl fragmentation c id h = record {
  grant = λ i r. adjust_requirement_to_slot_capacity c i r id;
  grants = λ i r. refl;
  at_most = λ i r n. (adjust_in_slot_lem c i r r _ h refl n n).0;
  nonneg = λ i r n. (adjust_in_slot_lem c i r r _ h refl n n).1;
  again = λ i r q n m. (adjust_in_slot_lem c i r q _ h refl n m).2;
}
