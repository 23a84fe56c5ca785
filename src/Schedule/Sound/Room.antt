-- ===== src/Schedule/Sound/Room.antt =====
-- A candidate that the search finds on a node has room in every slot that it takes
-- (src/vrm/schedule/slotted_schedule/slotted_schedule_context.rs and
-- src/vrm/schedule/slotted_schedule/strategy/node/node_strategy.rs).
use vrm_rust.Base.{ℕ, ◌≡◌, refl, Bool, Option, none, some, arith}
use vrm_rust.Base.Floats.{F64, Floats}
use vrm_rust.Base.Int.{ℤ, pos, ◌≤ℤ◌, ◌<ℤ◌, ◌+ℤ◌, +ℤ_parts, -ℤ_parts}
use vrm_rust.Base.I64.{◌-i◌, -i-small}
use vrm_rust.Schedule.Slot
use vrm_rust.Schedule.Slot.{Slot}
use vrm_rust.Schedule.Context.{Context, get_slot, get_slot_index}
use vrm_rust.Schedule.NodeStrategy.{
  NodeStrategy, node_strategy, adjust_in_slot, adjust_requirement_to_slot_capacity,
}
use vrm_rust.Schedule.Fit.{try_fit_reservation}
use vrm_rust.Schedule.Fit.Search.{IsTimed}
use vrm_rust.Schedule.Fit.Candidates.{IsAttempt, try_fit_reservation-IsFeasible}
use vrm_rust.Schedule.Sound.{IsSound, get_slot-IsValid}
use vrm_rust.Schedule.Sound.Granting.{node_strategy-IsGranting}
use vrm_rust.Reservation.Kinds.{Reservation, get_base}
use vrm_rust.Store.Read.{get}

-- The slot has room for the capacity.
abbrev pub HasRoom : Context NodeStrategy → ℤ → ℤ → Type 0
HasRoom c i capacity = (s : Slot) × (get_slot c i ≡ some s) × (s.load +ℤ capacity ≤ℤ s.capacity)

granted-HasRoom :
    (c : Context NodeStrategy) (i q : ℤ) (o : Option Slot)
    → IsSound c
    → get_slot c i ≡ o
    → pos 0 <ℤ q
    → adjust_in_slot q o ≡ q
    → HasRoom c i q
unfolding adjust_in_slot Slot.get_adjust_requirement
granted-HasRoom c i q none h e n g = absurd (ground arith)
granted-HasRoom c i q (some s) h e n g =
    let v = get_slot-IsValid c i s h e in
    (
      s,
      e,
      ground (
        arith,
        v.load_nonneg,
        v.within,
        v.small,
        -i-small s.capacity s.load,
        -ℤ_parts s.capacity s.load,
        +ℤ_parts s.load q,
      ),
    )

-- On a node whose slots are valid, a candidate with a capacity above 0 that the search finds from
-- a slot on has room for its capacity in every slot from there to the slot of its last second:
-- each such slot exists, and its load and the candidate's capacity together do not pass its
-- capacity. The window ends with its last slot, its slots are wider than 0, and its times are not
-- negative and below 2^62. The reservation is known, asks for no negative capacity, and its first
-- attempt ends in range.
pub try_fit_reservation-HasRoom :
    (fl : Floats) (fragmentation : Context NodeStrategy → Bool → ℤ → ℤ → F64)
    (c : Context NodeStrategy) (id : ℕ) (slot request_end : ℤ) (request r : Reservation) (i : ℤ)
    → IsTimed c
    → IsSound c
    → get c.reservation_store id ≡ some request
    → IsAttempt c slot request
    → try_fit_reservation (node_strategy fl fragmentation) c id slot request_end ≡ some (some r)
    → pos 0 <ℤ (get_base r).reserved_capacity
    → slot ≤ℤ i
    → i ≤ℤ get_slot_index c ((get_base r).assigned_end -i pos 1)
    → HasRoom c i (get_base r).reserved_capacity
unfolding adjust_requirement_to_slot_capacity node_strategy
try_fit_reservation-HasRoom fl fragmentation c id slot request_end request r i timed sound known
      attempt found positive low high =
    let promise = node_strategy-IsGranting fl fragmentation c id sound in
    let feasible =
      try_fit_reservation-IsFeasible (node_strategy fl fragmentation) c id timed promise slot
        request_end request r known attempt found in
    let capacity = (get_base r).reserved_capacity in
    let same : some (adjust_in_slot capacity (get_slot c i)) ≡ some (promise.grant i capacity) =
      promise.grants i capacity in
    let granted = feasible.granted i low high in
    granted-HasRoom c i capacity (get_slot c i) sound refl positive cc
