-- ===== src/Examples/Requests.antt =====
-- A whole request to reserve, from the update of the window on.
use vrm_rust.Base.{All, zero, suc, ◌≡◌, refl, Option, some, nat_eq, arith, unwrap_or, ℕ}
use vrm_rust.Base.Dict
use vrm_rust.Base.Int.{ℤ, pos, negsuc, ◌≤ℤ◌, ◌+ℤ◌, ◌-ℤ◌, ◌*ℤ◌, div_euclid, rem_trunc, range}
use vrm_rust.Base.I64.{wrap_i64, ◌+i◌, ◌-i◌, ◌*i◌}
use vrm_rust.Store.Read
use vrm_rust.Reservation.Kinds.{get_base}
use vrm_rust.Schedule.Context.{
  Context, get_slot_index, get_slot, get_slot_start_time, get_slot_end_time, put_slot,
}
use vrm_rust.Schedule.Context.Ring.{InWindow, IsWindow}
use vrm_rust.Schedule.NodeStrategy.{NodeStrategy, node_strategy}
use vrm_rust.Schedule.Update.{update}
use vrm_rust.Schedule.Update.Total.{AllKnown, update-total}
use vrm_rust.Schedule.Operations.{reserve, early_stop}
use vrm_rust.Schedule.Fit.{first_start}
use vrm_rust.Schedule.Fit.Search.{IsTimed}
use vrm_rust.Schedule.Fit.Candidates.{IsAttempt}
use vrm_rust.Schedule.Sound.Kept.{IsKept}
use vrm_rust.Schedule.Sound.Complete.{reserve-total}
use vrm_rust.Examples.Runs.{waiting, next, floats, no_fragmentation, waiting-IsKept}

waiting-AllKnown : All (AllKnown waiting.reservation_store) waiting.slots
unfolding Read.get_assigned_end Read.get Dict.get
waiting-AllKnown = (tt, ((refl, tt), (tt, (tt, tt))))

update-total_example : (c : Context NodeStrategy) × (update waiting ≡ some c) × IsWindow c
update-total_example =
    update-total waiting (ground arith) (omega arith) (ground arith) (ground arith) waiting-AllKnown

abbrev moved : Context NodeStrategy
moved = unwrap_or (update (early_stop waiting 1)) waiting

moves : update (early_stop waiting 1) ≡ some moved
unfolding early_stop Read.get_reserved_capacity Read.get Dict.get get_base update range ◌-ℤ◌ ◌+i◌
    ◌-i◌ ◌*i◌ ◌*ℤ◌ wrap_i64 ◌+ℤ◌ get_slot_index get_slot_start_time get_slot_end_time first_start
    div_euclid get_slot rem_trunc put_slot
moves = refl

moved-IsTimed : IsTimed moved
unfolding early_stop Read.get_reserved_capacity Read.get Dict.get get_base update range ◌-ℤ◌ ◌+i◌
    ◌-i◌ ◌*i◌ ◌*ℤ◌ wrap_i64 ◌+ℤ◌ get_slot_index get_slot_start_time get_slot_end_time first_start
    div_euclid get_slot rem_trunc put_slot
moved-IsTimed = ground arith

in_order : moved.start_slot_index ≤ℤ moved.end_slot_index
unfolding early_stop Read.get_reserved_capacity Read.get Dict.get get_base update range ◌-ℤ◌ ◌+i◌
    ◌-i◌ ◌*i◌ ◌*ℤ◌ wrap_i64 ◌+ℤ◌ get_slot_index get_slot_start_time get_slot_end_time first_start
    div_euclid get_slot rem_trunc put_slot
in_order = ground arith

still_stored : Read.get moved.reservation_store 1 ≡ some next
unfolding early_stop Read.get_reserved_capacity Read.get Dict.get get_base update range ◌-ℤ◌ ◌+i◌
    ◌-i◌ ◌*i◌ ◌*ℤ◌ wrap_i64 ◌+ℤ◌ get_slot_index get_slot_start_time get_slot_end_time first_start
    div_euclid get_slot rem_trunc put_slot
still_stored = refl

attempts : (i : ℤ) → InWindow moved i → IsAttempt moved i next
unfolding early_stop Read.get_reserved_capacity Read.get Dict.get get_base update range ◌-ℤ◌ ◌+i◌
    ◌-i◌ ◌*i◌ ◌*ℤ◌ wrap_i64 ◌+ℤ◌ get_slot_index get_slot_start_time get_slot_end_time first_start
    div_euclid get_slot rem_trunc put_slot
attempts (pos zero) h = absurd (omega arith)
attempts (pos (suc zero)) h = ground arith
attempts (pos (suc (suc zero))) h = ground arith
attempts (pos (suc (suc (suc zero)))) h = ground arith
attempts (pos (suc (suc (suc (suc zero))))) h = ground arith
attempts (pos (suc (suc (suc (suc (suc n)))))) h = absurd (omega arith)
attempts (negsuc n) h = absurd (omega arith)

reserve-total_example :
    (c : Context NodeStrategy) × (r : Option ℕ) × (reserve
        (node_strategy floats no_fragmentation)
        waiting
        1
      ≡ some (c, r))
    × IsKept c
reserve-total_example =
    reserve-total floats no_fragmentation 1 waiting moved next waiting-IsKept moves moved-IsTimed
      in_order still_stored attempts
