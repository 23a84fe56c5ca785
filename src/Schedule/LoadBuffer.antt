-- ===== src/Schedule/LoadBuffer.antt =====
-- The buffer of past loads (src/vrm/schedule/load_buffer.rs). Each buffer holds its context: the
-- program makes a new one for every schedule, and the copies of a schedule share it (Rms/Simulator).
pub mod Tail
use vrm_rust.Base.{
  ℕ, zero, suc, ◌+◌, List, [], ◌∷◌, ◌++◌, Bool, true, false, if◌then◌else◌, length, drop, replicate,
  leb,
}
use vrm_rust.Base.Floats.{F64, Floats}
use vrm_rust.Base.Int.{ℤ, pos, negsuc, pos_part, ltb_ℤ, leb_ℤ, eqb_ℤ}
use vrm_rust.Base.I64.{◌+i◌, ◌-i◌, i64_max}

abbrev pub slots_to_drop_on_start : ℤ
slots_to_drop_on_start = pos 50

abbrev pub slots_to_drop_on_end : ℕ
slots_to_drop_on_end = 50

pub record GlobalLoadContext : Type 0 where
  pub first_global_load : ℤ
  pub last_global_load : ℤ

unfoldable pub new_context : GlobalLoadContext
new_context = record { first_global_load = i64_max; last_global_load = negsuc 0 }

-- `fetch_min` and `fetch_max`.
unfoldable pub update_first_load : GlobalLoadContext → ℤ → GlobalLoadContext
update_first_load c index = record c {
  first_global_load = if ltb_ℤ index c.first_global_load then index else c.first_global_load;
}

unfoldable pub update_last_load : GlobalLoadContext → ℤ → GlobalLoadContext
update_last_load c index = record c {
  last_global_load = if ltb_ℤ c.last_global_load index then index else c.last_global_load;
}

pub record LoadBuffer : Type 0 where
  pub context : GlobalLoadContext
  pub slot_index_last_local_load : ℤ
  pub slots_since_last_load : ℤ
  pub sum_reserved_capacity : ℤ
  pub tail_buffer : List ℤ

unfoldable pub new : GlobalLoadContext → LoadBuffer
new context = record {
  context = context;
  slot_index_last_local_load = pos 0;
  slots_since_last_load = pos 0;
  sum_reserved_capacity = pos 0;
  tail_buffer = [];
}

-- `pop_front` when the buffer is full, then `push_back`.
unfoldable pub push_tail : List ℤ → ℤ → List ℤ
push_tail tail load =
    (if leb slots_to_drop_on_end (length tail) then drop 1 tail else tail) ++ (load ∷ [])

unfoldable pub add_intern : LoadBuffer → ℤ → LoadBuffer
unfolding push_tail
add_intern b load = record b {
  sum_reserved_capacity = b.sum_reserved_capacity +i load;
  tail_buffer = push_tail b.tail_buffer load;
}

unfoldable pub push_zeros : ℕ → List ℤ → List ℤ
unfolding push_tail
push_zeros zero tail = tail
push_zeros (suc n) tail = push_zeros n (push_tail tail (pos 0))

unfoldable pub add_zeros_intern : LoadBuffer → ℤ → LoadBuffer
unfolding push_zeros
add_zeros_intern b count =
    if leb_ℤ count (pos 0)
    then b
    else if leb slots_to_drop_on_end (pos_part count)
    then record b { tail_buffer = replicate slots_to_drop_on_end (pos 0) }
    else record b { tail_buffer = push_zeros (pos_part count) b.tail_buffer }

-- `add` for a load above 0, at an index that is not negative.
add_load : LoadBuffer → ℤ → ℤ → LoadBuffer
unfolding update_first_load update_last_load add_intern add_zeros_intern
add_load b load index =
    let context' = update_last_load (update_first_load b.context index) index in
    let b1 = record b { context = context'; slot_index_last_local_load = index } in
    if eqb_ℤ context'.first_global_load i64_max
    then b1
    else let b2 =
        if ltb_ℤ slots_to_drop_on_start (index -i context'.first_global_load)
        then add_intern (add_zeros_intern b1 b1.slots_since_last_load) load
        else b1 in
      record b2 { slots_since_last_load = pos 0 }

unfoldable pub add : LoadBuffer → ℤ → ℤ → LoadBuffer
unfolding add_load
add b next_slot_load slot_index =
    if leb_ℤ next_slot_load (pos 0)
    then record b { slots_since_last_load = b.slots_since_last_load +i pos 1 }
    else add_load b next_slot_load (if ltb_ℤ slot_index (pos 0) then pos 0 else slot_index)

pub record LoadMetric : Type 0 where
  pub start_time : ℤ
  pub end_time : ℤ
  pub avg_reserved_capacity : F64
  pub possible_capacity : F64
  pub utilization : F64

sum_tail : List ℤ → ℤ
sum_tail [] = pos 0
sum_tail (x ∷ xs) = x +i sum_tail xs

-- The zeros that bring the buffer up to the last load of the context.
catch_up : LoadBuffer → LoadBuffer
unfolding add_zeros_intern
catch_up b =
    let empty = b.context.last_global_load -i b.slot_index_last_local_load in
    if ltb_ℤ (pos 0) empty
    then record (add_zeros_intern b empty) {
      slot_index_last_local_load = b.context.last_global_load;
    }
    else b

module _ (fl : Floats) where
  zero_f64 : F64
  zero_f64 = fl.of_i64 (pos 0)

  metric : LoadBuffer → F64 → ℤ → ℤ → LoadMetric
  unfolding sum_tail zero_f64
  metric b capacity start_time end_time =
      let reserved = b.sum_reserved_capacity -i sum_tail b.tail_buffer in
      let first = b.context.first_global_load +i slots_to_drop_on_start in
      let last = b.context.last_global_load -i pos slots_to_drop_on_end in
      let logged = last -i first in
      let avg =
        if leb_ℤ logged (pos 0) then zero_f64 else fl.div (fl.of_i64 reserved) (fl.of_i64 logged) in
      if eqb_ℤ b.context.first_global_load i64_max
      then record {
        start_time = start_time;
        end_time = end_time;
        avg_reserved_capacity = zero_f64;
        possible_capacity = capacity;
        utilization = zero_f64;
      }
      else record {
        start_time = start_time;
        end_time = end_time;
        avg_reserved_capacity = avg;
        possible_capacity = capacity;
        utilization = if fl.lt zero_f64 capacity then fl.div avg capacity else zero_f64;
      }

  unfoldable pub get_effective_overall_load : LoadBuffer → F64 → ℤ → ℤ → LoadBuffer × LoadMetric
  unfolding catch_up metric
  get_effective_overall_load b capacity start_time end_time =
      let b' = catch_up b in (b', metric b' capacity start_time end_time)
