-- ===== src/Schedule/NodeStrategy.antt =====
-- The strategy of a compute node (src/vrm/schedule/slotted_schedule/strategy/node/node_strategy.rs).
use vrm_rust.Base.{
  ℕ, Bool, true, Option, none, some, List, [], ◌∷◌, if◌then◌else◌, ◌>>=◌, length, nat_beq,
}
use vrm_rust.Base.Floats.{F64, Floats}
use vrm_rust.Base.Int.{ℤ, pos, eqb_ℤ, range_inclusive}
use vrm_rust.Base.I64.{◌+i◌, ◌-i◌, i64_min, i64_max}
use vrm_rust.Schedule.Slot
use vrm_rust.Schedule.Slot.{Slot}
use vrm_rust.Schedule.LoadBuffer
use vrm_rust.Schedule.LoadBuffer.{LoadMetric}
use vrm_rust.Schedule.Context.{
  Context, get_slot, put_slot, get_slot_index, get_effective_slot_index, get_slot_load,
  get_slot_start_time,
}
use vrm_rust.Schedule.Strategy.{Strategy}
use vrm_rust.Schedule.Update.{update}

abbrev pub NodeStrategy : Type 0
NodeStrategy = Unit {0}

abbrev first_capacity : List Slot → ℤ
first_capacity [] = pos 0
first_capacity (s ∷ ss) = s.capacity

unfoldable pub get_capacity : Context NodeStrategy → ℤ
get_capacity c = first_capacity c.slots

-- Without a slot there is no capacity.
unfoldable pub adjust_in_slot : ℤ → Option Slot → ℤ
adjust_in_slot requirement none = pos 0
adjust_in_slot requirement (some slot) = Slot.get_adjust_requirement slot requirement

unfoldable pub adjust_requirement_to_slot_capacity : Context NodeStrategy → ℤ → ℤ → ℕ → ℤ
unfolding adjust_in_slot
adjust_requirement_to_slot_capacity c index requirement id =
    adjust_in_slot requirement (get_slot c index)

unfoldable pub insert_in_slot :
    Context NodeStrategy → ℤ → ℤ → ℕ → Option Slot → Context NodeStrategy
insert_in_slot c requirement index id none = c
insert_in_slot c requirement index id (some slot) =
    put_slot c index (Slot.insert_reservation slot requirement id).0

unfoldable pub insert_reservation_into_slot :
    Context NodeStrategy → ℤ → ℤ → ℕ → Context NodeStrategy
unfolding insert_in_slot
insert_reservation_into_slot c requirement index id =
    insert_in_slot c requirement index id (get_slot c index)

sum_loads : Context NodeStrategy → List ℤ → ℤ
sum_loads c [] = pos 0
sum_loads c (index ∷ rest) = get_slot_load c index +i sum_loads c rest

-- `fragmentation` stands for the two fragmentation measures of fragmentation.rs, which the
-- schedule calls with the first and last slot.
module _ (fl : Floats) (fragmentation : Context NodeStrategy → Bool → ℤ → ℤ → F64) where
  unfoldable pub get_fragmentation :
      Context NodeStrategy → ℤ → ℤ → Option (Context NodeStrategy × F64)
  get_fragmentation c start_time end_time = do
    c' ← update c
    let until = if eqb_ℤ end_time i64_min then i64_max else end_time
    let first = get_effective_slot_index c' (get_slot_index c' start_time)
    let last = get_effective_slot_index c' (get_slot_index c' until)
    some (c', fragmentation c' c'.use_quadratic_mean_fragmentation first last)

  unfoldable pub get_system_fragmentation :
      Context NodeStrategy → Option (Context NodeStrategy × F64)
  unfolding get_fragmentation
  get_system_fragmentation c =
      if c.is_frag_cache_up_to_date then some (c, c.fragmentation_cache) else do
        (c', value) ←
            get_fragmentation c c.scheduling_window_start_time c.scheduling_window_end_time
        some (record c' { fragmentation_cache = value; is_frag_cache_up_to_date = true }, value)

  unfoldable pub get_load_metric : Context NodeStrategy → ℤ → ℤ → LoadMetric
  unfolding sum_loads
  get_load_metric c start_time end_time =
      let until = if eqb_ℤ end_time i64_min then i64_max else end_time in
      let first = get_effective_slot_index c (get_slot_index c start_time) in
      let last = get_effective_slot_index c (get_slot_index c until) in
      let sum = sum_loads c (range_inclusive first last) in
      let count = if nat_beq (length c.slots) 0 then pos 0 else last -i first +i pos 1 in
      let capacity = fl.of_i64 (get_capacity c) in
      let avg =
        if eqb_ℤ count (pos 0) then capacity else fl.div (fl.of_i64 sum) (fl.of_i64 count) in
      record {
        start_time = start_time;
        end_time = until;
        avg_reserved_capacity = avg;
        possible_capacity = capacity;
        utilization = fl.div avg capacity;
      }

  unfoldable pub get_simulation_load_metric :
      Context NodeStrategy → Context NodeStrategy × LoadMetric
  get_simulation_load_metric c =
      let buffer = c.load_buffer.context in
      let first = buffer.first_global_load +i LoadBuffer.slots_to_drop_on_start in
      let last = buffer.last_global_load -i pos LoadBuffer.slots_to_drop_on_end in
      let (buffer', metric) =
        LoadBuffer.get_effective_overall_load fl c.load_buffer (fl.of_i64 (get_capacity c))
          (get_slot_start_time c first) (get_slot_start_time c last) in
      (record c { load_buffer = buffer' }, metric)

  unfoldable pub node_strategy : Strategy NodeStrategy
  unfolding get_system_fragmentation
  node_strategy = record {
    adjust_requirement_to_slot_capacity =
        λ c index requirement id. some (adjust_requirement_to_slot_capacity c index requirement id);
    insert_reservation_into_slot =
        λ c requirement index id. some (insert_reservation_into_slot c requirement index id);
    on_clear = λ c. some c;
    get_system_fragmentation = get_system_fragmentation;
    get_capacity = get_capacity;
  }
