-- ===== src/Schedule/LinkStrategy.antt =====
-- The strategy of a network (src/vrm/schedule/slotted_schedule/strategy/link/link_strategy.rs): a
-- link reservation is booked on every link of a path. `none` stands for a panic.
pub mod Deletion
use vrm_rust.Base.{
  ℕ, String, Bool, true, false, Option, none, some, List, [], ◌∷◌, string_eq, nat_eq, pair_eq,
  if◌then◌else◌, ◌>>=◌, unwrap_or,
}
use vrm_rust.Base.Floats.{F64}
use vrm_rust.Base.Int.{ℤ, pos, negsuc, ltb_ℤ, eqb_ℤ, int_eq}
use vrm_rust.Base.Dict
use vrm_rust.Base.Dict.{Dict}
use vrm_rust.Reservation.Fields.{rejected}
use vrm_rust.Resource
use vrm_rust.Resource.{ResourceStore, LinkPath}
use vrm_rust.Schedule.Context
use vrm_rust.Schedule.Context.{Context, get_slot, put_slot}
use vrm_rust.Schedule.LoadBuffer.{LoadMetric}
use vrm_rust.Schedule.NodeStrategy
use vrm_rust.Schedule.Slot
use vrm_rust.Schedule.Slot.{Slot}
use vrm_rust.Schedule.Strategy.{Strategy}
use vrm_rust.Store.Read
use vrm_rust.Store.Update.{update_state}
use vrm_rust.Topology.{NetworkTopology}

pub record LinkStrategy : Type 0 where
  pub topology : NetworkTopology
  pub reserved_paths : Dict ℕ (Dict ℤ LinkPath)
  pub resource_store : ResourceStore
  pub max_bandwidth_all_paths : ℤ

unfoldable pub new : NetworkTopology → ResourceStore → LinkStrategy
new topology resources = record {
  topology = topology;
  reserved_paths = [];
  resource_store = resources;
  max_bandwidth_all_paths = topology.max_bandwidth_all_paths;
}

unfoldable pub get_capacity : Context LinkStrategy → ℤ
get_capacity c = c.strategy.max_bandwidth_all_paths

-- `with_mut_slotted_schedule_strategy` with `NodeStrategy::adjust_requirement_to_slot_capacity`.
unfoldable pub adjust_on_link : ResourceStore → ℤ → ℤ → ℕ → ℕ → Option ℤ
adjust_on_link s index requirement id link =
    Resource.read_schedule s link
      (λ c. NodeStrategy.adjust_requirement_to_slot_capacity c index requirement id)

-- The loop over the links of a path, which ends at a link without capacity.
unfoldable pub path_capacity : ResourceStore → ℤ → ℕ → ℤ → LinkPath → Option ℤ
unfolding adjust_on_link
path_capacity s index id available [] = some available
path_capacity s index id available (link ∷ links) = do
  left ← adjust_on_link s index available id link
  let rest = path_capacity s index id left links
  if eqb_ℤ left (pos 0) then some left else rest

-- A path starts with what its first link has. `none` is the panic at an empty path.
unfoldable pub available_on : ResourceStore → ℤ → ℕ → ℤ → LinkPath → Option ℤ
unfolding path_capacity adjust_on_link
available_on s index id most [] = none
available_on s index id most (link ∷ links) = do
  first ← adjust_on_link s index most id link
  path_capacity s index id first (link ∷ links)

-- The loop over the paths: the first with all the bandwidth, or else the largest.
unfoldable pub best_capacity : ResourceStore → ℤ → ℕ → ℤ → ℤ → List LinkPath → Option ℤ
unfolding available_on
best_capacity s index id most available [] = some available
best_capacity s index id most available (path ∷ paths) = do
  found ← available_on s index id most path
  let rest =
      best_capacity s index id most (if ltb_ℤ available found then found else available) paths
  if eqb_ℤ found most then some most else rest

-- The cached paths between the ends of a link reservation.
unfoldable pub cached_between :
    NetworkTopology → Option String → Option String → Option (List LinkPath)
cached_between t none target = none
cached_between t (some source) none = none
cached_between t (some source) (some target) = Dict.get (source, target) t.path_cache

unfoldable pub cached_paths : Context LinkStrategy → ℕ → Option (Option (List LinkPath))
unfolding cached_between Read.get_start_point Read.get_end_point
cached_paths c id = do
  source ← Read.get_start_point c.reservation_store id
  target ← Read.get_end_point c.reservation_store id
  some (cached_between c.strategy.topology source target)

-- Without a path there is no capacity.
unfoldable pub adjust_by_paths : Context LinkStrategy → ℤ → ℕ → Option (List LinkPath) → Option ℤ
unfolding best_capacity get_capacity
adjust_by_paths c index id none = some (pos 0)
adjust_by_paths c index id (some paths) =
    best_capacity c.strategy.resource_store index id (get_capacity c) (pos 0) paths

unfoldable pub adjust_requirement_to_slot_capacity : Context LinkStrategy → ℤ → ℤ → ℕ → Option ℤ
unfolding cached_paths adjust_by_paths
adjust_requirement_to_slot_capacity c index requirement id = do
  paths ← cached_paths c id
  adjust_by_paths c index id paths

-- Whether every link of a path has the whole capacity.
unfoldable pub is_free : ResourceStore → ℤ → ℤ → ℕ → LinkPath → Option Bool
unfolding adjust_on_link
is_free s index capacity id [] = some true
is_free s index capacity id (link ∷ links) = do
  available ← adjust_on_link s index capacity id link
  let rest = is_free s index capacity id links
  if eqb_ℤ available capacity then rest else some false

unfoldable pub book_links : ResourceStore → ℤ → ℤ → ℕ → LinkPath → Option ResourceStore
unfolding Resource.with_mut_slotted_schedule_strategy
book_links s index capacity id [] = some s
book_links s index capacity id (link ∷ links) = do
  s' ←
      Resource.with_mut_slotted_schedule_strategy s link
        (λ c. NodeStrategy.insert_reservation_into_slot c capacity index id)
  book_links s' index capacity id links

unfoldable pub insert_in_slot :
    Context LinkStrategy → ℤ → ℤ → ℕ → Option Slot → Context LinkStrategy
insert_in_slot c capacity index id none = c
insert_in_slot c capacity index id (some slot) =
    put_slot c index (Slot.insert_reservation slot capacity id).0

-- The path is booked on its links, remembered for the slot, and booked in the slot of the network.
unfoldable pub book_path :
    Context LinkStrategy → ℤ → ℤ → ℕ → LinkPath → ResourceStore → Context LinkStrategy
unfolding insert_in_slot
book_path c index capacity id path resources =
    let old = unwrap_or (Dict.get id c.strategy.reserved_paths) [] in
    let c' = record c {
      strategy = record c.strategy {
        resource_store = resources;
        reserved_paths = Dict.insert id (Dict.insert index path old) c.strategy.reserved_paths;
      };
    } in
    insert_in_slot c' capacity index id (get_slot c' index)

-- The first free path is taken; without one nothing changes.
unfoldable pub book_first :
    Context LinkStrategy → ℤ → ℤ → ℕ → List LinkPath → Option (Context LinkStrategy)
unfolding is_free book_links book_path
book_first c index capacity id [] = some c
book_first c index capacity id (path ∷ paths) = do
  free ← is_free c.strategy.resource_store index capacity id path
  let rest = book_first c index capacity id paths
  let booked = book_links c.strategy.resource_store index capacity id path >>= λ resources.
      some (book_path c index capacity id path resources)
  if free then booked else rest

unfoldable pub insert_by_paths :
    Context LinkStrategy → ℤ → ℕ → Option (List LinkPath) → Option (Context LinkStrategy)
unfolding book_first Read.get_reserved_capacity
insert_by_paths c index id none = some c
insert_by_paths c index id (some paths) =
    book_first c index (Read.get_reserved_capacity c.reservation_store id) id paths

unfoldable pub insert_reservation_into_slot :
    Context LinkStrategy → ℤ → ℤ → ℕ → Option (Context LinkStrategy)
unfolding cached_paths insert_by_paths
insert_reservation_into_slot c requirement index id = do
  paths ← cached_paths c id
  insert_by_paths c index id paths

-- `schedule.clear()` of a link is the method of the context itself, without an update.
unfoldable pub clear_link : ResourceStore → ℕ → Option ResourceStore
unfolding Resource.with_mut_slotted_schedule_strategy
clear_link s id = Resource.with_mut_slotted_schedule_strategy s id Context.clear

unfoldable pub clear_links : ResourceStore → List ℕ → Option ResourceStore
unfolding clear_link
clear_links s [] = some s
clear_links s (id ∷ ids) = do s' ← clear_link s id; clear_links s' ids

unfoldable pub on_clear : Context LinkStrategy → Option (Context LinkStrategy)
unfolding clear_links
on_clear c = do
  s ← clear_links c.strategy.resource_store c.strategy.topology.link_ids
  some (record c { strategy = record c.strategy { resource_store = s; reserved_paths = [] } })

-- For every link of a path the reservation leaves the slot of the network, not that of the link. A
-- missing slot ends the loops.
unfoldable pub unbook_slot :
    Context LinkStrategy → ℤ → ℤ → ℕ → LinkPath → Context LinkStrategy × Bool
unbook_slot c index capacity id [] = (c, true)
unbook_slot c index capacity id (link ∷ links) = elim (get_slot c index) [
  | none ↦ (c, false)
  | some slot ↦
      unbook_slot (put_slot c index (Slot.delete_reservation slot id capacity).0) index capacity id
        links
]

unfoldable pub unbook_slots :
    Context LinkStrategy → ℤ → ℕ → Dict ℤ LinkPath → Context LinkStrategy × Bool
unfolding unbook_slot
unbook_slots c capacity id [] = (c, true)
unbook_slots c capacity id ((index, path) ∷ rest) =
    let (c', done) = unbook_slot c index capacity id path in
    let later = unbook_slots c' capacity id rest in if done then later else (c', false)

unfoldable pub unbook :
    Context LinkStrategy → ℕ → Option (Dict ℤ LinkPath) → Context LinkStrategy × Bool
unfolding unbook_slots update_state
unbook c id none =
    (record c { reservation_store = update_state c.reservation_store id rejected }, false)
unbook c id (some paths) =
    unbook_slots
      (record c {
        strategy = record c.strategy { reserved_paths = Dict.remove id c.strategy.reserved_paths };
      })
      (Read.get_reserved_capacity c.reservation_store id) id paths

unfoldable pub on_delete_reservation : Context LinkStrategy → ℕ → Context LinkStrategy × Bool
unfolding unbook
on_delete_reservation c id = unbook c id (Dict.get id c.strategy.reserved_paths)

-- The measures are not implemented: -1.0, and a metric of -1 and 0.
abbrev pub minus_one_f64 : F64
minus_one_f64 = 13830554455654793216

unfoldable pub get_fragmentation : Context LinkStrategy → ℤ → ℤ → F64
get_fragmentation c start_time end_time = minus_one_f64

unfoldable pub get_system_fragmentation : Context LinkStrategy → Option (Context LinkStrategy × F64)
get_system_fragmentation c = some (c, minus_one_f64)

unfoldable pub unknown_load : LoadMetric
unknown_load = record {
  start_time = negsuc 0;
  end_time = negsuc 0;
  avg_reserved_capacity = minus_one_f64;
  possible_capacity = minus_one_f64;
  utilization = 0;
}

unfoldable pub get_load_metric : Context LinkStrategy → ℤ → ℤ → LoadMetric
unfolding unknown_load
get_load_metric c start_time end_time = unknown_load

unfoldable pub get_simulation_load_metric : Context LinkStrategy → Context LinkStrategy × LoadMetric
unfolding unknown_load
get_simulation_load_metric c = (c, unknown_load)

unfoldable pub link_strategy : Strategy LinkStrategy
unfolding adjust_requirement_to_slot_capacity insert_reservation_into_slot on_clear
    get_system_fragmentation get_capacity
link_strategy = record {
  adjust_requirement_to_slot_capacity = adjust_requirement_to_slot_capacity;
  insert_reservation_into_slot = insert_reservation_into_slot;
  on_clear = on_clear;
  get_system_fragmentation = get_system_fragmentation;
  get_capacity = get_capacity;
}
