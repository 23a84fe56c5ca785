-- ===== src/Rms/Simulator.antt =====
-- The simulated resource management system (src/vrm/rms/rms_simulator/rms_simulator.rs and
-- rms_node_network_trait.rs): a schedule of the nodes and one of the network, with shadow copies of
-- both. All of them share the store of the reservations and the clock, which a call is given here.
-- The copies of a schedule also share the context of their load buffers, and the networks with the
-- base the store of the resources: each holds these as fields, and what changes one of them changes
-- it in all copies (`share_nodes`, `share_network`). `none` stands for a panic.
pub mod Shadowed
pub mod Isolation
pub mod Planned
pub mod Interface
use vrm_rust.Base.{
  ℕ, String, Bool, true, false, Option, none, some, string_eq, if◌then◌else◌, ◌>>=◌, ◌&&◌, ◌||◌,
  not, is_some, map_option,
}
use vrm_rust.Base.Dict
use vrm_rust.Base.Dict.{Dict}
use vrm_rust.Base.Floats.{F64, Floats}
use vrm_rust.Base.Int.{ℤ}
use vrm_rust.Reservation.Kinds.{Reservation, node, link, workflow}
use vrm_rust.Reservation.ProbeReservations.{ProbeReservations, ProbeReservationComparator}
use vrm_rust.Resource
use vrm_rust.Resource.{ResourceStore}
use vrm_rust.Rms.{RmsBase, RmsLoadMetric, AdvanceReservationRms}
use vrm_rust.Rms
use vrm_rust.Schedule.Context.{Context}
use vrm_rust.Schedule.LoadBuffer.{GlobalLoadContext}
use vrm_rust.Schedule.LinkStrategy
use vrm_rust.Schedule.LinkStrategy.{LinkStrategy, link_strategy}
use vrm_rust.Schedule.NodeStrategy
use vrm_rust.Schedule.NodeStrategy.{NodeStrategy, node_strategy}
use vrm_rust.Schedule.Operations
use vrm_rust.Schedule.Update.{update}
use vrm_rust.Store.{Store}
use vrm_rust.Store.Read

pub record RmsSimulator : Type 0 where
  pub base : RmsBase
  pub node_schedule : Context NodeStrategy
  pub network_schedule : Context LinkStrategy
  pub node_shadow_schedule : Dict String (Context NodeStrategy)
  pub network_shadow_schedule : Dict String (Context LinkStrategy)

-- A schedule sees what it shares as it is now.
unfoldable pub open_nodes : Store → ℤ → Context NodeStrategy → Context NodeStrategy
open_nodes store now c = record c { reservation_store = store; system_time = now }

unfoldable pub open_network :
    Store → ℤ → ResourceStore → Context LinkStrategy → Context LinkStrategy
open_network store now resources c = record c {
  reservation_store = store;
  system_time = now;
  strategy = record c.strategy { resource_store = resources };
}

unfoldable pub nodes_of : RmsSimulator → Option String → Option (Context NodeStrategy)
nodes_of r none = some r.node_schedule
nodes_of r (some shadow) = Dict.get shadow r.node_shadow_schedule

unfoldable pub network_of : RmsSimulator → Option String → Option (Context LinkStrategy)
network_of r none = some r.network_schedule
network_of r (some shadow) = Dict.get shadow r.network_shadow_schedule

pub data ActiveSchedule : Type 0 where
  on_nodes : Context NodeStrategy → ActiveSchedule
  on_network : Context LinkStrategy → ActiveSchedule

-- A workflow has no schedule, and a missing shadow schedule is a panic as well.
unfoldable pub get_active_schedule :
    RmsSimulator → Store → Option String → ℕ → Option ActiveSchedule
unfolding nodes_of network_of
get_active_schedule r store shadow id =
    if Read.is_link store id
    then map_option on_network (network_of r shadow)
    else if Read.is_node store id
    then map_option on_nodes (nodes_of r shadow)
    else none

-- The copies of a schedule share the context of its load buffer.
unfoldable pub share_context : {St : Type 0} → GlobalLoadContext → Context St → Context St
share_context context c = record c { load_buffer = record c.load_buffer { context = context } }

unfoldable pub share_nodes : GlobalLoadContext → RmsSimulator → RmsSimulator
unfolding share_context
share_nodes context r = record r {
  node_schedule = share_context context r.node_schedule;
  node_shadow_schedule = Dict.map_values (share_context context) r.node_shadow_schedule;
}

-- The copies of the schedule of the network share the store of the resources as well.
unfoldable pub share :
    GlobalLoadContext → ResourceStore → Context LinkStrategy → Context LinkStrategy
unfolding share_context
share context resources c = record (share_context context c) {
  strategy = record c.strategy { resource_store = resources };
}

unfoldable pub share_network : GlobalLoadContext → ResourceStore → RmsSimulator → RmsSimulator
unfolding share
share_network context resources r = record r {
  base = record r.base { resource_store = resources };
  network_schedule = share context resources r.network_schedule;
  network_shadow_schedule = Dict.map_values (share context resources) r.network_shadow_schedule;
}

-- What a call changes, through the reference to the schedule. What it does to what is shared, the
-- other copies see, and of the store of the resources also the base.
unfoldable pub put_nodes : RmsSimulator → Option String → Context NodeStrategy → RmsSimulator
unfolding share_nodes
put_nodes r none c = share_nodes c.load_buffer.context (record r { node_schedule = c })
put_nodes r (some shadow) c =
    share_nodes c.load_buffer.context
      (record r { node_shadow_schedule = Dict.insert shadow c r.node_shadow_schedule })

unfoldable pub put_network : RmsSimulator → Option String → Context LinkStrategy → RmsSimulator
unfolding share_network
put_network r none c =
    share_network c.load_buffer.context c.strategy.resource_store
      (record r { network_schedule = c })
put_network r (some shadow) c =
    share_network c.load_buffer.context c.strategy.resource_store
      (record r { network_shadow_schedule = Dict.insert shadow c r.network_shadow_schedule })

module _ {A : Type 0} (f : Context NodeStrategy → Option (Context NodeStrategy × A))
    (g : Context LinkStrategy → Option (Context LinkStrategy × A)) where
  -- A call of the active schedule.
  unfoldable pub run :
      RmsSimulator → Store → ℤ → Option String → ActiveSchedule → Option (RmsSimulator × Store × A)
  unfolding open_nodes open_network put_nodes put_network
  run r store now shadow (on_nodes c) = do
    (c', a) ← f (open_nodes store now c)
    some (put_nodes r shadow c', c'.reservation_store, a)
  run r store now shadow (on_network c) = do
    (c', a) ← g (open_network store now r.base.resource_store c)
    some (put_network r shadow c', c'.reservation_store, a)

  unfoldable pub call :
      RmsSimulator → Store → ℤ → ℕ → Option String → Option (RmsSimulator × Store × A)
  unfolding get_active_schedule run
  call r store now id shadow = do
    active ← get_active_schedule r store shadow id
    run r store now shadow active

-- A call without a result.
unfoldable pub no_result : {St : Type 0} → Option (Context St) → Option (Context St × Unit {0})
no_result c = map_option (λ c. (c, tt)) c

unfoldable pub delete_task :
    RmsSimulator → Store → ℤ → ℕ → Option String → Option (RmsSimulator × Store)
unfolding call no_result
delete_task r store now id shadow = do
  (r', store', u) ←
      call (λ c. no_result (Operations.delete_reservation c id))
        (λ c. no_result (Operations.delete_reservation c id)) r store now id shadow
  some (r', store')

unfoldable pub has_shadow : RmsSimulator → String → Bool × Bool
has_shadow r shadow = (
  is_some (Dict.get shadow r.network_shadow_schedule),
  is_some (Dict.get shadow r.node_shadow_schedule),
)

-- Neither insertion finds an old entry, which the source tests once more.
unfoldable pub create_shadow_schedule : RmsSimulator → String → RmsSimulator × Bool
unfolding has_shadow
create_shadow_schedule r shadow =
    let (network, nodes) = has_shadow r shadow in
    if network || nodes then (r, false) else (
      record r {
        node_shadow_schedule = Dict.insert shadow r.node_schedule r.node_shadow_schedule;
        network_shadow_schedule = Dict.insert shadow r.network_schedule r.network_shadow_schedule;
      },
      true,
    )

-- Both shadow copies leave their maps.
unfoldable pub remove_shadow : RmsSimulator → String → RmsSimulator
remove_shadow r shadow = record r {
  node_shadow_schedule = Dict.remove shadow r.node_shadow_schedule;
  network_shadow_schedule = Dict.remove shadow r.network_shadow_schedule;
}

unfoldable pub promote_shadow :
    RmsSimulator
    → String
    → Option (Context NodeStrategy)
    → Option (Context LinkStrategy)
    → RmsSimulator × Bool
unfolding remove_shadow
promote_shadow r shadow (some nodes) (some network) =
    (record (remove_shadow r shadow) { node_schedule = nodes; network_schedule = network }, true)
promote_shadow r shadow (some nodes) none = (r, false)
promote_shadow r shadow none network = (r, false)

unfoldable pub commit_shadow_schedule : RmsSimulator → String → RmsSimulator × Bool
unfolding promote_shadow
commit_shadow_schedule r shadow =
    promote_shadow r shadow (Dict.get shadow r.node_shadow_schedule)
      (Dict.get shadow r.network_shadow_schedule)

-- The result tells whether there was nothing to remove, although both copies were found before.
unfoldable pub delete_shadow_schedule : RmsSimulator → String → RmsSimulator × Bool
unfolding has_shadow remove_shadow
delete_shadow_schedule r shadow =
    let (network, nodes) = has_shadow r shadow in
    if network && nodes then (remove_shadow r shadow, not nodes && not network) else (r, false)

unfoldable pub can_handle_adc_request : RmsSimulator → Reservation → Bool
can_handle_adc_request r (node n) = Resource.can_handle_adc_request r.base.resource_store (node n)
can_handle_adc_request r (link l) = Resource.can_handle_adc_request r.base.resource_store (link l)
can_handle_adc_request r (workflow w) = false

unfoldable pub can_handle_aci_request : RmsSimulator → Store → ℕ → Option Bool
can_handle_aci_request r store id =
    if Read.is_link store id || Read.is_node store id
    then Resource.can_handle_aci_request r.base.resource_store store id
    else some false
