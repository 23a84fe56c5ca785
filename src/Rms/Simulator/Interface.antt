-- ===== src/Rms/Simulator/Interface.antt =====
-- The simulator as the resource management system of a component: the calls of its schedules and its
-- measures (src/vrm/rms/advance_reservation_trait.rs and rms_node_network_trait.rs).
use vrm_rust.Base.{ℕ, String, Bool, Option, some, string_eq, ◌>>=◌}
use vrm_rust.Base.Dict.{Dict}
use vrm_rust.Base.Floats.{F64, Floats}
use vrm_rust.Base.Int.{ℤ}
use vrm_rust.Reservation.Kinds.{Reservation}
use vrm_rust.Reservation.ProbeReservations.{ProbeReservations, ProbeReservationComparator}
use vrm_rust.Resource
use vrm_rust.Resource.{ResourceStore}
use vrm_rust.Rms.{RmsBase, RmsLoadMetric, AdvanceReservationRms}
use vrm_rust.Rms
use vrm_rust.Schedule.Context.{Context}
use vrm_rust.Schedule.LinkStrategy
use vrm_rust.Schedule.LinkStrategy.{LinkStrategy, link_strategy}
use vrm_rust.Schedule.NodeStrategy
use vrm_rust.Schedule.NodeStrategy.{NodeStrategy, node_strategy}
use vrm_rust.Schedule.Operations
use vrm_rust.Schedule.Update.{update}
use vrm_rust.Store.{Store}
use vrm_rust.Rms.Simulator.{
  RmsSimulator, open_nodes, open_network, nodes_of, network_of, put_nodes, put_network, call,
  delete_task, create_shadow_schedule, commit_shadow_schedule, delete_shadow_schedule,
  can_handle_adc_request, can_handle_aci_request,
}

module _ (fl : Floats) (fragmentation : Context NodeStrategy → Bool → ℤ → ℤ → F64)
    (new_key : Dict ℕ Reservation → ℕ) where
  unfoldable pub probe :
      RmsSimulator
      → Store
      → ℤ
      → ℕ
      → Option String
      → Option (RmsSimulator × Store × ProbeReservations)
  unfolding call
  probe r store now id shadow =
      call (λ c. Operations.probe (node_strategy fl fragmentation) fl new_key c id)
        (λ c. Operations.probe link_strategy fl new_key c id) r store now id shadow

  unfoldable pub probe_best :
      RmsSimulator
      → Store
      → ℤ
      → ℕ
      → ProbeReservationComparator
      → Option String
      → Option (RmsSimulator × Store × ProbeReservations)
  unfolding call
  probe_best r store now id comparator shadow =
      call (λ c. Operations.probe_best (node_strategy fl fragmentation) fl new_key c id comparator)
        (λ c. Operations.probe_best link_strategy fl new_key c id comparator) r store now id shadow

  unfoldable pub reserve :
      RmsSimulator → Store → ℤ → ℕ → Option String → Option (RmsSimulator × Store × Option ℕ)
  unfolding call
  reserve r store now id shadow =
      call (λ c. Operations.reserve (node_strategy fl fragmentation) c id)
        (λ c. Operations.reserve link_strategy c id) r store now id shadow

  -- The measures ask both schedules, the fragmentation the network first. The network's own measures
  -- change nothing.
  unfoldable pub get_fragmentation :
      RmsSimulator → Store → ℤ → ℤ → ℤ → Option String → Option (RmsSimulator × Store × F64)
  get_fragmentation r store now start end_time shadow = do
    network ← network_of r shadow
    nodes ← nodes_of r shadow
    let of_links = LinkStrategy.get_fragmentation network start end_time
    (nodes', of_nodes) ←
        NodeStrategy.get_fragmentation fl fragmentation (open_nodes store now nodes) start end_time
    some (put_nodes r shadow nodes', nodes'.reservation_store, fl.add of_links of_nodes)

  unfoldable pub get_system_fragmentation :
      RmsSimulator → Store → ℤ → Option String → Option (RmsSimulator × Store × F64)
  get_system_fragmentation r store now shadow = do
    network ← network_of r shadow
    nodes ← nodes_of r shadow
    (network', of_links) ←
        LinkStrategy.get_system_fragmentation (open_network store now r.base.resource_store network)
    (nodes', of_nodes) ←
        NodeStrategy.get_system_fragmentation fl fragmentation (open_nodes store now nodes)
    some (put_nodes r shadow nodes', nodes'.reservation_store, fl.add of_links of_nodes)

  unfoldable pub get_load_metric :
      RmsSimulator → Store → ℤ → ℤ → Option String → Option RmsLoadMetric
  get_load_metric r store start end_time shadow = do
    nodes ← nodes_of r shadow
    network ← network_of r shadow
    some (record {
      node_load_metric = some (NodeStrategy.get_load_metric fl fragmentation nodes start end_time);
      link_load_metric = some (LinkStrategy.get_load_metric network start end_time);
    })

  -- Both schedules are brought up to date first.
  unfoldable pub get_load_metric_up_to_date :
      RmsSimulator
      → Store
      → ℤ
      → ℤ
      → ℤ
      → Option String
      → Option (RmsSimulator × Store × RmsLoadMetric)
  get_load_metric_up_to_date r store now start end_time shadow = do
    nodes ← nodes_of r shadow
    network ← network_of r shadow
    nodes' ← update (open_nodes store now nodes)
    network' ← update (open_network nodes'.reservation_store now r.base.resource_store network)
    some (
      put_network (put_nodes r shadow nodes') shadow network',
      network'.reservation_store,
      record {
        node_load_metric =
            some (NodeStrategy.get_load_metric fl fragmentation nodes' start end_time);
        link_load_metric = some (LinkStrategy.get_load_metric network' start end_time);
      },
    )

  unfoldable pub get_simulation_load_metric :
      RmsSimulator → Option String → Option (RmsSimulator × RmsLoadMetric)
  get_simulation_load_metric r shadow = do
    nodes ← nodes_of r shadow
    network ← network_of r shadow
    let (nodes', of_nodes) = NodeStrategy.get_simulation_load_metric fl fragmentation nodes
    let (network', of_links) = LinkStrategy.get_simulation_load_metric network
    some (
      put_nodes r shadow nodes',
      record { node_load_metric = some of_nodes; link_load_metric = some of_links },
    )

  abbrev pub rms_simulator : AdvanceReservationRms RmsSimulator
  rms_simulator = record {
    get_total_capacity = λ r. Resource.get_total_capacity r.base.resource_store;
    get_total_link_capacity = λ r. Resource.get_total_link_capacity r.base.resource_store;
    get_total_node_capacity = λ r. Resource.get_total_node_capacity r.base.resource_store;
    get_link_resource_count = λ r. Resource.get_num_of_links r.base.resource_store;
    can_handle_adc_request = can_handle_adc_request;
    can_handle_aci_request = can_handle_aci_request;
    probe = probe;
    probe_best = probe_best;
    reserve = reserve;
    commit = λ r store id. Rms.commit store id;
    delete_task = delete_task;
    create_shadow_schedule = create_shadow_schedule;
    commit_shadow_schedule = commit_shadow_schedule;
    delete_shadow_schedule = delete_shadow_schedule;
    get_fragmentation = get_fragmentation;
    get_system_fragmentation = get_system_fragmentation;
    get_load_metric = get_load_metric;
    get_load_metric_up_to_date = get_load_metric_up_to_date;
    get_simulation_load_metric = get_simulation_load_metric;
  }
