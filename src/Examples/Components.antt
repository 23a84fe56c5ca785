-- ===== src/Examples/Components.antt =====
-- A component over a simulated cluster, with a request that waits to be reserved.
use vrm_rust.Base.{◌⊎◌, true, false, none, some, [], ◌∷◌, string_eq, nat_eq, ◌≡◌, refl, ap, ◌>>=◌}
use vrm_rust.Base.Dict
use vrm_rust.Base.Dict.{Dict}
use vrm_rust.Base.Int.{pos}
use vrm_rust.Reservation.Fields.{rejected, reserve_answer}
use vrm_rust.Reservation.Kinds.{get_base, map_base, get_type}
use vrm_rust.Reservation.Lifecycle
use vrm_rust.Reservation.Trait
use vrm_rust.Resource
use vrm_rust.Resource.{ResourceStore}
use vrm_rust.Rms.{AdvanceReservationRms}
use vrm_rust.Rms.Simulator
use vrm_rust.Rms.Simulator.{
  RmsSimulator, call, run, get_active_schedule, nodes_of, open_nodes, put_nodes, has_shadow,
}
use vrm_rust.Rms.Simulator.Interface
use vrm_rust.Rms.Simulator.Interface.{rms_simulator}
use vrm_rust.Rms.Simulator.Isolation.{LeavesLoads, LeavesBooking, reserve-delete_shadow_schedule}
use vrm_rust.Rms.Simulator.Planned.{reserve-commit_shadow_schedule}
use vrm_rust.Schedule.Context.{Context}
use vrm_rust.Schedule.LinkStrategy.{LinkStrategy}
use vrm_rust.Store.{Store}
use vrm_rust.Store.Read
use vrm_rust.Store.Update.{update_state}
use vrm_rust.Aci
use vrm_rust.Aci.{Aci, in_step}
use vrm_rust.Aci.Requests
use vrm_rust.Aci.Requests.{reserve_valid, reserve_handled, reserve_answered, keep_container}
use vrm_rust.Aci.Shadows
use vrm_rust.Aci.Shadows.{ReservationContainer}
use vrm_rust.Aci.Tracking.{delete-commit, reserve-create_shadow_schedule}
use vrm_rust.Aci.InStep.{create_shadow_schedule-delete_shadow_schedule}
use vrm_rust.Base.{unwrap_or}
use vrm_rust.Base.HashSet
use vrm_rust.Base.I64.{wrap_i64, ◌+i◌, ◌-i◌}
use vrm_rust.Base.Int.{◌+ℤ◌, ◌-ℤ◌, div_euclid, rem_trunc, range, range_inclusive, count_from}
use vrm_rust.Schedule.Context.{get_slot_index, get_slot, get_real_slot_index, put_slot}
use vrm_rust.Schedule.Update.{update}
use vrm_rust.Schedule.Operations
use vrm_rust.Schedule.Delete
use vrm_rust.Schedule.Delete.{is_reservation_valid_for_deletion}
use vrm_rust.Reservation.ActiveReservations
use vrm_rust.Schedule.LinkStrategy.Deletion.{delete_reservation-strategy}
use vrm_rust.Examples.Data.{schedule, next_key, store, node_of, base_of}
use vrm_rust.Examples.Runs.{floats, no_fragmentation, waiting, reserved, reserve_succeeds}
use vrm_rust.Examples.Networks.{network, topology}

abbrev resources : ResourceStore
resources = record network {
  nodes = (0, record { base = record { name = "node"; capacity = pos 8 } }) ∷ [];
}

abbrev links : Context LinkStrategy
links = record {
  strategy = record {
    topology = topology;
    reserved_paths = [];
    resource_store = resources;
    max_bandwidth_all_paths = pos 8;
  };
  id = "links";
  slots = schedule.slots;
  slot_width = pos 10;
  start_slot_index = pos 0;
  end_slot_index = pos 3;
  scheduling_window_start_time = pos 0;
  scheduling_window_end_time = pos 39;
  load_buffer = schedule.load_buffer;
  active_reservations = [];
  is_frag_cache_up_to_date = false;
  fragmentation_cache = 0;
  use_quadratic_mean_fragmentation = false;
  is_frag_needed = false;
  reservation_store = waiting.reservation_store;
  system_time = pos 15;
}

abbrev cluster : RmsSimulator
cluster = record {
  base = record { id = "cluster"; resource_store = resources };
  node_schedule = waiting;
  network_schedule = links;
  node_shadow_schedule = [];
  network_shadow_schedule = [];
}

-- The cluster with a shadow schedule, and after the request was reserved in it.
abbrev shadowed : RmsSimulator
shadowed = record cluster {
  node_shadow_schedule = ("plan", waiting) ∷ [];
  network_shadow_schedule = ("plan", links) ∷ [];
}

abbrev planned : RmsSimulator
planned = put_nodes shadowed (some "plan") reserved

plan_succeeds :
    Interface.reserve floats no_fragmentation next_key shadowed waiting.reservation_store
      (pos 15)
      1
      (some "plan")
    ≡ some (planned, reserved.reservation_store, some 1)
unfolding Interface.reserve call run get_active_schedule nodes_of open_nodes put_nodes Dict.get
    Dict.insert Read.is_link Read.is_node Read.get_type_of Read.get get_type
plan_succeeds =
    ap (λ o. o >>= λ p. some (put_nodes shadowed (some "plan") p.0, p.0.reservation_store, p.1))
      reserve_succeeds

shadow_created : Simulator.create_shadow_schedule cluster "plan" ≡ (shadowed, true)
unfolding Simulator.create_shadow_schedule has_shadow Dict.get Dict.insert
shadow_created = refl

reserve-delete_shadow_schedule_example :
    LeavesLoads floats no_fragmentation cluster planned waiting.reservation_store
      reserved.reservation_store
      (pos 15)
      1
      "plan"
      (some 1)
    ⊎ LeavesBooking floats no_fragmentation cluster planned waiting.reservation_store
        reserved.reservation_store
        (pos 15)
        1
        "plan"
        (some 1)
reserve-delete_shadow_schedule_example =
    reserve-delete_shadow_schedule floats no_fragmentation next_key cluster shadowed planned
      waiting.reservation_store reserved.reservation_store (pos 15) 1 "plan" (some 1) shadow_created
      plan_succeeds

reserve-commit_shadow_schedule_example :
    (r3 : RmsSimulator) × (Simulator.commit_shadow_schedule planned "plan" ≡ (r3, true))
    × (Interface.reserve floats no_fragmentation next_key cluster waiting.reservation_store
          (pos 15)
          1
          none
        ≡ some (r3, reserved.reservation_store, some 1))
reserve-commit_shadow_schedule_example =
    reserve-commit_shadow_schedule floats no_fragmentation next_key cluster shadowed planned
      waiting.reservation_store reserved.reservation_store (pos 15) 1 "plan" (some 1) shadow_created
      plan_succeeds

abbrev component : Aci RmsSimulator
component = Aci.new "component" "controller" (pos 60) cluster

abbrev component_shadowed : Aci RmsSimulator
component_shadowed = record component {
  rms_system = shadowed;
  shadow_schedule_reservations = ("plan", []) ∷ [];
}

abbrev simulated : AdvanceReservationRms RmsSimulator
simulated = rms_simulator floats no_fragmentation next_key

creation_succeeds :
    Aci.create_shadow_schedule simulated component "plan" ≡ some (component_shadowed, true)
unfolding Aci.new Aci.create_shadow_schedule in_step Shadows.insert Simulator.create_shadow_schedule
    has_shadow Dict.get Dict.insert
creation_succeeds = refl

create_shadow_schedule-delete_shadow_schedule_example :
    (a2 : Aci RmsSimulator) × (Aci.delete_shadow_schedule simulated component_shadowed "plan"
      ≡ some (a2, false))
    × (Aci.create_shadow_schedule simulated a2 "plan" ≡ none)
create_shadow_schedule-delete_shadow_schedule_example =
    create_shadow_schedule-delete_shadow_schedule floats no_fragmentation next_key component
      component_shadowed "plan" creation_succeeds

-- A system that grants every request.
abbrev granting : AdvanceReservationRms RmsSimulator
granting = record simulated {
  reserve = λ r s now id shadow. some (r, update_state s id reserve_answer, some id);
}

abbrev granted : Store
granted = update_state store 0 reserve_answer

request_ends :
    Requests.reserve granting component_shadowed store (pos 15) 0 (some "plan")
    ≡ some (component_shadowed, update_state granted 0 rejected, 0)
unfolding Aci.new Requests.reserve reserve_valid reserve_handled reserve_answered keep_container
    Shadows.insert Simulator.can_handle_aci_request Resource.can_handle_aci_request
    Resource.can_handle_node_request Resource.node_can_handle Resource.can_handle Resource.any_node
    Read.is_reserve_request_valid Read.is_reservation_state_at_least Read.read Read.get Read.is_link
    Read.is_node Read.get_type_of Read.is_moldable Read.get_reserved_capacity Read.get_client_id
    Read.get_assigned_end Lifecycle.is_reserve_request_valid update_state Trait.set_state Dict.get
    Dict.modify get_base map_base get_type
request_ends = refl

reserve-create_shadow_schedule_example :
    (Read.get_state (update_state granted 0 rejected) 0 ≡ rejected)
    × (component_shadowed ≡ record component_shadowed { rms_system = shadowed })
unfolding Aci.create_shadow_schedule
reserve-create_shadow_schedule_example =
    reserve-create_shadow_schedule granting component component_shadowed component_shadowed "plan"
      store (update_state granted 0 rejected) (pos 15) 0 0 creation_succeeds request_ends

abbrev container : ReservationContainer
container = record { owner = "client"; commit_deadline = pos 20; execution_deadline = pos 75 }

abbrev component_reserved : Aci RmsSimulator
component_reserved = record component { not_committed_reservations = (0, container) ∷ [] }

abbrev answered : Store
answered = record store { slots = (0, node_of (base_of "job" reserve_answer)) ∷ [] }

delete-commit_example :
    (a1 : Aci RmsSimulator) × (s1 : Store) × (a2 : Aci RmsSimulator) × (Aci.commit simulated
        component_reserved answered
        (pos 15)
        0
      ≡ some (a1, s1, true))
    × (Dict.get 0 a1.committed_reservations ≡ some container)
    × (Aci.delete simulated a1 s1 (pos 15) 0 none ≡ some (a2, update_state s1 0 rejected, 0))
    × (Dict.get 0 a2.committed_reservations ≡ some container)
    × (a2.rms_system ≡ component_reserved.rms_system)
unfolding Aci.new Dict.get Read.get_state Read.read Read.get get_base
delete-commit_example =
    delete-commit simulated component_reserved answered (pos 15) 0 container refl refl

abbrev booked_links : Context LinkStrategy
booked_links = record links { active_reservations = 0 ∷ [] }

abbrev freed_links : Context LinkStrategy
freed_links = unwrap_or (Operations.delete_reservation booked_links 0) booked_links

deletion_succeeds : Operations.delete_reservation booked_links 0 ≡ some freed_links
unfolding Operations.delete_reservation update range range_inclusive count_from ◌-ℤ◌ ◌+i◌ ◌-i◌
    wrap_i64 ◌+ℤ◌ get_slot_index div_euclid get_slot get_real_slot_index put_slot rem_trunc Read.get
    Dict.get get_base is_reservation_valid_for_deletion ActiveReservations.contains_key
    HashSet.contains Delete.delete_reservation Read.get_assigned_end Read.get_assigned_start
deletion_succeeds = refl

delete_reservation-strategy_example :
    (freed_links.strategy.resource_store ≡ booked_links.strategy.resource_store)
    × (freed_links.strategy.reserved_paths ≡ booked_links.strategy.reserved_paths)
delete_reservation-strategy_example =
    delete_reservation-strategy booked_links freed_links 0 deletion_succeeds
