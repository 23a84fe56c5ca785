-- ===== src/Lib.antt =====
-- VRM-Rust: the reservations, schedules, workflows and components of a virtual resource manager.
--
-- A virtual resource manager takes requests for capacity over time, finds where they fit and books
-- them. This library models the core of it: the reservations and their store, the schedules of
-- nodes and networks, the workflows, and a component over its resource management system.
--
-- The parts, and how they work together:
--   Reservation (src/vrm/reservation) holds the data of a reservation (Fields, Kinds), the tests on
--     its lifecycle state (Lifecycle) and the changes of a moldable one (Fields, Trait). A set of
--     ids that a schedule holds is in ActiveReservations (reservations.rs), the candidates that a
--     probe finds and the choice of the best are in ProbeReservations (probe_reservations.rs).
--   Store (src/vrm/reservation/reservation_store.rs) is the table of all reservations, with its
--     indexes and listeners: Read has the queries, Update the writes, Lifetime what enters and
--     leaves, Listener the state listener (vrm_state_listener.rs); Index and Owners are about the
--     indexes. All other parts refer to a reservation by its key and read and change it here.
--   Schedule (src/vrm/schedule) is the timetable of one resource. Slot (slot.rs) is a time slot,
--     Context the state with the ring of slots (slotted_schedule_context.rs), Update the move of
--     the window, Delete how reservations leave, Fit the search, LoadBuffer the past loads
--     (load_buffer.rs). Strategy is the trait by which a resource takes part in the search,
--     NodeStrategy that of a compute node, and Operations the operations (schedule_base.rs), which
--     call the others in the order of the source. The files below a part are about it, and those of
--     Sound about whole schedules.
--   Workflow (src/vrm/workflow) is the graph of a workflow. Types is its data, Dto the description
--     that it is made from (src/schema), Build, Graph and Groups the phases of its construction
--     in workflow.rs and Create their composition and the update; CoAllocation is the duration of
--     a group of tasks that run together (co_allocation.rs), and Rank the rankings of the groups.
--   Resource (src/vrm/resource) is the store of the nodes and links of a component. Topology
--     (topology.rs) builds the network on it and searches the paths between its routers, and
--     Schedule.LinkStrategy (link_strategy.rs) books a link reservation on a path of links, each of
--     which has a schedule of its own in the store of the resources.
--   Rms (src/vrm/rms) is the resource management system of a component: the interface
--     AdvanceReservationRms (advance_reservation_trait.rs, rms.rs), and in Rms.Simulator the
--     simulator (rms_simulator.rs, rms_node_network_trait.rs), which implements it with a schedule
--     of the nodes, one of the network, and shadow copies of both. The copies of a schedule share
--     the context of the load buffer, and the networks the store of the resources; Interface has its calls and measures, Shadowed compares a shadow schedule
--     with the master schedule, Isolation is about one that is deleted, and Planned about one
--     that is committed.
--   Aci (src/vrm/vrm_component/aci.rs) is a component over any such system: it tracks what is
--     reserved, committed and planned in shadow schedules; Requests has probe and
--     reserve, Shadows the map of the shadow schedules.
--   Examples has concrete inputs, and every theorem that has premises at one of them.
--   Base has what the parts share: tests, lists, integers, 64-bit words, maps and sets.
--
-- State and errors: an operation takes the state and gives the new one. The store that the source
-- shares by reference counting is a field of the schedule, or an argument beside the object. Each
-- call of the store holds its lock to the end, so it is one step. `none` stands for a panic of the
-- source where a result is an Option of a state; the comment at the definition says so.
--
-- Numbers: i64 is an integer with the wrap-around of a release build written out in +i, -i and *i
-- (Base/I64.antt). Theorems on times and capacities ask for values below 2^62, where nothing wraps.
-- f64 is carried by its bits.
--
-- Fuel: the loop of try_fit_reservation runs on fuel, the distance from its slot to the last slot of
-- the candidate or of the window, whichever is later, and two. A round moves the slot by one, and a
-- shrunk candidate ends in the window, so this is enough. The ranking runs on
-- rank_fuel: a visit to a group costs two rounds and the visits to its neighbours, which lie
-- lower, and a group has at most as many neighbours as there are dependencies; this is enough where
-- the dependencies make no cycle. The search for paths runs on path_fuel: a path is
-- extended by at most every link, and never gets longer than the number of links; this is enough
-- on every network. All other loops are structural.
--
-- Parameters: new_key is the key that the slot map gives to a new entry, of which theorems ask that
-- it is not in use. debug_str is the text that {:?} makes of a string. Floats is the arithmetic of
-- f64. fragmentation is the value of the two measures of fragmentation.rs. DisjointSets is the
-- union_find crate, of which theorems ask the laws of IsDisjointSets: find gives one number of each
-- set, and a union joins two sets and leaves the others. The iteration over a hash map is in the
-- order of its association list.
--
-- Not modelled: locks and threads, log output, the listeners that a snapshot of the store shares
-- with it, the division by a slot width of 0 and of the least i64 by -1 and the remainder by an
-- empty list of slots (all panic), what a system keeps behind a lock of its own when it commits
-- (commit takes the system by a shared reference), update_nodes
-- of the store of the resources (it waits for a lock of its own), the domain controllers above the
-- components (src/vrm/vrm_component/adc, vrm_component_manager, scheduler), the systems for a real
-- cluster (src/vrm/rms/slurm_rms), and the reading of input files.
pub mod Base
pub mod Schedule
pub mod Reservation
pub mod Workflow
pub mod Store
pub mod Examples
pub mod Resource
pub mod Topology
pub mod Rms
pub mod Aci
