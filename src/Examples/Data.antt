-- ===== src/Examples/Data.antt =====
-- The reservations, the store and the schedule of the examples.
use vrm_rust.Base.{
  ℕ, suc, ◌≤◌, ◌≡◌, refl, String, true, false, none, [], ◌∷◌, nat_eq, arith, if◌then◌else◌, leb,
}
use vrm_rust.Base.Dict
use vrm_rust.Base.Dict.{Dict}
use vrm_rust.Base.Int.{pos}
use vrm_rust.Reservation.Fields.{
  ReservationBase, ReservationState, open_state, probe_reservation, reserve,
}
use vrm_rust.Reservation.Kinds.{Reservation, node}
use vrm_rust.Store.{Store}
use vrm_rust.Store.Listener.{VrmStateListener}
use vrm_rust.Store.Index.{IsFresh}
use vrm_rust.Schedule.Slot.{Slot}
use vrm_rust.Schedule.Context.{Context}
use vrm_rust.Schedule.NodeStrategy.{NodeStrategy}

-- A request of 4 nodes for 10 seconds.
abbrev pub base_of : String → ReservationState → ReservationBase
base_of name state = record {
  name = name;
  client_id = "client";
  handler_id = none;
  state = state;
  request_proceeding = reserve;
  arrival_time = pos 0;
  booking_interval_start = pos 0;
  booking_interval_end = pos 100;
  assigned_start = pos 10;
  assigned_end = pos 20;
  task_duration = pos 10;
  reserved_capacity = pos 4;
  is_moldable = true;
  moldable_work = pos 40;
  frag_delta = 0;
}

abbrev pub node_of : ReservationBase → Reservation
node_of base = node (record {
  base = base;
  data_dependencies = [];
  current_working_directory = none;
  environment = none;
  task_path = "task";
  output_path = none;
  error_path = none;
})

abbrev pub job : Reservation
job = node_of (base_of "job" open_state)

abbrev pub candidate : Reservation
candidate = node_of (base_of "job" probe_reservation)

abbrev pub listener : VrmStateListener
listener = record { open_reservations = 0 ∷ 1 ∷ [] }

abbrev pub store : Store
store = record {
  slots = (0, job) ∷ [];
  name_index = ("job", 0) ∷ [];
  client_index = ("client", 0 ∷ []) ∷ [];
  handler_index = [];
  original_to_virtual = [];
  listeners = listener ∷ [];
}

-- A key above all keys in use.
abbrev pub next_key : Dict ℕ Reservation → ℕ
next_key [] = 0
next_key ((k, r) ∷ m) = let n = next_key m in if leb (suc k) n then n else suc k

get-above : (m : Dict ℕ Reservation) (n : ℕ) → next_key m ≤ n → Dict.get n m ≡ none
unfolding Dict.get
get-above [] n h = refl
get-above ((k, r) ∷ m) n h = ground (arith, get-above m n)

pub next_key-IsFresh : IsFresh next_key
next_key-IsFresh m = get-above m (next_key m) (omega arith)

-- A slot of capacity 8 with the job in it.
abbrev pub busy : Slot
busy = record { load = pos 4; capacity = pos 8; reservation_ids = 0 ∷ [] }

abbrev pub idle : Slot
idle = record { load = pos 0; capacity = pos 8; reservation_ids = [] }

-- Four slots of 10 seconds, from second 0 on.
abbrev pub schedule : Context NodeStrategy
schedule = record {
  strategy = tt;
  id = "schedule";
  slots = idle ∷ busy ∷ idle ∷ idle ∷ [];
  slot_width = pos 10;
  start_slot_index = pos 0;
  end_slot_index = pos 3;
  scheduling_window_start_time = pos 0;
  scheduling_window_end_time = pos 39;
  load_buffer = record {
    context = record { first_global_load = pos 0; last_global_load = pos 0 };
    slot_index_last_local_load = pos 0;
    slots_since_last_load = pos 0;
    sum_reserved_capacity = pos 0;
    tail_buffer = [];
  };
  active_reservations = 0 ∷ [];
  is_frag_cache_up_to_date = false;
  fragmentation_cache = 0;
  use_quadratic_mean_fragmentation = false;
  is_frag_needed = false;
  reservation_store = store;
  system_time = pos 15;
}
