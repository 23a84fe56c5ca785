-- ===== src/Examples/Reservations.antt =====
-- Reservations: states, moldable work and the choice of the best candidate.
use mathlib.Core.List.{Memᴰ}
use vrm_rust.Base.{◌≡◌, refl, some, [], ◌∷◌, nat_eq, map_option}
use vrm_rust.Base.Int.{pos, ◌*ℤ◌}
use vrm_rust.Base.I64.{◌*i◌, wrap_i64}
use vrm_rust.Reservation.Fields
use vrm_rust.Reservation.Fields.{
  ReservationBase, open_state, reserve, finished, committed, commit, ReservationState,
}
use vrm_rust.Reservation.Kinds.{Reservation, get_base, map_base}
use vrm_rust.Reservation.Lifecycle.{is_active_task, from_slurm_task_state}
use vrm_rust.Reservation.Moldable.{HasWork, adjust_capacity-HasWork, adjust_capacity_undo}
use vrm_rust.Reservation.Trait
use vrm_rust.Reservation.ProbeReservations.{
  ProbeReservations, est_reservation_compare, best_from, better, is_greater,
  get_best_probe_reservation_id, promote,
}
use vrm_rust.Reservation.ProbeReservations.Best.{
  best_entry-IsLeast, IsLeast, get-promote, take_over,
}
use vrm_rust.Store.Read.{get}
use vrm_rust.Examples.Data.{base_of, node_of, job, candidate, store}

running : from_slurm_task_state "RUNNING" ≡ some committed
unfolding from_slurm_task_state is_active_task
running = refl

abbrev request : ReservationBase
request = base_of "job" open_state

request_work : HasWork request
unfolding ◌*i◌ ◌*ℤ◌ wrap_i64
request_work = refl

adjust_capacity-HasWork_example : HasWork (Trait.adjust_capacity request (pos 3))
adjust_capacity-HasWork_example = adjust_capacity-HasWork request (pos 3) request_work

adjust_capacity_undo_example :
    Fields.adjust_capacity (Fields.adjust_capacity request (pos 3)) (pos 4) ≡ request
adjust_capacity_undo_example = adjust_capacity_undo request 2 3 9 refl refl refl

-- Two candidates, the second of which starts earlier.
abbrev late : Reservation
late = node_of (record request { assigned_start = pos 30 })

abbrev probes : ProbeReservations
probes = record {
  original_reservation_id = 0;
  local_reservation_store = ("job-0", late) ∷ ("job-1", candidate) ∷ [];
  original_reservation = job;
  reservation_idx = 2;
  probe_meta_data = [];
}

best_is_second : get_best_probe_reservation_id probes 0 est_reservation_compare ≡ some "job-1"
unfolding get_best_probe_reservation_id best_from better is_greater get_base
best_is_second = refl

best_entry-IsLeast_example :
    (r : Reservation) × Memᴰ ("job-1", r) probes.local_reservation_store
    × IsLeast est_reservation_compare r probes.local_reservation_store
best_entry-IsLeast_example =
    best_entry-IsLeast probes 0 est_reservation_compare "job-1" best_is_second

get-promote_example :
    get (promote store 0 (get_base candidate)) 0
    ≡ map_option (map_base (take_over (get_base candidate))) (get store 0)
get-promote_example = get-promote store 0 0 (get_base candidate)
