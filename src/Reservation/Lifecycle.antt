-- ===== src/Reservation/Lifecycle.antt =====
-- The tests on the lifecycle state (src/vrm/reservation/reservation.rs).
use vrm_rust.Base.{
  ℕ, ◌≡◌, refl, ◌↔◌, ◌⊎◌, ◌≤◌, ◌<◌, Bool, true, false, String, Option, none, some, arith, leb,
  if◌then◌else◌, ◌==◌, string_eq, ◌||◌,
}
use vrm_rust.Reservation.Fields.{
  ReservationState, rejected, deleted, open_state, probe_answer, probe_reservation,
  reserve_probe_reservation, reserve_answer, committed, finished, external, ReservationProceeding,
  probe, reserve, commit, delete, ignore,
}

-- The place of a state in the order that `derive(PartialOrd, Ord)` gives the enum.
abbrev pub rank : ReservationState → ℕ
rank rejected = 0
rank deleted = 1
rank open_state = 2
rank probe_answer = 3
rank probe_reservation = 4
rank reserve_probe_reservation = 5
rank reserve_answer = 6
rank committed = 7
rank finished = 8
rank external = 9

-- The derived `==` and `>=`.
abbrev pub state_eq : ReservationState → ReservationState → Bool
state_eq a b = vrm_rust.Base.nat_beq (rank a) (rank b)

abbrev pub at_least : ReservationState → ReservationState → Bool
at_least a b = leb (rank b) (rank a)

unfoldable pub is_reserve_request_valid : ReservationState → Bool
is_reserve_request_valid open_state = true
is_reserve_request_valid reserve_probe_reservation = true
is_reserve_request_valid probe_reservation = true
is_reserve_request_valid _ = false

abbrev is_terminal : ReservationState → Bool
is_terminal finished = true
is_terminal rejected = true
is_terminal deleted = true
is_terminal _ = false

unfoldable pub is_reservation_at_cycle_end : ReservationState → ReservationProceeding → Bool
is_reservation_at_cycle_end s commit = is_terminal s
is_reservation_at_cycle_end rejected delete = true
is_reservation_at_cycle_end deleted delete = true
is_reservation_at_cycle_end s delete = false
is_reservation_at_cycle_end s ignore = false
is_reservation_at_cycle_end s probe = is_terminal s || state_eq s probe_answer
is_reservation_at_cycle_end s reserve = is_terminal s || state_eq s reserve_answer

-- The names of the states in which a Slurm task waits or holds its resources.
unfoldable pub is_active_task : String → Bool
is_active_task s = s == "PENDING" || s == "RUNNING" || s == "SUSPENDED" || s == "COMPLETING"

-- The names of the states in which a Slurm task was refused or has failed.
unfoldable pub is_failed_task : String → Bool
is_failed_task s =
    s == "FAILED"
    || s == "TIMEOUT"
    || s == "NODE_FAIL"
    || s == "PREEMPTED"
    || s == "BOOT_FAIL"
    || s == "DEADLINE"
    || s == "OUT_OF_MEMORY"

-- `none` stands for the `Err` with its message.
unfoldable pub from_slurm_task_state : String → Option ReservationState
from_slurm_task_state s =
    if is_active_task s
    then some committed
    else if s == "COMPLETED"
    then some finished
    else if s == "CANCELLED"
    then some deleted
    else if is_failed_task s
    then some rejected
    else none

-- A state in which a reserve request is accepted is at the end of no cycle.
request_valid_not_at_end :
    (s : ReservationState) (p : ReservationProceeding)
    → is_reserve_request_valid s ≡ true
    → is_reservation_at_cycle_end s p ≡ false
unfolding is_reserve_request_valid is_reservation_at_cycle_end
request_valid_not_at_end s p h = ground arith

-- A Slurm task state that is recognised becomes the committed state or one that ends the commit
-- cycle.
from_slurm_end :
    (s : String) (r : ReservationState)
    → from_slurm_task_state s ≡ some r
    → (r ≡ committed) ⊎ (is_reservation_at_cycle_end r commit ≡ true)
unfolding from_slurm_task_state is_reservation_at_cycle_end
from_slurm_end s r h = ground arith
