-- ===== src/Aci/Requests.antt =====
-- The requests to a component, probe and reserve (src/vrm/vrm_component/aci.rs).
use vrm_rust.Base.{
  ℕ, String, Bool, true, false, Option, none, some, [], ◌∷◌, string_eq, nat_eq, if◌then◌else◌,
  ◌>>=◌,
}
use vrm_rust.Base.Dict
use vrm_rust.Base.Dict.{Dict}
use vrm_rust.Base.Int.{ℤ}
use vrm_rust.Base.I64.{◌+i◌}
use vrm_rust.Reservation.Fields.{rejected, reserve_answer}
use vrm_rust.Reservation.ProbeReservations
use vrm_rust.Reservation.ProbeReservations.{
  ProbeReservations, ProbeReservationComparator, add_probe_meta_data,
}
use vrm_rust.Rms.{AdvanceReservationRms}
use vrm_rust.Aci.Shadows
use vrm_rust.Aci.Shadows.{ShadowScheduleReservations, ReservationContainer}
use vrm_rust.Store.{Store}
use vrm_rust.Store.Read
use vrm_rust.Store.Update.{update_state}
use vrm_rust.Aci.{Aci}

module _ {R : Type 0} (rms : AdvanceReservationRms R) where
  -- The request was refused before it reached a schedule.
  unfoldable pub refuse_probe : Aci R → Store → ℕ → Option (Aci R × Store × ProbeReservations)
  refuse_probe a s id = do
    let s' = update_state s id rejected
    empty ← ProbeReservations.new s' id
    some (a, s', empty)

  -- The candidates get the component's id, and the request is remembered.
  unfoldable pub tag_probe :
      Aci R → ℕ → Option String → R × Store × ProbeReservations → Aci R × Store × ProbeReservations
  tag_probe a id shadow (r, s, found) = (
    record a {
      rms_system = r;
      open_probe_reservations = Dict.insert id shadow a.open_probe_reservations;
    },
    s,
    add_probe_meta_data found a.id shadow,
  )

  unfoldable pub probe :
      Aci R → Store → ℤ → ℕ → Option String → Option (Aci R × Store × ProbeReservations)
  unfolding refuse_probe tag_probe
  probe a s now id shadow = do
    can_handle ← rms.can_handle_aci_request a.rms_system s id
    if can_handle
        then (do
          answer ← rms.probe a.rms_system s now id shadow
          some (tag_probe a id shadow answer))
        else refuse_probe a s id

  -- The source rejects the reservation twice here.
  unfoldable pub probe_best :
      Aci R
      → Store
      → ℤ
      → ℕ
      → Option String
      → ProbeReservationComparator
      → Option (Aci R × Store × ProbeReservations)
  unfolding refuse_probe tag_probe
  probe_best a s now id shadow comparator = do
    can_handle ← rms.can_handle_aci_request a.rms_system s id
    if can_handle
        then (do
          answer ← rms.probe_best a.rms_system s now id comparator shadow
          some (tag_probe a id shadow answer))
        else refuse_probe a (update_state s id rejected) id

  -- With a shadow schedule the container goes to a new map for it, if there is none yet.
  unfoldable pub keep_container :
      Aci R → Store → ℕ → ℕ → ReservationContainer → Option String → Aci R × Store × ℕ
  unfolding Shadows.insert
  keep_container a s id got container none = (
    record a {
      not_committed_reservations = Dict.insert got container a.not_committed_reservations;
    },
    s,
    id,
  )
  keep_container a s id got container (some shadow) =
      let (shadows, done) =
        Shadows.insert a.shadow_schedule_reservations shadow ((got, container) ∷ []) in
      if done
      then (
        record a {
          shadow_schedule_reservations = shadows;
          not_committed_reservations = Dict.insert got container a.not_committed_reservations;
        },
        s,
        id,
      )
      else (a, update_state s id rejected, id)

  -- What follows the answer of the RMS. A reservation that is not in the state ReserveAnswer is
  -- rejected, but kept all the same.
  unfoldable pub reserve_answered :
      Aci R → Store → ℤ → ℕ → Option String → Option ℕ → Option (Aci R × Store × ℕ)
  unfolding keep_container
  reserve_answered a s now id shadow none = some (a, update_state s id rejected, id)
  reserve_answered a s now id shadow (some got) = do
    let s' =
        (if Read.is_reservation_state_at_least s id reserve_answer
          then s
          else update_state s got rejected)
    owner ← Read.get_client_id s' got
    assigned_end ← Read.get_assigned_end s' got
    some (
        keep_container a s' id got
          (record {
            owner = owner;
            commit_deadline = assigned_end;
            execution_deadline = now +i a.commit_timeout;
          })
          shadow)

  unfoldable pub reserve_handled :
      Aci R → Store → ℤ → ℕ → Option String → Bool → Option (Aci R × Store × ℕ)
  unfolding reserve_answered
  reserve_handled a s now id shadow false = some (a, update_state s id rejected, id)
  reserve_handled a s now id shadow true = do
    (r, s', answer) ← rms.reserve a.rms_system s now id shadow
    reserve_answered (record a { rms_system = r }) s' now id shadow answer

  unfoldable pub reserve_valid :
      Aci R → Store → ℤ → ℕ → Option String → Bool → Option (Aci R × Store × ℕ)
  unfolding reserve_handled
  reserve_valid a s now id shadow false = some (a, update_state s id rejected, id)
  reserve_valid a s now id shadow true = do
    can_handle ← rms.can_handle_aci_request a.rms_system s id
    reserve_handled a s now id shadow can_handle

  unfoldable pub reserve : Aci R → Store → ℤ → ℕ → Option String → Option (Aci R × Store × ℕ)
  unfolding reserve_valid
  reserve a s now id shadow = reserve_valid a s now id shadow (Read.is_reserve_request_valid s id)
