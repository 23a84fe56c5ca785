-- ===== src/Aci/Tracking.antt =====
-- What a component tracks of its reservations, over any resource management system (aci.rs).
use vrm_rust.Base.{
  ℕ, String, Bool, true, false, Option, none, some, string_eq, nat_eq, if◌then◌else◌, ◌>>=◌, ◌≡◌,
  refl, ap, sym, ◌∙◌, arith, bind-some, Bool-cases, inl, inr, is_some, beq_refl, subst,
}
use vrm_rust.Base.Dict
use vrm_rust.Base.Dict.{Dict}
use vrm_rust.Base.Int.{ℤ}
use vrm_rust.Base.I64.{◌+i◌}
use vrm_rust.Reservation.Fields.{rejected, reserve_answer}
use vrm_rust.Rms.{AdvanceReservationRms}
use vrm_rust.Store.{Store}
use vrm_rust.Store.Read
use vrm_rust.Store.Read.{get_state, get, read}
use vrm_rust.Store.Update.{update_state, get_state-update_state}
use vrm_rust.Aci
use vrm_rust.Aci.{Aci, in_step, commit_known, commit_container, take_container, delete_taken}
use vrm_rust.Aci.Requests
use vrm_rust.Aci.Requests.{reserve_valid, reserve_handled, reserve_answered, keep_container}
use vrm_rust.Aci.Shadows
use vrm_rust.Aci.Shadows.{ReservationContainer, ShadowScheduleReservations}

-- An unknown reservation counts as rejected, so that after its rejection every one is.
get_state-rejected : (s : Store) (id : ℕ) → get_state (update_state s id rejected) id ≡ rejected
unfolding get_state read get
get_state-rejected s id = ground (arith, get_state-update_state s id id rejected)

of_some : {A : Type 0} (P : A → Type 0) (x y : A) → P x → some x ≡ some y → P y
of_some P x y p e = let q : x ≡ y = cc in subst P q p

-- A map that took a new schedule knows it.
pub insert_known :
    (m : ShadowScheduleReservations) (shadow : String) (containers : Dict ℕ ReservationContainer)
    → (Shadows.insert m shadow containers).1 ≡ true
    → is_some (Dict.get shadow (Shadows.insert m shadow containers).0) ≡ true
unfolding Shadows.insert
insert_known m shadow containers e = elim (Bool-cases (is_some (Dict.get shadow m))) [
  | inl known ↦ absurd (let p = rw known at e in cc)
  | inr fresh ↦ rw (fresh, Dict.get-insert shadow shadow containers m, beq_refl shadow) refl
]

module _ {R : Type 0} (rms : AdvanceReservationRms R) where
  -- Nothing but the state of the RMS has changed, and the reservation is rejected.
  abbrev Refused : Aci R → ℕ → Aci R × Store × ℕ → Type 0
  Refused a id (a', s', n) =
      (get_state s' id ≡ rejected) × (a' ≡ record a { rms_system = a'.rms_system })

  -- Over any resource management system, a commit of a reservation that the component holds as not
  -- committed and that is in the state ReserveAnswer succeeds and moves its container to the
  -- committed ones; a deletion after it, from the master schedule, only rejects the reservation:
  -- the resource management system is not asked and the container stays.
  pub delete-commit :
      (a : Aci R) (s : Store) (now : ℤ) (id : ℕ) (container : ReservationContainer)
      → Dict.get id a.not_committed_reservations ≡ some container
      → get_state s id ≡ reserve_answer
      → (a1 : Aci R) × (s1 : Store) × (a2 : Aci R) × (Aci.commit rms a s now id
          ≡ some (a1, s1, true))
        × (Dict.get id a1.committed_reservations ≡ some container)
        × (Aci.delete rms a1 s1 now id none ≡ some (a2, update_state s1 id rejected, id))
        × (Dict.get id a2.committed_reservations ≡ some container)
        × (a2.rms_system ≡ a.rms_system)
  unfolding Aci.commit commit_known commit_container Aci.delete delete_taken take_container
  delete-commit a s now id container e state =
      let a1 : Aci R = record a {
        not_committed_reservations = Dict.remove id a.not_committed_reservations;
        committed_reservations = Dict.insert id container a.committed_reservations;
      } in
      let a2 : Aci R = record a1 {
        not_committed_reservations = Dict.remove id a1.not_committed_reservations;
      } in
      let kept : Dict.get id (Dict.insert id container a.committed_reservations) ≡ some container =
        Dict.get-insert id id container a.committed_reservations ∙ rw (beq_refl id) refl in
      let gone : Dict.get id (Dict.remove id a.not_committed_reservations) ≡ none =
        Dict.get-remove id id a.not_committed_reservations ∙ rw (beq_refl id) refl in
      (a1, rms.commit a.rms_system s id, a2, rw (e, state) refl, kept, rw gone refl, kept, refl)

  keep-Refused :
      (a : Aci R) (s : Store) (id got : ℕ) (container : ReservationContainer) (shadow : String)
      → is_some (Dict.get shadow a.shadow_schedule_reservations) ≡ true
      → Refused a id (keep_container rms a s id got container (some shadow))
  unfolding keep_container Shadows.insert
  keep-Refused a s id got container shadow h = rw h (get_state-rejected s id, refl)

  answered-Refused :
      (a : Aci R) (s : Store) (now : ℤ) (id : ℕ) (shadow : String) (answer : Option ℕ)
      (result : Aci R × Store × ℕ)
      → is_some (Dict.get shadow a.shadow_schedule_reservations) ≡ true
      → reserve_answered rms a s now id (some shadow) answer ≡ some result
      → Refused a id result
  unfolding reserve_answered
  answered-Refused a s now id shadow none result h e =
      of_some (Refused a id) (a, update_state s id rejected, id) result
        (get_state-rejected s id, refl) e
  answered-Refused a s now id shadow (some got) result h e =
      let s' =
        if Read.is_reservation_state_at_least s id reserve_answer
        then s
        else update_state s got rejected in
      let kept = λ (owner : String) (assigned_end : ℤ).
        keep_container rms a s' id got
          (record {
            owner = owner;
            commit_deadline = assigned_end;
            execution_deadline = now +i a.commit_timeout;
          })
          (some shadow) in
      let (owner, eo, e1) =
        bind-some (Read.get_client_id s' got)
          (λ owner. Read.get_assigned_end s' got >>= λ assigned_end. some (kept owner assigned_end))
          result e in
      let (assigned_end, ea, e2) =
        bind-some (Read.get_assigned_end s' got) (λ assigned_end. some (kept owner assigned_end))
          result e1 in
      of_some (Refused a id) (kept owner assigned_end) result
        (keep-Refused a s' id got
          (record {
            owner = owner;
            commit_deadline = assigned_end;
            execution_deadline = now +i a.commit_timeout;
          })
          shadow h)
        e2

  handled-Refused :
      (a : Aci R) (s : Store) (now : ℤ) (id : ℕ) (shadow : String) (can_handle : Bool)
      (result : Aci R × Store × ℕ)
      → is_some (Dict.get shadow a.shadow_schedule_reservations) ≡ true
      → reserve_handled rms a s now id (some shadow) can_handle ≡ some result
      → Refused a id result
  unfolding reserve_handled
  handled-Refused a s now id shadow false result h e =
      of_some (Refused a id) (a, update_state s id rejected, id) result
        (get_state-rejected s id, refl) e
  handled-Refused a s now id shadow true result h e =
      let ((r, s', answer), er, e1) =
        bind-some (rms.reserve a.rms_system s now id (some shadow))
          (λ p. reserve_answered rms (record a { rms_system = p.0 }) p.1 now id (some shadow) p.2)
          result e in
      answered-Refused (record a { rms_system = r }) s' now id shadow answer result h e1

  -- A reserve for a shadow schedule that the component knows.
  reserve-Refused :
      (a : Aci R) (s : Store) (now : ℤ) (id : ℕ) (shadow : String) (valid : Bool)
      (result : Aci R × Store × ℕ)
      → is_some (Dict.get shadow a.shadow_schedule_reservations) ≡ true
      → reserve_valid rms a s now id (some shadow) valid ≡ some result
      → Refused a id result
  unfolding reserve_valid
  reserve-Refused a s now id shadow false result h e =
      of_some (Refused a id) (a, update_state s id rejected, id) result
        (get_state-rejected s id, refl) e
  reserve-Refused a s now id shadow true result h e =
      let (can_handle, ec, e1) =
        bind-some (rms.can_handle_aci_request a.rms_system s id)
          (λ can_handle. reserve_handled rms a s now id (some shadow) can_handle) result e in
      handled-Refused a s now id shadow can_handle result h e1

  pub in_step-true :
      (a a1 : Aci R) (answer : R × Bool) (change : ShadowScheduleReservations × Bool)
      → in_step rms a answer change ≡ some (a1, true)
      → (change.1 ≡ true) × (a1.shadow_schedule_reservations ≡ change.0)
  unfolding in_step
  in_step-true a a1 (r, false) change e = absurd (cc)
  in_step-true a a1 (r, true) (shadows, false) e = absurd (cc)
  in_step-true a a1 (r, true) (shadows, true) e =
      let p : record a { rms_system = r; shadow_schedule_reservations = shadows } ≡ a1 = cc in
      (refl, ap (λ (a : Aci R). a.shadow_schedule_reservations) (sym p))

  -- Over any resource management system, after a component has created a shadow schedule, a
  -- reserve for it that comes to a result leaves the reservation rejected, and of the component
  -- only the state of its resource management system can have changed: no container is kept.
  pub reserve-create_shadow_schedule :
      (a a1 a2 : Aci R) (shadow : String) (s s2 : Store) (now : ℤ) (id n : ℕ)
      → Aci.create_shadow_schedule rms a shadow ≡ some (a1, true)
      → Requests.reserve rms a1 s now id (some shadow) ≡ some (a2, s2, n)
      → (get_state s2 id ≡ rejected) × (a2 ≡ record a1 { rms_system = a2.rms_system })
  unfolding Aci.create_shadow_schedule Requests.reserve
  reserve-create_shadow_schedule a a1 a2 shadow s s2 now id n created reserved =
      let (fresh, shadows) =
        in_step-true a a1 (rms.create_shadow_schedule a.rms_system shadow)
          (Shadows.insert a.shadow_schedule_reservations shadow a.committed_reservations) created in
      reserve-Refused a1 s now id shadow (Read.is_reserve_request_valid s id) (a2, s2, n)
        (ap (λ m. is_some (Dict.get shadow m)) shadows
          ∙ insert_known a.shadow_schedule_reservations shadow a.committed_reservations fresh)
        reserved
