-- ===== src/Reservation/ProbeReservations/Best.antt =====
-- The best candidate is a least one, and its promotion changes the reservation's times and state.
use mathlib.Core.List.{Memᴰ}
use vrm_rust.Base.{
  ℕ, String, ◌≡◌, refl, ◌∙◌, ap, ◌⊎◌, inl, inr, Bool-cases, Bool, true, false, Option, none, some,
  [], ◌∷◌, arith, All, if◌then◌else◌, nat_eq, string_eq, map_option, ◌==◌, nat_beq, subst,
}
use vrm_rust.Base.Int.{◌≤ℤ◌}
use vrm_rust.Base.Dict
use vrm_rust.Base.Dict.{Dict}
use vrm_rust.Reservation.Fields
use vrm_rust.Reservation.Fields.{ReservationBase}
use vrm_rust.Reservation.Kinds.{Reservation, map_base}
use vrm_rust.Reservation.ProbeReservations.{
  best_entry, ProbeReservations, ProbeReservationComparator, compare_key, better, best_from,
  get_best_probe_reservation_id, promote,
}
use vrm_rust.Store.{Store}
use vrm_rust.Store.Read.{get}
use vrm_rust.Store.Update
use vrm_rust.Store.Update.{write, get-write, update_state}
use vrm_rust.Reservation.Trait

-- No candidate of the list comes before `r`.
abbrev pub IsLeast : ProbeReservationComparator → Reservation → Dict String Reservation → Type 0
IsLeast c r m = All (λ e. compare_key c r ≤ℤ compare_key c e.1) m

IsLeast-mono :
    (c : ProbeReservationComparator) (r q : Reservation) (m : Dict String Reservation)
    → compare_key c r ≤ℤ compare_key c q
    → IsLeast c q m
    → IsLeast c r m
IsLeast-mono c r q [] h l = tt
IsLeast-mono c r q (e ∷ m) h l = (omega arith, IsLeast-mono c r q m h l.1)

better_cases :
    (c : ProbeReservationComparator) (best x : String × Reservation)
    → (compare_key c (better c best x).1 ≤ℤ compare_key c best.1)
      × (compare_key c (better c best x).1 ≤ℤ compare_key c x.1)
      × ((better c best x ≡ best) ⊎ (better c best x ≡ x))
unfolding better
better_cases c best x = ground arith

best_from-le :
    (c : ProbeReservationComparator) (best : String × Reservation) (m : Dict String Reservation)
    → compare_key c (best_from c best m).1 ≤ℤ compare_key c best.1
unfolding best_from
best_from-le c best [] = omega arith
best_from-le c best (x ∷ m) =
    omega (arith, better_cases c best x, best_from-le c (better c best x) m)

best_from-IsLeast :
    (c : ProbeReservationComparator) (best : String × Reservation) (m : Dict String Reservation)
    → IsLeast c (best_from c best m).1 (best ∷ m)
unfolding best_from
best_from-IsLeast c best [] = (omega arith, tt)
best_from-IsLeast c best (x ∷ m) =
    let rest = best_from-IsLeast c (better c best x) m in
    let cases = better_cases c best x in
    (
      omega (arith, cases.0, best_from-le c (better c best x) m),
      (omega (arith, cases.1, best_from-le c (better c best x) m), rest.1),
    )

best_from-mem :
    (c : ProbeReservationComparator) (best : String × Reservation) (m : Dict String Reservation)
    → Memᴰ (best_from c best m) (best ∷ m)
unfolding best_from
best_from-mem c best [] = Memᴰ.head refl
best_from-mem c best (x ∷ m) = elim (best_from-mem c (better c best x) m) [
  | Memᴰ.head e ↦ elim (better_cases c best x).2 [
    | inl b ↦ Memᴰ.head (e ∙ b)
    | inr b ↦ Memᴰ.tail (Memᴰ.head (e ∙ b))
  ]
  | Memᴰ.tail t ↦ Memᴰ.tail (Memᴰ.tail t)
]

-- The id that the search for the best candidate returns is that of a stored candidate before which
-- no stored candidate comes in the order of the comparator.
pub best_entry-IsLeast :
    (p : ProbeReservations) (id : ℕ) (c : ProbeReservationComparator) (best_id : String)
    → get_best_probe_reservation_id p id c ≡ some best_id
    → (r : Reservation) × Memᴰ (best_id, r) p.local_reservation_store
      × IsLeast c r p.local_reservation_store
unfolding get_best_probe_reservation_id
best_entry-IsLeast p id c best_id e =
    go p.local_reservation_store (nat_beq id p.original_reservation_id) e
  where
    go :
        (m : Dict String Reservation) (b : Bool)
        → (if b then map_option (λ (e : String × Reservation). e.0) (best_entry c m) else none)
          ≡ some best_id
        → (r : Reservation) × Memᴰ (best_id, r) m × IsLeast c r m
    go m false e = cc
    go [] true e = cc
    go (x ∷ m) true e =
        let b = best_from c x m in
        let h : b.0 ≡ best_id = cc in
        (b.1, subst (λ k. Memᴰ (k, b.1) (x ∷ m)) h (best_from-mem c x m), best_from-IsLeast c x m)

-- What a promotion takes over from the candidate.
abbrev pub take_over : ReservationBase → ReservationBase → ReservationBase
take_over b o = record o {
  booking_interval_start = b.booking_interval_start;
  booking_interval_end = b.booking_interval_end;
  assigned_start = b.assigned_start;
  assigned_end = b.assigned_end;
  state = b.state;
}

map_base-take_over :
    (b : ReservationBase) (r : Reservation)
    → map_base
        (λ o. Trait.set_state o b.state)
        (map_base
          (λ o. Trait.set_assigned_end o b.assigned_end)
          (map_base
            (λ o. Trait.set_assigned_start o b.assigned_start)
            (map_base
              (λ o. Trait.set_booking_interval_end o b.booking_interval_end)
              (map_base (λ o. Trait.set_booking_interval_start o b.booking_interval_start) r))))
      ≡ map_base (take_over b) r
unfolding map_base Trait.set_state Trait.set_assigned_end Trait.set_assigned_start
    Trait.set_booking_interval_end Trait.set_booking_interval_start
map_base-take_over b (Reservation.workflow w) = refl
map_base-take_over b (Reservation.node w) = refl
map_base-take_over b (Reservation.link w) = refl

map_option-take_over :
    (b : ReservationBase) (o : Option Reservation)
    → map_option (map_base (λ o. Trait.set_state o b.state)) (
        map_option (map_base (λ o. Trait.set_assigned_end o b.assigned_end)) (
          map_option (map_base (λ o. Trait.set_assigned_start o b.assigned_start)) (
            map_option (map_base (λ o. Trait.set_booking_interval_end o b.booking_interval_end)) (
              map_option
                (map_base (λ o. Trait.set_booking_interval_start o b.booking_interval_start))
                o))))
      ≡ map_option (map_base (take_over b)) o
map_option-take_over b none = refl
map_option-take_over b (some r) = ap some (map_base-take_over b r)

get-update_state :
    (s : Store) (id j : ℕ) (x : Fields.ReservationState)
    → get (update_state s id x) j
      ≡ (if id == j then map_option (map_base (λ b. Trait.set_state b x)) (get s j) else get s j)
unfolding update_state get
get-update_state s id j x =
    ground (arith, Dict.get-modify id j (map_base (λ b. Trait.set_state b x)) s.slots)

-- A promotion gives the named reservation the candidate's interval, assigned times and state. All
-- else of it stays, its capacity and duration included, and every other reservation is as before.
pub get-promote :
    (s : Store) (id j : ℕ) (b : ReservationBase)
    → get (promote s id b) j
      ≡ (if id == j then map_option (map_base (take_over b)) (get s j) else get s j)
unfolding promote Update.set_booking_interval_start Update.set_booking_interval_end
    Update.set_assigned_start Update.set_assigned_end
get-promote s id j b = elim (Bool-cases (id == j)) [
  | inl same ↦ simp (get-update_state, get-write, same) (map_option-take_over b (get s j))
  | inr other ↦ simp (get-update_state, get-write, other)
]
