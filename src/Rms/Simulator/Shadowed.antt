-- ===== src/Rms/Simulator/Shadowed.antt =====
-- A reserve on a new shadow schedule against one on the master schedule (get_active_schedule of
-- rms_simulator.rs, the shadow schedules of rms_node_network_trait.rs, and reserve of
-- advance_reservation_trait.rs).
use vrm_rust.Base.{
  ℕ, String, Bool, true, false, Option, none, some, string_eq, ◌≡◌, refl, ap, ◌∙◌, sym, arith,
  bind-some, inl, inr, Option-cases, Bool-cases, subst, ◌⊎◌, beq_refl,
}
use vrm_rust.Base.Dict
use vrm_rust.Base.Dict.{Dict}
use vrm_rust.Base.Floats.{F64, Floats}
use vrm_rust.Base.Int.{ℤ}
use vrm_rust.Reservation.Kinds.{Reservation}
use vrm_rust.Rms.Simulator.Interface
use vrm_rust.Rms.Simulator.{
  RmsSimulator, ActiveSchedule, on_nodes, on_network, put_nodes, put_network, open_nodes,
  open_network, nodes_of, network_of, run, call, get_active_schedule, has_shadow,
  create_shadow_schedule,
}
use vrm_rust.Schedule.Context.{Context}
use vrm_rust.Schedule.LinkStrategy.{LinkStrategy, link_strategy}
use vrm_rust.Schedule.NodeStrategy.{NodeStrategy, node_strategy}
use vrm_rust.Schedule.Operations
use vrm_rust.Store.{Store}
use vrm_rust.Store.Read

-- The simulator holds no shadow schedule of the id.
pub record IsFree (r : RmsSimulator) (shadow : String) : Type 0 where
  pub no_nodes : Dict.get shadow r.node_shadow_schedule ≡ none
  pub no_network : Dict.get shadow r.network_shadow_schedule ≡ none

-- The simulator with a shadow schedule of the master schedules.
abbrev pub with_shadow : RmsSimulator → String → RmsSimulator
with_shadow r shadow = record r {
  node_shadow_schedule = Dict.insert shadow r.node_schedule r.node_shadow_schedule;
  network_shadow_schedule = Dict.insert shadow r.network_schedule r.network_shadow_schedule;
}

create_shadow_schedule-IsFree :
    (r r1 : RmsSimulator) (shadow : String)
    → create_shadow_schedule r shadow ≡ (r1, true)
    → IsFree r shadow × (with_shadow r shadow ≡ r1)
unfolding create_shadow_schedule has_shadow
create_shadow_schedule-IsFree r r1 shadow e =
    elim (Option-cases (Dict.get shadow r.network_shadow_schedule)) [
      | inr (c, there) ↦ let e' = rw there at e in absurd (ground (arith, ap (λ p. p.1) e'))
      | inl no_network ↦ elim (Option-cases (Dict.get shadow r.node_shadow_schedule)) [
        | inr (c, there) ↦
            let e' = rw (no_network, there) at e in absurd (ground (arith, ap (λ p. p.1) e'))
        | inl no_nodes ↦ (
          record { no_nodes = no_nodes; no_network = no_network },
          let e' = rw (no_network, no_nodes) at e in ap (λ p. p.0) e',
        )
      ]
    ]

-- An id that was inserted is found, and its removal gives back the map from before.
pub insert-remove {ℓ} :
    {V : Type ℓ} (k : String) (v w : V) (m : Dict String V)
    → Dict.get k m ≡ none
    → Dict.remove k (Dict.insert k v (Dict.insert k w m)) ≡ m
insert-remove k v w m h =
    Dict.remove-insert k v (Dict.insert k w m) ∙ Dict.remove-insert k w m ∙ Dict.remove_absent k m h

pub get-inserted {ℓ} :
    {V : Type ℓ} (k : String) (v : V) (m : Dict String V) → Dict.get k (Dict.insert k v m) ≡ some v
get-inserted k v m = Dict.get-insert k k v m ∙ rw (beq_refl k) refl

module _ (r : RmsSimulator) (shadow : String) where
  -- A call on the shadow schedule gets the copy of the network for a link, else that of the nodes.
  active_cases :
      (store : Store) (id : ℕ) (active : ActiveSchedule)
      → get_active_schedule (with_shadow r shadow) store (some shadow) id ≡ some active
      → ((Read.is_link store id ≡ true) × (on_network r.network_schedule ≡ active))
        ⊎ ((Read.is_link store id ≡ false)
            × (Read.is_node store id ≡ true)
            × (on_nodes r.node_schedule ≡ active))
  unfolding get_active_schedule nodes_of network_of
  active_cases store id active e = elim (Bool-cases (Read.is_link store id)) [
    | inl link ↦
        let e' = rw (link, get-inserted shadow r.network_schedule r.network_shadow_schedule) at e in
        inl (link, cc)
    | inr other ↦
        let e' = rw (other, get-inserted shadow r.node_schedule r.node_shadow_schedule) at e in
        elim (Bool-cases (Read.is_node store id)) [
          | inl node ↦ let e2 = rw node at e' in inr (other, node, cc)
          | inr neither ↦ let e2 = rw neither at e' in absurd (ground (arith, e2))
        ]
  ]

module _ (fl : Floats) (fragmentation : Context NodeStrategy → Bool → ℤ → ℤ → F64) where
  -- What a reserve on the new shadow schedule of `r` does for a node, and for a link: it does to the
  -- copy what it does to the master schedule, and the copy is put back.
  abbrev pub PlannedNode :
      RmsSimulator → RmsSimulator → Store → Store → ℤ → ℕ → String → Option ℕ → Type 0
  PlannedNode r r2 store store' now id shadow answer =
      (Read.is_link store id ≡ false)
      × (Read.is_node store id ≡ true)
      × (c : Context NodeStrategy) × (Operations.reserve (node_strategy fl fragmentation)
            (open_nodes store now r.node_schedule) id
          ≡ some (c, answer))
      × (store' ≡ c.reservation_store)
      × (put_nodes (with_shadow r shadow) (some shadow) c ≡ r2)

  abbrev pub PlannedLink :
      RmsSimulator → RmsSimulator → Store → Store → ℤ → ℕ → String → Option ℕ → Type 0
  PlannedLink r r2 store store' now id shadow answer =
      (Read.is_link store id ≡ true)
      × (c : Context LinkStrategy) × (Operations.reserve link_strategy
            (open_network store now r.base.resource_store r.network_schedule) id
          ≡ some (c, answer))
      × (store' ≡ c.reservation_store)
      × (put_network (with_shadow r shadow) (some shadow) c ≡ r2)

  run_cases :
      (r r2 : RmsSimulator) (store store' : Store) (now : ℤ) (id : ℕ) (shadow : String)
      (answer : Option ℕ) (active : ActiveSchedule)
      → ((Read.is_link store id ≡ true) × (on_network r.network_schedule ≡ active))
        ⊎ ((Read.is_link store id ≡ false)
            × (Read.is_node store id ≡ true)
            × (on_nodes r.node_schedule ≡ active))
      → run
          (λ c. Operations.reserve (node_strategy fl fragmentation) c id)
          (λ c. Operations.reserve link_strategy c id)
          (with_shadow r shadow)
          store
          now
          (some shadow)
          active
        ≡ some (r2, store', answer)
      → PlannedNode r r2 store store' now id shadow answer
        ⊎ PlannedLink r r2 store store' now id shadow answer
  unfolding run
  run_cases r r2 store store' now id shadow answer (on_nodes c) (inl (link, e)) er =
      absurd (ground arith)
  run_cases r r2 store store' now id shadow answer (on_network c) (inr (other, node, e)) er =
      absurd (ground arith)
  run_cases r r2 store store' now id shadow answer (on_network c) (inl (link, e)) er =
      let same : r.network_schedule ≡ c = cc in
      let ((c', x), ec, e1) =
        bind-some
          (Operations.reserve link_strategy (open_network store now r.base.resource_store c) id)
          (λ p.
            some (put_network (with_shadow r shadow) (some shadow) p.0, p.0.reservation_store, p.1))
          (r2, store', answer) er in
      let after : put_network (with_shadow r shadow) (some shadow) c' ≡ r2 = cc in
      let answered : x ≡ answer = cc in
      inr (
        link,
        c',
        ap
              (λ c.
                Operations.reserve link_strategy (open_network store now r.base.resource_store c)
                  id)
              same
            ∙ ec
            ∙ ap (λ x. some (c', x)) answered,
        cc,
        after,
      )
  run_cases r r2 store store' now id shadow answer (on_nodes c) (inr (other, node, e)) er =
      let same : r.node_schedule ≡ c = cc in
      let ((c', x), ec, e1) =
        bind-some (Operations.reserve (node_strategy fl fragmentation) (open_nodes store now c) id)
          (λ p.
            some (put_nodes (with_shadow r shadow) (some shadow) p.0, p.0.reservation_store, p.1))
          (r2, store', answer) er in
      let after : put_nodes (with_shadow r shadow) (some shadow) c' ≡ r2 = cc in
      let answered : x ≡ answer = cc in
      inl (
        other,
        node,
        c',
        ap (λ c. Operations.reserve (node_strategy fl fragmentation) (open_nodes store now c) id)
              same
            ∙ ec
            ∙ ap (λ x. some (c', x)) answered,
        cc,
        after,
      )

module _ (fl : Floats) (fragmentation : Context NodeStrategy → Bool → ℤ → ℤ → F64)
    (new_key : Dict ℕ Reservation → ℕ) where
  pub reserve-Planned :
      (r r1 r2 : RmsSimulator) (store store' : Store) (now : ℤ) (id : ℕ) (shadow : String)
      (answer : Option ℕ)
      → create_shadow_schedule r shadow ≡ (r1, true)
      → Interface.reserve fl fragmentation new_key r1 store now id (some shadow)
        ≡ some (r2, store', answer)
      → IsFree r shadow
        × (PlannedNode fl fragmentation r r2 store store' now id shadow answer
            ⊎ PlannedLink fl fragmentation r r2 store store' now id shadow answer)
  unfolding Interface.reserve call
  reserve-Planned r r1 r2 store store' now id shadow answer created er =
      let f =
        λ (c : Context NodeStrategy). Operations.reserve (node_strategy fl fragmentation) c id in
      let g = λ (c : Context LinkStrategy). Operations.reserve link_strategy c id in
      let (free, same) = create_shadow_schedule-IsFree r r1 shadow created in
      let er' =
        subst (λ r1. call f g r1 store now id (some shadow) ≡ some (r2, store', answer)) (sym same)
          er in
      let (active, ea, e1) =
        bind-some (get_active_schedule (with_shadow r shadow) store (some shadow) id)
          (λ active. run f g (with_shadow r shadow) store now (some shadow) active)
          (r2, store', answer) er' in
      (
        free,
        run_cases fl fragmentation r r2 store store' now id shadow answer active
            (active_cases r shadow store id active ea) e1,
      )
