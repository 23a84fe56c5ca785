-- ===== src/Rms/Simulator/Planned.antt =====
-- What a plan on a shadow schedule that is committed comes to: a shadow schedule that is created,
-- reserved on and committed (the shadow schedules of rms_node_network_trait.rs, and reserve of
-- advance_reservation_trait.rs).
use vrm_rust.Base.{
  ℕ, String, Bool, true, false, Option, none, some, string_eq, ◌≡◌, refl, ap, ◌∙◌, sym, inl, inr,
}
use vrm_rust.Base.Dict
use vrm_rust.Base.Dict.{Dict}
use vrm_rust.Base.Floats.{F64, Floats}
use vrm_rust.Base.Int.{ℤ}
use vrm_rust.Reservation.Kinds.{Reservation}
use vrm_rust.Rms.Simulator.Interface
use vrm_rust.Rms.Simulator.{
  RmsSimulator, put_nodes, put_network, share, share_context, share_nodes, share_network,
  open_nodes, open_network, nodes_of, network_of, run, call, get_active_schedule, remove_shadow,
  create_shadow_schedule, commit_shadow_schedule, promote_shadow,
}
use vrm_rust.Rms.Simulator.Shadowed.{
  IsFree, with_shadow, insert-remove, get-inserted, reserve-Planned,
}
use vrm_rust.Schedule.Context.{Context}
use vrm_rust.Schedule.LinkStrategy.{LinkStrategy, link_strategy}
use vrm_rust.Schedule.NodeStrategy.{NodeStrategy, node_strategy}
use vrm_rust.Schedule.Operations
use vrm_rust.Store.{Store}
use vrm_rust.Store.Read

module _ (r : RmsSimulator) (shadow : String) (free : IsFree r shadow) where
  commit-put_nodes :
      (c : Context NodeStrategy)
      → commit_shadow_schedule (put_nodes (with_shadow r shadow) (some shadow) c) shadow
        ≡ (put_nodes r none c, true)
  unfolding commit_shadow_schedule promote_shadow remove_shadow put_nodes share_nodes
  commit-put_nodes c =
      let s : Context NodeStrategy → Context NodeStrategy = share_context c.load_buffer.context in
      let n = Dict.insert shadow r.node_schedule r.node_shadow_schedule in
      rw
        (
          get-inserted shadow r.network_schedule r.network_shadow_schedule,
          Dict.get-map_values shadow s (Dict.insert shadow c n),
          get-inserted shadow c n,
          Dict.remove-map_values shadow s (Dict.insert shadow c n),
          insert-remove shadow c r.node_schedule r.node_shadow_schedule free.no_nodes,
          Dict.remove-insert shadow r.network_schedule r.network_shadow_schedule,
          Dict.remove_absent shadow r.network_shadow_schedule free.no_network,
        )
        refl

  commit-put_network :
      (c : Context LinkStrategy)
      → commit_shadow_schedule (put_network (with_shadow r shadow) (some shadow) c) shadow
        ≡ (put_network r none c, true)
  unfolding commit_shadow_schedule promote_shadow remove_shadow put_network share_network
  commit-put_network c =
      let s = share c.load_buffer.context c.strategy.resource_store in
      let n = Dict.insert shadow r.network_schedule r.network_shadow_schedule in
      rw
        (
          Dict.get-map_values shadow s (Dict.insert shadow c n),
          get-inserted shadow c n,
          get-inserted shadow r.node_schedule r.node_shadow_schedule,
          Dict.remove-map_values shadow s (Dict.insert shadow c n),
          insert-remove shadow c r.network_schedule r.network_shadow_schedule free.no_network,
          Dict.remove-insert shadow r.node_schedule r.node_shadow_schedule,
          Dict.remove_absent shadow r.node_shadow_schedule free.no_nodes,
        )
        refl

module _ (fl : Floats) (fragmentation : Context NodeStrategy → Bool → ℤ → ℤ → F64)
    (new_key : Dict ℕ Reservation → ℕ) where
  reserve_node :
      (r : RmsSimulator) (store : Store) (now : ℤ) (id : ℕ) (answer : Option ℕ)
      (c : Context NodeStrategy)
      → Read.is_link store id ≡ false
      → Read.is_node store id ≡ true
      → Operations.reserve
          (node_strategy fl fragmentation)
          (open_nodes store now r.node_schedule)
          id
        ≡ some (c, answer)
      → Interface.reserve fl fragmentation new_key r store now id none
        ≡ some (put_nodes r none c, c.reservation_store, answer)
  unfolding Interface.reserve call run get_active_schedule nodes_of
  reserve_node r store now id answer c other node e = rw (other, node, e) refl

  reserve_link :
      (r : RmsSimulator) (store : Store) (now : ℤ) (id : ℕ) (answer : Option ℕ)
      (c : Context LinkStrategy)
      → Read.is_link store id ≡ true
      → Operations.reserve link_strategy
          (open_network store now r.base.resource_store r.network_schedule)
          id
        ≡ some (c, answer)
      → Interface.reserve fl fragmentation new_key r store now id none
        ≡ some (put_network r none c, c.reservation_store, answer)
  unfolding Interface.reserve call run get_active_schedule network_of
  reserve_link r store now id answer c link e = rw (link, e) refl

  -- Where the simulator creates a shadow schedule, comes to a result for a reserve on it and then
  -- commits it, the commit succeeds, and a reserve on the master schedule instead of all this
  -- comes to the same simulator, store of the reservations and answer.
  pub reserve-commit_shadow_schedule :
      (r r1 r2 : RmsSimulator) (store store' : Store) (now : ℤ) (id : ℕ) (shadow : String)
      (answer : Option ℕ)
      → create_shadow_schedule r shadow ≡ (r1, true)
      → Interface.reserve fl fragmentation new_key r1 store now id (some shadow)
        ≡ some (r2, store', answer)
      → (r3 : RmsSimulator) × (commit_shadow_schedule r2 shadow ≡ (r3, true))
        × (Interface.reserve fl fragmentation new_key r store now id none
            ≡ some (r3, store', answer))
  reserve-commit_shadow_schedule r r1 r2 store store' now id shadow answer created er =
      let (free, planned) =
        reserve-Planned fl fragmentation new_key r r1 r2 store store' now id shadow answer created
          er in
      elim planned [
        | inl (other, node, c, e, same, after) ↦ (
          put_nodes r none c,
          ap (λ r2. commit_shadow_schedule r2 shadow) (sym after)
              ∙ commit-put_nodes r shadow free c,
          reserve_node r store now id answer c other node e
              ∙ ap (λ s. some (put_nodes r none c, s, answer)) (sym same),
        )
        | inr (link, c, e, same, after) ↦ (
          put_network r none c,
          ap (λ r2. commit_shadow_schedule r2 shadow) (sym after)
              ∙ commit-put_network r shadow free c,
          reserve_link r store now id answer c link e
              ∙ ap (λ s. some (put_network r none c, s, answer)) (sym same),
        )
      ]
