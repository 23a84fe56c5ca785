-- ===== src/Rms/Simulator/Isolation.antt =====
-- What a plan on a shadow schedule leaves behind: a shadow schedule that is created, reserved on and
-- deleted again (get_active_schedule of rms_simulator.rs, the shadow schedules of
-- rms_node_network_trait.rs, and reserve of advance_reservation_trait.rs).
use vrm_rust.Base.{
  ℕ, String, Bool, true, false, Option, some, string_eq, ◌≡◌, refl, ap, ◌∙◌, sym, inl, inr, ◌⊎◌,
}
use vrm_rust.Base.Dict
use vrm_rust.Base.Dict.{Dict}
use vrm_rust.Base.Floats.{F64, Floats}
use vrm_rust.Base.Int.{ℤ}
use vrm_rust.Reservation.Kinds.{Reservation}
use vrm_rust.Rms.Simulator.Interface
use vrm_rust.Rms.Simulator.{
  RmsSimulator, put_nodes, put_network, share, share_context, share_nodes, share_network,
  open_nodes, open_network, has_shadow, remove_shadow, create_shadow_schedule,
  delete_shadow_schedule,
}
use vrm_rust.Rms.Simulator.Shadowed.{
  IsFree, with_shadow, insert-remove, get-inserted, reserve-Planned,
}
use vrm_rust.Schedule.Context.{Context}
use vrm_rust.Schedule.LinkStrategy.{LinkStrategy, link_strategy}
use vrm_rust.Schedule.NodeStrategy.{NodeStrategy, node_strategy}
use vrm_rust.Schedule.Operations
use vrm_rust.Store.{Store}
use vrm_rust.Store.Read

module _ (r : RmsSimulator) (shadow : String) (free : IsFree r shadow) where
  delete-put_nodes :
      (c : Context NodeStrategy)
      → delete_shadow_schedule (put_nodes (with_shadow r shadow) (some shadow) c) shadow
        ≡ (share_nodes c.load_buffer.context r, false)
  unfolding delete_shadow_schedule has_shadow remove_shadow put_nodes share_nodes
  delete-put_nodes c =
      let s : Context NodeStrategy → Context NodeStrategy = share_context c.load_buffer.context in
      let n = Dict.insert shadow r.node_schedule r.node_shadow_schedule in
      rw
        (
          get-inserted shadow r.network_schedule r.network_shadow_schedule,
          Dict.get-map_values shadow s (Dict.insert shadow c n),
          get-inserted shadow c n,
          Dict.remove-map_values shadow s (Dict.insert shadow c n),
          insert-remove shadow c r.node_schedule r.node_shadow_schedule free.no_nodes,
          Dict.remove-insert shadow r.network_schedule r.network_shadow_schedule,
          Dict.remove_absent shadow r.network_shadow_schedule free.no_network,
        )
        refl

  delete-put_network :
      (c : Context LinkStrategy)
      → delete_shadow_schedule (put_network (with_shadow r shadow) (some shadow) c) shadow
        ≡ (share_network c.load_buffer.context c.strategy.resource_store r, false)
  unfolding delete_shadow_schedule has_shadow remove_shadow put_network share_network
  delete-put_network c =
      let s = share c.load_buffer.context c.strategy.resource_store in
      let n = Dict.insert shadow r.network_schedule r.network_shadow_schedule in
      rw
        (
          Dict.get-map_values shadow s (Dict.insert shadow c n),
          Dict.remove-map_values shadow s (Dict.insert shadow c n),
          get-inserted shadow c n,
          get-inserted shadow r.node_schedule r.node_shadow_schedule,
          insert-remove shadow c r.network_schedule r.network_shadow_schedule free.no_network,
          Dict.remove-insert shadow r.node_schedule r.node_shadow_schedule,
          Dict.remove_absent shadow r.node_shadow_schedule free.no_nodes,
        )
        refl

module _ (fl : Floats) (fragmentation : Context NodeStrategy → Bool → ℤ → ℤ → F64) where
  -- What a plan leaves for a reservation that is no link, and for a link: `r` is the simulator before
  -- the shadow schedule was created, and `r2` the one after the reserve on it.
  abbrev pub LeavesLoads :
      RmsSimulator → RmsSimulator → Store → Store → ℤ → ℕ → String → Option ℕ → Type 0
  LeavesLoads r r2 store store' now id shadow answer =
      (Read.is_link store id ≡ false)
      × (c : Context NodeStrategy) × (Operations.reserve (node_strategy fl fragmentation)
            (open_nodes store now r.node_schedule) id
          ≡ some (c, answer))
      × (store' ≡ c.reservation_store)
      × (delete_shadow_schedule r2 shadow ≡ (share_nodes c.load_buffer.context r, false))

  abbrev pub LeavesBooking :
      RmsSimulator → RmsSimulator → Store → Store → ℤ → ℕ → String → Option ℕ → Type 0
  LeavesBooking r r2 store store' now id shadow answer =
      (Read.is_link store id ≡ true)
      × (c : Context LinkStrategy) × (Operations.reserve link_strategy
            (open_network store now r.base.resource_store r.network_schedule) id
          ≡ some (c, answer))
      × (store' ≡ c.reservation_store)
      × (delete_shadow_schedule r2 shadow
          ≡ (share_network c.load_buffer.context c.strategy.resource_store r, false))

module _ (fl : Floats) (fragmentation : Context NodeStrategy → Bool → ℤ → ℤ → F64)
    (new_key : Dict ℕ Reservation → ℕ) where
  -- Where the simulator creates a shadow schedule, comes to a result for a reserve on it and
  -- deletes it again, the answer and the store of the reservations after the reserve are those of
  -- a reserve on the master schedule itself. For a reservation that is no link the deletion leaves
  -- the simulator as it was before the creation, but for the first and last slot with a load in
  -- the load buffers of the nodes, which all copies of a schedule share: they are those that the
  -- reserve on the master schedule ends with. For a link these are those of the network, and the
  -- base and all schedules of the network have the store of the resources that the reserve on the
  -- master schedule ends with: what the plan booked on the links stays booked. All else is as
  -- before. The deletion reports a failure in both cases.
  pub reserve-delete_shadow_schedule :
      (r r1 r2 : RmsSimulator) (store store' : Store) (now : ℤ) (id : ℕ) (shadow : String)
      (answer : Option ℕ)
      → create_shadow_schedule r shadow ≡ (r1, true)
      → Interface.reserve fl fragmentation new_key r1 store now id (some shadow)
        ≡ some (r2, store', answer)
      → LeavesLoads fl fragmentation r r2 store store' now id shadow answer
        ⊎ LeavesBooking fl fragmentation r r2 store store' now id shadow answer
  reserve-delete_shadow_schedule r r1 r2 store store' now id shadow answer created er =
      let (free, planned) =
        reserve-Planned fl fragmentation new_key r r1 r2 store store' now id shadow answer created
          er in
      elim planned [
        | inl (other, node, c, e, same, after) ↦ inl (
          other,
          c,
          e,
          same,
          ap (λ r2. delete_shadow_schedule r2 shadow) (sym after)
              ∙ delete-put_nodes r shadow free c,
        )
        | inr (link, c, e, same, after) ↦ inr (
          link,
          c,
          e,
          same,
          ap (λ r2. delete_shadow_schedule r2 shadow) (sym after)
              ∙ delete-put_network r shadow free c,
        )
      ]
