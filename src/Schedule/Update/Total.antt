-- ===== src/Schedule/Update/Total.antt =====
-- The update of the window does not panic (`update` of
-- src/vrm/schedule/slotted_schedule/slotted_schedule_context.rs).
use vrm_rust.Base.{
  ℕ, ◌≡◌, refl, true, Option, none, some, List, [], ◌∷◌, arith, All, Option-cases, inl, inr,
  is_some, length, ◌<◌, if◌then◌else◌, nat_eq,
}
use vrm_rust.Base.HashSet
use vrm_rust.Base.Int.{ℤ, pos, eqb_ℤ, ◌<ℤ◌}
use vrm_rust.Base.I64.{◌-i◌, IsSmall}
use vrm_rust.Schedule.Slot.{Slot}
use vrm_rust.Schedule.Context.{Context, get_slot, get_slot_index}
use vrm_rust.Schedule.Context.Ring.{All-get_slot, IsWindow}
use vrm_rust.Schedule.Update.Window.{update-IsWindow}
use vrm_rust.Schedule.Update.{expired_in, expired, advance, update}
use vrm_rust.Store.{Store}
use vrm_rust.Store.Read.{get_assigned_end}

-- The store knows every reservation of the slot.
abbrev pub AllKnown : Store → Slot → Type 0
AllKnown store s = All (λ id. is_some (get_assigned_end store id) ≡ true) s.reservation_ids

module _ {St : Type 0} where
  expired_in-total :
      (c : Context St) (i : ℤ) (known ids : List ℕ)
      → All (λ id. is_some (get_assigned_end c.reservation_store id) ≡ true) known
      → (out : List ℕ) × (expired_in c i known ids ≡ some out)
  unfolding expired_in
  expired_in-total c i [] ids h = (ids, refl)
  expired_in-total c i (id ∷ rest) ids h =
      elim (Option-cases (get_assigned_end c.reservation_store id)) [
        | inl unknown ↦ absurd (ground (arith, unknown, h.0))
        | inr (time, found) ↦
            let last = eqb_ℤ (get_slot_index c (time -i pos 1)) i in
            let (out, e) =
              expired_in-total c i rest (if last then (HashSet.insert id ids).0 else ids) h.1 in
            (out, ground (arith, found, e))
      ]

  expired-total :
      (c : Context St) (is : List ℤ) (ids : List ℕ)
      → All (AllKnown c.reservation_store) c.slots
      → (out : List ℕ) × (expired c is ids ≡ some out)
  unfolding expired
  expired-total c [] ids h = (ids, refl)
  expired-total c (i ∷ is) ids h = elim (Option-cases (get_slot c i)) [
    | inl outside ↦ let (out, e) = expired-total c is ids h in (out, ground (arith, outside, e))
    | inr (s, inside) ↦
        let (here, e) =
          expired_in-total c i s.reservation_ids ids
            (All-get_slot (AllKnown c.reservation_store) c i s h inside) in
        let (out, f) = expired-total c is here h in (out, ground (arith, inside, e, f))
  ]

  advance-total :
      (c : Context St) (i : ℤ) (o : Option (List ℕ)) (ids : List ℕ)
      → o ≡ some ids
      → (c' : Context St) × (advance c i o ≡ some c')
  unfolding advance
  advance-total c i none ids e = absurd (ground arith)
  advance-total c i (some out) ids e = (_, refl)

  update_returns :
      (c : Context St)
      → All (AllKnown c.reservation_store) c.slots
      → (c' : Context St) × (update c ≡ some c')
  unfolding update
  update_returns c h = let (ids, e) = expired-total _ _ [] h in advance-total _ _ _ ids e

  -- The update of the window does not panic and leaves a well-formed window, one that spans
  -- exactly as many indices as there are slots, where the store knows every reservation that a
  -- slot holds, the slot width is above 0, there is a slot, and the time and the number of slots
  -- are below 2^62.
  pub update-total :
      (c : Context St)
      → pos 0 <ℤ c.slot_width
      → 0 < length c.slots
      → IsSmall (pos (length c.slots))
      → IsSmall c.system_time
      → All (AllKnown c.reservation_store) c.slots
      → (c' : Context St) × (update c ≡ some c') × IsWindow c'
  update-total c w n s t h =
      let (c', e) = update_returns c h in (c', e, (update-IsWindow c c' w n s t e).0)
