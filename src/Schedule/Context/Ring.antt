-- ===== src/Schedule/Context/Ring.antt =====
-- The slots as a ring: the indices of the window and the slots of the vector correspond
-- (`get_slot`, `get_mut_slot` and `get_real_slot_index` of
-- src/vrm/schedule/slotted_schedule/slotted_schedule_context.rs).
use native.Mathlib.Nat.{mod-lt, div-add-mod, mul-le-mul_left}
use native.Mathlib.Decide.{dec_lt}
use vrm_rust.Base.{
  All, All-get, Bool, get_elem?, ℕ, ◌+◌, ◌*◌, ◌/◌, ◌%◌, ◌≤◌, ◌<◌, ◌≡◌, ap, ◌∙◌, ◌⊎◌, inl, inr, none,
  some, arith, if◌then◌else◌, length, get_elem?, get_elem?-some, length-set, get_elem?-set_self,
  get_elem?-set_ne, ◌||◌, Bool-cases,
}
use vrm_rust.Base.Int.{ℤ, pos, negsuc, pos_part, ◌≤ℤ◌, ◌<ℤ◌, ltb_ℤ, rem_trunc, eqb_ℤ}
use vrm_rust.Schedule.Slot.{Slot}
use vrm_rust.Schedule.Context.{Context, get_slot, put_slot, get_real_slot_index}

mul_step : (L a b : ℕ) → a < b → L * a + L ≤ L * b
mul_step L a b h = let h' : a + 1 ≤ b = omega arith in omega (arith, mul-le-mul_left L h')

-- Different indices of one window do not meet in the ring.
mod_injective :
    (L s n m : ℕ) → 0 < L → s ≤ n → n < s + L → s ≤ m → m < s + L → n % L ≡ m % L → n ≡ m
mod_injective L s n m h a b c d e = elim (dec_lt (n / L) (m / L)) [
  | yes p ↦ absurd (omega (arith, mul_step L (n / L) (m / L) p, div-add-mod n L, div-add-mod m L))
  | no p ↦ elim (dec_lt (m / L) (n / L)) [
    | yes q ↦ absurd (omega (arith, mul_step L (m / L) (n / L) q, div-add-mod n L, div-add-mod m L))
    | no q ↦
        let same : n / L ≡ m / L = omega arith in
        omega (arith, ap (λ (t : ℕ). L * t) same, div-add-mod n L, div-add-mod m L)
  ]
]

module _ {St : Type 0} where
  -- The window spans as many indices as there are slots.
  pub record IsWindow (c : Context St) : Type 0 where
    pub width_pos : pos 0 <ℤ c.slot_width
    pub start_nonneg : pos 0 ≤ℤ c.start_slot_index
    pub has_slots : 0 < length c.slots
    pub spans : pos_part c.end_slot_index + 1 ≡ pos_part c.start_slot_index + length c.slots
    pub end_nonneg : pos 0 ≤ℤ c.end_slot_index

  -- The index lies in the window.
  abbrev pub InWindow : Context St → ℤ → Type 0
  InWindow c i = (c.start_slot_index ≤ℤ i) × (i ≤ℤ c.end_slot_index)

  slot_of_list :
      (c : Context St) (n : ℕ) (b d : Bool) (s : Slot)
      → (if b then none else if d then none else get_elem? c.slots n) ≡ some s
      → get_elem? c.slots n ≡ some s
  slot_of_list c n b d s e = ground arith

  -- What holds for all slots holds for the one at an index.
  pub All-get_slot :
      (P : Slot → Type 0) (c : Context St) (i : ℤ) (s : Slot)
      → All P c.slots
      → get_slot c i ≡ some s
      → P s
  unfolding get_slot
  All-get_slot P c i s h e =
      let n = pos_part (get_real_slot_index c i) in
      All-get P c.slots n s h (slot_of_list c n _ _ s e)

  get_slot_inside :
      (c : Context St) (n : ℕ)
      → IsWindow c
      → InWindow c (pos n)
      → get_slot c (pos n) ≡ get_elem? c.slots (n % length c.slots)
  unfolding get_slot rem_trunc
  get_slot_inside c n w h = ground arith

  -- In a window that spans as many indices as there are slots, every index of the window has a
  -- slot.
  get_slot-some :
      (c : Context St) (i : ℤ) → IsWindow c → InWindow c i → (s : Slot) × (get_slot c i ≡ some s)
  get_slot-some c (pos n) w h =
      let (s, e) = get_elem?-some c.slots (n % length c.slots) (mod-lt n w.has_slots) in
      (s, get_slot_inside c n w h ∙ e)
  get_slot-some c (negsuc n) w h = absurd (omega (arith, w.start_nonneg))

  pub get_slot-none :
      (c : Context St) (i : ℤ)
      → (i <ℤ c.start_slot_index) ⊎ (c.end_slot_index <ℤ i)
      → get_slot c i ≡ none
  unfolding get_slot
  get_slot-none c i h = ground arith

  pub put_slot-IsWindow :
      (c : Context St) (i : ℤ) (s : Slot) → IsWindow c → IsWindow (put_slot c i s)
  unfolding put_slot
  put_slot-IsWindow c i s w =
      ground (arith, length-set c.slots (pos_part (get_real_slot_index c i)) s)

  get_slot-put_slot_inside :
      (c : Context St) (n m : ℕ) (s : Slot)
      → IsWindow c
      → InWindow c (pos n)
      → InWindow c (pos m)
      → get_slot (put_slot c (pos n) s) (pos m)
        ≡ (if eqb_ℤ (pos n) (pos m) then some s else get_slot c (pos m))
  unfolding put_slot rem_trunc get_real_slot_index
  get_slot-put_slot_inside c n m s w h k =
      let L = length c.slots in
      ground (
        arith,
        get_slot_inside c m w k,
        get_slot_inside (put_slot c (pos n) s) m (put_slot-IsWindow c (pos n) s w) k,
        length-set c.slots (n % L) s,
        get_elem?-set_self c.slots (n % L) s (mod-lt n w.has_slots),
        get_elem?-set_ne c.slots (n % L) (m % L) s,
        mod_injective L (pos_part c.start_slot_index) n m w.has_slots,
      )

  -- In a window that spans as many indices as there are slots, a slot that is written at an index
  -- of the window is read back at that index, and every other index, in the window or outside,
  -- reads as before: the ring never aliases two indices.
  pub get_slot-put_slot :
      (c : Context St) (i j : ℤ) (s : Slot)
      → IsWindow c
      → InWindow c i
      → get_slot (put_slot c i s) j ≡ (if eqb_ℤ i j then some s else get_slot c j)
  unfolding put_slot
  get_slot-put_slot c (negsuc n) j s w h = absurd (omega (arith, w.start_nonneg))
  get_slot-put_slot c (pos n) (negsuc m) s w h = ground (
    arith,
    w.start_nonneg,
    get_slot-none c (negsuc m),
    get_slot-none (put_slot c (pos n) s) (negsuc m),
  )
  get_slot-put_slot c (pos n) (pos m) s w h =
      elim (Bool-cases (ltb_ℤ (pos m) c.start_slot_index || ltb_ℤ c.end_slot_index (pos m))) [
        | inl out ↦
            ground (arith, get_slot-none c (pos m), get_slot-none (put_slot c (pos n) s) (pos m))
        | inr inside ↦ get_slot-put_slot_inside c n m s w h (ground arith)
      ]
