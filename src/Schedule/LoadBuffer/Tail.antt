-- ===== src/Schedule/LoadBuffer/Tail.antt =====
-- The tail buffer holds the last fifty loads of all that were logged.
use vrm_rust.Base.{
  ℕ, zero, suc, ◌+◌, ◌-◌, ◌≤◌, ◌<◌, subst, ◌≡◌, ap, sym, ◌∙◌, inl, inr, List, [], ◌∷◌, ◌++◌, true,
  false, if◌then◌else◌, length, drop, keep, replicate, leb, arith, Bool-cases, length-append,
  length-replicate, drop-append, drop-drop, drop-append_all, drop-replicate, length-drop,
}
use mathlib.Core.List.{append-nil, append_assoc}
use native.Mathlib.Decide.{dec_le}
use vrm_rust.Base.Int.{ℤ, pos, leb_ℤ}
use vrm_rust.Schedule.LoadBuffer.{
  LoadBuffer, slots_to_drop_on_end, push_tail, push_zeros, add_zeros_intern,
}

-- The buffer holds the newest fifty entries of a history.
abbrev pub Tracks : List ℤ → List ℤ → Type 0
Tracks history tail = tail ≡ keep slots_to_drop_on_end history

leb_refl : (k : ℕ) → leb k k ≡ true
leb_refl k = ground arith

leb-false : (k n : ℕ) → ¬ (k ≤ n) → leb k n ≡ false
leb-false k n h = ground arith

length-keep : (k : ℕ) (xs : List ℤ) → k ≤ length xs → length (keep k xs) ≡ k
length-keep k xs h = omega (arith, length-drop (length xs - k) xs)

-- A push onto the last `k` entries, `k` above 0, gives the last `k` of the longer history.
keep_push :
    (k : ℕ) (history : List ℤ) (x : ℤ)
    → 0 < k
    → (if leb k (length (keep k history)) then drop 1 (keep k history) else keep k history)
        ++ (x ∷ [])
      ≡ keep k (history ++ (x ∷ []))
keep_push k history x h = elim (dec_le k (length history)) [
  | yes full ↦
      let e : length history - k + 1 ≡ length (history ++ (x ∷ [])) - k =
        omega (arith, length-append history (x ∷ [])) in
      rw (
        length-keep k history full,
        leb_refl k,
        drop-drop 1 (length history - k) history,
        ← drop-append (length history - k + 1) history (x ∷ []) (omega arith),
        e,
      )
  | no short ↦
      let z : length history - k ≡ 0 = omega arith in
      let e : length (history ++ (x ∷ [])) - k ≡ 0 =
        omega (arith, length-append history (x ∷ [])) in
      rw (z, e, leb-false k (length history) short)
]

pub push_tail-Tracks :
    (history : List ℤ) (load : ℤ)
    → push_tail (keep slots_to_drop_on_end history) load
      ≡ keep slots_to_drop_on_end (history ++ (load ∷ []))
unfolding push_tail
push_tail-Tracks history load = keep_push slots_to_drop_on_end history load (omega arith)

push_zeros-Tracks :
    (n : ℕ) (history : List ℤ)
    → push_zeros n (keep slots_to_drop_on_end history)
      ≡ keep slots_to_drop_on_end (history ++ replicate n (pos 0))
unfolding push_zeros
push_zeros-Tracks zero history = rw (append-nil history)
push_zeros-Tracks (suc n) history = rw (
  push_tail-Tracks history (pos 0),
  push_zeros-Tracks n (history ++ (pos 0 ∷ [])),
  append_assoc history (pos 0 ∷ []) (replicate n (pos 0)),
)

keep_zeros :
    (k n : ℕ) (history : List ℤ)
    → k ≤ n
    → keep k (history ++ replicate n (pos 0)) ≡ replicate k (pos 0)
keep_zeros k n history h =
    let zeros : List ℤ = replicate n (pos 0) in
    let e : length (history ++ zeros) - k ≡ length history + (n - k) =
      omega (arith, length-append history zeros, length-replicate n (pos 0)) in
    let f : n ≡ (n - k) + k = omega arith in
    rw (e, drop-append_all (n - k) history zeros)
      (subst (λ m. drop (n - k) (replicate m (pos 0)) ≡ replicate k (pos 0)) (sym f)
        (drop-replicate (n - k) k (pos 0)))

abbrev with_tail : LoadBuffer → List ℤ → LoadBuffer
with_tail b tail = record b { tail_buffer = tail }

positive_test : (n : ℕ) → leb_ℤ (pos (suc n)) (pos 0) ≡ false
positive_test n = ground arith

le_of_test : (n : ℕ) → leb slots_to_drop_on_end n ≡ true → slots_to_drop_on_end ≤ n
le_of_test n h = ground arith

-- Where the tail buffer holds the newest fifty loads, logging a quiet period of n slots makes it
-- the newest fifty of the loads followed by n zeros, also on the path that writes a whole buffer
-- of zeros at once; nothing else changes.
pub add_zeros_intern-Tracks :
    (b : LoadBuffer) (history : List ℤ) (n : ℕ)
    → Tracks history b.tail_buffer
    → add_zeros_intern b (pos n)
      ≡ record b { tail_buffer = keep slots_to_drop_on_end (history ++ replicate n (pos 0)) }
unfolding add_zeros_intern
add_zeros_intern-Tracks b history zero t =
    ap (with_tail b) (t ∙ ap (keep slots_to_drop_on_end) (sym (append-nil history)))
add_zeros_intern-Tracks b history (suc n) t =
    rw (positive_test n) (elim (Bool-cases (leb slots_to_drop_on_end (suc n))) [
      | inl long ↦ rw long (
          ap (with_tail b)
            (sym (keep_zeros slots_to_drop_on_end (suc n) history (le_of_test (suc n) long))))
      | inr short ↦
          rw short
            (ap (with_tail b) (ap (push_zeros (suc n)) t ∙ push_zeros-Tracks (suc n) history))
    ])
