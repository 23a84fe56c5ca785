-- ===== src/Base/Tests.antt =====
-- Boolean tests on the native numbers, the conditional, equality by instances, and the Option
-- monad, in which `none` stands for a Rust panic or a missing value.
use Prim.Native.Nat.{ℕ, compare, Ordering}
use text.Mathlib.TextEquality.{eq_iff}
use Prim.Native.String.{String}
use text.Mathlib.Text.{◌==◌ as string_test}
use mathlib.Core.Path.{◌≡◌, refl, ap}
use mathlib.Core.Logic.{◌↔◌, ◌⊎◌, inl, inr}
use mathlib.Core.Bool.{Bool, true, false}
use mathlib.Core.Option.{Option, none, some}
use native.Mathlib.Omega.{arith}

abbrev pub ltb : ℕ → ℕ → Bool
ltb a b = elim (compare a b) [ Ordering.lt ↦ true | _ ↦ false ]

abbrev pub leb : ℕ → ℕ → Bool
leb a b = elim (compare a b) [ Ordering.gt ↦ false | _ ↦ true ]

abbrev pub nat_beq : ℕ → ℕ → Bool
nat_beq a b = elim (compare a b) [ Ordering.eq ↦ true | _ ↦ false ]

infix 1 if◌then◌else◌
abbrev pub if◌then◌else◌ {ℓ} : {A : Type ℓ} → Bool → A → A → A
if true then x else y = x
if false then x else y = y

pub nat_beq_iff : (a b : ℕ) → (nat_beq a b ≡ true) ↔ (a ≡ b)
nat_beq_iff a b = ground arith

-- To split on a computed value and keep the equation.
pub Bool-cases : (b : Bool) → (b ≡ true) ⊎ (b ≡ false)
Bool-cases true = inl refl
Bool-cases false = inr refl

pub Option-cases {ℓ} : {A : Type ℓ} (o : Option A) → (o ≡ none) ⊎ ((a : A) × (o ≡ some a))
Option-cases none = inl refl
Option-cases (some a) = inr (a, refl)

-- What the keys of maps and sets implement: a test that says when two keys are the same one.
pub record PartialEq {ℓ} (K : Type ℓ) : Type ℓ where
  pub same : K → K → Bool
  pub same_iff : (j k : K) → (same j k ≡ true) ↔ (j ≡ k)

-- Keys of the slot map.
instance abbrev pub nat_eq : PartialEq ℕ
nat_eq = record { same_iff = nat_beq_iff; same = nat_beq }

-- Names, clients, components, routers.
instance abbrev pub string_eq : PartialEq String
string_eq = record { same_iff = eq_iff; same = string_test }

pub pair_beq_iff {ℓ κ} :
    {A : Type ℓ} {B : Type κ} (e : PartialEq A) (f : PartialEq B) (p q : A × B)
    → (if e.same p.0 q.0 then f.same p.1 q.1 else false) ≡ true ↔ (p ≡ q)
pair_beq_iff e f (a, b) (c, d) = elim (Bool-cases (e.same a c)) [
  | inl t ↦ (
    λ h. let x = (e.same_iff a c).0 t in let y = (f.same_iff b d).0 (rw t at h) in cc,
    λ h. rw t ((f.same_iff b d).1 (ap (λ (p : _ × _). p.1) h)),
  )
  | inr n ↦ (
    λ h. let x = rw n at h in cc,
    λ h. let x = (e.same_iff a c).1 (ap (λ (p : _ × _). p.0) h) in cc,
  )
]

-- Keys of the cache of paths.
instance abbrev pub pair_eq {ℓ κ} :
    {A : Type ℓ} {B : Type κ} ⦃e : PartialEq A⦄ ⦃f : PartialEq B⦄ → PartialEq (A × B)
pair_eq ⦃e⦄ ⦃f⦄ = record {
  same = λ p q. if e.same p.0 q.0 then f.same p.1 q.1 else false;
  same_iff = pair_beq_iff e f;
}

infix 50 ◌==◌
abbrev pub ◌==◌ {ℓ} : {K : Type ℓ} ⦃test : PartialEq K⦄ → K → K → Bool
◌==◌ ⦃test⦄ = λ j k. test.same j k

pub beq_refl {ℓ} : {A : Type ℓ} ⦃e : PartialEq A⦄ (a : A) → (a == a) ≡ true
beq_refl ⦃e⦄ a = (e.same_iff a a).1 refl

infixl 5 ◌>>=◌
abbrev pub ◌>>=◌ {ℓ κ} : {A : Type ℓ} {B : Type κ} → Option A → (A → Option B) → Option B
none >>= f = none
some a >>= f = f a

-- A chain that gives a value has one at its first step.
pub bind-some {ℓ κ} :
    {A : Type ℓ} {B : Type κ} (o : Option A) (f : A → Option B) (b : B)
    → (o >>= f) ≡ some b
    → (a : A) × (o ≡ some a) × (f a ≡ some b)
bind-some none f b e = absurd (ground arith)
bind-some (some a) f b e = (a, refl, e)

pub bind-value {ℓ κ} :
    {A : Type ℓ} {B : Type κ} {o : Option A} (f : A → Option B) {a : A}
    → o ≡ some a
    → (o >>= f) ≡ f a
bind-value f e = ap (λ o. o >>= f) e

abbrev pub is_some {ℓ} : {A : Type ℓ} → Option A → Bool
is_some none = false
is_some (some a) = true

abbrev pub unwrap_or {ℓ} : {A : Type ℓ} → Option A → A → A
unwrap_or none d = d
unwrap_or (some a) d = a

abbrev pub map_option {ℓ κ} : {A : Type ℓ} {B : Type κ} → (A → B) → Option A → Option B
map_option f none = none
map_option f (some a) = some (f a)
