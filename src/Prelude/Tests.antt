-- ===== src/Prelude/Tests.antt =====
-- Boolean tests, the conditional, and equality as an interface: Rust's `bool`, `if`, and `PartialEq`.
use Prim.Native.Nat.{ℕ, ◌≤◌, compare, Ordering}
use Prim.Native.String.{String}
use mathlib.Core.Path.{◌≡◌, refl}
use mathlib.Core.Logic.{◌↔◌, ◌⊎◌, inl, inr}
use mathlib.Core.Bool.{Bool, true, false, not, ◌&&◌, ◌||◌}
use mathlib.Core.Option.{Option, none, some}
use native.Mathlib.Omega.{arith}
use text.Mathlib.Text.{◌==◌ as str_eq}
use text.Mathlib.TextEquality.{eq_iff}

abbrev pub ltb : ℕ → ℕ → Bool
ltb a b = elim (compare a b) [ Ordering.lt ↦ true | _ ↦ false ]

abbrev pub leb : ℕ → ℕ → Bool
leb a b = elim (compare a b) [ Ordering.gt ↦ false | _ ↦ true ]

abbrev pub nat_beq : ℕ → ℕ → Bool
nat_beq a b = elim (compare a b) [ Ordering.eq ↦ true | _ ↦ false ]

pub nat_beq_iff : (a b : ℕ) → (nat_beq a b ≡ true) ↔ (a ≡ b)
nat_beq_iff a b = ground arith

infix 1 if◌then◌else◌
abbrev pub if◌then◌else◌ {ℓ} : {A : Type ℓ} → Bool → A → A → A
if true then x else y = x
if false then x else y = y

pub Bool-cases : (b : Bool) → (b ≡ true) ⊎ (b ≡ false)
Bool-cases true = inl refl
Bool-cases false = inr refl

pub Option-cases {ℓ} : {A : Type ℓ} (o : Option A) → (o ≡ none) ⊎ ((a : A) × (o ≡ some a))
Option-cases none = inl refl
Option-cases (some a) = inr (a, refl)

-- `PartialEq` as Rust derives it: a test that decides equality.
pub record PartialEq {ℓ} (A : Type ℓ) : Type ℓ where
  pub test : (left right : A) → Bool
  pub agrees : (x y : A) → (test x y ≡ true) ↔ (x ≡ y)

instance abbrev pub string_eq : PartialEq String
string_eq = record { test = str_eq; agrees = eq_iff }

instance abbrev pub nat_eq : PartialEq ℕ
nat_eq = record { test = nat_beq; agrees = nat_beq_iff }

-- Rust's `==`
abbrev pub ◌==◌ {ℓ} : {A : Type ℓ} ⦃how : PartialEq A⦄ → A → A → Bool
◌==◌ ⦃how⦄ left right = how.test left right

infix 50 ◌==◌
pub pair_beq_iff {ℓ κ} :
    {A : Type ℓ} {B : Type κ} (e : PartialEq A) (f : PartialEq B) (p q : A × B)
    → ((e.test p.0 q.0 && f.test p.1 q.1) ≡ true) ↔ (p ≡ q)
pair_beq_iff e f (a, b) (c, d) = ground (arith, e.agrees a c, f.agrees b d)

instance abbrev pub pair_eq {ℓ κ} :
    {A : Type ℓ} {B : Type κ} ⦃e : PartialEq A⦄ ⦃f : PartialEq B⦄ → PartialEq (A × B)
pair_eq ⦃e⦄ ⦃f⦄ = record {
  test = λ p q. e.test p.0 q.0 && f.test p.1 q.1;
  agrees = pair_beq_iff e f;
}

module _ {ℓ} {A : Type ℓ} ⦃e : PartialEq A⦄ where
  pub ==_refl : (a : A) → (a == a) ≡ true
  ==_refl a = (e.agrees a a).1 refl

  pub ==→≡ : (a b : A) → (a == b) ≡ true → a ≡ b
  ==→≡ a b = (e.agrees a b).0

pub not-eq-false : (b : Bool) → not b ≡ false → b ≡ true
not-eq-false b h = ground arith

pub or-eq-false : (a b : Bool) → a || b ≡ false → (a ≡ false) × (b ≡ false)
or-eq-false a b h = ground arith

pub and-eq-true : (a b : Bool) → a && b ≡ true → (a ≡ true) × (b ≡ true)
and-eq-true a b h = ground arith

pub ltb-eq-false : (a b : ℕ) → ltb a b ≡ false → b ≤ a
ltb-eq-false a b h = ground arith

pub leb-eq-true : (a b : ℕ) → (leb a b ≡ true) ↔ (a ≤ b)
leb-eq-true a b = ground arith

-- a signed integer; `negsuc n` is -(n + 1)
pub data ℤ : Type 0 where
  pos : ℕ → ℤ
  negsuc : ℕ → ℤ

abbrev pub int_leb : ℤ → ℤ → Bool
int_leb (pos a) (pos b) = leb a b
int_leb (pos a) (negsuc b) = false
int_leb (negsuc a) (pos b) = true
int_leb (negsuc a) (negsuc b) = leb b a
