-- ===== src/Base/Tests.antt =====
-- Boolean tests, the conditional, and equality of keys as an instance.
use Prim.Native.Nat.{ℕ, compare, Ordering}
use Prim.Native.String.{String}
use mathlib.Core.Path.{◌≡◌, refl, sym, ap, ◌∙◌}
use mathlib.Core.Logic.{◌≢◌, ◌↔◌, ◌⊎◌, inl, inr}
use mathlib.Core.Bool.{Bool, true, false, ◌&&◌}
use mathlib.Core.Option.{Option, none, some}
use native.Mathlib.Omega.{arith}
use text.Mathlib.Text.{◌==◌ as str_eq}
use text.Mathlib.TextEquality.{eq_iff}

abbrev pub ltb : ℕ → ℕ → Bool
ltb a b = elim (compare a b) [ Ordering.lt ↦ true | _ ↦ false ]

abbrev pub leb : ℕ → ℕ → Bool
leb a b = elim (compare a b) [ Ordering.gt ↦ false | _ ↦ true ]

abbrev nat_beq : ℕ → ℕ → Bool
nat_beq a b = elim (compare a b) [ Ordering.eq ↦ true | _ ↦ false ]

pub nat_beq_iff : (a b : ℕ) → (nat_beq a b ≡ true) ↔ (a ≡ b)
nat_beq_iff a b = ground arith

infix 1 if◌then◌else◌
abbrev pub if◌then◌else◌ {ℓ} : {A : Type ℓ} → Bool → A → A → A
if true then x else y = x
if false then x else y = y

pub Bool-cases : (b : Bool) → (b ≡ true) ⊎ (b ≡ false)
Bool-cases true = inl refl
Bool-cases false = inr refl

pub Option-cases {ℓ} : {A : Type ℓ} (o : Option A) → (o ≡ none) ⊎ ((a : A) × (o ≡ some a))
Option-cases none = inl refl
Option-cases (some a) = inr (a, refl)

abbrev pub is_some {ℓ} : {A : Type ℓ} → Option A → Bool
is_some none = false
is_some (some a) = true

-- Rust's `==` on keys, with what it decides.
pub record Eq {ℓ} (K : Type ℓ) : Type ℓ where
  pub test : K → K → Bool
  pub test_iff : (x y : K) → (test x y ≡ true) ↔ (x ≡ y)

instance abbrev pub string_eq : Eq String
string_eq = record { test = str_eq; test_iff = eq_iff }

infix 50 ◌==◌
abbrev pub ◌==◌ {ℓ} : {K : Type ℓ} ⦃keys : Eq K⦄ → K → K → Bool
◌==◌ ⦃keys⦄ x y = keys.test x y

pub pair_test_iff {ℓ κ} :
    {A : Type ℓ} {B : Type κ} (e : Eq A) (f : Eq B) (p q : A × B)
    → ((e.test p.0 q.0 && f.test p.1 q.1) ≡ true) ↔ (p ≡ q)
pair_test_iff e f (a, b) (c, d) = ground (arith, e.test_iff a c, f.test_iff b d)

instance abbrev pub pair_eq {ℓ} : {A B : Type ℓ} ⦃e : Eq A⦄ ⦃f : Eq B⦄ → Eq (A × B)
pair_eq ⦃e⦄ ⦃f⦄ = record {
  test = λ p q. e.test p.0 q.0 && f.test p.1 q.1;
  test_iff = pair_test_iff e f;
}

-- Equality of values that can be written as others and read back.
pub via_test_iff {ℓ κ} :
    {A : Type ℓ} {B : Type κ} (e : Eq B) (write : A → B) (read : B → A)
    (back : (a : A) → read (write a) ≡ a) (x y : A)
    → (e.test (write x) (write y) ≡ true) ↔ (x ≡ y)
via_test_iff e write read back x y = (
  λ h. sym (back x) ∙ ap read ((e.test_iff (write x) (write y)).0 h) ∙ back y,
  λ h. (e.test_iff (write x) (write y)).1 (ap write h),
)

abbrev pub eq_via {ℓ κ} :
    {A : Type ℓ} {B : Type κ} ⦃e : Eq B⦄ (write : A → B) (read : B → A)
    → ((a : A) → read (write a) ≡ a)
    → Eq A
eq_via ⦃e⦄ write read back = record {
  test = λ x y. e.test (write x) (write y);
  test_iff = via_test_iff e write read back;
}

abbrev pub option_test {ℓ} : {A : Type ℓ} → Eq A → Option A → Option A → Bool
option_test e none none = true
option_test e (some a) (some b) = e.test a b
option_test e _ _ = false

pub option_test_iff {ℓ} :
    {A : Type ℓ} (e : Eq A) (x y : Option A) → (option_test e x y ≡ true) ↔ (x ≡ y)
option_test_iff e none none = ground arith
option_test_iff e none (some b) = ground arith
option_test_iff e (some a) none = ground arith
option_test_iff e (some a) (some b) = ground (arith, e.test_iff a b)

instance abbrev pub option_eq {ℓ} : {A : Type ℓ} ⦃e : Eq A⦄ → Eq (Option A)
option_eq ⦃e⦄ = record { test = option_test e; test_iff = option_test_iff e }

instance abbrev pub nat_eq : Eq ℕ
nat_eq = record { test = nat_beq; test_iff = nat_beq_iff }

module _ {ℓ} {A : Type ℓ} ⦃e : Eq A⦄ where
  pub eq_iff_eq : (a b : A) → ((a == b) ≡ true) ↔ (a ≡ b)
  eq_iff_eq = e.test_iff

  pub eq_self : (a : A) → (a == a) ≡ true
  eq_self a = (e.test_iff a a).1 refl

  pub eq-false_of_ne : (a b : A) → a ≢ b → (a == b) ≡ false
  eq-false_of_ne a b h = ground (arith, e.test_iff a b)

  pub ne_of_eq-false : (a b : A) → (a == b) ≡ false → a ≢ b
  ne_of_eq-false a b h = ground (arith, e.test_iff a b)

  pub eq_comm : (a b : A) → (a == b) ≡ (b == a)
  eq_comm a b = ground (arith, e.test_iff a b, e.test_iff b a)
