-- ===== src/Prelude/Equality.antt =====
-- Python's `==`, for every type that has an instance.
use Prim.Native.Nat.{ℕ}
use Prim.Native.String.{String}
use mathlib.Core.Path.{◌≡◌, refl}
use mathlib.Core.Logic.{◌↔◌}
use mathlib.Core.Bool.{Bool, true, false, ◌&&◌, ◌||◌, not}
use mathlib.Core.Option.{Option, none, some}
use mathlib.Core.List.{List, [], ◌∷◌}
use native.Mathlib.Omega.{arith}
use text.Mathlib.Text.{◌==◌ as text_eq}
use text.Mathlib.TextEquality.{eq_iff}
use secure_ssi_platform.Prelude.Tests.{nat_eq, nat-eq_iff}

pub record Eq {ℓ} (A : Type ℓ) : Type ℓ where
  pub beq : A → A → Bool
  pub beq_iff : (x y : A) → (beq x y ≡ true) ↔ (x ≡ y)

module _ {ℓ} {A : Type ℓ} ⦃e : Eq A⦄ where
  infix 50 ◌==◌
  abbrev pub ◌==◌ : A → A → Bool
  x == y = e.beq x y

  pub ==_refl : (a : A) → (a == a) ≡ true
  ==_refl a = (e.beq_iff a a).1 refl

  abbrev pub contains : A → List A → Bool
  contains a [] = false
  contains a (x ∷ xs) = a == x || contains a xs

  -- `len(set(xs)) == len(xs)`
  abbrev pub distinct : List A → Bool
  distinct [] = true
  distinct (x ∷ xs) = not (contains x xs) && distinct xs

  -- A test on an optional argument that is `None` when it is not given.
  abbrev pub none_or_eq : Option A → A → Bool
  none_or_eq none a = true
  none_or_eq (some b) a = a == b

  abbrev pub option_beq : Option A → Option A → Bool
  option_beq none none = true
  option_beq (some a) (some b) = a == b
  option_beq _ _ = false

  pub option-beq_iff : (a b : Option A) → (option_beq a b ≡ true) ↔ (a ≡ b)
  option-beq_iff none none = (λ _. refl, λ _. refl)
  option-beq_iff none (some b) = (λ h. cc, λ h. cc)
  option-beq_iff (some a) none = (λ h. cc, λ h. cc)
  option-beq_iff (some a) (some b) = (λ h. cc ((e.beq_iff a b).0 h), λ h. (e.beq_iff a b).1 (cc))

instance abbrev pub text_equality : Eq String
text_equality = record { beq = text_eq; beq_iff = eq_iff }

instance abbrev pub option_equality {ℓ} : {A : Type ℓ} ⦃e : Eq A⦄ → Eq (Option A)
option_equality = record { beq = option_beq; beq_iff = option-beq_iff }

pub pair-beq_iff {ℓ κ} :
    {A : Type ℓ} {B : Type κ} ⦃e : Eq A⦄ ⦃f : Eq B⦄ (p q : A × B)
    → ((e.beq p.0 q.0 && f.beq p.1 q.1) ≡ true) ↔ (p ≡ q)
pair-beq_iff ⦃e⦄ ⦃f⦄ (a, b) (c, d) = (
  λ h. ground (arith, e.beq_iff a c, f.beq_iff b d),
  λ h. ground (arith, e.beq_iff a c, f.beq_iff b d),
)

instance abbrev pub pair_equality {ℓ κ} :
    {A : Type ℓ} {B : Type κ} ⦃e : Eq A⦄ ⦃f : Eq B⦄ → Eq (A × B)
pair_equality ⦃e⦄ ⦃f⦄ = record {
  beq = λ p q. e.beq p.0 q.0 && f.beq p.1 q.1;
  beq_iff = pair-beq_iff;
}

instance abbrev pub nat_equality : Eq ℕ
nat_equality = record { beq = nat_eq; beq_iff = nat-eq_iff }

-- Equality of an enumeration by the position of its members: `back` undoes `index`.
module _ {ℓ} {A : Type ℓ} (index : A → ℕ) (back : ℕ → A) (undo : (a : A) → back (index a) ≡ a) where
  pub index-eq_iff : (a b : A) → (nat_eq (index a) (index b) ≡ true) ↔ (a ≡ b)
  index-eq_iff a b = (
    λ h. cc (undo a, undo b, (nat-eq_iff (index a) (index b)).0 h),
    λ h. (nat-eq_iff (index a) (index b)).1 (cc),
  )

  abbrev pub enum_equality : Eq A
  enum_equality = record { beq = λ a b. nat_eq (index a) (index b); beq_iff = index-eq_iff }
