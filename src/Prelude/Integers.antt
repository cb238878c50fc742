-- ===== src/Prelude/Integers.antt =====
-- Python's integers, over the native numbers, and the tests on them that the services make.
use Prim.Native.Nat.{ℕ, ◌≤◌}
use mathlib.Core.Path.{◌≡◌, refl, ap}
use mathlib.Core.Bool.{Bool, true, false}
use native.Mathlib.Omega.{arith}
use mathlib.Core.Logic.{◌↔◌}
use secure_ssi_platform.Prelude.Tests.{leb, ltb, nat_eq, nat-eq_iff}
use secure_ssi_platform.Prelude.Equality.{Eq}

-- `negsuc n` is the integer `-(n + 1)`.
pub data ℤ : Type 0 where
  pos negsuc : ℕ → ℤ

-- `0 <= z <= most`
abbrev pub between_zero : ℤ → ℕ → Bool
between_zero (pos n) most = leb n most
between_zero (negsuc n) most = false

-- `0 <= z < bound`
abbrev pub below : ℤ → ℕ → Bool
below (pos n) bound = ltb n bound
below (negsuc n) bound = false

-- The integer, where it is known not to be negative.
abbrev pub magnitude : ℤ → ℕ
magnitude (pos n) = n
magnitude (negsuc n) = 0

-- The range of `between_zero`.
pub record IsBetween (z : ℤ) (most : ℕ) : Type 0 where
  pub natural : z ≡ pos (magnitude z)
  pub bounded : magnitude z ≤ most

pub between_zero-IsBetween : (z : ℤ) (most : ℕ) → between_zero z most ≡ true → IsBetween z most
between_zero-IsBetween (pos n) most h = record { natural = refl; bounded = ground (arith, h) }
between_zero-IsBetween (negsuc n) most h = absurd (ground arith)

pub IsBetween-between_zero : (z : ℤ) (most : ℕ) → IsBetween z most → between_zero z most ≡ true
IsBetween-between_zero (pos n) most b = ground (arith, b.bounded)
IsBetween-between_zero (negsuc n) most b = cc (b.natural)

abbrev pub int_eq : ℤ → ℤ → Bool
int_eq (pos m) (pos n) = nat_eq m n
int_eq (negsuc m) (negsuc n) = nat_eq m n
int_eq _ _ = false

pub int-eq_iff : (x y : ℤ) → (int_eq x y ≡ true) ↔ (x ≡ y)
int-eq_iff (pos m) (pos n) = (λ h. ap pos ((nat-eq_iff m n).0 h), λ e. (nat-eq_iff m n).1 cc)
int-eq_iff (negsuc m) (negsuc n) =
    (λ h. ap negsuc ((nat-eq_iff m n).0 h), λ e. (nat-eq_iff m n).1 cc)
int-eq_iff (pos m) (negsuc n) = (λ h. cc, λ e. cc)
int-eq_iff (negsuc m) (pos n) = (λ h. cc, λ e. cc)

instance abbrev pub int_equality : Eq ℤ
int_equality = record { beq = int_eq; beq_iff = int-eq_iff }
