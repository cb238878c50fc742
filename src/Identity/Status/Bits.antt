-- ===== src/Identity/Status/Bits.antt =====
-- The bits of a list of bytes, the most significant bit of a byte first, as the W3C's bitstring status
-- list numbers them, and what a mark does to them
-- (services/identity-service/app/infrastructure/status_list_document_generator.py).
use mathlib.Core.Bool.{true≢false}
use secure_ssi_platform.Prelude.{
  ℕ, zero, suc, ◌+◌, ◌-◌, ◌*◌, ◌/◌, ◌%◌, ◌<◌, ◌≡◌, ◌≢◌, ◌∙◌, sym, ap, refl, Bool, true, false, ◌||◌,
  List, [], ◌∷◌, length, arith, Bool-cases, inl, inr,
}
use secure_ssi_platform.Prelude.Equality.{◌==◌, nat_equality}
use secure_ssi_platform.Identity.Status.Encoding.{set_bit, modify, zeros, mark}

-- The binary digit of `2 ** k`.
abbrev pub test_bit : ℕ → ℕ → Bool
test_bit zero b = b % 2 == 1
test_bit (suc k) b = test_bit k (b / 2)

abbrev pub byte_at : ℕ → List ℕ → ℕ
byte_at i [] = 0
byte_at zero (b ∷ bs) = b
byte_at (suc i) (b ∷ bs) = byte_at i bs

-- The bit of an index.
abbrev pub bit : ℕ → List ℕ → Bool
bit index bytes = test_bit (7 - index % 8) (byte_at (index / 8) bytes)

half_double : (x r : ℕ) → r < 2 → (x * 2 + r) / 2 ≡ x
half_double x r h = omega (arith, h)

double_odd : (x r : ℕ) → r < 2 → (x * 2 + r) % 2 ≡ r
double_odd x r h = omega (arith, h)

test_bit-set_bit : (k b : ℕ) → test_bit k (set_bit k b) ≡ true
test_bit-set_bit zero b = rw (double_odd (b / 2) 1 (omega arith)) refl
test_bit-set_bit (suc k) b =
    rw (half_double (set_bit k (b / 2)) (b % 2) (omega arith)) (test_bit-set_bit k (b / 2))

test_bit-set_other : (j k b : ℕ) → j ≢ k → test_bit j (set_bit k b) ≡ test_bit j b
test_bit-set_other zero zero b other = absurd (other refl)
test_bit-set_other zero (suc k) b other =
    rw (double_odd (set_bit k (b / 2)) (b % 2) (omega arith)) refl
test_bit-set_other (suc j) zero b other = rw (half_double (b / 2) 1 (omega arith)) refl
test_bit-set_other (suc j) (suc k) b other =
    rw (half_double (set_bit k (b / 2)) (b % 2) (omega arith))
      (test_bit-set_other j k (b / 2) (λ e. other (ap suc e)))

byte_at-modify :
    (i : ℕ) (change : ℕ → ℕ) (bs : List ℕ)
    → i < length bs
    → byte_at i (modify i change bs) ≡ change (byte_at i bs)
byte_at-modify i change [] h = absurd (omega (arith, h))
byte_at-modify zero change (b ∷ bs) h = refl
byte_at-modify (suc i) change (b ∷ bs) h = byte_at-modify i change bs (omega (arith, h))

byte_at-modify_other :
    (j i : ℕ) (change : ℕ → ℕ) (bs : List ℕ) → j ≢ i → byte_at j (modify i change bs) ≡ byte_at j bs
byte_at-modify_other j i change [] other = refl
byte_at-modify_other zero zero change (b ∷ bs) other = absurd (other refl)
byte_at-modify_other zero (suc i) change (b ∷ bs) other = refl
byte_at-modify_other (suc j) zero change (b ∷ bs) other = refl
byte_at-modify_other (suc j) (suc i) change (b ∷ bs) other =
    byte_at-modify_other j i change bs (λ e. other (ap suc e))

pub length-modify : (i : ℕ) (change : ℕ → ℕ) (bs : List ℕ) → length (modify i change bs) ≡ length bs
length-modify i change [] = refl
length-modify zero change (b ∷ bs) = refl
length-modify (suc i) change (b ∷ bs) = ap suc (length-modify i change bs)

pub length-zeros : (n : ℕ) → length (zeros n) ≡ n
length-zeros zero = refl
length-zeros (suc n) = ap suc (length-zeros n)

test_bit-zero : (k : ℕ) → test_bit k 0 ≡ false
test_bit-zero zero = refl
test_bit-zero (suc k) = test_bit-zero k

byte_at-zeros : (i n : ℕ) → byte_at i (zeros n) ≡ 0
byte_at-zeros i zero = refl
byte_at-zeros zero (suc n) = refl
byte_at-zeros (suc i) (suc n) = byte_at-zeros i n

pub bit-zeros : (index n : ℕ) → bit index (zeros n) ≡ false
bit-zeros index n = rw (byte_at-zeros (index / 8) n) (test_bit-zero (7 - index % 8))

differ : (a b : ℕ) → (a == b) ≡ false → a ≢ b
differ a b e same = true≢false (sym ((nat_equality.beq_iff a b).1 same) ∙ e)

-- A mark sets the bit of its index, and no other.
pub bit-mark :
    (j i : ℕ) (bs : List ℕ) → i / 8 < length bs → bit j (mark i bs) ≡ ((j == i) || bit j bs)
bit-mark j i bs h = elim (Bool-cases (j == i)) [
  | inl e ↦
      let same = (nat_equality.beq_iff j i).0 e in
      rw (e, same, byte_at-modify (i / 8) (set_bit (7 - i % 8)) bs h)
        (test_bit-set_bit (7 - i % 8) (byte_at (i / 8) bs))
  | inr e ↦ rw e (unmarked (differ j i e))
]
  where
    unmarked : j ≢ i → bit j (mark i bs) ≡ bit j bs
    unmarked other = elim (Bool-cases (j / 8 == i / 8)) [
      | inl s ↦
          let byte = (nat_equality.beq_iff (j / 8) (i / 8)).0 s in
          let digit : 7 - j % 8 ≢ 7 - i % 8 = λ d. other (omega (arith, byte, d)) in
          rw (byte, byte_at-modify (i / 8) (set_bit (7 - i % 8)) bs h)
            (test_bit-set_other (7 - j % 8) (7 - i % 8) (byte_at (i / 8) bs) digit)
      | inr s ↦
          rw
            (byte_at-modify_other (j / 8) (i / 8) (set_bit (7 - i % 8)) bs
              (differ (j / 8) (i / 8) s))
            refl
    ]
