-- ===== src/Identity/Status/Promises.antt =====
-- What a published credential status list says
-- (services/identity-service/app/infrastructure/status_list_document_generator.py).
use secure_ssi_platform.Prelude.{
  ℕ, ◌+◌, ◌/◌, ◌<◌, ◌≡◌, ◌≤◌, ◌↔◌, ◌∙◌, sym, ap, refl, Bool, true, false, ◌||◌, not, List, [], ◌∷◌,
  length, ltb, all, ◌&&◌, arith,
}
use secure_ssi_platform.Prelude.Equality.{◌==◌, nat_equality, contains}
use secure_ssi_platform.Prelude.Integers.{ℤ, pos, negsuc, below, int_equality}
use secure_ssi_platform.Prelude.Returns.{fail_if-eq_ok, ok-injective, err-ne-ok}
use secure_ssi_platform.Identity.Failures.{ok, value_error, fail_if}
use secure_ssi_platform.Identity.Status.Encoding.{zeros, set_bit, mark, mark_all, status_bytes}
use secure_ssi_platform.Identity.Status.Bits.{bit, bit-mark, bit-zeros, length-modify, length-zeros}

-- The room that the marks of a loop need.
byte_in_list : (i n : ℕ) → i < n → i / 8 < (n + 7) / 8
byte_in_list i n h = omega (arith, h)

merge : (a b c : Bool) → (a || (b || c)) ≡ ((b || a) || c)
merge a b c = ground arith

mark_all-bit :
    (n : ℕ) (rs : List ℤ) (bs out : List ℕ)
    → length bs ≡ (n + 7) / 8
    → mark_all n rs bs ≡ ok out
    → (j : ℕ) → bit j out ≡ (contains (pos j) rs || bit j bs)
mark_all-bit n [] bs out room h j = ap (bit j) (sym (ok-injective h))
mark_all-bit n (negsuc i ∷ rs) bs out room h j = absurd (err-ne-ok h)
mark_all-bit n (pos i ∷ rs) bs out room h j =
    let (inside, rest) = fail_if-eq_ok (not (ltb i n)) _ _ h in
    let fits : i / 8 < length bs = rw room (byte_in_list i n (ground (arith, inside))) in
    let room' : length (mark i bs) ≡ (n + 7) / 8 = length-modify (i / 8) (set_bit _) bs ∙ room in
    mark_all-bit n rs (mark i bs) out room' rest j
    ∙ ap (λ b. contains (pos j) rs || b) (bit-mark j i bs fits)
    ∙ merge (contains (pos j) rs) (j == i) (bit j bs)

-- If a status list is encoded, then the bit of an index, counted as the W3C's bitstring status list
-- counts them, is set in its bytes exactly if the index is one of the revoked ones.
pub status_bytes-bit :
    (revoked : List ℤ) (bytes : List ℕ) (list_length : ℕ)
    → status_bytes revoked list_length ≡ ok bytes
    → (index : ℕ) → bit index bytes ≡ contains (pos index) revoked
unfolding status_bytes
status_bytes-bit revoked bytes n h index =
    let (_, marked) = fail_if-eq_ok (ltb n 1) _ _ h in
    mark_all-bit n revoked (zeros ((n + 7) / 8)) bytes (length-zeros ((n + 7) / 8)) marked index
    ∙ ap (λ b. contains (pos index) revoked || b) (bit-zeros index ((n + 7) / 8))
    ∙ or_false (contains (pos index) revoked)
  where
    or_false : (b : Bool) → (b || false) ≡ b
    or_false b = ground arith

mark_all-accepts :
    (n : ℕ) (rs : List ℤ) (bs : List ℕ)
    → all (λ i. below i n) rs ≡ true
    → (out : List ℕ) × (mark_all n rs bs ≡ ok out)
mark_all-accepts n [] bs h = (bs, refl)
mark_all-accepts n (negsuc i ∷ rs) bs h = cc
mark_all-accepts n (pos i ∷ rs) bs h =
    let (inside, others) = both (ltb i n) (all (λ i. below i n) rs) h in
    let (out, made) = mark_all-accepts n rs (mark i bs) others in (out, rw (inside, made) refl)
  where
    both : (a b : Bool) → (a && b) ≡ true → (a ≡ true) × (b ≡ true)
    both a b e = ground arith

mark_all-accepted :
    (n : ℕ) (rs : List ℤ) (bs out : List ℕ)
    → mark_all n rs bs ≡ ok out
    → all (λ i. below i n) rs ≡ true
mark_all-accepted n [] bs out h = refl
mark_all-accepted n (negsuc i ∷ rs) bs out h = absurd (err-ne-ok h)
mark_all-accepted n (pos i ∷ rs) bs out h =
    let (inside, rest) = fail_if-eq_ok (not (ltb i n)) _ _ h in
    let others = mark_all-accepted n rs (mark i bs) out rest in
    let here : ltb i n ≡ true = ground (arith, inside) in rw (here, others) refl

-- A status list is encoded exactly if it has a positive length and every revoked index is within it: none is negative, and each is
-- below the length.
pub status_bytes-accepts :
    (revoked : List ℤ) (list_length : ℕ)
    → ((bytes : List ℕ) × (status_bytes revoked list_length ≡ ok bytes))
      ↔ ((1 ≤ list_length) × (all (λ i. below i list_length) revoked ≡ true))
unfolding status_bytes
status_bytes-accepts revoked n = (λ p. accepted p.0 p.1, λ p. accepts p.0 p.1)
  where
    accepted :
        (bytes : List ℕ)
        → fail_if (ltb n 1) value_error (mark_all n revoked (zeros ((n + 7) / 8))) ≡ ok bytes
        → (1 ≤ n) × (all (λ i. below i n) revoked ≡ true)
    accepted bytes h =
        let (long, marked) = fail_if-eq_ok (ltb n 1) _ _ h in
        (ground (arith, long), mark_all-accepted n revoked _ bytes marked)

    accepts :
        1 ≤ n
        → all (λ i. below i n) revoked ≡ true
        → (bytes : List ℕ) × (fail_if
              (ltb n 1)
              value_error
              (mark_all n revoked (zeros ((n + 7) / 8)))
            ≡ ok bytes)
    accepts long h =
        let (bytes, made) = mark_all-accepts n revoked (zeros ((n + 7) / 8)) h in
        let some_room : ltb n 1 ≡ false = ground (arith, long) in (bytes, rw (some_room, made) refl)
