-- ===== src/Identity/Status/Encoding.antt =====
-- `encode_status_list` of
-- services/identity-service/app/infrastructure/status_list_document_generator.py. gzip and base64 are
-- Python's own. A set is taken as a list of its members in any order: to mark an index again changes
-- nothing.
use Prim.Native.String.{◌++◌ as append}
use secure_ssi_platform.Prelude.{
  ℕ, zero, suc, ◌+◌, ◌-◌, ◌*◌, ◌/◌, ◌%◌, String, not, List, [], ◌∷◌, ltb,
}
use secure_ssi_platform.Prelude.Integers.{ℤ, below, magnitude}
use secure_ssi_platform.Identity.Failures.{Result, ok, fail_if, then_result, value_error}

-- `b | (1 << k)`: the binary digit of `2 ** k` is one.
abbrev pub set_bit : ℕ → ℕ → ℕ
set_bit zero b = b / 2 * 2 + 1
set_bit (suc k) b = set_bit k (b / 2) * 2 + b % 2

-- A change of one byte.
abbrev pub modify : ℕ → (ℕ → ℕ) → List ℕ → List ℕ
modify i change [] = []
modify zero change (b ∷ bs) = change b ∷ bs
modify (suc i) change (b ∷ bs) = b ∷ modify i change bs

-- `bytearray(n)`
abbrev pub zeros : ℕ → List ℕ
zeros zero = []
zeros (suc n) = 0 ∷ zeros n

-- `bitstring[index // 8] |= 1 << (7 - (index % 8))`
abbrev pub mark : ℕ → List ℕ → List ℕ
mark index bytes = modify (index / 8) (set_bit (7 - index % 8)) bytes

-- The loop over the indices.
abbrev pub mark_all : ℕ → List ℤ → List ℕ → Result (List ℕ)
mark_all list_length [] bytes = ok bytes
mark_all list_length (index ∷ rest) bytes =
    fail_if (not (below index list_length)) value_error
      (mark_all list_length rest (mark (magnitude index) bytes))

-- The bytes before they are compressed.
unfoldable pub status_bytes : List ℤ → ℕ → Result (List ℕ)
status_bytes revoked list_length =
    fail_if (ltb list_length 1) value_error
      (mark_all list_length revoked (zeros ((list_length + 7) / 8)))

module _ (gzip : List ℕ → List ℕ) (urlsafe_b64 : List ℕ → String) where
  -- `encode_status_list`; `urlsafe_b64` leaves out the padding.
  unfoldable pub encode_status_list : List ℤ → ℕ → Result String
  unfolding status_bytes
  encode_status_list revoked list_length =
      then_result (status_bytes revoked list_length)
        λ bytes. ok (append "u" (urlsafe_b64 (gzip bytes)))
