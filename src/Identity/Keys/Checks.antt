-- ===== src/Identity/Keys/Checks.antt =====
-- The patterns and validators of services/identity-service/app/domain/managed_key.py. A full match
-- of a pattern is a test on the text's code points.
use Prim.Native.String.{◌++◌ as append}
use secure_ssi_platform.Prelude.{
  ℕ, String, Bool, false, ◌&&◌, ◌||◌, not, Option, List, [], ◌∷◌, leb, ltb, codes, length, drop,
  any, all, is_space, is_empty, strip, text_length, has_prefix, or_else, if◌then◌else◌,
}
use secure_ssi_platform.Prelude.Equality.{◌==◌, contains, nat_equality, text_equality}
use secure_ssi_platform.Identity.Failures.{
  Result, ok, fail_if, then_result, value_error, provider_metadata,
}
use secure_ssi_platform.Identity.Library.{Library}

-- `[0-9]`, `[A-Z]` and `[A-Za-z0-9]`
abbrev is_digit : ℕ → Bool
is_digit c = leb 48 c && leb c 57

abbrev is_upper : ℕ → Bool
is_upper c = leb 65 c && leb c 90

abbrev is_word : ℕ → Bool
is_word c = is_digit c || is_upper c || (leb 97 c && leb c 122)

-- `[0-9a-f]`
abbrev is_hex : ℕ → Bool
is_hex c = is_digit c || (leb 97 c && leb c 102)

-- `[A-Za-z0-9_-]`
abbrev is_word_dash : ℕ → Bool
is_word_dash c = is_word c || c == 95 || c == 45

-- `[A-Za-z0-9:._/@=-]`
abbrev is_reference : ℕ → Bool
is_reference c = is_word_dash c || contains c (58 ∷ 46 ∷ 47 ∷ 64 ∷ 61 ∷ [])

-- `[A-Z0-9_]`
abbrev is_code : ℕ → Bool
is_code c = is_upper c || is_digit c || c == 95

-- `[…]{least,most}`
abbrev between : (ℕ → Bool) → ℕ → ℕ → List ℕ → Bool
between test least most cs = all test cs && leb least (length cs) && leb (length cs) most

-- One code point of a class, and `between` from the second on.
abbrev headed : (ℕ → Bool) → (ℕ → Bool) → ℕ → ℕ → List ℕ → Bool
headed first test least most [] = false
headed first test least most (c ∷ cs) = first c && between test least most cs

-- `_OBJECT_ID_PATTERN`, `_KEY_ID_PATTERN`, `_SAFE_REFERENCE_PATTERN`, `_FINGERPRINT_PATTERN`
unfoldable pub is_object_id : String → Bool
is_object_id s = between is_hex 24 24 (codes s)

unfoldable pub is_key_id : String → Bool
is_key_id s = has_prefix s "key_" && between is_word_dash 16 80 (drop 4 (codes s))

unfoldable pub is_safe_reference : String → Bool
is_safe_reference s = headed is_word is_reference 7 511 (codes s)

unfoldable pub is_fingerprint : String → Bool
is_fingerprint s = between is_hex 64 64 (codes s)

-- `any(character.isspace() for character in s)`
unfoldable pub has_space : String → Bool
has_space s = any is_space (codes s)

-- `_validate_name`
unfoldable pub validate_name : ℕ → String → Result (Unit {0})
validate_name maximum value =
    let normalized = strip value in
    fail_if (is_empty normalized || ltb maximum (text_length normalized) || has_space normalized)
      value_error (ok tt)

-- `_validate_reference`
unfoldable pub validate_reference : String → Result (Unit {0})
validate_reference value = fail_if (not (is_safe_reference value)) value_error (ok tt)

-- `_safe_reason_code`
unfoldable pub safe_reason_code : Library → Option String → String
safe_reason_code lib value =
    let given = or_else value "" in
    let normalized = lib.upper (strip (if is_empty given then "UNSPECIFIED_FAILURE" else given)) in
    if headed is_upper is_code 2 63 (codes normalized)
    then normalized
    else "PROVIDER_OPERATION_FAILED"

-- `idempotency_hash`
unfoldable pub idempotency_hash : Library → String → Result String
idempotency_hash lib value =
    let normalized = strip value in
    fail_if (not (leb 8 (text_length normalized) && leb (text_length normalized) 256)) value_error
      (ok (lib.sha256_hex normalized))

-- `public_key_fingerprint`; a text that is not ASCII is a `UnicodeEncodeError`, a `ValueError`.
unfoldable pub public_key_fingerprint : Library → String → Result String
public_key_fingerprint lib key =
    fail_if (not (has_prefix key "z") || ltb 512 (text_length key) || has_space key)
      provider_metadata
      (fail_if (not (all (λ c. ltb c 128) (codes key))) value_error (ok (lib.sha256_hex key)))

-- `_validate_public_metadata`
unfoldable pub validate_public_metadata :
    Library → String → String → String → String → Result (Unit {0})
validate_public_metadata lib public_key_multibase fingerprint holder_did verification_method =
    then_result (public_key_fingerprint lib public_key_multibase) λ calculated.
      fail_if (not (is_fingerprint fingerprint)) value_error (
        fail_if (not (calculated == fingerprint)) value_error (
          fail_if (not (has_prefix holder_did "did:") || ltb 2048 (text_length holder_did))
            value_error
            (fail_if
              (not (has_prefix verification_method (append holder_did "#"))
                || ltb 4096 (text_length verification_method))
              value_error (ok tt))))
