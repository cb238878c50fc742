-- ===== src/Identity/Keys/Metadata.antt =====
-- `ProviderKeyMetadata` of services/identity-service/app/domain/managed_key.py, its `__post_init__`,
-- and the comparison of what a provider answers with what was asked of it.
use secure_ssi_platform.Prelude.{String, Bool, ◌&&◌, not, Option}
use secure_ssi_platform.Prelude.Equality.{◌==◌, none_or_eq, text_equality}
use secure_ssi_platform.Identity.Failures.{
  Result, ok, fail_if, then_result, value_error, provider_metadata,
}
use secure_ssi_platform.Identity.Library.{Library}
use secure_ssi_platform.Identity.Keys.States.{KeyAlgorithm, algorithm_equality}
use secure_ssi_platform.Identity.Keys.Checks.{
  validate_name, validate_reference, validate_public_metadata, public_key_fingerprint,
}

pub record ProviderKeyMetadata : Type 0 where
  pub provider : String
  pub provider_key_reference : String
  pub algorithm : KeyAlgorithm
  pub public_key_multibase : String
  pub fingerprint : String
  pub holder_did : String
  pub verification_method : String
  pub enabled : Bool
  pub destroyed : Bool

-- `ProviderKeyMetadata.__post_init__`
unfoldable pub check_metadata : Library → ProviderKeyMetadata → Result ProviderKeyMetadata
check_metadata lib m = then_result (validate_name 100 m.provider) λ _.
    then_result (validate_reference m.provider_key_reference) λ _.
      then_result
        (validate_public_metadata lib m.public_key_multibase m.fingerprint m.holder_did
          m.verification_method)
        λ _. fail_if (m.destroyed && m.enabled) value_error (ok m)

-- `validate_provider_metadata`
unfoldable pub validate_provider_metadata :
    Library → ProviderKeyMetadata → String → KeyAlgorithm → Option String → Result (Unit {0})
validate_provider_metadata lib m provider algorithm reference =
    fail_if (not (m.provider == provider)) provider_metadata (
      fail_if (not (m.algorithm == algorithm)) provider_metadata (
        fail_if (not (none_or_eq reference m.provider_key_reference)) provider_metadata (
          then_result (public_key_fingerprint lib m.public_key_multibase) λ calculated.
            fail_if (not (m.fingerprint == calculated)) provider_metadata
              (fail_if m.destroyed provider_metadata (ok tt)))))
