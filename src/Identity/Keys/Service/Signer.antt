-- ===== src/Identity/Keys/Service/Signer.antt =====
-- `ProviderAwareHolderSigner`
-- (services/identity-service/app/application/services/managed_key_service.py): its environment is the
-- key service's, and the providers and the signer of keys from before the key service.
use secure_ssi_platform.Prelude.{
  ℕ, String, Bool, true, false, not, Option, none, some, List, [], ◌∷◌, ◌/◌,
}
use secure_ssi_platform.Prelude.Dict.{Dict, lookup}
use secure_ssi_platform.Prelude.Equality.{text_equality}
use secure_ssi_platform.Identity.Failures.{
  Exec, pure, raise, lift, on_error, run_if, ◌>>=◌, ◌>>◌, or_raise, key_not_found,
  provider_unavailable, provider_metadata, signing_rejected,
}
use secure_ssi_platform.Identity.Wallet.{HolderKeyMetadata, check_holder_key}
use secure_ssi_platform.Identity.Keys.States.{ed25519, presentation_signing, algorithm_value}
use secure_ssi_platform.Identity.Keys.Metadata.{ProviderKeyMetadata, validate_provider_metadata}
use secure_ssi_platform.Identity.Keys.Record.{ManagedKey, require_signing}
use secure_ssi_platform.Identity.Keys.Environment.{
  Environment, World, KeyMetric, KeyProvider, on_keys, elsewhere, observe,
  managed_key_signing_rejected,
}
use secure_ssi_platform.Identity.Keys.Service.Access.{audit, provider_reference}

-- The legacy provider and signer, each if it is there and the fallback is allowed.
pub record Legacy (O : Type 0) : Type 0 where
  pub sign : Option (List ℕ → String → Exec O (List ℕ))
  pub get_metadata : Option (String → Exec O HolderKeyMetadata)
  pub audits : Bool  -- whether there is an audit delivery service
  pub system_clock : Exec O ℕ  -- `datetime.now(UTC)`, in microseconds

module _ {S O : Type 0} (env : Environment S O) (legacy : Legacy O) where
  -- `_managed_by_reference`
  unfoldable pub managed_by_reference :
      Dict String (KeyProvider O) → String → Exec (World S O) (Option ManagedKey)
  managed_by_reference [] reference = pure none
  managed_by_reference ((name, _) ∷ providers) reference = do
    found ← on_keys (env.keys.get_by_provider_reference name reference)
    elim found [ none ↦ managed_by_reference providers reference | some key ↦ pure (some key) ]

  -- `_record_signing_rejection`
  unfoldable pub record_signing_rejection : ManagedKey → String → Exec (World S O) (Unit {0})
  record_signing_rejection key reason = run_if legacy.audits (do
    t ← elsewhere legacy.system_clock
    audit env managed_key_signing_rejected key key.owner_user_id "managed-key-signing" (t / 1000000)
        none (some reason))

  -- `_legacy_sign`
  unfoldable pub legacy_sign : List ℕ → String → Exec (World S O) (List ℕ)
  legacy_sign message reference =
      or_raise legacy.sign key_not_found >>= λ signer. elsewhere (signer message reference)

  -- The check of the key's own state.
  unfoldable pub require_signable : ManagedKey → Exec (World S O) (Unit {0})
  unfolding record_signing_rejection
  require_signable key = on_error (lift (require_signing key presentation_signing ed25519)) λ e. do
    observe env (KeyMetric.signing false true)
    record_signing_rejection key "INVALID_LIFECYCLE_STATE"

  -- The check of the provider's state.
  unfoldable pub require_enabled : ManagedKey → ProviderKeyMetadata → Exec (World S O) (Unit {0})
  unfolding record_signing_rejection
  require_enabled key metadata = run_if (not metadata.enabled) (do
    observe env (KeyMetric.signing false true)
    record_signing_rejection key "PROVIDER_KEY_DISABLED"
    raise signing_rejected)

  -- `sign` with a managed key.
  unfoldable pub sign_managed : ManagedKey → List ℕ → Exec (World S O) (List ℕ)
  unfolding require_signable require_enabled
  sign_managed key message = do
    require_signable key
    provider ←
        or_raise (lookup (env.library.casefold key.provider) env.providers) provider_unavailable
    reference ← lift (provider_reference key)
    metadata ← elsewhere (provider.get_key_metadata reference)
    lift (
        validate_provider_metadata env.library metadata key.provider key.algorithm
          key.provider_key_reference)
    require_enabled key metadata
    signature ←
        on_error (elsewhere (provider.sign message reference key.algorithm))
          λ e. observe env (KeyMetric.signing false false)
    observe env (KeyMetric.signing true false)
    pure signature

  abbrev pub sign_found : Option ManagedKey → List ℕ → String → Exec (World S O) (List ℕ)
  sign_found none message reference = legacy_sign message reference
  sign_found (some key) message reference = sign_managed key message

  -- `sign`
  unfoldable pub sign : List ℕ → String → Exec (World S O) (List ℕ)
  unfolding managed_by_reference sign_managed legacy_sign
  sign message reference = do
    found ← managed_by_reference env.providers reference
    sign_found found message reference

  abbrev metadata_found : Option ManagedKey → String → Exec (World S O) HolderKeyMetadata
  metadata_found none reference =
      or_raise legacy.get_metadata key_not_found >>= λ get. elsewhere (get reference)
  metadata_found (some key) reference = do
    lift (require_signing key presentation_signing ed25519)
    method ← or_raise key.verification_method provider_metadata
    lift (
        check_holder_key (record {
          key_reference = reference;
          holder_did = key.holder_did;
          verification_method = method;
          algorithm = algorithm_value key.algorithm;
        }))

  -- `get_metadata`
  unfoldable pub get_metadata : String → Exec (World S O) HolderKeyMetadata
  unfolding managed_by_reference
  get_metadata reference = do
    found ← managed_by_reference env.providers reference
    metadata_found found reference
