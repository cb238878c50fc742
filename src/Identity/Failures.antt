-- ===== src/Identity/Failures.antt =====
-- The exceptions that managed-key methods raise, without their messages: the classes of
-- services/identity-service/app/domain/managed_key.py, of holder_wallet.py beside it, and the
-- `RepositoryError`s of persistence.py.
use mathlib.Core.Bool.{Bool, true, false}
use secure_ssi_platform.Prelude.Effects
pub use secure_ssi_platform.Prelude.Effects.{
  ok, err, then_result, fail_if, recover, or_raise, ◌>>◌, run_if,
}
unfoldable pub use secure_ssi_platform.Prelude.Effects.{
  pure, raise, lift, catch, ◌>>=◌, raise_if, on_error, finally_do,
}

-- `unexpected` is any other exception, such as one of a client library.
pub data Failure : Type 0 where
  key_not_found key_conflict invalid_transition key_policy : Failure
  provider_unavailable provider_timeout permission_denied provider_key_not_found : Failure
  provider_metadata signing_rejected destruction_not_ready : Failure
  wallet_not_found wallet_conflict wallet_unavailable wallet_ownership : Failure
  duplicate_entity entity_not_found optimistic_lock persistence_unavailable : Failure
  document_mapping value_error unexpected : Failure

-- `isinstance(error, ManagedKeyError)`
abbrev pub is_managed_key_error : Failure → Bool
is_managed_key_error Failure.key_not_found = true
is_managed_key_error Failure.key_conflict = true
is_managed_key_error Failure.invalid_transition = true
is_managed_key_error Failure.key_policy = true
is_managed_key_error Failure.provider_unavailable = true
is_managed_key_error Failure.provider_timeout = true
is_managed_key_error Failure.permission_denied = true
is_managed_key_error Failure.provider_key_not_found = true
is_managed_key_error Failure.provider_metadata = true
is_managed_key_error Failure.signing_rejected = true
is_managed_key_error Failure.destruction_not_ready = true
is_managed_key_error _ = false

-- `isinstance(error, RepositoryError)`
abbrev pub is_repository_error : Failure → Bool
is_repository_error Failure.duplicate_entity = true
is_repository_error Failure.entity_not_found = true
is_repository_error Failure.optimistic_lock = true
is_repository_error Failure.persistence_unavailable = true
is_repository_error Failure.document_mapping = true
is_repository_error _ = false

abbrev pub is_timeout : Failure → Bool
is_timeout Failure.provider_timeout = true
is_timeout _ = false

abbrev pub is_metadata_mismatch : Failure → Bool
is_metadata_mismatch Failure.provider_metadata = true
is_metadata_mismatch _ = false

abbrev pub is_key_missing : Failure → Bool
is_key_missing Failure.provider_key_not_found = true
is_key_missing _ = false

abbrev pub is_signing_rejected : Failure → Bool
is_signing_rejected Failure.signing_rejected = true
is_signing_rejected _ = false

abbrev pub Result {ℓ} : Type ℓ → Type ℓ
Result A = Effects.Result Failure A

abbrev pub Exec {ℓ} : Type ℓ → Type ℓ → Type ℓ
Exec S A = Effects.Exec Failure S A
