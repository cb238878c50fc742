-- ===== src/Identity/Keys/Service/Provisioning.antt =====
-- `_provision`, `provision_initial_wallet_key` and `create_for_wallet` of `ManagedKeyService`
-- (services/identity-service/app/application/services/managed_key_service.py).
use secure_ssi_platform.Prelude.{
  ℕ, ◌+◌, String, true, false, Option, none, some, List, [], ◌∷◌, ltb, is_some, or_else, is_empty,
  if◌then◌else◌,
}
use secure_ssi_platform.Identity.Failures.{
  Failure, Exec, pure, raise, lift, run_if, on_error, ◌>>=◌, ◌>>◌, key_conflict,
  is_metadata_mismatch,
}
use secure_ssi_platform.Identity.Wallet.{HolderWallet}
use secure_ssi_platform.Identity.Keys.States.{
  KeyPurpose, KeyAlgorithm, ed25519, pending, active, presentation_signing,
}
use secure_ssi_platform.Identity.Keys.Checks.{idempotency_hash}
use secure_ssi_platform.Identity.Keys.Metadata.{validate_provider_metadata}
use secure_ssi_platform.Identity.Keys.Record.{ManagedKey, check_key, transition}
use secure_ssi_platform.Identity.Keys.Environment.{
  Environment, World, KeyMetric, on_keys, elsewhere, observe, now, find_provider, call_provider,
  managed_key_requested, provider_key_created, managed_key_activated, managed_key_creation_failed,
  key_provider_mismatch,
}
use secure_ssi_platform.Identity.Keys.Service.Access.{
  audit, observe_inventory, owned_wallet, bind_presentation_key, with_provider_metadata,
}

-- `max((key.key_version for key in versions), default=0)`
abbrev pub last_version : List ManagedKey → ℕ
last_version [] = 0
last_version (k ∷ ks) =
    let rest = last_version ks in if ltb rest k.key_version then k.key_version else rest

-- What is asked of `_provision`.
pub record KeyRequest : Type 0 where
  pub wallet_id : String
  pub owner_user_id : String
  pub holder_did : String
  pub purpose : KeyPurpose
  pub algorithm : KeyAlgorithm
  pub provider_name : String  -- casefolded
  pub predecessor_key_id : Option String

-- The key before its provider has made it.
abbrev pub pending_key : KeyRequest → String → String → ℕ → ℕ → String → ManagedKey
pending_key q id key_id version at digest = record {
  id = id;
  key_id = key_id;
  wallet_id = q.wallet_id;
  owner_user_id = q.owner_user_id;
  holder_did = q.holder_did;
  provider = q.provider_name;
  provider_key_reference = none;
  algorithm = q.algorithm;
  purpose = q.purpose;
  key_version = version;
  state = pending;
  public_key_multibase = none;
  fingerprint = none;
  verification_method = none;
  created_at = some at;
  updated_at = some at;
  activated_at = none;
  rotated_at = none;
  suspended_at = none;
  revoked_at = none;
  destroyed_at = none;
  destruction_scheduled_at = none;
  expires_at = none;
  predecessor_key_id = q.predecessor_key_id;
  successor_key_id = none;
  compromise_reason = none;
  idempotency_key_hash = some digest;
  reconciliation_attempts = 0;
  reconciliation_lease_until = none;
  last_provider_sync_at = none;
  failure_code = none;
  version = 1;
}

-- `provider_name or self._default_provider`
abbrev pub named_or : Option String → String → String
named_or name default = let given = or_else name "" in if is_empty given then default else given

module _ {S O : Type 0} (env : Environment S O) where
  -- `self._default_provider`
  abbrev pub default_name : String
  default_name = env.library.casefold env.default_provider

  -- The body of the `try` in `_provision`.
  unfoldable pub provision_pending :
      ManagedKey → ManagedKey → String → String → String → ℕ → Exec (World S O) ManagedKey
  provision_pending key stored_pending digest owner correlation_id at = do
    provider ← find_provider env key.provider
    metadata ← call_provider env (provider.create_key key.key_id key.algorithm key.purpose digest)
    lift (validate_provider_metadata env.library metadata key.provider key.algorithm none)
    provisioned ← lift (with_provider_metadata env.library stored_pending metadata at)
    activated ← lift (transition env.library provisioned active at none none)
    stored ← on_keys (env.keys.update activated stored_pending.version)
    audit env provider_key_created stored owner correlation_id at none none
    audit env managed_key_activated stored owner correlation_id at (some pending) none
    observe env (KeyMetric.creation true)
    observe_inventory env
    pure stored

  -- Its `except` clause, up to the `raise`.
  unfoldable pub note_failed_creation :
      ManagedKey → String → String → ℕ → Failure → Exec (World S O) (Unit {0})
  note_failed_creation key owner correlation_id at e = do
    run_if (is_metadata_mismatch e) (
        audit env key_provider_mismatch key owner correlation_id at none
          (some "PROVIDER_METADATA_MISMATCH"))
    audit env managed_key_creation_failed key owner correlation_id at none
        (some "PROVISIONING_FAILED")
    observe env (KeyMetric.creation false)

  -- `_provision` from the point on where no key has the idempotency hash.
  unfoldable pub provision_new : KeyRequest → String → String → Exec (World S O) ManagedKey
  unfolding provision_pending note_failed_creation
  provision_new q digest correlation_id = do
    at ← now env
    versions ← on_keys (env.keys.list_versions q.wallet_id q.purpose)
    id ← elsewhere env.new_storage_id
    key_id ← elsewhere env.new_key_id
    key ←
        lift (check_key env.library (pending_key q id key_id (last_version versions + 1) at digest))
    stored ← on_keys (env.keys.add key)
    audit env managed_key_requested stored q.owner_user_id correlation_id at none none
    on_error (provision_pending key stored digest q.owner_user_id correlation_id at)
        (note_failed_creation stored q.owner_user_id correlation_id at)

  -- The key with the idempotency hash, if there is one.
  abbrev pub or_provision :
      Option ManagedKey → Exec (World S O) ManagedKey → Exec (World S O) ManagedKey
  or_provision none m = m
  or_provision (some k) m = pure k

  -- `_provision`, with the provider's name casefolded by the request.
  unfoldable pub provision : KeyRequest → String → String → Exec (World S O) ManagedKey
  unfolding provision_new
  provision q idempotency_key correlation_id = do
    lift (env.policy.require_provision_allowed q.provider_name q.algorithm q.purpose)
    digest ← lift (idempotency_hash env.library idempotency_key)
    existing ← on_keys (env.keys.get_by_idempotency_hash q.wallet_id q.purpose digest)
    or_provision existing (provision_new q digest correlation_id)

  unfoldable pub provision_initial_wallet_key :
      String → String → String → String → Exec (World S O) ManagedKey
  unfolding provision
  provision_initial_wallet_key wallet_id owner idempotency_key correlation_id =
      provision
        (record {
          wallet_id = wallet_id;
          owner_user_id = owner;
          holder_did = "did:pending:managed-key";
          purpose = presentation_signing;
          algorithm = ed25519;
          provider_name = env.library.casefold default_name;
          predecessor_key_id = none;
        })
        idempotency_key correlation_id

  -- `create_for_wallet` when there is an active key for the purpose: the same request again.
  abbrev pub existing_for_wallet : HolderWallet → Option ManagedKey → Exec (World S O) ManagedKey
  existing_for_wallet wallet none = raise key_conflict
  existing_for_wallet wallet (some key) = do bind_presentation_key env wallet key; pure key

  unfoldable pub create_for_wallet :
      String
      → String
      → KeyPurpose
      → KeyAlgorithm
      → Option String
      → String
      → String
      → Exec (World S O) ManagedKey
  unfolding provision
  create_for_wallet wallet_id owner purpose algorithm provider_name idempotency_key correlation_id =
      do
        wallet ← owned_wallet env wallet_id owner
        current ← on_keys (env.keys.get_active wallet_id purpose)
        if is_some current
            then (do
              digest ← lift (idempotency_hash env.library idempotency_key)
              existing ← on_keys (env.keys.get_by_idempotency_hash wallet_id purpose digest)
              existing_for_wallet wallet existing)
            else (do
              key ←
                  provision
                    (record {
                      wallet_id = wallet_id;
                      owner_user_id = owner;
                      holder_did = wallet.holder_did;
                      purpose = purpose;
                      algorithm = algorithm;
                      provider_name = env.library.casefold (named_or provider_name default_name);
                      predecessor_key_id = none;
                    })
                    idempotency_key correlation_id
              bind_presentation_key env wallet key
              pure key)
