-- ===== src/Identity/Keys/Service/Access.antt =====
-- The private helpers of `ManagedKeyService` that its operations share, `get_owned` and `list_owned`
-- (services/identity-service/app/application/services/managed_key_service.py).
use secure_ssi_platform.Prelude.{
  ℕ, String, Bool, ◌&&◌, ◌||◌, not, Option, none, some, List, if◌then◌else◌,
}
use secure_ssi_platform.Prelude.Equality.{◌==◌, option_beq, text_equality}
use secure_ssi_platform.Identity.Failures.{
  Result, Exec, ok, err, pure, raise, lift, catch, raise_if, ◌>>=◌, ◌>>◌, or_raise,
  is_repository_error, key_not_found, wallet_not_found, provider_metadata,
}
use secure_ssi_platform.Identity.Library.{Library}
use secure_ssi_platform.Identity.Wallet.{HolderWallet, require_usable_for_signing}
use secure_ssi_platform.Identity.Keys.States.{
  ManagedKeyState, presentation_signing, purpose_equality,
}
use secure_ssi_platform.Identity.Keys.Metadata.{ProviderKeyMetadata}
use secure_ssi_platform.Identity.Keys.Record.{ManagedKey, check_key}
use secure_ssi_platform.Identity.Keys.Environment.{
  Environment, World, KeyMetric, AuditEventType, on_keys, elsewhere, observe, now,
  unauthorized_key_access,
}
use secure_ssi_platform.Identity.Keys.Service.Audit.{record_event}

-- `_provider_reference`
unfoldable pub provider_reference : ManagedKey → Result String
provider_reference key = reference_of key.provider_key_reference
  where
    reference_of : Option String → Result String
    reference_of none = err provider_metadata
    reference_of (some r) = ok r

-- What the provider told of the key, before the checks of the new record.
abbrev pub hydrated : ManagedKey → ProviderKeyMetadata → ℕ → ManagedKey
hydrated key m at = record key {
  holder_did = m.holder_did;
  provider_key_reference = some m.provider_key_reference;
  public_key_multibase = some m.public_key_multibase;
  fingerprint = some m.fingerprint;
  verification_method = some m.verification_method;
  last_provider_sync_at = some at;
}

-- `_with_provider_metadata`
unfoldable pub with_provider_metadata :
    Library → ManagedKey → ProviderKeyMetadata → ℕ → Result ManagedKey
with_provider_metadata lib key m at = check_key lib (hydrated key m at)

-- The wallet if it is there and belongs to the owner.
abbrev pub wallet_of : String → Option HolderWallet → Option HolderWallet
wallet_of owner none = none
wallet_of owner (some w) = if w.owner_user_id == owner then some w else none

-- The key if it is there and belongs to the wallet.
abbrev pub key_of : String → Option ManagedKey → Option ManagedKey
key_of wallet_id none = none
key_of wallet_id (some k) = if k.wallet_id == wallet_id then some k else none

-- `wallet.key_reference == key.provider_key_reference and …`
abbrev pub is_bound : HolderWallet → ManagedKey → Bool
is_bound wallet key =
    option_beq (some wallet.key_reference) key.provider_key_reference
    && wallet.holder_did == key.holder_did

-- The key and its wallet, if both are the owner's.
abbrev pub visible_key :
    String → Option HolderWallet → Option ManagedKey → Option (HolderWallet × ManagedKey)
visible_key owner none key = none
visible_key owner (some w) none = none
visible_key owner (some w) (some k) =
    if w.owner_user_id == owner && k.owner_user_id == owner then some (w, k) else none

module _ {S O : Type 0} (env : Environment S O) where
  -- `self._audit.record`
  unfoldable pub audit :
      AuditEventType
      → ManagedKey
      → String
      → String
      → ℕ
      → Option ManagedKeyState
      → Option String
      → Exec (World S O) (Unit {0})
  audit = record_event env.library env.audit_delivery

  abbrev pub inventory : Option (KeyMetric → Exec O (Unit {0})) → Exec (World S O) (Unit {0})
  inventory none = pure tt
  inventory (some _) =
      catch
        (do
          by_provider ← on_keys env.keys.count_active_by_provider_purpose
          by_state ← on_keys env.keys.count_by_state
          observe env (KeyMetric.inventory by_provider by_state))
        (λ e. if is_repository_error e then pure tt else raise e)

  -- `_observe_inventory`
  unfoldable pub observe_inventory : Exec (World S O) (Unit {0})
  observe_inventory = inventory env.metrics

  -- `_owned_wallet`
  unfoldable pub owned_wallet : String → String → Exec (World S O) HolderWallet
  owned_wallet wallet_id owner = do
    found ← elsewhere (env.wallets.get wallet_id)
    wallet ← or_raise (wallet_of owner found) wallet_not_found
    lift (require_usable_for_signing wallet)
    pure wallet

  -- `_bind_presentation_key`
  unfoldable pub bind_presentation_key : HolderWallet → ManagedKey → Exec (World S O) (Unit {0})
  bind_presentation_key wallet key =
      if not (key.purpose == presentation_signing) || is_bound wallet key then pure tt else (do
        reference ← lift (provider_reference key)
        at ← now env
        bound ← elsewhere (
            env.wallets.update_key_binding wallet.wallet_id key.holder_did reference at
              wallet.version)
        pure tt)

  -- The binding of a key to the wallet that it names, if its owner has it.
  abbrev pub bind_if_owned : Option HolderWallet → ManagedKey → Exec (World S O) (Unit {0})
  bind_if_owned none key = pure tt
  bind_if_owned (some wallet) key = bind_presentation_key wallet key

  -- `_authorized_key`
  unfoldable pub authorized_key : String → String → String → Bool → Exec (World S O) ManagedKey
  authorized_key wallet_id key_id actor_id administrative = do
    found ← on_keys (env.keys.get key_id)
    key ← or_raise (key_of wallet_id found) key_not_found
    raise_if (not (key.owner_user_id == actor_id) && not administrative) key_not_found
    pure key

  -- The refusal of a key that is not the owner's, noted on the key if it is the wallet's.
  abbrev pub hide_key : Option ManagedKey → String → String → Exec (World S O) ManagedKey
  hide_key none owner correlation_id = raise key_not_found
  hide_key (some key) owner correlation_id = do
    at ← now env
    audit unauthorized_key_access key owner correlation_id at none
        (some "OBJECT_OWNERSHIP_REJECTED")
    raise key_not_found

  abbrev pub show_key :
      Option (HolderWallet × ManagedKey)
      → Option ManagedKey
      → String
      → String
      → Exec (World S O) ManagedKey
  show_key none key owner correlation_id = hide_key key owner correlation_id
  show_key (some (wallet, k)) key owner correlation_id = do
    lift (require_usable_for_signing wallet)
    pure k

  -- `get_owned`
  unfoldable pub get_owned : String → String → String → String → Exec (World S O) ManagedKey
  unfolding audit
  get_owned wallet_id key_id owner correlation_id = do
    wallet ← elsewhere (env.wallets.get wallet_id)
    key ← on_keys (env.keys.get key_id)
    show_key (visible_key owner wallet (key_of wallet_id key)) (key_of wallet_id key) owner
        correlation_id

  -- `list_owned`
  unfoldable pub list_owned :
      String → String → ℕ → Option String → Exec (World S O) (List ManagedKey)
  unfolding owned_wallet
  list_owned wallet_id owner limit after = do
    owned_wallet wallet_id owner
    on_keys (env.keys.list_for_wallet wallet_id limit after)
