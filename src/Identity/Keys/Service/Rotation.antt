-- ===== src/Identity/Keys/Service/Rotation.antt =====
-- `rotate` and `recover_wallet` of `ManagedKeyService`
-- (services/identity-service/app/application/services/managed_key_service.py).
use Prim.Native.String.{◌++◌ as append}
use secure_ssi_platform.Prelude.{
  ℕ, String, Bool, true, false, ◌&&◌, not, Option, none, some, [], ◌∷◌, has_prefix, if◌then◌else◌,
}
use secure_ssi_platform.Prelude.Equality.{◌==◌, contains, text_equality, nat_equality, option_beq}
use secure_ssi_platform.Identity.Failures.{
  Exec, pure, lift, raise_if, run_if, on_error, ◌>>=◌, ◌>>◌, or_raise, key_conflict, key_not_found,
}
use secure_ssi_platform.Identity.Keys.States.{
  ManagedKeyState, active, rotating, suspended, presentation_signing, key_state_equality,
}
use secure_ssi_platform.Identity.Keys.Checks.{idempotency_hash}
use secure_ssi_platform.Identity.Keys.Record.{ManagedKey, transition}
use secure_ssi_platform.Identity.Keys.Environment.{
  Environment, World, KeyMetric, on_keys, elsewhere, observe, now, find_provider, call_provider,
  key_rotation_requested, successor_key_created, key_rotation_completed, key_rotation_failed,
}
use secure_ssi_platform.Identity.Keys.Service.Access.{
  audit, observe_inventory, owned_wallet, provider_reference, get_owned,
}
use secure_ssi_platform.Identity.Keys.Service.Provisioning.{KeyRequest, provision}
use secure_ssi_platform.Identity.Keys.Service.Lifecycle.{with_reference, mark_compromised}

module _ {S O : Type 0} (env : Environment S O) where
  -- With no grace period the predecessor is suspended at once.
  unfoldable pub retire_linked : ManagedKey → ℕ → Exec (World S O) (Unit {0})
  retire_linked linked at = do
    provider ← find_provider env linked.provider
    call_provider env (with_reference linked provider.suspend_key)
    retired ← lift (transition env.library linked suspended at none none)
    stored ← on_keys (env.keys.update retired linked.version)
    pure tt

  -- What the successor of a key is asked for.
  abbrev pub successor_request : ManagedKey → String → String → KeyRequest
  successor_request source wallet_id owner = record {
    wallet_id = wallet_id;
    owner_user_id = owner;
    holder_did = source.holder_did;
    purpose = source.purpose;
    algorithm = source.algorithm;
    provider_name = env.library.casefold source.provider;
    predecessor_key_id = some source.key_id;
  }

  -- The body of the `try` in `rotate`, up to the grace period.
  unfoldable pub replace_key :
      ManagedKey
      → ManagedKey
      → String
      → String
      → String
      → String
      → ℕ
      → Exec (World S O) (ManagedKey × ManagedKey)
  replace_key source claimed wallet_id owner idempotency_key correlation_id at = do
    successor ←
        provision env (successor_request source wallet_id owner) idempotency_key correlation_id
    audit env successor_key_created successor owner correlation_id at none none
    linked ← on_keys (env.keys.link_successor claimed.key_id successor.key_id at claimed.version)
    wallet ← owned_wallet env wallet_id owner
    reference ← lift (provider_reference successor)
    bound ←
        elsewhere (
          env.wallets.update_key_binding wallet_id successor.holder_did reference at wallet.version)
    pure (successor, linked)

  -- The body of the `try` in `rotate`.
  unfoldable pub rotate_claimed :
      ManagedKey → ManagedKey → String → String → String → String → ℕ → Exec (World S O) ManagedKey
  unfolding replace_key retire_linked
  rotate_claimed source claimed wallet_id owner idempotency_key correlation_id at = do
    keys ← replace_key source claimed wallet_id owner idempotency_key correlation_id at
    run_if (env.policy.rotation_grace_seconds == 0) (retire_linked keys.1 at)
    audit env key_rotation_completed keys.0 owner correlation_id at (some source.state) none
    observe env (KeyMetric.rotation true)
    observe_inventory env
    pure keys.0

  -- `rotate` from the point on where no key has the idempotency hash.
  unfoldable pub rotate_new :
      ManagedKey → String → String → String → String → Exec (World S O) ManagedKey
  unfolding rotate_claimed
  rotate_new source wallet_id owner idempotency_key correlation_id = do
    raise_if (not (source.state == active)) key_conflict
    raise_if (has_prefix source.holder_did "did:web:") key_conflict
    at ← now env
    audit env key_rotation_requested source owner correlation_id at none none
    claimed ← on_keys (env.keys.claim_rotation source.key_id at source.version)
    on_error (rotate_claimed source claimed wallet_id owner idempotency_key correlation_id at) λ _.
        do
          audit env key_rotation_failed claimed owner correlation_id at none
              (some "PARTIAL_ROTATION_FAILURE")
          observe env (KeyMetric.rotation false)

  -- `rotate` for the key that has the idempotency hash, if there is one.
  abbrev pub rotate_once :
      Option ManagedKey → ManagedKey → Exec (World S O) ManagedKey → Exec (World S O) ManagedKey
  rotate_once none source m = m
  rotate_once (some existing) source m = do
    raise_if (not (option_beq existing.predecessor_key_id (some source.key_id))) key_conflict
    pure existing

  unfoldable pub rotate : String → String → String → String → String → Exec (World S O) ManagedKey
  unfolding rotate_new
  rotate wallet_id key_id owner idempotency_key correlation_id = do
    source ← get_owned env wallet_id key_id owner correlation_id
    digest ← lift (idempotency_hash env.library idempotency_key)
    existing ← on_keys (env.keys.get_by_idempotency_hash wallet_id source.purpose digest)
    rotate_once existing source (rotate_new source wallet_id owner idempotency_key correlation_id)

  abbrev pub compromise_recovered : String → String → String → String → Exec (World S O) ManagedKey
  compromise_recovered wallet_id key_id owner correlation_id =
      mark_compromised env wallet_id key_id owner "ACCOUNT_COMPROMISE_RECOVERY" correlation_id true

  abbrev pub is_live : ManagedKeyState → Bool
  is_live s = contains s (active ∷ rotating ∷ suspended ∷ [])

  -- `recover_wallet` when its rotation has been made before.
  unfoldable pub recovered_before :
      ManagedKey → String → String → String → String → Exec (World S O) (ManagedKey × ManagedKey)
  recovered_before existing wallet_id owner reason correlation_id = do
    predecessor_id ← or_raise existing.predecessor_key_id key_conflict
    found ← on_keys (env.keys.get predecessor_id)
    predecessor ← or_raise found key_conflict
    predecessor' ←
        if reason == "ACCOUNT_COMPROMISE" && is_live predecessor.state
        then compromise_recovered wallet_id predecessor.key_id owner correlation_id
        else pure predecessor
    pure (predecessor', existing)

  -- The active key of the owner.
  abbrev pub owned_key : String → Option ManagedKey → Option ManagedKey
  owned_key owner none = none
  owned_key owner (some k) = if k.owner_user_id == owner then some k else none

  -- `recover_wallet` when it has not.
  unfoldable pub recover_now :
      String → String → String → String → String → Exec (World S O) (ManagedKey × ManagedKey)
  recover_now wallet_id owner idempotency_key reason correlation_id = do
    found ← on_keys (env.keys.get_active wallet_id presentation_signing)
    predecessor ← or_raise (owned_key owner found) key_not_found
    successor ← rotate wallet_id predecessor.key_id owner idempotency_key correlation_id
    predecessor' ←
        if reason == "ACCOUNT_COMPROMISE"
        then compromise_recovered wallet_id predecessor.key_id owner correlation_id
        else pure predecessor
    pure (predecessor', successor)

  abbrev pub recover_once :
      Option ManagedKey
      → String
      → String
      → String
      → String
      → String
      → Exec (World S O) (ManagedKey × ManagedKey)
  recover_once none wallet_id owner idempotency_key reason correlation_id =
      recover_now wallet_id owner idempotency_key reason correlation_id
  recover_once (some existing) wallet_id owner idempotency_key reason correlation_id =
      recovered_before existing wallet_id owner reason correlation_id

  unfoldable pub recover_wallet :
      String → String → String → String → String → Exec (World S O) (ManagedKey × ManagedKey)
  unfolding recover_now recovered_before
  recover_wallet wallet_id owner request_id reason correlation_id = do
    owned_wallet env wallet_id owner
    let idempotency_key = append "recovery:" request_id
    digest ← lift (idempotency_hash env.library idempotency_key)
    existing ← on_keys (env.keys.get_by_idempotency_hash wallet_id presentation_signing digest)
    recover_once existing wallet_id owner idempotency_key reason correlation_id
