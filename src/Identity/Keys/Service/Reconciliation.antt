-- ===== src/Identity/Keys/Service/Reconciliation.antt =====
-- `_reconcile_claimed` of `ManagedKeyService`, one function for each case of the key's state, and
-- `reconcile`, `reconcile_authorized` and `reconcile_batch`
-- (services/identity-service/app/application/services/managed_key_service.py).
use secure_ssi_platform.Prelude.{
  ℕ, ◌+◌, ◌-◌, String, Bool, true, false, ◌&&◌, ◌||◌, not, Option, none, some, List, [], ◌∷◌, ltb,
  leb, count, is_none, or_else, if◌then◌else◌,
}
use secure_ssi_platform.Prelude.Equality.{◌==◌, text_equality}
use secure_ssi_platform.Identity.Failures.{
  Failure, Exec, pure, raise, lift, raise_if, run_if, catch, on_error, ◌>>=◌, ◌>>◌, or_raise,
  is_key_missing, is_metadata_mismatch, is_repository_error, is_managed_key_error, key_conflict,
  provider_key_not_found, provider_metadata, destruction_not_ready,
}
use secure_ssi_platform.Identity.Keys.States.{
  ManagedKeyState, pending, active, rotating, suspended, destroy_pending, destroyed, failed,
  key_state_equality,
}
use secure_ssi_platform.Identity.Keys.Metadata.{ProviderKeyMetadata, validate_provider_metadata}
use secure_ssi_platform.Identity.Keys.Record.{ManagedKey, check_key, transition}
use secure_ssi_platform.Identity.Keys.Environment.{
  Environment, World, KeyMetric, KeyProvider, on_keys, elsewhere, observe, now, find_provider,
  call_provider, managed_key_destroyed, key_provider_mismatch, key_reconciliation_claimed,
  key_reconciliation_completed, key_reconciliation_failed,
}
use secure_ssi_platform.Identity.Keys.Service.Access.{
  audit, observe_inventory, wallet_of, is_bound, bind_if_owned, authorized_key, provider_reference,
  with_provider_metadata,
}
use secure_ssi_platform.Identity.Keys.Service.Lifecycle.{with_reference}

-- The key with its lease given back, as of a sync with its provider.
abbrev pub synced : ManagedKey → ℕ → ManagedKey
synced key at = record key {
  last_provider_sync_at = some at;
  reconciliation_lease_until = none;
  updated_at = some at;
  version = key.version + 1;
}

-- A destruction that has a time, and the time has come.
abbrev pub is_due : Option ℕ → ℕ → Bool
is_due none at = false
is_due (some t) at = leb t at

-- `key.rotated_at or key.updated_at or now`
abbrev pub rotation_start : ManagedKey → ℕ → ℕ
rotation_start key at = or_else key.rotated_at (or_else key.updated_at at)

module _ {S O : Type 0} (env : Environment S O) where
  -- The transition of a key, stored over its version.
  unfoldable pub move_to :
      ManagedKey → ManagedKeyState → ℕ → Option String → Exec (World S O) ManagedKey
  move_to key state at reason = do
    changed ← lift (transition env.library key state at reason none)
    on_keys (env.keys.update changed key.version)

  -- A key pending destruction.
  unfoldable pub destroy_due : KeyProvider O → ManagedKey → ℕ → Exec (World S O) ManagedKey
  unfolding move_to
  destroy_due provider key at = do
    raise_if (not (is_due key.destruction_scheduled_at at)) destruction_not_ready
    catch (call_provider env (with_reference key provider.destroy_key))
        λ e. if is_key_missing e then pure tt else raise e
    result ← move_to key destroyed at none
    observe env (KeyMetric.destruction "completed")
    pure result

  -- The provider's metadata on a pending key make it active, and it is bound to its wallet.
  unfoldable pub activate : ManagedKey → ProviderKeyMetadata → ℕ → Exec (World S O) ManagedKey
  activate key metadata at = do
    hydrated ← lift (with_provider_metadata env.library key metadata at)
    activated ← lift (transition env.library hydrated active at none none)
    stored ← on_keys (env.keys.update activated key.version)
    wallet ← elsewhere (env.wallets.get stored.wallet_id)
    bind_if_owned env (wallet_of stored.owner_user_id wallet) stored
    pure stored

  -- A pending key that its provider may not have made.
  unfoldable pub create_missing : KeyProvider O → ManagedKey → ℕ → Exec (World S O) ManagedKey
  unfolding activate
  create_missing provider key at = do
    digest ← or_raise key.idempotency_key_hash provider_metadata
    created ← call_provider env (provider.create_key key.key_id key.algorithm key.purpose digest)
    lift (validate_provider_metadata env.library created key.provider key.algorithm none)
    activate key created at

  -- `get_key_metadata`, with nothing for a key that the provider does not have.
  unfoldable pub fetch_metadata :
      KeyProvider O → ManagedKey → Exec (World S O) (Option ProviderKeyMetadata)
  fetch_metadata provider key =
      catch
        (do
          metadata ← call_provider env (lift (provider_reference key) >>= provider.get_key_metadata)
          pure (some metadata))
        (λ e. if is_key_missing e then pure none else raise e)

  -- The key that its provider does not have.
  unfoldable pub missing_at_provider : ManagedKey → ℕ → Exec (World S O) ManagedKey
  unfolding move_to
  missing_at_provider key at =
      if key.state == active
      then move_to key failed at (some "PROVIDER_KEY_MISSING")
      else raise provider_key_not_found

  -- A rotated key is suspended after the grace period, once its wallet has the successor.
  unfoldable pub bind_successor : ManagedKey → ManagedKey → ℕ → Exec (World S O) (Unit {0})
  bind_successor key successor at = do
    found ← elsewhere (env.wallets.get key.wallet_id)
    wallet ← or_raise (wallet_of key.owner_user_id found) key_conflict
    run_if (not (is_bound wallet successor)) (do
      reference ← lift (provider_reference successor)
      bound ← elsewhere (
          env.wallets.update_key_binding wallet.wallet_id successor.holder_did reference at
            wallet.version)
      pure tt)

  abbrev pub active_key : Option ManagedKey → Option ManagedKey
  active_key none = none
  active_key (some k) = if k.state == active then some k else none

  unfoldable pub retire_rotated :
      KeyProvider O → ManagedKey → String → ℕ → Exec (World S O) ManagedKey
  unfolding bind_successor move_to
  retire_rotated provider key successor_id at = do
    found ← on_keys (env.keys.get successor_id)
    successor ← or_raise (active_key found) key_conflict
    bind_successor key successor at
    call_provider env (with_reference key provider.suspend_key)
    move_to key suspended at none

  -- A rotation with no successor is given up.
  abbrev pub end_rotation :
      KeyProvider O → ManagedKey → Option String → ℕ → Exec (World S O) ManagedKey
  end_rotation provider key none at = move_to key active at none
  end_rotation provider key (some successor_id) at = retire_rotated provider key successor_id at

  -- The synced key, stored.
  unfoldable pub sync : ManagedKey → ℕ → Exec (World S O) ManagedKey
  sync key at = do
    next ← lift (check_key env.library (synced key at))
    on_keys (env.keys.update next key.version)

  unfoldable pub finish_rotation : KeyProvider O → ManagedKey → ℕ → Exec (World S O) ManagedKey
  unfolding retire_rotated move_to sync
  finish_rotation provider key at =
      if ltb at (rotation_start key at + env.policy.rotation_grace_seconds)
      then sync key at
      else end_rotation provider key key.successor_key_id at

  -- An active key whose wallet is gone, or is another owner's.
  unfoldable pub fail_unbound : KeyProvider O → ManagedKey → ℕ → Exec (World S O) ManagedKey
  unfolding move_to
  fail_unbound provider key at = do
    call_provider env (with_reference key provider.suspend_key)
    move_to key failed at (some "WALLET_BINDING_MISSING")

  unfoldable pub sync_active : KeyProvider O → ManagedKey → ℕ → Exec (World S O) ManagedKey
  unfolding fail_unbound sync
  sync_active provider key at = do
    found ← elsewhere (env.wallets.get key.wallet_id)
    if is_none (wallet_of key.owner_user_id found)
        then fail_unbound provider key at
        else sync key at

  -- A key whose metadata the provider has given.
  unfoldable pub reconcile_known :
      KeyProvider O → ManagedKey → ProviderKeyMetadata → ℕ → Exec (World S O) ManagedKey
  unfolding activate finish_rotation move_to sync_active sync
  reconcile_known provider key metadata at = do
    lift (
        validate_provider_metadata env.library metadata key.provider key.algorithm
          key.provider_key_reference)
    if key.state == pending
        then activate key metadata at
        else if key.state == rotating
        then finish_rotation provider key at
        else if key.state == active && not metadata.enabled
        then move_to key suspended at none
        else if key.state == active
        then sync_active provider key at
        else sync key at

  abbrev pub reconcile_found :
      KeyProvider O → ManagedKey → Option ProviderKeyMetadata → ℕ → Exec (World S O) ManagedKey
  reconcile_found provider key none at = missing_at_provider key at
  reconcile_found provider key (some metadata) at = reconcile_known provider key metadata at

  -- `_reconcile_claimed`
  unfoldable pub reconcile_claimed : ManagedKey → ℕ → Exec (World S O) ManagedKey
  unfolding destroy_due create_missing fetch_metadata missing_at_provider reconcile_known
  reconcile_claimed key at = do
    provider ← find_provider env key.provider
    if key.state == destroy_pending
        then destroy_due provider key at
        else if key.state == pending && is_none key.provider_key_reference
        then create_missing provider key at
        else (do found ← fetch_metadata provider key; reconcile_found provider key found at)

  -- The body of the `try` in `reconcile`.
  unfoldable pub reconcile_noted : ManagedKey → String → String → ℕ → Exec (World S O) ManagedKey
  unfolding reconcile_claimed
  reconcile_noted claimed actor_id correlation_id at = do
    reconciled ← reconcile_claimed claimed at
    audit env key_reconciliation_completed reconciled actor_id correlation_id at none none
    run_if (not (claimed.state == destroyed) && reconciled.state == destroyed) (
        audit env managed_key_destroyed reconciled actor_id correlation_id at (some claimed.state)
          none)
    observe env (KeyMetric.reconciliation true)
    observe_inventory env
    pure reconciled

  -- Its `except` clause, up to the `raise`.
  unfoldable pub note_failed_reconciliation :
      ManagedKey → String → String → ℕ → Failure → Exec (World S O) (Unit {0})
  unfolding move_to
  note_failed_reconciliation claimed actor_id correlation_id at e = do
    run_if (is_metadata_mismatch e) (
        audit env key_provider_mismatch claimed actor_id correlation_id at none
          (some "PROVIDER_METADATA_MISMATCH"))
    audit env key_reconciliation_failed claimed actor_id correlation_id at none
        (some "RECONCILIATION_FAILED")
    observe env (KeyMetric.reconciliation false)
    run_if (claimed.state == destroy_pending) (observe env (KeyMetric.destruction "failed"))
    run_if
        (leb env.reconciliation_retry_limit claimed.reconciliation_attempts
          && not (claimed.state == failed))
        (move_to claimed failed at (some "RETRY_LIMIT_REACHED") >>= λ _. pure tt)

  abbrev pub reconcile_claim :
      Option ManagedKey → ManagedKey → String → String → ℕ → Exec (World S O) ManagedKey
  reconcile_claim none key actor_id correlation_id at = do
    current ← on_keys (env.keys.get key.key_id)
    pure (or_else current key)
  reconcile_claim (some claimed) key actor_id correlation_id at = do
    audit env key_reconciliation_claimed claimed actor_id correlation_id at none none
    on_error (reconcile_noted claimed actor_id correlation_id at)
        (note_failed_reconciliation claimed actor_id correlation_id at)

  unfoldable pub reconcile : ManagedKey → String → String → Exec (World S O) ManagedKey
  unfolding reconcile_noted note_failed_reconciliation
  reconcile key actor_id correlation_id = do
    at ← now env
    claimed ← on_keys (
        env.keys.claim_reconciliation key.key_id at (at + env.reconciliation_lease_seconds)
          key.version)
    reconcile_claim claimed key actor_id correlation_id at

  unfoldable pub reconcile_authorized :
      String → String → String → String → Bool → Exec (World S O) ManagedKey
  unfolding reconcile
  reconcile_authorized wallet_id key_id actor_id correlation_id administrative = do
    key ← authorized_key env wallet_id key_id actor_id administrative
    reconcile key actor_id correlation_id

  -- One round of the loop in `reconcile_batch`: whether it succeeded. Other errors end the batch.
  unfoldable pub reconcile_candidate : ManagedKey → Exec (World S O) Bool
  unfolding reconcile
  reconcile_candidate key =
      catch
        (do _ ← reconcile key "managed-key-reconciliation" "managed-key-reconciliation"; pure true)
        (λ e. if is_repository_error e || is_managed_key_error e then pure false else raise e)

  -- The loop, with the counts so far.
  unfoldable pub reconcile_all : List ManagedKey → ℕ → ℕ → Exec (World S O) (ℕ × ℕ)
  unfolding reconcile_candidate
  reconcile_all [] succeeded failed_count = pure (succeeded, failed_count)
  reconcile_all (key ∷ rest) succeeded failed_count = do
    done ← reconcile_candidate key
    reconcile_all rest (if done then succeeded + 1 else succeeded)
        (if done then failed_count else failed_count + 1)

  unfoldable pub reconcile_batch : ℕ → ℕ → Exec (World S O) (ℕ × ℕ)
  unfolding reconcile_all
  reconcile_batch stale_seconds batch_size = do
    at ← now env
    candidates ←
        on_keys (env.keys.list_reconciliation_candidates (at - stale_seconds) at batch_size)
    observe env
        (KeyMetric.stale_rotations (count (λ (k : ManagedKey). k.state == rotating) candidates))
    reconcile_all candidates 0 0
