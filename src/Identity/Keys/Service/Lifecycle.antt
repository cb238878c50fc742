-- ===== src/Identity/Keys/Service/Lifecycle.antt =====
-- `_provider_transition`, `suspend`, `resume`, `mark_compromised`, `revoke`, `schedule_destruction` and
-- `cancel_destruction` of `ManagedKeyService`
-- (services/identity-service/app/application/services/managed_key_service.py).
use secure_ssi_platform.Prelude.{
  ℕ, String, Bool, not, Option, none, some, ltb, strip, text_length, if◌then◌else◌,
}
use secure_ssi_platform.Prelude.Equality.{◌==◌, text_equality}
use secure_ssi_platform.Identity.Failures.{
  Exec, pure, lift, raise_if, finally_do, ◌>>=◌, ◌>>◌, key_conflict, value_error,
}
use secure_ssi_platform.Identity.Keys.States.{
  ManagedKeyState, active, suspended, compromised, revoked, destroy_pending, key_state_equality,
}
use secure_ssi_platform.Identity.Keys.Record.{ManagedKey, transition}
use secure_ssi_platform.Identity.Keys.Environment.{
  Environment, World, KeyMetric, KeyProvider, AuditEventType, on_keys, observe, now, find_provider,
  call_provider, managed_key_suspended, managed_key_resumed, managed_key_compromised,
  managed_key_revoked, key_destruction_scheduled, key_destruction_cancelled,
}
use secure_ssi_platform.Identity.Keys.Service.Access.{
  audit, observe_inventory, authorized_key, provider_reference, get_owned,
}

-- `provider_action`
pub data ProviderAction : Type 0 where
  enable suspend_action revoke_action : ProviderAction

module _ {O : Type 0} where
  abbrev pub provider_method : ProviderAction → KeyProvider O → String → Exec O (Unit {0})
  provider_method enable p = p.enable_key
  provider_method suspend_action p = p.suspend_key
  provider_method revoke_action p = p.revoke_key

  -- A call that is given the key's reference, or fails for want of one.
  abbrev pub with_reference : ManagedKey → (String → Exec O (Unit {0})) → Exec O (Unit {0})
  with_reference key call = lift (provider_reference key) >>= call

module _ {S O : Type 0} (env : Environment S O) where
  -- `_provider_transition` for a key in another state.
  unfoldable pub move_key :
      ManagedKey
      → ManagedKeyState
      → AuditEventType
      → String
      → String
      → ProviderAction
      → Option String
      → ℕ
      → Exec (World S O) ManagedKey
  move_key key new_state event actor_id correlation_id action reason at = do
    changed ← lift (transition env.library key new_state at reason none)
    provider ← find_provider env key.provider
    call_provider env (with_reference key (provider_method action provider))
    stored ← on_keys (env.keys.update changed key.version)
    audit env event stored actor_id correlation_id at (some key.state) reason
    observe_inventory env
    pure stored

  -- `_provider_transition`
  unfoldable pub provider_transition :
      ManagedKey
      → ManagedKeyState
      → AuditEventType
      → String
      → String
      → ProviderAction
      → Option String
      → Exec (World S O) ManagedKey
  unfolding move_key
  provider_transition key new_state event actor_id correlation_id action reason = do
    at ← now env
    if new_state == key.state
        then pure key
        else move_key key new_state event actor_id correlation_id action reason at

  unfoldable pub suspend : String → String → String → String → Exec (World S O) ManagedKey
  suspend wallet_id key_id owner correlation_id = do
    key ← get_owned env wallet_id key_id owner correlation_id
    provider_transition key suspended managed_key_suspended owner correlation_id suspend_action none

  unfoldable pub resume : String → String → String → String → Exec (World S O) ManagedKey
  resume wallet_id key_id owner correlation_id = do
    key ← get_owned env wallet_id key_id owner correlation_id
    lift (env.policy.require_resume_allowed key)
    provider_transition key active managed_key_resumed owner correlation_id enable none

  -- The `finally` of `mark_compromised`.
  unfoldable pub note_compromise :
      ManagedKey → ManagedKeyState → String → String → ℕ → Exec (World S O) (Unit {0})
  note_compromise stored old actor_id correlation_id at = do
    audit env managed_key_compromised stored actor_id correlation_id at (some old)
        (some "REPORTED_COMPROMISE")
    observe env KeyMetric.compromise
    observe_inventory env

  -- The body of its `try`.
  unfoldable pub suspend_at_provider : ManagedKey → Exec (World S O) (Unit {0})
  suspend_at_provider key = do
    provider ← find_provider env key.provider
    call_provider env (with_reference key provider.suspend_key)

  unfoldable pub mark_compromised :
      String → String → String → String → String → Bool → Exec (World S O) ManagedKey
  unfolding note_compromise suspend_at_provider
  mark_compromised wallet_id key_id actor_id reason correlation_id administrative = do
    key ← authorized_key env wallet_id key_id actor_id administrative
    at ← now env
    changed ← lift (transition env.library key compromised at (some reason) none)
    stored ← on_keys (env.keys.update changed key.version)
    finally_do (suspend_at_provider stored)
        (note_compromise stored key.state actor_id correlation_id at)
    pure stored

  unfoldable pub revoke : String → String → String → String → String → Exec (World S O) ManagedKey
  revoke wallet_id key_id owner reason correlation_id = do
    key ← get_owned env wallet_id key_id owner correlation_id
    stored ←
        provider_transition key revoked managed_key_revoked owner correlation_id revoke_action
          (some reason)
    observe env KeyMetric.revocation
    pure stored

  unfoldable pub schedule_destruction :
      String → String → String → String → String → String → Bool → Exec (World S O) ManagedKey
  schedule_destruction wallet_id key_id actor_id reason confirmation correlation_id administrative =
      do
        raise_if (not (confirmation == key_id)) key_conflict
        raise_if (ltb (text_length (strip reason)) 8) value_error
        key ← authorized_key env wallet_id key_id actor_id administrative
        at ← now env
        let delete_at = env.policy.destruction_time at
        provider ← find_provider env key.provider
        call_provider env (with_reference key (λ r. provider.schedule_deletion r delete_at))
        changed ←
            lift (transition env.library key destroy_pending at (some reason) (some delete_at))
        stored ← on_keys (env.keys.update changed key.version)
        audit env key_destruction_scheduled stored actor_id correlation_id at (some key.state)
            (some "ADMINISTRATIVE_DESTRUCTION")
        observe env (KeyMetric.destruction "scheduled")
        observe_inventory env
        pure stored

  unfoldable pub cancel_destruction :
      String → String → String → String → Bool → Exec (World S O) ManagedKey
  cancel_destruction wallet_id key_id actor_id correlation_id administrative = do
    key ← authorized_key env wallet_id key_id actor_id administrative
    provider ← find_provider env key.provider
    call_provider env (with_reference key provider.cancel_scheduled_deletion)
    at ← now env
    changed ← lift (transition env.library key revoked at none none)
    stored ← on_keys (env.keys.update changed key.version)
    audit env key_destruction_cancelled stored actor_id correlation_id at (some key.state) none
    observe_inventory env
    pure stored
