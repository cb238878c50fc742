-- ===== src/Recovery/Service/Guardians.antt =====
-- The methods on guardians of `RecoveryService`
-- (services/recovery-service/app/application/services/recovery_service.py).
use secure_ssi_platform.Prelude.{
  ℕ, ◌+◌, String, Bool, true, false, ◌&&◌, ◌||◌, not, Option, none, some, List, [], ◌∷◌, ◌++◌, leb,
  count, sort_by, is_some, is_empty, strip, print_nat, if◌then◌else◌,
}
use secure_ssi_platform.Prelude.Equality.{◌==◌, text_equality}
use secure_ssi_platform.Prelude.Dict.{Dict, values, insert}
use secure_ssi_platform.Recovery.Monad.{
  RecoveryError, Result, ok, Exec, pure, lift, or_raise, raise_if, ◌>>=◌, ◌>>◌,
}
use secure_ssi_platform.Recovery.Domain.States.{
  GuardianStatus, AuditEventType, active, suspended, removed, status_equality, status_value,
  guardian_added, guardian_updated, guardian_suspended, guardian_resumed, guardian_removed,
}
use secure_ssi_platform.Recovery.Domain.Guardians.{
  Guardian, RecoveryPolicy, check_guardian, transition_guardian,
}
use secure_ssi_platform.Recovery.Domain.Auth.{
  Principal, require, guardian_create, guardian_read, guardian_update, guardian_remove,
}
use secure_ssi_platform.Recovery.Repository.Guardians as Store
use secure_ssi_platform.Recovery.Repository.Requests.{get_active_request}
use secure_ssi_platform.Recovery.Environment.{
  Environment, World, external, atomic, now, new_id, refresh_guardian_metric,
}
use secure_ssi_platform.Recovery.Service.Audit.{audit}

-- `policy is None or not policy.allow_self_guardian`
abbrev pub forbids_self : Option RecoveryPolicy → Bool
forbids_self none = true
forbids_self (some p) = not p.allow_self_guardian

-- `{item.guardian_id: item for item in items}`
abbrev by_id : List Guardian → Dict String Guardian → Dict String Guardian
by_id [] d = d
by_id (g ∷ gs) d = by_id gs (insert g.guardian_id g d)

-- Whether the principal is the owner of the wallet or the guardian.
abbrev sees : Principal → Option Guardian → Option Guardian
sees p none = none
sees p (some g) =
    if p.user_id == g.owner_user_id || p.user_id == g.guardian_user_id then some g else none

abbrev owns : Principal → Option Guardian → Option Guardian
owns p none = none
owns p (some g) = if g.owner_user_id == p.user_id then some g else none

-- `(value or default)` on an optional text
abbrev text_or : Option String → String → String
text_or none d = d
text_or (some s) d = if is_empty s then d else s

-- `status is not None and status is not guardian.status`
abbrev pub status_changes : Option GuardianStatus → GuardianStatus → Bool
status_changes none s = false
status_changes (some t) s = not (t == s)

abbrev transition_to : Option GuardianStatus → Guardian → ℕ → Result Guardian
transition_to none g at = ok g
transition_to (some s) g at = transition_guardian g s at

-- The event of an update, by the status that was asked for.
abbrev pub update_event : Option GuardianStatus → AuditEventType
update_event (some suspended) = guardian_suspended
update_event (some active) = guardian_resumed
update_event (some removed) = guardian_removed
update_event _ = guardian_updated

module _ (env : Environment) where
  -- The limit on the guardians of a wallet.
  abbrev pub maximum : Option RecoveryPolicy → ℕ
  maximum none = env.settings.default_maximum_guardians
  maximum (some p) = p.maximum_guardians

  unfoldable pub create_guardian :
      Principal → String → String → String → String → String → Exec World Guardian
  create_guardian principal wallet_id guardian_user_id guardian_did display_name method = do
    lift (require principal guardian_create)
    external (λ n. env.verify_wallet_owner n wallet_id principal.user_id)
    running ← atomic env (get_active_request wallet_id)
    raise_if (is_some running) RecoveryError.conflict
    policy ← atomic env (Store.get_policy wallet_id)
    raise_if (guardian_user_id == principal.user_id && forbids_self policy) RecoveryError.validation
    guardians ← atomic env (Store.list_guardians (some wallet_id) none none)
    raise_if (leb (maximum policy) (count (λ g. not (g.status == removed)) guardians))
        RecoveryError.conflict
    at ← now env
    guardian_id ← new_id env "guardian"
    guardian ← lift (
        check_guardian (record {
          guardian_id = guardian_id;
          owner_user_id = principal.user_id;
          wallet_id = wallet_id;
          guardian_user_id = guardian_user_id;
          guardian_did = guardian_did;
          display_name = strip display_name;
          verification_method = method;
          status = active;
          created_at = at;
          updated_at = at;
          version = 1;
          suspended_at = none;
          revoked_at = none;
          removed_at = none;
        }))
    stored ← atomic env (Store.add_guardian guardian)
    audit env guardian_added stored.guardian_id principal.user_id at (print_nat stored.version)
        (("walletId", wallet_id) ∷ ("status", status_value stored.status) ∷ [])
    refresh_guardian_metric env
    pure stored

  unfoldable pub list_guardians : Principal → Option String → Exec World (List Guardian)
  list_guardians principal wallet_id = do
    lift (require principal guardian_read)
    owned ← atomic env (Store.list_guardians wallet_id (some principal.user_id) none)
    assigned ← atomic env (Store.list_guardians wallet_id none (some principal.user_id))
    pure (sort_by (λ a b. leb a.created_at b.created_at) (values (by_id (owned ++ assigned) [])))

  unfoldable pub get_guardian : Principal → String → Exec World Guardian
  get_guardian principal guardian_id = do
    lift (require principal guardian_read)
    found ← atomic env (Store.get_guardian guardian_id)
    or_raise (sees principal found) RecoveryError.not_found

  -- `_owned_guardian`
  unfoldable pub owned_guardian : Principal → String → Exec World Guardian
  owned_guardian principal guardian_id = do
    found ← atomic env (Store.get_guardian guardian_id)
    or_raise (owns principal found) RecoveryError.not_found

  -- The part of `update_guardian` after its early return.
  unfoldable pub store_update :
      Principal → Option GuardianStatus → Guardian → ℕ → Guardian → Exec World Guardian
  store_update principal status guardian at updated = do
    stored ← atomic env (Store.update_guardian updated guardian.version)
    audit env (update_event status) stored.guardian_id principal.user_id at
        (print_nat stored.version)
        (("walletId", stored.wallet_id) ∷ ("status", status_value stored.status) ∷ [])
    refresh_guardian_metric env
    pure stored

  -- `replace(updated, …)` where a name or a method is given
  abbrev pub with_fields :
      Option String → Option String → ℕ → Bool → Guardian → Guardian → Result Guardian
  with_fields display_name method at status_changed guardian updated =
      if is_some display_name || is_some method
      then check_guardian (record updated {
        display_name = strip (text_or display_name updated.display_name);
        verification_method = text_or method updated.verification_method;
        updated_at = at;
        version = if status_changed then updated.version else guardian.version + 1;
      })
      else ok updated

  unfoldable pub update_guardian :
      Principal
      → String
      → Option String
      → Option String
      → Option GuardianStatus
      → Exec World Guardian
  unfolding owned_guardian store_update
  update_guardian principal guardian_id display_name method status = do
    lift (require principal guardian_update)
    guardian ← owned_guardian principal guardian_id
    running ← atomic env (get_active_request guardian.wallet_id)
    raise_if (is_some running) RecoveryError.conflict
    at ← now env
    let status_changed = status_changes status guardian.status
    moved ← lift (if status_changed then transition_to status guardian at else ok guardian)
    updated ← lift (with_fields display_name method at status_changed guardian moved)
    if status_changed || is_some display_name || is_some method
        then store_update principal status guardian at updated
        else pure guardian

  unfoldable pub remove_guardian : Principal → String → Exec World Guardian
  unfolding owned_guardian update_guardian
  remove_guardian principal guardian_id = do
    lift (require principal guardian_remove)
    guardian ← owned_guardian principal guardian_id
    if guardian.status == removed
        then pure guardian
        else update_guardian principal guardian_id none none (some removed)
