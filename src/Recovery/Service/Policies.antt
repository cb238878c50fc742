-- ===== src/Recovery/Service/Policies.antt =====
-- The methods on recovery policies of `RecoveryService`
-- (services/recovery-service/app/application/services/recovery_service.py).
use secure_ssi_platform.Prelude.{
  ℕ, ◌+◌, String, Bool, true, ◌&&◌, not, Option, none, some, [], ◌∷◌, ltb, any, filter, length,
  is_some, print_nat, if◌then◌else◌,
}
use secure_ssi_platform.Prelude.Equality.{◌==◌, text_equality}
use secure_ssi_platform.Prelude.Integers.{ℤ, pos}
use secure_ssi_platform.Recovery.Monad.{
  RecoveryError, Exec, pure, lift, or_raise, raise_if, ◌>>=◌, ◌>>◌,
}
use secure_ssi_platform.Recovery.Domain.States.{active, status_equality, policy_updated}
use secure_ssi_platform.Recovery.Domain.Guardians.{RecoveryPolicy, check_policy}
use secure_ssi_platform.Recovery.Domain.Auth.{Principal, require, policy_read, policy_update}
use secure_ssi_platform.Recovery.Repository.Guardians as Store
use secure_ssi_platform.Recovery.Repository.Requests.{get_active_request}
use secure_ssi_platform.Recovery.Environment.{Environment, World, external, atomic, now, new_id}
use secure_ssi_platform.Recovery.Service.Audit.{audit}

-- The limits that `put_policy` is given.
pub record PolicyTerms : Type 0 where
  pub minimum_approvals : ℕ
  pub maximum_guardians : ℕ
  pub approval_window_seconds : ℕ
  pub time_lock_seconds : ℤ
  pub recovery_expiration_seconds : ℕ
  pub maximum_attempts : ℕ
  pub cooldown_seconds : ℤ
  pub allow_cancellation : Bool
  pub allow_self_guardian : Bool

abbrev owned : Principal → Option RecoveryPolicy → Option RecoveryPolicy
owned p none = none
owned p (some q) = if q.owner_user_id == p.user_id then some q else none

abbrev version_of : Option RecoveryPolicy → Option ℕ
version_of none = none
version_of (some p) = some p.version

abbrev next_version : Option RecoveryPolicy → ℕ
next_version none = 1
next_version (some p) = p.version + 1

abbrev created : Option RecoveryPolicy → ℕ → ℕ
created none at = at
created (some p) at = p.created_at

module _ (env : Environment) where
  unfoldable pub get_policy : Principal → String → Exec World RecoveryPolicy
  get_policy principal wallet_id = do
    lift (require principal policy_read)
    found ← atomic env (Store.get_policy wallet_id)
    or_raise (owned principal found) RecoveryError.not_found

  -- `existing.policy_id if existing else self._ids("policy")`
  abbrev pub policy_id_of : Option RecoveryPolicy → Exec World String
  policy_id_of none = new_id env "policy"
  policy_id_of (some p) = pure p.policy_id

  unfoldable pub put_policy : Principal → String → PolicyTerms → Exec World RecoveryPolicy
  put_policy principal wallet_id terms = do
    lift (require principal policy_update)
    external (λ n. env.verify_wallet_owner n wallet_id principal.user_id)
    running ← atomic env (get_active_request wallet_id)
    raise_if (is_some running) RecoveryError.conflict
    guardians ← atomic env (Store.list_guardians (some wallet_id) none none)
    let actives = filter (λ g. g.status == active) guardians
    raise_if (ltb terms.maximum_guardians (length actives)) RecoveryError.validation
    raise_if
        (not terms.allow_self_guardian
          && any (λ g. g.guardian_user_id == principal.user_id) actives)
        RecoveryError.validation
    existing ← atomic env (Store.get_policy wallet_id)
    at ← now env
    policy_id ← policy_id_of existing
    policy ← lift (
        check_policy (record {
          policy_id = policy_id;
          wallet_id = wallet_id;
          owner_user_id = principal.user_id;
          minimum_approvals = terms.minimum_approvals;
          maximum_guardians = terms.maximum_guardians;
          approval_window_seconds = terms.approval_window_seconds;
          time_lock_seconds = terms.time_lock_seconds;
          recovery_expiration_seconds = terms.recovery_expiration_seconds;
          maximum_attempts = terms.maximum_attempts;
          cooldown_seconds = terms.cooldown_seconds;
          allow_cancellation = terms.allow_cancellation;
          allow_self_guardian = terms.allow_self_guardian;
          version = next_version existing;
          created_at = created existing at;
          updated_at = at;
        }))
    stored ← atomic env (Store.upsert_policy policy (version_of existing))
    audit env policy_updated stored.policy_id principal.user_id at (print_nat stored.version) (
        ("walletId", wallet_id)
        ∷ ("threshold", print_nat stored.minimum_approvals)
        ∷ ("maximumGuardians", print_nat stored.maximum_guardians)
        ∷ [])
    pure stored

  -- `_create_default_policy`
  unfoldable pub create_default_policy : Principal → String → Exec World RecoveryPolicy
  unfolding put_policy
  create_default_policy principal wallet_id = put_policy principal wallet_id (record {
    minimum_approvals = env.settings.default_minimum_approvals;
    maximum_guardians = env.settings.default_maximum_guardians;
    approval_window_seconds = env.settings.default_approval_window_seconds;
    time_lock_seconds = pos env.settings.default_time_lock_seconds;
    recovery_expiration_seconds = env.settings.default_expiration_seconds;
    maximum_attempts = env.settings.default_maximum_attempts;
    cooldown_seconds = pos env.settings.default_cooldown_seconds;
    allow_cancellation = true;
    allow_self_guardian = Bool.false;
  })
