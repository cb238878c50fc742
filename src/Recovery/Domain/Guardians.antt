-- ===== src/Recovery/Domain/Guardians.antt =====
-- services/recovery-service/app/domain/recovery.py: `Guardian` and `RecoveryPolicy`. An instant is
-- a number of microseconds; that it carries a time zone is part of its type here, since the service
-- takes every instant from `RecoveryService._now`, which refuses a naive one.
use secure_ssi_platform.Prelude.{
  ℕ, ◌+◌, ◌*◌, String, Bool, ◌&&◌, ◌||◌, not, Option, some, [], ◌∷◌, ltb, leb, any, is_empty, strip,
  if◌then◌else◌,
}
use secure_ssi_platform.Prelude.Equality.{◌==◌, contains}
use secure_ssi_platform.Prelude.Integers.{ℤ, between_zero, magnitude}
use secure_ssi_platform.Recovery.Monad.{RecoveryError, Result, ok, fail_if}
use secure_ssi_platform.Recovery.Domain.States.{
  GuardianStatus, active, suspended, revoked, removed, status_transitions, status_equality,
}

-- `timedelta(seconds=s)`
abbrev pub seconds : ℕ → ℕ
seconds s = s * 1000000

pub record Guardian : Type 0 where
  pub guardian_id : String
  pub owner_user_id : String
  pub wallet_id : String
  pub guardian_user_id : String
  pub guardian_did : String
  pub display_name : String
  pub verification_method : String
  pub status : GuardianStatus
  pub created_at : ℕ
  pub updated_at : ℕ
  pub version : ℕ
  pub suspended_at : Option ℕ
  pub revoked_at : Option ℕ
  pub removed_at : Option ℕ

-- `Guardian.__post_init__`, which runs on construction and on `replace`
unfoldable pub check_guardian : Guardian → Result Guardian
check_guardian g =
    fail_if
      (any (λ s. is_empty (strip s))
        (g.guardian_id ∷ g.owner_user_id ∷ g.wallet_id ∷ g.guardian_user_id ∷ g.guardian_did
          ∷ g.display_name ∷ g.verification_method ∷ []))
      RecoveryError.validation
      (fail_if (ltb g.version 1 || ltb g.updated_at g.created_at) RecoveryError.validation (ok g))

-- `Guardian.can_approve`
abbrev pub can_approve : Guardian → Bool
can_approve g = g.status == active

-- The guardian that `Guardian.transition` builds.
abbrev pub moved_guardian : Guardian → GuardianStatus → ℕ → Guardian
moved_guardian g status at = record g {
  status = status;
  updated_at = at;
  suspended_at = if status == suspended then some at else g.suspended_at;
  revoked_at = if status == revoked then some at else g.revoked_at;
  removed_at = if status == removed then some at else g.removed_at;
  version = g.version + 1;
}

-- `Guardian.transition`
unfoldable pub transition_guardian : Guardian → GuardianStatus → ℕ → Result Guardian
unfolding check_guardian
transition_guardian g status at =
    if status == g.status
    then ok g
    else fail_if (not (contains status (status_transitions g.status))) RecoveryError.invalid_state
        (check_guardian (moved_guardian g status at))

pub record RecoveryPolicy : Type 0 where
  pub policy_id : String
  pub wallet_id : String
  pub owner_user_id : String
  pub minimum_approvals : ℕ
  pub maximum_guardians : ℕ
  pub approval_window_seconds : ℕ
  pub time_lock_seconds : ℤ
  pub recovery_expiration_seconds : ℕ
  pub maximum_attempts : ℕ
  pub cooldown_seconds : ℤ
  pub allow_cancellation : Bool
  pub allow_self_guardian : Bool
  pub version : ℕ
  pub created_at : ℕ
  pub updated_at : ℕ

-- `30 * 24 * 3600`
abbrev pub thirty_days : ℕ
thirty_days = 2592000

-- `RecoveryPolicy.__post_init__`; the sum of the windows is taken once the time-lock is known not to
-- be negative.
unfoldable pub check_policy : RecoveryPolicy → Result RecoveryPolicy
check_policy p =
    fail_if (is_empty p.policy_id || is_empty p.wallet_id || is_empty p.owner_user_id)
      RecoveryError.validation
      (fail_if
        (not (
          leb 1 p.minimum_approvals
          && leb p.minimum_approvals p.maximum_guardians
          && leb p.maximum_guardians 32))
        RecoveryError.validation
        (fail_if
          (not (leb 60 p.approval_window_seconds && leb p.approval_window_seconds thirty_days))
          RecoveryError.validation
          (fail_if (not (between_zero p.time_lock_seconds thirty_days)) RecoveryError.validation (
            fail_if
              (ltb p.recovery_expiration_seconds
                (p.approval_window_seconds + magnitude p.time_lock_seconds))
              RecoveryError.validation
              (fail_if (not (leb 1 p.maximum_attempts && leb p.maximum_attempts 20))
                RecoveryError.validation
                (fail_if (not (between_zero p.cooldown_seconds thirty_days))
                  RecoveryError.validation
                  (fail_if (ltb p.version 1) RecoveryError.validation (ok p))))))))
