-- ===== src/Recovery/Domain/States.antt =====
-- The enumerations of services/recovery-service/app/domain/recovery.py and the transition table of
-- a recovery request.
use mathlib.Core.Path.{◌≡◌, refl}
use secure_ssi_platform.Prelude.{ℕ, zero, suc, String, Bool, true, false, List, [], ◌∷◌}
use secure_ssi_platform.Prelude.Equality.{Eq, contains, enum_equality}
use secure_ssi_platform.Recovery.Monad.{RecoveryError, Result, ok, fail_if}
use mathlib.Core.Bool.{not}

pub data GuardianStatus : Type 0 where
  active suspended revoked removed : GuardianStatus

pub data RecoveryState : Type 0 where
  pending_approvals quorum_reached waiting_timelock ready_for_execution executing : RecoveryState
  completed rejected cancelled expired failed reconciliation_required : RecoveryState

-- `RecoveryState.terminal`
abbrev pub terminal : RecoveryState → Bool
terminal completed = true
terminal rejected = true
terminal cancelled = true
terminal expired = true
terminal failed = true
terminal _ = false

pub data RecoveryReason : Type 0 where
  account_compromise lost_access device_loss key_loss : RecoveryReason

pub data RecoveryOperation : Type 0 where
  managed_key_rotation : RecoveryOperation

pub data RecoveryDecision : Type 0 where
  approve reject : RecoveryDecision

pub data AuditEventType : Type 0 where
  guardian_added guardian_updated guardian_suspended guardian_resumed : AuditEventType
  guardian_removed policy_updated requested approved : AuditEventType
  request_rejected quorum timelock_started ready : AuditEventType
  execution_started new_key_provisioned did_changed request_completed : AuditEventType
  request_cancelled request_expired request_failed reconciled : AuditEventType
  unauthorized_attempt share_validation_failed : AuditEventType

-- `_TRANSITIONS`
abbrev pub transitions : RecoveryState → List RecoveryState
transitions pending_approvals = quorum_reached ∷ rejected ∷ cancelled ∷ expired ∷ failed ∷ []
transitions quorum_reached = waiting_timelock ∷ cancelled ∷ expired ∷ failed ∷ []
transitions waiting_timelock = ready_for_execution ∷ cancelled ∷ expired ∷ failed ∷ []
transitions ready_for_execution = executing ∷ cancelled ∷ expired ∷ failed ∷ []
transitions executing = completed ∷ reconciliation_required ∷ expired ∷ failed ∷ []
transitions reconciliation_required =
    ready_for_execution ∷ executing ∷ completed ∷ expired ∷ failed ∷ []
transitions completed = []
transitions rejected = []
transitions cancelled = []
transitions expired = []
transitions failed = []

abbrev pub status_index : GuardianStatus → ℕ
status_index active = 0
status_index suspended = 1
status_index revoked = 2
status_index removed = 3

abbrev pub status_at : ℕ → GuardianStatus
status_at zero = active
status_at (suc zero) = suspended
status_at (suc (suc zero)) = revoked
status_at _ = removed

pub status_at-status_index : (s : GuardianStatus) → status_at (status_index s) ≡ s
status_at-status_index active = refl
status_at-status_index suspended = refl
status_at-status_index revoked = refl
status_at-status_index removed = refl

instance abbrev pub status_equality : Eq GuardianStatus
status_equality = enum_equality status_index status_at status_at-status_index

abbrev pub state_index : RecoveryState → ℕ
state_index pending_approvals = 0
state_index quorum_reached = 1
state_index waiting_timelock = 2
state_index ready_for_execution = 3
state_index executing = 4
state_index completed = 5
state_index rejected = 6
state_index cancelled = 7
state_index expired = 8
state_index failed = 9
state_index reconciliation_required = 10

abbrev pub state_at : ℕ → RecoveryState
state_at zero = pending_approvals
state_at (suc zero) = quorum_reached
state_at (suc (suc zero)) = waiting_timelock
state_at (suc (suc (suc zero))) = ready_for_execution
state_at (suc (suc (suc (suc zero)))) = executing
state_at (suc (suc (suc (suc (suc zero))))) = completed
state_at (suc (suc (suc (suc (suc (suc zero)))))) = rejected
state_at (suc (suc (suc (suc (suc (suc (suc zero))))))) = cancelled
state_at (suc (suc (suc (suc (suc (suc (suc (suc zero)))))))) = expired
state_at (suc (suc (suc (suc (suc (suc (suc (suc (suc zero))))))))) = failed
state_at _ = reconciliation_required

pub state_at-state_index : (s : RecoveryState) → state_at (state_index s) ≡ s
state_at-state_index pending_approvals = refl
state_at-state_index quorum_reached = refl
state_at-state_index waiting_timelock = refl
state_at-state_index ready_for_execution = refl
state_at-state_index executing = refl
state_at-state_index completed = refl
state_at-state_index rejected = refl
state_at-state_index cancelled = refl
state_at-state_index expired = refl
state_at-state_index failed = refl
state_at-state_index reconciliation_required = refl

instance abbrev pub state_equality : Eq RecoveryState
state_equality = enum_equality state_index state_at state_at-state_index

abbrev pub reason_index : RecoveryReason → ℕ
reason_index account_compromise = 0
reason_index lost_access = 1
reason_index device_loss = 2
reason_index key_loss = 3

abbrev pub reason_at : ℕ → RecoveryReason
reason_at zero = account_compromise
reason_at (suc zero) = lost_access
reason_at (suc (suc zero)) = device_loss
reason_at _ = key_loss

pub reason_at-reason_index : (s : RecoveryReason) → reason_at (reason_index s) ≡ s
reason_at-reason_index account_compromise = refl
reason_at-reason_index lost_access = refl
reason_at-reason_index device_loss = refl
reason_at-reason_index key_loss = refl

instance abbrev pub reason_equality : Eq RecoveryReason
reason_equality = enum_equality reason_index reason_at reason_at-reason_index

abbrev pub decision_index : RecoveryDecision → ℕ
decision_index approve = 0
decision_index reject = 1

abbrev pub decision_at : ℕ → RecoveryDecision
decision_at zero = approve
decision_at _ = reject

pub decision_at-decision_index : (s : RecoveryDecision) → decision_at (decision_index s) ≡ s
decision_at-decision_index approve = refl
decision_at-decision_index reject = refl

instance abbrev pub decision_equality : Eq RecoveryDecision
decision_equality = enum_equality decision_index decision_at decision_at-decision_index

abbrev pub event_type_index : AuditEventType → ℕ
event_type_index guardian_added = 0
event_type_index guardian_updated = 1
event_type_index guardian_suspended = 2
event_type_index guardian_resumed = 3
event_type_index guardian_removed = 4
event_type_index policy_updated = 5
event_type_index requested = 6
event_type_index approved = 7
event_type_index request_rejected = 8
event_type_index quorum = 9
event_type_index timelock_started = 10
event_type_index ready = 11
event_type_index execution_started = 12
event_type_index new_key_provisioned = 13
event_type_index did_changed = 14
event_type_index request_completed = 15
event_type_index request_cancelled = 16
event_type_index request_expired = 17
event_type_index request_failed = 18
event_type_index reconciled = 19
event_type_index unauthorized_attempt = 20
event_type_index share_validation_failed = 21

abbrev pub event_type_at : ℕ → AuditEventType
event_type_at zero = guardian_added
event_type_at (suc zero) = guardian_updated
event_type_at (suc (suc zero)) = guardian_suspended
event_type_at (suc (suc (suc zero))) = guardian_resumed
event_type_at (suc (suc (suc (suc zero)))) = guardian_removed
event_type_at (suc (suc (suc (suc (suc zero))))) = policy_updated
event_type_at (suc (suc (suc (suc (suc (suc zero)))))) = requested
event_type_at (suc (suc (suc (suc (suc (suc (suc zero))))))) = approved
event_type_at (suc (suc (suc (suc (suc (suc (suc (suc zero)))))))) = request_rejected
event_type_at (suc (suc (suc (suc (suc (suc (suc (suc (suc zero))))))))) = quorum
event_type_at (suc (suc (suc (suc (suc (suc (suc (suc (suc (suc zero)))))))))) = timelock_started
event_type_at (suc (suc (suc (suc (suc (suc (suc (suc (suc (suc (suc zero))))))))))) = ready
event_type_at (suc (suc (suc (suc (suc (suc (suc (suc (suc (suc (suc (suc zero)))))))))))) =
    execution_started
event_type_at (suc (suc (suc (suc (suc (suc (suc (suc (suc (suc (suc (suc (suc zero))))))))))))) =
    new_key_provisioned
event_type_at
      (suc (suc (suc (suc (suc (suc (suc (suc (suc (suc (suc (suc (suc (suc zero)))))))))))))) =
    did_changed
event_type_at
      (suc
        (suc (suc (suc (suc (suc (suc (suc (suc (suc (suc (suc (suc (suc (suc zero))))))))))))))) =
    request_completed
event_type_at
      (suc (
        suc (
          suc
            (suc (suc (suc (suc (suc (suc (suc (suc (suc (suc (suc (suc (suc zero)))))))))))))))) =
    request_cancelled
event_type_at
      (suc (
        suc (
          suc (
            suc (
              suc
                (suc (suc (suc (suc (suc (suc (suc (suc (suc (suc (suc (suc zero))))))))))))))))) =
    request_expired
event_type_at
      (suc (
        suc (
          suc (
            suc (
              suc (
                suc (
                  suc
                    (suc (suc (suc (suc (suc (suc (suc (suc (suc (suc (suc zero)))))))))))))))))) =
    request_failed
event_type_at
      (suc (
        suc (
          suc (
            suc (
              suc (
                suc (
                  suc (
                    suc (
                      suc
                        (suc (suc (suc (suc (suc (suc (suc (suc (suc (suc zero))))))))))))))))))) =
    reconciled
event_type_at
      (suc (
        suc (
          suc (
            suc (
              suc (
                suc (
                  suc (
                    suc (
                      suc (
                        suc (
                          suc
                            (suc (suc (suc (suc (suc (suc (suc (suc (suc zero)))))))))))))))))))) =
    unauthorized_attempt
event_type_at _ = share_validation_failed

pub event_type_at-event_type_index : (s : AuditEventType) → event_type_at (event_type_index s) ≡ s
event_type_at-event_type_index guardian_added = refl
event_type_at-event_type_index guardian_updated = refl
event_type_at-event_type_index guardian_suspended = refl
event_type_at-event_type_index guardian_resumed = refl
event_type_at-event_type_index guardian_removed = refl
event_type_at-event_type_index policy_updated = refl
event_type_at-event_type_index requested = refl
event_type_at-event_type_index approved = refl
event_type_at-event_type_index request_rejected = refl
event_type_at-event_type_index quorum = refl
event_type_at-event_type_index timelock_started = refl
event_type_at-event_type_index ready = refl
event_type_at-event_type_index execution_started = refl
event_type_at-event_type_index new_key_provisioned = refl
event_type_at-event_type_index did_changed = refl
event_type_at-event_type_index request_completed = refl
event_type_at-event_type_index request_cancelled = refl
event_type_at-event_type_index request_expired = refl
event_type_at-event_type_index request_failed = refl
event_type_at-event_type_index reconciled = refl
event_type_at-event_type_index unauthorized_attempt = refl
event_type_at-event_type_index share_validation_failed = refl

instance abbrev pub event_type_equality : Eq AuditEventType
event_type_equality = enum_equality event_type_index event_type_at event_type_at-event_type_index

-- `event_type.value`
abbrev pub event_value : AuditEventType → String
event_value guardian_added = "GUARDIAN_ADDED"
event_value guardian_updated = "GUARDIAN_UPDATED"
event_value guardian_suspended = "GUARDIAN_SUSPENDED"
event_value guardian_resumed = "GUARDIAN_RESUMED"
event_value guardian_removed = "GUARDIAN_REMOVED"
event_value policy_updated = "RECOVERY_POLICY_UPDATED"
event_value requested = "RECOVERY_REQUESTED"
event_value approved = "RECOVERY_APPROVED"
event_value request_rejected = "RECOVERY_REJECTED"
event_value quorum = "RECOVERY_QUORUM_REACHED"
event_value timelock_started = "RECOVERY_TIMELOCK_STARTED"
event_value ready = "RECOVERY_READY"
event_value execution_started = "RECOVERY_EXECUTION_STARTED"
event_value new_key_provisioned = "RECOVERY_NEW_KEY_PROVISIONED"
event_value did_changed = "RECOVERY_DID_CHANGED"
event_value request_completed = "RECOVERY_COMPLETED"
event_value request_cancelled = "RECOVERY_CANCELLED"
event_value request_expired = "RECOVERY_EXPIRED"
event_value request_failed = "RECOVERY_FAILED"
event_value reconciled = "RECOVERY_RECONCILED"
event_value unauthorized_attempt = "UNAUTHORIZED_RECOVERY_ATTEMPT"
event_value share_validation_failed = "SECRET_SHARE_VALIDATION_FAILED"

abbrev pub status_value : GuardianStatus → String
status_value active = "ACTIVE"
status_value suspended = "SUSPENDED"
status_value revoked = "REVOKED"
status_value removed = "REMOVED"

abbrev pub reason_value : RecoveryReason → String
reason_value account_compromise = "ACCOUNT_COMPROMISE"
reason_value lost_access = "LOST_ACCESS"
reason_value device_loss = "DEVICE_LOSS"
reason_value key_loss = "KEY_LOSS"

abbrev pub decision_value : RecoveryDecision → String
decision_value approve = "APPROVE"
decision_value reject = "REJECT"

-- `require_transition`
unfoldable pub require_transition : RecoveryState → RecoveryState → Result (Unit {0})
require_transition current target =
    fail_if (not (contains target (transitions current))) RecoveryError.invalid_state (ok tt)

-- The `allowed` table of `Guardian.transition`.
abbrev pub status_transitions : GuardianStatus → List GuardianStatus
status_transitions active = suspended ∷ revoked ∷ removed ∷ []
status_transitions suspended = active ∷ revoked ∷ removed ∷ []
status_transitions revoked = removed ∷ []
status_transitions removed = []
