-- ===== src/Recovery/Domain/Records.antt =====
-- services/recovery-service/app/domain/recovery.py: approvals, secret shares and audit events; and
-- the context of services/recovery-service/app/application/ports/secret_sharing.py.
use secure_ssi_platform.Prelude.{
  ℕ, String, ◌&&◌, ◌||◌, not, Option, List, [], ◌∷◌, ltb, leb, any, is_empty,
}
use secure_ssi_platform.Recovery.Monad.{RecoveryError, Result, ok, fail_if}
use secure_ssi_platform.Recovery.Domain.States.{RecoveryDecision, AuditEventType}

pub record RecoveryApproval : Type 0 where
  pub approval_id : String
  pub request_id : String
  pub session_id : String
  pub guardian_id : String
  pub guardian_user_id : String
  pub wallet_id : String
  pub decision : RecoveryDecision
  pub challenge_digest : String
  pub proof_digest : Option String
  pub decided_at : ℕ
  pub created_at : ℕ

unfoldable pub check_approval : RecoveryApproval → Result RecoveryApproval
check_approval a =
    fail_if
      (any is_empty (
        a.approval_id ∷ a.request_id ∷ a.session_id ∷ a.guardian_id ∷ a.guardian_user_id
        ∷ a.wallet_id ∷ a.challenge_digest ∷ []))
      RecoveryError.validation (ok a)

pub record ShareMetadata : Type 0 where
  pub share_id : String
  pub recovery_request_id : String
  pub policy_id : String
  pub policy_version : ℕ
  pub share_version : ℕ
  pub guardian_id : String
  pub share_index : ℕ
  pub threshold : ℕ
  pub share_count : ℕ
  pub envelope_version : ℕ
  pub integrity_digest : String
  pub encrypted_envelope : String
  pub created_at : ℕ

unfoldable pub check_share : ShareMetadata → Result ShareMetadata
check_share s =
    fail_if
      (any is_empty (
        s.share_id ∷ s.recovery_request_id ∷ s.policy_id ∷ s.guardian_id ∷ s.integrity_digest
        ∷ s.encrypted_envelope ∷ []))
      RecoveryError.validation
      (fail_if (not (leb 1 s.threshold && leb s.threshold s.share_count && leb s.share_count 32))
        RecoveryError.validation
        (fail_if (not (leb 1 s.share_index && leb s.share_index s.share_count))
          RecoveryError.validation
          (fail_if (ltb s.policy_version 1 || ltb s.share_version 1 || ltb s.envelope_version 1)
            RecoveryError.validation (ok s))))

pub record AuditEvent : Type 0 where
  pub event_id : String
  pub event_type : AuditEventType
  pub aggregate_id : String
  pub actor_id : String
  pub occurred_at : ℕ
  pub metadata : List (String × String)

unfoldable pub check_event : AuditEvent → Result AuditEvent
check_event e =
    fail_if (is_empty e.event_id || is_empty e.aggregate_id || is_empty e.actor_id)
      RecoveryError.validation (ok e)

-- `SecretSharingContext`
pub record SharingContext : Type 0 where
  pub recovery_request_id : String
  pub policy_id : String
  pub policy_version : ℕ
  pub share_version : ℕ

-- `SplitSecretResult`
pub record SplitSecret : Type 0 where
  pub commitment : String
  pub shares : List ShareMetadata

-- `ManagedKeyRecoveryOutcome` of app/application/ports/managed_keys.py
pub record KeyOutcome : Type 0 where
  pub predecessor_key_id : String
  pub successor_key_id : String
  pub predecessor_did : String
  pub successor_did : String
  pub provider : String
