-- ===== src/Recovery/Service/Audit.antt =====
-- `_audit`, `_audit_unauthorized` and `_digest` of
-- services/recovery-service/app/application/services/recovery_service.py.
use secure_ssi_platform.Prelude.{ℕ, String, List, [], ◌∷◌, concat}
use secure_ssi_platform.Recovery.Monad.{Exec, lift, ◌>>=◌}
use secure_ssi_platform.Recovery.Domain.States.{AuditEventType, unauthorized_attempt, event_value}
use secure_ssi_platform.Recovery.Domain.Records.{check_event}
use secure_ssi_platform.Recovery.Repository.Evidence.{append_audit_idempotently}
use secure_ssi_platform.Recovery.Environment.{Environment, World, atomic, now, new_id}

module _ (env : Environment) where
  -- "recovery_audit_" and the digest of type, aggregate and discriminator
  unfoldable pub audit_event_id : AuditEventType → String → String → String
  unfolding concat
  audit_event_id event_type aggregate_id discriminator = concat (
      "recovery_audit_"
      ∷ env.sha256_hex
          (concat (event_value event_type ∷ ":" ∷ aggregate_id ∷ ":" ∷ discriminator ∷ []))
      ∷ [])

  -- `_audit`
  unfoldable pub audit :
      AuditEventType → String → String → ℕ → String → List (String × String) → Exec World (Unit {0})
  audit event_type aggregate_id actor_id at discriminator metadata = do
    e ← lift (
        check_event (record {
          event_id = audit_event_id event_type aggregate_id discriminator;
          event_type = event_type;
          aggregate_id = aggregate_id;
          actor_id = actor_id;
          occurred_at = at;
          metadata = metadata;
        }))
    atomic env (append_audit_idempotently e)

  -- `_audit_unauthorized`
  unfoldable pub audit_unauthorized : String → String → Exec World (Unit {0})
  audit_unauthorized request_id actor_id = do
    at ← now env
    discriminator ← new_id env "attempt"
    audit unauthorized_attempt request_id actor_id at discriminator []
