-- ===== src/Recovery/Repository/State.antt =====
-- The fields of `MemoryRecoveryRepository`
-- (services/recovery-service/app/infrastructure/persistence/memory_repository.py).
use secure_ssi_platform.Prelude.{ℕ, String, []}
use secure_ssi_platform.Prelude.Dict.{Dict}
use secure_ssi_platform.Recovery.Domain.Guardians.{Guardian, RecoveryPolicy}
use secure_ssi_platform.Recovery.Domain.Requests.{RecoveryRequest}
use secure_ssi_platform.Recovery.Domain.Records.{RecoveryApproval, ShareMetadata, AuditEvent}

-- (policy_id, policy_version, share_version, guardian_id)
abbrev pub ShareKey : Type 0
ShareKey = String × (ℕ × (ℕ × String))

pub record Repository : Type 0 where
  pub guardians : Dict String Guardian
  pub policies : Dict String RecoveryPolicy
  pub requests : Dict String RecoveryRequest
  pub approvals : Dict (String × String) RecoveryApproval
  pub shares : Dict ShareKey ShareMetadata
  pub audit_events : Dict String AuditEvent

abbrev pub empty_repository : Repository
empty_repository = record {
  guardians = [];
  policies = [];
  requests = [];
  approvals = [];
  shares = [];
  audit_events = [];
}
