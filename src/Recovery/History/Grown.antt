-- ===== src/Recovery/History/Grown.antt =====
-- A request as it is created, and what comes of it by steps
-- (`create_request` of services/recovery-service/app/application/services/recovery_service.py).
use secure_ssi_platform.Prelude.{◌≤◌, ◌<◌, ◌≡◌, true, none, length}
use secure_ssi_platform.Prelude.Equality.{distinct, text_equality}
use secure_ssi_platform.Recovery.Domain.States.{pending_approvals}
use secure_ssi_platform.Recovery.Domain.Requests.{RecoveryRequest}
use secure_ssi_platform.Recovery.History.{Steps}

-- A request as `create_request` first stores it.
pub record IsFresh (q : RecoveryRequest) : Type 0 where
  pub state : q.session.state ≡ pending_approvals
  pub version : q.version ≡ 1
  pub least : 1 ≤ q.policy.minimum_approvals
  pub most : q.policy.minimum_approvals ≤ length q.policy.guardian_ids
  pub guardians : distinct q.policy.guardian_ids ≡ true
  pub window : q.session.created_at < q.session.approval_expires_at
  pub whole : q.session.approval_expires_at ≤ q.session.expires_at
  pub required : q.session.quorum.required ≡ q.policy.minimum_approvals
  pub undecided : q.session.quorum.approvals ≡ 0
  pub unreached : q.session.quorum_reached_at ≡ none
  pub unlocked : q.session.executable_after ≡ none
  pub untried : q.session.attempt_count ≡ 0
  pub unleased : q.session.lease ≡ none
  pub no_result : q.session.result ≡ none
  pub opened : q.session.created_at ≡ q.created_at

-- The request was created, and only `Step`s were made since.
pub record IsGrown (q : RecoveryRequest) : Type 0 where
  pub origin : RecoveryRequest
  pub fresh : IsFresh origin
  pub steps : Steps origin q
