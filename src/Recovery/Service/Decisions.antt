-- ===== src/Recovery/Service/Decisions.antt =====
-- `approve`, `reject` and `_decide` of `RecoveryService`
-- (services/recovery-service/app/application/services/recovery_service.py).
use secure_ssi_platform.Prelude.{
  ℕ, String, Bool, ◌&&◌, ◌||◌, not, Option, none, some, [], ◌∷◌, leb, find, concat, text_take,
  if◌then◌else◌,
}
use secure_ssi_platform.Prelude.Equality.{◌==◌, option_beq, contains, text_equality}
use secure_ssi_platform.Recovery.Monad.{
  RecoveryError, is_secret_share, Exec, pure, raise, lift, raise_if, run_if, catch, ◌>>=◌, ◌>>◌,
}
use secure_ssi_platform.Recovery.Domain.States.{
  RecoveryDecision, AuditEventType, state_equality, decision_equality, pending_approvals, approve,
  reject, approved, request_rejected, share_validation_failed, decision_value,
}
use secure_ssi_platform.Recovery.Domain.Guardians.{Guardian, can_approve}
use secure_ssi_platform.Recovery.Domain.Requests.{RecoveryRequest}
use secure_ssi_platform.Recovery.Domain.Records.{RecoveryApproval, check_approval}
use secure_ssi_platform.Recovery.Domain.Auth.{Principal, require, recovery_approve, recovery_reject}
use secure_ssi_platform.Recovery.Repository.Guardians as Guards
use secure_ssi_platform.Recovery.Repository.Requests as Store
use secure_ssi_platform.Recovery.Repository.Evidence.{list_approvals, add_approval_idempotently}
use secure_ssi_platform.Recovery.Environment.{
  Environment, World, Counter, atomic, now, increment, share_validation_failures,
}
use secure_ssi_platform.Recovery.Service.Audit.{audit, audit_unauthorized}
use secure_ssi_platform.Recovery.Service.Quorum.{
  sharing_context, share_for, expire, recalculate_quorum,
}

-- The guardian is the caller, of the request's wallet, and one of its snapshot.
abbrev pub entitled : Principal → String → RecoveryRequest → Guardian → Bool
entitled p guardian_id q g =
    g.guardian_user_id == p.user_id
    && g.wallet_id == q.wallet_id
    && contains guardian_id q.policy.guardian_ids

abbrev pub decision_target :
    Principal
    → String
    → Option RecoveryRequest
    → Option Guardian
    → Option (RecoveryRequest × Guardian)
decision_target p guardian_id (some q) (some g) =
    if entitled p guardian_id q g then some (q, g) else none
decision_target p guardian_id none g = none
decision_target p guardian_id (some q) none = none

abbrev decision_event : RecoveryDecision → AuditEventType
decision_event approve = approved
decision_event reject = request_rejected

abbrev decision_counter : RecoveryDecision → Counter
decision_counter approve = Counter.approvals
decision_counter reject = Counter.rejections

abbrev pub digest_of : (String → String) → Option String → Option String
digest_of sha256 none = none
digest_of sha256 (some s) = some (sha256 s)

-- The same decision with the same challenge and proof
abbrev pub repeats : RecoveryApproval → RecoveryDecision → String → Option String → Bool
repeats a decision challenge_digest proof_digest =
    a.decision == decision
    && a.challenge_digest == challenge_digest
    && option_beq a.proof_digest proof_digest

module _ (env : Environment) where
  -- A share that does not open is counted and recorded, and the error goes on.
  unfoldable pub validate_share :
      Principal → String → String → RecoveryRequest → ℕ → Exec World (Unit {0})
  validate_share principal request_id guardian_id request at = do
    share ← share_for env request guardian_id
    catch (lift (env.secret_sharing.validate_share share (sharing_context request))) (λ e.
        if is_secret_share e
        then (do
          increment share_validation_failures
          audit env share_validation_failed request_id principal.user_id at guardian_id
              (("guardianId", guardian_id) ∷ [])
          raise e)
        else raise e)

  -- The event and the counter of a decision that is new.
  unfoldable pub record_decision :
      Principal → String → String → RecoveryDecision → ℕ → Exec World (Unit {0})
  record_decision principal request_id guardian_id decision at = do
    audit env (decision_event decision) request_id principal.user_id at guardian_id
        (("guardianId", guardian_id) ∷ ("decision", decision_value decision) ∷ [])
    increment (decision_counter decision)

  -- The approval that `_decide` builds.
  abbrev pub new_approval :
      Principal
      → String
      → String
      → RecoveryRequest
      → RecoveryDecision
      → String
      → Option String
      → ℕ
      → RecoveryApproval
  new_approval principal request_id guardian_id request decision challenge proof at = record {
    approval_id = concat (
        "approval_"
        ∷ text_take 32 (env.sha256_hex (concat (request_id ∷ ":" ∷ guardian_id ∷ [])))
        ∷ []);
    request_id = request_id;
    session_id = request.session.session_id;
    guardian_id = guardian_id;
    guardian_user_id = principal.user_id;
    wallet_id = request.wallet_id;
    decision = decision;
    challenge_digest = challenge;
    proof_digest = proof;
    decided_at = at;
    created_at = at;
  }

  -- `_decide` for a guardian that has not decided yet.
  unfoldable pub decide_new :
      Principal
      → String
      → String
      → RecoveryRequest
      → Guardian
      → String
      → Option String
      → RecoveryDecision
      → Exec World (RecoveryApproval × RecoveryRequest)
  unfolding validate_share record_decision
  decide_new principal request_id guardian_id request guardian challenge proof decision = do
    at ← now env
    raise_if (not (request.session.state == pending_approvals)) RecoveryError.conflict
    run_if (leb request.session.approval_expires_at at || leb request.session.expires_at at)
        (expire env request principal.user_id at >>= λ _. raise RecoveryError.conflict)
    raise_if (not (can_approve guardian)) RecoveryError.conflict
    run_if (not (env.sha256_hex challenge == request.challenge.digest))
        (audit_unauthorized env request_id principal.user_id >> raise RecoveryError.conflict)
    validate_share principal request_id guardian_id request at
    approval ← lift (
        check_approval (
          new_approval principal request_id guardian_id request decision (env.sha256_hex challenge)
            proof at))
    stored ← atomic env (add_approval_idempotently approval)
    run_if stored.1 (record_decision principal request_id guardian_id decision at)
    current ← recalculate_quorum env 8 request_id at
    pure (stored.0, current)

  -- `_decide` once it has found the earlier decision of the guardian, if there is one.
  abbrev pub decide_after :
      Principal
      → String
      → String
      → RecoveryRequest
      → Guardian
      → String
      → Option String
      → RecoveryDecision
      → Option RecoveryApproval
      → Exec World (RecoveryApproval × RecoveryRequest)
  decide_after principal request_id guardian_id request guardian challenge proof decision none =
      decide_new principal request_id guardian_id request guardian challenge proof decision
  decide_after p request_id guardian_id request guardian challenge proof decision (some a) =
      if repeats a decision (env.sha256_hex challenge) proof
      then pure (a, request)
      else raise RecoveryError.conflict

  abbrev pub decide_target :
      Principal
      → String
      → String
      → String
      → Option String
      → RecoveryDecision
      → Option (RecoveryRequest × Guardian)
      → Exec World (RecoveryApproval × RecoveryRequest)
  decide_target principal request_id guardian_id challenge proof decision none = do
    audit_unauthorized env request_id principal.user_id
    raise RecoveryError.not_found
  decide_target principal request_id guardian_id challenge proof decision (some (q, g)) = do
    decisions ← atomic env (list_approvals request_id)
    decide_after principal request_id guardian_id q g challenge (digest_of env.sha256_hex proof)
        decision (find (λ a. a.guardian_id == guardian_id) decisions)

  -- `_decide`
  unfoldable pub decide :
      Principal
      → String
      → String
      → String
      → Option String
      → RecoveryDecision
      → Exec World (RecoveryApproval × RecoveryRequest)
  unfolding decide_new
  decide principal request_id guardian_id challenge proof decision = do
    request ← atomic env (Store.get_request request_id)
    guardian ← atomic env (Guards.get_guardian guardian_id)
    decide_target principal request_id guardian_id challenge proof decision
        (decision_target principal guardian_id request guardian)

  -- `RecoveryService.approve`
  unfoldable pub approve_request :
      Principal
      → String
      → String
      → String
      → Option String
      → Exec World (RecoveryApproval × RecoveryRequest)
  unfolding decide
  approve_request principal request_id guardian_id challenge proof = do
    lift (require principal recovery_approve)
    decide principal request_id guardian_id challenge proof approve

  -- `RecoveryService.reject`
  unfoldable pub reject_request :
      Principal
      → String
      → String
      → String
      → Option String
      → Exec World (RecoveryApproval × RecoveryRequest)
  unfolding decide
  reject_request principal request_id guardian_id challenge proof = do
    lift (require principal recovery_reject)
    decide principal request_id guardian_id challenge proof reject
