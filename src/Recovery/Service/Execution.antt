-- ===== src/Recovery/Service/Execution.antt =====
-- `_execute` and `_record_execution_failure` of `RecoveryService`
-- (services/recovery-service/app/application/services/recovery_service.py).
use secure_ssi_platform.Prelude.{
  ℕ, ◌+◌, String, Bool, true, false, ◌&&◌, not, none, some, List, [], ◌∷◌, ltb, leb, length, concat,
  print_nat, has_prefix, second_part, if◌then◌else◌,
}
use secure_ssi_platform.Prelude.Equality.{◌==◌, nat_equality, text_equality}
use secure_ssi_platform.Recovery.Monad.{
  RecoveryError, is_secret_share, Exec, pure, lift, or_raise, raise_if, run_if, catch, ◌>>=◌, ◌>>◌,
}
use secure_ssi_platform.Recovery.Domain.States.{
  state_equality, ready_for_execution, executing, completed, reconciliation_required, failed,
  reason_value, execution_started, new_key_provisioned, did_changed, request_completed,
  request_failed,
}
use secure_ssi_platform.Recovery.Domain.Guardians.{seconds}
use secure_ssi_platform.Recovery.Domain.Requests.{
  RecoveryLease, RecoveryFailure, RecoveryResult, RecoverySession, RecoveryRequest, check_lease,
  check_failure, check_result, transition,
}
use secure_ssi_platform.Recovery.Domain.Records.{RecoveryApproval, ShareMetadata, KeyOutcome}
use secure_ssi_platform.Recovery.Repository.Requests as Store
use secure_ssi_platform.Recovery.Repository.Evidence.{list_approvals}
use secure_ssi_platform.Recovery.Environment.{
  Environment, World, Counter, external, atomic, now, increment, share_validation_failures,
}
use secure_ssi_platform.Recovery.Service.Audit.{audit}
use secure_ssi_platform.Recovery.Service.Quorum.{
  approves, sharing_context, share_for, guardian_still_active,
}

abbrev pub with_claim : RecoveryLease → ℕ → RecoverySession → RecoverySession
with_claim lease attempt s = record s { lease = some lease; attempt_count = attempt }

abbrev pub with_result : RecoveryResult → RecoverySession → RecoverySession
with_result r s = record s { lease = none; result = some r; failure = none }

abbrev pub with_failure : RecoveryFailure → RecoverySession → RecoverySession
with_failure f s = record s { lease = none; failure = some f }

-- "true" and "false"
abbrev bool_text : Bool → String
bool_text true = "true"
bool_text false = "false"

-- The result that an outcome of the gateway gives.
abbrev pub result_of : KeyOutcome → ℕ → RecoveryResult
result_of o at = record {
  predecessor_key_id = o.predecessor_key_id;
  successor_key_id = o.successor_key_id;
  predecessor_did = o.predecessor_did;
  successor_did = o.successor_did;
  provider = o.provider;
  completed_at = at;
}

-- `retryable and not exhausted`
abbrev pub may_retry : RecoveryRequest → Bool → Bool
may_retry q retryable = retryable && not (leb q.policy.maximum_attempts q.session.attempt_count)

-- A `did:key` holder must get a new DID.
abbrev pub keeps_did_key : KeyOutcome → Bool
keeps_did_key o = has_prefix o.predecessor_did "did:key:" && o.predecessor_did == o.successor_did

module _ (env : Environment) where
  -- `_record_execution_failure`
  unfoldable pub record_execution_failure :
      RecoveryRequest → String → String → Bool → Exec World RecoveryRequest
  record_execution_failure request actor_id code retryable = do
    at ← now env
    failure ← lift (
        check_failure (record {
          code = code;
          retryable = may_retry request retryable;
          occurred_at = at;
          attempt = request.session.attempt_count;
        }))
    next ← lift (
        transition request (if may_retry request retryable then reconciliation_required else failed)
          at (with_failure failure))
    stored ← atomic env (Store.update_request next request.version)
    audit env request_failed request.request_id actor_id at
        (concat (print_nat request.session.attempt_count ∷ ":" ∷ code ∷ []))
        (("errorCode", code)
          ∷ (
            "retryable",
            bool_text (not (leb request.policy.maximum_attempts request.session.attempt_count)),
          )
          ∷ [])
    increment Counter.failures
    pure stored

  -- The approvals of active guardians; a rejection is passed over with no lookup.
  unfoldable pub active_approvals :
      RecoveryRequest → List RecoveryApproval → Exec World (List RecoveryApproval)
  active_approvals q [] = pure []
  active_approvals q (a ∷ rest) =
      if approves a
      then (do
        counted ← guardian_still_active env a.guardian_id q
        kept ← active_approvals q rest
        pure (if counted then a ∷ kept else kept))
      else active_approvals q rest

  -- `tuple(self._share_for(request, item.guardian_id) for item in approvals)`
  unfoldable pub shares_for :
      RecoveryRequest → List RecoveryApproval → Exec World (List ShareMetadata)
  shares_for q [] = pure []
  shares_for q (a ∷ rest) = do
    s ← share_for env q a.guardian_id
    ss ← shares_for q rest
    pure (s ∷ ss)

  -- The authorisation: enough active approvals, and a secret that their shares give back.
  unfoldable pub authorise : RecoveryRequest → Exec World (Unit {0})
  unfolding active_approvals shares_for
  authorise request = do
    decisions ← atomic env (list_approvals request.request_id)
    kept ← active_approvals request decisions
    raise_if (ltb (length kept) request.policy.minimum_approvals) RecoveryError.secret_share
    shares ← shares_for request kept
    recovered ← lift (
        env.secret_sharing.combine shares request.policy.minimum_approvals (sharing_context request)
          request.policy.secret_commitment)
    raise_if (not (length recovered == 16)) RecoveryError.secret_share

  -- The events of a completed recovery.
  unfoldable pub audit_completion :
      RecoveryRequest → String → ℕ → KeyOutcome → Exec World (Unit {0})
  audit_completion request actor_id at o = do
    audit env new_key_provisioned request.request_id actor_id at o.successor_key_id
        (("provider", o.provider) ∷ [])
    run_if (not (o.predecessor_did == o.successor_did)) (
        or_raise (second_part o.successor_did) RecoveryError.unexpected >>= λ method.
        audit env did_changed request.request_id actor_id at o.successor_did
          (("method", method) ∷ []))
    audit env request_completed request.request_id actor_id at "completed"
        (("reason", reason_value request.reason) ∷ [])

  -- The body of the `try` in `_execute`, from the claimed request on.
  unfoldable pub run_claimed :
      RecoveryRequest → RecoveryRequest → String → Exec World RecoveryRequest
  unfolding authorise audit_completion
  run_claimed request claimed actor_id = do
    authorise request
    outcome ← external (λ n.
        env.rotate_for_recovery n request.request_id request.wallet_id request.owner_user_id
          request.reason)
    at ← now env
    raise_if (keeps_did_key outcome) RecoveryError.conflict
    result ← lift (check_result (result_of outcome at))
    next ← lift (transition claimed completed at (with_result result))
    stored ← atomic env (Store.update_request next claimed.version)
    audit_completion request actor_id at outcome
    increment Counter.successes
    pure stored

  -- The `except` clauses of `_execute`.
  abbrev pub failed_execution :
      RecoveryRequest → String → RecoveryError → Exec World RecoveryRequest
  failed_execution claimed actor_id e =
      if is_secret_share e
      then (do
        increment share_validation_failures
        record_execution_failure claimed actor_id "RECOVERY_AUTHORIZATION_INVALID" false)
      else record_execution_failure claimed actor_id "RECOVERY_EXECUTION_FAILED" true

  -- `_execute`
  unfoldable pub execute : RecoveryRequest → String → Exec World RecoveryRequest
  unfolding run_claimed record_execution_failure
  execute request actor_id =
      if not (request.session.state == ready_for_execution) then pure request else do
        at ← now env
        lease ← lift (
            check_lease (record {
              worker_id = env.worker_id;
              acquired_at = at;
              expires_at = at + seconds env.settings.reconciliation_lease_seconds;
              attempt = request.session.attempt_count + 1;
            }))
        next ←
            lift (
              transition request executing at
                (with_claim lease (request.session.attempt_count + 1)))
        claimed ← atomic env (Store.update_request next request.version)
        audit env execution_started request.request_id actor_id at
            (print_nat (request.session.attempt_count + 1))
            (("attempt", print_nat (request.session.attempt_count + 1)) ∷ [])
        catch (run_claimed request claimed actor_id) (failed_execution claimed actor_id)
