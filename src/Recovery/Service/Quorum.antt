-- ===== src/Recovery/Service/Quorum.antt =====
-- `_recalculate_quorum`, `_guardian_still_active`, `_share_for` and `_expire` of `RecoveryService`
-- (services/recovery-service/app/application/services/recovery_service.py).
use secure_ssi_platform.Prelude.{
  ℕ, zero, suc, ◌+◌, String, Bool, false, ◌&&◌, not, Option, none, some, List, [], ◌∷◌, ltb, leb,
  count, length, print_nat, if◌then◌else◌,
}
use secure_ssi_platform.Prelude.Equality.{◌==◌, contains, text_equality}
use secure_ssi_platform.Recovery.Monad.{
  RecoveryError, is_conflict, Exec, pure, raise, lift, or_raise, catch, ◌>>=◌, ◌>>◌,
}
use secure_ssi_platform.Recovery.Domain.States.{
  active, status_equality, state_equality, decision_equality, pending_approvals, quorum_reached,
  waiting_timelock, rejected, expired, approve, reject, quorum, timelock_started, request_expired,
}
use secure_ssi_platform.Recovery.Domain.Guardians.{Guardian, seconds}
use secure_ssi_platform.Recovery.Domain.Requests.{
  RecoveryQuorum, RecoverySession, RecoveryRequest, check_quorum, check_session, check_request,
  transition,
}
use secure_ssi_platform.Recovery.Domain.Records.{RecoveryApproval, ShareMetadata, SharingContext}
use secure_ssi_platform.Recovery.Repository.Guardians as Guards
use secure_ssi_platform.Recovery.Repository.Requests as Store
use secure_ssi_platform.Recovery.Repository.Evidence.{list_approvals, get_share}
use secure_ssi_platform.Recovery.Environment.{Environment, World, atomic, increment, expirations}
use secure_ssi_platform.Recovery.Environment as Env
use secure_ssi_platform.Recovery.Service.Audit.{audit}

-- The guardian is active, of the request's wallet, and one of its snapshot.
abbrev pub counts_for : RecoveryRequest → Option Guardian → Bool
counts_for q none = false
counts_for q (some g) =
    g.status == active && contains g.guardian_id q.policy.guardian_ids && g.wallet_id == q.wallet_id

-- The test of `_guardian_still_active`.
abbrev pub still_active : String → RecoveryRequest → Option Guardian → Bool
still_active guardian_id q none = false
still_active guardian_id q (some g) =
    g.status == active && g.wallet_id == q.wallet_id && contains guardian_id q.policy.guardian_ids

abbrev pub approves : RecoveryApproval → Bool
approves a = a.decision == approve

abbrev pub rejects : RecoveryApproval → Bool
rejects a = a.decision == reject

-- The quorum that the valid decisions give.
abbrev pub tally : RecoveryRequest → ℕ → List RecoveryApproval → RecoveryQuorum
tally q at valid = record {
  required = q.policy.minimum_approvals;
  approvals = count approves valid;
  rejections = count rejects valid;
  reached_at = if leb q.policy.minimum_approvals (count approves valid) then some at else none;
}

-- `len(guardian_ids) - rejection_count < minimum_approvals`, where the left side may be negative
abbrev pub unreachable : RecoveryRequest → RecoveryQuorum → Bool
unreachable q n = ltb (length q.policy.guardian_ids) (q.policy.minimum_approvals + n.rejections)

abbrev pub with_quorum : RecoveryQuorum → RecoverySession → RecoverySession
with_quorum n s = record s { quorum = n }

abbrev pub with_reached : RecoveryQuorum → ℕ → RecoverySession → RecoverySession
with_reached n at s = record s { quorum = n; quorum_reached_at = some at }

abbrev pub with_lock : ℕ → ℕ → RecoverySession → RecoverySession
with_lock started after s = record s {
  time_lock_started_at = some started;
  executable_after = some after;
}

-- `replace(request, session=replace(request.session, quorum=…, updated_at=now), …)`
abbrev pub recounted : RecoveryRequest → RecoveryQuorum → ℕ → RecoveryRequest
recounted q n at = record q {
  session = record q.session { quorum = n; updated_at = at };
  updated_at = at;
  version = q.version + 1;
}

-- `_share_for`: a share of the request, or the error
abbrev pub owned_share : RecoveryRequest → Option ShareMetadata → Option ShareMetadata
owned_share q none = none
owned_share q (some s) = if s.recovery_request_id == q.request_id then some s else none

-- `_sharing_context`
abbrev pub sharing_context : RecoveryRequest → SharingContext
sharing_context q = record {
  recovery_request_id = q.request_id;
  policy_id = q.policy.policy_id;
  policy_version = q.policy.policy_version;
  share_version = q.policy.share_version;
}

module _ (env : Environment) where
  unfoldable pub share_for : RecoveryRequest → String → Exec World ShareMetadata
  share_for q guardian_id = do
    found ←
        atomic env
          (get_share q.policy.policy_id q.policy.policy_version q.policy.share_version guardian_id)
    or_raise (owned_share q found) RecoveryError.secret_share

  -- `_guardian_still_active`
  unfoldable pub guardian_still_active : String → RecoveryRequest → Exec World Bool
  guardian_still_active guardian_id q = do
    found ← atomic env (Guards.get_guardian guardian_id)
    pure (still_active guardian_id q found)

  -- The approvals whose guardian counts, each looked up in turn.
  unfoldable pub valid_decisions :
      RecoveryRequest → List RecoveryApproval → Exec World (List RecoveryApproval)
  valid_decisions q [] = pure []
  valid_decisions q (a ∷ rest) = do
    found ← atomic env (Guards.get_guardian a.guardian_id)
    valid ← valid_decisions q rest
    pure (if counts_for q found then a ∷ valid else valid)

  -- The part of the loop's body for a quorum that is reached.
  unfoldable pub start_timelock :
      String → RecoveryRequest → ℕ → RecoveryQuorum → Exec World RecoveryRequest
  start_timelock request_id request at n = do
    next ← lift (transition request quorum_reached at (with_reached n at))
    reached ← atomic env (Store.update_request next request.version)
    audit env quorum request_id env.worker_id at "quorum"
        (("approvalCount", print_nat n.approvals) ∷ [])
    increment Env.quorum_reached
    waiting ← lift (
        transition reached waiting_timelock at
          (with_lock at (at + seconds request.policy.time_lock_seconds)))
    stored ← atomic env (Store.update_request waiting reached.version)
    audit env timelock_started request_id env.worker_id at "timelock"
        (("timeLockSeconds", print_nat request.policy.time_lock_seconds) ∷ [])
    pure stored

  -- The body of the `try` in `_recalculate_quorum`.
  unfoldable pub apply_quorum :
      String → RecoveryRequest → ℕ → RecoveryQuorum → Exec World RecoveryRequest
  unfolding start_timelock
  apply_quorum request_id request at n =
      if leb request.policy.minimum_approvals n.approvals
      then start_timelock request_id request at n
      else if unreachable request n
      then (do
        next ← lift (transition request rejected at (with_quorum n))
        atomic env (Store.update_request next request.version))
      else (do
        session ← lift (check_session (recounted request n at).session)
        next ← lift (check_request (recounted request n at))
        atomic env (Store.update_request next request.version))

  -- `_recalculate_quorum`; the first argument is the rounds left of `range(8)`.
  unfoldable pub recalculate_quorum : ℕ → String → ℕ → Exec World RecoveryRequest
  unfolding valid_decisions apply_quorum
  recalculate_quorum zero request_id at = raise RecoveryError.conflict
  recalculate_quorum (suc rounds) request_id at = do
    found ← atomic env (Store.get_request request_id)
    request ← or_raise found RecoveryError.not_found
    if not (request.session.state == pending_approvals) then pure request else do
      decisions ← atomic env (list_approvals request_id)
      valid ← valid_decisions request decisions
      n ← lift (check_quorum (tally request at valid))
      catch (apply_quorum request_id request at n)
          (λ e. if is_conflict e then recalculate_quorum rounds request_id at else raise e)

  -- `_expire`
  unfoldable pub expire : RecoveryRequest → String → ℕ → Exec World RecoveryRequest
  expire request actor_id at = if request.session.state == expired then pure request else do
    next ← lift (transition request expired at (λ s. s))
    stored ← atomic env (Store.update_request next request.version)
    audit env request_expired request.request_id actor_id at "expired" []
    increment expirations
    pure stored
