-- ===== src/Recovery/History.antt =====
-- The life of a recovery request as a step relation: what one write of the service may do to a
-- stored request (services/recovery-service/app/application/services/recovery_service.py), stated
-- apart from the code that does it.
pub mod Reach
pub mod Moves
pub mod Table
pub mod Grown
pub mod Safety
use secure_ssi_platform.Prelude.{
  ℕ, ◌+◌, ◌≤◌, ◌<◌, ◌≡◌, ◌⊎◌, Bool, true, false, Option, none, some, length, or_else,
}
use secure_ssi_platform.Recovery.Domain.States.{
  RecoveryState, pending_approvals, waiting_timelock, ready_for_execution, executing, completed,
  rejected, cancelled, expired, failed, reconciliation_required, terminal,
}
use secure_ssi_platform.Recovery.Domain.States as States
use secure_ssi_platform.Recovery.Domain.Guardians.{seconds}
use secure_ssi_platform.Recovery.Domain.Requests.{
  RecoveryLease, RecoveryResult, RecoverySession, RecoveryRequest,
}
use secure_ssi_platform.Recovery.Service.Creation.{past_cancelling}
use secure_ssi_platform.Recovery.Service.Reconciliation.{lease_live}

-- What no write changes, and the version, which each write raises by one.
pub record Kept (r r' : RecoveryRequest) : Type 0 where
  pub request_id : r'.request_id ≡ r.request_id
  pub owner_user_id : r'.owner_user_id ≡ r.owner_user_id
  pub wallet_id : r'.wallet_id ≡ r.wallet_id
  pub reason : r'.reason ≡ r.reason
  pub policy : r'.policy ≡ r.policy
  pub challenge : r'.challenge ≡ r.challenge
  pub nonce : r'.nonce ≡ r.nonce
  pub created_at : r'.created_at ≡ r.created_at
  pub session_id : r'.session.session_id ≡ r.session.session_id
  pub opened_at : r'.session.created_at ≡ r.session.created_at
  pub approval_expires_at : r'.session.approval_expires_at ≡ r.session.approval_expires_at
  pub expires_at : r'.session.expires_at ≡ r.session.expires_at
  pub stamped : r'.session.updated_at ≡ r'.updated_at
  pub version : r'.version ≡ r.version + 1

-- The quorum and the time-lock stay as they are.
pub record SameLock (s s' : RecoverySession) : Type 0 where
  pub quorum : s'.quorum ≡ s.quorum
  pub quorum_reached_at : s'.quorum_reached_at ≡ s.quorum_reached_at
  pub time_lock_started_at : s'.time_lock_started_at ≡ s.time_lock_started_at
  pub executable_after : s'.executable_after ≡ s.executable_after

-- The execution stays as it is.
pub record SameRun (s s' : RecoverySession) : Type 0 where
  pub attempt_count : s'.attempt_count ≡ s.attempt_count
  pub lease : s'.lease ≡ s.lease
  pub result : s'.result ≡ s.result
  pub failure : s'.failure ≡ s.failure

-- A lease that the session's attempt holds, from the time of the write on.
pub record Leased (turn at : ℕ) (l : RecoveryLease) : Type 0 where
  pub attempt : l.attempt ≡ turn
  pub acquired_at : l.acquired_at ≡ at
  pub expires_at : at < l.expires_at

pub data Event : Type 0 where
  recount reach refuse lock release claim complete : Event
  lose_lease fail_once give_up retry expire cancel : Event

-- What the event asks of the request before it and does to it; `at` is the time of the write.
abbrev pub Effect : Event → RecoveryRequest → RecoveryRequest → Type 0
Effect recount r r' =
    (r.session.state ≡ pending_approvals)
    × (r'.session.state ≡ pending_approvals)
    × (r'.session.quorum.required ≡ r.policy.minimum_approvals)
    × (r'.session.quorum.approvals < r.policy.minimum_approvals)
    × (r'.session.quorum_reached_at ≡ r.session.quorum_reached_at)
    × (r'.session.executable_after ≡ r.session.executable_after)
    × SameRun r.session r'.session
Effect reach r r' =
    (r.session.state ≡ pending_approvals)
    × (r'.session.state ≡ States.quorum_reached)
    × (r'.session.quorum.required ≡ r.policy.minimum_approvals)
    × (r.policy.minimum_approvals ≤ r'.session.quorum.approvals)
    × (r'.session.quorum.reached_at ≡ some r'.updated_at)
    × (r'.session.quorum_reached_at ≡ some r'.updated_at)
    × SameRun r.session r'.session
Effect refuse r r' =
    (r.session.state ≡ pending_approvals)
    × (r'.session.state ≡ rejected)
    × (length r.policy.guardian_ids < r.policy.minimum_approvals + r'.session.quorum.rejections)
    × SameRun r.session r'.session
Effect lock r r' =
    (r.session.state ≡ States.quorum_reached)
    × (r'.session.state ≡ waiting_timelock)
    × (r'.session.quorum ≡ r.session.quorum)
    × (r'.session.quorum_reached_at ≡ r.session.quorum_reached_at)
    × (r'.session.time_lock_started_at ≡ some (or_else r.session.quorum_reached_at r.updated_at))
    × (r'.session.executable_after
        ≡ some
            (or_else r.session.quorum_reached_at r.updated_at + seconds r.policy.time_lock_seconds))
    × SameRun r.session r'.session
Effect release r r' =
    (r.session.state ≡ waiting_timelock)
    × (r'.session.state ≡ ready_for_execution)
    × ((t : ℕ) × (r.session.executable_after ≡ some t) × (t ≤ r'.updated_at))
    × SameLock r.session r'.session
    × SameRun r.session r'.session
Effect claim r r' =
    (r.session.state ≡ ready_for_execution)
    × (r'.session.state ≡ executing)
    × (r'.session.attempt_count ≡ r.session.attempt_count + 1)
    × ((l : RecoveryLease) × (r'.session.lease ≡ some l)
        × Leased (r.session.attempt_count + 1) r'.updated_at l)
    × (r'.session.result ≡ r.session.result)
    × SameLock r.session r'.session
Effect complete r r' =
    (r.session.state ≡ executing)
    × (r'.session.state ≡ completed)
    × (r'.session.attempt_count ≡ r.session.attempt_count)
    × (r'.session.lease ≡ none)
    × ((o : RecoveryResult) × (r'.session.result ≡ some o))
    × SameLock r.session r'.session
Effect lose_lease r r' =
    (r.session.state ≡ executing)
    × (r'.session.state ≡ reconciliation_required)
    × (lease_live r.session.lease r'.updated_at ≡ false)
    × (r'.session.attempt_count ≡ r.session.attempt_count)
    × (r'.session.lease ≡ none)
    × (r'.session.result ≡ r.session.result)
    × SameLock r.session r'.session
Effect fail_once r r' =
    (r.session.state ≡ executing)
    × (r'.session.state ≡ reconciliation_required)
    × (r.session.attempt_count < r.policy.maximum_attempts)
    × (r'.session.attempt_count ≡ r.session.attempt_count)
    × (r'.session.lease ≡ none)
    × (r'.session.result ≡ r.session.result)
    × SameLock r.session r'.session
Effect give_up r r' =
    (r.session.state ≡ executing)
    × (r'.session.state ≡ failed)
    × (r'.session.attempt_count ≡ r.session.attempt_count)
    × (r'.session.lease ≡ none)
    × (r'.session.result ≡ r.session.result)
    × SameLock r.session r'.session
Effect retry r r' =
    (r.session.state ≡ reconciliation_required)
    × (r'.session.state ≡ ready_for_execution)
    × (r'.session.attempt_count ≡ r.session.attempt_count)
    × (r'.session.lease ≡ none)
    × (r'.session.result ≡ r.session.result)
    × SameLock r.session r'.session
Effect expire r r' =
    (terminal r.session.state ≡ false)
    × (r'.session.state ≡ expired)
    × ((r.session.expires_at ≤ r'.updated_at)
        ⊎ ((r.session.state ≡ pending_approvals) × (r.session.approval_expires_at ≤ r'.updated_at)))
    × SameLock r.session r'.session
    × SameRun r.session r'.session
Effect cancel r r' =
    (past_cancelling r.session.state ≡ false)
    × (r'.session.state ≡ cancelled)
    × (r.policy.allow_cancellation ≡ true)
    × SameLock r.session r'.session
    × SameRun r.session r'.session

-- One write of the service to a stored request.
pub record Step (r r' : RecoveryRequest) : Type 0 where
  pub event : Event
  pub kept : Kept r r'
  pub effect : Effect event r r'

-- Any number of writes, by whoever makes them.
pub data Steps (r : RecoveryRequest) : RecoveryRequest → Type 0 where
  here : Steps r r
  next : {a b : RecoveryRequest} → Steps r a → Step a b → Steps r b
