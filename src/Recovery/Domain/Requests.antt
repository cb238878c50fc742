-- ===== src/Recovery/Domain/Requests.antt =====
-- services/recovery-service/app/domain/recovery.py: a recovery request and its parts, with the
-- checks that run on construction and on `replace`, and `RecoveryRequest.transition`.
use secure_ssi_platform.Prelude.{
  ℕ, ◌+◌, String, Bool, ◌&&◌, ◌||◌, not, Option, none, some, List, [], ◌∷◌, ltb, leb, any, length,
  is_empty, text_length,
}
use secure_ssi_platform.Prelude.Equality.{◌==◌, distinct, nat_equality, text_equality}
use secure_ssi_platform.Recovery.Monad.{RecoveryError, Result, ok, fail_if, then_result}
use secure_ssi_platform.Recovery.Domain.States.{
  RecoveryState, RecoveryReason, RecoveryOperation, require_transition,
}

pub record PolicySnapshot : Type 0 where
  pub policy_id : String
  pub policy_version : ℕ
  pub minimum_approvals : ℕ
  pub maximum_guardians : ℕ
  pub approval_window_seconds : ℕ
  pub time_lock_seconds : ℕ
  pub recovery_expiration_seconds : ℕ
  pub maximum_attempts : ℕ
  pub allow_cancellation : Bool
  pub guardian_ids : List String
  pub share_version : ℕ
  pub secret_commitment : String

unfoldable pub check_snapshot : PolicySnapshot → Result PolicySnapshot
check_snapshot p =
    fail_if (not (leb 1 p.minimum_approvals && leb p.minimum_approvals (length p.guardian_ids)))
      RecoveryError.validation
      (fail_if (not (distinct p.guardian_ids)) RecoveryError.validation (
        fail_if (ltb p.share_version 1 || is_empty p.secret_commitment) RecoveryError.validation
          (ok p)))

-- `RecoveryChallenge`, and `RecoveryNonce` with the same fields
pub record RecoveryChallenge : Type 0 where
  pub value : String
  pub digest : String

unfoldable pub check_challenge : RecoveryChallenge → Result RecoveryChallenge
unfolding text_length
check_challenge c =
    fail_if (ltb (text_length c.value) 32 || not (text_length c.digest == 64))
      RecoveryError.validation (ok c)

pub record RecoveryQuorum : Type 0 where
  pub required : ℕ
  pub approvals : ℕ
  pub rejections : ℕ
  pub reached_at : Option ℕ

abbrev lacks_approvals : Option ℕ → RecoveryQuorum → Bool
lacks_approvals none q = Bool.false
lacks_approvals (some _) q = ltb q.approvals q.required

unfoldable pub check_quorum : RecoveryQuorum → Result RecoveryQuorum
check_quorum q =
    fail_if (ltb q.required 1) RecoveryError.validation
      (fail_if (lacks_approvals q.reached_at q) RecoveryError.validation (ok q))

pub record RecoveryLease : Type 0 where
  pub worker_id : String
  pub acquired_at : ℕ
  pub expires_at : ℕ
  pub attempt : ℕ

unfoldable pub check_lease : RecoveryLease → Result RecoveryLease
check_lease l =
    fail_if (is_empty l.worker_id || ltb l.attempt 1) RecoveryError.validation
      (fail_if (leb l.expires_at l.acquired_at) RecoveryError.validation (ok l))

-- The duration of the rotation, a float that only the perf counter gives, is left out.
pub record RecoveryResult : Type 0 where
  pub predecessor_key_id : String
  pub successor_key_id : String
  pub predecessor_did : String
  pub successor_did : String
  pub provider : String
  pub completed_at : ℕ

unfoldable pub check_result : RecoveryResult → Result RecoveryResult
check_result r =
    fail_if
      (any is_empty (
        r.predecessor_key_id ∷ r.successor_key_id ∷ r.predecessor_did ∷ r.successor_did ∷ r.provider
        ∷ []))
      RecoveryError.validation (ok r)

pub record RecoveryFailure : Type 0 where
  pub code : String
  pub retryable : Bool
  pub occurred_at : ℕ
  pub attempt : ℕ

unfoldable pub check_failure : RecoveryFailure → Result RecoveryFailure
check_failure f = fail_if (is_empty f.code || ltb f.attempt 1) RecoveryError.validation (ok f)

pub record RecoverySession : Type 0 where
  pub session_id : String
  pub state : RecoveryState
  pub created_at : ℕ
  pub updated_at : ℕ
  pub approval_expires_at : ℕ
  pub expires_at : ℕ
  pub quorum : RecoveryQuorum
  pub attempt_count : ℕ
  pub quorum_reached_at : Option ℕ
  pub time_lock_started_at : Option ℕ
  pub executable_after : Option ℕ
  pub lease : Option RecoveryLease
  pub result : Option RecoveryResult
  pub failure : Option RecoveryFailure

unfoldable pub check_session : RecoverySession → Result RecoverySession
check_session s = fail_if (is_empty s.session_id) RecoveryError.validation (
    fail_if (not (ltb s.created_at s.approval_expires_at && leb s.approval_expires_at s.expires_at))
      RecoveryError.validation (ok s))

pub record RecoveryRequest : Type 0 where
  pub request_id : String
  pub owner_user_id : String
  pub wallet_id : String
  pub reason : RecoveryReason
  pub operation : RecoveryOperation
  pub policy : PolicySnapshot
  pub challenge : RecoveryChallenge
  pub nonce : RecoveryChallenge
  pub session : RecoverySession
  pub created_at : ℕ
  pub updated_at : ℕ
  pub version : ℕ

unfoldable pub check_request : RecoveryRequest → Result RecoveryRequest
check_request r =
    fail_if (is_empty r.request_id || is_empty r.owner_user_id || is_empty r.wallet_id)
      RecoveryError.validation
      (fail_if (ltb r.version 1 || not (r.session.created_at == r.created_at))
        RecoveryError.validation (ok r))

-- The request that `RecoveryRequest.transition` builds: the changes of the session first, and then
-- the state and the time, which `changes.update` overwrites.
abbrev pub moved :
    RecoveryRequest → RecoveryState → ℕ → (RecoverySession → RecoverySession) → RecoveryRequest
moved r state at changes =
    let s = changes r.session in
    record r {
      session = record s { state = state; updated_at = at };
      updated_at = at;
      version = r.version + 1;
    }

-- `RecoveryRequest.transition`
unfoldable pub transition :
    RecoveryRequest
    → RecoveryState
    → ℕ
    → (RecoverySession → RecoverySession)
    → Result RecoveryRequest
unfolding require_transition check_session check_request
transition r state at changes =
    let next = moved r state at changes in
    then_result (require_transition r.session.state state)
      λ _. then_result (check_session next.session) λ _. check_request next
