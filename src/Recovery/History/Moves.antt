-- ===== src/Recovery/History/Moves.antt =====
-- What `RecoveryRequest.transition` builds when it does not raise, as steps of a request
-- (services/recovery-service/app/domain/recovery.py).
use mathlib.Core.Path.{subst}
use secure_ssi_platform.Prelude.{
  ℕ, ◌+◌, ◌≤◌, ◌<◌, ◌≡◌, inl, inr, Bool, true, false, not, ◌&&◌, Option, none, some, refl, sym,
  arith, leb, or_else, if◌then◌else◌, Bool-cases, List,
}
use secure_ssi_platform.Prelude.Equality.{◌==◌, contains, text_equality, nat_equality}
use secure_ssi_platform.Recovery.Monad.{ok}
use secure_ssi_platform.Recovery.Domain.States.{
  RecoveryState, transitions, state_equality, pending_approvals, waiting_timelock,
  ready_for_execution, executing, completed, rejected, cancelled, expired, failed,
  reconciliation_required, terminal,
}
use secure_ssi_platform.Recovery.Domain.States as States
use secure_ssi_platform.Recovery.Domain.Guardians.{seconds}
use secure_ssi_platform.Recovery.Domain.Requests.{
  RecoveryLease, RecoveryResult, RecoveryFailure, RecoveryQuorum, RecoverySession, RecoveryRequest,
  moved, transition, check_request,
}
use secure_ssi_platform.Recovery.Domain.Records.{RecoveryApproval}
use secure_ssi_platform.Recovery.Service.Creation.{past_cancelling}
use secure_ssi_platform.Recovery.Service.Quorum.{
  tally, unreachable, with_quorum, with_reached, with_lock, recounted,
}
use secure_ssi_platform.Recovery.Service.Execution.{
  with_claim, with_result, with_failure, may_retry,
}
use secure_ssi_platform.Recovery.Service.Reconciliation.{
  is_due_to_expire, lock_elapsed, lease_live, without_lease,
}
use secure_ssi_platform.Recovery.History.{
  Kept, Event, Effect, Step, recount, reach, refuse, lock, release, claim, complete, lose_lease,
  fail_once, give_up, retry, expire, cancel,
}

-- A transition that does not raise is allowed by the table and gives the request that it builds.
pub transition-moved :
    (r : RecoveryRequest) (state : RecoveryState) (at : ℕ) (ch : RecoverySession → RecoverySession)
    {x : RecoveryRequest}
    → transition r state at ch ≡ ok x
    → (x ≡ moved r state at ch) × (contains state (transitions r.session.state) ≡ true)
unfolding transition
transition-moved r state at ch h =
    elim (Bool-cases (contains state (transitions r.session.state))) [
      | inl p ↦ (ground arith, p)
      | inr p ↦ absurd (refused p)
    ]
  where
    refused : contains state (transitions r.session.state) ≡ false → ⊥
    refused p = ground arith

pub check-request_eq : (r : RecoveryRequest) {x : RecoveryRequest} → check_request r ≡ ok x → r ≡ x
unfolding check_request
check-request_eq r h = ground arith

pub is_state : (a b : RecoveryState) → (a == b) ≡ true → a ≡ b
is_state a b h = (state_equality.beq_iff a b).0 h

-- The table lets a request expire only before it is over.
allowed_expire : (s : RecoveryState) → contains expired (transitions s) ≡ true → terminal s ≡ false
allowed_expire s h = ground arith

-- The windows of a session are kept by each change that the service makes.
abbrev SameWindow : RecoverySession → RecoverySession → Type 0
SameWindow s s' =
    (s'.session_id ≡ s.session_id)
    × (s'.created_at ≡ s.created_at)
    × (s'.approval_expires_at ≡ s.approval_expires_at)
    × (s'.expires_at ≡ s.expires_at)

module _ (r : RecoveryRequest) (state : RecoveryState) (at : ℕ)
    (ch : RecoverySession → RecoverySession) where
  moved-Kept : SameWindow r.session (ch r.session) → Kept r (moved r state at ch)
  moved-Kept w = record {
    request_id = refl;
    owner_user_id = refl;
    wallet_id = refl;
    reason = refl;
    policy = refl;
    challenge = refl;
    nonce = refl;
    created_at = refl;
    session_id = w.0;
    opened_at = w.1;
    approval_expires_at = w.2;
    expires_at = w.3;
    stamped = refl;
    version = refl;
  }

  -- A transition that does not raise is a step, if what it builds has the step's effect.
  Step-of :
      {x : RecoveryRequest} (e : Event)
      → transition r state at ch ≡ ok x
      → SameWindow r.session (ch r.session)
      → Effect e r (moved r state at ch)
      → Step r x
  Step-of e h w f =
      subst (λ y. Step r y) (sym (transition-moved r state at ch h).0)
        (record { event = e; kept = moved-Kept w; effect = f })

module _ (r : RecoveryRequest) (at : ℕ) {x : RecoveryRequest} where
  pub reach-Step :
      (valid : List RecoveryApproval)
      → transition r States.quorum_reached at (with_reached (tally r at valid) at) ≡ ok x
      → not (r.session.state == pending_approvals) ≡ false
      → leb r.policy.minimum_approvals (tally r at valid).approvals ≡ true
      → Step r x
  reach-Step valid h g enough =
      Step-of r _ at _ reach h (refl, refl, refl, refl)
        (ground arith, refl, refl, ground arith, rw enough refl, refl, ground arith)

  pub refuse-Step :
      (n : RecoveryQuorum)
      → transition r rejected at (with_quorum n) ≡ ok x
      → not (r.session.state == pending_approvals) ≡ false
      → unreachable r n ≡ true
      → Step r x
  refuse-Step n h g far =
      Step-of r _ at _ refuse h (refl, refl, refl, refl)
        (ground arith, refl, ground arith, ground arith)

  pub lock-Step :
      (started after : ℕ)
      → transition r waiting_timelock at (with_lock started after) ≡ ok x
      → (r.session.state ≡ States.quorum_reached)
      → started ≡ or_else r.session.quorum_reached_at r.updated_at
      → after ≡ started + seconds r.policy.time_lock_seconds
      → Step r x
  lock-Step started after h g e f =
      Step-of r _ at _ lock h (refl, refl, refl, refl) (g, refl, refl, refl, cc, cc, ground arith)

  pub release-Step :
      transition r ready_for_execution at (λ s. s) ≡ ok x
      → (r.session.state == waiting_timelock && lock_elapsed r.session.executable_after at) ≡ true
      → Step r x
  release-Step h g =
      Step-of r _ at _ release h (refl, refl, refl, refl)
        (
          ground arith,
          refl,
          elapsed r.session.executable_after (ground arith),
          ground arith,
          ground arith,
        )
    where
      elapsed : (o : Option ℕ) → lock_elapsed o at ≡ true → (t : ℕ) × (o ≡ some t) × (t ≤ at)
      elapsed none p = cc
      elapsed (some t) p = (t, refl, ground arith)

  pub claim-Step :
      (l : RecoveryLease)
      → transition r executing at (with_claim l (r.session.attempt_count + 1)) ≡ ok x
      → not (r.session.state == ready_for_execution) ≡ false
      → (l.attempt ≡ r.session.attempt_count + 1) × (l.acquired_at ≡ at) × (at < l.expires_at)
      → Step r x
  claim-Step l h g (n, a, e) =
      Step-of r _ at _ claim h (refl, refl, refl, refl)
        (
          ground arith,
          refl,
          refl,
          (l, refl, record { attempt = n; acquired_at = a; expires_at = e }),
          refl,
          ground arith,
        )

  pub complete-Step :
      (o : RecoveryResult)
      → transition r completed at (with_result o) ≡ ok x
      → r.session.state ≡ executing
      → Step r x
  complete-Step o h g =
      Step-of r _ at _ complete h (refl, refl, refl, refl)
        (g, refl, refl, refl, (o, refl), ground arith)

  pub lose_lease-Step :
      (f : RecoveryFailure)
      → transition r reconciliation_required at (with_failure f) ≡ ok x
      → (r.session.state == executing) ≡ true
      → lease_live r.session.lease at ≡ false
      → Step r x
  lose_lease-Step f h g dead =
      Step-of r _ at _ lose_lease h (refl, refl, refl, refl)
        (is_state _ _ g, refl, dead, refl, refl, refl, ground arith)

  pub failure-Step :
      (f : RecoveryFailure) (retryable : Bool)
      → transition r
          (if may_retry r retryable then reconciliation_required else failed)
          at
          (with_failure f)
        ≡ ok x
      → r.session.state ≡ executing
      → Step r x
  failure-Step f retryable h g = elim (Bool-cases (may_retry r retryable)) [
    | inl p ↦
        Step-of r reconciliation_required at _ fail_once (rw p at h) (refl, refl, refl, refl)
          (g, refl, ground arith, refl, refl, refl, ground arith)
    | inr p ↦
        Step-of r failed at _ give_up (rw p at h) (refl, refl, refl, refl)
          (g, refl, refl, refl, refl, ground arith)
  ]

  pub retry-Step :
      transition r ready_for_execution at without_lease ≡ ok x
      → (r.session.state == reconciliation_required) ≡ true
      → Step r x
  retry-Step h g =
      Step-of r _ at _ retry h (refl, refl, refl, refl)
        (is_state _ _ g, refl, refl, refl, refl, ground arith)

  pub expire-Step :
      transition r expired at (λ s. s) ≡ ok x → is_due_to_expire r at ≡ true → Step r x
  expire-Step h g =
      Step-of r _ at _ expire h (refl, refl, refl, refl)
        (
          allowed_expire r.session.state (transition-moved r expired at (λ s. s) h).1,
          refl,
          ground arith,
          ground arith,
          ground arith,
        )

  pub cancel-Step :
      transition r cancelled at (λ s. s) ≡ ok x
      → not r.policy.allow_cancellation ≡ false
      → past_cancelling r.session.state ≡ false
      → Step r x
  cancel-Step h g late =
      Step-of r _ at _ cancel h (refl, refl, refl, refl)
        (late, refl, ground arith, ground arith, ground arith)

  pub recount-Step :
      (valid : List RecoveryApproval)
      → check_request (recounted r (tally r at valid) at) ≡ ok x
      → not (r.session.state == pending_approvals) ≡ false
      → leb r.policy.minimum_approvals (tally r at valid).approvals ≡ false
      → Step r x
  recount-Step valid h g few =
      subst (λ y. Step r y) (recounted_lem h)
        (record {
          event = recount;
          kept = ground arith;
          effect = (pending, pending, refl, ground arith, refl, refl, ground arith);
        })
    where
      pending : r.session.state ≡ pending_approvals
      pending = ground arith

      recounted_lem :
          check_request (recounted r (tally r at valid) at) ≡ ok x
          → recounted r (tally r at valid) at ≡ x
      recounted_lem p = check-request_eq _ p
