-- ===== src/Recovery/Service/Reconciliation.antt =====
-- `_reconcile_one`, `reconcile_request` and `reconcile_due` of `RecoveryService`
-- (services/recovery-service/app/application/services/recovery_service.py).
use secure_ssi_platform.Prelude.{
  ℕ, zero, suc, ◌+◌, ◌-◌, String, Bool, true, false, ◌&&◌, ◌||◌, Option, none, some, List, [], ◌∷◌,
  ltb, leb, or_else, print_nat, if◌then◌else◌,
}
use secure_ssi_platform.Prelude.Equality.{◌==◌}
use secure_ssi_platform.Recovery.Monad.{
  RecoveryError, is_conflict, Exec, pure, raise, lift, or_raise, catch, ◌>>=◌, ◌>>◌,
}
use secure_ssi_platform.Recovery.Domain.States.{
  terminal, state_equality, pending_approvals, quorum_reached, waiting_timelock,
  ready_for_execution, executing, reconciliation_required, timelock_started, ready, reconciled,
}
use secure_ssi_platform.Recovery.Domain.Guardians.{seconds}
use secure_ssi_platform.Recovery.Domain.Requests.{
  RecoveryLease, RecoverySession, RecoveryRequest, check_failure, transition,
}
use secure_ssi_platform.Recovery.Domain.Auth.{Principal, require, recovery_reconcile}
use secure_ssi_platform.Recovery.Repository.Requests as Store
use secure_ssi_platform.Recovery.Environment.{Environment, World, Counter, atomic, now, increment}
use secure_ssi_platform.Recovery.Service.Audit.{audit}
use secure_ssi_platform.Recovery.Service.Quorum.{with_lock, expire}
use secure_ssi_platform.Recovery.Service.Execution.{with_failure, execute}

-- The approval window or the whole window is over.
abbrev pub is_due_to_expire : RecoveryRequest → ℕ → Bool
is_due_to_expire q at =
    leb q.session.expires_at at
    || (q.session.state == pending_approvals && leb q.session.approval_expires_at at)

-- `executable_after is not None and now >= executable_after`
abbrev pub lock_elapsed : Option ℕ → ℕ → Bool
lock_elapsed none at = false
lock_elapsed (some t) at = leb t at

-- `lease is not None and lease.expires_at > now`
abbrev pub lease_live : Option RecoveryLease → ℕ → Bool
lease_live none at = false
lease_live (some l) at = ltb at l.expires_at

abbrev pub without_lease : RecoverySession → RecoverySession
without_lease s = record s { lease = none }

module _ (env : Environment) where
  -- A request that reached its quorum and whose time-lock was not started.
  unfoldable pub resume_timelock :
      String → RecoveryRequest → String → ℕ → Exec World RecoveryRequest
  resume_timelock request_id request actor_id at = do
    let started = or_else request.session.quorum_reached_at request.updated_at
    next ← lift (
        transition request waiting_timelock at
          (with_lock started (started + seconds request.policy.time_lock_seconds)))
    stored ← atomic env (Store.update_request next request.version)
    audit env timelock_started request_id actor_id at "timelock"
        (("timeLockSeconds", print_nat request.policy.time_lock_seconds) ∷ [])
    pure stored

  -- A time-lock that is over.
  unfoldable pub release_timelock :
      String → RecoveryRequest → String → ℕ → Exec World RecoveryRequest
  release_timelock request_id request actor_id at = do
    next ← lift (transition request ready_for_execution at (λ s. s))
    stored ← atomic env (Store.update_request next request.version)
    audit env ready request_id actor_id at "ready" []
    execute env stored actor_id

  -- An execution with a lease that has run out.
  unfoldable pub drop_stale_lease : RecoveryRequest → ℕ → Exec World RecoveryRequest
  drop_stale_lease request at = if lease_live request.session.lease at then pure request else do
    failure ← lift (
        check_failure (record {
          code = "STALE_EXECUTION_LEASE";
          retryable = true;
          occurred_at = at;
          attempt =
              if ltb 1 request.session.attempt_count then request.session.attempt_count else 1;
        }))
    next ← lift (transition request reconciliation_required at (with_failure failure))
    atomic env (Store.update_request next request.version)

  -- An execution that failed and may be tried again.
  unfoldable pub retry_execution :
      String → RecoveryRequest → String → ℕ → Exec World RecoveryRequest
  retry_execution request_id request actor_id at = do
    next ← lift (transition request ready_for_execution at without_lease)
    stored ← atomic env (Store.update_request next request.version)
    audit env reconciled request_id actor_id at (print_nat stored.version) []
    execute env stored actor_id

  -- The body of the `try` in `_reconcile_one`.
  unfoldable pub advance : String → RecoveryRequest → String → ℕ → Exec World RecoveryRequest
  unfolding resume_timelock release_timelock drop_stale_lease retry_execution
  advance request_id request actor_id at =
      if is_due_to_expire request at
      then expire env request actor_id at
      else if request.session.state == quorum_reached
      then resume_timelock request_id request actor_id at
      else if request.session.state == waiting_timelock
          && lock_elapsed request.session.executable_after at
      then release_timelock request_id request actor_id at
      else if request.session.state == ready_for_execution
      then execute env request actor_id
      else if request.session.state == executing
      then drop_stale_lease request at
      else if request.session.state == reconciliation_required
      then retry_execution request_id request actor_id at
      else pure request

  -- `_reconcile_one`; the first argument is the rounds left of `range(6)`.
  unfoldable pub reconcile_one : ℕ → String → String → Exec World RecoveryRequest
  unfolding advance
  reconcile_one zero request_id actor_id = raise RecoveryError.conflict
  reconcile_one (suc rounds) request_id actor_id = do
    found ← atomic env (Store.get_request request_id)
    request ← or_raise found RecoveryError.not_found
    if terminal request.session.state then pure request else do
      at ← now env
      catch (advance request_id request actor_id at)
          (λ e. if is_conflict e then reconcile_one rounds request_id actor_id else raise e)

  unfoldable pub reconcile_request : Principal → String → Exec World RecoveryRequest
  unfolding reconcile_one
  reconcile_request principal request_id = do
    lift (require principal recovery_reconcile)
    reconcile_one 6 request_id principal.user_id

  -- One candidate, and whether it succeeded; any exception counts as a failure.
  unfoldable pub reconcile_candidate : RecoveryRequest → Exec World Bool
  unfolding reconcile_one
  reconcile_candidate q = do
    increment Counter.reconciliation_attempts
    catch
        (do
          reconcile_one 6 q.request_id env.worker_id
          increment Counter.reconciliation_successes
          pure true)
        (λ e. (do increment Counter.reconciliation_failures; pure false))

  unfoldable pub reconcile_all : List RecoveryRequest → ℕ → ℕ → Exec World (ℕ × ℕ)
  unfolding reconcile_candidate
  reconcile_all [] succeeded failed = pure (succeeded, failed)
  reconcile_all (q ∷ qs) succeeded failed = do
    success ← reconcile_candidate q
    reconcile_all qs (if success then suc succeeded else succeeded)
        (if success then failed else suc failed)

  -- `reconcile_due`; `now - timedelta(…)` of a clock that has passed the stale time
  unfoldable pub reconcile_due : Exec World (ℕ × ℕ)
  unfolding reconcile_all
  reconcile_due = do
    at ← now env
    candidates ← atomic env (
        Store.list_reconciliation_candidates at
          (at - seconds env.settings.reconciliation_stale_seconds)
          env.settings.reconciliation_batch_size)
    reconcile_all candidates 0 0
