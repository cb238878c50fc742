-- ===== src/Recovery/Guarantee/Execution.antt =====
-- An execution changes its request by steps only (`_execute` and `_record_execution_failure` in
-- services/recovery-service/app/application/services/recovery_service.py).
use secure_ssi_platform.Prelude.{
  ℕ, ◌+◌, ◌≡◌, ◌<◌, String, Bool, true, false, Option, some, List, [], ◌∷◌, refl, arith,
}
use secure_ssi_platform.Recovery.Monad.{RecoveryError, ok, is_secret_share}
use secure_ssi_platform.Recovery.Domain.States.{state_equality, executing}
use secure_ssi_platform.Recovery.Domain.Requests.{
  RecoveryLease, RecoveryRequest, transition, check_lease,
}
use secure_ssi_platform.Recovery.Domain.Records.{RecoveryApproval, KeyOutcome}
use secure_ssi_platform.Recovery.Environment.{Environment}
use secure_ssi_platform.Recovery.Service.Quorum.{approves}
use secure_ssi_platform.Recovery.Service.Execution.{
  with_claim, record_execution_failure, active_approvals, shares_for, authorise, audit_completion,
  run_claimed, failed_execution, execute,
}
use secure_ssi_platform.Recovery.History.Moves.{
  transition-moved, claim-Step, complete-Step, failure-Step,
}
use secure_ssi_platform.Recovery.Guarantee.Rules.{
  Under, IsFair, Under-pure, Under-if, Under-bind, Under-bind-lift, Under-catch, Under-external,
}
use secure_ssi_platform.Recovery.Guarantee.Atomic.{Under-write}
use secure_ssi_platform.Recovery.Guarantee.Calls.{
  service_rules, Under-now, Under-audit, Under-increment, Under-raise_if,
}
use secure_ssi_platform.Recovery.Guarantee.Quorum.{share_for-Under, still_active-Under}

-- A lease that passes its check holds the attempt and ends after it begins.
check-lease_eq :
    (l : RecoveryLease) {m : RecoveryLease}
    → check_lease l ≡ ok m
    → (l ≡ m) × (l.acquired_at < l.expires_at)
unfolding check_lease
check-lease_eq l h = (ground arith, ground arith)

module _ (env : Environment) (fair : IsFair env) {c : Option RecoveryRequest} where
  active_approvals-Under :
      (q : RecoveryRequest) (xs : List RecoveryApproval) → Under c (active_approvals env q xs)
  unfolding active_approvals
  active_approvals-Under q [] = Under-pure []
  active_approvals-Under q (x ∷ xs) =
      Under-if (approves x) _ _
        (λ _.
          Under-bind _ _ (still_active-Under env fair x.guardian_id q)
            λ b. Under-bind _ _ (active_approvals-Under q xs) λ v. Under-pure _)
        (λ _. active_approvals-Under q xs)

  shares_for-Under :
      (q : RecoveryRequest) (xs : List RecoveryApproval) → Under c (shares_for env q xs)
  unfolding shares_for
  shares_for-Under q [] = Under-pure []
  shares_for-Under q (x ∷ xs) =
      Under-bind _ _ (share_for-Under env fair q x.guardian_id)
        λ s. Under-bind _ _ (shares_for-Under q xs) λ ss. Under-pure _

  audit_completion-Under :
      (q : RecoveryRequest) (a : String) (at : ℕ) (o : KeyOutcome)
      → Under c (audit_completion env q a at o)
  unfolding audit_completion
  audit_completion-Under q a at o = search service_rules depth 40

module _ (env : Environment) (fair : IsFair env) {c : Option RecoveryRequest} where
  authorise-Under : (q : RecoveryRequest) → Under c (authorise env q)
  unfolding authorise
  authorise-Under q = search (service_rules, active_approvals-Under, shares_for-Under) depth 40

module _ (env : Environment) (fair : IsFair env) where
  record_failure-Under :
      (r : RecoveryRequest) (a code : String) (retryable : Bool)
      → r.session.state ≡ executing
      → Under (some r) (record_execution_failure env r a code retryable)
  unfolding record_execution_failure
  record_failure-Under r a code retryable running = Under-bind _ _ (Under-now env fair) λ at.
      Under-bind-lift _ _ λ f _. Under-bind-lift _ _ λ next h.
        Under-write env fair r next _ (failure-Step r at f retryable h running)
          (search service_rules depth 40)

  run_claimed-Under :
      (q r : RecoveryRequest) (a : String)
      → r.session.state ≡ executing
      → Under (some r) (run_claimed env q r a)
  unfolding run_claimed
  run_claimed-Under q r a running = Under-bind _ _ (authorise-Under env fair q) λ _.
      Under-bind _ _ (Under-external _) λ o. Under-bind _ _ (Under-now env fair) λ at.
        Under-bind _ _ (Under-raise_if _ _) λ _. Under-bind-lift _ _ λ result _.
          Under-bind-lift _ _ λ next h.
            Under-write env fair r next _ (complete-Step r at result h running)
              (search (service_rules, audit_completion-Under) depth 40)

  failed_execution-Under :
      (r : RecoveryRequest) (a : String) (e : RecoveryError)
      → r.session.state ≡ executing
      → Under (some r) (failed_execution env r a e)
  failed_execution-Under r a e running =
      Under-if (is_secret_share e) _ _
        (λ _. Under-bind _ _ (Under-increment _) λ _. record_failure-Under r a _ false running)
        (λ _. record_failure-Under r a _ true running)

  pub execute-Under : (r : RecoveryRequest) (a : String) → Under (some r) (execute env r a)
  unfolding execute
  execute-Under r a =
      Under-if _ _ _ (λ _. Under-pure r)
        λ ready. Under-bind _ _ (Under-now env fair) λ at. Under-bind-lift _ _ λ l leased.
          Under-bind-lift _ _ λ next h.
            let (same, later) = check-lease_eq _ leased in
            Under-write env fair r next _
              (claim-Step r at l h ready (rw (← same) (refl, refl, later)))
              (Under-bind _ _ (Under-audit env fair _ _ _ _ _ _) λ _.
                Under-catch _ _ (run_claimed-Under r next a (claimed_runs at l h))
                  λ e. failed_execution-Under next a e (claimed_runs at l h))
    where
      claimed_runs :
          (at : ℕ) (l : RecoveryLease) {next : RecoveryRequest}
          → transition r executing at (with_claim l (r.session.attempt_count + 1)) ≡ ok next
          → next.session.state ≡ executing
      claimed_runs at l h = rw ((transition-moved r executing at _ h).0) refl
