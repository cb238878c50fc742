-- ===== src/Recovery/Guarantee/Reconciliation.antt =====
-- A reconciliation changes requests by steps only
-- (`_reconcile_one`, `reconcile_request` and `reconcile_due` in
-- services/recovery-service/app/application/services/recovery_service.py).
use secure_ssi_platform.Prelude.{
  ℕ, zero, suc, ◌≡◌, String, true, ◌&&◌, Option, some, List, [], ◌∷◌, refl,
}
use secure_ssi_platform.Prelude.Equality.{◌==◌}
use secure_ssi_platform.Recovery.Monad.{is_conflict}
use secure_ssi_platform.Recovery.Domain.States.{
  terminal, state_equality, quorum_reached, waiting_timelock, executing, reconciliation_required,
}
use secure_ssi_platform.Recovery.Domain.Requests.{RecoveryRequest}
use secure_ssi_platform.Recovery.Domain.Auth.{Principal}
use secure_ssi_platform.Recovery.Environment.{Environment}
use secure_ssi_platform.Recovery.Service.Reconciliation.{
  lock_elapsed, resume_timelock, release_timelock, drop_stale_lease, retry_execution, advance,
  reconcile_one, reconcile_request, reconcile_candidate, reconcile_all, reconcile_due,
}
use secure_ssi_platform.Recovery.History.Moves.{
  is_state, lock-Step, release-Step, lose_lease-Step, retry-Step,
}
use secure_ssi_platform.Recovery.Guarantee.Rules.{
  Under, IsFair, Under-pure, Under-raise, Under-if, Under-bind, Under-bind-lift, Under-bind-pure,
  Under-bind-raise, Under-catch, Under-lift,
}
use secure_ssi_platform.Recovery.Guarantee.Atomic.{
  Under-atomic, Under-read, Under-write, Under-last_write,
}
use secure_ssi_platform.Recovery.Guarantee.Stores.{Safe-candidates}
use secure_ssi_platform.Recovery.Guarantee.Calls.{service_rules, Under-now, Under-audit}
use secure_ssi_platform.Recovery.Guarantee.Quorum.{expire-Under}
use secure_ssi_platform.Recovery.Guarantee.Execution.{execute-Under}

module _ (env : Environment) (fair : IsFair env) (id : String) (r : RecoveryRequest) (a : String)
    (at : ℕ) where
  resume_timelock-Under :
      (r.session.state == quorum_reached) ≡ true → Under (some r) (resume_timelock env id r a at)
  unfolding resume_timelock
  resume_timelock-Under g = Under-bind-lift _ _ λ next h.
      Under-write env fair r next _ (lock-Step r at _ _ h (is_state _ _ g) refl refl)
        (search service_rules depth 40)

  release_timelock-Under :
      (r.session.state == waiting_timelock && lock_elapsed r.session.executable_after at) ≡ true
      → Under (some r) (release_timelock env id r a at)
  unfolding release_timelock
  release_timelock-Under g = Under-bind-lift _ _ λ next h.
      Under-write env fair r next _ (release-Step r at h g)
        (Under-bind _ _ (Under-audit env fair _ _ _ _ _ _) λ _. execute-Under env fair next a)

  drop_stale_lease-Under :
      (r.session.state == executing) ≡ true → Under (some r) (drop_stale_lease env r at)
  unfolding drop_stale_lease
  drop_stale_lease-Under g =
      Under-if _ _ _ (λ _. Under-pure r)
        λ dead. Under-bind-lift _ _ λ f _.
          Under-bind-lift _ _
            λ next h. Under-last_write env fair r next (lose_lease-Step r at f h g dead)

  retry_execution-Under :
      (r.session.state == reconciliation_required) ≡ true
      → Under (some r) (retry_execution env id r a at)
  unfolding retry_execution
  retry_execution-Under g = Under-bind-lift _ _ λ next h.
      Under-write env fair r next _ (retry-Step r at h g)
        (Under-bind _ _ (Under-audit env fair _ _ _ _ _ _) λ _. execute-Under env fair next a)

  advance-Under : Under (some r) (advance env id r a at)
  unfolding advance
  advance-Under =
      Under-if _ _ _ (λ due. expire-Under env fair r a at due)
        λ _. Under-if _ _ _ resume_timelock-Under λ _. Under-if _ _ _ release_timelock-Under λ _.
          Under-if _ _ _ (λ _. execute-Under env fair r a)
            λ _.
              Under-if _ _ _ drop_stale_lease-Under
                λ _. Under-if _ _ _ retry_execution-Under λ _. Under-pure r

module _ (env : Environment) (fair : IsFair env) where
  reconcile_one-Under :
      {c : Option RecoveryRequest} (n : ℕ) (id a : String) → Under c (reconcile_one env n id a)
  unfolding reconcile_one
  reconcile_one-Under zero id a = Under-raise _
  reconcile_one-Under (suc n) id a =
      Under-read env fair id _
        (λ r. Under-bind-pure _ _ (
          Under-if (terminal r.session.state) _ _ (λ _. Under-pure r)
            λ _. Under-bind _ _ (Under-now env fair) λ at.
              Under-catch _ _ (advance-Under env fair id r a at) λ e.
                Under-if (is_conflict e) _ _ (λ _. reconcile_one-Under n id a) λ _. Under-raise e))
        (Under-bind-raise _ _)

  pub reconcile_request-Under :
      {c : Option RecoveryRequest} (p : Principal) (id : String)
      → Under c (reconcile_request env p id)
  unfolding reconcile_request
  reconcile_request-Under p id =
      Under-bind _ _ (Under-lift _) λ _. reconcile_one-Under 6 id p.user_id

  reconcile_candidate-Under :
      {c : Option RecoveryRequest} (q : RecoveryRequest) → Under c (reconcile_candidate env q)
  unfolding reconcile_candidate
  reconcile_candidate-Under q = search (service_rules, reconcile_one-Under) depth 40

  reconcile_all-Under :
      {c : Option RecoveryRequest} (qs : List RecoveryRequest) (m n : ℕ)
      → Under c (reconcile_all env qs m n)
  unfolding reconcile_all
  reconcile_all-Under [] m n = Under-pure _
  reconcile_all-Under (q ∷ qs) m n =
      Under-bind _ _ (reconcile_candidate-Under q) λ b. reconcile_all-Under qs _ _

  pub reconcile_due-Under : {c : Option RecoveryRequest} → Under c (reconcile_due env)
  unfolding reconcile_due
  reconcile_due-Under = Under-bind _ _ (Under-now env fair) λ at.
      Under-bind _ _ (Under-atomic env fair _ (Safe-candidates _ _ _))
        λ qs. reconcile_all-Under qs 0 0
