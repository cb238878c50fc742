-- ===== src/Recovery/Guarantee/Quorum.antt =====
-- The recount of a quorum and the expiry of a request, as steps
-- (`_recalculate_quorum`, `_expire` and their helpers in
-- services/recovery-service/app/application/services/recovery_service.py).
use mathlib.Core.Path.{subst}
use secure_ssi_platform.Prelude.{
  ℕ, zero, suc, ◌+◌, ◌≡◌, String, true, false, not, Option, some, List, [], ◌∷◌, refl, arith, leb,
  if◌then◌else◌,
}
use secure_ssi_platform.Prelude.Equality.{◌==◌}
use secure_ssi_platform.Recovery.Monad.{ok, is_conflict, Exec, raise, catch}
use secure_ssi_platform.Recovery.Domain.States.{
  state_equality, pending_approvals, waiting_timelock, rejected, expired,
}
use secure_ssi_platform.Recovery.Domain.States as States
use secure_ssi_platform.Recovery.Domain.Guardians.{seconds}
use secure_ssi_platform.Recovery.Domain.Requests.{
  RecoveryQuorum, RecoveryRequest, transition, check_quorum,
}
use secure_ssi_platform.Recovery.Domain.Records.{RecoveryApproval}
use secure_ssi_platform.Recovery.Environment.{Environment, World}
use secure_ssi_platform.Recovery.Service.Quorum.{
  tally, with_reached, with_lock, share_for, guardian_still_active, valid_decisions, start_timelock,
  apply_quorum, recalculate_quorum, expire,
}
use secure_ssi_platform.Recovery.Service.Reconciliation.{is_due_to_expire}
use secure_ssi_platform.Recovery.History.{Step}
use secure_ssi_platform.Recovery.History.Moves.{
  transition-moved, reach-Step, refuse-Step, recount-Step, lock-Step, expire-Step,
}
use secure_ssi_platform.Recovery.Guarantee.Rules.{
  Under, IsFair, Under-pure, Under-raise, Under-if, Under-bind, Under-bind-lift, Under-catch,
  Under-bind-pure, Under-bind-raise,
}
use secure_ssi_platform.Recovery.Guarantee.Atomic.{
  Under-read, Under-write, Under-last_write, Under-atomic,
}
use secure_ssi_platform.Recovery.Guarantee.Stores.{Safe-list_approvals}
use secure_ssi_platform.Recovery.Guarantee.Calls.{service_rules, Under-audit, Under-increment}

-- The time-lock that starts with the quorum starts at the time of the quorum.
lock_after_reach :
    (r : RecoveryRequest) (valid : List RecoveryApproval) (at : ℕ) {next waiting : RecoveryRequest}
    → transition r States.quorum_reached at (with_reached (tally r at valid) at) ≡ ok next
    → transition next waiting_timelock at (with_lock at (at + seconds r.policy.time_lock_seconds))
      ≡ ok waiting
    → Step next waiting
lock_after_reach r valid at {next} h k =
    let e = (transition-moved r States.quorum_reached at _ h).0 in
    lock-Step next at at (at + seconds r.policy.time_lock_seconds) k (rw e refl) (rw e refl)
      (rw e refl)

pub check-quorum_eq : (n : RecoveryQuorum) {m : RecoveryQuorum} → check_quorum n ≡ ok m → n ≡ m
unfolding check_quorum
check-quorum_eq n h = ground arith

module _ (env : Environment) (fair : IsFair env) {c : Option RecoveryRequest} where
  pub share_for-Under : (q : RecoveryRequest) (g : String) → Under c (share_for env q g)
  unfolding share_for
  share_for-Under q g = search service_rules depth 40

  pub still_active-Under :
      (g : String) (q : RecoveryRequest) → Under c (guardian_still_active env g q)
  unfolding guardian_still_active
  still_active-Under g q = search service_rules depth 40

module _ (env : Environment) (fair : IsFair env) where
  valid_decisions-Under :
      {c : Option RecoveryRequest} (q : RecoveryRequest) (xs : List RecoveryApproval)
      → Under c (valid_decisions env q xs)
  unfolding valid_decisions
  valid_decisions-Under q [] = Under-pure []
  valid_decisions-Under q (x ∷ xs) =
      Under-bind _ _ (search service_rules)
        λ b. Under-bind _ _ (valid_decisions-Under q xs) λ v. Under-pure _

  module _ (id : String) (r : RecoveryRequest) (at : ℕ) where
    start_timelock-Under :
        (valid : List RecoveryApproval)
        → not (r.session.state == pending_approvals) ≡ false
        → leb r.policy.minimum_approvals (tally r at valid).approvals ≡ true
        → Under (some r) (start_timelock env id r at (tally r at valid))
    unfolding start_timelock
    start_timelock-Under valid g enough = Under-bind-lift _ _ λ next h.
        Under-write env fair r next _ (reach-Step r at valid h g enough) (
          Under-bind _ _ (search service_rules) λ _. Under-bind _ _ (search service_rules) λ _.
            Under-bind-lift _ _ λ waiting k.
              Under-write env fair next waiting _ (lock_after_reach r valid at h k)
                (search service_rules depth 40))

    apply_quorum-Under :
        (valid : List RecoveryApproval)
        → not (r.session.state == pending_approvals) ≡ false
        → Under (some r) (apply_quorum env id r at (tally r at valid))
    unfolding apply_quorum
    apply_quorum-Under valid g =
        Under-if _ _ _ (λ enough. start_timelock-Under valid g enough)
          λ few.
            Under-if _ _ _
              (λ far. Under-bind-lift _ _ λ next h.
                Under-last_write env fair r next (refuse-Step r at (tally r at valid) h g far))
              λ _. Under-bind-lift _ _ λ _ _.
                Under-bind-lift _ _
                  λ next h. Under-last_write env fair r next (recount-Step r at valid h g few)

  pub recalculate_quorum-Under :
      {c : Option RecoveryRequest} (n : ℕ) (id : String) (at : ℕ)
      → Under c (recalculate_quorum env n id at)
  unfolding recalculate_quorum
  recalculate_quorum-Under zero id at = Under-raise _
  recalculate_quorum-Under (suc n) id at =
      Under-read env fair id _
        (λ r. Under-bind-pure _ _ (
          Under-if _ _ _ (λ _. Under-pure r)
            λ pending. Under-bind _ _ (Under-atomic env fair _ (Safe-list_approvals id)) λ xs.
              Under-bind _ _ (valid_decisions-Under r xs) λ valid. Under-bind-lift _ _ λ m h.
                subst (λ k. Under (some r) (retried r k)) (check-quorum_eq _ h)
                  (Under-catch _ _ (apply_quorum-Under id r at valid pending) λ e.
                    Under-if _ _ _ (λ _. recalculate_quorum-Under n id at) λ _. Under-raise e)))
        (Under-bind-raise _ _)
    where
      retried : RecoveryRequest → RecoveryQuorum → Exec World RecoveryRequest
      retried r k =
          catch (apply_quorum env id r at k)
            (λ e. if is_conflict e then recalculate_quorum env n id at else raise e)

  -- `_expire` is called only when a window is over.
  pub expire-Under :
      (r : RecoveryRequest) (actor : String) (at : ℕ)
      → is_due_to_expire r at ≡ true
      → Under (some r) (expire env r actor at)
  unfolding expire
  expire-Under r actor at due =
      Under-if (r.session.state == expired) _ _ (λ _. Under-pure r)
        λ _. Under-bind-lift (transition r expired at (λ s. s)) _ λ next h.
          Under-write env fair r next _ (expire-Step r at h due) (
            Under-bind _ _ (Under-audit env fair _ _ _ _ _ _)
              λ _. Under-bind _ _ (Under-increment _) λ _. Under-pure next)
