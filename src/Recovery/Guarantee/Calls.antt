-- ===== src/Recovery/Guarantee/Calls.antt =====
-- The service's small calls, and the rules by which `search` walks its methods.
use secure_ssi_platform.Prelude.{ℕ, ◌≡◌, String, Bool, true, false, Option, List, refl}
use secure_ssi_platform.Recovery.Monad.{RecoveryError, Exec, raise_if, ◌>>=◌}
use secure_ssi_platform.Recovery.Domain.States.{AuditEventType}
use secure_ssi_platform.Recovery.Domain.Requests.{RecoveryRequest}
use secure_ssi_platform.Recovery.Environment.{
  Environment, World, Counter, now, new_id, increment, set_active_guardians,
  refresh_guardian_metric,
}
use secure_ssi_platform.Recovery.Service.Audit.{audit, audit_unauthorized}
use secure_ssi_platform.Recovery.Guarantee.Rules.{
  Under, IsFair, Under-still, Under-pure, Under-raise, Under-lift, Under-external, Under-if,
  Under-or_raise, Under-catch, Under-bind, Under-bind-lift,
}
use secure_ssi_platform.Recovery.Guarantee.Atomic.{Under-atomic}
use secure_ssi_platform.Recovery.Guarantee.Stores.{store_rules}

pub ruleset flow_rules = (
  Under-pure, Under-raise, Under-lift, Under-external, Under-if, Under-or_raise, Under-catch,
  Under-bind,
)

module _ {c : Option RecoveryRequest} where
  pub Under-raise_if : (b : Bool) (e : RecoveryError) → Under c (raise_if b e)
  unfolding raise_if
  Under-raise_if b e = Under-still (raise_if b e) (λ w. refl)

  pub Under-increment : (n : Counter) → Under c (increment n)
  unfolding increment
  Under-increment n = Under-still (increment n) (λ w. refl)

  pub Under-set_active : (n : ℕ) → Under c (set_active_guardians n)
  unfolding set_active_guardians
  Under-set_active n = Under-still (set_active_guardians n) (λ w. refl)

pub ruleset call_rules =
    (flow_rules, Under-raise_if, Under-increment, Under-set_active, store_rules)

module _ (env : Environment) (fair : IsFair env) {c : Option RecoveryRequest} where
  pub Under-now : Under c (now env)
  unfolding now
  Under-now = Under-external _

  pub Under-new_id : (prefix : String) → Under c (new_id env prefix)
  unfolding new_id
  Under-new_id prefix = Under-external _

  pub Under-audit :
      (t : AuditEventType) (a b : String) (at : ℕ) (d : String) (m : List (String × String))
      → Under c (audit env t a b at d m)
  unfolding audit
  Under-audit t a b at d m = search (call_rules, Under-atomic env fair)

  pub Under-refresh : Under c (refresh_guardian_metric env)
  unfolding refresh_guardian_metric
  Under-refresh = search (call_rules, Under-atomic env fair)

module _ (env : Environment) (fair : IsFair env) {c : Option RecoveryRequest} where
  pub Under-audit_unauthorized : (a b : String) → Under c (audit_unauthorized env a b)
  unfolding audit_unauthorized
  Under-audit_unauthorized a b =
      search (call_rules, Under-now env fair, Under-new_id env fair, Under-audit env fair)

-- What `search` needs for a method's body.
pub ruleset service_rules = (
  call_rules, Under-atomic, Under-now, Under-new_id, Under-audit, Under-refresh,
  Under-audit_unauthorized,
)

module _ {B : Type 0} {c : Option RecoveryRequest} where
  -- After a guard the rest may rely on its test.
  pub Under-guard :
      (b : Bool) (e : RecoveryError) (f : Unit {0} → Exec World B)
      → (b ≡ false → Under c (f tt))
      → Under c (raise_if b e >>= f)
  unfolding raise_if ◌>>=◌
  Under-guard true e f u = Under-still (raise_if true e >>= f) (λ w. refl)
  Under-guard false e f u = record { at = (u refl).at }
