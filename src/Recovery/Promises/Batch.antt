-- ===== src/Recovery/Promises/Batch.antt =====
-- A batch of reconciliations (`reconcile_due` of
-- services/recovery-service/app/application/services/recovery_service.py).
use secure_ssi_platform.Prelude.{
  ℕ, suc, ◌+◌, ◌≡◌, refl, ap, ◌∙◌, arith, Bool, false, List, [], ◌∷◌, length, if◌then◌else◌,
}
use secure_ssi_platform.Recovery.Monad.{ok, pure}
use secure_ssi_platform.Recovery.Domain.Requests.{RecoveryRequest}
use secure_ssi_platform.Recovery.Environment.{Environment, World, Counter, increment}
use secure_ssi_platform.Recovery.Service.Reconciliation.{reconcile_candidate, reconcile_all}
use secure_ssi_platform.Prelude.Returns.{catch-returns, bind-after}

one_more : (b : Bool) (m n : ℕ) → (if b then suc m else m) + (if b then n else suc n) ≡ suc (m + n)
one_more b m n = ground arith

module _ (env : Environment) where
  -- A candidate never raises.
  candidate-returns :
      (q : RecoveryRequest) (w : World) → (b : Bool) × ((reconcile_candidate env q w).0 ≡ ok b)
  unfolding reconcile_candidate increment pure
  candidate-returns q w =
      let (b, p) =
        catch-returns {S = World} _ _ (increment Counter.reconciliation_attempts w).1 (λ e t. (
          false,
          ap (λ x. x.0) (bind-after (increment Counter.reconciliation_failures) _ t refl),
        )) in
      (b, ap (λ x. x.0) (bind-after (increment Counter.reconciliation_attempts) _ w refl) ∙ p)

  -- A batch always returns, whatever becomes of its requests, and every request of it is counted
  -- once, as a success or as a failure.
  pub reconcile_all-counts :
      (qs : List RecoveryRequest) (m n : ℕ) (w : World)
      → (r : ℕ × ℕ) × ((reconcile_all env qs m n w).0 ≡ ok r) × (r.0 + r.1 ≡ m + n + length qs)
  unfolding reconcile_all pure
  reconcile_all-counts [] m n w = ((m, n), refl, omega arith)
  reconcile_all-counts (q ∷ qs) m n w =
      let (b, h) = candidate-returns q w in
      let (r, p, c) =
        reconcile_all-counts qs (if b then suc m else m) (if b then n else suc n)
          (reconcile_candidate env q w).1 in
      (
        r,
        ap (λ x. x.0) (bind-after (reconcile_candidate env q) _ w h) ∙ p,
        c ∙ ap (λ x. x + length qs) (one_more b m n) ∙ (omega arith),
      )
