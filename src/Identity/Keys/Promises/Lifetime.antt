-- ===== src/Identity/Keys/Promises/Lifetime.antt =====
-- The life of a stored key over any sequence of calls of `ManagedKeyService`
-- (services/identity-service/app/application/services/managed_key_service.py).
use mathlib.Core.Path.{subst}
use secure_ssi_platform.Prelude.{◌≤◌, ◌≡◌, ◌≢◌, ◌∙◌, sym, String, true, Option, some, some-eq, List}
use secure_ssi_platform.Identity.Keys.States.{pending, destroyed}
use secure_ssi_platform.Identity.Keys.Record.{ManagedKey}
use secure_ssi_platform.Identity.Keys.Environment.{Environment, World}
use secure_ssi_platform.Identity.Keys.Service.Calls.{Call, serve}
use secure_ssi_platform.Identity.Keys.History.{Steps, SameMaterial}
use secure_ssi_platform.Identity.Keys.History.Life.{
  is_final, Steps-final, Steps-material, WasDue, Steps-due, Steps-attempts,
}
use secure_ssi_platform.Identity.Keys.Guarantee.Invariant.{IsStore}
use secure_ssi_platform.Identity.Keys.Guarantee.Service.{keys-Evolves}

module _ {S O : Type 0} {stored : S → String → Option ManagedKey} (env : Environment S O)
    (store : IsStore stored env.keys) (cs : List Call) (w : World S O) (id : String)
    (k : ManagedKey) (found : stored w.keys id ≡ some k) where
  -- Over a repository whose writes are steps, after any calls a stored key that was destroyed or
  -- failed is still stored, in the same state.
  pub serve-final :
      is_final k.state ≡ true
      → (q : ManagedKey) × (stored (serve env cs w).keys id ≡ some q) × (q.state ≡ k.state)
  serve-final final =
      let (q, h, steps) = (keys-Evolves env store cs w).keys id k found in
      (q, h, Steps-final steps final)

  -- Over a repository whose writes are steps, after any calls a stored key that was past pending is
  -- still stored, is past pending, and has the same DID, provider reference, public key, fingerprint
  -- and verification method.
  pub serve-material :
      k.state ≢ pending
      → (q : ManagedKey) × (stored (serve env cs w).keys id ≡ some q)
        × SameMaterial k q
        × (q.state ≢ pending)
  serve-material past =
      let (q, h, steps) = (keys-Evolves env store cs w).keys id k found in
      let (same, still) = Steps-material steps past in (q, h, same, still)

  -- Over a repository whose writes are steps, if a stored key that was not destroyed is destroyed
  -- after some calls, then its destruction had been scheduled, for no later a time than that at which
  -- it was destroyed.
  pub serve-due :
      (q : ManagedKey)
      → k.state ≢ destroyed
      → stored (serve env cs w).keys id ≡ some q
      → q.state ≡ destroyed
      → WasDue q
  serve-due q live h gone =
      let (q', h', steps) = (keys-Evolves env store cs w).keys id k found in
      let e : q' ≡ q = some-eq (sym h' ∙ h) in Steps-due (subst (Steps k) e steps) live gone

  -- Over a repository whose writes are steps, no call takes back an attempt to reconcile: the count
  -- on a stored key only grows, whether the attempts succeed or fail.
  pub serve-attempts :
      (q : ManagedKey) × (stored (serve env cs w).keys id ≡ some q)
      × (k.reconciliation_attempts ≤ q.reconciliation_attempts)
  serve-attempts =
      let (q, h, steps) = (keys-Evolves env store cs w).keys id k found in
      (q, h, Steps-attempts steps)
