-- ===== src/Identity/Keys/Guarantee/Service.antt =====
-- What all the methods of `ManagedKeyService` together guarantee of the stored keys
-- (services/identity-service/app/application/services/managed_key_service.py).
use secure_ssi_platform.Prelude.{String, Option, none, List, [], ◌∷◌}
use secure_ssi_platform.Identity.Keys.Record.{ManagedKey}
use secure_ssi_platform.Identity.Keys.Environment.{Environment, World}
use secure_ssi_platform.Identity.Keys.Service.Calls.{Call, perform, serve}
use secure_ssi_platform.Identity.Keys.Guarantee.Invariant.{
  IsStore, Evolves, Evolves-refl, Evolves-trans,
}
use secure_ssi_platform.Identity.Keys.Guarantee.Access
use secure_ssi_platform.Identity.Keys.Guarantee.Access.{get_owned-Yields}
use secure_ssi_platform.Identity.Keys.Guarantee.Provisioning
use secure_ssi_platform.Identity.Keys.Guarantee.Lifecycle
use secure_ssi_platform.Identity.Keys.Guarantee.Rotation
use secure_ssi_platform.Identity.Keys.Guarantee.Reconciliation

module _ {S O : Type 0} {stored : S → String → Option ManagedKey} (env : Environment S O)
    (store : IsStore stored env.keys) where
  perform-Evolves : (c : Call) (w : World S O) → Evolves stored w.keys (perform env c w).keys
  unfolding perform
  perform-Evolves (Call.provision_initial_wallet_key w o i r) s =
      (Provisioning.provision_initial-Under env store w o i r {c = none}).at s tt
  perform-Evolves (Call.create_for_wallet w o p a n i r) s =
      (Provisioning.create_for_wallet-Under env store w o p a n i r {c = none}).at s tt
  perform-Evolves (Call.list_owned w o n k) s =
      (Access.Under-list_owned {c = none} env store w o n k).at s tt
  perform-Evolves (Call.get_owned w k o r) s =
      (get_owned-Yields {c = none} env store w k o r).under.at s tt
  perform-Evolves (Call.rotate w k o i r) s =
      (Rotation.rotate-Under env store w k o i r {c = none}).at s tt
  perform-Evolves (Call.recover_wallet w o q reason r) s =
      (Rotation.recover_wallet-Under env store w o q reason r {c = none}).at s tt
  perform-Evolves (Call.suspend w k o r) s =
      (Lifecycle.suspend-Under env store w k o r {c = none}).at s tt
  perform-Evolves (Call.resume w k o r) s =
      (Lifecycle.resume-Under env store w k o r {c = none}).at s tt
  perform-Evolves (Call.mark_compromised w k a reason r b) s =
      (Lifecycle.mark_compromised-Under env store w k a reason r b {c = none}).at s tt
  perform-Evolves (Call.revoke w k o reason r) s =
      (Lifecycle.revoke-Under env store w k o reason r {c = none}).at s tt
  perform-Evolves (Call.schedule_destruction w k a reason x r b) s =
      (Lifecycle.schedule_destruction-Under env store w k a reason x r b {c = none}).at s tt
  perform-Evolves (Call.cancel_destruction w k a r b) s =
      (Lifecycle.cancel_destruction-Under env store w k a r b {c = none}).at s tt
  perform-Evolves (Call.reconcile_authorized w k a r b) s =
      (Reconciliation.reconcile_authorized-Under env store w k a r b {c = none}).at s tt
  perform-Evolves (Call.reconcile k a r) s =
      (Reconciliation.reconcile-Under env store k a r {c = none}).at s tt
  perform-Evolves (Call.reconcile_batch stale size) s =
      (Reconciliation.reconcile_batch-Under env store stale size {c = none}).at s tt

  -- Over a repository whose writes are steps, every sequence of calls of the key service, with
  -- whatever results, keeps every stored key and lets it make only the steps of a key's life.
  pub keys-Evolves : (cs : List Call) (w : World S O) → Evolves stored w.keys (serve env cs w).keys
  unfolding serve
  keys-Evolves [] w = Evolves-refl w.keys
  keys-Evolves (c ∷ cs) w = Evolves-trans (perform-Evolves c w) (keys-Evolves cs (perform env c w))
