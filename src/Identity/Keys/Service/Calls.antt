-- ===== src/Identity/Keys/Service/Calls.antt =====
-- The public methods of `ManagedKeyService`
-- (services/identity-service/app/application/services/managed_key_service.py), as calls that arrive
-- one after another. A call ends by a value or by an exception, and leaves its state either way.
use secure_ssi_platform.Prelude.{ℕ, String, Bool, Option, List, [], ◌∷◌}
use secure_ssi_platform.Identity.Keys.States.{KeyPurpose, KeyAlgorithm}
use secure_ssi_platform.Identity.Keys.Record.{ManagedKey}
use secure_ssi_platform.Identity.Keys.Environment.{Environment, World}
use secure_ssi_platform.Identity.Keys.Service.Access
use secure_ssi_platform.Identity.Keys.Service.Provisioning
use secure_ssi_platform.Identity.Keys.Service.Lifecycle
use secure_ssi_platform.Identity.Keys.Service.Rotation
use secure_ssi_platform.Identity.Keys.Service.Reconciliation

pub data Call : Type 0 where
  provision_initial_wallet_key : String → String → String → String → Call
  create_for_wallet :
      String → String → KeyPurpose → KeyAlgorithm → Option String → String → String → Call
  list_owned : String → String → ℕ → Option String → Call
  get_owned : String → String → String → String → Call
  rotate : String → String → String → String → String → Call
  recover_wallet : String → String → String → String → String → Call
  suspend : String → String → String → String → Call
  resume : String → String → String → String → Call
  mark_compromised : String → String → String → String → String → Bool → Call
  revoke : String → String → String → String → String → Call
  schedule_destruction : String → String → String → String → String → String → Bool → Call
  cancel_destruction : String → String → String → String → Bool → Call
  reconcile_authorized : String → String → String → String → Bool → Call
  reconcile : ManagedKey → String → String → Call
  reconcile_batch : ℕ → ℕ → Call

module _ {S O : Type 0} (env : Environment S O) where
  -- The state after a call.
  unfoldable pub perform : Call → World S O → World S O
  perform (provision_initial_wallet_key w o i r) s =
      (Provisioning.provision_initial_wallet_key env w o i r s).1
  perform (create_for_wallet w o p a n i r) s =
      (Provisioning.create_for_wallet env w o p a n i r s).1
  perform (list_owned w o n k) s = (Access.list_owned env w o n k s).1
  perform (get_owned w k o r) s = (Access.get_owned env w k o r s).1
  perform (rotate w k o i r) s = (Rotation.rotate env w k o i r s).1
  perform (recover_wallet w o q reason r) s = (Rotation.recover_wallet env w o q reason r s).1
  perform (suspend w k o r) s = (Lifecycle.suspend env w k o r s).1
  perform (resume w k o r) s = (Lifecycle.resume env w k o r s).1
  perform (mark_compromised w k a reason r b) s =
      (Lifecycle.mark_compromised env w k a reason r b s).1
  perform (revoke w k o reason r) s = (Lifecycle.revoke env w k o reason r s).1
  perform (schedule_destruction w k a reason c r b) s =
      (Lifecycle.schedule_destruction env w k a reason c r b s).1
  perform (cancel_destruction w k a r b) s = (Lifecycle.cancel_destruction env w k a r b s).1
  perform (reconcile_authorized w k a r b) s =
      (Reconciliation.reconcile_authorized env w k a r b s).1
  perform (reconcile k a r) s = (Reconciliation.reconcile env k a r s).1
  perform (reconcile_batch stale size) s = (Reconciliation.reconcile_batch env stale size s).1

  unfoldable pub serve : List Call → World S O → World S O
  unfolding perform
  serve [] s = s
  serve (c ∷ cs) s = serve cs (perform c s)
