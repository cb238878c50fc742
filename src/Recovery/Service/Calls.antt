-- ===== src/Recovery/Service/Calls.antt =====
-- The public methods of `RecoveryService`, as calls that arrive one after another
-- (services/recovery-service/app/application/services/recovery_service.py). A call ends by a value
-- or by an exception, and leaves its state either way.
use secure_ssi_platform.Prelude.{ℕ, String, Option, List, [], ◌∷◌}
use secure_ssi_platform.Recovery.Domain.States.{GuardianStatus, RecoveryReason}
use secure_ssi_platform.Recovery.Domain.Auth.{Principal}
use secure_ssi_platform.Recovery.Environment.{Environment, World}
use secure_ssi_platform.Recovery.Service.Guardians
use secure_ssi_platform.Recovery.Service.Policies
use secure_ssi_platform.Recovery.Service.Policies.{PolicyTerms}
use secure_ssi_platform.Recovery.Service.Creation
use secure_ssi_platform.Recovery.Service.Decisions
use secure_ssi_platform.Recovery.Service.Reconciliation

pub data Call : Type 0 where
  create_guardian : Principal → String → String → String → String → String → Call
  list_guardians : Principal → Option String → Call
  get_guardian : Principal → String → Call
  update_guardian :
      Principal → String → Option String → Option String → Option GuardianStatus → Call
  remove_guardian : Principal → String → Call
  get_policy : Principal → String → Call
  put_policy : Principal → String → PolicyTerms → Call
  create_request : Principal → String → RecoveryReason → Call
  get_request : Principal → String → Call
  list_requests : Principal → ℕ → Call
  approve : Principal → String → String → String → Option String → Call
  reject : Principal → String → String → String → Option String → Call
  cancel : Principal → String → Call
  reconcile_request : Principal → String → Call
  reconcile_due : Call

module _ (env : Environment) where
  -- The state after a call.
  unfoldable pub perform : Call → World → World
  perform (create_guardian p w u d n m) s = (Guardians.create_guardian env p w u d n m s).1
  perform (list_guardians p w) s = (Guardians.list_guardians env p w s).1
  perform (get_guardian p g) s = (Guardians.get_guardian env p g s).1
  perform (update_guardian p g d m t) s = (Guardians.update_guardian env p g d m t s).1
  perform (remove_guardian p g) s = (Guardians.remove_guardian env p g s).1
  perform (get_policy p w) s = (Policies.get_policy env p w s).1
  perform (put_policy p w t) s = (Policies.put_policy env p w t s).1
  perform (create_request p w r) s = (Creation.create_request env p w r s).1
  perform (get_request p id) s = (Creation.get_request env p id s).1
  perform (list_requests p n) s = (Creation.list_requests env p n s).1
  perform (approve p id g ch pr) s = (Decisions.approve_request env p id g ch pr s).1
  perform (reject p id g ch pr) s = (Decisions.reject_request env p id g ch pr s).1
  perform (cancel p id) s = (Creation.cancel env p id s).1
  perform (reconcile_request p id) s = (Reconciliation.reconcile_request env p id s).1
  perform reconcile_due s = (Reconciliation.reconcile_due env s).1

  unfoldable pub serve : List Call → World → World
  unfolding perform
  serve [] s = s
  serve (c ∷ cs) s = serve cs (perform c s)
