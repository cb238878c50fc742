-- ===== src/Recovery/Guarantee/Guardians.antt =====
-- The methods on guardians and policies keep every request as it is, and the evidence
-- (services/recovery-service/app/application/services/recovery_service.py).
use secure_ssi_platform.Prelude.{ℕ, String, Option, none, some}
use secure_ssi_platform.Recovery.Domain.States.{GuardianStatus}
use secure_ssi_platform.Recovery.Domain.Guardians.{Guardian, RecoveryPolicy}
use secure_ssi_platform.Recovery.Domain.Requests.{RecoveryRequest}
use secure_ssi_platform.Recovery.Domain.Auth.{Principal}
use secure_ssi_platform.Recovery.Environment.{Environment}
use secure_ssi_platform.Recovery.Service.Guardians.{
  create_guardian, list_guardians, get_guardian, owned_guardian, store_update, update_guardian,
  remove_guardian,
}
use secure_ssi_platform.Recovery.Service.Policies.{
  PolicyTerms, get_policy, put_policy, create_default_policy, policy_id_of,
}
use secure_ssi_platform.Recovery.Guarantee.Rules.{Under, IsFair, Under-pure}
use secure_ssi_platform.Recovery.Guarantee.Calls.{service_rules, Under-new_id}

module _ (env : Environment) (fair : IsFair env) {c : Option RecoveryRequest} where
  pub create_guardian-Under :
      (p : Principal) (w u d n m : String) → Under c (create_guardian env p w u d n m)
  unfolding create_guardian
  create_guardian-Under p w u d n m = search service_rules depth 40

  pub list_guardians-Under : (p : Principal) (w : Option String) → Under c (list_guardians env p w)
  unfolding list_guardians
  list_guardians-Under p w = search service_rules depth 40

  pub get_guardian-Under : (p : Principal) (g : String) → Under c (get_guardian env p g)
  unfolding get_guardian
  get_guardian-Under p g = search service_rules depth 40

  pub owned_guardian-Under : (p : Principal) (g : String) → Under c (owned_guardian env p g)
  unfolding owned_guardian
  owned_guardian-Under p g = search service_rules depth 40

  pub store_update-Under :
      (p : Principal) (s : Option GuardianStatus) (g : Guardian) (at : ℕ) (u : Guardian)
      → Under c (store_update env p s g at u)
  unfolding store_update
  store_update-Under p s g at u = search service_rules depth 40

module _ (env : Environment) (fair : IsFair env) {c : Option RecoveryRequest} where
  pub update_guardian-Under :
      (p : Principal) (g : String) (d m : Option String) (s : Option GuardianStatus)
      → Under c (update_guardian env p g d m s)
  unfolding update_guardian
  update_guardian-Under p g d m s =
      search (service_rules, owned_guardian-Under, store_update-Under) depth 40

  pub get_policy-Under : (p : Principal) (w : String) → Under c (get_policy env p w)
  unfolding get_policy
  get_policy-Under p w = search service_rules depth 40

  policy_id_of-Under : (o : Option RecoveryPolicy) → Under c (policy_id_of env o)
  policy_id_of-Under none = Under-new_id env fair "policy"
  policy_id_of-Under (some p) = Under-pure p.policy_id

module _ (env : Environment) (fair : IsFair env) {c : Option RecoveryRequest} where
  pub remove_guardian-Under : (p : Principal) (g : String) → Under c (remove_guardian env p g)
  unfolding remove_guardian
  remove_guardian-Under p g =
      search (service_rules, owned_guardian-Under, update_guardian-Under) depth 40

  pub put_policy-Under :
      (p : Principal) (w : String) (t : PolicyTerms) → Under c (put_policy env p w t)
  unfolding put_policy
  put_policy-Under p w t = search (service_rules, policy_id_of-Under) depth 40

  pub create_default_policy-Under :
      (p : Principal) (w : String) → Under c (create_default_policy env p w)
  unfolding create_default_policy
  create_default_policy-Under p w = put_policy-Under p w _
