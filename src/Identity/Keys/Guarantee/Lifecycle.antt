-- ===== src/Identity/Keys/Guarantee/Lifecycle.antt =====
-- The changes of a key's state keep the stored keys
-- (services/identity-service/app/application/services/managed_key_service.py).
use secure_ssi_platform.Prelude.{ℕ, ◌+◌, ◌≡◌, String, Bool, Option, none, some}
use secure_ssi_platform.Identity.Failures.{ok}
use secure_ssi_platform.Identity.Keys.States.{ManagedKeyState, active, suspended, revoked}
use secure_ssi_platform.Identity.Keys.Record.{ManagedKey, transition}
use secure_ssi_platform.Identity.Keys.Environment.{
  Environment, AuditEventType, managed_key_suspended, managed_key_resumed, managed_key_revoked,
}
use secure_ssi_platform.Identity.Keys.Service.Lifecycle.{
  ProviderAction, enable, suspend_action, revoke_action, move_key, provider_transition, suspend,
  resume, mark_compromised, revoke, schedule_destruction, cancel_destruction,
}
use secure_ssi_platform.Identity.Keys.History.{Step}
use secure_ssi_platform.Identity.Keys.History.Moves.{
  suspend-Step, active-Step, compromise-Step, revoke-Step, schedule-Step,
}
use secure_ssi_platform.Identity.Keys.Guarantee.Invariant.{IsStore}
use secure_ssi_platform.Identity.Keys.Guarantee.Rules.{
  Under, Under-bind, Under-bind-lift, Under-bind-known, Under-if, Under-pure, Under-lift,
  Under-raise_if,
}
use secure_ssi_platform.Identity.Keys.Guarantee.Known.{Yields-update}
use secure_ssi_platform.Identity.Keys.Guarantee.Access.{
  call_rules, Under-now, Under-observe_inventory, Under-find_provider, Under-call_provider,
  get_owned-Yields, authorized_key-Yields,
}

module _ {S O : Type 0} {stored : S → String → Option ManagedKey} (env : Environment S O)
    (store : IsStore stored env.keys) where
  move_key-Under :
      (k : ManagedKey) (s : ManagedKeyState) (t : AuditEventType) (o r : String)
      (a : ProviderAction) (reason : Option String) (at : ℕ)
      → ((x : ManagedKey)
          → transition env.library k s at reason none ≡ ok x
          → x.version ≡ k.version + 1
          → Step k x)
      → Under stored (some k) (move_key env k s t o r a reason at)
  unfolding move_key
  move_key-Under k s t o r a reason at step = Under-bind-lift _ _ λ x hx.
      Under-bind _ _ (Under-find_provider env _) λ provider.
        Under-bind _ _ (Under-call_provider env _) λ _.
          Under-bind-known _ _ _ (Yields-update store k x (step x hx))
            λ z. search (call_rules, Under-observe_inventory) depth 20

  provider_transition-Under :
      (k : ManagedKey) (s : ManagedKeyState) (t : AuditEventType) (o r : String)
      (a : ProviderAction) (reason : Option String)
      → ((at : ℕ) (x : ManagedKey)
          → transition env.library k s at reason none ≡ ok x
          → x.version ≡ k.version + 1
          → Step k x)
      → Under stored (some k) (provider_transition env k s t o r a reason)
  unfolding provider_transition
  provider_transition-Under k s t o r a reason step =
      Under-bind _ _ (Under-now env)
        λ at. Under-if _ _ _ (Under-pure k) (move_key-Under k s t o r a reason at (step at))

  pub suspend-Under :
      (w k o r : String) {c : Option ManagedKey} → Under stored c (suspend env w k o r)
  unfolding suspend
  suspend-Under w k o r = Under-bind-known _ _ _ (get_owned-Yields env store w k o r) λ x.
      provider_transition-Under x suspended managed_key_suspended o r suspend_action none
        λ at y h v. suspend-Step env.library x at none h v

  pub resume-Under :
      (w k o r : String) {c : Option ManagedKey} → Under stored c (resume env w k o r)
  unfolding resume
  resume-Under w k o r = Under-bind-known _ _ _ (get_owned-Yields env store w k o r) λ x.
      Under-bind _ _ (Under-lift _) λ _.
        provider_transition-Under x active managed_key_resumed o r enable none
          λ at y h v. active-Step env.library x at none h v

  pub revoke-Under :
      (w k o reason r : String) {c : Option ManagedKey} → Under stored c (revoke env w k o reason r)
  unfolding revoke
  revoke-Under w k o reason r = Under-bind-known _ _ _ (get_owned-Yields env store w k o r) λ x.
      Under-bind _ _
        (provider_transition-Under x revoked managed_key_revoked o r revoke_action (some reason)
          (λ at y h v. revoke-Step env.library x at (some reason) h v))
        (λ y. search call_rules depth 20)

  pub mark_compromised-Under :
      (w k a reason r : String) (b : Bool) {c : Option ManagedKey}
      → Under stored c (mark_compromised env w k a reason r b)
  unfolding mark_compromised
  mark_compromised-Under w k a reason r b =
      Under-bind-known _ _ _ (authorized_key-Yields env store w k a b) λ x.
        Under-bind _ _ (Under-now env) λ at. Under-bind-lift _ _ λ y hy.
          Under-bind-known _ _ _
            (Yields-update store x y (compromise-Step env.library x at (some reason) hy))
            (λ z. search (call_rules, Under-observe_inventory) depth 30)

  pub schedule_destruction-Under :
      (w k a reason confirmation r : String) (b : Bool) {c : Option ManagedKey}
      → Under stored c (schedule_destruction env w k a reason confirmation r b)
  unfolding schedule_destruction
  schedule_destruction-Under w k a reason confirmation r b =
      Under-bind _ _ (Under-raise_if _ _) λ _. Under-bind _ _ (Under-raise_if _ _) λ _.
        Under-bind-known _ _ _ (authorized_key-Yields env store w k a b) λ x.
          Under-bind _ _ (Under-now env) λ at.
            Under-bind _ _ (Under-find_provider env _) λ provider.
              Under-bind _ _ (Under-call_provider env _) λ _. Under-bind-lift _ _ λ y hy.
                Under-bind-known _ _ _
                  (Yields-update store x y (
                    schedule-Step env.library x at (some reason) (env.policy.destruction_time at)
                      hy))
                  (λ z. search (call_rules, Under-observe_inventory) depth 20)

  pub cancel_destruction-Under :
      (w k a r : String) (b : Bool) {c : Option ManagedKey}
      → Under stored c (cancel_destruction env w k a r b)
  unfolding cancel_destruction
  cancel_destruction-Under w k a r b =
      Under-bind-known _ _ _ (authorized_key-Yields env store w k a b) λ x.
        Under-bind _ _ (Under-find_provider env _) λ provider.
          Under-bind _ _ (Under-call_provider env _) λ _. Under-bind _ _ (Under-now env) λ at.
            Under-bind-lift _ _ λ y hy.
              Under-bind-known _ _ _
                (Yields-update store x y (revoke-Step env.library x at none hy))
                (λ z. search (call_rules, Under-observe_inventory) depth 20)
