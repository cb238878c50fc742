-- ===== src/Identity/Keys/Guarantee/Provisioning.antt =====
-- Provisioning keeps the stored keys
-- (services/identity-service/app/application/services/managed_key_service.py).
use secure_ssi_platform.Prelude.{ℕ, ◌≡◌, String, Option, none, some, ap, ◌∙◌}
use secure_ssi_platform.Identity.Failures.{Exec, ok}
use secure_ssi_platform.Identity.Wallet.{HolderWallet}
use secure_ssi_platform.Identity.Keys.States.{KeyPurpose, KeyAlgorithm, pending}
use secure_ssi_platform.Identity.Keys.Record.{ManagedKey, check_key}
use secure_ssi_platform.Identity.Keys.Environment.{Environment, World, on_keys}
use secure_ssi_platform.Identity.Keys.Service.Provisioning.{
  KeyRequest, provision_pending, provision_new, provision, provision_initial_wallet_key,
  create_for_wallet, pending_key, or_provision, existing_for_wallet,
}
use secure_ssi_platform.Identity.Keys.History.Checked.{check_key-Gives}
use secure_ssi_platform.Identity.Keys.History.Moves.{hydrate-Step}
use secure_ssi_platform.Identity.Keys.Guarantee.Invariant.{IsStore}
use secure_ssi_platform.Identity.Keys.Guarantee.Rules.{
  Under, Under-bind, Under-bind-lift, Under-bind-known, Under-on_error, Under-if, Under-pure,
  Under-lift, Under-raise, Under-on_keys, Under-elsewhere, Under-bind-returned,
}
use secure_ssi_platform.Identity.Keys.Guarantee.Known.{Yields-on_keys, Yields-update}
use secure_ssi_platform.Identity.Keys.Guarantee.Access.{
  call_rules, Under-now, Under-audit, Under-observe_inventory, Under-owned_wallet,
  Under-bind_presentation_key, Under-find_provider, Under-call_provider,
}

module _ {S O : Type 0} {stored : S → String → Option ManagedKey} (env : Environment S O)
    (store : IsStore stored env.keys) where
  provision_pending-Under :
      (key k : ManagedKey) (digest o r : String) (at : ℕ)
      → k.state ≡ pending
      → Under stored (some k) (provision_pending env key k digest o r at)
  unfolding provision_pending
  provision_pending-Under key k digest o r at p =
      Under-bind _ _ (Under-find_provider env _) λ provider.
        Under-bind _ _ (Under-call_provider env _) λ m. Under-bind _ _ (Under-lift _) λ _.
          Under-bind-lift _ _ λ y hy. Under-bind-lift _ _ λ x hx.
            Under-bind-known _ _ _
              (Yields-update store k x (hydrate-Step env.library k m at p hy hx))
              (λ z. search (call_rules, Under-observe_inventory) depth 30)

  -- `add` gives back the pending key that it was given.
  added_pending :
      (q : KeyRequest) (id key_id digest : String) (v at : ℕ) {key k : ManagedKey} (w : World S O)
      → check_key env.library (pending_key q id key_id v at digest) ≡ ok key
      → (on_keys {O = O} (env.keys.add key) w).0 ≡ ok k
      → k.state ≡ pending
  unfolding on_keys
  added_pending q id key_id digest v at {key = key} {k = k} w h e =
      ap (λ (z : ManagedKey). z.state)
        (store.add_same key w.keys k e ∙ (check_key-Gives env.library _).value key h)

  provision_new-Under :
      (q : KeyRequest) (digest r : String) {c : Option ManagedKey}
      → Under stored c (provision_new env q digest r)
  unfolding provision_new
  provision_new-Under q digest r = Under-bind _ _ (Under-now env) λ at.
      Under-bind _ _ (Under-on_keys _ (store.versions _ _)) λ versions.
        Under-bind _ _ (Under-elsewhere _) λ id. Under-bind _ _ (Under-elsewhere _) λ key_id.
          Under-bind-lift _ _ λ key checked.
            Under-bind-returned _ _ _ (Yields-on_keys _ (store.add key) (store.added key)) (λ k w e.
              Under-bind _ _ (Under-audit env _ _ _ _ _ _ _) λ _.
                Under-on_error _ _
                  (provision_pending-Under key k digest _ r at
                    (added_pending q id key_id digest _ at w checked e))
                  (λ x. search call_rules depth 30))

  or_provision-Under :
      (o : Option ManagedKey) {m : Exec (World S O) ManagedKey} {c : Option ManagedKey}
      → Under stored c m
      → Under stored c (or_provision env o m)
  or_provision-Under none u = u
  or_provision-Under (some k) u = Under-pure k

  pub provision-Under :
      (q : KeyRequest) (i r : String) {c : Option ManagedKey} → Under stored c (provision env q i r)
  unfolding provision
  provision-Under q i r = Under-bind _ _ (Under-lift _) λ _. Under-bind _ _ (Under-lift _) λ digest.
      Under-bind _ _ (Under-on_keys _ (store.by_hash _ _ _))
        λ existing. or_provision-Under existing (provision_new-Under q digest r)

  pub provision_initial-Under :
      (w o i r : String) {c : Option ManagedKey}
      → Under stored c (provision_initial_wallet_key env w o i r)
  unfolding provision_initial_wallet_key
  provision_initial-Under w o i r = provision-Under _ i r

  existing_for_wallet-Under :
      (w : HolderWallet) (o : Option ManagedKey) {c : Option ManagedKey}
      → Under stored c (existing_for_wallet env w o)
  existing_for_wallet-Under w none = Under-raise _
  existing_for_wallet-Under w (some k) = search (call_rules, Under-bind_presentation_key)

  pub create_for_wallet-Under :
      (w o : String) (p : KeyPurpose) (a : KeyAlgorithm) (n : Option String) (i r : String)
      {c : Option ManagedKey}
      → Under stored c (create_for_wallet env w o p a n i r)
  unfolding create_for_wallet
  create_for_wallet-Under w o p a n i r =
      Under-bind _ _ (Under-owned_wallet env store w o) λ wallet.
        Under-bind _ _ (Under-on_keys _ (store.active w p)) λ current.
          Under-if _ _ _
            (Under-bind _ _ (Under-lift _) λ digest.
              Under-bind _ _ (Under-on_keys _ (store.by_hash _ _ _))
                λ existing. existing_for_wallet-Under wallet existing)
            (Under-bind _ _ (provision-Under _ i r)
              λ key. search (call_rules, Under-bind_presentation_key))
