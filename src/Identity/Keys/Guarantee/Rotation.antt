-- ===== src/Identity/Keys/Guarantee/Rotation.antt =====
-- Rotation, and the recovery of a wallet by one, keep the stored keys
-- (services/identity-service/app/application/services/managed_key_service.py).
use secure_ssi_platform.Prelude.{ℕ, String, Option, none, some}
use secure_ssi_platform.Identity.Failures.{Exec}
use secure_ssi_platform.Identity.Keys.Record.{ManagedKey}
use secure_ssi_platform.Identity.Keys.Environment.{Environment, World}
use secure_ssi_platform.Identity.Keys.Service.Rotation.{
  retire_linked, replace_key, rotate_claimed, rotate_new, rotate_once, rotate, recovered_before,
  recover_now, recover_once, recover_wallet,
}
use secure_ssi_platform.Identity.Keys.History.Moves.{suspend-Step}
use secure_ssi_platform.Identity.Keys.Guarantee.Invariant.{IsStore}
use secure_ssi_platform.Identity.Keys.Guarantee.Rules.{
  Under, Yields, Under-bind, Under-bind-lift, Under-bind-known, Under-pure, Under-lift,
  Under-raise_if, Under-run_if, Under-on_error, Under-on_keys, Under-elsewhere, flow_rules,
}
use secure_ssi_platform.Identity.Keys.Guarantee.Known.{
  Yields-pure, Yields-bind, Yields-bind-known, Yields-on_keys, Yields-update,
}
use secure_ssi_platform.Identity.Keys.Guarantee.Access.{
  call_rules, Under-now, Under-audit, Under-observe_inventory, Under-find_provider,
  Under-call_provider, Under-owned_wallet, get_owned-Yields,
}
use secure_ssi_platform.Identity.Keys.Guarantee.Provisioning.{provision-Under}
use secure_ssi_platform.Identity.Keys.Guarantee.Lifecycle.{mark_compromised-Under}

module _ {S O : Type 0} {stored : S → String → Option ManagedKey} (env : Environment S O)
    (store : IsStore stored env.keys) where
  retire_linked-Under : (k : ManagedKey) (at : ℕ) → Under stored (some k) (retire_linked env k at)
  unfolding retire_linked
  retire_linked-Under k at = Under-bind _ _ (Under-find_provider env _) λ provider.
      Under-bind _ _ (Under-call_provider env _) λ _. Under-bind-lift _ _ λ x hx.
        Under-bind-known _ _ _ (Yields-update store k x (suspend-Step env.library k at none hx))
          (λ z. Under-pure tt)

  -- The second key that is returned is the predecessor, linked to its successor.
  replace_key-Yields :
      (source claimed : ManagedKey) (w o i r : String) (at : ℕ) {c : Option ManagedKey}
      → Yields stored
          (λ (p : ManagedKey × ManagedKey). p.1)
          c
          (replace_key env source claimed w o i r at)
  unfolding replace_key
  replace_key-Yields source claimed w o i r at =
      Yields-bind _ _ (provision-Under env store _ i r) λ successor.
        Yields-bind _ _ (Under-audit env _ _ _ _ _ _ _) λ _.
          Yields-bind-known _ _ _
            (Yields-on_keys _ (store.link_successor _ _ _ _) (store.linked _ _ _ _))
            (λ linked. Yields-bind _ _ (Under-owned_wallet env store _ _) λ wallet.
              Yields-bind _ _ (Under-lift _) λ reference.
                Yields-bind _ _ (Under-elsewhere _) λ bound.
                  Yields-pure {g = λ (p : ManagedKey × ManagedKey). p.1} (successor, linked))

  rotate_claimed-Under :
      (source claimed : ManagedKey) (w o i r : String) (at : ℕ) {c : Option ManagedKey}
      → Under stored c (rotate_claimed env source claimed w o i r at)
  unfolding rotate_claimed
  rotate_claimed-Under source claimed w o i r at =
      Under-bind-known _ _ _ (replace_key-Yields source claimed w o i r at) λ keys.
        Under-bind _ _ (Under-run_if _ _ (retire_linked-Under keys.1 at))
          λ _. search (call_rules, Under-observe_inventory) depth 20

  rotate_new-Under :
      (source : ManagedKey) (w o i r : String) {c : Option ManagedKey}
      → Under stored c (rotate_new env source w o i r)
  unfolding rotate_new
  rotate_new-Under source w o i r = Under-bind _ _ (Under-raise_if _ _) λ _.
      Under-bind _ _ (Under-raise_if _ _) λ _. Under-bind _ _ (Under-now env) λ at.
        Under-bind _ _ (Under-audit env _ _ _ _ _ _ _) λ _.
          Under-bind _ _ (Under-on_keys _ (store.claim_rotation _ _ _)) λ claimed.
            Under-on_error _ _ (rotate_claimed-Under source claimed w o i r at)
              (λ e. search call_rules depth 20)

  rotate_once-Under :
      (e : Option ManagedKey) (k : ManagedKey) {m : Exec (World S O) ManagedKey}
      {c : Option ManagedKey}
      → Under stored c m
      → Under stored c (rotate_once env e k m)
  rotate_once-Under none k u = u
  rotate_once-Under (some x) k u = search flow_rules

  pub rotate-Under :
      (w k o i r : String) {c : Option ManagedKey} → Under stored c (rotate env w k o i r)
  unfolding rotate
  rotate-Under w k o i r = Under-bind-known _ _ _ (get_owned-Yields env store w k o r) λ source.
      Under-bind _ _ (Under-lift _) λ digest.
        Under-bind _ _ (Under-on_keys _ (store.by_hash _ _ _))
          λ existing. rotate_once-Under existing source (rotate_new-Under source w o i r)

  recovered_before-Under :
      (e : ManagedKey) (w o reason r : String) {c : Option ManagedKey}
      → Under stored c (recovered_before env e w o reason r)
  unfolding recovered_before
  recovered_before-Under e w o reason r =
      search (flow_rules, store.get, mark_compromised-Under) depth 20

  recover_now-Under :
      (w o i reason r : String) {c : Option ManagedKey}
      → Under stored c (recover_now env w o i reason r)
  unfolding recover_now
  recover_now-Under w o i reason r =
      search (flow_rules, store.active, rotate-Under, mark_compromised-Under) depth 20

  recover_once-Under :
      (e : Option ManagedKey) (w o i reason r : String) {c : Option ManagedKey}
      → Under stored c (recover_once env e w o i reason r)
  recover_once-Under none w o i reason r = recover_now-Under w o i reason r
  recover_once-Under (some k) w o i reason r = recovered_before-Under k w o reason r

  pub recover_wallet-Under :
      (w o q reason r : String) {c : Option ManagedKey}
      → Under stored c (recover_wallet env w o q reason r)
  unfolding recover_wallet
  recover_wallet-Under w o q reason r = Under-bind _ _ (Under-owned_wallet env store w o) λ _.
      Under-bind _ _ (Under-lift _) λ digest.
        Under-bind _ _ (Under-on_keys _ (store.by_hash _ _ _))
          λ existing. recover_once-Under existing w o _ reason r
