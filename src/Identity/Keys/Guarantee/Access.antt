-- ===== src/Identity/Keys/Guarantee/Access.antt =====
-- The helpers and the reading methods of `ManagedKeyService` keep the stored keys, and the keys that
-- they return are known.
use mathlib.Core.Path.{subst}
use secure_ssi_platform.Prelude.{ℕ, ◌≡◌, arith, String, Bool, ◌&&◌, not, Option, none, some, refl}
use secure_ssi_platform.Prelude.Equality.{◌==◌, text_equality}
use secure_ssi_platform.Identity.Failures.{Exec, pure, lift, raise_if, ◌>>◌, key_not_found}
use secure_ssi_platform.Identity.Wallet.{HolderWallet, require_usable_for_signing}
use secure_ssi_platform.Identity.Keys.States.{ManagedKeyState}
use secure_ssi_platform.Identity.Keys.Record.{ManagedKey}
use secure_ssi_platform.Identity.Keys.Environment.{
  Environment, World, KeyMetric, AuditEventType, observe, recorded, now, find_provider,
  call_provider,
}
use secure_ssi_platform.Identity.Keys.Service.Audit.{record_event}
use secure_ssi_platform.Identity.Keys.Service.Access.{
  audit, inventory, observe_inventory, owned_wallet, bind_presentation_key, bind_if_owned,
  authorized_key, get_owned, list_owned, key_of, visible_key, show_key, hide_key,
}
use secure_ssi_platform.Identity.Keys.Guarantee.Invariant.{IsStore}
use secure_ssi_platform.Identity.Keys.Guarantee.Rules.{
  Under, Yields, flow_rules, Under-raise_if, Under-lift, Under-elsewhere, Under-pure,
  Under-or_raise,
}
use secure_ssi_platform.Identity.Keys.Guarantee.Known.{
  Yields-pure, Yields-raise, Yields-bind, Yields-bind-or_raise, Yields-bind-found,
}

module _ {S O : Type 0} {stored : S → String → Option ManagedKey} {c : Option ManagedKey}
    (env : Environment S O) where
  pub Under-observe : (m : KeyMetric) → Under stored c (observe env m)
  unfolding observe
  Under-observe m = elim env.metrics as (λ o. Under stored c (recorded env o m)) [
    | none ↦ Under-pure tt
    | some record_metric ↦ Under-elsewhere (record_metric m)
  ]

  pub Under-now : Under stored c (now env)
  unfolding now
  Under-now = search flow_rules

  pub Under-find_provider : (name : String) → Under stored c (find_provider env name)
  unfolding find_provider
  Under-find_provider name = Under-or_raise _ _

  pub Under-audit :
      (t : AuditEventType) (k : ManagedKey) (a b : String) (at : ℕ) (old : Option ManagedKeyState)
      (reason : Option String)
      → Under stored c (audit env t k a b at old reason)
  unfolding audit record_event
  Under-audit t k a b at old reason = search flow_rules depth 20

module _ {S O A : Type 0} {stored : S → String → Option ManagedKey} {c : Option ManagedKey}
    (env : Environment S O) where
  pub Under-call_provider : (m : Exec O A) → Under stored c (call_provider env m)
  unfolding call_provider
  Under-call_provider m = search (flow_rules, Under-observe) depth 20

pub ruleset call_rules =
    (flow_rules, Under-observe, Under-now, Under-find_provider, Under-audit, Under-call_provider)

module _ {S O : Type 0} {stored : S → String → Option ManagedKey} {c : Option ManagedKey}
    (env : Environment S O) (store : IsStore stored env.keys) where
  pub Under-observe_inventory : Under stored c (observe_inventory env)
  unfolding observe_inventory
  Under-observe_inventory = elim env.metrics as (λ o. Under stored c (inventory env o)) [
    | none ↦ Under-pure tt
    | some _ ↦ search (call_rules, store.by_provider, store.by_state) depth 20
  ]

  pub Under-owned_wallet : (w o : String) → Under stored c (owned_wallet env w o)
  unfolding owned_wallet
  Under-owned_wallet w o = search call_rules depth 20

  pub Under-bind_presentation_key :
      (w : HolderWallet) (k : ManagedKey) → Under stored c (bind_presentation_key env w k)
  unfolding bind_presentation_key
  Under-bind_presentation_key w k = search call_rules depth 20

  pub Under-list_owned :
      (w o : String) (n : ℕ) (after : Option String) → Under stored c (list_owned env w o n after)
  unfolding list_owned
  Under-list_owned w o n after = search (call_rules, store.for_wallet) depth 20

module _ {S O : Type 0} {stored : S → String → Option ManagedKey} {c : Option ManagedKey}
    (env : Environment S O) (store : IsStore stored env.keys) where
  pub Under-bind_if_owned :
      (w : Option HolderWallet) (k : ManagedKey) → Under stored c (bind_if_owned env w k)
  Under-bind_if_owned none k = Under-pure tt
  Under-bind_if_owned (some w) k = Under-bind_presentation_key env store w k

module _ {S O : Type 0} {stored : S → String → Option ManagedKey} {c : Option ManagedKey}
    (env : Environment S O) where
  -- The refusal never returns a key.
  hide_key-Yields :
      (k : Option ManagedKey) (o r : String) → Yields stored (λ x. x) c (hide_key env k o r)
  hide_key-Yields none o r = Yields-raise _
  hide_key-Yields (some k) o r =
      Yields-bind _ _ (Under-now env)
        λ at. Yields-bind _ _ (Under-audit env _ k o r at none _) λ _. Yields-raise _

-- A key that passes a test on the key found is that key.
key_of-eq : (w : String) (k : ManagedKey) {x : ManagedKey} → key_of w (some k) ≡ some x → x ≡ k
key_of-eq w k h = ground arith

visible_key-eq :
    (o : String) (w : Option HolderWallet) (k : Option ManagedKey) {v : HolderWallet}
    {x : ManagedKey}
    → visible_key o w k ≡ some (v, x)
    → k ≡ some x
visible_key-eq o none k h = absurd (ground arith)
visible_key-eq o (some w) none h = absurd (ground arith)
visible_key-eq o (some w) (some k) h = ground arith

module _ {S O : Type 0} {stored : S → String → Option ManagedKey} (env : Environment S O) where
  shown :
      (v : Option (HolderWallet × ManagedKey)) (k : ManagedKey) (f : Option ManagedKey)
      (o r : String)
      → ((w : HolderWallet) (x : ManagedKey) → v ≡ some (w, x) → x ≡ k)
      → Yields stored (λ x. x) (some k) (show_key env v f o r)
  shown none k f o r same = hide_key-Yields env f o r
  shown (some (w, x)) k f o r same =
      subst (λ z. Yields stored (λ y. y) (some z) (usable x)) (same w x refl)
        (Yields-bind _ _ (Under-lift _) (λ _. Yields-pure x))
    where
      usable : ManagedKey → Exec (World S O) ManagedKey
      usable y = lift (require_usable_for_signing w) >> pure y

module _ {S O : Type 0} {stored : S → String → Option ManagedKey} {c : Option ManagedKey}
    (env : Environment S O) (store : IsStore stored env.keys) where
  -- Both ways to come by a key of a wallet give a known one.
  pub authorized_key-Yields :
      (w k a : String) (b : Bool) → Yields stored (λ x. x) c (authorized_key env w k a b)
  unfolding authorized_key
  authorized_key-Yields w k a b =
      Yields-bind-found _ _ _ (store.get k) (store.got k)
        (λ x. Yields-bind-or_raise (key_of w (some x)) _ _ λ y e.
          subst (λ z. Yields stored (λ v. v) (some z) (checked y)) (key_of-eq w x e)
            (Yields-bind _ _ (Under-raise_if _ _) (λ _. Yields-pure y)))
        (Yields-bind-or_raise none _ _ (λ y e. absurd (ground arith)))
    where
      checked : ManagedKey → Exec (World S O) ManagedKey
      checked y = raise_if (not (y.owner_user_id == a) && not b) key_not_found >> pure y

  pub get_owned-Yields : (w k o r : String) → Yields stored (λ x. x) c (get_owned env w k o r)
  unfolding get_owned
  get_owned-Yields w k o r = Yields-bind _ _ (Under-elsewhere _) λ wallet.
      Yields-bind-found _ _ _ (store.get k) (store.got k)
        (λ x.
          shown env (visible_key o wallet (key_of w (some x))) x _ o r
            λ v y e. key_of-eq w x (visible_key-eq o wallet (key_of w (some x)) e))
        (hidden wallet)
    where
      hidden :
          (v : Option HolderWallet)
          → Yields stored (λ x. x) c (show_key env (visible_key o v none) none o r)
      hidden none = hide_key-Yields env none o r
      hidden (some v) = hide_key-Yields env none o r
