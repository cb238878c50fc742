-- ===== src/Identity/Keys/Guarantee/Reconciliation.antt =====
-- Reconciliation keeps the stored keys
-- (services/identity-service/app/application/services/managed_key_service.py).
use secure_ssi_platform.Prelude.{
  ℕ, ◌≡◌, String, Bool, true, Option, none, some, List, [], ◌∷◌, sym, arith, ◌&&◌, ◌+◌, is_none,
}
use secure_ssi_platform.Prelude.Equality.{◌==◌}
use mathlib.Core.Path.{subst}
use secure_ssi_platform.Identity.Failures.{Failure, ok}
use secure_ssi_platform.Identity.Keys.States.{
  ManagedKeyState, key_state_equality, active, pending, suspended, failed, destroyed,
}
use secure_ssi_platform.Identity.Keys.Metadata.{ProviderKeyMetadata}
use secure_ssi_platform.Identity.Keys.Record.{ManagedKey, transition}
use secure_ssi_platform.Identity.Keys.Environment.{Environment, KeyProvider}
use secure_ssi_platform.Identity.Keys.Service.Reconciliation.{
  synced, move_to, destroy_due, activate, create_missing, fetch_metadata, missing_at_provider,
  retire_rotated, end_rotation, sync, finish_rotation, fail_unbound, sync_active, reconcile_known,
  reconcile_found, reconcile_claimed, reconcile_noted, note_failed_reconciliation, reconcile,
  reconcile_authorized, reconcile_candidate, reconcile_all, reconcile_batch,
}
use secure_ssi_platform.Identity.Keys.History.{Step}
use secure_ssi_platform.Identity.Keys.History.Checked.{check_key-Gives}
use secure_ssi_platform.Identity.Keys.History.Moves.{
  hydrate-Step, suspend-Step, active-Step, give_up-Step, destroy-Step, sync-Step,
}
use secure_ssi_platform.Identity.Keys.Guarantee.Invariant.{IsStore}
use secure_ssi_platform.Identity.Keys.Guarantee.Rules.{
  Under, Under-bind, Under-bind-lift, Under-bind-known, Under-if, Under-pure, Under-lift,
  Under-raise, Under-catch, Under-on_error, Under-or_raise, Under-on_keys, Under-elsewhere,
  Under-guard, Under-branch, flow_rules,
}
use secure_ssi_platform.Identity.Keys.Guarantee.Known.{
  Yields-update, Under-update, Under-bind-found,
}
use secure_ssi_platform.Identity.Keys.Guarantee.Access.{
  call_rules, Under-now, Under-audit, Under-observe, Under-observe_inventory, Under-find_provider,
  Under-call_provider, Under-bind_if_owned, authorized_key-Yields,
}

is_state : (a b : ManagedKeyState) → (a == b) ≡ true → a ≡ b
is_state a b h = (key_state_equality.beq_iff a b).0 h

module _ {S O : Type 0} {stored : S → String → Option ManagedKey} (env : Environment S O)
    (store : IsStore stored env.keys) where
  move_to-Under :
      (k : ManagedKey) (s : ManagedKeyState) (at : ℕ) (reason : Option String)
      → ((x : ManagedKey)
          → transition env.library k s at reason none ≡ ok x
          → x.version ≡ k.version + 1
          → Step k x)
      → Under stored (some k) (move_to env k s at reason)
  unfolding move_to
  move_to-Under k s at reason step = Under-bind-lift _ _ λ x hx. Under-update store k x (step x hx)

  fail-Under :
      (k : ManagedKey) (at : ℕ) (reason : Option String)
      → Under stored (some k) (move_to env k failed at reason)
  fail-Under k at reason =
      move_to-Under k failed at reason λ x h v. give_up-Step env.library k at reason h v

  sync-Under : (k : ManagedKey) (at : ℕ) → Under stored (some k) (sync env k at)
  unfolding sync
  sync-Under k at = Under-bind-lift _ _ λ x hx. Under-update store k x λ _.
      subst (Step k) (sym ((check_key-Gives env.library (synced k at)).value x hx)) (sync-Step k at)

  destroy_due-Under :
      (p : KeyProvider O) (k : ManagedKey) (at : ℕ) → Under stored (some k) (destroy_due env p k at)
  unfolding destroy_due
  destroy_due-Under p k at = Under-guard _ _ _ λ due.
      Under-bind _ _ (Under-catch _ _ (Under-call_provider env _) (λ e. search flow_rules)) (λ _.
        Under-bind _ _
          (move_to-Under k destroyed at none
            λ x h v. destroy-Step env.library k at none (ground arith) h v)
          (λ x. search call_rules))

  activate-Under :
      (k : ManagedKey) (m : ProviderKeyMetadata) (at : ℕ)
      → k.state ≡ pending
      → Under stored (some k) (activate env k m at)
  unfolding activate
  activate-Under k m at p = Under-bind-lift _ _ λ y hy. Under-bind-lift _ _ λ x hx.
      Under-bind-known _ _ _ (Yields-update store k x (hydrate-Step env.library k m at p hy hx))
        (λ z. search (call_rules, Under-bind_if_owned) depth 20)

  create_missing-Under :
      (p : KeyProvider O) (k : ManagedKey) (at : ℕ)
      → k.state ≡ pending
      → Under stored (some k) (create_missing env p k at)
  unfolding create_missing
  create_missing-Under p k at e = search (call_rules, activate-Under) depth 20

  missing-Under : (k : ManagedKey) (at : ℕ) → Under stored (some k) (missing_at_provider env k at)
  unfolding missing_at_provider
  missing-Under k at = Under-if _ _ _ (fail-Under k at _) (Under-raise _)

  retire_rotated-Under :
      (p : KeyProvider O) (k : ManagedKey) (s : String) (at : ℕ)
      → Under stored (some k) (retire_rotated env p k s at)
  unfolding retire_rotated
  retire_rotated-Under p k s at = Under-bind _ _ (Under-on_keys _ (store.get s)) λ found.
      Under-bind _ _ (Under-or_raise _ _) λ successor.
        Under-bind _ _ (search call_rules depth 20) λ _.
          Under-bind _ _ (Under-call_provider env _)
            λ _. move_to-Under k suspended at none λ x h v. suspend-Step env.library k at none h v

  end_rotation-Under :
      (p : KeyProvider O) (k : ManagedKey) (s : Option String) (at : ℕ)
      → Under stored (some k) (end_rotation env p k s at)
  end_rotation-Under p k none at =
      move_to-Under k active at none λ x h v. active-Step env.library k at none h v
  end_rotation-Under p k (some s) at = retire_rotated-Under p k s at

  finish_rotation-Under :
      (p : KeyProvider O) (k : ManagedKey) (at : ℕ)
      → Under stored (some k) (finish_rotation env p k at)
  unfolding finish_rotation
  finish_rotation-Under p k at = Under-if _ _ _ (sync-Under k at) (end_rotation-Under p k _ at)

  sync_active-Under :
      (p : KeyProvider O) (k : ManagedKey) (at : ℕ) → Under stored (some k) (sync_active env p k at)
  unfolding sync_active fail_unbound
  sync_active-Under p k at = Under-bind _ _ (Under-elsewhere _) λ found.
      Under-if _ _ _ (Under-bind _ _ (Under-call_provider env _) λ _. fail-Under k at _)
        (sync-Under k at)

  reconcile_known-Under :
      (p : KeyProvider O) (k : ManagedKey) (m : ProviderKeyMetadata) (at : ℕ)
      → Under stored (some k) (reconcile_known env p k m at)
  unfolding reconcile_known
  reconcile_known-Under p k m at = Under-bind _ _ (Under-lift _) λ _.
      Under-branch (k.state == pending) _ _
        (λ e. activate-Under k m at (is_state k.state pending e))
        (λ _. Under-if _ _ _ (finish_rotation-Under p k at) (
          Under-if _ _ _
            (move_to-Under k suspended at none λ x h v. suspend-Step env.library k at none h v)
            (Under-if _ _ _ (sync_active-Under p k at) (sync-Under k at))))

  reconcile_found-Under :
      (p : KeyProvider O) (k : ManagedKey) (m : Option ProviderKeyMetadata) (at : ℕ)
      → Under stored (some k) (reconcile_found env p k m at)
  reconcile_found-Under p k none at = missing-Under k at
  reconcile_found-Under p k (some m) at = reconcile_known-Under p k m at

  fetch_metadata-Under :
      (p : KeyProvider O) (k : ManagedKey) {c : Option ManagedKey}
      → Under stored c (fetch_metadata env p k)
  unfolding fetch_metadata
  fetch_metadata-Under p k = search call_rules depth 20

  reconcile_claimed-Under :
      (k : ManagedKey) (at : ℕ) → Under stored (some k) (reconcile_claimed env k at)
  unfolding reconcile_claimed
  reconcile_claimed-Under k at = Under-bind _ _ (Under-find_provider env _) λ p.
      Under-if _ _ _ (destroy_due-Under p k at) (
        Under-branch (k.state == pending && is_none k.provider_key_reference) _ _
          (λ e. create_missing-Under p k at (is_state k.state pending (ground arith)))
          (λ _. Under-bind _ _ (fetch_metadata-Under p k) λ m. reconcile_found-Under p k m at))

  reconcile_noted-Under :
      (k : ManagedKey) (a r : String) (at : ℕ)
      → Under stored (some k) (reconcile_noted env k a r at)
  unfolding reconcile_noted
  reconcile_noted-Under k a r at =
      Under-bind _ _ (reconcile_claimed-Under k at)
        λ x. search (call_rules, Under-observe_inventory) depth 20

  note_failed-Under :
      (k : ManagedKey) (a r : String) (at : ℕ) (e : Failure)
      → Under stored (some k) (note_failed_reconciliation env k a r at e)
  unfolding note_failed_reconciliation
  note_failed-Under k a r at e = search (call_rules, fail-Under) depth 20

  pub reconcile-Under :
      (k : ManagedKey) (a r : String) {c : Option ManagedKey} → Under stored c (reconcile env k a r)
  unfolding reconcile
  reconcile-Under k a r = Under-bind _ _ (Under-now env) λ at.
      Under-bind-found _ _ (store.claim_reconciliation _ _ _ _) (store.leased _ _ _ _)
        (λ x.
          Under-bind _ _ (Under-audit env _ _ _ _ _ _ _)
            λ _. Under-on_error _ _ (reconcile_noted-Under x a r at) (note_failed-Under x a r at))
        (search (flow_rules, store.get))

  pub reconcile_authorized-Under :
      (w k a r : String) (b : Bool) {c : Option ManagedKey}
      → Under stored c (reconcile_authorized env w k a r b)
  unfolding reconcile_authorized
  reconcile_authorized-Under w k a r b =
      Under-bind-known _ _ _ (authorized_key-Yields env store w k a b) λ x. reconcile-Under x a r

  reconcile_candidate-Under :
      (k : ManagedKey) {c : Option ManagedKey} → Under stored c (reconcile_candidate env k)
  unfolding reconcile_candidate
  reconcile_candidate-Under k = search (flow_rules, reconcile-Under) depth 20

  reconcile_all-Under :
      (ks : List ManagedKey) (m n : ℕ) {c : Option ManagedKey}
      → Under stored c (reconcile_all env ks m n)
  unfolding reconcile_all
  reconcile_all-Under [] m n = Under-pure _
  reconcile_all-Under (k ∷ ks) m n =
      Under-bind _ _ (reconcile_candidate-Under k) λ done. reconcile_all-Under ks _ _

  pub reconcile_batch-Under :
      (stale size : ℕ) {c : Option ManagedKey} → Under stored c (reconcile_batch env stale size)
  unfolding reconcile_batch
  reconcile_batch-Under stale size = Under-bind _ _ (Under-now env) λ at.
      Under-bind _ _ (Under-on_keys _ (store.candidates _ _ _))
        λ ks. Under-bind _ _ (Under-observe env _) λ _. reconcile_all-Under ks 0 0
