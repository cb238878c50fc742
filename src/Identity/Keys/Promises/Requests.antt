-- ===== src/Identity/Keys/Promises/Requests.antt =====
-- How `ManagedKeyService` answers a request that is made again, out of order, or in a batch
-- (services/identity-service/app/application/services/managed_key_service.py).
use secure_ssi_platform.Prelude.{
  ℕ, ◌+◌, ◌-◌, ◌≡◌, ◌≢◌, String, Bool, true, false, Option, some, List, [], ◌∷◌, refl, arith,
  length, sym, ap, ltb, strip, text_length, Bool-cases, inl, inr, if◌then◌else◌,
}
use secure_ssi_platform.Prelude.Equality.{◌==◌, contains, text_equality}
use secure_ssi_platform.Prelude.Returns.{bind-ok, ok-injective}
use secure_ssi_platform.Identity.Failures.{ok, err, pure, raise_if, lift, ◌>>=◌, invalid_transition}
use secure_ssi_platform.Identity.Library.{Library}
use secure_ssi_platform.Identity.Keys.States.{
  ManagedKeyState, destroy_pending, revoked, key_state_equality, valid_key_transitions,
}
use secure_ssi_platform.Identity.Keys.Record.{ManagedKey, transition}
use secure_ssi_platform.Identity.Keys.Environment.{
  Environment, World, KeyProvider, on_keys, observe, now, find_provider, call_provider,
}
use secure_ssi_platform.Identity.Keys.Service.Access.{authorized_key}
use secure_ssi_platform.Identity.Keys.Service.Lifecycle.{schedule_destruction, with_reference}
use secure_ssi_platform.Identity.Keys.Service.Reconciliation.{
  reconcile_candidate, reconcile_all, reconcile_batch,
}

-- Only a revoked key may be scheduled for destruction.
refused_schedule :
    (lib : Library) (k : ManagedKey) (at : ℕ) (reason : Option String) (schedule : Option ℕ)
    → k.state ≢ revoked
    → k.state ≢ destroy_pending
    → transition lib k destroy_pending at reason schedule ≡ err invalid_transition
unfolding transition
refused_schedule lib k at reason schedule live unscheduled =
    rw (elsewhere_now k.state unscheduled, unlisted k.state live unscheduled) refl
  where
    elsewhere_now : (s : ManagedKeyState) → s ≢ destroy_pending → (destroy_pending == s) ≡ false
    elsewhere_now s n = elim (Bool-cases (destroy_pending == s)) [
      | inl e ↦ absurd (n (sym ((key_state_equality.beq_iff destroy_pending s).0 e)))
      | inr e ↦ e
    ]

    unlisted :
        (s : ManagedKeyState)
        → s ≢ revoked
        → s ≢ destroy_pending
        → contains destroy_pending (valid_key_transitions s) ≡ false
    unlisted revoked n m = absurd (n refl)
    unlisted destroy_pending n m = refl
    unlisted s n m = ground arith

one_more :
    (done : Bool) (m n : ℕ) → (if done then m + 1 else m) + (if done then n else n + 1) ≡ m + n + 1
one_more true m n = omega arith
one_more false m n = omega arith

module _ {S O : Type 0} (env : Environment S O) where
  -- The destruction of a key that is neither revoked nor pending destruction is refused only after
  -- its provider has been told to delete it: the call ends in the state in which the provider's
  -- `schedule_deletion` left it.
  pub schedule-refused :
      (wallet_id key_id actor_id reason correlation_id : String) (administrative : Bool)
      (k : ManagedKey) (provider : KeyProvider O) (at : ℕ) (w w1 w2 w3 w4 : World S O)
      → ltb (text_length (strip reason)) 8 ≡ false
      → authorized_key env wallet_id key_id actor_id administrative w ≡ (ok k, w1)
      → now env w1 ≡ (ok at, w2)
      → find_provider env k.provider w2 ≡ (ok provider, w3)
      → call_provider env
          (with_reference k (λ r. provider.schedule_deletion r (env.policy.destruction_time at)))
          w3
        ≡ (ok tt, w4)
      → k.state ≢ revoked
      → k.state ≢ destroy_pending
      → schedule_destruction env wallet_id key_id actor_id reason key_id correlation_id
          administrative w
        ≡ (err invalid_transition, w4)
  unfolding schedule_destruction ◌>>=◌ raise_if lift
  schedule-refused wallet_id key_id actor_id reason r b k provider at w w1 w2 w3 w4 long owned clock
        configured told live unscheduled =
      rw
        (
          (text_equality.beq_iff key_id key_id).1 refl,
          long,
          owned,
          clock,
          configured,
          told,
          refused_schedule env.library k at (some reason) (some (env.policy.destruction_time at))
              live unscheduled,
        )
        refl

  -- Each candidate is counted once, as reconciled or as failed.
  reconcile_all-count :
      (ks : List ManagedKey) (m n : ℕ) (w : World S O) {p : ℕ × ℕ}
      → (reconcile_all env ks m n w).0 ≡ ok p
      → p.0 + p.1 ≡ m + n + length ks
  unfolding reconcile_all pure
  reconcile_all-count [] m n w h =
      omega
        (arith, ap (λ (q : ℕ × ℕ). q.0) (ok-injective h), ap (λ (q : ℕ × ℕ). q.1) (ok-injective h))
  reconcile_all-count (k ∷ ks) m n w h =
      let (done, _, rest) = bind-ok (reconcile_candidate env k) _ w h in
      omega (arith, reconcile_all-count ks _ _ _ rest, one_more done m n)

  -- A batch that returns has gone through all the candidates that the repository listed, and counted
  -- each once, as reconciled or as failed.
  pub reconcile_batch-count :
      (stale_seconds batch_size : ℕ) (w : World S O) {p : ℕ × ℕ}
      → (reconcile_batch env stale_seconds batch_size w).0 ≡ ok p
      → (at : ℕ) × (t : World S O) × (ks : List ManagedKey) × ((on_keys
            (env.keys.list_reconciliation_candidates (at - stale_seconds) at batch_size)
            t).0
          ≡ ok ks)
        × (p.0 + p.1 ≡ length ks)
  unfolding reconcile_batch
  reconcile_batch-count stale size w h =
      let (at, _, h1) = bind-ok (now env) _ w h in
      let (ks, listed, h2) =
        bind-ok (on_keys (env.keys.list_reconciliation_candidates (at - stale) at size)) _ _ h1 in
      let (_, _, h3) = bind-ok (observe env _) _ _ h2 in
      (at, _, ks, listed, omega (arith, reconcile_all-count ks 0 0 _ h3))
