-- ===== src/Identity/Keys/History/Moves.antt =====
-- What `ManagedKey.transition` and the other writes build when they do not raise, as steps of a key
-- (services/identity-service/app/domain/managed_key.py).
use mathlib.Core.Path.{subst}
use secure_ssi_platform.Prelude.{
  ℕ, ◌+◌, ◌≤◌, ◌≡◌, inl, inr, String, true, Option, none, some, refl, arith, leb, ltb, strip,
  text_length, or_else,
}
use secure_ssi_platform.Prelude.Equality.{contains}
use secure_ssi_platform.Prelude.Returns.{ok-injective, fail_if-eq_ok}
use secure_ssi_platform.Identity.Failures.{ok}
use secure_ssi_platform.Identity.Library.{Library}
use secure_ssi_platform.Identity.Keys.States.{
  ManagedKeyState, valid_key_transitions, key_state_equality, pending, active, rotating, suspended,
  compromised, revoked, destroy_pending, destroyed, failed,
}
use secure_ssi_platform.Identity.Keys.Record.{ManagedKey, changes, transition}
use secure_ssi_platform.Identity.Keys.Metadata.{ProviderKeyMetadata}
use secure_ssi_platform.Identity.Keys.Mongo.{set_rotating, set_successor, set_lease}
use secure_ssi_platform.Identity.Keys.Service.Access.{hydrated, with_provider_metadata}
use secure_ssi_platform.Identity.Keys.Service.Reconciliation.{is_due, synced}
use secure_ssi_platform.Identity.Keys.History.{Event, Step}
use secure_ssi_platform.Identity.Keys.History.Checked.{
  check_key-Gives, transition-changes, from_suspend, from_active, activated-Step,
}

module _ (lib : Library) (k : ManagedKey) (at : ℕ) (reason : Option String) {x : ManagedKey} where
  pub suspend-Step :
      transition lib k suspended at reason none ≡ ok x → x.version ≡ k.version + 1 → Step k x
  unfolding changes
  suspend-Step h v =
      let (listed, made, _) = transition-changes lib k suspended at reason none h v in
      subst (Step k) (ok-injective made) (record {
        event = Event.suspend;
        kept = ground arith;
        effect = (from_suspend k.state listed, refl, ground arith, refl);
      })

  pub active-Step :
      transition lib k active at reason none ≡ ok x → x.version ≡ k.version + 1 → Step k x
  unfolding changes
  active-Step h v =
      let (listed, made, _) = transition-changes lib k active at reason none h v in
      elim (from_active k.state listed) [
        | inl p ↦ activated-Step lib k k at reason (ground arith) refl p p h v
        | inr r ↦ subst (Step k) (ok-injective made) (record {
          event = Event.restore;
          kept = ground arith;
          effect = (r, refl, ground arith, refl);
        })
      ]

  pub compromise-Step :
      transition lib k compromised at reason none ≡ ok x → x.version ≡ k.version + 1 → Step k x
  unfolding changes
  compromise-Step h v =
      let (listed, made, _) = transition-changes lib k compromised at reason none h v in
      subst (Step k)
        (ok-injective (fail_if-eq_ok (ltb (text_length (strip (or_else reason ""))) 8) _ _ made).1)
        (record {
          event = Event.compromise;
          kept = ground arith;
          effect = (listed, refl, ground arith, (_, refl), refl);
        })

  pub revoke-Step :
      transition lib k revoked at reason none ≡ ok x → x.version ≡ k.version + 1 → Step k x
  unfolding changes
  revoke-Step h v =
      let (listed, made, _) = transition-changes lib k revoked at reason none h v in
      subst (Step k) (ok-injective made) (record {
        event = Event.revoke;
        kept = ground arith;
        effect = (listed, refl, ground arith, refl, refl);
      })

  pub give_up-Step :
      transition lib k failed at reason none ≡ ok x → x.version ≡ k.version + 1 → Step k x
  unfolding changes
  give_up-Step h v =
      let (listed, made, _) = transition-changes lib k failed at reason none h v in
      subst (Step k) (ok-injective made) (record {
        event = Event.give_up;
        kept = ground arith;
        effect = (listed, refl, ground arith, (_, refl), refl);
      })

  -- A destruction is scheduled for a later time.
  pub schedule-Step :
      (t : ℕ)
      → transition lib k destroy_pending at reason (some t) ≡ ok x
      → x.version ≡ k.version + 1
      → Step k x
  unfolding changes
  schedule-Step t h v =
      let (listed, made, _) = transition-changes lib k destroy_pending at reason (some t) h v in
      let (later, built) = fail_if-eq_ok (leb t at) _ _ made in
      subst (Step k) (ok-injective built) (record {
        event = Event.schedule;
        kept = ground arith;
        effect = (
          from_schedule k.state listed,
          refl,
          ground arith,
          (at, t, refl, refl, ground arith),
          refl,
        );
      })
    where
      from_schedule :
          (s : ManagedKeyState)
          → contains destroy_pending (valid_key_transitions s) ≡ true
          → s ≡ revoked
      from_schedule revoked l = refl
      from_schedule s l = ground arith

  -- A key is destroyed when its time has come.
  pub destroy-Step :
      is_due k.destruction_scheduled_at at ≡ true
      → transition lib k destroyed at reason none ≡ ok x
      → x.version ≡ k.version + 1
      → Step k x
  unfolding changes
  destroy-Step d h v =
      let (listed, made, _) = transition-changes lib k destroyed at reason none h v in
      let (t, e, l) = due_time k.destruction_scheduled_at d in
      subst (Step k) (ok-injective made) (record {
        event = Event.destroy;
        kept = ground arith;
        effect = (from_destroy k.state listed, refl, ground arith, (t, at, e, e, refl, l), refl);
      })
    where
      from_destroy :
          (s : ManagedKeyState)
          → contains destroyed (valid_key_transitions s) ≡ true
          → s ≡ destroy_pending
      from_destroy destroy_pending l = refl
      from_destroy s l = ground arith

      due_time : (o : Option ℕ) → is_due o at ≡ true → (t : ℕ) × (o ≡ some t) × (t ≤ at)
      due_time none d' = absurd (ground arith)
      due_time (some t) d' = (t, refl, ground arith)

-- The provider's metadata on a pending key, and its activation, are one step.
pub hydrate-Step :
    (lib : Library) (k : ManagedKey) (m : ProviderKeyMetadata) (at : ℕ) {y x : ManagedKey}
    → k.state ≡ pending
    → with_provider_metadata lib k m at ≡ ok y
    → transition lib y active at none none ≡ ok x
    → x.version ≡ k.version + 1
    → Step k x
unfolding with_provider_metadata
hydrate-Step lib k m at {y = y} {x = x} p h t v =
    let e : y ≡ hydrated k m at = (check_key-Gives lib (hydrated k m at)).value y h in
    activated-Step lib k (hydrated k m at) at none (ground arith) refl p p
      (subst (λ z. transition lib z active at none none ≡ ok x) e t) v

-- A sync, and the writes that change a document in place.
pub sync-Step : (k : ManagedKey) (at : ℕ) → Step k (synced k at)
sync-Step k at = record {
  event = Event.touch;
  kept = ground arith;
  effect = (refl, ground arith, ground arith, refl);
}

pub lease-Step : (k : ManagedKey) (until at : ℕ) → Step k (set_lease until at k)
lease-Step k until at = record {
  event = Event.touch;
  kept = ground arith;
  effect = (refl, ground arith, ground arith, refl);
}

pub claim-Step : (k : ManagedKey) (at : ℕ) → k.state ≡ active → Step k (set_rotating at k)
claim-Step k at p = record {
  event = Event.claim;
  kept = ground arith;
  effect = (p, refl, ground arith, refl, refl);
}

pub link-Step :
    (k : ManagedKey) (s : String) (at : ℕ)
    → k.state ≡ rotating
    → k.successor_key_id ≡ none
    → Step k (set_successor s at k)
link-Step k s at p n = record {
  event = Event.link;
  kept = ground arith;
  effect = (p, p, ground arith, n, (s, refl));
}
