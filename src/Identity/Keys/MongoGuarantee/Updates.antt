-- ===== src/Identity/Keys/MongoGuarantee/Updates.antt =====
-- The replacement of a key by its version in `MongoManagedKeyRepository`
-- (services/identity-service/app/infrastructure/persistence/managed_key_repository.py).
use mathlib.Core.Path.{subst}
use secure_ssi_platform.Prelude.{
  ℕ, ◌+◌, ◌≡◌, inl, inr, String, Bool, true, not, Option, some, sym, ap, ◌∙◌, arith, some-eq,
  Bool-cases,
}
use secure_ssi_platform.Prelude.Equality.{◌==◌, text_equality, nat_equality}
use secure_ssi_platform.Prelude.Effects
use secure_ssi_platform.Prelude.Effects.{Result, ok, err}
use secure_ssi_platform.Prelude.Returns.{ok-injective, err-ne-ok}
use secure_ssi_platform.Identity.Failures.{Exec, pure, lift, raise_if, ◌>>=◌, ◌>>◌, optimistic_lock}
use secure_ssi_platform.Identity.Library.{Library}
use secure_ssi_platform.Identity.Keys.States.{key_state_equality}
use secure_ssi_platform.Identity.Keys.Record.{ManagedKey}
use secure_ssi_platform.Identity.Keys.Mongo.{
  Collection, MongoError, SortField, found_document, is_at_version, may_rotate, may_link,
  may_reconcile, set_rotating, set_successor, set_lease, from_document, find_one, find_many,
  read_back, add, get, update, claim_rotation, link_successor, claim_reconciliation,
  list_for_wallet, list_versions, list_reconciliation_candidates, count_by_state,
  count_active_by_provider_purpose, mongo_repository,
}
use secure_ssi_platform.Identity.Keys.Mongo
use secure_ssi_platform.Identity.Keys.History.{Step}
use secure_ssi_platform.Identity.Keys.History.Reach.{key-eq_version}
use secure_ssi_platform.Identity.Keys.Guarantee.Invariant.{
  Evolves, Evolves-refl, Evolves-trans, Known, Known-Evolves, Known-stored, Gets,
}
use secure_ssi_platform.Identity.Keys.Guarantee.Collection.{IsCollection}
use secure_ssi_platform.Identity.Keys.MongoGuarantee.Calls.{
  Changed-Evolves, Keeps-pure, report-Evolves, Keeps-raise_if, Evolves-bind, Keeps-bind,
}
use secure_ssi_platform.Identity.Keys.MongoGuarantee.Lookups.{Reads-Evolves}

module _ {S : Type 0} {stored : S → String → Option ManagedKey} {Others : S → S → Type 0}
    (lib : Library) (c : Collection S) (law : IsCollection stored Others c)
    (fair : (s t : S) → Others s t → Evolves stored s t) where
  -- A replacement by its version: the key that is replaced is the one that was read.
  pub replaced-Step :
      (k x : ManagedKey) (s u : S)
      → Known stored k s
      → Others s u
      → Step k x
      → (d : ManagedKey) → stored u d.key_id ≡ some d
      → is_at_version x.key_id k.version d ≡ true
      → Step d x
  unfolding Known
  replaced-Step k x s u known o step d found test =
      let (q, h, steps) = Known-Evolves k known (fair s u o) in
      let (same_id, same_version) = both test in
      let e : q ≡ d = some-eq (sym h ∙ ap (stored u) (sym (same_id ∙ step.kept.key_id)) ∙ found) in
      subst (λ z. Step z x)
        (sym (key-eq_version steps (ap (λ (z : ManagedKey). z.version) e ∙ same_version)) ∙ e) step
    where
      both :
          is_at_version x.key_id k.version d ≡ true
          → (d.key_id ≡ x.key_id) × (d.version ≡ k.version)
      both t = ground (arith, text_equality.beq_iff d.key_id x.key_id)

  pub version_test :
      (x d : ManagedKey) (v : ℕ) → is_at_version x.key_id v d ≡ true → x.key_id ≡ d.key_id
  version_test x d v t = ground (arith, text_equality.beq_iff d.key_id x.key_id)

  pub update-Evolves :
      (k x : ManagedKey) (s : S)
      → Known stored k s
      → (x.version ≡ k.version + 1 → Step k x)
      → Evolves stored s (update lib c x k.version s).1
  unfolding update raise_if ◌>>=◌
  update-Evolves k x s known step = elim (Bool-cases (x.version == k.version + 1)) [
    | inr wrong ↦ rw wrong (Evolves-refl s)
    | inl right ↦ rw right (
        Evolves-bind
          (Effects.report Mongo.conflict_or_unavailable
            (c.replace_one (is_at_version x.key_id k.version) x))
          (λ matched. raise_if (not (matched == 1)) optimistic_lock >> pure x) s
          (report-Evolves _ _ s
            (written (step ((nat_equality.beq_iff x.version (k.version + 1)).0 right))))
          (λ matched.
            Keeps-bind (raise_if (not (matched == 1)) optimistic_lock) _
              (Keeps-raise_if (not (matched == 1)) optimistic_lock) (λ _. Keeps-pure x)))
  ]
    where
      test : ManagedKey → Bool
      test = is_at_version x.key_id k.version

      written : Step k x → Evolves stored s (c.replace_one test x s).1
      written st = elim (law.replace_one test x s (λ d. version_test x d k.version)) [
        | inl r ↦ Reads-Evolves lib c law fair r
        | inr (u, o, ch) ↦
            Evolves-trans (fair s u o)
              (Changed-Evolves ch (replaced-Step k x s u known o st ch.old ch.found ch.passed))
      ]

  -- An update that returns has replaced the document.
  pub replaced-Known :
      (x : ManagedKey) (v : ℕ) (s : S)
      → (c.replace_one (is_at_version x.key_id v) x s).0 ≡ ok 1
      → Known stored x (c.replace_one (is_at_version x.key_id v) x s).1
  replaced-Known x v s e =
      let (u, o, ch) = law.replaced (is_at_version x.key_id v) x s (λ d. version_test x d v) e in
      Known-stored stored x (
        ap (stored (c.replace_one (is_at_version x.key_id v) x s).1)
          (version_test x ch.old v ch.passed)
        ∙ ch.new)

  pub update-Gets : (x : ManagedKey) (v : ℕ) → Gets stored (update lib c x v)
  unfolding update ◌>>=◌ lift Effects.report raise_if pure
  update-Gets x v s y h = elim (Bool-cases (x.version == v + 1)) [
    | inr wrong ↦ absurd (err-ne-ok (rw wrong at h))
    | inl right ↦ rw right (
        given (c.replace_one (is_at_version x.key_id v) x s).0
          (c.replace_one (is_at_version x.key_id v) x s).1 (replaced-Known x v s) (rw right at h))
  ]
    where
      rest : ℕ → Exec S ManagedKey
      rest matched = raise_if (not (matched == 1)) optimistic_lock >> pure x

      given :
          (r : Result MongoError ℕ) (t : S)
          → (r ≡ ok 1 → Known stored x t)
          → ((lift (Effects.reported Mongo.conflict_or_unavailable r) >>= rest) t).0 ≡ ok y
          → Known stored y ((lift (Effects.reported Mongo.conflict_or_unavailable r) >>= rest) t).1
      given (err z) t known e = absurd (err-ne-ok e)
      given (ok n) t known e = elim (Bool-cases (n == 1)) [
        | inr other ↦ absurd (err-ne-ok (rw other at e))
        | inl one ↦ rw one (
            subst (λ z. Known stored z t) (ok-injective (rw one at e))
              (known (ap ok ((nat_equality.beq_iff n 1).0 one))))
      ]
