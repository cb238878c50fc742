-- ===== src/Identity/Keys/MongoGuarantee/Lookups.antt =====
-- The lookups of `MongoManagedKeyRepository`, and its updates in place
-- (services/identity-service/app/infrastructure/persistence/managed_key_repository.py).
use secure_ssi_platform.Prelude.{
  ℕ, ◌≡◌, inl, inr, String, Bool, true, Option, none, some, sym, ap, ◌∙◌, none-ne-some,
}
use secure_ssi_platform.Prelude.Equality.{text_equality, nat_equality}
use secure_ssi_platform.Prelude.Effects
use secure_ssi_platform.Prelude.Effects.{Result, ok, err}
use secure_ssi_platform.Prelude.Returns.{ok-injective, err-ne-ok, then_result-eq_ok, reported-eq_ok}
use secure_ssi_platform.Identity.Failures.{lift, ◌>>=◌}
use secure_ssi_platform.Identity.Library.{Library}
use secure_ssi_platform.Identity.Keys.States.{key_state_equality}
use secure_ssi_platform.Identity.Keys.Record.{ManagedKey, check_key}
use secure_ssi_platform.Identity.Keys.Mongo.{
  Collection, MongoError, SortField, found_document, is_at_version, may_rotate, may_link,
  may_reconcile, set_rotating, set_successor, set_lease, from_document, find_one, find_many,
  read_back, add, get, update, claim_rotation, link_successor, claim_reconciliation,
  list_for_wallet, list_versions, list_reconciliation_candidates, count_by_state,
  count_active_by_provider_purpose, mongo_repository,
}
use secure_ssi_platform.Identity.Keys.Mongo
use secure_ssi_platform.Identity.Keys.History.{Step}
use secure_ssi_platform.Identity.Keys.History.Checked.{check_key-Gives}
use secure_ssi_platform.Identity.Keys.Guarantee.Invariant.{
  Evolves, Evolves-trans, Known, Known-stored, Keeps, Finds, Gets,
}
use secure_ssi_platform.Identity.Keys.Guarantee.Collection.{Reads, IsCollection}
use secure_ssi_platform.Identity.Keys.MongoGuarantee.Calls.{
  Same-Evolves, Changed-Evolves, Keeps-lift, Keeps-or_raise, Keeps-report, Keeps-raise_if,
  Keeps-bind, Ends-bind, Gets-found,
}

module _ {S : Type 0} {stored : S → String → Option ManagedKey} {Others : S → S → Type 0}
    (lib : Library) (c : Collection S) (law : IsCollection stored Others c)
    (fair : (s t : S) → Others s t → Evolves stored s t) where
  pub Reads-Evolves : {s t : S} → Reads stored Others s t → Evolves stored s t
  Reads-Evolves (u, o, same) = Evolves-trans (fair _ u o) (Same-Evolves same)

  pub find_one-Keeps : (test : ManagedKey → Bool) → Keeps stored (find_one lib c test)
  unfolding find_one
  find_one-Keeps test =
      Keeps-bind _ _ (Keeps-report _ _ (λ s. Reads-Evolves (law.find_one test s)))
        (λ a. Keeps-lift _)

  pub find_many-Keeps :
      (test : ManagedKey → Bool) (f : SortField) (n : ℕ) → Keeps stored (find_many lib c test f n)
  unfolding find_many
  find_many-Keeps test f n =
      Keeps-bind _ _ (Keeps-report _ _ (λ s. Reads-Evolves (law.find_sorted test f n s)))
        (λ a. Keeps-lift _)

  -- A document that is mapped is the key.
  pub found_document-eq :
      (o : Option ManagedKey) (k : ManagedKey) → found_document lib c o ≡ ok (some k) → o ≡ some k
  unfolding from_document
  found_document-eq none k h = absurd (none-ne-some (ok-injective h))
  found_document-eq (some d) k h =
      let (x, mapped, e) = then_result-eq_ok (from_document lib c d) _ h in
      let same = (check_key-Gives lib d).value x (reported-eq_ok _ (check_key lib d) mapped) in
      ap some (sym same) ∙ ok-injective e

  pub find_one-Finds : (test : ManagedKey → Bool) → Finds stored (find_one lib c test)
  unfolding find_one ◌>>=◌ lift Effects.report
  find_one-Finds test s k h =
      mapped (c.find_one test s).0 (c.find_one test s).1 (λ d e. (law.found test s d e).0) h
    where
      mapped :
          (r : Result MongoError (Option ManagedKey)) (t : S)
          → ((d : ManagedKey) → r ≡ ok (some d) → stored t d.key_id ≡ some d)
          → ((lift (Effects.reported Mongo.unavailable r) >>= λ o. lift (found_document lib c o))
              t).0
            ≡ ok (some k)
          → Known stored k
              ((lift (Effects.reported Mongo.unavailable r) >>= λ o. lift (found_document lib c o))
                t).1
      mapped (ok o) t known e = Known-stored stored k (known k (ap ok (found_document-eq o k e)))
      mapped (err x) t known e = absurd (err-ne-ok e)

  -- The documents that an update in place may have written.
  pub update_one-Evolves :
      (test : ManagedKey → Bool) (change : ManagedKey → ManagedKey)
      → ((d : ManagedKey) → (change d).key_id ≡ d.key_id)
      → ((d : ManagedKey) → test d ≡ true → Step d (change d))
      → (s : S) → Evolves stored s (c.update_one test change s).1
  update_one-Evolves test change same step s = elim (law.update_one test change s same) [
    | inl r ↦ Reads-Evolves r
    | inr (u, o, x) ↦ Evolves-trans (fair s u o) (Changed-Evolves x (step x.old x.passed))
  ]

  pub read_back-Keeps : (id : String) (n : ℕ) → Keeps stored (read_back lib c id n)
  unfolding get
  read_back-Keeps id n =
      Keeps-bind _ _ (Keeps-raise_if _ _)
        λ _. Keeps-bind _ _ (find_one-Keeps _) λ o. Keeps-or_raise o _

  pub read_back-Gets : (id : String) (n : ℕ) → Gets stored (read_back lib c id n)
  unfolding get
  read_back-Gets id n = Ends-bind _ _ (Known stored) λ _. Gets-found stored _ _ (find_one-Finds _)
