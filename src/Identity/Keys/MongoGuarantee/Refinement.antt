-- ===== src/Identity/Keys/MongoGuarantee/Refinement.antt =====
-- `MongoManagedKeyRepository`
-- (services/identity-service/app/infrastructure/persistence/managed_key_repository.py) is a store
-- whose writes are steps of the keys, over any collection that keeps MongoDB's promises.
use mathlib.Core.Path.{subst}
use secure_ssi_platform.Prelude.{
  ℕ, ◌≡◌, inl, inr, String, Bool, true, false, not, Option, none, some, refl, sym, ap, ◌∙◌, arith,
  none-ne-some, Bool-cases, if◌then◌else◌,
}
use secure_ssi_platform.Prelude.Equality.{◌==◌, text_equality, nat_equality}
use secure_ssi_platform.Prelude.Effects
use secure_ssi_platform.Prelude.Effects.{Result, ok, err}
use secure_ssi_platform.Prelude.Returns.{ok-injective, err-ne-ok}
use secure_ssi_platform.Identity.Failures.{Exec, pure, lift, raise_if, ◌>>=◌}
use secure_ssi_platform.Identity.Library.{Library}
use secure_ssi_platform.Identity.Keys.States.{active, rotating, key_state_equality}
use secure_ssi_platform.Identity.Keys.Record.{ManagedKey}
use secure_ssi_platform.Identity.Keys.Mongo.{
  Collection, MongoError, SortField, found_document, is_at_version, may_rotate, may_link,
  may_reconcile, set_rotating, set_successor, set_lease, from_document, find_one, find_many,
  read_back, add, get, update, claim_rotation, link_successor, claim_reconciliation,
  list_for_wallet, list_versions, list_reconciliation_candidates, count_by_state,
  count_active_by_provider_purpose, mongo_repository,
}
use secure_ssi_platform.Identity.Keys.Mongo
use secure_ssi_platform.Identity.Keys.History.Moves.{claim-Step, link-Step, lease-Step}
use secure_ssi_platform.Identity.Keys.Guarantee.Invariant.{
  Evolves, Evolves-trans, Known, Known-stored, Keeps, Finds, Gets, IsStore,
}
use secure_ssi_platform.Identity.Keys.Guarantee.Collection.{IsCollection}
use secure_ssi_platform.Identity.Keys.MongoGuarantee.Calls.{
  Added-Evolves, Keeps-pure, Keeps-if, Keeps-report, Keeps-raise_if, Keeps-bind, Ends-bind,
}
use secure_ssi_platform.Identity.Keys.MongoGuarantee.Lookups.{
  Reads-Evolves, find_one-Keeps, find_many-Keeps, find_one-Finds, update_one-Evolves,
  read_back-Keeps, read_back-Gets,
}
use secure_ssi_platform.Identity.Keys.MongoGuarantee.Updates.{update-Evolves, update-Gets}

module _ {S : Type 0} {stored : S → String → Option ManagedKey} {Others : S → S → Type 0}
    (lib : Library) (c : Collection S) (law : IsCollection stored Others c)
    (fair : (s t : S) → Others s t → Evolves stored s t) where
  add-Keeps : (k : ManagedKey) → Keeps stored (add lib c k)
  unfolding add
  add-Keeps k =
      Keeps-bind _ _ (Keeps-raise_if _ _)
        λ _. Keeps-bind _ _ (Keeps-report _ _ inserted) λ _. Keeps-pure k
    where
      inserted : (s : S) → Evolves stored s (c.insert_one k s).1
      inserted s = elim (law.insert_one k s) [
        | inl r ↦ Reads-Evolves lib c law fair r
        | inr (u, o, a) ↦ Evolves-trans (fair s u o) (Added-Evolves k a)
      ]

  add-Gets :
      (k : ManagedKey) (s : S) (x : ManagedKey)
      → (add lib c k s).0 ≡ ok x
      → (x ≡ k) × Known stored x (add lib c k s).1
  unfolding add ◌>>=◌ lift Effects.report raise_if pure
  add-Gets k s x h = elim (Bool-cases (k.version == 1)) [
    | inr wrong ↦ absurd (err-ne-ok (rw wrong at h))
    | inl right ↦ rw right (
        given (c.insert_one k s).0 (c.insert_one k s).1
          (λ e. let (u, o, a) = law.inserted k s e in Known-stored stored k a.new) (rw right at h))
  ]
    where
      rest : Unit {0} → Exec S ManagedKey
      rest _ = pure k

      given :
          (r : Result MongoError (Unit {0})) (t : S)
          → (r ≡ ok tt → Known stored k t)
          → ((lift (Effects.reported Mongo.conflict_or_unavailable r) >>= rest) t).0 ≡ ok x
          → (x ≡ k)
            × Known stored x
                ((lift (Effects.reported Mongo.conflict_or_unavailable r) >>= rest) t).1
      given (ok u) t known e =
          (sym (ok-injective e), subst (λ z. Known stored z t) (ok-injective e) (known refl))
      given (err z) t known e = absurd (err-ne-ok e)

  claim_rotation-Keeps : (id : String) (at v : ℕ) → Keeps stored (claim_rotation lib c id at v)
  unfolding claim_rotation
  claim_rotation-Keeps id at v =
      Keeps-bind _ _
        (Keeps-report _ _ (
          update_one-Evolves lib c law fair (may_rotate id v) (set_rotating at) (λ d. refl)
            (λ d t. claim-Step d at (is_active d t))))
        (λ n. read_back-Keeps lib c law fair id n)
    where
      is_active : (d : ManagedKey) → may_rotate id v d ≡ true → d.state ≡ active
      is_active d t = ground (arith, key_state_equality.beq_iff d.state active)

  claimed-Gets : (id : String) (at v : ℕ) → Gets stored (claim_rotation lib c id at v)
  unfolding claim_rotation
  claimed-Gets id at v = Ends-bind _ _ (Known stored) (λ n. read_back-Gets lib c law fair id n)

  linked-Gets : (id s : String) (at v : ℕ) → Gets stored (link_successor lib c id s at v)
  unfolding link_successor
  linked-Gets id s at v = Ends-bind _ _ (Known stored) (λ n. read_back-Gets lib c law fair id n)

  link_successor-Keeps : (id s : String) (at v : ℕ) → Keeps stored (link_successor lib c id s at v)
  unfolding link_successor
  link_successor-Keeps id s at v =
      Keeps-bind _ _
        (Keeps-report _ _ (
          update_one-Evolves lib c law fair (may_link id v) (set_successor s at) (λ d. refl)
            (λ d t. link-Step d s at (is_rotating d t) (has_none d t))))
        (λ n. read_back-Keeps lib c law fair id n)
    where
      is_rotating : (d : ManagedKey) → may_link id v d ≡ true → d.state ≡ rotating
      is_rotating d t = ground (arith, key_state_equality.beq_iff d.state rotating)

      has_none : (d : ManagedKey) → may_link id v d ≡ true → d.successor_key_id ≡ none
      has_none d t = ground arith

  lease-Keeps :
      (id : String) (at until v : ℕ) → Keeps stored (claim_reconciliation lib c id at until v)
  unfolding claim_reconciliation get
  lease-Keeps id at until v =
      Keeps-bind _ _
        (Keeps-report _ _ (
          update_one-Evolves lib c law fair (may_reconcile id at v) (set_lease until at) (λ d. refl)
            (λ d t. lease-Step d until at)))
        (λ n. Keeps-if _ _ _ (Keeps-pure none) (find_one-Keeps lib c law fair _))

  lease-Finds :
      (id : String) (at until v : ℕ) → Finds stored (claim_reconciliation lib c id at until v)
  unfolding claim_reconciliation get pure
  lease-Finds id at until v s k h =
      Ends-bind _ _ (λ o t. o ≡ some k → Known stored k t) (λ n. or_find (not (n == 1))) s (some k)
        h refl
    where
      here_or : Bool → Exec S (Option ManagedKey)
      here_or b = if b then pure none else find_one lib c (λ d. d.key_id == id)

      or_find :
          (b : Bool) (t : S) (o : Option ManagedKey)
          → (here_or b t).0 ≡ ok o
          → o ≡ some k
          → Known stored k (here_or b t).1
      or_find true t o e p = absurd (none-ne-some (ok-injective e ∙ p))
      or_find false t o e p = find_one-Finds lib c law fair _ t k (e ∙ ap ok p)

  -- The repository is a store of steps, whatever the other clients do in between, if they make only
  -- steps too.
  pub mongo-IsStore : IsStore stored (mongo_repository lib c)
  unfolding mongo_repository get list_for_wallet list_versions list_reconciliation_candidates
      count_by_state count_active_by_provider_purpose
  mongo-IsStore = record {
    add = add-Keeps;
    added = λ k s x h. (add-Gets k s x h).1;
    add_same = λ k s x h. (add-Gets k s x h).0;
    get = λ id. find_one-Keeps lib c law fair _;
    got = λ id. find_one-Finds lib c law fair _;
    by_reference = λ p r. find_one-Keeps lib c law fair _;
    found_by_reference = λ p r. find_one-Finds lib c law fair _;
    by_method = λ m. find_one-Keeps lib c law fair _;
    by_hash = λ w p d. find_one-Keeps lib c law fair _;
    found_by_hash = λ w p d. find_one-Finds lib c law fair _;
    active = λ w p. find_one-Keeps lib c law fair _;
    found_active = λ w p. find_one-Finds lib c law fair _;
    for_wallet =
        λ w n a. Keeps-bind _ _ (Keeps-raise_if _ _) (λ _. find_many-Keeps lib c law fair _ _ _);
    versions = λ w p. find_many-Keeps lib c law fair _ _ _;
    update = update-Evolves lib c law fair;
    updated = update-Gets lib c law fair;
    claim_rotation = claim_rotation-Keeps;
    claimed = λ id at v. claimed-Gets id at v;
    link_successor = link_successor-Keeps;
    linked = λ id s at v. linked-Gets id s at v;
    claim_reconciliation = lease-Keeps;
    leased = lease-Finds;
    candidates =
        λ a b n. Keeps-bind _ _ (Keeps-raise_if _ _) (λ _. find_many-Keeps lib c law fair _ _ _);
    by_state =
        Keeps-bind _ _ (Keeps-report _ _ (λ s. Reads-Evolves lib c law fair (law.find _ s)))
          (λ _. Keeps-pure _);
    by_provider =
        Keeps-bind _ _ (Keeps-report _ _ (λ s. Reads-Evolves lib c law fair (law.find _ s)))
          (λ _. Keeps-pure _);
  }
