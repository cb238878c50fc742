-- ===== src/Identity/Keys/Guarantee/Collection.antt =====
-- What `MongoManagedKeyRepository`
-- (services/identity-service/app/infrastructure/persistence/managed_key_repository.py) relies on of
-- pymongo's `Collection`, as MongoDB documents it: a read answers documents that are stored, and a
-- write changes one document at once. `Others` is what other clients may have done just before.
use secure_ssi_platform.Prelude.{◌≡◌, ◌≢◌, ◌⊎◌, String, Bool, true, Option, none, some, ℕ}
use secure_ssi_platform.Prelude.Effects.{ok}
use secure_ssi_platform.Identity.Keys.Record.{ManagedKey}
use secure_ssi_platform.Identity.Keys.Mongo.{Collection, SortField}

module _ {S : Type 0} (stored : S → String → Option ManagedKey) where
  -- The same documents, under the same ids.
  abbrev pub Same : S → S → Type 0
  Same s t = (id : String) → stored t id ≡ stored s id

  -- One document that passes a test was changed.
  pub record Changed (test : ManagedKey → Bool) (change : ManagedKey → ManagedKey) (s t : S)
      : Type 0 where
    pub old : ManagedKey
    pub found : stored s old.key_id ≡ some old
    pub passed : test old ≡ true
    pub new : stored t old.key_id ≡ some (change old)
    pub others : (id : String) → id ≢ old.key_id → stored t id ≡ stored s id

  -- One document was added under a free id.
  pub record Added (k : ManagedKey) (s t : S) : Type 0 where
    pub free : stored s k.key_id ≡ none
    pub new : stored t k.key_id ≡ some k
    pub others : (id : String) → id ≢ k.key_id → stored t id ≡ stored s id

  module _ (Others : S → S → Type 0) where
    -- Nothing but what the other clients did.
    abbrev pub Reads : S → S → Type 0
    Reads s t = (u : S) × Others s u × Same u t

    abbrev pub Writes : (ManagedKey → Bool) → (ManagedKey → ManagedKey) → S → S → Type 0
    Writes test change s t = (u : S) × Others s u × Changed test change u t

    -- The laws. A write that fails may have been made all the same.
    pub record IsCollection (c : Collection S) : Type 0 where
      pub find_one : (test : ManagedKey → Bool) (s : S) → Reads s (c.find_one test s).1
      pub found :
          (test : ManagedKey → Bool) (s : S) (d : ManagedKey)
          → (c.find_one test s).0 ≡ ok (some d)
          → (stored (c.find_one test s).1 d.key_id ≡ some d) × (test d ≡ true)
      pub find_sorted :
          (test : ManagedKey → Bool) (f : SortField) (n : ℕ) (s : S)
          → Reads s (c.find_sorted test f n s).1
      pub find : (test : ManagedKey → Bool) (s : S) → Reads s (c.find test s).1
      pub insert_one :
          (k : ManagedKey) (s : S)
          → Reads s (c.insert_one k s).1 ⊎ ((u : S) × Others s u × Added k u (c.insert_one k s).1)
      pub inserted :
          (k : ManagedKey) (s : S)
          → (c.insert_one k s).0 ≡ ok tt
          → (u : S) × Others s u × Added k u (c.insert_one k s).1
      pub update_one :
          (test : ManagedKey → Bool) (change : ManagedKey → ManagedKey) (s : S)
          → ((d : ManagedKey) → (change d).key_id ≡ d.key_id)
          → Reads s (c.update_one test change s).1
            ⊎ Writes test change s (c.update_one test change s).1
      pub replace_one :
          (test : ManagedKey → Bool) (k : ManagedKey) (s : S)
          → ((d : ManagedKey) → test d ≡ true → k.key_id ≡ d.key_id)
          → Reads s (c.replace_one test k s).1 ⊎ Writes test (λ _. k) s (c.replace_one test k s).1
      pub replaced :
          (test : ManagedKey → Bool) (k : ManagedKey) (s : S)
          → ((d : ManagedKey) → test d ≡ true → k.key_id ≡ d.key_id)
          → (c.replace_one test k s).0 ≡ ok 1
          → Writes test (λ _. k) s (c.replace_one test k s).1
