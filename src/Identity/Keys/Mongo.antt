-- ===== src/Identity/Keys/Mongo.antt =====
-- `MongoManagedKeyRepository` (services/identity-service/app/infrastructure/persistence/
-- managed_key_repository.py). The collection is pymongo's, a parameter: a document has the fields of
-- the record, a filter is a test on a document, and an update a change of it.
use Prim.Native.String.{◌++◌ as append}
use secure_ssi_platform.Prelude.{
  ℕ, ◌+◌, String, Bool, true, false, ◌&&◌, ◌||◌, not, Option, none, some, List, [], ◌∷◌, map, leb,
  is_none, text_le, if◌then◌else◌,
}
use secure_ssi_platform.Prelude.Equality.{
  Eq, ◌==◌, contains, text_equality, nat_equality, option_equality,
}
use secure_ssi_platform.Prelude.Dict.{Dict, lookup, insert}
use secure_ssi_platform.Prelude.Effects
use secure_ssi_platform.Identity.Failures.{
  Failure, Result, Exec, ok, pure, lift, raise_if, ◌>>=◌, ◌>>◌, or_raise, key_conflict,
  optimistic_lock, persistence_unavailable, document_mapping, value_error,
}
use secure_ssi_platform.Identity.Library.{Library}
use secure_ssi_platform.Identity.Keys.States.{
  ManagedKeyState, KeyPurpose, pending, active, rotating, suspended, compromised, revoked,
  destroy_pending, destroyed, failed, key_state_equality, purpose_equality, purpose_value,
}
use secure_ssi_platform.Identity.Keys.Record.{ManagedKey, check_key}
use secure_ssi_platform.Identity.Keys.Store.{KeyRepository}

-- `DuplicateKeyError`, and any other `PyMongoError`.
pub data MongoError : Type 0 where
  duplicate_key connection_failure : MongoError

pub data SortField : Type 0 where
  by_key_id by_key_version by_updated_at : SortField

-- The methods of `Collection` that the repository calls; a write answers its `matched_count`.
pub record Collection (S : Type 0) : Type 0 where
  pub insert_one : ManagedKey → Effects.Exec MongoError S (Unit {0})
  pub find_one : (ManagedKey → Bool) → Effects.Exec MongoError S (Option ManagedKey)
  pub find_sorted :
      (ManagedKey → Bool) → SortField → ℕ → Effects.Exec MongoError S (List ManagedKey)
  pub find : (ManagedKey → Bool) → Effects.Exec MongoError S (List ManagedKey)
  pub replace_one : (ManagedKey → Bool) → ManagedKey → Effects.Exec MongoError S ℕ
  pub update_one : (ManagedKey → Bool) → (ManagedKey → ManagedKey) → Effects.Exec MongoError S ℕ

-- `except DuplicateKeyError … except PyMongoError …`
abbrev pub conflict_or_unavailable : MongoError → Failure
conflict_or_unavailable duplicate_key = key_conflict
conflict_or_unavailable connection_failure = persistence_unavailable

-- `except PyMongoError`: `DuplicateKeyError` is one.
abbrev pub unavailable : MongoError → Failure
unavailable _ = persistence_unavailable

-- `except (KeyError, TypeError, ValueError)` in `from_document`
abbrev mapping_error : Failure → Failure
mapping_error Failure.value_error = document_mapping
mapping_error e = e

-- `lower <= at`, where a missing value is not
abbrev at_most : Option ℕ → ℕ → Bool
at_most none at = false
at_most (some t) at = leb t at

-- What the candidates for reconciliation have.
abbrev pub is_candidate : ℕ → ℕ → ManagedKey → Bool
is_candidate stale_before due_before d =
    (contains d.state (pending ∷ rotating ∷ failed ∷ []) && at_most d.updated_at stale_before)
    || (d.state == destroy_pending && at_most d.destruction_scheduled_at due_before)
    || (d.state == active && at_most d.last_provider_sync_at stale_before)

-- The filters of the writes.
abbrev pub is_at_version : String → ℕ → ManagedKey → Bool
is_at_version key_id version d = d.key_id == key_id && d.version == version

abbrev pub may_rotate : String → ℕ → ManagedKey → Bool
may_rotate key_id version d = is_at_version key_id version d && d.state == active

abbrev pub may_link : String → ℕ → ManagedKey → Bool
may_link key_id version d =
    is_at_version key_id version d && d.state == rotating && is_none d.successor_key_id

abbrev pub may_reconcile : String → ℕ → ℕ → ManagedKey → Bool
may_reconcile key_id at version d =
    is_at_version key_id version d
    && (is_none d.reconciliation_lease_until || at_most d.reconciliation_lease_until at)

-- What the updates set and increment.
abbrev pub set_rotating : ℕ → ManagedKey → ManagedKey
set_rotating at d = record d {
  state = rotating;
  rotated_at = some at;
  updated_at = some at;
  version = d.version + 1;
}

abbrev pub set_successor : String → ℕ → ManagedKey → ManagedKey
set_successor successor at d = record d {
  successor_key_id = some successor;
  updated_at = some at;
  version = d.version + 1;
}

abbrev pub set_lease : ℕ → ℕ → ManagedKey → ManagedKey
set_lease lease_until at d = record d {
  reconciliation_lease_until = some lease_until;
  updated_at = some at;
  reconciliation_attempts = d.reconciliation_attempts + 1;
  version = d.version + 1;
}

-- `counts[label] = counts.get(label, 0) + 1`
abbrev counted : {K : Type 0} ⦃e : Eq K⦄ → List K → Dict K ℕ → Dict K ℕ
counted [] counts = counts
counted (k ∷ ks) counts = counted ks (insert k (seen (lookup k counts) + 1) counts)
  where
    seen : Option ℕ → ℕ
    seen none = 0
    seen (some n) = n

abbrev no_states : Dict ManagedKeyState ℕ
no_states =
    map (λ s. (s, 0))
      (pending ∷ active ∷ rotating ∷ suspended ∷ compromised ∷ revoked ∷ destroy_pending ∷ destroyed
        ∷ failed ∷ [])

module _ {S : Type 0} (lib : Library) (c : Collection S) where
  -- `ManagedKeyDocumentMapper.from_document`
  unfoldable pub from_document : ManagedKey → Result ManagedKey
  from_document d = Effects.reported mapping_error (check_key lib d)

  abbrev pub documents : List ManagedKey → Result (List ManagedKey)
  documents [] = ok []
  documents (d ∷ ds) =
      Effects.then_result (from_document d)
        λ k. Effects.then_result (documents ds) λ ks. ok (k ∷ ks)

  abbrev pub found_document : Option ManagedKey → Result (Option ManagedKey)
  found_document none = ok none
  found_document (some d) = Effects.then_result (from_document d) λ k. ok (some k)

  -- `_find_one`
  unfoldable pub find_one : (ManagedKey → Bool) → Exec S (Option ManagedKey)
  unfolding from_document
  find_one test = do
    found ← Effects.report unavailable (c.find_one test)
    lift (found_document found)

  -- `_find_many`
  unfoldable pub find_many : (ManagedKey → Bool) → SortField → ℕ → Exec S (List ManagedKey)
  unfolding from_document
  find_many test field limit = do
    found ← Effects.report unavailable (c.find_sorted test field limit)
    lift (documents found)

  unfoldable pub add : ManagedKey → Exec S ManagedKey
  add key = do
    raise_if (not (key.version == 1)) value_error
    Effects.report conflict_or_unavailable (c.insert_one key)
    pure key

  unfoldable pub get : String → Exec S (Option ManagedKey)
  get key_id = find_one (λ d. d.key_id == key_id)

  unfoldable pub update : ManagedKey → ℕ → Exec S ManagedKey
  update key expected = do
    raise_if (not (key.version == expected + 1)) value_error
    matched ←
        Effects.report conflict_or_unavailable
          (c.replace_one (is_at_version key.key_id expected) key)
    raise_if (not (matched == 1)) optimistic_lock
    pure key

  -- An update, and what is read back after it.
  abbrev pub read_back : String → ℕ → Exec S ManagedKey
  read_back key_id matched = do
    raise_if (not (matched == 1)) optimistic_lock
    updated ← get key_id
    or_raise updated persistence_unavailable

  unfoldable pub claim_rotation : String → ℕ → ℕ → Exec S ManagedKey
  unfolding get
  claim_rotation key_id at expected = do
    matched ←
        Effects.report unavailable (c.update_one (may_rotate key_id expected) (set_rotating at))
    read_back key_id matched

  unfoldable pub link_successor : String → String → ℕ → ℕ → Exec S ManagedKey
  unfolding get
  link_successor key_id successor at expected = do
    matched ←
        Effects.report unavailable
          (c.update_one (may_link key_id expected) (set_successor successor at))
    read_back key_id matched

  unfoldable pub claim_reconciliation : String → ℕ → ℕ → ℕ → Exec S (Option ManagedKey)
  unfolding get
  claim_reconciliation key_id at lease_until expected = do
    matched ←
        Effects.report unavailable
          (c.update_one (may_reconcile key_id at expected) (set_lease lease_until at))
    if not (matched == 1) then pure none else get key_id

  abbrev pub after_key : Option String → ManagedKey → Bool
  after_key none d = true
  after_key (some k) d = text_le k d.key_id && not (d.key_id == k)

  unfoldable pub list_for_wallet : String → ℕ → Option String → Exec S (List ManagedKey)
  list_for_wallet wallet_id limit after = do
    raise_if (not (leb 1 limit && leb limit 500)) value_error
    find_many (λ d. d.wallet_id == wallet_id && after_key after d) by_key_id limit

  unfoldable pub list_versions : String → KeyPurpose → Exec S (List ManagedKey)
  list_versions wallet_id purpose =
      find_many (λ d. d.wallet_id == wallet_id && d.purpose == purpose) by_key_version 500

  unfoldable pub list_reconciliation_candidates : ℕ → ℕ → ℕ → Exec S (List ManagedKey)
  list_reconciliation_candidates stale_before due_before limit = do
    raise_if (not (leb 1 limit && leb limit 500)) value_error
    find_many (is_candidate stale_before due_before) by_updated_at limit

  unfoldable pub count_by_state : Exec S (List (ManagedKeyState × ℕ))
  count_by_state = do
    found ← Effects.report unavailable (c.find (λ _. true))
    pure (counted (map (λ (d : ManagedKey). d.state) found) no_states)

  unfoldable pub count_active_by_provider_purpose : Exec S (List (String × ℕ))
  count_active_by_provider_purpose = do
    found ← Effects.report unavailable (c.find (λ d. d.state == active))
    pure (
        counted
          (map
            (λ (d : ManagedKey).
              append (lib.casefold d.provider) (append ":" (purpose_value d.purpose)))
            found)
          [])

  -- `MongoManagedKeyRepository`
  unfoldable pub mongo_repository : KeyRepository S
  mongo_repository = record {
    add = add;
    get = get;
    get_by_provider_reference = λ provider reference.
        find_one (λ d. d.provider == provider && d.provider_key_reference == some reference);
    get_by_verification_method = λ method. find_one (λ d. d.verification_method == some method);
    get_by_idempotency_hash = λ wallet_id purpose digest. find_one (λ d.
        d.wallet_id == wallet_id && d.purpose == purpose && d.idempotency_key_hash == some digest);
    get_active = λ wallet_id purpose.
        find_one (λ d. d.wallet_id == wallet_id && d.purpose == purpose && d.state == active);
    list_for_wallet = list_for_wallet;
    list_versions = list_versions;
    update = update;
    claim_rotation = claim_rotation;
    link_successor = link_successor;
    claim_reconciliation = claim_reconciliation;
    list_reconciliation_candidates = list_reconciliation_candidates;
    count_by_state = count_by_state;
    count_active_by_provider_purpose = count_active_by_provider_purpose;
  }
