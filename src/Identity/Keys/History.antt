-- ===== src/Identity/Keys/History.antt =====
-- The life of a stored managed key as a step relation: what one write may do to it, stated apart from
-- the code that writes (services/identity-service/app/application/services/managed_key_service.py and
-- app/infrastructure/persistence/managed_key_repository.py).
pub mod Checked
pub mod Moves
pub mod Reach
pub mod Life
use secure_ssi_platform.Prelude.{
  ℕ, ◌+◌, ◌≤◌, ◌<◌, ◌≡◌, ◌⊎◌, String, Bool, true, Option, none, some, text_length,
}
use secure_ssi_platform.Prelude.Equality.{contains}
use secure_ssi_platform.Identity.Keys.States.{
  pending, active, rotating, suspended, compromised, revoked, destroy_pending, destroyed, failed,
  valid_key_transitions, key_state_equality,
}
use secure_ssi_platform.Identity.Keys.Record.{ManagedKey}

-- What no write changes, and the version, which each write raises by one.
pub record Kept (k k' : ManagedKey) : Type 0 where
  pub id : k'.id ≡ k.id
  pub key_id : k'.key_id ≡ k.key_id
  pub wallet_id : k'.wallet_id ≡ k.wallet_id
  pub owner_user_id : k'.owner_user_id ≡ k.owner_user_id
  pub provider : k'.provider ≡ k.provider
  pub algorithm : k'.algorithm ≡ k.algorithm
  pub purpose : k'.purpose ≡ k.purpose
  pub key_version : k'.key_version ≡ k.key_version
  pub created_at : k'.created_at ≡ k.created_at
  pub expires_at : k'.expires_at ≡ k.expires_at
  pub predecessor_key_id : k'.predecessor_key_id ≡ k.predecessor_key_id
  pub idempotency_key_hash : k'.idempotency_key_hash ≡ k.idempotency_key_hash
  pub attempts : k.reconciliation_attempts ≤ k'.reconciliation_attempts
  pub version : k'.version ≡ k.version + 1

-- The key pair and the identity that it stands for.
pub record SameMaterial (k k' : ManagedKey) : Type 0 where
  pub holder_did : k'.holder_did ≡ k.holder_did
  pub provider_key_reference : k'.provider_key_reference ≡ k.provider_key_reference
  pub public_key_multibase : k'.public_key_multibase ≡ k.public_key_multibase
  pub fingerprint : k'.fingerprint ≡ k.fingerprint
  pub verification_method : k'.verification_method ≡ k.verification_method

-- The times of a destruction.
pub record SameEnd (k k' : ManagedKey) : Type 0 where
  pub destruction_scheduled_at : k'.destruction_scheduled_at ≡ k.destruction_scheduled_at
  pub destroyed_at : k'.destroyed_at ≡ k.destroyed_at

pub data Event : Type 0 where
  touch activate restore claim link suspend compromise revoke : Event
  schedule destroy give_up : Event

-- What the event asks of the key before it and does to it.
abbrev pub Effect : Event → ManagedKey → ManagedKey → Type 0
Effect touch k k' =
    (k'.state ≡ k.state)
    × SameMaterial k k'
    × SameEnd k k'
    × (k'.successor_key_id ≡ k.successor_key_id)
Effect activate k k' =
    (k.state ≡ pending)
    × (k'.state ≡ active)
    × ((r : String) × (k'.provider_key_reference ≡ some r))
    × ((p : String) × (k'.public_key_multibase ≡ some p))
    × ((m : String) × (k'.verification_method ≡ some m))
    × (k'.successor_key_id ≡ k.successor_key_id)
Effect restore k k' =
    ((k.state ≡ rotating) ⊎ (k.state ≡ suspended))
    × (k'.state ≡ active)
    × SameMaterial k k'
    × (k'.successor_key_id ≡ k.successor_key_id)
Effect claim k k' =
    (k.state ≡ active)
    × (k'.state ≡ rotating)
    × SameMaterial k k'
    × (k'.rotated_at ≡ k'.updated_at)
    × (k'.successor_key_id ≡ k.successor_key_id)
Effect link k k' =
    (k.state ≡ rotating)
    × (k'.state ≡ rotating)
    × SameMaterial k k'
    × (k.successor_key_id ≡ none)
    × ((s : String) × (k'.successor_key_id ≡ some s))
Effect suspend k k' =
    ((k.state ≡ active) ⊎ (k.state ≡ rotating))
    × (k'.state ≡ suspended)
    × SameMaterial k k'
    × (k'.successor_key_id ≡ k.successor_key_id)
Effect compromise k k' =
    (contains compromised (valid_key_transitions k.state) ≡ true)
    × (k'.state ≡ compromised)
    × SameMaterial k k'
    × ((r : String) × (k'.compromise_reason ≡ some r))
    × (k'.successor_key_id ≡ k.successor_key_id)
Effect revoke k k' =
    (contains revoked (valid_key_transitions k.state) ≡ true)
    × (k'.state ≡ revoked)
    × SameMaterial k k'
    × (k'.destruction_scheduled_at ≡ none)
    × (k'.successor_key_id ≡ k.successor_key_id)
Effect schedule k k' =
    (k.state ≡ revoked)
    × (k'.state ≡ destroy_pending)
    × SameMaterial k k'
    × ((at t : ℕ) × (k'.updated_at ≡ some at) × (k'.destruction_scheduled_at ≡ some t) × (at < t))
    × (k'.successor_key_id ≡ k.successor_key_id)
Effect destroy k k' =
    (k.state ≡ destroy_pending)
    × (k'.state ≡ destroyed)
    × SameMaterial k k'
    × ((t at : ℕ) × (k.destruction_scheduled_at ≡ some t)
        × (k'.destruction_scheduled_at ≡ some t)
        × (k'.destroyed_at ≡ some at)
        × (t ≤ at))
    × (k'.successor_key_id ≡ k.successor_key_id)
Effect give_up k k' =
    (contains failed (valid_key_transitions k.state) ≡ true)
    × (k'.state ≡ failed)
    × SameMaterial k k'
    × ((c : String) × (k'.failure_code ≡ some c))
    × (k'.successor_key_id ≡ k.successor_key_id)

-- One write to a stored key.
pub record Step (k k' : ManagedKey) : Type 0 where
  pub event : Event
  pub kept : Kept k k'
  pub effect : Effect event k k'

-- Any number of writes, by whoever makes them.
pub data Steps (k : ManagedKey) : ManagedKey → Type 0 where
  here : Steps k k
  next : {a b : ManagedKey} → Steps k a → Step a b → Steps k b
