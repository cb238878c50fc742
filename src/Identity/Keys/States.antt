-- ===== src/Identity/Keys/States.antt =====
-- The enumerations of services/identity-service/app/domain/managed_key.py and its transition table.
use secure_ssi_platform.Prelude.{ℕ, zero, suc, ◌≡◌, refl, String, Bool, true, false, List, [], ◌∷◌}
use secure_ssi_platform.Prelude.Equality.{Eq, enum_equality}

pub data ManagedKeyState : Type 0 where
  pending active rotating suspended compromised revoked : ManagedKeyState
  destroy_pending destroyed failed : ManagedKeyState

pub data KeyPurpose : Type 0 where
  holder_authentication holder_assertion credential_signing : KeyPurpose
  presentation_signing issuer_assertion status_list_signing : KeyPurpose

pub data KeyAlgorithm : Type 0 where
  ed25519 : KeyAlgorithm

abbrev pub key_state_index : ManagedKeyState → ℕ
key_state_index pending = 0
key_state_index active = 1
key_state_index rotating = 2
key_state_index suspended = 3
key_state_index compromised = 4
key_state_index revoked = 5
key_state_index destroy_pending = 6
key_state_index destroyed = 7
key_state_index failed = 8

abbrev pub key_state_at : ℕ → ManagedKeyState
key_state_at zero = pending
key_state_at (suc zero) = active
key_state_at (suc (suc zero)) = rotating
key_state_at (suc (suc (suc zero))) = suspended
key_state_at (suc (suc (suc (suc zero)))) = compromised
key_state_at (suc (suc (suc (suc (suc zero))))) = revoked
key_state_at (suc (suc (suc (suc (suc (suc zero)))))) = destroy_pending
key_state_at (suc (suc (suc (suc (suc (suc (suc zero))))))) = destroyed
key_state_at _ = failed

pub key_state-undo : (s : ManagedKeyState) → key_state_at (key_state_index s) ≡ s
key_state-undo pending = refl
key_state-undo active = refl
key_state-undo rotating = refl
key_state-undo suspended = refl
key_state-undo compromised = refl
key_state-undo revoked = refl
key_state-undo destroy_pending = refl
key_state-undo destroyed = refl
key_state-undo failed = refl

instance abbrev pub key_state_equality : Eq ManagedKeyState
key_state_equality = enum_equality key_state_index key_state_at key_state-undo

abbrev pub purpose_index : KeyPurpose → ℕ
purpose_index holder_authentication = 0
purpose_index holder_assertion = 1
purpose_index credential_signing = 2
purpose_index presentation_signing = 3
purpose_index issuer_assertion = 4
purpose_index status_list_signing = 5

abbrev pub purpose_at : ℕ → KeyPurpose
purpose_at zero = holder_authentication
purpose_at (suc zero) = holder_assertion
purpose_at (suc (suc zero)) = credential_signing
purpose_at (suc (suc (suc zero))) = presentation_signing
purpose_at (suc (suc (suc (suc zero)))) = issuer_assertion
purpose_at _ = status_list_signing

pub purpose-undo : (p : KeyPurpose) → purpose_at (purpose_index p) ≡ p
purpose-undo holder_authentication = refl
purpose-undo holder_assertion = refl
purpose-undo credential_signing = refl
purpose-undo presentation_signing = refl
purpose-undo issuer_assertion = refl
purpose-undo status_list_signing = refl

instance abbrev pub purpose_equality : Eq KeyPurpose
purpose_equality = enum_equality purpose_index purpose_at purpose-undo

pub algorithm-undo : (a : KeyAlgorithm) → ed25519 ≡ a
algorithm-undo ed25519 = refl

instance abbrev pub algorithm_equality : Eq KeyAlgorithm
algorithm_equality = enum_equality (λ _. 0) (λ _. ed25519) algorithm-undo

-- The members' values.
abbrev pub state_value : ManagedKeyState → String
state_value pending = "PENDING"
state_value active = "ACTIVE"
state_value rotating = "ROTATING"
state_value suspended = "SUSPENDED"
state_value compromised = "COMPROMISED"
state_value revoked = "REVOKED"
state_value destroy_pending = "DESTROY_PENDING"
state_value destroyed = "DESTROYED"
state_value failed = "FAILED"

abbrev pub purpose_value : KeyPurpose → String
purpose_value holder_authentication = "HOLDER_AUTHENTICATION"
purpose_value holder_assertion = "HOLDER_ASSERTION"
purpose_value credential_signing = "CREDENTIAL_SIGNING"
purpose_value presentation_signing = "PRESENTATION_SIGNING"
purpose_value issuer_assertion = "ISSUER_ASSERTION"
purpose_value status_list_signing = "STATUS_LIST_SIGNING"

abbrev pub algorithm_value : KeyAlgorithm → String
algorithm_value ed25519 = "Ed25519"

-- `VALID_KEY_TRANSITIONS`
abbrev pub valid_key_transitions : ManagedKeyState → List ManagedKeyState
valid_key_transitions pending = active ∷ failed ∷ []
valid_key_transitions active = rotating ∷ suspended ∷ compromised ∷ revoked ∷ failed ∷ []
valid_key_transitions rotating = active ∷ suspended ∷ compromised ∷ revoked ∷ failed ∷ []
valid_key_transitions suspended = active ∷ compromised ∷ revoked ∷ failed ∷ []
valid_key_transitions compromised = revoked ∷ failed ∷ []
valid_key_transitions revoked = destroy_pending ∷ failed ∷ []
valid_key_transitions destroy_pending = revoked ∷ destroyed ∷ failed ∷ []
valid_key_transitions destroyed = []
valid_key_transitions failed = []

-- The states in which `__post_init__` asks for provisioned metadata.
abbrev pub is_provisioned_state : ManagedKeyState → Bool
is_provisioned_state pending = false
is_provisioned_state failed = false
is_provisioned_state _ = true
