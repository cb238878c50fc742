-- ===== src/Identity/Keys/Store.antt =====
-- `ManagedKeyRepository` of services/identity-service/app/application/ports/key_management.py: what
-- the keys' service calls. `S` is the state of the store.
use secure_ssi_platform.Prelude.{ℕ, String, Option, List}
use secure_ssi_platform.Identity.Failures.{Exec}
use secure_ssi_platform.Identity.Keys.States.{ManagedKeyState, KeyPurpose}
use secure_ssi_platform.Identity.Keys.Record.{ManagedKey}

pub record KeyRepository (S : Type 0) : Type 0 where
  pub add : ManagedKey → Exec S ManagedKey
  pub get : String → Exec S (Option ManagedKey)
  pub get_by_provider_reference : String → String → Exec S (Option ManagedKey)
  pub get_by_verification_method : String → Exec S (Option ManagedKey)
  pub get_by_idempotency_hash : String → KeyPurpose → String → Exec S (Option ManagedKey)
  pub get_active : String → KeyPurpose → Exec S (Option ManagedKey)
  pub list_for_wallet : String → ℕ → Option String → Exec S (List ManagedKey)
  pub list_versions : String → KeyPurpose → Exec S (List ManagedKey)
  pub update : ManagedKey → ℕ → Exec S ManagedKey
  pub claim_rotation : String → ℕ → ℕ → Exec S ManagedKey
  pub link_successor : String → String → ℕ → ℕ → Exec S ManagedKey
  pub claim_reconciliation : String → ℕ → ℕ → ℕ → Exec S (Option ManagedKey)
  pub list_reconciliation_candidates : ℕ → ℕ → ℕ → Exec S (List ManagedKey)
  pub count_by_state : Exec S (List (ManagedKeyState × ℕ))
  pub count_active_by_provider_purpose : Exec S (List (String × ℕ))
