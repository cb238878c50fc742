-- ===== src/Identity/Keys/Environment.antt =====
-- What `ManagedKeyService` and `ProviderAwareHolderSigner`
-- (services/identity-service/app/application/services/managed_key_service.py) are constructed with:
-- the ports of app/application/ports/key_management.py, the wallets, the audit delivery, the clock,
-- the generators and the metrics, and `ConfiguredKeyPolicy` of app/config/key_management_settings.py.
-- `S` is the state of the key repository, and `O` that of everything else outside the service.
use secure_ssi_platform.Prelude.{
  ℕ, ◌+◌, ◌*◌, ◌/◌, String, Bool, true, false, not, Option, none, some, List,
}
use secure_ssi_platform.Prelude.Equality.{contains, text_equality}
use secure_ssi_platform.Prelude.Dict.{Dict, lookup}
use secure_ssi_platform.Identity.Failures.{
  Result, Exec, ok, fail_if, pure, on_error, ◌>>=◌, ◌>>◌, or_raise, is_timeout, key_policy,
  provider_unavailable,
}
use secure_ssi_platform.Identity.Library.{Library}
use secure_ssi_platform.Identity.Wallet.{HolderWallet}
use secure_ssi_platform.Identity.Keys.States.{
  ManagedKeyState, KeyPurpose, KeyAlgorithm, algorithm_equality,
}
use secure_ssi_platform.Identity.Keys.Metadata.{ProviderKeyMetadata}
use secure_ssi_platform.Identity.Keys.Record.{ManagedKey}
use secure_ssi_platform.Identity.Keys.Store.{KeyRepository}

-- `ExternalKeyProvider`
pub record KeyProvider (O : Type 0) : Type 0 where
  pub create_key : String → KeyAlgorithm → KeyPurpose → String → Exec O ProviderKeyMetadata
  pub get_key_metadata : String → Exec O ProviderKeyMetadata
  pub sign : List ℕ → String → KeyAlgorithm → Exec O (List ℕ)
  pub enable_key : String → Exec O (Unit {0})
  pub suspend_key : String → Exec O (Unit {0})
  pub revoke_key : String → Exec O (Unit {0})
  pub schedule_deletion : String → ℕ → Exec O (Unit {0})
  pub cancel_scheduled_deletion : String → Exec O (Unit {0})
  pub destroy_key : String → Exec O (Unit {0})

-- The methods of `HolderWalletRepository` that the service calls.
pub record WalletRepository (O : Type 0) : Type 0 where
  pub get : String → Exec O (Option HolderWallet)
  pub update_key_binding : String → String → String → ℕ → ℕ → Exec O HolderWallet

-- `KeyPolicyProvider`
pub record KeyPolicy : Type 0 where
  pub require_provision_allowed : String → KeyAlgorithm → KeyPurpose → Result (Unit {0})
  pub require_resume_allowed : ManagedKey → Result (Unit {0})
  pub destruction_time : ℕ → ℕ
  pub rotation_grace_seconds : ℕ

-- The settings that the policy reads.
pub record KeySettings : Type 0 where
  pub enabled_providers : List String
  pub allowed_algorithms : List KeyAlgorithm
  pub destruction_delay_hours : ℕ
  pub rotation_grace_seconds : ℕ

-- `ConfiguredKeyPolicy`
unfoldable pub configured_policy : Library → KeySettings → KeyPolicy
configured_policy lib settings = record {
  require_provision_allowed = λ provider algorithm purpose.
      fail_if (not (contains (lib.casefold provider) settings.enabled_providers)) key_policy
        (fail_if (not (contains algorithm settings.allowed_algorithms)) key_policy (ok tt));
  require_resume_allowed = λ key. ok tt;
  destruction_time = λ at. at + settings.destruction_delay_hours * 3600;
  rotation_grace_seconds = settings.rotation_grace_seconds;
}

-- The members of `AuditEventType` that concern managed keys.
pub data AuditEventType : Type 0 where
  managed_key_requested provider_key_created managed_key_activated : AuditEventType
  managed_key_creation_failed key_rotation_requested successor_key_created : AuditEventType
  key_rotation_completed key_rotation_failed managed_key_suspended : AuditEventType
  managed_key_resumed managed_key_compromised managed_key_revoked : AuditEventType
  key_destruction_scheduled key_destruction_cancelled managed_key_destroyed : AuditEventType
  key_provider_mismatch key_reconciliation_claimed key_reconciliation_completed : AuditEventType
  key_reconciliation_failed unauthorized_key_access managed_key_signing_rejected : AuditEventType

pub record AuditEvent : Type 0 where
  pub id : String
  pub event_type : AuditEventType
  pub subject_id : String
  pub actor_id : String
  pub correlation_id : String
  pub metadata : Dict String String
  pub created_at : ℕ

-- The methods of `AuditOutboxDeliveryService` that are called here; `ensure` is given the event of
-- the pending outbox record.
pub record AuditDelivery (O : Type 0) : Type 0 where
  pub ensure : AuditEvent → Exec O (Unit {0})
  pub deliver_event : String → Exec O Bool

-- What is recorded in `InternalMetrics`; latencies are left out.
pub data KeyMetric : Type 0 where
  rotation : Bool → KeyMetric
  compromise : KeyMetric
  revocation : KeyMetric
  destruction : String → KeyMetric
  reconciliation : Bool → KeyMetric
  stale_rotations : ℕ → KeyMetric
  creation : Bool → KeyMetric
  inventory : List (String × ℕ) → List (ManagedKeyState × ℕ) → KeyMetric
  provider_request : Bool → Bool → KeyMetric  -- `timed_out`, `failed`
  signing : Bool → Bool → KeyMetric  -- `succeeded`, `lifecycle_rejected`

pub record Environment (S O : Type 0) : Type 0 where
  pub library : Library
  pub keys : KeyRepository S
  pub wallets : WalletRepository O
  pub providers : Dict String (KeyProvider O)  -- by casefolded name
  pub policy : KeyPolicy
  pub audit_delivery : AuditDelivery O
  pub clock : Exec O ℕ  -- in microseconds
  pub new_storage_id : Exec O String
  pub new_key_id : Exec O String
  pub default_provider : String
  pub metrics : Option (KeyMetric → Exec O (Unit {0}))
  pub reconciliation_retry_limit : ℕ
  pub reconciliation_lease_seconds : ℕ

pub record World (S O : Type 0) : Type 0 where
  pub keys : S
  pub outside : O

module _ {S O A : Type 0} where
  -- A call of the key repository.
  unfoldable pub on_keys : Exec S A → Exec (World S O) A
  on_keys m w = let (r, s) = m w.keys in (r, record w { keys = s })

  -- A call of anything else.
  unfoldable pub elsewhere : Exec O A → Exec (World S O) A
  elsewhere m w = let (r, o) = m w.outside in (r, record w { outside = o })

module _ {S O : Type 0} (env : Environment S O) where
  abbrev pub recorded :
      Option (KeyMetric → Exec O (Unit {0})) → KeyMetric → Exec (World S O) (Unit {0})
  recorded none m = pure tt
  recorded (some record_metric) m = elsewhere (record_metric m)

  -- `if self._metrics is not None: self._metrics.…`
  unfoldable pub observe : KeyMetric → Exec (World S O) (Unit {0})
  observe = recorded env.metrics

  -- `_now`
  unfoldable pub now : Exec (World S O) ℕ
  now = do t ← elsewhere env.clock; pure (t / 1000000)

  -- `_provider`
  unfoldable pub find_provider : String → Exec (World S O) (KeyProvider O)
  find_provider name =
      or_raise (lookup (env.library.casefold name) env.providers) provider_unavailable

  -- `_call_provider`
  unfoldable pub call_provider : {A : Type 0} → Exec O A → Exec (World S O) A
  unfolding observe
  call_provider operation = do
    result ←
        on_error (elsewhere operation) λ e. observe (KeyMetric.provider_request (is_timeout e) true)
    observe (KeyMetric.provider_request false false)
    pure result
