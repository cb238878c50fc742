-- ===== src/Identity/Keys/Service.antt =====
-- `ManagedKeyService` and `ProviderAwareHolderSigner`
-- (services/identity-service/app/application/services/managed_key_service.py).
pub mod Audit
pub mod Access
pub mod Provisioning
pub mod Lifecycle
pub mod Rotation
pub mod Reconciliation
pub mod Signer
pub mod Calls
