-- ===== src/Recovery/Service.antt =====
-- `RecoveryService` of services/recovery-service/app/application/services/recovery_service.py.
pub mod Audit
pub mod Guardians
pub mod Policies
pub mod Creation
pub mod Quorum
pub mod Decisions
pub mod Execution
pub mod Reconciliation
pub mod Calls
