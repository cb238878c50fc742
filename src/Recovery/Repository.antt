-- ===== src/Recovery/Repository.antt =====
-- `MemoryRecoveryRepository` of
-- services/recovery-service/app/infrastructure/persistence/memory_repository.py. Each method holds
-- the lock from its first line to its last, so it is one action on the state of the repository.
pub mod State
pub mod Guardians
pub mod Requests
pub mod Evidence
