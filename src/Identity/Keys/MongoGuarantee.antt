-- ===== src/Identity/Keys/MongoGuarantee.antt =====
-- `MongoManagedKeyRepository` as a store of steps, over MongoDB
-- (services/identity-service/app/infrastructure/persistence/managed_key_repository.py).
pub mod Calls
pub mod Lookups
pub mod Updates
pub mod Refinement
