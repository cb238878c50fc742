-- ===== src/Identity/Keys.antt =====
-- Managed keys: their domain (services/identity-service/app/domain/managed_key.py), their repository,
-- and the service that provisions, rotates, retires and reconciles them.
pub mod States
pub mod Checks
pub mod Metadata
pub mod Record
pub mod Store
pub mod Mongo
pub mod Environment
pub mod Service
pub mod History
pub mod Guarantee
pub mod MongoGuarantee
pub mod Promises
