-- ===== src/Identity.antt =====
-- The identity service (services/identity-service/app): the keys that sign for a wallet's holder,
-- and the status lists of credentials.
pub mod Failures
pub mod Library
pub mod Wallet
pub mod Keys
pub mod Status
