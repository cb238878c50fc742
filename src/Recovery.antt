-- ===== src/Recovery.antt =====
-- The recovery service, services/recovery-service/app.
pub mod Monad
pub mod Domain
pub mod Repository
pub mod Environment
pub mod Service
pub mod History
pub mod Guarantee
pub mod Promises
