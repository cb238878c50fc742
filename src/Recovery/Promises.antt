-- ===== src/Recovery/Promises.antt =====
-- What the recovery service promises, in terms of its own methods and of what is stored
-- (services/recovery-service/app).
pub mod Requests
pub mod Preserves
pub mod Authorised
pub mod Votes
pub mod Recount
pub mod Release
pub mod Reached
pub mod Path
pub mod Domain
pub mod Store
pub mod Execution
pub mod Decisions
pub mod Batch
pub mod Quorum
pub mod Opening
mod Sample
mod Tests
mod Runs
mod Checks
