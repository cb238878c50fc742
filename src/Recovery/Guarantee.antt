-- ===== src/Recovery/Guarantee.antt =====
-- What every method of the service guarantees of the repository, and relies on of the other
-- threads: requests change by `Step`s, and evidence is only added.
pub mod Invariant
pub mod Rules
pub mod Atomic
pub mod Stores
pub mod Calls
pub mod Guardians
pub mod Quorum
pub mod Creation
pub mod Decisions
pub mod Execution
pub mod Reconciliation
pub mod Service
