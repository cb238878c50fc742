-- ===== src/Identity/Keys/Guarantee.antt =====
-- What every method of the keys' service guarantees of the stored keys, and relies on of the other
-- writers: they change by `Step`s.
pub mod Invariant
pub mod Rules
pub mod Known
pub mod Collection
pub mod Access
pub mod Provisioning
pub mod Lifecycle
pub mod Rotation
pub mod Reconciliation
pub mod Service
