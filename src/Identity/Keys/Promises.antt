-- ===== src/Identity/Keys/Promises.antt =====
-- What the managed keys' parts promise to their users.
pub mod Lifetime
pub mod Signing
pub mod Requests
mod Single
mod Sample
mod Runs
mod Tests
