-- ===== src/Recovery/Domain.antt =====
-- services/recovery-service/app/domain.
pub mod States
pub mod Guardians
pub mod Requests
pub mod Records
pub mod Auth
