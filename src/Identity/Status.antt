-- ===== src/Identity/Status.antt =====
-- The encoding of a credential status list
-- (services/identity-service/app/infrastructure/status_list_document_generator.py).
pub mod Encoding
pub mod Bits
pub mod Promises
mod Tests
