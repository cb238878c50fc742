-- ===== src/Identity/Library.antt =====
-- What the identity service calls of Python's own tables and of hashlib: SHA-256 in hexadecimal, and
-- the Unicode database behind `str.casefold`, `str.upper` and `str.isalnum`.
use secure_ssi_platform.Prelude.{ℕ, String, Bool}

pub record Library : Type 0 where
  pub sha256_hex : String → String
  pub casefold : String → String
  pub upper : String → String
  pub is_alnum : ℕ → Bool
