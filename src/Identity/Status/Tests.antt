-- ===== src/Identity/Status/Tests.antt =====
-- A short status list
-- (services/identity-service/app/infrastructure/status_list_document_generator.py).
use secure_ssi_platform.Prelude.{ℕ, ◌≡◌, ◌≤◌, ◌↔◌, refl, true, List, [], ◌∷◌, all}
use secure_ssi_platform.Prelude.Integers.{ℤ, pos, below, int_equality}
use secure_ssi_platform.Prelude.Equality.{contains, nat_equality}
use secure_ssi_platform.Identity.Failures.{ok}
use secure_ssi_platform.Identity.Status.Encoding.{status_bytes}
use secure_ssi_platform.Identity.Status.Bits.{bit}
use secure_ssi_platform.Identity.Status.Promises.{status_bytes-bit, status_bytes-accepts}

abbrev two_indices : List ℤ
two_indices = pos 9 ∷ pos 0 ∷ []

-- The first and the tenth credential of sixteen are revoked.
two_revoked : status_bytes two_indices 16 ≡ ok (128 ∷ 64 ∷ [])
unfolding status_bytes
two_revoked = refl

status_bytes-bit_example : bit 9 (128 ∷ 64 ∷ []) ≡ contains (pos 9) two_indices
status_bytes-bit_example = status_bytes-bit two_indices (128 ∷ 64 ∷ []) 16 two_revoked 9

status_bytes-accepts_example :
    ((bytes : List ℕ) × (status_bytes two_indices 16 ≡ ok bytes))
    ↔ ((1 ≤ 16) × (all (λ i. below i 16) two_indices ≡ true))
status_bytes-accepts_example = status_bytes-accepts two_indices 16
