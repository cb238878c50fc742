-- ===== src/Recovery/Domain/Auth.antt =====
-- services/recovery-service/app/domain/auth.py: roles, permissions and the principal of a call.
use mathlib.Core.Path.{◌≡◌, refl}
use secure_ssi_platform.Prelude.{
  ℕ, zero, suc, String, Bool, true, false, ◌||◌, not, Option, none, some, List, [], ◌∷◌, is_empty,
  if◌then◌else◌,
}
use secure_ssi_platform.Prelude.Equality.{Eq, ◌==◌, contains, enum_equality, text_equality}
use secure_ssi_platform.Recovery.Monad.{RecoveryError, Result, ok, err, fail_if}

pub data Role : Type 0 where
  admin issuer verifier holder : Role

pub data Permission : Type 0 where
  guardian_create guardian_read guardian_update guardian_remove : Permission
  request_create request_read request_cancel recovery_approve recovery_reject : Permission
  policy_read policy_update recovery_reconcile : Permission

-- `permission in _ROLE_PERMISSIONS[role]`
abbrev pub grants : Role → Permission → Bool
grants admin p = true
grants issuer p = false
grants verifier p = false
grants holder recovery_reconcile = false
grants holder _ = true

pub record Principal : Type 0 where
  pub user_id : String
  pub roles : List Role
  pub permissions : Permission → Bool

-- `Role(role)`: the member with that value, or a `ValueError`
abbrev pub role_of : String → Option Role
role_of s =
    if s == "admin"
    then some admin
    else if s == "issuer"
    then some issuer
    else if s == "verifier"
    then some verifier
    else if s == "holder"
    then some holder
    else none

abbrev pub role_index : Role → ℕ
role_index admin = 0
role_index issuer = 1
role_index verifier = 2
role_index holder = 3

abbrev pub role_at : ℕ → Role
role_at zero = admin
role_at (suc zero) = issuer
role_at (suc (suc zero)) = verifier
role_at _ = holder

pub role_at-role_index : (r : Role) → role_at (role_index r) ≡ r
role_at-role_index admin = refl
role_at-role_index issuer = refl
role_at-role_index verifier = refl
role_at-role_index holder = refl

instance abbrev pub role_equality : Eq Role
role_equality = enum_equality role_index role_at role_at-role_index

-- `tuple(Role(role) for role in roles)`, or the `ValueError`
abbrev pub roles_of : List String → Option (List Role)
roles_of [] = some []
roles_of (s ∷ ss) = elim (role_of s) [
  | none ↦ none
  | some r ↦ elim (roles_of ss) [ none ↦ none | some rs ↦ some (r ∷ rs) ]
]

-- `tuple(dict.fromkeys(…))`: each role once, in the order of its first occurrence
abbrev first_of_each : List Role → List Role → List Role
first_of_each seen [] = []
first_of_each seen (r ∷ rs) =
    let rest = first_of_each (r ∷ seen) rs in if contains r seen then rest else r ∷ rest

abbrev pub granted : List Role → Permission → Bool
granted [] p = false
granted (r ∷ rs) p = grants r p || granted rs p

abbrev no_roles : List Role → Bool
no_roles [] = true
no_roles (_ ∷ _) = false

abbrev pub known_roles : Option (List Role) → String → Result Principal
known_roles none user_id = err RecoveryError.authorization
known_roles (some rs) user_id =
    let normalized = first_of_each [] rs in
    fail_if (is_empty user_id || no_roles normalized) RecoveryError.authorization
      (ok (record { user_id = user_id; roles = normalized; permissions = granted normalized }))

-- `RecoveryPrincipal.from_claims`
unfoldable pub from_claims : String → List String → Result Principal
from_claims user_id roles = known_roles (roles_of roles) user_id

-- `RecoveryPrincipal.is_admin`
abbrev pub is_admin : Principal → Bool
is_admin p = contains admin p.roles

-- `RecoveryPrincipal.require`
unfoldable pub require : Principal → Permission → Result (Unit {0})
require p permission = fail_if (not (p.permissions permission)) RecoveryError.authorization (ok tt)
