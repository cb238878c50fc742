-- ===== src/Recovery/Monad.antt =====
-- The errors of the recovery service, the classes of `RecoveryError` in
-- services/recovery-service/app/domain/recovery.py without their messages, and the methods that may
-- raise them.
use mathlib.Core.Bool.{Bool, true, false}
use secure_ssi_platform.Prelude.Effects
pub use secure_ssi_platform.Prelude.Effects.{
  ok, err, then_result, fail_if, recover, or_raise, ◌>>◌, run_if,
}
unfoldable pub use secure_ssi_platform.Prelude.Effects.{
  pure, raise, lift, gets, catch, ◌>>=◌, raise_if, modify,
}

-- `unexpected` is any other exception, such as one of an HTTP client.
pub data RecoveryError : Type 0 where
  validation not_found conflict authorization invalid_state : RecoveryError
  persistence secret_share unexpected : RecoveryError

-- `isinstance(error, RecoveryConflictError)`: `RecoveryStateError` is a subclass.
abbrev pub is_conflict : RecoveryError → Bool
is_conflict RecoveryError.conflict = true
is_conflict RecoveryError.invalid_state = true
is_conflict _ = false

abbrev pub is_secret_share : RecoveryError → Bool
is_secret_share RecoveryError.secret_share = true
is_secret_share _ = false

abbrev pub Result {ℓ} : Type ℓ → Type ℓ
Result A = Effects.Result RecoveryError A

abbrev pub Exec {ℓ} : Type ℓ → Type ℓ → Type ℓ
Exec S A = Effects.Exec RecoveryError S A
