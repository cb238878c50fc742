-- ===== src/Identity/Wallet.antt =====
-- `HolderWallet` of services/identity-service/app/domain/holder_wallet.py, as far as the keys' service
-- reads it.
use Prim.Native.String.{◌++◌ as append}
use secure_ssi_platform.Prelude.{
  ℕ, zero, suc, ◌≡◌, refl, String, Bool, false, ◌&&◌, ◌||◌, not, Option, List, [], ◌∷◌, leb, ltb,
  is_none, codes, length, all, any, is_space, strip, text_length, has_prefix,
}
use secure_ssi_platform.Prelude.Equality.{
  Eq, ◌==◌, contains, enum_equality, nat_equality, text_equality,
}
use secure_ssi_platform.Identity.Failures.{
  Result, ok, fail_if, then_result, value_error, wallet_unavailable,
}

pub data WalletStatus : Type 0 where
  active locked disabled : WalletStatus

abbrev pub status_index : WalletStatus → ℕ
status_index active = 0
status_index locked = 1
status_index disabled = 2

abbrev pub status_at : ℕ → WalletStatus
status_at zero = active
status_at (suc zero) = locked
status_at _ = disabled

pub status-undo : (s : WalletStatus) → status_at (status_index s) ≡ s
status-undo active = refl
status-undo locked = refl
status-undo disabled = refl

instance abbrev pub wallet_status_equality : Eq WalletStatus
wallet_status_equality = enum_equality status_index status_at status-undo

pub record HolderWallet : Type 0 where
  pub id : String
  pub wallet_id : String
  pub owner_user_id : String
  pub holder_did : String
  pub status : WalletStatus
  pub key_reference : String
  pub created_at : ℕ
  pub updated_at : ℕ
  pub version : ℕ
  pub deleted_at : Option ℕ

-- `HolderWallet.usable_for_signing`
abbrev pub usable_for_signing : HolderWallet → Bool
usable_for_signing w = w.status == active && is_none w.deleted_at

-- `HolderWallet.require_usable_for_signing`
unfoldable pub require_usable_for_signing : HolderWallet → Result (Unit {0})
require_usable_for_signing w = fail_if (not (usable_for_signing w)) wallet_unavailable (ok tt)

-- `[A-Za-z0-9]` and `[A-Za-z0-9:._/-]`
abbrev is_plain : ℕ → Bool
is_plain c = (leb 48 c && leb c 57) || (leb 65 c && leb c 90) || (leb 97 c && leb c 122)

abbrev is_reference : ℕ → Bool
is_reference c = is_plain c || contains c (58 ∷ 46 ∷ 95 ∷ 47 ∷ 45 ∷ [])

abbrev matches_reference : List ℕ → Bool
matches_reference [] = false
matches_reference (c ∷ cs) =
    is_plain c && all is_reference cs && leb 7 (length cs) && leb (length cs) 255

-- `validate_key_reference`
unfoldable pub validate_key_reference : String → Result (Unit {0})
validate_key_reference value = fail_if (not (matches_reference (codes value))) value_error (ok tt)

-- `validate_holder_did`
unfoldable pub validate_holder_did : String → Result String
validate_holder_did value =
    let normalized = strip value in
    fail_if
      (not (has_prefix normalized "did:")
        || ltb 2048 (text_length normalized)
        || any is_space (codes normalized))
      value_error (ok normalized)

pub record HolderKeyMetadata : Type 0 where
  pub key_reference : String
  pub holder_did : String
  pub verification_method : String
  pub algorithm : String

-- `HolderKeyMetadata.__post_init__`
unfoldable pub check_holder_key : HolderKeyMetadata → Result HolderKeyMetadata
check_holder_key m = then_result (validate_key_reference m.key_reference) λ _.
    then_result (validate_holder_did m.holder_did) λ _.
      fail_if
        (not (has_prefix m.verification_method (append m.holder_did "#"))
          || ltb 4096 (text_length m.verification_method))
        value_error (fail_if (not (m.algorithm == "Ed25519")) value_error (ok m))
