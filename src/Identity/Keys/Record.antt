-- ===== src/Identity/Keys/Record.antt =====
-- `ManagedKey` of services/identity-service/app/domain/managed_key.py: its fields, `__post_init__`,
-- the tests of whether it may sign, and `transition`. An aware time is a number of whole seconds, and
-- `reconciliation_attempts` is a count.
use secure_ssi_platform.Prelude.{
  ℕ, ◌+◌, String, Bool, true, ◌&&◌, ◌||◌, not, Option, none, some, ltb, leb, is_none, is_some,
  or_else, strip, text_length, text_take, has_prefix, if◌then◌else◌,
}
use secure_ssi_platform.Prelude.Equality.{◌==◌, contains, text_equality}
use secure_ssi_platform.Identity.Failures.{
  Result, ok, err, fail_if, then_result, value_error, signing_rejected, invalid_transition,
}
use secure_ssi_platform.Identity.Library.{Library}
use secure_ssi_platform.Identity.Keys.States.{
  ManagedKeyState, KeyPurpose, KeyAlgorithm, pending, active, rotating, suspended, compromised,
  revoked, destroy_pending, destroyed, failed, key_state_equality, purpose_equality,
  algorithm_equality, valid_key_transitions, is_provisioned_state,
}
use secure_ssi_platform.Identity.Keys.Checks.{
  is_object_id, is_key_id, is_fingerprint, validate_name, validate_reference,
  validate_public_metadata, safe_reason_code,
}

pub record ManagedKey : Type 0 where
  pub id : String
  pub key_id : String
  pub wallet_id : String
  pub owner_user_id : String
  pub holder_did : String
  pub provider : String
  pub provider_key_reference : Option String
  pub algorithm : KeyAlgorithm
  pub purpose : KeyPurpose
  pub key_version : ℕ
  pub state : ManagedKeyState
  pub public_key_multibase : Option String
  pub fingerprint : Option String
  pub verification_method : Option String
  pub created_at : Option ℕ
  pub updated_at : Option ℕ
  pub activated_at : Option ℕ
  pub rotated_at : Option ℕ
  pub suspended_at : Option ℕ
  pub revoked_at : Option ℕ
  pub destroyed_at : Option ℕ
  pub destruction_scheduled_at : Option ℕ
  pub expires_at : Option ℕ
  pub predecessor_key_id : Option String
  pub successor_key_id : Option String
  pub compromise_reason : Option String
  pub idempotency_key_hash : Option String
  pub reconciliation_attempts : ℕ
  pub reconciliation_lease_until : Option ℕ
  pub last_provider_sync_at : Option ℕ
  pub failure_code : Option String
  pub version : ℕ

-- `updated_at < created_at`, or one of them missing
abbrev bad_times : Option ℕ → Option ℕ → Bool
bad_times (some created) (some updated) = ltb updated created
bad_times _ _ = true

-- The public metadata is missing as a whole, or complete and consistent.
unfoldable pub check_public : Library → ManagedKey → Result (Unit {0})
check_public lib k =
    if is_some k.public_key_multibase || is_some k.fingerprint || is_some k.verification_method
    then fail_if
        (is_none k.public_key_multibase || is_none k.fingerprint || is_none k.verification_method)
        value_error
        (validate_public_metadata lib (or_else k.public_key_multibase "") (or_else k.fingerprint "")
          k.holder_did (or_else k.verification_method ""))
    else ok tt

-- A check on an optional field that is made only if the field is there.
abbrev check_some : (String → Result (Unit {0})) → Option String → Result (Unit {0})
check_some check none = ok tt
check_some check (some s) = check s

-- What the state asks of the other fields.
unfoldable pub check_state : ManagedKey → Result (Unit {0})
check_state k =
    fail_if
      (is_provisioned_state k.state
        && (is_none k.provider_key_reference || is_none k.public_key_multibase))
      value_error
      (fail_if (k.state == destroyed && is_none k.destroyed_at) value_error (
        fail_if (k.state == destroy_pending && is_none k.destruction_scheduled_at) value_error
          (ok tt)))

-- `ManagedKey.__post_init__`
unfoldable pub check_key : Library → ManagedKey → Result ManagedKey
check_key lib k = fail_if (not (is_object_id k.id)) value_error (
    fail_if (not (is_key_id k.key_id)) value_error (
      then_result (validate_name 100 k.wallet_id) λ _.
        then_result (validate_name 200 k.owner_user_id) λ _.
          then_result (validate_name 2048 k.holder_did) λ _.
            fail_if (not (has_prefix k.holder_did "did:")) value_error (
              then_result (validate_name 100 k.provider) λ _.
                then_result (check_some validate_reference k.provider_key_reference) λ _.
                  fail_if (ltb k.key_version 1 || ltb k.version 1) value_error (
                    fail_if (bad_times k.created_at k.updated_at) value_error (
                      then_result (check_public lib k) λ _. then_result (check_state k) λ _.
                        then_result
                          (check_some (λ h. fail_if (not (is_fingerprint h)) value_error (ok tt))
                            k.idempotency_key_hash)
                          λ _. ok k)))))

-- `ManagedKey.can_sign`
unfoldable pub can_sign : ManagedKey → Bool
can_sign k = k.state == active && is_some k.provider_key_reference && is_some k.public_key_multibase

-- `ManagedKey.require_signing`
unfoldable pub require_signing : ManagedKey → KeyPurpose → KeyAlgorithm → Result (Unit {0})
require_signing k purpose algorithm = fail_if (not (k.state == active)) signing_rejected (
    fail_if (not (k.purpose == purpose)) signing_rejected
      (fail_if (not (k.algorithm == algorithm)) signing_rejected (ok tt)))

-- The key in its new state, before the fields that the state sets.
abbrev pub moved : ManagedKey → ManagedKeyState → ℕ → ManagedKey
moved k s at = record k { state = s; updated_at = some at; version = k.version + 1 }

-- A destruction time that is missing or not after the transition is refused.
abbrev scheduled : ManagedKey → ℕ → Option ℕ → Result ManagedKey
scheduled k at none = err value_error
scheduled k at (some t) =
    fail_if (leb t at) value_error
      (ok (record (moved k destroy_pending at) { destruction_scheduled_at = some t }))

-- `changes`, applied: what a transition sets for its new state.
unfoldable pub changes :
    Library → ManagedKey → ManagedKeyState → ℕ → Option String → Option ℕ → Result ManagedKey
changes lib k pending at reason schedule = ok (moved k pending at)
changes lib k active at reason schedule = ok (record (moved k active at) {
  activated_at = some (or_else k.activated_at at);
  suspended_at = none;
  destruction_scheduled_at = none;
})
changes lib k rotating at reason schedule =
    ok (record (moved k rotating at) { rotated_at = some at })
changes lib k suspended at reason schedule =
    ok (record (moved k suspended at) { suspended_at = some at })
changes lib k compromised at reason schedule =
    let normalized = strip (or_else reason "") in
    fail_if (ltb (text_length normalized) 8) value_error
      (ok (record (moved k compromised at) { compromise_reason = some (text_take 500 normalized) }))
changes lib k revoked at reason schedule =
    ok (record (moved k revoked at) { revoked_at = some at; destruction_scheduled_at = none })
changes lib k destroy_pending at reason schedule = scheduled k at schedule
changes lib k destroyed at reason schedule =
    ok (record (moved k destroyed at) { destroyed_at = some at })
changes lib k failed at reason schedule =
    ok (record (moved k failed at) { failure_code = some (safe_reason_code lib reason) })

-- `ManagedKey.transition`
unfoldable pub transition :
    Library → ManagedKey → ManagedKeyState → ℕ → Option String → Option ℕ → Result ManagedKey
unfolding changes
transition lib k s at reason schedule =
    if s == k.state
    then ok k
    else fail_if (not (contains s (valid_key_transitions k.state))) invalid_transition
        (then_result (changes lib k s at reason schedule) (check_key lib))
