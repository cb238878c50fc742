-- ===== src/Identity/Keys/Service/Audit.antt =====
-- `_ManagedKeyAudit`, `_audit_id` and `_reason_code`
-- (services/identity-service/app/application/services/managed_key_service.py), with the construction
-- of `AuditEvent` (app/domain/persistence.py) and of its pending outbox record
-- (app/domain/audit_outbox.py). The names of the metadata are fixed and pass the checks on names.
use Prim.Native.Char.{code}
use Prim.Native.String.{◌++◌ as append}
use secure_ssi_platform.Prelude.{
  ℕ, String, Bool, ◌||◌, not, Option, none, some, [], ◌∷◌, ◌++◌, ltb, any, is_empty, strip,
  text_length, text_take, concat, print_nat, if◌then◌else◌,
}
use secure_ssi_platform.Prelude.Dict.{Dict}
use secure_ssi_platform.Identity.Failures.{
  Result, Exec, ok, fail_if, pure, raise, lift, catch, ◌>>=◌, ◌>>◌, value_error,
  is_repository_error,
}
use secure_ssi_platform.Identity.Library.{Library}
use secure_ssi_platform.Identity.Keys.States.{
  ManagedKeyState, state_value, purpose_value, algorithm_value,
}
use secure_ssi_platform.Identity.Keys.Checks.{is_object_id}
use secure_ssi_platform.Identity.Keys.Record.{ManagedKey}
use secure_ssi_platform.Identity.Keys.Environment.{
  World, AuditEvent, AuditEventType, AuditDelivery, elsewhere, managed_key_requested,
  provider_key_created, managed_key_activated, managed_key_creation_failed, key_rotation_requested,
  successor_key_created, key_rotation_completed, key_rotation_failed, managed_key_suspended,
  managed_key_resumed, managed_key_compromised, managed_key_revoked, key_destruction_scheduled,
  key_destruction_cancelled, managed_key_destroyed, key_provider_mismatch,
  key_reconciliation_claimed, key_reconciliation_completed, key_reconciliation_failed,
  unauthorized_key_access, managed_key_signing_rejected,
}

abbrev audit_value : AuditEventType → String
audit_value managed_key_requested = "MANAGED_KEY_REQUESTED"
audit_value provider_key_created = "PROVIDER_KEY_CREATED"
audit_value managed_key_activated = "MANAGED_KEY_ACTIVATED"
audit_value managed_key_creation_failed = "MANAGED_KEY_CREATION_FAILED"
audit_value key_rotation_requested = "KEY_ROTATION_REQUESTED"
audit_value successor_key_created = "SUCCESSOR_KEY_CREATED"
audit_value key_rotation_completed = "KEY_ROTATION_COMPLETED"
audit_value key_rotation_failed = "KEY_ROTATION_FAILED"
audit_value managed_key_suspended = "MANAGED_KEY_SUSPENDED"
audit_value managed_key_resumed = "MANAGED_KEY_RESUMED"
audit_value managed_key_compromised = "MANAGED_KEY_COMPROMISED"
audit_value managed_key_revoked = "MANAGED_KEY_REVOKED"
audit_value key_destruction_scheduled = "KEY_DESTRUCTION_SCHEDULED"
audit_value key_destruction_cancelled = "KEY_DESTRUCTION_CANCELLED"
audit_value managed_key_destroyed = "MANAGED_KEY_DESTROYED"
audit_value key_provider_mismatch = "KEY_PROVIDER_MISMATCH"
audit_value key_reconciliation_claimed = "KEY_RECONCILIATION_CLAIMED"
audit_value key_reconciliation_completed = "KEY_RECONCILIATION_COMPLETED"
audit_value key_reconciliation_failed = "KEY_RECONCILIATION_FAILED"
audit_value unauthorized_key_access = "UNAUTHORIZED_KEY_ACCESS"
audit_value managed_key_signing_rejected = "MANAGED_KEY_SIGNING_REJECTED"

-- `_audit_id`
unfoldable pub audit_id : Library → AuditEventType → String → String → String → String
audit_id lib t key_id actor_id discriminator = text_take 24 (
    lib.sha256_hex
      (concat (audit_value t ∷ "\0" ∷ key_id ∷ "\0" ∷ actor_id ∷ "\0" ∷ discriminator ∷ [])))

-- `"".join(character if character.isalnum() else "_" …)`
abbrev underscored : (ℕ → Bool) → String → String
underscored test String.[] = String.[]
underscored test (String.◌∷◌ c s) =
    append (if test (code c) then String.◌∷◌ c String.[] else "_") (underscored test s)

-- `_reason_code`
unfoldable pub reason_code : Library → String → String
reason_code lib value =
    let short = text_take 64 (underscored lib.is_alnum (lib.upper (strip value))) in
    if is_empty short then "UNSPECIFIED" else short

abbrev optional_entry : String → Option String → Dict String String
optional_entry name none = []
optional_entry name (some v) = (name, v) ∷ []

abbrev optional_state : Option ManagedKeyState → Option String
optional_state none = none
optional_state (some s) = some (state_value s)

abbrev optional_reason : Library → Option String → Option String
optional_reason lib none = none
optional_reason lib (some r) = some (reason_code lib r)

abbrev audit_metadata :
    Library → ManagedKey → Option ManagedKeyState → Option String → Dict String String
audit_metadata lib key old reason =
    (("walletId", key.wallet_id)
      ∷ ("ownerUserId", key.owner_user_id)
      ∷ ("holderDid", key.holder_did)
      ∷ ("provider", key.provider)
      ∷ ("algorithm", algorithm_value key.algorithm)
      ∷ ("purpose", purpose_value key.purpose)
      ∷ ("newState", state_value key.state)
      ∷ [])
    ++ (optional_entry "oldState" (optional_state old)
        ++ optional_entry "reasonCode" (optional_reason lib reason))

-- Empty but for spaces, or longer than `maximum`.
abbrev bad_text : ℕ → String → Bool
bad_text maximum s = is_empty (strip s) || ltb maximum (text_length s)

-- `AuditEvent.__post_init__`
unfoldable pub check_audit_event : AuditEvent → Result AuditEvent
check_audit_event e = fail_if (not (is_object_id e.id)) value_error (
    fail_if
      (bad_text 2048 e.subject_id || bad_text 2048 e.actor_id || bad_text 200 e.correlation_id)
      value_error
      (fail_if (any (λ (p : String × String). ltb 500 (text_length p.1)) e.metadata) value_error
        (ok e)))

-- `AuditOutboxRecord.pending`: what its `__post_init__` asks of the aggregate.
abbrev check_outbox : AuditEvent → Result AuditEvent
check_outbox e = fail_if (bad_text 2048 e.subject_id) value_error (ok e)

module _ {S O : Type 0} (lib : Library) (delivery : AuditDelivery O) where
  -- `_ManagedKeyAudit.record`
  unfoldable pub record_event :
      AuditEventType
      → ManagedKey
      → String
      → String
      → ℕ
      → Option ManagedKeyState
      → Option String
      → Exec (World S O) (Unit {0})
  unfolding audit_id reason_code check_audit_event
  record_event t key actor_id correlation_id at old reason = do
    event ← lift (
        check_audit_event (record {
          id = audit_id lib t key.key_id actor_id (concat (print_nat key.version ∷ ":" ∷ []));
          event_type = t;
          subject_id = key.key_id;
          actor_id = actor_id;
          correlation_id = correlation_id;
          metadata = audit_metadata lib key old reason;
          created_at = at;
        }))
    catch
        (do
          pending ← lift (check_outbox event)
          elsewhere (delivery.ensure pending)
          delivered ← elsewhere (delivery.deliver_event event.id)
          pure tt)
        (λ e. if is_repository_error e then pure tt else raise e)
