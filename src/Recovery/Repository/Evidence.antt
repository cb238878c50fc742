-- ===== src/Recovery/Repository/Evidence.antt =====
-- The methods of `MemoryRecoveryRepository` on approvals, shares and audit events
-- (services/recovery-service/app/infrastructure/persistence/memory_repository.py).
use secure_ssi_platform.Prelude.{
  ℕ, String, Bool, true, false, ◌&&◌, not, Option, none, some, List, [], ◌∷◌, leb, filter, sort_by,
  if◌then◌else◌,
}
use secure_ssi_platform.Prelude.Equality.{
  ◌==◌, option_beq, nat_equality, text_equality, pair_equality,
}
use secure_ssi_platform.Prelude.Dict.{values, lookup, insert}
use secure_ssi_platform.Recovery.Monad.{RecoveryError, ok, err, Exec}
use secure_ssi_platform.Recovery.Domain.States.{decision_equality, event_type_equality}
use secure_ssi_platform.Recovery.Domain.Records.{RecoveryApproval, ShareMetadata, AuditEvent}
use secure_ssi_platform.Recovery.Repository.State.{Repository, ShareKey}

-- The three fields by which a decision is the same decision again.
abbrev pub same_decision : RecoveryApproval → RecoveryApproval → Bool
same_decision old new =
    old.decision == new.decision
    && old.challenge_digest == new.challenge_digest
    && option_beq old.proof_digest new.proof_digest

abbrev pub approval_key : RecoveryApproval → String × String
approval_key a = (a.request_id, a.guardian_id)

abbrev pub store_approval :
    Option RecoveryApproval → RecoveryApproval → Exec Repository (RecoveryApproval × Bool)
store_approval none a r =
    (ok (a, true), record r { approvals = insert (approval_key a) a r.approvals })
store_approval (some old) a r =
    if same_decision old a then (ok (old, false), r) else (err RecoveryError.conflict, r)

unfoldable pub add_approval_idempotently :
    RecoveryApproval → Exec Repository (RecoveryApproval × Bool)
add_approval_idempotently a r = store_approval (lookup (approval_key a) r.approvals) a r

unfoldable pub list_approvals : String → Exec Repository (List RecoveryApproval)
list_approvals request_id r = (
  ok (
      sort_by (λ a b. leb a.decided_at b.decided_at)
        (filter (λ a. a.request_id == request_id) (values r.approvals))),
  r,
)

-- `existing != share`, field by field
abbrev pub same_share : ShareMetadata → ShareMetadata → Bool
same_share a b =
    a.share_id == b.share_id
    && a.recovery_request_id == b.recovery_request_id
    && a.policy_id == b.policy_id
    && a.policy_version == b.policy_version
    && a.share_version == b.share_version
    && a.guardian_id == b.guardian_id
    && a.share_index == b.share_index
    && a.threshold == b.threshold
    && a.share_count == b.share_count
    && a.envelope_version == b.envelope_version
    && a.integrity_digest == b.integrity_digest
    && a.encrypted_envelope == b.encrypted_envelope
    && a.created_at == b.created_at

abbrev pub share_key : ShareMetadata → ShareKey
share_key s = (s.policy_id, (s.policy_version, (s.share_version, s.guardian_id)))

abbrev pub share_clash : Option ShareMetadata → ShareMetadata → Bool
share_clash none s = false
share_clash (some old) s = not (same_share old s)

-- A clash stops the loop, and the shares before it stay.
unfoldable pub save_share_set : List ShareMetadata → Exec Repository (Unit {0})
save_share_set [] r = (ok tt, r)
save_share_set (s ∷ ss) r =
    let next = save_share_set ss (record r { shares = insert (share_key s) s r.shares }) in
    if share_clash (lookup (share_key s) r.shares) s then (err RecoveryError.conflict, r) else next

unfoldable pub get_share : String → ℕ → ℕ → String → Exec Repository (Option ShareMetadata)
get_share policy_id policy_version share_version guardian_id r =
    (ok (lookup (policy_id, (policy_version, (share_version, guardian_id))) r.shares), r)

abbrev pub same_metadata : List (String × String) → List (String × String) → Bool
same_metadata [] [] = true
same_metadata ((k, v) ∷ a) ((j, w) ∷ b) = k == j && v == w && same_metadata a b
same_metadata _ _ = false

-- `existing != event`, field by field; the metadata of one type of event has one order of keys
abbrev pub same_event : AuditEvent → AuditEvent → Bool
same_event a b =
    a.event_id == b.event_id
    && a.event_type == b.event_type
    && a.aggregate_id == b.aggregate_id
    && a.actor_id == b.actor_id
    && a.occurred_at == b.occurred_at
    && same_metadata a.metadata b.metadata

abbrev pub event_clash : Option AuditEvent → AuditEvent → Bool
event_clash none e = false
event_clash (some old) e = not (same_event old e)

unfoldable pub append_audit_idempotently : AuditEvent → Exec Repository (Unit {0})
append_audit_idempotently e r =
    if event_clash (lookup e.event_id r.audit_events) e
    then (err RecoveryError.conflict, r)
    else (ok tt, record r { audit_events = insert e.event_id e r.audit_events })

unfoldable pub list_audit_events : String → Exec Repository (List AuditEvent)
list_audit_events aggregate_id r = (
  ok (
      sort_by (λ a b. leb a.occurred_at b.occurred_at)
        (filter (λ e. e.aggregate_id == aggregate_id) (values r.audit_events))),
  r,
)
