-- ===== src/Recovery/Repository/Requests.antt =====
-- The methods of `MemoryRecoveryRepository` on recovery requests
-- (services/recovery-service/app/infrastructure/persistence/memory_repository.py).
use secure_ssi_platform.Prelude.{
  ℕ, String, Bool, true, false, ◌&&◌, ◌||◌, not, Option, none, some, List, leb, any, filter, find,
  take, sort_by, is_some, if◌then◌else◌,
}
use secure_ssi_platform.Prelude.Equality.{◌==◌, contains, none_or_eq, nat_equality, text_equality}
use secure_ssi_platform.Prelude.Dict.{values, lookup, insert}
use secure_ssi_platform.Recovery.Monad.{RecoveryError, ok, err, Exec}
use secure_ssi_platform.Recovery.Domain.States.{terminal}
use secure_ssi_platform.Recovery.Domain.Guardians.{Guardian}
use secure_ssi_platform.Recovery.Domain.Requests.{RecoveryRequest}
use secure_ssi_platform.Recovery.Repository.State.{Repository}

-- A request of the wallet that is not over.
abbrev pub is_active_for : String → RecoveryRequest → Bool
is_active_for wallet_id q = q.wallet_id == wallet_id && not (terminal q.session.state)

unfoldable pub active_request : String → Repository → Option RecoveryRequest
active_request wallet_id r = find (is_active_for wallet_id) (values r.requests)

unfoldable pub get_active_request : String → Exec Repository (Option RecoveryRequest)
unfolding active_request
get_active_request wallet_id r = (ok (active_request wallet_id r), r)

unfoldable pub add_request : RecoveryRequest → Exec Repository RecoveryRequest
add_request q r =
    if is_some (lookup q.request_id r.requests) || is_some (active_request q.wallet_id r)
    then (err RecoveryError.conflict, r)
    else (ok q, record r { requests = insert q.request_id q r.requests })

unfoldable pub get_request : String → Exec Repository (Option RecoveryRequest)
get_request request_id r = (ok (lookup request_id r.requests), r)

-- `bool(set(item.policy.guardian_ids) & assigned_ids)`, or no guardian was given
abbrev assigned_to : Option String → List Guardian → RecoveryRequest → Bool
assigned_to none guardians q = true
assigned_to (some user) guardians q =
    any (λ g. g.guardian_user_id == user && contains g.guardian_id q.policy.guardian_ids) guardians

-- `states` is never given by the service.
unfoldable pub list_requests :
    Option String → Option String → ℕ → Exec Repository (List RecoveryRequest)
list_requests owner_user_id guardian_user_id limit r = (
  ok (
      take limit (
        sort_by (λ a b. leb b.created_at a.created_at)
          (filter
            (λ q.
              none_or_eq owner_user_id q.owner_user_id
              && assigned_to guardian_user_id (values r.guardians) q)
            (values r.requests)))),
  r,
)

-- `existing is None or existing.version != expected_version`
abbrev pub request_stale : Option RecoveryRequest → ℕ → Bool
request_stale none expected = true
request_stale (some q) expected = not (q.version == expected)

unfoldable pub update_request : RecoveryRequest → ℕ → Exec Repository RecoveryRequest
update_request q expected_version r =
    if request_stale (lookup q.request_id r.requests) expected_version
    then (err RecoveryError.conflict, r)
    else (ok q, record r { requests = insert q.request_id q r.requests })

abbrev reached : Option ℕ → ℕ → Bool
reached none now = false
reached (some t) now = leb t now

-- The test of `list_reconciliation_candidates`
abbrev pub is_candidate : ℕ → ℕ → RecoveryRequest → Bool
is_candidate now stale_before q =
    not (terminal q.session.state)
    && (leb q.session.expires_at now
        || leb q.session.updated_at stale_before
        || reached q.session.executable_after now)

unfoldable pub list_reconciliation_candidates : ℕ → ℕ → ℕ → Exec Repository (List RecoveryRequest)
list_reconciliation_candidates now stale_before limit r = (
  ok (
      take limit (
        sort_by (λ a b. leb a.updated_at b.updated_at)
          (filter (is_candidate now stale_before) (values r.requests)))),
  r,
)
