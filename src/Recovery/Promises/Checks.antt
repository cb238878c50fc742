-- ===== src/Recovery/Promises/Checks.antt =====
-- The promises of the domain and of the repository at concrete values
-- (services/recovery-service/app/domain, services/recovery-service/app/infrastructure/persistence).
use secure_ssi_platform.Prelude.{
  ℕ, ◌+◌, ◌<◌, ◌≡◌, ◌↔◌, ◌⊎◌, refl, arith, String, Bool, true, false, ◌||◌, Option, none, some,
  List, [], ◌∷◌, All, if◌then◌else◌, is_empty,
}
use secure_ssi_platform.Prelude.Equality.{contains, text_equality, pair_equality}
use secure_ssi_platform.Prelude.Dict.{lookup, insert}
use secure_ssi_platform.Prelude.Integers.{pos}
use secure_ssi_platform.Recovery.Monad.{RecoveryError, ok, err}
use secure_ssi_platform.Recovery.Domain.States.{
  terminal, transitions, status_transitions, state_equality, status_equality, completed,
  waiting_timelock, active, suspended, device_loss, pending_approvals, RecoveryOperation,
}
use secure_ssi_platform.Recovery.Domain.Guardians.{
  Guardian, RecoveryPolicy, check_guardian, transition_guardian, moved_guardian, check_policy,
}
use secure_ssi_platform.Recovery.Domain.Requests.{
  RecoveryRequest, check_session, check_request, moved, transition,
}
use secure_ssi_platform.Recovery.Domain.Records.{RecoveryApproval, ShareMetadata}
use secure_ssi_platform.Recovery.Domain.Auth.{
  Permission, Principal, from_claims, holder, is_admin, recovery_reconcile, role_equality, granted,
}
use secure_ssi_platform.Recovery.Repository.State.{Repository, empty_repository}
use secure_ssi_platform.Recovery.Repository.Requests.{update_request}
use secure_ssi_platform.Recovery.Repository.Evidence.{add_approval_idempotently, save_share_set}
use secure_ssi_platform.Recovery.Promises.Domain.{
  terminal-transitions, IsBounded, check_policy-IsBounded, transition-table, IsMoved,
  transition_guardian-status, from_claims-permissions,
}
use secure_ssi_platform.Recovery.Promises.Store.{
  update_request-update_request, add_approval-again, save_share_set-get_share, IsStored,
}
use secure_ssi_platform.Recovery.Promises.Sample.{share, no_approval, start-IsSound}

terminal-transitions_example : (terminal completed ≡ true) ↔ (transitions completed ≡ [])
terminal-transitions_example = terminal-transitions completed

abbrev policy : RecoveryPolicy
policy = record {
  policy_id = "policy";
  wallet_id = "wallet";
  owner_user_id = "alice";
  minimum_approvals = 2;
  maximum_guardians = 3;
  approval_window_seconds = 3600;
  time_lock_seconds = pos 60;
  recovery_expiration_seconds = 7200;
  maximum_attempts = 3;
  cooldown_seconds = pos 0;
  allow_cancellation = true;
  allow_self_guardian = false;
  version = 1;
  created_at = 0;
  updated_at = 0;
}

check_policy-IsBounded_example : (check_policy policy ≡ ok policy) ↔ IsBounded policy
check_policy-IsBounded_example = check_policy-IsBounded policy

abbrev guardian : Guardian
guardian = record {
  guardian_id = "guardian";
  owner_user_id = "alice";
  wallet_id = "wallet";
  guardian_user_id = "bob";
  guardian_did = "did:key:bob";
  display_name = "Bob";
  verification_method = "method";
  status = active;
  created_at = 0;
  updated_at = 0;
  version = 1;
  suspended_at = none;
  revoked_at = none;
  removed_at = none;
}

suspends : transition_guardian guardian suspended 5 ≡ ok (moved_guardian guardian suspended 5)
unfolding transition_guardian check_guardian secure_ssi_platform.Prelude.strip
    secure_ssi_platform.Prelude.lstrip secure_ssi_platform.Prelude.rstrip
suspends = refl

transition_guardian-status_example :
    ((moved_guardian guardian suspended 5).status ≡ suspended)
    × ((moved_guardian guardian suspended 5 ≡ guardian)
        ⊎ ((contains suspended (status_transitions active) ≡ true)
            × ((moved_guardian guardian suspended 5).version ≡ 1 + 1)))
transition_guardian-status_example =
    transition_guardian-status guardian suspended 5 (moved_guardian guardian suspended 5) suspends

-- A request that was just created.
abbrev request : RecoveryRequest
request = record {
  request_id = "recovery";
  owner_user_id = "alice";
  wallet_id = "wallet";
  reason = device_loss;
  operation = RecoveryOperation.managed_key_rotation;
  policy = record {
    policy_id = "policy";
    policy_version = 1;
    minimum_approvals = 1;
    maximum_guardians = 3;
    approval_window_seconds = 3600;
    time_lock_seconds = 60;
    recovery_expiration_seconds = 7200;
    maximum_attempts = 3;
    allow_cancellation = true;
    guardian_ids = "guardian" ∷ [];
    share_version = 1;
    secret_commitment = "commitment";
  };
  challenge = record { value = "challenge"; digest = "digest" };
  nonce = record { value = "nonce"; digest = "digest" };
  session = record {
    session_id = "session";
    state = pending_approvals;
    created_at = 0;
    updated_at = 0;
    approval_expires_at = 3600000000;
    expires_at = 7200000000;
    quorum = record { required = 1; approvals = 0; rejections = 0; reached_at = none };
    attempt_count = 0;
    quorum_reached_at = none;
    time_lock_started_at = none;
    executable_after = none;
    lease = none;
    result = none;
    failure = none;
  };
  created_at = 0;
  updated_at = 0;
  version = 1;
}

request_session : check_session request.session ≡ ok request.session
unfolding check_session
request_session = refl

request_checks : check_request request ≡ ok request
unfolding check_request
request_checks = refl

transition-table_example :
    (contains completed (transitions request.session.state) ≡ true
      → (r' : RecoveryRequest) × (transition request completed 5 (λ x. x) ≡ ok r')
        × IsMoved request completed 5 r')
    × (contains completed (transitions request.session.state) ≡ false
        → transition request completed 5 (λ x. x) ≡ err RecoveryError.invalid_state)
transition-table_example = transition-table request completed 5 request_session request_checks

abbrev claimed : Principal
claimed = record { user_id = "alice"; roles = holder ∷ []; permissions = granted (holder ∷ []) }

claims : from_claims "alice" ("holder" ∷ []) ≡ ok claimed
unfolding from_claims
claims = refl

from_claims-permissions_example :
    (claimed.permissions recovery_reconcile ≡ is_admin claimed)
    × ((x : Permission)
        → claimed.permissions x ≡ true
        → (is_admin claimed || contains holder claimed.roles) ≡ true)
from_claims-permissions_example = from_claims-permissions "alice" ("holder" ∷ []) claimed claims

abbrev stored : Repository
stored = record empty_repository { requests = ("recovery", request) ∷ [] }

-- Two writers that have read the same version.
abbrev locked : RecoveryRequest
locked = moved request completed 5 (λ s. s)

abbrev late : RecoveryRequest
late = moved request waiting_timelock 6 (λ s. s)

locks : (update_request locked 1 stored).0 ≡ ok locked
unfolding update_request lookup
locks = refl

update_request-update_request_example :
    update_request late 1 (update_request locked 1 stored).1
    ≡ (err RecoveryError.conflict, (update_request locked 1 stored).1)
update_request-update_request_example =
    update_request-update_request locked late 1 stored refl (omega arith) locks

nothing_yet : lookup ("recovery", "guardian") empty_repository.approvals ≡ none
unfolding lookup
nothing_yet = refl

abbrev later_approval : RecoveryApproval
later_approval = record no_approval { approval_id = "another"; decided_at = 9 }

add_approval-again_example :
    add_approval_idempotently later_approval
      (add_approval_idempotently no_approval empty_repository).1
    ≡ (ok (no_approval, false), (add_approval_idempotently no_approval empty_repository).1)
add_approval-again_example =
    add_approval-again no_approval later_approval empty_repository refl nothing_yet

abbrev shares : List ShareMetadata
shares = share "guardian" ∷ share "other" ∷ []

saves : (save_share_set shares empty_repository).0 ≡ ok tt
unfolding save_share_set lookup insert
saves = refl

save_share_set-get_share_example : All (IsStored (save_share_set shares empty_repository).1) shares
save_share_set-get_share_example =
    save_share_set-get_share shares empty_repository start-IsSound saves
