-- ===== src/Recovery/Service/Creation.antt =====
-- `create_request` of `RecoveryService`, with the cooldown that it asks for, the reading methods, and
-- `cancel` (services/recovery-service/app/application/services/recovery_service.py).
use secure_ssi_platform.Prelude.{
  ℕ, ◌+◌, String, Bool, false, ◌&&◌, ◌||◌, not, Option, none, some, List, [], ◌∷◌, ◌++◌, map, ltb,
  leb, any, filter, length, take, sort_by, is_some, print_nat, text_le, if◌then◌else◌,
}
use secure_ssi_platform.Prelude.Equality.{◌==◌, contains, text_equality}
use secure_ssi_platform.Prelude.Dict.{Dict, values, insert}
use secure_ssi_platform.Prelude.Integers.{magnitude}
use secure_ssi_platform.Recovery.Monad.{
  ok, RecoveryError, Result, then_result, Exec, pure, lift, or_raise, raise_if, ◌>>=◌, ◌>>◌,
}
use secure_ssi_platform.Recovery.Domain.States.{
  RecoveryState, RecoveryReason, RecoveryOperation, active, status_equality, state_equality,
  terminal, pending_approvals, cancelled, executing, reconciliation_required, reason_value,
  requested, request_cancelled,
}
use secure_ssi_platform.Recovery.Domain.Guardians.{Guardian, RecoveryPolicy, seconds}
use secure_ssi_platform.Recovery.Domain.Requests.{
  PolicySnapshot, RecoverySession, RecoveryRequest, check_snapshot, check_challenge, check_quorum,
  check_session, check_request, transition,
}
use secure_ssi_platform.Recovery.Domain.Auth.{
  Principal, require, request_create, request_read, request_cancel,
}
use secure_ssi_platform.Recovery.Repository.Guardians as Guards
use secure_ssi_platform.Recovery.Repository.Requests as Store
use secure_ssi_platform.Recovery.Repository.Evidence.{save_share_set}
use secure_ssi_platform.Recovery.Environment.{
  Environment, World, external, atomic, now, new_id, increment, cancellations, requests,
}
use secure_ssi_platform.Recovery.Service.Audit.{audit}
use secure_ssi_platform.Recovery.Service.Policies.{create_default_policy}

abbrev later_of : ℕ → Option ℕ → Option ℕ
later_of t none = some t
later_of t (some u) = some (if ltb u t then t else u)

-- `max((item.updated_at for item in items), default=None)`
unfoldable pub latest : List RecoveryRequest → Option ℕ
latest [] = none
latest (q ∷ qs) = later_of q.updated_at (latest qs)

-- `latest is not None and now < latest + timedelta(seconds=policy.cooldown_seconds)`
abbrev pub cooling : Option ℕ → ℕ → ℕ → Bool
cooling none at cooldown = false
cooling (some t) at cooldown = ltb at (t + seconds cooldown)

-- The requests that a cooldown is counted from.
abbrev pub is_over : RecoveryPolicy → RecoveryRequest → Bool
is_over p q = q.wallet_id == p.wallet_id && terminal q.session.state

abbrev requests_by_id :
    List RecoveryRequest → Dict String RecoveryRequest → Dict String RecoveryRequest
requests_by_id [] d = d
requests_by_id (q ∷ qs) d = requests_by_id qs (insert q.request_id q d)

-- The active guardians of a wallet in the order of their ids.
unfoldable pub active_sorted : List Guardian → List Guardian
active_sorted gs =
    sort_by (λ a b. text_le a.guardian_id b.guardian_id) (filter (λ g. g.status == active) gs)

-- The snapshot of a policy that a request carries.
abbrev pub snapshot : RecoveryPolicy → List Guardian → String → PolicySnapshot
snapshot p guardians commitment = record {
  policy_id = p.policy_id;
  policy_version = p.version;
  minimum_approvals = p.minimum_approvals;
  maximum_guardians = p.maximum_guardians;
  approval_window_seconds = p.approval_window_seconds;
  time_lock_seconds = magnitude p.time_lock_seconds;
  recovery_expiration_seconds = p.recovery_expiration_seconds;
  maximum_attempts = p.maximum_attempts;
  allow_cancellation = p.allow_cancellation;
  guardian_ids = map (λ g. g.guardian_id) guardians;
  share_version = 1;
  secret_commitment = commitment;
}

-- The session with which a request starts.
abbrev pub fresh_session : RecoveryPolicy → String → ℕ → RecoverySession
fresh_session p session_id at = record {
  session_id = session_id;
  state = pending_approvals;
  created_at = at;
  updated_at = at;
  approval_expires_at = at + seconds p.approval_window_seconds;
  expires_at = at + seconds p.recovery_expiration_seconds;
  quorum = record {
    required = p.minimum_approvals;
    approvals = 0;
    rejections = 0;
    reached_at = none;
  };
  attempt_count = 0;
  quorum_reached_at = none;
  time_lock_started_at = none;
  executable_after = none;
  lease = none;
  result = none;
  failure = none;
}

abbrev pub reads : Principal → List Guardian → RecoveryRequest → Bool
reads p guardians q =
    q.owner_user_id == p.user_id
    || any (λ g. g.guardian_user_id == p.user_id && contains g.guardian_id q.policy.guardian_ids)
        guardians

abbrev pub owned_by : Principal → Option RecoveryRequest → Option RecoveryRequest
owned_by p none = none
owned_by p (some q) = if q.owner_user_id == p.user_id then some q else none

-- Too late to cancel: execution has begun, or the request is over.
abbrev pub past_cancelling : RecoveryState → Bool
past_cancelling s = s == executing || s == reconciliation_required || terminal s

module _ (env : Environment) where
  -- `_require_cooldown_elapsed`
  unfoldable pub require_cooldown_elapsed : RecoveryPolicy → ℕ → Exec World (Unit {0})
  require_cooldown_elapsed policy at = do
    owned ← atomic env (Store.list_requests (some policy.owner_user_id) none 100)
    raise_if
        (cooling (latest (filter (is_over policy) owned)) at (magnitude policy.cooldown_seconds))
        RecoveryError.conflict

  abbrev pub policy_or_default :
      Principal → String → Option RecoveryPolicy → Exec World RecoveryPolicy
  policy_or_default principal wallet_id none = create_default_policy env principal wallet_id
  policy_or_default principal wallet_id (some p) = pure p

  -- The parts of a new request, checked in the order in which the code constructs them.
  unfoldable pub build_request :
      Principal
      → String
      → RecoveryReason
      → RecoveryPolicy
      → List Guardian
      → String
      → String
      → String
      → String
      → String
      → ℕ
      → Result RecoveryRequest
  unfolding check_snapshot check_challenge check_quorum check_session check_request
  build_request principal wallet_id reason p guardians id session_id commitment challenge nonce at =
      then_result (check_snapshot (snapshot p guardians commitment)) λ terms.
        then_result
          (check_challenge (record { value = challenge; digest = env.sha256_hex challenge }))
          λ c.
            then_result (check_challenge (record { value = nonce; digest = env.sha256_hex nonce }))
              λ n. then_result (check_quorum (fresh_session p session_id at).quorum) λ quorum.
                then_result (check_session (fresh_session p session_id at)) λ session.
                  check_request (record {
                    request_id = id;
                    owner_user_id = principal.user_id;
                    wallet_id = wallet_id;
                    reason = reason;
                    operation = RecoveryOperation.managed_key_rotation;
                    policy = terms;
                    challenge = c;
                    nonce = n;
                    session = session;
                    created_at = at;
                    updated_at = at;
                    version = 1;
                  })

  unfoldable pub create_request : Principal → String → RecoveryReason → Exec World RecoveryRequest
  create_request principal wallet_id reason = do
    lift (require principal request_create)
    external (λ n. env.verify_wallet_owner n wallet_id principal.user_id)
    running ← atomic env (Store.get_active_request wallet_id)
    raise_if (is_some running) RecoveryError.conflict
    found ← atomic env (Guards.get_policy wallet_id)
    policy ← policy_or_default principal wallet_id found
    raise_if (not (policy.owner_user_id == principal.user_id)) RecoveryError.not_found
    at ← now env
    require_cooldown_elapsed policy at
    listed ← atomic env (Guards.list_guardians (some wallet_id) none none)
    let guardians = active_sorted listed
    raise_if
        (not (
          leb policy.minimum_approvals (length guardians)
          && leb (length guardians) policy.maximum_guardians))
        RecoveryError.conflict
    request_id ← new_id env "recovery"
    session_id ← new_id env "session"
    secret ← external (λ n. ok (env.token_bytes n))
    split ← external (λ n.
        env.secret_sharing.split n secret policy.minimum_approvals
          (map (λ g. g.guardian_id) guardians)
          (record {
            recovery_request_id = request_id;
            policy_id = policy.policy_id;
            policy_version = policy.version;
            share_version = 1;
          })
          at)
    challenge ← external (λ n. ok (env.token_urlsafe n))
    nonce ← external (λ n. ok (env.token_urlsafe n))
    request ← lift (
        build_request principal wallet_id reason policy guardians request_id session_id
          split.commitment challenge nonce at)
    atomic env (save_share_set split.shares)
    stored ← atomic env (Store.add_request request)
    audit env requested stored.request_id principal.user_id at (print_nat stored.version) (
        ("walletId", wallet_id)
        ∷ ("reason", reason_value reason)
        ∷ ("threshold", print_nat request.policy.minimum_approvals)
        ∷ ("guardianCount", print_nat (length request.policy.guardian_ids))
        ∷ [])
    increment requests
    pure stored

  -- `get_request`, with `_can_read`: the guardians are listed only if the caller is not the owner.
  unfoldable pub get_request : Principal → String → Exec World RecoveryRequest
  get_request principal request_id = do
    lift (require principal request_read)
    found ← atomic env (Store.get_request request_id)
    request ← or_raise found RecoveryError.not_found
    if request.owner_user_id == principal.user_id then pure request else do
      guardians ← atomic env (Guards.list_guardians none none (some principal.user_id))
      raise_if (not (reads principal guardians request)) RecoveryError.not_found
      pure request

  unfoldable pub list_requests : Principal → ℕ → Exec World (List RecoveryRequest)
  list_requests principal limit = do
    lift (require principal request_read)
    owned ← atomic env (Store.list_requests (some principal.user_id) none limit)
    assigned ← atomic env (Store.list_requests none (some principal.user_id) limit)
    pure (
        take limit (
          sort_by (λ a b. leb b.created_at a.created_at)
            (values (requests_by_id (owned ++ assigned) []))))

  -- `cancel` after it has found the request.
  unfoldable pub cancel_found : Principal → String → RecoveryRequest → Exec World RecoveryRequest
  cancel_found principal request_id request =
      if request.session.state == cancelled then pure request else do
        raise_if (not request.policy.allow_cancellation) RecoveryError.conflict
        raise_if (past_cancelling request.session.state) RecoveryError.conflict
        at ← now env
        next ← lift (transition request cancelled at (λ s. s))
        stored ← atomic env (Store.update_request next request.version)
        audit env request_cancelled request_id principal.user_id at (print_nat stored.version)
            (("walletId", stored.wallet_id) ∷ [])
        increment cancellations
        pure stored

  unfoldable pub cancel : Principal → String → Exec World RecoveryRequest
  unfolding cancel_found
  cancel principal request_id = do
    lift (require principal request_cancel)
    found ← atomic env (Store.get_request request_id)
    request ← or_raise (owned_by principal found) RecoveryError.not_found
    cancel_found principal request_id request
