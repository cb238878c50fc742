-- ===== src/Recovery/Promises/Sample.antt =====
-- A small run of the recovery service: an owner with one guardian, and stand-ins for the clock, the
-- generators, the gateway and the secret sharing of services/recovery-service/app.
use secure_ssi_platform.Prelude.{
  ℕ, ◌*◌, String, Bool, true, false, Option, none, some, List, [], ◌∷◌, map, concat, text_take,
}
use secure_ssi_platform.Prelude.Equality.{text_equality}
use secure_ssi_platform.Prelude.Dict.{lookup}
use secure_ssi_platform.Recovery.Monad.{Result, ok, err}
use secure_ssi_platform.Recovery.Domain.States.{
  RecoveryOperation, device_loss, pending_approvals, ready_for_execution, approve,
}
use secure_ssi_platform.Recovery.Domain.Requests.{RecoveryRequest}
use secure_ssi_platform.Recovery.Domain.Records.{ShareMetadata, RecoveryApproval}
use secure_ssi_platform.Recovery.Domain.Auth.{Principal, Role, admin, holder, granted}
use secure_ssi_platform.Recovery.Repository.State.{empty_repository}
use secure_ssi_platform.Recovery.Environment.{Environment, World, RecoverySettings, SecretSharing}
use secure_ssi_platform.Recovery.Service.Execution.{execute}
use secure_ssi_platform.Recovery.Service.Quorum.{recalculate_quorum}
use secure_ssi_platform.Recovery.Service.Reconciliation.{reconcile_one}
use secure_ssi_platform.Recovery.Service.Decisions.{approve_request, reject_request}
use secure_ssi_platform.Recovery.Service.Creation.{create_request, cancel}
use secure_ssi_platform.Recovery.Service.Calls.{Call, serve, perform}
use secure_ssi_platform.Recovery.Guarantee.Invariant.{IsSound, Evolves-refl}
use secure_ssi_platform.Recovery.Guarantee.Rules.{IsFair}

abbrev pub person : String → Role → Principal
person name role = record { user_id = name; roles = role ∷ []; permissions = granted (role ∷ []) }

abbrev pub alice : Principal
alice = person "alice" holder

abbrev pub bob : Principal
bob = person "bob" holder

abbrev pub root : Principal
root = person "root" admin

abbrev settings : RecoverySettings
settings = record {
  default_minimum_approvals = 1;
  default_maximum_guardians = 3;
  default_approval_window_seconds = 3600;
  default_time_lock_seconds = 1;
  default_expiration_seconds = 7200;
  default_maximum_attempts = 3;
  default_cooldown_seconds = 0;
  reconciliation_batch_size = 10;
  reconciliation_lease_seconds = 300;
  reconciliation_stale_seconds = 600;
}

abbrev pub text_of_32 : String
text_of_32 = "0123456789abcdef0123456789abcdef"

-- The text itself, padded to 64 characters.
abbrev padded : String → String
padded s = text_take 64 (concat (s ∷ text_of_32 ∷ text_of_32 ∷ []))

abbrev pub sixteen : List ℕ
sixteen = 1 ∷ 2 ∷ 3 ∷ 4 ∷ 5 ∷ 6 ∷ 7 ∷ 8 ∷ 9 ∷ 10 ∷ 11 ∷ 12 ∷ 13 ∷ 14 ∷ 15 ∷ 16 ∷ []

abbrev pub share : String → ShareMetadata
share guardian = record {
  share_id = concat ("share:" ∷ guardian ∷ []);
  recovery_request_id = "recovery";
  policy_id = "policy";
  policy_version = 1;
  share_version = 1;
  guardian_id = guardian;
  share_index = 1;
  threshold = 1;
  share_count = 1;
  envelope_version = 1;
  integrity_digest = "digest";
  encrypted_envelope = "envelope";
  created_at = 0;
}

abbrev sharing : SecretSharing
sharing = record {
  split = λ n secret threshold guardians context at.
      ok (record { commitment = "commitment"; shares = map share guardians });
  validate_share = λ s context. ok tt;
  combine = λ shares threshold context commitment. ok sixteen;
}

-- The clock gains a second at each call.
abbrev pub env : Environment
env = record {
  clock = λ n. some (n * 1000000);
  ids = λ prefix n. prefix;
  token_urlsafe = λ n. text_of_32;
  token_bytes = λ n. sixteen;
  sha256_hex = padded;
  verify_wallet_owner = λ n wallet user. ok tt;
  rotate_for_recovery = λ n id wallet user reason. ok (record {
    predecessor_key_id = "key:1";
    successor_key_id = "key:2";
    predecessor_did = "did:key:one";
    successor_did = "did:key:two";
    provider = "local";
  });
  secret_sharing = sharing;
  settings = settings;
  worker_id = "worker";
  others = λ n a. a;
}

pub fair : IsFair env
fair = record { at = λ n a v. (v, Evolves-refl a) }

abbrev pub start : World
start = record {
  repository = empty_repository;
  metrics = record { active_guardians = 0; counters = λ c. 0 };
  tick = 0;
}

pub start-IsSound : IsSound start.repository
unfolding lookup
start-IsSound = record { keyed = λ k q h. cc; grown = λ k q h. cc; single = λ j k p q h. cc }

abbrev pub opening : List Call
opening =
    Call.create_guardian alice "wallet" "bob" "did:key:bob" "Bob" "method"
    ∷ Call.create_request alice "wallet" device_loss
    ∷ []

abbrev pub approving : List Call
approving =
    Call.create_guardian alice "wallet" "bob" "did:key:bob" "Bob" "method"
    ∷ Call.create_request alice "wallet" device_loss
    ∷ Call.approve bob "recovery" "guardian" text_of_32 none
    ∷ []

abbrev pub completing : List Call
completing =
    Call.create_guardian alice "wallet" "bob" "did:key:bob" "Bob" "method"
    ∷ Call.create_request alice "wallet" device_loss
    ∷ Call.approve bob "recovery" "guardian" text_of_32 none
    ∷ Call.reconcile_request root "recovery"
    ∷ []

-- The request of a world.
abbrev pub found : Option RecoveryRequest → RecoveryRequest
found (some q) = q
found none = record {
  request_id = "";
  owner_user_id = "";
  wallet_id = "";
  reason = device_loss;
  operation = RecoveryOperation.managed_key_rotation;
  policy = record {
    policy_id = "";
    policy_version = 0;
    minimum_approvals = 0;
    maximum_guardians = 0;
    approval_window_seconds = 0;
    time_lock_seconds = 0;
    recovery_expiration_seconds = 0;
    maximum_attempts = 0;
    allow_cancellation = true;
    guardian_ids = [];
    share_version = 0;
    secret_commitment = "";
  };
  challenge = record { value = ""; digest = "" };
  nonce = record { value = ""; digest = "" };
  session = record {
    session_id = "";
    state = pending_approvals;
    created_at = 0;
    updated_at = 0;
    approval_expires_at = 0;
    expires_at = 0;
    quorum = record { required = 0; approvals = 0; rejections = 0; reached_at = none };
    attempt_count = 0;
    quorum_reached_at = none;
    time_lock_started_at = none;
    executable_after = none;
    lease = none;
    result = none;
    failure = none;
  };
  created_at = 0;
  updated_at = 0;
  version = 0;
}

abbrev pub request_in : World → RecoveryRequest
request_in w = found (lookup "recovery" w.repository.requests)

-- The world of each run, and its request.
abbrev pub guarded_world : World
guarded_world =
    perform env (Call.create_guardian alice "wallet" "bob" "did:key:bob" "Bob" "method") start

abbrev pub opening_world : World
opening_world = serve env opening start

abbrev pub completing_world : World
completing_world = serve env completing start

abbrev pub opening_request : RecoveryRequest
opening_request = request_in opening_world

abbrev pub completing_request : RecoveryRequest
completing_request = request_in completing_world

-- After the approval, while the request waits for its time-lock.
abbrev pub approved_world : World
approved_world = serve env approving start

abbrev pub approved_request : RecoveryRequest
approved_request = request_in approved_world

-- The clock as it was before the time-lock.
abbrev pub early : Environment
early = record env { clock = λ n. some 35500000 }

abbrev pub looked_at_world : World
looked_at_world = (reconcile_one early 4 "recovery" "worker" approved_world).1

-- The approval is stored, and not counted yet.
abbrev pub uncounted_world : World
uncounted_world =
    let w = approved_world in
    record w { repository = record w.repository { requests = ("recovery", opening_request) ∷ [] } }

abbrev pub counted_world : World
counted_world = (recalculate_quorum env 8 "recovery" 60000000 uncounted_world).1

-- The approved request as if its time-lock was over.
abbrev pub ready_request : RecoveryRequest
ready_request =
    let q = approved_request in
    record q { session = record q.session { state = ready_for_execution } }

abbrev pub ready_world : World
ready_world =
    let w = approved_world in
    record w { repository = record w.repository { requests = ("recovery", ready_request) ∷ [] } }

abbrev pub is_ok : {A : Type 0} → Result A → Bool
is_ok (ok a) = true
is_ok (err e) = false

abbrev pub value_or : {A : Type 0} → A → Result A → A
value_or d (ok a) = a
value_or d (err e) = d

abbrev pub no_approval : RecoveryApproval
no_approval = record {
  approval_id = "approval";
  request_id = "recovery";
  session_id = "session";
  guardian_id = "guardian";
  guardian_user_id = "bob";
  wallet_id = "wallet";
  decision = approve;
  challenge_digest = text_of_32;
  proof_digest = none;
  decided_at = 0;
  created_at = 0;
}

-- What single calls return.
abbrev pub executed : Result RecoveryRequest
executed = (execute env ready_request "worker" ready_world).0

abbrev pub recounted : Result RecoveryRequest
recounted = (recalculate_quorum env 8 "recovery" 5000000 opening_world).0

abbrev pub accepted : Result (RecoveryApproval × RecoveryRequest)
accepted = (approve_request env bob "recovery" "guardian" text_of_32 (some "proof") opening_world).0

abbrev pub refused : Result (RecoveryApproval × RecoveryRequest)
refused = (reject_request env bob "recovery" "guardian" text_of_32 none opening_world).0

abbrev pub created : Result RecoveryRequest
created = (create_request env alice "wallet" device_loss guarded_world).0

abbrev pub withdrawn : Result RecoveryRequest
withdrawn = (cancel env alice "recovery" opening_world).0

abbrev pub no_decision : RecoveryApproval × RecoveryRequest
no_decision = (no_approval, opening_request)
