-- ===== src/Identity/Keys/Promises/Sample.antt =====
-- A small world of the key service: one key of one wallet, a provider that knows it, and stand-ins
-- for the clock, the generators and the audit delivery
-- (services/identity-service/app/application/services/managed_key_service.py).
use secure_ssi_platform.Prelude.{ℕ, String, true, false, Option, none, some, List, [], ◌∷◌}
use secure_ssi_platform.Identity.Failures.{Exec, ok}
use secure_ssi_platform.Identity.Library.{Library}
use secure_ssi_platform.Identity.Wallet.{HolderWallet, WalletStatus}
use secure_ssi_platform.Identity.Keys.States.{
  ManagedKeyState, presentation_signing, ed25519, active, destroy_pending, failed,
}
use secure_ssi_platform.Identity.Keys.Metadata.{ProviderKeyMetadata}
use secure_ssi_platform.Identity.Keys.Record.{ManagedKey}
use secure_ssi_platform.Identity.Keys.Mongo.{mongo_repository}
use secure_ssi_platform.Identity.Keys.Environment.{
  Environment, World, KeyProvider, KeySettings, configured_policy,
}
use secure_ssi_platform.Identity.Keys.Service.Calls.{Call, serve}
use secure_ssi_platform.Identity.Keys.Service.Signer.{Legacy}
use secure_ssi_platform.Identity.Keys.Guarantee.Invariant.{IsStore}
use secure_ssi_platform.Identity.Keys.MongoGuarantee.Refinement.{mongo-IsStore}
use secure_ssi_platform.Identity.Keys.Promises.Single.{stored, single, single-IsCollection, fair}

abbrev pub zeros : String
zeros = "0000000000000000000000000000000000000000000000000000000000000000"

abbrev pub library : Library
library = record {
  sha256_hex = λ s. zeros;
  casefold = λ s. s;
  upper = λ s. s;
  is_alnum = λ c. true;
}

-- The key, in a state, at a version, and with a time of destruction.
abbrev pub sample_key : ManagedKeyState → ℕ → Option ℕ → ManagedKey
sample_key state version schedule = record {
  id = "0123456789abcdef01234567";
  key_id = "key_0123456789abcdef";
  wallet_id = "wallet";
  owner_user_id = "alice";
  holder_did = "did:key:z6Mk";
  provider = "development";
  provider_key_reference = some "development:key:1";
  algorithm = ed25519;
  purpose = presentation_signing;
  key_version = 1;
  state = state;
  public_key_multibase = some "z6Mk";
  fingerprint = some zeros;
  verification_method = some "did:key:z6Mk#z6Mk";
  created_at = some 1;
  updated_at = some 1;
  activated_at = some 1;
  rotated_at = none;
  suspended_at = none;
  revoked_at = none;
  destroyed_at = none;
  destruction_scheduled_at = schedule;
  expires_at = none;
  predecessor_key_id = none;
  successor_key_id = none;
  compromise_reason = none;
  idempotency_key_hash = some zeros;
  reconciliation_attempts = 0;
  reconciliation_lease_until = none;
  last_provider_sync_at = none;
  failure_code = none;
  version = version;
}

abbrev pub sample_wallet : HolderWallet
sample_wallet = record {
  id = "0123456789abcdef01234568";
  wallet_id = "wallet";
  owner_user_id = "alice";
  holder_did = "did:key:z6Mk";
  status = WalletStatus.active;
  key_reference = "development:key:1";
  created_at = 1;
  updated_at = 1;
  version = 1;
  deleted_at = none;
}

-- What the provider, and everything else outside, has been asked for: the times of deletion.
abbrev pub Outside : Type 0
Outside = List ℕ

abbrev known_metadata : ProviderKeyMetadata
known_metadata = record {
  provider = "development";
  provider_key_reference = "development:key:1";
  algorithm = ed25519;
  public_key_multibase = "z6Mk";
  fingerprint = zeros;
  holder_did = "did:key:z6Mk";
  verification_method = "did:key:z6Mk#z6Mk";
  enabled = true;
  destroyed = false;
}

abbrev answer : {A : Type 0} → A → Exec Outside A
answer a o = (ok a, o)

abbrev pub development : KeyProvider Outside
development = record {
  create_key = λ id a p d. answer known_metadata;
  get_key_metadata = λ r. answer known_metadata;
  sign = λ m r a. answer (7 ∷ m);
  enable_key = λ r. answer tt;
  suspend_key = λ r. answer tt;
  revoke_key = λ r. answer tt;
  schedule_deletion = λ r at o. (ok tt, at ∷ o);
  cancel_scheduled_deletion = λ r. answer tt;
  destroy_key = λ r. answer tt;
}

abbrev settings : KeySettings
settings = record {
  enabled_providers = "development" ∷ [];
  allowed_algorithms = ed25519 ∷ [];
  destruction_delay_hours = 24;
  rotation_grace_seconds = 0;
}

-- The time is the thousandth second.
abbrev pub sample_environment : Environment (Option ManagedKey) Outside
sample_environment = record {
  library = library;
  keys = mongo_repository library single;
  wallets = record {
    get = λ id. answer (some sample_wallet);
    update_key_binding = λ id did r at v. answer sample_wallet;
  };
  providers = ("development", development) ∷ [];
  policy = configured_policy library settings;
  audit_delivery = record { ensure = λ e. answer tt; deliver_event = λ id. answer true };
  clock = answer 1000000000;
  new_storage_id = answer "0123456789abcdef01234569";
  new_key_id = answer "key_0123456789abcdeg";
  default_provider = "development";
  metrics = none;
  reconciliation_retry_limit = 3;
  reconciliation_lease_seconds = 60;
}

abbrev pub no_legacy : Legacy Outside
no_legacy = record {
  sign = none;
  get_metadata = none;
  audits = true;
  system_clock = answer 1000000000;
}

abbrev pub world_with : ManagedKey → World (Option ManagedKey) Outside
world_with k = record { keys = some k; outside = [] }

abbrev pub active_key : ManagedKey
active_key = sample_key active 2 none

abbrev pub doomed_key : ManagedKey
doomed_key = sample_key destroy_pending 4 (some 900)

pub sample-IsStore : IsStore stored (mongo_repository library single)
sample-IsStore = mongo-IsStore library single single-IsCollection fair

abbrev pub failed_key : ManagedKey
failed_key = sample_key failed 4 none

-- The owner asks for a reconciliation, and for the key.
abbrev pub sample_calls : List Call
sample_calls =
    Call.reconcile_authorized "wallet" "key_0123456789abcdef" "alice" "request" false
    ∷ Call.get_owned "wallet" "key_0123456789abcdef" "alice" "request"
    ∷ []

abbrev pub final_world : World (Option ManagedKey) Outside
final_world = serve sample_environment sample_calls (world_with doomed_key)

abbrev or_doomed : Option ManagedKey → ManagedKey
or_doomed none = doomed_key
or_doomed (some k) = k

abbrev pub final_key : ManagedKey
final_key = or_doomed (stored final_world.keys doomed_key.key_id)
