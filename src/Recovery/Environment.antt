-- ===== src/Recovery/Environment.antt =====
-- What `RecoveryService` (services/recovery-service/app/application/services/recovery_service.py)
-- is constructed with and what it calls outside its own code, the state that its methods change,
-- and the primitive actions on that state. Every call that leaves the service takes the next number
-- of `tick`, so the clock, the generators and the gateway may answer each call in its own way.
-- `others` is what the other threads do to the repository before the service's next call of it: a
-- repository method holds the lock, and between two of them any other request may run.
use secure_ssi_platform.Prelude.{ℕ, suc, ◌+◌, String, Option, none, some, List, if◌then◌else◌}
use secure_ssi_platform.Prelude.Equality.{◌==◌, nat_equality}
use secure_ssi_platform.Recovery.Monad.{RecoveryError, Result, ok, err, Exec, ◌>>=◌}
use secure_ssi_platform.Recovery.Domain.States.{RecoveryReason}
use secure_ssi_platform.Recovery.Domain.Records.{
  ShareMetadata, SharingContext, SplitSecret, KeyOutcome,
}
use secure_ssi_platform.Recovery.Repository.State.{Repository}
use secure_ssi_platform.Recovery.Repository.Guardians.{count_active_guardians}

-- The fields of `RecoverySettings` (app/core/config.py) that the service reads.
pub record RecoverySettings : Type 0 where
  pub default_minimum_approvals : ℕ
  pub default_maximum_guardians : ℕ
  pub default_approval_window_seconds : ℕ
  pub default_time_lock_seconds : ℕ
  pub default_expiration_seconds : ℕ
  pub default_maximum_attempts : ℕ
  pub default_cooldown_seconds : ℕ
  pub reconciliation_batch_size : ℕ
  pub reconciliation_lease_seconds : ℕ
  pub reconciliation_stale_seconds : ℕ

-- `SecretSharingProvider` (app/application/ports/secret_sharing.py). A split draws on randomness,
-- and is given the number of the call.
pub record SecretSharing : Type 0 where
  pub split : ℕ → List ℕ → ℕ → List String → SharingContext → ℕ → Result SplitSecret
  pub validate_share : ShareMetadata → SharingContext → Result (Unit {0})
  pub combine : List ShareMetadata → ℕ → SharingContext → String → Result (List ℕ)

pub record Environment : Type 0 where
  pub clock : ℕ → Option ℕ  -- `none` is a naive datetime
  pub ids : String → ℕ → String
  pub token_urlsafe : ℕ → String
  pub token_bytes : ℕ → List ℕ
  pub sha256_hex : String → String
  pub verify_wallet_owner : ℕ → String → String → Result (Unit {0})
  pub rotate_for_recovery : ℕ → String → String → String → RecoveryReason → Result KeyOutcome
  pub secret_sharing : SecretSharing
  pub settings : RecoverySettings
  pub worker_id : String
  pub others : ℕ → Repository → Repository

-- The counters of `RecoveryMetrics` (app/application/services/metrics.py); durations are left out.
pub data Counter : Type 0 where
  requests approvals rejections quorum_reached cancellations expirations : Counter
  successes failures reconciliation_attempts reconciliation_successes : Counter
  reconciliation_failures share_validation_failures : Counter

abbrev pub counter_index : Counter → ℕ
counter_index requests = 0
counter_index approvals = 1
counter_index rejections = 2
counter_index quorum_reached = 3
counter_index cancellations = 4
counter_index expirations = 5
counter_index successes = 6
counter_index failures = 7
counter_index reconciliation_attempts = 8
counter_index reconciliation_successes = 9
counter_index reconciliation_failures = 10
counter_index share_validation_failures = 11

pub record RecoveryMetrics : Type 0 where
  pub active_guardians : ℕ
  pub counters : Counter → ℕ

pub record World : Type 0 where
  pub repository : Repository
  pub metrics : RecoveryMetrics
  pub tick : ℕ

-- `RecoveryMetrics.increment`
unfoldable pub increment : Counter → Exec World (Unit {0})
increment c w = (
  ok tt,
  record w {
    metrics = record w.metrics {
      counters = λ d.
          if counter_index d == counter_index c
          then w.metrics.counters d + 1
          else w.metrics.counters d;
    };
  },
)

-- `RecoveryMetrics.set_active_guardians`
unfoldable pub set_active_guardians : ℕ → Exec World (Unit {0})
set_active_guardians n w = (ok tt, record w { metrics = record w.metrics { active_guardians = n } })

-- A call out of the service.
unfoldable pub external : {A : Type 0} → (ℕ → Result A) → Exec World A
external f w = (f w.tick, record w { tick = suc w.tick })

module _ (env : Environment) where
  -- A method of the repository, after whatever the other threads have done.
  unfoldable pub atomic : {A : Type 0} → Exec Repository A → Exec World A
  atomic m w =
      let (a, r) = m (env.others w.tick w.repository) in
      (a, record w { repository = r; tick = suc w.tick })

  -- An aware reading of the clock, or the error for a naive one.
  abbrev aware : Option ℕ → Result ℕ
  aware none = err RecoveryError.validation
  aware (some t) = ok t

  -- `RecoveryService._now`
  unfoldable pub now : Exec World ℕ
  unfolding external
  now = external (λ n. aware (env.clock n))

  -- `self._ids(prefix)`
  unfoldable pub new_id : String → Exec World String
  unfolding external
  new_id prefix = external (λ n. ok (env.ids prefix n))

  -- `_refresh_guardian_metric`
  unfoldable pub refresh_guardian_metric : Exec World (Unit {0})
  unfolding atomic
  refresh_guardian_metric = do n ← atomic count_active_guardians; set_active_guardians n
