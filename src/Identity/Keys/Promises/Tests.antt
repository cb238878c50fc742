-- ===== src/Identity/Keys/Promises/Tests.antt =====
-- Concrete runs of the managed keys of the identity service
-- (services/identity-service/app/application/services/managed_key_service.py).
use secure_ssi_platform.Prelude.{
  ◌≡◌, ◌≢◌, ◌≤◌, ◌↔◌, refl, true, false, Option, some, ℕ, List, [], ◌∷◌, length, ◌-◌, ◌+◌,
}
use secure_ssi_platform.Identity.Failures.{ok, err, invalid_transition}
use secure_ssi_platform.Identity.Keys.States.{pending}
use secure_ssi_platform.Identity.Keys.Record.{ManagedKey, can_sign, require_signing}
use secure_ssi_platform.Identity.Keys.Mongo.{mongo_repository}
use secure_ssi_platform.Identity.Keys.Environment.{World, on_keys}
use secure_ssi_platform.Identity.Keys.Service.Calls.{serve}
use secure_ssi_platform.Identity.Keys.Service.Lifecycle.{schedule_destruction}
use secure_ssi_platform.Identity.Keys.History.{SameMaterial}
use secure_ssi_platform.Identity.Keys.History.Life.{WasDue}
use secure_ssi_platform.Identity.Keys.Guarantee.Invariant.{Evolves, IsStore}
use secure_ssi_platform.Identity.Keys.Guarantee.Service.{keys-Evolves}
use secure_ssi_platform.Identity.Keys.MongoGuarantee.Refinement.{mongo-IsStore}
use secure_ssi_platform.Identity.Keys.Promises.Lifetime.{
  serve-final, serve-material, serve-due, serve-attempts,
}
use secure_ssi_platform.Identity.Keys.Promises.Signing.{can_sign-require_signing}
use secure_ssi_platform.Identity.Keys.Promises.Requests.{schedule-refused, reconcile_batch-count}
use secure_ssi_platform.Identity.Keys.Promises.Single.{stored, single, single-IsCollection, fair}
use secure_ssi_platform.Identity.Keys.Promises.Sample.{
  Outside, library, sample_environment, sample-IsStore, world_with, active_key, doomed_key,
  failed_key, development, sample_calls, final_key,
}
use secure_ssi_platform.Identity.Keys.Promises.Runs.{runs}

keys-Evolves_example :
    Evolves stored
      (world_with doomed_key).keys
      (serve sample_environment sample_calls (world_with doomed_key)).keys
keys-Evolves_example =
    keys-Evolves sample_environment sample-IsStore sample_calls (world_with doomed_key)

mongo-IsStore_example : IsStore stored (mongo_repository library single)
mongo-IsStore_example = mongo-IsStore library single single-IsCollection fair

serve-due_example : WasDue final_key
serve-due_example =
    serve-due sample_environment sample-IsStore sample_calls (world_with doomed_key)
      "key_0123456789abcdef" doomed_key refl final_key (λ e. cc) runs.gone.0 runs.gone.1

serve-material_example :
    (q : ManagedKey) × (stored
        (serve sample_environment sample_calls (world_with active_key)).keys
        "key_0123456789abcdef"
      ≡ some q)
    × SameMaterial active_key q
    × (q.state ≢ pending)
serve-material_example =
    serve-material sample_environment sample-IsStore sample_calls (world_with active_key)
      "key_0123456789abcdef" active_key refl (λ e. cc)

serve-final_example :
    (q : ManagedKey) × (stored
        (serve sample_environment sample_calls (world_with failed_key)).keys
        "key_0123456789abcdef"
      ≡ some q)
    × (q.state ≡ failed_key.state)
serve-final_example =
    serve-final sample_environment sample-IsStore sample_calls (world_with failed_key)
      "key_0123456789abcdef" failed_key refl refl

serve-attempts_example :
    (q : ManagedKey) × (stored
        (serve sample_environment sample_calls (world_with doomed_key)).keys
        "key_0123456789abcdef"
      ≡ some q)
    × (doomed_key.reconciliation_attempts ≤ q.reconciliation_attempts)
serve-attempts_example =
    serve-attempts sample_environment sample-IsStore sample_calls (world_with doomed_key)
      "key_0123456789abcdef" doomed_key refl

can_sign-require_signing_example :
    (can_sign active_key ≡ true)
    ↔ (require_signing active_key active_key.purpose active_key.algorithm ≡ ok tt)
can_sign-require_signing_example = can_sign-require_signing library active_key runs.check

schedule-refused_example :
    schedule_destruction sample_environment "wallet" "key_0123456789abcdef" "alice" "no longer used"
      "key_0123456789abcdef" "request" false
      (world_with active_key)
    ≡ (err invalid_transition, record (world_with active_key) { outside = 87400 ∷ [] })
schedule-refused_example =
    schedule-refused sample_environment "wallet" "key_0123456789abcdef" "alice" "no longer used"
      "request" false active_key development 1000 (world_with active_key) (world_with active_key)
      (world_with active_key) (world_with active_key)
      (record (world_with active_key) { outside = 87400 ∷ [] }) runs.long_enough runs.authorized
      runs.now runs.provider runs.told (λ e. cc) (λ e. cc)

reconcile_batch-count_example :
    (at : ℕ) × (t : World (Option ManagedKey) Outside) × (ks : List ManagedKey) × ((on_keys
        (sample_environment.keys.list_reconciliation_candidates (at - 600) at 10)
        t).0
      ≡ ok ks)
    × (1 + 0 ≡ length ks)
reconcile_batch-count_example =
    reconcile_batch-count sample_environment 600 10 (world_with doomed_key) runs.batch
