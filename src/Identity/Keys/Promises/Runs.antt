-- ===== src/Identity/Keys/Promises/Runs.antt =====
-- What the sample runs of the key service leave and return, by evaluation
-- (services/identity-service/app/application/services/managed_key_service.py).
use secure_ssi_platform.Prelude.{
  ◌≡◌, refl, true, false, none, some, ltb, strip, text_length, ℕ, List, [], ◌∷◌,
}
use secure_ssi_platform.Identity.Failures.{ok}
use secure_ssi_platform.Identity.Keys.States.{destroyed}
use secure_ssi_platform.Identity.Keys.Checks.{idempotency_hash}
use secure_ssi_platform.Identity.Keys.Record.{check_key}
use secure_ssi_platform.Identity.Keys.Environment.{
  on_keys, now, find_provider, call_provider, World,
}
use secure_ssi_platform.Identity.Keys.Service.Access.{get_owned, authorized_key}
use secure_ssi_platform.Identity.Keys.Service.Lifecycle.{with_reference}
use secure_ssi_platform.Identity.Keys.Service.Reconciliation.{reconcile_batch}
use secure_ssi_platform.Identity.Keys.Service.Signer.{sign}
use secure_ssi_platform.Identity.Keys.Promises.Single.{stored}
use secure_ssi_platform.Identity.Keys.Promises.Sample.{
  library, sample_environment, no_legacy, world_with, active_key, doomed_key, development,
  final_world, final_key,
}

-- The runs.
pub record Runs : Type 0 where
  -- A due destruction is carried out.
  pub long_enough : ltb (text_length (strip "no longer used")) 8 ≡ false
  pub gone :
      (stored final_world.keys doomed_key.key_id ≡ some final_key) × (final_key.state ≡ destroyed)
  -- The same key is the one candidate of a batch.
  pub batch : (reconcile_batch sample_environment 600 10 (world_with doomed_key)).0 ≡ ok (1, 0)
  -- The active key signs.
  pub sign :
      (sign sample_environment no_legacy (1 ∷ 2 ∷ []) "development:key:1" (world_with active_key)).0
      ≡ ok (7 ∷ 1 ∷ 2 ∷ [])
  -- The active key passes its checks.
  pub check : check_key library active_key ≡ ok active_key
  pub authorized :
      authorized_key sample_environment "wallet" "key_0123456789abcdef" "alice" false
        (world_with active_key)
      ≡ (ok active_key, world_with active_key)
  pub now : now sample_environment (world_with active_key) ≡ (ok 1000, world_with active_key)
  pub provider :
      find_provider sample_environment "development" (world_with active_key)
      ≡ (ok development, world_with active_key)
  -- The provider is told to delete the active key, in a day.
  pub told :
      call_provider sample_environment
        (with_reference active_key
          (λ r. development.schedule_deletion r (sample_environment.policy.destruction_time 1000)))
        (world_with active_key)
      ≡ (ok tt, record (world_with active_key) { outside = 87400 ∷ [] })

-- They are evaluated here once.
pub runs : Runs
unfolding secure_ssi_platform.Identity.Wallet.require_usable_for_signing
    secure_ssi_platform.Identity.Wallet.validate_key_reference
    secure_ssi_platform.Identity.Wallet.validate_holder_did
    secure_ssi_platform.Identity.Wallet.check_holder_key
    secure_ssi_platform.Identity.Keys.Checks.is_object_id
    secure_ssi_platform.Identity.Keys.Checks.is_key_id
    secure_ssi_platform.Identity.Keys.Checks.is_safe_reference
    secure_ssi_platform.Identity.Keys.Checks.is_fingerprint
    secure_ssi_platform.Identity.Keys.Checks.has_space
    secure_ssi_platform.Identity.Keys.Checks.validate_name
    secure_ssi_platform.Identity.Keys.Checks.validate_reference
    secure_ssi_platform.Identity.Keys.Checks.safe_reason_code
    secure_ssi_platform.Identity.Keys.Checks.idempotency_hash
    secure_ssi_platform.Identity.Keys.Checks.public_key_fingerprint
    secure_ssi_platform.Identity.Keys.Checks.validate_public_metadata
    secure_ssi_platform.Identity.Keys.Environment.configured_policy
    secure_ssi_platform.Identity.Keys.Environment.on_keys
    secure_ssi_platform.Identity.Keys.Environment.elsewhere
    secure_ssi_platform.Identity.Keys.Environment.observe
    secure_ssi_platform.Identity.Keys.Environment.now
    secure_ssi_platform.Identity.Keys.Environment.find_provider
    secure_ssi_platform.Identity.Keys.Environment.call_provider
    secure_ssi_platform.Identity.Keys.Metadata.check_metadata
    secure_ssi_platform.Identity.Keys.Metadata.validate_provider_metadata
    secure_ssi_platform.Identity.Keys.Mongo.from_document
    secure_ssi_platform.Identity.Keys.Mongo.find_one
    secure_ssi_platform.Identity.Keys.Mongo.find_many secure_ssi_platform.Identity.Keys.Mongo.add
    secure_ssi_platform.Identity.Keys.Mongo.get secure_ssi_platform.Identity.Keys.Mongo.update
    secure_ssi_platform.Identity.Keys.Mongo.claim_rotation
    secure_ssi_platform.Identity.Keys.Mongo.link_successor
    secure_ssi_platform.Identity.Keys.Mongo.claim_reconciliation
    secure_ssi_platform.Identity.Keys.Mongo.list_for_wallet
    secure_ssi_platform.Identity.Keys.Mongo.list_versions
    secure_ssi_platform.Identity.Keys.Mongo.list_reconciliation_candidates
    secure_ssi_platform.Identity.Keys.Mongo.count_by_state
    secure_ssi_platform.Identity.Keys.Mongo.count_active_by_provider_purpose
    secure_ssi_platform.Identity.Keys.Mongo.mongo_repository
    secure_ssi_platform.Identity.Keys.Record.check_public
    secure_ssi_platform.Identity.Keys.Record.check_state
    secure_ssi_platform.Identity.Keys.Record.check_key
    secure_ssi_platform.Identity.Keys.Record.can_sign
    secure_ssi_platform.Identity.Keys.Record.require_signing
    secure_ssi_platform.Identity.Keys.Record.changes
    secure_ssi_platform.Identity.Keys.Record.transition
    secure_ssi_platform.Identity.Keys.Service.Access.provider_reference
    secure_ssi_platform.Identity.Keys.Service.Access.with_provider_metadata
    secure_ssi_platform.Identity.Keys.Service.Access.audit
    secure_ssi_platform.Identity.Keys.Service.Access.observe_inventory
    secure_ssi_platform.Identity.Keys.Service.Access.owned_wallet
    secure_ssi_platform.Identity.Keys.Service.Access.bind_presentation_key
    secure_ssi_platform.Identity.Keys.Service.Access.authorized_key
    secure_ssi_platform.Identity.Keys.Service.Access.get_owned
    secure_ssi_platform.Identity.Keys.Service.Access.list_owned
    secure_ssi_platform.Identity.Keys.Service.Audit.audit_id
    secure_ssi_platform.Identity.Keys.Service.Audit.reason_code
    secure_ssi_platform.Identity.Keys.Service.Audit.check_audit_event
    secure_ssi_platform.Identity.Keys.Service.Audit.record_event
    secure_ssi_platform.Identity.Keys.Service.Calls.perform
    secure_ssi_platform.Identity.Keys.Service.Calls.serve
    secure_ssi_platform.Identity.Keys.Service.Lifecycle.move_key
    secure_ssi_platform.Identity.Keys.Service.Lifecycle.provider_transition
    secure_ssi_platform.Identity.Keys.Service.Lifecycle.suspend
    secure_ssi_platform.Identity.Keys.Service.Lifecycle.resume
    secure_ssi_platform.Identity.Keys.Service.Lifecycle.note_compromise
    secure_ssi_platform.Identity.Keys.Service.Lifecycle.suspend_at_provider
    secure_ssi_platform.Identity.Keys.Service.Lifecycle.mark_compromised
    secure_ssi_platform.Identity.Keys.Service.Lifecycle.revoke
    secure_ssi_platform.Identity.Keys.Service.Lifecycle.schedule_destruction
    secure_ssi_platform.Identity.Keys.Service.Lifecycle.cancel_destruction
    secure_ssi_platform.Identity.Keys.Service.Provisioning.provision_pending
    secure_ssi_platform.Identity.Keys.Service.Provisioning.note_failed_creation
    secure_ssi_platform.Identity.Keys.Service.Provisioning.provision_new
    secure_ssi_platform.Identity.Keys.Service.Provisioning.provision
    secure_ssi_platform.Identity.Keys.Service.Provisioning.provision_initial_wallet_key
    secure_ssi_platform.Identity.Keys.Service.Provisioning.create_for_wallet
    secure_ssi_platform.Identity.Keys.Service.Reconciliation.move_to
    secure_ssi_platform.Identity.Keys.Service.Reconciliation.destroy_due
    secure_ssi_platform.Identity.Keys.Service.Reconciliation.activate
    secure_ssi_platform.Identity.Keys.Service.Reconciliation.create_missing
    secure_ssi_platform.Identity.Keys.Service.Reconciliation.fetch_metadata
    secure_ssi_platform.Identity.Keys.Service.Reconciliation.missing_at_provider
    secure_ssi_platform.Identity.Keys.Service.Reconciliation.bind_successor
    secure_ssi_platform.Identity.Keys.Service.Reconciliation.retire_rotated
    secure_ssi_platform.Identity.Keys.Service.Reconciliation.sync
    secure_ssi_platform.Identity.Keys.Service.Reconciliation.finish_rotation
    secure_ssi_platform.Identity.Keys.Service.Reconciliation.fail_unbound
    secure_ssi_platform.Identity.Keys.Service.Reconciliation.sync_active
    secure_ssi_platform.Identity.Keys.Service.Reconciliation.reconcile_known
    secure_ssi_platform.Identity.Keys.Service.Reconciliation.reconcile_claimed
    secure_ssi_platform.Identity.Keys.Service.Reconciliation.reconcile_noted
    secure_ssi_platform.Identity.Keys.Service.Reconciliation.note_failed_reconciliation
    secure_ssi_platform.Identity.Keys.Service.Reconciliation.reconcile
    secure_ssi_platform.Identity.Keys.Service.Reconciliation.reconcile_authorized
    secure_ssi_platform.Identity.Keys.Service.Reconciliation.reconcile_candidate
    secure_ssi_platform.Identity.Keys.Service.Reconciliation.reconcile_all
    secure_ssi_platform.Identity.Keys.Service.Reconciliation.reconcile_batch
    secure_ssi_platform.Identity.Keys.Service.Rotation.retire_linked
    secure_ssi_platform.Identity.Keys.Service.Rotation.replace_key
    secure_ssi_platform.Identity.Keys.Service.Rotation.rotate_claimed
    secure_ssi_platform.Identity.Keys.Service.Rotation.rotate_new
    secure_ssi_platform.Identity.Keys.Service.Rotation.rotate
    secure_ssi_platform.Identity.Keys.Service.Rotation.recovered_before
    secure_ssi_platform.Identity.Keys.Service.Rotation.recover_now
    secure_ssi_platform.Identity.Keys.Service.Rotation.recover_wallet
    secure_ssi_platform.Identity.Keys.Service.Signer.managed_by_reference
    secure_ssi_platform.Identity.Keys.Service.Signer.record_signing_rejection
    secure_ssi_platform.Identity.Keys.Service.Signer.legacy_sign
    secure_ssi_platform.Identity.Keys.Service.Signer.require_signable
    secure_ssi_platform.Identity.Keys.Service.Signer.require_enabled
    secure_ssi_platform.Identity.Keys.Service.Signer.sign_managed
    secure_ssi_platform.Identity.Keys.Service.Signer.sign
    secure_ssi_platform.Identity.Keys.Service.Signer.get_metadata
    secure_ssi_platform.Prelude.Dict.values secure_ssi_platform.Prelude.Dict.lookup
    secure_ssi_platform.Prelude.Dict.insert secure_ssi_platform.Prelude.Effects.pure
    secure_ssi_platform.Prelude.Effects.raise secure_ssi_platform.Prelude.Effects.lift
    secure_ssi_platform.Prelude.Effects.gets secure_ssi_platform.Prelude.Effects.catch
    secure_ssi_platform.Prelude.Effects.◌>>=◌ secure_ssi_platform.Prelude.Effects.raise_if
    secure_ssi_platform.Prelude.Effects.modify secure_ssi_platform.Prelude.Effects.on_error
    secure_ssi_platform.Prelude.Effects.finally_do secure_ssi_platform.Prelude.Effects.report
    secure_ssi_platform.Prelude.text_length secure_ssi_platform.Prelude.is_space
    secure_ssi_platform.Prelude.lstrip secure_ssi_platform.Prelude.rstrip_cons
    secure_ssi_platform.Prelude.rstrip secure_ssi_platform.Prelude.strip
    secure_ssi_platform.Prelude.text_le secure_ssi_platform.Prelude.concat
    secure_ssi_platform.Prelude.print_nat secure_ssi_platform.Prelude.text_take
    secure_ssi_platform.Prelude.has_prefix secure_ssi_platform.Prelude.up_to_colon
    secure_ssi_platform.Prelude.second_part
runs = record {
  long_enough = refl;
  gone = (refl, refl);
  batch = refl;
  sign = refl;
  check = refl;
  authorized = refl;
  now = refl;
  provider = refl;
  told = refl;
}
