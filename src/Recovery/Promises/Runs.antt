-- ===== src/Recovery/Promises/Runs.antt =====
-- What the sample runs leave and return, by evaluation (services/recovery-service/app).
use secure_ssi_platform.Prelude.{◌≡◌, refl, true, Bool, Option, none, some, is_some}
use secure_ssi_platform.Prelude.Dict.{lookup}
use secure_ssi_platform.Prelude.Equality.{text_equality}
use secure_ssi_platform.Recovery.Monad.{Result, ok, err}
use secure_ssi_platform.Recovery.Environment.{World}
use secure_ssi_platform.Recovery.Domain.States.{completed, pending_approvals, waiting_timelock}
use secure_ssi_platform.Recovery.Domain.Requests.{RecoveryRequest}
use secure_ssi_platform.Recovery.History.Safety.{past_quorum}
use secure_ssi_platform.Recovery.Promises.Sample.{
  found, request_in, is_ok, value_or, opening_world, completing_world, opening_request,
  approved_world, approved_request, looked_at_world, uncounted_world, counted_world,
  completing_request, executed, recounted, accepted, refused, created, withdrawn,
}

-- A request that is there is the one that `request_in` gives.
pub found_in :
    (w : World)
    → is_some (lookup "recovery" w.repository.requests) ≡ true
    → lookup "recovery" w.repository.requests ≡ some (request_in w)
found_in w h = some_found (lookup "recovery" w.repository.requests) h
  where
    some_found : (o : Option RecoveryRequest) → is_some o ≡ true → o ≡ some (found o)
    some_found (some q) p = refl
    some_found none p = cc

-- A result that is no error is the value that `value_or` gives.
pub ok_value : {A : Type 0} (d : A) (r : Result A) → is_ok r ≡ true → r ≡ ok (value_or d r)
ok_value d (ok a) h = refl
ok_value d (err e) h = cc

-- The runs are evaluated here once.
pub evaluated :
    (is_some (lookup "recovery" opening_world.repository.requests) ≡ true)
    × (is_some (lookup "recovery" completing_world.repository.requests) ≡ true)
    × (opening_request.session.state ≡ pending_approvals)
    × (completing_request.session.state ≡ completed)
    × (is_ok executed ≡ true)
    × (is_ok recounted ≡ true)
    × ((value_or opening_request recounted).session.state ≡ pending_approvals)
    × (is_ok accepted ≡ true)
    × (is_ok refused ≡ true)
    × (is_ok created ≡ true)
    × (is_ok withdrawn ≡ true)
unfolding secure_ssi_platform.Recovery.Monad.pure secure_ssi_platform.Recovery.Monad.raise
    secure_ssi_platform.Recovery.Monad.lift secure_ssi_platform.Recovery.Monad.gets
    secure_ssi_platform.Recovery.Monad.catch secure_ssi_platform.Recovery.Monad.◌>>=◌
    secure_ssi_platform.Recovery.Monad.raise_if secure_ssi_platform.Recovery.Monad.modify
    secure_ssi_platform.Recovery.Environment.increment
    secure_ssi_platform.Recovery.Environment.set_active_guardians
    secure_ssi_platform.Recovery.Environment.external
    secure_ssi_platform.Recovery.Environment.atomic secure_ssi_platform.Recovery.Environment.now
    secure_ssi_platform.Recovery.Environment.new_id
    secure_ssi_platform.Recovery.Environment.refresh_guardian_metric
    secure_ssi_platform.Recovery.Service.Reconciliation.resume_timelock
    secure_ssi_platform.Recovery.Service.Reconciliation.release_timelock
    secure_ssi_platform.Recovery.Service.Reconciliation.drop_stale_lease
    secure_ssi_platform.Recovery.Service.Reconciliation.retry_execution
    secure_ssi_platform.Recovery.Service.Reconciliation.advance
    secure_ssi_platform.Recovery.Service.Reconciliation.reconcile_one
    secure_ssi_platform.Recovery.Service.Reconciliation.reconcile_request
    secure_ssi_platform.Recovery.Service.Reconciliation.reconcile_candidate
    secure_ssi_platform.Recovery.Service.Reconciliation.reconcile_all
    secure_ssi_platform.Recovery.Service.Reconciliation.reconcile_due
    secure_ssi_platform.Recovery.Service.Calls.perform
    secure_ssi_platform.Recovery.Service.Calls.serve
    secure_ssi_platform.Recovery.Service.Quorum.share_for
    secure_ssi_platform.Recovery.Service.Quorum.guardian_still_active
    secure_ssi_platform.Recovery.Service.Quorum.valid_decisions
    secure_ssi_platform.Recovery.Service.Quorum.start_timelock
    secure_ssi_platform.Recovery.Service.Quorum.apply_quorum
    secure_ssi_platform.Recovery.Service.Quorum.recalculate_quorum
    secure_ssi_platform.Recovery.Service.Quorum.expire
    secure_ssi_platform.Recovery.Service.Decisions.validate_share
    secure_ssi_platform.Recovery.Service.Decisions.record_decision
    secure_ssi_platform.Recovery.Service.Decisions.decide_new
    secure_ssi_platform.Recovery.Service.Decisions.decide
    secure_ssi_platform.Recovery.Service.Decisions.approve_request
    secure_ssi_platform.Recovery.Service.Decisions.reject_request
    secure_ssi_platform.Recovery.Service.Policies.get_policy
    secure_ssi_platform.Recovery.Service.Policies.put_policy
    secure_ssi_platform.Recovery.Service.Policies.create_default_policy
    secure_ssi_platform.Recovery.Service.Execution.record_execution_failure
    secure_ssi_platform.Recovery.Service.Execution.active_approvals
    secure_ssi_platform.Recovery.Service.Execution.shares_for
    secure_ssi_platform.Recovery.Service.Execution.authorise
    secure_ssi_platform.Recovery.Service.Execution.audit_completion
    secure_ssi_platform.Recovery.Service.Execution.run_claimed
    secure_ssi_platform.Recovery.Service.Execution.execute
    secure_ssi_platform.Recovery.Service.Creation.latest
    secure_ssi_platform.Recovery.Service.Creation.active_sorted
    secure_ssi_platform.Recovery.Service.Creation.require_cooldown_elapsed
    secure_ssi_platform.Recovery.Service.Creation.build_request
    secure_ssi_platform.Recovery.Service.Creation.create_request
    secure_ssi_platform.Recovery.Service.Creation.get_request
    secure_ssi_platform.Recovery.Service.Creation.list_requests
    secure_ssi_platform.Recovery.Service.Creation.cancel_found
    secure_ssi_platform.Recovery.Service.Creation.cancel
    secure_ssi_platform.Recovery.Service.Audit.audit_event_id
    secure_ssi_platform.Recovery.Service.Audit.audit
    secure_ssi_platform.Recovery.Service.Audit.audit_unauthorized
    secure_ssi_platform.Recovery.Service.Guardians.create_guardian
    secure_ssi_platform.Recovery.Service.Guardians.list_guardians
    secure_ssi_platform.Recovery.Service.Guardians.get_guardian
    secure_ssi_platform.Recovery.Service.Guardians.owned_guardian
    secure_ssi_platform.Recovery.Service.Guardians.store_update
    secure_ssi_platform.Recovery.Service.Guardians.update_guardian
    secure_ssi_platform.Recovery.Repository.Requests.active_request
    secure_ssi_platform.Recovery.Repository.Requests.get_active_request
    secure_ssi_platform.Recovery.Repository.Requests.add_request
    secure_ssi_platform.Recovery.Repository.Requests.get_request
    secure_ssi_platform.Recovery.Repository.Requests.list_requests
    secure_ssi_platform.Recovery.Repository.Requests.update_request
    secure_ssi_platform.Recovery.Repository.Requests.list_reconciliation_candidates
    secure_ssi_platform.Recovery.Repository.Evidence.add_approval_idempotently
    secure_ssi_platform.Recovery.Repository.Evidence.list_approvals
    secure_ssi_platform.Recovery.Repository.Evidence.save_share_set
    secure_ssi_platform.Recovery.Repository.Evidence.get_share
    secure_ssi_platform.Recovery.Repository.Evidence.append_audit_idempotently
    secure_ssi_platform.Recovery.Repository.Guardians.find_guardian_assignment
    secure_ssi_platform.Recovery.Repository.Guardians.add_guardian
    secure_ssi_platform.Recovery.Repository.Guardians.get_guardian
    secure_ssi_platform.Recovery.Repository.Guardians.list_guardians
    secure_ssi_platform.Recovery.Repository.Guardians.update_guardian
    secure_ssi_platform.Recovery.Repository.Guardians.count_active_guardians
    secure_ssi_platform.Recovery.Repository.Guardians.get_policy
    secure_ssi_platform.Recovery.Repository.Guardians.upsert_policy
    secure_ssi_platform.Recovery.Domain.States.require_transition
    secure_ssi_platform.Recovery.Domain.Requests.check_snapshot
    secure_ssi_platform.Recovery.Domain.Requests.check_challenge
    secure_ssi_platform.Recovery.Domain.Requests.check_quorum
    secure_ssi_platform.Recovery.Domain.Requests.check_lease
    secure_ssi_platform.Recovery.Domain.Requests.check_result
    secure_ssi_platform.Recovery.Domain.Requests.check_failure
    secure_ssi_platform.Recovery.Domain.Requests.check_session
    secure_ssi_platform.Recovery.Domain.Requests.check_request
    secure_ssi_platform.Recovery.Domain.Requests.transition
    secure_ssi_platform.Recovery.Domain.Auth.from_claims
    secure_ssi_platform.Recovery.Domain.Auth.require
    secure_ssi_platform.Recovery.Domain.Records.check_approval
    secure_ssi_platform.Recovery.Domain.Records.check_share
    secure_ssi_platform.Recovery.Domain.Records.check_event
    secure_ssi_platform.Recovery.Domain.Guardians.check_guardian
    secure_ssi_platform.Recovery.Domain.Guardians.transition_guardian
    secure_ssi_platform.Recovery.Domain.Guardians.check_policy
    secure_ssi_platform.Prelude.Dict.values secure_ssi_platform.Prelude.Dict.lookup
    secure_ssi_platform.Prelude.Dict.insert secure_ssi_platform.Prelude.text_length
    secure_ssi_platform.Prelude.is_space secure_ssi_platform.Prelude.lstrip
    secure_ssi_platform.Prelude.rstrip_cons secure_ssi_platform.Prelude.rstrip
    secure_ssi_platform.Prelude.strip secure_ssi_platform.Prelude.text_le
    secure_ssi_platform.Prelude.concat secure_ssi_platform.Prelude.print_nat
    secure_ssi_platform.Prelude.text_take secure_ssi_platform.Prelude.has_prefix
    secure_ssi_platform.Prelude.up_to_colon secure_ssi_platform.Prelude.second_part
evaluated = (refl, refl, refl, refl, refl, refl, refl, refl, refl, refl, refl)

-- So are the runs with a wait and with a late count.
pub evaluated_waits :
    (is_some (lookup "recovery" approved_world.repository.requests) ≡ true)
    × (approved_request.session.state ≡ waiting_timelock)
    × (approved_request.session.executable_after ≡ some 36000000)
    × (is_some (lookup "recovery" looked_at_world.repository.requests) ≡ true)
    × (lookup "recovery" uncounted_world.repository.requests ≡ some opening_request)
    × (is_some (lookup "recovery" counted_world.repository.requests) ≡ true)
    × (past_quorum (request_in counted_world).session.state ≡ true)
unfolding secure_ssi_platform.Recovery.Monad.pure secure_ssi_platform.Recovery.Monad.raise
    secure_ssi_platform.Recovery.Monad.lift secure_ssi_platform.Recovery.Monad.gets
    secure_ssi_platform.Recovery.Monad.catch secure_ssi_platform.Recovery.Monad.◌>>=◌
    secure_ssi_platform.Recovery.Monad.raise_if secure_ssi_platform.Recovery.Monad.modify
    secure_ssi_platform.Recovery.Environment.increment
    secure_ssi_platform.Recovery.Environment.set_active_guardians
    secure_ssi_platform.Recovery.Environment.external
    secure_ssi_platform.Recovery.Environment.atomic secure_ssi_platform.Recovery.Environment.now
    secure_ssi_platform.Recovery.Environment.new_id
    secure_ssi_platform.Recovery.Environment.refresh_guardian_metric
    secure_ssi_platform.Recovery.Service.Reconciliation.resume_timelock
    secure_ssi_platform.Recovery.Service.Reconciliation.release_timelock
    secure_ssi_platform.Recovery.Service.Reconciliation.drop_stale_lease
    secure_ssi_platform.Recovery.Service.Reconciliation.retry_execution
    secure_ssi_platform.Recovery.Service.Reconciliation.advance
    secure_ssi_platform.Recovery.Service.Reconciliation.reconcile_one
    secure_ssi_platform.Recovery.Service.Reconciliation.reconcile_request
    secure_ssi_platform.Recovery.Service.Reconciliation.reconcile_candidate
    secure_ssi_platform.Recovery.Service.Reconciliation.reconcile_all
    secure_ssi_platform.Recovery.Service.Reconciliation.reconcile_due
    secure_ssi_platform.Recovery.Service.Calls.perform
    secure_ssi_platform.Recovery.Service.Calls.serve
    secure_ssi_platform.Recovery.Service.Quorum.share_for
    secure_ssi_platform.Recovery.Service.Quorum.guardian_still_active
    secure_ssi_platform.Recovery.Service.Quorum.valid_decisions
    secure_ssi_platform.Recovery.Service.Quorum.start_timelock
    secure_ssi_platform.Recovery.Service.Quorum.apply_quorum
    secure_ssi_platform.Recovery.Service.Quorum.recalculate_quorum
    secure_ssi_platform.Recovery.Service.Quorum.expire
    secure_ssi_platform.Recovery.Service.Decisions.validate_share
    secure_ssi_platform.Recovery.Service.Decisions.record_decision
    secure_ssi_platform.Recovery.Service.Decisions.decide_new
    secure_ssi_platform.Recovery.Service.Decisions.decide
    secure_ssi_platform.Recovery.Service.Decisions.approve_request
    secure_ssi_platform.Recovery.Service.Decisions.reject_request
    secure_ssi_platform.Recovery.Service.Policies.get_policy
    secure_ssi_platform.Recovery.Service.Policies.put_policy
    secure_ssi_platform.Recovery.Service.Policies.create_default_policy
    secure_ssi_platform.Recovery.Service.Execution.record_execution_failure
    secure_ssi_platform.Recovery.Service.Execution.active_approvals
    secure_ssi_platform.Recovery.Service.Execution.shares_for
    secure_ssi_platform.Recovery.Service.Execution.authorise
    secure_ssi_platform.Recovery.Service.Execution.audit_completion
    secure_ssi_platform.Recovery.Service.Execution.run_claimed
    secure_ssi_platform.Recovery.Service.Execution.execute
    secure_ssi_platform.Recovery.Service.Creation.latest
    secure_ssi_platform.Recovery.Service.Creation.active_sorted
    secure_ssi_platform.Recovery.Service.Creation.require_cooldown_elapsed
    secure_ssi_platform.Recovery.Service.Creation.build_request
    secure_ssi_platform.Recovery.Service.Creation.create_request
    secure_ssi_platform.Recovery.Service.Creation.get_request
    secure_ssi_platform.Recovery.Service.Creation.list_requests
    secure_ssi_platform.Recovery.Service.Creation.cancel_found
    secure_ssi_platform.Recovery.Service.Creation.cancel
    secure_ssi_platform.Recovery.Service.Audit.audit_event_id
    secure_ssi_platform.Recovery.Service.Audit.audit
    secure_ssi_platform.Recovery.Service.Audit.audit_unauthorized
    secure_ssi_platform.Recovery.Service.Guardians.create_guardian
    secure_ssi_platform.Recovery.Service.Guardians.list_guardians
    secure_ssi_platform.Recovery.Service.Guardians.get_guardian
    secure_ssi_platform.Recovery.Service.Guardians.owned_guardian
    secure_ssi_platform.Recovery.Service.Guardians.store_update
    secure_ssi_platform.Recovery.Service.Guardians.update_guardian
    secure_ssi_platform.Recovery.Repository.Requests.active_request
    secure_ssi_platform.Recovery.Repository.Requests.get_active_request
    secure_ssi_platform.Recovery.Repository.Requests.add_request
    secure_ssi_platform.Recovery.Repository.Requests.get_request
    secure_ssi_platform.Recovery.Repository.Requests.list_requests
    secure_ssi_platform.Recovery.Repository.Requests.update_request
    secure_ssi_platform.Recovery.Repository.Requests.list_reconciliation_candidates
    secure_ssi_platform.Recovery.Repository.Evidence.add_approval_idempotently
    secure_ssi_platform.Recovery.Repository.Evidence.list_approvals
    secure_ssi_platform.Recovery.Repository.Evidence.save_share_set
    secure_ssi_platform.Recovery.Repository.Evidence.get_share
    secure_ssi_platform.Recovery.Repository.Evidence.append_audit_idempotently
    secure_ssi_platform.Recovery.Repository.Guardians.find_guardian_assignment
    secure_ssi_platform.Recovery.Repository.Guardians.add_guardian
    secure_ssi_platform.Recovery.Repository.Guardians.get_guardian
    secure_ssi_platform.Recovery.Repository.Guardians.list_guardians
    secure_ssi_platform.Recovery.Repository.Guardians.update_guardian
    secure_ssi_platform.Recovery.Repository.Guardians.count_active_guardians
    secure_ssi_platform.Recovery.Repository.Guardians.get_policy
    secure_ssi_platform.Recovery.Repository.Guardians.upsert_policy
    secure_ssi_platform.Recovery.Domain.States.require_transition
    secure_ssi_platform.Recovery.Domain.Requests.check_snapshot
    secure_ssi_platform.Recovery.Domain.Requests.check_challenge
    secure_ssi_platform.Recovery.Domain.Requests.check_quorum
    secure_ssi_platform.Recovery.Domain.Requests.check_lease
    secure_ssi_platform.Recovery.Domain.Requests.check_result
    secure_ssi_platform.Recovery.Domain.Requests.check_failure
    secure_ssi_platform.Recovery.Domain.Requests.check_session
    secure_ssi_platform.Recovery.Domain.Requests.check_request
    secure_ssi_platform.Recovery.Domain.Requests.transition
    secure_ssi_platform.Recovery.Domain.Auth.from_claims
    secure_ssi_platform.Recovery.Domain.Auth.require
    secure_ssi_platform.Recovery.Domain.Records.check_approval
    secure_ssi_platform.Recovery.Domain.Records.check_share
    secure_ssi_platform.Recovery.Domain.Records.check_event
    secure_ssi_platform.Recovery.Domain.Guardians.check_guardian
    secure_ssi_platform.Recovery.Domain.Guardians.transition_guardian
    secure_ssi_platform.Recovery.Domain.Guardians.check_policy
    secure_ssi_platform.Prelude.Dict.values secure_ssi_platform.Prelude.Dict.lookup
    secure_ssi_platform.Prelude.Dict.insert secure_ssi_platform.Prelude.text_length
    secure_ssi_platform.Prelude.is_space secure_ssi_platform.Prelude.lstrip
    secure_ssi_platform.Prelude.rstrip_cons secure_ssi_platform.Prelude.rstrip
    secure_ssi_platform.Prelude.strip secure_ssi_platform.Prelude.text_le
    secure_ssi_platform.Prelude.concat secure_ssi_platform.Prelude.print_nat
    secure_ssi_platform.Prelude.text_take secure_ssi_platform.Prelude.has_prefix
    secure_ssi_platform.Prelude.up_to_colon secure_ssi_platform.Prelude.second_part
evaluated_waits = (refl, refl, refl, refl, refl, refl, refl)
