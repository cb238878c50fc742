-- ===== src/Recovery/Promises/Tests.antt =====
-- The promises of the recovery service at the sample runs (services/recovery-service/app).
use secure_ssi_platform.Prelude.{
  ℕ, ◌+◌, ◌≤◌, ◌<◌, some-eq, arith, ◌≡◌, ◌⊎◌, refl, ap, String, Bool, true, none, some, List, [],
  ◌∷◌, if◌then◌else◌,
}
use secure_ssi_platform.Prelude.Equality.{text_equality, pair_equality}
use secure_ssi_platform.Prelude.Dict.{lookup}
use secure_ssi_platform.Recovery.Monad.{ok}
use secure_ssi_platform.Recovery.Domain.States.{
  terminal, state_equality, status_equality, completed, reconciliation_required, failed, cancelled,
  device_loss, approve, reject,
}
use secure_ssi_platform.Recovery.Domain.Requests.{RecoveryRequest}
use secure_ssi_platform.Recovery.Domain.Auth.{recovery_approve, recovery_reject}
use secure_ssi_platform.Recovery.Service.Calls.{Call, serve}
use secure_ssi_platform.Recovery.Service.Decisions.{digest_of}
use secure_ssi_platform.Recovery.Service.Reconciliation.{reconcile_all}
use secure_ssi_platform.Recovery.History.Grown.{IsFresh}
use secure_ssi_platform.Recovery.History.Safety.{past_lock, HasLock}
use secure_ssi_platform.Recovery.Guarantee.Invariant.{IsSound, Evolves}
use secure_ssi_platform.Recovery.Guarantee.Service.{serve-Evolves}
use secure_ssi_platform.Recovery.Promises.Path.{StatePath}
use secure_ssi_platform.Recovery.Promises.Requests.{
  serve-HasLock, serve-single, serve-terminal, serve-StatePath,
}
use secure_ssi_platform.Recovery.Promises.Authorised.{IsAuthorised, IsStill, SameEvidence-refl}
use secure_ssi_platform.Recovery.Promises.Execution.{execute-IsAuthorised}
use secure_ssi_platform.Recovery.Promises.Votes.{votes, IsQuiet, SameVotes-refl}
use secure_ssi_platform.Recovery.Promises.Reached.{recalculate_quorum-reached}
use secure_ssi_platform.Recovery.Promises.Release.{StillWaits, reconcile_one-StillWaits}
use secure_ssi_platform.Recovery.Promises.Decisions.{
  Answers, approve_request-Answers, reject_request-Answers,
}
use secure_ssi_platform.Recovery.Promises.Quorum.{IsOpen, recalculate_quorum-IsOpen}
use secure_ssi_platform.Recovery.Promises.Opening.{IsOf, create_request-IsFresh, cancel-cancelled}
use secure_ssi_platform.Recovery.Promises.Batch.{reconcile_all-counts}
use secure_ssi_platform.Recovery.Promises.Sample.{
  env, fair, start, start-IsSound, alice, bob, root, text_of_32, opening, completing, opening_world,
  completing_world, guarded_world, opening_request, completing_request, ready_request, ready_world,
  approved_request, approved_world, looked_at_world, uncounted_world, counted_world, early,
  request_in, no_decision, value_or, executed, recounted, accepted, refused, created, withdrawn,
}
use secure_ssi_platform.Recovery.Promises.Runs.{evaluated, evaluated_waits, found_in, ok_value}

serve-Evolves_example :
    IsSound completing_world.repository × Evolves start.repository completing_world.repository
serve-Evolves_example = serve-Evolves env fair completing start start-IsSound

opening-IsSound : IsSound opening_world.repository
opening-IsSound = (serve-Evolves env fair opening start start-IsSound).0

completing-IsSound : IsSound completing_world.repository
completing-IsSound = (serve-Evolves env fair completing start start-IsSound).0

opening_found : lookup "recovery" opening_world.repository.requests ≡ some opening_request
opening_found = found_in opening_world evaluated.0

completing_found : lookup "recovery" completing_world.repository.requests ≡ some completing_request
completing_found = found_in completing_world evaluated.1

serve-HasLock_example : HasLock completing_request
serve-HasLock_example =
    serve-HasLock env fair completing start start-IsSound "recovery" completing_request
      completing_found (ap past_lock evaluated.3)

serve-single_example : ◌≡◌ {A = String} "recovery" "recovery"
serve-single_example =
    serve-single env fair opening start start-IsSound "recovery" "recovery" opening_request
      opening_request opening_found opening_found refl (ap terminal evaluated.2)
      (ap terminal evaluated.2)

-- What is asked of a request that is completed.
abbrev afterwards : List Call
afterwards =
    Call.cancel alice "recovery" ∷ Call.reconcile_request root "recovery" ∷ Call.reconcile_due ∷ []

serve-terminal_example :
    lookup "recovery" (serve env afterwards completing_world).repository.requests
    ≡ some completing_request
serve-terminal_example =
    serve-terminal env fair afterwards completing_world completing-IsSound "recovery"
      completing_request completing_found (ap terminal evaluated.3)

serve-StatePath_example :
    (q' : RecoveryRequest) × (lookup "recovery"
        (serve env afterwards opening_world).repository.requests
      ≡ some q')
    × StatePath opening_request.session.state q'.session.state
serve-StatePath_example =
    serve-StatePath env fair afterwards opening_world opening-IsSound "recovery" opening_request
      opening_found

still : IsStill env
still = record { at = λ n a. SameEvidence-refl a }

quiet : IsQuiet env
quiet = record { at = λ n a. SameVotes-refl a }

execute-IsAuthorised_example :
    (IsAuthorised env ready_world.repository ready_request
      × ((value_or ready_request executed).session.state ≡ completed))
    ⊎ ((b : Bool) × ((value_or ready_request executed).session.state
          ≡ (if b then reconciliation_required else failed)))
execute-IsAuthorised_example =
    execute-IsAuthorised env still ready_request (value_or ready_request executed) "worker"
      ready_world refl (ok_value ready_request executed evaluated.4)

recalculate_quorum-IsOpen_example :
    IsOpen opening_world.repository "recovery" (value_or opening_request recounted)
recalculate_quorum-IsOpen_example =
    recalculate_quorum-IsOpen env quiet 8 "recovery" (value_or opening_request recounted) 5000000
      opening_world (ok_value opening_request recounted evaluated.5) evaluated.6

recalculate_quorum-reached_example :
    (request_in counted_world).policy.minimum_approvals
    ≤ votes uncounted_world.repository (request_in counted_world) "recovery" approve
recalculate_quorum-reached_example =
    recalculate_quorum-reached env quiet 8 "recovery" 60000000 uncounted_world opening_request
      (λ n b. refl) evaluated_waits.4 evaluated.2 (request_in counted_world)
      (found_in counted_world evaluated_waits.5) evaluated_waits.6

always_early : (n t : ℕ) → early.clock n ≡ some t → t < 36000000
always_early n t h = ground (arith, some-eq h)

reconcile_one-StillWaits_example : StillWaits 36000000 (request_in looked_at_world)
reconcile_one-StillWaits_example =
    reconcile_one-StillWaits early 36000000 "recovery" "worker" 4 approved_world approved_request
      always_early (λ n b. refl) (found_in approved_world evaluated_waits.0) evaluated_waits.1
      evaluated_waits.2 (request_in looked_at_world) (found_in looked_at_world evaluated_waits.3)

approve_request-Answers_example :
    (bob.permissions recovery_approve ≡ true)
    × Answers approve
        (env.sha256_hex text_of_32)
        (digest_of env.sha256_hex (some "proof"))
        (value_or no_decision accepted).0
approve_request-Answers_example =
    approve_request-Answers env bob "recovery" "guardian" text_of_32 (some "proof")
      (value_or no_decision accepted) opening_world (ok_value no_decision accepted evaluated.7)

reject_request-Answers_example :
    (bob.permissions recovery_reject ≡ true)
    × Answers reject
        (env.sha256_hex text_of_32)
        (digest_of env.sha256_hex none)
        (value_or no_decision refused).0
reject_request-Answers_example =
    reject_request-Answers env bob "recovery" "guardian" text_of_32 none
      (value_or no_decision refused) opening_world (ok_value no_decision refused evaluated.8)

create_request-IsFresh_example :
    IsOf "alice" "wallet" device_loss (value_or opening_request created)
    × IsFresh (value_or opening_request created)
create_request-IsFresh_example =
    create_request-IsFresh env alice "wallet" device_loss (value_or opening_request created)
      guarded_world (ok_value opening_request created evaluated.9)

cancel-cancelled_example :
    ((value_or opening_request withdrawn).owner_user_id ≡ "alice")
    × ((value_or opening_request withdrawn).session.state ≡ cancelled)
cancel-cancelled_example =
    cancel-cancelled env alice "recovery" (value_or opening_request withdrawn) opening_world
      (ok_value opening_request withdrawn evaluated.10)

reconcile_all-counts_example :
    (r : ℕ × ℕ) × ((reconcile_all env (opening_request ∷ []) 0 0 opening_world).0 ≡ ok r)
    × (r.0 + r.1 ≡ 1)
reconcile_all-counts_example = reconcile_all-counts env (opening_request ∷ []) 0 0 opening_world
