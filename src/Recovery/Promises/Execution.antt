-- ===== src/Recovery/Promises/Execution.antt =====
-- What a completed recovery rests on (`_execute` of
-- services/recovery-service/app/application/services/recovery_service.py).
use secure_ssi_platform.Prelude.{
  ℕ, ◌≡◌, sym, ap, ◌∙◌, arith, Bool, true, false, not, inl, inr, ◌⊎◌, if◌then◌else◌, String,
}
use secure_ssi_platform.Prelude.Equality.{◌==◌, nat_equality}
use secure_ssi_platform.Recovery.Monad.{RecoveryError, is_secret_share, ok, pure, lift}
use secure_ssi_platform.Recovery.Domain.States.{
  state_equality, completed, ready_for_execution, reconciliation_required, failed,
}
use secure_ssi_platform.Recovery.Domain.Requests.{RecoveryRequest}
use secure_ssi_platform.Recovery.Environment.{Environment, World, atomic, now}
use secure_ssi_platform.Recovery.Repository.Requests.{update_request}
use secure_ssi_platform.Recovery.History.Moves.{transition-moved}
use secure_ssi_platform.Recovery.Service.Execution.{
  run_claimed, record_execution_failure, may_retry, failed_execution, execute,
}
use secure_ssi_platform.Prelude.Returns.{bind-ok, catch-ok, if-ok, ok-injective}
use secure_ssi_platform.Recovery.Repository.State.{Repository}
use secure_ssi_platform.Recovery.Promises.Preserves.{
  Preserves, Preserves-now, Preserves-lift, Preserves-update, Preserves-audit,
}
use secure_ssi_platform.Recovery.Promises.Authorised.{
  IsAuthorised, IsStill, SameEvidence, SameEvidence-refl, SameEvidence-IsBlind, others,
  authorise-IsAuthorised,
}

module _ (env : Environment) where
  -- An update that returned gives back what it wrote.
  pub update-ok :
      (q r : RecoveryRequest) (n : ℕ) (w : World)
      → (atomic env (update_request q n) w).0 ≡ ok r
      → r ≡ q
  unfolding atomic update_request
  update-ok q r n w h = ground arith

  run_claimed-ok :
      (still : IsStill env) (a : Repository) (q claimed r : RecoveryRequest) (actor_id : String)
      (w : World)
      → SameEvidence a w.repository
      → (run_claimed env q claimed actor_id w).0 ≡ ok r
      → IsAuthorised env a q × (r.session.state ≡ completed)
  unfolding run_claimed lift pure
  run_claimed-ok still a q claimed r actor_id w s h =
      let (_, granted, h1) = bind-ok _ _ w h in
      let (outcome, _, h2) = bind-ok _ _ _ h1 in
      let (at, _, h3) = bind-ok _ _ _ h2 in
      let (_, _, h4) = bind-ok _ _ _ h3 in
      let (result, _, h5) = bind-ok _ _ _ h4 in
      let (next, moves, h6) = bind-ok _ _ _ h5 in
      let (stored, written, h7) = bind-ok _ _ _ h6 in
      let (_, _, h8) = bind-ok _ _ _ h7 in
      let (_, _, h9) = bind-ok _ _ _ h8 in
      (
        authorise-IsAuthorised env still a q w s granted,
        ap (λ (x : RecoveryRequest). x.session.state)
            (sym (ok-injective h9)
              ∙ update-ok next stored _ _ written
              ∙ (transition-moved claimed completed at _ moves).0),
      )

  -- A failed execution is to be tried again or given up.
  failure-state :
      (claimed r : RecoveryRequest) (actor_id code : String) (retryable : Bool) (w : World)
      → (record_execution_failure env claimed actor_id code retryable w).0 ≡ ok r
      → r.session.state ≡ (if may_retry claimed retryable then reconciliation_required else failed)
  unfolding record_execution_failure lift pure
  failure-state claimed r actor_id code retryable w h =
      let (at, _, h1) = bind-ok _ _ w h in
      let (failure, _, h2) = bind-ok _ _ _ h1 in
      let (next, moves, h3) = bind-ok _ _ _ h2 in
      let (stored, written, h4) = bind-ok _ _ _ h3 in
      let (_, _, h5) = bind-ok _ _ _ h4 in
      let (_, _, h6) = bind-ok _ _ _ h5 in
      ap (λ (x : RecoveryRequest). x.session.state)
        (sym (ok-injective h6)
          ∙ update-ok next stored _ _ written
          ∙ (transition-moved claimed _ at _ moves).0)

  failed-state :
      (claimed r : RecoveryRequest) (actor_id : String) (e : RecoveryError) (w : World)
      → (failed_execution env claimed actor_id e w).0 ≡ ok r
      → (b : Bool) × (r.session.state ≡ (if b then reconciliation_required else failed))
  failed-state claimed r actor_id e w h = elim (if-ok (is_secret_share e) _ _ w h) [
    | inl (_, p) ↦
        let (_, _, p') = bind-ok _ _ w p in
        (may_retry claimed false, failure-state claimed r actor_id _ _ _ p')
    | inr (_, p) ↦ (may_retry claimed true, failure-state claimed r actor_id _ _ _ p)
  ]

  written-SameEvidence :
      (still : IsStill env) (a : Repository) (q : RecoveryRequest) (v : ℕ)
      → Preserves (SameEvidence a) (atomic env (update_request q v))
  written-SameEvidence still a q v =
      Preserves-update env (others env still a) q v
        λ b s. record { guardians = s.guardians; approvals = s.approvals; shares = s.shares }

  -- An execution of a ready request that returns has either completed it or left it failed or to be
  -- reconciled. It has completed it only if the repository it began in has as many approvals of this
  -- request as its policy asks for, by guardians that are active, of its wallet and in its snapshot,
  -- and if the shares that are stored for them are of this request and combine to a secret of sixteen
  -- bytes. Other threads may do anything but change guardians and shares, and record decisions.
  pub execute-IsAuthorised :
      IsStill env
      → (q r : RecoveryRequest) (actor_id : String) (w : World)
      → q.session.state ≡ ready_for_execution
      → (execute env q actor_id w).0 ≡ ok r
      → (IsAuthorised env w.repository q × (r.session.state ≡ completed))
        ⊎ ((b : Bool) × (r.session.state ≡ (if b then reconciliation_required else failed)))
  unfolding execute
  execute-IsAuthorised still q r actor_id w ready h =
      elim (if-ok (not (q.session.state == ready_for_execution)) _ _ w h) [
        | inl (not_ready, p) ↦ absurd (clash not_ready)
        | inr (_, p) ↦
            let a = w.repository in
            let (at, _, h1) = bind-ok (now env) _ w p in
            let s1 = (Preserves-now {P = SameEvidence a} env).at w (SameEvidence-refl a) in
            let (lease, _, h2) = bind-ok _ _ _ h1 in
            let s2 = (Preserves-lift {P = SameEvidence a} _).at _ s1 in
            let (next, _, h3) = bind-ok _ _ _ h2 in
            let s3 = (Preserves-lift {P = SameEvidence a} _).at _ s2 in
            let (claimed, _, h4) = bind-ok (atomic env (update_request next q.version)) _ _ h3 in
            let s4 = (written-SameEvidence still a next q.version).at _ s3 in
            let (_, _, h5) = bind-ok _ _ _ h4 in
            let s5 =
              (Preserves-audit env (others env still a) (SameEvidence-IsBlind a) _ _ _ _ _ _).at _
                s4 in
            elim (catch-ok (run_claimed env q claimed actor_id)
              (failed_execution env claimed actor_id) _ h5) [
                | inl done ↦ inl (run_claimed-ok still a q claimed r actor_id _ s5 done)
                | inr (e, handled) ↦ inr (failed-state claimed r actor_id e _ handled)
              ]
      ]
    where
      clash : not (q.session.state == ready_for_execution) ≡ true → ⊥
      clash p = ground (arith, ready)
