-- ===== src/Recovery/Promises/Recount.antt =====
-- What the parts of a count of the quorum preserve, and the quorum that it computes
-- (`_recalculate_quorum` of
-- services/recovery-service/app/application/services/recovery_service.py).
use secure_ssi_platform.Prelude.{
  ℕ, ◌≤◌, ◌≡◌, sym, ap, ◌∙◌, arith, String, true, count, List, [], ◌∷◌, leb,
}
use secure_ssi_platform.Prelude.Equality.{◌==◌}
use secure_ssi_platform.Recovery.Monad.{ok}
use secure_ssi_platform.Recovery.Domain.States.{
  RecoveryState, state_equality, pending_approvals, approve, reject, RecoveryDecision,
  decision_equality,
}
use secure_ssi_platform.Recovery.Domain.Requests.{
  RecoveryQuorum, RecoverySession, RecoveryRequest, transition, check_quorum,
}
use secure_ssi_platform.Prelude.Equality.{text_equality}
use secure_ssi_platform.Prelude.Dict.{insert}
use secure_ssi_platform.Recovery.Environment.{Environment, World, atomic}
use secure_ssi_platform.Recovery.Domain.Records.{RecoveryApproval}
use secure_ssi_platform.Recovery.Repository.State.{Repository}
use secure_ssi_platform.Recovery.Repository.Requests as Store
use secure_ssi_platform.Recovery.Repository.Guardians as Guards
use secure_ssi_platform.Recovery.Repository.Evidence.{list_approvals}
use secure_ssi_platform.Recovery.History.Safety.{past_quorum}
use secure_ssi_platform.Recovery.Guarantee.Quorum.{check-quorum_eq}
use secure_ssi_platform.Recovery.Promises.Preserves.{
  Preserves, IsBlind, Preserves-pure, Preserves-if, Preserves-then, Preserves-bind,
  Preserves-bind_lift, Preserves-increment, Preserves-atomic, Preserves-update, Preserves-audit,
}
use secure_ssi_platform.Recovery.Promises.Votes.{
  votes, SameVotes, IsQuiet, SameVotes-others, listed-votes, valid_decisions-votes,
}
use secure_ssi_platform.Recovery.Service.Quorum.{
  tally, valid_decisions, unreachable, start_timelock, apply_quorum,
}
use secure_ssi_platform.Recovery.History.Moves.{transition-moved, check-request_eq}
use secure_ssi_platform.Recovery.Promises.Execution.{update-ok}

-- The policy and the wallet are the same, so the same decisions count.
unfoldable pub Like : RecoveryRequest → RecoveryRequest → Type 0
Like q x = (x.policy ≡ q.policy) × (x.wallet_id ≡ q.wallet_id)

module _ (env : Environment) where
  pub moved-Like :
      (q x : RecoveryRequest) (s : RecoveryState) (at : ℕ) (ch : RecoverySession → RecoverySession)
      → transition q s at ch ≡ ok x
      → Like q x
  unfolding Like
  moved-Like q x s at ch made =
      let e = (transition-moved q s at ch made).0 in
      (ap (λ (y : RecoveryRequest). y.policy) e, ap (λ (y : RecoveryRequest). y.wallet_id) e)

  moved-state :
      (q x : RecoveryRequest) (s : RecoveryState) (at : ℕ) (ch : RecoverySession → RecoverySession)
      → transition q s at ch ≡ ok x
      → x.session.state ≡ s
  moved-state q x s at ch made =
      ap (λ (y : RecoveryRequest). y.session.state) (transition-moved q s at ch made).0

  pub Like-after : (q x y z : RecoveryRequest) → Like q x → y ≡ x → Like y z → Like q z
  unfolding Like
  Like-after q x y z (p, w) e (p', w') = (
    p' ∙ ap (λ (r : RecoveryRequest). r.policy) e ∙ p,
    w' ∙ ap (λ (r : RecoveryRequest). r.wallet_id) e ∙ w,
  )

  -- The writes of a recount are of requests with the same policy, and are past the quorum only if the
  -- counted approvals are enough.
  module _ {P : Repository → Type 0} (blind : IsBlind P)
      (others : (n : ℕ) (b : Repository) → P b → P (env.others n b)) (q : RecoveryRequest)
      (n : RecoveryQuorum)
      (write : (x : RecoveryRequest) (b : Repository)
        → Like q x
        → (past_quorum x.session.state ≡ true → q.policy.minimum_approvals ≤ n.approvals)
        → P b
        → P (record b { requests = insert x.request_id x b.requests })) where
    start_timelock-Preserves :
        (id : String) (at : ℕ)
        → leb q.policy.minimum_approvals n.approvals ≡ true
        → Preserves P (start_timelock env id q at n)
    unfolding start_timelock
    start_timelock-Preserves id at enough =
        let least : q.policy.minimum_approvals ≤ n.approvals = ground (arith, enough) in
        Preserves-bind_lift _ _ λ next made.
          let like = moved-Like q next _ at _ made in
          Preserves-then _ _
            (Preserves-update env others next q.version (λ b. write next b like (λ _. least)))
            λ reached w _ wrote.
              Preserves-bind _ _ (Preserves-audit env others blind _ _ _ _ _ _) λ _.
                Preserves-bind _ _ (Preserves-increment _) λ _.
                  Preserves-bind_lift _ _ λ waiting made'.
                    let like' =
                      Like-after q next reached waiting like (update-ok env next reached _ _ wrote)
                        (moved-Like reached waiting _ at _ made') in
                    Preserves-bind _ _
                      (Preserves-update env others waiting reached.version
                        (λ b. write waiting b like' (λ _. least)))
                      λ stored.
                        Preserves-bind _ _ (Preserves-audit env others blind _ _ _ _ _ _)
                          λ _. Preserves-pure stored

    pub apply_quorum-Preserves :
        (id : String) (at : ℕ)
        → q.session.state ≡ pending_approvals
        → Preserves P (apply_quorum env id q at n)
    unfolding apply_quorum Like
    apply_quorum-Preserves id at pending =
        Preserves-if (leb q.policy.minimum_approvals n.approvals) _ _
          (λ enough. start_timelock-Preserves id at enough)
          λ _.
            Preserves-if (unreachable q n) _ _
              (λ _. Preserves-bind_lift _ _ λ next made.
                Preserves-update env others next q.version (λ b.
                  write next b (moved-Like q next _ at _ made)
                    (λ p. cc (moved-state q next _ at _ made))))
              λ _. Preserves-bind_lift _ _ λ session _. Preserves-bind_lift _ _ λ next checked.
                let e = sym (check-request_eq _ checked) in
                Preserves-update env others next q.version (λ b.
                  write next b
                    (
                      ap (λ (y : RecoveryRequest). y.policy) e,
                      ap (λ (y : RecoveryRequest). y.wallet_id) e,
                    )
                    (λ p. cc (pending, ap (λ (y : RecoveryRequest). y.session.state) e)))

  pub valid_decisions-Preserves :
      {P : Repository → Type 0} (others : (n : ℕ) (b : Repository) → P b → P (env.others n b))
      (q : RecoveryRequest) (xs : List RecoveryApproval)
      → Preserves P (valid_decisions env q xs)
  unfolding valid_decisions Guards.get_guardian
  valid_decisions-Preserves others q [] = Preserves-pure []
  valid_decisions-Preserves others q (x ∷ xs) =
      Preserves-bind _ _
        (Preserves-atomic env others (Guards.get_guardian x.guardian_id) (λ b p. p))
        λ _. Preserves-bind _ _ (valid_decisions-Preserves others q xs) λ _. Preserves-pure _

  pub list-Preserves :
      {P : Repository → Type 0} (others : (n : ℕ) (b : Repository) → P b → P (env.others n b))
      (id : String)
      → Preserves P (atomic env (list_approvals id))
  unfolding list_approvals
  list-Preserves others id = Preserves-atomic env others (list_approvals id) (λ b p. p)

  pub get-Preserves :
      {P : Repository → Type 0} (others : (n : ℕ) (b : Repository) → P b → P (env.others n b))
      (id : String)
      → Preserves P (atomic env (Store.get_request id))
  unfolding Store.get_request
  get-Preserves others id = Preserves-atomic env others (Store.get_request id) (λ b p. p)

  module _ (quiet : IsQuiet env) (a : Repository) where
    -- The quorum that a recount computes is that of the votes.
    pub tally-votes :
        (q : RecoveryRequest) (id : String) (at : ℕ) (ds valid : List RecoveryApproval)
        (n : RecoveryQuorum) (u v : World)
        → SameVotes a u.repository
        → (atomic env (list_approvals id) u).0 ≡ ok ds
        → SameVotes a v.repository
        → (valid_decisions env q ds v).0 ≡ ok valid
        → check_quorum (tally q at valid) ≡ ok n
        → (n.approvals ≡ votes a q id approve) × (n.rejections ≡ votes a q id reject)
    tally-votes q id at ds valid n u v su hl sv hv hn =
        let others = SameVotes-others quiet a in
        let e = sym (check-quorum_eq _ hn) in
        let counted : (d : RecoveryDecision) → count (λ x. x.decision == d) valid ≡ votes a q id d =
          λ d.
            valid_decisions-votes env a others q d ds valid v sv hv
            ∙ listed-votes env a others q id d ds u su hl in
        (
          ap (λ (m : RecoveryQuorum). m.approvals) e ∙ counted approve,
          ap (λ (m : RecoveryQuorum). m.rejections) e ∙ counted reject,
        )
