-- ===== src/Recovery/Guarantee/Decisions.antt =====
-- A decision of a guardian changes its request by steps only
-- (`_decide`, `approve` and `reject` in
-- services/recovery-service/app/application/services/recovery_service.py).
use secure_ssi_platform.Prelude.{
  ℕ, ◌≡◌, String, true, false, not, ◌||◌, Option, none, some, arith, leb, find, inl, inr,
  Bool-cases,
}
use secure_ssi_platform.Prelude.Equality.{◌==◌, text_equality}
use secure_ssi_platform.Recovery.Domain.States.{RecoveryDecision, state_equality, pending_approvals}
use secure_ssi_platform.Recovery.Domain.Guardians.{Guardian}
use secure_ssi_platform.Recovery.Domain.Requests.{RecoveryRequest}
use secure_ssi_platform.Recovery.Domain.Records.{RecoveryApproval}
use secure_ssi_platform.Recovery.Domain.Auth.{Principal}
use secure_ssi_platform.Recovery.Environment.{Environment}
use secure_ssi_platform.Recovery.Service.Decisions.{
  entitled, decision_target, validate_share, record_decision, decide_new, decide_after,
  decide_target, decide, approve_request, reject_request,
}
use secure_ssi_platform.Recovery.Service.Reconciliation.{is_due_to_expire}
use secure_ssi_platform.Recovery.Guarantee.Rules.{
  Under, IsFair, Under-pure, Under-raise, Under-if, Under-bind, Under-lift,
}
use secure_ssi_platform.Recovery.Guarantee.Atomic.{Under-read, Under-atomic}
use secure_ssi_platform.Recovery.Guarantee.Stores.{Safe-get_guardian, Safe-list_approvals}
use secure_ssi_platform.Recovery.Guarantee.Calls.{service_rules, Under-guard, Under-now}
use secure_ssi_platform.Recovery.Guarantee.Quorum.{
  share_for-Under, recalculate_quorum-Under, expire-Under,
}

-- A pending request whose approval window is over is due to expire.
due_pending :
    (q : RecoveryRequest) (at : ℕ)
    → not (q.session.state == pending_approvals) ≡ false
    → (leb q.session.approval_expires_at at || leb q.session.expires_at at) ≡ true
    → is_due_to_expire q at ≡ true
due_pending q at h k = ground arith

module _ (env : Environment) (fair : IsFair env) where
  validate_share-Under :
      {c : Option RecoveryRequest} (p : Principal) (id g : String) (q : RecoveryRequest) (at : ℕ)
      → Under c (validate_share env p id g q at)
  unfolding validate_share
  validate_share-Under p id g q at = search (service_rules, share_for-Under) depth 40

  record_decision-Under :
      {c : Option RecoveryRequest} (p : Principal) (id g : String) (d : RecoveryDecision) (at : ℕ)
      → Under c (record_decision env p id g d at)
  unfolding record_decision
  record_decision-Under p id g d at = search service_rules depth 40

module _ (env : Environment) (fair : IsFair env) (p : Principal) (id g : String) where
  decide_new-Under :
      (q : RecoveryRequest) (gu : Guardian) (ch : String) (pr : Option String)
      (d : RecoveryDecision)
      → Under (some q) (decide_new env p id g q gu ch pr d)
  unfolding decide_new
  decide_new-Under q gu ch pr d = Under-bind _ _ (Under-now env fair) λ at.
      Under-guard _ _ _ λ pending.
        Under-bind _ _
          (Under-if _ _ _
            (λ over.
              Under-bind _ _ (expire-Under env fair q p.user_id at (due_pending q at pending over))
                λ _. Under-raise _)
            (λ _. Under-pure tt))
          λ _.
            search
              (service_rules, validate_share-Under, record_decision-Under, recalculate_quorum-Under)
              depth 60

  decide_after-Under :
      (q : RecoveryRequest) (gu : Guardian) (ch : String) (pr : Option String)
      (d : RecoveryDecision) (o : Option RecoveryApproval)
      → Under (some q) (decide_after env p id g q gu ch pr d o)
  decide_after-Under q gu ch pr d none = decide_new-Under q gu ch pr d
  decide_after-Under q gu ch pr d (some a) = search service_rules

  no_target-Under :
      {c : Option RecoveryRequest} (ch : String) (pr : Option String) (d : RecoveryDecision)
      → Under c (decide_target env p id g ch pr d none)
  no_target-Under ch pr d = search service_rules depth 40

  target-Under :
      (q : RecoveryRequest) (gu : Guardian) (ch : String) (pr : Option String)
      (d : RecoveryDecision)
      → Under (some q) (decide_target env p id g ch pr d (some (q, gu)))
  target-Under q gu ch pr d =
      Under-bind _ _ (Under-atomic env fair _ (Safe-list_approvals id))
        λ xs. decide_after-Under q gu ch _ d (find (λ a. a.guardian_id == g) xs)

  decision_target-Under :
      (q : RecoveryRequest) (o : Option Guardian) (ch : String) (pr : Option String)
      (d : RecoveryDecision)
      → Under (some q) (decide_target env p id g ch pr d (decision_target p g (some q) o))
  decision_target-Under q none ch pr d = no_target-Under ch pr d
  decision_target-Under q (some gu) ch pr d = elim (Bool-cases (entitled p g q gu)) [
    | inl e ↦ rw e (target-Under q gu ch pr d)
    | inr e ↦ rw e (no_target-Under ch pr d)
  ]

  decide-Under :
      {c : Option RecoveryRequest} (ch : String) (pr : Option String) (d : RecoveryDecision)
      → Under c (decide env p id g ch pr d)
  unfolding decide
  decide-Under ch pr d =
      Under-read env fair id _
        (λ q.
          Under-bind _ _ (Under-atomic env fair _ (Safe-get_guardian g))
            λ o. decision_target-Under q o ch pr d)
        (Under-bind _ _ (Under-atomic env fair _ (Safe-get_guardian g))
          λ o. no_target-Under ch pr d)

  pub approve_request-Under :
      {c : Option RecoveryRequest} (ch : String) (pr : Option String)
      → Under c (approve_request env p id g ch pr)
  unfolding approve_request
  approve_request-Under ch pr = Under-bind _ _ (Under-lift _) λ _. decide-Under ch pr _

  pub reject_request-Under :
      {c : Option RecoveryRequest} (ch : String) (pr : Option String)
      → Under c (reject_request env p id g ch pr)
  unfolding reject_request
  reject_request-Under ch pr = Under-bind _ _ (Under-lift _) λ _. decide-Under ch pr _
