-- ===== src/Recovery/Promises/Quorum.antt =====
-- What a count of the quorum leaves (`_recalculate_quorum` of
-- services/recovery-service/app/application/services/recovery_service.py).
use secure_ssi_platform.Prelude.{
  ℕ, zero, suc, ◌+◌, ◌<◌, ◌≤◌, ◌≡◌, sym, ap, ◌∙◌, arith, String, true, false, not, inl, inr, leb,
  length,
}
use secure_ssi_platform.Prelude.Equality.{◌==◌}
use mathlib.Core.Path.{subst}
use secure_ssi_platform.Recovery.Monad.{RecoveryError, ok, is_conflict, pure, raise, lift, or_raise}
use secure_ssi_platform.Recovery.Domain.States.{
  RecoveryState, state_equality, pending_approvals, waiting_timelock, rejected, approve, reject,
  decision_equality,
}
use secure_ssi_platform.Recovery.Domain.Requests.{RecoveryQuorum, RecoveryRequest, check_quorum}
use secure_ssi_platform.Prelude.Equality.{text_equality}
use secure_ssi_platform.Prelude.Dict.{insert}
use secure_ssi_platform.Recovery.Environment.{Environment, World, atomic}
use secure_ssi_platform.Recovery.Repository.State.{Repository}
use secure_ssi_platform.Recovery.Repository.Requests as Store
use secure_ssi_platform.Recovery.Repository.Evidence.{list_approvals}
use secure_ssi_platform.Recovery.History.Safety.{past_quorum}
use secure_ssi_platform.Recovery.Promises.Preserves.{Preserves-or_raise}
use secure_ssi_platform.Recovery.Promises.Votes.{
  votes, SameVotes, IsQuiet, SameVotes-refl, SameVotes-IsBlind, SameVotes-others,
}
use secure_ssi_platform.Recovery.Service.Quorum.{
  tally, valid_decisions, unreachable, recounted, start_timelock, apply_quorum, recalculate_quorum,
}
use secure_ssi_platform.Recovery.History.Moves.{transition-moved, check-request_eq}
use secure_ssi_platform.Prelude.Returns.{bind-ok, catch-ok, if-ok, err-ne-ok, ok-injective}
use secure_ssi_platform.Recovery.Promises.Recount.{
  Like, apply_quorum-Preserves, valid_decisions-Preserves, list-Preserves, get-Preserves,
  tally-votes,
}
use secure_ssi_platform.Recovery.Promises.Execution.{update-ok}

-- The votes in the repository have not decided on the request yet: approvals are missing, and the
-- guardians that have not rejected are enough for them. The request carries these very counts.
pub record IsOpen (a : Repository) (id : String) (q : RecoveryRequest) : Type 0 where
  pub approvals : q.session.quorum.approvals ≡ votes a q id approve
  pub rejections : q.session.quorum.rejections ≡ votes a q id reject
  pub missing : votes a q id approve < q.policy.minimum_approvals
  pub reachable : q.policy.minimum_approvals + votes a q id reject ≤ length q.policy.guardian_ids

elsewhere : (s : RecoveryState) → not (s == pending_approvals) ≡ true → s ≡ pending_approvals → ⊥
elsewhere s h e = ground (arith, e)

module _ (env : Environment) where
  start_timelock-state :
      (id : String) (q r : RecoveryRequest) (at : ℕ) (n : RecoveryQuorum) (w : World)
      → (start_timelock env id q at n w).0 ≡ ok r
      → r.session.state ≡ waiting_timelock
  unfolding start_timelock lift pure
  start_timelock-state id q r at n w h =
      let (_, _, h1) = bind-ok _ _ w h in
      let (reached, _, h2) = bind-ok _ _ _ h1 in
      let (_, _, h3) = bind-ok _ _ _ h2 in
      let (_, _, h4) = bind-ok _ _ _ h3 in
      let (waiting, moves, h5) = bind-ok _ _ _ h4 in
      let (stored, written, h6) = bind-ok _ _ _ h5 in
      let (_, _, h7) = bind-ok _ _ _ h6 in
      ap (λ (x : RecoveryRequest). x.session.state)
        (sym (ok-injective h7)
          ∙ update-ok env waiting stored _ _ written
          ∙ (transition-moved reached waiting_timelock at _ moves).0)

  apply_quorum-IsOpen :
      (a : Repository) (id : String) (q r : RecoveryRequest) (at : ℕ) (n : RecoveryQuorum)
      (w : World)
      → n.approvals ≡ votes a q id approve
      → n.rejections ≡ votes a q id reject
      → (apply_quorum env id q at n w).0 ≡ ok r
      → r.session.state ≡ pending_approvals
      → IsOpen a id r
  unfolding apply_quorum lift
  apply_quorum-IsOpen a id q r at n w fors againsts h p =
      elim (if-ok (leb q.policy.minimum_approvals n.approvals) _ _ w h) [
        | inl (_, started) ↦ cc (start_timelock-state id q r at n w started, p)
        | inr (few, h1) ↦ elim (if-ok (unreachable q n) _ _ w h1) [
          | inl (_, h2) ↦
              let (next, moves, h3) = bind-ok _ _ w h2 in
              cc (
                ap (λ (x : RecoveryRequest). x.session.state)
                    (update-ok env next r _ _ h3 ∙ (transition-moved q rejected at _ moves).0),
                p,
              )
          | inr (many, h2) ↦
              let (_, _, h3) = bind-ok _ _ w h2 in
              let (next, checked, h4) = bind-ok _ _ _ h3 in
              let e : r ≡ recounted q n at =
                update-ok env next r _ _ h4 ∙ sym (check-request_eq _ checked) in
              let missing : n.approvals < q.policy.minimum_approvals = ground (arith, few) in
              let reachable : q.policy.minimum_approvals + n.rejections
                  ≤ length q.policy.guardian_ids =
                ground (arith, many) in
              subst (IsOpen a id) (sym e) (record {
                approvals = fors;
                rejections = againsts;
                missing = subst (λ m. m < q.policy.minimum_approvals) fors missing;
                reachable =
                    subst (λ m. q.policy.minimum_approvals + m ≤ length q.policy.guardian_ids)
                      againsts reachable;
              })
        ]
      ]

  module _ (quiet : IsQuiet env) (a : Repository) where
    pub same_write :
        (q : RecoveryRequest) (n : RecoveryQuorum) (x : RecoveryRequest) (b : Repository)
        → Like q x
        → (past_quorum x.session.state ≡ true → q.policy.minimum_approvals ≤ n.approvals)
        → SameVotes a b
        → SameVotes a (record b { requests = insert x.request_id x b.requests })
    same_write q n x b like past s = record { guardians = s.guardians; approvals = s.approvals }

    pub pending_state :
        (s : RecoveryState) → not (s == pending_approvals) ≡ false → s ≡ pending_approvals
    pending_state s h = (state_equality.beq_iff s pending_approvals).0 (ground (arith, h))

    pending-IsOpen :
        (rounds : ℕ) (id : String) (r : RecoveryRequest) (at : ℕ) (w : World)
        → SameVotes a w.repository
        → (recalculate_quorum env rounds id at w).0 ≡ ok r
        → r.session.state ≡ pending_approvals
        → IsOpen a id r
    unfolding recalculate_quorum lift pure raise
    pending-IsOpen zero id r at w s h p = absurd (err-ne-ok h)
    pending-IsOpen (suc rounds) id r at w s h p =
        let others = SameVotes-others quiet a in
        let (found, _, h1) = bind-ok (atomic env (Store.get_request id)) _ w h in
        let s1 = (get-Preserves env others id).at w s in
        let (q, _, h2) = bind-ok (or_raise found RecoveryError.not_found) _ _ h1 in
        let s2 = (Preserves-or_raise {P = SameVotes a} found RecoveryError.not_found).at _ s1 in
        elim (if-ok (not (q.session.state == pending_approvals)) _ _ _ h2) [
          | inl (over, same) ↦ absurd (
              elsewhere q.session.state over
                (ap (λ (x : RecoveryRequest). x.session.state) (ok-injective same) ∙ p))
          | inr (still, h3) ↦
              let (ds, hl, h4) = bind-ok (atomic env (list_approvals id)) _ _ h3 in
              let s3 = (list-Preserves env others id).at _ s2 in
              let (valid, hv, h5) = bind-ok (valid_decisions env q ds) _ _ h4 in
              let s4 = (valid_decisions-Preserves env others q ds).at _ s3 in
              let (n, hn, h6) = bind-ok (lift (check_quorum (tally q at valid))) _ _ h5 in
              let (fors, againsts) =
                tally-votes env quiet a q id at ds valid n _ _ s2 hl s3 hv hn in
              elim (catch-ok (apply_quorum env id q at n) _ _ h6) [
                | inl applied ↦ apply_quorum-IsOpen a id q r at n _ fors againsts applied p
                | inr (e, again) ↦
                    let s5 =
                      (apply_quorum-Preserves env (SameVotes-IsBlind a) others q n (same_write q n)
                          id at (pending_state q.session.state still)).at
                        _ s4 in
                    elim (if-ok (is_conflict e) (recalculate_quorum env rounds id at) (raise e) _
                      again) [
                        | inl (_, retried) ↦ pending-IsOpen rounds id r at _ s5 retried p
                        | inr (_, raised) ↦ absurd (err-ne-ok raised)
                      ]
              ]
        ]

  -- A count of the quorum that returns, in any number of rounds, leaves the request it returns pending
  -- only while the votes in the repository are too few approvals, and while the guardians that have
  -- not rejected are enough for the approvals that the policy asks for; the request carries the counts
  -- of these votes. Other threads may do anything but change guardians and record decisions.
  pub recalculate_quorum-IsOpen :
      IsQuiet env
      → (rounds : ℕ) (id : String) (r : RecoveryRequest) (at : ℕ) (w : World)
      → (recalculate_quorum env rounds id at w).0 ≡ ok r
      → r.session.state ≡ pending_approvals
      → IsOpen w.repository id r
  recalculate_quorum-IsOpen quiet rounds id r at w h p =
      pending-IsOpen quiet w.repository rounds id r at w (SameVotes-refl w.repository) h p
