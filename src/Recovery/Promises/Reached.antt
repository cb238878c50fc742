-- ===== src/Recovery/Promises/Reached.antt =====
-- A quorum is reached only by votes (`_recalculate_quorum` of
-- services/recovery-service/app/application/services/recovery_service.py).
use mathlib.Core.Path.{subst}
use secure_ssi_platform.Prelude.{
  ℕ, zero, suc, ◌≤◌, ◌≡◌, sym, ap, ◌∙◌, refl, String, true, not, some, some-eq, inl, inr,
}
use secure_ssi_platform.Prelude.Equality.{◌==◌, text_equality}
use secure_ssi_platform.Prelude.Dict.{lookup, insert, insert-cases}
use secure_ssi_platform.Recovery.Monad.{is_conflict}
use secure_ssi_platform.Recovery.Domain.States.{
  RecoveryDecision, state_equality, pending_approvals, approve,
}
use secure_ssi_platform.Recovery.Domain.Requests.{RecoveryQuorum, RecoveryRequest}
use secure_ssi_platform.Recovery.Repository.State.{Repository}
use secure_ssi_platform.Recovery.Environment.{Environment, World}
use secure_ssi_platform.Recovery.Service.Quorum.{recalculate_quorum}
use secure_ssi_platform.Recovery.History.Safety.{past_quorum}
use secure_ssi_platform.Recovery.Promises.Preserves.{
  Preserves, IsBlind, Preserves-pure, Preserves-raise, Preserves-or_raise, Preserves-if,
  Preserves-catch, Preserves-then, Preserves-bind_lift,
}
use secure_ssi_platform.Recovery.Promises.Votes.{
  votes, SameVotes, IsQuiet, SameVotes-refl, SameVotes-others,
}
use secure_ssi_platform.Recovery.Promises.Recount.{
  Like, apply_quorum-Preserves, valid_decisions-Preserves, list-Preserves, get-Preserves,
  tally-votes,
}
use secure_ssi_platform.Recovery.Promises.Quorum.{pending_state}

Like-votes :
    (a : Repository) (id : String) (d : RecoveryDecision) (q x : RecoveryRequest)
    → Like q x
    → votes a x id d ≡ votes a q id d
unfolding Like
Like-votes a id d q x (p, w) = rw (p, w) refl

module _ (a : Repository) (id : String) where
  -- The request under the id is past the quorum only with enough votes.
  record Backed (b : Repository) : Type 0 where
    same : SameVotes a b
    enough :
        (x : RecoveryRequest)
        → lookup id b.requests ≡ some x
        → past_quorum x.session.state ≡ true
        → x.policy.minimum_approvals ≤ votes a x id approve

  Backed-IsBlind : IsBlind Backed
  Backed-IsBlind = record {
    audit_events = λ b c r g d _ p. record {
      same = record { guardians = g ∙ p.same.guardians; approvals = d ∙ p.same.approvals };
      enough = λ x h. p.enough x (ap (lookup id) (sym r) ∙ h);
    };
  }

  write-Backed :
      (q : RecoveryRequest) (n : RecoveryQuorum)
      → n.approvals ≡ votes a q id approve
      → (x : RecoveryRequest) (b : Repository) → Like q x
      → (past_quorum x.session.state ≡ true → q.policy.minimum_approvals ≤ n.approvals)
      → Backed b
      → Backed (record b { requests = insert x.request_id x b.requests })
  unfolding Like
  write-Backed q n fors x b like past p = record {
    same = record { guardians = p.same.guardians; approvals = p.same.approvals };
    enough = λ y h over. elim (insert-cases id x.request_id x b.requests h) [
      | inl (_, e) ↦
          subst (λ z. z.policy.minimum_approvals ≤ votes a z id approve) e
            (subst (λ m. x.policy.minimum_approvals ≤ m) (sym (Like-votes a id approve q x like))
              (subst (λ m. x.policy.minimum_approvals ≤ m) fors
                (rw like.0
                  (past (ap (λ (z : RecoveryRequest). past_quorum z.session.state) e ∙ over)))))
      | inr old ↦ p.enough y old over
    ];
  }

  module _ (env : Environment) (quiet : IsQuiet env)
      (alone : (n : ℕ) (b : Repository)
        → lookup id (env.others n b).requests ≡ lookup id b.requests) where
    others-Backed : (n : ℕ) (b : Repository) → Backed b → Backed (env.others n b)
    others-Backed n b p = record {
      same = SameVotes-others quiet a n b p.same;
      enough = λ x h. p.enough x (sym (alone n b) ∙ h);
    }

    recount-Backed : (rounds : ℕ) (at : ℕ) → Preserves Backed (recalculate_quorum env rounds id at)
    unfolding recalculate_quorum
    recount-Backed zero at = Preserves-raise _
    recount-Backed (suc rounds) at =
        Preserves-then _ _ (get-Preserves env others-Backed id) λ found w _ h.
          Preserves-then _ _ (Preserves-or_raise found _) λ q t _ e.
            Preserves-if (not (q.session.state == pending_approvals)) _ _ (λ _. Preserves-pure q)
              λ still. Preserves-then _ _ (list-Preserves env others-Backed id) λ ds u pu hl.
                Preserves-then _ _ (valid_decisions-Preserves env others-Backed q ds)
                  λ valid v pv hv. Preserves-bind_lift _ _ λ n hn.
                    let (fors, _) =
                      tally-votes env quiet a q id at ds valid n u v pu.same hl pv.same hv hn in
                    Preserves-catch _ _
                      (apply_quorum-Preserves env Backed-IsBlind others-Backed q n
                        (write-Backed q n fors) id at
                        (pending_state env quiet a q.session.state still))
                      λ failure.
                        Preserves-if (is_conflict failure) _ _ (λ _. recount-Backed rounds at)
                          λ _. Preserves-raise failure

-- If a count of the quorum, whatever it returns or raises, leaves a request past the quorum that was
-- pending, then the repository has as many votes for it as its policy asks for: approvals of this
-- request by guardians that are active, of its wallet and in its snapshot. Other threads may do
-- anything but change guardians, record decisions and write this request.
pub recalculate_quorum-reached :
    (env : Environment)
    → IsQuiet env
    → (rounds : ℕ) (id : String) (at : ℕ) (w : World) (q : RecoveryRequest)
    → ((n : ℕ) (b : Repository) → lookup id (env.others n b).requests ≡ lookup id b.requests)
    → lookup id w.repository.requests ≡ some q
    → q.session.state ≡ pending_approvals
    → (x : RecoveryRequest)
    → lookup id (recalculate_quorum env rounds id at w).1.repository.requests ≡ some x
    → past_quorum x.session.state ≡ true
    → x.policy.minimum_approvals ≤ votes w.repository x id approve
recalculate_quorum-reached env quiet rounds id at w q alone found pending =
    ((recount-Backed w.repository id env quiet alone rounds at).at w (record {
      same = SameVotes-refl w.repository;
      enough = λ y h over. cc (some-eq (sym found ∙ h), pending, over);
    })).enough
