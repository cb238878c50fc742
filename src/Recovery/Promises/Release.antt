-- ===== src/Recovery/Promises/Release.antt =====
-- A time-lock is not released early (`_reconcile_one` of
-- services/recovery-service/app/application/services/recovery_service.py).
use mathlib.Core.Path.{subst}
use mathlib.Core.Bool.{true≢false}
use secure_ssi_platform.Prelude.{
  ℕ, zero, suc, ◌<◌, ◌≡◌, ◌⊎◌, inl, inr, String, true, false, ◌&&◌, Option, some, refl, sym, ap,
  ◌∙◌, arith, leb, Option-cases, some-eq,
}
use secure_ssi_platform.Prelude.Equality.{◌==◌, text_equality}
use secure_ssi_platform.Prelude.Dict.{lookup, insert, insert-cases}
use secure_ssi_platform.Prelude.Returns.{ok-injective, err-ne-ok, or_raise-eq_ok}
use secure_ssi_platform.Recovery.Monad.{RecoveryError, ok, or_raise, is_conflict}
use secure_ssi_platform.Recovery.Domain.States.{
  RecoveryState, terminal, state_equality, waiting_timelock, expired, quorum_reached,
  ready_for_execution, executing, reconciliation_required,
}
use secure_ssi_platform.Recovery.Domain.Requests.{RecoveryRequest, transition}
use secure_ssi_platform.Recovery.Repository.State.{Repository}
use secure_ssi_platform.Recovery.Repository.Requests as Store
use secure_ssi_platform.Recovery.Environment.{Environment, World, external, atomic, now}
use secure_ssi_platform.Recovery.Service.Quorum.{expire}
use secure_ssi_platform.Recovery.Service.Reconciliation.{
  is_due_to_expire, lock_elapsed, advance, reconcile_one,
}
use secure_ssi_platform.Recovery.History.Moves.{transition-moved}
use secure_ssi_platform.Recovery.Promises.Preserves.{
  Preserves, IsBlind, Preserves-pure, Preserves-raise, Preserves-or_raise, Preserves-if,
  Preserves-catch, Preserves-then, Preserves-bind, Preserves-bind_lift, Preserves-increment,
  Preserves-now, Preserves-atomic, Preserves-update, Preserves-audit,
}

-- The request still waits for the same time, or has expired.
abbrev pub StillWaits : ℕ → RecoveryRequest → Type 0
StillWaits until q =
    ((q.session.state ≡ waiting_timelock) × (q.session.executable_after ≡ some until))
    ⊎ (q.session.state ≡ expired)

module _ (until : ℕ) (id : String) where
  abbrev Waits : Repository → Type 0
  Waits a = (x : RecoveryRequest) → lookup id a.requests ≡ some x → StillWaits until x

  Waits-IsBlind : IsBlind Waits
  Waits-IsBlind = record {
    audit_events = λ a b same _ _ _ p x h. p x (ap (λ d. lookup id d) (sym same) ∙ h);
  }

  module _ (env : Environment)
      (others : (n : ℕ) (a : Repository) → Waits a → Waits (env.others n a)) where
    expire-Waits :
        (q : RecoveryRequest) (actor : String) (at : ℕ) → Preserves Waits (expire env q actor at)
    unfolding expire
    expire-Waits q actor at =
        Preserves-if (q.session.state == expired) _ _ (λ _. Preserves-pure q)
          λ _. Preserves-bind_lift (transition q expired at (λ s. s)) _ λ next made.
            Preserves-bind _ _ (Preserves-update env others next q.version (written next made))
              λ stored.
                Preserves-bind _ _ (Preserves-audit env others Waits-IsBlind _ _ _ _ _ _)
                  λ _. Preserves-bind _ _ (Preserves-increment _) λ _. Preserves-pure stored
      where
        written :
            (next : RecoveryRequest)
            → transition q expired at (λ s. s) ≡ ok next
            → (a : Repository) → Waits a
            → Waits (record a { requests = insert next.request_id next a.requests })
        written next made a p x h = elim (insert-cases id next.request_id next a.requests h) [
          | inl (_, e) ↦ inr (
              ap (λ (y : RecoveryRequest). y.session.state)
                (sym e ∙ (transition-moved q expired at (λ s. s) made).0))
          | inr old ↦ p x old
        ]

    -- Nothing but the expiry is done to a request whose lock is not over.
    advance-Waits :
        (q : RecoveryRequest) (actor : String) (at : ℕ)
        → StillWaits until q
        → terminal q.session.state ≡ false
        → at < until
        → Preserves Waits (advance env id q actor at)
    unfolding advance
    advance-Waits q actor at (inr gone) live early = cc
    advance-Waits q actor at (inl (waits, lock)) live early =
        Preserves-if (is_due_to_expire q at) _ _ (λ _. expire-Waits q actor at)
          λ _.
            Preserves-if (q.session.state == quorum_reached) _ _
              (λ e. absurd (clash quorum_reached e refl))
              λ _.
                Preserves-if
                  (q.session.state == waiting_timelock
                    && lock_elapsed q.session.executable_after at)
                  _ _ (λ e. absurd (too_late e))
                  λ _.
                    Preserves-if (q.session.state == ready_for_execution) _ _
                      (λ e. absurd (clash ready_for_execution e refl))
                      λ _.
                        Preserves-if (q.session.state == executing) _ _
                          (λ e. absurd (clash executing e refl))
                          λ _.
                            Preserves-if (q.session.state == reconciliation_required) _ _
                              (λ e. absurd (clash reconciliation_required e refl))
                              λ _. Preserves-pure q
      where
        clash :
            (s : RecoveryState)
            → (q.session.state == s) ≡ true
            → (waiting_timelock == s) ≡ false
            → ⊥
        clash s e other = true≢false (sym e ∙ rw waits other)

        too_late :
            (q.session.state == waiting_timelock && lock_elapsed q.session.executable_after at)
              ≡ true
            → ⊥
        too_late e =
            let late : leb until at ≡ false = ground (arith, early) in ground (arith, e, lock, late)

    module _ (before : (n t : ℕ) → env.clock n ≡ some t → t < until) where
      now_early : (w : World) (at : ℕ) → (now env w).0 ≡ ok at → at < until
      unfolding now external
      now_early w at h = elim (Option-cases (env.clock w.tick)) [
        | inl naive ↦ absurd (err-ne-ok (rw naive at h))
        | inr (t, e) ↦ subst (λ x. x < until) (ok-injective (rw e at h)) (before w.tick t e)
      ]

      read-Waits :
          (found : Option RecoveryRequest) (w : World)
          → Waits w.repository
          → (atomic env (Store.get_request id) w).0 ≡ ok found
          → (q : RecoveryRequest) → found ≡ some q
          → StillWaits until q
      unfolding atomic Store.get_request
      read-Waits found w p h q e = others w.tick w.repository p q (ok-injective h ∙ e)

      reconcile_one-Waits :
          (rounds : ℕ) (actor : String) → Preserves Waits (reconcile_one env rounds id actor)
      unfolding reconcile_one Store.get_request
      reconcile_one-Waits zero actor = Preserves-raise _
      reconcile_one-Waits (suc rounds) actor =
          Preserves-then _ _ (Preserves-atomic env others (Store.get_request id) (λ a p. p))
            λ found w p h. Preserves-then _ _ (Preserves-or_raise found _) λ q t _ e.
              Preserves-if (terminal q.session.state) _ _ (λ _. Preserves-pure q)
                λ live. Preserves-then _ _ (Preserves-now env) λ at u _ told.
                  Preserves-catch _ _
                    (advance-Waits q actor at (read-Waits found w p h q (found_it t found e)) live
                      (now_early u at told))
                    λ failure.
                      Preserves-if (is_conflict failure) _ _ (λ _. reconcile_one-Waits rounds actor)
                        λ _. Preserves-raise failure
        where
          found_it :
              {q : RecoveryRequest} (t : World) (found : Option RecoveryRequest)
              → (or_raise found RecoveryError.not_found t).0 ≡ ok q
              → found ≡ some q
          found_it t found h = or_raise-eq_ok _ _ _ h

-- While every reading of the clock is before the end of its time-lock, a request that waits for it is
-- not released by a reconciliation, whatever the reconciliation returns or raises: if other threads
-- leave the stored request alone, it still waits with the same time-lock, or has expired.
pub reconcile_one-StillWaits :
    (env : Environment) (until : ℕ) (id actor : String) (rounds : ℕ) (w : World)
    (q : RecoveryRequest)
    → ((n t : ℕ) → env.clock n ≡ some t → t < until)
    → ((n : ℕ) (a : Repository) → lookup id (env.others n a).requests ≡ lookup id a.requests)
    → lookup id w.repository.requests ≡ some q
    → q.session.state ≡ waiting_timelock
    → q.session.executable_after ≡ some until
    → (x : RecoveryRequest)
    → lookup id (reconcile_one env rounds id actor w).1.repository.requests ≡ some x
    → StillWaits until x
reconcile_one-StillWaits env until id actor rounds w q before alone found waits lock =
    (reconcile_one-Waits until id env (λ n a p x h. p x (sym (alone n a) ∙ h)) before rounds
        actor).at
      w (λ x h. subst (λ y. StillWaits until y) (some-eq (sym found ∙ h)) (inl (waits, lock)))
