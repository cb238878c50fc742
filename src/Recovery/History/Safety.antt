-- ===== src/Recovery/History/Safety.antt =====
-- What the steps of a request keep (`_TRANSITIONS` of services/recovery-service/app/domain/recovery.py
-- and the writes of services/recovery-service/app/application/services/recovery_service.py).
use secure_ssi_platform.Prelude.{
  ℕ, ◌+◌, ◌≤◌, ◌≡◌, Bool, true, false, some, refl, sym, ap, ◌∙◌, or_else,
}
use secure_ssi_platform.Recovery.Domain.States.{
  RecoveryState, state_equality, quorum_reached, waiting_timelock, ready_for_execution, executing,
  completed, failed, reconciliation_required,
}
use secure_ssi_platform.Recovery.Domain.Guardians.{seconds}
use secure_ssi_platform.Recovery.Domain.Requests.{RecoveryRequest}
use secure_ssi_platform.Recovery.History.{
  Steps, here, next, Kept, SameLock, Event, Effect, recount, reach, refuse, lock, release, claim,
  complete, lose_lease, fail_once, give_up, retry, expire, cancel,
}
use secure_ssi_platform.Recovery.History.Grown.{IsFresh, IsGrown}

-- The states after the quorum, those after the time-lock, and those in which an attempt was made.
abbrev pub past_quorum : RecoveryState → Bool
past_quorum quorum_reached = true
past_quorum waiting_timelock = true
past_quorum ready_for_execution = true
past_quorum executing = true
past_quorum completed = true
past_quorum reconciliation_required = true
past_quorum failed = true
past_quorum _ = false

abbrev pub past_release : RecoveryState → Bool
past_release ready_for_execution = true
past_release executing = true
past_release completed = true
past_release reconciliation_required = true
past_release failed = true
past_release _ = false

abbrev pub past_lock : RecoveryState → Bool
past_lock waiting_timelock = true
past_lock s = past_release s

-- The quorum of a request that is past it.
pub record HasQuorum (q : RecoveryRequest) : Type 0 where
  pub enough : q.policy.minimum_approvals ≤ q.session.quorum.approvals
  pub reached_at : (t : ℕ) × (q.session.quorum_reached_at ≡ some t)

-- The time-lock of a request that has one: it begins with the quorum and lasts as the policy says.
pub record HasLock (q : RecoveryRequest) : Type 0 where
  pub since : ℕ
  pub begun : q.session.quorum_reached_at ≡ some since
  pub until : q.session.executable_after ≡ some (since + seconds q.policy.time_lock_seconds)

pub record IsCoherent (q : RecoveryRequest) : Type 0 where
  pub least : 1 ≤ q.policy.minimum_approvals
  pub quorum : past_quorum q.session.state ≡ true → HasQuorum q
  pub lock : past_lock q.session.state ≡ true → HasLock q

module _ {r r' : RecoveryRequest} (k : Kept r r') where
  keep_quorum :
      r'.session.quorum ≡ r.session.quorum
      → r'.session.quorum_reached_at ≡ r.session.quorum_reached_at
      → HasQuorum r
      → HasQuorum r'
  keep_quorum e f h = record {
    enough = rw (e, k.policy) h.enough;
    reached_at = let (t, p) = h.reached_at in (t, f ∙ p);
  }

  keep_lock : SameLock r.session r'.session → HasLock r → HasLock r'
  keep_lock s h = record {
    since = h.since;
    begun = s.quorum_reached_at ∙ h.begun;
    until =
        s.executable_after
        ∙ h.until
        ∙ ap (λ p. some (h.since + seconds p.time_lock_seconds)) (sym k.policy);
  }

  -- A step from a state past the time-lock that keeps the quorum and the lock.
  keeps_both :
      SameLock r.session r'.session
      → past_lock r.session.state ≡ true
      → past_quorum r.session.state ≡ true
      → IsCoherent r
      → IsCoherent r'
  keeps_both s l q c = record {
    least = rw k.policy c.least;
    quorum = λ _. keep_quorum s.quorum s.quorum_reached_at (c.quorum q);
    lock = λ _. keep_lock s (c.lock l);
  }

  -- A step to a state that has neither.
  needs_none :
      past_lock r'.session.state ≡ false
      → past_quorum r'.session.state ≡ false
      → IsCoherent r
      → IsCoherent r'
  needs_none l q c = record { least = rw k.policy c.least; quorum = λ p. cc; lock = λ p. cc }

  Effect-IsCoherent : (e : Event) → Effect e r r' → IsCoherent r → IsCoherent r'
  Effect-IsCoherent recount h c = needs_none (rw h.1 refl) (rw h.1 refl) c
  Effect-IsCoherent reach h c = record {
    least = rw k.policy c.least;
    quorum = λ _. record { enough = rw k.policy h.3; reached_at = (r'.updated_at, h.5) };
    lock = λ p. cc (h.1);
  }
  Effect-IsCoherent refuse h c = needs_none (rw h.1 refl) (rw h.1 refl) c
  Effect-IsCoherent lock h c =
      let q = c.quorum (rw h.0 refl) in
      let (t, p) = q.reached_at in
      record {
        least = rw k.policy c.least;
        quorum = λ _. keep_quorum h.2 h.3 q;
        lock = λ _. record {
          since = t;
          begun = h.3 ∙ p;
          until =
              h.5
              ∙ ap (λ o. some (or_else o r.updated_at + seconds r.policy.time_lock_seconds)) p
              ∙ ap (λ x. some (t + seconds x.time_lock_seconds)) (sym k.policy);
        };
      }
  Effect-IsCoherent release h c = keeps_both h.3 (rw h.0 refl) (rw h.0 refl) c
  Effect-IsCoherent claim h c = keeps_both h.5 (rw h.0 refl) (rw h.0 refl) c
  Effect-IsCoherent complete h c = keeps_both h.5 (rw h.0 refl) (rw h.0 refl) c
  Effect-IsCoherent lose_lease h c = keeps_both h.6 (rw h.0 refl) (rw h.0 refl) c
  Effect-IsCoherent fail_once h c = keeps_both h.6 (rw h.0 refl) (rw h.0 refl) c
  Effect-IsCoherent give_up h c = keeps_both h.5 (rw h.0 refl) (rw h.0 refl) c
  Effect-IsCoherent retry h c = keeps_both h.5 (rw h.0 refl) (rw h.0 refl) c
  Effect-IsCoherent expire h c = needs_none (rw h.1 refl) (rw h.1 refl) c
  Effect-IsCoherent cancel h c = needs_none (rw h.1 refl) (rw h.1 refl) c

fresh-IsCoherent : {q : RecoveryRequest} → IsFresh q → IsCoherent q
fresh-IsCoherent f = record {
  least = f.least;
  quorum = λ p. cc (f.state);
  lock = λ p. cc (f.state);
}

Steps-IsCoherent : {q r : RecoveryRequest} → IsCoherent q → Steps q r → IsCoherent r
Steps-IsCoherent c here = c
Steps-IsCoherent c (next h s) = Effect-IsCoherent s.kept s.event s.effect (Steps-IsCoherent c h)

-- A request that has grown is coherent.
pub grown-IsCoherent : {q : RecoveryRequest} → IsGrown q → IsCoherent q
grown-IsCoherent g = Steps-IsCoherent (fresh-IsCoherent g.fresh) g.steps
