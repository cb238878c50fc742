-- ===== src/Recovery/Promises/Decisions.antt =====
-- What an accepted decision of a guardian is (`approve`, `reject` and `_decide` of
-- services/recovery-service/app/application/services/recovery_service.py).
use secure_ssi_platform.Prelude.{
  ◌≡◌, refl, sym, ap, arith, String, Bool, true, false, Option, none, some, List, [], ◌∷◌, inl, inr,
  find, if◌then◌else◌,
}
use secure_ssi_platform.Prelude.Equality.{option-beq_iff, text_equality}
use secure_ssi_platform.Recovery.Monad.{RecoveryError, Result, ok, err, pure, raise, lift}
use secure_ssi_platform.Recovery.Domain.States.{
  RecoveryDecision, decision_equality, approve, reject,
}
use secure_ssi_platform.Recovery.Domain.Auth.{
  Principal, Permission, require, recovery_approve, recovery_reject,
}
use secure_ssi_platform.Recovery.Domain.Guardians.{Guardian}
use secure_ssi_platform.Recovery.Domain.Requests.{RecoveryRequest}
use secure_ssi_platform.Recovery.Domain.Records.{RecoveryApproval, check_approval}
use secure_ssi_platform.Recovery.Repository.Evidence.{
  add_approval_idempotently, store_approval, same_decision, approval_key,
}
use mathlib.Core.Path.{subst}
use secure_ssi_platform.Prelude.Dict.{lookup}
use secure_ssi_platform.Recovery.Repository.State.{Repository}
use secure_ssi_platform.Prelude.Equality.{pair_equality}
use secure_ssi_platform.Recovery.Environment.{Environment, World, atomic}
use secure_ssi_platform.Recovery.Service.Decisions.{
  digest_of, repeats, decide_new, decide_after, decide_target, decide, approve_request,
  reject_request,
}
use secure_ssi_platform.Prelude.Returns.{bind-ok, if-ok}
use secure_ssi_platform.Prelude.Returns.{ok-injective}

-- The decision is the one asked for, on the challenge and the proof that were given.
pub record Answers (d : RecoveryDecision) (challenge : String) (proof : Option String)
    (a : RecoveryApproval) : Type 0 where
  pub decision : a.decision ≡ d
  pub challenge_digest : a.challenge_digest ≡ challenge
  pub proof_digest : a.proof_digest ≡ proof

repeats-Answers :
    (a : RecoveryApproval) (d : RecoveryDecision) (c : String) (p : Option String)
    → repeats a d c p ≡ true
    → Answers d c p a
repeats-Answers a d c p h = record {
  decision = ground (arith, decision_equality.beq_iff a.decision d);
  challenge_digest = ground (arith, text_equality.beq_iff a.challenge_digest c);
  proof_digest = ground (arith, option-beq_iff a.proof_digest p);
}

-- What the repository gives back for a decision answers the same.
stored-Answers :
    (o : Option RecoveryApproval) (a : RecoveryApproval) (b : Bool) (x : RecoveryApproval)
    (r : Repository)
    → (store_approval o a r).0 ≡ ok (x, b)
    → Answers a.decision a.challenge_digest a.proof_digest x
stored-Answers none a b x r h =
    let e : x ≡ a = ap (λ q. q.0) (sym (ok-injective h)) in
    record {
      decision = ap (λ (y : RecoveryApproval). y.decision) e;
      challenge_digest = ap (λ (y : RecoveryApproval). y.challenge_digest) e;
      proof_digest = ap (λ (y : RecoveryApproval). y.proof_digest) e;
    }
stored-Answers (some old) a b x r h =
    let (same, e) = kept_or_refused (same_decision old a) (old, false) h in
    subst (Answers a.decision a.challenge_digest a.proof_digest) (ap (λ q. q.0) e)
      (repeats-Answers old a.decision a.challenge_digest a.proof_digest same)
  where
    kept_or_refused :
        (s : Bool) (y : RecoveryApproval × Bool) {z : RecoveryApproval × Bool}
        → (if◌then◌else◌ {A = Result (RecoveryApproval × Bool) × Repository} s
            (ok y, r)
            (err RecoveryError.conflict, r)).0
          ≡ ok z
        → (s ≡ true) × (y ≡ z)
    kept_or_refused true y p = (refl, ok-injective p)
    kept_or_refused false y p = ground arith

approval_eq : (a b : RecoveryApproval) → check_approval a ≡ ok b → b ≡ a
unfolding check_approval
approval_eq a b h = ground arith

find-holds :
    {A : Type 0} (test : A → Bool) (xs : List A) {a : A} → find test xs ≡ some a → test a ≡ true
find-holds test [] h = cc
find-holds test (x ∷ xs) {a = a} h = ground (arith, find-holds test xs {a = a})

module _ (env : Environment) where
  add-Answers :
      (a x : RecoveryApproval) (b : Bool) (w : World)
      → (atomic env (add_approval_idempotently a) w).0 ≡ ok (x, b)
      → Answers a.decision a.challenge_digest a.proof_digest x
  unfolding atomic add_approval_idempotently
  add-Answers a x b w h =
      let r = env.others w.tick w.repository in
      stored-Answers (lookup (approval_key a) r.approvals) a b x r h

  module _ (p : Principal) (id g : String) (challenge : String) where
    new-Answers :
        (q : RecoveryRequest) (guardian : Guardian) (proof : Option String) (d : RecoveryDecision)
        (x : RecoveryApproval × RecoveryRequest) (w : World)
        → (decide_new env p id g q guardian challenge proof d w).0 ≡ ok x
        → Answers d (env.sha256_hex challenge) proof x.0
    unfolding decide_new lift pure
    new-Answers q guardian proof d x w h =
        let (at, _, h1) = bind-ok _ _ w h in
        let (_, _, h2) = bind-ok _ _ _ h1 in
        let (_, _, h3) = bind-ok _ _ _ h2 in
        let (_, _, h4) = bind-ok _ _ _ h3 in
        let (_, _, h5) = bind-ok _ _ _ h4 in
        let (_, _, h6) = bind-ok _ _ _ h5 in
        let (a, checked, h7) = bind-ok _ _ _ h6 in
        let (stored, added, h8) = bind-ok _ _ _ h7 in
        let (_, _, h9) = bind-ok _ _ _ h8 in
        let (_, _, h10) = bind-ok _ _ _ h9 in
        let same = approval_eq _ a checked in
        let answers = add-Answers a stored.0 stored.1 _ added in
        let e : stored.0 ≡ x.0 = ap (λ y. y.0) (ok-injective h10) in
        subst (Answers d (env.sha256_hex challenge) proof) e (
          subst
            (λ (y : RecoveryApproval).
              Answers y.decision y.challenge_digest y.proof_digest stored.0)
            same answers)

    after-Answers :
        (q : RecoveryRequest) (guardian : Guardian) (proof : Option String) (d : RecoveryDecision)
        (o : Option RecoveryApproval) (x : RecoveryApproval × RecoveryRequest) (w : World)
        → (decide_after env p id g q guardian challenge proof d o w).0 ≡ ok x
        → Answers d (env.sha256_hex challenge) proof x.0
    unfolding pure raise
    after-Answers q guardian proof d none x w h = new-Answers q guardian proof d x w h
    after-Answers q guardian proof d (some a) x w h =
        elim (if-ok (repeats a d (env.sha256_hex challenge) proof) (pure (a, q)) _ w h) [
          | inl (same, e) ↦
              subst (Answers d (env.sha256_hex challenge) proof) (ap (λ y. y.0) (ok-injective e))
                (repeats-Answers a d (env.sha256_hex challenge) proof same)
          | inr (_, e) ↦ absurd (refused e)
        ]
      where
        refused : {y : RecoveryApproval × RecoveryRequest} → err RecoveryError.conflict ≡ ok y → ⊥
        refused e = ground arith

    target-Answers :
        (proof : Option String) (d : RecoveryDecision) (o : Option (RecoveryRequest × Guardian))
        (x : RecoveryApproval × RecoveryRequest) (w : World)
        → (decide_target env p id g challenge proof d o w).0 ≡ ok x
        → Answers d (env.sha256_hex challenge) (digest_of env.sha256_hex proof) x.0
    unfolding raise
    target-Answers proof d none x w h = let (_, _, e) = bind-ok _ _ w h in absurd (refused e)
      where
        refused : {y : RecoveryApproval × RecoveryRequest} → err RecoveryError.not_found ≡ ok y → ⊥
        refused e = ground arith
    target-Answers proof d (some (q, guardian)) x w h =
        let (ds, _, e) = bind-ok _ _ w h in
        after-Answers q guardian (digest_of env.sha256_hex proof) d _ x _ e

    decide-Answers :
        (proof : Option String) (d : RecoveryDecision) (x : RecoveryApproval × RecoveryRequest)
        (w : World)
        → (decide env p id g challenge proof d w).0 ≡ ok x
        → Answers d (env.sha256_hex challenge) (digest_of env.sha256_hex proof) x.0
    unfolding decide
    decide-Answers proof d x w h =
        let (_, _, h1) = bind-ok _ _ w h in
        let (_, _, h2) = bind-ok _ _ _ h1 in target-Answers proof d _ x _ h2

    allowed : (x : Permission) {u : Unit {0}} → require p x ≡ ok u → p.permissions x ≡ true
    unfolding require
    allowed x h = ground arith

    -- An approval that is returned was asked for by a principal with the permission to approve; it is
    -- an approval, and its digests are those of the challenge and of the proof that were given,
    -- whether it is new or was there before.
    pub approve_request-Answers :
        (proof : Option String) (x : RecoveryApproval × RecoveryRequest) (w : World)
        → (approve_request env p id g challenge proof w).0 ≡ ok x
        → (p.permissions recovery_approve ≡ true)
          × Answers approve (env.sha256_hex challenge) (digest_of env.sha256_hex proof) x.0
    unfolding approve_request lift
    approve_request-Answers proof x w h =
        let (_, permitted, e) = bind-ok _ _ w h in
        (allowed recovery_approve permitted, decide-Answers proof approve x _ e)

    -- A rejection that is returned was asked for by a principal with the permission to reject; it is
    -- a rejection, and its digests are those of the challenge and of the proof that were given,
    -- whether it is new or was there before.
    pub reject_request-Answers :
        (proof : Option String) (x : RecoveryApproval × RecoveryRequest) (w : World)
        → (reject_request env p id g challenge proof w).0 ≡ ok x
        → (p.permissions recovery_reject ≡ true)
          × Answers reject (env.sha256_hex challenge) (digest_of env.sha256_hex proof) x.0
    unfolding reject_request lift
    reject_request-Answers proof x w h =
        let (_, permitted, e) = bind-ok _ _ w h in
        (allowed recovery_reject permitted, decide-Answers proof reject x _ e)
