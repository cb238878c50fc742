-- ===== src/Recovery/Promises/Votes.antt =====
-- The decisions on a request that count: those of guardians that are active, of the request's wallet
-- and in its snapshot (`_recalculate_quorum` and `_guardian_still_active` of
-- services/recovery-service/app/application/services/recovery_service.py), counted in the repository
-- itself and not by the service.
use secure_ssi_platform.Prelude.{
  ℕ, suc, ◌≡◌, String, Bool, true, false, ◌&&◌, Option, none, some, List, [], ◌∷◌, refl, sym, ap,
  ◌∙◌, arith, count, filter, insert_by, sort_by, Bool-cases, inl, inr, if◌then◌else◌,
}
use secure_ssi_platform.Prelude.Equality.{◌==◌, contains, text_equality}
use secure_ssi_platform.Prelude.Dict.{lookup, values}
use secure_ssi_platform.Prelude.Returns.{bind-ok, ok-injective}
use secure_ssi_platform.Recovery.Monad.{ok, pure}
use secure_ssi_platform.Recovery.Domain.States.{
  RecoveryDecision, active, status_equality, decision_equality,
}
use secure_ssi_platform.Recovery.Domain.Guardians.{Guardian}
use secure_ssi_platform.Recovery.Domain.Requests.{RecoveryRequest}
use secure_ssi_platform.Recovery.Domain.Records.{RecoveryApproval}
use secure_ssi_platform.Recovery.Repository.State.{Repository}
use secure_ssi_platform.Recovery.Repository.Guardians as Guards
use secure_ssi_platform.Recovery.Repository.Evidence.{list_approvals}
use secure_ssi_platform.Recovery.Environment.{Environment, World, atomic}
use secure_ssi_platform.Recovery.Service.Quorum.{counts_for, valid_decisions}
use secure_ssi_platform.Recovery.Promises.Preserves.{IsBlind}

-- A guardian that may decide on the request.
abbrev pub is_member : RecoveryRequest → Option Guardian → Bool
is_member q none = false
is_member q (some g) =
    contains g.guardian_id q.policy.guardian_ids
    && (g.wallet_id == q.wallet_id && g.status == active)

-- A decision of one kind that counts.
abbrev pub is_vote : Repository → RecoveryRequest → RecoveryDecision → RecoveryApproval → Bool
is_vote a q d x = x.decision == d && is_member q (lookup x.guardian_id a.guardians)

-- How many stored decisions of one kind count for the request.
abbrev pub votes : Repository → RecoveryRequest → String → RecoveryDecision → ℕ
votes a q id d = count (is_vote a q d) (filter (λ x. x.request_id == id) (values a.approvals))

-- The guardians and the decisions are the same.
pub record SameVotes (a b : Repository) : Type 0 where
  pub guardians : b.guardians ≡ a.guardians
  pub approvals : b.approvals ≡ a.approvals

-- The other threads change no guardian, and record no decision.
pub record IsQuiet (env : Environment) : Type 0 where
  pub at : (n : ℕ) (a : Repository) → SameVotes a (env.others n a)

pub SameVotes-refl : (a : Repository) → SameVotes a a
SameVotes-refl a = record { guardians = refl; approvals = refl }

pub SameVotes-IsBlind : (a : Repository) → IsBlind (SameVotes a)
SameVotes-IsBlind a = record {
  audit_events =
      λ b c _ g d _ s. record { guardians = g ∙ s.guardians; approvals = d ∙ s.approvals };
}

pub SameVotes-others :
    {env : Environment} (quiet : IsQuiet env) (a : Repository) (n : ℕ) (b : Repository)
    → SameVotes a b
    → SameVotes a (env.others n b)
SameVotes-others quiet a n b s =
    let t = quiet.at n b in
    record { guardians = t.guardians ∙ s.guardians; approvals = t.approvals ∙ s.approvals }

counts_for-is_member : (q : RecoveryRequest) (o : Option Guardian) → counts_for q o ≡ is_member q o
counts_for-is_member q none = refl
counts_for-is_member q (some g) =
    rotated (g.status == active) (contains g.guardian_id q.policy.guardian_ids)
      (g.wallet_id == q.wallet_id)
  where
    rotated : (x y z : Bool) → (x && y && z) ≡ (y && (z && x))
    rotated x y z = ground arith

module _ {A : Type 0} (test : A → Bool) (le : A → A → Bool) where
  count-insert_by : (x : A) (xs : List A) → count test (insert_by le x xs) ≡ count test (x ∷ xs)
  count-insert_by x [] = refl
  count-insert_by x (y ∷ ys) = elim (Bool-cases (le x y)) [
    | inl e ↦ rw e refl
    | inr e ↦ rw (e, count-insert_by x ys) (swapped (test x) (test y) (count test ys))
  ]
    where
      swapped :
          (b c : Bool) (n : ℕ)
          → (if c then suc (if b then suc n else n) else (if b then suc n else n))
            ≡ (if b then suc (if c then suc n else n) else (if c then suc n else n))
      swapped b c n = ground arith

  -- Sorting changes no count.
  pub count-sort_by : (xs : List A) → count test (sort_by le xs) ≡ count test xs
  count-sort_by [] = refl
  count-sort_by (x ∷ xs) = count-insert_by x (sort_by le xs) ∙ rw (count-sort_by xs) refl

module _ (env : Environment) (a : Repository)
    (others : (n : ℕ) (b : Repository) → SameVotes a b → SameVotes a (env.others n b)) where
  pub listed-votes :
      (q : RecoveryRequest) (id : String) (d : RecoveryDecision) (xs : List RecoveryApproval)
      (w : World)
      → SameVotes a w.repository
      → (atomic env (list_approvals id) w).0 ≡ ok xs
      → count (is_vote a q d) xs ≡ votes a q id d
  unfolding atomic list_approvals
  listed-votes q id d xs w same h =
      let now_same = others w.tick w.repository same in
      ap (count (is_vote a q d)) (sym (ok-injective h))
      ∙ count-sort_by (is_vote a q d) _ _
      ∙ ap (λ t. count (is_vote a q d) (filter (λ x. x.request_id == id) (values t)))
          now_same.approvals

  found_guardian :
      (id : String) (o : Option Guardian) (w : World)
      → SameVotes a w.repository
      → (atomic env (Guards.get_guardian id) w).0 ≡ ok o
      → o ≡ lookup id a.guardians
  unfolding atomic Guards.get_guardian
  found_guardian id o w same h =
      sym (ok-injective h) ∙ ap (lookup id) (others w.tick w.repository same).guardians

  guardian_kept :
      (id : String) (w : World)
      → SameVotes a w.repository
      → SameVotes a (atomic env (Guards.get_guardian id) w).1.repository
  unfolding atomic Guards.get_guardian
  guardian_kept id w same = others w.tick w.repository same

  -- The decisions of a kind that the service keeps are the votes.
  pub valid_decisions-votes :
      (q : RecoveryRequest) (d : RecoveryDecision) (xs valid : List RecoveryApproval) (w : World)
      → SameVotes a w.repository
      → (valid_decisions env q xs w).0 ≡ ok valid
      → count (λ x. x.decision == d) valid ≡ count (is_vote a q d) xs
  unfolding valid_decisions pure
  valid_decisions-votes q d [] valid w same h = rw (sym (ok-injective h)) refl
  valid_decisions-votes q d (x ∷ xs) valid w same h =
      let (found, f, h1) = bind-ok (atomic env (Guards.get_guardian x.guardian_id)) _ w h in
      let (rest, r, h2) = bind-ok (valid_decisions env q xs) _ _ h1 in
      let o = lookup x.guardian_id a.guardians in
      let member : counts_for q found ≡ is_member q o =
        ap (counts_for q) (found_guardian x.guardian_id found w same f)
        ∙ counts_for-is_member q o in
      ap (count (λ y. y.decision == d)) (sym (ok-injective h2))
      ∙ ap (λ b. count (λ y. y.decision == d) (if b then x ∷ rest else rest)) member
      ∙ kept (x.decision == d) (is_member q o) rest refl
          (valid_decisions-votes q d xs rest _ (guardian_kept x.guardian_id w same) r)
    where
      kept :
          (b c : Bool) (rest : List RecoveryApproval)
          → (x.decision == d) ≡ b
          → count (λ y. y.decision == d) rest ≡ count (is_vote a q d) xs
          → count (λ y. y.decision == d) (if c then x ∷ rest else rest)
            ≡ (if b && c then suc (count (is_vote a q d) xs) else count (is_vote a q d) xs)
      kept true true rest t e = rw t (ap suc e)
      kept true false rest t e = e
      kept false true rest t e = rw t e
      kept false false rest t e = e
