-- ===== src/Recovery/Promises/Authorised.antt =====
-- What an execution is authorised by (`_execute` of
-- services/recovery-service/app/application/services/recovery_service.py), read off the repository
-- itself: the approvals that count, and their shares.
use mathlib.Core.Path.{subst}
use secure_ssi_platform.Prelude.{
  ℕ, suc, ◌≤◌, ◌≡◌, refl, sym, ap, ◌∙◌, arith, Bool, true, false, ◌&&◌, not, Option, none, some,
  List, [], ◌∷◌, inl, inr, length, count, filter, map, sort_by, ltb, leb, if◌then◌else◌, String,
}
use secure_ssi_platform.Prelude.Equality.{
  ◌==◌, contains, nat_equality, text_equality, pair_equality,
}
use secure_ssi_platform.Prelude.Dict.{lookup, values}
use secure_ssi_platform.Prelude.Returns.{bind-ok, if-ok, raise_if-ok, ok-injective, or_raise-eq_ok}
use secure_ssi_platform.Recovery.Monad.{ok, pure, lift}
use secure_ssi_platform.Recovery.Domain.States.{active, approve, status_equality, decision_equality}
use secure_ssi_platform.Recovery.Domain.Guardians.{Guardian}
use secure_ssi_platform.Recovery.Domain.Requests.{RecoveryRequest}
use secure_ssi_platform.Recovery.Domain.Records.{RecoveryApproval, ShareMetadata}
use secure_ssi_platform.Recovery.Repository.State.{Repository}
use secure_ssi_platform.Recovery.Repository.Guardians as Guards
use secure_ssi_platform.Recovery.Repository.Evidence.{list_approvals, get_share}
use secure_ssi_platform.Recovery.Environment.{Environment, World, atomic}
use secure_ssi_platform.Recovery.Service.Quorum.{
  approves, still_active, sharing_context, owned_share, share_for, guardian_still_active,
}
use secure_ssi_platform.Recovery.Service.Execution.{active_approvals, shares_for, authorise}
use secure_ssi_platform.Recovery.Promises.Preserves.{
  Preserves, IsBlind, Preserves-pure, Preserves-bind, Preserves-atomic, Preserves-if,
  Preserves-or_raise, Preserves-raise_if,
}

-- An active guardian of the wallet of the request.
abbrev pub is_guardian : RecoveryRequest → Option Guardian → Bool
is_guardian q none = false
is_guardian q (some g) = g.wallet_id == q.wallet_id && g.status == active

-- An approval by such a guardian that is in the snapshot of the request.
abbrev pub is_backer : Repository → RecoveryRequest → RecoveryApproval → Bool
is_backer a q x =
    x.decision == approve
    && (is_guardian q (lookup x.guardian_id a.guardians)
        && contains x.guardian_id q.policy.guardian_ids)

-- The decisions that are stored for the request, by time.
abbrev pub decisions_of : Repository → RecoveryRequest → List RecoveryApproval
decisions_of a q =
    sort_by (λ x y. leb x.decided_at y.decided_at)
      (filter (λ x. x.request_id == q.request_id) (values a.approvals))

abbrev pub backers : Repository → RecoveryRequest → List RecoveryApproval
backers a q = filter (is_backer a q) (decisions_of a q)

-- The share that is stored for the guardian of a decision.
abbrev pub share_of : Repository → RecoveryRequest → RecoveryApproval → Option ShareMetadata
share_of a q x =
    lookup (q.policy.policy_id, (q.policy.policy_version, (q.policy.share_version, x.guardian_id)))
      a.shares

-- The approvals that count are as many as the policy asks for, the share of each is stored, and is
-- of the request, and these shares combine to a secret of sixteen bytes.
pub record IsAuthorised (env : Environment) (a : Repository) (q : RecoveryRequest) : Type 0 where
  pub enough : q.policy.minimum_approvals ≤ length (backers a q)
  pub shares : List ShareMetadata
  pub stored : map (share_of a q) (backers a q) ≡ map some shares
  pub own : count (λ s. s.recovery_request_id == q.request_id) shares ≡ length shares
  pub secret : List ℕ
  pub combined :
      env.secret_sharing.combine shares q.policy.minimum_approvals
        (sharing_context q)
        q.policy.secret_commitment
      ≡ ok secret
  pub whole : length secret ≡ 16

-- The guardians, the decisions and the shares are the same.
pub record SameEvidence (a b : Repository) : Type 0 where
  pub guardians : b.guardians ≡ a.guardians
  pub approvals : b.approvals ≡ a.approvals
  pub shares : b.shares ≡ a.shares

-- The other threads change no guardian and no share, and record no decision.
pub record IsStill (env : Environment) : Type 0 where
  pub at : (n : ℕ) (a : Repository) → SameEvidence a (env.others n a)

pub SameEvidence-refl : (a : Repository) → SameEvidence a a
SameEvidence-refl a = record { guardians = refl; approvals = refl; shares = refl }

SameEvidence-trans : {a b c : Repository} → SameEvidence a b → SameEvidence b c → SameEvidence a c
SameEvidence-trans s t = record {
  guardians = t.guardians ∙ s.guardians;
  approvals = t.approvals ∙ s.approvals;
  shares = t.shares ∙ s.shares;
}

pub SameEvidence-IsBlind : (a : Repository) → IsBlind (SameEvidence a)
SameEvidence-IsBlind a = record {
  audit_events =
      λ b c _ g d h s. SameEvidence-trans s (record { guardians = g; approvals = d; shares = h });
}

still_active-is_guardian :
    (id : String) (q : RecoveryRequest) (o : Option Guardian)
    → still_active id q o ≡ (is_guardian q o && contains id q.policy.guardian_ids)
still_active-is_guardian id q none = refl
still_active-is_guardian id q (some g) =
    turned (g.status == active) (g.wallet_id == q.wallet_id) (contains id q.policy.guardian_ids)
  where
    turned : (x y z : Bool) → (x && y && z) ≡ ((y && x) && z)
    turned x y z = ground arith

owned_share-some :
    (q : RecoveryRequest) (o : Option ShareMetadata) (s : ShareMetadata)
    → owned_share q o ≡ some s
    → (o ≡ some s) × ((s.recovery_request_id == q.request_id) ≡ true)
owned_share-some q none s h = cc
owned_share-some q (some t) s h = kept (t.recovery_request_id == q.request_id) refl h
  where
    kept :
        (b : Bool)
        → (t.recovery_request_id == q.request_id) ≡ b
        → (if b then some t else none) ≡ some s
        → (some t ≡ some s) × ((s.recovery_request_id == q.request_id) ≡ true)
    kept true e p = (p, cc)
    kept false e p = cc

at_least : (m n : ℕ) → ltb n m ≡ false → m ≤ n
at_least m n h = ground arith

is_equal : (m n : ℕ) → not (m == n) ≡ false → m ≡ n
is_equal m n h = ground arith

module _ (env : Environment) (still : IsStill env) (a : Repository) where
  pub others : (n : ℕ) (b : Repository) → SameEvidence a b → SameEvidence a (env.others n b)
  others n b s = SameEvidence-trans s (still.at n b)

  listed :
      (q : RecoveryRequest) (ds : List RecoveryApproval) (w : World)
      → SameEvidence a w.repository
      → (atomic env (list_approvals q.request_id) w).0 ≡ ok ds
      → ds ≡ decisions_of a q
  unfolding atomic list_approvals
  listed q ds w s h =
      sym (ok-injective h)
      ∙ ap
          (λ t.
            sort_by (λ x y. leb x.decided_at y.decided_at)
              (filter (λ x. x.request_id == q.request_id) (values t)))
          (others w.tick w.repository s).approvals

  list-SameEvidence : (id : String) → Preserves (SameEvidence a) (atomic env (list_approvals id))
  unfolding list_approvals
  list-SameEvidence id = Preserves-atomic env others (list_approvals id) (λ b p. p)

  asked :
      (id : String) (q : RecoveryRequest) (counted : Bool) (w : World)
      → SameEvidence a w.repository
      → (guardian_still_active env id q w).0 ≡ ok counted
      → counted ≡ (is_guardian q (lookup id a.guardians) && contains id q.policy.guardian_ids)
  unfolding guardian_still_active atomic Guards.get_guardian pure
  asked id q counted w s h =
      let (found, f, e) = bind-ok (atomic env (Guards.get_guardian id)) _ w h in
      sym (ok-injective e)
      ∙ ap (still_active id q)
          (sym (ok-injective f) ∙ ap (lookup id) (others w.tick w.repository s).guardians)
      ∙ still_active-is_guardian id q (lookup id a.guardians)

  ask-SameEvidence :
      (id : String) (q : RecoveryRequest)
      → Preserves (SameEvidence a) (guardian_still_active env id q)
  unfolding guardian_still_active Guards.get_guardian
  ask-SameEvidence id q =
      Preserves-bind _ _ (Preserves-atomic env others (Guards.get_guardian id) (λ b p. p))
        λ _. Preserves-pure _

  active-SameEvidence :
      (q : RecoveryRequest) (ds : List RecoveryApproval)
      → Preserves (SameEvidence a) (active_approvals env q ds)
  unfolding active_approvals
  active-SameEvidence q [] = Preserves-pure []
  active-SameEvidence q (x ∷ ds) =
      Preserves-if (approves x) _ _
        (λ _.
          Preserves-bind _ _ (ask-SameEvidence x.guardian_id q)
            λ _. Preserves-bind _ _ (active-SameEvidence q ds) λ _. Preserves-pure _)
        λ _. active-SameEvidence q ds

  -- The approvals that are kept are the ones that count.
  kept-backers :
      (q : RecoveryRequest) (ds kept : List RecoveryApproval) (w : World)
      → SameEvidence a w.repository
      → (active_approvals env q ds w).0 ≡ ok kept
      → kept ≡ filter (is_backer a q) ds
  unfolding active_approvals pure
  kept-backers q [] kept w s h = sym (ok-injective h)
  kept-backers q (x ∷ ds) kept w s h = elim (if-ok (approves x) _ _ w h) [
    | inr (other, p) ↦ rw other (kept-backers q ds kept w s p)
    | inl (vote, p) ↦
        let (counted, c, p') = bind-ok (guardian_still_active env x.guardian_id q) _ w p in
        let (rest, r, e) = bind-ok (active_approvals env q ds) _ _ p' in
        let ih = kept-backers q ds rest _ ((ask-SameEvidence x.guardian_id q).at w s) r in
        sym (ok-injective e)
        ∙ ap (λ b. if b then x ∷ rest else rest) (asked x.guardian_id q counted w s c)
        ∙ rw (vote, ih) refl
  ]

  found_share :
      (q : RecoveryRequest) (x : RecoveryApproval) (t : ShareMetadata) (w : World)
      → SameEvidence a w.repository
      → (share_for env q x.guardian_id w).0 ≡ ok t
      → (share_of a q x ≡ some t) × ((t.recovery_request_id == q.request_id) ≡ true)
  unfolding share_for atomic get_share
  found_share q x t w s h =
      let (found, f, e) =
        bind-ok
          (atomic env (
            get_share q.policy.policy_id q.policy.policy_version q.policy.share_version
              x.guardian_id))
          _ w h in
      let (there, own) = owned_share-some q found t (or_raise-eq_ok _ _ _ e) in
      (
        ap
              (λ d.
                lookup
                  (
                    q.policy.policy_id,
                    (q.policy.policy_version, (q.policy.share_version, x.guardian_id)),
                  )
                  d)
              (sym (others w.tick w.repository s).shares)
            ∙ ok-injective f
            ∙ there,
        own,
      )

  share-SameEvidence :
      (q : RecoveryRequest) (id : String) → Preserves (SameEvidence a) (share_for env q id)
  unfolding share_for get_share
  share-SameEvidence q id =
      Preserves-bind _ _ (Preserves-atomic env others (get_share _ _ _ id) (λ b p. p))
        λ _. Preserves-or_raise _ _

  stored_shares :
      (q : RecoveryRequest) (ds : List RecoveryApproval) (ss : List ShareMetadata) (w : World)
      → SameEvidence a w.repository
      → (shares_for env q ds w).0 ≡ ok ss
      → (map (share_of a q) ds ≡ map some ss)
        × (count (λ t. t.recovery_request_id == q.request_id) ss ≡ length ss)
  unfolding shares_for pure
  stored_shares q [] ss w s h = rw (sym (ok-injective h)) (refl, refl)
  stored_shares q (x ∷ ds) ss w s h =
      let (t, f, p) = bind-ok (share_for env q x.guardian_id) _ w h in
      let (rest, r, e) = bind-ok (shares_for env q ds) _ _ p in
      let (there, own) = found_share q x t w s f in
      let (ih, ih') = stored_shares q ds rest _ ((share-SameEvidence q x.guardian_id).at w s) r in
      rw (sym (ok-injective e)) (rw (there, ih) refl, rw own (ap suc ih'))

  pub authorise-IsAuthorised :
      (q : RecoveryRequest) (w : World)
      → SameEvidence a w.repository
      → (authorise env q w).0 ≡ ok tt
      → IsAuthorised env a q
  unfolding authorise lift
  authorise-IsAuthorised q w s h =
      let (ds, l, h1) = bind-ok (atomic env (list_approvals q.request_id)) _ w h in
      let s1 = (list-SameEvidence q.request_id).at w s in
      let (kept, k, h2) = bind-ok (active_approvals env q ds) _ _ h1 in
      let s2 = (active-SameEvidence q ds).at _ s1 in
      let (_, many, h3) = bind-ok _ _ _ h2 in
      let s3 = (Preserves-raise_if {P = SameEvidence a} _ _).at _ s2 in
      let (shares, f, h4) = bind-ok (shares_for env q kept) _ _ h3 in
      let (secret, c, h5) = bind-ok _ _ _ h4 in
      let e : kept ≡ backers a q =
        kept-backers q ds kept _ s1 k ∙ ap (filter (is_backer a q)) (listed q ds w s l) in
      let (there, own) = stored_shares q kept shares _ s3 f in
      record {
        enough =
            subst (λ ks. q.policy.minimum_approvals ≤ length ks) e
              (at_least _ _ (raise_if-ok _ _ _ many));
        shares = shares;
        stored = subst (λ ks. map (share_of a q) ks ≡ map some shares) e there;
        own = own;
        secret = secret;
        combined = c;
        whole = is_equal _ _ (raise_if-ok _ _ _ h5);
      }
