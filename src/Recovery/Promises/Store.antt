-- ===== src/Recovery/Promises/Store.antt =====
-- What the repository promises to its clients, in sequences of its methods
-- (services/recovery-service/app/infrastructure/persistence/memory_repository.py).
use secure_ssi_platform.Prelude.{
  ℕ, ◌<◌, ◌≡◌, refl, sym, ap, ◌∙◌, arith, true, false, none, some, Bool-cases, inl, inr, List, [],
  ◌∷◌, All, if◌then◌else◌,
}
use secure_ssi_platform.Prelude.Equality.{nat_equality, text_equality, pair_equality}
use secure_ssi_platform.Prelude.Dict.{lookup, insert, lookup-insert_self}
use secure_ssi_platform.Recovery.Monad.{RecoveryError, ok, err}
use secure_ssi_platform.Recovery.Domain.Requests.{RecoveryRequest}
use secure_ssi_platform.Recovery.Domain.Records.{RecoveryApproval, ShareMetadata}
use secure_ssi_platform.Recovery.Repository.State.{Repository}
use secure_ssi_platform.Recovery.Repository.Requests.{update_request, request_stale}
use secure_ssi_platform.Recovery.Repository.Evidence.{
  approval_key, same_decision, add_approval_idempotently, save_share_set, share_key, share_clash,
  get_share,
}
use secure_ssi_platform.Recovery.Guarantee.Invariant.{IsSound}
use secure_ssi_platform.Recovery.Guarantee.Stores.{save-Extends, Extends-share}
use mathlib.Core.Path.{subst}

update-stale :
    (q : RecoveryRequest) (version : ℕ) (a : Repository)
    → request_stale (lookup q.request_id a.requests) version ≡ true
    → update_request q version a ≡ (err RecoveryError.conflict, a)
unfolding update_request
update-stale q version a h = rw h refl

update-current :
    (q : RecoveryRequest) (version : ℕ) (a : Repository)
    → request_stale (lookup q.request_id a.requests) version ≡ false
    → update_request q version a ≡ (ok q, record a { requests = insert q.request_id q a.requests })
unfolding update_request
update-current q version a h = rw h refl

-- Of two updates made from the same version of a request, the one that comes second is refused and
-- changes nothing, if the first one succeeded and raised the version.
pub update_request-update_request :
    (first second : RecoveryRequest) (version : ℕ) (a : Repository)
    → second.request_id ≡ first.request_id
    → version < first.version
    → (update_request first version a).0 ≡ ok first
    → update_request second version (update_request first version a).1
      ≡ (err RecoveryError.conflict, (update_request first version a).1)
update_request-update_request first second version a same newer h =
    elim (Bool-cases (request_stale (lookup first.request_id a.requests) version)) [
      | inl stale ↦ absurd (clash (sym h ∙ ap (λ x. x.0) (update-stale first version a stale)))
      | inr current ↦ rw (update-current first version a current) (
          update-stale second version _
            (rw (same, lookup-insert_self first.request_id first a.requests) (ground arith)))
    ]
  where
    clash : ok first ≡ err RecoveryError.conflict → ⊥
    clash p = ground arith

-- A decision of a guardian that is added after another on the same request changes nothing: it gives
-- back the earlier one if the decision and the digests are the same, and is refused if they are not.
pub add_approval-again :
    (first second : RecoveryApproval) (a : Repository)
    → approval_key second ≡ approval_key first
    → lookup (approval_key first) a.approvals ≡ none
    → add_approval_idempotently second (add_approval_idempotently first a).1 ≡ (
      (if same_decision first second then ok (first, false) else err RecoveryError.conflict),
      (add_approval_idempotently first a).1,
    )
unfolding add_approval_idempotently
add_approval-again first second a same new =
    rw (stored, same, lookup-insert_self (approval_key first) first a.approvals) (ground arith)
  where
    stored :
        add_approval_idempotently first a
        ≡ (ok (first, true), record a { approvals = insert (approval_key first) first a.approvals })
    stored = rw new refl

abbrev with_share : ShareMetadata → Repository → Repository
with_share s a = record a { shares = insert (share_key s) s a.shares }

save-clash :
    (s : ShareMetadata) (ss : List ShareMetadata) (a : Repository)
    → share_clash (lookup (share_key s) a.shares) s ≡ true
    → save_share_set (s ∷ ss) a ≡ (err RecoveryError.conflict, a)
unfolding save_share_set
save-clash s ss a h = rw h refl

save-free :
    (s : ShareMetadata) (ss : List ShareMetadata) (a : Repository)
    → share_clash (lookup (share_key s) a.shares) s ≡ false
    → save_share_set (s ∷ ss) a ≡ save_share_set ss (with_share s a)
unfolding save_share_set
save-free s ss a h = rw h refl

-- The share that is asked for by the fields of its key is there.
abbrev pub IsStored : Repository → ShareMetadata → Type 0
IsStored a s =
    (get_share s.policy_id s.policy_version s.share_version s.guardian_id a).0 ≡ ok (some s)

-- From a sound repository, every share of a set that was saved is found again under its policy,
-- version and guardian.
pub save_share_set-get_share :
    (ss : List ShareMetadata) (a : Repository)
    → IsSound a
    → (save_share_set ss a).0 ≡ ok tt
    → All (IsStored (save_share_set ss a).1) ss
unfolding get_share
save_share_set-get_share [] a v h = tt
save_share_set-get_share (s ∷ ss) a v h =
    elim (Bool-cases (share_clash (lookup (share_key s) a.shares) s)) [
      | inl clash ↦ absurd (raised _ (sym h ∙ ap (λ x. x.0) (save-clash s ss a clash)))
      | inr fine ↦
          let eq = save-free s ss a fine in
          let v' = (Extends-share a v s fine).0 in
          let kept = (save-Extends ss (with_share s a) v').1.shares (share_key s) s in
          subst (λ b. All (IsStored b.1) (s ∷ ss)) (sym eq)
            (
              ap (λ o. ok o) (kept (lookup-insert_self (share_key s) s a.shares)),
              save_share_set-get_share ss (with_share s a) v' (ap (λ x. x.0) (sym eq) ∙ h),
            )
    ]
  where
    raised : (u : Unit {0}) → ok u ≡ err RecoveryError.conflict → ⊥
    raised u p = ground arith
