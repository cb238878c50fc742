-- ===== src/Recovery/Guarantee/Stores.antt =====
-- The repository's methods that write no request: what they read they leave alone, and evidence is
-- written once.
use mathlib.Core.Path.{subst}
use secure_ssi_platform.Prelude.{
  ℕ, ◌≡◌, String, Bool, true, false, not, is_some, Option, none, List, [], ◌∷◌, refl, sym, inl, inr,
  arith, Bool-cases, Option-cases,
}
use secure_ssi_platform.Prelude.Equality.{nat_equality, text_equality, pair_equality}
use secure_ssi_platform.Prelude.Dict.{lookup, insert, insert-keeps}
use secure_ssi_platform.Recovery.Monad.{Exec}
use secure_ssi_platform.Recovery.Domain.States.{event_type_equality, active, suspended}
use secure_ssi_platform.Recovery.Domain.Requests.{RecoveryRequest}
use secure_ssi_platform.Recovery.Domain.Guardians.{Guardian, RecoveryPolicy}
use secure_ssi_platform.Recovery.Domain.Records.{RecoveryApproval, ShareMetadata, AuditEvent}
use secure_ssi_platform.Recovery.Repository.State.{Repository}
use secure_ssi_platform.Recovery.Repository.Guardians.{
  add_guardian, update_guardian, upsert_policy, guardian_stale, policy_stale,
  find_guardian_assignment,
}
use secure_ssi_platform.Recovery.Repository.Guardians as Guards
use secure_ssi_platform.Recovery.Repository.Requests as Requests
use secure_ssi_platform.Recovery.Repository.Evidence.{
  list_approvals, get_share, same_metadata, same_event, same_share, share_key, approval_key,
  append_audit_idempotently, add_approval_idempotently, save_share_set, event_clash, share_clash,
  same_decision,
}
use secure_ssi_platform.Recovery.Guarantee.Invariant.{IsSound, Evolves, Evolves-refl, Evolves-trans}
use secure_ssi_platform.Recovery.History.{here}
use secure_ssi_platform.Recovery.Guarantee.Rules.{Safe}

not-false : (b : Bool) → not b ≡ false → b ≡ true
not-false true h = refl
not-false false h = cc

same-metadata_eq : (a b : List (String × String)) → same_metadata a b ≡ true → a ≡ b
same-metadata_eq [] [] h = refl
same-metadata_eq [] (y ∷ b) h = cc
same-metadata_eq (x ∷ a) [] h = cc
same-metadata_eq ((k, v) ∷ a) ((j, w) ∷ b) h =
    ground (arith, same-metadata_eq a b, text_equality.beq_iff k j, text_equality.beq_iff v w)

pub same-event_eq : (a b : AuditEvent) → same_event a b ≡ true → a ≡ b
same-event_eq a b h = ground (
  arith,
  text_equality.beq_iff a.event_id b.event_id,
  event_type_equality.beq_iff a.event_type b.event_type,
  text_equality.beq_iff a.aggregate_id b.aggregate_id,
  text_equality.beq_iff a.actor_id b.actor_id,
  nat_equality.beq_iff a.occurred_at b.occurred_at,
  same-metadata_eq a.metadata b.metadata,
)

same-share_eq : (a b : ShareMetadata) → same_share a b ≡ true → a ≡ b
same-share_eq a b h = ground (
  arith,
  text_equality.beq_iff a.share_id b.share_id,
  text_equality.beq_iff a.recovery_request_id b.recovery_request_id,
  text_equality.beq_iff a.policy_id b.policy_id,
  nat_equality.beq_iff a.policy_version b.policy_version,
  nat_equality.beq_iff a.share_version b.share_version,
  text_equality.beq_iff a.guardian_id b.guardian_id,
  nat_equality.beq_iff a.share_index b.share_index,
  nat_equality.beq_iff a.threshold b.threshold,
  nat_equality.beq_iff a.share_count b.share_count,
  nat_equality.beq_iff a.envelope_version b.envelope_version,
  text_equality.beq_iff a.integrity_digest b.integrity_digest,
  text_equality.beq_iff a.encrypted_envelope b.encrypted_envelope,
  nat_equality.beq_iff a.created_at b.created_at,
)

-- A repository with the same requests, and at least the evidence.
abbrev Extends : Repository → Repository → Type 0
Extends a b = IsSound b × Evolves a b

module _ (a : Repository) (v : IsSound a) where
  Extends-refl : Extends a a
  Extends-refl = (v, Evolves-refl a)

  Extends-guardian :
      (g : Guardian) → Extends a (record a { guardians = insert g.guardian_id g a.guardians })
  Extends-guardian g = (
    record { keyed = v.keyed; grown = v.grown; single = v.single },
    record {
      requests = λ k q h. (q, h, here);
      approvals = λ k x h. h;
      shares = λ k x h. h;
      audit_events = λ k x h. h;
    },
  )

  Extends-policy :
      (p : RecoveryPolicy) → Extends a (record a { policies = insert p.wallet_id p a.policies })
  Extends-policy p = (
    record { keyed = v.keyed; grown = v.grown; single = v.single },
    record {
      requests = λ k q h. (q, h, here);
      approvals = λ k x h. h;
      shares = λ k x h. h;
      audit_events = λ k x h. h;
    },
  )

  Extends-approval :
      (x : RecoveryApproval)
      → lookup (approval_key x) a.approvals ≡ none
      → Extends a (record a { approvals = insert (approval_key x) x a.approvals })
  Extends-approval x new = (
    record { keyed = v.keyed; grown = v.grown; single = v.single },
    record {
      requests = λ k q h. (q, h, here);
      approvals = insert-keeps (approval_key x) x a.approvals (λ w p. cc (new, p));
      shares = λ k y h. h;
      audit_events = λ k y h. h;
    },
  )

  pub Extends-share :
      (x : ShareMetadata)
      → share_clash (lookup (share_key x) a.shares) x ≡ false
      → Extends a (record a { shares = insert (share_key x) x a.shares })
  Extends-share x free = (
    record { keyed = v.keyed; grown = v.grown; single = v.single },
    record {
      requests = λ k q h. (q, h, here);
      approvals = λ k y h. h;
      shares =
          insert-keeps (share_key x) x a.shares
            (λ w p. same-share_eq w x (not-false (same_share w x) (rw p at free)));
      audit_events = λ k y h. h;
    },
  )

  Extends-event :
      (x : AuditEvent)
      → event_clash (lookup x.event_id a.audit_events) x ≡ false
      → Extends a (record a { audit_events = insert x.event_id x a.audit_events })
  Extends-event x free = (
    record { keyed = v.keyed; grown = v.grown; single = v.single },
    record {
      requests = λ k q h. (q, h, here);
      approvals = λ k y h. h;
      shares = λ k y h. h;
      audit_events =
          insert-keeps x.event_id x a.audit_events
            (λ w p. same-event_eq w x (not-false (same_event w x) (rw p at free)));
    },
  )

module _ {c : Option RecoveryRequest} where
  pub Safe-still :
      {A : Type 0} (m : Exec Repository A) → ((a : Repository) → (m a).1 ≡ a) → Safe c m
  Safe-still m same = record {
    at = λ a v h. subst (λ b. Extends a b) (sym (same a)) (Extends-refl a v);
  }

  pub Safe-add_guardian : (g : Guardian) → Safe c (add_guardian g)
  unfolding add_guardian
  Safe-add_guardian g = record {
    at = λ a v h. elim (Bool-cases (is_some (lookup g.guardian_id a.guardians))) [
      | inl p ↦ rw p (Extends-refl a v)
      | inr p ↦
          elim (Bool-cases (
            is_some (
              find_guardian_assignment g.wallet_id g.guardian_user_id (active ∷ suspended ∷ [])
                a))) [
                  | inl q ↦ rw (p, q) (Extends-refl a v)
                  | inr q ↦ rw (p, q) (Extends-guardian a v g)
                ]
    ];
  }

  pub Safe-update_guardian : (g : Guardian) (n : ℕ) → Safe c (update_guardian g n)
  unfolding update_guardian
  Safe-update_guardian g n = record {
    at = λ a v h. elim (Bool-cases (guardian_stale (lookup g.guardian_id a.guardians) n)) [
      | inl p ↦ rw p (Extends-refl a v)
      | inr p ↦ rw p (Extends-guardian a v g)
    ];
  }

  pub Safe-upsert_policy : (p : RecoveryPolicy) (n : Option ℕ) → Safe c (upsert_policy p n)
  unfolding upsert_policy
  Safe-upsert_policy p n = record {
    at = λ a v h. elim (Bool-cases (policy_stale (lookup p.wallet_id a.policies) n)) [
      | inl q ↦ rw q (Extends-refl a v)
      | inr q ↦ rw q (Extends-policy a v p)
    ];
  }

  pub Safe-append_audit : (e : AuditEvent) → Safe c (append_audit_idempotently e)
  unfolding append_audit_idempotently
  Safe-append_audit e = record {
    at = λ a v h. elim (Bool-cases (event_clash (lookup e.event_id a.audit_events) e)) [
      | inl q ↦ rw q (Extends-refl a v)
      | inr q ↦ rw q (Extends-event a v e q)
    ];
  }

  pub Safe-add_approval : (x : RecoveryApproval) → Safe c (add_approval_idempotently x)
  unfolding add_approval_idempotently
  Safe-add_approval x = record {
    at = λ a v h. elim (Option-cases (lookup (approval_key x) a.approvals)) [
      | inl p ↦ rw p (Extends-approval a v x p)
      | inr (old, p) ↦ elim (Bool-cases (same_decision old x)) [
        | inl q ↦ rw p (rw q (Extends-refl a v))
        | inr q ↦ rw p (rw q (Extends-refl a v))
      ]
    ];
  }

pub save-Extends :
    (ss : List ShareMetadata) (a : Repository) → IsSound a → Extends a (save_share_set ss a).1
unfolding save_share_set
save-Extends [] a v = Extends-refl a v
save-Extends (s ∷ ss) a v = elim (Bool-cases (share_clash (lookup (share_key s) a.shares) s)) [
  | inl p ↦ rw p (Extends-refl a v)
  | inr p ↦ rw p (
      let (v', e) = Extends-share a v s p in
      let (v'', e') = save-Extends ss (record a { shares = insert (share_key s) s a.shares }) v' in
      (v'', Evolves-trans e e'))
]

module _ {c : Option RecoveryRequest} where
  pub Safe-save_share_set : (ss : List ShareMetadata) → Safe c (save_share_set ss)
  Safe-save_share_set ss = record { at = λ a v h. save-Extends ss a v }

  pub Safe-get_guardian : (id : String) → Safe c (Guards.get_guardian id)
  unfolding Guards.get_guardian
  Safe-get_guardian id = Safe-still (Guards.get_guardian id) (λ a. refl)

  pub Safe-list_guardians : (x y z : Option String) → Safe c (Guards.list_guardians x y z)
  unfolding Guards.list_guardians
  Safe-list_guardians x y z = Safe-still (Guards.list_guardians x y z) (λ a. refl)

  pub Safe-count_active : Safe c Guards.count_active_guardians
  unfolding Guards.count_active_guardians
  Safe-count_active = Safe-still Guards.count_active_guardians (λ a. refl)

  pub Safe-get_policy : (id : String) → Safe c (Guards.get_policy id)
  unfolding Guards.get_policy
  Safe-get_policy id = Safe-still (Guards.get_policy id) (λ a. refl)

  pub Safe-get_active : (id : String) → Safe c (Requests.get_active_request id)
  unfolding Requests.get_active_request
  Safe-get_active id = Safe-still (Requests.get_active_request id) (λ a. refl)

  pub Safe-get_request : (id : String) → Safe c (Requests.get_request id)
  unfolding Requests.get_request
  Safe-get_request id = Safe-still (Requests.get_request id) (λ a. refl)

  pub Safe-list_requests : (x y : Option String) (n : ℕ) → Safe c (Requests.list_requests x y n)
  unfolding Requests.list_requests
  Safe-list_requests x y n = Safe-still (Requests.list_requests x y n) (λ a. refl)

  pub Safe-candidates : (x y n : ℕ) → Safe c (Requests.list_reconciliation_candidates x y n)
  unfolding Requests.list_reconciliation_candidates
  Safe-candidates x y n = Safe-still (Requests.list_reconciliation_candidates x y n) (λ a. refl)

  pub Safe-list_approvals : (id : String) → Safe c (list_approvals id)
  unfolding list_approvals
  Safe-list_approvals id = Safe-still (list_approvals id) (λ a. refl)

  pub Safe-get_share : (p : String) (m n : ℕ) (g : String) → Safe c (get_share p m n g)
  unfolding get_share
  Safe-get_share p m n g = Safe-still (get_share p m n g) (λ a. refl)

pub ruleset store_rules = (
  Safe-add_guardian, Safe-update_guardian, Safe-upsert_policy, Safe-append_audit, Safe-add_approval,
  Safe-save_share_set, Safe-get_guardian, Safe-list_guardians, Safe-count_active, Safe-get_policy,
  Safe-get_active, Safe-get_request, Safe-list_requests, Safe-candidates, Safe-list_approvals,
  Safe-get_share,
)
