-- ===== src/Recovery/Guarantee/Invariant.antt =====
-- The invariant of the stored requests, and how a repository may evolve.
use mathlib.Core.Path.{subst}
use mathlib.Core.Option.{some-injective}
use secure_ssi_platform.Prelude.{◌≡◌, String, false, some, refl, inl, inr, sym, ap, ◌∙◌}
use secure_ssi_platform.Prelude.Equality.{text_equality, pair_equality, nat_equality}
use secure_ssi_platform.Prelude.Dict.{lookup, insert, insert-cases, insert-lookup}
use secure_ssi_platform.Recovery.Domain.States.{terminal}
use secure_ssi_platform.Recovery.Domain.Requests.{RecoveryRequest}
use secure_ssi_platform.Recovery.Domain.Records.{RecoveryApproval, ShareMetadata, AuditEvent}
use secure_ssi_platform.Recovery.Repository.State.{Repository, ShareKey}
use secure_ssi_platform.Recovery.History.{Step, Steps, here, next}
use secure_ssi_platform.Recovery.History.Grown.{IsGrown}
use secure_ssi_platform.Recovery.History.Table.{Step-live}
use secure_ssi_platform.Recovery.History.Reach.{Steps-trans, single}

-- Requests are stored under their ids, have grown from new ones, and no wallet has two at work.
pub record IsSound (a : Repository) : Type 0 where
  pub keyed : (k : String) (q : RecoveryRequest) → lookup k a.requests ≡ some q → q.request_id ≡ k
  pub grown : (k : String) (q : RecoveryRequest) → lookup k a.requests ≡ some q → IsGrown q
  pub single :
      (j k : String) (p q : RecoveryRequest)
      → lookup j a.requests ≡ some p
      → lookup k a.requests ≡ some q
      → p.wallet_id ≡ q.wallet_id
      → terminal p.session.state ≡ false
      → terminal q.session.state ≡ false
      → j ≡ k

-- A stored request is still there, and has only made `Step`s; approvals, shares and audit events
-- are as they were.
pub record Evolves (a b : Repository) : Type 0 where
  pub requests :
      (k : String) (q : RecoveryRequest)
      → lookup k a.requests ≡ some q
      → (q' : RecoveryRequest) × (lookup k b.requests ≡ some q') × Steps q q'
  pub approvals :
      (k : String × String) (x : RecoveryApproval)
      → lookup k a.approvals ≡ some x
      → lookup k b.approvals ≡ some x
  pub shares :
      (k : ShareKey) (x : ShareMetadata) → lookup k a.shares ≡ some x → lookup k b.shares ≡ some x
  pub audit_events :
      (k : String) (x : AuditEvent)
      → lookup k a.audit_events ≡ some x
      → lookup k b.audit_events ≡ some x

pub Evolves-refl : (a : Repository) → Evolves a a
Evolves-refl a = record {
  requests = λ k q h. (q, h, here);
  approvals = λ k x h. h;
  shares = λ k x h. h;
  audit_events = λ k x h. h;
}

pub Evolves-trans : {a b c : Repository} → Evolves a b → Evolves b c → Evolves a c
Evolves-trans ab bc = record {
  requests = λ k q h.
      let (q', h', s) = ab.requests k q h in
      let (q'', h'', t) = bc.requests k q' h' in (q'', h'', Steps-trans s t);
  approvals = λ k x h. bc.approvals k x (ab.approvals k x h);
  shares = λ k x h. bc.shares k x (ab.shares k x h);
  audit_events = λ k x h. bc.audit_events k x (ab.audit_events k x h);
}

-- The request was read at some time: what is stored under its id has grown from it.
unfoldable pub Known : RecoveryRequest → Repository → Type 0
Known r a = (q : RecoveryRequest) × (lookup r.request_id a.requests ≡ some q) × Steps r q

-- What is known stays known.
pub Known-Evolves : {a b : Repository} (r : RecoveryRequest) → Known r a → Evolves a b → Known r b
unfolding Known
Known-Evolves r (q, h, s) e =
    let (q', h', t) = e.requests r.request_id q h in (q', h', Steps-trans s t)

-- What is read is known.
pub Known-read :
    {a : Repository} (k : String) (r : RecoveryRequest)
    → IsSound a
    → lookup k a.requests ≡ some r
    → Known r a
unfolding Known
Known-read {a} k r v h = (r, ap (λ j. lookup j a.requests) (v.keyed k r h) ∙ h, here)

-- A step of what is known, written over the same version, keeps the invariant.
module _ {a : Repository} (r x : RecoveryRequest) (v : IsSound a) (s : Step r x)
    (h : lookup r.request_id a.requests ≡ some r) where
  abbrev pub written : Repository
  written = record a { requests = insert x.request_id x a.requests }

  IsGrown-on : IsGrown x
  IsGrown-on =
      let g = v.grown r.request_id r h in
      record { origin = g.origin; fresh = g.fresh; steps = next g.steps s }

  -- A write leaves the wallet.
  wallet_of : {p : RecoveryRequest} {u : String} → x ≡ p → p.wallet_id ≡ u → r.wallet_id ≡ u
  wallet_of e w = sym s.kept.wallet_id ∙ ap (λ (y : RecoveryRequest). y.wallet_id) e ∙ w

  pub written-IsSound : IsSound written
  written-IsSound = record {
    keyed = λ k q p. elim (insert-cases k x.request_id x a.requests p) [
      | inl (same, e) ↦ cc
      | inr old ↦ v.keyed k q old
    ];
    grown = λ k q p. elim (insert-cases k x.request_id x a.requests p) [
      | inl (same, e) ↦ subst IsGrown e IsGrown-on
      | inr old ↦ v.grown k q old
    ];
    single = λ j k p q hp hq w lp lq. elim (insert-cases j x.request_id x a.requests hp) [
      | inl (jx, ex) ↦ elim (insert-cases k x.request_id x a.requests hq) [
        | inl (kx, ey) ↦ cc
        | inr old ↦
            jx
            ∙ s.kept.request_id
            ∙ v.single r.request_id k r q h old (wallet_of ex w) (Step-live s) lq
      ]
      | inr old ↦ elim (insert-cases k x.request_id x a.requests hq) [
        | inl (kx, ey) ↦
            v.single j r.request_id p r old h (w ∙ sym (wallet_of ey refl)) lp (Step-live s)
            ∙ sym (kx ∙ s.kept.request_id)
        | inr older ↦ v.single j k p q old older w lp lq
      ]
    ];
  }

  pub written-Evolves : Evolves a written
  written-Evolves = record {
    requests = λ k q p. elim (insert-lookup k x.request_id x a.requests) [
      | inl (same, e) ↦
          let q_is_r : r ≡ q =
            some-injective _ _
              (sym h ∙ ap (λ j. lookup j a.requests) (sym (same ∙ s.kept.request_id)) ∙ p) in
          (x, e, subst (λ y. Steps y x) q_is_r (single s))
      | inr e ↦ (q, e ∙ p, here)
    ];
    approvals = λ k y p. p;
    shares = λ k y p. p;
    audit_events = λ k y p. p;
  }
