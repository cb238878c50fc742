-- ===== src/Recovery/History/Reach.antt =====
-- The writes between two versions of a request: they compose, and the version tells them apart.
use secure_ssi_platform.Prelude.{◌<◌, ◌≡◌, ◌⊎◌, inl, inr, refl, arith, ap, ◌∙◌}
use secure_ssi_platform.Recovery.Domain.Requests.{RecoveryRequest}
use secure_ssi_platform.Recovery.History.{Step, Steps, here, next}

pub Steps-trans : {p q r : RecoveryRequest} → Steps p q → Steps q r → Steps p r
Steps-trans pq here = pq
Steps-trans pq (next qr s) = next (Steps-trans pq qr) s

pub single : {r r' : RecoveryRequest} → Step r r' → Steps r r'
single s = next here s

-- The version grows unless nothing was written.
pub Steps-version : {r q : RecoveryRequest} → Steps r q → (q ≡ r) ⊎ (r.version < q.version)
Steps-version here = inl refl
Steps-version {r} {q} (next {a = a} h s) = inr (go (Steps-version h))
  where
    go : (a ≡ r) ⊎ (r.version < a.version) → r.version < q.version
    go (inl e) = omega (arith, s.kept.version, ap (λ (x : RecoveryRequest). x.version) e)
    go (inr l) = omega (arith, s.kept.version)

-- A request is known by its version: no two writes leave the same one.
pub same_version : {r q : RecoveryRequest} → Steps r q → q.version ≡ r.version → q ≡ r
same_version h e = elim (Steps-version h) [ inl p ↦ p | inr l ↦ absurd (omega arith) ]

-- The identity of a request is never written.
pub Steps-request_id : {r q : RecoveryRequest} → Steps r q → q.request_id ≡ r.request_id
Steps-request_id here = refl
Steps-request_id (next h s) = s.kept.request_id ∙ Steps-request_id h
