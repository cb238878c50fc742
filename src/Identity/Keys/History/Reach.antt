-- ===== src/Identity/Keys/History/Reach.antt =====
-- The writes between two versions of a key: they compose, and the version tells them apart.
use secure_ssi_platform.Prelude.{◌<◌, ◌≡◌, ◌⊎◌, inl, inr, refl, arith, ap, ◌∙◌}
use secure_ssi_platform.Identity.Keys.Record.{ManagedKey}
use secure_ssi_platform.Identity.Keys.History.{Step, Steps, here, next}

pub Steps-trans : {a b c : ManagedKey} → Steps a b → Steps b c → Steps a c
Steps-trans ab here = ab
Steps-trans ab (next bc s) = next (Steps-trans ab bc) s

pub one_step : {k k' : ManagedKey} → Step k k' → Steps k k'
one_step s = next here s

-- The version grows unless nothing was written.
pub Steps-version : {k q : ManagedKey} → Steps k q → (q ≡ k) ⊎ (k.version < q.version)
Steps-version here = inl refl
Steps-version {k} {q} (next {a = a} h s) = inr (grown (Steps-version h))
  where
    grown : (a ≡ k) ⊎ (k.version < a.version) → k.version < q.version
    grown (inl e) = omega (arith, s.kept.version, ap (λ (x : ManagedKey). x.version) e)
    grown (inr l) = omega (arith, s.kept.version)

-- A key is known by its version: no two writes leave the same one.
pub key-eq_version : {k q : ManagedKey} → Steps k q → q.version ≡ k.version → q ≡ k
key-eq_version h e = elim (Steps-version h) [ inl p ↦ p | inr l ↦ absurd (omega arith) ]

pub Steps-key_id : {k q : ManagedKey} → Steps k q → q.key_id ≡ k.key_id
Steps-key_id here = refl
Steps-key_id (next h s) = s.kept.key_id ∙ Steps-key_id h
