-- ===== src/Recovery/Guarantee/Atomic.antt =====
-- The rules for the repository's methods, which the other threads may come before.
use secure_ssi_platform.Prelude.{
  suc, ◌≡◌, ◌⊎◌, String, Option, none, some, refl, ap, ◌∙◌, inl, inr, Bool-cases, Option-cases,
}
use secure_ssi_platform.Prelude.Equality.{◌==◌, nat_equality, text_equality}
use secure_ssi_platform.Prelude.Dict.{lookup, insert, lookup-insert_self}
use secure_ssi_platform.Recovery.Monad.{RecoveryError, ok, err, Exec, ◌>>=◌}
use secure_ssi_platform.Recovery.Domain.Requests.{RecoveryRequest}
use secure_ssi_platform.Recovery.Repository.State.{Repository}
use secure_ssi_platform.Recovery.Repository.Requests.{get_request, update_request}
use secure_ssi_platform.Recovery.Environment.{Environment, World, atomic}
use secure_ssi_platform.Recovery.History.{Step}
use secure_ssi_platform.Recovery.History.Reach.{same_version}
use secure_ssi_platform.Recovery.Guarantee.Invariant.{
  Evolves-trans, Known, Known-Evolves, Known-read, written, written-IsSound, written-Evolves,
}
use secure_ssi_platform.Recovery.Guarantee.Rules.{Safe, Under, IsFair, Holds-Evolves}

-- An update of a known request by its version is refused, or writes over that very request: the
-- optimistic check loses no update.
pub update-cases :
    (a : Repository) (r x : RecoveryRequest)
    → Known r a
    → Step r x
    → (update_request x r.version a ≡ (err RecoveryError.conflict, a))
      ⊎ ((update_request x r.version a
            ≡ (ok x, record a { requests = insert x.request_id x a.requests }))
          × (lookup r.request_id a.requests ≡ some r))
unfolding update_request Known
update-cases a r x (q, h, steps) s =
    let found : lookup x.request_id a.requests ≡ some q =
      ap (λ k. lookup k a.requests) s.kept.request_id ∙ h in
    elim (Bool-cases (q.version == r.version)) [
      | inl same ↦ inr (
        rw found (rw same refl),
        h ∙ ap some (same_version steps ((nat_equality.beq_iff q.version r.version).0 same)),
      )
      | inr stale ↦ inl (rw found (rw stale refl))
    ]

module _ (env : Environment) (fair : IsFair env) where
  pub Under-atomic :
      {A : Type 0} {c : Option RecoveryRequest} (m : Exec Repository A)
      → Safe c m
      → Under c (atomic env m)
  unfolding atomic
  Under-atomic {c = c} m s = record {
    at = λ w v k.
        let (v', e) = fair.at w.tick w.repository v in
        let (v'', e') = s.at (env.others w.tick w.repository) v' (Holds-Evolves c k e) in
        (v'', Evolves-trans e e');
  }

  module _ {B : Type 0} {c : Option RecoveryRequest} where
    -- After a read the rest may rely on the request that was read.
    pub Under-read :
        (id : String) (f : Option RecoveryRequest → Exec World B)
        → ((q : RecoveryRequest) → Under (some q) (f (some q)))
        → Under c (f none)
        → Under c (atomic env (get_request id) >>= f)
    unfolding atomic get_request ◌>>=◌
    Under-read id f found missing = record {
      at = λ w v k.
          let a : Repository = env.others w.tick w.repository in
          let (v', e) = fair.at w.tick w.repository v in
          let w' : World = record w { repository = a; tick = suc w.tick } in
          elim (Option-cases (lookup id a.requests)) [
            | inl p ↦ rw p (
                let (v'', e') = missing.at w' v' (Holds-Evolves c k e) in (v'', Evolves-trans e e'))
            | inr (q, p) ↦ rw p (
                let (v'', e') = (found q).at w' v' (Known-read id q v' p) in
                (v'', Evolves-trans e e'))
          ];
    }

  module _ {B : Type 0} where
    -- A write of a step of what was read; the rest may rely on what was written.
    pub Under-write :
        (r x : RecoveryRequest) (f : RecoveryRequest → Exec World B)
        → Step r x
        → Under (some x) (f x)
        → Under (some r) (atomic env (update_request x r.version) >>= f)
    unfolding atomic ◌>>=◌
    Under-write r x f s next = record {
      at = λ w v k.
          let a : Repository = env.others w.tick w.repository in
          let (v', e) = fair.at w.tick w.repository v in
          elim (update-cases a r x (Known-Evolves r k e) s) [
            | inl p ↦ rw p (v', e)
            | inr (p, h) ↦ rw p (
                let v'' = written-IsSound r x v' s h in
                let e' = written-Evolves r x v' s h in
                let w' : World = record w { repository = written r x v' s h; tick = suc w.tick } in
                let (u, d) =
                  next.at w' v'' (
                    Known-read x.request_id x v'' (lookup-insert_self x.request_id x a.requests)) in
                (u, Evolves-trans e (Evolves-trans e' d)))
          ];
    }

  -- A write that ends the method.
  pub Under-last_write :
      (r x : RecoveryRequest) → Step r x → Under (some r) (atomic env (update_request x r.version))
  unfolding atomic
  Under-last_write r x s = record {
    at = λ w v k.
        let a : Repository = env.others w.tick w.repository in
        let (v', e) = fair.at w.tick w.repository v in
        elim (update-cases a r x (Known-Evolves r k e) s) [
          | inl p ↦ rw p (v', e)
          | inr (p, h) ↦
              rw p (written-IsSound r x v' s h, Evolves-trans e (written-Evolves r x v' s h))
        ];
  }
