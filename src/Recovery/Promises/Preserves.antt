-- ===== src/Recovery/Promises/Preserves.antt =====
-- A property of the repository that a method of the service keeps, with one rule for each way to
-- build a method (services/recovery-service/app/application/services/recovery_service.py). Unlike the
-- rules of Guarantee, these are for any property, and a block may use what its first action returned.
use mathlib.Core.Path.{subst}
use secure_ssi_platform.Prelude.{
  ℕ, ◌≡◌, inl, inr, String, Bool, true, false, Option, none, some, List, refl, sym, Bool-cases,
  if◌then◌else◌,
}
use secure_ssi_platform.Prelude.Equality.{text_equality}
use secure_ssi_platform.Prelude.Dict.{lookup, insert}
use secure_ssi_platform.Recovery.Monad.{
  RecoveryError, Result, ok, err, Exec, pure, raise, lift, catch, or_raise, ◌>>=◌, recover,
  raise_if,
}
use secure_ssi_platform.Recovery.Domain.States.{AuditEventType}
use secure_ssi_platform.Recovery.Domain.Requests.{RecoveryRequest}
use secure_ssi_platform.Recovery.Repository.State.{Repository}
use secure_ssi_platform.Recovery.Repository.Requests.{update_request, request_stale}
use secure_ssi_platform.Recovery.Repository.Evidence.{append_audit_idempotently, event_clash}
use secure_ssi_platform.Recovery.Environment.{
  Environment, World, Counter, external, atomic, now, increment,
}
use secure_ssi_platform.Recovery.Service.Audit.{audit}

pub record Preserves {A : Type 0} (P : Repository → Type 0) (m : Exec World A) : Type 0 where
  pub at : (w : World) → P w.repository → P (m w).1.repository

-- A property that looks at the requests, the guardians, the decisions and the shares only.
pub record IsBlind (P : Repository → Type 0) : Type 0 where
  pub audit_events :
      (a b : Repository)
      → b.requests ≡ a.requests
      → b.guardians ≡ a.guardians
      → b.approvals ≡ a.approvals
      → b.shares ≡ a.shares
      → P a
      → P b

module _ {P : Repository → Type 0} where
  module _ {A : Type 0} where
    pub Preserves-still :
        (m : Exec World A) → ((w : World) → (m w).1.repository ≡ w.repository) → Preserves P m
    Preserves-still m same = record { at = λ w p. subst P (sym (same w)) p }

    pub Preserves-pure : (x : A) → Preserves P (pure x)
    unfolding pure
    Preserves-pure x = Preserves-still (pure x) (λ w. refl)

    pub Preserves-raise : (e : RecoveryError) → Preserves P (raise {A = A} e)
    unfolding raise
    Preserves-raise e = Preserves-still (raise e) (λ w. refl)

    pub Preserves-lift : (r : Result A) → Preserves P (lift r)
    unfolding lift
    Preserves-lift r = Preserves-still (lift r) (λ w. refl)

    pub Preserves-external : (f : ℕ → Result A) → Preserves P (external f)
    unfolding external
    Preserves-external f = Preserves-still (external f) (λ w. refl)

    pub Preserves-or_raise : (o : Option A) (e : RecoveryError) → Preserves P (or_raise o e)
    Preserves-or_raise none e = Preserves-raise e
    Preserves-or_raise (some x) e = Preserves-pure x

    pub Preserves-if :
        (b : Bool) (m n : Exec World A)
        → (b ≡ true → Preserves P m)
        → (b ≡ false → Preserves P n)
        → Preserves P (if b then m else n)
    Preserves-if true m n pm pn = pm refl
    Preserves-if false m n pm pn = pn refl

    recovered :
        (r : Result A) (h : RecoveryError → Exec World A) (w : World)
        → ((e : RecoveryError) → Preserves P (h e))
        → P w.repository
        → P (recover r h w).1.repository
    recovered (ok x) h w ph p = p
    recovered (err e) h w ph p = (ph e).at w p

    pub Preserves-catch :
        (m : Exec World A) (h : RecoveryError → Exec World A)
        → Preserves P m
        → ((e : RecoveryError) → Preserves P (h e))
        → Preserves P (catch m h)
    unfolding catch
    Preserves-catch m h pm ph = record { at = λ w p. recovered (m w).0 h (m w).1 ph (pm.at w p) }

  pub Preserves-raise_if : (b : Bool) (e : RecoveryError) → Preserves P (raise_if b e)
  unfolding raise_if pure raise
  Preserves-raise_if true e = Preserves-raise e
  Preserves-raise_if false e = Preserves-pure tt

  module _ {A B : Type 0} where
    continued :
        (r : Result A) (f : A → Exec World B) (w : World)
        → ((x : A) → r ≡ ok x → Preserves P (f x))
        → P w.repository
        → P ((lift r >>= f) w).1.repository
    unfolding ◌>>=◌ lift
    continued (ok x) f w pf p = (pf x refl).at w p
    continued (err e) f w pf p = p

    -- The rest of a block may use what the first action returned, and where.
    pub Preserves-then :
        (m : Exec World A) (f : A → Exec World B)
        → Preserves P m
        → ((x : A) (w : World) → P w.repository → (m w).0 ≡ ok x → Preserves P (f x))
        → Preserves P (m >>= f)
    unfolding ◌>>=◌ lift
    Preserves-then m f pm pf = record {
      at = λ w p. continued (m w).0 f (m w).1 (λ x e. pf x w p e) (pm.at w p);
    }

    pub Preserves-bind :
        (m : Exec World A) (f : A → Exec World B)
        → Preserves P m
        → ((x : A) → Preserves P (f x))
        → Preserves P (m >>= f)
    Preserves-bind m f pm pf = Preserves-then m f pm (λ x w p e. pf x)

    pub Preserves-bind_lift :
        (r : Result A) (f : A → Exec World B)
        → ((x : A) → r ≡ ok x → Preserves P (f x))
        → Preserves P (lift r >>= f)
    Preserves-bind_lift r f pf = record { at = λ w p. continued r f w pf p }

  pub Preserves-increment : (c : Counter) → Preserves P (increment c)
  unfolding increment
  Preserves-increment c = Preserves-still (increment c) (λ w. refl)

module _ {P : Repository → Type 0} (env : Environment) where
  pub Preserves-now : Preserves P (now env)
  unfolding now
  Preserves-now = Preserves-external _

  module _ (others : (n : ℕ) (a : Repository) → P a → P (env.others n a)) where
    pub Preserves-atomic :
        {A : Type 0} (m : Exec Repository A)
        → ((a : Repository) → P a → P (m a).1)
        → Preserves P (atomic env m)
    unfolding atomic
    Preserves-atomic m pm = record { at = λ w p. pm _ (others w.tick w.repository p) }

    -- A request that is written where another is, if it has the property.
    pub Preserves-update :
        (q : RecoveryRequest) (v : ℕ)
        → ((a : Repository) → P a → P (record a { requests = insert q.request_id q a.requests }))
        → Preserves P (atomic env (update_request q v))
    unfolding update_request
    Preserves-update q v write = Preserves-atomic (update_request q v) λ a p.
        elim (Bool-cases (request_stale (lookup q.request_id a.requests) v)) [
          | inl e ↦ rw e p
          | inr e ↦ rw e (write a p)
        ]

    pub Preserves-audit :
        IsBlind P
        → (t : AuditEventType) (x y : String) (at : ℕ) (d : String) (m : List (String × String))
        → Preserves P (audit env t x y at d m)
    unfolding audit append_audit_idempotently
    Preserves-audit blind t x y at d m = Preserves-bind _ _ (Preserves-lift _) λ e.
        Preserves-atomic (append_audit_idempotently e) λ a p.
          elim (Bool-cases (event_clash (lookup e.event_id a.audit_events) e)) [
            | inl c ↦ rw c p
            | inr c ↦ rw c (blind.audit_events a _ refl refl refl refl p)
          ]
