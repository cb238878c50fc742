-- ===== src/Recovery/Guarantee/Rules.antt =====
-- A method that keeps the repository sound and lets it only evolve, with one rule for each way to
-- build a method. `c` is the request that the method has read, if it has read one.
use mathlib.Core.Path.{subst}
use secure_ssi_platform.Prelude.{
  ℕ, ◌≡◌, Bool, true, false, Option, none, some, refl, sym, if◌then◌else◌,
}
use secure_ssi_platform.Recovery.Monad.{
  RecoveryError, Result, ok, err, Exec, pure, raise, lift, catch, or_raise, ◌>>=◌, recover,
}
use secure_ssi_platform.Recovery.Domain.Requests.{RecoveryRequest}
use secure_ssi_platform.Recovery.Repository.State.{Repository}
use secure_ssi_platform.Recovery.Environment.{Environment, World, external}
use secure_ssi_platform.Recovery.Guarantee.Invariant.{
  IsSound, Evolves, Evolves-refl, Evolves-trans, Known, Known-Evolves,
}

abbrev pub Holds : Option RecoveryRequest → Repository → Type 0
Holds none a = Unit
Holds (some r) a = Known r a

pub Holds-Evolves :
    {a b : Repository} (c : Option RecoveryRequest) → Holds c a → Evolves a b → Holds c b
Holds-Evolves none h e = tt
Holds-Evolves (some r) h e = Known-Evolves r h e

-- What is so of a repository method.
pub record Safe {A : Type 0} (c : Option RecoveryRequest) (m : Exec Repository A) : Type 0 where
  pub at : (a : Repository) → IsSound a → Holds c a → IsSound (m a).1 × Evolves a (m a).1

-- The same of a method of the service.
pub record Under {A : Type 0} (c : Option RecoveryRequest) (m : Exec World A) : Type 0 where
  pub at :
      (w : World)
      → IsSound w.repository
      → Holds c w.repository
      → IsSound (m w).1.repository × Evolves w.repository (m w).1.repository

-- What the other threads do keeps the invariant, too.
pub record IsFair (env : Environment) : Type 0 where
  pub at :
      (n : ℕ) (a : Repository) → IsSound a → IsSound (env.others n a) × Evolves a (env.others n a)

module _ {A : Type 0} {c : Option RecoveryRequest} where
  -- A method that needs to know of no request.
  pub Under-any : (m : Exec World A) → Under none m → Under c m
  Under-any m u = record { at = λ w v h. u.at w v tt }

  -- A method that leaves the repository alone.
  pub Under-still :
      (m : Exec World A) → ((w : World) → (m w).1.repository ≡ w.repository) → Under c m
  Under-still m same = record {
    at = λ w v h. (
      subst IsSound (sym (same w)) v,
      subst (λ b. Evolves w.repository b) (sym (same w)) (Evolves-refl w.repository),
    );
  }

  pub Under-pure : (x : A) → Under c (pure x)
  unfolding pure
  Under-pure x = Under-still (pure x) (λ w. refl)

  pub Under-raise : (e : RecoveryError) → Under c (raise {A = A} e)
  unfolding raise
  Under-raise e = Under-still (raise e) (λ w. refl)

  pub Under-lift : (r : Result A) → Under c (lift r)
  unfolding lift
  Under-lift r = Under-still (lift r) (λ w. refl)

  pub Under-external : (f : ℕ → Result A) → Under c (external f)
  unfolding external
  Under-external f = Under-still (external f) (λ w. refl)

  pub Under-if :
      (b : Bool) (m n : Exec World A)
      → (b ≡ true → Under c m)
      → (b ≡ false → Under c n)
      → Under c (if b then m else n)
  Under-if true m n um un = um refl
  Under-if false m n um un = un refl

  pub Under-or_raise : (o : Option A) (e : RecoveryError) → Under c (or_raise o e)
  Under-or_raise none e = Under-raise e
  Under-or_raise (some x) e = Under-pure x

  recover-Under :
      (r : Result A) (h : RecoveryError → Exec World A)
      → ((e : RecoveryError) → Under c (h e))
      → (w : World) → IsSound w.repository
      → Holds c w.repository
      → IsSound (recover r h w).1.repository × Evolves w.repository (recover r h w).1.repository
  recover-Under (ok x) h uh w v k = (v, Evolves-refl w.repository)
  recover-Under (err e) h uh w v k = (uh e).at w v k

  pub Under-catch :
      (m : Exec World A) (h : RecoveryError → Exec World A)
      → Under c m
      → ((e : RecoveryError) → Under c (h e))
      → Under c (catch m h)
  unfolding catch
  Under-catch m h um uh = record {
    at = λ w v k.
        let (v', e) = um.at w v k in
        let (v'', e') = recover-Under (m w).0 h uh (m w).1 v' (Holds-Evolves c k e) in
        (v'', Evolves-trans e e');
  }

module _ {A B : Type 0} {c : Option RecoveryRequest} where
  -- The rest of the block may use that the pure step did not raise.
  pub Under-bind-lift :
      (r : Result A) (f : A → Exec World B)
      → ((x : A) → r ≡ ok x → Under c (f x))
      → Under c (lift r >>= f)
  unfolding ◌>>=◌
  Under-bind-lift (ok x) f uf = record { at = (uf x refl).at }
  Under-bind-lift (err e) f uf = record { at = (Under-raise {A = B} {c = c} e).at }

  pub Under-bind :
      (m : Exec World A) (f : A → Exec World B)
      → Under c m
      → ((x : A) → Under c (f x))
      → Under c (m >>= f)
  unfolding ◌>>=◌
  Under-bind m f um uf = record {
    at = λ w v k.
        let (v', e) = um.at w v k in
        let (v'', e') =
          (Under-bind-lift (m w).0 f (λ x _. uf x)).at (m w).1 v' (Holds-Evolves c k e) in
        (v'', Evolves-trans e e');
  }

  pub Under-bind-pure : (x : A) (f : A → Exec World B) → Under c (f x) → Under c (pure x >>= f)
  unfolding ◌>>=◌
  Under-bind-pure x f u = record { at = u.at }

  pub Under-bind-raise : (e : RecoveryError) (f : A → Exec World B) → Under c (raise e >>= f)
  unfolding ◌>>=◌
  Under-bind-raise e f = Under-still (raise e >>= f) (λ w. refl)
