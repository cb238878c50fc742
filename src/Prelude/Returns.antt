-- ===== src/Prelude/Returns.antt =====
-- What follows from a method having returned: each part of it has.
use mathlib.Core.Path.{◌≡◌, refl, sym, ap}
use mathlib.Core.Logic.{◌⊎◌, inl, inr}
use mathlib.Core.Option.{Option, none, some}
use mathlib.Core.Bool.{Bool, true, false}
use native.Mathlib.Omega.{arith}
use secure_ssi_platform.Prelude.Tests.{if◌then◌else◌}
use secure_ssi_platform.Prelude.Effects.{
  Result, ok, err, then_result, fail_if, Exec, lift, catch, recover, raise_if, ◌>>=◌, reported,
  report, raise, pure, on_error, or_raise,
}

module _ {E S A B : Type 0} where
  continued :
      (r : Result E A) (s : S) (f : A → Exec E S B) {b : B}
      → ((lift r >>= f) s).0 ≡ ok b
      → (a : A) × (r ≡ ok a) × ((f a s).0 ≡ ok b)
  unfolding ◌>>=◌ lift
  continued (ok a) s f h = (a, refl, h)
  continued (err e) s f {b = b} h = absurd (clash (err e) refl h)
    where
      clash : (x : Result E B) → x ≡ err e → x ≡ ok b → ⊥
      clash x p q = ground arith

  -- A block that returned has returned from its first action, and then from the rest.
  pub bind-ok :
      (m : Exec E S A) (f : A → Exec E S B) (s : S) {b : B}
      → ((m >>= f) s).0 ≡ ok b
      → (a : A) × ((m s).0 ≡ ok a) × ((f a (m s).1).0 ≡ ok b)
  unfolding ◌>>=◌
  bind-ok m f s h = continued (m s).0 (m s).1 f h

module _ {E S : Type 0} where
  pub raise_if-ok :
      (b : Bool) (e : E) (s : S) {u : Unit {0}} → (raise_if b e s).0 ≡ ok u → b ≡ false
  unfolding raise_if
  raise_if-ok true e s h = ground arith
  raise_if-ok false e s h = refl

module _ {E S A : Type 0} where
  pub catch-ok :
      (m : Exec E S A) (h : E → Exec E S A) (s : S) {a : A}
      → (catch m h s).0 ≡ ok a
      → ((m s).0 ≡ ok a) ⊎ ((e : E) × ((h e (m s).1).0 ≡ ok a))
  unfolding catch
  catch-ok m h s {a = a} p = recovered (m s).0 (m s).1 p
    where
      recovered :
          (r : Result E A) (t : S)
          → (recover r h t).0 ≡ ok a
          → (r ≡ ok a) ⊎ ((e : E) × ((h e t).0 ≡ ok a))
      recovered (ok x) t q = inl q
      recovered (err e) t q = inr (e, q)

  pub if-ok :
      (b : Bool) (m n : Exec E S A) (s : S) {a : A}
      → ((if b then m else n) s).0 ≡ ok a
      → ((b ≡ true) × ((m s).0 ≡ ok a)) ⊎ ((b ≡ false) × ((n s).0 ≡ ok a))
  if-ok true m n s h = inl (refl, h)
  if-ok false m n s h = inr (refl, h)

  -- A handler that always returns makes the block return.
  pub catch-returns :
      (m : Exec E S A) (h : E → Exec E S A) (s : S)
      → ((e : E) (t : S) → (a : A) × ((h e t).0 ≡ ok a))
      → (a : A) × ((catch m h s).0 ≡ ok a)
  unfolding catch
  catch-returns m h s handled = recovered (m s).0 (m s).1
    where
      recovered : (r : Result E A) (t : S) → (a : A) × ((recover r h t).0 ≡ ok a)
      recovered (ok x) t = (x, refl)
      recovered (err e) t = handled e t

module _ {E S A B : Type 0} where
  -- A block goes on from what its first action returned.
  pub bind-after :
      (m : Exec E S A) (f : A → Exec E S B) (s : S) {a : A}
      → (m s).0 ≡ ok a
      → (m >>= f) s ≡ f a (m s).1
  unfolding ◌>>=◌
  bind-after m f s h = rw h refl

  -- A block stops at the error of its first action, and keeps what that had changed.
  pub bind-err :
      (m : Exec E S A) (f : A → Exec E S B) (s : S) {e : E}
      → (m s).0 ≡ err e
      → (m >>= f) s ≡ (err e, (m s).1)
  unfolding ◌>>=◌
  bind-err m f s h = rw h refl

pub ok-injective : {E A : Type 0} {x y : A} → ◌≡◌ {A = Result E A} (ok x) (ok y) → x ≡ y
ok-injective h = cc

pub err-ne-ok : {E A : Type 0} {e : E} {x : A} → ◌≡◌ {A = Result E A} (err e) (ok x) → ⊥
err-ne-ok h = cc

-- The value that a chain of checks gives back, if it gives one.
pub record Gives {E A : Type 0} (a : A) (r : Result E A) : Type 0 where
  pub value : (x : A) → r ≡ ok x → x ≡ a

module _ {E A : Type 0} {a : A} where
  pub Gives-ok : Gives {E = E} a (ok a)
  Gives-ok = record { value = λ x h. sym (ok-injective h) }

  pub Gives-fail_if : (b : Bool) (e : E) (r : Result E A) → Gives a r → Gives a (fail_if b e r)
  Gives-fail_if true e r g = record { value = λ x h. absurd (ground arith) }
  Gives-fail_if false e r g = g

  pub Gives-then_result :
      {B : Type 0} (m : Result E B) (f : B → Result E A)
      → ((b : B) → Gives a (f b))
      → Gives a (then_result m f)
  Gives-then_result (ok b) f g = g b
  Gives-then_result (err e) f g = record { value = λ x h. absurd (ground arith) }

pub ruleset check_rules = (Gives-ok, Gives-fail_if, Gives-then_result)

module _ {E A : Type 0} where
  pub fail_if-eq_ok :
      (b : Bool) (e : E) (r : Result E A) {x : A} → fail_if b e r ≡ ok x → (b ≡ false) × (r ≡ ok x)
  fail_if-eq_ok true e r h = absurd (ground arith)
  fail_if-eq_ok false e r h = (refl, h)

  pub then_result-eq_ok :
      {B : Type 0} (m : Result E B) (f : B → Result E A) {x : A}
      → then_result m f ≡ ok x
      → (b : B) × (m ≡ ok b) × (f b ≡ ok x)
  then_result-eq_ok (ok b) f h = (b, refl, h)
  then_result-eq_ok (err e) f h = absurd (ground arith)

-- What follows from a chain of checks having let a value through.
pub record Needs {E A : Type 0} (P : Type 0) (r : Result E A) : Type 0 where
  pub fact : (x : A) → r ≡ ok x → P

module _ {E A : Type 0} {P : Type 0} where
  pub Needs-fail_if : (b : Bool) (e : E) (r : Result E A) → Needs P r → Needs P (fail_if b e r)
  Needs-fail_if true e r g = record { fact = λ x h. absurd (ground arith) }
  Needs-fail_if false e r g = g

  pub Needs-check :
      {B : Type 0} (m : Result E B) (f : B → Result E A) → Needs P m → Needs P (then_result m f)
  Needs-check (ok b) f g = record { fact = λ x h. g.fact b refl }
  Needs-check (err e) f g = record { fact = λ x h. absurd (ground arith) }

  pub Needs-then_result :
      {B : Type 0} (m : Result E B) (f : B → Result E A)
      → ((b : B) → Needs P (f b))
      → Needs P (then_result m f)
  Needs-then_result (ok b) f g = g b
  Needs-then_result (err e) f g = record { fact = λ x h. absurd (ground arith) }

pub ruleset need_rules = (Needs-fail_if, Needs-check, Needs-then_result)

pub reported-eq_ok :
    {E F A : Type 0} (name : E → F) (r : Result E A) {a : A} → reported name r ≡ ok a → r ≡ ok a
reported-eq_ok name (ok x) h = ap ok (ok-injective h)
reported-eq_ok name (err e) h = absurd (err-ne-ok h)

pub report-eq_ok :
    {S E F A : Type 0} (name : E → F) (m : Exec E S A) (s : S) {a : A}
    → (report name m s).0 ≡ ok a
    → (m s).0 ≡ ok a
unfolding report
report-eq_ok name m s h = reported-eq_ok name (m s).0 h

module _ {E S A : Type 0} where
  pub or_raise-eq_ok :
      (o : Option A) (e : E) (s : S) {a : A} → (or_raise o e s).0 ≡ ok a → o ≡ some a
  unfolding raise pure
  or_raise-eq_ok none e s h = absurd (err-ne-ok h)
  or_raise-eq_ok (some x) e s h = ap some (ok-injective h)

  -- What is done on an error does not stop the error.
  pub on_error-eq_ok :
      (m : Exec E S A) (after : E → Exec E S (Unit {0})) (s : S) {a : A}
      → (on_error m after s).0 ≡ ok a
      → (m s).0 ≡ ok a
  unfolding on_error raise
  on_error-eq_ok m after s h = elim (catch-ok m _ s h) [
    | inl done ↦ done
    | inr (e, p) ↦ absurd (err-ne-ok (bind-ok (after e) (λ _. raise e) (m s).1 p).2)
  ]
