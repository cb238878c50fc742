-- ===== src/Prelude/Effects.antt =====
-- Exceptions as values, and methods that mutate an object and may raise: what was written before a
-- raise stays written, so the state comes back beside the error too. `E` is the type of the errors.
use mathlib.Core.Bool.{Bool, true, false}
use mathlib.Core.Option.{Option, none, some}
use secure_ssi_platform.Prelude.Tests.{if◌then◌else◌}

pub data Result {ℓ} (E : Type 0) (A : Type ℓ) : Type ℓ where
  ok : A → Result E A
  err : E → Result E A

module _ {ℓ κ} {E : Type 0} {A : Type ℓ} {B : Type κ} where
  -- A pure step before another.
  abbrev pub then_result : Result E A → (A → Result E B) → Result E B
  then_result (ok a) f = f a
  then_result (err e) f = err e

abbrev pub fail_if {ℓ} : {E : Type 0} {A : Type ℓ} → Bool → E → Result E A → Result E A
fail_if true e r = err e
fail_if false e r = r

abbrev pub Exec {ℓ} : Type 0 → Type ℓ → Type ℓ → Type ℓ
Exec E S A = S → Result E A × S

module _ {ℓ} {E : Type 0} {S A : Type ℓ} where
  unfoldable pub pure : A → Exec E S A
  pure x s = (ok x, s)

  unfoldable pub raise : E → Exec E S A
  raise e s = (err e, s)

  unfoldable pub lift : Result E A → Exec E S A
  lift r s = (r, s)

  unfoldable pub gets : (S → A) → Exec E S A
  gets field s = (ok (field s), s)

  -- `try: m; except …`: the handler decides what it catches.
  abbrev pub recover : Result E A → (E → Exec E S A) → Exec E S A
  recover (ok a) h s = (ok a, s)
  recover (err e) h s = h e s

  unfoldable pub catch : Exec E S A → (E → Exec E S A) → Exec E S A
  catch m h s = let (r, s') = m s in recover r h s'

  abbrev pub or_raise : Option A → E → Exec E S A
  or_raise none e = raise e
  or_raise (some a) e = pure a

module _ {ℓ} {E : Type 0} {S A B : Type ℓ} where
  abbrev continue : Result E A → (A → Exec E S B) → Exec E S B
  continue (ok x) k s = k x s
  continue (err e) k s = (err e, s)

  infixl 12 ◌>>=◌ ◌>>◌
  unfoldable pub ◌>>=◌ : Exec E S A → (A → Exec E S B) → Exec E S B
  unfolding pure raise lift gets catch
  ◌>>=◌ m k s = let (r, t) = m s in continue r k t

  abbrev pub ◌>>◌ : Exec E S A → Exec E S B → Exec E S B
  first >> rest = first >>= λ _. rest

module _ {E S : Type 0} where
  unfoldable pub raise_if : Bool → E → Exec E S (Unit {0})
  raise_if b e s = (if b then err e else ok tt, s)

  unfoldable pub modify : (S → S) → Exec E S (Unit {0})
  modify f s = (ok tt, f s)

  -- `if b: m`
  abbrev pub run_if : Bool → Exec E S (Unit {0}) → Exec E S (Unit {0})
  run_if b m = if b then m else pure tt

  -- `try: m; except Exception: after; raise`
  unfoldable pub on_error : {A : Type 0} → Exec E S A → (E → Exec E S (Unit {0})) → Exec E S A
  unfolding catch ◌>>=◌ raise
  on_error m after = catch m (λ e. after e >>= λ _. raise e)

  -- `try: m; finally: after`
  unfoldable pub finally_do : {A : Type 0} → Exec E S A → Exec E S (Unit {0}) → Exec E S A
  unfolding ◌>>=◌ lift
  finally_do m after s = let (r, s') = m s in (after >>= λ _. lift r) s'

-- Errors of a library, reported as errors of the program.
abbrev pub reported : {A E F : Type 0} → (E → F) → Result E A → Result F A
reported name (ok a) = ok a
reported name (err e) = err (name e)

unfoldable pub report : {S A E F : Type 0} → (E → F) → Exec E S A → Exec F S A
report name m s = let (r, s') = m s in (reported name r, s')
