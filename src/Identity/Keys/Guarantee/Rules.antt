-- ===== src/Identity/Keys/Guarantee/Rules.antt =====
-- A method that lets the stored keys only evolve, with one rule for each way to build a method. `c` is
-- the key that the method has read or written last, if there is one.
use mathlib.Core.Path.{subst}
use secure_ssi_platform.Prelude.{
  ◌≡◌, String, Bool, true, false, Option, none, some, refl, sym, if◌then◌else◌,
}
use secure_ssi_platform.Identity.Failures.{
  Failure, Result, ok, err, Exec, pure, raise, lift, catch, or_raise, raise_if, run_if, on_error,
  finally_do, ◌>>=◌, recover,
}
use secure_ssi_platform.Identity.Keys.Record.{ManagedKey}
use secure_ssi_platform.Identity.Keys.Environment.{World, on_keys, elsewhere}
use secure_ssi_platform.Identity.Keys.Guarantee.Invariant.{
  Evolves, Evolves-refl, Evolves-trans, Known, Known-Evolves, Keeps,
}

abbrev pub Holds : {S : Type 0} → (S → String → Option ManagedKey) → Option ManagedKey → S → Type 0
Holds stored none s = Unit
Holds stored (some k) s = Known stored k s

pub Holds-Evolves :
    {S : Type 0} {stored : S → String → Option ManagedKey} {s t : S} (c : Option ManagedKey)
    → Holds stored c s
    → Evolves stored s t
    → Holds stored c t
Holds-Evolves none h e = tt
Holds-Evolves (some k) h e = Known-Evolves k h e

pub record Under {S O A : Type 0} (stored : S → String → Option ManagedKey) (c : Option ManagedKey)
    (m : Exec (World S O) A) : Type 0 where
  pub at : (w : World S O) → Holds stored c w.keys → Evolves stored w.keys (m w).1.keys

-- The same, and the key in what it returns is known.
pub record Yields {S O A : Type 0} (stored : S → String → Option ManagedKey) (g : A → ManagedKey)
    (c : Option ManagedKey) (m : Exec (World S O) A) : Type 0 where
  pub under : Under stored c m
  pub known :
      (w : World S O)
      → Holds stored c w.keys
      → (a : A) → (m w).0 ≡ ok a
      → Known stored (g a) (m w).1.keys

module _ {S O A : Type 0} {stored : S → String → Option ManagedKey} {c : Option ManagedKey} where
  -- A method that leaves the keys alone.
  pub Under-still :
      (m : Exec (World S O) A) → ((w : World S O) → (m w).1.keys ≡ w.keys) → Under stored c m
  Under-still m same = record {
    at = λ w h. subst (λ s. Evolves stored w.keys s) (sym (same w)) (Evolves-refl w.keys);
  }

  pub Under-pure : (x : A) → Under stored c (pure {S = World S O} x)
  unfolding pure
  Under-pure x = Under-still (pure x) (λ w. refl)

  pub Under-raise : (e : Failure) → Under stored c (raise {S = World S O} {A = A} e)
  unfolding raise
  Under-raise e = Under-still (raise e) (λ w. refl)

  pub Under-lift : (r : Result A) → Under stored c (lift {S = World S O} r)
  unfolding lift
  Under-lift r = Under-still (lift r) (λ w. refl)

  pub Under-elsewhere : (m : Exec O A) → Under stored c (elsewhere {S = S} m)
  unfolding elsewhere
  Under-elsewhere m = Under-still (elsewhere m) (λ w. refl)

  -- A call of the repository that keeps the keys.
  pub Under-on_keys : (m : Exec S A) → Keeps stored m → Under stored c (on_keys {O = O} m)
  unfolding on_keys
  Under-on_keys m k = record { at = λ w h. k w.keys }

  pub Under-if :
      (b : Bool) (m n : Exec (World S O) A)
      → Under stored c m
      → Under stored c n
      → Under stored c (if b then m else n)
  Under-if true m n um un = um
  Under-if false m n um un = un

  pub Under-or_raise : (o : Option A) (e : Failure) → Under stored c (or_raise {S = World S O} o e)
  Under-or_raise none e = Under-raise e
  Under-or_raise (some x) e = Under-pure x

  pub Under-any : (m : Exec (World S O) A) → Under stored none m → Under stored c m
  Under-any m u = record { at = λ w h. u.at w tt }

  recover-Under :
      (r : Result A) (h : Failure → Exec (World S O) A)
      → ((e : Failure) → Under stored c (h e))
      → (w : World S O) → Holds stored c w.keys
      → Evolves stored w.keys (recover r h w).1.keys
  recover-Under (ok x) h uh w k = Evolves-refl w.keys
  recover-Under (err e) h uh w k = (uh e).at w k

  pub Under-catch :
      (m : Exec (World S O) A) (h : Failure → Exec (World S O) A)
      → Under stored c m
      → ((e : Failure) → Under stored c (h e))
      → Under stored c (catch m h)
  unfolding catch
  Under-catch m h um uh = record {
    at = λ w k.
        let e = um.at w k in
        Evolves-trans e (recover-Under (m w).0 h uh (m w).1 (Holds-Evolves c k e));
  }

module _ {S O A B : Type 0} {stored : S → String → Option ManagedKey} {c : Option ManagedKey} where
  -- The rest of the block may use that the pure step did not raise.
  pub Under-bind-lift :
      (r : Result A) (f : A → Exec (World S O) B)
      → ((x : A) → r ≡ ok x → Under stored c (f x))
      → Under stored c (lift r >>= f)
  unfolding ◌>>=◌ lift
  Under-bind-lift (ok x) f uf = record { at = (uf x refl).at }
  Under-bind-lift (err e) f uf = record { at = λ w h. Evolves-refl w.keys }

  pub Under-bind :
      (m : Exec (World S O) A) (f : A → Exec (World S O) B)
      → Under stored c m
      → ((x : A) → Under stored c (f x))
      → Under stored c (m >>= f)
  unfolding ◌>>=◌ lift
  Under-bind m f um uf = record {
    at = λ w k.
        let e = um.at w k in
        Evolves-trans e
          ((Under-bind-lift (m w).0 f (λ x _. uf x)).at (m w).1 (Holds-Evolves c k e));
  }

  -- The rest of the block may rely on the key that the first action returned.
  pub Under-bind-returned :
      (g : A → ManagedKey) (m : Exec (World S O) A) (f : A → Exec (World S O) B)
      → Yields stored g c m
      → ((x : A) (w : World S O) → (m w).0 ≡ ok x → Under stored (some (g x)) (f x))
      → Under stored c (m >>= f)
  unfolding ◌>>=◌
  Under-bind-returned g m f ym uf = record {
    at = λ w k.
        Evolves-trans (ym.under.at w k)
          (resumed (m w).0 (m w).1 (λ a h. ym.known w k a h) (λ a h. uf a w h));
  }
    where
      resumed :
          (r : Result A) (w : World S O)
          → ((a : A) → r ≡ ok a → Known stored (g a) w.keys)
          → ((a : A) → r ≡ ok a → Under stored (some (g a)) (f a))
          → Evolves stored w.keys ((lift r >>= f) w).1.keys
      resumed (ok a) w known rest = (rest a refl).at w (known a refl)
      resumed (err e) w known rest = Evolves-refl w.keys

  pub Under-bind-known :
      (g : A → ManagedKey) (m : Exec (World S O) A) (f : A → Exec (World S O) B)
      → Yields stored g c m
      → ((x : A) → Under stored (some (g x)) (f x))
      → Under stored c (m >>= f)
  Under-bind-known g m f ym uf = Under-bind-returned g m f ym (λ x w h. uf x)

module _ {S O : Type 0} {stored : S → String → Option ManagedKey} {c : Option ManagedKey} where
  pub Under-raise_if : (b : Bool) (e : Failure) → Under stored c (raise_if {S = World S O} b e)
  unfolding raise_if
  Under-raise_if b e = Under-still (raise_if b e) (λ w. refl)

  pub Under-run_if :
      (b : Bool) (m : Exec (World S O) (Unit {0})) → Under stored c m → Under stored c (run_if b m)
  Under-run_if b m um = Under-if b m (pure tt) um (Under-pure tt)

  pub Under-finally_do :
      {A : Type 0} (m : Exec (World S O) A) (after : Exec (World S O) (Unit {0}))
      → Under stored c m
      → Under stored c after
      → Under stored c (finally_do m after)
  unfolding finally_do
  Under-finally_do m after um ua = record {
    at = λ w k.
        let e = um.at w k in
        Evolves-trans e (
          (Under-bind after (λ _. lift (m w).0) ua (λ _. Under-lift (m w).0)).at (m w).1
            (Holds-Evolves c k e));
  }

  pub Under-on_error :
      {A : Type 0} (m : Exec (World S O) A) (after : Failure → Exec (World S O) (Unit {0}))
      → Under stored c m
      → ((e : Failure) → Under stored c (after e))
      → Under stored c (on_error m after)
  unfolding on_error
  Under-on_error m after um ua =
      Under-catch m _ um (λ e. Under-bind (after e) (λ _. raise e) (ua e) (λ _. Under-raise e))

module _ {S O A : Type 0} {stored : S → String → Option ManagedKey} {c : Option ManagedKey} where
  -- A branch, and what comes after a guard, may rely on the test.
  pub Under-branch :
      (b : Bool) (m n : Exec (World S O) A)
      → (b ≡ true → Under stored c m)
      → (b ≡ false → Under stored c n)
      → Under stored c (if b then m else n)
  Under-branch true m n um un = um refl
  Under-branch false m n um un = un refl

  pub Under-guard :
      (b : Bool) (e : Failure) (f : Unit {0} → Exec (World S O) A)
      → (b ≡ false → Under stored c (f tt))
      → Under stored c (raise_if b e >>= f)
  unfolding raise_if ◌>>=◌
  Under-guard true e f u = record { at = λ w h. Evolves-refl w.keys }
  Under-guard false e f u = record { at = (u refl).at }

-- What `search` walks a method's body with.
pub ruleset flow_rules = (
  Under-pure, Under-raise, Under-lift, Under-elsewhere, Under-on_keys, Under-if, Under-or_raise,
  Under-catch, Under-bind, Under-raise_if, Under-run_if, Under-finally_do, Under-on_error,
)
