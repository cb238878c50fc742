-- ===== src/Identity/Keys/Guarantee/Known.antt =====
-- The rules for methods that return a key from the repository, which what comes after may write.
use secure_ssi_platform.Prelude.{
  ◌+◌, ◌≡◌, String, Bool, true, false, Option, none, some, refl, if◌then◌else◌,
}
use secure_ssi_platform.Prelude.Returns.{ok-injective, err-ne-ok}
use mathlib.Core.Path.{subst}
use secure_ssi_platform.Identity.Failures.{
  Failure, Result, ok, err, Exec, pure, raise, lift, or_raise, ◌>>=◌,
}
use secure_ssi_platform.Identity.Keys.Record.{ManagedKey}
use secure_ssi_platform.Identity.Keys.Store.{KeyRepository}
use secure_ssi_platform.Identity.Keys.Environment.{World, on_keys}
use secure_ssi_platform.Identity.Keys.History.{Step}
use secure_ssi_platform.Identity.Keys.Guarantee.Invariant.{
  Evolves, Evolves-refl, Evolves-trans, Known, Keeps, Finds, Gets, IsStore,
}
use secure_ssi_platform.Identity.Keys.Guarantee.Rules.{
  Holds, Holds-Evolves, Under, Yields, Under-pure, Under-raise, Under-bind, Under-bind-known,
  Under-on_keys, Under-any,
}

module _ {S O A : Type 0} {stored : S → String → Option ManagedKey} {g : A → ManagedKey} where
  pub Yields-pure : (a : A) → Yields stored g (some (g a)) (pure {S = World S O} a)
  unfolding pure
  Yields-pure a = record {
    under = Under-pure a;
    known = λ w h b e. subst (λ x. Known stored (g x) w.keys) (ok-injective e) h;
  }

  pub Yields-raise :
      {c : Option ManagedKey} (e : Failure) → Yields stored g c (raise {S = World S O} {A = A} e)
  unfolding raise
  Yields-raise e = record { under = Under-raise e; known = λ w h b p. absurd (err-ne-ok p) }

  pub Yields-any :
      {c : Option ManagedKey} (m : Exec (World S O) A)
      → Yields stored g none m
      → Yields stored g c m
  Yields-any m y = record { under = Under-any m y.under; known = λ w h a e. y.known w tt a e }

  pub Yields-if :
      {c : Option ManagedKey} (b : Bool) (m n : Exec (World S O) A)
      → Yields stored g c m
      → Yields stored g c n
      → Yields stored g c (if b then m else n)
  Yields-if true m n ym yn = ym
  Yields-if false m n ym yn = yn

module _ {S O A B : Type 0} {stored : S → String → Option ManagedKey} {g : B → ManagedKey} where
  -- From what holds after the first action, if it returned.
  resumed :
      (r : Result A) (f : A → Exec (World S O) B) (P : A → Option ManagedKey) (w : World S O)
      → ((a : A) → r ≡ ok a → Holds stored (P a) w.keys)
      → ((a : A) → Yields stored g (P a) (f a))
      → (b : B) → ((lift r >>= f) w).0 ≡ ok b
      → Known stored (g b) ((lift r >>= f) w).1.keys
  unfolding ◌>>=◌ lift
  resumed (ok a) f P w holds yf b e = (yf a).known w (holds a refl) b e
  resumed (err x) f P w holds yf b e = absurd (err-ne-ok e)

module _ {S O A B : Type 0} {stored : S → String → Option ManagedKey} {g : B → ManagedKey}
    {c : Option ManagedKey} where
  pub Yields-bind :
      (m : Exec (World S O) A) (f : A → Exec (World S O) B)
      → Under stored c m
      → ((a : A) → Yields stored g c (f a))
      → Yields stored g c (m >>= f)
  unfolding ◌>>=◌
  Yields-bind m f um yf = record {
    under = Under-bind m f um (λ a. (yf a).under);
    known =
        λ w h b e. resumed (m w).0 f (λ _. c) (m w).1 (λ a p. Holds-Evolves c h (um.at w h)) yf b e;
  }

  pub Yields-bind-known :
      (k : A → ManagedKey) (m : Exec (World S O) A) (f : A → Exec (World S O) B)
      → Yields stored k c m
      → ((a : A) → Yields stored g (some (k a)) (f a))
      → Yields stored g c (m >>= f)
  unfolding ◌>>=◌
  Yields-bind-known k m f ym yf = record {
    under = Under-bind-known k m f ym (λ a. (yf a).under);
    known = λ w h b e. resumed (m w).0 f (λ a. some (k a)) (m w).1 (λ a p. ym.known w h a p) yf b e;
  }

  pub Yields-bind-or_raise :
      (o : Option A) (e : Failure) (f : A → Exec (World S O) B)
      → ((a : A) → o ≡ some a → Yields stored g c (f a))
      → Yields stored g c (or_raise o e >>= f)
  unfolding ◌>>=◌ raise pure
  Yields-bind-or_raise none e f yf = record {
    under = record { at = λ w h. Evolves-refl w.keys };
    known = λ w h b p. absurd (err-ne-ok p);
  }
  Yields-bind-or_raise (some a) e f yf = record {
    under = record { at = (yf a refl).under.at };
    known = (yf a refl).known;
  }

module _ {S O B : Type 0} {stored : S → String → Option ManagedKey} {c : Option ManagedKey} where
  -- After a read the rest may rely on the key that was found.
  pub Under-bind-found :
      (m : Exec S (Option ManagedKey)) (f : Option ManagedKey → Exec (World S O) B)
      → Keeps stored m
      → Finds stored m
      → ((k : ManagedKey) → Under stored (some k) (f (some k)))
      → Under stored c (f none)
      → Under stored c (on_keys m >>= f)
  unfolding ◌>>=◌ on_keys
  Under-bind-found m f keeps finds found missing = record {
    at = λ w h. Evolves-trans (keeps w.keys) (
        went_on (m w.keys).0 (record w { keys = (m w.keys).1 }) (finds w.keys)
          (Holds-Evolves c h (keeps w.keys)));
  }
    where
      went_on :
          (r : Result (Option ManagedKey)) (w : World S O)
          → ((k : ManagedKey) → r ≡ ok (some k) → Known stored k w.keys)
          → Holds stored c w.keys
          → Evolves stored w.keys ((lift r >>= f) w).1.keys
      went_on (ok none) w known h = missing.at w h
      went_on (ok (some k)) w known h = (found k).at w (known k refl)
      went_on (err e) w known h = Evolves-refl w.keys

  pub Yields-bind-found :
      (g : B → ManagedKey) (m : Exec S (Option ManagedKey))
      (f : Option ManagedKey → Exec (World S O) B)
      → Keeps stored m
      → Finds stored m
      → ((k : ManagedKey) → Yields stored g (some k) (f (some k)))
      → Yields stored g c (f none)
      → Yields stored g c (on_keys m >>= f)
  unfolding ◌>>=◌ on_keys
  Yields-bind-found g m f keeps finds found missing = record {
    under = Under-bind-found m f keeps finds (λ k. (found k).under) missing.under;
    known = λ w h b e.
        went_on (m w.keys).0 (record w { keys = (m w.keys).1 }) (finds w.keys)
          (Holds-Evolves c h (keeps w.keys)) b e;
  }
    where
      went_on :
          (r : Result (Option ManagedKey)) (w : World S O)
          → ((k : ManagedKey) → r ≡ ok (some k) → Known stored k w.keys)
          → Holds stored c w.keys
          → (b : B) → ((lift r >>= f) w).0 ≡ ok b
          → Known stored (g b) ((lift r >>= f) w).1.keys
      went_on (ok none) w known h b e = missing.known w h b e
      went_on (ok (some k)) w known h b e = (found k).known w (known k refl) b e
      went_on (err x) w known h b e = absurd (err-ne-ok e)

module _ {S O : Type 0} {stored : S → String → Option ManagedKey} where
  pub Yields-on_keys :
      {c : Option ManagedKey} (m : Exec S ManagedKey)
      → Keeps stored m
      → Gets stored m
      → Yields stored (λ k. k) c (on_keys {O = O} m)
  unfolding on_keys
  Yields-on_keys m keeps gets = record {
    under = Under-on_keys m keeps;
    known = λ w h a e. gets w.keys a e;
  }

  module _ {repo : KeyRepository S} (store : IsStore stored repo) where
    -- A write of a step of what was read.
    pub Yields-update :
        (k x : ManagedKey)
        → (x.version ≡ k.version + 1 → Step k x)
        → Yields stored (λ y. y) (some k) (on_keys {O = O} (repo.update x k.version))
    unfolding on_keys
    Yields-update k x step = record {
      under = record { at = λ w h. store.update k x w.keys h step };
      known = λ w h a e. store.updated x k.version w.keys a e;
    }

    pub Under-update :
        (k x : ManagedKey)
        → (x.version ≡ k.version + 1 → Step k x)
        → Under stored (some k) (on_keys {O = O} (repo.update x k.version))
    Under-update k x step = (Yields-update k x step).under
