-- ===== src/Identity/Keys/MongoGuarantee/Calls.antt =====
-- How calls of the collection and of the repository (services/identity-service/app/infrastructure/
-- persistence/managed_key_repository.py) compose: each keeps the stored keys, or makes them evolve.
use mathlib.Core.Path.{subst}
use mathlib.Core.Bool.{true≢false}
use secure_ssi_platform.Prelude.{
  ◌≡◌, inl, inr, String, Bool, true, false, Option, none, some, refl, sym, ap, ◌∙◌, some-eq,
  none-ne-some, Bool-cases, if◌then◌else◌,
}
use secure_ssi_platform.Prelude.Equality.{◌==◌, text_equality, nat_equality}
use secure_ssi_platform.Prelude.Effects
use secure_ssi_platform.Prelude.Effects.{Result, ok, err}
use secure_ssi_platform.Prelude.Returns.{ok-injective, err-ne-ok}
use secure_ssi_platform.Identity.Failures.{
  Failure, Exec, pure, lift, raise, raise_if, or_raise, ◌>>=◌,
}
use secure_ssi_platform.Identity.Keys.States.{key_state_equality}
use secure_ssi_platform.Identity.Keys.Record.{ManagedKey}
use secure_ssi_platform.Identity.Keys.Mongo.{MongoError}
use secure_ssi_platform.Identity.Keys.History.{Step, Steps, here}
use secure_ssi_platform.Identity.Keys.History.Reach.{one_step}
use secure_ssi_platform.Identity.Keys.Guarantee.Invariant.{
  Evolves, Evolves-refl, Evolves-trans, Known, Keeps, Finds, Gets,
}
use secure_ssi_platform.Identity.Keys.Guarantee.Collection.{Same, Changed, Added}

module _ {S : Type 0} {stored : S → String → Option ManagedKey} where
  pub Same-Evolves : {s t : S} → Same stored s t → Evolves stored s t
  Same-Evolves same = record { keys = λ id k h. (k, same id ∙ h, here) }

  pub Changed-Evolves :
      {test : ManagedKey → Bool} {change : ManagedKey → ManagedKey} {s t : S}
      (x : Changed stored test change s t)
      → Step x.old (change x.old)
      → Evolves stored s t
  Changed-Evolves {change = change} {s = s} {t = t} x step = record {
    keys = λ id k h. elim (Bool-cases (id == x.old.key_id)) [
      | inl same ↦
          let e = (text_equality.beq_iff id x.old.key_id).0 same in
          let old : x.old ≡ k = some-eq (sym x.found ∙ ap (stored s) (sym e) ∙ h) in
          (
            change x.old,
            ap (stored t) e ∙ x.new,
            subst (λ z. Steps z (change x.old)) old (one_step step),
          )
      | inr other ↦ (k, x.others id (λ e. ne (other) e) ∙ h, here)
    ];
  }
    where
      ne : {a b : String} → (a == b) ≡ false → a ≡ b → ⊥
      ne {a} {b} f e = true≢false (sym ((text_equality.beq_iff a b).1 e) ∙ f)

  pub Added-Evolves : (k : ManagedKey) {s t : S} → Added stored k s t → Evolves stored s t
  Added-Evolves k {s = s} x = record {
    keys = λ id q h. elim (Bool-cases (id == k.key_id)) [
      | inl same ↦
          let e = (text_equality.beq_iff id k.key_id).0 same in
          absurd (none-ne-some (sym x.free ∙ ap (stored s) (sym e) ∙ h))
      | inr other ↦ (
        q,
        x.others id (λ e. true≢false (sym ((text_equality.beq_iff id k.key_id).1 e) ∙ other)) ∙ h,
        here,
      )
    ];
  }

-- Methods of the repository, built of calls of the collection.
module _ {S : Type 0} {stored : S → String → Option ManagedKey} where
  module _ {A : Type 0} where
    pub Keeps-still : (m : Exec S A) → ((s : S) → (m s).1 ≡ s) → Keeps stored m
    Keeps-still m same s = subst (Evolves stored s) (sym (same s)) (Evolves-refl s)

    pub Keeps-pure : (a : A) → Keeps stored (pure a)
    unfolding pure
    Keeps-pure a = Keeps-still (pure a) (λ s. refl)

    pub Keeps-lift : (r : Result Failure A) → Keeps stored (lift r)
    unfolding lift
    Keeps-lift r = Keeps-still (lift r) (λ s. refl)

    pub Keeps-or_raise : (o : Option A) (e : Failure) → Keeps stored (or_raise o e)
    unfolding pure raise
    Keeps-or_raise none e = Keeps-still (or_raise none e) (λ s. refl)
    Keeps-or_raise (some a) e = Keeps-still (or_raise (some a) e) (λ s. refl)

    pub Keeps-if :
        (b : Bool) (m n : Exec S A)
        → Keeps stored m
        → Keeps stored n
        → Keeps stored (if b then m else n)
    Keeps-if true m n km kn = km
    Keeps-if false m n km kn = kn

    pub Keeps-report :
        (name : MongoError → Failure) (m : Effects.Exec MongoError S A)
        → ((s : S) → Evolves stored s (m s).1)
        → Keeps stored (Effects.report name m)
    unfolding Effects.report
    Keeps-report name m k = k

  pub report-Evolves :
      {A : Type 0} (name : MongoError → Failure) (m : Effects.Exec MongoError S A) (s : S)
      → Evolves stored s (m s).1
      → Evolves stored s (Effects.report name m s).1
  unfolding Effects.report
  report-Evolves name m s e = e

  pub Keeps-raise_if : (b : Bool) (e : Failure) → Keeps stored (raise_if b e)
  unfolding raise_if
  Keeps-raise_if b e = Keeps-still (raise_if b e) (λ s. refl)

  module _ {A B : Type 0} where
    -- From a state that the first action evolves.
    pub Evolves-bind :
        (m : Exec S A) (f : A → Exec S B) (s : S)
        → Evolves stored s (m s).1
        → ((a : A) → Keeps stored (f a))
        → Evolves stored s ((m >>= f) s).1
    unfolding ◌>>=◌
    Evolves-bind m f s e k = Evolves-trans e (went_on (m s).0 (m s).1)
      where
        went_on : (r : Result Failure A) (t : S) → Evolves stored t ((lift r >>= f) t).1
        went_on (ok a) t = k a t
        went_on (err x) t = Evolves-refl t

    pub Keeps-bind :
        (m : Exec S A) (f : A → Exec S B)
        → Keeps stored m
        → ((a : A) → Keeps stored (f a))
        → Keeps stored (m >>= f)
    Keeps-bind m f km kf s = Evolves-bind m f s (km s) kf

-- What a block returns, its last action returns.
module _ {S A B : Type 0} (m : Exec S A) (f : A → Exec S B) (P : B → S → Type 0) where
  pub Ends-bind :
      ((a : A) (s : S) (b : B) → (f a s).0 ≡ ok b → P b (f a s).1)
      → (s : S) (b : B) → ((m >>= f) s).0 ≡ ok b
      → P b ((m >>= f) s).1
  unfolding ◌>>=◌
  Ends-bind pf s b h = went_on (m s).0 (m s).1 h
    where
      went_on :
          (r : Result Failure A) (t : S) → ((lift r >>= f) t).0 ≡ ok b → P b ((lift r >>= f) t).1
      went_on (ok a) t e = pf a t b e
      went_on (err x) t e = absurd (err-ne-ok e)

pub Gets-found :
    {S : Type 0} (stored : S → String → Option ManagedKey) (m : Exec S (Option ManagedKey))
    (e : Failure)
    → Finds stored m
    → Gets stored (m >>= λ o. or_raise o e)
unfolding ◌>>=◌ raise pure
Gets-found {S} stored m e finds s b h = given (m s).0 (m s).1 (finds s b) h
  where
    given :
        (r : Result Failure (Option ManagedKey)) (t : S)
        → (r ≡ ok (some b) → Known stored b t)
        → ((lift r >>= λ o. or_raise o e) t).0 ≡ ok b
        → Known stored b ((lift r >>= λ o. or_raise o e) t).1
    given (ok (some a)) t known p = known (ap (λ x. ok (some x)) (ok-injective p))
    given (ok none) t known p = absurd (err-ne-ok p)
    given (err x) t known p = absurd (err-ne-ok p)
