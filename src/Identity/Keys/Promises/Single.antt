-- ===== src/Identity/Keys/Promises/Single.antt =====
-- A collection with room for one document, which keeps what
-- `MongoManagedKeyRepository` (services/identity-service/app/infrastructure/persistence/
-- managed_key_repository.py) relies on of MongoDB.
use mathlib.Core.Path.{subst}
use secure_ssi_platform.Prelude.{
  ℕ, ◌≡◌, ◌⊎◌, inl, inr, String, Bool, true, ◌&&◌, Option, none, some, List, [], ◌∷◌, leb, refl,
  Bool-cases, some-eq, none-ne-some, arith, sym, ap, ◌∙◌, ◌≢◌, if◌then◌else◌,
}
use secure_ssi_platform.Prelude.Equality.{◌==◌, text_equality}
use secure_ssi_platform.Prelude.Effects.{Result, ok, err}
use secure_ssi_platform.Prelude.Returns.{ok-injective, err-ne-ok}
use secure_ssi_platform.Identity.Keys.Record.{ManagedKey}
use secure_ssi_platform.Identity.Keys.Mongo.{Collection, MongoError}
use secure_ssi_platform.Identity.Keys.Guarantee.Invariant.{Evolves, Evolves-refl}
use secure_ssi_platform.Identity.Keys.Guarantee.Collection.{
  Changed, Added, Reads, Writes, IsCollection,
}

abbrev pub stored : Option ManagedKey → String → Option ManagedKey
stored none id = none
stored (some d) id = if d.key_id == id then some d else none

abbrev pub Others : Option ManagedKey → Option ManagedKey → Type 0
Others s t = s ≡ t

abbrev passing : (ManagedKey → Bool) → Option ManagedKey → Option ManagedKey
passing test none = none
passing test (some d) = if test d then some d else none

abbrev listed : (ManagedKey → Bool) → ℕ → Option ManagedKey → List ManagedKey
listed test n none = []
listed test n (some d) = if test d && leb 1 n then d ∷ [] else []

abbrev changed :
    (ManagedKey → Bool)
    → (ManagedKey → ManagedKey)
    → Option ManagedKey
    → Result MongoError ℕ × Option ManagedKey
changed test change none = (ok 0, none)
changed test change (some d) = if test d then (ok 1, some (change d)) else (ok 0, some d)

abbrev inserted : ManagedKey → Option ManagedKey → Result MongoError (Unit {0}) × Option ManagedKey
inserted k none = (ok tt, some k)
inserted k (some d) = (err MongoError.connection_failure, some d)

abbrev pub single : Collection (Option ManagedKey)
single = record {
  insert_one = inserted;
  find_one = λ test s. (ok (passing test s), s);
  find_sorted = λ test f n s. (ok (listed test n s), s);
  find = λ test s. (ok (listed test 1 s), s);
  replace_one = λ test k s. changed test (λ _. k) s;
  update_one = changed;
}

pub fair : (s t : Option ManagedKey) → Others s t → Evolves stored s t
fair s t e = subst (Evolves stored s) e (Evolves-refl s)

stored-own : (d : ManagedKey) → stored (some d) d.key_id ≡ some d
stored-own d = rw ((text_equality.beq_iff d.key_id d.key_id).1 refl) refl

stored-as : (e : ManagedKey) (id : String) → e.key_id ≡ id → stored (some e) id ≡ some e
stored-as e id same = rw ((text_equality.beq_iff e.key_id id).1 same) refl

stored-other :
    (d e : ManagedKey) (id : String)
    → e.key_id ≡ d.key_id
    → id ≢ d.key_id
    → stored (some e) id ≡ stored (some d) id
stored-other d e id same other = elim (Bool-cases (d.key_id == id)) [
  | inl h ↦ absurd (other (sym ((text_equality.beq_iff d.key_id id).0 h)))
  | inr h ↦ rw (same, h) refl
]

passing-found :
    (test : ManagedKey → Bool) (s : Option ManagedKey) (d : ManagedKey)
    → passing test s ≡ some d
    → (stored s d.key_id ≡ some d) × (test d ≡ true)
passing-found test none d h = absurd (none-ne-some h)
passing-found test (some x) d h = elim (Bool-cases (test x)) [
  | inl e ↦
      let same : x ≡ d = some-eq (rw e at h) in
      (
        subst (λ z. stored (some x) z.key_id ≡ some z) same (stored-own x),
        subst (λ z. test z ≡ true) same e,
      )
  | inr e ↦ absurd (none-ne-some (rw e at h))
]

changed-Writes :
    (test : ManagedKey → Bool) (change : ManagedKey → ManagedKey) (s : Option ManagedKey)
    → ((d : ManagedKey) → test d ≡ true → (change d).key_id ≡ d.key_id)
    → ((changed test change s).1 ≡ s) × ((changed test change s).0 ≡ ok 0)
      ⊎ Changed stored test change s (changed test change s).1
changed-Writes test change none keeps = inl (refl, refl)
changed-Writes test change (some d) keeps = elim (Bool-cases (test d)) [
  | inl e ↦
      let own = keeps d e in
      let passed : changed test change (some d) ≡ (ok 1, some (change d)) = rw e refl in
      inr (record {
        old = d;
        found = stored-own d;
        passed = e;
        new =
            subst (λ z. stored z.1 d.key_id ≡ some (change d)) (sym passed)
              (stored-as (change d) d.key_id own);
        others = λ id other.
            subst (λ z. stored z.1 id ≡ stored (some d) id) (sym passed)
              (stored-other d (change d) id own other);
      })
  | inr e ↦ inl (rw e refl, rw e refl)
]

zero-ne-one : ◌≢◌ {A = ℕ} 0 1
zero-ne-one e = omega (arith, e)

pub single-IsCollection : IsCollection stored Others single
single-IsCollection = record {
  find_one = λ test s. (s, refl, λ id. refl);
  found = λ test s d h. passing-found test s d (ok-injective h);
  find_sorted = λ test f n s. (s, refl, λ id. refl);
  find = λ test s. (s, refl, λ id. refl);
  insert_one = λ k s. added k s;
  inserted = λ k s h. added_ok k s h;
  update_one = λ test change s keeps. written test change s (λ d _. keeps d);
  replace_one = λ test k s keeps. written test (λ _. k) s keeps;
  replaced = λ test k s keeps h. counted test (λ _. k) s keeps h;
}
  where
    new_document : (k : ManagedKey) → Added stored k none (some k)
    new_document k = record {
      free = refl;
      new = stored-own k;
      others = λ id other. elim (Bool-cases (k.key_id == id)) [
        | inl h ↦ absurd (other (sym ((text_equality.beq_iff k.key_id id).0 h)))
        | inr h ↦ rw h refl
      ];
    }

    added :
        (k : ManagedKey) (s : Option ManagedKey)
        → Reads stored Others s (inserted k s).1
          ⊎ ((u : Option ManagedKey) × Others s u × Added stored k u (inserted k s).1)
    added k none = inr (none, refl, new_document k)
    added k (some d) = inl (some d, refl, λ id. refl)

    added_ok :
        (k : ManagedKey) (s : Option ManagedKey)
        → (inserted k s).0 ≡ ok tt
        → (u : Option ManagedKey) × Others s u × Added stored k u (inserted k s).1
    added_ok k none h = (none, refl, new_document k)
    added_ok k (some d) h = absurd (err-ne-ok h)

    written :
        (test : ManagedKey → Bool) (change : ManagedKey → ManagedKey) (s : Option ManagedKey)
        → ((d : ManagedKey) → test d ≡ true → (change d).key_id ≡ d.key_id)
        → Reads stored Others s (changed test change s).1
          ⊎ Writes stored Others test change s (changed test change s).1
    written test change s keeps = elim (changed-Writes test change s keeps) [
      | inl (same, _) ↦ inl (s, refl, λ id. ap (λ z. stored z id) same)
      | inr w ↦ inr (s, refl, w)
    ]

    counted :
        (test : ManagedKey → Bool) (change : ManagedKey → ManagedKey) (s : Option ManagedKey)
        → ((d : ManagedKey) → test d ≡ true → (change d).key_id ≡ d.key_id)
        → (changed test change s).0 ≡ ok 1
        → Writes stored Others test change s (changed test change s).1
    counted test change s keeps h = elim (changed-Writes test change s keeps) [
      | inl (_, none_matched) ↦ absurd (zero-ne-one (ok-injective (sym none_matched ∙ h)))
      | inr w ↦ (s, refl, w)
    ]
