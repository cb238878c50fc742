-- ===== src/Identity/Keys/History/Checked.antt =====
-- What `ManagedKey.transition` and `__post_init__` have checked when they do not raise
-- (services/identity-service/app/domain/managed_key.py).
use mathlib.Core.Path.{subst}
use secure_ssi_platform.Prelude.{
  ℕ, ◌+◌, ◌≡◌, ◌⊎◌, inl, inr, String, true, false, not, Option, none, some, refl, sym, ap, ◌∙◌,
  arith, is_none, ◌||◌, Bool-cases,
}
use secure_ssi_platform.Prelude.Equality.{◌==◌, contains}
use secure_ssi_platform.Prelude.Returns.{
  Gives, check_rules, Needs, need_rules, ok-injective, fail_if-eq_ok, then_result-eq_ok,
}
use secure_ssi_platform.Identity.Failures.{Result, ok, then_result}
use secure_ssi_platform.Identity.Library.{Library}
use secure_ssi_platform.Identity.Keys.States.{
  ManagedKeyState, valid_key_transitions, is_provisioned_state, key_state_equality, pending, active,
  rotating, suspended,
}
use secure_ssi_platform.Identity.Keys.Record.{
  ManagedKey, check_key, changes, transition, moved, check_state, check_public,
}
use secure_ssi_platform.Identity.Keys.History.{Kept, Event, Step}

pub check_key-Gives : (lib : Library) (k : ManagedKey) → Gives k (check_key lib k)
unfolding check_key
check_key-Gives lib k = search check_rules depth 60

-- A provisioned key that passes the checks has its reference and its public key.
pub check_state-Needs :
    (k : ManagedKey)
    → is_provisioned_state k.state ≡ true
    → Needs
        ((is_none k.provider_key_reference || is_none k.public_key_multibase) ≡ false)
        (check_state k)
unfolding check_state
check_state-Needs k p = record { fact = λ x h. ground arith }

pub check_public-Needs :
    (lib : Library) (k : ManagedKey)
    → is_none k.public_key_multibase ≡ false
    → Needs (is_none k.verification_method ≡ false) (check_public lib k)
unfolding check_public
check_public-Needs lib k p = record { fact = λ x h. ground arith }

-- The value of an optional field that is there.
pub present : {A : Type 0} (o : Option A) → is_none o ≡ false → (a : A) × (o ≡ some a)
present none h = absurd (ground arith)
present (some a) h = (a, refl)

abbrev pub Provisioned : ManagedKey → Type 0
Provisioned k =
    ((r : String) × (k.provider_key_reference ≡ some r))
    × ((p : String) × (k.public_key_multibase ≡ some p))
    × ((m : String) × (k.verification_method ≡ some m))

pub check_key-Provisioned :
    (lib : Library) (k : ManagedKey) {x : ManagedKey}
    → check_key lib k ≡ ok x
    → is_provisioned_state k.state ≡ true
    → Provisioned k
unfolding check_key
check_key-Provisioned lib k {x = x} h p =
    let both : Needs ((is_none k.provider_key_reference || is_none k.public_key_multibase) ≡ false)
        (check_key lib k) =
      search (need_rules, check_state-Needs, p) depth 60 in
    let some_key : is_none k.public_key_multibase ≡ false = ground (arith, both.fact x h) in
    let named : Needs (is_none k.verification_method ≡ false) (check_key lib k) =
      search (need_rules, check_public-Needs, some_key) depth 60 in
    (
      present k.provider_key_reference (ground (arith, both.fact x h)),
      present k.public_key_multibase some_key,
      present k.verification_method (named.fact x h),
    )

-- A transition to another state is in the table, gives what `changes` builds, and was checked.
pub transition-changes :
    (lib : Library) (k : ManagedKey) (s : ManagedKeyState) (at : ℕ) (reason : Option String)
    (schedule : Option ℕ) {x : ManagedKey}
    → transition lib k s at reason schedule ≡ ok x
    → x.version ≡ k.version + 1
    → (contains s (valid_key_transitions k.state) ≡ true)
      × (changes lib k s at reason schedule ≡ ok x)
      × (check_key lib x ≡ ok x)
unfolding transition
transition-changes lib k s at reason schedule {x = x} h v = elim (Bool-cases (s == k.state)) [
  | inl same ↦ absurd (stays (rw same at h))
  | inr other ↦ moves (fail_if-eq_ok _ _ _ (rw other at h))
]
  where
    stays : ◌≡◌ {A = Result ManagedKey} (ok k) (ok x) → ⊥
    stays e = omega (arith, v, ap (λ (y : ManagedKey). y.version) (ok-injective e))

    moves :
        (not (contains s (valid_key_transitions k.state)) ≡ false)
          × (then_result (changes lib k s at reason schedule) (check_key lib) ≡ ok x)
        → (contains s (valid_key_transitions k.state) ≡ true)
          × (changes lib k s at reason schedule ≡ ok x)
          × (check_key lib x ≡ ok x)
    moves (listed, done) =
        let (y, made, checked) =
          then_result-eq_ok (changes lib k s at reason schedule) (check_key lib) done in
        let e : y ≡ x = sym ((check_key-Gives lib y).value x checked) in
        (ground arith, made ∙ ap ok e, subst (λ z. check_key lib z ≡ ok x) e checked)

-- From where the table allows a suspension, and a return to work.
pub from_suspend :
    (s : ManagedKeyState)
    → contains suspended (valid_key_transitions s) ≡ true
    → (s ≡ active) ⊎ (s ≡ rotating)
from_suspend active l = inl refl
from_suspend rotating l = inr refl
from_suspend s l = ground arith

pub from_active :
    (s : ManagedKeyState)
    → contains active (valid_key_transitions s) ≡ true
    → (s ≡ pending) ⊎ ((s ≡ rotating) ⊎ (s ≡ suspended))
from_active pending l = inl refl
from_active rotating l = inr (inl refl)
from_active suspended l = inr (inr refl)
from_active s l = ground arith

-- A key that becomes active from pending, with whatever the provider told of it.
pub activated-Step :
    (lib : Library) (k y : ManagedKey) (at : ℕ) (reason : Option String) {x : ManagedKey}
    → Kept k (moved y active at)
    → y.successor_key_id ≡ k.successor_key_id
    → y.state ≡ pending
    → k.state ≡ pending
    → transition lib y active at reason none ≡ ok x
    → x.version ≡ y.version + 1
    → Step k x
unfolding changes
activated-Step lib k y at reason {x = x} kept link py pk h v =
    let (listed, made, checked) = transition-changes lib y active at reason none h v in
    let e = ok-injective made in
    let (r, p, m) =
      check_key-Provisioned lib x checked
        (ap (λ (z : ManagedKey). is_provisioned_state z.state) (sym e)) in
    subst (Step k) e (record {
      event = Event.activate;
      kept = ground arith;
      effect = (
        pk,
        refl,
        (r.0, ap (λ (z : ManagedKey). z.provider_key_reference) e ∙ r.1),
        (p.0, ap (λ (z : ManagedKey). z.public_key_multibase) e ∙ p.1),
        (m.0, ap (λ (z : ManagedKey). z.verification_method) e ∙ m.1),
        link,
      );
    })
