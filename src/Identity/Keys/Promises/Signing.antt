-- ===== src/Identity/Keys/Promises/Signing.antt =====
-- When a key may sign: `ManagedKey.can_sign` and `require_signing`
-- (services/identity-service/app/domain/managed_key.py), and `ProviderAwareHolderSigner.sign`
-- (app/application/services/managed_key_service.py).
use secure_ssi_platform.Prelude.{
  ℕ, ◌≡◌, ◌↔◌, inl, inr, String, true, some, List, refl, arith, Option-cases, ap, ◌∙◌, Bool-cases,
}
use secure_ssi_platform.Prelude.Equality.{◌==◌, text_equality}
use secure_ssi_platform.Prelude.Dict.{lookup}
use secure_ssi_platform.Prelude.Returns.{ok-injective, err-ne-ok}
use secure_ssi_platform.Identity.Failures.{Exec, ok}
use secure_ssi_platform.Identity.Library.{Library}
use secure_ssi_platform.Identity.Keys.States.{
  presentation_signing, active, key_state_equality, purpose_equality, algorithm_equality,
  is_provisioned_state,
}
use secure_ssi_platform.Identity.Keys.Metadata.{ProviderKeyMetadata, validate_provider_metadata}
use secure_ssi_platform.Identity.Keys.Record.{ManagedKey, check_key, can_sign, require_signing}
use secure_ssi_platform.Identity.Keys.Environment.{Environment, KeyProvider}
use secure_ssi_platform.Identity.Keys.Service.Access.{provider_reference}
use secure_ssi_platform.Identity.Keys.Service.Signer.{Legacy, sign}
use secure_ssi_platform.Identity.Keys.History.Checked.{check_key-Provisioned}

-- For a key that passes its checks, `can_sign` is true exactly if `require_signing` lets the key
-- through for its own purpose and algorithm.
pub can_sign-require_signing :
    (lib : Library) (k : ManagedKey) {x : ManagedKey}
    → check_key lib k ≡ ok x
    → (can_sign k ≡ true) ↔ (require_signing k k.purpose k.algorithm ≡ ok tt)
unfolding can_sign require_signing
can_sign-require_signing lib k h = (λ s. permitted s, λ r. able r)
  where
    permitted : can_sign k ≡ true → require_signing k k.purpose k.algorithm ≡ ok tt
    permitted s = ground (
      arith,
      (purpose_equality.beq_iff k.purpose k.purpose).1 refl,
      (algorithm_equality.beq_iff k.algorithm k.algorithm).1 refl,
    )

    able : require_signing k k.purpose k.algorithm ≡ ok tt → can_sign k ≡ true
    able r = elim (Bool-cases (k.state == active)) [
      | inr other ↦ absurd (err-ne-ok (rw other at r))
      | inl same ↦
          let e = (key_state_equality.beq_iff k.state active).0 same in
          let ((_, p), (_, q), _) = check_key-Provisioned lib k h (ap is_provisioned_state e) in
          rw (same, p, q) refl
    ]

-- What a signature by a managed key rests on: the states of the providers, `asked` and `signed`, are
-- those in which the provider was asked for the key's metadata and for the signature.
pub record Signed {S O : Type 0} (env : Environment S O) (k : ManagedKey)
    (message signature : List ℕ) : Type 0 where
  pub state : k.state ≡ active
  pub purpose : k.purpose ≡ presentation_signing
  pub provider : KeyProvider O
  pub configured : lookup (env.library.casefold k.provider) env.providers ≡ some provider
  pub reference : String
  pub referred : k.provider_key_reference ≡ some reference
  pub metadata : ProviderKeyMetadata
  pub asked : O
  pub answered : (provider.get_key_metadata reference asked).0 ≡ ok metadata
  pub validated :
      validate_provider_metadata env.library metadata k.provider k.algorithm
        k.provider_key_reference
      ≡ ok tt
  pub enabled : metadata.enabled ≡ true
  pub signed : O
  pub made : (provider.sign message reference k.algorithm signed).0 ≡ ok signature

referred :
    (k : ManagedKey) {r : String} → provider_reference k ≡ ok r → k.provider_key_reference ≡ some r
unfolding provider_reference
referred k h = elim (Option-cases k.provider_key_reference) [
  | inl missing ↦ absurd (err-ne-ok (rw missing at h))
  | inr (x, p) ↦ p ∙ ap some (ok-injective (rw p at h))
]

module _ {S O : Type 0} (env : Environment S O) (legacy : Legacy O) where
  -- What a signature with no managed key rests on.
  abbrev pub SignedBefore : List ℕ → String → List ℕ → Type 0
  SignedBefore message reference signature =
      (signer : List ℕ → String → Exec O (List ℕ)) × (o : O) × (legacy.sign ≡ some signer)
      × ((signer message reference o).0 ≡ ok signature)
