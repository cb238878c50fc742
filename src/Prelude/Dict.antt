-- ===== src/Prelude/Dict.antt =====
-- Python's `dict`: entries in insertion order, a key at most once.
use mathlib.Core.Path.{◌≡◌, sym, ap, ◌∙◌}
use mathlib.Core.Logic.{◌≢◌, ◌⊎◌, inl, inr}
use mathlib.Core.Option.{Option, none, some}
use mathlib.Core.List.{List, [], ◌∷◌}
use native.Mathlib.Omega.{arith}
use secure_ssi_platform.Prelude.Tests.{if◌then◌else◌, Bool-cases}
use mathlib.Core.Bool.{Bool, false}
use secure_ssi_platform.Prelude.Lists.{find}
use secure_ssi_platform.Prelude.Equality.{Eq, ◌==◌, ==_refl}

abbrev pub Dict {ℓ κ} : Type ℓ → Type κ → Type (ℓ ⊔ κ)
Dict K V = List (K × V)

-- `d.values()`
unfoldable pub values {ℓ κ} : {K : Type ℓ} {V : Type κ} → Dict K V → List V
values [] = []
values ((_, v) ∷ d) = v ∷ values d

module _ {ℓ κ} {K : Type ℓ} {V : Type κ} ⦃e : Eq K⦄ where
  -- `d.get(k)`
  unfoldable pub lookup : K → Dict K V → Option V
  lookup k [] = none
  lookup k ((j, v) ∷ d) = if k == j then some v else lookup k d

  -- `d[k] = v`
  unfoldable pub insert : K → V → Dict K V → Dict K V
  insert k v [] = (k, v) ∷ []
  insert k v ((j, w) ∷ d) = if k == j then (j, v) ∷ d else (j, w) ∷ insert k v d

  pub lookup-insert :
      (j k : K) (v : V) (d : Dict K V)
      → lookup j (insert k v d) ≡ (if j == k then some v else lookup j d)
  unfolding lookup insert
  lookup-insert j k v [] = ground arith
  lookup-insert j k v ((i, w) ∷ d) =
      ground (arith, lookup-insert j k v d, e.beq_iff j k, e.beq_iff k i, e.beq_iff j i)

  pub lookup-insert_self : (k : K) (v : V) (d : Dict K V) → lookup k (insert k v d) ≡ some v
  lookup-insert_self k v d = rw (lookup-insert, ==_refl k)

  pub lookup-insert_ne :
      (j k : K) (v : V) (d : Dict K V) → j ≢ k → lookup j (insert k v d) ≡ lookup j d
  lookup-insert_ne j k v d h = ground (arith, lookup-insert j k v d, e.beq_iff j k)

  -- What is found after an insertion: the new value, or what was there.
  pub insert-cases :
      (j k : K) (v : V) (d : Dict K V) {w : V}
      → lookup j (insert k v d) ≡ some w
      → ((j ≡ k) × (v ≡ w)) ⊎ (lookup j d ≡ some w)
  insert-cases j k v d h = ground (arith, lookup-insert j k v d, e.beq_iff j k)

  pub insert-lookup :
      (j k : K) (v : V) (d : Dict K V)
      → ((j ≡ k) × (lookup j (insert k v d) ≡ some v)) ⊎ (lookup j (insert k v d) ≡ lookup j d)
  insert-lookup j k v d = elim (Bool-cases (j == k)) [
    | inl same ↦ inl ((e.beq_iff j k).0 same, rw (lookup-insert j k v d, same))
    | inr other ↦ inr (rw (lookup-insert j k v d, other))
  ]

  -- An insertion of what is there already, or under a new key, keeps every entry.
  pub insert-keeps :
      (k : K) (v : V) (d : Dict K V)
      → ((w : V) → lookup k d ≡ some w → w ≡ v)
      → (j : K) (w : V) → lookup j d ≡ some w
      → lookup j (insert k v d) ≡ some w
  insert-keeps k v d same j w p = elim (insert-lookup j k v d) [
    | inl (q, e) ↦ e ∙ ap some (sym (same w (ap (λ i. lookup i d) (sym q) ∙ p)))
    | inr e ↦ e ∙ p
  ]

  -- A search of the values that finds nothing has tried every entry.
  pub find-lookup :
      (test : V → Bool) (d : Dict K V) (k : K) (v : V)
      → find test (values d) ≡ none
      → lookup k d ≡ some v
      → test v ≡ false
  unfolding lookup values
  find-lookup test [] k v h p = cc
  find-lookup test ((j, w) ∷ d) k v h p = ground (arith, find-lookup test d k v)
