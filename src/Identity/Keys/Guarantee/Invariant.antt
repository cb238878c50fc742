-- ===== src/Identity/Keys/Guarantee/Invariant.antt =====
-- How a store of keys may evolve, and the laws of a repository whose writes are steps: what
-- `ManagedKeyService` relies on of `ManagedKeyRepository`
-- (services/identity-service/app/application/ports/key_management.py). `stored` is the view of a
-- store: the key under an id.
use secure_ssi_platform.Prelude.{ℕ, ◌+◌, ◌≡◌, String, Option, some}
use secure_ssi_platform.Identity.Failures.{Exec, ok}
use secure_ssi_platform.Identity.Keys.States.{KeyPurpose}
use secure_ssi_platform.Identity.Keys.Record.{ManagedKey}
use secure_ssi_platform.Identity.Keys.Store.{KeyRepository}
use secure_ssi_platform.Identity.Keys.History.{Step, Steps, here}
use secure_ssi_platform.Identity.Keys.History.Reach.{Steps-trans}

-- A stored key is still there, and has only made `Step`s.
pub record Evolves {S : Type 0} (stored : S → String → Option ManagedKey) (s t : S) : Type 0 where
  pub keys :
      (id : String) (k : ManagedKey)
      → stored s id ≡ some k
      → (k' : ManagedKey) × (stored t id ≡ some k') × Steps k k'

-- The key was read or written at some time: what is stored under its id has grown from it.
unfoldable pub Known : {S : Type 0} → (S → String → Option ManagedKey) → ManagedKey → S → Type 0
Known stored k s = (q : ManagedKey) × (stored s k.key_id ≡ some q) × Steps k q

module _ {S : Type 0} {stored : S → String → Option ManagedKey} where
  pub Evolves-refl : (s : S) → Evolves stored s s
  Evolves-refl s = record { keys = λ id k h. (k, h, here) }

  pub Evolves-trans : {s t u : S} → Evolves stored s t → Evolves stored t u → Evolves stored s u
  Evolves-trans st tu = record {
    keys = λ id k h.
        let (k', h', a) = st.keys id k h in
        let (k'', h'', b) = tu.keys id k' h' in (k'', h'', Steps-trans a b);
  }

  pub Known-Evolves :
      {s t : S} (k : ManagedKey) → Known stored k s → Evolves stored s t → Known stored k t
  unfolding Known
  Known-Evolves k (q, h, a) e = let (q', h', b) = e.keys k.key_id q h in (q', h', Steps-trans a b)

pub Known-stored :
    {S : Type 0} (stored : S → String → Option ManagedKey) {s : S} (k : ManagedKey)
    → stored s k.key_id ≡ some k
    → Known stored k s
unfolding Known
Known-stored stored k h = (k, h, here)

module _ {S : Type 0} (stored : S → String → Option ManagedKey) where
  abbrev pub Keeps : {A : Type 0} → Exec S A → Type 0
  Keeps m = (s : S) → Evolves stored s (m s).1

  -- The key that it returns, if it returns one, is known.
  abbrev pub Finds : Exec S (Option ManagedKey) → Type 0
  Finds m = (s : S) (k : ManagedKey) → (m s).0 ≡ ok (some k) → Known stored k (m s).1

  abbrev pub Gets : Exec S ManagedKey → Type 0
  Gets m = (s : S) (k : ManagedKey) → (m s).0 ≡ ok k → Known stored k (m s).1

  -- The laws. An update asks that a raised version comes of a step of a key that is known.
  pub record IsStore (repo : KeyRepository S) : Type 0 where
    pub add : (k : ManagedKey) → Keeps (repo.add k)
    pub added : (k : ManagedKey) → Gets (repo.add k)
    pub add_same : (k : ManagedKey) (s : S) (x : ManagedKey) → (repo.add k s).0 ≡ ok x → x ≡ k
    pub get : (id : String) → Keeps (repo.get id)
    pub got : (id : String) → Finds (repo.get id)
    pub by_reference : (p r : String) → Keeps (repo.get_by_provider_reference p r)
    pub found_by_reference : (p r : String) → Finds (repo.get_by_provider_reference p r)
    pub by_method : (m : String) → Keeps (repo.get_by_verification_method m)
    pub by_hash :
        (w : String) (p : KeyPurpose) (d : String) → Keeps (repo.get_by_idempotency_hash w p d)
    pub found_by_hash :
        (w : String) (p : KeyPurpose) (d : String) → Finds (repo.get_by_idempotency_hash w p d)
    pub active : (w : String) (p : KeyPurpose) → Keeps (repo.get_active w p)
    pub found_active : (w : String) (p : KeyPurpose) → Finds (repo.get_active w p)
    pub for_wallet : (w : String) (n : ℕ) (a : Option String) → Keeps (repo.list_for_wallet w n a)
    pub versions : (w : String) (p : KeyPurpose) → Keeps (repo.list_versions w p)
    pub update :
        (k x : ManagedKey) (s : S)
        → Known stored k s
        → (x.version ≡ k.version + 1 → Step k x)
        → Evolves stored s (repo.update x k.version s).1
    pub updated : (x : ManagedKey) (v : ℕ) → Gets (repo.update x v)
    pub claim_rotation : (id : String) (at v : ℕ) → Keeps (repo.claim_rotation id at v)
    pub claimed : (id : String) (at v : ℕ) → Gets (repo.claim_rotation id at v)
    pub link_successor : (id s : String) (at v : ℕ) → Keeps (repo.link_successor id s at v)
    pub linked : (id s : String) (at v : ℕ) → Gets (repo.link_successor id s at v)
    pub claim_reconciliation :
        (id : String) (at u v : ℕ) → Keeps (repo.claim_reconciliation id at u v)
    pub leased : (id : String) (at u v : ℕ) → Finds (repo.claim_reconciliation id at u v)
    pub candidates : (a b n : ℕ) → Keeps (repo.list_reconciliation_candidates a b n)
    pub by_state : Keeps repo.count_by_state
    pub by_provider : Keeps repo.count_active_by_provider_purpose
