-- ===== src/Identity/Keys/History/Life.antt =====
-- What follows of a key's whole life from its steps
-- (services/identity-service/app/domain/managed_key.py).
use secure_ssi_platform.Prelude.{
  ℕ, ◌≤◌, ◌≡◌, ◌≢◌, ◌⊎◌, inl, inr, refl, sym, ◌∙◌, arith, true, false, Bool, some,
}
use secure_ssi_platform.Prelude.Equality.{contains}
use secure_ssi_platform.Identity.Keys.States.{
  ManagedKeyState, valid_key_transitions, key_state_equality, pending, destroyed, failed,
}
use secure_ssi_platform.Identity.Keys.Record.{ManagedKey}
use secure_ssi_platform.Identity.Keys.History.{
  Step, Steps, here, next, Event, Effect, SameMaterial, SameEnd, touch, activate, restore, claim,
  link, suspend, compromise, revoke, schedule, destroy, give_up,
}

-- Every step stays in its state or goes where `VALID_KEY_TRANSITIONS` allows.
pub Effect-table :
    (e : Event) (k k' : ManagedKey)
    → Effect e k k'
    → (k'.state ≡ k.state) ⊎ (contains k'.state (valid_key_transitions k.state) ≡ true)
Effect-table touch k k' h = inl h.0
Effect-table link k k' h = inl (h.1 ∙ sym h.0)
Effect-table activate k k' h = inr (ground arith)
Effect-table restore k k' h = inr (ground arith)
Effect-table claim k k' h = inr (ground arith)
Effect-table suspend k k' h = inr (ground arith)
Effect-table compromise k k' h = inr (rw (h.1) (h.0))
Effect-table revoke k k' h = inr (rw (h.1) (h.0))
Effect-table schedule k k' h = inr (ground arith)
Effect-table destroy k k' h = inr (ground arith)
Effect-table give_up k k' h = inr (rw (h.1) (h.0))

-- A key that is destroyed or failed stays so.
abbrev pub is_final : ManagedKeyState → Bool
is_final destroyed = true
is_final failed = true
is_final _ = false

no_way_on :
    (s t : ManagedKeyState) → is_final s ≡ true → contains t (valid_key_transitions s) ≡ false
no_way_on destroyed t h = refl
no_way_on failed t h = refl
no_way_on s t h = ground arith

pub Step-final : {k k' : ManagedKey} → Step k k' → is_final k.state ≡ true → k'.state ≡ k.state
Step-final {k} {k'} s f = elim (Effect-table s.event k k' s.effect) [
  | inl same ↦ same
  | inr listed ↦ absurd (ground (arith, no_way_on k.state k'.state f))
]

pub Steps-final : {k q : ManagedKey} → Steps k q → is_final k.state ≡ true → q.state ≡ k.state
Steps-final here f = refl
Steps-final {k} (next {a = a} h s) f = let e = Steps-final h f in Step-final s (rw e f) ∙ e

-- A key that is past pending keeps its key pair, and stays past pending.
Effect-material :
    (e : Event) (k k' : ManagedKey)
    → Effect e k k'
    → k.state ≢ pending
    → SameMaterial k k' × (k'.state ≢ pending)
Effect-material touch k k' h p = (h.1, λ e. p (sym h.0 ∙ e))
Effect-material activate k k' h p = absurd (p h.0)
Effect-material restore k k' h p = (h.2, λ e. ground arith)
Effect-material claim k k' h p = (h.2, λ e. ground arith)
Effect-material link k k' h p = (h.2, λ e. ground arith)
Effect-material suspend k k' h p = (h.2, λ e. ground arith)
Effect-material compromise k k' h p = (h.2, λ e. ground arith)
Effect-material revoke k k' h p = (h.2, λ e. ground arith)
Effect-material schedule k k' h p = (h.2, λ e. ground arith)
Effect-material destroy k k' h p = (h.2, λ e. ground arith)
Effect-material give_up k k' h p = (h.2, λ e. ground arith)

pub Steps-material :
    {k q : ManagedKey} → Steps k q → k.state ≢ pending → SameMaterial k q × (q.state ≢ pending)
Steps-material here p = (ground arith, p)
Steps-material {k} {q} (next {a = a} h s) p =
    let (m, p') = Steps-material h p in
    let (m', p'') = Effect-material s.event a q s.effect p' in
    (
      record {
        holder_did = m'.holder_did ∙ m.holder_did;
        provider_key_reference = m'.provider_key_reference ∙ m.provider_key_reference;
        public_key_multibase = m'.public_key_multibase ∙ m.public_key_multibase;
        fingerprint = m'.fingerprint ∙ m.fingerprint;
        verification_method = m'.verification_method ∙ m.verification_method;
      },
      p'',
    )

-- A key that has been destroyed was due, and its destruction had been scheduled.
pub record WasDue (q : ManagedKey) : Type 0 where
  pub time : ℕ
  pub at : ℕ
  pub scheduled : q.destruction_scheduled_at ≡ some time
  pub done : q.destroyed_at ≡ some at
  pub due : time ≤ at

WasDue-same : {k k' : ManagedKey} → SameEnd k k' → WasDue k → WasDue k'
WasDue-same e d = record {
  time = d.time;
  at = d.at;
  scheduled = e.destruction_scheduled_at ∙ d.scheduled;
  done = e.destroyed_at ∙ d.done;
  due = d.due;
}

Effect-due :
    (e : Event) (k k' : ManagedKey)
    → Effect e k k'
    → k'.state ≡ destroyed
    → (k.state ≡ destroyed → WasDue k)
    → WasDue k'
Effect-due touch k k' h d due = WasDue-same h.2 (due (sym h.0 ∙ d))
Effect-due activate k k' h d due = absurd (ground arith)
Effect-due restore k k' h d due = absurd (ground arith)
Effect-due claim k k' h d due = absurd (ground arith)
Effect-due link k k' h d due = absurd (ground arith)
Effect-due suspend k k' h d due = absurd (ground arith)
Effect-due compromise k k' h d due = absurd (ground arith)
Effect-due revoke k k' h d due = absurd (ground arith)
Effect-due schedule k k' h d due = absurd (ground arith)
Effect-due destroy k k' h d due =
    let (t, at, _, s, e, l) = h.3 in record { time = t; at = at; scheduled = s; done = e; due = l }
Effect-due give_up k k' h d due = absurd (ground arith)

pub Steps-due :
    {k q : ManagedKey} → Steps k q → k.state ≢ destroyed → q.state ≡ destroyed → WasDue q
Steps-due here n d = absurd (n d)
Steps-due {q = q} (next {a = a} h s) n d = Effect-due s.event a q s.effect d (λ e. Steps-due h n e)

-- Attempts to reconcile are only ever counted up.
pub Steps-attempts :
    {k q : ManagedKey} → Steps k q → k.reconciliation_attempts ≤ q.reconciliation_attempts
Steps-attempts here = omega arith
Steps-attempts (next h s) = omega (arith, s.kept.attempts, Steps-attempts h)
