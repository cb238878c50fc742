-- ===== src/Recovery/Promises/Domain.antt =====
-- The rules of services/recovery-service/app/domain/recovery.py and
-- services/recovery-service/app/domain/auth.py.
use secure_ssi_platform.Prelude.{
  ℕ, ◌+◌, ◌≤◌, ◌≡◌, ◌↔◌, ◌⊎◌, inl, inr, refl, sym, ap, ◌∙◌, Bool-cases, arith, String, Bool, true,
  false, ◌||◌, not, Option, none, some, List, [], ◌∷◌, is_empty, if◌then◌else◌,
}
use secure_ssi_platform.Prelude.Equality.{◌==◌, contains}
use secure_ssi_platform.Prelude.Integers.{
  IsBetween, magnitude, between_zero-IsBetween, IsBetween-between_zero,
}
use secure_ssi_platform.Recovery.Monad.{RecoveryError, Result, ok, err, fail_if}
use secure_ssi_platform.Recovery.Domain.States.{
  GuardianStatus, RecoveryState, terminal, transitions, status_transitions, state_equality,
  status_equality, pending_approvals, quorum_reached, waiting_timelock, ready_for_execution,
  executing, completed, rejected, cancelled, expired, failed, reconciliation_required,
  require_transition,
}
use secure_ssi_platform.Recovery.Domain.Guardians.{
  Guardian, check_guardian, moved_guardian, transition_guardian, RecoveryPolicy, check_policy,
  thirty_days,
}
use secure_ssi_platform.Recovery.Domain.Requests.{
  RecoveryRequest, check_session, check_request, moved, transition,
}
use secure_ssi_platform.Recovery.Domain.Auth.{
  Role, Permission, Principal, admin, issuer, verifier, holder, granted, is_admin, from_claims,
  recovery_reconcile, role_equality, roles_of, known_roles,
}

-- The states that `RecoveryState.terminal` names are exactly those with no entry in the table.
pub terminal-transitions : (s : RecoveryState) → (terminal s ≡ true) ↔ (transitions s ≡ [])
terminal-transitions pending_approvals = ground arith
terminal-transitions quorum_reached = ground arith
terminal-transitions waiting_timelock = ground arith
terminal-transitions ready_for_execution = ground arith
terminal-transitions executing = ground arith
terminal-transitions completed = ground arith
terminal-transitions rejected = ground arith
terminal-transitions cancelled = ground arith
terminal-transitions expired = ground arith
terminal-transitions failed = ground arith
terminal-transitions reconciliation_required = ground arith

-- The bounds of a policy.
pub record IsBounded (p : RecoveryPolicy) : Type 0 where
  pub named :
      (is_empty p.policy_id ≡ false)
      × (is_empty p.wallet_id ≡ false)
      × (is_empty p.owner_user_id ≡ false)
  pub approvals :
      (1 ≤ p.minimum_approvals)
      × (p.minimum_approvals ≤ p.maximum_guardians)
      × (p.maximum_guardians ≤ 32)
  pub window : (60 ≤ p.approval_window_seconds) × (p.approval_window_seconds ≤ thirty_days)
  pub lock : IsBetween p.time_lock_seconds thirty_days
  pub whole :
      p.approval_window_seconds + magnitude p.time_lock_seconds ≤ p.recovery_expiration_seconds
  pub attempts : (1 ≤ p.maximum_attempts) × (p.maximum_attempts ≤ 20)
  pub cooldown : IsBetween p.cooldown_seconds thirty_days
  pub version : 1 ≤ p.version

check_policy_sound : (p : RecoveryPolicy) → check_policy p ≡ ok p → IsBounded p
unfolding check_policy
check_policy_sound p h = record {
  named = ground arith;
  approvals = ground arith;
  window = ground arith;
  lock = between_zero-IsBetween p.time_lock_seconds thirty_days (ground arith);
  whole = ground arith;
  attempts = ground arith;
  cooldown = between_zero-IsBetween p.cooldown_seconds thirty_days (ground arith);
  version = ground arith;
}

check_policy_complete : (p : RecoveryPolicy) → IsBounded p → check_policy p ≡ ok p
unfolding check_policy
check_policy_complete p b =
    let lock = IsBetween-between_zero p.time_lock_seconds thirty_days b.lock in
    let cooldown = IsBetween-between_zero p.cooldown_seconds thirty_days b.cooldown in
    ground (arith, b.named, b.approvals, b.window, lock, b.whole, b.attempts, cooldown, b.version)

-- A policy is accepted exactly if its ids are not empty and its numbers are within their bounds.
pub check_policy-IsBounded : (p : RecoveryPolicy) → (check_policy p ≡ ok p) ↔ IsBounded p
check_policy-IsBounded p = (check_policy_sound p, check_policy_complete p)

-- What a transition asked for by `s` at the time `at` leaves: the same request in the new state,
-- stamped, and with the next version.
pub record IsMoved (r : RecoveryRequest) (s : RecoveryState) (at : ℕ) (r' : RecoveryRequest)
    : Type 0 where
  pub state : r'.session.state ≡ s
  pub stamped : (r'.session.updated_at ≡ at) × (r'.updated_at ≡ at)
  pub version : r'.version ≡ r.version + 1
  pub session : r'.session ≡ record r.session { state = s; updated_at = at }
  pub owner : (r'.request_id ≡ r.request_id) × (r'.owner_user_id ≡ r.owner_user_id)
  pub wallet : (r'.wallet_id ≡ r.wallet_id) × (r'.reason ≡ r.reason)
  pub policy : r'.policy ≡ r.policy
  pub nonces : (r'.challenge ≡ r.challenge) × (r'.nonce ≡ r.nonce)
  pub created_at : r'.created_at ≡ r.created_at

module _ (r : RecoveryRequest) (s : RecoveryState) (at : ℕ)
    (session_valid : check_session r.session ≡ ok r.session) (valid : check_request r ≡ ok r) where
  listed-IsMoved :
      contains s (transitions r.session.state) ≡ true
      → (r' : RecoveryRequest) × (transition r s at (λ x. x) ≡ ok r') × IsMoved r s at r'
  unfolding transition check_session check_request require_transition
  listed-IsMoved listed = (
    moved r s at (λ x. x),
    ground (arith, session_valid, valid, listed),
    record {
      state = refl;
      stamped = (refl, refl);
      version = refl;
      session = refl;
      owner = (refl, refl);
      wallet = (refl, refl);
      policy = refl;
      nonces = (refl, refl);
      created_at = refl;
    },
  )

  unlisted-refused :
      contains s (transitions r.session.state) ≡ false
      → transition r s at (λ x. x) ≡ err RecoveryError.invalid_state
  unfolding transition check_session check_request require_transition
  unlisted-refused unlisted = ground (arith, session_valid, valid, unlisted)

-- A request whose parts their constructors accept moves to a state exactly as the table says: by an
-- entry it is the same request in the new state, stamped and with the next version, and with no
-- entry the transition raises the state error.
pub transition-table :
    (r : RecoveryRequest) (s : RecoveryState) (at : ℕ)
    → check_session r.session ≡ ok r.session
    → check_request r ≡ ok r
    → (contains s (transitions r.session.state) ≡ true
        → (r' : RecoveryRequest) × (transition r s at (λ x. x) ≡ ok r') × IsMoved r s at r')
      × (contains s (transitions r.session.state) ≡ false
          → transition r s at (λ x. x) ≡ err RecoveryError.invalid_state)
transition-table r s at hs hr = (listed-IsMoved r s at hs hr, unlisted-refused r s at hs hr)

fail_if-ok :
    {A : Type 0} (b : Bool) (e : RecoveryError) (r : Result A) {x : A}
    → fail_if b e r ≡ ok x
    → (b ≡ false) × (r ≡ ok x)
fail_if-ok true e r h = ground arith
fail_if-ok false e r h = (refl, h)

if-false : {A : Type 0} (b : Bool) (x y : A) → b ≡ false → (if b then x else y) ≡ y
if-false b x y h = ground arith

check-guardian_eq : (g g' : Guardian) → check_guardian g ≡ ok g' → g' ≡ g
unfolding check_guardian
check-guardian_eq g g' h = ground arith

not-false : (b : Bool) → not b ≡ false → b ≡ true
not-false b h = ground arith

-- A guardian that a transition returns has the status asked for; it is the guardian that was there,
-- or the table of statuses allows the move and the version is the next one.
pub transition_guardian-status :
    (g : Guardian) (t : GuardianStatus) (at : ℕ) (g' : Guardian)
    → transition_guardian g t at ≡ ok g'
    → (g'.status ≡ t)
      × ((g' ≡ g)
          ⊎ ((contains t (status_transitions g.status) ≡ true) × (g'.version ≡ g.version + 1)))
unfolding transition_guardian
transition_guardian-status g t at g' h = elim (Bool-cases (t == g.status)) [
  | inl same ↦
      let e : g' ≡ g = ground arith in
      (ap (λ (x : Guardian). x.status) e ∙ sym ((status_equality.beq_iff t g.status).0 same), inl e)
  | inr other ↦
      let refused_or = fail_if-ok _ _ _ (sym (if-false _ _ _ other) ∙ h) in
      let e = check-guardian_eq (moved_guardian g t at) g' refused_or.1 in
      (
        ap (λ (x : Guardian). x.status) e,
        inr (not-false _ refused_or.0, ap (λ (x : Guardian). x.version) e),
      )
]

-- Only an administrator's roles grant the reconciliation.
granted-reconcile : (rs : List Role) → granted rs recovery_reconcile ≡ contains admin rs
granted-reconcile [] = refl
granted-reconcile (admin ∷ rs) = refl
granted-reconcile (issuer ∷ rs) = granted-reconcile rs
granted-reconcile (verifier ∷ rs) = granted-reconcile rs
granted-reconcile (holder ∷ rs) = granted-reconcile rs

-- What any role grants is granted by the administrator's or the holder's.
granted-roles :
    (rs : List Role) (x : Permission)
    → granted rs x ≡ true
    → (contains admin rs || contains holder rs) ≡ true
granted-roles [] x h = h
granted-roles (admin ∷ rs) x h = refl
granted-roles (issuer ∷ rs) x h = granted-roles rs x h
granted-roles (verifier ∷ rs) x h = granted-roles rs x h
granted-roles (holder ∷ rs) x h = ground arith

known-granted :
    (o : Option (List Role)) (user_id : String) (p : Principal)
    → known_roles o user_id ≡ ok p
    → p.permissions ≡ granted p.roles
known-granted none u p h = ground arith
known-granted (some rs) u p h = ok-granted (fail_if-ok _ _ _ h).1
  where
    ok-granted :
        {roles : List Role}
        → ◌≡◌ {A = Result Principal}
            (ok (record { user_id = u; roles = roles; permissions = granted roles }))
            (ok p)
        → p.permissions ≡ granted p.roles
    ok-granted e = cc

-- A principal made from claims may reconcile exactly if it is an administrator, and has a permission
-- only if it is an administrator or a holder.
pub from_claims-permissions :
    (user_id : String) (roles : List String) (p : Principal)
    → from_claims user_id roles ≡ ok p
    → (p.permissions recovery_reconcile ≡ is_admin p)
      × ((x : Permission) → p.permissions x ≡ true → (is_admin p || contains holder p.roles) ≡ true)
unfolding from_claims
from_claims-permissions user_id roles p h =
    let e = known-granted (roles_of roles) user_id p h in
    (
      ap (λ f. f recovery_reconcile) e ∙ granted-reconcile p.roles,
      λ x g. granted-roles p.roles x (sym (ap (λ f. f x) e) ∙ g),
    )
