-- ===== src/Recovery/Guarantee/Creation.antt =====
-- A new request is fresh when it is stored, and a cancellation is a step (`create_request`,
-- `cancel` and the reading methods in
-- services/recovery-service/app/application/services/recovery_service.py).
use mathlib.Core.Path.{subst, ◌∙◌, ap}
use mathlib.Core.Bool.{true≢false, ◌&&◌}
use secure_ssi_platform.Prelude.{
  ℕ, ◌≡◌, String, Bool, true, false, not, ◌||◌, Option, none, some, List, refl, arith, sym, inl,
  inr, is_some, Bool-cases,
}
use secure_ssi_platform.Prelude.Equality.{◌==◌, text_equality}
use secure_ssi_platform.Prelude.Dict.{lookup, insert, insert-cases, insert-keeps, find-lookup}
use secure_ssi_platform.Recovery.Monad.{RecoveryError, ok, or_raise, ◌>>=◌}
use secure_ssi_platform.Recovery.Domain.States.{RecoveryReason, terminal, state_equality, cancelled}
use secure_ssi_platform.Recovery.Domain.Guardians.{Guardian, RecoveryPolicy}
use secure_ssi_platform.Recovery.Domain.Requests.{RecoveryRequest}
use secure_ssi_platform.Recovery.Domain.Auth.{Principal}
use secure_ssi_platform.Recovery.Repository.State.{Repository}
use secure_ssi_platform.Recovery.Repository.Requests.{add_request, active_request, is_active_for}
use secure_ssi_platform.Recovery.Environment.{Environment}
use secure_ssi_platform.Recovery.Service.Creation.{
  require_cooldown_elapsed, policy_or_default, build_request, create_request, get_request,
  list_requests, owned_by, cancel_found, cancel,
}
use secure_ssi_platform.Recovery.History.{here}
use secure_ssi_platform.Recovery.History.Grown.{IsFresh, IsGrown}
use secure_ssi_platform.Recovery.History.Moves.{cancel-Step}
use secure_ssi_platform.Recovery.Guarantee.Invariant.{IsSound, Evolves, Evolves-refl}
use secure_ssi_platform.Recovery.Guarantee.Rules.{
  Safe, Under, IsFair, Under-pure, Under-if, Under-bind, Under-bind-lift, Under-bind-pure,
  Under-bind-raise, Under-lift, Under-external,
}
use secure_ssi_platform.Recovery.Guarantee.Atomic.{Under-atomic, Under-read, Under-write}
use secure_ssi_platform.Recovery.Guarantee.Calls.{
  service_rules, Under-guard, Under-now, Under-new_id, Under-raise_if,
}
use secure_ssi_platform.Recovery.Guarantee.Guardians.{create_default_policy-Under}

-- What the constructors of a new request have checked.
pub build-IsFresh :
    (env : Environment) (p : Principal) (w : String) (reason : RecoveryReason)
    (pol : RecoveryPolicy) (gs : List Guardian) (id sid cm ch nn : String) (at : ℕ)
    {q : RecoveryRequest}
    → build_request env p w reason pol gs id sid cm ch nn at ≡ ok q
    → IsFresh q
unfolding build_request
build-IsFresh env p w reason pol gs id sid cm ch nn at h = ground arith

-- A request that is fresh may be stored: no request had its id.
module _ (q : RecoveryRequest) (f : IsFresh q) where
  module _ (a : Repository) (v : IsSound a) (new : is_some (lookup q.request_id a.requests) ≡ false)
      (alone : is_some (active_request q.wallet_id a) ≡ false) where
    -- No other request of the wallet is at work.
    over :
        (k : String) (p : RecoveryRequest)
        → lookup k a.requests ≡ some p
        → p.wallet_id ≡ q.wallet_id
        → terminal p.session.state ≡ true
    unfolding active_request
    over k p h same =
        ended _ _ (find-lookup (is_active_for q.wallet_id) a.requests k p (is_none _ alone) h)
          ((text_equality.beq_iff p.wallet_id q.wallet_id).1 same)
      where
        is_none : (o : Option RecoveryRequest) → is_some o ≡ false → o ≡ none
        is_none none e = refl
        is_none (some y) e = absurd (true≢false e)

        ended : (x y : Bool) → (x && not y) ≡ false → x ≡ true → y ≡ true
        ended x y h e = ground arith

    wallet_of : {y : RecoveryRequest} → y ≡ q → y.wallet_id ≡ q.wallet_id
    wallet_of e = ap (λ (y : RecoveryRequest). y.wallet_id) e

    abbrev added : Repository
    added = record a { requests = insert q.request_id q a.requests }

    added-IsSound : IsSound added
    added-IsSound = record {
      keyed = λ k x p. elim (insert-cases k q.request_id q a.requests p) [
        | inl (same, e) ↦ cc
        | inr old ↦ v.keyed k x old
      ];
      grown = λ k x p. elim (insert-cases k q.request_id q a.requests p) [
        | inl (same, e) ↦ subst IsGrown e (record { origin = q; fresh = f; steps = here })
        | inr old ↦ v.grown k x old
      ];
      single = λ j k x y hx hy w lx ly. elim (insert-cases j q.request_id q a.requests hx) [
        | inl (jq, ex) ↦ elim (insert-cases k q.request_id q a.requests hy) [
          | inl (kq, ey) ↦ cc
          | inr old ↦ absurd (true≢false (sym (over k y old (sym w ∙ wallet_of (sym ex))) ∙ ly))
        ]
        | inr old ↦ elim (insert-cases k q.request_id q a.requests hy) [
          | inl (kq, ey) ↦ absurd (true≢false (sym (over j x old (w ∙ wallet_of (sym ey))) ∙ lx))
          | inr older ↦ v.single j k x y old older w lx ly
        ]
      ];
    }

    added-Evolves : Evolves a added
    added-Evolves = record {
      requests =
          λ k x p. (x, insert-keeps q.request_id q a.requests (λ w e. cc (e, new)) k x p, here);
      approvals = λ k x p. p;
      shares = λ k x p. p;
      audit_events = λ k x p. p;
    }

  Safe-add_request : {c : Option RecoveryRequest} → Safe c (add_request q)
  unfolding add_request
  Safe-add_request = record {
    at = λ a v h.
        elim (Bool-cases
          (is_some (lookup q.request_id a.requests) || is_some (active_request q.wallet_id a))) [
            | inl p ↦ rw p (v, Evolves-refl a)
            | inr p ↦ rw p (
              added-IsSound a v (neither _ _ p).0 (neither _ _ p).1,
              added-Evolves a v (neither _ _ p).0 (neither _ _ p).1,
            )
          ];
  }
    where
      neither : (x y : Bool) → (x || y) ≡ false → (x ≡ false) × (y ≡ false)
      neither x y h = ground arith

module _ (env : Environment) (fair : IsFair env) {c : Option RecoveryRequest} where
  cooldown-Under : (p : RecoveryPolicy) (at : ℕ) → Under c (require_cooldown_elapsed env p at)
  unfolding require_cooldown_elapsed
  cooldown-Under p at = search service_rules depth 40

  policy_or_default-Under :
      (p : Principal) (w : String) (o : Option RecoveryPolicy)
      → Under c (policy_or_default env p w o)
  policy_or_default-Under p w none = create_default_policy-Under env fair p w
  policy_or_default-Under p w (some x) = Under-pure x

  pub get_request-Under : (p : Principal) (id : String) → Under c (get_request env p id)
  unfolding get_request
  get_request-Under p id = search service_rules depth 40

  pub list_requests-Under : (p : Principal) (n : ℕ) → Under c (list_requests env p n)
  unfolding list_requests
  list_requests-Under p n = search service_rules depth 40

module _ (env : Environment) (fair : IsFair env) {c : Option RecoveryRequest} where
  pub create_request-Under :
      (p : Principal) (w : String) (reason : RecoveryReason)
      → Under c (create_request env p w reason)
  unfolding create_request
  create_request-Under p w reason = Under-bind _ _ (Under-lift _) λ _.
      Under-bind _ _ (Under-external _) λ _. Under-bind _ _ (search service_rules) λ running.
        Under-bind _ _ (Under-raise_if _ _) λ _. Under-bind _ _ (search service_rules) λ found.
          Under-bind _ _ (policy_or_default-Under env fair p w found) λ pol.
            Under-bind _ _ (Under-raise_if _ _) λ _. Under-bind _ _ (Under-now env fair) λ at.
              Under-bind _ _ (cooldown-Under env fair pol at) λ _.
                Under-bind _ _ (search service_rules) λ listed.
                  Under-bind _ _ (Under-raise_if _ _) λ _.
                    Under-bind _ _ (Under-new_id env fair _) λ id.
                      Under-bind _ _ (Under-new_id env fair _) λ sid.
                        Under-bind _ _ (Under-external _) λ secret.
                          Under-bind _ _ (Under-external _) λ split.
                            Under-bind _ _ (Under-external _) λ challenge.
                              Under-bind _ _ (Under-external _) λ nonce. Under-bind-lift _ _ λ q h.
                                Under-bind _ _ (search service_rules) λ _.
                                  Under-bind _ _
                                    (Under-atomic env fair _ (
                                      Safe-add_request q
                                        (build-IsFresh env p w reason _ _ _ _ _ _ _ _ h)))
                                    λ stored. search service_rules depth 40

module _ (env : Environment) (fair : IsFair env) where
  cancel_found-Under :
      (p : Principal) (id : String) (r : RecoveryRequest) → Under (some r) (cancel_found env p id r)
  unfolding cancel_found
  cancel_found-Under p id r =
      Under-if (r.session.state == cancelled) _ _ (λ _. Under-pure r)
        λ _. Under-guard _ _ _ λ allowed. Under-guard _ _ _ λ early.
          Under-bind _ _ (Under-now env fair) λ at. Under-bind-lift _ _ λ next h.
            Under-write env fair r next _ (cancel-Step r at h allowed early)
              (search service_rules depth 40)

  cancel_owned-Under :
      (p : Principal) (id : String) (r : RecoveryRequest)
      → Under
          (some r)
          (or_raise (owned_by p (some r)) RecoveryError.not_found >>= cancel_found env p id)
  cancel_owned-Under p id r = elim (Bool-cases (r.owner_user_id == p.user_id)) [
    | inl e ↦ rw e (Under-bind-pure r _ (cancel_found-Under p id r))
    | inr e ↦ rw e (Under-bind-raise _ _)
  ]

  pub cancel-Under :
      {c : Option RecoveryRequest} (p : Principal) (id : String) → Under c (cancel env p id)
  unfolding cancel
  cancel-Under p id =
      Under-bind _ _ (Under-lift _)
        λ _. Under-read env fair id _ (λ r. cancel_owned-Under p id r) (Under-bind-raise _ _)
