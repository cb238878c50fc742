-- ===== src/Recovery/Promises/Opening.antt =====
-- What a created and what a cancelled request is (`create_request` and `cancel` of
-- services/recovery-service/app/application/services/recovery_service.py).
use mathlib.Core.Path.{subst}
use secure_ssi_platform.Prelude.{
  ℕ, ◌≡◌, sym, ap, ◌∙◌, arith, String, Option, none, some, List, inl, inr,
}
use secure_ssi_platform.Prelude.Equality.{◌==◌, text_equality}
use secure_ssi_platform.Recovery.Monad.{RecoveryError, ok, pure, raise, lift, or_raise}
use secure_ssi_platform.Recovery.Domain.States.{RecoveryReason, cancelled, state_equality}
use secure_ssi_platform.Recovery.Domain.Guardians.{Guardian, RecoveryPolicy}
use secure_ssi_platform.Recovery.Domain.Requests.{RecoveryRequest}
use secure_ssi_platform.Recovery.Domain.Auth.{Principal}
use secure_ssi_platform.Recovery.Repository.Requests.{add_request}
use secure_ssi_platform.Recovery.Environment.{Environment, World, atomic}
use secure_ssi_platform.Recovery.Service.Creation.{
  build_request, create_request, owned_by, cancel_found, cancel,
}
use secure_ssi_platform.Recovery.History.Grown.{IsFresh}
use secure_ssi_platform.Recovery.History.Moves.{transition-moved}
use secure_ssi_platform.Recovery.Guarantee.Creation.{build-IsFresh}
use secure_ssi_platform.Prelude.Returns.{bind-ok, if-ok}
use secure_ssi_platform.Recovery.Promises.Execution.{update-ok}
use secure_ssi_platform.Prelude.Returns.{ok-injective}

-- Whose request it is, and about what.
pub record IsOf (user wallet : String) (why : RecoveryReason) (q : RecoveryRequest) : Type 0 where
  pub owner_user_id : q.owner_user_id ≡ user
  pub wallet_id : q.wallet_id ≡ wallet
  pub reason : q.reason ≡ why

module _ (env : Environment) where
  build-IsOf :
      (p : Principal) (w : String) (reason : RecoveryReason) (pol : RecoveryPolicy)
      (gs : List Guardian) (id sid cm ch nn : String) (at : ℕ) {q : RecoveryRequest}
      → build_request env p w reason pol gs id sid cm ch nn at ≡ ok q
      → IsOf p.user_id w reason q
  unfolding build_request
  build-IsOf p w reason pol gs id sid cm ch nn at h = ground arith

  add-ok : (q r : RecoveryRequest) (w : World) → (atomic env (add_request q) w).0 ≡ ok r → r ≡ q
  unfolding atomic add_request
  add-ok q r w h = ground arith

  -- A request that `create_request` returns is the caller's, of the wallet and for the reason that
  -- were given, and it is fresh: it waits for approvals, has none, and asks for one at least and for
  -- no more than it has guardians, which are distinct; its windows are in order.
  pub create_request-IsFresh :
      (p : Principal) (wallet_id : String) (reason : RecoveryReason) (q : RecoveryRequest)
      (w : World)
      → (create_request env p wallet_id reason w).0 ≡ ok q
      → IsOf p.user_id wallet_id reason q × IsFresh q
  unfolding create_request lift pure
  create_request-IsFresh p wallet_id reason q w h =
      let (_, _, h1) = bind-ok _ _ w h in
      let (_, _, h2) = bind-ok _ _ _ h1 in
      let (_, _, h3) = bind-ok _ _ _ h2 in
      let (_, _, h4) = bind-ok _ _ _ h3 in
      let (_, _, h5) = bind-ok _ _ _ h4 in
      let (pol, _, h6) = bind-ok _ _ _ h5 in
      let (_, _, h7) = bind-ok _ _ _ h6 in
      let (at, _, h8) = bind-ok _ _ _ h7 in
      let (_, _, h9) = bind-ok _ _ _ h8 in
      let (listed, _, h10) = bind-ok _ _ _ h9 in
      let (_, _, h11) = bind-ok _ _ _ h10 in
      let (id, _, h12) = bind-ok _ _ _ h11 in
      let (sid, _, h13) = bind-ok _ _ _ h12 in
      let (_, _, h14) = bind-ok _ _ _ h13 in
      let (split, _, h15) = bind-ok _ _ _ h14 in
      let (ch, _, h16) = bind-ok _ _ _ h15 in
      let (nn, _, h17) = bind-ok _ _ _ h16 in
      let (built, checks, h18) = bind-ok _ _ _ h17 in
      let (_, _, h19) = bind-ok _ _ _ h18 in
      let (stored, added, h20) = bind-ok _ _ _ h19 in
      let (_, _, h21) = bind-ok _ _ _ h20 in
      let (_, _, h22) = bind-ok _ _ _ h21 in
      let e : q ≡ built = sym (ok-injective h22) ∙ add-ok built stored _ added in
      subst (λ x. IsOf p.user_id wallet_id reason x × IsFresh x) (sym e)
        (
          build-IsOf p wallet_id reason pol _ id sid _ ch nn at checks,
          build-IsFresh env p wallet_id reason pol _ id sid _ ch nn at checks,
        )

  owned-by :
      (p : Principal) (o : Option RecoveryRequest) (q : RecoveryRequest) (w : World)
      → (or_raise {S = World} (owned_by p o) RecoveryError.not_found w).0 ≡ ok q
      → q.owner_user_id ≡ p.user_id
  unfolding pure raise
  owned-by p none q w h = ground arith
  owned-by p (some x) q w h = ground (arith, text_equality.beq_iff x.owner_user_id p.user_id)

  -- A request that `cancel` returns is the caller's, and it is cancelled.
  pub cancel-cancelled :
      (p : Principal) (id : String) (q : RecoveryRequest) (w : World)
      → (cancel env p id w).0 ≡ ok q
      → (q.owner_user_id ≡ p.user_id) × (q.session.state ≡ cancelled)
  unfolding cancel cancel_found lift pure
  cancel-cancelled p id q w h =
      let (_, _, h1) = bind-ok _ _ w h in
      let (found, _, h2) = bind-ok _ _ _ h1 in
      let (r, owns, h3) = bind-ok _ _ _ h2 in
      let own = owned-by p found r _ owns in
      elim (if-ok (r.session.state == cancelled) _ _ _ h3) [
        | inl (done, same) ↦
            let e = ok-injective same in
            (
              ap (λ (x : RecoveryRequest). x.owner_user_id) (sym e) ∙ own,
              ap (λ (x : RecoveryRequest). x.session.state) (sym e)
                  ∙ (state_equality.beq_iff r.session.state cancelled).0 done,
            )
        | inr (_, h4) ↦
            let (_, _, h5) = bind-ok _ _ _ h4 in
            let (_, _, h6) = bind-ok _ _ _ h5 in
            let (at, _, h7) = bind-ok _ _ _ h6 in
            let (next, moves, h8) = bind-ok _ _ _ h7 in
            let (stored, written, h9) = bind-ok _ _ _ h8 in
            let (_, _, h10) = bind-ok _ _ _ h9 in
            let (_, _, h11) = bind-ok _ _ _ h10 in
            let e : q ≡ _ =
              sym (ok-injective h11)
              ∙ update-ok env next stored _ _ written
              ∙ (transition-moved r cancelled at _ moves).0 in
            (
              ap (λ (x : RecoveryRequest). x.owner_user_id) e ∙ own,
              ap (λ (x : RecoveryRequest). x.session.state) e,
            )
      ]
