-- ===== src/Recovery/History/Table.antt =====
-- The steps of a request against `_TRANSITIONS` of services/recovery-service/app/domain/recovery.py.
use secure_ssi_platform.Prelude.{◌≡◌, ◌⊎◌, inl, inr, true, false, refl, sym, ◌∙◌, arith}
use secure_ssi_platform.Prelude.Equality.{contains}
use secure_ssi_platform.Recovery.Domain.States.{transitions, terminal, state_equality}
use secure_ssi_platform.Recovery.Domain.Requests.{RecoveryRequest}
use secure_ssi_platform.Recovery.History.{
  Step, Steps, here, next, Event, Effect, recount, reach, refuse, lock, release, claim, complete,
  lose_lease, fail_once, give_up, retry, expire, cancel,
}

-- Every step stays in its state or goes where the table allows.
Effect-table :
    (e : Event) (r r' : RecoveryRequest)
    → Effect e r r'
    → (r'.session.state ≡ r.session.state)
      ⊎ (contains r'.session.state (transitions r.session.state) ≡ true)
Effect-table recount r r' h = inl (h.1 ∙ sym h.0)
Effect-table reach r r' h = inr (ground arith)
Effect-table refuse r r' h = inr (ground arith)
Effect-table lock r r' h = inr (ground arith)
Effect-table release r r' h = inr (ground arith)
Effect-table claim r r' h = inr (ground arith)
Effect-table complete r r' h = inr (ground arith)
Effect-table lose_lease r r' h = inr (ground arith)
Effect-table fail_once r r' h = inr (ground arith)
Effect-table give_up r r' h = inr (ground arith)
Effect-table retry r r' h = inr (ground arith)
Effect-table expire r r' h = inr (ground arith)
Effect-table cancel r r' h = inr (ground arith)

pub Step-table :
    {r r' : RecoveryRequest}
    → Step r r'
    → (r'.session.state ≡ r.session.state)
      ⊎ (contains r'.session.state (transitions r.session.state) ≡ true)
Step-table {r} {r'} s = Effect-table s.event r r' s.effect

-- No step starts from a request that is over.
Effect-live :
    (e : Event) (r r' : RecoveryRequest) → Effect e r r' → terminal r.session.state ≡ false
Effect-live expire r r' h = h.0
Effect-live cancel r r' h = ground arith
Effect-live recount r r' h = ground arith
Effect-live reach r r' h = ground arith
Effect-live refuse r r' h = ground arith
Effect-live lock r r' h = ground arith
Effect-live release r r' h = ground arith
Effect-live claim r r' h = ground arith
Effect-live complete r r' h = ground arith
Effect-live lose_lease r r' h = ground arith
Effect-live fail_once r r' h = ground arith
Effect-live give_up r r' h = ground arith
Effect-live retry r r' h = ground arith

pub Step-live : {r r' : RecoveryRequest} → Step r r' → terminal r.session.state ≡ false
Step-live {r} {r'} s = Effect-live s.event r r' s.effect

-- A request that is over stays as it is.
pub Steps-terminal : {r q : RecoveryRequest} → Steps r q → terminal r.session.state ≡ true → q ≡ r
Steps-terminal here t = refl
Steps-terminal {r} (next {a = a} h s) t =
    let same : a ≡ r = Steps-terminal h t in absurd (clash a same (Step-live s))
  where
    clash : (a : RecoveryRequest) → a ≡ r → terminal a.session.state ≡ false → ⊥
    clash a e l = cc
