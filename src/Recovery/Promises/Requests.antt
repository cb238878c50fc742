-- ===== src/Recovery/Promises/Requests.antt =====
-- What any sequence of calls does to the stored requests, whatever the other threads do that keep
-- to the rules (services/recovery-service/app/application/services/recovery_service.py).
use secure_ssi_platform.Prelude.{◌≡◌, ◌∙◌, ap, String, true, false, some, List}
use secure_ssi_platform.Prelude.Equality.{text_equality}
use secure_ssi_platform.Prelude.Dict.{lookup}
use secure_ssi_platform.Recovery.Domain.States.{terminal}
use secure_ssi_platform.Recovery.Domain.Requests.{RecoveryRequest}
use secure_ssi_platform.Recovery.Environment.{Environment, World}
use secure_ssi_platform.Recovery.Service.Calls.{Call, serve}
use secure_ssi_platform.Recovery.History.Safety.{past_lock, HasLock, grown-IsCoherent}
use secure_ssi_platform.Recovery.History.Table.{Steps-terminal}
use secure_ssi_platform.Recovery.Guarantee.Invariant.{IsSound}
use secure_ssi_platform.Recovery.Guarantee.Rules.{IsFair}
use secure_ssi_platform.Recovery.Guarantee.Service.{serve-Evolves}
use secure_ssi_platform.Recovery.Promises.Path.{StatePath, Steps-Path}

module _ (env : Environment) (fair : IsFair env) (cs : List Call) (s : World)
    (v : IsSound s.repository) where
  -- Among fair threads and from a sound repository, a request that any calls leave in a state past
  -- the start of the time-lock has a time-lock that begins when the quorum was reached and lasts as
  -- many seconds as the policy of the request says.
  pub serve-HasLock :
      (k : String) (q : RecoveryRequest)
      → lookup k (serve env cs s).repository.requests ≡ some q
      → past_lock q.session.state ≡ true
      → HasLock q
  serve-HasLock k q h = (grown-IsCoherent ((serve-Evolves env fair cs s v).0.grown k q h)).lock

  -- Among fair threads and from a sound repository, any calls leave at most one request of a wallet
  -- that is not over.
  pub serve-single :
      (j k : String) (p q : RecoveryRequest)
      → lookup j (serve env cs s).repository.requests ≡ some p
      → lookup k (serve env cs s).repository.requests ≡ some q
      → p.wallet_id ≡ q.wallet_id
      → terminal p.session.state ≡ false
      → terminal q.session.state ≡ false
      → j ≡ k
  serve-single = (serve-Evolves env fair cs s v).0.single

  -- Among fair threads and from a sound repository, a stored request that is over is found again
  -- after any calls, unchanged in every field.
  pub serve-terminal :
      (k : String) (q : RecoveryRequest)
      → lookup k s.repository.requests ≡ some q
      → terminal q.session.state ≡ true
      → lookup k (serve env cs s).repository.requests ≡ some q
  serve-terminal k q h t =
      let (q', found, steps) = (serve-Evolves env fair cs s v).1.requests k q h in
      found ∙ ap some (Steps-terminal steps t)

  -- Among fair threads and from a sound repository, a stored request is found again after any calls,
  -- in a state that a chain of entries of the transition table leads to.
  pub serve-StatePath :
      (k : String) (q : RecoveryRequest)
      → lookup k s.repository.requests ≡ some q
      → (q' : RecoveryRequest) × (lookup k (serve env cs s).repository.requests ≡ some q')
        × StatePath q.session.state q'.session.state
  serve-StatePath k q h =
      let (q', found, steps) = (serve-Evolves env fair cs s v).1.requests k q h in
      (q', found, Steps-Path steps)
