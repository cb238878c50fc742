-- ===== src/Recovery/Promises/Path.antt =====
-- The way of a request through the transition table (`_TRANSITIONS` of
-- services/recovery-service/app/domain/recovery.py).
use secure_ssi_platform.Prelude.{◌≡◌, inl, inr, sym, true}
use secure_ssi_platform.Prelude.Equality.{contains}
use secure_ssi_platform.Recovery.Domain.States.{RecoveryState, transitions, state_equality}
use secure_ssi_platform.Recovery.Domain.Requests.{RecoveryRequest}
use secure_ssi_platform.Recovery.History.{Steps, here, next}
use secure_ssi_platform.Recovery.History.Table.{Step-table}
use mathlib.Core.Path.{subst}

-- A chain of entries of the table.
pub data StatePath (s : RecoveryState) : RecoveryState → Type 0 where
  stay : StatePath s s
  move : {t u : RecoveryState} → StatePath s t → contains u (transitions t) ≡ true → StatePath s u

-- Any number of writes is such a chain.
pub Steps-Path : {q r : RecoveryRequest} → Steps q r → StatePath q.session.state r.session.state
Steps-Path here = stay
Steps-Path {q} (next h s) = elim (Step-table s) [
  | inl same ↦ subst (StatePath q.session.state) (sym same) (Steps-Path h)
  | inr entry ↦ move (Steps-Path h) entry
]
