-- ===== src/Recovery/Guarantee/Service.antt =====
-- What all the methods of the service together guarantee of the repository
-- (services/recovery-service/app/application/services/recovery_service.py).
use secure_ssi_platform.Prelude.{none, List, [], ◌∷◌}
use secure_ssi_platform.Recovery.Environment.{Environment, World}
use secure_ssi_platform.Recovery.Service.Calls.{Call, perform, serve}
use secure_ssi_platform.Recovery.Guarantee.Invariant.{IsSound, Evolves, Evolves-refl, Evolves-trans}
use secure_ssi_platform.Recovery.Guarantee.Rules.{IsFair}
use secure_ssi_platform.Recovery.Guarantee.Guardians
use secure_ssi_platform.Recovery.Guarantee.Creation
use secure_ssi_platform.Recovery.Guarantee.Decisions
use secure_ssi_platform.Recovery.Guarantee.Reconciliation

module _ (env : Environment) (fair : IsFair env) where
  abbrev Keeps : World → World → Type 0
  Keeps s t = IsSound t.repository × Evolves s.repository t.repository

  perform-Keeps : (c : Call) (s : World) → IsSound s.repository → Keeps s (perform env c s)
  unfolding perform
  perform-Keeps (Call.create_guardian p w u d n m) s v =
      (Guardians.create_guardian-Under env fair {c = none} p w u d n m).at s v tt
  perform-Keeps (Call.list_guardians p w) s v =
      (Guardians.list_guardians-Under env fair {c = none} p w).at s v tt
  perform-Keeps (Call.get_guardian p g) s v =
      (Guardians.get_guardian-Under env fair {c = none} p g).at s v tt
  perform-Keeps (Call.update_guardian p g d m t) s v =
      (Guardians.update_guardian-Under env fair {c = none} p g d m t).at s v tt
  perform-Keeps (Call.remove_guardian p g) s v =
      (Guardians.remove_guardian-Under env fair {c = none} p g).at s v tt
  perform-Keeps (Call.get_policy p w) s v =
      (Guardians.get_policy-Under env fair {c = none} p w).at s v tt
  perform-Keeps (Call.put_policy p w t) s v =
      (Guardians.put_policy-Under env fair {c = none} p w t).at s v tt
  perform-Keeps (Call.create_request p w r) s v =
      (Creation.create_request-Under env fair {c = none} p w r).at s v tt
  perform-Keeps (Call.get_request p id) s v =
      (Creation.get_request-Under env fair {c = none} p id).at s v tt
  perform-Keeps (Call.list_requests p n) s v =
      (Creation.list_requests-Under env fair {c = none} p n).at s v tt
  perform-Keeps (Call.approve p id g ch pr) s v =
      (Decisions.approve_request-Under env fair p id g {c = none} ch pr).at s v tt
  perform-Keeps (Call.reject p id g ch pr) s v =
      (Decisions.reject_request-Under env fair p id g {c = none} ch pr).at s v tt
  perform-Keeps (Call.cancel p id) s v = (Creation.cancel-Under env fair {c = none} p id).at s v tt
  perform-Keeps (Call.reconcile_request p id) s v =
      (Reconciliation.reconcile_request-Under env fair {c = none} p id).at s v tt
  perform-Keeps Call.reconcile_due s v =
      (Reconciliation.reconcile_due-Under env fair {c = none}).at s v tt

  -- If the other threads keep the requests sound and only let the repository evolve, then so does
  -- any sequence of calls of the service, from any sound repository: stored requests make only the
  -- steps of the life of a request, and approvals, shares and audit events are never changed.
  pub serve-Evolves :
      (cs : List Call) (s : World)
      → IsSound s.repository
      → IsSound (serve env cs s).repository × Evolves s.repository (serve env cs s).repository
  unfolding serve
  serve-Evolves [] s v = (v, Evolves-refl s.repository)
  serve-Evolves (c ∷ cs) s v =
      let (v', e) = perform-Keeps c s v in
      let (v'', e') = serve-Evolves cs (perform env c s) v' in (v'', Evolves-trans e e')
