-- ===== src/Recovery/Repository/Guardians.antt =====
-- The methods of `MemoryRecoveryRepository` on guardians and policies
-- (services/recovery-service/app/infrastructure/persistence/memory_repository.py).
use secure_ssi_platform.Prelude.{
  ℕ, String, Bool, true, ◌&&◌, not, Option, none, some, List, leb, count, filter, find, sort_by,
  is_some, if◌then◌else◌,
}
use secure_ssi_platform.Prelude.Equality.{◌==◌, contains, none_or_eq, nat_equality, text_equality}
use secure_ssi_platform.Prelude.Dict.{values, lookup, insert}
use secure_ssi_platform.Recovery.Monad.{RecoveryError, ok, err, Exec}
use secure_ssi_platform.Recovery.Domain.States.{
  GuardianStatus, active, suspended, removed, status_equality,
}
use secure_ssi_platform.Recovery.Domain.Guardians.{Guardian, RecoveryPolicy}
use secure_ssi_platform.Recovery.Repository.State.{Repository}
use mathlib.Core.List.{[], ◌∷◌}

unfoldable pub find_guardian_assignment :
    String → String → List GuardianStatus → Repository → Option Guardian
find_guardian_assignment wallet_id guardian_user_id statuses r =
    find
      (λ g.
        g.wallet_id == wallet_id
        && g.guardian_user_id == guardian_user_id
        && contains g.status statuses)
      (values r.guardians)

unfoldable pub add_guardian : Guardian → Exec Repository Guardian
unfolding find_guardian_assignment
add_guardian g r =
    if is_some (lookup g.guardian_id r.guardians)
    then (err RecoveryError.conflict, r)
    else if is_some
        (find_guardian_assignment g.wallet_id g.guardian_user_id (active ∷ suspended ∷ []) r)
    then (err RecoveryError.conflict, r)
    else (ok g, record r { guardians = insert g.guardian_id g r.guardians })

unfoldable pub get_guardian : String → Exec Repository (Option Guardian)
get_guardian guardian_id r = (ok (lookup guardian_id r.guardians), r)

-- The filters that are `None` by default are options; `include_removed` is never given.
abbrev pub listed : Option String → Option String → Option String → Guardian → Bool
listed wallet_id owner_user_id guardian_user_id g =
    none_or_eq wallet_id g.wallet_id
    && none_or_eq owner_user_id g.owner_user_id
    && none_or_eq guardian_user_id g.guardian_user_id
    && not (g.status == removed)

unfoldable pub list_guardians :
    Option String → Option String → Option String → Exec Repository (List Guardian)
list_guardians wallet_id owner_user_id guardian_user_id r = (
  ok (
      sort_by (λ a b. leb a.created_at b.created_at)
        (filter (listed wallet_id owner_user_id guardian_user_id) (values r.guardians))),
  r,
)

-- `existing is None or existing.version != expected_version`
abbrev pub guardian_stale : Option Guardian → ℕ → Bool
guardian_stale none expected = true
guardian_stale (some g) expected = not (g.version == expected)

unfoldable pub update_guardian : Guardian → ℕ → Exec Repository Guardian
update_guardian g expected_version r =
    if guardian_stale (lookup g.guardian_id r.guardians) expected_version
    then (err RecoveryError.conflict, r)
    else (ok g, record r { guardians = insert g.guardian_id g r.guardians })

unfoldable pub count_active_guardians : Exec Repository ℕ
count_active_guardians r = (ok (count (λ g. g.status == active) (values r.guardians)), r)

unfoldable pub get_policy : String → Exec Repository (Option RecoveryPolicy)
get_policy wallet_id r = (ok (lookup wallet_id r.policies), r)

abbrev pub policy_stale : Option RecoveryPolicy → Option ℕ → Bool
policy_stale existing none = is_some existing
policy_stale none (some expected) = true
policy_stale (some p) (some expected) = not (p.version == expected)

unfoldable pub upsert_policy : RecoveryPolicy → Option ℕ → Exec Repository RecoveryPolicy
upsert_policy p expected_version r =
    if policy_stale (lookup p.wallet_id r.policies) expected_version
    then (err RecoveryError.conflict, r)
    else (ok p, record r { policies = insert p.wallet_id p r.policies })
