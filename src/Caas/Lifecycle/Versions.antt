-- ===== src/Caas/Lifecycle/Versions.antt =====
-- The versions of a tenant's connector: what upgrade and rollback make of them (caas/service.mjs).
use implement_data_space_pro.Prelude.Map.{lookup}
use implement_data_space_pro.Caas.Store.{Digests}
use implement_data_space_pro.Caas.Lifecycle.{upgraded, rolled_back, move_version, Config}
use implement_data_space_pro.Caas.Tenant.{
  rollback_operation, upgrade_operation, current_version, Plan, apply_connector_version,
  PublicTenant, has_version, Tenant, Version, remember_connector_version, find_version,
}
use implement_data_space_pro.Prelude.{
  ap, refl, inr, length-append, Option-cases, eq_iff, arith, [], ◌+◌, str_eq, inl, true, ◌∷◌,
  Bool-cases, ◌++◌, some, false, String, ok, ◌≡◌, ◌<◌, length, List, ℕ,
}

find_version-append :
    (version : Version) (history : List Version)
    → has_version version.connector_plan_digest history ≡ false
    → find_version version.connector_plan_digest (history ++ version ∷ []) ≡ some version
unfolding find_version
find_version-append version [] h =
    ground (arith, eq_iff version.connector_plan_digest version.connector_plan_digest)
find_version-append version (v ∷ history) h = ground (arith, find_version-append version history)

-- The history gets the current version at its end, if it has room and does not hold it yet.
remembered :
    (t : Tenant) (now : ℕ)
    → has_version t.connector_plan_digest t.connector_version_history ≡ false
    → length t.connector_version_history < 64
    → remember_connector_version t now
      ≡ ok (record t {
        connector_version_history = t.connector_version_history ++ current_version t now ∷ [];
      })
unfolding remember_connector_version
remembered t now h r = ground arith

-- With room in the history, the current version is always remembered.
remember-ok :
    (t : Tenant) (now : ℕ)
    → length t.connector_version_history < 64
    → (h : List Version) × (remember_connector_version t now
        ≡ ok (record t { connector_version_history = h }))
unfolding remember_connector_version
remember-ok t now r =
    elim (Bool-cases (has_version t.connector_plan_digest t.connector_version_history)) [
      | inl known ↦ (t.connector_version_history, ground (arith, known))
      | inr new ↦ (t.connector_version_history ++ current_version t now ∷ [], ground (arith, new))
    ]

module _ (c : Config) (d : Digests Tenant PublicTenant) where
  -- What an upgrade that passes its guards has found and writes.
  upgraded-writes :
      (plan_id : String) (now : ℕ) (t t' : Tenant)
      → upgraded c d plan_id now t ≡ ok t'
      → has_version t.connector_plan_digest t.connector_version_history ≡ false
      → length t.connector_version_history < 64
      → (plan : Plan) × (str_eq (c.plan_digest plan) t.connector_plan_digest ≡ false)
        × (t'
            ≡ move_version upgrade_operation plan_id plan (c.plan_digest plan) now (record t {
              connector_version_history = t.connector_version_history ++ current_version t now ∷ [];
            }))
  unfolding upgraded
  upgraded-writes plan_id now t t' e h r = elim (Option-cases (lookup plan_id c.plans)) [
    | inl missing ↦ ground (arith, missing)
    | inr (plan, found) ↦ (plan, ground (arith, found), ground (arith, found, remembered t now h r))
  ]

  rolled_back-ok :
      (target : Version) (digest : String) (now : ℕ) (t : Tenant)
      → find_version digest t.connector_version_history ≡ some target
      → str_eq target.connector_plan_digest t.connector_plan_digest ≡ false
      → c.has_adapter target.connector_plan_snapshot.adapter_id ≡ true
      → length t.connector_version_history < 64
      → (h : List Version) × (rolled_back c d digest now t
          ≡ ok (
              move_version rollback_operation target.connector_plan_id
                target.connector_plan_snapshot target.connector_plan_digest now
                (record t { connector_version_history = h })))
  unfolding rolled_back
  rolled_back-ok target digest now t f s a r =
      let (h, kept) = remember-ok t now r in (h, ground (arith, f, s, a, kept))

  -- After an upgrade of a version that is not yet in a history with two free places, a rollback to
  -- its digest succeeds while its adapter is configured: it restores the plan's id, its snapshot,
  -- its digest, the adapter and the profile of that snapshot, and it is the second generation after.
  pub upgrade-rolls_back :
      (plan_id : String) (now later : ℕ) (t t' : Tenant)
      → upgraded c d plan_id now t ≡ ok t'
      → has_version t.connector_plan_digest t.connector_version_history ≡ false
      → length t.connector_version_history < 63
      → c.has_adapter t.connector_plan_snapshot.adapter_id ≡ true
      → (t'' : Tenant) × (rolled_back c d t.connector_plan_digest later t' ≡ ok t'')
        × (t''.connector_plan_id ≡ t.connector_plan_id)
        × (t''.connector_plan_snapshot ≡ t.connector_plan_snapshot)
        × (t''.connector_plan_digest ≡ t.connector_plan_digest)
        × (t''.adapter_id ≡ t.connector_plan_snapshot.adapter_id)
        × (t''.runtime_profile_ref ≡ t.connector_plan_snapshot.runtime_profile_ref)
        × (t''.generation ≡ t.generation + 2)
  unfolding move_version apply_connector_version current_version
  upgrade-rolls_back plan_id now later t t' e h r a =
      let version = current_version t now in
      let (plan, differs, same) = upgraded-writes plan_id now t t' e h (omega arith) in
      let other : str_eq t.connector_plan_digest (c.plan_digest plan) ≡ false = ground (
        arith,
        differs,
        eq_iff (c.plan_digest plan) t.connector_plan_digest,
        eq_iff t.connector_plan_digest (c.plan_digest plan),
      ) in
      let found = find_version-append version t.connector_version_history h in
      let room = length-append t.connector_version_history (version ∷ []) in
      let next : t'.generation ≡ t.generation + 1 = ap (λ (s : Tenant). s.generation) same in
      let (h', done) =
        rolled_back-ok version t.connector_plan_digest later t' (rw same found) (rw same other) a
          (rw same (omega (arith, room))) in
      (_, done, refl, refl, refl, refl, refl, omega (arith, next))
