-- ===== src/Caas/Lifecycle/Valid.antt =====
-- The commands leave a tenant that the validation of the next load accepts (caas/service.mjs
-- against validateCaasState of caas/store.mjs).
use implement_data_space_pro.Caas.Data.{is_env_reference, is_tenant_id}
use implement_data_space_pro.Caas.Tenant.Validation.{
  valid_phase, valid_token, valid_last_error, valid_dsaas_fence, valid_deployed, all_entries_of,
  valid_generations, valid_identifiers, validate_tenant, is_filled, valid_history,
}
use implement_data_space_pro.Caas.Store.{Digests}
use implement_data_space_pro.Caas.Lifecycle.{move_version, rolled_back, Config}
use implement_data_space_pro.Caas.Tenant.{
  rollback_operation, has_version, Lifecycle, apply_connector_version, PublicTenant, find_version,
  current_version, remember_connector_version, Tenant, Version, Plan,
}
use implement_data_space_pro.Prelude.{
  ap, ◌∙◌, sym, subst, leb, refl, length-append, Result-cases, inr, inl, ◌++◌, Option-cases,
  Bool-cases, eq_iff, arith, false, max_safe_integer, [], ◌∷◌, str_eq, ◌<◌, ◌≤◌, some, all, any,
  length, true, ok, ◌≡◌, ◌&&◌, List, Bool, String, ℕ,
}

-- The plan of a version names an adapter and a profile.
abbrev pub plan_named : Version → Bool
plan_named v =
    is_filled v.connector_plan_snapshot.adapter_id
    && is_filled v.connector_plan_snapshot.runtime_profile_ref

module _ (plan_digest : Plan → String) where
  valid_history-append :
      (version : Version) (seen : List String) (history : List Version)
      → valid_history plan_digest seen history ≡ true
      → is_filled version.connector_plan_id ≡ true
      → version.connector_plan_digest ≡ plan_digest version.connector_plan_snapshot
      → any (λ s. str_eq s version.connector_plan_digest) seen ≡ false
      → has_version version.connector_plan_digest history ≡ false
      → valid_history plan_digest seen (history ++ version ∷ []) ≡ true
  unfolding valid_history
  valid_history-append version seen [] h f s n m =
      ground
        (arith, eq_iff version.connector_plan_digest (plan_digest version.connector_plan_snapshot))
  valid_history-append version seen (v ∷ history) h f s n m =
      ground (arith, valid_history-append version (v.connector_plan_digest ∷ seen) history)

  -- A version of a valid history has an id and the digest of its plan.
  valid_history-found :
      (digest : String) (seen : List String) (history : List Version) (version : Version)
      → valid_history plan_digest seen history ≡ true
      → find_version digest history ≡ some version
      → (is_filled version.connector_plan_id ≡ true)
        × (version.connector_plan_digest ≡ plan_digest version.connector_plan_snapshot)
  unfolding valid_history find_version
  valid_history-found digest seen [] version h f = cc
  valid_history-found digest seen (v ∷ history) version h f = ground (
    arith,
    valid_history-found digest (v.connector_plan_digest ∷ seen) history version,
    eq_iff v.connector_plan_digest (plan_digest v.connector_plan_snapshot),
  )

  -- Remembering a version keeps the history valid, and within its bound.
  remember-valid :
      (t t' : Tenant) (now : ℕ)
      → is_filled t.connector_plan_id ≡ true
      → t.connector_plan_digest ≡ plan_digest t.connector_plan_snapshot
      → length t.connector_version_history ≤ 64
      → valid_history plan_digest [] t.connector_version_history ≡ true
      → remember_connector_version t now ≡ ok t'
      → (h : List Version) × (t' ≡ record t { connector_version_history = h })
        × (length h ≤ 64)
        × (valid_history plan_digest [] h ≡ true)
  unfolding remember_connector_version current_version
  remember-valid t t' now f s b h e =
      elim (Bool-cases (has_version t.connector_plan_digest t.connector_version_history)) [
        | inl known ↦ (t.connector_version_history, ground (arith, known), b, h)
        | inr new ↦
            let version = current_version t now in
            (
              t.connector_version_history ++ version ∷ [],
              ground (arith, new),
              ground (arith, new, length-append t.connector_version_history (version ∷ [])),
              valid_history-append version [] t.connector_version_history h f s refl new,
            )
      ]

find_version-all :
    (p : Version → Bool) (digest : String) (history : List Version) (version : Version)
    → all p history ≡ true
    → find_version digest history ≡ some version
    → p version ≡ true
unfolding find_version
find_version-all p digest [] version h f = cc
find_version-all p digest (v ∷ history) version h f =
    ground (arith, find_version-all p digest history version)

-- What a rollback to a version writes.
moved_to : ℕ → Version → Tenant → Tenant
moved_to now target =
    move_version rollback_operation target.connector_plan_id target.connector_plan_snapshot
      target.connector_plan_digest now

-- The tests that a valid tenant passes, one by one.
pub record IsValid (plan_digest : Plan → String) (valid_reference : String → Bool) (key : String)
    (t : Tenant) : Type 0 where
  pub keyed : (str_eq t.tenant_id key && is_tenant_id key) ≡ true
  pub generations : valid_generations t ≡ true
  pub env : is_env_reference t.api_access_secret_ref ≡ true
  pub references : all_entries_of valid_reference t.deployment_secret_refs ≡ true
  pub identifiers : valid_identifiers t ≡ true
  pub snapshot : str_eq t.connector_plan_digest (plan_digest t.connector_plan_snapshot) ≡ true
  pub room : leb (length t.connector_version_history) 64 ≡ true
  pub history : valid_history plan_digest [] t.connector_version_history ≡ true
  pub deployed : valid_deployed t ≡ true
  pub fence : valid_dsaas_fence t ≡ true
  pub error : valid_last_error t.last_error ≡ true
  pub token : valid_token t.last_applied_fencing_token ≡ true
  pub phase : valid_phase t ≡ true

module _ (plan_digest : Plan → String) (valid_reference : String → Bool) where
  pub validate-parts :
      (key : String) (t : Tenant)
      → validate_tenant plan_digest valid_reference key t ≡ ok tt
      → IsValid plan_digest valid_reference key t
  unfolding validate_tenant
  validate-parts key t v = ground arith

  pub validate-whole :
      (key : String) (t : Tenant)
      → IsValid plan_digest valid_reference key t
      → validate_tenant plan_digest valid_reference key t ≡ ok tt
  unfolding validate_tenant
  validate-whole key t h =
      rw
        (
          h.keyed, h.generations, h.env, h.references, h.identifiers, h.snapshot, h.room, h.history,
          h.deployed, h.fence, h.error, h.token, h.phase,
        )
        refl

module _ (c : Config) (d : Digests Tenant PublicTenant) (valid_reference : String → Bool) where
  -- A tenant that has its version moved is valid if the tenant before was, the history is valid,
  -- and the plan is named, has its digest, an adapter and a profile.
  move_version-IsValid :
      (operation : Lifecycle) (plan_id digest key : String) (plan : Plan) (now : ℕ) (t : Tenant)
      (h : List Version)
      → IsValid c.plan_digest valid_reference key t
      → length h ≤ 64
      → valid_history c.plan_digest [] h ≡ true
      → is_filled plan_id ≡ true
      → is_filled plan.adapter_id ≡ true
      → is_filled plan.runtime_profile_ref ≡ true
      → digest ≡ c.plan_digest plan
      → t.generation < max_safe_integer
      → IsValid c.plan_digest valid_reference key (
          move_version operation plan_id plan digest now
            (record t { connector_version_history = h }))
  unfolding move_version apply_connector_version valid_generations valid_deployed valid_dsaas_fence
      valid_phase valid_identifiers valid_last_error
  move_version-IsValid operation plan_id digest key plan now t h v b w f a p s g = record {
    keyed = v.keyed;
    generations = let old = v.generations in ground (arith, old);
    env = v.env;
    references = v.references;
    identifiers = let old = v.identifiers in ground (arith, old);
    snapshot = (eq_iff digest (c.plan_digest plan)).1 s;
    room = ground arith;
    history = w;
    deployed = v.deployed;
    fence = v.fence;
    error = refl;
    token = v.token;
    phase = v.phase;
  }

  -- A rollback of a valid tenant leaves a valid one, while the generation is below the greatest safe
  -- integer and the plans of the history name an adapter and a profile.
  pub rolled_back-valid :
      (target_digest key : String) (now : ℕ) (t t' : Tenant)
      → validate_tenant c.plan_digest valid_reference key t ≡ ok tt
      → all plan_named t.connector_version_history ≡ true
      → t.generation < max_safe_integer
      → rolled_back c d target_digest now t ≡ ok t'
      → validate_tenant c.plan_digest valid_reference key t' ≡ ok tt
  unfolding rolled_back
  rolled_back-valid target_digest key now t t' v n g e =
      elim (Option-cases (find_version target_digest t.connector_version_history)) [
        | inl missing ↦ ground (arith, missing)
        | inr (target, found) ↦ elim (Result-cases (remember_connector_version t now)) [
          | inr (code, failed) ↦ ground (arith, found, failed)
          | inl (kept, done) ↦
              let old = validate-parts c.plan_digest valid_reference key t v in
              let ids = old.identifiers in
              let bound = old.room in
              let (h, same, bounded, valid) =
                remember-valid c.plan_digest t kept now
                  (unfold valid_identifiers in ground (arith, ids))
                  ((eq_iff t.connector_plan_digest (c.plan_digest t.connector_plan_snapshot)).0
                    old.snapshot)
                  (ground (arith, bound)) old.history done in
              let version =
                valid_history-found c.plan_digest target_digest [] t.connector_version_history
                  target old.history found in
              let named =
                find_version-all plan_named target_digest t.connector_version_history target n
                  found in
              let written : t' ≡ moved_to now target kept =
                unfold moved_to in ground (arith, found, done) in
              let moved =
                move_version-IsValid rollback_operation target.connector_plan_id
                  target.connector_plan_digest key target.connector_plan_snapshot now t h old
                  bounded valid version.0 (ground (arith, named)) (ground (arith, named)) version.1
                  g in
              validate-whole c.plan_digest valid_reference key t' (
                subst (IsValid c.plan_digest valid_reference key)
                  (sym (written ∙ ap (moved_to now target) same)) (unfold moved_to in moved))
        ]
      ]
