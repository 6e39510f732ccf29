-- ===== src/Caas/Register.antt =====
-- The registration of a tenant (caas/service.mjs, register), with its aborts left out. The operation is
-- the one that the transaction runs on its state: with the scoped store that state is the scope of the
-- tenant, in which the loops find no other tenant, and its registry has to tell tenants apart.
pub mod Distinct
use implement_data_space_pro.Caas.Secrets.{
  Derived, IdentityPolicy, secret_equal, resolve_environment_secret, tenant_identity,
  validate_deployment_secret_reference,
}
use implement_data_space_pro.Caas.Reconcile.{event_entry}
use implement_data_space_pro.Caas.Tenant.{sorted_keys, Plan, PublicTenant, Tenant}
use implement_data_space_pro.Caas.Store.{idempotency_replay, Replay, Digests}
use implement_data_space_pro.Caas.Data.{
  caas_actor_invalid, caas_tenant_exists, caas_identity_collision, caas_secret_collision,
  caas_actor_id_collision, caas_adapter_not_found, caas_plan_not_allowed, caas_secret_ref_invalid,
  not_provisioned, want_deprovisioned, tenant_registered, State, Entry, Result,
}
use implement_data_space_pro.Prelude.Map.{lookup, Map}
use implement_data_space_pro.Caas.Lifecycle.{commit, valid_caller, same_names, Actor, Config}
use implement_data_space_pro.Prelude.{
  is_some, not, err, assert_runtime, ◌>>=◌, ◌>>◌, sort_by, [], filter, if◌then◌else◌, some, ◌&&◌,
  none, ◌∷◌, Option, ok, str_eq, true, any, List, Bool, String, ℕ,
}

pub record Registration : Type 0 where
  pub tenant_id : String
  pub organization_id : String
  pub display_name : String
  pub adapter_id : String
  pub runtime_profile_ref : String
  pub api_access_secret_ref : String
  pub api_principal_id : String
  pub api_client_id : String
  pub api_key_id : String
  pub deployment_secret_refs : Map String

pub record Registrar : Type 0 where
  -- this.config.environment !== "production"
  pub static_authentication : Bool
  pub env : String → Option String
  pub identity_policy : IdentityPolicy
  -- The secret references of the administrator and, if there is one, of the controller.
  pub reserved_secret_refs : List String
  pub reserved_client_ids : List String
  pub reserved_key_ids : List String
  pub request_digest : Registration → String

abbrev member : String → List String → Bool
member s names = any (λ n. secret_equal s n) names

unfoldable pub valid_references : Map String → Bool
valid_references [] = true
valid_references ((_, reference) ∷ m) =
    validate_deployment_secret_reference reference && valid_references m

module _ (c : Config) (d : Digests Tenant PublicTenant) (g : Registrar) where
  -- A plan that the request names by its adapter, its profile and its secrets.
  plan_matches : Registration → String × Plan → Bool
  plan_matches request (_, plan) =
      str_eq plan.adapter_id request.adapter_id
      && str_eq plan.runtime_profile_ref request.runtime_profile_ref
      && same_names (sort_by c.string_before plan.required_deployment_secret_names)
          (sorted_keys c.string_before request.deployment_secret_refs)

  only_one : List (String × Plan) → Result (String × Plan)
  only_one (found ∷ []) = ok found
  only_one _ = err caas_plan_not_allowed

  unfoldable pub registration_plan : Registration → Result (String × Plan)
  unfolding plan_matches only_one
  registration_plan request = only_one (filter (plan_matches request) c.plans)

  resolve_all : List String → Result (List String)
  resolve_all [] = ok []
  resolve_all (reference ∷ references) =
      let rest = resolve_all references in
      resolve_environment_secret reference g.env >>= λ secret.
      (rest >>= λ secrets. ok (secret ∷ secrets))

  unfoldable pub static_checks : Registration → Result (Option String)
  unfolding resolve_all
  static_checks request =
      if g.static_authentication
      then (do
        secret ← resolve_environment_secret request.api_access_secret_ref g.env
        reserved ← resolve_all g.reserved_secret_refs
        assert_runtime (not (member secret reserved)) caas_secret_collision
        assert_runtime
            (not (member request.api_client_id g.reserved_client_ids)
              && not (member request.api_key_id g.reserved_key_ids))
            caas_actor_id_collision
        ok (some secret))
      else ok none

  -- The first loop over the tenants: no credential and no identifier comes twice.
  unfoldable pub credentials_differ : Option String → Registration → Map Tenant → Result (Unit {0})
  credentials_differ none request tenants = ok tt
  credentials_differ (some secret) request [] = ok tt
  credentials_differ (some secret) request ((_, t) ∷ tenants) =
      let rest = credentials_differ (some secret) request tenants in
      resolve_environment_secret t.api_access_secret_ref g.env >>= λ other.
      assert_runtime (not (secret_equal secret other)) caas_secret_collision
      >> assert_runtime
          (not (str_eq request.api_client_id t.api_client_id)
            && not (str_eq request.api_key_id t.api_key_id))
          caas_actor_id_collision
      >> rest

  -- The second loop: no derived name comes twice.
  unfoldable pub names_differ : Derived → Map Tenant → Result (Unit {0})
  names_differ derived [] = ok tt
  names_differ derived ((_, t) ∷ tenants) =
      let rest = names_differ derived tenants in
      assert_runtime
        (not (str_eq t.participant_id derived.participant_id)
          && not (str_eq t.namespace derived.namespace)
          && not (str_eq t.endpoint derived.endpoint))
        caas_identity_collision
      >> rest

  unfoldable pub new_tenant : Registration → String → Plan → ℕ → Tenant
  new_tenant request plan_id plan now = record {
    tenant_id = request.tenant_id;
    organization_id = request.organization_id;
    display_name = request.display_name;
    participant_id = (tenant_identity g.identity_policy request.tenant_id).participant_id;
    namespace = (tenant_identity g.identity_policy request.tenant_id).namespace;
    endpoint = (tenant_identity g.identity_policy request.tenant_id).endpoint;
    adapter_id = request.adapter_id;
    connector_plan_id = plan_id;
    connector_plan_snapshot = plan;
    connector_plan_digest = c.plan_digest plan;
    runtime_profile_ref = request.runtime_profile_ref;
    deployed_connector_plan_id = none;
    deployed_connector_plan_digest = none;
    connector_version_history = [];
    lifecycle_operation = none;
    api_access_secret_ref = request.api_access_secret_ref;
    api_principal_id = request.api_principal_id;
    api_client_id = request.api_client_id;
    api_key_id = request.api_key_id;
    deployment_secret_refs = request.deployment_secret_refs;
    desired_state = want_deprovisioned;
    observed_state = not_provisioned;
    generation = 0;
    observed_generation = 0;
    created_at = now;
    updated_at = now;
    adapter_resource_id = none;
    last_intent_digest = none;
    last_applied_fencing_token = none;
    last_error = none;
    operation_key = none;
    dataspace_id = none;
    dsaas_desired_generation = none;
    dsaas_request_digest = none;
  }

  registered_entry : Actor → Registration → Tenant → Entry
  unfolding event_entry
  registered_entry actor request t =
      event_entry actor tenant_registered request.tenant_id t (some (g.request_digest request) ∷ [])

  -- The transaction of `register`, for a request that the ledger does not know.
  unfoldable pub admit :
      Actor
      → Registration
      → Option String
      → String
      → Plan
      → ℕ
      → Replay PublicTenant
      → State Tenant PublicTenant
      → Result (PublicTenant × State Tenant PublicTenant)
  unfolding registered_entry
  admit actor request secret plan_id plan now replay state = do
    assert_runtime (not (is_some (lookup request.tenant_id state.tenants))) caas_tenant_exists
    credentials_differ secret request state.tenants
    names_differ (tenant_identity g.identity_policy request.tenant_id) state.tenants
    let t = new_tenant request plan_id plan now
    commit c d replay request.tenant_id (registered_entry actor request t) now t state

  -- `if (replay.result) return replay.result;`
  abbrev or_replayed :
      Option PublicTenant
      → State Tenant PublicTenant
      → Result (PublicTenant × State Tenant PublicTenant)
      → Result (PublicTenant × State Tenant PublicTenant)
  or_replayed (some result) state fresh = ok (result, state)
  or_replayed none state fresh = fresh

  unfoldable pub register :
      Actor
      → String
      → Registration
      → ℕ
      → State Tenant PublicTenant
      → Result (PublicTenant × State Tenant PublicTenant)
  unfolding static_checks valid_references
  register actor key request now state = do
    assert_runtime (valid_references request.deployment_secret_refs) caas_secret_ref_invalid
    assert_runtime (c.has_adapter request.adapter_id) caas_adapter_not_found
    plan ← registration_plan request
    secret ← static_checks request
    assert_runtime (valid_caller actor) caas_actor_invalid
    replay ← idempotency_replay d state "register" request.tenant_id key (g.request_digest request)
    or_replayed replay.result state (admit actor request secret plan.0 plan.1 now replay state)
