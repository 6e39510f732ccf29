-- ===== src/Caas/Tenant.antt =====
-- A tenant of the connector control plane: its public view and the versions of its connector
-- (caas/service.mjs), and the validation of its state (caas/store.mjs).
pub mod Validation
use implement_data_space_pro.Prelude.Map.{Map}
use implement_data_space_pro.Caas.Data.{caas_version_history_capacity, Phase, DesiredState, Result}
use mathlib.Core.Option
use implement_data_space_pro.Prelude.{
  ◌++◌, ◌>>◌, length, [], some, ltb, ◌∷◌, str_eq, assert_runtime, sort_by, map, none, any, ok,
  Option, Bool, List, if◌then◌else◌, String, ℕ,
}

-- What the control plane reads of a connector plan.
pub record Plan : Type 0 where
  pub adapter_id : String
  pub runtime_profile_ref : String
  pub required_deployment_secret_names : List String
  pub body : String

pub record Version : Type 0 where
  pub connector_plan_id : String
  pub connector_plan_digest : String
  pub connector_plan_snapshot : Plan
  pub recorded_at : ℕ

pub data Lifecycle : Type 0 where
  upgrade_operation rollback_operation : Lifecycle

pub record LastError : Type 0 where
  pub code : String
  pub message : String

pub record Tenant : Type 0 where
  pub tenant_id : String
  pub organization_id : String
  pub display_name : String
  pub participant_id : String
  pub namespace : String
  pub endpoint : String
  pub adapter_id : String
  pub connector_plan_id : String
  pub connector_plan_snapshot : Plan
  pub connector_plan_digest : String
  pub runtime_profile_ref : String
  pub deployed_connector_plan_id : Option String
  pub deployed_connector_plan_digest : Option String
  pub connector_version_history : List Version
  pub lifecycle_operation : Option Lifecycle
  pub api_access_secret_ref : String
  pub api_principal_id : String
  pub api_client_id : String
  pub api_key_id : String
  pub deployment_secret_refs : Map String
  pub desired_state : DesiredState
  pub observed_state : Phase
  pub generation : ℕ
  pub observed_generation : ℕ
  pub created_at : ℕ
  pub updated_at : ℕ
  pub adapter_resource_id : Option String
  pub last_intent_digest : Option String
  pub last_applied_fencing_token : Option String
  pub last_error : Option LastError
  pub operation_key : Option String
  pub dataspace_id : Option String
  pub dsaas_desired_generation : Option ℕ
  pub dsaas_request_digest : Option String

-- An entry of the version history as it is shown, without the plan itself.
pub record ShownVersion : Type 0 where
  pub connector_plan_id : String
  pub connector_plan_digest : String
  pub recorded_at : ℕ

-- What `publicTenant` shows.
pub record PublicTenant : Type 0 where
  pub tenant_id : String
  pub organization_id : String
  pub display_name : String
  pub participant_id : String
  pub namespace : String
  pub endpoint : String
  pub adapter_id : String
  pub connector_plan_id : String
  pub connector_plan_digest : String
  pub deployed_connector_plan_id : Option String
  pub deployed_connector_plan_digest : Option String
  pub connector_version_history : List ShownVersion
  pub lifecycle_operation : Option Lifecycle
  pub runtime_profile_ref : String
  pub api_principal_id : String
  pub api_client_id : String
  pub api_key_id : String
  pub dataspace_id : Option String
  pub deployment_secret_names : List String
  pub desired_state : DesiredState
  pub observed_state : Phase
  pub generation : ℕ
  pub observed_generation : ℕ
  pub adapter_resource_id : Option String
  pub last_error : Option LastError
  pub created_at : ℕ
  pub updated_at : ℕ

shown_version : Version → ShownVersion
shown_version version = record {
  connector_plan_id = version.connector_plan_id;
  connector_plan_digest = version.connector_plan_digest;
  recorded_at = version.recorded_at;
}

-- Object.keys(value).sort(), with the order of strings as an argument.
abbrev pub sorted_keys : (String → String → Bool) → Map String → List String
sorted_keys string_before value = sort_by string_before (map (λ (k, _). k) value)

unfoldable pub public_tenant : (String → String → Bool) → Tenant → PublicTenant
unfolding shown_version
public_tenant string_before tenant = record {
  tenant_id = tenant.tenant_id;
  organization_id = tenant.organization_id;
  display_name = tenant.display_name;
  participant_id = tenant.participant_id;
  namespace = tenant.namespace;
  endpoint = tenant.endpoint;
  adapter_id = tenant.adapter_id;
  connector_plan_id = tenant.connector_plan_id;
  connector_plan_digest = tenant.connector_plan_digest;
  deployed_connector_plan_id = tenant.deployed_connector_plan_id;
  deployed_connector_plan_digest = tenant.deployed_connector_plan_digest;
  connector_version_history = map shown_version tenant.connector_version_history;
  lifecycle_operation = tenant.lifecycle_operation;
  runtime_profile_ref = tenant.runtime_profile_ref;
  api_principal_id = tenant.api_principal_id;
  api_client_id = tenant.api_client_id;
  api_key_id = tenant.api_key_id;
  dataspace_id = tenant.dataspace_id;
  deployment_secret_names = sorted_keys string_before tenant.deployment_secret_refs;
  desired_state = tenant.desired_state;
  observed_state = tenant.observed_state;
  generation = tenant.generation;
  observed_generation = tenant.observed_generation;
  adapter_resource_id = tenant.adapter_resource_id;
  last_error = tenant.last_error;
  created_at = tenant.created_at;
  updated_at = tenant.updated_at;
}

abbrev pub has_version : String → List Version → Bool
has_version digest history = any (λ (v : Version). str_eq v.connector_plan_digest digest) history

unfoldable pub current_version : Tenant → ℕ → Version
current_version tenant now = record {
  connector_plan_id = tenant.connector_plan_id;
  connector_plan_digest = tenant.connector_plan_digest;
  connector_plan_snapshot = tenant.connector_plan_snapshot;
  recorded_at = now;
}

unfoldable pub remember_connector_version : Tenant → ℕ → Result Tenant
unfolding current_version
remember_connector_version tenant now =
    if has_version tenant.connector_plan_digest tenant.connector_version_history
    then ok tenant
    else assert_runtime (ltb (length tenant.connector_version_history) 64)
        caas_version_history_capacity
      >> ok (record tenant {
        connector_version_history =
            tenant.connector_version_history ++ current_version tenant now ∷ [];
      })

unfoldable pub apply_connector_version : Tenant → String → Plan → String → Tenant
apply_connector_version tenant plan_id plan digest = record tenant {
  connector_plan_id = plan_id;
  connector_plan_snapshot = plan;
  connector_plan_digest = digest;
  adapter_id = plan.adapter_id;
  runtime_profile_ref = plan.runtime_profile_ref;
}

unfoldable pub find_version : String → List Version → Option Version
find_version digest [] = none
find_version digest (version ∷ versions) =
    if str_eq version.connector_plan_digest digest
    then some version
    else find_version digest versions
