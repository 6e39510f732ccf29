-- ===== src/Caas/Tenant/Validation.antt =====
-- The tests of `validateCaasState` on one tenant (caas/store.mjs). `valid_reference` stands for
-- validateDeploymentSecretReference, `plan_digest` for SHA-256 of canonical JSON.
use implement_data_space_pro.Prelude.Map.{Map}
use implement_data_space_pro.Caas.Data.{
  caas_state_secret_violation, is_env_reference, caas_state_invalid, is_tenant_id, all_codes, ◌>>◌,
  deprovisioning, deleting, suspending, rolling_back, is_sha256, upgrading, is_actor_identifier,
  provisioned, provisioning, Result, Phase,
}
use implement_data_space_pro.Caas.Tenant.{Version, LastError, Tenant, Plan}
use Prim.Native.Char.{code}
use implement_data_space_pro.Prelude.{
  length, assert_runtime, max_safe_integer, any, str_eq, [], none, ◌==◌, ◌∷◌, is_some, some,
  utf16_length, ◌||◌, List, leb, ◌&&◌, not, true, false, Option, String, Bool, ℕ,
}

abbrev pub is_filled : String → Bool
is_filled s = leb 1 (utf16_length s)

abbrev is_filled? : Option String → Bool
is_filled? none = false
is_filled? (some s) = is_filled s

abbrev is_sha256? : Option String → Bool
is_sha256? none = false
is_sha256? (some s) = is_sha256 s

unfoldable pub all_entries_of : (String → Bool) → Map String → Bool
all_entries_of p [] = true
all_entries_of p ((_, value) ∷ m) = p value && all_entries_of p m

-- The identifiers that must not be empty, and those of the caller.
unfoldable pub valid_identifiers : Tenant → Bool
valid_identifiers t =
    is_filled t.organization_id
    && is_filled t.participant_id
    && is_filled t.namespace
    && is_filled t.endpoint
    && is_filled t.adapter_id
    && is_filled t.connector_plan_id
    && is_filled t.runtime_profile_ref
    && is_filled t.api_principal_id
    && is_filled t.api_client_id
    && is_filled t.api_key_id
    && is_actor_identifier t.api_principal_id
    && is_actor_identifier t.api_client_id
    && is_actor_identifier t.api_key_id

unfoldable pub valid_generations : Tenant → Bool
valid_generations t =
    leb t.generation max_safe_integer
    && leb t.observed_generation max_safe_integer
    && leb t.observed_generation t.generation

-- The loop over the history: each digest is that of its plan, and none comes twice.
unfoldable pub valid_history : (Plan → String) → List String → List Version → Bool
valid_history plan_digest seen [] = true
valid_history plan_digest seen (version ∷ versions) =
    is_filled version.connector_plan_id
    && str_eq version.connector_plan_digest (plan_digest version.connector_plan_snapshot)
    && not (any (λ s. str_eq s version.connector_plan_digest) seen)
    && valid_history plan_digest (version.connector_plan_digest ∷ seen) versions

unfoldable pub valid_deployed : Tenant → Bool
valid_deployed t =
    (not (is_some t.deployed_connector_plan_digest) && not (is_some t.deployed_connector_plan_id))
    || (is_sha256? t.deployed_connector_plan_digest && is_filled? t.deployed_connector_plan_id)

abbrev at_least_one : Option ℕ → Bool
at_least_one none = false
at_least_one (some n) = leb 1 n && leb n max_safe_integer

abbrev both_or_none : Option ℕ → Option String → Bool
both_or_none none none = true
both_or_none (some _) (some _) = true
both_or_none _ _ = false

unfoldable pub valid_dsaas_fence : Tenant → Bool
valid_dsaas_fence t =
    both_or_none t.dsaas_desired_generation t.dsaas_request_digest
    && (not (is_some t.dsaas_desired_generation)
        || (at_least_one t.dsaas_desired_generation
            && is_sha256? t.dsaas_request_digest
            && is_filled? t.dataspace_id))

error_code_char : ℕ → Bool
error_code_char c =
    (leb 65 c && leb c 90) || (leb 48 c && leb c 57) || c == 95 || c == 58 || c == 45

-- persistedErrorCode, /^[A-Z0-9_:-]{1,64}$/u
unfoldable pub is_error_code : String → Bool
unfolding error_code_char all_codes
is_error_code s = all_codes error_code_char s && leb 1 (utf16_length s) && leb (utf16_length s) 64

unfoldable pub valid_last_error : Option LastError → Bool
unfolding is_error_code
valid_last_error none = true
valid_last_error (some e) = is_error_code e.code && leb (utf16_length e.message) 256

-- /^[1-9][0-9]*$/u
unfoldable pub is_fencing_token : String → Bool
unfolding all_codes
is_fencing_token String.[] = false
is_fencing_token (String.◌∷◌ c s) =
    (leb 49 (code c) && leb (code c) 57) && all_codes (λ n. leb 48 n && leb n 57) s

unfoldable pub valid_token : Option String → Bool
unfolding is_fencing_token
valid_token none = true
valid_token (some s) = is_fencing_token s

abbrev in_flight : Phase → Bool
in_flight provisioning = true
in_flight upgrading = true
in_flight rolling_back = true
in_flight suspending = true
in_flight deleting = true
in_flight deprovisioning = true
in_flight _ = false

abbrev pub is_provisioned : Phase → Bool
is_provisioned provisioned = true
is_provisioned _ = false

unfoldable pub valid_phase : Tenant → Bool
valid_phase t =
    (not (in_flight t.observed_state) || is_sha256? t.operation_key)
    && (not (is_provisioned t.observed_state) || is_filled? t.adapter_resource_id)

module _ (plan_digest : Plan → String) (valid_reference : String → Bool) where
  unfoldable pub validate_tenant : String → Tenant → Result (Unit {0})
  validate_tenant key t = do
    assert_runtime (str_eq t.tenant_id key && is_tenant_id key) caas_state_invalid
    assert_runtime (valid_generations t) caas_state_invalid
    assert_runtime (is_env_reference t.api_access_secret_ref) caas_state_secret_violation
    assert_runtime (all_entries_of valid_reference t.deployment_secret_refs)
        caas_state_secret_violation
    assert_runtime (valid_identifiers t) caas_state_invalid
    assert_runtime (str_eq t.connector_plan_digest (plan_digest t.connector_plan_snapshot))
        caas_state_invalid
    assert_runtime (leb (length t.connector_version_history) 64) caas_state_invalid
    assert_runtime (valid_history plan_digest [] t.connector_version_history) caas_state_invalid
    assert_runtime (valid_deployed t) caas_state_invalid
    assert_runtime (valid_dsaas_fence t) caas_state_invalid
    assert_runtime (valid_last_error t.last_error) caas_state_invalid
    assert_runtime (valid_token t.last_applied_fencing_token) caas_state_invalid
    assert_runtime (valid_phase t) caas_state_invalid
