-- ===== src/Caas/Tests/Runs.antt =====
-- The theorems on convergence and registration (caas/service.mjs) at a concrete tenant.
use implement_data_space_pro.Caas.Secrets.{
  replace_first, tenant_identity, resolve_environment_secret,
}
use implement_data_space_pro.Caas.Register.Distinct.{register-AreDistinct, AreDistinct}
use implement_data_space_pro.Caas.Reconcile.Valid.{transactions-valid}
use implement_data_space_pro.Caas.Register.{
  names_differ, credentials_differ, admit, valid_references, static_checks, registration_plan,
  register, Registration, Registrar, new_tenant,
}
use implement_data_space_pro.Caas.Reconcile.Fence.{execute-fenced}
use implement_data_space_pro.Caas.Reconcile.Converge.{reconcile-converges}
use implement_data_space_pro.Caas.Tenant.Validation.{
  all_entries_of, valid_phase, valid_token, valid_last_error, is_error_code, valid_dsaas_fence,
  valid_deployed, valid_history, valid_identifiers, valid_generations, validate_tenant,
  is_fencing_token, is_filled,
}
use implement_data_space_pro.Caas.Tests.{
  hex_b-is_sha256, acme-valid, acme, second_plan, caller, digests, one_tenant, hex_a, config,
  acme_upgraded, hex_b,
}
use implement_data_space_pro.Caas.Store.Append.{HasRoom}
use implement_data_space_pro.Prelude.Map.{insert, lookup}
use implement_data_space_pro.Caas.Lifecycle.{same_names, commit, valid_caller}
use implement_data_space_pro.Caas.Store.{
  append_audit, replay_at, encode_idempotency_record_key, request_ledger_key, Replay,
  idempotency_replay,
}
use implement_data_space_pro.Caas.Data.{
  is_trace_id, all_codes, after_prefix, is_env_reference, is_tenant_id, Result, is_scope_id,
  is_request_key, want_provisioned, is_sha256, upgrading, is_actor_identifier, State,
}
use implement_data_space_pro.Caas.Tenant.{public_tenant, PublicTenant, Tenant}
use implement_data_space_pro.Caas.Reconcile.{
  finished_tenant, failed_tenant, same_phase, Env, reconcile_locked, issued, confirmed,
  pending_tenant, execute, Operator,
}
use implement_data_space_pro.Caas.Observe.{
  validate_operational_observation, assert_fencing_capability, observe_operational,
  pending_observed_state, AdapterResult, observation_converged, validate_adapter_result,
  Observation, Provisioner, final_observed_state,
}
use implement_data_space_pro.Prelude.{
  ◌∙◌, sym, eq_iff, filter, insert_sorted, sort_by, str_eq, err, if◌then◌else◌, subst, is_error,
  ◌∷◌, utf16_length, refl, none, true, false, arith, [], some, ◌≡◌, Option, ok, String,
}

abbrev p : Provisioner
p = record { intent_only = false; has_observe = true; fencing_capable = true }

abbrev op : Operator
op = record {
  provisioner = λ _. p;
  operation_key = λ _. hex_a;
  request_digest = λ _ _. hex_b;
  result_digest = λ _. hex_a;
  observation_digest = λ _. hex_b;
}

-- A tenant that is to be provisioned, in a lease with the token 7.
abbrev stuck : Tenant
stuck = record acme_upgraded { observed_state = upgrading }

abbrev lease : Option String
lease = some "7"

abbrev stuck_state : State Tenant PublicTenant
stuck_state = record one_tenant { tenants = ("acme", stuck) ∷ [] }

abbrev answer : AdapterResult
answer = record {
  adapter_resource_id = "resource";
  intent_digest = hex_b;
  converged = true;
  fencing_accepted = true;
  fencing_token = lease;
}

abbrev seen : Observation
seen = record {
  exists = true;
  converged = true;
  adapter_resource_id = some "resource";
  intent_digest = some hex_b;
  operation_key = some hex_a;
  generation = some 2;
  desired_state = some want_provisioned;
  last_applied_fencing_token = lease;
}

abbrev quiet : Env
quiet = record {
  observe_intent = ok (record { exists = true; intent_digest = some (some hex_b) });
  observe_runtime = ok seen;
  command = ok answer;
  observe_again = ok seen;
  before_prepare = λ s. s;
  before_finish = λ s. s;
  prepared_at = 11;
  prepared_sealed_at = 11;
  finished_at = 12;
  finished_sealed_at = 12;
  failure_code = "adapter_failed";
}

abbrev emptied : State Tenant PublicTenant
emptied = record stuck_state {
  tenants = [];
  integrity = record { snapshot_digest = hex_b; audit_head = none; binding_digest = hex_b };
}

-- Another writer removes the tenant while the provisioner works.
abbrev disturbed : Env
disturbed = record quiet { before_finish = λ _. emptied }

abbrev new_run : Replay PublicTenant
new_run = record {
  ledger_key = "v1.reconcile:acme.k3";
  payload_digest = hex_b;
  result = none;
  scope_id = "acme";
}

abbrev pending : Tenant
pending = record stuck { operation_key = some hex_a; updated_at = 11 }

answer-valid : validate_adapter_result answer lease ≡ ok answer
unfolding validate_adapter_result is_filled is_sha256 utf16_length
answer-valid = refl

quiet-issued : issued config digests op caller "acme" "k3" lease quiet p ≡ ok answer
unfolding issued assert_fencing_capability validate_adapter_result is_filled is_sha256 utf16_length
quiet-issued = refl

quiet-confirmed : confirmed config digests op caller "acme" "k3" lease quiet p ≡ ok (some seen)
unfolding confirmed observe_operational assert_fencing_capability validate_operational_observation
    is_filled is_sha256 is_fencing_token utf16_length
quiet-confirmed = refl

seen-converged :
    observation_converged seen pending hex_a (some hex_b) (some "resource") lease ≡ true
unfolding observation_converged
seen-converged = refl

stuck-replay : idempotency_replay digests stuck_state "reconcile" "acme" "k3" hex_b ≡ ok new_run
unfolding idempotency_replay request_ledger_key encode_idempotency_record_key replay_at lookup
    is_request_key is_scope_id utf16_length
stuck-replay = refl

stuck-same : pending ≡ pending_tenant hex_a 11 stuck
unfolding pending_tenant pending_observed_state
stuck-same = refl

caller-valid : valid_caller caller ≡ true
unfolding valid_caller is_actor_identifier is_trace_id utf16_length
caller-valid = refl

stuck-there : lookup "acme" stuck_state.tenants ≡ some stuck
unfolding lookup
stuck-there = refl

not_yet : same_phase stuck.observed_state (final_observed_state stuck.desired_state) ≡ false
unfolding final_observed_state
not_yet = refl

stuck-HasRoom : HasRoom 4 10 11 stuck_state
stuck-HasRoom = record { room = omega arith; in_time = refl }

reconcile-converges_example :
    let done = reconcile_locked config digests op caller "acme" "k3" lease quiet stuck_state in
    (t' : Tenant) × (done.answer ≡ ok (public_tenant config.string_before t'))
    × (lookup "acme" done.state.tenants ≡ some t')
    × (t'.observed_state ≡ final_observed_state want_provisioned)
    × (t'.observed_generation ≡ t'.generation)
    × (t'.generation ≡ 2)
    × (t'.operation_key ≡ none)
    × (t'.last_error ≡ none)
reconcile-converges_example =
    reconcile-converges config digests op caller "acme" "k3" lease quiet stuck_state stuck new_run
      answer seen caller-valid stuck-there refl refl not_yet refl (λ s. refl) stuck-replay refl
      stuck-HasRoom (omega arith) (omega arith) (omega arith) refl (λ a x s e f. refl)
      (λ a s e b x y f g. refl) quiet-issued quiet-confirmed
      (subst (λ t. observation_converged seen t hex_a (some hex_b) (some "resource") lease ≡ true)
        stuck-same seen-converged)

execute-fenced_example :
    let done =
      execute config digests op caller "acme" "k3" lease disturbed new_run pending stuck_state in
    (is_error done.answer ≡ true) × (done.state ≡ emptied)
execute-fenced_example =
    execute-fenced config digests op caller "acme" "k3" lease disturbed new_run pending stuck_state
      (unfold lookup in refl) refl

pending-valid : validate_tenant config.plan_digest (λ _. true) "acme" pending ≡ ok tt
unfolding validate_tenant valid_generations valid_identifiers valid_history valid_deployed
    valid_dsaas_fence valid_last_error valid_token valid_phase is_tenant_id is_env_reference
    is_actor_identifier all_entries_of utf16_length is_sha256
pending-valid = refl

hex_a-is_sha256 : is_sha256 hex_a ≡ true
unfolding is_sha256
hex_a-is_sha256 = refl

transactions-valid_example :
    let valid = validate_tenant config.plan_digest (λ _. true) "acme" in
    (valid (pending_tenant hex_a 11 acme_upgraded) ≡ ok tt)
    × (valid (failed_tenant lease "CAAS_ADAPTER_FAILED" 11 acme_upgraded) ≡ ok tt)
    × (valid (finished_tenant p lease true answer 11 pending) ≡ ok tt)
transactions-valid_example =
    transactions-valid config.plan_digest (λ _. true) "acme" p lease true answer 11 hex_a
      "CAAS_ADAPTER_FAILED" acme_upgraded pending acme-valid pending-valid refl hex_a-is_sha256
      hex_b-is_sha256 (unfold is_error_code utf16_length in refl) (unfold valid_token in refl)
      answer-valid

abbrev registrar : Registrar
registrar = record {
  static_authentication = true;
  env = λ name.
      if str_eq name "ADMIN_KEY"
      then some "administrator-key"
      else if str_eq name "OTHER_KEY"
      then some "a-key-of-the-other"
      else some "a-key-of-the-first";
  identity_policy = record {
    participant_id_template = "did:web:{tenantId}";
    namespace_template = "ns-{tenantId}";
    endpoint_template = "https://{tenantId}.example";
  };
  reserved_secret_refs = "env://ADMIN_KEY" ∷ [];
  reserved_client_ids = "admin-client" ∷ [];
  reserved_key_ids = "admin-key" ∷ [];
  request_digest = λ _. hex_a;
}

abbrev request : Registration
request = record {
  tenant_id = "other";
  organization_id = "org-two";
  display_name = "Other";
  adapter_id = "files";
  runtime_profile_ref = "large";
  api_access_secret_ref = "env://OTHER_KEY";
  api_principal_id = "other-principal";
  api_client_id = "other-client";
  api_key_id = "other-key";
  deployment_secret_refs = [];
}

abbrev after : Result (PublicTenant × State Tenant PublicTenant) → State Tenant PublicTenant
after (ok (_, s)) = s
after (err _) = one_tenant

abbrev given : Result (PublicTenant × State Tenant PublicTenant) → PublicTenant
given (ok (v, _)) = v
given (err _) = public_tenant config.string_before acme

abbrev other : Tenant
other = new_tenant config digests registrar request "second" second_plan 5

abbrev registered : Result (PublicTenant × State Tenant PublicTenant)
registered = register config digests registrar caller "k4" request 5 one_tenant

request-register : registered ≡ ok (given registered, after registered)
unfolding register registration_plan static_checks valid_references valid_caller is_actor_identifier
    is_trace_id utf16_length idempotency_replay request_ledger_key encode_idempotency_record_key
    replay_at lookup is_request_key is_scope_id admit credentials_differ names_differ commit
    append_audit insert sort_by insert_sorted filter new_tenant same_names
    resolve_environment_secret tenant_identity replace_first after_prefix all_codes
request-register = refl

only-acme : (k : String) (t : Tenant) → lookup k one_tenant.tenants ≡ some t → "acme" ≡ k
unfolding lookup
only-acme k t h = ground (arith, eq_iff "acme" k)

one_tenant-AreDistinct : AreDistinct one_tenant.tenants
one_tenant-AreDistinct k j t u hk hj apart =
    elim (apart (sym (only-acme k t hk) ∙ only-acme j u hj)) [ ]

register-AreDistinct_example : AreDistinct (after registered).tenants
register-AreDistinct_example =
    register-AreDistinct config digests registrar caller "k4" request 5 one_tenant
      (after registered) (given registered) one_tenant-AreDistinct request-register
