-- ===== src/Caas/Observe.antt =====
-- What a provisioner observes and answers (caas/service.mjs): the validation of both, and the test
-- that an observation has converged. A field that is null or missing is none.
use implement_data_space_pro.Caas.Tenant.Validation.{is_fencing_token, is_filled}
use implement_data_space_pro.Caas.Lifecycle.{same_desired}
use implement_data_space_pro.Caas.Tenant.{rollback_operation, upgrade_operation, Lifecycle, Tenant}
use implement_data_space_pro.Caas.Data.{
  caas_adapter_fencing_not_enforced, caas_adapter_contract_invalid, is_sha256,
  caas_adapter_observation_invalid, caas_provisioner_contract_invalid, want_deprovisioned,
  deprovisioning, deleting, suspending, want_deleted, not_provisioned, provisioning,
  caas_provisioner_fencing_required, rolling_back, deleted, upgrading, suspended, want_suspended,
  provisioned, want_provisioned, Phase, Result, DesiredState,
}
use implement_data_space_pro.Prelude.{
  ◌>>=◌, ◌>>◌, not, max_safe_integer, assert_runtime, none, str_eq, ◌==◌, leb, if◌then◌else◌, some,
  ok, ◌&&◌, false, true, String, Bool, Option, ℕ,
}

pub record Observation : Type 0 where
  pub exists : Bool
  pub converged : Bool
  pub adapter_resource_id : Option String
  pub intent_digest : Option String
  pub operation_key : Option String
  pub generation : Option ℕ
  pub desired_state : Option DesiredState
  pub last_applied_fencing_token : Option String

pub record AdapterResult : Type 0 where
  pub adapter_resource_id : String
  pub intent_digest : String
  pub converged : Bool
  pub fencing_accepted : Bool
  pub fencing_token : Option String

-- What the configuration says of a provisioner.
pub record Provisioner : Type 0 where
  pub intent_only : Bool
  pub has_observe : Bool
  pub fencing_capable : Bool

abbrev null_or : (String → Bool) → Option String → Bool
null_or p none = true
null_or p (some s) = p s

abbrev null_or_safe : Option ℕ → Bool
null_or_safe none = true
null_or_safe (some n) = leb n max_safe_integer

unfoldable pub validate_operational_observation : Observation → Result Observation
validate_operational_observation o = do
  assert_runtime (null_or is_filled o.adapter_resource_id) caas_adapter_observation_invalid
  assert_runtime (null_or is_sha256 o.intent_digest) caas_adapter_observation_invalid
  assert_runtime (null_or is_sha256 o.operation_key) caas_adapter_observation_invalid
  assert_runtime (null_or_safe o.generation) caas_adapter_observation_invalid
  assert_runtime (null_or is_fencing_token o.last_applied_fencing_token)
      caas_adapter_observation_invalid
  ok o

-- `a === b` where one side is a string that is there: null and undefined never equal it, nor each
-- other.
abbrev pub both : Option String → Option String → Bool
both (some a) (some b) = str_eq a b
both _ _ = false

-- `(a ?? null) === (b ?? null)`
abbrev pub same : Option String → Option String → Bool
same none none = true
same (some a) (some b) = str_eq a b
same _ _ = false

abbrev is_generation : Option ℕ → ℕ → Bool
is_generation none g = false
is_generation (some n) g = n == g

abbrev is_desired : Option DesiredState → DesiredState → Bool
is_desired none s = false
is_desired (some o) s = same_desired o s

-- The test of the fencing token, which a null expectation skips.
abbrev is_token : Option String → Option String → Bool
is_token none seen = true
is_token (some expected) seen = both seen (some expected)

-- ["PROVISIONED", "SUSPENDED"].includes(desiredState)
abbrev pub keeps_resource : DesiredState → Bool
keeps_resource want_provisioned = true
keeps_resource want_suspended = true
keeps_resource _ = false

unfoldable pub observation_converged :
    Observation → Tenant → String → Option String → Option String → Option String → Bool
observation_converged o t op_key intent_digest adapter_resource_id expected_token =
    o.converged
    && both o.operation_key (some op_key)
    && is_generation o.generation t.generation
    && is_desired o.desired_state t.desired_state
    && both o.intent_digest intent_digest
    && is_token expected_token o.last_applied_fencing_token
    && (if keeps_resource t.desired_state
        then o.exists && both o.adapter_resource_id adapter_resource_id
        else not o.exists)

unfoldable pub assert_fencing_capability : Provisioner → Option String → Result (Unit {0})
assert_fencing_capability p none = ok tt
assert_fencing_capability p (some token) =
    assert_runtime p.fencing_capable caas_provisioner_fencing_required

abbrev accepted : AdapterResult → Option String → Bool
accepted r none = true
accepted r (some token) = r.fencing_accepted && both r.fencing_token (some token)

unfoldable pub validate_adapter_result : AdapterResult → Option String → Result AdapterResult
validate_adapter_result r token = do
  assert_runtime (is_filled r.adapter_resource_id && is_sha256 r.intent_digest)
      caas_adapter_contract_invalid
  assert_runtime (accepted r token) caas_adapter_fencing_not_enforced
  ok r

-- `observeOperational`, given what the provisioner answers.
unfoldable pub observe_operational :
    Provisioner → Option String → Result Observation → Result Observation
unfolding assert_fencing_capability validate_operational_observation
observe_operational p token answer = do
  assert_runtime p.has_observe caas_provisioner_contract_invalid
  assert_fencing_capability p token
  o ← answer
  validate_operational_observation o

unfoldable pub final_observed_state : DesiredState → Phase
final_observed_state want_provisioned = provisioned
final_observed_state want_suspended = suspended
final_observed_state want_deleted = deleted
final_observed_state want_deprovisioned = not_provisioned

unfoldable pub pending_observed_state : Tenant → Phase
pending_observed_state t = pending t.desired_state t.lifecycle_operation
  where
    pending : DesiredState → Option Lifecycle → Phase
    pending want_provisioned (some upgrade_operation) = upgrading
    pending want_provisioned (some rollback_operation) = rolling_back
    pending want_provisioned none = provisioning
    pending want_suspended _ = suspending
    pending want_deleted _ = deleting
    pending want_deprovisioned _ = deprovisioning
