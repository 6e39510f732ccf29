-- ===== src/Caas/Data.antt =====
-- The values of the connector control plane (molit-dataspace/src/caas: store.mjs, service.mjs).
use implement_data_space_pro.Prelude.Map.{Map}
use Prim.Native.Char.{code}
use implement_data_space_pro.Prelude.{
  if◌then◌else◌, none, some, ◌==◌, not, ◌+◌, leb, List, ◌&&◌, ◌||◌, false, true, ltb, String, Bool,
  Throws, Option, ℕ,
}
pub use implement_data_space_pro.Prelude.{
  max_safe_integer, ok, err, ◌>>=◌, ◌>>◌, assert_runtime, Result-cases, ok-injective,
}

pub data Code : Type 0 where
  caas_state_invalid caas_audit_actor_invalid caas_audit_chain_invalid : Code
  caas_state_snapshot_invalid caas_audit_capacity_exceeded caas_clock_rollback : Code
  caas_idempotency_key_required caas_idempotency_scope_invalid caas_idempotency_conflict : Code
  idempotency_record_key_invalid caas_tenant_not_found caas_dsaas_lifecycle_locked : Code
  caas_upgrade_forbidden caas_upgrade_state_invalid caas_plan_not_allowed : Code
  caas_adapter_not_found caas_upgrade_no_change caas_upgrade_secret_set_mismatch : Code
  caas_version_history_capacity caas_rollback_forbidden caas_rollback_target_not_found : Code
  caas_rollback_no_change caas_actor_invalid caas_state_secret_violation : Code
  caas_provisioner_contract_invalid caas_adapter_fencing_state_missing : Code
  caas_adapter_observation_invalid caas_provisioner_fencing_required : Code
  caas_adapter_contract_invalid caas_adapter_fencing_not_enforced : Code
  caas_reconcile_fence_violation caas_adapter_failed caas_tenant_exists : Code
  caas_unauthorized caas_secret_ref_invalid caas_secret_unavailable caas_identity_collision
        caas_secret_collision caas_actor_id_collision :
      Code

abbrev pub Result {ℓ} : Type ℓ → Type ℓ
Result A = Throws Code A

pub data DesiredState : Type 0 where
  want_provisioned want_suspended want_deleted want_deprovisioned : DesiredState

pub data Phase : Type 0 where
  not_provisioned provisioning provisioned upgrading rolling_back suspending suspended : Phase
  deleting deleted deprovisioning intent_ready error : Phase

pub data Role : Type 0 where
  admin controller tenant system : Role

pub data Action : Type 0 where
  state_committed tenant_registered desired_state_changed desired_state_confirmed : Action
  connector_upgrade_requested connector_rollback_requested : Action
  intent_drift_detected runtime_drift_detected reconcile_started : Action
  reconcile_completed reconcile_failed : Action

abbrev pub is_committed : Action → Bool
is_committed state_committed = true
is_committed _ = false

-- What an audit event says, besides its place in the chain. A field that the event of an action
-- does not have is none.
pub record Entry : Type 0 where
  pub action : Action
  pub tenant_id : Option String
  pub actor_role : Role
  pub actor_principal_id : String
  pub actor_client_id : String
  pub actor_key_id : String
  pub trace_id : Option String
  pub correlation_id : Option String
  pub generation : Option ℕ
  pub desired_state : Option DesiredState
  pub connector_plan_id : Option String
  pub connector_plan_digest : Option String
  pub state_snapshot_digest : Option String
  pub observed_state : Option Phase
  pub operation_key : Option String
  pub error_code : Option String
  -- The other fields that the event of an action lists: digests and tokens, null where it says so.
  pub evidence : List (Option String)

-- An event without its own digest, `unsigned`.
pub record Unsigned : Type 0 where
  pub sequence : ℕ
  pub previous_digest : Option String
  pub occurred_at : ℕ
  pub entry : Entry

pub record Event : Type 0 where
  pub body : Unsigned
  pub event_digest : String

pub record Integrity : Type 0 where
  pub snapshot_digest : String
  pub audit_head : Option String
  pub binding_digest : String

-- An entry of the idempotency ledger.
pub record Request (R : Type 0) : Type 0 where
  pub scope_id : Option String
  pub payload_digest : String
  pub completed_at : ℕ
  pub result : R

-- `T` is the type of a tenant, `R` that of what a command answers.
pub record State (T R : Type 0) : Type 0 where
  pub tenants : Map T
  pub requests : Map (Request R)
  pub audit : List Event
  pub integrity : Integrity

abbrev ascii_control : ℕ → Bool
ascii_control c = ltb c 32 || c == 127

-- The characters of \s.
abbrev pub space : ℕ → Bool
space c =
    (leb 9 c && leb c 13)
    || c == 32
    || c == 160
    || c == 5760
    || (leb 8192 c && leb c 8202)
    || c == 8232
    || c == 8233
    || c == 8239
    || c == 8287
    || c == 12288
    || c == 65279

unfoldable pub all_codes : (ℕ → Bool) → String → Bool
all_codes p String.[] = true
all_codes p (String.◌∷◌ c s) = p (code c) && all_codes p s

-- The number of code points, which a pattern with the flag u counts.
code_points : String → ℕ
code_points String.[] = 0
code_points (String.◌∷◌ c s) = 1 + code_points s

-- /^[^\s\u0000-\u001f\u007f]{3,256}$/u
unfoldable pub is_actor_identifier : String → Bool
unfolding all_codes code_points
is_actor_identifier s =
    all_codes (λ c. not (space c || ascii_control c)) s
    && leb 3 (code_points s)
    && leb (code_points s) 256

-- /^[^\u0000-\u001f\u007f]{1,256}$/u
unfoldable pub is_request_key : String → Bool
unfolding all_codes code_points
is_request_key s =
    all_codes (λ c. not (ascii_control c)) s && leb 1 (code_points s) && leb (code_points s) 256

abbrev pub lower : ℕ → Bool
lower c = leb 97 c && leb c 122

abbrev pub digit : ℕ → Bool
digit c = leb 48 c && leb c 57

starts_lower : String → Bool
starts_lower String.[] = false
starts_lower (String.◌∷◌ c s) = lower (code c)

-- /^[a-z][a-z0-9-]{0,62}$/u
unfoldable pub is_scope_id : String → Bool
unfolding all_codes code_points starts_lower
is_scope_id s =
    starts_lower s && all_codes (λ c. lower c || digit c || c == 45) s && leb (code_points s) 63

abbrev hex : ℕ → Bool
hex c = digit c || (leb 97 c && leb c 102)

-- /^[a-f0-9]{32}$/u
unfoldable pub is_trace_id : String → Bool
unfolding all_codes code_points
is_trace_id s = all_codes hex s && code_points s == 32

abbrev alphanumeric : ℕ → Bool
alphanumeric c = lower c || digit c || (leb 65 c && leb c 90)

starts_alphanumeric : String → Bool
starts_alphanumeric String.[] = false
starts_alphanumeric (String.◌∷◌ c s) = alphanumeric (code c)

-- /^[A-Za-z0-9][A-Za-z0-9._:-]{7,127}$/u
unfoldable pub is_correlation_id : String → Bool
unfolding all_codes code_points starts_alphanumeric
is_correlation_id s =
    starts_alphanumeric s
    && all_codes (λ c. alphanumeric c || c == 46 || c == 95 || c == 58 || c == 45) s
    && leb 8 (code_points s)
    && leb (code_points s) 128

-- /^[a-f0-9]{64}$/u
unfoldable pub is_sha256 : String → Bool
unfolding all_codes code_points
is_sha256 s = all_codes (λ c. digit c || (leb 97 c && leb c 102)) s && code_points s == 64

-- /^[a-z][a-z0-9-]{2,62}$/u
unfoldable pub is_tenant_id : String → Bool
unfolding all_codes code_points starts_lower
is_tenant_id s =
    starts_lower s
    && all_codes (λ c. lower c || digit c || c == 45) s
    && leb 3 (code_points s)
    && leb (code_points s) 63

unfoldable pub after_prefix : String → String → Option String
after_prefix String.[] s = some s
after_prefix (String.◌∷◌ c p) String.[] = none
after_prefix (String.◌∷◌ c p) (String.◌∷◌ e s) =
    let rest = after_prefix p s in if code c == code e then rest else none

abbrev pub upper : ℕ → Bool
upper c = (leb 65 c && leb c 90) || c == 95

env_name : Option String → Bool
unfolding all_codes
env_name none = false
env_name (some String.[]) = false
env_name (some (String.◌∷◌ c s)) = upper (code c) && all_codes (λ n. upper n || digit n) s

-- /^env:\/\/[A-Z_][A-Z0-9_]*$/u
unfoldable pub is_env_reference : String → Bool
unfolding after_prefix env_name
is_env_reference s = env_name (after_prefix "env://" s)
