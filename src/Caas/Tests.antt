-- ===== src/Caas/Tests.antt =====
-- The theorems on the connector control plane (caas) at a concrete tenant and state.
mod Runs
use implement_data_space_pro.Caas.Lifecycle.Repeat.{set_desired_state-repeats, rollback-repeats}
use implement_data_space_pro.Caas.Store.Ledger.{KeepsEntry, record-replays}
use implement_data_space_pro.Caas.Store.Chain.{seal-validates}
use implement_data_space_pro.Caas.Lifecycle.Valid.{plan_named, rolled_back-valid}
use implement_data_space_pro.Caas.Lifecycle.Versions.{upgrade-rolls_back}
use implement_data_space_pro.Prelude.Map.{insert, lookup}
use implement_data_space_pro.Caas.Tenant.Validation.{
  all_entries_of, valid_phase, valid_token, valid_last_error, valid_dsaas_fence, valid_deployed,
  valid_history, valid_identifiers, valid_generations, validate_tenant,
}
use implement_data_space_pro.Caas.Data.{
  is_trace_id, DesiredState, desired_state_changed, connector_rollback_requested, want_suspended,
  Action, is_actor_identifier, is_env_reference, is_tenant_id, is_scope_id,
  caas_idempotency_conflict, is_request_key, provisioned, want_provisioned, admin, State, Event,
  is_sha256,
}
use implement_data_space_pro.Caas.Lifecycle.{
  change_desired_state, commit, desire, moved, set_desired_state, rollback, move_version,
  rolled_back, upgraded, Actor, Config,
}
use implement_data_space_pro.Caas.Tenant.{
  current_version, apply_connector_version, rollback_operation, upgrade_operation,
  remember_connector_version, find_version, public_tenant, Tenant, Plan, PublicTenant,
}
use implement_data_space_pro.Caas.Store.{
  committed, transact, replay_at, encode_idempotency_record_key, commit_entry, bound, append_audit,
  request_ledger_key, record_idempotency, validate_audit, Digests, Replay, seal_caas_state,
  idempotency_replay, validate_binding,
}
use implement_data_space_pro.Prelude.{
  ◌∙◌, sym, ok-injective, subst, Option, all, insert_sorted, eq_iff, sort_by, false, utf16_length,
  arith, ltb, err, ◌++◌, some, ◌==◌, refl, str_eq, ok, if◌then◌else◌, [], true, none, ◌∷◌, ◌≡◌,
  String, ℕ,
}

abbrev pub hex_a : String
hex_a = "aaaaaaaaaaaaaaaaaaaaaaaaaaaaaaaaaaaaaaaaaaaaaaaaaaaaaaaaaaaaaaaa"

abbrev pub hex_b : String
hex_b = "bbbbbbbbbbbbbbbbbbbbbbbbbbbbbbbbbbbbbbbbbbbbbbbbbbbbbbbbbbbbbbbb"

abbrev pub digests : Digests Tenant PublicTenant
digests = record {
  event_digest = λ u. if u.sequence == 1 then hex_a else hex_b;
  snapshot_digest = λ _ _. hex_b;
  binding_digest = λ _ snapshot. snapshot;
  encoded = λ s. s;
}

abbrev pub first_plan : Plan
first_plan = record {
  adapter_id = "files";
  runtime_profile_ref = "small";
  required_deployment_secret_names = [];
  body = "first";
}

abbrev second_plan : Plan
second_plan = record {
  adapter_id = "files";
  runtime_profile_ref = "large";
  required_deployment_secret_names = [];
  body = "second";
}

abbrev pub config : Config
config = record {
  plans = ("second", second_plan) ∷ [];
  has_adapter = λ a. str_eq a "files";
  plan_digest = λ p. if str_eq p.body "first" then hex_a else hex_b;
  string_before = λ a b. ltb (utf16_length a) (utf16_length b);
  max_audit_events = 10;
  check = λ _. ok tt;
  scoped = false;
}

abbrev pub caller : Actor
caller = record {
  role = admin;
  principal_id = "principal";
  client_id = "client";
  key_id = "key-one";
  trace_id = some "0123456789abcdef0123456789abcdef";
  correlation_id = none;
}

abbrev pub acme : Tenant
acme = record {
  tenant_id = "acme";
  organization_id = "org";
  display_name = "Acme";
  participant_id = "did:web:acme";
  namespace = "ns-acme";
  endpoint = "https://acme.example";
  adapter_id = "files";
  connector_plan_id = "first";
  connector_plan_snapshot = first_plan;
  connector_plan_digest = hex_a;
  runtime_profile_ref = "small";
  deployed_connector_plan_id = none;
  deployed_connector_plan_digest = none;
  connector_version_history = [];
  lifecycle_operation = none;
  api_access_secret_ref = "env://ACME_KEY";
  api_principal_id = "acme-principal";
  api_client_id = "acme-client";
  api_key_id = "acme-key";
  deployment_secret_refs = [];
  desired_state = want_provisioned;
  observed_state = provisioned;
  generation = 1;
  observed_generation = 1;
  created_at = 1;
  updated_at = 2;
  adapter_resource_id = some "resource";
  last_intent_digest = none;
  last_applied_fencing_token = none;
  last_error = none;
  operation_key = none;
  dataspace_id = none;
  dsaas_desired_generation = none;
  dsaas_request_digest = none;
}

abbrev pub acme_upgraded : Tenant
acme_upgraded = record acme {
  connector_version_history =
      record {
        connector_plan_id = "first";
        connector_plan_digest = hex_a;
        connector_plan_snapshot = first_plan;
        recorded_at = 5;
      }
      ∷ [];
  connector_plan_id = "second";
  connector_plan_snapshot = second_plan;
  connector_plan_digest = hex_b;
  runtime_profile_ref = "large";
  lifecycle_operation = some upgrade_operation;
  generation = 2;
  updated_at = 5;
}

abbrev acme_back : Tenant
acme_back = record acme_upgraded {
  connector_version_history =
      record {
        connector_plan_id = "first";
        connector_plan_digest = hex_a;
        connector_plan_snapshot = first_plan;
        recorded_at = 5;
      }
      ∷ record {
        connector_plan_id = "second";
        connector_plan_digest = hex_b;
        connector_plan_snapshot = second_plan;
        recorded_at = 9;
      }
      ∷ [];
  connector_plan_id = "first";
  connector_plan_snapshot = first_plan;
  connector_plan_digest = hex_a;
  runtime_profile_ref = "small";
  lifecycle_operation = some rollback_operation;
  generation = 3;
  updated_at = 9;
}

abbrev pub one_tenant : State Tenant PublicTenant
one_tenant = record {
  tenants = ("acme", acme_upgraded) ∷ [];
  requests = [];
  audit = [];
  integrity = record { snapshot_digest = hex_a; audit_head = none; binding_digest = hex_a };
}

abbrev commit_event : Event
commit_event = record {
  body = record {
    sequence = 1;
    previous_digest = none;
    occurred_at = 7;
    entry = commit_entry hex_b;
  };
  event_digest = hex_a;
}

abbrev one_sealed : State Tenant PublicTenant
one_sealed = record one_tenant {
  audit = commit_event ∷ [];
  integrity = record { snapshot_digest = hex_b; audit_head = some hex_a; binding_digest = hex_b };
}

abbrev new_replay : Replay PublicTenant
new_replay = record {
  ledger_key = "v1.desired:acme.k1";
  payload_digest = hex_a;
  result = none;
  scope_id = "acme";
}

abbrev view : PublicTenant
view = public_tenant config.string_before acme_upgraded

pub hex_b-is_sha256 : is_sha256 hex_b ≡ true
unfolding is_sha256
hex_b-is_sha256 = refl

one_tenant-chain : validate_audit digests 0 none one_tenant.audit ≡ ok none
unfolding validate_audit
one_tenant-chain = refl

one_tenant-seal : seal_caas_state digests 10 7 one_tenant ≡ ok one_sealed
unfolding seal_caas_state append_audit bound
one_tenant-seal = refl

one_tenant-replay :
    idempotency_replay digests one_tenant "desired" "acme" "k1" hex_a ≡ ok new_replay
unfolding idempotency_replay request_ledger_key encode_idempotency_record_key replay_at lookup
    is_request_key is_scope_id utf16_length
one_tenant-replay = refl

acme-upgrade : upgraded config digests "second" 5 acme ≡ ok acme_upgraded
unfolding upgraded lookup remember_connector_version move_version apply_connector_version
    current_version sort_by insert_sorted
acme-upgrade = refl

acme-rollback : rolled_back config digests hex_a 9 acme_upgraded ≡ ok acme_back
unfolding rolled_back find_version remember_connector_version move_version apply_connector_version
    current_version
acme-rollback = refl

acme-named : all plan_named acme_upgraded.connector_version_history ≡ true
unfolding utf16_length
acme-named = refl

pub acme-valid : validate_tenant config.plan_digest (λ _. true) "acme" acme_upgraded ≡ ok tt
unfolding validate_tenant valid_generations valid_identifiers valid_history valid_deployed
    valid_dsaas_fence valid_last_error valid_token valid_phase is_tenant_id is_env_reference
    is_actor_identifier all_entries_of utf16_length is_sha256
acme-valid = refl

seal-validates_example :
    (validate_binding digests one_sealed ≡ ok tt)
    × ((event : Event) × (one_sealed.audit ≡ one_tenant.audit ++ event ∷ [])
        × (event.body.entry ≡ commit_entry hex_b))
seal-validates_example =
    seal-validates digests 10 7 one_tenant one_sealed none hex_b-is_sha256 one_tenant-chain refl
      one_tenant-seal

record-replays_example :
    (idempotency_replay digests
        (record_idempotency one_tenant new_replay view 3)
        "desired"
        "acme"
        "k1"
        hex_a
      ≡ ok (record new_replay { result = some view }))
    × (idempotency_replay digests
          (record_idempotency one_tenant new_replay view 3)
          "desired"
          "acme"
          "k1"
          hex_b
        ≡ err caas_idempotency_conflict)
record-replays_example =
    record-replays digests one_tenant "desired" "acme" "k1" hex_a hex_b new_replay view 3
      one_tenant-replay refl (λ h. ground (arith, eq_iff hex_a hex_b))

upgrade-rolls_back_example :
    (t'' : Tenant) × (rolled_back config digests hex_a 9 acme_upgraded ≡ ok t'')
    × (t''.connector_plan_id ≡ "first")
    × (t''.connector_plan_snapshot ≡ first_plan)
    × (t''.connector_plan_digest ≡ hex_a)
    × (t''.adapter_id ≡ "files")
    × (t''.runtime_profile_ref ≡ "small")
    × (t''.generation ≡ 3)
upgrade-rolls_back_example =
    upgrade-rolls_back config digests "second" 5 9 acme acme_upgraded acme-upgrade refl
      (omega arith) refl

rolled_back-valid_example : validate_tenant config.plan_digest (λ _. true) "acme" acme_back ≡ ok tt
rolled_back-valid_example =
    rolled_back-valid config digests (λ _. true) hex_a "acme" 9 acme_upgraded acme_back acme-valid
      acme-named (omega arith) acme-rollback

-- The state after `acme` is told to suspend.
abbrev acme_suspended : Tenant
acme_suspended = record acme_upgraded {
  desired_state = want_suspended;
  generation = 3;
  updated_at = 8;
  lifecycle_operation = none;
}

abbrev command_event : Action → Option DesiredState → Option String → Option String → ℕ → Event
command_event action desired plan_id digest now = record {
  body = record {
    sequence = 1;
    previous_digest = none;
    occurred_at = now;
    entry = record {
      action = action;
      tenant_id = some "acme";
      actor_role = admin;
      actor_principal_id = "principal";
      actor_client_id = "client";
      actor_key_id = "key-one";
      trace_id = some "0123456789abcdef0123456789abcdef";
      correlation_id = none;
      generation = some 3;
      desired_state = desired;
      connector_plan_id = plan_id;
      connector_plan_digest = digest;
      state_snapshot_digest = none;
      observed_state = none;
      operation_key = none;
      error_code = none;
      evidence = [];
    };
  };
  event_digest = hex_a;
}

abbrev suspended_view : PublicTenant
suspended_view = public_tenant config.string_before acme_suspended

abbrev suspended_state : State Tenant PublicTenant
suspended_state = record one_tenant {
  tenants = ("acme", acme_suspended) ∷ [];
  requests =
      (
        "v1.desired:acme.k1",
        record {
          scope_id = some "acme";
          payload_digest = hex_a;
          completed_at = 8;
          result = suspended_view;
        },
      )
      ∷ [];
  audit = command_event desired_state_changed (some want_suspended) none none 8 ∷ [];
}

abbrev back_view : PublicTenant
back_view = public_tenant config.string_before acme_back

abbrev back_state : State Tenant PublicTenant
back_state = record one_tenant {
  tenants = ("acme", acme_back) ∷ [];
  requests =
      (
        "v1.rollback:acme.k2",
        record {
          scope_id = some "acme";
          payload_digest = hex_b;
          completed_at = 9;
          result = back_view;
        },
      )
      ∷ [];
  audit = command_event connector_rollback_requested none (some "first") (some hex_a) 9 ∷ [];
}

-- What the seal makes of a state with one event.
abbrev sealed_event : ℕ → Event
sealed_event now = record {
  body = record {
    sequence = 2;
    previous_digest = some hex_a;
    occurred_at = now;
    entry = commit_entry hex_b;
  };
  event_digest = hex_b;
}

abbrev with_seal : ℕ → State Tenant PublicTenant → State Tenant PublicTenant
with_seal now s = record s {
  audit = s.audit ++ sealed_event now ∷ [];
  integrity = record { snapshot_digest = hex_b; audit_head = some hex_b; binding_digest = hex_b };
}

-- A later state: the tenant has changed again, and another request was answered.
abbrev later_than : Tenant → PublicTenant → State Tenant PublicTenant → State Tenant PublicTenant
later_than t answer s = record s {
  tenants = ("acme", record t { generation = 7 }) ∷ [];
  requests =
      (
        "v1.upgrade:acme.k9",
        record {
          scope_id = some "acme";
          payload_digest = hex_a;
          completed_at = 20;
          result = answer;
        },
      )
      ∷ s.requests;
}

abbrev suspended_later : State Tenant PublicTenant
suspended_later = later_than acme_suspended suspended_view (with_seal 8 suspended_state)

abbrev back_later : State Tenant PublicTenant
back_later = later_than acme_back back_view (with_seal 9 back_state)

acme-suspend :
    transact digests 10 8 config.check
      (set_desired_state config digests caller "acme" "k1" hex_a want_suspended 8)
      one_tenant
    ≡ ok (suspended_view, with_seal 8 suspended_state)
unfolding transact committed seal_caas_state bound set_desired_state idempotency_replay
    request_ledger_key encode_idempotency_record_key replay_at lookup insert is_request_key
    is_scope_id is_actor_identifier is_trace_id utf16_length desire change_desired_state commit
    append_audit record_idempotency
acme-suspend = refl

acme-roll :
    transact digests 10 9 config.check
      (rollback config digests caller "acme" "k2" hex_b hex_a 9)
      one_tenant
    ≡ ok (back_view, with_seal 9 back_state)
unfolding transact committed seal_caas_state bound rollback moved rolled_back find_version
    remember_connector_version move_version apply_connector_version current_version
    idempotency_replay request_ledger_key encode_idempotency_record_key replay_at lookup insert
    is_request_key is_scope_id is_actor_identifier is_trace_id utf16_length commit append_audit
    record_idempotency
acme-roll = refl

desired-key : request_ledger_key digests "desired" "acme" "k1" ≡ ok "v1.desired:acme.k1"
unfolding request_ledger_key encode_idempotency_record_key is_request_key is_scope_id utf16_length
desired-key = refl

rollback-key : request_ledger_key digests "rollback" "acme" "k2" ≡ ok "v1.rollback:acme.k2"
unfolding request_ledger_key encode_idempotency_record_key is_request_key is_scope_id utf16_length
rollback-key = refl

suspended_later-KeepsEntry :
    KeepsEntry digests "desired" "acme" "k1" suspended_state.requests suspended_later.requests
unfolding lookup
suspended_later-KeepsEntry = (
  λ k e.
      subst (λ x. lookup x suspended_later.requests ≡ lookup x suspended_state.requests)
        (ok-injective (sym desired-key ∙ e)) refl,
  refl,
)

back_later-KeepsEntry :
    KeepsEntry digests "rollback" "acme" "k2" back_state.requests back_later.requests
unfolding lookup
back_later-KeepsEntry = (
  λ k e.
      subst (λ x. lookup x back_later.requests ≡ lookup x back_state.requests)
        (ok-injective (sym rollback-key ∙ e)) refl,
  refl,
)

set_desired_state-repeats_example :
    transact digests 10 98 config.check
      (set_desired_state config digests caller "acme" "k1" hex_a want_suspended 97)
      suspended_later
    ≡ ok (suspended_view, suspended_later)
set_desired_state-repeats_example =
    set_desired_state-repeats config digests caller "acme" "k1" hex_a want_suspended 8 8 97 98
      one_tenant (with_seal 8 suspended_state) suspended_later
      (record acme_suspended { generation = 7 }) suspended_view acme-suspend
      suspended_later-KeepsEntry (unfold lookup in refl) refl refl refl

rollback-repeats_example :
    transact digests 10 98 config.check
      (rollback config digests caller "acme" "k2" hex_b hex_a 97)
      back_later
    ≡ ok (back_view, back_later)
rollback-repeats_example =
    rollback-repeats config digests caller "acme" "k2" hex_b hex_a 9 9 97 98 one_tenant
      (with_seal 9 back_state) back_later (record acme_back { generation = 7 }) back_view acme-roll
      back_later-KeepsEntry (unfold lookup in refl) refl refl
