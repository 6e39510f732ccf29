-- ===== src/Caas/Lifecycle.antt =====
-- The commands of a tenant's connector (caas/service.mjs): setDesiredState, upgrade and rollback.
-- Each is the operation that one transaction of the store runs on its state, given what the caller's
-- contract has validated and the digest of the request.
pub mod Repeat
pub mod Versions
pub mod Valid
use implement_data_space_pro.Caas.Tenant.Validation.{is_provisioned}
use implement_data_space_pro.Caas.Store.{
  idempotency_replay, append_audit, record_idempotency, Replay, Digests,
}
use implement_data_space_pro.Caas.Tenant.{
  upgrade_operation, sorted_keys, rollback_operation, remember_connector_version, find_version,
  public_tenant, PublicTenant, Version, Lifecycle, Plan, Tenant, apply_connector_version,
}
use implement_data_space_pro.Caas.Data.{
  is_correlation_id, is_trace_id, caas_upgrade_secret_set_mismatch, connector_upgrade_requested,
  connector_rollback_requested, caas_upgrade_no_change, caas_upgrade_forbidden,
  caas_rollback_no_change, caas_rollback_forbidden, caas_dsaas_lifecycle_locked,
  caas_adapter_not_found, caas_upgrade_state_invalid, caas_actor_invalid, ◌>>=◌, ◌>>◌,
  want_suspended, want_deleted, want_deprovisioned, desired_state_changed, desired_state_confirmed,
  caas_rollback_target_not_found, caas_tenant_not_found, caas_plan_not_allowed, State,
  want_provisioned, Result, system, is_actor_identifier, Entry, tenant, admin, Role, DesiredState,
  Action,
}
use implement_data_space_pro.Prelude.Map.{lookup, insert, Map}
use mathlib.Core.Option
use implement_data_space_pro.Prelude.{
  ◌∷◌, sort_by, str_eq, ◌||◌, not, assert_runtime, [], utf16_length, if◌then◌else◌, none, err, ok,
  leb, some, ◌+◌, ◌&&◌, true, String, false, Option, Bool, List, ℕ,
}

pub record Config : Type 0 where
  pub plans : Map Plan
  pub has_adapter : String → Bool
  pub plan_digest : Plan → String
  pub string_before : String → String → Bool
  pub max_audit_events : ℕ
  -- What a load and a save throw on a state.
  pub check : State Tenant PublicTenant → Result (Unit {0})
  -- this.store.kind === "postgres-scoped"
  pub scoped : Bool

pub record Actor : Type 0 where
  pub role : Role
  pub principal_id : String
  pub client_id : String
  pub key_id : String
  pub trace_id : Option String
  pub correlation_id : Option String

abbrev pub is_admin : Role → Bool
is_admin admin = true
is_admin _ = false

abbrev pub is_tenant : Role → Bool
is_tenant tenant = true
is_tenant _ = false

abbrev is_caller : Role → Bool
is_caller system = false
is_caller _ = true

abbrev missing_or : (String → Bool) → Option String → Bool
missing_or p none = true
missing_or p (some s) = p s

-- The tests of `auditActor`.
unfoldable pub valid_caller : Actor → Bool
valid_caller actor =
    is_caller actor.role
    && is_actor_identifier actor.principal_id
    && is_actor_identifier actor.client_id
    && is_actor_identifier actor.key_id
    && missing_or is_trace_id actor.trace_id
    && missing_or is_correlation_id actor.correlation_id

-- A string that is there and not empty.
abbrev pub truthy : Option String → Bool
truthy none = false
truthy (some s) = leb 1 (utf16_length s)

abbrev wants_provisioned : DesiredState → Bool
wants_provisioned want_provisioned = true
wants_provisioned _ = false

abbrev pub same_desired : DesiredState → DesiredState → Bool
same_desired want_provisioned want_provisioned = true
same_desired want_suspended want_suspended = true
same_desired want_deleted want_deleted = true
same_desired want_deprovisioned want_deprovisioned = true
same_desired _ _ = false

-- The writes of `setDesiredState` when the state changes.
unfoldable pub change_desired_state : DesiredState → ℕ → Tenant → Tenant
change_desired_state desired now t = record t {
  desired_state = desired;
  generation = t.generation + 1;
  updated_at = now;
  lifecycle_operation = none;
  last_error = none;
}

-- The writes that `upgrade` and `rollback` make of a tenant that has its version recorded.
unfoldable pub move_version : Lifecycle → String → Plan → String → ℕ → Tenant → Tenant
unfolding apply_connector_version
move_version operation plan_id plan digest now t =
    record (apply_connector_version t plan_id plan digest) {
      desired_state = want_provisioned;
      lifecycle_operation = some operation;
      generation = t.generation + 1;
      updated_at = now;
      last_error = none;
    }

entry_of : Actor → Action → String → Tenant → Entry
entry_of actor action tenant_id t = record {
  action = action;
  tenant_id = some tenant_id;
  actor_role = actor.role;
  actor_principal_id = actor.principal_id;
  actor_client_id = actor.client_id;
  actor_key_id = actor.key_id;
  trace_id = actor.trace_id;
  correlation_id = actor.correlation_id;
  generation = some t.generation;
  desired_state = none;
  connector_plan_id = none;
  connector_plan_digest = none;
  state_snapshot_digest = none;
  observed_state = none;
  operation_key = none;
  error_code = none;
  evidence = [];
}

pub desired_entry : Actor → Action → String → Tenant → Entry
unfolding entry_of
desired_entry actor action tenant_id t = record (entry_of actor action tenant_id t) {
  desired_state = some t.desired_state;
}

pub version_entry : Actor → Action → String → Tenant → Entry
unfolding entry_of
version_entry actor action tenant_id t = record (entry_of actor action tenant_id t) {
  connector_plan_id = some t.connector_plan_id;
  connector_plan_digest = some t.connector_plan_digest;
}

abbrev pub found_tenant : Option Tenant → Result Tenant
found_tenant none = err caas_tenant_not_found
found_tenant (some t) = ok t

abbrev found_plan : Option Plan → Result Plan
found_plan none = err caas_plan_not_allowed
found_plan (some plan) = ok plan

abbrev found_target : Option Version → Result Version
found_target none = err caas_rollback_target_not_found
found_target (some version) = ok version

unfoldable pub same_names : List String → List String → Bool
same_names [] [] = true
same_names (x ∷ xs) (y ∷ ys) = str_eq x y && same_names xs ys
same_names _ _ = false

module _ (c : Config) (d : Digests Tenant PublicTenant) where
  abbrev pub Store : Type 0
  Store = State Tenant PublicTenant

  -- The end of a command: the tenant's state, the event, and the answer in the ledger.
  unfoldable pub commit :
      Replay PublicTenant → String → Entry → ℕ → Tenant → Store → Result (PublicTenant × Store)
  commit replay tenant_id entry now t state = do
    audited ←
        append_audit d c.max_audit_events now entry
          (record state { tenants = insert tenant_id t state.tenants })
    ok (
      public_tenant c.string_before t,
      record_idempotency audited replay (public_tenant c.string_before t) now,
    )

  -- `if (replay.result) return replay.result;`
  abbrev unless_replayed :
      Option PublicTenant → Store → Result (PublicTenant × Store) → Result (PublicTenant × Store)
  unless_replayed (some result) state fresh = ok (result, state)
  unless_replayed none state fresh = fresh

  -- The event of `setDesiredState`, for a change or for a confirmation under the scoped store.
  unfoldable pub desire :
      Actor
      → String
      → DesiredState
      → ℕ
      → Replay PublicTenant
      → Tenant
      → Store
      → Result (PublicTenant × Store)
  unfolding commit change_desired_state desired_entry
  desire actor tenant_id desired now replay t state =
      let changed = change_desired_state desired now t in
      if same_desired t.desired_state desired
      then (if c.scoped
          then commit replay tenant_id (desired_entry actor desired_state_confirmed tenant_id t) now
              t state
          else ok (
            public_tenant c.string_before t,
            record_idempotency state replay (public_tenant c.string_before t) now,
          ))
      else commit replay tenant_id (desired_entry actor desired_state_changed tenant_id changed) now
          changed state

  unfoldable pub set_desired_state :
      Actor → String → String → String → DesiredState → ℕ → Store → Result (PublicTenant × Store)
  unfolding valid_caller desire
  set_desired_state actor tenant_id key request_digest desired now state = do
    assert_runtime (valid_caller actor) caas_actor_invalid
    t ← found_tenant (lookup tenant_id state.tenants)
    assert_runtime (not (truthy t.dataspace_id) || is_admin actor.role) caas_dsaas_lifecycle_locked
    replay ← idempotency_replay d state "desired" tenant_id key request_digest
    unless_replayed replay.result state (desire actor tenant_id desired now replay t state)

  -- The guards of `upgrade`, and the tenant that it writes.
  unfoldable pub upgraded : String → ℕ → Tenant → Result Tenant
  unfolding same_names move_version
  upgraded plan_id now t = do
    assert_runtime (wants_provisioned t.desired_state && is_provisioned t.observed_state)
        caas_upgrade_state_invalid
    plan ← found_plan (lookup plan_id c.plans)
    assert_runtime (c.has_adapter plan.adapter_id) caas_adapter_not_found
    assert_runtime (not (str_eq (c.plan_digest plan) t.connector_plan_digest))
        caas_upgrade_no_change
    assert_runtime
        (same_names (sort_by c.string_before plan.required_deployment_secret_names)
          (sorted_keys c.string_before t.deployment_secret_refs))
        caas_upgrade_secret_set_mismatch
    remembered ← remember_connector_version t now
    ok (move_version upgrade_operation plan_id plan (c.plan_digest plan) now remembered)

  -- The guards of `rollback`, and the tenant that it writes.
  unfoldable pub rolled_back : String → ℕ → Tenant → Result Tenant
  unfolding move_version
  rolled_back target_digest now t = do
    target ← found_target (find_version target_digest t.connector_version_history)
    assert_runtime (not (str_eq target.connector_plan_digest t.connector_plan_digest))
        caas_rollback_no_change
    assert_runtime (c.has_adapter target.connector_plan_snapshot.adapter_id) caas_adapter_not_found
    remembered ← remember_connector_version t now
    ok (
        move_version rollback_operation target.connector_plan_id target.connector_plan_snapshot
          target.connector_plan_digest now remembered)

  unfoldable pub moved :
      Actor
      → Action
      → String
      → ℕ
      → Replay PublicTenant
      → Result Tenant
      → Store
      → Result (PublicTenant × Store)
  unfolding commit version_entry
  moved actor action tenant_id now replay result state = do
    t ← result
    commit replay tenant_id (version_entry actor action tenant_id t) now t state

  unfoldable pub upgrade :
      Actor → String → String → String → String → ℕ → Store → Result (PublicTenant × Store)
  unfolding valid_caller moved
  upgrade actor tenant_id key request_digest plan_id now state = do
    assert_runtime (valid_caller actor) caas_actor_invalid
    assert_runtime (is_admin actor.role || is_tenant actor.role) caas_upgrade_forbidden
    t ← found_tenant (lookup tenant_id state.tenants)
    replay ← idempotency_replay d state "upgrade" tenant_id key request_digest
    unless_replayed replay.result state (
        moved actor connector_upgrade_requested tenant_id now replay (upgraded plan_id now t) state)

  unfoldable pub rollback :
      Actor → String → String → String → String → ℕ → Store → Result (PublicTenant × Store)
  unfolding valid_caller moved
  rollback actor tenant_id key request_digest target_digest now state = do
    assert_runtime (valid_caller actor) caas_actor_invalid
    assert_runtime (is_admin actor.role || is_tenant actor.role) caas_rollback_forbidden
    t ← found_tenant (lookup tenant_id state.tenants)
    replay ← idempotency_replay d state "rollback" tenant_id key request_digest
    unless_replayed replay.result state (
        moved actor connector_rollback_requested tenant_id now replay
          (rolled_back target_digest now t) state)
