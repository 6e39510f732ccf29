-- ===== src/Caas/Reconcile.antt =====
-- The convergence of one tenant's connector (caas/service.mjs, #reconcileLocked), under the lock of
-- the tenant. It reads, observes, prepares in one transaction, commands the provisioner, and
-- finishes or fails in another. `Env` says what the provisioner answers and what other writers do to
-- the state in between (a lease of the lock may run out). A transaction is sealed before it is saved,
-- as the file store and the JSON store do it. It reads its clock once before the seal and once for
-- it, and an abort is an error of the environment.
pub mod Fence
pub mod Converge
pub mod Valid
use implement_data_space_pro.Prelude.Map.{insert, remove, lookup}
use implement_data_space_pro.Caas.Store.{
  transact, idempotency_replay, record_idempotency, append_audit, Digests, Replay,
}
use implement_data_space_pro.Caas.Lifecycle.{
  valid_caller, found_tenant, commit, same_desired, Config, Actor,
}
use implement_data_space_pro.Caas.Observe.{
  validate_adapter_result, assert_fencing_capability, observe_operational, same,
  final_observed_state, observation_converged, keeps_resource, AdapterResult, both,
  pending_observed_state, Observation, Provisioner,
}
use implement_data_space_pro.Caas.Tenant.{public_tenant, Tenant, PublicTenant}
use implement_data_space_pro.Caas.Data.{
  caas_adapter_fencing_state_missing, caas_actor_invalid, caas_adapter_fencing_not_enforced,
  caas_provisioner_contract_invalid, Code, want_provisioned, want_suspended, deprovisioning,
  deleted, deleting, suspended, suspending, rolling_back, upgrading, provisioned, reconcile_started,
  caas_adapter_not_found, provisioning, reconcile_failed, runtime_drift_detected,
  intent_drift_detected, is_sha256, caas_tenant_not_found, caas_reconcile_fence_violation,
  intent_ready, reconcile_completed, not_provisioned, Entry, DesiredState, Action, error, State,
  Result, Phase,
}
use mathlib.Core.Option
use implement_data_space_pro.Prelude.{
  str_eq, is_some, not, is_none, true, [], ◌∷◌, ◌||◌, assert_runtime, ◌&&◌, ◌>>=◌, err, ◌>>◌, ok,
  if◌then◌else◌, false, ◌==◌, List, none, some, Bool, String, Option, ℕ,
}

-- The observation of an intent, which is not validated: its digest may be missing, which is none, or
-- null, which is `some none`.
pub record IntentObservation : Type 0 where
  pub exists : Bool
  pub intent_digest : Option (Option String)

-- `observed.intentDigest === tenant.lastIntentDigest`, where the tenant's is a string or missing.
abbrev pub same_intent : Option (Option String) → Option String → Bool
same_intent none none = true
same_intent (some (some a)) (some b) = str_eq a b
same_intent _ _ = false

abbrev pub digest_of : Option (Option String) → Option String
digest_of none = none
digest_of (some digest) = digest

pub record Env : Type 0 where
  pub observe_intent : Result IntentObservation
  pub observe_runtime : Result Observation
  pub command : Result AdapterResult
  pub observe_again : Result Observation
  pub before_prepare : State Tenant PublicTenant → State Tenant PublicTenant
  pub before_finish : State Tenant PublicTenant → State Tenant PublicTenant
  pub prepared_at : ℕ
  pub prepared_sealed_at : ℕ
  pub finished_at : ℕ
  pub finished_sealed_at : ℕ
  -- persistedAdapterErrorCode of the error, which is bounded and has a fixed form.
  pub failure_code : String

-- What the operation is configured with. `operation_key` is SHA-256 of the tenant's id, generation,
-- desired state and plan digest; `request_digest` of the generation and the desired state;
-- `evidence_digest` of an answer of the provisioner.
pub record Operator : Type 0 where
  pub provisioner : String → Provisioner
  pub operation_key : Tenant → String
  pub request_digest : ℕ → DesiredState → String
  pub result_digest : AdapterResult → String
  pub observation_digest : Observation → String

pub data Prepared : Type 0 where
  completed : PublicTenant → Prepared
  started : Tenant → Replay PublicTenant → Prepared

-- What a call returns or throws, the state that it leaves, and whether the provisioner was commanded.
pub record Outcome : Type 0 where
  pub answer : Result PublicTenant
  pub state : State Tenant PublicTenant
  pub commanded : Bool

abbrev pub same_phase : Phase → Phase → Bool
same_phase a b = phase_number a == phase_number b
  where
    phase_number : Phase → ℕ
    phase_number not_provisioned = 0
    phase_number provisioning = 1
    phase_number provisioned = 2
    phase_number upgrading = 3
    phase_number rolling_back = 4
    phase_number suspending = 5
    phase_number suspended = 6
    phase_number deleting = 7
    phase_number deleted = 8
    phase_number deprovisioning = 9
    phase_number intent_ready = 10
    phase_number error = 11

-- The tenant has not changed since it was observed.
unfoldable pub unchanged : Tenant → Tenant → Bool
unchanged t snapshot =
    t.generation == snapshot.generation
    && same_desired t.desired_state snapshot.desired_state
    && t.observed_generation == snapshot.observed_generation
    && same_phase t.observed_state snapshot.observed_state
    && same t.operation_key snapshot.operation_key
    && same t.last_intent_digest snapshot.last_intent_digest
    && same t.last_applied_fencing_token snapshot.last_applied_fencing_token

-- The tenant while the provisioner is commanded.
unfoldable pub pending_tenant : String → ℕ → Tenant → Tenant
pending_tenant op_key now t = record t {
  observed_state = pending_observed_state t;
  operation_key = some op_key;
  updated_at = now;
}

module _ (p : Provisioner) (token : Option String) where
  unfoldable pub phase_after : Bool → Tenant → Phase
  phase_after converged t =
      if p.intent_only
      then intent_ready
      else (if converged then final_observed_state t.desired_state else pending_observed_state t)

  unfoldable pub resource_after : Bool → AdapterResult → Tenant → Option String
  resource_after converged r t =
      if keeps_resource t.desired_state
      then some r.adapter_resource_id
      else (if converged then none else t.adapter_resource_id)

  -- The version that is deployed once the observation has converged.
  unfoldable pub deployed_after : Bool → Tenant → Tenant
  deployed_after false t = t
  deployed_after true t = elim t.desired_state [
    | want_provisioned ↦ record t {
      deployed_connector_plan_id = some t.connector_plan_id;
      deployed_connector_plan_digest = some t.connector_plan_digest;
      lifecycle_operation = none;
    }
    | want_suspended ↦ t
    | _ ↦ record t { deployed_connector_plan_id = none; deployed_connector_plan_digest = none }
  ]

  -- The writes of the transaction that finishes.
  unfoldable pub finished_tenant : Bool → AdapterResult → ℕ → Tenant → Tenant
  unfolding phase_after resource_after deployed_after
  finished_tenant converged r now t = record (deployed_after converged t) {
    observed_state = phase_after converged t;
    observed_generation = t.generation;
    adapter_resource_id = resource_after converged r t;
    last_intent_digest = some r.intent_digest;
    last_applied_fencing_token = elim token [
      | some k ↦ some k
      | none ↦ t.last_applied_fencing_token
    ];
    updated_at = now;
    operation_key = if p.intent_only || converged then none else t.operation_key;
    last_error = none;
  }

abbrev pub failure_message : String
failure_message = "provisioner operation failed; inspect restricted adapter telemetry"

-- The writes of the transaction that records a failure; `accepted` is the token that the provisioner
-- has accepted, if it came so far.
unfoldable pub failed_tenant : Option String → String → ℕ → Tenant → Tenant
failed_tenant accepted code now t = record t {
  observed_state = error;
  last_applied_fencing_token = elim accepted [
    | some k ↦ some k
    | none ↦ t.last_applied_fencing_token
  ];
  last_error = some (record { code = code; message = failure_message });
  updated_at = now;
}

unfoldable pub event_entry : Actor → Action → String → Tenant → List (Option String) → Entry
event_entry actor action tenant_id t evidence = record {
  action = action;
  tenant_id = some tenant_id;
  actor_role = actor.role;
  actor_principal_id = actor.principal_id;
  actor_client_id = actor.client_id;
  actor_key_id = actor.key_id;
  trace_id = actor.trace_id;
  correlation_id = actor.correlation_id;
  generation = some t.generation;
  desired_state = none;
  connector_plan_id = none;
  connector_plan_digest = none;
  state_snapshot_digest = none;
  observed_state = none;
  operation_key = none;
  error_code = none;
  evidence = evidence;
}

abbrev adapter_of : Option Tenant → (String → Bool) → Result Tenant
adapter_of none has = err caas_tenant_not_found
adapter_of (some t) has = if has t.adapter_id then ok t else err caas_adapter_not_found

abbrev sha256_or_null : Option String → Option String
sha256_or_null none = none
sha256_or_null (some s) = if is_sha256 s then some s else none

module _ (c : Config) (d : Digests Tenant PublicTenant) (o : Operator) (actor : Actor)
    (tenant_id key : String) (token : Option String) where
  abbrev pub Db : Type 0
  Db = State Tenant PublicTenant

  -- A transaction of the store (`#transact`), which is sealed at this time.
  abbrev pub run_transaction : {A : Type 0} → ℕ → (Db → Result (A × Db)) → Db → Result (A × Db)
  run_transaction sealed_at operation state =
      transact d c.max_audit_events sealed_at c.check operation state

  abbrev audit : ℕ → Action → Tenant → List (Option String) → Db → Result Db
  audit now action t evidence state =
      append_audit d c.max_audit_events now (event_entry actor action tenant_id t evidence) state

  abbrev intent_observed : Option IntentObservation → Tenant → Bool
  intent_observed none t = false
  intent_observed (some seen) t = seen.exists && same_intent seen.intent_digest t.last_intent_digest

  abbrev runtime_observed : Option Observation → Tenant → String → Bool
  runtime_observed none t op_key = false
  runtime_observed (some seen) t op_key =
      observation_converged seen t op_key t.last_intent_digest t.adapter_resource_id
        t.last_applied_fencing_token

  -- An observation that no longer holds is put on record.
  unfoldable pub intent_drift : Option IntentObservation → ℕ → Tenant → Db → Result Db
  unfolding event_entry
  intent_drift none now t state = ok state
  intent_drift (some seen) now t state =
      if intent_observed (some seen) t
      then ok state
      else audit now intent_drift_detected t
          (t.last_intent_digest ∷ sha256_or_null (digest_of seen.intent_digest) ∷ []) state

  unfoldable pub runtime_drift : Option Observation → String → ℕ → Tenant → Db → Result Db
  unfolding event_entry
  runtime_drift none op_key now t state = ok state
  runtime_drift (some seen) op_key now t state =
      if runtime_observed (some seen) t op_key
      then ok state
      else audit now runtime_drift_detected t
          (t.last_intent_digest ∷ t.last_applied_fencing_token ∷ seen.intent_digest
            ∷ seen.operation_key ∷ seen.last_applied_fencing_token ∷ [])
          state

  -- The end of the first transaction: all is as it should be, or an operation is started.
  unfoldable pub conclude :
      Bool → String → ℕ → Replay PublicTenant → Tenant → Db → Result (Prepared × Db)
  unfolding event_entry
  conclude observed op_key now replay t state =
      if observed && t.observed_generation == t.generation
      then ok (
        completed (public_tenant c.string_before t),
        record_idempotency state replay (public_tenant c.string_before t) now,
      )
      else append_audit d c.max_audit_events now
          (record (event_entry actor reconcile_started tenant_id t []) {
            desired_state = some t.desired_state;
            operation_key = some op_key;
          })
          (record state { tenants = insert tenant_id (pending_tenant op_key now t) state.tenants })
        >>= λ audited. ok (started (pending_tenant op_key now t) replay, audited)

  unfoldable pub prepare_fresh :
      Option IntentObservation
      → Option Observation
      → Tenant
      → ℕ
      → Replay PublicTenant
      → Tenant
      → Db
      → Result (Prepared × Db)
  unfolding intent_drift runtime_drift
  prepare_fresh intent runtime snapshot now replay t state = do
    assert_runtime (unchanged t snapshot) caas_reconcile_fence_violation
    noted ← intent_drift intent now t state
    noted_too ← runtime_drift runtime (o.operation_key snapshot) now t noted
    conclude (intent_observed intent t || runtime_observed runtime t (o.operation_key snapshot))
        (o.operation_key snapshot) now replay t noted_too

  -- A replay whose answer is no longer the tenant's state is dropped from the ledger.
  unfoldable pub prepare_replayed :
      Option IntentObservation
      → Option Observation
      → Tenant
      → ℕ
      → Replay PublicTenant
      → Tenant
      → Db
      → Result (Prepared × Db)
  unfolding prepare_fresh
  prepare_replayed intent runtime snapshot now replay t state = elim replay.result [
    | none ↦ prepare_fresh intent runtime snapshot now replay t state
    | some r ↦
        if r.generation == t.generation && same_phase r.observed_state t.observed_state
        then ok (completed (public_tenant c.string_before t), state)
        else prepare_fresh intent runtime snapshot now (record replay { result = none }) t
            (record state { requests = remove replay.ledger_key state.requests })
  ]

  -- The first transaction.
  unfoldable pub prepare :
      Option IntentObservation → Option Observation → Tenant → ℕ → Db → Result (Prepared × Db)
  unfolding prepare_replayed
  prepare intent runtime snapshot now state = do
    t ← found_tenant (lookup tenant_id state.tenants)
    replay ←
        idempotency_replay d state "reconcile" tenant_id key
          (o.request_digest t.generation t.desired_state)
    prepare_replayed intent runtime snapshot now replay t state

  abbrev holds_operation : Tenant → Tenant → Bool
  holds_operation current t =
      both current.operation_key t.operation_key && current.generation == t.generation

  unfoldable pub current_tenant : Option Tenant → Tenant → Result Tenant
  current_tenant none t = err caas_reconcile_fence_violation
  current_tenant (some current) t =
      if holds_operation current t then ok current else err caas_reconcile_fence_violation

  unfoldable pub completed_entry : AdapterResult → Option Observation → Tenant → Entry
  unfolding event_entry
  completed_entry r seen t =
      record (event_entry actor reconcile_completed tenant_id t
        (some (o.result_digest r) ∷ Option.map o.observation_digest seen ∷ [])) {
          observed_state = some t.observed_state;
        }

  -- The transaction that finishes. `t` is the tenant as it was prepared.
  unfoldable pub finish :
      Bool
      → AdapterResult
      → Option Observation
      → Replay PublicTenant
      → Tenant
      → ℕ
      → Db
      → Result (PublicTenant × Db)
  unfolding current_tenant completed_entry
  finish converged r seen ledger t now state = do
    current ← current_tenant (lookup tenant_id state.tenants) t
    let next = finished_tenant (o.provisioner t.adapter_id) token converged r now current
    commit c d ledger tenant_id (completed_entry r seen next) now next state

  unfoldable pub record_failure :
      Option String → String → Tenant → ℕ → Option Tenant → Db → Result Db
  unfolding event_entry
  record_failure accepted code t now none state = ok state
  record_failure accepted code t now (some current) state =
      if both current.operation_key t.operation_key
      then append_audit d c.max_audit_events now
          (record (event_entry actor reconcile_failed tenant_id
            (failed_tenant accepted code now current) []) { error_code = some code })
          (record state {
            tenants = insert tenant_id (failed_tenant accepted code now current) state.tenants;
          })
      else ok state

  -- The transaction that records a failure.
  unfoldable pub fail : Option String → String → Tenant → ℕ → Db → Result Db
  unfolding record_failure
  fail accepted code t now state =
      record_failure accepted code t now (lookup tenant_id state.tenants) state

  abbrev outcome : Result PublicTenant → Db → Bool → Outcome
  outcome answer state commanded = record { answer = answer; state = state; commanded = commanded }

  -- What the provisioner does for the prepared tenant: its answer, the token that it has accepted
  -- when an error comes, and the observation after the command.
  post_observation : Env → Provisioner → Result (Option Observation)
  post_observation env p =
      if p.intent_only
      then ok none
      else observe_operational p token env.observe_again >>= λ seen. ok (some seen)

  abbrev confirms : Option Observation → Bool
  confirms none = true
  confirms (some seen) = is_none token || both seen.last_applied_fencing_token token

  unfoldable pub confirmed : Env → Provisioner → Result (Option Observation)
  unfolding post_observation
  confirmed env p = do
    seen ← post_observation env p
    assert_runtime (confirms seen) caas_adapter_fencing_not_enforced
    ok seen

  unfoldable pub issued : Env → Provisioner → Result AdapterResult
  issued env p = do
    if p.intent_only then ok tt else assert_fencing_capability p token
    r ← env.command
    validate_adapter_result r token

  -- The prepared tenant has an operation key.
  abbrev pub key_of : Option String → String
  key_of none = ""
  key_of (some k) = k

  abbrev pub converged_as : Option Observation → AdapterResult → Tenant → String → Bool
  converged_as none r t op_key = false
  converged_as (some seen) r t op_key =
      observation_converged seen t op_key (some r.intent_digest) (some r.adapter_resource_id) token

  abbrev thrown : Code → Db → Result (Unit {0} × Db) → Outcome
  thrown code before (ok (_, marked)) = outcome (err code) marked true
  thrown code before (err other) = outcome (err other) before true

  abbrev answered : Db → Result (PublicTenant × Db) → Outcome
  answered before (ok (answer, done)) = outcome (ok answer) done true
  answered before (err code) = outcome (err code) before true

  -- After a failure: the tenant is marked, and the error thrown, or that of the transaction.
  unfoldable pub give_up : Env → Option String → Code → Tenant → Db → Outcome
  unfolding fail
  give_up env accepted code t state =
      let before = env.before_finish state in
      thrown code before (
        run_transaction env.finished_sealed_at
          (λ db. fail accepted env.failure_code t env.finished_at db >>= λ marked. ok (tt, marked))
          before)

  unfoldable pub complete :
      Env → AdapterResult → Option Observation → Replay PublicTenant → Tenant → Db → Outcome
  unfolding finish
  complete env r seen ledger t state =
      let before = env.before_finish state in
      let converged = converged_as seen r t (key_of t.operation_key) in
      answered before (
        run_transaction env.finished_sealed_at (finish converged r seen ledger t env.finished_at)
          before)

  -- How the command and its confirmation are followed up.
  unfoldable pub follow_up :
      Env
      → Replay PublicTenant
      → Tenant
      → Db
      → Result AdapterResult
      → Result (Option Observation)
      → Outcome
  follow_up env ledger t state (err code) seen = give_up env none code t state
  follow_up env ledger t state (ok r) (err code) = give_up env token code t state
  follow_up env ledger t state (ok r) (ok seen) = complete env r seen ledger t state

  -- The part of `#reconcileLocked` after the first transaction.
  unfoldable pub execute : Env → Replay PublicTenant → Tenant → Db → Outcome
  execute env ledger t state =
      let p = o.provisioner t.adapter_id in
      follow_up env ledger t state (issued env p) (confirmed env p)

  -- The observation of a tenant that is ready as an intent.
  unfoldable pub first_intent : Env → Provisioner → Tenant → Result (Option IntentObservation)
  first_intent env p t =
      if same_phase t.observed_state intent_ready
        && p.intent_only
        && t.observed_generation == t.generation
      then assert_runtime p.has_observe caas_provisioner_contract_invalid
        >> (env.observe_intent >>= λ seen. ok (some seen))
      else ok none

  -- The observation of a tenant that has converged before.
  unfoldable pub first_runtime : Env → Provisioner → Tenant → Result (Option Observation)
  first_runtime env p t =
      if not p.intent_only
        && same_phase t.observed_state (final_observed_state t.desired_state)
        && t.observed_generation == t.generation
      then assert_runtime (is_none token || is_some t.last_applied_fencing_token)
          caas_adapter_fencing_state_missing
        >> (observe_operational p token env.observe_runtime >>= λ seen. ok (some seen))
      else ok none

  -- What the first transaction has prepared is returned or executed.
  unfoldable pub proceed : Env → Result (Prepared × Db) → Db → Outcome
  unfolding execute
  proceed env (err code) before = outcome (err code) before false
  proceed env (ok (completed answer, state)) before = outcome (ok answer) state false
  proceed env (ok (started t ledger, state)) before = execute env ledger t state

  -- The observations, the first transaction, and what follows it.
  unfoldable pub observe_and_prepare : Env → Tenant → Db → Outcome
  unfolding first_intent first_runtime proceed
  observe_and_prepare env t state =
      let p = o.provisioner t.adapter_id in
      elim (first_intent env p t) [
        | err code ↦ outcome (err code) state false
        | ok intent ↦ elim (first_runtime env p t) [
          | err code ↦ outcome (err code) state false
          | ok runtime ↦
              let before = env.before_prepare state in
              proceed env
                (run_transaction env.prepared_sealed_at (prepare intent runtime t env.prepared_at)
                  before)
                before
        ]
      ]

  unfoldable pub reconcile_locked : Env → Db → Outcome
  unfolding valid_caller observe_and_prepare
  reconcile_locked env state =
      elim (assert_runtime (valid_caller actor) caas_actor_invalid
        >> adapter_of (lookup tenant_id state.tenants) c.has_adapter) [
          | err code ↦ outcome (err code) state false
          | ok t ↦ observe_and_prepare env t state
        ]
