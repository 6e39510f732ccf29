-- ===== src/Caas/Reconcile/Valid.antt =====
-- The transactions of a convergence leave a tenant that the validation of the next load accepts
-- (caas/service.mjs against validateCaasState of caas/store.mjs).
use implement_data_space_pro.Caas.Data.{
  want_deprovisioned, want_deleted, want_suspended, want_provisioned, DesiredState, is_sha256,
}
use implement_data_space_pro.Caas.Tenant.Validation.{
  validate_tenant, is_filled, valid_token, is_error_code, valid_last_error, valid_phase,
  valid_identifiers, valid_dsaas_fence, valid_deployed, is_provisioned, valid_generations,
}
use implement_data_space_pro.Caas.Lifecycle.Valid.{validate-whole, validate-parts, IsValid}
use implement_data_space_pro.Caas.Reconcile.{
  failure_message, resource_after, phase_after, deployed_after, pending_tenant, failed_tenant,
  finished_tenant,
}
use implement_data_space_pro.Caas.Observe.{
  validate_adapter_result, final_observed_state, AdapterResult, Provisioner, pending_observed_state,
}
use implement_data_space_pro.Caas.Tenant.{Tenant, Plan}
use implement_data_space_pro.Prelude.{
  eq_iff, ok, none, ◌||◌, if◌then◌else◌, refl, leb, utf16_length, some, true, Option, arith, false,
  ◌≡◌, Bool, String, ℕ,
}

module _ (plan_digest : Plan → String) (valid_reference : String → Bool) (key : String) where
  abbrev Ok : Tenant → Type 0
  Ok = IsValid plan_digest valid_reference key

  pending-in_flight : (t : Tenant) → is_provisioned (pending_observed_state t) ≡ false
  unfolding pending_observed_state
  pending-in_flight t = ground arith

  -- While the provisioner is commanded, under an operation key that is a SHA-256.
  pending_tenant-IsValid :
      (op_key : String) (now : ℕ) (t : Tenant)
      → Ok t
      → is_sha256 op_key ≡ true
      → Ok (pending_tenant op_key now t)
  unfolding pending_tenant valid_generations valid_deployed valid_dsaas_fence valid_phase
      valid_identifiers valid_last_error
  pending_tenant-IsValid op_key now t v s = record {
    keyed = v.keyed;
    generations = v.generations;
    env = v.env;
    references = v.references;
    identifiers = v.identifiers;
    snapshot = v.snapshot;
    room = v.room;
    history = v.history;
    deployed = v.deployed;
    fence = v.fence;
    error = v.error;
    token = v.token;
    phase = ground (arith, pending-in_flight t, s);
  }

  message-fits : leb (utf16_length failure_message) 256 ≡ true
  unfolding utf16_length
  message-fits = refl

  -- After a failure, whose code has the form of a code, with the token of a lease.
  failed_tenant-IsValid :
      (accepted : Option String) (code : String) (now : ℕ) (t : Tenant)
      → Ok t
      → is_error_code code ≡ true
      → valid_token accepted ≡ true
      → Ok (failed_tenant accepted code now t)
  unfolding failed_tenant valid_generations valid_deployed valid_dsaas_fence valid_phase
      valid_identifiers valid_last_error
  failed_tenant-IsValid accepted code now t v s k = record {
    keyed = v.keyed;
    generations = v.generations;
    env = v.env;
    references = v.references;
    identifiers = v.identifiers;
    snapshot = v.snapshot;
    room = v.room;
    history = v.history;
    deployed = v.deployed;
    fence = v.fence;
    error = ground (arith, s, message-fits);
    token = let old = v.token in ground (arith, k, old);
    phase = ground arith;
  }

  deployed_after-IsValid :
      (p : Provisioner) (token : Option String) (converged : Bool) (t : Tenant)
      → Ok t
      → is_filled t.connector_plan_id ≡ true
      → is_sha256 t.connector_plan_digest ≡ true
      → Ok (deployed_after p token converged t)
  unfolding deployed_after valid_generations valid_deployed valid_dsaas_fence valid_phase
      valid_identifiers valid_last_error
  deployed_after-IsValid p token false t v f h = v
  deployed_after-IsValid p token true t v f h = settled t.desired_state refl
    where
      settled : (s : DesiredState) → t.desired_state ≡ s → Ok (deployed_after p token true t)
      settled want_provisioned e =
          rw (deployed_after, e)
            (record {
              keyed = v.keyed;
              generations = v.generations;
              env = v.env;
              references = v.references;
              identifiers = v.identifiers;
              snapshot = v.snapshot;
              room = v.room;
              history = v.history;
              fence = v.fence;
              error = v.error;
              token = v.token;
              phase = v.phase;
              deployed = ground (arith, f, h);
            })
      settled want_suspended e = rw (deployed_after, e) v
      settled want_deleted e =
          rw (deployed_after, e)
            (record {
              keyed = v.keyed;
              generations = v.generations;
              env = v.env;
              references = v.references;
              identifiers = v.identifiers;
              snapshot = v.snapshot;
              room = v.room;
              history = v.history;
              fence = v.fence;
              error = v.error;
              token = v.token;
              phase = v.phase;
              deployed = refl;
            })
      settled want_deprovisioned e =
          rw (deployed_after, e)
            (record {
              keyed = v.keyed;
              generations = v.generations;
              env = v.env;
              references = v.references;
              identifiers = v.identifiers;
              snapshot = v.snapshot;
              room = v.room;
              history = v.history;
              fence = v.fence;
              error = v.error;
              token = v.token;
              phase = v.phase;
              deployed = refl;
            })

  deployed_after-same :
      (p : Provisioner) (token : Option String) (converged : Bool) (t : Tenant)
      → ((deployed_after p token converged t).generation ≡ t.generation)
        × ((deployed_after p token converged t).operation_key ≡ t.operation_key)
  unfolding deployed_after
  deployed_after-same p token converged t = ground arith

  -- How a phase and a resource that fit together stand after the last transaction.
  phase_after-fits :
      (p : Provisioner) (token : Option String) (converged : Bool) (r : AdapterResult) (t : Tenant)
      (op_key : String)
      → t.operation_key ≡ some op_key
      → is_sha256 op_key ≡ true
      → is_filled r.adapter_resource_id ≡ true
      → valid_phase (record t {
        observed_state = phase_after p token converged t;
        adapter_resource_id = resource_after p token converged r t;
        operation_key = if p.intent_only || converged then none else t.operation_key;
      })
        ≡ true
  unfolding valid_phase phase_after resource_after final_observed_state
  phase_after-fits p token converged r t op_key k s f = ground (arith, pending-in_flight t)

  finished_tenant-IsValid :
      (p : Provisioner) (token : Option String) (converged : Bool) (r : AdapterResult) (now : ℕ)
      (t : Tenant) (op_key : String)
      → Ok t
      → t.operation_key ≡ some op_key
      → is_sha256 op_key ≡ true
      → is_filled r.adapter_resource_id ≡ true
      → is_sha256 t.connector_plan_digest ≡ true
      → valid_token token ≡ true
      → Ok (finished_tenant p token converged r now t)
  unfolding finished_tenant valid_phase deployed_after phase_after resource_after valid_generations
      valid_deployed valid_dsaas_fence valid_identifiers valid_last_error
  finished_tenant-IsValid p token converged r now t op_key v k s f h l =
      let ids = v.identifiers in
      let w = deployed_after-IsValid p token converged t v (ground (arith, ids)) h in
      let rest = deployed_after-same p token converged t in
      let old = v.generations in
      let had = v.token in
      record {
        keyed = w.keyed;
        generations = ground (arith, old, rest);
        env = w.env;
        references = w.references;
        identifiers = w.identifiers;
        snapshot = w.snapshot;
        room = w.room;
        history = w.history;
        deployed = w.deployed;
        fence = w.fence;
        error = refl;
        token = ground (arith, l, had);
        phase = phase_after-fits p token converged r t op_key k s f;
      }

-- What the transactions of a convergence write is valid if the tenants before them were: `t`, which
-- is marked as pending or as failed, and `current`, which has the operation key and is finished. The
-- operation key and the digest of the plan of `current` are SHA-256, the token of the lease and the
-- code of an error have their forms, and the answer of the provisioner has passed its validation.
pub transactions-valid :
    (plan_digest : Plan → String) (valid_reference : String → Bool) (key : String) (p : Provisioner)
    (token : Option String) (converged : Bool) (r : AdapterResult) (now : ℕ) (op_key code : String)
    (t current : Tenant)
    → validate_tenant plan_digest valid_reference key t ≡ ok tt
    → validate_tenant plan_digest valid_reference key current ≡ ok tt
    → current.operation_key ≡ some op_key
    → is_sha256 op_key ≡ true
    → is_sha256 (plan_digest current.connector_plan_snapshot) ≡ true
    → is_error_code code ≡ true
    → valid_token token ≡ true
    → validate_adapter_result r token ≡ ok r
    → let valid = validate_tenant plan_digest valid_reference key in
      (valid (pending_tenant op_key now t) ≡ ok tt)
      × (valid (failed_tenant token code now t) ≡ ok tt)
      × (valid (finished_tenant p token converged r now current) ≡ ok tt)
unfolding validate_adapter_result
transactions-valid plan_digest valid_reference key p token converged r now op_key code t current v w
      k s h e l a =
    let old = validate-parts plan_digest valid_reference key t v in
    let now_is = validate-parts plan_digest valid_reference key current w in
    let same =
      (eq_iff current.connector_plan_digest (plan_digest current.connector_plan_snapshot)).0
        now_is.snapshot in
    let digest : is_sha256 current.connector_plan_digest ≡ true = rw same h in
    (
      validate-whole plan_digest valid_reference key (pending_tenant op_key now t)
          (pending_tenant-IsValid plan_digest valid_reference key op_key now t old s),
      validate-whole plan_digest valid_reference key (failed_tenant token code now t)
          (failed_tenant-IsValid plan_digest valid_reference key token code now t old e l),
      validate-whole plan_digest valid_reference key
          (finished_tenant p token converged r now current)
          (finished_tenant-IsValid plan_digest valid_reference key p token converged r now current
            op_key now_is k s (ground (arith, a)) digest l),
    )
