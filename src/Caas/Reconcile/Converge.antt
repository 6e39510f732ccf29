-- ===== src/Caas/Reconcile/Converge.antt =====
-- A convergence that nothing disturbs reaches its goal (caas/service.mjs, #reconcileLocked).
use implement_data_space_pro.Caas.Store.Transact.{transact-ok, Saves}
use implement_data_space_pro.Caas.Store.Append.{append_audit-ok, HasRoom}
use implement_data_space_pro.Prelude.Map.{lookup-insert, insert, lookup}
use implement_data_space_pro.Caas.Store.{record_idempotency, idempotency_replay, Replay, Digests}
use implement_data_space_pro.Caas.Tenant.{public_tenant, PublicTenant, Tenant}
use implement_data_space_pro.Caas.Observe.{
  observation_converged, final_observed_state, Provisioner, Observation, AdapterResult, both, same,
}
use implement_data_space_pro.Caas.Lifecycle.{valid_caller, commit, Actor, same_desired, Config}
use implement_data_space_pro.Caas.Reconcile.{
  run_transaction, Prepared, Outcome, confirmed, issued, same_phase, Env, complete, follow_up,
  execute, proceed, first_runtime, first_intent, observe_and_prepare, reconcile_locked,
  completed_entry, finished_tenant, current_tenant, finish, event_entry, pending_tenant, started,
  conclude, runtime_drift, intent_drift, prepare_fresh, prepare_replayed, prepare, Operator,
  unchanged,
}
use implement_data_space_pro.Caas.Data.{reconcile_started, Entry, State, DesiredState}
use implement_data_space_pro.Prelude.{
  suc, ap, inr, inl, Bool-cases, Bool, ◌∙◌, false, [], ◌≤◌, ok, refl, none, eq_iff, arith, true,
  ◌≡◌, some, Option, String, ℕ,
}

same_refl : (a : Option String) → same a a ≡ true
same_refl none = refl
same_refl (some s) = (eq_iff s s).1 refl

both_refl : (s : String) → both (some s) (some s) ≡ true
both_refl s = (eq_iff s s).1 refl

same_desired_refl : (s : DesiredState) → same_desired s s ≡ true
same_desired_refl s = ground arith

unchanged_refl : (t : Tenant) → unchanged t t ≡ true
unfolding unchanged
unchanged_refl t = ground (
  arith,
  same_desired_refl t.desired_state,
  same_refl t.operation_key,
  same_refl t.last_intent_digest,
  same_refl t.last_applied_fencing_token,
)

module _ (c : Config) (d : Digests Tenant PublicTenant) (o : Operator) (actor : Actor)
    (tenant_id key : String) (token : Option String) where
  -- When nothing was observed the operation is started.
  conclude-starts :
      (n : ℕ) (t : Tenant) (now later : ℕ) (replay : Replay PublicTenant)
      (state : State Tenant PublicTenant)
      → HasRoom (suc n) c.max_audit_events now state
      → now ≤ later
      → (s : State Tenant PublicTenant) × (conclude c d o actor tenant_id key token false
            (o.operation_key t)
            now
            replay
            t
            state
          ≡ ok (started (pending_tenant (o.operation_key t) now t) replay, s))
        × (lookup tenant_id s.tenants ≡ some (pending_tenant (o.operation_key t) now t))
        × HasRoom n c.max_audit_events later s
  unfolding conclude
  conclude-starts n t now later replay state h u =
      let next = pending_tenant (o.operation_key t) now t in
      let entry : Entry = record (event_entry actor reconcile_started tenant_id t []) {
        desired_state = some t.desired_state;
        operation_key = some (o.operation_key t);
      } in
      let (s, done, kept, ledger, room) =
        append_audit-ok d n c.max_audit_events now later entry
          (record state { tenants = insert tenant_id next state.tenants })
          (record { room = h.room; in_time = h.in_time }) u in
      (
        s,
        unfold event_entry in rw done refl,
        rw kept (
            lookup-insert tenant_id tenant_id next state.tenants
            ∙ rw ((eq_iff tenant_id tenant_id).1 refl) refl),
        room,
      )

  prepare-starts :
      (n : ℕ) (t : Tenant) (now later : ℕ) (replay : Replay PublicTenant)
      (state : State Tenant PublicTenant)
      → lookup tenant_id state.tenants ≡ some t
      → idempotency_replay d state "reconcile" tenant_id key
          (o.request_digest t.generation t.desired_state)
        ≡ ok replay
      → replay.result ≡ none
      → HasRoom (suc n) c.max_audit_events now state
      → now ≤ later
      → (s : State Tenant PublicTenant) × (prepare c d o actor tenant_id key token none none t now
            state
          ≡ ok (started (pending_tenant (o.operation_key t) now t) replay, s))
        × (lookup tenant_id s.tenants ≡ some (pending_tenant (o.operation_key t) now t))
        × HasRoom n c.max_audit_events later s
  unfolding prepare prepare_replayed prepare_fresh intent_drift runtime_drift
  prepare-starts n t now later replay state f r e h u =
      let (s, done, there, room) = conclude-starts n t now later replay state h u in
      (s, ground (arith, f, r, e, unchanged_refl t, done), there, room)

  -- The transaction that finishes, on the tenant that was prepared.
  finish-ok :
      (converged : Bool) (r : AdapterResult) (seen : Option Observation)
      (ledger : Replay PublicTenant) (t : Tenant) (op_key : String) (n now later : ℕ)
      (state : State Tenant PublicTenant)
      → lookup tenant_id state.tenants ≡ some t
      → t.operation_key ≡ some op_key
      → HasRoom (suc n) c.max_audit_events now state
      → now ≤ later
      → let next = finished_tenant (o.provisioner t.adapter_id) token converged r now t in
        (s : State Tenant PublicTenant) × (finish c d o actor tenant_id key token converged r seen
            ledger t now state
          ≡ ok (public_tenant c.string_before next, s))
        × (lookup tenant_id s.tenants ≡ some next)
        × HasRoom n c.max_audit_events later s
  unfolding finish current_tenant commit
  finish-ok converged r seen ledger t op_key n now later state f k h u =
      let next = finished_tenant (o.provisioner t.adapter_id) token converged r now t in
      let (s, done, kept, rest, room) =
        append_audit-ok d n c.max_audit_events now later
          (completed_entry c d o actor tenant_id key token r seen next)
          (record state { tenants = insert tenant_id next state.tenants })
          (record { room = h.room; in_time = h.in_time }) u in
      (
        record_idempotency s ledger (public_tenant c.string_before next) now,
        ground (arith, f, k, both_refl op_key, done),
        unfold record_idempotency in
            rw kept (
              lookup-insert tenant_id tenant_id next state.tenants
              ∙ rw ((eq_iff tenant_id tenant_id).1 refl) refl),
        unfold record_idempotency in record { room = room.room; in_time = room.in_time },
      )

  -- The tenant after an observation that has converged.
  finished-converged :
      (p : Provisioner) (r : AdapterResult) (now : ℕ) (t : Tenant)
      → p.intent_only ≡ false
      → let next = finished_tenant p token true r now t in
        (next.observed_state ≡ final_observed_state t.desired_state)
        × (next.observed_generation ≡ next.generation)
        × (next.generation ≡ t.generation)
        × (next.operation_key ≡ none)
        × (next.last_error ≡ none)
  unfolding finished_tenant
  finished-converged p r now t i = elim (Bool-cases p.intent_only) [
    | inl only ↦ ground (arith, only)
    | inr runs ↦ ground (arith, runs)
  ]

  -- An operation that starts from a phase other than the one that is desired, whose request the
  -- ledger does not know, that no one disturbs, that the provisioner carries out and confirms, and
  -- whose observation has converged, in an audit with room for four more events and with a clock that
  -- does not go back, while no load and no save refuses a state: the call returns, the tenant has the
  -- state that is desired, for its present generation, with no operation and no error left.
  pub reconcile-converges :
      (env : Env) (state : State Tenant PublicTenant) (t : Tenant) (replay : Replay PublicTenant)
      (r : AdapterResult) (seen : Observation)
      → valid_caller actor ≡ true
      → lookup tenant_id state.tenants ≡ some t
      → c.has_adapter t.adapter_id ≡ true
      → (o.provisioner t.adapter_id).intent_only ≡ false
      → same_phase t.observed_state (final_observed_state t.desired_state) ≡ false
      → env.before_prepare state ≡ state
      → ((s : State Tenant PublicTenant) → env.before_finish s ≡ s)
      → idempotency_replay d state "reconcile" tenant_id key
          (o.request_digest t.generation t.desired_state)
        ≡ ok replay
      → replay.result ≡ none
      → HasRoom 4 c.max_audit_events env.prepared_at state
      → env.prepared_at ≤ env.prepared_sealed_at
      → env.prepared_sealed_at ≤ env.finished_at
      → env.finished_at ≤ env.finished_sealed_at
      → c.check state ≡ ok tt
      → Saves d c.max_audit_events c.check env.prepared_sealed_at
          (prepare c d o actor tenant_id key token none none t env.prepared_at state)
      → ((begun : Prepared) (s : State Tenant PublicTenant)
          → run_transaction c d o actor tenant_id key token env.prepared_sealed_at
              (prepare c d o actor tenant_id key token none none t env.prepared_at)
              state
            ≡ ok (begun, s)
          → Saves d c.max_audit_events c.check env.finished_sealed_at (
              finish c d o actor tenant_id key token true r
                (some seen)
                replay
                (pending_tenant (o.operation_key t) env.prepared_at t)
                env.finished_at
                s))
      → issued c d o actor tenant_id key token env (o.provisioner t.adapter_id) ≡ ok r
      → confirmed c d o actor tenant_id key token env (o.provisioner t.adapter_id) ≡ ok (some seen)
      → observation_converged seen
          (pending_tenant (o.operation_key t) env.prepared_at t)
          (o.operation_key t)
          (some r.intent_digest)
          (some r.adapter_resource_id)
          token
        ≡ true
      → let done = reconcile_locked c d o actor tenant_id key token env state in
        (t' : Tenant) × (done.answer ≡ ok (public_tenant c.string_before t'))
        × (lookup tenant_id done.state.tenants ≡ some t')
        × (t'.observed_state ≡ final_observed_state t.desired_state)
        × (t'.observed_generation ≡ t'.generation)
        × (t'.generation ≡ t.generation)
        × (t'.operation_key ≡ none)
        × (t'.last_error ≡ none)
  unfolding reconcile_locked pending_tenant observe_and_prepare first_intent first_runtime proceed
      execute follow_up complete
  reconcile-converges env state t replay r seen v f a i s b q e n h u₁ u₂ u₃ k saves saves_end w x
        y =
      let prepared = pending_tenant (o.operation_key t) env.prepared_at t in
      let p = o.provisioner t.adapter_id in
      let preparing = prepare c d o actor tenant_id key token none none t env.prepared_at in
      let finishing =
        finish c d o actor tenant_id key token true r (some seen) replay prepared env.finished_at in
      let (x₁, begun, there, room) =
        prepare-starts 3 t env.prepared_at env.prepared_sealed_at replay state f e n h u₁ in
      let (s₁, first, kept, _, fine, room₁) =
        transact-ok d c.max_audit_events c.check 2 env.prepared_sealed_at env.finished_at preparing
          state x₁ (started prepared replay) k (unfold pending_tenant in begun) room u₂ saves in
      let here : lookup tenant_id s₁.tenants ≡ some prepared =
        ap (λ m. lookup tenant_id m) kept ∙ there in
      let (x₂, ended, final, room₂) =
        finish-ok true r (some seen) replay prepared (o.operation_key t) 1 env.finished_at
          env.finished_sealed_at s₁ here (unfold pending_tenant in refl) room₁ u₃ in
      let (s₂, second, kept₂, _, _, _) =
        transact-ok d c.max_audit_events c.check 0 env.finished_sealed_at env.finished_sealed_at
          finishing s₁ x₂
          (public_tenant c.string_before (finished_tenant p token true r env.finished_at prepared))
          fine (unfold pending_tenant in ended) room₂ (omega arith)
          (saves_end (started prepared replay) s₁ first) in
      let goal = finished-converged p r env.finished_at prepared i in
      let whole : reconcile_locked c d o actor tenant_id key token env state ≡ record {
        answer = ok (
            public_tenant c.string_before
              (finished_tenant p token true r env.finished_at prepared));
        state = s₂;
        commanded = true;
      } =
        unfold pending_tenant in ground (arith, first, second, q s₁) in
      (
        finished_tenant p token true r env.finished_at prepared,
        ap (λ (z : Outcome). z.answer) whole,
        ap (λ (z : Outcome). lookup tenant_id z.state.tenants) whole
            ∙ ap (λ m. lookup tenant_id m) kept₂
            ∙ final,
        goal.0,
        goal.1,
        goal.2,
        goal.3,
        goal.4,
      )
