-- ===== src/Caas/Reconcile/Fence.antt =====
-- What a convergence leaves of a tenant that has another operation, and what it leaves after a
-- failure (caas/service.mjs, #reconcileLocked).
use implement_data_space_pro.Caas.Store.Transact.{transact-unchanged, transact_throws}
use implement_data_space_pro.Prelude.Map.{lookup}
use implement_data_space_pro.Caas.Data.{Result, Code, caas_reconcile_fence_violation, State}
use implement_data_space_pro.Caas.Observe.{Observation, AdapterResult, both}
use implement_data_space_pro.Caas.Reconcile.{
  follow_up, confirmed, key_of, issued, Outcome, converged_as, Env, complete, current_tenant,
  record_failure, give_up, execute, fail, finish, Operator,
}
use implement_data_space_pro.Caas.Store.{is_bound, Replay, Digests}
use implement_data_space_pro.Caas.Tenant.{PublicTenant, Tenant}
use implement_data_space_pro.Caas.Lifecycle.{Actor, Config}
use implement_data_space_pro.Prelude.{
  inr, inl, ◌>>=◌, arith, is_error, ok, err, ◌≡◌, none, String, not, some, true, Bool, Option, ℕ,
}

abbrev key_differs : Option Tenant → Tenant → Bool
key_differs none t = true
key_differs (some current) t = not (both current.operation_key t.operation_key)

module _ (c : Config) (d : Digests Tenant PublicTenant) (o : Operator) (actor : Actor)
    (tenant_id key : String) (token : Option String) where
  finish-fenced :
      (converged : Bool) (r : AdapterResult) (seen : Option Observation)
      (ledger : Replay PublicTenant) (t : Tenant) (now : ℕ) (state : State Tenant PublicTenant)
      → key_differs (lookup tenant_id state.tenants) t ≡ true
      → finish c d o actor tenant_id key token converged r seen ledger t now state
        ≡ err caas_reconcile_fence_violation
  unfolding finish current_tenant
  finish-fenced converged r seen ledger t now state h = ground arith

  fail-fenced :
      (accepted : Option String) (code : String) (t : Tenant) (now : ℕ)
      (state : State Tenant PublicTenant)
      → key_differs (lookup tenant_id state.tenants) t ≡ true
      → fail c d o actor tenant_id key token accepted code t now state ≡ ok state
  unfolding fail record_failure
  fail-fenced accepted code t now state h = ground arith

  abbrev Left : Env → State Tenant PublicTenant → Outcome → Type 0
  Left env state done = (is_error done.answer ≡ true) × (done.state ≡ env.before_finish state)

  give_up-fenced :
      (env : Env) (accepted : Option String) (code : Code) (t : Tenant)
      (state : State Tenant PublicTenant)
      → key_differs (lookup tenant_id (env.before_finish state).tenants) t ≡ true
      → is_bound d (env.before_finish state) ≡ true
      → Left env state (give_up c d o actor tenant_id key token env accepted code t state)
  unfolding give_up
  give_up-fenced env accepted code t state h b =
      let before = env.before_finish state in
      let failing : State Tenant PublicTenant → Result (Unit {0} × State Tenant PublicTenant) =
        λ db.
          fail c d o actor tenant_id key token accepted env.failure_code t env.finished_at db
          >>= λ marked. ok (tt, marked) in
      let unmarked : failing before ≡ ok (tt, before) =
        ground (arith, fail-fenced accepted env.failure_code t env.finished_at before h) in
      elim (transact-unchanged d c.max_audit_events c.check env.finished_sealed_at failing before tt
        b unmarked) [
          | inl kept ↦ ground (arith, kept)
          | inr (other, refused) ↦ ground (arith, refused)
        ]

  complete-fenced :
      (env : Env) (r : AdapterResult) (seen : Option Observation) (ledger : Replay PublicTenant)
      (t : Tenant) (state : State Tenant PublicTenant)
      → key_differs (lookup tenant_id (env.before_finish state).tenants) t ≡ true
      → Left env state (complete c d o actor tenant_id key token env r seen ledger t state)
  unfolding complete
  complete-fenced env r seen ledger t state h =
      let before = env.before_finish state in
      let converged =
        converged_as c d o actor tenant_id key token seen r t
          (key_of c d o actor tenant_id key token t.operation_key) in
      let finishing =
        finish c d o actor tenant_id key token converged r seen ledger t env.finished_at in
      let (other, thrown_away) =
        transact_throws d c.max_audit_events c.check env.finished_sealed_at finishing before
          caas_reconcile_fence_violation
          (finish-fenced converged r seen ledger t env.finished_at before h) in
      ground (arith, thrown_away)

  -- When another writer has given the tenant another operation before the last transaction, or has
  -- removed it, the convergence throws and leaves the state as that writer left it, which is bound to
  -- its audit as every state that is committed, whatever the provisioner answers.
  pub execute-fenced :
      (env : Env) (ledger : Replay PublicTenant) (t : Tenant) (state : State Tenant PublicTenant)
      → key_differs (lookup tenant_id (env.before_finish state).tenants) t ≡ true
      → is_bound d (env.before_finish state) ≡ true
      → let done = execute c d o actor tenant_id key token env ledger t state in
        (is_error done.answer ≡ true) × (done.state ≡ env.before_finish state)
  unfolding execute
  execute-fenced env ledger t state h b =
      follow (issued c d o actor tenant_id key token env (o.provisioner t.adapter_id))
        (confirmed c d o actor tenant_id key token env (o.provisioner t.adapter_id))
    where
      follow :
          (sent : Result AdapterResult) (seen : Result (Option Observation))
          → Left env state (follow_up c d o actor tenant_id key token env ledger t state sent seen)
      follow (err code) seen = unfold follow_up in give_up-fenced env none code t state h b
      follow (ok r) (err code) = unfold follow_up in give_up-fenced env token code t state h b
      follow (ok r) (ok seen) = unfold follow_up in complete-fenced env r seen ledger t state h
