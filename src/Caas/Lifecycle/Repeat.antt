-- ===== src/Caas/Lifecycle/Repeat.antt =====
-- A command that is sent again (caas/service.mjs).
use implement_data_space_pro.Caas.Store.Transact.{transact-same, transact-parts}
use implement_data_space_pro.Caas.Store.Ledger.{
  idempotency_replay-kept, KeepsEntry, recorded-replays,
}
use implement_data_space_pro.Prelude.Map.{lookup-insert, insert, lookup}
use implement_data_space_pro.Caas.Data.{
  connector_rollback_requested, desired_state_confirmed, desired_state_changed, DesiredState, Entry,
}
use implement_data_space_pro.Caas.Tenant.{PublicTenant, Tenant}
use implement_data_space_pro.Caas.Store.{
  is_bound, transact, idempotency_replay, Replay, record_idempotency, append_audit, Digests,
}
use implement_data_space_pro.Caas.Lifecycle.{
  truthy, is_tenant, is_admin, valid_caller, version_entry, rolled_back, moved, rollback,
  desired_entry, same_desired, Store, change_desired_state, Actor, commit, desire,
  set_desired_state, Config,
}
use implement_data_space_pro.Prelude.{
  ◌∙◌, ◌||◌, not, subst, true, refl, eq_iff, inr, inl, Bool-cases, Result-cases, arith,
  Option-cases, some, ok, ◌≡◌, String, ℕ,
}

module _ (c : Config) (d : Digests Tenant PublicTenant) where
  append_audit-keeps :
      (max now : ℕ) (entry : Entry) (state : Store c d) {state' : Store c d}
      → append_audit d max now entry state ≡ ok state'
      → (state'.tenants ≡ state.tenants) × (state'.requests ≡ state.requests)
  unfolding append_audit
  append_audit-keeps max now entry state e = ground arith

  -- What a command commits: the tenant, and the answer in the ledger.
  commit-writes :
      (replay : Replay PublicTenant) (tenant_id : String) (entry : Entry) (now : ℕ) (t : Tenant)
      (state state' : Store c d) (answer : PublicTenant)
      → commit c d replay tenant_id entry now t state ≡ ok (answer, state')
      → (lookup tenant_id state'.tenants ≡ some t)
        × (state'.requests ≡ (record_idempotency state replay answer now).requests)
  unfolding commit record_idempotency
  commit-writes replay tenant_id entry now t state state' answer e =
      elim (Result-cases (
        append_audit d c.max_audit_events now entry
          (record state { tenants = insert tenant_id t state.tenants }))) [
            | inr (code, failed) ↦ ground (arith, failed)
            | inl (audited, done) ↦ ground (
              arith,
              done,
              append_audit-keeps c.max_audit_events now entry
                  (record state { tenants = insert tenant_id t state.tenants }) done,
              lookup-insert tenant_id tenant_id t state.tenants,
              eq_iff tenant_id tenant_id,
            )
          ]

  desire-writes :
      (actor : Actor) (tenant_id : String) (desired : DesiredState) (now : ℕ)
      (replay : Replay PublicTenant) (t : Tenant) (state state' : Store c d) (answer : PublicTenant)
      → lookup tenant_id state.tenants ≡ some t
      → desire c d actor tenant_id desired now replay t state ≡ ok (answer, state')
      → (t' : Tenant) × (lookup tenant_id state'.tenants ≡ some t')
        × (t'.dataspace_id ≡ t.dataspace_id)
        × (state'.requests ≡ (record_idempotency state replay answer now).requests)
  unfolding desire change_desired_state
  desire-writes actor tenant_id desired now replay t state state' answer found e =
      elim (Bool-cases (same_desired t.desired_state desired)) [
        | inr differs ↦
            let changed = change_desired_state desired now t in
            let kept =
              commit-writes replay tenant_id
                (desired_entry actor desired_state_changed tenant_id changed) now changed state
                state' answer (ground (arith, differs)) in
            (changed, kept.0, refl, kept.1)
        | inl same ↦ elim (Bool-cases c.scoped) [
          | inl scoped ↦
              let kept =
                commit-writes replay tenant_id
                  (desired_entry actor desired_state_confirmed tenant_id t) now t state state'
                  answer (ground (arith, same, scoped)) in
              (t, kept.0, refl, kept.1)
          | inr plain ↦ (
            t,
            unfold record_idempotency in ground (arith, same, plain),
            refl,
            ground (arith, same, plain),
          )
        ]
      ]

  -- The ledger that an answer leaves knows it.
  abbrev Known : String → String → String → String → Store c d → PublicTenant → Type 0
  Known operation tenant_id key request_digest state answer =
      (replay : Replay PublicTenant) × (idempotency_replay d state operation tenant_id key
          request_digest
        ≡ ok replay)
      × (replay.result ≡ some answer)

  set_desired_state-Known :
      (actor : Actor) (tenant_id key request_digest : String) (desired : DesiredState) (now : ℕ)
      (state state' : Store c d) (answer : PublicTenant)
      → set_desired_state c d actor tenant_id key request_digest desired now state
        ≡ ok (answer, state')
      → (valid_caller actor ≡ true) × Known "desired" tenant_id key request_digest state' answer
  unfolding set_desired_state
  set_desired_state-Known actor tenant_id key request_digest desired now state state' answer e =
      elim (Option-cases (lookup tenant_id state.tenants)) [
        | inl missing ↦ ground (arith, missing)
        | inr (t, found) ↦
            elim (Result-cases
              (idempotency_replay d state "desired" tenant_id key request_digest)) [
                | inr (code, failed) ↦ ground (arith, found, failed)
                | inl (replay, read) ↦ elim (Option-cases replay.result) [
                  | inr (result, known) ↦
                      let same : state ≡ state' = ground (arith, found, read, known) in
                      let again =
                        subst
                          (λ s.
                            idempotency_replay d s "desired" tenant_id key request_digest
                            ≡ ok replay)
                          same read in
                      (ground (arith, e), (replay, again, ground (arith, found, read, known)))
                  | inl fresh ↦
                      let (t', there, bound_to, ledger) =
                        desire-writes actor tenant_id desired now replay t state state' answer found
                          (ground (arith, found, read, fresh)) in
                      (
                        ground (arith, e),
                        (
                          record replay { result = some answer },
                          recorded-replays d state state' "desired" tenant_id key request_digest
                              replay answer now read fresh ledger,
                          refl,
                        ),
                      )
                ]
              ]
      ]

  rollback-Known :
      (actor : Actor) (tenant_id key request_digest target : String) (now : ℕ)
      (state state' : Store c d) (answer : PublicTenant)
      → rollback c d actor tenant_id key request_digest target now state ≡ ok (answer, state')
      → (valid_caller actor ≡ true)
        × ((is_admin actor.role || is_tenant actor.role) ≡ true)
        × Known "rollback" tenant_id key request_digest state' answer
  unfolding rollback moved
  rollback-Known actor tenant_id key request_digest target now state state' answer e =
      elim (Option-cases (lookup tenant_id state.tenants)) [
        | inl missing ↦ ground (arith, missing)
        | inr (t, found) ↦
            elim (Result-cases
              (idempotency_replay d state "rollback" tenant_id key request_digest)) [
                | inr (code, failed) ↦ ground (arith, found, failed)
                | inl (replay, read) ↦ elim (Option-cases replay.result) [
                  | inr (result, known) ↦
                      let same : state ≡ state' = ground (arith, found, read, known) in
                      let again =
                        subst
                          (λ s.
                            idempotency_replay d s "rollback" tenant_id key request_digest
                            ≡ ok replay)
                          same read in
                      (
                        ground (arith, e),
                        ground (arith, e),
                        (replay, again, ground (arith, found, read, known)),
                      )
                  | inl fresh ↦ elim (Result-cases (rolled_back c d target now t)) [
                    | inr (code, failed) ↦ ground (arith, found, read, fresh, failed)
                    | inl (t', written) ↦
                        let kept =
                          commit-writes replay tenant_id
                            (version_entry actor connector_rollback_requested tenant_id t') now t'
                            state state' answer (ground (arith, found, read, fresh, written)) in
                        (
                          ground (arith, e),
                          ground (arith, e),
                          (
                            record replay { result = some answer },
                            recorded-replays d state state' "rollback" tenant_id key request_digest
                                replay answer now read fresh kept.1,
                            refl,
                          ),
                        )
                  ]
                ]
              ]
      ]

  -- What a ledger knows, a later one in which the entry is kept knows too.
  Known-kept :
      (operation tenant_id key request_digest : String) (s state' later : Store c d)
      (answer : PublicTenant)
      → state'.requests ≡ s.requests
      → KeepsEntry d operation tenant_id key state'.requests later.requests
      → Known operation tenant_id key request_digest s answer
      → Known operation tenant_id key request_digest later answer
  Known-kept operation tenant_id key request_digest s state' later answer same kept
        (replay, read, known) =
      let entry = subst (λ m. KeepsEntry d operation tenant_id key m later.requests) same kept in
      (
        replay,
        idempotency_replay-kept d s later operation tenant_id key request_digest entry ∙ read,
        known,
      )

  -- A transaction that changes the desired state and was answered, sent again with its key in any
  -- later state that keeps the ledger's entry of the request, that has the tenant, that is bound to
  -- its audit and that a load takes, at any time, by the same actor, who is an administrator if the
  -- tenant is bound to a dataspace: the same answer, and nothing changes.
  pub set_desired_state-repeats :
      (actor : Actor) (tenant_id key request_digest : String) (desired : DesiredState)
      (now sealed_at again sealed_again : ℕ) (state state' later : Store c d) (t : Tenant)
      (answer : PublicTenant)
      → transact d c.max_audit_events sealed_at c.check
          (set_desired_state c d actor tenant_id key request_digest desired now)
          state
        ≡ ok (answer, state')
      → KeepsEntry d "desired" tenant_id key state'.requests later.requests
      → lookup tenant_id later.tenants ≡ some t
      → (not (truthy t.dataspace_id) || is_admin actor.role) ≡ true
      → is_bound d later ≡ true
      → c.check later ≡ ok tt
      → transact d c.max_audit_events sealed_again c.check
          (set_desired_state c d actor tenant_id key request_digest desired again)
          later
        ≡ ok (answer, later)
  unfolding set_desired_state
  set_desired_state-repeats actor tenant_id key request_digest desired now sealed_at again
        sealed_again state state' later t answer e kept there allowed bound_to taken =
      let command =
        λ (at : ℕ). set_desired_state c d actor tenant_id key request_digest desired at in
      let (s, first, _, requests) =
        transact-parts d c.max_audit_events c.check sealed_at (command now) state state' answer e in
      let (caller, known) =
        set_desired_state-Known actor tenant_id key request_digest desired now state s answer
          first in
      let (replay, read, found) =
        Known-kept "desired" tenant_id key request_digest s state' later answer requests kept
          known in
      let same : command again later ≡ ok (answer, later) =
        ground (arith, caller, there, allowed, read, found) in
      transact-same d c.max_audit_events c.check sealed_again (command again) later answer bound_to
        taken same

  -- A rollback that was answered, sent again with its key in any later state that keeps the ledger's
  -- entry of the request, that has the tenant, that is bound to its audit and that a load takes, at
  -- any time and by the same actor: the same answer, and nothing changes.
  pub rollback-repeats :
      (actor : Actor) (tenant_id key request_digest target : String)
      (now sealed_at again sealed_again : ℕ) (state state' later : Store c d) (t : Tenant)
      (answer : PublicTenant)
      → transact d c.max_audit_events sealed_at c.check
          (rollback c d actor tenant_id key request_digest target now)
          state
        ≡ ok (answer, state')
      → KeepsEntry d "rollback" tenant_id key state'.requests later.requests
      → lookup tenant_id later.tenants ≡ some t
      → is_bound d later ≡ true
      → c.check later ≡ ok tt
      → transact d c.max_audit_events sealed_again c.check
          (rollback c d actor tenant_id key request_digest target again)
          later
        ≡ ok (answer, later)
  unfolding rollback
  rollback-repeats actor tenant_id key request_digest target now sealed_at again sealed_again state
        state' later t answer e kept there bound_to taken =
      let command = λ (at : ℕ). rollback c d actor tenant_id key request_digest target at in
      let (s, first, _, requests) =
        transact-parts d c.max_audit_events c.check sealed_at (command now) state state' answer e in
      let (caller, role, known) =
        rollback-Known actor tenant_id key request_digest target now state s answer first in
      let (replay, read, found) =
        Known-kept "rollback" tenant_id key request_digest s state' later answer requests kept
          known in
      let same : command again later ≡ ok (answer, later) =
        ground (arith, caller, role, there, read, found) in
      transact-same d c.max_audit_events c.check sealed_again (command again) later answer bound_to
        taken same
