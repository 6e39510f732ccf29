-- ===== src/Caas/Register/Distinct.antt =====
-- No two tenants share a participant, a namespace or an endpoint (caas/service.mjs, register).
use implement_data_space_pro.Caas.Secrets.{tenant_identity}
use implement_data_space_pro.Caas.Data.{
  caas_actor_invalid, caas_adapter_not_found, caas_secret_ref_invalid, Result, State,
}
use implement_data_space_pro.Caas.Register.{
  static_checks, registration_plan, valid_references, or_replayed, Registration, admit, register,
  new_tenant, Derived, names_differ, Registrar,
}
use implement_data_space_pro.Caas.Store.{
  idempotency_replay, Replay, record_idempotency, append_audit, Digests,
}
use implement_data_space_pro.Caas.Tenant.{Plan, PublicTenant, Tenant}
use implement_data_space_pro.Caas.Lifecycle.{valid_caller, Actor, commit, Config}
use implement_data_space_pro.Prelude.Map.{lookup-insert, insert, lookup, Map}
use implement_data_space_pro.Prelude.{
  assert_runtime, >>=-ok, none, ok-injective, ap, subst, ◌∙◌, Option, ◌⊎◌, inr, inl, str_eq,
  Bool-cases, sym, eq_iff, arith, ok, ◌∷◌, [], ◌≢◌, some, ◌≡◌, String, ℕ,
}

abbrev Differ : Tenant → Tenant → Type 0
Differ t u =
    (t.participant_id ≢ u.participant_id) × (t.namespace ≢ u.namespace) × (t.endpoint ≢ u.endpoint)

-- Any two tenants differ in each of the names that the identity policy derives.
abbrev pub AreDistinct : Map Tenant → Type 0
AreDistinct tenants =
    (k j : String) (t u : Tenant)
    → lookup k tenants ≡ some t
    → lookup j tenants ≡ some u
    → k ≢ j
    → Differ t u

Differ-sym : (t u : Tenant) → Differ t u → Differ u t
Differ-sym t u (p, n, e) = (λ h. p (sym h), λ h. n (sym h), λ h. e (sym h))

lookup-inserted :
    (id j : String) (t u : Tenant) (tenants : Map Tenant)
    → lookup j (insert id t tenants) ≡ some u
    → ((id ≡ j) × (t ≡ u)) ⊎ (lookup j tenants ≡ some u)
lookup-inserted id j t u tenants h = elim (Bool-cases (str_eq id j)) [
  | inl same ↦ inl (ground (arith, eq_iff id j), cc (lookup-insert id j t tenants, same))
  | inr other ↦ inr (cc (lookup-insert id j t tenants, other))
]

insert-AreDistinct :
    (id : String) (t : Tenant) (tenants : Map Tenant)
    → ((k : String) (u : Tenant) → lookup k tenants ≡ some u → Differ u t)
    → AreDistinct tenants
    → AreDistinct (insert id t tenants)
insert-AreDistinct id t tenants fresh distinct k j v w hk hj apart =
    elim (lookup-inserted id k t v tenants hk) [
      | inl (is_k, is_v) ↦ elim (lookup-inserted id j t w tenants hj) [
        | inl (is_j, is_w) ↦ elim (apart (sym is_k ∙ is_j)) [ ]
        | inr there ↦ subst (λ x. Differ x w) is_v (Differ-sym w t (fresh j w there))
      ]
      | inr here ↦ elim (lookup-inserted id j t w tenants hj) [
        | inl (is_j, is_w) ↦ subst (λ x. Differ v x) is_w (fresh k v here)
        | inr there ↦ distinct k j v w here there apart
      ]
    ]

module _ (c : Config) (d : Digests Tenant PublicTenant) (g : Registrar) where
  names_differ-found :
      (derived : Derived) (k : String) (t : Tenant) (tenants : Map Tenant)
      → names_differ c d g derived tenants ≡ ok tt
      → lookup k tenants ≡ some t
      → (t.participant_id ≢ derived.participant_id)
        × (t.namespace ≢ derived.namespace)
        × (t.endpoint ≢ derived.endpoint)
  unfolding names_differ lookup
  names_differ-found derived k t [] h e = cc
  names_differ-found derived k t ((j, u) ∷ tenants) h e = ground (
    arith,
    names_differ-found derived k t tenants,
    eq_iff u.participant_id derived.participant_id,
    eq_iff u.namespace derived.namespace,
    eq_iff u.endpoint derived.endpoint,
  )

  admit-ok :
      (actor : Actor) (request : Registration) (secret : Option String) (plan_id : String)
      (plan : Plan) (now : ℕ) (replay : Replay PublicTenant)
      (state state' : State Tenant PublicTenant) (answer : PublicTenant)
      → admit c d g actor request secret plan_id plan now replay state ≡ ok (answer, state')
      → (names_differ c d g (tenant_identity g.identity_policy request.tenant_id) state.tenants
          ≡ ok tt)
        × (state'.tenants
            ≡ insert request.tenant_id (new_tenant c d g request plan_id plan now) state.tenants)
  unfolding admit commit append_audit record_idempotency
  admit-ok actor request secret plan_id plan now replay state state' answer h = ground arith

  admit-AreDistinct :
      (actor : Actor) (request : Registration) (secret : Option String) (plan_id : String)
      (plan : Plan) (now : ℕ) (replay : Replay PublicTenant)
      (state state' : State Tenant PublicTenant) (answer : PublicTenant)
      → AreDistinct state.tenants
      → admit c d g actor request secret plan_id plan now replay state ≡ ok (answer, state')
      → AreDistinct state'.tenants
  unfolding new_tenant
  admit-AreDistinct actor request secret plan_id plan now replay state state' answer distinct h =
      let (differ, same) =
        admit-ok actor request secret plan_id plan now replay state state' answer h in
      let t = new_tenant c d g request plan_id plan now in
      subst AreDistinct (sym same) (
        insert-AreDistinct request.tenant_id t state.tenants
          (λ k u there.
            names_differ-found (tenant_identity g.identity_policy request.tenant_id) k u
              state.tenants differ there)
          distinct)

  or_replayed-AreDistinct :
      (result : Option PublicTenant) (state state' : State Tenant PublicTenant)
      (answer : PublicTenant) (fresh : Result (PublicTenant × State Tenant PublicTenant))
      → AreDistinct state.tenants
      → (fresh ≡ ok (answer, state') → AreDistinct state'.tenants)
      → or_replayed c d g result state fresh ≡ ok (answer, state')
      → AreDistinct state'.tenants
  or_replayed-AreDistinct (some found) state state' answer fresh distinct rest h =
      subst (λ s. AreDistinct s.tenants) (ap (λ p. p.1) (ok-injective h)) distinct
  or_replayed-AreDistinct none state state' answer fresh distinct rest h = rest h

  -- A registration that succeeds, new or replayed, keeps the tenants distinct: if any two of them
  -- differ in their participant, their namespace and their endpoint, they do so afterwards.
  pub register-AreDistinct :
      (actor : Actor) (key : String) (request : Registration) (now : ℕ)
      (state state' : State Tenant PublicTenant) (answer : PublicTenant)
      → AreDistinct state.tenants
      → register c d g actor key request now state ≡ ok (answer, state')
      → AreDistinct state'.tenants
  unfolding register
  register-AreDistinct actor key request now state state' answer distinct h =
      let (_, _, h1) =
        >>=-ok
          (assert_runtime (valid_references request.deployment_secret_refs) caas_secret_ref_invalid)
          _ h in
      let (_, _, h2) =
        >>=-ok (assert_runtime (c.has_adapter request.adapter_id) caas_adapter_not_found) _ h1 in
      let (plan, _, h3) = >>=-ok (registration_plan c d g request) _ h2 in
      let (secret, _, h4) = >>=-ok (static_checks c d g request) _ h3 in
      let (_, _, h5) = >>=-ok (assert_runtime (valid_caller actor) caas_actor_invalid) _ h4 in
      let (replay, _, h6) =
        >>=-ok
          (idempotency_replay d state "register" request.tenant_id key (g.request_digest request)) _
          h5 in
      or_replayed-AreDistinct replay.result state state' answer
        (admit c d g actor request secret plan.0 plan.1 now replay state) distinct
        (admit-AreDistinct actor request secret plan.0 plan.1 now replay state state' answer
          distinct)
        h6
