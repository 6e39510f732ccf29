-- ===== src/Caas/Store/Transact.antt =====
-- When a transaction of the store succeeds, and what it keeps (caas/store.mjs, withCaasState).
use implement_data_space_pro.Caas.Store.Append.{append_audit-ok, HasRoom}
use implement_data_space_pro.Caas.Data.{Code, Event, Result, State}
use implement_data_space_pro.Caas.Store.{
  commit_entry, caas_state_snapshot_digest, not_before, is_bound, append_audit, bound, committed,
  seal_caas_state, transact, Digests,
}
use implement_data_space_pro.Prelude.{
  Result-cases, err, ◌⊎◌, refl, none, inr, last, inl, Bool-cases, some, sym, ap, ◌∙◌, Option,
  ok-injective, >>=-ok, ◌≤◌, suc, arith, >>-ok, true, ◌≡◌, ok, ℕ,
}

module _ {T R : Type 0} (d : Digests T R) (max : ℕ) (check : State T R → Result (Unit {0})) where
  -- The seal of a state with room for more than one event succeeds and leaves room.
  seal_caas_state-ok :
      (n now later : ℕ) (state : State T R)
      → HasRoom (suc n) max now state
      → now ≤ later
      → (s : State T R) × (seal_caas_state d max now state ≡ ok s)
        × (s.tenants ≡ state.tenants)
        × (s.requests ≡ state.requests)
        × HasRoom n max later s
  unfolding seal_caas_state bound
  seal_caas_state-ok n now later state h t = elim (Bool-cases (is_bound d state)) [
    | inl unchanged ↦ (
      state,
      ground (arith, unchanged),
      refl,
      refl,
      record {
        room = omega (arith, h.room);
        in_time = not_before-later (last state.audit) now later h.in_time t;
      },
    )
    | inr changed ↦
        let digest = caas_state_snapshot_digest d state in
        let (s, done, kept, ledger, room) =
          append_audit-ok d n max now later (commit_entry digest) state h t in
        (
          bound d digest s,
          ground (arith, changed, done),
          kept,
          ledger,
          record { room = room.room; in_time = room.in_time },
        )
  ]
    where
      not_before-later :
          (newest : Option Event) (now later : ℕ)
          → not_before newest now ≡ true
          → now ≤ later
          → not_before newest later ≡ true
      not_before-later none now later h t = refl
      not_before-later (some event) now later h t = ground (arith, h, t)

  -- The seal touches neither the tenants nor the ledger.
  pub seal_caas_state-keeps :
      (now : ℕ) (state sealed : State T R)
      → seal_caas_state d max now state ≡ ok sealed
      → (sealed.tenants ≡ state.tenants) × (sealed.requests ≡ state.requests)
  unfolding seal_caas_state bound append_audit
  seal_caas_state-keeps now state sealed e = ground arith

  -- A state that is bound to its audit, and that passes the check, stays as it is when the operation
  -- leaves it.
  pub transact-same :
      {A : Type 0} (now : ℕ) (operation : State T R → Result (A × State T R)) (state : State T R)
      (answer : A)
      → is_bound d state ≡ true
      → check state ≡ ok tt
      → operation state ≡ ok (answer, state)
      → transact d max now check operation state ≡ ok (answer, state)
  unfolding transact committed seal_caas_state
  transact-same now operation state answer b k e = ground (arith, b, k, e)

  -- What a transaction that succeeds was made of.
  pub transact-parts :
      {A : Type 0} (now : ℕ) (operation : State T R → Result (A × State T R))
      (state state' : State T R) (answer : A)
      → transact d max now check operation state ≡ ok (answer, state')
      → (s : State T R) × (operation state ≡ ok (answer, s))
        × (state'.tenants ≡ s.tenants)
        × (state'.requests ≡ s.requests)
  unfolding transact committed
  transact-parts now operation state state' answer e =
      let (_, rest) = >>-ok (check state) _ e in
      let ((a, s), done, sealing) = >>=-ok (operation state) _ rest in
      let (next, sealed, checking) = >>=-ok (seal_caas_state d max now s) _ sealing in
      let (_, given) = >>-ok (check next) (ok (a, next)) checking in
      let same = ok-injective given in
      let (tenants, requests) = seal_caas_state-keeps now s next sealed in
      (
        s,
        done ∙ ap (λ x. ok (x, s)) (ap (λ p. p.0) same),
        sym (ap (λ p. p.1.tenants) same) ∙ tenants,
        sym (ap (λ p. p.1.requests) same) ∙ requests,
      )

  -- What the save of a transaction's result does not refuse.
  abbrev pub Saves : {A : Type 0} → ℕ → Result (A × State T R) → Type 0
  Saves {A} now result =
      (answer : A) (changed sealed : State T R)
      → result ≡ ok (answer, changed)
      → seal_caas_state d max now changed ≡ ok sealed
      → check sealed ≡ ok tt

  -- A transaction succeeds when its operation does, with room for the seal.
  pub transact-ok :
      {A : Type 0} (n now later : ℕ) (operation : State T R → Result (A × State T R))
      (state s : State T R) (answer : A)
      → check state ≡ ok tt
      → operation state ≡ ok (answer, s)
      → HasRoom (suc n) max now s
      → now ≤ later
      → Saves now (operation state)
      → (s' : State T R) × (transact d max now check operation state ≡ ok (answer, s'))
        × (s'.tenants ≡ s.tenants)
        × (s'.requests ≡ s.requests)
        × (check s' ≡ ok tt)
        × HasRoom n max later s'
  unfolding transact committed
  transact-ok n now later operation state s answer k e h t saves =
      let (s', sealed, tenants, requests, room) = seal_caas_state-ok n now later s h t in
      let fine = saves answer s s' e sealed in
      (s', ground (arith, k, e, sealed, fine), tenants, requests, fine, room)

  -- When the operation throws, so does the transaction.
  pub transact_throws :
      {A : Type 0} (now : ℕ) (operation : State T R → Result (A × State T R)) (state : State T R)
      (code : Code)
      → operation state ≡ err code
      → (other : Code) × (transact d max now check operation state ≡ err other)
  unfolding transact committed
  transact_throws now operation state code e = elim (Result-cases (check state)) [
    | inl (done, passed) ↦ (code, ground (arith, passed, e))
    | inr (refused, failed) ↦ (refused, ground (arith, failed))
  ]

  -- A state that is bound to its audit stays as it is when the operation leaves it, or is refused.
  pub transact-unchanged :
      {A : Type 0} (now : ℕ) (operation : State T R → Result (A × State T R)) (state : State T R)
      (answer : A)
      → is_bound d state ≡ true
      → operation state ≡ ok (answer, state)
      → (transact d max now check operation state ≡ ok (answer, state))
        ⊎ ((other : Code) × (transact d max now check operation state ≡ err other))
  unfolding transact
  transact-unchanged now operation state answer b e = elim (Result-cases (check state)) [
    | inl (_, passed) ↦ inl (transact-same now operation state answer b passed e)
    | inr (refused, failed) ↦ inr (refused, ground (arith, failed))
  ]
