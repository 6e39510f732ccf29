-- ===== src/Caas/Store/Chain.antt =====
-- The audit chain and its binding to the state (caas/store.mjs, validateCaasState, appendAudit and
-- sealCaasState).
use implement_data_space_pro.Caas.Data.{
  is_actor_identifier, Unsigned, is_sha256, Entry, State, Event,
}
use implement_data_space_pro.Caas.Store.{
  commit_entry, validate_binding, is_bound, caas_state_snapshot_digest, bound, append_audit,
  seal_caas_state, chain_head, valid_actor, same_head, validate_audit, Digests,
}
use implement_data_space_pro.Prelude.{
  subst, ap, ◌∙◌, length-append, inr, last-append, inl, refl, last, Result-cases, false, sym, ◌++◌,
  length, eq_iff, arith, ◌+◌, ◌↔◌, [], true, ok, ◌∷◌, ◌≡◌, List, String, Option, ℕ, none, some,
}

same_head_iff : (a b : Option String) → (same_head a b ≡ true) ↔ (a ≡ b)
same_head_iff none none = ground arith
same_head_iff none (some b) = ground arith
same_head_iff (some a) none = ground arith
same_head_iff (some a) (some b) = ground (arith, eq_iff a b)

module _ {T R : Type 0} (d : Digests T R) where
  -- The head that the validation of an audit ends with.
  abbrev end_of : Option String → List Event → Option String
  end_of previous [] = previous
  end_of previous (event ∷ events) = chain_head (event ∷ events)

  validate_audit-head :
      (index : ℕ) (previous : Option String) (events : List Event) (head : Option String)
      → validate_audit d index previous events ≡ ok head
      → head ≡ end_of previous events
  unfolding validate_audit
  validate_audit-head index previous [] head e = ground arith
  validate_audit-head index previous (event ∷ []) head e = ground arith
  validate_audit-head index previous (event ∷ next ∷ events) head e =
      let rest = validate_audit-head (index + 1) (some event.event_digest) (next ∷ events) head in
      ground (arith, rest)

  -- The event continues a chain of this length that ends with this head.
  abbrev Continues : ℕ → Option String → Event → Type 0
  Continues n head event =
      (valid_actor event.body.entry ≡ true)
      × (event.body.sequence ≡ n + 1)
      × (event.body.previous_digest ≡ head)
      × (event.event_digest ≡ d.event_digest event.body)

  validate_audit-append :
      (index : ℕ) (previous : Option String) (events : List Event) (event : Event)
      (head : Option String)
      → validate_audit d index previous events ≡ ok head
      → Continues (index + length events) head event
      → validate_audit d index previous (events ++ event ∷ []) ≡ ok (some event.event_digest)
  unfolding validate_audit
  validate_audit-append index previous [] event head e h = ground (
    arith,
    eq_iff event.event_digest (d.event_digest event.body),
    same_head_iff event.body.previous_digest previous,
  )
  validate_audit-append index previous (first ∷ events) event head e h =
      ground (arith, validate_audit-append (index + 1) (some first.event_digest) events event head)

  chain-head :
      (state : State T R) (head : Option String)
      → validate_audit d 0 none state.audit ≡ ok head
      → head ≡ chain_head state.audit
  chain-head state head e = settle state.audit e
    where
      settle :
          (events : List Event)
          → validate_audit d 0 none events ≡ ok head
          → head ≡ chain_head events
      settle [] h = validate_audit-head 0 none [] head h
      settle (event ∷ events) h = validate_audit-head 0 none (event ∷ events) head h

  -- A valid chain stays valid when an event of a valid actor is appended: one event comes at the
  -- end, with this entry, and its digest is the new head.
  pub append_audit-extends :
      (max now : ℕ) (entry : Entry) (state state' : State T R) (head : Option String)
      → valid_actor entry ≡ true
      → validate_audit d 0 none state.audit ≡ ok head
      → append_audit d max now entry state ≡ ok state'
      → (event : Event) × (state' ≡ record state { audit = state.audit ++ event ∷ [] })
        × (event.body.entry ≡ entry)
        × (validate_audit d 0 none state'.audit ≡ ok (some event.event_digest))
  unfolding append_audit
  append_audit-extends max now entry state state' head a v e =
      let body : Unsigned = record {
        sequence = length state.audit + 1;
        previous_digest = chain_head state.audit;
        occurred_at = now;
        entry = entry;
      } in
      let event : Event = record { body = body; event_digest = d.event_digest body } in
      let linked =
        validate_audit-append 0 none state.audit event head v
          (a, omega arith, sym (chain-head state head v), refl) in
      let same : state' ≡ record state { audit = state.audit ++ event ∷ [] } = ground arith in
      (event, same, refl, rw same linked)

  commit_entry-actor :
      (digest : String) → is_sha256 digest ≡ true → valid_actor (commit_entry digest) ≡ true
  unfolding valid_actor is_actor_identifier
  commit_entry-actor digest s = ground arith

  -- A state that is bound to its last event, a commit of its snapshot.
  bound-validates :
      (state : State T R) (events : List Event) (event : Event)
      → state.audit ≡ events ++ event ∷ []
      → validate_audit d 0 none state.audit ≡ ok (some event.event_digest)
      → event.body.entry ≡ commit_entry (caas_state_snapshot_digest d state)
      → validate_binding d (bound d (caas_state_snapshot_digest d state) state) ≡ ok tt
  unfolding bound validate_binding
  bound-validates state events event a v c =
      let digest = caas_state_snapshot_digest d state in
      let newest : last state.audit ≡ some event = rw a (last-append events event) in
      let filled : length state.audit ≡ length events + 1 =
        rw a (length-append events (event ∷ [])) in
      ground (
        arith,
        eq_iff digest digest,
        eq_iff event.event_digest event.event_digest,
        eq_iff (d.binding_digest (some event.event_digest) digest)
            (d.binding_digest (some event.event_digest) digest),
      )

  -- What the seal of a state that has changed is, when the commit is appended.
  sealed-bound :
      (max now : ℕ) (state sealed next : State T R)
      → is_bound d state ≡ false
      → seal_caas_state d max now state ≡ ok sealed
      → append_audit d max now (commit_entry (caas_state_snapshot_digest d state)) state ≡ ok next
      → sealed ≡ bound d (caas_state_snapshot_digest d state) next
  unfolding seal_caas_state
  sealed-bound max now state sealed next n e done = ground arith

  -- A state whose chain is valid, and which is not yet bound to it, passes the validation of the
  -- chain and of its binding once it is sealed; the seal appends one commit of its snapshot.
  pub seal-validates :
      (max now : ℕ) (state sealed : State T R) (head : Option String)
      → is_sha256 (caas_state_snapshot_digest d state) ≡ true
      → validate_audit d 0 none state.audit ≡ ok head
      → is_bound d state ≡ false
      → seal_caas_state d max now state ≡ ok sealed
      → (validate_binding d sealed ≡ ok tt)
        × ((event : Event) × (sealed.audit ≡ state.audit ++ event ∷ [])
            × (event.body.entry ≡ commit_entry (caas_state_snapshot_digest d state)))
  unfolding seal_caas_state bound
  seal-validates max now state sealed head s v n e =
      let digest = caas_state_snapshot_digest d state in
      elim (Result-cases (append_audit d max now (commit_entry digest) state)) [
        | inl (next, done) ↦
            let (event, same, said, chain) =
              append_audit-extends max now (commit_entry digest) state next head
                (commit_entry-actor digest s) v done in
            let after = record state { audit = state.audit ++ event ∷ [] } in
            let final : sealed ≡ bound d digest after =
              sealed-bound max now state sealed next n e done ∙ ap (bound d digest) same in
            let linked =
              subst (λ s. validate_audit d 0 none s.audit ≡ ok (some event.event_digest)) same
                chain in
            (
              subst (λ s. validate_binding d s ≡ ok tt) (sym final)
                  (bound-validates after state.audit event refl linked said),
              (event, ap (λ (s : State T R). s.audit) final ∙ unfold bound in refl, said),
            )
        | inr (c, failed) ↦ ground arith
      ]
