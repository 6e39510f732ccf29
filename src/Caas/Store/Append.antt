-- ===== src/Caas/Store/Append.antt =====
-- When an event can be appended to the audit (caas/store.mjs, appendAudit).
use implement_data_space_pro.Caas.Store.{chain_head, not_before, append_audit, Digests}
use implement_data_space_pro.Caas.Data.{Event, Unsigned, Entry, State}
use implement_data_space_pro.Prelude.{
  refl, last-append, length-append, arith, [], ◌∷◌, ◌++◌, true, last, ok, ◌≡◌, ◌≤◌, suc, ◌+◌,
  length, ℕ,
}

-- A state with room for an event, and whose last event is not after this time.
pub record HasRoom {T R : Type 0} (n max now : ℕ) (state : State T R) : Type 0 where
  pub room : length state.audit + n ≤ max
  pub in_time : not_before (last state.audit) now ≡ true

module _ {T R : Type 0} (d : Digests T R) where
  -- With room for more than one event an event is appended, and room is left.
  pub append_audit-ok :
      (n max now later : ℕ) (entry : Entry) (state : State T R)
      → HasRoom (suc n) max now state
      → now ≤ later
      → (s : State T R) × (append_audit d max now entry state ≡ ok s)
        × (s.tenants ≡ state.tenants)
        × (s.requests ≡ state.requests)
        × HasRoom n max later s
  unfolding append_audit
  append_audit-ok n max now later entry state h t =
      let body : Unsigned = record {
        sequence = length state.audit + 1;
        previous_digest = chain_head state.audit;
        occurred_at = now;
        entry = entry;
      } in
      let event : Event = record { body = body; event_digest = d.event_digest body } in
      (
        record state { audit = state.audit ++ event ∷ [] },
        (let fits = h.room in let fresh = h.in_time in ground arith),
        refl,
        refl,
        record {
          room = omega (arith, h.room, length-append state.audit (event ∷ []));
          in_time = ground (arith, last-append state.audit event);
        },
      )
