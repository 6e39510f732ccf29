-- ===== src/Bridge/Queue/Places.antt =====
-- What each operation does to the places of a key: queued, completed or dead (durable-store.mjs).
use implement_data_space_pro.Prelude.{ℕ, ◌+◌, ◌≤◌, String, ◌≡◌, Bool, arith, eq_iff, inl, inr}
use implement_data_space_pro.Prelude.Map.{lookup-insert, lookup-map_values, lookup-remove}
use implement_data_space_pro.Bridge.Queue.{
  RuntimeState, Failure, Status, ok, fresh_item, retry_item, renew_item, dead_item, safe_error,
  Result-cases, recover_expired_leases, recover_item, claim, enqueue, require_lease, ack, nack,
  renew_lease,
}
use implement_data_space_pro.Bridge.Queue.Leases.{lookup-claim_some}
use implement_data_space_pro.Bridge.Queue.Run.{places}

module _ {D : Type 0} where
  pub enqueue-places :
      (state : RuntimeState D) (key : String) (payload : D) (now : ℕ) {b : Bool}
      {state' : RuntimeState D} (k : String)
      → enqueue state key payload now ≡ ok (b, state')
      → places k state ≤ 1
      → (places k state' ≤ 1) × (places k state ≤ places k state')
  unfolding enqueue places
  enqueue-places state key payload now k e h =
      ground (arith, eq_iff key k, lookup-insert key k (fresh_item key payload now) state.queue)

  pub ack-places :
      (state : RuntimeState D) (id owner : String) (result : D) (now : ℕ) {state' : RuntimeState D}
      (k : String)
      → ack state id owner result now ≡ ok state'
      → places k state ≤ 1
      → (places k state' ≤ 1) × (places k state ≤ places k state')
  unfolding ack places
  ack-places state id owner result now k e h = elim (Result-cases (require_lease state id owner)) [
    | inl (item, granted) ↦
        unfold require_lease in
        ground (
          arith,
          eq_iff id k,
          lookup-remove id k state.queue,
          lookup-insert id k
              (record { completed_at = now; attempts = item.attempts + 1; result = result })
              state.completed,
        )
    | inr (c, refused) ↦ ground arith
  ]

  pub nack-places :
      (state : RuntimeState D) (id owner : String) (error : Failure) (max delay now : ℕ)
      {r : Status} {state' : RuntimeState D} (k : String)
      → nack state id owner error max delay now ≡ ok (r, state')
      → places k state ≤ 1
      → (places k state' ≤ 1) × (places k state ≤ places k state')
  unfolding nack places
  nack-places state id owner error max delay now k e h =
      elim (Result-cases (require_lease state id owner)) [
        | inl (item, granted) ↦
            unfold require_lease in
            ground (
              arith,
              eq_iff id k,
              lookup-remove id k state.queue,
              lookup-insert id k
                  (record { item = dead_item (safe_error error) item; failed_at = now })
                  state.dead_letters,
              lookup-insert id k (retry_item (safe_error error) (now + delay) item) state.queue,
            )
        | inr (c, refused) ↦ ground arith
      ]

  pub renew-places :
      (state : RuntimeState D) (id owner : String) (lease_ms now : ℕ) {state' : RuntimeState D}
      (k : String)
      → renew_lease state id owner lease_ms now ≡ ok state'
      → places k state' ≡ places k state
  unfolding renew_lease places
  renew-places state id owner lease_ms now k e =
      elim (Result-cases (require_lease state id owner)) [
        | inl (item, granted) ↦
            unfold require_lease in
            ground (
              arith,
              eq_iff id k,
              lookup-insert id k (renew_item (now + lease_ms) item) state.queue,
            )
        | inr (c, refused) ↦ ground arith
      ]

  pub claim-places :
      (locale_before : String → String → Bool) (state : RuntimeState D) (owner : String)
      (limit lease_ms now : ℕ) (k : String)
      → places k (claim locale_before state owner limit lease_ms now).1 ≡ places k state
  unfolding places
  claim-places locale_before state owner limit lease_ms now k =
      let kept = lookup-claim_some locale_before state owner limit lease_ms now k in
      unfold claim in ground (arith, kept)

  pub recover-places :
      (state : RuntimeState D) (now : ℕ) (k : String)
      → places k (recover_expired_leases state now).1 ≡ places k state
  unfolding recover_expired_leases places
  recover-places state now k = ground (arith, lookup-map_values (recover_item now) k state.queue)
