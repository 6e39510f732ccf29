-- ===== src/Bridge/Queue/Valid.antt =====
-- Validation of the queue's state (durable-store.mjs, validateRuntimeState).
use implement_data_space_pro.Prelude.{
  Bool, ℕ, ◌+◌, ◌≤◌, String, ◌≡◌, true, List, [], ◌∷◌, arith, eq_iff, Bool-cases, inl, inr,
}
use implement_data_space_pro.Prelude.Map.{
  Map, all_entries, all_entries-insert, all_entries-remove, all_entries-modify,
  all_entries-map_values, lookup-all_entries,
}
use implement_data_space_pro.Bridge.Queue.{
  RuntimeState, QueueItem, Failure, Status, ok, max_safe_integer, valid_item, known, safe_error,
  Result-cases, fresh_item, validate_runtime_state, enqueue, recover_expired_leases, recover_item,
  claim, lease_item, lease_all, due_items, require_lease, ack, nack, retry_item, renew_lease,
  renew_item,
}

module _ {D : Type 0} where
  -- The queue passes the validation that every load and save makes.
  abbrev pub IsValid : RuntimeState D → Type 0
  IsValid state = all_entries valid_item state.queue ≡ true

  pub validate-ok :
      (state : RuntimeState D) → IsValid state → validate_runtime_state state ≡ ok state
  unfolding validate_runtime_state
  validate-ok state h = ground arith

  fresh_item-valid :
      (key : String) (payload : D) (now : ℕ) → valid_item key (fresh_item key payload now) ≡ true
  unfolding valid_item fresh_item
  fresh_item-valid key payload now = ground (arith, eq_iff key key)

  pub enqueue-IsValid :
      (state : RuntimeState D) (key : String) (payload : D) (now : ℕ) {b : Bool}
      {state' : RuntimeState D}
      → IsValid state
      → enqueue state key payload now ≡ ok (b, state')
      → IsValid state'
  unfolding enqueue
  enqueue-IsValid state key payload now h e = ground (
    arith,
    Bool-cases (known state key),
    all_entries-insert valid_item key (fresh_item key payload now) state.queue
        (fresh_item-valid key payload now) h,
  )

  recover_item-valid :
      (now : ℕ) (k : String) (item : QueueItem D)
      → valid_item k item ≡ true
      → valid_item k (recover_item now item) ≡ true
  unfolding valid_item recover_item
  recover_item-valid now k item h = ground arith

  pub recover-IsValid :
      (state : RuntimeState D) (now : ℕ)
      → IsValid state
      → IsValid (recover_expired_leases state now).1
  unfolding recover_expired_leases
  recover-IsValid state now h =
      all_entries-map_values valid_item (recover_item now) state.queue (recover_item-valid now) h

  lease_item-valid :
      (owner : String) (until : ℕ) (k : String) (item : QueueItem D)
      → valid_item k item ≡ true
      → valid_item k (lease_item owner until item) ≡ true
  unfolding valid_item lease_item
  lease_item-valid owner until k item h = ground arith

  lease_all-valid :
      (owner : String) (until : ℕ) (due : List (String × QueueItem D)) (queue : Map (QueueItem D))
      → all_entries valid_item queue ≡ true
      → all_entries valid_item (lease_all owner until due queue) ≡ true
  unfolding lease_all
  lease_all-valid owner until [] queue h = h
  lease_all-valid owner until ((k, _) ∷ due) queue h = lease_all-valid owner until due _ (
      all_entries-modify valid_item k (lease_item owner until) queue
        (lease_item-valid owner until k) h)

  pub claim-IsValid :
      (locale_before : String → String → Bool) (state : RuntimeState D) (owner : String)
      (limit lease_ms now : ℕ)
      → IsValid state
      → IsValid (claim locale_before state owner limit lease_ms now).1
  unfolding claim
  claim-IsValid locale_before state owner limit lease_ms now h =
      lease_all-valid owner (now + lease_ms)
        (due_items locale_before limit now (recover_expired_leases state now).1.queue)
        (recover_expired_leases state now).1.queue (recover-IsValid state now h)

  pub ack-IsValid :
      (state : RuntimeState D) (id owner : String) (result : D) (now : ℕ) {state' : RuntimeState D}
      → IsValid state
      → ack state id owner result now ≡ ok state'
      → IsValid state'
  unfolding ack
  ack-IsValid state id owner result now h e =
      ground (arith, all_entries-remove valid_item id state.queue h)

  retry_item-valid :
      (error : _) (t : ℕ) (k : String) (item : QueueItem D)
      → item.attempts + 1 ≤ max_safe_integer
      → valid_item k item ≡ true
      → valid_item k (retry_item error t item) ≡ true
  unfolding valid_item retry_item
  retry_item-valid error t k item b h = ground arith

  renew_item-valid :
      (until : ℕ) (k : String) (item : QueueItem D)
      → valid_item k item ≡ true
      → valid_item k (renew_item until item) ≡ true
  unfolding valid_item renew_item
  renew_item-valid until k item h = ground arith

  -- A lease that is granted is on a valid item of the queue.
  require_lease-valid :
      (state : RuntimeState D) (id owner : String) {item : QueueItem D}
      → IsValid state
      → require_lease state id owner ≡ ok item
      → valid_item id item ≡ true
  unfolding require_lease
  require_lease-valid state id owner {item} h e =
      ground (arith, lookup-all_entries valid_item id {v = item} state.queue h)

  pub renew-IsValid :
      (state : RuntimeState D) (id owner : String) (lease_ms now : ℕ) {state' : RuntimeState D}
      → IsValid state
      → renew_lease state id owner lease_ms now ≡ ok state'
      → IsValid state'
  unfolding renew_lease
  renew-IsValid state id owner lease_ms now h e =
      elim (Result-cases (require_lease state id owner)) [
        | inl (item, granted) ↦ ground (
          arith,
          all_entries-insert valid_item id (renew_item (now + lease_ms) item) state.queue
              (renew_item-valid (now + lease_ms) id item
                (require_lease-valid state id owner h granted))
              h,
        )
        | inr (c, refused) ↦ ground arith
      ]

  pub nack-IsValid :
      (state : RuntimeState D) (id owner : String) (error : Failure) (max_attempts delay_ms now : ℕ)
      {r : Status} {state' : RuntimeState D}
      → max_attempts ≤ max_safe_integer
      → IsValid state
      → nack state id owner error max_attempts delay_ms now ≡ ok (r, state')
      → IsValid state'
  unfolding nack
  nack-IsValid state id owner error max_attempts delay_ms now b h e =
      elim (Result-cases (require_lease state id owner)) [
        | inl (item, granted) ↦ ground (
          arith,
          all_entries-remove valid_item id state.queue h,
          λ (room : item.attempts + 1 ≤ max_safe_integer).
              all_entries-insert valid_item id (retry_item (safe_error error) (now + delay_ms) item)
                state.queue
                (retry_item-valid (safe_error error) (now + delay_ms) id item room
                  (require_lease-valid state id owner h granted))
                h,
        )
        | inr (c, refused) ↦ ground arith
      ]
