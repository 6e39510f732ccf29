-- ===== src/Bridge/Queue/Delivery.antt =====
-- Delivery over any run of transactions: nothing is lost, doubled or undone (durable-store.mjs).
use implement_data_space_pro.Prelude.{
  ℕ, ◌+◌, ◌≤◌, String, ◌≡◌, Bool, false, List, [], ◌∷◌, arith, eq_iff, inl, inr, none, some,
  utf16_length,
}
use implement_data_space_pro.Prelude.Map.{lookup, lookup-insert}
use implement_data_space_pro.Bridge.Queue.{
  RuntimeState, Completed, ok, Result-cases, recover_expired_leases, claim, enqueue, require_lease,
  ack, nack, renew_lease,
}
use implement_data_space_pro.Bridge.Queue.Run.{
  saved, saved_intro, Operation, enqueue_op, recover_op, claim_op, ack_op, nack_op, renew_op,
  perform, run, places,
}
use implement_data_space_pro.Bridge.Queue.Places.{
  enqueue-places, recover-places, claim-places, ack-places, nack-places, renew-places,
}

module _ {D : Type 0} where
  -- A completed key that stands in one place only is not in the queue.
  not_queued :
      (state : RuntimeState D) (k : String) {r : Completed D}
      → places k state ≤ 1
      → lookup k state.completed ≡ some r
      → lookup k state.queue ≡ none
  unfolding places
  not_queued state k h l = ground arith

module _ {D : Type 0} (locale_before : String → String → Bool) where
  -- One transaction: no key comes to stand in two places, and none is lost.
  pub perform-places :
      (op : Operation D) (state : RuntimeState D) {state' : RuntimeState D} (k : String)
      → perform locale_before op state ≡ ok state'
      → places k state ≤ 1
      → (places k state' ≤ 1) × (places k state ≤ places k state')
  unfolding perform
  perform-places (enqueue_op key payload now) state k e h =
      elim (Result-cases (enqueue state key payload now)) [
        | inl ((b, next), done) ↦
            ground (arith, enqueue-places state key payload now {b = b} {state' = next} k)
        | inr (c, failed) ↦ ground arith
      ]
  perform-places (recover_op now) state k e h = ground (arith, recover-places state now k)
  perform-places (claim_op owner limit lease_ms now) state k e h =
      ground (arith, claim-places locale_before state owner limit lease_ms now k)
  perform-places (ack_op id owner result now) state k e h =
      ack-places state id owner result now k e h
  perform-places (nack_op id owner error max delay now) state k e h =
      elim (Result-cases (nack state id owner error max delay now)) [
        | inl ((r, next), done) ↦
            ground (arith, nack-places state id owner error max delay now {r = r} {state' = next} k)
        | inr (c, failed) ↦ ground arith
      ]
  perform-places (renew_op id owner lease_ms now) state {state'} k e h =
      ground (arith, renew-places state id owner lease_ms now {state' = state'} k)

  -- Over any run: what stood in one place or none stands in one or none, and is not lost.
  pub run-places :
      (ops : List (Operation D)) (state : RuntimeState D) (k : String)
      → places k state ≤ 1
      → (places k (run locale_before ops state) ≤ 1)
        × (places k state ≤ places k (run locale_before ops state))
  unfolding run
  run-places [] state k h = omega arith
  run-places (op ∷ ops) state k h = elim (Result-cases (perform locale_before op state)) [
    | inl (next, done) ↦ rw done (
        let now = perform-places op state k done h in
        let later = run-places ops next k now.0 in omega arith)
    | inr (c, failed) ↦ rw failed (run-places ops state k h)
  ]

  -- A completed publication keeps its result.
  perform-completed :
      (op : Operation D) (state : RuntimeState D) {state' : RuntimeState D} (k : String)
      {r : Completed D}
      → perform locale_before op state ≡ ok state'
      → places k state ≤ 1
      → lookup k state.completed ≡ some r
      → lookup k state'.completed ≡ some r
  unfolding perform places
  perform-completed (enqueue_op key payload now) state k e h l = unfold enqueue in ground arith
  perform-completed (recover_op now) state k e h l = unfold recover_expired_leases in ground arith
  perform-completed (claim_op owner limit lease_ms now) state k e h l = unfold claim in ground arith
  perform-completed (ack_op id owner result now) state k e h l =
      elim (Result-cases (require_lease state id owner)) [
        | inl (item, granted) ↦
            unfold ack require_lease in
            ground (
              arith,
              eq_iff id k,
              lookup-insert id k
                  (record { completed_at = now; attempts = item.attempts + 1; result = result })
                  state.completed,
            )
        | inr (c, refused) ↦ unfold ack in ground arith
      ]
  perform-completed (nack_op id owner error max delay now) state k e h l =
      unfold nack in ground arith
  perform-completed (renew_op id owner lease_ms now) state k e h l =
      unfold renew_lease in ground arith

  run-keeps_completed :
      (ops : List (Operation D)) (state : RuntimeState D) (k : String) {r : Completed D}
      → places k state ≤ 1
      → lookup k state.completed ≡ some r
      → lookup k (run locale_before ops state).completed ≡ some r
  unfolding run
  run-keeps_completed [] state k h l = l
  run-keeps_completed (op ∷ ops) state k {r} h l =
      let step =
        saved_intro (λ s. (places k s ≤ 1) × (lookup k s.completed ≡ some r))
          (perform locale_before op state) state (h, l)
          (λ next done.
            ((perform-places op state k done h).0, perform-completed op state k done h l)) in
      run-keeps_completed ops (saved (perform locale_before op state) state) k step.0 step.1

  -- Over any run, the result of a completed publication stays, its key is never queued again, and
  -- enqueue answers false and changes nothing: for a key of at most 512 code units that stands in
  -- one place only at first.
  pub run-completed :
      (ops : List (Operation D)) (state : RuntimeState D) (k : String) (r : Completed D)
      (payload : D) (now : ℕ)
      → places k state ≤ 1
      → lookup k state.completed ≡ some r
      → utf16_length k ≤ 512
      → let last = run locale_before ops state in
        (lookup k last.completed ≡ some r)
        × (lookup k last.queue ≡ none)
        × (enqueue last k payload now ≡ ok (false, last))
  run-completed ops state k r payload now h l short =
      let kept = run-keeps_completed ops state k h l in
      let placed = (run-places ops state k h).0 in
      (
        kept,
        not_queued (run locale_before ops state) k placed kept,
        (unfold enqueue in ground arith),
      )
