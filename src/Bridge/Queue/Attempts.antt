-- ===== src/Bridge/Queue/Attempts.antt =====
-- Bounds on attempts, and validation over any run (durable-store.mjs).
use implement_data_space_pro.Prelude.{
  sym, subst, ◌==◌, ltb, ℕ, ◌+◌, ◌≤◌, ◌<◌, String, ◌≡◌, refl, Bool, true, List, [], ◌∷◌, arith, leb,
  Bool-cases, inl, inr,
}
use implement_data_space_pro.Prelude.Map.{
  all_entries-modify, lookup-all_entries, all_entries-insert, all_entries, all_entries-map_values,
  all_entries-remove, Map, modify,
}
use implement_data_space_pro.Bridge.Queue.{
  max_state_bytes, DeadLetter, validate_runtime_state, RuntimeState, QueueItem, Failure, Status, ok,
  fresh_item, retry_item, renew_item, dead_item, safe_error, Result-cases, recover_expired_leases,
  recover_item, claim, lease_item, enqueue, lease_all, due_items, require_lease, ack, nack,
  renew_lease, max_safe_integer,
}
use implement_data_space_pro.Bridge.Queue.Valid.{
  validate-ok, IsValid, enqueue-IsValid, recover-IsValid, claim-IsValid, ack-IsValid, nack-IsValid,
  renew-IsValid,
}
use implement_data_space_pro.Bridge.Queue.Run.{
  save_runtime_state, load_runtime_state, all_fit, run_locked, with_runtime_lock, saved_intro,
  saved, Operation, enqueue_op, recover_op, claim_op, ack_op, nack_op, renew_op, perform, run,
}

-- The transaction counts attempts against this maximum, if it counts them at all.
abbrev pub UsesMax : {D : Type 0} → ℕ → Operation D → Type 0
UsesMax max (nack_op _ _ _ m _ _) = m ≡ max
UsesMax max _ = Unit

module _ {D : Type 0} where
  -- Every transaction that the run makes counts against the same maximum.
  abbrev pub AllUseMax : ℕ → List (Operation D) → Type 0
  AllUseMax max [] = Unit
  AllUseMax max (op ∷ ops) = UsesMax max op × AllUseMax max ops

module _ {D : Type 0} (locale_before : String → String → Bool) where
  perform-IsValid :
      (op : Operation D) (state : RuntimeState D) (max : ℕ) {state' : RuntimeState D}
      → max ≤ max_safe_integer
      → UsesMax max op
      → IsValid state
      → perform locale_before op state ≡ ok state'
      → IsValid state'
  unfolding perform
  perform-IsValid (enqueue_op key payload now) state max b u h e =
      elim (Result-cases (enqueue state key payload now)) [
        | inl ((r, next), done) ↦
            ground (arith, enqueue-IsValid state key payload now {b = r} {state' = next} h done)
        | inr (c, failed) ↦ ground arith
      ]
  perform-IsValid (recover_op now) state max b u h e = ground (arith, recover-IsValid state now h)
  perform-IsValid (claim_op owner limit lease_ms now) state max b u h e =
      ground (arith, claim-IsValid locale_before state owner limit lease_ms now h)
  perform-IsValid (ack_op id owner result now) state max b u h e =
      ack-IsValid state id owner result now h e
  perform-IsValid (nack_op id owner error m delay now) state max b u h e =
      elim (Result-cases (nack state id owner error m delay now)) [
        | inl ((r, next), done) ↦ ground (
          arith,
          nack-IsValid state id owner error m delay now {r = r} {state' = next} (omega arith) h
              done,
        )
        | inr (c, failed) ↦ ground arith
      ]
  perform-IsValid (renew_op id owner lease_ms now) state max b u h e =
      renew-IsValid state id owner lease_ms now h e

  run-IsValid :
      (ops : List (Operation D)) (state : RuntimeState D) (max : ℕ)
      → max ≤ max_safe_integer
      → AllUseMax max ops
      → IsValid state
      → IsValid (run locale_before ops state)
  unfolding run
  run-IsValid [] state max b u h = h
  run-IsValid (op ∷ ops) state max b u h =
      run-IsValid ops (saved (perform locale_before op state) state) max b u.1 (
        saved_intro IsValid (perform locale_before op state) state h
          (λ next done. perform-IsValid op state max b u.0 h done))

  -- Over any run, the state that is saved passes the validation that the next load makes.
  run-validates :
      (ops : List (Operation D)) (state : RuntimeState D) (max : ℕ)
      → max ≤ max_safe_integer
      → AllUseMax max ops
      → validate_runtime_state state ≡ ok state
      → validate_runtime_state (run locale_before ops state) ≡ ok (run locale_before ops state)
  run-validates ops state max b u h =
      validate-ok (run locale_before ops state)
        (run-IsValid ops state max b u (unfold validate_runtime_state in ground arith))

  all_fit-first :
      (bytes : RuntimeState D → ℕ) (ops : List (Operation D)) (state : RuntimeState D)
      → all_fit locale_before bytes ops state ≡ true
      → leb (bytes state) max_state_bytes ≡ true
  unfolding all_fit
  all_fit-first bytes [] state h = h
  all_fit-first bytes (op ∷ ops) state h = ground arith

  -- One locked transaction on a valid state saves what the transaction alone would, if neither state
  -- is over the limit.
  with_runtime_lock-saved :
      (bytes : RuntimeState D → ℕ) (op : Operation D) (state : RuntimeState D) (max : ℕ)
      → max ≤ max_safe_integer
      → UsesMax max op
      → IsValid state
      → leb (bytes state) max_state_bytes ≡ true
      → leb (bytes (saved (perform locale_before op state) state)) max_state_bytes ≡ true
      → with_runtime_lock bytes (perform locale_before op) state
        ≡ saved (perform locale_before op state) state
  unfolding with_runtime_lock load_runtime_state save_runtime_state
  with_runtime_lock-saved bytes op state max b u h fits fits_next =
      elim (Result-cases (perform locale_before op state)) [
        | inl (next, done) ↦
            let valid = validate-ok state h in
            let valid_next = validate-ok next (perform-IsValid op state max b u h done) in
            ground (arith, fits, fits_next, valid, done, valid_next)
        | inr (c, failed) ↦ let valid = validate-ok state h in ground (arith, fits, valid, failed)
      ]

  run_locked-same :
      (bytes : RuntimeState D → ℕ) (ops : List (Operation D)) (state : RuntimeState D) (max : ℕ)
      → max ≤ max_safe_integer
      → AllUseMax max ops
      → IsValid state
      → all_fit locale_before bytes ops state ≡ true
      → run_locked locale_before bytes ops state ≡ run locale_before ops state
  unfolding run_locked run all_fit
  run_locked-same bytes [] state max b u h f = refl
  run_locked-same bytes (op ∷ ops) state max b u h f =
      let next = saved (perform locale_before op state) state in
      let later : all_fit locale_before bytes ops next ≡ true = ground arith in
      let step =
        with_runtime_lock-saved bytes op state max b u.0 h (ground arith)
          (all_fit-first bytes ops next later) in
      rw step (
        run_locked-same bytes ops next max b u.1
          (saved_intro IsValid (perform locale_before op state) state h
            (λ next done. perform-IsValid op state max b u.0 h done))
          later)

  -- Over any run of locked transactions whose rejections use one maximum that is a safe integer,
  -- no load and no save fails, if the state is valid at first and no state of the run is over the
  -- limit of bytes: the run saves what the transactions alone make, and that is valid.
  pub run_locked-run :
      (bytes : RuntimeState D → ℕ) (ops : List (Operation D)) (state : RuntimeState D) (max : ℕ)
      → max ≤ max_safe_integer
      → AllUseMax max ops
      → validate_runtime_state state ≡ ok state
      → all_fit locale_before bytes ops state ≡ true
      → let last = run_locked locale_before bytes ops state in
        (last ≡ run locale_before ops state) × (validate_runtime_state last ≡ ok last)
  run_locked-run bytes ops state max b u h f =
      let same =
        run_locked-same bytes ops state max b u (unfold validate_runtime_state in ground arith) f in
      (
        same,
        subst (λ s. validate_runtime_state s ≡ ok s) (sym same) (run-validates ops state max b u h),
      )

module _ {D : Type 0} where
  abbrev below_max : ℕ → String → QueueItem D → Bool
  below_max max _ item = ltb item.attempts max

  abbrev spent : ℕ → String → DeadLetter D → Bool
  spent max _ letter = letter.item.attempts == max

  -- No item in the queue has used up its attempts, and each dead letter has used exactly those.
  pub record IsBounded (max : ℕ) (state : RuntimeState D) : Type 0 where
    pub queued : all_entries (below_max max) state.queue ≡ true
    pub died : all_entries (spent max) state.dead_letters ≡ true

  enqueue-IsBounded :
      (state : RuntimeState D) (key : String) (payload : D) (now max : ℕ) {b : Bool}
      {state' : RuntimeState D}
      → 0 < max
      → IsBounded max state
      → enqueue state key payload now ≡ ok (b, state')
      → IsBounded max state'
  unfolding enqueue
  enqueue-IsBounded state key payload now max p h e =
      let added =
        all_entries-insert (below_max max) key (fresh_item key payload now) state.queue
          (unfold fresh_item in ground arith) h.queued in
      ground (arith, added)

  recover-IsBounded :
      (state : RuntimeState D) (now max : ℕ)
      → IsBounded max state
      → IsBounded max (recover_expired_leases state now).1
  unfolding recover_expired_leases
  recover-IsBounded state now max h = record {
    queued =
        all_entries-map_values (below_max max) (recover_item now) state.queue
          (λ k v b. unfold recover_item in ground arith) h.queued;
    died = h.died;
  }

  lease_all-IsBounded :
      (owner : String) (until max : ℕ) (due : List (String × QueueItem D))
      (queue : Map (QueueItem D))
      → all_entries (below_max max) queue ≡ true
      → all_entries (below_max max) (lease_all owner until due queue) ≡ true
  unfolding lease_all lease_item
  lease_all-IsBounded owner until max [] queue h = h
  lease_all-IsBounded owner until max ((k, item) ∷ due) queue h =
      lease_all-IsBounded owner until max due (modify k (lease_item owner until) queue)
        (all_entries-modify (below_max max) k (lease_item owner until) queue (λ v b. b) h)

  claim-IsBounded :
      (locale_before : String → String → Bool) (state : RuntimeState D) (owner : String)
      (limit lease_ms now max : ℕ)
      → IsBounded max state
      → IsBounded max (claim locale_before state owner limit lease_ms now).1
  claim-IsBounded locale_before state owner limit lease_ms now max h =
      let q = (recover_expired_leases state now).1.queue in
      let b = recover-IsBounded state now max h in
      record {
        queued =
            unfold claim in
            lease_all-IsBounded owner (now + lease_ms) max (due_items locale_before limit now q) q
              b.queued;
        died = unfold claim in h.died;
      }

  ack-IsBounded :
      (state : RuntimeState D) (id owner : String) (result : D) (now max : ℕ)
      {state' : RuntimeState D}
      → IsBounded max state
      → ack state id owner result now ≡ ok state'
      → IsBounded max state'
  unfolding ack
  ack-IsBounded state id owner result now max h e =
      ground (arith, all_entries-remove (below_max max) id state.queue h.queued)

  -- The item that a lease is granted on is one of the queue's.
  require_lease-below :
      (state : RuntimeState D) (id owner : String) (max : ℕ) {item : QueueItem D}
      → IsBounded max state
      → require_lease state id owner ≡ ok item
      → item.attempts < max
  unfolding require_lease
  require_lease-below state id owner max {item} h e =
      ground (arith, lookup-all_entries (below_max max) id {v = item} state.queue h.queued)

  renew-IsBounded :
      (state : RuntimeState D) (id owner : String) (lease_ms now max : ℕ) {state' : RuntimeState D}
      → IsBounded max state
      → renew_lease state id owner lease_ms now ≡ ok state'
      → IsBounded max state'
  unfolding renew_lease
  renew-IsBounded state id owner lease_ms now max h e =
      elim (Result-cases (require_lease state id owner)) [
        | inl (item, granted) ↦
            let below = require_lease-below state id owner max h granted in
            let kept =
              all_entries-insert (below_max max) id (renew_item (now + lease_ms) item) state.queue
                (ground arith) h.queued in
            ground (arith, kept)
        | inr (c, refused) ↦ ground arith
      ]

  nack_granted :
      (state : RuntimeState D) (id owner : String) (error : Failure) (max delay now : ℕ)
      (item : QueueItem D) {r : Status} {state' : RuntimeState D}
      → IsBounded max state
      → nack state id owner error max delay now ≡ ok (r, state')
      → require_lease state id owner ≡ ok item
      → item.attempts < max
      → IsBounded max state'
  unfolding nack
  nack_granted state id owner error max delay now item h e granted below =
      elim (Bool-cases (leb max (item.attempts + 1))) [
        | inl last ↦
            let queued = all_entries-remove (below_max max) id state.queue h.queued in
            let died =
              all_entries-insert (spent max) id
                (record { item = dead_item (safe_error error) item; failed_at = now })
                state.dead_letters (ground arith) h.died in
            ground arith
        | inr more ↦
            let queued =
              all_entries-insert (below_max max) id
                (retry_item (safe_error error) (now + delay) item) state.queue (ground arith)
                h.queued in
            ground arith
      ]

  nack-IsBounded :
      (state : RuntimeState D) (id owner : String) (error : Failure) (max delay now : ℕ)
      {r : Status} {state' : RuntimeState D}
      → IsBounded max state
      → nack state id owner error max delay now ≡ ok (r, state')
      → IsBounded max state'
  unfolding nack
  nack-IsBounded state id owner error max delay now h e =
      elim (Result-cases (require_lease state id owner)) [
        | inl (item, granted) ↦
            nack_granted state id owner error max delay now item h e granted
              (require_lease-below state id owner max h granted)
        | inr (c, refused) ↦ ground arith
      ]

module _ {D : Type 0} (locale_before : String → String → Bool) where
  perform-IsBounded :
      (op : Operation D) (state : RuntimeState D) (max : ℕ) {state' : RuntimeState D}
      → 0 < max
      → UsesMax max op
      → IsBounded max state
      → perform locale_before op state ≡ ok state'
      → IsBounded max state'
  unfolding perform
  perform-IsBounded (enqueue_op key payload now) state max p u h e =
      elim (Result-cases (enqueue state key payload now)) [
        | inl ((r, next), done) ↦
            ground
              (arith, enqueue-IsBounded state key payload now max {b = r} {state' = next} p h done)
        | inr (c, failed) ↦ ground arith
      ]
  perform-IsBounded (recover_op now) state max p u h e =
      ground (arith, recover-IsBounded state now max h)
  perform-IsBounded (claim_op owner limit lease_ms now) state max p u h e =
      ground (arith, claim-IsBounded locale_before state owner limit lease_ms now max h)
  perform-IsBounded (ack_op id owner result now) state max p u h e =
      ack-IsBounded state id owner result now max h e
  perform-IsBounded (nack_op id owner error m delay now) state max p u h e =
      elim (Result-cases (nack state id owner error max delay now)) [
        | inl ((r, next), done) ↦ ground (
          arith,
          nack-IsBounded state id owner error max delay now {r = r} {state' = next} h done,
        )
        | inr (c, failed) ↦ ground arith
      ]
  perform-IsBounded (renew_op id owner lease_ms now) state max p u h e =
      renew-IsBounded state id owner lease_ms now max h e

  -- Over any run with one positive maximum, no queued item has used up its attempts, and each dead
  -- letter has used exactly the maximum, if that holds at first.
  pub run-IsBounded :
      (ops : List (Operation D)) (state : RuntimeState D) (max : ℕ)
      → 0 < max
      → AllUseMax max ops
      → IsBounded max state
      → IsBounded max (run locale_before ops state)
  unfolding run
  run-IsBounded [] state max p u h = h
  run-IsBounded (op ∷ ops) state max p u h =
      run-IsBounded ops (saved (perform locale_before op state) state) max p u.1 (
        saved_intro (IsBounded max) (perform locale_before op state) state h
          (λ next done. perform-IsBounded op state max p u.0 h done))
