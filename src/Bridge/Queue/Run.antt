-- ===== src/Bridge/Queue/Run.antt =====
-- The transactions that `withRuntimeLock` makes of the queue's operations (durable-store.mjs): one
-- that throws saves nothing. A run is any sequence of them.
use implement_data_space_pro.Prelude.{
  ◌&&◌, leb, ◌≡◌, refl, ℕ, ◌+◌, String, Bool, List, [], ◌∷◌, if◌then◌else◌, is_some,
}
use implement_data_space_pro.Prelude.Map.{lookup}
use implement_data_space_pro.Bridge.Queue.{
  runtime_state_too_large, max_state_bytes, validate_runtime_state, ◌>>=◌, RuntimeState, Failure,
  Result, ok, err, recover_expired_leases, claim, enqueue, ack, nack, renew_lease,
}

-- One locked transaction on the queue, with the arguments that its caller passes.
pub data Operation (D : Type 0) : Type 0 where
  enqueue_op : String → D → ℕ → Operation D
  recover_op : ℕ → Operation D
  claim_op : String → ℕ → ℕ → ℕ → Operation D
  ack_op : String → String → D → ℕ → Operation D
  nack_op : String → String → Failure → ℕ → ℕ → ℕ → Operation D
  renew_op : String → String → ℕ → ℕ → Operation D

abbrev new_state : {A D : Type 0} → Result (A × RuntimeState D) → Result (RuntimeState D)
new_state (ok (_, state)) = ok state
new_state (err c) = err c

-- What is saved after a transaction: its state, or the old one when it throws.
abbrev pub saved : {D : Type 0} → Result (RuntimeState D) → RuntimeState D → RuntimeState D
saved (ok next) state = next
saved (err c) state = state

module _ {D : Type 0} (bytes : RuntimeState D → ℕ) where
  -- loadRuntimeState: the size of the file is that of the text that was saved.
  unfoldable pub load_runtime_state : RuntimeState D → Result (RuntimeState D)
  load_runtime_state state =
      if leb (bytes state) max_state_bytes
      then validate_runtime_state state
      else err runtime_state_too_large

  -- saveRuntimeState, which throws or saves the state.
  unfoldable pub save_runtime_state : RuntimeState D → Result (RuntimeState D)
  save_runtime_state state = validate_runtime_state state >>= λ valid.
      if leb (bytes valid) max_state_bytes then ok valid else err runtime_state_too_large

  -- What `withRuntimeLock` saves. `bytes` is the length of the JSON text of a state in UTF-8.
  unfoldable pub with_runtime_lock :
      (RuntimeState D → Result (RuntimeState D)) → RuntimeState D → RuntimeState D
  with_runtime_lock operation state =
      saved (do loaded ← load_runtime_state state; next ← operation loaded; save_runtime_state next)
        state

module _ {D : Type 0} (locale_before : String → String → Bool) where
  unfoldable pub perform : Operation D → RuntimeState D → Result (RuntimeState D)
  perform (enqueue_op key payload now) state = new_state (enqueue state key payload now)
  perform (recover_op now) state = ok (recover_expired_leases state now).1
  perform (claim_op owner limit lease_ms now) state =
      ok (claim locale_before state owner limit lease_ms now).1
  perform (ack_op id owner result now) state = ack state id owner result now
  perform (nack_op id owner error max delay now) state =
      new_state (nack state id owner error max delay now)
  perform (renew_op id owner lease_ms now) state = renew_lease state id owner lease_ms now

  unfoldable pub run_locked :
      (RuntimeState D → ℕ) → List (Operation D) → RuntimeState D → RuntimeState D
  run_locked bytes [] state = state
  run_locked bytes (op ∷ ops) state =
      run_locked bytes ops (with_runtime_lock bytes (perform op) state)

  -- The same without the validations: the transactions of a run, in their order.
  unfoldable pub run : List (Operation D) → RuntimeState D → RuntimeState D
  run [] state = state
  run (op ∷ ops) state = run ops (saved (perform op state) state)

  -- No state that a run starts with, passes through or ends with is over the limit of a file.
  unfoldable pub all_fit : (RuntimeState D → ℕ) → List (Operation D) → RuntimeState D → Bool
  all_fit bytes [] state = leb (bytes state) max_state_bytes
  all_fit bytes (op ∷ ops) state =
      leb (bytes state) max_state_bytes && all_fit bytes ops (saved (perform op state) state)

module _ {D : Type 0} where
  -- In how many of the queue, the completed and the dead a key stands.
  unfoldable pub places : String → RuntimeState D → ℕ
  places k state =
      (if is_some (lookup k state.queue) then 1 else 0)
      + (if is_some (lookup k state.completed) then 1 else 0)
      + (if is_some (lookup k state.dead_letters) then 1 else 0)

-- What holds of the old state and of a state that the transaction returns holds of what is saved.
pub saved_intro :
    {D : Type 0} (P : RuntimeState D → Type 0) (r : Result (RuntimeState D))
    (state : RuntimeState D)
    → P state
    → ((next : RuntimeState D) → r ≡ ok next → P next)
    → P (saved r state)
saved_intro P (ok next) state h f = f next refl
saved_intro P (err c) state h f = h
