-- ===== src/Bridge/Tests.antt =====
-- The theorems on the publication queue (durable-store.mjs) at concrete queues and runs.
mod Addresses
use implement_data_space_pro.Bridge.Queue.Delivery.{run-completed, run-places}
use implement_data_space_pro.Bridge.Queue.Attempts.{run_locked-run, run-IsBounded, IsBounded}
use implement_data_space_pro.Bridge.Queue.Leases.{
  finish-needs-lease, claim_returns, claim-IsHeld, leased_to, IsHeld,
}
use implement_data_space_pro.Prelude.Map.{remove, insert, lookup, distinct_keys, all_entries}
use implement_data_space_pro.Bridge.Queue.Run.{
  all_fit, run_locked, enqueue_op, nack_op, claim_op, Operation, places, run,
}
use implement_data_space_pro.Bridge.Queue.{
  renew_lease, nack, enqueue, require_lease, lease_mismatch, ok, err, ready, valid_item, claim,
  leased, ack, validate_runtime_state, QueueItem, Failure, Completed, RuntimeState,
}
use implement_data_space_pro.Prelude.{
  eq_iff, false, some, all, arith, true, ◌∷◌, refl, none, [], utf16_length, ◌≤◌, ◌≡◌, List, ltb,
  length, ℕ, String, Bool,
}

abbrev shorter : String → String → Bool
shorter a b = ltb (utf16_length a) (utf16_length b)

abbrev failure : Failure
failure = record { code = none; message = none }

abbrev held_item : QueueItem ℕ
held_item = record {
  id = "k1";
  status = leased;
  attempts = 1;
  available_at = 0;
  enqueued_at = 0;
  payload = 11;
  lease_owner = some "anna";
  lease_until = some 200;
  last_error = none;
}

abbrev ready_item : QueueItem ℕ
ready_item = record {
  id = "k2";
  status = ready;
  attempts = 0;
  available_at = 5;
  enqueued_at = 5;
  payload = 22;
  lease_owner = none;
  lease_until = none;
  last_error = none;
}

abbrev finished : Completed ℕ
finished = record { completed_at = 3; attempts = 1; result = 33 }

abbrev two_queued : RuntimeState ℕ
two_queued = record {
  checkpoints = [];
  queue = ("k1", held_item) ∷ ("k2", ready_item) ∷ [];
  completed = ("k3", finished) ∷ [];
  dead_letters = [];
  quarantine = [];
}

-- The second item is claimed, rejected, claimed again and rejected for good; then offered again.
abbrev rejections : List (Operation ℕ)
rejections =
    claim_op "bert" 5 50 10
    ∷ nack_op "k2" "bert" failure 2 1 11
    ∷ claim_op "bert" 5 50 20
    ∷ nack_op "k2" "bert" failure 2 1 21
    ∷ enqueue_op "k2" 44 30
    ∷ []

ack_held :
    ack two_queued "k1" "anna" 9 100
    ≡ ok (record two_queued {
      queue = ("k2", ready_item) ∷ [];
      completed =
          ("k3", finished) ∷ ("k1", record { completed_at = 100; attempts = 2; result = 9 }) ∷ [];
    })
unfolding ack lookup insert remove require_lease
ack_held = refl

k2_once : places "k2" two_queued ≤ 1
unfolding places lookup
k2_once = omega arith

k3_once : places "k3" two_queued ≤ 1
unfolding places lookup
k3_once = omega arith

k3_finished : lookup "k3" two_queued.completed ≡ some finished
unfolding lookup
k3_finished = refl

k3_short : utf16_length "k3" ≤ 512
unfolding utf16_length
k3_short = omega arith

k1_queued : lookup "k1" two_queued.queue ≡ some held_item
unfolding lookup
k1_queued = refl

two_queued-distinct : distinct_keys two_queued.queue ≡ true
unfolding distinct_keys lookup
two_queued-distinct = refl

two_queued-valid : validate_runtime_state two_queued ≡ ok two_queued
unfolding validate_runtime_state all_entries valid_item
two_queued-valid = refl

two_queued-IsBounded : IsBounded 2 two_queued
unfolding all_entries
two_queued-IsBounded = record { queued = refl; died = refl }

held_item-IsHeld : IsHeld held_item "anna" 100
held_item-IsHeld = record { status = refl; owner_is = refl; live = refl }

run-places_example :
    (places "k2" (run shorter rejections two_queued) ≤ 1)
    × (places "k2" two_queued ≤ places "k2" (run shorter rejections two_queued))
run-places_example = run-places shorter rejections two_queued "k2" k2_once

run-completed_example :
    let last = run shorter rejections two_queued in
    (lookup "k3" last.completed ≡ some finished)
    × (lookup "k3" last.queue ≡ none)
    × (enqueue last "k3" 7 40 ≡ ok (false, last))
run-completed_example =
    run-completed shorter rejections two_queued "k3" finished 7 40 k3_once k3_finished k3_short

claim-IsHeld_example :
    lookup "k1" (claim shorter two_queued "bert" 5 50 100).1.queue ≡ some held_item
claim-IsHeld_example =
    claim-IsHeld shorter two_queued "bert" 5 50 100 "k1" "anna" held_item two_queued-distinct
      k1_queued held_item-IsHeld

claim_returns_example :
    (length (claim shorter two_queued "bert" 5 50 100).0 ≤ 5)
    × (all (leased_to "bert" 150) (claim shorter two_queued "bert" 5 50 100).0 ≡ true)
claim_returns_example = claim_returns shorter two_queued "bert" 5 50 100

finish-needs-lease_example :
    (ack two_queued "k1" "bert" 9 3 ≡ err lease_mismatch)
    × (nack two_queued "k1" "bert" failure 5 6 3 ≡ err lease_mismatch)
    × (renew_lease two_queued "k1" "bert" 5 3 ≡ err lease_mismatch)
finish-needs-lease_example =
    finish-needs-lease two_queued "k1" "anna" "bert" held_item 9 failure 5 6 3 k1_queued refl
      (λ h. ground (arith, eq_iff "anna" "bert"))

run_locked-run_example :
    let last = run_locked shorter (λ _. 900) rejections two_queued in
    (last ≡ run shorter rejections two_queued) × (validate_runtime_state last ≡ ok last)
run_locked-run_example =
    run_locked-run shorter (λ _. 900) rejections two_queued 2 (omega arith)
      (tt, (refl, (tt, (refl, (tt, tt))))) two_queued-valid (unfold all_fit in refl)

run-IsBounded_example : IsBounded 2 (run shorter rejections two_queued)
run-IsBounded_example =
    run-IsBounded shorter rejections two_queued 2 (omega arith) (tt, (refl, (tt, (refl, (tt, tt)))))
      two_queued-IsBounded
