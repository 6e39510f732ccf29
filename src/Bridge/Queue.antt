-- ===== src/Bridge/Queue.antt =====
-- molit-dataspace/src/bridge-runtime/durable-store.mjs: the durable publication queue. `D` is the
-- type of the JSON documents that the queue carries and never looks into; a timestamp is the
-- number of its milliseconds. `locale_before a b` stands for `a.localeCompare(b) < 0`.
pub mod Valid
pub mod Leases
pub mod Run
pub mod Places
pub mod Delivery
pub mod Attempts
use implement_data_space_pro.Prelude.{
  Throws, ◌≡◌, refl, ◌⊎◌, inl, inr, ℕ, zero, suc, ◌+◌, ◌*◌, String, Bool, true, false, ◌&&◌, ◌||◌,
  not, Option, none, some, List, [], ◌∷◌, ltb, leb, ◌==◌, str_eq, if◌then◌else◌, is_some,
  utf16_length, take, filter, sort_by, map,
}
use implement_data_space_pro.Prelude.Map.{
  Map, lookup, insert, remove, modify, map_values, all_entries,
}
pub use implement_data_space_pro.Prelude.{
  max_safe_integer, ok, err, ◌>>=◌, ◌>>◌, assert_runtime, Result-cases,
}

pub data Code : Type 0 where
  invalid_queue_item runtime_state_too_large invalid_idempotency_key lease_mismatch : Code
  locked : Code

abbrev pub Result {ℓ} : Type ℓ → Type ℓ
Result A = Throws Code A

pub data Status : Type 0 where
  ready leased dead : Status

abbrev pub is_ready : Status → Bool
is_ready ready = true
is_ready _ = false

abbrev pub is_leased : Status → Bool
is_leased leased = true
is_leased _ = false

-- What `nack` is given of an exception: its code and the code units of its message, if any.
pub record Failure : Type 0 where
  pub code : Option String
  pub message : Option (List ℕ)

pub record SafeError : Type 0 where
  pub code : String
  pub message : List ℕ

pub record QueueItem (D : Type 0) : Type 0 where
  pub id : String
  pub status : Status
  pub attempts : ℕ
  pub available_at : ℕ
  pub enqueued_at : ℕ
  pub payload : D
  pub lease_owner : Option String
  pub lease_until : Option ℕ
  pub last_error : Option SafeError

pub record Completed (D : Type 0) : Type 0 where
  pub completed_at : ℕ
  pub attempts : ℕ
  pub result : D

pub record DeadLetter (D : Type 0) : Type 0 where
  pub item : QueueItem D
  pub failed_at : ℕ

-- An item that `poll` could not accept.
pub record Quarantined : Type 0 where
  pub id : String
  pub version : String
  pub code : Option String
  pub provider_id : String
  pub observed_at : ℕ

pub record RuntimeState (D : Type 0) : Type 0 where
  pub checkpoints : Map D
  pub queue : Map (QueueItem D)
  pub completed : Map (Completed D)
  pub dead_letters : Map (DeadLetter D)
  pub quarantine : Map Quarantined

abbrev pub max_state_bytes : ℕ
max_state_bytes = 134217728

abbrev pub same_owner : Option String → String → Bool
same_owner none owner = false
same_owner (some o) owner = str_eq o owner

-- Date.parse(leaseUntil) <= now; of a missing field it is NaN, and the test fails.
abbrev expired : Option ℕ → ℕ → Bool
expired none now = false
expired (some t) now = leb t now

abbrev default_message : List ℕ
default_message =
    100 ∷ 101 ∷ 108 ∷ 105 ∷ 118 ∷ 101 ∷ 114 ∷ 121 ∷ 32 ∷ 102 ∷ 97 ∷ 105 ∷ 108 ∷ 101 ∷ 100 ∷ []

safe_error : Failure → SafeError
safe_error e = record {
  code = elim e.code [ none ↦ "DELIVERY_FAILED" | some c ↦ c ];
  message = take 500 (elim e.message [ none ↦ default_message | some m ↦ m ]);
}

module _ {D : Type 0} where
  abbrev pub empty_runtime_state : RuntimeState D
  empty_runtime_state = record {
    checkpoints = [];
    queue = [];
    completed = [];
    dead_letters = [];
    quarantine = [];
  }

  -- The tests of `validateRuntimeState` on one entry of the queue; the others hold by typing.
  unfoldable pub valid_item : String → QueueItem D → Bool
  valid_item key item =
      str_eq item.id key
      && (is_ready item.status || is_leased item.status)
      && leb item.attempts max_safe_integer
      && (not (is_leased item.status) || (is_some item.lease_owner && is_some item.lease_until))

  unfoldable pub validate_runtime_state : RuntimeState D → Result (RuntimeState D)
  validate_runtime_state state = do
    assert_runtime (all_entries valid_item state.queue) invalid_queue_item
    ok state

  -- The early return of `enqueue`: the key is queued, completed or dead already.
  abbrev pub known : RuntimeState D → String → Bool
  known state key =
      is_some (lookup key state.queue)
      || is_some (lookup key state.completed)
      || is_some (lookup key state.dead_letters)

  fresh_item : String → D → ℕ → QueueItem D
  fresh_item key payload now = record {
    id = key;
    status = ready;
    attempts = 0;
    available_at = now;
    enqueued_at = now;
    payload = payload;
    lease_owner = none;
    lease_until = none;
    last_error = none;
  }

  unfoldable pub enqueue : RuntimeState D → String → D → ℕ → Result (Bool × RuntimeState D)
  unfolding fresh_item
  enqueue state key payload now = do
    assert_runtime (leb (utf16_length key) 512) invalid_idempotency_key
    if known state key
        then ok (false, state)
        else ok (true, record state { queue = insert key (fresh_item key payload now) state.queue })

  abbrev pub is_expired : ℕ → QueueItem D → Bool
  is_expired now item = is_leased item.status && expired item.lease_until now

  recover_item : ℕ → QueueItem D → QueueItem D
  recover_item now item =
      if is_expired now item
      then record item {
        status = ready;
        available_at = now;
        lease_owner = none;
        lease_until = none;
      }
      else item

  count_expired : ℕ → Map (QueueItem D) → ℕ
  count_expired now [] = 0
  count_expired now ((_, item) ∷ m) = (if is_expired now item then 1 else 0) + count_expired now m

  unfoldable pub recover_expired_leases : RuntimeState D → ℕ → ℕ × RuntimeState D
  unfolding recover_item count_expired
  recover_expired_leases state now = (
    count_expired now state.queue,
    record state { queue = map_values (recover_item now) state.queue },
  )

  -- An entry that `claim` may take: ready, and available by now.
  abbrev pub is_due : ℕ → String × QueueItem D → Bool
  is_due now (_, item) = is_ready item.status && leb item.available_at now

  -- The comparator of `claim`.
  abbrev pub claimed_before :
      (String → String → Bool) → String × QueueItem D → String × QueueItem D → Bool
  claimed_before locale_before (_, a) (_, b) =
      ltb a.enqueued_at b.enqueued_at || (a.enqueued_at == b.enqueued_at && locale_before a.id b.id)

  lease_item : String → ℕ → QueueItem D → QueueItem D
  lease_item owner until item = record item {
    status = leased;
    lease_owner = some owner;
    lease_until = some until;
  }

  -- The loop over `due`: each item is the object that the queue holds, so the write is seen there.
  lease_all : String → ℕ → List (String × QueueItem D) → Map (QueueItem D) → Map (QueueItem D)
  lease_all owner until [] queue = queue
  lease_all owner until ((k, _) ∷ due) queue =
      lease_all owner until due (modify k (lease_item owner until) queue)

  unfoldable pub due_items :
      (String → String → Bool) → ℕ → ℕ → Map (QueueItem D) → List (String × QueueItem D)
  due_items locale_before limit now queue =
      take limit (sort_by (claimed_before locale_before) (filter (is_due now) queue))

  unfoldable pub claim :
      (String → String → Bool)
      → RuntimeState D
      → String
      → ℕ
      → ℕ
      → ℕ
      → List (QueueItem D) × RuntimeState D
  unfolding recover_expired_leases due_items lease_item lease_all
  claim locale_before state owner limit lease_ms now =
      let recovered = (recover_expired_leases state now).1 in
      let due = due_items locale_before limit now recovered.queue in
      let until = now + lease_ms in
      (
        map (λ (_, item). lease_item owner until item) due,
        record recovered { queue = lease_all owner until due recovered.queue },
      )

  checked_lease : Option (QueueItem D) → String → Result (QueueItem D)
  checked_lease none owner = err lease_mismatch
  checked_lease (some item) owner =
      if is_leased item.status && same_owner item.lease_owner owner
      then ok item
      else err lease_mismatch

  unfoldable pub require_lease : RuntimeState D → String → String → Result (QueueItem D)
  unfolding checked_lease
  require_lease state id owner = checked_lease (lookup id state.queue) owner

  unfoldable pub ack : RuntimeState D → String → String → D → ℕ → Result (RuntimeState D)
  unfolding require_lease
  ack state id owner result now = do
    item ← require_lease state id owner
    ok (record state {
      completed =
          insert id (record { completed_at = now; attempts = item.attempts + 1; result = result })
            state.completed;
      queue = remove id state.queue;
    })

  retry_item : SafeError → ℕ → QueueItem D → QueueItem D
  retry_item error available item = record item {
    attempts = item.attempts + 1;
    status = ready;
    available_at = available;
    last_error = some error;
    lease_owner = none;
    lease_until = none;
  }

  dead_item : SafeError → QueueItem D → QueueItem D
  dead_item error item = record item {
    attempts = item.attempts + 1;
    status = dead;
    last_error = some error;
  }

  unfoldable pub nack :
      RuntimeState D → String → String → Failure → ℕ → ℕ → ℕ → Result (Status × RuntimeState D)
  unfolding require_lease retry_item dead_item safe_error
  nack state id owner error max_attempts delay_ms now = do
    item ← require_lease state id owner
    if leb max_attempts (item.attempts + 1)
        then ok (
          dead,
          record state {
            dead_letters =
                insert id (record { item = dead_item (safe_error error) item; failed_at = now })
                  state.dead_letters;
            queue = remove id state.queue;
          },
        )
        else ok (
          ready,
          record state {
            queue = insert id (retry_item (safe_error error) (now + delay_ms) item) state.queue;
          },
        )

  renew_item : ℕ → QueueItem D → QueueItem D
  renew_item until item = record item { lease_until = some until }

  unfoldable pub renew_lease : RuntimeState D → String → String → ℕ → ℕ → Result (RuntimeState D)
  unfolding require_lease renew_item
  renew_lease state id owner lease_ms now = do
    item ← require_lease state id owner
    ok (record state { queue = insert id (renew_item (now + lease_ms) item) state.queue })
