-- ===== src/Caas/Store/Ledger.antt =====
-- The ledger of the requests (caas/store.mjs, idempotencyReplay and recordIdempotency).
use implement_data_space_pro.Prelude.Map.{lookup-insert, lookup, Map}
use implement_data_space_pro.Caas.Data.{caas_idempotency_conflict, Request, State}
use implement_data_space_pro.Caas.Store.{
  request_ledger_key, scope_of, str_append, Replay, record_idempotency, replay_found, replay_at,
  idempotency_replay, Digests,
}
use implement_data_space_pro.Prelude.{
  refl, eq_iff, Result-cases, inl, arith, inr, err, some, Option-cases, ◌≢◌, none, ok, ◌≡◌, String,
  ℕ,
}

module _ {T R : Type 0} (d : Digests T R) where
  -- What a replay that finds nothing says: where its entry will stand.
  replay_at-fresh :
      (requests : Map (Request R)) (ledger_key legacy_key payload_digest scope_id : String)
      (replay : Replay R)
      → replay_at d requests ledger_key legacy_key payload_digest scope_id ≡ ok replay
      → replay.result ≡ none
      → (replay.ledger_key ≡ ledger_key)
        × (replay.payload_digest ≡ payload_digest)
        × (replay.scope_id ≡ scope_id)
  unfolding replay_at replay_found
  replay_at-fresh requests ledger_key legacy_key payload_digest scope_id replay e n =
      elim (Option-cases (lookup ledger_key requests)) [
        | inr (found, there) ↦ ground (arith, there)
        | inl missing ↦ elim (Option-cases (lookup legacy_key requests)) [
          | inr (found, there) ↦ ground (arith, there, missing)
          | inl missed ↦ ground (arith, missed, missing)
        ]
      ]

  entry_of : Replay R → R → ℕ → Request R
  entry_of replay result now = record {
    scope_id = some replay.scope_id;
    payload_digest = replay.payload_digest;
    completed_at = now;
    result = result;
  }

  lookup-recorded :
      (state : State T R) (replay : Replay R) (result : R) (now : ℕ)
      → lookup replay.ledger_key (record_idempotency state replay result now).requests
        ≡ some (entry_of replay result now)
  unfolding record_idempotency entry_of
  lookup-recorded state replay result now = ground (
    arith,
    eq_iff replay.ledger_key replay.ledger_key,
    lookup-insert replay.ledger_key replay.ledger_key (entry_of replay result now) state.requests,
  )

  -- The entry that is recorded at the key is the one that is found there.
  replay_at-recorded :
      (state : State T R) (legacy_key payload_digest : String) (replay : Replay R) (result : R)
      (now : ℕ)
      → replay_at d
          (record_idempotency state replay result now).requests
          replay.ledger_key
          legacy_key
          payload_digest
          replay.scope_id
        ≡ replay_found d replay.ledger_key payload_digest replay.scope_id
            (entry_of replay result now)
  unfolding replay_at
  replay_at-recorded state legacy_key payload_digest replay result now =
      rw (replay_at, lookup-recorded state replay result now) refl

  replay_found-same :
      (replay : Replay R) (result : R) (now : ℕ)
      → replay_found d replay.ledger_key replay.payload_digest replay.scope_id
          (entry_of replay result now)
        ≡ ok (record replay { result = some result })
  unfolding replay_found entry_of
  replay_found-same replay result now = ground (
    arith,
    eq_iff replay.payload_digest replay.payload_digest,
    eq_iff replay.scope_id replay.scope_id,
  )

  replay_found-other :
      (replay : Replay R) (result : R) (now : ℕ) (other : String)
      → replay.payload_digest ≢ other
      → replay_found d replay.ledger_key other replay.scope_id (entry_of replay result now)
        ≡ err caas_idempotency_conflict
  unfolding replay_found entry_of
  replay_found-other replay result now other h = ground (arith, eq_iff replay.payload_digest other)

  -- The same request, in any state with the ledger that its answer was recorded in.
  pub recorded-replays :
      (state state' : State T R) (operation scope_id key payload_digest : String)
      (replay : Replay R) (result : R) (now : ℕ)
      → idempotency_replay d state operation scope_id key payload_digest ≡ ok replay
      → replay.result ≡ none
      → state'.requests ≡ (record_idempotency state replay result now).requests
      → idempotency_replay d state' operation scope_id key payload_digest
        ≡ ok (record replay { result = some result })
  unfolding idempotency_replay
  recorded-replays state state' operation scope_id key payload_digest replay result now e n q =
      let legacy = str_append (scope_of operation scope_id) (str_append "\0" key) in
      elim (Result-cases (request_ledger_key d operation scope_id key)) [
        | inr (code, failed) ↦ ground (arith, failed)
        | inl (ledger_key, found) ↦
            let fresh =
              replay_at-fresh state.requests ledger_key legacy payload_digest scope_id replay
                (ground (arith, found)) n in
            let same = replay_at-recorded state legacy payload_digest replay result now in
            ground (arith, found, fresh, same, q, replay_found-same replay result now)
      ]

  -- A request that the ledger does not know is recorded with its answer: the same request again
  -- finds that answer, and another request under the same key is a conflict.
  pub record-replays :
      (state : State T R) (operation scope_id key payload_digest other : String) (replay : Replay R)
      (result : R) (now : ℕ)
      → idempotency_replay d state operation scope_id key payload_digest ≡ ok replay
      → replay.result ≡ none
      → payload_digest ≢ other
      → let recorded = record_idempotency state replay result now in
        (idempotency_replay d recorded operation scope_id key payload_digest
          ≡ ok (record replay { result = some result }))
        × (idempotency_replay d recorded operation scope_id key other
            ≡ err caas_idempotency_conflict)
  unfolding idempotency_replay
  record-replays state operation scope_id key payload_digest other replay result now e n h =
      let legacy = str_append (scope_of operation scope_id) (str_append "\0" key) in
      elim (Result-cases (request_ledger_key d operation scope_id key)) [
        | inr (code, failed) ↦ ground (arith, failed)
        | inl (ledger_key, found) ↦
            let fresh =
              replay_at-fresh state.requests ledger_key legacy payload_digest scope_id replay
                (ground (arith, found)) n in
            let same = replay_at-recorded state legacy payload_digest replay result now in
            let differs = replay_at-recorded state legacy other replay result now in
            ground (
              arith,
              found,
              fresh,
              same,
              differs,
              replay_found-same replay result now,
              replay_found-other replay result now other,
            )
      ]

  -- The later ledger has the same under the two keys that an entry of the request may stand at.
  abbrev pub KeepsEntry : String → String → String → Map (Request R) → Map (Request R) → Type 0
  KeepsEntry operation scope_id key requests later =
      let legacy = str_append (scope_of operation scope_id) (str_append "\0" key) in
      ((ledger_key : String)
        → request_ledger_key d operation scope_id key ≡ ok ledger_key
        → lookup ledger_key later ≡ lookup ledger_key requests)
      × (lookup legacy later ≡ lookup legacy requests)

  replay_at-kept :
      (requests later : Map (Request R)) (ledger_key legacy payload_digest scope_id : String)
      → lookup ledger_key later ≡ lookup ledger_key requests
      → lookup legacy later ≡ lookup legacy requests
      → replay_at d later ledger_key legacy payload_digest scope_id
        ≡ replay_at d requests ledger_key legacy payload_digest scope_id
  unfolding replay_at
  replay_at-kept requests later ledger_key legacy payload_digest scope_id kept old =
      elim (Option-cases (lookup ledger_key requests)) [
        | inr (found, there) ↦ ground (arith, there, kept)
        | inl missing ↦ elim (Option-cases (lookup legacy requests)) [
          | inr (found, there) ↦ ground (arith, there, missing, kept, old)
          | inl missed ↦ ground (arith, missed, missing, kept, old)
        ]
      ]

  -- A request finds in a later ledger what it finds in one whose entry is kept there.
  pub idempotency_replay-kept :
      (state later : State T R) (operation scope_id key payload_digest : String)
      → KeepsEntry operation scope_id key state.requests later.requests
      → idempotency_replay d later operation scope_id key payload_digest
        ≡ idempotency_replay d state operation scope_id key payload_digest
  unfolding idempotency_replay
  idempotency_replay-kept state later operation scope_id key payload_digest (kept, old) =
      let legacy = str_append (scope_of operation scope_id) (str_append "\0" key) in
      elim (Result-cases (request_ledger_key d operation scope_id key)) [
        | inr (code, failed) ↦ ground (arith, failed)
        | inl (ledger_key, found) ↦
            let same =
              replay_at-kept state.requests later.requests ledger_key legacy payload_digest scope_id
                (kept ledger_key found) old in
            ground (arith, found, same)
      ]
