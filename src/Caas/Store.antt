-- ===== src/Caas/Store.antt =====
-- molit-dataspace/src/caas/store.mjs: the audit chain, its binding to the state, and the ledger of
-- the requests. The digests are SHA-256 of canonical JSON; `encoded` is base64url of UTF-8.
use implement_data_space_pro.Prelude.Map.{lookup, insert, Map}
use implement_data_space_pro.Caas.Data.{
  caas_clock_rollback, caas_audit_capacity_exceeded, idempotency_record_key_invalid,
  caas_idempotency_scope_invalid, caas_audit_chain_invalid, caas_idempotency_conflict, is_scope_id,
  caas_state_snapshot_invalid, caas_audit_actor_invalid, caas_idempotency_key_required, is_sha256,
  is_committed, system, is_request_key, is_actor_identifier, Result, Request, Event,
  state_committed, State, Entry, Unsigned, Role,
}
pub mod Chain
pub mod Append
pub mod Transact
pub mod Ledger
use Prim.Native.String.{◌++◌ as str_append}
use implement_data_space_pro.Prelude.{
  ◌++◌, length, ◌||◌, ltb, ◌==◌, utf16_length, ◌>>◌, is_some, ◌>>=◌, ◌+◌, not, leb, ◌∷◌, ◌&&◌,
  str_eq, false, ok, some, last, assert_runtime, true, if◌then◌else◌, none, Bool, [], List, Option,
  String, ℕ,
}

pub record Digests (T R : Type 0) : Type 0 where
  pub event_digest : Unsigned → String
  -- The digest of snapshotPayload: the tenants and the requests.
  pub snapshot_digest : Map T → Map (Request R) → String
  pub binding_digest : Option String → String → String
  pub encoded : String → String

abbrev pub same_head : Option String → Option String → Bool
same_head none none = true
same_head (some a) (some b) = str_eq a b
same_head _ _ = false

abbrev head_digest : Option Event → Option String
head_digest none = none
head_digest (some event) = some event.event_digest

-- state.audit.at(-1)?.eventDigest ?? null
abbrev pub chain_head : List Event → Option String
chain_head audit = head_digest (last audit)

abbrev pub not_before : Option Event → ℕ → Bool
not_before none now = true
not_before (some event) now = leb event.body.occurred_at now

abbrev store_principal : String
store_principal = "urn:molit:principal:caas-state-store"

abbrev store_client : String
store_client = "molit-caas-state-store"

abbrev store_key : String
store_key = "molit-caas-state-integrity-v1"

-- The event that a commit of the state appends.
abbrev pub commit_entry : String → Entry
commit_entry snapshot_digest = record {
  action = state_committed;
  tenant_id = none;
  actor_role = system;
  actor_principal_id = store_principal;
  actor_client_id = store_client;
  actor_key_id = store_key;
  trace_id = none;
  correlation_id = none;
  generation = none;
  desired_state = none;
  connector_plan_id = none;
  connector_plan_digest = none;
  state_snapshot_digest = some snapshot_digest;
  observed_state = none;
  operation_key = none;
  error_code = none;
  evidence = [];
}

abbrev is_sha256? : Option String → Bool
is_sha256? none = false
is_sha256? (some s) = is_sha256 s

abbrev is_system : Role → Bool
is_system system = true
is_system _ = false

-- The tests of `validateCaasState` on who made an event.
unfoldable pub valid_actor : Entry → Bool
valid_actor entry =
    is_actor_identifier entry.actor_principal_id
    && is_actor_identifier entry.actor_client_id
    && is_actor_identifier entry.actor_key_id
    && (if is_system entry.actor_role
        then is_committed entry.action
          && not (is_some entry.tenant_id)
          && str_eq entry.actor_principal_id store_principal
          && str_eq entry.actor_client_id store_client
          && str_eq entry.actor_key_id store_key
          && is_sha256? entry.state_snapshot_digest
        else not (is_committed entry.action))

module _ {T R : Type 0} (d : Digests T R) where
  -- caasStateSnapshotDigest
  abbrev pub caas_state_snapshot_digest : State T R → String
  caas_state_snapshot_digest state = d.snapshot_digest state.tenants state.requests

  pub empty_caas_state : State T R
  empty_caas_state = record {
    tenants = [];
    requests = [];
    audit = [];
    integrity = record {
      snapshot_digest = d.snapshot_digest [] [];
      audit_head = none;
      binding_digest = d.binding_digest none (d.snapshot_digest [] []);
    };
  }

  unfoldable pub append_audit : ℕ → ℕ → Entry → State T R → Result (State T R)
  append_audit max_audit_events now entry state = do
    assert_runtime (ltb (length state.audit) max_audit_events) caas_audit_capacity_exceeded
    assert_runtime (not_before (last state.audit) now) caas_clock_rollback
    let body : Unsigned = record {
      sequence = length state.audit + 1;
      previous_digest = chain_head state.audit;
      occurred_at = now;
      entry = entry;
    }
    let event : Event = record { body = body; event_digest = d.event_digest body }
    ok (record state { audit = state.audit ++ event ∷ [] })

  unfoldable pub bound : String → State T R → State T R
  bound digest state = record state {
    integrity = record {
      snapshot_digest = digest;
      audit_head = chain_head state.audit;
      binding_digest = d.binding_digest (chain_head state.audit) digest;
    };
  }

  -- The early return of `sealCaasState`: nothing has changed since the last commit.
  abbrev pub is_bound : State T R → Bool
  is_bound state =
      str_eq state.integrity.snapshot_digest (caas_state_snapshot_digest state)
      && same_head state.integrity.audit_head (chain_head state.audit)

  unfoldable pub seal_caas_state : ℕ → ℕ → State T R → Result (State T R)
  unfolding bound
  seal_caas_state max_audit_events now state =
      let digest = caas_state_snapshot_digest state in
      if is_bound state
      then ok state
      else append_audit max_audit_events now (commit_entry digest) state >>= λ committed.
          ok (bound digest committed)

  -- The end of a transaction: the seal, and the checks of the save.
  unfoldable pub committed :
      {A : Type 0}
      → ℕ
      → ℕ
      → (State T R → Result (Unit {0}))
      → Result (A × State T R)
      → Result (A × State T R)
  committed max_audit_events sealed_at check result = do
    done ← result
    sealed ← seal_caas_state max_audit_events sealed_at done.1
    check sealed
    ok (done.0, sealed)

  -- withCaasState: the state is loaded, changed, sealed and saved, or kept when an error is thrown.
  -- `check` is what a load and a save throw on a state: its validation and the limit on its bytes.
  unfoldable pub transact :
      {A : Type 0}
      → ℕ
      → ℕ
      → (State T R → Result (Unit {0}))
      → (State T R → Result (A × State T R))
      → State T R
      → Result (A × State T R)
  unfolding committed
  transact max_audit_events sealed_at check operation state =
      check state >> committed max_audit_events sealed_at check (operation state)

  -- The loop over the audit: the digest of the last event.
  unfoldable pub validate_audit : ℕ → Option String → List Event → Result (Option String)
  validate_audit index previous [] = ok previous
  validate_audit index previous (event ∷ events) =
      let rest = validate_audit (index + 1) (some event.event_digest) events in
      assert_runtime (valid_actor event.body.entry) caas_audit_actor_invalid
      >> assert_runtime
          (event.body.sequence == index + 1 && same_head event.body.previous_digest previous)
          caas_audit_chain_invalid
      >> assert_runtime (str_eq event.event_digest (d.event_digest event.body))
          caas_audit_chain_invalid
      >> rest

  abbrev commits : Option Event → String → Bool
  commits none digest = true
  commits (some event) digest =
      is_committed event.body.entry.action
      && same_head event.body.entry.state_snapshot_digest (some digest)

  abbrev is_empty : State T R → Bool
  is_empty state = elim state.tenants [
    | [] ↦ elim state.requests [ [] ↦ true | _ ∷ _ ↦ false ]
    | _ ∷ _ ↦ false
  ]

  -- The tests of `validateCaasState` on the audit and its binding to the state.
  unfoldable pub validate_binding : State T R → Result (Unit {0})
  validate_binding state = do
    head ← validate_audit 0 none state.audit
    let digest = caas_state_snapshot_digest state
    assert_runtime (str_eq state.integrity.snapshot_digest digest) caas_state_snapshot_invalid
    assert_runtime (same_head state.integrity.audit_head head) caas_state_snapshot_invalid
    assert_runtime (str_eq state.integrity.binding_digest (d.binding_digest head digest))
        caas_state_snapshot_invalid
    assert_runtime (is_empty state || ltb 0 (length state.audit)) caas_state_snapshot_invalid
    assert_runtime (commits (last state.audit) digest) caas_state_snapshot_invalid

-- The scope of the source is `${operation}:${scope_id}`, with no colon in the operation's name.
abbrev pub scope_of : String → String → String
scope_of operation scope_id = str_append operation (str_append ":" scope_id)

-- What `idempotencyReplay` finds.
pub record Replay (R : Type 0) : Type 0 where
  pub ledger_key : String
  pub payload_digest : String
  pub result : Option R
  pub scope_id : String

module _ {T R : Type 0} (d : Digests T R) where
  unfoldable pub encode_idempotency_record_key : String → String → Result String
  encode_idempotency_record_key scope key = do
    assert_runtime
        (leb 3 (utf16_length scope)
          && leb (utf16_length scope) 256
          && leb 1 (utf16_length key)
          && leb (utf16_length key) 256)
        idempotency_record_key_invalid
    ok (str_append "v1." (str_append (d.encoded scope) (str_append "." (d.encoded key))))

  abbrev scope_fits : Option String → String → Bool
  scope_fits none scope_id = true
  scope_fits (some s) scope_id = str_eq s scope_id

  -- The answer when the ledger holds an entry under this key.
  unfoldable pub replay_found : String → String → String → Request R → Result (Replay R)
  replay_found ledger_key payload_digest scope_id existing = do
    assert_runtime (str_eq existing.payload_digest payload_digest) caas_idempotency_conflict
    assert_runtime (scope_fits existing.scope_id scope_id) caas_idempotency_scope_invalid
    ok (record {
      ledger_key = ledger_key;
      payload_digest = payload_digest;
      result = some existing.result;
      scope_id = scope_id;
    })

  unfoldable pub replay_at : Map (Request R) → String → String → String → String → Result (Replay R)
  unfolding replay_found
  replay_at requests ledger_key legacy_key payload_digest scope_id =
      elim (lookup ledger_key requests) [
        | some existing ↦ replay_found ledger_key payload_digest scope_id existing
        | none ↦ elim (lookup legacy_key requests) [
          | some existing ↦ replay_found legacy_key payload_digest scope_id existing
          | none ↦ ok (record {
            ledger_key = ledger_key;
            payload_digest = payload_digest;
            result = none;
            scope_id = scope_id;
          })
        ]
      ]

  -- The guards of `idempotencyReplay`, and the key of the entry.
  unfoldable pub request_ledger_key : String → String → String → Result String
  unfolding encode_idempotency_record_key
  request_ledger_key operation scope_id key =
      assert_runtime (is_request_key key) caas_idempotency_key_required
      >> assert_runtime (is_scope_id scope_id) caas_idempotency_scope_invalid
      >> encode_idempotency_record_key (scope_of operation scope_id) key

  unfoldable pub idempotency_replay :
      State T R → String → String → String → String → Result (Replay R)
  idempotency_replay state operation scope_id key payload_digest = do
    ledger_key ← request_ledger_key operation scope_id key
    replay_at state.requests ledger_key
        (str_append (scope_of operation scope_id) (str_append "\0" key)) payload_digest scope_id

unfoldable pub record_idempotency : {T R : Type 0} → State T R → Replay R → R → ℕ → State T R
record_idempotency state replay result now = record state {
  requests =
      insert replay.ledger_key
        (record {
          scope_id = some replay.scope_id;
          payload_digest = replay.payload_digest;
          completed_at = now;
          result = result;
        })
        state.requests;
}
