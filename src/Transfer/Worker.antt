-- ===== src/Transfer/Worker.antt =====
-- molit-dataspace/src/transfer-runtime/worker.mjs: one lifecycle event, under the provider's lock.
pub mod Order
pub mod Acknowledge
pub mod Again
use mathlib.Core.Option
use implement_data_space_pro.Prelude.{
  ℕ, String, Bool, true, false, ◌&&◌, ◌||◌, not, Option, none, some, List, [], ◌∷◌, str_eq,
  if◌then◌else◌,
}
use implement_data_space_pro.Prelude.Map.{Map, lookup, insert}
use implement_data_space_pro.Transfer.Data.{
  connector_termination_reconciliation_failed, platform_revoke_receipt_invalid, is_started,
  binding_secret_forbidden, transfer_reconciliation_required, transfer_mode_unsupported, is_start,
  provisioner_not_configured, provisioner_idempotency_violation, transfer_state_violation,
  is_active, is_connector_terminated, is_termination_authorized, is_authorized,
  transfer_binding_changed, Revoked, Outcome, is_provisioned, is_revoked, is_start_authorized,
  verify_authoritative_identity, resolve_binding, may_run, transfer_journal_identity_mismatch,
  external_failure, Provisioned, is_terminating, Code, Result, ok, err, assert_runtime, Identity,
  Event, Status, Binding, Record, Phase, authorized, provisioned, active, terminating, revoked,
  same_identity,
}
use implement_data_space_pro.Transfer.Journal.{is_ending, is_sha256, has_provision}
use implement_data_space_pro.Transfer.Exec.{
  choose, provision_call, acknowledge_termination_call, acknowledge_start_call, revoke_call, Env,
  Config, Exec, ◌>>=◌, ◌>>◌, pure, lift, calling, read_record, with_transfer_journal,
}

-- assertSameIdentity
unfoldable pub assert_same_identity : Record → Event → Result (Unit {0})
unfolding same_identity
assert_same_identity r event =
    assert_runtime (same_identity r.ident event.ident) transfer_journal_identity_mismatch

-- A write to `journal.records[pid]`, with what happens if it is missing.
abbrev pub on_record :
    String → (Option Record → Result (Option Record)) → Map Record → Result (Map Record)
on_record pid f records = elim (f (lookup pid records)) [
  | err e ↦ err e
  | ok none ↦ ok records
  | ok (some r) ↦ ok (insert pid r records)
]

-- The record of a transfer that is authorized to start.
new_record : Event → Binding → String → ℕ → Record
new_record event binding binding_digest now = record {
  ident = event.ident;
  phase = authorized;
  provisioner_id = binding.provisioner_id;
  binding_snapshot = binding;
  binding_digest = binding_digest;
  provisioning_id = none;
  provision_idempotency_key = none;
  data_address_digest = none;
  provisioned_at = none;
  start_event_id = some event.event_id;
  termination_event_id = none;
  last_event_id = event.event_id;
  authorized_at = some now;
  acknowledged_at = none;
  termination_authorized_at = none;
  revoke_idempotency_key = none;
  revoke_receipt_digest = none;
  revoked_at = none;
  terminated_at = none;
  recovered_without_start_journal = false;
  termination_recovered_from_status = false;
}

-- The record of a transfer that ends and was never journalled.
unstarted_record : Event → Binding → String → ℕ → Record
unstarted_record event binding binding_digest now = record {
  ident = event.ident;
  phase = terminating;
  provisioner_id = binding.provisioner_id;
  binding_snapshot = binding;
  binding_digest = binding_digest;
  provisioning_id = none;
  provision_idempotency_key = none;
  data_address_digest = none;
  provisioned_at = none;
  start_event_id = none;
  termination_event_id = some event.event_id;
  last_event_id = event.event_id;
  authorized_at = none;
  acknowledged_at = none;
  termination_authorized_at = some now;
  revoke_idempotency_key = none;
  revoke_receipt_digest = none;
  revoked_at = none;
  terminated_at = none;
  recovered_without_start_journal = true;
  termination_recovered_from_status = false;
}

-- `current` is never missing where the source reads `current.phase`; a missing one is a TypeError.
abbrev pub on_current : (Record → Result Record) → Option Record → Result (Option Record)
on_current f none = err external_failure
on_current f (some r) = elim (f r) [ ok r' ↦ ok (some r') | err e ↦ err e ]

-- The journal writes of `#start`.
authorize : Event → Binding → String → ℕ → Option Record → Result (Option Record)
unfolding new_record
authorize event binding binding_digest now _ =
    ok (some (new_record event binding binding_digest now))

record_provisioned : Config → Event → Provisioned → ℕ → Record → Result Record
unfolding assert_same_identity
record_provisioned c event result now r = elim (assert_same_identity r event) [
  | err e ↦ err e
  | ok _ ↦ ok (
      if is_authorized r.phase
      then record r {
        phase = provisioned;
        provisioning_id = some result.provisioning_id;
        provision_idempotency_key = some result.idempotency_key;
        data_address_digest = some (c.address_digest result.data_address);
        provisioned_at = some now;
      }
      else r)
]

record_active : ℕ → Record → Result Record
record_active now r =
    ok (
      if is_provisioned r.phase then record r { phase = active; acknowledged_at = some now } else r)

-- The journal writes of `#terminate`.
mark_terminating : Event → ℕ → Record → Result Record
unfolding assert_same_identity
mark_terminating event now r = elim (assert_same_identity r event) [
  | err e ↦ err e
  | ok _ ↦ ok (
      if may_run r.phase
      then record r {
        phase = terminating;
        termination_event_id = some event.event_id;
        last_event_id = event.event_id;
        termination_authorized_at = some now;
      }
      else r)
]

record_terminating : Event → Binding → String → ℕ → Option Record → Result (Option Record)
unfolding mark_terminating unstarted_record
record_terminating event binding binding_digest now none =
    ok (some (unstarted_record event binding binding_digest now))
record_terminating event binding binding_digest now (some r) =
    on_current (mark_terminating event now) (some r)

record_revoked : Revoked → ℕ → Record → Result Record
record_revoked result now r = ok (
    if is_terminating r.phase
    then record r {
      phase = revoked;
      revoke_idempotency_key = some result.idempotency_key;
      revoke_receipt_digest = some result.receipt_digest;
      revoked_at = some now;
    }
    else r)

record_terminated : ℕ → Record → Result Record
record_terminated now r = ok (
    if is_revoked r.phase
    then record r { phase = Phase.terminated; terminated_at = some now }
    else r)

record_recovered : Event → ℕ → Record → Result Record
unfolding assert_same_identity
record_recovered event now r = elim (assert_same_identity r event) [
  | err e ↦ err e
  | ok _ ↦ ok (
      if is_revoked r.phase
      then record r {
        phase = Phase.terminated;
        terminated_at = some now;
        termination_recovered_from_status = true;
      }
      else r)
]

outcome : Event → Phase → Outcome
outcome event phase = record {
  provider_pid = event.ident.provider_pid;
  phase = phase;
  replayed = false;
  reconciled = false;
  data_address_digest = none;
}

-- The guards that `#start` and `#terminate` make of a record that exists.
check_existing : Event → Binding → Option Record → Result (Unit {0})
unfolding assert_same_identity
check_existing event binding none = ok tt
check_existing event binding (some r) = elim (assert_same_identity r event) [
  | err e ↦ err e
  | ok _ ↦ assert_runtime (str_eq r.provisioner_id binding.provisioner_id) transfer_binding_changed
]

abbrev is_over : Option Record → Bool
is_over none = false
is_over (some r) = is_ending r.phase

-- `record` after a read that must find one.
abbrev pub require_record : Option Record → Result Record
require_record none = err external_failure
require_record (some r) = ok r

matches : Option String → String → Bool
matches none s = false
matches (some t) s = str_eq t s

-- The replayed provision answer must be the one that was journalled.
same_provision : Config → Record → Provisioned → Result (Unit {0})
unfolding matches
same_provision c r result =
    if matches r.provisioning_id result.provisioning_id
      && matches r.provision_idempotency_key result.idempotency_key
      && matches r.data_address_digest (c.address_digest result.data_address)
    then ok tt
    else err provisioner_idempotency_violation

module _ (c : Config) (env : Env) (event : Event) (binding : Binding)
    (binding_digest : String) where
  abbrev pid : String
  pid = event.ident.provider_pid

  -- Lines 74 to 89: journal the authorization unless there is a record.
  ensure_authorized : Status → Option Record → Exec Record
  unfolding authorize
  ensure_authorized status none = do
    lift (assert_runtime (is_start_authorized status.state) transfer_reconciliation_required)
    with_transfer_journal c env (on_record pid (authorize event binding binding_digest env.now))
    found ← read_record c env pid
    lift (require_record found)
  ensure_authorized status (some r) = pure r

  -- Lines 112 to 123: acknowledge what is journalled, and mark it active.
  acknowledge : Provisioned → Record → Exec Outcome
  unfolding same_provision record_active outcome
  acknowledge result r = do
    lift (assert_runtime (has_provision r.phase) transfer_state_violation)
    lift (same_provision c r result)
    calling (acknowledge_start_call result.data_address) env.acknowledge_start
    with_transfer_journal c env (on_record pid (on_current (record_active env.now)))
    pure (record (outcome event active) { data_address_digest = r.data_address_digest })

  -- Lines 91 to 111: provision, and journal the answer.
  start_recorded : Status → Record → Exec Outcome
  unfolding record_provisioned acknowledge
  start_recorded status r =
      choose (is_active r.phase && is_started status.state)
        (pure (record (outcome event active) { replayed = true }))
        (do
          lift (
              assert_runtime
                (is_start_authorized status.state
                  || (is_started status.state && has_provision r.phase))
                transfer_reconciliation_required)
          lift
              (assert_runtime (c.has_provisioner binding.provisioner_id) provisioner_not_configured)
          result ← calling provision_call env.provision
          with_transfer_journal c env
              (on_record pid (on_current (record_provisioned c event result env.now)))
          found ← read_record c env pid
          r' ← lift (require_record found)
          acknowledge result r')

  start_transfer : Status → Exec Outcome
  unfolding check_existing ensure_authorized start_recorded
  start_transfer status = do
    found ← read_record c env pid
    lift (check_existing event binding found)
    lift (assert_runtime (not (is_over found)) transfer_state_violation)
    r ← ensure_authorized status found
    start_recorded status r

  -- Lines 130 to 141: a transfer that is over already.
  confirm_terminated : Status → Exec Outcome
  unfolding outcome verify_authoritative_identity
  confirm_terminated status =
      choose (is_connector_terminated status.state)
        (pure (record (outcome event Phase.terminated) { replayed = true }))
        (do
          calling acknowledge_termination_call env.acknowledge_termination
          answer ← lift env.status_again
          again ← lift (verify_authoritative_identity event answer)
          lift (
              assert_runtime (is_connector_terminated again.state)
                connector_termination_reconciliation_failed)
          pure (record (outcome event Phase.terminated) { replayed = true; reconciled = true }))

  -- Lines 164 to 175: revoke the access unless that is done.
  ensure_revoked : Record → Exec (Unit {0})
  unfolding record_revoked
  ensure_revoked r =
      choose (is_terminating r.phase)
        (do
          lift
              (assert_runtime (c.has_provisioner binding.provisioner_id) provisioner_not_configured)
          result ← calling revoke_call env.revoke
          lift (assert_runtime (is_sha256 result.receipt_digest) platform_revoke_receipt_invalid)
          with_transfer_journal c env (on_record pid (on_current (record_revoked result env.now))))
        (pure tt)

  -- Lines 153 to 181: authorize, revoke, acknowledge, close.
  end_transfer : Status → Exec Outcome
  unfolding record_terminating ensure_revoked record_terminated outcome
  end_transfer status = do
    lift (assert_runtime (is_termination_authorized status.state) transfer_reconciliation_required)
    with_transfer_journal c env
        (on_record pid (record_terminating event binding binding_digest env.now))
    found ← read_record c env pid
    r ← lift (require_record found)
    ensure_revoked r
    calling acknowledge_termination_call env.acknowledge_termination
    with_transfer_journal c env (on_record pid (on_current (record_terminated env.now)))
    pure (outcome event Phase.terminated)

  -- Lines 142 to 152: the connector has seen the end that the journal has not.
  recover_terminated : Exec Outcome
  unfolding record_recovered outcome
  recover_terminated = do
    with_transfer_journal c env (on_record pid (on_current (record_recovered event env.now)))
    pure (record (outcome event Phase.terminated) { replayed = true; reconciled = true })

  terminate_recorded : Status → Option Phase → Exec Outcome
  unfolding confirm_terminated recover_terminated end_transfer
  terminate_recorded status (some Phase.terminated) = confirm_terminated status
  terminate_recorded status (some revoked) =
      choose (is_connector_terminated status.state) recover_terminated (end_transfer status)
  terminate_recorded status _ = end_transfer status

  terminate_transfer : Status → Exec Outcome
  unfolding check_existing terminate_recorded
  terminate_transfer status = do
    found ← read_record c env pid
    lift (check_existing event binding found)
    terminate_recorded status (Option.map (λ (r : Record). r.phase) found)

-- The binding of the record, or that of the registry when there is none.
select_binding : Config → Event → Option Record → Result Binding
unfolding resolve_binding
select_binding c event none =
    resolve_binding c.registry event.ident.dataset_id event.ident.format (is_start event.action)
select_binding c event (some r) = ok r.binding_snapshot

same_digest : String → Option Record → Bool
same_digest d none = true
same_digest d (some r) = str_eq r.binding_digest d

unfoldable pub process_locked : Config → Env → Event → Exec Outcome
unfolding verify_authoritative_identity select_binding same_digest start_transfer terminate_transfer
process_locked c env event = do
  answer ← lift env.status
  status ← lift (verify_authoritative_identity event answer)
  existing ← read_record c env event.ident.provider_pid
  binding ← lift (select_binding c event existing)
  lift (assert_runtime (str_eq binding.transfer_mode "PULL") transfer_mode_unsupported)
  lift (assert_runtime (c.is_safe_resource_ref binding.resource_ref) binding_secret_forbidden)
  lift (assert_runtime (same_digest (c.digest binding) existing) transfer_binding_changed)
  choose (is_start event.action) (start_transfer c env event binding (c.digest binding) status)
      (terminate_transfer c env event binding (c.digest binding) status)
