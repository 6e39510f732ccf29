-- ===== src/Transfer/Tests.antt =====
-- The theorems on the transfer worker (worker.mjs) at a concrete event and environment.
use implement_data_space_pro.Transfer.Worker.Again.{process_locked-refuses, process_locked-replays}
use implement_data_space_pro.Transfer.Journal.{valid_record, valid_journal}
use implement_data_space_pro.Prelude.Map.{all_entries, insert, lookup}
use implement_data_space_pro.Transfer.Worker.{process_locked}
use implement_data_space_pro.Transfer.Worker.Acknowledge.{process_locked-AllOk, AllOk}
use implement_data_space_pro.Transfer.Worker.Order.{process_locked-Follows, JournalFollows}
use implement_data_space_pro.Transfer.Exec.{
  ◌>>=◌, with_transfer_journal, read_record, calling, choose, pure, lift, Env, World, Config,
}
use implement_data_space_pro.Transfer.Data.{
  terminating, Status, Record, active, resolve_binding, same_identity,
  verify_authoritative_identity, external_failure, err, started, start_authorized, start, ok,
  Identity, Binding, Provisioned, Event,
}
use implement_data_space_pro.Prelude.{
  is_error, some, false, ◌≡◌, utf16_length, none, refl, str_eq, ◌∷◌, true, [], String,
}

abbrev event_ident : Identity
event_ident = record {
  provider_pid = "p1";
  consumer_pid = "c1";
  agreement_id = "a1";
  dataset_id = "d1";
  format = "csv";
}

abbrev start_event : Event
start_event = record { ident = event_ident; action = start; event_id = "e1" }

abbrev pull_binding : Binding
pull_binding = record {
  dataset_id = "d1";
  format = "csv";
  enabled = true;
  transfer_mode = "PULL";
  provisioner_id = "files";
  resource_ref = [];
}

abbrev sixty_four : String
sixty_four = "0123456789abcdef0123456789abcdef0123456789abcdef0123456789abcdef"

abbrev config : Config
config = record {
  registry = pull_binding ∷ [];
  has_provisioner = λ p. str_eq p "files";
  is_safe_resource_ref = λ _. true;
  digest = λ _. sixty_four;
  address_digest = λ _. sixty_four;
}

abbrev answer : Provisioned
answer = record { provisioning_id = "v1"; idempotency_key = "k1"; data_address = [] }

abbrev env : Env
env = record {
  status = ok (record { ident = event_ident; state = start_authorized });
  status_again = ok (record { ident = event_ident; state = started });
  provision = ok answer;
  revoke = err external_failure;
  acknowledge_start = ok tt;
  acknowledge_termination = ok tt;
  fault = λ _. none;
  late_fault = λ _. none;
  now = 5;
}

abbrev empty_world : World
empty_world = record { journal = []; calls = []; accesses = 0 }

process_locked-Follows_example :
    JournalFollows empty_world.journal (process_locked config env start_event empty_world).1.journal
process_locked-Follows_example = process_locked-Follows config env start_event empty_world

process_locked-AllOk_example :
    AllOk config "p1" (process_locked config env start_event empty_world).1.calls
process_locked-AllOk_example = process_locked-AllOk config env start_event empty_world refl

-- Without faults the start of a transfer reaches `active`.
start_runs :
    (process_locked config env start_event empty_world).0
    ≡ ok (record {
      provider_pid = "p1";
      phase = active;
      replayed = false;
      reconciled = false;
      data_address_digest = some sixty_four;
    })
unfolding process_locked verify_authoritative_identity same_identity resolve_binding lift pure
    choose calling read_record with_transfer_journal ◌>>=◌ lookup insert valid_journal valid_record
    all_entries utf16_length
start_runs = refl

abbrev active_record : Record
active_record = record {
  ident = event_ident;
  phase = active;
  provisioner_id = "files";
  binding_snapshot = pull_binding;
  binding_digest = sixty_four;
  provisioning_id = some "v1";
  provision_idempotency_key = some "k1";
  data_address_digest = some sixty_four;
  provisioned_at = some 2;
  start_event_id = some "e1";
  termination_event_id = none;
  last_event_id = "e1";
  authorized_at = some 1;
  acknowledged_at = some 3;
  termination_authorized_at = none;
  revoke_idempotency_key = none;
  revoke_receipt_digest = none;
  revoked_at = none;
  terminated_at = none;
  recovered_without_start_journal = false;
  termination_recovered_from_status = false;
}

abbrev active_world : World
active_world = record { journal = ("p1", active_record) ∷ []; calls = []; accesses = 0 }

abbrev ending_record : Record
ending_record = record active_record { phase = terminating }

abbrev ending_world : World
ending_world = record { journal = ("p1", ending_record) ∷ []; calls = []; accesses = 0 }

abbrev started_status : Status
started_status = record { ident = event_ident; state = started }

abbrev started_env : Env
started_env = record env { status = ok started_status }

same_ident : same_identity event_ident event_ident ≡ true
unfolding same_identity
same_ident = refl

active_found : lookup "p1" active_world.journal ≡ some active_record
unfolding lookup
active_found = refl

ending_found : lookup "p1" ending_world.journal ≡ some ending_record
unfolding lookup
ending_found = refl

active_valid : valid_journal config.digest active_world.journal ≡ true
unfolding valid_journal valid_record all_entries utf16_length
active_valid = refl

process_locked-refuses_example :
    (is_error (process_locked config env start_event ending_world).0 ≡ true)
    × ((process_locked config env start_event ending_world).1.journal ≡ ending_world.journal)
    × ((process_locked config env start_event ending_world).1.calls ≡ ending_world.calls)
process_locked-refuses_example =
    process_locked-refuses config env start_event ending_world ending_record refl ending_found refl

process_locked-replays_example :
    let (answer, w') = process_locked config started_env start_event active_world in
    (answer
      ≡ ok (record {
        provider_pid = "p1";
        phase = active;
        replayed = true;
        reconciled = false;
        data_address_digest = none;
      }))
    × (w'.journal ≡ active_world.journal)
    × (w'.calls ≡ active_world.calls)
process_locked-replays_example =
    process_locked-replays config started_env start_event active_world active_record started_status
      refl refl refl same_ident same_ident (λ n. refl) active_valid active_found refl refl refl
