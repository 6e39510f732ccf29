-- ===== src/Transfer/Data.antt =====
-- The values that the transfer worker handles: events, bindings and journal records
-- (molit-dataspace/src/transfer-runtime: journal.mjs, identity.mjs, binding-registry.mjs).
use implement_data_space_pro.Prelude.{
  Throws, ℕ, String, Bool, true, false, ◌&&◌, Option, none, some, List, [], ◌∷◌, str_eq,
  if◌then◌else◌,
}
use implement_data_space_pro.Prelude.Map.{Map}
pub use implement_data_space_pro.Prelude.{ok, err, assert_runtime, Result-cases, ok-injective}

pub data Code : Type 0 where
  transfer_identity_mismatch transfer_not_authorized transfer_binding_not_found : Code
  transfer_mode_unsupported binding_secret_forbidden transfer_binding_changed : Code
  transfer_journal_identity_mismatch transfer_state_violation : Code
  transfer_reconciliation_required provisioner_not_configured : Code
  provisioner_idempotency_violation connector_termination_reconciliation_failed : Code
  platform_revoke_receipt_invalid transfer_journal_invalid transfer_journal_locked : Code
  external_failure : Code

abbrev pub Result {ℓ} : Type ℓ → Type ℓ
Result A = Throws Code A

-- identityFields
pub record Identity : Type 0 where
  pub provider_pid : String
  pub consumer_pid : String
  pub agreement_id : String
  pub dataset_id : String
  pub format : String

unfoldable pub same_identity : Identity → Identity → Bool
same_identity a b =
    str_eq a.provider_pid b.provider_pid
    && str_eq a.consumer_pid b.consumer_pid
    && str_eq a.agreement_id b.agreement_id
    && str_eq a.dataset_id b.dataset_id
    && str_eq a.format b.format

pub data Action : Type 0 where
  start terminate : Action

pub record Event : Type 0 where
  pub ident : Identity
  pub action : Action
  pub event_id : String

-- The state that the connector reports; `other` is any that the worker does not name.
pub data ConnectorState : Type 0 where
  start_authorized started termination_authorized terminated other : ConnectorState

pub record Status : Type 0 where
  pub ident : Identity
  pub state : ConnectorState

pub record Binding : Type 0 where
  pub dataset_id : String
  pub format : String
  pub enabled : Bool
  pub transfer_mode : String
  pub provisioner_id : String
  pub resource_ref : Map String

pub data Phase : Type 0 where
  authorized provisioned active terminating revoked : Phase
  terminated : Phase

pub record Record : Type 0 where
  pub ident : Identity
  pub phase : Phase
  pub provisioner_id : String
  pub binding_snapshot : Binding
  pub binding_digest : String
  pub provisioning_id : Option String
  pub provision_idempotency_key : Option String
  pub data_address_digest : Option String
  pub provisioned_at : Option ℕ
  pub start_event_id : Option String
  pub termination_event_id : Option String
  pub last_event_id : String
  pub authorized_at : Option ℕ
  pub acknowledged_at : Option ℕ
  pub termination_authorized_at : Option ℕ
  pub revoke_idempotency_key : Option String
  pub revoke_receipt_digest : Option String
  pub revoked_at : Option ℕ
  pub terminated_at : Option ℕ
  pub recovered_without_start_journal : Bool
  pub termination_recovered_from_status : Bool

abbrev pub Address : Type 0
Address = Map String

-- What the provisioner answers.
pub record Provisioned : Type 0 where
  pub provisioning_id : String
  pub idempotency_key : String
  pub data_address : Address

pub record Revoked : Type 0 where
  pub idempotency_key : String
  pub receipt_digest : String

-- What `process` returns.
pub record Outcome : Type 0 where
  pub provider_pid : String
  pub phase : Phase
  pub replayed : Bool
  pub reconciled : Bool
  pub data_address_digest : Option String

-- allowedStates of verifyAuthoritativeIdentity
abbrev pub allows : Action → ConnectorState → Bool
allows start start_authorized = true
allows start started = true
allows terminate termination_authorized = true
allows terminate ConnectorState.terminated = true
allows _ _ = false

unfoldable pub verify_authoritative_identity : Event → Status → Result Status
unfolding same_identity
verify_authoritative_identity event status =
    if same_identity status.ident event.ident
    then (if allows event.action status.state then ok status else err transfer_not_authorized)
    else err transfer_identity_mismatch

find_binding : String → String → List Binding → Option Binding
find_binding dataset_id format [] = none
find_binding dataset_id format (b ∷ bs) =
    if str_eq b.dataset_id dataset_id && str_eq b.format format
    then some b
    else find_binding dataset_id format bs

permitted : Bool → Option Binding → Result Binding
permitted require_enabled none = err transfer_binding_not_found
permitted true (some b) = if b.enabled then ok b else err transfer_binding_not_found
permitted false (some b) = ok b

unfoldable pub resolve_binding : List Binding → String → String → Bool → Result Binding
unfolding find_binding permitted
resolve_binding registry dataset_id format require_enabled =
    permitted require_enabled (find_binding dataset_id format registry)

abbrev pub is_start : Action → Bool
is_start start = true
is_start terminate = false

abbrev pub is_active : Phase → Bool
is_active active = true
is_active _ = false

abbrev pub is_authorized : Phase → Bool
is_authorized authorized = true
is_authorized _ = false

abbrev pub is_provisioned : Phase → Bool
is_provisioned provisioned = true
is_provisioned _ = false

abbrev pub is_terminating : Phase → Bool
is_terminating terminating = true
is_terminating _ = false

abbrev pub is_revoked : Phase → Bool
is_revoked revoked = true
is_revoked _ = false

abbrev pub is_terminated : Phase → Bool
is_terminated Phase.terminated = true
is_terminated _ = false

-- ["authorized", "provisioned", "active"].includes(phase)
abbrev pub may_run : Phase → Bool
may_run authorized = true
may_run provisioned = true
may_run active = true
may_run _ = false

abbrev pub is_started : ConnectorState → Bool
is_started started = true
is_started _ = false

abbrev pub is_start_authorized : ConnectorState → Bool
is_start_authorized start_authorized = true
is_start_authorized _ = false

abbrev pub is_connector_terminated : ConnectorState → Bool
is_connector_terminated ConnectorState.terminated = true
is_connector_terminated _ = false

abbrev pub is_termination_authorized : ConnectorState → Bool
is_termination_authorized termination_authorized = true
is_termination_authorized _ = false
