-- ===== src/Transfer/Journal.antt =====
-- molit-dataspace/src/transfer-runtime/journal.mjs: what a journal must hold to be loaded or saved.
-- `digest` is the SHA-256 of the canonical JSON of a binding.
use Prim.Native.Char.{code}
use implement_data_space_pro.Prelude.{
  ℕ, String, Bool, true, false, ◌&&◌, ◌||◌, not, Option, none, some, leb, ◌==◌, str_eq,
  utf16_length, is_some,
}
use implement_data_space_pro.Prelude.Map.{Map, all_entries}
use implement_data_space_pro.Transfer.Data.{
  Binding, Record, Phase, provisioned, active, terminating, revoked,
}

-- typeof value === "string" && value.length > 0
abbrev pub is_filled : String → Bool
is_filled s = not (str_eq s "")

abbrev pub is_present : Option String → Bool
is_present none = false
is_present (some s) = is_filled s

abbrev hex_digit : ℕ → Bool
hex_digit c = (leb 48 c && leb c 57) || (leb 97 c && leb c 102)

hex_string : String → Bool
hex_string String.[] = true
hex_string (String.◌∷◌ c s) = hex_digit (code c) && hex_string s

-- /^[a-f0-9]{64}$/
unfoldable pub is_sha256 : String → Bool
unfolding hex_string
is_sha256 s = hex_string s && utf16_length s == 64

abbrev pub is_sha256? : Option String → Bool
is_sha256? none = false
is_sha256? (some s) = is_sha256 s

-- ["provisioned", "active"].includes(phase)
abbrev pub has_provision : Phase → Bool
has_provision provisioned = true
has_provision active = true
has_provision _ = false

-- ["terminating", "revoked", "terminated"].includes(phase)
abbrev pub is_ending : Phase → Bool
is_ending terminating = true
is_ending revoked = true
is_ending Phase.terminated = true
is_ending _ = false

-- ["revoked", "terminated"].includes(phase)
abbrev pub has_receipt : Phase → Bool
has_receipt revoked = true
has_receipt Phase.terminated = true
has_receipt _ = false

abbrev bounded_id : Option String → Bool
bounded_id none = true
bounded_id (some s) = is_filled s && leb (utf16_length s) 512

module _ (digest : Binding → String) where
  -- The tests of validateJournalRecords on one record. That no DataAddress is stored holds by
  -- typing: a record has no field for one.
  unfoldable pub valid_record : String → Record → Bool
  valid_record provider_pid r =
      str_eq r.ident.provider_pid provider_pid
      && (is_filled r.ident.consumer_pid
          && is_filled r.ident.agreement_id
          && is_filled r.ident.dataset_id
          && is_filled r.ident.format
          && is_filled r.provisioner_id)
      && (utf16_length r.binding_digest == 64
          && str_eq r.binding_snapshot.dataset_id r.ident.dataset_id
          && str_eq r.binding_snapshot.format r.ident.format
          && str_eq r.binding_snapshot.provisioner_id r.provisioner_id
          && str_eq (digest r.binding_snapshot) r.binding_digest)
      && (not (has_provision r.phase)
          || (is_present r.provisioning_id
              && is_present r.provision_idempotency_key
              && is_present r.data_address_digest
              && is_some r.provisioned_at))
      && (not (is_ending r.phase) || bounded_id r.provisioning_id)
      && (not (has_receipt r.phase)
          || (is_some r.revoked_at
              && is_some r.revoke_idempotency_key
              && is_sha256? r.revoke_receipt_digest))

  unfoldable pub valid_journal : Map Record → Bool
  valid_journal records = all_entries valid_record records
