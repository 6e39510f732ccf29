-- ===== src/Transfer/Exec.antt =====
-- The effects of the transfer worker: the journal file, and calls of the connector and of the
-- platform, which answer as the environment says (molit-dataspace/src/transfer-runtime).
use implement_data_space_pro.Prelude.{
  ℕ, suc, String, Bool, Option, none, some, List, ◌∷◌, if◌then◌else◌,
}
use implement_data_space_pro.Prelude.Map.{Map, lookup}
use implement_data_space_pro.Transfer.Data.{
  Code, Result, ok, err, transfer_journal_invalid, Record, Status, Binding, Address, Provisioned,
  Revoked,
}
use implement_data_space_pro.Transfer.Journal.{valid_journal}

-- A call to the outside, with the journal as it was on disk when the call was made.
pub data Call : Type 0 where
  provision_call : Map Record → Call
  revoke_call : Map Record → Call
  acknowledge_start_call : Address → Map Record → Call
  acknowledge_termination_call : Map Record → Call

pub record World : Type 0 where
  pub journal : Map Record
  pub calls : List Call
  pub accesses : ℕ

-- How the outside answers while one event is processed. `fault n` is the error of the n-th access
-- to the journal file, if it fails before the file is replaced (a lock that is held, a full disk, a
-- crash), and `late_fault n` that of one that fails afterwards (the sync of the directory).
pub record Env : Type 0 where
  pub status : Result Status
  pub status_again : Result Status
  pub provision : Result Provisioned
  pub revoke : Result Revoked
  pub acknowledge_start : Result (Unit {0})
  pub acknowledge_termination : Result (Unit {0})
  pub fault : ℕ → Option Code
  pub late_fault : ℕ → Option Code
  pub now : ℕ

-- What the worker is configured with. The digests are SHA-256 of canonical JSON.
pub record Config : Type 0 where
  pub registry : List Binding
  pub has_provisioner : String → Bool
  pub is_safe_resource_ref : Map String → Bool
  pub digest : Binding → String
  pub address_digest : Address → String

abbrev pub Exec : Type 0 → Type 0
Exec A = World → Result A × World

abbrev pub continue : {A B : Type 0} → Result A → (A → Exec B) → Exec B
continue (ok a) f w = f a w
continue (err c) f w = (err c, w)

infixl 5 ◌>>=◌ ◌>>◌
unfoldable pub ◌>>=◌ : {A B : Type 0} → Exec A → (A → Exec B) → Exec B
◌>>=◌ m f w = let (r, w') = m w in continue r f w'

abbrev pub ◌>>◌ : {B : Type 0} → Exec (Unit {0}) → Exec B → Exec B
m >> n = m >>= λ _. n

unfoldable pub pure : {A : Type 0} → A → Exec A
pure a w = (ok a, w)

unfoldable pub lift : {A : Type 0} → Result A → Exec A
lift r w = (r, w)

-- `if` between two actions.
unfoldable pub choose : {A : Type 0} → Bool → Exec A → Exec A → Exec A
choose b m n w = if b then m w else n w

-- A call that is logged and answered.
unfoldable pub calling : {A : Type 0} → (Map Record → Call) → Result A → Exec A
calling call answer w = (answer, record w { calls = call w.journal ∷ w.calls })

module _ (c : Config) (env : Env) where
  -- `loadTransferJournal` and `#record`.
  unfoldable pub read_record : String → Exec (Option Record)
  read_record pid w =
      let w' = record w { accesses = suc w.accesses } in
      elim (env.fault w.accesses) [
        | some e ↦ (err e, w')
        | none ↦
            if valid_journal c.digest w.journal
            then (ok (lookup pid w.journal), w')
            else (err transfer_journal_invalid, w')
      ]

  abbrev pub after_rename : Option Code → Result (Unit {0})
  after_rename (some e) = err e
  after_rename none = ok tt

  abbrev pub commit : Result (Map Record) → World → Result (Unit {0}) × World
  commit (err e) w = (err e, w)
  commit (ok records) w =
      if valid_journal c.digest records
      then (after_rename (env.late_fault w.accesses), record w { journal = records })
      else (err transfer_journal_invalid, w)

  -- `withTransferJournal`: load and validate, apply the operation, validate and replace the file. It
  -- fails before the file is replaced or afterwards.
  unfoldable pub with_transfer_journal : (Map Record → Result (Map Record)) → Exec (Unit {0})
  with_transfer_journal operation w =
      let w' = record w { accesses = suc w.accesses } in
      elim (env.fault w.accesses) [
        | some e ↦ (err e, w')
        | none ↦
            if valid_journal c.digest w.journal
            then commit (operation w.journal) w'
            else (err transfer_journal_invalid, w')
      ]
