-- ===== src/Transfer/Worker/Again.antt =====
-- A START event for a transfer that has ended, or that is active already: worker.mjs, #start.
use implement_data_space_pro.Transfer.Journal.{valid_record, valid_journal, is_ending}
use implement_data_space_pro.Prelude.Map.{lookup-all_entries, lookup}
use implement_data_space_pro.Transfer.Worker.{start_recorded, start_transfer, process_locked}
use implement_data_space_pro.Transfer.Data.{
  active, same_identity, started, Status, start, Record, Event,
}
use implement_data_space_pro.Transfer.Exec.{
  pure, ◌>>=◌, choose, read_record, lift, World, Env, Config,
}
use implement_data_space_pro.Prelude.{
  eq_iff, suc, false, none, ok, str_eq, arith, some, true, ◌≡◌, is_error, ℕ,
}

module _ (c : Config) (env : Env) (event : Event) where
  -- What a valid journal says of the binding of a record.
  recorded-valid :
      (w : World) (r : Record)
      → valid_journal c.digest w.journal ≡ true
      → lookup event.ident.provider_pid w.journal ≡ some r
      → (str_eq r.binding_snapshot.provisioner_id r.provisioner_id ≡ true)
        × (str_eq (c.digest r.binding_snapshot) r.binding_digest ≡ true)
  unfolding valid_journal valid_record
  recorded-valid w r v l = ground (
    arith,
    lookup-all_entries (valid_record c.digest) event.ident.provider_pid {v = r} w.journal v,
  )

  -- While the journal holds a record of the transfer that is terminating, revoked or terminated, a START event throws, makes no
  -- call and leaves the journal as it is, whatever the outside answers.
  pub process_locked-refuses :
      (w : World) (r : Record)
      → event.action ≡ start
      → lookup event.ident.provider_pid w.journal ≡ some r
      → is_ending r.phase ≡ true
      → (is_error (process_locked c env event w).0 ≡ true)
        × ((process_locked c env event w).1.journal ≡ w.journal)
        × ((process_locked c env event w).1.calls ≡ w.calls)
  unfolding process_locked ◌>>=◌ lift read_record choose
  process_locked-refuses w r s f e = ground arith

  -- Of a journal that is valid, an active transfer that the connector reports as started is a replay:
  -- a START event answers `active` without a call to provision, revoke or acknowledge, and leaves the
  -- journal as it is, while the journal can be read. The event has the identity of the record, and
  -- its binding is a safe PULL binding.
  pub process_locked-replays :
      (w : World) (r : Record) (status : Status)
      → event.action ≡ start
      → env.status ≡ ok status
      → status.state ≡ started
      → same_identity status.ident event.ident ≡ true
      → same_identity r.ident event.ident ≡ true
      → ((n : ℕ) → env.fault n ≡ none)
      → valid_journal c.digest w.journal ≡ true
      → lookup event.ident.provider_pid w.journal ≡ some r
      → r.phase ≡ active
      → r.binding_snapshot.transfer_mode ≡ "PULL"
      → c.is_safe_resource_ref r.binding_snapshot.resource_ref ≡ true
      → let (answer, w') = process_locked c env event w in
        (answer
          ≡ ok (record {
            provider_pid = event.ident.provider_pid;
            phase = active;
            replayed = true;
            reconciled = false;
            data_address_digest = none;
          }))
        × (w'.journal ≡ w.journal)
        × (w'.calls ≡ w.calls)
  unfolding process_locked start_transfer start_recorded ◌>>=◌ lift read_record choose pure
  process_locked-replays w r status s a q i k f v l p m u =
      let valid = recorded-valid w r v l in
      ground (
        arith,
        valid,
        f w.accesses,
        f (suc w.accesses),
        eq_iff r.binding_snapshot.transfer_mode "PULL",
        eq_iff r.binding_snapshot.provisioner_id r.provisioner_id,
        eq_iff r.provisioner_id r.binding_snapshot.provisioner_id,
        eq_iff (c.digest r.binding_snapshot) r.binding_digest,
        eq_iff r.binding_digest (c.digest r.binding_snapshot),
      )
