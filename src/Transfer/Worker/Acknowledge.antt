-- ===== src/Transfer/Worker/Acknowledge.antt =====
-- What the worker tells the outside is in the journal first: worker.mjs.
use mathlib.Core.Option
use implement_data_space_pro.Transfer.Journal.{is_ending, has_receipt, has_provision}
use implement_data_space_pro.Transfer.Worker.{
  terminate_transfer, end_transfer, terminate_recorded, process_locked, confirm_terminated,
  recover_terminated, start_transfer, record_revoked, new_record, is_over, unstarted_record,
  ensure_revoked, ensure_authorized, record_terminating, start_recorded, acknowledge,
  require_record, same_provision, on_record,
}
use implement_data_space_pro.Transfer.Data.{
  Phase, revoked, Result-cases, terminating, assert_runtime, Status, Code, Binding, Provisioned,
  Event, ok-injective, is_terminating, err, may_run, ok, Result, Record,
}
use implement_data_space_pro.Prelude.Map.{lookup-insert, insert, lookup, Map}
use implement_data_space_pro.Transfer.Keeps.{
  pure-Keeps, journal-lift, choose-Keeps, lift-Keeps, bind-Keeps, with_transfer_journal-ok,
  read_record-found, journal-read_record, calls-with_transfer_journal, calls-read_record, Keeps,
  IsPreorder,
}
use implement_data_space_pro.Prelude.{
  Bool-cases, not, false, inr, arith, inl, Option-cases, Bool, refl, eq_iff, ◌∙◌, none, true, [],
  ◌≢◌, ap, some, sym, ◌≡◌, subst, ◌∷◌, List, Option, String,
}
use implement_data_space_pro.Transfer.Exec.{
  ◌>>=◌, choose, pure, lift, acknowledge_termination_call, acknowledge_start_call, revoke_call,
  with_transfer_journal, read_record, provision_call, calling, Call, World, Env, Config,
}

-- What the journal must hold when a call about a transfer is made.
abbrev pub CallOk : Config → String → Call → Type 0
CallOk c pid (provision_call j) = (r : Record) × (lookup pid j ≡ some r) × (may_run r.phase ≡ true)
CallOk c pid (revoke_call j) =
    (r : Record) × (lookup pid j ≡ some r) × (is_terminating r.phase ≡ true)
CallOk c pid (acknowledge_start_call address j) =
    (r : Record) × (lookup pid j ≡ some r)
    × (has_provision r.phase ≡ true)
    × (r.data_address_digest ≡ some (c.address_digest address))
CallOk c pid (acknowledge_termination_call j) =
    (r : Record) × (lookup pid j ≡ some r) × (has_receipt r.phase ≡ true)

abbrev pub AllOk : Config → String → List Call → Type 0
AllOk c pid [] = Unit
AllOk c pid (call ∷ calls) = CallOk c pid call × AllOk c pid calls

abbrev Logs : Config → String → World → World → Type 0
Logs c pid w w' = AllOk c pid w.calls → AllOk c pid w'.calls

written :
    (pid : String) (f : Option Record → Result (Option Record)) (j : Map Record) {j' : Map Record}
    → on_record pid f j ≡ ok j'
    → ((o : Option Record) × (f (lookup pid j) ≡ ok o) × (o ≢ none → lookup pid j' ≡ o))
written pid f j {j'} e = settle (f (lookup pid j)) refl e
  where
    settle :
        (x : Result (Option Record))
        → f (lookup pid j) ≡ x
        → (elim x [ err c ↦ err c | ok none ↦ ok j | ok (some r) ↦ ok (insert pid r j) ]) ≡ ok j'
        → ((o : Option Record) × (f (lookup pid j) ≡ ok o) × (o ≢ none → lookup pid j' ≡ o))
    settle (err c) q s = cc
    settle (ok none) q s = (none, q, λ h. absurd (h refl))
    settle (ok (some r)) q s = (
      some r,
      q,
      λ _.
          ap (lookup pid) (sym (ok-injective s))
          ∙ lookup-insert pid pid r j
          ∙ rw ((eq_iff pid pid).1 refl) refl,
    )

-- An assertion that passes.
assert-holds :
    (b : Bool) (x : Code) (w : World) {u : Unit {0}}
    → (lift (assert_runtime b x) w).0 ≡ ok u
    → b ≡ true
unfolding lift
assert-holds true x w h = refl
assert-holds false x w h = cc

same_provision-digest :
    (c : Config) (r : Record) (result : Provisioned) (w : World) {u : Unit {0}}
    → (lift (same_provision c r result) w).0 ≡ ok u
    → r.data_address_digest ≡ some (c.address_digest result.data_address)
unfolding same_provision lift
same_provision-digest c r result w h = elim (Option-cases r.data_address_digest) [
  | inl e ↦ ground arith
  | inr (d, e) ↦ ground (arith, eq_iff d (c.address_digest result.data_address))
]

require_record-some :
    (found : Option Record) (w : World) {r : Record}
    → (lift (require_record found) w).0 ≡ ok r
    → found ≡ some r
unfolding lift
require_record-some none w h = cc
require_record-some (some r) w h = ap some (ok-injective h)

module _ (c : Config) (env : Env) (pid : String) where
  logs : IsPreorder (Logs c pid)
  logs = record { stays = λ w h. h; chains = λ u v w f g h. g (f h) }

  read_logs : {w : World} → Keeps (Logs c pid) (read_record c env pid) w
  read_logs {w} = record {
    goes = λ h. subst (λ l. AllOk c pid l) (sym (calls-read_record c env pid w)) h;
  }

  write_logs :
      (f : Map Record → Result (Map Record)) {w : World}
      → Keeps (Logs c pid) (with_transfer_journal c env f) w
  write_logs f {w} = record {
    goes = λ h. subst (λ l. AllOk c pid l) (sym (calls-with_transfer_journal c env f w)) h;
  }

  call_logs :
      {A : Type 0} (call : Map Record → Call) (answer : Result A) {w : World}
      → CallOk c pid (call w.journal)
      → Keeps (Logs c pid) (calling call answer) w
  unfolding calling
  call_logs call answer good = record { goes = λ h. (good, h) }

  -- What a read finds is what the journal holds after it.
  read-holds :
      (w : World) {found : Option Record}
      → (read_record c env pid w).0 ≡ ok found
      → lookup pid (read_record c env pid w).1.journal ≡ found
  read-holds w e =
      ap (lookup pid) (journal-read_record c env pid w) ∙ read_record-found c env pid w e

  -- After a transaction on the record that returns, the journal holds what the write made.
  write-holds :
      (f : Option Record → Result (Option Record)) (w : World) {u : Unit {0}}
      → (with_transfer_journal c env (on_record pid f) w).0 ≡ ok u
      → ((o : Option Record) × (f (lookup pid w.journal) ≡ ok o)
          × (o ≢ none → lookup pid (with_transfer_journal c env (on_record pid f) w).1.journal ≡ o))
  write-holds f w e = written pid f w.journal (with_transfer_journal-ok c env (on_record pid f) w e)

module _ (c : Config) (env : Env) (event : Event) (binding : Binding) (d : String) where
  abbrev pid : String
  pid = event.ident.provider_pid

  abbrev order : IsPreorder (Logs c pid)
  order = logs c env pid

  acknowledge_logs :
      (result : Provisioned) (r : Record) (w : World)
      → lookup pid w.journal ≡ some r
      → Keeps (Logs c pid) (acknowledge c env event binding d result r) w
  unfolding acknowledge
  acknowledge_logs result r w here = bind-Keeps order (lift-Keeps order _) λ _ guarded.
      bind-Keeps order (lift-Keeps order _) λ _ same.
        bind-Keeps order
          (call_logs c env pid _ _ (
            r,
            ap (lookup pid) (journal-lift _ _ ∙ journal-lift _ w) ∙ here,
            assert-holds (has_provision r.phase) _ w guarded,
            same_provision-digest c r result _ same,
          ))
          λ _ _. bind-Keeps order (write_logs c env pid _) λ _ _. pure-Keeps order _

  start_recorded_logs :
      (status : Status) (r : Record) (w : World)
      → lookup pid w.journal ≡ some r
      → may_run r.phase ≡ true
      → Keeps (Logs c pid) (start_recorded c env event binding d status r) w
  unfolding start_recorded
  start_recorded_logs status r w here runs =
      choose-Keeps order _ (λ _. pure-Keeps order _)
        λ _. bind-Keeps order (lift-Keeps order _) λ _ _.
          bind-Keeps order (lift-Keeps order _) λ _ _.
            bind-Keeps order
              (call_logs c env pid _ _
                (r, ap (lookup pid) (journal-lift _ _ ∙ journal-lift _ w) ∙ here, runs))
              λ result _. bind-Keeps order (write_logs c env pid _) λ _ _.
                bind-Keeps order (read_logs c env pid) λ found read.
                  bind-Keeps order (lift-Keeps order _) λ r' is. acknowledge_logs result r' _ (
                    ap (lookup pid) (journal-lift _ _)
                    ∙ read-holds c env pid _ read
                    ∙ require_record-some found _ is)

  ensure_authorized_logs :
      (status : Status) (found : Option Record) (w : World)
      → Keeps (Logs c pid) (ensure_authorized c env event binding d status found) w
  unfolding ensure_authorized
  ensure_authorized_logs status (some r) w = pure-Keeps order r
  ensure_authorized_logs status none w = bind-Keeps order (lift-Keeps order _) λ _ _.
      bind-Keeps order (write_logs c env pid _)
        λ _ _. bind-Keeps order (read_logs c env pid) λ _ _. lift-Keeps order _

  -- What `ensure_authorized` returns is in the journal, and has not ended.
  ensure_authorized-returns :
      (status : Status) (found : Option Record) (w : World) {r : Record}
      → lookup pid w.journal ≡ found
      → not (is_over found) ≡ true
      → (ensure_authorized c env event binding d status found w).0 ≡ ok r
      → (lookup pid (ensure_authorized c env event binding d status found w).1.journal ≡ some r)
        × (may_run r.phase ≡ true)
  unfolding ensure_authorized pure
  ensure_authorized-returns status (some r) w here opens e = ground arith
  ensure_authorized-returns status none w here opens e =
      unfold with_transfer_journal read_record lift ◌>>=◌ in
      ground (
        arith,
        eq_iff pid pid,
        lookup-insert pid pid (new_record event binding d env.now) w.journal,
      )

  -- What `ensure_revoked` leaves in the journal has its receipt.
  ensure_revoked-returns :
      (r : Record) (w : World) {u : Unit {0}}
      → lookup pid w.journal ≡ some r
      → is_ending r.phase ≡ true
      → (ensure_revoked c env event binding d r w).0 ≡ ok u
      → ((r' : Record) × (lookup pid (ensure_revoked c env event binding d r w).1.journal ≡ some r')
          × (has_receipt r'.phase ≡ true))
  unfolding ensure_revoked pure choose
  ensure_revoked-returns r w here ends e = elim (Bool-cases (is_terminating r.phase)) [
    | inr done ↦ (r, ground arith, ground arith)
    | inl pending ↦ elim (Result-cases env.revoke) [
      | inr (x, fails) ↦ absurd (unfold lift calling ◌>>=◌ in ground (arith, pending, fails))
      | inl (result, answers) ↦
          let r' = record r {
            phase = revoked;
            revoke_idempotency_key = some result.idempotency_key;
            revoke_receipt_digest = some result.receipt_digest;
            revoked_at = some env.now;
          } in
          (
            r',
            (unfold lift calling ◌>>=◌ with_transfer_journal record_revoked in
                ground (arith, eq_iff pid pid, lookup-insert pid pid r' w.journal)),
            refl,
          )
    ]
  ]

  record_terminating-ends :
      (o o' : Option Record)
      → record_terminating event binding d env.now o ≡ ok o'
      → (r : Record) × (o' ≡ some r) × (is_ending r.phase ≡ true)
  unfolding record_terminating
  record_terminating-ends none o' e = (unstarted_record event binding d env.now, ground arith, refl)
  record_terminating-ends (some r) o' e = elim (Bool-cases (may_run r.phase)) [
    | inl runs ↦ (
      record r {
        phase = terminating;
        termination_event_id = some event.event_id;
        last_event_id = event.event_id;
        termination_authorized_at = some env.now;
      },
      ground arith,
      refl,
    )
    | inr ended ↦ (r, ground arith, ground arith)
  ]

  start_logs :
      (status : Status) (w : World)
      → Keeps (Logs c pid) (start_transfer c env event binding d status) w
  unfolding start_transfer
  start_logs status w = bind-Keeps order (read_logs c env pid) λ found read.
      bind-Keeps order (lift-Keeps order _) λ _ _. bind-Keeps order (lift-Keeps order _) λ _ opens.
        let here =
          ap (lookup pid) (journal-lift _ _ ∙ journal-lift _ _) ∙ read-holds c env pid w read in
        bind-Keeps order (ensure_authorized_logs status found _) λ r authorized.
          let (kept, runs) =
            ensure_authorized-returns status found _ here
              (assert-holds (not (is_over found)) _ _ opens) authorized in
          start_recorded_logs status r _ kept runs

  confirm_terminated_logs :
      (status : Status) (w : World) (r : Record)
      → lookup pid w.journal ≡ some r
      → r.phase ≡ Phase.terminated
      → Keeps (Logs c pid) (confirm_terminated c env event binding d status) w
  unfolding confirm_terminated
  confirm_terminated_logs status w r here over =
      choose-Keeps order _ (λ _. pure-Keeps order _)
        λ _. bind-Keeps order (call_logs c env pid _ _ (r, here, ap has_receipt over)) λ _ _.
          bind-Keeps order (lift-Keeps order _) λ _ _.
            bind-Keeps order (lift-Keeps order _)
              λ _ _. bind-Keeps order (lift-Keeps order _) λ _ _. pure-Keeps order _

  ensure_revoked_logs :
      (r : Record) (w : World)
      → lookup pid w.journal ≡ some r
      → Keeps (Logs c pid) (ensure_revoked c env event binding d r) w
  unfolding ensure_revoked
  ensure_revoked_logs r w here =
      choose-Keeps order _
        (λ pending. bind-Keeps order (lift-Keeps order _) λ _ _.
          bind-Keeps order
            (call_logs c env pid _ _ (r, ap (lookup pid) (journal-lift _ w) ∙ here, pending))
            λ _ _. bind-Keeps order (lift-Keeps order _) λ _ _. write_logs c env pid _)
        (λ _. pure-Keeps order _)

  abbrev AllEnd : Option Record → Type 0
  AllEnd none = Unit
  AllEnd (some r) = is_ending r.phase ≡ true

  -- What is read after the termination is journalled has ended, and is in the journal.
  terminating-read :
      (w : World) (found : Option Record) (r : Record) {u : Unit {0}}
      → (with_transfer_journal c env
          (on_record pid (record_terminating event binding d env.now))
          w).0
        ≡ ok u
      → let w' =
          (with_transfer_journal c env
            (on_record pid (record_terminating event binding d env.now))
            w).1 in
        (read_record c env pid w').0 ≡ ok found
        → (lift (require_record found) (read_record c env pid w').1).0 ≡ ok r
        → (lookup pid (lift (require_record found) (read_record c env pid w').1).1.journal ≡ some r)
          × (is_ending r.phase ≡ true)
  terminating-read w found r wrote read is =
      let f = record_terminating event binding d env.now in
      let (o, made, holds) = write-holds c env pid f w wrote in
      let (r₀, is_r₀, ends) = record_terminating-ends (lookup pid w.journal) o made in
      let w' = (with_transfer_journal c env (on_record pid f) w).1 in
      let is_r = require_record-some found (read_record c env pid w').1 is in
      let held = holds (λ gone. cc (gone, is_r₀)) ∙ is_r₀ in
      let same = sym held ∙ read_record-found c env pid w' read ∙ is_r in
      (
        ap (lookup pid) (journal-lift _ _) ∙ read-holds c env pid w' read ∙ is_r,
        subst (λ o'. AllEnd o') same ends,
      )

  end_transfer_logs :
      (status : Status) (w : World)
      → Keeps (Logs c pid) (end_transfer c env event binding d status) w
  unfolding end_transfer
  end_transfer_logs status w = bind-Keeps order (lift-Keeps order _) λ _ _.
      bind-Keeps order (write_logs c env pid _) λ _ wrote.
        bind-Keeps order (read_logs c env pid) λ found read.
          bind-Keeps order (lift-Keeps order _) λ r is.
            let (here, ends) = terminating-read _ found r wrote read is in
            bind-Keeps order (ensure_revoked_logs r _ here) λ _ revoked_now.
              bind-Keeps order
                (call_logs c env pid _ _ (ensure_revoked-returns r _ here ends revoked_now))
                λ _ _. bind-Keeps order (write_logs c env pid _) λ _ _. pure-Keeps order _

  recover_terminated_logs :
      (w : World) → Keeps (Logs c pid) (recover_terminated c env event binding d) w
  unfolding recover_terminated
  recover_terminated_logs w = bind-Keeps order (write_logs c env pid _) λ _ _. pure-Keeps order _

  terminate_phase_logs :
      (status : Status) (r : Record) (w : World) (phase : Phase)
      → lookup pid w.journal ≡ some r
      → r.phase ≡ phase
      → Keeps (Logs c pid) (terminate_recorded c env event binding d status (some phase)) w
  unfolding terminate_recorded
  terminate_phase_logs status r w Phase.terminated here is =
      confirm_terminated_logs status w r here is
  terminate_phase_logs status r w revoked here is =
      choose-Keeps order _ (λ _. recover_terminated_logs w) (λ _. end_transfer_logs status w)
  terminate_phase_logs status r w _ here is = end_transfer_logs status w

  terminate_recorded_logs :
      (status : Status) (found : Option Record) (w : World)
      → lookup pid w.journal ≡ found
      → Keeps
          (Logs c pid)
          (terminate_recorded c env event binding d status
            (Option.map (λ (r : Record). r.phase) found))
          w
  terminate_recorded_logs status none w here =
      unfold terminate_recorded in end_transfer_logs status w
  terminate_recorded_logs status (some r) w here = terminate_phase_logs status r w r.phase here refl

  terminate_logs :
      (status : Status) (w : World)
      → Keeps (Logs c pid) (terminate_transfer c env event binding d status) w
  unfolding terminate_transfer
  terminate_logs status w = bind-Keeps order (read_logs c env pid) λ found read.
      bind-Keeps order (lift-Keeps order _) λ _ _.
        terminate_recorded_logs status found _
          (ap (lookup pid) (journal-lift _ _) ∙ read-holds c env pid w read)

module _ (c : Config) (env : Env) where
  process_locked_logs :
      (event : Event) (w : World)
      → Keeps (Logs c event.ident.provider_pid) (process_locked c env event) w
  unfolding process_locked
  process_locked_logs event w =
      let pid = event.ident.provider_pid in
      let order = logs c env pid in
      bind-Keeps order (lift-Keeps order _) λ _ _. bind-Keeps order (lift-Keeps order _) λ status _.
        bind-Keeps order (read_logs c env pid) λ _ _.
          bind-Keeps order (lift-Keeps order _) λ binding _.
            bind-Keeps order (lift-Keeps order _) λ _ _.
              bind-Keeps order (lift-Keeps order _) λ _ _.
                bind-Keeps order (lift-Keeps order _) λ _ _.
                  choose-Keeps order _
                    (λ _. start_logs c env event binding (c.digest binding) status _)
                    (λ _. terminate_logs c env event binding (c.digest binding) status _)

  -- Whatever the outside answers and wherever the journal file fails, every call that one event
  -- makes finds its evidence in the journal on disk: a provision call a record that has not ended, a
  -- revoke call one that is terminating, the acknowledgement of a start the recorded digest of the
  -- very address that it discloses, the acknowledgement of a termination a record that is
  -- revoked or terminated.
  -- The call log is empty at first.
  pub process_locked-AllOk :
      (event : Event) (w : World)
      → w.calls ≡ []
      → AllOk c event.ident.provider_pid (process_locked c env event w).1.calls
  process_locked-AllOk event w h =
      (process_locked_logs event w).goes (subst (AllOk c event.ident.provider_pid) (sym h) tt)
