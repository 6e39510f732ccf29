-- ===== src/Transfer/Worker/Order.antt =====
-- The journal only moves forward: worker.mjs, over every way that the outside may answer.
use implement_data_space_pro.Prelude.{
  ℕ, ◌≤◌, String, ◌≡◌, refl, sym, ◌∙◌, ap, subst, Option, none, some, arith, Bool-cases, inl, inr,
  eq_iff, str_eq,
}
use implement_data_space_pro.Transfer.Data.{
  ok-injective, Phase, authorized, provisioned, active, terminating, revoked, Record, Result, ok,
  err, Event, Binding, Status, Provisioned, Revoked,
}
use implement_data_space_pro.Transfer.Exec.{
  World, Env, Config, with_transfer_journal, read_record, calling, Call,
}
use implement_data_space_pro.Prelude.Map.{Map, lookup, insert, lookup-insert}
use implement_data_space_pro.Transfer.Keeps.{
  journal-lift, Keeps, IsPreorder, bind-Keeps, pure-Keeps, lift-Keeps, choose-Keeps,
  journal-read_record, read_record-found, with_transfer_journal-cases,
}
use implement_data_space_pro.Transfer.Worker.{
  mark_terminating, ok, Result, Phase, Record, on_record, on_current, authorize, record_provisioned,
  record_active, record_terminating, record_revoked, record_terminated, record_recovered,
  ensure_authorized, acknowledge, start_recorded, start_transfer, confirm_terminated,
  ensure_revoked, end_transfer, recover_terminated, terminate_recorded, terminate_transfer,
  process_locked,
}

-- How far a transfer has come.
abbrev pub rank : Phase → ℕ
rank authorized = 1
rank provisioned = 2
rank active = 3
rank terminating = 4
rank revoked = 5
rank Phase.terminated = 6

-- What a later record of the same transfer has in common with an earlier one.
pub record Advances (r r' : Record) : Type 0 where
  pub forward : rank r.phase ≤ rank r'.phase
  pub same_ident : r'.ident ≡ r.ident
  pub same_provisioner : r'.provisioner_id ≡ r.provisioner_id
  pub same_binding : r'.binding_snapshot ≡ r.binding_snapshot
  pub same_binding_digest : r'.binding_digest ≡ r.binding_digest

abbrev pub Follows : Option Record → Option Record → Type 0
Follows none later = Unit
Follows (some r) none = ⊥
Follows (some r) (some r') = Advances r r'

-- Each record stays, moves forward, and keeps its identity and its binding.
abbrev pub JournalFollows : Map Record → Map Record → Type 0
JournalFollows j j' = (pid : String) → Follows (lookup pid j) (lookup pid j')

Advances-refl : (r : Record) → Advances r r
Advances-refl r = ground arith

Advances-trans : (a b d : Record) → Advances a b → Advances b d → Advances a d
Advances-trans a b d h k = record {
  forward = omega arith;
  same_ident = k.same_ident ∙ h.same_ident;
  same_provisioner = k.same_provisioner ∙ h.same_provisioner;
  same_binding = k.same_binding ∙ h.same_binding;
  same_binding_digest = k.same_binding_digest ∙ h.same_binding_digest;
}

Follows-refl : (o : Option Record) → Follows o o
Follows-refl none = tt
Follows-refl (some r) = Advances-refl r

Follows-trans : (a b d : Option Record) → Follows a b → Follows b d → Follows a d
Follows-trans none b d h k = tt
Follows-trans (some a) none d h k = absurd h
Follows-trans (some a) (some b) none h k = absurd k
Follows-trans (some a) (some b) (some d) h k = Advances-trans a b d h k

abbrev Moves : World → World → Type 0
Moves w w' = JournalFollows w.journal w'.journal

moves : IsPreorder Moves
moves = record {
  stays = λ w pid. Follows-refl (lookup pid w.journal);
  chains = λ u v w h k pid.
      Follows-trans (lookup pid u.journal) (lookup pid v.journal) (lookup pid w.journal) (h pid)
        (k pid);
}

JournalFollows-insert :
    (k : String) (r : Record) (j : Map Record)
    → Follows (lookup k j) (some r)
    → JournalFollows j (insert k r j)
JournalFollows-insert k r j h pid = elim (Bool-cases (str_eq k pid)) [
  | inl same ↦
      rw (lookup-insert k pid r j)
        (rw same (subst (λ p. Follows (lookup p j) (some r)) ((eq_iff k pid).0 same) h))
  | inr other ↦ rw (lookup-insert k pid r j) (rw other (Follows-refl (lookup pid j)))
]

-- A write to one record moves the journal forward if it moves that record forward.
on_record-Follows :
    (k : String) (f : Option Record → Result (Option Record)) (j : Map Record) {j' : Map Record}
    → ((o' : Option Record) → f (lookup k j) ≡ ok o' → Follows (lookup k j) o')
    → on_record k f j ≡ ok j'
    → JournalFollows j j'
on_record-Follows k f j {j'} h e = settle (f (lookup k j)) refl e
  where
    settle :
        (r : Result (Option Record))
        → f (lookup k j) ≡ r
        → (elim r [ err x ↦ err x | ok none ↦ ok j | ok (some s) ↦ ok (insert k s j) ]) ≡ ok j'
        → JournalFollows j j'
    settle (err x) q s = cc
    settle (ok none) q s =
        subst (λ t. JournalFollows j t) (ok-injective s) (λ pid. Follows-refl (lookup pid j))
    settle (ok (some r)) q s =
        subst (λ t. JournalFollows j t) (ok-injective s)
          (JournalFollows-insert k r j (h (some r) q))

-- Writes that move the record at hand forward, whatever it is.
abbrev Forward : (Record → Result Record) → Type 0
Forward f = (r r' : Record) → f r ≡ ok r' → Advances r r'

on_current-Follows :
    (f : Record → Result Record) (o : Option Record) {o' : Option Record}
    → Forward f
    → on_current f o ≡ ok o'
    → Follows o o'
on_current-Follows f none h e = tt
on_current-Follows f (some r) {o'} h e = settle (f r) refl e
  where
    settle :
        (x : Result Record)
        → f r ≡ x
        → (elim x [ ok r' ↦ ok (some r') | err c ↦ err c ]) ≡ ok o'
        → Follows (some r) o'
    settle (ok r') q s = subst (λ o. Follows (some r) o) (ok-injective s) (h r r' q)
    settle (err c) q s = cc

record_provisioned-Forward :
    (c : Config) (event : Event) (result : Provisioned) (now : ℕ)
    → Forward (record_provisioned c event result now)
unfolding record_provisioned
record_provisioned-Forward c event result now r r' h = ground arith

record_active-Forward : (now : ℕ) → Forward (record_active now)
unfolding record_active
record_active-Forward now r r' h = ground arith

record_revoked-Forward : (result : Revoked) (now : ℕ) → Forward (record_revoked result now)
unfolding record_revoked
record_revoked-Forward result now r r' h = ground arith

record_terminated-Forward : (now : ℕ) → Forward (record_terminated now)
unfolding record_terminated
record_terminated-Forward now r r' h = ground arith

record_recovered-Forward : (event : Event) (now : ℕ) → Forward (record_recovered event now)
unfolding record_recovered
record_recovered-Forward event now r r' h = ground arith

mark_terminating-Forward : (event : Event) (now : ℕ) → Forward (mark_terminating event now)
unfolding mark_terminating
mark_terminating-Forward event now r r' h = ground arith

record_terminating-Follows :
    (event : Event) (binding : Binding) (d : String) (now : ℕ) (o : Option Record)
    {o' : Option Record}
    → record_terminating event binding d now o ≡ ok o'
    → Follows o o'
unfolding record_terminating
record_terminating-Follows event binding d now none h = tt
record_terminating-Follows event binding d now (some r) h =
    on_current-Follows (mark_terminating event now) (some r) (mark_terminating-Forward event now) h

module _ (c : Config) (env : Env) where
  -- A transaction on one record keeps the order if its write does.
  write-Keeps :
      (k : String) (f : Option Record → Result (Option Record)) {w : World}
      → ((o' : Option Record) → f (lookup k w.journal) ≡ ok o' → Follows (lookup k w.journal) o')
      → Keeps Moves (with_transfer_journal c env (on_record k f)) w
  write-Keeps k f {w} h = record {
    goes =
        with_transfer_journal-cases c env (on_record k f) w (λ j. JournalFollows w.journal j)
          (λ pid. Follows-refl (lookup pid w.journal)) (λ j e. on_record-Follows k f w.journal h e);
  }

  current-Keeps :
      (k : String) (f : Record → Result Record) {w : World}
      → Forward f
      → Keeps Moves (with_transfer_journal c env (on_record k (on_current f))) w
  current-Keeps k f {w} h =
      write-Keeps k (on_current f) (λ o' e. on_current-Follows f (lookup k w.journal) h e)

  read-Keeps : (k : String) {w : World} → Keeps Moves (read_record c env k) w
  read-Keeps k {w} = record {
    goes =
        subst (λ j. JournalFollows w.journal j) (sym (journal-read_record c env k w))
          (λ pid. Follows-refl (lookup pid w.journal));
  }

  call-Keeps :
      {A : Type 0} (call : Map Record → Call) (answer : Result A) {w : World}
      → Keeps Moves (calling call answer) w
  unfolding calling
  call-Keeps call answer {w} = record { goes = moves.stays w }

  module _ (event : Event) (binding : Binding) (d : String) where
    acknowledge-Keeps :
        (result : Provisioned) (r : Record) {w : World}
        → Keeps Moves (acknowledge c env event binding d result r) w
    unfolding acknowledge
    acknowledge-Keeps result r = bind-Keeps moves (lift-Keeps moves _) λ _ _.
        bind-Keeps moves (lift-Keeps moves _) λ _ _. bind-Keeps moves (call-Keeps _ _) λ _ _.
          bind-Keeps moves (current-Keeps _ _ (record_active-Forward env.now))
            λ _ _. pure-Keeps moves _

    start_recorded-Keeps :
        (status : Status) (r : Record) {w : World}
        → Keeps Moves (start_recorded c env event binding d status r) w
    unfolding start_recorded
    start_recorded-Keeps status r =
        choose-Keeps moves _ (λ _. pure-Keeps moves _)
          λ _. bind-Keeps moves (lift-Keeps moves _) λ _ _.
            bind-Keeps moves (lift-Keeps moves _) λ _ _.
              bind-Keeps moves (call-Keeps _ _) λ result _.
                bind-Keeps moves
                  (current-Keeps _ _ (record_provisioned-Forward c event result env.now))
                  λ _ _.
                    bind-Keeps moves (read-Keeps _) λ _ _.
                      bind-Keeps moves (lift-Keeps moves _) λ r' _. acknowledge-Keeps result r'

    -- The record is created only where the journal has none.
    ensure_authorized-Keeps :
        (status : Status) (found : Option Record) (w : World)
        → lookup event.ident.provider_pid w.journal ≡ found
        → Keeps Moves (ensure_authorized c env event binding d status found) w
    unfolding ensure_authorized
    ensure_authorized-Keeps status (some r) w e = pure-Keeps moves r
    ensure_authorized-Keeps status none w e = bind-Keeps moves (lift-Keeps moves _) λ _ _.
        bind-Keeps moves
          (write-Keeps event.ident.provider_pid (authorize event binding d env.now) (λ o' _.
            subst (λ o. Follows o o')
              (sym (ap (lookup event.ident.provider_pid) (journal-lift _ w) ∙ e)) tt))
          λ _ _. bind-Keeps moves (read-Keeps _) λ _ _. lift-Keeps moves _

    start-Keeps :
        (status : Status) {w : World} → Keeps Moves (start_transfer c env event binding d status) w
    unfolding start_transfer
    start-Keeps status {w} = bind-Keeps moves (read-Keeps _) λ found read.
        bind-Keeps moves (lift-Keeps moves _) λ _ _. bind-Keeps moves (lift-Keeps moves _) λ _ _.
          bind-Keeps moves
            (ensure_authorized-Keeps status found _ (
              ap (lookup event.ident.provider_pid) (
                journal-lift _ _
                ∙ journal-lift _ _
                ∙ journal-read_record c env event.ident.provider_pid w)
              ∙ read_record-found c env event.ident.provider_pid w read))
            λ r _. start_recorded-Keeps status r

    confirm_terminated-Keeps :
        (status : Status) {w : World}
        → Keeps Moves (confirm_terminated c env event binding d status) w
    unfolding confirm_terminated
    confirm_terminated-Keeps status =
        choose-Keeps moves _ (λ _. pure-Keeps moves _)
          λ _. bind-Keeps moves (call-Keeps _ _) λ _ _. bind-Keeps moves (lift-Keeps moves _) λ _ _.
            bind-Keeps moves (lift-Keeps moves _)
              λ _ _. bind-Keeps moves (lift-Keeps moves _) λ _ _. pure-Keeps moves _

    ensure_revoked-Keeps :
        (r : Record) {w : World} → Keeps Moves (ensure_revoked c env event binding d r) w
    unfolding ensure_revoked
    ensure_revoked-Keeps r =
        choose-Keeps moves _
          (λ _. bind-Keeps moves (lift-Keeps moves _) λ _ _.
            bind-Keeps moves (call-Keeps _ _) λ result _.
              bind-Keeps moves (lift-Keeps moves _)
                λ _ _. current-Keeps _ _ (record_revoked-Forward result env.now))
          (λ _. pure-Keeps moves _)

    end_transfer-Keeps :
        (status : Status) {w : World} → Keeps Moves (end_transfer c env event binding d status) w
    unfolding end_transfer
    end_transfer-Keeps status = bind-Keeps moves (lift-Keeps moves _) λ _ _.
        bind-Keeps moves
          (write-Keeps event.ident.provider_pid (record_terminating event binding d env.now)
            (λ o' e. record_terminating-Follows event binding d env.now _ e))
          λ _ _. bind-Keeps moves (read-Keeps _) λ _ _. bind-Keeps moves (lift-Keeps moves _) λ r _.
            bind-Keeps moves (ensure_revoked-Keeps r) λ _ _.
              bind-Keeps moves (call-Keeps _ _) λ _ _.
                bind-Keeps moves (current-Keeps _ _ (record_terminated-Forward env.now))
                  λ _ _. pure-Keeps moves _

    recover_terminated-Keeps :
        {w : World} → Keeps Moves (recover_terminated c env event binding d) w
    unfolding recover_terminated
    recover_terminated-Keeps =
        bind-Keeps moves (current-Keeps _ _ (record_recovered-Forward event env.now))
          λ _ _. pure-Keeps moves _

    terminate_recorded-Keeps :
        (status : Status) (phase : Option Phase) {w : World}
        → Keeps Moves (terminate_recorded c env event binding d status phase) w
    unfolding terminate_recorded
    terminate_recorded-Keeps status (some Phase.terminated) = confirm_terminated-Keeps status
    terminate_recorded-Keeps status (some revoked) =
        choose-Keeps moves _ (λ _. recover_terminated-Keeps) (λ _. end_transfer-Keeps status)
    terminate_recorded-Keeps status _ = end_transfer-Keeps status

    terminate-Keeps :
        (status : Status) {w : World}
        → Keeps Moves (terminate_transfer c env event binding d status) w
    unfolding terminate_transfer
    terminate-Keeps status =
        bind-Keeps moves (read-Keeps _)
          λ found _. bind-Keeps moves (lift-Keeps moves _) λ _ _. terminate_recorded-Keeps status _

  process_locked-Keeps : (event : Event) {w : World} → Keeps Moves (process_locked c env event) w
  unfolding process_locked
  process_locked-Keeps event = bind-Keeps moves (lift-Keeps moves _) λ _ _.
      bind-Keeps moves (lift-Keeps moves _) λ status _. bind-Keeps moves (read-Keeps _) λ _ _.
        bind-Keeps moves (lift-Keeps moves _) λ binding _.
          bind-Keeps moves (lift-Keeps moves _) λ _ _. bind-Keeps moves (lift-Keeps moves _) λ _ _.
            bind-Keeps moves (lift-Keeps moves _) λ _ _.
              choose-Keeps moves _ (λ _. start-Keeps event binding (c.digest binding) status)
                (λ _. terminate-Keeps event binding (c.digest binding) status)

  -- Whatever the outside answers and wherever the journal file fails, no record is lost, goes back
  -- to an earlier phase, or changes its identity, its provisioner or its binding.
  pub process_locked-Follows :
      (event : Event) (w : World)
      → JournalFollows w.journal (process_locked c env event w).1.journal
  process_locked-Follows event w = (process_locked-Keeps event).goes
