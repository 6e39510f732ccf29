-- ===== src/Transfer/Keeps.antt =====
-- Rules for a relation between the worlds before and after an action of the transfer worker.
use implement_data_space_pro.Prelude.{
  suc, String, ◌≡◌, refl, Bool, true, false, Option, arith, if◌then◌else◌, Bool-cases, Option-cases,
  inl, inr,
}
use implement_data_space_pro.Prelude.Map.{Map, lookup}
use implement_data_space_pro.Transfer.Data.{transfer_journal_invalid, Result, ok, err, Record}
use implement_data_space_pro.Transfer.Journal.{valid_journal}
use implement_data_space_pro.Transfer.Exec.{
  after_rename, choose, World, Env, Config, Exec, continue, ◌>>=◌, pure, lift, commit, read_record,
  with_transfer_journal,
}

-- From the world `w` the action goes to a related one, whether it returns or throws.
pub record Keeps {A : Type 0} (R : World → World → Type 0) (m : Exec A) (w : World) : Type 0 where
  pub goes : R w (m w).1

pub record IsPreorder (R : World → World → Type 0) : Type 0 where
  pub stays : (w : World) → R w w
  pub chains : (u v w : World) → R u v → R v w → R u w

module _ {R : World → World → Type 0} (p : IsPreorder R) where
  continue-Keeps :
      {A B : Type 0} (w w' : World) (r : Result A) (f : A → Exec B)
      → R w w'
      → ((a : A) → r ≡ ok a → Keeps R (f a) w')
      → R w (continue r f w').1
  continue-Keeps w w' (ok a) f h k = p.chains w w' (f a w').1 h (k a refl).goes
  continue-Keeps w w' (err c) f h k = h

  pub bind-Keeps :
      {A B : Type 0} {m : Exec A} {f : A → Exec B} {w : World}
      → Keeps R m w
      → ((a : A) → (m w).0 ≡ ok a → Keeps R (f a) (m w).1)
      → Keeps R (m >>= f) w
  unfolding ◌>>=◌
  bind-Keeps {m} {f} {w} h k = record { goes = continue-Keeps w (m w).1 (m w).0 f h.goes k }

  pub pure-Keeps : {A : Type 0} (a : A) {w : World} → Keeps R (pure a) w
  unfolding pure
  pure-Keeps a {w} = record { goes = p.stays w }

  pub lift-Keeps : {A : Type 0} (r : Result A) {w : World} → Keeps R (lift r) w
  unfolding lift
  lift-Keeps r {w} = record { goes = p.stays w }

  pub choose-Keeps :
      {A : Type 0} (b : Bool) {m n : Exec A} {w : World}
      → (b ≡ true → Keeps R m w)
      → (b ≡ false → Keeps R n w)
      → Keeps R (choose b m n) w
  unfolding choose
  choose-Keeps true h k = record { goes = (h refl).goes }
  choose-Keeps false h k = record { goes = (k refl).goes }

pub journal-lift : {A : Type 0} (r : Result A) (w : World) → (lift r w).1.journal ≡ w.journal
unfolding lift
journal-lift r w = refl

module _ (c : Config) (env : Env) where
  -- A read changes no journal and makes no call.
  pub journal-read_record :
      (pid : String) (w : World) → (read_record c env pid w).1.journal ≡ w.journal
  unfolding read_record
  journal-read_record pid w = ground arith

  pub calls-read_record : (pid : String) (w : World) → (read_record c env pid w).1.calls ≡ w.calls
  unfolding read_record
  calls-read_record pid w = ground arith

  pub read_record-found :
      (pid : String) (w : World) {found : Option Record}
      → (read_record c env pid w).0 ≡ ok found
      → lookup pid w.journal ≡ found
  unfolding read_record
  read_record-found pid w h = ground arith

  pub calls-with_transfer_journal :
      (f : Map Record → Result (Map Record)) (w : World)
      → (with_transfer_journal c env f w).1.calls ≡ w.calls
  unfolding with_transfer_journal
  calls-with_transfer_journal f w = ground arith

  commit-cases :
      (P : Map Record → Type 0) (w : World) (r : Result (Map Record))
      → P w.journal
      → ((j : Map Record) → r ≡ ok j → P j)
      → P (commit c env r w).1.journal
  commit-cases P w (err e) h k = h
  commit-cases P w (ok j) h k = choose (valid_journal c.digest j)
    where
      choose :
          (b : Bool)
          → P (
              let (_, w') : Result (Unit {0}) × World =
                if b
                then (after_rename c env (env.late_fault w.accesses), record w { journal = j })
                else (err transfer_journal_invalid, w) in
              w'.journal)
      choose true = k j refl
      choose false = h

  -- A transaction leaves the journal as it was, or as the operation made it.
  pub with_transfer_journal-cases :
      (f : Map Record → Result (Map Record)) (w : World) (P : Map Record → Type 0)
      → P w.journal
      → ((j : Map Record) → f w.journal ≡ ok j → P j)
      → P (with_transfer_journal c env f w).1.journal
  unfolding with_transfer_journal
  with_transfer_journal-cases f w P h k = elim (Option-cases (env.fault w.accesses)) [
    | inr (e, fails) ↦ rw (fails, with_transfer_journal) h
    | inl works ↦ elim (Bool-cases (valid_journal c.digest w.journal)) [
      | inl good ↦
          rw (works, with_transfer_journal)
            (rw good (commit-cases P (record w { accesses = suc w.accesses }) (f w.journal) h k))
      | inr bad ↦ rw (works, with_transfer_journal) (rw bad h)
    ]
  ]

  -- A transaction that returns has replaced the journal by what the operation made of it.
  pub with_transfer_journal-ok :
      (f : Map Record → Result (Map Record)) (w : World) {u : Unit {0}}
      → (with_transfer_journal c env f w).0 ≡ ok u
      → f w.journal ≡ ok (with_transfer_journal c env f w).1.journal
  unfolding with_transfer_journal
  with_transfer_journal-ok f w h = ground arith
