-- ===== src/Tests/Keys.antt =====
-- A first key pair that a crash left half installed.
use shuttle_gate.Base.{
  String, ◌≡◌, refl, true, false, none, some, [], ◌∷◌, inl, inr, string_eq, nat_eq, arith,
  matches_hex, ◌≤◌, ◌<◌, ◌+◌,
}
use shuttle_gate.Errors.{ok}
use shuttle_gate.Durable.{done, Ends}
use shuttle_gate.SshKey.{StoredFile, Slots, Holds}
use shuttle_gate.SshKey.Install.{install}
use shuttle_gate.SshKey.Install.Resume.{IsResumable, install_resumes}
use shuttle_gate.SshKey.Journal.{
  Journal, journal_file, IsJournal, read_transaction, read_transaction-journal_file,
}
use shuttle_gate.State.Operation.{check_operation}
use shuttle_gate.SshKey.Receipt.{
  lookup_receipt, receipt_of, operation_completed, operation_completed-receipt_of,
}
use shuttle_gate.SshKey.Transaction.{KeyDisk, recover}
use shuttle_gate.SshKey.Transaction.Steps.{IsInterrupted}
use shuttle_gate.SshKey.Transaction.Recovery.{IsComplete}
use shuttle_gate.SshKey.Transaction.Completes.{after_crashes, recover_completes}

abbrev digest_a : String
digest_a = "aaaaaaaaaaaaaaaaaaaaaaaaaaaaaaaaaaaaaaaaaaaaaaaaaaaaaaaaaaaaaaaa"

abbrev digest_b : String
digest_b = "bbbbbbbbbbbbbbbbbbbbbbbbbbbbbbbbbbbbbbbbbbbbbbbbbbbbbbbbbbbbbbbb"

-- A hash that is its text.
abbrev hash : String → String
hash s = s

abbrev key_file : String → StoredFile
key_file content = record {
  regular = true;
  directory = false;
  size = 64;
  content = content;
  mode = 0o600;
}

abbrev staged : String → Slots
staged content = record { destination = none; stage = some (key_file content); backup = none }

abbrev first_journal : Journal
first_journal = record {
  transaction = "0123456789abcdef0123456789abcdef";
  operation_id = "0123456789abcdef0123456789abcdef";
  operation_kind = "ssh-key.generate";
  private_old = none;
  public_old = none;
  private_new = digest_a;
  public_new = digest_b;
}

first_journal-IsJournal : IsJournal first_journal
unfolding matches_hex check_operation string_eq nat_eq
first_journal-IsJournal = record {
  transaction = refl;
  operation = refl;
  private_old = refl;
  public_old = refl;
  private_new = refl;
  public_new = refl;
}

abbrev half_installed : KeyDisk
half_installed = record {
  public = staged digest_b;
  identity = staged digest_a;
  generated = none;
  journal = some (journal_file 900 first_journal);
  orphans = key_file digest_b ∷ [];
  receipts = [];
}

half_installed-IsInterrupted : IsInterrupted hash "secrets/id" 500 first_journal 1 half_installed
unfolding lookup_receipt
half_installed-IsInterrupted = record {
  journalled = read_transaction-journal_file first_journal 900 first_journal-IsJournal refl;
  public = inr ((refl, refl), refl);
  identity = inr ((refl, refl), refl);
  recorded = inl refl;
  tidy = (tt, (refl, tt), omega arith);
}

-- Recovery is stopped after no write and after five, and then let through.
recover_completes_example :
    ((recover hash
        (some "secrets/id")
        500
        (after_crashes hash (some "secrets/id") 500 (0 ∷ 5 ∷ []) half_installed)
        20).outcome
      ≡ done tt)
    × IsComplete hash "secrets/id" 500 first_journal 1
        (recover hash
          (some "secrets/id")
          500
          (after_crashes hash (some "secrets/id") 500 (0 ∷ 5 ∷ []) half_installed)
          20).state
recover_completes_example =
    recover_completes hash "secrets/id" 500 first_journal 1 refl (0 ∷ 5 ∷ []) half_installed 20
      half_installed-IsInterrupted (omega arith)

install_resumes_example :
    Ends
      (λ _ s' b'. Holds hash digest_b s'.destination × (1 ≤ b' + 2))
      (λ s'. IsResumable hash none digest_b s' × (1 < 2))
      (install hash none (some digest_b) "SSH public key" (staged digest_b) 1)
install_resumes_example =
    install_resumes hash none digest_b "SSH public key" (staged digest_b) 1
      (inr ((refl, refl), refl))

read_transaction-journal_file_example :
    read_transaction (some (journal_file 900 first_journal)) ≡ ok (some first_journal)
read_transaction-journal_file_example =
    read_transaction-journal_file first_journal 900 first_journal-IsJournal refl

operation_completed-receipt_of_example :
    operation_completed hash
      (some "secrets/id")
      ((first_journal.operation_id, receipt_of "secrets/id" 500 first_journal) ∷ [])
      (some (key_file digest_a))
      (some (key_file digest_b))
      first_journal.operation_id
      first_journal.operation_kind
    ≡ ok true
unfolding lookup_receipt string_eq
operation_completed-receipt_of_example =
    operation_completed-receipt_of hash "secrets/id"
      ((first_journal.operation_id, receipt_of "secrets/id" 500 first_journal) ∷ [])
      (some (key_file digest_a)) (some (key_file digest_b)) 500 first_journal refl refl (refl, refl)
      (refl, refl)
