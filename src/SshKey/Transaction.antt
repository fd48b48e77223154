-- ===== src/SshKey/Transaction.antt =====
-- `_finish_ssh_key_transaction`, `_record_ssh_operation`, `_remove_ssh_transaction`,
-- `_clean_orphaned_ssh_transaction_files` and `recover_ssh_key_transaction` of keys.py. A stage or
-- backup path holds a file or nothing: `unlink` of a directory, which raises, is not modelled.
pub mod Steps
pub mod Recovery
pub mod Completes
use shuttle_gate.Base.{
  String, ◌<>◌, ℕ, ◌≡◌, refl, Bool, true, false, not, ◌&&◌, ◌||◌, Option, none, some, List, [], ◌∷◌,
  if◌then◌else◌,
}
use shuttle_gate.Errors.{Error, state_error, Result, ok, err}
use shuttle_gate.Durable.{
  Run, Durable, Outcome, done, raised, crashed, pure, raise, reads, write, continue, zoom, ◌>>=◌,
  ◌>>◌,
}
use shuttle_gate.SshKey.{StoredFile, Slots}
use shuttle_gate.SshKey.Install.{install}
use shuttle_gate.SshKey.Journal.{JournalFile, Journal, read_transaction}
use shuttle_gate.SshKey.Receipt.{
  Receipts, ReceiptFile, lookup_receipt, pair_matches, operation_completed, receipt_of,
}

-- The directory of the key pair, and the receipts. The stages and backups are those of the
-- journal's transaction, or of the one that is being prepared; `generated` is
-- `<private_stage>.pub`; `orphans` are what other transactions and journal writes left.
pub record KeyDisk : Type 0 where
  pub public : Slots
  pub identity : Slots
  pub generated : Option StoredFile
  pub journal : Option JournalFile
  pub orphans : List StoredFile
  pub receipts : Receipts

abbrev pub put_public : Slots → KeyDisk → KeyDisk
put_public s d = record d { public = s }

abbrev pub put_identity : Slots → KeyDisk → KeyDisk
put_identity s d = record d { identity = s }

abbrev pub chmod : ℕ → Option StoredFile → Option StoredFile
chmod mode none = none
chmod mode (some f) = some (record f { mode = mode })

abbrev pub chmod_destination : ℕ → Slots → Slots
chmod_destination mode s = record s { destination = chmod mode s.destination }

-- The five unlinks, in their order.
abbrev pub drop_private_stage : KeyDisk → KeyDisk
drop_private_stage d = record d { identity = record d.identity { stage = none } }

abbrev pub drop_public_stage : KeyDisk → KeyDisk
drop_public_stage d = record d { public = record d.public { stage = none } }

abbrev pub drop_private_backup : KeyDisk → KeyDisk
drop_private_backup d = record d { identity = record d.identity { backup = none } }

abbrev pub drop_public_backup : KeyDisk → KeyDisk
drop_public_backup d = record d { public = record d.public { backup = none } }

abbrev pub drop_generated : KeyDisk → KeyDisk
drop_generated d = record d { generated = none }

abbrev pub drop_journal : KeyDisk → KeyDisk
drop_journal d = record d { journal = none }

unfoldable pub remove : Durable KeyDisk (Unit {0})
remove = do
  write drop_private_stage
  write drop_public_stage
  write drop_private_backup
  write drop_public_backup
  write drop_journal

abbrev pub unexpected_directory : Error
unexpected_directory = state_error "unexpected SSH transaction directory"

-- One child of the directory whose name is that of a transaction file.
abbrev pub clean_found : (KeyDisk → KeyDisk) → Option StoredFile → Durable KeyDisk (Unit {0})
clean_found drop none = pure tt
clean_found drop (some f) = if f.directory then raise unexpected_directory else write drop

abbrev pub clean_one :
    (KeyDisk → Option StoredFile) → (KeyDisk → KeyDisk) → Durable KeyDisk (Unit {0})
clean_one get drop d = clean_found drop (get d) d

abbrev pub clean_orphans : List StoredFile → Durable KeyDisk (Unit {0})
clean_orphans [] = pure tt
clean_orphans (f ∷ rest) =
    if f.directory
    then raise unexpected_directory
    else write (λ d. record d { orphans = rest }) >> clean_orphans rest

-- Every transaction file of the directory goes. Its order is the file system's: here the prepared
-- files come first.
unfoldable pub clean : Durable KeyDisk (Unit {0})
clean = do
  clean_one (λ d. d.identity.stage) drop_private_stage
  clean_one (λ d. d.generated) drop_generated
  clean_one (λ d. d.public.stage) drop_public_stage
  clean_one (λ d. d.identity.backup) drop_private_backup
  clean_one (λ d. d.public.backup) drop_public_backup
  λ d. clean_orphans d.orphans d

module _ (sha256 : String → String) where
  unfoldable pub finish : Journal → Durable KeyDisk (Unit {0})
  finish j = do
    zoom (λ d. d.public) put_public
        (install sha256 j.public_old (some j.public_new) "SSH public key")
    zoom (λ d. d.identity) put_identity
        (install sha256 j.private_old (some j.private_new) "SSH private key")
    verified ← reads λ d.
        pair_matches sha256 none d.identity.destination d.public.destination (some j.private_new)
          (some j.public_new) "new"
    elim verified [
      | false ↦ raise (state_error "SSH key transaction could not be verified")
      | true ↦
          write (λ d. record d { identity = chmod_destination 0o600 d.identity })
          >> write (λ d. record d { public = chmod_destination 0o644 d.public })
    ]

-- `identity` is the identity's path below the instance, `size` the length of the receipt's text.
module _ (sha256 : String → String) (identity : Option String) (size : ℕ) where
  unfoldable pub record_operation : Journal → Durable KeyDisk (Unit {0})
  record_operation j = do
    completed ← reads λ d.
        operation_completed sha256 identity d.receipts d.identity.destination d.public.destination
          j.operation_id j.operation_kind
    elim completed [ true ↦ pure tt | false ↦ write_receipt identity ]
    where
      write_receipt : Option String → Durable KeyDisk (Unit {0})
      write_receipt none = raise (state_error "SSH identity is outside the instance")
      write_receipt (some path) =
          write λ d. record d { receipts = (j.operation_id, receipt_of path size j) ∷ d.receipts }

  -- What recovery does with a journal.
  unfoldable pub resume : Option Journal → Durable KeyDisk (Unit {0})
  resume none = pure tt
  resume (some j) = do finish sha256 j; record_operation j; remove

  unfoldable pub recover : Durable KeyDisk (Unit {0})
  unfolding resume
  recover = do transaction ← reads (λ d. read_transaction d.journal); resume transaction; clean
