-- ===== src/SshKey/Install.antt =====
-- `_install_transaction_file` of keys.py
pub mod Resume
use shuttle_gate.Base.{String, ◌<>◌, ℕ, Bool, true, false, Option, none, some}
use shuttle_gate.Errors.{Error, state_error, Result, ok, err}
use shuttle_gate.Durable.{
  Run, Durable, Outcome, done, raised, crashed, pure, raise, reads, write, continue, ◌>>=◌, ◌>>◌,
}
use shuttle_gate.SshKey.{StoredFile, Slots, matches_digest}

abbrev pub exists_file : Option StoredFile → Bool
exists_file none = false
exists_file (some f) = true

-- _replace_and_sync(destination, backup)
abbrev pub keep_old : Slots → Slots
keep_old s = record s { destination = none; backup = s.destination }

-- _replace_and_sync(stage, destination)
abbrev pub publish_new : Slots → Slots
publish_new s = record s { destination = s.stage; stage = none }

module _ (sha256 : String → String) where
  cannot_resume : String → Error
  cannot_resume what = state_error ("cannot resume SSH key transaction: " <> what)

  -- The branches on the old digest and the backup, and the renames.
  unfoldable pub replace_old : Option String → Bool → String → Durable Slots (Unit {0})
  unfolding cannot_resume
  replace_old none backed_up label = do
    there ← reads (λ s. ok (exists_file s.destination))
    elim there [ true ↦ raise (cannot_resume ("unexpected " <> label)) | false ↦ write publish_new ]
  replace_old (some old) false label = do
    unchanged ← reads (λ s. matches_digest sha256 s.destination (some old) ("old " <> label))
    elim unchanged [
      | true ↦ write keep_old >> write publish_new
      | false ↦ raise (cannot_resume ("old " <> (label <> " changed")))
    ]
  replace_old (some old) true label = do
    unchanged ← reads (λ s. matches_digest sha256 s.backup (some old) ("backed-up " <> label))
    elim unchanged [
      | true ↦ write publish_new
      | false ↦ raise (cannot_resume (label <> " backup changed"))
    ]

  unfoldable pub install : Option String → Option String → String → Durable Slots (Unit {0})
  unfolding replace_old
  install old new label = do
    installed ← reads (λ s. matches_digest sha256 s.destination new ("new " <> label))
    elim installed [
      | true ↦ pure tt
      | false ↦ do
        staged ← reads (λ s. matches_digest sha256 s.stage new ("staged " <> label))
        elim staged [
          | false ↦ raise (cannot_resume ("staged " <> (label <> " is unavailable")))
          | true ↦ do
            backed_up ← reads (λ s. ok (exists_file s.backup))
            replace_old old backed_up label
        ]
    ]
