-- ===== src/SshKey/Setup.antt =====
-- `ssh_setup_instructions` of keys.py, after the recovery of the key.
use shuttle_gate.Base.{String, ◌<>◌, not, Option, none, some, [], ◌∷◌, show, ltb, leb}
use shuttle_gate.Errors.{state_error, shell_join, Result, ok, err, ◌>>◌, raise_if}
use shuttle_gate.FilePath.{FilePath, path_text}
use shuttle_gate.Config.{ProjectConfig}
use shuttle_gate.SshKey.{StoredFile}

-- `_require_bounded_regular`
unfoldable pub require_bounded_regular : Option StoredFile → String → Result (Unit {0})
require_bounded_regular none label = err (state_error (label <> " is missing"))
require_bounded_regular (some f) label = do
  raise_if (not f.regular) (state_error (label <> " must be a regular non-symlink file"))
  raise_if (not (ltb 0 f.size)) (state_error (label <> " has an invalid size"))
  raise_if (not (leb f.size 65536)) (state_error (label <> " has an invalid size"))

abbrev keyscan_script : String
keyscan_script = "exec ssh-keyscan -p \"$1\" -- \"$2\" > \"$3\""

abbrev or_missing : Result (Unit {0}) → Result (Unit {0})
or_missing (ok u) = ok u
or_missing (err e) = err (state_error "SSH public key is missing or invalid")

abbrev copy_command : ProjectConfig → FilePath → String
copy_command config public = shell_join (
    "ssh-copy-id"
    ∷ "-i"
    ∷ path_text public
    ∷ "-p"
    ∷ show config.ssh.port
    ∷ "--"
    ∷ (config.ssh.user <> ("@" <> config.ssh.host))
    ∷ [])

abbrev scan_command : ProjectConfig → FilePath → String
scan_command config known_hosts = shell_join (
    "sh"
    ∷ "-c"
    ∷ keyscan_script
    ∷ "shuttle-gate-keyscan"
    ∷ show config.ssh.port
    ∷ config.ssh.host
    ∷ path_text known_hosts
    ∷ [])

-- `public` is the public key's path, `file` what is there, and `known_hosts` a resolved path.
unfoldable pub ssh_setup_instructions :
    ProjectConfig → FilePath → Option StoredFile → FilePath → Result String
unfolding require_bounded_regular shell_join path_text show
ssh_setup_instructions config public file known_hosts = do
  or_missing (require_bounded_regular file "SSH public key")
  ok (
      "Run this command yourself to authorize the dedicated key:\n"
      <> ("  "
          <> (copy_command config public
              <> ("\n\nThen collect the host key (this does not authenticate it):\n"
                  <> ("  "
                      <> (scan_command config known_hosts
                          <> "\nVerify the resulting fingerprint through a separate trusted channel before using it.\nThe toolkit never runs either command and never edits the remote server."))))))
