-- ===== src/Files.antt =====
-- files.py: the paths of an instance, where its secrets are mounted, and what is required of files.
use shuttle_gate.Base.{
  String, ◌<>◌, ◌%◌, ◌!=◌, Option, none, some, list_eq, Bool, false, true, if◌then◌else◌, not, ◌&&◌,
  List, [], ◌∷◌, ◌++◌, contains, ◌==◌, string_eq, nat_eq, is_empty,
}
use shuttle_gate.Errors.{configuration_error, Result, ok, err, ◌>>=◌, ◌>>◌, raise_if}
use shuttle_gate.FilePath.{FilePath}
use shuttle_gate.Config.{ProjectConfig}
use shuttle_gate.SshKey.{StoredFile}

pub record InstancePaths : Type 0 where
  pub root : FilePath
  pub config : FilePath
  pub state : FilePath
  pub secrets : FilePath

abbrev is_confined : List String → Bool
is_confined [] = false
is_confined (first ∷ rest) =
    not (is_empty rest) && (first == "secrets") && not (contains (first ∷ rest) "..")

abbrev tail_of : List String → List String
tail_of [] = []
tail_of (first ∷ rest) = rest

unfoldable pub secret_relative_path : FilePath → Result FilePath
secret_relative_path configured = do
  raise_if configured.absolute
      (configuration_error "SSH files must use instance-relative secrets/ paths")
  raise_if (not (is_confined configured.names))
      (configuration_error "SSH files must be located below the instance secrets/ directory")
  ok (record { absolute = false; names = tail_of configured.names })

unfoldable pub mounted_secret_path : InstancePaths → FilePath → Result FilePath
unfolding secret_relative_path
mounted_secret_path paths configured = do
  relative ← secret_relative_path configured
  ok (record { absolute = paths.secrets.absolute; names = paths.secrets.names ++ relative.names })

-- `info.st_mode & 0o077` is not zero.
unfoldable pub is_open : StoredFile → Bool
unfolding nat_eq
is_open f = f.mode % 64 != 0

-- What is read is the file that was tested.
unfoldable pub require_regular_file : Option StoredFile → String → Result StoredFile
require_regular_file none label = err (configuration_error (label <> " does not exist"))
require_regular_file (some f) label = do
  raise_if (not f.regular) (configuration_error (label <> " must be a regular non-symlink file"))
  ok f

unfoldable pub require_private_file : Option StoredFile → String → Result StoredFile
unfolding is_open require_regular_file
require_private_file file label = do
  f ← require_regular_file file label
  raise_if (is_open f)
      (configuration_error (label <> " permissions must not allow group or other access"))
  ok f

-- `resolve` is pathlib's, with the links of the file system.
unfoldable pub resolve_config_path : (FilePath → FilePath) → FilePath → FilePath → FilePath
resolve_config_path resolve parent configured =
    if configured.absolute
    then resolve configured
    else resolve (record parent { names = parent.names ++ configured.names })

abbrev is_same : FilePath → FilePath → Bool
is_same p q = same_root p.absolute q.absolute && (p.names == q.names)
  where
    same_root : Bool → Bool → Bool
    same_root true true = true
    same_root false false = true
    same_root a b = false

-- The configured files resolve to these paths.
unfoldable pub is_below_secrets_directory :
    (FilePath → FilePath) → FilePath → ProjectConfig → FilePath → FilePath → Bool
unfolding resolve_config_path list_eq string_eq
is_below_secrets_directory resolve parent config identity known_hosts =
    is_same (resolve_config_path resolve parent config.ssh.identity_file) identity
    && is_same (resolve_config_path resolve parent config.ssh.known_hosts_file) known_hosts

unfoldable pub require_ssh_files :
    Option StoredFile → Option StoredFile → Result (StoredFile × StoredFile)
unfolding require_private_file require_regular_file
require_ssh_files identity known_hosts = do
  private ← require_private_file identity "SSH identity"
  regular ← require_regular_file known_hosts "SSH known-hosts file"
  ok (private, regular)

-- `files` has what is at a path, and `parent` is the configuration's directory.
unfoldable pub validate_ssh_files :
    (FilePath → FilePath)
    → (FilePath → Option StoredFile)
    → InstancePaths
    → FilePath
    → ProjectConfig
    → Result (StoredFile × StoredFile)
unfolding mounted_secret_path is_below_secrets_directory require_ssh_files
validate_ssh_files resolve files paths parent config = do
  identity ← mounted_secret_path paths config.ssh.identity_file
  known_hosts ← mounted_secret_path paths config.ssh.known_hosts_file
  raise_if (not (is_below_secrets_directory resolve parent config identity known_hosts))
      (configuration_error "SSH files must resolve below the instance secrets directory")
  require_ssh_files (files identity) (files known_hosts)
