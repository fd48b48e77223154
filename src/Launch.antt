-- ===== src/Launch.antt =====
-- launch.py: the manifest that ties a launch to its inputs. Messages leave out paths and hints.
pub mod Matches
pub mod Accepted
pub mod Unchanged
use shuttle_gate.Base.{
  String, ◌<>◌, ℕ, Bool, true, false, not, ◌&&◌, ◌||◌, Option, none, some, List, [], ◌∷◌, map, ltb,
  ◌==◌, ◌!=◌, string_eq, nat_eq, list_eq, option_eq, if◌then◌else◌, matches_hex, any,
}
use shuttle_gate.Errors.{Error, state_error, Result, ok, err, ◌>>=◌, ◌>>◌, raise_if}
use shuttle_gate.FilePath.{FilePath, path_text}
use shuttle_gate.Net.{AddressText, Address}
use shuttle_gate.Config.{ProjectConfig}
use shuttle_gate.Files.{
  InstancePaths, is_open, require_private_file, require_ssh_files, validate_ssh_files,
  mounted_secret_path,
}
use shuttle_gate.SshKey.{StoredFile}
use shuttle_gate.State.{Generation, StateDisk, locked_state_view}
use shuttle_gate.State.Operation.{Field, missing, other, text}
use shuttle_gate.KeyState.{ServerDirectory, Peers}
use shuttle_gate.KeyState.Phone.{require_selected_phone_configs}

-- The manifest's JSON object, by its keys.
pub record Manifest : Type 0 where
  pub schema_version : Option ℕ
  pub launch_id : Field
  pub instance_id : Field
  pub unit : Field
  pub project : Field
  pub config_digest : Field
  pub state_generation : Field
  pub ssh_identity : Field
  pub ssh_identity_digest : Field
  pub ssh_known_hosts : Field
  pub ssh_known_hosts_digest : Field
  pub application_digest : Field
  pub bind_addresses : Option (List String)
  pub listen_port : Option ℕ

-- `parsed` is `none` where the file cannot be read as JSON. JSON that is no object has no keys.
pub record LaunchFile : Type 0 where
  pub regular : Bool
  pub size : ℕ
  pub parsed : Option Manifest

-- The files that a launch depends on.
pub record LaunchInputs : Type 0 where
  pub configuration : Option StoredFile
  pub application : Option StoredFile
  pub files : FilePath → Option StoredFile

abbrev pub launch_schema_version : ℕ
launch_schema_version = 3

unfoldable pub is_instance : String → Bool
is_instance s = matches_hex "" 20 "" s

unfoldable pub is_launch_id : String → Bool
is_launch_id s = matches_hex "" 32 "" s

unfoldable pub is_unit : String → Bool
is_unit s = matches_hex "shuttle-gate-" 20 ".service" s

abbrev field_is : (String → Bool) → Field → Bool
field_is test (text s) = test s
field_is test field = false

-- `value.get(key) == item` for a text, or for `None`.
abbrev pub equals : Field → Option String → Bool
equals (text s) (some t) = s == t
equals missing none = true
equals field item = false

-- The items that depend on the inputs, by their digests.
abbrev pub manifest_of :
    AddressText → ProjectConfig → Option String → String → String → String → String → Manifest
manifest_of addresses config generation config_digest identity_digest known_hosts_digest
      application_digest =
    record {
      schema_version = none;
      launch_id = missing;
      instance_id = missing;
      unit = missing;
      project = text config.project;
      config_digest = text config_digest;
      state_generation = elim generation [ none ↦ missing | some name ↦ text name ];
      ssh_identity = text (path_text config.ssh.identity_file);
      ssh_identity_digest = text identity_digest;
      ssh_known_hosts = text (path_text config.ssh.known_hosts_file);
      ssh_known_hosts_digest = text known_hosts_digest;
      application_digest = text application_digest;
      bind_addresses = some (map addresses.show_address config.wireguard.bind_addresses);
      listen_port = some config.wireguard.listen_port;
    }

module _ (sha256 : String → String) where
  unfoldable pub file_digest : Option StoredFile → String → Bool → Result String
  unfolding is_open
  file_digest none label private = err (state_error ("cannot open " <> label))
  file_digest (some f) label private = do
    raise_if (not f.regular || f.size == 0 || ltb 8388608 f.size)
        (state_error (label <> " must be a bounded regular file"))
    raise_if (private && is_open f) (state_error (label <> " permissions are too open"))
    ok (sha256 f.content)

  -- What `prepare_launch` and `validate_launch_manifest` compute alike.
  unfoldable pub current_manifest :
      AddressText
      → ProjectConfig
      → Option String
      → LaunchInputs
      → Option StoredFile
      → Option StoredFile
      → Result Manifest
  unfolding file_digest path_text
  current_manifest addresses config generation inputs identity known_hosts = do
    config_digest ← file_digest inputs.configuration "configuration" true
    identity_digest ← file_digest identity "SSH identity" true
    known_hosts_digest ← file_digest known_hosts "SSH known-hosts" false
    application_digest ← file_digest inputs.application "application bundle" true
    ok (
        manifest_of addresses config generation config_digest identity_digest known_hosts_digest
          application_digest)

abbrev pub launched : String → String → String → Manifest → Manifest
launched launch_id instance_id unit_name value = record value {
  schema_version = some launch_schema_version;
  launch_id = text launch_id;
  instance_id = text instance_id;
  unit = text unit_name;
}

-- `launch_path.stat` and `json.loads` in `read_launch_manifest`
unfoldable pub read_launch_manifest : Option LaunchFile → Result Manifest
unfolding option_eq nat_eq
read_launch_manifest none = err (state_error "launch manifest is unavailable")
read_launch_manifest (some f) = do
  raise_if (not f.regular || f.size == 0 || ltb 65536 f.size)
      (state_error "launch manifest is not a bounded regular file")
  value ← elim f.parsed [
    | none ↦ err (state_error "launch manifest is unavailable")
    | some v ↦ ok v
  ]
  raise_if (value.schema_version != some launch_schema_version)
      (state_error "launch manifest has an unsupported format")
  ok value

abbrev pub same_field : Field → Field → Bool
same_field value (text s) = equals value (some s)
same_field value missing = equals value none
same_field value other = false

-- Every expected item is the manifest's.
unfoldable pub matches_manifest : Manifest → Manifest → Bool
matches_manifest value expected =
    same_field value.project expected.project
    && same_field value.config_digest expected.config_digest
    && same_field value.state_generation expected.state_generation
    && same_field value.ssh_identity expected.ssh_identity
    && same_field value.ssh_identity_digest expected.ssh_identity_digest
    && same_field value.ssh_known_hosts expected.ssh_known_hosts
    && same_field value.ssh_known_hosts_digest expected.ssh_known_hosts_digest
    && same_field value.application_digest expected.application_digest
    && (value.bind_addresses == expected.bind_addresses)
    && (value.listen_port == expected.listen_port)

module _ (addresses : AddressText) (sha256 json_text : String → String)
    (decoded_length : String → Option ℕ) (resolve : FilePath → FilePath) (paths : InstancePaths)
    (parent : FilePath) where
  unfoldable pub plan_on :
      ProjectConfig
      → LaunchInputs
      → String
      → String
      → String
      → StoredFile × StoredFile
      → Option (String × Generation ServerDirectory Peers)
      → Result Manifest
  unfolding require_selected_phone_configs current_manifest
  plan_on config inputs launch_id instance_id unit_name ssh none =
      err (state_error "persistent keys are not initialized")
  plan_on config inputs launch_id instance_id unit_name ssh (some (name, g)) = do
    require_selected_phone_configs addresses sha256 json_text decoded_length config g.tree
        config.wireguard.peers
    value ← current_manifest sha256 addresses config (some name) inputs (some ssh.0) (some ssh.1)
    ok (launched launch_id instance_id unit_name value)

  -- `prepare_launch` after the recovery of the SSH key, up to the write of the manifest. `launch_id`
  -- is the drawn identifier.
  unfoldable pub plan_launch :
      ProjectConfig
      → LaunchInputs
      → StateDisk ServerDirectory Peers
      → String
      → String
      → String
      → Result Manifest
  unfolding locked_state_view validate_ssh_files plan_on require_private_file
  plan_launch config inputs state launch_id instance_id unit_name = do
    raise_if (not (is_instance instance_id)) (state_error "launch instance identifier is invalid")
    raise_if (not (is_unit unit_name)) (state_error "launch systemd unit name is invalid")
    bundle ← require_private_file inputs.application "application bundle"
    active ← locked_state_view true state
    ssh ← validate_ssh_files resolve inputs.files paths parent config
    plan_on config inputs launch_id instance_id unit_name ssh active

  unfoldable pub validate_launch_manifest :
      ProjectConfig → Option String → LaunchInputs → Option LaunchFile → Result Manifest
  unfolding read_launch_manifest mounted_secret_path require_ssh_files require_private_file
      current_manifest matches_manifest
  validate_launch_manifest config generation inputs file = do
    value ← read_launch_manifest file
    raise_if (not (field_is is_launch_id value.launch_id))
        (state_error "launch manifest has an invalid launch identifier")
    raise_if (not (field_is is_instance value.instance_id))
        (state_error "launch manifest has an invalid instance identifier")
    raise_if (not (field_is is_unit value.unit))
        (state_error "launch manifest has an invalid systemd unit")
    identity ← mounted_secret_path paths config.ssh.identity_file
    known_hosts ← mounted_secret_path paths config.ssh.known_hosts_file
    ssh ← require_ssh_files (inputs.files identity) (inputs.files known_hosts)
    bundle ← require_private_file inputs.application "application bundle"
    expected ← current_manifest sha256 addresses config generation inputs (some ssh.0) (some ssh.1)
    raise_if (not (matches_manifest value expected))
        (state_error "configuration or launch inputs changed after prepare")
    ok value
