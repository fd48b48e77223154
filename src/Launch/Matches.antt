-- ===== src/Launch/Matches.antt =====
-- `matches_manifest` of launch.py on a manifest of the present inputs.
use shuttle_gate.Base.{
  String, ◌≡◌, refl, true, false, not, Option, some, string_eq, nat_eq, list_eq, option_eq, eq_self,
  map, subst,
}
use shuttle_gate.Errors.{ok, >>=-eq-ok, raise_if-eq-ok}
use shuttle_gate.FilePath.{FilePath, path_text}
use shuttle_gate.Net.{AddressText}
use shuttle_gate.Config.{ProjectConfig}
use shuttle_gate.Files.{
  InstancePaths, require_ssh_files, is_below_secrets_directory, validate_ssh_files,
  mounted_secret_path,
}
use shuttle_gate.SshKey.{StoredFile}
use shuttle_gate.Launch.{
  Manifest, LaunchInputs, file_digest, current_manifest, manifest_of, launched, matches_manifest,
}

-- The SSH files are those at the mounted paths.
pub validate_ssh_files-mounted :
    (resolve : FilePath → FilePath) (files : FilePath → Option StoredFile) (paths : InstancePaths)
    (parent : FilePath) (config : ProjectConfig) (ssh : StoredFile × StoredFile)
    → validate_ssh_files resolve files paths parent config ≡ ok ssh
    → (identity : FilePath) × (known_hosts : FilePath) × (mounted_secret_path paths
          config.ssh.identity_file
        ≡ ok identity)
      × (mounted_secret_path paths config.ssh.known_hosts_file ≡ ok known_hosts)
      × (require_ssh_files (files identity) (files known_hosts) ≡ ok ssh)
unfolding validate_ssh_files
validate_ssh_files-mounted resolve files paths parent config ssh h =
    let (identity, e₁, e₂) = >>=-eq-ok (mounted_secret_path paths config.ssh.identity_file) _ h in
    let (known_hosts, e₃, e₄) =
      >>=-eq-ok (mounted_secret_path paths config.ssh.known_hosts_file) _ e₂ in
    let (t, e₅) =
      raise_if-eq-ok (not (is_below_secrets_directory resolve parent config identity known_hosts)) _
        _ e₄ in
    (identity, known_hosts, e₁, e₃, e₅)

matches_manifest-launched :
    (addresses : AddressText) (config : ProjectConfig)
    (name a b c d launch_id instance_id unit_name : String)
    → matches_manifest
        (launched launch_id instance_id unit_name
          (manifest_of addresses config (some name) a b c d))
        (manifest_of addresses config (some name) a b c d)
      ≡ true
unfolding matches_manifest
matches_manifest-launched addresses config name a b c d launch_id instance_id unit_name =
    rw
      (
        eq_self config.project,
        eq_self a,
        eq_self b,
        eq_self c,
        eq_self d,
        eq_self name,
        eq_self (path_text config.ssh.identity_file),
        eq_self (path_text config.ssh.known_hosts_file),
        eq_self (some (map addresses.show_address config.wireguard.bind_addresses)),
        eq_self (some config.wireguard.listen_port),
      )
      refl

pub current_manifest-matches_manifest :
    (sha256 : String → String) (addresses : AddressText) (config : ProjectConfig) (name : String)
    (inputs : LaunchInputs) (identity known_hosts : Option StoredFile)
    (launch_id instance_id unit_name : String) (v : Manifest)
    → current_manifest sha256 addresses config (some name) inputs identity known_hosts ≡ ok v
    → matches_manifest (launched launch_id instance_id unit_name v) v ≡ true
unfolding current_manifest matches_manifest
current_manifest-matches_manifest sha256 addresses config name inputs identity known_hosts launch_id
      instance_id unit_name v h =
    let (a, e₁, e₂) =
      >>=-eq-ok (file_digest sha256 inputs.configuration "configuration" true) _ h in
    let (b, e₃, e₄) = >>=-eq-ok (file_digest sha256 identity "SSH identity" true) _ e₂ in
    let (c, e₅, e₆) = >>=-eq-ok (file_digest sha256 known_hosts "SSH known-hosts" false) _ e₄ in
    let (d, e₇, e₈) =
      >>=-eq-ok (file_digest sha256 inputs.application "application bundle" true) _ e₆ in
    let same : manifest_of addresses config (some name) a b c d ≡ v = cc in
    subst (λ u. matches_manifest (launched launch_id instance_id unit_name u) u ≡ true) same
      (matches_manifest-launched addresses config name a b c d launch_id instance_id unit_name)
