-- ===== src/Launch/Accepted.antt =====
-- `validate_launch_manifest` of launch.py on what `prepare_launch` wrote.
use shuttle_gate.Base.{
  String, ℕ, ◌≡◌, refl, ap, ◌∙◌, true, false, not, ◌||◌, Option, none, some, ltb, ◌==◌, string_eq,
  nat_eq, list_eq, option_eq, arith, ne_self, subst,
}
use shuttle_gate.Errors.{ok, >>=-eq-ok, raise_if-eq-ok}
use shuttle_gate.FilePath.{FilePath}
use shuttle_gate.Net.{AddressText}
use shuttle_gate.Config.{ProjectConfig}
use shuttle_gate.Files.{
  InstancePaths, require_private_file, require_ssh_files, validate_ssh_files, mounted_secret_path,
}
use shuttle_gate.SshKey.{StoredFile}
use shuttle_gate.State.{Generation, StateDisk, locked_state_view}
use shuttle_gate.KeyState.{ServerDirectory, Peers}
use shuttle_gate.KeyState.Phone.{require_selected_phone_configs}
use shuttle_gate.Launch.Matches.{validate_ssh_files-mounted, current_manifest-matches_manifest}
use shuttle_gate.Launch.{
  launch_schema_version, Manifest, LaunchFile, LaunchInputs, is_instance, is_launch_id, is_unit,
  current_manifest, launched, read_launch_manifest, plan_on, plan_launch, validate_launch_manifest,
}

-- The file that holds a manifest, whose text has `size` bytes.
abbrev pub launch_file : ℕ → Manifest → LaunchFile
launch_file size v = record { regular = true; size = size; parsed = some v }

module _ (addresses : AddressText) (sha256 json_text : String → String)
    (decoded_length : String → Option ℕ) (resolve : FilePath → FilePath) (paths : InstancePaths)
    (parent : FilePath) where
  -- The files at the mounted paths, and the bundle.
  abbrev AreRead : ProjectConfig → LaunchInputs → StoredFile × StoredFile → Type 0
  AreRead config inputs ssh =
      (identity : FilePath) × (known_hosts : FilePath) × (mounted_secret_path paths
          config.ssh.identity_file
        ≡ ok identity)
      × (mounted_secret_path paths config.ssh.known_hosts_file ≡ ok known_hosts)
      × (require_ssh_files (inputs.files identity) (inputs.files known_hosts) ≡ ok ssh)

  accepts :
      (config : ProjectConfig) (inputs : LaunchInputs)
      (launch_id instance_id unit_name name : String) (size : ℕ) (value : Manifest)
      (ssh : StoredFile × StoredFile) (bundle : StoredFile)
      → is_launch_id launch_id ≡ true
      → is_instance instance_id ≡ true
      → is_unit unit_name ≡ true
      → (size == 0 || ltb 65536 size) ≡ false
      → AreRead config inputs ssh
      → require_private_file inputs.application "application bundle" ≡ ok bundle
      → current_manifest sha256 addresses config (some name) inputs (some ssh.0) (some ssh.1)
        ≡ ok value
      → validate_launch_manifest addresses sha256 json_text decoded_length resolve paths parent
          config
          (some name)
          inputs
          (some (launch_file size (launched launch_id instance_id unit_name value)))
        ≡ ok (launched launch_id instance_id unit_name value)
  unfolding validate_launch_manifest read_launch_manifest
  accepts config inputs launch_id instance_id unit_name name size value ssh bundle drawn formed
        named fits (identity, known_hosts, p, k, r) e c =
      rw
        (
          fits,
          ne_self (some launch_schema_version),
          drawn,
          formed,
          named,
          p,
          k,
          r,
          e,
          c,
          current_manifest-matches_manifest sha256 addresses config name inputs (some ssh.0)
              (some ssh.1) launch_id instance_id unit_name value c,
        )
        refl

  planned :
      (config : ProjectConfig) (inputs : LaunchInputs) (state : StateDisk ServerDirectory Peers)
      (launch_id instance_id unit_name : String) (size : ℕ) (v : Manifest)
      (ssh : StoredFile × StoredFile) (bundle : StoredFile)
      (active : Option (String × Generation ServerDirectory Peers))
      → plan_on addresses sha256 json_text decoded_length resolve paths parent config inputs
          launch_id instance_id unit_name ssh active
        ≡ ok v
      → ((name : String) (value : Manifest)
          → current_manifest sha256 addresses config (some name) inputs (some ssh.0) (some ssh.1)
            ≡ ok value
          → validate_launch_manifest addresses sha256 json_text decoded_length resolve paths parent
              config
              (some name)
              inputs
              (some (launch_file size (launched launch_id instance_id unit_name value)))
            ≡ ok (launched launch_id instance_id unit_name value))
      → (name : String) × (g : Generation ServerDirectory Peers) × (active ≡ some (name, g))
        × (validate_launch_manifest addresses sha256 json_text decoded_length resolve paths parent
              config
              (some name)
              inputs
              (some (launch_file size v))
            ≡ ok v)
  unfolding plan_on
  planned config inputs state launch_id instance_id unit_name size v ssh bundle none h f =
      let x : ⊥ = cc in absurd x
  planned config inputs state launch_id instance_id unit_name size v ssh bundle (some (name, g)) h
        f =
      let (u, e₁, h₁) =
        >>=-eq-ok
          (require_selected_phone_configs addresses sha256 json_text decoded_length config g.tree
            config.wireguard.peers)
          _ h in
      let (value, e₂, h₂) =
        >>=-eq-ok
          (current_manifest sha256 addresses config (some name) inputs (some ssh.0) (some ssh.1)) _
          h₁ in
      let same : launched launch_id instance_id unit_name value ≡ v = cc in
      (
        name,
        g,
        refl,
        subst
            (λ w.
              validate_launch_manifest addresses sha256 json_text decoded_length resolve paths
                parent config (some name) inputs (some (launch_file size w))
              ≡ ok w)
            same (f name value e₂),
      )

  -- A manifest that `prepare_launch` wrote for valid inputs, with an identifier of the right form, is
  -- accepted as it is while the inputs and the active generation are the same, if its text is within
  -- the size limit.
  pub validate_launch_manifest-plan_launch :
      (config : ProjectConfig) (inputs : LaunchInputs) (state : StateDisk ServerDirectory Peers)
      (launch_id instance_id unit_name : String) (size : ℕ) (v : Manifest)
      → plan_launch addresses sha256 json_text decoded_length resolve paths parent config inputs
          state launch_id instance_id unit_name
        ≡ ok v
      → is_launch_id launch_id ≡ true
      → (size == 0 || ltb 65536 size) ≡ false
      → (name : String) × (g : Generation ServerDirectory Peers) × (locked_state_view true state
          ≡ ok (some (name, g)))
        × (validate_launch_manifest addresses sha256 json_text decoded_length resolve paths parent
              config
              (some name)
              inputs
              (some (launch_file size v))
            ≡ ok v)
  unfolding plan_launch
  validate_launch_manifest-plan_launch config inputs state launch_id instance_id unit_name size v h
        drawn fits =
      let (t₁, h₁) = raise_if-eq-ok (not (is_instance instance_id)) _ _ h in
      let (t₂, h₂) = raise_if-eq-ok (not (is_unit unit_name)) _ _ h₁ in
      let (bundle, e₁, h₃) =
        >>=-eq-ok (require_private_file inputs.application "application bundle") _ h₂ in
      let (active, e₂, h₄) = >>=-eq-ok (locked_state_view true state) _ h₃ in
      let (ssh, e₃, h₅) =
        >>=-eq-ok (validate_ssh_files resolve inputs.files paths parent config) _ h₄ in
      let read = validate_ssh_files-mounted resolve inputs.files paths parent config ssh e₃ in
      let (name, g, e₄, accepted) =
        planned config inputs state launch_id instance_id unit_name size v ssh bundle active h₅
          (λ name value c.
            accepts config inputs launch_id instance_id unit_name name size value ssh bundle drawn
              (ground arith) (ground arith) fits read e₁ c) in
      (name, g, e₂ ∙ ap (λ a. ok a) e₄, accepted)
