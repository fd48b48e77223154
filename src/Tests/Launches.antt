-- ===== src/Tests/Launches.antt =====
-- A launch that is prepared and then started.
use shuttle_gate.Base.{
  Option, String, ◌≡◌, refl, true, false, some, [], ◌∷◌, matches_hex, string_eq, nat_eq, list_eq,
  option_eq, show,
}
use shuttle_gate.Errors.{Result, ok}
use shuttle_gate.FilePath.{FilePath, path_text}
use shuttle_gate.Files.{InstancePaths}
use shuttle_gate.Render.{peer_allowed_routes, endpoint, lines_text}
use shuttle_gate.Config.Project.{effective_routes}
use shuttle_gate.Net.{bracketed}
use shuttle_gate.SshKey.{StoredFile}
use shuttle_gate.State.{
  Generation, StateDisk, absent, link, pointer_to, locked_state_view, is_generation_name,
  find_generation, read_manifest, active_generation, linked_generation,
}
use shuttle_gate.State.Mutate.{manifest_file}
use shuttle_gate.KeyState.{ServerDirectory, Peers, new_file}
use shuttle_gate.KeyState.Generate.{generate_selected}
use shuttle_gate.Launch.{
  launched, manifest_of, LaunchInputs, Manifest, plan_launch, validate_launch_manifest,
  is_launch_id, is_instance, is_unit,
}
use shuttle_gate.Launch.{file_digest, current_manifest, matches_manifest}
use shuttle_gate.Launch.Unchanged.{matches_manifest-current_manifest}
use shuttle_gate.Launch.Accepted.{launch_file, validate_launch_manifest-plan_launch}
use shuttle_gate.Tests.Configuration.{text, config}
use shuttle_gate.Tests.PeerKeys.{hash, decoded_length, generated}

abbrev root : FilePath
root = record { absolute = true; names = "home" ∷ "gate" ∷ [] }

abbrev paths : InstancePaths
paths = record {
  root = root;
  config = record root { names = "home" ∷ "gate" ∷ "config.yaml" ∷ [] };
  state = record root { names = "home" ∷ "gate" ∷ "state" ∷ [] };
  secrets = record root { names = "home" ∷ "gate" ∷ "secrets" ∷ [] };
}

abbrev inputs : LaunchInputs
inputs = record {
  configuration = some (new_file "version: 1" 0o600);
  application = some (new_file "bundle" 0o600);
  files = λ p. some (new_file "secret" 0o600);
}

abbrev active_name : String
active_name = "gen-aaaaaaaaaaaaaaaaaaaaaaaaaaaaaaaa"

abbrev active : Generation ServerDirectory Peers
active = record {
  directory = true;
  tree = generated;
  operations = [];
  manifest = some (manifest_file active_name 82);
}

abbrev state : StateDisk ServerDirectory Peers
state = record {
  generations = (active_name, active) ∷ [];
  staging = [];
  stray_generation = false;
  current = link (pointer_to active_name);
  temporaries = [];
  stray_current = false;
  legacies = record { server = absent; peers = absent };
}

abbrev planned : Result Manifest
planned =
    plan_launch text hash hash decoded_length (λ p. p) paths root config inputs state
      "aaaaaaaaaaaaaaaaaaaaaaaaaaaaaaaa" "aaaaaaaaaaaaaaaaaaaa"
      "shuttle-gate-aaaaaaaaaaaaaaaaaaaa.service"

abbrev manifest : Manifest
manifest =
    launched "aaaaaaaaaaaaaaaaaaaaaaaaaaaaaaaa" "aaaaaaaaaaaaaaaaaaaa"
      "shuttle-gate-aaaaaaaaaaaaaaaaaaaa.service"
      (manifest_of text config (some active_name) "version: 1" "secret" "secret" "bundle")

plans : planned ≡ ok manifest
unfolding plan_launch generate_selected matches_hex string_eq nat_eq list_eq option_eq
    is_generation_name find_generation read_manifest active_generation linked_generation is_instance
    is_unit show peer_allowed_routes effective_routes endpoint bracketed lines_text
plans = refl

drawn : is_launch_id "aaaaaaaaaaaaaaaaaaaaaaaaaaaaaaaa" ≡ true
unfolding is_launch_id matches_hex
drawn = refl

validate_launch_manifest-plan_launch_example :
    (name : String) × (g : Generation ServerDirectory Peers) × (locked_state_view true state
      ≡ ok (some (name, g)))
    × (validate_launch_manifest text hash hash decoded_length
          (λ p. p)
          paths
          root
          config
          (some name)
          inputs
          (some (launch_file 900 manifest))
        ≡ ok manifest)
unfolding nat_eq
validate_launch_manifest-plan_launch_example =
    validate_launch_manifest-plan_launch text hash hash decoded_length (λ p. p) paths root config
      inputs state "aaaaaaaaaaaaaaaaaaaaaaaaaaaaaaaa" "aaaaaaaaaaaaaaaaaaaa"
      "shuttle-gate-aaaaaaaaaaaaaaaaaaaa.service" 900 manifest plans drawn refl

-- The configuration has another mode later, and the same content.
abbrev later : LaunchInputs
later = record inputs { configuration = some (new_file "version: 1" 0o400) }

abbrev secret_file : Option StoredFile
secret_file = some (new_file "secret" 0o600)

abbrev digests : Manifest
digests = manifest_of text config (some active_name) "version: 1" "secret" "secret" "bundle"

gathers :
    current_manifest hash text config (some active_name) inputs secret_file secret_file ≡ ok digests
unfolding current_manifest nat_eq
gathers = refl

gathers_later :
    current_manifest hash text config (some active_name) later secret_file secret_file ≡ ok digests
unfolding current_manifest nat_eq
gathers_later = refl

agree : matches_manifest (launched "a" "b" "c" digests) digests ≡ true
unfolding matches_manifest string_eq nat_eq list_eq option_eq path_text
agree = refl

matches_manifest-current_manifest_example :
    (◌≡◌ {A = Option String} (some active_name) (some active_name))
    × (file_digest hash later.configuration "configuration" true
        ≡ file_digest hash inputs.configuration "configuration" true)
    × (file_digest hash secret_file "SSH identity" true
        ≡ file_digest hash secret_file "SSH identity" true)
    × (file_digest hash secret_file "SSH known-hosts" false
        ≡ file_digest hash secret_file "SSH known-hosts" false)
    × (file_digest hash later.application "application bundle" true
        ≡ file_digest hash inputs.application "application bundle" true)
matches_manifest-current_manifest_example =
    matches_manifest-current_manifest text hash config config active_name (some active_name) inputs
      later secret_file secret_file secret_file secret_file "a" "b" "c" digests digests gathers
      gathers_later agree
