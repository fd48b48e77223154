-- ===== src/KeyState/Phone.antt =====
-- The phone configurations of keys.py: rendering, and the test that they are current.
use shuttle_gate.Base.{
  String, ◌<>◌, ℕ, Bool, false, not, ◌||◌, Option, none, some, List, [], ◌∷◌, ltb, ◌==◌, ◌!=◌,
  string_eq, nat_eq, option_eq,
}
use shuttle_gate.Errors.{Error, state_error, Result, ok, err, ◌>>=◌, ◌>>◌, raise_if}
use shuttle_gate.Net.{AddressText}
use shuttle_gate.Config.{ProjectConfig, PeerConfig}
use shuttle_gate.Render.{render_phone_config, phone_fingerprint}
use shuttle_gate.Files.{is_open}
use shuttle_gate.SshKey.{StoredFile}
use shuttle_gate.State.Operation.{Field, text}
use shuttle_gate.KeyState.{
  KeyPair, PeerDirectory, FingerprintFile, Snapshot, peers_of, peer_dir, change_peer, new_file,
  load_server_keys, load_peer_keys, validate_selected_keys,
}

-- `_read_phone_config`
unfoldable pub read_phone_config : Option StoredFile → Result String
unfolding is_open
read_phone_config none = err (state_error "cannot read phone configuration")
read_phone_config (some f) = do
  raise_if (not f.regular || is_open f || ltb 65536 f.size)
      (state_error "invalid phone configuration")
  ok f.content

abbrev pub fingerprint_file : String → FingerprintFile
fingerprint_file fingerprint = record {
  file =
      new_file ("{\n  \"fingerprint\": \"" <> (fingerprint <> "\",\n  \"schema_version\": 1\n}\n"))
        0o600;
  value = some (some 1, text fingerprint);
}

abbrev pub written : String → String → PeerDirectory → PeerDirectory
written rendered fingerprint d = record d {
  phone_config = some (new_file rendered 0o600);
  fingerprint = some (fingerprint_file fingerprint);
}

abbrev invalid : String → Error
invalid name = state_error ("phone config for " <> (name <> " is missing or invalid"))

unfoldable pub read_fingerprint : Option FingerprintFile → String → Result (Option ℕ × Field)
unfolding is_open
read_fingerprint none name = err (invalid name)
read_fingerprint (some f) name = do
  raise_if (not f.file.regular || is_open f.file || ltb 65536 f.file.size) (invalid name)
  elim f.value [ none ↦ err (invalid name) | some v ↦ ok v ]

abbrev is_field : Field → String → Bool
is_field (text s) t = s == t
is_field field t = false

abbrev or_invalid : String → Result String → Result String
or_invalid name (ok s) = ok s
or_invalid name (err e) = err (invalid name)

-- The test of one peer's two files.
unfoldable pub require_current : PeerDirectory → String → String × String → Result (Unit {0})
unfolding read_fingerprint read_phone_config
require_current d name (expected_config, expected_fingerprint) = do
  value ← read_fingerprint d.fingerprint name
  actual_config ← or_invalid name (read_phone_config d.phone_config)
  raise_if
      (value.0 != some 1
        || not (is_field value.1 expected_fingerprint)
        || actual_config != expected_config)
      (state_error ("phone config for " <> (name <> " is stale")))

module _ (addresses : AddressText) (sha256 json_text : String → String)
    (decoded_length : String → Option ℕ) where
  unfoldable pub phone_artifacts :
      ProjectConfig → Snapshot → PeerConfig → KeyPair → Result (String × String)
  unfolding load_peer_keys render_phone_config phone_fingerprint
  phone_artifacts config s peer server = do
    (pair, preshared) ← load_peer_keys decoded_length s peer.name
    ok (
      render_phone_config addresses config peer server.public pair.private preshared,
      phone_fingerprint addresses sha256 json_text config peer server.public pair.public preshared,
    )

  unfoldable pub render_each :
      ProjectConfig → KeyPair → Snapshot → List PeerConfig → Result Snapshot
  unfolding phone_artifacts change_peer
  render_each config server s [] = ok s
  render_each config server s (peer ∷ peers) = do
    (rendered, fingerprint) ← phone_artifacts config s peer server
    changed ← change_peer peer.name (written rendered fingerprint) (peers_of s)
    render_each config server (record s { peers = some changed }) peers

  unfoldable pub render_phone_configs : ProjectConfig → Snapshot → List PeerConfig → Result Snapshot
  unfolding render_each load_server_keys
  render_phone_configs config s peers = do
    server ← load_server_keys decoded_length s
    render_each config server s peers

  unfoldable pub require_each :
      ProjectConfig → KeyPair → Snapshot → List PeerConfig → Result (Unit {0})
  unfolding phone_artifacts require_current peer_dir
  require_each config server s [] = ok tt
  require_each config server s (peer ∷ peers) = do
    expected ← phone_artifacts config s peer server
    require_current (peer_dir peer.name (peers_of s)) peer.name expected
    require_each config server s peers

  -- `_require_selected_phone_configs`
  unfoldable pub require_selected_phone_configs :
      ProjectConfig → Snapshot → List PeerConfig → Result (Unit {0})
  unfolding load_server_keys require_each
  require_selected_phone_configs config s peers = do
    server ← load_server_keys decoded_length s
    require_each config server s peers

  -- `_validate_phone_snapshot`
  unfoldable pub validate_phone_snapshot :
      ProjectConfig → Snapshot → List PeerConfig → Result (Unit {0})
  unfolding validate_selected_keys require_selected_phone_configs
  validate_phone_snapshot config s selected = do
    validate_selected_keys decoded_length s selected
    require_selected_phone_configs config s selected

  -- `_validate_snapshot`
  unfoldable pub validate_snapshot : ProjectConfig → Snapshot → Result (Unit {0})
  unfolding validate_selected_keys require_selected_phone_configs
  validate_snapshot config s = do
    validate_selected_keys decoded_length s config.wireguard.peers
    require_selected_phone_configs config s config.wireguard.peers
