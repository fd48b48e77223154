-- ===== src/KeyState.antt =====
-- The WireGuard keys of keys.py, in one generation of the persistent state. Messages leave out paths
-- and hints; text is ASCII.
pub mod Phone
pub mod Listing
pub mod Generate
pub mod Rotate
pub mod Prune
pub mod Frame
pub mod Kept
pub mod Current
use shuttle_gate.Base.{
  String, ◌<>◌, ℕ, Bool, true, false, not, ◌&&◌, ◌||◌, Option, none, some, List, [], ◌∷◌, ltb, ◌==◌,
  ◌!=◌, string_eq, nat_eq, option_eq, if◌then◌else◌, codes, length, all, any, contains, ◌%◌,
}
use shuttle_gate.Errors.{
  Error, state_error, configuration_error, key_error, os_error, Result, ok, err, ◌>>=◌, ◌>>◌,
  raise_if,
}
use shuttle_gate.Config.{ProjectConfig, PeerConfig}
use shuttle_gate.Files.{require_private_file, require_regular_file}
use shuttle_gate.SshKey.{StoredFile}
use shuttle_gate.State.{Tree}
use shuttle_gate.State.Operation.{Field}

pub record KeyPair : Type 0 where
  pub private : String
  pub public : String

pub record ServerDirectory : Type 0 where
  pub private_key : Option StoredFile
  pub public_key : Option StoredFile

-- `value` is the schema version and the fingerprint that the file says, and `none` where it cannot be
-- read as JSON.
pub record FingerprintFile : Type 0 where
  pub file : StoredFile
  pub value : Option (Option ℕ × Field)

pub record PeerDirectory : Type 0 where
  pub private_key : Option StoredFile
  pub public_key : Option StoredFile
  pub preshared_key : Option StoredFile
  pub phone_config : Option StoredFile
  pub fingerprint : Option FingerprintFile

-- A child of `peers`. A link is a foreign object here.
pub data PeerEntry : Type 0 where
  peer_directory : PeerDirectory → PeerEntry
  foreign : PeerEntry

abbrev pub Peers : Type 0
Peers = List (String × PeerEntry)

abbrev pub Snapshot : Type 0
Snapshot = Tree ServerDirectory Peers

abbrev is_space : ℕ → Bool
is_space c = contains (9 ∷ 10 ∷ 11 ∷ 12 ∷ 13 ∷ 28 ∷ 29 ∷ 30 ∷ 31 ∷ 32 ∷ []) c

abbrev strip_left : List ℕ → String → String
strip_left [] s = s
strip_left (c ∷ cs) String.[] = ""
strip_left (c ∷ cs) (String.◌∷◌ d s) =
    let rest = strip_left cs s in if is_space c then rest else String.◌∷◌ d s

abbrev strip_right : String → String
strip_right String.[] = ""
strip_right (String.◌∷◌ d s) =
    let rest = strip_right s in
    if rest == "" && all is_space (codes (String.◌∷◌ d "")) then "" else String.◌∷◌ d rest

-- str.strip
unfoldable pub strip_text : String → String
strip_text s = strip_right (strip_left (codes s) s)

abbrev has_line_break : String → Bool
has_line_break s = contains (codes s) 10 || contains (codes s) 13

-- files.py: read_text_secret
unfoldable pub read_text_secret : Option StoredFile → String → Result String
unfolding require_private_file strip_text
read_text_secret file label = do
  f ← require_private_file file label
  raise_if (ltb 4096 f.size) (state_error (label <> " is unexpectedly large"))
  raise_if (strip_text f.content == "" || has_line_break (strip_text f.content))
      (state_error (label <> " must contain exactly one non-empty line"))
  ok (strip_text f.content)

pub data Status : Type 0 where
  complete partial missing : Status

abbrev exists : Option StoredFile → Bool
exists none = false
exists (some f) = true

abbrev status_of : List Bool → Status
status_of present =
    if all (λ b. b) present then complete else if any (λ b. b) present then partial else missing

unfoldable pub key_pair_status : ServerDirectory → Status
key_pair_status d = status_of (exists d.private_key ∷ exists d.public_key ∷ [])

unfoldable pub peer_key_status : PeerDirectory → Status
peer_key_status d =
    status_of (exists d.private_key ∷ exists d.public_key ∷ exists d.preshared_key ∷ [])

abbrev pub no_keys : PeerDirectory
no_keys = record {
  private_key = none;
  public_key = none;
  preshared_key = none;
  phone_config = none;
  fingerprint = none;
}

abbrev directory_of : PeerEntry → PeerDirectory
directory_of (peer_directory d) = d
directory_of foreign = no_keys

-- What is below `peers/<name>`. Below a foreign object there is nothing.
unfoldable pub peer_dir : String → Peers → PeerDirectory
peer_dir name [] = no_keys
peer_dir name (entry ∷ rest) =
    let later = peer_dir name rest in if entry.0 == name then directory_of entry.1 else later

abbrev pub peers_of : Snapshot → Peers
peers_of s = elim s.peers [ none ↦ [] | some peers ↦ peers ]

abbrev pub server_dir : Snapshot → ServerDirectory
server_dir s = elim s.server [
  | none ↦ record { private_key = none; public_key = none }
  | some d ↦ d
]

-- `wg`. The number tells its runs apart.
pub record WgRunner : Type 0 where
  pub genkey : ℕ → Result String
  pub pubkey : String → Result String
  pub genpsk : ℕ → Result String

-- `decoded_length` is the number of bytes that `base64.b64decode(value, validate=True)` returns, and
-- `none` if it raises.
module _ (decoded_length : String → Option ℕ) where
  abbrev check_length : Option ℕ → String → String → Result String
  check_length none value label = err (state_error (label <> " is not valid base64"))
  check_length (some n) value label = do
    raise_if (n != 32 || length (codes value) != 44)
        (state_error (label <> " must encode exactly 32 bytes"))
    ok value

  unfoldable pub validate_wireguard_key : String → String → Result String
  unfolding nat_eq string_eq
  validate_wireguard_key value label = do
    raise_if (value == "" || has_line_break value)
        (state_error (label <> " must contain exactly one key"))
    check_length (decoded_length value) value label

  unfoldable pub read_public_key : Option StoredFile → String → Result String
  unfolding validate_wireguard_key strip_text require_regular_file
  read_public_key file label = do
    f ← require_regular_file file label
    raise_if (ltb 4096 f.size) (state_error (label <> " is unexpectedly large"))
    validate_wireguard_key (strip_text f.content) label

  unfoldable pub generate_key_pair : WgRunner → ℕ → Result KeyPair
  unfolding validate_wireguard_key strip_text
  generate_key_pair wg n = do
    output ← wg.genkey n
    private ← validate_wireguard_key (strip_text output) "generated WireGuard private key"
    answer ← wg.pubkey (private <> "\n")
    public ← validate_wireguard_key (strip_text answer) "generated WireGuard public key"
    ok (record { private = private; public = public })

  unfoldable pub generate_preshared_key : WgRunner → ℕ → Result String
  unfolding validate_wireguard_key strip_text
  generate_preshared_key wg n = do
    output ← wg.genpsk n
    validate_wireguard_key (strip_text output) "generated WireGuard preshared key"

  abbrev is_complete : Status → Bool
  is_complete complete = true
  is_complete status = false

  unfoldable pub load_server_keys : Snapshot → Result KeyPair
  unfolding key_pair_status read_text_secret validate_wireguard_key read_public_key
  load_server_keys s = do
    raise_if (not (is_complete (key_pair_status (server_dir s))))
        (state_error "server keys are missing")
    text ← read_text_secret (server_dir s).private_key "server private key"
    private ← validate_wireguard_key text "server private key"
    public ← read_public_key (server_dir s).public_key "server public key"
    ok (record { private = private; public = public })

  unfoldable pub load_peer_directory : PeerDirectory → String → Result (KeyPair × String)
  unfolding peer_key_status read_text_secret validate_wireguard_key read_public_key
  load_peer_directory d name = do
    raise_if (not (is_complete (peer_key_status d)))
        (state_error ("keys for peer " <> (name <> " are missing")))
    text ← read_text_secret d.private_key (name <> " private key")
    private ← validate_wireguard_key text (name <> " private key")
    public ← read_public_key d.public_key (name <> " public key")
    text' ← read_text_secret d.preshared_key (name <> " preshared key")
    preshared ← validate_wireguard_key text' (name <> " preshared key")
    ok (record { private = private; public = public }, preshared)

  unfoldable pub load_peer_keys : Snapshot → String → Result (KeyPair × String)
  unfolding load_peer_directory peer_dir
  load_peer_keys s name = load_peer_directory (peer_dir name (peers_of s)) name

  unfoldable pub check_each : Snapshot → List PeerConfig → Result (Unit {0})
  unfolding load_peer_keys
  check_each s [] = ok tt
  check_each s (peer ∷ peers) = do keys ← load_peer_keys s peer.name; check_each s peers

  unfoldable pub validate_selected_keys : Snapshot → List PeerConfig → Result (Unit {0})
  unfolding load_server_keys check_each
  validate_selected_keys s selected = do keys ← load_server_keys s; check_each s selected

-- `_selected_peers`
unfoldable pub selected_peers : List PeerConfig → Option String → Result (List PeerConfig)
selected_peers peers none = ok peers
selected_peers [] (some name) = err (state_error ("peer is not declared in config.yaml: " <> name))
selected_peers (peer ∷ peers) (some name) =
    let later = selected_peers peers (some name) in
    if peer.name == name then ok (peer ∷ []) else later

-- `atomic_write` of ASCII text.
abbrev pub new_file : String → ℕ → StoredFile
new_file content mode = record {
  regular = true;
  directory = false;
  size = length (codes content);
  content = content;
  mode = mode;
}

-- A write below `peers/<name>`, whose directory is made if there is none.
unfoldable pub change_peer : String → (PeerDirectory → PeerDirectory) → Peers → Result Peers
change_peer name f [] = ok ((name, peer_directory (f no_keys)) ∷ [])
change_peer name f ((other, entry) ∷ rest) =
    let later = change_peer name f rest in
    if other == name then changed entry rest else do rest' ← later; ok ((other, entry) ∷ rest')
  where
    changed : PeerEntry → Peers → Result Peers
    changed (peer_directory d) rest = ok ((name, peer_directory (f d)) ∷ rest)
    changed foreign rest = err (state_error "cannot create or open private directory")
