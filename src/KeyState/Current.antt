-- ===== src/KeyState/Current.antt =====
-- Phone configurations of keys.py that were just rendered, and the test for current ones.
use shuttle_gate.Base.{
  String, ℕ, ◌≡◌, refl, sym, ap, ◌∙◌, false, Option, some, [], ◌∷◌, ltb, length, codes, string_eq,
  nat_eq, option_eq, eq_self, ne_self,
}
use shuttle_gate.Errors.{ok, ◌>>=◌, >>=-eq-ok}
use shuttle_gate.Net.{AddressText}
use shuttle_gate.Config.{ProjectConfig, PeerConfig}
use shuttle_gate.Files.{is_open}
use shuttle_gate.SshKey.{StoredFile}
use shuttle_gate.KeyState.{
  KeyPair, PeerDirectory, Snapshot, peers_of, peer_dir, change_peer, load_server_keys,
  load_peer_directory, load_peer_keys, validate_selected_keys, check_each,
}
use shuttle_gate.Render.{render_phone_config, phone_fingerprint}
use shuttle_gate.KeyState.Phone.{
  written, fingerprint_file, read_fingerprint, read_phone_config, require_current, phone_artifacts,
  render_each, render_phone_configs, require_each, require_selected_phone_configs,
  validate_phone_snapshot,
}
use shuttle_gate.KeyState.Frame.{keys_of, peer_dir-change_peer, render_phone_configs-Keeps}

-- Neither text is longer than what is read back.
abbrev pub IsShort : String × String → Type 0
IsShort (rendered, fingerprint) =
    (ltb 65536 (length (codes rendered)) ≡ false)
    × (ltb 65536 (fingerprint_file fingerprint).file.size ≡ false)

abbrev first_version : Option ℕ
first_version = some 1

require_current-written :
    (d : PeerDirectory) (name : String) (artifacts : String × String)
    → IsShort artifacts
    → require_current (written artifacts.0 artifacts.1 d) name artifacts ≡ ok tt
unfolding require_current read_fingerprint read_phone_config is_open
require_current-written d name (rendered, fingerprint) (a, b) =
    rw (b, a, ne_self first_version, eq_self fingerprint, ne_self rendered) refl

load_server_keys-same :
    (decoded_length : String → Option ℕ) (s s' : Snapshot)
    → s'.server ≡ s.server
    → load_server_keys decoded_length s' ≡ load_server_keys decoded_length s
unfolding load_server_keys
load_server_keys-same decoded_length s s' e =
    ap (λ d. load_server_keys decoded_length (record s { server = d })) e

load_peer_directory-same :
    (decoded_length : String → Option ℕ) (d d' : PeerDirectory) (name : String)
    → keys_of d' ≡ keys_of d
    → load_peer_directory decoded_length d' name ≡ load_peer_directory decoded_length d name
unfolding load_peer_directory
load_peer_directory-same decoded_length d d' name e =
    ap
      (λ (k : Option StoredFile × Option StoredFile × Option StoredFile).
        load_peer_directory decoded_length
          (record d { private_key = k.0; public_key = k.1; preshared_key = k.2 }) name)
      e

module _ (addresses : AddressText) (sha256 json_text : String → String)
    (decoded_length : String → Option ℕ) where
  phone_artifacts-same :
      (config : ProjectConfig) (s s' : Snapshot) (peer : PeerConfig) (server : KeyPair)
      → keys_of (peer_dir peer.name (peers_of s')) ≡ keys_of (peer_dir peer.name (peers_of s))
      → phone_artifacts addresses sha256 json_text decoded_length config s' peer server
        ≡ phone_artifacts addresses sha256 json_text decoded_length config s peer server
  unfolding phone_artifacts load_peer_keys
  phone_artifacts-same config s s' peer server e =
      ap
        (λ r. r >>= λ (keys : KeyPair × String). ok (
          render_phone_config addresses config peer server.public keys.0.private keys.1,
          phone_fingerprint addresses sha256 json_text config peer server.public keys.0.public
              keys.1,
        ))
        (load_peer_directory-same decoded_length (peer_dir peer.name (peers_of s))
          (peer_dir peer.name (peers_of s')) peer.name e)

  abbrev artifacts_of : ProjectConfig → PeerConfig → KeyPair → KeyPair × String → String × String
  artifacts_of config peer server keys = (
    render_phone_config addresses config peer server.public keys.0.private keys.1,
    phone_fingerprint addresses sha256 json_text config peer server.public keys.0.public keys.1,
  )

  validates :
      (config : ProjectConfig) (s : Snapshot) (peer : PeerConfig) (server : KeyPair)
      (keys : KeyPair × String)
      → load_server_keys decoded_length s ≡ ok server
      → load_peer_keys decoded_length s peer.name ≡ ok keys
      → require_current
          (peer_dir peer.name (peers_of s))
          peer.name
          (artifacts_of config peer server keys)
        ≡ ok tt
      → validate_phone_snapshot addresses sha256 json_text decoded_length config s (peer ∷ [])
        ≡ ok tt
  unfolding validate_phone_snapshot validate_selected_keys check_each require_selected_phone_configs
      require_each
  validates config s peer server keys a b d = rw (a, b, d) refl

  -- After the phone configuration of one peer was rendered, the snapshot passes the validation of
  -- this peer's keys and phone configuration, if neither file is longer than what is read.
  pub validate_phone_snapshot-render_phone_configs :
      (config : ProjectConfig) (s s' : Snapshot) (peer : PeerConfig)
      → render_phone_configs addresses sha256 json_text decoded_length config s (peer ∷ []) ≡ ok s'
      → ((server : KeyPair) (artifacts : String × String)
          → load_server_keys decoded_length s ≡ ok server
          → phone_artifacts addresses sha256 json_text decoded_length config s peer server
            ≡ ok artifacts
          → IsShort artifacts)
      → validate_phone_snapshot addresses sha256 json_text decoded_length config s' (peer ∷ [])
        ≡ ok tt
  unfolding render_phone_configs render_each phone_artifacts
  validate_phone_snapshot-render_phone_configs config s s' peer h short =
      let kept =
        render_phone_configs-Keeps addresses sha256 json_text decoded_length config s (peer ∷ []) s'
          h in
      let (server, e₁, e₂) = >>=-eq-ok (load_server_keys decoded_length s) _ h in
      let (artifacts, e₃, e₄) =
        >>=-eq-ok (phone_artifacts addresses sha256 json_text decoded_length config s peer server) _
          e₂ in
      let (changed, e₅, e₆) =
        >>=-eq-ok (change_peer peer.name (written artifacts.0 artifacts.1) (peers_of s)) _ e₄ in
      let same : record s { peers = some changed } ≡ s' = cc in
      let seen : peer_dir peer.name (peers_of s')
          ≡ written artifacts.0 artifacts.1 (peer_dir peer.name (peers_of s)) =
        ap (λ t. peer_dir peer.name (peers_of t)) (sym same)
        ∙ (rw (eq_self peer.name) at (
            peer_dir-change_peer peer.name peer.name (written artifacts.0 artifacts.1) (peers_of s)
              changed e₅)) in
      let again = phone_artifacts-same config s s' peer server (kept.keys peer.name) ∙ e₃ in
      let (keys, e₇, e₈) = >>=-eq-ok (load_peer_keys decoded_length s' peer.name) _ again in
      let made : artifacts_of config peer server keys ≡ artifacts = cc in
      validates config s' peer server keys
        (load_server_keys-same decoded_length s s' kept.server ∙ e₁) e₇
        (ap (require_current (peer_dir peer.name (peers_of s')) peer.name) made
          ∙ ap (λ d. require_current d peer.name artifacts) seen
          ∙ require_current-written (peer_dir peer.name (peers_of s)) peer.name artifacts
              (short server artifacts e₁ e₃))
