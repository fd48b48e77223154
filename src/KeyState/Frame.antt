-- ===== src/KeyState/Frame.antt =====
-- What the changes of the WireGuard keys leave as it is.
use shuttle_gate.Base.{
  String, ℕ, ◌≡◌, refl, ap, ◌∙◌, true, false, Option, some, List, [], ◌∷◌, ◌==◌, string_eq,
  if◌then◌else◌, arith, Bool-cases, inl, inr, ◌⊎◌, map, contains, subst,
}
use shuttle_gate.Errors.{ok, >>=-eq-ok}
use shuttle_gate.Net.{AddressText}
use shuttle_gate.Config.{ProjectConfig, PeerConfig}
use shuttle_gate.SshKey.{StoredFile}
use shuttle_gate.KeyState.{
  KeyPair, PeerDirectory, peer_directory, foreign, Peers, Snapshot, peers_of, peer_dir, change_peer,
  load_server_keys,
}
use shuttle_gate.KeyState.Phone.{written, phone_artifacts, render_each, render_phone_configs}

-- A write below one peer's directory is seen there and nowhere else.
pub peer_dir-change_peer :
    (name other : String) (f : PeerDirectory → PeerDirectory) (peers peers' : Peers)
    → change_peer name f peers ≡ ok peers'
    → peer_dir other peers'
      ≡ (if name == other then f (peer_dir name peers) else peer_dir other peers)
unfolding change_peer peer_dir
peer_dir-change_peer name other f [] peers' h = ground arith
peer_dir-change_peer name other f ((k, peer_directory d) ∷ rest) peers' h =
    elim (Bool-cases (k == name)) [
      | inl e ↦
          let same : (name, peer_directory (f d)) ∷ rest ≡ peers' = let h' = rw e at h in cc in
          rw (← same) (ground arith)
      | inr e ↦
          let (rest', e₁, e₂) =
            >>=-eq-ok (change_peer name f rest) (λ rest'. ok ((k, peer_directory d) ∷ rest'))
              (rw e at h) in
          let same : (k, peer_directory d) ∷ rest' ≡ peers' = cc in
          let later = peer_dir-change_peer name other f rest rest' e₁ in rw (← same) (ground arith)
    ]
peer_dir-change_peer name other f ((k, foreign) ∷ rest) peers' h = elim (Bool-cases (k == name)) [
  | inl e ↦ cc (rw e at h)
  | inr e ↦
      let (rest', e₁, e₂) =
        >>=-eq-ok (change_peer name f rest) (λ rest'. ok ((k, foreign) ∷ rest')) (rw e at h) in
      let same : (k, foreign) ∷ rest' ≡ peers' = cc in
      let later = peer_dir-change_peer name other f rest rest' e₁ in rw (← same) (ground arith)
]

-- The three key files of a peer.
abbrev pub keys_of : PeerDirectory → Option StoredFile × Option StoredFile × Option StoredFile
keys_of d = (d.private_key, d.public_key, d.preshared_key)

abbrev pub names_of : List PeerConfig → List String
names_of peers = map (λ (peer : PeerConfig). peer.name) peers

-- One snapshot has the server's directory and each peer's keys of another one, and all files of the
-- peers that are not among some names.
pub record Keeps (names : List String) (s s' : Snapshot) : Type 0 where
  pub server : s'.server ≡ s.server
  pub keys : (k : String) → keys_of (peer_dir k (peers_of s')) ≡ keys_of (peer_dir k (peers_of s))
  pub others :
      (k : String) → contains names k ≡ false → peer_dir k (peers_of s') ≡ peer_dir k (peers_of s)

Keeps-refl : (s : Snapshot) → Keeps [] s s
Keeps-refl s = record { server = refl; keys = λ k. refl; others = λ k e. refl }

change_peer-Keeps :
    (name : String) (f : PeerDirectory → PeerDirectory) (s : Snapshot) (peers : Peers)
    → ((d : PeerDirectory) → keys_of (f d) ≡ keys_of d)
    → change_peer name f (peers_of s) ≡ ok peers
    → Keeps (name ∷ []) s (record s { peers = some peers })
change_peer-Keeps name f s peers same h = record {
  server = refl;
  keys =
      λ k. by_name k (Bool-cases (name == k)) (peer_dir-change_peer name k f (peers_of s) peers h);
  others = λ k e. ground (arith, peer_dir-change_peer name k f (peers_of s) peers h);
}
  where
    by_name :
        (k : String)
        → (((name == k) ≡ true) ⊎ ((name == k) ≡ false))
        → peer_dir k peers
          ≡ (if name == k then f (peer_dir name (peers_of s)) else peer_dir k (peers_of s))
        → keys_of (peer_dir k peers) ≡ keys_of (peer_dir k (peers_of s))
    by_name k (inl e) seen =
        let same_name : name ≡ k = ground arith in
        ap keys_of (rw e at seen)
        ∙ same (peer_dir name (peers_of s))
        ∙ ap (λ n. keys_of (peer_dir n (peers_of s))) same_name
    by_name k (inr e) seen = ap keys_of (rw e at seen)

module _ (addresses : AddressText) (sha256 json_text : String → String)
    (decoded_length : String → Option ℕ) where
  render_each-Keeps :
      (config : ProjectConfig) (server : KeyPair) (s : Snapshot) (peers : List PeerConfig)
      (s' : Snapshot)
      → render_each addresses sha256 json_text decoded_length config server s peers ≡ ok s'
      → Keeps (names_of peers) s s'
  unfolding render_each
  render_each-Keeps config server s [] s' h =
      let same : s ≡ s' = cc in subst (Keeps [] s) same (Keeps-refl s)
  render_each-Keeps config server s (peer ∷ peers) s' h =
      let (artifacts, e₁, e₂) =
        >>=-eq-ok (phone_artifacts addresses sha256 json_text decoded_length config s peer server) _
          h in
      let (changed, e₃, e₄) =
        >>=-eq-ok (change_peer peer.name (written artifacts.0 artifacts.1) (peers_of s)) _ e₂ in
      let first =
        change_peer-Keeps peer.name (written artifacts.0 artifacts.1) s changed (λ d. refl) e₃ in
      let later = render_each-Keeps config server (record s { peers = some changed }) peers s' e₄ in
      record {
        server = later.server ∙ first.server;
        keys = λ k. later.keys k ∙ first.keys k;
        others = λ k e. later.others k (ground arith) ∙ first.others k (ground arith);
      }

  pub render_phone_configs-Keeps :
      (config : ProjectConfig) (s : Snapshot) (peers : List PeerConfig) (s' : Snapshot)
      → render_phone_configs addresses sha256 json_text decoded_length config s peers ≡ ok s'
      → Keeps (names_of peers) s s'
  unfolding render_phone_configs
  render_phone_configs-Keeps config s peers s' h =
      let (server, e₁, e₂) = >>=-eq-ok (load_server_keys decoded_length s) _ h in
      render_each-Keeps config server s peers s' e₂
