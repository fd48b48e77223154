-- ===== src/KeyState/Generate.antt =====
-- `generate_missing_keys`, `regenerate_phone_config` and their mutators, of keys.py
use shuttle_gate.Base.{String, ◌<>◌, ℕ, suc, Option, none, some, List, [], ◌∷◌, ◌++◌}
use shuttle_gate.Errors.{state_error, Result, ok, err, ◌>>=◌, ◌>>◌}
use shuttle_gate.Net.{AddressText}
use shuttle_gate.Config.{ProjectConfig, PeerConfig}
use shuttle_gate.State.Mutate.{Mutation}
use shuttle_gate.KeyState.{
  KeyPair, PeerDirectory, ServerDirectory, Peers, Snapshot, Status, complete, partial, missing,
  WgRunner, peers_of, peer_dir, server_dir, change_peer, new_file, key_pair_status, peer_key_status,
  generate_key_pair, generate_preshared_key, validate_selected_keys, selected_peers,
}
use shuttle_gate.KeyState.Phone.{render_phone_configs, validate_phone_snapshot}

-- The key files of a peer are replaced.
abbrev pub with_peer_keys : KeyPair → String → PeerDirectory → PeerDirectory
with_peer_keys pair preshared d = record d {
  private_key = some (new_file (pair.private <> "\n") 0o600);
  public_key = some (new_file (pair.public <> "\n") 0o644);
  preshared_key = some (new_file (preshared <> "\n") 0o600);
}

abbrev pub with_server_keys : KeyPair → Snapshot → Snapshot
with_server_keys pair s = record s {
  server = some (record {
    private_key = some (new_file (pair.private <> "\n") 0o600);
    public_key = some (new_file (pair.public <> "\n") 0o644);
  });
}

module _ (decoded_length : String → Option ℕ) (wg : WgRunner) where
  -- The server's keys: whether they were made, and the snapshot.
  unfoldable pub generate_server : Snapshot → Status → Result (List String × Snapshot)
  unfolding generate_key_pair
  generate_server s complete = ok ([], s)
  generate_server s partial =
      err (state_error "server key state is partial; rotate or repair it explicitly")
  generate_server s missing = do
    pair ← generate_key_pair decoded_length wg 0
    ok ("server" ∷ [], with_server_keys pair s)

  -- One peer, when `n` key pairs were made before. The result is how many were made then.
  unfoldable pub generate_peer : ℕ → Peers → String → Status → Result (ℕ × Peers)
  unfolding generate_key_pair generate_preshared_key change_peer
  generate_peer n peers name complete = ok (n, peers)
  generate_peer n peers name partial =
      err (state_error ("peer " <> (name <> " key state is partial; rotate it explicitly")))
  generate_peer n peers name missing = do
    pair ← generate_key_pair decoded_length wg n
    preshared ← generate_preshared_key decoded_length wg n
    changed ← change_peer name (with_peer_keys pair preshared) peers
    ok (suc n, changed)

  abbrev created_name : Status → String → List String
  created_name missing name = name ∷ []
  created_name status name = []

  unfoldable pub generate_peers : ℕ → Peers → List PeerConfig → Result (List String × Peers)
  unfolding generate_peer peer_key_status peer_dir
  generate_peers n peers [] = ok ([], peers)
  generate_peers n peers (peer ∷ rest) = do
    (n', peers') ← generate_peer n peers peer.name (peer_key_status (peer_dir peer.name peers))
    (created, end) ← generate_peers n' peers' rest
    ok (created_name (peer_key_status (peer_dir peer.name peers)) peer.name ++ created, end)

module _ (addresses : AddressText) (sha256 json_text : String → String)
    (decoded_length : String → Option ℕ) (wg : WgRunner) where
  -- `_generate_missing_keys`
  unfoldable pub generate_selected :
      ProjectConfig → List PeerConfig → Snapshot → Result (List String × Snapshot)
  unfolding generate_server generate_peers key_pair_status validate_selected_keys
      render_phone_configs
  generate_selected config selected s = do
    (first, s₁) ← generate_server decoded_length wg s (key_pair_status (server_dir s))
    (created, peers) ← generate_peers decoded_length wg 1 (peers_of s₁) selected
    validate_selected_keys decoded_length (record s₁ { peers = some peers }) selected
    s₂ ←
        render_phone_configs addresses sha256 json_text decoded_length config
          (record s₁ { peers = some peers }) selected
    ok (first ++ created, s₂)

  unfoldable pub generate_missing_keys :
      ProjectConfig → Option String → Result (Mutation ServerDirectory Peers (List String))
  unfolding selected_peers
  generate_missing_keys config peer_name = do
    selected ← selected_peers config.wireguard.peers peer_name
    ok (record {
      mutator = generate_selected config selected;
      validator =
          λ s. validate_phone_snapshot addresses sha256 json_text decoded_length config s selected;
      publish_if = none;
      operation = none;
    })

  unfoldable pub regenerate_phone_config :
      ProjectConfig → String → Result (Mutation ServerDirectory Peers (Unit {0}))
  unfolding selected_peers
  regenerate_phone_config config name = do
    selected ← selected_peers config.wireguard.peers (some name)
    ok (record {
      mutator = λ s. do
        s' ← render_phone_configs addresses sha256 json_text decoded_length config s selected
        ok (tt, s');
      validator =
          λ s. validate_phone_snapshot addresses sha256 json_text decoded_length config s selected;
      publish_if = none;
      operation = none;
    })
