-- ===== src/KeyState/Rotate.antt =====
-- `rotate_peer` and `rotate_server` of keys.py, as changes of the persistent state
use shuttle_gate.Base.{String, ◌<>◌, ℕ, Option, none, some, List}
use shuttle_gate.Errors.{Result, ok, ◌>>=◌}
use shuttle_gate.Net.{AddressText}
use shuttle_gate.Config.{ProjectConfig, PeerConfig}
use shuttle_gate.State.Operation.{void_operation}
use shuttle_gate.State.Mutate.{Mutation}
use shuttle_gate.KeyState.{
  ServerDirectory, Peers, Snapshot, WgRunner, peers_of, change_peer, generate_key_pair,
  generate_preshared_key, selected_peers,
}
use shuttle_gate.KeyState.Phone.{render_phone_configs, validate_phone_snapshot, validate_snapshot}
use shuttle_gate.KeyState.Generate.{with_peer_keys, with_server_keys}

module _ (addresses : AddressText) (sha256 json_text : String → String)
    (decoded_length : String → Option ℕ) (wg : WgRunner) where
  unfoldable pub rotate_selected :
      ProjectConfig → List PeerConfig → String → Snapshot → Result (Unit {0} × Snapshot)
  unfolding generate_key_pair generate_preshared_key change_peer render_phone_configs
  rotate_selected config selected name s = do
    pair ← generate_key_pair decoded_length wg 0
    preshared ← generate_preshared_key decoded_length wg 0
    changed ← change_peer name (with_peer_keys pair preshared) (peers_of s)
    s' ←
        render_phone_configs addresses sha256 json_text decoded_length config
          (record s { peers = some changed }) selected
    ok (tt, s')

  unfoldable pub rotate_peer :
      ProjectConfig → String → String → Result (Mutation ServerDirectory Peers (Unit {0}))
  unfolding selected_peers void_operation rotate_selected
  rotate_peer config name operation_id = do
    selected ← selected_peers config.wireguard.peers (some name)
    operation ← void_operation operation_id ("keys.rotate-peer." <> name)
    ok (record {
      mutator = rotate_selected config selected name;
      validator =
          λ s. validate_phone_snapshot addresses sha256 json_text decoded_length config s selected;
      publish_if = none;
      operation = some operation;
    })

  unfoldable pub rotate_server :
      ProjectConfig → String → Result (Mutation ServerDirectory Peers (Unit {0}))
  unfolding void_operation generate_key_pair render_phone_configs
  rotate_server config operation_id = do
    operation ← void_operation operation_id "keys.rotate-server"
    ok (record {
      mutator = λ s. do
        pair ← generate_key_pair decoded_length wg 0
        s' ←
            render_phone_configs addresses sha256 json_text decoded_length config
              (with_server_keys pair s) config.wireguard.peers
        ok (tt, s');
      validator = λ s. validate_snapshot addresses sha256 json_text decoded_length config s;
      publish_if = none;
      operation = some operation;
    })
