-- ===== src/KeyState/Listing.antt =====
-- `peer_rows` of keys.py: what `peer list` shows.
use shuttle_gate.Base.{String, ℕ, Bool, true, false, Option, none, some, List, [], ◌∷◌, ◌&&◌}
use shuttle_gate.Errors.{state_error, Result, ok, err, ◌>>=◌}
use shuttle_gate.Net.{AddressText}
use shuttle_gate.Config.{ProjectConfig, PeerConfig}
use shuttle_gate.SshKey.{StoredFile}
use shuttle_gate.State.{Generation, StateDisk, locked_state_view}
use shuttle_gate.KeyState.{
  ServerDirectory, FingerprintFile, Peers, Snapshot, Status, peers_of, peer_dir, peer_key_status,
}
use shuttle_gate.KeyState.Phone.{require_selected_phone_configs}

pub data PhoneState : Type 0 where
  no_config stale current : PhoneState

abbrev is_file : Option StoredFile → Bool
is_file none = false
is_file (some f) = f.regular

abbrev has_fingerprint : Option FingerprintFile → Bool
has_fingerprint none = false
has_fingerprint (some f) = f.file.regular

-- `except StateError`: another exception passes.
abbrev by_test : Result (Unit {0}) → Result PhoneState
by_test (ok u) = ok current
by_test (err (state_error message)) = ok stale
by_test (err e) = err e

module _ (addresses : AddressText) (sha256 json_text : String → String)
    (decoded_length : String → Option ℕ) where
  unfoldable pub phone_state : ProjectConfig → Snapshot → PeerConfig → Result PhoneState
  unfolding require_selected_phone_configs peer_dir
  phone_state config s peer =
      let d = peer_dir peer.name (peers_of s) in
      elim (is_file d.phone_config && has_fingerprint d.fingerprint) [
        | false ↦ ok no_config
        | true ↦ by_test (
            require_selected_phone_configs addresses sha256 json_text decoded_length config s
              (peer ∷ []))
      ]

  unfoldable pub rows_of :
      ProjectConfig → Snapshot → List PeerConfig → Result (List (String × Status × PhoneState))
  unfolding phone_state peer_key_status peer_dir
  rows_of config s [] = ok []
  rows_of config s (peer ∷ peers) = do
    phone ← phone_state config s peer
    rows ← rows_of config s peers
    ok ((peer.name, peer_key_status (peer_dir peer.name (peers_of s)), phone) ∷ rows)

  abbrev viewed : Option (String × Generation ServerDirectory Peers) → Snapshot
  viewed none = record { server = none; peers = none }
  viewed (some (name, g)) = g.tree

  -- `read_state` with `required=False`: with no generation, nothing is there.
  unfoldable pub peer_rows :
      ProjectConfig → StateDisk ServerDirectory Peers → Result (List (String × Status × PhoneState))
  unfolding locked_state_view rows_of
  peer_rows config d = do
    active ← locked_state_view false d
    rows_of config (viewed active) config.wireguard.peers
