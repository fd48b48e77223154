-- ===== src/Render.antt =====
-- render.py: the configuration files of the server and of the phones.
use shuttle_gate.Base.{
  String, ◌<>◌, Bool, true, false, Option, none, some, List, [], ◌∷◌, ◌++◌, map, ◌==◌, string_eq,
  join, show, if◌then◌else◌,
}
use shuttle_gate.Errors.{key_error, Result, ok, err, ◌>>=◌}
use shuttle_gate.Net.{AddressText, Address, show_interface, show_network, bracketed}
use shuttle_gate.Config.{ProjectConfig, PeerConfig, DnsConfig}
use shuttle_gate.Config.Project.{effective_routes}

-- The public key and the preshared key of each peer, by the peer's name.
abbrev pub PeerKeys : Type 0
PeerKeys = List (String × (String × String))

unfoldable pub peer_key : String → PeerKeys → Result (String × String)
peer_key name [] = err (key_error name)
peer_key name (entry ∷ rest) =
    let later = peer_key name rest in if entry.0 == name then ok entry.1 else later

-- "\n".join(lines) + "\n"
unfoldable pub lines_text : List String → String
lines_text lines = join "\n" lines <> "\n"

module _ (text : AddressText) where
  unfoldable pub endpoint : ProjectConfig → String
  endpoint config =
      bracketed text config.wireguard.endpoint_host <> (":" <> show config.wireguard.listen_port)

  unfoldable pub peer_allowed_routes : ProjectConfig → List String
  peer_allowed_routes config = map (show_network text) (effective_routes config)

  abbrev peer_section : PeerConfig → String × String → List String
  peer_section peer keys =
      ""
      ∷ "[Peer]"
      ∷ ("# " <> peer.name)
      ∷ ("PublicKey = " <> keys.0)
      ∷ ("PresharedKey = " <> keys.1)
      ∷ ("AllowedIPs = " <> join ", " (map (show_interface text) peer.addresses))
      ∷ []

  abbrev peer_sections : PeerKeys → List PeerConfig → Result (List String)
  peer_sections keys [] = ok []
  peer_sections keys (peer ∷ peers) = do
    pair ← peer_key peer.name keys
    rest ← peer_sections keys peers
    ok (peer_section peer pair ++ rest)

  unfoldable pub render_server_config : ProjectConfig → String → PeerKeys → Result String
  render_server_config config private keys = do
    sections ← peer_sections keys config.wireguard.peers
    ok (
        lines_text (
          "[Interface]"
          ∷ ("PrivateKey = " <> private)
          ∷ ("ListenPort = " <> show config.wireguard.listen_port)
          ∷ sections))

  abbrev dns_lines : DnsConfig → List String
  dns_lines dns = by_upstream dns.enabled dns.upstream
    where
      by_upstream : Bool → Option Address → List String
      by_upstream true (some a) = ("DNS = " <> text.show_address a) ∷ []
      by_upstream true none = []
      by_upstream false upstream = []

  unfoldable pub render_phone_config :
      ProjectConfig → PeerConfig → String → String → String → String
  render_phone_config config peer server_public private preshared = lines_text (
      ("[Interface]"
        ∷ ("PrivateKey = " <> private)
        ∷ ("Address = " <> join ", " (map (show_interface text) peer.addresses))
        ∷ dns_lines config.dns)
      ++ (""
          ∷ "[Peer]"
          ∷ ("PublicKey = " <> server_public)
          ∷ ("PresharedKey = " <> preshared)
          ∷ ("Endpoint = " <> endpoint config)
          ∷ ("AllowedIPs = " <> join ", " (peer_allowed_routes config))
          ∷ ("PersistentKeepalive = " <> show peer.persistent_keepalive_seconds)
          ∷ []))

  -- `json_text` is json.dumps of a text, with its quotes.
  unfoldable pub phone_fingerprint :
      (String → String)
      → (String → String)
      → ProjectConfig
      → PeerConfig
      → String
      → String
      → String
      → String
  phone_fingerprint sha256 json_text config peer server_public peer_public preshared = sha256 (
      "{\"addresses\":["
      <> (join "," (map (λ a. json_text (show_interface text a)) peer.addresses)
          <> ("],\"allowed_routes\":["
              <> (join "," (map json_text (peer_allowed_routes config))
                  <> ("],\"dns\":"
                      <> (dns_value config.dns
                          <> (",\"endpoint\":"
                              <> (json_text (endpoint config)
                                  <> (",\"keepalive\":"
                                      <> (show peer.persistent_keepalive_seconds
                                          <> (",\"peer_public_key\":"
                                              <> (json_text peer_public
                                                  <> (",\"preshared_key_digest\":"
                                                      <> (json_text (sha256 preshared)
                                                          <> (",\"server_public_key\":"
                                                            <> (json_text server_public
                                                            <> "}"))))))))))))))))
    where
      by_upstream : Bool → Option Address → String
      by_upstream true (some a) = json_text (text.show_address a)
      by_upstream true none = json_text "None"
      by_upstream false upstream = "null"

      dns_value : DnsConfig → String
      dns_value dns = by_upstream dns.enabled dns.upstream
