-- ===== src/Config/WireGuard/Network.antt =====
-- `WireGuardConfig.validate_network` of config.py
use shuttle_gate.Base.{
  String, ◌<>◌, ℕ, not, ◌||◌, ◌&&◌, List, [], ◌∷◌, Option, none, some, any, map, is_empty, contains,
  is_unique, ◌==◌, nat_eq, string_eq, if◌then◌else◌,
}
use shuttle_gate.Errors.{value_error, Result, ok, err, ◌>>=◌, ◌>>◌, raise_if}
use shuttle_gate.Net.{
  Address, Interface, address_eq, ip, network, broadcast_address, in_network, is_multicast,
  is_unspecified, AddressText,
}
use shuttle_gate.Config.{PeerConfig, WireGuardConfig, field_in_range}
use shuttle_gate.Config.WireGuard.Endpoint.{validate_bind_scopes, validate_endpoint_host}

-- gateways.get(version)
unfoldable pub gateway_of : ℕ → List Interface → Option Interface
gateway_of version [] = none
gateway_of version (g ∷ gateways) =
    if g.version == version then some g else gateway_of version gateways

-- The loop over `gateway_addresses`. `families` holds the IP versions that were seen.
unfoldable pub check_gateways : List ℕ → List Interface → Result (Unit {0})
check_gateways families [] = ok tt
check_gateways families (g ∷ gateways) = do
  raise_if (contains families g.version)
      (value_error "gateway_addresses may contain at most one address per family")
  raise_if (ip g == (network g).network_address)
      (value_error "gateway address is the network address")
  raise_if (is_unspecified (ip g) || is_multicast (ip g))
      (value_error "gateway address must be unicast")
  raise_if (g.version == 4 && ip g == broadcast_address (network g))
      (value_error "gateway address is the broadcast address")
  check_gateways (g.version ∷ families) gateways

module _ (gateways : List Interface) where
  -- The tests on one address of a peer. `seen` is `peer_addresses`.
  unfoldable pub check_peer_address : List Address → String → Interface → Result (Unit {0})
  unfolding gateway_of
  check_peer_address seen name i = do
    raise_if (is_unspecified (ip i) || is_multicast (ip i))
        (value_error ("peer " <> (name <> " address must be unicast")))
    elim (gateway_of i.version gateways) [
      | none ↦ err (value_error ("peer " <> (name <> " has no gateway address of its family")))
      | some gateway ↦ do
        raise_if (not (in_network (ip i) (network gateway)))
            (value_error "peer address is outside gateway network")
        raise_if (contains (map ip gateways) (ip i))
            (value_error ("peer " <> (name <> " reuses a gateway address")))
        raise_if (contains seen (ip i)) (value_error "duplicate peer address")
    ]

  -- The inner loop: the addresses that were seen after it.
  unfoldable pub check_peer_addresses :
      List Address → String → List Interface → Result (List Address)
  check_peer_addresses seen name [] = ok seen
  check_peer_addresses seen name (i ∷ addresses) = do
    check_peer_address seen name i
    check_peer_addresses (ip i ∷ seen) name addresses

  -- The outer loop.
  unfoldable pub check_peers : List String → List Address → List PeerConfig → Result (Unit {0})
  check_peers names seen [] = ok tt
  check_peers names seen (peer ∷ peers) = do
    raise_if (contains names peer.name) (value_error ("duplicate peer name: " <> peer.name))
    seen' ← check_peer_addresses seen peer.name peer.addresses
    check_peers (peer.name ∷ names) seen' peers

unfoldable pub validate_network : WireGuardConfig → Result (Unit {0})
validate_network w = do
  raise_if (is_empty w.bind_addresses) (value_error "bind_addresses must not be empty")
  raise_if (not (is_unique w.bind_addresses)) (value_error "bind_addresses must be unique")
  raise_if (any (λ a. is_unspecified a || is_multicast a) w.bind_addresses)
      (value_error "bind addresses must be explicit unicast addresses")
  raise_if (is_empty w.gateway_addresses) (value_error "gateway_addresses must not be empty")
  raise_if (is_empty w.peers) (value_error "peers must not be empty")
  check_gateways [] w.gateway_addresses
  check_peers w.gateway_addresses [] [] w.peers

module _ (text : AddressText) where
  -- All validators of the class and its fields.
  unfoldable pub validate_wireguard : WireGuardConfig → Result (Unit {0})
  validate_wireguard w = do
    validate_bind_scopes w.bind_addresses
    host ← validate_endpoint_host text w.endpoint_host
    field_in_range 1 65535 w.listen_port
    field_in_range 1280 9000 w.mtu
    validate_network w
