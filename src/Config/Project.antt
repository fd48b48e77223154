-- ===== src/Config/Project.antt =====
-- `RoutingConfig`, `DNSConfig`, `BackendConfig`, `ProjectConfig` and `effective_routes` of config.py
pub mod Covered
use shuttle_gate.Base.{
  String, ◌<>◌, ℕ, Bool, true, false, not, ◌||◌, ◌&&◌, List, [], ◌∷◌, ◌++◌, Option, none, some, any,
  all, map, contains, is_unique, is_empty, keep, ◌==◌, ◌!=◌, nat_eq, string_eq, if◌then◌else◌, join,
}
use shuttle_gate.Errors.{Error, value_error, Result, ok, err, ◌>>=◌, ◌>>◌, raise_if, run_if}
use shuttle_gate.Net.{
  Address, AddressText, Interface, Network, network_eq, network, in_network, is_multicast,
  is_unspecified, broadcast_address,
}
use shuttle_gate.Config.{
  PeerConfig, WireGuardConfig, RoutingMode, selected, full, RoutingConfig, DnsConfig, BackendConfig,
  ProjectConfig, field_in_range,
}
use shuttle_gate.Config.Peer.{validate_peer, is_label, versions}
use shuttle_gate.Config.WireGuard.Network.{validate_wireguard}
use shuttle_gate.Config.Ssh.{validate_ssh}

abbrev pub route_version : Network → ℕ
route_version r = r.network_address.version

abbrev is_entirely_multicast : Network → Bool
is_entirely_multicast r = is_multicast r.network_address && is_multicast (broadcast_address r)

unfoldable pub validate_routes : RoutingConfig → Result (Unit {0})
validate_routes r = by_mode r.mode
  where
    by_mode : RoutingMode → Result (Unit {0})
    by_mode selected = do
      raise_if (is_empty r.networks) (value_error "selected routing requires at least one network")
      raise_if (not (is_unique r.networks)) (value_error "routing networks must be unique")
      raise_if (any is_entirely_multicast r.networks)
          (value_error "selected routing networks must not be entirely multicast")
    by_mode full =
        raise_if (not (is_empty r.networks))
          (value_error "full routing derives default routes; networks must be omitted")

unfoldable pub validate_upstream : DnsConfig → Result (Unit {0})
validate_upstream d = by_upstream d.upstream
  where
    by_upstream : Option Address → Result (Unit {0})
    by_upstream none = raise_if d.enabled (value_error "enabled DNS requires one explicit upstream")
    by_upstream (some upstream) = do
      raise_if (not d.enabled) (value_error "disabled DNS must not define an upstream")
      raise_if (is_unspecified upstream || is_multicast upstream)
          (value_error "DNS upstream must be an explicit unicast address")

unfoldable pub validate_backend : BackendConfig → Result (Unit {0})
validate_backend b = do
  field_in_range 5 300 b.startup_timeout_seconds
  raise_if (b.mode != "sshuttle" || b.method != "nft-tproxy")
      (value_error "only sshuttle with the native nft-tproxy method is supported")

-- 0.0.0.0/0 and ::/0
abbrev pub default_route : ℕ → Network
default_route version = record {
  network_address = record { version = version; value = 0; scope = none };
  prefixlen = 0;
}

abbrev default_if : Bool → ℕ → List Network
default_if true version = default_route version ∷ []
default_if false version = []

unfoldable pub effective_routes : ProjectConfig → List Network
effective_routes config = by_mode config.routing.mode
  where
    by_mode : RoutingMode → List Network
    by_mode selected = config.routing.networks
    by_mode full =
        let families = versions config.wireguard.gateway_addresses in
        default_if (contains families 4) 4 ++ default_if (contains families 6) 6

abbrev lacks : ℕ → PeerConfig → Bool
lacks family peer = all (λ i. i.version != family) peer.addresses

-- The tests on an enabled DNS upstream.
unfoldable pub check_upstream : ProjectConfig → Address → Result (Unit {0})
check_upstream config upstream = do
  raise_if (any (λ g. upstream.version == g.version && in_network upstream (network g)) gateways)
      (value_error "DNS upstream must be outside WireGuard gateway networks")
  raise_if (not (any (λ r. route_version r == upstream.version && in_network upstream r) routes))
      (value_error "DNS upstream is not covered by configured routing")
  raise_if (any (lacks upstream.version) peers) (
      value_error (
        "DNS upstream family, but peers lack it: "
        <> join ", " (map (λ p. p.name) (keep (lacks upstream.version) peers))))
  where
    gateways : List Interface
    gateways = config.wireguard.gateway_addresses

    routes : List Network
    routes = effective_routes config

    peers : List PeerConfig
    peers = config.wireguard.peers

unfoldable pub validate_cross_fields : ProjectConfig → Result (Unit {0})
unfolding check_upstream
validate_cross_fields config = do
  raise_if
      (any (λ r. not (contains (versions config.wireguard.gateway_addresses) (route_version r)))
        (effective_routes config))
      (value_error "routing uses a family without a WireGuard gateway address")
  elim config.dns.upstream [
    | none ↦ ok tt
    | some upstream ↦ run_if config.dns.enabled (check_upstream config upstream)
  ]

unfoldable pub validate_peers : List PeerConfig → Result (Unit {0})
validate_peers [] = ok tt
validate_peers (peer ∷ peers) = do validate_peer peer; validate_peers peers

module _ (text : AddressText) where
  -- ProjectConfig.model_validate, on values of the fields' types
  unfoldable pub validate_project : ProjectConfig → Result ProjectConfig
  validate_project config = do
    raise_if (config.version != 1) (value_error "unsupported configuration version; expected 1")
    raise_if (not (is_label config.project)) (value_error "must match [a-z][a-z0-9-]{0,62}")
    validate_peers config.wireguard.peers
    validate_wireguard text config.wireguard
    validate_ssh text config.ssh
    validate_routes config.routing
    validate_upstream config.dns
    validate_backend config.backend
    validate_cross_fields config
    ok config
