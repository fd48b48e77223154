-- ===== src/Tests/Configuration.antt =====
-- A small configuration that is accepted.
use shuttle_gate.Base.{
  String, ◌≡◌, refl, false, none, [], ◌∷◌, any, contains, inl, arith, string_eq, nat_eq, option_eq,
  list_eq,
}
use shuttle_gate.Errors.{ok}
use shuttle_gate.FilePath.{FilePath}
use shuttle_gate.Net.{Interface, AddressText}
use shuttle_gate.Config.{PeerConfig, WireGuardConfig, full, ProjectConfig}
use shuttle_gate.Config.Peer.{
  validate_peer, check_addresses, is_label, IsPeer, validate_peer-IsPeer, versions,
}
use shuttle_gate.Config.WireGuard.Network.{
  validate_network, validate_wireguard, check_gateways, check_peers, check_peer_addresses,
  check_peer_address, gateway_of,
}
use shuttle_gate.Config.WireGuard.Isolation.{IsIsolated, validate_network-IsIsolated}
use shuttle_gate.Config.Project.{
  validate_project, validate_peers, validate_cross_fields, validate_routes, validate_upstream,
  validate_backend, effective_routes,
}
use shuttle_gate.Config.Project.Covered.{
  IsConsistent, validate_project-IsConsistent, effective_routes-full,
}
use shuttle_gate.Config.{field_in_range}
use shuttle_gate.Config.Ssh.{
  validate_ssh, validate_secret_path, is_user, is_python_name, is_python_path, is_below_secrets,
}
use shuttle_gate.Config.WireGuard.Endpoint.{
  validate_bind_scopes, validate_endpoint_host, is_host_name, is_host_label, is_padded_or_long,
  check_scope,
}
use shuttle_gate.Net.{
  network, broadcast_address, in_network, is_multicast, is_unspecified, address_eq,
}
use shuttle_gate.Base.{matches}

abbrev pub text : AddressText
text = record { parse = λ s. none; show_address = λ a. "10.0.0.1" }

-- 10.0.0.1/24 and 10.0.0.2/32
abbrev gateway : Interface
gateway = record { version = 4; value = 167772161; scope = none; prefixlen = 24 }

abbrev pub peer : PeerConfig
peer = record {
  name = "phone";
  addresses = record { version = 4; value = 167772162; scope = none; prefixlen = 32 } ∷ [];
  persistent_keepalive_seconds = 25;
}

abbrev wireguard : WireGuardConfig
wireguard = record {
  bind_addresses = record { version = 4; value = 3232235781; scope = none } ∷ [];
  endpoint_host = "vpn.example.org";
  listen_port = 51820;
  gateway_addresses = gateway ∷ [];
  mtu = 1420;
  peers = peer ∷ [];
}

abbrev secret : String → FilePath
secret name = record { absolute = false; names = "secrets" ∷ name ∷ [] }

abbrev pub config : ProjectConfig
config = record {
  version = 1;
  project = "home";
  wireguard = wireguard;
  ssh = record {
    host = "ssh.example.org";
    user = "gate";
    port = 22;
    identity_file = secret "id";
    known_hosts_file = secret "known_hosts";
    remote_python = "python3";
    connect_timeout_seconds = 10;
    server_alive_interval_seconds = 15;
    server_alive_count_max = 3;
  };
  routing = record { mode = full; networks = [] };
  dns = record { enabled = false; upstream = none };
  backend = record {
    mode = "sshuttle";
    method = "nft-tproxy";
    startup_timeout_seconds = 30;
    verbose = false;
  };
}

peer_accepted : validate_peer peer ≡ ok tt
unfolding validate_peer check_addresses is_label matches nat_eq string_eq field_in_range
peer_accepted = refl

network_accepted : validate_network wireguard ≡ ok tt
unfolding validate_network check_gateways check_peers check_peer_addresses check_peer_address
    gateway_of network broadcast_address in_network is_multicast is_unspecified address_eq option_eq
    nat_eq string_eq
network_accepted = refl

project_accepted : validate_project text config ≡ ok config
unfolding validate_project validate_peers validate_wireguard validate_ssh validate_routes
    validate_upstream validate_backend validate_cross_fields effective_routes is_label matches
    validate_bind_scopes validate_endpoint_host is_host_name is_host_label is_padded_or_long
    check_scope validate_secret_path is_user is_python_name is_python_path is_below_secrets
    field_in_range nat_eq string_eq option_eq
project_accepted = rw (peer_accepted, network_accepted) refl

validate_peer-IsPeer_example : IsPeer peer
validate_peer-IsPeer_example = validate_peer-IsPeer peer peer_accepted

validate_network-IsIsolated_example : IsIsolated wireguard
validate_network-IsIsolated_example = validate_network-IsIsolated wireguard network_accepted

validate_project-IsConsistent_example : (config ≡ config) × IsConsistent config
validate_project-IsConsistent_example = validate_project-IsConsistent text config project_accepted

-- 8.8.8.8 is routed.
effective_routes-full_example :
    any
      (in_network (record { version = 4; value = 134744072; scope = none }))
      (effective_routes config)
    ≡ contains (versions (gateway ∷ [])) 4
unfolding nat_eq
effective_routes-full_example =
    effective_routes-full config (record { version = 4; value = 134744072; scope = none }) refl
      (inl refl) (omega arith)
