-- ===== src/Config.antt =====
-- config.py: the immutable configuration. Reading YAML and converting its values to these types
-- is pydantic's work and is not modelled; every validator of the source is. pydantic collects the
-- errors of several validators: here a rejected document yields the first one.
pub mod Peer
pub mod WireGuard
pub mod Ssh
pub mod Project
use shuttle_gate.Base.{String, ℕ, Bool, Option, List, ltb, if◌then◌else◌, ◌<>◌, ◌||◌, show}
use shuttle_gate.Errors.{Error, value_error, Result, ok, err}
use shuttle_gate.FilePath.{FilePath}
use shuttle_gate.Net.{Address, Interface, Network}

pub record PeerConfig : Type 0 where
  pub name : String
  pub addresses : List Interface
  pub persistent_keepalive_seconds : ℕ

pub record WireGuardConfig : Type 0 where
  pub bind_addresses : List Address
  pub endpoint_host : String
  pub listen_port : ℕ
  pub gateway_addresses : List Interface
  pub mtu : ℕ
  pub peers : List PeerConfig

pub record SshConfig : Type 0 where
  pub host : String
  pub user : String
  pub port : ℕ
  pub identity_file : FilePath
  pub known_hosts_file : FilePath
  pub remote_python : String
  pub connect_timeout_seconds : ℕ
  pub server_alive_interval_seconds : ℕ
  pub server_alive_count_max : ℕ

pub data RoutingMode : Type 0 where
  selected full : RoutingMode

pub record RoutingConfig : Type 0 where
  pub mode : RoutingMode
  pub networks : List Network

pub record DnsConfig : Type 0 where
  pub enabled : Bool
  pub upstream : Option Address

pub record BackendConfig : Type 0 where
  pub mode : String
  pub method : String
  pub startup_timeout_seconds : ℕ
  pub verbose : Bool

pub record ProjectConfig : Type 0 where
  pub version : ℕ
  pub project : String
  pub wireguard : WireGuardConfig
  pub ssh : SshConfig
  pub routing : RoutingConfig
  pub dns : DnsConfig
  pub backend : BackendConfig

-- Field(ge=low, le=high)
unfoldable pub field_in_range : ℕ → ℕ → ℕ → Result (Unit {0})
field_in_range low high n =
    if ltb n low || ltb high n
    then err (value_error ("must be between " <> (show low <> (" and " <> show high))))
    else ok tt
