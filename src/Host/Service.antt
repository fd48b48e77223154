-- ===== src/Host/Service.antt =====
-- `pasta_command`, `socket_claim_paths` and `systemd_run_command` of host.py. The program paths
-- are what `_command` finds.
use shuttle_gate.Base.{
  String, ◌<>◌, ℕ, Option, none, some, List, [], ◌∷◌, ◌++◌, map, concat_map, show,
}
use shuttle_gate.FilePath.{FilePath, path_text, ◌/◌, parent}
use shuttle_gate.FilePath.Sorted.{sorted_set}
use shuttle_gate.Net.{Address, AddressText}
use shuttle_gate.Config.{ProjectConfig}
use shuttle_gate.Host.Sandbox.{RuntimePaths}

unfoldable pub pasta_command :
    AddressText → String → List String → Option ProjectConfig → List String
pasta_command text pasta inner config =
    pasta
    ∷ "--quiet"
    ∷ "--foreground"
    ∷ "--tcp-ports"
    ∷ "none"
    ∷ "--tcp-ns"
    ∷ "none"
    ∷ "--udp-ns"
    ∷ "none"
    ∷ "--dns"
    ∷ "none"
    ∷ "--search"
    ∷ "none"
    ∷ "--no-map-gw"
    ∷ "--config-net"
    ∷ (udp_ports config ++ "--" ∷ inner)
  where
    udp_ports : Option ProjectConfig → List String
    udp_ports none = "--udp-ports" ∷ "none" ∷ []
    udp_ports (some c) =
        concat_map
          (λ a. "--udp-ports" ∷ (text.show_address a <> ("/" <> show c.wireguard.listen_port)) ∷ [])
          c.wireguard.bind_addresses

-- The text whose SHA-256 names the lock file of one UDP socket.
abbrev socket_text : AddressText → ℕ → Address → String
socket_text text port a =
    "udp\0" <> (show a.version <> ("\0" <> (text.show_address a <> ("\0" <> show port))))

unfoldable pub socket_claim_paths :
    AddressText → (String → String) → RuntimePaths → ProjectConfig → List FilePath
socket_claim_paths text sha256 paths config = sorted_set (
    map
      (λ a.
        parent paths.root
        / "claims"
        / (sha256 (socket_text text config.wireguard.listen_port a) <> ".lock"))
      config.wireguard.bind_addresses)

unfoldable pub systemd_run_command : String → String → List String → Option FilePath → List String
systemd_run_command systemd_run unit_name inner python_path =
    systemd_run
    ∷ "--user"
    ∷ ("--unit=" <> unit_name)
    ∷ "--collect"
    ∷ "--service-type=exec"
    ∷ "--expand-environment=no"
    ∷ "--property=KillMode=control-group"
    ∷ "--property=LimitNOFILE=65536"
    ∷ "--property=NoNewPrivileges=yes"
    ∷ "--property=TasksMax=256"
    ∷ "--property=TimeoutStopSec=20s"
    ∷ "--property=UMask=0077"
    ∷ "--property=Restart=no"
    ∷ "--property=RestartForceExitStatus=75"
    ∷ "--property=RestartSec=5s"
    ∷ "--property=StartLimitIntervalSec=60s"
    ∷ "--property=StartLimitBurst=3"
    ∷ "--description=Rootless shuttle-gate gateway"
    ∷ (environment python_path ++ "--" ∷ inner)
  where
    environment : Option FilePath → List String
    environment none = []
    environment (some p) = ("--setenv=PYTHONPATH=" <> path_text p) ∷ []
