-- ===== src/Runtime/Arguments.antt =====
-- The command lines and the packet filter of runtime.py.
use shuttle_gate.Base.{
  String, ◌<>◌, ℕ, Bool, true, false, List, [], ◌∷◌, ◌++◌, map, contains, join, show, nat_eq,
  concat_map,
}
use shuttle_gate.Errors.{Result, ok, ◌>>=◌, shell_join}
use shuttle_gate.FilePath.{path_text}
use shuttle_gate.Net.{AddressText, show_network, network, bracketed}
use shuttle_gate.Files.{InstancePaths, mounted_secret_path}
use shuttle_gate.Config.{ProjectConfig}
use shuttle_gate.Config.Peer.{versions}
use shuttle_gate.Config.Project.{effective_routes}
use shuttle_gate.Render.{lines_text}

abbrev pub interface_name : String
interface_name = "wg0"

abbrev pub tproxy_table : String
tproxy_table = "100"

abbrev pub tproxy_mark : String
tproxy_mark = "0x1"

abbrev pub tproxy_priority : String
tproxy_priority = "100"

abbrev pub nft_table : String
nft_table = "shuttle_gate"

unfoldable pub ssh_arguments : ProjectConfig → InstancePaths → Result (List String)
ssh_arguments config paths = do
  identity ← mounted_secret_path paths config.ssh.identity_file
  known_hosts ← mounted_secret_path paths config.ssh.known_hosts_file
  ok (
      "ssh"
      ∷ "-F"
      ∷ "/dev/null"
      ∷ "-p"
      ∷ show config.ssh.port
      ∷ "-i"
      ∷ path_text identity
      ∷ "-o"
      ∷ "BatchMode=yes"
      ∷ "-o"
      ∷ "PasswordAuthentication=no"
      ∷ "-o"
      ∷ "KbdInteractiveAuthentication=no"
      ∷ "-o"
      ∷ "IdentitiesOnly=yes"
      ∷ "-o"
      ∷ "StrictHostKeyChecking=yes"
      ∷ "-o"
      ∷ ("UserKnownHostsFile=" <> path_text known_hosts)
      ∷ "-o"
      ∷ ("ConnectTimeout=" <> show config.ssh.connect_timeout_seconds)
      ∷ "-o"
      ∷ ("ServerAliveInterval=" <> show config.ssh.server_alive_interval_seconds)
      ∷ "-o"
      ∷ ("ServerAliveCountMax=" <> show config.ssh.server_alive_count_max)
      ∷ "-o"
      ∷ "LogLevel=ERROR"
      ∷ [])

unfoldable pub ssh_target : ProjectConfig → String
ssh_target config = config.ssh.user <> ("@" <> config.ssh.host)

unfoldable pub remote_python_command : ProjectConfig → InstancePaths → Result (List String)
remote_python_command config paths = do
  arguments ← ssh_arguments config paths
  ok (arguments ++ ("--" ∷ ssh_target config ∷ remote_command ∷ []))
  where
    remote_command : String
    remote_command = shell_join (
        "sh" ∷ "-c" ∷ "exec \"$1\" -B -c \"$2\"" ∷ "shuttle-gate-python-check"
        ∷ config.ssh.remote_python
        ∷ "import sys;raise SystemExit(0 if sys.version_info>=(3,9) else 3)" ∷ [])

abbrev pub word_if : Bool → List String → List String
word_if true words = words
word_if false words = []

module _ (text : AddressText) (executable : String) where
  unfoldable pub sshuttle_target : ProjectConfig → String
  sshuttle_target config =
      config.ssh.user <> ("@" <> (bracketed text config.ssh.host <> (":" <> show config.ssh.port)))

  -- The listeners, and the multicast networks of the families that the gateway has.
  abbrev pub listeners : List ℕ → List String
  listeners families =
      word_if (contains families 4) ("0.0.0.0:0" ∷ [])
      ++ word_if (contains families 6) ("[::]:0" ∷ [])

  abbrev pub multicast_excludes : List ℕ → List String
  multicast_excludes families =
      word_if (contains families 4)
        ("--exclude" ∷ "224.0.0.0/4" ∷ "--exclude" ∷ "255.255.255.255/32" ∷ [])
      ++ word_if (contains families 6) ("--exclude" ∷ "ff00::/8" ∷ [])

  abbrev pub network_excludes : ProjectConfig → List String
  network_excludes config =
      concat_map (λ i. "--exclude" ∷ show_network text (network i) ∷ [])
        config.wireguard.gateway_addresses

  unfoldable pub sshuttle_arguments : ProjectConfig → InstancePaths → Result (List String)
  sshuttle_arguments config paths = do
    ssh ← ssh_arguments config paths
    ok (
        executable
        ∷ "-m"
        ∷ "shuttle_gate.sshuttle_entry"
        ∷ "--method"
        ∷ "tproxy"
        ∷ "--tmark"
        ∷ tproxy_mark
        ∷ "--listen"
        ∷ join "," (listeners (versions config.wireguard.gateway_addresses))
        ∷ "--remote"
        ∷ sshuttle_target config
        ∷ "--python"
        ∷ config.ssh.remote_python
        ∷ "--ssh-cmd"
        ∷ shell_join ssh
        ∷ (word_if config.backend.verbose ("--verbose" ∷ [])
            ++ (multicast_excludes (versions config.wireguard.gateway_addresses)
                ++ (network_excludes config ++ map (show_network text) (effective_routes config)))))

unfoldable pub nft_filter : String
unfolding lines_text join
nft_filter = lines_text (
    "table inet shuttle_gate {" ∷ "  chain input {"
    ∷ "    type filter hook input priority filter; policy accept;"
    ∷ "    iifname \"wg0\" meta mark != 0x1 counter drop comment \"direct WireGuard access to namespace\""
    ∷ "  }" ∷ "  chain forward {" ∷ "    type filter hook forward priority filter; policy drop;"
    ∷ "    iifname \"wg0\" counter drop comment \"uncaptured WireGuard traffic\""
    ∷ "    counter drop" ∷ "  }" ∷ "}" ∷ [])
