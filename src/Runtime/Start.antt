-- ===== src/Runtime/Start.antt =====
-- `GatewayRuntime.start` of runtime.py and the steps that it takes.
use shuttle_gate.Base.{
  String, ◌<>◌, ℕ, zero, suc, Bool, true, false, Option, none, some, List, [], ◌∷◌, ◌++◌, map, ◌==◌,
  string_eq, nat_eq, contains, show, if◌then◌else◌,
}
use shuttle_gate.Errors.{
  Error, runtime_failure, transient_runtime_failure, command_error, os_error, Result, ok, err,
}
use shuttle_gate.FilePath.{FilePath, path_text, ◌/◌}
use shuttle_gate.Net.{AddressText, show_interface, Interface}
use shuttle_gate.Files.{InstancePaths}
use shuttle_gate.Config.{ProjectConfig, PeerConfig}
use shuttle_gate.Config.Project.{effective_routes, route_version}
use shuttle_gate.Render.{PeerKeys, render_server_config}
use shuttle_gate.Runtime.Arguments.{
  tproxy_table, interface_name, nft_table, nft_filter, sshuttle_arguments, remote_python_command,
}
use shuttle_gate.Runtime.Machine.{
  Effect, command, make_directory, write_file, clear_notify, open_notify, close_notify, spawn,
  World, Gateway, pure, lift, fail, ◌>>=◌, ◌>>◌, catch, finally, perform, poll_process, receive,
  set_process, get_process, discard,
}
use shuttle_gate.Runtime.Gateway.{
  Keys, family_flag, rule_arguments, run, run_unchecked, run_all, publish_status, cleanup,
}

abbrev pub adapter_failure_exit : ℕ
adapter_failure_exit = 70

abbrev pub nft_check : Effect
nft_check = command true nft_filter ("nft" ∷ "--check" ∷ "--file" ∷ "-" ∷ [])

abbrev pub nft_load : Effect
nft_load = command true nft_filter ("nft" ∷ "--file" ∷ "-" ∷ [])

abbrev pub link_up : List String
link_up = "ip" ∷ "link" ∷ "set" ∷ "dev" ∷ interface_name ∷ "up" ∷ []

-- What a gateway is made with.
pub record Setup : Type 0 where
  pub text : AddressText
  pub executable : String
  pub config : ProjectConfig
  pub paths : InstancePaths
  pub runtime_dir : FilePath
  pub keys : Keys
  pub sysctl_root : Option FilePath

abbrev pub route_families : ProjectConfig → List ℕ
route_families config = map route_version (effective_routes config)

module _ (world : World) (setup : Setup) where
  abbrev pub status : String → Bool → Option String → Gateway (Unit {0})
  status = publish_status world setup.text setup.config setup.keys

  abbrev pub clean_up : Gateway (Unit {0})
  clean_up = cleanup world setup.text setup.config setup.keys

  abbrev pub sysctls : List (String × String)
  sysctls =
      let families = route_families setup.config in
      ("net/ipv4/ip_unprivileged_port_start", "0\n")
      ∷ ((if contains families 4
            then ("net/ipv4/conf/all/src_valid_mark", "0\n")
              ∷ ("net/ipv4/conf/default/src_valid_mark", "0\n")
              ∷ []
            else [])
          ++ (if contains families 6 then ("net/ipv6/bindv6only", "1\n") ∷ [] else []))

  abbrev pub not_configured : String → Error → Gateway (Unit {0})
  not_configured relative (os_error message) =
      fail
        (runtime_failure ("cannot configure namespace sysctl " <> (relative <> (": " <> message))))
  not_configured relative e = fail e

  abbrev pub write_sysctls : FilePath → List (String × String) → Gateway (Unit {0})
  write_sysctls root [] = pure tt
  write_sysctls root (entry ∷ rest) = do
    catch (not_configured entry.0)
        (discard (perform world (write_file (path_text root <> ("/" <> entry.0)) entry.1)))
    write_sysctls root rest

  unfoldable pub configure_namespace : Gateway (Unit {0})
  configure_namespace = elim setup.sysctl_root [
    | none ↦ pure tt
    | some root ↦ write_sysctls root sysctls
  ]

  abbrev pub as_transient : Error → Gateway (Unit {0})
  as_transient (command_error message) = fail (transient_runtime_failure message)
  as_transient e = fail e

  unfoldable pub check_remote_python : Gateway (Unit {0})
  check_remote_python = catch as_transient do
    arguments ← lift (remote_python_command setup.config setup.paths)
    discard (run world arguments)

  abbrev pub add_addresses : List Interface → Gateway (Unit {0})
  add_addresses [] = pure tt
  add_addresses (i ∷ rest) = do
    run world (
        "ip"
        ∷ family_flag i.version
        ∷ "address"
        ∷ "add"
        ∷ show_interface setup.text i
        ∷ "dev"
        ∷ interface_name
        ∷ [])
    add_addresses rest

  -- A peer that is declared twice would keep its last keys; its name is unique.
  abbrev pub load_peers : List PeerConfig → Result PeerKeys
  load_peers [] = ok []
  load_peers (peer ∷ peers) = elim (setup.keys.peer peer.name) [
    | err e ↦ err e
    | ok pair ↦ elim (load_peers peers) [ err e ↦ err e | ok rest ↦ ok ((peer.name, pair) ∷ rest) ]
  ]

  unfoldable pub setup_wireguard : Gateway (Unit {0})
  setup_wireguard = do
    run_unchecked world ("ip" ∷ "link" ∷ "del" ∷ "dev" ∷ interface_name ∷ [])
    run world ("ip" ∷ "link" ∷ "add" ∷ "dev" ∷ interface_name ∷ "type" ∷ "wireguard" ∷ [])
    add_addresses setup.config.wireguard.gateway_addresses
    server ← lift setup.keys.server
    peers ← lift (load_peers setup.config.wireguard.peers)
    private_config ← lift (render_server_config setup.text setup.config server peers)
    perform world (write_file (path_text (setup.runtime_dir / "wireguard.conf")) private_config)
    run world
        ("wg" ∷ "setconf" ∷ interface_name ∷ path_text (setup.runtime_dir / "wireguard.conf") ∷ [])
    run world (
        "ip"
        ∷ "link"
        ∷ "set"
        ∷ "dev"
        ∷ interface_name
        ∷ "mtu"
        ∷ show setup.config.wireguard.mtu
        ∷ [])
    pure tt

  abbrev pub route_family : ℕ → Gateway (Unit {0})
  route_family version = do
    run_unchecked world (rule_arguments "del" (family_flag version))
    run world (
        "ip"
        ∷ family_flag version
        ∷ "route"
        ∷ "replace"
        ∷ "local"
        ∷ "default"
        ∷ "dev"
        ∷ "lo"
        ∷ "table"
        ∷ tproxy_table
        ∷ [])
    run world (rule_arguments "add" (family_flag version))
    pure tt

  abbrev pub route_if : Bool → ℕ → Gateway (Unit {0})
  route_if true version = route_family version
  route_if false version = pure tt

  unfoldable pub setup_policy_routing : Gateway (Unit {0})
  setup_policy_routing = do
    route_if (contains (route_families setup.config) 4) 4
    route_if (contains (route_families setup.config) 6) 6

  abbrev pub startup_failure : ℕ → Gateway (Unit {0})
  startup_failure code =
      let message = "sshuttle exited during startup with status " <> show code in
      fail (
        if code == adapter_failure_exit
        then runtime_failure message
        else transient_runtime_failure message)

  -- The loop until the deadline. `polls` is how many rounds the clock lets it do.
  unfoldable pub await_ready : ℕ → Gateway (Unit {0})
  await_ready zero = fail (
      transient_runtime_failure (
        "sshuttle did not become ready within "
        <> (show setup.config.backend.startup_timeout_seconds <> "s")))
  await_ready (suc polls) = do
    exited ← poll_process world
    elim exited [ some code ↦ startup_failure code | none ↦ receive_next (await_ready polls) ]
    where
      receive_next : Gateway (Unit {0}) → Gateway (Unit {0})
      receive_next again = do ready ← receive world; elim ready [ true ↦ pure tt | false ↦ again ]

  unfoldable pub launch : ℕ → Gateway (Unit {0})
  launch polls = do
    perform world open_notify
    arguments ← lift (sshuttle_arguments setup.text setup.executable setup.config setup.paths)
    perform world (spawn arguments)
    λ m. set_process (some (world.new_pid m.trace)) m
    await_ready polls

  unfoldable pub start_sshuttle : ℕ → Gateway (Unit {0})
  start_sshuttle polls = do
    perform world clear_notify
    finally (discard (perform world close_notify)) (launch polls)

  unfoldable pub activate_wireguard : Gateway (Unit {0})
  activate_wireguard = discard (run world link_up)

  unfoldable pub is_running : Option ℕ → Gateway Bool
  is_running none = pure false
  is_running (some pid) = do
    exited ← poll_process world
    pure (elim exited [ some code ↦ false | none ↦ true ])

  unfoldable pub verify_postconditions : Gateway (Unit {0})
  verify_postconditions = do
    process ← get_process
    running ← is_running process
    elim running [
      | false ↦ fail (runtime_failure "sshuttle is not running after startup")
      | true ↦ run_all world (
          ("ip" ∷ "link" ∷ "show" ∷ "dev" ∷ interface_name ∷ [])
          ∷ ("wg" ∷ "show" ∷ interface_name ∷ "dump" ∷ [])
          ∷ ("nft" ∷ "list" ∷ "table" ∷ "inet" ∷ nft_table ∷ [])
          ∷ [])
    ]

  -- What `start` does under its try.
  unfoldable pub bring_up : ℕ → Gateway (Unit {0})
  bring_up polls = do
    configure_namespace
    check_remote_python
    perform world nft_check
    perform world nft_load
    setup_wireguard
    setup_policy_routing
    start_sshuttle polls
    activate_wireguard
    verify_postconditions
    status "ready" false none

  -- suppress(RuntimeFailure)
  abbrev pub suppressed : Error → Gateway (Unit {0})
  suppressed (runtime_failure message) = pure tt
  suppressed (transient_runtime_failure message) = pure tt
  suppressed e = fail e

  abbrev pub roll_back : Error → Gateway (Unit {0})
  roll_back e = catch suppressed clean_up >> fail e

  unfoldable pub bring_up_or_roll_back : ℕ → Gateway (Unit {0})
  bring_up_or_roll_back polls = catch roll_back (bring_up polls)

  unfoldable pub start : ℕ → Gateway (Unit {0})
  start polls = do
    perform world make_directory
    clean_up
    status "starting" false none
    bring_up_or_roll_back polls
