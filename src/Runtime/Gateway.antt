-- ===== src/Runtime/Gateway.antt =====
-- The status file and the clean-up of `GatewayRuntime` in runtime.py.
use shuttle_gate.Base.{
  String, ℕ, zero, suc, Bool, true, false, Option, none, some, List, [], ◌∷◌, ◌++◌, map, ◌==◌,
  string_eq, nat_eq, if◌then◌else◌, concat_map,
}
use shuttle_gate.Errors.{Error, runtime_failure, os_error, timeout_expired, Result, ok, err}
use shuttle_gate.Net.{AddressText, show_network}
use shuttle_gate.Config.{ProjectConfig, PeerConfig}
use shuttle_gate.Config.Project.{effective_routes}
use shuttle_gate.Runtime.Arguments.{
  tproxy_table, tproxy_mark, tproxy_priority, nft_table, interface_name,
}
use shuttle_gate.Runtime.PeerStatus.{PeerNames, PeerRow, read_dump}
use shuttle_gate.Runtime.Machine.{
  Status, command, write_status, terminate, kill, wait, World, Gateway, pure, lift, fail, ◌>>=◌,
  ◌>>◌, catch, perform, poll_process, set_process, get_process, discard,
}

-- The keys of the locked state: the server's private key, and a peer's public and preshared key.
pub record Keys : Type 0 where
  pub server : Result String
  pub peer : String → Result (String × String)

abbrev pub family_flag : ℕ → String
family_flag version = if version == 6 then "-6" else "-4"

abbrev pub rule_arguments : String → String → List String
rule_arguments action flag =
    "ip" ∷ flag ∷ "rule" ∷ action ∷ "fwmark" ∷ tproxy_mark ∷ "lookup" ∷ tproxy_table ∷ "priority"
    ∷ tproxy_priority ∷ []

abbrev clip : ℕ → String → String
clip zero s = ""
clip (suc n) String.[] = ""
clip (suc n) (String.◌∷◌ c s) = String.◌∷◌ c (clip n s)

-- error[:4096]
abbrev clip_error : Option String → Option String
clip_error none = none
clip_error (some error) = some (clip 4096 error)

-- The commands of the clean-up, in their order.
abbrev pub cleanup_commands : List (List String)
cleanup_commands =
    ("nft" ∷ "delete" ∷ "table" ∷ "inet" ∷ nft_table ∷ [])
    ∷ (concat_map
          (λ flag.
            rule_arguments "del" flag
            ∷ ("ip" ∷ flag ∷ "route" ∷ "flush" ∷ "table" ∷ tproxy_table ∷ [])
            ∷ [])
          ("-6" ∷ "-4" ∷ [])
        ++ ("ip" ∷ "link" ∷ "del" ∷ "dev" ∷ interface_name ∷ []) ∷ [])

module _ (world : World) where
  abbrev pub run : List String → Gateway String
  run arguments = perform world (command true "" arguments)

  abbrev pub run_unchecked : List String → Gateway String
  run_unchecked arguments = perform world (command false "" arguments)

  abbrev pub run_all : List (List String) → Gateway (Unit {0})
  run_all [] = pure tt
  run_all (arguments ∷ rest) = run arguments >> run_all rest

  -- `except subprocess.TimeoutExpired`; any other exception passes.
  abbrev pub kill_late : Error → Gateway (Unit {0})
  kill_late (timeout_expired message) = discard (perform world kill >> perform world wait)
  kill_late e = fail e

  unfoldable pub stop_process : Option ℕ → Gateway (Unit {0})
  stop_process none = pure tt
  stop_process (some pid) = do
    status ← poll_process world
    elim status [ some code ↦ pure tt | none ↦ stop_running ]
    where
      stop_running : Gateway (Unit {0})
      stop_running = do perform world terminate; catch kill_late (discard (perform world wait))

  -- Runs an effect of the clean-up; a failure joins the earlier ones.
  unfoldable pub collect : Gateway (Unit {0}) → List Error → Gateway (List Error)
  collect g failures = catch (λ e. pure (failures ++ e ∷ [])) (g >>= λ _. pure failures)

  unfoldable pub collect_all : List (List String) → List Error → Gateway (List Error)
  unfolding collect
  collect_all [] failures = pure failures
  collect_all (arguments ∷ rest) failures = do
    more ← collect (discard (run_unchecked arguments)) failures
    collect_all rest more

  module _ (text : AddressText) (config : ProjectConfig) (keys : Keys) where
    abbrev peer_names : List PeerConfig → Result PeerNames
    peer_names [] = ok []
    peer_names (peer ∷ peers) = elim (keys.peer peer.name) [
      | err e ↦ err e
      | ok pair ↦ elim (peer_names peers) [
        | err e ↦ err e
        | ok rest ↦ ok ((pair.0, peer.name) ∷ rest)
      ]
    ]

    unfoldable pub peer_status : Gateway (List PeerRow)
    peer_status = do
      names ← lift (peer_names config.wireguard.peers)
      output ← run ("wg" ∷ "show" ∷ interface_name ∷ "dump" ∷ [])
      lift (read_dump names output)

    -- `except OSError: if not ignore_errors: raise`
    abbrev pub ignoring : Bool → Error → Gateway (Unit {0})
    ignoring true (os_error message) = pure tt
    ignoring ignore_errors e = fail e

    abbrev pub status_of : String → Option String → Option ℕ → List PeerRow → Status
    status_of state error pid peers = record {
      state = state;
      health = if state == "ready" then "ok" else "degraded";
      pid = pid;
      routes = map (show_network text) (effective_routes config);
      peers = peers;
      error = clip_error error;
    }

    unfoldable pub publish_status : String → Bool → Option String → Gateway (Unit {0})
    publish_status state ignore_errors error = do
      pid ← get_process
      peers ← elim (state == "ready") [ true ↦ peer_status | false ↦ pure [] ]
      catch (ignoring ignore_errors)
          (discard (perform world (write_status (status_of state error pid peers))))

    abbrev pub incomplete : List Error → Gateway (Unit {0})
    incomplete [] = pure tt
    incomplete (e ∷ failures) =
        fail (runtime_failure "cleanup was incomplete; namespace destruction is the final boundary")

    unfoldable pub cleanup : Gateway (Unit {0})
    cleanup = do
      publish_status "stopping" true none
      process ← get_process
      failures ← collect (stop_process process) []
      set_process none
      all_failures ← collect_all cleanup_commands failures
      incomplete all_failures
