-- ===== src/Runtime/Order/Steps.antt =====
-- The steps of a start, and what each leaves of the trace.
use shuttle_gate.Base.{
  String, ◌<>◌, ℕ, Bool, true, false, Option, none, some, List, [], ◌∷◌, ◌≡◌, refl, string_eq,
  contains, nat_eq, arith,
}
use shuttle_gate.Errors.{Error, command_error, os_error, runtime_failure, Result, ok, err}
use shuttle_gate.Net.{Interface}
use shuttle_gate.FilePath.{FilePath, path_text}
use shuttle_gate.Runtime.Arguments.{remote_python_command, ssh_arguments, interface_name, nft_table}
use shuttle_gate.Runtime.Machine.{
  write_file, Event, Machine, World, pure, lift, fail, ◌>>=◌, discard,
}
use shuttle_gate.Runtime.Gateway.{run_all, run}
use shuttle_gate.Runtime.Start.{
  Setup, configure_namespace, write_sysctls, not_configured, sysctls, check_remote_python,
  as_transient, setup_wireguard, add_addresses, setup_policy_routing, route_family, route_if,
  route_families, verify_postconditions, is_running,
}
use shuttle_gate.Runtime.Order.{activates, is_link_up, Reaches, Traces, Traces-seq, Traces-catch}
use shuttle_gate.Runtime.Order.Quiet.{
  quiet_perform, quiet_pure, quiet_fail, quiet_lift, quiet_discard, quiet_poll, quiet_get,
  quiet_command, quiet_run_all,
}

module _ (world : World) (setup : Setup) (S : List Event → Type 0)
    (keeps : (e : Event) (t : List Event) → activates e.effect ≡ false → S t → S (e ∷ t)) where
  quiet_sysctl_error :
      (relative : String) (e : Error) → Traces S S S (not_configured world setup relative e)
  quiet_sysctl_error relative (os_error s) = quiet_fail world S keeps _
  quiet_sysctl_error relative e = record { runs = λ m h. by_error e m h }
    where
      by_error :
          (e : Error) (m : Machine)
          → S m.trace
          → Reaches S S (not_configured world setup relative e m)
      by_error (os_error s) m h = h
      by_error e m h = h

  quiet_sysctls :
      (root : FilePath) (entries : List (String × String))
      → Traces S S S (write_sysctls world setup root entries)
  unfolding activates
  quiet_sysctls root [] = quiet_pure world S keeps tt
  quiet_sysctls root (entry ∷ rest) =
      Traces-seq
        (Traces-catch
          (quiet_discard world S keeps _ (
            quiet_perform world S keeps (write_file (path_text root <> ("/" <> entry.0)) entry.1)
              refl))
          (quiet_sysctl_error entry.0))
        (λ _. quiet_sysctls root rest)

  pub quiet_configure : Traces S S S (configure_namespace world setup)
  unfolding configure_namespace
  quiet_configure = by_root setup.sysctl_root
    where
      by_root :
          (root : Option FilePath)
          → Traces S S S (elim root [
            | none ↦ pure tt
            | some root ↦ write_sysctls world setup root (sysctls world setup)
          ])
      by_root none = quiet_pure world S keeps tt
      by_root (some root) = quiet_sysctls root (sysctls world setup)

  quiet_addresses :
      (interfaces : List Interface) → Traces S S S (add_addresses world setup interfaces)
  quiet_addresses [] = quiet_pure world S keeps tt
  quiet_addresses (i ∷ rest) =
      Traces-seq (quiet_command world S keeps true _ refl) (λ _. quiet_addresses rest)

  pub quiet_wireguard : Traces S S S (setup_wireguard world setup)
  unfolding setup_wireguard activates string_eq
  quiet_wireguard = Traces-seq (quiet_command world S keeps false _ refl) λ _.
      Traces-seq (quiet_command world S keeps true _ refl) λ _.
        Traces-seq (quiet_addresses setup.config.wireguard.gateway_addresses) λ _.
          Traces-seq (quiet_lift world S keeps _) λ server.
            Traces-seq (quiet_lift world S keeps _) λ peers.
              Traces-seq (quiet_lift world S keeps _) λ private_config.
                Traces-seq (quiet_perform world S keeps _ refl) λ _.
                  Traces-seq (quiet_command world S keeps true _ refl) λ _.
                    Traces-seq (quiet_command world S keeps true _ refl)
                      λ _. quiet_pure world S keeps tt

  quiet_route : (version : ℕ) → Traces S S S (route_family world setup version)
  quiet_route version = Traces-seq (quiet_command world S keeps false _ refl) λ _.
      Traces-seq (quiet_command world S keeps true _ refl)
        λ _. Traces-seq (quiet_command world S keeps true _ refl) λ _. quiet_pure world S keeps tt

  quiet_route_if : (b : Bool) (version : ℕ) → Traces S S S (route_if world setup b version)
  quiet_route_if true version = quiet_route version
  quiet_route_if false version = quiet_pure world S keeps tt

  pub quiet_routing : Traces S S S (setup_policy_routing world setup)
  unfolding setup_policy_routing
  quiet_routing =
      Traces-seq (quiet_route_if (contains (route_families setup.config) 4) 4)
        (λ _. quiet_route_if (contains (route_families setup.config) 6) 6)

  quiet_running : (p : Option ℕ) → Traces S S S (is_running world setup p)
  unfolding is_running
  quiet_running none = quiet_pure world S keeps false
  quiet_running (some pid) =
      Traces-seq (quiet_poll world S keeps) (λ exited. quiet_pure world S keeps _)

  pub quiet_verify : Traces S S S (verify_postconditions world setup)
  unfolding verify_postconditions string_eq
  quiet_verify =
      Traces-seq (quiet_get world S keeps)
        λ process. Traces-seq (quiet_running process) λ running. by_running running
    where
      by_running :
          (running : Bool)
          → Traces {A = Unit {0}} S S S (elim running [
            | false ↦ fail (runtime_failure "sshuttle is not running after startup")
            | true ↦ run_all world (
                ("ip" ∷ "link" ∷ "show" ∷ "dev" ∷ interface_name ∷ [])
                ∷ ("wg" ∷ "show" ∷ interface_name ∷ "dump" ∷ [])
                ∷ ("nft" ∷ "list" ∷ "table" ∷ "inet" ∷ nft_table ∷ [])
                ∷ [])
          ])
      by_running false = quiet_fail world S keeps _
      by_running true =
          quiet_run_all world S keeps
            (("ip" ∷ "link" ∷ "show" ∷ "dev" ∷ interface_name ∷ [])
              ∷ ("wg" ∷ "show" ∷ interface_name ∷ "dump" ∷ [])
              ∷ ("nft" ∷ "list" ∷ "table" ∷ "inet" ∷ nft_table ∷ [])
              ∷ [])
            (refl, (refl, (refl, tt)))

  quiet_transient : (e : Error) → Traces S S S (as_transient world setup e)
  quiet_transient e = record { runs = λ m h. by_error e m h }
    where
      by_error : (e : Error) (m : Machine) → S m.trace → Reaches S S (as_transient world setup e m)
      by_error (command_error s) m h = h
      by_error e m h = h

  -- The remote check runs a command that begins with "ssh".
  remote_arguments_lem :
      (arguments : List String)
      → remote_python_command setup.config setup.paths ≡ ok arguments
      → is_link_up arguments ≡ false
  unfolding remote_python_command ssh_arguments
  remote_arguments_lem arguments h = ground arith

  run_lifted :
      (r : Result (List String))
      → ((a : List String) → r ≡ ok a → is_link_up a ≡ false)
      → Traces S S S (lift r >>= λ a. discard (run world a))
  unfolding ◌>>=◌
  run_lifted (ok a) h = record {
    runs = (quiet_discard world S keeps _ (quiet_command world S keeps true a (h a refl))).runs;
  }
  run_lifted (err e) h = record { runs = λ m k. k }

  pub quiet_remote : Traces S S S (check_remote_python world setup)
  unfolding check_remote_python
  quiet_remote =
      Traces-catch
        (run_lifted (remote_python_command setup.config setup.paths) remote_arguments_lem)
        quiet_transient
