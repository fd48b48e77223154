-- ===== src/Tests/Lifecycle.antt =====
-- A gateway whose commands fail, and one without failures; a command line of `logs`.
use shuttle_gate.Base.{String, ◌≡◌, true, false, Option, none, some, List, [], ◌⊎◌}
use shuttle_gate.Errors.{Error, Result, ok, err, os_error, command_error, timeout_expired}
use shuttle_gate.FilePath.{FilePath}
use shuttle_gate.Runtime.Machine.{Effect, write_status, terminate, kill, wait, Machine, World}
use shuttle_gate.Runtime.Gateway.{Keys, cleanup}
use shuttle_gate.Runtime.Start.{Setup, start, bring_up, bring_up_or_roll_back}
use shuttle_gate.Runtime.Cleanup.{IsAborted, IsComplete, cleanup_completes}
use shuttle_gate.Runtime.Rollback.{IsRolledBack, bring_up_rolls_back}
use shuttle_gate.Runtime.Order.{IsGuarded}
use shuttle_gate.Runtime.Order.Activation.{start_activates_last}
use shuttle_gate.Base.{string_eq, nat_eq, ◌∷◌, refl}
use shuttle_gate.Host.Logs.{read_options, word_of, validated_tail}
use shuttle_gate.Host.Logs.Bounded.{IsChosen, read_options_bounded}
use shuttle_gate.Tests.Configuration.{config, text}

-- Commands fail, the status cannot be written, and sshuttle does not end in time.
abbrev failing : World
failing = record {
  answer = λ t. failed;
  exit_status = λ t. none;
  is_ready = λ t. false;
  new_pid = λ t. 7;
}
  where
    failed : Effect → Result String
    failed (write_status s) = err (os_error "read-only")
    failed terminate = ok ""
    failed kill = ok ""
    failed wait = err (timeout_expired "5 seconds")
    failed e = err (command_error "failed")

-- All is well.
abbrev working : World
working = record {
  answer = λ t e. ok "";
  exit_status = λ t. none;
  is_ready = λ t. true;
  new_pid = λ t. 7;
}

abbrev keys : Keys
keys = record { server = ok "private"; peer = λ name. ok ("public", "preshared") }

abbrev root : FilePath
root = record { absolute = true; names = [] }

abbrev setup : Setup
setup = record {
  text = text;
  executable = "/usr/bin/python3";
  config = config;
  paths = record { root = root; config = root; state = root; secrets = root };
  runtime_dir = root;
  keys = keys;
  sysctl_root = none;
}

-- sshuttle runs as process 7.
abbrev running : Machine
running = record { trace = []; sshuttle = some 7 }

cleanup_completes_example :
    ((e : Error) × IsAborted failing text config keys e running
        (cleanup failing text config keys running))
    ⊎ IsComplete failing text config keys running (cleanup failing text config keys running)
cleanup_completes_example = cleanup_completes failing text config keys running

bring_up_rolls_back_example :
    (((bring_up failing setup 3 running).result ≡ ok tt)
      × (bring_up_or_roll_back failing setup 3 running ≡ bring_up failing setup 3 running))
    ⊎ ((e : Error) × ((bring_up failing setup 3 running).result ≡ err e)
        × IsRolledBack failing setup e
            (bring_up failing setup 3 running).machine
            (bring_up_or_roll_back failing setup 3 running))
bring_up_rolls_back_example = bring_up_rolls_back failing setup 3 running

start_activates_last_example :
    IsGuarded (start working setup 2 (record { trace = []; sshuttle = none })).machine.trace
start_activates_last_example = start_activates_last working setup 2

-- logs --tail=250 -f
abbrev words : List String
words = "--tail=250" ∷ "-f" ∷ []

abbrev chosen : Option String
chosen = some "250"

read_options_bounded_example : IsChosen words chosen
unfolding read_options word_of validated_tail string_eq nat_eq
read_options_bounded_example =
    read_options_bounded words {o = record { follow = true; timestamps = false; tail = chosen }}
      refl
