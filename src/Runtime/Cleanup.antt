-- ===== src/Runtime/Cleanup.antt =====
-- `GatewayRuntime.cleanup` of runtime.py: what becomes of the process, and which commands run.
pub mod Stop
use shuttle_gate.Base.{
  String, Bool, true, false, Option, none, List, [], ◌∷◌, ◌++◌, ◌≡◌, ◌≢◌, refl, ap, ◌∙◌, map,
  string_eq, ◌⊎◌, inl, inr,
}
use shuttle_gate.Errors.{Error, runtime_failure, os_error, Result, ok, err}
use shuttle_gate.Net.{AddressText}
use shuttle_gate.Config.{ProjectConfig}
use shuttle_gate.Runtime.Machine.{
  Effect, Event, command, write_status, Status, Machine, World, After, Gateway, pure, ◌>>=◌, catch,
  perform, set_process, get_process, discard, recover_by, continue, happens, is_ok,
}
use shuttle_gate.Runtime.Gateway.{
  Keys, cleanup, cleanup_commands, collect, collect_all, stop_process, publish_status, ignoring,
  incomplete, run_unchecked, status_of,
}
use shuttle_gate.Runtime.Cleanup.Stop.{IsStopped, HasEnded, StopRun, stop_run}

abbrev pub effects : List Event → List Effect
effects = map (λ e. e.effect)

-- The trace after these commands were issued, the newest first.
abbrev pub issued : List (List String) → List Effect → List Effect
issued [] t = t
issued (arguments ∷ rest) t = issued rest (command false "" arguments ∷ t)

not-snoc-nil : {A : Type 0} {B : Type 0} (l : List A) (x : A) → l ++ x ∷ [] ≡ [] → B
not-snoc-nil [] x h = cc
not-snoc-nil (y ∷ l) x h = cc

module _ (world : World) where
  -- The failures of some commands, which come after the earlier ones.
  record IsCollected (commands : List (List String)) (earlier : List Error) (m : Machine)
      (r : After (List Error)) : Type 0 where
    pub failures : List Error
    pub result : r.result ≡ ok failures
    pub kept : failures ≡ [] → earlier ≡ []
    pub trace : effects r.machine.trace ≡ issued commands (effects m.trace)
    pub sshuttle : r.machine.sshuttle ≡ m.sshuttle

  collect_one :
      (arguments : List String) (earlier : List Error) (m : Machine)
      → IsCollected
          (arguments ∷ [])
          earlier
          m
          (collect world (discard (run_unchecked world arguments)) earlier m)
  unfolding collect perform catch ◌>>=◌
  collect_one arguments earlier m =
      by_answer (world.answer m.trace (command false "" arguments)) refl
    where
      by_answer :
          (r : Result String)
          → world.answer m.trace (command false "" arguments) ≡ r
          → IsCollected
              (arguments ∷ [])
              earlier
              m
              (collect world (discard (run_unchecked world arguments)) earlier m)
      by_answer (ok s) e = rw e (record {
        failures = earlier;
        result = refl;
        kept = λ h. h;
        trace = refl;
        sshuttle = refl;
      })
      by_answer (err x) e = rw e (record {
        failures = earlier ++ x ∷ [];
        result = refl;
        kept = not-snoc-nil earlier x;
        trace = refl;
        sshuttle = refl;
      })

  collect_all_lem :
      (commands : List (List String)) (earlier : List Error) (m : Machine)
      → IsCollected commands earlier m (collect_all world commands earlier m)
  unfolding collect_all ◌>>=◌
  collect_all_lem [] earlier m = record {
    failures = earlier;
    result = refl;
    kept = λ h. h;
    trace = refl;
    sshuttle = refl;
  }
  collect_all_lem (arguments ∷ rest) earlier m =
      let one = collect_one arguments earlier m in
      let more =
        collect_all_lem rest one.failures
          (collect world (discard (run_unchecked world arguments)) earlier m).machine in
      rw one.result (record {
        failures = more.failures;
        result = more.result;
        kept = λ h. one.kept (more.kept h);
        trace = more.trace ∙ ap (issued rest) one.trace;
        sshuttle = more.sshuttle ∙ one.sshuttle;
      })

  -- A failure to stop the process is collected.
  collect_stop :
      (g : Gateway (Unit {0})) (m : Machine)
      → (more : List Error) × (collect world g [] m
          ≡ record { result = ok more; machine = (g m).machine })
        × (more ≡ [] → (g m).result ≡ ok tt)
  unfolding collect catch ◌>>=◌
  collect_stop g m = by_result (g m).result (g m).machine
    where
      by_result :
          (r : Result (Unit {0})) (after : Machine)
          → (more : List Error) × (recover_by
                (continue r (λ _. pure {A = List Error} []) after).result
                (λ e. pure (e ∷ []))
                (continue r (λ _. pure {A = List Error} []) after).machine
              ≡ record { result = ok more; machine = after })
            × (more ≡ [] → r ≡ ok tt)
      by_result (ok u) after = ([], refl, λ h. refl)
      by_result (err e) after = (e ∷ [], refl, λ h. cc)

  module _ (text : AddressText) (config : ProjectConfig) (keys : Keys) where
    -- The status that the clean-up publishes.
    abbrev pub stopping : Machine → Status
    stopping m = status_of world text config keys "stopping" none m.sshuttle []

    -- The status raised an exception other than OSError, and nothing else was done.
    pub record IsAborted (e : Error) (m : Machine) (r : After (Unit {0})) : Type 0 where
      pub answer : world.answer m.trace (write_status (stopping m)) ≡ err e
      pub other : (message : String) → e ≢ os_error message
      pub result : r.result ≡ err e
      pub machine : r.machine ≡ happens (write_status (stopping m)) false m

    -- The process was dealt with, and every command was issued after that, whatever failed.
    pub record IsCleaned (m after : Machine) : Type 0 where
      pub written : Bool
      pub stopped : List Event
      pub stop :
          IsStopped world (happens (write_status (stopping m)) written m).trace m.sshuttle stopped
      pub commands : effects after.trace ≡ issued cleanup_commands (effects stopped)
      pub sshuttle : after.sshuttle ≡ none

    -- A clean-up that went through: it returns only if the process has ended.
    pub record IsComplete (m : Machine) (r : After (Unit {0})) : Type 0 where
      pub cleaned : IsCleaned m r.machine
      pub result :
          ((r.result ≡ ok tt)
            × HasEnded world
                (happens (write_status (stopping m)) cleaned.written m).trace
                m.sshuttle
                cleaned.stopped)
          ⊎ ((message : String) × (r.result ≡ err (runtime_failure message)))

    abbrev Published : Machine → After (Unit {0}) → Type 0
    Published m r =
        ((e : Error) × IsAborted e m r)
        ⊎ ((written : Bool) × (r
              ≡ record { result = ok tt; machine = happens (write_status (stopping m)) written m }))

    publish_stopping :
        (m : Machine) → Published m (publish_status world text config keys "stopping" true none m)
    unfolding publish_status get_process perform catch ◌>>=◌ string_eq
    publish_stopping m = by_answer (world.answer m.trace (write_status (stopping m))) refl
      where
        by_answer :
            (r : Result String)
            → world.answer m.trace (write_status (stopping m)) ≡ r
            → Published m (publish_status world text config keys "stopping" true none m)
        by_answer (ok a) e = inr (true, rw e refl)
        by_answer (err (os_error message)) e = inr (false, rw e refl)
        by_answer (err x) e = inl (
          x,
          record { answer = e; other = λ message h. cc; result = rw e refl; machine = rw e refl },
        )

    incomplete_lem :
        (failures : List Error) (m : Machine)
        → ((incomplete world text config keys failures m).machine ≡ m)
          × (((incomplete world text config keys failures m).result ≡ ok tt) × (failures ≡ [])
              ⊎ ((message : String) × ((incomplete world text config keys failures m).result
                    ≡ err (runtime_failure message))))
    incomplete_lem [] m = (refl, inl (refl, refl))
    incomplete_lem (e ∷ failures) m = (refl, inr (_, refl))

    -- Whatever the outside answers, the clean-up does one of two things. If writing the status
    -- file raises an exception other than OSError, it raises that one and does nothing else.
    -- Otherwise it does to the process what `IsStopped` lists, forgets it, and then issues each of
    -- its network commands in order and nothing more, whichever calls failed; if it returns, there
    -- was no process, or it was found to have exited, or a wait for it returned; if it raises, it
    -- raises a RuntimeFailure.
    pub cleanup_completes :
        (m : Machine)
        → ((e : Error) × IsAborted e m (cleanup world text config keys m))
          ⊎ IsComplete m (cleanup world text config keys m)
    unfolding cleanup ◌>>=◌ get_process set_process
    cleanup_completes m = by_status (publish_stopping m)
      where
        by_status :
            Published m (publish_status world text config keys "stopping" true none m)
            → ((e : Error) × IsAborted e m (cleanup world text config keys m))
              ⊎ IsComplete m (cleanup world text config keys m)
        by_status (inl (e, a)) = inl (
          e,
          record {
            answer = a.answer;
            other = a.other;
            result = rw a.result refl;
            machine = rw a.result a.machine;
          },
        )
        by_status (inr (written, h)) =
            let m₁ = happens (write_status (stopping m)) written m in
            let stop = stop_run world m.sshuttle m₁ in
            let (more, e, quiet) = collect_stop (stop_process world m.sshuttle) m₁ in
            let m₂ : Machine = record (stop_process world m.sshuttle m₁).machine {
              sshuttle = none;
            } in
            let all_done = collect_all_lem cleanup_commands more m₂ in
            let last =
              incomplete_lem all_done.failures
                (collect_all world cleanup_commands more m₂).machine in
            inr (record {
              cleaned = record {
                written = written;
                stopped = (stop_process world m.sshuttle m₁).machine.trace;
                stop = stop.stopped;
                commands = rw (h, e, all_done.result, last.0) all_done.trace;
                sshuttle = rw (h, e, all_done.result, last.0) all_done.sshuttle;
              };
              result =
                  rw (h, e, all_done.result)
                    (elim last.1 [
                      | inl (r, none_failed) ↦
                          inl (r, stop.ended (quiet (all_done.kept none_failed)))
                      | inr r ↦ inr r
                    ]);
            })
