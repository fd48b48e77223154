-- ===== src/Runtime/Order/Quiet.antt =====
-- The parts of the lifecycle in runtime.py that set no interface up, and the trace.
use shuttle_gate.Base.{
  String, ℕ, Bool, true, false, Option, none, some, List, [], ◌∷◌, ◌++◌, ◌≡◌, refl, string_eq, ◌==◌,
}
use shuttle_gate.Errors.{Error, os_error, timeout_expired, Result, ok, err}
use shuttle_gate.Config.{ProjectConfig}
use shuttle_gate.Net.{AddressText}
use shuttle_gate.Runtime.Machine.{
  Effect, command, terminate, kill, wait, poll, Event, Machine, World, Gateway, pure, lift, fail,
  ◌>>=◌, ◌>>◌, catch, perform, set_process, get_process, poll_process, discard, is_ok,
}
use shuttle_gate.Runtime.Gateway.{
  Keys, cleanup, cleanup_commands, collect, collect_all, stop_process, publish_status, peer_status,
  run_all, ignoring, incomplete, kill_late,
}
use shuttle_gate.Runtime.PeerStatus.{PeerRow}
use shuttle_gate.Runtime.Order.{activates, is_link_up, Reaches, Traces, Traces-seq, Traces-catch}

module _ (world : World) (S : List Event → Type 0)
    (keeps : (e : Event) (t : List Event) → activates e.effect ≡ false → S t → S (e ∷ t)) where
  abbrev KeepsTrace : {A : Type 0} → Gateway A → Type 0
  KeepsTrace g = Traces S S S g

  pub quiet_perform : (e : Effect) → activates e ≡ false → KeepsTrace (perform world e)
  unfolding perform
  quiet_perform e calm = record { runs = λ m h. by_answer (world.answer m.trace e) m h }
    where
      by_answer :
          (r : Result String) (m : Machine)
          → S m.trace
          → Reaches S S (record {
            result = r;
            machine = record m { trace = record { effect = e; succeeded = is_ok r } ∷ m.trace };
          })
      by_answer (ok a) m h = keeps (record { effect = e; succeeded = true }) m.trace calm h
      by_answer (err x) m h = keeps (record { effect = e; succeeded = false }) m.trace calm h

  pub quiet_pure : {A : Type 0} (a : A) → KeepsTrace (pure a)
  quiet_pure a = record { runs = λ m h. h }

  pub quiet_fail : {A : Type 0} (e : Error) → KeepsTrace (fail {A = A} e)
  quiet_fail e = record { runs = λ m h. h }

  pub quiet_lift : {A : Type 0} (r : Result A) → KeepsTrace (lift r)
  quiet_lift (ok a) = record { runs = λ m h. h }
  quiet_lift (err e) = record { runs = λ m h. h }

  pub quiet_discard : {A : Type 0} (g : Gateway A) → KeepsTrace g → KeepsTrace (discard g)
  quiet_discard g h = Traces-seq h (λ a. quiet_pure tt)

  pub quiet_poll : KeepsTrace (poll_process world)
  unfolding poll_process activates
  quiet_poll = record {
    runs = λ m h. keeps (record { effect = poll; succeeded = true }) m.trace refl h;
  }

  pub quiet_get : KeepsTrace get_process
  unfolding get_process
  quiet_get = record { runs = λ m h. h }

  pub quiet_set : (p : Option ℕ) → KeepsTrace (set_process p)
  unfolding set_process
  quiet_set p = record { runs = λ m h. h }

  pub quiet_command :
      (check : Bool) (arguments : List String)
      → is_link_up arguments ≡ false
      → KeepsTrace (perform world (command check "" arguments))
  unfolding activates
  quiet_command check arguments calm = quiet_perform (command check "" arguments) calm

  quiet_kill : KeepsTrace (discard (perform world kill >> perform world wait))
  unfolding activates
  quiet_kill =
      Traces-seq (Traces-seq (quiet_perform kill refl) (λ a. quiet_perform wait refl))
        (λ a. quiet_pure tt)

  quiet_kill_late : (e : Error) → KeepsTrace (kill_late world e)
  quiet_kill_late (timeout_expired message) = quiet_kill
  quiet_kill_late e = quiet_fail _

  quiet_stop : (p : Option ℕ) → KeepsTrace (stop_process world p)
  unfolding stop_process activates
  quiet_stop none = quiet_pure tt
  quiet_stop (some pid) = Traces-seq quiet_poll by_status
    where
      by_status :
          (status : Option ℕ)
          → KeepsTrace (elim status [
            | some code ↦ pure tt
            | none ↦ perform world terminate >>= λ _.
                catch (kill_late world) (discard (perform world wait))
          ])
      by_status (some code) = quiet_pure tt
      by_status none =
          Traces-seq (quiet_perform terminate refl)
            (λ _. Traces-catch (quiet_discard _ (quiet_perform wait refl)) quiet_kill_late)

  quiet_collect :
      (g : Gateway (Unit {0})) (failures : List Error)
      → KeepsTrace g
      → KeepsTrace (collect world g failures)
  unfolding collect
  quiet_collect g failures h =
      Traces-catch (Traces-seq h (λ u. quiet_pure failures)) (λ e. quiet_pure (failures ++ e ∷ []))

  abbrev AreCalm : List (List String) → Type 0
  AreCalm [] = Unit
  AreCalm (arguments ∷ rest) = (is_link_up arguments ≡ false) × AreCalm rest

  quiet_collect_all :
      (commands : List (List String)) (failures : List Error)
      → AreCalm commands
      → KeepsTrace (collect_all world commands failures)
  unfolding collect_all
  quiet_collect_all [] failures h = quiet_pure failures
  quiet_collect_all (arguments ∷ rest) failures h =
      Traces-seq (quiet_collect _ failures (quiet_discard _ (quiet_command false arguments h.0)))
        (λ more. quiet_collect_all rest more h.1)

  pub quiet_run_all :
      (commands : List (List String)) → AreCalm commands → KeepsTrace (run_all world commands)
  quiet_run_all [] h = quiet_pure tt
  quiet_run_all (arguments ∷ rest) h =
      Traces-seq (quiet_command true arguments h.0) (λ _. quiet_run_all rest h.1)

  module _ (text : AddressText) (config : ProjectConfig) (keys : Keys) where
    quiet_ignoring : (b : Bool) (e : Error) → KeepsTrace (ignoring world text config keys b e)
    quiet_ignoring b e = record { runs = by_error b e }
      where
        by_error :
            (b : Bool) (e : Error) (m : Machine)
            → S m.trace
            → Reaches S S (ignoring world text config keys b e m)
        by_error true (os_error s) m h = h
        by_error true e m h = h
        by_error false e m h = h

    quiet_peer_status : KeepsTrace (peer_status world text config keys)
    unfolding peer_status string_eq
    quiet_peer_status =
        Traces-seq (quiet_lift _)
          (λ names. Traces-seq (quiet_command true _ refl) (λ output. quiet_lift _))

    pub quiet_status :
        (state : String) (b : Bool) (error : Option String)
        → KeepsTrace (publish_status world text config keys state b error)
    unfolding publish_status activates
    quiet_status state b error = Traces-seq quiet_get λ pid.
        Traces-seq (by_state (state == "ready"))
          λ peers. Traces-catch (quiet_discard _ (quiet_perform _ refl)) (quiet_ignoring b)
      where
        by_state :
            (r : Bool)
            → KeepsTrace (elim r [
              | true ↦ peer_status world text config keys
              | false ↦ pure {A = List PeerRow} []
            ])
        by_state true = quiet_peer_status
        by_state false = quiet_pure []

    quiet_incomplete :
        (failures : List Error) → KeepsTrace (incomplete world text config keys failures)
    quiet_incomplete [] = quiet_pure tt
    quiet_incomplete (e ∷ failures) = quiet_fail _

    pub quiet_cleanup : KeepsTrace (cleanup world text config keys)
    unfolding cleanup string_eq
    quiet_cleanup = Traces-seq (quiet_status "stopping" true none) λ _.
        Traces-seq quiet_get λ process.
          Traces-seq (quiet_collect _ [] (quiet_stop process)) λ failures.
            Traces-seq (quiet_set none) λ _.
              Traces-seq
                (quiet_collect_all cleanup_commands failures
                  (refl, (refl, (refl, (refl, (refl, (refl, tt)))))))
                λ all_failures. quiet_incomplete all_failures
