-- ===== src/Runtime/Order/Activation.antt =====
-- `GatewayRuntime.start` of runtime.py as a whole: when the interface is set up.
use shuttle_gate.Base.{
  String, ℕ, zero, suc, Bool, true, false, Option, none, some, List, [], ◌∷◌, ◌≡◌, refl, any,
  string_eq, arith, eq_self,
}
use shuttle_gate.Errors.{Error, runtime_failure, transient_runtime_failure, Result, ok, err}
use shuttle_gate.Runtime.Arguments.{nft_filter}
use shuttle_gate.Runtime.Machine.{
  command, Event, Machine, World, Gateway, pure, fail, ◌>>=◌, perform, receive, receive_ready,
  is_ok, continue,
}
use shuttle_gate.Runtime.Start.{
  Setup, start, bring_up, bring_up_or_roll_back, start_sshuttle, launch, await_ready,
  startup_failure, activate_wireguard, nft_load, nft_check, link_up, suppressed, clean_up,
}
use shuttle_gate.Runtime.Order.{
  activates, loads_filter, says_ready, IsGuarded, Reaches, Traces, Traces-seq, Traces-catch,
  Traces-weaken, Traces-finally,
}
use shuttle_gate.Runtime.Order.Quiet.{
  quiet_perform, quiet_pure, quiet_fail, quiet_lift, quiet_discard, quiet_poll, quiet_set,
  quiet_status, quiet_cleanup,
}
use shuttle_gate.Runtime.Order.Steps.{
  quiet_configure, quiet_remote, quiet_wireguard, quiet_routing, quiet_verify,
}

abbrev IsFiltered : List Event → Type 0
IsFiltered t = IsGuarded t × (any loads_filter t ≡ true)

abbrev IsReady : List Event → Type 0
IsReady t = IsFiltered t × (any says_ready t ≡ true)

IsGuarded-keeps :
    (e : Event) (t : List Event) → activates e.effect ≡ false → IsGuarded t → IsGuarded (e ∷ t)
IsGuarded-keeps e t calm h = (λ k. ground arith, h)

IsFiltered-keeps :
    (e : Event) (t : List Event) → activates e.effect ≡ false → IsFiltered t → IsFiltered (e ∷ t)
IsFiltered-keeps e t calm h = (IsGuarded-keeps e t calm h.0, ground (arith, h.1))

IsReady-keeps :
    (e : Event) (t : List Event) → activates e.effect ≡ false → IsReady t → IsReady (e ∷ t)
IsReady-keeps e t calm h = (IsFiltered-keeps e t calm h.0, ground (arith, h.1))

module _ (world : World) (setup : Setup) where
  load_filter : Traces IsGuarded IsFiltered IsGuarded (perform world nft_load)
  unfolding perform activates loads_filter string_eq
  load_filter = record { runs = λ m h. by_answer (world.answer m.trace nft_load) m h }
    where
      by_answer :
          (r : Result String) (m : Machine)
          → IsGuarded m.trace
          → Reaches IsFiltered IsGuarded (record {
            result = r;
            machine = record m {
              trace = record { effect = nft_load; succeeded = is_ok r } ∷ m.trace;
            };
          })
      by_answer (ok a) m h = (((λ k. cc), h), rw (eq_self nft_filter) refl)
      by_answer (err x) m h = ((λ k. cc), h)

  activate : Traces IsReady IsGuarded IsGuarded (activate_wireguard world setup)
  unfolding activate_wireguard perform ◌>>=◌
  activate = record { runs = λ m h. by_answer (world.answer m.trace (command true "" link_up)) m h }
    where
      by_answer :
          (r : Result String) (m : Machine)
          → IsReady m.trace
          → Reaches IsGuarded IsGuarded (
              continue {B = Unit {0}} r
                (λ _. pure tt)
                (record m {
                  trace =
                      record { effect = command true "" link_up; succeeded = is_ok r } ∷ m.trace;
                }))
      by_answer (ok a) m h = ((λ k. (h.0.1, h.1)), h.0.0)
      by_answer (err x) m h = ((λ k. (h.0.1, h.1)), h.0.0)

  -- A start-up that ends in an error keeps the guard.
  IsGuarded-error : (e : Error) → Traces {A = Unit {0}} IsFiltered IsReady IsGuarded (fail e)
  IsGuarded-error e = record { runs = λ m h. h.0 }

  receive_lem :
      (again : Gateway (Unit {0}))
      → Traces IsFiltered IsReady IsGuarded again
      → Traces IsFiltered IsReady IsGuarded
          (receive world >>= λ ready. elim ready [ true ↦ pure tt | false ↦ again ])
  unfolding receive ◌>>=◌ says_ready activates
  receive_lem again h = record { runs = λ m k. by_ready (world.is_ready m.trace) m k }
    where
      next : Bool → Gateway (Unit {0})
      next b = elim b [ true ↦ pure tt | false ↦ again ]

      by_ready :
          (b : Bool) (m : Machine)
          → IsFiltered m.trace
          → Reaches IsReady IsGuarded (
              next b
                (record m { trace = record { effect = receive_ready; succeeded = b } ∷ m.trace }))
      by_ready true m k = (
        IsFiltered-keeps (record { effect = receive_ready; succeeded = true }) m.trace refl k,
        refl,
      )
      by_ready false m k =
          h.runs _
            (IsFiltered-keeps (record { effect = receive_ready; succeeded = false }) m.trace refl k)

  await : (polls : ℕ) → Traces IsFiltered IsReady IsGuarded (await_ready world setup polls)
  unfolding await_ready
  await zero = IsGuarded-error _
  await (suc polls) =
      Traces-seq
        (Traces-weaken (quiet_poll world IsFiltered IsFiltered-keeps) (λ t h. h) (λ t h. h)
          (λ t h. h.0))
        (by_exit (await polls))
    where
      by_exit :
          Traces IsFiltered IsReady IsGuarded (await_ready world setup polls)
          → (exited : Option ℕ)
          → Traces {A = Unit {0}} IsFiltered IsReady IsGuarded (elim exited [
            | some code ↦ startup_failure world setup code
            | none ↦ receive world >>= λ ready. elim ready [
              | true ↦ pure tt
              | false ↦ await_ready world setup polls
            ]
          ])
      by_exit h (some code) = IsGuarded-error _
      by_exit h none = receive_lem (await_ready world setup polls) h

  -- A quiet step, with the weaker guarantee after an error.
  filtered :
      {A : Type 0} {g : Gateway A}
      → Traces IsFiltered IsFiltered IsFiltered g
      → Traces IsFiltered IsFiltered IsGuarded g
  filtered h = Traces-weaken h (λ t k. k) (λ t k. k) (λ t k. k.0)

  launch_lem : (polls : ℕ) → Traces IsFiltered IsReady IsGuarded (launch world setup polls)
  unfolding launch activates
  launch_lem polls =
      Traces-seq (filtered (quiet_perform world IsFiltered IsFiltered-keeps _ refl)) λ _.
        Traces-seq (filtered (quiet_lift world IsFiltered IsFiltered-keeps _)) λ arguments.
          Traces-seq (filtered (quiet_perform world IsFiltered IsFiltered-keeps _ refl)) λ _.
            Traces-seq
              (record {
                runs = λ m h. (filtered (quiet_set world IsFiltered IsFiltered-keeps _)).runs m h;
              })
              λ _. await polls

  sshuttle_lem :
      (polls : ℕ) → Traces IsFiltered IsReady IsGuarded (start_sshuttle world setup polls)
  unfolding start_sshuttle activates
  sshuttle_lem polls =
      Traces-seq (filtered (quiet_perform world IsFiltered IsFiltered-keeps _ refl)) λ _.
        Traces-finally (launch_lem polls)
          (Traces-weaken
            (quiet_discard world IsReady IsReady-keeps _
              (quiet_perform world IsReady IsReady-keeps _ refl))
            (λ t k. k) (λ t k. k) (λ t k. k.0.0))
          (quiet_discard world IsGuarded IsGuarded-keeps _
            (quiet_perform world IsGuarded IsGuarded-keeps _ refl))

  bring_up_lem : (polls : ℕ) → Traces IsGuarded IsGuarded IsGuarded (bring_up world setup polls)
  unfolding bring_up activates
  bring_up_lem polls = Traces-seq (quiet_configure world setup IsGuarded IsGuarded-keeps) λ _.
      Traces-seq (quiet_remote world setup IsGuarded IsGuarded-keeps) λ _.
        Traces-seq (quiet_perform world IsGuarded IsGuarded-keeps nft_check refl) λ _.
          Traces-seq load_filter λ _.
            Traces-seq (filtered (quiet_wireguard world setup IsFiltered IsFiltered-keeps)) λ _.
              Traces-seq (filtered (quiet_routing world setup IsFiltered IsFiltered-keeps)) λ _.
                Traces-seq (sshuttle_lem polls) λ _. Traces-seq activate λ _.
                  Traces-seq (quiet_verify world setup IsGuarded IsGuarded-keeps) λ _.
                    quiet_status world IsGuarded IsGuarded-keeps setup.text setup.config setup.keys
                      "ready" false none

  suppressed_lem : (e : Error) → Traces IsGuarded IsGuarded IsGuarded (suppressed world setup e)
  suppressed_lem (runtime_failure s) = quiet_pure world IsGuarded IsGuarded-keeps tt
  suppressed_lem (transient_runtime_failure s) = quiet_pure world IsGuarded IsGuarded-keeps tt
  suppressed_lem e = record { runs = λ m h. by_error e m h }
    where
      by_error :
          (e : Error) (m : Machine)
          → IsGuarded m.trace
          → Reaches IsGuarded IsGuarded (suppressed world setup e m)
      by_error (runtime_failure s) m h = h
      by_error (transient_runtime_failure s) m h = h
      by_error e m h = h

  clean_lem : Traces IsGuarded IsGuarded IsGuarded (clean_up world setup)
  clean_lem = quiet_cleanup world IsGuarded IsGuarded-keeps setup.text setup.config setup.keys

  attempt_lem :
      (polls : ℕ) → Traces IsGuarded IsGuarded IsGuarded (bring_up_or_roll_back world setup polls)
  unfolding bring_up_or_roll_back
  attempt_lem polls = Traces-catch (bring_up_lem polls) λ e.
      Traces-seq (Traces-catch clean_lem suppressed_lem)
        (λ _. quiet_fail world IsGuarded IsGuarded-keeps e)

  start_lem : (polls : ℕ) → Traces IsGuarded IsGuarded IsGuarded (start world setup polls)
  unfolding start activates
  start_lem polls = Traces-seq (quiet_perform world IsGuarded IsGuarded-keeps _ refl) λ _.
      Traces-seq clean_lem λ _.
        Traces-seq
          (quiet_status world IsGuarded IsGuarded-keeps setup.text setup.config setup.keys
            "starting" false none)
          λ _. attempt_lem polls

  -- However the outside answers and whether the start ends well or raises: in what a fresh gateway
  -- did, each `ip link set ... up` comes after the packet filter was loaded and after sshuttle
  -- said that it is ready.
  pub start_activates_last :
      (polls : ℕ)
      → IsGuarded (start world setup polls (record { trace = []; sshuttle = none })).machine.trace
  start_activates_last polls =
      by_result (start world setup polls fresh).result (start world setup polls fresh).machine
        ((start_lem polls).runs fresh tt)
    where
      fresh : Machine
      fresh = record { trace = []; sshuttle = none }

      by_result :
          (r : Result (Unit {0})) (m : Machine)
          → Reaches IsGuarded IsGuarded (record { result = r; machine = m })
          → IsGuarded m.trace
      by_result (ok a) m h = h
      by_result (err e) m h = h
