-- ===== src/Runtime/Cleanup/Stop.antt =====
-- `_stop_process` of runtime.py: the calls that are made on the process of sshuttle.
use shuttle_gate.Base.{
  String, ℕ, Bool, true, false, Option, none, some, List, ◌∷◌, ◌≡◌, ◌≢◌, refl, subst,
}
use shuttle_gate.Errors.{Error, timeout_expired, Result, ok, err}
use shuttle_gate.Runtime.Machine.{
  Effect, poll, terminate, kill, wait, Event, Machine, World, After, ◌>>=◌, catch, perform,
  poll_process, is_ok,
}
use shuttle_gate.Runtime.Gateway.{stop_process}

abbrev pub happened : Effect → Bool → List Event → List Event
happened e succeeded t = record { effect = e; succeeded = succeeded } ∷ t

abbrev pub polled : List Event → List Event
polled = happened poll true

abbrev pub asked : List Event → List Event
asked t = happened terminate true (polled t)

abbrev pub shot : List Event → List Event
shot t = happened kill true (happened wait false (asked t))

module _ (world : World) (before : List Event) where
  -- What was done to a process, by what its calls answered.
  pub data IsStopped : Option ℕ → List Event → Type 0 where
    absent : IsStopped none before
    exited :
        (pid code : ℕ) → world.exit_status before ≡ some code → IsStopped (some pid) (polled before)
    not_terminated :
        (pid : ℕ) (e : Error)
        → world.exit_status before ≡ none
        → world.answer (polled before) terminate ≡ err e
        → IsStopped (some pid) (happened terminate false (polled before))
    waited :
        (pid : ℕ) (answer : String)
        → world.exit_status before ≡ none
        → world.answer (asked before) wait ≡ ok answer
        → IsStopped (some pid) (happened wait true (asked before))
    not_waited :
        (pid : ℕ) (e : Error)
        → world.exit_status before ≡ none
        → world.answer (asked before) wait ≡ err e
        → ((message : String) → e ≢ timeout_expired message)
        → IsStopped (some pid) (happened wait false (asked before))
    not_killed :
        (pid : ℕ) (message : String) (e : Error)
        → world.exit_status before ≡ none
        → world.answer (asked before) wait ≡ err (timeout_expired message)
        → world.answer (happened wait false (asked before)) kill ≡ err e
        → IsStopped (some pid) (happened kill false (happened wait false (asked before)))
    killed :
        (pid : ℕ) (message answer : String)
        → world.exit_status before ≡ none
        → world.answer (asked before) wait ≡ err (timeout_expired message)
        → world.answer (happened wait false (asked before)) kill ≡ ok answer
        → IsStopped
            (some pid)
            (happened wait (is_ok (world.answer (shot before) wait)) (shot before))

  -- There was no process, or it was found to have exited, or the last thing was a wait that
  -- returned.
  pub data HasEnded : Option ℕ → List Event → Type 0 where
    never : {after : List Event} → HasEnded none after
    before_that :
        {process : Option ℕ} {after : List Event} (code : ℕ)
        → world.exit_status before ≡ some code
        → HasEnded process after
    waited_for : {process : Option ℕ} (t : List Event) → HasEnded process (happened wait true t)

  pub record StopRun (process : Option ℕ) (m : Machine) (r : After (Unit {0})) : Type 0 where
    pub stopped : IsStopped process r.machine.trace
    pub ended : r.result ≡ ok tt → HasEnded process r.machine.trace

module _ (world : World) where
  pub stop_run :
      (process : Option ℕ) (m : Machine)
      → StopRun world m.trace process m (stop_process world process m)
  unfolding stop_process poll_process ◌>>=◌ perform catch
  stop_run none m = record { stopped = absent; ended = λ h. never }
  stop_run (some pid) m = by_status (world.exit_status m.trace) refl
    where
      Run : Type 0
      Run = StopRun world m.trace (some pid) m (stop_process world (some pid) m)

      by_last :
          (message a b : String) (r : Result String)
          → world.exit_status m.trace ≡ none
          → world.answer (polled m.trace) terminate ≡ ok a
          → world.answer (asked m.trace) wait ≡ err (timeout_expired message)
          → world.answer (happened wait false (asked m.trace)) kill ≡ ok b
          → world.answer (shot m.trace) wait ≡ r
          → Run
      by_last message a b (ok c) h t w k v =
          let way = killed pid message b h w k in
          rw (h, t, w, k, v)
            (record {
              stopped =
                  subst
                    (λ r.
                      IsStopped world m.trace (some pid) (happened wait (is_ok r) (shot m.trace)))
                    v way;
              ended = λ _. waited_for _;
            })
      by_last message a b (err e) h t w k v =
          let way = killed pid message b h w k in
          rw (h, t, w, k, v)
            (record {
              stopped =
                  subst
                    (λ r.
                      IsStopped world m.trace (some pid) (happened wait (is_ok r) (shot m.trace)))
                    v way;
              ended = λ r. cc;
            })

      by_kill :
          (message a : String) (r : Result String)
          → world.exit_status m.trace ≡ none
          → world.answer (polled m.trace) terminate ≡ ok a
          → world.answer (asked m.trace) wait ≡ err (timeout_expired message)
          → world.answer (happened wait false (asked m.trace)) kill ≡ r
          → Run
      by_kill message a (ok b) h t w k = by_last message a b _ h t w k refl
      by_kill message a (err e) h t w k =
          rw (h, t, w, k) (record { stopped = not_killed pid message e h w k; ended = λ r. cc })

      by_wait :
          (a : String) (r : Result String)
          → world.exit_status m.trace ≡ none
          → world.answer (polled m.trace) terminate ≡ ok a
          → world.answer (asked m.trace) wait ≡ r
          → Run
      by_wait a (ok b) h t w =
          rw (h, t, w) (record { stopped = waited pid b h w; ended = λ _. waited_for _ })
      by_wait a (err (timeout_expired message)) h t w = by_kill message a _ h t w refl
      by_wait a (err e) h t w =
          rw (h, t, w)
            (record { stopped = not_waited pid e h w (λ message r. cc); ended = λ r. cc })

      by_terminate :
          (r : Result String)
          → world.exit_status m.trace ≡ none
          → world.answer (polled m.trace) terminate ≡ r
          → Run
      by_terminate (ok a) h t = by_wait a _ h t refl
      by_terminate (err e) h t =
          rw (h, t) (record { stopped = not_terminated pid e h t; ended = λ r. cc })

      by_status : (status : Option ℕ) → world.exit_status m.trace ≡ status → Run
      by_status (some code) h =
          rw h (record { stopped = exited pid code h; ended = λ _. before_that code h })
      by_status none h = by_terminate _ h refl
