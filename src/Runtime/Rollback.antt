-- ===== src/Runtime/Rollback.antt =====
-- `GatewayRuntime.start` of runtime.py, when a step after the first status fails.
use shuttle_gate.Base.{ℕ, ◌≡◌, refl, ◌⊎◌, inl, inr}
use shuttle_gate.Errors.{Error, runtime_failure, transient_runtime_failure, Result, ok, err}
use shuttle_gate.Runtime.Machine.{Machine, World, After, fail, ◌>>=◌, catch, recover_by, continue}
use shuttle_gate.Runtime.Start.{
  Setup, bring_up, bring_up_or_roll_back, roll_back, suppressed, clean_up,
}
use shuttle_gate.Runtime.Cleanup.{IsAborted, IsCleaned, IsComplete, cleanup_completes}

module _ (world : World) (setup : Setup) where
  -- What a start-up that failed with `e` on the machine `m` comes to.
  pub data IsRolledBack (e : Error) (m : Machine) (r : After (Unit {0})) : Type 0 where
    -- it was cleaned up, and the first exception is raised
    cleaned :
        IsCleaned world setup.text setup.config setup.keys m r.machine
        → r.result ≡ err e
        → IsRolledBack e m r
    -- the status could not be written, and that or the first exception is raised
    aborted :
        (x : Error) (aborted : After (Unit {0}))
        → IsAborted world setup.text setup.config setup.keys x m aborted
        → r.machine ≡ aborted.machine
        → (r.result ≡ err x) ⊎ (r.result ≡ err e)
        → IsRolledBack e m r

  roll_back_lem : (e : Error) (m : Machine) → IsRolledBack e m (roll_back world setup e m)
  unfolding catch ◌>>=◌
  roll_back_lem e m =
      by_result (clean_up world setup m)
        (cleanup_completes world setup.text setup.config setup.keys m)
    where
      rolled : After (Unit {0}) → After (Unit {0})
      rolled r =
          let s = recover_by r.result (suppressed world setup) r.machine in
          continue s.result (λ _. fail {A = Unit {0}} e) s.machine

      by_error :
          (x : Error) (after : Machine)
          → ((rolled (record { result = err x; machine = after })).machine ≡ after)
            × (((rolled (record { result = err x; machine = after })).result ≡ err x)
                ⊎ ((rolled (record { result = err x; machine = after })).result ≡ err e))
      by_error (runtime_failure s) after = (refl, inr refl)
      by_error (transient_runtime_failure s) after = (refl, inr refl)
      by_error x after = (refl, inl refl)

      by_result :
          (r : After (Unit {0}))
          → ((x : Error) × IsAborted world setup.text setup.config setup.keys x m r)
            ⊎ IsComplete world setup.text setup.config setup.keys m r
          → IsRolledBack e m (rolled r)
      by_result r (inl (x, a)) =
          let ends = by_error x r.machine in aborted x r a (rw a.result ends.0) (rw a.result ends.1)
      by_result r (inr done) = elim done.result [
        | inl (h, ended) ↦ cleaned (rw h done.cleaned) (rw h refl)
        | inr (message, h) ↦ cleaned (rw h done.cleaned) (rw h refl)
      ]

  -- Whatever the outside answers: if the steps of the start-up succeed, nothing is added to them.
  -- If one raises, the exception is raised again after a clean-up that dealt with the process, as
  -- far as its calls succeed, forgot it, and then issued every network clean-up command; or the
  -- status file raised an exception that is no OSError, nothing else was done, and either of the
  -- two is raised.
  pub bring_up_rolls_back :
      (polls : ℕ) (m : Machine)
      → (((bring_up world setup polls m).result ≡ ok tt)
          × (bring_up_or_roll_back world setup polls m ≡ bring_up world setup polls m))
        ⊎ ((e : Error) × ((bring_up world setup polls m).result ≡ err e)
            × IsRolledBack e
                (bring_up world setup polls m).machine
                (bring_up_or_roll_back world setup polls m))
  unfolding bring_up_or_roll_back catch
  bring_up_rolls_back polls m = by_result (bring_up world setup polls m) _ refl
    where
      by_result :
          (f : After (Unit {0})) (r : Result (Unit {0}))
          → f.result ≡ r
          → ((f.result ≡ ok tt) × (recover_by f.result (roll_back world setup) f.machine ≡ f))
            ⊎ ((e : Error) × (f.result ≡ err e)
                × IsRolledBack e f.machine (recover_by f.result (roll_back world setup) f.machine))
      by_result f (ok u) h = inl (h, rw h refl)
      by_result f (err e) h = inr (e, h, rw h (roll_back_lem e f.machine))
