-- ===== src/Runtime/Order.antt =====
-- The order of the effects of a start.
mod Quiet
mod Steps
pub mod Activation
use shuttle_gate.Base.{
  String, ℕ, zero, suc, Bool, true, false, not, ◌&&◌, ◌||◌, Option, none, some, List, [], ◌∷◌, ◌++◌,
  ◌≡◌, refl, any, ◌==◌, string_eq, list_eq, arith, map, if◌then◌else◌,
}
use shuttle_gate.Errors.{Error, Result, ok, err}
use shuttle_gate.Runtime.Arguments.{nft_filter}
use shuttle_gate.Runtime.Machine.{
  Effect, command, receive_ready, Event, Machine, World, After, Gateway, pure, lift, fail, ◌>>=◌,
  catch, finally, perform, continue, recover_by, settle, is_ok, set_process, get_process,
  poll_process, receive, discard,
}

-- `ip link set dev X up` and its like
abbrev pub is_link_up : List String → Bool
is_link_up (a ∷ b ∷ c ∷ d ∷ e ∷ f ∷ []) = (a == "ip") && (b == "link") && (f == "up")
is_link_up arguments = false

abbrev pub is_nft_load : List String → Bool
is_nft_load (a ∷ b ∷ c ∷ []) = (a == "nft") && (b == "--file") && (c == "-")
is_nft_load arguments = false

unfoldable pub activates : Effect → Bool
unfolding string_eq
activates (command check input arguments) = is_link_up arguments
activates effect = false

-- The packet filter was loaded.
unfoldable pub loads_filter : Event → Bool
unfolding string_eq
loads_filter e = of_effect e.effect e.succeeded
  where
    of_effect : Effect → Bool → Bool
    of_effect (command check input arguments) b =
        b && ((input == nft_filter) && is_nft_load arguments)
    of_effect effect b = false

-- sshuttle said that it is ready.
unfoldable pub says_ready : Event → Bool
says_ready e = of_effect e.effect e.succeeded
  where
    of_effect : Effect → Bool → Bool
    of_effect receive_ready b = b
    of_effect effect b = false

-- Every activation comes after the filter and after sshuttle's readiness.
abbrev pub IsGuarded : List Event → Type 0
IsGuarded [] = Unit
IsGuarded (e ∷ t) =
    (activates e.effect ≡ true → (any loads_filter t ≡ true) × (any says_ready t ≡ true))
    × IsGuarded t

-- From a trace with `Pre` a run that returns leaves one with `Post`, a run that raises one with
-- `Err`.
module _ {A : Type 0} where
  abbrev pub Reaches : (List Event → Type 0) → (List Event → Type 0) → After A → Type 0
  Reaches Post Err r = at r.result r.machine.trace
    where
      at : Result A → List Event → Type 0
      at (ok a) t = Post t
      at (err e) t = Err t

pub record Traces {A : Type 0} (Pre Post Err : List Event → Type 0) (g : Gateway A) : Type 0 where
  pub runs : (m : Machine) → Pre m.trace → Reaches Post Err (g m)

module _ {Pre Mid Post Err : List Event → Type 0} {A B : Type 0} where
  pub Traces-seq :
      {g : Gateway A} {f : A → Gateway B}
      → Traces Pre Mid Err g
      → ((a : A) → Traces Mid Post Err (f a))
      → Traces Pre Post Err (g >>= f)
  unfolding ◌>>=◌
  Traces-seq {g} {f} first second = record {
    runs = λ m h. by_result (g m).result (g m).machine (first.runs m h);
  }
    where
      by_result :
          (r : Result A) (after : Machine)
          → Reaches Mid Err (record { result = r; machine = after })
          → Reaches Post Err (continue r f after)
      by_result (ok a) after h = (second a).runs after h
      by_result (err e) after h = h

module _ {Pre Post Err : List Event → Type 0} {A : Type 0} where
  -- The error's trace may be that of any state between.
  pub Traces-catch :
      {g : Gateway A} {handler : Error → Gateway A}
      → Traces Pre Post Err g
      → ((e : Error) → Traces Err Post Err (handler e))
      → Traces Pre Post Err (catch handler g)
  unfolding catch
  Traces-catch {g} {handler} first second = record {
    runs = λ m h. by_result (g m).result (g m).machine (first.runs m h);
  }
    where
      by_result :
          (r : Result A) (after : Machine)
          → Reaches Post Err (record { result = r; machine = after })
          → Reaches Post Err (recover_by r handler after)
      by_result (ok a) after h = h
      by_result (err e) after h = (second e).runs after h

  pub Traces-weaken :
      {Pre' Post' Err' : List Event → Type 0} {g : Gateway A}
      → Traces Pre Post Err g
      → ((t : List Event) → Pre' t → Pre t)
      → ((t : List Event) → Post t → Post' t)
      → ((t : List Event) → Err t → Err' t)
      → Traces Pre' Post' Err' g
  Traces-weaken {Pre'} {Post'} {Err'} {g} h p q c = record {
    runs = λ m k. by_result (g m).result (g m).machine (h.runs m (p _ k));
  }
    where
      by_result :
          (r : Result A) (after : Machine)
          → Reaches Post Err (record { result = r; machine = after })
          → Reaches Post' Err' (record { result = r; machine = after })
      by_result (ok a) after k = q _ k
      by_result (err e) after k = c _ k

  pub Traces-finally :
      {g : Gateway A} {last : Gateway (Unit {0})}
      → Traces Pre Post Err g
      → Traces Post Post Err last
      → Traces Err Err Err last
      → Traces Pre Post Err (finally last g)
  unfolding finally
  Traces-finally {g} {last} h good bad = record {
    runs = λ m k. by_result (g m).result (g m).machine (h.runs m k);
  }
    where
      after_ok :
          (a : A) (s : Result (Unit {0})) (m after : Machine)
          → Reaches Post Err (record { result = s; machine = m })
          → Reaches Post Err (settle (ok a) (λ _. record { result = s; machine = m }) after)
      after_ok a (ok u) m after k = k
      after_ok a (err e) m after k = k

      after_err :
          (x : Error) (s : Result (Unit {0})) (m after : Machine)
          → Reaches Err Err (record { result = s; machine = m })
          → Reaches Post Err
              (settle {A = A} (err x) (λ _. record { result = s; machine = m }) after)
      after_err x (ok u) m after k = k
      after_err x (err e) m after k = k

      by_result :
          (r : Result A) (after : Machine)
          → Reaches Post Err (record { result = r; machine = after })
          → Reaches Post Err (settle r last after)
      by_result (ok a) after k =
          after_ok a (last after).result (last after).machine after (good.runs after k)
      by_result (err e) after k =
          after_err e (last after).result (last after).machine after (bad.runs after k)
