-- ===== src/Runtime/Machine.antt =====
-- Effects in the order in which they happen, and the state of `GatewayRuntime`.
use shuttle_gate.Base.{String, ℕ, Bool, true, false, Option, List, ◌∷◌}
use shuttle_gate.Errors.{Error, Result, ok, err}
use shuttle_gate.Runtime.PeerStatus.{PeerRow}

-- What the status file holds, but for the constant fields and the launch identifier.
pub record Status : Type 0 where
  pub state : String
  pub health : String
  pub pid : Option ℕ
  pub routes : List String
  pub peers : List PeerRow
  pub error : Option String

pub data Effect : Type 0 where
  -- runner.run(arguments, input_text=..., check=...)
  command : Bool → String → List String → Effect
  make_directory : Effect
  write_file : String → String → Effect
  write_status : Status → Effect
  -- the notification socket: unlink the old one, bind, receive, close and unlink
  clear_notify open_notify receive_ready close_notify : Effect
  spawn : List String → Effect
  poll terminate kill wait : Effect

-- An effect, and whether it was successful.
pub record Event : Type 0 where
  pub effect : Effect
  pub succeeded : Bool

-- The trace has the newest event first.
pub record Machine : Type 0 where
  pub trace : List Event
  pub sshuttle : Option ℕ

-- What the outside answers, which may depend on all that has happened. An exit status is a number:
-- the negative return code of a process that a signal ended is not told apart from the others, and
-- only the text of one message would show it.
pub record World : Type 0 where
  pub answer : List Event → Effect → Result String
  pub exit_status : List Event → Option ℕ
  pub is_ready : List Event → Bool
  pub new_pid : List Event → ℕ

pub record After {ℓ} (A : Type ℓ) : Type ℓ where
  pub result : Result A
  pub machine : Machine

abbrev pub Gateway {ℓ} : Type ℓ → Type ℓ
Gateway A = Machine → After A

abbrev pub is_ok {ℓ} : {A : Type ℓ} → Result A → Bool
is_ok (ok a) = true
is_ok (err e) = false

abbrev pub happens : Effect → Bool → Machine → Machine
happens e b m = record m { trace = record { effect = e; succeeded = b } ∷ m.trace }

module _ {A : Type 0} where
  abbrev pub pure : A → Gateway A
  pure a m = record { result = ok a; machine = m }

  abbrev pub lift : Result A → Gateway A
  lift r m = record { result = r; machine = m }

  abbrev pub fail : Error → Gateway A
  fail e m = record { result = err e; machine = m }

module _ {A B : Type 0} where
  abbrev pub continue : Result A → (A → Gateway B) → Gateway B
  continue (ok a) f m = f a m
  continue (err e) f m = record { result = err e; machine = m }

  infixl 5 ◌>>=◌
  unfoldable pub ◌>>=◌ : Gateway A → (A → Gateway B) → Gateway B
  ◌>>=◌ g f m = let r = g m in continue r.result f r.machine

infixl 5 ◌>>◌
abbrev pub ◌>>◌ : {A B : Type 0} → Gateway A → Gateway B → Gateway B
g >> k = g >>= λ _. k

module _ {A : Type 0} where
  abbrev pub recover_by : Result A → (Error → Gateway A) → Gateway A
  recover_by (ok a) handler m = record { result = ok a; machine = m }
  recover_by (err e) handler m = handler e m

  -- try: g  except: handler
  unfoldable pub catch : (Error → Gateway A) → Gateway A → Gateway A
  catch handler g m = let r = g m in recover_by r.result handler r.machine

  abbrev pub settle : Result A → Gateway (Unit {0}) → Gateway A
  settle r last m = let s = last m in record { result = both s.result; machine = s.machine }
    where
      both : Result (Unit {0}) → Result A
      both (ok u) = r
      both (err e) = err e

  -- try: g  finally: last
  unfoldable pub finally : Gateway (Unit {0}) → Gateway A → Gateway A
  finally last g m = let r = g m in settle r.result last r.machine

module _ (world : World) where
  unfoldable pub perform : Effect → Gateway String
  perform e m =
      let r = world.answer m.trace e in record { result = r; machine = happens e (is_ok r) m }

  -- process.poll()
  unfoldable pub poll_process : Gateway (Option ℕ)
  poll_process m = record { result = ok (world.exit_status m.trace); machine = happens poll true m }

  -- One receive with its timeout: whether READY=1 arrived.
  unfoldable pub receive : Gateway Bool
  receive m =
      let b = world.is_ready m.trace in
      record { result = ok b; machine = happens receive_ready b m }

unfoldable pub set_process : Option ℕ → Gateway (Unit {0})
set_process p m = record { result = ok tt; machine = record m { sshuttle = p } }

unfoldable pub get_process : Gateway (Option ℕ)
get_process m = record { result = ok m.sshuttle; machine = m }

abbrev pub discard : {A : Type 0} → Gateway A → Gateway (Unit {0})
discard g = g >>= λ _. pure tt
