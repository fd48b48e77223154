-- ===== src/Claim/Locks.antt =====
-- `run_claimed` and `main` of claim.py over the table of advisory locks.
pub mod Safety
use shuttle_gate.Base.{
  String, ℕ, ◌-◌, ◌%◌, Bool, true, false, not, ◌||◌, List, [], ◌∷◌, Option, none, some, contains,
  ◌==◌, ◌!=◌, nat_eq, if◌then◌else◌,
}
use shuttle_gate.Errors.{Error, Result, ok, err}
use shuttle_gate.FilePath.{FilePath, path_eq}
use shuttle_gate.Claim.Arguments.{parse_arguments}

-- What `os.fstat` reports of a claim file; `none` is a claim that cannot be opened.
pub record ClaimFile : Type 0 where
  pub regular : Bool
  pub owned : Bool
  pub mode : ℕ

-- The exclusive locks that any process holds.
abbrev pub LockTable : Type 0
LockTable = List FilePath

-- subprocess.CompletedProcess.returncode, which is negative for a child that a signal ended
pub data ReturnCode : Type 0 where
  exit_code minus_signal : ℕ → ReturnCode

pub data Outcome : Type 0 where
  -- the child ran to its end: its status, and the locks that were held while it ran
  exited : ReturnCode → LockTable → Outcome
  -- CLAIM_CONFLICT_EXIT
  conflict : Outcome
  invalid_claim : Outcome
  -- the command cannot be executed: a ClaimError
  not_executable : LockTable → Outcome
  -- an OSError of `os.open`, which nothing catches
  not_opened : Outcome

abbrev pub claim_conflict_exit : ℕ
claim_conflict_exit = 73

-- Closing a descriptor releases its lock.
unfoldable pub release : FilePath → LockTable → LockTable
release claim [] = []
release claim (held ∷ table) =
    let rest = release claim table in if held == claim then table else held ∷ rest

-- The `finally` clause: the descriptors in reverse order of their opening.
unfoldable pub release_all : List FilePath → LockTable → LockTable
unfolding release
release_all [] table = table
release_all (claim ∷ claims) table = release_all claims (release claim table)

unfoldable pub is_invalid : ClaimFile → Bool
is_invalid info = not info.regular || not info.owned || info.mode != 0o600

module _ (files : FilePath → Option ClaimFile) (execute : List String → Option ReturnCode) where
  -- `mine` holds the descriptors that are locked, the last one first.
  unfoldable pub acquire :
      List FilePath → List FilePath → List String → LockTable → Outcome × LockTable
  unfolding is_invalid release_all
  acquire mine [] command table = elim (execute command) [
    | none ↦ (not_executable table, release_all mine table)
    | some status ↦ (exited status table, release_all mine table)
  ]
  acquire mine (claim ∷ claims) command table =
      let more = acquire (claim ∷ mine) claims command (claim ∷ table) in
      elim (files claim) [
        | none ↦ (not_opened, release_all mine table)
        | some info ↦
            if is_invalid info
            then (invalid_claim, release_all mine table)
            else if contains table claim
            then (conflict, release_all mine table)
            else more
      ]

  unfoldable pub run_claimed : List FilePath → List String → LockTable → Outcome × LockTable
  unfolding acquire
  run_claimed claims command table = acquire [] claims command table

  -- The exit status of the wrapper, of which the system keeps the last eight bits. An exception
  -- that `main` does not catch ends it with 1.
  abbrev pub exit_status : Outcome → ℕ
  exit_status (exited (exit_code status) held) = status % 256
  exit_status (exited (minus_signal signal) held) = 256 - signal
  exit_status conflict = claim_conflict_exit
  exit_status invalid_claim = 2
  exit_status (not_executable held) = 2
  exit_status not_opened = 1

  -- `main`, whose words are `sys.argv[1:]`
  unfoldable pub main : List String → LockTable → ℕ × LockTable
  unfolding run_claimed
  main words table = elim (parse_arguments words) [
    | err e ↦ (2, table)
    | ok (claims, command) ↦
        let (outcome, table') = run_claimed claims command table in (exit_status outcome, table')
  ]
