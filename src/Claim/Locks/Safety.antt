-- ===== src/Claim/Locks/Safety.antt =====
-- The locks of `run_claimed` (claim.py) before, during and after its command.
use shuttle_gate.Base.{
  String, ◌≡◌, refl, true, false, List, [], ◌∷◌, ◌++◌, Option, All, arith, contains, eq_self,
}
use shuttle_gate.FilePath.{FilePath, path_eq}
use shuttle_gate.Claim.Locks.{
  ClaimFile, LockTable, ReturnCode, exited, release, release_all, acquire, run_claimed,
}

abbrev pub Holds : LockTable → FilePath → Type 0
Holds table claim = contains table claim ≡ true

abbrev pub IsFree : LockTable → FilePath → Type 0
IsFree table claim = contains table claim ≡ false

release-cons : (claim : FilePath) (table : LockTable) → release claim (claim ∷ table) ≡ table
unfolding release
release-cons claim table = ground arith

release_all-append :
    (mine : List FilePath) (table : LockTable) → release_all mine (mine ++ table) ≡ table
unfolding release_all
release_all-append [] table = refl
release_all-append (claim ∷ mine) table =
    rw (release-cons claim (mine ++ table)) (release_all-append mine table)

All-IsFree_tail :
    (claim : FilePath) (table : LockTable) (claims : List FilePath)
    → All (IsFree (claim ∷ table)) claims
    → All (IsFree table) claims
All-IsFree_tail claim table [] h = tt
All-IsFree_tail claim table (c ∷ claims) h = (ground arith, All-IsFree_tail claim table claims h.1)

module _ (files : FilePath → Option ClaimFile) (execute : List String → Option ReturnCode) where
  acquire_restores :
      (mine claims : List FilePath) (command : List String) (table : LockTable)
      → (acquire files execute mine claims command (mine ++ table)).1 ≡ table
  unfolding acquire
  acquire_restores mine [] command table = ground (arith, release_all-append mine table)
  acquire_restores mine (claim ∷ claims) command table =
      ground
        (arith, release_all-append mine table, acquire_restores (claim ∷ mine) claims command table)

  -- Whatever happens, the wrapper leaves the lock table as it found it.
  pub run_claimed_restores :
      (claims : List FilePath) (command : List String) (table : LockTable)
      → (run_claimed files execute claims command table).1 ≡ table
  unfolding run_claimed
  run_claimed_restores claims command table = acquire_restores [] claims command table

  acquire_step :
      (mine : List FilePath) (claim : FilePath) (claims : List FilePath) (command : List String)
      (table : LockTable) {status : ReturnCode} {held : LockTable}
      → (acquire files execute mine (claim ∷ claims) command table).0 ≡ exited status held
      → IsFree table claim
        × ((acquire files execute (claim ∷ mine) claims command (claim ∷ table)).0
            ≡ exited status held)
  unfolding acquire
  acquire_step mine claim claims command table h = ground arith

  acquire_exclusive :
      (mine claims : List FilePath) (command : List String) (table : LockTable)
      {status : ReturnCode} {held : LockTable}
      → (acquire files execute mine claims command table).0 ≡ exited status held
      → All (IsFree table) claims
        × All (Holds held) claims
        × ((c : FilePath) → Holds table c → Holds held c)
  unfolding acquire
  acquire_exclusive mine [] command table h = (tt, tt, λ c k. ground arith)
  acquire_exclusive mine (claim ∷ claims) command table h =
      let (free, rest) = acquire_step mine claim claims command table h in
      let (all_free, all_held, kept) =
        acquire_exclusive (claim ∷ mine) claims command (claim ∷ table) rest in
      (
        (free, All-IsFree_tail claim table claims all_free),
        (kept claim (ground (arith, eq_self claim)), all_held),
        λ c k. kept c (ground arith),
      )

  -- If the command ran to its end, nobody held any of the claims before, and all of them were held
  -- while it ran.
  pub run_claimed_exclusive :
      (claims : List FilePath) (command : List String) (table : LockTable) {status : ReturnCode}
      {held : LockTable}
      → (run_claimed files execute claims command table).0 ≡ exited status held
      → All (IsFree table) claims × All (Holds held) claims
  unfolding run_claimed
  run_claimed_exclusive claims command table h =
      let (free, holds, kept) = acquire_exclusive [] claims command table h in (free, holds)
