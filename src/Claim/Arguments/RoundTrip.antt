-- ===== src/Claim/Arguments/RoundTrip.antt =====
-- What `claim_command` of host.py writes and what `parse_arguments` of claim.py accepts.
use shuttle_gate.Base.{
  String, ◌≡◌, sym, ap, true, false, List, [], ◌∷◌, ◌++◌, arith, All, any, ◌!=◌, list_eq, ne_self,
  subst,
}
use mathlib.Core.List.{append_assoc, append-nil}
use shuttle_gate.Errors.{ok, >>=-eq-ok}
use shuttle_gate.FilePath.{FilePath, path, path_text, path_eq, parent, name}
use shuttle_gate.FilePath.Sorted.{
  sorted_set, Ascending, sorted_set_of_Ascending, sorted_set-Ascending,
}
use shuttle_gate.Claim.Arguments.{
  take_claims, check_plan, is_misplaced, parse_arguments, claim_words, is_claim_name,
}

-- A claim that `Path` reads back from its text.
abbrev pub IsSpelled : FilePath → Type 0
IsSpelled claim = path (path_text claim) ≡ claim

-- A set of claims that the wrapper takes: sorted, and each a lock file below the first one's parent.
pub record IsClaimSet (first : FilePath) (claims : List FilePath) : Type 0 where
  pub spelled : All IsSpelled (first ∷ claims)
  pub ascending : Ascending (first ∷ claims)
  pub placed : any (is_misplaced (parent first)) (first ∷ claims) ≡ false

take_claims-claim_words :
    (seen claims : List FilePath) (program : String) (rest : List String)
    → All IsSpelled claims
    → take_claims seen (claim_words claims (program ∷ rest))
      ≡ ok (seen ++ claims, "--" ∷ program ∷ rest)
unfolding take_claims claim_words
take_claims-claim_words seen [] program rest h =
    ap (λ c. ok (c, "--" ∷ program ∷ rest)) (sym (append-nil seen))
take_claims-claim_words seen (claim ∷ claims) program rest h =
    rw h.0 (rw (take_claims-claim_words (seen ++ claim ∷ []) claims program rest h.1, append_assoc))

-- The words that `claim_command` writes are parsed to the claims and the command that it was given,
-- if the claims are a set that the wrapper takes and the program's path is absolute.
pub parse_arguments-claim_words :
    (first : FilePath) (claims : List FilePath) (program : String) (rest : List String)
    → IsClaimSet first claims
    → (path program).absolute ≡ true
    → parse_arguments (claim_words (first ∷ claims) (program ∷ rest))
      ≡ ok (first ∷ claims, program ∷ rest)
unfolding parse_arguments
parse_arguments-claim_words first claims program rest s absolute =
    rw (take_claims-claim_words [] (first ∷ claims) program rest s.spelled)
      (rw (sorted_set_of_Ascending (first ∷ claims) s.ascending, ne_self, s.placed, absolute))

-- A lock file beside another one.
abbrev pub IsPlaced : FilePath → FilePath → Type 0
IsPlaced directory claim =
    (claim.absolute ≡ true) × (parent claim ≡ directory) × (is_claim_name (name claim) ≡ true)

IsPlaced-All :
    (directory : FilePath) (claims : List FilePath)
    → any (is_misplaced directory) claims ≡ false
    → All (IsPlaced directory) claims
unfolding is_misplaced
IsPlaced-All directory [] h = tt
IsPlaced-All directory (claim ∷ claims) h =
    ((ground arith, ground arith, ground arith), IsPlaced-All directory claims (ground arith))

Ascending-of_sorted :
    (claims : List FilePath) → (claims != sorted_set claims) ≡ false → Ascending claims
Ascending-of_sorted claims h =
    let e : claims ≡ sorted_set claims = ground arith in
    subst Ascending (sym e) (sorted_set-Ascending claims)

-- A sorted, non-empty set of lock files in one directory, before an absolute program.
abbrev pub IsPlan : List FilePath → List String → Type 0
IsPlan (first ∷ more) (program ∷ rest) =
    Ascending (first ∷ more)
    × All (IsPlaced (parent first)) (first ∷ more)
    × ((path program).absolute ≡ true)
IsPlan _ _ = ⊥

check_plan-IsPlan :
    (taken : List FilePath) (values : List String) {claims : List FilePath} {command : List String}
    → check_plan taken values ≡ ok (claims, command)
    → IsPlan claims command
unfolding check_plan
check_plan-IsPlan (first ∷ more) (mark ∷ program ∷ rest) {claims} {command} h =
    let e : claims ≡ first ∷ more = ground arith in
    let e' : command ≡ program ∷ rest = ground arith in
    let sorted : (first ∷ more != sorted_set (first ∷ more)) ≡ false = ground arith in
    let placed : any (is_misplaced (parent first)) (first ∷ more) ≡ false = ground arith in
    rw (e, e')
      (
        Ascending-of_sorted (first ∷ more) sorted,
        IsPlaced-All (parent first) (first ∷ more) placed,
        ground arith,
      )
check_plan-IsPlan (first ∷ more) (mark ∷ []) h = cc
check_plan-IsPlan (first ∷ more) [] h = cc
check_plan-IsPlan [] values h = cc

-- If words are accepted, the claims are not empty, strictly ascending, and all absolute paths of lock
-- files in the first one's directory, and the command begins with an absolute path.
pub parse_arguments-IsPlan :
    (words : List String) {claims : List FilePath} {command : List String}
    → parse_arguments words ≡ ok (claims, command)
    → IsPlan claims command
unfolding parse_arguments
parse_arguments-IsPlan words h =
    let ((taken, values), _, checked) = >>=-eq-ok (take_claims [] words) _ h in
    check_plan-IsPlan taken values checked
