-- ===== src/Claim/Arguments.antt =====
-- `parse_arguments` of claim.py, and `claim_command` of host.py, which writes what it reads.
pub mod RoundTrip
use shuttle_gate.Base.{
  String, ℕ, ◌≡◌, refl, ap, Bool, true, false, not, ◌||◌, ◌&&◌, List, [], ◌∷◌, ◌++◌, Option, none,
  some, arith, All, any, Eq, ◌==◌, ◌!=◌, string_eq, nat_eq, if◌then◌else◌, codes, length,
  matches_hex, concat_map, ◌∙◌, Bool-cases, inl, inr, list_eq, map,
}
use shuttle_gate.Errors.{Error, claim_error, value_error, Result, ok, err, ◌>>=◌, ◌>>◌, raise_if}
use shuttle_gate.FilePath.{FilePath, path, path_text, path_eq, parent, name}
use shuttle_gate.FilePath.Sorted.{sorted_set, Ascending, sorted_set_of_Ascending}

-- CLAIM_PATTERN
unfoldable pub is_claim_name : String → Bool
unfolding matches_hex
is_claim_name s = matches_hex "" 64 ".lock" s

-- The `while` loop: the claims, and the words from the first one that is no `--claim`.
unfoldable pub take_claims : List FilePath → List String → Result (List FilePath × List String)
unfolding string_eq
take_claims claims [] = ok (claims, [])
take_claims claims (word ∷ []) =
    if word == "--claim"
    then err (claim_error "--claim requires a path")
    else ok (claims, word ∷ [])
take_claims claims (word ∷ value ∷ rest) =
    let more = take_claims (claims ++ path value ∷ []) rest in
    if word == "--claim" then more else ok (claims, word ∷ value ∷ rest)

-- The test on each claim, given the first claim's parent.
unfoldable pub is_misplaced : FilePath → FilePath → Bool
is_misplaced directory claim =
    not claim.absolute || parent claim != directory || not (is_claim_name (name claim))

-- What follows the loop, on the claims and the words that are left.
unfoldable pub check_plan : List FilePath → List String → Result (List FilePath × List String)
unfolding string_eq
check_plan (first ∷ more) (mark ∷ program ∷ rest) =
    if mark == "--"
    then (do
      raise_if (first ∷ more != sorted_set (first ∷ more))
          (claim_error "claim paths must be unique and sorted")
      raise_if (any (is_misplaced (parent first)) (first ∷ more))
          (claim_error "claim paths have an invalid structure")
      raise_if (not (path program).absolute)
          (claim_error "runtime command must use an absolute executable path")
      ok (first ∷ more, program ∷ rest))
    else err (claim_error "expected one or more claims followed by -- COMMAND")
check_plan _ _ = err (claim_error "expected one or more claims followed by -- COMMAND")

unfoldable pub parse_arguments : List String → Result (List FilePath × List String)
unfolding take_claims check_plan
parse_arguments arguments = do (claims, values) ← take_claims [] arguments; check_plan claims values

-- The words of `claim_command` behind `-m shuttle_gate.claim`: what the module finds in
-- `sys.argv[1:]`.
unfoldable pub claim_words : List FilePath → List String → List String
claim_words claims inner =
    concat_map (λ claim. "--claim" ∷ path_text claim ∷ []) claims ++ "--" ∷ inner

-- `claim_command` of host.py. `executable` is `sys.executable`.
unfoldable pub claim_command : String → List FilePath → List String → Result (List String)
unfolding claim_words
claim_command executable [] inner = err (value_error "claims and runtime command must not be empty")
claim_command executable claims [] =
    err (value_error "claims and runtime command must not be empty")
claim_command executable claims inner =
    ok (executable ∷ "-P" ∷ "-m" ∷ "shuttle_gate.claim" ∷ claim_words claims inner)
