-- ===== src/Tests/Claims.antt =====
-- One claim, one command.
use shuttle_gate.Base.{
  String, ◌≡◌, refl, true, Option, some, List, [], ◌∷◌, All, string_eq, nat_eq, list_eq,
  matches_hex, join,
}
use shuttle_gate.Errors.{ok}
use shuttle_gate.FilePath.{FilePath, path, path_text, path_eq, parent, name}
use shuttle_gate.Claim.Arguments.{parse_arguments, claim_words, is_claim_name, is_misplaced}
use shuttle_gate.Claim.Arguments.RoundTrip.{
  IsClaimSet, IsPlan, parse_arguments-claim_words, parse_arguments-IsPlan,
}
use shuttle_gate.Claim.Locks.{ClaimFile, ReturnCode, exit_code, run_claimed, acquire, is_invalid}
use shuttle_gate.Claim.Locks.Safety.{Holds, IsFree, run_claimed_restores, run_claimed_exclusive}

abbrev claim : FilePath
claim = record {
  absolute = true;
  names =
      "run" ∷ "claims" ∷ "aaaaaaaaaaaaaaaaaaaaaaaaaaaaaaaaaaaaaaaaaaaaaaaaaaaaaaaaaaaaaaaa.lock"
      ∷ [];
}

abbrev files : FilePath → Option ClaimFile
files p = some (record { regular = true; owned = true; mode = 0o600 })

abbrev execute : List String → Option ReturnCode
execute command = some (exit_code 3)

abbrev command : List String
command = "/usr/bin/pasta" ∷ "--quiet" ∷ []

claim-IsClaimSet : IsClaimSet claim []
unfolding path path_text join string_eq is_misplaced is_claim_name matches_hex path_eq nat_eq parent
    name
claim-IsClaimSet = record { spelled = (refl, tt); ascending = tt; placed = refl }

run_claimed_exclusive_example : All (IsFree []) (claim ∷ []) × All (Holds (claim ∷ [])) (claim ∷ [])
unfolding run_claimed acquire is_invalid nat_eq path_eq
run_claimed_exclusive_example =
    run_claimed_exclusive files execute (claim ∷ []) command [] {status = exit_code 3}
      {held = claim ∷ []} refl

run_claimed_restores_example : (run_claimed files execute (claim ∷ []) command []).1 ≡ []
run_claimed_restores_example = run_claimed_restores files execute (claim ∷ []) command []

parse_arguments-claim_words_example :
    parse_arguments (claim_words (claim ∷ []) command) ≡ ok (claim ∷ [], command)
unfolding path string_eq
parse_arguments-claim_words_example =
    parse_arguments-claim_words claim [] "/usr/bin/pasta" ("--quiet" ∷ []) claim-IsClaimSet refl

parse_arguments-IsPlan_example : IsPlan (claim ∷ []) command
parse_arguments-IsPlan_example =
    parse_arguments-IsPlan (claim_words (claim ∷ []) command) {claims = claim ∷ []}
      {command = command} parse_arguments-claim_words_example
