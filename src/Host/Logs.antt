-- ===== src/Host/Logs.antt =====
-- `_validated_tail` and `logs_command` of host.py
pub mod Asked
pub mod Bounded
use shuttle_gate.Base.{
  ◌≡◌, ◌≤◌, ◌⊎◌, inl, inr, refl, arith, subst, Bool-cases, ap, String, ◌<>◌, ℕ, ◌+◌, ◌-◌, ◌*◌, Bool,
  true, false, not, ◌&&◌, ◌||◌, Option, none, some, List, [], ◌∷◌, ◌++◌, all, codes, is_digit,
  is_empty, length, ltb, ◌==◌, string_eq, nat_eq, if◌then◌else◌,
}
use shuttle_gate.Errors.{Error, host_error, Result, ok, err, ◌>>=◌, ◌>>◌, raise_if}

abbrev pub logs_usage : Error
logs_usage = host_error "usage: ./shuttle-gate logs [--follow] [--timestamps] [--tail LINES|all]"

-- int(value) of ASCII digits
abbrev pub decimal_value : ℕ → List ℕ → ℕ
decimal_value n [] = n
decimal_value n (c ∷ rest) = decimal_value (10 * n + (c - 48)) rest

unfoldable pub validated_tail : String → Result String
validated_tail value =
    if value == "all"
    then ok value
    else if is_empty (codes value) || not (all is_digit (codes value))
    then err logs_usage
    else if ltb 7 (length (codes value)) || ltb 1000000 (decimal_value 0 (codes value))
    then err (host_error "log tail exceeds 1000000 lines")
    else ok value

abbrev after_prefix : String → String → Option String
after_prefix String.[] word = some word
after_prefix (String.◌∷◌ p prefix) String.[] = none
after_prefix (String.◌∷◌ p prefix) (String.◌∷◌ c word) =
    let rest = after_prefix prefix word in if String.◌∷◌ p "" == String.◌∷◌ c "" then rest else none

-- What a word of the command line asks for.
pub data Word : Type 0 where
  follow_word timestamps_word next_is_tail unknown_word : Word
  tail_word : String → Word

unfoldable pub word_of : String → Word
word_of word =
    if word == "-f" || word == "--follow"
    then follow_word
    else if word == "--timestamps"
    then timestamps_word
    else if word == "-n" || word == "--tail"
    then next_is_tail
    else elim (after_prefix "--tail=" word) [ none ↦ unknown_word | some value ↦ tail_word value ]

pub record LogOptions : Type 0 where
  pub follow : Bool
  pub timestamps : Bool
  pub tail : Option String

-- The `while` loop.
unfoldable pub read_options : LogOptions → List String → Result LogOptions
read_options o [] = ok o
read_options o (word ∷ []) = elim (word_of word) [
  | follow_word ↦ ok (record o { follow = true })
  | timestamps_word ↦ ok (record o { timestamps = true })
  | next_is_tail ↦ err logs_usage
  | unknown_word ↦ err logs_usage
  | tail_word value ↦ elim (validated_tail value) [
    | err e ↦ err e
    | ok t ↦ ok (record o { tail = some t })
  ]
]
read_options o (word ∷ value ∷ rest) = elim (word_of word) [
  | follow_word ↦ read_options (record o { follow = true }) (value ∷ rest)
  | timestamps_word ↦ read_options (record o { timestamps = true }) (value ∷ rest)
  | next_is_tail ↦ elim (validated_tail value) [
    | err e ↦ err e
    | ok t ↦ read_options (record o { tail = some t }) rest
  ]
  | unknown_word ↦ err logs_usage
  | tail_word v ↦ elim (validated_tail v) [
    | err e ↦ err e
    | ok t ↦ read_options (record o { tail = some t }) (value ∷ rest)
  ]
]

unfoldable pub tail_words : Option String → Bool → List String
tail_words none follow = if follow then "--lines" ∷ "10" ∷ [] else []
tail_words (some t) follow =
    if t == "all" then if follow then "--no-tail" ∷ [] else [] else "--lines" ∷ t ∷ []

-- `journalctl` is the path that `_command` finds.
unfoldable pub logs_command : String → String → List String → Result (List String)
logs_command journalctl unit_name arguments = do
  o ← read_options (record { follow = false; timestamps = false; tail = none }) arguments
  ok (
      journalctl
      ∷ "--user"
      ∷ "--unit"
      ∷ unit_name
      ∷ "--no-pager"
      ∷ "--output"
      ∷ (if o.timestamps then "short-iso-precise" else "cat")
      ∷ (tail_words o.tail o.follow ++ (if o.follow then "--follow" ∷ [] else [])))
