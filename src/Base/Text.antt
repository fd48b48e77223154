-- ===== src/Base/Text.antt =====
-- Texts: joining, decimal numbers, and the character classes of the source's patterns.
use Prim.Native.Nat.{ℕ, zero, suc, ◌/◌, ◌%◌}
use Prim.Native.Char.{code}
use Prim.Native.String.{String, ◌++◌ as ◌<>◌}
use mathlib.Core.Bool.{Bool, true, false, ◌&&◌, ◌||◌}
use mathlib.Core.Option.{Option, none, some}
use mathlib.Core.List.{List, [], ◌∷◌}
use shuttle_gate.Base.Tests.{ltb, leb, nat_eq, if◌then◌else◌, ◌==◌, string_eq}
use shuttle_gate.Base.Lists.{length, all}

-- The code points of a text.
abbrev pub codes : String → List ℕ
codes String.[] = []
codes (String.◌∷◌ c s) = code c ∷ codes s

-- sep.join(parts)
unfoldable pub join : String → List String → String
join sep [] = ""
join sep (s ∷ []) = s
join sep (s ∷ t ∷ rest) = s <> (sep <> join sep (t ∷ rest))

digit_text : ℕ → String
unfolding nat_eq
digit_text d =
    if d == 0
    then "0"
    else if d == 1
    then "1"
    else if d == 2
    then "2"
    else if d == 3
    then "3"
    else if d == 4
    then "4"
    else if d == 5
    then "5"
    else if d == 6
    then "6"
    else if d == 7
    then "7"
    else if d == 8
    then "8"
    else "9"

decimal : ℕ → ℕ → String → String
unfolding digit_text
decimal zero n rest = rest
decimal (suc fuel) n rest =
    let text = digit_text (n % 10) <> rest in
    let more = decimal fuel (n / 10) text in if ltb n 10 then text else more

-- str(n). Every number that the source prints has at most 20 digits.
unfoldable pub show : ℕ → String
unfolding decimal
show n = decimal 20 n ""

abbrev pub is_lower : ℕ → Bool
is_lower c = leb b'a' c && leb c b'z'

abbrev pub is_upper : ℕ → Bool
is_upper c = leb b'A' c && leb c b'Z'

abbrev pub is_digit : ℕ → Bool
is_digit c = leb b'0' c && leb c b'9'

abbrev pub is_alnum : ℕ → Bool
is_alnum c = is_lower c || is_upper c || is_digit c

-- [0-9a-f]
abbrev pub is_hex : ℕ → Bool
is_hex c = is_digit c || (leb b'a' c && leb c b'f')

-- str.isprintable over ASCII
abbrev pub is_printable : String → Bool
is_printable s = all (λ c. leb 32 c && ltb c 127) (codes s)

-- `^first rest{0,most}$`
unfoldable pub matches : (ℕ → Bool) → (ℕ → Bool) → ℕ → List ℕ → Bool
matches first rest most [] = false
matches first rest most (c ∷ cs) = first c && leb (length cs) most && all rest cs

-- What is left of a text behind a prefix, if it has it: str.startswith and str.removeprefix.
unfoldable pub strip : List ℕ → List ℕ → Option (List ℕ)
unfolding nat_eq
strip [] cs = some cs
strip (p ∷ ps) [] = none
strip (p ∷ ps) (c ∷ cs) = let rest = strip ps cs in if p == c then rest else none

-- What is left behind a number of hexadecimal digits.
unfoldable pub after_hex : ℕ → List ℕ → Option (List ℕ)
after_hex zero cs = some cs
after_hex (suc n) [] = none
after_hex (suc n) (c ∷ cs) = let rest = after_hex n cs in if is_hex c then rest else none

abbrev is_nil : Option (List ℕ) → Bool
is_nil (some []) = true
is_nil _ = false

-- `^prefix[0-9a-f]{width}suffix$`
unfoldable pub matches_hex : String → ℕ → String → String → Bool
unfolding strip after_hex
matches_hex prefix width suffix s = elim (strip (codes prefix) (codes s)) [
  | none ↦ false
  | some rest ↦ elim (after_hex width rest) [
    | none ↦ false
    | some end ↦ is_nil (strip (codes suffix) end)
  ]
]
