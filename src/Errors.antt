-- ===== src/Errors.antt =====
-- errors.py: the exception classes, fallible results, and the recovery command in a message.
use shuttle_gate.Base.{
  String, ◌<>◌, ℕ, ◌≡◌, refl, Bool, true, false, ◌||◌, Option, none, some, List, [], ◌∷◌, ◌++◌,
  join, codes, all, is_alnum, contains, nat_eq, string_eq, ◌==◌, if◌then◌else◌, map,
}

-- An exception that the program raises, with its message.
pub data Error : Type 0 where
  configuration_error state_error command_error runtime_failure : String → Error
  transient_runtime_failure host_error claim_error value_error key_error os_error timeout_expired :
      String → Error

pub data Result {ℓ} (A : Type ℓ) : Type ℓ where
  ok : A → Result A
  err : Error → Result A

-- A raised exception passes by what follows.
module _ {ℓ κ} {A : Type ℓ} {B : Type κ} where
  infixl 5 ◌>>=◌
  abbrev pub ◌>>=◌ : Result A → (A → Result B) → Result B
  err raised >>= next = err raised
  ok value >>= next = next value

-- A statement whose value is not used.
module _ {ℓ} {B : Type ℓ} where
  infixl 5 ◌>>◌
  abbrev pub ◌>>◌ : Result (Unit {0}) → Result B → Result B
  statement >> rest = statement >>= λ done. rest

-- `if test: raise e`
abbrev pub raise_if : Bool → Error → Result (Unit {0})
raise_if true e = err e
raise_if false e = ok tt

-- `if test: m`
abbrev pub run_if : Bool → Result (Unit {0}) → Result (Unit {0})
run_if true m = m
run_if false m = ok tt

-- The host-side context of the diagnostics: `_COMMAND_CONTEXT`.
pub record CommandContext : Type 0 where
  pub launcher : String
  pub instance_root : Option String

-- The characters that `shlex.quote` leaves alone.
abbrev is_safe : ℕ → Bool
is_safe c = is_alnum c || contains (codes "_@%+=:,./-") c

abbrev escape_quotes : String → String
escape_quotes String.[] = ""
escape_quotes (String.◌∷◌ c s) =
    let rest = escape_quotes s in
    if String.◌∷◌ c "" == "'" then "'\"'\"'" <> rest else String.◌∷◌ c rest

-- shlex.quote
unfoldable pub quote : String → String
unfolding string_eq nat_eq
quote s =
    if s == "" then "''" else if all is_safe (codes s) then s else "'" <> (escape_quotes s <> "'")

-- shlex.join
unfoldable pub shell_join : List String → String
unfolding quote join
shell_join words = join " " (map quote words)

unfoldable pub command_hint : CommandContext → List String → String
unfolding shell_join
command_hint context arguments =
    "run: " <> shell_join (context.launcher ∷ (selected context.instance_root ++ arguments))
  where
    selected : Option String → List String
    selected none = []
    selected (some root) = "--instance" ∷ root ∷ []

unfoldable pub with_command_hint : CommandContext → String → List String → String
unfolding command_hint
with_command_hint context message arguments = message <> ("; " <> command_hint context arguments)

-- A chain that succeeds: its first part returned a value, and the rest succeeds on it.
module _ {ℓ κ} {A : Type ℓ} {B : Type κ} {end : B} where
  pub >>=-eq-ok :
      (outcome : Result A) (next : A → Result B)
      → (outcome >>= next) ≡ ok end
      → (value : A) × (outcome ≡ ok value) × (next value ≡ ok end)
  >>=-eq-ok (err raised) next h = cc
  >>=-eq-ok (ok value) next h = (value, refl, h)

-- What is raised on a test was not, where the rest succeeds.
pub raise_if-eq-ok {ℓ} :
    {B : Type ℓ} (test : Bool) (e : Error) (m : Result B) {b : B}
    → (raise_if test e >> m) ≡ ok b
    → (test ≡ false) × (m ≡ ok b)
raise_if-eq-ok true e m h = cc
raise_if-eq-ok false e m h = (refl, h)
