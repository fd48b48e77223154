-- ===== src/FilePath.antt =====
-- pathlib.Path as the program uses it: whether it is absolute, and its components.
pub mod Sorted
use shuttle_gate.Base.{
  String, ◌<>◌, Bool, false, ◌||◌, List, [], ◌∷◌, ◌++◌, Eq, string_eq, ◌==◌, if◌then◌else◌, join,
}
use mathlib.Core.List.{get_last?, drop_last}
use mathlib.Core.Option.{get_or}

pub record FilePath : Type 0 where
  pub absolute : Bool
  pub names : List String

text_dec : Discrete String
unfolding string_eq
text_dec = string_eq.dec

path_dec : Discrete FilePath
path_dec = hlevel text_dec

instance unfoldable pub path_eq : Eq FilePath
unfolding path_dec text_dec
path_eq = record { dec = path_dec }

-- The components of a text, split at "/", without "" and ".".
abbrev push : String → List String → List String
push s rest = if s == "" || s == "." then rest else s ∷ rest

abbrev split : String → String → List String
split word String.[] = push word []
split word (String.◌∷◌ c s) =
    let new = push word (split "" s) in
    let more = split (word <> String.◌∷◌ c "") s in if String.◌∷◌ c "" == "/" then new else more

abbrev starts_at_root : String → Bool
starts_at_root String.[] = false
starts_at_root (String.◌∷◌ c s) = String.◌∷◌ c "" == "/"

-- Path(text)
unfoldable pub path : String → FilePath
unfolding string_eq
path text = record { absolute = starts_at_root text; names = split "" text }

-- str(path)
unfoldable pub path_text : FilePath → String
unfolding join
path_text p =
    if p.absolute
    then "/" <> join "/" p.names
    else elim p.names [ [] ↦ "." | n ∷ ns ↦ join "/" (n ∷ ns) ]

-- base / name
infixl 70 ◌/◌
unfoldable pub ◌/◌ : FilePath → String → FilePath
p / name = record p { names = p.names ++ name ∷ [] }

unfoldable pub parent : FilePath → FilePath
parent p = record p { names = drop_last p.names }

unfoldable pub name : FilePath → String
name p = get_or (get_last? p.names) ""
