-- ===== src/State.antt =====
-- state.py: generations of persistent state. `S` is what the `server` directory holds and `P` what
-- `peers` holds. Messages leave out paths and hints.
pub mod Operation
pub mod Cleaning
pub mod Copy
pub mod Mutate
pub mod View
use shuttle_gate.Base.{
  String, ◌<>◌, ℕ, Bool, true, false, not, ◌&&◌, ◌||◌, Option, none, some, List, [], ◌∷◌, ltb, ◌==◌,
  ◌!=◌, string_eq, if◌then◌else◌, matches_hex,
}
use shuttle_gate.Errors.{Error, state_error, Result, ok, err, ◌>>=◌, ◌>>◌, raise_if}
use shuttle_gate.FilePath.{FilePath}
use shuttle_gate.State.Operation.{Operations, max_manifest_bytes}

-- What a manifest file says: a generation's name under the current schema, or anything else.
pub data ManifestValue : Type 0 where
  manifest_of : String → ManifestValue
  other_value : ManifestValue

-- `parsed` is `none` where the file cannot be read as JSON.
pub record ManifestFile : Type 0 where
  pub regular : Bool
  pub size : ℕ
  pub parsed : Option ManifestValue

-- The two data directories.
pub record Tree (S P : Type 0) : Type 0 where
  pub server : Option S
  pub peers : Option P

-- One child of `generations`, or a staging directory.
pub record Generation (S P : Type 0) : Type 0 where
  pub directory : Bool
  pub tree : Tree S P
  pub operations : Operations
  pub manifest : Option ManifestFile

-- The `current` entry.
pub data Pointer : Type 0 where
  no_pointer : Pointer
  link : FilePath → Pointer
  no_link : Pointer

-- A data directory from before there were generations, or an object in its place.
pub data Legacy (A : Type 0) : Type 0 where
  absent : Legacy A
  directory_of : A → Legacy A
  unexpected : Legacy A

pub record Legacies (S P : Type 0) : Type 0 where
  pub server : Legacy S
  pub peers : Legacy P

-- The state directory. The children of `generations` stand apart by their names' patterns; a stray
-- is a child that no pattern knows. `temporaries` are the targets of the temporary links.
pub record StateDisk (S P : Type 0) : Type 0 where
  pub generations : List (String × Generation S P)
  pub staging : List (Generation S P)
  pub stray_generation : Bool
  pub current : Pointer
  pub temporaries : List FilePath
  pub stray_current : Bool
  pub legacies : Legacies S P

-- GENERATION_PATTERN
unfoldable pub is_generation_name : String → Bool
is_generation_name s = matches_hex "gen-" 32 "" s

abbrev pub pointer_to : String → FilePath
pointer_to name = record { absolute = false; names = "generations" ∷ name ∷ [] }

abbrev check_value : String → ManifestValue → Result (Unit {0})
check_value expected (manifest_of name) =
    raise_if (name != expected) (state_error "state manifest does not match generation")
check_value expected other_value = err (state_error "state manifest does not match generation")

unfoldable pub read_manifest : Option ManifestFile → String → Result (Unit {0})
read_manifest none expected = err (state_error "state generation is incomplete")
read_manifest (some f) expected = do
  raise_if (not f.regular || ltb max_manifest_bytes f.size) (state_error "invalid state manifest")
  elim f.parsed [
    | none ↦ err (state_error "cannot read state manifest")
    | some v ↦ check_value expected v
  ]

abbrev invalid_pointer : Error
invalid_pointer = state_error "invalid persistent-state pointer"

abbrev is_present : {A : Type 0} → Legacy A → Bool
is_present absent = false
is_present legacy = true

module _ {S P : Type 0} where
  unfoldable pub find_generation : String → List (String × Generation S P) → Option (Generation S P)
  find_generation name [] = none
  find_generation name (entry ∷ rest) =
      let later = find_generation name rest in if entry.0 == name then some entry.1 else later

  unfoldable pub legacy_state_present : Legacies S P → Bool
  legacy_state_present l = is_present l.server || is_present l.peers

  -- The generation that a link to this name activates.
  unfoldable pub linked_generation :
      String → Option (Generation S P) → Result (Option (String × Generation S P))
  linked_generation name none = err (state_error "persistent-state pointer is broken")
  linked_generation name (some g) = do
    raise_if (not g.directory) (state_error "state generation must be a directory")
    read_manifest g.manifest name
    ok (some (name, g))

  abbrev follow :
      List (String × Generation S P)
      → Bool
      → List String
      → Result (Option (String × Generation S P))
  follow generations false (first ∷ name ∷ []) = do
    raise_if (first != "generations" || not (is_generation_name name)) invalid_pointer
    linked_generation name (find_generation name generations)
  follow generations absolute names = err invalid_pointer

  -- `_active_generation`
  unfoldable pub active_generation :
      Bool → StateDisk S P → Result (Option (String × Generation S P))
  active_generation required d = by_pointer d.current
    where
      by_pointer : Pointer → Result (Option (String × Generation S P))
      by_pointer no_pointer = do
        raise_if (required && legacy_state_present d.legacies)
            (state_error "legacy key state requires migration")
        raise_if required (state_error "persistent keys are not initialized")
        ok none
      by_pointer no_link = err (state_error "persistent-state pointer must be a symlink")
      by_pointer (link target) = follow d.generations target.absolute target.names

  -- `locked_state_view` of paths without a selected generation, under its lock
  unfoldable pub locked_state_view :
      Bool → StateDisk S P → Result (Option (String × Generation S P))
  locked_state_view required d = do
    active ← active_generation required d
    raise_if (is_none active && legacy_state_present d.legacies)
        (state_error "legacy key state requires migration")
    ok active
    where
      is_none : Option (String × Generation S P) → Bool
      is_none none = true
      is_none (some a) = false
