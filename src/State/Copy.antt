-- ===== src/State/Copy.antt =====
-- state.py: what `mutate_state` reads: the data to copy (`_copy_active`, `_copy_legacy_state`), the
-- recorded result of an operation, and the generation that is active after publication.
use shuttle_gate.Base.{
  String, Bool, true, false, Option, none, some, List, [], ◌∷◌, ◌!=◌, string_eq,
}
use shuttle_gate.Errors.{state_error, os_error, Result, ok, err, ◌>>=◌, ◌>>◌, raise_if}
use shuttle_gate.State.{
  Tree, Generation, Pointer, no_pointer, link, no_link, Legacy, absent, directory_of, unexpected,
  Legacies, StateDisk, find_generation, active_generation,
}
use shuttle_gate.State.Operation.{Operations, StateOperation, read_operation}

abbrev legacy_directory : {A : Type 0} → Legacy A → Result (Option A)
legacy_directory absent = ok none
legacy_directory (directory_of a) = ok (some a)
legacy_directory unexpected = err (state_error "legacy state must be a directory")

module _ {S P : Type 0} where
  -- `_copy_legacy_state`
  unfoldable pub copy_legacy_state : Legacies S P → Result (Tree S P)
  copy_legacy_state legacies = do
    server ← legacy_directory legacies.server
    peers ← legacy_directory legacies.peers
    ok (record { server = server; peers = peers })

  -- `_copy_active`, or the data from before there were generations if none is active.
  unfoldable pub copy_active :
      Option (String × Generation S P) → Legacies S P → Result (Tree S P × Operations)
  unfolding copy_legacy_state
  copy_active none legacies = do tree ← copy_legacy_state legacies; ok (tree, [])
  copy_active (some (name, g)) legacies = ok (g.tree, g.operations)

  unfoldable pub completed :
      {T : Type 0}
      → Option (StateOperation T)
      → Option (String × Generation S P)
      → Result (Option T)
  completed operation none = ok none
  completed none (some (active, g)) = ok none
  completed (some o) (some (active, g)) = read_operation o g.operations

  abbrev pub staged_tree : List (Generation S P) → Result (Tree S P)
  staged_tree [] = err (os_error "No such file or directory")
  staged_tree (g ∷ rest) = ok g.tree

  -- The mutator and the validator work on the staged data directories.
  unfoldable pub mutate_staged :
      {T : Type 0} → (Tree S P → Result (T × Tree S P)) → StateDisk S P → Result (T × Tree S P)
  mutate_staged mutator d = do tree ← staged_tree d.staging; mutator tree

  unfoldable pub validate_staged :
      (Tree S P → Result (Unit {0})) → StateDisk S P → Result (Unit {0})
  validate_staged validator d = do tree ← staged_tree d.staging; validator tree

  unfoldable pub validate_active :
      (Tree S P → Result (Unit {0})) → Option (String × Generation S P) → Result (Unit {0})
  validate_active validator none = ok tt
  validate_active validator (some (name, g)) = validator g.tree

  abbrev final_tree : String → Option (String × Generation S P) → Result (Tree S P)
  final_tree name none = err (state_error "persistent-state publication could not be verified")
  final_tree name (some (active, g)) = do
    raise_if (active != name) (state_error "persistent-state publication could not be verified")
    ok g.tree

  -- The published generation is the active one.
  unfoldable pub active_tree : String → StateDisk S P → Result (Tree S P)
  unfolding active_generation string_eq
  active_tree name d = do active ← active_generation true d; final_tree name active

  -- `(state / CURRENT_LINK).exists()`, which follows the link.
  unfoldable pub current_exists : StateDisk S P → Bool
  unfolding find_generation
  current_exists d = by_pointer d.current
    where
      found : Option (Generation S P) → Bool
      found none = false
      found (some g) = true

      by_names : List String → Bool
      by_names (first ∷ name ∷ []) = found (find_generation name d.generations)
      by_names names = false

      by_pointer : Pointer → Bool
      by_pointer no_pointer = false
      by_pointer no_link = true
      by_pointer (link target) = by_names target.names
