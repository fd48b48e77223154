-- ===== src/State/Mutate.antt =====
-- state.py: `mutate_state`, which builds, validates and publishes one generation, with the cleaning
-- before and after it. A write may be the last before a crash, but raises nothing: the OSErrors of
-- `_publish`, and the handler for them, are not modelled.
pub mod Spec
pub mod Clean
pub mod Stage
pub mod Publish
pub mod Resume
pub mod Refines
pub mod Retry
pub mod Once
use shuttle_gate.Base.{
  String, ◌<>◌, ℕ, Bool, true, false, not, ◌||◌, Option, none, some, List, [], ◌∷◌, map, ◌==◌, ◌!=◌,
  string_eq, if◌then◌else◌,
}
use shuttle_gate.Errors.{Error, state_error, Result, ok, err, raise_if}
use shuttle_gate.FilePath.{FilePath}
use shuttle_gate.Durable.{Durable, pure, raise, reads, write, rescue, ◌>>=◌, ◌>>◌}
use shuttle_gate.State.{
  ManifestFile, manifest_of, Tree, Generation, Pointer, link, Legacy, absent, directory_of,
  unexpected, Legacies, StateDisk, pointer_to, active_generation,
}
use shuttle_gate.State.Copy.{
  copy_active, completed, validate_staged, mutate_staged, validate_active, active_tree,
  current_exists,
}
use shuttle_gate.State.Operation.{Operations, StateOperation, write_operation}
use shuttle_gate.State.Cleaning.{
  rest_of, pop_staging, clean_incomplete, remove_generation, clean_generations, clean_legacy_state,
}

-- The arguments of one call. The mutator works on the staged data directories; a Python `None` for
-- `publish_if` or `operation` is `none`.
pub record Mutation (S P T : Type 0) : Type 0 where
  pub mutator : Tree S P → Result (T × Tree S P)
  pub validator : Tree S P → Result (Unit {0})
  pub publish_if : Option (T → Bool)
  pub operation : Option (StateOperation T)

abbrev pub name_of : {A : Type 0} → Option (String × A) → Option String
name_of none = none
name_of (some (name, a)) = some name

module _ {S P : Type 0} where
  abbrev pub staged_generation : Tree S P → Operations → Generation S P
  staged_generation tree operations = record {
    directory = true;
    tree = tree;
    operations = operations;
    manifest = none;
  }

  abbrev pub edit_first :
      (Generation S P → Generation S P) → List (Generation S P) → List (Generation S P)
  edit_first f [] = []
  edit_first f (g ∷ rest) = f g ∷ rest

  -- A write into the staging directory.
  abbrev pub edit_staging : (Generation S P → Generation S P) → StateDisk S P → StateDisk S P
  edit_staging f d = record d { staging = edit_first f d.staging }

  abbrev pub add_staging : StateDisk S P → StateDisk S P
  add_staging d = record d {
    staging = staged_generation (record { server = none; peers = none }) [] ∷ d.staging;
  }

  abbrev pub with_first :
      String
      → List (Generation S P)
      → List (String × Generation S P)
      → List (String × Generation S P)
  with_first name [] entries = entries
  with_first name (g ∷ rest) entries = (name, g) ∷ entries

  -- `os.replace(staging, final)`
  abbrev pub rename_staging : String → StateDisk S P → StateDisk S P
  rename_staging name d = record d {
    staging = rest_of d.staging;
    generations = with_first name d.staging d.generations;
  }

-- The manifest's text has `size` bytes.
abbrev pub manifest_file : String → ℕ → ManifestFile
manifest_file name size = record { regular = true; size = size; parsed = some (manifest_of name) }

module _ {S P : Type 0} (name : String) (manifest_size : ℕ) where
  -- `_publish`
  unfoldable pub publish : Durable (StateDisk S P) (Unit {0})
  unfolding ◌>>=◌
  publish = do
    write (edit_staging (λ g. record g { manifest = some (manifest_file name manifest_size) }))
    write (rename_staging name)
    write (λ d. record d { temporaries = pointer_to name ∷ d.temporaries })
    write (λ d. record d { current = link (pointer_to name); temporaries = rest_of d.temporaries })

module _ {S P T : Type 0} (m : Mutation S P T) where
  unfoldable pub is_published : T → Bool
  is_published t = elim m.publish_if [ none ↦ true | some test ↦ test t ]

  -- The receipts with that of this operation, whose text has `size` bytes.
  unfoldable pub recorded : ℕ → T → Operations → Operations
  recorded size t operations = elim m.operation [
    | none ↦ operations
    | some o ↦ write_operation o size t operations
  ]

module _ {S P : Type 0} where
  -- The handler while no generation was published.
  unfoldable pub drop_staging : {A : Type 0} → Error → Durable (StateDisk S P) A
  unfolding ◌>>=◌
  drop_staging e = write pop_staging >> raise e

module _ {S P : Type 0} (name : String) where
  -- The staging directory is gone by then. The new generation is, if nothing links to it.
  unfoldable pub discard : {A : Type 0} → Error → Durable (StateDisk S P) A
  unfolding ◌>>=◌ current_exists
  discard e = do
    exists ← reads (λ d. ok (current_exists d))
    elim exists [ true ↦ raise e | false ↦ write (remove_generation name) >> raise e ]

module _ {S P T : Type 0} (m : Mutation S P T) (name : String) where
  -- The rest of the `try`: the published generation is active and valid.
  unfoldable pub verify : Durable (StateDisk S P) (Unit {0})
  unfolding ◌>>=◌
  verify = do tree ← reads (λ d. active_tree name d); reads (λ d. m.validator tree)

  -- What follows the body, by whether a generation was published.
  unfoldable pub conclude : T → Bool → Durable (StateDisk S P) T
  unfolding ◌>>=◌ verify discard rescue clean_generations clean_legacy_state
  conclude result false = pure result
  conclude result true = do
    rescue (discard name) verify
    clean_generations (some name)
    clean_legacy_state
    pure result

-- One call, which draws the generation's name.
module _ {S P T : Type 0} (m : Mutation S P T) (name : String)
    (receipt_size manifest_size : ℕ) where
  unfoldable pub stage : T → Bool → Durable (StateDisk S P) (T × Bool)
  unfolding ◌>>=◌ recorded publish
  stage result false = do write pop_staging; pure (result, false)
  stage result true = do
    write
        (edit_staging (λ g. record g { operations = recorded m receipt_size result g.operations }))
    reads (validate_staged m.validator)
    publish name manifest_size
    pure (result, true)

  unfoldable pub run_mutator : Durable (StateDisk S P) (T × Bool)
  unfolding ◌>>=◌ is_published stage
  run_mutator = do
    (result, changed) ← reads (mutate_staged m.mutator)
    write (edit_staging (λ g. record g { tree = changed }))
    stage result (is_published m result)

  -- The body of the `try` until publication: the result, and whether a generation was published.
  unfoldable pub build : Option (String × Generation S P) → Durable (StateDisk S P) (T × Bool)
  unfolding ◌>>=◌ run_mutator copy_active
  build active = do
    write add_staging
    (tree, operations) ← reads (λ d. copy_active active d.legacies)
    write (edit_staging (λ g. staged_generation tree operations))
    run_mutator

  -- A recorded operation is not run again.
  unfoldable pub run_or_return :
      Option (String × Generation S P) → Option T → Durable (StateDisk S P) T
  unfolding ◌>>=◌ build conclude rescue drop_staging clean_legacy_state validate_active
  run_or_return active (some result) = do
    reads (λ d. validate_active m.validator active)
    clean_legacy_state
    pure result
  run_or_return active none = do
    (result, changed) ← rescue drop_staging (build active)
    conclude m name result changed

  unfoldable pub run_operation : Option (String × Generation S P) → Durable (StateDisk S P) T
  unfolding ◌>>=◌ completed run_or_return
  run_operation active = do
    result ← reads (λ d. completed m.operation active)
    run_or_return active result

  unfoldable pub clean_and_run : Option (String × Generation S P) → Durable (StateDisk S P) T
  unfolding ◌>>=◌ clean_generations run_operation
  clean_and_run active = do clean_generations (name_of active); run_operation active

  unfoldable pub mutate_state : Durable (StateDisk S P) T
  unfolding ◌>>=◌ clean_incomplete clean_and_run
  mutate_state = do clean_incomplete; active ← reads (active_generation false); clean_and_run active
