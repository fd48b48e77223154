-- ===== src/State/Cleaning.antt =====
-- state.py: what `mutate_state` cleans before and after its change. The removal of a tree is one
-- write: no program reads what is left of a tree that a crash kept from being removed. The children
-- of a directory that no pattern knows are met after the others. Removals succeed, so nothing is
-- suppressed.
use shuttle_gate.Base.{
  String, Bool, false, Option, none, some, List, [], ◌∷◌, map, ◌==◌, string_eq, if◌then◌else◌,
}
use shuttle_gate.Errors.{state_error, ok, raise_if}
use shuttle_gate.Durable.{Durable, pure, raise, reads, write, ◌>>=◌, ◌>>◌}
use shuttle_gate.State.{Generation, Legacy, absent, directory_of, unexpected, StateDisk}

-- Remove what is read one after the other.
unfoldable pub remove_each : {A D : Type 0} → (D → D) → List A → Durable D (Unit {0})
unfolding ◌>>=◌
remove_each f [] = pure tt
remove_each f (child ∷ rest) = write f >> remove_each f rest

abbrev pub rest_of : {A : Type 0} → List A → List A
rest_of [] = []
rest_of (x ∷ xs) = xs

abbrev pub is_kept : Option String → String → Bool
is_kept none name = false
is_kept (some kept) name = kept == name

module _ {S P : Type 0} where
  abbrev pub pop_staging : StateDisk S P → StateDisk S P
  pop_staging d = record d { staging = rest_of d.staging }

  abbrev pub pop_temporary : StateDisk S P → StateDisk S P
  pop_temporary d = record d { temporaries = rest_of d.temporaries }

  -- `_clean_incomplete`
  unfoldable pub clean_incomplete : Durable (StateDisk S P) (Unit {0})
  unfolding ◌>>=◌ remove_each
  clean_incomplete = do
    staging ← reads (λ d. ok d.staging)
    remove_each pop_staging staging
    temporaries ← reads (λ d. ok d.temporaries)
    remove_each pop_temporary temporaries
    reads (λ d. raise_if d.stray_current (state_error "unexpected persistent-state object"))

  unfoldable pub drop_generation :
      String → List (String × Generation S P) → List (String × Generation S P)
  drop_generation name [] = []
  drop_generation name (entry ∷ rest) =
      let others = drop_generation name rest in if entry.0 == name then others else entry ∷ others

  abbrev pub remove_generation : String → StateDisk S P → StateDisk S P
  remove_generation name d = record d { generations = drop_generation name d.generations }

  unfoldable pub remove_others : Option String → List String → Durable (StateDisk S P) (Unit {0})
  unfolding ◌>>=◌
  remove_others kept [] = pure tt
  remove_others kept (name ∷ names) =
      let rest = remove_others kept names in
      if is_kept kept name then rest else write (remove_generation name) >> rest

  abbrev pub names_of : List (String × Generation S P) → List String
  names_of entries = map (λ (entry : String × Generation S P). entry.0) entries

  -- `_clean_unreferenced_generations` and `_clean_old_generations`
  unfoldable pub clean_generations : Option String → Durable (StateDisk S P) (Unit {0})
  unfolding ◌>>=◌ remove_others drop_generation
  clean_generations kept = do
    names ← reads (λ d. ok (names_of d.generations))
    remove_others kept names
    reads (λ d.
        raise_if d.stray_generation (state_error "unexpected object in generations directory"))

  abbrev pub drop_server : StateDisk S P → StateDisk S P
  drop_server d = record d { legacies = record d.legacies { server = absent } }

  abbrev pub drop_peers : StateDisk S P → StateDisk S P
  drop_peers d = record d { legacies = record d.legacies { peers = absent } }

  abbrev pub remove_legacy :
      {A : Type 0} → (StateDisk S P → StateDisk S P) → Legacy A → Durable (StateDisk S P) (Unit {0})
  remove_legacy f absent = pure tt
  remove_legacy f (directory_of a) = write f
  remove_legacy f unexpected =
      raise (state_error "refusing to remove unexpected legacy-state object")

  -- `_clean_legacy_state`
  unfoldable pub clean_legacy_state : Durable (StateDisk S P) (Unit {0})
  unfolding ◌>>=◌
  clean_legacy_state = do
    server ← reads (λ d. ok d.legacies.server)
    remove_legacy drop_server server
    peers ← reads (λ d. ok d.legacies.peers)
    remove_legacy drop_peers peers
