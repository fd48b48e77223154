-- ===== src/State/View.antt =====
-- What `_active_generation` sees.
use shuttle_gate.Base.{String, ◌≡◌, refl, true, false, Option, none, some, List, string_eq, nat_eq}
use shuttle_gate.Errors.{ok}
use shuttle_gate.State.{
  Generation, Pointer, no_pointer, link, StateDisk, is_generation_name, pointer_to, read_manifest,
  find_generation, linked_generation, active_generation,
}

module _ {S P : Type 0} where
  abbrev pub Views :
      Option (String × Generation S P) → Pointer → List (String × Generation S P) → Type 0
  Views none current generations = current ≡ no_pointer
  Views (some (name, g)) current generations =
      (current ≡ link (pointer_to name))
      × (is_generation_name name ≡ true)
      × (find_generation name generations ≡ some g)
      × (g.directory ≡ true)
      × (read_manifest g.manifest name ≡ ok tt)

  -- The disk has no pointer, or one to a complete generation.
  abbrev pub IsView : Option (String × Generation S P) → StateDisk S P → Type 0
  IsView a d = Views a d.current d.generations

  pub active_generation-IsView :
      (a : Option (String × Generation S P)) (d : StateDisk S P)
      → IsView a d
      → active_generation false d ≡ ok a
  unfolding active_generation linked_generation string_eq
  active_generation-IsView none d h = rw h refl
  active_generation-IsView (some (name, g)) d (p, n, f, t, m) = rw (p, n, f, t, m) refl

  pub active_generation-required :
      (name : String) (g : Generation S P) (d : StateDisk S P)
      → IsView (some (name, g)) d
      → active_generation true d ≡ ok (some (name, g))
  unfolding active_generation linked_generation string_eq
  active_generation-required name g d (p, n, f, t, m) = rw (p, n, f, t, m) refl
