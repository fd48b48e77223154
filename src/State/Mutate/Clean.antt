-- ===== src/State/Mutate/Clean.antt =====
-- The cleaning programs of `mutate_state` (state.py), and what they need and leave.
use shuttle_gate.Base.{
  String, ℕ, ◌+◌, ◌≤◌, ◌≡◌, refl, false, Option, none, List, [], ◌∷◌, length, ◌==◌, string_eq,
  arith, Bool-cases, inl, inr,
}
use shuttle_gate.Errors.{Error, state_error, ok, raise_if}
use shuttle_gate.Durable.Triple.{
  Triple, Gives-raise_if, Triple-pure, Triple-limit, Triple-write, Triple-bind, Triple-reads,
  Triple-reads_last, Triple-given,
}
use shuttle_gate.FilePath.{FilePath}
use shuttle_gate.State.{
  Generation, StateDisk, find_generation, Legacy, absent, directory_of, unexpected,
}
use shuttle_gate.State.Cleaning.{
  remove_each, is_kept, drop_generation, remove_generation, remove_others, names_of,
  clean_generations, pop_staging, pop_temporary, drop_server, drop_peers, remove_legacy,
  clean_incomplete, clean_legacy_state,
}

module _ {S P : Type 0} where
  pub find_generation-drop_generation :
      (name other : String) (entries : List (String × Generation S P))
      → (name == other) ≡ false
      → find_generation name (drop_generation other entries) ≡ find_generation name entries
  unfolding find_generation drop_generation
  find_generation-drop_generation name other [] h = refl
  find_generation-drop_generation name other (entry ∷ rest) h =
      ground (arith, find_generation-drop_generation name other rest h, string_eq)

  pub find_generation-drop_generation-none :
      (name other : String) (entries : List (String × Generation S P))
      → find_generation name entries ≡ none
      → find_generation name (drop_generation other entries) ≡ none
  unfolding find_generation drop_generation
  find_generation-drop_generation-none name other [] h = refl
  find_generation-drop_generation-none name other (entry ∷ rest) h =
      ground (arith, find_generation-drop_generation-none name other rest)

  pub length-drop_generation :
      (other : String) (entries : List (String × Generation S P))
      → length (drop_generation other entries) ≤ length entries
  unfolding drop_generation
  length-drop_generation other [] = omega arith
  length-drop_generation other (entry ∷ rest) = ground (arith, length-drop_generation other rest)

  pub length-names_of :
      (entries : List (String × Generation S P)) → length (names_of entries) ≡ length entries
  length-names_of [] = refl
  length-names_of (entry ∷ rest) = omega (arith, length-names_of rest)

-- Removing one child after the other keeps what each removal keeps.
module _ {D A : Type 0} (Keeps : D → Type 0) {Err : Error → D → Type 0} {Crash : D → Type 0}
    (f : D → D) where
  pub remove_each-Triple :
      ((d : D) → Keeps d → Keeps (f d))
      → ((d : D) → Keeps d → Crash d)
      → (children : List A)
      → Triple Keeps (λ _. Keeps) Err Crash (length children) (remove_each f children)
  unfolding remove_each
  remove_each-Triple keep crash [] = Triple-pure tt (λ d h. h)
  remove_each-Triple keep crash (child ∷ rest) =
      Triple-limit _
        (Triple-bind (λ _. Keeps) (Triple-write f crash keep)
          (λ _. remove_each-Triple keep crash rest))
        (omega arith)

-- A cleaning program that an invariant keeps from raising.
module _ {S P : Type 0} (Keeps : StateDisk S P → Type 0) {Err : Error → StateDisk S P → Type 0}
    {Crash : StateDisk S P → Type 0} (crash : (d : StateDisk S P) → Keeps d → Crash d) where
  pub clean_incomplete-Triple :
      (m n : ℕ)
      → ((d : StateDisk S P) → Keeps d → Keeps (pop_staging d))
      → ((d : StateDisk S P) → Keeps d → Keeps (pop_temporary d))
      → ((d : StateDisk S P) → Keeps d → d.stray_current ≡ false)
      → Triple
          (λ d. (length d.staging ≤ m) × ((length d.temporaries ≤ n) × Keeps d))
          (λ _. Keeps)
          Err
          Crash
          (m + n)
          clean_incomplete
  unfolding clean_incomplete
  clean_incomplete-Triple m n pop pop' tidy =
      Triple-reads
        (λ (xs : List (Generation S P)) d. (length xs ≤ m) × ((length d.temporaries ≤ n) × Keeps d))
        (λ d. ok d.staging) (λ d h. h)
        (λ xs. Triple-given (λ le.
          Triple-limit (m + n)
            (Triple-bind (λ _ d. (length d.temporaries ≤ n) × Keeps d)
              (remove_each-Triple (λ d. (length d.temporaries ≤ n) × Keeps d) pop_staging
                (λ d h. (h.0, pop d h.1)) (λ d h. crash d h.1) xs)
              (λ _.
                Triple-reads (λ (ys : List FilePath) d. (length ys ≤ n) × Keeps d)
                  (λ d. ok d.temporaries) (λ d h. h)
                  (λ ys. Triple-given (λ le'.
                    Triple-limit n
                      (Triple-bind (λ _. Keeps)
                        (remove_each-Triple Keeps pop_temporary pop' crash ys)
                        (λ _.
                          Triple-reads_last
                            (λ d.
                              raise_if d.stray_current
                                (state_error "unexpected persistent-state object"))
                            (λ d h.
                              Gives-raise_if (λ _. Keeps) Err d.stray_current _ d (tidy d h) h)))
                      (omega (arith, le'))))))
            (omega (arith, le))))

  module _ (kept : Option String)
      (remove : (name : String)
        → is_kept kept name ≡ false
        → (d : StateDisk S P) → Keeps d
        → Keeps (remove_generation name d)) where
    pub remove_others-Triple :
        (names : List String)
        → Triple Keeps (λ _. Keeps) Err Crash (length names) (remove_others kept names)
    unfolding remove_others
    remove_others-Triple [] = Triple-pure tt (λ d h. h)
    remove_others-Triple (name ∷ names) = elim (Bool-cases (is_kept kept name)) [
      | inl e ↦ rw e (Triple-limit _ (remove_others-Triple names) (omega arith))
      | inr e ↦ rw e (
          Triple-limit _
            (Triple-bind (λ _. Keeps) (Triple-write (remove_generation name) crash (remove name e))
              (λ _. remove_others-Triple names))
            (omega arith))
    ]

    pub clean_generations-Triple :
        (n : ℕ)
        → ((d : StateDisk S P)
            → Keeps d
            → (length d.generations ≤ n) × (d.stray_generation ≡ false))
        → Triple Keeps (λ _. Keeps) Err Crash n (clean_generations kept)
    unfolding clean_generations
    clean_generations-Triple n bound =
        Triple-reads (λ (names : List String) d. (length names ≤ n) × Keeps d)
          (λ d. ok (names_of d.generations))
          (λ d h. (omega (arith, length-names_of d.generations, (bound d h).0), h))
          (λ names. Triple-given (λ le.
            Triple-limit n
              (Triple-bind (λ _. Keeps) (remove_others-Triple names)
                (λ _.
                  Triple-reads_last
                    (λ d.
                      raise_if d.stray_generation
                        (state_error "unexpected object in generations directory"))
                    (λ d h.
                      Gives-raise_if (λ _. Keeps) Err d.stray_generation _ d (bound d h).1 h)))
              (omega (arith, le))))

abbrev pub IsExpected : {A : Type 0} → Legacy A → Type 0
IsExpected absent = Unit
IsExpected (directory_of a) = Unit
IsExpected unexpected = ⊥

-- No other object is in the place of a legacy directory.
abbrev pub HasExpected : {S P : Type 0} → StateDisk S P → Type 0
HasExpected d = IsExpected d.legacies.server × IsExpected d.legacies.peers

-- The removal of legacy state raises nothing and keeps what does not depend on it.
module _ {S P : Type 0} (Keeps : StateDisk S P → Type 0) {Err : Error → StateDisk S P → Type 0}
    {Crash : StateDisk S P → Type 0} (crash : (d : StateDisk S P) → Keeps d → Crash d) where
  remove_legacy-Triple :
      {A : Type 0} (f : StateDisk S P → StateDisk S P)
      → ((d : StateDisk S P) → Keeps d → Keeps (f d))
      → (legacy : Legacy A) → IsExpected legacy
      → Triple Keeps (λ _. Keeps) Err Crash 1 (remove_legacy f legacy)
  remove_legacy-Triple f keep absent h = Triple-limit 1 (Triple-pure tt (λ d k. k)) (omega arith)
  remove_legacy-Triple f keep (directory_of a) h = Triple-write f crash keep
  remove_legacy-Triple f keep unexpected h = absurd h

  pub clean_legacy_state-Triple :
      ((d : StateDisk S P) → Keeps d → HasExpected d)
      → ((d : StateDisk S P) → Keeps d → Keeps (drop_server d))
      → ((d : StateDisk S P) → Keeps d → Keeps (drop_peers d))
      → Triple Keeps (λ _. Keeps) Err Crash 2 clean_legacy_state
  unfolding clean_legacy_state
  clean_legacy_state-Triple expected server peers =
      Triple-reads (λ (legacy : Legacy S) d. IsExpected legacy × Keeps d)
        (λ d. ok d.legacies.server) (λ d h. ((expected d h).0, h))
        (λ legacy. Triple-given (λ h.
          Triple-bind (λ _. Keeps) (remove_legacy-Triple drop_server server legacy h)
            (λ _.
              Triple-reads (λ (legacy : Legacy P) d. IsExpected legacy × Keeps d)
                (λ d. ok d.legacies.peers) (λ d h. ((expected d h).1, h))
                (λ legacy. Triple-given (remove_legacy-Triple drop_peers peers legacy)))))
