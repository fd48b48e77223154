-- ===== src/SshKey/Install/Resume.antt =====
-- `_install_transaction_file` of keys.py, stopped by a crash and taken up again.
use shuttle_gate.Base.{
  String, ℕ, zero, suc, ◌+◌, ◌≤◌, ◌<◌, ◌≡◌, refl, true, false, Option, none, some, ◌⊎◌, inl, inr,
  Bool-cases, arith, string_eq, ◌==◌, ◌<>◌,
}
use shuttle_gate.Errors.{ok}
use shuttle_gate.Durable.{Run, done, write, ◌>>=◌, ◌>>◌, Ends}
use shuttle_gate.SshKey.{StoredFile, Slots, is_bounded, matches_digest, Holds}
use shuttle_gate.SshKey.Install.{install, keep_old, publish_new}

module _ (sha256 : String → String) where
  -- The old file is in place, or in the backup with the place free.
  abbrev pub IsBefore : Option String → Slots → Type 0
  IsBefore none s = s.destination ≡ none
  IsBefore (some old) s =
      ((s.backup ≡ none) × Holds sha256 old s.destination)
      ⊎ ((s.destination ≡ none) × Holds sha256 old s.backup)

  -- The new file is in place, or staged before the old one has gone.
  abbrev pub IsResumable : Option String → String → Slots → Type 0
  IsResumable old new s =
      Holds sha256 new s.destination ⊎ (Holds sha256 new s.stage × IsBefore old s)

  matches-Holds :
      (f : Option StoredFile) (d : String) (label : String)
      → Holds sha256 d f
      → matches_digest sha256 f (some d) label ≡ ok true
  unfolding matches_digest
  matches-Holds none d label h = absurd h
  matches-Holds (some f) d label h = ground arith

  matches-none : (d label : String) → matches_digest sha256 none (some d) label ≡ ok false
  unfolding matches_digest
  matches-none d label = refl

  -- A file that can be read has the digest or has not.
  matches-cases :
      (f : StoredFile) (d : String) (label : String)
      → is_bounded f ≡ true
      → ((matches_digest sha256 (some f) (some d) label ≡ ok true) × Holds sha256 d (some f))
        ⊎ (matches_digest sha256 (some f) (some d) label ≡ ok false)
  unfolding matches_digest
  matches-cases f d label h = elim (Bool-cases (sha256 f.content == d)) [
    | inl same ↦ inl (ground arith, (h, ground arith))
    | inr other ↦ inr (ground arith)
  ]

  module _ (new label : String) where
    run_placed :
        (old : Option String) (s : Slots) (b : ℕ)
        → Holds sha256 new s.destination
        → install sha256 old (some new) label s b
          ≡ record { outcome = done tt; state = s; left = b }
    unfolding install ◌>>=◌
    run_placed old s b h = ground (arith, matches-Holds s.destination new ("new " <> label) h)

    -- The place is free: one write publishes the new file.
    run_free_new :
        (t k : Option StoredFile)
        → Holds sha256 new t
        → (b : ℕ)
        → install sha256 none
            (some new)
            label
            (record { destination = none; stage = t; backup = k })
            b
          ≡ write publish_new (record { destination = none; stage = t; backup = k }) b
    unfolding install ◌>>=◌
    run_free_new t k h b =
        ground
          (arith, matches-none new ("new " <> label), matches-Holds t new ("staged " <> label) h)

    run_free_old :
        (old : String) (t : Option StoredFile) (k : StoredFile)
        → Holds sha256 new t
        → Holds sha256 old (some k)
        → (b : ℕ)
        → install sha256
            (some old)
            (some new)
            label
            (record { destination = none; stage = t; backup = some k })
            b
          ≡ write publish_new (record { destination = none; stage = t; backup = some k }) b
    unfolding install ◌>>=◌
    run_free_old old t k h kept b = ground (
      arith,
      matches-none new ("new " <> label),
      matches-Holds t new ("staged " <> label) h,
      matches-Holds (some k) old ("backed-up " <> label) kept,
    )

    -- The old file is in place: it is kept first.
    run_in_place :
        (old : String) (f : StoredFile) (t : Option StoredFile)
        → Holds sha256 new t
        → Holds sha256 old (some f)
        → matches_digest sha256 (some f) (some new) ("new " <> label) ≡ ok false
        → (b : ℕ)
        → install sha256
            (some old)
            (some new)
            label
            (record { destination = some f; stage = t; backup = none })
            b
          ≡ (write keep_old >> write publish_new)
              (record { destination = some f; stage = t; backup = none })
              b
    unfolding install ◌>>=◌
    run_in_place old f t h kept other b = ground (
      arith,
      matches-Holds t new ("staged " <> label) h,
      matches-Holds (some f) old ("old " <> label) kept,
    )

    abbrev Resumes : Option String → Slots → ℕ → Run Slots (Unit {0}) → Type 0
    Resumes old s b =
        Ends (λ _ s' b'. Holds sha256 new s'.destination × (b ≤ b' + 2))
          (λ s'. IsResumable old new s' × (b < 2))

    Resumes-over :
        (old : String) (f : StoredFile) (t : Option StoredFile) (b : ℕ)
        → Holds sha256 new t
        → Holds sha256 old (some f)
        → ((matches_digest sha256 (some f) (some new) ("new " <> label) ≡ ok true)
            × Holds sha256 new (some f))
          ⊎ (matches_digest sha256 (some f) (some new) ("new " <> label) ≡ ok false)
        → Resumes
            (some old)
            (record { destination = some f; stage = t; backup = none })
            b
            (install sha256
              (some old)
              (some new)
              label
              (record { destination = some f; stage = t; backup = none })
              b)
    unfolding ◌>>=◌
    Resumes-over old f t b staged kept (inl (_, placed)) =
        rw
          (run_placed (some old) (record { destination = some f; stage = t; backup = none }) b
            placed)
          (placed, omega arith)
    Resumes-over old f t zero staged kept (inr other) =
        rw (run_in_place old f t staged kept other zero)
          (inr (staged, inl (refl, kept)), omega arith)
    Resumes-over old f t (suc zero) staged kept (inr other) =
        rw (run_in_place old f t staged kept other 1) (inr (staged, inr (refl, kept)), omega arith)
    Resumes-over old f t (suc (suc b)) staged kept (inr other) =
        rw (run_in_place old f t staged kept other (suc (suc b))) (staged, omega arith)

    resumes :
        (old : Option String) (d t k : Option StoredFile) (b : ℕ)
        → IsResumable old new (record { destination = d; stage = t; backup = k })
        → Resumes old
            (record { destination = d; stage = t; backup = k })
            b
            (install sha256 old
              (some new)
              label
              (record { destination = d; stage = t; backup = k })
              b)
    resumes old d t k b (inl placed) =
        rw (run_placed old (record { destination = d; stage = t; backup = k }) b placed)
          (placed, omega arith)
    resumes none none t k zero (inr (staged, free)) =
        rw (run_free_new t k staged zero) (inr (staged, refl), omega arith)
    resumes none none t k (suc b) (inr (staged, free)) =
        rw (run_free_new t k staged (suc b)) (staged, omega arith)
    resumes none (some f) t k b (inr (staged, free)) = absurd (cc)
    resumes (some old) none t (some k) zero (inr (staged, inr (free, kept))) =
        rw (run_free_old old t k staged kept zero) (inr (staged, inr (refl, kept)), omega arith)
    resumes (some old) none t (some k) (suc b) (inr (staged, inr (free, kept))) =
        rw (run_free_old old t k staged kept (suc b)) (staged, omega arith)
    resumes (some old) (some f) t k b (inr (staged, inr (free, kept))) = absurd (cc)
    resumes (some old) none t none b (inr (staged, inr (free, kept))) = absurd kept
    resumes (some old) d t (some k) b (inr (staged, inl (unkept, kept))) = absurd (cc)
    resumes (some old) none t none b (inr (staged, inl (unkept, kept))) = absurd kept
    resumes (some old) (some f) t none b (inr (staged, inl (unkept, kept))) =
        Resumes-over old f t b staged kept (matches-cases f new ("new " <> label) kept.0)

  -- In a resumable state a run of `install` raises nothing. It ends with the new file in place,
  -- after two writes at most, or stops in a state that is resumable again.
  pub install_resumes :
      (old : Option String) (new label : String) (s : Slots) (b : ℕ)
      → IsResumable old new s
      → Ends
          (λ _ s' b'. Holds sha256 new s'.destination × (b ≤ b' + 2))
          (λ s'. IsResumable old new s' × (b < 2))
          (install sha256 old (some new) label s b)
  install_resumes old new label s b h = resumes new label old s.destination s.stage s.backup b h
