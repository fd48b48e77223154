-- ===== src/State/Mutate/Refines.antt =====
-- `mutate_state` of state.py as a whole, against its specification.
use shuttle_gate.Base.{
  String, ℕ, ◌+◌, ◌*◌, ◌≤◌, ◌≡◌, refl, sym, ap, subst, true, false, Option, none, some, length, ltb,
  arith, inl,
}
use shuttle_gate.Errors.{Result, ◌>>=◌}
use shuttle_gate.Durable.Triple.{
  Gives, Lands, Triple, Triple-limit, Triple-bind, Triple-reads, Triple-given,
}
use shuttle_gate.State.{
  Generation, StateDisk, Legacies, is_generation_name, active_generation, find_generation,
}
use shuttle_gate.State.Operation.{StateOperation, max_manifest_bytes}
use shuttle_gate.State.View.{IsView, active_generation-IsView}
use shuttle_gate.State.Copy.{completed}
use shuttle_gate.State.Mutate.{Mutation, name_of, run_operation, clean_and_run, mutate_state}
use shuttle_gate.State.Mutate.Spec.{Content, content, known, answer, transact, transact-IsPublished}
use shuttle_gate.State.Mutate.Clean.{
  IsExpected, HasExpected, clean_incomplete-Triple, clean_generations-Triple,
  length-drop_generation, find_generation-drop_generation-none,
}
use shuttle_gate.State.Mutate.Stage.{
  IsOld, Answers, Raises, Stops, IsView-remove_generation, Gives-chain,
}
use shuttle_gate.State.Mutate.Resume.{run_or_return-Triple}

completed-known :
    {S P T : Type 0} (operation : Option (StateOperation T)) (a : Option (String × Generation S P))
    → completed operation a ≡ known operation (content a)
unfolding completed known
completed-known operation none = refl
completed-known none (some (k, g)) = refl
completed-known (some o) (some (k, g)) = refl

-- The writes that one call makes at most.
abbrev pub write_limit : {S P : Type 0} → StateDisk S P → ℕ
write_limit d = length d.staging + length d.temporaries + 2 * length d.generations + 12

module _ {S P T : Type 0} (a : Option (String × Generation S P)) (l : Legacies S P)
    (expected : IsExpected l.server × IsExpected l.peers) (name : String) (k j n size : ℕ)
    (valid : is_generation_name name ≡ true) (fits : ltb max_manifest_bytes size ≡ false)
    (m : Mutation S P T) (receipt : ℕ) where
  abbrev whole : Result (T × Option (Content S P))
  whole = transact m receipt (content a) l

  abbrev IsKept : StateDisk S P → Type 0
  IsKept = IsOld a l name n

  run-Triple :
      Triple IsKept
        (Answers a name size whole)
        (Raises a whole)
        (Stops a name size whole)
        (n + 12)
        (run_operation m name receipt size a)
  unfolding run_operation transact
  run-Triple =
      Triple-reads (λ (r : Option T) d. (whole ≡ answer m receipt (content a) l r) × IsKept d)
        (λ d. completed m.operation a)
        (λ d h.
          Gives-chain whole IsKept (IsView a) (completed m.operation a)
            (answer m receipt (content a) l) d
            (ap (λ r. r >>= answer m receipt (content a) l) (sym (completed-known m.operation a)))
            (λ k. k.2) h)
        (λ r. Triple-given (λ e.
          run_or_return-Triple a l expected name n size valid fits m receipt whole
            (λ t c e'. (transact-IsPublished m receipt (content a) l t c e').0) r e))

  mutate_state-Triple :
      Triple
        (λ d. (length d.staging ≤ k) × ((length d.temporaries ≤ j) × IsKept d))
        (Answers a name size whole)
        (Raises a whole)
        (Stops a name size whole)
        (k + j + (n + (n + 12)))
        (mutate_state m name receipt size)
  unfolding mutate_state
  mutate_state-Triple =
      Triple-bind (λ _. IsKept)
        (clean_incomplete-Triple IsKept (λ d h. inl h.2) k j (λ d h. h) (λ d h. h) (λ d h. h.0.2))
        (λ _.
          Triple-reads (λ active d. (active ≡ a) × IsKept d) (active_generation false)
            (λ d h.
              subst (λ r. Gives (λ active d. (active ≡ a) × IsKept d) (Raises a whole) r d)
                (sym (active_generation-IsView a d h.2)) (refl, h))
            (λ active. Triple-given (λ e.
              subst
                (λ b.
                  Triple IsKept (Answers a name size whole) (Raises a whole)
                    (Stops a name size whole) (n + (n + 12)) (clean_and_run m name receipt size b))
                (sym e) cleaned)))
    where
      cleaned :
          Triple IsKept
            (Answers a name size whole)
            (Raises a whole)
            (Stops a name size whole)
            (n + (n + 12))
            (clean_and_run m name receipt size a)
      cleaned =
          unfold clean_and_run in
          Triple-bind (λ _. IsKept)
            (clean_generations-Triple IsKept (λ d h. inl h.2) (name_of a)
              (λ other e d h. (
                (omega (arith, h.0.0, length-drop_generation other d.generations), h.0.1, h.0.2),
                h.1,
                IsView-remove_generation a other d e h.2,
                find_generation-drop_generation-none name other d.generations h.3,
              ))
              n (λ d h. (h.0.0, h.0.1)))
            (λ _. run-Triple)

-- From a directory with a readable view, no foreign objects and a fresh name of the right form,
-- where the manifest is within the size limit, a change carries out one transaction on the active
-- content. It returns the specified result with the specified content active, or raises the
-- specified error with the old content active. A crash leaves the old content active or the
-- specified new one, and a budget of `write_limit` writes excludes it.
pub mutate_state-transact :
    {S P T : Type 0} (m : Mutation S P T) (name : String) (receipt size : ℕ)
    (a : Option (String × Generation S P)) (d : StateDisk S P) (budget : ℕ)
    → IsView a d
    → HasExpected d
    → d.stray_generation ≡ false
    → d.stray_current ≡ false
    → is_generation_name name ≡ true
    → find_generation name d.generations ≡ none
    → ltb max_manifest_bytes size ≡ false
    → Lands
        (Answers a name size (transact m receipt (content a) d.legacies))
        (Raises a (transact m receipt (content a) d.legacies))
        (Stops a name size (transact m receipt (content a) d.legacies))
        (write_limit d)
        budget
        (mutate_state m name receipt size d budget)
mutate_state-transact m name receipt size a d budget view expected stray stray' valid fresh fits =
    (Triple-limit (write_limit d)
        (mutate_state-Triple a d.legacies expected name (length d.staging) (length d.temporaries)
          (length d.generations) size valid fits m receipt)
        (omega arith)).runs
      d budget (omega arith, (omega arith, ((omega arith, stray, stray'), refl, view, fresh)))
