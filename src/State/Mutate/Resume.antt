-- ===== src/State/Mutate/Resume.antt =====
-- What follows the `try` of `mutate_state`, and the resumption of a recorded operation.
use shuttle_gate.Base.{
  String, ℕ, suc, ◌+◌, ◌≡◌, refl, sym, ap, ◌∙◌, subst, Bool, true, false, Option, none, some, ltb,
  inl, inr, arith, ne_self, string_eq,
}
use shuttle_gate.Errors.{Error, Result, ok, err, ◌>>=◌}
use shuttle_gate.Durable.{rescue}
use shuttle_gate.Durable.Triple.{
  Gives, Triple, Triple-pure, Triple-raise, Triple-limit, Triple-write, Triple-bind, Triple-reads,
  Triple-reads_last, Triple-given, Triple-rescue,
}
use shuttle_gate.State.{Tree, Generation, StateDisk, Legacies, is_generation_name}
use shuttle_gate.State.Operation.{max_manifest_bytes}
use shuttle_gate.State.View.{IsView, active_generation-required}
use shuttle_gate.State.Copy.{validate_active, active_tree}
use shuttle_gate.State.Mutate.{
  Mutation, build, discard, drop_staging, verify, conclude, run_or_return,
}
use shuttle_gate.State.Cleaning.{pop_staging}
use shuttle_gate.State.Mutate.Spec.{Content, content, start, change, validate, answer}
use shuttle_gate.State.Mutate.Clean.{
  IsExpected, HasExpected, clean_generations-Triple, clean_legacy_state-Triple,
  length-drop_generation,
}
use shuttle_gate.State.Mutate.Stage.{
  IsNew, final, Answers, Raises, IsView-remove_generation, Gives-chain,
}
use shuttle_gate.State.Mutate.Publish.{Old, Crashed, Fails, Built, build-Triple}

module _ {S P T : Type 0} (a : Option (String × Generation S P)) (l : Legacies S P)
    (expected : IsExpected l.server × IsExpected l.peers) (name : String) (n size : ℕ)
    (valid : is_generation_name name ≡ true) (fits : ltb max_manifest_bytes size ≡ false)
    (m : Mutation S P T) (receipt : ℕ) (whole : Result (T × Option (Content S P)))
    (checked : (t : T) (c : Content S P) → whole ≡ ok (t, some c) → m.validator c.0 ≡ ok tt) where
  -- The call returned what its specification says, and the active content is as it says.
  abbrev pub Answered : T → StateDisk S P → Type 0
  Answered = Answers a name size whole

  abbrev pub Failed : Error → StateDisk S P → Type 0
  Failed = Raises a whole

  abbrev Broken : StateDisk S P → Type 0
  Broken = Crashed a l expected name n size valid fits m receipt whole

  active_tree-IsNew :
      (c : Content S P) (d : StateDisk S P) → IsNew name size n c d → active_tree name d ≡ ok c.0
  unfolding active_tree
  active_tree-IsNew c d h =
      rw (active_generation-required name (final name size c) d h.2, ne_self name) refl

  verify-Triple :
      (t : T) (c : Content S P)
      → whole ≡ ok (t, some c)
      → Triple
          (IsNew name size n c)
          (λ _. IsNew name size n c)
          Failed
          Broken
          0
          (rescue (discard name) (verify m name))
  unfolding verify
  verify-Triple t c e =
      Triple-rescue {Mid = λ _ _. ⊥} {l = 0}
        (Triple-reads (λ tree d. (tree ≡ c.0) × IsNew name size n c d) (active_tree name)
          (λ d h. read (active_tree name d) d (active_tree-IsNew c d h) h)
          (λ tree. Triple-given (λ e'.
            Triple-reads_last (λ d. m.validator tree)
              (λ d h. checks (m.validator tree) d (ap m.validator e' ∙ checked t c e) h))))
        (λ e'. record { runs = λ s b h. absurd h })
    where
      read :
          (r : Result (Tree S P)) (d : StateDisk S P)
          → r ≡ ok c.0
          → IsNew name size n c d
          → Gives (λ tree d. (tree ≡ c.0) × IsNew name size n c d) (λ _ _. ⊥) r d
      read (ok tree) d h k = (cc, k)
      read (err x) d h k = cc

      checks :
          (r : Result (Unit {0})) (d : StateDisk S P)
          → r ≡ ok tt
          → IsNew name size n c d
          → Gives (λ _. IsNew name size n c) (λ _ _. ⊥) r d
      checks (ok u) d h k = k
      checks (err x) d h k = cc

  conclude-Triple :
      (r : T × Bool)
      → Triple
          (Built a l expected name n size valid fits m receipt whole r)
          Answered
          Failed
          Broken
          (suc n + 2)
          (conclude m name r.0 r.1)
  unfolding conclude
  conclude-Triple (t, false) =
      Triple-limit _ (Triple-pure t (λ d h. (none, h.0, h.1.2))) (omega arith)
  conclude-Triple (t, true) = record {
    runs = λ d b h.
        let c : Content S P = h.0 in
        let broken : (d : StateDisk S P) → IsNew name size n c d → Broken d =
          λ d k. inr (t, c, h.1, k.2) in
        (Triple-limit (suc n + 2)
            (Triple-bind (λ _. IsNew name size n c) (verify-Triple t c h.1)
              (λ _.
                Triple-bind (λ _. IsNew name size n c)
                  (clean_generations-Triple (IsNew name size n c) broken (some name)
                    (λ other e d k. (
                      (
                        omega (arith, k.0.0, length-drop_generation other d.generations),
                        k.0.1,
                        k.0.2,
                      ),
                      k.1,
                      IsView-remove_generation (some (name, final name size c)) other d e k.2,
                    ))
                    (suc n) (λ d k. (k.0.0, k.0.1)))
                  (λ _.
                    Triple-bind (λ _. IsNew name size n c)
                      (clean_legacy_state-Triple (IsNew name size n c) broken (λ d k. k.1)
                        (λ d k. (k.0, (tt, k.1.1), k.2)) (λ d k. (k.0, (k.1.0, tt), k.2)))
                      (λ _. Triple-pure t (λ d k. (some c, h.1, k.2))))))
            (omega arith)).runs
          d b h.2;
  }

  build_or_clean-Triple :
      whole ≡ (start (content a) l >>= change m receipt)
      → Triple
          (Old a l expected name n size valid fits m receipt whole)
          (Built a l expected name n size valid fits m receipt whole)
          Failed
          Broken
          9
          (rescue (drop_staging {A = T × Bool}) (build m name receipt size a))
  unfolding drop_staging
  build_or_clean-Triple e =
      Triple-rescue (build-Triple a l expected name n size valid fits m receipt whole e) (λ e'.
        Triple-bind (λ _. Fails a l expected name n size valid fits m receipt whole e')
          (Triple-write pop_staging (λ d h. inl h.1.2) (λ d h. h))
          (λ _. Triple-raise e' (λ d h. (h.0, h.1.2))))

  pub run_or_return-Triple :
      (r : Option T)
      → whole ≡ answer m receipt (content a) l r
      → Triple
          (Old a l expected name n size valid fits m receipt whole)
          Answered
          Failed
          Broken
          (n + 12)
          (run_or_return m name receipt size a r)
  unfolding run_or_return validate_active
  run_or_return-Triple (some t) e =
      Triple-limit (n + 12)
        (Triple-reads (λ _ d. (whole ≡ ok (t, none)) × (HasExpected d × IsView a d))
          (λ d. validate_active m.validator a)
          (λ d h.
            weaken (validate_active m.validator a) d
              (e ∙ ap (λ r. r >>= λ (done : Unit {0}). ok (t, none)) (sym (same a)))
              (
                subst (λ (k : Legacies S P). IsExpected k.server × IsExpected k.peers) (sym h.1)
                    expected,
                h.2,
              ))
          (λ _. Triple-given (λ e'.
            Triple-bind (λ _ d. HasExpected d × IsView a d)
              (clean_legacy_state-Triple (λ d. HasExpected d × IsView a d) (λ d k. inl k.1)
                (λ d k. k.0) (λ d k. ((tt, k.0.1), k.1)) (λ d k. ((k.0.0, tt), k.1)))
              (λ _. Triple-pure t (λ d k. (none, e', k.1))))))
        (omega arith)
    where
      weaken :
          (r : Result (Unit {0})) (d : StateDisk S P)
          → whole ≡ (r >>= λ (done : Unit {0}). ok (t, none))
          → HasExpected d × IsView a d
          → Gives (λ _ d. (whole ≡ ok (t, none)) × (HasExpected d × IsView a d)) Failed r d
      weaken r d e h =
          Gives-chain whole (λ d. HasExpected d × IsView a d) (IsView a) r (λ done. ok (t, none)) d
            e (λ k. k.1) h

      same :
          (a : Option (String × Generation S P))
          → validate_active m.validator a ≡ validate m receipt (content a)
      same none = refl
      same (some (k, g)) = refl
  run_or_return-Triple none e =
      Triple-limit (n + 12)
        (Triple-bind (Built a l expected name n size valid fits m receipt whole)
          (build_or_clean-Triple e) conclude-Triple)
        (omega arith)
