-- ===== src/State/Mutate/Publish.antt =====
-- Staging and publication: what each program of `mutate_state`'s `try` reaches, and what a crash in
-- it leaves.
use shuttle_gate.Base.{
  String, ℕ, ◌≡◌, refl, sym, ap, ◌∙◌, Bool, true, false, Option, none, some, [], ltb, inl, arith,
}
use shuttle_gate.Errors.{Error, Result, ok, err, ◌>>=◌}
use shuttle_gate.Durable.Triple.{
  Triple, Triple-pure, Triple-limit, Triple-write, Triple-bind, Triple-reads, Triple-given,
}
use shuttle_gate.State.{Tree, Generation, StateDisk, Legacies, is_generation_name}
use shuttle_gate.State.Operation.{Operations, max_manifest_bytes}
use shuttle_gate.State.Copy.{copy_active, mutate_staged, validate_staged}
use shuttle_gate.State.Mutate.{
  Mutation, manifest_file, add_staging, edit_staging, rename_staging, staged_generation,
  is_published, recorded, publish, stage, run_mutator, build,
}
use shuttle_gate.State.Cleaning.{pop_staging}
use shuttle_gate.State.Mutate.Spec.{Content, content, start, outcome, change}
use shuttle_gate.State.Mutate.Clean.{IsExpected}
use shuttle_gate.State.Mutate.Stage.{
  IsOld, HasStaged, IsRenamed, IsNew, final, Stops, HasStaged-edit_staging,
  rename_staging-IsRenamed, read_manifest-manifest_file, Gives-chain, mutate_staged-HasStaged,
  validate_staged-HasStaged, copy_active-start,
}

-- One call on the active generation `a` and the legacy state `l`; `whole` is its specified result.
module _ {S P T : Type 0} (a : Option (String × Generation S P)) (l : Legacies S P)
    (expected : IsExpected l.server × IsExpected l.peers) (name : String) (n size : ℕ)
    (valid : is_generation_name name ≡ true) (fits : ltb max_manifest_bytes size ≡ false)
    (m : Mutation S P T) (receipt : ℕ) (whole : Result (T × Option (Content S P))) where
  abbrev pub Old : StateDisk S P → Type 0
  Old = IsOld a l name n

  abbrev pub Crashed : StateDisk S P → Type 0
  Crashed = Stops a name size whole

  -- An error that the specification knows.
  abbrev pub Fails : Error → StateDisk S P → Type 0
  Fails e d = (whole ≡ err e) × Old d

  abbrev pub Built : T × Bool → StateDisk S P → Type 0
  Built (t, false) d = (whole ≡ ok (t, none)) × Old d
  Built (t, true) d = (c : Content S P) × (whole ≡ ok (t, some c)) × IsNew name size n c d

  pub publish-Triple :
      {Err : Error → StateDisk S P → Type 0} (c : Content S P)
      → Triple
          (λ d. Old d × HasStaged (staged_generation c.0 c.1) d)
          (λ _. IsNew name size n c)
          Err
          Crashed
          4
          (publish name size)
  unfolding publish
  publish-Triple c =
      Triple-bind (λ _ d. Old d × HasStaged (final name size c) d)
        (Triple-write (edit_staging (λ g. record g { manifest = some (manifest_file name size) }))
          (λ d h. inl h.0.2)
          (λ d h. (
            h.0,
            HasStaged-edit_staging (λ g. record g { manifest = some (manifest_file name size) }) _ d
                h.1,
          )))
        (λ _.
          Triple-bind (λ _. IsRenamed a name n (final name size c))
            (Triple-write (rename_staging name) (λ d h. inl h.0.2)
              (λ d h. rename_staging-IsRenamed a l name n expected (final name size c) d h.0 h.1))
            (λ _.
              Triple-bind (λ _. IsRenamed a name n (final name size c))
                (Triple-write _ (λ d h. inl h.2) (λ d h. h))
                (λ _.
                  Triple-write _ (λ d h. inl h.2)
                    (λ d h. (
                      h.0,
                      h.1,
                      (refl, valid, h.3, refl, read_manifest-manifest_file name size fits),
                    )))))

  pub stage-Triple :
      (t : T) (c : Content S P) (p : Bool)
      → whole ≡ outcome m receipt t c.0 c.1 p
      → Triple
          (λ d. Old d × HasStaged (staged_generation c.0 c.1) d)
          Built
          Fails
          Crashed
          5
          (stage m name receipt size t p)
  unfolding stage outcome
  stage-Triple t c false e =
      Triple-limit 5
        (Triple-bind (λ _. Old) (Triple-write pop_staging (λ d h. inl h.0.2) (λ d h. h.0))
          (λ _. Triple-pure (t, false) (λ d h. (e, h))))
        (omega arith)
  stage-Triple t c true e =
      let c' : Content S P = (c.0, recorded m receipt t c.1) in
      Triple-bind (λ _ d. Old d × HasStaged (staged_generation c'.0 c'.1) d)
        (Triple-write
          (edit_staging (λ g. record g { operations = recorded m receipt t g.operations }))
          (λ d h. inl h.0.2)
          (λ d h. (
            h.0,
            HasStaged-edit_staging
                (λ g. record g { operations = recorded m receipt t g.operations }) _ d h.1,
          )))
        (λ _.
          Triple-reads
            (λ _ d. (whole ≡ ok (t, some c')) × (Old d × HasStaged (staged_generation c'.0 c'.1) d))
            (validate_staged m.validator)
            (λ d h.
              Gives-chain whole (λ d. Old d × HasStaged (staged_generation c'.0 c'.1) d) Old
                (validate_staged m.validator d) (λ done. ok (t, some c')) d
                (e
                  ∙ ap (λ r. r >>= λ (done : Unit {0}). ok (t, some c'))
                      (sym (validate_staged-HasStaged m.validator _ d h.1)))
                (λ k. k.0) h)
            (λ _. Triple-given (λ e'.
              Triple-limit 4
                (Triple-bind (λ _. IsNew name size n c') (publish-Triple c')
                  (λ _. Triple-pure (t, true) (λ d h. (c', e', h))))
                (omega arith))))

  abbrev after_mutator : Operations → T × Tree S P → Result (T × Option (Content S P))
  after_mutator operations r = outcome m receipt r.0 r.1 operations (is_published m r.0)

  run_mutator-Triple :
      (c : Content S P)
      → whole ≡ change m receipt c
      → Triple
          (λ d. Old d × HasStaged (staged_generation c.0 c.1) d)
          Built
          Fails
          Crashed
          6
          (run_mutator m name receipt size)
  unfolding run_mutator change
  run_mutator-Triple c e₁ =
      Triple-reads
        (λ (r : T × Tree S P) d.
          (whole ≡ after_mutator c.1 r) × (Old d × HasStaged (staged_generation c.0 c.1) d))
        (mutate_staged m.mutator)
        (λ d h.
          Gives-chain whole (λ d. Old d × HasStaged (staged_generation c.0 c.1) d) Old
            (mutate_staged m.mutator d) (after_mutator c.1) d
            (e₁
              ∙ ap (λ r. r >>= after_mutator c.1) (sym (mutate_staged-HasStaged m.mutator _ d h.1)))
            (λ k. k.0) h)
        (λ r. Triple-given (λ e₂.
          Triple-bind (λ _ d. Old d × HasStaged (staged_generation r.1 c.1) d)
            (Triple-write (edit_staging (λ g. record g { tree = r.1 })) (λ d h. inl h.0.2)
              (λ d h. (h.0, HasStaged-edit_staging (λ g. record g { tree = r.1 }) _ d h.1)))
            (λ _. stage-Triple r.0 (r.1, c.1) (is_published m r.0) e₂)))

  pub build-Triple :
      whole ≡ (start (content a) l >>= change m receipt)
      → Triple Old Built Fails Crashed 8 (build m name receipt size a)
  unfolding build change
  build-Triple e =
      Triple-bind (λ _ d. Old d × HasStaged empty d)
        (Triple-write add_staging (λ d h. inl h.2) (λ d h. (h, (d.staging, refl))))
        (λ _.
          Triple-reads
            (λ (c : Content S P) d. (whole ≡ change m receipt c) × (Old d × HasStaged empty d))
            (λ d. copy_active a d.legacies)
            (λ d h.
              Gives-chain whole (λ d. Old d × HasStaged empty d) Old (copy_active a d.legacies)
                (change m receipt) d (e ∙ ap (λ r. r >>= change m receipt) (copied d h.0.1))
                (λ k. k.0) h)
            (λ c. Triple-given (λ e₁.
              Triple-bind (λ _ d. Old d × HasStaged (staged_generation c.0 c.1) d)
                (Triple-write (edit_staging (λ g. staged_generation c.0 c.1)) (λ d h. inl h.0.2)
                  (λ d h.
                    (h.0, HasStaged-edit_staging (λ g. staged_generation c.0 c.1) empty d h.1)))
                (λ _. run_mutator-Triple c e₁))))
    where
      empty : Generation S P
      empty = staged_generation (record { server = none; peers = none }) []

      copied : (d : StateDisk S P) → d.legacies ≡ l → start (content a) l ≡ copy_active a d.legacies
      copied d h = sym (ap (copy_active a) h ∙ copy_active-start a l)
