-- ===== src/State/Mutate/Stage.antt =====
-- What holds of the state directory at the stages of one call of `mutate_state`.
use shuttle_gate.Base.{
  String, ℕ, suc, ◌≤◌, ◌≡◌, refl, sym, ap, ◌∙◌, subst, true, false, Option, none, some, List, ◌∷◌,
  length, ltb, ◌==◌, string_eq, ◌⊎◌, arith, eq_self, ne_self,
}
use shuttle_gate.Errors.{Error, Result, ok, err, ◌>>=◌}
use shuttle_gate.Durable.Triple.{Gives}
use shuttle_gate.State.{Tree, Generation, StateDisk, Legacies, find_generation, read_manifest}
use shuttle_gate.State.View.{IsView}
use shuttle_gate.State.Operation.{max_manifest_bytes}
use shuttle_gate.State.Copy.{staged_tree, mutate_staged, validate_staged, copy_active}
use shuttle_gate.State.Mutate.{
  manifest_file, edit_first, with_first, edit_staging, rename_staging, name_of,
}
use shuttle_gate.State.Cleaning.{remove_generation, is_kept}
use shuttle_gate.State.Mutate.Spec.{Content, content, start}
use shuttle_gate.State.Mutate.Clean.{IsExpected, HasExpected, find_generation-drop_generation}

pub read_manifest-manifest_file :
    (name : String) (size : ℕ)
    → ltb max_manifest_bytes size ≡ false
    → read_manifest (some (manifest_file name size)) name ≡ ok tt
unfolding read_manifest string_eq
read_manifest-manifest_file name size h = rw (h, ne_self name) refl

module _ {S P : Type 0} where
  -- Cleaning finds nothing to complain of.
  abbrev pub IsTidy : ℕ → StateDisk S P → Type 0
  IsTidy n d = (length d.generations ≤ n) × (d.stray_generation ≡ false) × (d.stray_current ≡ false)

  -- The call has changed nothing that counts. `a` is the active generation and `name` a fresh name.
  abbrev pub IsOld :
      Option (String × Generation S P) → Legacies S P → String → ℕ → StateDisk S P → Type 0
  IsOld a l name n d =
      IsTidy n d × (d.legacies ≡ l) × IsView a d × (find_generation name d.generations ≡ none)

  -- The staging directory holds this.
  abbrev pub HasStaged : Generation S P → StateDisk S P → Type 0
  HasStaged g d = (rest : List (Generation S P)) × (d.staging ≡ g ∷ rest)

  -- The generation that publication makes of the staged content.
  abbrev pub final : String → ℕ → Content S P → Generation S P
  final name size c = record {
    directory = true;
    tree = c.0;
    operations = c.1;
    manifest = some (manifest_file name size);
  }

  abbrev pub after :
      Option (String × Generation S P)
      → String
      → ℕ
      → Option (Content S P)
      → Option (String × Generation S P)
  after a name size none = a
  after a name size (some c) = some (name, final name size c)

  -- The call returns what its specification says, and the active content is as it says.
  abbrev pub Answers :
      {T : Type 0}
      → Option (String × Generation S P)
      → String
      → ℕ
      → Result (T × Option (Content S P))
      → T
      → StateDisk S P
      → Type 0
  Answers a name size whole t d =
      (w : Option (Content S P)) × (whole ≡ ok (t, w)) × IsView (after a name size w) d

  -- It raises what its specification says, and the active content is the old one.
  abbrev pub Raises :
      {T : Type 0}
      → Option (String × Generation S P)
      → Result (T × Option (Content S P))
      → Error
      → StateDisk S P
      → Type 0
  Raises a whole e d = (whole ≡ err e) × IsView a d

  -- A crash leaves the old content, or that of the specification, complete.
  abbrev pub Stops :
      {T : Type 0}
      → Option (String × Generation S P)
      → String
      → ℕ
      → Result (T × Option (Content S P))
      → StateDisk S P
      → Type 0
  Stops {T} a name size whole d =
      IsView a d
      ⊎ ((t : T) × (c : Content S P) × (whole ≡ ok (t, some c))
          × IsView (some (name, final name size c)) d)

  -- A new generation is in place and nothing links to it.
  abbrev pub IsRenamed :
      Option (String × Generation S P) → String → ℕ → Generation S P → StateDisk S P → Type 0
  IsRenamed a name n g d =
      IsTidy (suc n) d × HasExpected d × IsView a d × (find_generation name d.generations ≡ some g)

  -- The new generation is active.
  abbrev pub IsNew : String → ℕ → ℕ → Content S P → StateDisk S P → Type 0
  IsNew name size n c d =
      IsTidy (suc n) d × HasExpected d × IsView (some (name, final name size c)) d

  pub HasStaged-edit_staging :
      (f : Generation S P → Generation S P) (g : Generation S P) (d : StateDisk S P)
      → HasStaged g d
      → HasStaged (f g) (edit_staging f d)
  HasStaged-edit_staging f g d (rest, e) = (rest, ap (edit_first f) e)

  pub find_generation-fresh :
      (k name : String) (g g' : Generation S P) (entries : List (String × Generation S P))
      → find_generation name entries ≡ none
      → find_generation k entries ≡ some g
      → (name == k) ≡ false
  unfolding string_eq
  find_generation-fresh k name g g' entries fresh found =
      ground (arith, λ (e : name ≡ k). ap (λ x. find_generation x entries) e)

  pub IsView-fresh :
      (a : Option (String × Generation S P)) (name : String) (g : Generation S P)
      (d : StateDisk S P)
      → find_generation name d.generations ≡ none
      → IsView a d
      → IsView a (record d { generations = (name, g) ∷ d.generations })
  unfolding find_generation
  IsView-fresh none name g d fresh v = v
  IsView-fresh (some (k, g')) name g d fresh (p, i, f, t, m) =
      (p, i, rw (find_generation-fresh k name g' g d.generations fresh f) f, t, m)

  pub rename_staging-IsRenamed :
      (a : Option (String × Generation S P)) (l : Legacies S P) (name : String) (n : ℕ)
      (expected : IsExpected l.server × IsExpected l.peers) (g : Generation S P) (d : StateDisk S P)
      → IsOld a l name n d
      → HasStaged g d
      → IsRenamed a name n g (rename_staging name d)
  unfolding find_generation string_eq
  rename_staging-IsRenamed a l name n expected g d (tidy, legacy, view, fresh) (rest, e) =
      subst
        (λ staging.
          IsRenamed a name n g (record (rename_staging name d) {
            generations = with_first name staging d.generations;
          }))
        (sym e)
        (
          (omega (arith, tidy.0), tidy.1, tidy.2),
          subst (λ (k : Legacies S P). IsExpected k.server × IsExpected k.peers) (sym legacy)
              expected,
          IsView-fresh a name g d fresh view,
          ground (arith, eq_self name),
        )

  -- The removal of another generation.
  pub IsView-remove_generation :
      (a : Option (String × Generation S P)) (other : String) (d : StateDisk S P)
      → is_kept (name_of a) other ≡ false
      → IsView a d
      → IsView a (remove_generation other d)
  IsView-remove_generation none other d h v = v
  IsView-remove_generation (some (k, g)) other d h (p, i, f, t, m) =
      (p, i, find_generation-drop_generation k other d.generations h ∙ f, t, m)

-- What a chain of reads computes, one by one.
pub Gives-chain :
    {D A B : Type 0} (whole : Result B) (Keeps Weak : D → Type 0) (r : Result A) (k : A → Result B)
    (d : D)
    → whole ≡ (r >>= k)
    → (Keeps d → Weak d)
    → Keeps d
    → Gives (λ a d. (whole ≡ k a) × Keeps d) (λ e d. (whole ≡ err e) × Weak d) r d
Gives-chain whole Keeps Weak (ok a) k d e f h = (e, h)
Gives-chain whole Keeps Weak (err x) k d e f h = (e, f h)

module _ {S P : Type 0} where
  pub mutate_staged-HasStaged :
      {T : Type 0} (f : Tree S P → Result (T × Tree S P)) (g : Generation S P) (d : StateDisk S P)
      → HasStaged g d
      → mutate_staged f d ≡ f g.tree
  unfolding mutate_staged
  mutate_staged-HasStaged f g d (rest, e) = ap (λ s. staged_tree s >>= f) e

  pub validate_staged-HasStaged :
      (f : Tree S P → Result (Unit {0})) (g : Generation S P) (d : StateDisk S P)
      → HasStaged g d
      → validate_staged f d ≡ f g.tree
  unfolding validate_staged
  validate_staged-HasStaged f g d (rest, e) = ap (λ s. staged_tree s >>= f) e

  pub copy_active-start :
      (a : Option (String × Generation S P)) (l : Legacies S P)
      → copy_active a l ≡ start (content a) l
  unfolding copy_active start
  copy_active-start none l = refl
  copy_active-start (some (k, g)) l = refl
