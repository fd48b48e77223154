-- ===== src/State/Mutate/Once.antt =====
-- An identified operation of `mutate_state` (state.py) that crashes cut off and that is called again.
use shuttle_gate.Base.{String, ℕ, ◌≡◌, refl, ap, ◌∙◌, false, Option, none, some, ltb, inl, inr}
use shuttle_gate.Errors.{ok}
use shuttle_gate.Durable.{done}
use shuttle_gate.State.{Generation, StateDisk, Legacies}
use shuttle_gate.State.Operation.{StateOperation, max_manifest_bytes}
use shuttle_gate.State.View.{IsView}
use shuttle_gate.State.Mutate.{Mutation, mutate_state}
use shuttle_gate.State.Mutate.Spec.{Content, transact, transact-legacies}
use shuttle_gate.State.Mutate.Stage.{final, after}
use shuttle_gate.State.Mutate.Retry.{
  IsReady, none_left, Attempts, InFlight, attempt, transact_again, Attempts-InFlight,
}

module _ {S P T : Type 0} (m : Mutation S P T) (o : StateOperation T) (receipt : ℕ)
    (identified : m.operation ≡ some o) (fits : ltb max_manifest_bytes receipt ≡ false)
    (decodes : (t : T) → o.decode (o.encode t) ≡ ok t) where
  -- The directory's active content.
  abbrev pub IsContent : Content S P → StateDisk S P → Type 0
  IsContent c d =
      (k : String) × (g : Generation S P) × IsView (some (k, g)) d × (c ≡ (g.tree, g.operations))

  abbrev pub replaced : Content S P → Option (Content S P) → Content S P
  replaced c none = c
  replaced c (some c') = c'

  -- The change was applied to this content once, or not at all if it is not to be published. `t` is
  -- its result.
  abbrev pub IsOnce : Content S P → Legacies S P → T → StateDisk S P → Type 0
  IsOnce c l t d =
      (w : Option (Content S P)) × (transact m receipt (some c) l ≡ ok (t, w))
      × IsContent (replaced c w) d

  -- Crashes cut off an identified operation any number of times, each time in a directory with no
  -- foreign objects and with a fresh name. When a later such call returns, the active content is the
  -- first one with the change applied once, or the first one if the change is not to be published,
  -- and the result is that of this change, if the receipt is within the size limit and the operation
  -- decodes what it encodes.
  pub mutate_state-IsOnce :
      (k : String) (g : Generation S P) (d d' : StateDisk S P) (name : String) (size b : ℕ) (t : T)
      → IsView (some (k, g)) d
      → Attempts m receipt d d'
      → IsReady name size d'
      → (mutate_state m name receipt size d' b).outcome ≡ done t
      → IsOnce (g.tree, g.operations) d.legacies t (mutate_state m name receipt size d' b).state
  mutate_state-IsOnce k g d d' name size b t v before ready h =
      finished (Attempts-InFlight m o receipt identified fits decodes k g d d' before v)
    where
      start_equation :
          (l : Legacies S P)
          → transact m receipt (some (g.tree, g.operations)) d.legacies
            ≡ transact m receipt (some (g.tree, g.operations)) l
      start_equation l = transact-legacies m receipt (g.tree, g.operations) d.legacies l

      unchanged_or_new :
          (w : Option (Content S P))
          → transact m receipt (some (g.tree, g.operations)) d'.legacies ≡ ok (t, w)
          → IsView (after (some (k, g)) name size w) (mutate_state m name receipt size d' b).state
          → IsOnce (g.tree, g.operations) d.legacies t (mutate_state m name receipt size d' b).state
      unchanged_or_new none e view = (none, start_equation d'.legacies ∙ e, (k, g, view, refl))
      unchanged_or_new (some c) e view =
          (some c, start_equation d'.legacies ∙ e, (name, final name size c, view, refl))

      recorded_before :
          (t' : T) (c : Content S P) (old : String) (old_size : ℕ)
          → transact m receipt (some (g.tree, g.operations)) none_left ≡ ok (t', some c)
          → (w : Option (Content S P)) → transact m receipt (some c) d'.legacies ≡ ok (t, w)
          → IsView
              (after (some (old, final old old_size c)) name size w)
              (mutate_state m name receipt size d' b).state
          → IsOnce (g.tree, g.operations) d.legacies t (mutate_state m name receipt size d' b).state
      recorded_before t' c old old_size e none e' view =
          let again : transact m receipt (some c) d'.legacies ≡ ok (t', none) =
            transact_again m o receipt identified fits decodes _ none_left d'.legacies t' c e in
          let same : t' ≡ t = cc in
          (
            some c,
            start_equation none_left ∙ e ∙ ap (λ u. ok (u, some c)) same,
            (old, final old old_size c, view, refl),
          )
      recorded_before t' c old old_size e (some c') e' view =
          let again : transact m receipt (some c) d'.legacies ≡ ok (t', none) =
            transact_again m o receipt identified fits decodes _ none_left d'.legacies t' c e in
          let x : ⊥ = cc in absurd x

      finished :
          InFlight m receipt k g d'
          → IsOnce (g.tree, g.operations) d.legacies t (mutate_state m name receipt size d' b).state
      finished (inl view) =
          let (w, e, seen) =
            (attempt m o receipt identified fits decodes (some (k, g)) name size d' b ready view).1
              t h in
          unchanged_or_new w e seen
      finished (inr (t', c, old, old_size, e, view)) =
          let (w, e', seen) =
            (attempt m o receipt identified fits decodes (some (old, final old old_size c)) name
                size d' b ready view).1
              t h in
          recorded_before t' c old old_size e w e' seen
