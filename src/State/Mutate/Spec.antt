-- ===== src/State/Mutate/Spec.antt =====
-- What `mutate_state` promises: one transaction on the active content, a pair of data directories
-- and receipts. It knows no generations, staging directories, links or crashes.
use shuttle_gate.Base.{String, ℕ, ◌≡◌, refl, Bool, true, false, Option, none, some, []}
use shuttle_gate.Errors.{Result, ok, err, ◌>>=◌, ◌>>◌, >>=-eq-ok}
use shuttle_gate.State.{Tree, Generation, Legacies}
use shuttle_gate.State.Operation.{Operations, StateOperation, read_operation}
use shuttle_gate.State.Copy.{copy_legacy_state}
use shuttle_gate.State.Mutate.{Mutation, is_published, recorded}

abbrev pub Content : Type 0 → Type 0 → Type 0
Content S P = Tree S P × Operations

module _ {S P : Type 0} where
  abbrev pub content : Option (String × Generation S P) → Option (Content S P)
  content none = none
  content (some (name, g)) = some (g.tree, g.operations)

  -- The content that a change starts from.
  unfoldable pub start : Option (Content S P) → Legacies S P → Result (Content S P)
  unfolding copy_legacy_state
  start none legacies = do tree ← copy_legacy_state legacies; ok (tree, [])
  start (some c) legacies = ok c

  -- The result that the active content holds for the operation.
  unfoldable pub known :
      {T : Type 0} → Option (StateOperation T) → Option (Content S P) → Result (Option T)
  known operation none = ok none
  known none (some c) = ok none
  known (some o) (some (tree, operations)) = read_operation o operations

module _ {S P T : Type 0} (m : Mutation S P T) (receipt_size : ℕ) where
  -- Validate the content if it is to be published.
  unfoldable pub outcome : T → Tree S P → Operations → Bool → Result (T × Option (Content S P))
  unfolding recorded
  outcome result changed operations false = ok (result, none)
  outcome result changed operations true = do
    m.validator changed
    ok (result, some (changed, recorded m receipt_size result operations))

  unfoldable pub change : Content S P → Result (T × Option (Content S P))
  unfolding outcome is_published
  change (tree, operations) = do
    (result, changed) ← m.mutator tree
    outcome result changed operations (is_published m result)

  abbrev pub validate : Option (Content S P) → Result (Unit {0})
  validate none = ok tt
  validate (some (tree, operations)) = m.validator tree

  abbrev pub answer :
      Option (Content S P) → Legacies S P → Option T → Result (T × Option (Content S P))
  answer c legacies (some result) = do validate c; ok (result, none)
  answer c legacies none = do base ← start c legacies; change base

  -- The result, and the content that replaces the active one, if any.
  unfoldable pub transact : Option (Content S P) → Legacies S P → Result (T × Option (Content S P))
  unfolding known start change
  transact c legacies = do result ← known m.operation c; answer c legacies result

  -- The content was validated, and holds the receipt of this result.
  abbrev pub IsPublished : T → Content S P → Type 0
  IsPublished result c =
      (m.validator c.0 ≡ ok tt)
      × ((operations : Operations) × (c.1 ≡ recorded m receipt_size result operations))

  outcome-IsPublished :
      (result' result : T) (changed : Tree S P) (operations : Operations) (p : Bool)
      (c : Content S P)
      → outcome result' changed operations p ≡ ok (result, some c)
      → IsPublished result c
  unfolding outcome
  outcome-IsPublished result' result changed operations false c e = cc
  outcome-IsPublished result' result changed operations true c e =
      let (u, e₁, e₂) = >>=-eq-ok (m.validator changed) _ e in (cc, (operations, cc))

  change-IsPublished :
      (base : Content S P) (result : T) (c : Content S P)
      → change base ≡ ok (result, some c)
      → IsPublished result c
  unfolding change
  change-IsPublished base result c e =
      let (r, e₁, e₂) = >>=-eq-ok (m.mutator base.0) _ e in
      outcome-IsPublished r.0 result r.1 base.1 (is_published m r.0) c e₂

  answer-IsPublished :
      (active : Option (Content S P)) (legacies : Legacies S P) (r : Option T) (result : T)
      (c : Content S P)
      → answer active legacies r ≡ ok (result, some c)
      → IsPublished result c
  answer-IsPublished active legacies (some t) result c e =
      let (u, e₁, e₂) = >>=-eq-ok (validate active) _ e in cc
  answer-IsPublished active legacies none result c e =
      let (base, e₁, e₂) = >>=-eq-ok (start active legacies) change e in
      change-IsPublished base result c e₂

  pub transact-IsPublished :
      (active : Option (Content S P)) (legacies : Legacies S P) (result : T) (c : Content S P)
      → transact active legacies ≡ ok (result, some c)
      → IsPublished result c
  unfolding transact
  transact-IsPublished active legacies result c e =
      let (r, e₁, e₂) = >>=-eq-ok (known m.operation active) _ e in
      answer-IsPublished active legacies r result c e₂

  -- The legacy state does not count where a generation is active.
  pub transact-legacies :
      (c : Content S P) (l l' : Legacies S P) → transact (some c) l ≡ transact (some c) l'
  unfolding transact start
  transact-legacies c l l' = same (known m.operation (some c))
    where
      same : (r : Result (Option T)) → (r >>= answer (some c) l) ≡ (r >>= answer (some c) l')
      same (err x) = refl
      same (ok none) = refl
      same (ok (some t)) = refl
