-- ===== src/State/Mutate/Retry.antt =====
-- An identified operation that a crash cut off is called again.
use shuttle_gate.Base.{
  String, ℕ, ◌≡◌, sym, ap, ◌∙◌, subst, true, false, Option, none, some, ltb, ◌⊎◌, inl, inr,
}
use shuttle_gate.Errors.{Result, ok, ◌>>=◌}
use shuttle_gate.Durable.{Run, Outcome, done, raised, crashed}
use shuttle_gate.Durable.Triple.{Lands}
use shuttle_gate.State.{
  Tree, Generation, StateDisk, Legacies, is_generation_name, find_generation, absent,
}
use shuttle_gate.State.Operation.{
  Operations, StateOperation, max_manifest_bytes, read_operation-write_operation,
}
use shuttle_gate.State.View.{IsView}
use shuttle_gate.State.Mutate.{Mutation, recorded, mutate_state}
use shuttle_gate.State.Mutate.Spec.{
  Content, content, known, answer, transact, transact-IsPublished, transact-legacies,
}
use shuttle_gate.State.Mutate.Clean.{HasExpected}
use shuttle_gate.State.Mutate.Stage.{final, Answers, Raises, Stops}
use shuttle_gate.State.Mutate.Refines.{write_limit, mutate_state-transact}

-- What a call wants of the directory: no objects that it does not know, and a fresh name.
pub record IsReady {S P : Type 0} (name : String) (size : ℕ) (d : StateDisk S P) : Type 0 where
  pub expected : HasExpected d
  pub known_generations : d.stray_generation ≡ false
  pub known_links : d.stray_current ≡ false
  pub named : is_generation_name name ≡ true
  pub fresh : find_generation name d.generations ≡ none
  pub small : ltb max_manifest_bytes size ≡ false

abbrev pub none_left : {S P : Type 0} → Legacies S P
none_left = record { server = absent; peers = absent }

module _ {S P T : Type 0} (a : Option (String × Generation S P)) (name : String) (size : ℕ)
    (whole : Result (T × Option (Content S P))) (cost b : ℕ) where
  -- What holds of a run, by its outcome.
  by_outcome :
      (r : Run (StateDisk S P) T)
      → Lands (Answers a name size whole) (Raises a whole) (Stops a name size whole) cost b r
      → (r.outcome ≡ crashed → Stops a name size whole r.state)
        × ((t : T) → r.outcome ≡ done t → Answers a name size whole t r.state)
  by_outcome r k = go r.outcome r.state r.left k
    where
      go :
          (o : Outcome T) (d : StateDisk S P) (left : ℕ)
          → Lands
              (Answers a name size whole)
              (Raises a whole)
              (Stops a name size whole)
              cost
              b
              (record { outcome = o; state = d; left = left })
          → (o ≡ crashed → Stops a name size whole d)
            × ((t : T) → o ≡ done t → Answers a name size whole t d)
      go (done t') d left k = (
        λ h. let x : ⊥ = cc in absurd x,
        λ t h. let e : t' ≡ t = cc in subst (λ u. Answers a name size whole u d) e k.0,
      )
      go (raised e) d left k = (λ h. let x : ⊥ = cc in absurd x, λ t h. let x : ⊥ = cc in absurd x)
      go crashed d left k = (λ h. k.0, λ t h. let x : ⊥ = cc in absurd x)

module _ {S P T : Type 0} (m : Mutation S P T) (receipt : ℕ) where
  -- Where crashed attempts have led: the old content, or what one change of it made.
  abbrev pub InFlight : String → Generation S P → StateDisk S P → Type 0
  InFlight k g d =
      IsView (some (k, g)) d
      ⊎ ((t : T) × (c : Content S P) × (name : String) × (size : ℕ) × (transact m receipt
              (content (some (k, g))) none_left
            ≡ ok (t, some c))
          × IsView (some (name, final name size c)) d)

  -- Attempts that crashed, one after the other.
  pub data Attempts (d : StateDisk S P) : StateDisk S P → Type 0 where
    no_attempt : Attempts d d
    attempted :
        {d' d'' : StateDisk S P}
        → Attempts d d'
        → (name : String) (size b : ℕ) → IsReady name size d'
        → (mutate_state m name receipt size d' b).outcome ≡ crashed
        → d'' ≡ (mutate_state m name receipt size d' b).state
        → Attempts d d''

module _ {S P T : Type 0} (m : Mutation S P T) (o : StateOperation T) (receipt : ℕ)
    (identified : m.operation ≡ some o) (fits : ltb max_manifest_bytes receipt ≡ false)
    (decodes : (t : T) → o.decode (o.encode t) ≡ ok t) where
  known-recorded :
      (tree : Tree S P) (t : T) (operations : Operations)
      → known m.operation (some (tree, recorded m receipt t operations)) ≡ ok (some t)
  unfolding known recorded
  known-recorded tree t operations =
      rw identified (read_operation-write_operation o receipt t operations fits (decodes t))

  -- A recorded operation returns its result again and changes nothing.
  pub transact_again :
      (active : Option (Content S P)) (l l' : Legacies S P) (t : T) (c : Content S P)
      → transact m receipt active l ≡ ok (t, some c)
      → transact m receipt (some c) l' ≡ ok (t, none)
  unfolding transact
  transact_again active l l' t c e =
      let (valid, (operations, e₁)) = transact-IsPublished m receipt active l t c e in
      ap (λ r. r >>= answer m receipt (some c) l')
        (ap (λ held. known m.operation (some (c.0, held))) e₁ ∙ known-recorded c.0 t operations)
      ∙ ap (λ r. r >>= λ (u : Unit {0}). ok (t, none)) valid

  pub attempt :
      (a : Option (String × Generation S P)) (name : String) (size : ℕ) (d : StateDisk S P) (b : ℕ)
      → IsReady name size d
      → IsView a d
      → ((mutate_state m name receipt size d b).outcome ≡ crashed
          → Stops a name size
              (transact m receipt (content a) d.legacies)
              (mutate_state m name receipt size d b).state)
        × ((t : T)
            → (mutate_state m name receipt size d b).outcome ≡ done t
            → Answers a name size
                (transact m receipt (content a) d.legacies)
                t
                (mutate_state m name receipt size d b).state)
  attempt a name size d b ready v =
      by_outcome a name size (transact m receipt (content a) d.legacies) (write_limit d) b
        (mutate_state m name receipt size d b)
        (mutate_state-transact m name receipt size a d b v ready.expected ready.known_generations
          ready.known_links ready.named ready.fresh ready.small)

  Stops-InFlight :
      (k : String) (g : Generation S P) (name : String) (size : ℕ) (l : Legacies S P)
      (d : StateDisk S P)
      → Stops (some (k, g)) name size (transact m receipt (content (some (k, g))) l) d
      → InFlight m receipt k g d
  Stops-InFlight k g name size l d (inl v) = inl v
  Stops-InFlight k g name size l d (inr (t, c, e, v)) =
      inr (t, c, name, size, transact-legacies m receipt (g.tree, g.operations) none_left l ∙ e, v)

  -- A crash of a later attempt.
  Stops-again-InFlight :
      (k : String) (g : Generation S P) (t : T) (c : Content S P) (old : String) (old_size : ℕ)
      (name : String) (size : ℕ) (l : Legacies S P) (d : StateDisk S P)
      → transact m receipt (content (some (k, g))) none_left ≡ ok (t, some c)
      → Stops (some (old, final old old_size c)) name size (transact m receipt (some c) l) d
      → InFlight m receipt k g d
  Stops-again-InFlight k g t c old old_size name size l d e (inl v) =
      inr (t, c, old, old_size, e, v)
  Stops-again-InFlight k g t c old old_size name size l d e (inr (t', c', e', v)) =
      let again : transact m receipt (some c) l ≡ ok (t, none) =
        transact_again _ none_left l t c e in
      let x : ⊥ = cc in absurd x

  crashed-InFlight :
      (k : String) (g : Generation S P) (name : String) (size : ℕ) (d : StateDisk S P) (b : ℕ)
      → IsReady name size d
      → InFlight m receipt k g d
      → (mutate_state m name receipt size d b).outcome ≡ crashed
      → InFlight m receipt k g (mutate_state m name receipt size d b).state
  crashed-InFlight k g name size d b ready (inl v) h =
      Stops-InFlight k g name size d.legacies (mutate_state m name receipt size d b).state
        ((attempt (some (k, g)) name size d b ready v).0 h)
  crashed-InFlight k g name size d b ready (inr (t, c, old, old_size, e, v)) h =
      Stops-again-InFlight k g t c old old_size name size d.legacies
        (mutate_state m name receipt size d b).state e
        ((attempt (some (old, final old old_size c)) name size d b ready v).0 h)

  pub Attempts-InFlight :
      (k : String) (g : Generation S P) (d d' : StateDisk S P)
      → Attempts m receipt d d'
      → IsView (some (k, g)) d
      → InFlight m receipt k g d'
  Attempts-InFlight k g d d' no_attempt v = inl v
  Attempts-InFlight k g d d' (attempted {d' = e} before name size b ready h same) v =
      subst (InFlight m receipt k g) (sym same)
        (crashed-InFlight k g name size e b ready (Attempts-InFlight k g d e before v) h)
