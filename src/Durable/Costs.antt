-- ===== src/Durable/Costs.antt =====
-- What a program on durable storage reaches, what a crash may leave, and how many writes it makes.
use shuttle_gate.Base.{ℕ, zero, suc, ◌+◌, ◌≤◌, ◌<◌, ◌≡◌, arith, ◌⊎◌, inl, inr}
use shuttle_gate.Errors.{Result, ok}
use shuttle_gate.Durable.{
  Durable, Outcome, done, raised, crashed, pure, reads, write, zoom, ◌>>=◌, ◌>>◌, Ends, Ends-bind,
  Ends-weaken,
}

-- From a state with `Pre` the program raises nothing. It ends with `Post` after `cost` writes at
-- most; with a smaller budget it may crash, in a state with `Crash`.
pub record Costs {S : Type 0} (Pre Post Crash : S → Type 0) (cost : ℕ) (m : Durable S (Unit {0}))
    : Type 0 where
  pub runs :
      (s : S) (b : ℕ)
      → Pre s
      → Ends (λ _ s' b'. Post s' × (b ≤ b' + cost)) (λ s'. Crash s' × (b < cost)) (m s b)

reads-bind :
    {S A : Type 0} (f : S → Result A) {a : A} (k : A → Durable S (Unit {0})) (s : S) (b : ℕ)
    → f s ≡ ok a
    → (reads f >>= k) s b ≡ k a s b
unfolding ◌>>=◌
reads-bind f k s b e = rw (e, reads)

module _ {S : Type 0} {P Q C : S → Type 0} where
  pub Costs-pure : ((s : S) → P s → Q s) → Costs P Q C 0 (pure tt)
  Costs-pure f = record { runs = λ s b h. (f s h, omega arith) }

  pub Costs-write :
      (f : S → S) → ((s : S) → P s → C s) → ((s : S) → P s → Q (f s)) → Costs P Q C 1 (write f)
  Costs-write f before after = record { runs = go }
    where
      go :
          (s : S) (b : ℕ)
          → P s
          → Ends (λ _ s' b'. Q s' × (b ≤ b' + 1)) (λ s'. C s' × (b < 1)) (write f s b)
      go s zero h = (before s h, omega arith)
      go s (suc b) h = (after s h, omega arith)

  pub Costs-reads :
      {A : Type 0} (f : S → Result A) (a : A) (k : A → Durable S (Unit {0})) {cost : ℕ}
      → ((s : S) → P s → f s ≡ ok a)
      → Costs P Q C cost (k a)
      → Costs P Q C cost (reads f >>= k)
  Costs-reads f a k e h = record { runs = λ s b p. rw (reads-bind f k s b (e s p)) (h.runs s b p) }

  pub Costs-weaken :
      {P' Q' C' : S → Type 0} {cost : ℕ} {m : Durable S (Unit {0})} (limit : ℕ)
      → Costs P Q C cost m
      → ((s : S) → P' s → P s)
      → ((s : S) → Q s → Q' s)
      → ((s : S) → C s → C' s)
      → cost ≤ limit
      → Costs P' Q' C' limit m
  Costs-weaken {Q'} {C'} {cost} {m} limit h p q c le = record {
    runs = λ s b k.
        Ends-weaken (λ _ s' b'. Q s' × (b ≤ b' + cost)) (λ _ s' b'. Q' s' × (b ≤ b' + limit))
          (λ s'. C s' × (b < cost)) (λ s'. C' s' × (b < limit)) (m s b) (h.runs s b (p s k))
          (λ _ s' b' r. (q s' r.0, omega arith)) (λ s' r. (c s' r.0, omega arith));
  }

module _ {S : Type 0} {P Q R C : S → Type 0} where
  pub Costs-seq :
      {k l : ℕ} {m n : Durable S (Unit {0})}
      → Costs P Q C k m
      → Costs Q R C l n
      → Costs P R C (k + l) (m >> n)
  Costs-seq {k} {l} {m} {n} first second = record {
    runs = λ s b p.
        Ends-bind (λ _ s' b'. Q s' × (b ≤ b' + k)) (λ _ s' b'. R s' × (b ≤ b' + (k + l)))
          (λ s'. C s' × (b < k + l)) m (λ _. n) s b
          (Ends-weaken (λ _ s' b'. Q s' × (b ≤ b' + k)) (λ _ s' b'. Q s' × (b ≤ b' + k))
            (λ s'. C s' × (b < k)) _ _ (first.runs s b p) (λ _ s' b' r. r)
            (λ s' r. (r.0, omega arith)))
          (λ _ s' b' r.
            Ends-weaken (λ _ s₂ b₂. R s₂ × (b' ≤ b₂ + l)) _ (λ s'. C s' × (b' < l)) _ _
              (second.runs s' b' r.0) (λ _ s₂ b₂ t. (t.0, omega arith))
              (λ s₂ t. (t.0, omega arith)));
  }

-- A program on a part, with what it needs and leaves of the whole.
pub Costs-zoom :
    {S T : Type 0} {P Q C : S → Type 0} (get : S → T) (put : T → S → S) (P' Q' C' : T → Type 0)
    {cost : ℕ} {m : Durable T (Unit {0})}
    → Costs P' Q' C' cost m
    → ((s : S) → P s → P' (get s))
    → ((s : S) (t : T) → P s → Q' t → Q (put t s))
    → ((s : S) (t : T) → P s → C' t → C (put t s))
    → Costs P Q C cost (zoom get put m)
Costs-zoom {S} {T} {P} {Q} {C} get put P' Q' C' {cost} {m} h p q c = record {
  runs = λ s b k.
      at s b k (m (get s) b).outcome (m (get s) b).state (m (get s) b).left
        (h.runs (get s) b (p s k));
}
  where
    at :
        (s : S) (b : ℕ)
        → P s
        → (o : Outcome (Unit {0})) (t : T) (b' : ℕ)
        → Ends
            (λ _ t' b'. Q' t' × (b ≤ b' + cost))
            (λ t'. C' t' × (b < cost))
            (record { outcome = o; state = t; left = b' })
        → Ends
            (λ _ s' b'. Q s' × (b ≤ b' + cost))
            (λ s'. C s' × (b < cost))
            (record { outcome = o; state = put t s; left = b' })
    at s b k (done a) t b' r = (q s t k r.0, r.1)
    at s b k (raised e) t b' r = r
    at s b k crashed t b' r = (c s t k r.0, r.1)

-- A program that runs alike from states of two kinds.
pub Costs-or :
    {S : Type 0} {P P' Q C : S → Type 0} {cost : ℕ} {m : Durable S (Unit {0})}
    → Costs P Q C cost m
    → Costs P' Q C cost m
    → Costs (λ s. P s ⊎ P' s) Q C cost m
Costs-or h h' = record { runs = λ s b. elim [ inl p ↦ h.runs s b p | inr p ↦ h'.runs s b p ] }
