-- ===== src/Durable/Triple.antt =====
-- Programs on durable storage that return values and raise: what holds after each kind of end, and
-- how many writes they make at most.
use shuttle_gate.Base.{Bool, true, false, ℕ, zero, suc, ◌+◌, ◌≤◌, ◌<◌, ◌≡◌, refl, arith}
use shuttle_gate.Errors.{Error, Result, ok, err, raise_if}
use shuttle_gate.Durable.{
  Run, Durable, Outcome, done, raised, crashed, pure, raise, reads, write, continue, handled,
  rescue, ◌>>=◌,
}

module _ {S A : Type 0} where
  abbrev pub Lands :
      (A → S → Type 0) → (Error → S → Type 0) → (S → Type 0) → ℕ → ℕ → Run S A → Type 0
  Lands Post Err Crash cost b r = at r.outcome r.state r.left
    where
      at : Outcome A → S → ℕ → Type 0
      at (done a) s b' = Post a s × (b ≤ b' + cost)
      at (raised e) s b' = Err e s × (b ≤ b' + cost)
      at crashed s b' = Crash s × (b < cost)

  -- From a state with `Pre` the program returns a value with `Post`, or raises with `Err`, after
  -- `cost` writes at most; with a smaller budget it may crash, in a state with `Crash`.
  pub record Triple (Pre : S → Type 0) (Post : A → S → Type 0) (Err : Error → S → Type 0)
      (Crash : S → Type 0) (cost : ℕ) (m : Durable S A) : Type 0 where
    pub runs : (s : S) (b : ℕ) → Pre s → Lands Post Err Crash cost b (m s b)

module _ {S A : Type 0} where
  -- What holds of the result of a computation on the stored state.
  abbrev pub Gives : (A → S → Type 0) → (Error → S → Type 0) → Result A → S → Type 0
  Gives Mid Err (ok a) s = Mid a s
  Gives Mid Err (err e) s = Err e s

pub Gives-raise_if :
    {S : Type 0} (Post : Unit {0} → S → Type 0) (Err : Error → S → Type 0) (test : Bool) (e : Error)
    (s : S)
    → test ≡ false
    → Post tt s
    → Gives Post Err (raise_if test e) s
Gives-raise_if Post Err true e s h p = cc
Gives-raise_if Post Err false e s h p = p

module _ {S A : Type 0} {Pre : S → Type 0} {Post : A → S → Type 0} {Err : Error → S → Type 0}
    {Crash : S → Type 0} where
  -- A fact that does not depend on what is stored.
  pub Triple-given :
      {Q : Type 0} {cost : ℕ} {m : Durable S A}
      → (Q → Triple Pre Post Err Crash cost m)
      → Triple (λ s. Q × Pre s) Post Err Crash cost m
  Triple-given f = record { runs = λ s b h. (f h.0).runs s b h.1 }

  pub Triple-pure : (a : A) → ((s : S) → Pre s → Post a s) → Triple Pre Post Err Crash 0 (pure a)
  Triple-pure a f = record { runs = λ s b h. (f s h, omega arith) }

  pub Triple-raise :
      (e : Error) → ((s : S) → Pre s → Err e s) → Triple Pre Post Err Crash 0 (raise e)
  Triple-raise e f = record { runs = λ s b h. (f s h, omega arith) }

  pub Triple-weaken :
      {Pre' : S → Type 0} {Post' : A → S → Type 0} {Err' : Error → S → Type 0} {Crash' : S → Type 0}
      {cost : ℕ} {m : Durable S A} (limit : ℕ)
      → Triple Pre Post Err Crash cost m
      → ((s : S) → Pre' s → Pre s)
      → ((a : A) (s : S) → Post a s → Post' a s)
      → ((e : Error) (s : S) → Err e s → Err' e s)
      → ((s : S) → Crash s → Crash' s)
      → cost ≤ limit
      → Triple Pre' Post' Err' Crash' limit m
  Triple-weaken {Post'} {Err'} {Crash'} {cost} {m} limit h p q x c le = record {
    runs = λ s b k. by_run b (m s b).outcome (m s b).state (m s b).left (h.runs s b (p s k));
  }
    where
      by_run :
          (b : ℕ) (o : Outcome A) (s : S) (b' : ℕ)
          → Lands Post Err Crash cost b (record { outcome = o; state = s; left = b' })
          → Lands Post' Err' Crash' limit b (record { outcome = o; state = s; left = b' })
      by_run b (done a) s b' k = (q a s k.0, omega (arith, le, k.1))
      by_run b (raised e) s b' k = (x e s k.0, omega (arith, le, k.1))
      by_run b crashed s b' k = (c s k.0, omega (arith, le, k.1))

  pub Triple-limit :
      {cost : ℕ} {m : Durable S A} (limit : ℕ)
      → Triple Pre Post Err Crash cost m
      → cost ≤ limit
      → Triple Pre Post Err Crash limit m
  Triple-limit limit h le = Triple-weaken limit h (λ s p. p) (λ a s p. p) (λ e s p. p) (λ s p. p) le

  pub Triple-reads_last :
      (f : S → Result A)
      → ((s : S) → Pre s → Gives Post Err (f s) s)
      → Triple Pre Post Err Crash 0 (reads f)
  Triple-reads_last f known = record { runs = λ s b h. by_run s b (f s) refl (known s h) }
    where
      by_run :
          (s : S) (b : ℕ) (r : Result A)
          → f s ≡ r
          → Gives Post Err r s
          → Lands Post Err Crash 0 b (reads f s b)
      by_run s b (ok a) e h = rw (e, reads) (h, omega arith)
      by_run s b (err x) e h = rw (e, reads) (h, omega arith)

module _ {S : Type 0} {Pre : S → Type 0} {Post : Unit {0} → S → Type 0} {Err : Error → S → Type 0}
    {Crash : S → Type 0} where
  pub Triple-write :
      (f : S → S)
      → ((s : S) → Pre s → Crash s)
      → ((s : S) → Pre s → Post tt (f s))
      → Triple Pre Post Err Crash 1 (write f)
  Triple-write f before after = record { runs = go }
    where
      go : (s : S) (b : ℕ) → Pre s → Lands Post Err Crash 1 b (write f s b)
      go s zero h = (before s h, omega arith)
      go s (suc b) h = (after s h, omega arith)

module _ {S A B : Type 0} {Pre : S → Type 0} {Post : B → S → Type 0} {Err : Error → S → Type 0}
    {Crash : S → Type 0} where
  pub Triple-bind :
      (Mid : A → S → Type 0) {k l : ℕ} {m : Durable S A} {f : A → Durable S B}
      → Triple Pre Mid Err Crash k m
      → ((a : A) → Triple (Mid a) Post Err Crash l (f a))
      → Triple Pre Post Err Crash (k + l) (m >>= f)
  unfolding ◌>>=◌
  Triple-bind Mid {k} {l} {m} {f} first second = record {
    runs = λ s b h. by_run b (m s b).outcome (m s b).state (m s b).left (first.runs s b h);
  }
    where
      widen :
          (b b₁ : ℕ) (o : Outcome B) (s : S) (b₂ : ℕ)
          → b ≤ b₁ + k
          → Lands Post Err Crash l b₁ (record { outcome = o; state = s; left = b₂ })
          → Lands Post Err Crash (k + l) b (record { outcome = o; state = s; left = b₂ })
      widen b b₁ (done a) s b₂ le h = (h.0, omega (arith, le, h.1))
      widen b b₁ (raised e) s b₂ le h = (h.0, omega (arith, le, h.1))
      widen b b₁ crashed s b₂ le h = (h.0, omega (arith, le, h.1))

      by_run :
          (b : ℕ) (o : Outcome A) (s : S) (b' : ℕ)
          → Lands Mid Err Crash k b (record { outcome = o; state = s; left = b' })
          → Lands Post Err Crash (k + l) b (continue o f s b')
      by_run b (done a) s b' h =
          widen b b' (f a s b').outcome (f a s b').state (f a s b').left h.1
            ((second a).runs s b' h.0)
      by_run b (raised e) s b' h = (h.0, omega (arith, h.1))
      by_run b crashed s b' h = (h.0, omega (arith, h.1))

  -- A computation on what is stored. `Mid` holds of what it returns, `Err` of what it raises.
  pub Triple-reads :
      (Mid : A → S → Type 0) (f : S → Result A) {l : ℕ} {k : A → Durable S B}
      → ((s : S) → Pre s → Gives Mid Err (f s) s)
      → ((a : A) → Triple (Mid a) Post Err Crash l (k a))
      → Triple Pre Post Err Crash l (reads f >>= k)
  unfolding ◌>>=◌
  Triple-reads Mid f {l} {k} known rest = record {
    runs = λ s b h. by_run s b (f s) refl (known s h);
  }
    where
      by_run :
          (s : S) (b : ℕ) (r : Result A)
          → f s ≡ r
          → Gives Mid Err r s
          → Lands Post Err Crash l b ((reads f >>= k) s b)
      by_run s b (ok a) e h = rw (e, reads) ((rest a).runs s b h)
      by_run s b (err x) e h = rw (e, reads) (h, omega arith)

module _ {S A : Type 0} {Pre : S → Type 0} {Post : A → S → Type 0} {Err Mid : Error → S → Type 0}
    {Crash : S → Type 0} where
  pub Triple-rescue :
      {k l : ℕ} {m : Durable S A} {handler : Error → Durable S A}
      → Triple Pre Post Mid Crash k m
      → ((e : Error) → Triple (Mid e) Post Err Crash l (handler e))
      → Triple Pre Post Err Crash (k + l) (rescue handler m)
  unfolding rescue
  Triple-rescue {k} {l} {m} {handler} first second = record {
    runs = λ s b h. by_run b (m s b).outcome (m s b).state (m s b).left (first.runs s b h);
  }
    where
      widen :
          (b b₁ : ℕ) (o : Outcome A) (s : S) (b₂ : ℕ)
          → b ≤ b₁ + k
          → Lands Post Err Crash l b₁ (record { outcome = o; state = s; left = b₂ })
          → Lands Post Err Crash (k + l) b (record { outcome = o; state = s; left = b₂ })
      widen b b₁ (done a) s b₂ le h = (h.0, omega (arith, le, h.1))
      widen b b₁ (raised e) s b₂ le h = (h.0, omega (arith, le, h.1))
      widen b b₁ crashed s b₂ le h = (h.0, omega (arith, le, h.1))

      by_run :
          (b : ℕ) (o : Outcome A) (s : S) (b' : ℕ)
          → Lands Post Mid Crash k b (record { outcome = o; state = s; left = b' })
          → Lands Post Err Crash (k + l) b (handled o handler s b')
      by_run b (done a) s b' h = (h.0, omega (arith, h.1))
      by_run b (raised e) s b' h =
          widen b b' (handler e s b').outcome (handler e s b').state (handler e s b').left h.1
            ((second e).runs s b' h.0)
      by_run b crashed s b' h = (h.0, omega (arith, h.1))
