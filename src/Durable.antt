-- ===== src/Durable.antt =====
-- Programs over durable storage that a crash may stop. A budget says how many durable writes the
-- machine lives through: the next one never happens. A write is a rename, an atomic replacement
-- or an unlink, with the fsync that follows it in the source.
pub mod Costs
pub mod Triple
use shuttle_gate.Base.{
  ℕ, zero, suc, ◌≡◌, refl, Bool, true, false, Option, none, some, inl, inr, ◌⊎◌,
}
use shuttle_gate.Errors.{Error, Result, ok, err}

pub data Outcome {ℓ} (A : Type ℓ) : Type ℓ where
  done : A → Outcome A
  raised : Error → Outcome A
  crashed : Outcome A

pub record Run {ℓ κ} (S : Type ℓ) (A : Type κ) : Type (ℓ ⊔ κ) where
  pub outcome : Outcome A
  pub state : S
  pub left : ℕ

abbrev pub Durable {ℓ κ} : Type ℓ → Type κ → Type (ℓ ⊔ κ)
Durable S A = S → ℕ → Run S A

module _ {ℓ κ} {S : Type ℓ} {A : Type κ} where
  abbrev pub pure : A → Durable S A
  pure a s b = record { outcome = done a; state = s; left = b }

  abbrev pub raise : Error → Durable S A
  raise e s b = record { outcome = raised e; state = s; left = b }

  -- A computation on what is stored that writes nothing.
  abbrev pub reads : (S → Result A) → Durable S A
  reads f s b = elim (f s) [
    | ok a ↦ record { outcome = done a; state = s; left = b }
    | err e ↦ record { outcome = raised e; state = s; left = b }
  ]

-- One durable write.
abbrev pub write {ℓ} : {S : Type ℓ} → (S → S) → Durable S (Unit {0})
write f s zero = record { outcome = crashed; state = s; left = zero }
write f s (suc b) = record { outcome = done tt; state = f s; left = b }

module _ {ℓ κ μ} {S : Type ℓ} {A : Type κ} {B : Type μ} where
  abbrev pub continue : Outcome A → (A → Durable S B) → Durable S B
  continue (done a) f s b = f a s b
  continue (raised e) f s b = record { outcome = raised e; state = s; left = b }
  continue crashed f s b = record { outcome = crashed; state = s; left = b }

  infixl 5 ◌>>=◌
  unfoldable pub ◌>>=◌ : Durable S A → (A → Durable S B) → Durable S B
  ◌>>=◌ m f s b = let r = m s b in continue r.outcome f r.state r.left

module _ {ℓ κ} {S : Type ℓ} {A : Type κ} where
  abbrev pub handled : Outcome A → (Error → Durable S A) → Durable S A
  handled (done a) handler s b = record { outcome = done a; state = s; left = b }
  handled (raised e) handler s b = handler e s b
  handled crashed handler s b = record { outcome = crashed; state = s; left = b }

  -- try: m  except: handler. No handler runs after a crash.
  unfoldable pub rescue : (Error → Durable S A) → Durable S A → Durable S A
  rescue handler m s b = let r = m s b in handled r.outcome handler r.state r.left

infixl 5 ◌>>◌
abbrev pub ◌>>◌ {ℓ κ} : {S : Type ℓ} {B : Type κ} → Durable S (Unit {0}) → Durable S B → Durable S B
m >> k = m >>= λ _. k

-- A program on a part of what is stored.
abbrev pub zoom {ℓ κ μ} :
    {S : Type ℓ} {T : Type κ} {A : Type μ} → (S → T) → (T → S → S) → Durable T A → Durable S A
zoom get put m s b =
    let r = m (get s) b in record { outcome = r.outcome; state = put r.state s; left = r.left }

-- The run raises nothing: it returns a result and a state with `P`, or stops in one with `C`.
module _ {S : Type 0} {A : Type 0} where
  abbrev pub Ends : (A → S → ℕ → Type 0) → (S → Type 0) → Run S A → Type 0
  Ends P C r = at r.outcome r.state r.left
    where
      at : Outcome A → S → ℕ → Type 0
      at (done a) s b = P a s b
      at (raised e) s b = ⊥
      at crashed s b = C s

  pub Ends-weaken :
      (P Q : A → S → ℕ → Type 0) (C D : S → Type 0) (r : Run S A)
      → Ends P C r
      → ((a : A) (s : S) (b : ℕ) → P a s b → Q a s b)
      → ((s : S) → C s → D s)
      → Ends Q D r
  Ends-weaken P Q C D r h f g = at r.outcome r.state r.left h
    where
      at :
          (o : Outcome A) (s : S) (b : ℕ)
          → Ends P C (record { outcome = o; state = s; left = b })
          → Ends Q D (record { outcome = o; state = s; left = b })
      at (done a) s b h = f a s b h
      at (raised e) s b h = h
      at crashed s b h = g s h

module _ {S : Type 0} {A B : Type 0} where
  pub Ends-bind :
      (P : A → S → ℕ → Type 0) (Q : B → S → ℕ → Type 0) (C : S → Type 0) (m : Durable S A)
      (f : A → Durable S B) (s : S) (b : ℕ)
      → Ends P C (m s b)
      → ((a : A) (s' : S) (b' : ℕ) → P a s' b' → Ends Q C (f a s' b'))
      → Ends Q C ((m >>= f) s b)
  unfolding ◌>>=◌
  Ends-bind P Q C m f s b h k = at (m s b).outcome (m s b).state (m s b).left h
    where
      at :
          (o : Outcome A) (s' : S) (b' : ℕ)
          → Ends P C (record { outcome = o; state = s'; left = b' })
          → Ends Q C (continue o f s' b')
      at (done a) s' b' h = k a s' b' h
      at (raised e) s' b' h = absurd h
      at crashed s' b' h = h

pub Ends-write :
    {S : Type 0} (P : S → ℕ → Type 0) (C : S → Type 0) (f : S → S) (s : S) (b : ℕ)
    → C s
    → ((b' : ℕ) → b ≡ suc b' → P (f s) b')
    → Ends (λ _. P) C (write f s b)
Ends-write P C f s zero c h = c
Ends-write P C f s (suc b) c h = h b refl
