-- ===== src/Base/Lists.antt =====
-- Lists over the native numbers, and the Python idioms on sequences.
use Prim.Native.Nat.{ℕ, suc}
use mathlib.Core.Path.{◌≡◌}
use mathlib.Core.Logic.{◌≢◌, ◌⊎◌, inl, inr}
use mathlib.Core.Bool.{Bool, true, false, ◌&&◌, ◌||◌, not}
use mathlib.Core.List.{List, [], ◌∷◌, ◌++◌}
use native.Mathlib.Omega.{arith}
use shuttle_gate.Base.Tests.{Eq, Bool-cases, contains, if◌then◌else◌}

module _ {ℓ} {A : Type ℓ} where
  abbrev pub length : List A → ℕ
  length [] = 0
  length (x ∷ xs) = suc (length xs)

  -- any(p(x) for x in xs)
  abbrev pub any : (A → Bool) → List A → Bool
  any p [] = false
  any p (x ∷ xs) = p x || any p xs

  -- all(p(x) for x in xs)
  abbrev pub all : (A → Bool) → List A → Bool
  all p [] = true
  all p (x ∷ xs) = p x && all p xs

  -- [x for x in xs if p(x)]
  abbrev pub keep : (A → Bool) → List A → List A
  keep p [] = []
  keep p (x ∷ xs) = let rest = keep p xs in if p x then x ∷ rest else rest

  -- not xs
  abbrev pub is_empty : List A → Bool
  is_empty [] = true
  is_empty (x ∷ xs) = false

  pub is_empty-ne-nil : (xs : List A) → is_empty xs ≡ false → xs ≢ []
  is_empty-ne-nil [] h = cc
  is_empty-ne-nil (x ∷ xs) h = λ p. cc

  -- The predicate that holds of every element.
  abbrev pub All {κ} : (A → Type κ) → List A → Type κ
  All P [] = Unit
  All P (x ∷ xs) = P x × All P xs

  -- The predicate that holds of some element.
  abbrev pub Any : (A → Type 0) → List A → Type 0
  Any P [] = ⊥
  Any P (x ∷ xs) = P x ⊎ Any P xs

  pub any-Any : (p : A → Bool) (xs : List A) → any p xs ≡ true → Any (λ x. p x ≡ true) xs
  any-Any p [] h = cc
  any-Any p (x ∷ xs) h = elim (Bool-cases (p x)) [
    | inl e ↦ inl e
    | inr e ↦ inr (any-Any p xs (ground arith))
  ]

  pub any-All_not : (p : A → Bool) (xs : List A) → any p xs ≡ false → All (λ x. p x ≡ false) xs
  any-All_not p [] h = tt
  any-All_not p (x ∷ xs) h = (ground arith, any-All_not p xs (ground arith))

  pub All-map {κ μ} :
      (P : A → Type κ) (Q : A → Type μ)
      → ((x : A) → P x → Q x)
      → (xs : List A) → All P xs
      → All Q xs
  All-map P Q f [] h = tt
  All-map P Q f (x ∷ xs) h = (f x h.0, All-map P Q f xs h.1)

  pub Any-map : (P Q : A → Type 0) → ((x : A) → P x → Q x) → (xs : List A) → Any P xs → Any Q xs
  Any-map P Q f [] h = absurd h
  Any-map P Q f (x ∷ xs) (inl h) = inl (f x h)
  Any-map P Q f (x ∷ xs) (inr h) = inr (Any-map P Q f xs h)

  pub all-All : (p : A → Bool) (xs : List A) → all p xs ≡ true → All (λ x. p x ≡ true) xs
  all-All p [] h = tt
  all-All p (x ∷ xs) h = (ground arith, all-All p xs (ground arith))

  pub All-append {κ} : (P : A → Type κ) (xs ys : List A) → All P xs → All P ys → All P (xs ++ ys)
  All-append P [] ys h k = k
  All-append P (x ∷ xs) ys h k = (h.0, All-append P xs ys h.1 k)

module _ {ℓ κ} {A : Type ℓ} {B : Type κ} where
  -- [y for x in xs for y in f(x)]
  abbrev pub concat_map : (A → List B) → List A → List B
  concat_map f [] = []
  concat_map f (x ∷ xs) = f x ++ concat_map f xs

module _ {ℓ} {A : Type ℓ} ⦃e : Eq A⦄ where
  -- len(set(xs)) == len(xs)
  abbrev pub is_unique : List A → Bool
  is_unique [] = true
  is_unique (x ∷ xs) = not (contains xs x) && is_unique xs

-- Every element differs from every later one.
abbrev pub Distinct {ℓ} : {A : Type ℓ} → List A → Type ℓ
Distinct [] = Unit
Distinct (x ∷ xs) = All (λ y. x ≢ y) xs × Distinct xs

-- No element is among those that were seen.
abbrev pub Fresh {ℓ} : {A : Type ℓ} ⦃e : Eq A⦄ → List A → List A → Type 0
Fresh seen xs = All (λ x. contains seen x ≡ false) xs

module _ {ℓ} {A : Type ℓ} ⦃e : Eq A⦄ where
  -- What is fresh after one more element was seen differs from it.
  pub Fresh-cons :
      (a : A) (seen xs : List A) → Fresh (a ∷ seen) xs → All (λ x. a ≢ x) xs × Fresh seen xs
  Fresh-cons a seen [] h = (tt, tt)
  Fresh-cons a seen (x ∷ xs) h =
      let (apart, fresh) = Fresh-cons a seen xs h.1 in
      ((λ p. ground arith, apart), (ground arith, fresh))

  pub is_unique-Distinct : (xs : List A) → is_unique xs ≡ true → Distinct xs
  is_unique-Distinct [] h = tt
  is_unique-Distinct (x ∷ xs) h =
      (contains_apart xs (ground arith), is_unique-Distinct xs (ground arith))
    where
      contains_apart : (ys : List A) → contains ys x ≡ false → All (λ y. x ≢ y) ys
      contains_apart [] k = tt
      contains_apart (y ∷ ys) k = (λ p. ground arith, contains_apart ys (ground arith))
