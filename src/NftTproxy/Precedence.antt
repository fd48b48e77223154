-- ===== src/NftTproxy/Precedence.antt =====
-- The order of the sorted subnets, by their weight.
use shuttle_gate.Base.{
  ℕ, ◌+◌, ◌≡◌, refl, Bool, true, false, ◌&&◌, ◌||◌, List, [], ◌∷◌, All, arith, nat_eq, ◌==◌, ltb,
  inl, inr, Bool-cases,
}
use shuttle_gate.NftTproxy.{Subnet, is_heavier, insert_subnet, sorted_subnets, shifted_first, truth}

-- No subnet is heavier than one before it.
abbrev pub IsMostSpecificFirst : List Subnet → Type 0
IsMostSpecificFirst [] = Unit
IsMostSpecificFirst (s ∷ rest) = All (λ t. is_heavier t s ≡ false) rest × IsMostSpecificFirst rest

abbrev heavier : ℕ → ℕ → ℕ → ℕ → ℕ → ℕ → ℕ → ℕ → Bool
heavier f l w x f' l' w' x' =
    ltb (f' + l) (f + l') || ((f' + l == f + l') && (ltb w' w || ((w' == w) && ltb x' x)))

heavier_asym :
    (f l w x f' l' w' x' : ℕ)
    → heavier f l w x f' l' w' x' ≡ true
    → heavier f' l' w' x' f l w x ≡ false
heavier_asym f l w x f' l' w' x' h = ground arith

heavier_trans :
    (f l w x f' l' w' x' f₂ l₂ w₂ x₂ : ℕ)
    → heavier f₂ l₂ w₂ x₂ f' l' w' x' ≡ false
    → heavier f' l' w' x' f l w x ≡ false
    → heavier f₂ l₂ w₂ x₂ f l w x ≡ false
heavier_trans f l w x f' l' w' x' f₂ l₂ w₂ x₂ h k = ground arith

is_heavier_asym : (s t : Subnet) → is_heavier t s ≡ true → is_heavier s t ≡ false
unfolding is_heavier
is_heavier_asym s t h =
    heavier_asym (shifted_first t) t.last_port t.width (truth t.exclude) (shifted_first s)
      s.last_port s.width (truth s.exclude) h

is_heavier_trans :
    (s t u : Subnet) → is_heavier u t ≡ false → is_heavier t s ≡ false → is_heavier u s ≡ false
unfolding is_heavier
is_heavier_trans s t u h k =
    heavier_trans (shifted_first s) s.last_port s.width (truth s.exclude) (shifted_first t)
      t.last_port t.width (truth t.exclude) (shifted_first u) u.last_port u.width (truth u.exclude)
      h k

insert_heavier :
    (s t : Subnet) (rest : List Subnet)
    → is_heavier t s ≡ true
    → insert_subnet s (t ∷ rest) ≡ t ∷ insert_subnet s rest
unfolding insert_subnet
insert_heavier s t rest h = rw h refl

insert_first :
    (s t : Subnet) (rest : List Subnet)
    → is_heavier t s ≡ false
    → insert_subnet s (t ∷ rest) ≡ s ∷ t ∷ rest
unfolding insert_subnet
insert_first s t rest h = rw h refl

All-insert_subnet :
    (P : Subnet → Type 0) (s : Subnet) (l : List Subnet) → P s → All P l → All P (insert_subnet s l)
unfolding insert_subnet
All-insert_subnet P s [] p h = (p, tt)
All-insert_subnet P s (t ∷ rest) p h = elim (Bool-cases (is_heavier t s)) [
  | inl e ↦ rw (insert_heavier s t rest e) (h.0, All-insert_subnet P s rest p h.1)
  | inr e ↦ rw (insert_first s t rest e) (p, h)
]

All-trans :
    (s t : Subnet) (rest : List Subnet)
    → is_heavier t s ≡ false
    → All (λ u. is_heavier u t ≡ false) rest
    → All (λ u. is_heavier u s ≡ false) rest
All-trans s t [] h k = tt
All-trans s t (u ∷ rest) h k = (is_heavier_trans s t u k.0 h, All-trans s t rest h k.1)

insert_subnet-IsMostSpecificFirst :
    (s : Subnet) (l : List Subnet) → IsMostSpecificFirst l → IsMostSpecificFirst (insert_subnet s l)
unfolding insert_subnet
insert_subnet-IsMostSpecificFirst s [] h = (tt, tt)
insert_subnet-IsMostSpecificFirst s (t ∷ rest) h = elim (Bool-cases (is_heavier t s)) [
  | inl e ↦ rw (insert_heavier s t rest e) (
    All-insert_subnet (λ u. is_heavier u t ≡ false) s rest (is_heavier_asym s t e) h.0,
    insert_subnet-IsMostSpecificFirst s rest h.1,
  )
  | inr e ↦ rw (insert_first s t rest e) ((e, All-trans s t rest e h.0), h)
]

-- In the sorted subnets, none is of greater weight than one before it.
pub sorted_subnets-IsMostSpecificFirst :
    (subnets : List Subnet) → IsMostSpecificFirst (sorted_subnets subnets)
unfolding sorted_subnets
sorted_subnets-IsMostSpecificFirst [] = tt
sorted_subnets-IsMostSpecificFirst (s ∷ rest) =
    insert_subnet-IsMostSpecificFirst s (sorted_subnets rest)
      (sorted_subnets-IsMostSpecificFirst rest)
