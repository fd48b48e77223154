-- ===== src/NftTproxy/Rearranged.antt =====
-- Sorting the subnets changes nothing but their order.
use shuttle_gate.Base.{List, [], ◌∷◌, Bool-cases, inl, inr}
use shuttle_gate.NftTproxy.{Subnet, is_heavier, insert_subnet, sorted_subnets}
use mathlib.Core.List.{Perm}
use mathlib.Core.List.Perm

insert_subnet-perm : (s : Subnet) (l : List Subnet) → Perm (insert_subnet s l) (s ∷ l)
unfolding insert_subnet
insert_subnet-perm s [] = Perm.refl (s ∷ [])
insert_subnet-perm s (t ∷ rest) = elim (Bool-cases (is_heavier t s)) [
  | inl e ↦ rw e (Perm.trans (Perm.cons t (insert_subnet-perm s rest)) (Perm.swap s t rest))
  | inr e ↦ rw e (Perm.refl (s ∷ t ∷ rest))
]

-- Sorting the subnets loses none, adds none and repeats none.
pub sorted_subnets-perm : (l : List Subnet) → Perm (sorted_subnets l) l
unfolding sorted_subnets
sorted_subnets-perm [] = Perm.refl []
sorted_subnets-perm (s ∷ rest) =
    Perm.trans (insert_subnet-perm s (sorted_subnets rest)) (Perm.cons s (sorted_subnets-perm rest))
