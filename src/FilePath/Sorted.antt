-- ===== src/FilePath/Sorted.antt =====
-- `sorted(set(paths), key=str)`, which claim.py checks and host.py establishes.
use shuttle_gate.Base.{
  ℕ, ◌≡◌, refl, Bool, true, false, List, [], ◌∷◌, ltb, codes, Bool-cases, inl, inr, if◌then◌else◌,
}
use shuttle_gate.FilePath.{FilePath, path_text}

-- Texts are compared by their code points.
unfoldable pub lt_codes : List ℕ → List ℕ → Bool
lt_codes [] [] = false
lt_codes [] (b ∷ ys) = true
lt_codes (a ∷ xs) [] = false
lt_codes (a ∷ xs) (b ∷ ys) =
    let rest = lt_codes xs ys in if ltb a b then true else if ltb b a then false else rest

unfoldable pub before : FilePath → FilePath → Bool
unfolding lt_codes path_text
before p q = lt_codes (codes (path_text p)) (codes (path_text q))

-- Adds a path to a sorted list that holds no path twice.
unfoldable pub insert_sorted : FilePath → List FilePath → List FilePath
unfolding before
insert_sorted p [] = p ∷ []
insert_sorted p (q ∷ qs) =
    let later = q ∷ insert_sorted p qs in
    if before p q then p ∷ q ∷ qs else if before q p then later else q ∷ qs

unfoldable pub sorted_set : List FilePath → List FilePath
unfolding insert_sorted
sorted_set [] = []
sorted_set (p ∷ ps) = insert_sorted p (sorted_set ps)

-- Each path stands before the next one.
abbrev pub Ascending : List FilePath → Type 0
Ascending [] = Unit
Ascending (p ∷ []) = Unit
Ascending (p ∷ q ∷ qs) = (before p q ≡ true) × Ascending (q ∷ qs)

insert_sorted-Ascending_behind :
    (p q : FilePath) (qs : List FilePath)
    → Ascending (q ∷ qs)
    → before q p ≡ true
    → Ascending (insert_sorted p qs)
    → Ascending (q ∷ insert_sorted p qs)
unfolding insert_sorted
insert_sorted-Ascending_behind p q [] h e k = (e, tt)
insert_sorted-Ascending_behind p q (r ∷ rs) h e k = elim (Bool-cases (before p r)) [
  | inl pr ↦ rw pr (e, (pr, h.1))
  | inr not_pr ↦ elim (Bool-cases (before r p)) [
    | inl rp ↦ rw (not_pr, rp) (h.0, rw (not_pr, rp) at k)
    | inr not_rp ↦ rw (not_pr, not_rp) h
  ]
]

tail-Ascending : (p : FilePath) (ps : List FilePath) → Ascending (p ∷ ps) → Ascending ps
tail-Ascending p [] h = tt
tail-Ascending p (q ∷ qs) h = h.1

insert_sorted-Ascending :
    (p : FilePath) (qs : List FilePath) → Ascending qs → Ascending (insert_sorted p qs)
unfolding insert_sorted
insert_sorted-Ascending p [] h = tt
insert_sorted-Ascending p (q ∷ qs) h = elim (Bool-cases (before p q)) [
  | inl pq ↦ rw pq (pq, h)
  | inr not_pq ↦ elim (Bool-cases (before q p)) [
    | inl qp ↦
        rw (not_pq, qp)
          (insert_sorted-Ascending_behind p q qs h qp
            (insert_sorted-Ascending p qs (tail-Ascending q qs h)))
    | inr not_qp ↦ rw (not_pq, not_qp) h
  ]
]

pub sorted_set-Ascending : (ps : List FilePath) → Ascending (sorted_set ps)
unfolding sorted_set
sorted_set-Ascending [] = tt
sorted_set-Ascending (p ∷ ps) = insert_sorted-Ascending p (sorted_set ps) (sorted_set-Ascending ps)

pub sorted_set_of_Ascending : (ps : List FilePath) → Ascending ps → sorted_set ps ≡ ps
unfolding sorted_set
sorted_set_of_Ascending [] h = refl
sorted_set_of_Ascending (p ∷ []) h = refl
sorted_set_of_Ascending (p ∷ q ∷ qs) h = rw (sorted_set_of_Ascending (q ∷ qs) h.1, h.0)

-- What has been sorted once stays as it is.
pub sorted_set_idem : (ps : List FilePath) → sorted_set (sorted_set ps) ≡ sorted_set ps
sorted_set_idem ps = sorted_set_of_Ascending (sorted_set ps) (sorted_set-Ascending ps)
