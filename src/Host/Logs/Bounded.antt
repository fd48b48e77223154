-- ===== src/Host/Logs/Bounded.antt =====
-- The number of lines that `logs` asks of journalctl.
use shuttle_gate.Base.{
  ◌≡◌, ◌≤◌, ◌⊎◌, inl, inr, refl, arith, subst, Bool-cases, String, true, false, Option, none, some,
  All, List, [], ◌∷◌, all, codes, is_digit, is_empty, ℕ, length, ltb, ◌==◌, string_eq, nat_eq,
}
use shuttle_gate.Errors.{Result, ok, err}
use shuttle_gate.Host.Logs.Asked.{IsSilent, read_options-Leaves}
use shuttle_gate.Host.Logs.{
  logs_usage, decimal_value, validated_tail, Word, word_of, follow_word, timestamps_word,
  next_is_tail, unknown_word, tail_word, LogOptions, read_options,
}

-- A tail that was asked for, if any: all, or at most 1000000 in some decimal digits, seven at most.
abbrev pub IsTail : Option String → Type 0
IsTail none = Unit
IsTail (some t) =
    (t ≡ "all")
    ⊎ ((all is_digit (codes t) ≡ true)
        × (decimal_value 0 (codes t) ≤ 1000000)
        × (1 ≤ length (codes t))
        × (length (codes t) ≤ 7))

length_positive : (l : List ℕ) → is_empty l ≡ false → 1 ≤ length l
length_positive [] h = cc
length_positive (c ∷ l) h = omega arith

validated_tail-IsTail :
    (value : String) {t : String} → validated_tail value ≡ ok t → IsTail (some t)
unfolding validated_tail
validated_tail-IsTail value {t} h = elim (Bool-cases (value == "all")) [
  | inl e ↦ inl (ground arith)
  | inr e ↦
      let same : value ≡ t = ground arith in
      let digits : all is_digit (codes value) ≡ true = ground arith in
      let short : ltb 7 (length (codes value)) ≡ false = ground arith in
      let some_digit : is_empty (codes value) ≡ false = ground arith in
      let small : ltb 1000000 (decimal_value 0 (codes value)) ≡ false = ground arith in
      subst (λ v. IsTail (some v)) same
        (inr (digits, ground arith, length_positive (codes value) some_digit, ground arith))
]

-- What keeps the tail: the options that a program on them returns.
abbrev Keeps : LogOptions → (LogOptions → Result LogOptions) → Type 0
Keeps o' next = (o : LogOptions) → IsTail o.tail → next o ≡ ok o' → IsTail o'.tail

-- With the tail that a value stands for.
abbrev with_tail : LogOptions → (LogOptions → Result LogOptions) → Result String → Result LogOptions
with_tail o next r = elim r [ err e ↦ err e | ok t ↦ next (record o { tail = some t }) ]

with_tail-IsTail :
    (o : LogOptions) (next : LogOptions → Result LogOptions) (value : String) {o' : LogOptions}
    → Keeps o' next
    → with_tail o next (validated_tail value) ≡ ok o'
    → IsTail o'.tail
with_tail-IsTail o next value {o'} keeps h =
    by_result (validated_tail value) (λ t e. validated_tail-IsTail value e) h
  where
    by_result :
        (r : Result String)
        → ((t : String) → r ≡ ok t → IsTail (some t))
        → with_tail o next r ≡ ok o'
        → IsTail o'.tail
    by_result (err e) valid h = cc
    by_result (ok t) valid h = keeps (record o { tail = some t }) (valid t refl) h

kept : {o o' : LogOptions} → IsTail o.tail → ok o ≡ ok o' → IsTail o'.tail
kept {o} {o'} k h = let e : o ≡ o' = cc in subst (λ o. IsTail o.tail) e k

read_options-IsTail :
    (words : List String) (o : LogOptions) {o' : LogOptions}
    → IsTail o.tail
    → read_options o words ≡ ok o'
    → IsTail o'.tail
unfolding read_options
read_options-IsTail [] o k h = kept k h
read_options-IsTail (word ∷ []) o {o'} k h = by_word (word_of word) h
  where
    by_word :
        (w : Word)
        → (elim w [
          | follow_word ↦ ok (record o { follow = true })
          | timestamps_word ↦ ok (record o { timestamps = true })
          | next_is_tail ↦ err logs_usage
          | unknown_word ↦ err logs_usage
          | tail_word value ↦ with_tail o ok (validated_tail value)
        ])
          ≡ ok o'
        → IsTail o'.tail
    by_word follow_word h = kept k h
    by_word timestamps_word h = kept k h
    by_word next_is_tail h = cc
    by_word unknown_word h = cc
    by_word (tail_word v) h = with_tail-IsTail o ok v (λ o₂ k₂. kept k₂) h
read_options-IsTail (word ∷ value ∷ rest) o {o'} k h =
    by_word (word_of word) (λ o₂ k₂ h₂. read_options-IsTail (value ∷ rest) o₂ k₂ h₂)
      (λ o₂ k₂ h₂. read_options-IsTail rest o₂ k₂ h₂) h
  where
    by_word :
        (w : Word)
        → Keeps o' (λ o. read_options o (value ∷ rest))
        → Keeps o' (λ o. read_options o rest)
        → (elim w [
          | follow_word ↦ read_options (record o { follow = true }) (value ∷ rest)
          | timestamps_word ↦ read_options (record o { timestamps = true }) (value ∷ rest)
          | next_is_tail ↦ with_tail o (λ o. read_options o rest) (validated_tail value)
          | unknown_word ↦ err logs_usage
          | tail_word v ↦ with_tail o (λ o. read_options o (value ∷ rest)) (validated_tail v)
        ])
          ≡ ok o'
        → IsTail o'.tail
    by_word follow_word more less h = more (record o { follow = true }) k h
    by_word timestamps_word more less h = more (record o { timestamps = true }) k h
    by_word next_is_tail more less h = with_tail-IsTail o (λ o. read_options o rest) value less h
    by_word unknown_word more less h = cc
    by_word (tail_word v) more less h =
        with_tail-IsTail o (λ o. read_options o (value ∷ rest)) v more h

-- The number of lines that these words choose: none of them asks for it, or it is a tail.
abbrev pub IsChosen : List String → Option String → Type 0
IsChosen words none = All IsSilent words
IsChosen words (some t) = IsTail (some t)

tail-IsChosen :
    (words : List String) (tail : Option String)
    → IsTail tail
    → (tail ≡ none → All IsSilent words)
    → IsChosen words tail
tail-IsChosen words none k silent = silent refl
tail-IsChosen words (some t) k silent = k

-- However the command line of `logs` is written: if it is accepted, then the number of lines is
-- open and no word of the command line asks for one, or the number is "all", or one to seven
-- decimal digits of a number up to 1000000.
pub read_options_bounded :
    (words : List String) {o : LogOptions}
    → read_options (record { follow = false; timestamps = false; tail = none }) words ≡ ok o
    → IsChosen words o.tail
read_options_bounded words {o} h =
    let start : LogOptions = record { follow = false; timestamps = false; tail = none } in
    tail-IsChosen words o.tail (read_options-IsTail words start tt h)
      (λ empty. (read_options-Leaves words start h empty).1)
