-- ===== src/Host/Logs/Asked.antt =====
-- Which command lines of `logs` leave the number of lines open.
use shuttle_gate.Base.{
  ◌≡◌, ◌∙◌, ap, refl, String, Bool, true, false, none, some, List, [], ◌∷◌, All,
}
use shuttle_gate.Errors.{Result, ok, err}
use shuttle_gate.Host.Logs.{
  logs_usage, validated_tail, Word, word_of, follow_word, timestamps_word, next_is_tail,
  unknown_word, tail_word, LogOptions, read_options,
}

abbrev asks : Word → Bool
asks next_is_tail = true
asks (tail_word value) = true
asks w = false

-- The word does not ask for a number of lines.
abbrev pub IsSilent : String → Type 0
IsSilent word = asks (word_of word) ≡ false

-- If no number of lines results, then none was there and no word asks for one.
abbrev Leaves : LogOptions → List String → (LogOptions → Result LogOptions) → Type 0
Leaves o' words next =
    (o : LogOptions) → next o ≡ ok o' → o'.tail ≡ none → (o.tail ≡ none) × All IsSilent words

-- A number of lines that was set stays.
set-not_none :
    (o o' : LogOptions) (words : List String) (next : LogOptions → Result LogOptions)
    (r : Result String) {B : Type 0}
    → Leaves o' words next
    → elim r [ err e ↦ err e | ok t ↦ next (record o { tail = some t }) ] ≡ ok o'
    → o'.tail ≡ none
    → B
set-not_none o o' words next (err e) {B} leaves h empty = cc
set-not_none o o' words next (ok t) {B} leaves h empty =
    let (contrary, _) = leaves (record o { tail = some t }) h empty in cc

done : (o o' : LogOptions) → ok o ≡ ok o' → o'.tail ≡ none → o.tail ≡ none
done o o' h empty = let e : o ≡ o' = cc in ap (λ o. o.tail) e ∙ empty

pub read_options-Leaves :
    (words : List String) {o' : LogOptions} → Leaves o' words (λ o. read_options o words)
unfolding read_options
read_options-Leaves [] {o'} o h empty = (done o o' h empty, tt)
read_options-Leaves (word ∷ []) {o'} o h empty = by_word (word_of word) refl h
  where
    by_word :
        (w : Word)
        → word_of word ≡ w
        → (elim w [
          | follow_word ↦ ok (record o { follow = true })
          | timestamps_word ↦ ok (record o { timestamps = true })
          | next_is_tail ↦ err logs_usage
          | unknown_word ↦ err logs_usage
          | tail_word value ↦ elim (validated_tail value) [
            | err e ↦ err e
            | ok t ↦ ok (record o { tail = some t })
          ]
        ])
          ≡ ok o'
        → (o.tail ≡ none) × All IsSilent (word ∷ [])
    by_word follow_word e h = (done (record o { follow = true }) o' h empty, (ap asks e, tt))
    by_word timestamps_word e h =
        (done (record o { timestamps = true }) o' h empty, (ap asks e, tt))
    by_word next_is_tail e h = cc
    by_word unknown_word e h = cc
    by_word (tail_word v) e h =
        set-not_none o o' [] ok (validated_tail v) (λ o₂ h₂ n. (done o₂ o' h₂ n, tt)) h empty
read_options-Leaves (word ∷ value ∷ rest) {o'} o h empty =
    by_word (word_of word) refl (read_options-Leaves (value ∷ rest)) (read_options-Leaves rest) h
  where
    by_word :
        (w : Word)
        → word_of word ≡ w
        → Leaves o' (value ∷ rest) (λ o. read_options o (value ∷ rest))
        → Leaves o' rest (λ o. read_options o rest)
        → (elim w [
          | follow_word ↦ read_options (record o { follow = true }) (value ∷ rest)
          | timestamps_word ↦ read_options (record o { timestamps = true }) (value ∷ rest)
          | next_is_tail ↦ elim (validated_tail value) [
            | err e ↦ err e
            | ok t ↦ read_options (record o { tail = some t }) rest
          ]
          | unknown_word ↦ err logs_usage
          | tail_word v ↦ elim (validated_tail v) [
            | err e ↦ err e
            | ok t ↦ read_options (record o { tail = some t }) (value ∷ rest)
          ]
        ])
          ≡ ok o'
        → (o.tail ≡ none) × All IsSilent (word ∷ value ∷ rest)
    by_word follow_word e more less h =
        let (unset, silent) = more (record o { follow = true }) h empty in
        (unset, (ap asks e, silent))
    by_word timestamps_word e more less h =
        let (unset, silent) = more (record o { timestamps = true }) h empty in
        (unset, (ap asks e, silent))
    by_word next_is_tail e more less h =
        set-not_none o o' rest (λ o. read_options o rest) (validated_tail value) less h empty
    by_word unknown_word e more less h = cc
    by_word (tail_word v) e more less h =
        set-not_none o o' (value ∷ rest) (λ o. read_options o (value ∷ rest)) (validated_tail v)
          more h empty
