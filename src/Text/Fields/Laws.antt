-- ===== src/Text/Fields/Laws.antt =====
-- Words and numbers that are written and read again.
use mathlib.Core.List.{reverse, reverse-cons, reverse-reverse, append_assoc, append-nil}
use decentralized_p2p_chat_s.Base.{
  ℕ, zero, suc, ◌+◌, ◌/◌, ◌%◌, ◌^◌, ◌≤◌, ◌<◌, ◌≡◌, ◌≢◌, refl, sym, ap, ◌∙◌, List, [], ◌∷◌, ◌++◌,
  some, arith, ltb, Bytes, All, if_ind,
}
use decentralized_p2p_chat_s.Base.Int.{pos}
use decentralized_p2p_chat_s.Text.{space_width}
use decentralized_p2p_chat_s.Text.Trim.{IsGraphic}
use decentralized_p2p_chat_s.Text.Fields.{
  close_word, words_from, fields, digits_value, scan_digits, scan_int, digits_onto, decimal,
}

space_width-graphic : (a : ℕ) (s : Bytes) → IsGraphic a → space_width (a ∷ s) ≡ 0
unfolding space_width
space_width-graphic a [] g = ground arith
space_width-graphic a (b ∷ []) g = ground arith
space_width-graphic a (b ∷ c ∷ s) g = ground arith

space_width-blank : (s : Bytes) → space_width (32 ∷ s) ≡ 1
unfolding space_width
space_width-blank [] = refl
space_width-blank (b ∷ []) = refl
space_width-blank (b ∷ c ∷ s) = refl

words_from-graphic :
    (word before rest : Bytes)
    → All IsGraphic word
    → words_from 0 before (word ++ rest) ≡ words_from 0 (reverse word ++ before) rest
unfolding words_from
words_from-graphic [] before rest g = refl
words_from-graphic (a ∷ word) before rest g = rw (space_width-graphic a (word ++ rest) g.0) (
    words_from-graphic word (a ∷ before) rest g.1
    ∙ ap (λ w. words_from 0 w rest)
        (sym (rw (reverse-cons a word) (append_assoc (reverse word) (a ∷ []) before))))

words_from-blank :
    (word s : Bytes) → words_from 0 word (32 ∷ s) ≡ close_word word (words_from 0 [] s)
unfolding words_from
words_from-blank word s = rw (space_width-blank s) refl

close_word-reverse :
    (word : Bytes) (words : List Bytes) → word ≢ [] → close_word (reverse word) words ≡ word ∷ words
close_word-reverse word words h = go (reverse word) refl
  where
    go : (w : Bytes) → reverse word ≡ w → close_word w words ≡ word ∷ words
    go [] e = absurd (h (sym (reverse-reverse word) ∙ ap reverse e))
    go (a ∷ w) e = ap (λ v. v ∷ words) (ap reverse (sym e) ∙ reverse-reverse word)

-- Two words with a space between them.
pub fields_pair :
    (first second : Bytes)
    → All IsGraphic first
    → All IsGraphic second
    → first ≢ []
    → second ≢ []
    → fields (first ++ 32 ∷ second) ≡ first ∷ second ∷ []
unfolding fields
fields_pair first second g h p q =
    words_from-graphic first [] (32 ∷ second) g
    ∙ ap (λ w. words_from 0 w (32 ∷ second)) (append-nil (reverse first))
    ∙ words_from-blank (reverse first) second
    ∙ close_word-reverse first (words_from 0 [] second) p
    ∙ ap (λ l. first ∷ l) last
  where
    last : words_from 0 [] second ≡ second ∷ []
    last =
        ap (words_from 0 []) (sym (append-nil second))
        ∙ words_from-graphic second [] [] h
        ∙ ap (λ w. words_from 0 w []) (append-nil (reverse second))
        ∙ (unfold words_from in close_word-reverse second [] q)

digits_value-onto :
    (fuel n : ℕ) (s : Bytes) → n < fuel → digits_value 0 (digits_onto fuel n s) ≡ digits_value n s
unfolding digits_onto digits_value
digits_value-onto zero n s h = absurd (omega arith)
digits_value-onto (suc fuel) n s h =
    if_ind (λ d. digits_value 0 d ≡ digits_value n s) (ltb n 10) (λ small. ground (arith, small))
      (λ large.
        digits_value-onto fuel (n / 10) ((48 + n % 10) ∷ s) (ground (arith, large)) ∙ ground arith)

-- The first digit, and the rest.
abbrev StartsWithDigit : Bytes → Type 0
StartsWithDigit d = (a : ℕ) × (t : Bytes) × (d ≡ a ∷ t) × (48 ≤ a) × (a ≤ 57)

first_digit : (fuel n : ℕ) (s : Bytes) → n < fuel → StartsWithDigit (digits_onto fuel n s)
unfolding digits_onto
first_digit zero n s h = absurd (omega arith)
first_digit (suc fuel) n s h =
    if_ind StartsWithDigit (ltb n 10)
      (λ small. (48 + n, s, refl, omega arith, ground (arith, small)))
      (λ large. first_digit fuel (n / 10) ((48 + n % 10) ∷ s) (ground (arith, large)))

scan_int-digit :
    (d : Bytes)
    → StartsWithDigit d
    → digits_value 0 d < 2 ^ 63
    → scan_int d ≡ some (pos (digits_value 0 d))
unfolding scan_int scan_digits
scan_int-digit [] (a, t, e, low, high) fits = let bad : ⊥ = cc e in absurd bad
scan_int-digit (b ∷ d) (a, t, e, low, high) fits =
    let same : b ≡ a = cc e in ground (arith, same, low, high, fits)

digits_value-decimal : (n : ℕ) → digits_value 0 (decimal n) ≡ n
unfolding decimal
digits_value-decimal n =
    digits_value-onto (suc n) n [] (omega arith) ∙ (unfold digits_value in refl)

-- A number that `strconv.Itoa` wrote is read back by `fmt.Sscanf`.
pub scan_int-decimal : (n : ℕ) → n < 2 ^ 63 → scan_int (decimal n) ≡ some (pos n)
scan_int-decimal n fits =
    scan_int-digit (decimal n) (unfold decimal in first_digit (suc n) n [] (omega arith))
      (omega (arith, digits_value-decimal n))
    ∙ ap (λ k. some (pos k)) (digits_value-decimal n)

pub decimal-ne-nil : (n : ℕ) → decimal n ≢ []
unfolding decimal
decimal-ne-nil n h =
    let (a, t, e, low, high) = first_digit (suc n) n [] (omega arith) in
    let bad : ⊥ = cc (h, e) in absurd bad

digits_onto-IsGraphic :
    (fuel n : ℕ) (s : Bytes) → n < fuel → All IsGraphic s → All IsGraphic (digits_onto fuel n s)
unfolding digits_onto
digits_onto-IsGraphic zero n s h g = absurd (omega arith)
digits_onto-IsGraphic (suc fuel) n s h g =
    if_ind (All IsGraphic) (ltb n 10) (λ small. ((omega arith, ground (arith, small)), g))
      (λ large.
        digits_onto-IsGraphic fuel (n / 10) ((48 + n % 10) ∷ s) (ground (arith, large))
          ((omega arith, omega arith), g))

pub decimal-IsGraphic : (n : ℕ) → All IsGraphic (decimal n)
unfolding decimal
decimal-IsGraphic n = digits_onto-IsGraphic (suc n) n [] (omega arith) tt
