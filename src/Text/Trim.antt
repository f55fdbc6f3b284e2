-- ===== src/Text/Trim.antt =====
-- Lines of printable ASCII survive `TrimSpace` and lose their newline.
use mathlib.Core.List.{reverse, reverse-reverse, reverse-append}
use decentralized_p2p_chat_s.Base.{
  ℕ, zero, suc, ◌<◌, ◌≤◌, ◌≡◌, ◌≢◌, refl, [], ◌∷◌, ◌++◌, arith, Bytes, length, All, All-reverse,
  length-append,
}
use decentralized_p2p_chat_s.Text.{space_width, last_space_width, skip, trim_space, split}

abbrev pub IsAscii : ℕ → Type 0
IsAscii a = a < 128

-- Printable ASCII without the space.
abbrev pub IsGraphic : ℕ → Type 0
IsGraphic a = (33 ≤ a) × (a ≤ 126)

space_width_graphic : (s : Bytes) → All IsGraphic s → space_width s ≡ 0
unfolding space_width
space_width_graphic [] g = refl
space_width_graphic (a ∷ []) g = ground arith
space_width_graphic (a ∷ b ∷ []) g = ground arith
space_width_graphic (a ∷ b ∷ c ∷ s) g = ground arith

last_space_width_graphic : (s : Bytes) → All IsGraphic s → last_space_width s ≡ 0
unfolding last_space_width
last_space_width_graphic [] g = refl
last_space_width_graphic (a ∷ []) g = ground arith
last_space_width_graphic (a ∷ b ∷ []) g = ground arith
last_space_width_graphic (a ∷ b ∷ c ∷ s) g = ground arith

skip_none : (width : Bytes → ℕ) (n : ℕ) (s : Bytes) → width s ≡ 0 → skip width n s ≡ s
unfolding skip
skip_none width zero s e = refl
skip_none width (suc n) s e = rw e

-- A graphic text is its own trimmed form.
pub trim_space_graphic : (s : Bytes) → All IsGraphic s → trim_space s ≡ s
unfolding trim_space
trim_space_graphic s g = rw (skip_none space_width (length s) s (space_width_graphic s g)) (
    rw
      (skip_none last_space_width (length s) (reverse s)
        (last_space_width_graphic (reverse s) (All-reverse IsGraphic s g)))
      (reverse-reverse s))

space_width_line :
    (a : ℕ) (s : Bytes) → IsGraphic a → All IsGraphic s → space_width (a ∷ s ++ 10 ∷ []) ≡ 0
unfolding space_width
space_width_line a [] g h = ground arith
space_width_line a (b ∷ []) g h = ground arith
space_width_line a (b ∷ c ∷ s) g h = ground arith

last_space_width_newline : (s : Bytes) → last_space_width (10 ∷ s) ≡ 1
unfolding last_space_width
last_space_width_newline [] = refl
last_space_width_newline (b ∷ []) = refl
last_space_width_newline (b ∷ c ∷ s) = refl

skip_newline :
    (n : ℕ) (s : Bytes)
    → All IsGraphic s
    → skip last_space_width (suc n) (10 ∷ reverse s) ≡ reverse s
unfolding skip
skip_newline n s g = rw (last_space_width_newline (reverse s)) (
    skip_none last_space_width n (reverse s)
      (last_space_width_graphic (reverse s) (All-reverse IsGraphic s g)))

trim_right_line :
    (s : Bytes)
    → All IsGraphic s
    → reverse (skip last_space_width (length (s ++ 10 ∷ [])) (reverse (s ++ 10 ∷ []))) ≡ s
trim_right_line s g =
    let e : length (s ++ 10 ∷ []) ≡ suc (length s) = omega (arith, length-append s (10 ∷ [])) in
    rw (reverse-append s (10 ∷ []), e, skip_newline (length s) s g) (reverse-reverse s)

-- A graphic text with a newline behind it is trimmed to the text.
pub trim_space_line : (s : Bytes) → All IsGraphic s → trim_space (s ++ 10 ∷ []) ≡ s
unfolding trim_space
trim_space_line [] g = refl
trim_space_line (a ∷ s) g =
    rw
      (skip_none space_width (length (a ∷ s ++ 10 ∷ [])) (a ∷ s ++ 10 ∷ [])
        (space_width_line a s g.0 g.1))
      (trim_right_line (a ∷ s) g)

-- Two texts without the separator, joined by it, are split into the two.
split_none : (sep : ℕ) (s : Bytes) → All (λ a. a ≢ sep) s → split sep s ≡ s ∷ []
unfolding split
split_none sep [] h = refl
split_none sep (a ∷ s) h = rw (split_none sep s h.1) (ground arith)

pub split_pair :
    (sep : ℕ) (s t : Bytes)
    → All (λ a. a ≢ sep) s
    → All (λ a. a ≢ sep) t
    → split sep (s ++ sep ∷ t) ≡ s ∷ t ∷ []
unfolding split
split_pair sep [] t h k = rw (split_none sep t k) (ground arith)
split_pair sep (a ∷ s) t h k = rw (split_pair sep s t h.1 k) (ground arith)
