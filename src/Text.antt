-- ===== src/Text.antt =====
-- What the program uses of Go's `strings` package, on byte strings.
pub mod Trim
pub mod Sort
pub mod Fields
use mathlib.Core.List.{reverse}
use decentralized_p2p_chat_s.Base.{
  ℕ, zero, suc, ◌+◌, ◌-◌, ◌≡◌, refl, Bool, true, false, not, ◌&&◌, ◌||◌, List, [], ◌∷◌, ◌++◌, arith,
  ltb, leb, eqb, if◌then◌else◌, Bytes, length, drop, bytes_lt,
}

-- The characters that `unicode.IsSpace` accepts, by their UTF-8 bytes.
unfoldable pub is_space : ℕ → Bool
is_space a = (leb 9 a && leb a 13) || eqb a 32

unfoldable pub is_space_pair : ℕ → ℕ → Bool
is_space_pair a b = eqb a 0xc2 && (eqb b 0x85 || eqb b 0xa0)

unfoldable pub is_space_triple : ℕ → ℕ → ℕ → Bool
is_space_triple a b c =
    (eqb a 0xe1 && eqb b 0x9a && eqb c 0x80)
    || (eqb a 0xe2
        && eqb b 0x80
        && ((leb 0x80 c && leb c 0x8a) || eqb c 0xa8 || eqb c 0xa9 || eqb c 0xaf))
    || (eqb a 0xe2 && eqb b 0x81 && eqb c 0x9f)
    || (eqb a 0xe3 && eqb b 0x80 && eqb c 0x80)

-- The width of the space at the front of a text; 0 if it begins with none.
unfoldable pub space_width : Bytes → ℕ
unfolding is_space is_space_pair is_space_triple
space_width [] = 0
space_width (a ∷ []) = if is_space a then 1 else 0
space_width (a ∷ b ∷ []) = if is_space a then 1 else if is_space_pair a b then 2 else 0
space_width (a ∷ b ∷ c ∷ s) =
    if is_space a
    then 1
    else if is_space_pair a b
    then 2
    else if is_space_triple a b c
    then 3
    else 0

-- The width of the space at the end of a text that is given backwards.
unfoldable pub last_space_width : Bytes → ℕ
unfolding is_space is_space_pair is_space_triple
last_space_width [] = 0
last_space_width (a ∷ []) = if is_space a then 1 else 0
last_space_width (a ∷ b ∷ []) = if is_space a then 1 else if is_space_pair b a then 2 else 0
last_space_width (a ∷ b ∷ c ∷ s) =
    if is_space a
    then 1
    else if is_space_pair b a
    then 2
    else if is_space_triple c b a
    then 3
    else 0

-- Drops spaces from the front, by a function that says how wide the next one is.
unfoldable pub skip : (Bytes → ℕ) → ℕ → Bytes → Bytes
skip width zero s = s
skip width (suc fuel) s =
    let rest = skip width fuel (drop (width s) s) in if eqb (width s) 0 then s else rest

-- `strings.TrimSpace`
unfoldable pub trim_space : Bytes → Bytes
unfolding skip space_width last_space_width
trim_space s =
    let t = skip space_width (length s) s in reverse (skip last_space_width (length t) (reverse t))

-- `strings.HasPrefix`
unfoldable pub has_prefix : Bytes → Bytes → Bool
has_prefix s [] = true
has_prefix [] (p ∷ ps) = false
has_prefix (a ∷ s) (p ∷ ps) = if eqb a p then has_prefix s ps else false

-- `strings.TrimPrefix`
unfoldable pub trim_prefix : Bytes → Bytes → Bytes
unfolding has_prefix
trim_prefix s p = if has_prefix s p then drop (length p) s else s

-- `strings.Split` at one byte.
unfoldable pub split : ℕ → Bytes → List Bytes
split sep [] = [] ∷ []
split sep (a ∷ s) = elim (split sep s) [
  | [] ↦ []
  | part ∷ parts ↦ if eqb a sep then [] ∷ part ∷ parts else (a ∷ part) ∷ parts
]

-- The last eight bytes of an identifier, as the program shows it.
unfoldable pub short_id : Bytes → Bytes
short_id s = if ltb 8 (length s) then drop (length s - 8) s else s

-- `sort.Strings` and `sort.Slice` on two elements.
unfoldable pub sort_pair : Bytes → Bytes → Bytes × Bytes
sort_pair x y = if bytes_lt y x then (y, x) else (x, y)
