-- ===== src/Text/Fields.antt =====
-- What the command line uses of `strings.Fields`, `fmt.Sscanf` and `strconv.Itoa`.
pub mod Laws
use mathlib.Core.List.{reverse}
use decentralized_p2p_chat_s.Base.{
  ℕ, zero, suc, ◌+◌, ◌-◌, ◌*◌, ◌/◌, ◌%◌, ◌^◌, ◌≡◌, refl, Bool, true, false, ◌&&◌, List, [], ◌∷◌,
  ◌++◌, Option, none, some, ltb, leb, eqb, if◌then◌else◌, Bytes, length,
}
use decentralized_p2p_chat_s.Base.Int.{ℤ, pos, negsuc}
use decentralized_p2p_chat_s.Text.{space_width}

-- A word that is complete, unless it is empty.
abbrev pub close_word : Bytes → List Bytes → List Bytes
close_word [] words = words
close_word (a ∷ word) words = reverse (a ∷ word) ∷ words

-- The words of a text, from a number of bytes to skip and the word so far, backwards.
unfoldable pub words_from : ℕ → Bytes → Bytes → List Bytes
words_from skipped word [] = close_word word []
words_from (suc skipped) word (a ∷ s) = words_from skipped word s
words_from zero word (a ∷ s) =
    let longer = words_from zero (a ∷ word) s in
    let next = words_from (space_width (a ∷ s) - 1) [] s in
    if eqb (space_width (a ∷ s)) 0 then longer else close_word word next

-- `strings.Fields`
unfoldable pub fields : Bytes → List Bytes
unfolding words_from
fields s = words_from 0 [] s

abbrev pub is_digit : ℕ → Bool
is_digit a = leb 48 a && leb a 57

-- The value of the digits at the front of a text, behind digits of a given value.
unfoldable pub digits_value : ℕ → Bytes → ℕ
digits_value n [] = n
digits_value n (a ∷ s) =
    let rest = digits_value (n * 10 + (a - 48)) s in if is_digit a then rest else n

-- A magnitude within the range of `int`.
abbrev pub in_range : Bool → ℕ → Option ℤ
in_range true zero = some (pos 0)
in_range true (suc n) = if leb (suc n) (2 ^ 63) then some (negsuc n) else none
in_range false n = if ltb n (2 ^ 63) then some (pos n) else none

unfoldable pub scan_digits : Bool → Bytes → Option ℤ
unfolding digits_value
scan_digits negative [] = none
scan_digits negative (a ∷ s) =
    if is_digit a then in_range negative (digits_value 0 (a ∷ s)) else none

-- `fmt.Sscanf` with the verb for a decimal `int`, on a text without a space in front. What follows
-- the digits is left unread.
unfoldable pub scan_int : Bytes → Option ℤ
unfolding scan_digits
scan_int [] = none
scan_int (a ∷ s) =
    if eqb a 43
    then scan_digits false s
    else if eqb a 45
    then scan_digits true s
    else scan_digits false (a ∷ s)

-- The decimal digits of a number, in front of a text. The number itself is fuel enough.
unfoldable pub digits_onto : ℕ → ℕ → Bytes → Bytes
digits_onto zero n s = s
digits_onto (suc fuel) n s =
    let more = digits_onto fuel (n / 10) ((48 + n % 10) ∷ s) in
    if ltb n 10 then (48 + n) ∷ s else more

-- `strconv.Itoa` of a number that is not negative.
unfoldable pub decimal : ℕ → Bytes
unfolding digits_onto
decimal n = digits_onto (suc n) n []
