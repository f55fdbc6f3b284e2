-- ===== src/Base64.antt =====
-- `encoding/base64` as the program uses it: the standard alphabet with padding for packets and
-- handshake lines, and the URL alphabet without padding for identifiers and the API token.
pub mod RoundTrip
use decentralized_p2p_chat_s.Base.{
  ℕ, zero, suc, ◌+◌, ◌-◌, ◌*◌, ◌/◌, ◌%◌, ◌≡◌, refl, Bool, true, false, ◌&&◌, ◌||◌, List, [], ◌∷◌,
  ◌++◌, Option, none, some, arith, ltb, leb, eqb, if◌then◌else◌, Bytes, select, not,
}

pub data Encoding : Type 0 where
  std : Encoding
  raw_url : Encoding

-- The characters for 62 and 63.
abbrev last_chars : Encoding → ℕ → ℕ
last_chars std v = if eqb v 62 then b'+' else b'/'
last_chars raw_url v = if eqb v 62 then b'-' else b'_'

unfoldable pub encode_char : Encoding → ℕ → ℕ
encode_char e v =
    if ltb v 26
    then v + b'A'
    else if ltb v 52
    then v + 71
    else if ltb v 62
    then v - 4
    else last_chars e v

abbrev padding : Encoding → ℕ → Bytes
padding std zero = []
padding std (suc n) = b'=' ∷ padding std n
padding raw_url n = []

-- `EncodeToString`
unfoldable pub encode : Encoding → Bytes → Bytes
encode e [] = []
encode e (a ∷ []) = encode_char e (a / 4) ∷ encode_char e (a % 4 * 16) ∷ padding e 2
encode e (a ∷ b ∷ []) =
    encode_char e (a / 4)
    ∷ encode_char e (a % 4 * 16 + b / 16)
    ∷ encode_char e (b % 16 * 4)
    ∷ padding e 1
encode e (a ∷ b ∷ c ∷ rest) =
    encode_char e (a / 4)
    ∷ encode_char e (a % 4 * 16 + b / 16)
    ∷ encode_char e (b % 16 * 4 + c / 64)
    ∷ encode_char e (c % 64)
    ∷ encode e rest

-- The value of a character of the standard alphabet.
unfoldable pub decode_char : ℕ → Option ℕ
decode_char c =
    if leb b'A' c && leb c b'Z'
    then some (c - b'A')
    else (if leb b'a' c && leb c b'z'
        then some (c - 71)
        else (if leb b'0' c && leb c b'9'
            then some (c + 4)
            else if eqb c b'+'
            then some 62
            else if eqb c b'/'
            then some 63
            else none))

infixl 5 ◌>>=◌
abbrev ◌>>=◌ : {A B : Type 0} → Option A → (A → Option B) → Option B
none >>= f = none
some a >>= f = f a

-- The last four characters, of which one or two are padding.
decode_padded : ℕ → ℕ → ℕ → Bytes → Option Bytes
unfolding decode_char
decode_padded a b c (x ∷ rest) = none
decode_padded a b c [] =
    if eqb c b'='
    then (do u ← decode_char a; v ← decode_char b; some ((u * 4 + v / 16) ∷ []))
    else (do
      u ← decode_char a
      v ← decode_char b
      w ← decode_char c
      some ((u * 4 + v / 16) ∷ (v % 16 * 16 + w / 4) ∷ []))

decode_clean : Bytes → Option Bytes
unfolding decode_padded
decode_clean [] = some []
decode_clean (a ∷ b ∷ c ∷ d ∷ rest) =
    let more = decode_clean rest in
    if eqb d b'=' then decode_padded a b c rest else (do
      u ← decode_char a
      v ← decode_char b
      w ← decode_char c
      x ← decode_char d
      out ← more
      some ((u * 4 + v / 16) ∷ (v % 16 * 16 + w / 4) ∷ (w % 4 * 64 + x) ∷ out))
decode_clean _ = none

-- `StdEncoding.DecodeString`: carriage returns and newlines are skipped, and a text that is not a
-- sequence of whole groups with the padding at its end is refused.
unfoldable pub decode_std : Bytes → Option Bytes
unfolding decode_clean
decode_std s = decode_clean (select (λ c. not (eqb c 10 || eqb c 13)) s)
