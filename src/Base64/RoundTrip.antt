-- ===== src/Base64/RoundTrip.antt =====
-- Decoding gives back what was encoded.
use decentralized_p2p_chat_s.Base.{
  ℕ, ◌+◌, ◌*◌, ◌/◌, ◌%◌, ◌<◌, ◌≡◌, ◌≢◌, refl, ◌||◌, [], ◌∷◌, some, arith, eqb, Bytes, select, not,
  All, All-map, length,
}
use decentralized_p2p_chat_s.Text.Trim.{IsAscii, IsGraphic}
use decentralized_p2p_chat_s.Base64.{
  Encoding, std, raw_url, encode_char, encode, decode_char, decode_clean, decode_std,
}

abbrev pub IsByte : ℕ → Type 0
IsByte a = a < 256

decode_char-encode_char : (v : ℕ) → v < 64 → decode_char (encode_char std v) ≡ some v
unfolding decode_char encode_char
decode_char-encode_char v h = ground arith

-- No character of an encoding is a space, a dot or padding.
encode_char-IsGraphic :
    (e : Encoding) (v : ℕ)
    → v < 64
    → IsGraphic (encode_char e v) × (encode_char e v ≢ b'.') × (encode_char e v ≢ b'=')
unfolding encode_char
encode_char-IsGraphic std v h = ground arith
encode_char-IsGraphic raw_url v h = ground arith

decode_clean-encode : (s : Bytes) → All IsByte s → decode_clean (encode std s) ≡ some s
unfolding decode_clean encode
decode_clean-encode [] h = refl
decode_clean-encode (a ∷ []) h =
    ground (arith, decode_char-encode_char (a / 4), decode_char-encode_char (a % 4 * 16))
decode_clean-encode (a ∷ b ∷ []) h = ground (
  arith,
  decode_char-encode_char (a / 4),
  decode_char-encode_char (a % 4 * 16 + b / 16),
  decode_char-encode_char (b % 16 * 4),
  encode_char-IsGraphic std (b % 16 * 4),
)
decode_clean-encode (a ∷ b ∷ c ∷ s) h = ground (
  arith,
  decode_char-encode_char (a / 4),
  decode_char-encode_char (a % 4 * 16 + b / 16),
  decode_char-encode_char (b % 16 * 4 + c / 64),
  decode_char-encode_char (c % 64),
  encode_char-IsGraphic std (c % 64),
  decode_clean-encode s,
)

-- What a character of an encoding is: printable, no space, and no dot.
abbrev pub IsWire : ℕ → Type 0
IsWire a = IsGraphic a × (a ≢ b'.')

encode_char-IsWire : (e : Encoding) (v : ℕ) → v < 64 → IsWire (encode_char e v)
encode_char-IsWire e v h = ((encode_char-IsGraphic e v h).0, (encode_char-IsGraphic e v h).1)

equals_sign-IsWire : IsWire b'='
equals_sign-IsWire = omega arith

pub encode-IsWire : (e : Encoding) (s : Bytes) → All IsByte s → All IsWire (encode e s)
unfolding encode
encode-IsWire e [] h = tt
encode-IsWire std (a ∷ []) h = (
  encode_char-IsWire std (a / 4) (omega arith),
  (
    encode_char-IsWire std (a % 4 * 16) (omega arith),
    (equals_sign-IsWire, (equals_sign-IsWire, tt)),
  ),
)
encode-IsWire raw_url (a ∷ []) h = (
  encode_char-IsWire raw_url (a / 4) (omega arith),
  (encode_char-IsWire raw_url (a % 4 * 16) (omega arith), tt),
)
encode-IsWire std (a ∷ b ∷ []) h = (
  encode_char-IsWire std (a / 4) (omega arith),
  (
    encode_char-IsWire std (a % 4 * 16 + b / 16) (omega arith),
    (encode_char-IsWire std (b % 16 * 4) (omega arith), (equals_sign-IsWire, tt)),
  ),
)
encode-IsWire raw_url (a ∷ b ∷ []) h = (
  encode_char-IsWire raw_url (a / 4) (omega arith),
  (
    encode_char-IsWire raw_url (a % 4 * 16 + b / 16) (omega arith),
    (encode_char-IsWire raw_url (b % 16 * 4) (omega arith), tt),
  ),
)
encode-IsWire e (a ∷ b ∷ c ∷ s) h = (
  encode_char-IsWire e (a / 4) (omega arith),
  (
    encode_char-IsWire e (a % 4 * 16 + b / 16) (omega arith),
    (
      encode_char-IsWire e (b % 16 * 4 + c / 64) (omega arith),
      (encode_char-IsWire e (c % 64) (omega arith), encode-IsWire e s h.1.1.1),
    ),
  ),
)

encode_char-IsAscii : (e : Encoding) (v : ℕ) → IsAscii (encode_char e v)
unfolding encode_char
encode_char-IsAscii std v = ground arith
encode_char-IsAscii raw_url v = ground arith

-- Whatever is encoded, the encoding is ASCII.
pub encode-IsAscii : (e : Encoding) (s : Bytes) → All IsAscii (encode e s)
unfolding encode
encode-IsAscii e [] = tt
encode-IsAscii std (a ∷ []) =
    ground (arith, encode_char-IsAscii std (a / 4), encode_char-IsAscii std (a % 4 * 16))
encode-IsAscii raw_url (a ∷ []) =
    ground (arith, encode_char-IsAscii raw_url (a / 4), encode_char-IsAscii raw_url (a % 4 * 16))
encode-IsAscii std (a ∷ b ∷ []) = ground (
  arith,
  encode_char-IsAscii std (a / 4),
  encode_char-IsAscii std (a % 4 * 16 + b / 16),
  encode_char-IsAscii std (b % 16 * 4),
)
encode-IsAscii raw_url (a ∷ b ∷ []) = ground (
  arith,
  encode_char-IsAscii raw_url (a / 4),
  encode_char-IsAscii raw_url (a % 4 * 16 + b / 16),
  encode_char-IsAscii raw_url (b % 16 * 4),
)
encode-IsAscii e (a ∷ b ∷ c ∷ s) = (
  encode_char-IsAscii e (a / 4),
  (
    encode_char-IsAscii e (a % 4 * 16 + b / 16),
    (
      encode_char-IsAscii e (b % 16 * 4 + c / 64),
      (encode_char-IsAscii e (c % 64), encode-IsAscii e s),
    ),
  ),
)

pub encode-IsGraphic : (e : Encoding) (s : Bytes) → All IsByte s → All IsGraphic (encode e s)
encode-IsGraphic e s h = All-map {P = IsWire} (λ a w. w.0) (encode e s) (encode-IsWire e s h)

pub encode_no_dot : (e : Encoding) (s : Bytes) → All IsByte s → All (λ a. a ≢ b'.') (encode e s)
encode_no_dot e s h = All-map {P = IsWire} (λ a w. w.1) (encode e s) (encode-IsWire e s h)

select_graphic : (s : Bytes) → All IsGraphic s → select (λ c. not (eqb c 10 || eqb c 13)) s ≡ s
unfolding select
select_graphic [] g = refl
select_graphic (a ∷ s) g = ground (arith, select_graphic s g.1)

-- `DecodeString` gives back the bytes that `EncodeToString` was given.
pub decode_std-encode : (s : Bytes) → All IsByte s → decode_std (encode std s) ≡ some s
unfolding decode_std
decode_std-encode s h =
    rw (select_graphic (encode std s) (encode-IsGraphic std s h)) (decode_clean-encode s h)

-- Without padding, n bytes become ⌈4n/3⌉ characters.
pub length-encode_raw_url : (s : Bytes) → length (encode raw_url s) ≡ (4 * length s + 2) / 3
unfolding encode
length-encode_raw_url [] = refl
length-encode_raw_url (a ∷ []) = refl
length-encode_raw_url (a ∷ b ∷ []) = refl
length-encode_raw_url (a ∷ b ∷ c ∷ s) = omega (arith, length-encode_raw_url s)
