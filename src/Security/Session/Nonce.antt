-- ===== src/Security/Session/Nonce.antt =====
-- `binary.LittleEndian.PutUint64` and `Uint64`.
use native.Mathlib.Nat.{pow-suc}
use decentralized_p2p_chat_s.Base.{
  ℕ, zero, suc, ◌+◌, ◌*◌, ◌/◌, ◌%◌, ◌^◌, ◌<◌, ◌≡◌, refl, [], ◌∷◌, arith, Bytes, All, length,
}
use decentralized_p2p_chat_s.Base64.RoundTrip.{IsByte}

-- The `n` lowest bytes of a number, the lowest first.
unfoldable pub low_bytes : ℕ → ℕ → Bytes
low_bytes zero c = []
low_bytes (suc n) c = c % 256 ∷ low_bytes n (c / 256)

abbrev pub put_uint64 : ℕ → Bytes
put_uint64 = low_bytes 8

pub uint64 : Bytes → ℕ
uint64 [] = 0
uint64 (b ∷ s) = b + 256 * uint64 s

pub low_bytes-IsByte : (n c : ℕ) → All IsByte (low_bytes n c)
unfolding low_bytes
low_bytes-IsByte zero c = tt
low_bytes-IsByte (suc n) c = (omega arith, low_bytes-IsByte n (c / 256))

pub length-low_bytes : (n c : ℕ) → length (low_bytes n c) ≡ n
unfolding low_bytes
length-low_bytes zero c = refl
length-low_bytes (suc n) c = omega (arith, length-low_bytes n (c / 256))

pub uint64-low_bytes : (n c : ℕ) → c < 256 ^ n → uint64 (low_bytes n c) ≡ c
unfolding low_bytes uint64
uint64-low_bytes zero c h = omega arith
uint64-low_bytes (suc n) c h =
    omega (arith, uint64-low_bytes n (c / 256) (omega (arith, pow-suc 256 n)))
