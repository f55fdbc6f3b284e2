-- ===== src/Security/Bits.antt =====
-- The bits of a `uint64`, with the operations of `acceptCounter` on them.
use Prim.Native.Nat.{bitwise, digits, bit_and, bit_or, bit_and-bitwise, bit_or-bitwise}
use native.Mathlib.Nat.{
  le_refl, pow-suc, pow-le-pow_right, mod-eq-sub-mul-div, mul-div-le, div-div-eq-div-mul,
  one-le-pow, mod-eq_of_lt,
}
use decentralized_p2p_chat_s.Base.{
  ℕ, zero, suc, ◌+◌, ◌-◌, ◌*◌, ◌/◌, ◌%◌, ◌^◌, ◌≤◌, ◌<◌, min, max, ◌≡◌, refl, ap, arith, ltb, eqb,
  if◌then◌else◌,
}

abbrev pub uint64_mod : ℕ
uint64_mod = 2 ^ 64

-- `x << n` on a `uint64`.
unfoldable pub shl : ℕ → ℕ → ℕ
shl x n = (x * 2 ^ n) % 2 ^ 64

-- Bit `i` of `w`.
pub bit : ℕ → ℕ → ℕ
bit w zero = w % 2
bit w (suc i) = bit (w / 2) i

-- The fuel of the native operations' definition does not matter.
module _ (z : ℕ → ℕ) (f : ℕ → ℕ → ℕ) where
  digits-fuel : (n m a b : ℕ) → a ≤ n → a ≤ m → digits z f n a b ≡ digits z f m a b
  digits-fuel zero zero a b p q = refl
  digits-fuel (suc n) zero zero b p q = refl
  digits-fuel (suc n) zero (suc a) b p q = absurd (omega arith)
  digits-fuel zero (suc m) zero b p q = refl
  digits-fuel zero (suc m) (suc a) b p q = absurd (omega arith)
  digits-fuel (suc n) (suc m) zero b p q = refl
  digits-fuel (suc n) (suc m) (suc a) b p q =
      rw (digits-fuel n m (suc a / 2) (b / 2) (omega arith) (omega arith))

  lowest_digit :
      (a b : ℕ)
      → bitwise z f (suc a) b ≡ bitwise z f (suc a / 2) (b / 2) * 2 + f (suc a % 2) (b % 2)
  lowest_digit a b =
      omega (arith, digits-fuel a (suc a / 2) (suc a / 2) (b / 2) (omega arith) (le_refl _))

bit_or_halves : (a b : ℕ) → bit_or a b ≡ bit_or (a / 2) (b / 2) * 2 + max (a % 2) (b % 2)
bit_or_halves zero b = simp bit_or-bitwise (omega arith)
bit_or_halves (suc a) b = simp bit_or-bitwise (lowest_digit (λ y. y) max a b)

bit_and_halves : (a b : ℕ) → bit_and a b ≡ bit_and (a / 2) (b / 2) * 2 + min (a % 2) (b % 2)
bit_and_halves zero b = simp bit_and-bitwise (omega arith)
bit_and_halves (suc a) b = simp bit_and-bitwise (lowest_digit (λ y. 0) min a b)

pub bit-le_one : (w i : ℕ) → bit w i ≤ 1
unfolding bit
bit-le_one w zero = omega arith
bit-le_one w (suc i) = bit-le_one (w / 2) i

pub bit-zero : (i : ℕ) → bit 0 i ≡ 0
unfolding bit
bit-zero zero = refl
bit-zero (suc i) = bit-zero i

pub bit-bit_or : (a b i : ℕ) → bit (bit_or a b) i ≡ max (bit a i) (bit b i)
unfolding bit
bit-bit_or a b zero = omega (arith, bit_or_halves a b)
bit-bit_or a b (suc i) =
    let e : bit_or a b / 2 ≡ bit_or (a / 2) (b / 2) = omega (arith, bit_or_halves a b) in
    rw e (bit-bit_or (a / 2) (b / 2) i)

bit_and-zero : (w : ℕ) → bit_and 0 w ≡ 0
bit_and-zero w = bit_and-bitwise 0 w

bit_and_zero_fuel : (n w : ℕ) → w ≤ n → bit_and w 0 ≡ 0
bit_and_zero_fuel n zero h = refl
bit_and_zero_fuel zero (suc w) h = absurd (omega arith)
bit_and_zero_fuel (suc n) (suc w) h =
    omega (arith, bit_and_halves (suc w) 0, bit_and_zero_fuel n (suc w / 2) (omega arith))

-- `w & (1 << d)` is bit `d` in its place.
pub bit_and_mask : (w d : ℕ) → bit_and w (2 ^ d) ≡ bit w d * 2 ^ d
unfolding bit
bit_and_mask w zero =
    omega (arith, bit_and_halves w 1, bit_and_zero_fuel (w / 2) (w / 2) (le_refl _))
bit_and_mask w (suc d) = omega (
  arith,
  bit_and_halves w (2 ^ suc d),
  pow-suc 2 d,
  half,
  bit_and_mask (w / 2) d,
  ap (λ (t : ℕ). bit (w / 2) d * t) (pow-suc 2 d),
)
  where
    half : bit_and (w / 2) (2 ^ suc d / 2) ≡ bit_and (w / 2) (2 ^ d)
    half = let e : 2 ^ suc d / 2 ≡ 2 ^ d = omega (arith, pow-suc 2 d) in rw e refl

pub bit-two_pow : (d i : ℕ) → bit (2 ^ d) i ≡ (if eqb i d then 1 else 0)
unfolding bit
bit-two_pow zero zero = refl
bit-two_pow zero (suc i) = ground (arith, bit-zero i)
bit-two_pow (suc d) zero = ground (arith, pow-suc 2 d)
bit-two_pow (suc d) (suc i) =
    let e : 2 ^ suc d / 2 ≡ 2 ^ d = omega (arith, pow-suc 2 d) in
    rw e (ground (arith, bit-two_pow d i))

bit-mul_two_pow : (w s i : ℕ) → bit (w * 2 ^ s) i ≡ (if ltb i s then 0 else bit w (i - s))
unfolding bit
bit-mul_two_pow w zero i = ground arith
bit-mul_two_pow w (suc s) zero = ground (arith, ap (λ (t : ℕ). w * t) (pow-suc 2 s))
bit-mul_two_pow w (suc s) (suc i) =
    let e : w * 2 ^ suc s / 2 ≡ w * 2 ^ s = omega (arith, ap (λ (t : ℕ). w * t) (pow-suc 2 s)) in
    rw e (ground (arith, bit-mul_two_pow w s i))

module _ (w p : ℕ) where
  -- The remainder by an even number keeps the lowest bit, and halves to the remainder of the half.
  mod_even : ((w % (2 * p)) % 2 ≡ w % 2) × ((w % (2 * p)) / 2 ≡ (w / 2) % p)
  mod_even = (omega (arith, whole, le_whole), omega (arith, whole, le_whole, part, same))
    where
      whole : w % (2 * p) ≡ w - 2 * (p * (w / (2 * p)))
      whole = omega (arith, mod-eq-sub-mul-div w (2 * p))

      le_whole : 2 * (p * (w / (2 * p))) ≤ w
      le_whole = omega (arith, mul-div-le w (2 * p))

      part : (w / 2) % p ≡ w / 2 - p * (w / 2 / p)
      part = mod-eq-sub-mul-div (w / 2) p

      same : p * (w / 2 / p) ≡ p * (w / (2 * p))
      same = ap (λ (t : ℕ). p * t) (div-div-eq-div-mul w 2 p)

pub bit-mod_two_pow : (w n i : ℕ) → bit (w % 2 ^ n) i ≡ (if ltb i n then bit w i else 0)
unfolding bit
bit-mod_two_pow w zero i = ground (arith, bit-zero i)
bit-mod_two_pow w (suc n) zero =
    let e : 2 ^ suc n ≡ 2 * 2 ^ n = omega (arith, pow-suc 2 n) in
    rw e (ground (arith, mod_even w (2 ^ n)))
bit-mod_two_pow w (suc n) (suc i) =
    let e : 2 ^ suc n ≡ 2 * 2 ^ n = omega (arith, pow-suc 2 n) in
    rw (e, (mod_even w (2 ^ n)).1) (ground (arith, bit-mod_two_pow (w / 2) n i))

-- A shift moves the bits up and drops those from 64 on.
pub bit-shl : (w s i : ℕ) → i < 64 → bit (shl w s) i ≡ (if ltb i s then 0 else bit w (i - s))
unfolding shl
bit-shl w s i h = ground (arith, bit-mod_two_pow (w * 2 ^ s) 64 i, bit-mul_two_pow w s i)

-- `uint64(1) << d` for `d < 64` is not cut off.
pub shl-one : (d : ℕ) → d < 64 → shl 1 d ≡ 2 ^ d
unfolding shl
shl-one d h = ground (arith, mod-eq_of_lt fits)
  where
    fits : 2 ^ d < 2 ^ 64
    fits = omega (
      arith,
      pow-le-pow_right {n = 2} (omega arith) {i = suc d} {j = 64} (omega arith),
      pow-suc 2 d,
      one-le-pow d 2 (omega arith),
    )

-- The test `w & mask != 0`.
pub bit_and-shl_one : (w d : ℕ) → d < 64 → eqb (bit_and w (shl 1 d)) 0 ≡ eqb (bit w d) 0
bit_and-shl_one w d h = rw (shl-one d h, bit_and_mask w d) (by_value (bit w d) (bit-le_one w d))
  where
    by_value : (b : ℕ) → b ≤ 1 → eqb (b * 2 ^ d) 0 ≡ eqb b 0
    by_value zero p = ground arith
    by_value (suc zero) p = ground (arith, one-le-pow d 2 (omega arith))
    by_value (suc (suc b)) p = absurd (omega arith)
