-- ===== src/Base/Int.antt =====
-- Signed integers (`int`, `int64`) without a range.
use Prim.Native.Nat.{ℕ}
use mathlib.Core.Bool.{Bool, true, false}
use decentralized_p2p_chat_s.Base.Tests.{leb}

-- `negsuc n` is -(n + 1).
pub data ℤ : Type 0 where
  pos : ℕ → ℤ
  negsuc : ℕ → ℤ

-- `x <= 0`
abbrev pub is_nonpos : ℤ → Bool
is_nonpos (pos n) = leb n 0
is_nonpos (negsuc n) = true

-- `x > n` for a bound that is not negative.
abbrev pub exceeds : ℤ → ℕ → Bool
exceeds (pos m) n = elim (leb m n) [ true ↦ false | false ↦ true ]
exceeds (negsuc m) n = false

abbrev pub is_int : ℕ → ℤ → Bool
is_int n (pos m) = elim (leb m n) [ true ↦ leb n m | false ↦ false ]
is_int n (negsuc m) = false
