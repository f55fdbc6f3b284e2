-- ===== src/Base/Equality.antt =====
-- Go's `==` on the types whose equality is decided, and the order of byte strings.
use Prim.Native.Nat.{ℕ}
use mathlib.Core.Path.{◌≡◌, refl}
use mathlib.Core.Logic.{ite, dite}
use mathlib.Core.Bool.{Bool, true, false}
use mathlib.Core.List.{[], ◌∷◌}
use native.Mathlib.Omega.{arith}
use native.Mathlib.Decide.{ℕ_discrete}
use decentralized_p2p_chat_s.Base.Tests.{ltb, eqb, if◌then◌else◌}
use decentralized_p2p_chat_s.Base.Lists.{Bytes}

pub record Eq {ℓ} (A : Type ℓ) : Type ℓ where
  pub dec : Discrete A

module _ {ℓ} {A : Type ℓ} ⦃e : Eq A⦄ where
  infix 50 ◌==◌
  abbrev pub ◌==◌ : A → A → Bool
  a == b = ite (e.dec a b) true false

  pub ==_refl : (a : A) → (a == a) ≡ true
  ==_refl a = ground arith

instance unfoldable pub nat_eq : Eq ℕ
unfolding ℕ_discrete
nat_eq = record { dec = ℕ_discrete }

pub cons_head : {a b : ℕ} {xs ys : Bytes} → a ∷ xs ≡ b ∷ ys → a ≡ b
cons_head h = cc

pub cons_tail : {a b : ℕ} {xs ys : Bytes} → a ∷ xs ≡ b ∷ ys → xs ≡ ys
cons_tail h = cc

pub nil-ne-cons : {a : ℕ} {xs : Bytes} → [] ≡ a ∷ xs → ⊥
nil-ne-cons h = cc

pub cons-ne-nil : {a : ℕ} {xs : Bytes} → a ∷ xs ≡ [] → ⊥
cons-ne-nil h = cc

pub cons_eq : {a b : ℕ} {xs ys : Bytes} → a ≡ b → xs ≡ ys → a ∷ xs ≡ b ∷ ys
cons_eq p q = cc

unfoldable pub bytes_dec : Discrete Bytes
bytes_dec [] [] = yes refl
bytes_dec [] (b ∷ ys) = no nil-ne-cons
bytes_dec (a ∷ xs) [] = no cons-ne-nil
bytes_dec (a ∷ xs) (b ∷ ys) =
    dite (ℕ_discrete a b)
      (λ p. dite (bytes_dec xs ys) (λ q. yes (cons_eq p q)) (λ n. no (λ h. n (cons_tail h))))
      (λ n. no (λ h. n (cons_head h)))

instance unfoldable pub bytes_eq : Eq Bytes
unfolding bytes_dec ℕ_discrete
bytes_eq = record { dec = bytes_dec }

-- `s < t` on strings, and `bytes.Compare(s, t) < 0`: lexicographic by bytes.
unfoldable pub bytes_lt : Bytes → Bytes → Bool
bytes_lt [] [] = false
bytes_lt [] (b ∷ t) = true
bytes_lt (a ∷ s) [] = false
bytes_lt (a ∷ s) (b ∷ t) = if ltb a b then true else if eqb a b then bytes_lt s t else false

pub bytes_lt_irrefl : (s : Bytes) → bytes_lt s s ≡ false
unfolding bytes_lt
bytes_lt_irrefl [] = refl
bytes_lt_irrefl (a ∷ s) = ground (arith, bytes_lt_irrefl s)

pub bytes_lt_asymm : (s t : Bytes) → bytes_lt s t ≡ true → bytes_lt t s ≡ false
unfolding bytes_lt
bytes_lt_asymm [] [] h = refl
bytes_lt_asymm [] (b ∷ t) h = refl
bytes_lt_asymm (a ∷ s) [] h = cc
bytes_lt_asymm (a ∷ s) (b ∷ t) h = ground (arith, bytes_lt_asymm s t)

pub bytes_lt_connected : (s t : Bytes) → bytes_lt s t ≡ false → bytes_lt t s ≡ false → s ≡ t
unfolding bytes_lt
bytes_lt_connected [] [] h k = refl
bytes_lt_connected [] (b ∷ t) h k = cc
bytes_lt_connected (a ∷ s) [] h k = cc
bytes_lt_connected (a ∷ s) (b ∷ t) h k = ground (arith, bytes_lt_connected s t)

pub bytes_lt_trans :
    (s t u : Bytes) → bytes_lt s t ≡ true → bytes_lt t u ≡ true → bytes_lt s u ≡ true
unfolding bytes_lt
bytes_lt_trans [] [] u h k = cc
bytes_lt_trans [] (b ∷ t) [] h k = cc
bytes_lt_trans [] (b ∷ t) (c ∷ u) h k = refl
bytes_lt_trans (a ∷ s) [] u h k = cc
bytes_lt_trans (a ∷ s) (b ∷ t) [] h k = cc
bytes_lt_trans (a ∷ s) (b ∷ t) (c ∷ u) h k = ground (arith, bytes_lt_trans s t u)
