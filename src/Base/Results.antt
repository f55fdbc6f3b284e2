-- ===== src/Base/Results.antt =====
-- Go's pairs of a value and an error.
use mathlib.Core.Path.{◌≡◌, refl}
use mathlib.Core.Bool.{Bool, true, false}
use mathlib.Core.Option.{Option, none, some}

-- `err e` stands for a non-nil error.
pub data Result (E A : Type 0) : Type 0 where
  ok : A → Result E A
  err : E → Result E A

-- A step that may give no value.
abbrev pub or_fail : {E A : Type 0} → Option A → E → Result E A
or_fail (some a) e = ok a
or_fail none e = err e

-- A test that must hold.
abbrev pub guard : {E : Type 0} → Bool → E → Result E (Unit {0})
guard false e = err e
guard true e = ok tt

infixl 5 ◌>>=◌ ◌>>◌
abbrev pub ◌>>=◌ : {E A B : Type 0} → Result E A → (A → Result E B) → Result E B
err e >>= next = err e
ok a >>= next = next a

abbrev pub ◌>>◌ : {E B : Type 0} → Result E (Unit {0}) → Result E B → Result E B
first >> second = first >>= λ _. second

-- A chain that succeeds has a first step that succeeds.
pub >>=-eq-ok :
    {E A B : Type 0} (first : Result E A) (next : A → Result E B) {result : B}
    → (first >>= next) ≡ ok result
    → (value : A) × (first ≡ ok value) × (next value ≡ ok result)
>>=-eq-ok (err e) next same = cc
>>=-eq-ok (ok value) next same = (value, refl, same)

pub or_fail-eq-ok : {E A : Type 0} (o : Option A) (e : E) {a : A} → or_fail o e ≡ ok a → o ≡ some a
or_fail-eq-ok none e h = cc
or_fail-eq-ok (some a) e h = cc

pub guard-eq-ok : {E : Type 0} (b : Bool) (e : E) {u : Unit {0}} → guard b e ≡ ok u → b ≡ true
guard-eq-ok true e h = refl
guard-eq-ok false e h = cc

-- What holds of both cases of a result holds of what is made of it.
pub result_ind {ℓ κ} :
    {E A : Type 0} {B : Type ℓ} (P : B → Type κ) (r : Result E A) {f : A → B} {g : E → B}
    → ((a : A) → r ≡ ok a → P (f a))
    → ((e : E) → P (g e))
    → P (elim r as (λ _. B) [ ok a ↦ f a | err e ↦ g e ])
result_ind P (ok a) h k = h a refl
result_ind P (err e) h k = k e
