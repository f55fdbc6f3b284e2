-- ===== src/Security/Replay/Spec.antt =====
-- What the replay window promises: the counters accepted so far are a set, and one is accepted
-- exactly if it is not in the set and less than 64 below the greatest.
use decentralized_p2p_chat_s.Base.{
  ℕ, ◌+◌, ◌≤◌, ◌≡◌, max, Bool, true, false, not, ◌&&◌, List, [], ◌∷◌, arith, ltb, eqb,
  if◌then◌else◌,
}

abbrev pub contains : ℕ → List ℕ → Bool
contains c [] = false
contains c (x ∷ xs) = if eqb c x then true else contains c xs

abbrev pub maximum : List ℕ → ℕ
maximum [] = 0
maximum (x ∷ xs) = max x (maximum xs)

-- Whether a counter may be accepted after those of the list.
abbrev pub may_accept : List ℕ → ℕ → Bool
may_accept seen c = not (contains c seen) && ltb (maximum seen) (c + 64)

abbrev pub remember : List ℕ → ℕ → List ℕ
remember seen c = if may_accept seen c then c ∷ seen else seen

abbrev pub answers : List ℕ → List ℕ → List Bool
answers seen [] = []
answers seen (c ∷ cs) = may_accept seen c ∷ answers (remember seen c) cs

pub contains-le_maximum : (c : ℕ) (xs : List ℕ) → contains c xs ≡ true → c ≤ maximum xs
contains-le_maximum c [] h = absurd (ground arith)
contains-le_maximum c (x ∷ xs) h = ground (arith, contains-le_maximum c xs)
