-- ===== src/Security/Replay/Refinement.antt =====
-- The bit window of `acceptCounter` implements the set of accepted counters.
use Prim.Native.Nat.{bit_or}
use decentralized_p2p_chat_s.Base.{
  ℕ, zero, suc, ◌+◌, ◌-◌, ◌≤◌, ◌<◌, ◌≡◌, refl, Bool, true, false, List, [], ◌∷◌, arith, leb,
  if◌then◌else◌, dec_lt,
}
use mathlib.Core.Path.{ap₂}
use decentralized_p2p_chat_s.Security.Bits.{
  bit, shl, bit-zero, bit-bit_or, bit-two_pow, bit-shl, shl-one, bit_and-shl_one, bit-le_one,
}
use decentralized_p2p_chat_s.Security.Replay.{
  Replay, fresh_replay, advance, accept_counter, accept_all, accepted,
}
use decentralized_p2p_chat_s.Security.Replay.Spec.{
  contains, maximum, may_accept, remember, answers, contains-le_maximum,
}

-- Bit `d` of the window says whether the counter `d` below the greatest was accepted.
pub record Represents (s : Replay) (seen : List ℕ) : Type 0 where
  pub top : s.recv_max ≡ maximum seen
  pub bits :
      (d : ℕ)
      → d < 64
      → d ≤ s.recv_max
      → bit s.recv_window d ≡ (if contains (s.recv_max - d) seen then 1 else 0)

pub fresh_replay-Represents : Represents fresh_replay []
fresh_replay-Represents = record { top = refl; bits = λ d h k. bit-zero d }

-- No counter above the greatest was accepted.
contains_above : (c : ℕ) (seen : List ℕ) → maximum seen < c → contains c seen ≡ false
contains_above c seen h = ground (arith, contains-le_maximum c seen)

module _ (s : Replay) (seen : List ℕ) (r : Represents s seen) (c : ℕ) where
  -- The window after the shift, before the new counter's bit is set.
  shifted_bit :
      (d : ℕ)
      → s.recv_max < c
      → 0 < d
      → d < 64
      → d ≤ c
      → bit (if leb 64 (c - s.recv_max) then 0 else shl s.recv_window (c - s.recv_max)) d
        ≡ (if contains (c - d) seen then 1 else 0)
  shifted_bit d above p h k = ground (
    arith,
    r.top,
    bit-zero d,
    bit-shl s.recv_window (c - s.recv_max) d h,
    contains_above (c - d) seen,
    r.bits (d - (c - s.recv_max)),
    same,
  )
    where
      same : c - s.recv_max ≤ d → s.recv_max - (d - (c - s.recv_max)) ≡ c - d
      same q = omega arith

  advance-bit :
      (d : ℕ)
      → s.recv_max < c
      → d < 64
      → d ≤ c
      → bit (advance s c).recv_window d ≡ (if contains (c - d) (c ∷ seen) then 1 else 0)
  unfolding advance
  advance-bit zero above h k = rw bit-bit_or (
      ground (
        arith,
        bit-two_pow 0 0,
        bit-le_one (if leb 64 (c - s.recv_max) then 0 else shl s.recv_window (c - s.recv_max)) 0,
      ))
  advance-bit (suc d) above h k =
      rw (bit-bit_or, shifted_bit (suc d) above (omega arith) h k)
        (ground (arith, bit-two_pow 0 (suc d)))

  advance-Represents : s.recv_max < c → Represents (advance s c) (c ∷ seen)
  unfolding advance
  advance-Represents above = record { top = omega (arith, r.top); bits = λ d. advance-bit d above }

  -- A counter in the window marks its bit and no other.
  mark-bit :
      (d : ℕ)
      → c ≤ s.recv_max
      → s.recv_max - c < 64
      → d < 64
      → d ≤ s.recv_max
      → bit (bit_or s.recv_window (shl 1 (s.recv_max - c))) d
        ≡ (if contains (s.recv_max - d) (c ∷ seen) then 1 else 0)
  mark-bit d below near h k =
      rw (bit-bit_or, shl-one (s.recv_max - c) near, bit-two_pow (s.recv_max - c) d, r.bits d h k)
        (ground arith)

  abbrev Agrees : Type 0
  Agrees =
      ((accept_counter s c).1 ≡ may_accept seen c)
      × Represents (accept_counter s c).0 (remember seen c)

  agree :
      (t : Replay) (b : Bool)
      → accept_counter s c ≡ (t, b)
      → may_accept seen c ≡ b
      → Represents t (if b then c ∷ seen else seen)
      → Agrees
  agree t b e m q = rw (e, m) (refl, q)

  above_agrees : s.recv_max < c → Agrees
  above_agrees above =
      agree (advance s c) true (unfold accept_counter in ground arith)
        (ground (arith, r.top, contains_above c seen)) (advance-Represents above)

  far_agrees : c + 64 ≤ s.recv_max → Agrees
  unfolding accept_counter
  far_agrees far = agree s false (ground arith) (ground (arith, r.top)) r

  bit_of_counter :
      c ≤ s.recv_max
      → s.recv_max < c + 64
      → bit s.recv_window (s.recv_max - c) ≡ (if contains c seen then 1 else 0)
  bit_of_counter below near =
      let e : s.recv_max - (s.recv_max - c) ≡ c = omega arith in
      rw (r.bits (s.recv_max - c) (omega arith) (omega arith), e)

  near_agrees : (b : Bool) → contains c seen ≡ b → c ≤ s.recv_max → s.recv_max < c + 64 → Agrees
  unfolding accept_counter
  near_agrees true e below near =
      agree s false
        (ground (
          arith,
          bit_and-shl_one s.recv_window (s.recv_max - c) (omega arith),
          bit_of_counter below near,
        ))
        (ground arith) r
  near_agrees false e below near =
      agree (record s { recv_window = bit_or s.recv_window (shl 1 (s.recv_max - c)) }) true
        (ground (
          arith,
          bit_and-shl_one s.recv_window (s.recv_max - c) (omega arith),
          bit_of_counter below near,
        ))
        (ground (arith, r.top))
        (record { top = omega (arith, r.top); bits = λ d h k. mark-bit d below (omega arith) h k })

  -- The whole of `acceptCounter`: its answer is the specification's, and so is the next state.
  pub accept_counter-Agrees : Agrees
  accept_counter-Agrees = elim (dec_lt s.recv_max c) [
    | yes above ↦ above_agrees above
    | no below ↦ elim (dec_lt s.recv_max (c + 64)) [
      | yes near ↦ near_agrees (contains c seen) refl (omega arith) near
      | no far ↦ far_agrees (omega arith)
    ]
  ]

accept_all-answers_from :
    (s : Replay) (seen cs : List ℕ) → Represents s seen → accept_all s cs ≡ answers seen cs
unfolding accept_all
accept_all-answers_from s seen [] r = refl
accept_all-answers_from s seen (c ∷ cs) r =
    ap₂ (λ b bs. b ∷ bs) (accept_counter-Agrees s seen r c).0
      (accept_all-answers_from (accept_counter s c).0 (remember seen c) cs
        (accept_counter-Agrees s seen r c).1)

-- From a new session, `acceptCounter` answers every sequence of counters as the specification does:
-- a counter is accepted exactly if it was not accepted before and the greatest accepted counter is
-- less than 64 above it.
pub accept_all-answers : (cs : List ℕ) → accept_all fresh_replay cs ≡ answers [] cs
accept_all-answers cs = accept_all-answers_from fresh_replay [] cs fresh_replay-Represents

-- No entry stands in the list before it, or earlier in the list.
abbrev pub Fresh : List ℕ → List ℕ → Type 0
Fresh seen [] = Unit
Fresh seen (c ∷ cs) = (contains c seen ≡ false) × Fresh (c ∷ seen) cs

accepted-Fresh_from :
    (s : Replay) (seen cs : List ℕ) → Represents s seen → Fresh seen (accepted s cs)
unfolding accepted
accepted-Fresh_from s seen [] r = tt
accepted-Fresh_from s seen (c ∷ cs) r = fresh_step (contains c seen) refl (
    accepted-Fresh_from (accept_counter s c).0 (remember seen c) cs
      (accept_counter-Agrees s seen r c).1)
  where
    fresh_step :
        (b : Bool)
        → contains c seen ≡ b
        → Fresh (remember seen c) (accepted (accept_counter s c).0 cs)
        → Fresh seen (
            if (accept_counter s c).1
            then c ∷ accepted (accept_counter s c).0 cs
            else accepted (accept_counter s c).0 cs)
    fresh_step true e f = rw ((accept_counter-Agrees s seen r c).0, e) (rw e at f)
    fresh_step false e f = ground (arith, (accept_counter-Agrees s seen r c).0)

-- In a session no counter is accepted twice, whatever the order in which packets arrive.
pub accepted-Fresh : (cs : List ℕ) → Fresh [] (accepted fresh_replay cs)
accepted-Fresh cs = accepted-Fresh_from fresh_replay [] cs fresh_replay-Represents

-- A counter above all before is accepted and becomes the greatest.
pub accept_counter-above :
    (s : Replay) (c : ℕ)
    → s.recv_max < c
    → ((accept_counter s c).1 ≡ true) × ((accept_counter s c).0.recv_max ≡ c)
unfolding accept_counter
accept_counter-above s c h = ground arith

-- A refused counter changes nothing.
pub accept_counter_refused :
    (s : Replay) (c : ℕ) → (accept_counter s c).1 ≡ false → (accept_counter s c).0 ≡ s
unfolding accept_counter
accept_counter_refused s c h = ground arith
