-- ===== src/Security/Replay.antt =====
-- security/e2ee.go, `acceptCounter`: the sliding window of 64 counters.
pub mod Spec
pub mod Refinement
use Prim.Native.Nat.{bit_and, bit_or}
use decentralized_p2p_chat_s.Base.{
  ℕ, ◌+◌, ◌-◌, Bool, true, false, List, [], ◌∷◌, ltb, leb, eqb, if◌then◌else◌,
}
use decentralized_p2p_chat_s.Security.Bits.{shl}

-- The receive state of a `Session`. `recv_window` is a `uint64`.
pub record Replay : Type 0 where
  pub recv_max : ℕ
  pub recv_window : ℕ

-- `replayWindowBits`
abbrev pub replay_window_bits : ℕ
replay_window_bits = 64

abbrev pub fresh_replay : Replay
fresh_replay = record { recv_max = 0; recv_window = 0 }

-- The branch for a counter above all before.
advance : Replay → ℕ → Replay
advance s ctr =
    let shift = ctr - s.recv_max in
    record {
      recv_max = ctr;
      recv_window = bit_or (if leb replay_window_bits shift then 0 else shl s.recv_window shift) 1;
    }

unfoldable pub accept_counter : Replay → ℕ → Replay × Bool
unfolding advance
accept_counter s ctr =
    if ltb s.recv_max ctr
    then (advance s ctr, true)
    else (let diff = s.recv_max - ctr in
        if leb replay_window_bits diff
        then (s, false)
        else (let mask = shl 1 diff in
            if eqb (bit_and s.recv_window mask) 0
            then (record s { recv_window = bit_or s.recv_window mask }, true)
            else (s, false)))

-- The answers to a sequence of verified packets.
unfoldable pub accept_all : Replay → List ℕ → List Bool
accept_all s [] = []
accept_all s (c ∷ cs) = let (s', answer) = accept_counter s c in answer ∷ accept_all s' cs

-- The counters that are accepted, in order of arrival.
unfoldable pub accepted : Replay → List ℕ → List ℕ
accepted s [] = []
accepted s (c ∷ cs) =
    let (s', answer) = accept_counter s c in
    let rest = accepted s' cs in if answer then c ∷ rest else rest
