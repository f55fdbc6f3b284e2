-- ===== src/Node/Probes.antt =====
-- main.go: `listPeers`, `runLatencyTest` and `runConcurrentTest`.
use decentralized_p2p_chat_s.Base.{
  ℕ, zero, suc, Bool, List, [], ◌∷◌, Option, none, some, eqb, ◌==◌, bytes_eq, if◌then◌else◌, Bytes,
  length, codes,
}
use decentralized_p2p_chat_s.Base.Dict.{Dict}
use decentralized_p2p_chat_s.Base.Int.{pos}
use decentralized_p2p_chat_s.Manager.{
  ControlBody, Env, Manager, printed, emit, draw, display_name, send_control,
}
use decentralized_p2p_chat_s.Manager.Receive.{control_latency_ping, control_concurrent_test}
use decentralized_p2p_chat_s.Manager.Streams.{sorted_peers}

-- `strings.Repeat("a", n)`
repeat_a : ℕ → Bytes
repeat_a zero = []
repeat_a (suc n) = b'a' ∷ repeat_a n

-- The lines of `listPeers`: whether the peer is active, and its two names.
peer_lines : Env → Manager → List Bytes → List (Bool × Bytes × Bytes)
peer_lines env m [] = []
peer_lines env m (peer ∷ peers) =
    let (nick, short) = display_name env m peer in
    (peer == m.active, nick, short) ∷ peer_lines env m peers

-- `listPeers`: the lines that are shown, in the order in which `/switch` counts them.
unfoldable pub list_peers : Env → Manager → List (Bool × Bytes × Bytes)
unfolding peer_lines
list_peers env m = peer_lines env m (sorted_peers env m.streams)

abbrev latency_ping : ℕ → Bytes → ControlBody
latency_ping now payload = record {
  kind = control_latency_ping;
  name = [];
  timestamp = pos now;
  payload = payload;
  index = pos 0;
}

-- The loop of `runLatencyTest`, which stops at the first error.
unfoldable pub ping_loop : Env → ℕ → Manager → Bytes → Bytes → Manager
ping_loop env zero m peer payload = emit m (printed (codes "Latency test complete"))
ping_loop env (suc rounds) m peer payload =
    let (m', sent) = send_control env (draw m) peer (latency_ping (env.clock m.draws) payload) in
    let rest = ping_loop env rounds m' peer payload in
    if sent then rest else emit m' (printed (codes "Latency test stopped"))

-- The payload's size for each of the three words.
unfoldable pub payload_size : Bytes → Option ℕ
payload_size size =
    if size == codes "small"
    then some 10
    else if size == codes "medium"
    then some 100
    else if size == codes "large"
    then some 1000
    else none

-- `runLatencyTest`, with nothing in between.
unfoldable pub run_latency_test : Env → Manager → Bytes → Manager
unfolding ping_loop payload_size repeat_a
run_latency_test env m size =
    if eqb (length m.active) 0
    then emit m (printed (codes "No active peer for latency test"))
    else elim (payload_size size) [
      | none ↦ emit m (printed (codes "Unknown size. Use: small, medium, large"))
      | some n ↦
          ping_loop env 100 (emit m (printed (codes "Starting latency test"))) m.active (repeat_a n)
    ]

abbrev concurrent_body : Bytes → ℕ → ControlBody
concurrent_body nick i = record {
  kind = control_concurrent_test;
  name = nick;
  timestamp = pos 0;
  payload = [];
  index = pos i;
}

-- The goroutine of `runConcurrentTest` for one peer, which stops at the first error.
unfoldable pub test_loop : Env → ℕ → ℕ → Manager → Bytes → Bytes → Manager
test_loop env zero i m peer nick = m
test_loop env (suc rounds) i m peer nick =
    let (m', sent) = send_control env m peer (concurrent_body nick i) in
    let rest = test_loop env rounds (suc i) m' peer nick in if sent then rest else m'

unfoldable pub test_all : Env → Manager → Dict Bytes ℕ → Manager
unfolding test_loop
test_all env m [] = m
test_all env m ((peer, _) ∷ streams) =
    test_all env (test_loop env 20 1 m peer (display_name env m peer).0) streams

-- `runConcurrentTest`, one peer after the other.
unfoldable pub run_concurrent_test : Env → Manager → Manager
unfolding test_all
run_concurrent_test env m = elim m.streams [
  | [] ↦ emit m (printed (codes "No connected peers for concurrent test"))
  | stream ∷ streams ↦
      let m' = emit m (printed (codes "Starting concurrent test")) in
      emit (test_all env m' (stream ∷ streams)) (printed (codes "Concurrent test complete"))
]
