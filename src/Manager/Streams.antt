-- ===== src/Manager/Streams.antt =====
-- main.go: `AddStream`, `readLoop`, `forgetPeer`, `switchPeer` and the two functions that disconnect.
pub mod Stays
pub mod Chosen
pub mod Active
pub mod Connect
use mathlib.Core.List.{reverse}
use decentralized_p2p_chat_s.Base.{
  ℕ, zero, suc, ◌+◌, ◌-◌, ◌≡◌, refl, Bool, true, false, not, List, [], ◌∷◌, ◌++◌, Option, none,
  some, Result, ok, err, eqb, ◌==◌, bytes_eq, bytes_lt, if◌then◌else◌, Bytes, length, codes,
  get_elem?, map,
}
use decentralized_p2p_chat_s.Base.Dict.{Dict, lookup, insert, erase}
use decentralized_p2p_chat_s.Base.Int.{ℤ, pos, negsuc}
use decentralized_p2p_chat_s.Text.{trim_space}
use decentralized_p2p_chat_s.Security.Session.{Session, decrypt}
use decentralized_p2p_chat_s.Protocol.{Envelope, decode}
use decentralized_p2p_chat_s.Manager.{
  ControlBody, Env, Manager, Effect, closed, peers_changed, history_asked, disconnected, printed,
  or_else, emit, draw, send_control,
}
use decentralized_p2p_chat_s.Manager.Pending.{clear_pending}
use decentralized_p2p_chat_s.Manager.Receive.{handle_envelope, control_nickname}

abbrev pub nickname_body : Bytes → ControlBody
nickname_body nick = record {
  kind = control_nickname;
  name = nick;
  timestamp = pos 0;
  payload = [];
  index = pos 0;
}

-- The section under the mutex in `AddStream`: the new conversation.
unfoldable pub register : Manager → Bytes → ℕ → Session → Manager
register m peer stream session = record m {
  streams = insert peer stream m.streams;
  sessions = insert peer session m.sessions;
  send_seq = insert peer 0 m.send_seq;
  recv_seq = insert peer 0 m.recv_seq;
  recv_buffer = insert peer [] m.recv_buffer;
  active = if eqb (length m.active) 0 then peer else m.active;
}

-- What follows: the nickname is sent, if there is one, and the clients are told, of the history too.
unfoldable pub greet : Env → Manager → Bytes → Manager
greet env m peer =
    emit
      (emit
        (if eqb (length m.local_nick) 0
          then m
          else (send_control env m peer (nickname_body m.local_nick)).0)
        peers_changed)
      (history_asked peer)

-- `AddStream`, from the session that `security.Handshake` gives, where `none` is an error. The
-- reading goroutine that it starts takes steps of its own.
unfoldable pub add_stream : Env → Manager → Bytes → ℕ → Option Session → Manager
unfolding register greet
add_stream env m peer stream handshaken = elim m.node [
  | none ↦ emit m (closed stream)
  | some own ↦ elim handshaken [
    | none ↦ emit (emit m (printed (codes "Handshake failed"))) (closed stream)
    | some session ↦ greet env (register m peer stream session) peer
  ]
]

-- The section under the mutex in `forgetPeer`.
unfoldable pub unregister : Manager → Bytes → Manager
unregister m peer = record m {
  streams = erase peer m.streams;
  sessions = erase peer m.sessions;
  send_seq = erase peer m.send_seq;
  recv_seq = erase peer m.recv_seq;
  recv_buffer = erase peer m.recv_buffer;
  active = if m.active == peer then [] else m.active;
}

-- `forgetPeer`
unfoldable pub forget_peer : Manager → Bytes → Manager
unfolding unregister clear_pending
forget_peer m peer =
    emit (emit (clear_pending (unregister m peer) peer) (disconnected peer)) peers_changed

-- The envelope in a plaintext, if it is one.
unfoldable pub receive_plain : Env → Manager → Bytes → Bytes → Manager
receive_plain env m peer plain = elim (decode env.json (env.clock m.draws) plain) [
  | err e ↦ emit (draw m) (printed (codes "Invalid envelope"))
  | ok e ↦ handle_envelope env (draw m) peer e
]

-- One round of `readLoop` on a line, where `none` is an error of the stream. A packet that does not
-- decrypt is skipped.
unfoldable pub read_line : Env → Manager → Bytes → ℕ → Option Bytes → Manager
unfolding forget_peer receive_plain
read_line env m peer stream none =
    emit (forget_peer (emit m (printed (codes "Connection closed"))) peer) (closed stream)
read_line env m peer stream (some line) = elim (lookup peer m.sessions) [
  | none ↦ forget_peer (emit (emit m (printed (codes "Session state lost"))) (closed stream)) peer
  | some session ↦
      let (session', result) = decrypt env.cipher session (trim_space line) in
      let m' : Manager = record m { sessions = insert peer session' m.sessions } in
      elim result [ err e ↦ m' | ok plain ↦ receive_plain env m' peer plain ]
]

-- `getSortedPeers`: the connected peers in the order of their written identifiers, as an insertion
-- sort.
place_peer : Env → Bytes → List Bytes → List Bytes
place_peer env peer [] = peer ∷ []
place_peer env peer (p ∷ peers) =
    if bytes_lt (env.id_string p) (env.id_string peer)
    then p ∷ place_peer env peer peers
    else peer ∷ p ∷ peers

unfoldable pub sorted_peers : Env → Dict Bytes ℕ → List Bytes
unfolding place_peer
sorted_peers env [] = []
sorted_peers env ((peer, _) ∷ streams) = place_peer env peer (sorted_peers env streams)

-- The first half of `switchPeer`: the peer that the number stands for among those that are connected
-- now. The number is what `fmt.Sscanf` reads, if it reads one.
unfoldable pub chosen_peer : Env → Manager → Option ℤ → Option Bytes
unfolding sorted_peers
chosen_peer env m none = none
chosen_peer env m (some (negsuc n)) = none
chosen_peer env m (some (pos zero)) = none
chosen_peer env m (some (pos (suc n))) = get_elem? (sorted_peers env m.streams) n

-- The second half, under a lock of its own: other goroutines may have taken steps in between.
unfoldable pub set_active : Manager → Option Bytes → Manager
set_active m none = emit m (printed (codes "Invalid peer number"))
set_active m (some peer) = emit (record m { active = peer }) (printed (codes "Switched to peer"))

-- `switchPeer`, if nothing comes in between.
unfoldable pub switch_peer : Env → Manager → Option ℤ → Manager
unfolding chosen_peer set_active
switch_peer env m number = set_active m (chosen_peer env m number)

-- `disconnectSpecificPeer`, after `peerstore.Decode`: only the stream is closed. The read loop then
-- sees the error and forgets the peer.
unfoldable pub disconnect_peer : Manager → Bytes → Manager
disconnect_peer m peer = elim (lookup peer m.streams) [
  | none ↦ emit m (printed (codes "Peer not connected"))
  | some stream ↦ emit (emit m (closed stream)) (printed (codes "Disconnected"))
]

-- `disconnectActivePeer`
unfoldable pub disconnect_active : Manager → Manager
disconnect_active m = elim (lookup m.active m.streams) [
  | none ↦ emit m (printed (codes "No active peer to disconnect"))
  | some stream ↦
      if eqb (length m.active) 0
      then emit m (printed (codes "No active peer to disconnect"))
      else emit (emit m (closed stream)) (printed (codes "Disconnected"))
]
