-- ===== src/Manager/Receive.antt =====
-- chat_envelope.go: `handleEnvelope`, `drainReceiveBuffer`, `deliverChat` and `handleControl`.
pub mod Frame
pub mod Keeps
pub mod Inbox
pub mod Order
pub mod Handle
pub mod Delivery
pub mod Blocked
pub mod Bounds
pub mod Acks
pub mod Ends
use decentralized_p2p_chat_s.Base.{
  ℕ, zero, suc, ◌+◌, ◌-◌, ◌/◌, ◌%◌, ◌^◌, ◌≡◌, refl, Bool, true, false, not, List, [], ◌∷◌, Option,
  none, some, Result, ok, err, eqb, ltb, leb, ◌==◌, bytes_eq, nat_eq, if◌then◌else◌, Bytes, length,
  codes,
}
use decentralized_p2p_chat_s.Base.Dict.{Dict, lookup, insert, erase}
use decentralized_p2p_chat_s.Base.Int.{ℤ, pos, is_nonpos}
use decentralized_p2p_chat_s.Text.{trim_space}
use decentralized_p2p_chat_s.Protocol.{Envelope, type_chat, type_ack, type_control, type_error}
use decentralized_p2p_chat_s.Manager.{
  ControlBody, Env, PendingChat, Manager, Effect, chat_shown, peers_changed, printed, or_else, emit,
  conversation_id, shown_name, send_control, send_ack, draw,
}
use decentralized_p2p_chat_s.Manager.Pending.{ack_pending}

-- `maxReceiveBuffer`
abbrev pub max_receive_buffer : ℕ
max_receive_buffer = 64

-- `strings.TrimSpace(text) == ""`
unfoldable pub is_blank : Bytes → Bool
is_blank text = eqb (length (trim_space text)) 0

-- `deliverChat`
unfoldable pub deliver_chat : Env → Manager → Bytes → Bytes → Manager
deliver_chat env m peer text = emit m (chat_shown (env.id_string peer) (shown_name env m peer) text)

-- What the section under the mutex makes of a chat envelope.
pub data Admission : Type 0 where
  duplicate held full next : Admission

-- The state with an envelope in the buffer, and the state that has moved on to its number.
abbrev pub with_held : Bytes → Manager → Envelope → Manager
with_held peer m e = record m {
  recv_buffer =
      insert peer (insert e.sequence e (or_else (lookup peer m.recv_buffer) [])) m.recv_buffer;
}

abbrev pub moved_on : Bytes → Manager → Envelope → Manager
moved_on peer m e = record m { recv_seq = insert peer e.sequence m.recv_seq }

unfoldable pub admit : Manager → Bytes → Envelope → Manager × Admission
admit m peer e =
    let last = or_else (lookup peer m.recv_seq) 0 in
    if leb e.sequence last
    then (m, duplicate)
    else (if ltb ((last + 1) % 2 ^ 64) e.sequence
        then (let buffer = or_else (lookup peer m.recv_buffer) [] in
            if leb max_receive_buffer (length buffer)
            then (m, full)
            else (with_held peer m e, held))
        else (moved_on peer m e, next))

-- The state after the next message in order is taken out of the buffer.
abbrev pub taken : Bytes → Manager → Manager
taken peer m =
    let next_seq = (or_else (lookup peer m.recv_seq) 0 + 1) % 2 ^ 64 in
    record m {
      recv_buffer =
          insert peer (erase next_seq (or_else (lookup peer m.recv_buffer) [])) m.recv_buffer;
      recv_seq = insert peer next_seq m.recv_seq;
    }

-- The section under the mutex in `drainReceiveBuffer`: takes the next message out, if it is there.
unfoldable pub take_next : Manager → Bytes → Option (Envelope × Manager)
take_next m peer =
    let next_seq = (or_else (lookup peer m.recv_seq) 0 + 1) % 2 ^ 64 in
    let buffer = or_else (lookup peer m.recv_buffer) [] in
    elim (lookup next_seq buffer) [ none ↦ none | some e ↦ some (e, taken peer m) ]

-- Delivers and acknowledges a message that is next in order.
unfoldable pub consume : Env → Manager → Bytes → Envelope → Bytes → Manager
unfolding deliver_chat
consume env m peer e text = (send_ack env (deliver_chat env m peer text) peer e.id).0

-- The rest of the loop's body: an invalid or blank body is skipped.
unfoldable pub consume_buffered : Env → Manager → Bytes → Envelope → Manager
unfolding consume
consume_buffered env m peer e = elim (env.bodies.unmarshal_chat e.body) [
  | none ↦ emit m (printed (codes "Invalid buffered chat body"))
  | some text ↦ if is_blank text then m else consume env m peer e text
]

-- The loop of `drainReceiveBuffer`, with as many rounds as are allowed.
unfoldable pub drain : Env → ℕ → Manager → Bytes → Manager
drain env zero m peer = m
drain env (suc rounds) m peer = elim (take_next m peer) [
  | none ↦ m
  | some (e, m') ↦ drain env rounds (consume_buffered env m' peer e) peer
]

-- Each round takes a message out of the buffer, so one round more than it holds is enough.
unfoldable pub drain_receive_buffer : Env → Manager → Bytes → Manager
drain_receive_buffer env m peer =
    drain env (suc (length (or_else (lookup peer m.recv_buffer) []))) m peer

unfoldable pub react : Env → Bytes → Envelope → Bytes → Manager × Admission → Manager
unfolding consume drain_receive_buffer
react env peer e text (m, duplicate) = (send_ack env m peer e.id).0
react env peer e text (m, held) = (send_ack env m peer e.id).0
react env peer e text (m, full) = emit m (printed (codes "Receive buffer is full"))
react env peer e text (m, next) = drain_receive_buffer env (consume env m peer e text) peer

-- The case `TypeChat`.
unfoldable pub handle_chat : Env → Manager → Bytes → Envelope → Manager
unfolding react
handle_chat env m peer e = elim (env.bodies.unmarshal_chat e.body) [
  | none ↦ emit m (printed (codes "Invalid chat body"))
  | some text ↦ if is_blank text then m else react env peer e text (admit m peer e)
]

abbrev pub control_nickname : Bytes
control_nickname = codes "nickname"

abbrev pub control_latency_ping : Bytes
control_latency_ping = codes "latency_ping"

abbrev pub control_latency_pong : Bytes
control_latency_pong = codes "latency_pong"

abbrev pub control_concurrent_test : Bytes
control_concurrent_test = codes "concurrent_test"

abbrev pub pong : ℤ → ControlBody
pong t = record {
  kind = control_latency_pong;
  name = [];
  timestamp = t;
  payload = [];
  index = pos 0;
}

-- A nickname replaces the one that is known, unless it is blank.
unfoldable pub rename_peer : Manager → Bytes → Bytes → Manager
rename_peer m peer nick =
    if eqb (length nick) 0
    then m
    else (let m' : Manager = record m { peer_nicks = insert peer nick m.peer_nicks } in
        if or_else (lookup peer m.peer_nicks) [] == nick then m' else emit m' peers_changed)

-- `handleControl`
unfoldable pub handle_control : Env → Manager → Bytes → ControlBody → Manager
unfolding rename_peer
handle_control env m peer body =
    if body.kind == control_nickname
    then rename_peer m peer (trim_space body.name)
    else if body.kind == control_latency_ping
    then (if is_nonpos body.timestamp then m else (send_control env m peer (pong body.timestamp)).0)
    else if body.kind == control_latency_pong
    then (if is_nonpos body.timestamp then m else emit m (printed (codes "LATENCY_RESULT")))
    else if body.kind == control_concurrent_test
    then emit (record m { concurrent_received = m.concurrent_received + 1 })
        (printed (codes "CONCURRENT_RECEIVED"))
    else emit m (printed (codes "Unknown control message"))

-- The switch on the type.
unfoldable pub dispatch : Env → Manager → Bytes → Envelope → Manager
unfolding handle_chat handle_control
dispatch env m peer e =
    if e.typ == type_chat
    then handle_chat env m peer e
    else if e.typ == type_ack
    then elim (env.bodies.unmarshal_ack e.body) [
      | none ↦ emit m (printed (codes "Invalid ack body"))
      | some id ↦ ack_pending m peer id
    ]
    else if e.typ == type_control
    then elim (env.bodies.unmarshal_control e.body) [
      | none ↦ emit m (printed (codes "Invalid control body"))
      | some body ↦ handle_control env m peer body
    ]
    else if e.typ == type_error
    then emit m (printed (codes "Peer reported an error"))
    else m

-- `handleEnvelope`
unfoldable pub handle_envelope : Env → Manager → Bytes → Envelope → Manager
unfolding dispatch
handle_envelope env m peer e = elim m.node [
  | none ↦ m
  | some own ↦
      if e.conversation == conversation_id env own peer
      then (if e.sender == env.id_string peer
          then dispatch env m peer e
          else emit m (printed (codes "Rejected envelope with an unexpected sender")))
      else emit m (printed (codes "Rejected envelope with an unexpected conversation"))
]
