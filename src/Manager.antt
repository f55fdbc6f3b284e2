-- ===== src/Manager.antt =====
-- main.go and chat_envelope.go: `StreamManager`, the state of the node's conversations, and how it
-- sends envelopes. The mutexes are not modelled: an operation is one step on the state.
pub mod Pending
pub mod Receive
pub mod Streams
pub mod Dial
use decentralized_p2p_chat_s.Base.{
  ℕ, suc, ◌+◌, ◌%◌, ◌^◌, ◌≡◌, refl, Bool, true, false, not, ◌&&◌, List, [], ◌∷◌, ◌++◌, Option, none,
  some, Result, ok, err, eqb, ◌==◌, bytes_eq, nat_eq, if◌then◌else◌, Bytes, length, take,
}
use decentralized_p2p_chat_s.Base.Dict.{Dict, lookup, insert, erase}
use decentralized_p2p_chat_s.Base.Int.{ℤ, pos}
use decentralized_p2p_chat_s.Text.{short_id, sort_pair}
use decentralized_p2p_chat_s.Base64.{raw_url}
use decentralized_p2p_chat_s.Base64
use decentralized_p2p_chat_s.Security.Session.{Cipher, Session, encrypt}
use decentralized_p2p_chat_s.Protocol.{
  Envelope, Json, type_ack, type_control, new, new_chat, encode,
}

-- The body of a control message.
pub record ControlBody : Type 0 where
  pub kind : Bytes
  pub name : Bytes
  pub timestamp : ℤ
  pub payload : Bytes
  pub index : ℤ

-- `encoding/json` at the three bodies; `none` is an error.
pub record Bodies : Type 0 where
  pub marshal_chat : Bytes → Option Bytes
  pub marshal_ack : Bytes → Option Bytes
  pub marshal_control : ControlBody → Option Bytes
  pub unmarshal_chat : Bytes → Option Bytes
  pub unmarshal_ack : Bytes → Option Bytes
  pub unmarshal_control : Bytes → Option ControlBody

-- What is outside the program. `id_string` is `peer.ID.String`, `digest` is SHA-256. The source of
-- randomness, the clock in milliseconds and the streams may answer differently at each draw.
pub record Env : Type 0 where
  pub json : Json
  pub bodies : Bodies
  pub cipher : Cipher
  pub id_string : Bytes → Bytes
  pub digest : Bytes → Bytes
  pub random : ℕ → Option Bytes
  pub clock : ℕ → ℕ
  pub can_write : ℕ → ℕ → Bool

-- A message that waits for its acknowledgement. `ref` tells two allocations apart, as Go's pointers.
pub record PendingChat : Type 0 where
  pub ref : ℕ
  pub envelope : Envelope
  pub last_sent : ℕ
  pub attempts : ℕ

-- What leaves the manager: a line on a stream, a closed stream, and the calls of web.go.
pub data Effect : Type 0 where
  wrote : ℕ → Bytes → Effect
  closed : ℕ → Effect
  chat_shown : Bytes → Bytes → Bytes → Effect
  own_message : Bytes → Bytes → Effect
  web_error : Bytes → Effect
  peers_changed : Effect
  disconnected : Bytes → Effect
  rejected : Bytes → Effect
  reconnecting : Bytes → Bytes → Effect
  request_shown : Bytes → Bytes → Bytes → Effect
  history_asked : Bytes → Effect
  printed : Bytes → Effect

pub record Manager : Type 0 where
  pub node : Option Bytes
  pub streams : Dict Bytes ℕ
  pub sessions : Dict Bytes Session
  pub active : Bytes
  pub send_seq : Dict Bytes ℕ
  pub recv_seq : Dict Bytes ℕ
  pub recv_buffer : Dict Bytes (Dict ℕ Envelope)
  pub pending : Dict Bytes (Dict Bytes PendingChat)
  pub local_nick : Bytes
  pub peer_nicks : Dict Bytes Bytes
  pub concurrent_received : ℕ
  pub draws : ℕ
  -- newest first
  pub effects : List Effect

-- `m[k]` with Go's zero value for a missing key.
abbrev pub or_else {ℓ} : {A : Type ℓ} → Option A → A → A
or_else none d = d
or_else (some a) d = a

abbrev pub emit : Manager → Effect → Manager
emit m e = record m { effects = e ∷ m.effects }

unfoldable pub conversation_id : Env → Bytes → Bytes → Bytes
unfolding sort_pair
conversation_id env first second =
    let (a, b) = sort_pair (env.id_string first) (env.id_string second) in
    Base64.encode raw_url (take 16 (env.digest (a ++ b'|' ∷ b)))

-- `displayName`: the nickname, which may be empty, and the short identifier.
unfoldable pub display_name : Env → Manager → Bytes → Bytes × Bytes
display_name env m peer = (or_else (lookup peer m.peer_nicks) [], short_id (env.id_string peer))

-- The name that is shown for a peer.
unfoldable pub shown_name : Env → Manager → Bytes → Bytes
unfolding display_name
shown_name env m peer =
    let (nick, short) = display_name env m peer in if eqb (length nick) 0 then short else nick

-- The stream and the session of a peer, if it has both.
unfoldable pub reach : Manager → Bytes → Option (ℕ × Session)
reach m peer = elim (lookup peer m.streams) [
  | none ↦ none
  | some stream ↦ elim (lookup peer m.sessions) [
    | none ↦ none
    | some session ↦ some (stream, session)
  ]
]

-- The time at the present draw, and the state after it.
abbrev pub draw : Manager → Manager
draw m = record m { draws = suc m.draws }

-- `stream.Write` of a packet and a newline.
unfoldable pub write_line : Env → Manager → ℕ → Bytes → Manager × Bool
write_line env m stream packet =
    if env.can_write stream m.draws
    then (emit m (wrote stream (packet ++ 10 ∷ [])), true)
    else (m, false)

-- `sendEnvelope`: the session's counter moves on even if the write fails. The flag says that the
-- error is nil.
unfoldable pub send_envelope : Env → Manager → Bytes → ℕ → Session → Envelope → Manager × Bool
unfolding write_line
send_envelope env m peer stream session e = elim (encode env.json (env.clock m.draws) e) [
  | err _ ↦ (draw m, false)
  | ok text ↦
      let (session', result) = encrypt env.cipher session text in
      let m' : Manager = record m {
        sessions = insert peer session' m.sessions;
        draws = suc m.draws;
      } in
      elim result [ err _ ↦ (m', false) | ok packet ↦ write_line env m' stream packet ]
]

-- The envelopes of the three kinds. `none` is an error.
unfoldable pub from_result : {E A : Type 0} → Result E A → Option A
from_result (ok a) = some a
from_result (err e) = none

unfoldable pub new_chat_envelope : Env → Manager → Bytes → ℕ → Bytes → Option Envelope
unfolding from_result
new_chat_envelope env m remote sequence text = elim m.node [
  | none ↦ none
  | some own ↦ from_result (
      new_chat env.json (env.clock m.draws) (env.random m.draws) (conversation_id env own remote)
        (env.id_string own) sequence (some (env.bodies.marshal_chat text)))
]

unfoldable pub new_control_envelope : Env → Manager → Bytes → ControlBody → Option Envelope
unfolding from_result
new_control_envelope env m remote body = elim m.node [
  | none ↦ none
  | some own ↦ from_result (
      new env.json (env.clock m.draws) (env.random m.draws) type_control
        (conversation_id env own remote) (env.id_string own)
        (some (env.bodies.marshal_control body)))
]

unfoldable pub new_ack_envelope : Env → Manager → Bytes → Bytes → Option Envelope
unfolding from_result
new_ack_envelope env m remote message_id = elim m.node [
  | none ↦ none
  | some own ↦ from_result (
      new env.json (env.clock m.draws) (env.random m.draws) type_ack
        (conversation_id env own remote) (env.id_string own)
        (some (env.bodies.marshal_ack message_id)))
]

-- Sends an envelope that could be built, to a peer that is connected.
unfoldable pub send_built : Env → Manager → Bytes → Option Envelope → Manager × Bool
send_built env m peer built = elim (reach m peer) [
  | none ↦ (m, false)
  | some (stream, session) ↦ elim built [
    | none ↦ (draw m, false)
    | some e ↦ send_envelope env (draw m) peer stream session e
  ]
]

-- `sendControl`
unfoldable pub send_control : Env → Manager → Bytes → ControlBody → Manager × Bool
unfolding send_built
send_control env m remote body = send_built env m remote (new_control_envelope env m remote body)

-- `sendAck`
unfoldable pub send_ack : Env → Manager → Bytes → Bytes → Manager × Bool
unfolding send_built
send_ack env m remote message_id =
    send_built env m remote (new_ack_envelope env m remote message_id)
