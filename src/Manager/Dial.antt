-- ===== src/Manager/Dial.antt =====
-- main.go: `readLine`, `connectToPeer` and `ReconnectPeer`. The addresses and the network of libp2p
-- are parameters.
pub mod Streams
use decentralized_p2p_chat_s.Base.{
  ℕ, zero, suc, ◌+◌, ◌≡◌, refl, Bool, true, false, List, [], ◌∷◌, ◌++◌, Option, none, some, eqb,
  ◌==◌, bytes_eq, if◌then◌else◌, Bytes, length, codes,
}
use decentralized_p2p_chat_s.Base.Dict.{Dict, lookup}
use decentralized_p2p_chat_s.Text.{trim_space}
use decentralized_p2p_chat_s.Security.Session.{Session}
use decentralized_p2p_chat_s.Manager.{
  Env, Manager, wrote, closed, web_error, rejected, reconnecting, printed, emit, draw,
}
use decentralized_p2p_chat_s.Manager.Streams.{add_stream}

abbrev pub conn_req_prefix : Bytes
conn_req_prefix = codes "__CONNREQ__:"

abbrev pub conn_accept_msg : Bytes
conn_accept_msg = codes "__ACCEPT__"

abbrev pub conn_reject_msg : Bytes
conn_reject_msg = codes "__REJECT__"

-- The bytes before the first newline, if there is one.
unfoldable pub before_newline : Bytes → Option Bytes
before_newline [] = none
before_newline (a ∷ s) = elim (before_newline s) [
  | none ↦ if eqb a 10 then some [] else none
  | some line ↦ if eqb a 10 then some [] else some (a ∷ line)
]

-- `readLine`, on all that the stream will give; `none` is an error of the stream before the newline.
unfoldable pub first_line : Bytes → Option Bytes
unfolding before_newline
first_line s = elim (before_newline s) [ none ↦ none | some line ↦ some (trim_space line) ]

-- What comes of the request: no answer in 35 seconds, or what the stream gives.
pub data Reply : Type 0 where
  timed_out : Reply
  arrives : Bytes → Reply

-- What libp2p makes of an address: `NewMultiaddr` or `AddrInfoFromP2pAddr` fails, or a peer.
pub data Address : Type 0 where
  invalid_address invalid_info : Address
  address_of : Bytes → Address

-- How one attempt to dial goes: `Connect`, `NewStream`, the answer, and `security.Handshake`.
pub record Attempt : Type 0 where
  pub connects : Bool
  pub stream : Option ℕ
  pub reply : Reply
  pub handshaken : Option Session

-- The line that asks for a connection.
abbrev pub request_line : Bytes → Bytes
request_line nick = conn_req_prefix ++ nick ++ 10 ∷ []

-- What the caller is told when an attempt ends early.
abbrev pub give_up : Manager → Bytes → Manager
give_up m text = emit (emit m (printed text)) (web_error text)

-- The end of `connectToPeer`, from the line that came back.
unfoldable pub conclude : Env → Manager → Bytes → ℕ → Option Session → Option Bytes → Manager
conclude env m peer stream handshaken none =
    emit (give_up m (codes "No response from the peer")) (closed stream)
conclude env m peer stream handshaken (some line) =
    if line == conn_accept_msg
    then emit
        (add_stream env (emit m (printed (codes "Connection accepted"))) peer stream handshaken)
        (printed (codes "Successfully connected"))
    else emit
        (emit (emit m (printed (codes "Connection rejected by peer")))
          (rejected (env.id_string peer)))
        (closed stream)

-- The wait for the answer.
unfoldable pub await_reply : Env → Manager → Bytes → ℕ → Attempt → Manager
unfolding conclude
await_reply env m peer stream attempt = elim attempt.reply [
  | timed_out ↦ emit (give_up m (codes "Connection request timed out")) (closed stream)
  | arrives s ↦ conclude env m peer stream attempt.handshaken (first_line s)
]

-- `connectToPeer` with an open stream: the request is written.
unfoldable pub ask : Env → Manager → Bytes → ℕ → Attempt → Manager
unfolding await_reply
ask env m peer stream attempt =
    if env.can_write stream m.draws
    then await_reply env (emit (draw m) (wrote stream (request_line m.local_nick))) peer stream
        attempt
    else emit (give_up (draw m) (codes "Could not send the connection request")) (closed stream)

-- `connectToPeer`, from what libp2p makes of the address.
unfoldable pub dial : Env → Manager → Bytes → Attempt → Manager
unfolding ask
dial env m peer attempt = elim (lookup peer m.streams) [
  | some stream ↦ give_up m (codes "Already connected to this peer")
  | none ↦
      let m' = emit m (printed (codes "Connecting to peer")) in
      if attempt.connects
      then elim attempt.stream [
        | none ↦ give_up m' (codes "Could not open a chat stream")
        | some stream ↦ ask env m' peer stream attempt
      ]
      else give_up m' (codes "Connection failed")
]

unfoldable pub connect_to_peer : Env → Manager → Address → Attempt → Manager
unfolding dial
connect_to_peer env m invalid_address attempt = give_up m (codes "Invalid multiaddress")
connect_to_peer env m invalid_info attempt = give_up m (codes "Invalid peer information")
connect_to_peer env m (address_of peer) attempt = dial env m peer attempt

-- `ReconnectPeer`: `decoded` is `peerstore.Decode`, and `found` is the first address that the DHT
-- gives, where `none` is an error or no address. `has_dht` says that the DHT is set up.
unfoldable pub reconnect_peer :
    Env → Manager → Bool → Bytes → Option Bytes → Option Address → Attempt → Manager
unfolding connect_to_peer
reconnect_peer env m false text decoded found attempt = emit m (reconnecting text (codes "failed"))
reconnect_peer env m true text none found attempt = emit m (reconnecting text (codes "failed"))
reconnect_peer env m true text (some peer) found attempt = elim (lookup peer m.streams) [
  | some stream ↦ emit m (reconnecting text (codes "connected"))
  | none ↦
      let m' = emit m (reconnecting text (codes "searching")) in
      elim found [
        | none ↦ emit m' (reconnecting text (codes "failed"))
        | some address ↦
            connect_to_peer env (emit m' (reconnecting text (codes "connecting"))) address attempt
      ]
]
