-- ===== src/Node/Socket.antt =====
-- web.go: `handleWSMessage`, what a web client can ask the node to do.
pub mod Laws
use decentralized_p2p_chat_s.Base.{
  ℕ, ◌+◌, ◌≡◌, refl, Bool, true, false, not, List, [], ◌∷◌, ◌++◌, Option, none, some, Result, ok,
  err, eqb, ◌==◌, bytes_eq, if◌then◌else◌, Bytes, length, codes,
}
use decentralized_p2p_chat_s.Base.Dict.{lookup}
use decentralized_p2p_chat_s.Storage.{File, Outcome}
use decentralized_p2p_chat_s.Storage.Peers.{save_peer, remove_peer_by_id}
use decentralized_p2p_chat_s.Storage.Verified.{set_verified, is_verified}
use decentralized_p2p_chat_s.Storage.History.{Directory, clear_history}
use decentralized_p2p_chat_s.Safety.{safety_number}
use decentralized_p2p_chat_s.Approvals.{respond}
use decentralized_p2p_chat_s.Discovery.{AddrInfo, handle_discover_peers}
use decentralized_p2p_chat_s.Manager.{Env, Manager, draw}
use decentralized_p2p_chat_s.Manager.Pending.{send_chat}
use decentralized_p2p_chat_s.Manager.Streams.{disconnect_peer, disconnect_active}
use decentralized_p2p_chat_s.Manager.Dial.{Address, Attempt, connect_to_peer, reconnect_peer}
use decentralized_p2p_chat_s.Web.{
  Frame, error_message, peer_verification, PeerVerification, WebClient, tell,
  remove_pending_request, broadcast,
}
use decentralized_p2p_chat_s.Node.{
  Outside, Node, next_draw, announce, notify_trusted_peers, broadcast_verified_peers,
  notify_web_message, run,
}
use decentralized_p2p_chat_s.Node.Stores.{
  Payload, ws_save_peer, ws_remove_peer, ws_clear_history, ws_set_verification, answer_verification,
}

pub record WsMessage : Type 0 where
  pub typ : Bytes
  pub payload : Payload

-- What the network and the file system do while a message is handled.
pub record Network : Type 0 where
  pub parse_address : Bytes → Address
  pub attempt : Attempt
  pub has_dht : Bool
  pub search : Option (List AddrInfo)
  pub arrivals : ℕ
  pub find_peer : Bytes → Option Address
  pub can_remove : Bool

-- `node.ID().String()`; the node is set before a client can connect.
abbrev pub own_id : Env → Manager → Bytes
own_id env m = elim m.node [ none ↦ [] | some own ↦ env.id_string own ]

unfoldable pub announce_all : Outside → Node → List Frame → Node
announce_all out n [] = n
announce_all out n (frame ∷ frames) = announce_all out (announce out n frame) frames

module _ (out : Outside) where
  -- `sendMessageToPeer`
  unfoldable pub send_message_to_peer : Node → Bytes → Bytes → Node
  send_message_to_peer n to content = elim (out.decode_id to) [
    | none ↦ announce out n (error_message (codes "Invalid peer ID"))
    | some peer ↦
        let (m, result) = send_chat out.env n.manager peer content in
        let n' : Node = record n { manager = m } in
        elim result [
          | none ↦ announce out n' (error_message (codes "Could not send message"))
          | some e ↦ notify_web_message out n' (own_id out.env m) m.local_nick content true to true
        ]
  ]

  -- The case "connection_response".
  unfoldable pub ws_connection_response : Node → Payload → Node
  ws_connection_response n p =
      let n' : Node = record n {
        web = elim n.web [ none ↦ none | some wc ↦ some (remove_pending_request wc p.peer_id) ];
      } in
      elim (out.decode_id p.peer_id) [
        | none ↦ n'
        | some peer ↦ record n' { approvals = (respond n.approvals peer p.accepted).0 }
      ]

  -- The cases that act on the conversations.
  unfoldable pub ws_reconnect : Network → Node → Payload → Node
  ws_reconnect net n p =
      if eqb (length p.peer_id) 0
      then n
      else run out n (λ m.
        reconnect_peer out.env m net.has_dht p.peer_id (out.decode_id p.peer_id)
          (net.find_peer p.peer_id) net.attempt)

  unfoldable pub ws_disconnect : Node → Payload → Node
  ws_disconnect n p =
      if eqb (length p.peer_id) 0
      then run out n disconnect_active
      else elim (out.decode_id p.peer_id) [
        | none ↦ n
        | some peer ↦ run out n (λ m. disconnect_peer m peer)
      ]

  -- The cases of `handleWSMessage` that act on the stores, which come last.
  unfoldable pub handle_store_message : Network → Node → WsMessage → Node
  handle_store_message net n msg =
      let p = msg.payload in
      if msg.typ == codes "save_peer"
      then ws_save_peer out n p
      else if msg.typ == codes "remove_peer"
      then ws_remove_peer out n p
      else if msg.typ == codes "clear_history"
      then ws_clear_history out net.can_remove n p
      else if msg.typ == codes "get_verification"
      then answer_verification out n p.peer_id
      else if msg.typ == codes "set_verification"
      then ws_set_verification out n p
      else n

  -- `handleWSMessage`. What the code starts as a goroutine has its turn at once.
  unfoldable pub handle_ws_message : Network → Node → WsMessage → Node
  unfolding announce_all handle_store_message
  handle_ws_message net n msg =
      let p = msg.payload in
      if msg.typ == codes "send_message"
      then send_message_to_peer n p.to p.content
      else if msg.typ == codes "connect_peer"
      then run out n (λ m. connect_to_peer out.env m (net.parse_address p.address) net.attempt)
      else if msg.typ == codes "discover_peers"
      then announce_all out n
          (handle_discover_peers net.has_dht (own_id out.env n.manager) net.search net.arrivals)
      else if msg.typ == codes "connection_response"
      then ws_connection_response n p
      else if msg.typ == codes "reconnect_peer"
      then ws_reconnect net n p
      else if msg.typ == codes "disconnect_peer"
      then ws_disconnect n p
      else handle_store_message net n msg
