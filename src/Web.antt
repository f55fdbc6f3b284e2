-- ===== src/Web.antt =====
-- web.go: `WebClient`, the local bridge: who may connect, what is kept for the clients, and what is
-- written to them. The HTTP server and the websockets are parameters; a frame is shown before
-- `json.Marshal`. The mutexes are not modelled.
pub mod Frames
pub mod Server
pub mod Guarded
pub mod Clients
pub use Frames.*
use decentralized_p2p_chat_s.Base.{
  ℕ, suc, ◌+◌, ◌≡◌, refl, Bool, true, false, not, ◌&&◌, ◌||◌, List, [], ◌∷◌, ◌++◌, Option, none,
  some, Result, ok, err, eqb, ◌==◌, nat_eq, bytes_eq, if◌then◌else◌, Bytes, length, codes, select,
}
use decentralized_p2p_chat_s.Base.Dict.{Dict, lookup, insert, erase}
use decentralized_p2p_chat_s.Text.Fields.{decimal}
use decentralized_p2p_chat_s.Base64.{raw_url}
use decentralized_p2p_chat_s.Base64
use decentralized_p2p_chat_s.Storage.{File, Outcome, missing, write_file}
use decentralized_p2p_chat_s.Storage.Peers.{TrustedPeer}
use decentralized_p2p_chat_s.Storage.History.{StoredMsg}

-- `WebClient`. A connection is a number, and so is an allocated mutex. `frames` is what was written to
-- the connections, the newest first.
pub record WebClient : Type 0 where
  pub clients : Dict ℕ Bool
  pub write_mu : Dict ℕ ℕ
  pub messages : List WebMsg
  pub pending_requests : List PendingRequest
  pub token : Bytes
  pub frames : List (ℕ × Frame)

-- What a request to the server has of interest.
pub record HttpRequest : Type 0 where
  pub origin : Bytes
  pub token : Bytes

-- `originAllowed`
unfoldable pub origin_allowed : HttpRequest → ℕ → Bool
origin_allowed r port =
    eqb (length r.origin) 0
    || r.origin == codes "http://127.0.0.1:" ++ decimal port
    || r.origin == codes "http://localhost:" ++ decimal port

-- `authorized`; `none` is a nil client.
unfoldable pub authorized : Option WebClient → HttpRequest → Bool
authorized none r = false
authorized (some wc) r = not (eqb (length wc.token) 0) && r.token == wc.token

-- `sendToClient`
unfoldable pub send_to_client : WebClient → ℕ → Frame → WebClient
send_to_client wc conn frame = elim (lookup conn wc.write_mu) [
  | none ↦ wc
  | some mu ↦ record wc { frames = (conn, frame) ∷ wc.frames }
]

send_to_all : WebClient → Dict ℕ Bool → Frame → WebClient
unfolding send_to_client
send_to_all wc [] frame = wc
send_to_all wc ((conn, _) ∷ clients) frame =
    send_to_all (send_to_client wc conn frame) clients frame

-- `broadcast`
unfoldable pub broadcast : WebClient → Frame → WebClient
unfolding send_to_all
broadcast wc frame = send_to_all wc wc.clients frame

-- `webClient.Load()`, and a call if it is not nil.
abbrev pub tell : Option WebClient → Frame → Option WebClient
tell none frame = none
tell (some wc) frame = some (broadcast wc frame)

-- The section under the mutex in `handleWebSocket`; `mu` is the new mutex.
unfoldable pub add_client : WebClient → ℕ → ℕ → WebClient
add_client wc conn mu = record wc {
  clients = insert conn true wc.clients;
  write_mu = insert conn mu wc.write_mu;
}

-- What `readWebSocket` does at its end.
unfoldable pub remove_client : WebClient → ℕ → WebClient
remove_client wc conn = record wc {
  clients = erase conn wc.clients;
  write_mu = erase conn wc.write_mu;
}

-- How a request to `/ws` ends.
pub data Upgrade : Type 0 where
  unauthorized refused upgraded : Upgrade

-- `handleWebSocket` up to the initial state: `upgrades` says that the rest of the websocket's
-- handshake succeeds.
unfoldable pub handle_web_socket :
    Option WebClient → ℕ → HttpRequest → Bool → ℕ → ℕ → Option WebClient × Upgrade
unfolding authorized origin_allowed
handle_web_socket none port r upgrades conn mu = (none, unauthorized)
handle_web_socket (some wc) port r upgrades conn mu =
    if authorized (some wc) r
    then (if origin_allowed r port && upgrades
        then (some (add_client wc conn mu), upgraded)
        else (some wc, refused))
    else (some wc, unauthorized)

-- `addMessage` without the history: the message is kept and shown to all clients.
unfoldable pub keep_message : WebClient → WebMsg → WebClient
keep_message wc msg = broadcast (record wc { messages = wc.messages ++ msg ∷ [] }) (new_message msg)

-- `NotifyConnectionRequest`
unfoldable pub keep_request : WebClient → PendingRequest → WebClient
keep_request wc r =
    broadcast (record wc { pending_requests = wc.pending_requests ++ r ∷ [] })
      (connection_request r)

-- `RemovePendingRequest`
unfoldable pub remove_pending_request : WebClient → Bytes → WebClient
remove_pending_request wc peer_id = record wc {
  pending_requests = select (λ r. not (r.peer_id == peer_id)) wc.pending_requests;
}

unfoldable pub send_requests : WebClient → ℕ → List PendingRequest → WebClient
send_requests wc conn [] = wc
send_requests wc conn (r ∷ requests) =
    send_requests (send_to_client wc conn (connection_request r)) conn requests

-- The part of `sendInitialState` that goes to the new connection alone.
unfoldable pub send_state :
    WebClient
    → ℕ
    → (own : Bytes) → (addresses : List Bytes) → (nick : Bytes) → List PeerEntry
    → List Bytes
    → WebClient
unfolding send_requests
send_state wc conn own addresses nick peers verified =
    send_requests
      (send_to_client
        (send_to_client (send_to_client wc conn (node_info own addresses nick)) conn
          (peers_list peers))
        conn (verified_peers_list verified))
      conn wc.pending_requests
