-- ===== src/Node.antt =====
-- main.go and web.go: the whole node. Its conversations, connection requests and files, and the web
-- bridge that is told of what happens.
pub mod Bridge
pub mod Talks
pub mod Stores
pub mod Socket
pub mod Clients
pub mod Probes
pub mod Saved
pub mod Lists
pub mod Console
pub mod Incoming
pub mod Start
use mathlib.Core.List.{reverse}
use decentralized_p2p_chat_s.Base.{
  ℕ, suc, ◌+◌, ◌≡◌, refl, Bool, true, false, not, ◌&&◌, List, [], ◌∷◌, ◌++◌, Option, none, some,
  Result, ok, err, eqb, ◌==◌, bytes_eq, if◌then◌else◌, Bytes, length, codes,
}
use decentralized_p2p_chat_s.Base.Dict.{Dict, lookup}
use decentralized_p2p_chat_s.Text.{short_id}
use decentralized_p2p_chat_s.Text.Fields.{decimal}
use decentralized_p2p_chat_s.Storage.{File, Codec, Outcome, load}
use decentralized_p2p_chat_s.Storage.Peers.{TrustedPeer, save_peer, remove_peer_by_id}
use decentralized_p2p_chat_s.Storage.Verified.{
  Verification, set_verified, is_verified, verified_peer_ids,
}
use decentralized_p2p_chat_s.Storage.History.{
  StoredMsg, Directory, HistoryEnv, save_message, load_history, clear_history,
}
use decentralized_p2p_chat_s.Safety.{SafetyEnv, SafetyError, safety_number}
use decentralized_p2p_chat_s.Approvals.{Approvals}
use decentralized_p2p_chat_s.Manager.{
  Env, Manager, Effect, wrote, closed, chat_shown, own_message, web_error, peers_changed,
  history_asked, disconnected, rejected, reconnecting, request_shown, printed, or_else, emit, draw,
}
use decentralized_p2p_chat_s.Web.{
  WebMsg, PendingRequest, PeerEntry, PeerVerification, Frame, peers_list, verified_peers_list,
  trusted_peers_list, connection_rejected, peer_history, peer_verification, peer_disconnected,
  reconnect_status, error_message, WebClient, tell, keep_message, keep_request,
}

-- What is outside the node, beside what its conversations use. `decode_id` is `peerstore.Decode`.
-- The answers of the clock, the randomness and the file system may differ at each draw.
pub record Outside : Type 0 where
  pub env : Env
  pub decode_id : Bytes → Option Bytes
  pub peers : Codec (List TrustedPeer)
  pub verifications : Codec (List Verification)
  pub history : HistoryEnv
  pub safety : SafetyEnv
  pub nanos : ℕ → ℕ
  pub outcome : ℕ → Outcome
  pub nonce : ℕ → Option Bytes
  pub replaced : ℕ → Bool

-- `StreamManager` with its stores, where `none` is a store that could not be set up, and `webClient`.
pub record Node : Type 0 where
  pub manager : Manager
  pub approvals : Approvals
  pub peer_store : Option File
  pub verification_store : Option File
  pub history_store : Option Directory
  pub web : Option WebClient

-- A draw of the outside.
abbrev pub next_draw : Node → Node
next_draw n = record n { manager = draw n.manager }

-- An entry of `getPeersList`.
abbrev peer_entry : Env → Manager → Bytes → PeerEntry
peer_entry env m peer =
    let id = env.id_string peer in
    let nick = or_else (lookup peer m.peer_nicks) [] in
    record {
      id = id;
      short_id = short_id id;
      nickname = if eqb (length nick) 0 then short_id id else nick;
    }

-- `getPeersList`, in the order of the map.
unfoldable pub get_peers_list : Env → Manager → Dict Bytes ℕ → List PeerEntry
get_peers_list env m [] = []
get_peers_list env m ((peer, _) ∷ streams) = peer_entry env m peer ∷ get_peers_list env m streams

module _ (out : Outside) where
  -- `verifiedPeerIDs`
  unfoldable pub verified_ids : Node → List Bytes
  verified_ids n = elim n.verification_store [
    | none ↦ []
    | some f ↦ elim (verified_peer_ids out.verifications f) [ err e ↦ [] | ok ids ↦ ids ]
  ]

  -- A call of web.go with a frame for all clients.
  abbrev pub announce : Node → Frame → Node
  announce n frame = record n { web = tell n.web frame }

  -- `NotifyTrustedPeersUpdate`, after `none` for a store that is nil.
  unfoldable pub notify_trusted_peers : Node → Node
  notify_trusted_peers n = elim n.peer_store [
    | none ↦ n
    | some f ↦ elim (load out.peers f) [
      | err e ↦ n
      | ok peers ↦ announce n (trusted_peers_list peers)
    ]
  ]

  -- `broadcastVerifiedPeers`
  unfoldable pub broadcast_verified_peers : Node → Node
  unfolding verified_ids
  broadcast_verified_peers n = announce n (verified_peers_list (verified_ids n))

  -- `historyStore.SaveMessage`, if there is a store; the error is ignored.
  unfoldable pub save_to_history : Node → Bytes → StoredMsg → Node
  save_to_history n peer_id msg = elim n.history_store [
    | none ↦ n
    | some dir ↦
        let k = n.manager.draws in
        next_draw (record n {
          history_store =
              some (save_message out.history (out.nonce k) (out.replaced k) dir peer_id msg).0;
        })
  ]

  abbrev stored : WebMsg → StoredMsg
  stored msg = record {
    id = msg.id;
    from = msg.from;
    from_name = msg.from_name;
    content = msg.content;
    timestamp = msg.timestamp;
    is_own = msg.is_own;
  }

  unfoldable pub save_if : Bool → Node → Bytes → StoredMsg → Node
  unfolding save_to_history
  save_if true n peer_id msg = save_to_history n peer_id msg
  save_if false n peer_id msg = n

  -- `addMessage`. The goroutine that saves the message has its turn at once.
  unfoldable pub add_message : Node → WebClient → Bytes → Bytes → Bytes → Bool → Bytes → Bool → Node
  unfolding save_if
  add_message n wc from from_name content is_own conversation persist =
      let k = n.manager.draws in
      let msg : WebMsg = record {
        id = decimal (out.nanos k);
        from = from;
        from_name = from_name;
        to = conversation;
        content = content;
        timestamp = out.nanos (suc k);
        is_own = is_own;
      } in
      let n' : Node = record n {
        manager = draw (draw n.manager);
        web = some (keep_message wc msg);
      } in
      save_if (persist && not (eqb (length conversation) 0)) n' conversation (stored msg)

  -- `NotifyWebMessage`
  unfoldable pub notify_web_message : Node → Bytes → Bytes → Bytes → Bool → Bytes → Bool → Node
  unfolding add_message
  notify_web_message n from from_name content is_own conversation persist = elim n.web [
    | none ↦ n
    | some wc ↦ add_message n wc from from_name content is_own conversation persist
  ]

  -- `NotifyPeerHistory`, unless there are no messages.
  unfoldable pub notify_peer_history : Node → Bytes → List StoredMsg → Node
  notify_peer_history n peer_id [] = n
  notify_peer_history n peer_id (msg ∷ msgs) = announce n (peer_history peer_id (msg ∷ msgs))

  -- The history of a peer, loaded and shown to the clients, as `AddStream` does it at its end.
  unfoldable pub show_history : Node → Bytes → Node
  unfolding notify_peer_history
  show_history n peer_id = elim n.history_store [
    | none ↦ n
    | some dir ↦ elim (load_history out.history dir peer_id) [
      | err e ↦ n
      | ok msgs ↦ notify_peer_history n peer_id msgs
    ]
  ]

  -- `NotifyPeerDisconnected`
  abbrev pub notify_peer_disconnected : Node → (peer_id nickname short : Bytes) → Node
  notify_peer_disconnected n peer_id nickname short =
      announce n (peer_disconnected peer_id nickname short)

  -- `NotifyReconnectStatus`, without the message that explains the status.
  abbrev pub notify_reconnect_status : Node → (peer_id status : Bytes) → Node
  notify_reconnect_status n peer_id status = announce n (reconnect_status peer_id status)

  -- What a call of web.go by the conversations does.
  unfoldable pub notify : Node → Effect → Node
  unfolding notify_web_message show_history get_peers_list
  notify n (wrote stream line) = n
  notify n (closed stream) = n
  notify n (printed text) = n
  notify n (chat_shown from name text) = notify_web_message n from name text false from true
  notify n (own_message to text) =
      notify_web_message n (or_else_id n.manager.node) n.manager.local_nick text true
        (out.env.id_string to) false
    where
      or_else_id : Option Bytes → Bytes
      or_else_id none = []
      or_else_id (some own) = out.env.id_string own
  notify n (web_error text) = announce n (error_message text)
  notify n peers_changed =
      announce n (peers_list (get_peers_list out.env n.manager n.manager.streams))
  notify n (history_asked peer) = show_history n (out.env.id_string peer)
  notify n (disconnected peer) =
      notify_peer_disconnected n (out.env.id_string peer)
        (or_else (lookup peer n.manager.peer_nicks) []) (short_id (out.env.id_string peer))
  notify n (rejected peer_id) = announce n (connection_rejected peer_id)
  notify n (reconnecting peer_id status) = notify_reconnect_status n peer_id status
  notify n (request_shown peer_id short nick) = elim n.web [
    | none ↦ n
    | some wc ↦ record n {
      web =
          some (keep_request wc (record { peer_id = peer_id; short_id = short; nickname = nick }));
    }
  ]

  notify_all : Node → List Effect → Node
  unfolding notify
  notify_all n [] = n
  notify_all n (e ∷ es) = notify_all (notify n e) es

  -- Lets the conversations take a step, and passes its calls on in their order.
  unfoldable pub run : Node → (Manager → Manager) → Node
  unfolding notify_all
  run n step =
      let m = step (record n.manager { effects = [] }) in
      notify_all (record n { manager = record m { effects = m.effects ++ n.manager.effects } })
        (reverse m.effects)
