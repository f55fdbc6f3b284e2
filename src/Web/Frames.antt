-- ===== src/Web/Frames.antt =====
-- web.go: `WebMsg` and the messages that the bridge writes to its clients, by their types.
use decentralized_p2p_chat_s.Base.{ℕ, Bool, List, nat_eq, bytes_eq, Bytes}
use decentralized_p2p_chat_s.Storage.Peers.{TrustedPeer}
use decentralized_p2p_chat_s.Storage.History.{StoredMsg}

-- The times are in nanoseconds.
pub record WebMsg : Type 0 where
  pub id : Bytes
  pub from : Bytes
  pub from_name : Bytes
  pub to : Bytes
  pub content : Bytes
  pub timestamp : ℕ
  pub is_own : Bool

-- A connection request as it is kept for the clients.
pub record PendingRequest : Type 0 where
  pub peer_id : Bytes
  pub short_id : Bytes
  pub nickname : Bytes

-- An entry of the list of connected peers.
pub record PeerEntry : Type 0 where
  pub id : Bytes
  pub short_id : Bytes
  pub nickname : Bytes

-- A peer that the search found.
pub record FoundPeer : Type 0 where
  pub address : Bytes
  pub id : Bytes

-- The payload of a verification; an empty message stands for none.
pub record PeerVerification : Type 0 where
  pub peer_id : Bytes
  pub safety_number : Bytes
  pub verified : Bool
  pub key_available : Bool
  pub message : Bytes

-- What is written to a client, by its type.
pub data Frame : Type 0 where
  node_info : Bytes → List Bytes → Bytes → Frame
  peers_list : List PeerEntry → Frame
  verified_peers_list : List Bytes → Frame
  trusted_peers_list : List TrustedPeer → Frame
  connection_request : PendingRequest → Frame
  connection_rejected : Bytes → Frame
  new_message : WebMsg → Frame
  peer_history : Bytes → List StoredMsg → Frame
  peer_verification : PeerVerification → Frame
  peer_disconnected : (peer_id nickname short_id : Bytes) → Frame
  reconnect_status : (peer_id status : Bytes) → Frame
  discovery_status : Bytes → Frame
  discovered_peer : FoundPeer → ℕ → Frame
  discovery_complete : List FoundPeer → Frame
  error_message : Bytes → Frame
