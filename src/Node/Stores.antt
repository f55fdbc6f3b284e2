-- ===== src/Node/Stores.antt =====
-- web.go: `sendVerification`, and the cases of `handleWSMessage` that act on the stores.
use decentralized_p2p_chat_s.Base.{
  Bool, true, false, [], none, some, ok, err, eqb, bytes_eq, if◌then◌else◌, Bytes, length, codes,
}
use decentralized_p2p_chat_s.Storage.Peers.{save_peer, remove_peer_by_id}
use decentralized_p2p_chat_s.Storage.Verified.{set_verified, is_verified}
use decentralized_p2p_chat_s.Storage.History.{clear_history}
use decentralized_p2p_chat_s.Safety.{safety_number}
use decentralized_p2p_chat_s.Web.{peer_verification, PeerVerification}
use decentralized_p2p_chat_s.Node.{
  Outside, Node, next_draw, announce, notify_trusted_peers, broadcast_verified_peers,
}

-- The fields of a payload after `json.Unmarshal`, which leaves a field that it cannot read empty.
pub record Payload : Type 0 where
  pub to : Bytes
  pub content : Bytes
  pub address : Bytes
  pub peer_id : Bytes
  pub accepted : Bool
  pub nickname : Bytes
  pub verified : Bool

module _ (out : Outside) where
  -- The payload of `sendVerification` for a peer.
  unfoldable pub verification_of : Node → Bytes → PeerVerification
  verification_of n text = elim (out.decode_id text) [
    | none ↦ record {
      peer_id = text;
      safety_number = [];
      verified = false;
      key_available = false;
      message = codes "Invalid peer ID";
    }
    | some peer ↦
        let verified : Bool = elim n.verification_store [
          | none ↦ false
          | some f ↦ is_verified out.verifications f (out.env.id_string peer)
        ] in
        elim n.manager.node [
          | none ↦ record {
            peer_id = text;
            safety_number = [];
            verified = verified;
            key_available = false;
            message = codes "Peer public key is not available yet.";
          }
          | some own ↦ elim (safety_number out.safety true own peer) [
            | err e ↦ record {
              peer_id = text;
              safety_number = [];
              verified = verified;
              key_available = false;
              message = codes "Peer public key is not available yet.";
            }
            | ok number ↦ record {
              peer_id = text;
              safety_number = number;
              verified = verified;
              key_available = true;
              message = [];
            }
          ]
        ]
  ]

  -- `sendVerification`
  unfoldable pub send_verification : Node → Bytes → Node
  unfolding verification_of
  send_verification n text = announce out n (peer_verification (verification_of n text))

  -- The case "save_peer".
  unfoldable pub ws_save_peer : Node → Payload → Node
  ws_save_peer n p = elim n.peer_store [
    | none ↦ n
    | some f ↦ if eqb (length p.peer_id) 0 then n else elim (out.decode_id p.peer_id) [
      | none ↦ n
      | some peer ↦
          let k = n.manager.draws in
          let (f', saved) =
            save_peer out.peers (out.outcome k) (out.nanos k) f (out.env.id_string peer)
              p.nickname in
          let n' : Node = next_draw (record n { peer_store = some f' }) in
          if saved then notify_trusted_peers out n' else n'
    ]
  ]

  -- The case "remove_peer".
  unfoldable pub ws_remove_peer : Node → Payload → Node
  ws_remove_peer n p = elim n.peer_store [
    | none ↦ n
    | some f ↦ if eqb (length p.peer_id) 0 then n else elim (out.decode_id p.peer_id) [
      | none ↦ n
      | some peer ↦
          let (f', removed) =
            remove_peer_by_id out.peers (out.outcome n.manager.draws) f (out.env.id_string peer) in
          let n' : Node = next_draw (record n { peer_store = some f' }) in
          if removed then notify_trusted_peers out n' else n'
    ]
  ]

  -- The case "clear_history".
  unfoldable pub ws_clear_history : Bool → Node → Payload → Node
  ws_clear_history can_remove n p = elim n.history_store [
    | none ↦ n
    | some dir ↦ if eqb (length p.peer_id) 0 then n else elim (out.decode_id p.peer_id) [
      | none ↦ n
      | some peer ↦ record n {
        history_store = some (clear_history can_remove dir (out.env.id_string peer)).0;
      }
    ]
  ]

  -- The verification of a peer, sent unless there is no peer.
  abbrev pub answer_verification : Node → Bytes → Node
  answer_verification n text = if eqb (length text) 0 then n else send_verification n text

  -- The case "set_verification".
  unfoldable pub ws_set_verification : Node → Payload → Node
  unfolding send_verification
  ws_set_verification n p = elim n.verification_store [
    | none ↦ answer_verification n p.peer_id
    | some f ↦ if eqb (length p.peer_id) 0 then n else elim (out.decode_id p.peer_id) [
      | none ↦ send_verification n p.peer_id
      | some peer ↦
          let k = n.manager.draws in
          let (f', saved) =
            set_verified out.verifications (out.outcome k) (out.nanos k) f (out.env.id_string peer)
              p.verified in
          let n' : Node =
            send_verification (next_draw (record n { verification_store = some f' })) p.peer_id in
          if saved then broadcast_verified_peers out n' else n'
    ]
  ]
