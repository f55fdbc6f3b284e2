-- ===== src/Node/Socket/Laws.antt =====
-- What a message of a web client can change.
use decentralized_p2p_chat_s.Base.{
  ◌≡◌, refl, Bool, true, false, List, [], ◌∷◌, arith, eqb, ◌==◌, bytes_eq, Bytes, length, codes,
  if_ind, option_ind, result_ind, ◌||◌,
}
use Prim.Native.String.{String}
use decentralized_p2p_chat_s.Storage.{load}
use decentralized_p2p_chat_s.Storage.Peers.{save_peer, remove_peer_by_id}
use decentralized_p2p_chat_s.Storage.Verified.{set_verified}
use decentralized_p2p_chat_s.Manager.Pending.{send_chat}
use decentralized_p2p_chat_s.Discovery.{handle_discover_peers}
use decentralized_p2p_chat_s.Web.{Frame}
use decentralized_p2p_chat_s.Node.{
  Outside, Node, announce, notify_trusted_peers, broadcast_verified_peers,
}
use decentralized_p2p_chat_s.Node.Bridge.{
  IsCalm, IsCalm-refl, IsCalm-trans, calm, notify_web_message-IsCalm, run-IsCalm,
}
use decentralized_p2p_chat_s.Node.Stores.{
  Payload, send_verification, ws_save_peer, ws_remove_peer, ws_clear_history, ws_set_verification,
  answer_verification,
}
use decentralized_p2p_chat_s.Node.Socket.{
  WsMessage, Network, announce_all, send_message_to_peer, ws_connection_response, ws_reconnect,
  ws_disconnect, handle_store_message, handle_ws_message, own_id,
}

-- Two nodes of which the second may differ in the trusted peers, in the verifications, or in the
-- requests, as the flags say.
pub record Changes (peers verifications approvals : Bool) (n m : Node) : Type 0 where
  pub peers_kept : peers ≡ false → m.peer_store ≡ n.peer_store
  pub verifications_kept : verifications ≡ false → m.verification_store ≡ n.verification_store
  pub approvals_kept : approvals ≡ false → m.approvals ≡ n.approvals

calm-Changes : (p q r : Bool) {n m : Node} → IsCalm n m → Changes p q r n m
calm-Changes p q r c = record {
  peers_kept = λ _. c.peers;
  verifications_kept = λ _. c.verifications;
  approvals_kept = λ _. c.approvals;
}

module _ (out : Outside) where
  notify_trusted_peers-IsCalm : (n : Node) → IsCalm n (notify_trusted_peers out n)
  unfolding notify_trusted_peers
  notify_trusted_peers-IsCalm n = option_ind (IsCalm n) n.peer_store (IsCalm-refl n) (λ f _.
      result_ind (IsCalm n) (load out.peers f) (λ peers _. calm refl refl refl)
        (λ e. IsCalm-refl n))

  send_message_to_peer-IsCalm :
      (n : Node) (to content : Bytes) → IsCalm n (send_message_to_peer out n to content)
  unfolding send_message_to_peer
  send_message_to_peer-IsCalm n to content =
      option_ind (IsCalm n) (out.decode_id to) (calm refl refl refl) (λ peer _.
        option_ind (IsCalm n) (send_chat out.env n.manager peer content).1 (calm refl refl refl)
          (λ e _. IsCalm-trans (calm refl refl refl) (notify_web_message-IsCalm out _ _ _ _ _ _ _)))

  announce_all-IsCalm : (n : Node) (frames : List Frame) → IsCalm n (announce_all out n frames)
  unfolding announce_all
  announce_all-IsCalm n [] = IsCalm-refl n
  announce_all-IsCalm n (frame ∷ frames) =
      IsCalm-trans (calm refl refl refl) (announce_all-IsCalm (announce out n frame) frames)

  answer_verification-IsCalm : (n : Node) (text : Bytes) → IsCalm n (answer_verification out n text)
  unfolding send_verification
  answer_verification-IsCalm n text =
      if_ind (IsCalm n) (eqb (length text) 0) (λ _. IsCalm-refl n) (λ _. calm refl refl refl)

  ws_reconnect-IsCalm :
      (net : Network) (n : Node) (p : Payload) → IsCalm n (ws_reconnect out net n p)
  unfolding ws_reconnect
  ws_reconnect-IsCalm net n p =
      if_ind (IsCalm n) (eqb (length p.peer_id) 0) (λ _. IsCalm-refl n) (λ _. run-IsCalm out n _)

  ws_disconnect-IsCalm : (n : Node) (p : Payload) → IsCalm n (ws_disconnect out n p)
  unfolding ws_disconnect
  ws_disconnect-IsCalm n p =
      if_ind (IsCalm n) (eqb (length p.peer_id) 0) (λ _. run-IsCalm out n _)
        (λ _.
          option_ind (IsCalm n) (out.decode_id p.peer_id) (IsCalm-refl n)
            (λ peer _. run-IsCalm out n _))

  ws_clear_history-IsCalm :
      (can_remove : Bool) (n : Node) (p : Payload) → IsCalm n (ws_clear_history out can_remove n p)
  unfolding ws_clear_history
  ws_clear_history-IsCalm can_remove n p =
      option_ind (IsCalm n) n.history_store (IsCalm-refl n) (λ dir _.
        if_ind (IsCalm n) (eqb (length p.peer_id) 0) (λ _. IsCalm-refl n)
          (λ _.
            option_ind (IsCalm n) (out.decode_id p.peer_id) (IsCalm-refl n)
              (λ peer _. calm refl refl refl)))

  -- All but the trusted peers stays.
  abbrev OnlyPeers : Node → Node → Type 0
  OnlyPeers n m = (m.verification_store ≡ n.verification_store) × (m.approvals ≡ n.approvals)

  ws_save_peer-OnlyPeers : (n : Node) (p : Payload) → OnlyPeers n (ws_save_peer out n p)
  unfolding ws_save_peer
  ws_save_peer-OnlyPeers n p =
      option_ind (OnlyPeers n) n.peer_store (refl, refl)
        (λ f _.
          if_ind (OnlyPeers n) (eqb (length p.peer_id) 0) (λ _. (refl, refl))
            (λ _.
              option_ind (OnlyPeers n) (out.decode_id p.peer_id) (refl, refl)
                (λ peer _.
                  if_ind (OnlyPeers n)
                    (save_peer out.peers (out.outcome n.manager.draws) (out.nanos n.manager.draws) f
                      (out.env.id_string peer) p.nickname).1
                    (λ _. let c = notify_trusted_peers-IsCalm _ in (c.verifications, c.approvals))
                    (λ _. (refl, refl)))))

  ws_remove_peer-OnlyPeers : (n : Node) (p : Payload) → OnlyPeers n (ws_remove_peer out n p)
  unfolding ws_remove_peer
  ws_remove_peer-OnlyPeers n p =
      option_ind (OnlyPeers n) n.peer_store (refl, refl)
        (λ f _.
          if_ind (OnlyPeers n) (eqb (length p.peer_id) 0) (λ _. (refl, refl))
            (λ _.
              option_ind (OnlyPeers n) (out.decode_id p.peer_id) (refl, refl)
                (λ peer _.
                  if_ind (OnlyPeers n)
                    (remove_peer_by_id out.peers (out.outcome n.manager.draws) f
                      (out.env.id_string peer)).1
                    (λ _. let c = notify_trusted_peers-IsCalm _ in (c.verifications, c.approvals))
                    (λ _. (refl, refl)))))

  abbrev OnlyVerifications : Node → Node → Type 0
  OnlyVerifications n m = (m.peer_store ≡ n.peer_store) × (m.approvals ≡ n.approvals)

  ws_set_verification-OnlyVerifications :
      (n : Node) (p : Payload) → OnlyVerifications n (ws_set_verification out n p)
  unfolding ws_set_verification send_verification
  ws_set_verification-OnlyVerifications n p =
      option_ind (OnlyVerifications n) n.verification_store
        (let c = answer_verification-IsCalm n p.peer_id in (c.peers, c.approvals))
        (λ f _.
          if_ind (OnlyVerifications n) (eqb (length p.peer_id) 0) (λ _. (refl, refl))
            (λ _.
              option_ind (OnlyVerifications n) (out.decode_id p.peer_id) (refl, refl)
                (λ peer _.
                  if_ind (OnlyVerifications n)
                    (set_verified out.verifications (out.outcome n.manager.draws)
                      (out.nanos n.manager.draws) f (out.env.id_string peer) p.verified).1
                    (λ _. unfold broadcast_verified_peers in (refl, refl)) (λ _. (refl, refl)))))

  abbrev OnlyApprovals : Node → Node → Type 0
  OnlyApprovals n m = (m.peer_store ≡ n.peer_store) × (m.verification_store ≡ n.verification_store)

  ws_connection_response-OnlyApprovals :
      (n : Node) (p : Payload) → OnlyApprovals n (ws_connection_response out n p)
  unfolding ws_connection_response
  ws_connection_response-OnlyApprovals n p =
      option_ind (OnlyApprovals n) (out.decode_id p.peer_id) (refl, refl) (λ peer _. (refl, refl))

  abbrev is_type : WsMessage → String → Bool
  is_type msg name = msg.typ == codes name

  abbrev IsConfined : WsMessage → Node → Node → Type 0
  IsConfined msg =
      Changes (is_type msg "save_peer" || is_type msg "remove_peer")
        (is_type msg "set_verification") (is_type msg "connection_response")

  peers-IsConfined :
      (msg : WsMessage) {n m : Node}
      → (is_type msg "save_peer" || is_type msg "remove_peer") ≡ true
      → OnlyPeers n m
      → IsConfined msg n m
  peers-IsConfined msg h c = record {
    peers_kept = λ off. let bad : ⊥ = cc (h, off) in absurd bad;
    verifications_kept = λ _. c.0;
    approvals_kept = λ _. c.1;
  }

  handle_store_message-IsConfined :
      (net : Network) (n : Node) (msg : WsMessage)
      → IsConfined msg n (handle_store_message out net n msg)
  unfolding handle_store_message
  handle_store_message-IsConfined net n msg =
      if_ind (IsConfined msg n) (is_type msg "save_peer")
        (λ h. peers-IsConfined msg (ground (arith, h)) (ws_save_peer-OnlyPeers n msg.payload))
        (λ _.
          if_ind (IsConfined msg n) (is_type msg "remove_peer")
            (λ h. peers-IsConfined msg (ground (arith, h)) (ws_remove_peer-OnlyPeers n msg.payload))
            (λ _.
              if_ind (IsConfined msg n) (is_type msg "clear_history")
                (λ _. calm-Changes _ _ _ (ws_clear_history-IsCalm net.can_remove n msg.payload))
                (λ _.
                  if_ind (IsConfined msg n) (is_type msg "get_verification")
                    (λ _. calm-Changes _ _ _ (answer_verification-IsCalm n msg.payload.peer_id))
                    (λ _.
                      if_ind (IsConfined msg n) (is_type msg "set_verification")
                        (λ h.
                          let c = ws_set_verification-OnlyVerifications n msg.payload in
                          record {
                            peers_kept = λ _. c.0;
                            verifications_kept = λ off. let bad : ⊥ = cc (h, off) in absurd bad;
                            approvals_kept = λ _. c.1;
                          })
                        (λ _. calm-Changes _ _ _ (IsCalm-refl n))))))

  -- A message of a web client changes the trusted peers only if it saves or removes a peer, the
  -- verifications only if it sets one, and the connection requests only if it answers one.
  pub handle_ws_message-Changes :
      (net : Network) (n : Node) (msg : WsMessage)
      → Changes
          (msg.typ == codes "save_peer" || msg.typ == codes "remove_peer")
          (msg.typ == codes "set_verification")
          (msg.typ == codes "connection_response")
          n
          (handle_ws_message out net n msg)
  unfolding handle_ws_message
  handle_ws_message-Changes net n msg =
      if_ind (IsConfined msg n) (is_type msg "send_message")
        (λ _. calm-Changes _ _ _ (send_message_to_peer-IsCalm n _ _))
        (λ _.
          if_ind (IsConfined msg n) (is_type msg "connect_peer")
            (λ _. calm-Changes _ _ _ (run-IsCalm out n _))
            (λ _.
              if_ind (IsConfined msg n) (is_type msg "discover_peers")
                (λ _. calm-Changes _ _ _ (
                  announce_all-IsCalm n (
                    handle_discover_peers net.has_dht (own_id out.env n.manager) net.search
                      net.arrivals)))
                (λ _.
                  if_ind (IsConfined msg n) (is_type msg "connection_response")
                    (λ h.
                      let c = ws_connection_response-OnlyApprovals n msg.payload in
                      record {
                        peers_kept = λ _. c.0;
                        verifications_kept = λ _. c.1;
                        approvals_kept = λ off. let bad : ⊥ = cc (h, off) in absurd bad;
                      })
                    (λ _.
                      if_ind (IsConfined msg n) (is_type msg "reconnect_peer")
                        (λ _. calm-Changes _ _ _ (ws_reconnect-IsCalm net n _))
                        (λ _.
                          if_ind (IsConfined msg n) (is_type msg "disconnect_peer")
                            (λ _. calm-Changes _ _ _ (ws_disconnect-IsCalm n _))
                            (λ _. handle_store_message-IsConfined net n msg))))))
