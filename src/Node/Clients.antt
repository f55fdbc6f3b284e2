-- ===== src/Node/Clients.antt =====
-- web.go: `handleWebSocket` as a whole, with `sendInitialState`.
use decentralized_p2p_chat_s.Base.{ℕ, Bool, List, [], ◌∷◌, Option, none, some, Bytes}
use decentralized_p2p_chat_s.Base.Dict.{Dict}
use decentralized_p2p_chat_s.Storage.History.{StoredMsg, load_all_histories}
use decentralized_p2p_chat_s.Web.{
  WebClient, HttpRequest, Upgrade, unauthorized, refused, upgraded, send_state, handle_web_socket,
}
use decentralized_p2p_chat_s.Node.{
  Outside, Node, get_peers_list, verified_ids, notify_peer_history, notify_trusted_peers,
}
use decentralized_p2p_chat_s.Node.Socket.{own_id}

module _ (out : Outside) where
  unfoldable pub send_histories : Node → Dict Bytes (List StoredMsg) → Node
  send_histories n [] = n
  send_histories n ((peer_id, msgs) ∷ histories) =
      send_histories (notify_peer_history out n peer_id msgs) histories

  -- The goroutine of `sendInitialState`, which has its turn at once. `entries` is what `os.ReadDir`
  -- gives, where `none` is an error.
  unfoldable pub send_stored : Node → Option (List (Bytes × Bool)) → Node
  unfolding send_histories
  send_stored n none = n
  send_stored n (some entries) = elim n.history_store [
    | none ↦ n
    | some dir ↦ send_histories n (load_all_histories out.history dir entries)
  ]

  -- `sendInitialState`
  unfoldable pub send_initial_state :
      Node → WebClient → ℕ → (addresses : List Bytes) → Option (List (Bytes × Bool)) → Node
  unfolding send_stored
  send_initial_state n wc conn addresses entries =
      let m = n.manager in
      let greeted : Node = record n {
        web = some (
            send_state wc conn (own_id out.env m) addresses m.local_nick
              (get_peers_list out.env m m.streams) (verified_ids out n));
      } in
      notify_trusted_peers out (send_stored greeted entries)

  -- `handleWebSocket`, whose reading of messages is the steps that follow.
  unfoldable pub client_connects :
      Node
      → ℕ
      → HttpRequest
      → Bool
      → (conn mu : ℕ) → (addresses : List Bytes) → Option (List (Bytes × Bool))
      → Node × Upgrade
  unfolding send_initial_state
  client_connects n port r upgrades conn mu addresses entries =
      let (web, upgrade) = handle_web_socket n.web port r upgrades conn mu in
      elim upgrade [
        | unauthorized ↦ (n, unauthorized)
        | refused ↦ (n, refused)
        | upgraded ↦ elim web [
          | none ↦ (n, upgraded)
          | some wc ↦ (send_initial_state n wc conn addresses entries, upgraded)
        ]
      ]
