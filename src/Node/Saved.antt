-- ===== src/Node/Saved.antt =====
-- main.go: `savePeer`, `renameSavedPeer`, `removeSavedPeer` and `listSavedPeers`.
use decentralized_p2p_chat_s.Base.{
  zero, suc, Bool, List, [], ◌∷◌, Option, none, some, ok, err, eqb, bytes_eq, if◌then◌else◌, Bytes,
  length, codes, get_elem?,
}
use decentralized_p2p_chat_s.Base.Dict.{lookup}
use decentralized_p2p_chat_s.Base.Int.{ℤ, pos, negsuc}
use decentralized_p2p_chat_s.Text.{short_id}
use decentralized_p2p_chat_s.Storage.{File, load}
use decentralized_p2p_chat_s.Storage.Peers.{TrustedPeer, save_peer, remove_peer_by_num}
use decentralized_p2p_chat_s.Manager.{printed, or_else, emit}
use decentralized_p2p_chat_s.Node.{Outside, Node, next_draw, notify_trusted_peers}

-- `fmt.Println`
abbrev pub print : Node → Bytes → Node
print n text = record n { manager = emit n.manager (printed text) }

module _ (out : Outside) where
  -- The name under which `savePeer` saves a peer.
  unfoldable pub saved_nick : Node → Bytes → Bytes → Bytes → Bytes
  saved_nick n text peer custom =
      if eqb (length custom) 0
      then (let nick = or_else (lookup peer n.manager.peer_nicks) [] in
          if eqb (length nick) 0 then short_id text else nick)
      else custom

  -- The end of a command that writes the trusted peers.
  put_peer_file : Node → File × Bool → Node
  put_peer_file n (f, saved) =
      let n' : Node = next_draw (record n { peer_store = some f }) in
      if saved then notify_trusted_peers out n' else print n' (codes "Failed")

  -- `savePeer`: the file gets the identifier as it was typed.
  unfoldable pub save_typed_peer : Node → Bytes → Bytes → Node
  unfolding saved_nick put_peer_file
  save_typed_peer n text custom = elim n.peer_store [
    | none ↦ print n (codes "Peer store not available")
    | some f ↦ elim (out.decode_id text) [
      | none ↦ print n (codes "Invalid peer ID")
      | some peer ↦
          let k = n.manager.draws in
          put_peer_file n (
            save_peer out.peers (out.outcome k) (out.nanos k) f text
              (saved_nick n text peer custom))
    ]
  ]

  -- The entry at a position that counts from 1.
  nth_peer : List TrustedPeer → ℤ → Option TrustedPeer
  nth_peer peers (negsuc n) = none
  nth_peer peers (pos zero) = none
  nth_peer peers (pos (suc n)) = get_elem? peers n

  -- `renameSavedPeer`
  unfoldable pub rename_saved_peer : Node → ℤ → Bytes → Node
  unfolding nth_peer put_peer_file
  rename_saved_peer n num nick = elim n.peer_store [
    | none ↦ print n (codes "Peer store not available")
    | some f ↦ elim (load out.peers f) [
      | err e ↦ print n (codes "No saved peer with that number")
      | ok peers ↦ elim (nth_peer peers num) [
        | none ↦ print n (codes "No saved peer with that number")
        | some p ↦
            let k = n.manager.draws in
            put_peer_file n (save_peer out.peers (out.outcome k) (out.nanos k) f p.peer_id nick)
      ]
    ]
  ]

  -- `removeSavedPeer`
  unfoldable pub remove_saved_peer : Node → ℤ → Node
  unfolding put_peer_file
  remove_saved_peer n num = elim n.peer_store [
    | none ↦ print n (codes "Peer store not available")
    | some f ↦
        let (f', result) = remove_peer_by_num out.peers (out.outcome n.manager.draws) f num in
        elim result [
          | err e ↦ print n (codes "No such peer")
          | ok (removed, saved) ↦ put_peer_file n (f', saved)
        ]
  ]

  -- `listSavedPeers`: the names and identifiers that are shown.
  unfoldable pub list_saved_peers : Node → List (Bytes × Bytes)
  list_saved_peers n = elim n.peer_store [
    | none ↦ []
    | some f ↦ elim (load out.peers f) [ err e ↦ [] | ok peers ↦ entries peers ]
  ]
    where
      entries : List TrustedPeer → List (Bytes × Bytes)
      entries [] = []
      entries (p ∷ peers) = (p.nickname, short_id p.peer_id) ∷ entries peers
