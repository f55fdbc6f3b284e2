-- ===== src/Node/Lists.antt =====
-- main.go: what `listPeers`, `listSavedPeers` and `discoverPeers` print, without colours, headings and
-- times.
use decentralized_p2p_chat_s.Base.{
  ℕ, suc, Bool, List, [], ◌∷◌, ◌++◌, none, some, eqb, if◌then◌else◌, Bytes, length, codes, take,
}
use decentralized_p2p_chat_s.Text.Fields.{decimal}
use decentralized_p2p_chat_s.Discovery.{discover_peers, list_found}
use decentralized_p2p_chat_s.Web.{FoundPeer}
use decentralized_p2p_chat_s.Node.{Outside, Node}
use decentralized_p2p_chat_s.Node.Socket.{Network, own_id}
use decentralized_p2p_chat_s.Node.Probes.{list_peers}
use decentralized_p2p_chat_s.Node.Saved.{print, list_saved_peers}

-- A number in brackets.
abbrev bracketed : Bytes → Bytes
bracketed text = codes "[" ++ text ++ codes "]"

unfoldable pub print_all : Node → List Bytes → Node
print_all n [] = n
print_all n (text ∷ texts) = print_all (print n text) texts

-- The line of a connected peer.
unfoldable pub peer_text : ℕ → Bool × Bytes × Bytes → Bytes
peer_text i (is_active, nick, short) =
    (if is_active then codes ">" else codes " ")
    ++ codes " "
    ++ bracketed (decimal i)
    ++ codes " "
    ++ (if eqb (length nick) 0 then short else nick ++ codes " " ++ bracketed short)

unfoldable pub peer_texts : ℕ → List (Bool × Bytes × Bytes) → List Bytes
unfolding peer_text
peer_texts i [] = []
peer_texts i (line ∷ lines) = peer_text i line ∷ peer_texts (suc i) lines

-- The line of a saved peer.
unfoldable pub saved_texts : ℕ → List (Bytes × Bytes) → List Bytes
saved_texts i [] = []
saved_texts i ((nick, short) ∷ peers) =
    (bracketed (decimal i) ++ codes " " ++ nick ++ codes " " ++ bracketed short)
    ∷ saved_texts (suc i) peers

unfoldable pub found_texts : List (ℕ × FoundPeer) → List Bytes
found_texts [] = []
found_texts ((i, peer) ∷ peers) =
    (bracketed (decimal i) ++ codes " " ++ peer.address) ∷ found_texts peers

module _ (out : Outside) where
  -- `listPeers`
  unfoldable pub show_peers : Node → Node
  unfolding peer_texts print_all
  show_peers n = elim (list_peers out.env n.manager) [
    | [] ↦ print n (codes "No connected peers")
    | line ∷ lines ↦ print_all n (peer_texts 1 (line ∷ lines))
  ]

  -- `listSavedPeers`
  unfoldable pub show_saved_peers : Node → Node
  unfolding saved_texts print_all
  show_saved_peers n = elim n.peer_store [
    | none ↦ print n (codes "Peer store not available")
    | some f ↦ elim (list_saved_peers out n) [
      | [] ↦ print n (codes "No saved peers.")
      | peer ∷ peers ↦ print_all n (saved_texts 1 (peer ∷ peers))
    ]
  ]

  -- `discoverPeers`
  unfoldable pub show_found_peers : Network → Node → Node
  unfolding found_texts print_all
  show_found_peers net n =
      if net.has_dht
      then elim (discover_peers (own_id out.env n.manager) net.search) [
        | none ↦ print n (codes "Discovery failed")
        | some peers ↦
            let (count, lines) = list_found 0 (take net.arrivals peers) in
            let shown = print_all n (found_texts lines) in
            if eqb count 0
            then print shown (codes "No peers found")
            else print shown (codes "Found " ++ decimal count ++ codes " peers")
      ]
      else print n (codes "DHT not initialized")
