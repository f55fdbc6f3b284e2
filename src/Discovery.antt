-- ===== src/Discovery.antt =====
-- discovery/: which peers a search in the DHT hands on, and how many bootstrap peers must be reached.
-- The DHT and the network of libp2p are parameters. The loops of main.go and web.go over the search
-- are here too.
use decentralized_p2p_chat_s.Base.{
  ℕ, suc, ◌+◌, Bool, true, false, not, List, [], ◌∷◌, ◌++◌, Option, none, some, eqb, ◌==◌, bytes_eq,
  if◌then◌else◌, Bytes, length, codes, take,
}
use decentralized_p2p_chat_s.Web.{
  FoundPeer, Frame, discovery_status, discovered_peer, discovery_complete,
}

-- `peer.AddrInfo` and `DiscoveredPeer`, by the written forms of the identifier and the addresses.
pub record AddrInfo : Type 0 where
  pub id : Bytes
  pub addrs : List Bytes

-- The goroutine of `DiscoverPeers`: what it hands on of the peers that the DHT gives.
unfoldable pub forward : Bytes → List AddrInfo → List AddrInfo
forward own [] = []
forward own (p ∷ peers) =
    let rest = forward own peers in
    if p.id == own then rest else if eqb (length p.addrs) 0 then rest else p ∷ rest

-- `DiscoverPeers`, where `none` is an error of `FindPeers`.
unfoldable pub discover_peers : Bytes → Option (List AddrInfo) → Option (List AddrInfo)
unfolding forward
discover_peers own none = none
discover_peers own (some peers) = some (forward own peers)

-- The address that is shown for a peer.
abbrev pub found_peer : Bytes → Bytes → FoundPeer
found_peer id addr = record { address = addr ++ codes "/p2p/" ++ id; id = id }

-- The loop of `handleDiscoverPeers`: the peers so far, and the frames that are broadcast.
unfoldable pub collect : List FoundPeer → List AddrInfo → List FoundPeer × List Frame
collect found [] = (found, [])
collect found (p ∷ peers) = elim p.addrs [
  | [] ↦ collect found peers
  | addr ∷ addrs ↦
      let peer = found_peer p.id addr in
      let (all, frames) = collect (found ++ peer ∷ []) peers in
      (all, discovered_peer peer (length found + 1) ∷ frames)
]

-- The frames that `handleDiscoverPeers` broadcasts, in order. `has_dht` says that the DHT is set up,
-- and `arrivals` how many peers arrive before the loop ends, by the time, the context or the channel.
unfoldable pub handle_discover_peers :
    (has_dht : Bool) → (own : Bytes) → Option (List AddrInfo) → (arrivals : ℕ) → List Frame
unfolding discover_peers collect
handle_discover_peers false own search arrivals =
    discovery_status (codes "DHT not initialized") ∷ []
handle_discover_peers true own search arrivals =
    discovery_status (codes "Discovering peers...") ∷ elim (discover_peers own search) [
      | none ↦ discovery_status (codes "Discovery failed") ∷ []
      | some peers ↦
          let (all, frames) = collect [] (take arrivals peers) in
          frames ++ discovery_complete all ∷ []
    ]

-- The loop of `discoverPeers` on the console: how many peers were found, and the numbered addresses
-- that are printed.
unfoldable pub list_found : ℕ → List AddrInfo → ℕ × List (ℕ × FoundPeer)
list_found count [] = (count, [])
list_found count (p ∷ peers) =
    let (all, lines) = list_found (suc count) peers in
    elim p.addrs [
      | [] ↦ (all, lines)
      | addr ∷ addrs ↦ (all, (suc count, found_peer p.id addr) ∷ lines)
    ]

-- What comes of a bootstrap address: it is no address, the peer is not reached, or it is.
pub data Contact : Type 0 where
  bad_address unreached reached : Contact

count_reached : List Contact → ℕ
count_reached [] = 0
count_reached (bad_address ∷ contacts) = count_reached contacts
count_reached (unreached ∷ contacts) = count_reached contacts
count_reached (reached ∷ contacts) = suc (count_reached contacts)

-- `Bootstrap`: whether the error is nil. The first flag says that the DHT's own bootstrap succeeds.
unfoldable pub bootstrap : Bool → List Contact → Bool
unfolding count_reached
bootstrap false contacts = false
bootstrap true contacts = not (eqb (count_reached contacts) 0)
