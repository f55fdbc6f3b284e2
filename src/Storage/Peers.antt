-- ===== src/Storage/Peers.antt =====
-- storage/peers.go: `PeerStore`, the trusted peers in one JSON file. The mutex is not modelled.
pub mod Refinement
use decentralized_p2p_chat_s.Base.{
  ℕ, zero, suc, ◌-◌, ◌≡◌, refl, Bool, true, false, not, ◌||◌, List, [], ◌∷◌, ◌++◌, Option, none,
  some, Result, ok, err, ltb, leb, eqb, ◌==◌, bytes_eq, if◌then◌else◌, Bytes, length, take, drop,
  get_elem?, select,
}
use decentralized_p2p_chat_s.Base.Int.{ℤ, pos, negsuc}
use decentralized_p2p_chat_s.Storage.{
  File, Codec, StoreError, no_number, Outcome, load, loaded, save,
}

-- A trusted peer; the time is in nanoseconds.
pub record TrustedPeer : Type 0 where
  pub peer_id : Bytes
  pub nickname : Bytes
  pub saved_at : ℕ

-- The loop of `SavePeer`, and what follows it if no entry has the identifier.
unfoldable pub put_peer : ℕ → Bytes → Bytes → List TrustedPeer → List TrustedPeer
put_peer now peer_id nickname [] =
    record { peer_id = peer_id; nickname = nickname; saved_at = now } ∷ []
put_peer now peer_id nickname (p ∷ peers) =
    if p.peer_id == peer_id
    then record p { nickname = nickname; saved_at = now } ∷ peers
    else p ∷ put_peer now peer_id nickname peers

-- `SavePeer`: the file, and whether the error is nil. An error of `load` is ignored.
unfoldable pub save_peer :
    Codec (List TrustedPeer) → Outcome → ℕ → File → Bytes → Bytes → File × Bool
save_peer codec outcome now f peer_id nickname =
    save codec outcome f (put_peer now peer_id nickname (loaded codec f))

-- `RemovePeerByNum` on the list: the peer at a position from 1, and the others.
unfoldable pub pick : List TrustedPeer → ℤ → Option (TrustedPeer × List TrustedPeer)
pick peers (negsuc n) = none
pick peers (pos zero) = none
pick peers (pos (suc n)) = elim (get_elem? peers n) [
  | none ↦ none
  | some p ↦ some (p, take n peers ++ drop (suc n) peers)
]

-- `RemovePeerByNum`: the removed peer comes with the result of the write.
unfoldable pub remove_peer_by_num :
    Codec (List TrustedPeer) → Outcome → File → ℤ → File × Result StoreError (TrustedPeer × Bool)
remove_peer_by_num codec outcome f number = elim (load codec f) [
  | err e ↦ (f, err e)
  | ok peers ↦ elim (pick peers number) [
    | none ↦ (f, err no_number)
    | some (removed, filtered) ↦
        let (f', saved) = save codec outcome f filtered in (f', ok (removed, saved))
  ]
]

-- `RemovePeerByID`
unfoldable pub remove_peer_by_id : Codec (List TrustedPeer) → Outcome → File → Bytes → File × Bool
remove_peer_by_id codec outcome f peer_id = elim (load codec f) [
  | err e ↦ (f, false)
  | ok peers ↦ save codec outcome f (select (λ p. not (p.peer_id == peer_id)) peers)
]

-- The loop of `IsSaved`.
unfoldable pub has_peer : Bytes → List TrustedPeer → Bool
has_peer peer_id [] = false
has_peer peer_id (p ∷ peers) = if p.peer_id == peer_id then true else has_peer peer_id peers

-- `IsSaved`
unfoldable pub is_saved : Codec (List TrustedPeer) → File → Bytes → Bool
unfolding has_peer
is_saved codec f peer_id = elim (load codec f) [ err e ↦ false | ok peers ↦ has_peer peer_id peers ]
