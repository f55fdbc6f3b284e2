-- ===== src/Storage/Peers/Refinement.antt =====
-- The peer store as a map from identifiers to nicknames and times.
use decentralized_p2p_chat_s.Base.{ℕ, ◌≡◌, List, [], ◌∷◌, ok, bytes_eq, Bytes}
use decentralized_p2p_chat_s.Base.Dict.{Dict}
use decentralized_p2p_chat_s.Storage.{File, Codec, load}
use decentralized_p2p_chat_s.Storage.Peers.{TrustedPeer}

-- What the store says of each identifier, in the order of the list.
abbrev pub entries : List TrustedPeer → Dict Bytes (Bytes × ℕ)
entries [] = []
entries (p ∷ peers) = (p.peer_id, (p.nickname, p.saved_at)) ∷ entries peers

module _ (codec : Codec (List TrustedPeer)) where
  -- The file holds a list whose map is given.
  pub record IsStore (f : File) (store : Dict Bytes (Bytes × ℕ)) : Type 0 where
    pub peers : List TrustedPeer
    pub readable : load codec f ≡ ok peers
    pub same : entries peers ≡ store
