-- ===== src/Storage/Verified/Laws.antt =====
-- What `SetVerified` does to `IsVerified`.
use decentralized_p2p_chat_s.Base.{◌≡◌, Bool, false, List, Option, none, some, ok, bytes_eq}
use decentralized_p2p_chat_s.Base.Dict.{Dict}
use decentralized_p2p_chat_s.Storage.{File, Codec, load}
use decentralized_p2p_chat_s.Storage.Verified.{Verification}
use decentralized_p2p_chat_s.Storage.Verified.Sorted.{IsSorted}

-- The verdict of a search.
abbrev verdict : Option Verification → Bool
verdict none = false
verdict (some r) = r.verified

module _ (codec : Codec (List Verification)) where
  -- The file holds a list that is sorted by the identifiers, each of which stands once.
  pub record IsStore (f : File) : Type 0 where
    pub records : List Verification
    pub readable : load codec f ≡ ok records
    pub sorted : IsSorted records
