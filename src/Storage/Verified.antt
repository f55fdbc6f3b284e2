-- ===== src/Storage/Verified.antt =====
-- storage/verifications.go: `VerificationStore`, which peers the user has verified. The mutex is not
-- modelled.
pub mod Sorted
pub mod Laws
use decentralized_p2p_chat_s.Base.{
  ℕ, ◌≡◌, refl, Bool, true, false, List, [], ◌∷◌, Option, none, some, Result, ok, err, ◌==◌,
  bytes_eq, bytes_lt, if◌then◌else◌, Bytes, map, select,
}
use decentralized_p2p_chat_s.Base.Dict.{Dict, lookup, insert, erase}
use decentralized_p2p_chat_s.Storage.{File, Codec, StoreError, Outcome, load, loaded, save}

-- The time is in nanoseconds.
pub record Verification : Type 0 where
  pub peer_id : Bytes
  pub verified : Bool
  pub updated_at : ℕ

-- The map from the records, where a later record replaces an earlier one.
unfoldable pub collect : Dict Bytes Verification → List Verification → Dict Bytes Verification
collect by_id [] = by_id
collect by_id (r ∷ records) = collect (insert r.peer_id r by_id) records

-- `sort.Slice` by the identifier, as an insertion sort. The keys of the map differ, so the result
-- does not depend on the order of the map.
unfoldable pub place : Verification → List Verification → List Verification
place r [] = r ∷ []
place r (x ∷ xs) = if bytes_lt x.peer_id r.peer_id then x ∷ place r xs else r ∷ x ∷ xs

unfoldable pub sort_values : Dict Bytes Verification → List Verification
unfolding place
sort_values [] = []
sort_values ((_, r) ∷ d) = place r (sort_values d)

-- `SetVerified`: the file, and whether the error is nil. An error of `load` is ignored.
unfoldable pub mark : ℕ → Bytes → Bool → Dict Bytes Verification → Dict Bytes Verification
mark now peer_id true by_id =
    insert peer_id (record { peer_id = peer_id; verified = true; updated_at = now }) by_id
mark now peer_id false by_id = erase peer_id by_id

unfoldable pub set_verified :
    Codec (List Verification) → Outcome → ℕ → File → Bytes → Bool → File × Bool
unfolding collect sort_values mark
set_verified codec outcome now f peer_id verified =
    save codec outcome f (sort_values (mark now peer_id verified (collect [] (loaded codec f))))

-- The loop of `IsVerified`.
unfoldable pub find : Bytes → List Verification → Option Verification
find peer_id [] = none
find peer_id (r ∷ records) = if r.peer_id == peer_id then some r else find peer_id records

-- `IsVerified`
unfoldable pub is_verified : Codec (List Verification) → File → Bytes → Bool
unfolding find
is_verified codec f peer_id = elim (load codec f) [
  | err e ↦ false
  | ok records ↦ elim (find peer_id records) [ none ↦ false | some r ↦ r.verified ]
]

-- `sort.Strings`
place_text : Bytes → List Bytes → List Bytes
place_text s [] = s ∷ []
place_text s (x ∷ xs) = if bytes_lt x s then x ∷ place_text s xs else s ∷ x ∷ xs

sort_texts : List Bytes → List Bytes
unfolding place_text
sort_texts [] = []
sort_texts (s ∷ ss) = place_text s (sort_texts ss)

-- `VerifiedPeerIDs`
unfoldable pub verified_peer_ids : Codec (List Verification) → File → Result StoreError (List Bytes)
unfolding sort_texts
verified_peer_ids codec f = elim (load codec f) [
  | err e ↦ err e
  | ok records ↦ ok (sort_texts (map (λ r. r.peer_id) (select (λ r. r.verified) records)))
]
