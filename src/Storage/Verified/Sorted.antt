-- ===== src/Storage/Verified/Sorted.antt =====
-- The records in the order of their identifiers.
use decentralized_p2p_chat_s.Base.{
  ◌≡◌, refl, true, List, [], ◌∷◌, none, some, arith, ◌==◌, bytes_eq, bytes_lt, bytes_lt_irrefl,
  bytes_lt_connected, bytes_lt_trans, if◌then◌else◌, Bytes, All, Bool-cases, inl, inr, sym, ◌∙◌,
  subst,
}
use decentralized_p2p_chat_s.Base.Dict.{Dict, lookup}
use decentralized_p2p_chat_s.Storage.Verified.{Verification, place, sort_values, find}

-- Every record comes before those that follow it.
abbrev pub IsSorted : List Verification → Type 0
IsSorted [] = Unit {0}
IsSorted (r ∷ rs) = All (λ x. bytes_lt r.peer_id x.peer_id ≡ true) rs × IsSorted rs

-- Each key is its record's identifier, and stands once.
abbrev pub IsTidy : Dict Bytes Verification → Type 0
IsTidy [] = Unit {0}
IsTidy ((k, r) ∷ d) = (r.peer_id ≡ k) × (lookup k d ≡ none) × IsTidy d

-- What comes after every record is not found.
pub find-All :
    (k : Bytes) (rs : List Verification)
    → All (λ x. bytes_lt k x.peer_id ≡ true) rs
    → find k rs ≡ none
unfolding find
find-All k [] a = refl
find-All k (r ∷ rs) a = ground (arith, bytes_lt_irrefl k, find-All k rs a.1)

find-place :
    (k : Bytes) (r : Verification) (rs : List Verification)
    → find r.peer_id rs ≡ none
    → find k (place r rs) ≡ (if k == r.peer_id then some r else find k rs)
unfolding find place
find-place k r [] h = ground arith
find-place k r (x ∷ xs) h = ground (arith, find-place k r xs)

All-place :
    (k : Bytes) (r : Verification) (rs : List Verification)
    → bytes_lt k r.peer_id ≡ true
    → All (λ x. bytes_lt k x.peer_id ≡ true) rs
    → All (λ x. bytes_lt k x.peer_id ≡ true) (place r rs)
unfolding place
All-place k r [] h a = (h, tt)
All-place k r (x ∷ xs) h a = elim (Bool-cases (bytes_lt x.peer_id r.peer_id)) [
  | inl b ↦ rw b (a.0, All-place k r xs h a.1)
  | inr b ↦ rw b (h, a)
]

All-trans :
    (j k : Bytes) (rs : List Verification)
    → bytes_lt j k ≡ true
    → All (λ x. bytes_lt k x.peer_id ≡ true) rs
    → All (λ x. bytes_lt j x.peer_id ≡ true) rs
All-trans j k [] h a = tt
All-trans j k (r ∷ rs) h a = (bytes_lt_trans j k r.peer_id h a.0, All-trans j k rs h a.1)

place-IsSorted :
    (r : Verification) (rs : List Verification)
    → find r.peer_id rs ≡ none
    → IsSorted rs
    → IsSorted (place r rs)
unfolding place find
place-IsSorted r [] h s = (tt, tt)
place-IsSorted r (x ∷ xs) h s = elim (Bool-cases (bytes_lt x.peer_id r.peer_id)) [
  | inl b ↦ rw b (All-place x.peer_id r xs b s.0, place-IsSorted r xs (ground arith) s.1)
  | inr b ↦
      let lt : bytes_lt r.peer_id x.peer_id ≡ true =
        ground (arith, bytes_lt_connected x.peer_id r.peer_id) in
      rw b ((lt, All-trans r.peer_id x.peer_id xs lt s.0), s)
]

-- The sorted values of a tidy map are sorted, and say what the map says.
pub sort_values-find :
    (k : Bytes) (d : Dict Bytes Verification) → IsTidy d → find k (sort_values d) ≡ lookup k d
unfolding sort_values find lookup
sort_values-find k [] t = refl
sort_values-find k ((j, r) ∷ d) t = ground (
  arith,
  find-place k r (sort_values d),
  sort_values-find r.peer_id d t.2,
  sort_values-find k d t.2,
)

pub sort_values-IsSorted : (d : Dict Bytes Verification) → IsTidy d → IsSorted (sort_values d)
unfolding sort_values
sort_values-IsSorted [] t = tt
sort_values-IsSorted ((k, r) ∷ d) t =
    place-IsSorted r (sort_values d)
      (subst (λ j. find j (sort_values d) ≡ none) (sym t.0) (sort_values-find k d t.2 ∙ t.1))
      (sort_values-IsSorted d t.2)
