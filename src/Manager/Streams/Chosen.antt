-- ===== src/Manager/Streams/Chosen.antt =====
-- The peers that `switchPeer` can choose are connected.
use decentralized_p2p_chat_s.Base.{
  ℕ, zero, suc, ◌≡◌, ◌≢◌, subst, List, [], ◌∷◌, Option, none, some, arith, bytes_eq, bytes_lt,
  Bytes, All, All-map, get_elem?, inl, inr, Bool-cases,
}
use decentralized_p2p_chat_s.Base.Dict.{Dict, lookup}
use decentralized_p2p_chat_s.Base.Int.{ℤ, pos, negsuc}
use decentralized_p2p_chat_s.Manager.{Env, Manager}
use decentralized_p2p_chat_s.Manager.Streams.{place_peer, sorted_peers, chosen_peer}

place_peer-All :
    (env : Env) (P : Bytes → Type 0) (peer : Bytes) (peers : List Bytes)
    → P peer
    → All P peers
    → All P (place_peer env peer peers)
unfolding place_peer
place_peer-All env P peer [] h a = (h, tt)
place_peer-All env P peer (p ∷ peers) h a =
    elim (Bool-cases (bytes_lt (env.id_string p) (env.id_string peer))) [
      | inl b ↦ rw b (a.0, place_peer-All env P peer peers h a.1)
      | inr b ↦ rw b (h, a)
    ]

-- The peers that can be chosen are connected.
sorted_peers-All :
    (env : Env) (d : Dict Bytes ℕ) → All (λ p. lookup p d ≢ none) (sorted_peers env d)
unfolding sorted_peers lookup
sorted_peers-All env [] = tt
sorted_peers-All env ((peer, stream) ∷ d) =
    place_peer-All env (λ p. lookup p ((peer, stream) ∷ d) ≢ none) peer (sorted_peers env d)
      (λ h. ground arith)
      (All-map {P = λ p. lookup p d ≢ none} {Q = λ p. lookup p ((peer, stream) ∷ d) ≢ none}
        (λ p h k. ground (arith, h)) (sorted_peers env d) (sorted_peers-All env d))

All-get_elem? :
    (P : Bytes → Type 0) (peers : List Bytes) (n : ℕ) (p : Bytes)
    → All P peers
    → get_elem? peers n ≡ some p
    → P p
All-get_elem? P [] n p a h = let bad : ⊥ = cc h in absurd bad
All-get_elem? P (x ∷ xs) zero p a h = let same : x ≡ p = cc h in subst P same a.0
All-get_elem? P (x ∷ xs) (suc n) p a h = All-get_elem? P xs n p a.1 h

-- The peer that `switchPeer` chooses is connected at that time.
pub chosen_peer-connected :
    (env : Env) (m : Manager) (number : Option ℤ) (p : Bytes)
    → chosen_peer env m number ≡ some p
    → lookup p m.streams ≢ none
unfolding chosen_peer
chosen_peer-connected env m none p h = let bad : ⊥ = cc h in absurd bad
chosen_peer-connected env m (some (negsuc n)) p h = let bad : ⊥ = cc h in absurd bad
chosen_peer-connected env m (some (pos zero)) p h = let bad : ⊥ = cc h in absurd bad
chosen_peer-connected env m (some (pos (suc n))) p h =
    All-get_elem? (λ p. lookup p m.streams ≢ none) (sorted_peers env m.streams) n p
      (sorted_peers-All env m.streams) h
