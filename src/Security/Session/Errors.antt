-- ===== src/Security/Session/Errors.antt =====
-- What `Decrypt` does when it refuses a packet.
use decentralized_p2p_chat_s.Base.{
  ◌≡◌, refl, true, List, [], ◌∷◌, Option, none, some, Result, ok, err, arith, eqb, Bytes, length,
  drop, Bool-cases, inl, inr,
}
use decentralized_p2p_chat_s.Text.{split}
use decentralized_p2p_chat_s.Base64.{decode_std}
use decentralized_p2p_chat_s.Security.Replay.{accept_counter}
use decentralized_p2p_chat_s.Security.Replay.Refinement.{accept_counter_refused}
use decentralized_p2p_chat_s.Security.Session.Nonce.{uint64}
use decentralized_p2p_chat_s.Security.Session.{
  Cipher, Session, SessionError, first_byte, finish, open_ct, check_nonce, open_parts, open_packet,
  decrypt,
}

abbrev Outcome : Type 0
Outcome = Session × Result SessionError Bytes

-- How a text comes out of a packet: both halves are base64, the nonce is twelve bytes and of the
-- right direction, the cipher opens the ciphertext, and the replay window takes the counter.
pub record Opens (cipher : Cipher) (s : Session) (text plain : Bytes) : Type 0 where
  pub key : Bytes
  pub first : Bytes
  pub second : Bytes
  pub nonce : Bytes
  pub ct : Bytes
  pub keyed : s.recv_aead ≡ some key
  pub parts : split b'.' text ≡ first ∷ second ∷ []
  pub first_half : decode_std first ≡ some nonce
  pub second_half : decode_std second ≡ some ct
  pub twelve : length nonce ≡ 12
  pub directed : first_byte nonce ≡ s.recv_dir
  pub authentic : cipher.open_sealed key nonce ct ≡ some plain
  pub fresh : (accept_counter s.replay (uint64 (drop 4 nonce))).1 ≡ true

-- An error leaves the session alone.
abbrev pub IsSound : Cipher → Session → Bytes → Outcome → Type 0
IsSound cipher s text (s', err e) = s' ≡ s
IsSound cipher s text (s', ok plain) = Opens cipher s text plain

module _ (cipher : Cipher) (s : Session) (text key : Bytes) (keyed : s.recv_aead ≡ some key) where
  module _ (first second : Bytes) (parts : split b'.' text ≡ first ∷ second ∷ []) where
    module _ (nonce : Bytes) (first_half : decode_std first ≡ some nonce)
        (twelve : length nonce ≡ 12) (directed : first_byte nonce ≡ s.recv_dir) where
      finish-IsSound :
          (ct plain : Bytes)
          → decode_std second ≡ some ct
          → cipher.open_sealed key nonce ct ≡ some plain
          → IsSound cipher s text (finish cipher s nonce plain)
      unfolding finish
      finish-IsSound ct plain second_half authentic =
          elim (Bool-cases (accept_counter s.replay (uint64 (drop 4 nonce))).1) [
            | inl e ↦ rw e (record {
              key = key;
              first = first;
              second = second;
              nonce = nonce;
              ct = ct;
              keyed = keyed;
              parts = parts;
              first_half = first_half;
              second_half = second_half;
              twelve = twelve;
              directed = directed;
              authentic = authentic;
              fresh = e;
            })
            | inr e ↦ rw (e, accept_counter_refused s.replay _ e) refl
          ]

      open_sealed-IsSound :
          (ct : Bytes) (o : Option Bytes)
          → decode_std second ≡ some ct
          → cipher.open_sealed key nonce ct ≡ o
          → IsSound cipher s text (open_ct cipher s key nonce (some ct))
      unfolding open_ct
      open_sealed-IsSound ct none h e = rw (e, open_ct) refl
      open_sealed-IsSound ct (some plain) h e = rw (e, open_ct) (finish-IsSound ct plain h e)

      open_ct-IsSound :
          (o : Option Bytes)
          → decode_std second ≡ o
          → IsSound cipher s text (open_ct cipher s key nonce o)
      open_ct-IsSound none h = unfold open_ct in refl
      open_ct-IsSound (some ct) h = open_sealed-IsSound ct _ h refl

    check_nonce-IsSound :
        (o : Option Bytes)
        → decode_std first ≡ o
        → IsSound cipher s text (check_nonce cipher s key second o)
    unfolding check_nonce
    check_nonce-IsSound none h = refl
    check_nonce-IsSound (some nonce) h = elim (Bool-cases (eqb (length nonce) 12)) [
      | inr e ↦ rw e refl
      | inl e ↦ rw e (elim (Bool-cases (eqb (first_byte nonce) s.recv_dir)) [
        | inr d ↦ rw d refl
        | inl d ↦
            rw d (open_ct-IsSound nonce h (ground arith) (ground arith) (decode_std second) refl)
      ])
    ]

  open_parts-IsSound :
      (parts : List Bytes)
      → split b'.' text ≡ parts
      → IsSound cipher s text (open_parts cipher s key parts)
  unfolding open_parts
  open_parts-IsSound (first ∷ second ∷ []) h = check_nonce-IsSound first second h _ refl
  open_parts-IsSound [] h = refl
  open_parts-IsSound (first ∷ []) h = refl
  open_parts-IsSound (first ∷ second ∷ third ∷ more) h = refl

-- A packet that `Decrypt` refuses, whatever the reason, leaves the session as it was: no forged,
-- reflected or repeated packet marks a counter as used. One that it accepts has two base64 halves
-- and a nonce of twelve bytes in the session's receive direction, is opened by the receive key's
-- cipher, and carries a counter that the replay window takes.
pub decrypt-IsSound :
    (cipher : Cipher) (s : Session) (text : Bytes) → IsSound cipher s text (decrypt cipher s text)
unfolding decrypt open_packet
decrypt-IsSound cipher s text = go s.recv_aead refl
  where
    go : (o : Option Bytes) → s.recv_aead ≡ o → IsSound cipher s text (open_packet cipher s text o)
    go none h = refl
    go (some key) h = open_parts-IsSound cipher s text key h (split b'.' text) refl
