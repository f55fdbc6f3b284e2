-- ===== src/Security/Session/Channel.antt =====
-- What two sessions with matching keys and directions do with each other's packets.
use decentralized_p2p_chat_s.Base.{
  ℕ, ◌+◌, ◌%◌, ◌^◌, ◌<◌, ◌≡◌, ◌≢◌, refl, ap, ◌∙◌, map, List, [], ◌∷◌, some, Result, ok, err, arith,
  if◌then◌else◌, Bytes, length, All,
}
use decentralized_p2p_chat_s.Text.{split}
use decentralized_p2p_chat_s.Text.Trim.{split_pair}
use decentralized_p2p_chat_s.Base64.{std, encode, decode_std}
use decentralized_p2p_chat_s.Base64.RoundTrip.{IsByte, decode_std-encode, encode_no_dot}
use decentralized_p2p_chat_s.Security.Replay.{accept_counter}
use decentralized_p2p_chat_s.Security.Replay.Refinement.{accept_counter-above}
use decentralized_p2p_chat_s.Security.Session.Nonce.{
  low_bytes-IsByte, length-low_bytes, uint64-low_bytes,
}
use decentralized_p2p_chat_s.Security.Session.{
  Cipher, Session, SessionError, wrong_direction, replayed, nonce_of, packet, finish, open_ct,
  check_nonce, open_parts, open_packet, encrypt, decrypt, seal_next,
}

-- What the documentation of an AEAD promises: opening gives back what was sealed under the same
-- key and nonce, and a ciphertext is a byte string.
pub record IsLawful (cipher : Cipher) : Type 0 where
  pub open-seal :
      (key nonce plain : Bytes)
      → cipher.open_sealed key nonce (cipher.seal key nonce plain) ≡ some plain
  pub seal-IsByte : (key nonce plain : Bytes) → All IsByte (cipher.seal key nonce plain)

pub nonce_of-IsByte : (dir ctr : ℕ) → dir < 256 → All IsByte (nonce_of dir ctr)
nonce_of-IsByte dir ctr h = (h, (omega arith, (omega arith, (omega arith, low_bytes-IsByte 8 ctr))))

module _ (cipher : Cipher) (lawful : IsLawful cipher) where
  split-packet :
      (key : Bytes) (dir ctr : ℕ) (plain : Bytes)
      → dir < 256
      → split b'.' (packet cipher key dir ctr plain)
        ≡ encode std (nonce_of dir ctr) ∷ encode std (cipher.seal key (nonce_of dir ctr) plain) ∷ []
  split-packet key dir ctr plain h =
      split_pair b'.' _ _ (encode_no_dot std (nonce_of dir ctr) (nonce_of-IsByte dir ctr h))
        (encode_no_dot std _ (lawful.seal-IsByte key (nonce_of dir ctr) plain))

  module _ (s : Session) (key : Bytes) (ctr : ℕ) (plain : Bytes) (fits : ctr < 2 ^ 64) where
    finish_packet :
        (dir : ℕ)
        → finish cipher s (nonce_of dir ctr) plain ≡ (
          record s { replay = (accept_counter s.replay ctr).0 },
          if (accept_counter s.replay ctr).1 then ok plain else err replayed,
        )
    unfolding finish
    finish_packet dir = rw (uint64-low_bytes 8 ctr fits)

    open_ct_packet :
        (dir : ℕ)
        → open_ct cipher s key (nonce_of dir ctr) (some (cipher.seal key (nonce_of dir ctr) plain))
          ≡ finish cipher s (nonce_of dir ctr) plain
    unfolding open_ct
    open_ct_packet dir = rw (lawful.open-seal key (nonce_of dir ctr) plain, open_ct)

    check_nonce_packet :
        (dir : ℕ) (second : Bytes)
        → s.recv_dir ≡ dir
        → check_nonce cipher s key second (some (nonce_of dir ctr))
          ≡ open_ct cipher s key (nonce_of dir ctr) (decode_std second)
    unfolding check_nonce
    check_nonce_packet dir second directed = ground (arith, length-low_bytes 8 ctr)

    -- A packet of the peer: the replay window alone decides whether its text is returned, and the
    -- window is all that changes.
    pub decrypt-packet :
        (dir : ℕ)
        → dir < 256
        → s.recv_aead ≡ some key
        → s.recv_dir ≡ dir
        → decrypt cipher s (packet cipher key dir ctr plain) ≡ (
          record s { replay = (accept_counter s.replay ctr).0 },
          if (accept_counter s.replay ctr).1 then ok plain else err replayed,
        )
    unfolding decrypt open_packet open_parts
    decrypt-packet dir small keyed directed =
        ap (open_packet cipher s (packet cipher key dir ctr plain)) keyed
        ∙ ap (open_parts cipher s key) (split-packet key dir ctr plain small)
        ∙ ap (check_nonce cipher s key _)
            (decode_std-encode (nonce_of dir ctr) (nonce_of-IsByte dir ctr small))
        ∙ check_nonce_packet dir _ directed
        ∙ ap (open_ct cipher s key (nonce_of dir ctr))
            (decode_std-encode _ (lawful.seal-IsByte key (nonce_of dir ctr) plain))
        ∙ open_ct_packet dir
        ∙ finish_packet dir

-- The two ends of one direction.
pub record Matches (a b : Session) (key : Bytes) : Type 0 where
  pub sends : a.send_aead ≡ some key
  pub receives : b.recv_aead ≡ some key
  pub direction : b.recv_dir ≡ a.send_dir
  pub small : a.send_dir < 256

module _ (cipher : Cipher) where
  pub encrypt-packet :
      (s : Session) (key plain : Bytes)
      → s.send_aead ≡ some key
      → encrypt cipher s plain ≡ (
        record s { send_ctr = (s.send_ctr + 1) % 2 ^ 64 },
        ok (packet cipher key s.send_dir ((s.send_ctr + 1) % 2 ^ 64) plain),
      )
  unfolding encrypt seal_next
  encrypt-packet s key plain keyed = ap (seal_next cipher s plain) keyed

  -- Sends the texts one after the other, and lets the peer decrypt each packet as it comes.
  pub exchange : Session → Session → List Bytes → List (Result SessionError Bytes)
  exchange a b [] = []
  exchange a b (plain ∷ rest) =
      let (a', sent) = encrypt cipher a plain in
      elim sent [
        | err e ↦ err e ∷ exchange a' b rest
        | ok text ↦ let (b', got) = decrypt cipher b text in got ∷ exchange a' b' rest
      ]

module _ (cipher : Cipher) (lawful : IsLawful cipher) where
  exchange_step :
      (a b : Session) (key plain : Bytes) (rest : List Bytes)
      → Matches a b key
      → b.replay.recv_max ≡ a.send_ctr
      → a.send_ctr + 1 < 2 ^ 64
      → exchange cipher a b (plain ∷ rest)
        ≡ ok plain
          ∷ exchange cipher
              (record a { send_ctr = a.send_ctr + 1 })
              (record b { replay = (accept_counter b.replay (a.send_ctr + 1)).0 })
              rest
  unfolding exchange
  exchange_step a b key plain rest m level fits = ground (
    arith,
    encrypt-packet cipher a key plain m.sends,
    decrypt-packet cipher lawful b key (a.send_ctr + 1) plain fits a.send_dir m.small m.receives
        m.direction,
    accept_counter-above b.replay (a.send_ctr + 1) (omega (arith, level)),
  )

  -- Two matching sessions, of which the receiver's greatest counter is the sender's last one, pass
  -- every sequence of texts on unchanged and in order, as long as the sender's counter stays below
  -- 2 ^ 64.
  pub exchange-eq-map :
      (a b : Session) (key : Bytes) (texts : List Bytes)
      → Matches a b key
      → b.replay.recv_max ≡ a.send_ctr
      → a.send_ctr + length texts < 2 ^ 64
      → exchange cipher a b texts ≡ map ok texts
  exchange-eq-map a b key [] m level fits = unfold exchange in refl
  exchange-eq-map a b key (plain ∷ rest) m level fits =
      exchange_step a b key plain rest m level (omega arith)
      ∙ ap (λ l. ok plain ∷ l)
          (exchange-eq-map (record a { send_ctr = a.send_ctr + 1 })
            (record b { replay = (accept_counter b.replay (a.send_ctr + 1)).0 }) key rest
            (record {
              sends = m.sends;
              receives = m.receives;
              direction = m.direction;
              small = m.small;
            })
            ((accept_counter-above b.replay (a.send_ctr + 1) (omega (arith, level))).1)
            (omega arith))

  -- A packet that comes back to its own sender is refused as of the wrong direction, even if the
  -- keys of both directions were the same, and the session stays as it was.
  pub decrypt-reflected :
      (s : Session) (key other plain : Bytes) (ctr : ℕ)
      → s.recv_aead ≡ some key
      → s.send_dir < 256
      → s.recv_dir ≢ s.send_dir
      → decrypt cipher s (packet cipher other s.send_dir ctr plain) ≡ (s, err wrong_direction)
  unfolding decrypt open_packet open_parts
  decrypt-reflected s key other plain ctr keyed small apart =
      ap (open_packet cipher s (packet cipher other s.send_dir ctr plain)) keyed
      ∙ ap (open_parts cipher s key) (split-packet cipher lawful other s.send_dir ctr plain small)
      ∙ ap (check_nonce cipher s key _)
          (decode_std-encode (nonce_of s.send_dir ctr) (nonce_of-IsByte s.send_dir ctr small))
      ∙ refused
    where
      refused :
          check_nonce cipher s key
            (encode std (cipher.seal other (nonce_of s.send_dir ctr) plain))
            (some (nonce_of s.send_dir ctr))
          ≡ (s, err wrong_direction)
      refused = unfold check_nonce in ground (arith, length-low_bytes 8 ctr)
