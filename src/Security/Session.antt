-- ===== src/Security/Session.antt =====
-- security/e2ee.go: `Session`, `Encrypt` and `Decrypt`. The cipher (`chacha20poly1305`) is a parameter.
pub mod Nonce
pub mod Channel
pub mod Errors
use decentralized_p2p_chat_s.Base.{
  ℕ, zero, suc, ◌+◌, ◌-◌, ◌*◌, ◌/◌, ◌%◌, ◌^◌, ◌≡◌, refl, Bool, true, false, List, [], ◌∷◌, ◌++◌,
  Option, none, some, Result, ok, err, eqb, if◌then◌else◌, Bytes, length, drop,
}
use decentralized_p2p_chat_s.Text.{split}
use decentralized_p2p_chat_s.Base64.{std, encode, decode_std}
use decentralized_p2p_chat_s.Security.Replay.{Replay, accept_counter}
use Nonce.{put_uint64, uint64}

-- An AEAD keyed by its key: `Seal` and `Open` with no additional data.
pub record Cipher : Type 0 where
  pub seal : Bytes → Bytes → Bytes → Bytes
  pub open_sealed : Bytes → Bytes → Bytes → Option Bytes

pub record Session : Type 0 where
  pub send_aead : Option Bytes
  pub recv_aead : Option Bytes
  pub send_dir : ℕ
  pub recv_dir : ℕ
  pub send_ctr : ℕ
  pub replay : Replay

pub data SessionError : Type 0 where
  not_initialized invalid_format invalid_nonce wrong_direction : SessionError
  invalid_ciphertext auth_failed replayed : SessionError

-- The nonce: the direction, three zero bytes and the counter.
abbrev pub nonce_of : ℕ → ℕ → Bytes
nonce_of dir ctr = dir ∷ 0 ∷ 0 ∷ 0 ∷ put_uint64 ctr

-- The value at an index of a byte slice that is known to be long enough.
abbrev first_byte : Bytes → ℕ
first_byte [] = 0
first_byte (a ∷ s) = a

module _ (cipher : Cipher) where
  -- The packet of a nonce and a ciphertext.
  abbrev pub packet : Bytes → ℕ → ℕ → Bytes → Bytes
  packet key dir ctr plain =
      encode std (nonce_of dir ctr) ++ b'.' ∷ encode std (cipher.seal key (nonce_of dir ctr) plain)

  seal_next : Session → Bytes → Option Bytes → Session × Result SessionError Bytes
  seal_next s plain none = (s, err not_initialized)
  seal_next s plain (some key) =
      let ctr = (s.send_ctr + 1) % 2 ^ 64 in
      (record s { send_ctr = ctr }, ok (packet key s.send_dir ctr plain))

  unfoldable pub encrypt : Session → Bytes → Session × Result SessionError Bytes
  unfolding seal_next
  encrypt s plain = seal_next s plain s.send_aead

  -- After the tag is verified: the replay check.
  finish : Session → Bytes → Bytes → Session × Result SessionError Bytes
  finish s nonce plain =
      let (r, fresh) = accept_counter s.replay (uint64 (drop 4 nonce)) in
      (record s { replay = r }, if fresh then ok plain else err replayed)

  open_ct : Session → Bytes → Bytes → Option Bytes → Session × Result SessionError Bytes
  unfolding finish
  open_ct s key nonce none = (s, err invalid_ciphertext)
  open_ct s key nonce (some ct) = elim (cipher.open_sealed key nonce ct) [
    | none ↦ (s, err auth_failed)
    | some plain ↦ finish s nonce plain
  ]

  check_nonce : Session → Bytes → Bytes → Option Bytes → Session × Result SessionError Bytes
  unfolding open_ct
  check_nonce s key second none = (s, err invalid_nonce)
  check_nonce s key second (some nonce) =
      if eqb (length nonce) 12
      then (if eqb (first_byte nonce) s.recv_dir
          then open_ct s key nonce (decode_std second)
          else (s, err wrong_direction))
      else (s, err invalid_nonce)

  open_parts : Session → Bytes → List Bytes → Session × Result SessionError Bytes
  unfolding check_nonce
  open_parts s key (first ∷ second ∷ []) = check_nonce s key second (decode_std first)
  open_parts s key _ = (s, err invalid_format)

  open_packet : Session → Bytes → Option Bytes → Session × Result SessionError Bytes
  unfolding open_parts
  open_packet s text none = (s, err not_initialized)
  open_packet s text (some key) = open_parts s key (split b'.' text)

  unfoldable pub decrypt : Session → Bytes → Session × Result SessionError Bytes
  unfolding open_packet
  decrypt s text = open_packet s text s.recv_aead
