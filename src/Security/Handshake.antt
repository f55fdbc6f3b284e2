-- ===== src/Security/Handshake.antt =====
-- security/e2ee.go: `Handshake`, `handshakeTranscript` and `deriveKey`. Key agreement, signatures,
-- HKDF and the cipher's construction are parameters, and so are the random scalar and the stream.
pub mod Agreement
pub mod Identity
use decentralized_p2p_chat_s.Base.{
  ℕ, ◌≡◌, refl, Bool, true, false, not, ◌||◌, List, [], ◌∷◌, ◌++◌, Option, none, some, Result, ok,
  err, ◌>>=◌, ◌>>◌, guard, or_fail, eqb, ◌==◌, bytes_eq, if◌then◌else◌, Bytes, length, codes,
  bytes_lt,
}
use decentralized_p2p_chat_s.Text.{trim_space, sort_pair}
use decentralized_p2p_chat_s.Base64.{std, encode, decode_std}
use decentralized_p2p_chat_s.Security.Replay.{fresh_replay}
use decentralized_p2p_chat_s.Security.Session.{Session}

-- `none` is an error of the function that the field stands for.
pub record Crypto : Type 1 where
  pub PrivKey : Type 0
  pub PubKey : Type 0
  pub get_public : PrivKey → PubKey
  pub raw : PubKey → Option Bytes
  pub sign : PrivKey → Bytes → Option Bytes
  pub verify : PubKey → Bytes → Bytes → Option Bool
  pub basepoint : Bytes
  pub x25519 : Bytes → Bytes → Option Bytes
  -- secret, salt and info
  pub hkdf : Bytes → Bytes → Bytes → Option Bytes
  pub new_aead : Bytes → Option Bytes

pub data HandshakeError : Type 0 where
  missing_identity no_randomness bad_scalar write_failed read_failed : HandshakeError
  invalid_public_key no_shared_key bad_identity sign_failed : HandshakeError
  invalid_signature verify_failed unverified derive_failed same_ephemeral : HandshakeError

-- The stream: whether a write after the lines sent so far succeeds, and the line that is read
-- after them, with its newline.
pub record Stream : Type 0 where
  pub can_write : List Bytes → Bool
  pub answer : List Bytes → Option Bytes

-- `bytes.Join(…, "|")`
abbrev pub join_bar : List Bytes → Bytes
join_bar [] = []
join_bar (x ∷ []) = x
join_bar (x ∷ y ∷ rest) = x ++ b'|' ∷ join_bar (y ∷ rest)

unfoldable pub transcript_of : Bytes → Bytes → Bytes → Bytes → Bytes
unfolding sort_pair
transcript_of local_key remote_key local_id remote_id =
    let (e, f) = sort_pair local_key remote_key in
    let (i, j) = sort_pair local_id remote_id in
    join_bar (codes "p2pchat-handshake-v2" ∷ e ∷ f ∷ i ∷ j ∷ [])

-- A base64 line, as it is sent.
abbrev pub line_of : Bytes → Bytes
line_of s = encode std s ++ 10 ∷ []

abbrev pub low_to_high : ℕ
low_to_high = 1

abbrev pub high_to_low : ℕ
high_to_low = 2

-- The last step: the side with the lower ephemeral key sends from low to high.
unfoldable pub assign : Bytes → Bytes → Bytes → Bytes → Result HandshakeError Session
assign pub_key peer_pub low high =
    if bytes_lt pub_key peer_pub
    then ok (record {
      send_aead = some low;
      recv_aead = some high;
      send_dir = low_to_high;
      recv_dir = high_to_low;
      send_ctr = 0;
      replay = fresh_replay;
    })
    else (if bytes_lt peer_pub pub_key
        then ok (record {
          send_aead = some high;
          recv_aead = some low;
          send_dir = high_to_low;
          recv_dir = low_to_high;
          send_ctr = 0;
          replay = fresh_replay;
        })
        else err same_ephemeral)

-- A line with base64 content of an acceptable length.
unfoldable pub read_base64 :
    Option Bytes → (Bytes → Bool) → HandshakeError → Result HandshakeError Bytes
read_base64 received fits e = do
  line ← or_fail received read_failed
  content ← or_fail (decode_std (trim_space line)) e
  guard (fits content) e
  ok content

module _ (crypto : Crypto) where
  unfoldable pub handshake_transcript :
      Bytes → Bytes → crypto.PubKey → crypto.PubKey → Result HandshakeError Bytes
  handshake_transcript local_key remote_key local_identity remote_identity = do
    local_id ← or_fail (crypto.raw local_identity) bad_identity
    remote_id ← or_fail (crypto.raw remote_identity) bad_identity
    ok (transcript_of local_key remote_key local_id remote_id)

  unfoldable pub derive_key : Bytes → Bytes → Bytes → Result HandshakeError Bytes
  derive_key shared transcript info = or_fail (crypto.hkdf shared transcript info) derive_failed

  -- The two keys, from the shared secret and the transcript, and the session.
  unfoldable pub establish : Bytes → Bytes → Bytes → Bytes → Result HandshakeError Session
  unfolding derive_key assign
  establish shared transcript pub_key peer_pub = do
    low_key ← derive_key shared transcript (codes "p2pchat-v2-low-to-high")
    high_key ← derive_key shared transcript (codes "p2pchat-v2-high-to-low")
    low ← or_fail (crypto.new_aead low_key) derive_failed
    high ← or_fail (crypto.new_aead high_key) derive_failed
    assign pub_key peer_pub low high

  -- Signature exchange and verification.
  unfoldable pub authenticate :
      Stream
      → List Bytes
      → Bytes
      → crypto.PrivKey
      → crypto.PubKey
      → Result HandshakeError (Unit {0})
  unfolding read_base64
  authenticate stream sent transcript local_identity remote_identity = do
    signature ← or_fail (crypto.sign local_identity transcript) sign_failed
    guard (stream.can_write sent) write_failed
    peer_signature ←
        read_base64 (stream.answer (line_of signature ∷ sent)) (λ s. not (eqb (length s) 0))
          invalid_signature
    verified ← or_fail (crypto.verify remote_identity transcript peer_signature) verify_failed
    guard verified unverified

  -- `Handshake` with both identities given, from the scalar that `rand.Read` gave, if it did.
  unfoldable pub run_handshake :
      Option Bytes → Stream → crypto.PrivKey → crypto.PubKey → Result HandshakeError Session
  unfolding read_base64 handshake_transcript authenticate establish
  run_handshake random stream local_identity remote_identity = do
    priv ← or_fail random no_randomness
    pub_key ← or_fail (crypto.x25519 priv crypto.basepoint) bad_scalar
    guard (stream.can_write []) write_failed
    peer_pub ←
        read_base64 (stream.answer (line_of pub_key ∷ [])) (λ s. eqb (length s) 32)
          invalid_public_key
    shared ← or_fail (crypto.x25519 priv peer_pub) no_shared_key
    transcript ←
        handshake_transcript pub_key peer_pub (crypto.get_public local_identity) remote_identity
    authenticate stream (line_of pub_key ∷ []) transcript local_identity remote_identity
    establish shared transcript pub_key peer_pub

  -- `Handshake`, where either identity may be nil.
  unfoldable pub handshake :
      Option Bytes
      → Stream
      → Option crypto.PrivKey
      → Option crypto.PubKey
      → Result HandshakeError Session
  unfolding run_handshake
  handshake random stream (some local_identity) (some remote_identity) =
      run_handshake random stream local_identity remote_identity
  handshake random stream none _ = err missing_identity
  handshake random stream (some _) none = err missing_identity
