-- ===== src/Tests/Security.antt =====
-- Examples of the security layer: a toy cipher, and toy keys with which two sides agree.
use decentralized_p2p_chat_s.Base.{
  ℕ, zero, suc, ◌+◌, ◌<◌, ◌≡◌, ◌≢◌, refl, ap, ◌∙◌, true, [], ◌∷◌, Option, some, ok, arith, Bytes,
  All, codes, map, if◌then◌else◌, eqb, cons_head, cons-ne-nil, select, bytes_lt,
}
use decentralized_p2p_chat_s.Base64.{std, encode, encode_char, decode_std}
use decentralized_p2p_chat_s.Text.{trim_space}
use decentralized_p2p_chat_s.Base64.RoundTrip.{IsByte, decode_std-encode}
use decentralized_p2p_chat_s.Security.Replay.{accept_all, accepted, fresh_replay}
use decentralized_p2p_chat_s.Security.Replay.Spec.{answers}
use decentralized_p2p_chat_s.Security.Replay.Refinement.{accept_all-answers, accepted-Fresh, Fresh}
use decentralized_p2p_chat_s.Security.Session.{Cipher, Session, packet, decrypt}
use decentralized_p2p_chat_s.Security.Session.Channel.{IsLawful, Matches, exchange, exchange-eq-map}
use decentralized_p2p_chat_s.Security.Handshake.{Crypto, handshake}
use decentralized_p2p_chat_s.Security.Handshake.Identity.{Authenticated, handshake-Authenticated}
use decentralized_p2p_chat_s.Security.Handshake.Agreement.{
  Party, Meets, Paired, meet, peer_stream, handshake-Paired,
}
use decentralized_p2p_chat_s.Security.Session.Errors.{IsSound, decrypt-IsSound}

accept_all-answers_example :
    accept_all fresh_replay (5 ∷ 3 ∷ 5 ∷ 70 ∷ 4 ∷ []) ≡ answers [] (5 ∷ 3 ∷ 5 ∷ 70 ∷ 4 ∷ [])
accept_all-answers_example = accept_all-answers (5 ∷ 3 ∷ 5 ∷ 70 ∷ 4 ∷ [])

accepted-Fresh_example : Fresh [] (accepted fresh_replay (5 ∷ 3 ∷ 5 ∷ 70 ∷ 4 ∷ []))
accepted-Fresh_example = accepted-Fresh (5 ∷ 3 ∷ 5 ∷ 70 ∷ 4 ∷ [])

decode_std-encode_example : decode_std (encode std (0 ∷ 255 ∷ [])) ≡ some (0 ∷ 255 ∷ [])
decode_std-encode_example = decode_std-encode (0 ∷ 255 ∷ []) (omega arith, (omega arith, tt))

-- A number as that many ones and a zero.
abbrev unary : ℕ → Bytes → Bytes
unary zero rest = 0 ∷ rest
unary (suc n) rest = 1 ∷ unary n rest

abbrev toy_seal : Bytes → Bytes
toy_seal [] = []
toy_seal (n ∷ s) = unary n (toy_seal s)

abbrev count : ℕ → Bytes → Bytes
count n [] = []
count n (a ∷ s) = if eqb a 0 then n ∷ count 0 s else count (suc n) s

abbrev pub toy_cipher : Cipher
toy_cipher = record {
  seal = λ key nonce plain. toy_seal plain;
  open_sealed = λ key nonce s. some (count 0 s);
}

count-unary : (k n : ℕ) (rest : Bytes) → count k (unary n rest) ≡ (k + n) ∷ count 0 rest
count-unary k zero rest = ap (λ m. m ∷ count 0 rest) (omega arith)
count-unary k (suc n) rest = count-unary (suc k) n rest ∙ ap (λ m. m ∷ count 0 rest) (omega arith)

count-toy_seal : (s : Bytes) → count 0 (toy_seal s) ≡ s
count-toy_seal [] = refl
count-toy_seal (n ∷ s) =
    count-unary 0 n (toy_seal s)
    ∙ ap (λ m. m ∷ count 0 (toy_seal s)) (omega arith)
    ∙ ap (λ t. n ∷ t) (count-toy_seal s)

unary-IsByte : (n : ℕ) (rest : Bytes) → All IsByte rest → All IsByte (unary n rest)
unary-IsByte zero rest h = (omega arith, h)
unary-IsByte (suc n) rest h = (omega arith, unary-IsByte n rest h)

toy_seal-IsByte : (s : Bytes) → All IsByte (toy_seal s)
toy_seal-IsByte [] = tt
toy_seal-IsByte (n ∷ s) = unary-IsByte n (toy_seal s) (toy_seal-IsByte s)

pub toy_cipher-IsLawful : IsLawful toy_cipher
toy_cipher-IsLawful = record {
  open-seal = λ key nonce plain. ap some (count-toy_seal plain);
  seal-IsByte = λ key nonce plain. toy_seal-IsByte plain;
}

abbrev pub sender : Session
sender = record {
  send_aead = some (codes "low");
  recv_aead = some (codes "high");
  send_dir = 1;
  recv_dir = 2;
  send_ctr = 0;
  replay = fresh_replay;
}

abbrev pub receiver : Session
receiver = record {
  send_aead = some (codes "high");
  recv_aead = some (codes "low");
  send_dir = 2;
  recv_dir = 1;
  send_ctr = 0;
  replay = fresh_replay;
}

pub sender-Matches : Matches sender receiver (codes "low")
sender-Matches = record { sends = refl; receives = refl; direction = refl; small = omega arith }

exchange-eq-map_example :
    exchange toy_cipher sender receiver (codes "hi" ∷ codes "you" ∷ [])
    ≡ map ok (codes "hi" ∷ codes "you" ∷ [])
exchange-eq-map_example =
    exchange-eq-map toy_cipher toy_cipher-IsLawful sender receiver (codes "low")
      (codes "hi" ∷ codes "you" ∷ []) sender-Matches refl (omega arith)

decrypt-IsSound_example :
    IsSound toy_cipher receiver
      (packet toy_cipher (codes "low") 1 7 (codes "hi"))
      (decrypt toy_cipher receiver (packet toy_cipher (codes "low") 1 7 (codes "hi")))
decrypt-IsSound_example =
    decrypt-IsSound toy_cipher receiver (packet toy_cipher (codes "low") 1 7 (codes "hi"))

abbrev agree : Bytes → Bytes → Option Bytes
agree priv [] = some priv
agree priv (a ∷ point) = some (codes "shared")

abbrev signed : Bytes
signed = 1 ∷ 2 ∷ []

-- Keys are their own public keys, and all signatures are accepted.
abbrev toy_crypto : Crypto
toy_crypto = record {
  PrivKey = Bytes;
  PubKey = Bytes;
  get_public = λ k. k;
  raw = λ k. some k;
  sign = λ k text. some signed;
  verify = λ k text s. some true;
  basepoint = [];
  x25519 = agree;
  hkdf = λ secret salt info. some info;
  new_aead = λ k. some k;
}

abbrev copies : ℕ → ℕ → Bytes
copies zero a = []
copies (suc n) a = a ∷ copies n a

copies-IsByte : (n a : ℕ) → a < 256 → All IsByte (copies n a)
copies-IsByte zero a h = tt
copies-IsByte (suc n) a h = (h, copies-IsByte n a h)

abbrev alice : Party toy_crypto
alice = record {
  own = codes "alice";
  priv = copies 32 1;
  pub_key = copies 32 1;
  id = codes "alice";
  derived = refl;
  identified = refl;
  sized = refl;
  bytes = copies-IsByte 32 1 (omega arith);
}

abbrev bob : Party toy_crypto
bob = record {
  own = codes "bob";
  priv = copies 32 2;
  pub_key = copies 32 2;
  id = codes "bob";
  derived = refl;
  identified = refl;
  sized = refl;
  bytes = copies-IsByte 32 2 (omega arith);
}

meets :
    (a b : Party toy_crypto)
    → toy_crypto.x25519 a.priv b.pub_key ≡ some (codes "shared")
    → Meets toy_crypto a b (codes "shared") signed signed
meets a b h = record {
  agreed = h;
  signs = refl;
  verifies = refl;
  not_empty = cons-ne-nil;
  their_bytes = (omega arith, (omega arith, tt));
}

alice-ne-bob : copies 32 1 ≢ copies 32 2
alice-ne-bob e = let n : 1 ≡ 2 = cons_head e in omega (arith, n)

handshake-Paired_example :
    (s : Session) × (t : Session) × (out : Bytes) × (back : Bytes) × (meet toy_crypto alice bob
        signed
      ≡ ok s)
    × (meet toy_crypto bob alice signed ≡ ok t)
    × Paired s t out back
handshake-Paired_example =
    handshake-Paired toy_crypto alice bob (codes "shared") signed signed
      (codes "p2pchat-v2-low-to-high") (codes "p2pchat-v2-high-to-low") (meets alice bob refl)
      (meets bob alice refl)
      (record {
        low_key = codes "p2pchat-v2-low-to-high";
        high_key = codes "p2pchat-v2-high-to-low";
        expands_low = refl;
        expands_high = refl;
        low_aead = refl;
        high_aead = refl;
      })
      alice-ne-bob

abbrev first_session : Session
first_session = record {
  send_aead = some (codes "p2pchat-v2-low-to-high");
  recv_aead = some (codes "p2pchat-v2-high-to-low");
  send_dir = 1;
  recv_dir = 2;
  send_ctr = 0;
  replay = fresh_replay;
}

first_session_lem : meet toy_crypto alice bob signed ≡ ok first_session
unfolding handshake decode_std select trim_space encode encode_char codes bytes_lt
first_session_lem = refl

handshake-Authenticated_example :
    (o : Bytes) × (r : Bytes) × (some (codes "alice") ≡ some o)
    × (some (codes "bob") ≡ some r)
    × Authenticated toy_crypto
        (some (copies 32 1))
        (peer_stream (copies 32 2) signed)
        o
        r
        first_session
handshake-Authenticated_example =
    handshake-Authenticated toy_crypto (some (copies 32 1)) (peer_stream (copies 32 2) signed)
      (some (codes "alice")) (some (codes "bob")) first_session_lem
