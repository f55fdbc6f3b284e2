-- ===== src/Security/Handshake/Identity.antt =====
-- A session exists only with a peer that proved its identity.
use decentralized_p2p_chat_s.Base.{
  ◌≡◌, ◌≢◌, refl, ◌∙◌, ap, Bool, true, List, [], ◌∷◌, Option, none, some, ok, guard, or_fail,
  >>=-eq-ok, or_fail-eq-ok, guard-eq-ok, arith, eqb, not, Bytes, length, bytes_lt_irrefl,
}
use decentralized_p2p_chat_s.Text.{trim_space}
use decentralized_p2p_chat_s.Base64.{decode_std}
use decentralized_p2p_chat_s.Security.Session.{Session}
use decentralized_p2p_chat_s.Security.Handshake.{
  Crypto, HandshakeError, invalid_signature, invalid_public_key, no_randomness, bad_scalar,
  sign_failed, write_failed, read_failed, verify_failed, no_shared_key, unverified, bad_identity,
  Stream, transcript_of, line_of, handshake_transcript, assign, derive_key, establish, read_base64,
  authenticate, run_handshake, handshake,
}

-- A line of the stream that decodes to the given bytes.
abbrev pub Read : Option Bytes → Bytes → Type 0
Read received content =
    (line : Bytes) × (received ≡ some line) × (decode_std (trim_space line) ≡ some content)

read_base64-Read :
    (received : Option Bytes) (fits : Bytes → Bool) (e : HandshakeError) {content : Bytes}
    → read_base64 received fits e ≡ ok content
    → Read received content × (fits content ≡ true)
unfolding read_base64
read_base64-Read received fits e {content} h =
    let (line, p, h₁) = >>=-eq-ok (or_fail received read_failed) _ h in
    let (found, q, h₂) = >>=-eq-ok (or_fail (decode_std (trim_space line)) e) _ h₁ in
    let (_, g, h₃) = >>=-eq-ok (guard (fits found) e) _ h₂ in
    let same : found ≡ content = cc h₃ in
    rw (← same) (
      (
        line,
        or_fail-eq-ok received read_failed p,
        or_fail-eq-ok (decode_std (trim_space line)) e q,
      ),
      guard-eq-ok (fits found) e g,
    )

module _ (crypto : Crypto) where
  authenticate-verified :
      (stream : Stream) (sent : List Bytes) (transcript : Bytes) (own : crypto.PrivKey)
      (remote : crypto.PubKey) {u : Unit {0}}
      → authenticate crypto stream sent transcript own remote ≡ ok u
      → (mine : Bytes) × (signature : Bytes) × (crypto.sign own transcript ≡ some mine)
        × Read (stream.answer (line_of mine ∷ sent)) signature
        × (crypto.verify remote transcript signature ≡ some true)
  unfolding authenticate
  authenticate-verified stream sent transcript own remote h =
      let (mine, p, h₁) = >>=-eq-ok (or_fail (crypto.sign own transcript) sign_failed) _ h in
      let (_, w, h₂) = >>=-eq-ok (guard (stream.can_write sent) write_failed) _ h₁ in
      let (signature, r, h₃) =
        >>=-eq-ok
          (read_base64 (stream.answer (line_of mine ∷ sent)) (λ s. not (eqb (length s) 0))
            invalid_signature)
          _ h₂ in
      let (verified, v, h₄) =
        >>=-eq-ok (or_fail (crypto.verify remote transcript signature) verify_failed) _ h₃ in
      (
        mine,
        signature,
        or_fail-eq-ok (crypto.sign own transcript) sign_failed p,
        (read_base64-Read _ _ _ r).0,
        or_fail-eq-ok (crypto.verify remote transcript signature) verify_failed v
            ∙ ap some (guard-eq-ok verified unverified h₄),
      )

  -- What a session stands on: the two ephemeral keys, their identities, and the peer's signature
  -- over all four, which was read from the stream and verified with the peer's identity key.
  pub record Authenticated (random : Option Bytes) (stream : Stream) (own : crypto.PrivKey)
      (remote : crypto.PubKey) (session : Session) : Type 0 where
    pub priv : Bytes
    pub pub_key : Bytes
    pub peer_pub : Bytes
    pub local_id : Bytes
    pub remote_id : Bytes
    pub mine : Bytes
    pub signature : Bytes
    pub drawn : random ≡ some priv
    pub own_key : crypto.x25519 priv crypto.basepoint ≡ some pub_key
    pub peer_line : Read (stream.answer (line_of pub_key ∷ [])) peer_pub
    pub peer_length : length peer_pub ≡ 32
    pub local_raw : crypto.raw (crypto.get_public own) ≡ some local_id
    pub remote_raw : crypto.raw remote ≡ some remote_id
    pub signature_line : Read (stream.answer (line_of mine ∷ line_of pub_key ∷ [])) signature
    pub verified :
        crypto.verify remote (transcript_of pub_key peer_pub local_id remote_id) signature
        ≡ some true
    pub distinct : pub_key ≢ peer_pub
    pub directions : session.send_dir ≢ session.recv_dir
    pub unused : session.send_ctr ≡ 0

  assign-directions :
      (pub_key peer_pub low high : Bytes) {session : Session}
      → assign pub_key peer_pub low high ≡ ok session
      → (pub_key ≢ peer_pub) × (session.send_dir ≢ session.recv_dir) × (session.send_ctr ≡ 0)
  unfolding assign
  assign-directions pub_key peer_pub low high h =
      ((λ e. ground (arith, bytes_lt_irrefl peer_pub, e)), ground arith, ground arith)

  establish-assign :
      (shared transcript pub_key peer_pub : Bytes) {session : Session}
      → establish crypto shared transcript pub_key peer_pub ≡ ok session
      → (pub_key ≢ peer_pub) × (session.send_dir ≢ session.recv_dir) × (session.send_ctr ≡ 0)
  unfolding establish
  establish-assign shared transcript pub_key peer_pub h =
      let (_, _, h₁) = >>=-eq-ok (derive_key crypto shared transcript _) _ h in
      let (_, _, h₂) = >>=-eq-ok (derive_key crypto shared transcript _) _ h₁ in
      let (low, _, h₃) = >>=-eq-ok (or_fail (crypto.new_aead _) _) _ h₂ in
      let (high, _, h₄) = >>=-eq-ok (or_fail (crypto.new_aead _) _) _ h₃ in
      assign-directions pub_key peer_pub low high h₄

  transcript-ids :
      (pub_key peer_pub : Bytes) (own remote : crypto.PubKey) {transcript : Bytes}
      → handshake_transcript crypto pub_key peer_pub own remote ≡ ok transcript
      → (local_id : Bytes) × (remote_id : Bytes) × (crypto.raw own ≡ some local_id)
        × (crypto.raw remote ≡ some remote_id)
        × (transcript_of pub_key peer_pub local_id remote_id ≡ transcript)
  unfolding handshake_transcript
  transcript-ids pub_key peer_pub own remote h =
      let (local_id, l, h₁) = >>=-eq-ok (or_fail (crypto.raw own) bad_identity) _ h in
      let (remote_id, r, h₂) = >>=-eq-ok (or_fail (crypto.raw remote) bad_identity) _ h₁ in
      (
        local_id,
        remote_id,
        or_fail-eq-ok (crypto.raw own) bad_identity l,
        or_fail-eq-ok (crypto.raw remote) bad_identity r,
        cc h₂,
      )

  run_handshake-Authenticated :
      (random : Option Bytes) (stream : Stream) (own : crypto.PrivKey) (remote : crypto.PubKey)
      {session : Session}
      → run_handshake crypto random stream own remote ≡ ok session
      → Authenticated random stream own remote session
  unfolding run_handshake
  run_handshake-Authenticated random stream own remote {session} h =
      let (priv, d, h₁) = >>=-eq-ok (or_fail random no_randomness) _ h in
      let (pub_key, k, h₂) =
        >>=-eq-ok (or_fail (crypto.x25519 priv crypto.basepoint) bad_scalar) _ h₁ in
      let (_, _, h₃) = >>=-eq-ok (guard (stream.can_write []) write_failed) _ h₂ in
      let (peer_pub, p, h₄) =
        >>=-eq-ok
          (read_base64 (stream.answer (line_of pub_key ∷ [])) (λ s. eqb (length s) 32)
            invalid_public_key)
          _ h₃ in
      let (shared, _, h₅) = >>=-eq-ok (or_fail (crypto.x25519 priv peer_pub) no_shared_key) _ h₄ in
      let (transcript, t, h₆) =
        >>=-eq-ok (handshake_transcript crypto pub_key peer_pub (crypto.get_public own) remote) _
          h₅ in
      let (_, a, h₇) =
        >>=-eq-ok (authenticate crypto stream (line_of pub_key ∷ []) transcript own remote) _ h₆ in
      let (local_id, remote_id, l, r, same) =
        transcript-ids pub_key peer_pub (crypto.get_public own) remote t in
      let (mine, signature, _, s, v) = authenticate-verified stream _ transcript own remote a in
      let (apart, dirs, zero_ctr) = establish-assign shared transcript pub_key peer_pub h₇ in
      record {
        priv = priv;
        pub_key = pub_key;
        peer_pub = peer_pub;
        local_id = local_id;
        remote_id = remote_id;
        mine = mine;
        signature = signature;
        drawn = or_fail-eq-ok random no_randomness d;
        own_key = or_fail-eq-ok (crypto.x25519 priv crypto.basepoint) bad_scalar k;
        peer_line = (read_base64-Read _ _ _ p).0;
        peer_length = ground (arith, (read_base64-Read _ _ _ p).1);
        local_raw = l;
        remote_raw = r;
        signature_line = s;
        verified = rw same v;
        distinct = apart;
        directions = dirs;
        unused = zero_ctr;
      }

  -- A handshake that succeeds had both identities and a random scalar, read a peer key of 32 bytes
  -- that differs from its own, and read a signature that the peer's identity key verifies over the
  -- transcript of both ephemeral keys and both identities. The session's directions differ and
  -- nothing was sent in it yet.
  pub handshake-Authenticated :
      (random : Option Bytes) (stream : Stream) (own : Option crypto.PrivKey)
      (remote : Option crypto.PubKey) {session : Session}
      → handshake crypto random stream own remote ≡ ok session
      → (o : crypto.PrivKey) × (r : crypto.PubKey) × (own ≡ some o)
        × (remote ≡ some r)
        × Authenticated random stream o r session
  unfolding handshake
  handshake-Authenticated random stream (some o) (some r) h =
      (o, r, refl, refl, run_handshake-Authenticated random stream o r h)
  handshake-Authenticated random stream none _ h = cc
  handshake-Authenticated random stream (some o) none h = cc
