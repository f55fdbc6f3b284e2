-- ===== src/Security/Handshake/Agreement.antt =====
-- Two honest sides end up with matching sessions.
use decentralized_p2p_chat_s.Base.{
  ℕ, ◌≡◌, ◌≢◌, refl, ◌∙◌, subst, Bool, true, false, not, [], ◌∷◌, none, some, Result, ok, arith,
  eqb, Bytes, length, All, codes, bytes_lt, bytes_lt_asymm, bytes_lt_connected,
}
use decentralized_p2p_chat_s.Text.{trim_space}
use decentralized_p2p_chat_s.Text.Trim.{trim_space_line}
use decentralized_p2p_chat_s.Text.Sort.{sort_pair_comm}
use decentralized_p2p_chat_s.Base64.{std, encode, decode_std}
use decentralized_p2p_chat_s.Base64.RoundTrip.{IsByte, decode_std-encode, encode-IsGraphic}
use decentralized_p2p_chat_s.Security.Session.{Session}
use decentralized_p2p_chat_s.Security.Session.Channel.{Matches}
use decentralized_p2p_chat_s.Security.Replay.{fresh_replay}
use decentralized_p2p_chat_s.Security.Handshake.{
  Crypto, HandshakeError, invalid_signature, invalid_public_key, Stream, transcript_of, line_of,
  handshake_transcript, derive_key, assign, establish, read_base64, authenticate, run_handshake,
  handshake,
}

-- Both sides sign and verify the same transcript, whoever starts.
pub transcript_of_comm :
    (local_key remote_key local_id remote_id : Bytes)
    → transcript_of local_key remote_key local_id remote_id
      ≡ transcript_of remote_key local_key remote_id local_id
unfolding transcript_of
transcript_of_comm local_key remote_key local_id remote_id =
    rw (sort_pair_comm local_key remote_key, sort_pair_comm local_id remote_id)

decode_line : (s : Bytes) → All IsByte s → decode_std (trim_space (line_of s)) ≡ some s
decode_line s h =
    rw (trim_space_line (encode std s) (encode-IsGraphic std s h)) (decode_std-encode s h)

read_line :
    (s : Bytes) (fits : Bytes → Bool) (e : HandshakeError)
    → All IsByte s
    → fits s ≡ true
    → read_base64 (some (line_of s)) fits e ≡ ok s
unfolding read_base64
read_line s fits e h f = rw (decode_line s h, f)

-- A stream whose other end sends an ephemeral key and, after the next line, a signature.
abbrev pub peer_stream : Bytes → Bytes → Stream
peer_stream pub_key signature = record {
  can_write = λ sent. true;
  answer = λ sent. elim sent [
    | [] ↦ none
    | first ∷ rest ↦ elim rest [ [] ↦ some (line_of pub_key) | _ ∷ _ ↦ some (line_of signature) ]
  ];
}

-- Two new sessions of which each decrypts what the other encrypts.
pub record Paired (s t : Session) (out back : Bytes) : Type 0 where
  pub there : Matches s t out
  pub back_again : Matches t s back
  pub apart : s.send_dir ≢ s.recv_dir
  pub peer_apart : t.send_dir ≢ t.recv_dir
  pub fresh : s.replay ≡ fresh_replay
  pub peer_fresh : t.replay ≡ fresh_replay
  pub unused : s.send_ctr ≡ 0
  pub peer_unused : t.send_ctr ≡ 0

Paired-swap : {s t : Session} {out back : Bytes} → Paired s t out back → Paired t s back out
Paired-swap p = record {
  there = p.back_again;
  back_again = p.there;
  apart = p.peer_apart;
  peer_apart = p.apart;
  fresh = p.peer_fresh;
  peer_fresh = p.fresh;
  unused = p.peer_unused;
  peer_unused = p.unused;
}

abbrev new_session : Bytes → Bytes → ℕ → ℕ → Session
new_session send recv send_dir recv_dir = record {
  send_aead = some send;
  recv_aead = some recv;
  send_dir = send_dir;
  recv_dir = recv_dir;
  send_ctr = 0;
  replay = fresh_replay;
}

assign-Paired :
    (x y low high : Bytes)
    → bytes_lt x y ≡ true
    → (s : Session) × (t : Session) × (assign x y low high ≡ ok s)
      × (assign y x low high ≡ ok t)
      × Paired s t low high
unfolding assign
assign-Paired x y low high h = (
  new_session low high 1 2,
  new_session high low 2 1,
  rw h refl,
  rw (bytes_lt_asymm x y h, h) refl,
  record {
    there = record { sends = refl; receives = refl; direction = refl; small = omega arith };
    back_again = record { sends = refl; receives = refl; direction = refl; small = omega arith };
    apart = omega arith;
    peer_apart = omega arith;
    fresh = refl;
    peer_fresh = refl;
    unused = refl;
    peer_unused = refl;
  },
)

module _ (crypto : Crypto) where
  -- One side: its identity key, its scalar, and what follows from them.
  pub record Party : Type 0 where
    pub own : crypto.PrivKey
    pub priv : Bytes
    pub pub_key : Bytes
    pub id : Bytes
    pub derived : crypto.x25519 priv crypto.basepoint ≡ some pub_key
    pub identified : crypto.raw (crypto.get_public own) ≡ some id
    pub sized : length pub_key ≡ 32
    pub bytes : All IsByte pub_key

  abbrev pub transcript : Party → Party → Bytes
  transcript a b = transcript_of a.pub_key b.pub_key a.id b.id

  -- What one side has of the other: the agreed secret, and a signature that verifies.
  pub record Meets (a b : Party) (shared mine theirs : Bytes) : Type 0 where
    pub agreed : crypto.x25519 a.priv b.pub_key ≡ some shared
    pub signs : crypto.sign a.own (transcript a b) ≡ some mine
    pub verifies : crypto.verify (crypto.get_public b.own) (transcript a b) theirs ≡ some true
    pub not_empty : theirs ≢ []
    pub their_bytes : All IsByte theirs

  -- The two keys that a secret and a transcript give.
  pub record Expands (shared text low high : Bytes) : Type 0 where
    pub low_key : Bytes
    pub high_key : Bytes
    pub expands_low : crypto.hkdf shared text (codes "p2pchat-v2-low-to-high") ≡ some low_key
    pub expands_high : crypto.hkdf shared text (codes "p2pchat-v2-high-to-low") ≡ some high_key
    pub low_aead : crypto.new_aead low_key ≡ some low
    pub high_aead : crypto.new_aead high_key ≡ some high

  abbrev pub meet : Party → Party → Bytes → Result HandshakeError Session
  meet a b theirs =
      handshake crypto (some a.priv) (peer_stream b.pub_key theirs) (some a.own)
        (some (crypto.get_public b.own))

  module _ (a b : Party) (shared mine theirs low high : Bytes) (m : Meets a b shared mine theirs)
      (k : Expands shared (transcript a b) low high) where
    transcript_ok :
        handshake_transcript crypto a.pub_key b.pub_key
          (crypto.get_public a.own)
          (crypto.get_public b.own)
        ≡ ok (transcript a b)
    unfolding handshake_transcript
    transcript_ok = rw (a.identified, b.identified)

    authenticate_ok :
        authenticate crypto
          (peer_stream b.pub_key theirs)
          (line_of a.pub_key ∷ [])
          (transcript a b)
          a.own
          (crypto.get_public b.own)
        ≡ ok tt
    unfolding authenticate
    authenticate_ok = rw (
      m.signs,
      read_line theirs (λ s. not (eqb (length s) 0)) invalid_signature m.their_bytes
          (some_length theirs m.not_empty),
      m.verifies,
    )
      where
        some_length : (s : Bytes) → s ≢ [] → not (eqb (length s) 0) ≡ true
        some_length [] h = absurd (h refl)
        some_length (x ∷ s) h = ground arith

    establish_ok :
        establish crypto shared (transcript a b) a.pub_key b.pub_key
        ≡ assign a.pub_key b.pub_key low high
    unfolding establish derive_key
    establish_ok = rw (k.expands_low, k.expands_high, k.low_aead, k.high_aead)

    meet_ok : meet a b theirs ≡ assign a.pub_key b.pub_key low high
    unfolding handshake run_handshake
    meet_ok = rw (
      a.derived,
      read_line b.pub_key (λ s. eqb (length s) 32) invalid_public_key b.bytes
          (ground (arith, b.sized)),
      m.agreed,
      transcript_ok,
      authenticate_ok,
      establish_ok,
    )

  -- Two honest sides with different ephemeral keys, an agreed secret, signatures that the other
  -- side's check passes, and keys that expand from the secret and the transcript of one side: both
  -- handshakes succeed, and the sessions are new, with two keys and two directions such that each
  -- decrypts under the key and direction in which the other encrypts.
  pub handshake-Paired :
      (a b : Party) (shared mine theirs low high : Bytes)
      → Meets a b shared mine theirs
      → Meets b a shared theirs mine
      → Expands shared (transcript a b) low high
      → a.pub_key ≢ b.pub_key
      → (s : Session) × (t : Session) × (out : Bytes) × (back : Bytes) × (meet a b theirs ≡ ok s)
        × (meet b a mine ≡ ok t)
        × Paired s t out back
  handshake-Paired a b shared mine theirs low high m n k apart =
      go (bytes_lt a.pub_key b.pub_key) refl
    where
      same_keys : Expands shared (transcript b a) low high
      same_keys =
          subst (λ text. Expands shared text low high)
            (transcript_of_comm a.pub_key b.pub_key a.id b.id) k

      go :
          (o : Bool)
          → bytes_lt a.pub_key b.pub_key ≡ o
          → (s : Session) × (t : Session) × (out : Bytes) × (back : Bytes) × (meet a b theirs
              ≡ ok s)
            × (meet b a mine ≡ ok t)
            × Paired s t out back
      go true h =
          let (s, t, p, q, r) = assign-Paired a.pub_key b.pub_key low high h in
          (
            s,
            t,
            low,
            high,
            meet_ok a b shared mine theirs low high m k ∙ p,
            meet_ok b a shared theirs mine low high n same_keys ∙ q,
            r,
          )
      go false h =
          let h' : bytes_lt b.pub_key a.pub_key ≡ true =
            ground (arith, bytes_lt_connected a.pub_key b.pub_key) in
          let (t, s, q, p, r) = assign-Paired b.pub_key a.pub_key low high h' in
          (
            s,
            t,
            high,
            low,
            meet_ok a b shared mine theirs low high m k ∙ p,
            meet_ok b a shared theirs mine low high n same_keys ∙ q,
            Paired-swap r,
          )
