-- ===== src/Conversation/Built.antt =====
-- The envelopes that a healthy host builds: they can be encoded, and decoded at the other end.
use decentralized_p2p_chat_s.Base.{
  All, ℕ, ◌≤◌, ◌≡◌, ◌≢◌, refl, ap, ◌∙◌, some, ok, arith, bytes_eq, Bytes, length, take, length-take,
  inl, inr, codes, ◌++◌, ◌∷◌,
}
use decentralized_p2p_chat_s.Text.{sort_pair}
use decentralized_p2p_chat_s.Text.Trim.{IsAscii}
use decentralized_p2p_chat_s.Text.Sort.{sort_pair_comm}
use decentralized_p2p_chat_s.Base64.{raw_url}
use decentralized_p2p_chat_s.Base64
use decentralized_p2p_chat_s.Base64.RoundTrip.{length-encode_raw_url, encode-IsAscii}
use decentralized_p2p_chat_s.Protocol.{
  Envelope, type_chat, type_ack, draft, new, new_envelope, encode, decode, new_id, marshal_body,
  checked,
}
use decentralized_p2p_chat_s.Protocol.Rules.{IsKnown, IsValid, validate_iff}
use decentralized_p2p_chat_s.Protocol.Create.{new_chat_ok}
use decentralized_p2p_chat_s.Protocol.Codec.{as_read, decode_valid}
use decentralized_p2p_chat_s.Manager.{
  Env, Manager, conversation_id, new_chat_envelope, new_ack_envelope, from_result,
}
use decentralized_p2p_chat_s.Conversation.{Host, on, IsHealthy, IsBody, IsFaithful}

-- A peer whose written identifier can stand in an envelope; base58 is ASCII.
abbrev pub IsNamed : Env → Bytes → Type 0
IsNamed env id =
    (1 ≤ length (env.id_string id))
    × (length (env.id_string id) ≤ 128)
    × All IsAscii (env.id_string id)

-- Both ends name their conversation alike.
pub conversation_id_comm :
    (env : Env) (h k : Host) (a b : Bytes)
    → conversation_id (on env h) a b ≡ conversation_id (on env k) b a
unfolding conversation_id
conversation_id_comm env h k a b =
    ap (λ p. Base64.encode raw_url (take 16 (env.digest (p.0 ++ b'|' ∷ p.1))))
      (sort_pair_comm (env.id_string a) (env.id_string b))

type-IsAscii : (t : Bytes) → IsKnown t → All IsAscii t
unfolding codes
type-IsAscii t known = ground arith

module _ (env : Env) (faithful : IsFaithful env) (start : ℕ) where
  -- An envelope that has the same text whenever it is encoded, which is decoded at any time.
  pub record IsWired (e : Envelope) (text : Bytes) : Type 0 where
    pub encoded : (now : ℕ) → start ≤ now → encode env.json now e ≡ ok text
    pub decoded : (now : ℕ) → start ≤ now → decode env.json now text ≡ ok e

  encode_ok :
      (now : ℕ) (e : Envelope) (text : Bytes)
      → IsValid env.json now e
      → env.json.marshal e ≡ some text
      → length text ≤ 65536
      → encode env.json now e ≡ ok text
  unfolding encode
  encode_ok now e text v m s = rw ((validate_iff env.json now e).1 v, m) (ground arith)

  wired :
      (e : Envelope)
      → ((now : ℕ) → start ≤ now → IsValid env.json now e)
      → IsBody env e.body
      → as_read env.json faithful.json e ≡ e
      → (text : Bytes) × IsWired e text
  wired e valid body kept =
      let (text, m, s) = faithful.fits start e (valid start (omega arith)) body in
      (
        text,
        record {
          encoded = λ now late. encode_ok now e text (valid now late) m s;
          decoded = λ now late.
              decode_valid env.json now text e
                (λ empty. faithful.json.marshal-ne-nil e (m ∙ ap some empty)) s
                (faithful.json.unmarshal-marshal e text m ∙ ap some kept) (valid now late);
        },
      )

  module _ (h : Host) (healthy : IsHealthy start h) (own remote : Bytes)
      (named : IsNamed env own) where
    length-conversation : length (conversation_id (on env h) own remote) ≡ 22
    unfolding conversation_id
    length-conversation = omega (
      arith,
      length-encode_raw_url (
          take 16 (
            env.digest (
              (sort_pair (env.id_string own) (env.id_string remote)).0
              ++ b'|' ∷ (sort_pair (env.id_string own) (env.id_string remote)).1))),
      length-take 16 (
          env.digest (
            (sort_pair (env.id_string own) (env.id_string remote)).0
            ++ b'|' ∷ (sort_pair (env.id_string own) (env.id_string remote)).1)),
      faithful.digest (
          (sort_pair (env.id_string own) (env.id_string remote)).0
          ++ b'|' ∷ (sort_pair (env.id_string own) (env.id_string remote)).1),
    )

    -- The envelope of a draw, a type, a number, sixteen random bytes and a body.
    abbrev pub drafted : ℕ → Bytes → ℕ → Bytes → Bytes → Envelope
    drafted n typ sequence raw body =
        draft (h.clock n) typ (conversation_id (on env h) own remote) (env.id_string own) sequence
          (Base64.encode raw_url raw) body

    drafted-IsValid :
        (n : ℕ) (typ : Bytes) (sequence : ℕ) (raw body : Bytes)
        → IsKnown typ
        → (typ ≡ type_chat → 1 ≤ sequence)
        → length raw ≡ 16
        → IsBody env body
        → (now : ℕ) → start ≤ now
        → IsValid env.json now (drafted n typ sequence raw body)
    drafted-IsValid n typ sequence raw body known counted sixteen b now late = record {
      versioned = refl;
      known = known;
      identified = omega (arith, length-encode_raw_url raw, sixteen);
      timely =
          (omega (arith, healthy.begun, healthy.not_before n), omega (arith, healthy.not_after n));
      short_conversation = omega (arith, length-conversation);
      short_sender = named.1;
      chat_peers = λ _. (omega (arith, length-conversation), named.0);
      chat_sequence = counted;
      small_body = b.small;
      json_body = λ _. b.json;
    }

    -- JSON keeps all of such an envelope.
    as_read-drafted :
        (n : ℕ) (typ : Bytes) (sequence : ℕ) (raw body : Bytes)
        → IsKnown typ
        → IsBody env body
        → as_read env.json faithful.json (drafted n typ sequence raw body)
          ≡ drafted n typ sequence raw body
    unfolding conversation_id
    as_read-drafted n typ sequence raw body known b =
        rw
          (
            faithful.json.replaced-ascii typ (type-IsAscii typ known),
            faithful.json.replaced-ascii (Base64.encode raw_url raw) (encode-IsAscii raw_url raw),
            faithful.json.replaced-ascii (conversation_id (on env h) own remote)
                (encode-IsAscii raw_url _),
            faithful.json.replaced-ascii (env.id_string own) named.2,
            faithful.made_compact body b,
          )
          refl

    pub drafted-IsWired :
        (n : ℕ) (typ : Bytes) (sequence : ℕ) (raw body : Bytes)
        → IsKnown typ
        → (typ ≡ type_chat → 1 ≤ sequence)
        → length raw ≡ 16
        → IsBody env body
        → (text : Bytes) × IsWired (drafted n typ sequence raw body) text
    drafted-IsWired n typ sequence raw body known counted sixteen b =
        wired (drafted n typ sequence raw body)
          (drafted-IsValid n typ sequence raw body known counted sixteen b) b
          (as_read-drafted n typ sequence raw body known b)

    -- The chat envelope of a text, from the sixteen bytes that the host draws.
    pub chat_built :
        (m : Manager) (sequence : ℕ) (text body : Bytes)
        → m.node ≡ some own
        → env.bodies.marshal_chat text ≡ some body
        → IsBody env body
        → 1 ≤ sequence
        → (raw : Bytes) × (length raw ≡ 16)
          × (new_chat_envelope (on env h) m remote sequence text
              ≡ some (drafted m.draws type_chat sequence raw body))
    unfolding new_chat_envelope from_result
    chat_built m sequence text body there made b positive =
        let (raw, drawn, sixteen) = healthy.random m.draws in
        (
          raw,
          sixteen,
          rw (there, new_chat_envelope, made)
              (ap from_result (
                new_chat_ok env.json (h.clock m.draws) (h.random m.draws) raw
                  (conversation_id (on env h) own remote) (env.id_string own) body sequence drawn
                  sixteen (omega (arith, healthy.begun, healthy.not_before m.draws))
                  (omega (arith, length-conversation), omega (arith, length-conversation))
                  (named.0, named.1) positive b.small b.json)),
        )

    ack_accepted :
        (n : ℕ) (raw id body : Bytes)
        → h.random n ≡ some raw
        → length raw ≡ 16
        → IsBody env body
        → new env.json
            (h.clock n)
            (h.random n)
            type_ack
            (conversation_id (on env h) own remote)
            (env.id_string own)
            (some (some body))
          ≡ ok (drafted n type_ack 0 raw body)
    unfolding new new_envelope new_id marshal_body checked
    ack_accepted n raw id body drawn sixteen b =
        rw
          (
            drawn,
            (validate_iff env.json (h.clock n) (drafted n type_ack 0 raw body)).1 (
                drafted-IsValid n type_ack 0 raw body (inr (inl refl)) (λ c. absurd (apart c))
                  sixteen b (h.clock n) (healthy.not_before n)),
          )
          refl
      where
        apart : type_ack ≢ type_chat
        apart same = unfold codes in cc same

    -- The acknowledgement of an identifier.
    pub ack_built :
        (m : Manager) (id body : Bytes)
        → m.node ≡ some own
        → env.bodies.marshal_ack id ≡ some body
        → IsBody env body
        → (raw : Bytes) × (length raw ≡ 16)
          × (new_ack_envelope (on env h) m remote id ≡ some (drafted m.draws type_ack 0 raw body))
    unfolding new_ack_envelope from_result
    ack_built m id body there made b =
        let (raw, drawn, sixteen) = healthy.random m.draws in
        (
          raw,
          sixteen,
          rw (there, new_ack_envelope, made)
              (ap from_result (ack_accepted m.draws raw id body drawn sixteen b)),
        )
