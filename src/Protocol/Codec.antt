-- ===== src/Protocol/Codec.antt =====
-- `Encode` and `Decode`.
use decentralized_p2p_chat_s.Base.{
  ℕ, ◌≤◌, ◌↔◌, ap, ◌∙◌, All, ◌≡◌, ◌≢◌, refl, subst, not, [], ◌∷◌, some, ok, guard, or_fail,
  or_fail-eq-ok, guard-eq-ok, >>=-eq-ok, arith, ltb, Bytes, length,
}
use decentralized_p2p_chat_s.Text.Trim.{IsAscii}
use decentralized_p2p_chat_s.Protocol.{
  Envelope, Json, marshal_failed, large_envelope, empty_envelope, decode_failed, max_envelope_size,
  is_empty, validate, checked, encode, decode,
}
use decentralized_p2p_chat_s.Protocol.Rules.{IsValid, validate_iff, checked-eq-ok, IsValid-later}

-- What the documentation of `encoding/json` promises of a struct of strings, numbers and raw JSON: a
-- text that `Marshal` made is not empty, and is read back as the value, but that bytes of a string
-- which are no UTF-8 are replaced, of which ASCII has none, and that raw JSON loses its spaces and has
-- some characters escaped.
pub record IsLawful (json : Json) : Type 0 where
  pub replaced : Bytes → Bytes
  pub compacted : Bytes → Bytes
  pub replaced-ascii : (s : Bytes) → All IsAscii s → replaced s ≡ s
  pub unmarshal-marshal :
      (e : Envelope) (text : Bytes)
      → json.marshal e ≡ some text
      → json.unmarshal text
        ≡ some (record e {
          typ = replaced e.typ;
          id = replaced e.id;
          conversation = replaced e.conversation;
          sender = replaced e.sender;
          body = compacted e.body;
        })
  pub marshal-ne-nil : (e : Envelope) → json.marshal e ≢ some []

module _ (json : Json) where
  -- What `Encode` gives is the JSON of a valid envelope, at most 64 KB long.
  pub encode_sound :
      (now : ℕ) (e : Envelope) {text : Bytes}
      → encode json now e ≡ ok text
      → IsValid json now e × (json.marshal e ≡ some text) × (length text ≤ max_envelope_size)
  unfolding encode
  encode_sound now e {text} h =
      let (u, v, h₁) = >>=-eq-ok (validate json now (some e)) _ h in
      let (made, m, h₂) = >>=-eq-ok (or_fail (json.marshal e) marshal_failed) _ h₁ in
      let (_, g, h₃) =
        >>=-eq-ok (guard (not (ltb max_envelope_size (length made))) large_envelope) _ h₂ in
      let same : made ≡ text = cc h₃ in
      let fits : length made ≤ max_envelope_size =
        ground (arith, guard-eq-ok (not (ltb max_envelope_size (length made))) large_envelope g) in
      (
        (validate_iff json now e).0 v,
        subst (λ t. json.marshal e ≡ some t) same (or_fail-eq-ok (json.marshal e) marshal_failed m),
        subst (λ t. length t ≤ max_envelope_size) same fits,
      )

  -- What `Decode` accepts is a valid envelope from a text of at most 64 KB, and not empty.
  pub decode_sound :
      (now : ℕ) (text : Bytes) {e : Envelope}
      → decode json now text ≡ ok e
      → IsValid json now e
        × (json.unmarshal text ≡ some e)
        × (1 ≤ length text)
        × (length text ≤ max_envelope_size)
  unfolding decode
  decode_sound now text {e} h =
      let (_, a, h₁) = >>=-eq-ok (guard (not (is_empty text)) empty_envelope) _ h in
      let (_, b, h₂) =
        >>=-eq-ok (guard (not (ltb max_envelope_size (length text))) large_envelope) _ h₁ in
      let (read, u, h₃) = >>=-eq-ok (or_fail (json.unmarshal text) decode_failed) _ h₂ in
      let (same, v) = checked-eq-ok json now read h₃ in
      (
        v,
        subst (λ t. json.unmarshal text ≡ some t) same
            (or_fail-eq-ok (json.unmarshal text) decode_failed u),
        ground (arith, guard-eq-ok (not (is_empty text)) empty_envelope a),
        ground (arith, guard-eq-ok (not (ltb max_envelope_size (length text))) large_envelope b),
      )

  pub decode_valid :
      (now : ℕ) (text : Bytes) (e : Envelope)
      → text ≢ []
      → length text ≤ 65536
      → json.unmarshal text ≡ some e
      → IsValid json now e
      → decode json now text ≡ ok e
  unfolding decode checked
  decode_valid now [] e n s u v = absurd (n refl)
  decode_valid now (a ∷ text) e n s u v = ground (arith, (validate_iff json now e).1 v)

  -- `Encode` succeeds exactly on an envelope that meets the rules and whose JSON exists and has at most
  -- 64 KB.
  pub encode_iff :
      (now : ℕ) (e : Envelope) (text : Bytes)
      → (encode json now e ≡ ok text)
        ↔ (IsValid json now e × (json.marshal e ≡ some text) × (length text ≤ max_envelope_size))
  unfolding encode
  encode_iff now e text =
      (encode_sound now e, λ c. rw ((validate_iff json now e).1 c.0, c.1) (ground arith))

  -- The envelope as a receiver reads it.
  abbrev pub as_read : IsLawful json → Envelope → Envelope
  as_read lawful e = record e {
    typ = lawful.replaced e.typ;
    id = lawful.replaced e.id;
    conversation = lawful.replaced e.conversation;
    sender = lawful.replaced e.sender;
    body = lawful.compacted e.body;
  }

  decode_read :
      (now : ℕ) (text : Bytes) (e : Envelope)
      → text ≢ []
      → length text ≤ 65536
      → json.unmarshal text ≡ some e
      → decode json now text ≡ checked json now e
  unfolding decode
  decode_read now [] e n s u = absurd (n refl)
  decode_read now (a ∷ text) e n s u = ground (arith, u)

  -- What was encoded is decoded to the envelope as JSON keeps it, with its strings and its body as read
  -- back, if that is valid for the receiver. If JSON keeps all of the envelope, a receiver whose clock
  -- is not behind the sender's has the same envelope.
  pub decode-encode :
      (lawful : IsLawful json) (now later : ℕ) (e : Envelope) (text : Bytes)
      → encode json now e ≡ ok text
      → (decode json later text ≡ checked json later (as_read lawful e))
        × (now ≤ later → as_read lawful e ≡ e → decode json later text ≡ ok e)
  decode-encode lawful now later e text h =
      let (v, m, s) = encode_sound now e h in
      let some_text : text ≢ [] =
        λ empty. lawful.marshal-ne-nil e (subst (λ t. json.marshal e ≡ some t) empty m) in
      let read = lawful.unmarshal-marshal e text m in
      (
        decode_read later text (as_read lawful e) some_text s read,
        λ clock kept.
            decode_valid later text e some_text s (read ∙ ap some kept)
              (IsValid-later json e clock v),
      )
