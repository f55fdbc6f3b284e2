-- ===== src/Protocol/Create.antt =====
-- `New` and `NewChat`.
use decentralized_p2p_chat_s.Base.{
  ℕ, ◌≤◌, ◌<◌, ◌≡◌, ◌≢◌, inl, refl, subst, true, Option, some, ok, >>=-eq-ok, arith, Bytes, length,
}
use decentralized_p2p_chat_s.Base.Int.{pos}
use decentralized_p2p_chat_s.Base64.{raw_url}
use decentralized_p2p_chat_s.Base64
use decentralized_p2p_chat_s.Base64.RoundTrip.{length-encode_raw_url}
use decentralized_p2p_chat_s.Protocol.{
  Envelope, Json, Body, type_chat, new_id, new_envelope, new, new_chat, validate, marshal_body,
  draft,
}
use decentralized_p2p_chat_s.Protocol.Rules.{IsValid, validate_iff, checked-eq-ok}

-- The envelope as it was asked for.
pub record IsMade (now : ℕ) (typ conversation sender : Bytes) (sequence : ℕ) (e : Envelope)
    : Type 0 where
  pub versioned : e.version ≡ pos 2
  pub typed : e.typ ≡ typ
  pub conversed : e.conversation ≡ conversation
  pub sent : e.sender ≡ sender
  pub stamped : e.timestamp ≡ pos now
  pub numbered : e.sequence ≡ sequence

module _ (json : Json) (now : ℕ) (random : Option Bytes) where
  -- An envelope that is built is valid, and is the one that was asked for.
  pub new_envelope-IsValid :
      (typ conversation sender : Bytes) (sequence : ℕ) (body : Body) {e : Envelope}
      → new_envelope json now random typ conversation sender sequence body ≡ ok e
      → IsValid json now e × IsMade now typ conversation sender sequence e
  unfolding new_envelope
  new_envelope-IsValid typ conversation sender sequence body {e} h =
      let (id, _, h₁) = >>=-eq-ok (new_id random) _ h in
      let (raw, _, h₂) = >>=-eq-ok (marshal_body body) _ h₁ in
      let (same, v) = checked-eq-ok json now _ h₂ in
      (
        v,
        subst (IsMade now typ conversation sender sequence) same (record {
          versioned = refl;
          typed = refl;
          conversed = refl;
          sent = refl;
          stamped = refl;
          numbered = refl;
        }),
      )

  -- `New` never builds a chat envelope: it has no sequence number to give it.
  pub new_chat_type :
      (conversation sender : Bytes) (body : Body) (e : Envelope)
      → new json now random type_chat conversation sender body ≢ ok e
  unfolding new
  new_chat_type conversation sender body e h =
      let (v, m) = new_envelope-IsValid type_chat conversation sender 0 body h in
      absurd (omega (arith, v.chat_sequence m.typed, m.numbered))

  -- `NewChat` succeeds with sixteen random bytes, a clock after the epoch, both names present and
  -- no longer than 128 bytes, a positive number and a JSON body of at most 48 KB.
  pub new_chat_ok :
      (raw conversation sender text : Bytes) (sequence : ℕ)
      → random ≡ some raw
      → length raw ≡ 16
      → 0 < now
      → (1 ≤ length conversation) × (length conversation ≤ 128)
      → (1 ≤ length sender) × (length sender ≤ 128)
      → 1 ≤ sequence
      → length text ≤ 49152
      → json.is_json text ≡ true
      → new_chat json now random conversation sender sequence (some (some text))
        ≡ ok (draft now type_chat conversation sender sequence (Base64.encode raw_url raw) text)
  unfolding new_chat new_envelope
  new_chat_ok raw conversation sender text sequence drawn sixteen started c s q t j =
      rw (drawn, accepted)
    where
      accepted :
          validate json now (
            some
              (draft now type_chat conversation sender sequence (Base64.encode raw_url raw) text))
          ≡ ok tt
      accepted = (validate_iff json now _).1 (record {
        versioned = refl;
        known = inl refl;
        identified = omega (arith, length-encode_raw_url raw);
        timely = (started, omega arith);
        short_conversation = c.1;
        short_sender = s.1;
        chat_peers = λ _. (c.0, s.0);
        chat_sequence = λ _. q;
        small_body = t;
        json_body = λ _. j;
      })
