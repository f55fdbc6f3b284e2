-- ===== src/Protocol/Rules.antt =====
-- The validation rules of docs/protocol-v2.md on an envelope, with lengths in bytes, and `Validate` as
-- their decision. The rule on the size of the encoded envelope is in Codec.
use decentralized_p2p_chat_s.Base.{
  ℕ, ◌+◌, ◌≤◌, ◌<◌, ◌≡◌, ◌≢◌, ◌⊎◌, ◌↔◌, refl, subst, true, false, [], ◌∷◌, some, ok, >>=-eq-ok,
  arith, ltb, bytes_eq, Bytes, length,
}
use decentralized_p2p_chat_s.Base.Int.{ℤ, pos, negsuc, is_nonpos, exceeds, is_int}
use decentralized_p2p_chat_s.Protocol.{
  Envelope, Json, type_chat, type_ack, type_control, type_error, type_typing, type_presence,
  max_body_size, max_id_length, max_future_skew, valid_type, validate, checked,
}

abbrev pub IsKnown : Bytes → Type 0
IsKnown t =
    (t ≡ type_chat)
    ⊎ (t ≡ type_ack)
    ⊎ (t ≡ type_control)
    ⊎ (t ≡ type_error)
    ⊎ (t ≡ type_typing)
    ⊎ (t ≡ type_presence)

-- A timestamp in milliseconds, positive and at most five minutes ahead of the clock.
abbrev pub IsTimely : ℕ → ℤ → Type 0
IsTimely now (pos t) = (0 < t) × (t ≤ now + max_future_skew)
IsTimely now (negsuc t) = ⊥

pub record IsValid (json : Json) (now : ℕ) (e : Envelope) : Type 0 where
  pub versioned : e.version ≡ pos 2
  pub known : IsKnown e.typ
  pub identified : (1 ≤ length e.id) × (length e.id ≤ max_id_length)
  pub timely : IsTimely now e.timestamp
  pub short_conversation : length e.conversation ≤ max_id_length
  pub short_sender : length e.sender ≤ max_id_length
  pub chat_peers : e.typ ≡ type_chat → (1 ≤ length e.conversation) × (1 ≤ length e.sender)
  pub chat_sequence : e.typ ≡ type_chat → 1 ≤ e.sequence
  pub small_body : length e.body ≤ max_body_size
  pub json_body : e.body ≢ [] → json.is_json e.body ≡ true

valid_type-IsKnown : (t : Bytes) → (valid_type t ≡ true) ↔ IsKnown t
unfolding valid_type
valid_type-IsKnown t = ground arith

is_int-two : (v : ℤ) → (is_int 2 v ≡ true) ↔ (v ≡ pos 2)
is_int-two (pos n) = ground arith
is_int-two (negsuc n) = ground arith

nonempty : (s : Bytes) → s ≢ [] → ltb 0 (length s) ≡ true
nonempty [] h = absurd (h refl)
nonempty (a ∷ s) h = ground arith

timely :
    (now : ℕ) (t : ℤ)
    → is_nonpos t ≡ false
    → exceeds t (now + max_future_skew) ≡ false
    → IsTimely now t
timely now (pos t) h k = (ground arith, ground arith)
timely now (negsuc t) h k = cc

module _ (json : Json) (now : ℕ) (e : Envelope) where
  module _ (h : validate json now (some e) ≡ ok tt) where
    tests :
        (is_int 2 e.version ≡ true)
        × (valid_type e.typ ≡ true)
        × (is_nonpos e.timestamp ≡ false)
        × (exceeds e.timestamp (now + max_future_skew) ≡ false)
    unfolding validate
    tests = ground arith

    sizes :
        (1 ≤ length e.id)
        × (length e.id ≤ 128)
        × (length e.conversation ≤ 128)
        × (length e.sender ≤ 128)
        × (length e.body ≤ 49152)
    unfolding validate
    sizes = ground arith

    chat_rules :
        e.typ ≡ type_chat → (1 ≤ length e.conversation) × (1 ≤ length e.sender) × (1 ≤ e.sequence)
    unfolding validate
    chat_rules c = ground arith

    body_rule : ltb 0 (length e.body) ≡ true → json.is_json e.body ≡ true
    unfolding validate
    body_rule b = ground arith

    validate-IsValid : IsValid json now e
    validate-IsValid = record {
      versioned = (is_int-two e.version).0 tests.0;
      known = (valid_type-IsKnown e.typ).0 tests.1;
      identified = (sizes.0, sizes.1);
      timely = timely now e.timestamp tests.2 tests.3;
      short_conversation = sizes.2;
      short_sender = sizes.3;
      chat_peers = λ c. ((chat_rules c).0, (chat_rules c).1);
      chat_sequence = λ c. (chat_rules c).2;
      small_body = sizes.4;
      json_body = λ b. body_rule (nonempty e.body b);
    }

  validate_ok :
      is_int 2 e.version ≡ true
      → valid_type e.typ ≡ true
      → is_nonpos e.timestamp ≡ false
      → exceeds e.timestamp (now + max_future_skew) ≡ false
      → (1 ≤ length e.id)
        × (length e.id ≤ 128)
        × (length e.conversation ≤ 128)
        × (length e.sender ≤ 128)
        × (length e.body ≤ 49152)
      → (e.typ ≡ type_chat → (1 ≤ length e.conversation) × (1 ≤ length e.sender) × (1 ≤ e.sequence))
      → (ltb 0 (length e.body) ≡ true → json.is_json e.body ≡ true)
      → validate json now (some e) ≡ ok tt
  unfolding validate
  validate_ok v k t f z c b = ground arith

  untimely :
      (t : ℤ) → IsTimely now t → (is_nonpos t ≡ false) × (exceeds t (now + max_future_skew) ≡ false)
  untimely (pos t) h = ground arith
  untimely (negsuc t) h = absurd h

  -- `Validate` accepts an envelope exactly if it meets the rules above.
  pub validate_iff : (validate json now (some e) ≡ ok tt) ↔ IsValid json now e
  validate_iff = (
    validate-IsValid,
    λ v.
        validate_ok ((is_int-two e.version).1 v.versioned) ((valid_type-IsKnown e.typ).1 v.known)
          (untimely e.timestamp v.timely).0 (untimely e.timestamp v.timely).1
          (v.identified.0, v.identified.1, v.short_conversation, v.short_sender, v.small_body)
          (λ c. ((v.chat_peers c).0, (v.chat_peers c).1, v.chat_sequence c))
          (λ b. v.json_body (λ empty. ground arith)),
  )

pub checked-eq-ok :
    (json : Json) (now : ℕ) (d : Envelope) {e : Envelope}
    → checked json now d ≡ ok e
    → (d ≡ e) × IsValid json now e
unfolding checked
checked-eq-ok json now d {e} h =
    let (_, v, h₁) = >>=-eq-ok (validate json now (some d)) (λ u. ok d) h in
    let same : d ≡ e = cc h₁ in
    (same, subst (IsValid json now) same ((validate_iff json now d).0 v))

-- What was valid stays valid as the clock goes on.
pub IsValid-later :
    (json : Json) {now later : ℕ} (e : Envelope)
    → now ≤ later
    → IsValid json now e
    → IsValid json later e
IsValid-later json {now} {later} e h v = record {
  versioned = v.versioned;
  known = v.known;
  identified = v.identified;
  timely = go e.timestamp v.timely;
  short_conversation = v.short_conversation;
  short_sender = v.short_sender;
  chat_peers = v.chat_peers;
  chat_sequence = v.chat_sequence;
  small_body = v.small_body;
  json_body = v.json_body;
}
  where
    go : (t : ℤ) → IsTimely now t → IsTimely later t
    go (pos t) p = omega arith
    go (negsuc t) p = p
