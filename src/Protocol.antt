-- ===== src/Protocol.antt =====
-- protocol/envelope.go: the envelope of protocol v2. JSON, the clock and the source of randomness
-- are arguments.
pub mod Rules
pub mod Create
pub mod Codec
use decentralized_p2p_chat_s.Base.{
  ℕ, ◌+◌, ◌*◌, ◌≡◌, refl, Bool, true, false, not, ◌&&◌, ◌||◌, List, [], ◌∷◌, Option, none, some,
  Result, ok, err, ◌>>=◌, ◌>>◌, guard, or_fail, eqb, ltb, leb, ◌==◌, bytes_eq, if◌then◌else◌, Bytes,
  length, codes, String,
}
use decentralized_p2p_chat_s.Base.Int.{ℤ, pos, negsuc, is_nonpos, exceeds, is_int}
use decentralized_p2p_chat_s.Base64.{raw_url}
use decentralized_p2p_chat_s.Base64

-- `MessageType` is a string.
abbrev pub type_chat : Bytes
type_chat = codes "chat"

abbrev pub type_ack : Bytes
type_ack = codes "ack"

abbrev pub type_control : Bytes
type_control = codes "control"

abbrev pub type_error : Bytes
type_error = codes "error"

abbrev pub type_typing : Bytes
type_typing = codes "typing"

abbrev pub type_presence : Bytes
type_presence = codes "presence"

abbrev pub max_envelope_size : ℕ
max_envelope_size = 64 * 1024

abbrev pub max_body_size : ℕ
max_body_size = 48 * 1024

abbrev pub max_id_length : ℕ
max_id_length = 128

-- Five minutes, in milliseconds.
abbrev pub max_future_skew : ℕ
max_future_skew = 5 * 60 * 1000

pub record Envelope : Type 0 where
  pub version : ℤ
  pub typ : Bytes
  pub id : Bytes
  pub conversation : Bytes
  pub sender : Bytes
  pub timestamp : ℤ
  pub sequence : ℕ
  pub body : Bytes

-- `encoding/json` at the types that the package uses it at; `none` is an error.
pub record Json : Type 0 where
  pub is_json : Bytes → Bool
  pub marshal : Envelope → Option Bytes
  pub unmarshal : Bytes → Option Envelope

pub data EnvelopeError : Type 0 where
  nil_envelope unsupported_version unknown_type invalid_id invalid_timestamp : EnvelopeError
  in_the_future long_conversation long_sender missing_peer missing_sequence : EnvelopeError
  large_body invalid_body no_randomness bad_body marshal_failed : EnvelopeError
  large_envelope empty_envelope decode_failed : EnvelopeError

-- `MessageType.Valid`
unfoldable pub valid_type : Bytes → Bool
valid_type t =
    t == type_chat
    || t == type_ack
    || t == type_control
    || t == type_error
    || t == type_typing
    || t == type_presence

abbrev pub is_empty : Bytes → Bool
is_empty s = eqb (length s) 0

-- `Validate`; the clock shows `now` milliseconds.
unfoldable pub validate : Json → ℕ → Option Envelope → Result EnvelopeError (Unit {0})
unfolding valid_type
validate json now none = err nil_envelope
validate json now (some e) = do
  guard (is_int 2 e.version) unsupported_version
  guard (valid_type e.typ) unknown_type
  guard (not (is_empty e.id || ltb max_id_length (length e.id))) invalid_id
  guard (not (is_nonpos e.timestamp)) invalid_timestamp
  guard (not (exceeds e.timestamp (now + max_future_skew))) in_the_future
  guard (not (ltb max_id_length (length e.conversation))) long_conversation
  guard (not (ltb max_id_length (length e.sender))) long_sender
  guard (not (e.typ == type_chat && (is_empty e.conversation || is_empty e.sender))) missing_peer
  guard (not (e.typ == type_chat && eqb e.sequence 0)) missing_sequence
  guard (not (ltb max_body_size (length e.body))) large_body
  guard (not (ltb 0 (length e.body) && not (json.is_json e.body))) invalid_body

-- An envelope, if it is valid.
unfoldable pub checked : Json → ℕ → Envelope → Result EnvelopeError Envelope
checked json now e = do validate json now (some e); ok e

-- `NewID`, from the sixteen bytes that `rand.Read` gave, if it did.
unfoldable pub new_id : Option Bytes → Result EnvelopeError Bytes
new_id random = do raw ← or_fail random no_randomness; ok (Base64.encode raw_url raw)

-- The body: `nil`, or what `json.Marshal` makes of it, if it succeeds.
abbrev pub Body : Type 0
Body = Option (Option Bytes)

unfoldable pub marshal_body : Body → Result EnvelopeError Bytes
marshal_body none = ok []
marshal_body (some none) = err bad_body
marshal_body (some (some raw)) = ok raw

abbrev pub draft : ℕ → Bytes → Bytes → Bytes → ℕ → Bytes → Bytes → Envelope
draft now typ conversation sender sequence id raw = record {
  version = pos 2;
  typ = typ;
  id = id;
  conversation = conversation;
  sender = sender;
  timestamp = pos now;
  sequence = sequence;
  body = raw;
}

unfoldable pub new_envelope :
    Json → ℕ → Option Bytes → Bytes → Bytes → Bytes → ℕ → Body → Result EnvelopeError Envelope
unfolding new_id marshal_body checked
new_envelope json now random typ conversation sender sequence body = do
  id ← new_id random
  raw ← marshal_body body
  checked json now (draft now typ conversation sender sequence id raw)

-- `New`
unfoldable pub new :
    Json → ℕ → Option Bytes → Bytes → Bytes → Bytes → Body → Result EnvelopeError Envelope
new json now random typ conversation sender body =
    new_envelope json now random typ conversation sender 0 body

-- `NewChat`
unfoldable pub new_chat :
    Json → ℕ → Option Bytes → Bytes → Bytes → ℕ → Body → Result EnvelopeError Envelope
new_chat json now random conversation sender sequence body =
    new_envelope json now random type_chat conversation sender sequence body

-- `Encode`
unfoldable pub encode : Json → ℕ → Envelope → Result EnvelopeError Bytes
encode json now e = do
  validate json now (some e)
  text ← or_fail (json.marshal e) marshal_failed
  guard (not (ltb max_envelope_size (length text))) large_envelope
  ok text

-- `Decode`
unfoldable pub decode : Json → ℕ → Bytes → Result EnvelopeError Envelope
unfolding checked
decode json now text = do
  guard (not (is_empty text)) empty_envelope
  guard (not (ltb max_envelope_size (length text))) large_envelope
  e ← or_fail (json.unmarshal text) decode_failed
  checked json now e
