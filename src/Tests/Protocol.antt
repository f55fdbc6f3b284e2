-- ===== src/Tests/Protocol.antt =====
-- Examples of the protocol and of the safety number.
use decentralized_p2p_chat_s.Base.{
  length, ◌≤◌, ℕ, zero, suc, ◌≡◌, ◌≢◌, ◌↔◌, refl, ap, Bool, true, ◌&&◌, [], ◌∷◌, none, some, ok,
  err, arith, Bytes, length, All, codes, if◌then◌else◌, eqb, ◌==◌, bytes_eq, cons_head, cons-ne-nil,
}
use decentralized_p2p_chat_s.Base.Int.{ℤ, pos, negsuc, is_int}
use decentralized_p2p_chat_s.Protocol.{
  max_envelope_size, checked, Envelope, Json, type_chat, validate, encode, decode,
}
use decentralized_p2p_chat_s.Protocol.Rules.{IsValid}
use decentralized_p2p_chat_s.Protocol.Codec.{IsLawful, as_read, encode_iff, decode-encode}
use decentralized_p2p_chat_s.Safety.{SafetyEnv, safety_number}
use decentralized_p2p_chat_s.Safety.Laws.{IsShown, safety_number_comm}

abbrev sample : Envelope
sample = record {
  version = pos 2;
  typ = type_chat;
  id = 1 ∷ [];
  conversation = 2 ∷ [];
  sender = 3 ∷ [];
  timestamp = pos 1000;
  sequence = 1;
  body = 4 ∷ [];
}

abbrev is_sample : Envelope → Bool
is_sample e =
    is_int 2 e.version
    && e.typ == type_chat
    && e.id == 1 ∷ []
    && e.conversation == 2 ∷ []
    && e.sender == 3 ∷ []
    && is_int 1000 e.timestamp
    && eqb e.sequence 1
    && e.body == 4 ∷ []

-- A JSON package that knows one envelope.
abbrev toy_json : Json
toy_json = record {
  is_json = λ text. true;
  marshal = λ e. if is_sample e then some (codes "sample") else none;
  unmarshal = λ text. some sample;
}

is_int-eq : (n : ℕ) (i : ℤ) → is_int n i ≡ true → i ≡ pos n
is_int-eq n (pos m) h = ground arith
is_int-eq n (negsuc m) h = cc h

is_sample-eq : (e : Envelope) → is_sample e ≡ true → sample ≡ e
is_sample-eq e h = ground (arith, is_int-eq 2 e.version, is_int-eq 1000 e.timestamp)

codes-ne-nil : codes "sample" ≢ []
unfolding codes
codes-ne-nil = cons-ne-nil

toy_json-IsLawful : IsLawful toy_json
toy_json-IsLawful = record {
  replaced = λ s. s;
  compacted = λ s. s;
  replaced-ascii = λ s ascii. refl;
  unmarshal-marshal = λ e text h. ap some (is_sample-eq e (ground arith));
  marshal-ne-nil = λ e h. ground (arith, codes-ne-nil);
}

abbrev zeros : ℕ → Bytes
zeros zero = []
zeros (suc n) = 0 ∷ zeros n

encode-sample : encode toy_json 1000 sample ≡ ok (codes "sample")
unfolding encode validate codes bytes_eq
encode-sample = refl

decode-sample : decode toy_json 1000 (codes "sample") ≡ ok sample
unfolding decode validate codes bytes_eq
decode-sample = refl

encode_iff_example : (encode toy_json 1000 sample ≡ ok (codes "sample")) ↔ (
    IsValid toy_json 1000 sample
    × (toy_json.marshal sample ≡ some (codes "sample"))
    × (length (codes "sample") ≤ max_envelope_size))
encode_iff_example = encode_iff toy_json 1000 sample (codes "sample")

decode-encode_example :
    (decode toy_json 2000 (codes "sample")
      ≡ checked toy_json 2000 (as_read toy_json toy_json-IsLawful sample))
    × (1000 ≤ 2000
        → as_read toy_json toy_json-IsLawful sample ≡ sample
        → decode toy_json 2000 (codes "sample") ≡ ok sample)
decode-encode_example =
    decode-encode toy_json toy_json-IsLawful 1000 2000 sample (codes "sample") encode-sample

-- The digest is the text itself, so the numbers are those of the texts.
abbrev toy_safety : SafetyEnv
toy_safety = record {
  pub_key = λ peer. some (record { key_type = 1; raw = some peer });
  id_string = λ peer. peer;
  digest = λ text. text;
}

abbrev number : Bytes
number = elim (safety_number toy_safety true (1 ∷ []) (2 ∷ [])) [ err e ↦ [] | ok s ↦ s ]

number_lem : safety_number toy_safety true (1 ∷ []) (2 ∷ []) ≡ ok number
unfolding safety_number bytes_eq
number_lem = refl

safety_number_comm_example :
    (safety_number toy_safety true (2 ∷ []) (1 ∷ []) ≡ ok number)
    × (length number ≡ 71)
    × All IsShown number
safety_number_comm_example =
    safety_number_comm toy_safety true (1 ∷ []) (2 ∷ []) number
      (λ e. let n : 1 ≡ 2 = cons_head e in omega (arith, n)) number_lem
