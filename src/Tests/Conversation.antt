-- ===== src/Tests/Conversation.antt =====
-- Examples of two nodes that talk to each other, with a JSON package that writes lengths.
use decentralized_p2p_chat_s.Base.{
  ℕ, zero, suc, ◌+◌, ◌≤◌, ◌≡◌, ◌≢◌, refl, sym, ap, ◌∙◌, true, List, [], ◌∷◌, ◌++◌, Option, none,
  some, arith, Bytes, length, take, drop, length-append, take-length-append, drop-length-append,
  inl, inr, codes, bytes_eq,
}
use decentralized_p2p_chat_s.Base.Dict.{lookup}
use decentralized_p2p_chat_s.Base.Int.{ℤ, pos, negsuc}
use decentralized_p2p_chat_s.Base64.{raw_url}
use decentralized_p2p_chat_s.Base64
use decentralized_p2p_chat_s.Base64.RoundTrip.{length-encode_raw_url}
use decentralized_p2p_chat_s.Text.{trim_space}
use decentralized_p2p_chat_s.Protocol.{Envelope, Json}
use decentralized_p2p_chat_s.Protocol.Rules.{IsKnown, IsValid}
use decentralized_p2p_chat_s.Protocol.Codec.{IsLawful}
use decentralized_p2p_chat_s.Manager.{Env, Manager}
use decentralized_p2p_chat_s.Manager.Receive.{is_blank}
use decentralized_p2p_chat_s.Conversation.{Host, End, IsHealthy, IsBody, IsFaithful}
use decentralized_p2p_chat_s.Conversation.Messages.{IsSendable}
use decentralized_p2p_chat_s.Conversation.Built.{IsNamed}
use decentralized_p2p_chat_s.Conversation.Links.{Linked}
use decentralized_p2p_chat_s.Conversation.Talk.{
  Turn, from_here, from_there, Proceeds, talk, Delivered, talk-Delivered,
}
use decentralized_p2p_chat_s.Tests.Security.{toy_cipher-IsLawful, sender, receiver, sender-Matches}
use decentralized_p2p_chat_s.Tests.Chat.{toy_env, own, peer, zeros, alone}

abbrev put_int : ℤ → Bytes → Bytes
put_int (pos n) rest = 0 ∷ n ∷ rest
put_int (negsuc n) rest = 1 ∷ n ∷ rest

abbrev get_int : ℕ → ℕ → ℤ
get_int zero n = pos n
get_int (suc a) n = negsuc n

unfoldable read_string : (Bytes → Bytes → Option Envelope) → Bytes → Option Envelope
read_string next [] = none
read_string next (n ∷ rest) = next (take n rest) (drop n rest)

unfoldable put_string : Bytes → Bytes → Bytes
put_string s rest = length s ∷ s ++ rest

length-put_string : (s rest : Bytes) → length (put_string s rest) ≡ length s + length rest + 1
unfolding put_string
length-put_string s rest = omega (arith, length-append s rest)

read_string-append :
    (next : Bytes → Bytes → Option Envelope) (s rest : Bytes)
    → read_string next (put_string s rest) ≡ next s rest
unfolding read_string put_string
read_string-append next s rest = rw (take-length-append s rest, drop-length-append s rest) refl

-- The strings and the body of an envelope.
abbrev put_texts : Envelope → Bytes
put_texts e =
    put_string e.typ (put_string e.id (put_string e.conversation (put_string e.sender e.body)))

abbrev put_envelope : Envelope → Bytes
put_envelope e = e.sequence ∷ put_int e.version (put_int e.timestamp (put_texts e))

module _ (n : ℕ) (v t : ℤ) where
  abbrev get_body : Bytes → Bytes → Bytes → Bytes → Bytes → Option Envelope
  get_body typ id conversation sender body = some (record {
    version = v;
    typ = typ;
    id = id;
    conversation = conversation;
    sender = sender;
    timestamp = t;
    sequence = n;
    body = body;
  })

  abbrev get_sender : Bytes → Bytes → Bytes → Bytes → Option Envelope
  get_sender typ id conversation rest = read_string (get_body typ id conversation) rest

  abbrev get_conversation : Bytes → Bytes → Bytes → Option Envelope
  get_conversation typ id rest = read_string (get_sender typ id) rest

  abbrev get_id : Bytes → Bytes → Option Envelope
  get_id typ rest = read_string (get_conversation typ) rest

  abbrev get_texts : Bytes → Option Envelope
  get_texts rest = read_string get_id rest

abbrev get_envelope : Bytes → Option Envelope
get_envelope (n ∷ a ∷ v ∷ b ∷ t ∷ rest) = get_texts n (get_int a v) (get_int b t) rest
get_envelope _ = none

abbrev lengths_json : Json
lengths_json = record {
  is_json = λ text. true;
  marshal = λ e. some (put_envelope e);
  unmarshal = get_envelope;
}

get_texts-put : (e : Envelope) → get_texts e.sequence e.version e.timestamp (put_texts e) ≡ some e
get_texts-put e =
    let n : ℕ = e.sequence in
    let v : ℤ = e.version in
    let t : ℤ = e.timestamp in
    read_string-append (get_id n v t) e.typ _
    ∙ read_string-append (get_conversation n v t e.typ) e.id _
    ∙ read_string-append (get_sender n v t e.typ e.id) e.conversation _
    ∙ read_string-append (get_body n v t e.typ e.id e.conversation) e.sender e.body

get_envelope-put :
    (e : Envelope) (v t : ℤ)
    → e.version ≡ v
    → e.timestamp ≡ t
    → get_envelope (e.sequence ∷ put_int v (put_int t (put_texts e))) ≡ some e
get_envelope-put e (pos v) (pos t) p q = rw (sym p, sym q) (get_texts-put e)
get_envelope-put e (pos v) (negsuc t) p q = rw (sym p, sym q) (get_texts-put e)
get_envelope-put e (negsuc v) (pos t) p q = rw (sym p, sym q) (get_texts-put e)
get_envelope-put e (negsuc v) (negsuc t) p q = rw (sym p, sym q) (get_texts-put e)

put_envelope-ne-nil : (e : Envelope) → put_envelope e ≢ []
put_envelope-ne-nil e h = cc h

lengths_json-IsLawful : IsLawful lengths_json
lengths_json-IsLawful = record {
  replaced = λ s. s;
  compacted = λ s. s;
  replaced-ascii = λ s ascii. refl;
  unmarshal-marshal = λ e text h.
      ap get_envelope (sym (some_eq h)) ∙ get_envelope-put e e.version e.timestamp refl refl;
  marshal-ne-nil = λ e h. absurd (put_envelope-ne-nil e (some_eq h));
}
  where
    some_eq : {s t : Bytes} → some s ≡ some t → s ≡ t
    some_eq h = cc h

abbrev talk_env : Env
talk_env = record toy_env { json = lengths_json; digest = λ text. zeros 16 }

length-typ : (t : Bytes) → IsKnown t → length t ≤ 8
unfolding codes
length-typ t k = ground arith

length-put_int : (i : ℤ) (rest : Bytes) → length (put_int i rest) ≡ length rest + 2
length-put_int (pos n) rest = omega arith
length-put_int (negsuc n) rest = omega arith

fits : (now : ℕ) (e : Envelope) → IsValid lengths_json now e → length (put_envelope e) ≤ 65536
fits now e v = omega (
  arith,
  length-put_int e.version (put_int e.timestamp (put_texts e)),
  length-put_int e.timestamp (put_texts e),
  length-put_string e.typ
      (put_string e.id (put_string e.conversation (put_string e.sender e.body))),
  length-put_string e.id (put_string e.conversation (put_string e.sender e.body)),
  length-put_string e.conversation (put_string e.sender e.body),
  length-put_string e.sender e.body,
  length-typ e.typ v.known,
  v.identified,
  v.short_conversation,
  v.short_sender,
  v.small_body,
)

ack-IsBody : (raw : Bytes) → length raw ≡ 16 → IsBody talk_env (Base64.encode raw_url raw)
ack-IsBody raw sixteen = record {
  made = inr (Base64.encode raw_url raw, refl);
  small = omega (arith, length-encode_raw_url raw, sixteen);
  json = refl;
}

talk_env-IsFaithful : IsFaithful talk_env
unfolding lengths_json-IsLawful
talk_env-IsFaithful = record {
  cipher = toy_cipher-IsLawful;
  json = lengths_json-IsLawful;
  fits = λ now e v b. (put_envelope e, refl, fits now e v);
  made_compact = λ raw b. refl;
  digest = λ text. omega arith;
  ack = λ raw sixteen. (Base64.encode raw_url raw, refl, refl, ack-IsBody raw sixteen);
}

abbrev host : Host
host = record { random = λ n. some (zeros 16); clock = λ n. 1000; can_write = λ stream n. true }

abbrev here : End
here = record { own = own; stream = 7; host = host }

abbrev there : End
there = record { own = peer; stream = 8; host = host }

host-IsHealthy : IsHealthy 1000 host
host-IsHealthy = record {
  begun = omega arith;
  random = λ n. (zeros 16, refl, refl);
  not_before = λ n. omega arith;
  not_after = λ n. omega arith;
  writes = λ stream n. refl;
}

-- The same host an hour later.
abbrev later : Host
later = record host { clock = λ n. 3601000 }

later-IsHealthy : IsHealthy 3601000 later
later-IsHealthy = record {
  begun = omega arith;
  random = λ n. (zeros 16, refl, refl);
  not_before = λ n. omega arith;
  not_after = λ n. omega arith;
  writes = λ stream n. refl;
}

own-IsNamed : IsNamed talk_env own
own-IsNamed = (omega arith, omega arith, (omega arith, tt))

peer-IsNamed : IsNamed talk_env peer
peer-IsNamed = (omega arith, omega arith, (omega arith, tt))

abbrev first : Manager
first = record alone { streams = (peer, 7) ∷ []; sessions = (peer, sender) ∷ []; active = peer }

abbrev second : Manager
second = record alone {
  node = some peer;
  streams = (own, 8) ∷ [];
  sessions = (own, receiver) ∷ [];
  active = own;
}

first-Linked : Linked here there 2 (codes "low") (codes "high") first second
unfolding lookup bytes_eq
first-Linked = record {
  s = sender;
  t = receiver;
  n = 0;
  k = 0;
  first = record {
    node = refl;
    stream_there = refl;
    session_there = refl;
    counted = refl;
    last = refl;
    empty = refl;
  };
  second = record {
    node = refl;
    stream_there = refl;
    session_there = refl;
    counted = refl;
    last = refl;
    empty = refl;
  };
  out = sender-Matches;
  ret = record { sends = refl; receives = refl; direction = refl; small = omega arith };
  level = refl;
  level_back = refl;
  room_s = omega arith;
  room_t = omega arith;
  room_n = omega arith;
  room_k = omega arith;
}

hi-IsSendable : IsSendable talk_env (codes "hi")
unfolding is_blank trim_space codes
hi-IsSendable = record {
  body = codes "hi";
  marshalled = refl;
  read_back = refl;
  is_body = record { made = inl (codes "hi", refl); small = omega arith; json = refl };
  visible = refl;
}

abbrev turns : List Turn
turns = from_here host host (codes "hi") ∷ from_there later later (codes "hi") ∷ []

first_turn : Proceeds talk_env here there (from_here host host (codes "hi"))
first_turn = record {
  start = 1000;
  sound = record { healthy = host-IsHealthy; named = own-IsNamed };
  sound_there = record { healthy = host-IsHealthy; named = peer-IsNamed };
  sendable = hi-IsSendable;
}

second_turn : Proceeds talk_env here there (from_there later later (codes "hi"))
second_turn = record {
  start = 3601000;
  sound = record { healthy = later-IsHealthy; named = own-IsNamed };
  sound_there = record { healthy = later-IsHealthy; named = peer-IsNamed };
  sendable = hi-IsSendable;
}

talk-Delivered_example :
    Delivered talk_env here there first second turns (talk talk_env here there first second turns)
talk-Delivered_example =
    talk-Delivered talk_env talk_env-IsFaithful here there (codes "low") (codes "high") turns first
      second first-Linked (first_turn, (second_turn, tt))
