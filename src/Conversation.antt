-- ===== src/Conversation.antt =====
-- main.go and chat_envelope.go: two nodes that are connected to each other, and the lines that one
-- writes and the other reads.
pub mod Frames
pub mod Built
pub mod Heard
pub mod Steps
pub mod Messages
pub mod Links
pub mod Turn
pub mod Passed
pub mod Talk
use decentralized_p2p_chat_s.Base.{
  ℕ, suc, ◌+◌, ◌*◌, ◌%◌, ◌^◌, ◌≤◌, ◌<◌, ◌≡◌, ◌⊎◌, Bool, true, false, List, [], ◌∷◌, Option, none,
  some, eqb, if◌then◌else◌, Bytes, length,
}
use decentralized_p2p_chat_s.Base64.{raw_url}
use decentralized_p2p_chat_s.Base64
use decentralized_p2p_chat_s.Security.Session.Channel
use decentralized_p2p_chat_s.Protocol.{Envelope}
use decentralized_p2p_chat_s.Protocol.Rules.{IsValid}
use decentralized_p2p_chat_s.Protocol.Codec
use decentralized_p2p_chat_s.Manager.{
  Env, Manager, Effect, wrote, closed, chat_shown, own_message, web_error, peers_changed,
  disconnected, printed,
}
use decentralized_p2p_chat_s.Manager.Pending.{send_chat}
use decentralized_p2p_chat_s.Manager.Streams.{read_line}

-- What differs between two nodes, and for one node from one time to another: randomness, the clock and
-- the streams.
pub record Host : Type 0 where
  pub random : ℕ → Option Bytes
  pub clock : ℕ → ℕ
  pub can_write : ℕ → ℕ → Bool

abbrev pub on : Env → Host → Env
on env h = record env { random = h.random; clock = h.clock; can_write = h.can_write }

-- A host on which nothing fails, with a clock that shows times in the five minutes after `start`.
pub record IsHealthy (start : ℕ) (h : Host) : Type 0 where
  pub begun : 0 < start
  pub random : (n : ℕ) → (raw : Bytes) × (h.random n ≡ some raw) × (length raw ≡ 16)
  pub not_before : (n : ℕ) → start ≤ h.clock n
  pub not_after : (n : ℕ) → h.clock n ≤ start + 5 * 60 * 1000
  pub writes : (stream n : ℕ) → h.can_write stream n ≡ true

-- The JSON of a body that a node sends: an acknowledgement of an identifier, or a chat text.
pub record IsBody (env : Env) (raw : Bytes) : Type 0 where
  pub made :
      ((text : Bytes) × (env.bodies.marshal_chat text ≡ some raw))
      ⊎ ((id : Bytes) × (env.bodies.marshal_ack id ≡ some raw))
  pub small : length raw ≤ 49152
  pub json : env.json.is_json raw ≡ true

-- The documented behaviour of the libraries: the cipher opens what it sealed, JSON is read back and
-- fits, what `Marshal` made of a body has nothing more to compact, and a digest is long enough.
pub record IsFaithful (env : Env) : Type 0 where
  pub cipher : Channel.IsLawful env.cipher
  pub json : Codec.IsLawful env.json
  pub fits :
      (now : ℕ) (e : Envelope)
      → IsValid env.json now e
      → IsBody env e.body
      → (text : Bytes) × (env.json.marshal e ≡ some text) × (length text ≤ 65536)
  pub made_compact : (raw : Bytes) → IsBody env raw → json.compacted raw ≡ raw
  pub digest : (text : Bytes) → 16 ≤ length (env.digest text)
  pub ack :
      (raw : Bytes)
      → length raw ≡ 16
      → (text : Bytes) × (env.bodies.marshal_ack (Base64.encode raw_url raw) ≡ some text)
        × (env.bodies.unmarshal_ack text ≡ some (Base64.encode raw_url raw))
        × IsBody env text

-- The last thing that a node did, if that was to write a line on the stream.
unfoldable pub newest_line : ℕ → List Effect → Option Bytes
newest_line stream (wrote s line ∷ es) = if eqb s stream then some line else none
newest_line stream _ = none

-- The node at the other end reads the line, if there is one.
unfoldable pub carry : Env → Manager → Bytes → ℕ → Option Bytes → Manager
carry env m peer stream none = m
carry env m peer stream (some line) = read_line env m peer stream (some line)

-- An end of a connection: the node, the stream, and the host it is on.
pub record End : Type 0 where
  pub own : Bytes
  pub stream : ℕ
  pub host : Host

-- The end at a time when its host answers like another one.
abbrev pub at_host : End → Host → End
at_host e h = record e { host = h }

-- The first end's user writes a text. The other end reads the line, and the first end reads the line
-- that comes back.
unfoldable pub say : Env → End → End → Manager × Manager → Bytes → Manager × Manager
unfolding newest_line carry
say env here there (a, b) text =
    let a' = (send_chat (on env here.host) a there.own text).0 in
    let b' =
      carry (on env there.host) b here.own there.stream (newest_line here.stream a'.effects) in
    (carry (on env here.host) a' there.own here.stream (newest_line there.stream b'.effects), b')
