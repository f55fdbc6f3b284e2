-- ===== src/Manager/Pending/Waiting.antt =====
-- Which messages wait for an acknowledgement: `trackPending`, `ackPending` and `sendChat`.
use decentralized_p2p_chat_s.Base.{
  ◌≡◌, [], ◌∷◌, Option, none, some, arith, ◌==◌, bytes_eq, if◌then◌else◌, Bytes, Option-cases, inl,
  inr,
}
use decentralized_p2p_chat_s.Base.Dict.{Dict, lookup, insert, erase, lookup-insert, lookup-erase}
use decentralized_p2p_chat_s.Protocol.{Envelope}
use decentralized_p2p_chat_s.Manager.{Env, PendingChat, Manager, or_else}
use decentralized_p2p_chat_s.Manager.Pending.{track_pending, keep_pending, ack_pending}

-- The message that waits for a peer's acknowledgement of an identifier.
abbrev pub waits : Manager → Bytes → Bytes → Option PendingChat
waits m peer id = lookup id (or_else (lookup peer m.pending) [])

pub waits-keep_pending :
    (m : Manager) (remote peer id : Bytes) (messages : Dict Bytes PendingChat)
    → waits (keep_pending m remote messages) peer id
      ≡ (if peer == remote then lookup id messages else waits m peer id)
unfolding keep_pending lookup
waits-keep_pending m remote peer id [] = ground (arith, lookup-erase peer remote m.pending)
waits-keep_pending m remote peer id (x ∷ messages) =
    ground (arith, lookup-insert peer remote (x ∷ messages) m.pending)

-- What waits under an identifier after the acknowledgement of another, or of itself.
pub waits-ack_pending :
    (m : Manager) (remote acked peer id : Bytes)
    → waits (ack_pending m remote acked) peer id ≡ (
        if peer == remote then (if id == acked then none else waits m peer id) else waits m peer id)
unfolding ack_pending lookup
waits-ack_pending m remote acked peer id = elim (Option-cases (lookup remote m.pending)) [
  | inl h ↦ rw (h, ack_pending) (ground arith)
  | inr (messages, h) ↦
      rw (h, ack_pending)
        (ground (
          arith,
          waits-keep_pending m remote peer id (erase acked messages),
          lookup-erase id acked messages,
        ))
]

-- A message as it waits after it was sent once.
abbrev pub first_try : Env → Manager → Envelope → PendingChat
first_try env m e = record {
  ref = m.draws;
  envelope = e;
  last_sent = env.clock m.draws;
  attempts = 1;
}

pub waits-track_pending :
    (env : Env) (m : Manager) (remote : Bytes) (e : Envelope) (peer id : Bytes)
    → waits (track_pending env m remote e) peer id ≡ (
        if peer == remote
        then (if id == e.id then some (first_try env m e) else waits m peer id)
        else waits m peer id)
unfolding track_pending lookup
waits-track_pending env m remote e peer id = ground (
  arith,
  lookup-insert peer remote (insert e.id (first_try env m e) (or_else (lookup remote m.pending) []))
      m.pending,
  lookup-insert id e.id (first_try env m e) (or_else (lookup remote m.pending) []),
)

pub send_seq-ack_pending :
    (m : Manager) (remote id : Bytes) → (ack_pending m remote id).send_seq ≡ m.send_seq
unfolding ack_pending keep_pending
send_seq-ack_pending m remote id = ground arith
