-- ===== src/Manager/Pending.antt =====
-- chat_envelope.go: the messages that wait for an acknowledgement, `sendChat` and the retransmission.
pub mod Waiting
pub mod Sending
pub mod Retries
pub mod Steps
use decentralized_p2p_chat_s.Base.{
  ℕ, zero, suc, ◌+◌, ◌-◌, ◌%◌, ◌^◌, ◌≡◌, refl, Bool, true, false, not, ◌||◌, List, [], ◌∷◌, ◌++◌,
  Option, none, some, Result, ok, err, eqb, ltb, leb, ◌==◌, bytes_eq, if◌then◌else◌, Bytes, length,
  codes,
}
use decentralized_p2p_chat_s.Base.Dict.{Dict, lookup, insert, erase}
use decentralized_p2p_chat_s.Security.Session.{Session}
use decentralized_p2p_chat_s.Protocol.{Envelope}
use decentralized_p2p_chat_s.Manager.{
  Env, PendingChat, Manager, web_error, or_else, emit, draw, reach, new_chat_envelope,
  send_envelope,
}

-- `pendingTimeout`, in milliseconds.
abbrev pub pending_timeout : ℕ
pending_timeout = 2000

-- `maxPendingRetries`
abbrev pub max_pending_retries : ℕ
max_pending_retries = 5

-- `trackPending`
unfoldable pub track_pending : Env → Manager → Bytes → Envelope → Manager
track_pending env m remote e =
    let messages = or_else (lookup remote m.pending) [] in
    record m {
      pending =
          insert remote
            (insert e.id
              (record { ref = m.draws; envelope = e; last_sent = env.clock m.draws; attempts = 1 })
              messages)
            m.pending;
      draws = suc m.draws;
    }

-- Puts a peer's messages back, or drops the peer if none is left.
unfoldable pub keep_pending : Manager → Bytes → Dict Bytes PendingChat → Manager
keep_pending m remote [] = record m { pending = erase remote m.pending }
keep_pending m remote (x ∷ messages) = record m { pending = insert remote (x ∷ messages) m.pending }

-- `ackPending`
unfoldable pub ack_pending : Manager → Bytes → Bytes → Manager
unfolding keep_pending
ack_pending m remote message = elim (lookup remote m.pending) [
  | none ↦ m
  | some messages ↦ keep_pending m remote (erase message messages)
]

-- `clearPending`
unfoldable pub clear_pending : Manager → Bytes → Manager
clear_pending m remote = record m { pending = erase remote m.pending }

-- `pendingCount`
unfoldable pub pending_count : Manager → Bytes → ℕ
pending_count m remote = length (or_else (lookup remote m.pending) [])

-- What follows the attempt to write: the message is taken back if it failed.
unfoldable pub outcome : Bytes → Envelope → Manager × Bool → Manager × Option Envelope
unfolding ack_pending
outcome remote e (m, true) = (m, some e)
outcome remote e (m, false) = (ack_pending m remote e.id, none)

-- The end of `sendChat`: a message waits before it is written.
unfoldable pub send_tracked :
    Env → Manager → Bytes → ℕ → Session → Envelope → Manager × Option Envelope
unfolding track_pending outcome
send_tracked env m remote stream session e =
    outcome remote e (send_envelope env (track_pending env m remote e) remote stream session e)

-- `sendChat`; `none` is an error. The number is used up even if the envelope cannot be built.
unfoldable pub send_chat : Env → Manager → Bytes → Bytes → Manager × Option Envelope
unfolding send_tracked
send_chat env m remote text = elim (reach m remote) [
  | none ↦ (m, none)
  | some (stream, session) ↦
      let sequence = (or_else (lookup remote m.send_seq) 0 + 1) % 2 ^ 64 in
      let m' : Manager = record m { send_seq = insert remote sequence m.send_seq } in
      elim (new_chat_envelope env m' remote sequence text) [
        | none ↦ (draw m', none)
        | some e ↦ send_tracked env (draw m') remote stream session e
      ]
]

pub record Due : Type 0 where
  pub peer : Bytes
  pub pending : PendingChat

-- The first loop of `retransmitDue`: the messages of one peer that were sent two seconds ago or more.
due_of : ℕ → Bytes → Dict Bytes PendingChat → List Due
due_of now peer [] = []
due_of now peer ((_, p) ∷ messages) =
    let rest = due_of now peer messages in
    if leb (p.last_sent + pending_timeout) now
    then record { peer = peer; pending = p } ∷ rest
    else rest

unfoldable pub collect_due : ℕ → Dict Bytes (Dict Bytes PendingChat) → List Due
unfolding due_of
collect_due now [] = []
collect_due now ((peer, messages) ∷ pending) = due_of now peer messages ++ collect_due now pending

-- What follows a retransmission, if the same message still waits: it is given up after an error or
-- after five attempts, and otherwise its attempt is counted.
unfoldable pub settle : Manager → ℕ → Due → Bool → Manager
unfolding keep_pending
settle m now due written =
    let messages = or_else (lookup due.peer m.pending) [] in
    elim (lookup due.pending.envelope.id messages) [
      | none ↦ m
      | some current ↦
          if eqb current.ref due.pending.ref
          then (if not written || leb max_pending_retries current.attempts
              then emit (keep_pending m due.peer (erase due.pending.envelope.id messages))
                  (web_error (codes "Message delivery failed"))
              else record m {
                pending =
                    insert due.peer
                      (insert due.pending.envelope.id
                        (record current { attempts = current.attempts + 1; last_sent = now })
                        messages)
                      m.pending;
              })
          else m
    ]

-- One round of the second loop of `retransmitDue`.
unfoldable pub retransmit_one : Env → ℕ → Manager → Due → Manager
unfolding settle
retransmit_one env now m due = elim (reach m due.peer) [
  | none ↦ m
  | some (stream, session) ↦
      let (m', written) = send_envelope env m due.peer stream session due.pending.envelope in
      settle m' now due written
]

retransmit_all : Env → ℕ → Manager → List Due → Manager
unfolding retransmit_one
retransmit_all env now m [] = m
retransmit_all env now m (d ∷ due) = retransmit_all env now (retransmit_one env now m d) due

-- `retransmitDue`, with nothing else in between.
unfoldable pub retransmit_due : Env → Manager → Manager
unfolding collect_due retransmit_all
retransmit_due env m =
    let now = env.clock m.draws in retransmit_all env now (draw m) (collect_due now m.pending)
