-- ===== src/Manager/Pending/Steps.antt =====
-- The messages that wait, over any sequence of steps of the node.
use decentralized_p2p_chat_s.Base.{
  ℕ, ◌≤◌, ◌<◌, ◌≡◌, refl, sym, subst, ◌∙◌, Bool, true, false, [], Option, none, some, arith, leb,
  eqb, not, ◌&&◌, ◌||◌, ◌==◌, bytes_eq, if◌then◌else◌, Bytes, codes, Option-cases, inl, inr,
  Bool-cases,
}
use decentralized_p2p_chat_s.Base.Dict.{lookup, insert, erase, lookup-insert, lookup-erase}
use decentralized_p2p_chat_s.Security.Session.{Session}
use decentralized_p2p_chat_s.Protocol.{Envelope, type_chat}
use decentralized_p2p_chat_s.Manager.{
  ControlBody, Env, PendingChat, Manager, emit, web_error, send_control, send_envelope, reach,
}
use decentralized_p2p_chat_s.Manager.Pending.{
  Due, keep_pending, clear_pending, settle, send_chat, retransmit_one, max_pending_retries,
}
use decentralized_p2p_chat_s.Manager.Pending.Waiting.{waits, waits-keep_pending}
use decentralized_p2p_chat_s.Manager.Pending.Sending.{IsSent, send_chat-IsSent, send_chat-failed}
use decentralized_p2p_chat_s.Manager.Pending.Retries.{
  settle-gone, settle-ours, settle-other, waits_for, again, messages_of,
}
use decentralized_p2p_chat_s.Manager.Receive.{handle_envelope}
use decentralized_p2p_chat_s.Manager.Receive.Acks.{
  Shrinks, same-Shrinks, send_control-pending, handle_envelope-Shrinks,
}
use decentralized_p2p_chat_s.Manager.Receive.Frame.{send_envelope-Quiet}

-- One step: the user sends, an envelope arrives, or the loop sends a message again that was due at
-- some earlier time, however much has changed since.
pub data Step (env : Env) : Manager → Manager → Type 0 where
  sends : (m : Manager) (peer text : Bytes) → Step env m (send_chat env m peer text).0
  controls :
      (m : Manager) (peer : Bytes) (body : ControlBody)
      → Step env m (send_control env m peer body).0
  receives : (m : Manager) (peer : Bytes) (e : Envelope) → Step env m (handle_envelope env m peer e)
  retries : (m : Manager) (now : ℕ) (due : Due) → Step env m (retransmit_one env now m due)
  clears : (m : Manager) (peer : Bytes) → Step env m (clear_pending m peer)

pub data Steps (env : Env) : Manager → Manager → Type 0 where
  stays : (m : Manager) → Steps env m m
  goes_on : (m n o : Manager) → Step env m n → Steps env n o → Steps env m o

-- A message that waits is a chat message that was sent between one and five times, and the
-- identifier it waits under is its own.
pub record IsWaiting (id : Bytes) (p : PendingChat) : Type 0 where
  pub named : p.envelope.id ≡ id
  pub chat : p.envelope.typ ≡ type_chat
  pub tried : 1 ≤ p.attempts
  pub bounded : p.attempts ≤ max_pending_retries

abbrev pub IsTracked : Manager → Type 0
IsTracked m = (peer id : Bytes) (p : PendingChat) → waits m peer id ≡ some p → IsWaiting id p

Shrinks-IsTracked : (m n : Manager) → Shrinks m n → IsTracked m → IsTracked n
Shrinks-IsTracked m n s t peer id p w = t peer id p (s peer id p w)

clear_pending-Shrinks : (m : Manager) (remote : Bytes) → Shrinks m (clear_pending m remote)
unfolding clear_pending lookup
clear_pending-Shrinks m remote peer id p w = ground (arith, lookup-erase peer remote m.pending)

-- What waits after a message was counted, and after it was given up.
abbrev counted : Manager → ℕ → Due → PendingChat → Manager
counted m now due p = record m {
  pending =
      insert due.peer (insert due.pending.envelope.id (again p now) (messages_of m due)) m.pending;
}

counted-IsTracked :
    (m : Manager) (now : ℕ) (due : Due) (p : PendingChat)
    → waits_for m due ≡ some p
    → p.attempts < 5
    → IsTracked m
    → IsTracked (counted m now due p)
unfolding lookup
counted-IsTracked m now due p h few t peer id q w =
    let old = t due.peer due.pending.envelope.id p h in
    elim (Bool-cases ((peer == due.peer) && (id == due.pending.envelope.id))) [
      | inl here ↦
          let same : q ≡ again p now = ground (
            arith,
            lookup-insert peer due.peer
                (insert due.pending.envelope.id (again p now) (messages_of m due)) m.pending,
            lookup-insert id due.pending.envelope.id (again p now) (messages_of m due),
          ) in
          ground (arith, old.named, old.chat, old.tried, old.bounded)
      | inr other ↦ t peer id q (
          ground (
            arith,
            lookup-insert peer due.peer
                (insert due.pending.envelope.id (again p now) (messages_of m due)) m.pending,
            lookup-insert id due.pending.envelope.id (again p now) (messages_of m due),
          ))
    ]

abbrev given_up : Manager → Due → Manager
given_up m due = keep_pending m due.peer (erase due.pending.envelope.id (messages_of m due))

given_up-Shrinks : (m : Manager) (due : Due) → Shrinks m (given_up m due)
given_up-Shrinks m due peer id p w = ground (
  arith,
  waits-keep_pending m due.peer peer id (erase due.pending.envelope.id (messages_of m due)),
  lookup-erase id due.pending.envelope.id (messages_of m due),
)

settle-IsTracked :
    (m : Manager) (now : ℕ) (due : Due) (written : Bool)
    → IsTracked m
    → IsTracked (settle m now due written)
settle-IsTracked m now due written t = elim (Option-cases (waits_for m due)) [
  | inl gone ↦ subst IsTracked (sym (settle-gone m now due written gone)) t
  | inr (p, h) ↦ elim (Bool-cases (eqb p.ref due.pending.ref)) [
    | inr other ↦ subst IsTracked (sym (settle-other m now due p written h other)) t
    | inl ours ↦
        subst IsTracked (sym (settle-ours m now due p written h (ground arith)))
          (go p h (not written || leb 5 p.attempts) refl)
  ]
]
  where
    go :
        (p : PendingChat)
        → waits_for m due ≡ some p
        → (b : Bool) → (not written || leb 5 p.attempts) ≡ b
        → IsTracked (
            if b
            then emit (given_up m due) (web_error (codes "Message delivery failed"))
            else counted m now due p)
    go p h true e =
        Shrinks-IsTracked m (emit (given_up m due) (web_error (codes "Message delivery failed")))
          (given_up-Shrinks m due) t
    go p h false e = counted-IsTracked m now due p h (ground arith) t

module _ (env : Env) where
  send_chat-IsTracked :
      (m : Manager) (peer text : Bytes) → IsTracked m → IsTracked (send_chat env m peer text).0
  send_chat-IsTracked m peer text t = go (send_chat env m peer text) refl
    where
      sent_IsTracked : (n : Manager) (e : Envelope) → IsSent env peer m n e → IsTracked n
      sent_IsTracked n e s other id p w = elim (Bool-cases (other == peer)) [
        | inr away ↦ t other id p (sym (s.others other id away) ∙ w)
        | inl here ↦ elim (Bool-cases (id == e.id)) [
          | inr old ↦ t other id p (ground (arith, s.same_peer id old))
          | inl new ↦ ground (arith, s.waiting, s.chat)
        ]
      ]

      go : (r : Manager × Option Envelope) → send_chat env m peer text ≡ r → IsTracked r.0
      go (n, some e) h = sent_IsTracked n e (send_chat-IsSent env peer m n text e h)
      go (n, none) h = Shrinks-IsTracked m n (send_chat-failed env peer m n text h).0 t

  retransmit_one-IsTracked :
      (m : Manager) (now : ℕ) (due : Due) → IsTracked m → IsTracked (retransmit_one env now m due)
  unfolding retransmit_one
  retransmit_one-IsTracked m now due t = elim (Option-cases (reach m due.peer)) [
    | inl h ↦ rw (h, retransmit_one) t
    | inr (r, h) ↦
        rw (h, retransmit_one)
          (settle-IsTracked (written r) now due _ (
            Shrinks-IsTracked m (written r)
              (same-Shrinks m (written r)
                (send_envelope-Quiet [] env m due.peer r.0 r.1 due.pending.envelope).pending)
              t))
  ]
    where
      written : ℕ × Session → Manager
      written r = (send_envelope env m due.peer r.0 r.1 due.pending.envelope).0

  Step-IsTracked : (m n : Manager) → Step env m n → IsTracked m → IsTracked n
  Step-IsTracked _ _ (sends m peer text) t = send_chat-IsTracked m peer text t
  Step-IsTracked _ _ (controls m peer body) t =
      Shrinks-IsTracked m (send_control env m peer body).0
        (same-Shrinks m (send_control env m peer body).0 (send_control-pending env peer m body)) t
  Step-IsTracked _ _ (receives m peer e) t =
      Shrinks-IsTracked m (handle_envelope env m peer e) (handle_envelope-Shrinks env peer m e) t
  Step-IsTracked _ _ (retries m now due) t = retransmit_one-IsTracked m now due t
  Step-IsTracked _ _ (clears m peer) t =
      Shrinks-IsTracked m (clear_pending m peer) (clear_pending-Shrinks m peer) t

  -- Whatever a node sends and receives, and however old the messages are that its loop sends again:
  -- every message that waits is a chat message under its own identifier that was sent between one
  -- and five times.
  pub Steps-IsTracked : (m n : Manager) → Steps env m n → IsTracked m → IsTracked n
  Steps-IsTracked _ _ (stays m) t = t
  Steps-IsTracked _ _ (goes_on m o n s r) t = Steps-IsTracked o n r (Step-IsTracked m o s t)
