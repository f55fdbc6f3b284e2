-- ===== src/Manager/Streams/Stays.antt =====
-- What sending and receiving leave alone: the streams and the active peer.
use decentralized_p2p_chat_s.Base.{
  ℕ, ◌≡◌, refl, Bool, true, false, [], Option, none, some, arith, bytes_eq, Bytes, Option-cases,
  inl, inr,
}
use decentralized_p2p_chat_s.Security.Session.{Session}
use decentralized_p2p_chat_s.Protocol.{Envelope}
use decentralized_p2p_chat_s.Manager.{
  Env, Manager, ControlBody, send_control, send_envelope, reach, draw, new_chat_envelope,
}
use decentralized_p2p_chat_s.Manager.Pending.{
  Due, track_pending, keep_pending, ack_pending, clear_pending, settle, outcome, send_tracked,
  send_chat, retransmit_one,
}
use decentralized_p2p_chat_s.Manager.Pending.Sending.{numbered, next_number}
use decentralized_p2p_chat_s.Manager.Pending.Steps.{
  Step, sends, controls, receives, retries, clears,
}
use decentralized_p2p_chat_s.Manager.Receive.{
  handle_chat, rename_peer, handle_control, dispatch, handle_envelope, pong,
}
use decentralized_p2p_chat_s.Manager.Receive.Frame.{Quiet, send_built-Quiet, send_envelope-Quiet}
use decentralized_p2p_chat_s.Manager.Receive.Keeps.{handle_chat-Keeps}

pub record Stays (m n : Manager) : Type 0 where
  pub streams : n.streams ≡ m.streams
  pub active : n.active ≡ m.active

pub Stays-refl : (m : Manager) → Stays m m
Stays-refl m = record { streams = refl; active = refl }

Quiet-Stays : {who : Bytes} {m n : Manager} → Quiet who m n → Stays m n
Quiet-Stays q = record { streams = q.streams; active = q.active }

ack_pending-Stays : (m : Manager) (peer id : Bytes) → Stays m (ack_pending m peer id)
unfolding ack_pending keep_pending
ack_pending-Stays m peer id = ground arith

settle-Stays :
    (m : Manager) (now : ℕ) (due : Due) (written : Bool) → Stays m (settle m now due written)
unfolding settle keep_pending
settle-Stays m now due written = ground arith

module _ (env : Env) (peer : Bytes) where
  send_control-Stays : (m : Manager) (body : ControlBody) → Stays m (send_control env m peer body).0
  unfolding send_control
  send_control-Stays m body = Quiet-Stays (send_built-Quiet [] env m peer _)

  handle_control-Stays :
      (m : Manager) (body : ControlBody) → Stays m (handle_control env m peer body)
  unfolding handle_control rename_peer
  handle_control-Stays m body =
      ground (arith, send_control-Stays m (pong body.timestamp), Stays-refl m)

  handle_chat-Stays : (m : Manager) (e : Envelope) → Stays m (handle_chat env m peer e)
  handle_chat-Stays m e = record {
    streams = (handle_chat-Keeps env peer m e).streams;
    active = (handle_chat-Keeps env peer m e).active;
  }

  outcome-Stays :
      (m : Manager) (e : Envelope) (r : Manager × Bool) → Stays m r.0 → Stays m (outcome peer e r).0
  unfolding outcome
  outcome-Stays m e (n, true) s = s
  outcome-Stays m e (n, false) s = ground (arith, s, ack_pending-Stays n peer e.id)

  send_tracked-Stays :
      (m : Manager) (stream : ℕ) (session : Session) (e : Envelope)
      → Stays m (send_tracked env m peer stream session e).0
  unfolding send_tracked track_pending
  send_tracked-Stays m stream session e =
      outcome-Stays m e (send_envelope env (track_pending env m peer e) peer stream session e)
        (record { streams = q.streams; active = q.active })
    where
      q :
          Quiet []
            (track_pending env m peer e)
            (send_envelope env (track_pending env m peer e) peer stream session e).0
      q = send_envelope-Quiet [] env (track_pending env m peer e) peer stream session e

  send_chat-Stays : (m : Manager) (text : Bytes) → Stays m (send_chat env m peer text).0
  unfolding send_chat
  send_chat-Stays m text = elim (Option-cases (reach m peer)) [
    | inl h ↦ rw (h, send_chat) (Stays-refl m)
    | inr (r, h) ↦
        rw (h, send_chat)
          (built r (new_chat_envelope env (numbered env peer m) peer (next_number env peer m) text))
  ]
    where
      built :
          (r : ℕ × Session) (b : Option Envelope)
          → Stays m
              (elim b as (λ _. Manager × Option Envelope) [
                | none ↦ (draw (numbered env peer m), none)
                | some e ↦ send_tracked env (draw (numbered env peer m)) peer r.0 r.1 e
              ]).0
      built r none = ground arith
      built r (some e) = ground (arith, send_tracked-Stays (draw (numbered env peer m)) r.0 r.1 e)

  dispatch-Stays : (m : Manager) (e : Envelope) → Stays m (dispatch env m peer e)
  unfolding dispatch
  dispatch-Stays m e = elim (Option-cases (env.bodies.unmarshal_ack e.body)) [
    | inl h ↦ elim (Option-cases (env.bodies.unmarshal_control e.body)) [
      | inl h' ↦ ground (arith, handle_chat-Stays m e, Stays-refl m)
      | inr (body, h') ↦
          ground (arith, handle_chat-Stays m e, handle_control-Stays m body, Stays-refl m)
    ]
    | inr (id, h) ↦ elim (Option-cases (env.bodies.unmarshal_control e.body)) [
      | inl h' ↦ ground (arith, handle_chat-Stays m e, ack_pending-Stays m peer id, Stays-refl m)
      | inr (body, h') ↦ ground (
        arith,
        handle_chat-Stays m e,
        handle_control-Stays m body,
        ack_pending-Stays m peer id,
        Stays-refl m,
      )
    ]
  ]

  pub handle_envelope-Stays : (m : Manager) (e : Envelope) → Stays m (handle_envelope env m peer e)
  unfolding handle_envelope
  handle_envelope-Stays m e = ground (arith, dispatch-Stays m e, Stays-refl m)

module _ (env : Env) where
  retransmit_one-Stays :
      (m : Manager) (now : ℕ) (due : Due) → Stays m (retransmit_one env now m due)
  unfolding retransmit_one
  retransmit_one-Stays m now due = elim (Option-cases (reach m due.peer)) [
    | inl h ↦ rw (h, retransmit_one) (Stays-refl m)
    | inr (r, h) ↦
        rw (h, retransmit_one)
          (settled r (send_envelope env m due.peer r.0 r.1 due.pending.envelope)
            (Quiet-Stays (send_envelope-Quiet [] env m due.peer r.0 r.1 due.pending.envelope)))
  ]
    where
      settled :
          (r : ℕ × Session) (s : Manager × Bool) → Stays m s.0 → Stays m (settle s.0 now due s.1)
      settled r s q = ground (arith, q, settle-Stays s.0 now due s.1)

  clear_pending-Stays : (m : Manager) (peer : Bytes) → Stays m (clear_pending m peer)
  unfolding clear_pending
  clear_pending-Stays m peer = ground arith

  -- A step of sending or receiving.
  pub Step-Stays : (m n : Manager) → Step env m n → Stays m n
  Step-Stays _ _ (sends m peer text) = send_chat-Stays env peer m text
  Step-Stays _ _ (controls m peer body) = send_control-Stays env peer m body
  Step-Stays _ _ (receives m peer e) = handle_envelope-Stays env peer m e
  Step-Stays _ _ (retries m now due) = retransmit_one-Stays m now due
  Step-Stays _ _ (clears m peer) = clear_pending-Stays m peer
