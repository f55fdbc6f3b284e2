-- ===== src/Manager/Receive/Acks.antt =====
-- What an envelope of a peer does to the messages that wait for an acknowledgement.
use decentralized_p2p_chat_s.Base.{
  ◌≡◌, sym, ap, ◌∙◌, [], some, arith, bytes_eq, Bytes, Option-cases, inl, inr,
}
use decentralized_p2p_chat_s.Base.Dict.{lookup}
use decentralized_p2p_chat_s.Protocol.{Envelope}
use decentralized_p2p_chat_s.Manager.{ControlBody, Env, PendingChat, Manager, or_else, send_control}
use decentralized_p2p_chat_s.Manager.Pending.{ack_pending}
use decentralized_p2p_chat_s.Manager.Pending.Waiting.{waits, waits-ack_pending}
use decentralized_p2p_chat_s.Manager.Receive.{
  rename_peer, handle_control, dispatch, handle_envelope, pong,
}
use decentralized_p2p_chat_s.Manager.Receive.Frame.{send_built-Quiet}
use decentralized_p2p_chat_s.Manager.Receive.Keeps.{handle_chat-Keeps}

-- All that waits after was waiting before.
abbrev pub Shrinks : Manager → Manager → Type 0
Shrinks m n =
    (peer id : Bytes) (p : PendingChat) → waits n peer id ≡ some p → waits m peer id ≡ some p

pub same-Shrinks : (m n : Manager) → n.pending ≡ m.pending → Shrinks m n
same-Shrinks m n same peer id p w = ap (λ d. lookup id (or_else (lookup peer d) [])) (sym same) ∙ w

pub ack_pending-Shrinks :
    (m : Manager) (remote acked : Bytes) → Shrinks m (ack_pending m remote acked)
ack_pending-Shrinks m remote acked peer id p w =
    ground (arith, waits-ack_pending m remote acked peer id)

module _ (env : Env) (peer : Bytes) where
  pub send_control-pending :
      (m : Manager) (body : ControlBody) → (send_control env m peer body).0.pending ≡ m.pending
  unfolding send_control
  send_control-pending m body = (send_built-Quiet [] env m peer _).pending

  handle_control-pending :
      (m : Manager) (body : ControlBody) → (handle_control env m peer body).pending ≡ m.pending
  unfolding handle_control rename_peer
  handle_control-pending m body = ground (arith, send_control-pending m (pong body.timestamp))

  dispatch-Shrinks : (m : Manager) (e : Envelope) → Shrinks m (dispatch env m peer e)
  unfolding dispatch
  dispatch-Shrinks m e remote id p w = elim (Option-cases (env.bodies.unmarshal_ack e.body)) [
    | inl h ↦ elim (Option-cases (env.bodies.unmarshal_control e.body)) [
      | inl h' ↦
          ground (arith, same-Shrinks _ _ (handle_chat-Keeps env peer m e).pending remote id p)
      | inr (body, h') ↦ ground (
        arith,
        same-Shrinks _ _ (handle_chat-Keeps env peer m e).pending remote id p,
        handle_control-pending m body,
      )
    ]
    | inr (acked, h) ↦ elim (Option-cases (env.bodies.unmarshal_control e.body)) [
      | inl h' ↦ ground (
        arith,
        same-Shrinks _ _ (handle_chat-Keeps env peer m e).pending remote id p,
        ack_pending-Shrinks m peer acked remote id p,
      )
      | inr (body, h') ↦ ground (
        arith,
        same-Shrinks _ _ (handle_chat-Keeps env peer m e).pending remote id p,
        ack_pending-Shrinks m peer acked remote id p,
        handle_control-pending m body,
      )
    ]
  ]

  pub handle_envelope-Shrinks :
      (m : Manager) (e : Envelope) → Shrinks m (handle_envelope env m peer e)
  unfolding handle_envelope
  handle_envelope-Shrinks m e remote id p = ground (arith, dispatch-Shrinks m e remote id p)
