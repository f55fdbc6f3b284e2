-- ===== src/Manager/Receive/Bounds.antt =====
-- How much the receive buffer of a peer can hold, whatever the peer sends.
use decentralized_p2p_chat_s.Base.{
  ℕ, zero, suc, ◌+◌, ◌%◌, ◌^◌, ◌≤◌, ◌≡◌, refl, ap, List, [], ◌∷◌, arith, nat_eq, bytes_eq, Bytes,
  length, Option-cases, inl, inr,
}
use decentralized_p2p_chat_s.Base.Dict.{
  lookup, insert, erase, lookup-insert_self, length-insert-le, length-erase-le,
}
use decentralized_p2p_chat_s.Protocol.{Envelope}
use decentralized_p2p_chat_s.Manager.{ControlBody, Env, Manager, or_else, send_ack, send_control}
use decentralized_p2p_chat_s.Manager.Pending.{ack_pending, keep_pending}
use decentralized_p2p_chat_s.Manager.Receive.{
  with_held, moved_on, deliver_chat, admit, take_next, consume, consume_buffered, drain,
  drain_receive_buffer, handle_chat, rename_peer, handle_control, dispatch, handle_envelope, react,
  max_receive_buffer, pong,
}
use decentralized_p2p_chat_s.Manager.Receive.Frame.{send_ack-Quiet, send_built-Quiet}
use decentralized_p2p_chat_s.Manager.Receive.Order.{last_seq, buffer_of}
use decentralized_p2p_chat_s.Manager.Receive.Delivery.{handle_all}

module _ (env : Env) (peer : Bytes) where
  -- The buffer of the peer is no larger than allowed.
  abbrev pub IsBounded : Manager → Type 0
  IsBounded m = length (buffer_of m peer) ≤ max_receive_buffer

  buffer_of-send_ack :
      (m : Manager) (id : Bytes) → buffer_of (send_ack env m peer id).0 peer ≡ buffer_of m peer
  buffer_of-send_ack m id =
      ap (λ b. or_else (lookup peer b) []) (send_ack-Quiet [] env m peer id).recv_buffer

  pub consume_buffered-buffer :
      (m : Manager) (e : Envelope)
      → buffer_of (consume_buffered env m peer e) peer ≡ buffer_of m peer
  unfolding consume_buffered consume deliver_chat
  consume_buffered-buffer m e = elim (Option-cases (env.bodies.unmarshal_chat e.body)) [
    | inl h ↦ rw (h, consume_buffered) refl
    | inr (text, h) ↦
        rw (h, consume_buffered)
          (ground (arith, buffer_of-send_ack (deliver_chat env m peer text) e.id))
  ]

  drain-IsBounded : (rounds : ℕ) (m : Manager) → IsBounded m → IsBounded (drain env rounds m peer)
  unfolding drain take_next
  drain-IsBounded zero m b = b
  drain-IsBounded (suc rounds) m b =
      elim (Option-cases (lookup ((last_seq m peer + 1) % 2 ^ 64) (buffer_of m peer))) [
        | inl h ↦ rw (h, drain, take_next) b
        | inr (e, h) ↦
            rw (h, drain, take_next)
              (drain-IsBounded rounds (consume_buffered env _ peer e) (
                rw
                  (
                    consume_buffered-buffer _ e,
                    lookup-insert_self peer
                        (erase ((last_seq m peer + 1) % 2 ^ 64) (buffer_of m peer)) m.recv_buffer,
                  )
                  (omega (
                    arith,
                    b,
                    length-erase-le ((last_seq m peer + 1) % 2 ^ 64) (buffer_of m peer),
                  ))))
      ]

  consume-IsBounded :
      (m : Manager) (e : Envelope) (text : Bytes)
      → IsBounded m
      → IsBounded (consume env m peer e text)
  unfolding consume deliver_chat
  consume-IsBounded m e text b = rw (buffer_of-send_ack (deliver_chat env m peer text) e.id) b

  react-IsBounded :
      (m : Manager) (e : Envelope) (text : Bytes)
      → IsBounded m
      → IsBounded (react env peer e text (admit m peer e))
  unfolding react admit drain_receive_buffer
  react-IsBounded m e text b = ground (
    arith,
    buffer_of-send_ack m e.id,
    buffer_of-send_ack (with_held peer m e) e.id,
    lookup-insert_self peer (insert e.sequence e (buffer_of m peer)) m.recv_buffer,
    length-insert-le e.sequence e (buffer_of m peer),
    drain-IsBounded (suc (length (buffer_of (consume env (moved_on peer m e) peer e text) peer)))
        (consume env (moved_on peer m e) peer e text)
        (consume-IsBounded (moved_on peer m e) e text b),
  )

  handle_chat-IsBounded :
      (m : Manager) (e : Envelope) → IsBounded m → IsBounded (handle_chat env m peer e)
  unfolding handle_chat
  handle_chat-IsBounded m e b = elim (Option-cases (env.bodies.unmarshal_chat e.body)) [
    | inl h ↦ rw (h, handle_chat) b
    | inr (text, h) ↦ rw (h, handle_chat) (ground (arith, react-IsBounded m e text b))
  ]

  buffer_of-send_control :
      (m : Manager) (body : ControlBody)
      → buffer_of (send_control env m peer body).0 peer ≡ buffer_of m peer
  unfolding send_control
  buffer_of-send_control m body =
      ap (λ b. or_else (lookup peer b) []) (send_built-Quiet [] env m peer _).recv_buffer

  buffer_of-handle_control :
      (m : Manager) (body : ControlBody)
      → buffer_of (handle_control env m peer body) peer ≡ buffer_of m peer
  unfolding handle_control rename_peer
  buffer_of-handle_control m body = ground (arith, buffer_of-send_control m (pong body.timestamp))

  buffer_of-ack_pending :
      (m : Manager) (id : Bytes) → buffer_of (ack_pending m peer id) peer ≡ buffer_of m peer
  unfolding ack_pending keep_pending
  buffer_of-ack_pending m id = ground arith

  dispatch-IsBounded :
      (m : Manager) (e : Envelope) → IsBounded m → IsBounded (dispatch env m peer e)
  unfolding dispatch
  dispatch-IsBounded m e b = elim (Option-cases (env.bodies.unmarshal_ack e.body)) [
    | inl h ↦ elim (Option-cases (env.bodies.unmarshal_control e.body)) [
      | inl h' ↦ ground (arith, handle_chat-IsBounded m e b)
      | inr (body, h') ↦
          ground (arith, handle_chat-IsBounded m e b, buffer_of-handle_control m body)
    ]
    | inr (id, h) ↦ elim (Option-cases (env.bodies.unmarshal_control e.body)) [
      | inl h' ↦ ground (arith, handle_chat-IsBounded m e b, buffer_of-ack_pending m id)
      | inr (body, h') ↦ ground (
        arith,
        handle_chat-IsBounded m e b,
        buffer_of-ack_pending m id,
        buffer_of-handle_control m body,
      )
    ]
  ]

  handle_envelope-IsBounded :
      (m : Manager) (e : Envelope) → IsBounded m → IsBounded (handle_envelope env m peer e)
  unfolding handle_envelope
  handle_envelope-IsBounded m e b = ground (arith, dispatch-IsBounded m e b)

  -- Whatever envelopes a peer sends, of any type and content, its receive buffer never holds more
  -- than the 64 messages that are allowed.
  pub handle_all-IsBounded :
      (m : Manager) (es : List Envelope) → IsBounded m → IsBounded (handle_all env peer m es)
  unfolding handle_all
  handle_all-IsBounded m [] b = b
  handle_all-IsBounded m (e ∷ es) b =
      handle_all-IsBounded (handle_envelope env m peer e) es (handle_envelope-IsBounded m e b)
