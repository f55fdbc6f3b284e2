-- ===== src/Conversation/Heard.antt =====
-- `handleEnvelope` on the chat message that is next in order, when nothing is buffered.
use decentralized_p2p_chat_s.Base.{
  ◌+◌, ◌^◌, ◌<◌, ◌≡◌, refl, ap, ◌∙◌, false, [], some, arith, bytes_eq, nat_eq, Bytes,
}
use decentralized_p2p_chat_s.Base.Dict.{lookup}
use decentralized_p2p_chat_s.Protocol.{Envelope}
use decentralized_p2p_chat_s.Manager.{Env, Manager, or_else, send_ack}
use decentralized_p2p_chat_s.Manager.Receive.{
  is_blank, deliver_chat, moved_on, next, admit, consume, drain, drain_receive_buffer, take_next,
  handle_chat, react,
}
use decentralized_p2p_chat_s.Manager.Receive.Frame.{send_ack-Quiet}
use decentralized_p2p_chat_s.Manager.Receive.Order.{last_seq, buffer_of}

module _ (env : Env) (peer : Bytes) where
  drain_nothing : (m : Manager) → buffer_of m peer ≡ [] → drain_receive_buffer env m peer ≡ m
  unfolding drain_receive_buffer drain take_next lookup
  drain_nothing m empty = rw (empty, drain_receive_buffer, drain, take_next) refl

  module _ (m : Manager) (e : Envelope) (text : Bytes)
      (carried : env.bodies.unmarshal_chat e.body ≡ some text) (shown : is_blank text ≡ false)
      (is_next : e.sequence ≡ last_seq m peer + 1) (fits : e.sequence < 2 ^ 64)
      (empty : buffer_of m peer ≡ []) where
    admitted : admit m peer e ≡ (moved_on peer m e, next)
    unfolding admit
    admitted = ground (arith, is_next, fits)

    consumed_buffer : buffer_of (consume env (moved_on peer m e) peer e text) peer ≡ []
    unfolding consume deliver_chat
    consumed_buffer =
        ap (λ d. or_else (lookup peer d) [])
          (send_ack-Quiet [] env (deliver_chat env (moved_on peer m e) peer text) peer
            e.id).recv_buffer
        ∙ empty

    -- It is shown and acknowledged, and the conversation has moved on to its number.
    pub handle_chat_in_order :
        handle_chat env m peer e
        ≡ (send_ack env (deliver_chat env (moved_on peer m e) peer text) peer e.id).0
    unfolding handle_chat react
    handle_chat_in_order =
        rw (carried, handle_chat, shown, admitted)
          (drain_nothing (consume env (moved_on peer m e) peer e text) consumed_buffer
            ∙ (unfold consume in refl))
