-- ===== src/Manager/Receive/Keeps.antt =====
-- What a chat message of a peer leaves alone.
use decentralized_p2p_chat_s.Base.{
  ℕ, zero, suc, ◌+◌, ◌%◌, ◌^◌, ◌≡◌, [], arith, nat_eq, bytes_eq, Bytes, length, Option-cases, inl,
  inr,
}
use decentralized_p2p_chat_s.Base.Dict.{lookup}
use decentralized_p2p_chat_s.Protocol.{Envelope}
use decentralized_p2p_chat_s.Manager.{Env, Manager}
use decentralized_p2p_chat_s.Manager.Receive.{
  with_held, moved_on, taken, deliver_chat, admit, take_next, consume, consume_buffered, drain,
  drain_receive_buffer, handle_chat, react,
}
use decentralized_p2p_chat_s.Manager.Receive.Frame.{Quiet, send_ack-Quiet}
use decentralized_p2p_chat_s.Manager.Receive.Order.{last_seq, buffer_of}

-- The state that has to do with what this node sends is the same.
pub record Keeps (m n : Manager) : Type 0 where
  pub node : n.node ≡ m.node
  pub streams : n.streams ≡ m.streams
  pub active : n.active ≡ m.active
  pub send_seq : n.send_seq ≡ m.send_seq
  pub pending : n.pending ≡ m.pending

pub Keeps-refl : (m : Manager) → Keeps m m
Keeps-refl m = ground arith

pub Keeps-trans : {m n o : Manager} → Keeps m n → Keeps n o → Keeps m o
Keeps-trans p q = ground arith

pub Quiet-Keeps : {who : Bytes} {m n : Manager} → Quiet who m n → Keeps m n
Quiet-Keeps q = ground arith

module _ (env : Env) (peer : Bytes) where
  consume-Keeps : (m : Manager) (e : Envelope) (text : Bytes) → Keeps m (consume env m peer e text)
  unfolding consume deliver_chat
  consume-Keeps m e text =
      ground (arith, Quiet-Keeps (send_ack-Quiet [] env (deliver_chat env m peer text) peer e.id))

  consume_buffered-Keeps : (m : Manager) (e : Envelope) → Keeps m (consume_buffered env m peer e)
  unfolding consume_buffered
  consume_buffered-Keeps m e = elim (Option-cases (env.bodies.unmarshal_chat e.body)) [
    | inl h ↦ rw (h, consume_buffered) (ground arith)
    | inr (text, h) ↦
        rw (h, consume_buffered) (ground (arith, consume-Keeps m e text, Keeps-refl m))
  ]

  drain-Keeps : (rounds : ℕ) (m : Manager) → Keeps m (drain env rounds m peer)
  unfolding drain take_next
  drain-Keeps zero m = Keeps-refl m
  drain-Keeps (suc rounds) m =
      elim (Option-cases (lookup ((last_seq m peer + 1) % 2 ^ 64) (buffer_of m peer))) [
        | inl h ↦ rw (h, drain, take_next) (Keeps-refl m)
        | inr (e, h) ↦
            rw (h, drain, take_next)
              (ground (
                arith,
                consume_buffered-Keeps (taken peer m) e,
                drain-Keeps rounds (consume_buffered env (taken peer m) peer e),
              ))
      ]

  react-Keeps :
      (m : Manager) (e : Envelope) (text : Bytes) → Keeps m (react env peer e text (admit m peer e))
  unfolding react admit drain_receive_buffer
  react-Keeps m e text = ground (
    arith,
    Quiet-Keeps (send_ack-Quiet [] env m peer e.id),
    Quiet-Keeps (send_ack-Quiet [] env (with_held peer m e) peer e.id),
    drain-Keeps (suc (length (buffer_of (consume env (moved_on peer m e) peer e text) peer)))
        (consume env (moved_on peer m e) peer e text),
    consume-Keeps (moved_on peer m e) e text,
    Keeps-refl m,
  )

  pub handle_chat-Keeps : (m : Manager) (e : Envelope) → Keeps m (handle_chat env m peer e)
  unfolding handle_chat
  handle_chat-Keeps m e = elim (Option-cases (env.bodies.unmarshal_chat e.body)) [
    | inl h ↦ rw (h, handle_chat) (ground arith)
    | inr (text, h) ↦ rw (h, handle_chat) (ground (arith, react-Keeps m e text, Keeps-refl m))
  ]
