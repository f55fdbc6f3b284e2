-- ===== src/Manager/Streams/Connect.antt =====
-- A new connection is a new conversation, and a lost one leaves nothing behind.
use decentralized_p2p_chat_s.Base.{
  refl, false, ℕ, ◌≤◌, ◌≡◌, ◌≢◌, sym, subst, ap, ◌∙◌, true, List, [], ◌++◌, none, some, arith,
  bytes_eq, Bytes, All, ◌+◌, ◌^◌, ◌<◌,
}
use decentralized_p2p_chat_s.Base.Dict.{
  Dict, erase, lookup, lookup-insert_self, lookup-erase, lookup-erase_self,
}
use decentralized_p2p_chat_s.Security.Session.{Session}
use decentralized_p2p_chat_s.Security.Replay.Spec.{contains}
use decentralized_p2p_chat_s.Protocol.{Envelope}
use decentralized_p2p_chat_s.Manager.{ControlBody, Env, Manager, send_control, emit, closed}
use decentralized_p2p_chat_s.Manager.Pending.{clear_pending}
use decentralized_p2p_chat_s.Manager.Receive.Frame.{heard, Quiet, Quiet-refl, send_built-Quiet}
use decentralized_p2p_chat_s.Manager.Receive.Inbox.{countdown}
use decentralized_p2p_chat_s.Manager.Receive.Order.{last_seq}
use decentralized_p2p_chat_s.Manager.Receive.Delivery.{
  IsGenuine, IsNew, handle_all, numbers, delivery_in_order,
}
use decentralized_p2p_chat_s.Manager.Streams.{
  register, greet, add_stream, unregister, forget_peer, nickname_body,
}

module _ (env : Env) (peer : Bytes) where
  send_control-Quiet :
      (who : Bytes) (m : Manager) (body : ControlBody)
      → Quiet who m (send_control env m peer body).0
  unfolding send_control
  send_control-Quiet who m body = send_built-Quiet who env m peer _

  pub greet-Quiet : (who : Bytes) (m : Manager) → Quiet who m (greet env m peer)
  unfolding greet
  greet-Quiet who m =
      ground (arith, send_control-Quiet who m (nickname_body m.local_nick), Quiet-refl who m)

  pub add_stream-eq :
      (m : Manager) (own : Bytes) (stream : ℕ) (session : Session)
      → m.node ≡ some own
      → add_stream env m peer stream (some session)
        ≡ greet env (register m peer stream session) peer
  unfolding add_stream
  add_stream-eq m own stream session h =
      ap
        (λ node. elim node as (λ _. Manager) [
          | none ↦ emit m (closed stream)
          | some own ↦ greet env (register m peer stream session) peer
        ])
        h

  -- `AddStream` with a session sets up a new conversation.
  pub add_stream-IsNew :
      (m : Manager) (own : Bytes) (text_of : ℕ → Bytes) (stream : ℕ) (session : Session)
      → m.node ≡ some own
      → IsNew env peer own text_of
          (heard (env.id_string peer) m.effects)
          (add_stream env m peer stream (some session))
  unfolding register
  add_stream-IsNew m own text_of stream session h =
      let q = greet-Quiet (env.id_string peer) (register m peer stream session) in
      subst (IsNew env peer own text_of (heard (env.id_string peer) m.effects))
        (sym (add_stream-eq m own stream session h))
        (record {
          local_id = q.node ∙ h;
          no_number = ap (lookup peer) q.recv_seq ∙ lookup-insert_self peer 0 m.recv_seq;
          no_buffer = ap (lookup peer) q.recv_buffer ∙ lookup-insert_self peer [] m.recv_buffer;
          shown = q.texts;
        })

  -- A peer that connects and sends genuine chat envelopes, in any order, with repetitions and gaps:
  -- what is shown from it after the connection is the texts of the numbers 1 to n, each once and in
  -- order, where n is the greatest number such that all of 1 to n arrived, those that met a full buffer
  -- not counted.
  pub connected_in_order :
      (m : Manager) (own : Bytes) (text_of : ℕ → Bytes) (stream : ℕ) (session : Session)
      (es : List Envelope)
      → m.node ≡ some own
      → All (IsGenuine env peer own text_of (heard (env.id_string peer) m.effects)) es
      → let start = add_stream env m peer stream (some session) in
        let n = last_seq (handle_all env peer start es) peer in
        (heard (env.id_string peer) (handle_all env peer start es).effects
          ≡ countdown text_of n ++ heard (env.id_string peer) m.effects)
        × ((k : ℕ) → 1 ≤ k → k ≤ n → contains k (numbers env peer [] start es) ≡ true)
        × (n + 1 < 2 ^ 64 → contains (n + 1) (numbers env peer [] start es) ≡ false)
  connected_in_order m own text_of stream session es h g =
      delivery_in_order env peer own text_of (heard (env.id_string peer) m.effects)
        (add_stream env m peer stream (some session)) es
        (add_stream-IsNew m own text_of stream session h) g

-- Nothing of a peer is in any of the maps of the conversations.
pub record IsForgotten (m : Manager) (peer : Bytes) : Type 0 where
  pub stream : lookup peer m.streams ≡ none
  pub session : lookup peer m.sessions ≡ none
  pub send_number : lookup peer m.send_seq ≡ none
  pub receive_number : lookup peer m.recv_seq ≡ none
  pub buffer : lookup peer m.recv_buffer ≡ none
  pub waiting : lookup peer m.pending ≡ none

-- Of a peer the two states have the same in every map.
pub record IsKept (m n : Manager) (peer : Bytes) : Type 0 where
  pub stream : lookup peer n.streams ≡ lookup peer m.streams
  pub session : lookup peer n.sessions ≡ lookup peer m.sessions
  pub send_number : lookup peer n.send_seq ≡ lookup peer m.send_seq
  pub receive_number : lookup peer n.recv_seq ≡ lookup peer m.recv_seq
  pub buffer : lookup peer n.recv_buffer ≡ lookup peer m.recv_buffer
  pub waiting : lookup peer n.pending ≡ lookup peer m.pending

lookup-erase_other :
    {V : Type 0} (other peer : Bytes) (d : Dict Bytes V)
    → other ≢ peer
    → lookup other (erase peer d) ≡ lookup other d
lookup-erase_other other peer d apart = ground (arith, lookup-erase other peer d)

-- A lost connection leaves no entry of the peer in any map of the conversations, and every entry of
-- every other peer as it was. The peer is no longer the active one, and another active peer stays
-- active. The nicknames stay.
pub forget_peer_lem :
    (m : Manager) (peer : Bytes)
    → IsForgotten (forget_peer m peer) peer
      × ((other : Bytes) → other ≢ peer → IsKept m (forget_peer m peer) other)
      × (m.active ≡ peer → (forget_peer m peer).active ≡ [])
      × (m.active ≢ peer → (forget_peer m peer).active ≡ m.active)
      × ((forget_peer m peer).peer_nicks ≡ m.peer_nicks)
unfolding forget_peer unregister clear_pending
forget_peer_lem m peer = (
  record {
    stream = lookup-erase_self peer m.streams;
    session = lookup-erase_self peer m.sessions;
    send_number = lookup-erase_self peer m.send_seq;
    receive_number = lookup-erase_self peer m.recv_seq;
    buffer = lookup-erase_self peer m.recv_buffer;
    waiting = lookup-erase_self peer m.pending;
  },
  λ other apart. record {
    stream = lookup-erase_other other peer m.streams apart;
    session = lookup-erase_other other peer m.sessions apart;
    send_number = lookup-erase_other other peer m.send_seq apart;
    receive_number = lookup-erase_other other peer m.recv_seq apart;
    buffer = lookup-erase_other other peer m.recv_buffer apart;
    waiting = lookup-erase_other other peer m.pending apart;
  },
  λ h. ground arith,
  λ h. ground arith,
  refl,
)
