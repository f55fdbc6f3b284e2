-- ===== src/Conversation/Steps.antt =====
-- The three steps of a message: it is written, it is shown and acknowledged, and the acknowledgement
-- is read.
use decentralized_p2p_chat_s.Base.{
  ℕ, suc, ◌+◌, ◌^◌, ◌<◌, ◌≡◌, refl, sym, subst, ap, ◌∙◌, true, false, [], some, arith, bytes_eq,
  nat_eq, Bytes, codes, ok,
}
use decentralized_p2p_chat_s.Base.Dict.{lookup, lookup-insert_self}
use decentralized_p2p_chat_s.Security.Session.{Session}
use decentralized_p2p_chat_s.Security.Session.Channel.{IsLawful, Matches}
use decentralized_p2p_chat_s.Protocol.{Envelope, type_ack, encode, decode}
use decentralized_p2p_chat_s.Manager.{
  Env, Manager, or_else, draw, reach, new_chat_envelope, new_ack_envelope, conversation_id,
  send_built, send_ack,
}
use decentralized_p2p_chat_s.Manager.Pending.{track_pending, ack_pending, outcome, send_chat}
use decentralized_p2p_chat_s.Manager.Pending.Sending.{next_number, numbered, send_chat-built}
use decentralized_p2p_chat_s.Manager.Receive.{
  is_blank, deliver_chat, moved_on, handle_envelope, dispatch,
}
use decentralized_p2p_chat_s.Manager.Receive.Order.{last_seq, buffer_of}
use decentralized_p2p_chat_s.Manager.Receive.Delivery.{IsOurs, handle_envelope-chat}
use decentralized_p2p_chat_s.Manager.Streams.{read_line}
use decentralized_p2p_chat_s.Conversation.Frames.{
  wrote_line, send_envelope-writes, read_state, read_line-frame, line_of, took,
}
use decentralized_p2p_chat_s.Conversation.Heard.{handle_chat_in_order}

-- A node that is connected to the peer: its session, the number of its last message to the peer and
-- the number of the last one it showed, with nothing buffered.
pub record Ready (own peer : Bytes) (stream : ℕ) (s : Session) (sent received : ℕ) (m : Manager)
    : Type 0 where
  pub node : m.node ≡ some own
  pub stream_there : lookup peer m.streams ≡ some stream
  pub session_there : lookup peer m.sessions ≡ some s
  pub counted : or_else (lookup peer m.send_seq) 0 ≡ sent
  pub last : last_seq m peer ≡ received
  pub empty : buffer_of m peer ≡ []

module _ (env : Env) (own peer : Bytes) (stream : ℕ) where
  reach-Ready :
      {s : Session} {sent received : ℕ} {m : Manager}
      → Ready own peer stream s sent received m
      → reach m peer ≡ some (stream, s)
  unfolding reach
  reach-Ready r = rw (r.stream_there, reach, r.session_there) refl

  -- The state after a chat message is written.
  abbrev pub spoken : Manager → Session → Bytes → Bytes → Envelope → Manager
  spoken m s key text e =
      wrote_line env (track_pending env (draw (numbered env peer m)) peer e) peer stream s key text

  pub send_chat-spoken :
      (m : Manager) (s : Session) (sent received : ℕ) (key text line : Bytes) (e : Envelope)
      → Ready own peer stream s sent received m
      → new_chat_envelope env (numbered env peer m) peer (next_number env peer m) text ≡ some e
      → encode env.json (env.clock (suc (suc m.draws))) e ≡ ok line
      → s.send_aead ≡ some key
      → env.can_write stream (suc (suc (suc m.draws))) ≡ true
      → send_chat env m peer text ≡ (spoken m s key line e, some e)
  unfolding track_pending outcome
  send_chat-spoken m s sent received key text line e r built made keyed writes =
      send_chat-built env peer m text (stream, s) e (reach-Ready r) built
      ∙ ap (outcome peer e) (
          send_envelope-writes env (track_pending env (draw (numbered env peer m)) peer e) peer
            stream s key line e made keyed writes)

  -- The state after a chat message is shown and its acknowledgement is written.
  abbrev pub shown : Manager → Envelope → Bytes → Manager
  shown m e text = deliver_chat env (moved_on peer m e) peer text

  abbrev pub answered : Manager → Session → Bytes → Bytes → Envelope → Bytes → Manager
  answered m s key line e text = wrote_line env (draw (shown m e text)) peer stream s key line

  reach-shown :
      {s : Session} {sent received : ℕ} (m : Manager) (e : Envelope) (text : Bytes)
      → Ready own peer stream s sent received m
      → reach (shown m e text) peer ≡ some (stream, s)
  unfolding reach deliver_chat
  reach-shown m e text r = rw (r.stream_there, reach, r.session_there) refl

  send_ack-answered :
      (m : Manager) (s : Session) (sent received : ℕ) (key line : Bytes) (e ack : Envelope)
      (text : Bytes)
      → Ready own peer stream s sent received m
      → new_ack_envelope env (shown m e text) peer e.id ≡ some ack
      → encode env.json (env.clock (suc m.draws)) ack ≡ ok line
      → s.send_aead ≡ some key
      → env.can_write stream (suc (suc m.draws)) ≡ true
      → (send_ack env (shown m e text) peer e.id).0 ≡ answered m s key line e text
  unfolding send_ack send_built
  send_ack-answered m s sent received key line e ack text r built made keyed writes =
      rw (reach-shown m e text r, send_ack, send_built, built)
        (ap (λ p. p.0)
          (send_envelope-writes env (draw (shown m e text)) peer stream s key line ack
            (unfold deliver_chat in made) keyed (unfold deliver_chat in writes)))

  Ready-read_state :
      (lawful : IsLawful env.cipher) {s : Session} {sent received : ℕ} (m : Manager) (ctr : ℕ)
      → Ready own peer stream s sent received m
      → Ready own peer stream (took s ctr) sent received (read_state env lawful m peer s ctr)
  Ready-read_state lawful {s} m ctr r = record {
    node = r.node;
    stream_there = r.stream_there;
    session_there = lookup-insert_self peer (took s ctr) m.sessions;
    counted = r.counted;
    last = r.last;
    empty = r.empty;
  }

  module _ (lawful : IsLawful env.cipher) (m : Manager) (s t : Session) (sent received : ℕ)
      (key line : Bytes) (e : Envelope) (r : Ready own peer stream t sent received m)
      (matches : Matches s t key) (level : t.replay.recv_max ≡ s.send_ctr)
      (fits : s.send_ctr + 1 < 2 ^ 64)
      (decoded : decode env.json (env.clock m.draws) line ≡ ok e) where
    abbrev entered : Manager
    entered = read_state env lawful m peer t (s.send_ctr + 1)

    pub read_line-answered :
        (text back ack_line : Bytes) (ack : Envelope)
        → IsOurs env peer own e
        → env.bodies.unmarshal_chat e.body ≡ some text
        → is_blank text ≡ false
        → e.sequence ≡ received + 1
        → received + 1 < 2 ^ 64
        → new_ack_envelope env (shown entered e text) peer e.id ≡ some ack
        → encode env.json (env.clock (suc (suc m.draws))) ack ≡ ok ack_line
        → t.send_aead ≡ some back
        → env.can_write stream (suc (suc (suc m.draws))) ≡ true
        → read_line env m peer stream (some (line_of env s key line))
          ≡ answered entered (took t (s.send_ctr + 1)) back ack_line e text
    read_line-answered text back ack_line ack ours carried visible is_next small built made keyed
          writes =
        read_line-frame env lawful m peer stream s t key line e r.session_there matches level fits
          decoded
        ∙ handle_envelope-chat env peer entered own e r.node ours
        ∙ handle_chat_in_order env peer entered e text carried visible
            (is_next ∙ ap (λ n. n + 1) (sym r.last)) (subst (λ n. n < 2 ^ 64) (sym is_next) small)
            r.empty
        ∙ send_ack-answered entered (took t (s.send_ctr + 1)) sent received back ack_line e ack text
            (Ready-read_state lawful m (s.send_ctr + 1) r) built made keyed writes

    -- An acknowledgement for this conversation.
    pub read_line-acked :
        (id : Bytes)
        → e.typ ≡ type_ack
        → e.conversation ≡ conversation_id env own peer
        → e.sender ≡ env.id_string peer
        → env.bodies.unmarshal_ack e.body ≡ some id
        → read_line env m peer stream (some (line_of env s key line)) ≡ ack_pending entered peer id
    unfolding handle_envelope dispatch codes
    read_line-acked id typed conversed sent_by carried =
        read_line-frame env lawful m peer stream s t key line e r.session_there matches level fits
          decoded
        ∙ rw (r.node, handle_envelope, dispatch, carried)
            (ground (arith, typed, conversed, sent_by))
