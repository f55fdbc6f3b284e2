-- ===== src/Conversation/Turn.antt =====
-- One message between two linked ends: it is shown at the other end and no longer waits.
use decentralized_p2p_chat_s.Base.{
  ℕ, suc, ◌+◌, ◌≡◌, ap, ◌∙◌, List, ◌∷◌, some, arith, bytes_eq, nat_eq, Bytes,
}
use decentralized_p2p_chat_s.Base.Dict.{Dict, lookup-insert_self}
use decentralized_p2p_chat_s.Security.Replay.Refinement.{accept_counter-above}
use decentralized_p2p_chat_s.Manager.{Env, PendingChat, Manager, or_else, Effect, wrote}
use decentralized_p2p_chat_s.Manager.Pending.{track_pending, ack_pending, send_chat}
use decentralized_p2p_chat_s.Manager.Pending.Sending.{numbered, next_number}
use decentralized_p2p_chat_s.Manager.Receive.{deliver_chat}
use decentralized_p2p_chat_s.Manager.Streams.{read_line}
use decentralized_p2p_chat_s.Conversation.{on, End, IsFaithful, newest_line, carry, say}
use decentralized_p2p_chat_s.Conversation.Frames.{sent_one, took, line_of, read_state}
use decentralized_p2p_chat_s.Conversation.Links.{Linked}
use decentralized_p2p_chat_s.Conversation.Steps.{
  Ready, spoken, send_chat-spoken, answered, shown, read_line-answered, read_line-acked,
}
use decentralized_p2p_chat_s.Conversation.Messages.{
  IsSendable, IsSound, Message, message, Answer, answer,
}

newest_line-wrote :
    (stream : ℕ) (line : Bytes) (es : List Effect)
    → newest_line stream (wrote stream line ∷ es) ≡ some line
unfolding newest_line
newest_line-wrote stream line es = ground arith

module _ (env : Env) (faithful : IsFaithful env) (start : ℕ) (here there : End)
    (sound : IsSound env start here) (sound' : IsSound env start there) (room : ℕ)
    (key back : Bytes) (a b : Manager) (l : Linked here there (suc room) key back a b)
    (text : Bytes) (sendable : IsSendable env text) where
  abbrev near : Env
  near = on env here.host

  abbrev far : Env
  far = on env there.host

  pub number_is : next_number near there.own a ≡ l.n + 1
  number_is = omega (arith, l.first.counted, l.room_n)

  abbrev numbered_state : Manager
  numbered_state = numbered near there.own a

  -- What is sent.
  pub sent :
      Message env faithful start here there numbered_state (next_number near there.own a) text
  sent =
      message env faithful start here there numbered_state (next_number near there.own a) text sound
        sendable l.first.node (omega (arith, number_is))

  abbrev pub after_speaking : Manager
  after_speaking = spoken near here.own there.own here.stream a l.s key sent.line sent.envelope

  spoke : send_chat near a there.own text ≡ (after_speaking, some sent.envelope)
  spoke =
      send_chat-spoken near here.own there.own here.stream a l.s l.n l.k key text sent.line
        sent.envelope l.first sent.made (sent.wired.encoded _ (sound.healthy.not_before _))
        l.out.sends (sound.healthy.writes _ _)

  -- Where the other end takes the message in.
  abbrev entered : Manager
  entered = read_state far faithful.cipher b here.own l.t (l.s.send_ctr + 1)

  -- The message is shown, and nothing is written yet.
  abbrev on_screen : Manager
  on_screen = shown far there.own here.own there.stream entered sent.envelope text

  pub replied : Answer env faithful start there here on_screen sent.envelope.id
  replied =
      answer env faithful start there here on_screen sent.envelope.id sent.raw sound'
        (unfold deliver_chat in l.second.node) sent.sixteen sent.identified

  abbrev pub after_hearing : Manager
  after_hearing =
      answered far there.own here.own there.stream entered (took l.t (l.s.send_ctr + 1)) back
        replied.line sent.envelope text

  answers :
      read_line far b here.own there.stream (some (line_of near l.s key sent.line)) ≡ after_hearing
  answers =
      read_line-answered far there.own here.own there.stream faithful.cipher b l.s l.t l.k l.n key
        sent.line sent.envelope l.second l.out l.level (omega (arith, l.room_s))
        (sent.wired.decoded _ (sound'.healthy.not_before _)) text back replied.line replied.envelope
        sent.ours sent.carried sendable.visible (sent.numbered ∙ number_is)
        (omega (arith, l.room_n)) replied.made
        (replied.wired.encoded _ (sound'.healthy.not_before _)) l.ret.sends
        (sound'.healthy.writes _ _)

  -- The first end when it knows that the message has arrived.
  abbrev pub after_reading : Manager
  after_reading =
      read_state near faithful.cipher after_speaking there.own (sent_one l.s) (l.t.send_ctr + 1)

  ready_again : Ready here.own there.own here.stream (sent_one l.s) (l.n + 1) l.k after_speaking
  unfolding track_pending
  ready_again = record {
    node = l.first.node;
    stream_there = l.first.stream_there;
    session_there = lookup-insert_self there.own (sent_one l.s) a.sessions;
    counted =
        ap (λ o. or_else o 0)
          (lookup-insert_self there.own (next_number near there.own a) a.send_seq)
        ∙ number_is;
    last = l.first.last;
    empty = l.first.empty;
  }

  acknowledged :
      read_line near after_speaking there.own here.stream
        (some (line_of far (took l.t (l.s.send_ctr + 1)) back replied.line))
      ≡ ack_pending after_reading there.own sent.envelope.id
  acknowledged =
      read_line-acked near here.own there.own here.stream faithful.cipher after_speaking
        (took l.t (l.s.send_ctr + 1)) (sent_one l.s) (l.n + 1) l.k back replied.line
        replied.envelope ready_again
        (record {
          sends = l.ret.sends;
          receives = l.ret.receives;
          direction = l.ret.direction;
          small = l.ret.small;
        })
        l.level_back (omega (arith, l.room_t))
        (replied.wired.decoded _ (sound.healthy.not_before _)) sent.envelope.id replied.typed
        replied.conversed replied.sent_by replied.carried

  hears :
      carry far b here.own there.stream (newest_line here.stream after_speaking.effects)
      ≡ after_hearing
  unfolding carry track_pending
  hears =
      ap (carry far b here.own there.stream)
        (newest_line-wrote here.stream (line_of near l.s key sent.line) a.effects)
      ∙ answers

  reads :
      carry near after_speaking there.own here.stream
        (newest_line there.stream after_hearing.effects)
      ≡ ack_pending after_reading there.own sent.envelope.id
  unfolding carry deliver_chat
  reads =
      ap (carry near after_speaking there.own here.stream) (
        newest_line-wrote there.stream (line_of far (took l.t (l.s.send_ctr + 1)) back replied.line)
          on_screen.effects)
      ∙ acknowledged

  -- What `say` makes of the two nodes.
  pub said :
      say env here there (a, b) text
      ≡ (ack_pending after_reading there.own sent.envelope.id, after_hearing)
  unfolding say
  said = rw (spoke, say, hears) (ap (λ m. (m, after_hearing)) reads)

  passed_first :
      (p : Dict Bytes (Dict Bytes PendingChat))
      → Ready here.own there.own here.stream
          (took (sent_one l.s) (l.t.send_ctr + 1))
          (l.n + 1)
          l.k
          (record after_reading { pending = p })
  passed_first p = record {
    node = ready_again.node;
    stream_there = ready_again.stream_there;
    session_there =
        lookup-insert_self there.own (took (sent_one l.s) (l.t.send_ctr + 1))
          after_speaking.sessions;
    counted = ready_again.counted;
    last = ready_again.last;
    empty = ready_again.empty;
  }

  passed_second :
      Ready there.own here.own there.stream
        (sent_one (took l.t (l.s.send_ctr + 1)))
        l.k
        (l.n + 1)
        after_hearing
  unfolding deliver_chat
  passed_second = record {
    node = l.second.node;
    stream_there = l.second.stream_there;
    session_there =
        lookup-insert_self here.own (sent_one (took l.t (l.s.send_ctr + 1))) on_screen.sessions;
    counted = l.second.counted;
    last =
        ap (λ o. or_else o 0) (lookup-insert_self here.own sent.envelope.sequence b.recv_seq)
        ∙ sent.numbered
        ∙ number_is;
    empty = l.second.empty;
  }

  pub passed-Linked :
      (p : Dict Bytes (Dict Bytes PendingChat))
      → Linked here there room key back (record after_reading { pending = p }) after_hearing
  passed-Linked p = record {
    s = took (sent_one l.s) (l.t.send_ctr + 1);
    t = sent_one (took l.t (l.s.send_ctr + 1));
    n = l.n + 1;
    k = l.k;
    first = passed_first p;
    second = passed_second;
    out = record {
      sends = l.out.sends;
      receives = l.out.receives;
      direction = l.out.direction;
      small = l.out.small;
    };
    ret = record {
      sends = l.ret.sends;
      receives = l.ret.receives;
      direction = l.ret.direction;
      small = l.ret.small;
    };
    level = ground (
      arith,
      accept_counter-above l.t.replay (l.s.send_ctr + 1) (omega (arith, l.level)),
      l.room_s,
    );
    level_back = ground (
      arith,
      accept_counter-above l.s.replay (l.t.send_ctr + 1) (omega (arith, l.level_back)),
      l.room_t,
    );
    room_s = omega (arith, l.room_s);
    room_t = omega (arith, l.room_t);
    room_n = omega (arith, l.room_n);
    room_k = omega (arith, l.room_k);
  }
