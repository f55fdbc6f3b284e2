-- ===== src/Conversation/Frames.antt =====
-- One envelope on its way: `sendEnvelope` at one end and `readLoop` at the other.
use decentralized_p2p_chat_s.Base.{
  ℕ, suc, ◌+◌, ◌%◌, ◌^◌, ◌<◌, ◌≡◌, ap, true, [], ◌∷◌, ◌++◌, some, ok, arith, bytes_eq, Bytes, All,
  All-append,
}
use decentralized_p2p_chat_s.Base.Dict.{lookup, insert}
use decentralized_p2p_chat_s.Text.{trim_space}
use decentralized_p2p_chat_s.Text.Trim.{IsGraphic, trim_space_line}
use decentralized_p2p_chat_s.Base64.{std}
use decentralized_p2p_chat_s.Base64.RoundTrip.{encode-IsGraphic}
use decentralized_p2p_chat_s.Security.Replay.{accept_counter}
use decentralized_p2p_chat_s.Security.Replay.Refinement.{accept_counter-above}
use decentralized_p2p_chat_s.Security.Session.{Session, packet, decrypt}
use decentralized_p2p_chat_s.Security.Session.Channel.{
  IsLawful, Matches, nonce_of-IsByte, encrypt-packet, decrypt-packet,
}
use decentralized_p2p_chat_s.Protocol.{Envelope, encode, decode}
use decentralized_p2p_chat_s.Manager.{Env, Manager, wrote, draw, write_line, send_envelope}
use decentralized_p2p_chat_s.Manager.Receive.{handle_envelope}
use decentralized_p2p_chat_s.Manager.Streams.{receive_plain, read_line}

-- The session after it has sent a packet.
abbrev pub sent_one : Session → Session
sent_one s = record s { send_ctr = (s.send_ctr + 1) % 2 ^ 64 }

-- The session after it has taken the packet of a counter.
abbrev pub took : Session → ℕ → Session
took s ctr = record s { replay = (accept_counter s.replay ctr).0 }

module _ (env : Env) where
  -- The line of a text under the session's next counter.
  abbrev pub line_of : Session → Bytes → Bytes → Bytes
  line_of s key text = packet env.cipher key s.send_dir ((s.send_ctr + 1) % 2 ^ 64) text ++ 10 ∷ []

  -- The state after an envelope is written.
  abbrev pub wrote_line : Manager → Bytes → ℕ → Session → Bytes → Bytes → Manager
  wrote_line m peer stream s key text = record m {
    sessions = insert peer (sent_one s) m.sessions;
    draws = suc m.draws;
    effects = wrote stream (line_of s key text) ∷ m.effects;
  }

  pub send_envelope-writes :
      (m : Manager) (peer : Bytes) (stream : ℕ) (s : Session) (key text : Bytes) (e : Envelope)
      → encode env.json (env.clock m.draws) e ≡ ok text
      → s.send_aead ≡ some key
      → env.can_write stream (suc m.draws) ≡ true
      → send_envelope env m peer stream s e ≡ (wrote_line m peer stream s key text, true)
  unfolding send_envelope write_line
  send_envelope-writes m peer stream s key text e made keyed writes =
      rw (made, send_envelope) (ground (arith, encrypt-packet env.cipher s key text keyed, writes))

module _ (env : Env) (lawful : IsLawful env.cipher) where
  packet-IsGraphic :
      (key : Bytes) (dir ctr : ℕ) (text : Bytes)
      → dir < 256
      → All IsGraphic (packet env.cipher key dir ctr text)
  packet-IsGraphic key dir ctr text small =
      All-append IsGraphic _ _ (encode-IsGraphic std _ (nonce_of-IsByte dir ctr small))
        ((omega arith, omega arith), encode-IsGraphic std _ (lawful.seal-IsByte key _ text))

  -- The state in which the envelope of a line is handled.
  abbrev pub read_state : Manager → Bytes → Session → ℕ → Manager
  read_state m peer t ctr = draw (record m { sessions = insert peer (took t ctr) m.sessions })

  -- A line that the other end wrote, with a counter above all that came before.
  pub read_line-frame :
      (m : Manager) (peer : Bytes) (stream : ℕ) (s t : Session) (key text : Bytes) (e : Envelope)
      → lookup peer m.sessions ≡ some t
      → Matches s t key
      → t.replay.recv_max ≡ s.send_ctr
      → s.send_ctr + 1 < 2 ^ 64
      → decode env.json (env.clock m.draws) text ≡ ok e
      → read_line env m peer stream (some (line_of env s key text))
        ≡ handle_envelope env (read_state m peer t (s.send_ctr + 1)) peer e
  unfolding read_line receive_plain
  read_line-frame m peer stream s t key text e there matches level fits made =
      rw (there, read_line, got, receive_plain, made)
        (ap
          (λ r.
            handle_envelope env (draw (record m { sessions = insert peer r.0 m.sessions })) peer e)
          got)
    where
      counted : (s.send_ctr + 1) % 2 ^ 64 ≡ s.send_ctr + 1
      counted = omega arith

      got :
          decrypt env.cipher t (trim_space (line_of env s key text))
          ≡ (took t (s.send_ctr + 1), ok text)
      got =
          rw
            (
              counted,
              trim_space_line _ (packet-IsGraphic key _ (s.send_ctr + 1) text matches.small),
            )
            (ground (
              arith,
              decrypt-packet env.cipher lawful t key (s.send_ctr + 1) text fits s.send_dir
                  matches.small matches.receives matches.direction,
              accept_counter-above t.replay (s.send_ctr + 1) (omega (arith, level)),
            ))
