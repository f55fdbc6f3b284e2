-- ===== src/Node/Incoming/Laws.antt =====
-- What becomes of the stream of a connection request.
use decentralized_p2p_chat_s.Base.{
  ℕ, ◌+◌, ◌≡◌, ◌≢◌, refl, ap, ◌∙◌, Bool, true, false, [], ◌++◌, Option, none, some, arith, nat_eq,
  bytes_eq, Bytes, inl, inr,
}
use decentralized_p2p_chat_s.Base.Dict.{lookup}
use decentralized_p2p_chat_s.Security.Session.{Session}
use decentralized_p2p_chat_s.Approvals.{Request}
use decentralized_p2p_chat_s.Manager.{Manager, or_else, write_line}
use decentralized_p2p_chat_s.Manager.Dial.{conn_accept_msg}
use decentralized_p2p_chat_s.Manager.Dial.Streams.{
  closings, closings-append, Settles, add_stream-Settles, before-Settles,
}
use decentralized_p2p_chat_s.Node.{Outside, Node}
use decentralized_p2p_chat_s.Node.Talks.{SameTalks, run-SameTalks}
use decentralized_p2p_chat_s.Node.Incoming.{reply_line, answer_stream, request_ends}

module _ (out : Outside) (peer : Bytes) (stream : ℕ) where
  -- A line that is written closes no stream.
  reply_line-closings :
      (m : Manager) (line : Bytes)
      → closings stream (reply_line out m stream line).effects ≡ closings stream m.effects
  unfolding write_line closings
  reply_line-closings m line = ground arith

  reply_line-talks :
      (m : Manager) (line : Bytes)
      → let n = reply_line out m stream line in
        (n.streams ≡ m.streams) × (n.sessions ≡ m.sessions) × (n.active ≡ m.active)
  unfolding write_line
  reply_line-talks m line = ground arith

  answer_stream-Settles :
      (m : Manager) (answer : Option Bool) (handshaken : Option Session)
      → Settles out.env peer stream
          ((answer ≡ some true) × (handshaken ≢ none))
          m
          (answer_stream out m peer stream (or_else answer false) handshaken)
  unfolding answer_stream closings write_line
  answer_stream-Settles m none handshaken = inr (ground arith)
  answer_stream-Settles m (some false) handshaken = inr (ground arith)
  answer_stream-Settles m (some true) handshaken =
      let (p, q, a) = reply_line-talks m conn_accept_msg in
      before-Settles out.env peer stream m _ (reply_line out m stream conn_accept_msg) p q a
        (reply_line-closings m conn_accept_msg)
        (add_stream-Settles out.env peer stream (reply_line out m stream conn_accept_msg) handshaken
          (λ h. (refl, h)))

  -- The effects of the step come on top of those that there were.
  run-Settles :
      {C : Type 0} (n : Node) (m k : Manager)
      → Settles out.env peer stream C (record n.manager { effects = [] }) m
      → SameTalks (record m { effects = m.effects ++ n.manager.effects }) k
      → Settles out.env peer stream C n.manager k
  unfolding closings
  run-Settles n m k (inl (c, j)) same = inl (
    c,
    record {
      there = ap (lookup peer) same.streams ∙ j.there;
      kept_open =
          ap (closings stream) same.effects
          ∙ closings-append stream m.effects n.manager.effects
          ∙ ap (λ c. c + closings stream n.manager.effects) j.kept_open
          ∙ omega arith;
    },
  )
  run-Settles n m k (inr d) same = inr (record {
    shut =
        ap (closings stream) same.effects
        ∙ closings-append stream m.effects n.manager.effects
        ∙ ap (λ c. c + closings stream n.manager.effects) d.shut
        ∙ omega arith;
    streams = same.streams ∙ d.streams;
    sessions = same.sessions ∙ d.sessions;
    active = same.active ∙ d.active;
  })

module _ (out : Outside) where
  -- However a connection request ends: its stream is registered under the peer and kept open, and then
  -- the user's answer was to accept and the handshake succeeded, or it is closed once and no
  -- conversation has changed.
  pub request_ends-Settles :
      (n : Node) (r : Request) (stream : ℕ) (handshaken : Option Session)
      → Settles out.env r.peer stream
          ((lookup r.channel n.approvals.answers ≡ some true) × (handshaken ≢ none))
          n.manager
          (request_ends out n r stream handshaken).manager
  unfolding request_ends
  request_ends-Settles n r stream handshaken =
      let answer = lookup r.channel n.approvals.answers in
      let step : Manager → Manager =
        λ m. answer_stream out m r.peer stream (or_else answer false) handshaken in
      run-Settles out r.peer stream n (step (record n.manager { effects = [] })) _
        (answer_stream-Settles out r.peer stream (record n.manager { effects = [] }) answer
          handshaken)
        (run-SameTalks out n step)
