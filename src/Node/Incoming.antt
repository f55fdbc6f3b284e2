-- ===== src/Node/Incoming.antt =====
-- main.go: `HandleIncomingStream`, up to its wait and from there on. The time that it waits is the
-- steps of the node in between.
pub mod Laws
pub mod Stale
use decentralized_p2p_chat_s.Base.{
  ℕ, ◌+◌, ◌≡◌, refl, Bool, true, false, List, [], ◌∷◌, ◌++◌, Option, none, some, eqb, nat_eq,
  bytes_eq, if◌then◌else◌, Bytes, length, codes,
}
use decentralized_p2p_chat_s.Base.Dict.{lookup}
use decentralized_p2p_chat_s.Text.{short_id, has_prefix, trim_prefix}
use decentralized_p2p_chat_s.Security.Session.{Session}
use decentralized_p2p_chat_s.Approvals.{Approvals, Request, open_request, close_request}
use decentralized_p2p_chat_s.Manager.{
  Env, Manager, closed, request_shown, printed, or_else, emit, draw, write_line,
}
use decentralized_p2p_chat_s.Manager.Streams.{add_stream}
use decentralized_p2p_chat_s.Manager.Dial.{
  conn_req_prefix, conn_accept_msg, conn_reject_msg, first_line,
}
use decentralized_p2p_chat_s.Node.{Outside, Node, run}

-- The nickname in the first line of a stream; `none` if the line asks for no connection.
unfoldable pub requested_nick : Env → Bytes → Option Bytes → Option Bytes
requested_nick env peer none = none
requested_nick env peer (some line) =
    if has_prefix line conn_req_prefix
    then (let nick = trim_prefix line conn_req_prefix in
        some (if eqb (length nick) 0 then short_id (env.id_string peer) else nick))
    else none

module _ (out : Outside) where
  -- `HandleIncomingStream` up to the wait, from what the stream gives.
  unfoldable pub request_arrives : Node → Bytes → ℕ → Bytes → Node × Option Request
  unfolding requested_nick
  request_arrives n peer stream content = elim (requested_nick out.env peer (first_line content)) [
    | none ↦ (record n { manager = emit n.manager (closed stream) }, none)
    | some nick ↦
        let (approvals, request) = open_request n.approvals peer in
        let id = out.env.id_string peer in
        (
          run out (record n { approvals = approvals })
              (λ m.
                emit (emit m (printed (codes "Incoming connection request")))
                  (request_shown id (short_id id) nick)),
          some request,
        )
  ]

  -- A line on a stream, where an error is ignored.
  abbrev pub reply_line : Manager → ℕ → Bytes → Manager
  reply_line m stream line = (write_line out.env (draw m) stream line).0

  -- The branch after the wait.
  unfoldable pub answer_stream : Manager → Bytes → ℕ → Bool → Option Session → Manager
  answer_stream m peer stream true handshaken =
      add_stream out.env (reply_line m stream conn_accept_msg) peer stream handshaken
  answer_stream m peer stream false handshaken =
      emit (emit (reply_line m stream conn_reject_msg) (printed (codes "Connection rejected")))
        (closed stream)

  -- `HandleIncomingStream` from the end of the wait: the user's answer is in the channel, or the time
  -- is over.
  unfoldable pub request_ends : Node → Request → ℕ → Option Session → Node
  unfolding answer_stream
  request_ends n r stream handshaken =
      let accepted = or_else (lookup r.channel n.approvals.answers) false in
      let n' = run out n (λ m. answer_stream m r.peer stream accepted handshaken) in
      record n' { approvals = close_request n'.approvals r }
