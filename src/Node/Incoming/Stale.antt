-- ===== src/Node/Incoming/Stale.antt =====
-- The requests that the bridge keeps for its clients, after a request has ended.
use mathlib.Core.List.{reverse}
use decentralized_p2p_chat_s.Base.{
  ℕ, suc, not, ◌&&◌, ◌≡◌, refl, sym, ap, ◌∙◌, Bool, true, false, List, [], ◌∷◌, ◌++◌, Option, none,
  some, arith, eqb, length, nat_eq, bytes_eq, Bytes, All, All-reverse, option_ind, result_ind,
  if_ind,
}
use decentralized_p2p_chat_s.Base.Dict.{lookup}
use decentralized_p2p_chat_s.Text.{short_id}
use decentralized_p2p_chat_s.Text.Fields.{decimal}
use decentralized_p2p_chat_s.Security.Session.{Session}
use decentralized_p2p_chat_s.Protocol.{Envelope}
use decentralized_p2p_chat_s.Storage.History.{StoredMsg, load_history}
use decentralized_p2p_chat_s.Approvals.{Approvals, Request}
use decentralized_p2p_chat_s.Manager.{
  ControlBody, Env, Manager, Effect, wrote, closed, chat_shown, own_message, web_error,
  peers_changed, history_asked, disconnected, rejected, reconnecting, request_shown, printed,
  or_else, draw, reach, write_line, send_envelope, send_built, send_control, new_control_envelope,
}
use decentralized_p2p_chat_s.Manager.Streams.{nickname_body, register, greet, add_stream}
use decentralized_p2p_chat_s.Manager.Dial.{conn_accept_msg, conn_reject_msg, first_line}
use decentralized_p2p_chat_s.Web.{
  WebClient, WebMsg, new_message, connection_request, PendingRequest, Frame, tell, keep_message,
  keep_request,
}
use decentralized_p2p_chat_s.Web.Guarded.{broadcast-pending_requests}
use decentralized_p2p_chat_s.Node.{
  Outside, Node, stored, save_to_history, save_if, add_message, notify_web_message,
  notify_peer_history, show_history, notify, notify_all, run,
}
use decentralized_p2p_chat_s.Node.Incoming.{
  answer_stream, reply_line, request_ends, request_arrives, requested_nick,
}

-- What is told to the bridge is no request.
abbrev pub Quiet : Effect → Type 0
Quiet (request_shown peer_id short nick) = ⊥
Quiet _ = Unit

-- Nothing that is told to the bridge in a state is a request.
abbrev IsQuiet : Manager → Type 0
IsQuiet m = All Quiet m.effects

module _ (env : Env) where
  send_envelope-IsQuiet :
      (m : Manager) (peer : Bytes) (s : ℕ) (session : Session) (e : Envelope)
      → IsQuiet m
      → IsQuiet (send_envelope env m peer s session e).0
  unfolding send_envelope write_line
  send_envelope-IsQuiet m peer s session e h = ground arith

  send_control-IsQuiet :
      (m : Manager) (peer : Bytes) (body : ControlBody)
      → IsQuiet m
      → IsQuiet (send_control env m peer body).0
  unfolding send_control send_built
  send_control-IsQuiet m peer body h =
      option_ind (λ (r : Manager × Bool). IsQuiet r.0) (reach m peer) h
        (λ found _.
          option_ind (λ (r : Manager × Bool). IsQuiet r.0) (new_control_envelope env m peer body) h
            (λ e _. send_envelope-IsQuiet (draw m) peer found.0 found.1 e h))

  greet-IsQuiet : (m : Manager) (peer : Bytes) → IsQuiet m → IsQuiet (greet env m peer)
  unfolding greet
  greet-IsQuiet m peer h = (
    tt,
    (
      tt,
      if_ind IsQuiet (eqb (length m.local_nick) 0) (λ _. h)
          (λ _. send_control-IsQuiet m peer (nickname_body m.local_nick) h),
    ),
  )

  add_stream-IsQuiet :
      (m : Manager) (peer : Bytes) (stream : ℕ) (handshaken : Option Session)
      → IsQuiet m
      → IsQuiet (add_stream env m peer stream handshaken)
  unfolding add_stream register
  add_stream-IsQuiet m peer stream handshaken h =
      option_ind IsQuiet m.node (tt, h)
        (λ own _.
          option_ind IsQuiet handshaken (tt, (tt, h))
            (λ session _. greet-IsQuiet (register m peer stream session) peer h))

-- The requests that the bridge keeps.
abbrev pub kept_requests : Option WebClient → List PendingRequest
kept_requests none = []
kept_requests (some wc) = wc.pending_requests

kept_requests-tell :
    (web : Option WebClient) (frame : Frame) → kept_requests (tell web frame) ≡ kept_requests web
kept_requests-tell none frame = refl
kept_requests-tell (some wc) frame = broadcast-pending_requests wc frame

module _ (out : Outside) where
  reply_line-IsQuiet :
      (m : Manager) (stream : ℕ) (line : Bytes) → IsQuiet m → IsQuiet (reply_line out m stream line)
  unfolding write_line
  reply_line-IsQuiet m stream line h = ground arith

  answer_stream-IsQuiet :
      (m : Manager) (peer : Bytes) (stream : ℕ) (accepted : Bool) (handshaken : Option Session)
      → IsQuiet m
      → IsQuiet (answer_stream out m peer stream accepted handshaken)
  unfolding answer_stream
  answer_stream-IsQuiet m peer stream true handshaken h =
      add_stream-IsQuiet out.env _ peer stream handshaken
        (reply_line-IsQuiet m stream conn_accept_msg h)
  answer_stream-IsQuiet m peer stream false handshaken h =
      (tt, (tt, reply_line-IsQuiet m stream conn_reject_msg h))

  -- The bridge keeps the same requests in two nodes.
  record SameRequests (n m : Node) : Type 0 where
    pub same : kept_requests m.web ≡ kept_requests n.web

  SameRequests-refl : (n : Node) → SameRequests n n
  SameRequests-refl n = record { same = refl }

  SameRequests-trans : {n m o : Node} → SameRequests n m → SameRequests m o → SameRequests n o
  SameRequests-trans p q = record { same = q.same ∙ p.same }

  save_if-SameRequests :
      (b : Bool) (n : Node) (peer_id : Bytes) (msg : StoredMsg)
      → SameRequests n (save_if out b n peer_id msg)
  unfolding save_if save_to_history
  save_if-SameRequests true n peer_id msg =
      option_ind (SameRequests n) n.history_store (SameRequests-refl n)
        (λ dir _. record { same = refl })
  save_if-SameRequests false n peer_id msg = SameRequests-refl n

  add_message-SameRequests :
      (n : Node) (wc : WebClient) (from from_name content : Bytes) (is_own : Bool)
      (conversation : Bytes) (persist : Bool)
      → n.web ≡ some wc
      → SameRequests n (add_message out n wc from from_name content is_own conversation persist)
  unfolding add_message keep_message
  add_message-SameRequests n wc from from_name content is_own conversation persist there =
      let k = n.manager.draws in
      let msg : WebMsg = record {
        id = decimal (out.nanos k);
        from = from;
        from_name = from_name;
        to = conversation;
        content = content;
        timestamp = out.nanos (suc k);
        is_own = is_own;
      } in
      let n' : Node = record n {
        manager = draw (draw n.manager);
        web = some (keep_message wc msg);
      } in
      let saved =
        save_if-SameRequests (persist && not (eqb (length conversation) 0)) n' conversation
          (stored out msg) in
      record {
        same =
            saved.same
            ∙ broadcast-pending_requests (record wc { messages = wc.messages ++ msg ∷ [] })
                (new_message msg)
            ∙ sym (ap kept_requests there);
      }

  web_message-SameRequests :
      (n : Node) (from from_name content : Bytes) (is_own : Bool) (conversation : Bytes)
      (persist : Bool)
      → SameRequests n (notify_web_message out n from from_name content is_own conversation persist)
  unfolding notify_web_message
  web_message-SameRequests n from from_name content is_own conversation persist =
      option_ind (SameRequests n) n.web (SameRequests-refl n) (λ wc there.
        add_message-SameRequests n wc from from_name content is_own conversation persist there)

  notify_peer_history-SameRequests :
      (n : Node) (peer_id : Bytes) (msgs : List StoredMsg)
      → SameRequests n (notify_peer_history out n peer_id msgs)
  unfolding notify_peer_history
  notify_peer_history-SameRequests n peer_id [] = SameRequests-refl n
  notify_peer_history-SameRequests n peer_id (msg ∷ msgs) = record {
    same = kept_requests-tell n.web _;
  }

  show_history-SameRequests :
      (n : Node) (peer_id : Bytes) → SameRequests n (show_history out n peer_id)
  unfolding show_history
  show_history-SameRequests n peer_id =
      option_ind (SameRequests n) n.history_store (SameRequests-refl n) (λ dir _.
        result_ind (SameRequests n) (load_history out.history dir peer_id)
          (λ msgs _. notify_peer_history-SameRequests n peer_id msgs) (λ e. SameRequests-refl n))

  notify-SameRequests : (n : Node) (e : Effect) → Quiet e → SameRequests n (notify out n e)
  unfolding notify
  notify-SameRequests n (wrote stream line) q = SameRequests-refl n
  notify-SameRequests n (closed stream) q = SameRequests-refl n
  notify-SameRequests n (printed text) q = SameRequests-refl n
  notify-SameRequests n (chat_shown from name text) q =
      web_message-SameRequests n from name text false from true
  notify-SameRequests n (own_message to text) q = web_message-SameRequests n _ _ text true _ false
  notify-SameRequests n (web_error text) q = record { same = kept_requests-tell n.web _ }
  notify-SameRequests n peers_changed q = record { same = kept_requests-tell n.web _ }
  notify-SameRequests n (history_asked peer) q = show_history-SameRequests n _
  notify-SameRequests n (disconnected peer) q = record { same = kept_requests-tell n.web _ }
  notify-SameRequests n (rejected peer_id) q = record { same = kept_requests-tell n.web _ }
  notify-SameRequests n (reconnecting peer_id status) q = record {
    same = kept_requests-tell n.web _;
  }
  notify-SameRequests n (request_shown peer_id short nick) q = absurd q

  notify_all-SameRequests :
      (n : Node) (es : List Effect) → All Quiet es → SameRequests n (notify_all out n es)
  unfolding notify_all
  notify_all-SameRequests n [] q = SameRequests-refl n
  notify_all-SameRequests n (e ∷ es) q =
      SameRequests-trans (notify-SameRequests n e q.0)
        (notify_all-SameRequests (notify out n e) es q.1)

  run-SameRequests :
      (n : Node) (step : Manager → Manager)
      → IsQuiet (step (record n.manager { effects = [] }))
      → SameRequests n (run out n step)
  unfolding run
  run-SameRequests n step q =
      let m = step (record n.manager { effects = [] }) in
      let told =
        notify_all-SameRequests
          (record n { manager = record m { effects = m.effects ++ n.manager.effects } })
          (reverse m.effects) (All-reverse Quiet m.effects q) in
      record { same = told.same }

  request_ends-SameRequests :
      (n : Node) (r : Request) (stream : ℕ) (handshaken : Option Session)
      → SameRequests n (request_ends out n r stream handshaken)
  unfolding request_ends
  request_ends-SameRequests n r stream handshaken =
      let accepted = or_else (lookup r.channel n.approvals.answers) false in
      let ran =
        run-SameRequests n (λ m. answer_stream out m r.peer stream accepted handshaken)
          (answer_stream-IsQuiet (record n.manager { effects = [] }) r.peer stream accepted
            handshaken tt) in
      record { same = ran.same }

  -- The entry of the bridge for a request.
  abbrev pub kept_as : Bytes → Bytes → PendingRequest
  kept_as peer nick = record {
    peer_id = out.env.id_string peer;
    short_id = short_id (out.env.id_string peer);
    nickname = nick;
  }

  request_arrives-kept :
      (n : Node) (wc : WebClient) (peer : Bytes) (stream : ℕ) (content nick : Bytes)
      → n.web ≡ some wc
      → requested_nick out.env peer (first_line content) ≡ some nick
      → kept_requests (request_arrives out n peer stream content).0.web
        ≡ wc.pending_requests ++ kept_as peer nick ∷ []
  unfolding request_arrives run notify_all notify keep_request
  request_arrives-kept n wc peer stream content nick there asks =
      rw (asks, request_arrives, there)
        (broadcast-pending_requests
          (record wc { pending_requests = wc.pending_requests ++ kept_as peer nick ∷ [] })
          (connection_request (kept_as peer nick)))

  -- While there is a web bridge, a connection request that arrives stays in the list that every later
  -- web client is shown, also after it has ended, by an answer on the console or because the time is
  -- over, and whatever became of its stream.
  pub request_stays :
      (n : Node) (wc : WebClient) (peer : Bytes) (stream : ℕ) (content nick : Bytes)
      (answered : Approvals) (handshaken : Option Session) (r : Request)
      → n.web ≡ some wc
      → requested_nick out.env peer (first_line content) ≡ some nick
      → let asked = (request_arrives out n peer stream content).0 in
        kept_requests
          (request_ends out (record asked { approvals = answered }) r stream handshaken).web
        ≡ wc.pending_requests ++ kept_as peer nick ∷ []
  request_stays n wc peer stream content nick answered handshaken r there asks =
      let ended = request_ends-SameRequests _ r stream handshaken in
      ended.same ∙ request_arrives-kept n wc peer stream content nick there asks
