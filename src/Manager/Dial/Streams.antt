-- ===== src/Manager/Dial/Streams.antt =====
-- What becomes of the stream that `connectToPeer` opens.
use decentralized_p2p_chat_s.Base.{
  ℕ, ◌+◌, ◌≡◌, ◌≢◌, ◌⊎◌, refl, sym, subst, ap, ◌∙◌, Bool, true, false, List, [], ◌∷◌, ◌++◌, Option,
  none, some, arith, eqb, ◌==◌, bytes_eq, if◌then◌else◌, Bytes, Option-cases, if_ind, inl, inr,
}
use decentralized_p2p_chat_s.Base.Dict.{lookup, lookup-insert_self}
use decentralized_p2p_chat_s.Security.Session.{Session}
use decentralized_p2p_chat_s.Protocol.{Envelope}
use decentralized_p2p_chat_s.Manager.{
  ControlBody, Env, Manager, Effect, wrote, chat_shown, own_message, web_error, peers_changed,
  disconnected, rejected, reconnecting, request_shown, history_asked, closed, printed, emit, draw,
  reach, write_line, send_envelope, send_built, send_control, new_control_envelope,
}
use decentralized_p2p_chat_s.Manager.Receive.Frame.{send_built-Quiet}
use decentralized_p2p_chat_s.Manager.Streams.{nickname_body, register, greet, add_stream}
use decentralized_p2p_chat_s.Manager.Dial.{
  Attempt, Reply, timed_out, arrives, conn_accept_msg, first_line, conclude, await_reply, ask, dial,
  give_up,
}

-- How often a stream was closed.
unfoldable pub closings : ℕ → List Effect → ℕ
closings stream [] = 0
closings stream (closed s ∷ es) =
    if eqb s stream then closings stream es + 1 else closings stream es
closings stream (_ ∷ es) = closings stream es

pub closings-append :
    (stream : ℕ) (xs ys : List Effect)
    → closings stream (xs ++ ys) ≡ closings stream xs + closings stream ys
unfolding closings
closings-append stream [] ys = omega arith
closings-append stream (closed s ∷ xs) ys = ground (arith, closings-append stream xs ys)
closings-append stream (wrote s line ∷ xs) ys = closings-append stream xs ys
closings-append stream (chat_shown from name text ∷ xs) ys = closings-append stream xs ys
closings-append stream (own_message to text ∷ xs) ys = closings-append stream xs ys
closings-append stream (web_error text ∷ xs) ys = closings-append stream xs ys
closings-append stream (peers_changed ∷ xs) ys = closings-append stream xs ys
closings-append stream (disconnected peer ∷ xs) ys = closings-append stream xs ys
closings-append stream (rejected peer ∷ xs) ys = closings-append stream xs ys
closings-append stream (reconnecting peer status ∷ xs) ys = closings-append stream xs ys
closings-append stream (request_shown peer short nick ∷ xs) ys = closings-append stream xs ys
closings-append stream (history_asked peer ∷ xs) ys = closings-append stream xs ys
closings-append stream (printed text ∷ xs) ys = closings-append stream xs ys

module _ (env : Env) (stream : ℕ) where
  send_envelope-closings :
      (m : Manager) (peer : Bytes) (s : ℕ) (session : Session) (e : Envelope)
      → closings stream (send_envelope env m peer s session e).0.effects ≡ closings stream m.effects
  unfolding send_envelope write_line closings
  send_envelope-closings m peer s session e = ground arith

  send_built-closings :
      (m : Manager) (peer : Bytes) (built : Option Envelope)
      → closings stream (send_built env m peer built).0.effects ≡ closings stream m.effects
  unfolding send_built
  send_built-closings m peer built = elim (Option-cases (reach m peer)) [
    | inl e ↦ rw (e, send_built) refl
    | inr (r, e) ↦ rw (e, send_built) (go r built)
  ]
    where
      go :
          (r : ℕ × Session) (b : Option Envelope)
          → closings stream
              (elim b as (λ _. Manager × Bool) [
                | none ↦ (draw m, false)
                | some e ↦ send_envelope env (draw m) peer r.0 r.1 e
              ]).0.effects
            ≡ closings stream m.effects
      go r none = refl
      go r (some e) = send_envelope-closings (draw m) peer r.0 r.1 e

  pub send_control-closings :
      (m : Manager) (peer : Bytes) (body : ControlBody)
      → closings stream (send_control env m peer body).0.effects ≡ closings stream m.effects
  unfolding send_control
  send_control-closings m peer body = send_built-closings m peer _

-- The answer that came back is the one that accepts.
abbrev pub Accepted : Reply → Type 0
Accepted timed_out = ⊥
Accepted (arrives s) = first_line s ≡ some conn_accept_msg

module _ (env : Env) (peer : Bytes) (stream : ℕ) where
  -- The stream is registered under the peer, and stays open.
  pub record Joined (m n : Manager) : Type 0 where
    pub there : lookup peer n.streams ≡ some stream
    pub kept_open : closings stream n.effects ≡ closings stream m.effects

  -- The stream is closed, once, and no conversation has changed.
  pub record Dropped (m n : Manager) : Type 0 where
    pub shut : closings stream n.effects ≡ closings stream m.effects + 1
    pub streams : n.streams ≡ m.streams
    pub sessions : n.sessions ≡ m.sessions
    pub active : n.active ≡ m.active

  greet-streams : (m : Manager) → (greet env m peer).streams ≡ m.streams
  unfolding greet send_control
  greet-streams m = ground (
    arith,
    (send_built-Quiet [] env m peer
        (new_control_envelope env m peer (nickname_body m.local_nick))).streams,
  )

  greet-closings :
      (m : Manager) → closings stream (greet env m peer).effects ≡ closings stream m.effects
  unfolding greet closings
  greet-closings m =
      ground (arith, send_control-closings env stream m peer (nickname_body m.local_nick))

  greet-Joined :
      (m : Manager) (session : Session) → Joined m (greet env (register m peer stream session) peer)
  unfolding register
  greet-Joined m session = record {
    there =
        ap (lookup peer) (greet-streams (register m peer stream session))
        ∙ lookup-insert_self peer stream m.streams;
    kept_open = greet-closings (register m peer stream session);
  }

  -- One of the two, where the first needs the condition.
  abbrev pub Settles : Type 0 → Manager → Manager → Type 0
  Settles C m n = C × Joined m n ⊎ Dropped m n

  pub add_stream-some :
      (m : Manager) (session : Session) (own : Bytes)
      → m.node ≡ some own
      → add_stream env m peer stream (some session)
        ≡ greet env (register m peer stream session) peer
  unfolding add_stream
  add_stream-some m session own e =
      ap
        (λ node. elim node as (λ _. Manager) [
          | none ↦ emit m (closed stream)
          | some own ↦ greet env (register m peer stream session) peer
        ])
        e

  module _ {C : Type 0} where
    pub add_stream-Settles :
        (m : Manager) (handshaken : Option Session)
        → (handshaken ≢ none → C)
        → Settles C m (add_stream env m peer stream handshaken)
    unfolding add_stream closings
    add_stream-Settles m none c = elim (Option-cases m.node) [
      | inl e ↦ rw (e, add_stream) (inr (ground arith))
      | inr (own, e) ↦ rw (e, add_stream) (inr (ground arith))
    ]
    add_stream-Settles m (some session) c = elim (Option-cases m.node) [
      | inl e ↦ rw (e, add_stream) (inr (ground arith))
      | inr (own, e) ↦
          subst (Settles C m) (sym (add_stream-some m session own e))
            (inl (c (λ h. cc h), greet-Joined m session))
    ]

    -- Effects that close nothing may come before, or after.
    pub before-Settles :
        (m n : Manager) (k : Manager)
        → k.streams ≡ m.streams
        → k.sessions ≡ m.sessions
        → k.active ≡ m.active
        → closings stream k.effects ≡ closings stream m.effects
        → Settles C k n
        → Settles C m n
    before-Settles m n k p q r same (inl (c, j)) =
        inl (c, record { there = j.there; kept_open = j.kept_open ∙ same })
    before-Settles m n k p q r same (inr d) = inr (record {
      shut = d.shut ∙ ap (λ k. k + 1) same;
      streams = d.streams ∙ p;
      sessions = d.sessions ∙ q;
      active = d.active ∙ r;
    })

    after-Settles :
        (m n : Manager) (text : Bytes) → Settles C m n → Settles C m (emit n (printed text))
    unfolding closings
    after-Settles m n text (inl (c, j)) =
        inl (c, record { there = j.there; kept_open = j.kept_open })
    after-Settles m n text (inr d) =
        inr
          (record { shut = d.shut; streams = d.streams; sessions = d.sessions; active = d.active })

    gives_up : (m : Manager) (text : Bytes) → Settles C m (emit (give_up m text) (closed stream))
    unfolding closings
    gives_up m text = inr (ground arith)

  conclude-Settles :
      (m : Manager) (handshaken : Option Session) (line : Option Bytes)
      → Settles (line ≡ some conn_accept_msg) m (conclude env m peer stream handshaken line)
  unfolding conclude closings
  conclude-Settles m handshaken none = gives_up m _
  conclude-Settles m handshaken (some line) =
      if_ind (Settles (some line ≡ some conn_accept_msg) m) (line == conn_accept_msg)
        (λ h. after-Settles m _ _ (
          before-Settles m _ (emit m (printed _)) refl refl refl refl
            (add_stream-Settles _ handshaken (λ _. ground arith))))
        (λ h. inr (ground arith))

  await_reply-Settles :
      (m : Manager) (attempt : Attempt)
      → Settles (Accepted attempt.reply) m (await_reply env m peer stream attempt)
  unfolding await_reply
  await_reply-Settles m attempt = go attempt.reply refl
    where
      go :
          (r : Reply)
          → attempt.reply ≡ r
          → Settles (Accepted attempt.reply) m (await_reply env m peer stream attempt)
      go timed_out e = rw (e, await_reply) (gives_up m _)
      go (arrives s) e = rw (e, await_reply) (conclude-Settles m attempt.handshaken (first_line s))

  ask-Settles :
      (m : Manager) (attempt : Attempt)
      → Settles (Accepted attempt.reply) m (ask env m peer stream attempt)
  unfolding ask closings
  ask-Settles m attempt =
      if_ind (Settles (Accepted attempt.reply) m) (env.can_write stream m.draws)
        (λ h. before-Settles m _ _ refl refl refl refl (await_reply-Settles _ attempt))
        (λ h. before-Settles m _ (draw m) refl refl refl refl (gives_up (draw m) _))

  -- Every stream that `connectToPeer` opens is either registered under the peer and kept open, and
  -- then the peer's answer was the line that accepts, or it is closed once and no conversation has
  -- changed.
  pub dial-Settles :
      (m : Manager) (attempt : Attempt)
      → lookup peer m.streams ≡ none
      → attempt.connects ≡ true
      → attempt.stream ≡ some stream
      → Settles (Accepted attempt.reply) m (dial env m peer attempt)
  unfolding dial closings
  dial-Settles m attempt new connects there =
      rw (new, dial, connects, there)
        (before-Settles m _ _ refl refl refl refl (ask-Settles _ attempt))
