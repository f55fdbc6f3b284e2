-- ===== src/Conversation/Talk.antt =====
-- A whole conversation: the two users write one text after the other, in any order.
use mathlib.Core.List.{reverse, reverse-cons, append_assoc}
use decentralized_p2p_chat_s.Base.{
  ℕ, ◌≡◌, refl, sym, ap, ◌∙◌, List, [], ◌∷◌, ◌++◌, none, bytes_eq, Bytes, length, All,
}
use decentralized_p2p_chat_s.Base.Dict.{lookup}
use decentralized_p2p_chat_s.Manager.{Env, Manager, or_else}
use decentralized_p2p_chat_s.Manager.Pending.Waiting.{waits}
use decentralized_p2p_chat_s.Manager.Receive.Frame.{heard}
use decentralized_p2p_chat_s.Conversation.{Host, End, at_host, IsFaithful, say}
use decentralized_p2p_chat_s.Conversation.Messages.{IsSendable, IsSound}
use decentralized_p2p_chat_s.Conversation.Links.{Linked, Linked-swap, Linked-at_host}
use decentralized_p2p_chat_s.Conversation.Passed.{say-Passed}

-- A text that the user at one of the two ends writes, and the hosts of the two ends while it is passed
-- on and acknowledged: the clocks of one turn say nothing of those of another.
pub data Turn : Type 0 where
  from_here from_there : Host → Host → Bytes → Turn

abbrev pub text_of : Turn → Bytes
text_of (from_here h k text) = text
text_of (from_there h k text) = text

abbrev pub host_here : Turn → Host
host_here (from_here h k text) = h
host_here (from_there h k text) = h

abbrev pub host_there : Turn → Host
host_there (from_here h k text) = k
host_there (from_there h k text) = k

-- The texts of each end, in the order in which they were written.
abbrev pub texts_here : List Turn → List Bytes
texts_here [] = []
texts_here (from_here h k text ∷ turns) = text ∷ texts_here turns
texts_here (from_there h k text ∷ turns) = texts_here turns

abbrev pub texts_there : List Turn → List Bytes
texts_there [] = []
texts_there (from_here h k text ∷ turns) = texts_there turns
texts_there (from_there h k text ∷ turns) = text ∷ texts_there turns

module _ (env : Env) where
  unfoldable pub talk : End → End → Manager → Manager → List Turn → Manager × Manager
  talk here there a b [] = (a, b)
  talk here there a b (from_here h k text ∷ turns) =
      let (a', b') = say env (at_host here h) (at_host there k) (a, b) text in
      talk here there a' b' turns
  talk here there a b (from_there h k text ∷ turns) =
      let (b', a') = say env (at_host there k) (at_host here h) (b, a) text in
      talk here there a' b' turns

  -- The end of a conversation: all texts of each end are shown at the other one, the newest first,
  -- and at neither end a message has begun to wait.
  pub record Delivered (here there : End) (a b : Manager) (turns : List Turn)
      (r : Manager × Manager) : Type 0 where
    pub shown_there :
        heard (env.id_string here.own) r.1.effects
        ≡ reverse (texts_here turns) ++ heard (env.id_string here.own) b.effects
    pub shown_here :
        heard (env.id_string there.own) r.0.effects
        ≡ reverse (texts_there turns) ++ heard (env.id_string there.own) a.effects
    pub arrived : (id : Bytes) → waits a there.own id ≡ none → waits r.0 there.own id ≡ none
    pub arrived_back : (id : Bytes) → waits b here.own id ≡ none → waits r.1 here.own id ≡ none

  -- One more text at the front.
  reverse-step :
      (x : Bytes) (xs old new : List Bytes) {all : List Bytes}
      → new ≡ x ∷ old
      → all ≡ reverse xs ++ new
      → all ≡ reverse (x ∷ xs) ++ old
  reverse-step x xs old new first rest =
      rest
      ∙ ap (λ l. reverse xs ++ l) first
      ∙ sym (rw (reverse-cons x xs) (append_assoc (reverse xs) (x ∷ []) old))

-- A turn in which the text can be sent and nothing fails: all times that the two clocks show during it
-- lie within five minutes.
pub record Proceeds (env : Env) (here there : End) (turn : Turn) : Type 0 where
  pub start : ℕ
  pub sound : IsSound env start (at_host here (host_here turn))
  pub sound_there : IsSound env start (at_host there (host_there turn))
  pub sendable : IsSendable env (text_of turn)

module _ (env : Env) (faithful : IsFaithful env) (here there : End) (key back : Bytes) where
  -- Two nodes that are linked pass on everything that their users write, in any order of the two,
  -- however long it takes: each text is shown once at the other end, in order, and no message of the
  -- conversation is left waiting for its acknowledgement. While one message is passed on and
  -- acknowledged, nothing fails on the two hosts and the times that their clocks show lie within five
  -- minutes.
  pub talk-Delivered :
      (turns : List Turn) (a b : Manager)
      → Linked here there (length turns) key back a b
      → All (Proceeds env here there) turns
      → Delivered env here there a b turns (talk env here there a b turns)
  unfolding talk
  talk-Delivered [] a b l good = record {
    shown_there = refl;
    shown_here = refl;
    arrived = λ id idle. idle;
    arrived_back = λ id idle. idle;
  }
  talk-Delivered (from_here h k text ∷ turns) a b l good =
      let g = good.0 in
      let p =
        say-Passed env faithful g.start (at_host here h) (at_host there k) g.sound g.sound_there
          (length turns) key back a b (Linked-at_host h k l) text g.sendable in
      let rest = talk-Delivered turns _ _ (Linked-at_host here.host there.host p.linked) good.1 in
      record {
        shown_there = reverse-step env text (texts_here turns) _ _ p.shown_there rest.shown_there;
        shown_here = rest.shown_here ∙ ap (λ l. reverse (texts_there turns) ++ l) (p.silent_here _);
        arrived = λ id idle. rest.arrived id (p.arrived id idle);
        arrived_back = λ id idle.
            rest.arrived_back id
              (ap (λ d. lookup id (or_else (lookup here.own d) [])) p.untouched ∙ idle);
      }
  talk-Delivered (from_there h k text ∷ turns) a b l good =
      let g = good.0 in
      let p =
        say-Passed env faithful g.start (at_host there k) (at_host here h) g.sound_there g.sound
          (length turns) back key b a (Linked-swap (Linked-at_host h k l)) text g.sendable in
      let rest =
        talk-Delivered turns _ _ (Linked-at_host here.host there.host (Linked-swap p.linked))
          good.1 in
      record {
        shown_there =
            rest.shown_there ∙ ap (λ l. reverse (texts_here turns) ++ l) (p.silent_here _);
        shown_here = reverse-step env text (texts_there turns) _ _ p.shown_there rest.shown_here;
        arrived = λ id idle.
            rest.arrived id
              (ap (λ d. lookup id (or_else (lookup there.own d) [])) p.untouched ∙ idle);
        arrived_back = λ id idle. rest.arrived_back id (p.arrived id idle);
      }
