-- ===== src/Conversation/Passed.antt =====
-- What one message between two linked ends has done.
use decentralized_p2p_chat_s.Base.{
  ℕ, suc, ◌≡◌, refl, sym, subst, ap, ◌∙◌, [], ◌∷◌, none, arith, bytes_eq, Bytes, Option-cases, inl,
  inr,
}
use decentralized_p2p_chat_s.Base.Dict.{Dict, lookup, erase}
use decentralized_p2p_chat_s.Protocol.{Envelope}
use decentralized_p2p_chat_s.Manager.{Env, PendingChat, Manager, draw}
use decentralized_p2p_chat_s.Manager.Pending.{track_pending, keep_pending, ack_pending}
use decentralized_p2p_chat_s.Manager.Pending.Waiting.{waits, waits-ack_pending, waits-track_pending}
use decentralized_p2p_chat_s.Manager.Pending.Sending.{numbered}
use decentralized_p2p_chat_s.Manager.Receive.{deliver_chat}
use decentralized_p2p_chat_s.Manager.Receive.Frame.{heard}
use decentralized_p2p_chat_s.Conversation.{End, IsFaithful, on, say}
use decentralized_p2p_chat_s.Conversation.Messages.{IsSendable, IsSound}
use decentralized_p2p_chat_s.Conversation.Links.{Linked}
use decentralized_p2p_chat_s.Conversation.Turn.{
  said, passed-Linked, sent, after_reading, after_hearing,
}

-- An acknowledgement changes nothing but what waits.
ack_pending-only :
    (m : Manager) (remote id : Bytes)
    → (p : Dict Bytes (Dict Bytes PendingChat)) × (ack_pending m remote id
        ≡ record m { pending = p })
unfolding ack_pending
ack_pending-only m remote id = elim (Option-cases (lookup remote m.pending)) [
  | inl h ↦ (m.pending, rw (h, ack_pending) refl)
  | inr (messages, h) ↦ let (p, same) = kept (erase id messages) in (p, rw (h, ack_pending) same)
]
  where
    kept :
        (messages : Dict Bytes PendingChat)
        → (p : Dict Bytes (Dict Bytes PendingChat)) × (keep_pending m remote messages
            ≡ record m { pending = p })
    kept [] = unfold keep_pending in (_, refl)
    kept (x ∷ messages) = unfold keep_pending in (_, refl)

-- What a message has done: it is shown at the other end, nothing is shown at its own, no message
-- has begun to wait, and the two ends are linked as before.
pub record Passed (env : Env) (here there : End) (room : ℕ) (key back text : Bytes) (a b : Manager)
    (r : Manager × Manager) : Type 0 where
  pub linked : Linked here there room key back r.0 r.1
  pub shown_there :
      heard (env.id_string here.own) r.1.effects ≡ text ∷ heard (env.id_string here.own) b.effects
  pub silent_here : (who : Bytes) → heard who r.0.effects ≡ heard who a.effects
  pub arrived : (id : Bytes) → waits a there.own id ≡ none → waits r.0 there.own id ≡ none
  pub untouched : r.1.pending ≡ b.pending

module _ (env : Env) (faithful : IsFaithful env) (start : ℕ) (here there : End)
    (sound : IsSound env start here) (sound' : IsSound env start there) (room : ℕ)
    (key back : Bytes) (a b : Manager) (l : Linked here there (suc room) key back a b)
    (text : Bytes) (sendable : IsSendable env text) where
  abbrev e : Envelope
  e = (sent env faithful start here there sound sound' room key back a b l text sendable).envelope

  abbrev reading : Manager
  reading =
      after_reading env faithful start here there sound sound' room key back a b l text sendable

  abbrev hearing : Manager
  hearing =
      after_hearing env faithful start here there sound sound' room key back a b l text sendable

  shown_once :
      heard (env.id_string here.own) hearing.effects
      ≡ text ∷ heard (env.id_string here.own) b.effects
  unfolding deliver_chat
  shown_once = ground arith

  arrived :
      (id : Bytes)
      → waits a there.own id ≡ none
      → waits (ack_pending reading there.own e.id) there.own id ≡ none
  unfolding track_pending
  arrived id idle = ground (
    arith,
    waits-ack_pending reading there.own e.id there.own id,
    waits-track_pending (on env here.host) (draw (numbered (on env here.host) there.own a))
        there.own e there.own id,
  )

  pub say-Passed : Passed env here there room key back text a b (say env here there (a, b) text)
  say-Passed =
      let (p, only) = ack_pending-only reading there.own e.id in
      subst (Passed env here there room key back text a b)
        (sym (said env faithful start here there sound sound' room key back a b l text sendable))
        (record {
          linked =
              subst (λ m. Linked here there room key back m hearing) (sym only)
                (passed-Linked env faithful start here there sound sound' room key back a b l text
                  sendable p);
          shown_there = shown_once;
          silent_here = λ who. ap (λ m. heard who m.effects) only ∙ (unfold track_pending in refl);
          arrived = arrived;
          untouched = unfold deliver_chat in refl;
        })
