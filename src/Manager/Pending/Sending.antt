-- ===== src/Manager/Pending/Sending.antt =====
-- `sendChat`: what waits and which number is used, whether the message is sent or not.
use decentralized_p2p_chat_s.Base.{
  ℕ, ◌+◌, ◌%◌, ◌^◌, ◌≡◌, ◌≢◌, refl, sym, subst, ap, ◌∙◌, Bool, true, false, [], Option, none, some,
  arith, Result, ok, err, ◌==◌, bytes_eq, if◌then◌else◌, Bytes, Option-cases, inl, inr,
}
use decentralized_p2p_chat_s.Base.Dict.{lookup, insert, lookup-insert_self}
use decentralized_p2p_chat_s.Security.Session.{Session}
use decentralized_p2p_chat_s.Protocol.{Envelope, type_chat, new_chat, new_envelope}
use decentralized_p2p_chat_s.Protocol.Create.{new_envelope-IsValid}
use decentralized_p2p_chat_s.Manager.{
  Env, PendingChat, Manager, or_else, draw, reach, new_chat_envelope, send_envelope,
  conversation_id, from_result,
}
use decentralized_p2p_chat_s.Manager.Pending.{
  track_pending, ack_pending, outcome, send_tracked, send_chat,
}
use decentralized_p2p_chat_s.Manager.Pending.Waiting.{
  waits, waits-ack_pending, waits-track_pending, first_try, send_seq-ack_pending,
}
use decentralized_p2p_chat_s.Manager.Receive.Frame.{Quiet, send_envelope-Quiet}

from_result-eq-some : {E A : Type 0} (r : Result E A) {a : A} → from_result r ≡ some a → r ≡ ok a
unfolding from_result
from_result-eq-some (ok a) h = cc h
from_result-eq-some (err e) h = cc h

module _ (env : Env) (remote : Bytes) where
  -- The number of the next chat message to the peer.
  abbrev pub next_number : Manager → ℕ
  next_number m = (or_else (lookup remote m.send_seq) 0 + 1) % 2 ^ 64

  abbrev pub numbered : Manager → Manager
  numbered m = record m { send_seq = insert remote (next_number m) m.send_seq }

  -- The peer's message is on its way, for the first time, and all else waits as before.
  pub record IsSent (m n : Manager) (e : Envelope) : Type 0 where
    pub counted : lookup remote n.send_seq ≡ some (next_number m)
    pub sequence : e.sequence ≡ next_number m
    pub chat : e.typ ≡ type_chat
    pub waiting : waits n remote e.id ≡ some (first_try env (draw m) e)
    pub others : (peer id : Bytes) → (peer == remote) ≡ false → waits n peer id ≡ waits m peer id
    pub same_peer : (id : Bytes) → (id == e.id) ≡ false → waits n remote id ≡ waits m remote id

  new_chat_envelope-numbered :
      (m : Manager) (sequence : ℕ) (text : Bytes) (e : Envelope)
      → new_chat_envelope env m remote sequence text ≡ some e
      → (e.sequence ≡ sequence) × (e.typ ≡ type_chat)
  unfolding new_chat_envelope from_result
  new_chat_envelope-numbered m sequence text e h = elim (Option-cases m.node) [
    | inl gone ↦ let bad : none ≡ some e = subst (λ n. made n ≡ some e) gone h in cc bad
    | inr (own, there) ↦ from_made own (subst (λ n. made n ≡ some e) there h)
  ]
    where
      made : Option Bytes → Option Envelope
      made node = elim node [
        | none ↦ none
        | some own ↦ from_result (
            new_chat env.json (env.clock m.draws) (env.random m.draws)
              (conversation_id env own remote) (env.id_string own) sequence
              (some (env.bodies.marshal_chat text)))
      ]

      chat_made :
          (own : Bytes)
          → made (some own) ≡ some e
          → new_envelope env.json
              (env.clock m.draws)
              (env.random m.draws)
              type_chat
              (conversation_id env own remote)
              (env.id_string own)
              sequence
              (some (env.bodies.marshal_chat text))
            ≡ ok e
      chat_made own h = unfold new_chat in from_result-eq-some _ h

      from_made :
          (own : Bytes) → made (some own) ≡ some e → (e.sequence ≡ sequence) × (e.typ ≡ type_chat)
      from_made own h =
          let (_, made) =
            new_envelope-IsValid env.json _ _ type_chat _ _ sequence _ {e = e} (chat_made own h) in
          (made.numbered, made.typed)

  outcome-some :
      (r : Manager × Bool) (e : Envelope) {n : Manager} {sent : Envelope}
      → outcome remote e r ≡ (n, some sent)
      → (sent ≡ e) × (n ≡ r.0)
  unfolding outcome
  outcome-some (r, true) e h = (cc h, cc h)
  outcome-some (r, false) e h = let bad : ⊥ = cc h in absurd bad

  outcome-none :
      (r : Manager × Bool) (e : Envelope) {n : Manager}
      → outcome remote e r ≡ (n, none)
      → n ≡ ack_pending r.0 remote e.id
  unfolding outcome
  outcome-none (r, true) e h = cc h
  outcome-none (r, false) e h = cc h

  abbrev built : Manager → Bytes → Option Envelope
  built m text = new_chat_envelope env (numbered m) remote (next_number m) text

  send_chat-away :
      (m : Manager) (text : Bytes) → reach m remote ≡ none → send_chat env m remote text ≡ (m, none)
  unfolding send_chat
  send_chat-away m text h = rw (h, send_chat) refl

  send_chat-unbuilt :
      (m : Manager) (text : Bytes) (r : ℕ × Session)
      → reach m remote ≡ some r
      → built m text ≡ none
      → send_chat env m remote text ≡ (draw (numbered m), none)
  unfolding send_chat
  send_chat-unbuilt m text r h b = rw (h, send_chat) (rw b refl)

  pub send_chat-built :
      (m : Manager) (text : Bytes) (r : ℕ × Session) (e : Envelope)
      → reach m remote ≡ some r
      → built m text ≡ some e
      → send_chat env m remote text
        ≡ outcome remote e
            (send_envelope env (track_pending env (draw (numbered m)) remote e) remote r.0 r.1 e)
  unfolding send_chat send_tracked
  send_chat-built m text r e h b = rw (h, send_chat) (rw b refl)

  -- The state when the frame of an envelope that was tracked is on the stream.
  abbrev written : Manager → ℕ × Session → Envelope → Manager
  written m r e =
      (send_envelope env (track_pending env (draw (numbered m)) remote e) remote r.0 r.1 e).0

  written-Quiet :
      (m : Manager) (r : ℕ × Session) (e : Envelope)
      → Quiet [] (track_pending env (draw (numbered m)) remote e) (written m r e)
  written-Quiet m r e = send_envelope-Quiet [] env _ remote r.0 r.1 e

  waits-written :
      (m : Manager) (r : ℕ × Session) (e : Envelope) (peer id : Bytes)
      → waits (written m r e) peer id ≡ (
          if peer == remote
          then (if id == e.id then some (first_try env (draw m) e) else waits m peer id)
          else waits m peer id)
  waits-written m r e peer id =
      ap (λ p. lookup id (or_else (lookup peer p) [])) (written-Quiet m r e).pending
      ∙ waits-track_pending env (draw (numbered m)) remote e peer id

  counted-written :
      (m : Manager) (r : ℕ × Session) (e : Envelope)
      → lookup remote (written m r e).send_seq ≡ some (next_number m)
  unfolding track_pending
  counted-written m r e =
      ap (lookup remote) (written-Quiet m r e).send_seq
      ∙ lookup-insert_self remote (next_number m) m.send_seq

  written-IsSent :
      (m : Manager) (text : Bytes) (r : ℕ × Session) (e : Envelope)
      → built m text ≡ some e
      → IsSent m (written m r e) e
  written-IsSent m text r e b =
      let (same, chat) = new_chat_envelope-numbered (numbered m) (next_number m) text e b in
      record {
        counted = counted-written m r e;
        sequence = same;
        chat = chat;
        waiting = ground (arith, waits-written m r e remote e.id);
        others = λ peer id h. ground (arith, waits-written m r e peer id);
        same_peer = λ id h. ground (arith, waits-written m r e remote id);
      }

  -- A chat message that is sent gets the number after the last one that was used for the peer, waits
  -- for its acknowledgement as sent once, and changes nothing else that waits.
  pub send_chat-IsSent :
      (m n : Manager) (text : Bytes) (e : Envelope)
      → send_chat env m remote text ≡ (n, some e)
      → IsSent m n e
  send_chat-IsSent m n text e h = elim (Option-cases (reach m remote)) [
    | inl away ↦ let bad : ⊥ = cc (h, send_chat-away m text away) in absurd bad
    | inr (r, there) ↦ elim (Option-cases (built m text)) [
      | inl b ↦ let bad : ⊥ = cc (h, send_chat-unbuilt m text r there b) in absurd bad
      | inr (e', b) ↦
          let (same, state) = outcome-some _ e' (sym (send_chat-built m text r e' there b) ∙ h) in
          subst (λ s. IsSent m n s) (sym same)
            (subst (λ s. IsSent m s e') (sym state) (written-IsSent m text r e' b))
    ]
  ]

  waits-taken_back :
      (m : Manager) (r : ℕ × Session) (e : Envelope) (peer id : Bytes) (p : PendingChat)
      → waits (ack_pending (written m r e) remote e.id) peer id ≡ some p
      → waits m peer id ≡ some p
  waits-taken_back m r e peer id p w =
      ground
        (arith, waits-ack_pending (written m r e) remote e.id peer id, waits-written m r e peer id)

  counted-taken_back :
      (m : Manager) (r : ℕ × Session) (e : Envelope)
      → lookup remote (ack_pending (written m r e) remote e.id).send_seq ≡ some (next_number m)
  counted-taken_back m r e =
      ap (lookup remote) (send_seq-ack_pending (written m r e) remote e.id) ∙ counted-written m r e

  -- A chat message that is not sent leaves nothing new waiting. To a peer that is connected, it has
  -- used a number up all the same.
  pub send_chat-failed :
      (m n : Manager) (text : Bytes)
      → send_chat env m remote text ≡ (n, none)
      → ((peer id : Bytes) (p : PendingChat) → waits n peer id ≡ some p → waits m peer id ≡ some p)
        × (reach m remote ≢ none → lookup remote n.send_seq ≡ some (next_number m))
  send_chat-failed m n text h = elim (Option-cases (reach m remote)) [
    | inl away ↦
        let same : n ≡ m = cc (h, send_chat-away m text away) in
        (λ peer id p w. ap (λ s. waits s peer id) (sym same) ∙ w, λ there. absurd (there away))
    | inr (r, there) ↦ elim (Option-cases (built m text)) [
      | inl b ↦
          let same : n ≡ draw (numbered m) = cc (h, send_chat-unbuilt m text r there b) in
          (
            λ peer id p w. ap (λ s. waits s peer id) (sym same) ∙ w,
            λ _.
                ap (λ s. lookup remote s.send_seq) same
                ∙ lookup-insert_self remote (next_number m) m.send_seq,
          )
      | inr (e, b) ↦
          let same = outcome-none _ e (sym (send_chat-built m text r e there b) ∙ h) in
          (
            λ peer id p w.
                waits-taken_back m r e peer id p (ap (λ s. waits s peer id) (sym same) ∙ w),
            λ _. ap (λ s. lookup remote s.send_seq) same ∙ counted-taken_back m r e,
          )
    ]
  ]
