-- ===== src/Manager/Receive/Blocked.antt =====
-- A blank message stops a conversation.
use decentralized_p2p_chat_s.Base.{
  ℕ, ◌+◌, ◌%◌, ◌^◌, ◌≤◌, ◌<◌, ◌≡◌, refl, sym, subst, ap, ◌∙◌, true, List, [], ◌∷◌, some, arith,
  nat_eq, bytes_eq, Bytes, All, Option-cases, inl, inr,
}
use decentralized_p2p_chat_s.Protocol.{Envelope}
use decentralized_p2p_chat_s.Manager.{Env, Manager}
use decentralized_p2p_chat_s.Manager.Receive.{
  with_held, is_blank, admit, handle_chat, handle_envelope, react,
}
use decentralized_p2p_chat_s.Manager.Receive.Frame.{heard, send_ack-Quiet}
use decentralized_p2p_chat_s.Manager.Receive.Keeps.{handle_chat-Keeps}
use decentralized_p2p_chat_s.Manager.Receive.Order.{last_seq}
use decentralized_p2p_chat_s.Manager.Receive.Delivery.{IsOurs, handle_envelope-chat, handle_all}

module _ (env : Env) (peer : Bytes) where
  -- The state of the conversation after a step that shows nothing and moves to no other number.
  abbrev Same : Manager → Manager → Type 0
  Same m n =
      (last_seq n peer ≡ last_seq m peer)
      × (heard (env.id_string peer) n.effects ≡ heard (env.id_string peer) m.effects)

  later_reacts :
      (m : Manager) (e : Envelope) (text : Bytes)
      → last_seq m peer + 1 < e.sequence
      → Same m (react env peer e text (admit m peer e))
  unfolding react admit
  later_reacts m e text later = ground (
    arith,
    (send_ack-Quiet (env.id_string peer) env m peer e.id).recv_seq,
    (send_ack-Quiet (env.id_string peer) env m peer e.id).texts,
    (send_ack-Quiet (env.id_string peer) env (with_held peer m e) peer e.id).recv_seq,
    (send_ack-Quiet (env.id_string peer) env (with_held peer m e) peer e.id).texts,
    wraps m,
  )
    where
      wraps : (m : Manager) → (last_seq m peer + 1) % 2 ^ 64 ≤ last_seq m peer + 1
      wraps m = omega arith

  later_Same :
      (m : Manager) (e : Envelope)
      → last_seq m peer + 1 < e.sequence
      → Same m (handle_chat env m peer e)
  unfolding handle_chat
  later_Same m e later = elim (Option-cases (env.bodies.unmarshal_chat e.body)) [
    | inl h ↦ rw (h, handle_chat) (refl, refl)
    | inr (text, h) ↦ rw (h, handle_chat) (ground (arith, later_reacts m e text later))
  ]

  -- An envelope for this conversation that comes after the next number.
  pub record IsLater (own : Bytes) (next_number : ℕ) (e : Envelope) : Type 0 where
    pub ours : IsOurs env peer own e
    pub later : next_number < e.sequence

  handle_all-Same :
      (m : Manager) (own : Bytes) (es : List Envelope)
      → m.node ≡ some own
      → All (IsLater own (last_seq m peer + 1)) es
      → Same m (handle_all env peer m es)
  unfolding handle_all
  handle_all-Same m own [] n g = (refl, refl)
  handle_all-Same m own (e ∷ es) n g =
      let same : handle_envelope env m peer e ≡ handle_chat env m peer e =
        handle_envelope-chat env peer m own e n g.0.ours in
      let one : Same m (handle_envelope env m peer e) = rw same (later_Same m e g.0.later) in
      let rest : Same (handle_envelope env m peer e)
          (handle_all env peer (handle_envelope env m peer e) es) =
        handle_all-Same (handle_envelope env m peer e) own es
          (ap (λ x. x.node) same ∙ (handle_chat-Keeps env peer m e).node ∙ n)
          (subst (λ k. All (IsLater own (k + 1)) es) (sym one.0) g.1) in
      (rest.0 ∙ one.0, rest.1 ∙ one.1)

  -- The next message in order is blank: it is dropped before its number is taken, so the state stays
  -- as it is, and of all the later messages that follow, none is ever shown and the number that is
  -- expected next stays the same.
  pub blank_blocks :
      (m : Manager) (own text : Bytes) (e : Envelope) (es : List Envelope)
      → m.node ≡ some own
      → IsOurs env peer own e
      → e.sequence ≡ last_seq m peer + 1
      → env.bodies.unmarshal_chat e.body ≡ some text
      → is_blank text ≡ true
      → All (IsLater own (last_seq m peer + 1)) es
      → (handle_envelope env m peer e ≡ m)
        × (last_seq (handle_all env peer m (e ∷ es)) peer ≡ last_seq m peer)
        × (heard (env.id_string peer) (handle_all env peer m (e ∷ es)).effects
            ≡ heard (env.id_string peer) m.effects)
  unfolding handle_all
  blank_blocks m own text e es n o next_number body blank later =
      let dropped : handle_envelope env m peer e ≡ m =
        handle_envelope-chat env peer m own e n o ∙ ignores in
      let rest : Same m (handle_all env peer m es) = handle_all-Same m own es n later in
      (
        dropped,
        ap (λ s. last_seq (handle_all env peer s es) peer) dropped ∙ rest.0,
        ap (λ s. heard (env.id_string peer) (handle_all env peer s es).effects) dropped ∙ rest.1,
      )
    where
      ignores : handle_chat env m peer e ≡ m
      ignores = unfold handle_chat in rw (body, handle_chat) (rw blank refl)
