-- ===== src/Manager/Receive/Delivery.antt =====
-- A whole conversation: `handleEnvelope` on one envelope after the other.
use decentralized_p2p_chat_s.Base.{
  ℕ, ◌+◌, ◌%◌, ◌^◌, ◌≤◌, ◌<◌, ◌≡◌, refl, ap, ◌∙◌, true, false, List, [], ◌∷◌, ◌++◌, some, arith,
  nat_eq, bytes_eq, Bytes, All,
}
use decentralized_p2p_chat_s.Base.Dict.{lookup}
use decentralized_p2p_chat_s.Security.Replay.Spec.{contains}
use decentralized_p2p_chat_s.Protocol.{Envelope, type_chat}
use decentralized_p2p_chat_s.Manager.{Env, Manager, or_else, conversation_id}
use decentralized_p2p_chat_s.Manager.Receive.{admit, handle_chat, dispatch, handle_envelope}
use decentralized_p2p_chat_s.Manager.Receive.Frame.{heard}
use decentralized_p2p_chat_s.Manager.Receive.Keeps.{handle_chat-Keeps}
use decentralized_p2p_chat_s.Manager.Receive.Inbox.{countdown}
use decentralized_p2p_chat_s.Manager.Receive.Order.{last_seq, Ordered, Ordered-at, IsDrained}
use decentralized_p2p_chat_s.Manager.Receive.Handle.{IsHonest, take_number, handle_chat-Ordered}

module _ (env : Env) (peer : Bytes) where
  -- A chat envelope that belongs to the conversation with the peer.
  pub record IsOurs (own : Bytes) (e : Envelope) : Type 0 where
    pub chat : e.typ ≡ type_chat
    pub conversation : e.conversation ≡ conversation_id env own peer
    pub sender : e.sender ≡ env.id_string peer

  pub handle_envelope-chat :
      (m : Manager) (own : Bytes) (e : Envelope)
      → m.node ≡ some own
      → IsOurs own e
      → handle_envelope env m peer e ≡ handle_chat env m peer e
  unfolding handle_envelope dispatch
  handle_envelope-chat m own e h o =
      rw (h, handle_envelope) (ground (arith, o.chat, o.conversation, o.sender))

  -- One envelope after the other.
  unfoldable pub handle_all : Manager → List Envelope → Manager
  handle_all m [] = m
  handle_all m (e ∷ es) = handle_all (handle_envelope env m peer e) es

  -- The numbers of the envelopes, without those that met a full buffer; the latest first.
  unfoldable pub numbers : List ℕ → Manager → List Envelope → List ℕ
  numbers seen m [] = seen
  numbers seen m (e ∷ es) =
      numbers (take_number seen e.sequence (admit m peer e).1) (handle_envelope env m peer e) es

  module _ (own : Bytes) (text_of : ℕ → Bytes) (before : List Bytes) where
    -- An envelope of an honest peer: for this conversation, with the text of its number.
    pub record IsGenuine (e : Envelope) : Type 0 where
      pub ours : IsOurs own e
      pub honest : IsHonest env peer text_of before e

    handle_all-Ordered :
        (seen : List ℕ) (m : Manager) (es : List Envelope)
        → m.node ≡ some own
        → All IsGenuine es
        → Ordered env peer text_of before seen m
        → IsDrained env peer text_of before m
        → Ordered env peer text_of before (numbers seen m es) (handle_all m es)
          × IsDrained env peer text_of before (handle_all m es)
    unfolding handle_all numbers
    handle_all-Ordered seen m [] n g o d = (o, d)
    handle_all-Ordered seen m (e ∷ es) n g o d =
        let same : handle_envelope env m peer e ≡ handle_chat env m peer e =
          handle_envelope-chat m own e n g.0.ours in
        let r = handle_chat-Ordered env peer text_of before seen m e g.0.honest o d in
        handle_all-Ordered (take_number seen e.sequence (admit m peer e).1)
          (handle_envelope env m peer e) es (rw same ((handle_chat-Keeps env peer m e).node ∙ n))
          g.1 (rw same r.0) (rw same r.1)

    -- A new conversation, as `AddStream` sets it up.
    pub record IsNew (m : Manager) : Type 0 where
      pub local_id : m.node ≡ some own
      pub no_number : lookup peer m.recv_seq ≡ some 0
      pub no_buffer : lookup peer m.recv_buffer ≡ some []
      pub shown : heard (env.id_string peer) m.effects ≡ before

    new_Ordered :
        (m : Manager)
        → IsNew m
        → Ordered env peer text_of before [] m × IsDrained env peer text_of before m
    unfolding lookup
    new_Ordered m h = (
      Ordered-at env peer text_of before [] m 0 [] (ap (λ n. or_else n 0) h.no_number)
          (ap (λ b. or_else b []) h.no_buffer)
          (record {
            fits = omega arith;
            delivered = λ k p q. absurd (omega arith);
            waiting = λ k p. refl;
            above = λ k p. refl;
            good = λ k e p. let bad : ⊥ = cc p in absurd bad;
          })
          h.shown,
      rw h.no_buffer refl,
    )

    -- Any sequence of genuine chat envelopes, in any order, with repetitions and gaps, in a new
    -- conversation: what is shown from the peer is the texts of the numbers 1 to n, each once and in
    -- order, where n is the greatest number such that all of 1 to n arrived, those that met a full
    -- buffer not counted.
    pub delivery_in_order :
        (m : Manager) (es : List Envelope)
        → IsNew m
        → All IsGenuine es
        → let n = last_seq (handle_all m es) peer in
          (heard (env.id_string peer) (handle_all m es).effects ≡ countdown text_of n ++ before)
          × ((k : ℕ) → 1 ≤ k → k ≤ n → contains k (numbers [] m es) ≡ true)
          × (n + 1 < 2 ^ 64 → contains (n + 1) (numbers [] m es) ≡ false)
    delivery_in_order m es h g =
        let r = handle_all-Ordered [] m es h.local_id g (new_Ordered m h).0 (new_Ordered m h).1 in
        (
          r.0.shown,
          r.0.inbox.delivered,
          λ fits. ground (
            arith,
            r.0.inbox.waiting (last_seq (handle_all m es) peer + 1),
            next_number _ fits,
            r.1,
          ),
        )
      where
        next_number : (n : ℕ) → n + 1 < 2 ^ 64 → (n + 1) % 2 ^ 64 ≡ n + 1
        next_number n fits = omega arith
