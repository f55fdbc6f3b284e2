-- ===== src/Manager/Receive/Order.antt =====
-- In which order the chat messages of a peer are shown.
use decentralized_p2p_chat_s.Base.{
  ℕ, zero, suc, ◌+◌, ◌%◌, ◌^◌, ◌<◌, ◌≡◌, refl, sym, subst, ap, ◌∙◌, false, List, [], ◌++◌, none,
  some, arith, nat_eq, bytes_eq, Bytes, length, Option-cases, inl, inr,
}
use decentralized_p2p_chat_s.Base.Dict.{Dict, lookup, erase, lookup-insert_self, length-erase-lt}
use decentralized_p2p_chat_s.Protocol.{Envelope}
use decentralized_p2p_chat_s.Manager.{Env, Manager, or_else}
use decentralized_p2p_chat_s.Manager.Receive.{
  taken, is_blank, deliver_chat, take_next, consume, consume_buffered, drain,
}
use decentralized_p2p_chat_s.Manager.Receive.Frame.{heard, Quiet, send_ack-Quiet}
use decentralized_p2p_chat_s.Manager.Receive.Inbox.{countdown, Inbox, Inbox-take}

abbrev pub last_seq : Manager → Bytes → ℕ
last_seq m peer = or_else (lookup peer m.recv_seq) 0

abbrev pub buffer_of : Manager → Bytes → Dict ℕ Envelope
buffer_of m peer = or_else (lookup peer m.recv_buffer) []

module _ (env : Env) (peer : Bytes) (text_of : ℕ → Bytes) (before : List Bytes) where
  -- An envelope that carries the text of a number, which is not blank.
  abbrev pub Carries : ℕ → Envelope → Type 0
  Carries k e =
      (env.bodies.unmarshal_chat e.body ≡ some (text_of k)) × (is_blank (text_of k) ≡ false)

  -- The texts that were shown are those of the numbers 1 to the last delivered, in order, after
  -- those from before; the rest of what was taken waits in the buffer.
  pub record Ordered (seen : List ℕ) (m : Manager) : Type 0 where
    pub inbox : Inbox Carries seen (last_seq m peer) (buffer_of m peer)
    pub shown : heard (env.id_string peer) m.effects ≡ countdown text_of (last_seq m peer) ++ before

  pub Ordered-Quiet :
      {seen : List ℕ} {m n : Manager}
      → Quiet (env.id_string peer) m n
      → Ordered seen m
      → Ordered seen n
  Ordered-Quiet q o = record {
    inbox = rw (q.recv_seq, q.recv_buffer) o.inbox;
    shown = rw (q.texts, q.recv_seq) o.shown;
  }

  pub Ordered-at :
      (seen : List ℕ) (m : Manager) (last : ℕ) (buffer : Dict ℕ Envelope)
      → last_seq m peer ≡ last
      → buffer_of m peer ≡ buffer
      → Inbox Carries seen last buffer
      → heard (env.id_string peer) m.effects ≡ countdown text_of last ++ before
      → Ordered seen m
  Ordered-at seen m last buffer p q i h = record {
    inbox =
        subst (λ n. Inbox Carries seen n (buffer_of m peer)) (sym p)
          (subst (Inbox Carries seen last) (sym q) i);
    shown = h ∙ ap (λ n. countdown text_of n ++ before) (sym p);
  }

  -- Showing the next text keeps a state ordered whose inbox has moved on already.
  pub consume-Ordered :
      (seen : List ℕ) (m : Manager) (e : Envelope) (last : ℕ) (buffer : Dict ℕ Envelope)
      → last_seq m peer ≡ suc last
      → buffer_of m peer ≡ buffer
      → Inbox Carries seen (suc last) buffer
      → heard (env.id_string peer) m.effects ≡ countdown text_of last ++ before
      → Ordered seen (consume env m peer e (text_of (suc last)))
  unfolding consume deliver_chat
  consume-Ordered seen m e last buffer p q i h =
      Ordered-Quiet (send_ack-Quiet (env.id_string peer) env _ peer e.id)
        (Ordered-at seen _ (suc last) buffer p q i (ground (arith, h)))

  abbrev pub next_seq : Manager → ℕ
  next_seq m = (last_seq m peer + 1) % 2 ^ 64

  take_next-some :
      (m : Manager) (e : Envelope)
      → lookup (next_seq m) (buffer_of m peer) ≡ some e
      → take_next m peer ≡ some (e, taken peer m)
  unfolding take_next
  take_next-some m e h = rw (h, take_next)

  take_next-none :
      (m : Manager) → lookup (next_seq m) (buffer_of m peer) ≡ none → take_next m peer ≡ none
  unfolding take_next
  take_next-none m h = rw (h, take_next)

  -- What is in the buffer is above the last number, so the next one does not wrap round.
  no_wrap :
      (seen : List ℕ) (m : Manager) (e : Envelope)
      → Ordered seen m
      → lookup (next_seq m) (buffer_of m peer) ≡ some e
      → last_seq m peer + 1 < 2 ^ 64
  no_wrap seen m e o h = ground (arith, o.inbox.fits, o.inbox.above (next_seq m))

  consume_buffered_good :
      (m : Manager) (e : Envelope) (k : ℕ)
      → Carries k e
      → consume_buffered env m peer e ≡ consume env m peer e (text_of k)
  unfolding consume_buffered
  consume_buffered_good m e k c = rw (c.0, consume_buffered) (rw c.1 refl)

  buffer_of-consume :
      (m : Manager) (e : Envelope) (text : Bytes)
      → buffer_of (consume env m peer e text) peer ≡ buffer_of m peer
  unfolding consume deliver_chat
  buffer_of-consume m e text =
      ap (λ b. or_else (lookup peer b) [])
        (send_ack-Quiet (env.id_string peer) env (deliver_chat env m peer text) peer
          e.id).recv_buffer

  module _ (seen : List ℕ) (m : Manager) (e : Envelope) (o : Ordered seen m)
      (found : lookup (next_seq m) (buffer_of m peer) ≡ some e) where
    next_is_suc : next_seq m ≡ suc (last_seq m peer)
    next_is_suc = omega (arith, no_wrap seen m e o found)

    found_suc : lookup (suc (last_seq m peer)) (buffer_of m peer) ≡ some e
    found_suc = subst (λ n. lookup n (buffer_of m peer) ≡ some e) next_is_suc found

    Inbox-suc :
        Inbox Carries seen
          (suc (last_seq m peer))
          (erase (suc (last_seq m peer)) (buffer_of m peer))
    Inbox-suc =
        let q : last_seq m peer + 1 ≡ suc (last_seq m peer) = omega arith in
        subst (λ n. Inbox Carries seen n (erase n (buffer_of m peer))) q
          (Inbox-take Carries seen (last_seq m peer) (buffer_of m peer) o.inbox e
            (no_wrap seen m e o found)
            (subst (λ n. lookup n (buffer_of m peer) ≡ some e) (sym q) found_suc))

    last_taken : last_seq (taken peer m) peer ≡ suc (last_seq m peer)
    last_taken = rw (lookup-insert_self peer (next_seq m) m.recv_seq) next_is_suc

    buffer_taken : buffer_of (taken peer m) peer ≡ erase (suc (last_seq m peer)) (buffer_of m peer)
    buffer_taken =
        rw (lookup-insert_self peer (erase (next_seq m) (buffer_of m peer)) m.recv_buffer)
          (ap (λ n. erase n (buffer_of m peer)) next_is_suc)

    -- One round of the loop delivers one message and makes the buffer smaller.
    drain_round :
        Ordered seen (consume_buffered env (taken peer m) peer e)
        × (length (buffer_of (consume_buffered env (taken peer m) peer e) peer)
            < length (buffer_of m peer))
    drain_round =
        rw
          (consume_buffered_good (taken peer m) e (suc (last_seq m peer))
            (o.inbox.good (suc (last_seq m peer)) e found_suc))
          (
            (consume-Ordered seen (taken peer m) e (last_seq m peer) _ last_taken buffer_taken
                Inbox-suc o.shown),
            shorter,
          )
      where
        shorter :
            length
              (buffer_of (consume env (taken peer m) peer e (text_of (suc (last_seq m peer)))) peer)
            < length (buffer_of m peer)
        shorter =
            rw (buffer_of-consume (taken peer m) e (text_of (suc (last_seq m peer))), buffer_taken)
              (length-erase-lt (suc (last_seq m peer)) (buffer_of m peer) (λ n. cc found_suc))

  -- Nothing that is next in order waits.
  abbrev pub IsDrained : Manager → Type 0
  IsDrained m = lookup (next_seq m) (buffer_of m peer) ≡ none

  pub drain-Ordered :
      (seen : List ℕ) (rounds : ℕ) (m : Manager)
      → Ordered seen m
      → length (buffer_of m peer) < rounds
      → Ordered seen (drain env rounds m peer) × IsDrained (drain env rounds m peer)
  unfolding drain
  drain-Ordered seen zero m o h = absurd (omega arith)
  drain-Ordered seen (suc rounds) m o h =
      elim (Option-cases (lookup (next_seq m) (buffer_of m peer))) [
        | inl gone ↦ rw (take_next-none m gone, drain) (o, gone)
        | inr (e, found) ↦
            rw (take_next-some m e found, drain)
              (drain-Ordered seen rounds (consume_buffered env (taken peer m) peer e)
                (drain_round seen m e o found).0 (omega (arith, (drain_round seen m e o found).1)))
      ]
