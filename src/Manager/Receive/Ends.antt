-- ===== src/Manager/Receive/Ends.antt =====
-- The loop of `drainReceiveBuffer` ends: it has no bound of its own.
use decentralized_p2p_chat_s.Base.{
  ℕ, zero, suc, ◌+◌, ◌%◌, ◌^◌, ◌<◌, ◌≡◌, ◌≢◌, refl, sym, subst, ap, ◌∙◌, [], Option, none, some,
  arith, nat_eq, bytes_eq, Bytes, length, Option-cases, inl, inr,
}
use decentralized_p2p_chat_s.Base.Dict.{lookup, erase, lookup-insert_self, length-erase-lt}
use decentralized_p2p_chat_s.Protocol.{Envelope}
use decentralized_p2p_chat_s.Manager.{Env, Manager, or_else}
use decentralized_p2p_chat_s.Manager.Receive.{
  taken, take_next, consume_buffered, drain, drain_receive_buffer,
}
use decentralized_p2p_chat_s.Manager.Receive.Bounds.{consume_buffered-buffer}
use decentralized_p2p_chat_s.Manager.Receive.Order.{buffer_of}

module _ (env : Env) (peer : Bytes) where
  abbrev next_seq : Manager → ℕ
  next_seq m = (or_else (lookup peer m.recv_seq) 0 + 1) % 2 ^ 64

  take_next-some :
      (m m' : Manager) (e : Envelope)
      → take_next m peer ≡ some (e, m')
      → (lookup (next_seq m) (buffer_of m peer) ≢ none) × (m' ≡ taken peer m)
  unfolding take_next
  take_next-some m m' e h = go (lookup (next_seq m) (buffer_of m peer)) refl h
    where
      go :
          (o : Option Envelope)
          → lookup (next_seq m) (buffer_of m peer) ≡ o
          → (elim o as (λ _. Option (Envelope × Manager)) [
            | none ↦ none
            | some e ↦ some (e, taken peer m)
          ])
            ≡ some (e, m')
          → (lookup (next_seq m) (buffer_of m peer) ≢ none) × (m' ≡ taken peer m)
      go none found h = let bad : ⊥ = cc h in absurd bad
      go (some x) found h = (λ gone. let bad : ⊥ = cc (found, gone) in absurd bad, cc h)

  buffer-taken :
      (m : Manager) → buffer_of (taken peer m) peer ≡ erase (next_seq m) (buffer_of m peer)
  buffer-taken m =
      ap (λ o. or_else o [])
        (lookup-insert_self peer (erase (next_seq m) (buffer_of m peer)) m.recv_buffer)

  -- Each round takes a message out of the buffer.
  take_next-shrinks :
      (m m' : Manager) (e : Envelope)
      → take_next m peer ≡ some (e, m')
      → length (buffer_of (consume_buffered env m' peer e) peer) < length (buffer_of m peer)
  take_next-shrinks m m' e h =
      let (there, same) = take_next-some m m' e h in
      let shorter = length-erase-lt (next_seq m) (buffer_of m peer) there in
      subst (λ b. length b < length (buffer_of m peer))
        (sym (
          consume_buffered-buffer env peer m' e ∙ ap (λ k. buffer_of k peer) same ∙ buffer-taken m))
        shorter

  drain-none :
      (rounds : ℕ) (m : Manager) → take_next m peer ≡ none → drain env (suc rounds) m peer ≡ m
  unfolding drain
  drain-none rounds m h = rw (h, drain) refl

  drain-some :
      (rounds : ℕ) (m m' : Manager) (e : Envelope)
      → take_next m peer ≡ some (e, m')
      → drain env (suc rounds) m peer ≡ drain env rounds (consume_buffered env m' peer e) peer
  unfolding drain
  drain-some rounds m m' e h = rw (h, drain) refl

  -- With more rounds than the buffer holds, the next message is not in it at the end, and further
  -- rounds do nothing.
  drain-ends :
      (rounds extra : ℕ) (m : Manager)
      → length (buffer_of m peer) < rounds
      → (take_next (drain env rounds m peer) peer ≡ none)
        × (drain env (rounds + extra) m peer ≡ drain env rounds m peer)
  drain-ends zero extra m h = absurd (omega arith)
  drain-ends (suc rounds) extra m h = elim (Option-cases (take_next m peer)) [
    | inl done ↦ (
      ap (λ k. take_next k peer) (drain-none rounds m done) ∙ done,
      again ∙ drain-none (rounds + extra) m done ∙ sym (drain-none rounds m done),
    )
    | inr ((e, m'), more) ↦
        let rest =
          drain-ends rounds extra (consume_buffered env m' peer e)
            (omega (arith, take_next-shrinks m m' e more)) in
        (
          ap (λ k. take_next k peer) (drain-some rounds m m' e more) ∙ rest.0,
          again
              ∙ drain-some (rounds + extra) m m' e more
              ∙ rest.1
              ∙ sym (drain-some rounds m m' e more),
        )
  ]
    where
      again : drain env (suc rounds + extra) m peer ≡ drain env (suc (rounds + extra)) m peer
      again = ap (λ k. drain env k m peer) (omega arith)

  -- The loop ends by itself: when it stops, the next message in order is not in the buffer, and no
  -- number of further rounds would change anything.
  pub drain_receive_buffer-ends :
      (m : Manager) (extra : ℕ)
      → (take_next (drain_receive_buffer env m peer) peer ≡ none)
        × (drain env (suc (length (buffer_of m peer)) + extra) m peer
            ≡ drain_receive_buffer env m peer)
  unfolding drain_receive_buffer
  drain_receive_buffer-ends m extra =
      drain-ends (suc (length (buffer_of m peer))) extra m (omega arith)
