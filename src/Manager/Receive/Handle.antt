-- ===== src/Manager/Receive/Handle.antt =====
-- `handleEnvelope` on the chat messages of an honest peer.
use decentralized_p2p_chat_s.Base.{
  ℕ, suc, ◌+◌, ◌%◌, ◌^◌, ◌≤◌, ◌<◌, ◌≡◌, refl, sym, subst, ◌∙◌, Bool, true, false, List, ◌∷◌, none,
  arith, ltb, leb, nat_eq, bytes_eq, Bytes, length, inl, inr, Bool-cases,
}
use decentralized_p2p_chat_s.Base.Dict.{lookup, insert, lookup-insert, lookup-insert_self}
use decentralized_p2p_chat_s.Protocol.{Envelope}
use decentralized_p2p_chat_s.Manager.{Env, Manager, send_ack}
use decentralized_p2p_chat_s.Manager.Receive.{
  with_held, moved_on, Admission, duplicate, held, full, next, admit, consume, drain_receive_buffer,
  handle_chat, react,
}
use decentralized_p2p_chat_s.Manager.Receive.Frame.{Quiet, send_ack-Quiet}
use decentralized_p2p_chat_s.Manager.Receive.Inbox.{Inbox, Inbox-next, Inbox-hold, Inbox-repeat}
use decentralized_p2p_chat_s.Manager.Receive.Order.{
  last_seq, buffer_of, Carries, Ordered, Ordered-Quiet, Ordered-at, consume-Ordered, drain-Ordered,
  IsDrained, next_seq,
}

-- The numbers delivered or buffered after an envelope: it is not among them if the buffer is full.
abbrev pub take_number : List ℕ → ℕ → Admission → List ℕ
take_number seen k full = seen
take_number seen k duplicate = k ∷ seen
take_number seen k held = k ∷ seen
take_number seen k next = k ∷ seen

module _ (env : Env) (peer : Bytes) (text_of : ℕ → Bytes) (before : List Bytes) where
  -- A chat envelope of the peer, with the text of its number.
  pub record IsHonest (e : Envelope) : Type 0 where
    pub carries : Carries env peer text_of before e.sequence e
    pub positive : 1 ≤ e.sequence
    pub fits : e.sequence < 2 ^ 64

  handle_chat-react :
      (m : Manager) (e : Envelope)
      → IsHonest e
      → handle_chat env m peer e ≡ react env peer e (text_of e.sequence) (admit m peer e)
  unfolding handle_chat
  handle_chat-react m e g = rw (g.carries.0, handle_chat) (rw g.carries.1 refl)

  abbrev Reacts : List ℕ → Envelope → Manager × Admission → Type 0
  Reacts seen e r =
      Ordered env peer text_of before (take_number seen e.sequence r.1)
        (react env peer e (text_of e.sequence) r)
      × IsDrained env peer text_of before (react env peer e (text_of e.sequence) r)

  IsDrained-Quiet :
      {m n : Manager}
      → Quiet (env.id_string peer) m n
      → IsDrained env peer text_of before m
      → IsDrained env peer text_of before n
  IsDrained-Quiet q d = rw (q.recv_seq, q.recv_buffer) d

  acknowledged :
      (seen : List ℕ) (m : Manager) (e : Envelope)
      → Ordered env peer text_of before seen m
      → IsDrained env peer text_of before m
      → Ordered env peer text_of before seen (send_ack env m peer e.id).0
        × IsDrained env peer text_of before (send_ack env m peer e.id).0
  acknowledged seen m e o d = (
    Ordered-Quiet env peer text_of before (send_ack-Quiet (env.id_string peer) env m peer e.id) o,
    IsDrained-Quiet (send_ack-Quiet (env.id_string peer) env m peer e.id) d,
  )

  module _ (seen : List ℕ) (m : Manager) (e : Envelope) (g : IsHonest e)
      (o : Ordered env peer text_of before seen m) (d : IsDrained env peer text_of before m) where
    Reacts-repeat : e.sequence ≤ last_seq m peer → Reacts seen e (m, duplicate)
    unfolding react
    Reacts-repeat old =
        acknowledged (e.sequence ∷ seen) m e
          (record {
            inbox =
                Inbox-repeat (Carries env peer text_of before) seen _ _ o.inbox e.sequence old
                  g.positive;
            shown = o.shown;
          })
          d

    Reacts-full : Reacts seen e (m, full)
    unfolding react
    Reacts-full = (record { inbox = o.inbox; shown = o.shown }, d)

    buffer_held : buffer_of (with_held peer m e) peer ≡ insert e.sequence e (buffer_of m peer)
    buffer_held =
        rw (lookup-insert_self peer (insert e.sequence e (buffer_of m peer)) m.recv_buffer)

    Reacts-held : last_seq m peer + 1 < e.sequence → Reacts seen e ((with_held peer m e), held)
    unfolding react
    Reacts-held later =
        acknowledged (e.sequence ∷ seen) (with_held peer m e) e
          (Ordered-at env peer text_of before (e.sequence ∷ seen) (with_held peer m e)
            (last_seq m peer) _ refl buffer_held
            (Inbox-hold (Carries env peer text_of before) seen _ _ o.inbox e.sequence e
              (omega arith) g.carries)
            o.shown)
          (rw buffer_held (
            ground (
              arith,
              lookup-insert (next_seq env peer text_of before m) e.sequence e (buffer_of m peer),
              d,
              g.fits,
            )))

    last_moved : last_seq (moved_on peer m e) peer ≡ e.sequence
    last_moved = rw (lookup-insert_self peer e.sequence m.recv_seq)

    consumed :
        e.sequence ≡ suc (last_seq m peer)
        → Ordered env peer text_of before
            (e.sequence ∷ seen)
            (consume env (moved_on peer m e) peer e (text_of e.sequence))
    consumed is_next =
        subst
          (λ k.
            Ordered env peer text_of before (e.sequence ∷ seen)
              (consume env (moved_on peer m e) peer e (text_of k)))
          (sym is_next)
          (consume-Ordered env peer text_of before (e.sequence ∷ seen) (moved_on peer m e) e
            (last_seq m peer) (buffer_of m peer) (last_moved ∙ is_next) refl inbox o.shown)
      where
        inbox :
            Inbox
              (Carries env peer text_of before)
              (e.sequence ∷ seen)
              (suc (last_seq m peer))
              (buffer_of m peer)
        inbox =
            let p : last_seq m peer + 1 ≡ suc (last_seq m peer) = omega arith in
            let q : last_seq m peer + 1 ≡ e.sequence = omega (arith, is_next) in
            subst
              (λ n.
                Inbox (Carries env peer text_of before) (e.sequence ∷ seen) n (buffer_of m peer))
              p
              (subst
                (λ k.
                  Inbox (Carries env peer text_of before) (k ∷ seen) (last_seq m peer + 1)
                    (buffer_of m peer))
                q
                (Inbox-next (Carries env peer text_of before) seen _ _ o.inbox
                  (omega (arith, g.fits))
                  (subst (λ n. lookup n (buffer_of m peer) ≡ none) (omega (arith, g.fits)) d)))

    Reacts-next : e.sequence ≡ suc (last_seq m peer) → Reacts seen e ((moved_on peer m e), next)
    unfolding react drain_receive_buffer
    Reacts-next is_next =
        drain-Ordered env peer text_of before (e.sequence ∷ seen) _
          (consume env (moved_on peer m e) peer e (text_of e.sequence)) (consumed is_next)
          (omega arith)

    -- The three tests of the section under the mutex.
    pub handle_chat-Ordered :
        Ordered env peer text_of before
          (take_number seen e.sequence (admit m peer e).1)
          (handle_chat env m peer e)
        × IsDrained env peer text_of before (handle_chat env m peer e)
    handle_chat-Ordered = rw (handle_chat-react m e g) (go (leb e.sequence (last_seq m peer)) refl)
      where
        reaches :
            (r : Manager × Admission)
            → admit m peer e ≡ r
            → Reacts seen e r
            → Reacts seen e (admit m peer e)
        reaches r same x = subst (Reacts seen e) (sym same) x

        go : (b : Bool) → leb e.sequence (last_seq m peer) ≡ b → Reacts seen e (admit m peer e)
        go true old =
            reaches (m, duplicate) (unfold admit in ground arith) (Reacts-repeat (ground arith))
        go false new = elim (Bool-cases (ltb ((last_seq m peer + 1) % 2 ^ 64) e.sequence)) [
          | inr is_next ↦
              reaches ((moved_on peer m e), next) (unfold admit in ground arith)
                (Reacts-next (ground (arith, g.fits, o.inbox.fits)))
          | inl later ↦ elim (Bool-cases (leb 64 (length (buffer_of m peer)))) [
            | inl crowded ↦ reaches (m, full) (unfold admit in ground arith) Reacts-full
            | inr room ↦
                reaches ((with_held peer m e), held) (unfold admit in ground arith)
                  (Reacts-held (ground (arith, g.fits, o.inbox.fits)))
          ]
        ]
