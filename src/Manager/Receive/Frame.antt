-- ===== src/Manager/Receive/Frame.antt =====
-- What an acknowledgement leaves alone.
use decentralized_p2p_chat_s.Base.{
  ℕ, ◌≡◌, Bool, false, List, [], ◌∷◌, Option, none, some, arith, ◌==◌, bytes_eq, if◌then◌else◌,
  Bytes, Option-cases, inl, inr,
}
use decentralized_p2p_chat_s.Security.Session.{Session}
use decentralized_p2p_chat_s.Protocol.{Envelope}
use decentralized_p2p_chat_s.Manager.{
  Env, Manager, Effect, wrote, closed, chat_shown, own_message, web_error, peers_changed,
  history_asked, disconnected, rejected, reconnecting, request_shown, printed, reach, write_line,
  send_envelope, send_built, send_ack, draw,
}

-- The texts that were shown as coming from a peer, the newest first.
abbrev pub heard : Bytes → List Effect → List Bytes
heard who [] = []
heard who (chat_shown from name text ∷ es) =
    if from == who then text ∷ heard who es else heard who es
heard who (wrote s line ∷ es) = heard who es
heard who (closed s ∷ es) = heard who es
heard who (own_message to text ∷ es) = heard who es
heard who (web_error text ∷ es) = heard who es
heard who (peers_changed ∷ es) = heard who es
heard who (history_asked peer ∷ es) = heard who es
heard who (disconnected peer ∷ es) = heard who es
heard who (rejected peer ∷ es) = heard who es
heard who (reconnecting peer status ∷ es) = heard who es
heard who (request_shown peer short nick ∷ es) = heard who es
heard who (printed text ∷ es) = heard who es

-- All that the order of delivery depends on is the same in two states.
pub record Quiet (who : Bytes) (m n : Manager) : Type 0 where
  pub node : n.node ≡ m.node
  pub streams : n.streams ≡ m.streams
  pub active : n.active ≡ m.active
  pub send_seq : n.send_seq ≡ m.send_seq
  pub recv_seq : n.recv_seq ≡ m.recv_seq
  pub recv_buffer : n.recv_buffer ≡ m.recv_buffer
  pub pending : n.pending ≡ m.pending
  pub peer_nicks : n.peer_nicks ≡ m.peer_nicks
  pub texts : heard who n.effects ≡ heard who m.effects

pub Quiet-refl : (who : Bytes) (m : Manager) → Quiet who m m
Quiet-refl who m = ground arith

pub Quiet-trans : {who : Bytes} {m n o : Manager} → Quiet who m n → Quiet who n o → Quiet who m o
Quiet-trans p q = ground arith

module _ (who : Bytes) (env : Env) where
  write_line-Quiet :
      (m : Manager) (stream : ℕ) (packet : Bytes) → Quiet who m (write_line env m stream packet).0
  unfolding write_line
  write_line-Quiet m stream packet = ground arith

  draw-Quiet : (m : Manager) → Quiet who m (draw m)
  draw-Quiet m = ground arith

  pub send_envelope-Quiet :
      (m : Manager) (peer : Bytes) (stream : ℕ) (session : Session) (e : Envelope)
      → Quiet who m (send_envelope env m peer stream session e).0
  unfolding send_envelope
  send_envelope-Quiet m peer stream session e = ground arith

  pub send_built-Quiet :
      (m : Manager) (peer : Bytes) (built : Option Envelope)
      → Quiet who m (send_built env m peer built).0
  unfolding send_built
  send_built-Quiet m peer built = elim (Option-cases (reach m peer)) [
    | inl e ↦ rw (e, send_built) (Quiet-refl who m)
    | inr (r, e) ↦ rw (e, send_built) (go r built)
  ]
    where
      go :
          (r : ℕ × Session) (b : Option Envelope)
          → Quiet who m
              (elim b as (λ _. Manager × Bool) [
                | none ↦ (draw m, false)
                | some e ↦ send_envelope env (draw m) peer r.0 r.1 e
              ]).0
      go r none = draw-Quiet m
      go r (some e) = Quiet-trans (draw-Quiet m) (send_envelope-Quiet (draw m) peer r.0 r.1 e)

  pub send_ack-Quiet :
      (m : Manager) (peer message_id : Bytes) → Quiet who m (send_ack env m peer message_id).0
  unfolding send_ack
  send_ack-Quiet m peer message_id = send_built-Quiet m peer _
