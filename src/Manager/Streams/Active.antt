-- ===== src/Manager/Streams/Active.antt =====
-- The active peer is connected, or there is none.
use decentralized_p2p_chat_s.Base.{
  Bool, true, refl, ℕ, ◌≡◌, ◌≢◌, [], Option, none, some, bytes_eq, Bytes, ◌⊎◌,
}
use decentralized_p2p_chat_s.Base.Dict.{lookup, lookup-erase_self}
use decentralized_p2p_chat_s.Base.Int.{ℤ}
use decentralized_p2p_chat_s.Security.Session.{Session}
use decentralized_p2p_chat_s.Manager.{Env, Manager}
use decentralized_p2p_chat_s.Manager.Pending.{clear_pending}
use decentralized_p2p_chat_s.Manager.Streams.{
  add_stream, unregister, forget_peer, chosen_peer, set_active, read_line, disconnect_peer,
  disconnect_active,
}
use decentralized_p2p_chat_s.Manager.Streams.Stays.{Stays}
use decentralized_p2p_chat_s.Manager.Pending.Steps.{Step}

-- All that happens to the node's conversations: a step of sending or receiving, a connection, a line
-- or an error on a stream, and the user's commands but for `switchPeer`.
pub data Event (env : Env) : Manager → Manager → Type 0 where
  stepped : (m n : Manager) → Step env m n → Event env m n
  connects :
      (m : Manager) (peer : Bytes) (stream : ℕ) (handshaken : Option Session)
      → Event env m (add_stream env m peer stream handshaken)
  reads :
      (m : Manager) (peer : Bytes) (stream : ℕ) (line : Option Bytes)
      → Event env m (read_line env m peer stream line)
  disconnects : (m : Manager) (peer : Bytes) → Event env m (disconnect_peer m peer)
  disconnects_active : (m : Manager) → Event env m (disconnect_active m)

-- The peers that are stranded: the second half of a `switchPeer` may make them active after their
-- connection was lost.
module _ (stranded : Bytes → Bool) where
  -- The active peer has a stream, or no peer is active, or it is stranded.
  abbrev pub IsActive : Manager → Type 0
  IsActive m = (m.active ≡ []) ⊎ (lookup m.active m.streams ≢ none) ⊎ (stranded m.active ≡ true)

  -- A sequence of events. Between the two halves of `switchPeer` anything may happen. A chosen peer whose
  -- connection is lost there is one of those that are stranded.
  pub data Events (env : Env) : Manager → Manager → Type 0 where
    stays : (m : Manager) → Events env m m
    goes_on : (m n o : Manager) → Event env m n → Events env n o → Events env m o
    switches :
        (m n o : Manager) (number : Option ℤ)
        → Events env m n
        → ((p : Bytes)
            → chosen_peer env m number ≡ some p
            → (lookup p n.streams ≢ none) ⊎ (stranded p ≡ true))
        → Events env (set_active n (chosen_peer env m number)) o
        → Events env m o

-- A peer that is lost between the two halves of `switchPeer` becomes active without a connection.
pub set_active-forget_peer :
    (m : Manager) (p : Bytes)
    → let n = set_active (forget_peer m p) (some p) in
      (n.active ≡ p) × (lookup n.active n.streams ≡ none)
unfolding set_active forget_peer unregister clear_pending
set_active-forget_peer m p = (refl, lookup-erase_self p m.streams)
