-- ===== src/Tests/Pending.antt =====
-- Examples of messages that are sent and wait for their acknowledgement.
use decentralized_p2p_chat_s.Base.{
  ℕ, ◌≡◌, ◌≢◌, refl, true, false, [], ◌∷◌, Option, none, some, arith, Bytes, codes, bytes_eq,
  bytes_lt,
}
use decentralized_p2p_chat_s.Base.Dict.{lookup}
use decentralized_p2p_chat_s.Base64
use decentralized_p2p_chat_s.Security.Session.{encrypt}
use decentralized_p2p_chat_s.Protocol.{Envelope, encode, validate, new_chat, new_envelope}
use decentralized_p2p_chat_s.Manager.{
  Env, Manager, PendingChat, web_error, conversation_id, or_else, reach, send_envelope,
  new_chat_envelope,
}
use decentralized_p2p_chat_s.Manager.Pending.{Due, send_chat, settle, ack_pending}
use decentralized_p2p_chat_s.Manager.Pending.Waiting.{waits}
use decentralized_p2p_chat_s.Manager.Pending.Sending.{
  IsSent, next_number, send_chat-IsSent, send_chat-failed,
}
use decentralized_p2p_chat_s.Manager.Pending.Retries.{
  IsTried, waits_for, settle_all, five_retries, settle-ack_pending,
}
use decentralized_p2p_chat_s.Manager.Pending.Steps.{
  sends, receives, stays, goes_on, IsTracked, Steps-IsTracked,
}
use decentralized_p2p_chat_s.Manager.Receive.{handle_envelope}
use decentralized_p2p_chat_s.Tests.Chat.{peer, toy_env, alone, connected, message}

nothing_waits : IsTracked alone
unfolding lookup
nothing_waits k id p w = let bad : ⊥ = cc w in absurd bad

Steps-IsTracked_example : IsTracked (
    handle_envelope toy_env (send_chat toy_env alone peer (104 ∷ [])).0 peer (message 1 (104 ∷ [])))
Steps-IsTracked_example =
    Steps-IsTracked toy_env alone
      (handle_envelope toy_env (send_chat toy_env alone peer (104 ∷ [])).0 peer
        (message 1 (104 ∷ [])))
      (goes_on alone (send_chat toy_env alone peer (104 ∷ [])).0 _ (sends alone peer (104 ∷ [])) (
        goes_on _ _ _
          (receives (send_chat toy_env alone peer (104 ∷ [])).0 peer (message 1 (104 ∷ [])))
          (stays (
            handle_envelope toy_env (send_chat toy_env alone peer (104 ∷ [])).0 peer
              (message 1 (104 ∷ []))))))
      nothing_waits

abbrev tried_once : PendingChat
tried_once = record { ref = 3; envelope = message 1 (104 ∷ []); last_sent = 1000; attempts = 1 }

abbrev due : Due
due = record { peer = peer; pending = tried_once }

abbrev waiting : Manager
waiting = record connected { pending = (peer, (5 ∷ 1 ∷ [], tried_once) ∷ []) ∷ [] }

waiting_lem : waits_for waiting due ≡ some tried_once
unfolding lookup bytes_eq
waiting_lem = refl

five_retries_example :
    IsTried (settle_all waiting (1 ∷ 2 ∷ 3 ∷ 4 ∷ []) due) due tried_once 5
    × ((settle_all waiting (1 ∷ 2 ∷ 3 ∷ 4 ∷ []) due).effects ≡ [])
    × (◌≡◌ {A = ℕ} 4 4
        → (waits_for (settle (settle_all waiting (1 ∷ 2 ∷ 3 ∷ 4 ∷ []) due) 5 due true) due ≡ none)
          × ((settle (settle_all waiting (1 ∷ 2 ∷ 3 ∷ 4 ∷ []) due) 5 due true).effects
              ≡ web_error (codes "Message delivery failed") ∷ []))
five_retries_example =
    five_retries waiting (1 ∷ 2 ∷ 3 ∷ 4 ∷ []) 5 due tried_once waiting_lem refl refl (omega arith)

settle-ack_pending_example :
    settle (ack_pending waiting peer (5 ∷ 1 ∷ [])) 5 due true
    ≡ ack_pending waiting peer (5 ∷ 1 ∷ [])
settle-ack_pending_example = settle-ack_pending waiting 5 due true

abbrev sent : Manager × Option Envelope
sent = send_chat toy_env connected peer (104 ∷ [])

abbrev sent_envelope : Envelope
sent_envelope = or_else sent.1 (message 1 [])

sent_lem : sent ≡ (sent.0, some sent_envelope)
unfolding send_chat reach lookup bytes_eq new_chat_envelope new_chat new_envelope validate codes
    Base64.encode conversation_id bytes_lt send_envelope encode encrypt
sent_lem = refl

send_chat-IsSent_example : IsSent toy_env peer connected sent.0 sent_envelope
send_chat-IsSent_example =
    send_chat-IsSent toy_env peer connected sent.0 (104 ∷ []) sent_envelope sent_lem

-- The same, where nothing can be written to the stream.
abbrev mute_env : Env
mute_env = record toy_env { can_write = λ stream n. false }

abbrev unsent : Manager × Option Envelope
unsent = send_chat mute_env connected peer (104 ∷ [])

unsent_lem : unsent ≡ (unsent.0, none)
unfolding send_chat reach lookup bytes_eq new_chat_envelope new_chat new_envelope validate codes
    Base64.encode conversation_id bytes_lt send_envelope encode encrypt
unsent_lem = refl

send_chat-failed_example :
    ((who id : Bytes) (p : PendingChat)
      → waits unsent.0 who id ≡ some p
      → waits connected who id ≡ some p)
    × (reach connected peer ≢ none
        → lookup peer unsent.0.send_seq ≡ some (next_number mute_env peer connected))
send_chat-failed_example = send_chat-failed mute_env peer connected unsent.0 (104 ∷ []) unsent_lem
