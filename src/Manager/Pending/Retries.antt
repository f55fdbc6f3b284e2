-- ===== src/Manager/Pending/Retries.antt =====
-- `retransmitDue`: how often a message is sent again, and what an acknowledgement in between does.
use decentralized_p2p_chat_s.Base.{
  ℕ, ◌+◌, ◌≤◌, ◌<◌, ◌≡◌, refl, subst, ap, ◌∙◌, Bool, true, false, List, [], ◌∷◌, Option, none, some,
  arith, leb, eqb, not, ◌||◌, bytes_eq, if◌then◌else◌, Bytes, codes, length,
}
use decentralized_p2p_chat_s.Base.Dict.{
  Dict, lookup, insert, erase, lookup-insert_self, lookup-erase_self,
}
use decentralized_p2p_chat_s.Manager.{PendingChat, Manager, web_error, emit, or_else}
use decentralized_p2p_chat_s.Manager.Pending.{Due, keep_pending, ack_pending, settle}
use decentralized_p2p_chat_s.Manager.Pending.Waiting.{waits, waits-keep_pending, waits-ack_pending}

-- The message of a retransmission as it waits now.
abbrev pub waits_for : Manager → Due → Option PendingChat
waits_for m due = waits m due.peer due.pending.envelope.id

pub settle-gone :
    (m : Manager) (now : ℕ) (due : Due) (written : Bool)
    → waits_for m due ≡ none
    → settle m now due written ≡ m
unfolding settle
settle-gone m now due written h = rw (h, settle) refl

-- A message that was acknowledged while it was sent again is neither counted nor reported, whether
-- the frame was written or not.
pub settle-ack_pending :
    (m : Manager) (now : ℕ) (due : Due) (written : Bool)
    → settle (ack_pending m due.peer due.pending.envelope.id) now due written
      ≡ ack_pending m due.peer due.pending.envelope.id
settle-ack_pending m now due written = settle-gone _ now due written (
    ground (
      arith,
      waits-ack_pending m due.peer due.pending.envelope.id due.peer due.pending.envelope.id,
    ))

-- One more attempt.
abbrev pub again : PendingChat → ℕ → PendingChat
again p now = record p { attempts = p.attempts + 1; last_sent = now }

abbrev pub messages_of : Manager → Due → Dict Bytes PendingChat
messages_of m due = or_else (lookup due.peer m.pending) []

pub settle-ours :
    (m : Manager) (now : ℕ) (due : Due) (p : PendingChat) (written : Bool)
    → waits_for m due ≡ some p
    → p.ref ≡ due.pending.ref
    → settle m now due written ≡ (
        if not written || leb 5 p.attempts
        then emit
            (keep_pending m due.peer (erase due.pending.envelope.id (messages_of m due)))
            (web_error (codes "Message delivery failed"))
        else record m {
          pending =
              insert due.peer
                (insert due.pending.envelope.id (again p now) (messages_of m due))
                m.pending;
        })
unfolding settle
settle-ours m now due p written h r = rw (h, settle) (ground arith)

pub settle-other :
    (m : Manager) (now : ℕ) (due : Due) (p : PendingChat) (written : Bool)
    → waits_for m due ≡ some p
    → eqb p.ref due.pending.ref ≡ false
    → settle m now due written ≡ m
unfolding settle
settle-other m now due p written h r = rw (h, settle) (ground arith)

settle-counts :
    (m : Manager) (now : ℕ) (due : Due) (p : PendingChat)
    → waits_for m due ≡ some p
    → p.ref ≡ due.pending.ref
    → p.attempts < 5
    → (waits_for (settle m now due true) due ≡ some (again p now))
      × ((settle m now due true).effects ≡ m.effects)
settle-counts m now due p h r few = ground (
  arith,
  settle-ours m now due p true h r,
  lookup-insert_self due.peer (insert due.pending.envelope.id (again p now) (messages_of m due))
      m.pending,
  lookup-insert_self due.pending.envelope.id (again p now) (messages_of m due),
)

settle-gives_up :
    (m : Manager) (now : ℕ) (due : Due) (p : PendingChat)
    → waits_for m due ≡ some p
    → p.ref ≡ due.pending.ref
    → 5 ≤ p.attempts
    → (waits_for (settle m now due true) due ≡ none)
      × ((settle m now due true).effects ≡ web_error (codes "Message delivery failed") ∷ m.effects)
unfolding keep_pending
settle-gives_up m now due p h r many = ground (
  arith,
  settle-ours m now due p true h r,
  waits-keep_pending m due.peer due.peer due.pending.envelope.id
      (erase due.pending.envelope.id (messages_of m due)),
  lookup-erase_self due.pending.envelope.id (messages_of m due),
)

-- Rounds of retransmission of the same message, each of which is written.
unfoldable pub settle_all : Manager → List ℕ → Due → Manager
settle_all m [] due = m
settle_all m (now ∷ nows) due = settle_all (settle m now due true) nows due

-- The message of a retransmission, as it waits after a number of attempts.
pub record IsTried (m : Manager) (due : Due) (p : PendingChat) (attempts : ℕ) : Type 0 where
  pub entry : PendingChat
  pub waiting : waits_for m due ≡ some entry
  pub same : entry.ref ≡ p.ref
  pub message : entry.envelope ≡ p.envelope
  pub counted : entry.attempts ≡ attempts

settle_all-IsTried :
    (m : Manager) (nows : List ℕ) (due : Due) (p : PendingChat)
    → waits_for m due ≡ some p
    → p.ref ≡ due.pending.ref
    → p.attempts + length nows ≤ 5
    → IsTried (settle_all m nows due) due p (p.attempts + length nows)
      × ((settle_all m nows due).effects ≡ m.effects)
unfolding settle_all
settle_all-IsTried m [] due p h r few =
    (record { entry = p; waiting = h; same = refl; message = refl; counted = omega arith }, refl)
settle_all-IsTried m (now ∷ nows) due p h r few =
    let one = settle-counts m now due p h r (omega arith) in
    let rest =
      settle_all-IsTried (settle m now due true) nows due (again p now) one.0 r (omega arith) in
    (
      record {
        entry = rest.0.entry;
        waiting = rest.0.waiting;
        same = rest.0.same;
        message = rest.0.message;
        counted = omega (arith, rest.0.counted);
      },
      rest.1 ∙ one.1,
    )

-- A message that was sent once, is sent again and again, and is not acknowledged, waits through four
-- more sendings with nothing reported; with the fifth it no longer waits and one error is shown.
pub five_retries :
    (m : Manager) (nows : List ℕ) (now : ℕ) (due : Due) (p : PendingChat)
    → waits_for m due ≡ some p
    → p.ref ≡ due.pending.ref
    → p.attempts ≡ 1
    → length nows ≤ 4
    → IsTried (settle_all m nows due) due p (1 + length nows)
      × ((settle_all m nows due).effects ≡ m.effects)
      × (length nows ≡ 4
          → (waits_for (settle (settle_all m nows due) now due true) due ≡ none)
            × ((settle (settle_all m nows due) now due true).effects
                ≡ web_error (codes "Message delivery failed") ∷ m.effects))
five_retries m nows now due p h r first few =
    let tried = settle_all-IsTried m nows due p h r (omega arith) in
    (
      subst (IsTried (settle_all m nows due) due p) (omega arith) tried.0,
      tried.1,
      λ four.
          let over =
            settle-gives_up (settle_all m nows due) now due tried.0.entry tried.0.waiting
              (tried.0.same ∙ r) (omega (arith, tried.0.counted)) in
          (over.0, over.1 ∙ ap (λ es. web_error (codes "Message delivery failed") ∷ es) tried.1),
    )
