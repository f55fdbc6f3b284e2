-- ===== src/Manager/Receive/Inbox.antt =====
-- The number last delivered and the buffer of one peer, with the numbers taken so far.
use decentralized_p2p_chat_s.Base.{
  ℕ, zero, suc, ◌+◌, ◌^◌, ◌≤◌, ◌<◌, ◌≡◌, sym, subst, Bool, true, false, List, [], ◌∷◌, Option, none,
  some, arith, nat_eq, Bytes,
}
use decentralized_p2p_chat_s.Base.Dict.{Dict, lookup, insert, erase, lookup-insert, lookup-erase}
use decentralized_p2p_chat_s.Security.Replay.Spec.{contains}
use decentralized_p2p_chat_s.Protocol.{Envelope}

-- The texts of the numbers from `n` down to 1.
abbrev pub countdown : (ℕ → Bytes) → ℕ → List Bytes
countdown text_of zero = []
countdown text_of (suc n) = text_of (suc n) ∷ countdown text_of n

abbrev pub is_some {ℓ} : {A : Type ℓ} → Option A → Bool
is_some none = false
is_some (some a) = true

-- `seen` are the numbers that were delivered or buffered, `last` is the last one delivered.
-- What waits in the buffer is what was seen above `last`.
pub record Inbox (Good : ℕ → Envelope → Type 0) (seen : List ℕ) (last : ℕ)
    (buffer : Dict ℕ Envelope) : Type 0 where
  pub fits : last < 2 ^ 64
  pub delivered : (k : ℕ) → 1 ≤ k → k ≤ last → contains k seen ≡ true
  pub waiting : (k : ℕ) → last < k → contains k seen ≡ is_some (lookup k buffer)
  pub above : (k : ℕ) → k ≤ last → lookup k buffer ≡ none
  pub good : (k : ℕ) (e : Envelope) → lookup k buffer ≡ some e → Good k e

module _ (Good : ℕ → Envelope → Type 0) (seen : List ℕ) (last : ℕ) (buffer : Dict ℕ Envelope)
    (i : Inbox Good seen last buffer) where
  -- The next message leaves the buffer.
  pub Inbox-take :
      (e : Envelope)
      → last + 1 < 2 ^ 64
      → lookup (last + 1) buffer ≡ some e
      → Inbox Good seen (last + 1) (erase (last + 1) buffer)
  Inbox-take e small found = record {
    fits = small;
    delivered = λ k h l. ground (arith, i.delivered k h, i.waiting k);
    waiting = λ k l. ground (arith, i.waiting k, lookup-erase k (last + 1) buffer);
    above = λ k l. ground (arith, i.above k, lookup-erase k (last + 1) buffer);
    good = λ k e' h. i.good k e' (ground (arith, lookup-erase k (last + 1) buffer));
  }

  -- The next message arrives.
  pub Inbox-next :
      last + 1 < 2 ^ 64
      → lookup (last + 1) buffer ≡ none
      → Inbox Good ((last + 1) ∷ seen) (last + 1) buffer
  Inbox-next small gap = record {
    fits = small;
    delivered = λ k h l. ground (arith, i.delivered k h);
    waiting = λ k l. ground (arith, i.waiting k);
    above = λ k l. ground (arith, i.above k);
    good = i.good;
  }

  insert-good :
      (s : ℕ) (e : Envelope)
      → Good s e
      → (k : ℕ) (e' : Envelope) → lookup k (insert s e buffer) ≡ some e'
      → Good k e'
  insert-good s e g k e' h = elim (nat_eq.dec k s) [
    | yes p ↦
        let q : e ≡ e' = ground (arith, lookup-insert k s e buffer) in
        subst (Good k) q (subst (λ j. Good j e) (sym p) g)
    | no n ↦ i.good k e' (ground (arith, lookup-insert k s e buffer))
  ]

  -- A later message is buffered.
  pub Inbox-hold :
      (s : ℕ) (e : Envelope) → last < s → Good s e → Inbox Good (s ∷ seen) last (insert s e buffer)
  Inbox-hold s e later g = record {
    fits = i.fits;
    delivered = λ k h l. ground (arith, i.delivered k h l);
    waiting = λ k l. ground (arith, i.waiting k l, lookup-insert k s e buffer);
    above = λ k l. ground (arith, i.above k l, lookup-insert k s e buffer);
    good = λ k e' h. insert-good s e g k e' h;
  }

  -- A repeated message changes nothing.
  pub Inbox-repeat : (s : ℕ) → s ≤ last → 1 ≤ s → Inbox Good (s ∷ seen) last buffer
  Inbox-repeat s old one = record {
    fits = i.fits;
    delivered = λ k h l. ground (arith, i.delivered k h l);
    waiting = λ k l. ground (arith, i.waiting k l);
    above = i.above;
    good = i.good;
  }
