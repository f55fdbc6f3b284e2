-- ===== src/Approvals/Laws.antt =====
-- Which request an answer reaches.
use decentralized_p2p_chat_s.Base.{
  ℕ, ◌+◌, ◌≤◌, ◌<◌, ◌≡◌, ◌≢◌, refl, ◌∙◌, Bool, true, false, [], ◌∷◌, none, some, nat_eq, bytes_eq,
  Bytes, length, arith, Option-cases, inl, inr,
}
use decentralized_p2p_chat_s.Base.Dict.{
  Dict, lookup, insert, erase, lookup-insert, lookup-insert_self, lookup-erase, lookup-erase_self,
}
use decentralized_p2p_chat_s.Approvals.{
  Approvals, Request, open_request, close_request, put_answer, respond, respond_by_num,
}

-- One step of the node: a request arrives, a request ends, or the user answers.
pub data Step : Approvals → Approvals → Type 0 where
  opens : (s : Approvals) (peer : Bytes) → Step s (open_request s peer).0
  closes : (s : Approvals) (r : Request) → Step s (close_request s r)
  answers_peer :
      (s : Approvals) (peer : Bytes) (accepted : Bool) → Step s (respond s peer accepted).0
  answers_num :
      (s : Approvals) (num : ℕ) (accepted : Bool) → Step s (respond_by_num s num accepted).0

pub data Steps : Approvals → Approvals → Type 0 where
  stays : (s : Approvals) → Steps s s
  goes_on : (s t u : Approvals) → Step s t → Steps t u → Steps s u

-- No open number is above the last one that was given, and no answer is in a channel that is not
-- allocated yet.
pub record IsOrderly (s : Approvals) : Type 0 where
  pub given : (num : ℕ) → s.next_request_num < num → lookup num s.request_nums ≡ none
  pub unused : (channel : ℕ) → s.allocated ≤ channel → lookup channel s.answers ≡ none
  pub known :
      (peer : Bytes) (channel : ℕ)
      → lookup peer s.pending_approvals ≡ some channel
      → channel < s.allocated

open_request-IsOrderly :
    (s : Approvals) (peer : Bytes) → IsOrderly s → IsOrderly (open_request s peer).0
unfolding open_request
open_request-IsOrderly s peer o = record {
  given = λ num above.
      ground (arith, o.given num, lookup-insert num (s.next_request_num + 1) peer s.request_nums);
  unused = λ channel above. o.unused channel (omega arith);
  known = λ other channel h.
      ground
        (arith, o.known other channel, lookup-insert other peer s.allocated s.pending_approvals);
}

empty_lookup : {V : Type 0} (d : Dict ℕ V) (k : ℕ) → length d ≡ 0 → lookup k d ≡ none
unfolding lookup
empty_lookup [] k h = refl
empty_lookup (x ∷ d) k h = absurd (omega (arith, h))

close_request-IsOrderly :
    (s : Approvals) (r : Request) → IsOrderly s → IsOrderly (close_request s r)
unfolding close_request
close_request-IsOrderly s r o = record {
  given = λ num above. ground (
    arith,
    o.given num,
    lookup-erase num r.num s.request_nums,
    empty_lookup (erase r.num s.request_nums) num,
  );
  unused = o.unused;
  known = λ other channel h.
      ground (arith, o.known other channel, lookup-erase other r.peer s.pending_approvals);
}

put_answer-IsOrderly :
    (s : Approvals) (channel : ℕ) (accepted : Bool)
    → channel < s.allocated
    → IsOrderly s
    → IsOrderly (put_answer s channel accepted)
unfolding put_answer
put_answer-IsOrderly s channel accepted below o = elim (Option-cases (lookup channel s.answers)) [
  | inl h ↦
      rw (h, put_answer)
        (record {
          given = o.given;
          unused =
              λ c above. ground (arith, o.unused c, lookup-insert c channel accepted s.answers);
          known = o.known;
        })
  | inr (old, h) ↦ rw (h, put_answer) o
]

respond-IsOrderly :
    (s : Approvals) (peer : Bytes) (accepted : Bool)
    → IsOrderly s
    → IsOrderly (respond s peer accepted).0
unfolding respond
respond-IsOrderly s peer accepted o = elim (Option-cases (lookup peer s.pending_approvals)) [
  | inl h ↦ rw (h, respond) o
  | inr (channel, h) ↦
      rw (h, respond) (put_answer-IsOrderly s channel accepted (o.known peer channel h) o)
]

respond_by_num-IsOrderly :
    (s : Approvals) (num : ℕ) (accepted : Bool)
    → IsOrderly s
    → IsOrderly (respond_by_num s num accepted).0
unfolding respond_by_num
respond_by_num-IsOrderly s num accepted o = elim (Option-cases (lookup num s.request_nums)) [
  | inl h ↦ rw (h, respond_by_num) o
  | inr (peer, h) ↦ rw (h, respond_by_num) (respond-IsOrderly s peer accepted o)
]

-- Over any sequence of requests, ends of requests and answers, the numbers and channels stay orderly.
Steps-IsOrderly : (s t : Approvals) → Steps s t → IsOrderly s → IsOrderly t
Steps-IsOrderly _ _ (stays s) o = o
Steps-IsOrderly _ _ (goes_on s t u e r) o = Steps-IsOrderly t u r (step s t e o)
  where
    step : (s t : Approvals) → Step s t → IsOrderly s → IsOrderly t
    step _ _ (opens s peer) o = open_request-IsOrderly s peer o
    step _ _ (closes s r) o = close_request-IsOrderly s r o
    step _ _ (answers_peer s peer accepted) o = respond-IsOrderly s peer accepted o
    step _ _ (answers_num s num accepted) o = respond_by_num-IsOrderly s num accepted o

-- `newStreamManager`
abbrev pub no_requests : Approvals
no_requests = record {
  pending_approvals = [];
  request_nums = [];
  next_request_num = 0;
  answers = [];
  allocated = 0;
}

no_requests-IsOrderly : IsOrderly no_requests
unfolding lookup
no_requests-IsOrderly = record {
  given = λ num above. refl;
  unused = λ channel above. refl;
  known = λ peer channel h. let bad : ⊥ = cc h in absurd bad;
}

-- In any state that a node can reach, a new request has a number that no open request has, and the
-- user's answer by that number arrives in its channel and in no other one.
pub request_answered :
    (s : Approvals) (peer : Bytes) (accepted : Bool)
    → Steps no_requests s
    → let opened = open_request s peer in
      let answered = respond_by_num opened.0 opened.1.num accepted in
      (lookup opened.1.num s.request_nums ≡ none)
      × (answered.1 ≡ true)
      × (lookup opened.1.channel answered.0.answers ≡ some accepted)
      × ((other : ℕ)
          → other ≢ opened.1.channel
          → lookup other answered.0.answers ≡ lookup other s.answers)
unfolding open_request respond_by_num respond put_answer
request_answered s peer accepted r =
    let o = Steps-IsOrderly no_requests s r no_requests-IsOrderly in
    (
      o.given (s.next_request_num + 1) (omega arith),
      ground (
        arith,
        lookup-insert_self (s.next_request_num + 1) peer s.request_nums,
        lookup-insert_self peer s.allocated s.pending_approvals,
      ),
      ground (
        arith,
        lookup-insert_self (s.next_request_num + 1) peer s.request_nums,
        lookup-insert_self peer s.allocated s.pending_approvals,
        o.unused s.allocated (omega arith),
        lookup-insert_self s.allocated accepted s.answers,
      ),
      λ other apart. ground (
        arith,
        lookup-insert_self (s.next_request_num + 1) peer s.request_nums,
        lookup-insert_self peer s.allocated s.pending_approvals,
        o.unused s.allocated (omega arith),
        lookup-insert other s.allocated accepted s.answers,
      ),
    )

respond-none :
    (s : Approvals) (peer : Bytes) (accepted : Bool)
    → lookup peer s.pending_approvals ≡ none
    → respond s peer accepted ≡ (s, false)
unfolding respond
respond-none s peer accepted h = rw (h, respond) refl

respond_by_num-some :
    (s : Approvals) (num : ℕ) (peer : Bytes) (accepted : Bool)
    → lookup num s.request_nums ≡ some peer
    → respond_by_num s num accepted ≡ respond s peer accepted
unfolding respond_by_num
respond_by_num-some s num peer accepted h = rw (h, respond_by_num) refl

-- Two requests of the same peer, of which the first ends: the second still has its number, but no
-- answer reaches it any more, neither by the number nor by the peer.
pub second_request_lost :
    (s : Approvals) (peer : Bytes) (accepted : Bool)
    → let first = open_request s peer in
      let second = open_request first.0 peer in
      let left = close_request second.0 first.1 in
      (lookup second.1.num left.request_nums ≡ some peer)
      × (respond_by_num left second.1.num accepted ≡ (left, false))
      × (respond left peer accepted ≡ (left, false))
second_request_lost s peer accepted =
    (there, respond_by_num-some left second.num peer accepted there ∙ unheard, unheard)
  where
    second : Request
    second = (open_request (open_request s peer).0 peer).1

    left : Approvals
    left = close_request (open_request (open_request s peer).0 peer).0 (open_request s peer).1

    there : lookup second.num left.request_nums ≡ some peer
    there =
        unfold open_request close_request in
        ground (
          arith,
          lookup-erase (s.next_request_num + 1 + 1) (s.next_request_num + 1) (
              insert (s.next_request_num + 1 + 1) peer
                (insert (s.next_request_num + 1) peer s.request_nums)),
          lookup-insert_self (s.next_request_num + 1 + 1) peer
              (insert (s.next_request_num + 1) peer s.request_nums),
        )

    unheard : respond left peer accepted ≡ (left, false)
    unheard = respond-none left peer accepted (
        unfold open_request close_request in
        lookup-erase_self peer
          (insert peer (s.allocated + 1) (insert peer s.allocated s.pending_approvals)))
